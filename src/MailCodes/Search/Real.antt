-- ===== src/MailCodes/Search/Real.antt =====
-- The messages that the search of cloud/src/automation/mail_codes.py returns are the mailbox's.
use Prim.Native.String.{◌++◌ as append}
use get_receipt.Config.Numerals.{decimal}
use get_receipt.Base.{
  ℕ, suc, String, Option, none, some, List, [], ◌∷◌, map, any, if◌then◌else◌, ◌==◌, string_eq,
  Result, ok, err, All, All-append, branches, leb, ◌&&◌, length, nat_eq,
}
use get_receipt.Base.Text.{is_empty, codes}
use get_receipt.Base.Exec.{pure, lift}
use get_receipt.Base.Exec.Reports.{Reports, OutcomeOf, Reports-bind}
use get_receipt.MailCodes.{Message, MailCodeSource}
use get_receipt.MailCodes.Search.{
  Mailbox, Reader, Read, Fault, unavailable, raised, out_of_rounds, Response, Body, no_connection,
  answered, invalid, messages, no_messages, not_an_object, call, access_token, search_once,
  search_term_or_none, in_order, search_each, search_all, search, codes_lt, insert_newest,
  newest_first, setdefault, merge_term, merge_terms, Merged, messages_of, or_none, or_text,
  failures, merged_of, messages_in,
}

-- The messages of a response.
abbrev pub AllIn : (Message → Type 0) → Response → Type 0
AllIn Real (answered status (messages found)) = All Real found
AllIn Real response = Unit

-- Every message that the mailbox ever answers with is one of these.
abbrev pub Delivers : {W : Type 0} → (Message → Type 0) → Mailbox W → Type 0
Delivers Real mailbox = (token term : String) (w : _) → AllIn Real (mailbox.get token term w).0

abbrev Anything : {E S : Type 0} → E → S → Type 0
Anything e s = Unit

module _ (Real : Message → Type 0) where
  abbrev pub AllKnown : Option (List Message) → Type 0
  AllKnown none = Unit
  AllKnown (some found) = All Real found

  insert_newest-All :
      (m : Message) (ms : List Message) → Real m → All Real ms → All Real (insert_newest m ms)
  unfolding insert_newest
  insert_newest-All m [] r rs = (r, tt)
  insert_newest-All m (n ∷ ns) r (q, qs) =
      branches (All Real) (codes_lt (codes m.received) (codes n.received)) _ _
        (λ _. (q, insert_newest-All m ns r qs)) (λ _. (r, (q, qs)))

  newest_first-All : (ms : List Message) → All Real ms → All Real (newest_first ms)
  unfolding newest_first
  newest_first-All [] rs = tt
  newest_first-All (m ∷ ms) (r, rs) =
      insert_newest-All m (newest_first ms) r (newest_first-All ms rs)

  abbrev AllMerged : Merged → Type 0
  AllMerged = All (λ pair. Real pair.1)

  setdefault-All :
      (merged : Merged) (key : String) (m : Message)
      → AllMerged merged
      → Real m
      → AllMerged (setdefault merged key m)
  setdefault-All merged key m rs r =
      branches AllMerged (any (λ pair. pair.0 == key) merged) _ _ (λ _. rs)
        (λ _. All-append (λ pair. Real pair.1) merged _ rs (r, tt))

  merge_term-All :
      (merged : Merged) (term : String) (index : ℕ) (ms : List Message)
      → AllMerged merged
      → All Real ms
      → AllMerged (merge_term merged term index ms)
  unfolding merge_term
  merge_term-All merged term index [] rs qs = rs
  merge_term-All merged term index (m ∷ ms) rs (q, qs) =
      merge_term-All (setdefault merged (or_text m.id (append term (append "#" (decimal index)))) m)
        term (suc index) ms (setdefault-All merged _ m rs q) qs

  merge_terms-All :
      (merged : Merged) (found : List (String × Option (List Message)))
      → AllMerged merged
      → All (λ pair. AllKnown pair.1) found
      → AllMerged (merge_terms merged found)
  unfolding merge_terms
  merge_terms-All merged [] rs qs = rs
  merge_terms-All merged ((term, none) ∷ rest) rs (q, qs) = merge_terms-All merged rest rs qs
  merge_terms-All merged ((term, some found) ∷ rest) rs (q, qs) =
      merge_terms-All (merge_term merged term 0 found) rest
        (merge_term-All merged term 0 found rs q) qs

  map-All : (merged : Merged) → AllMerged merged → All Real (map (λ pair. pair.1) merged)
  map-All [] rs = tt
  map-All (pair ∷ merged) (r, rs) = (r, map-All merged rs)

  unread-All :
      (terms : List String)
      → All {A = String × Option (List Message)}
          (λ pair. AllKnown pair.1)
          (map (λ name. (name, none)) terms)
  unread-All [] = tt
  unread-All (term ∷ terms) = (tt, unread-All terms)

  module _ {W : Type 0} (mailbox : Mailbox W) (delivers : Delivers Real mailbox) where
    abbrev pub Finds : {A : Type 0} → (A → Type 0) → Read W A → Reader W → Type 0
    Finds Q m s = Reports m s (λ a t. Q a) (λ e t. Unit)

    abbrev OnOk : {A : Type 0} → (A → Type 0) → Result Fault A → Type 0
    OnOk Q (ok a) = Q a
    OnOk Q (err e) = Unit

    lift-Finds :
        {A : Type 0} {Q : A → Type 0} (r : Result Fault A) (s : Reader W)
        → OnOk Q r
        → Finds Q (lift r) s
    unfolding lift
    lift-Finds (ok a) s q = record { at = q }
    lift-Finds (err e) s q = record { at = tt }

    messages_of-OnOk :
        (response : Response) → AllIn Real response → OnOk (All Real) (messages_of response)
    messages_of-OnOk no_connection r = tt
    messages_of-OnOk (answered status body) r =
        branches (OnOk (All Real)) (leb 400 status) _ _ (λ _. tt) (λ _. go body r)
      where
        go : (body : Body) → AllIn Real (answered status body) → OnOk (All Real) (messages_in body)
        go invalid r = tt
        go (messages found) r = r
        go no_messages r = tt
        go not_an_object r = tt

    any-Finds : {A : Type 0} (m : Read W A) (s : Reader W) → Finds (λ a. Unit) m s
    any-Finds {A = A} m s = record { at = go (m s) }
      where
        go :
            (p : Result Fault A × Reader W)
            → OutcomeOf (λ (a : A) (t : Reader W). Unit {0}) (λ e t. Unit {0}) p
        go (ok a, t) = tt
        go (err e, t) = tt

    search_once-Finds :
        (term token : String) (s : Reader W) → Finds (All Real) (search_once mailbox term token) s
    unfolding search_once
    search_once-Finds term token s =
        Reports-bind (if is_empty token then access_token mailbox else pure token) _ s
          (any-Finds _ s)
          (λ used t _.
            Reports-bind {Q = λ response u. AllIn Real response}
              (call mailbox (mailbox.get used term)) _ t
              (record { at = delivers used term t.world })
              (λ response u r. lift-Finds (messages_of response) u (messages_of-OnOk response r)))

    abbrev Known : List (String × Option (List Message)) → Type 0
    Known = All (λ pair. AllKnown pair.1)

    search_term_or_none-Finds :
        (term token : String) (s : Reader W)
        → Finds AllKnown (search_term_or_none mailbox term token) s
    unfolding search_term_or_none
    search_term_or_none-Finds term token s = record {
      at = go (search_once mailbox term token s) (search_once-Finds term token s).at;
    }
      where
        go :
            (p : Result Fault (List Message) × Reader W)
            → OutcomeOf (λ found (t : Reader W). All Real found) (λ e t. Unit {0}) p
            → OutcomeOf
                (λ known (t : Reader W). AllKnown known)
                (λ e t. Unit {0})
                (or_none p.0, p.1)
        go (ok found, t) r = r
        go (err unavailable, t) r = tt
        go (err (raised e), t) r = tt
        go (err out_of_rounds, t) r = tt

    in_order-Known :
        (term : String) (p : Result Fault (Option (List Message)) × Reader W)
        (q : Result Fault (List (String × Option (List Message))) × Reader W)
        → OutcomeOf (λ known (t : Reader W). AllKnown known) (λ e t. Unit {0}) p
        → OutcomeOf (λ found (t : Reader W). Known found) (λ e t. Unit {0}) q
        → OutcomeOf
            (λ found (t : Reader W). Known found)
            (λ e t. Unit {0})
            (in_order term p.0 q.0, q.1)
    in_order-Known term (err e, t) q k l = tt
    in_order-Known term (ok known, t) (err e, u) k l = tt
    in_order-Known term (ok known, t) (ok found, u) k l = (k, l)

    search_each-Finds :
        (token : String) (terms : List String) (s : Reader W)
        → Finds Known (search_each mailbox token terms) s
    unfolding search_each
    search_each-Finds token [] s = record { at = tt }
    search_each-Finds token (term ∷ terms) s =
        let t = (search_term_or_none mailbox term token s).1 in
        record {
          at =
              in_order-Known term (search_term_or_none mailbox term token s)
                (search_each mailbox token terms t) (search_term_or_none-Finds term token s).at
                (search_each-Finds token terms t).at;
        }

    search_all-Finds :
        (terms : List String) (s : Reader W) → Finds Known (search_all mailbox terms) s
    unfolding search_all
    search_all-Finds [] s = record { at = tt }
    search_all-Finds (term ∷ []) s = record {
      at =
          in_order-Known term (search_term_or_none mailbox term "" s)
            (ok [], (search_term_or_none mailbox term "" s).1)
            (search_term_or_none-Finds term "" s).at tt;
    }
    search_all-Finds (term ∷ other ∷ terms) s = record { at = go (mailbox.access_token s.world) }
      where
        go :
            (p : Result String String × W)
            → OutcomeOf
                (λ found (t : Reader W). Known found)
                (λ e t. Unit {0})
                (elim p.0
                  as (λ _. Result Fault (List (String × Option (List Message))) × Reader W) [
                    | ok token ↦
                        search_each mailbox token (term ∷ other ∷ terms) (record s { world = p.1 })
                    | err e ↦ (
                      ok (map (λ name. (name, none)) (term ∷ other ∷ terms)),
                      record s { world = p.1 },
                    )
                  ])
        go (ok token, w) =
            (search_each-Finds token (term ∷ other ∷ terms) (record s { world = w })).at
        go (err e, w) = unread-All (term ∷ other ∷ terms)

    merged_of-OnOk :
        (source : MailCodeSource) (found : List (String × Option (List Message)))
        → Known found
        → OnOk (All Real) (merged_of source found)
    merged_of-OnOk source found k =
        branches (OnOk (All Real))
          (leb 1 (failures found) && failures found == length source.search_terms) _ _ (λ _. tt)
          (λ _. newest_first-All _ (map-All (merge_terms [] found) (merge_terms-All [] found tt k)))

    -- What a search returns is all the mailbox's.
    pub search-Finds :
        (source : MailCodeSource) (s : Reader W) → Finds (All Real) (search mailbox source) s
    unfolding search
    search-Finds source s =
        Reports-bind (search_all mailbox source.search_terms) _ s
          (search_all-Finds source.search_terms s)
          (λ found t k. lift-Finds (merged_of source found) t (merged_of-OnOk source found k))
