-- ===== src/MailCodes/Timely.antt =====
-- The time that the search of cloud/src/automation/mail_codes.py takes.
pub mod Reads
use get_receipt.Base.{
  ℕ, ◌+◌, ◌≤◌, String, ◌&&◌, Option, none, List, [], ◌∷◌, ◌≢◌, refl, map, if◌then◌else◌, ◌==◌,
  nat_eq, Result, ok, err, branches, leb, arith, length,
}
use get_receipt.Base.Text.{is_empty}
use get_receipt.Base.Exec.{continue, pure, lift, ◌>>=◌}
use get_receipt.MailCodes.{Texts, Message, MailCodeSource}
use get_receipt.MailCodes.Search.{
  Mailbox, Reader, Read, Fault, unavailable, raised, out_of_rounds, call, access_token, token_of,
  search, search_once, search_term_or_none, search_each, search_all, in_order, merged_of,
  messages_of, messages_in, or_none, failures, Response, answered, no_connection, Body, invalid,
  messages, no_messages, not_an_object,
}

-- A clock that never goes back: a reading is of the time of the call, and a sleep takes its length.
pub record Forward {W : Type 0} (mailbox : Mailbox W) (clock : W → ℕ) : Type 0 where
  pub before_now : (w : W) → clock w ≤ (mailbox.now w).0
  pub after_now : (w : W) → (mailbox.now w).0 ≤ clock (mailbox.now w).1
  pub after_sleep : (length : ℕ) (w : W) → clock w + length ≤ clock (mailbox.sleep length w)
  pub after_token : (w : W) → clock w ≤ clock (mailbox.access_token w).1
  pub after_get : (token term : String) (w : W) → clock w ≤ clock (mailbox.get token term w).1
  pub after_mark : (token id : String) (w : W) → clock w ≤ clock (mailbox.mark_read token id w).1
  pub after_move : (token id : String) (w : W) → clock w ≤ clock (mailbox.move_away token id w).1

pub le_trans : (a b c : ℕ) → a ≤ b → b ≤ c → a ≤ c
le_trans a b c h k = omega (arith, h, k)

pub le_refl : (a : ℕ) → a ≤ a
le_refl a = omega arith

-- An outcome that a fault of the code explains.
abbrev pub Coded : {A : Type 0} → Result Fault A → Type 0
Coded r = r ≢ err out_of_rounds

token_of-Coded : (r : Result String String) → Coded (token_of r)
token_of-Coded (ok token) h = cc h
token_of-Coded (err e) h = cc h

messages_of-Coded : (response : Response) → Coded (messages_of response)
messages_of-Coded no_connection = λ h. cc h
messages_of-Coded (answered status body) =
    branches Coded (leb 400 status) _ _ (λ _ h. cc h) (λ _. go body)
  where
    go : (body : Body) → Coded (messages_in body)
    go invalid h = cc h
    go (messages found) h = cc h
    go no_messages h = cc h
    go not_an_object h = cc h

merged_of-Coded :
    (source : MailCodeSource) (found : List (String × Option (List Message)))
    → Coded (merged_of source found)
merged_of-Coded source found =
    branches Coded (leb 1 (failures found) && failures found == length source.search_terms) _ _
      (λ _ h. cc h) (λ _ h. cc h)

or_none-Coded : (r : Result Fault (List Message)) → Coded r → Coded (or_none r)
or_none-Coded (ok found) n h = cc h
or_none-Coded (err unavailable) n h = cc h
or_none-Coded (err (raised e)) n h = cc h
or_none-Coded (err out_of_rounds) n h = n refl

in_order-Coded :
    (term : String) (r : Result Fault (Option (List Message)))
    (q : Result Fault (List (String × Option (List Message))))
    → Coded r
    → Coded q
    → Coded (in_order term r q)
in_order-Coded term (err unavailable) q n m h = cc h
in_order-Coded term (err (raised e)) q n m h = cc h
in_order-Coded term (err out_of_rounds) q n m h = n refl
in_order-Coded term (ok found) (err e) n m h = m h
in_order-Coded term (ok found) (ok rest) n m h = cc h

module _ {W : Type 0} (texts : Texts) (mailbox : Mailbox W) (clock : W → ℕ)
    (forward : Forward mailbox clock) where
  -- A call that takes its time and does not run out of rounds.
  abbrev pub Timely : {A : Type 0} → Result Fault A × Reader W → Reader W → Type 0
  Timely p s = Coded p.0 × (clock s.world ≤ clock p.1.world)

  pub then-Timely :
      {A B : Type 0} (m : Read W A) (f : A → Read W B) (s : Reader W)
      → Timely (m s) s
      → ((a : A) (t : Reader W) → Timely (f a t) t)
      → Timely ((m >>= f) s) s
  unfolding ◌>>=◌
  then-Timely {A = A} {B = B} m f s h k = go (m s) h
    where
      go : (p : Result Fault A × Reader W) → Timely p s → Timely (continue p.0 f p.1) s
      go (ok a, t) (n, le) =
          let (n', le') = k a t in (n', le_trans (clock s.world) (clock t.world) _ le le')
      go (err e, t) (n, le) = ((λ h. n (cc h)), le)

  lift-Timely : {A : Type 0} (r : Result Fault A) (s : Reader W) → Coded r → Timely (lift r s) s
  unfolding lift
  lift-Timely r s n = (n, le_refl (clock s.world))

  pub call-Timely :
      {A : Type 0} (f : W → A × W) (s : Reader W)
      → clock s.world ≤ clock (f s.world).1
      → Timely (call mailbox f s) s
  call-Timely f s le = ((λ h. cc h), le)

  search_once-Timely :
      (term token : String) (s : Reader W) → Timely (search_once mailbox term token s) s
  unfolding search_once pure
  search_once-Timely term token s =
      then-Timely (if is_empty token then access_token mailbox else pure token) _ s
        (branches (λ (m : Read W String). Timely (m s) s) (is_empty token) _ _
          (λ _.
            then-Timely (call mailbox mailbox.access_token) (λ r. lift (token_of r)) s
              (call-Timely mailbox.access_token s (forward.after_token s.world))
              (λ r t. lift-Timely (token_of r) t (token_of-Coded r)))
          (λ _. ((λ h. cc h), le_refl (clock s.world))))
        (λ used t.
          then-Timely (call mailbox (mailbox.get used term))
            (λ response. lift (messages_of response)) t
            (call-Timely (mailbox.get used term) t (forward.after_get used term t.world))
            (λ response u. lift-Timely (messages_of response) u (messages_of-Coded response)))

  search_term_or_none-Timely :
      (term token : String) (s : Reader W) → Timely (search_term_or_none mailbox term token s) s
  unfolding search_term_or_none
  search_term_or_none-Timely term token s =
      let (n, le) = search_once-Timely term token s in (or_none-Coded _ n, le)

  search_each-Timely :
      (token : String) (terms : List String) (s : Reader W)
      → Timely (search_each mailbox token terms s) s
  unfolding search_each
  search_each-Timely token [] s = ((λ h. cc h), le_refl (clock s.world))
  search_each-Timely token (term ∷ terms) s =
      let t = (search_term_or_none mailbox term token s).1 in
      let (n, le) = search_term_or_none-Timely term token s in
      let (m, le') = search_each-Timely token terms t in
      (in_order-Coded term _ _ n m, le_trans (clock s.world) (clock t.world) _ le le')

  search_all-Timely : (terms : List String) (s : Reader W) → Timely (search_all mailbox terms s) s
  unfolding search_all
  search_all-Timely [] s = ((λ h. cc h), le_refl (clock s.world))
  search_all-Timely (term ∷ []) s =
      let (n, le) = search_term_or_none-Timely term "" s in
      (in_order-Coded term _ (ok []) n (λ h. cc h), le)
  search_all-Timely (term ∷ other ∷ terms) s =
      go (mailbox.access_token s.world) (forward.after_token s.world)
    where
      go :
          (p : Result String String × W)
          → clock s.world ≤ clock p.1
          → Timely
              (elim p.0 as (λ _. Result Fault (List (String × Option (List Message))) × Reader W) [
                | ok token ↦
                    search_each mailbox token (term ∷ other ∷ terms) (record s { world = p.1 })
                | err e ↦ (
                  ok (map (λ name. (name, none)) (term ∷ other ∷ terms)),
                  record s { world = p.1 },
                )
              ])
              s
      go (ok token, w) le =
          let (n, le') = search_each-Timely token (term ∷ other ∷ terms) (record s { world = w }) in
          (n, le_trans (clock s.world) (clock w) _ le le')
      go (err e, w) le = ((λ h. cc h), le)

  pub search-Timely : (source : MailCodeSource) (s : Reader W) → Timely (search mailbox source s) s
  unfolding search
  search-Timely source s =
      then-Timely (search_all mailbox source.search_terms) (λ found. lift (merged_of source found))
        s (search_all-Timely source.search_terms s)
        (λ found t. lift-Timely (merged_of source found) t (merged_of-Coded source found))
