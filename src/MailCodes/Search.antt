-- ===== src/MailCodes/Search.antt =====
-- The search of cloud/src/automation/mail_codes.py in the mailbox.
-- The searches of several terms run at once; here they take their turns in the order of the terms.
pub mod Real
use Prim.Native.String.{◌++◌ as append}
use get_receipt.Base.{
  ℕ, suc, String, Bool, true, false, ◌&&◌, ◌||◌, Option, none, some, List, [], ◌∷◌, ◌++◌, map, any,
  if◌then◌else◌, ◌==◌, nat_eq, string_eq, Result, ok, err, length, leb, ltb,
}
use get_receipt.Base.Text.{is_empty, codes}
use get_receipt.Base.Exec.{Exec, pure, lift, ◌>>=◌}
use get_receipt.Config.Numerals.{decimal}
use get_receipt.MailCodes.{Message, MailCodeSource}

-- `MailCodeUnavailableError`, another exception, and more rounds than a wait was given.
pub data Fault : Type 0 where
  unavailable : Fault
  raised : String → Fault
  out_of_rounds : Fault

-- What a request ends in: no connection, or a status with what the body is.
pub data Body : Type 0 where
  invalid : Body
  messages : List Message → Body
  no_messages : Body
  not_an_object : Body

pub data Response : Type 0 where
  no_connection : Response
  answered : ℕ → Body → Response

-- The clock, the mailbox and the provider of tokens; a call that is only made for its effect may raise.
pub record Mailbox (W : Type 0) : Type 0 where
  pub now : W → ℕ × W
  pub sleep : ℕ → W → W
  pub access_token : W → Result String String × W
  pub get : String → String → W → Response × W
  pub mark_read : String → String → W → Bool × W
  pub move_away : String → String → W → Bool × W

-- `MailVerificationCodeReader`.
pub record Reader (W : Type 0) : Type 0 where
  pub pending_fallback_id : String
  pub world : W

abbrev pub Read : Type 0 → Type 0 → Type 0
Read W A = Exec (Reader W) Fault A

abbrev pub or_text : String → String → String
or_text a b = if is_empty a then b else a

-- The texts' order by code points.
unfoldable pub codes_lt : List ℕ → List ℕ → Bool
codes_lt xs [] = false
codes_lt [] (y ∷ ys) = true
codes_lt (x ∷ xs) (y ∷ ys) = ltb x y || x == y && codes_lt xs ys

-- `sorted(..., key=received, reverse=True)`, which keeps the order of equal keys.
unfoldable pub insert_newest : Message → List Message → List Message
unfolding codes_lt
insert_newest m [] = m ∷ []
insert_newest m (n ∷ ns) =
    let rest = insert_newest m ns in
    if codes_lt (codes m.received) (codes n.received) then n ∷ rest else m ∷ n ∷ ns

unfoldable pub newest_first : List Message → List Message
unfolding insert_newest
newest_first [] = []
newest_first (m ∷ ms) = insert_newest m (newest_first ms)

abbrev pub Merged : Type 0
Merged = List (String × Message)

-- `merged.setdefault(key, message)`.
abbrev pub setdefault : Merged → String → Message → Merged
setdefault merged key message =
    if any (λ pair. pair.0 == key) merged then merged else merged ++ (key, message) ∷ []

-- The messages of one term, from the position `index`.
unfoldable pub merge_term : Merged → String → ℕ → List Message → Merged
merge_term merged term index [] = merged
merge_term merged term index (m ∷ ms) =
    merge_term (setdefault merged (or_text m.id (append term (append "#" (decimal index)))) m) term
      (suc index) ms

unfoldable pub merge_terms : Merged → List (String × Option (List Message)) → Merged
unfolding merge_term
merge_terms merged [] = merged
merge_terms merged ((term, none) ∷ rest) = merge_terms merged rest
merge_terms merged ((term, some found) ∷ rest) = merge_terms (merge_term merged term 0 found) rest

abbrev pub failures : List (String × Option (List Message)) → ℕ
failures [] = 0
failures ((term, none) ∷ rest) = suc (failures rest)
failures ((term, some found) ∷ rest) = failures rest

abbrev pub messages_in : Body → Result Fault (List Message)
messages_in invalid = err unavailable
messages_in (messages found) = ok found
messages_in no_messages = ok []
messages_in not_an_object = err (raised "AttributeError")

-- `_search_once` behind the request.
abbrev pub messages_of : Response → Result Fault (List Message)
messages_of no_connection = err unavailable
messages_of (answered status body) = if leb 400 status then err unavailable else messages_in body

abbrev pub token_of : Result String String → Result Fault String
token_of (ok token) = ok token
token_of (err e) = err (raised e)

-- `except MailCodeUnavailableError: return None`.
abbrev pub or_none : Result Fault (List Message) → Result Fault (Option (List Message))
or_none (ok found) = ok (some found)
or_none (err unavailable) = ok none
or_none (err fault) = err fault

-- The results in the order of the terms, or the first exception.
abbrev pub in_order :
    String
    → Result Fault (Option (List Message))
    → Result Fault (List (String × Option (List Message)))
    → Result Fault (List (String × Option (List Message)))
in_order term (err e) rest = err e
in_order term (ok found) (err e) = err e
in_order term (ok found) (ok rest) = ok ((term, found) ∷ rest)

abbrev pub merged_of :
    MailCodeSource → List (String × Option (List Message)) → Result Fault (List Message)
merged_of source found =
    if leb 1 (failures found) && failures found == length source.search_terms
    then err unavailable
    else ok (newest_first (map (λ pair. pair.1) (merge_terms [] found)))

module _ {W : Type 0} (mailbox : Mailbox W) where
  abbrev pub call : {A : Type 0} → (W → A × W) → Read W A
  call f s = let (a, w) = f s.world in (ok a, record s { world = w })

  abbrev pub access_token : Read W String
  access_token = call mailbox.access_token >>= λ r. lift (token_of r)

  -- `_search_once`.
  unfoldable pub search_once : String → String → Read W (List Message)
  unfolding ◌>>=◌
  search_once term token = do
    used ← if is_empty token then access_token else pure token
    response ← call (mailbox.get used term)
    lift (messages_of response)

  -- `_search_term_or_none`.
  unfoldable pub search_term_or_none : String → String → Read W (Option (List Message))
  unfolding search_once
  search_term_or_none term token s = let (r, t) = search_once term token s in (or_none r, t)

  unfoldable pub search_each : String → List String → Read W (List (String × Option (List Message)))
  unfolding search_term_or_none
  search_each token [] s = (ok [], s)
  search_each token (term ∷ terms) s =
      let (r, t) = search_term_or_none term token s in
      let (rs, u) = search_each token terms t in (in_order term r rs, u)

  -- `_search_all`: two terms or more share a token, and none of them is found without it.
  unfoldable pub search_all : List String → Read W (List (String × Option (List Message)))
  unfolding search_each
  search_all [] s = (ok [], s)
  search_all (term ∷ []) s =
      let (r, t) = search_term_or_none term "" s in (in_order term r (ok []), t)
  search_all (term ∷ other ∷ terms) s =
      let (r, w) = mailbox.access_token s.world in
      let t = record s { world = w } in
      elim r [
        | ok token ↦ search_each token (term ∷ other ∷ terms) t
        | err e ↦ (ok (map (λ name. (name, none)) (term ∷ other ∷ terms)), t)
      ]

  -- `_search`.
  unfoldable pub search : MailCodeSource → Read W (List Message)
  unfolding ◌>>=◌ search_all newest_first merge_terms
  search source = do found ← search_all source.search_terms; lift (merged_of source found)
