-- ===== src/Jobs/Inbox.antt =====
-- cloud/src/jobs/inbox.py: challenge responses in memory. A pending response is an object that the
-- dictionary and a waiting thread share, so the objects stand in a heap and the dictionary holds
-- references. Times are readings of the monotonic clock, in microseconds; each operation takes the
-- readings that it makes. A time to live of zero stands for every one that is not positive.
pub mod Single
use Prim.Native.String.{len}
use get_receipt.Base.{
  ℕ, suc, ◌+◌, String, Bool, true, false, not, ◌&&◌, ◌||◌, Option, none, some, ◌==◌, nat_eq,
  string_eq, if◌then◌else◌, ltb, leb, Result, ok, err, guard as require, or_raise, ◌>>=◌, ◌>>◌,
  length,
}
use get_receipt.Base.Text.{strip, is_empty, is_word, is_id_char, codes}

pub data InboxError : Type 0 where
  invalid_value not_pending already_answered expired owner_mismatch : InboxError

-- `_PendingResponse`; its condition variable is the order in which the operations run.
pub record Pending : Type 0 where
  pub challenge_id : String
  pub owner_id : String
  pub expires : ℕ
  pub response : Option String
  pub answered : Bool
  pub closed : Bool

pub record Inbox : Type 0 where
  pub objects : ℕ → Option Pending
  pub allocated : ℕ
  pub table : String → Option ℕ

abbrev pub empty_inbox : Inbox
empty_inbox = record { objects = λ i. none; allocated = 0; table = λ k. none }

abbrev pub store_object : ℕ → Pending → Inbox → Inbox
store_object i p inbox = record inbox { objects = λ j. if j == i then some p else inbox.objects j }

abbrev pub set_entry : String → Option ℕ → Inbox → Inbox
set_entry k entry inbox = record inbox { table = λ j. if j == k then entry else inbox.table j }

-- A method: its outcome and the inbox that it leaves.
abbrev pub Method : Type 0 → Type 0
Method A = Inbox → Result InboxError A × Inbox

-- `_safe_identifier`.
unfoldable pub safe_identifier : String → Result InboxError String
safe_identifier value =
    let normalized = strip value in
    if is_word is_id_char 1 200 normalized then ok normalized else err invalid_value

-- The object that a reference points to.
abbrev pub object : Inbox → Option ℕ → Option Pending
object inbox none = none
object inbox (some i) = inbox.objects i

-- The expiry of an object that a reference points to.
abbrev pub expires_of : Option Pending → ℕ
expires_of none = 0
expires_of (some p) = p.expires

abbrev pub is_open : Option Pending → Bool
is_open none = false
is_open (some p) = not p.closed

-- The part of `register` under the lock.
unfoldable pub put_pending : Pending → Method (Unit {0})
put_pending pending inbox =
    if is_open (object inbox (inbox.table pending.challenge_id))
    then (err not_pending, inbox)
    else (
      ok tt,
      set_entry pending.challenge_id (some inbox.allocated)
          (store_object inbox.allocated pending (record inbox { allocated = suc inbox.allocated })),
    )

-- The checks of `register` and the object that it makes.
unfoldable pub new_pending : ℕ → String → String → ℕ → Result InboxError Pending
new_pending now challenge_id owner_id ttl = do
  safe_challenge ← safe_identifier challenge_id
  let safe_owner = strip owner_id
  require (not (is_empty safe_owner) && leb (length (codes safe_owner)) 200) invalid_value
  require (ltb 0 ttl) invalid_value
  ok (record {
    challenge_id = safe_challenge;
    owner_id = safe_owner;
    expires = now + ttl;
    response = none;
    answered = false;
    closed = false;
  })

abbrev pub when_ok {ℓ} :
    {A : Type ℓ} → Result InboxError A → (A → Method (Unit {0})) → Method (Unit {0})
when_ok (ok a) f inbox = f a inbox
when_ok (err e) f inbox = (err e, inbox)

-- `register`.
unfoldable pub register : ℕ → String → String → ℕ → Method (Unit {0})
unfolding put_pending new_pending
register now challenge_id owner_id ttl =
    when_ok (new_pending now challenge_id owner_id ttl) put_pending

-- `_get`: the reference under an identifier.
unfoldable pub get_pending : String → Inbox → Result InboxError ℕ
get_pending challenge_id inbox = do
  safe_challenge ← safe_identifier challenge_id
  or_raise (inbox.table safe_challenge) not_pending

-- What `submit` does to the object: the outcome and the object that it leaves.
unfoldable pub answer : ℕ → String → String → Pending → Result InboxError (Unit {0}) × Pending
answer now owner_id response p =
    if not (p.owner_id == owner_id)
    then (err owner_mismatch, p)
    else if is_empty response || ltb 256 (len response)
    then (err invalid_value, p)
    else if p.closed
    then (err not_pending, p)
    else if leb p.expires now
    then (err expired, record p { closed = true })
    else if p.answered
    then (err already_answered, p)
    else (ok tt, record p { response = some response; answered = true })

abbrev pub on_object {ℓ} : {A : Type ℓ} → (Pending → A × Pending) → A → ℕ → Inbox → A × Inbox
on_object change missing i inbox = elim (inbox.objects i) [
  | none ↦ (missing, inbox)
  | some p ↦ let (r, q) = change p in (r, store_object i q inbox)
]

-- `submit`.
unfoldable pub submit : ℕ → String → String → String → Method (Unit {0})
unfolding answer get_pending
submit now challenge_id owner_id response inbox = elim (get_pending challenge_id inbox) [
  | err e ↦ (err e, inbox)
  | ok i ↦ on_object (answer now owner_id response) (err not_pending) i inbox
]

-- The outcome of one round of `wait_and_consume`: it goes on waiting, or returns.
pub data Round : Type 0 where
  waiting : Round
  returned : Option String → Round

-- The loop's test at the reading `now`, and what follows it when the loop ends, with the reading
-- `later`. The deadline is the lesser of the expiry and the caller's.
unfoldable pub consume : ℕ → ℕ → ℕ → Pending → Round × Pending
consume deadline now later p =
    if not p.answered && not p.closed && ltb now deadline then (waiting, p) else elim p.response [
      | none ↦ (returned none, if leb p.expires later then record p { closed = true } else p)
      | some r ↦
          if p.answered
          then (returned (some r), record p { response = none; closed = true })
          else (returned none, if leb p.expires later then record p { closed = true } else p)
    ]

-- One round of `wait_and_consume` on the object that the thread holds.
unfoldable pub wait_round : ℕ → ℕ → ℕ → ℕ → Inbox → Round × Inbox
unfolding consume
wait_round deadline now later = on_object (consume deadline now later) (returned none)

-- `self._pending.pop(challenge_id, None)`, the last step of a wait that has a response.
unfoldable pub forget : String → Inbox → Inbox
forget challenge_id inbox = set_entry challenge_id none inbox

-- `clear_response` and the closing, in `discard`.
abbrev pub close : Pending → Unit {0} × Pending
close p = (tt, record p { response = none; closed = true })

-- `discard`.
unfoldable pub discard : String → Method Bool
unfolding forget
discard challenge_id inbox = elim (safe_identifier challenge_id) [
  | err e ↦ (err e, inbox)
  | ok safe ↦ elim (inbox.table safe) [
    | none ↦ (ok false, inbox)
    | some i ↦ (ok true, (on_object close tt i (forget safe inbox)).1)
  ]
]

abbrev pub open_until : ℕ → Option Pending → Bool
open_until now none = false
open_until now (some p) = not p.closed && ltb now p.expires

-- `is_pending`, which raises on a malformed identifier only.
unfoldable pub is_pending : ℕ → String → Inbox → Result InboxError Bool
is_pending now challenge_id inbox = do
  safe ← safe_identifier challenge_id
  ok (open_until now (object inbox (inbox.table safe)))
