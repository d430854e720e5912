-- ===== src/Service/Challenges.antt =====
-- The calls of `WorkerService` that answer a challenge or cancel a job.
use get_receipt.Base.{
  ℕ, String, Bool, true, false, not, ◌&&◌, ◌||◌, Option, none, some, List, [], ◌∷◌, Result, ok, err,
  ◌==◌, string_eq, if◌then◌else◌, leb, contains, guard as require, length,
}
use get_receipt.Base.Text.{strip, codes, is_empty}
use get_receipt.Base.Exec.{pure, lift, ◌>>=◌, ◌>>◌}
use get_receipt.Jobs.Payload.{
  JobError, value_error, version_conflict, Fields, field, text, bool, end,
}
use get_receipt.Jobs.Model.{Job, state_eq, cancelled, waiting_for_challenge}
use get_receipt.Jobs.Challenge.{Challenge}
use get_receipt.Jobs.Challenge.Enums.{type_value, input_value}
use get_receipt.Jobs.Store.Rows.{Db}
use get_receipt.Jobs.Store.Update.{Patch, compare_and_set}
use get_receipt.Jobs.Inbox.{submit, discard}
use get_receipt.Service.{
  Fault, refused, raised, Call, is_terminal, inbox_code, require_owner, job_of, latest_challenge,
}

-- `INTERACTIVE_CHALLENGE_TYPES`.
abbrev pub interactive_types : List String
interactive_types =
    "captcha_interactive" ∷ "consent_interactive" ∷ "passkey_unavailable" ∷ "push_approval" ∷ []

abbrev or_default : Option ℕ → ℕ → ℕ
or_default none n = n
or_default (some m) n = m

-- `schema.pattern and re.fullmatch(...)`.
abbrev matches : (String → String → Bool) → Option String → String → Bool
matches fullmatch none value = true
matches fullmatch (some pattern) value = is_empty pattern || fullmatch pattern value

abbrev is_challenge : String → Challenge → Bool
is_challenge challenge_id challenge = challenge.id == challenge_id

abbrev require_latest : String → Option Challenge → Result Fault Challenge
require_latest challenge_id none = err (refused "CHALLENGE_REPLACED" 409)
require_latest challenge_id (some c) =
    if c.id == challenge_id then ok c else err (refused "CHALLENGE_REPLACED" 409)

-- `_validate_response`, with NFKC and `re.fullmatch`.
unfoldable pub validate_response :
    (String → String) → (String → String → Bool) → Challenge → String → Result Fault String
validate_response nfkc fullmatch challenge value =
    let normalized = strip (nfkc value) in
    let schema = challenge.input_schema in
    let size = length (codes normalized) in
    if not (
      leb (or_default schema.min_length (if schema.required then 1 else 0)) size
      && leb size (or_default schema.max_length 128))
    then err (refused "CHALLENGE_RESPONSE_INVALID" 400)
    else if matches fullmatch schema.pattern normalized
    then ok normalized
    else err (refused "CHALLENGE_RESPONSE_INVALID" 400)

module _ (own : String) where
  -- The job and its latest challenge, when the job waits for that one.
  unfoldable pub pending_challenge : String → String → Call (Job × Challenge)
  unfolding job_of latest_challenge
  pending_challenge job_id challenge_id = do
    job ← job_of own job_id
    lift (require (job.state == waiting_for_challenge) (refused "CHALLENGE_NOT_PENDING" 409))
    latest ← latest_challenge own job
    challenge ← lift (require_latest challenge_id latest)
    pure (job, challenge)

  -- `_interactive_challenge`.
  unfoldable pub interactive_challenge : String → String → Call (Job × Challenge)
  unfolding pending_challenge
  interactive_challenge job_id challenge_id = do
    found ← pending_challenge job_id challenge_id
    lift (
        require (contains interactive_types (type_value found.1.type))
          (refused "VIEWER_NOT_ALLOWED" 409))
    pure found

  -- `self.inbox.submit(...)` and its `except`.
  unfoldable pub hand_in : ℕ → String → String → Call (Unit {0})
  hand_in now challenge_id response s =
      let (r, inbox) = submit now challenge_id own response s.inbox in
      (
        elim r [ ok u ↦ ok tt | err e ↦ err (refused (inbox_code e) 409) ],
        record s { inbox = inbox },
      )

  -- `submit_challenge_response`.
  unfoldable pub submit_challenge_response :
      (String → String)
      → (String → String → Bool)
      → ℕ
      → String
      → String
      → String
      → String
      → Call Job
  unfolding require_owner pending_challenge validate_response hand_in
  submit_challenge_response nfkc fullmatch now job_id challenge_id owner_id response = do
    require_owner own owner_id
    found ← pending_challenge job_id challenge_id
    let schema = found.1.input_schema
    lift (
        require (contains ("code" ∷ "text" ∷ []) (input_value schema.input_type))
          (refused "CHALLENGE_RESPONSE_NOT_SUPPORTED" 409))
    normalized ← lift (validate_response nfkc fullmatch found.1 response)
    hand_in now found.1.id normalized
    pure found.0

  abbrev pub to_cancelled : Patch
  to_cancelled = record {
    state = some cancelled;
    completed = none;
    current = some none;
    error = some (
        some (
          field "code" (text "CANCELLED_BY_OWNER")
            (field "message" (text "iPhoneから自動取得を中止しました。") (field "retryable" (bool true) end))));
    result = none;
  }

  abbrev pub cancel_payload : Fields
  cancel_payload = field "reason_code" (text "CANCELLED_BY_OWNER") end

  unfoldable pub drop_challenge : Option Challenge → Call (Unit {0})
  drop_challenge none s = (ok tt, s)
  drop_challenge (some c) s =
      let (r, inbox) = discard c.id s.inbox in
      (elim r [ ok b ↦ ok tt | err e ↦ err (raised value_error) ], record s { inbox = inbox })

  -- What follows the compare-and-set: `none` is the next round.
  unfoldable pub settle : Job → Result JobError Job → Call (Option Job)
  unfolding latest_challenge drop_challenge
  settle job (ok u) =
      if job.state == waiting_for_challenge
      then (do challenge ← latest_challenge own u; drop_challenge challenge; pure (some u))
      else pure (some u)
  settle job (err version_conflict) = pure none
  settle job (err e) = lift (err (raised e))

  -- The compare-and-set of a round. What other threads do to the tables between the read and it is
  -- `others`.
  unfoldable pub try_cancel : ℕ → (Db → Db) → Job → Call (Result JobError Job)
  try_cancel now others job s =
      let (r, t) =
        compare_and_set now job.id own job.version to_cancelled "job_cancelled" cancel_payload
          (others s.db) in
      (ok r, record s { db = t })

  unfoldable pub cancel_unless : ℕ → (Db → Db) → Job → Bool → Call (Option Job)
  unfolding try_cancel settle
  cancel_unless now others job true = pure (some job)
  cancel_unless now others job false = do swapped ← try_cancel now others job; settle job swapped

  -- One round of the loop of `cancel_job`.
  unfoldable pub cancel_round : ℕ → (Db → Db) → String → Call (Option Job)
  unfolding job_of cancel_unless
  cancel_round now others job_id = do
    job ← job_of own job_id
    cancel_unless now others job (is_terminal job.state)

  -- The loop, for a history of rounds; `none` is a loop that has met a conflict in each of them.
  unfoldable pub cancel_rounds : List (ℕ × (Db → Db)) → String → Call (Option Job)
  unfolding cancel_round
  cancel_rounds [] job_id = pure none
  cancel_rounds ((now, others) ∷ rounds) job_id = do
    settled ← cancel_round now others job_id
    elim settled [ some job ↦ pure (some job) | none ↦ cancel_rounds rounds job_id ]

  -- `cancel_job`, without the notice to the worker at its end.
  unfoldable pub cancel_job : List (ℕ × (Db → Db)) → String → String → Call (Option Job)
  unfolding require_owner cancel_rounds
  cancel_job rounds job_id owner_id = require_owner own owner_id >> cancel_rounds rounds job_id
