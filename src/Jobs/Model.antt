-- ===== src/Jobs/Model.antt =====
-- cloud/src/jobs/models.py: a batch job and the checks that its construction makes.
-- An instant is a number of microseconds in UTC; an identifier is the canonical text of a UUID.
-- A version is a natural number, so the test for a negative one is not needed.
pub mod Valid
pub mod Accepted
use get_receipt.Base.{
  ℕ, ◌+◌, String, ◌≡◌, refl, ◌↔◌, Bool, true, false, not, ◌&&◌, ◌||◌, Option, none, some, List, [],
  ◌∷◌, Eq, ◌==◌, nat_eq, string_eq, if◌then◌else◌, leb, all, contains, distinct, Result, ok, err,
  guard, ◌>>=◌, ◌>>◌, arith,
}
use get_receipt.Base.Text.{codes, strip, is_empty, is_digit, is_service_char, is_word}
use get_receipt.Jobs.Payload.{JobError, value_error, Fields, assert_public_payload}

pub data JobState : Type 0 where
  queued running waiting_for_challenge succeeded failed intervention_required cancelled : JobState

abbrev pub state_beq : JobState → JobState → Bool
state_beq queued queued = true
state_beq running running = true
state_beq waiting_for_challenge waiting_for_challenge = true
state_beq succeeded succeeded = true
state_beq failed failed = true
state_beq intervention_required intervention_required = true
state_beq cancelled cancelled = true
state_beq _ _ = false

pub state_beq_iff : (a b : JobState) → (state_beq a b ≡ true) ↔ (a ≡ b)
state_beq_iff queued b = ground arith
state_beq_iff _ b = ground arith

instance abbrev pub state_eq : Eq JobState
state_eq = record { beq = state_beq; beq_iff = state_beq_iff }

abbrev pub state_value : JobState → String
state_value queued = "queued"
state_value running = "running"
state_value waiting_for_challenge = "waiting_for_challenge"
state_value succeeded = "succeeded"
state_value failed = "failed"
state_value intervention_required = "intervention_required"
state_value cancelled = "cancelled"

pub record Job : Type 0 where
  pub id : String
  pub owner : String
  pub target_month : String
  pub service_ids : List String
  pub state : JobState
  pub completed : List String
  pub current : Option String
  pub version : ℕ
  pub created_at : ℕ
  pub updated_at : ℕ
  pub error : Option Fields
  pub result : Option Fields

-- `^[0-9]{4}-(?:0[1-9]|1[0-2])$`.
is_month_text : List ℕ → Bool
is_month_text (a ∷ b ∷ c ∷ d ∷ dash ∷ m ∷ n ∷ []) =
    is_digit a
    && is_digit b
    && is_digit c
    && is_digit d
    && dash == b'-'
    && (m == b'0' && is_digit n && not (n == b'0') || m == b'1' && leb b'0' n && leb n b'2')
is_month_text _ = false

unfoldable pub is_target_month : String → Bool
unfolding is_month_text
is_target_month s = is_month_text (codes s)

-- `^[a-z0-9_-]{1,64}$`.
unfoldable pub is_service_id : String → Bool
unfolding is_word is_service_char
is_service_id = is_word is_service_char 1 64

abbrev pub list_is_empty : List String → Bool
list_is_empty [] = true
list_is_empty (s ∷ ss) = false

unfoldable pub require_nonempty : String → Result JobError String
require_nonempty value =
    let normalized = strip value in if is_empty normalized then err value_error else ok normalized

abbrev pub is_current_of : List String → Option String → Bool
is_current_of service_ids none = true
is_current_of service_ids (some current) = contains service_ids current

unfoldable pub assert_public_optional : Option Fields → Result JobError (Unit {0})
assert_public_optional none = ok tt
assert_public_optional (some payload) = assert_public_payload payload

-- The checks of `BatchJob.__post_init__` below its conversions: those of the month and the services,
-- then those of the changing fields.
unfoldable pub check_services : Job → Result JobError (Unit {0})
check_services job = do
  guard (is_target_month job.target_month) value_error
  guard (not (list_is_empty job.service_ids)) value_error
  guard (distinct job.service_ids) value_error
  guard (all is_service_id job.service_ids) value_error
  guard (distinct job.completed) value_error
  guard (all (contains job.service_ids) job.completed) value_error

unfoldable pub check_job : Job → Result JobError (Unit {0})
check_job job = do
  check_services job
  guard (is_current_of job.service_ids job.current) value_error
  guard (leb job.created_at job.updated_at) value_error
  assert_public_optional job.error
  assert_public_optional job.result

-- `BatchJob.__post_init__`: what every construction and every `replace` of a job goes through.
unfoldable pub validate : Job → Result JobError Job
validate job = do
  owner ← require_nonempty job.owner
  check_job job
  ok (record job { owner = owner })

-- `BatchJob.new`. The identifier is the one that `uuid4` has drawn.
unfoldable pub new_job : ℕ → String → String → String → List String → Result JobError Job
unfolding validate
new_job now id owner target_month service_ids = validate (record {
  id = id;
  owner = owner;
  target_month = target_month;
  service_ids = service_ids;
  state = queued;
  completed = [];
  current = none;
  version = 0;
  created_at = now;
  updated_at = now;
  error = none;
  result = none;
})
