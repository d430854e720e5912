-- ===== src/Jobs/Challenge.antt =====
-- cloud/src/jobs/models.py: the challenges that a provider poses, and the schema of their answer.
-- `re.compile` of a schema's pattern, which raises on a pattern that is no regular expression, is
-- not modelled: every pattern of the program is a constant of it.
pub mod Enums
use Enums.{ChallengeType, type_value, InputType, input_value}
use get_receipt.Base.{
  ℕ, String, Bool, true, false, not, ◌&&◌, Option, none, some, ◌==◌, nat_eq, string_eq, leb, ltb,
  Result, ok, err, guard, ◌>>=◌, ◌>>◌,
}
use get_receipt.Jobs.Payload.{JobError, value_error, Fields, dict, assert_public_payload}
use get_receipt.Jobs.Payload.Same.{same_value}
use get_receipt.Jobs.Model.{require_nonempty}

pub record InputSchema : Type 0 where
  pub input_type : InputType
  pub label : String
  pub required : Bool
  pub min_length : Option ℕ
  pub max_length : Option ℕ
  pub pattern : Option String
  pub autocomplete : Option String

pub record Challenge : Type 0 where
  pub id : String
  pub job_id : String
  pub type : ChallengeType
  pub message : String
  pub input_schema : InputSchema
  pub metadata : Fields
  pub created_at : ℕ
  pub expires_at : Option ℕ

abbrev lengths_ordered : Option ℕ → Option ℕ → Bool
lengths_ordered (some lo) (some hi) = leb lo hi
lengths_ordered _ _ = true

-- `ChallengeInputSchema.__post_init__`.
unfoldable pub validate_schema : InputSchema → Result JobError InputSchema
validate_schema schema = do
  guard (lengths_ordered schema.min_length schema.max_length) value_error
  ok schema

abbrev expires_after : ℕ → Option ℕ → Bool
expires_after created none = true
expires_after created (some expires) = ltb created expires

-- `Challenge.__post_init__`.
unfoldable pub validate_challenge : Challenge → Result JobError Challenge
unfolding validate_schema
validate_challenge challenge = do
  message ← require_nonempty challenge.message
  schema ← validate_schema challenge.input_schema
  guard (expires_after challenge.created_at challenge.expires_at) value_error
  assert_public_payload challenge.metadata
  ok (record challenge { message = message; input_schema = schema })

abbrev same_option {ℓ} : {A : Type ℓ} → (A → A → Bool) → Option A → Option A → Bool
same_option eq none none = true
same_option eq (some a) (some b) = eq a b
same_option eq _ _ = false

abbrev same_bool : Bool → Bool → Bool
same_bool true b = b
same_bool false b = not b

unfoldable pub same_schema : InputSchema → InputSchema → Bool
same_schema a b =
    input_value a.input_type == input_value b.input_type
    && a.label == b.label
    && same_bool a.required b.required
    && same_option (λ m n. m == n) a.min_length b.min_length
    && same_option (λ m n. m == n) a.max_length b.max_length
    && same_option (λ m n. m == n) a.pattern b.pattern
    && same_option (λ m n. m == n) a.autocomplete b.autocomplete

-- The `==` of the dataclass.
unfoldable pub same_challenge : Challenge → Challenge → Bool
unfolding same_schema
same_challenge a b =
    a.id == b.id
    && a.job_id == b.job_id
    && type_value a.type == type_value b.type
    && a.message == b.message
    && same_schema a.input_schema b.input_schema
    && same_value (dict a.metadata) (dict b.metadata)
    && a.created_at == b.created_at
    && same_option (λ m n. m == n) a.expires_at b.expires_at
