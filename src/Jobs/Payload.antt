-- ===== src/Jobs/Payload.antt =====
-- cloud/src/jobs/models.py: the values of durable metadata and the check that they hold no secret.
-- A value is what `json` and the checks can meet. A number is kept as the text that Python prints
-- for it, since the program only prints and compares such numbers. `instant` is the text that
-- `datetime_to_text` makes of an instant.
pub mod Public
pub mod Same
pub mod Texts
use Prim.Native.String.{◌++◌ as append}
use get_receipt.Base.{
  ℕ, ◌+◌, String, ◌≡◌, refl, Bool, true, false, not, ◌&&◌, ◌||◌, Option, none, some, List, [], ◌∷◌,
  ◌++◌, map, ◌==◌, nat_eq, string_eq, if◌then◌else◌, any, contains, list_beq, Result, ok, err,
  guard, ◌>>◌,
}
use get_receipt.Base.Text.{codes, strip, is_empty, between}

-- The exceptions of the job store and of its models.
pub data JobError : Type 0 where
  value_error type_error integrity_error : JobError
  job_not_found version_conflict idempotency_conflict : JobError

mutual
  pub data Value : Type 0 where
    null : Value
    bool : Bool → Value
    num : String → Value
    text : String → Value
    instant : ℕ → Value
    bytes : List ℕ → Value
    arr : Items → Value
    dict : Fields → Value
    other : Value

  pub data Items : Type 0 where
    nil : Items
    cons : Value → Items → Items

  pub data Fields : Type 0 where
    end : Fields
    field : String → Value → Fields → Fields

-- `mapping.get(key)`.
unfoldable pub get : String → Fields → Option Value
get k end = none
get k (field j v fs) = if j == k then some v else get k fs

unfoldable pub to_items : List String → Items
to_items [] = nil
to_items (s ∷ ss) = cons (text s) (to_items ss)

unfoldable pub items_list : Items → List Value
items_list nil = []
items_list (cons v vs) = v ∷ items_list vs

abbrev pub forbidden_keys : List String
forbidden_keys =
    "access_token" ∷ "answer" ∷ "auth_header" ∷ "authorization" ∷ "challenge_response" ∷ "cookie"
    ∷ "cookies" ∷ "credential" ∷ "credentials" ∷ "id_token" ∷ "otp" ∷ "otp_code" ∷ "passphrase"
    ∷ "password" ∷ "refresh_token" ∷ "response_value" ∷ "secret" ∷ "secret_value" ∷ "security_code"
    ∷ "session_cookie" ∷ "token" ∷ "verification_code" ∷ []

-- `lower()` and `replace("-", "_")` of one character. Apart from A to Z only the Kelvin sign has a
-- lower case that consists of ASCII, as every forbidden key does.
unfoldable pub fold_key_char : ℕ → ℕ
fold_key_char c =
    if between b'A' b'Z' c
    then c + 32
    else if c == 0x212A
    then b'k'
    else if c == b'-'
    then b'_'
    else c

unfoldable pub is_forbidden_key : String → Bool
unfolding fold_key_char
is_forbidden_key raw_key =
    let key = map fold_key_char (codes (strip raw_key)) in
    any (λ word. list_beq (codes word) key) forbidden_keys

-- `inspect` on a value, on the elements of a list and on the items of a mapping.
unfoldable mutual
  pub inspect : Value → Result JobError (Unit {0})
  inspect null = ok tt
  inspect (bool b) = ok tt
  inspect (num n) = ok tt
  inspect (text s) = ok tt
  inspect (instant t) = ok tt
  inspect (bytes bs) = err value_error
  inspect (arr vs) = inspect_items vs
  inspect (dict fs) = inspect_fields fs
  inspect other = err value_error

  pub inspect_items : Items → Result JobError (Unit {0})
  inspect_items nil = ok tt
  inspect_items (cons v vs) = inspect v >> inspect_items vs

  pub inspect_fields : Fields → Result JobError (Unit {0})
  inspect_fields end = ok tt
  inspect_fields (field k v fs) =
      guard (not (is_forbidden_key k)) value_error >> (inspect v >> inspect_fields fs)

unfoldable pub assert_public_payload : Fields → Result JobError (Unit {0})
unfolding inspect
assert_public_payload payload = inspect (dict payload)
