-- ===== src/Jobs/Payload/Public.antt =====
-- What `assert_public_payload` accepts, against a plain description of a value's contents.
use get_receipt.Base.{
  String, ◌≡◌, refl, Bool, true, false, not, ◌&&◌, List, [], ◌∷◌, ◌++◌, arith, all, is_ok, ok, err,
  Result, ◌>>◌, guard, ◌∙◌,
}
use get_receipt.Jobs.Payload.{
  JobError, value_error, Value, null, bool, num, text, instant, bytes, arr, dict, other, Items, nil,
  cons, Fields, end, field, is_forbidden_key, inspect, inspect_items, inspect_fields,
  assert_public_payload,
}

-- Every key at any depth.
unfoldable mutual
  pub keys : Value → List String
  keys (arr vs) = keys_items vs
  keys (dict fs) = keys_fields fs
  keys _ = []

  pub keys_items : Items → List String
  keys_items nil = []
  keys_items (cons v vs) = keys v ++ keys_items vs

  pub keys_fields : Fields → List String
  keys_fields end = []
  keys_fields (field k v fs) = k ∷ (keys v ++ keys_fields fs)

-- No byte string and nothing that JSON lacks, at any depth.
unfoldable mutual
  pub is_plain : Value → Bool
  is_plain (arr vs) = is_plain_items vs
  is_plain (dict fs) = is_plain_fields fs
  is_plain (bytes bs) = false
  is_plain other = false
  is_plain _ = true

  pub is_plain_items : Items → Bool
  is_plain_items nil = true
  is_plain_items (cons v vs) = is_plain v && is_plain_items vs

  pub is_plain_fields : Fields → Bool
  is_plain_fields end = true
  is_plain_fields (field k v fs) = is_plain v && is_plain_fields fs

abbrev pub allowed : String → Bool
allowed k = not (is_forbidden_key k)

all-append : (p : String → Bool) (xs ys : List String) → all p (xs ++ ys) ≡ (all p xs && all p ys)
all-append p [] ys = refl
all-append p (x ∷ xs) ys = ground (arith, all-append p xs ys)

is_ok->> : (m k : Result JobError (Unit {0})) → is_ok (m >> k) ≡ (is_ok m && is_ok k)
is_ok->> (ok tt) k = refl
is_ok->> (err e) k = refl

is_ok-guard : (b : Bool) (e : JobError) → is_ok (guard b e) ≡ b
is_ok-guard true e = refl
is_ok-guard false e = refl

and_swap : (a p b q : Bool) → ((a && p) && (b && q)) ≡ ((a && b) && (p && q))
and_swap true true b q = refl
and_swap true false true q = refl
and_swap true false false q = refl
and_swap false p b q = refl

and_key : (k a b p q : Bool) → (k && ((a && p) && (b && q))) ≡ ((k && (a && b)) && (p && q))
and_key true a b p q = and_swap a p b q
and_key false a b p q = refl

mutual
  unfolding inspect keys is_plain

  inspect-value : (v : Value) → is_ok (inspect v) ≡ (all allowed (keys v) && is_plain v)
  inspect-value null = refl
  inspect-value (bool b) = refl
  inspect-value (num n) = refl
  inspect-value (text s) = refl
  inspect-value (instant t) = refl
  inspect-value (bytes bs) = refl
  inspect-value (arr vs) = inspect-items vs
  inspect-value (dict fs) = inspect-fields fs
  inspect-value other = refl

  inspect-items :
      (vs : Items) → is_ok (inspect_items vs) ≡ (all allowed (keys_items vs) && is_plain_items vs)
  inspect-items nil = refl
  inspect-items (cons v vs) =
      is_ok->> (inspect v) (inspect_items vs)
      ∙ rw (inspect-value v, inspect-items vs, all-append allowed (keys v) (keys_items vs))
          (and_swap (all allowed (keys v)) (is_plain v) _ _)

  inspect-fields :
      (fs : Fields)
      → is_ok (inspect_fields fs) ≡ (all allowed (keys_fields fs) && is_plain_fields fs)
  inspect-fields end = refl
  inspect-fields (field k v fs) =
      is_ok->> (guard (allowed k) value_error) (inspect v >> inspect_fields fs)
      ∙ rw (is_ok-guard (allowed k) value_error, is_ok->> (inspect v) (inspect_fields fs))
          (rw (inspect-value v, inspect-fields fs, all-append allowed (keys v) (keys_fields fs))
            (and_key (allowed k) (all allowed (keys v)) _ (is_plain v) _))

-- A payload is accepted exactly when none of its keys, at any depth, is forbidden and none of the
-- values inside it is a byte string or of an unsupported type.
pub assert_public_payload-keys :
    (payload : Fields)
    → is_ok (assert_public_payload payload)
      ≡ (all allowed (keys (dict payload)) && is_plain (dict payload))
unfolding assert_public_payload
assert_public_payload-keys payload = inspect-value (dict payload)
