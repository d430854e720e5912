-- ===== src/Jobs/Payload/Same.antt =====
-- Python's `==` on payload values: lists by their elements, mappings whatever the order of keys.
use get_receipt.Base.{
  ℕ, suc, Bool, true, false, ◌&&◌, none, some, ◌==◌, nat_eq, string_eq, list_beq,
}
use get_receipt.Jobs.Payload.{
  Value, null, bool, num, text, instant, bytes, arr, dict, Items, nil, cons, Fields, end, field,
  get,
}

size : Fields → ℕ
size end = 0
size (field k v fs) = suc (size fs)

bool_beq : Bool → Bool → Bool
bool_beq true b = b
bool_beq false true = false
bool_beq false false = true

unfoldable mutual
  unfolding get size bool_beq

  pub same_value : Value → Value → Bool
  same_value null null = true
  same_value (bool a) (bool b) = bool_beq a b
  same_value (num a) (num b) = a == b
  same_value (text a) (text b) = a == b
  same_value (instant a) (instant b) = a == b
  same_value (bytes a) (bytes b) = list_beq a b
  same_value (arr vs) (arr ws) = same_items vs ws
  same_value (dict fs) (dict gs) = size fs == size gs && same_fields fs gs
  same_value _ _ = false

  pub same_items : Items → Items → Bool
  same_items nil nil = true
  same_items (cons v vs) (cons w ws) = same_value v w && same_items vs ws
  same_items _ _ = false

  pub same_fields : Fields → Fields → Bool
  same_fields end gs = true
  same_fields (field k v fs) gs = elim (get k gs) [
    | none ↦ false
    | some w ↦ same_value v w && same_fields fs gs
  ]
