-- ===== src/Jobs/Payload/Texts.antt =====
-- Python's `str`, truth and iteration on payload values, as the readers of a job's result use them.
use get_receipt.Base.{
  String, Bool, true, false, not, ◌||◌, Option, none, some, List, [], ◌∷◌, map, ◌==◌, string_eq,
  if◌then◌else◌, Result, ok, err,
}
use get_receipt.Base.Text.{is_empty}
use get_receipt.Jobs.Payload.{
  JobError, type_error, Value, null, bool, num, text, instant, bytes, arr, dict, other, nil, Fields,
  end, field, items_list,
}

-- `str(value)`. A container, a byte string or an instant prints with a bracket, a quote or a colon;
-- such a text is only compared with service identifiers, which hold none of these.
unfoldable pub str : Value → String
str null = "None"
str (bool true) = "True"
str (bool false) = "False"
str (num n) = n
str (text s) = s
str (instant t) = ":"
str (bytes bs) = "'"
str (arr vs) = "["
str (dict fs) = "{"
str other = "<"

-- `bool(value)`.
unfoldable pub truthy : Value → Bool
truthy null = false
truthy (bool b) = b
truthy (num n) = not (n == "0" || n == "0.0" || n == "-0.0")
truthy (text s) = not (is_empty s)
truthy (bytes []) = false
truthy (arr nil) = false
truthy (dict end) = false
truthy _ = true

unfoldable pub characters : String → List String
characters String.[] = []
characters (String.◌∷◌ c s) = String.◌∷◌ c String.[] ∷ characters s

unfoldable pub field_keys : Fields → List String
field_keys end = []
field_keys (field k v fs) = k ∷ field_keys fs

-- `str` of each element that iteration over the value gives. Iterating over a byte string gives
-- numbers, which no stored value holds, so it is refused here together with what Python refuses.
unfoldable pub iterate : Value → Result JobError (List String)
unfolding str characters field_keys items_list
iterate (arr vs) = ok (map str (items_list vs))
iterate (text s) = ok (characters s)
iterate (dict fs) = ok (field_keys fs)
iterate _ = err type_error

-- `(str(value) for value in mapping.get(key) or ())`.
unfoldable pub texts_of : Option Value → Result JobError (List String)
unfolding iterate truthy
texts_of none = ok []
texts_of (some value) = if truthy value then iterate value else ok []
