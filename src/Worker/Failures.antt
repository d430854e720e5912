-- ===== src/Worker/Failures.antt =====
-- The codes of failures and the results of a batch, in cloud/src/workers/runner.py.
-- A value in a stored result whose text is asked for is a text; `str` of a container stands for any
-- print with a bracket, which no service identifier has.
pub mod Codes
pub mod Reread
pub mod Roundtrip
use get_receipt.Base.{
  ℕ, ◌-◌, String, Bool, true, false, not, ◌&&◌, ◌||◌, Option, none, some, List, [], ◌∷◌, map, ◌==◌,
  nat_eq, string_eq, if◌then◌else◌, any, contains, find?, filter, Result, ok, err, ◌>>=◌,
}
use get_receipt.Base.Text.{strip, is_empty}
use get_receipt.Jobs.Payload.{
  JobError, type_error, Value, null, bool, text, arr, dict, nil, Items, Fields, end, field, get,
  items_list, to_items,
}
use get_receipt.Jobs.Payload.Texts.{str, truthy, characters, field_keys}
use get_receipt.Jobs.Model.{is_service_id}
use get_receipt.Worker.Failures.Codes.{public_failure_code, begins_with, has_part}

abbrev pub non_continuable_codes : List String
non_continuable_codes = "INVALID_REQUEST" ∷ "SAVED_FILE_NOT_FOUND" ∷ []

abbrev pub non_continuable_prefixes : List String
non_continuable_prefixes = "DRIVE_" ∷ "SECURITY_" ∷ []

abbrev pub non_continuable_markers : List String
non_continuable_markers = "LOCK" ∷ "BLOCK" ∷ "SUSPEND" ∷ "DISABLED" ∷ "ORIGIN_MISMATCH" ∷ []

-- `_is_non_continuable_failure`.
unfoldable pub is_non_continuable_failure : String → Bool
unfolding public_failure_code
is_non_continuable_failure code =
    let normalized = public_failure_code code in
    contains non_continuable_codes normalized
    || any (λ prefix. begins_with prefix normalized) non_continuable_prefixes
    || any (λ marker. has_part marker normalized) non_continuable_markers

abbrev pub failure_message : String
failure_message = "このサービスの自動取得を完了できませんでした。"

-- `str(value or "")`.
abbrev pub text_or_empty : Option Value → String
text_or_empty none = ""
text_or_empty (some v) = if truthy v then str v else ""

-- `bool(failure.get("retryable", True))`.
abbrev pub is_retryable : Option Value → Bool
is_retryable none = true
is_retryable (some v) = truthy v

-- The mapping under a key, or an empty one.
abbrev pub mapping_at : String → Fields → Fields
mapping_at key fields = elim (get key fields) [ some (dict fs) ↦ fs | _ ↦ end ]

-- A failure as `_service_failure_result` and `_batch_result` write it.
unfoldable pub sanitized : Fields → Value
unfolding public_failure_code
sanitized failure = dict (
    field "code" (text (public_failure_code (text_or_empty (get "code" failure)))) (
      field "message" (text failure_message)
        (field "retryable" (bool (is_retryable (get "retryable" failure))) end)))

-- The elements that iteration gives, each as `str(raw_service_id or "").strip()`.
unfoldable pub service_texts : Option Value → Result JobError (List String)
unfolding str truthy characters field_keys items_list
service_texts none = ok []
service_texts (some (arr vs)) = ok (map (λ v. strip (text_or_empty (some v))) (items_list vs))
service_texts (some (text s)) = ok (map strip (characters s))
service_texts (some (dict fs)) = ok (map strip (field_keys fs))
service_texts (some v) = if truthy v then err type_error else ok []

-- The loop: the identifiers accepted so far, and those to come.
unfoldable pub accept_services : List String → List String → List String
accept_services failed [] = []
accept_services failed (s ∷ ss) =
    if not (is_service_id s) || contains failed s
    then accept_services failed ss
    else s ∷ accept_services (s ∷ failed) ss

-- The dictionary that the loop fills.
unfoldable pub sanitized_map : Fields → List String → Fields
unfolding sanitized
sanitized_map failures [] = end
sanitized_map failures (s ∷ ss) =
    field s (sanitized (mapping_at s failures)) (sanitized_map failures ss)

-- `_service_failure_result`.
unfoldable pub service_failure_result : Option Fields → Result JobError (List String × Fields)
unfolding service_texts accept_services sanitized_map
service_failure_result none = ok ([], end)
service_failure_result (some result) = do
  raw ← service_texts (get "failed_service_ids" result)
  let failed = accept_services [] raw
  ok (failed, sanitized_map (mapping_at "service_failures" result) failed)

abbrev as_mapping : Value → Fields
as_mapping (dict fs) = fs
as_mapping _ = end

-- The comprehension over the failures.
unfoldable pub kept_failures : List String → Fields → Fields
unfolding sanitized
kept_failures failed end = end
kept_failures failed (field s v fs) =
    if contains failed s
    then field s (sanitized (as_mapping v)) (kept_failures failed fs)
    else kept_failures failed fs

-- `_batch_result`.
unfoldable pub batch_result : List String → List String → Fields → Fields
unfolding kept_failures to_items
batch_result completed failed failures = field "completed_service_ids" (arr (to_items completed)) (
    field "failed_service_ids" (arr (to_items failed))
      (field "service_failures" (dict (kept_failures failed failures)) end))

-- `mapping[key] = value`: in its place, or at the end.
unfoldable pub set_field : String → Value → Fields → Fields
set_field key value end = field key value end
set_field key value (field k v fs) =
    if k == key then field k value fs else field k v (set_field key value fs)

-- `tuple(dict.fromkeys((*items, item)))` of items that are distinct.
unfoldable pub with_item : List String → String → List String
with_item [] item = item ∷ []
with_item (x ∷ xs) item = if x == item then x ∷ xs else x ∷ with_item xs item
