-- ===== src/Worker/Failures/Reread.antt =====
-- What `_service_failure_result` reads of what `_batch_result` of cloud/src/workers/runner.py wrote.
use get_receipt.Base.{
  ℕ, String, ◌≡◌, refl, ap, ◌∙◌, true, false, not, ◌||◌, some, List, [], ◌∷◌, map, ◌==◌, string_eq,
  contains, all, ok, inl, inr, Bool-cases, arith, eq_iff,
}
use get_receipt.Base.Text.{codes, strip, strip-Solid, is_space, is_service_char, is_word, is_empty}
use get_receipt.Jobs.Payload.{get, Fields, text, to_items, items_list}
use get_receipt.Jobs.Payload.Texts.{truthy, str}
use get_receipt.Jobs.Model.{is_service_id}
use get_receipt.Worker.Failures.{
  sanitized_map, mapping_at, service_failure_result, batch_result, service_texts, accept_services,
  text_or_empty,
}

service_char-solid : (c : ℕ) → is_service_char c ≡ true → is_space c ≡ false
unfolding is_service_char is_space
service_char-solid c h = ground (arith, h)

service-solid :
    (cs : List ℕ) → all is_service_char cs ≡ true → all (λ c. not (is_space c)) cs ≡ true
service-solid [] h = refl
service-solid (c ∷ cs) h = ground (arith, service_char-solid c, service-solid cs)

is_service_id-parts :
    (s : String)
    → is_service_id s ≡ true
    → (is_empty s ≡ false) × (all is_service_char (codes s) ≡ true)
unfolding is_service_id is_word
is_service_id-parts String.[] h = ground (arith, h)
is_service_id-parts (String.◌∷◌ c s) h = ground (arith, h)

-- How an identifier is read from a list of texts.
abbrev pub read_service : String → String
read_service s = strip (text_or_empty (some (text s)))

pub read_service-same : (s : String) → is_service_id s ≡ true → read_service s ≡ s
unfolding truthy str
read_service-same s h =
    let (full, plain) = is_service_id-parts s h in
    rw full (strip-Solid s (service-solid (codes s) plain))

contains-map :
    (f : String → String) (xs : List String) (y : String)
    → f y ≡ y
    → contains xs y ≡ true
    → contains (map f xs) y ≡ true
contains-map f [] y e h = h
contains-map f (x ∷ xs) y e h = elim (Bool-cases (x == y)) [
  | inl q ↦ rw ((eq_iff (f x) y).1 (ap f ((eq_iff x y).0 q) ∙ e)) refl
  | inr q ↦ ground (arith, contains-map f xs y e (rw q at h))
]

contains-accept_services :
    (accepted xs : List String) (y : String)
    → is_service_id y ≡ true
    → contains xs y ≡ true
    → (contains accepted y || contains (accept_services accepted xs) y) ≡ true
unfolding accept_services
contains-accept_services accepted [] y v h = ground (arith, h)
contains-accept_services accepted (x ∷ xs) y v h = ground (
  arith,
  contains-accept_services accepted xs y v,
  contains-accept_services (x ∷ accepted) xs y v,
  eq_iff x y,
)

texts-to_items :
    (xs : List String)
    → map (λ v. strip (text_or_empty (some v))) (items_list (to_items xs)) ≡ map read_service xs
unfolding to_items items_list
texts-to_items [] = refl
texts-to_items (x ∷ xs) = ap (λ rest. read_service x ∷ rest) (texts-to_items xs)

module _ (completed failed : List String) (failures : Fields) where
  -- The failed services and their failures, from the texts of the list.
  abbrev pub read_of : List String → List String × Fields
  read_of raw = (
    accept_services [] raw,
    sanitized_map (mapping_at "service_failures" (batch_result completed failed failures))
        (accept_services [] raw),
  )

  pub batch_result-read :
      service_failure_result (some (batch_result completed failed failures))
      ≡ ok (read_of (map read_service failed))
  unfolding service_failure_result service_texts batch_result get
  batch_result-read = ap (λ (raw : List String). ok (read_of raw)) (texts-to_items failed)

  -- Whatever services a batch result names as failed are read as failed, when they are identifiers.
  pub batch_result-keeps :
      (y : String)
      → is_service_id y ≡ true
      → contains failed y ≡ true
      → contains (read_of (map read_service failed)).0 y ≡ true
  batch_result-keeps y v h =
      contains-accept_services [] (map read_service failed) y v
        (contains-map read_service failed y (read_service-same y v) h)
