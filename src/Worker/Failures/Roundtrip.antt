-- ===== src/Worker/Failures/Roundtrip.antt =====
-- `_batch_result` and then `_service_failure_result` of cloud/src/workers/runner.py give the failed
-- services back.
use get_receipt.Base.{
  String, ◌≡◌, refl, ap, ◌∙◌, true, false, not, some, List, [], ◌∷◌, map, string_eq, contains, all,
  distinct, ok, arith, eq_iff,
}
use get_receipt.Jobs.Payload.{Fields}
use get_receipt.Jobs.Model.{is_service_id}
use get_receipt.Worker.Failures.{
  accept_services, service_failure_result, batch_result, mapping_at, sanitized_map,
}
use get_receipt.Worker.Failures.Reread.{batch_result-read, read_service, read_service-same}

-- None of the identifiers is among those accepted before.
abbrev Apart : List String → List String → Type 0
Apart accepted xs = all (λ y. not (contains accepted y)) xs ≡ true

Apart-cons :
    (accepted xs : List String) (x : String)
    → contains xs x ≡ false
    → Apart accepted xs
    → Apart (x ∷ accepted) xs
Apart-cons accepted [] x h k = refl
Apart-cons accepted (y ∷ ys) x h k =
    ground (arith, h, k, Apart-cons accepted ys x, eq_iff x y, eq_iff y x)

accept_services-same :
    (accepted xs : List String)
    → all is_service_id xs ≡ true
    → distinct xs ≡ true
    → Apart accepted xs
    → accept_services accepted xs ≡ xs
unfolding accept_services
accept_services-same accepted [] v d h = refl
accept_services-same accepted (x ∷ xs) v d h =
    let valid : is_service_id x ≡ true = ground (arith, v) in
    let fresh : contains accepted x ≡ false = ground (arith, h) in
    let once : contains xs x ≡ false = ground (arith, d) in
    rw (valid, fresh)
      (ap (λ (rest : List String). x ∷ rest)
        (accept_services-same (x ∷ accepted) xs (ground (arith, v)) (ground (arith, d))
          (Apart-cons accepted xs x once (ground (arith, h)))))

map-read_service : (xs : List String) → all is_service_id xs ≡ true → map read_service xs ≡ xs
map-read_service [] v = refl
map-read_service (x ∷ xs) v =
    let valid : is_service_id x ≡ true = ground (arith, v) in
    let rest = map-read_service xs (ground (arith, v)) in
    ap (λ (y : String). y ∷ map read_service xs) (read_service-same x valid)
    ∙ ap (λ (ys : List String). x ∷ ys) rest

Apart-none : (xs : List String) → Apart [] xs
Apart-none [] = refl
Apart-none (x ∷ xs) = Apart-none xs

-- From distinct service identifiers, the result that a batch stores is read back with the same failed
-- services, whatever the completed services and the failures are.
pub service_failure_result-batch_result :
    (completed failed : List String) (failures : Fields)
    → all is_service_id failed ≡ true
    → distinct failed ≡ true
    → service_failure_result (some (batch_result completed failed failures))
      ≡ ok (
        failed,
        sanitized_map
            (mapping_at "service_failures" (batch_result completed failed failures))
            failed,
      )
service_failure_result-batch_result completed failed failures v d =
    let same =
      ap (accept_services []) (map-read_service failed v)
      ∙ accept_services-same [] failed v d (Apart-none failed) in
    batch_result-read completed failed failures
    ∙ ap
        (λ (ids : List String). ok (
          ids,
          sanitized_map (mapping_at "service_failures" (batch_result completed failed failures))
              ids,
        ))
        same
