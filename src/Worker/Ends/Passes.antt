-- ===== src/Worker/Ends/Passes.antt =====
-- The transition behind a service of `_process_job` of cloud/src/workers/runner.py closes that service.
use get_receipt.Base.{ℕ, String, ◌≡◌, refl, ap, none, some, List, string_eq, Result, ok, err, arith}
use get_receipt.Base.Exec.Ensures.{Ensures, Ensures-pure, Ensures-bind, Ensures-lift-bind}
use get_receipt.Jobs.Payload.{Fields, JobError}
use get_receipt.Jobs.Model.{Job, state_eq}
use get_receipt.Jobs.Store.Update.{Patch, apply_patch}
use get_receipt.Worker.Failures.{service_failure_result, batch_result, with_item}
use get_receipt.Worker.Failures.Reread.{batch_result-read}
use get_receipt.Worker.State.{Office, Settings, Worker, from_store}
use get_receipt.Worker.Swaps.{note_failed}
use get_receipt.Worker.Process.{go_on, record_completed}
use get_receipt.Worker.Keeps.{On}
use get_receipt.Worker.Remaining.{RowsAre, Advancing, ids_of, failed_ids}
use get_receipt.Worker.Ends.{Fits, Fits-closed, remove, with_item-apart}
use get_receipt.Worker.Ends.Reads.{Reading, swap-Ensures}

pub from_store-ids :
    (r : Result JobError (List String × Fields)) (p : List String × Fields)
    → from_store r ≡ ok p
    → ids_of r ≡ p.0
from_store-ids (ok q) p h = ground (arith, h)
from_store-ids (err e) p h = ground (arith, h)

module _ {O : Type 0} (office : Office O) (settings : Settings) (job_id : String)
    (advancing : Advancing office job_id) (services open_ids : List String) where
  -- The rows of the job fit the services that are still to be tried.
  abbrev pub Fit : Worker O → Type 0
  Fit s = On (RowsAre job_id (Fits services open_ids)) s

  -- They fit also without `x`.
  abbrev pub Closed : String → Worker O → Type 0
  Closed x s = On (RowsAre job_id (Fits services (remove x open_ids))) s

  abbrev pub Read : Job → Worker O → Type 0
  Read job s = Reading job_id (Fits services open_ids) job s.common.db

  completed-Fits :
      (current : Job) (x : String) (failed : List String) (failures : Fields) (patch : Patch)
      (s : Worker O) (now : ℕ)
      → Read current s
      → failed_ids current.result ≡ failed
      → patch.completed ≡ some (with_item current.completed x)
      → patch.result ≡ some (some (batch_result (with_item current.completed x) failed failures))
      → Fits services (remove x open_ids) (apply_patch patch now current)
  unfolding apply_patch
  completed-Fits current x failed failures patch s now r before c e =
      Fits-closed services open_ids current (apply_patch patch now current) x
        (with_item current.completed x) failed failed failures r.held r.services before
        (λ y p q.
          let (kept, other) = with_item-apart current.completed x y (rw c at p) in (kept, q, other))
        refl (rw e (ap ids_of (batch_result-read (with_item current.completed x) failed failures)))

  failed-Fits :
      (current : Job) (x : String) (failed : List String) (failures : Fields) (patch : Patch)
      (s : Worker O) (now : ℕ)
      → Read current s
      → failed_ids current.result ≡ failed
      → patch.completed ≡ none
      → patch.result ≡ some (some (batch_result current.completed (with_item failed x) failures))
      → Fits services (remove x open_ids) (apply_patch patch now current)
  unfolding apply_patch
  failed-Fits current x failed failures patch s now r before c e =
      Fits-closed services open_ids current (apply_patch patch now current) x current.completed
        failed (with_item failed x) failures r.held r.services before
        (λ y p q. let (kept, other) = with_item-apart failed x y q in (rw c at p, kept, other)) refl
        (rw e (ap ids_of (batch_result-read current.completed (with_item failed x) failures)))

  pub record_completed-Ensures :
      (current : Job) (x : String) (s : Worker O)
      → Read current s
      → Ensures (record_completed office settings current x) s (λ next t. next ≡ go_on → Closed x t)
  unfolding record_completed
  record_completed-Ensures current x s r = Ensures-lift-bind _ _ _ λ found e.
      Ensures-bind _ _ _ λ u t h. Ensures-pure _ _ λ g.
        ((swap-Ensures office settings job_id advancing current _ _ _
            (Fits services (remove x open_ids)) s r.named
            (λ now.
              completed-Fits current x found.0 found.1 _ s now r
                (from_store-ids (service_failure_result current.result) found e) refl refl)
            r.since).at
          u t h).1

  pub note_failed-Ensures :
      (current : Job) (x code : String) (s : Worker O)
      → Read current s
      → Ensures (note_failed office settings current x code) s (λ u t. Closed x t)
  unfolding note_failed
  note_failed-Ensures current x code s r = Ensures-lift-bind _ _ _ λ found e.
      Ensures-bind _ _ _ λ u t h. Ensures-pure _ _ (
        ((swap-Ensures office settings job_id advancing current _ _ _
            (Fits services (remove x open_ids)) s r.named
            (λ now.
              failed-Fits current x found.0 _ _ s now r
                (from_store-ids (service_failure_result current.result) found e) refl refl)
            r.since).at
          u t h).1)
