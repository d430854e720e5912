-- ===== src/Backup/Tests.antt =====
-- The theorems on the backups of one worker process at concrete inputs.
use get_receipt.Base.{◌≡◌, refl, true, false, [], ◌∷◌, if◌then◌else◌, arith, ◌==◌, string_eq}
use get_receipt.Backup.{
  Attempt, Lifecycle, History, fresh_lifecycle, start, run, stop, made, then_start, then_run,
  then_stop, status, healthy,
}
use get_receipt.Backup.Notices.{History-Counted, run-fatal, Reached}
use get_receipt.Backup.Health.{status-healthy}

abbrev good : Attempt
good = record { succeeded = true; now = "2026-05-01T00:00:00+00:00" }

abbrev bad : Attempt
bad = record { succeeded = false; now = "2026-05-01T01:00:00+00:00" }

abbrev begun : Lifecycle
begun = (start 2 good true fresh_lifecycle).1

begun-History : History 2 begun
begun-History = then_start good true made

abbrev worn : Lifecycle
worn = run 2 (bad ∷ bad ∷ bad ∷ []) begun

worn-History : History 2 worn
worn-History = then_run (bad ∷ bad ∷ bad ∷ []) begun-History

History-Counted_example : worn.calls ≡ (if worn.fatal then 1 else 0)
History-Counted_example = History-Counted 2 worn-History

worn_once : (worn.fatal ≡ true) × (worn.calls ≡ 1) × (status worn ≡ "fatal")
unfolding get_receipt.Backup.backup_once healthy run start status
worn_once = (refl, refl, refl)

status-healthy_example : (status begun == "ok") ≡ healthy begun
status-healthy_example = status-healthy 2 begun begun-History

starts_well : healthy begun ≡ true
unfolding get_receipt.Backup.backup_once healthy start
starts_well = refl

run-fatal_example : Reached 2 (run 2 (bad ∷ bad ∷ bad ∷ []) fresh_lifecycle)
run-fatal_example =
    run-fatal 2 (bad ∷ bad ∷ bad ∷ []) fresh_lifecycle refl refl (omega arith) (omega arith)
