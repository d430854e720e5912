-- ===== src/Worker/Tests.antt =====
-- The worker's theorems at concrete inputs: a browser that fetches a PDF, and a Drive that counts uploads.
use get_receipt.Base.{
  inr, subst, ◌⊎◌, ◌≢◌, all, inl, arith, map, zero, ℕ, suc, ◌+◌, String, Option, none, some, List,
  [], ◌∷◌, ok, err, ◌≡◌, refl, true, false,
}
use get_receipt.Acquisition.Ports.{Item}
use get_receipt.Base.Integers.{pos}
use get_receipt.Jobs.Model.{queued, JobState, succeeded, queued, Job, cancelled}
use get_receipt.Jobs.Store.Rows.{JobRow, Db}
use get_receipt.Jobs.Store.Create.{get_job}
use get_receipt.Jobs.Inbox.{empty_inbox}
use get_receipt.Jobs.Tests.{fresh, one, one-WellFormed}
use get_receipt.Base.Text.{is_word}
use get_receipt.Worker.Failures.Codes.{public_failure_code, is_code_char}
use get_receipt.Worker.Failures.Codes.Bounds.{public_failure_code-word}
use get_receipt.Jobs.Payload.{end}
use get_receipt.Jobs.Model.{is_service_id}
use get_receipt.Worker.Failures.{service_failure_result, batch_result, sanitized_map, mapping_at}
use get_receipt.Worker.Failures.Roundtrip.{service_failure_result-batch_result}
use get_receipt.Worker.Process.{process_job}
use get_receipt.Worker.Remaining.{RowsAre, Advancing}
use get_receipt.Worker.Ends.Ticking.{Ticking}
use get_receipt.Worker.Ends.Enough.{process_job_enough}
use get_receipt.Worker.Viewer.{
  Hands, png_mark, send_viewer_input, capture_viewer_frame, continue_interactive,
}
use get_receipt.Worker.Viewer.Permitted.{Permitted, Refused, viewer_calls-Permitted}
use get_receipt.Jobs.Store.Tables.{In}
use get_receipt.Worker.Successes.{Complete}
use get_receipt.Worker.Successes.Kept.{process_job-Complete}
use get_receipt.Worker.State.{Office, Settings, Worker, out_of_rounds}
use get_receipt.Worker.Process.{run_once}
use get_receipt.Worker.Acquire.{run_attempt}
use get_receipt.Worker.Cancelled.{CancelledIn, run_attempt-CancelledIn}

abbrev saved : ℕ → List Item
saved zero = []
saved (suc n) = (("id", "1") ∷ ("name", "receipt.pdf") ∷ []) ∷ []

abbrev first_item : List Item → Option Item
first_item [] = none
first_item (item ∷ items) = some item

-- The number of uploads.
abbrev office : Office ℕ
office = record {
  now = λ o. (1_000, o);
  monotonic = λ o. (1_000, o);
  draw = λ o. ("c1", o);
  others = λ o. ((λ c. c), o);
  storage_factory = λ o. (ok tt, o);
  list_files = λ o. (ok (saved o), o);
  upsert_bytes = λ name content o. (ok tt, suc o);
  browser_factory = λ service o. (ok tt, o);
  fetcher_factory = λ service o. (ok tt, o);
  close = λ o. o;
  page_target = λ o. (
    ok (record {
      target_id = "t";
      scheme = "https";
      hostname = "www.eposcard.co.jp";
      username = "";
      password = "";
      port = none;
    }),
    o,
  );
  fetch_pdf = λ month o.
      (ok (record { content = some (b'%' ∷ b'P' ∷ b'D' ∷ b'F' ∷ []); metadata_text = "" }), o);
  resume_after_security_code = none;
  receipt_finder = λ files service month. ok (first_item files);
  extract_receipt_data =
      λ content text month. ok (record { transaction_date = none; amount_yen = some (pos 100) });
  build_receipt_filename = λ metadata extension. ok "receipt.pdf";
}

abbrev settings : Settings
settings = record { owner_id = "me"; challenge_ttl = 600_000_000 }

abbrev at_rest : Db → Worker ℕ
at_rest db = record {
  common = record { db = db; inbox = empty_inbox; stopped = false; continued = false };
  outer = 0;
  active_job_id = "";
  browser_job_id = none;
  interactive_challenge_id = "";
  interactive_service_id = "";
  interactive_target_id = "";
}

steady : Advancing office "j1"
steady = record { kept = λ o c w. w; advanced = λ o c w row m e. (row, m, e, inl refl) }

abbrev fresh_row : JobRow
fresh_row = record { job = fresh; idempotency_key = "k" }

-- The clocks show the number of the accesses to what the threads share.
abbrev counting : Office ℕ
counting = record office {
  now = λ o. (o, o);
  monotonic = λ o. (o, o);
  others = λ o. ((λ c. c), suc o);
  upsert_bytes = λ name content o. (ok tt, o);
}

counting-Ticking : Ticking counting
counting-Ticking = record {
  utc = λ o. o;
  uptime = λ o. o;
  before_now = λ o. omega arith;
  after_now = λ o. omega arith;
  uptime_now = λ o. omega arith;
  before_monotonic = λ o. omega arith;
  after_monotonic = λ o. omega arith;
  utc_draw = λ o. omega arith;
  utc_page = λ o. omega arith;
  utc_others = λ o. omega arith;
  uptime_others = λ o. omega arith;
  entries = λ o c id. inl refl;
  expiries = λ o c i. omega arith;
}

counting-Advancing : Advancing counting "j1"
counting-Advancing = record { kept = λ o c w. w; advanced = λ o c w row m e. (row, m, e, inl refl) }

process_job_enough_example :
    ((process_job counting settings 600_000_001 3 fresh_row.job.id (at_rest one)).0 ≢ ok false)
    × ((process_job counting settings 600_000_001 3 fresh_row.job.id (at_rest one)).0
        ≢ err out_of_rounds)
process_job_enough_example =
    process_job_enough counting settings 600_000_001 3 fresh_row (at_rest one) counting-Ticking
      counting-Advancing one-WellFormed (inl refl) (omega arith) (omega arith)

epos_is_service_id : all is_service_id ("epos" ∷ []) ≡ true
unfolding is_service_id
epos_is_service_id = refl

service_failure_result-batch_result_example :
    service_failure_result (some (batch_result ("mobile" ∷ []) ("epos" ∷ []) end))
    ≡ ok (
      "epos" ∷ [],
      sanitized_map
          (mapping_at "service_failures" (batch_result ("mobile" ∷ []) ("epos" ∷ []) end))
          ("epos" ∷ []),
    )
service_failure_result-batch_result_example =
    service_failure_result-batch_result ("mobile" ∷ []) ("epos" ∷ []) end epos_is_service_id refl

public_failure_code-word_example :
    is_word is_code_char 1 64 (public_failure_code " fetch failed: timeout ") ≡ true
public_failure_code-word_example = public_failure_code-word " fetch failed: timeout "

public_failure_code-runs : public_failure_code " fetch failed: timeout " ≡ "FETCH_FAILED_TIMEOUT"
unfolding get_receipt.Base.Text.strip is_code_char public_failure_code
public_failure_code-runs = refl

abbrev stopped_job : Job
stopped_job = record fresh { state = cancelled; version = 1 }

abbrev cancelled_one : Db
cancelled_one = record one { jobs = record { job = stopped_job; idempotency_key = "k" } ∷ [] }

get_job-stopped : get_job "j1" "me" cancelled_one ≡ (ok stopped_job, cancelled_one)
unfolding get_job get_receipt.Base.Exec.◌>>=◌ get_receipt.Base.Text.strip
    get_receipt.Jobs.Store.Rows.job_from_row get_receipt.Jobs.Model.validate
    get_receipt.Jobs.Model.require_nonempty get_receipt.Jobs.Model.check_job
    get_receipt.Jobs.Model.check_services get_receipt.Jobs.Model.is_target_month
    get_receipt.Jobs.Model.is_service_id get_receipt.Jobs.Model.assert_public_optional
get_job-stopped = refl

stopped : CancelledIn "j1" "me" cancelled_one
stopped = record { job = stopped_job; found = get_job-stopped; over = refl }

abbrev at_zero : (ℕ → Type 0)
at_zero n = n ≡ 0

run_attempt-CancelledIn_example :
    (run_attempt office settings stopped_job "epos" office.fetch_pdf
      (at_rest cancelled_one)).1.outer
    ≡ 0
run_attempt-CancelledIn_example =
    run_attempt-CancelledIn office settings stopped_job "epos" office.fetch_pdf at_zero
      (at_rest cancelled_one)
      (record { others = λ o c p. p; around = λ o p. p; listed = λ o p. p; fetched = λ m o p. p })
      stopped refl

abbrev states : Db → List JobState
states db = map (λ (row : JobRow). row.job.state) db.jobs

-- The run saves one receipt, finds it for the second service as well, and the job has succeeded.
run_once_saves :
    let t = (run_once office settings 5 5 (at_rest one)).1 in
    (t.outer ≡ 1) × (states t.common.db ≡ succeeded ∷ [])
unfolding get_job get_receipt.Acquisition.Run.check_with get_receipt.Acquisition.Workflow.attempt
    get_receipt.Acquisition.Workflow.checked_service get_receipt.Base.Exec.◌>>=◌
    get_receipt.Base.Text.strip get_receipt.Config.expected_transaction_month
    get_receipt.Config.parse_month_key get_receipt.Config.service_by_id
    get_receipt.Jobs.Model.assert_public_optional get_receipt.Jobs.Model.check_job
    get_receipt.Jobs.Model.check_services get_receipt.Jobs.Model.is_service_id
    get_receipt.Jobs.Model.is_target_month get_receipt.Jobs.Model.require_nonempty
    get_receipt.Jobs.Model.validate get_receipt.Jobs.Payload.assert_public_payload
    get_receipt.Jobs.Payload.get get_receipt.Jobs.Payload.is_forbidden_key
    get_receipt.Jobs.Store.Claim.claim_next get_receipt.Jobs.Store.Claim.failed_service_ids
    get_receipt.Jobs.Store.Claim.next_service get_receipt.Jobs.Store.Rows.count_rows
    get_receipt.Jobs.Store.Rows.first_by get_receipt.Jobs.Store.Rows.insert_event
    get_receipt.Jobs.Store.Rows.job_from_row get_receipt.Jobs.Store.Rows.update_one
    get_receipt.Jobs.Store.Rows.update_rows get_receipt.Jobs.Store.Update.apply_patch
    get_receipt.Jobs.Store.Update.compare_and_set get_receipt.Jobs.Store.Update.set_row
    get_receipt.Worker.Acquire.acquire_service get_receipt.Worker.Acquire.activate
    get_receipt.Worker.Acquire.ask_cancelled get_receipt.Worker.Acquire.challenge_loop
    get_receipt.Worker.Acquire.guarded_upsert get_receipt.Worker.Acquire.release
    get_receipt.Worker.Acquire.through get_receipt.Worker.Acquire.with_browser
    get_receipt.Worker.Failures.Codes.begins_with get_receipt.Worker.Failures.Codes.has_part
    get_receipt.Worker.Failures.Codes.is_code_char get_receipt.Worker.Failures.batch_result
    get_receipt.Worker.Failures.is_non_continuable_failure
    get_receipt.Worker.Failures.service_failure_result get_receipt.Worker.Failures.set_field
    get_receipt.Worker.Failures.with_item get_receipt.Worker.Process.absorb
    get_receipt.Worker.Process.complete_service get_receipt.Worker.Process.finish_batch
    get_receipt.Worker.Process.process_job get_receipt.Worker.Process.process_pass
    get_receipt.Worker.Process.record_completed get_receipt.Worker.Process.run_job
    get_receipt.Worker.Process.run_service get_receipt.Worker.Process.set_active
    get_receipt.Worker.Process.settle_service get_receipt.Worker.Process.start_service
    get_receipt.Worker.State.clock get_receipt.Worker.State.is_stopped
    get_receipt.Worker.State.on_store get_receipt.Worker.State.outside
    get_receipt.Worker.Swaps.cancellation_requested get_receipt.Worker.Swaps.finish_failed_result
    get_receipt.Worker.Swaps.first_open get_receipt.Worker.Swaps.note_failed
    get_receipt.Worker.Swaps.read_job get_receipt.Worker.Swaps.swap run_attempt run_once
run_once_saves = (refl, refl)

abbrev hands : Hands ℕ
hands = record {
  screenshot = λ o. (ok png_mark, o);
  click = λ x y o. (ok tt, suc o);
  insert_text = λ text o. (ok tt, suc o);
  press_key = λ key o. (ok tt, suc o);
}

abbrev viewed : Worker ℕ
viewed = record (at_rest one) {
  browser_job_id = some "j1";
  interactive_challenge_id = "c1";
  interactive_service_id = "epos";
  interactive_target_id = "t";
}

viewer_calls-Permitted_example :
    Permitted office "j1" "c2" viewed
    ⊎ (Refused office viewed (
          send_viewer_input office hands "j1" "c2" "click"
            (some (pos 10))
            (some (pos 20))
            ""
            ""
            viewed)
        × Refused office viewed (capture_viewer_frame office hands "j1" "c2" viewed)
        × Refused office viewed (continue_interactive office hands "j1" "c2" viewed))
viewer_calls-Permitted_example =
    viewer_calls-Permitted office hands "j1" "c2" "click" (some (pos 10)) (some (pos 20)) "" ""
      viewed

clicked :
    (send_viewer_input office hands "j1" "c1" " Click"
      (some (pos 10))
      (some (pos 20))
      ""
      ""
      viewed).1.outer
    ≡ 1
unfolding get_receipt.Base.Exec.◌>>=◌ get_receipt.Base.Text.strip get_receipt.Worker.Viewer.act
    get_receipt.Worker.Viewer.by_hand get_receipt.Worker.Viewer.is_action
    get_receipt.Worker.Viewer.require_active_browser get_receipt.Worker.Waits.is_official
    send_viewer_input
clicked = refl

queued_Complete : RowsAre "j1" Complete one
queued_Complete = (one-WellFormed, complete)
  where
    complete : (row : JobRow) → In row one.jobs → row.job.id ≡ "j1" → Complete row.job
    complete row (inl q) e h =
        absurd (unfinished (subst (λ (r : JobRow). r.job.state ≡ succeeded) q h))
      where
        unfinished : queued ≡ succeeded → ⊥
        unfinished k = cc k
    complete row (inr m) e h = absurd m

process_job-Complete_example :
    RowsAre "j1" Complete (process_job office settings 5 3 "j1" (at_rest one)).1.common.db
process_job-Complete_example =
    process_job-Complete office settings "j1" 5 3 (at_rest one) steady (λ o c p. p) queued_Complete
