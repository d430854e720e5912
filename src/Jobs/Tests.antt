-- ===== src/Jobs/Tests.antt =====
-- The store's and the inbox's theorems at concrete inputs.
use get_receipt.Base.{
  ◌↔◌, ◌<◌, ◌≤◌, is_ok, ◌⊎◌, none, some, [], ◌∷◌, ◌≡◌, refl, ok, err, true, false, arith, ◌&&◌, all,
}
use get_receipt.Base.Text.{strip, is_empty}
use get_receipt.Base.Exec.{◌>>=◌}
use get_receipt.Jobs.Payload.{
  Fields, dict, field, text, end, assert_public_payload, version_conflict,
}
use get_receipt.Jobs.Model.{Job, queued, running, validate}
use get_receipt.Jobs.Model.Valid.{IsValid}
use get_receipt.Jobs.Model.Accepted.{Accepted, validate-Accepted}
use get_receipt.Jobs.Store.Rows.{Db, JobRow, empty_db}
use get_receipt.Base.Exec.Ensures.{Ensures}
use get_receipt.Jobs.Store.Create.Once.{create_job_twice}
use get_receipt.Jobs.Store.Claim.{claim_next}
use get_receipt.Jobs.Store.Claim.Oldest.{claim_next-Ensures, Idle, Met}
use get_receipt.Jobs.Store.Reachable.{Reach-WellFormed, next, start, created}
use get_receipt.Jobs.Payload.Public.{assert_public_payload-keys, allowed, keys, is_plain}
use get_receipt.Jobs.Inbox.{Pending, Inbox, answer, consume, wait_round, submit, returned}
use get_receipt.Jobs.Inbox.Single as Single
use Prim.Native.String.{len}
use get_receipt.Jobs.Store.Invariant.{WellFormed}
use get_receipt.Jobs.Store.Create.{create_job, get_job}
use get_receipt.Jobs.Store.Update.{Patch, compare_and_set, apply_patch, no_change}
use get_receipt.Jobs.Store.Update.Swap.{
  compare_and_set-get_job, compare_and_set_stale, compare_and_set_fresh,
}
use get_receipt.Jobs.Store.Update.Outcome.{updated_db}

abbrev pub fresh : Job
fresh = record {
  id = "j1";
  owner = "me";
  target_month = "2026-05";
  service_ids = "epos" ∷ "mobile" ∷ [];
  state = queued;
  completed = [];
  current = none;
  version = 0;
  created_at = 100;
  updated_at = 100;
  error = none;
  result = none;
}

abbrev pub one : Db
one = record {
  jobs = record { job = fresh; idempotency_key = "k" } ∷ [];
  challenges = [];
  events = [];
  last_event = 0;
}

fresh-IsValid : IsValid fresh
unfolding validate get_receipt.Jobs.Model.require_nonempty strip get_receipt.Jobs.Model.check_job
    get_receipt.Jobs.Model.check_services get_receipt.Jobs.Model.is_target_month
    get_receipt.Jobs.Model.is_service_id get_receipt.Jobs.Model.assert_public_optional
fresh-IsValid = refl

validate-Accepted_example :
    (validate (record fresh { owner = " me " }) ≡ ok fresh)
    ↔ (Accepted (record fresh { owner = " me " }) × (fresh ≡ record fresh { owner = strip " me " }))
validate-Accepted_example = validate-Accepted (record fresh { owner = " me " }) fresh

pub one-WellFormed : WellFormed one
one-WellFormed = record {
  valid = (fresh-IsValid, tt);
  ids = (refl, tt);
  keys = (refl, tt);
  ascending = tt;
  event_jobs = tt;
  challenge_jobs = tt;
}

pub get_job-one : get_job "j1" "me" one ≡ (ok fresh, one)
unfolding get_job ◌>>=◌ strip get_receipt.Jobs.Store.Rows.job_from_row validate
    get_receipt.Jobs.Model.require_nonempty get_receipt.Jobs.Model.check_job
    get_receipt.Jobs.Model.check_services get_receipt.Jobs.Model.is_target_month
    get_receipt.Jobs.Model.is_service_id get_receipt.Jobs.Model.assert_public_optional
get_job-one = refl

no_payload-public : assert_public_payload end ≡ ok tt
unfolding assert_public_payload
no_payload-public = refl

compare_and_set_stale_example :
    compare_and_set 150 "j1" "me" 7 no_change "state_changed" end one ≡ (err version_conflict, one)
compare_and_set_stale_example =
    compare_and_set_stale 150 7 "j1" "me" no_change "state_changed" end one fresh no_payload-public
      get_job-one (omega arith)

created_fresh :
    (create_job 100 "j1" "me" "2026-05" ("epos" ∷ "mobile" ∷ []) none empty_db)
    ≡ (ok fresh, (create_job 100 "j1" "me" "2026-05" ("epos" ∷ "mobile" ∷ []) none empty_db).1)
unfolding create_job ◌>>=◌ get_receipt.Jobs.Model.new_job get_receipt.Jobs.Model.require_nonempty
    strip get_receipt.Jobs.Model.check_job get_receipt.Jobs.Model.check_services
    get_receipt.Jobs.Model.is_target_month get_receipt.Jobs.Model.is_service_id
    get_receipt.Jobs.Model.assert_public_optional
    get_receipt.Jobs.Store.Create.default_idempotency_key get_receipt.Jobs.Store.Create.insert_job
    get_receipt.Jobs.Store.Rows.insert_event assert_public_payload
    get_receipt.Jobs.Payload.is_forbidden_key get_receipt.Jobs.Payload.to_items
created_fresh = refl

create_job_twice_example :
    create_job 300 "j2" "me" "2026-05"
      ("epos" ∷ "mobile" ∷ [])
      none
      (create_job 100 "j1" "me" "2026-05" ("epos" ∷ "mobile" ∷ []) none empty_db).1
    ≡ (ok fresh, (create_job 100 "j1" "me" "2026-05" ("epos" ∷ "mobile" ∷ []) none empty_db).1)
create_job_twice_example =
    create_job_twice 100 300 "j1" "j2" "me" "2026-05" ("epos" ∷ "mobile" ∷ []) none empty_db
      (create_job 100 "j1" "me" "2026-05" ("epos" ∷ "mobile" ∷ []) none empty_db).1 fresh
      created_fresh

abbrev to_running : Patch
to_running = record {
  state = some running;
  completed = none;
  current = some (some "epos");
  error = none;
  result = none;
}

abbrev run : Job
run = record fresh { state = running; current = some "epos"; version = 1; updated_at = 150 }

run_passes : validate (apply_patch to_running 150 fresh) ≡ ok (apply_patch to_running 150 fresh)
unfolding validate get_receipt.Jobs.Model.require_nonempty strip apply_patch
    get_receipt.Jobs.Model.check_job get_receipt.Jobs.Model.check_services
    get_receipt.Jobs.Model.is_target_month get_receipt.Jobs.Model.is_service_id
    get_receipt.Jobs.Model.assert_public_optional
run_passes = refl

run_named : is_empty (strip "state_changed") ≡ false
unfolding strip
run_named = refl

compare_and_set_fresh_example :
    compare_and_set 150 "j1" "me" 0 to_running "state_changed" end one ≡ (
      ok (apply_patch to_running 150 fresh),
      updated_db 150 0 to_running "state_changed" end (apply_patch to_running 150 fresh) one,
    )
compare_and_set_fresh_example =
    compare_and_set_fresh 150 0 "j1" "me" to_running "state_changed" end one fresh one-WellFormed
      no_payload-public run_named get_job-one run_passes

compare_and_set-get_job_example :
    (j : Job) × (get_job "j1" "me" one ≡ (ok j, one))
    × (j.version ≡ 0)
    × (apply_patch to_running 150 fresh ≡ apply_patch to_running 150 j)
    × (get_job "j1" "me"
          (updated_db 150 0 to_running "state_changed" end (apply_patch to_running 150 fresh) one)
        ≡ (
          ok (apply_patch to_running 150 fresh),
          updated_db 150 0 to_running "state_changed" end (apply_patch to_running 150 fresh) one,
        ))
compare_and_set-get_job_example =
    compare_and_set-get_job 150 0 "j1" "me" to_running "state_changed" end one
      (updated_db 150 0 to_running "state_changed" end (apply_patch to_running 150 fresh) one)
      (apply_patch to_running 150 fresh) one-WellFormed
      (compare_and_set_fresh 150 0 "j1" "me" to_running "state_changed" end one fresh one-WellFormed
        no_payload-public run_named get_job-one run_passes)

claim_next-Ensures_example :
    Ensures (claim_next 150 "me") one (λ o t. Idle "me" one o t ⊎ Met 150 "me" one o t)
claim_next-Ensures_example = claim_next-Ensures 150 "me" one one-WellFormed

Reach-WellFormed_example :
    WellFormed (create_job 100 "j1" "me" "2026-05" ("epos" ∷ []) none empty_db).1
Reach-WellFormed_example =
    Reach-WellFormed (next start (created 100 "j1" "me" "2026-05" ("epos" ∷ []) none))

assert_public_payload-keys_example :
    is_ok (assert_public_payload (field "Set-Cookie" (text "x") end)) ≡ (
      all allowed (keys (dict (field "Set-Cookie" (text "x") end)))
      && is_plain (dict (field "Set-Cookie" (text "x") end)))
assert_public_payload-keys_example = assert_public_payload-keys (field "Set-Cookie" (text "x") end)

abbrev pending : Pending
pending = record {
  challenge_id = "c1";
  owner_id = "me";
  expires = 100;
  response = none;
  answered = false;
  closed = false;
}

abbrev answered_pending : Pending
answered_pending = record pending { response = some "1234"; answered = true }

answer_now : answer 50 "me" "1234" pending ≡ (ok tt, answered_pending)
unfolding answer
answer_now = refl

answer_accepted_example :
    (pending.owner_id ≡ "me")
    × (50 < 100)
    × (pending.answered ≡ false)
    × (pending.closed ≡ false)
    × (len "1234" ≤ 256)
    × (answered_pending ≡ record pending { response = some "1234"; answered = true })
answer_accepted_example = Single.answer_accepted 50 "me" "1234" pending answered_pending answer_now

answer-consume_example :
    consume 90 60 61 answered_pending
    ≡ (returned (some "1234"), record answered_pending { response = none; closed = true })
answer-consume_example =
    Single.answer-consume 50 90 60 61 "me" "1234" pending answered_pending answer_now

abbrev answered_inbox : Inbox
answered_inbox = record { objects = λ i. some answered_pending; allocated = 1; table = λ k. none }

waited_once :
    wait_round 90 60 61 0 answered_inbox
    ≡ (returned (some "1234"), (wait_round 90 60 61 0 answered_inbox).1)
unfolding wait_round
waited_once = refl

consumed_once_example :
    (wait_round 90 70 71 0 (submit 65 "c1" "me" "9" (wait_round 90 60 61 0 answered_inbox).1).1).0
    ≡ returned none
consumed_once_example =
    Single.consumed_once 90 60 61 0 "1234" answered_inbox (wait_round 90 60 61 0 answered_inbox).1
      (submit 65 "c1" "me" "9" (wait_round 90 60 61 0 answered_inbox).1).1 90 70 71 (omega arith)
      waited_once (Single.next Single.here (Single.submitted 65 "c1" "me" "9"))
