-- ===== src/Jobs/Store/Steps.antt =====
-- What the statements that the operations share have done when they return.
use get_receipt.Base.Exec.{◌>>=◌}
use get_receipt.Base.Exec.Ensures.{Ensures, Ensures-lift, Ensures-gets-bind, Ensures-modify-bind}
use get_receipt.Base.{
  suc, ℕ, String, refl, ◌≡◌, Bool, true, false, nat_eq, string_eq, any, ok, arith,
}
use get_receipt.Base.Text.{strip, is_empty}
use get_receipt.Jobs.Payload.{JobError, Fields, assert_public_payload}
use get_receipt.Jobs.Model.{Job}
use get_receipt.Jobs.Store.Rows.{
  count_rows, Db, JobRow, update_one, insert_event, has_id, with_update, with_event,
}

pub update_one-Ensures :
    (conflict : JobError) (test : JobRow → Bool) (change : Job → Job) (db : Db)
    → Ensures (update_one conflict test change) db (λ u t. t ≡ with_update test change db)
unfolding update_one
update_one-Ensures conflict test change db =
    Ensures-gets-bind _ _ _ (Ensures-modify-bind _ _ _ (Ensures-lift _ _ (λ u e. refl)))

-- What an insertion into the event table has found and done.
pub record Recorded (job_id event_type : String) (payload : Fields) (now : ℕ) (db t : Db)
    : Type 0 where
  pub tables : t ≡ with_event job_id (strip event_type) payload now db
  pub named : is_empty (strip event_type) ≡ false
  pub checked : assert_public_payload payload ≡ ok tt
  pub known : any (has_id job_id) db.jobs ≡ true

pub insert_event-Ensures :
    (job_id event_type : String) (payload : Fields) (now : ℕ) (db : Db)
    → Ensures
        (insert_event job_id event_type payload now)
        db
        (λ i t. Recorded job_id event_type payload now db t)
unfolding insert_event ◌>>=◌
insert_event-Ensures job_id event_type payload now db = record {
  at = λ i t h. record {
    tables = ground arith;
    named = ground arith;
    checked = ground arith;
    known = ground arith;
  };
}

pub update_one_runs :
    (conflict : JobError) (test : JobRow → Bool) (change : Job → Job) (db : Db)
    → count_rows test db.jobs ≡ 1
    → update_one conflict test change db ≡ (ok tt, with_update test change db)
unfolding update_one ◌>>=◌
update_one_runs conflict test change db h = rw h

pub insert_event_runs :
    (job_id event_type : String) (payload : Fields) (now : ℕ) (db : Db)
    → is_empty (strip event_type) ≡ false
    → assert_public_payload payload ≡ ok tt
    → any (has_id job_id) db.jobs ≡ true
    → insert_event job_id event_type payload now db
      ≡ (ok (suc db.last_event), with_event job_id (strip event_type) payload now db)
unfolding insert_event ◌>>=◌
insert_event_runs job_id event_type payload now db n p k = rw (n, p, k)
