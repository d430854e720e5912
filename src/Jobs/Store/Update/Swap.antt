-- ===== src/Jobs/Store/Update/Swap.antt =====
-- `compare_and_set` against `get_job`: what a caller reads before and after it.
use get_receipt.Base.{
  ℕ, String, ◌≡◌, refl, sym, ap, ◌∙◌, ◌≢◌, true, false, Option, none, some, nat_eq, string_eq,
  find?, or_raise, beq-false, beq-true, ok, err, arith, eq_iff,
}
use get_receipt.Base.Text.{strip, is_empty}
use get_receipt.Base.Exec.{◌>>=◌}
use get_receipt.Base.Exec.Ensures.{
  Ensures, Ensures-lift, Ensures-lift-bind, Ensures-gets-bind, Ensures-transaction,
}
use get_receipt.Jobs.Payload.{Fields, assert_public_payload, job_not_found, version_conflict}
use get_receipt.Jobs.Model.{Job, validate}
use get_receipt.Jobs.Model.Valid.{
  IsValid, validate-eq, validate-IsValid, IsValid-read, IsValid-owner,
}
use get_receipt.Jobs.Store.Rows.{has_id, with_update, Db, JobRow, is_job_of, job_from_row}
use get_receipt.Jobs.Store.Tables.{
  any-In, any-update_rows, count_rows-one, eq_self, find?-In, find?-update_rows,
}
use get_receipt.Jobs.Store.Invariant.{WellFormed, find?-IsValid}
use get_receipt.Jobs.Store.Steps.{update_one_runs, insert_event_runs}
use get_receipt.Jobs.Store.Create.{get_job}
use get_receipt.Jobs.Store.Claim.{is_version}
use get_receipt.Jobs.Store.Update.{Patch, apply_patch, set_row, set_columns, compare_and_set}
use get_receipt.Jobs.Store.Update.Outcome.{updated_db, Accepted, set_row-Ensures}

or_raise-some :
    (o : Option JobRow) (row : JobRow) → or_raise o job_not_found ≡ ok row → o ≡ some row
or_raise-some none row h = cc
or_raise-some (some r) row h = cc

-- The row behind a job that `get_job` has returned.
pub record Read (job_id owner : String) (db : Db) (j : Job) : Type 0 where
  pub row : JobRow
  pub found : find? (is_job_of job_id (strip owner)) db.jobs ≡ some row
  pub read : job_from_row row ≡ ok j

pub get_job-Ensures :
    (job_id owner : String) (db : Db)
    → Ensures (get_job job_id owner) db (λ j t. Read job_id owner db j)
unfolding get_job
get_job-Ensures job_id owner db = Ensures-gets-bind _ _ _ (
    Ensures-lift-bind _ _ _ λ row f.
      Ensures-lift _ _ λ j r. record { row = row; found = or_raise-some _ row f; read = r })

-- The job of a row that a search has found.
pub get_job-found :
    (job_id owner : String) (db : Db) (row : JobRow)
    → find? (is_job_of job_id (strip owner)) db.jobs ≡ some row
    → IsValid row.job
    → get_job job_id owner db ≡ (ok row.job, db)
unfolding get_job job_from_row ◌>>=◌
get_job-found job_id owner db row h v = rw (h, v) refl

module _ (now expected : ℕ) (job_id owner : String) (patch : Patch) (event_type : String)
    (payload : Fields) where
  -- The row that an accepted call has met, and what it has made of the tables.
  pub record Met (db : Db) (u : Job) (t : Db) : Type 0 where
    pub row : JobRow
    pub found : find? (is_job_of job_id (strip owner)) db.jobs ≡ some row
    pub accepted : Accepted now expected patch event_type payload row db u t

  pub compare_and_set-Ensures :
      (db : Db)
      → WellFormed db
      → Ensures (compare_and_set now job_id owner expected patch event_type payload) db (Met db)
  unfolding compare_and_set
  compare_and_set-Ensures db w = Ensures-lift-bind _ _ _ λ x e. Ensures-transaction _ _ (
      Ensures-gets-bind _ _ _ (
        Ensures-lift-bind _ _ _ λ row f.
          let found = or_raise-some _ row f in
          record {
            at = λ u t h. record {
              row = row;
              found = found;
              accepted =
                  (set_row-Ensures now expected patch event_type payload row db
                      (find?-IsValid _ db row w found)).at
                    u t h;
            };
          }))

  pub changed_job :
      (row : JobRow) (u : Job)
      → IsValid row.job
      → validate (apply_patch patch now row.job) ≡ ok u
      → u ≡ apply_patch patch now row.job
  unfolding apply_patch
  changed_job row u v h =
      validate-eq _ u h
      ∙ ap (λ o. record (apply_patch patch now row.job) { owner = o }) (IsValid-owner row.job v)

  pub changed_row :
      (row : JobRow) (u : Job)
      → u ≡ apply_patch patch now row.job
      → row.job.version ≡ expected
      → (is_version u expected row ≡ true) × (set_columns u row.job ≡ u)
  unfolding apply_patch
  changed_row row u e v = rw e (
    rw (eq_self row.job.id, eq_self row.job.owner) ((nat_eq.beq_iff row.job.version expected).1 v),
    refl,
  )

  row_matches :
      (row : JobRow) (j : Job)
      → row.job ≡ j
      → is_version (apply_patch patch now j) j.version row ≡ true
  unfolding apply_patch
  row_matches row j e =
      rw e (rw (eq_self j.id, eq_self j.owner) ((nat_eq.beq_iff j.version j.version).1 refl))

  only_version :
      (j : Job) (r : JobRow)
      → is_version (apply_patch patch now j) j.version r ≡ true
      → r.job.id ≡ j.id
  unfolding apply_patch
  only_version j r t = ground (arith, eq_iff r.job.id j.id)

  -- The updated row is what a search by the same identifier and owner finds afterwards.
  found_after :
      (db t : Db) (u : Job) (m : Met db u t)
      → u ≡ apply_patch patch now m.row.job
      → find? (is_job_of job_id (strip owner)) t.jobs ≡ some (record m.row { job = u })
  found_after db t u m e =
      let (tested, columns) = changed_row m.row u e m.accepted.version in
      ap (λ (d : Db). find? (is_job_of job_id (strip owner)) d.jobs) m.accepted.tables
      ∙ find?-update_rows (is_job_of job_id (strip owner)) (is_version u expected) (set_columns u)
          (λ r. refl) db.jobs m.row m.found
      ∙ rw tested (rw columns)

  -- From well-formed tables, a call that returns has met a job with the expected version, returns
  -- that job with the patch applied, the version one higher and the clock's time, and a reader
  -- with the same identifier and owner reads the old job before it and the new one after it.
  pub compare_and_set-get_job :
      (db t : Db) (u : Job)
      → WellFormed db
      → compare_and_set now job_id owner expected patch event_type payload db ≡ (ok u, t)
      → (j : Job) × (get_job job_id owner db ≡ (ok j, db))
        × (j.version ≡ expected)
        × (u ≡ apply_patch patch now j)
        × (get_job job_id owner t ≡ (ok u, t))
  compare_and_set-get_job db t u w h =
      let m = (compare_and_set-Ensures db w).at u t h in
      let v = find?-IsValid _ db m.row w m.found in
      let e = changed_job m.row u v m.accepted.checks in
      (
        m.row.job,
        get_job-found job_id owner db m.row m.found v,
        m.accepted.version,
        e,
        get_job-found job_id owner t (record m.row { job = u }) (found_after db t u m e)
            (validate-IsValid _ u m.accepted.checks),
      )

  -- A call with a public payload and another version than the stored one raises the conflict and changes nothing.
  pub compare_and_set_stale :
      (db : Db) (j : Job)
      → assert_public_payload payload ≡ ok tt
      → get_job job_id owner db ≡ (ok j, db)
      → j.version ≢ expected
      → compare_and_set now job_id owner expected patch event_type payload db
        ≡ (err version_conflict, db)
  unfolding compare_and_set set_row ◌>>=◌
  compare_and_set_stale db j p g n =
      let m = (get_job-Ensures job_id owner db).at j db g in
      rw (p, m.found, m.read, beq-false j.version expected n)

  -- On well-formed tables, a call with the stored version, a public payload, a named event and a
  -- patch that passes the job's checks is accepted: it returns the patched job and records the event.
  pub compare_and_set_fresh :
      (db : Db) (j : Job)
      → WellFormed db
      → assert_public_payload payload ≡ ok tt
      → is_empty (strip event_type) ≡ false
      → get_job job_id owner db ≡ (ok j, db)
      → validate (apply_patch patch now j) ≡ ok (apply_patch patch now j)
      → compare_and_set now job_id owner j.version patch event_type payload db ≡ (
        ok (apply_patch patch now j),
        updated_db now j.version patch event_type payload (apply_patch patch now j) db,
      )
  unfolding compare_and_set set_row ◌>>=◌ apply_patch job_from_row
  compare_and_set_fresh db j w p q g v =
      let m = (get_job-Ensures job_id owner db).at j db g in
      let (member, tested) = find?-In _ db.jobs m.row m.found in
      let same = IsValid-read m.row.job j (find?-IsValid _ db m.row w m.found) m.read in
      let at_id : m.row.job.id ≡ j.id = ap (λ (k : Job). k.id) (sym same) in
      rw (
        p,
        m.found,
        m.read,
        beq-true j.version j.version refl,
        v,
        update_one_runs version_conflict (is_version (apply_patch patch now j) j.version)
            (set_columns (apply_patch patch now j)) db
            (count_rows-one j.id _ (only_version j) (set_columns j) db.jobs m.row w.ids member at_id
              (row_matches m.row j (sym same))),
        insert_event_runs j.id event_type payload now
            (with_update (is_version (apply_patch patch now j) j.version)
              (set_columns (apply_patch patch now j)) db)
            q p
            (any-update_rows (has_id j.id) (is_version (apply_patch patch now j) j.version)
                (set_columns (apply_patch patch now j)) (λ r. refl) db.jobs
              ∙ any-In (has_id j.id) db.jobs m.row member (beq-true m.row.job.id j.id at_id)),
      )
