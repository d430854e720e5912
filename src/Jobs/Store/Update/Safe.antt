-- ===== src/Jobs/Store/Update/Safe.antt =====
-- `compare_and_set` and `append_event` keep the tables well formed, and undo what they did when
-- they raise.
use get_receipt.Base.{ℕ, String, ◌≡◌, refl, sym, subst, any, guard as require}
use get_receipt.Base.Text.{strip}
use get_receipt.Base.Exec.{◌>>◌, lift, gets, transaction, ◌>>=◌}
use get_receipt.Base.Exec.Ensures.{
  Ensures, Ensures-bind, Ensures-pure, Ensures-lift-bind, Ensures-gets-bind, Ensures-transaction,
}
use get_receipt.Base.Exec.Atomic.{
  Atomic, Atomic-bind, Atomic-transaction, ReadsOnly-lift, Atomic-bind-pure,
}
use get_receipt.Jobs.Payload.{Fields, job_not_found}
use get_receipt.Jobs.Model.{Job}
use get_receipt.Jobs.Model.Valid.{IsValid, validate-IsValid}
use get_receipt.Jobs.Store.Rows.{insert_event, Db, JobRow, is_job_of}
use get_receipt.Jobs.Store.Tables.{find?-In}
use get_receipt.Jobs.Store.Steps.{insert_event-Ensures}
use get_receipt.Jobs.Store.Invariant.{WellFormed, find?-IsValid}
use get_receipt.Jobs.Store.Invariant.Keeps.{
  updated-WellFormed, is_version-OnlyId, with_event-WellFormed,
}
use get_receipt.Jobs.Store.Claim.{is_version}
use get_receipt.Jobs.Store.Update.{Patch, apply_patch, set_columns, compare_and_set, append_event}
use get_receipt.Jobs.Store.Update.Swap.{compare_and_set-Ensures, changed_job, changed_row}

module _ (now expected : ℕ) (job_id owner : String) (patch : Patch) (event_type : String)
    (payload : Fields) where
  pub compare_and_set-Atomic :
      Atomic (compare_and_set now job_id owner expected patch event_type payload)
  unfolding compare_and_set
  compare_and_set-Atomic = Atomic-bind _ _ (ReadsOnly-lift _) (λ x. Atomic-transaction _)

  pub compare_and_set-Keeps :
      (db : Db)
      → WellFormed db
      → Ensures
          (compare_and_set now job_id owner expected patch event_type payload)
          db
          (λ u t. WellFormed t)
  unfolding apply_patch
  compare_and_set-Keeps db w = record {
    at = λ u t h.
        let m =
          (compare_and_set-Ensures now expected job_id owner patch event_type payload db w).at u t
            h in
        let v = find?-IsValid _ db m.row w m.found in
        let e =
          changed_job now expected job_id owner patch event_type payload m.row u v
            m.accepted.checks in
        let (tested, columns) =
          changed_row now expected job_id owner patch event_type payload m.row u e
            m.accepted.version in
        subst WellFormed (sym m.accepted.tables) (
          updated-WellFormed (is_version u expected) (set_columns u) u.id (strip event_type) payload
            u.updated_at db m.row (λ j. refl) (λ j. refl) (is_version-OnlyId u expected)
            (find?-In _ db.jobs m.row m.found).0 (same_id m.row u e)
            (subst IsValid (sym columns) (validate-IsValid _ u m.accepted.checks)) w);
  }
    where
      same_id : (row : JobRow) (u : Job) → u ≡ apply_patch patch now row.job → row.job.id ≡ u.id
      same_id row u e = rw e

module _ (now : ℕ) (job_id owner event_type : String) (payload : Fields) where
  -- A rejected event leaves the event table alone.
  pub append_event-Atomic : Atomic (append_event now job_id owner event_type payload)
  unfolding append_event
  append_event-Atomic =
      Atomic-bind _ _ (ReadsOnly-lift _) (λ x. Atomic-bind-pure _ _ (Atomic-transaction _))

  pub append_event-Keeps :
      (db : Db)
      → WellFormed db
      → Ensures (append_event now job_id owner event_type payload) db (λ e t. WellFormed t)
  unfolding append_event
  append_event-Keeps db w =
      Ensures-lift-bind _ _ _ λ x e. Ensures-bind _ _ _ λ i t h. Ensures-pure _ _ (kept.at i t h)
    where
      kept :
          Ensures
            (transaction (
              gets (λ (d : Db). any (is_job_of job_id (strip owner)) d.jobs) >>= λ found.
              lift (require found job_not_found) >> insert_event job_id event_type payload now))
            db
            (λ i t. WellFormed t)
      kept = Ensures-transaction _ _ (
          Ensures-gets-bind _ _ _ (
            Ensures-lift-bind _ _ _ λ y f. record {
              at = λ i t h.
                  let r = (insert_event-Ensures job_id event_type payload now db).at i t h in
                  subst WellFormed (sym r.tables)
                    (with_event-WellFormed job_id (strip event_type) payload now db r.known w);
            }))
