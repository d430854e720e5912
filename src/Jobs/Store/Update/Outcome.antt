-- ===== src/Jobs/Store/Update/Outcome.antt =====
-- What `compare_and_set` does, on every branch.
use get_receipt.Base.{guard-ok, ap, ◌∙◌, ℕ, String, ◌≡◌, true, ◌==◌, nat_eq, string_eq, ok}
use get_receipt.Base.Text.{strip}
use get_receipt.Base.Exec.Ensures.{Ensures, Ensures-lift-bind, Ensures-bind, Ensures-pure}
use get_receipt.Jobs.Store.Steps.{update_one-Ensures, insert_event-Ensures}
use get_receipt.Jobs.Payload.{Fields, version_conflict}
use get_receipt.Jobs.Model.{Job, validate}
use get_receipt.Jobs.Model.Valid.{IsValid-read, IsValid}
use get_receipt.Jobs.Store.Rows.{Db, JobRow, job_from_row, with_update, with_event}
use get_receipt.Jobs.Store.Claim.{is_version}
use get_receipt.Jobs.Store.Update.{Patch, apply_patch, set_row, set_columns}

module _ (now expected : ℕ) (patch : Patch) (event_type : String) (payload : Fields) where
  -- The tables after an accepted update.
  abbrev pub updated_db : Job → Db → Db
  updated_db u db =
      with_event u.id (strip event_type) payload u.updated_at
        (with_update (is_version u expected) (set_columns u) db)

  pub record Accepted (row : JobRow) (db : Db) (u : Job) (t : Db) : Type 0 where
    pub version : row.job.version ≡ expected
    pub checks : validate (apply_patch patch now row.job) ≡ ok u
    pub tables : t ≡ updated_db u db

  pub set_row-Ensures :
      (row : JobRow) (db : Db)
      → IsValid row.job
      → Ensures (set_row now expected patch event_type payload row) db (Accepted row db)
  unfolding set_row job_from_row
  set_row-Ensures row db v = Ensures-lift-bind _ _ _ λ ex e. Ensures-lift-bind _ _ _ λ x f.
      Ensures-lift-bind _ _ _ λ u g. Ensures-bind _ _ _ λ y d k. Ensures-bind _ _ _ λ z d2 k2.
        Ensures-pure _ _ (
          accepted ex u d d2 (IsValid-read row.job ex v e)
            (guard-ok (ex.version == expected) version_conflict x f) g
            ((update_one-Ensures _ _ _ db).at y d k)
            ((insert_event-Ensures u.id event_type payload u.updated_at d).at z d2 k2).tables)
    where
      accepted :
          (ex u : Job) (d t : Db)
          → ex ≡ row.job
          → (ex.version == expected) ≡ true
          → validate (apply_patch patch now ex) ≡ ok u
          → d ≡ with_update (is_version u expected) (set_columns u) db
          → t ≡ with_event u.id (strip event_type) payload u.updated_at d
          → Accepted row db u t
      accepted ex u d t same v g p q = record {
        version = rw same at ((nat_eq.beq_iff ex.version expected).0 v);
        checks = rw same at g;
        tables = q ∙ ap (with_event u.id (strip event_type) payload u.updated_at) p;
      }
