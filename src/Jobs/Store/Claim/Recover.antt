-- ===== src/Jobs/Store/Claim/Recover.antt =====
-- `recover_incomplete_jobs`: what it keeps, and what a clock that went back does to it.
use get_receipt.Base.{
  ℕ, suc, ◌≤◌, String, ◌≡◌, refl, sym, subst, Bool, true, false, List, [], ◌∷◌, All, ok, arith,
  if◌then◌else◌, nat_eq,
}
use get_receipt.Base.Exec.Ensures.{
  Ensures, Ensures-bind, Ensures-pure, Ensures-lift-bind, Ensures-gets-bind, Ensures-transaction,
}
use get_receipt.Base.Exec.Atomic.{Atomic, Atomic-transaction}
use get_receipt.Jobs.Model.{Job, check_services, check_job, assert_public_optional}
use get_receipt.Jobs.Model.Valid.{
  IsValid, IsValid-intro, IsValid-owner, IsValid-nonempty, validate-check_job,
}
use get_receipt.Jobs.Store.Rows.{Db, JobRow, update_rows}
use get_receipt.Jobs.Store.Steps.{update_one-Ensures, insert_event-Ensures}
use get_receipt.Jobs.Store.Invariant.{WellFormed}
use get_receipt.Jobs.Store.Invariant.Keeps.{with_event-WellFormed, update-WellFormed}
use get_receipt.Jobs.Store.Claim.{
  recover_columns, recover_row, recover_rows, recover_incomplete_jobs, is_version,
}

-- The clock has not gone back behind the creation of a job.
abbrev pub NotBefore : ℕ → Db → Type 0
NotBefore now db = All (λ (row : JobRow). row.job.created_at ≤ now) db.jobs

same_services : (now v : ℕ) (j : Job) → check_services (recover_columns now v j) ≡ check_services j
unfolding check_services
same_services now v j = refl

recovered-check_job :
    (now v : ℕ) (j : Job)
    → check_job j ≡ ok tt
    → j.created_at ≤ now
    → check_job (recover_columns now v j) ≡ ok tt
unfolding check_job assert_public_optional
recovered-check_job now v j c h = ground (arith, same_services now v j)

recovered-IsValid :
    (now v : ℕ) (j : Job) → IsValid j → j.created_at ≤ now → IsValid (recover_columns now v j)
recovered-IsValid now v j valid h =
    IsValid-intro (recover_columns now v j) (IsValid-owner j valid) (IsValid-nonempty j valid)
      (recovered-check_job now v j (validate-check_job j j valid) h)

update_rows-NotBefore :
    (now t v : ℕ) (test : JobRow → Bool) (rows : List JobRow)
    → All (λ (row : JobRow). row.job.created_at ≤ now) rows
    → All (λ (row : JobRow). row.job.created_at ≤ now) (update_rows test (recover_columns t v) rows)
unfolding update_rows
update_rows-NotBefore now t v test [] h = tt
update_rows-NotBefore now t v test (r ∷ rs) h =
    (ground (arith, h.0), update_rows-NotBefore now t v test rs h.1)

update_rows-IsValid :
    (now v : ℕ) (test : JobRow → Bool) (rows : List JobRow)
    → All (λ (row : JobRow). row.job.created_at ≤ now) rows
    → All (λ (row : JobRow). IsValid row.job) rows
    → All (λ (row : JobRow). IsValid row.job) (update_rows test (recover_columns now v) rows)
unfolding update_rows
update_rows-IsValid now v test [] n h = tt
update_rows-IsValid now v test (r ∷ rs) n h =
    (one (test r), update_rows-IsValid now v test rs n.1 h.1)
  where
    one : (b : Bool) → IsValid (if b then record r { job = recover_columns now v r.job } else r).job
    one true = recovered-IsValid now v r.job h.0 n.0
    one false = h.0

-- What the loop keeps.
record Kept (now : ℕ) (db : Db) : Type 0 where
  formed : WellFormed db
  clock : NotBefore now db

recover_row-Kept :
    (now : ℕ) (row : JobRow) (db : Db)
    → Kept now db
    → Ensures (recover_row now row) db (λ u t. Kept now t)
unfolding recover_row
recover_row-Kept now row db k = Ensures-lift-bind _ _ _ λ ex e. Ensures-bind _ _ _ λ y d l.
    Ensures-bind _ _ _ λ i t m.
      let put =
        (update_one-Ensures _ (is_version ex ex.version) (recover_columns now (suc ex.version))
            db).at
          y d l in
      let noted = (insert_event-Ensures ex.id "worker_recovered_job" _ now d).at i t m in
      Ensures-pure _ _ (record {
        formed = subst WellFormed (sym noted.tables) (
            with_event-WellFormed ex.id _ _ now d noted.known (
              subst WellFormed (sym put) (
                update-WellFormed (is_version ex ex.version) (recover_columns now (suc ex.version))
                  (λ j. refl) (λ j. refl) db
                  (update_rows-IsValid now (suc ex.version) _ db.jobs k.clock k.formed.valid)
                  k.formed)));
        clock = subst (NotBefore now) (sym noted.tables) (
            subst (NotBefore now) (sym put)
              (update_rows-NotBefore now now (suc ex.version) _ db.jobs k.clock));
      })

recover_rows-Kept :
    (now : ℕ) (rows : List JobRow) (db : Db)
    → Kept now db
    → Ensures (recover_rows now rows) db (λ n t. Kept now t)
unfolding recover_rows
recover_rows-Kept now [] db k = Ensures-pure _ _ k
recover_rows-Kept now (row ∷ rows) db k = Ensures-bind _ _ _ λ u d h. Ensures-bind _ _ _ λ n t l.
    Ensures-pure _ _
      ((recover_rows-Kept now rows d ((recover_row-Kept now row db k).at u d h)).at n t l)

pub recover_incomplete_jobs-Atomic :
    (now : ℕ) (owner : String) → Atomic (recover_incomplete_jobs now owner)
unfolding recover_incomplete_jobs
recover_incomplete_jobs-Atomic now owner = Atomic-transaction _

pub recover_incomplete_jobs-Keeps :
    (now : ℕ) (owner : String) (db : Db)
    → NotBefore now db
    → WellFormed db
    → Ensures (recover_incomplete_jobs now owner) db (λ n t. WellFormed t)
unfolding recover_incomplete_jobs
recover_incomplete_jobs-Keeps now owner db n w = Ensures-transaction _ _ (
    Ensures-gets-bind _ _ _ (record {
      at = λ c t h.
          ((recover_rows-Kept now _ db (record { formed = w; clock = n })).at c t h).formed;
    }))
