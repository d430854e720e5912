-- ===== src/Jobs/Store/Create/Once.antt =====
-- `create_job` makes one job for one idempotency key.
use get_receipt.Base.{
  Result, ℕ, String, ◌≡◌, refl, sym, ap, ◌∙◌, subst, Bool, true, false, not, ◌||◌, Option, none,
  some, List, [], ◌∷◌, ◌++◌, string_eq, any, find?, list_beq, ok, arith, guard-ok,
}
use get_receipt.Base.Text.{strip, is_empty}
use get_receipt.Base.Exec.{◌>>=◌}
use get_receipt.Base.Exec.Ensures.{
  Ensures, Ensures-bind, Ensures-pure, Ensures-modify, Ensures-lift-bind, Ensures-gets-bind,
  Ensures-transaction,
}
use get_receipt.Base.Exec.Atomic.{
  ReadsOnly, atomic_rules, Atomic, Atomic-transaction, Atomic-bind, ReadsOnly-lift,
}
use get_receipt.Jobs.Payload.{JobError, integrity_error, value_error}
use get_receipt.Jobs.Model.{check_services, Job, new_job, check_job}
use get_receipt.Jobs.Model.Valid.{IsValid, validate-IsValid}
use get_receipt.Jobs.Store.Rows.{Db, JobRow, job_from_row, has_id}
use get_receipt.Jobs.Store.Tables.{eq_self}
use get_receipt.Jobs.Store.Steps.{insert_event-Ensures}
use get_receipt.Jobs.Store.Invariant.{WellFormed}
use get_receipt.Jobs.Store.Invariant.Keeps.{insert-WellFormed, with_event-WellFormed}
use get_receipt.Jobs.Store.Create.{
  create_job, return_or_insert, insert_job, has_key, key_or_default,
}

any-or-false :
    (p q : JobRow → Bool) (rows : List JobRow)
    → any (λ r. p r || q r) rows ≡ false
    → (any p rows ≡ false) × (any q rows ≡ false)
any-or-false p q [] h = (refl, refl)
any-or-false p q (r ∷ rs) h = ground (arith, any-or-false p q rs)

not-true : (b : Bool) → not b ≡ true → b ≡ false
not-true false h = refl
not-true true h = cc

abbrev pub with_job : Job → String → Db → Db
with_job job key db = record db {
  jobs = db.jobs ++ record { job = job; idempotency_key = key } ∷ [];
}

record Inserted (job : Job) (key : String) (db t : Db) : Type 0 where
  tables : t ≡ with_job job key db
  new_id : any (has_id job.id) db.jobs ≡ false
  new_key : any (has_key job.owner key) db.jobs ≡ false

insert_job-Ensures :
    (job : Job) (key : String) (db : Db)
    → Ensures (insert_job job key) db (λ u t. Inserted job key db t)
unfolding insert_job
insert_job-Ensures job key db = Ensures-gets-bind _ _ _ (
    Ensures-lift-bind _ _ _ λ u e. record {
      at = λ v t h.
          let free =
            any-or-false (has_id job.id) (has_key job.owner key) db.jobs
              (not-true _ (guard-ok _ integrity_error u e)) in
          record {
            tables = (Ensures-modify (with_job job key) db).at v t h;
            new_id = free.0;
            new_key = free.1;
          };
    })

module _ (job : Job) (key : String) (v : IsValid job) (db : Db) (w : WellFormed db) where
  return_or_insert-Keeps :
      (o : Option JobRow) → Ensures (return_or_insert job key o) db (λ j t. WellFormed t)
  unfolding return_or_insert
  return_or_insert-Keeps (some row) =
      Ensures-lift-bind _ _ _ λ ex e. Ensures-lift-bind _ _ _ λ u f. Ensures-pure _ _ w
  return_or_insert-Keeps none = Ensures-bind _ _ _ λ u d h. Ensures-bind _ _ _ λ i t k.
      let put = (insert_job-Ensures job key db).at u d h in
      let noted = (insert_event-Ensures job.id "job_created" _ job.created_at d).at i t k in
      Ensures-pure _ _ (
        subst WellFormed (sym noted.tables) (
          with_event-WellFormed job.id _ _ job.created_at d noted.known (
            subst WellFormed (sym put.tables) (
              insert-WellFormed (record { job = job; idempotency_key = key }) db put.new_id
                put.new_key v w))))

module _ (now : ℕ) (id owner target_month : String) (service_ids : List String)
    (key : Option String) where
  pub create_job-Atomic : Atomic (create_job now id owner target_month service_ids key)
  unfolding create_job
  create_job-Atomic =
      Atomic-bind _ _ (ReadsOnly-lift _)
        (λ j. Atomic-bind _ _ (ReadsOnly-lift _) (λ u. Atomic-transaction _))

  pub create_job-Keeps :
      (db : Db)
      → WellFormed db
      → Ensures (create_job now id owner target_month service_ids key) db (λ j t. WellFormed t)
  unfolding create_job new_job
  create_job-Keeps db w = Ensures-lift-bind _ _ _ λ job e. Ensures-lift-bind _ _ _ λ u f.
      Ensures-transaction _ _
        (Ensures-gets-bind _ _ _ (return_or_insert-Keeps job _ (validate-IsValid _ job e) db w _))

find?-append_new :
    (p : JobRow → Bool) (rows : List JobRow) (r : JobRow)
    → find? p rows ≡ none
    → p r ≡ true
    → find? p (rows ++ r ∷ []) ≡ some r
find?-append_new p [] r h t = rw t
find?-append_new p (x ∷ xs) r h t = ground (arith, find?-append_new p xs r)

list_beq_self : (ss : List String) → list_beq ss ss ≡ true
list_beq_self [] = refl
list_beq_self (s ∷ ss) = rw (eq_self s) (list_beq_self ss)

-- The job that a later request with the same words would construct.
abbrev again : ℕ → String → Job → Job
again now id job = record job { id = id; created_at = now; updated_at = now }

new_job-again :
    (now later : ℕ) (id id' owner target_month : String) (service_ids : List String) (job : Job)
    → new_job now id owner target_month service_ids ≡ ok job
    → new_job later id' owner target_month service_ids ≡ ok (again later id' job)
unfolding new_job check_job check_services
new_job-again now later id id' owner target_month service_ids job h = ground arith

some-ReadsOnly :
    (job : Job) (key : String) (row : JobRow) → ReadsOnly (return_or_insert job key (some row))
unfolding return_or_insert
some-ReadsOnly job key row = search atomic_rules

record Made (job : Job) (key : String) (db : Db) (j : Job) (t : Db) : Type 0 where
  same : j ≡ job
  jobs : t.jobs ≡ db.jobs ++ record { job = job; idempotency_key = key } ∷ []

none-Ensures :
    (job : Job) (key : String) (db : Db)
    → Ensures (return_or_insert job key none) db (Made job key db)
unfolding return_or_insert
none-Ensures job key db = Ensures-bind _ _ _ λ u d h. Ensures-bind _ _ _ λ i t k.
    let put = (insert_job-Ensures job key db).at u d h in
    let noted = (insert_event-Ensures job.id "job_created" _ job.created_at d).at i t k in
    Ensures-pure _ _ (record {
      same = refl;
      jobs = ap (λ (x : Db). x.jobs) noted.tables ∙ ap (λ (x : Db). x.jobs) put.tables;
    })

-- What a found row of the same words gives.
found_again :
    (later : ℕ) (id' : String) (job : Job) (key : String) (t : Db)
    → IsValid job
    → return_or_insert
        (again later id' job)
        key
        (some (record { job = job; idempotency_key = key }))
        t
      ≡ (ok job, t)
unfolding return_or_insert job_from_row ◌>>=◌
found_again later id' job key t v = rw (v, eq_self job.target_month, list_beq_self job.service_ids)

-- A request that has found or made its job finds it again.
return_again :
    (later : ℕ) (id' : String) (job : Job) (key : String) (db t : Db) (j : Job)
    → IsValid job
    → (o : Option JobRow) → find? (has_key job.owner key) db.jobs ≡ o
    → return_or_insert job key o db ≡ (ok j, t)
    → return_or_insert (again later id' job) key (find? (has_key job.owner key) t.jobs) t
      ≡ (ok j, t)
return_again later id' job key db t j v (some row) e h =
    let q : t ≡ db =
      sym (ap (λ (p : Result JobError Job × Db). p.1) h) ∙ (some-ReadsOnly job key row).at db in
    subst
      (λ (d : Db).
        return_or_insert (again later id' job) key (find? (has_key job.owner key) d.jobs) d
        ≡ (ok j, t))
      (sym q) (rw e (unfold return_or_insert in h))
return_again later id' job key db t j v none e h =
    let m = (none-Ensures job key db).at j t h in
    let found =
      ap (find? (has_key job.owner key)) m.jobs
      ∙ find?-append_new (has_key job.owner key) db.jobs
          (record { job = job; idempotency_key = key }) e (rw (eq_self job.owner, eq_self key)) in
    rw (m.same, found) (found_again later id' job key t v)

key_again :
    (later : ℕ) (id' : String) (job : Job) (key : Option String)
    → key_or_default key (again later id' job) ≡ key_or_default key job
key_again later id' job none = refl
key_again later id' job (some key) = refl

repeated :
    (later : ℕ) (id id' owner target_month : String) (service_ids : List String)
    (key : Option String) (now : ℕ) (job : Job) (t : Db) (j : Job)
    → new_job now id owner target_month service_ids ≡ ok job
    → not (is_empty (strip (key_or_default key job))) ≡ true
    → return_or_insert
        (again later id' job)
        (strip (key_or_default key job))
        (find? (has_key job.owner (strip (key_or_default key job))) t.jobs)
        t
      ≡ (ok j, t)
    → create_job later id' owner target_month service_ids key t ≡ (ok j, t)
unfolding create_job ◌>>=◌
repeated later id id' owner target_month service_ids key now job t j e f h =
    rw (new_job-again now later id id' owner target_month service_ids job e, key_again, f, h)

-- A request that has returned a job, repeated at once with the same owner, month, services and key, whatever the time and the
-- identifier that is drawn, returns the same job and changes nothing.
pub create_job_twice :
    (now later : ℕ) (id id' owner target_month : String) (service_ids : List String)
    (key : Option String) (db t : Db) (j : Job)
    → create_job now id owner target_month service_ids key db ≡ (ok j, t)
    → create_job later id' owner target_month service_ids key t ≡ (ok j, t)
unfolding create_job new_job
create_job_twice now later id id' owner target_month service_ids key db t j h = found.at j t h
  where
    found :
        Ensures
          (create_job now id owner target_month service_ids key)
          db
          (λ j t. create_job later id' owner target_month service_ids key t ≡ (ok j, t))
    found = Ensures-lift-bind _ _ _ λ job e. Ensures-lift-bind _ _ _ λ u f.
        Ensures-transaction _ _ (
          Ensures-gets-bind _ _ _ (record {
            at = λ j t k.
                repeated later id id' owner target_month service_ids key now job t j e
                  (guard-ok _ value_error u f)
                  (return_again later id' job (strip (key_or_default key job)) db t j
                    (validate-IsValid _ job e) _ refl k);
          }))
