-- ===== src/Worker/Ends/Reads.antt =====
-- What a worker knows of its job after a read, and after a transition that was accepted.
use get_receipt.Base.{
  ℕ, String, ◌≡◌, sym, ap, ◌∙◌, subst, true, string_eq, all, Result, ok, err, inl, inr, arith,
  eq_iff,
}
use get_receipt.Base.Text.{strip}
use get_receipt.Base.Exec.{Exec}
use get_receipt.Base.Exec.Ensures.{Ensures, Ensures-bind}
use get_receipt.Base.Exec.Keeps.{Keeps}
use get_receipt.Jobs.Payload.{Fields, JobError}
use get_receipt.Jobs.Model.{Job, is_service_id}
use get_receipt.Jobs.Model.Valid.{IsValid-read, IsValid-service_ids}
use get_receipt.Jobs.Store.Rows.{Db, Store, JobRow, is_job_of}
use get_receipt.Jobs.Store.Tables.{find?-In}
use get_receipt.Jobs.Store.Invariant.{find?-IsValid}
use get_receipt.Jobs.Store.Create.{get_job}
use get_receipt.Jobs.Store.Update.{Patch, apply_patch, compare_and_set}
use get_receipt.Jobs.Store.Update.Swap.{get_job-Ensures}
use get_receipt.Jobs.Store.Update.Safe.{compare_and_set-Keeps}
use get_receipt.Jobs.Store.Update.Rows.{In-unique, compare_and_set-Swapped}
use get_receipt.Worker.State.{Office, Settings, Worker, Trouble, let_others, on_store, from_store}
use get_receipt.Worker.Swaps.{read_job, swap}
use get_receipt.Worker.Keeps.{On, Allowed, get_job-ReadsOnly, clock-Keeps}
use get_receipt.Worker.Remaining.{apply_patch_id, RowsAre, Upward, Advancing, RowsAre-Allowed}
use get_receipt.Worker.Ends.{Since, Since-Upward, Since-same}

-- A method that keeps `P` has kept it when it has come to an end.
pub Keeps-after :
    {S E A : Type 0} {P : S → Type 0} {m : Exec S E A} (s t : S) (r : Result E A)
    → Keeps P m
    → P s
    → m s ≡ (r, t)
    → P t
Keeps-after {S} {E} {A} {P} s t r k p e = subst (λ (o : Result E A × S). P o.1) e (k.at s p)

-- A job that was read, and what holds of the tables then.
pub record Reading (job_id : String) (Q : Job → Type 0) (job : Job) (db : Db) : Type 0 where
  pub named : job.id ≡ job_id
  pub held : Q job
  pub services : all is_service_id job.service_ids ≡ true
  pub rows : RowsAre job_id Q db
  pub since : RowsAre job_id (Since job) db

pub get_job-Reading :
    (job_id owner : String) (Q : Job → Type 0) (db t : Db) (job : Job)
    → RowsAre job_id Q db
    → get_job job_id owner db ≡ (ok job, t)
    → Reading job_id Q job t
unfolding get_receipt.Jobs.Store.Rows.job_from_row
get_job-Reading job_id owner Q db t job p h =
    let unchanged : db ≡ t =
      sym ((get_job-ReadsOnly job_id owner).at db) ∙ ap (λ (o : Result JobError Job × Db). o.1) h in
    let read = (get_job-Ensures job_id owner db).at job t h in
    let v = find?-IsValid _ db read.row p.0 read.found in
    let same = IsValid-read read.row.job job v read.read in
    let (stored, matches) = find?-In _ db.jobs read.row read.found in
    let at_id = of_id read.row matches in
    subst (Reading job_id Q job) unchanged (record {
      named = ap (λ (j : Job). j.id) same ∙ at_id;
      held = subst Q (sym same) (p.1 read.row stored at_id);
      services =
          subst (λ (j : Job). all is_service_id j.service_ids ≡ true) (sym same)
            (IsValid-service_ids read.row.job v);
      rows = p;
      since = (
        p.0,
        λ row member e. inl (
            ap (λ (r : JobRow). r.job)
              (In-unique db.jobs row read.row p.0.ids member stored (e ∙ sym at_id))
            ∙ sym same),
      );
    })
  where
    of_id : (row : JobRow) → is_job_of job_id (strip owner) row ≡ true → row.job.id ≡ job_id
    of_id row k = ground (arith, k, eq_iff row.job.id job_id)

module _ {O : Type 0} (office : Office O) where
  -- A call of the store that has returned ran on the tables that the others left.
  pub on_store-ok :
      {A : Type 0} (m : Store A) (s t : Worker O) (a : A)
      → on_store office m s ≡ (ok a, t)
      → m (let_others office s).common.db ≡ (ok a, t.common.db)
  unfolding on_store
  on_store-ok {A} m s t a h = step (m (let_others office s).common.db) h
    where
      step :
          (o : Result JobError A × Db)
          → ◌≡◌ {A = Result Trouble A × Worker O}
              (
                from_store o.0,
                record (let_others office s) {
                  common = record (let_others office s).common { db = o.1 };
                },
              )
              (ok a, t)
          → o ≡ (ok a, t.common.db)
      step (ok b, d) k = ground (arith, k)
      step (err e, d) k = ground (arith, k)

module _ {O : Type 0} (office : Office O) (settings : Settings) (job_id : String)
    (advancing : Advancing office job_id) where
  allowed : (Q : Job → Type 0) → Upward Q → Allowed office settings.owner_id (RowsAre job_id Q)
  allowed Q upward = RowsAre-Allowed office settings.owner_id job_id Q upward advancing

  pub read_job-Ensures :
      (Q : Job → Type 0) (s : Worker O)
      → Upward Q
      → On (RowsAre job_id Q) s
      → Ensures (read_job office settings job_id) s (λ job t. Reading job_id Q job t.common.db)
  unfolding read_job let_others
  read_job-Ensures Q s upward p = record {
    at = λ job t h.
        get_job-Reading job_id settings.owner_id Q ((office.others s.outer).0 s.common).db
          t.common.db job ((allowed Q upward).others s.outer s.common p)
          (on_store-ok office (get_job job_id settings.owner_id) s t job h);
  }

  -- After an accepted transition of the job that was read, the row is its patched version.
  pub swap-Ensures :
      (current : Job) (patch : Patch) (event_type : String) (payload : Fields) (Q : Job → Type 0)
      (s : Worker O)
      → current.id ≡ job_id
      → ((now : ℕ) → Q (apply_patch patch now current))
      → On (RowsAre job_id (Since current)) s
      → Ensures
          (swap office settings current patch event_type payload)
          s
          (λ u t. (u.id ≡ job_id) × On (RowsAre job_id Q) t)
  unfolding swap let_others
  swap-Ensures current patch event_type payload Q s named q p = Ensures-bind _ _ _ λ now s0 e.
      record {
        at = λ u t h.
            let since = allowed (Since current) (Since-Upward current) in
            let p0 =
              Keeps-after s s0 (ok now)
                (clock-Keeps office settings (RowsAre job_id (Since current)) since) p e in
            let p1 = since.others s0.outer s0.common p0 in
            let h1 =
              on_store-ok office
                (compare_and_set now current.id settings.owner_id current.version patch event_type
                  payload)
                s0 t u h in
            let c =
              compare_and_set-Swapped now current.version current.id settings.owner_id patch
                event_type payload ((office.others s0.outer).0 s0.common).db t.common.db u p1.0
                h1 in
            let old_same =
              Since-same current c.old.job (p1.1 c.old c.stored (c.named ∙ named)) c.version in
            (
              ap (λ (j : Job). j.id) c.returned
                  ∙ apply_patch_id patch now c.old.job
                  ∙ c.named
                  ∙ named,
              (
                (compare_and_set-Keeps now current.version current.id settings.owner_id patch
                      event_type payload ((office.others s0.outer).0 s0.common).db p1.0).at
                    u t.common.db h1,
                λ row member f. elim (c.rows row member) [
                  | inl (other, n) ↦ absurd (n (f ∙ sym named))
                  | inr same ↦ subst Q (sym (same ∙ ap (apply_patch patch now) old_same)) (q now)
                ],
              ),
            );
      }
