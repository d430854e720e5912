-- ===== src/Worker/Remaining.antt =====
-- The services of a job that a worker still has to try, in cloud/src/workers/runner.py, and the
-- predicates on stored jobs that no thread makes false.
use get_receipt.Base.{
  ℕ, ◌<◌, String, ◌≡◌, refl, sym, ap, ◌∙◌, subst, Bool, true, not, ◌&&◌, Option, List, [],
  string_eq, contains, Result, ok, err, ◌⊎◌, inl, inr, arith,
}
use get_receipt.Base.Exec.Atomic.{Atomic-invariant}
use get_receipt.Jobs.Payload.{JobError, Fields}
use get_receipt.Jobs.Model.{Job}
use get_receipt.Jobs.Challenge.{Challenge}
use get_receipt.Jobs.Store.Rows.{Db, JobRow}
use get_receipt.Jobs.Store.Tables.{In}
use get_receipt.Jobs.Store.Invariant.{WellFormed}
use get_receipt.Jobs.Store.Update.{Patch, apply_patch, compare_and_set}
use get_receipt.Jobs.Store.Update.Safe.{compare_and_set-Atomic, compare_and_set-Keeps}
use get_receipt.Jobs.Store.Update.Rows.{compare_and_set-Swapped}
use get_receipt.Jobs.Store.Challenges.{add_challenge}
use get_receipt.Jobs.Store.Challenges.Apart.{add_challenge-SameJobs}
use get_receipt.Jobs.Store.Reachable.{Step-WellFormed, posed}
use get_receipt.Worker.State.{Office, Common}
use get_receipt.Worker.Failures.{service_failure_result}
use get_receipt.Worker.Keeps.{Allowed, Mild}

abbrev pub ids_of : Result JobError (List String × Fields) → List String
ids_of (ok (ids, failures)) = ids
ids_of (err e) = []

-- The services that a result names as failed.
abbrev pub failed_ids : Option Fields → List String
failed_ids result = ids_of (service_failure_result result)

-- A service of the job that is neither completed nor failed.
abbrev pub is_open : Job → String → Bool
is_open job x =
    contains job.service_ids x
    && (not (contains job.completed x) && not (contains (failed_ids job.result) x))

-- A later version of a job: the same services, and no closed one open again.
pub record Follows (a b : Job) : Type 0 where
  pub later : a.version < b.version
  pub services : b.service_ids ≡ a.service_ids
  pub shrinks : (x : String) → is_open b x ≡ true → is_open a x ≡ true

pub record Upward (Q : Job → Type 0) : Type 0 where
  pub at : (a b : Job) → Follows a b → Q a → Q b

-- The tables are well formed, and every row of the job satisfies `Q`.
abbrev pub RowsAre : String → (Job → Type 0) → Db → Type 0
RowsAre job_id Q db =
    WellFormed db × ((row : JobRow) → In row db.jobs → row.job.id ≡ job_id → Q row.job)

-- The other threads keep the tables well formed, and change the job only to a later version.
pub record Advancing {O : Type 0} (office : Office O) (job_id : String) : Type 0 where
  pub kept : (o : O) (c : Common) → WellFormed c.db → WellFormed ((office.others o).0 c).db
  pub advanced :
      (o : O) (c : Common)
      → WellFormed c.db
      → (row : JobRow) → In row ((office.others o).0 c).db.jobs
      → row.job.id ≡ job_id
      → (old : JobRow) × In old c.db.jobs
        × (old.job.id ≡ job_id)
        × ((row.job ≡ old.job) ⊎ Follows old.job row.job)

pub Mild-Follows :
    (patch : Patch) (now : ℕ) (a : Job) → Mild patch → Follows a (apply_patch patch now a)
unfolding apply_patch
Mild-Follows patch now a mild = record {
  later = omega arith;
  services = refl;
  shrinks = λ x h. rw (mild.completed, mild.result) at h;
}

pub apply_patch_id : (patch : Patch) (now : ℕ) (a : Job) → (apply_patch patch now a).id ≡ a.id
unfolding apply_patch
apply_patch_id patch now a = refl

module _ {O : Type 0} (office : Office O) (owner job_id : String) (Q : Job → Type 0)
    (mended : (patch : Patch) (now : ℕ) (a : Job)
      → Mild patch
      → Q a
      → Q (apply_patch patch now a)) where
  compare_and_set-RowsAre :
      (now : ℕ) (id : String) (version : ℕ) (patch : Patch) (event_type : String) (payload : Fields)
      (db : Db)
      → Mild patch
      → RowsAre job_id Q db
      → RowsAre job_id Q (compare_and_set now id owner version patch event_type payload db).1
  compare_and_set-RowsAre now id version patch event_type payload db mild p =
      Atomic-invariant (RowsAre job_id Q) _ db
        (compare_and_set-Atomic now version id owner patch event_type payload)
        (record {
          at = λ u t h.
              let s =
                compare_and_set-Swapped now version id owner patch event_type payload db t u p.0
                  h in
              (
                (compare_and_set-Keeps now version id owner patch event_type payload db p.0).at u t
                    h,
                λ row member e. elim (s.rows row member) [
                  | inl (other, n) ↦ p.1 row other e
                  | inr same ↦ subst Q (sym same) (
                      mended patch now s.old.job mild (
                        p.1 s.old s.stored (
                          sym (apply_patch_id patch now s.old.job)
                          ∙ ap (λ (j : Job). j.id) (sym same)
                          ∙ e)))
                ],
              );
        })
        p

  add_challenge-RowsAre :
      (challenge : Challenge) (db : Db)
      → RowsAre job_id Q db
      → RowsAre job_id Q (add_challenge challenge owner db).1
  add_challenge-RowsAre challenge db p = (
    Step-WellFormed (posed challenge owner) p.0,
    λ row member e.
        p.1 row
          (subst (In row) ((add_challenge-SameJobs db.jobs challenge owner).at db refl) member) e,
  )

  -- No transition and no challenge makes the predicate false while the worker acquires a service.
  pub rows_allowed :
      ((o : O) (c : Common) → RowsAre job_id Q c.db → RowsAre job_id Q ((office.others o).0 c).db)
      → Allowed office owner (RowsAre job_id Q)
  rows_allowed kept = record {
    others = kept;
    swapped = compare_and_set-RowsAre;
    posed = add_challenge-RowsAre;
  }

module _ {O : Type 0} (office : Office O) (owner job_id : String) (Q : Job → Type 0)
    (upward : Upward Q) (advancing : Advancing office job_id) where
  others-RowsAre :
      (o : O) (c : Common) → RowsAre job_id Q c.db → RowsAre job_id Q ((office.others o).0 c).db
  others-RowsAre o c p = (
    advancing.kept o c p.0,
    λ row member e.
        let (old, stored, named, how) = advancing.advanced o c p.0 row member e in
        elim how [
          | inl same ↦ subst Q (sym same) (p.1 old stored named)
          | inr later ↦ upward.at old.job row.job later (p.1 old stored named)
        ],
  )

  pub RowsAre-Allowed : Allowed office owner (RowsAre job_id Q)
  RowsAre-Allowed =
      rows_allowed office owner job_id Q
        (λ patch now a mild q. upward.at a _ (Mild-Follows patch now a mild) q) others-RowsAre
