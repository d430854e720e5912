-- ===== src/Worker/Successes.antt =====
-- A job of cloud/src/workers/runner.py succeeds only with every service completed.
pub mod Kept
use get_receipt.Base.{
  ℕ, zero, suc, String, ◌≡◌, refl, sym, ap, ◌∙◌, subst, Bool, true, false, not, ◌&&◌, ◌||◌, Option,
  none, some, List, [], ◌∷◌, ◌==◌, string_eq, contains, find?, if◌then◌else◌, Result, ok, err, inl,
  inr, arith, eq_iff, Bool-cases,
}
use get_receipt.Base.Exec.Atomic.{Atomic-invariant}
use get_receipt.Base.Exec.Keeps.{
  KeepsFrom, KeepsFrom-bind, KeepsFrom-lift-bind, KeepsFrom-pure, KeepsFrom-Keeps,
}
use get_receipt.Jobs.Payload.{Fields}
use get_receipt.Jobs.Model.{Job, JobState, state_eq, state_beq, succeeded}
use get_receipt.Jobs.Store.Rows.{Db}
use get_receipt.Jobs.Store.Update.{Patch, apply_patch, compare_and_set, or_keep}
use get_receipt.Jobs.Store.Update.Safe.{compare_and_set-Atomic, compare_and_set-Keeps}
use get_receipt.Jobs.Store.Update.Rows.{compare_and_set-Swapped}
use get_receipt.Worker.State.{Office, Settings, Worker, Common, on_store, let_others}
use get_receipt.Worker.Swaps.{swap, first_open, is_empty_list, note_failed}
use get_receipt.Worker.Process.{record_completed, finish_batch, completed_state, finished_state}
use get_receipt.Worker.Failures.{with_item, service_failure_result}
use get_receipt.Worker.Keeps.{On, Allowed, Mild, is_success, clock-Keeps}
use get_receipt.Worker.Remaining.{RowsAre, Advancing, RowsAre-Allowed, rows_allowed}
use get_receipt.Worker.Ends.{Since, Since-Upward, Since-same}
use get_receipt.Worker.Ends.Reads.{Reading, Keeps-after}

-- When the job has succeeded, all its services are completed.
abbrev pub Complete : Job → Type 0
Complete job =
    job.state ≡ succeeded
    → (x : String) → contains job.service_ids x ≡ true
    → contains job.completed x ≡ true

no_success :
    (state : Option JobState) (old : JobState)
    → is_success state ≡ false
    → or_keep state old ≡ succeeded
    → old ≡ succeeded
no_success none old h e = e
no_success (some new) old h e =
    absurd (ground (arith, h, ap (λ (q : JobState). state_beq q succeeded) e))

Mild-Complete :
    (patch : Patch) (now : ℕ) (a : Job)
    → Mild patch
    → Complete a
    → Complete (apply_patch patch now a)
unfolding apply_patch
Mild-Complete patch now a mild q e x h =
    rw (mild.completed) (q (no_success patch.state a.state mild.unfinished e) x h)

find?-none :
    (p : String → Bool) (xs : List String) (x : String)
    → find? p xs ≡ none
    → contains xs x ≡ true
    → p x ≡ false
find?-none p [] x e h = ground (arith, h)
find?-none p (y ∷ ys) x e h = elim (Bool-cases (y == x)) [
  | inl f ↦ subst (λ z. p z ≡ false) ((eq_iff y x).0 f) (ground (arith, e))
  | inr f ↦ find?-none p ys x (ground (arith, e)) (rw f at h)
]

-- No service is open and none has failed.
all_completed :
    (service_ids completed failed : List String)
    → first_open service_ids completed failed ≡ none
    → is_empty_list failed ≡ true
    → (x : String) → contains service_ids x ≡ true
    → contains completed x ≡ true
unfolding first_open
all_completed service_ids completed [] e empty x h =
    let closed = find?-none _ service_ids x e h in ground (arith, closed)
all_completed service_ids completed (y ∷ ys) e empty x h = ground (arith, empty)

module _ {O : Type 0} (office : Office O) (settings : Settings) (job_id : String)
    (advancing : Advancing office job_id)
    (kept : (o : O) (c : Common)
      → RowsAre job_id Complete c.db
      → RowsAre job_id Complete ((office.others o).0 c).db) where
  -- The tables are well formed, and the job is complete when it has succeeded.
  abbrev pub Sound : Worker O → Type 0
  Sound s = On (RowsAre job_id Complete) s

  pub allowed_rows : Allowed office settings.owner_id (RowsAre job_id Complete)
  allowed_rows =
      rows_allowed office settings.owner_id job_id Complete
        (λ patch now a mild q. Mild-Complete patch now a mild q) kept

  compare_and_set-Sound :
      (now : ℕ) (current : Job) (patch : Patch) (event_type : String) (payload : Fields) (db : Db)
      → current.id ≡ job_id
      → Complete (apply_patch patch now current)
      → RowsAre job_id (Since current) db
      → RowsAre job_id Complete db
      → RowsAre job_id Complete
          (compare_and_set now current.id settings.owner_id current.version patch event_type payload
            db).1
  compare_and_set-Sound now current patch event_type payload db named q since p =
      Atomic-invariant (RowsAre job_id Complete) _ db
        (compare_and_set-Atomic now current.version current.id settings.owner_id patch event_type
          payload)
        (record {
          at = λ u t h.
              let c =
                compare_and_set-Swapped now current.version current.id settings.owner_id patch
                  event_type payload db t u p.0 h in
              let old_same =
                Since-same current c.old.job (since.1 c.old c.stored (c.named ∙ named)) c.version in
              (
                (compare_and_set-Keeps now current.version current.id settings.owner_id patch
                      event_type payload db p.0).at
                    u t h,
                λ row member f. elim (c.rows row member) [
                  | inl (other, n) ↦ absurd (n (f ∙ sym named))
                  | inr same ↦ subst Complete (sym (same ∙ ap (apply_patch patch now) old_same)) q
                ],
              );
        })
        p

  -- A transition of the job that was read keeps the tables sound when the patched job is complete.
  pub swap-Sound :
      (current : Job) (patch : Patch) (event_type : String) (payload : Fields) (s : Worker O)
      → Reading job_id Complete current s.common.db
      → ((now : ℕ) → Complete (apply_patch patch now current))
      → KeepsFrom Sound s (swap office settings current patch event_type payload)
  unfolding swap on_store let_others
  swap-Sound current patch event_type payload s r q =
      let since =
        RowsAre-Allowed office settings.owner_id job_id (Since current) (Since-Upward current)
          advancing in
      KeepsFrom-bind _ _ s
        (KeepsFrom-Keeps _ s (clock-Keeps office settings (RowsAre job_id Complete) allowed_rows)
          r.rows)
        λ now t e p. record {
          kept =
              compare_and_set-Sound now current patch event_type payload
                ((office.others t.outer).0 t.common).db r.named (q now)
                (since.others t.outer t.common (
                  Keeps-after s t (ok now)
                    (clock-Keeps office settings (RowsAre job_id (Since current)) since) r.since e))
                (kept t.outer t.common p);
        }

  pub note_failed-Sound :
      (current : Job) (x code : String) (s : Worker O)
      → Reading job_id Complete current s.common.db
      → KeepsFrom Sound s (note_failed office settings current x code)
  unfolding note_failed apply_patch
  note_failed-Sound current x code s r = KeepsFrom-lift-bind _ _ s r.rows λ found e.
      KeepsFrom-bind _ _ s (swap-Sound current _ _ _ s r (λ now h. cc h))
        λ u t k p. KeepsFrom-pure _ t p

  pub finish_batch-Sound :
      (job : Job) (failed : List String) (failures : Fields) (s : Worker O)
      → Reading job_id Complete job s.common.db
      → first_open job.service_ids job.completed failed ≡ none
      → KeepsFrom Sound s (finish_batch office settings job failed failures)
  unfolding finish_batch apply_patch
  finish_batch-Sound job failed failures s r e =
      KeepsFrom-bind _ _ s
        (swap-Sound job _ _ _ s r (λ now h.
          all_completed job.service_ids job.completed failed e
            (none_failed (is_empty_list failed) h)))
        λ u t k p. KeepsFrom-pure _ t p
    where
      none_failed : (b : Bool) → finished_state office settings (not b) ≡ succeeded → b ≡ true
      none_failed true h = refl
      none_failed false h = cc h

  pub record_completed-Sound :
      (current : Job) (x : String) (s : Worker O)
      → Reading job_id Complete current s.common.db
      → KeepsFrom Sound s (record_completed office settings current x)
  unfolding record_completed apply_patch
  record_completed-Sound current x s r = KeepsFrom-lift-bind _ _ s r.rows λ found e.
      KeepsFrom-bind _ _ s
        (swap-Sound current _ _ _ s r (λ now h.
          let (closed, empty) =
            both (first_open current.service_ids (with_item current.completed x) found.0)
              (is_empty_list found.0) h in
          all_completed current.service_ids (with_item current.completed x) found.0 closed empty))
        λ u t k p. KeepsFrom-pure _ t p
    where
      both :
          (o : Option String) (b : Bool)
          → completed_state office settings o (not b) ≡ succeeded
          → (o ≡ none) × (b ≡ true)
      both none true h = (refl, refl)
      both none false h = cc h
      both (some y) b h = cc h
