-- ===== src/Worker/Ends/Enough.antt =====
-- One pass more than the services of the job is enough for `_process_job` of
-- cloud/src/workers/runner.py.
use get_receipt.Base.{
  string_eq, ℕ, zero, suc, ◌<◌, String, ◌≡◌, ◌≢◌, refl, ap, subst, Bool, true, false, List,
  contains, length, ok, err, arith,
}
use get_receipt.Base.Exec.{pure}
use get_receipt.Base.Exec.Ensures.{Ensures, Ensures-pure, Ensures-bind, Ensures-cond}
use get_receipt.Jobs.Store.Rows.{JobRow}
use get_receipt.Jobs.Store.Tables.{In}
use get_receipt.Jobs.Store.Invariant.{WellFormed}
use get_receipt.Jobs.Store.Update.Rows.{In-unique}
use get_receipt.Worker.Ends.Ticking.{Ticking}
use get_receipt.Worker.Ends.Services.{process_job-Settled}
use get_receipt.Worker.State.{out_of_rounds, Office, Settings, Worker, Work}
use get_receipt.Worker.Process.{Next, go_on, done, process_job}
use get_receipt.Worker.Keeps.{On, is_stopped-Keeps}
use get_receipt.Worker.Remaining.{RowsAre, Advancing, RowsAre-Allowed}
use get_receipt.Worker.Ends.{Fits, Fits-Upward}
use get_receipt.Worker.Ends.Reads.{Keeps-after}
use get_receipt.Worker.Ends.Loop.{process_pass-Ensures, Shorter}

module _ {O : Type 0} (office : Office O) (settings : Settings) (job_id : String)
    (advancing : Advancing office job_id) (services : List String) (rounds : ℕ) where
  abbrev Among : List String → Worker O → Type 0
  Among open_ids s = On (RowsAre job_id (Fits services open_ids)) s

  abbrev Ended : Bool → Worker O → Type 0
  Ended b t = b ≡ true

  -- Behind a pass: the end, or the passes that are left.
  after_next :
      (open_ids : List String) (next : Next) (t : Worker O) (again : Work O Bool)
      → Shorter office settings job_id advancing services open_ids next t
      → ((rest : List String)
          → length rest < length open_ids
          → Among rest t
          → Ensures again t Ended)
      → Ensures (elim next [ done ↦ pure true | go_on ↦ again ]) t Ended
  after_next open_ids done t again shorter k = Ensures-pure true t refl
  after_next open_ids go_on t again shorter k = let (rest, less, p) = shorter refl in k rest less p

  process_job-Ensures :
      (passes : ℕ) (open_ids : List String) (s : Worker O)
      → length open_ids < passes
      → Among open_ids s
      → Ensures (process_job office settings rounds passes job_id) s Ended
  unfolding process_job
  process_job-Ensures zero open_ids s lt p = absurd (omega (arith, lt))
  process_job-Ensures (suc passes) open_ids s lt p = Ensures-bind _ _ _ λ stopped t h.
      let allowed =
        RowsAre-Allowed office settings.owner_id job_id (Fits services open_ids)
          (Fits-Upward services open_ids) advancing in
      let q =
        Keeps-after s t (ok stopped)
          (is_stopped-Keeps office settings (RowsAre job_id (Fits services open_ids)) allowed) p
          h in
      Ensures-cond stopped t (Ensures-pure true t refl) (
        Ensures-bind _ _ _ λ next u k.
          after_next open_ids next u (process_job office settings rounds passes job_id)
            ((process_pass-Ensures office settings job_id advancing services open_ids rounds t q).at
              next u k)
            (λ rest less p. process_job-Ensures passes rest u (omega (arith, lt, less)) p))

module _ {O : Type 0} (office : Office O) (settings : Settings) where
  -- When the clocks run on, by at least a microsecond at each access to what the threads share, and the
  -- other threads register no challenge and put off no expiry, keep the tables well formed, and change
  -- the job only to later versions of it, which have the same services and open no closed one again,
  -- then more rounds of a wait than a challenge has microseconds to live and one pass more than the job
  -- has services are enough: the loop over a stored job ends, which is to say that it returns or raises
  -- one of the code's exceptions.
  pub process_job_enough :
      (rounds passes : ℕ) (row : JobRow) (s : Worker O)
      → Ticking office
      → Advancing office row.job.id
      → WellFormed s.common.db
      → In row s.common.db.jobs
      → settings.challenge_ttl < rounds
      → length row.job.service_ids < passes
      → ((process_job office settings rounds passes row.job.id s).0 ≢ ok false)
        × ((process_job office settings rounds passes row.job.id s).0 ≢ err out_of_rounds)
  process_job_enough rounds passes row s ticking advancing w member enough lt = (
    λ e.
        let services = row.job.service_ids in
        let start = λ (r : JobRow) (m : In r s.common.db.jobs) (f : r.job.id ≡ row.job.id).
          fits r (In-unique s.common.db.jobs r row w.ids m member f) in
        let ended =
          (process_job-Ensures office settings row.job.id advancing services rounds passes services
              s lt (w, start)).at
            false (process_job office settings rounds passes row.job.id s).1 (rw (← e) refl) in
        cc ended,
    (process_job-Settled office settings ticking rounds enough passes row.job.id s).at,
  )
    where
      fits : (r : JobRow) → r ≡ row → Fits row.job.service_ids row.job.service_ids r.job
      fits r same = record {
        same = ap (λ (q : JobRow). q.job.service_ids) same;
        within = λ x h.
            subst (λ (q : JobRow). contains q.job.service_ids x ≡ true) same (ground (arith, h));
      }
