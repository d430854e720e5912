-- ===== src/Jobs/Store/Challenges/Apart.antt =====
-- `add_challenge` of cloud/src/jobs/store.py leaves the jobs alone.
use get_receipt.Base.{ℕ, String, Option, none, some, List, ◌≡◌}
use get_receipt.Base.Exec.Keeps.{
  Keeps, Keeps-lift, Keeps-gets, Keeps-pure, Keeps-bind, Keeps-modify, Keeps-transaction,
}
use get_receipt.Jobs.Payload.{Fields}
use get_receipt.Jobs.Challenge.{Challenge}
use get_receipt.Jobs.Store.Rows.{Db, JobRow, insert_event}
use get_receipt.Jobs.Store.Challenges.{add_challenge, insert_challenge}

module _ (rows : List JobRow) where
  -- The table of jobs.
  abbrev SameJobs : Db → Type 0
  SameJobs db = db.jobs ≡ rows

  insert_event-SameJobs :
      (job_id event_type : String) (payload : Fields) (created_at : ℕ)
      → Keeps SameJobs (insert_event job_id event_type payload created_at)
  unfolding insert_event
  insert_event-SameJobs job_id event_type payload created_at = Keeps-bind _ _ (Keeps-lift _) λ a.
      Keeps-bind _ _ (Keeps-lift _) λ b. Keeps-bind _ _ (Keeps-gets _) λ c.
        Keeps-bind _ _ (Keeps-lift _)
          λ d. Keeps-bind _ _ (Keeps-modify _ (λ s p. p)) λ e. Keeps-gets _

  insert_challenge-SameJobs :
      (challenge : Challenge) (stored : Option Challenge)
      → Keeps SameJobs (insert_challenge challenge stored)
  unfolding insert_challenge
  insert_challenge-SameJobs challenge (some stored) =
      Keeps-bind _ _ (Keeps-lift _) λ a. Keeps-bind _ _ (Keeps-lift _) λ b. Keeps-pure _
  insert_challenge-SameJobs challenge none =
      Keeps-bind _ _ (Keeps-modify _ (λ s p. p))
        λ a. Keeps-bind _ _ (insert_event-SameJobs _ _ _ _) λ b. Keeps-pure _

  pub add_challenge-SameJobs :
      (challenge : Challenge) (owner : String) → Keeps SameJobs (add_challenge challenge owner)
  unfolding add_challenge
  add_challenge-SameJobs challenge owner = Keeps-transaction _ (
      Keeps-bind _ _ (Keeps-gets _) λ a.
        Keeps-bind _ _ (Keeps-lift _)
          λ b. Keeps-bind _ _ (Keeps-gets _) λ c. insert_challenge-SameJobs challenge c)
