-- ===== src/Jobs/Store/Challenges/Kept.antt =====
-- `add_challenge` keeps the tables well formed, and undoes what it did when it raises.
use get_receipt.Base.{
  String, ◌≡◌, sym, subst, true, Option, none, some, any, ◌∷◌, [], ◌++◌, guard-ok,
}
use get_receipt.Base.Exec.Ensures.{
  Ensures, Ensures-bind, Ensures-pure, Ensures-lift-bind, Ensures-gets-bind, Ensures-transaction,
  Ensures-modify,
}
use get_receipt.Base.Exec.Atomic.{Atomic, Atomic-transaction}
use get_receipt.Jobs.Payload.{job_not_found}
use get_receipt.Jobs.Challenge.{Challenge}
use get_receipt.Jobs.Store.Rows.{Db, has_id}
use get_receipt.Jobs.Store.Steps.{insert_event-Ensures}
use get_receipt.Jobs.Store.Invariant.{WellFormed}
use get_receipt.Jobs.Store.Invariant.Keeps.{
  challenge-WellFormed, with_event-WellFormed, any-is_job_of,
}
use get_receipt.Jobs.Store.Challenges.{add_challenge, insert_challenge}

module _ (c : Challenge) (db : Db) (w : WellFormed db)
    (known : any (has_id c.job_id) db.jobs ≡ true) where
  insert_challenge-Keeps :
      (o : Option Challenge) → Ensures (insert_challenge c o) db (λ r t. WellFormed t)
  unfolding insert_challenge
  insert_challenge-Keeps (some stored) =
      Ensures-lift-bind _ _ _ λ ex e. Ensures-lift-bind _ _ _ λ u f. Ensures-pure _ _ w
  insert_challenge-Keeps none = Ensures-bind _ _ _ λ u d h. Ensures-bind _ _ _ λ i t k.
      let put =
        (Ensures-modify (λ (x : Db). record x { challenges = x.challenges ++ c ∷ [] }) db).at u d
          h in
      let noted = (insert_event-Ensures c.job_id "challenge_created" _ c.created_at d).at i t k in
      Ensures-pure _ _ (
        subst WellFormed (sym noted.tables) (
          with_event-WellFormed c.job_id _ _ c.created_at d noted.known
            (subst WellFormed (sym put) (challenge-WellFormed c db known w))))

module _ (c : Challenge) (owner : String) where
  pub add_challenge-Atomic : Atomic (add_challenge c owner)
  unfolding add_challenge
  add_challenge-Atomic = Atomic-transaction _

  pub add_challenge-Keeps :
      (db : Db) → WellFormed db → Ensures (add_challenge c owner) db (λ r t. WellFormed t)
  unfolding add_challenge
  add_challenge-Keeps db w = Ensures-transaction _ _ (
      Ensures-gets-bind _ _ _ (
        Ensures-lift-bind _ _ _ λ u f. Ensures-gets-bind _ _ _ (
          insert_challenge-Keeps c db w
            (any-is_job_of c.job_id _ db.jobs (guard-ok _ job_not_found u f)) _)))
