-- ===== src/Jobs/Store/Claim/Oldest.antt =====
-- `claim_next` claims the oldest queued job of the owner.
use get_receipt.Base.{
  ◌↔◌, beq-true, ◌⊎◌, inl, inr, [], ◌∷◌, arith, eq_iff, ℕ, suc, ◌≤◌, String, ◌≡◌, refl, sym, ap,
  ◌∙◌, subst, true, Option, none, some, List, filter, ok,
}
use get_receipt.Base.Text.{strip}
use get_receipt.Base.Exec.Ensures.{
  Ensures, Ensures-bind, Ensures-pure, Ensures-lift-bind, Ensures-gets-bind, Ensures-transaction,
}
use get_receipt.Base.Exec.Atomic.{Atomic, Atomic-transaction}
use get_receipt.Jobs.Payload.{field, end}
use get_receipt.Jobs.Model.{Job, queued, running, validate, state_eq, state_beq_iff}
use get_receipt.Jobs.Model.Valid.{
  IsValid, IsValid-read, IsValid-owner, validate-eq, validate-IsValid,
}
use get_receipt.Jobs.Store.Rows.{Db, JobRow, job_from_row, first_by, older, with_event, with_update}
use get_receipt.Jobs.Store.Tables.{
  In, In-All, OnlyId, first_by-oldest, first_by-In, filter-In, In-filter,
}
use get_receipt.Jobs.Store.Steps.{update_one-Ensures, insert_event-Ensures}
use get_receipt.Jobs.Store.Invariant.{WellFormed}
use get_receipt.Jobs.Store.Invariant.Keeps.{updated-WellFormed}
use get_receipt.Jobs.Store.Claim.{
  failed_service_ids, next_service, optional_text, claim_row, claim_next, claim_columns,
  is_queued_version, is_queued_of,
}

-- The job that a claim makes of a queued one.
abbrev pub claimed_job : ℕ → Option String → Job → Job
claimed_job now current job = record job {
  state = running;
  current = current;
  version = suc job.version;
  updated_at = now;
  error = none;
}

abbrev claimed_db : Job → Job → Db → Db
claimed_db j u db =
    with_event u.id (strip "job_claimed") (field "current_service_id" (optional_text u.current) end)
      u.updated_at (with_update (is_queued_version j) (claim_columns u) db)

-- What a claim of a row has found and done.
pub record Claimed (now : ℕ) (row : JobRow) (db : Db) (o : Option Job) (t : Db) : Type 0 where
  pub failed : List String
  pub read : failed_service_ids row.job ≡ ok failed
  pub checks :
      IsValid (claimed_job now (next_service row.job.service_ids row.job.completed failed) row.job)
  pub result :
      o ≡ some (claimed_job now (next_service row.job.service_ids row.job.completed failed) row.job)
  pub tables :
      t
      ≡ claimed_db row.job
          (claimed_job now (next_service row.job.service_ids row.job.completed failed) row.job)
          db

module _ (now : ℕ) (row : JobRow) (db : Db) (v : IsValid row.job) where
  claimed_fields :
      (ex u : Job) (failed : List String)
      → ex ≡ row.job
      → validate (claimed_job now (next_service ex.service_ids ex.completed failed) ex) ≡ ok u
      → u ≡ claimed_job now (next_service row.job.service_ids row.job.completed failed) row.job
  claimed_fields ex u failed e h =
      validate-eq _ u h
      ∙ rw e (
          ap
            (λ o.
              record (claimed_job now (next_service row.job.service_ids row.job.completed failed)
                row.job) { owner = o })
            (IsValid-owner row.job v))

  claimed :
      (ex u : Job) (failed : List String) (d t : Db)
      → ex ≡ row.job
      → failed_service_ids ex ≡ ok failed
      → validate (claimed_job now (next_service ex.service_ids ex.completed failed) ex) ≡ ok u
      → d ≡ with_update (is_queued_version ex) (claim_columns u) db
      → t
        ≡ with_event u.id
            (strip "job_claimed")
            (field "current_service_id" (optional_text u.current) end)
            u.updated_at
            d
      → Claimed now row db (some u) t
  claimed ex u failed d t e f h p q =
      let c = claimed_fields ex u failed e h in
      record {
        failed = failed;
        read = rw e at f;
        checks = subst IsValid c (validate-IsValid _ u h);
        result = ap some c;
        tables = q ∙ rw (p, c, e) refl;
      }

  pub claim_row-Ensures : Ensures (claim_row now (some row)) db (Claimed now row db)
  unfolding claim_row job_from_row
  claim_row-Ensures = Ensures-lift-bind _ _ _ λ ex e. Ensures-lift-bind _ _ _ λ failed f.
      Ensures-lift-bind _ _ _ λ u h. Ensures-bind _ _ _ λ y d k. Ensures-bind _ _ _ λ i t l.
        Ensures-pure _ _ (
          claimed ex u failed d t (IsValid-read row.job ex v e) f h
            ((update_one-Ensures _ _ _ db).at y d k)
            ((insert_event-Ensures u.id "job_claimed" _ u.updated_at d).at i t l).tables)

-- The owner's job of a row is queued.
abbrev pub Queued : String → JobRow → Type 0
Queued owner row = (row.job.owner ≡ strip owner) × (row.job.state ≡ queued)

is_queued_of-Queued :
    (owner : String) (row : JobRow) → (is_queued_of (strip owner) row ≡ true) ↔ Queued owner row
is_queued_of-Queued owner row = (
  λ h. (
    (eq_iff row.job.owner (strip owner)).0 (ground (arith, h)),
    (state_beq_iff row.job.state queued).0 (ground (arith, h)),
  ),
  λ (e, f). rw (beq-true row.job.owner (strip owner) e, beq-true row.job.state queued f) refl,
)

-- The job that `claim_next` has met and the outcome of its claim.
pub record Met (now : ℕ) (owner : String) (db : Db) (o : Option Job) (t : Db) : Type 0 where
  pub row : JobRow
  pub member : In row db.jobs
  pub is_queued : Queued owner row
  pub oldest : (r : JobRow) → In r db.jobs → Queued owner r → row.job.created_at ≤ r.job.created_at
  pub claimed : Claimed now row db o t

-- No job is queued, and nothing has changed.
pub record Idle (owner : String) (db : Db) (o : Option Job) (t : Db) : Type 0 where
  pub nothing : o ≡ none
  pub none_queued : (r : JobRow) → In r db.jobs → ¬ Queued owner r
  pub unchanged : t ≡ db

first_by-none : (rows : List JobRow) → first_by older rows ≡ none → rows ≡ []
unfolding first_by
first_by-none [] h = refl
first_by-none (r ∷ rs) h = cc

module _ (now : ℕ) (owner : String) (db : Db) (w : WellFormed db) where
  found :
      (r : JobRow)
      → In r db.jobs
      → Queued owner r
      → In r (filter (is_queued_of (strip owner)) db.jobs)
  found r m k =
      In-filter (is_queued_of (strip owner)) db.jobs r m ((is_queued_of-Queued owner r).1 k)

  absent :
      filter (is_queued_of (strip owner)) db.jobs ≡ []
      → (r : JobRow) → In r db.jobs
      → ¬ Queued owner r
  absent none_left r m k = subst (In r) none_left (found r m k)

  claim_found :
      (o : Option JobRow)
      → first_by older (filter (is_queued_of (strip owner)) db.jobs) ≡ o
      → Ensures (claim_row now o) db (λ r t. Idle owner db r t ⊎ Met now owner db r t)
  claim_found none e =
      unfold claim_row in
      Ensures-pure _ _ (
        inl (record { nothing = refl; none_queued = absent (first_by-none _ e); unchanged = refl }))
  claim_found (some row) e =
      let (member, queued_of) =
        filter-In (is_queued_of (strip owner)) db.jobs row (first_by-In older _ row e) in
      record {
        at = λ r t h. inr (record {
          row = row;
          member = member;
          is_queued = (is_queued_of-Queued owner row).0 queued_of;
          oldest = λ q m k.
              In-All (λ (r : JobRow). row.job.created_at ≤ r.job.created_at) q
                (filter (is_queued_of (strip owner)) db.jobs) (found q m k)
                (first_by-oldest _ row e);
          claimed =
              (claim_row-Ensures now row db
                  (In-All (λ (q : JobRow). IsValid q.job) row db.jobs member w.valid)).at
                r t h;
        });
      }

  -- On well-formed tables `claim_next` returns either nothing, when the owner has no queued job,
  -- or the oldest of the owner's queued jobs, made running with its next service.
  pub claim_next-Ensures :
      Ensures (claim_next now owner) db (λ o t. Idle owner db o t ⊎ Met now owner db o t)
  unfolding claim_next
  claim_next-Ensures = Ensures-transaction _ _ (Ensures-gets-bind _ _ _ (claim_found _ refl))

pub claim_next-Atomic : (now : ℕ) (owner : String) → Atomic (claim_next now owner)
unfolding claim_next
claim_next-Atomic now owner = Atomic-transaction _

queued-OnlyId : (j : Job) → OnlyId j.id (is_queued_version j)
queued-OnlyId j r t = ground (arith, eq_iff r.job.id j.id)

Met-WellFormed :
    (now : ℕ) (owner : String) (db : Db) (o : Option Job) (t : Db)
    → WellFormed db
    → Met now owner db o t
    → WellFormed t
Met-WellFormed now owner db o t w m = subst WellFormed (sym m.claimed.tables) (
    updated-WellFormed (is_queued_version m.row.job) _ m.row.job.id _ _ now db m.row (λ j. refl)
      (λ j. refl) (queued-OnlyId m.row.job) m.member refl m.claimed.checks w)

pub claim_next-Keeps :
    (now : ℕ) (owner : String) (db : Db)
    → WellFormed db
    → Ensures (claim_next now owner) db (λ o t. WellFormed t)
claim_next-Keeps now owner db w = record {
  at = λ o t h. elim ((claim_next-Ensures now owner db w).at o t h) [
    | inl i ↦ subst WellFormed (sym i.unchanged) w
    | inr m ↦ Met-WellFormed now owner db o t w m
  ];
}
