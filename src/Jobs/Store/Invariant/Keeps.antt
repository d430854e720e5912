-- ===== src/Jobs/Store/Invariant/Keeps.antt =====
-- The changes that the operations make to the tables keep them well formed.
use get_receipt.Base.{
  beq-true, ℕ, suc, String, ◌≡◌, refl, ◌∙◌, Bool, true, false, ◌||◌, List, [], ◌∷◌, ◌++◌, string_eq,
  any, All, arith, eq_iff,
}
use get_receipt.Jobs.Payload.{Fields}
use get_receipt.Jobs.Model.{Job}
use get_receipt.Jobs.Model.Valid.{IsValid}
use get_receipt.Jobs.Challenge.{Challenge}
use get_receipt.Jobs.Store.Rows.{
  is_job_of, Db, JobRow, Event, has_id, with_update, with_event, update_rows,
}
use get_receipt.Jobs.Store.Create.{has_key}
use get_receipt.Jobs.Store.Claim.{is_version}
use get_receipt.Jobs.Store.Tables.{any-In, UniqueIds, OnlyId, In, any-update_rows, update_rows-All}
use get_receipt.Jobs.Store.Invariant.{WellFormed, UniqueKeys, Ascending}

All-map :
    {A : Type 0} (P Q : A → Type 0) (f : (a : A) → P a → Q a) (xs : List A) → All P xs → All Q xs
All-map P Q f [] h = tt
All-map P Q f (x ∷ xs) h = (f x h.0, All-map P Q f xs h.1)

All-snoc :
    {A : Type 0} (P : A → Type 0) (xs : List A) (y : A) → All P xs → P y → All P (xs ++ y ∷ [])
All-snoc P [] y h p = (p, tt)
All-snoc P (x ∷ xs) y h p = (h.0, All-snoc P xs y h.1 p)

module _ (test : JobRow → Bool) (change : Job → Job) (same_id : (j : Job) → (change j).id ≡ j.id)
    (same_owner : (j : Job) → (change j).owner ≡ j.owner) where
  same_has_id : (i : String) (r : JobRow) → has_id i (record r { job = change r.job }) ≡ has_id i r
  same_has_id i r = rw same_id

  same_has_key :
      (o k : String) (r : JobRow) → has_key o k (record r { job = change r.job }) ≡ has_key o k r
  same_has_key o k r = rw same_owner

  update_rows-UniqueIds :
      (rows : List JobRow) → UniqueIds rows → UniqueIds (update_rows test change rows)
  unfolding update_rows
  update_rows-UniqueIds [] u = tt
  update_rows-UniqueIds (r ∷ rs) u = (
    any-update_rows (has_id _) test change (same_has_id _) rs ∙ ground (arith, same_id r.job),
    update_rows-UniqueIds rs u.1,
  )

  update_rows-UniqueKeys :
      (rows : List JobRow) → UniqueKeys rows → UniqueKeys (update_rows test change rows)
  unfolding update_rows
  update_rows-UniqueKeys [] u = tt
  update_rows-UniqueKeys (r ∷ rs) u = (
    any-update_rows (has_key _ _) test change (same_has_key _ _) rs
        ∙ ground (arith, same_owner r.job),
    update_rows-UniqueKeys rs u.1,
  )

  -- An update whose rows all pass their checks.
  pub update-WellFormed :
      (db : Db)
      → All (λ (r : JobRow). IsValid r.job) (update_rows test change db.jobs)
      → WellFormed db
      → WellFormed (with_update test change db)
  update-WellFormed db v w = record {
    valid = v;
    ids = update_rows-UniqueIds db.jobs w.ids;
    keys = update_rows-UniqueKeys db.jobs w.keys;
    ascending = w.ascending;
    event_jobs =
        All-map _ _
          (λ ev h.
            any-update_rows (has_id ev.job_id) test change (same_has_id ev.job_id) db.jobs ∙ h)
          db.events w.event_jobs;
    challenge_jobs =
        All-map _ _
          (λ c h. any-update_rows (has_id c.job_id) test change (same_has_id c.job_id) db.jobs ∙ h)
          db.challenges w.challenge_jobs;
  }

  -- An update of the one row with some identifier, to a job that passes its checks.
  pub with_update-WellFormed :
      (i : String)
      → OnlyId i test
      → (db : Db) (row : JobRow) → In row db.jobs
      → row.job.id ≡ i
      → IsValid (change row.job)
      → WellFormed db
      → WellFormed (with_update test change db)
  with_update-WellFormed i only db row m e v w =
      update-WellFormed db
        (update_rows-All i test only change (λ (r : JobRow). IsValid r.job) db.jobs row w.ids m e v
          w.valid)
        w

snoc-Ascending :
    (last : ℕ) (es : List Event) (e : Event)
    → Ascending last es
    → e.id ≡ suc last
    → Ascending (suc last) (es ++ e ∷ [])
snoc-Ascending last [] e h q = (omega arith, tt, tt)
snoc-Ascending last (x ∷ es) e h q =
    (omega arith, All-snoc _ es e h.1 (omega arith), snoc-Ascending last es e h.2 q)

pub with_event-WellFormed :
    (job_id event_type : String) (payload : Fields) (now : ℕ) (db : Db)
    → any (has_id job_id) db.jobs ≡ true
    → WellFormed db
    → WellFormed (with_event job_id event_type payload now db)
with_event-WellFormed job_id event_type payload now db k w = record {
  valid = w.valid;
  ids = w.ids;
  keys = w.keys;
  ascending = snoc-Ascending db.last_event db.events _ w.ascending refl;
  event_jobs = All-snoc _ db.events _ w.event_jobs k;
  challenge_jobs = w.challenge_jobs;
}

pub challenge-WellFormed :
    (c : Challenge) (db : Db)
    → any (has_id c.job_id) db.jobs ≡ true
    → WellFormed db
    → WellFormed (record db { challenges = db.challenges ++ c ∷ [] })
challenge-WellFormed c db k w = record {
  valid = w.valid;
  ids = w.ids;
  keys = w.keys;
  ascending = w.ascending;
  event_jobs = w.event_jobs;
  challenge_jobs = All-snoc _ db.challenges c w.challenge_jobs k;
}

pub any-append_one :
    (p : JobRow → Bool) (rows : List JobRow) (r : JobRow)
    → any p (rows ++ r ∷ []) ≡ (any p rows || p r)
any-append_one p [] r = ground arith
any-append_one p (x ∷ xs) r = ground (arith, any-append_one p xs r)

append_one-UniqueIds :
    (rows : List JobRow) (r : JobRow)
    → any (has_id r.job.id) rows ≡ false
    → UniqueIds rows
    → UniqueIds (rows ++ r ∷ [])
append_one-UniqueIds [] r n u = (refl, tt)
append_one-UniqueIds (x ∷ xs) r n u = (
  ground (
    arith,
    any-append_one (has_id x.job.id) xs r,
    u.0,
    eq_iff x.job.id r.job.id,
    eq_iff r.job.id x.job.id,
  ),
  append_one-UniqueIds xs r (ground arith) u.1,
)

append_one-UniqueKeys :
    (rows : List JobRow) (r : JobRow)
    → any (has_key r.job.owner r.idempotency_key) rows ≡ false
    → UniqueKeys rows
    → UniqueKeys (rows ++ r ∷ [])
append_one-UniqueKeys [] r n u = (refl, tt)
append_one-UniqueKeys (x ∷ xs) r n u = (
  ground (
    arith,
    any-append_one (has_key x.job.owner x.idempotency_key) xs r,
    u.0,
    eq_iff x.job.owner r.job.owner,
    eq_iff r.job.owner x.job.owner,
    eq_iff x.idempotency_key r.idempotency_key,
    eq_iff r.idempotency_key x.idempotency_key,
  ),
  append_one-UniqueKeys xs r (ground arith) u.1,
)

known_still :
    (i : String) (rows : List JobRow) (r : JobRow)
    → any (has_id i) rows ≡ true
    → any (has_id i) (rows ++ r ∷ []) ≡ true
known_still i rows r h = rw (any-append_one, h)

pub insert-WellFormed :
    (r : JobRow) (db : Db)
    → any (has_id r.job.id) db.jobs ≡ false
    → any (has_key r.job.owner r.idempotency_key) db.jobs ≡ false
    → IsValid r.job
    → WellFormed db
    → WellFormed (record db { jobs = db.jobs ++ r ∷ [] })
insert-WellFormed r db n k v w = record {
  valid = All-snoc (λ (q : JobRow). IsValid q.job) db.jobs r w.valid v;
  ids = append_one-UniqueIds db.jobs r n w.ids;
  keys = append_one-UniqueKeys db.jobs r k w.keys;
  ascending = w.ascending;
  event_jobs = All-map _ _ (λ ev h. known_still ev.job_id db.jobs r h) db.events w.event_jobs;
  challenge_jobs =
      All-map _ _ (λ c h. known_still c.job_id db.jobs r h) db.challenges w.challenge_jobs;
}

pub is_version-OnlyId : (j : Job) (v : ℕ) → OnlyId j.id (is_version j v)
is_version-OnlyId j v r t = ground (arith, eq_iff r.job.id j.id)

-- One row updated, and an event of its job recorded.
pub updated-WellFormed :
    (test : JobRow → Bool) (change : Job → Job) (i event_type : String) (payload : Fields) (now : ℕ)
    (db : Db) (row : JobRow)
    → ((j : Job) → (change j).id ≡ j.id)
    → ((j : Job) → (change j).owner ≡ j.owner)
    → OnlyId i test
    → In row db.jobs
    → row.job.id ≡ i
    → IsValid (change row.job)
    → WellFormed db
    → WellFormed (with_event i event_type payload now (with_update test change db))
updated-WellFormed test change i event_type payload now db row si so only m e v w =
    with_event-WellFormed i event_type payload now _
      (any-update_rows (has_id i) test change (same_has_id test change si so i) db.jobs
        ∙ any-In (has_id i) db.jobs row m (beq-true row.job.id i e))
      (with_update-WellFormed test change si so i only db row m e v w)

pub any-is_job_of :
    (i owner : String) (rows : List JobRow)
    → any (is_job_of i owner) rows ≡ true
    → any (has_id i) rows ≡ true
any-is_job_of i owner [] h = h
any-is_job_of i owner (r ∷ rs) h = ground (arith, any-is_job_of i owner rs)
