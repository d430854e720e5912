-- ===== src/Worker/Keeps.antt =====
-- What a worker's service leaves as it was, in cloud/src/workers/runner.py.
pub mod Waits
pub mod Service
pub mod Process
use get_receipt.Base.{
  Bool, true, false, Option, some, ℕ, String, none, ◌≡◌, refl, subst, sym, ◌==◌, string_eq,
}
use get_receipt.Base.Exec.Atomic.{ReadsOnly, ReadsOnly-bind, ReadsOnly-gets, ReadsOnly-lift}
use get_receipt.Base.Exec.Keeps.{Keeps, Keeps-pure, Keeps-cond, Keeps-bind}
use get_receipt.Jobs.Payload.{Fields}
use get_receipt.Jobs.Model.{JobState, succeeded, Job, state_eq, cancelled}
use get_receipt.Jobs.Challenge.{Challenge}
use get_receipt.Jobs.Store.Rows.{Db, Store}
use get_receipt.Jobs.Store.Create.{get_job}
use get_receipt.Jobs.Store.Update.{Patch, compare_and_set}
use get_receipt.Jobs.Store.Challenges.{add_challenge}
use get_receipt.Worker.State.{
  Office, Settings, Worker, Common, let_others, on_store, clock, reading, uuid, is_stopped,
}
use get_receipt.Worker.Swaps.{read_job, swap, set_intervention}

-- The tables of a worker's state.
abbrev pub On : {O : Type 0} → (Db → Type 0) → Worker O → Type 0
On P s = P s.common.db

abbrev pub is_success : Option JobState → Bool
is_success none = false
is_success (some state) = state == succeeded

-- A patch that leaves the completed services and the result alone, and is no success.
pub record Mild (patch : Patch) : Type 0 where
  pub completed : patch.completed ≡ none
  pub result : patch.result ≡ none
  pub unfinished : is_success patch.state ≡ false

-- The other threads, the mild transitions and new challenges leave `P` true.
pub record Allowed {O : Type 0} (office : Office O) (owner : String) (P : Db → Type 0)
    : Type 0 where
  pub others : (o : O) (c : Common) → P c.db → P ((office.others o).0 c).db
  pub swapped :
      (now : ℕ) (job_id : String) (version : ℕ) (patch : Patch) (event_type : String)
      (payload : Fields) (db : Db)
      → Mild patch
      → P db
      → P (compare_and_set now job_id owner version patch event_type payload db).1
  pub posed : (challenge : Challenge) (db : Db) → P db → P (add_challenge challenge owner db).1

pub get_job-ReadsOnly : (job_id owner : String) → ReadsOnly (get_job job_id owner)
unfolding get_job
get_job-ReadsOnly job_id owner =
    ReadsOnly-bind _ _ (ReadsOnly-gets _)
      λ found. ReadsOnly-bind _ _ (ReadsOnly-lift _) λ row. ReadsOnly-lift _

module _ {O : Type 0} (office : Office O) (settings : Settings) (P : Db → Type 0)
    (allowed : Allowed office settings.owner_id P) where
  pub on_store-Keeps :
      {A : Type 0} (m : Store A)
      → ((db : Db) → P db → P (m db).1)
      → Keeps (On P) (on_store office m)
  unfolding on_store let_others
  on_store-Keeps m h = record { at = λ s p. h _ (allowed.others s.outer s.common p) }

  pub clock-Keeps : Keeps (On P) (clock office)
  unfolding clock
  clock-Keeps = record { at = λ s p. p }

  pub reading-Keeps : Keeps (On P) (reading office)
  unfolding reading
  reading-Keeps = record { at = λ s p. p }

  pub uuid-Keeps : Keeps (On P) (uuid office)
  unfolding uuid
  uuid-Keeps = record { at = λ s p. p }

  pub is_stopped-Keeps : Keeps (On P) (is_stopped office)
  unfolding is_stopped let_others
  is_stopped-Keeps = record { at = λ s p. allowed.others s.outer s.common p }

  pub read_job-Keeps : (job_id : String) → Keeps (On P) (read_job office settings job_id)
  unfolding read_job
  read_job-Keeps job_id =
      on_store-Keeps (get_job job_id settings.owner_id)
        (λ db p. subst P (sym ((get_job-ReadsOnly job_id settings.owner_id).at db)) p)

  pub swap-Keeps :
      (job : Job) (patch : Patch) (event_type : String) (payload : Fields)
      → Mild patch
      → Keeps (On P) (swap office settings job patch event_type payload)
  unfolding swap
  swap-Keeps job patch event_type payload mild = Keeps-bind _ _ clock-Keeps λ now.
      on_store-Keeps
        (compare_and_set now job.id settings.owner_id job.version patch event_type payload)
        (λ db p. allowed.swapped now job.id job.version patch event_type payload db mild p)

  pub set_intervention-Keeps :
      (job_id code message : String)
      → Keeps (On P) (set_intervention office settings job_id code message)
  unfolding set_intervention
  set_intervention-Keeps job_id code message = Keeps-bind _ _ (read_job-Keeps job_id) λ current.
      Keeps-cond (current.state == cancelled) (Keeps-pure tt) (
        Keeps-bind _ _
          (swap-Keeps _ _ _ _ (record { completed = refl; result = refl; unfinished = refl }))
          λ u. Keeps-pure tt)

abbrev pub gentle :
    {patch : Patch}
    → patch.completed ≡ none
    → patch.result ≡ none
    → is_success patch.state ≡ false
    → Mild patch
gentle h k e = record { completed = h; result = k; unfinished = e }
