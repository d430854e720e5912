-- ===== src/Worker/Ends/Ticking.antt =====
-- What the waits of cloud/src/workers/runner.py rely on: time passes while the worker waits, and the
-- owner's threads answer and discard challenges only.
use get_receipt.Base.Exec.{◌>>=◌}
use get_receipt.Jobs.Payload.{Fields}
use get_receipt.Jobs.Model.{Job}
use get_receipt.Jobs.Store.Create.{get_job}
use get_receipt.Jobs.Store.Update.{Patch}
use get_receipt.Worker.Swaps.{read_job, swap}
use get_receipt.Base.{arith, suc, Result, ok, Bool, subst, ap, ℕ, ◌≤◌, ◌<◌, String, none, ◌≡◌, ◌⊎◌}
use get_receipt.Jobs.Store.Rows.{Store}
use get_receipt.Jobs.Inbox.{expires_of}
use get_receipt.Worker.State.{
  Office, Settings, Common, Worker, Work, Trouble, is_stopped, on_store, let_others, clock,
}

-- Both clocks run on: a reading is made while the method is under way, no call sets them back, and
-- before the worker's next access to what it shares, which stands for a wait too, at least a
-- microsecond passes. The other threads register no challenge and put off no expiry.
pub record Ticking {O : Type 0} (office : Office O) : Type 0 where
  pub utc : O → ℕ
  pub uptime : O → ℕ
  pub before_now : (o : O) → utc o ≤ (office.now o).0
  pub after_now : (o : O) → (office.now o).0 ≤ utc (office.now o).1
  pub uptime_now : (o : O) → uptime o ≤ uptime (office.now o).1
  pub before_monotonic : (o : O) → uptime o ≤ (office.monotonic o).0
  pub after_monotonic : (o : O) → (office.monotonic o).0 ≤ uptime (office.monotonic o).1
  pub utc_draw : (o : O) → utc o ≤ utc (office.draw o).1
  pub utc_page : (o : O) → utc o ≤ utc (office.page_target o).1
  pub utc_others : (o : O) → utc o < utc (office.others o).1
  pub uptime_others : (o : O) → uptime o < uptime (office.others o).1
  pub entries :
      (o : O) (c : Common) (id : String)
      → (((office.others o).0 c).inbox.table id ≡ c.inbox.table id)
        ⊎ (((office.others o).0 c).inbox.table id ≡ none)
  pub expiries :
      (o : O) (c : Common) (i : ℕ)
      → expires_of (((office.others o).0 c).inbox.objects i) ≤ expires_of (c.inbox.objects i)

-- A reading of the clock `f` that is a lower bound behind a method bounds the state that it has left.
pub after_bound :
    {O A : Type 0} (f : O → ℕ) (m : Work O A) (s t : Worker O) (r : Result Trouble A) (b : ℕ)
    → b ≤ f (m s).1.outer
    → m s ≡ (r, t)
    → b ≤ f t.outer
after_bound {O} {A} f m s t r b le e =
    subst (λ (p : Result Trouble A × Worker O). b ≤ f p.1.outer) e le

module _ {O : Type 0} (office : Office O) (settings : Settings) (ticking : Ticking office) where
  pub is_stopped_utc :
      (s t : Worker O) (b : Bool)
      → is_stopped office s ≡ (ok b, t)
      → suc (ticking.utc s.outer) ≤ ticking.utc t.outer
  unfolding is_stopped
  is_stopped_utc s t b e =
      after_bound ticking.utc (is_stopped office) s t (ok b) _ (ticking.utc_others s.outer) e

  pub on_store_utc :
      {A : Type 0} (m : Store A) (s t : Worker O) (a : A)
      → on_store office m s ≡ (ok a, t)
      → suc (ticking.utc s.outer) ≤ ticking.utc t.outer
  unfolding on_store let_others
  on_store_utc m s t a e =
      after_bound ticking.utc (on_store office m) s t (ok a) _ (ticking.utc_others s.outer) e

  pub clock_utc :
      (s t : Worker O) (n : ℕ)
      → clock office s ≡ (ok n, t)
      → (ticking.utc s.outer ≤ n) × (n ≤ ticking.utc t.outer)
  unfolding clock
  clock_utc s t n e =
      let same : (office.now s.outer).0 ≡ n = cc e in
      let left : (office.now s.outer).1 ≡ t.outer =
        ap (λ (p : Result Trouble ℕ × Worker O). p.1.outer) e in
      (
        subst (λ x. ticking.utc s.outer ≤ x) same (ticking.before_now s.outer),
        subst (λ o. n ≤ ticking.utc o) left
            (subst (λ x. x ≤ ticking.utc (office.now s.outer).1) same (ticking.after_now s.outer)),
      )

  pub read_job_utc :
      (job_id : String) (s t : Worker O) (job : Job)
      → read_job office settings job_id s ≡ (ok job, t)
      → suc (ticking.utc s.outer) ≤ ticking.utc t.outer
  unfolding read_job
  read_job_utc job_id s t job e = on_store_utc (get_job job_id settings.owner_id) s t job e

  pub swap_utc :
      (job : Job) (patch : Patch) (event_type : String) (payload : Fields) (s t : Worker O)
      (u : Job)
      → swap office settings job patch event_type payload s ≡ (ok u, t)
      → ticking.utc s.outer ≤ ticking.utc t.outer
  unfolding swap ◌>>=◌ clock on_store let_others
  swap_utc job patch event_type payload s t u e =
      after_bound ticking.utc (swap office settings job patch event_type payload) s t (ok u) _
        (omega (
          arith,
          ticking.before_now s.outer,
          ticking.after_now s.outer,
          ticking.utc_others (office.now s.outer).1,
        ))
        e
