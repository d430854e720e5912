-- ===== src/Worker/Ends/Held.antt =====
-- How the steps of `_wait_for_code` of cloud/src/workers/runner.py keep the expiry of its challenge.
use get_receipt.Base.{
  ℕ, suc, ◌≤◌, ◌<◌, String, Bool, none, some, ◌≡◌, subst, ap, Result, ok, err, string_eq, nat_eq,
  arith,
}
use get_receipt.Base.Exec.{◌>>=◌}
use get_receipt.Jobs.Model.{state_eq}
use get_receipt.Jobs.Inbox.{Inbox, InboxError, Method, Round, waiting, safe_identifier}
use get_receipt.Worker.State.{
  Office, Settings, Worker, Trouble, or_unexpected, let_others, is_stopped, reading,
}
use get_receipt.Worker.Waits.{on_inbox, wait_pass, code_missing, code_received}
use get_receipt.Worker.Ends.Settled.{
  Settled, Settled-pure, Settled-cond, Settled-bind, on_inbox-Settled, reading-Settled,
  is_stopped-Settled, read_job-Settled, swap-Settled,
}
use get_receipt.Worker.Ends.Ticking.{Ticking}
use get_receipt.Worker.Ends.Expiry.{By, others-By, wait_round-By, wait_round_waiting}

module _ {O : Type 0} (office : Office O) (settings : Settings) where
  pub code_missing-Settled :
      (job_id challenge_id : String) → Settled (code_missing office settings job_id challenge_id)
  unfolding code_missing
  code_missing-Settled job_id challenge_id =
      Settled-bind _ _ (on_inbox-Settled office settings _) (λ b.
        Settled-bind _ _ (is_stopped-Settled office settings) (λ stopped.
          Settled-cond _ (Settled-pure none) (
            Settled-bind _ _ (read_job-Settled office settings job_id) (λ latest.
              Settled-cond _ (Settled-pure none) (
                Settled-bind _ _ (swap-Settled office settings _ _ _ _)
                  (λ u. Settled-pure none))))))

  pub code_received-Settled :
      (job_id service_id challenge_id response : String)
      → Settled (code_received office settings job_id service_id challenge_id response)
  unfolding code_received
  code_received-Settled job_id service_id challenge_id response =
      Settled-bind _ _ (read_job-Settled office settings job_id) (λ latest.
        Settled-bind _ _ (swap-Settled office settings _ _ _ _) (λ u. Settled-pure (some response)))

  pub wait_pass-Settled : (deadline i : ℕ) → Settled (wait_pass office settings deadline i)
  unfolding wait_pass
  wait_pass-Settled deadline i = Settled-bind _ _ (reading-Settled office settings) (λ now.
      Settled-bind _ _ (reading-Settled office settings) (λ later s. record { at = λ e. cc e }))

  -- A method of the inbox that has returned ran on the inbox that the others left.
  pub on_inbox-ok :
      {A : Type 0} (m : Method A) (s t : Worker O) (a : A)
      → on_inbox office settings m s ≡ (ok a, t)
      → (m (let_others office s).common.inbox ≡ (ok a, t.common.inbox))
        × ((let_others office s).outer ≡ t.outer)
  unfolding on_inbox
  on_inbox-ok {A} m s t a h = step (m (let_others office s).common.inbox) h
    where
      step :
          (o : Result InboxError A × Inbox)
          → ◌≡◌ {A = Result Trouble A × Worker O}
              (
                or_unexpected o.0,
                record (let_others office s) {
                  common = record (let_others office s).common { inbox = o.1 };
                },
              )
              (ok a, t)
          → (o ≡ (ok a, t.common.inbox)) × ((let_others office s).outer ≡ t.outer)
      step (ok b, d) k = (ground (arith, k), ground (arith, k))
      step (err e, d) k = cc k

  module _ (ticking : Ticking office) (challenge_id key : String)
      (safe : safe_identifier challenge_id ≡ ok key) (b : ℕ) where
    abbrev pub Held : Worker O → Type 0
    Held s = By key b s.common.inbox

    -- What a step of the wait leaves: the bound, and a clock that has gone on.
    pub record Step (s t : Worker O) : Type 0 where
      pub held : Held t
      pub later : suc (ticking.uptime s.outer) ≤ ticking.uptime t.outer

    pub others_Held : (s : Worker O) → Held s → Held (let_others office s)
    unfolding let_others
    others_Held s h = others-By office ticking s.outer s.common key b h

    pub others_uptime :
        (s : Worker O) → suc (ticking.uptime s.outer) ≤ ticking.uptime (let_others office s).outer
    unfolding let_others
    others_uptime s = ticking.uptime_others s.outer

    pub is_stopped-Step :
        (s t : Worker O) (r : Bool) → Held s → is_stopped office s ≡ (ok r, t) → Step s t
    unfolding is_stopped
    is_stopped-Step s t r h e =
        subst (λ (p : Result Trouble Bool × Worker O). Step s p.1) e
          (record { held = others_Held s h; later = others_uptime s })

    pub reading-Held :
        (s t : Worker O) (n : ℕ)
        → Held s
        → reading office s ≡ (ok n, t)
        → Held t × (ticking.uptime s.outer ≤ n) × (n ≤ ticking.uptime t.outer)
    unfolding reading
    reading-Held s t n h e =
        let same : (office.monotonic s.outer).0 ≡ n = cc e in
        let left : (office.monotonic s.outer).1 ≡ t.outer =
          ap (λ (p : Result Trouble ℕ × Worker O). p.1.outer) e in
        (
          subst (λ (p : Result Trouble ℕ × Worker O). Held p.1) e h,
          subst (λ x. ticking.uptime s.outer ≤ x) same (ticking.before_monotonic s.outer),
          subst (λ o. n ≤ ticking.uptime o) left
              (subst (λ x. x ≤ ticking.uptime (office.monotonic s.outer).1) same
                (ticking.after_monotonic s.outer)),
        )

    -- A method that only looks at the inbox.
    pub looked :
        {A : Type 0} (look : Inbox → Result InboxError A) (s t : Worker O) (a : A)
        → Held s
        → on_inbox office settings (λ inbox. (look inbox, inbox)) s ≡ (ok a, t)
        → Step s t
          × (look (let_others office s).common.inbox ≡ ok a)
          × ((let_others office s).common.inbox ≡ t.common.inbox)
    looked {A} look s t a h e =
        let (ran, outer) = on_inbox-ok (λ inbox. (look inbox, inbox)) s t a e in
        let same = ap (λ (p : Result InboxError A × Inbox). p.1) ran in
        (
          record {
            held = subst (By key b) same (others_Held s h);
            later =
                subst (λ o. suc (ticking.uptime s.outer) ≤ ticking.uptime o) outer
                  (others_uptime s);
          },
          ap (λ (p : Result InboxError A × Inbox). p.0) ran,
          same,
        )

    -- A pass that goes on waiting was not late.
    abbrev pub Waited : ℕ → Worker O → Result Trouble Round × Worker O → Type 0
    Waited deadline s (ok r, t) = Step s t × (r ≡ waiting → ticking.uptime s.outer < deadline)
    Waited deadline s (err e, t) = Unit

    pub wait_pass-Waited :
        (deadline i : ℕ) (s : Worker O)
        → Held s
        → Waited deadline s (wait_pass office settings deadline i s)
    unfolding wait_pass reading ◌>>=◌ let_others
    wait_pass-Waited deadline i s h =
        let (now, o) = office.monotonic s.outer in
        let p = ticking.before_monotonic s.outer in
        let q = ticking.after_monotonic s.outer in
        let o2 = (office.monotonic (office.monotonic s.outer).1).1 in
        (
          record {
            held =
                wait_round-By deadline _ _ i _ key b (others-By office ticking o2 s.common key b h);
            later = omega (
              arith,
              p,
              q,
              ticking.before_monotonic (office.monotonic s.outer).1,
              ticking.after_monotonic (office.monotonic s.outer).1,
              ticking.uptime_others o2,
            );
          },
          λ e. omega (arith, p, wait_round_waiting deadline _ _ i _ e),
        )
