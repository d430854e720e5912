-- ===== src/Worker/Ends/Owner.antt =====
-- `_wait_for_interactive` of cloud/src/workers/runner.py ends.
use get_receipt.Base.{
  ℕ, zero, suc, ◌+◌, ◌≤◌, ◌<◌, String, Bool, true, false, not, ◌||◌, Option, ◌≡◌, ok, ltb,
  string_eq, arith, Option-cases, inl, inr, ap, Result,
}
use get_receipt.Base.Exec.{lift, ◌>>=◌}
use get_receipt.Jobs.Model.{Job, state_eq}
use get_receipt.Jobs.Challenge.{Challenge, validate_challenge}
use get_receipt.Acquisition.Report.{AcquisitionResult}
use get_receipt.Worker.State.{
  Office, Settings, Worker, Trouble, let_others, from_store, clock, uuid,
}
use get_receipt.Worker.Waits.{new_challenge, expiry}
use get_receipt.Worker.Interactive.{
  check_viewer, open_viewer, close_viewer, is_continued, interactive_expired, interactive_done,
  await_owner, wait_for_interactive, viewer_target,
}
use get_receipt.Worker.Ends.Settled.{
  Settles-option, Settles, Settled, Settled-pure, Settled-cond, Settles-cond, Settled-bind,
  Settles-bind, on_store-Settled, clock-Settled, is_stopped-Settled, read_job-Settled, swap-Settled,
  set_intervention-Settled, new_challenge-Settled,
}
use get_receipt.Worker.Ends.Ticking.{
  Ticking, after_bound, is_stopped_utc, on_store_utc, clock_utc, read_job_utc, swap_utc,
}

module _ {O : Type 0} (office : Office O) (settings : Settings) where
  interactive_expired-Settled :
      (job_id challenge_id : String)
      → Settled (interactive_expired office settings job_id challenge_id)
  unfolding interactive_expired
  interactive_expired-Settled job_id challenge_id =
      Settled-bind _ _ (read_job-Settled office settings job_id) (λ latest.
        Settled-bind _ _ (is_stopped-Settled office settings) (λ stopped.
          Settled-cond _ (Settled-pure false)
            (Settled-bind _ _ (swap-Settled office settings _ _ _ _) (λ u. Settled-pure false))))

  close_viewer-Settled : Settled (close_viewer office settings)
  unfolding close_viewer
  close_viewer-Settled s = record { at = λ e. cc e }

  interactive_done-Settled :
      (job_id service_id challenge_id : String)
      → Settled (interactive_done office settings job_id service_id challenge_id)
  unfolding interactive_done
  interactive_done-Settled job_id service_id challenge_id =
      Settled-bind _ _ (read_job-Settled office settings job_id) (λ latest.
        Settled-cond _ (Settled-pure false) (
          Settled-bind _ _ (swap-Settled office settings _ _ _ _)
            (λ u. Settled-bind _ _ close_viewer-Settled (λ v. Settled-pure true))))

  is_continued-Settled : Settled (is_continued office settings)
  unfolding is_continued
  is_continued-Settled s = record { at = λ e. cc e }

  check_viewer-Settled : (service_id : String) → Settled (check_viewer office settings service_id)
  unfolding check_viewer
  check_viewer-Settled service_id s = elim (Option-cases s.browser_job_id) [
    | inl e ↦ record { at = rw e (λ f. cc f) }
    | inr (job_id, e) ↦
        elim (Option-cases (viewer_target service_id (office.page_target s.outer).0)) [
          | inl f ↦ record { at = rw (e, check_viewer) (rw f (λ g. cc g)) }
          | inr (target_id, f) ↦ record { at = rw (e, check_viewer) (rw f (λ g. cc g)) }
        ]
  ]

  open_viewer-Settled : (id : String) → Settled (open_viewer office settings id)
  unfolding open_viewer
  open_viewer-Settled id s = record { at = λ e. cc e }

  module _ (ticking : Ticking office) where
    is_continued_utc :
        (s t : Worker O) (b : Bool)
        → is_continued office settings s ≡ (ok b, t)
        → suc (ticking.utc s.outer) ≤ ticking.utc t.outer
    unfolding is_continued let_others
    is_continued_utc s t b e =
        after_bound ticking.utc (is_continued office settings) s t (ok b) _
          (ticking.utc_others s.outer) e

    module _ (job_id service_id : String) (challenge : Challenge) where
      -- A round that does not end the wait was not late, and leaves a later clock.
      round_Settles :
          (rounds : ℕ) (s : Worker O)
          → ((t : Worker O)
              → suc (ticking.utc s.outer) < expiry challenge.expires_at
              → suc (ticking.utc s.outer) ≤ ticking.utc t.outer
              → Settles (await_owner office settings rounds job_id service_id challenge) t)
          → Settles (await_owner office settings (suc rounds) job_id service_id challenge) s
      unfolding await_owner
      round_Settles rounds s k =
          Settles-bind _ _ s (is_stopped-Settled office settings s) λ stopped t e.
            Settles-bind _ _ t (clock-Settled office settings t) λ now u f.
              Settles-cond _ u (λ h. interactive_expired-Settled job_id challenge.id u)
                (λ early. Settles-bind _ _ u (is_continued-Settled u) λ continued v g.
                  Settles-cond continued v
                    (λ h. interactive_done-Settled job_id service_id challenge.id v)
                    (λ h.
                      Settles-bind _ _ v (read_job-Settled office settings job_id v) λ latest w i.
                        Settles-cond _ w (λ h. Settled-pure false w)
                          (λ h.
                            let p = is_stopped_utc office settings ticking s t stopped e in
                            let q = clock_utc office settings ticking t u now f in
                            let c = is_continued_utc u v continued g in
                            let d = read_job_utc office settings ticking job_id v w latest i in
                            k w (before stopped now early p q.0) (omega (arith, p, q, c, d)))))
        where
          before :
              (stopped : Bool) (now : ℕ) {a b e : ℕ}
              → (stopped || not (ltb now e)) ≡ false
              → suc a ≤ b
              → b ≤ now
              → suc a < e
          before stopped now early p q = ground (arith, early, p, q)

      pub await_owner_enough :
          (rounds : ℕ) (s : Worker O)
          → expiry challenge.expires_at < ticking.utc s.outer + suc rounds
          → Settles (await_owner office settings (suc rounds) job_id service_id challenge) s
      await_owner_enough zero s lt =
          round_Settles zero s (λ t early later. absurd (omega (arith, lt, early)))
      await_owner_enough (suc rounds) s lt =
          round_Settles (suc rounds) s
            (λ t early later. await_owner_enough rounds t (omega (arith, lt, later)))

    validated_expiry :
        (d c : Challenge) → from_store (validate_challenge d) ≡ ok c → c.expires_at ≡ d.expires_at
    unfolding validate_challenge
    validated_expiry d c h = ground arith

    -- The challenge that a wait makes expires at most its time to live from now.
    new_challenge-expiry :
        (job : Job) (service_id kind message : String) (s t : Worker O) (c : Challenge)
        → new_challenge office settings job service_id kind message s ≡ (ok c, t)
        → expiry c.expires_at ≤ ticking.utc t.outer + settings.challenge_ttl
    unfolding new_challenge ◌>>=◌ clock uuid lift
    new_challenge-expiry job service_id kind message s t c e =
        let o = (office.draw (office.now s.outer).1).1 in
        let bound =
          after_bound ticking.utc (new_challenge office settings job service_id kind message) s t
            (ok c) (office.now s.outer).0
            (omega (
              arith,
              ticking.after_now s.outer,
              ticking.utc_draw (office.now s.outer).1,
              ticking.before_now o,
              ticking.after_now o,
            ))
            e in
        let same = validated_expiry _ c (ap (λ (p : Result Trouble Challenge × Worker O). p.0) e) in
        rw (ap expiry same) (omega (arith, bound))

    check_viewer_utc :
        (service_id : String) (s t : Worker O) (r : Option String)
        → check_viewer office settings service_id s ≡ (ok r, t)
        → ticking.utc s.outer ≤ ticking.utc t.outer
    unfolding check_viewer
    check_viewer_utc service_id s t r e =
        after_bound ticking.utc (check_viewer office settings service_id) s t (ok r) _ (asked s) e
      where
        asked :
            (s : Worker O)
            → ticking.utc s.outer ≤ ticking.utc (check_viewer office settings service_id s).1.outer
        asked s = elim (Option-cases s.browser_job_id) [
          | inl e ↦ rw e (omega arith)
          | inr (job_id, e) ↦
              elim (Option-cases (viewer_target service_id (office.page_target s.outer).0)) [
                | inl f ↦ rw (e, check_viewer) (rw f (ticking.utc_page s.outer))
                | inr (target_id, f) ↦ rw (e, check_viewer) (rw f (ticking.utc_page s.outer))
              ]
        ]

    open_viewer_utc :
        (challenge_id : String) (s t : Worker O) (u : Unit {0})
        → open_viewer office settings challenge_id s ≡ (ok u, t)
        → suc (ticking.utc s.outer) ≤ ticking.utc t.outer
    unfolding open_viewer let_others
    open_viewer_utc challenge_id s t u e =
        after_bound ticking.utc (open_viewer office settings challenge_id) s t (ok u) _
          (ticking.utc_others s.outer) e

    -- `_wait_for_interactive` ends within more rounds than the challenge has microseconds to live.
    pub wait_for_interactive-Settled :
        (rounds : ℕ) (job_id service_id kind : String) (result : AcquisitionResult)
        → settings.challenge_ttl < rounds
        → Settled (wait_for_interactive office settings rounds job_id service_id kind result)
    unfolding wait_for_interactive
    wait_for_interactive-Settled zero job_id service_id kind result lt s =
        absurd (omega (arith, lt))
    wait_for_interactive-Settled (suc rounds) job_id service_id kind result lt s =
        Settles-bind _ _ s (read_job-Settled office settings job_id s) λ current s1 e1.
          Settles-bind _ _ s1 (new_challenge-Settled office settings current service_id kind _ s1)
            λ challenge s2 e2.
              Settles-bind _ _ s2 (check_viewer-Settled service_id s2) λ viewer_error s3 e3.
                Settles-option viewer_error s3
                  (λ code.
                    Settled-bind _ _ (set_intervention-Settled office settings job_id code _)
                      (λ u. Settled-pure false) s3)
                  (Settles-bind _ _ s3 (on_store-Settled office settings _ s3) λ u s4 e4.
                    Settles-bind _ _ s4 (open_viewer-Settled challenge.id s4) λ v s5 e5.
                      Settles-bind _ _ s5 (swap-Settled office settings _ _ _ _ s5) λ held s6 e6.
                        await_owner_enough held.id service_id challenge rounds s6 (
                          omega (
                            arith,
                            lt,
                            new_challenge-expiry current service_id kind _ s1 s2 challenge e2,
                            check_viewer_utc service_id s2 s3 viewer_error e3,
                            on_store_utc office settings ticking _ s3 s4 u e4,
                            open_viewer_utc challenge.id s4 s5 v e5,
                            swap_utc office settings ticking _ _ _ _ s5 s6 held e6,
                          )))
