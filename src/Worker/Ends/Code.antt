-- ===== src/Worker/Ends/Code.antt =====
-- `_wait_for_code` of cloud/src/workers/runner.py ends.
use get_receipt.Base.{
  ℕ, zero, suc, ◌+◌, ◌≤◌, ◌<◌, String, ◌≡◌, subst, ap, Result, ok, string_eq, nat_eq, arith,
}
use get_receipt.Base.Exec.{◌>>=◌}
use get_receipt.Jobs.Payload.{Fields}
use get_receipt.Jobs.Model.{Job, state_eq}
use get_receipt.Jobs.Store.Update.{Patch}
use get_receipt.Jobs.Inbox.{safe_identifier}
use get_receipt.Acquisition.Report.{AcquisitionResult}
use get_receipt.Worker.State.{
  Office, Settings, Worker, Trouble, let_others, reading, on_store, clock,
}
use get_receipt.Worker.Swaps.{swap}
use get_receipt.Worker.Waits.{wait_for_code}
use get_receipt.Worker.Ends.Settled.{
  Settled, Settles-bind, Settles-option, on_store-Settled, on_inbox-Settled, reading-Settled,
  read_job-Settled, swap-Settled, new_challenge-Settled,
}
use get_receipt.Worker.Ends.Ticking.{Ticking}
use get_receipt.Worker.Ends.Expiry.{others-By, register-By}
use get_receipt.Worker.Ends.Held.{
  Held, Step, on_inbox-ok, code_missing-Settled, code_received-Settled,
}
use get_receipt.Worker.Ends.Response.{await_response_enough}

module _ {O : Type 0} (office : Office O) (settings : Settings) (ticking : Ticking office) where
  -- After the registration of a challenge and the transition to the wait for it.
  swap-Step :
      (id key : String) (safe : safe_identifier id ≡ ok key) (b : ℕ) (job : Job) (patch : Patch)
      (event_type : String) (payload : Fields) (s t : Worker O) (u : Job)
      → Held office settings ticking id key safe b s
      → swap office settings job patch event_type payload s ≡ (ok u, t)
      → Step office settings ticking id key safe b s t
  unfolding swap ◌>>=◌ clock on_store let_others
  swap-Step id key safe b job patch event_type payload s t u h e =
      subst
        (λ (p : Result Trouble Job × Worker O). Step office settings ticking id key safe b s p.1) e
        (record {
          held = others-By office ticking (office.now s.outer).1 s.common key b h;
          later =
              omega
                (arith, ticking.uptime_now s.outer, ticking.uptime_others (office.now s.outer).1);
        })

  -- A reading, and the clock behind the next method of the inbox.
  read_before :
      (s t u : Worker O) (n : ℕ)
      → reading office s ≡ (ok n, t)
      → (let_others office t).outer ≡ u.outer
      → n ≤ ticking.uptime u.outer
  unfolding reading let_others
  read_before s t u n e f =
      let same : (office.monotonic s.outer).0 ≡ n = cc e in
      let left : (office.monotonic s.outer).1 ≡ t.outer =
        ap (λ (p : Result Trouble ℕ × Worker O). p.1.outer) e in
      omega (
        arith,
        same,
        ap ticking.uptime left,
        ap ticking.uptime f,
        ticking.after_monotonic s.outer,
        ticking.uptime_others t.outer,
      )

  -- `_wait_for_code` ends within more rounds than the challenge has microseconds to live.
  pub wait_for_code-Settled :
      (rounds : ℕ) (job_id service_id : String) (result : AcquisitionResult)
      → settings.challenge_ttl < rounds
      → Settled (wait_for_code office settings rounds job_id service_id result)
  unfolding wait_for_code
  wait_for_code-Settled zero job_id service_id result lt s = absurd (omega (arith, lt))
  wait_for_code-Settled (suc rounds) job_id service_id result lt s =
      Settles-bind _ _ s (read_job-Settled office settings job_id s) λ current s1 e1.
        Settles-bind _ _ s1 (new_challenge-Settled office settings current service_id _ _ s1)
          λ challenge s2 e2. Settles-bind _ _ s2 (on_store-Settled office settings _ s2) λ u s3 e3.
            Settles-bind _ _ s3 (reading-Settled office settings s3) λ now s4 e4.
              Settles-bind _ _ s4 (on_inbox-Settled office settings _ s4) λ v s5 e5.
                let (ran, outer) = on_inbox-ok office settings _ s4 s5 v e5 in
                let (key, safe, by) =
                  register-By now settings.challenge_ttl challenge.id settings.owner_id _ _ v ran in
                Settles-bind _ _ s5 (swap-Settled office settings _ _ _ _ s5) λ held s6 e6.
                  let p = swap-Step challenge.id key safe _ _ _ _ _ s5 s6 held by e6 in
                  Settles-bind _ _ s6
                    (await_response_enough office settings ticking challenge.id key safe
                      (now + settings.challenge_ttl) rounds s6 p.held
                      (omega (arith, lt, read_before s3 s4 s5 now e4 outer, p.later)))
                    λ response s7 e7.
                      Settles-option response s7
                        (λ value.
                          code_received-Settled office settings held.id service_id challenge.id
                            value s7)
                        (code_missing-Settled office settings held.id challenge.id s7)
