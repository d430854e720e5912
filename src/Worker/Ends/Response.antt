-- ===== src/Worker/Ends/Response.antt =====
-- The loop of `_wait_for_code` of cloud/src/workers/runner.py ends.
use get_receipt.Base.{
  ℕ, zero, suc, ◌+◌, ◌≤◌, ◌<◌, String, none, some, ◌≡◌, refl, subst, ap, ◌∙◌, Result, ok, string_eq,
  nat_eq, arith,
}
use get_receipt.Jobs.Model.{state_eq}
use get_receipt.Jobs.Inbox.{
  Inbox, InboxError, Round, waiting, returned, safe_identifier, expires_of, is_pending, get_pending,
}
use get_receipt.Worker.State.{Office, Settings, Worker, Trouble, let_others, reading}
use get_receipt.Worker.Waits.{after_pass, await_response, lesser}
use get_receipt.Worker.Ends.Settled.{
  Settles, Settled-pure, Settles-cond, Settled-bind, Settles-bind, on_inbox-Settled,
  reading-Settled, is_stopped-Settled,
}
use get_receipt.Worker.Ends.Ticking.{Ticking}
use get_receipt.Worker.Ends.Expiry.{is_pending-By, get_pending-By}
use get_receipt.Worker.Ends.Held.{
  Held, Waited, others_Held, is_stopped-Step, reading-Held, looked, wait_pass-Waited,
  wait_pass-Settled,
}

module _ {O : Type 0} (office : Office O) (settings : Settings) (ticking : Ticking office)
    (challenge_id key : String) (safe : safe_identifier challenge_id ≡ ok key) (b : ℕ) where
  abbrev pub Waits : Worker O → Type 0
  Waits s = Held office settings ticking challenge_id key safe b s

  abbrev pub up : Worker O → ℕ
  up s = ticking.uptime s.outer

  -- The bounded deadline of a wait.
  deadline_by : (expires other : ℕ) → expires ≤ b → lesser expires other ≤ b
  deadline_by expires other le = ground (arith, le)

  -- The expiry of the object that the wait holds.
  expires_by :
      (s3 s4 s5 : Worker O) (i start expires : ℕ)
      → Waits s3
      → get_pending challenge_id (let_others office s3).common.inbox ≡ ok i
      → (let_others office s3).common.inbox ≡ s4.common.inbox
      → reading office s4 ≡ (ok start, s5)
      → ◌≡◌ {A = Result InboxError ℕ}
          (ok (expires_of ((let_others office s5).common.inbox.objects i)))
          (ok expires)
      → expires ≤ b
  unfolding let_others reading
  expires_by s3 s4 s5 i start expires h found kept e5 e =
      let first =
        get_pending-By challenge_id key safe b (let_others office s3).common.inbox i
          (others_Held office settings ticking challenge_id key safe b s3 h) found in
      let same : s4.common.inbox ≡ s5.common.inbox =
        ap (λ (p : Result Trouble ℕ × Worker O). p.1.common.inbox) e5 in
      let moved = ap (λ (inbox : Inbox). expires_of (inbox.objects i)) (kept ∙ same) in
      let read : expires_of ((let_others office s5).common.inbox.objects i) ≡ expires = cc e in
      omega (arith, first, moved, read, ticking.expiries s5.outer s5.common i)

  -- Before a wait of `wait_and_consume`: the loop ends, or the wait is bounded and was not late.
  outside_Settles :
      (rounds : ℕ) (s : Worker O)
      → Waits s
      → ((t : Worker O) (deadline i : ℕ)
          → deadline ≤ b
          → Waits t
          → suc (up s) < b
          → 3 + up s ≤ up t
          → Settles (await_response office settings rounds challenge_id (some (deadline, i))) t)
      → Settles (await_response office settings (suc rounds) challenge_id none) s
  unfolding await_response
  outside_Settles rounds s h k =
      Settles-bind _ _ s (is_stopped-Settled office settings s) λ stopped s1 e1.
        let p1 =
          is_stopped-Step office settings ticking challenge_id key safe b s s1 stopped h e1 in
        Settles-cond stopped s1 (λ e. Settled-pure none s1)
          (λ e. Settles-bind _ _ s1 (reading-Settled office settings s1) λ now s2 e2.
            let p2 =
              reading-Held office settings ticking challenge_id key safe b s1 s2 now p1.held e2 in
            Settles-bind _ _ s2 (on_inbox-Settled office settings _ s2) λ pending s3 e3.
              let p3 =
                looked office settings ticking challenge_id key safe b (is_pending now challenge_id)
                  s2 s3 pending p2.0 e3 in
              Settles-cond pending s3
                (λ e. Settles-bind _ _ s3 (on_inbox-Settled office settings _ s3) λ i s4 e4.
                  let p4 =
                    looked office settings ticking challenge_id key safe b
                      (get_pending challenge_id) s3 s4 i p3.0.held e4 in
                  Settles-bind _ _ s4 (reading-Settled office settings s4) λ start s5 e5.
                    let p5 =
                      reading-Held office settings ticking challenge_id key safe b s4 s5 start
                        p4.0.held e5 in
                    Settles-bind _ _ s5 (on_inbox-Settled office settings _ s5) λ expires s6 e6.
                      let p6 =
                        looked office settings ticking challenge_id key safe b
                          (λ inbox. ok (expires_of (inbox.objects i))) s5 s6 expires p5.0 e6 in
                      k s6 _ i
                        (deadline_by expires _
                          (expires_by s3 s4 s5 i start expires p3.0.held p4.1 p4.2 e5 p6.1))
                        p6.0.held
                        (omega (
                          arith,
                          p1.later,
                          p2.1,
                          is_pending-By challenge_id key safe now b
                              (let_others office s2).common.inbox
                              (others_Held office settings ticking challenge_id key safe b s2 p2.0)
                              (p3.1 ∙ ap (λ x. ok x) e),
                        ))
                        (omega (
                          arith, p1.later, p2.1, p2.2, p3.0.later, p4.0.later, p5.1, p5.2,
                          p6.0.later,
                        )))
                (λ e. Settled-pure none s3))

  -- In a wait of `wait_and_consume`.
  inside_Settles :
      (rounds deadline i : ℕ) (s : Worker O)
      → Waits s
      → ((t : Worker O)
          → up s < deadline
          → Waits t
          → suc (up s) ≤ up t
          → Settles (await_response office settings rounds challenge_id (some (deadline, i))) t)
      → ((t : Worker O)
          → Waits t
          → suc (up s) ≤ up t
          → Settles (await_response office settings rounds challenge_id none) t)
      → Settles (await_response office settings (suc rounds) challenge_id (some (deadline, i))) s
  unfolding await_response after_pass
  inside_Settles rounds deadline i s h wait leave =
      Settles-bind _ _ s (wait_pass-Settled office settings deadline i s) λ round t e.
        let w : Waited office settings ticking challenge_id key safe b deadline s (ok round, t) =
          subst (Waited office settings ticking challenge_id key safe b deadline s) e
            (wait_pass-Waited office settings ticking challenge_id key safe b deadline i s h) in
        after round t w
    where
      after :
          (round : Round) (t : Worker O)
          → Waited office settings ticking challenge_id key safe b deadline s (ok round, t)
          → Settles
              (after_pass office settings
                (await_response office settings rounds challenge_id)
                challenge_id
                (deadline, i)
                round)
              t
      after waiting t (p, early) = wait t (early refl) p.held p.later
      after (returned none) t (p, early) = leave t p.held p.later
      after (returned (some response)) t (p, early) =
          Settled-bind _ _ (on_inbox-Settled office settings _) (λ u. Settled-pure (some response))
            t

  -- The rounds that the bound leaves are enough, outside a wait of `wait_and_consume` and in one.
  abbrev pub Outside : ℕ → Type 0
  Outside rounds =
      (s : Worker O)
      → Waits s
      → b < up s + suc rounds
      → Settles (await_response office settings (suc rounds) challenge_id none) s

  abbrev Inside : ℕ → Type 0
  Inside rounds =
      (deadline i : ℕ) (s : Worker O)
      → deadline ≤ b
      → Waits s
      → b < up s + suc rounds
      → Settles
          (await_response office settings (suc (suc rounds)) challenge_id (some (deadline, i))) s

  outside_last : Outside zero
  outside_last s h lt =
      outside_Settles zero s h
        (λ t deadline i by held early later. absurd (omega (arith, lt, early)))

  outside_first : Outside (suc zero)
  outside_first s h lt =
      outside_Settles (suc zero) s h
        (λ t deadline i by held early later. absurd (omega (arith, lt, early)))

  outside_next : (rounds : ℕ) → Inside rounds → Outside (suc (suc rounds))
  outside_next rounds inner s h lt =
      outside_Settles (suc (suc rounds)) s h
        (λ t deadline i by held early later. inner deadline i t by held (omega (arith, lt, later)))

  within_last : Inside zero
  within_last deadline i s by h lt =
      inside_Settles (suc zero) deadline i s h
        (λ t early held later. absurd (omega (arith, by, early, lt)))
        (λ t held later. outside_last t held (omega (arith, lt, later)))

  within_next : (rounds : ℕ) → Inside rounds → Outside (suc rounds) → Inside (suc rounds)
  within_next rounds inner outer deadline i s by h lt =
      inside_Settles (suc (suc rounds)) deadline i s h
        (λ t early held later. inner deadline i t by held (omega (arith, lt, later)))
        (λ t held later. outer t held (omega (arith, lt, later)))

  within_both : (rounds : ℕ) → Inside rounds × Inside (suc rounds)
  within_both zero = (within_last, within_next zero within_last outside_first)
  within_both (suc rounds) =
      let (first, second) = within_both rounds in
      (second, within_next (suc rounds) second (outside_next rounds first))

  pub await_response_enough : (rounds : ℕ) → Outside rounds
  await_response_enough zero = outside_last
  await_response_enough (suc zero) = outside_first
  await_response_enough (suc (suc rounds)) = outside_next rounds (within_both rounds).0
