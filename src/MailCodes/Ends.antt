-- ===== src/MailCodes/Ends.antt =====
-- The loop of `wait_for_code` of cloud/src/automation/mail_codes.py ends.
use get_receipt.Base.{
  ℕ, zero, suc, ◌+◌, ◌-◌, ◌*◌, ◌≤◌, ◌<◌, String, Bool, false, not, ◌≡◌, ◌≢◌, nat_eq, Result, ok,
  err, branches, arith,
}
use get_receipt.Base.Text.{is_empty}
use get_receipt.Base.Exec.{continue, ◌>>=◌}
use get_receipt.MailCodes.{Texts, MailCodeSource}
use get_receipt.MailCodes.Search.{Mailbox, Reader, Read, Fault, out_of_rounds, call, or_text}
use get_receipt.MailCodes.Reader.{
  Found, read_codes, fall_back, is_over, cut, end_round, judge_round, wait_rounds, wait_for_code,
  clock_skew, no_sender_grace,
}
use get_receipt.MailCodes.Timely.Reads.{read_codes-Timely}
use get_receipt.MailCodes.Timely.{Forward, Coded, Timely, le_trans}

module _ {W : Type 0} (texts : Texts) (mailbox : Mailbox W) (clock : W → ℕ)
    (forward : Forward mailbox clock) where
  fall_back-Coded :
      (fallback : String) (s : Reader W) → Coded (fall_back texts mailbox fallback s).0
  unfolding fall_back
  fall_back-Coded fallback s =
      branches (λ (p : Result Fault String × Reader W). Coded p.0) (is_empty fallback) _ _
        (λ _ h. cc h) (λ _ h. cc h)

  room :
      (poll start now deadline : ℕ)
      → is_over poll start now deadline ≡ false
      → start ≤ now
      → now + poll ≤ deadline
  room poll start now deadline h le = ground (arith, h, le)

  cut-le : (seen : Bool) (deadline other : ℕ) → cut seen deadline other ≤ deadline
  cut-le seen deadline other = ground arith

  module _ (poll no_sender_deadline : ℕ) (again : ℕ → String → Read W String) where
    end_round-Coded :
        (start deadline : ℕ) (fallback : String) (now : ℕ) (s : Reader W)
        → start ≤ now
        → now ≤ clock s.world
        → ((t : Reader W)
            → now + poll ≤ deadline
            → now + poll ≤ clock t.world
            → Coded (again deadline fallback t).0)
        → Coded (end_round texts mailbox poll start again deadline fallback now s).0
    unfolding end_round
    end_round-Coded start deadline fallback now s le lw k =
        branches (λ (m : Read W String). Coded (m s).0) (is_over poll start now deadline) _ _
          (λ _. fall_back-Coded fallback s)
          (λ e.
            k _ (room poll start now deadline e le)
              (omega (arith, lw, forward.after_sleep poll s.world)))

    judge_round-Coded :
        (start deadline : ℕ) (fallback : String) (found : Found) (s : Reader W)
        → start ≤ clock s.world
        → ((now deadline' : ℕ) (fallback' : String) (t : Reader W)
            → deadline' ≤ deadline
            → clock s.world ≤ now
            → now + poll ≤ deadline'
            → now + poll ≤ clock t.world
            → Coded (again deadline' fallback' t).0)
        → Coded
            (judge_round texts mailbox poll no_sender_deadline start again deadline fallback found
              s).0
    unfolding judge_round
    judge_round-Coded start deadline fallback found s le k =
        let now = (mailbox.now s.world).0 in
        let b = forward.before_now s.world in
        branches (λ (m : Read W String). Coded (m s).0) (not (is_empty found.fresh_code)) _ _
          (λ _ h. cc h)
          (λ _.
            end_round-Coded start (cut found.seen_sender deadline no_sender_deadline)
              (or_text fallback found.recent_code) now _ (le_trans start (clock s.world) now le b)
              (forward.after_now s.world)
              (λ t. k now _ _ t (cut-le found.seen_sender deadline no_sender_deadline) b))

  bind-Coded :
      {A B : Type 0} (m : Read W A) (f : A → Read W B) (s : Reader W)
      → Timely texts mailbox clock forward (m s) s
      → ((a : A) (t : Reader W) → clock s.world ≤ clock t.world → Coded (f a t).0)
      → Coded ((m >>= f) s).0
  unfolding ◌>>=◌
  bind-Coded {A = A} {B = B} m f s h k = go (m s) h
    where
      go :
          (p : Result Fault A × Reader W)
          → Timely texts mailbox clock forward p s
          → Coded (continue p.0 f p.1).0
      go (ok a, t) (n, le) = k a t le
      go (err e, t) (n, le) = λ h. n (cc h)

  call-Coded :
      {A B : Type 0} (f : W → A × W) (k : A → Read W B) (s : Reader W)
      → Coded (k (f s.world).0 (record s { world = (f s.world).1 })).0
      → Coded ((call mailbox f >>= k) s).0
  unfolding ◌>>=◌
  call-Coded f k s n = n

  module _ (source : MailCodeSource) (threshold poll no_sender_deadline : ℕ) where
    -- A round is over, or leaves the next one a poll less.
    round-Coded :
        (rounds deadline : ℕ) (fallback : String) (s : Reader W)
        → ((now deadline' : ℕ) (fallback' : String) (t : Reader W)
            → deadline' ≤ deadline
            → clock s.world ≤ now
            → now + poll ≤ deadline'
            → now + poll ≤ clock t.world
            → Coded
                (wait_rounds texts mailbox rounds source threshold poll no_sender_deadline deadline'
                  fallback' t).0)
        → Coded
            (wait_rounds texts mailbox
              (suc rounds)
              source
              threshold
              poll
              no_sender_deadline
              deadline
              fallback
              s).0
    unfolding wait_rounds
    round-Coded rounds deadline fallback s k =
        let again = wait_rounds texts mailbox rounds source threshold poll no_sender_deadline in
        let judge : ℕ → Found → Read W String = λ start.
          judge_round texts mailbox poll no_sender_deadline start again deadline fallback in
        let start = (mailbox.now s.world).0 in
        call-Coded mailbox.now (λ start. read_codes texts mailbox source threshold >>= judge start)
          s
          (bind-Coded (read_codes texts mailbox source threshold) (judge start) _
            (read_codes-Timely texts mailbox clock forward source threshold _)
            (λ found u le.
              judge_round-Coded poll no_sender_deadline again start deadline fallback found u
                (le_trans start _ (clock u.world) (forward.after_now s.world) le)
                (λ now deadline' fallback' t ld ln.
                  k now deadline' fallback' t ld (
                    omega (arith, ln, le, forward.before_now s.world, forward.after_now s.world)))))

    wait_rounds-Coded :
        (rounds deadline : ℕ) (fallback : String) (s : Reader W)
        → deadline < clock s.world + (poll + rounds * poll)
        → Coded
            (wait_rounds texts mailbox
              (suc rounds)
              source
              threshold
              poll
              no_sender_deadline
              deadline
              fallback
              s).0
    wait_rounds-Coded zero deadline fallback s enough =
        round-Coded zero deadline fallback s
          (λ now deadline' fallback' t ld ln lr lt. absurd (omega (arith, enough, ld, ln, lr)))
    wait_rounds-Coded (suc rounds) deadline fallback s enough =
        round-Coded (suc rounds) deadline fallback s (λ now deadline' fallback' t ld ln lr lt.
          wait_rounds-Coded rounds deadline' fallback' t (omega (arith, enough, ld, ln, lt)))

  -- When the clock never goes back and a sleep takes its length, a wait of more rounds than the polls
  -- that fit into its time returns a code or raises one of the code's exceptions.
  pub wait_for_code_enough :
      (rounds : ℕ) (source : MailCodeSource) (requested_after timeout poll : ℕ) (s : Reader W)
      → timeout < poll + rounds * poll
      → (wait_for_code texts mailbox (suc rounds) source requested_after timeout poll s).0
        ≢ err out_of_rounds
  unfolding wait_for_code
  wait_for_code_enough rounds source requested_after timeout poll s enough =
      call-Coded mailbox.now
        (λ started_at.
          wait_rounds texts mailbox (suc rounds) source (requested_after - clock_skew) poll
            (started_at + no_sender_grace) (started_at + timeout) "")
        s
        (wait_rounds-Coded source (requested_after - clock_skew) poll _ rounds _ "" _
          (omega (arith, enough, forward.after_now s.world)))
