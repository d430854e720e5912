-- ===== src/MailCodes/Trusted.antt =====
-- The origin of the codes that cloud/src/automation/mail_codes.py reads.
use get_receipt.Base.{
  ℕ, zero, suc, ◌+◌, ◌-◌, ◌≤◌, String, Bool, true, false, not, List, [], ◌∷◌, ◌≡◌, ◌⊎◌, inl, inr,
  refl, subst, if◌then◌else◌, string_eq, ok, All, branches, arith,
}
use get_receipt.Base.Text.{is_empty}
use get_receipt.Base.Exec.{◌>>=◌}
use get_receipt.Base.Exec.Reports.{Reports, OutcomeOf, Reports-bind, Reports-pure}
use get_receipt.MailCodes.{Texts, Message, MailCodeSource}
use get_receipt.MailCodes.Search.{Mailbox, Reader, Read, call, search, or_text}
use get_receipt.MailCodes.Search.Real.{Delivers, search-Finds}
use get_receipt.MailCodes.Reader.{
  Sight, skipped, fresh, recent, old, sight, Found, retire, read_messages, scan, read_codes,
  fall_back, is_over, cut, end_round, judge_round, wait_rounds, wait_for_code, clock_skew,
  fallback_max_age, no_sender_grace,
}
use get_receipt.MailCodes.Sent.{Sent, Good, Good-since, Honest, sight-Honest}

module _ (texts : Texts) (source : MailCodeSource) (Real : Message → Type 0) {W : Type 0}
    (mailbox : Mailbox W) where
  abbrev GoodFound : ℕ → ℕ → Found → Type 0
  GoodFound threshold cutoff found =
      Good texts source Real threshold found.fresh_code
      × Good texts source Real cutoff found.recent_code

  read_messages-Good :
      (threshold cutoff : ℕ) (ms : List Message) (newest : String) (seen : Bool) (s : Reader W)
      → All Real ms
      → Good texts source Real cutoff newest
      → GoodFound threshold cutoff
          (read_messages texts mailbox source threshold cutoff ms newest seen s).0
  unfolding read_messages
  read_messages-Good threshold cutoff [] newest seen s rs g = (inl refl, g)
  read_messages-Good threshold cutoff (m ∷ ms) newest seen s (r, rs) g =
      go (sight texts source threshold cutoff m)
        (sight-Honest texts source Real threshold cutoff m r)
        (λ newest' seen' s' g'. read_messages-Good threshold cutoff ms newest' seen' s' rs g')
    where
      go :
          (i : Sight)
          → Honest texts source Real threshold cutoff i
          → ((newest' : String) (seen' : Bool) (s' : Reader W)
              → Good texts source Real cutoff newest'
              → GoodFound threshold cutoff
                  (read_messages texts mailbox source threshold cutoff ms newest' seen' s').0)
          → GoodFound threshold cutoff
              (elim i as (λ _. Found × Reader W) [
                | skipped ↦ read_messages texts mailbox source threshold cutoff ms newest seen s
                | old code ↦ read_messages texts mailbox source threshold cutoff ms newest true s
                | recent code ↦
                    if is_empty newest
                    then read_messages texts mailbox source threshold cutoff ms code true
                        (record s { pending_fallback_id = m.id })
                    else read_messages texts mailbox source threshold cutoff ms newest true s
                | fresh code ↦ (
                  record { fresh_code = code; recent_code = newest; seen_sender = true },
                  retire texts mailbox m.id s,
                )
              ]).0
      go skipped h k = k newest seen s g
      go (old code) h k = k newest true s g
      go (recent code) h k =
          branches (λ (p : Found × Reader W). GoodFound threshold cutoff p.0) (is_empty newest) _ _
            (λ _. k code true _ (inr h)) (λ _. k newest true s g)
      go (fresh code) h k = (inr h, g)

  module _ (delivers : Delivers Real mailbox) (earliest : ℕ)
      (clock : (w : W) → earliest ≤ (mailbox.now w).0) where
    abbrev Yields : {A : Type 0} → (A → Type 0) → Read W A → Reader W → Type 0
    Yields Q m s = Reports m s (λ a t. Q a) (λ e t. Unit)

    abbrev oldest : ℕ
    oldest = earliest - fallback_max_age

    -- A call that leaves the messages alone, and what follows it.
    call-Yields :
        {A B : Type 0} {Q : B → Type 0} (f : W → A × W) (k : A → Read W B) (s : Reader W)
        → Yields Q (k (f s.world).0) (record s { world = (f s.world).1 })
        → Yields Q (call mailbox f >>= k) s
    unfolding ◌>>=◌
    call-Yields f k s y = record { at = y.at }

    scan-Good :
        (threshold : ℕ) (ms : List Message) (now : ℕ) (s : Reader W)
        → All Real ms
        → earliest ≤ now
        → Yields (GoodFound threshold oldest) (scan texts mailbox source threshold ms now) s
    scan-Good threshold ms now s rs le =
        let cutoff = now - fallback_max_age in
        let (g, h) = read_messages-Good threshold cutoff ms "" false s rs (inl refl) in
        record { at = (g, Good-since texts source Real oldest cutoff _ (omega (arith, le)) h) }

    read_codes-Good :
        (threshold : ℕ) (s : Reader W)
        → Yields (GoodFound threshold oldest) (read_codes texts mailbox source threshold) s
    unfolding read_codes
    read_codes-Good threshold s =
        Reports-bind (search mailbox source) _ s (search-Finds Real mailbox delivers source s)
          (λ ms t rs.
            call-Yields mailbox.now (scan texts mailbox source threshold ms) t
              (scan-Good threshold ms _ _ rs (clock t.world)))

    -- A code that a wait may return.
    abbrev Returned : ℕ → String → Type 0
    Returned threshold code =
        Sent texts source Real threshold code ⊎ Sent texts source Real oldest code

    is_filled :
        (code : String) {since : ℕ}
        → not (is_empty code) ≡ true
        → Good texts source Real since code
        → Sent texts source Real since code
    is_filled code e (inl f) = ground (arith, e, f)
    is_filled code e (inr s) = s

    fall_back-Good :
        (threshold : ℕ) (fallback : String) (s : Reader W)
        → Good texts source Real oldest fallback
        → Yields (Returned threshold) (fall_back texts mailbox fallback) s
    unfolding fall_back
    fall_back-Good threshold fallback s (inl e) = record { at = rw e tt }
    fall_back-Good threshold fallback s (inr g) = record { at = rw g.filled (inr g) }

    or_text-Good :
        (since : ℕ) (a b : String)
        → Good texts source Real since a
        → Good texts source Real since b
        → Good texts source Real since (or_text a b)
    or_text-Good since a b g h =
        branches (Good texts source Real since) (is_empty a) _ _ (λ _. h) (λ _. g)

    module _ (threshold poll no_sender_deadline : ℕ) (again : ℕ → String → Read W String)
        (later : (deadline : ℕ) (fallback : String) (s : Reader W)
          → Good texts source Real oldest fallback
          → Yields (Returned threshold) (again deadline fallback) s) where
      end_round-Good :
          (round_started deadline : ℕ) (fallback : String) (now : ℕ) (s : Reader W)
          → Good texts source Real oldest fallback
          → Yields
              (Returned threshold)
              (end_round texts mailbox poll round_started again deadline fallback now)
              s
      unfolding end_round
      end_round-Good round_started deadline fallback now s g =
          branches (λ (m : Read W String). Yields (Returned threshold) m s)
            (is_over poll round_started now deadline) _ _
            (λ _. fall_back-Good threshold fallback s g)
            (λ _.
              call-Yields (λ w. (tt {0}, mailbox.sleep poll w)) (λ _. again deadline fallback) s
                (later deadline fallback _ g))

      judge_round-Good :
          (round_started deadline : ℕ) (fallback : String) (found : Found) (s : Reader W)
          → Good texts source Real oldest fallback
          → GoodFound threshold oldest found
          → Yields
              (Returned threshold)
              (judge_round texts mailbox poll no_sender_deadline round_started again deadline
                fallback found)
              s
      unfolding judge_round
      judge_round-Good round_started deadline fallback found s g (f, r) =
          branches (λ (m : Read W String). Yields (Returned threshold) m s)
            (not (is_empty found.fresh_code)) _ _
            (λ e. Reports-pure found.fresh_code s (inl (is_filled found.fresh_code e f)))
            (λ e.
              let next =
                end_round texts mailbox poll round_started again
                  (cut found.seen_sender deadline no_sender_deadline)
                  (or_text fallback found.recent_code) in
              call-Yields mailbox.now next s (
                end_round-Good round_started _ _ _ _
                  (or_text-Good oldest fallback found.recent_code g r)))

    wait_rounds-Good :
        (rounds threshold poll no_sender_deadline deadline : ℕ) (fallback : String) (s : Reader W)
        → Good texts source Real oldest fallback
        → Yields
            (Returned threshold)
            (wait_rounds texts mailbox rounds source threshold poll no_sender_deadline deadline
              fallback)
            s
    unfolding wait_rounds
    wait_rounds-Good zero threshold poll no_sender_deadline deadline fallback s g = record {
      at = tt;
    }
    wait_rounds-Good (suc rounds) threshold poll no_sender_deadline deadline fallback s g =
        let again = wait_rounds texts mailbox rounds source threshold poll no_sender_deadline in
        let judge : ℕ → Found → Read W String = λ round_started.
          judge_round texts mailbox poll no_sender_deadline round_started again deadline fallback in
        call-Yields mailbox.now
          (λ round_started. read_codes texts mailbox source threshold >>= judge round_started) s
          (Reports-bind (read_codes texts mailbox source threshold) (judge _) _
            (read_codes-Good threshold _)
            (λ found u fr.
              judge_round-Good threshold poll no_sender_deadline again
                (λ deadline' fallback' t h.
                  wait_rounds-Good rounds threshold poll no_sender_deadline deadline' fallback' t h)
                _ deadline fallback found u g fr))

    wait_for_code-Good :
        (rounds requested_after timeout poll : ℕ) (s : Reader W)
        → Yields
            (Returned (requested_after - clock_skew))
            (wait_for_code texts mailbox rounds source requested_after timeout poll)
            s
    unfolding wait_for_code
    wait_for_code-Good rounds requested_after timeout poll s =
        call-Yields mailbox.now
          (λ started_at.
            wait_rounds texts mailbox rounds source (requested_after - clock_skew) poll
              (started_at + no_sender_grace) (started_at + timeout) "")
          s (wait_rounds-Good rounds (requested_after - clock_skew) poll _ _ "" _ (inl refl))

    -- When every message of the mailbox is among some messages, and the clock never reads an
    -- instant before an earliest one, a code that a wait returns is not empty and is carried by
    -- one of these messages, sent from a domain of the source or below it, and received not
    -- before two minutes before the request or not before half an hour before the earliest
    -- instant.
    pub wait_for_code-Sent :
        (rounds requested_after timeout poll : ℕ) (s : Reader W) (code : String) (t : Reader W)
        → wait_for_code texts mailbox rounds source requested_after timeout poll s ≡ (ok code, t)
        → Sent texts source Real (requested_after - clock_skew) code
          ⊎ Sent texts source Real (earliest - fallback_max_age) code
    wait_for_code-Sent rounds requested_after timeout poll s code t h =
        subst
          (OutcomeOf (λ c (u : Reader W). Returned (requested_after - clock_skew) c)
            (λ e u. Unit {0}))
          h (wait_for_code-Good rounds requested_after timeout poll s).at
