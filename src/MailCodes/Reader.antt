-- ===== src/MailCodes/Reader.antt =====
-- The wait for a code of cloud/src/automation/mail_codes.py.
-- The wait is cut after a number of rounds, which is none of the code's outcomes.
use get_receipt.Base.{
  ℕ, zero, suc, ◌+◌, ◌-◌, String, Bool, true, false, not, ◌||◌, none, some, List, [], ◌∷◌,
  if◌then◌else◌, ok, err, leb, ltb,
}
use get_receipt.Base.Text.{is_empty}
use get_receipt.Base.Exec.{pure, lift, ◌>>=◌}
use get_receipt.MailCodes.{
  Texts, Message, MailCodeSource, sender_matches, parse_timestamp, extract_code,
}
use get_receipt.MailCodes.Search.{
  Mailbox, Reader, Read, unavailable, out_of_rounds, call, search, or_text,
}

-- `_CLOCK_SKEW`, `_FALLBACK_MAX_AGE` and `_NO_SENDER_GRACE_SECONDS`.
abbrev pub clock_skew : ℕ
clock_skew = 120000000

abbrev pub fallback_max_age : ℕ
fallback_max_age = 1800000000

abbrev pub no_sender_grace : ℕ
no_sender_grace = 20000000

-- What a message is to a round.
pub data Sight : Type 0 where
  skipped : Sight
  fresh recent old : String → Sight

-- What a round found: a fresh code, a recent one, and whether the provider mails codes here at all.
pub record Found : Type 0 where
  pub fresh_code : String
  pub recent_code : String
  pub seen_sender : Bool

module _ (texts : Texts) (source : MailCodeSource) (threshold cutoff : ℕ) where
  abbrev pub by_age : String → ℕ → Sight
  by_age code received =
      if leb threshold received
      then fresh code
      else if leb cutoff received
      then recent code
      else old code

  -- The tests of `_read_codes` on one message.
  unfoldable pub sight : Message → Sight
  unfolding parse_timestamp extract_code
  sight message =
      if not (sender_matches texts source message)
      then skipped
      else elim (parse_timestamp texts message.received) [
        | none ↦ skipped
        | some received ↦
            if is_empty (extract_code texts source message)
            then skipped
            else by_age (extract_code texts source message) received
      ]

-- A round costs what it took, so the next one starts only when it can end by the deadline:
-- `now + poll + (now - round_started) > deadline` ends the wait.
abbrev pub is_over : ℕ → ℕ → ℕ → ℕ → Bool
is_over poll round_started now deadline =
    leb deadline now || ltb (deadline + round_started) (now + poll + now)

abbrev pub cut : Bool → ℕ → ℕ → ℕ
cut true deadline no_sender_deadline = deadline
cut false deadline no_sender_deadline =
    if leb deadline no_sender_deadline then deadline else no_sender_deadline

module _ {W : Type 0} (texts : Texts) (mailbox : Mailbox W) where
  -- `_retire_message`, which swallows every exception.
  unfoldable pub retire : String → Reader W → Reader W
  retire message_id s =
      if is_empty message_id
      then s
      else (let (r, w) = mailbox.access_token s.world in
          elim r [
            | err e ↦ record s { world = w }
            | ok token ↦
                let (marked, w') = mailbox.mark_read token message_id w in
                record s {
                  world = if marked then (mailbox.move_away token message_id w').1 else w';
                }
          ])

  -- The loop of `_read_codes`.
  unfoldable pub read_messages :
      MailCodeSource → ℕ → ℕ → List Message → String → Bool → Reader W → Found × Reader W
  unfolding sight retire
  read_messages source threshold cutoff [] newest seen s =
      (record { fresh_code = ""; recent_code = newest; seen_sender = seen }, s)
  read_messages source threshold cutoff (message ∷ messages) newest seen s =
      let rest = read_messages source threshold cutoff messages in
      elim (sight texts source threshold cutoff message) [
        | skipped ↦ rest newest seen s
        | old code ↦ rest newest true s
        | recent code ↦
            if is_empty newest
            then rest code true (record s { pending_fallback_id = message.id })
            else rest newest true s
        | fresh code ↦ (
          record { fresh_code = code; recent_code = newest; seen_sender = true },
          retire message.id s,
        )
      ]

  abbrev pub scan : MailCodeSource → ℕ → List Message → ℕ → Read W Found
  scan source threshold messages now s =
      let (found, t) =
        read_messages source threshold (now - fallback_max_age) messages "" false s in
      (ok found, t)

  -- `_read_codes`.
  unfoldable pub read_codes : MailCodeSource → ℕ → Read W Found
  unfolding read_messages search ◌>>=◌
  read_codes source threshold = do
    messages ← search mailbox source
    now ← call mailbox mailbox.now
    scan source threshold messages now

  -- The end of a wait without a fresh code.
  unfoldable pub fall_back : String → Read W String
  unfolding retire
  fall_back fallback s = if is_empty fallback then (err unavailable, s) else (
    ok fallback,
    if is_empty s.pending_fallback_id
        then s
        else record (retire s.pending_fallback_id s) { pending_fallback_id = "" },
  )

  -- The end of a round without a fresh code, and the rounds `again`, from a deadline and a fallback.
  unfoldable pub end_round : ℕ → ℕ → (ℕ → String → Read W String) → ℕ → String → ℕ → Read W String
  unfolding fall_back ◌>>=◌
  end_round poll round_started again deadline fallback now =
      if is_over poll round_started now deadline
      then fall_back fallback
      else (call mailbox (λ w. (tt {0}, mailbox.sleep poll w)) >>= λ _. again deadline fallback)

  -- What follows the reading of a round.
  unfoldable pub judge_round :
      ℕ → ℕ → ℕ → (ℕ → String → Read W String) → ℕ → String → Found → Read W String
  unfolding end_round ◌>>=◌
  judge_round poll no_sender_deadline round_started again deadline fallback found =
      if not (is_empty found.fresh_code)
      then pure found.fresh_code
      else (call mailbox mailbox.now
          >>= end_round poll round_started again (cut found.seen_sender deadline no_sender_deadline)
              (or_text fallback found.recent_code))

  -- The loop of `wait_for_code`.
  unfoldable pub wait_rounds : ℕ → MailCodeSource → ℕ → ℕ → ℕ → ℕ → String → Read W String
  unfolding read_codes judge_round ◌>>=◌
  wait_rounds zero source threshold poll no_sender_deadline deadline fallback =
      lift (err out_of_rounds)
  wait_rounds (suc rounds) source threshold poll no_sender_deadline deadline fallback =
      let again = wait_rounds rounds source threshold poll no_sender_deadline in
      (do
        round_started ← call mailbox mailbox.now
        found ← read_codes source threshold
        judge_round poll no_sender_deadline round_started again deadline fallback found)

  -- `wait_for_code`.
  unfoldable pub wait_for_code : ℕ → MailCodeSource → ℕ → ℕ → ℕ → Read W String
  unfolding wait_rounds ◌>>=◌
  wait_for_code rounds source requested_after timeout poll = do
    started_at ← call mailbox mailbox.now
    wait_rounds rounds source (requested_after - clock_skew) poll (started_at + no_sender_grace)
        (started_at + timeout) ""
