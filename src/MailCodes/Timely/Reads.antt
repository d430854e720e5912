-- ===== src/MailCodes/Timely/Reads.antt =====
-- The time that a round of cloud/src/automation/mail_codes.py takes.
use get_receipt.Base.{
  ℕ, ◌≤◌, String, Bool, true, false, List, [], ◌∷◌, if◌then◌else◌, nat_eq, Result, ok, err,
  branches,
}
use get_receipt.Base.Text.{is_empty}
use get_receipt.Base.Exec.{◌>>=◌}
use get_receipt.MailCodes.{Texts, Message, MailCodeSource}
use get_receipt.MailCodes.Search.{Mailbox, Reader, call, search}
use get_receipt.MailCodes.Reader.{
  Sight, skipped, fresh, recent, old, sight, Found, retire, read_messages, scan, read_codes,
}
use get_receipt.MailCodes.Timely.{
  Forward, Timely, le_trans, le_refl, then-Timely, call-Timely, search-Timely,
}

module _ {W : Type 0} (texts : Texts) (mailbox : Mailbox W) (clock : W → ℕ)
    (forward : Forward mailbox clock) where
  retire-later :
      (id : String) (s : Reader W) → clock s.world ≤ clock (retire texts mailbox id s).world
  unfolding retire
  retire-later id s =
      branches (λ (t : Reader W). clock s.world ≤ clock t.world) (is_empty id) _ _
        (λ _. le_refl (clock s.world))
        (λ _. go (mailbox.access_token s.world) (forward.after_token s.world))
    where
      marked :
          (token : String) (q : Bool × W)
          → clock s.world ≤ clock q.1
          → clock s.world ≤ clock (if q.0 then (mailbox.move_away token id q.1).1 else q.1)
      marked token (moved, w) le =
          branches (λ (v : W). clock s.world ≤ clock v) moved _ _
            (λ _. le_trans (clock s.world) (clock w) _ le (forward.after_move token id w)) (λ _. le)

      go :
          (p : Result String String × W)
          → clock s.world ≤ clock p.1
          → clock s.world
            ≤ clock
                (elim p.0 as (λ _. Reader W) [
                  | err e ↦ record s { world = p.1 }
                  | ok token ↦
                      let (moved, w') = mailbox.mark_read token id p.1 in
                      record s { world = if moved then (mailbox.move_away token id w').1 else w' }
                ]).world
      go (err e, w) le = le
      go (ok token, w) le =
          marked token (mailbox.mark_read token id w)
            (le_trans (clock s.world) (clock w) _ le (forward.after_mark token id w))

  read_messages-later :
      (source : MailCodeSource) (threshold cutoff : ℕ) (ms : List Message) (newest : String)
      (seen : Bool) (s : Reader W)
      → clock s.world
        ≤ clock (read_messages texts mailbox source threshold cutoff ms newest seen s).1.world
  unfolding read_messages
  read_messages-later source threshold cutoff [] newest seen s = le_refl (clock s.world)
  read_messages-later source threshold cutoff (m ∷ ms) newest seen s =
      go (sight texts source threshold cutoff m)
        (λ newest' seen' s'. read_messages-later source threshold cutoff ms newest' seen' s')
    where
      rest : String → Bool → Reader W → Found × Reader W
      rest = read_messages texts mailbox source threshold cutoff ms

      go :
          (i : Sight)
          → ((newest' : String) (seen' : Bool) (s' : Reader W)
              → clock s'.world ≤ clock (rest newest' seen' s').1.world)
          → clock s.world
            ≤ clock
                (elim i as (λ _. Found × Reader W) [
                  | skipped ↦ rest newest seen s
                  | old code ↦ rest newest true s
                  | recent code ↦
                      if is_empty newest
                      then rest code true (record s { pending_fallback_id = m.id })
                      else rest newest true s
                  | fresh code ↦ (
                    record { fresh_code = code; recent_code = newest; seen_sender = true },
                    retire texts mailbox m.id s,
                  )
                ]).1.world
      go skipped k = k newest seen s
      go (old code) k = k newest true s
      go (recent code) k =
          branches (λ (p : Found × Reader W). clock s.world ≤ clock p.1.world) (is_empty newest) _ _
            (λ _. k code true (record s { pending_fallback_id = m.id })) (λ _. k newest true s)
      go (fresh code) k = retire-later m.id s

  pub read_codes-Timely :
      (source : MailCodeSource) (threshold : ℕ) (s : Reader W)
      → Timely texts mailbox clock forward (read_codes texts mailbox source threshold s) s
  unfolding read_codes
  read_codes-Timely source threshold s =
      then-Timely texts mailbox clock forward (search mailbox source)
        (λ ms. call mailbox mailbox.now >>= scan texts mailbox source threshold ms) s
        (search-Timely texts mailbox clock forward source s)
        (λ ms t.
          then-Timely texts mailbox clock forward (call mailbox mailbox.now)
            (scan texts mailbox source threshold ms) t
            (call-Timely texts mailbox clock forward mailbox.now t (
              le_trans (clock t.world) _ _ (forward.before_now t.world)
                (forward.after_now t.world)))
            (λ now u. ((λ h. cc h), read_messages-later source threshold _ ms "" false u)))
