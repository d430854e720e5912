-- ===== src/Backup/Notices.antt =====
-- The fatal callback of cloud/src/workers/backup_lifecycle.py.
use get_receipt.Base.{
  ◌<◌, branches, arith, ℕ, suc, ◌+◌, ◌≤◌, ◌≡◌, refl, Bool, true, false, not, ◌&&◌, ◌||◌, List, [],
  ◌∷◌, if◌then◌else◌, leb, length, all, inl, inr, Bool-cases, Result,
}
use get_receipt.Backup.{
  BackupFault, Attempt, Lifecycle, backup_once, run, clear, launch, start, final_backup, stop,
  History, made, then_start, then_run, then_stop, note_failure,
}

-- The callback was called once when the lifecycle is fatal, and never before.
pub record Counted (s : Lifecycle) : Type 0 where
  pub notified : s.fatal_notified ≡ s.fatal
  pub counted : s.calls ≡ (if s.fatal then 1 else 0)

backup_once-Counted :
    (threshold : ℕ) (allow : Bool) (attempt : Attempt) (s : Lifecycle)
    → Counted s
    → Counted (backup_once threshold allow attempt s).1
unfolding backup_once
backup_once-Counted threshold allow attempt s c = elim (Bool-cases attempt.succeeded) [
  | inl e ↦ rw e (record { notified = c.notified; counted = c.counted })
  | inr e ↦ rw e (elim (Bool-cases (allow && leb threshold (suc s.consecutive_failures))) [
    | inl f ↦ rw f (record { notified = refl; counted = ground (arith, c.notified, c.counted) })
    | inr f ↦ rw f (record { notified = c.notified; counted = c.counted })
  ])
]

run-Counted :
    (threshold : ℕ) (attempts : List Attempt) (s : Lifecycle)
    → Counted s
    → Counted (run threshold attempts s)
unfolding run
run-Counted threshold [] s c = c
run-Counted threshold (attempt ∷ attempts) s c =
    let d = backup_once-Counted threshold true attempt s c in
    elim (Bool-cases (backup_once threshold true attempt s).1.fatal) [
      | inl e ↦ rw e d
      | inr e ↦ rw e (run-Counted threshold attempts (backup_once threshold true attempt s).1 d)
    ]

launch-Counted :
    (thread_starts : Bool) (s : Lifecycle) → Counted s → Counted (launch thread_starts s).1
launch-Counted true s c = record { notified = c.notified; counted = c.counted }
launch-Counted false s c = record { notified = c.notified; counted = c.counted }

start-Counted :
    (threshold : ℕ) (attempt : Attempt) (thread_starts : Bool) (s : Lifecycle)
    → Counted s
    → Counted (start threshold attempt thread_starts s).1
unfolding start
start-Counted threshold attempt thread_starts s c =
    let u = (backup_once threshold false attempt (clear s)).1 in
    let d =
      backup_once-Counted threshold false attempt (clear s)
        (record { notified = c.notified; counted = c.counted }) in
    branches (λ (o : Result BackupFault (Unit {0}) × Lifecycle). Counted o.1) s.started _ _ (λ e. c)
      (λ e.
        branches (λ (o : Result BackupFault (Unit {0}) × Lifecycle). Counted o.1) _ _ _
          (λ f. launch-Counted thread_starts u d) (λ f. d))

final_backup-Counted :
    (threshold : ℕ) (wanted thread_stopped : Bool) (attempt : Attempt) (s : Lifecycle)
    → Counted s
    → Counted (final_backup threshold wanted thread_stopped attempt s).1
unfolding final_backup
final_backup-Counted threshold true true attempt s c =
    backup_once-Counted threshold false attempt s c
final_backup-Counted threshold true false attempt s c = c
final_backup-Counted threshold false thread_stopped attempt s c = c

stop-Counted :
    (threshold : ℕ) (create_final_backup : Bool) (during : List Attempt) (joined : Bool)
    (attempt : Attempt) (s : Lifecycle)
    → Counted s
    → Counted (stop threshold create_final_backup during joined attempt s).1
unfolding stop
stop-Counted threshold create_final_backup during joined attempt s c =
    let d =
      final_backup-Counted threshold (create_final_backup && s.started) (not s.thread || joined)
        attempt (run threshold during (record s { stopping = true; stop_requested = true }))
        (run-Counted threshold during (record s { stopping = true; stop_requested = true })
          (record { notified = c.notified; counted = c.counted })) in
    record { notified = d.notified; counted = d.counted }

-- After any history of calls of a lifecycle, failing ones included, the fatal callback was called once
-- when the lifecycle is fatal, and not at all when it is not.
pub History-Counted :
    (threshold : ℕ) {s : Lifecycle} → History threshold s → s.calls ≡ (if s.fatal then 1 else 0)
History-Counted threshold h = (counted_of h).counted
  where
    counted_of : {s : Lifecycle} → History threshold s → Counted s
    counted_of made = record { notified = refl; counted = refl }
    counted_of (then_start {s} attempt thread_starts k) =
        start-Counted threshold attempt thread_starts s (counted_of k)
    counted_of (then_run {s} attempts k) = run-Counted threshold attempts s (counted_of k)
    counted_of (then_stop {s} wanted during joined attempt k) =
        stop-Counted threshold wanted during joined attempt s (counted_of k)

-- Fatal, with as many failures in a row as the threshold.
abbrev pub Reached : ℕ → Lifecycle → Type 0
Reached threshold s = (s.fatal ≡ true) × (s.consecutive_failures ≡ threshold)

-- Periodic attempts that all fail, from a lifecycle that is not fatal and below the threshold, make it
-- fatal when they reach the threshold, and stop there.
pub run-fatal :
    (threshold : ℕ) (attempts : List Attempt) (s : Lifecycle)
    → all (λ (a : Attempt). not a.succeeded) attempts ≡ true
    → s.fatal ≡ false
    → s.consecutive_failures < threshold
    → threshold ≤ s.consecutive_failures + length attempts
    → Reached threshold (run threshold attempts s)
unfolding run backup_once
run-fatal threshold [] s fail calm below enough = absurd (omega (arith, below, enough))
run-fatal threshold (attempt ∷ attempts) s fail calm below enough =
    let failed : attempt.succeeded ≡ false = ground (arith, fail) in
    let others : all (λ (a : Attempt). not a.succeeded) attempts ≡ true = ground (arith, fail) in
    elim (Bool-cases (leb threshold (suc s.consecutive_failures))) [
      | inl e ↦ rw (failed, e) (refl, ground (arith, e, below))
      | inr e ↦
          rw (failed, e)
            (branches (Reached threshold) s.fatal (note_failure attempt.now s)
              (run threshold attempts (note_failure attempt.now s)) (λ f. ground (arith, f, calm))
              (λ f.
                run-fatal threshold attempts (note_failure attempt.now s) others calm
                  (ground (arith, e)) (omega (arith, enough))))
    ]
