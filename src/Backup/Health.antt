-- ===== src/Backup/Health.antt =====
-- `healthy` and `health` of cloud/src/workers/backup_lifecycle.py agree.
use get_receipt.Base.{
  ◌∙◌, branches, arith, ℕ, suc, String, ◌≡◌, refl, Bool, true, false, not, ◌&&◌, ◌||◌, List, [],
  ◌∷◌, if◌then◌else◌, leb, ◌==◌, nat_eq, string_eq, inl, inr, Bool-cases, Result, err,
}
use get_receipt.Base.Text.{is_empty}
use get_receipt.Backup.{
  backup_failed, BackupFault, Attempt, Lifecycle, healthy, status, backup_once, run, clear, launch,
  start, stop, History, made, then_start, then_run, then_stop,
}

-- A lifecycle that was stopped is not started.
abbrev Apart : Lifecycle → Type 0
Apart s = (s.started && s.stopped) ≡ false

-- The fields that an attempt leaves alone.
abbrev Same : Lifecycle → Lifecycle → Type 0
Same s t = (t.started ≡ s.started) × (t.stopped ≡ s.stopped)

backup_once-Same :
    (threshold : ℕ) (allow : Bool) (attempt : Attempt) (s : Lifecycle)
    → Same s (backup_once threshold allow attempt s).1
unfolding backup_once
backup_once-Same threshold allow attempt s = elim (Bool-cases attempt.succeeded) [
  | inl e ↦ rw e (refl, refl)
  | inr e ↦ rw e (elim (Bool-cases (allow && leb threshold (suc s.consecutive_failures))) [
    | inl f ↦ rw f (refl, refl)
    | inr f ↦ rw f (refl, refl)
  ])
]

run-Apart :
    (threshold : ℕ) (attempts : List Attempt) (s : Lifecycle)
    → Apart s
    → Apart (run threshold attempts s)
unfolding run
run-Apart threshold [] s a = a
run-Apart threshold (attempt ∷ attempts) s a =
    let (p, q) = backup_once-Same threshold true attempt s in
    let b : Apart (backup_once threshold true attempt s).1 = rw (p, q) a in
    elim (Bool-cases (backup_once threshold true attempt s).1.fatal) [
      | inl e ↦ rw e b
      | inr e ↦ rw e (run-Apart threshold attempts (backup_once threshold true attempt s).1 b)
    ]

launch-Apart :
    (thread_starts : Bool) (s : Lifecycle) → s.stopped ≡ false → Apart (launch thread_starts s).1
launch-Apart true s h = h
launch-Apart false s h = refl

not_started : (started stopped : Bool) → started ≡ false → (started && stopped) ≡ false
not_started started stopped h = ground (arith, h)

start-Apart :
    (threshold : ℕ) (attempt : Attempt) (thread_starts : Bool) (s : Lifecycle)
    → Apart s
    → Apart (start threshold attempt thread_starts s).1
unfolding start
start-Apart threshold attempt thread_starts s a =
    let u = (backup_once threshold false attempt (clear s)).1 in
    let (p, q) = backup_once-Same threshold false attempt (clear s) in
    branches (λ (o : Result BackupFault (Unit {0}) × Lifecycle). Apart o.1) s.started _ _ (λ e. a)
      (λ e.
        branches (λ (o : Result BackupFault (Unit {0}) × Lifecycle). Apart o.1)
          (backup_once threshold false attempt (clear s)).0 (launch thread_starts u)
          (err backup_failed, u) (λ f. launch-Apart thread_starts u q)
          (λ f. not_started u.started u.stopped (p ∙ e)))

stopped_apart :
    (started thread_stopped : Bool) → ((started && not thread_stopped) && thread_stopped) ≡ false
stopped_apart started thread_stopped = ground arith

History-Apart : (threshold : ℕ) {s : Lifecycle} → History threshold s → Apart s
unfolding stop
History-Apart threshold made = refl
History-Apart threshold (then_start {s} attempt thread_starts k) =
    start-Apart threshold attempt thread_starts s (History-Apart threshold k)
History-Apart threshold (then_run {s} attempts k) =
    run-Apart threshold attempts s (History-Apart threshold k)
History-Apart threshold (then_stop {s} wanted during joined attempt k) =
    stopped_apart _ (not s.thread || joined)

-- After any history of calls of a lifecycle, the status that is shown is "ok" exactly when the
-- lifecycle is healthy.
pub status-healthy :
    (threshold : ℕ) (s : Lifecycle) → History threshold s → (status s == "ok") ≡ healthy s
unfolding status healthy
status-healthy threshold s h =
    agree s.fatal s.stopping (s.consecutive_failures == 0) s.stopped s.started
      (not (is_empty s.last_success_at)) (History-Apart threshold h)
  where
    agree :
        (fatal stopping clean stopped started shown : Bool)
        → (started && stopped) ≡ false
        → (◌==◌ {A = String}
            (if fatal
              then "fatal"
              else if stopping
              then "stopping"
              else if not clean
              then "degraded"
              else if stopped
              then "stopped"
              else if started && shown
              then "ok"
              else "starting")
            "ok")
          ≡ (started && (not stopping && (not fatal && (clean && shown))))
    agree true stopping clean stopped started shown a = ground arith
    agree false true clean stopped started shown a = ground arith
    agree false false false stopped started shown a = ground arith
    agree false false true true true shown a = ground (arith, a)
    agree false false true true false shown a = refl
    agree false false true false true true a = refl
    agree false false true false true false a = refl
    agree false false true false false shown a = refl
