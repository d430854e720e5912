-- ===== src/Backup.antt =====
-- `SQLiteBackupLifecycle` of cloud/src/workers/backup_lifecycle.py: the snapshots of one worker process.
-- An attempt says whether `create_backup` returned and what the clock, which knows its zone, printed
-- behind it; `calls` counts the calls of the fatal callback, whose own exceptions are only logged.
pub mod Notices
pub mod Health
mod Tests
use get_receipt.Base.{
  ℕ, suc, String, Bool, true, false, not, ◌&&◌, ◌||◌, List, [], ◌∷◌, Result, ok, err, ◌==◌, nat_eq,
  if◌then◌else◌, leb,
}
use get_receipt.Base.Text.{is_empty}

pub record Attempt : Type 0 where
  pub succeeded : Bool
  pub now : String

pub record Lifecycle : Type 0 where
  pub stop_requested : Bool
  pub thread : Bool
  pub started : Bool
  pub stopping : Bool
  pub stopped : Bool
  pub fatal : Bool
  pub fatal_notified : Bool
  pub consecutive_failures : ℕ
  pub last_success_at : String
  pub last_failure_at : String
  pub calls : ℕ

-- `__init__`.
abbrev pub fresh_lifecycle : Lifecycle
fresh_lifecycle = record {
  stop_requested = false;
  thread = false;
  started = false;
  stopping = false;
  stopped = false;
  fatal = false;
  fatal_notified = false;
  consecutive_failures = 0;
  last_success_at = "";
  last_failure_at = "";
  calls = 0;
}

-- `healthy`.
unfoldable pub healthy : Lifecycle → Bool
healthy s =
    s.started
    && (not s.stopping
        && (not s.fatal && (s.consecutive_failures == 0 && not (is_empty s.last_success_at))))

-- The status in `health`.
unfoldable pub status : Lifecycle → String
status s =
    if s.fatal
    then "fatal"
    else if s.stopping
    then "stopping"
    else if not (s.consecutive_failures == 0)
    then "degraded"
    else if s.stopped
    then "stopped"
    else if s.started && not (is_empty s.last_success_at)
    then "ok"
    else "starting"

-- The failure that may be fatal: the first one calls back.
abbrev pub raise_alarm : Lifecycle → Lifecycle
raise_alarm s = record s {
  fatal = true;
  fatal_notified = true;
  calls = if s.fatal_notified then s.calls else suc s.calls;
}

abbrev pub note_failure : String → Lifecycle → Lifecycle
note_failure now s = record s {
  consecutive_failures = suc s.consecutive_failures;
  last_failure_at = now;
}

abbrev pub note_success : String → Lifecycle → Lifecycle
note_success now s = record s { consecutive_failures = 0; last_success_at = now }

-- `_backup_once`.
unfoldable pub backup_once : ℕ → Bool → Attempt → Lifecycle → Bool × Lifecycle
backup_once threshold allow_fatal_callback attempt s =
    if attempt.succeeded
    then (true, note_success attempt.now s)
    else (let t = note_failure attempt.now s in
        (
          false,
          if allow_fatal_callback && leb threshold t.consecutive_failures then raise_alarm t else t,
        ))

-- `_run` over the attempts until it is stopped.
unfoldable pub run : ℕ → List Attempt → Lifecycle → Lifecycle
run threshold [] s = s
run threshold (attempt ∷ attempts) s =
    let t = (backup_once threshold true attempt s).1 in
    let rest = run threshold attempts t in if t.fatal then t else rest

pub data BackupFault : Type 0 where
  backup_failed thread_failed : BackupFault

abbrev pub clear : Lifecycle → Lifecycle
clear s = record s { stop_requested = false; stopping = false; stopped = false }

abbrev pub launch : Bool → Lifecycle → Result BackupFault (Unit {0}) × Lifecycle
launch true s = (ok tt, record s { started = true; thread = true })
launch false s = (err thread_failed, record s { started = false; thread = false })

-- `start`, with the first attempt and whether the thread starts.
unfoldable pub start : ℕ → Attempt → Bool → Lifecycle → Result BackupFault (Unit {0}) × Lifecycle
start threshold attempt thread_starts s =
    if s.started
    then (ok tt, s)
    else (let (done, t) = backup_once threshold false attempt (clear s) in
        if done then launch thread_starts t else (err backup_failed, t))

-- The final backup of `stop`, and whether it is as was asked.
unfoldable pub final_backup : ℕ → Bool → Bool → Attempt → Lifecycle → Bool × Lifecycle
final_backup threshold wanted thread_stopped attempt s =
    if wanted && thread_stopped then backup_once threshold false attempt s else (not wanted, s)

-- `stop`: the thread makes the attempts `during` the join, which sees its end or runs out of time.
unfoldable pub stop : ℕ → Bool → List Attempt → Bool → Attempt → Lifecycle → Bool × Lifecycle
stop threshold create_final_backup during joined attempt s =
    let u = run threshold during (record s { stopping = true; stop_requested = true }) in
    let thread_stopped = not s.thread || joined in
    let (final_ok, v) =
      final_backup threshold (create_final_backup && s.started) thread_stopped attempt u in
    (
      thread_stopped && final_ok,
      record v {
        thread = v.thread && not thread_stopped;
        started = v.started && not thread_stopped;
        stopping = false;
        stopped = thread_stopped;
      },
    )

-- The histories of calls, with the periodic attempts between them.
pub data History (threshold : ℕ) : Lifecycle → Type 0 where
  made : History threshold fresh_lifecycle
  then_start :
      {s : Lifecycle} (attempt : Attempt) (thread_starts : Bool)
      → History threshold s
      → History threshold (start threshold attempt thread_starts s).1
  then_run :
      {s : Lifecycle} (attempts : List Attempt)
      → History threshold s
      → History threshold (run threshold attempts s)
  then_stop :
      {s : Lifecycle} (create_final_backup : Bool) (during : List Attempt) (joined : Bool)
      (attempt : Attempt)
      → History threshold s
      → History threshold (stop threshold create_final_backup during joined attempt s).1
