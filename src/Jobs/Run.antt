-- ===== src/Jobs/Run.antt =====
-- `execute` of rootfs/usr/lib/rougarou/jobs.py: one job's process, watched round by round. What the
-- operating system answers in a round of the loop is a `Sight`; what other processes do to the
-- queue before it is a list of operations.
pub mod Turn
pub mod End
pub mod Verdict
mod Log
pub mod Settle
pub mod Tests
use rougarou_os.Base.{
  ℕ, ◌+◌, ◌-◌, ◌*◌, String, Bool, true, false, not, ◌&&◌, ◌||◌, Option, none, some, List, [], ◌∷◌,
  ◌++◌, ℤ, is_zero, leb, ltb, is_none, is_some, if◌then◌else◌, length, take, codes, Result, ok, err,
  after, find, min, all, ◌==◌,
}
use rougarou_os.Jobs.Schema.{
  State, succeeded, failed, cancelled, timed_out, interrupted, is_succeeded, Message,
  cancelled_by_operator, worker_stopped, exceeded, exited_with, runner_error, unable_to_start, Job,
  Db, OperatorError, invalid_job_id, working,
}
use rougarou_os.Jobs.Store.{Op, job_key, second}
use rougarou_os.Jobs.Ops.{heartbeat, finish}
use rougarou_os.Jobs.Operation.{Operation, perform_all}

-- `LOG_LIMIT`, and what is written once when it is passed.
abbrev pub log_limit : ℕ
log_limit = 16 * 1024 * 1024

abbrev pub marker : List ℕ
marker = codes "\n[rougarou: log limit reached; further output discarded]\n"

pub data Signal : Type 0 where
  sigterm sigkill : Signal

-- The local variables of `execute`, the bytes of its log file, whether the process's output is
-- still registered with the selector, and the signals sent to the process group.
pub record Watch : Type 0 where
  pub outcome : State
  pub reason : Option Message
  pub written : ℕ
  pub truncated : Bool
  pub log : List ℕ
  pub term_at : Option ℕ
  pub exited_at : Option ℕ
  pub beat_at : ℕ
  pub registered : Bool
  pub signals : List Signal

abbrev pub at_start : Watch
at_start = record {
  outcome = failed;
  reason = some unable_to_start;
  written = 0;
  truncated = false;
  log = [];
  term_at = none;
  exited_at = none;
  beat_at = 0;
  registered = true;
  signals = [];
}

-- The answers of one round: readings of `time.monotonic()` where the loop makes them, `stopping()`,
-- what the selector has (nothing, or a chunk, which is empty at the end of the output),
-- `process.poll()`, and what `process.wait()` would return if the round raised.
pub record Sight : Type 0 where
  pub beat_now : ℕ
  pub beat_after : ℕ
  pub beat_clock : ℕ
  pub stopping : Bool
  pub deadline_now : ℕ
  pub term_now : ℕ
  pub kill_now : ℕ
  pub chunk : Option (List ℕ)
  pub code : Option ℤ
  pub exit_now : ℕ
  pub late_now : ℕ
  pub wait_code : ℤ

abbrev pub signal : Signal → Watch → Watch
signal x w = record w { signals = w.signals ++ x ∷ [] }

-- The outcome that a round finds while the process has not been told to end.
abbrev pub verdict : Job → ℕ → Bool → Sight → State × Option Message
verdict job deadline requested o =
    if requested
    then (cancelled, some cancelled_by_operator)
    else if o.stopping
    then (interrupted, some worker_stopped)
    else if leb deadline o.deadline_now
    then (timed_out, some (exceeded job.timeout))
    else (succeeded, none)

abbrev pub tell_to_end : ℕ → Watch → Watch
tell_to_end now w =
    if is_succeeded w.outcome
    then w
    else record w { signals = w.signals ++ sigterm ∷ []; term_at = some now }

unfoldable pub judge : Job → ℕ → Bool → Sight → Watch → Watch
judge job deadline requested o w =
    let (found, why) = verdict job deadline requested o in
    if is_none w.term_at
    then tell_to_end o.term_now (record w { outcome = found; reason = why })
    else w

-- Three seconds after SIGTERM comes SIGKILL, in every round from then on.
abbrev pub overdue : ℕ → Option ℕ → Bool
overdue now none = false
overdue now (some t) = leb (3 * second) (now - t)

unfoldable pub press : Sight → Watch → Watch
press o w = if overdue o.kill_now w.term_at then signal sigkill w else w

-- A chunk of output goes into the log up to the limit; what passes it is told of once.
unfoldable pub collect : ℕ → List ℕ → Watch → Watch
collect limit chunk w =
    let remaining = limit - w.written in
    let kept =
      if ltb 0 remaining
      then record w {
        log = w.log ++ take remaining chunk;
        written = w.written + min (length chunk) remaining;
      }
      else w in
    if ltb remaining (length chunk) && not w.truncated
    then record kept { log = kept.log ++ marker; truncated = true }
    else kept

unfoldable pub receive : ℕ → Option (List ℕ) → Watch → Watch
receive limit none w = w
receive limit (some []) w = if w.registered then record w { registered = false } else w
receive limit (some (b ∷ bs)) w = if w.registered then collect limit (b ∷ bs) w else w

-- What the exit status says of a process that nobody told to end.
abbrev pub by_status : ℤ → Watch → Watch
by_status c w =
    if is_none w.term_at
    then record w {
      outcome = if is_zero c then succeeded else failed;
      reason = if is_zero c then none else some (exited_with c);
    }
    else w

abbrev pub or_now : Option ℕ → ℕ → ℕ
or_now none now = now
or_now (some t) now = t

-- Whether the loop ends here, with the watch as it is then.
unfoldable pub reap : Sight → Option ℤ → Watch → Watch × Bool
reap o none w = (w, false)
reap o (some c) w =
    let t = or_now w.exited_at o.exit_now in
    let w' = signal sigkill (record w { exited_at = some t }) in
    if not w.registered || ltb second (o.late_now - t) then (by_status c w', true) else (w', false)

-- The heartbeat of a round, every two seconds.
abbrev pub beat_due : Sight → Watch → Bool
beat_due o w = leb w.beat_at o.beat_now

unfoldable pub look : ℕ → Job → ℕ → Bool → Sight → Watch → Watch × Bool
look limit job deadline requested o w =
    let beaten = if beat_due o w then record w { beat_at = o.beat_after + 2 * second } else w in
    reap o o.code (receive limit o.chunk (press o (judge job deadline requested o beaten)))

-- A round as the worker sees it, after what others did to the queue, or an exception in it, with
-- the status that `process.wait()` then returns.
pub data Round : Type 0 where
  seen : List Operation → Sight → Round
  raised : List Operation → String → ℤ → Round

-- What `execute` hands to `finish`.
pub record Report : Type 0 where
  pub outcome : State
  pub reason : Option Message
  pub code : Option ℤ
  pub log : List ℕ

abbrev pub broken : String → ℤ → Watch → Report
broken error code w = record {
  outcome = failed;
  reason = some (runner_error error);
  code = some code;
  log = w.log;
}

abbrev pub ended : Option ℤ → Watch → Report
ended code w = record { outcome = w.outcome; reason = w.reason; code = code; log = w.log }

-- The queue after the round's heartbeat.
abbrev pub beat : ℕ → Sight → Watch → Db → Db
beat pid o w s = if beat_due o w then after (heartbeat pid working o.beat_clock) s else s

-- The loop. It has no report while the process is still being watched at the end of the rounds.
unfoldable pub run_rounds : ℕ → ℕ → Job → ℕ → List Round → Watch → Db → Option Report × Db
run_rounds limit pid job deadline [] w s = (none, s)
run_rounds limit pid job deadline (raised before error code ∷ rounds) w s =
    (some (broken error code w), perform_all before s)
run_rounds limit pid job deadline (seen before o ∷ rounds) w s =
    let t = beat pid o w (perform_all before s) in
    elim (find job_key job.id t.jobs) [
      | none ↦ (some (broken "OperatorError" o.wait_code w), t)
      | some row ↦
          let (w', done) = look limit job deadline row.cancel_requested o w in
          elim done [
            | true ↦ (some (ended o.code w'), t)
            | false ↦ run_rounds limit pid job deadline rounds w' t
          ]
    ]

abbrev is_hex : ℕ → Bool
is_hex c = (leb 48 c && leb c 57) || (leb 97 c && leb c 102)

-- `log_path` takes an id of 16 hexadecimal digits only.
unfoldable pub is_log_name : String → Bool
is_log_name id = length (codes id) == 16 && all is_hex (codes id)

-- The directory of logs is refused, with the error that `log_path` raises; or the log file or the
-- process cannot be had, with the name of that exception; or the process starts, at a reading of
-- `time.monotonic()`.
pub data Launch : Type 0 where
  refused : OperatorError → Launch
  not_started : String → Launch
  started : ℕ → Launch

abbrev pub settle_report :
    Job → (ℕ → ℕ) → Option Report × Db → Option (Result OperatorError (Unit {0})) × Db
settle_report job clock (none, s) = (none, s)
settle_report job clock (some r, s) =
    let (result, t) = finish job.id r.outcome r.reason r.code clock s in (some result, t)

-- What follows `log_path`.
abbrev pub launched :
    ℕ → ℕ → Job → Launch → List Round → (ℕ → ℕ) → Db → Option (Result OperatorError (Unit {0})) × Db
launched limit pid job (refused e) rounds clock s = (some (err e), s)
launched limit pid job (not_started error) rounds clock s = settle_report job clock (
  some (record { outcome = failed; reason = some (runner_error error); code = none; log = [] }),
  s,
)
launched limit pid job (started now) rounds clock s =
    settle_report job clock
      (run_rounds limit pid job (now + job.timeout * second) rounds at_start s)

-- The whole of `execute`: nothing is returned while the rounds are not enough. What `log_path`
-- raises is not caught, so that `finish` is not called then.
unfoldable pub execute :
    ℕ → ℕ → Job → Launch → List Round → (ℕ → ℕ) → Db → Option (Result OperatorError (Unit {0})) × Db
execute limit pid job launch rounds clock s =
    if is_log_name job.id
    then launched limit pid job launch rounds clock s
    else (some (err invalid_job_id), s)
