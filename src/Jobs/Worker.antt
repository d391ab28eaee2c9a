-- ===== src/Jobs/Worker.antt =====
-- `worker` of rootfs/usr/lib/rougarou/jobs.py: recovery, then claim and execute until the worker is
-- told to stop, with other processes at the queue all the while.
mod Running
mod Alone
mod Work
mod Tests
use rougarou_os.Base.{
  ℕ, ◌+◌, ◌*◌, Bool, Option, none, some, List, [], ◌∷◌, leb, after, Result, ok, err, if◌then◌else◌,
}
use rougarou_os.Jobs.Schema.{Job, Db, OperatorError, working, stopped, queue_owned}
use rougarou_os.Jobs.Store.{second}
use rougarou_os.Jobs.Ops.{heartbeat, claim, recover}
use rougarou_os.Jobs.Operation.{Operation, perform_all}
use rougarou_os.Jobs.Run.{Round, Launch, execute}

-- One turn of `while not stopping`, with what other processes do to the queue before it, the clock
-- readings in it, and what `execute` meets if a job is claimed.
pub record Turn : Type 0 where
  pub before : List Operation
  pub beat_now : ℕ
  pub beat_after : ℕ
  pub beat_clock : ℕ
  pub claim_clock : ℕ → ℕ
  pub launch : Launch
  pub rounds : List Round
  pub finish_clock : ℕ → ℕ

abbrev pub Outcome : Type 0
Outcome = Option (Result OperatorError (Unit {0})) × Db

-- `finally: heartbeat(db, "stopped")`
abbrev pub leave : ℕ → ℕ → Result OperatorError (Unit {0}) → Db → Outcome
leave pid at r s = (some r, after (heartbeat pid stopped at) s)

abbrev pub next_beat : Turn → ℕ → ℕ
next_beat t beat_at = if leb beat_at t.beat_now then t.beat_after + 2 * second else beat_at

abbrev pub beaten : ℕ → Turn → ℕ → Db → Db
beaten pid t beat_at s =
    if leb beat_at t.beat_now then after (heartbeat pid working t.beat_clock) s else s

-- What follows the call of `execute`, and what follows that of `claim`; `rest` are the next turns.
abbrev pub after_execute : ℕ → ℕ → (Db → Outcome) → Outcome → Outcome
after_execute pid at rest (none, s) = (none, s)
after_execute pid at rest (some (err e), s) = leave pid at (err e) s
after_execute pid at rest (some (ok _), s) = rest s

abbrev pub after_claim :
    ℕ → ℕ → ℕ → Turn → (Db → Outcome) → Result OperatorError (Option Job) × Db → Outcome
after_claim limit pid at t rest (err e, s) = leave pid at (err e) s
after_claim limit pid at t rest (ok none, s) = rest s
after_claim limit pid at t rest (ok (some job), s) =
    after_execute pid at rest (execute limit pid job t.launch t.rounds t.finish_clock s)

-- The turns until the worker is told to stop. There is no outcome while a process is still being
-- watched at the end of the rounds of a turn.
unfoldable pub work : ℕ → ℕ → ℕ → List Turn → ℕ → Db → Outcome
work limit pid at [] beat_at s = leave pid at (ok tt) s
work limit pid at (t ∷ ts) beat_at s =
    after_claim limit pid at t (work limit pid at ts (next_beat t beat_at))
      (claim t.claim_clock (beaten pid t beat_at (perform_all t.before s)))

abbrev pub after_recover : ℕ → ℕ → ℕ → List Turn → Result OperatorError (Unit {0}) × Db → Outcome
after_recover limit pid at ts (err e, s) = (some (err e), s)
after_recover limit pid at ts (ok _, s) = work limit pid at ts 0 s

-- `is_locked` says whether another worker holds the lock; `at` is the clock at the end.
unfoldable pub worker : ℕ → ℕ → Bool → (ℕ → ℕ) → List Turn → ℕ → Db → Outcome
worker limit pid is_locked clock ts at s =
    if is_locked
    then (some (err queue_owned), s)
    else after_recover limit pid at ts (recover clock s)
