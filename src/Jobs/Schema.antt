-- ===== src/Jobs/Schema.antt =====
-- The tables of rootfs/usr/lib/rougarou/jobs.py and of tasks.py beside it, which are one SQLite
-- file. A table is the list of its rows in the order of insertion. A time is a number of
-- milliseconds. A text that the program builds from a template is a `Message` with its parts.
use rougarou_os.Base.{
  ℕ, String, Bool, true, false, Option, none, List, [], ℤ, ◌==◌, ◌≡◌, refl, ◌⊎◌, inl, inr,
}

pub data State : Type 0 where
  queued running succeeded failed cancelled timed_out interrupted : State

-- `TERMINAL`
abbrev pub is_terminal : State → Bool
is_terminal queued = false
is_terminal running = false
is_terminal _ = true

-- `ATTENTION`
abbrev pub needs_attention : State → Bool
needs_attention failed = true
needs_attention timed_out = true
needs_attention interrupted = true
needs_attention _ = false

abbrev pub is_queued : State → Bool
is_queued queued = true
is_queued _ = false

abbrev pub is_running : State → Bool
is_running running = true
is_running _ = false

abbrev pub is_succeeded : State → Bool
is_succeeded succeeded = true
is_succeeded _ = false

abbrev state_number : State → ℕ
state_number queued = 0
state_number running = 1
state_number succeeded = 2
state_number failed = 3
state_number cancelled = 4
state_number timed_out = 5
state_number interrupted = 6

-- `a.state=j.state`
abbrev pub same_state : State → State → Bool
same_state a b = state_number a == state_number b

pub data Kind : Type 0 where
  ai command : Kind

pub State-cases : (x : State) → (x ≡ queued) ⊎ (x ≡ running) ⊎ (is_terminal x ≡ true)
State-cases queued = inl refl
State-cases running = inr (inl refl)
State-cases _ = inr (inr refl)

-- The errors that the operations raise: `cli.OperatorError` with its message, SQLite's refusals,
-- and the operating system's.
pub data OperatorError : Type 0 where
  unknown_job : String → OperatorError
  already : State → OperatorError
  not_reviewable workspace_missing workspace_not_directory bad_limits invalid_job_id : OperatorError
  not_retryable bad_limit bad_tail queue_owned : OperatorError
  integrity nested_transaction invalid_json : OperatorError
  bad_task_name : OperatorError
  unknown_task : String → OperatorError
  task_enabled task_exists worker_inactive workspace_unavailable untested : OperatorError
  command_missing : String → OperatorError
  codex_unauthenticated codex_timeout provider_invalid systemd_timeout systemd_failed :
      OperatorError
  unmanaged_unit not_private not_regular os_error index_error unsupported_queue : OperatorError

-- What the columns `reason` and `detail` say.
pub data Message : Type 0 where
  retry_of : String → Message
  cancelled_by_operator cancelled_before_execution worker_vanished worker_stopped : Message
  exceeded : ℕ → Message
  exited_with : ℤ → Message
  runner_error : String → Message
  unable_to_start : Message
  reviewed restored : State → Message

pub record Job : Type 0 where
  pub id : String
  pub kind : Kind
  pub spec : String
  pub workspace : String
  pub timeout : ℕ
  pub state : State
  pub created : ℕ
  pub ready : ℕ
  pub started : Option ℕ
  pub finished : Option ℕ
  pub exit_code : Option ℤ
  pub reason : Option Message
  pub cancel_requested : Bool
  pub parent : Option String

-- The column `events.state` holds a state, or one of two words that are no state.
pub data Mark : Type 0 where
  entered : State → Mark
  cancel_asked acknowledged : Mark

pub record Event : Type 0 where
  pub seq : ℕ
  pub job_id : String
  pub at : ℕ
  pub mark : Mark
  pub detail : Option Message

pub data WorkerState : Type 0 where
  working stopped : WorkerState

pub record Heartbeat : Type 0 where
  pub pid : ℕ
  pub heartbeat : ℕ
  pub state : WorkerState

pub record Acknowledgment : Type 0 where
  pub job_id : String
  pub state : State
  pub acknowledged_at : ℕ

pub record Task : Type 0 where
  pub name : String
  pub calendar : String
  pub catch_up : Bool
  pub kind : Kind
  pub spec : String
  pub workspace : String
  pub timeout : ℕ
  pub enabled : Bool
  pub revision : ℕ
  pub deleted : Bool

pub record Run : Type 0 where
  pub job_id : String
  pub task_name : String
  pub revision : ℕ

pub data TaskDetail : Type 0 where
  created_paused edited enabled paused removed skipped : TaskDetail
  queued_as : String → TaskDetail
  not_ready : OperatorError → TaskDetail

pub record TaskEvent : Type 0 where
  pub task_name : String
  pub at : ℕ
  pub detail : TaskDetail

-- The connection: its tables, and whether a transaction is open on it.
pub record Db : Type 0 where
  pub in_transaction : Bool
  pub jobs : List Job
  pub events : List Event
  pub worker : Option Heartbeat
  pub job_acknowledgments : List Acknowledgment
  pub scheduled_tasks : List Task
  pub scheduled_runs : List Run
  pub scheduled_events : List TaskEvent

abbrev pub empty : Db
empty = record {
  in_transaction = false;
  jobs = [];
  events = [];
  worker = none;
  job_acknowledgments = [];
  scheduled_tasks = [];
  scheduled_runs = [];
  scheduled_events = [];
}
