-- ===== src/Tasks/Ops.antt =====
-- The operations of rootfs/usr/lib/rougarou/tasks.py. Each call of `time.time()` is a reading
-- `clock i`, numbered in the order of the source.
use rougarou_os.Base.{
  ℕ, ◌+◌, String, Bool, false, not, ◌&&◌, ◌||◌, Option, none, some, [], ◌∷◌, ◌++◌, pos,
  if◌then◌else◌, Result, ok, err, pure, raise, gets, modify, require, ◌>>=◌, ◌>>◌, find, same,
  first, update, is_some, is_none, ◌==◌,
}
use rougarou_os.Jobs.Schema.{
  is_queued, is_running, Kind, Job, Task, created_paused, edited, skipped, queued_as, not_ready,
  Run, Db, OperatorError, worker_inactive, workspace_unavailable, command_missing,
  codex_unauthenticated, codex_timeout, invalid_json, index_error, integrity, task_enabled,
  task_exists, os_error,
}
use rougarou_os.Jobs.Store.{Op, transaction, or_raise, job_key}
use rougarou_os.Jobs.Ops.{Request, submit}
use rougarou_os.Tasks.Store.{
  Outside, World, TaskOp, on_db, is_caught, Spec, command_spec, ai_spec, Provider, codex, is_active,
  Reply, returned, timed_out, not_run, name_check, task_key, get, record_event,
}

-- What `definition` makes of the arguments of `add` and `edit`.
pub record Definition : Type 0 where
  pub calendar : String
  pub catch_up : Bool
  pub kind : Kind
  pub spec : String
  pub workspace : String
  pub timeout : ℕ

abbrev pub new_task : String → Definition → Task
new_task name d = record {
  name = name;
  calendar = d.calendar;
  catch_up = d.catch_up;
  kind = d.kind;
  spec = d.spec;
  workspace = d.workspace;
  timeout = d.timeout;
  enabled = false;
  revision = 1;
  deleted = false;
}

abbrev pub redefine : Definition → Task → Task
redefine d t = record t {
  calendar = d.calendar;
  catch_up = d.catch_up;
  kind = d.kind;
  spec = d.spec;
  workspace = d.workspace;
  timeout = d.timeout;
  revision = t.revision + 1;
}

unfoldable pub update_task : String → (Task → Task) → Op (Unit {0})
update_task name f =
    modify λ s. record s { scheduled_tasks = update task_key name f s.scheduled_tasks }

unfoldable pub edit_block : String → Definition → (ℕ → ℕ) → Op (Unit {0})
edit_block name d clock = do
  task ← get name false
  require (not task.enabled) task_enabled
  update_task name (redefine d)
  record_event name edited (clock 0)

unfoldable pub create_block : String → Definition → (ℕ → ℕ) → Op (Unit {0})
create_block name d clock = do
  row ← gets (λ s. find task_key name s.scheduled_tasks)
  require (is_none row) task_exists
  modify λ s. record s { scheduled_tasks = s.scheduled_tasks ++ new_task name d ∷ [] }
  record_event name created_paused (clock 0)

unfoldable pub save : String → Definition → Bool → (ℕ → ℕ) → Op (Unit {0})
save name d edit clock = do
  name_check name
  transaction (if edit then edit_block name d clock else create_block name d clock)

-- `cli.require_command`
abbrev pub require_command : Outside → String → TaskOp (Unit {0})
require_command outside name = require (outside.is_installed name) (command_missing name)

abbrev pub logged_in : Reply → TaskOp (Unit {0})
logged_in (returned code) = require (code == 0) codex_unauthenticated
logged_in timed_out = raise codex_timeout
logged_in not_run = raise os_error

abbrev pub provider_ready : Outside → Provider → TaskOp (Unit {0})
provider_ready outside codex = logged_in outside.login
provider_ready outside _ = pure tt

abbrev pub not_refused : Option OperatorError → TaskOp (Unit {0})
not_refused none = pure tt
not_refused (some e) = raise e

abbrev pub spec_ready : Outside → Spec → TaskOp (Unit {0})
spec_ready outside (command_spec []) = raise index_error
spec_ready outside (command_spec (executable ∷ _)) = require_command outside executable
spec_ready outside (ai_spec provider prompt sandbox model) = do
  require_command outside "codex"
  not_refused (outside.refuses provider)
  provider_ready outside provider

-- `systemctl(…, check=False).returncode`: a timeout is still an error.
abbrev pub worker_answers : Reply → TaskOp (Unit {0})
worker_answers (returned code) = require (code == 0) worker_inactive
worker_answers timed_out = raise OperatorError.systemd_timeout
worker_answers not_run = raise os_error

abbrev pub decoded : Option Spec → TaskOp Spec
decoded none = raise invalid_json
decoded (some spec) = pure spec

unfoldable pub ready : Outside → Task → TaskOp (Unit {0})
ready outside task = do
  modify λ w. record w { calls = w.calls ++ is_active ∷ [] }
  worker_answers (outside.manager is_active)
  require (outside.paths.is_dir task.workspace) workspace_unavailable
  spec ← decoded (outside.loads task.spec)
  spec_ready outside spec

abbrev pub is_active_job : Option Job → Bool
is_active_job none = false
is_active_job (some j) = is_queued j.state || is_running j.state

-- A run of the task whose job has not ended.
abbrev pub is_active_run : Db → String → Run → Bool
is_active_run s name r = same r.task_name name && is_active_job (find job_key r.job_id s.jobs)

abbrev pub run_key : Run → String
run_key r = r.job_id

-- `INSERT INTO scheduled_runs`, whose `job_id` is a primary key.
unfoldable pub insert_run : Run → Op (Unit {0})
insert_run r = do
  row ← gets (λ s. find run_key r.job_id s.scheduled_runs)
  require (is_none row) integrity
  modify λ s. record s { scheduled_runs = s.scheduled_runs ++ r ∷ [] }

abbrev pub run_request : Outside → Task → Spec → String → Request
run_request outside task spec id = record {
  job_id = id;
  kind = task.kind;
  spec = outside.dumps spec;
  workspace = task.workspace;
  timeout = pos task.timeout;
  delay = pos 0;
  parent = none;
}

unfoldable pub queue_run : Outside → Task → Spec → String → (ℕ → ℕ) → Op (Option String)
queue_run outside task spec id clock = do
  job ← submit outside.paths (run_request outside task spec id) clock
  insert_run (record { job_id = job; task_name = task.name; revision = task.revision })
  record_event task.name (queued_as job) (clock 2)
  pure (some job)

unfoldable pub skip_run : String → (ℕ → ℕ) → Op (Option String)
skip_run name clock = do record_event name skipped (clock 0); pure none

unfoldable pub enqueue_block : Outside → Task → String → (ℕ → ℕ) → Op (Option String)
enqueue_block outside task id clock = do
  active ← gets (λ s. first (is_active_run s task.name) s.scheduled_runs)
  if is_some active then skip_run task.name clock else (do
    spec ← or_raise invalid_json (outside.loads task.spec)
    queue_run outside task spec id clock)

-- The refusal is recorded before it is raised again.
abbrev pub recorded :
    String → ℕ → Result OperatorError (Unit {0}) × World → Result OperatorError (Unit {0}) × World
recorded name at (ok _, w) = (ok tt, w)
recorded name at (err e, w) =
    if is_caught e then (do on_db (record_event name (not_ready e) at); raise e) w else (err e, w)

unfoldable pub check_ready : Outside → Task → ℕ → TaskOp (Unit {0})
check_ready outside task at w = recorded task.name at (ready outside task w)

-- `id` is the identifier that `submit` draws.
unfoldable pub enqueue : Outside → String → Bool → String → (ℕ → ℕ) → TaskOp (Option String)
enqueue outside name scheduled id clock = do
  task ← on_db (get name false)
  if scheduled && not task.enabled then pure none else (do
    check_ready outside task (clock 0)
    on_db (transaction (enqueue_block outside task id clock)))
