-- ===== src/Tasks/Units.antt =====
-- The switching on and off of a task in rootfs/usr/lib/rougarou/tasks.py: its systemd units.
use rougarou_os.Base.{
  ℕ, String, Bool, true, false, ◌&&◌, Option, none, some, List, if◌then◌else◌, Result, ok, err,
  pure, raise, gets, require, ◌>>=◌, ◌>>◌, find, same, first, is_some, ◌<>◌, ◌==◌,
}
use rougarou_os.Jobs.Schema.{
  is_succeeded, Job, Task, enabled, paused, removed, Run, Db, OperatorError, untested,
}
use rougarou_os.Jobs.Store.{Op, job_key}
use rougarou_os.Tasks.Store.{
  Outside, World, TaskOp, on_db, is_caught, daemon_reload, enable_now, disable_now, get,
  record_event, systemctl, marker, unit_key, unit_name, managed_file, atomic_write, unlink,
}
use rougarou_os.Tasks.Ops.{Definition, save, enqueue, ready, update_task}

abbrev pub yes_or_no : Bool → String
yes_or_no true = "true"
yes_or_no false = "false"

abbrev pub environment_line : Outside → String → String → String
environment_line outside key value = "Environment=" <> outside.quote (key <> "=" <> value) <> "\n"

unfoldable pub service_text : Outside → Task → String
service_text outside task =
    marker
    <> "[Unit]\nDescription=Enqueue Rougarou task "
    <> task.name
    <> "\n\n[Service]\nType=oneshot\n"
    <> "ExecStart=/usr/local/bin/rougarou tasks _fire "
    <> task.name
    <> "\n"
    <> "UMask=0077\nNoNewPrivileges=yes\nTimeoutStartSec=45\n"
    <> environment_line outside "XDG_CONFIG_HOME" outside.config_home
    <> environment_line outside "XDG_STATE_HOME" outside.state_home
    <> environment_line outside "PATH" outside.search_path

unfoldable pub timer_text : Task → String
timer_text task =
    marker
    <> "[Unit]\nDescription=Schedule Rougarou task "
    <> task.name
    <> "\n\n[Timer]\n"
    <> "OnCalendar="
    <> task.calendar
    <> "\nPersistent="
    <> yes_or_no task.catch_up
    <> "\nAccuracySec=1s\n\n[Install]\nWantedBy=timers.target\n"

abbrev pub service_name : Task → String
service_name task = unit_name task.name "service"

abbrev pub timer_name : String → String
timer_name name = unit_name name "timer"

abbrev pub is_succeeded_job : Option Job → Bool
is_succeeded_job none = false
is_succeeded_job (some j) = is_succeeded j.state

abbrev pub is_success : List Job → Run → Bool
is_success jobs r = is_succeeded_job (find job_key r.job_id jobs)

-- A run of this revision of the task succeeded.
abbrev pub is_test : Task → List Job → Run → Bool
is_test task jobs r =
    same r.task_name task.name && (r.revision == task.revision && is_success jobs r)

unfoldable pub is_tested : Task → Db → Bool
is_tested task s = is_some (first (is_test task s.jobs) s.scheduled_runs)

unfoldable pub set_enabled : Bool → String → Op (Unit {0})
set_enabled b name = update_task name λ t. record t { enabled = b }

unfoldable pub write_units : Outside → Task → TaskOp (Unit {0})
write_units outside task = do
  managed_file (service_name task)
  managed_file (timer_name task.name)
  atomic_write outside (service_name task) (service_text outside task)
  atomic_write outside (timer_name task.name) (timer_text task)

-- The task is paused again when its timer cannot be started, and the error raised again.
abbrev pub undo_enable :
    String → Result OperatorError (Unit {0}) × World → Result OperatorError (Unit {0}) × World
undo_enable name (ok _, w) = (ok tt, w)
undo_enable name (err e, w) =
    if is_caught e then (do on_db (set_enabled false name); raise e) w else (err e, w)

unfoldable pub start_timer : Outside → String → TaskOp (Unit {0})
start_timer outside name w = undo_enable name (systemctl outside (enable_now (timer_name name)) w)

-- SQLite's own errors, which the `record` at the end could also raise, are not modelled.
unfoldable pub enable : Outside → String → (ℕ → ℕ) → TaskOp (Unit {0})
enable outside name clock = do
  task ← on_db (get name false)
  ready outside task
  tested ← gets (λ w. is_tested task w.db)
  require tested untested
  write_units outside task
  systemctl outside daemon_reload
  on_db (set_enabled true name)
  start_timer outside name
  on_db (record_event name enabled (clock 0))

unfoldable pub stop_timer : Outside → String → TaskOp (Unit {0})
stop_timer outside name = do
  timer ← gets (λ w. find unit_key (timer_name name) w.units)
  if is_some timer then systemctl outside (disable_now (timer_name name)) else pure tt

unfoldable pub remove_units : Outside → String → TaskOp (Unit {0})
remove_units outside name = do
  unlink outside (timer_name name)
  unlink outside (unit_name name "service")
  systemctl outside daemon_reload
  on_db (update_task name λ t. record t { deleted = true })

unfoldable pub pause : Outside → String → Bool → (ℕ → ℕ) → TaskOp (Unit {0})
pause outside name remove clock = do
  on_db (get name false)
  managed_file (timer_name name)
  managed_file (unit_name name "service")
  on_db (set_enabled false name)
  stop_timer outside name
  if remove then remove_units outside name else pure tt
  on_db (record_event name (if remove then removed else paused) (clock 0))

-- One command of `main`, in the order of its branches.
pub data Command : Type 0 where
  saving : String → Definition → Bool → (ℕ → ℕ) → Command
  running firing : String → String → (ℕ → ℕ) → Command
  enabling : String → (ℕ → ℕ) → Command
  pausing : String → Bool → (ℕ → ℕ) → Command

unfoldable pub main : Outside → Command → TaskOp (Unit {0})
main outside (saving name d edit clock) = on_db (save name d edit clock)
main outside (running name id clock) = do enqueue outside name false id clock; pure tt
main outside (firing name id clock) = do enqueue outside name true id clock; pure tt
main outside (enabling name clock) = enable outside name clock
main outside (pausing name remove clock) = pause outside name remove clock
