-- ===== src/Tasks/Store.antt =====
-- The state of rootfs/usr/lib/rougarou/tasks.py: the database that it shares with the queue, the
-- operator's systemd units, and the commands given to the service manager.
use rougarou_os.Base.{
  ℕ, String, Bool, true, false, not, ◌&&◌, Option, none, some, List, [], ◌∷◌, ◌++◌, leb, ◌==◌,
  codes, length, if◌then◌else◌, Exec, Result, pure, raise, gets, modify, require, ◌>>=◌, ◌>>◌, find,
  same, select, ◌<>◌, starts_with, ◌||◌,
}
use rougarou_os.Jobs.Schema.{
  Task, TaskDetail, Db, OperatorError, bad_task_name, unknown_task, systemd_timeout, systemd_failed,
  os_error, unmanaged_unit, not_private, not_regular, invalid_json, integrity, nested_transaction,
  index_error,
}
use rougarou_os.Jobs.Store.{Op}
use rougarou_os.Jobs.Ops.{Paths}

-- A unit file, with what `check_regular` of cli.py asks of it.
pub record UnitFile : Type 0 where
  pub name : String
  pub contents : String
  pub is_regular : Bool
  pub is_owned : Bool
  pub is_private : Bool

pub data Call : Type 0 where
  is_active daemon_reload : Call
  enable_now disable_now : String → Call

-- What the service manager does with a command: it returns an exit status, or not in time, or
-- cannot be started.
pub data Reply : Type 0 where
  returned : ℕ → Reply
  timed_out not_run : Reply

pub record World : Type 0 where
  pub db : Db
  pub units : List UnitFile
  pub calls : List Call

pub data Provider : Type 0 where
  codex : Provider
  responses : String → String → Bool → Provider
  ollama : String → Provider
  custom : List String → Provider

-- The column `spec`, decoded.
pub data Spec : Type 0 where
  command_spec : List String → Spec
  ai_spec : Provider → String → String → Option String → Spec

-- What other programs and libraries answer: the file system, `json.loads` and `json.dumps`,
-- `shutil.which`, the check of the provider's settings, `codex login status`, the service manager
-- and the directories of the operator.
pub record Outside : Type 0 where
  pub paths : Paths
  pub loads : String → Option Spec
  pub dumps : Spec → String
  pub quote : String → String
  pub is_installed : String → Bool
  pub refuses : Provider → Option OperatorError
  pub login : Reply
  pub manager : Call → Reply
  pub is_writable : String → Bool
  pub config_home : String
  pub state_home : String
  pub search_path : String

abbrev pub TaskOp : Type 0 → Type 0
TaskOp A = Exec World OperatorError A

abbrev pub put_db :
    {A : Type 0} → World → Result OperatorError A × Db → Result OperatorError A × World
put_db w (r, s) = (r, record w { db = s })

unfoldable pub on_db : {A : Type 0} → Op A → TaskOp A
on_db m w = put_db w (m w.db)

-- `except (cli.OperatorError, OSError)`: the other errors are not caught.
abbrev pub is_caught : OperatorError → Bool
is_caught invalid_json = false
is_caught index_error = false
is_caught integrity = false
is_caught nested_transaction = false
is_caught _ = true

-- `MARKER`
abbrev pub marker : String
marker = "# Managed by rougarou tasks\n"

abbrev is_between : ℕ → ℕ → ℕ → Bool
is_between lo hi c = leb lo c && leb c hi

-- `[a-z0-9]`, and with the hyphen `[a-z0-9-]`
abbrev pub is_letter_or_digit : ℕ → Bool
is_letter_or_digit c = is_between 97 122 c || is_between 48 57 c

unfoldable pub all_name_chars : List ℕ → Bool
all_name_chars [] = true
all_name_chars (c ∷ cs) = (is_letter_or_digit c || c == 45) && all_name_chars cs

abbrev pub is_name : List ℕ → Bool
is_name [] = false
is_name (c ∷ cs) = is_letter_or_digit c && (all_name_chars cs && leb (length cs) 47)

unfoldable pub name_check : String → Op (Unit {0})
name_check name = require (is_name (codes name)) bad_task_name

abbrev pub task_key : Task → String
task_key t = t.name

-- The row under a name, unless it was removed and is not asked for.
abbrev pub known_task : String → Bool → Option Task → Op Task
known_task name deleted none = raise (unknown_task name)
known_task name deleted (some task) =
    if task.deleted && not deleted then raise (unknown_task name) else pure task

unfoldable pub get : String → Bool → Op Task
get name deleted = do
  name_check name
  row ← gets (λ s. find task_key name s.scheduled_tasks)
  known_task name deleted row

-- `record`, whose name is a word of this language.
unfoldable pub record_event : String → TaskDetail → ℕ → Op (Unit {0})
record_event name detail at = modify λ s. record s {
  scheduled_events =
      s.scheduled_events ++ record { task_name = name; at = at; detail = detail } ∷ [];
}

abbrev pub reply_error : Reply → Option OperatorError
reply_error (returned code) = if code == 0 then none else some systemd_failed
reply_error timed_out = some systemd_timeout
reply_error not_run = some os_error

abbrev pub checked : Option OperatorError → TaskOp (Unit {0})
checked none = pure tt
checked (some e) = raise e

unfoldable pub systemctl : Outside → Call → TaskOp (Unit {0})
systemctl outside call = do
  modify λ w. record w { calls = w.calls ++ call ∷ [] }
  checked (reply_error (outside.manager call))

abbrev pub unit_key : UnitFile → String
unit_key u = u.name

abbrev pub unit_name : String → String → String
unit_name name suffix = "rougarou-task-" <> name <> "." <> suffix

-- `check_regular` and `managed_file`: a file that is there is the operator's own and was written by
-- this program.
abbrev pub check_regular : Bool → UnitFile → TaskOp (Unit {0})
check_regular private u = do
  require (u.is_regular && u.is_owned) not_regular
  require (not private || u.is_private) not_private

abbrev pub managed_unit : Option UnitFile → TaskOp (Unit {0})
managed_unit none = pure tt
managed_unit (some u) = do
  check_regular true u
  require (starts_with u.contents marker) unmanaged_unit

unfoldable pub managed_file : String → TaskOp (Unit {0})
managed_file name = do u ← gets (λ w. find unit_key name w.units); managed_unit u

abbrev pub replaceable : Option UnitFile → TaskOp (Unit {0})
replaceable none = pure tt
replaceable (some u) = check_regular false u

abbrev pub own_unit : String → String → UnitFile
own_unit name contents = record {
  name = name;
  contents = contents;
  is_regular = true;
  is_owned = true;
  is_private = true;
}

abbrev pub without : String → List UnitFile → List UnitFile
without name units = select (λ u. not (same u.name name)) units

-- `cli.atomic_write` without a backup: the new file takes the old one's place or nothing changes.
unfoldable pub atomic_write : Outside → String → String → TaskOp (Unit {0})
atomic_write outside name contents = do
  u ← gets (λ w. find unit_key name w.units)
  replaceable u
  require (outside.is_writable name) os_error
  modify λ w. record w { units = without name w.units ++ own_unit name contents ∷ [] }

-- `path.unlink(missing_ok=True)`
unfoldable pub unlink : Outside → String → TaskOp (Unit {0})
unlink outside name = do
  require (outside.is_writable name) os_error
  modify λ w. record w { units = without name w.units }
