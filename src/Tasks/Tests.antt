-- ===== src/Tasks/Tests.antt =====
-- Runs of the tasks of rootfs/usr/lib/rougarou/tasks.py, and the theorems about them at an input.
use rougarou_os.Base.{
  ℕ, ◌+◌, String, ◌≡◌, refl, true, false, Bool, none, some, List, [], ◌∷◌, pos, map, select, first,
  find, update, order_by, err,
}
use rougarou_os.Jobs.Schema.{systemd_timeout, succeeded, empty, command, State, Task}
use rougarou_os.Jobs.Store.{transaction, event, get_job, insert_job, update_job, next_seq, nested}
use rougarou_os.Jobs.Ops.{
  submit, insert_block, finish, cancel, acknowledge, acknowledge_block, acknowledge_rows,
  check_reviewable, put_acknowledgment, unreviewed_rows, is_unreviewed, claim, claim_row, recover,
  finish_vanished, heartbeat,
}
use rougarou_os.Jobs.Operation.{perform, claiming, finishing}
use rougarou_os.Tasks.Store.{
  Call, enable_now, timed_out, Reply, Outside, World, command_spec, returned, managed_file, on_db,
  all_name_chars, name_check, get, record_event, systemctl, atomic_write, unlink,
}
use rougarou_os.Tasks.Ops.{
  Definition, update_task, edit_block, create_block, save, ready, insert_run, queue_run, skip_run,
  enqueue_block, check_ready, enqueue,
}
use rougarou_os.Tasks.Units.{
  service_text, timer_text, is_tested, set_enabled, write_units, start_timer, enable, stop_timer,
  remove_units, pause, saving, running, firing, enabling, main,
}
use rougarou_os.Tasks.Tables.{IsScheduled}
use rougarou_os.Tasks.Commands.{
  Act, queue, task, act, act_all, act_all-IsScheduled, IsScheduled-empty,
}

abbrev host : Outside
host = record {
  paths = record { resolve = λ p. some p; is_dir = λ p. true };
  loads = λ s. some (command_spec ("true" ∷ []));
  dumps = λ s. "{\"argv\": [\"true\"]}";
  quote = λ s. s;
  is_installed = λ s. true;
  refuses = λ p. none;
  login = returned 0;
  manager = λ c. returned 0;
  is_writable = λ s. true;
  config_home = "/home/op/.config";
  state_home = "/home/op/.local/state";
  search_path = "/usr/bin";
}

abbrev daily : Definition
daily = record {
  calendar = "*-*-* 00:00:00 UTC";
  catch_up = false;
  kind = command;
  spec = "{\"argv\": [\"true\"]}";
  workspace = "/srv";
  timeout = 60;
}

abbrev from : ℕ → ℕ → ℕ
from t i = t + i

abbrev pub blank : World
blank = record { db = empty; units = []; calls = [] }

-- A task is saved, tried, switched on when its job succeeded, and fired twice.
abbrev pub first_day : List Act
first_day =
    task host (saving "nightly" daily false (from 10))
    ∷ task host (enabling "nightly" (from 20))
    ∷ task host (running "nightly" "r1" (from 30))
    ∷ queue (claiming (from 40))
    ∷ queue (finishing "r1" succeeded none (some (pos 0)) (from 50))
    ∷ task host (enabling "nightly" (from 60))
    ∷ task host (firing "nightly" "r2" (from 70))
    ∷ task host (firing "nightly" "r3" (from 80))
    ∷ []

jobs_and_tasks : World → List (String × State) × List (String × Bool)
unfolding act_all act perform submit insert_block nested finish claim claim_row cancel acknowledge
    acknowledge_block acknowledge_rows check_reviewable put_acknowledgment unreviewed_rows
    is_unreviewed recover finish_vanished heartbeat transaction event get_job insert_job update_job
    next_seq select first find update order_by managed_file on_db all_name_chars name_check get
    record_event systemctl atomic_write unlink update_task edit_block create_block save ready
    insert_run queue_run skip_run enqueue_block check_ready enqueue service_text timer_text
    is_tested set_enabled write_units start_timer enable stop_timer remove_units pause main
jobs_and_tasks w =
    (map (λ j. (j.id, j.state)) w.db.jobs, map (λ t. (t.name, t.enabled)) w.db.scheduled_tasks)

-- The first attempt to switch it on fails, and "r3" is skipped while "r2" waits.
first_day_lem :
    jobs_and_tasks (act_all first_day blank)
    ≡ (("r1", succeeded) ∷ ("r2", State.queued) ∷ [], ("nightly", true) ∷ [])
unfolding jobs_and_tasks
first_day_lem = refl

act_all-IsScheduled_example : IsScheduled (act_all first_day blank).db
act_all-IsScheduled_example =
    act_all-IsScheduled first_day blank (tt, (tt, (tt, (tt, (refl, (tt, (tt, (tt, tt))))))))
      IsScheduled-empty

abbrev nightly : Task
nightly = record {
  name = "nightly";
  calendar = "*-*-* 00:00:00 UTC";
  catch_up = false;
  kind = command;
  spec = "{\"argv\": [\"true\"]}";
  workspace = "/srv";
  timeout = 60;
  enabled = false;
  revision = 1;
  deleted = false;
}

-- A host whose service manager does not start the timer in time.
abbrev answer : Call → Reply
answer (enable_now timer) = timed_out
answer _ = returned 0

abbrev slow_host : Outside
slow_host = record host { manager = answer }

-- The task is saved and its first run has succeeded.
abbrev tried : World
tried =
    act_all
      (task host (saving "nightly" daily false (from 10))
        ∷ task host (running "nightly" "r1" (from 30))
        ∷ queue (claiming (from 40))
        ∷ queue (finishing "r1" succeeded none (some (pos 0)) (from 50))
        ∷ [])
      blank

start_fails : (enable slow_host "nightly" (from 60) tried).0 ≡ err systemd_timeout
unfolding jobs_and_tasks
start_fails = refl
