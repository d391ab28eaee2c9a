-- ===== src/Backup/Queue.antt =====
-- `prepare_queue` of rootfs/usr/lib/rougarou/backup.py, on the copy of a queue in a restored tree.
use rougarou_os.Base.{
  ℕ, Bool, false, ◌||◌, none, some, List, [], ◌∷◌, map, length, pure, gets, modify, require, ◌>>=◌,
  ◌>>◌, select, if◌then◌else◌,
}
use rougarou_os.Jobs.Schema.{
  State, interrupted, is_queued, is_running, restored, Job, entered, Task, unsupported_queue,
}
use rougarou_os.Jobs.Store.{Op, event, update_job}

abbrev pub is_pending : Job → Bool
is_pending j = is_queued j.state || is_running j.state

abbrev pub quarantine : ℕ → State → Job → Job
quarantine now previous j = record j {
  state = interrupted;
  finished = some now;
  reason = some (restored previous);
  cancel_requested = false;
}

unfoldable pub quarantine_rows : ℕ → List Job → Op (Unit {0})
quarantine_rows now [] = pure tt
quarantine_rows now (row ∷ rows) = do
  update_job row.id (quarantine now row.state)
  event row.id (entered interrupted) (some (restored row.state)) now
  quarantine_rows now rows

abbrev pub switch_off : Task → Task
switch_off t = record t { enabled = false }

-- `is_supported`: the copy has schema version 1 and passes SQLite's integrity check. A copy without
-- the tasks' tables is one in which they are empty.
unfoldable pub prepare_copy : Bool → ℕ → Op ℕ
prepare_copy is_supported now = do
  require is_supported unsupported_queue
  pending ← gets (λ s. select is_pending s.jobs)
  quarantine_rows now pending
  modify λ s. record s { worker = none }
  modify λ s. record s { scheduled_tasks = map switch_off s.scheduled_tasks }
  pure (length pending)

-- `is_present`: the snapshot has a queue.
unfoldable pub prepare_queue : Bool → Bool → ℕ → Op ℕ
prepare_queue is_present is_supported now =
    if is_present then prepare_copy is_supported now else pure 0
