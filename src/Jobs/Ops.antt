-- ===== src/Jobs/Ops.antt =====
-- The operations of rootfs/usr/lib/rougarou/jobs.py on the queue. Each call of `time.time()` in an
-- operation is a reading `clock i`, numbered in the order of the source; SQLite's transactions,
-- keys and statements are written out.
use rougarou_os.Base.{
  ℕ, ◌+◌, ◌*◌, String, Bool, true, false, not, ◌&&◌, ◌||◌, Option, none, some, List, [], ◌∷◌, ◌++◌,
  map, ℤ, in_range, leb, ltb, ◌==◌, same, is_some, is_none, if◌then◌else◌, pure, gets, modify,
  require, ◌>>=◌, ◌>>◌, select, first, find, update, order_by, fetch_one, text_le,
}
use rougarou_os.Jobs.Schema.{
  State, queued, running, cancelled, interrupted, is_terminal, needs_attention, is_queued,
  is_running, same_state, Kind, Message, retry_of, cancelled_by_operator,
  cancelled_before_execution, worker_vanished, reviewed, Job, entered, cancel_asked, acknowledged,
  WorkerState, Acknowledgment, Db, already, not_reviewable, workspace_missing,
  workspace_not_directory, bad_limits,
}
use rougarou_os.Jobs.Store.{
  Op, transaction, event, job_key, second, get_job, insert_job, update_job, or_raise, nested,
}

-- What the file system says of a workspace: `Path.resolve(strict=True)` and `Path.is_dir`.
pub record Paths : Type 0 where
  pub resolve : String → Option String
  pub is_dir : String → Bool

-- What `submit` is given. `uuid.uuid4().hex[:16]` is `job_id`, and `spec` is `json.dumps(spec)`.
pub record Request : Type 0 where
  pub job_id : String
  pub kind : Kind
  pub spec : String
  pub workspace : String
  pub timeout : ℤ
  pub delay : ℤ
  pub parent : Option String

abbrev pub retry_detail : Option String → Option Message
retry_detail none = none
retry_detail (some parent) = some (retry_of parent)

abbrev pub new_job : Request → String → ℕ → ℕ → ℕ → Job
new_job r workspace timeout delay now = record {
  id = r.job_id;
  kind = r.kind;
  spec = r.spec;
  workspace = workspace;
  timeout = timeout;
  state = queued;
  created = now;
  ready = now + delay * second;
  started = none;
  finished = none;
  exit_code = none;
  reason = none;
  cancel_requested = false;
  parent = r.parent;
}

unfoldable pub insert_block : Request → String → ℕ → ℕ → (ℕ → ℕ) → Op (Unit {0})
insert_block r workspace timeout delay clock = do
  insert_job (new_job r workspace timeout delay (clock 0))
  event r.job_id (entered queued) (retry_detail r.parent) (clock 1)

unfoldable pub submit : Paths → Request → (ℕ → ℕ) → Op String
submit paths r clock = do
  workspace ← or_raise workspace_missing (paths.resolve r.workspace)
  require (paths.is_dir workspace) workspace_not_directory
  timeout ← or_raise bad_limits (in_range 1 604800 r.timeout)
  delay ← or_raise bad_limits (in_range 0 31536000 r.delay)
  nested (insert_block r workspace timeout delay clock)
  pure r.job_id

-- What `finish` records: a job that was asked to stop is cancelled, whatever its outcome.
abbrev pub outcome : Job → State → Option Message → State × Option Message
outcome row state reason =
    if row.cancel_requested then (cancelled, some cancelled_by_operator) else (state, reason)

unfoldable pub finish : String → State → Option Message → Option ℤ → (ℕ → ℕ) → Op (Unit {0})
finish id state reason exit_code clock = transaction do
  row ← get_job id
  let (final, why) = outcome row state reason
  if is_terminal row.state then pure tt else do
    update_job id λ j. record j {
      state = final;
      finished = some (clock 0);
      exit_code = exit_code;
      reason = why;
    }
    event id (entered final) why (clock 1)

unfoldable pub cancel : String → (ℕ → ℕ) → Op (Unit {0})
cancel id clock = transaction do
  row ← get_job id
  require (not (is_terminal row.state)) (already row.state)
  if is_queued row.state
      then (do
        update_job id λ j. record j {
          state = cancelled;
          finished = some (clock 0);
          reason = some cancelled_before_execution;
        }
        event id (entered cancelled) (some cancelled_before_execution) (clock 1))
      else (do
        update_job id λ j. record j { cancel_requested = true }
        event id cancel_asked none (clock 0))

-- No acknowledgment of this job and this outcome: the `LEFT JOIN … WHERE a.job_id IS NULL`.
unfoldable pub is_unreviewed : Db → Job → Bool
is_unreviewed s j =
    needs_attention j.state
    && is_none (first (λ a. same a.job_id j.id && same_state a.state j.state) s.job_acknowledgments)

abbrev pub acknowledgment_key : Acknowledgment → String
acknowledgment_key a = a.job_id

-- `INSERT … ON CONFLICT(job_id) DO UPDATE SET state=…,acknowledged_at=…`
unfoldable pub put_acknowledgment : Acknowledgment → Db → Db
put_acknowledgment a s =
    if is_some (find acknowledgment_key a.job_id s.job_acknowledgments)
    then record s {
      job_acknowledgments =
          update acknowledgment_key a.job_id
            (λ old. record old { state = a.state; acknowledged_at = a.acknowledged_at })
            s.job_acknowledgments;
    }
    else record s { job_acknowledgments = s.job_acknowledgments ++ a ∷ [] }

-- `ORDER BY j.created,j.id`
abbrev pub created_then_id : Job → Job → Bool
created_then_id a b = ltb a.created b.created || a.created == b.created && text_le a.id b.id

abbrev pub is_chosen : Option String → Job → Bool
is_chosen none j = true
is_chosen (some id) j = same j.id id

-- A job that is named must exist and have failed.
unfoldable pub check_reviewable : Option String → Op (Unit {0})
check_reviewable none = pure tt
check_reviewable (some id) = do row ← get_job id; require (needs_attention row.state) not_reviewable

unfoldable pub acknowledge_rows : ℕ → (ℕ → ℕ) → List Job → Op (Unit {0})
acknowledge_rows now clock [] = pure tt
acknowledge_rows now clock (row ∷ rows) = do
  modify (put_acknowledgment (record { job_id = row.id; state = row.state; acknowledged_at = now }))
  event row.id acknowledged (some (reviewed row.state)) (clock 0)
  acknowledge_rows now (λ i. clock (i + 1)) rows

unfoldable pub unreviewed_rows : Option String → Db → List Job
unreviewed_rows chosen s =
    order_by created_then_id (select (λ j. is_unreviewed s j && is_chosen chosen j) s.jobs)

unfoldable pub acknowledge_block : Option String → (ℕ → ℕ) → Op (List String)
acknowledge_block chosen clock = do
  rows ← gets (unreviewed_rows chosen)
  acknowledge_rows (clock 0) (λ i. clock (i + 1)) rows
  pure (map job_key rows)

unfoldable pub acknowledge : Option String → (ℕ → ℕ) → Op (List String)
acknowledge chosen clock = transaction do check_reviewable chosen; acknowledge_block chosen clock

unfoldable pub finish_vanished : (ℕ → ℕ) → List Job → Op (Unit {0})
finish_vanished clock [] = pure tt
finish_vanished clock (row ∷ rows) = do
  finish row.id interrupted (some worker_vanished) none clock
  finish_vanished (λ i. clock (i + 2)) rows

-- Each of the `finish` calls is a transaction of its own.
unfoldable pub recover : (ℕ → ℕ) → Op (Unit {0})
recover clock = do
  rows ← gets (λ s. select (λ j. is_running j.state) s.jobs)
  finish_vanished clock rows

-- `ORDER BY ready,created`
abbrev pub ready_then_created : Job → Job → Bool
ready_then_created a b = ltb a.ready b.ready || a.ready == b.ready && leb a.created b.created

abbrev pub is_due : ℕ → Job → Bool
is_due now j = is_queued j.state && leb j.ready now

abbrev pub start : ℕ → Job → Job
start now j = record j { state = running; started = some now }

unfoldable pub claim_row : (ℕ → ℕ) → Option Job → Op (Option Job)
claim_row clock none = pure none
claim_row clock (some row) = do
  update_job row.id (start (clock 1))
  event row.id (entered running) none (clock 2)
  job ← get_job row.id
  pure (some job)

unfoldable pub claim : (ℕ → ℕ) → Op (Option Job)
claim clock = transaction do
  row ← gets (λ s. fetch_one (order_by ready_then_created (select (is_due (clock 0)) s.jobs)))
  claim_row clock row

-- `INSERT OR REPLACE INTO worker VALUES(1,…)`
unfoldable pub heartbeat : ℕ → WorkerState → ℕ → Op (Unit {0})
heartbeat pid state at =
    modify λ s. record s { worker = some (record { pid = pid; heartbeat = at; state = state }) }
