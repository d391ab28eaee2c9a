-- ===== src/Jobs/Step.antt =====
-- What the operations of rootfs/usr/lib/rougarou/jobs.py may do to the queue, as a step relation:
-- the abstract view of the queue's life. `Refine` shows that each operation is a run of steps.
use rougarou_os.Base.{
  ℕ, String, ◌≡◌, true, false, Option, none, some, [], ◌∷◌, ◌++◌, ℤ, find, update,
}
use mathlib.Core.List.{Memᴰ}
use rougarou_os.Jobs.Schema.{
  State, queued, running, cancelled, is_terminal, needs_attention, Message,
  cancelled_before_execution, reviewed, Job, Mark, entered, cancel_asked, acknowledged, Heartbeat,
  Db,
}
use rougarou_os.Jobs.Store.{next_seq, job_key}
use rougarou_os.Jobs.Ops.{put_acknowledgment, start}

-- The state after `event`, and after an `UPDATE jobs … WHERE id=?`.
abbrev pub with_event : String → Mark → Option Message → ℕ → Db → Db
with_event id mark detail at s = record s {
  events =
      s.events
      ++ record { seq = next_seq s.events; job_id = id; at = at; mark = mark; detail = detail }
        ∷ [];
}

abbrev pub with_job : String → (Job → Job) → Db → Db
with_job id f s = record s { jobs = update job_key id f s.jobs }

abbrev pub settle : State → ℕ → Option ℤ → Option Message → Job → Job
settle final now code why j = record j {
  state = final;
  finished = some now;
  exit_code = code;
  reason = why;
}

abbrev pub drop : ℕ → Job → Job
drop now j = record j {
  state = cancelled;
  finished = some now;
  reason = some cancelled_before_execution;
}

abbrev pub ask : Job → Job
ask j = record j { cancel_requested = true }

-- How a job enters the queue.
pub record IsNew (j : Job) : Type 0 where
  pub waits : j.state ≡ queued
  pub never_started : j.started ≡ none
  pub not_finished : j.finished ≡ none
  pub not_asked : j.cancel_requested ≡ false

pub data Step (s t : Db) : Type 0 where
  submitting :
      (j : Job) (detail : Option Message) (at : ℕ)
      → find job_key j.id s.jobs ≡ none
      → IsNew j
      → t ≡ with_event j.id (entered queued) detail at (record s { jobs = s.jobs ++ j ∷ [] })
      → Step s t
  starting :
      (id : String) (row : Job) (now at : ℕ)
      → find job_key id s.jobs ≡ some row
      → row.state ≡ queued
      → t ≡ with_event id (entered running) none at (with_job id (start now) s)
      → Step s t
  settling :
      (id : String) (row : Job) (final : State) (now at : ℕ) (code : Option ℤ)
      (why : Option Message)
      → find job_key id s.jobs ≡ some row
      → is_terminal row.state ≡ false
      → is_terminal final ≡ true
      → (row.cancel_requested ≡ true → final ≡ cancelled)
      → t ≡ with_event id (entered final) why at (with_job id (settle final now code why) s)
      → Step s t
  dropping :
      (id : String) (row : Job) (now at : ℕ)
      → find job_key id s.jobs ≡ some row
      → row.state ≡ queued
      → t
        ≡ with_event id
            (entered cancelled)
            (some cancelled_before_execution)
            at
            (with_job id (drop now) s)
      → Step s t
  asking :
      (id : String) (row : Job) (at : ℕ)
      → find job_key id s.jobs ≡ some row
      → row.state ≡ running
      → t ≡ with_event id cancel_asked none at (with_job id ask s)
      → Step s t
  reviewing :
      (row : Job) (now at : ℕ)
      → Memᴰ row s.jobs
      → needs_attention row.state ≡ true
      → t
        ≡ with_event row.id acknowledged (some (reviewed row.state)) at (
            put_acknowledgment
              (record { job_id = row.id; state = row.state; acknowledged_at = now })
              s)
      → Step s t
  beating : (w : Option Heartbeat) → t ≡ record s { worker = w } → Step s t

pub data Steps (s : Db) : Db → Type 0 where
  here : Steps s s
  next : {t u : Db} → Steps s t → Step t u → Steps s u

pub one : {s t : Db} → Step s t → Steps s t
one st = next here st

pub Steps-trans : {s t u : Db} → Steps s t → Steps t u → Steps s u
Steps-trans r here = r
Steps-trans r (next r' st) = next (Steps-trans r r') st
