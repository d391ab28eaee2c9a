-- ===== src/Jobs/Store.antt =====
-- The connection of rootfs/usr/lib/rougarou/jobs.py: transactions, the event log, and the reading,
-- inserting and updating of a row.
use rougarou_os.Base.{
  ℕ, ◌+◌, String, true, false, Option, none, some, List, [], ◌∷◌, ◌++◌, is_none, if◌then◌else◌,
  Exec, Result, ok, err, pure, raise, gets, modify, require, ◌>>=◌, ◌>>◌, find, update, max,
}
use rougarou_os.Jobs.Schema.{
  Message, Job, Mark, Event, Db, OperatorError, unknown_job, integrity, nested_transaction,
}

abbrev pub Op : Type 0 → Type 0
Op A = Exec Db OperatorError A

-- How `BEGIN IMMEDIATE … COMMIT` ends: an error takes every change of the block back.
abbrev pub commit_or_rollback :
    {A : Type 0} → Db → Result OperatorError A × Db → Result OperatorError A × Db
commit_or_rollback s (ok a, s') = (ok a, record s' { in_transaction = false })
commit_or_rollback s (err e, s') = (err e, s)

unfoldable pub transaction : {A : Type 0} → Op A → Op A
transaction block s =
    if s.in_transaction
    then (err nested_transaction, s)
    else commit_or_rollback s (block (record s { in_transaction = true }))

-- A rowid is one more than the largest.
unfoldable pub next_seq : List Event → ℕ
next_seq [] = 1
next_seq (e ∷ es) = max (e.seq + 1) (next_seq es)

unfoldable pub event : String → Mark → Option Message → ℕ → Op (Unit {0})
event id mark detail at = modify λ s. record s {
  events =
      s.events
      ++ record { seq = next_seq s.events; job_id = id; at = at; mark = mark; detail = detail }
        ∷ [];
}

abbrev pub job_key : Job → String
job_key j = j.id

abbrev pub job_or_unknown : String → Option Job → Op Job
job_or_unknown id none = raise (unknown_job id)
job_or_unknown id (some job) = pure job

unfoldable pub get_job : String → Op Job
get_job id = do row ← gets (λ s. find job_key id s.jobs); job_or_unknown id row

-- `INSERT INTO jobs`, whose `id` is a primary key.
unfoldable pub insert_job : Job → Op (Unit {0})
insert_job job = do
  row ← gets (λ s. find job_key job.id s.jobs)
  require (is_none row) integrity
  modify λ s. record s { jobs = s.jobs ++ job ∷ [] }

unfoldable pub update_job : String → (Job → Job) → Op (Unit {0})
update_job id f = modify λ s. record s { jobs = update job_key id f s.jobs }

abbrev pub or_raise : {A : Type 0} → OperatorError → Option A → Op A
or_raise e none = raise e
or_raise e (some a) = pure a

-- `with transaction(db) if not db.in_transaction else contextlib.nullcontext():`
unfoldable pub nested : {A : Type 0} → Op A → Op A
unfolding transaction
nested block s = if s.in_transaction then block s else transaction block s

-- Times are in milliseconds.
abbrev pub second : ℕ
second = 1000
