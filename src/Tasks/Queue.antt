-- ===== src/Tasks/Queue.antt =====
-- Queueing a task in rootfs/usr/lib/rougarou/tasks.py keeps the tables as they should be.
use rougarou_os.Base.{
  ℕ, String, ◌≡◌, refl, true, false, Option, none, some, List, [], ◌∷◌, ◌++◌, find, first, is_some,
  All-map, All-append, find-append_self, first-append_left, arith, inl, inr, Bool-cases,
  Option-cases, Post, Triple, Triple-bind, Triple-require, Post-map, require, Result, ok, err,
  eq_iff, in_range,
}
use rougarou_os.Jobs.Schema.{
  Job, Task, queued_as, skipped, Run, Db, OperatorError, workspace_missing, workspace_not_directory,
  bad_limits,
}
use rougarou_os.Jobs.Store.{
  Op, job_key, transaction, commit_or_rollback, nested, insert_job, event, or_raise,
}
use rougarou_os.Jobs.Ops.{Paths, Request, submit, insert_block}
use rougarou_os.Jobs.Refine.{submit-Steps}
use rougarou_os.Tasks.Store.{Outside, Spec, record_event}
use rougarou_os.Tasks.Ops.{
  is_active_run, insert_run, queue_run, skip_run, enqueue_block, run_key, run_request,
}
use rougarou_os.Tasks.Units.{is_test}
use rougarou_os.Tasks.Tables.{
  Apart, Single, IsLinked, IsScheduled, Steps-IsScheduled, Steps-Quiet, Quiet,
}
use rougarou_os.Tasks.Keep.{IsValid-with, Keeps, record_event-Keeps}

-- The job that `submit` returns is in the queue.
abbrev Found : String → Db → Type 0
Found id s = (j : Job) × (find job_key id s.jobs ≡ some j)

insert_job-Found : (j : Job) → Triple (λ _. Unit) (insert_job j) (λ _. Found j.id) (λ _. Unit)
unfolding insert_job
insert_job-Found j s _ = elim (Option-cases (find job_key j.id s.jobs)) [
  | inr (x, e) ↦ rw e tt
  | inl e ↦ rw e (j, find-append_self job_key j.id s.jobs j e refl)
]

insert_block-Found :
    (r : Request) (workspace : String) (timeout delay : ℕ) (clock : ℕ → ℕ)
    → Triple
        (λ _. Unit)
        (insert_block r workspace timeout delay clock)
        (λ _. Found r.job_id)
        (λ _. Unit)
unfolding insert_block event
insert_block-Found r workspace timeout delay clock =
    Triple-bind (λ _. Unit) (λ _. Found r.job_id) (λ _. Found r.job_id) (insert_job _) _
      (insert_job-Found _) (λ _ s h. h)

commit-Found :
    (id : String) (s : Db) (x : Result OperatorError (Unit {0}) × Db)
    → Post (λ _. Found id) (λ _. Unit) x
    → Post (λ _. Found id) (λ _. Unit) (commit_or_rollback s x)
commit-Found id s (ok a, t) h = h
commit-Found id s (err e, t) h = tt

nested-Found :
    (id : String) (block : Op (Unit {0}))
    → Triple (λ _. Unit) block (λ _. Found id) (λ _. Unit)
    → Triple (λ _. Unit) (nested block) (λ _. Found id) (λ _. Unit)
unfolding nested transaction
nested-Found id block h s _ = elim (Bool-cases s.in_transaction) [
  | inl e ↦ simp e (h s tt)
  | inr e ↦ simp e (commit-Found id s _ (h (record s { in_transaction = true }) tt))
]

or_raise_any :
    {A : Type 0} (e : OperatorError) (o : Option A)
    → Triple (λ _. Unit) (or_raise e o) (λ _ _. Unit) (λ _. Unit)
or_raise_any e none s _ = tt
or_raise_any e (some a) s _ = tt

submit-Found :
    (paths : Paths) (r : Request) (clock : ℕ → ℕ)
    → Triple (λ _. Unit) (submit paths r clock) Found (λ _. Unit)
unfolding submit
submit-Found paths r clock =
    Triple-bind (λ _. Unit) (λ _ _. Unit) Found
      (or_raise workspace_missing (paths.resolve r.workspace)) _
      (or_raise_any workspace_missing (paths.resolve r.workspace))
      λ workspace.
        Triple-bind (λ _. Unit) (λ _ _. Unit × (paths.is_dir workspace ≡ true)) Found
          (require (paths.is_dir workspace) workspace_not_directory) _
          (Triple-require (paths.is_dir workspace) workspace_not_directory (λ _ h. h))
          λ _ s _.
            Triple-bind (λ _. Unit) (λ _ _. Unit) Found
              (or_raise bad_limits (in_range 1 604800 r.timeout)) _
              (or_raise_any bad_limits (in_range 1 604800 r.timeout))
              (λ timeout.
                Triple-bind (λ _. Unit) (λ _ _. Unit) Found
                  (or_raise bad_limits (in_range 0 31536000 r.delay)) _
                  (or_raise_any bad_limits (in_range 0 31536000 r.delay))
                  λ delay.
                    Triple-bind (λ _. Unit) (λ _. Found r.job_id) Found
                      (nested (insert_block r workspace timeout delay clock)) _
                      (nested-Found r.job_id _ (insert_block-Found r workspace timeout delay clock))
                      λ _ s h. h)
              s tt

Post-both :
    {A : Type 0} (Q : A → Db → Type 0) (P : Db → Type 0) (x : Result OperatorError A × Db)
    → Post Q (λ _. Unit) x
    → P x.1
    → Post (λ a s. Q a s × P s) P x
Post-both Q P (ok a, s) h p = (h, p)
Post-both Q P (err e, s) h p = p

abbrev Still : String → Db → Type 0
Still name s = IsScheduled s × Quiet name s.jobs s.scheduled_runs

Single-append :
    (jobs : List Job) (rs : List Run) (r : Run)
    → Single jobs rs
    → Quiet r.task_name jobs rs
    → Single jobs (rs ++ r ∷ [])
Single-append jobs [] r h q = (tt, tt)
Single-append jobs (x ∷ rs) r h q = (
  All-append (Apart jobs x) rs (r ∷ []) h.0 (
    (λ n a b.
        q.0 (ground (arith, eq_iff x.task_name r.task_name, eq_iff r.task_name x.task_name)) a),
    tt,
  ),
  Single-append jobs rs r h.1 q.1,
)

insert_run_keeps :
    (r : Run)
    → Triple
        (λ s. Found r.job_id s × Still r.task_name s)
        (insert_run r)
        (λ _. IsScheduled)
        IsScheduled
unfolding insert_run
insert_run_keeps r s (found, ((v, (k, ts, l, single)), q)) =
    elim (Option-cases (find run_key r.job_id s.scheduled_runs)) [
      | inr (x, e) ↦ rw e (v, (k, ts, l, single))
      | inl e ↦ rw e (
        IsValid-with s _ _ _ _ v,
        (
          k,
          All-map _ _ s.scheduled_tasks
              (λ t h. (
                h.0,
                λ on. first-append_left (is_test t s.jobs) s.scheduled_runs (r ∷ []) (h.1 on),
              ))
              ts,
          All-append (IsLinked s.jobs) s.scheduled_runs (r ∷ []) l (found, tt),
          Single-append s.jobs s.scheduled_runs r single q,
        ),
      )
    ]

queue_run-Keeps :
    (outside : Outside) (task : Task) (spec : Spec) (id : String) (clock : ℕ → ℕ)
    → Triple (Still task.name) (queue_run outside task spec id clock) (λ _. IsScheduled) IsScheduled
unfolding queue_run
queue_run-Keeps outside task spec id clock =
    let r = run_request outside task spec id in
    Triple-bind IsScheduled (λ job s. Found job s × Still task.name s) (λ _. IsScheduled)
      (submit outside.paths r clock) _
      (λ s (h, q).
        let steps = submit-Steps outside.paths r clock s in
        Post-map (submit outside.paths r clock s) (λ _ _ x. x) (λ _ x. x.0)
          (Post-both Found (Still task.name) (submit outside.paths r clock s)
            (submit-Found outside.paths r clock s tt)
            (Steps-IsScheduled steps h, Steps-Quiet task.name steps h q)))
      λ job.
        Triple-bind IsScheduled (λ _. IsScheduled) (λ _. IsScheduled)
          (insert_run (record { job_id = job; task_name = task.name; revision = task.revision })) _
          (insert_run_keeps _)
          λ _.
            Triple-bind IsScheduled (λ _. IsScheduled) (λ _. IsScheduled)
              (record_event task.name (queued_as job) (clock 2)) _
              (record_event-Keeps task.name (queued_as job) (clock 2)) λ _ s h. h

no_active :
    (s : Db) (name : String) (rs : List Run)
    → is_some (first (is_active_run s name) rs) ≡ false
    → Quiet name s.jobs rs
unfolding first
no_active s name [] e = tt
no_active s name (r ∷ rs) e = elim (Bool-cases (is_active_run s name r)) [
  | inl a ↦ let no : true ≡ false = rw a at e in cc
  | inr a ↦ (λ n b. ground arith, no_active s name rs (rw a at e))
]

pub enqueue_block-Keeps :
    (outside : Outside) (task : Task) (id : String) (clock : ℕ → ℕ)
    → Keeps (enqueue_block outside task id clock)
unfolding enqueue_block skip_run record_event
enqueue_block-Keeps outside task id clock s h =
    elim (Bool-cases (is_some (first (is_active_run s task.name) s.scheduled_runs))) [
      | inl a ↦ rw a (record_event-Keeps task.name skipped (clock 0) s h)
      | inr a ↦ rw a (elim (Option-cases (outside.loads task.spec)) [
        | inl e ↦ rw e h
        | inr (spec, e) ↦ rw e (
            queue_run-Keeps outside task spec id clock s
              (h, no_active s task.name s.scheduled_runs a))
      ])
    ]
