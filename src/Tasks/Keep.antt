-- ===== src/Tasks/Keep.antt =====
-- Saving and queueing a task in rootfs/usr/lib/rougarou/tasks.py keep the tables as they should be.
use rougarou_os.Base.{
  ℕ, String, ◌≡◌, refl, Bool, true, false, not, Option, none, some, List, [], ◌∷◌, ◌&&◌, find,
  All-append, All-update_row, Keyed-append, Keyed-update, arith, inl, inr, Bool-cases, Option-cases,
  Post, Triple, Triple-bind, Triple-require, Triple-if, update, codes, require, Result, ok, err,
  if◌then◌else◌,
}
use rougarou_os.Jobs.Schema.{
  Task, TaskDetail, edited, created_paused, TaskEvent, Run, Db, OperatorError,
}
use rougarou_os.Jobs.Store.{Op, transaction, commit_or_rollback}
use rougarou_os.Jobs.Valid.{IsValid}
use rougarou_os.Tasks.Store.{get, name_check, is_name, task_key, record_event, known_task}
use rougarou_os.Tasks.Ops.{
  Definition, new_task, redefine, update_task, edit_block, create_block, save,
}
use rougarou_os.Tasks.Tables.{Tables, IsScheduled}

-- The invariant of the queue says nothing of the other columns.
pub IsValid-with :
    (s : Db) (b : Bool) (tasks : List Task) (runs : List Run) (log : List TaskEvent)
    → IsValid s
    → IsValid (record s {
      in_transaction = b;
      scheduled_tasks = tasks;
      scheduled_runs = runs;
      scheduled_events = log;
    })
IsValid-with s b tasks runs log v = record {
  keyed = v.keyed;
  rows = v.rows;
  replays = v.replays;
  backed = v.backed;
  ascending = v.ascending;
}

abbrev pub Keeps : {A : Type 0} → Op A → Type 0
Keeps m = Triple IsScheduled m (λ _. IsScheduled) IsScheduled

pub record_event-Keeps :
    (name : String) (detail : TaskDetail) (at : ℕ) → Keeps (record_event name detail at)
unfolding record_event
record_event-Keeps name detail at s (v, h) = (IsValid-with s _ _ _ _ v, h)

commit-Keeps :
    {A : Type 0} (s : Db) (x : Result OperatorError A × Db)
    → IsScheduled s
    → Post (λ _. IsScheduled) IsScheduled x
    → Post (λ _. IsScheduled) IsScheduled (commit_or_rollback s x)
commit-Keeps s (ok a, t) h (v, k) = (IsValid-with t false _ _ _ v, k)
commit-Keeps s (err e, t) h k = h

pub transaction-Keeps : {A : Type 0} (block : Op A) → Keeps block → Keeps (transaction block)
unfolding transaction
transaction-Keeps block keeps s h = elim (Bool-cases s.in_transaction) [
  | inl e ↦ simp e h
  | inr e ↦ simp e (
      commit-Keeps s (block (record s { in_transaction = true })) h
        (keeps (record s { in_transaction = true }) (IsValid-with s true _ _ _ h.0, h.1)))
]

-- What `get` returns is the row, and it was not removed unless such rows are asked for.
abbrev pub Got : String → Bool → Task → Db → Type 0
Got name deleted t s =
    IsScheduled s
    × (find task_key name s.scheduled_tasks ≡ some t)
    × (deleted ≡ false → t.deleted ≡ false)

known-Got :
    (name : String) (d : Bool) (o : Option Task) (s : Db)
    → IsScheduled s
    → find task_key name s.scheduled_tasks ≡ o
    → Post (Got name d) IsScheduled (known_task name d o s)
known-Got name d none s h e = h
known-Got name d (some t) s h e = elim (Bool-cases (t.deleted && not d)) [
  | inl b ↦ rw b h
  | inr b ↦ rw b (h, e, λ x. ground arith)
]

pub get-Got : (name : String) (d : Bool) → Triple IsScheduled (get name d) (Got name d) IsScheduled
unfolding get name_check
get-Got name d s h = elim (Bool-cases (is_name (codes name))) [
  | inl e ↦ rw e (known-Got name d (find task_key name s.scheduled_tasks) s h refl)
  | inr e ↦ rw e h
]

-- An update of the rows under a name that are switched off, which leaves them off.
edit_row :
    (name : String) (d : Definition) (task : Task) (s : Db)
    → Got name false task s
    → task.enabled ≡ false
    → Tables s.jobs (update task_key name (redefine d) s.scheduled_tasks) s.scheduled_runs
edit_row name d task s ((v, (k, ts, l, single)), f, _) off = (
  Keyed-update task_key name (redefine d) s.scheduled_tasks (λ _. refl) k,
  All-update_row task_key name (redefine d) s.scheduled_tasks task k f (λ _. off, λ on. cc)
      (λ _ _ h. h) ts,
  l,
  single,
)

edit-Keeps : (name : String) (d : Definition) (clock : ℕ → ℕ) → Keeps (edit_block name d clock)
unfolding edit_block update_task
edit-Keeps name d clock =
    Triple-bind IsScheduled (Got name false) (λ _. IsScheduled) (get name false) _
      (get-Got name false)
      λ task.
        Triple-bind IsScheduled (λ _ s. Got name false task s × (not task.enabled ≡ true))
          (λ _. IsScheduled) (require (not task.enabled) _) _
          (Triple-require (not task.enabled) _ (λ s g. g.0))
          λ _.
            Triple-bind IsScheduled (λ _. IsScheduled) (λ _. IsScheduled)
              (update_task name (redefine d)) _
              (λ s (g, off).
                (IsValid-with s _ _ _ _ g.0.0, edit_row name d task s g (ground arith)))
              λ _. record_event-Keeps name edited (clock 0)

create-Keeps : (name : String) (d : Definition) (clock : ℕ → ℕ) → Keeps (create_block name d clock)
unfolding create_block
create-Keeps name d clock s (v, (k, ts, l, single)) =
    elim (Option-cases (find task_key name s.scheduled_tasks)) [
      | inr (t, e) ↦ rw e (v, (k, ts, l, single))
      | inl e ↦ rw e (
          record_event-Keeps name created_paused (clock 0) _ (
            IsValid-with s _ _ _ _ v,
            (
              Keyed-append task_key s.scheduled_tasks (new_task name d) k e,
              All-append _ s.scheduled_tasks (new_task name d ∷ []) ts ((λ _. refl, λ on. cc), tt),
              l,
              single,
            ),
          ))
    ]

pub save-Keeps :
    (name : String) (d : Definition) (edit : Bool) (clock : ℕ → ℕ) → Keeps (save name d edit clock)
unfolding save name_check
save-Keeps name d edit clock s h = elim (Bool-cases (is_name (codes name))) [
  | inr e ↦ rw e h
  | inl e ↦ rw e (
      transaction-Keeps (if edit then edit_block name d clock else create_block name d clock)
        (Triple-if IsScheduled (λ _. IsScheduled) edit (edit_block name d clock)
          (create_block name d clock) (λ _. edit-Keeps name d clock)
          (λ _. create-Keeps name d clock))
        s h)
]
