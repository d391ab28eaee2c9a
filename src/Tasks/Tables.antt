-- ===== src/Tasks/Tables.antt =====
-- What the tables of rootfs/usr/lib/rougarou/tasks.py satisfy, and that the queue keeps it.
use rougarou_os.Base.{
  String, ◌≡◌, refl, Bool, true, false, some, List, [], ◌∷◌, ◌||◌, find, first, is_some, same, All,
  All-map, Keyed, arith, inl, inr, Bool-cases, Option-cases,
}
use rougarou_os.Jobs.Schema.{
  Job, Task, Run, Db, is_succeeded, is_terminal, queued, running, is_queued, is_running, State,
  succeeded, failed, cancelled, timed_out, interrupted,
}
use rougarou_os.Jobs.Store.{job_key}
use rougarou_os.Jobs.Step.{Steps}
use rougarou_os.Jobs.Valid.{IsValid, Steps-IsValid}
use rougarou_os.Jobs.Life.{Steps-Survives, same_tables, Steps-tables}
use rougarou_os.Tasks.Store.{task_key}
use rougarou_os.Tasks.Ops.{is_active_job}
use rougarou_os.Tasks.Units.{is_success, is_test}

-- A removed task is switched off, and a task that is switched on had a run of its present revision
-- succeed.
abbrev pub IsTask : List Job → List Run → Task → Type 0
IsTask jobs runs t =
    (t.deleted ≡ true → t.enabled ≡ false)
    × (t.enabled ≡ true → is_some (first (is_test t jobs) runs) ≡ true)

abbrev pub Active : List Job → Run → Type 0
Active jobs r = is_active_job (find job_key r.job_id jobs) ≡ true

-- Two runs of one task are not both waiting or running.
abbrev pub Apart : List Job → Run → Run → Type 0
Apart jobs r x = same x.task_name r.task_name ≡ true → Active jobs r → Active jobs x → ⊥

abbrev pub Single : List Job → List Run → Type 0
Single jobs [] = Unit
Single jobs (r ∷ rs) = All (Apart jobs r) rs × Single jobs rs

abbrev pub IsLinked : List Job → Run → Type 0
IsLinked jobs r = (j : Job) × (find job_key r.job_id jobs ≡ some j)

abbrev pub Tables : List Job → List Task → List Run → Type 0
Tables jobs tasks runs =
    Keyed task_key tasks
    × All (IsTask jobs runs) tasks
    × All (IsLinked jobs) runs
    × Single jobs runs

abbrev pub IsScheduled : Db → Type 0
IsScheduled s = IsValid s × Tables s.jobs s.scheduled_tasks s.scheduled_runs

-- Every job of the one list is in the other, and one that has its outcome is as it was.
abbrev pub Later : List Job → List Job → Type 0
Later xs ys =
    (id : String) (j : Job)
    → find job_key id xs ≡ some j
    → (k : Job) × (find job_key id ys ≡ some k) × (is_terminal j.state ≡ true → k ≡ j)

pub first-imp :
    {A : Type 0} (p q : A → Bool) (xs : List A)
    → ((x : A) → p x ≡ true → q x ≡ true)
    → is_some (first p xs) ≡ true
    → is_some (first q xs) ≡ true
unfolding first
first-imp p q [] f h = h
first-imp p q (x ∷ xs) f h = elim (Bool-cases (p x)) [
  | inl e ↦ rw (f x e) refl
  | inr e ↦ elim (Bool-cases (q x)) [
    | inl d ↦ rw d refl
    | inr d ↦ rw d (first-imp p q xs f (rw e at h))
  ]
]

Steps-Later : {s t : Db} → Steps s t → Later s.jobs t.jobs
Steps-Later steps id j e =
    let (k, f, follows) = Steps-Survives id j steps e in (k, f, follows.final)

succeeded_terminal : (x : State) → is_succeeded x ≡ true → is_terminal x ≡ true
succeeded_terminal x h = ground arith

active_open : (x : State) → is_terminal x ≡ true → (is_queued x || is_running x) ≡ true → ⊥
active_open queued h a = cc
active_open running h a = cc
active_open succeeded h a = cc
active_open failed h a = cc
active_open cancelled h a = cc
active_open timed_out h a = cc
active_open interrupted h a = cc

open_active : (x : State) → is_terminal x ≡ false → (is_queued x || is_running x) ≡ true
open_active queued h = refl
open_active running h = refl
open_active succeeded h = cc
open_active failed h = cc
open_active cancelled h = cc
open_active timed_out h = cc
open_active interrupted h = cc

module _ (xs ys : List Job) (later : Later xs ys) where
  success_later : (r : Run) → is_success xs r ≡ true → is_success ys r ≡ true
  success_later r h = elim (Option-cases (find job_key r.job_id xs)) [
    | inl e ↦ let no : false ≡ true = rw e at h in cc
    | inr (j, e) ↦
        let (k, f, follows) = later r.job_id j e in
        let won : is_succeeded j.state ≡ true = rw e at h in
        rw f (rw (follows (succeeded_terminal j.state won)) won)
  ]

  Active-later : (r : Run) → IsLinked xs r → Active ys r → Active xs r
  Active-later r (j, e) h = elim (Bool-cases (is_terminal j.state)) [
    | inl t ↦
        let (k, f, follows) = later r.job_id j e in
        let going : (is_queued k.state || is_running k.state) ≡ true = rw f at h in
        absurd (active_open j.state t (rw (follows t) at going))
    | inr t ↦ rw e (open_active j.state t)
  ]

  IsLinked-later : (r : Run) → IsLinked xs r → IsLinked ys r
  IsLinked-later r (j, e) = let (k, f, _) = later r.job_id j e in (k, f)

  test_later : (t : Task) (r : Run) → is_test t xs r ≡ true → is_test t ys r ≡ true
  test_later t r h = ground (arith, success_later r)

  Apart-later :
      (r : Run) (qs : List Run)
      → IsLinked xs r
      → All (IsLinked xs) qs
      → All (Apart xs r) qs
      → All (Apart ys r) qs
  Apart-later r [] l m a = tt
  Apart-later r (q ∷ qs) l m a =
      (λ n x y. a.0 n (Active-later r l x) (Active-later q m.0 y), Apart-later r qs l m.1 a.1)

  Single-later : (rs : List Run) → All (IsLinked xs) rs → Single xs rs → Single ys rs
  Single-later [] l h = tt
  Single-later (r ∷ rs) l h = (Apart-later r rs l.0 l.1 h.0, Single-later rs l.1 h.1)

  IsTask-later : (rs : List Run) (t : Task) → IsTask xs rs t → IsTask ys rs t
  IsTask-later rs t (d, e) =
      (d, λ on. first-imp (is_test t xs) (is_test t ys) rs (test_later t) (e on))

  pub Tables-later : (tasks : List Task) (rs : List Run) → Tables xs tasks rs → Tables ys tasks rs
  Tables-later tasks rs (k, ts, l, single) = (
    k,
    All-map _ _ tasks (IsTask-later rs) ts,
    All-map _ _ rs IsLinked-later l,
    Single-later rs l single,
  )

-- No run of the task is waiting or running.
abbrev pub Quiet : String → List Job → List Run → Type 0
Quiet name jobs runs = All (λ r. same r.task_name name ≡ true → Active jobs r → ⊥) runs

Quiet-Later :
    (xs ys : List Job) (later : Later xs ys) (name : String) (rs : List Run)
    → All (IsLinked xs) rs
    → Quiet name xs rs
    → Quiet name ys rs
Quiet-Later xs ys later name [] l q = tt
Quiet-Later xs ys later name (r ∷ rs) l q =
    (λ n a. q.0 n (Active-later xs ys later r l.0 a), Quiet-Later xs ys later name rs l.1 q.1)

pub Steps-Quiet :
    {s t : Db} (name : String)
    → Steps s t
    → IsScheduled s
    → Quiet name s.jobs s.scheduled_runs
    → Quiet name t.jobs t.scheduled_runs
Steps-Quiet {s} {t} name steps (v, (_, _, l, _)) q = elim (Steps-tables steps) [
  | same_tables a b c ↦
      rw b (Quiet-Later s.jobs t.jobs (Steps-Later steps) name s.scheduled_runs l q)
]

-- Whatever the queue does, the tables stay as they should be.
pub Steps-IsScheduled : {s t : Db} → Steps s t → IsScheduled s → IsScheduled t
Steps-IsScheduled {s} {t} steps (v, h) = elim (Steps-tables steps) [
  | same_tables a b c ↦ (
    Steps-IsValid steps v,
    rw a (
        rw b (Tables-later s.jobs t.jobs (Steps-Later steps) s.scheduled_tasks s.scheduled_runs h)),
  )
]
