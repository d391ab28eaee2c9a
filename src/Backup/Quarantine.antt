-- ===== src/Backup/Quarantine.antt =====
-- What the copy of a queue is after `prepare_queue` of rootfs/usr/lib/rougarou/backup.py.
use rougarou_os.Base.{
  ℕ, String, ◌≡◌, refl, sym, ◌∙◌, ap, true, false, ◌||◌, none, some, List, [], ◌∷◌, map, length,
  find, select, same, All, All-map, All-of_mem, All-mem, Keyed, find-mem, find-mem_absent,
  find-update, All-update_row, Result, ok, err, Post, Post-map, continue, select-Selected,
  Keyed-select, ◌⊎◌, inl, inr, Bool-cases, arith, eq_iff,
}
use mathlib.Core.Path.{subst}
use mathlib.Core.List.{Memᴰ}
use rougarou_os.Jobs.Schema.{
  State, queued, running, succeeded, failed, cancelled, timed_out, interrupted, is_terminal,
  is_queued, is_running, restored, Job, Task, Run, Db, entered, OperatorError,
}
use rougarou_os.Jobs.Store.{job_key, event, update_job}
use rougarou_os.Jobs.Valid.{IsValid, change-IsValid}
use rougarou_os.Tasks.Store.{task_key}
use rougarou_os.Tasks.Tables.{IsTask, IsScheduled, Later, Tables-later}
use rougarou_os.Backup.Queue.{
  is_pending, quarantine, quarantine_rows, switch_off, prepare_copy, prepare_queue,
}

pending_open : (x : State) → (is_queued x || is_running x) ≡ true → is_terminal x ≡ false
pending_open queued h = refl
pending_open running h = refl
pending_open succeeded h = cc
pending_open failed h = cc
pending_open cancelled h = cc
pending_open timed_out h = cc
pending_open interrupted h = cc

abbrev Listed : String → List Job → Type 0
Listed id [] = ⊥
Listed id (r ∷ rs) = (r.id ≡ id) ⊎ Listed id rs

-- The rows still to go through are in the queue, waiting or running, and nothing else is.
abbrev Pending : Db → Job → Type 0
Pending s r = (find job_key r.id s.jobs ≡ some r) × (is_pending r ≡ true)

abbrev PendingIn : List Job → Db → Type 0
PendingIn rows s = All (λ j. is_pending j ≡ true → Listed j.id rows) s.jobs

-- Every job is still there, and one that has its outcome is as it was.
abbrev pub Kept : Db → Db → Type 0
Kept s t = Later s.jobs t.jobs

abbrev SameTasks : Db → Db → Type 0
SameTasks s t = (t.scheduled_tasks ≡ s.scheduled_tasks) × (t.scheduled_runs ≡ s.scheduled_runs)

module _ (now : ℕ) (row : Job) (s : Db) (v : IsValid s) (p : Pending s row) where
  abbrev after_row : Db
  after_row =
      (event row.id (entered interrupted) (some (restored row.state)) now
        (update_job row.id (quarantine now row.state) s).1).1

  row-IsValid : IsValid after_row
  unfolding event update_job
  row-IsValid =
      change-IsValid s row.id row (quarantine now row.state) (entered interrupted)
        (some (restored row.state)) now p.0 (λ _. refl) refl (pending_open row.state p.1)
        (record { waiting = λ x. cc; going = λ x. cc; ended = λ x. refl; obeyed = λ x y. cc }) v

  row-Kept : Kept s after_row
  unfolding event update_job
  row-Kept id j f = elim (Bool-cases (same row.id id)) [
    | inl e ↦ (
      quarantine now row.state j,
      rw (find-update job_key (quarantine now row.state) (λ _. refl) row.id id s.jobs)
          (rw (e, f) refl),
      λ t.
          let q : row.id ≡ id = (eq_iff row.id id).0 e in
          let g = p.0 in
          let w = pending_open row.state p.1 in
          let z : row ≡ j = ground (arith, rw q at g) in
          let no_way : is_terminal j.state ≡ false = subst (λ x. is_terminal x.state ≡ false) z w in
          cc,
    )
    | inr e ↦ (
      j,
      rw (find-update job_key (quarantine now row.state) (λ _. refl) row.id id s.jobs) (rw e f),
      λ _. refl,
    )
  ]

  row-PendingIn : (rows : List Job) → PendingIn (row ∷ rows) s → PendingIn rows after_row
  unfolding event update_job
  row-PendingIn rows h =
      All-update_row job_key row.id (quarantine now row.state) s.jobs row v.keyed p.0 (λ on. cc)
        (λ x n q on. elim (q on) [ inl e ↦ ground (arith, eq_iff x.id row.id) | inr l ↦ l ]) h

  row-Pending :
      (rows : List Job)
      → find job_key row.id rows ≡ none
      → All (Pending s) rows
      → All (Pending after_row) rows
  unfolding event update_job
  row-Pending rows n h = All-of_mem _ rows λ r m.
      let q = All-mem (Pending s) rows h m in
      (
        rw (find-update job_key (quarantine now row.state) (λ _. refl) row.id r.id s.jobs) (
            ground (
              arith,
              q.0,
              find-mem_absent job_key row.id rows n m,
              eq_iff r.id row.id,
              eq_iff row.id r.id,
            )),
        q.1,
      )

Listed-select :
    (xs : List Job) (j : Job) → Memᴰ j xs → is_pending j ≡ true → Listed j.id (select is_pending xs)
unfolding select
Listed-select [] j m h = elim m [ ]
Listed-select (x ∷ xs) j (Memᴰ.head e) h =
    let on : is_pending x ≡ true = subst (λ y. is_pending y ≡ true) e h in
    rw on (inl (sym (ap (λ y. y.id) e)))
Listed-select (x ∷ xs) j (Memᴰ.tail m) h = elim (Bool-cases (is_pending x)) [
  | inl e ↦ rw e (inr (Listed-select xs j m h))
  | inr e ↦ rw e (Listed-select xs j m h)
]

abbrev Quarantined : List Job → Db → Db → Type 0
Quarantined rows s t = IsValid t × Kept s t × PendingIn rows t × SameTasks s t

Kept-trans : (s t u : Db) → Kept s t → Kept t u → Kept s u
Kept-trans s t u h g id j e =
    let (k, f, same_k) = h id j e in
    let (l, d, same_l) = g id k f in
    (l, d, λ x. same_l (subst (λ y. is_terminal y.state ≡ true) (sym (same_k x)) x) ∙ same_k x)

quarantine_rows_lem :
    (now : ℕ) (rows : List Job) (s : Db)
    → IsValid s
    → Keyed job_key rows
    → All (Pending s) rows
    → PendingIn rows s
    → Post (λ _. Quarantined [] s) (λ _. ⊥) (quarantine_rows now rows s)
unfolding quarantine_rows event update_job
quarantine_rows_lem now [] s v k p h = (v, (λ id j e. (j, e, λ _. refl)), h, (refl, refl))
quarantine_rows_lem now (row ∷ rows) s v k p h =
    Post-map (quarantine_rows now rows (after_row now row s v p.0))
      (λ _ t q.
        (q.0, Kept-trans s (after_row now row s v p.0) t (row-Kept now row s v p.0) q.1, q.2, q.3))
      (λ _ n. n)
      (quarantine_rows_lem now rows (after_row now row s v p.0) (row-IsValid now row s v p.0) k.1
        (row-Pending now row s v p.0 rows k.0 p.1) (row-PendingIn now row s v p.0 rows h))

Pending-select : (s : Db) → IsValid s → All (Pending s) (select is_pending s.jobs)
Pending-select s v =
    All-map _ _ _ (λ j m. (find-mem job_key s.jobs v.keyed m.0, m.1))
      (select-Selected is_pending s.jobs)

find-map-none :
    (k : String) (xs : List Task)
    → find task_key k xs ≡ none
    → find task_key k (map switch_off xs) ≡ none
unfolding find
find-map-none k [] h = refl
find-map-none k (x ∷ xs) h = ground (arith, find-map-none k xs)

Keyed-map : (xs : List Task) → Keyed task_key xs → Keyed task_key (map switch_off xs)
Keyed-map [] h = tt
Keyed-map (x ∷ xs) h = (find-map-none x.name xs h.0, Keyed-map xs h.1)

all_off : (xs : List Task) → All (λ t. t.enabled ≡ false) (map switch_off xs)
all_off [] = tt
all_off (x ∷ xs) = (refl, all_off xs)

off_tasks :
    (jobs : List Job) (runs : List Run) (xs : List Task)
    → All (IsTask jobs runs) (map switch_off xs)
off_tasks jobs runs [] = tt
off_tasks jobs runs (x ∷ xs) = ((λ _. refl, λ on. cc), off_tasks jobs runs xs)

-- Nothing of the queue would run by itself.
pub record IsInert (t : Db) : Type 0 where
  pub unclaimed : All (λ j. is_pending j ≡ false) t.jobs
  pub unscheduled : All (λ task. task.enabled ≡ false) t.scheduled_tasks
  pub unattended : t.worker ≡ none

abbrev finished_copy : Db → Db
finished_copy t = record t { worker = none; scheduled_tasks = map switch_off t.scheduled_tasks }

copy-IsScheduled : (s t : Db) → IsScheduled s → Quarantined [] s t → IsScheduled (finished_copy t)
copy-IsScheduled s t (v, (k, ts, l, single)) (w, kept, h, (a, b)) = (
  record {
    keyed = w.keyed;
    rows = w.rows;
    replays = w.replays;
    backed = w.backed;
    ascending = w.ascending;
  },
  rw a (
      rw b (
        let (k', ts', l', single') =
          Tables-later s.jobs t.jobs kept s.scheduled_tasks s.scheduled_runs (k, ts, l, single) in
        (
          Keyed-map s.scheduled_tasks k,
          off_tasks t.jobs s.scheduled_runs s.scheduled_tasks,
          l',
          single',
        ))),
)

copy-IsInert : (s t : Db) → Quarantined [] s t → IsInert (finished_copy t)
copy-IsInert s t (v, kept, h, _) = record {
  unclaimed = All-map _ _ t.jobs (λ j n. ground (arith, n)) h;
  unscheduled = all_off t.scheduled_tasks;
  unattended = refl;
}

abbrev pub Prepared : Db → ℕ → Db → Type 0
Prepared s n t = IsScheduled t × IsInert t × Kept s t × (n ≡ length (select is_pending s.jobs))

after_rows :
    (s : Db) (n : ℕ) (x : Result OperatorError (Unit {0}) × Db)
    → IsScheduled s
    → n ≡ length (select is_pending s.jobs)
    → Post (λ _. Quarantined [] s) (λ _. ⊥) x
    → Post (Prepared s) (λ _. ⊥) (continue (λ _ t. (ok n, finished_copy t)) x.0 x.1)
after_rows s n (ok _, t) h e q =
    (copy-IsScheduled s t h q, copy-IsInert s t q, let (_, kept, _, _) = q in kept, e)
after_rows s n (err _, t) h e q = q

-- `rougarou backup restore` makes of a queue in the snapshot one in which nothing would run by
-- itself: no job waits or runs, every scheduled task is off, and no worker is noted. Every job of the
-- snapshot is in it, one that had its outcome unchanged; the queue's invariants hold as they did in
-- the snapshot; and what is returned is how many jobs were waiting or running.
pub prepare_queue_lem :
    (now : ℕ) (s : Db) → IsScheduled s → Post (Prepared s) (λ _. ⊥) (prepare_queue true true now s)
unfolding prepare_queue prepare_copy
prepare_queue_lem now s h =
    let rows = select is_pending s.jobs in
    after_rows s (length rows) (quarantine_rows now rows s) h refl (
      quarantine_rows_lem now rows s h.0 (Keyed-select job_key is_pending s.jobs h.0.keyed)
        (Pending-select s h.0) (All-of_mem _ s.jobs λ j m on. Listed-select s.jobs j m on))
