-- ===== src/Jobs/Outcome.antt =====
-- `finish`, `cancel` and `recover` of rootfs/usr/lib/rougarou/jobs.py, branch by branch.
use rougarou_os.Base.{
  ℕ, ◌+◌, String, ◌≡◌, refl, Bool, true, false, Option, none, some, List, [], ◌∷◌, ℤ, find, arith,
  Result, ok, err, inl, inr, Bool-cases, Option-cases, All, All-map, All-of_mem, All-mem, find-mem,
  select, All-select_inv, ◌⊎◌, ◌≢◌, eq_iff, All-update_row,
}
use rougarou_os.Jobs.Schema.{
  State, State-cases, queued, running, cancelled, Message, is_terminal, is_running, interrupted,
  worker_vanished, cancelled_before_execution, Job, Db, OperatorError, unknown_job, already,
  entered, cancel_asked,
}
use rougarou_os.Jobs.Store.{transaction, job_key, get_job, update_job, event}
use rougarou_os.Jobs.Ops.{finish, finish_vanished, recover, cancel, outcome}
use rougarou_os.Jobs.Step.{with_event, with_job, settle, drop, ask}
use rougarou_os.Jobs.Refine.{finish-Steps}
use rougarou_os.Jobs.Total.{Known, Known-finish, running-Known, finish_total, recover_total}
use rougarou_os.Jobs.Valid.{IsValid, Steps-IsValid}

pub data Finished (id : String) (state : State) (why : Option Message) (code : Option ℤ)
    (clock : ℕ → ℕ) (s : Db) (r : Result OperatorError (Unit {0}) × Db) : Type 0 where
  unknown :
      find job_key id s.jobs ≡ none
      → r ≡ (err (unknown_job id), s)
      → Finished id state why code clock s r
  settled_before :
      (row : Job)
      → find job_key id s.jobs ≡ some row
      → is_terminal row.state ≡ true
      → r ≡ (ok tt, s)
      → Finished id state why code clock s r
  recorded :
      (row : Job)
      → find job_key id s.jobs ≡ some row
      → is_terminal row.state ≡ false
      → r ≡ (
        ok tt,
        with_event id (entered (outcome row state why).0) (outcome row state why).1 (clock 1) (
            with_job id
              (settle (outcome row state why).0 (clock 0) code (outcome row state why).1)
              s),
      )
      → Finished id state why code clock s r

-- `finish` raises for an unknown job, leaves a job that has its outcome alone, and otherwise records
-- the outcome in the row and in one event: "cancelled" when the operator asked for that, whatever
-- outcome the worker reports.
pub finish_lem :
    (id : String) (state : State) (why : Option Message) (code : Option ℤ) (clock : ℕ → ℕ) (s : Db)
    → s.in_transaction ≡ false
    → Finished id state why code clock s (finish id state why code clock s)
unfolding finish transaction get_job update_job event
finish_lem id state why code clock s idle = elim (Option-cases (find job_key id s.jobs)) [
  | inl e ↦ unknown e (ground arith)
  | inr (row, e) ↦ elim (Bool-cases (is_terminal row.state)) [
    | inl t ↦ settled_before row e t (ground arith)
    | inr t ↦ recorded row e t (ground arith)
  ]
]

pub data Cancelling (id : String) (clock : ℕ → ℕ) (s : Db)
    (r : Result OperatorError (Unit {0}) × Db) : Type 0 where
  unknown : find job_key id s.jobs ≡ none → r ≡ (err (unknown_job id), s) → Cancelling id clock s r
  too_late :
      (row : Job)
      → find job_key id s.jobs ≡ some row
      → is_terminal row.state ≡ true
      → r ≡ (err (already row.state), s)
      → Cancelling id clock s r
  dropped :
      (row : Job)
      → find job_key id s.jobs ≡ some row
      → row.state ≡ queued
      → r ≡ (
        ok tt,
        with_event id
            (entered cancelled)
            (some cancelled_before_execution)
            (clock 1)
            (with_job id (drop (clock 0)) s),
      )
      → Cancelling id clock s r
  asked :
      (row : Job)
      → find job_key id s.jobs ≡ some row
      → row.state ≡ running
      → r ≡ (ok tt, with_event id cancel_asked none (clock 0) (with_job id ask s))
      → Cancelling id clock s r

-- `cancel` raises for an unknown job and for one that has its outcome, ends a waiting job at once,
-- and only marks a running one, which the worker is to stop.
pub cancel_lem :
    (id : String) (clock : ℕ → ℕ) (s : Db)
    → s.in_transaction ≡ false
    → Cancelling id clock s (cancel id clock s)
unfolding cancel transaction get_job update_job event
cancel_lem id clock s idle = elim (Option-cases (find job_key id s.jobs)) [
  | inl e ↦ unknown e (ground arith)
  | inr (row, e) ↦ elim (State-cases row.state) [
    | inl q ↦ dropped row e q (ground arith)
    | inr (inl q) ↦ asked row e q (ground arith)
    | inr (inr q) ↦ too_late row e q (ground arith)
  ]
]

-- `id` is among the ids of the rows.
abbrev Listed : String → List Job → Type 0
Listed id [] = ⊥
Listed id (r ∷ rs) = (r.id ≡ id) ⊎ Listed id rs

abbrev Runs : List Job → Job → Type 0
Runs rows j = is_running j.state ≡ true → Listed j.id rows

outcome_stops :
    (row : Job) (why : Option Message) → is_running (outcome row interrupted why).0 ≡ false
outcome_stops row why = ground arith

Runs-other : (row j : Job) (rows : List Job) → (row.id ≢ j.id) → Runs (row ∷ rows) j → Runs rows j
Runs-other row j rows n h run = elim (h run) [ inl e ↦ absurd (n e) | inr l ↦ l ]

-- One `finish` takes one id off the list of running jobs.
finish-Runs :
    (row : Job) (rows : List Job) (clock : ℕ → ℕ) (s : Db)
    → s.in_transaction ≡ false
    → IsValid s
    → All (Runs (row ∷ rows)) s.jobs
    → let t = (finish row.id interrupted (some worker_vanished) none clock s).1 in
      (t.in_transaction ≡ false) × All (Runs rows) t.jobs
finish-Runs row rows clock s idle v h =
    elim (finish_lem row.id interrupted (some worker_vanished) none clock s idle) [
      | unknown e q ↦ rw q (
        idle,
        All-of_mem _ s.jobs λ j m.
            Runs-other row j rows
              (λ p. let f = find-mem job_key s.jobs v.keyed m in ground (arith, rw (← p) at f))
              (All-mem _ s.jobs h m),
      )
      | settled_before x e t q ↦ rw q (
        idle,
        All-of_mem _ s.jobs λ j m run.
            Runs-other row j rows
              (λ p. let f = find-mem job_key s.jobs v.keyed m in ground (arith, rw (← p) at f))
              (All-mem _ s.jobs h m) run,
      )
      | recorded x e t q ↦ rw q (
        idle,
        All-update_row job_key row.id _ s.jobs x v.keyed e
            (λ run. let stopped = outcome_stops x (some worker_vanished) in cc)
            (λ j n. Runs-other row j rows (λ p. ground (arith, eq_iff j.id row.id))) h,
      )
    ]

finish_vanished-Runs :
    (clock : ℕ → ℕ) (rows : List Job) (s : Db)
    → s.in_transaction ≡ false
    → IsValid s
    → All (Known s) rows
    → All (Runs rows) s.jobs
    → All (Runs []) (finish_vanished clock rows s).1.jobs
unfolding finish_vanished
finish_vanished-Runs clock [] s idle v k h = h
finish_vanished-Runs clock (row ∷ rows) s idle v k h =
    let first = finish row.id interrupted (some worker_vanished) none clock in
    let (idle', h') = finish-Runs row rows clock s idle v h in
    let steps = finish-Steps row.id clock interrupted (some worker_vanished) none s refl in
    let (done, _) =
      finish_total row.id interrupted (some worker_vanished) none clock s k.0.0 idle k.0.1 in
    rw done (
      finish_vanished-Runs (λ i. clock (i + 2)) rows (first s).1 idle' (Steps-IsValid steps v)
        (Known-finish row.id clock rows s k.1) h')

Listed-self : (rows : List Job) → All (λ j. Listed j.id rows) rows
Listed-self [] = tt
Listed-self (x ∷ xs) = (inl refl, All-map _ _ xs (λ j h. inr h) (Listed-self xs))

running-Listed :
    (p : Job → Bool) (xs : List Job) → All (λ j. p j ≡ true → Listed j.id (select p xs)) xs
running-Listed p xs =
    All-select_inv (λ j. Listed j.id (select p xs)) p xs (Listed-self (select p xs))

-- After a worker has died, recovery leaves no job marked running, and it does not fail.
pub recover_lem :
    (clock : ℕ → ℕ) (s : Db)
    → s.in_transaction ≡ false
    → IsValid s
    → ((recover clock s).0 ≡ ok tt) × All (λ j. is_running j.state ≡ false) (recover clock s).1.jobs
unfolding recover
recover_lem clock s idle v = (
  unfold recover in recover_total clock s idle v,
  All-map _ _ _ (λ j h. elim (Bool-cases (is_running j.state)) [ inl t ↦ absurd (h t) | inr f ↦ f ])
      (finish_vanished-Runs clock (select (λ j. is_running j.state) s.jobs) s idle v
        (running-Known s v) (running-Listed (λ j. is_running j.state) s.jobs)),
)
