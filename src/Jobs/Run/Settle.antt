-- ===== src/Jobs/Run/Settle.antt =====
-- What the whole of `execute` in rootfs/usr/lib/rougarou/jobs.py does to the queue.
use rougarou_os.Base.{
  ℕ, ◌+◌, ◌*◌, String, ◌≡◌, refl, ◌∙◌, ap, true, false, none, some, List, [], ◌∷◌, find, Result, ok,
  All, inl, inr, Bool-cases, ◌++◌, ◌<◌, ℤ, find-update_self,
}
use mathlib.Core.Path.{subst}
use rougarou_os.Jobs.Schema.{Job, Db, OperatorError, is_terminal, failed, working, runner_error}
use rougarou_os.Jobs.Store.{second, job_key}
use rougarou_os.Jobs.Ops.{finish, outcome}
use rougarou_os.Jobs.Step.{Steps, here, Steps-trans}
use rougarou_os.Jobs.Refine.{finish-Steps, heartbeat-Steps}
use rougarou_os.Jobs.Valid.{IsValid, Steps-IsValid}
use rougarou_os.Jobs.Life.{Steps-Survives, Steps-mode}
use rougarou_os.Jobs.Outcome.{unknown, settled_before, recorded, finish_lem}
use rougarou_os.Jobs.Operation.{Operation, Lawful, perform_all-Steps}
use rougarou_os.Jobs.Run.{
  Watch, at_start, Sight, Round, seen, raised, beat_due, Report, run_rounds, Launch, refused,
  not_started, started, settle_report, is_log_name, execute,
}
use rougarou_os.Jobs.Run.Turn.{seen_queue, lost, over, more, run_rounds-Turn}
use rougarou_os.Jobs.Run.Verdict.{report_terminal}
use rougarou_os.Jobs.Run.End.{AllExited, Ends, exit-Ends, running-exited}

-- The other processes of a round call the operations lawfully.
abbrev pub LawfulRound : Round → Type 0
LawfulRound (seen before _) = All Lawful before
LawfulRound (raised before _ _) = All Lawful before

module _ (limit pid : ℕ) (job : Job) (d : ℕ) where
  seen-Steps :
      (before : List Operation) (o : Sight) (rounds : List Round) (w : Watch) (s : Db)
      → All Lawful before
      → IsValid s
      → Steps s (seen_queue limit pid job d before o rounds w s)
  seen-Steps before o rounds w s l v = elim (Bool-cases (beat_due o w)) [
    | inl e ↦
        rw e (
          Steps-trans (perform_all-Steps before s l v) (heartbeat-Steps pid working o.beat_clock _))
    | inr e ↦ rw e (perform_all-Steps before s l v)
  ]

  pub run_rounds-Steps :
      (rounds : List Round) (w : Watch) (s : Db)
      → All LawfulRound rounds
      → IsValid s
      → Steps s (run_rounds limit pid job d rounds w s).1
  unfolding run_rounds
  run_rounds-Steps [] w s l v = here
  run_rounds-Steps (raised before x c ∷ rounds) w s l v = perform_all-Steps before s l.0 v
  run_rounds-Steps (seen before o ∷ rounds) w s l v =
      let st = seen-Steps before o rounds w s l.0 v in
      elim (run_rounds-Turn limit pid job d before o rounds w s) [
        | lost f x ↦ rw x st
        | over row f e x ↦ rw x st
        | more row f e x ↦
            rw x (Steps-trans st (run_rounds-Steps rounds _ _ l.1 (Steps-IsValid st v)))
      ]

-- The call of `execute` returned without an error, and the job's row in the queue has its outcome.
abbrev pub Settled : String → Result OperatorError (Unit {0}) → Db → Type 0
Settled id x t =
    (x ≡ ok tt)
    × IsValid t
    × ((k : Job) × (find job_key id t.jobs ≡ some k) × (is_terminal k.state ≡ true))

pub outcome-terminal :
    (row : Job) (r : Report)
    → is_terminal r.outcome ≡ true
    → is_terminal (outcome row r.outcome r.reason).0 ≡ true
outcome-terminal row r h = elim (Bool-cases row.cancel_requested) [
  | inl e ↦ rw e refl
  | inr e ↦ rw e h
]

module _ (job : Job) (clock : ℕ → ℕ) where
  finish-Settled :
      (r : Report) (s : Db) (row : Job)
      → s.in_transaction ≡ false
      → IsValid s
      → find job_key job.id s.jobs ≡ some row
      → is_terminal r.outcome ≡ true
      → let y = finish job.id r.outcome r.reason r.code clock s in Settled job.id y.0 y.1
  finish-Settled r s row idle v f h =
      let valid = Steps-IsValid (finish-Steps job.id clock r.outcome r.reason r.code s h) v in
      elim (finish_lem job.id r.outcome r.reason r.code clock s idle) [
        | unknown e q ↦ cc
        | settled_before x e t q ↦
            (ap (λ y. y.0) q, valid, (x, ap (λ y. find job_key job.id y.1.jobs) q ∙ e, t))
        | recorded x e t q ↦ (
          ap (λ y. y.0) q,
          valid,
          (
            _,
            ap (λ y. find job_key job.id y.1.jobs) q
                ∙ find-update_self job_key _ (λ _. refl) job.id s.jobs x e,
            outcome-terminal x r h,
          ),
        )
      ]

  run_rounds-Settled :
      (limit pid d : ℕ) (rounds : List Round) (s t : Db) (r : Report) (row : Job)
      → s.in_transaction ≡ false
      → IsValid s
      → All LawfulRound rounds
      → find job_key job.id s.jobs ≡ some row
      → run_rounds limit pid job d rounds at_start s ≡ (some r, t)
      → let y = finish job.id r.outcome r.reason r.code clock t in Settled job.id y.0 y.1
  run_rounds-Settled limit pid d rounds s t r row idle v l f e =
      let st : Steps s t =
        subst (λ y. Steps s y.1) e (run_rounds-Steps limit pid job d rounds at_start s l v) in
      let (k, g, _) = Steps-Survives job.id row st f in
      finish-Settled r t k (Steps-mode st ∙ idle) (Steps-IsValid st v) g
        (report_terminal limit pid job d rounds s t r e)

-- The process was still running whenever a round of the list looked.
abbrev pub StillRunning : List Round → Type 0
StillRunning [] = Unit
StillRunning (raised _ _ _ ∷ rounds) = StillRunning rounds
StillRunning (seen _ o ∷ rounds) = (o.code ≡ none) × StillRunning rounds

-- The rounds until the process is seen to have exited, in `p`, and after that until `o`, which
-- looks more than a second later.
abbrev pub until_exit :
    List Round → List Operation → Sight → List Round → List Operation → Sight → List Round
until_exit early b p rounds b' o = early ++ seen b p ∷ (rounds ++ seen b' o ∷ [])

early-Ends :
    (limit pid d : ℕ) (job : Job) (early : List Round) (b b' : List Operation) (p o : Sight)
    (rounds : List Round) (c c' : ℤ) (w : Watch) (s : Db)
    → w.exited_at ≡ none
    → StillRunning early
    → p.code ≡ some c
    → AllExited rounds
    → o.code ≡ some c'
    → p.exit_now + second < o.late_now
    → Ends (run_rounds limit pid job d (until_exit early b p rounds b' o) w s)
unfolding run_rounds
early-Ends limit pid d job [] b b' p o rounds c c' w s e h x a x' late =
    exit-Ends limit pid job d b b' p o rounds c c' w s e x a x' late
early-Ends limit pid d job (raised y z n ∷ early) b b' p o rounds c c' w s e h x a x' late =
    (_, _, refl)
early-Ends limit pid d job (seen y z ∷ early) b b' p o rounds c c' w s e h x a x' late =
    elim (run_rounds-Turn limit pid job d y z (until_exit early b p rounds b' o) w s) [
      | lost f q ↦ (_, _, q)
      | over row f g q ↦ (_, _, q)
      | more row f g q ↦
          let e' = running-exited limit job d row.cancel_requested z w h.0 ∙ e in
          let (r, t, q') =
            early-Ends limit pid d job early b b' p o rounds c c' _ _ e' h.1 x a x' late in
          (r, t, q ∙ q')
    ]

-- The directory of logs is not refused.
abbrev pub HasLogs : Launch → Type 0
HasLogs (refused e) = ⊥
HasLogs _ = Unit

-- For a job whose id is one of 16 hexadecimal digits, and a directory of logs that is not refused,
-- `execute` returns, without an error, and the job has an outcome in the queue, which is as valid
-- as before: when a round has seen the process exited and a later one looks more than a second
-- after that, whatever the process wrote, whatever was raised, whatever lawful operations other
-- processes ran in between, and also when the process could not be started.
pub execute_lem :
    (limit pid : ℕ) (job row : Job) (launch : Launch) (early : List Round) (b b' : List Operation)
    (p o : Sight) (rounds : List Round) (c c' : ℤ) (clock : ℕ → ℕ) (s : Db)
    → s.in_transaction ≡ false
    → IsValid s
    → is_log_name job.id ≡ true
    → HasLogs launch
    → find job_key job.id s.jobs ≡ some row
    → All LawfulRound (until_exit early b p rounds b' o)
    → StillRunning early
    → p.code ≡ some c
    → AllExited rounds
    → o.code ≡ some c'
    → p.exit_now + second < o.late_now
    → (x : Result OperatorError (Unit {0})) × (t : Db) × (execute limit pid job launch
          (until_exit early b p rounds b' o)
          clock
          s
        ≡ (some x, t))
      × Settled job.id x t
unfolding execute
execute_lem limit pid job row (refused y) early b b' p o rounds c c' clock s idle v name logs f l h
      x a x' late =
    absurd logs
execute_lem limit pid job row (not_started y) early b b' p o rounds c c' clock s idle v name logs f
      l h x a x' late =
    rw name (
      let r : Report = record {
        outcome = failed;
        reason = some (runner_error y);
        code = none;
        log = [];
      } in
      (_, _, refl, finish-Settled job clock r s row idle v f refl))
execute_lem limit pid job row (started now) early b b' p o rounds c c' clock s idle v name logs f l
      h x a x' late =
    rw name (
      let d = now + job.timeout * second in
      let (r, t, e) =
        early-Ends limit pid d job early b b' p o rounds c c' at_start s refl h x a x' late in
      (
        _,
        _,
        ap (settle_report job clock) e,
        run_rounds-Settled job clock limit pid d (until_exit early b p rounds b' o) s t r row idle v
            l f e,
      ))
