-- ===== src/Jobs/Worker/Alone.antt =====
-- `worker` of rootfs/usr/lib/rougarou/jobs.py runs one job at a time.
use rougarou_os.Base.{
  ℕ, ◌+◌, ◌*◌, String, ◌≡◌, refl, sym, ◌∙◌, ap, true, false, Option, none, some, List, [], ◌∷◌,
  find, All, All-of_mem, All-mem, find-mem, after, Result, ok, err, inl, inr, Bool-cases, arith,
  eq_iff, false, All-update_row,
}
use mathlib.Core.Path.{subst}
use rougarou_os.Jobs.Schema.{
  Job, Db, OperatorError, invalid_job_id, WorkerState, is_running, is_terminal, stopped, State,
  failed, runner_error, queued, running, succeeded, cancelled, timed_out, interrupted,
}
use rougarou_os.Jobs.Store.{job_key, second}
use rougarou_os.Jobs.Ops.{heartbeat, outcome}
use rougarou_os.Jobs.Step.{Steps}
use rougarou_os.Jobs.Refine.{heartbeat-Steps, finish-Steps}
use rougarou_os.Jobs.Valid.{IsValid, Steps-IsValid}
use rougarou_os.Jobs.Life.{Steps-Survives, Steps-mode}
use rougarou_os.Jobs.Operation.{
  Operation, submitting, finishing, cancelling, acknowledging, recovering, claiming, beating,
  Lawful,
}
use rougarou_os.Jobs.Outcome.{unknown, settled_before, recorded, finish_lem}
use rougarou_os.Jobs.Run.{
  Round, seen, raised, Report, Launch, refused, not_started, started, at_start, run_rounds,
  settle_report, is_log_name, launched, execute, Watch, beat_due, Sight,
}
use rougarou_os.Jobs.Run.Turn.{seen_queue, lost, over, more, run_rounds-Turn}
use rougarou_os.Jobs.Run.Verdict.{report_terminal}
use rougarou_os.Jobs.Run.Settle.{HasLogs, LawfulRound, run_rounds-Steps, outcome-terminal}
use rougarou_os.Jobs.Worker.{Turn, Outcome, leave}
use rougarou_os.Jobs.Worker.Running.{RunningIn, IsOperators, perform_all-RunningIn}

abbrev pub NoneRunning : Db → Type 0
NoneRunning s = RunningIn (λ _. ⊥) s

abbrev pub OnlyRunning : String → Db → Type 0
OnlyRunning id s = RunningIn (λ i. i ≡ id) s

-- Between its operations a process has no transaction open.
abbrev pub Sound : Db → Type 0
Sound s = IsValid s × (s.in_transaction ≡ false)

pub Steps-Sound : {s t : Db} → Steps s t → Sound s → Sound t
Steps-Sound st (v, i) = (Steps-IsValid st v, Steps-mode st ∙ i)

pub operators-Lawful : (os : List Operation) → All IsOperators os → All Lawful os
operators-Lawful [] h = tt
operators-Lawful (submitting a b c ∷ os) h = (tt, operators-Lawful os h.1)
operators-Lawful (cancelling a b ∷ os) h = (tt, operators-Lawful os h.1)
operators-Lawful (acknowledging a b ∷ os) h = (tt, operators-Lawful os h.1)
operators-Lawful (finishing a b c d e ∷ os) h = absurd h.0
operators-Lawful (recovering c ∷ os) h = absurd h.0
operators-Lawful (claiming c ∷ os) h = absurd h.0
operators-Lawful (beating a b c ∷ os) h = absurd h.0

abbrev pub OperatorRound : Round → Type 0
OperatorRound (seen before _) = All IsOperators before
OperatorRound (raised before _ _) = All IsOperators before

rounds_lawful : (rs : List Round) → All OperatorRound rs → All LawfulRound rs
rounds_lawful [] h = tt
rounds_lawful (seen b o ∷ rs) h = (operators-Lawful b h.0, rounds_lawful rs h.1)
rounds_lawful (raised b e c ∷ rs) h = (operators-Lawful b h.0, rounds_lawful rs h.1)

module _ (P : String → Type 0) (limit pid : ℕ) (job : Job) (d : ℕ) where
  seen-RunningIn :
      (before : List Operation) (o : Sight) (rounds : List Round) (w : Watch) (s : Db)
      → All IsOperators before
      → RunningIn P s
      → RunningIn P (seen_queue limit pid job d before o rounds w s)
  unfolding heartbeat
  seen-RunningIn before o rounds w s l h = elim (Bool-cases (beat_due o w)) [
    | inl e ↦ rw e (perform_all-RunningIn P before s l h)
    | inr e ↦ rw e (perform_all-RunningIn P before s l h)
  ]

  pub run_rounds-RunningIn :
      (rounds : List Round) (w : Watch) (s : Db)
      → All OperatorRound rounds
      → RunningIn P s
      → RunningIn P (run_rounds limit pid job d rounds w s).1
  unfolding run_rounds
  run_rounds-RunningIn [] w s l h = h
  run_rounds-RunningIn (raised before x c ∷ rounds) w s l h = perform_all-RunningIn P before s l.0 h
  run_rounds-RunningIn (seen before o ∷ rounds) w s l h =
      let k = seen-RunningIn before o rounds w s l.0 h in
      elim (run_rounds-Turn limit pid job d before o rounds w s) [
        | lost f x ↦ rw x k
        | over row f e x ↦ rw x k
        | more row f e x ↦ rw x (run_rounds-RunningIn rounds _ _ l.1 k)
      ]

-- How far a call has come: it is still watching one process, or it is done and nothing is running,
-- or it has failed on a job of which the id is no name for a log, the one that is still running.
abbrev pub Alone : Outcome → Type 0
Alone (none, s) = Sound s × ((id : String) × OnlyRunning id s)
Alone (some (ok _), s) = Sound s × NoneRunning s
Alone (some (err e), s) =
    Sound s × (e ≡ invalid_job_id) × ((id : String) × (is_log_name id ≡ false) × OnlyRunning id s)

-- Without such a failure.
abbrev Finished : Outcome → Type 0
Finished (none, s) = Sound s × ((id : String) × OnlyRunning id s)
Finished (some r, s) = Sound s × (r ≡ ok tt) × NoneRunning s

Finished-Alone : (x : Outcome) → Finished x → Alone x
Finished-Alone (none, s) h = h
Finished-Alone (some (ok _), s) (v, e, h) = (v, h)
Finished-Alone (some (err e), s) (v, q, h) = cc

open_when_running : (x : State) → is_terminal x ≡ true → is_running x ≡ true → ⊥
open_when_running queued h k = cc
open_when_running running h k = cc
open_when_running succeeded h k = cc
open_when_running failed h k = cc
open_when_running cancelled h k = cc
open_when_running timed_out h k = cc
open_when_running interrupted h k = cc

module _ (job : Job) (clock : ℕ → ℕ) where
  -- A job that is alone and has an outcome is not running, so nothing is.
  ended-NoneRunning :
      (s : Db) (row : Job)
      → IsValid s
      → OnlyRunning job.id s
      → find job_key job.id s.jobs ≡ some row
      → is_terminal row.state ≡ true
      → NoneRunning s
  ended-NoneRunning s row v h f t = All-of_mem _ s.jobs λ j m on.
      let p : j.id ≡ job.id =
        All-mem (λ k. is_running k.state ≡ true → k.id ≡ job.id) s.jobs h m on in
      let g : find job_key j.id s.jobs ≡ some j = find-mem job_key s.jobs v.keyed m in
      let q : row ≡ j = ground (arith, rw p at g) in
      open_when_running j.state (subst (λ x. is_terminal x.state ≡ true) q t) on

  finish-Finished :
      (r : Report) (s : Db) (row : Job)
      → Sound s
      → OnlyRunning job.id s
      → find job_key job.id s.jobs ≡ some row
      → is_terminal r.outcome ≡ true
      → Finished (settle_report job clock (some r, s))
  finish-Finished r s row (v, i) h f t =
      let sound = Steps-Sound (finish-Steps job.id clock r.outcome r.reason r.code s t) (v, i) in
      elim (finish_lem job.id r.outcome r.reason r.code clock s i) [
        | unknown e q ↦ cc
        | settled_before x e d q ↦ (
          sound,
          ap (λ y. y.0) q,
          subst NoneRunning (sym (ap (λ y. y.1) q)) (ended-NoneRunning s x v h e d),
        )
        | recorded x e d q ↦ (
          sound,
          ap (λ y. y.0) q,
          subst NoneRunning (sym (ap (λ y. y.1) q)) (
              All-update_row job_key job.id _ s.jobs x v.keyed e
                (λ on.
                  open_when_running (outcome x r.outcome r.reason).0 (outcome-terminal x r t) on)
                (λ y n p on. let z = p on in ground (arith, eq_iff y.id job.id)) h),
        )
      ]

  watched-Finished :
      (x : Option Report × Db) (row : Job)
      → Sound x.1
      → OnlyRunning job.id x.1
      → find job_key job.id x.1.jobs ≡ some row
      → ((r : Report) → x.0 ≡ some r → is_terminal r.outcome ≡ true)
      → Finished (settle_report job clock x)
  watched-Finished (none, s) row v h f t = (v, (job.id, h))
  watched-Finished (some r, s) row v h f t = finish-Finished r s row v h f (t r refl)

  launched-Alone :
      (limit pid : ℕ) (launch : Launch) (rounds : List Round) (s : Db) (row : Job)
      → HasLogs launch
      → Sound s
      → OnlyRunning job.id s
      → find job_key job.id s.jobs ≡ some row
      → All OperatorRound rounds
      → Alone (launched limit pid job launch rounds clock s)
  launched-Alone limit pid (refused y) rounds s row logs v h f l = absurd logs
  launched-Alone limit pid (not_started y) rounds s row logs v h f l =
      let r : Report = record {
        outcome = failed;
        reason = some (runner_error y);
        code = none;
        log = [];
      } in
      Finished-Alone (settle_report job clock (some r, s)) (finish-Finished r s row v h f refl)
  launched-Alone limit pid (started now) rounds s row logs v h f l =
      let d = now + job.timeout * second in
      let st = run_rounds-Steps limit pid job d rounds at_start s (rounds_lawful rounds l) v.0 in
      let (k, g, _) = Steps-Survives job.id row st f in
      let x = run_rounds limit pid job d rounds at_start s in
      Finished-Alone (settle_report job clock x) (
        watched-Finished x k (Steps-Sound st v)
          (run_rounds-RunningIn (λ i. i ≡ job.id) limit pid job d rounds at_start s l h) g
          (λ r e. report_terminal limit pid job d rounds s x.1 r (λ i. (e i, x.1))))

  pub execute-Alone :
      (limit pid : ℕ) (launch : Launch) (rounds : List Round) (s : Db) (row : Job)
      → HasLogs launch
      → Sound s
      → OnlyRunning job.id s
      → find job_key job.id s.jobs ≡ some row
      → All OperatorRound rounds
      → Alone (execute limit pid job launch rounds clock s)
  unfolding execute
  execute-Alone limit pid launch rounds s row logs v h f l =
      elim (Bool-cases (is_log_name job.id)) [
        | inl e ↦ rw e (launched-Alone limit pid launch rounds s row logs v h f l)
        | inr e ↦ rw e (v, refl, (job.id, e, h))
      ]

abbrev pub OperatorTurn : Turn → Type 0
OperatorTurn t = All IsOperators t.before × All OperatorRound t.rounds × HasLogs t.launch

module _ (pid at : ℕ) where
  pub heartbeat-RunningIn :
      (P : String → Type 0) (w : WorkerState) (s : Db)
      → RunningIn P s
      → RunningIn P (after (heartbeat pid w at) s)
  unfolding heartbeat
  heartbeat-RunningIn P w s h = h

  pub leave-Alone :
      (r : Result OperatorError (Unit {0})) (s : Db) → Alone (some r, s) → Alone (leave pid at r s)
  unfolding heartbeat
  leave-Alone (ok u) s (v, h) =
      (Steps-Sound (unfold heartbeat in heartbeat-Steps pid stopped at s) v, h)
  leave-Alone (err e) s (v, q, h) =
      (Steps-Sound (unfold heartbeat in heartbeat-Steps pid stopped at s) v, q, h)
