-- ===== src/Jobs/Operation.antt =====
-- Every way in which an operator or the worker of rootfs/usr/lib/rougarou/jobs.py changes the
-- queue, and what holds along any sequence of them.
use rougarou_os.Base.{
  ℕ, String, ◌≡◌, refl, true, Option, some, List, [], ◌∷◌, ℤ, find, Result, ok, err, All, continue,
  ◌>>=◌, pure,
}
use rougarou_os.Jobs.Schema.{State, WorkerState, Message, is_terminal, Job, Db, OperatorError}
use rougarou_os.Jobs.Store.{Op, job_key}
use rougarou_os.Jobs.Ops.{
  Paths, Request, submit, finish, cancel, acknowledge, recover, claim, heartbeat,
}
use rougarou_os.Jobs.Step.{Steps, here, Steps-trans}
use rougarou_os.Jobs.Refine.{
  submit-Steps, finish-Steps, cancel-Steps, acknowledge-Steps, recover-Steps, claim-Steps,
  heartbeat-Steps,
}
use rougarou_os.Jobs.Valid.{IsValid, Steps-IsValid}
use rougarou_os.Jobs.Life.{Survives, Steps-Survives}

-- One call, with the clock that it reads.
pub data Operation : Type 0 where
  submitting : Paths → Request → (ℕ → ℕ) → Operation
  finishing : String → State → Option Message → Option ℤ → (ℕ → ℕ) → Operation
  cancelling : String → (ℕ → ℕ) → Operation
  acknowledging : Option String → (ℕ → ℕ) → Operation
  recovering claiming : (ℕ → ℕ) → Operation
  beating : ℕ → WorkerState → ℕ → Operation

abbrev discard : {A : Type 0} → Op A → Op (Unit {0})
discard m = m >>= λ _. pure tt

unfoldable pub perform : Operation → Op (Unit {0})
perform (submitting paths request clock) = discard (submit paths request clock)
perform (finishing id state why code clock) = finish id state why code clock
perform (cancelling id clock) = cancel id clock
perform (acknowledging chosen clock) = discard (acknowledge chosen clock)
perform (recovering clock) = recover clock
perform (claiming clock) = discard (claim clock)
perform (beating pid state at) = heartbeat pid state at

-- The operations one after another; one that raises ends only itself.
unfoldable pub perform_all : List Operation → Db → Db
perform_all [] s = s
perform_all (o ∷ os) s = perform_all os (perform o s).1

-- The worker records outcomes only: `finish` is called with a terminal state.
abbrev pub Lawful : Operation → Type 0
Lawful (finishing id state why code clock) = is_terminal state ≡ true
Lawful _ = Unit

discard-state :
    {A : Type 0} (r : Result OperatorError A × Db) → (continue (λ (_ : A). pure tt) r.0 r.1).1 ≡ r.1
discard-state (ok a, s) = refl
discard-state (err e, s) = refl

pub perform-Steps : (o : Operation) (s : Db) → Lawful o → IsValid s → Steps s (perform o s).1
unfolding perform
perform-Steps (submitting p r c) s l v = rw (discard-state (submit p r c s)) (submit-Steps p r c s)
perform-Steps (finishing id x w e c) s l v = finish-Steps id c x w e s l
perform-Steps (cancelling id c) s l v = cancel-Steps id c s
perform-Steps (acknowledging i c) s l v =
    rw (discard-state (acknowledge i c s)) (acknowledge-Steps i c s)
perform-Steps (recovering c) s l v = recover-Steps c s
perform-Steps (claiming c) s l v = rw (discard-state (claim c s)) (claim-Steps c s v.keyed)
perform-Steps (beating p w a) s l v = heartbeat-Steps p w a s

-- Whatever operations run on a queue that satisfies the invariant, what becomes of it is a run of
-- the abstract steps: a job enters the queue under a new id as waiting, a waiting job starts, an
-- open job gets one outcome, which is a cancellation where one was asked for, a waiting job is
-- dropped, a running one is asked to stop, an unsuccessful one is reviewed, and the worker's note is
-- replaced; each with the event that tells of it, and with nothing else changed.
pub perform_all-Steps :
    (os : List Operation) (s : Db) → All Lawful os → IsValid s → Steps s (perform_all os s)
unfolding perform_all
perform_all-Steps [] s l v = here
perform_all-Steps (o ∷ os) s l v =
    let st = perform-Steps o s l.0 v in
    Steps-trans st (perform_all-Steps os (perform o s).1 l.1 (Steps-IsValid st v))

-- Whatever operations run, in whatever order and with whatever clock readings, a queue that
-- satisfies the invariant satisfies it afterwards: job ids are a primary key, each row's columns
-- agree with its state, the event log replays to every row's state, every acknowledgment names a
-- job that is still in the unsuccessful outcome that was reviewed, and sequence numbers grow.
pub perform_all-IsValid :
    (os : List Operation) (s : Db) → All Lawful os → IsValid s → IsValid (perform_all os s)
perform_all-IsValid os s l v = Steps-IsValid (perform_all-Steps os s l v) v

-- Whatever operations run, a job of the queue stays in it under its id, with the kind, spec,
-- workspace, timeout, creation time and parent that it was submitted with; its stage never goes
-- back, and once it has an outcome its row never changes.
pub history_kept :
    (os : List Operation) (s : Db) (id : String) (j : Job)
    → All Lawful os
    → IsValid s
    → find job_key id s.jobs ≡ some j
    → Survives id j (perform_all os s)
history_kept os s id j l v h = Steps-Survives id j (perform_all-Steps os s l v) h
