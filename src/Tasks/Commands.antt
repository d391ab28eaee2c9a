-- ===== src/Tasks/Commands.antt =====
-- The commands of rootfs/usr/lib/rougarou/tasks.py, and any sequence of them and of operations on
-- the queue, keep the tables as they should be.
use rougarou_os.Base.{
  ℕ, String, Bool, true, false, not, none, List, [], ◌∷◌, ◌&&◌, All, inl, inr, Bool-cases, Post,
  Triple-if, Result, ok, err, pure, Post-map,
}
use rougarou_os.Jobs.Schema.{Task, not_ready, OperatorError, empty}
use rougarou_os.Jobs.Store.{transaction}
use rougarou_os.Jobs.Valid.{IsValid-empty}
use rougarou_os.Jobs.Operation.{Operation, perform, Lawful, perform-Steps}
use rougarou_os.Tasks.Store.{Outside, World, on_db, is_caught, get, record_event}
use rougarou_os.Tasks.Ops.{ready, save, enqueue, enqueue_block, check_ready, recorded}
use rougarou_os.Tasks.Units.{Command, saving, running, firing, enabling, pausing, main}
use rougarou_os.Tasks.Tables.{IsScheduled, Steps-IsScheduled}
use rougarou_os.Tasks.Keep.{get-Got, record_event-Keeps, transaction-Keeps, save-Keeps}
use rougarou_os.Tasks.Queue.{enqueue_block-Keeps}
use rougarou_os.Tasks.Frame.{ready-Frame}
use rougarou_os.Tasks.Switch.{Good, Safe, db-Safe, Frame-Safe, bind-Safe, enable-Safe, pause-Safe}

recorded-Safe :
    (name : String) (at : ℕ) (x : Result OperatorError (Unit {0}) × World)
    → Post (λ _. Good) Good x
    → Post (λ _. Good) Good (recorded name at x)
recorded-Safe name at (ok a, w) h = h
recorded-Safe name at (err e, w) h = elim (Bool-cases (is_caught e)) [
  | inl c ↦ rw c (
      bind-Safe (on_db (record_event name (not_ready e) at)) _
        (db-Safe (record_event name (not_ready e) at) (record_event-Keeps name (not_ready e) at))
        (λ _ w h. h) w h)
  | inr c ↦ rw c h
]

check_ready-Safe : (outside : Outside) (task : Task) (at : ℕ) → Safe (check_ready outside task at)
unfolding check_ready
check_ready-Safe outside task at w h =
    recorded-Safe task.name at _ (Frame-Safe (ready outside task) (ready-Frame outside task) w h)

enqueue-Safe :
    (outside : Outside) (name : String) (scheduled : Bool) (id : String) (clock : ℕ → ℕ)
    → Safe (enqueue outside name scheduled id clock)
unfolding enqueue
enqueue-Safe outside name scheduled id clock =
    bind-Safe (on_db (get name false)) _
      (db-Safe (get name false)
        (λ s h. Post-map (get name false s) (λ _ _ x. x.0) (λ _ x. x) (get-Got name false s h)))
      λ task.
        Triple-if Good (λ _. Good) (scheduled && not task.enabled) (pure none) _ (λ _ w h. h)
          λ _.
            bind-Safe (check_ready outside task (clock 0)) _
              (check_ready-Safe outside task (clock 0))
              λ _. db-Safe (transaction (enqueue_block outside task id clock)) (
                transaction-Keeps (enqueue_block outside task id clock)
                  (enqueue_block-Keeps outside task id clock))

main-Safe : (outside : Outside) (c : Command) → Safe (main outside c)
unfolding main
main-Safe outside (saving name d edit clock) w h =
    db-Safe (save name d edit clock) (save-Keeps name d edit clock) w h
main-Safe outside (running name id clock) w h =
    bind-Safe (enqueue outside name false id clock) _ (enqueue-Safe outside name false id clock)
      (λ _ w h. h) w h
main-Safe outside (firing name id clock) w h =
    bind-Safe (enqueue outside name true id clock) _ (enqueue-Safe outside name true id clock)
      (λ _ w h. h) w h
main-Safe outside (enabling name clock) w h = enable-Safe outside name clock w h
main-Safe outside (pausing name remove clock) w h = pause-Safe outside name remove clock w h

-- An operation on the queue, or a task command with what the outside answers to it.
pub data Act : Type 0 where
  queue : Operation → Act
  task : Outside → Command → Act

unfoldable pub act : Act → World → World
act (queue o) w = record w { db = (perform o w.db).1 }
act (task outside c) w = (main outside c w).1

unfoldable pub act_all : List Act → World → World
act_all [] w = w
act_all (a ∷ acts) w = act_all acts (act a w)

abbrev pub LawfulAct : Act → Type 0
LawfulAct (queue o) = Lawful o
LawfulAct (task outside c) = Unit

Post-Good : {A : Type 0} (x : Result OperatorError A × World) → Post (λ _. Good) Good x → Good x.1
Post-Good (ok a, w) h = h
Post-Good (err e, w) h = h

-- Whatever task commands and queue operations run, in whatever order, and whatever the service
-- manager, the file system and the clock answer, also when they fail: task names stay unique; at most
-- one run of a task is waiting or running; every task that is switched on had a run of its present
-- revision succeed; a removed task is off; each run has its job in the queue; and the queue's own
-- invariant holds.
pub act_all-IsScheduled :
    (acts : List Act) (w : World)
    → All LawfulAct acts
    → IsScheduled w.db
    → IsScheduled (act_all acts w).db
unfolding act_all act
act_all-IsScheduled [] w l h = h
act_all-IsScheduled (queue o ∷ acts) w l h =
    act_all-IsScheduled acts _ l.1 (Steps-IsScheduled (perform-Steps o w.db l.0 h.0) h)
act_all-IsScheduled (task outside c ∷ acts) w l h =
    act_all-IsScheduled acts _ l.1 (Post-Good (main outside c w) (main-Safe outside c w h))

pub IsScheduled-empty : IsScheduled empty
IsScheduled-empty = (IsValid-empty, (tt, tt, tt, tt))
