-- ===== src/Jobs/Tests.antt =====
-- Runs of the queue of rootfs/usr/lib/rougarou/jobs.py, and the theorems about it at inputs that
-- exercise them.
use rougarou_os.Base.{
  ℕ, ◌+◌, String, ◌≡◌, refl, true, false, none, some, List, [], ◌∷◌, pos, map, select, first, find,
  update, order_by, All, ok, err,
}
use rougarou_os.Jobs.Schema.{
  State, failed, succeeded, interrupted, cancelled, running, exited_with, Job, Db, empty, command,
  already, bad_limits, is_running,
}
use rougarou_os.Jobs.Store.{
  job_key, transaction, event, get_job, insert_job, update_job, next_seq, nested,
}
use rougarou_os.Jobs.Ops.{
  Paths, Request, submit, insert_block, finish, cancel, acknowledge, acknowledge_block,
  acknowledge_rows, check_reviewable, put_acknowledgment, unreviewed_rows, is_unreviewed, claim,
  claim_row, recover, finish_vanished, heartbeat,
}
use rougarou_os.Jobs.Step.{Steps}
use rougarou_os.Jobs.Valid.{IsValid, IsValid-empty}
use rougarou_os.Jobs.Life.{Survives}
use rougarou_os.Jobs.Operation.{
  Operation, submitting, finishing, cancelling, acknowledging, recovering, claiming, perform,
  perform_all, Lawful, perform_all-IsValid, perform_all-Steps, history_kept,
}
use rougarou_os.Jobs.Claim.{Claimed, claim_lem}
use rougarou_os.Jobs.Outcome.{Cancelling, cancel_lem, recover_lem}

abbrev pub home : Paths
home = record { resolve = λ p. some p; is_dir = λ p. true }

abbrev pub from : ℕ → ℕ → ℕ
from t i = t + i

abbrev pub ask_for : String → ℕ → Request
ask_for id delay = record {
  job_id = id;
  kind = command;
  spec = "[\"true\"]";
  workspace = "/srv";
  timeout = pos 60;
  delay = pos delay;
  parent = none;
}

-- Two submissions, of which the first fails and the second is taken.
abbrev two_jobs : List Operation
two_jobs =
    submitting home (ask_for "aaaaaaaaaaaaaaaa" 0) (from 10)
    ∷ submitting home (ask_for "bbbbbbbbbbbbbbbb" 0) (from 20)
    ∷ claiming (from 30)
    ∷ finishing "aaaaaaaaaaaaaaaa" failed (some (exited_with (pos 2))) (some (pos 2)) (from 40)
    ∷ claiming (from 50)
    ∷ []

abbrev pub shop : Db
shop = perform_all two_jobs empty

pub shop-IsValid : IsValid shop
shop-IsValid = perform_all-IsValid two_jobs empty (tt, (tt, (tt, (refl, (tt, tt))))) IsValid-empty

states : Db → List State
unfolding perform_all perform submit insert_block nested finish claim claim_row cancel acknowledge
    acknowledge_block acknowledge_rows check_reviewable put_acknowledgment unreviewed_rows
    is_unreviewed recover finish_vanished heartbeat transaction event get_job insert_job update_job
    next_seq select first find update order_by
states s = map (λ j. j.state) s.jobs

shop-states : states shop ≡ failed ∷ running ∷ []
unfolding states
shop-states = refl

-- "bbbbbbbbbbbbbbbb" was running when its worker died.
after_crash : states (perform_all (recovering (from 60) ∷ []) shop) ≡ failed ∷ interrupted ∷ []
unfolding states
after_crash = refl

-- A job that is asked to stop ends as cancelled, whatever the worker reports.
asked_then_succeeded :
    states (
      perform_all
        (cancelling "bbbbbbbbbbbbbbbb" (from 60)
          ∷ finishing "bbbbbbbbbbbbbbbb" succeeded none (some (pos 0)) (from 70)
          ∷ [])
        shop)
    ≡ failed ∷ cancelled ∷ []
unfolding states
asked_then_succeeded = refl

reviewed_ids : (acknowledge none (from 60) shop).0 ≡ ok ("aaaaaaaaaaaaaaaa" ∷ [])
unfolding states
reviewed_ids = refl

reviewed_once : (acknowledge none (from 70) (acknowledge none (from 60) shop).1).0 ≡ ok []
unfolding states
reviewed_once = refl

-- A delay keeps "cccccccccccccccc" waiting at time 100, and "dddddddddddddddd" is taken.
delayed :
    (claim (from 100) (
      perform_all
        (submitting home (ask_for "cccccccccccccccc" 5) (from 0)
          ∷ submitting home (ask_for "dddddddddddddddd" 0) (from 90)
          ∷ [])
        empty)).0
    ≡ ok (
        some (record {
          id = "dddddddddddddddd";
          kind = command;
          spec = "[\"true\"]";
          workspace = "/srv";
          timeout = 60;
          state = running;
          created = 90;
          ready = 90;
          started = some 101;
          finished = none;
          exit_code = none;
          reason = none;
          cancel_requested = false;
          parent = none;
        }))
unfolding states
delayed = refl

too_long :
    (submit home (record (ask_for "e" 0) { timeout = pos 604801 }) (from 0) shop).0 ≡ err bad_limits
unfolding states
too_long = refl

pub shop_idle : shop.in_transaction ≡ false
unfolding states
shop_idle = refl

abbrev job_a : Job
job_a = record {
  id = "aaaaaaaaaaaaaaaa";
  kind = command;
  spec = "[\"true\"]";
  workspace = "/srv";
  timeout = 60;
  state = failed;
  created = 10;
  ready = 10;
  started = some 31;
  finished = some 40;
  exit_code = some (pos 2);
  reason = some (exited_with (pos 2));
  cancel_requested = false;
  parent = none;
}

found_a : find job_key "aaaaaaaaaaaaaaaa" shop.jobs ≡ some job_a
unfolding states
found_a = refl

abbrev later : List Operation
later =
    cancelling "bbbbbbbbbbbbbbbb" (from 60)
    ∷ recovering (from 70)
    ∷ acknowledging none (from 80)
    ∷ []

later-Lawful : All Lawful later
later-Lawful = (tt, (tt, (tt, tt)))

perform_all-Steps_example : Steps shop (perform_all later shop)
perform_all-Steps_example = perform_all-Steps later shop later-Lawful shop-IsValid

perform_all-IsValid_example : IsValid (perform_all later shop)
perform_all-IsValid_example = perform_all-IsValid later shop later-Lawful shop-IsValid

history_kept_example : Survives "aaaaaaaaaaaaaaaa" job_a (perform_all later shop)
history_kept_example =
    history_kept later shop "aaaaaaaaaaaaaaaa" job_a later-Lawful shop-IsValid found_a

cancel_a_raises : (perform (cancelling "aaaaaaaaaaaaaaaa" (from 60)) shop).0 ≡ err (already failed)
unfolding states
cancel_a_raises = refl

claim_lem_example : Claimed (from 60) shop (claim (from 60) shop)
claim_lem_example = claim_lem (from 60) shop shop_idle shop-IsValid

cancel_lem_example :
    Cancelling "bbbbbbbbbbbbbbbb" (from 60) shop (cancel "bbbbbbbbbbbbbbbb" (from 60) shop)
cancel_lem_example = cancel_lem "bbbbbbbbbbbbbbbb" (from 60) shop shop_idle

recover_lem_example :
    ((recover (from 60) shop).0 ≡ ok tt)
    × All (λ j. is_running j.state ≡ false) (recover (from 60) shop).1.jobs
recover_lem_example = recover_lem (from 60) shop shop_idle shop-IsValid
