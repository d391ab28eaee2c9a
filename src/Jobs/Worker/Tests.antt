-- ===== src/Jobs/Worker/Tests.antt =====
-- A day of the worker of rootfs/usr/lib/rougarou/jobs.py, and its theorem at that.
use rougarou_os.Base.{
  ◌≡◌, refl, false, none, some, List, [], ◌∷◌, pos, map, find, all, select, first, update, order_by,
}
use rougarou_os.Jobs.Schema.{State, queued, failed, succeeded, interrupted}
use rougarou_os.Jobs.Store.{transaction, event, get_job, insert_job, update_job, next_seq, nested}
use rougarou_os.Jobs.Ops.{
  submit, insert_block, finish, cancel, acknowledge, acknowledge_block, acknowledge_rows,
  check_reviewable, put_acknowledgment, unreviewed_rows, is_unreviewed, claim, claim_row, recover,
  finish_vanished, heartbeat,
}
use rougarou_os.Jobs.Operation.{submitting, perform, perform_all}
use rougarou_os.Jobs.Tests.{shop, from, home, ask_for}
use rougarou_os.Jobs.Run.{
  seen, judge, press, collect, receive, reap, look, run_rounds, execute, is_log_name, started,
}
use rougarou_os.Jobs.Run.Tests.{look_at}
use rougarou_os.Jobs.Worker.{Turn, work, worker}
use rougarou_os.Jobs.Worker.Alone.{Alone}

-- "cccccccccccccccc" is submitted and run, and "dddddddddddddddd" is submitted while it runs.
abbrev day : List Turn
day =
    record {
      before = submitting home (ask_for "cccccccccccccccc" 0) (from 100) ∷ [];
      beat_now = 0;
      beat_after = 0;
      beat_clock = 100;
      claim_clock = from 110;
      launch = started 0;
      rounds =
          seen (submitting home (ask_for "dddddddddddddddd" 0) (from 120) ∷ [])
            (look_at 120 (some []) none)
          ∷ seen [] (look_at 130 none (some (pos 0)))
          ∷ [];
      finish_clock = from 140;
    }
    ∷ []

states_after : List State
unfolding worker work execute is_log_name all run_rounds look judge press collect receive reap
    perform_all perform submit insert_block nested finish claim claim_row cancel acknowledge
    acknowledge_block acknowledge_rows check_reviewable put_acknowledgment unreviewed_rows
    is_unreviewed recover finish_vanished heartbeat transaction event get_job insert_job update_job
    next_seq select first find update order_by
states_after = map (λ j. j.state) (worker 4 7 false (from 90) day 200 shop).1.jobs

states_after_lem : states_after ≡ failed ∷ interrupted ∷ succeeded ∷ queued ∷ []
unfolding states_after
states_after_lem = refl
