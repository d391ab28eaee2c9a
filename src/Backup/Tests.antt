-- ===== src/Backup/Tests.antt =====
-- A restored queue of rootfs/usr/lib/rougarou/backup.py, and the theorem about it.
use rougarou_os.Base.{◌≡◌, refl, true, List, [], ◌∷◌, map, Post, select, update, find, order_by}
use rougarou_os.Jobs.Schema.{State, failed, interrupted}
use rougarou_os.Jobs.Store.{event, update_job, next_seq, transaction, nested, insert_job, get_job}
use rougarou_os.Jobs.Ops.{claim, finish, submit, insert_block, claim_row}
use rougarou_os.Jobs.Operation.{perform, perform_all}
use rougarou_os.Jobs.Tests.{shop}
use rougarou_os.Tasks.Tests.{first_day, blank}
use rougarou_os.Tasks.Commands.{act_all, act_all-IsScheduled, IsScheduled-empty}
use rougarou_os.Backup.Queue.{quarantine_rows, prepare_copy, prepare_queue}
use rougarou_os.Backup.Quarantine.{Prepared, prepare_queue_lem}

restored_states : List State
unfolding prepare_queue prepare_copy quarantine_rows event update_job next_seq update select
    perform_all perform claim transaction finish submit nested insert_block insert_job find
    claim_row order_by get_job
restored_states = map (λ j. j.state) (prepare_queue true true 500 shop).1.jobs

restored_states_lem : restored_states ≡ failed ∷ interrupted ∷ []
unfolding restored_states
restored_states_lem = refl

prepare_queue_lem_example :
    Post
      (Prepared (act_all first_day blank).db)
      (λ _. ⊥)
      (prepare_queue true true 500 (act_all first_day blank).db)
prepare_queue_lem_example = prepare_queue_lem 500 (act_all first_day blank).db (
    act_all-IsScheduled first_day blank (tt, (tt, (tt, (tt, (refl, (tt, (tt, (tt, tt))))))))
      IsScheduled-empty)
