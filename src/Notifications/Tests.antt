-- ===== src/Notifications/Tests.antt =====
-- A run of `check` of rootfs/usr/lib/rougarou/notifications.py in which the webhook goes away.
use rougarou_os.Base.{
  ℕ, ◌≤◌, String, ◌≡◌, refl, true, none, some, List, [], ◌∷◌, All, arith, length, leb, select,
  first, order_by, insert,
}
use rougarou_os.Jobs.Schema.{failed, succeeded, timed_out, entered, Event, State}
use rougarou_os.Notifications.Check.{
  Delivery, job_unsuccessful, Station, Webhook, queue_position, max_seq, is_news, check,
  check_queue, check_health, validate_state, send, send_rows, rows_after, save_state, send_health,
  all_hex, all_keys,
}
use rougarou_os.Notifications.Loss.{Told}
use rougarou_os.Notifications.Cursor.{check_lem}

abbrev ended_as : ℕ → String → State → Event
ended_as seq id x = record { seq = seq; job_id = id; at = seq; mark = entered x; detail = none }

abbrev log : List Event
log = ended_as 3 "a" failed ∷ ended_as 5 "b" succeeded ∷ ended_as 8 "c" timed_out ∷ []

abbrev stored : Delivery
stored = record { queue = record { identity = none; sequence = 0 }; health = [] }

abbrev station : Station
station = record { stored = some stored; tried = []; sent = [] }

-- It takes one message and no more.
abbrev one_message : Webhook
one_message = record { accepts = λ before a. leb (length before) 0; is_printable = λ s. true }

abbrev after_check : Station
after_check = (check one_message log log log [] station).1

sent_lem : after_check.sent ≡ job_unsuccessful "a" failed ∷ []
unfolding check check_queue check_health validate_state send send_rows rows_after save_state
    send_health queue_position max_seq select first order_by insert all_hex all_keys
sent_lem = refl

check_lem_example :
    (d : Delivery) × (after_check.stored ≡ some d)
    × All
        (λ e.
          is_news 0 (queue_position log).sequence e ≡ true
          → e.seq ≤ d.queue.sequence
          → Told after_check.sent e)
        log
check_lem_example =
    check_lem one_message log log log [] stored station refl
      ((omega arith, (omega arith, tt)), ((omega arith, tt), (tt, tt))) refl (omega arith)
