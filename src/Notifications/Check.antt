-- ===== src/Notifications/Check.antt =====
-- `check` of rootfs/usr/lib/rougarou/notifications.py. The webhook's answer to a message may depend
-- on all messages tried before it; the queue is read up to three times, and other processes may
-- write between.
use rougarou_os.Base.{
  ℕ, String, Bool, true, false, not, ◌&&◌, ◌||◌, Option, none, some, List, [], ◌∷◌, ◌++◌, ltb, leb,
  same, is_some, first, select, order_by, fetch_one, take, length, codes, max, if◌then◌else◌, Exec,
  pure, gets, modify, require, ◌>>=◌, ◌>>◌, text_le, ◌==◌,
}
use rougarou_os.Jobs.Schema.{State, needs_attention, Mark, entered, Event}

pub record Cursor : Type 0 where
  pub identity : Option String
  pub sequence : ℕ

-- The file `notification-delivery.json`.
pub record Delivery : Type 0 where
  pub queue : Cursor
  pub health : List String

pub data Alert : Type 0 where
  job_unsuccessful : String → State → Alert
  health_changed : String → Alert

pub data NotifyError : Type 0 where
  invalid_identity invalid_health delivery_failed : NotifyError

-- The file, the messages that were tried, and those that the webhook took.
pub record Station : Type 0 where
  pub stored : Option Delivery
  pub tried : List Alert
  pub sent : List Alert

pub record Webhook : Type 0 where
  pub accepts : List Alert → Alert → Bool
  pub is_printable : String → Bool

abbrev pub NotifyOp : Type 0 → Type 0
NotifyOp A = Exec Station NotifyError A

-- `ORDER BY seq`
abbrev pub by_seq : Event → Event → Bool
by_seq a b = leb a.seq b.seq

-- `COALESCE(MAX(seq),0)`
unfoldable pub max_seq : List Event → ℕ
max_seq [] = 0
max_seq (e ∷ es) = max e.seq (max_seq es)

abbrev pub job_of : Option Event → Option String
job_of none = none
job_of (some e) = some e.job_id

unfoldable pub queue_position : List Event → Cursor
queue_position events = record {
  identity = job_of (fetch_one (order_by by_seq events));
  sequence = max_seq events;
}

unfoldable pub save_state : Delivery → NotifyOp (Unit {0})
save_state d = modify λ w. record w { stored = some d }

-- A message that is not taken is an error; it was tried all the same.
unfoldable pub send : Webhook → Alert → NotifyOp (Unit {0})
send hook a = do
  before ← gets (λ w. w.tried)
  modify λ w. record w { tried = w.tried ++ a ∷ [] }
  require (hook.accepts before a) delivery_failed
  modify λ w. record w { sent = w.sent ++ a ∷ [] }

-- `previous.get('identity') not in (None, position['identity'])`
abbrev pub same_identity : Option String → Option String → Bool
same_identity none _ = true
same_identity (some a) none = false
same_identity (some a) (some b) = same a b

abbrev pub state_of : Mark → Option State
state_of (entered x) = some x
state_of _ = none

abbrev pub is_unsuccessful : Option State → Bool
is_unsuccessful none = false
is_unsuccessful (some x) = needs_attention x

abbrev pub is_news : ℕ → ℕ → Event → Bool
is_news lo hi e = is_unsuccessful (state_of e.mark) && (ltb lo e.seq && leb e.seq hi)

abbrev pub job_alert : String → Option State → List Alert
job_alert id none = []
job_alert id (some x) = job_unsuccessful id x ∷ []

unfoldable pub rows_after : ℕ → ℕ → List Event → List Event
rows_after lo hi events = take 20 (order_by by_seq (select (is_news lo hi) events))

abbrev pub send_alert : Webhook → List Alert → NotifyOp (Unit {0})
send_alert hook [] = pure tt
send_alert hook (a ∷ _) = send hook a

-- Each message is sent before the cursor moves to it.
unfoldable pub send_rows : Webhook → Option String → Delivery → List Event → NotifyOp Delivery
send_rows hook identity d [] = pure d
send_rows hook identity d (row ∷ rows) = do
  send_alert hook (job_alert row.job_id (state_of row.mark))
  let d' = record d { queue = record { identity = identity; sequence = row.seq } }
  save_state d'
  send_rows hook identity d' rows

abbrev pub settle_rows : Cursor → List Event → Delivery → NotifyOp Delivery
settle_rows position rows d =
    if ltb (length rows) 20
    then (do save_state (record d { queue = position }); pure (record d { queue = position }))
    else pure d

-- A queue that was replaced is not replayed.
unfoldable pub check_queue : Webhook → List Event → List Event → Delivery → NotifyOp Delivery
check_queue hook seen read d =
    let position = queue_position seen in
    if not (same_identity d.queue.identity position.identity)
      || ltb position.sequence d.queue.sequence
    then (do save_state (record d { queue = position }); pure (record d { queue = position }))
    else if ltb d.queue.sequence position.sequence
    then (do
      let rows = rows_after d.queue.sequence position.sequence read
      d' ← send_rows hook position.identity d rows
      settle_rows position rows d')
    else pure d

abbrev pub is_in : List String → String → Bool
is_in keys k = is_some (first (λ x. same x k) keys)

abbrev pub send_key :
    Webhook → Bool → String → (Delivery → NotifyOp Delivery) → Delivery → NotifyOp Delivery
send_key hook true k rest d = rest d
send_key hook false k rest d = do
  send hook (health_changed k)
  let d' = record d { health = d.health ++ k ∷ [] }
  save_state d'
  rest d'

unfoldable pub send_health : Webhook → List String → Delivery → List String → NotifyOp Delivery
send_health hook prior d [] = pure d
send_health hook prior d (k ∷ ks) =
    send_key hook (is_in prior k) k (λ d'. send_health hook prior d' ks) d

-- `sorted(prior_health.intersection(current))`; the keys of `current` are all different.
abbrev pub known_health : List String → List String → List String
known_health prior current = order_by text_le (select (is_in prior) current)

unfoldable pub check_health : Webhook → List String → Delivery → NotifyOp Delivery
check_health hook current d = do
  let d' = record d { health = known_health d.health current }
  save_state d'
  send_health hook d.health d' current

abbrev pub beginning : Cursor → Delivery
beginning position = record { queue = position; health = [] }

abbrev pub load_or_begin : Cursor → Option Delivery → NotifyOp Delivery
load_or_begin position none = do save_state (beginning position); pure (beginning position)
load_or_begin position (some d) = pure d

-- `c in '0123456789abcdef'`
abbrev is_hex : ℕ → Bool
is_hex c = leb 48 c && leb c 57 || leb 97 c && leb c 102

unfoldable pub all_hex : List ℕ → Bool
all_hex [] = true
all_hex (c ∷ cs) = is_hex c && all_hex cs

abbrev pub is_identity : Option String → Bool
is_identity none = true
is_identity (some id) = length (codes id) == 16 && all_hex (codes id)

unfoldable pub all_keys : Webhook → List String → Bool
all_keys hook [] = true
all_keys hook (k ∷ ks) = leb (length (codes k)) 1024 && hook.is_printable k && all_keys hook ks

unfoldable pub validate_state : Webhook → Delivery → NotifyOp (Unit {0})
validate_state hook d = do
  require (is_identity d.queue.identity) invalid_identity
  require (leb (length d.health) 1024 && all_keys hook d.health) invalid_health

-- The queue as it is read when there is no file yet, then for the position, then for the rows, and
-- the keys of `health_events`.
unfoldable pub check :
    Webhook → List Event → List Event → List Event → List String → NotifyOp Delivery
check hook begun seen read current = do
  stored ← gets (λ w. w.stored)
  d ← load_or_begin (queue_position begun) stored
  validate_state hook d
  d' ← check_queue hook seen read d
  check_health hook current d'
