-- ===== src/Notifications/Cursor.antt =====
-- The whole of `check` in rootfs/usr/lib/rougarou/notifications.py, and the events that it passes.
use rougarou_os.Base.{
  ◌≤◌, ◌<◌, String, ◌≡◌, refl, sym, ◌∙◌, ap, true, false, ◌&&◌, some, List, [], ◌∷◌, ◌++◌, ltb, leb,
  take, length, select, All, All-map, All-select_inv, select-Selected, arith, inl, inr, Bool-cases,
  Post, Post-map, Triple, Triple-bind, Result, ok, err, ◌>>=◌, ◌>>◌,
}
use mathlib.Core.Path.{subst}
use rougarou_os.Jobs.Schema.{Event}
use rougarou_os.Jobs.Valid.{Ascending}
use rougarou_os.Notifications.Check.{
  Cursor, Delivery, health_changed, NotifyError, Station, Webhook, is_news, rows_after, send,
  save_state, send_rows, settle_rows, queue_position, check_queue, same_identity, send_health,
  check_health, known_health, is_in, validate_state, is_identity, all_keys, check, load_or_begin,
}
use rougarou_os.Notifications.Loss.{
  Told, Grows, Passed, Reached, Delivered, send_lem, send_rows_lem, order_by-Ascending,
  Ascending-select, drop, take-drop, take_short, none-Passed, Told-Grows,
}

-- The file holds `d`, and every event up to its cursor was told of.
abbrev Kept : List Event → Station → Delivery → Station → Type 0
Kept events w d v = (v.stored ≡ some d) × All (Passed d.queue.sequence v.sent) events × Grows w v

module _ (hook : Webhook) (position : Cursor) (read : List Event) (d : Delivery) (w : Station)
    (start : w.stored ≡ some d) (up : Ascending read) where
  abbrev news : List Event
  news = select (is_news d.queue.sequence position.sequence) read

  abbrev rows : List Event
  rows = rows_after d.queue.sequence position.sequence read

  rows_lem : rows ≡ take 20 news
  unfolding rows_after
  rows_lem = ap (take 20) (order_by-Ascending news (Ascending-select _ read up))

  news_ahead : All (λ e. d.queue.sequence < e.seq) news
  news_ahead =
      All-map _ _ news (λ e s. let t = s.1 in ground arith)
        (select-Selected (is_news d.queue.sequence position.sequence) read)

  settle_lem :
      (d' : Delivery) (v : Station)
      → Delivered (take 20 news) (drop 20 news) w d' v
      → Post (Kept news w) (Reached news w) (settle_rows position (take 20 news) d' v)
  unfolding save_state
  settle_lem d' v (s, passed, g, told) = elim (Bool-cases (ltb (length (take 20 news)) 20)) [
    | inl e ↦
        let all : All (Told v.sent) news = subst (All (Told v.sent)) (take_short 20 news e) told in
        rw e (refl, All-map _ _ news (λ x t _. t) all, g)
    | inr e ↦ rw e (s, subst (All (Passed d'.queue.sequence v.sent)) (take-drop 20 news) passed, g)
  ]

  queue_lem :
      Post
        (Kept news w)
        (Reached news w)
        ((send_rows hook position.identity d rows >>= settle_rows position rows) w)
  queue_lem =
      subst
        (λ r.
          Post (Kept news w) (Reached news w)
            ((send_rows hook position.identity d r >>= settle_rows position r) w))
        (sym rows_lem)
        (Triple-bind (Reached news w) (Delivered (take 20 news) (drop 20 news) w) (Kept news w)
          (send_rows hook position.identity d (take 20 news)) (settle_rows position (take 20 news))
          (λ v e.
            subst
              (λ v.
                Post (Delivered (take 20 news) (drop 20 news) w) (Reached news w)
                  (send_rows hook position.identity d (take 20 news) v))
              (sym e)
              (subst
                (λ es.
                  Post (Delivered (take 20 news) (drop 20 news) w) (Reached es w)
                    (send_rows hook position.identity d (take 20 news) w))
                (take-drop 20 news)
                (send_rows_lem hook position.identity d (take 20 news) (drop 20 news) w start
                  (subst Ascending (sym (take-drop 20 news)) (Ascending-select _ read up))
                  (subst (All (λ e. d.queue.sequence < e.seq)) (sym (take-drop 20 news))
                    news_ahead))))
          settle_lem w refl)

-- The part on health sends messages and leaves the cursor alone.
abbrev Steady : Cursor → Station → Delivery → Station → Type 0
Steady queue w d v = (v.stored ≡ some d) × (d.queue ≡ queue) × Grows w v

abbrev Stays : Cursor → Station → Station → Type 0
Stays queue w v = (d : Delivery) × Steady queue w d v

send_health_lem :
    (hook : Webhook) (prior : List String) (d : Delivery) (keys : List String) (w : Station)
    → w.stored ≡ some d
    → Post (Steady d.queue w) (Stays d.queue w) (send_health hook prior d keys w)
unfolding send_health save_state
send_health_lem hook prior d [] w start = (start, refl, λ a m. m)
send_health_lem hook prior d (k ∷ ks) w start = elim (Bool-cases (is_in prior k)) [
  | inl e ↦ rw e (send_health_lem hook prior d ks w start)
  | inr e ↦
      let d1 : Delivery = record d { health = d.health ++ k ∷ [] } in
      rw e (
        Triple-bind (Stays d.queue w) (λ _ v. (v.stored ≡ some d) × Grows w v) (Steady d.queue w)
          (send hook (health_changed k)) _
          (λ v p.
            subst
              (λ u.
                Post (λ _ v. (v.stored ≡ some d) × Grows w v) (Stays d.queue w)
                  (send hook (health_changed k) u))
              (sym p)
              (Post-map (send hook (health_changed k) w) (λ _ u h. (h.0 ∙ start, h.1))
                (λ u h. (d, (h.0 ∙ start, refl, h.1))) (send_lem hook (health_changed k) w)))
          (λ _ v h.
            let v1 : Station = record v { stored = some d1 } in
            Post-map (send_health hook prior d1 ks v1)
              (λ _ u x. (x.0, x.1, (λ a m. x.2 a (h.1 a m))))
              (λ u x. (x.0, (x.1.0, x.1.1, (λ a m. x.1.2 a (h.1 a m)))))
              (send_health_lem hook prior d1 ks v1 refl))
          w refl)
]

check_health_lem :
    (hook : Webhook) (current : List String) (d : Delivery) (w : Station)
    → Post (Steady d.queue w) (Stays d.queue w) (check_health hook current d w)
unfolding check_health save_state
check_health_lem hook current d w =
    let d1 : Delivery = record d { health = known_health d.health current } in
    send_health_lem hook d.health d1 current (record w { stored = some d1 }) refl

validate_lem :
    (hook : Webhook) (d : Delivery) (w : Station)
    → Post (λ _ v. v ≡ w) (λ v. v ≡ w) (validate_state hook d w)
unfolding validate_state
validate_lem hook d w = elim (Bool-cases (is_identity d.queue.identity)) [
  | inr e ↦ rw e refl
  | inl e ↦ rw e (elim (Bool-cases (leb (length d.health) 1024 && all_keys hook d.health)) [
    | inr f ↦ rw f refl
    | inl f ↦ rw f refl
  ])
]

module _ (hook : Webhook) (begun seen read : List Event) (current : List String) (d : Delivery)
    (w : Station) (start : w.stored ≡ some d) (up : Ascending read)
    (same_queue : same_identity d.queue.identity (queue_position seen).identity ≡ true)
    (behind : d.queue.sequence ≤ (queue_position seen).sequence) where
  abbrev position : Cursor
  position = queue_position seen

  abbrev ahead : List Event
  ahead = news hook position read d w start up

  check_queue_lem : Post (Kept ahead w) (Reached ahead w) (check_queue hook seen read d w)
  unfolding check_queue
  check_queue_lem =
      let no : ltb position.sequence d.queue.sequence ≡ false = ground arith in
      rw same_queue (
        rw no (elim (Bool-cases (ltb d.queue.sequence position.sequence)) [
          | inl e ↦ rw e (queue_lem hook position read d w start up)
          | inr e ↦ rw e (
            start,
            none-Passed d.queue.sequence w.sent ahead (news_ahead hook position read d w start up),
            (λ a m. m),
          )
        ]))

  health_after :
      (d' : Delivery)
      → Triple
          (Kept ahead w d')
          (check_health hook current d')
          (λ _. Reached ahead w)
          (Reached ahead w)
  health_after d' v (s, passed, g) =
      let on = λ (x : Delivery) (u : Station) (h : Steady d'.queue v x u). the_reached x u h in
      Post-map (check_health hook current d' v) on (λ u h. on h.0 u h.1)
        (check_health_lem hook current d' v)
    where
      the_reached : (x : Delivery) (u : Station) → Steady d'.queue v x u → Reached ahead w u
      the_reached x u h = (
        x,
        h.0,
        All-map _ _ ahead
            (λ e told le. Told-Grows v u e h.2 (told (subst (λ q. e.seq ≤ q.sequence) h.1 le)))
            passed,
        (λ a m. h.2 a (g a m)),
      )

  check-Reached :
      Post (λ _. Reached ahead w) (Reached ahead w) (check hook begun seen read current w)
  unfolding check
  check-Reached =
      subst
        (λ o.
          Post (λ _. Reached ahead w) (Reached ahead w)
            ((load_or_begin (queue_position begun) o >>= λ x.
                validate_state hook x
                >> (check_queue hook seen read x >>= check_health hook current))
              w))
        (sym start)
        (Triple-bind (Reached ahead w) (λ _ v. v ≡ w) (λ _. Reached ahead w) (validate_state hook d)
          _
          (λ v p.
            subst (λ u. Post (λ _ v. v ≡ w) (Reached ahead w) (validate_state hook d u)) (sym p)
              (Post-map (validate_state hook d w) (λ _ u x. x)
                (λ u q. subst (Reached ahead w) (sym q) (
                  d,
                  start,
                  none-Passed d.queue.sequence w.sent ahead
                      (news_ahead hook position read d w start up),
                  (λ a m. m),
                ))
                (validate_lem hook d w)))
          (λ _ v p.
            subst
              (λ u.
                Post (λ _. Reached ahead w) (Reached ahead w)
                  ((check_queue hook seen read d >>= check_health hook current) u))
              (sym p)
              (Triple-bind (Reached ahead w) (Kept ahead w) (λ _. Reached ahead w)
                (check_queue hook seen read d) (check_health hook current)
                (λ v p.
                  subst
                    (λ u. Post (Kept ahead w) (Reached ahead w) (check_queue hook seen read d u))
                    (sym p) check_queue_lem)
                health_after w refl))
          w refl)

Reached-state :
    (events : List Event) (w : Station) (x : Result NotifyError Delivery × Station)
    → Post (λ _. Reached events w) (Reached events w) x
    → Reached events w x.1
Reached-state events w (ok d, v) h = h
Reached-state events w (err e, v) h = h

-- No unsuccessful job is lost: while the queue is the one that the stored cursor is of, `check` leaves
-- a file behind, whether it ends or is cut short by a failed delivery, in which the cursor has passed
-- only those unsuccessful events, of all up to the position it read, whose message was taken; the
-- events are in the order of their sequence numbers, and other processes may have written between
-- the two readings of the queue.
pub check_lem :
    (hook : Webhook) (begun seen read : List Event) (current : List String) (d : Delivery)
    (w : Station)
    → w.stored ≡ some d
    → Ascending read
    → same_identity d.queue.identity (queue_position seen).identity ≡ true
    → d.queue.sequence ≤ (queue_position seen).sequence
    → let v = (check hook begun seen read current w).1 in
      (d' : Delivery) × (v.stored ≡ some d')
      × All
          (λ e.
            is_news d.queue.sequence (queue_position seen).sequence e ≡ true
            → e.seq ≤ d'.queue.sequence
            → Told v.sent e)
          read
check_lem hook begun seen read current d w start up same_queue behind =
    let (d', s, passed, _) =
      Reached-state (ahead hook begun seen read current d w start up same_queue behind) w
        (check hook begun seen read current w)
        (check-Reached hook begun seen read current d w start up same_queue behind) in
    (d', s, All-select_inv _ (is_news d.queue.sequence (queue_position seen).sequence) read passed)
