-- ===== src/Notifications/Loss.antt =====
-- What the cursor of rootfs/usr/lib/rougarou/notifications.py has passed.
use rougarou_os.Base.{
  ℕ, ◌≤◌, ◌<◌, String, ◌≡◌, refl, ◌∙◌, ap, Bool, true, false, Option, none, some, List, [], ◌∷◌,
  ◌++◌, ltb, take, length, select, order_by, insert, All, All-map, arith, inl, inr, Bool-cases,
  Post, Post-map, Result, ok, err, ◌>>◌, zero, suc, continue,
}
use mathlib.Core.List.{Memᴰ}
use rougarou_os.Jobs.Schema.{Event}
use rougarou_os.Jobs.Valid.{Ascending}
use rougarou_os.Notifications.Check.{
  Delivery, Alert, NotifyError, Station, Webhook, by_seq, state_of, job_alert, send, send_alert,
  save_state, send_rows,
}

-- The messages about an event were taken by the webhook.
abbrev pub Told : List Alert → Event → Type 0
Told sent e = All (λ a. Memᴰ a sent) (job_alert e.job_id (state_of e.mark))

abbrev pub Grows : Station → Station → Type 0
Grows w w' = (a : Alert) → Memᴰ a w.sent → Memᴰ a w'.sent

mem-append : (xs ys : List Alert) (a : Alert) → Memᴰ a xs → Memᴰ a (xs ++ ys)
mem-append [] ys a m = elim m [ ]
mem-append (x ∷ xs) ys a (Memᴰ.head e) = Memᴰ.head e
mem-append (x ∷ xs) ys a (Memᴰ.tail m) = Memᴰ.tail (mem-append xs ys a m)

mem-append_self : (xs : List Alert) (a : Alert) → Memᴰ a (xs ++ a ∷ [])
mem-append_self [] a = Memᴰ.head refl
mem-append_self (x ∷ xs) a = Memᴰ.tail (mem-append_self xs a)

-- One message: it is taken, or nothing but the attempt is known of it.
pub send_lem :
    (hook : Webhook) (a : Alert) (w : Station)
    → Post
        (λ _ v. (v.stored ≡ w.stored) × Grows w v × Memᴰ a v.sent)
        (λ v. (v.stored ≡ w.stored) × Grows w v)
        (send hook a w)
unfolding send
send_lem hook a w = elim (Bool-cases (hook.accepts w.tried a)) [
  | inl e ↦ rw e (refl, (λ b m. mem-append w.sent (a ∷ []) b m), mem-append_self w.sent a)
  | inr e ↦ rw e (refl, λ b m. m)
]

send_alert_lem :
    (hook : Webhook) (e : Event) (w : Station)
    → Post
        (λ _ v. (v.stored ≡ w.stored) × Grows w v × Told v.sent e)
        (λ v. (v.stored ≡ w.stored) × Grows w v)
        (send_alert hook (job_alert e.job_id (state_of e.mark)) w)
send_alert_lem hook e w = go (state_of e.mark)
  where
    go :
        (o : Option _)
        → Post
            (λ _ v.
              (v.stored ≡ w.stored) × Grows w v × All (λ a. Memᴰ a v.sent) (job_alert e.job_id o))
            (λ v. (v.stored ≡ w.stored) × Grows w v)
            (send_alert hook (job_alert e.job_id o) w)
    go none = (refl, (λ a m. m), tt)
    go (some x) =
        Post-map (send hook (Alert.job_unsuccessful e.job_id x) w) (λ _ v h. (h.0, h.1, (h.2, tt)))
          (λ v h. h) (send_lem hook (Alert.job_unsuccessful e.job_id x) w)

-- Where the cursor stands, every event up to it was told of.
abbrev pub Passed : ℕ → List Alert → Event → Type 0
Passed cursor sent e = e.seq ≤ cursor → Told sent e

abbrev pub Reached : List Event → Station → Station → Type 0
Reached events w v =
    (d : Delivery) × (v.stored ≡ some d) × All (Passed d.queue.sequence v.sent) events × Grows w v

pub Told-Grows : (w v : Station) (e : Event) → Grows w v → Told w.sent e → Told v.sent e
Told-Grows w v e g h = All-map _ _ (job_alert e.job_id (state_of e.mark)) (λ a m. g a m) h

pub none-Passed :
    (cursor : ℕ) (sent : List Alert) (es : List Event)
    → All (λ e. cursor < e.seq) es
    → All (Passed cursor sent) es
none-Passed cursor sent es h = All-map _ _ es (λ e lt le. absurd (omega (arith, lt, le))) h

abbrev pub Delivered : List Event → List Event → Station → Delivery → Station → Type 0
Delivered rows beyond w d v =
    (v.stored ≡ some d)
    × All (Passed d.queue.sequence v.sent) (rows ++ beyond)
    × Grows w v
    × All (Told v.sent) rows

abbrev moved : Option String → Delivery → Event → Delivery
moved identity d row = record d { queue = record { identity = identity; sequence = row.seq } }

module _ (hook : Webhook) (identity : Option String) (d : Delivery) (row : Event)
    (rows beyond : List Event) (w : Station) (start : w.stored ≡ some d)
    (ahead : All (λ e. d.queue.sequence < e.seq) (row ∷ (rows ++ beyond)))
    (ih : (v : Station)
      → v.stored ≡ some (moved identity d row)
      → Post
          (Delivered rows beyond v)
          (Reached (rows ++ beyond) v)
          (send_rows hook identity (moved identity d row) rows v)) where
  after_alert :
      (x : Result NotifyError (Unit {0}) × Station)
      → Post
          (λ _ v. (v.stored ≡ w.stored) × Grows w v × Told v.sent row)
          (λ v. (v.stored ≡ w.stored) × Grows w v)
          x
      → Post (Delivered (row ∷ rows) beyond w) (Reached (row ∷ (rows ++ beyond)) w) (
          continue
            (λ _.
              save_state (moved identity d row)
              >> send_rows hook identity (moved identity d row) rows)
            x.0
            x.1)
  unfolding save_state
  after_alert (err e, v) (s, g) =
      (d, s ∙ start, none-Passed d.queue.sequence v.sent (row ∷ (rows ++ beyond)) ahead, g)
  after_alert (ok _, v) (s, g, told) =
      let v1 : Station = record v { stored = some (moved identity d row) } in
      Post-map (send_rows hook identity (moved identity d row) rows v1)
        (λ d' u h. (
          h.0,
          ((λ _. Told-Grows v1 u row h.2 told), h.1),
          (λ a m. h.2 a (g a m)),
          (Told-Grows v1 u row h.2 told, h.3),
        ))
        (λ u h. (h.0, h.1, ((λ _. Told-Grows v1 u row h.3 told), h.2), (λ a m. h.3 a (g a m))))
        (ih v1 refl)

pub send_rows_lem :
    (hook : Webhook) (identity : Option String) (d : Delivery) (rows beyond : List Event)
    (w : Station)
    → w.stored ≡ some d
    → Ascending (rows ++ beyond)
    → All (λ e. d.queue.sequence < e.seq) (rows ++ beyond)
    → Post (Delivered rows beyond w) (Reached (rows ++ beyond) w) (send_rows hook identity d rows w)
unfolding send_rows
send_rows_lem hook identity d [] beyond w start up ahead =
    (start, none-Passed d.queue.sequence w.sent beyond ahead, (λ a m. m), tt)
send_rows_lem hook identity d (row ∷ rows) beyond w start up ahead =
    after_alert hook identity d row rows beyond w start ahead
      (λ v s. send_rows_lem hook identity (moved identity d row) rows beyond v s up.1 up.0)
      (send_alert hook (job_alert row.job_id (state_of row.mark)) w) (send_alert_lem hook row w)

-- Events in ascending order are in the order of `ORDER BY seq`.
insert-Ascending :
    (e : Event) (es : List Event) → All (λ x. e.seq < x.seq) es → insert by_seq e es ≡ e ∷ es
unfolding insert
insert-Ascending e [] h = refl
insert-Ascending e (x ∷ es) h = let first : e.seq < x.seq = h.0 in ground arith

pub order_by-Ascending : (es : List Event) → Ascending es → order_by by_seq es ≡ es
unfolding order_by
order_by-Ascending [] h = refl
order_by-Ascending (e ∷ es) h = rw (order_by-Ascending es h.1) (insert-Ascending e es h.0)

All-select :
    (P : Event → Type 0) (p : Event → Bool) (es : List Event) → All P es → All P (select p es)
unfolding select
All-select P p [] h = tt
All-select P p (e ∷ es) h = elim (Bool-cases (p e)) [
  | inl b ↦ rw b (h.0, All-select P p es h.1)
  | inr b ↦ rw b (All-select P p es h.1)
]

pub Ascending-select : (p : Event → Bool) (es : List Event) → Ascending es → Ascending (select p es)
unfolding select
Ascending-select p [] h = tt
Ascending-select p (e ∷ es) h = elim (Bool-cases (p e)) [
  | inl b ↦ rw b (All-select (λ x. e.seq < x.seq) p es h.0, Ascending-select p es h.1)
  | inr b ↦ rw b (Ascending-select p es h.1)
]

abbrev pub drop : ℕ → List Event → List Event
drop zero es = es
drop (suc n) [] = []
drop (suc n) (e ∷ es) = drop n es

pub take-drop : (n : ℕ) (es : List Event) → take n es ++ drop n es ≡ es
take-drop zero es = refl
take-drop (suc n) [] = refl
take-drop (suc n) (e ∷ es) = ap (λ r. e ∷ r) (take-drop n es)

-- Fewer rows than the limit are all rows.
pub take_short : (n : ℕ) (es : List Event) → ltb (length (take n es)) n ≡ true → take n es ≡ es
take_short zero es h = let no : false ≡ true = h in cc
take_short (suc n) [] h = refl
take_short (suc n) (e ∷ es) h = ap (λ r. e ∷ r) (take_short n es (ground arith))
