-- ===== src/Base/Order.antt =====
-- `ORDER BY`: a stable insertion sort by a test of order, and `LIMIT`.
use mathlib.Core.Path.{◌≡◌, refl}
use mathlib.Core.Logic.{inl, inr, ◌≢◌}
use mathlib.Core.Bool.{Bool, true, false}
use mathlib.Core.Option.{Option, none, some}
use mathlib.Core.List.{List, [], ◌∷◌}
use native.Mathlib.Omega.{arith}
use package.rougarou_os.Base.Tests.{if◌then◌else◌, Bool-cases, Option-cases}
use package.rougarou_os.Base.Lists.{All, All-map}

module _ {A : Type 0} (before : A → A → Bool) where
  unfoldable pub insert : A → List A → List A
  insert x [] = x ∷ []
  insert x (y ∷ ys) = let rest = insert x ys in if before x y then x ∷ y ∷ ys else y ∷ rest

  unfoldable pub order_by : List A → List A
  unfolding insert
  order_by [] = []
  order_by (x ∷ xs) = insert x (order_by xs)

module _ {A : Type 0} where
  -- `LIMIT 1`, as `fetchone` reads it
  abbrev pub fetch_one : List A → Option A
  fetch_one [] = none
  fetch_one (x ∷ xs) = some x

module _ {A : Type 0} (before : A → A → Bool) (P : A → Type 0) where
  All-insert : (x : A) (ys : List A) → P x → All P ys → All P (insert before x ys)
  unfolding insert
  All-insert x [] h hs = (h, tt)
  All-insert x (y ∷ ys) h hs = elim (Bool-cases (before x y)) [
    | inl e ↦ rw e (h, hs)
    | inr e ↦ rw e (hs.0, All-insert x ys h hs.1)
  ]

  pub All-order_by : (xs : List A) → All P xs → All P (order_by before xs)
  unfolding order_by
  All-order_by [] h = tt
  All-order_by (x ∷ xs) h = All-insert x (order_by before xs) h.0 (All-order_by xs h.1)

  All-insert_inv : (x : A) (ys : List A) → All P (insert before x ys) → P x × All P ys
  unfolding insert
  All-insert_inv x [] h = (h.0, tt)
  All-insert_inv x (y ∷ ys) h = elim (Bool-cases (before x y)) [
    | inl e ↦ rw e at h
    | inr e ↦
        let h' : P y × All P (insert before x ys) = rw e at h in
        let (hx, hys) = All-insert_inv x ys h'.1 in (hx, (h'.0, hys))
  ]

  pub All-order_by_inv : (xs : List A) → All P (order_by before xs) → All P xs
  unfolding order_by
  All-order_by_inv [] h = tt
  All-order_by_inv (x ∷ xs) h =
      let (hx, hxs) = All-insert_inv x (order_by before xs) h in (hx, All-order_by_inv xs hxs)

-- With a total and transitive order the row that `ORDER BY … LIMIT 1` fetches is before every row.
module _ {A : Type 0} (before : A → A → Bool)
    (total : (x y : A) → before x y ≡ false → before y x ≡ true)
    (trans : (x y z : A) → before x y ≡ true → before y z ≡ true → before x z ≡ true) where
  refl_before : (x : A) → before x x ≡ true
  refl_before x = elim (Bool-cases (before x x)) [ inl e ↦ e | inr e ↦ total x x e ]

  -- Whatever heads the sorted row list after an insertion is before what was inserted and before
  -- the old head.
  fetch_one-insert :
      (x m : A) (ys : List A)
      → fetch_one (insert before x ys) ≡ some m
      → (before m x ≡ true) × ((h : A) → fetch_one ys ≡ some h → before m h ≡ true)
  unfolding insert
  fetch_one-insert x m [] e = (ground (arith, refl_before x), λ h n. cc)
  fetch_one-insert x m (y ∷ ys) e = (
    ground (arith, refl_before x, total x y),
    λ h n. ground (arith, refl_before x, refl_before y, total x y),
  )

  fetch_one-insert-none : (x : A) (ys : List A) → fetch_one (insert before x ys) ≢ none
  unfolding insert
  fetch_one-insert-none x [] = ground arith
  fetch_one-insert-none x (y ∷ ys) = ground arith

  pub fetch_one-order_by :
      (xs : List A) (m : A)
      → fetch_one (order_by before xs) ≡ some m
      → All (λ x. before m x ≡ true) xs
  unfolding order_by
  fetch_one-order_by [] m e = tt
  fetch_one-order_by (x ∷ []) m e = ((fetch_one-insert x m [] e).0, tt)
  fetch_one-order_by (x ∷ y ∷ xs) m e =
      let (mx, mh) = fetch_one-insert x m (order_by before (y ∷ xs)) e in
      (
        mx,
        elim (Option-cases (fetch_one (order_by before (y ∷ xs)))) [
          | inl n ↦ absurd (fetch_one-insert-none y (order_by before xs) n)
          | inr (h, n) ↦
              All-map (λ z. before h z ≡ true) (λ z. before m z ≡ true) (y ∷ xs)
                (λ z. trans m h z (mh h n)) (fetch_one-order_by (y ∷ xs) h n)
        ],
      )

  pub fetch_one-order_by-none : (xs : List A) → fetch_one (order_by before xs) ≡ none → xs ≡ []
  unfolding order_by
  fetch_one-order_by-none [] e = refl
  fetch_one-order_by-none (x ∷ xs) e = absurd (fetch_one-insert-none x (order_by before xs) e)
