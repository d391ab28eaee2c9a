-- ===== src/Base/Members.antt =====
-- Members of a selection, and rows under a primary key.
use Prim.Native.String.{String}
use mathlib.Core.Path.{◌≡◌, refl, sym, subst}
use mathlib.Core.Logic.{inl, inr}
use mathlib.Core.Bool.{Bool, true, false}
use mathlib.Core.Option.{none, some}
use mathlib.Core.List.{List, [], ◌∷◌, ◌++◌, Memᴰ}
use native.Mathlib.Omega.{arith}
use text.Mathlib.TextEquality.{eq_iff}
use package.rougarou_os.Base.Tests.{same, Bool-cases, is_some}
use package.rougarou_os.Base.Lists.{All, All-map}
use package.rougarou_os.Base.Rows.{select, first, find, update, find-update}
use package.rougarou_os.Base.Order.{order_by, fetch_one, All-order_by}

module _ {A : Type 0} where
  -- `x` is a row of `xs` that passes the test `p`.
  abbrev pub Selected : (A → Bool) → List A → A → Type 0
  Selected p xs x = Memᴰ x xs × (p x ≡ true)

  pub select-Selected : (p : A → Bool) (xs : List A) → All (Selected p xs) (select p xs)
  unfolding select
  select-Selected p [] = tt
  select-Selected p (x ∷ xs) =
      let rest =
        All-map (Selected p xs) (Selected p (x ∷ xs)) (select p xs) (λ y m. (Memᴰ.tail m.0, m.1))
          (select-Selected p xs) in
      elim (Bool-cases (p x)) [ inl e ↦ rw e ((Memᴰ.head refl, e), rest) | inr e ↦ rw e rest ]

  pub All-mem : (P : A → Type 0) (xs : List A) {x : A} → All P xs → Memᴰ x xs → P x
  All-mem P [] h m = elim m [ ]
  All-mem P (y ∷ ys) h (Memᴰ.head e) = subst P (sym e) h.0
  All-mem P (y ∷ ys) h (Memᴰ.tail m) = All-mem P ys h.1 m

  pub All-of_mem : (P : A → Type 0) (xs : List A) → ((x : A) → Memᴰ x xs → P x) → All P xs
  All-of_mem P [] f = tt
  All-of_mem P (x ∷ xs) f = (f x (Memᴰ.head refl), All-of_mem P xs (λ y m. f y (Memᴰ.tail m)))

  -- What holds of every row that is selected holds of every row that passes the test.
  pub All-select_inv :
      (P : A → Type 0) (p : A → Bool) (xs : List A)
      → All P (select p xs)
      → All (λ x. p x ≡ true → P x) xs
  unfolding select
  All-select_inv P p [] h = tt
  All-select_inv P p (x ∷ xs) h = elim (Bool-cases (p x)) [
    | inl e ↦
        let h' : P x × All P (select p xs) = rw e at h in (λ _. h'.0, All-select_inv P p xs h'.1)
    | inr e ↦ let h' : All P (select p xs) = rw e at h in ((λ t. cc), All-select_inv P p xs h')
  ]

  pub fetch_one-Selected :
      (before : A → A → Bool) (p : A → Bool) (xs : List A) (m : A)
      → fetch_one (order_by before (select p xs)) ≡ some m
      → Selected p xs m
  fetch_one-Selected before p xs m e =
      head_of (order_by before (select p xs)) e
        (All-order_by before (Selected p xs) (select p xs) (select-Selected p xs))
    where
      head_of : (ys : List A) → fetch_one ys ≡ some m → All (Selected p xs) ys → Selected p xs m
      head_of [] e h = cc
      head_of (y ∷ ys) e h = let q : y ≡ m = cc in subst (Selected p xs) q h.0

module _ {A : Type 0} (p : A → Bool) where
  pub first-append_left :
      (xs ys : List A) → is_some (first p xs) ≡ true → is_some (first p (xs ++ ys)) ≡ true
  unfolding first
  first-append_left [] ys h = cc
  first-append_left (x ∷ xs) ys h = ground (arith, first-append_left xs ys)

  pub first-append_self :
      (xs : List A) (x : A) → p x ≡ true → is_some (first p (xs ++ x ∷ [])) ≡ true
  unfolding first
  first-append_self [] x h = ground arith
  first-append_self (y ∷ ys) x h = ground (arith, first-append_self ys x)

module _ {A : Type 0} (key : A → String) where
  -- After an update, a test that the updated row passes finds a row.
  pub first-update_self :
      (p : A → Bool) (k : String) (f : A → A) (xs : List A)
      → is_some (find key k xs) ≡ true
      → ((x : A) → same (key x) k ≡ true → p (f x) ≡ true)
      → is_some (first p (update key k f xs)) ≡ true
  unfolding find first update
  first-update_self p k f [] h g = cc
  first-update_self p k f (x ∷ xs) h g = elim (Bool-cases (same (key x) k)) [
    | inl t ↦ rw t (rw (g x t) refl)
    | inr t ↦ rw t (elim (Bool-cases (p x)) [
      | inl q ↦ rw q refl
      | inr q ↦ rw q (first-update_self p k f xs (rw t at h) g)
    ])
  ]

  -- An update leaves a test alone that rows of that key do not pass.
  pub first-update_ne :
      (p : A → Bool) (k : String) (f : A → A) (xs : List A)
      → ((x : A) → same (key x) k ≡ true → p x ≡ false)
      → is_some (first p xs) ≡ true
      → is_some (first p (update key k f xs)) ≡ true
  unfolding first update
  first-update_ne p k f [] g h = h
  first-update_ne p k f (x ∷ xs) g h = elim (Bool-cases (same (key x) k)) [
    | inl t ↦ rw t (elim (Bool-cases (p (f x))) [
      | inl q ↦ rw q refl
      | inr q ↦ rw q (first-update_ne p k f xs g (rw (g x t) at h))
    ])
    | inr t ↦ rw t (elim (Bool-cases (p x)) [
      | inl q ↦ rw q refl
      | inr q ↦ rw q (first-update_ne p k f xs g (rw q at h))
    ])
  ]

  -- The key is a primary key of the rows.
  abbrev pub Keyed : List A → Type 0
  Keyed [] = Unit
  Keyed (x ∷ xs) = (find key (key x) xs ≡ none) × Keyed xs

  pub find-mem_absent :
      (k : String) (xs : List A) {x : A} → find key k xs ≡ none → Memᴰ x xs → same (key x) k ≡ false
  unfolding find
  find-mem_absent k [] h m = elim m [ ]
  find-mem_absent k (y ∷ ys) h (Memᴰ.head e) = rw e (ground arith)
  find-mem_absent k (y ∷ ys) h (Memᴰ.tail m) = find-mem_absent k ys (ground arith) m

  pub find-mem : (xs : List A) {x : A} → Keyed xs → Memᴰ x xs → find key (key x) xs ≡ some x
  unfolding find
  find-mem [] h m = elim m [ ]
  find-mem (y ∷ ys) {x} h (Memᴰ.head e) = rw e (ground (arith, eq_iff (key y) (key y)))
  find-mem (y ∷ ys) {x} h (Memᴰ.tail m) =
      let ih = find-mem ys h.1 m in
      ground (
        arith,
        ih,
        find-mem_absent (key y) ys h.0 m,
        eq_iff (key x) (key y),
        eq_iff (key y) (key x),
      )

  pub mem-find : (k : String) (xs : List A) (x : A) → find key k xs ≡ some x → Memᴰ x xs
  unfolding find
  mem-find k [] x e = cc
  mem-find k (y ∷ ys) x e = elim (Bool-cases (same (key y) k)) [
    | inl t ↦ Memᴰ.head (ground arith)
    | inr t ↦ Memᴰ.tail (mem-find k ys x (ground arith))
  ]

  find-update-none :
      (k : String) (f : A → A) (j : String) (xs : List A)
      → ((x : A) → key (f x) ≡ key x)
      → find key j xs ≡ none
      → find key j (update key k f xs) ≡ none
  find-update-none k f j xs keeps h = rw (find-update key f keeps k j xs) (ground arith)

  pub Keyed-update :
      (k : String) (f : A → A) (xs : List A)
      → ((x : A) → key (f x) ≡ key x)
      → Keyed xs
      → Keyed (update key k f xs)
  unfolding update
  Keyed-update k f [] keeps h = tt
  Keyed-update k f (x ∷ xs) keeps h =
      let absent = find-update-none k f (key x) xs keeps h.0 in
      elim (Bool-cases (same (key x) k)) [
        | inl e ↦ rw e (rw (keeps x) absent, Keyed-update k f xs keeps h.1)
        | inr e ↦ rw e (absent, Keyed-update k f xs keeps h.1)
      ]

  pub find-select-none :
      (p : A → Bool) (k : String) (xs : List A)
      → find key k xs ≡ none
      → find key k (select p xs) ≡ none
  unfolding find select
  find-select-none p k [] h = refl
  find-select-none p k (x ∷ xs) h = ground (arith, find-select-none p k xs)

  pub Keyed-select : (p : A → Bool) (xs : List A) → Keyed xs → Keyed (select p xs)
  unfolding select
  Keyed-select p [] h = tt
  Keyed-select p (x ∷ xs) h = elim (Bool-cases (p x)) [
    | inl e ↦ rw e (find-select-none p (key x) xs h.0, Keyed-select p xs h.1)
    | inr e ↦ rw e (Keyed-select p xs h.1)
  ]

  pub find-append_none :
      (k : String) (xs : List A) (x : A)
      → find key k xs ≡ none
      → same (key x) k ≡ false
      → find key k (xs ++ x ∷ []) ≡ none
  unfolding find
  find-append_none k [] x h e = ground arith
  find-append_none k (y ∷ ys) x h e = ground (arith, find-append_none k ys x)

  pub Keyed-append :
      (xs : List A) (x : A) → Keyed xs → find key (key x) xs ≡ none → Keyed (xs ++ x ∷ [])
  unfolding find
  Keyed-append [] x h e = (refl, tt)
  Keyed-append (y ∷ ys) x h e = (
    find-append_none (key y) ys x h.0
        (ground (arith, eq_iff (key x) (key y), eq_iff (key y) (key x))),
    Keyed-append ys x h.1 (ground arith),
  )

  module _ {P Q : A → Type 0} (k : String) (f : A → A) where
    All-update_absent :
        (xs : List A)
        → find key k xs ≡ none
        → ((x : A) → same (key x) k ≡ false → P x → Q x)
        → All P xs
        → All Q (update key k f xs)
    unfolding find update
    All-update_absent [] e g h = tt
    All-update_absent (x ∷ xs) e g h = elim (Bool-cases (same (key x) k)) [
      | inl t ↦ let c : some x ≡ none = rw t at e in cc
      | inr t ↦ rw t (g x t h.0, All-update_absent xs (ground arith) g h.1)
    ]

    -- An update under a primary key changes the one row that has it.
    pub All-update_row :
        (xs : List A) (row : A)
        → Keyed xs
        → find key k xs ≡ some row
        → Q (f row)
        → ((x : A) → same (key x) k ≡ false → P x → Q x)
        → All P xs
        → All Q (update key k f xs)
    unfolding find update
    All-update_row [] row d e q g h = tt
    All-update_row (x ∷ xs) row d e q g h = elim (Bool-cases (same (key x) k)) [
      | inl t ↦
          let c : x ≡ row = ground arith in
          rw t (
            subst (λ y. Q (f y)) (sym c) q,
            All-update_absent xs (ground (arith, d.0, eq_iff (key x) k)) g h.1,
          )
      | inr t ↦ rw t (g x t h.0, All-update_row xs row d.1 (ground arith) q g h.1)
    ]
