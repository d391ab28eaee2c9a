-- ===== src/Base/Rows.antt =====
-- Rows of a table, selected, found and updated by a text key, as the SQL statements do.
use Prim.Native.String.{String}
use mathlib.Core.Path.{◌≡◌}
use mathlib.Core.Logic.{inl, inr}
use mathlib.Core.Bool.{Bool}
use mathlib.Core.Option
use mathlib.Core.Option.{Option, none, some}
use mathlib.Core.List.{List, [], ◌∷◌, ◌++◌}
use native.Mathlib.Omega.{arith}
use text.Mathlib.TextEquality.{eq_iff}
use package.rougarou_os.Base.Tests.{same, Bool-cases, if◌then◌else◌}
use package.rougarou_os.Base.Lists.{All}

module _ {A : Type 0} where
  -- `SELECT … WHERE p`
  unfoldable pub select : (A → Bool) → List A → List A
  select p [] = []
  select p (x ∷ xs) = let rest = select p xs in if p x then x ∷ rest else rest

  -- `SELECT … WHERE p LIMIT 1`
  unfoldable pub first : (A → Bool) → List A → Option A
  first p [] = none
  first p (x ∷ xs) = if p x then some x else first p xs

module _ {A : Type 0} (key : A → String) where
  -- `SELECT * … WHERE key=?`, with a key that is unique
  unfoldable pub find : String → List A → Option A
  find k [] = none
  find k (x ∷ xs) = if same (key x) k then some x else find k xs

  -- `UPDATE … SET … WHERE key=?`
  unfoldable pub update : String → (A → A) → List A → List A
  update k f [] = []
  update k f (x ∷ xs) = (if same (key x) k then f x else x) ∷ update k f xs

  pub find-append_self :
      (k : String) (xs : List A) (x : A)
      → find k xs ≡ none
      → key x ≡ k
      → find k (xs ++ x ∷ []) ≡ some x
  unfolding find
  find-append_self k [] x h e = ground (arith, eq_iff (key x) k)
  find-append_self k (y ∷ ys) x h e = ground (arith, eq_iff (key x) k, find-append_self k ys x)

  -- A row that is there is found with or without rows inserted behind it.
  pub find-append :
      (k : String) (xs ys : List A) (x : A) → find k xs ≡ some x → find k (xs ++ ys) ≡ some x
  unfolding find
  find-append k [] ys x h = cc
  find-append k (y ∷ xs) ys x h = ground (arith, find-append k xs ys x)

  pub find-key : (k : String) (xs : List A) (x : A) → find k xs ≡ some x → key x ≡ k
  unfolding find
  find-key k [] x h = cc
  find-key k (y ∷ xs) x h = ground (arith, eq_iff (key y) k, find-key k xs x)

  module _ (f : A → A) (keeps : (x : A) → key (f x) ≡ key x) where
    pub find-update_self :
        (k : String) (xs : List A) (x : A)
        → find k xs ≡ some x
        → find k (update k f xs) ≡ some (f x)
    unfolding find update
    find-update_self k [] x h = cc
    find-update_self k (y ∷ xs) x h =
        ground (arith, keeps y, eq_iff (key y) k, eq_iff (key (f y)) k, find-update_self k xs x)

    pub find-update :
        (j k : String) (xs : List A)
        → find k (update j f xs) ≡ (if same j k then Option.map f (find k xs) else find k xs)
    unfolding find update
    find-update j k [] = ground arith
    find-update j k (y ∷ xs) = ground (
      arith,
      keeps y,
      eq_iff j k,
      eq_iff (key y) j,
      eq_iff (key y) k,
      eq_iff (key (f y)) k,
      find-update j k xs,
    )

  pub All-update {κ} :
      (P : A → Type κ) (k : String) (f : A → A) (xs : List A)
      → ((x : A) → key x ≡ k → P x → P (f x))
      → All P xs
      → All P (update k f xs)
  unfolding update
  All-update P k f [] g h = tt
  All-update P k f (y ∷ xs) g h = elim (Bool-cases (same (key y) k)) [
    | inl e ↦ rw e (g y ((eq_iff (key y) k).0 e) h.0, All-update P k f xs g h.1)
    | inr e ↦ rw e (h.0, All-update P k f xs g h.1)
  ]
