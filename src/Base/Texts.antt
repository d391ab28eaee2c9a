-- ===== src/Base/Texts.antt =====
-- Texts as lists of code points, for the code that looks into them, with what the modules use of
-- Python's `str`.
use Prim.Native.Nat.{ℕ}
use mathlib.Core.Path.{◌≡◌, refl}
use mathlib.Core.Bool.{Bool, true, false, ◌&&◌, ◌||◌}
use mathlib.Core.List.{List, [], ◌∷◌, ◌++◌}
use native.Mathlib.Omega.{arith}
use package.rougarou_os.Base.Tests.{◌==◌, if◌then◌else◌}

abbrev pub Text : Type 0
Text = List ℕ

unfoldable pub same_text : Text → Text → Bool
same_text [] [] = true
same_text [] (y ∷ ys) = false
same_text (x ∷ xs) [] = false
same_text (x ∷ xs) (y ∷ ys) = x == y && same_text xs ys

pub same_text_refl : (t : Text) → same_text t t ≡ true
unfolding same_text
same_text_refl [] = refl
same_text_refl (x ∷ t) = ground (arith, same_text_refl t)

pub same_text→eq : (s t : Text) → same_text s t ≡ true → s ≡ t
unfolding same_text
same_text→eq [] [] h = refl
same_text→eq [] (y ∷ ys) h = cc
same_text→eq (x ∷ xs) [] h = cc
same_text→eq (x ∷ xs) (y ∷ ys) h =
    let e : x ≡ y = ground arith in let r : xs ≡ ys = same_text→eq xs ys (ground arith) in cc

-- `x in xs`, for texts
unfoldable pub has_text : Text → List Text → Bool
has_text t [] = false
has_text t (x ∷ xs) = same_text x t || has_text t xs

-- `c in text`
unfoldable pub has_code : ℕ → Text → Bool
has_code c [] = false
has_code c (x ∷ t) = x == c || has_code c t

abbrev pub is_empty {ℓ} : {A : Type ℓ} → List A → Bool
is_empty [] = true
is_empty (x ∷ xs) = false

-- `any(p(x) for x in xs)` and `all`
unfoldable pub any {ℓ} : {A : Type ℓ} → (A → Bool) → List A → Bool
any p [] = false
any p (x ∷ xs) = p x || any p xs

unfoldable pub all {ℓ} : {A : Type ℓ} → (A → Bool) → List A → Bool
all p [] = true
all p (x ∷ xs) = p x && all p xs

abbrev pub to_head : ℕ → List Text → List Text
to_head c [] = (c ∷ []) ∷ []
to_head c (t ∷ ts) = (c ∷ t) ∷ ts

-- `text.split(c)`, for one code point
unfoldable pub split_on : ℕ → Text → List Text
split_on c [] = [] ∷ []
split_on c (x ∷ t) = let rest = split_on c t in if x == c then [] ∷ rest else to_head x rest

-- `sep.join(texts)`
unfoldable pub join : Text → List Text → Text
join sep [] = []
join sep (t ∷ []) = t
join sep (t ∷ u ∷ us) = t ++ sep ++ join sep (u ∷ us)

-- `text.startswith(prefix)`
unfoldable pub begins : Text → Text → Bool
begins [] t = true
begins (c ∷ p) [] = false
begins (c ∷ p) (x ∷ t) = c == x && begins p t

-- `part in text`
unfoldable pub contains : Text → Text → Bool
unfolding begins
contains part [] = is_empty part
contains part (x ∷ t) = begins part (x ∷ t) || contains part t
