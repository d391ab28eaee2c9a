-- ===== src/Base/Paths.antt =====
-- Python's `PurePosixPath`: a root and the parts that follow it.
use Prim.Native.Nat.{ℕ}
use mathlib.Core.Path.{◌≡◌, refl}
use mathlib.Core.Bool.{Bool, true, false, ◌&&◌, not}
use mathlib.Core.List.{List, [], ◌∷◌, ◌++◌}
use native.Mathlib.Omega.{arith}
use package.rougarou_os.Base.Tests.{◌==◌, codes, if◌then◌else◌}
use package.rougarou_os.Base.Rows.{select}
use package.rougarou_os.Base.Texts.{
  Text, same_text, same_text_refl, same_text→eq, has_text, is_empty, split_on, join,
}

-- The root of an absolute path is one slash, or two that are kept.
pub data Root : Type 0 where
  relative one_slash two_slashes : Root

pub record PurePath : Type 0 where
  pub root : Root
  pub parts : List Text

abbrev pub slash : ℕ
slash = 47

-- `posixpath.splitroot`
abbrev root_of : Text → Root
root_of [] = relative
root_of (a ∷ []) = if a == slash then one_slash else relative
root_of (a ∷ b ∷ []) =
    if a == slash then (if b == slash then two_slashes else one_slash) else relative
root_of (a ∷ b ∷ c ∷ t) =
    if a == slash
    then (if b == slash && not (c == slash) then two_slashes else one_slash)
    else relative

abbrev is_part : Text → Bool
is_part t = not (is_empty t) && not (same_text t (codes "."))

-- `PurePosixPath(text)`
unfoldable pub path_of : Text → PurePath
path_of t = record { root = root_of t; parts = select is_part (split_on slash t) }

abbrev pub root_text : Root → Text
root_text relative = []
root_text one_slash = slash ∷ []
root_text two_slashes = slash ∷ slash ∷ []

-- `str(path)`
unfoldable pub path_text : PurePath → Text
path_text p =
    let t = root_text p.root ++ join (slash ∷ []) p.parts in if is_empty t then codes "." else t

abbrev pub is_absolute : PurePath → Bool
is_absolute p = elim p.root [ relative ↦ false | _ ↦ true ]

-- `".." in path.parts`
abbrev pub goes_up : PurePath → Bool
goes_up p = has_text (codes "..") p.parts

abbrev pub same_root : Root → Root → Bool
same_root relative relative = true
same_root one_slash one_slash = true
same_root two_slashes two_slashes = true
same_root _ _ = false

unfoldable pub are_prefix : List Text → List Text → Bool
are_prefix [] ys = true
are_prefix (x ∷ xs) [] = false
are_prefix (x ∷ xs) (y ∷ ys) = same_text x y && are_prefix xs ys

-- `path.is_relative_to(other)`: `other` is the path or one of its parents.
abbrev pub is_relative_to : PurePath → PurePath → Bool
is_relative_to p q = same_root q.root p.root && are_prefix q.parts p.parts

-- `path == other`
abbrev pub same_path : PurePath → PurePath → Bool
same_path p q = is_relative_to p q && is_relative_to q p

unfoldable pub init : List Text → List Text
init [] = []
init (x ∷ []) = []
init (x ∷ y ∷ xs) = x ∷ init (y ∷ xs)

abbrev pub last_part : List Text → Text
last_part [] = []
last_part (x ∷ []) = x
last_part (x ∷ y ∷ xs) = last_part (y ∷ xs)

-- `path.parent` and `path.name`
abbrev pub parent : PurePath → PurePath
parent p = record p { parts = init p.parts }

abbrev pub name : PurePath → Text
name p = last_part p.parts

-- `path / other`
abbrev pub joined : PurePath → PurePath → PurePath
joined p q = elim q.root [ relative ↦ record p { parts = p.parts ++ q.parts } | _ ↦ q ]

are_prefix_antisym :
    (xs ys : List Text) → are_prefix xs ys ≡ true → are_prefix ys xs ≡ true → xs ≡ ys
unfolding are_prefix
are_prefix_antisym [] [] h g = refl
are_prefix_antisym [] (y ∷ ys) h g = cc
are_prefix_antisym (x ∷ xs) [] h g = cc
are_prefix_antisym (x ∷ xs) (y ∷ ys) h g =
    let e : x ≡ y = same_text→eq x y (ground arith) in
    let r : xs ≡ ys = are_prefix_antisym xs ys (ground arith) (ground arith) in cc

pub are_prefix_refl : (xs : List Text) → are_prefix xs xs ≡ true
unfolding are_prefix
are_prefix_refl [] = refl
are_prefix_refl (x ∷ xs) = ground (arith, same_text_refl x, are_prefix_refl xs)

-- A prefix is what a rest can be put behind.
pub prefix-rest : (xs ys : List Text) → are_prefix xs ys ≡ true → (zs : List Text) × (ys ≡ xs ++ zs)
unfolding are_prefix
prefix-rest [] ys h = (ys, refl)
prefix-rest (x ∷ xs) [] h = cc
prefix-rest (x ∷ xs) (y ∷ ys) h =
    let e : x ≡ y = same_text→eq x y (ground arith) in
    let (zs, r) = prefix-rest xs ys (ground arith) in (zs, cc)

same_root→eq : (r q : Root) → same_root r q ≡ true → r ≡ q
same_root→eq relative relative h = refl
same_root→eq one_slash one_slash h = refl
same_root→eq two_slashes two_slashes h = refl
same_root→eq relative one_slash h = cc
same_root→eq relative two_slashes h = cc
same_root→eq one_slash relative h = cc
same_root→eq one_slash two_slashes h = cc
same_root→eq two_slashes relative h = cc
same_root→eq two_slashes one_slash h = cc

pub same_path→eq : (p q : PurePath) → same_path p q ≡ true → p ≡ q
same_path→eq p q h =
    let r : p.root ≡ q.root = same_root→eq p.root q.root (ground arith) in
    let t : p.parts ≡ q.parts = are_prefix_antisym p.parts q.parts (ground arith) (ground arith) in
    cc

same_root_refl : (r : Root) → same_root r r ≡ true
same_root_refl relative = refl
same_root_refl one_slash = refl
same_root_refl two_slashes = refl

pub same_path_refl : (p : PurePath) → same_path p p ≡ true
same_path_refl p = ground (arith, same_root_refl p.root, are_prefix_refl p.parts)
