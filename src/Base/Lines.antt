-- ===== src/Base/Lines.antt =====
-- Lines and words of a text, as Python's `splitlines` and `split` find them.
pub mod Joined
use Prim.Native.Nat.{ℕ}
use mathlib.Core.Bool.{Bool, false, ◌&&◌, ◌||◌}
use mathlib.Core.List.{List, [], ◌∷◌}
use package.rougarou_os.Base.Tests.{◌==◌, leb, if◌then◌else◌}
use package.rougarou_os.Base.Texts.{Text, is_empty}

abbrev is_in : ℕ → ℕ → ℕ → Bool
is_in lo hi c = leb lo c && leb c hi

-- `str.isspace`
unfoldable pub is_space : ℕ → Bool
is_space c =
    is_in 9 13 c
    || is_in 28 32 c
    || (c == 133)
    || (c == 160)
    || (c == 5760)
    || is_in 8192 8202 c
    || is_in 8232 8233 c
    || (c == 8239)
    || (c == 8287)
    || (c == 12288)

-- Where `splitlines` ends a line; a carriage return and the line feed behind it are one end.
unfoldable pub is_line_end : ℕ → Bool
is_line_end c = is_in 10 13 c || is_in 28 30 c || (c == 133) || is_in 8232 8233 c

abbrev to_first : ℕ → List Text → List Text
to_first c [] = (c ∷ []) ∷ []
to_first c (l ∷ ls) = (c ∷ l) ∷ ls

unfoldable lines_from : Bool → Text → List Text
unfolding is_line_end
lines_from after_return [] = []
lines_from after_return (c ∷ t) =
    let rest = lines_from (c == 13) t in
    if after_return && c == 10 then rest else if is_line_end c then [] ∷ rest else to_first c rest

-- `text.splitlines()`
unfoldable pub split_lines : Text → List Text
unfolding lines_from
split_lines t = lines_from false t

abbrev without_empty : List Text → List Text
without_empty [] = []
without_empty (w ∷ ws) = if is_empty w then without_empty ws else w ∷ without_empty ws

unfoldable spaced : Text → List Text
unfolding is_space
spaced [] = [] ∷ []
spaced (c ∷ t) = let rest = spaced t in if is_space c then [] ∷ rest else to_first c rest

-- `text.split()`
unfoldable pub words : Text → List Text
unfolding spaced
words t = without_empty (spaced t)

unfoldable pub strip_left : Text → Text
unfolding is_space
strip_left [] = []
strip_left (c ∷ t) = if is_space c then strip_left t else c ∷ t

-- `text.strip()`
unfoldable pub strip_right : Text → Text
unfolding is_space
strip_right [] = []
strip_right (c ∷ t) =
    let rest = strip_right t in if is_space c && is_empty rest then [] else c ∷ rest

unfoldable pub strip : Text → Text
unfolding strip_left strip_right
strip t = strip_right (strip_left t)
