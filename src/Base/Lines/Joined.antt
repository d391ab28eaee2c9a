-- ===== src/Base/Lines/Joined.antt =====
-- Lines that are put together and split again.
use mathlib.Core.Path.{◌≡◌, refl, ap, sym, ◌∙◌}
use mathlib.Core.Bool.{Bool, true, false, not}
use mathlib.Core.List.{append_assoc, List, [], ◌∷◌, ◌++◌}
use native.Mathlib.Omega.{arith}
use package.rougarou_os.Base.Tests.{◌==◌}
use package.rougarou_os.Base.Texts.{Text, all, join}
use package.rougarou_os.Base.Lines.{is_line_end, lines_from, split_lines}

-- One line of a text, without its end.
abbrev pub is_line : Text → Bool
is_line t = all (λ c. not (is_line_end c)) t

-- The lines with a line feed behind each.
unfoldable pub unlines : List Text → Text
unlines [] = []
unlines (l ∷ ls) = l ++ 10 ∷ unlines ls

lines_from-line :
    (l t : Text) → is_line l ≡ true → lines_from false (l ++ 10 ∷ t) ≡ l ∷ lines_from false t
unfolding lines_from all
lines_from-line [] t h = refl
lines_from-line (c ∷ l) t h =
    let e : is_line_end c ≡ false = ground arith in
    let r : (c == 13) ≡ false = ground arith in
    let ih : lines_from false (l ++ 10 ∷ t) ≡ l ∷ lines_from false t =
      lines_from-line l t (ground arith) in
    rw (r, e, ih)

-- The lines of texts with a line feed behind each are those texts.
pub split_lines-unlines : (ls : List Text) → all is_line ls ≡ true → split_lines (unlines ls) ≡ ls
unfolding split_lines unlines lines_from all
split_lines-unlines [] h = refl
split_lines-unlines (l ∷ ls) h =
    let e : lines_from false (l ++ 10 ∷ unlines ls) ≡ l ∷ lines_from false (unlines ls) =
      lines_from-line l (unlines ls) (ground arith) in
    let r : split_lines (unlines ls) ≡ ls = split_lines-unlines ls (ground arith) in
    rw e (ap (λ z. l ∷ z) r)

-- Joined by line feeds, with one more at the end.
pub join-unlines :
    (l : Text) (ls : List Text) (t : Text)
    → join (10 ∷ []) (l ∷ ls) ++ 10 ∷ t ≡ unlines (l ∷ ls) ++ t
unfolding join unlines
join-unlines l [] t = sym (append_assoc l (10 ∷ []) t)
join-unlines l (m ∷ ls) t =
    let s : Text = join (10 ∷ []) (m ∷ ls) in
    let ih : s ++ 10 ∷ t ≡ unlines (m ∷ ls) ++ t = join-unlines m ls t in
    let n : Text = 10 ∷ [] in
    let o : (l ++ n) ++ s ≡ l ++ 10 ∷ s = append_assoc l n s in
    let a : (l ++ 10 ∷ s) ++ 10 ∷ t ≡ l ++ 10 ∷ (s ++ 10 ∷ t) = append_assoc l (10 ∷ s) (10 ∷ t) in
    let b : (l ++ 10 ∷ unlines (m ∷ ls)) ++ t ≡ l ++ 10 ∷ (unlines (m ∷ ls) ++ t) =
      append_assoc l (10 ∷ unlines (m ∷ ls)) t in
    ap (λ z. z ++ 10 ∷ t) o ∙ a ∙ ap (λ z. l ++ 10 ∷ z) ih ∙ sym b
