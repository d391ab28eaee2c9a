-- ===== src/Updates/Planning/Sorted.antt =====
-- The order in which `plan` of rootfs/usr/lib/rougarou/updates.py takes the changes.
use mathlib.Core.List.Perm
use mathlib.Core.List.{Perm}
use rougarou_os.Base.{◌≡◌, refl, true, false, List, [], ◌∷◌, Text, arith, inl, inr, Bool-cases, map}
use rougarou_os.Base.Dicts.{Table}
use rougarou_os.Updates.Apply.{text_before}
use rougarou_os.Updates.Planning.{insert_change, sort_changes}

abbrev pub Follows : Text → List Text → Type 0
Follows t [] = Unit
Follows t (u ∷ us) = text_before t u ≡ true

-- Each text is at most the next, code point by code point.
abbrev pub AreInOrder : List Text → Type 0
AreInOrder [] = Unit
AreInOrder (t ∷ ts) = Follows t ts × AreInOrder ts

text_before_total : (s t : Text) → text_before s t ≡ false → text_before t s ≡ true
unfolding text_before
text_before_total [] t h = cc
text_before_total (x ∷ s) [] h = refl
text_before_total (x ∷ s) (y ∷ t) h = elim (Bool-cases (text_before s t)) [
  | inl e ↦ ground (arith, h, e)
  | inr e ↦ let k = text_before_total s t e in ground (arith, h, e, k)
]

abbrev pub names : Table → List Text
names changes = map (λ change. change.0) changes

insert-Follows :
    (t : Text) (c : Text × Text) (cs : Table)
    → text_before t c.0 ≡ true
    → Follows t (names cs)
    → Follows t (names (insert_change c cs))
unfolding insert_change
insert-Follows t c [] h f = h
insert-Follows t c (d ∷ ds) h f = elim (Bool-cases (text_before c.0 d.0)) [
  | inl e ↦ rw e h
  | inr e ↦ rw e f
]

insert-AreInOrder :
    (c : Text × Text) (cs : Table) → AreInOrder (names cs) → AreInOrder (names (insert_change c cs))
unfolding insert_change
insert-AreInOrder c [] o = (tt, tt)
insert-AreInOrder c (d ∷ ds) o = elim (Bool-cases (text_before c.0 d.0)) [
  | inl e ↦ rw e (e, o)
  | inr e ↦
      rw e (insert-Follows d.0 c ds (text_before_total c.0 d.0 e) o.0, insert-AreInOrder c ds o.1)
]

pub sort_changes-AreInOrder : (cs : Table) → AreInOrder (names (sort_changes cs))
unfolding sort_changes
sort_changes-AreInOrder [] = tt
sort_changes-AreInOrder (c ∷ cs) =
    insert-AreInOrder c (sort_changes cs) (sort_changes-AreInOrder cs)

insert-perm : (c : Text × Text) (cs : Table) → Perm (insert_change c cs) (c ∷ cs)
unfolding insert_change
insert-perm c [] = Perm.refl (c ∷ [])
insert-perm c (d ∷ ds) = elim (Bool-cases (text_before c.0 d.0)) [
  | inl e ↦ rw e (Perm.refl (c ∷ d ∷ ds))
  | inr e ↦ rw e (Perm.trans (Perm.cons d (insert-perm c ds)) (Perm.swap c d ds))
]

pub sort_changes-perm : (cs : Table) → Perm (sort_changes cs) cs
unfolding sort_changes
sort_changes-perm [] = Perm.refl []
sort_changes-perm (c ∷ cs) =
    Perm.trans (insert-perm c (sort_changes cs)) (Perm.cons c (sort_changes-perm cs))
