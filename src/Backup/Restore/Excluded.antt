-- ===== src/Backup/Restore/Excluded.antt =====
-- The configuration that `restore` of rootfs/usr/lib/rougarou/backup.py stores before it fills a tree.
use mathlib.Core.List.{Memᴰ}
use mathlib.Core.Path.{subst}
use rougarou_os.Base.{
  ◌≡◌, ◌≢◌, refl, ap, sym, ◌∙◌, true, some, List, [], ◌∷◌, ◌++◌, codes, Text, same_text,
  same_text_refl, same_text→eq, has_text, ◌⊎◌, inl, inr, Bool-cases, PurePath, path_text,
}
use rougarou_os.Base.Json.{
  Json, null, big_double, boolean, whole, double, text, array, object, Elements, elements, Dict,
  lookup, put,
}
use rougarou_os.Backup.Restore.{Machine, distinct, trees, to_elements, updated}

-- The configuration `saved` is `dict`, but for the trees that no backup takes: the place is among
-- them, and so is each one that was.
pub record Excludes (dict saved : Dict) (p : PurePath) : Type 0 where
  pub restores : Elements
  pub stored : lookup (codes "restores") saved ≡ some (array restores)
  pub place : Memᴰ (text (path_text p)) (elements restores)
  pub kept :
      (js : Elements) (t : Text)
      → lookup (codes "restores") dict ≡ some (array js)
      → Memᴰ (text t) (elements js)
      → Memᴰ (text t) (elements restores)
  pub others : (key : Text) → key ≢ codes "restores" → lookup key saved ≡ lookup key dict

lookup-put_self : (k : Text) (j : Json) (d : Dict) → lookup k (put k j d) ≡ some j
unfolding lookup put
lookup-put_self k j [] = rw (same_text_refl k) refl
lookup-put_self k j ((l, i) ∷ d) = elim (Bool-cases (same_text l k)) [
  | inl e ↦ simp e
  | inr e ↦ simp (e, lookup-put_self k j d)
]

lookup-put_ne : (k l : Text) (j : Json) (d : Dict) → l ≢ k → lookup l (put k j d) ≡ lookup l d
unfolding lookup put
lookup-put_ne k l j [] n = elim (Bool-cases (same_text k l)) [
  | inl e ↦ absurd (n (sym (same_text→eq k l e)))
  | inr e ↦ rw e refl
]
lookup-put_ne k l j ((h, i) ∷ d) n = elim (Bool-cases (same_text h k)) [
  | inl e ↦
      let q : h ≡ k = same_text→eq h k e in
      elim (Bool-cases (same_text h l)) [
        | inl f ↦ absurd (n (sym (same_text→eq h l f) ∙ q))
        | inr f ↦ simp (e, f)
      ]
  | inr e ↦ elim (Bool-cases (same_text h l)) [
    | inl f ↦ simp (e, f)
    | inr f ↦ simp (e, f, lookup-put_ne k l j d n)
  ]
]

elements-to_elements : (js : List Json) → elements (to_elements js) ≡ js
elements-to_elements [] = refl
elements-to_elements (j ∷ js) = ap (λ z. j ∷ z) (elements-to_elements js)

Left : Text → List Text → List Json → Type 0
Left t seen js = Memᴰ (text t) (distinct seen js) ⊎ (has_text t seen ≡ true)

Left-first : (u t : Text) (seen : List Text) (js : List Json) → t ≡ u → Left t seen (text u ∷ js)
unfolding Left distinct has_text
Left-first u t seen js e = elim (Bool-cases (has_text u seen)) [
  | inl h ↦ inr (rw e h)
  | inr h ↦ inl (rw h (Memᴰ.head (ap text e)))
]

-- `dict.fromkeys` leaves every text that is not seen before.
Left-cons :
    (u t : Text) (seen : List Text) (js : List Json)
    → (t ≡ u) ⊎ Left t (u ∷ seen) js
    → Left t seen (text u ∷ js)
unfolding Left distinct has_text
Left-cons u t seen js (inl e) = Left-first u t seen js e
Left-cons u t seen js (inr (inl m)) = elim (Bool-cases (has_text u seen)) [
  | inl h ↦ inl (rw h m)
  | inr h ↦ inl (rw h (Memᴰ.tail m))
]
Left-cons u t seen js (inr (inr h)) = elim (Bool-cases (same_text u t)) [
  | inl e ↦ Left-first u t seen js (sym (same_text→eq u t e))
  | inr e ↦ inr (rw e at h)
]

text_eq : (t u : Text) → text t ≡ text u → t ≡ u
text_eq t u e = cc

distinct-Left : (t : Text) (seen : List Text) (js : List Json) → Memᴰ (text t) js → Left t seen js
unfolding Left distinct
distinct-Left t seen [] m = elim m [ ]
distinct-Left t seen (text u ∷ js) (Memᴰ.head e) = Left-cons u t seen js (inl (text_eq t u e))
distinct-Left t seen (text u ∷ js) (Memᴰ.tail m) =
    Left-cons u t seen js (inr (distinct-Left t (u ∷ seen) js m))
distinct-Left t seen (null ∷ js) (Memᴰ.head e) = cc
distinct-Left t seen (null ∷ js) (Memᴰ.tail m) = elim (distinct-Left t seen js m) [
  | inl k ↦ inl (Memᴰ.tail k)
  | inr h ↦ inr h
]
distinct-Left t seen (big_double ∷ js) (Memᴰ.head e) = cc
distinct-Left t seen (big_double ∷ js) (Memᴰ.tail m) = elim (distinct-Left t seen js m) [
  | inl k ↦ inl (Memᴰ.tail k)
  | inr h ↦ inr h
]
distinct-Left t seen ((boolean _) ∷ js) (Memᴰ.head e) = cc
distinct-Left t seen ((boolean _) ∷ js) (Memᴰ.tail m) = elim (distinct-Left t seen js m) [
  | inl k ↦ inl (Memᴰ.tail k)
  | inr h ↦ inr h
]
distinct-Left t seen ((whole _) ∷ js) (Memᴰ.head e) = cc
distinct-Left t seen ((whole _) ∷ js) (Memᴰ.tail m) = elim (distinct-Left t seen js m) [
  | inl k ↦ inl (Memᴰ.tail k)
  | inr h ↦ inr h
]
distinct-Left t seen ((double _ _) ∷ js) (Memᴰ.head e) = cc
distinct-Left t seen ((double _ _) ∷ js) (Memᴰ.tail m) = elim (distinct-Left t seen js m) [
  | inl k ↦ inl (Memᴰ.tail k)
  | inr h ↦ inr h
]
distinct-Left t seen ((array _) ∷ js) (Memᴰ.head e) = cc
distinct-Left t seen ((array _) ∷ js) (Memᴰ.tail m) = elim (distinct-Left t seen js m) [
  | inl k ↦ inl (Memᴰ.tail k)
  | inr h ↦ inr h
]
distinct-Left t seen ((object _) ∷ js) (Memᴰ.head e) = cc
distinct-Left t seen ((object _) ∷ js) (Memᴰ.tail m) = elim (distinct-Left t seen js m) [
  | inl k ↦ inl (Memᴰ.tail k)
  | inr h ↦ inr h
]

unseen : (t : Text) (js : List Json) → Left t [] js → Memᴰ (text t) (distinct [] js)
unfolding Left has_text
unseen t js (inl m) = m
unseen t js (inr h) = cc

mem-left : {A : Type 0} (a : A) (xs ys : List A) → Memᴰ a xs → Memᴰ a (xs ++ ys)
mem-left a [] ys m = elim m [ ]
mem-left a (x ∷ xs) ys (Memᴰ.head e) = Memᴰ.head e
mem-left a (x ∷ xs) ys (Memᴰ.tail m) = Memᴰ.tail (mem-left a xs ys m)

mem-last : {A : Type 0} (a : A) (xs : List A) → Memᴰ a (xs ++ a ∷ [])
mem-last a [] = Memᴰ.head refl
mem-last a (x ∷ xs) = Memᴰ.tail (mem-last a xs)

module _ (m : Machine) where
  pub updated-Excludes : (dict : Dict) (p : PurePath) → Excludes dict (updated m dict p) p
  updated-Excludes dict p = record {
    restores = to_elements listed;
    stored = lookup-put_self (codes "restores") (array (to_elements listed)) dict;
    place =
        there (path_text p)
          (mem-last (text (path_text p)) (trees (lookup (codes "restores") dict)));
    kept = λ js t e k. there t (
        mem-left (text t) _ (text (path_text p) ∷ [])
          (subst (λ z. Memᴰ (text t) (trees z)) (sym e) k));
    others = λ key n. lookup-put_ne (codes "restores") key (array (to_elements listed)) dict n;
  }
    where
      all_trees : List Json
      all_trees = trees (lookup (codes "restores") dict) ++ text (path_text p) ∷ []

      listed : List Json
      listed = distinct [] all_trees

      there : (t : Text) → Memᴰ (text t) all_trees → Memᴰ (text t) (elements (to_elements listed))
      there t k =
          subst (Memᴰ (text t)) (sym (elements-to_elements listed))
            (unseen t all_trees (distinct-Left t [] all_trees k))
