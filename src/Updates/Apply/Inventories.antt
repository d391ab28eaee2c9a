-- ===== src/Updates/Apply/Inventories.antt =====
-- What the inventory and the marks that `apply` of rootfs/usr/lib/rougarou/updates.py expects hold.
use rougarou_os.Base.{
  ◌≡◌, refl, ap, sym, ◌∙◌, Bool, true, false, ◌&&◌, ◌||◌, Option, none, some, List, [], ◌∷◌, ◌++◌,
  map, Text, codes, arith, same_text, same_text_refl, same_text→eq, has_text, all, inl, inr,
  Bool-cases,
}
use rougarou_os.Updates.Apply.{
  Package, Row, Inventory, row_of, set_row, is_row, same_row, same_inventory, same_texts,
  installed_row, expected_inventory, insert_text, sorted, text_before,
}

-- The place in the inventory of each package of the plan, the last one of a name.
abbrev pub ArePlanned : List Package → Inventory → Type 0
ArePlanned [] inventory = Unit
ArePlanned (p ∷ ps) inventory =
    (has_text p.name (map (λ q. q.name) ps) ≡ false
      → row_of p.name inventory
        ≡ some (record {
          version = p.version;
          architecture = p.architecture;
          status = codes "installed";
          want = codes "install";
        }))
    × ArePlanned ps inventory

row_of-set_row_self : (k : Text) (r : Row) (i : Inventory) → row_of k (set_row k r i) ≡ some r
unfolding row_of set_row
row_of-set_row_self k r [] = rw (same_text_refl k) refl
row_of-set_row_self k r ((l, q) ∷ i) = elim (Bool-cases (same_text l k)) [
  | inl e ↦ simp e
  | inr e ↦ simp (e, row_of-set_row_self k r i)
]

row_of-set_row_ne :
    (k l : Text) (r : Row) (i : Inventory)
    → same_text k l ≡ false
    → row_of l (set_row k r i) ≡ row_of l i
unfolding row_of set_row
row_of-set_row_ne k l r [] n = rw n refl
row_of-set_row_ne k l r ((h, q) ∷ i) n = elim (Bool-cases (same_text h k)) [
  | inl e ↦
      let same : h ≡ k = same_text→eq h k e in
      let f : same_text h l ≡ false = rw same n in simp (e, f)
  | inr e ↦ elim (Bool-cases (same_text h l)) [
    | inl f ↦ simp (e, f)
    | inr f ↦ simp (e, f, row_of-set_row_ne k l r i n)
  ]
]

pub expected-other :
    (ps : List Package) (i : Inventory) (name : Text)
    → has_text name (map (λ p. p.name) ps) ≡ false
    → row_of name (expected_inventory ps i) ≡ row_of name i
unfolding has_text
expected-other [] i name n = refl
expected-other (p ∷ ps) i name n =
    expected-other ps _ name (ground (arith, n))
    ∙ row_of-set_row_ne p.name name (installed_row p) i (ground (arith, n))

pub expected-ArePlanned :
    (ps : List Package) (i : Inventory) → ArePlanned ps (expected_inventory ps i)
expected-ArePlanned [] i = tt
expected-ArePlanned (p ∷ ps) i = (
  λ n. expected-other ps _ p.name n ∙ row_of-set_row_self p.name (installed_row p) i,
  expected-ArePlanned ps _,
)

pub ArePlanned-same :
    (ps : List Package) (i j : Inventory)
    → ((name : Text) → row_of name i ≡ row_of name j)
    → ArePlanned ps i
    → ArePlanned ps j
ArePlanned-same [] i j h a = tt
ArePlanned-same (p ∷ ps) i j h a = (λ n. sym (h p.name) ∙ a.0 n, ArePlanned-same ps i j h a.1)

same_row→eq : (a b : Row) → same_row a b ≡ true → a ≡ b
same_row→eq a b h =
    let (v, w, x, y) =
      four (same_text a.version b.version) (same_text a.architecture b.architecture)
        (same_text a.status b.status) (same_text a.want b.want) h in
    let p = same_text→eq a.version b.version v in
    let q = same_text→eq a.architecture b.architecture w in
    let r = same_text→eq a.status b.status x in let s = same_text→eq a.want b.want y in cc
  where
    four :
        (v w x y : Bool)
        → (v && w && x && y) ≡ true
        → (v ≡ true) × (w ≡ true) × (x ≡ true) × (y ≡ true)
    four v w x y h = (ground (arith, h), ground (arith, h), ground (arith, h), ground (arith, h))

row_is :
    (a b : Inventory) (n : Text) (r : Row)
    → all (λ e. is_row e.1 (row_of e.0 b)) a ≡ true
    → row_of n a ≡ some r
    → row_of n b ≡ some r
unfolding all row_of
row_is [] b n r h e = cc
row_is ((l, q) ∷ a) b n r h e = elim (Bool-cases (same_text l n)) [
  | inl t ↦
      let s : l ≡ n = same_text→eq l n t in
      let d : some q ≡ some r = rw t at e in
      let g : is_row q (row_of l b) ≡ true = ground (arith, h) in found q (row_of n b) (rw s at g) d
  | inr t ↦ row_is a b n r (ground (arith, h)) (rw t at e)
]
  where
    found : (q : Row) (o : Option Row) → is_row q o ≡ true → some q ≡ some r → o ≡ some r
    found q none g d = cc
    found q (some p) g d = let f = same_row→eq q p g in cc

pub same_inventory-row :
    (a b : Inventory) → same_inventory a b ≡ true → (n : Text) → row_of n a ≡ row_of n b
same_inventory-row a b h n =
    let (x, y) =
      two (all (λ e. is_row e.1 (row_of e.0 b)) a) (all (λ e. is_row e.1 (row_of e.0 a)) b) h in
    at (row_of n a) (row_of n b) refl refl x y
  where
    two : (x y : Bool) → (x && y) ≡ true → (x ≡ true) × (y ≡ true)
    two x y h = (ground (arith, h), ground (arith, h))

    at :
        (o u : Option Row)
        → row_of n a ≡ o
        → row_of n b ≡ u
        → all (λ e. is_row e.1 (row_of e.0 b)) a ≡ true
        → all (λ e. is_row e.1 (row_of e.0 a)) b ≡ true
        → row_of n a ≡ row_of n b
    at (some r) u e f x y = e ∙ sym (row_is a b n r x e)
    at none (some r) e f x y = row_is b a n r y f ∙ sym f
    at none none e f x y = e ∙ sym f

pub same_texts→eq : (xs ys : List Text) → same_texts xs ys ≡ true → xs ≡ ys
same_texts→eq [] [] h = refl
same_texts→eq [] (y ∷ ys) h = cc
same_texts→eq (x ∷ xs) [] h = cc
same_texts→eq (x ∷ xs) (y ∷ ys) h =
    let e = same_text→eq x y (ground (arith, h)) in
    let f = same_texts→eq xs ys (ground (arith, h)) in cc

has_text-insert :
    (n t : Text) (xs : List Text) → has_text n (insert_text t xs) ≡ (same_text t n || has_text n xs)
unfolding has_text insert_text
has_text-insert n t [] = refl
has_text-insert n t (x ∷ xs) = elim (Bool-cases (same_text t x)) [
  | inl e ↦
      let s : t ≡ x = same_text→eq t x e in rw e (rw s (twice (same_text x n) (has_text n xs)))
  | inr e ↦ elim (Bool-cases (text_before t x)) [
    | inl f ↦ simp (e, f)
    | inr f ↦
        simp (e, f, has_text-insert n t xs, swap (same_text x n) (same_text t n) (has_text n xs))
  ]
]
  where
    twice : (a b : Bool) → (a || b) ≡ (a || (a || b))
    twice a b = ground arith

    swap : (a b c : Bool) → (a || (b || c)) ≡ (b || (a || c))
    swap a b c = ground arith

pub has_text-sorted : (n : Text) (xs : List Text) → has_text n (sorted xs) ≡ has_text n xs
unfolding has_text sorted
has_text-sorted n [] = refl
has_text-sorted n (x ∷ xs) =
    has_text-insert n x (sorted xs) ∙ ap (λ z. same_text x n || z) (has_text-sorted n xs)

pub has_text-append :
    (n : Text) (xs ys : List Text) → has_text n (xs ++ ys) ≡ (has_text n xs || has_text n ys)
unfolding has_text
has_text-append n [] ys = refl
has_text-append n (x ∷ xs) ys =
    ap (λ z. same_text x n || z) (has_text-append n xs ys)
    ∙ shift (same_text x n) (has_text n xs) (has_text n ys)
  where
    shift : (a b c : Bool) → (a || (b || c)) ≡ ((a || b) || c)
    shift a b c = ground arith
