-- ===== src/Backup/Tree/Line.antt =====
-- What one line of the list must be for `validate_tree` of rootfs/usr/lib/rougarou/backup.py.
use rougarou_os.Base.{
  ◌≡◌, refl, sym, true, false, Option, none, some, List, [], ◌∷◌, ◌++◌, Result, ok, err, select,
  Text, same_text, PurePath, path_of, same_path, same_path→eq, parent, name, joined, All, arith,
  inl, inr, Bool-cases, modify, ◌>>=◌, ◌>>◌, ◌∙◌, lift, pure,
}
use mathlib.Core.Path.{subst}
use mathlib.Core.List.{append-nil}
use rougarou_os.Backup.Tree.{
  TreeError, NodeKind, file, dir, symlink, special, Node, snapshot_line, entry, Item, Reader, Seen,
  is_reserved, is_safe, has_path, is_contained, is_declared, cached, read_directory, is_level,
  check_target, check_item, check_kind, check_node,
}

-- Whether a check passes, which is when `C` holds, and what it leaves then.
abbrev pub Decides :
    {A : Type 0} → Type 0 → (A → Seen → Type 0) → Result TreeError A × Seen → Type 0
Decides C Q (ok a, t) = C × Q a t
Decides C Q (err e, t) = C → ⊥

pub Decides-map :
    {A C D : Type 0} {Q Q' : A → Seen → Type 0} (x : Result TreeError A × Seen)
    → (C → D)
    → (D → C)
    → ((a : A) (t : Seen) → Q a t → Q' a t)
    → Decides C Q x
    → Decides D Q' x
Decides-map (ok a, t) f g k h = (f h.0, k a t h.1)
Decides-map (err e, t) f g k h = λ d. h (g d)

-- The item of a symbolic link in its directory, with a target that stays under a root.
pub record IsLevelLink (roots : List PurePath) (p : PurePath) (items : List Item) : Type 0 where
  pub item : Item
  pub target : Text
  pub only : select (λ i. same_text i.name (name p)) items ≡ item ∷ []
  pub links : item.is_symlink ≡ true
  pub leads : item.linktarget ≡ some target
  pub level : is_level target ≡ true
  pub stays : is_contained roots (joined (parent p) (path_of target)) ≡ true

abbrev pub KindFits : List PurePath → Reader → PurePath → NodeKind → Type 0
KindFits roots cat p file = Unit
KindFits roots cat p dir = Unit
KindFits roots cat p special = ⊥
KindFits roots cat p symlink =
    (items : List Item) × (cat (parent p) ≡ ok items) × IsLevelLink roots p items

pub record Fits (roots : List PurePath) (cat : Reader) (raw : Text) (kind : NodeKind) : Type 0 where
  pub safe : is_safe raw ≡ true
  pub free : is_reserved (path_of raw) ≡ false
  pub declared : is_declared roots (path_of raw) kind ≡ true
  pub kind_fits : KindFits roots cat (path_of raw) kind

-- What is cached of a directory is what Restic says of it.
abbrev pub IsCache : Reader → List (PurePath × List Item) → Type 0
IsCache cat = All (λ c. cat c.0 ≡ ok c.1)

cached-IsCache :
    (cat : Reader) (p : PurePath) (cs : List (PurePath × List Item)) (items : List Item)
    → IsCache cat cs
    → cached p cs ≡ some items
    → cat p ≡ ok items
unfolding cached
cached-IsCache cat p [] items h e = cc
cached-IsCache cat p ((q, is) ∷ cs) items h e = elim (Bool-cases (same_path q p)) [
  | inl b ↦
      let d : some is ≡ some items = rw b at e in
      let f : q ≡ p = same_path→eq q p b in
      subst (λ x. cat x ≡ ok items) f (let g : is ≡ items = cc in subst (λ x. cat q ≡ ok x) g h.0)
  | inr b ↦ cached-IsCache cat p cs items h.1 (rw b at e)
]

abbrev links_at : PurePath → NodeKind → List PurePath
links_at p symlink = p ∷ []
links_at p _ = []

module _ (roots : List PurePath) (cat : Reader) (p : PurePath) where
  abbrev Linked : Seen → Unit {0} → Seen → Type 0
  Linked s _ t =
      (t.paths ≡ s.paths) × (t.links ≡ s.links ++ p ∷ []) × IsCache cat t.link_directories

  item-Decides :
      (items : List Item) (s : Seen)
      → IsCache cat s.link_directories
      → (found : List Item) → select (λ i. same_text i.name (name p)) items ≡ found
      → Decides (IsLevelLink roots p items) (Linked s) (check_item roots p found s)
  item-Decides items s c [] f = λ x. let o = x.only in cc
  item-Decides items s c (i ∷ j ∷ is) f = λ x. let o = x.only in cc
  item-Decides items s c (i ∷ []) f = elim (Bool-cases i.is_symlink) [
    | inr e ↦
        rw e
          (λ x. let o = x.only in let l = x.links in let d : i ≡ x.item = cc in ground (arith, d))
    | inl e ↦ rw e (at_target e i.linktarget refl)
  ]
    where
      at_target :
          i.is_symlink ≡ true
          → (o : Option Text) → i.linktarget ≡ o
          → Decides (IsLevelLink roots p items) (Linked s) (check_target roots p o s)
      at_target e none d =
          λ x. let o = x.only in let l = x.leads in let q : i ≡ x.item = cc in ground (arith, q)
      at_target e (some t) d = elim (Bool-cases (is_level t)) [
        | inr n ↦ rw n (λ x.
            let o = x.only in
            let l = x.leads in
            let v = x.level in
            let q : i ≡ x.item = cc in
            let u : t ≡ x.target = ground (arith, q) in let w : is_level t ≡ true = rw u v in cc)
        | inl n ↦ rw n (elim (Bool-cases (is_contained roots (joined (parent p) (path_of t)))) [
          | inr m ↦ rw m (λ x.
              let o = x.only in
              let l = x.leads in
              let v = x.stays in
              let q : i ≡ x.item = cc in
              let u : t ≡ x.target = ground (arith, q) in
              let w : is_contained roots (joined (parent p) (path_of t)) ≡ true = rw u v in cc)
          | inl m ↦ rw m (
            record { item = i; target = t; only = f; links = e; leads = d; level = n; stays = m },
            (refl, refl, c),
          )
        ])
      ]

  link-Decides :
      (s : Seen)
      → IsCache cat s.link_directories
      → Decides (KindFits roots cat p symlink) (Linked s) (check_kind roots cat p symlink s)
  link-Decides s c = at_directory (cached (parent p) s.link_directories) refl
    where
      known_items :
          (items : List Item) (u : Seen)
          → IsCache cat u.link_directories
          → cat (parent p) ≡ ok items
          → Decides
              (KindFits roots cat p symlink)
              (Linked u)
              (check_item roots p (select (λ i. same_text i.name (name p)) items) u)
      known_items items u k e =
          Decides-map (check_item roots p (select (λ i. same_text i.name (name p)) items) u)
            (λ x. (items, e, x))
            (λ (is, g, x). let d : is ≡ items = cc in subst (IsLevelLink roots p) d x) (λ _ _ h. h)
            (item-Decides items u k (select (λ i. same_text i.name (name p)) items) refl)

      at_read :
          (r : Result TreeError (List Item))
          → cat (parent p) ≡ r
          → Decides (KindFits roots cat p symlink) (Linked s) (
              ((lift r >>= λ items.
              modify (λ u. record u { link_directories = (parent p, items) ∷ u.link_directories })
              >> pure items)
                  >>= λ items. check_item roots p (select (λ i. same_text i.name (name p)) items))
                s)
      at_read (err x) e = λ (items, g, _). let q : err x ≡ ok items = sym e ∙ g in cc
      at_read (ok items) e =
          known_items items (record s { link_directories = (parent p, items) ∷ s.link_directories })
            (e, c) e

      at_directory :
          (known : Option (List Item))
          → cached (parent p) s.link_directories ≡ known
          → Decides (KindFits roots cat p symlink) (Linked s) (
              (read_directory cat (parent p) known >>= λ items.
              check_item roots p (select (λ i. same_text i.name (name p)) items))
                s)
      at_directory none e = at_read (cat (parent p)) refl
      at_directory (some items) e =
          known_items items s c (cached-IsCache cat (parent p) s.link_directories items c e)

  pub kind-Decides :
      (kind : NodeKind) (s : Seen)
      → IsCache cat s.link_directories
      → Decides
          (KindFits roots cat p kind)
          (λ _ t.
            (t.paths ≡ s.paths)
            × (t.links ≡ s.links ++ links_at p kind)
            × IsCache cat t.link_directories)
          (check_kind roots cat p kind s)
  kind-Decides file s c = (tt, (refl, sym (append-nil s.links), c))
  kind-Decides dir s c = (tt, (refl, sym (append-nil s.links), c))
  kind-Decides special s c = λ x. x
  kind-Decides symlink s c = link-Decides s c

-- The paths that have been met, and the links among them.
abbrev pub path_of_node : Node → List PurePath
path_of_node snapshot_line = []
path_of_node (entry raw kind) = path_of raw ∷ []

abbrev pub link_of_node : Node → List PurePath
link_of_node snapshot_line = []
link_of_node (entry raw kind) = links_at (path_of raw) kind

abbrev pub NodeFits : List PurePath → Reader → List PurePath → Node → Type 0
NodeFits roots cat seen snapshot_line = Unit
NodeFits roots cat seen (entry raw kind) =
    Fits roots cat raw kind × (has_path (path_of raw) seen ≡ false)

abbrev pub Noted : Reader → Node → Seen → Seen → Type 0
Noted cat n s t =
    (t.paths ≡ path_of_node n ++ s.paths)
    × (t.links ≡ s.links ++ link_of_node n)
    × IsCache cat t.link_directories

pub node-Decides :
    (roots : List PurePath) (cat : Reader) (n : Node) (s : Seen)
    → IsCache cat s.link_directories
    → Decides (NodeFits roots cat s.paths n) (λ _. Noted cat n s) (check_node roots cat n s)
unfolding check_node
node-Decides roots cat snapshot_line s c = (tt, (refl, sym (append-nil s.links), c))
node-Decides roots cat (entry raw kind) s c =
    let p = path_of raw in
    elim (Bool-cases (is_safe raw)) [
      | inr a ↦ rw a (λ (x, _). let y = x.safe in cc)
      | inl a ↦ rw a (elim (Bool-cases (is_reserved p)) [
        | inl b ↦ rw b (λ (x, _). let y = x.free in cc)
        | inr b ↦ rw b (elim (Bool-cases (has_path p s.paths)) [
          | inl d ↦ rw d (λ (_, y). cc)
          | inr d ↦ rw d (elim (Bool-cases (is_declared roots p kind)) [
            | inr f ↦ rw f (λ (x, _). let y = x.declared in cc)
            | inl f ↦ rw f (
                Decides-map (check_kind roots cat p kind (record s { paths = p ∷ s.paths }))
                  (λ x. (record { safe = a; free = b; declared = f; kind_fits = x }, refl))
                  (λ (x, _). x.kind_fits) (λ _ _ h. h)
                  (kind-Decides roots cat p kind (record s { paths = p ∷ s.paths }) c))
          ])
        ])
      ])
    ]
