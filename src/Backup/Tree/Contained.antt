-- ===== src/Backup/Tree/Contained.antt =====
-- Which lists of a snapshot's files pass `validate_tree` of rootfs/usr/lib/rougarou/backup.py.
use rougarou_os.Base.{
  ◌≡◌, refl, sym, ◌∙◌, ap, ◌↔◌, Bool, true, false, not, ◌&&◌, List, [], ◌∷◌, ◌++◌, Result, ok, err,
  Text, any, is_ok, same_path_refl, PurePath, same_path, same_path→eq, is_relative_to, arith, inl,
  inr, Bool-cases, continue, require, gets, ◌>>=◌,
}
use mathlib.Core.Path.{subst}
use mathlib.Core.List.{Memᴰ, append_assoc, append-nil}
use rougarou_os.Backup.Tree.{
  TreeError, Node, Reader, Seen, is_through, through_symlink, check_node, check_nodes,
  validate_tree, roots_of, nothing_seen,
}
use rougarou_os.Backup.Tree.Line.{
  Decides, NodeFits, Noted, IsCache, path_of_node, link_of_node, node-Decides,
}

-- The paths of the list behind those that came before, and its symbolic links.
abbrev pub met : List Node → List PurePath → List PurePath
met [] seen = seen
met (n ∷ ns) seen = met ns (path_of_node n ++ seen)

abbrev pub links_of : List Node → List PurePath
links_of [] = []
links_of (n ∷ ns) = link_of_node n ++ links_of ns

-- Every line fits, and no path comes twice.
abbrev pub AllFit : List PurePath → Reader → List PurePath → List Node → Type 0
AllFit roots cat seen [] = Unit
AllFit roots cat seen (n ∷ ns) =
    NodeFits roots cat seen n × AllFit roots cat (path_of_node n ++ seen) ns

abbrev pub Met : Reader → List Node → Seen → Seen → Type 0
Met cat ns s t =
    (t.paths ≡ met ns s.paths) × (t.links ≡ s.links ++ links_of ns) × IsCache cat t.link_directories

module _ (roots : List PurePath) (cat : Reader) where
  after_node :
      (n : Node) (ns : List Node) (s : Seen) (x : Result TreeError (Unit {0}) × Seen)
      → Decides (NodeFits roots cat s.paths n) (λ _. Noted cat n s) x
      → ((t : Seen)
          → IsCache cat t.link_directories
          → Decides (AllFit roots cat t.paths ns) (λ _. Met cat ns t) (check_nodes roots cat ns t))
      → Decides
          (AllFit roots cat s.paths (n ∷ ns))
          (λ _. Met cat (n ∷ ns) s)
          (continue (λ _. check_nodes roots cat ns) x.0 x.1)
  after_node n ns s (err e, t) h g = λ c. h c.0
  after_node n ns s (ok _, t) (fits, (p, l, c)) g = after_nodes (check_nodes roots cat ns t) (g t c)
    where
      after_nodes :
          (y : Result TreeError (Unit {0}) × Seen)
          → Decides (AllFit roots cat t.paths ns) (λ _. Met cat ns t) y
          → Decides (AllFit roots cat s.paths (n ∷ ns)) (λ _. Met cat (n ∷ ns) s) y
      after_nodes (err e, u) h = λ d. h (subst (λ ps. AllFit roots cat ps ns) (sym p) d.1)
      after_nodes (ok _, u) (all_fit, (q, m, k)) = (
        (fits, subst (λ ps. AllFit roots cat ps ns) p all_fit),
        (
          q ∙ ap (met ns) p,
          m ∙ ap (λ z. z ++ links_of ns) l ∙ append_assoc s.links (link_of_node n) (links_of ns),
          k,
        ),
      )

  nodes_decide :
      (ns : List Node) (s : Seen)
      → IsCache cat s.link_directories
      → Decides (AllFit roots cat s.paths ns) (λ _. Met cat ns s) (check_nodes roots cat ns s)
  unfolding check_nodes
  nodes_decide [] s c = (tt, (refl, sym (append-nil s.links), c))
  nodes_decide (n ∷ ns) s c =
      after_node n ns s (check_node roots cat n s) (node-Decides roots cat n s c) (nodes_decide ns)

-- The whole list may be restored: no file would be put behind a symbolic link of the list.
pub record IsTree (roots : List PurePath) (cat : Reader) (ns : List Node) : Type 0 where
  pub fits : AllFit roots cat [] ns
  pub direct :
      (p l : PurePath)
      → Memᴰ p (met ns [])
      → Memᴰ l (links_of ns)
      → is_relative_to p l ≡ true
      → p ≡ l

any-mem :
    {A : Type 0} (f : A → Bool) (xs : List A) (x : A) → any f xs ≡ false → Memᴰ x xs → f x ≡ false
unfolding any
any-mem f [] x h m = elim m [ ]
any-mem f (y ∷ ys) x h (Memᴰ.head e) =
    let g : f y ≡ false = ground arith in subst (λ z. f z ≡ false) (sym e) g
any-mem f (y ∷ ys) x h (Memᴰ.tail m) = any-mem f ys x (ground arith) m

none-any :
    {A : Type 0} (f : A → Bool) (xs : List A)
    → ((x : A) → Memᴰ x xs → f x ≡ false)
    → any f xs ≡ false
unfolding any
none-any f [] h = refl
none-any f (x ∷ xs) h = rw (h x (Memᴰ.head refl)) (none-any f xs λ y m. h y (Memᴰ.tail m))

through_iff :
    (paths links : List PurePath)
    → (any (is_through links) paths ≡ false)
      ↔ ((p l : PurePath) → Memᴰ p paths → Memᴰ l links → is_relative_to p l ≡ true → p ≡ l)
through_iff paths links = (
  λ h p l m n r.
      let q = any-mem _ links l (any-mem (is_through links) paths p h m) n in
      elim (Bool-cases (same_path p l)) [
        | inl e ↦ same_path→eq p l e
        | inr e ↦ let w : (not false && true) ≡ false = rw (e, r) at q in cc
      ],
  λ h. none-any (is_through links) paths λ p m. none-any _ links λ l n.
      elim (Bool-cases (is_relative_to p l)) [
        | inr r ↦ rw r (ground arith)
        | inl r ↦
            let e : same_path p l ≡ true =
              subst (λ z. same_path p z ≡ true) (h p l m n r) (same_path_refl p) in
            rw e refl
      ],
)

accepted :
    (includes : List Text) (cat : Reader) (ns : List Node) (x : Result TreeError (Unit {0}) × Seen)
    → Decides (AllFit (roots_of includes) cat [] ns) (λ _. Met cat ns nothing_seen) x
    → is_ok
          (continue
            (λ _. (do
              through ← gets (λ s. any (is_through s.links) s.paths)
              require (not through) through_symlink))
            x.0
            x.1).0
        ≡ true
      ↔ IsTree (roots_of includes) cat ns
accepted includes cat ns (err e, t) h = (λ x. cc, λ tree. absurd (h tree.fits))
accepted includes cat ns (ok _, t) (fit, (p, l, c)) =
    let i = through_iff (met ns []) (links_of ns) in
    elim (Bool-cases (any (is_through t.links) t.paths)) [
      | inl e ↦ rw e (
        λ x. cc,
        λ tree.
            let f : any (is_through (links_of ns)) (met ns []) ≡ true = rw (p, l) at e in
            let g = i.1 tree.direct in cc,
      )
      | inr e ↦ rw e (λ x. record { fits = fit; direct = i.0 (rw (p, l) at e) }, λ tree. refl)
    ]

-- `validate_tree` lets the list of a snapshot's files pass when, and only when, each path of it is
-- absolute, normal, not reserved, in a root that the manifest declares or a directory above one, and
-- new; no entry is a special file; each symbolic link is one in its directory and has a relative
-- target without `..` that stays in a root; and no path lies behind a symbolic link of the list.
pub validate_tree_lem :
    (includes : List Text) (cat : Reader) (ns : List Node)
    → is_ok (validate_tree includes cat ns nothing_seen).0 ≡ true
      ↔ IsTree (roots_of includes) cat ns
unfolding validate_tree
validate_tree_lem includes cat ns =
    accepted includes cat ns (check_nodes (roots_of includes) cat ns nothing_seen)
      (nodes_decide (roots_of includes) cat ns nothing_seen tt)
