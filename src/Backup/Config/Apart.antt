-- ===== src/Backup/Config/Apart.antt =====
-- What a configuration keeps apart that passes `validate_config` of
-- rootfs/usr/lib/rougarou/backup.py.
use rougarou_os.Base.{
  ◌≡◌, refl, Bool, true, false, not, ◌&&◌, ◌||◌, List, [], ◌∷◌, codes, Result, ok, err, is_empty,
  any, PurePath, Root, relative, one_slash, two_slashes, same_root, are_prefix, same_path,
  same_text_refl, All-map, sym, ◌∙◌, ◌++◌, Text, same_text, path_of, is_absolute, goes_up,
  is_relative_to, All, arith,
}
use mathlib.Core.Path.{subst}
use rougarou_os.Base.Json.{Json, text, lookup, has_keys, members, object}
use rougarou_os.Base.Results.{◌>>◌, bind-ok, demand-ok}
use rougarou_os.Cli.Provider.{is_control}
use rougarou_os.Backup.Config.{
  BackupError, bad_path, relative_path, unsupported, password_inside, not_separate, forbidden_tree,
  repository_inside, staging_inside, Places, absolute, components, absolutes, list_at, value_at,
  is_one, config_keys, own_roots, top, root_only, overlaps, is_forbidden, is_own, check_include,
  check_includes, Config, location, validate_config,
}

ok_eq : {A : Type 0} (a b : A) → ◌≡◌ {A = Result BackupError A} (ok a) (ok b) → a ≡ b
ok_eq a b h = cc

-- `f` is `p`, or lies below it.
abbrev pub IsBelow : PurePath → PurePath → Type 0
IsBelow f p = (f.root ≡ p.root) × (rest : List Text) × (f.parts ≡ p.parts ++ rest)

-- No path lies in both trees.
abbrev pub AreDisjoint : PurePath → PurePath → Type 0
AreDisjoint p q = (f : PurePath) → ¬ (IsBelow f p × IsBelow f q)

-- A tree that is backed up.
pub record IsSource (places : Places) (repository p : PurePath) : Type 0 where
  pub apart : AreDisjoint p repository
  pub foreign : AreDisjoint p places.staging_root
  pub not_recovered : ¬ IsBelow p places.recovery_root
  pub not_all : ¬ (◌≡◌ {A = PurePath} p (record { root = one_slash; parts = [] }))
  pub no_kernel :
      All
        (λ name. AreDisjoint p (top name))
        (codes "proc" ∷ codes "sys" ∷ codes "dev" ∷ codes "run" ∷ [])

comparable :
    (xs ys r s : List Text) → xs ++ r ≡ ys ++ s → (are_prefix xs ys || are_prefix ys xs) ≡ true
unfolding are_prefix
comparable [] ys r s h = refl
comparable (x ∷ xs) [] r s h = refl
comparable (x ∷ xs) (y ∷ ys) r s h =
    let (e, t) = heads x y (xs ++ r) (ys ++ s) h in
    rw (e, same_text_refl y) (comparable xs ys r s t)
  where
    heads : (x y : Text) (u v : List Text) → x ∷ u ≡ y ∷ v → (x ≡ y) × (u ≡ v)
    heads x y u v h = (cc, cc)

prefix-append : (xs r : List Text) → are_prefix xs (xs ++ r) ≡ true
unfolding are_prefix
prefix-append [] r = refl
prefix-append (x ∷ xs) r = rw (same_text_refl x) (prefix-append xs r)

same_root_refl : (r : Root) → same_root r r ≡ true
same_root_refl r = ground arith

IsBelow-relative : (f p : PurePath) → IsBelow f p → is_relative_to f p ≡ true
IsBelow-relative f p (e, rest, h) = rw (e, h, same_root_refl p.root) (prefix-append p.parts rest)

AreDisjoint-of : (p q : PurePath) → overlaps q p ≡ false → AreDisjoint p q
AreDisjoint-of p q n f ((e, r, h), (d, s, k)) =
    let o : (are_prefix p.parts q.parts || are_prefix q.parts p.parts) ≡ true =
      comparable p.parts q.parts r s (sym h ∙ k) in
    let t : p.root ≡ q.root = sym e ∙ d in
    no (are_prefix p.parts q.parts) (are_prefix q.parts p.parts)
      (rw (t, same_root_refl q.root) at n) o
  where
    no : (x y : Bool) → (x || y) ≡ false → (x || y) ≡ true → ⊥
    no x y g h = cc

-- A tree of the kernel is disjoint from a path that is neither the root nor in it.
AreDisjoint-top :
    (name : Text) (p : PurePath)
    → same_path p root_only ≡ false
    → is_relative_to p (top name) ≡ false
    → AreDisjoint p (top name)
unfolding are_prefix
AreDisjoint-top name p m n f ((e, r, h), (d, s, k)) = at p.root p.parts m n (sym e ∙ d) (sym h ∙ k)
  where
    at :
        (root : Root) (parts : List Text)
        → same_path (record { root = root; parts = parts }) root_only ≡ false
        → is_relative_to (record { root = root; parts = parts }) (top name) ≡ false
        → root ≡ one_slash
        → parts ++ r ≡ name ∷ s
        → ⊥
    at one_slash [] g i e h = cc
    at one_slash (x ∷ xs) g i e h =
        let q : x ≡ name = cc in
        let j : (same_text name name && true) ≡ false = rw q at i in
        let l = rw (same_text_refl name) at j in cc
    at relative xs g i e h = cc
    at two_slashes xs g i e h = cc

abbrev IsPlain : PurePath → Type 0
IsPlain p = (is_absolute p ≡ true) × (goes_up p ≡ false)

-- The repository lies in none of the program's directories and in no source, nor one of them in it,
-- and the password does not lie in the repository.
pub record IsApart (places : Places) (c : Config) : Type 0 where
  pub plain : IsPlain c.repository
  pub plain_password : IsPlain c.password_file
  pub plain_sources : All IsPlain c.includes
  pub plain_restores : All IsPlain c.restores
  pub password : ¬ IsBelow c.password_file c.repository
  pub separate : All (λ r. AreDisjoint r c.repository) (own_roots places)
  pub sources : All (IsSource places c.repository) c.includes

absolute-IsPlain : (j : Json) (p : PurePath) → absolute j ≡ ok p → IsPlain p
unfolding absolute
absolute-IsPlain (text t) p h =
    let (_, h1) = demand-ok (not (is_empty t || any is_control t)) bad_path _ p h in
    let (a, h2) =
      demand-ok (is_absolute (path_of t) && not (goes_up (path_of t))) relative_path
        (ok (path_of t)) p h1 in
    subst IsPlain (ok_eq (path_of t) p h2) (both (is_absolute (path_of t)) (goes_up (path_of t)) a)
  where
    both : (x y : Bool) → (x && not y) ≡ true → (x ≡ true) × (y ≡ false)
    both true false h = (refl, refl)
    both true true h = cc
    both false y h = cc
absolute-IsPlain _ p h = cc

location-IsPlain :
    (places : Places) (j : Json) (p : PurePath) → location places j ≡ ok p → IsPlain p
location-IsPlain places j p h =
    let (q, e, g) = bind-ok (absolute j) _ p h in
    found q (absolute-IsPlain j q e) (components places q) g
  where
    found :
        (q : PurePath)
        → IsPlain q
        → (r : Result BackupError (Unit {0})) → (r >> ok q) ≡ ok p
        → IsPlain p
    found q k (ok u) g = subst IsPlain (ok_eq q p g) k
    found q k (err x) g = cc

absolutes-IsPlain : (js : List Json) (ps : List PurePath) → absolutes js ≡ ok ps → All IsPlain ps
unfolding absolutes
absolutes-IsPlain [] ps h = subst (All IsPlain) (ok_eq [] ps h) tt
absolutes-IsPlain (j ∷ js) ps h =
    let (p, e, g) = bind-ok (absolute j) _ ps h in
    let (qs, d, k) = bind-ok (absolutes js) _ ps g in
    subst (All IsPlain) (ok_eq (p ∷ qs) ps k) (absolute-IsPlain j p e, absolutes-IsPlain js qs d)

none_of :
    {A : Type 0} (f : A → Bool) (xs : List A) → not (any f xs) ≡ true → All (λ x. f x ≡ false) xs
unfolding any
none_of f [] h = tt
none_of f (x ∷ xs) h = (ground (arith, h), none_of f xs (ground (arith, h)))

off : (b : Bool) → not b ≡ true → b ≡ false
off b h = ground (arith, h)

clash : (b : Bool) → b ≡ false → b ≡ true → ⊥
clash b h g = cc

source :
    (places : Places) (repository p : PurePath)
    → overlaps repository p ≡ false
    → is_forbidden p ≡ false
    → is_own places p ≡ false
    → IsSource places repository p
unfolding any are_prefix
source places repository p a b c =
    let (b0, b1, b2, b3, b4) =
      none5 (same_path p root_only) (is_relative_to p (top (codes "proc")))
        (is_relative_to p (top (codes "sys"))) (is_relative_to p (top (codes "dev")))
        (is_relative_to p (top (codes "run"))) b in
    let (c0, c1) =
      none2 (overlaps p places.staging_root) (is_relative_to p places.recovery_root) c in
    record {
      apart = AreDisjoint-of p repository a;
      foreign = AreDisjoint-of p places.staging_root (
          swapped (is_relative_to p places.staging_root) (is_relative_to places.staging_root p) c0);
      not_recovered =
          λ h. clash (is_relative_to p places.recovery_root) c1 (IsBelow-relative p _ h);
      not_all = λ h. clash (same_path p root_only) b0 (rw h refl);
      no_kernel = (
        AreDisjoint-top (codes "proc") p b0 b1,
        (
          AreDisjoint-top (codes "sys") p b0 b2,
          (AreDisjoint-top (codes "dev") p b0 b3, (AreDisjoint-top (codes "run") p b0 b4, tt)),
        ),
      );
    }
  where
    none2 : (x y : Bool) → (x || y) ≡ false → (x ≡ false) × (y ≡ false)
    none2 x y h = (ground (arith, h), ground (arith, h))

    swapped : (x y : Bool) → (x || y) ≡ false → (y || x) ≡ false
    swapped x y h = ground (arith, h)

    none5 :
        (v w x y z : Bool)
        → (v || (w || (x || (y || (z || false))))) ≡ false
        → (v ≡ false) × (w ≡ false) × (x ≡ false) × (y ≡ false) × (z ≡ false)
    none5 v w x y z h = (
      ground (arith, h),
      ground (arith, h),
      ground (arith, h),
      ground (arith, h),
      ground (arith, h),
    )

includes-IsSource :
    (places : Places) (repository : PurePath) (ps : List PurePath) (u : Unit {0})
    → check_includes places repository ps ≡ ok u
    → All (IsSource places repository) ps
unfolding check_includes
includes-IsSource places repository [] u h = tt
includes-IsSource places repository (p ∷ ps) u h =
    checked (check_include places repository p) refl (includes-IsSource places repository ps u) h
  where
    checked :
        (r : Result BackupError (Unit {0}))
        → check_include places repository p ≡ r
        → (check_includes places repository ps ≡ ok u → All (IsSource places repository) ps)
        → (r >> check_includes places repository ps) ≡ ok u
        → All (IsSource places repository) (p ∷ ps)
    checked (err x) e k g = cc
    checked (ok v) e k g =
        let (a, h1) = demand-ok (not (is_forbidden p)) forbidden_tree _ v e in
        let (b, h2) = demand-ok (not (overlaps repository p)) repository_inside _ v h1 in
        let (c, _) = demand-ok (not (is_own places p)) staging_inside _ v h2 in
        (
          source places repository p (off (overlaps repository p) b) (off (is_forbidden p) a)
              (off (is_own places p) c),
          k g,
        )

-- In a configuration that `validate_config` accepts, no path lies in the repository and in one of the
-- program's own directories; for each tree that is backed up, no path lies in it and in the
-- repository, in the staging directory, or in /proc, /sys, /dev or /run, and the tree is neither the
-- root of the file system nor in the recovery directory; the password does not lie in the repository;
-- and every path is absolute and goes nowhere up. This reads paths as pathlib does, without links,
-- where two leading slashes are a root of their own.
pub validate_config_lem :
    (places : Places) (value : Json) (c : Config)
    → validate_config places value ≡ ok c
    → IsApart places c
unfolding validate_config
validate_config_lem places (object ms) c h0 =
    let d = members ms in
    let (_, h1) =
      demand-ok (has_keys config_keys d && is_one (lookup (codes "schema_version") d)) unsupported _
        c h0 in
    let (includes, _, h2) = bind-ok (list_at (lookup (codes "includes") d)) _ c h1 in
    let (restores, _, h3) = bind-ok (list_at (lookup (codes "restores") d)) _ c h2 in
    let (r, _, h4) = bind-ok (value_at (lookup (codes "repository") d)) _ c h3 in
    let (repository, e1, h5) = bind-ok (location places r) _ c h4 in
    let (w, _, h6) = bind-ok (value_at (lookup (codes "password_file") d)) _ c h5 in
    let (password_file, e2, h7) = bind-ok (location places w) _ c h6 in
    let (included, e3, h8) = bind-ok (absolutes includes) _ c h7 in
    let (restored, e4, h9) = bind-ok (absolutes restores) _ c h8 in
    let (e5, h10) =
      demand-ok (not (is_relative_to password_file repository)) password_inside _ c h9 in
    let (e6, h11) =
      demand-ok (not (any (overlaps repository) (own_roots places))) not_separate _ c h10 in
    all_checked repository password_file included restored (location-IsPlain places r repository e1)
      (location-IsPlain places w password_file e2) (absolutes-IsPlain includes included e3)
      (absolutes-IsPlain restores restored e4) e5 e6 (check_includes places repository included)
      refl h11
  where
    all_checked :
        (repository password_file : PurePath) (included restored : List PurePath)
        → IsPlain repository
        → IsPlain password_file
        → All IsPlain included
        → All IsPlain restored
        → not (is_relative_to password_file repository) ≡ true
        → not (any (overlaps repository) (own_roots places)) ≡ true
        → (x : Result BackupError (Unit {0})) → check_includes places repository included ≡ x
        → (x
            >> ok (record {
              repository = repository;
              password_file = password_file;
              includes = included;
              restores = restored;
            }))
          ≡ ok c
        → IsApart places c
    all_checked repository password_file included restored p q s t a b (err x) e g = cc
    all_checked repository password_file included restored p q s t a b (ok u) e g =
        subst (IsApart places)
          (ok_eq
            (record {
              repository = repository;
              password_file = password_file;
              includes = included;
              restores = restored;
            })
            c g)
          (record {
            plain = p;
            plain_password = q;
            plain_sources = s;
            plain_restores = t;
            password = λ h.
                clash (is_relative_to password_file repository)
                  (off (is_relative_to password_file repository) a)
                  (IsBelow-relative password_file repository h);
            separate =
                All-map _ _ (own_roots places) (λ r n. AreDisjoint-of r repository n)
                  (none_of (overlaps repository) (own_roots places) b);
            sources = includes-IsSource places repository included u e;
          })
validate_config_lem places _ c h = cc
