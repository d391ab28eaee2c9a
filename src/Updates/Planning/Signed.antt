-- ===== src/Updates/Planning/Signed.antt =====
-- What a package must be to stand in a plan of rootfs/usr/lib/rougarou/updates.py.
use mathlib.Core.List.{Perm}
use rougarou_os.Updates.Planning.Sorted.{
  AreInOrder, names, sort_changes-AreInOrder, sort_changes-perm,
}
use rougarou_os.Base.{
  sym, ◌≡◌, refl, ◌∙◌, ap, true, false, not, Option, none, some, List, [], ◌∷◌, map, codes, Result,
  ok, err, Text, same_text, is_empty, all, All, arith,
}
use rougarou_os.Base.Dicts.{Table, value_at}
use mathlib.Core.Path.{subst}
use rougarou_os.Base.Lines.{strip}
use rougarou_os.Base.Results.{bind-ok, demand-ok}
use rougarou_os.Updates.Operations.{UpdateError, operations}
use rougarou_os.Updates.Apply.{Package, Row, Inventory, row_of}
use rougarou_os.Updates.Planning.{
  PlanError, incomplete_transaction, held, conflicting_bytes, bad_bytes, unsafe_filename,
  no_architecture, bad_size, apt_failed, Sources, is_installed, check_old, or_raise, same_identity,
  text_of, is_safe_filename, has_signed_bytes, from_records, plan_package, plan_packages,
  sort_changes, read_changes, plan,
}

ok_eq : {A : Type 0} (a b : A) → ◌≡◌ {A = Result PlanError A} (ok a) (ok b) → a ≡ b
ok_eq a b h = cc

-- The old package is not one that is held, and the new version is newer.
abbrev pub MayReplace : Sources → Text → Option Row → Type 0
MayReplace s version none = Unit
MayReplace s version (some old) =
    is_installed old ≡ true
    → (same_text old.want (codes "hold") ≡ false) × (s.is_newer version old.version ≡ true)

-- The bytes of the package are those of a verified record, with which every other record of the
-- version agrees.
pub record IsSigned (s : Sources) (before : Inventory) (p : Package) : Type 0 where
  pub first : Table
  pub others : List Table
  pub recorded : s.records p.name p.version ≡ first ∷ others
  pub agree : all (same_identity first) others ≡ true
  pub bytes : p.sha256 ≡ text_of (codes "SHA256") first
  pub signed : has_signed_bytes s first ≡ true
  pub architecture : value_at (codes "Architecture") first ≡ some p.architecture
  pub size : s.digits.int_of (text_of (codes "Size") first) ≡ some p.size
  pub safe : is_safe_filename (text_of (codes "Filename") first) ≡ true
  pub may_replace : MayReplace s p.version (row_of p.name before)

or_raise-ok : {A : Type 0} (e : PlanError) (o : Option A) (a : A) → or_raise e o ≡ ok a → o ≡ some a
or_raise-ok e none a h = cc
or_raise-ok e (some b) a h = cc

check_old-MayReplace :
    (s : Sources) (version : Text) (o : Option Row) (old : Option Text)
    → check_old s version o ≡ ok old
    → MayReplace s version o
check_old-MayReplace s version none old h = tt
check_old-MayReplace s version (some r) old h = λ on.
    let (a, g) = demand-ok (not (same_text r.want (codes "hold"))) held _ old (rw on at h) in
    let (b, _) = demand-ok (s.is_newer version r.version) apt_failed _ old g in
    (ground (arith, a), b)

-- The package is of the name and the version that it was planned for.
abbrev IsFor : Sources → Inventory → Text → Text → Package → Type 0
IsFor s before name version p = ((p.name ≡ name) × (p.version ≡ version)) × IsSigned s before p

records-IsFor :
    (s : Sources) (before : Inventory) (name version : Text) (old : Option Text) (rs : List Table)
    (p : Package)
    → s.records name version ≡ rs
    → MayReplace s version (row_of name before)
    → from_records s name version old rs ≡ ok p
    → IsFor s before name version p
records-IsFor s before name version old [] p e m h = cc
records-IsFor s before name version old (r ∷ rs) p e m h =
    let (agree, h1) = demand-ok (all (same_identity r) rs) conflicting_bytes _ p h in
    let (bytes, h2) = demand-ok (has_signed_bytes s r) bad_bytes _ p h1 in
    let (safe, h3) =
      demand-ok (is_safe_filename (text_of (codes "Filename") r)) unsafe_filename _ p h2 in
    let (architecture, a, h4) =
      bind-ok (or_raise no_architecture (value_at (codes "Architecture") r)) _ p h3 in
    let (size, b, h5) =
      bind-ok (or_raise bad_size (s.digits.int_of (text_of (codes "Size") r))) _ p h4 in
    subst (IsFor s before name version) (ok_eq _ p h5) (
      (refl, refl),
      record {
        first = r;
        others = rs;
        recorded = e;
        agree = agree;
        bytes = refl;
        signed = bytes;
        architecture =
            or_raise-ok no_architecture (value_at (codes "Architecture") r) architecture a;
        size = or_raise-ok bad_size (s.digits.int_of (text_of (codes "Size") r)) size b;
        safe = safe;
        may_replace = m;
      },
    )

abbrev ForChanges : Sources → Inventory → Table → List Package → Type 0
ForChanges s before changes ps =
    (map (λ p. (p.name, p.version)) ps ≡ changes) × All (IsSigned s before) ps

packages-ForChanges :
    (s : Sources) (before : Inventory) (changes : Table) (ps : List Package)
    → plan_packages s before changes ≡ ok ps
    → ForChanges s before changes ps
unfolding plan_packages
packages-ForChanges s before [] ps h = subst (ForChanges s before []) (ok_eq [] ps h) (refl, tt)
packages-ForChanges s before ((name, version) ∷ changes) ps h =
    let (p, e, g) = bind-ok (plan_package s before (name, version)) _ ps h in
    let (qs, d, k) = bind-ok (plan_packages s before changes) _ ps g in
    let (old, c, f) = bind-ok (check_old s version (row_of name before)) _ p e in
    let ((n, v), signed) =
      records-IsFor s before name version old (s.records name version) p refl
        (check_old-MayReplace s version (row_of name before) old c) f in
    let (names, rest) = packages-ForChanges s before changes qs d in
    subst (ForChanges s before ((name, version) ∷ changes)) (ok_eq (p ∷ qs) ps k) (
      ap (λ z. (z, p.version) ∷ map (λ q. (q.name, q.version)) qs) n
          ∙ ap (λ z. (name, z) ∷ map (λ q. (q.name, q.version)) qs) v
          ∙ ap (λ z. (name, version) ∷ z) names,
      (signed, rest),
    )

abbrev pub versions : List Package → Table
versions ps = map (λ p. (p.name, p.version)) ps

-- The packages of a plan are those that APT's simulation names, each as often as it does and in the
-- version that it names, in the order of their names. Of each there is a verified record of its bytes, with which all others
-- of that version agree, whose hash is one, whose file name is relative and leads nowhere up; and none
-- replaces a held package or a version that is as new.
pub plan_lem :
    (s : Sources) (audited : Result PlanError Text) (inventory : Result PlanError Inventory)
    (simulated : Result PlanError Text) (ps : List Package)
    → plan s audited inventory simulated ≡ ok ps
    → (before : Inventory) × (output : Text) × (changes : Table) × (inventory ≡ ok before)
      × (simulated ≡ ok output)
      × (operations output ≡ ok changes)
      × Perm (versions ps) changes
      × AreInOrder (names (versions ps))
      × All (IsSigned s before) ps
unfolding plan
plan_lem s audited inventory simulated ps h0 =
    let (audit, _, h1) = bind-ok audited _ ps h0 in
    let (_, h2) = demand-ok (is_empty (strip audit)) incomplete_transaction _ ps h1 in
    let (before, a, h3) = bind-ok inventory _ ps h2 in
    let (output, b, h4) = bind-ok simulated _ ps h3 in
    let (changes, c, h5) = bind-ok (read_changes (operations output)) _ ps h4 in
    let (names_eq, signed) = packages-ForChanges s before (sort_changes changes) ps h5 in
    (
      before,
      output,
      changes,
      a,
      b,
      read (operations output) changes c,
      subst (λ z. Perm z changes) (sym names_eq) (sort_changes-perm changes),
      subst (λ z. AreInOrder (names z)) (sym names_eq) (sort_changes-AreInOrder changes),
      signed,
    )
  where
    read : (r : Result UpdateError Table) (t : Table) → read_changes r ≡ ok t → r ≡ ok t
    read (ok u) t h = let d : u ≡ t = ok_eq u t h in ap (λ z. ok z) d
    read (err e) t h = cc
