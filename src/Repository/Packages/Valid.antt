-- ===== src/Repository/Packages/Valid.antt =====
-- What `validate_packages` of scripts/repo.py lets pass.
use mathlib.Core.Path.{subst}
use rougarou_os.Base.{
  ℤ, pos, negsuc, ◌≡◌, refl, ap, ◌∙◌, Bool, true, false, not, ◌&&◌, ◌||◌, Option, none, some, List,
  [], ◌∷◌, length, arith, Result, ok, Text, codes, same_text→eq, has_code, is_empty, all, any,
  PurePath, path_of, is_absolute, goes_up, name,
}
use rougarou_os.Base.Dicts.{Table}
use rougarou_os.Base.Results.{demand, bind-ok, demand-ok, then-ok}
use rougarou_os.Repository.Packages.{
  RepositoryError, unsafe_path, path_escapes, missing_deb, invalid_hash, size_mismatch,
  hash_mismatch, duplicate_version, not_a_number, Bytes, Node, Reads, given, file, read_records,
  is_length, same_size, is_deb, package_path, Package, package_of, same_version, check_file,
  check_entries, validate_packages,
}
use rougarou_os.Updates.Release.{is_sha256}

pub given-ok :
    {A : Type 0} (e : RepositoryError) (o : Option A) (a : A) → given e o ≡ ok a → o ≡ some a
given-ok e none a h = cc
given-ok e (some b) a h = let d : b ≡ a = cc in cc

pub ok_eq : {E A : Type 0} (a b : A) → ◌≡◌ {A = Result E A} (ok a) (ok b) → a ≡ b
ok_eq a b h = cc

-- A check that is the last one.
pub demand_last : {E : Type 0} (b : Bool) (e : E) (u : Unit {0}) → demand b e ≡ ok u → b ≡ true
demand_last true e u h = refl
demand_last false e u h = cc

is_length-eq : (z : ℤ) (bytes : Bytes) → is_length z bytes ≡ true → z ≡ pos (length bytes)
is_length-eq (pos n) bytes h = let e : length bytes ≡ n = ground arith in cc
is_length-eq (negsuc n) bytes h = cc

pub same_size-eq :
    (reads : Reads) (size : Text) (bytes : Bytes)
    → same_size reads size bytes ≡ ok true
    → reads.int_of size ≡ some (pos (length bytes))
unfolding same_size
same_size-eq reads size bytes h =
    let (z, e, g) = bind-ok (given not_a_number (reads.int_of size)) _ true h in
    given-ok not_a_number (reads.int_of size) z e
    ∙ ap some (is_length-eq z bytes (ok_eq (is_length z bytes) true g))

-- A path below the folder: no link, with a Debian package's suffix, and a file of these bytes.
pub record IsDeb (node_at : PurePath → Node) (t : Text) (bytes : Bytes) : Type 0 where
  pub relative : is_absolute (path_of t) ≡ false
  pub down : goes_up (path_of t) ≡ false
  pub inside : (node_at (path_of t)).is_inside ≡ true
  pub no_link : (node_at (path_of t)).is_symlink ≡ false
  pub deb : is_deb (name (path_of t)) ≡ true
  pub content : (node_at (path_of t)).content ≡ some bytes

pub package_path-IsDeb :
    (node_at : PurePath → Node) (t : Text) (r : PurePath × Bytes)
    → package_path node_at t ≡ ok r
    → (r.0 ≡ path_of t) × IsDeb node_at t r.1
unfolding package_path
package_path-IsDeb node_at t r h =
    let q : PurePath = path_of t in
    let node : Node = node_at q in
    let (e1, h1) =
      demand-ok (not (is_absolute q || goes_up q || has_code 92 t)) unsafe_path _ r h in
    let (e2, h2) = demand-ok (node.is_inside && not node.is_symlink) path_escapes _ r h1 in
    let (e3, h3) = demand-ok (is_deb (name q)) missing_deb _ r h2 in
    let (bytes, e4, h4) = bind-ok (given missing_deb node.content) _ r h3 in
    subst (λ z. (z.0 ≡ q) × IsDeb node_at t z.1) (ok_eq (q, bytes) r h4)
      (
        refl,
        record {
          relative = outer (is_absolute q) (goes_up q) (has_code 92 t) e1;
          down = inner (is_absolute q) (goes_up q) (has_code 92 t) e1;
          inside = ground (arith, e2);
          no_link = ground (arith, e2);
          deb = e3;
          content = given-ok missing_deb node.content bytes e4;
        },
      )
  where
    outer : (a b c : Bool) → not (a || b || c) ≡ true → a ≡ false
    outer a b c h = ground arith

    inner : (a b c : Bool) → not (a || b || c) ≡ true → b ≡ false
    inner a b c h = ground arith

-- A package's file, of the size and the hash that its entry says.
pub record IsFile (reads : Reads) (node_at : PurePath → Node) (p : Package) : Type 0 where
  pub bytes : Bytes
  pub found : IsDeb node_at p.filename bytes
  pub sized : reads.int_of p.size ≡ some (pos (length bytes))
  pub hashed : reads.sha256 bytes ≡ p.hash

check_file-IsFile :
    (reads : Reads) (node_at : PurePath → Node) (p : Package) (u : Unit {0})
    → check_file reads node_at p ≡ ok u
    → IsFile reads node_at p
unfolding check_file
check_file-IsFile reads node_at p u h =
    let ((path, bytes), e, h1) = bind-ok (package_path node_at p.filename) _ u h in
    let (e1, h2) = demand-ok (is_sha256 p.hash) invalid_hash _ u h1 in
    let (e2, h3) =
      demand-ok (not (is_empty p.size) && all reads.is_digit p.size) size_mismatch _ u h2 in
    let (sized, e3, h4) = bind-ok (same_size reads p.size bytes) _ u h3 in
    let (e4, h5) = demand-ok sized size_mismatch _ u h4 in
    record {
      bytes = bytes;
      found = (package_path-IsDeb node_at p.filename (path, bytes) e).1;
      sized = same_size-eq reads p.size bytes (e3 ∙ ap ok e4);
      hashed = same_text→eq (reads.sha256 bytes) p.hash (demand_last _ hash_mismatch u h5);
    }

-- Every entry is a package with its file, and none is of an earlier one's name, version and
-- architecture.
abbrev pub ArePackages : Reads → (PurePath → Node) → List Package → List Table → Type 0
ArePackages reads node_at seen [] = Unit
ArePackages reads node_at seen (entry ∷ entries) =
    (p : Package) × (package_of entry ≡ ok p)
    × (any (same_version p) seen ≡ false)
    × IsFile reads node_at p
    × ArePackages reads node_at (p ∷ seen) entries

check_entries-ArePackages :
    (reads : Reads) (node_at : PurePath → Node) (seen : List Package) (entries : List Table)
    (u : Unit {0})
    → check_entries reads node_at seen entries ≡ ok u
    → ArePackages reads node_at seen entries
unfolding check_entries
check_entries-ArePackages reads node_at seen [] u h = tt
check_entries-ArePackages reads node_at seen (entry ∷ entries) u h =
    let (p, e1, h1) = bind-ok (package_of entry) _ u h in
    let (e2, h2) = demand-ok (not (any (same_version p) seen)) duplicate_version _ u h1 in
    let (e3, h3) = then-ok (check_file reads node_at p) _ u h2 in
    (
      p,
      e1,
      ground (arith, e2),
      check_file-IsFile reads node_at p tt e3,
      check_entries-ArePackages reads node_at (p ∷ seen) entries u h3,
    )

-- The entries that `validate_packages` returns are those of the folder's Packages file; each names a
-- package of another name, version or architecture than those before it, and a regular file below
-- the folder that has the size and the hash the entry says.
pub validate_packages_lem :
    (reads : Reads) (node_at : PurePath → Node) (entries : List Table)
    → validate_packages reads node_at ≡ ok entries
    → (read_records reads (file (codes "Packages") node_at) ≡ ok entries)
      × ArePackages reads node_at [] entries
unfolding validate_packages
validate_packages_lem reads node_at entries h =
    let (es, e1, h1) = bind-ok (read_records reads (file (codes "Packages") node_at)) _ entries h in
    let (e2, h2) = then-ok (check_entries reads node_at [] es) _ entries h1 in
    let q : es ≡ entries = ok_eq es entries h2 in
    subst
      (λ z.
        (read_records reads (file (codes "Packages") node_at) ≡ ok z)
        × ArePackages reads node_at [] z)
      q (e1, check_entries-ArePackages reads node_at [] es tt e2)
