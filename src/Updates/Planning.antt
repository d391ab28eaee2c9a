-- ===== src/Updates/Planning.antt =====
-- `Updates.plan` of rootfs/usr/lib/rougarou/updates.py, from APT's answer to a plan of packages.
pub mod Sorted
pub mod Signed
mod Tests
use rougarou_os.Base.{
  ℕ, ◌+◌, Bool, true, false, not, ◌&&◌, ◌||◌, Option, none, some, List, [], ◌∷◌, ◌==◌, leb, codes,
  Result, ok, err, Text, same_text, has_text, begins, is_empty, all, any, split_on, if◌then◌else◌,
}
use rougarou_os.Base.Dicts.{Table, value_at}
use rougarou_os.Base.Lines.{strip}
use rougarou_os.Base.Results.{◌>>=◌, ◌>>◌, demand}
use rougarou_os.Updates.Operations.{UpdateError, operations}
use rougarou_os.Updates.Apply.{Package, Plan, Row, Inventory, row_of, text_before}
use rougarou_os.Updates.Release.{Digits, is_sha256, are_digits}

pub data PlanError : Type 0 where
  incomplete_transaction held no_record conflicting_bytes bad_bytes unsafe_filename
        no_architecture :
      PlanError
  bad_size apt_failed : PlanError
  other_error : UpdateError → PlanError

-- What stands outside: the records of the verified indexes for a package and a version, `dpkg
-- --compare-versions`, and Python's reading of digits.
pub record Sources : Type 0 where
  pub records : Text → Text → List Table
  pub is_newer : Text → Text → Bool
  pub digits : Digits

abbrev pub is_installed : Row → Bool
is_installed r = same_text r.status (codes "installed")

abbrev pub check_old : Sources → Text → Option Row → Result PlanError (Option Text)
check_old s version none = ok none
check_old s version (some old) =
    if is_installed old
    then (do
      demand (not (same_text old.want (codes "hold"))) held
      demand (s.is_newer version old.version) apt_failed
      ok (some old.version))
    else ok none

abbrev same_option : Option Text → Option Text → Bool
same_option none none = true
same_option (some s) (some t) = same_text s t
same_option _ _ = false

abbrev same_at : Text → Table → Table → Bool
same_at key a b = same_option (value_at key a) (value_at key b)

abbrev pub same_identity : Table → Table → Bool
same_identity a b =
    same_at (codes "SHA256") a b && same_at (codes "Size") a b && same_at (codes "Architecture") a b

-- `record.get(key, '')`
abbrev pub text_of : Text → Table → Text
text_of key t = elim (value_at key t) [ none ↦ [] | some v ↦ v ]

abbrev is_filename_code : ℕ → Bool
is_filename_code c =
    (leb 97 c && leb c 122)
    || (leb 65 c && leb c 90)
    || (leb 45 c && leb c 58)
    || (c == 95)
    || (c == 43)
    || (c == 37)
    || (c == 126)

abbrev pub is_safe_filename : Text → Bool
is_safe_filename t =
    not (is_empty t)
    && all is_filename_code t
    && not (begins (codes "/") t)
    && not (has_text (codes "..") (split_on 47 t))

abbrev pub has_signed_bytes : Sources → Table → Bool
has_signed_bytes s r =
    is_sha256 (text_of (codes "SHA256") r) && are_digits s.digits (text_of (codes "Size") r)

abbrev pub or_raise : {A : Type 0} → PlanError → Option A → Result PlanError A
or_raise e none = err e
or_raise e (some a) = ok a

abbrev pub from_record : Sources → Text → Text → Option Text → Table → Result PlanError Package
from_record s name version old r = do
  demand (has_signed_bytes s r) bad_bytes
  demand (is_safe_filename (text_of (codes "Filename") r)) unsafe_filename
  architecture ← or_raise no_architecture (value_at (codes "Architecture") r)
  size ← or_raise bad_size (s.digits.int_of (text_of (codes "Size") r))
  ok (record {
    name = name;
    old_version = old;
    version = version;
    architecture = architecture;
    sha256 = text_of (codes "SHA256") r;
    size = size;
  })

abbrev pub from_records :
    Sources → Text → Text → Option Text → List Table → Result PlanError Package
from_records s name version old [] = err no_record
from_records s name version old (r ∷ rs) = do
  demand (all (same_identity r) rs) conflicting_bytes
  from_record s name version old r

abbrev pub plan_package : Sources → Inventory → Text × Text → Result PlanError Package
plan_package s before (name, version) = do
  old ← check_old s version (row_of name before)
  from_records s name version old (s.records name version)

unfoldable pub plan_packages : Sources → Inventory → Table → Result PlanError (List Package)
plan_packages s before [] = ok []
plan_packages s before (change ∷ changes) = do
  p ← plan_package s before change
  ps ← plan_packages s before changes
  ok (p ∷ ps)

-- `sorted(changes.items())`, by the names, which are different
unfoldable pub insert_change : Text × Text → Table → Table
insert_change c [] = c ∷ []
insert_change c (d ∷ ds) =
    let rest = insert_change c ds in if text_before c.0 d.0 then c ∷ d ∷ ds else d ∷ rest

unfoldable pub sort_changes : Table → Table
unfolding insert_change
sort_changes [] = []
sort_changes (c ∷ cs) = insert_change c (sort_changes cs)

abbrev pub read_changes : Result UpdateError Table → Result PlanError Table
read_changes (ok t) = ok t
read_changes (err e) = err (other_error e)

-- The packages of the plan, from what `dpkg --audit`, `dpkg-query` and `apt-get --simulate` print.
unfoldable pub plan :
    Sources
    → Result PlanError Text
    → Result PlanError Inventory
    → Result PlanError Text
    → Result PlanError (List Package)
plan s audited inventory simulated = do
  audit ← audited
  demand (is_empty (strip audit)) incomplete_transaction
  before ← inventory
  output ← simulated
  changes ← read_changes (operations output)
  plan_packages s before (sort_changes changes)
