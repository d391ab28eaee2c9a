-- ===== src/Updates/Planning/Tests.antt =====
-- A plan of rootfs/usr/lib/rougarou/updates.py, and the theorem about it.
use mathlib.Core.List.{Perm}
use rougarou_os.Updates.Planning.Sorted.{AreInOrder, names}
use rougarou_os.Base.{
  ◌≡◌, refl, true, Option, none, some, List, [], ◌∷◌, ◌++◌, Result, ok, err, Text, codes, all,
  begins, same_text, has_text, split_on, leb, All,
}
use rougarou_os.Base.Dicts.{Table, span, value_at}
use rougarou_os.Base.Lines.{split_lines, words, strip}
use rougarou_os.Updates.Operations.{after_prefix, inst_match, read_lines, operations}
use rougarou_os.Updates.Apply.{Package, Inventory, row_of, text_before}
use rougarou_os.Updates.Planning.{
  PlanError, held, Sources, plan_packages, insert_change, sort_changes, plan,
}
use rougarou_os.Updates.Planning.Signed.{versions, IsSigned, plan_lem}

abbrev eight : Text
eight = codes "0123abcd"

abbrev hash : Text
hash = (eight ++ eight ++ eight ++ eight) ++ eight ++ eight ++ eight ++ eight

abbrev sources : Sources
sources = record {
  records = λ n v.
      ((codes "SHA256", hash)
        ∷ (codes "Size", codes "7")
        ∷ (codes "Architecture", codes "amd64")
        ∷ (codes "Filename", codes "pool/b.deb")
        ∷ [])
      ∷ [];
  is_newer = λ s t. true;
  digits = record { is_digit = λ c. leb 48 c; int_of = λ t. some 7 };
}

abbrev before : Text → Inventory
before want =
    (
      codes "bash",
      record {
        version = codes "5.1";
        architecture = codes "amd64";
        status = codes "installed";
        want = want;
      },
    )
    ∷ []

abbrev package_of : Text → Option Text → Text → Package
package_of name old version = record {
  name = name;
  old_version = old;
  version = version;
  architecture = codes "amd64";
  sha256 = hash;
  size = 7;
}

abbrev output : Text
output = codes "Inst zsh (5.9 x)\nInst bash [5.1] (5.2 x)\n"

planned : Text → Result PlanError (List Package)
unfolding plan plan_packages sort_changes insert_change row_of text_before operations read_lines
    inst_match span after_prefix value_at split_lines words strip all begins same_text has_text
    split_on
planned want = plan sources (ok []) (ok (before want)) (ok output)

abbrev packages : List Package
packages =
    package_of (codes "bash") (some (codes "5.1")) (codes "5.2")
    ∷ package_of (codes "zsh") none (codes "5.9")
    ∷ []

planned_lem : (planned (codes "install") ≡ ok packages) × (planned (codes "hold") ≡ err held)
unfolding planned
planned_lem = (refl, refl)

plan_lem_example :
    (was : Inventory) × (printed : Text) × (changes : Table) × (◌≡◌ {A = Result PlanError Inventory}
      (ok (before (codes "install")))
      (ok was))
    × (◌≡◌ {A = Result PlanError Text} (ok output) (ok printed))
    × (operations printed ≡ ok changes)
    × Perm (versions packages) changes
    × AreInOrder (names (versions packages))
    × All (IsSigned sources was) packages
unfolding planned
plan_lem_example =
    plan_lem sources (ok []) (ok (before (codes "install"))) (ok output) packages planned_lem.0
