-- ===== src/Repository/Gate/Tested.antt =====
-- What has been found when `promote` of scripts/repo.py begins to write.
use rougarou_os.Base.{◌≡◌, true, Option, some, codes, ok, Text, List, [], ◌∷◌, ◌≢◌, All}
use rougarou_os.Base.Json.{Json, array, text, Dict, Elements, lookup, elements}
use rougarou_os.Base.Lines.{strip}
use rougarou_os.Repository.Packages.{Bytes, is_identifier, check_signer}
use rougarou_os.Repository.Verify.{Verification}
use rougarou_os.Repository.Sign.{Folder}
use rougarou_os.Repository.Publish.{Channel, testing, stable, Repository, folder_of, current, Run}
use rougarou_os.Repository.Gate.{Promotion, suite_is_testing, verified, names, read_evidence}

-- A text that is more than spaces.
abbrev pub IsSomething : Json → Type 0
IsSomething j = (t : Text) × (j ≡ text t) × (strip t ≢ [])

-- Evidence that the snapshot passed at least one test, each with a name, and was approved by someone.
pub record SaysPass (identity : Text) (d : Dict) : Type 0 where
  pub test : Json
  pub others : List Json
  pub tests : Elements
  pub approver : Json
  pub snapshot : lookup (codes "snapshot") d ≡ some (text identity)
  pub passed : lookup (codes "result") d ≡ some (text (codes "pass"))
  pub tested : lookup (codes "tests") d ≡ some (array tests)
  pub at_least_one : elements tests ≡ test ∷ others
  pub named : All IsSomething (test ∷ others)
  pub approved_by : lookup (codes "approved_by") d ≡ some approver
  pub someone : IsSomething approver

-- What the list of tests is.
abbrev AreNamed : Option Json → Type 0
AreNamed o =
    (js : Elements) × (j : Json) × (rest : List Json) × (o ≡ some (array js))
    × (elements js ≡ j ∷ rest)
    × All IsSomething (j ∷ rest)

module _ (run : Run) (p : Promotion) where
  -- The testing channel holds the signed snapshot of that name, the promotion is approved, and the
  -- evidence that was given is one for that snapshot.
  pub record IsStable (identity : Text) (testing_folder : Folder) : Type 0 where
    pub tested : Verification
    pub content : Option Bytes
    pub evidence : Dict
    pub verified_testing : verified run p.keyring testing_folder ≡ ok tested
    pub of_testing : suite_is_testing run tested.release ≡ true
    pub of_snapshot : names run identity tested ≡ ok true
    pub approved : p.approve_stable ≡ true
    pub given_evidence : p.evidence ≡ some content
    pub read : read_evidence run content ≡ ok evidence
    pub says_so : SaysPass identity evidence

  -- Only the stable channel asks for more.
  abbrev pub Gated : Channel → Text → Folder → Type 0
  Gated testing identity folder = Unit
  Gated stable identity folder = IsStable identity folder

  pub record IsChecked (r : Repository) (source : Folder) : Type 0 where
    pub verification : Verification
    pub named : is_identifier p.options.snapshot ≡ true
    pub signer : check_signer p.options.home p.options.key run.root ≡ ok tt
    pub from : source ≡ folder_of (r.snapshots p.options.snapshot)
    pub signed : verified run p.keyring source ≡ ok verification
    pub of_snapshot : names run p.options.snapshot verification ≡ ok true
    pub gated : Gated p.channel p.options.snapshot (current r testing)
