-- ===== src/Repository/Gate.antt =====
-- What `promote` of scripts/repo.py finds before it writes anything.
pub mod Tested
use rougarou_os.Base.{
  ℕ, Bool, true, false, not, ◌&&◌, Option, none, some, List, [], ◌∷◌, ◌++◌, codes, map, Result, ok,
  err, Text, same_text, is_empty, all, is_some, if◌then◌else◌,
}
use rougarou_os.Base.Dicts.{Table, value_at}
use rougarou_os.Base.Json.{Json, null, text, array, object, Dict, lookup, elements, to_members}
use rougarou_os.Base.Lines.{strip}
use rougarou_os.Base.Results.{◌>>=◌, ◌>>◌, demand}
use rougarou_os.Repository.Packages.{
  RepositoryError, identity_mismatch, not_tested, not_approved, bad_evidence, os_error, not_utf8,
  no_json, Bytes, Reads, given, file, bytes_of, identifier, check_signer,
}
use rougarou_os.Repository.Verify.{Checks, Verification, verify, object_of}
use rougarou_os.Repository.Sign.{Folder}
use rougarou_os.Repository.Publish.{
  Channel, testing, stable, channel_text, Repository, folder_of, current, Run, Options,
}

-- `value.get(key) == t`
abbrev pub is_this : Text → Option Json → Bool
is_this t (some (text u)) = same_text u t
is_this t _ = false

abbrev pub is_text : Text → Text → Dict → Bool
is_text key t d = is_this t (lookup key d)

-- A text of more than spaces.
abbrev pub says_something : Option Json → Bool
says_something (some (text t)) = not (is_empty (strip t))
says_something _ = false

abbrev pub are_tests : Option Json → Bool
are_tests (some (array js)) =
    not (is_empty (elements js)) && all (λ j. says_something (some j)) (elements js)
are_tests _ = false

-- What the evidence of a test run must say.
abbrev pub is_evidence : Text → Dict → Bool
is_evidence identity d =
    is_text (codes "snapshot") identity d
    && is_text (codes "result") (codes "pass") d
    && are_tests (lookup (codes "tests") d)
    && says_something (lookup (codes "approved_by") d)

abbrev value_or_null : Option Json → Json
value_or_null none = null
value_or_null (some j) = j

-- Only the public fields.
abbrev pub public_fields : Dict → Dict
public_fields d =
    map (λ key. (key, value_or_null (lookup key d)))
      (codes "snapshot" ∷ codes "result" ∷ codes "tests" ∷ codes "approved_by" ∷ [])

-- `evidence` is the path's file, where there is the option.
pub record Promotion : Type 0 where
  pub options : Options
  pub channel : Channel
  pub keyring : Option Bytes
  pub approve_stable : Bool
  pub evidence : Option (Option Bytes)

module _ (run : Run) where
  abbrev pub reads : Reads
  reads = run.checks.reads

  abbrev pub verified : Option Bytes → Folder → Result RepositoryError Verification
  verified keyring folder = verify run.checks folder.node_at keyring run.now

  -- `verification["snapshot"].get("snapshot") == identity`
  abbrev pub names : Text → Verification → Result RepositoryError Bool
  names identity v = do d ← object_of v.snapshot; ok (is_text (codes "snapshot") identity d)

  abbrev suite_is_testing : Table → Bool
  suite_is_testing release = is (value_at (codes "Suite") release)
    where
      is : Option Text → Bool
      is none = false
      is (some t) = same_text t (codes "testing")

  -- `suite != "testing" or snapshot != identity`, in this order
  abbrev pub is_from_testing : Text → Verification → Result RepositoryError Bool
  is_from_testing identity v = if suite_is_testing v.release then names identity v else ok false

  unfoldable pub read_evidence : Option Bytes → Result RepositoryError Dict
  read_evidence content = do
    bytes ← given os_error content
    t ← given not_utf8 (reads.decode bytes)
    j ← given no_json (run.checks.json_of t)
    object_of j

  unfoldable pub stable_evidence : Promotion → Text → Folder → Result RepositoryError Dict
  stable_evidence p identity testing_folder = do
    tested ← verified p.keyring testing_folder
    same ← is_from_testing identity tested
    demand same not_tested
    demand (p.approve_stable && is_some p.evidence) not_approved
    content ← given not_approved p.evidence
    evidence ← read_evidence content
    demand (is_evidence identity evidence) bad_evidence
    ok (public_fields evidence)

  -- The evidence that goes into the audit, which is none for the testing channel.
  abbrev pub gate : Channel → Promotion → Text → Folder → Result RepositoryError Json
  gate testing p identity testing_folder = ok null
  gate stable p identity testing_folder = do
    evidence ← stable_evidence p identity testing_folder
    ok (object (to_members evidence))

  abbrev audit_of : Channel → Text → Text → Json → Text → Json
  audit_of channel identity publication evidence release_sha256 = object (
      to_members (
        (codes "snapshot", text identity)
        ∷ (codes "channel", text (channel_text channel))
        ∷ (codes "publication", text publication)
        ∷ (codes "published_at", text run.now_text)
        ∷ (codes "evidence", evidence)
        ∷ (codes "source_release_sha256", text release_sha256)
        ∷ []))

  -- What `promote` finds in order before it writes anything.
  unfoldable pub checked : Promotion → Repository → Result RepositoryError (Folder × Json)
  checked p r = do
    identity ← identifier p.options.snapshot
    check_signer p.options.home p.options.key run.root
    verification ← verified p.keyring (folder_of (r.snapshots identity))
    same ← names identity verification
    demand same identity_mismatch
    evidence ← gate p.channel p identity (current r testing)
    release ← bytes_of (file (codes "Release") (folder_of (r.snapshots identity)).node_at)
    ok (
      folder_of (r.snapshots identity),
      audit_of p.channel identity (identity ++ codes "-" ++ run.suffix) evidence
          (reads.sha256 release),
    )

  abbrev pub publication_of : Promotion → Text
  publication_of p = p.options.snapshot ++ codes "-" ++ run.suffix
