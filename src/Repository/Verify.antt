-- ===== src/Repository/Verify.antt =====
-- `verify` of scripts/repo.py: what a signed folder must be.
pub mod Listed
pub mod Signed
use rougarou_os.Base.{
  ℕ, Bool, true, false, not, ◌&&◌, ◌||◌, Option, none, some, List, [], ◌∷◌, ◌++◌, ltb, codes,
  Result, ok, err, Text, same_text, has_text, is_empty, PurePath, if◌then◌else◌,
}
use rougarou_os.Base.Dicts.{Table, value_at}
use rougarou_os.Base.Json.{Json, object, no_members, members, Dict}
use rougarou_os.Base.Lines.{split_lines, words, strip}
use rougarou_os.Base.Results.{◌>>=◌, ◌>>◌, demand}
use rougarou_os.Repository.Packages.{
  RepositoryError, not_authentic, bad_release, wrong_identity, metadata_expired, unexpected_index,
  metadata_mismatch, indexes_missing, compressed_mismatch, keyring_missing, gpg_failed, not_utf8,
  not_a_number, no_json, key_error, os_error, attribute_error, Bytes, Node, Reads, given, file,
  bytes_of, read_records, same_size, validate_packages,
}

-- The programs and libraries that `verify` calls: `clear_of` is the text that `gpgv` takes out of a
-- signed one for the keys of a keyring, `is_signed` whether it finds a detached signature good;
-- `date_of` is a date on the clock of `now`.
pub record Checks : Type 0 where
  pub reads : Reads
  pub clear_of : Bytes → Bytes → Option Bytes
  pub is_signed : Bytes → Bytes → Bytes → Bool
  pub decompress : Bytes → Option Bytes
  pub date_of : Text → Option ℕ
  pub json_of : Text → Option Json

pub record Verification : Type 0 where
  pub release : Table
  pub snapshot : Json

abbrev pub index_names : List Text
index_names =
    codes "Packages" ∷ codes "Packages.gz" ∷ codes "snapshot.json" ∷ codes "promotion.json" ∷ []

module _ (checks : Checks) (node_at : PurePath → Node) where
  -- `not path.is_file() or path.is_symlink() or size or hash`
  unfoldable pub check_index : Text → Text → Text → Result RepositoryError (Unit {0})
  check_index digest size t = do
    bytes ← given metadata_mismatch node.content
    demand (not node.is_symlink) metadata_mismatch
    sized ← same_size checks.reads size bytes
    demand sized metadata_mismatch
    demand (same_text (checks.reads.sha256 bytes) digest) metadata_mismatch
    where
      node : Node
      node = file t node_at

  abbrev pub check_line : List Text → List Text → Result RepositoryError (List Text)
  check_line checked (digest ∷ size ∷ t ∷ []) = do
    demand (has_text t index_names && not (has_text t checked)) unexpected_index
    check_index digest size t
    ok (t ∷ checked)
  check_line checked _ = err not_a_number

  unfoldable pub check_lines : List Text → List Text → Result RepositoryError (List Text)
  check_lines checked [] = ok checked
  check_lines checked (line ∷ lines) = do
    checked' ← if is_empty (strip line) then ok checked else check_line checked (words line)
    check_lines checked' lines

  -- The signatures of InRelease and of Release, with what they sign.
  unfoldable pub authentic : Bytes → Result RepositoryError Bytes
  authentic keyring = do
    in_release ← given gpg_failed (file (codes "InRelease") node_at).content
    cleartext ← given gpg_failed (checks.clear_of keyring in_release)
    release ← bytes_of (file (codes "Release") node_at)
    demand (same_text cleartext release || same_text cleartext (release ++ 10 ∷ [])) not_authentic
    signature ← given gpg_failed (file (codes "Release.gpg") node_at).content
    demand (checks.is_signed keyring signature release) gpg_failed
    ok release

  abbrev pub only : List Table → Result RepositoryError Table
  only (release ∷ []) = ok release
  only _ = err bad_release

  abbrev says : Text → Text → Table → Bool
  says key value fields = is_value (value_at key fields)
    where
      is_value : Option Text → Bool
      is_value none = false
      is_value (some v) = same_text v value

  abbrev pub is_ours : Table → Bool
  is_ours release =
      says (codes "Origin") (codes "Rougarou") release
      && says (codes "Codename") (codes "rougarou") release

  abbrev index_text : Option Text → Text
  index_text none = []
  index_text (some t) = t

  -- `json.loads(path.read_text())` where the snapshot is signed
  unfoldable pub signed_snapshot : List Text → Result RepositoryError Json
  signed_snapshot checked =
      if has_text (codes "snapshot.json") checked
      then (do
        bytes ← bytes_of (file (codes "snapshot.json") node_at)
        t ← given not_utf8 (checks.reads.decode bytes)
        given no_json (checks.json_of t))
      else ok (object no_members)

  -- The one entry of Release, which is this archive's and has not expired.
  unfoldable pub current_release : ℕ → Result RepositoryError Table
  current_release now = do
    release_entries ← read_records checks.reads (file (codes "Release") node_at)
    release ← only release_entries
    demand (is_ours release) wrong_identity
    until ← given key_error (value_at (codes "Valid-Until") release)
    expiry ← given not_a_number (checks.date_of until)
    demand (ltb now expiry) metadata_expired
    ok release

  abbrev pub index_lines : Table → List Text
  index_lines release = split_lines (index_text (value_at (codes "SHA256") release))

  unfoldable pub check_indexes : Table → Result RepositoryError (List Text)
  check_indexes release = do
    checked ← check_lines [] (index_lines release)
    demand (has_text (codes "Packages") checked && has_text (codes "Packages.gz") checked)
        indexes_missing
    ok checked

  unfoldable pub check_compressed : Result RepositoryError (Unit {0})
  check_compressed = do
    compressed ← bytes_of (file (codes "Packages.gz") node_at)
    index ← given os_error (checks.decompress compressed)
    packages ← bytes_of (file (codes "Packages") node_at)
    demand (same_text index packages) compressed_mismatch

  unfoldable pub verify : Option Bytes → ℕ → Result RepositoryError Verification
  verify public_keyring now = do
    keyring ← given keyring_missing public_keyring
    signed ← authentic keyring
    release ← current_release now
    checked ← check_indexes release
    check_compressed
    entries ← validate_packages checks.reads node_at
    snapshot ← signed_snapshot checked
    ok (record { release = release; snapshot = snapshot })

-- `value.get(key)`, which no value but an object has
abbrev pub object_of : Json → Result RepositoryError Dict
object_of (object ms) = ok (members ms)
object_of _ = err attribute_error
