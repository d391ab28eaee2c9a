-- ===== src/Repository/Packages.antt =====
-- `package_path`, `validate_packages`, `identifier` and `check_signer` of scripts/repo.py: what the
-- packages of a folder must be.
pub mod Valid
use Prim.Native.Nat.{◌%◌}
use rougarou_os.Base.{
  ℕ, ℤ, pos, negsuc, Bool, true, false, not, ◌&&◌, ◌||◌, Option, none, some, List, [], ◌∷◌, ◌==◌,
  leb, length, codes, Result, ok, err, Text, same_text, has_code, is_empty, all, any, is_some,
  PurePath, path_of, is_absolute, goes_up, is_relative_to, name, if◌then◌else◌,
}
use rougarou_os.Base.Dicts.{Table, value_at}
use rougarou_os.Base.Results.{◌>>=◌, ◌>>◌, demand}
use rougarou_os.Repository.Records.{RecordError, records}
use rougarou_os.Updates.Release.{is_sha256}

-- `os_error`, `not_utf8`, `not_a_number`, `key_error` and `no_json` are Python's own,
-- `attribute_error` too; `gpg_failed` is a signature program's exit.
pub data RepositoryError : Type 0 where
  bad_records : RecordError → RepositoryError
  unsafe_path path_escapes missing_deb : RepositoryError
  bad_package_field : Text → RepositoryError
  duplicate_version invalid_hash size_mismatch hash_mismatch : RepositoryError
  bad_identifier bad_fingerprint home_inside home_open bad_suite bad_days : RepositoryError
  keyring_missing gpg_failed not_authentic bad_release wrong_identity metadata_expired :
      RepositoryError
  unexpected_index metadata_mismatch indexes_missing compressed_mismatch : RepositoryError
  snapshot_exists content_modified index_modified identity_mismatch : RepositoryError
  not_tested not_approved bad_evidence : RepositoryError
  bad_descriptor bad_passphrase : RepositoryError
  os_error not_utf8 not_a_number key_error no_json attribute_error : RepositoryError

abbrev pub Bytes : Type 0
Bytes = List ℕ

-- What Python says of a path below a folder: whether it stays in the folder when it is resolved,
-- whether it is a symbolic link, whether something that is no file is there, and a file's bytes.
pub record Node : Type 0 where
  pub is_inside : Bool
  pub is_symlink : Bool
  pub is_other : Bool
  pub content : Option Bytes

-- Hashes, UTF-8 text and numbers: `int_of` is `int` on texts, `is_digit` is `isdigit` on one
-- character.
pub record Reads : Type 0 where
  pub sha256 : Bytes → Text
  pub decode : Bytes → Option Text
  pub is_digit : ℕ → Bool
  pub int_of : Text → Option ℤ

abbrev pub given : {A : Type 0} → RepositoryError → Option A → Result RepositoryError A
given e none = err e
given e (some a) = ok a

abbrev pub parsed : Result RecordError (List Table) → Result RepositoryError (List Table)
parsed (ok entries) = ok entries
parsed (err e) = err (bad_records e)

-- `root / name` for the code's own names
unfoldable pub file : Text → (PurePath → Node) → Node
file t node_at = node_at (path_of t)

unfoldable pub bytes_of : Node → Result RepositoryError Bytes
bytes_of node = given os_error node.content

abbrev pub is_length : ℤ → Bytes → Bool
is_length (pos n) bytes = length bytes == n
is_length (negsuc n) bytes = false

module _ (reads : Reads) where
  unfoldable pub read_records : Node → Result RepositoryError (List Table)
  read_records node = do
    bytes ← bytes_of node
    t ← given not_utf8 (reads.decode bytes)
    parsed (records t)

  unfoldable pub same_size : Text → Bytes → Result RepositoryError Bool
  same_size size bytes = do n ← given not_a_number (reads.int_of size); ok (is_length n bytes)

-- `path.suffix == ".deb"` of a path's last part
unfoldable pub is_deb : Text → Bool
is_deb [] = false
is_deb (c ∷ t) = same_text t (codes ".deb") || is_deb t

unfoldable pub package_path : (PurePath → Node) → Text → Result RepositoryError (PurePath × Bytes)
package_path node_at t = do
  demand (not (is_absolute p || goes_up p || has_code 92 t)) unsafe_path
  demand (node.is_inside && not node.is_symlink) path_escapes
  demand (is_deb (name p)) missing_deb
  bytes ← given missing_deb node.content
  ok (p, bytes)
  where
    p : PurePath
    p = path_of t

    node : Node
    node = node_at (path_of t)

pub record Package : Type 0 where
  pub package_name : Text
  pub version : Text
  pub architecture : Text
  pub filename : Text
  pub size : Text
  pub hash : Text

unfoldable pub field_at : Text → Table → Result RepositoryError Text
field_at key entry = do
  v ← given (bad_package_field key) (value_at key entry)
  demand (not (has_code 10 v)) (bad_package_field key)
  ok v

unfoldable pub package_of : Table → Result RepositoryError Package
package_of entry = do
  n ← field_at (codes "Package") entry
  v ← field_at (codes "Version") entry
  a ← field_at (codes "Architecture") entry
  f ← field_at (codes "Filename") entry
  s ← field_at (codes "Size") entry
  h ← field_at (codes "SHA256") entry
  ok (record { package_name = n; version = v; architecture = a; filename = f; size = s; hash = h })

-- `identity == other`
unfoldable pub same_version : Package → Package → Bool
same_version p q =
    same_text p.package_name q.package_name
    && same_text p.version q.version
    && same_text p.architecture q.architecture

module _ (reads : Reads) (node_at : PurePath → Node) where
  unfoldable pub check_file : Package → Result RepositoryError (Unit {0})
  check_file p = do
    (path, bytes) ← package_path node_at p.filename
    demand (is_sha256 p.hash) invalid_hash
    demand (not (is_empty p.size) && all reads.is_digit p.size) size_mismatch
    sized ← same_size reads p.size bytes
    demand sized size_mismatch
    demand (same_text (reads.sha256 bytes) p.hash) hash_mismatch

  unfoldable pub check_entries : List Package → List Table → Result RepositoryError (Unit {0})
  check_entries seen [] = ok tt
  check_entries seen (entry ∷ entries) = do
    p ← package_of entry
    demand (not (any (same_version p) seen)) duplicate_version
    check_file p
    check_entries (p ∷ seen) entries

  unfoldable pub validate_packages : Result RepositoryError (List Table)
  validate_packages = do
    entries ← read_records reads (file (codes "Packages") node_at)
    check_entries [] entries
    ok entries

abbrev is_alphanumeric : ℕ → Bool
is_alphanumeric c = (leb 48 c && leb c 57) || (leb 65 c && leb c 90) || (leb 97 c && leb c 122)

-- `[A-Za-z0-9][A-Za-z0-9._-]{0,95}`
unfoldable pub is_identifier : Text → Bool
is_identifier [] = false
is_identifier (c ∷ t) =
    is_alphanumeric c
    && leb (length t) 95
    && all (λ x. is_alphanumeric x || (x == 46) || (x == 95) || (x == 45)) t

unfoldable pub identifier : Text → Result RepositoryError Text
identifier t = do demand (is_identifier t) bad_identifier; ok t

-- `[0-9A-Fa-f]{40}|[0-9A-Fa-f]{64}`
abbrev is_fingerprint : Text → Bool
is_fingerprint t =
    (length t == 40 || length t == 64)
    && all (λ c. (leb 48 c && leb c 57) || (leb 65 c && leb c 70) || (leb 97 c && leb c 102)) t

-- The directory of the signing keys: whether it is one, where it is when resolved, and its mode.
pub record Home : Type 0 where
  pub is_dir : Bool
  pub place : PurePath
  pub mode : ℕ

-- `mode & 0o077` is what the mode leaves by 64.
unfoldable pub check_signer : Home → Text → PurePath → Result RepositoryError (Unit {0})
check_signer home key forbidden_root = do
  demand (is_fingerprint key) bad_fingerprint
  demand (home.is_dir && not (is_relative_to home.place forbidden_root)) home_inside
  demand (home.mode % 64 == 0) home_open
