-- ===== src/Repository/Sign.antt =====
-- `signing_password` and `sign_flat` of scripts/repo.py: a folder's metadata, and their signatures.
pub mod Failed
use rougarou_os.Base.{
  ℕ, ◌+◌, Bool, true, false, not, ◌&&◌, ◌||◌, Option, none, some, List, [], ◌∷◌, ◌++◌, ◌==◌, leb,
  length, codes, map, take, select, Result, ok, err, Exec, pure, gets, lift, modify, require, ◌>>=◌,
  ◌>>◌, Text, same_text, has_text, is_empty, all, join, begins, is_some, PurePath, relative,
  same_path, path_of, if◌then◌else◌,
}
use rougarou_os.Base.Dicts.{Table, value_at, span}
use rougarou_os.Repository.Packages.{
  RepositoryError, bad_suite, bad_days, gpg_failed, index_modified, os_error, bad_descriptor,
  bad_passphrase, Bytes, Node, Reads, given, file, bytes_of, validate_packages, Home, check_signer,
}
use rougarou_os.Updates.Apply.{sorted}

-- A folder, and the paths below it that there is something at.
pub record Folder : Type 0 where
  pub node_at : PurePath → Node
  pub paths : List PurePath

abbrev pub exists : Node → Bool
exists node = is_some node.content || node.is_other

-- A regular file in the place of what was there.
abbrev pub regular : Bytes → Node → Node
regular bytes node = record node { is_symlink = false; is_other = false; content = some bytes }

unfoldable pub write : PurePath → Bytes → Folder → Folder
write path bytes folder = record {
  node_at = λ p. if same_path p path then regular bytes (folder.node_at p) else folder.node_at p;
  paths = if exists (folder.node_at path) then folder.paths else path ∷ folder.paths;
}

abbrev pub Signing : Type 0 → Type 0
Signing A = Exec Folder RepositoryError A

-- The program that signs, the compression, and the texts of dates, sizes and bytes: `sized` is
-- `f"{size:16d}"`, `date_text` an e-mail's date in GMT, `later` a time a number of days on.
pub record Signer : Type 0 where
  pub reads : Reads
  pub encode : Text → Bytes
  pub compress : Bytes → Bytes
  pub sized : ℕ → Text
  pub date_text : ℕ → Text
  pub later : ℕ → ℕ → ℕ
  pub clear_sign : Option Bytes → Text → Bytes → Option Bytes
  pub detach_sign : Option Bytes → Text → Bytes → Option Bytes

-- What is read a byte at a time, up to a line feed, the end or 4097 bytes.
abbrev pub secret_of : Bytes → Bytes
secret_of stream = (span (λ c. not (c == 10)) (take 4097 stream)).0

-- `cached` is what an earlier call has read.
unfoldable pub signing_password :
    Reads → Option Text → Option Bytes → Bytes → Result RepositoryError (Option Bytes)
signing_password reads none cached stream = ok none
signing_password reads (some descriptor) cached stream =
    if not (is_empty descriptor) && all reads.is_digit descriptor
    then read_once cached
    else err bad_descriptor
  where
    read_once : Option Bytes → Result RepositoryError (Option Bytes)
    read_once (some secret) = ok (some secret)
    read_once none =
        if is_empty (secret_of stream) || not (leb (length (secret_of stream)) 4096)
        then err bad_passphrase
        else ok (some (secret_of stream ++ 10 ∷ []))

abbrev pub by_hash : Text → PurePath
by_hash digest = record { root = relative; parts = codes "by-hash" ∷ codes "SHA256" ∷ digest ∷ [] }

-- `entry["Architecture"]`, which a validated entry has
abbrev architecture_of : Table → Text
architecture_of entry = text_of (value_at (codes "Architecture") entry)
  where
    text_of : Option Text → Text
    text_of none = []
    text_of (some t) = t

module _ (signer : Signer) where
  abbrev pub header : Text → ℕ → ℕ → List Table → List Text
  header suite now days entries =
      codes "Origin: Rougarou"
      ∷ codes "Label: Rougarou"
      ∷ (codes "Suite: " ++ suite)
      ∷ codes "Codename: rougarou"
      ∷ (codes "Date: " ++ signer.date_text now)
      ∷ (codes "Valid-Until: " ++ signer.date_text (signer.later now days))
      ∷ (codes "Architectures: " ++ join (codes " ") (sorted (map architecture_of entries)))
      ∷ codes "Description: Rougarou curated package snapshot"
      ∷ codes "Acquire-By-Hash: yes"
      ∷ codes "SHA256:"
      ∷ []

  -- An index under its own hash, once.
  abbrev pub keep_by_hash : Text → Bytes → Node → Signing (Unit {0})
  keep_by_hash digest bytes hashed =
      if exists hashed
      then (do
        old ← lift (bytes_of hashed)
        require (same_text (signer.reads.sha256 old) digest) index_modified)
      else modify (write (by_hash digest) bytes)

  abbrev pub keep_index : Text → Text → Bytes → Signing (Unit {0})
  keep_index t digest bytes folder =
      if begins (codes "Packages") t
      then keep_by_hash digest bytes (folder.node_at (by_hash digest)) folder
      else (ok tt, folder)

  abbrev pub line_of : Text → Text → Bytes → Text
  line_of t digest bytes =
      codes " " ++ digest ++ codes " " ++ signer.sized (length bytes) ++ codes " " ++ t

  unfoldable pub metadata_line : Text → Signing Text
  metadata_line t = do
    bytes ← λ folder. lift (bytes_of (file t folder.node_at)) folder
    keep_index t (signer.reads.sha256 bytes) bytes
    pure (line_of t (signer.reads.sha256 bytes) bytes)

  unfoldable pub metadata_lines : List Text → Signing (List Text)
  metadata_lines [] = pure []
  metadata_lines (t ∷ ts) = do
    line ← metadata_line t
    lines ← metadata_lines ts
    pure (line ∷ lines)

  abbrev pub metadata_of : Folder → List Text
  metadata_of folder =
      codes "Packages"
      ∷ codes "Packages.gz"
      ∷ select (λ t. is_some (file t folder.node_at).content)
          (codes "snapshot.json" ∷ codes "promotion.json" ∷ [])

  -- Both signatures are made before one of the three files is written.
  abbrev pub publish : Option Bytes → Text → Bytes → Signing (Unit {0})
  publish password key release = do
    in_release ← lift (given gpg_failed (signer.clear_sign password key release))
    signature ← lift (given gpg_failed (signer.detach_sign password key release))
    modify (write (path_of (codes "Release")) release)
    modify (write (path_of (codes "Release.gpg")) signature)
    modify (write (path_of (codes "InRelease")) in_release)

  unfoldable pub sign_flat :
      Home
      → Text
      → PurePath
      → Result RepositoryError (Option Bytes)
      → Text
      → ℕ
      → ℕ
      → Signing (Unit {0})
  sign_flat home key place passphrase suite days now = do
    require (has_text suite (codes "snapshot" ∷ codes "testing" ∷ codes "stable" ∷ [])) bad_suite
    require (leb 1 days && leb days 3650) bad_days
    lift (check_signer home key place)
    entries ← λ folder. lift (validate_packages signer.reads folder.node_at) folder
    packages ← λ folder. lift (bytes_of (file (codes "Packages") folder.node_at)) folder
    modify (write (path_of (codes "Packages.gz")) (signer.compress packages))
    metadata ← gets metadata_of
    lines ← metadata_lines metadata
    password ← lift passphrase
    publish password key
        (signer.encode (join (codes "\n") (header suite now days entries ++ lines) ++ codes "\n"))
