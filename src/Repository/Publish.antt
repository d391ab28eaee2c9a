-- ===== src/Repository/Publish.antt =====
-- `snapshot`, `add_immutable` and `promote` of scripts/repo.py: what a repository holds, and how a
-- tested snapshot becomes what a channel points to.
use rougarou_os.Base.{
  ℕ, Bool, true, false, ◌&&◌, ◌||◌, Option, none, some, List, [], ◌∷◌, ◌++◌, length, codes, select,
  pos, Result, ok, err, Exec, pure, gets, lift, modify, require, ◌>>=◌, ◌>>◌, Text, same_text,
  is_none, PurePath, path_of, name, if◌then◌else◌,
}
use rougarou_os.Base.Dicts.{Table, value_at, set_value}
use rougarou_os.Base.Json.{Json, text, object, whole, to_members}
use rougarou_os.Repository.Records.{encode_records}
use rougarou_os.Repository.Packages.{
  RepositoryError, snapshot_exists, content_modified, Bytes, Node, Reads, given, file, bytes_of,
  is_deb, package_path, validate_packages, identifier, Home, check_signer,
}
use rougarou_os.Repository.Verify.{Checks}
use rougarou_os.Repository.Sign.{Folder, exists, write, Signing, Signer, sign_flat}

pub data Channel : Type 0 where
  testing stable : Channel

abbrev pub channel_text : Channel → Text
channel_text testing = codes "testing"
channel_text stable = codes "stable"

abbrev pub same_channel : Channel → Channel → Bool
same_channel testing testing = true
same_channel stable stable = true
same_channel _ _ = false

-- What is below the root: the snapshots, the stores `pool` and `index-by-hash`, of which the paths
-- are written as in a snapshot, the publications of each channel, the audit files, and the
-- publication that a channel's link points to.
pub record Repository : Type 0 where
  pub snapshots : Text → Option Folder
  pub pool : Folder
  pub indexes : Folder
  pub publications : Channel → Text → Option Folder
  pub audits : List (Text × Json)
  pub pointer : Channel → Option Text

abbrev pub Act : Type 0 → Type 0
Act A = Exec Repository RepositoryError A

abbrev missing : Node
missing = record { is_inside = true; is_symlink = false; is_other = false; content = none }

-- A folder that is not there, or is empty.
abbrev pub no_folder : Folder
no_folder = record { node_at = λ p. missing; paths = [] }

abbrev pub folder_of : Option Folder → Folder
folder_of none = no_folder
folder_of (some folder) = folder

-- `channels/<channel>`, followed
abbrev pub current : Repository → Channel → Folder
current r channel = at (r.pointer channel)
  where
    at : Option Text → Folder
    at none = no_folder
    at (some publication) = folder_of (r.publications channel publication)

-- `add_immutable`, on what is at the destination
abbrev pub add_at : Reads → Node → PurePath → Node → Signing (Unit {0})
add_at reads source path node =
    if exists node
    then (do
      old ← lift (given content_modified node.content)
      new ← lift (bytes_of source)
      require (same_text (reads.sha256 new) (reads.sha256 old)) content_modified)
    else (do new ← lift (bytes_of source); modify (write path new))

unfoldable pub add_immutable : Reads → Node → PurePath → Signing (Unit {0})
add_immutable reads source path folder = add_at reads source path (folder.node_at path) folder

unfoldable pub add_all : Reads → Folder → List PurePath → Signing (Unit {0})
add_all reads source [] = pure tt
add_all reads source (path ∷ paths) = do
  add_immutable reads (source.node_at path) path
  add_all reads source paths

abbrev pub in_pool : Signing (Unit {0}) → Act (Unit {0})
in_pool m r = let (x, folder) = m r.pool in (x, record r { pool = folder })

abbrev pub in_indexes : Signing (Unit {0}) → Act (Unit {0})
in_indexes m r = let (x, folder) = m r.indexes in (x, record r { indexes = folder })

abbrev pub first_is : Text → List Text → Bool
first_is t [] = false
first_is t (x ∷ xs) = same_text x t

-- `(source / "pool").rglob("*.deb")` and `(source / "by-hash" / "SHA256").iterdir()`
abbrev pub debs : Folder → List PurePath
debs folder =
    select
      (λ p.
        first_is (codes "pool") p.parts && (is_deb (name p) || same_text (name p) (codes ".deb")))
      folder.paths

abbrev is_hashed : List Text → Bool
is_hashed (a ∷ b ∷ c ∷ []) = same_text a (codes "by-hash") && same_text b (codes "SHA256")
is_hashed _ = false

abbrev pub hashed : Folder → List PurePath
hashed folder = select (λ p. is_hashed p.parts) folder.paths

-- The programs, the clock and the chosen names of a run: `root` and `stage` are the resolved places
-- of the repository and of the temporary folder, `suffix` is what makes a publication's name new,
-- and `passphrase` is what `signing_password` comes to.
pub record Run : Type 0 where
  pub signer : Signer
  pub checks : Checks
  pub json_text : Json → Text
  pub now : ℕ
  pub now_text : Text
  pub suffix : Text
  pub root : PurePath
  pub stage : PurePath
  pub passphrase : Result RepositoryError (Option Bytes)

pub record Options : Type 0 where
  pub snapshot : Text
  pub home : Home
  pub key : Text
  pub valid_days : ℕ

-- What is made in a temporary folder, which starts out empty.
abbrev pub staged : Signing (Unit {0}) → Result RepositoryError Folder
staged m = made (m no_folder)
  where
    made : Result RepositoryError (Unit {0}) × Folder → Result RepositoryError Folder
    made (ok u, folder) = ok folder
    made (err e, folder) = err e

abbrev field_text : Text → Table → Text
field_text key entry = text_of (value_at key entry)
  where
    text_of : Option Text → Text
    text_of none = []
    text_of (some t) = t

module _ (run : Run) where
  abbrev pub write_text : Text → Text → Signing (Unit {0})
  write_text t content = modify (write (path_of t) (run.signer.encode content))

  -- The packages under their hashes, and the entries with those names.
  unfoldable pub copy_packages : Folder → List Table → Signing (List Table)
  copy_packages source [] = pure []
  copy_packages source (entry ∷ entries) = do
    (path, bytes) ← lift (package_path source.node_at (field_text (codes "Filename") entry))
    let target = codes "pool/" ++ field_text (codes "SHA256") entry ++ codes "/" ++ name path
    modify (write (path_of target) bytes)
    rest ← copy_packages source entries
    pure (set_value (codes "Filename") target entry ∷ rest)

  abbrev manifest : Options → Text → Text → ℕ → Json
  manifest options provenance source_sha256 count = object (
      to_members (
        (codes "schema", whole (pos 1))
        ∷ (codes "snapshot", text options.snapshot)
        ∷ (codes "source_packages_sha256", text source_sha256)
        ∷ (codes "created_at", text run.now_text)
        ∷ (codes "provenance", text provenance)
        ∷ (codes "package_count", whole (pos count))
        ∷ []))

  unfoldable pub stage_snapshot : Options → Folder → Text → List Table → Signing (Unit {0})
  stage_snapshot options source provenance entries = do
    copied ← copy_packages source entries
    write_text (codes "Packages") (encode_records copied)
    packages ← lift (bytes_of (file (codes "Packages") source.node_at))
    write_text (codes "snapshot.json") (
        run.json_text
          (manifest options provenance (run.signer.reads.sha256 packages) (length entries))
        ++ codes "\n")
    sign_flat run.signer options.home options.key run.stage run.passphrase (codes "snapshot")
        options.valid_days run.now

  unfoldable pub snapshot : Options → Folder → Text → Act (Unit {0})
  snapshot options source provenance = do
    identity ← lift (identifier options.snapshot)
    present ← gets (λ r. r.snapshots identity)
    require (is_none present) snapshot_exists
    lift (check_signer options.home options.key run.root)
    entries ← lift (validate_packages run.signer.reads source.node_at)
    stage ← lift (staged (stage_snapshot options source provenance entries))
    modify (λ r. record r {
      snapshots = λ t. if same_text identity t then some stage else r.snapshots t;
    })
