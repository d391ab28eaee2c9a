-- ===== src/Backup/Create.antt =====
-- `password_descriptor`, `initialize`, `copy_private` and `create` of
-- rootfs/usr/lib/rougarou/backup.py: what goes into a backup, and when it is published.
use Prim.Native.Nat.{◌%◌}
use rougarou_os.Base.{
  ℕ, Bool, true, false, not, ◌&&◌, ◌||◌, Option, none, some, List, [], ◌∷◌, ◌++◌, ◌==◌, leb, length,
  map, codes, Result, ok, err, Exec, pure, lift, require, ◌>>=◌, ◌>>◌, Text, has_text, is_empty,
  any, select, PurePath, path_text, same_path, if◌then◌else◌,
}
use rougarou_os.Base.Dicts.{span}
use rougarou_os.Base.Json.{Json}
use rougarou_os.Base.Lines.{strip}
use rougarou_os.Updates.Release.{is_sha256}
use rougarou_os.Backup.Config.{Places, components, Config}
use rougarou_os.Backup.Tree.{capsule}
use rougarou_os.Backup.Snapshots.{
  RestoreError, not_published, no_summary, missing_include, of_result, Snapshot, pending, completed,
  read_manifest, excluded, literal_pattern, bad_password, empty_password, already_configured,
  not_empty, unavailable, not_owned, source_changed, special_file,
}

-- The password file as it is opened.
pub record PasswordFile : Type 0 where
  pub is_regular : Bool
  pub owner : ℕ
  pub mode : ℕ
  pub content : List ℕ

unfoldable pub password_descriptor :
    Places → ℕ → PurePath → PasswordFile → Result RestoreError (Unit {0})
password_descriptor places user path file = checked (of_result (components places path))
  where
    is_private : Bool
    is_private =
        file.is_regular
        && file.owner == user
        && file.mode % 4096 == 384
        && not (is_empty file.content)
        && leb (length file.content) 65536

    has_line : Bool
    has_line = not (is_empty (strip (span (λ c. not (c == 10)) file.content).0))

    checked : Result RestoreError (Unit {0}) → Result RestoreError (Unit {0})
    checked (err e) = err e
    checked (ok u) =
        if is_private then (if has_line then ok tt else err empty_password) else err bad_password

-- A file tree as `lstat` finds it, with the owners; a regular file with whether it is the same one
-- when it is opened.
mutual
  pub data Source : Type 0 where
    absent : Source
    directory : ℕ → Sources → Source
    regular : ℕ → Bool → List ℕ → Source
    special : ℕ → Source

  pub data Sources : Type 0 where
    no_sources : Sources
    source : Text → Source → Sources → Sources

abbrev pub Files : Type 0
Files = List (PurePath × List ℕ)

abbrev pub append_files :
    Result RestoreError Files → Result RestoreError Files → Result RestoreError Files
append_files (ok fs) (ok gs) = ok (fs ++ gs)
append_files (ok fs) (err e) = err e
append_files (err e) r = err e

abbrev pub owned : ℕ → ℕ → Result RestoreError Files → Result RestoreError Files
owned user owner r = if owner == user then r else err not_owned

abbrev child : PurePath → Text → PurePath
child p t = record p { parts = p.parts ++ t ∷ [] }

-- The files that are written at the destination, in the order of the walk.
unfoldable mutual
  pub copy_private : ℕ → List PurePath → PurePath → PurePath → Source → Result RestoreError Files
  copy_private user omit from to absent = ok []
  copy_private user omit from to (directory owner children) =
      let inside = copy_children user omit from to children in
      if any (same_path from) omit then ok [] else owned user owner inside
  copy_private user omit from to (regular owner is_same content) =
      if any (same_path from) omit
      then ok []
      else owned user owner (if is_same then ok ((to, content) ∷ []) else err source_changed)
  copy_private user omit from to (special owner) =
      if any (same_path from) omit then ok [] else owned user owner (err special_file)

  pub copy_children : ℕ → List PurePath → PurePath → PurePath → Sources → Result RestoreError Files
  copy_children user omit from to no_sources = ok []
  copy_children user omit from to (source t s rest) =
      append_files (copy_private user omit (child from t) (child to t) s)
        (copy_children user omit from to rest)

-- What a backup and the first configuration ask of restic and of the disk, in order.
pub data Step : Type 0 where
  call_restic : List Text → Step
  make_private : PurePath → Step
  store_config : Step

abbrev pub Act : Type 0 → Type 0
Act A = Exec (List Step) RestoreError A

-- The summary that `restic backup` reports.
pub record Summary : Type 0 where
  pub snapshot_id : Text
  pub files : ℕ
  pub bytes : ℕ

-- What other programs answer: `staged` is what the copies into the capsule come to.
pub record Answers : Type 0 where
  pub places : Places
  pub is_readable : PurePath → Bool
  pub staged : Result RestoreError (Unit {0})
  pub call : List Text → Result RestoreError (Unit {0})
  pub make : PurePath → Result RestoreError (Unit {0})
  pub summary : Result RestoreError (Option Summary)
  pub dumped : Text → Result RestoreError (List ℕ)
  pub json_of : List ℕ → Option Json
  pub tagged : Result RestoreError (List Snapshot)
  pub stored : Result RestoreError (Unit {0})
  pub token : Text

pub record Created : Type 0 where
  pub snapshot : Text
  pub files : ℕ
  pub bytes : ℕ

module _ (a : Answers) where
  abbrev pub restic : List Text → Act (Unit {0})
  restic arguments done = (a.call arguments, done ++ call_restic arguments ∷ [])

  unfoldable pub check_sources : List PurePath → Act (Unit {0})
  check_sources [] = pure tt
  check_sources (p ∷ ps) = do
    lift (of_result (components a.places p))
    require (a.is_readable p) missing_include
    check_sources ps

  -- `--exclude` for every path but the staging root, whose capsule is named.
  unfoldable pub exclusions : List PurePath → List Text
  exclusions [] = []
  exclusions (p ∷ ps) =
      let rest = exclusions ps in
      if same_path p a.places.staging_root
      then rest
      else codes "--exclude" ∷ literal_pattern p ∷ rest

  unfoldable pub backup_arguments : Config → List Text
  backup_arguments config =
      (codes "backup" ∷ codes "--tag" ∷ pending ∷ codes "--tag" ∷ a.token ∷ [])
      ++ exclusions (excluded a.places config)
      ++ (codes "--" ∷ capsule ∷ map path_text config.includes)

  abbrev pub complete_summary : Option Summary → Result RestoreError Summary
  complete_summary none = err no_summary
  complete_summary (some s) = if is_sha256 s.snapshot_id then ok s else err no_summary

  abbrev pub is_published : Snapshot → Bool
  is_published s = has_text completed s.tags && not (has_text pending s.tags)

  abbrev pub only_one : List Snapshot → Result RestoreError Snapshot
  only_one (s ∷ []) = ok s
  only_one _ = err not_published

  abbrev pub dump_arguments : Text → List Text
  dump_arguments id = codes "dump" ∷ id ∷ (codes "/" ++ capsule ++ codes "/manifest.json") ∷ []

  abbrev pub tag_arguments : Text → List Text
  tag_arguments id = codes "tag" ∷ codes "--add" ∷ completed ∷ codes "--remove" ∷ pending ∷ id ∷ []

  unfoldable pub create : Config → Act Created
  create config = do
    check_sources config.includes
    λ done. (a.make a.places.staging_root, done ++ make_private a.places.staging_root ∷ [])
    lift a.staged
    restic (backup_arguments config)
    reported ← lift a.summary
    summary ← lift (complete_summary reported)
    restic (dump_arguments summary.snapshot_id)
    manifest ← lift (read_manifest a.json_of (a.dumped summary.snapshot_id))
    restic (tag_arguments summary.snapshot_id)
    restic (codes "snapshots" ∷ codes "--tag" ∷ a.token ∷ [])
    listed ← lift a.tagged
    complete ← lift (only_one (select is_published listed))
    pure (record { snapshot = complete.id; files = summary.files; bytes = summary.bytes })

-- The repository's place when a configuration is made: whether it is there, a directory, and empty.
pub record Destination : Type 0 where
  pub is_there : Bool
  pub is_dir : Bool
  pub is_empty_dir : Bool

module _ (a : Answers) where
  abbrev pub attach : Bool → Config → Destination → Act (Unit {0})
  attach false config d = do
    require (not d.is_there || (d.is_dir && d.is_empty_dir)) not_empty
    λ done. (a.make config.repository, done ++ make_private config.repository ∷ [])
    restic a (codes "init" ∷ [])
  attach true config d = do require d.is_dir unavailable; restic a (codes "snapshots" ∷ [])

  -- `config` is the new configuration, already valid, and `password` what its password file is.
  unfoldable pub initialize :
      Config → Bool → Result RestoreError (Unit {0}) → Bool → Destination → Act (Unit {0})
  initialize config is_configured password existing d = do
    require (not is_configured) already_configured
    lift password
    attach existing config d
    λ done. (a.stored, done ++ store_config ∷ [])
