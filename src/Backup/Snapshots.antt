-- ===== src/Backup/Snapshots.antt =====
-- `snapshots`, `snapshot`, `read_manifest`, `excluded` and `literal_pattern` of
-- rootfs/usr/lib/rougarou/backup.py: which snapshot is meant, and what its capsule says.
use rougarou_os.Base.{
  ℕ, Bool, true, false, not, ◌&&◌, ◌||◌, Option, none, some, List, [], ◌∷◌, ◌==◌, leb, length,
  codes, Result, ok, err, Text, same_text, has_text, all, begins, select, order_by, PurePath,
  path_text, if◌then◌else◌,
}
use rougarou_os.Base.Json.{Json, array, object, members, elements, equals_one, Dict, lookup}
use rougarou_os.Base.Results.{◌>>=◌, ◌>>◌, demand}
use rougarou_os.Backup.Config.{BackupError, Places, absolute, absolutes, Config}
use rougarou_os.Backup.Tree.{TreeError}

-- `value_error` stands for the ValueError, KeyError and TypeError that main reports as one.
pub data RestoreError : Type 0 where
  of_config : BackupError → RestoreError
  of_tree : TreeError → RestoreError
  value_error bad_selector ambiguous too_large bad_manifest : RestoreError
  not_full_id shared_ancestor target_exists overlaps_live inside_repository inside_live :
      RestoreError
  missing_include no_summary not_published : RestoreError
  bad_password empty_password already_configured not_empty unavailable : RestoreError
  not_owned source_changed special_file restic_failed os_error : RestoreError

abbrev pub of_result {ℓ} : {A : Type ℓ} → Result BackupError A → Result RestoreError A
of_result (ok a) = ok a
of_result (err e) = err (of_config e)

-- An entry of what `restic snapshots --json` lists.
pub record Snapshot : Type 0 where
  pub id : Text
  pub time : Text
  pub tags : List Text

abbrev pub pending : Text
pending = codes "rougarou-pending-v1"

abbrev pub completed : Text
completed = codes "rougarou-operator-v1"

abbrev pub is_listed : Snapshot → Bool
is_listed s = not (has_text pending s.tags)

-- `values` is what restic lists for the tag of completed backups.
unfoldable pub snapshots : List Snapshot → List Snapshot
snapshots values = select is_listed values

-- Python's order of texts
unfoldable pub text_leb : Text → Text → Bool
text_leb [] t = true
text_leb (c ∷ s) [] = false
text_leb (c ∷ s) (x ∷ t) = if c == x then text_leb s t else leb c x

-- `(s["time"], s["id"]) <= (t["time"], t["id"])`
abbrev pub not_after : Snapshot → Snapshot → Bool
not_after s t = if same_text s.time t.time then text_leb s.id t.id else text_leb s.time t.time

-- `values[-1:]`
abbrev pub last_of : List Snapshot → List Snapshot
last_of [] = []
last_of (s ∷ []) = s ∷ []
last_of (s ∷ t ∷ rest) = last_of (t ∷ rest)

-- `[0-9a-f]{8,64}`
abbrev pub is_selector : Text → Bool
is_selector t =
    leb 8 (length t)
    && leb (length t) 64
    && all (λ c. (leb 48 c && leb c 57) || (leb 97 c && leb c 102)) t

abbrev pub matching : Text → List Snapshot → Result RestoreError (List Snapshot)
matching selector values =
    if same_text selector (codes "latest") then ok (last_of (order_by not_after values)) else (do
      demand (is_selector selector) bad_selector
      ok (select (λ s. begins selector s.id) values))

abbrev pub the_one : List Snapshot → Result RestoreError Snapshot
the_one (s ∷ []) = ok s
the_one _ = err ambiguous

unfoldable pub snapshot : List Snapshot → Text → Result RestoreError Snapshot
snapshot values selector = do matches ← matching selector (snapshots values); the_one matches

-- What the capsule's manifest says.
pub record Manifest : Type 0 where
  pub home : PurePath
  pub config_root : PurePath
  pub state_root : PurePath
  pub includes : List PurePath
  pub queue : Dict

abbrev list_at : Option Json → Result RestoreError (List Json)
list_at (some (array js)) = ok (elements js)
list_at _ = err bad_manifest

abbrev dict_at : Option Json → Result RestoreError Dict
dict_at (some (object ms)) = ok (members ms)
dict_at _ = err bad_manifest

abbrev is_first_version : Option Json → Bool
is_first_version none = false
is_first_version (some j) = equals_one j

abbrev path_at : Text → Dict → Result RestoreError PurePath
path_at key d = at (lookup key d)
  where
    at : Option Json → Result RestoreError PurePath
    at none = err value_error
    at (some j) = of_result (absolute j)

abbrev pub manifest_of : Dict → Result RestoreError Manifest
manifest_of d = do
  demand (is_first_version (lookup (codes "schema_version") d)) bad_manifest
  listed ← list_at (lookup (codes "includes") d)
  queue ← dict_at (lookup (codes "queue") d)
  home ← path_at (codes "home") d
  config_root ← path_at (codes "config_root") d
  state_root ← path_at (codes "state_root") d
  includes ← of_result (absolutes listed)
  ok (record {
    home = home;
    config_root = config_root;
    state_root = state_root;
    includes = includes;
    queue = queue;
  })

abbrev object_of : Option Json → Result RestoreError Dict
object_of (some (object ms)) = ok (members ms)
object_of (some _) = err bad_manifest
object_of none = err value_error

-- `dumped` is what restic gives out for the manifest, and `json_of` is `json.loads` on it.
unfoldable pub read_manifest :
    (List ℕ → Option Json) → Result RestoreError (List ℕ) → Result RestoreError Manifest
read_manifest json_of dumped = do
  bytes ← dumped
  demand (leb (length bytes) 1048576) too_large
  d ← object_of (json_of bytes)
  manifest_of d

-- What a backup leaves out.
abbrev pub excluded : Places → Config → List PurePath
excluded places config =
    config.password_file ∷ places.staging_root ∷ places.recovery_root ∷ places.config_dir
    ∷ places.state_dir ∷ config.restores

-- The code points that restic's patterns read as more than themselves: \ * ? [ ]
abbrev is_special : ℕ → Bool
is_special c = (c == 92) || (c == 42) || (c == 63) || (c == 91) || (c == 93)

unfoldable pub escaped : Text → Text
escaped [] = []
escaped (c ∷ t) = let rest = escaped t in if is_special c then 92 ∷ c ∷ rest else c ∷ rest

abbrev pub literal_pattern : PurePath → Text
literal_pattern path = escaped (path_text path)
