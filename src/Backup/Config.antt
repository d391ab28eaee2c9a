-- ===== src/Backup/Config.antt =====
-- `absolute`, `components` and `validate_config` of rootfs/usr/lib/rougarou/backup.py: where a backup
-- may be kept and what may be in it.
pub mod Apart
mod Tests
use rougarou_os.Base.{
  ℕ, Bool, true, false, not, ◌&&◌, ◌||◌, Option, none, some, List, [], ◌∷◌, ◌++◌, codes, Result, ok,
  err, Text, has_text, is_empty, any, PurePath, path_of, is_absolute, goes_up, is_relative_to,
  same_path, one_slash, if◌then◌else◌,
}
use rougarou_os.Base.Json.{
  Json, text, array, object, elements, members, Dict, lookup, has_keys, equals_one,
}
use rougarou_os.Base.Results.{◌>>=◌, ◌>>◌, demand}
use rougarou_os.Cli.Provider.{is_control}
use rougarou_os.Backup.Tree.{capsule, restore_reserved}

-- `index_error` is Python's, for a path of no part behind its root.
pub data BackupError : Type 0 where
  bad_path relative_path symlink_path unsupported : BackupError
  password_inside not_separate forbidden_tree repository_inside staging_inside reserved_name :
      BackupError
  index_error : BackupError

-- The program's own directories, and which paths are symbolic links.
pub record Places : Type 0 where
  pub config_dir : PurePath
  pub state_dir : PurePath
  pub staging_root : PurePath
  pub recovery_root : PurePath
  pub is_symlink : PurePath → Bool

abbrev checked_path : PurePath → Result BackupError PurePath
checked_path p = do demand (is_absolute p && not (goes_up p)) relative_path; ok p

unfoldable pub absolute : Json → Result BackupError PurePath
absolute (text t) = do
  demand (not (is_empty t || any is_control t)) bad_path
  checked_path (path_of t)
absolute _ = err bad_path

-- `(path, *path.parents)`, from the root on
unfoldable pub parents_from : List Text → List Text → List (List Text)
parents_from done [] = done ∷ []
parents_from done (x ∷ xs) = done ∷ parents_from (done ++ x ∷ []) xs

abbrev pub components : Places → PurePath → Result BackupError (Unit {0})
components places p =
    demand
      (not
        (any (λ parts. places.is_symlink (record p { parts = parts })) (parents_from [] p.parts)))
      symlink_path

unfoldable pub absolutes : List Json → Result BackupError (List PurePath)
absolutes [] = ok []
absolutes (j ∷ js) = do p ← absolute j; ps ← absolutes js; ok (p ∷ ps)

abbrev pub list_at : Option Json → Result BackupError (List Json)
list_at (some (array js)) = ok (elements js)
list_at _ = err unsupported

abbrev pub value_at : Option Json → Result BackupError Json
value_at none = err unsupported
value_at (some j) = ok j

abbrev pub is_one : Option Json → Bool
is_one none = false
is_one (some j) = equals_one j

abbrev pub config_keys : List Text
config_keys =
    codes "schema_version"
    ∷ codes "repository"
    ∷ codes "password_file"
    ∷ codes "includes"
    ∷ codes "restores"
    ∷ []

abbrev pub own_roots : Places → List PurePath
own_roots places =
    places.config_dir ∷ places.state_dir ∷ places.staging_root ∷ places.recovery_root ∷ []

-- Neither lies in the other.
abbrev pub overlaps : PurePath → PurePath → Bool
overlaps p q = is_relative_to p q || is_relative_to q p

abbrev pub top : Text → PurePath
top name = record { root = one_slash; parts = name ∷ [] }

abbrev pub root_only : PurePath
root_only = record { root = one_slash; parts = [] }

abbrev pub is_forbidden : PurePath → Bool
is_forbidden p =
    same_path p root_only
    || any (is_relative_to p)
        (top (codes "proc") ∷ top (codes "sys") ∷ top (codes "dev") ∷ top (codes "run") ∷ [])

abbrev pub is_own : Places → PurePath → Bool
is_own places p = overlaps p places.staging_root || is_relative_to p places.recovery_root

-- `path.parts[1]`, the root being the first part of an absolute path
abbrev pub first_name : List Text → Result BackupError Text
first_name [] = err index_error
first_name (x ∷ xs) = ok x

abbrev pub check_include : Places → PurePath → PurePath → Result BackupError (Unit {0})
check_include places repository p = do
  demand (not (is_forbidden p)) forbidden_tree
  demand (not (overlaps repository p)) repository_inside
  demand (not (is_own places p)) staging_inside
  first ← first_name p.parts
  demand (not (has_text first (capsule ∷ restore_reserved))) reserved_name

unfoldable pub check_includes : Places → PurePath → List PurePath → Result BackupError (Unit {0})
check_includes places repository [] = ok tt
check_includes places repository (p ∷ ps) = do
  check_include places repository p
  check_includes places repository ps

pub record Config : Type 0 where
  pub repository : PurePath
  pub password_file : PurePath
  pub includes : List PurePath
  pub restores : List PurePath

abbrev pub location : Places → Json → Result BackupError PurePath
location places j = do p ← absolute j; components places p; ok p

abbrev pub check_config : Places → Dict → Result BackupError Config
check_config places d = do
  demand (has_keys config_keys d && is_one (lookup (codes "schema_version") d)) unsupported
  includes ← list_at (lookup (codes "includes") d)
  restores ← list_at (lookup (codes "restores") d)
  repository_text ← value_at (lookup (codes "repository") d)
  repository ← location places repository_text
  password_text ← value_at (lookup (codes "password_file") d)
  password_file ← location places password_text
  included ← absolutes includes
  restored ← absolutes restores
  demand (not (is_relative_to password_file repository)) password_inside
  demand (not (any (overlaps repository) (own_roots places))) not_separate
  check_includes places repository included
  ok (record {
    repository = repository;
    password_file = password_file;
    includes = included;
    restores = restored;
  })

-- What is returned stands for the argument, read.
unfoldable pub validate_config : Places → Json → Result BackupError Config
validate_config places (object ms) = check_config places (members ms)
validate_config places _ = err unsupported
