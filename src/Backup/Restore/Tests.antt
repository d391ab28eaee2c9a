-- ===== src/Backup/Restore/Tests.antt =====
-- A restore of rootfs/usr/lib/rougarou/backup.py, previewed and applied.
use rougarou_os.Base.{
  ◌≡◌, refl, pos, true, false, Option, none, some, List, [], ◌∷◌, String, Result, ok, err, codes,
  Post, any, all, begins, select, same_text, split_on, path_of, path_text, join, PurePath,
  one_slash, are_prefix, is_empty, if◌then◌else◌, ◌++◌, insert, order_by, has_text, init,
}
use rougarou_os.Base.Json.{
  Json, text, whole, array, object, no_elements, element, no_members, member, Dict, lookup, keys_in,
  put,
}
use rougarou_os.Backup.Config.{
  Places, Config, absolute, absolutes, parents_from, check_includes, validate_config,
}
use rougarou_os.Backup.Tree.{validate_tree, check_nodes}
use rougarou_os.Backup.Snapshots.{
  RestoreError, ambiguous, restic_failed, Snapshot, snapshots, text_leb, snapshot, read_manifest,
}
use rougarou_os.Backup.Restore.{
  Effect, make_directory, save_config, run_restic, write_note, Machine, Info, restore, review,
  check_target, restore_parents, missing_from, make_all, distinct, save_valid, apply_plan,
}
use rougarou_os.Backup.Restore.Reviewed.{IsMarked}
use rougarou_os.Backup.Restore.Staged.{IsStaged, Place, restore_lem}

abbrev top : String → PurePath
top s = record { root = one_slash; parts = codes s ∷ [] }

abbrev places : Places
places = record {
  config_dir = top "conf";
  state_dir = top "state";
  staging_root = top "stage";
  recovery_root = top "recovery";
  is_symlink = λ p. false;
}

abbrev found : Snapshot
found = record { id = codes "0123456789abcdef"; time = codes "2026"; tags = [] }

abbrev later : Snapshot
later = record {
  id = codes "0123456789000000";
  time = codes "2027";
  tags = codes "rougarou-pending-v1" ∷ [];
}

abbrev manifest : Json
manifest = object (
    member (codes "schema_version") (whole (pos 1)) (
      member (codes "includes") (array no_elements) (
        member (codes "queue") (object no_members) (
          member (codes "home") (text (codes "/home")) (
            member (codes "config_root") (text (codes "/conf"))
              (member (codes "state_root") (text (codes "/state")) no_members))))))

abbrev config : Config
config = record {
  repository = top "repo";
  password_file = top "secret";
  includes = [];
  restores = [];
}

abbrev dict : Dict
dict =
    (codes "schema_version", whole (pos 1))
    ∷ (codes "repository", text (codes "/repo"))
    ∷ (codes "password_file", text (codes "/secret"))
    ∷ (codes "includes", array no_elements)
    ∷ (codes "restores", array no_elements)
    ∷ []

abbrev at_root : PurePath → Option Info
at_root p = if is_empty p.parts then some (record { owner = 0; mode = 493 }) else none

-- Restic's list of files and its answers are those that are given.
machine : (Effect → Result RestoreError (Unit {0})) → Machine
machine answer = record {
  places = places;
  home = top "home";
  user = 1000;
  info = at_root;
  listed = later ∷ found ∷ [];
  dumped = λ id. ok [];
  json_of = λ bytes. some manifest;
  lines = [];
  reader = λ p. ok [];
  stamp = codes "20260101T000000Z";
  answer = answer;
  prepared = 0;
}

restore_lem_example :
    Post
      (IsStaged (machine (λ e. ok tt)) config dict (codes "0123456789abcdef") none true)
      (IsMarked (Place (machine (λ e. ok tt)) config (codes "0123456789abcdef") none true))
      (restore (machine (λ e. ok tt)) config dict (codes "0123456789abcdef") none true [])
restore_lem_example =
    restore_lem (machine (λ e. ok tt)) config dict (codes "0123456789abcdef") none true

chosen : String → Result RestoreError Snapshot
unfolding snapshot snapshots text_leb order_by insert select begins has_text same_text all
chosen selector = snapshot (found ∷ later ∷ []) (codes selector)

chosen_lem :
    (chosen "latest" ≡ ok found)
    × (chosen "01234567" ≡ ok found)
    × (chosen "0123456789000000" ≡ err ambiguous)
unfolding chosen
chosen_lem = (refl, refl, refl)

effects : (Effect → Result RestoreError (Unit {0})) → List Effect
unfolding restore review check_target restore_parents missing_from make_all distinct save_valid
    apply_plan validate_config check_includes absolute absolutes parents_from read_manifest
    validate_tree check_nodes put lookup keys_in path_of path_text join split_on are_prefix init any
    chosen machine
effects answer = (restore (machine answer) config dict (codes "0123456789abcdef") none true []).1

abbrev fails_at : Effect → Result RestoreError (Unit {0})
fails_at (run_restic id p) = err restic_failed
fails_at e = ok tt

abbrev place : PurePath
place = record {
  root = one_slash;
  parts = codes "recovery" ∷ codes "20260101T000000Z-01234567" ∷ [];
}

-- What comes before restic, and the marker behind it when it fails.
failed_lem :
    effects fails_at
    ≡ make_directory (top "recovery")
      ∷ make_directory place
      ∷ save_config
          (put (codes "restores") (array (element (text (path_text place)) no_elements)) dict)
      ∷ run_restic (codes "0123456789abcdef") place
      ∷ write_note (record place { parts = place.parts ++ codes "RESTORE_INCOMPLETE" ∷ [] })
      ∷ []
unfolding effects
failed_lem = refl
