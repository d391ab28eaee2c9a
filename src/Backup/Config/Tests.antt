-- ===== src/Backup/Config/Tests.antt =====
-- Configurations of rootfs/usr/lib/rougarou/backup.py, and the theorem at one.
use rougarou_os.Base.{
  ◌≡◌, refl, pos, false, [], ◌∷◌, String, Result, ok, err, codes, any, all, select, same_text,
  has_text, split_on, path_of, PurePath, are_prefix,
}
use rougarou_os.Base.Json.{
  Json, text, whole, array, object, no_elements, element, no_members, member, lookup, keys_in,
}
use rougarou_os.Backup.Config.{
  BackupError, index_error, forbidden_tree, Places, absolute, parents_from, absolutes,
  check_includes, Config, validate_config,
}
use rougarou_os.Backup.Config.Apart.{IsApart, validate_config_lem}

at : String → PurePath
unfolding path_of split_on select same_text
at s = path_of (codes s)

abbrev places : Places
places = record {
  config_dir = at "/home/op/.config/rougarou";
  state_dir = at "/home/op/.local/state/rougarou";
  staging_root = at "/var/tmp/rougarou-backup-1000";
  recovery_root = at "/home/op/Rougarou-Recovery";
  is_symlink = λ p. false;
}

abbrev config_with : String → Json
config_with include = object (
    member (codes "schema_version") (whole (pos 1)) (
      member (codes "repository") (text (codes "/mnt/disk/repo")) (
        member (codes "password_file") (text (codes "/home/op/secret")) (
          member (codes "includes") (array (element (text (codes include)) no_elements))
            (member (codes "restores") (array no_elements) no_members)))))

validated : String → Result BackupError Config
unfolding validate_config absolute absolutes parents_from check_includes lookup keys_in any all
    path_of split_on select same_text has_text are_prefix at
validated include = validate_config places (config_with include)

abbrev accepted : String → Config
accepted include = record {
  repository = at "/mnt/disk/repo";
  password_file = at "/home/op/secret";
  includes = at include ∷ [];
  restores = [];
}

site_lem : validated "/srv/site" ≡ ok (accepted "/srv/site")
unfolding validated
site_lem = refl

proc_lem : validated "/proc/1" ≡ err forbidden_tree
unfolding validated
proc_lem = refl

-- Two leading slashes are a root of their own, so that this is no path in `/proc` for the test.
two_slashes_lem :
    (validated "//proc/1" ≡ ok (accepted "//proc/1")) × (validated "//" ≡ err index_error)
unfolding validated
two_slashes_lem = (refl, refl)

validate_config_lem_example : IsApart places (accepted "/srv/site")
unfolding validated
validate_config_lem_example =
    validate_config_lem places (config_with "/srv/site") (accepted "/srv/site") site_lem
