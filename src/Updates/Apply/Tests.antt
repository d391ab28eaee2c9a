-- ===== src/Updates/Apply/Tests.antt =====
-- An update by `apply` of rootfs/usr/lib/rougarou/updates.py, and the theorems at it.
use rougarou_os.Base.{
  ◌≡◌, refl, true, false, none, some, [], ◌∷◌, ◌++◌, Result, ok, Text, codes, all, begins,
  same_text, ℕ,
}
use rougarou_os.Base.Dicts.{span, value_at}
use rougarou_os.Base.Lines.{split_lines, words, strip}
use rougarou_os.Updates.Operations.{UpdateError, after_prefix, inst_match, read_lines, operations}
use rougarou_os.Updates.Apply.{
  Plan, Row, complete, ResultFile, Machine, written, Archive, Present, Answers, simulate, download,
  simulate_local, install, mark_auto, row_of, set_row, text_before, insert_text, sorted,
  put_archive, by_key, archive_for, local_files, assert_before, review, carry_out, apply,
}

abbrev sixty_four : ℕ → Text
sixty_four c = sixteen ++ sixteen ++ sixteen ++ sixteen
  where
    four : Text
    four = c ∷ c ∷ c ∷ c ∷ []

    sixteen : Text
    sixteen = four ++ four ++ four ++ four

abbrev row : Text → Row
row v = record {
  version = v;
  architecture = codes "amd64";
  status = codes "installed";
  want = codes "install";
}

abbrev plan : Plan
plan = record {
  plan_id = sixty_four 97;
  packages =
      record {
        name = codes "bash";
        old_version = some (codes "5.1");
        version = codes "5.2";
        architecture = codes "amd64";
        sha256 = codes "ab";
        size = 7;
      }
      ∷ [];
  machine_id_sha256 = codes "m";
  policy_sha256 = codes "p";
  valid_until = 100;
  reboot_may_be_needed = false;
}

abbrev archive : Archive
archive = record {
  package_name = codes "bash";
  version = codes "5.2";
  architecture = codes "amd64";
  sha256 = codes "ab";
  size = 7;
  path = codes "/a/bash.deb";
}

abbrev now : Present
now = record {
  machine_id_sha256 = codes "m";
  inventory = (codes "bash", row (codes "5.1")) ∷ [];
  automatic = codes "libc6" ∷ [];
  now = 50;
  policy_sha256 = codes "p";
}

abbrev answers : Answers
answers = record {
  plan = ok plan;
  current = ok tt;
  made = ok tt;
  private = ok tt;
  inventory = ok ((codes "bash", row (codes "5.1")) ∷ []);
  automatic = ok (codes "libc6" ∷ []);
  started_at = 40;
  before_stored = written;
  synced = ok tt;
  boot_id = ok (codes "b");
  started_stored = written;
  prepared = ok tt;
  simulated = ok (codes "Inst bash [5.1] (5.2 Rougarou [amd64])\nConf bash (5.2)\n");
  downloaded = ok tt;
  archives = ok (archive ∷ []);
  planned_again = ok plan;
  emptied = ok tt;
  simulated_local = ok (codes "Inst bash [5.1] (5.2 local [amd64])\n");
  present = ok now;
  installed = ok tt;
  marked = ok tt;
  automatic_after = ok (codes "libc6" ∷ []);
  inventory_after = ok ((codes "bash", row (codes "5.2")) ∷ []);
  audit = ok (codes "\n");
  after_stored = written;
  finished_at = 60;
  reboot_required = false;
  inventory_failed = ok [];
  result_stored = written;
  status_stored = written;
}

abbrev fresh : Machine
fresh = record {
  directory = false;
  before = none;
  after = none;
  result = none;
  status = none;
  commands = [];
}

outcome : Answers → Result UpdateError ResultFile × Machine
unfolding apply review carry_out assert_before operations read_lines inst_match span after_prefix
    value_at split_lines words strip all begins same_text row_of set_row text_before insert_text
    sorted put_archive by_key archive_for local_files
outcome a = apply a (sixty_four 97) (codes "snapshot 3") true fresh

abbrev file : ResultFile
file = record {
  plan_id = sixty_four 97;
  status = complete;
  started_at = 40;
  boot_id = codes "b";
  finished_at = some 60;
  package_count = 1;
  reboot_may_be_needed = false;
  reboot_required_now = some false;
}

commands_lem :
    (outcome answers).1.commands
    ≡ simulate (codes "bash=5.2" ∷ [])
      ∷ download (codes "bash=5.2" ∷ [])
      ∷ simulate_local (codes "/a/bash.deb" ∷ [])
      ∷ install (codes "/a/bash.deb" ∷ [])
      ∷ mark_auto (codes "libc6" ∷ [])
      ∷ []
unfolding outcome
commands_lem = refl
