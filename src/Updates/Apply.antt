-- ===== src/Updates/Apply.antt =====
-- `Updates.apply` and `Updates.assert_before` of rootfs/usr/lib/rougarou/updates.py: an update from
-- its reviewed plan to the report of what became of it.
pub mod Reviewed
pub mod Report
mod Inventories
pub mod Complete
mod Tests
use rougarou_os.Base.{
  ℕ, Bool, true, false, not, ◌&&◌, ◌||◌, Option, none, some, List, [], ◌∷◌, ◌++◌, map, ◌==◌, leb,
  ltb, length, codes, Exec, Result, ok, err, pure, gets, modify, lift, require, ◌>>=◌, ◌>>◌, Text,
  same_text, has_text, is_empty, all, is_none, is_some, if◌then◌else◌,
}
use rougarou_os.Base.Dicts.{Table}
use rougarou_os.Base.Lines.{strip}
use rougarou_os.Updates.Operations.{
  UpdateError, unconfirmed, bad_plan_id, bad_recovery_point, plan_changed, no_updates,
  simulation_differs, not_downloaded, bytes_differ, unreviewed_archive, changed_during_download,
  local_simulation_differs, state_changed, marks_changed, plan_expired, policy_changed,
  marks_differ, inventory_differs, incomplete, operations, same_table,
}

pub record Package : Type 0 where
  pub name : Text
  pub old_version : Option Text
  pub version : Text
  pub architecture : Text
  pub sha256 : Text
  pub size : ℕ

pub record Plan : Type 0 where
  pub plan_id : Text
  pub packages : List Package
  pub machine_id_sha256 : Text
  pub policy_sha256 : Text
  pub valid_until : ℕ
  pub reboot_may_be_needed : Bool

-- A row of dpkg's inventory.
pub record Row : Type 0 where
  pub version : Text
  pub architecture : Text
  pub status : Text
  pub want : Text

abbrev pub Inventory : Type 0
Inventory = List (Text × Row)

-- How `write_json` ends: it wrote the file, it raised before it replaced it, or it raised when the
-- file was in its place, before the directory was synced.
pub data Write : Type 0 where
  written : Write
  unwritten unsynced : UpdateError → Write

-- `before.json`
pub record Before : Type 0 where
  pub plan : Plan
  pub inventory : Inventory
  pub automatic_before : List Text
  pub started_at : ℕ
  pub reference : Text

pub data Status : Type 0 where
  started complete failed was_interrupted : Status

-- `result.json`, which `status.json` repeats
pub record ResultFile : Type 0 where
  pub plan_id : Text
  pub status : Status
  pub started_at : ℕ
  pub boot_id : Text
  pub finished_at : Option ℕ
  pub package_count : ℕ
  pub reboot_may_be_needed : Bool
  pub reboot_required_now : Option Bool

-- The commands that change something or that say what would change.
pub data Command : Type 0 where
  simulate download simulate_local install mark_auto : List Text → Command

-- What the transaction leaves behind.
pub record Machine : Type 0 where
  pub directory : Bool
  pub before : Option Before
  pub after : Option Inventory
  pub result : Option ResultFile
  pub status : Option ResultFile
  pub commands : List Command

-- A downloaded archive: what `dpkg-deb` says of it, and its bytes.
pub record Archive : Type 0 where
  pub package_name : Text
  pub version : Text
  pub architecture : Text
  pub sha256 : Text
  pub size : ℕ
  pub path : Text

-- What `assert_before` reads again.
pub record Present : Type 0 where
  pub machine_id_sha256 : Text
  pub inventory : Inventory
  pub automatic : List Text
  pub now : ℕ
  pub policy_sha256 : Text

-- What the calls of other programs and of the other operations answer, in the order of the calls.
pub record Answers : Type 0 where
  pub plan : Result UpdateError Plan
  pub current : Result UpdateError (Unit {0})
  pub made : Result UpdateError (Unit {0})
  pub private : Result UpdateError (Unit {0})
  pub inventory : Result UpdateError Inventory
  pub automatic : Result UpdateError (List Text)
  pub started_at : ℕ
  pub before_stored : Write
  pub synced : Result UpdateError (Unit {0})
  pub boot_id : Result UpdateError Text
  pub started_stored : Write
  pub prepared : Result UpdateError (Unit {0})
  pub simulated : Result UpdateError Text
  pub downloaded : Result UpdateError (Unit {0})
  pub archives : Result UpdateError (List Archive)
  pub planned_again : Result UpdateError Plan
  pub emptied : Result UpdateError (Unit {0})
  pub simulated_local : Result UpdateError Text
  pub present : Result UpdateError Present
  pub installed : Result UpdateError (Unit {0})
  pub marked : Result UpdateError (Unit {0})
  pub automatic_after : Result UpdateError (List Text)
  pub inventory_after : Result UpdateError Inventory
  pub audit : Result UpdateError Text
  pub after_stored : Write
  pub finished_at : ℕ
  pub reboot_required : Bool
  pub inventory_failed : Result UpdateError Inventory
  pub result_stored : Write
  pub status_stored : Write

abbrev pub Act : Type 0 → Type 0
Act A = Exec Machine UpdateError A

-- `write_json`
abbrev pub store : Write → (Machine → Machine) → Act (Unit {0})
store written f m = (ok tt, f m)
store (unwritten e) f m = (err e, m)
store (unsynced e) f m = (err e, f m)

abbrev is_hex : ℕ → Bool
is_hex c = (leb 48 c && leb c 57) || (leb 97 c && leb c 102)

abbrev pub is_plan_id : Text → Bool
is_plan_id t = length t == 64 && all is_hex t

abbrev pub is_reference : Text → Bool
is_reference t = leb 1 (length t) && leb (length t) 512 && all (λ c. leb 32 c && ltb c 127) t

unfoldable pub row_of : Text → Inventory → Option Row
row_of k [] = none
row_of k ((l, r) ∷ rest) = if same_text l k then some r else row_of k rest

-- `inventory[name] = row`
unfoldable pub set_row : Text → Row → Inventory → Inventory
set_row k r [] = (k, r) ∷ []
set_row k r ((l, q) ∷ rest) =
    let rest' = set_row k r rest in if same_text l k then (l, r) ∷ rest else (l, q) ∷ rest'

abbrev pub same_row : Row → Row → Bool
same_row a b =
    same_text a.version b.version
    && same_text a.architecture b.architecture
    && same_text a.status b.status
    && same_text a.want b.want

abbrev pub is_row : Row → Option Row → Bool
is_row r none = false
is_row r (some q) = same_row r q

-- `a == b`, for two dictionaries of rows
abbrev pub same_inventory : Inventory → Inventory → Bool
same_inventory a b =
    all (λ e. is_row e.1 (row_of e.0 b)) a && all (λ e. is_row e.1 (row_of e.0 a)) b

abbrev pub same_texts : List Text → List Text → Bool
same_texts [] [] = true
same_texts (x ∷ xs) (y ∷ ys) = same_text x y && same_texts xs ys
same_texts _ _ = false

-- The order of Python's texts, code point by code point.
unfoldable pub text_before : Text → Text → Bool
text_before [] t = true
text_before (x ∷ s) [] = false
text_before (x ∷ s) (y ∷ t) = ltb x y || (x == y && text_before s t)

unfoldable pub insert_text : Text → List Text → List Text
insert_text t [] = t ∷ []
insert_text t (x ∷ xs) =
    let rest = insert_text t xs in
    if same_text t x then x ∷ xs else if text_before t x then t ∷ x ∷ xs else x ∷ rest

-- `sorted(set(texts))`
unfoldable pub sorted : List Text → List Text
unfolding insert_text
sorted [] = []
sorted (t ∷ ts) = insert_text t (sorted ts)

abbrev pub exact : List Package → List Text
exact ps = map (λ p. p.name ++ codes "=" ++ p.version) ps

-- `{p['name']: p['version'] for p in packages}`, whose names are different
abbrev pub expected : List Package → Table
expected ps = map (λ p. (p.name, p.version)) ps

abbrev is_archive_of : Package → Archive → Bool
is_archive_of p a =
    same_text a.package_name p.name
    && same_text a.version p.version
    && same_text a.architecture p.architecture

abbrev same_key : Archive → Archive → Bool
same_key a b =
    same_text a.package_name b.package_name
    && same_text a.version b.version
    && same_text a.architecture b.architecture

-- `archives[key] = path`, for each file that is found
unfoldable pub put_archive : Archive → List Archive → List Archive
put_archive a [] = a ∷ []
put_archive a (b ∷ bs) = let rest = put_archive a bs in if same_key a b then a ∷ bs else b ∷ rest

unfoldable pub by_key : List Archive → List Archive → List Archive
by_key [] known = known
by_key (a ∷ found) known = by_key found (put_archive a known)

unfoldable pub archive_for : Package → List Archive → Option Archive
archive_for p [] = none
archive_for p (a ∷ found) = if is_archive_of p a then some a else archive_for p found

abbrev has_bytes : Package → Archive → Bool
has_bytes p a = same_text a.sha256 p.sha256 && a.size == p.size

abbrev pub check_archive : Package → Option Archive → Result UpdateError Text
check_archive p none = err not_downloaded
check_archive p (some a) = if has_bytes p a then ok a.path else err bytes_differ

abbrev paths_after : Text → Result UpdateError (List Text) → Result UpdateError (List Text)
paths_after path (ok paths) = ok (path ∷ paths)
paths_after path (err e) = err e

abbrev path_then :
    Result UpdateError Text → Result UpdateError (List Text) → Result UpdateError (List Text)
path_then (ok path) rest = paths_after path rest
path_then (err e) rest = err e

-- The files of the reviewed packages.
unfoldable pub local_files : List Package → List Archive → Result UpdateError (List Text)
local_files [] found = ok []
local_files (p ∷ ps) found =
    path_then (check_archive p (archive_for p found)) (local_files ps found)

abbrev pub run : Command → Act (Unit {0})
run c = modify λ m. record m { commands = m.commands ++ c ∷ [] }

unfoldable pub assert_before : Before → Present → Act (Unit {0})
assert_before before now = do
  require
      (same_text now.machine_id_sha256 before.plan.machine_id_sha256
        && same_inventory now.inventory before.inventory)
      state_changed
  require (same_texts now.automatic before.automatic_before) marks_changed
  require (ltb now.now before.plan.valid_until) plan_expired
  require (same_text now.policy_sha256 before.plan.policy_sha256) policy_changed

-- From the start of the transaction to the files that are to be installed.
unfoldable pub review : Answers → Before → Act (List Text)
review a before = do
  let plan = before.plan
  lift a.prepared
  run (simulate (exact plan.packages))
  output ← lift a.simulated
  would ← lift (operations output)
  require (same_table would (expected plan.packages)) simulation_differs
  run (download (exact plan.packages))
  lift a.downloaded
  found ← lift a.archives
  files ← lift (local_files plan.packages (by_key found []))
  require (length (by_key found []) == length files) unreviewed_archive
  again ← lift a.planned_again
  require (same_text again.plan_id plan.plan_id) changed_during_download
  lift a.emptied
  run (simulate_local files)
  local_output ← lift a.simulated_local
  would_locally ← lift (operations local_output)
  require (same_table would_locally (expected plan.packages)) local_simulation_differs
  now ← lift a.present
  assert_before before now
  pure files

abbrev pub new_names : List Package → List Text
new_names [] = []
new_names (p ∷ ps) = if is_none p.old_version then p.name ∷ new_names ps else new_names ps

abbrev pub installed_row : Package → Row
installed_row p = record {
  version = p.version;
  architecture = p.architecture;
  status = codes "installed";
  want = codes "install";
}

abbrev pub expected_inventory : List Package → Inventory → Inventory
expected_inventory [] inventory = inventory
expected_inventory (p ∷ ps) inventory =
    expected_inventory ps (set_row p.name (installed_row p) inventory)

abbrev pub mark : Answers → List Text → Act (Unit {0})
mark a [] = pure tt
mark a (n ∷ ns) = do run (mark_auto (n ∷ ns)); lift a.marked

-- From the installation to the inventory that it leaves.
unfoldable pub carry_out : Answers → Before → List Text → Act (Unit {0})
carry_out a before files = do
  run (install files)
  lift a.installed
  let automatic = sorted (before.automatic_before ++ new_names before.plan.packages)
  mark a automatic
  marks ← lift a.automatic_after
  require (same_texts marks automatic) marks_differ
  after ← lift a.inventory_after
  require (same_inventory after (expected_inventory before.plan.packages before.inventory))
      inventory_differs
  audit ← lift a.audit
  require (is_empty (strip audit)) incomplete
  store a.after_stored λ m. record m { after = some after }

abbrev pub transact : Answers → Before → Act (Unit {0})
transact a before = do files ← review a before; carry_out a before files

-- `finally`
abbrev pub write_result : Answers → ResultFile → Result UpdateError ResultFile → Act ResultFile
write_result a r outcome = do
  store a.result_stored λ m. record m { result = some r }
  store a.status_stored λ m. record m { status = some r }
  lift outcome

abbrev pub status_of : UpdateError → Status
status_of UpdateError.interrupted = was_interrupted
status_of _ = failed

abbrev pub note_inventory : Result UpdateError Inventory → Machine → Machine
note_inventory (ok i) m = record m { after = some i }
note_inventory (err e) m = m

abbrev pub settle :
    Answers
    → ResultFile
    → Result UpdateError (Unit {0}) × Machine
    → Result UpdateError ResultFile × Machine
settle a r (ok _, m) =
    let r' = record r {
      status = complete;
      finished_at = some a.finished_at;
      reboot_required_now = some a.reboot_required;
    } in
    write_result a r' (ok r') m
settle a r (err e, m) =
    let r' = record r { status = status_of e; finished_at = some a.finished_at } in
    write_result a r' (err e) (note_inventory a.inventory_failed m)

abbrev pub first_report : Before → Text → ResultFile
first_report before boot_id = record {
  plan_id = before.plan.plan_id;
  status = started;
  started_at = before.started_at;
  boot_id = boot_id;
  finished_at = none;
  package_count = length before.plan.packages;
  reboot_may_be_needed = before.plan.reboot_may_be_needed;
  reboot_required_now = none;
}

-- The `try` with its `except` and its `finally`
abbrev pub run_transaction : Answers → Before → Text → Act ResultFile
run_transaction a before boot_id m = settle a (first_report before boot_id) (transact a before m)

abbrev pub before_of : Answers → Text → Plan → Inventory → List Text → Before
before_of a recovery_point plan inventory automatic = record {
  plan = plan;
  inventory = inventory;
  automatic_before = automatic;
  started_at = a.started_at;
  reference = recovery_point;
}

-- From `before.json` on.
abbrev pub begin : Answers → Before → Act ResultFile
begin a before = do
  store a.before_stored λ m. record m { before = some before }
  lift a.synced
  boot_id ← lift a.boot_id
  store a.started_stored λ m. record m { status = some (first_report before boot_id) }
  run_transaction a before boot_id

unfoldable pub apply : Answers → Text → Text → Bool → Act ResultFile
apply a plan_id recovery_point confirm = do
  require confirm unconfirmed
  require (is_plan_id plan_id) bad_plan_id
  require (is_reference recovery_point) bad_recovery_point
  plan ← lift a.plan
  require (same_text plan.plan_id plan_id) plan_changed
  require (not (is_empty plan.packages)) no_updates
  lift a.current
  lift a.made
  modify λ m. record m { directory = true }
  lift a.private
  inventory ← lift a.inventory
  automatic ← lift a.automatic
  begin a (before_of a recovery_point plan inventory automatic)
