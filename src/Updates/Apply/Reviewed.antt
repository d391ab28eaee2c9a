-- ===== src/Updates/Apply/Reviewed.antt =====
-- What has been checked when `apply` of rootfs/usr/lib/rougarou/updates.py installs something.
use rougarou_os.Base.{
  ◌≡◌, refl, ◌∙◌, ap, Bool, true, false, ◌&&◌, List, [], ◌==◌, ltb, length, Result, ok, err, lift,
  require, continue, ◌>>=◌, ◌>>◌, Text, same_text, same_text→eq, All, arith, ◌⊎◌, Triple,
}
use rougarou_os.Base.Dicts.{Table}
use mathlib.Core.Path.{subst}
use rougarou_os.Updates.Operations.{
  UpdateError, simulation_differs, unreviewed_archive, changed_during_download,
  local_simulation_differs, state_changed, marks_changed, plan_expired, policy_changed, operations,
  same_table,
}
use rougarou_os.Updates.Apply.{
  Plan, Before, Present, Answers, Machine, Command, install, Act, expected, by_key, local_files,
  same_inventory, same_texts, assert_before, review, is_plan_id, is_reference, Archive,
}

-- What passes of a chain has passed through each part of it.
module _ {A B : Type 0} where
  pub bind-ok :
      (m : Act A) (f : A → Act B) (s : Machine) (b : B)
      → ((m >>= f) s).0 ≡ ok b
      → (a : A) × (t : Machine) × (m s ≡ (ok a, t)) × ((f a t).0 ≡ ok b)
  bind-ok m f s b h = at (m s) refl h
    where
      at :
          (x : Result UpdateError A × Machine)
          → m s ≡ x
          → (continue f x.0 x.1).0 ≡ ok b
          → (a : A) × (t : Machine) × (m s ≡ (ok a, t)) × ((f a t).0 ≡ ok b)
      at (ok a, t) e g = (a, t, e, g)
      at (err x, t) e g = cc

  pub lift-ok :
      (r : Result UpdateError A) (f : A → Act B) (s : Machine) (b : B)
      → ((lift r >>= f) s).0 ≡ ok b
      → (a : A) × (r ≡ ok a) × ((f a s).0 ≡ ok b)
  lift-ok (ok a) f s b h = (a, refl, h)
  lift-ok (err e) f s b h = cc

module _ {B : Type 0} where
  pub require-ok :
      (t : Bool) (e : UpdateError) (n : Act B) (s : Machine) (b : B)
      → ((require t e >> n) s).0 ≡ ok b
      → (t ≡ true) × ((n s).0 ≡ ok b)
  require-ok true e n s b h = (refl, h)
  require-ok false e n s b h = cc

pub require_last :
    (t : Bool) (e : UpdateError) (s : Machine) (u : Unit {0}) → (require t e s).0 ≡ ok u → t ≡ true
require_last true e s u h = refl
require_last false e s u h = cc

pub ok_eq : {A : Type 0} (a b : A) → ◌≡◌ {A = Result UpdateError A} (ok a) (ok b) → a ≡ b
ok_eq a b h = cc

-- The machine, the packages, APT's marks and its policy are those of the reviewed plan, which has not
-- expired.
pub record IsAsBefore (before : Before) (now : Present) : Type 0 where
  pub machine : same_text now.machine_id_sha256 before.plan.machine_id_sha256 ≡ true
  pub inventory : same_inventory now.inventory before.inventory ≡ true
  pub marks : same_texts now.automatic before.automatic_before ≡ true
  pub in_time : ltb now.now before.plan.valid_until ≡ true
  pub policy : same_text now.policy_sha256 before.plan.policy_sha256 ≡ true

-- Two simulations say what the plan says, the files are those of its packages and no other file was
-- downloaded, the plan is the same as before the download, and so is the system.
pub record IsReviewed (a : Answers) (before : Before) (files : List Text) : Type 0 where
  pub output : Text
  pub local_output : Text
  pub would : Table
  pub would_locally : Table
  pub found : List Archive
  pub again : Plan
  pub now : Present
  pub simulated : a.simulated ≡ ok output
  pub read : operations output ≡ ok would
  pub as_planned : same_table would (expected before.plan.packages) ≡ true
  pub downloaded : a.archives ≡ ok found
  pub intact : local_files before.plan.packages (by_key found []) ≡ ok files
  pub no_other : (length (by_key found []) == length files) ≡ true
  pub planned_again : a.planned_again ≡ ok again
  pub same_plan : again.plan_id ≡ before.plan.plan_id
  pub simulated_local : a.simulated_local ≡ ok local_output
  pub read_locally : operations local_output ≡ ok would_locally
  pub as_planned_locally : same_table would_locally (expected before.plan.packages) ≡ true
  pub present : a.present ≡ ok now
  pub as_before : IsAsBefore before now

asserted :
    (before : Before) (now : Present) (s : Machine) (u : Unit {0})
    → (assert_before before now s).0 ≡ ok u
    → IsAsBefore before now
unfolding assert_before
asserted before now s u h =
    let (a, h1) =
      require-ok
        (same_text now.machine_id_sha256 before.plan.machine_id_sha256
          && same_inventory now.inventory before.inventory)
        state_changed _ s u h in
    let (b, h2) =
      require-ok (same_texts now.automatic before.automatic_before) marks_changed _ s u h1 in
    let (c, h3) = require-ok (ltb now.now before.plan.valid_until) plan_expired _ s u h2 in
    let d =
      require_last (same_text now.policy_sha256 before.plan.policy_sha256) policy_changed s u h3 in
    record {
      machine = (ground (arith, a));
      inventory = (ground (arith, a));
      marks = b;
      in_time = c;
      policy = d;
    }

pub review-ok :
    (a : Answers) (before : Before) (s : Machine) (files : List Text)
    → (review a before s).0 ≡ ok files
    → IsReviewed a before files
unfolding review
review-ok a before s files h0 =
    let (_, _, h1) = lift-ok a.prepared _ s files h0 in
    let (output, e1, h2) = lift-ok a.simulated _ _ files h1 in
    let (would, e2, h3) = lift-ok (operations output) _ _ files h2 in
    let (e3, h4) =
      require-ok (same_table would (expected before.plan.packages)) simulation_differs _ _ files
        h3 in
    let (_, _, h5) = lift-ok a.downloaded _ _ files h4 in
    let (found, e4, h6) = lift-ok a.archives _ _ files h5 in
    let (paths, e5, h7) =
      lift-ok (local_files before.plan.packages (by_key found [])) _ _ files h6 in
    let (e6, h8) =
      require-ok (length (by_key found []) == length paths) unreviewed_archive _ _ files h7 in
    let (again, e7, h9) = lift-ok a.planned_again _ _ files h8 in
    let (e8, h10) =
      require-ok (same_text again.plan_id before.plan.plan_id) changed_during_download _ _ files
        h9 in
    let (_, _, h11) = lift-ok a.emptied _ _ files h10 in
    let (local_output, e9, h12) = lift-ok a.simulated_local _ _ files h11 in
    let (would_locally, e10, h13) = lift-ok (operations local_output) _ _ files h12 in
    let (e11, h14) =
      require-ok (same_table would_locally (expected before.plan.packages)) local_simulation_differs
        _ _ files h13 in
    let (now, e12, h15) = lift-ok a.present _ _ files h14 in
    let (u, t, e13, h16) = bind-ok (assert_before before now) _ _ files h15 in
    let q : paths ≡ files = ok_eq paths files h16 in
    record {
      output = output;
      local_output = local_output;
      would = would;
      would_locally = would_locally;
      found = found;
      again = again;
      now = now;
      simulated = e1;
      read = e2;
      as_planned = e3;
      downloaded = e4;
      intact = e5 ∙ ap (λ z. ok z) q;
      no_other = subst (λ z. (length (by_key found []) == length z) ≡ true) q e6;
      planned_again = e7;
      same_plan = same_text→eq again.plan_id before.plan.plan_id e8;
      simulated_local = e9;
      read_locally = e10;
      as_planned_locally = e11;
      present = e12;
      as_before = asserted before now _ u (ap (λ z. z.0) e13);
    }

-- Nothing is installed.
abbrev pub is_install : Command → Bool
is_install (install files) = true
is_install _ = false

abbrev pub Idle : Machine → Type 0
Idle m = All (λ c. is_install c ≡ false) m.commands

record Idles {A : Type 0} (m : Act A) : Type 0 where
  keeps : Triple Idle m (λ _. Idle) Idle

-- Every command that installs, installs these files.
abbrev pub InstallsOnly : List Text → Command → Type 0
InstallsOnly files (install others) = others ≡ files
InstallsOnly files _ = Unit

abbrev pub Installs : List Text → Machine → Type 0
Installs files m = All (InstallsOnly files) m.commands

-- What has been checked of the plan that was given, and of its packages.
pub record IsInstalled (a : Answers) (plan_id reference : Text) (confirm : Bool) (after : Machine)
    : Type 0 where
  pub before : Before
  pub files : List Text
  pub confirmed : confirm ≡ true
  pub named : is_plan_id plan_id ≡ true
  pub recoverable : is_reference reference ≡ true
  pub planned : a.plan ≡ ok before.plan
  pub chosen : before.plan.plan_id ≡ plan_id
  pub inventory : a.inventory ≡ ok before.inventory
  pub marks : a.automatic ≡ ok before.automatic_before
  pub reviewed : IsReviewed a before files
  pub only : Installs files after

-- An operation that runs nothing but the installation of these files, and what installs nothing.
record Limited {A : Type 0} (files : List Text) (m : Act A) : Type 0 where
  keeps : Triple (Installs files) m (λ _. Installs files) (Installs files)

-- The files that a transaction got to install, which were reviewed and nothing else was installed.
record Installed (a : Answers) (before : Before) (after : Machine) : Type 0 where
  files : List Text
  reviewed : IsReviewed a before files
  only : Installs files after

-- An operation installs nothing unless `C` of what it leaves.
record Waits {A : Type 0} (C : Machine → Type 0) (n : Act A) (m : Machine) : Type 0 where
  either : Idle (n m).1 ⊎ C (n m).1
