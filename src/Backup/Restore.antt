-- ===== src/Backup/Restore.antt =====
-- `restore_parents`, `recovery_note` and `restore` of rootfs/usr/lib/rougarou/backup.py: a staged
-- restore, with what it asks of other programs in order.
pub mod Reviewed
pub mod Excluded
pub mod Staged
mod Tests
use Prim.Native.Nat.{◌/◌, ◌%◌}
use rougarou_os.Base.{
  ℕ, Bool, true, false, not, ◌&&◌, ◌||◌, Option, none, some, List, [], ◌∷◌, ◌++◌, ◌==◌, map, take,
  codes, Result, ok, err, Exec, pure, lift, modify, require, ◌>>=◌, ◌>>◌, Text, same_text, has_text,
  any, all, PurePath, init, path_text, is_relative_to, same_path, joined, path_of, if◌then◌else◌,
}
use rougarou_os.Base.Json.{
  Json, text, array, object, no_elements, element, elements, Elements, Dict, lookup, put,
  to_members,
}
use rougarou_os.Backup.Config.{Places, absolute, components, parents_from, Config, validate_config}
use rougarou_os.Backup.Tree.{TreeError, Reader, Node, validate_tree, nothing_seen}
use rougarou_os.Backup.Snapshots.{
  RestoreError, not_full_id, shared_ancestor, target_exists, overlaps_live, inside_repository,
  inside_live, of_tree, of_result, Snapshot, snapshot, Manifest, read_manifest,
}

-- The owner and the mode of a directory that exists.
pub record Info : Type 0 where
  pub owner : ℕ
  pub mode : ℕ

-- `mode & 0o022` and `mode & S_ISVTX`
abbrev is_shared : ℕ → Bool
is_shared mode = (mode / 16 % 2 == 1) || (mode / 2 % 2 == 1)

abbrev is_sticky : ℕ → Bool
is_sticky mode = mode / 512 % 2 == 1

-- What a restore asks of other programs and of the disk, in the order in which it does.
pub data Effect : Type 0 where
  make_directory : PurePath → Effect
  save_config : Dict → Effect
  run_restic : Text → PurePath → Effect
  prepare_queue : PurePath → Effect
  write_note : PurePath → Effect

abbrev pub Act : Type 0 → Type 0
Act A = Exec (List Effect) RestoreError A

-- The machine that a restore finds, and the answers it is given: `listed` and `dumped` are restic's,
-- `answer` says how an effect ends, `prepared` the number of jobs that were switched off.
pub record Machine : Type 0 where
  pub places : Places
  pub home : PurePath
  pub user : ℕ
  pub info : PurePath → Option Info
  pub listed : List Snapshot
  pub dumped : Text → Result RestoreError (List ℕ)
  pub json_of : List ℕ → Option Json
  pub lines : List Node
  pub reader : Reader
  pub stamp : Text
  pub answer : Effect → Result RestoreError (Unit {0})
  pub prepared : ℕ

-- What `restore` returns.
pub record Plan : Type 0 where
  pub chosen : Text
  pub target : PurePath
  pub applied : Bool
  pub quarantined : Option ℕ

-- `dict.fromkeys(...)`, of texts
unfoldable pub distinct : List Text → List Json → List Json
distinct seen [] = []
distinct seen (text t ∷ js) =
    let rest = distinct (t ∷ seen) js in if has_text t seen then rest else text t ∷ rest
distinct seen (j ∷ js) = j ∷ distinct seen js

-- The trees that a configuration restored to.
abbrev pub trees : Option Json → List Json
trees (some (array js)) = elements js
trees _ = []

abbrev pub to_elements : List Json → Elements
to_elements [] = no_elements
to_elements (j ∷ js) = element j (to_elements js)

module _ (m : Machine) where
  abbrev pub exists : PurePath → Bool
  exists p = is (m.info p)
    where
      is : Option Info → Bool
      is none = false
      is (some i) = true

  -- `path.parents`, from the root on
  abbrev pub parents_of : PurePath → List PurePath
  parents_of p = map (λ parts. record p { parts = parts }) (parents_from [] (init p.parts))

  abbrev pub is_trusted : PurePath → Bool
  is_trusted p = is (m.info p)
    where
      is : Option Info → Bool
      is none = true
      is (some i) =
          (i.owner == 0 || i.owner == m.user) && not (is_shared i.mode && not (is_sticky i.mode))

  unfoldable pub restore_parents : PurePath → Act (Unit {0})
  restore_parents p = do
    lift (of_result (components m.places p))
    require (all is_trusted (parents_of p)) shared_ancestor

  -- An effect, done whether it succeeds or not.
  abbrev pub perform : Effect → Act (Unit {0})
  perform e done = (m.answer e, done ++ e ∷ [])

  abbrev pub protected : Config → List PurePath
  protected config =
      m.home ∷ m.places.config_dir ∷ m.places.state_dir ∷ config.repository ∷ config.password_file
      ∷ m.places.staging_root ∷ []

  abbrev pub live : Config → List PurePath
  live config = m.places.config_dir ∷ m.places.state_dir ∷ config.includes

  unfoldable pub check_target : Config → PurePath → Act (Unit {0})
  check_target config p = do
    restore_parents p
    require (not (exists p)) target_exists
    require (not (any (λ q. same_path p q || is_relative_to q p) (protected config))) overlaps_live
    require (not (is_relative_to p config.repository || is_relative_to p m.places.staging_root))
        inside_repository
    require
        (not (
          any (λ q. is_relative_to p q && not (is_relative_to p m.places.recovery_root))
            (live config)))
        inside_live

  abbrev pub target_of : Option Text → Text → Result RestoreError PurePath
  target_of (some t) id = of_result (absolute (text t))
  target_of none id =
      ok (joined m.places.recovery_root (path_of (m.stamp ++ codes "-" ++ take 8 id)))

  abbrev pub check_tree : Manifest → Result RestoreError (Unit {0})
  check_tree manifest =
      of_tree_result
        (validate_tree (map path_text manifest.includes) m.reader m.lines nothing_seen).0
    where
      of_tree_result : Result TreeError (Unit {0}) → Result RestoreError (Unit {0})
      of_tree_result (ok u) = ok u
      of_tree_result (err e) = err (of_tree e)

  -- All that comes before the first effect: the snapshot and its place.
  unfoldable pub review : Config → Text → Option Text → Bool → Act (Text × PurePath)
  review config selector target apply = do
    chosen ← lift (snapshot m.listed selector)
    require (not apply || same_text selector chosen.id) not_full_id
    manifest ← lift (read_manifest m.json_of (m.dumped chosen.id))
    destination ← lift (target_of target chosen.id)
    check_target config destination
    lift (check_tree manifest)
    pure (chosen.id, destination)

  -- The ancestors that are missing, up to the innermost one that exists; the innermost last.
  unfoldable pub missing_from : List PurePath → List PurePath
  missing_from [] = []
  missing_from (q ∷ qs) =
      let rest = missing_from qs in if exists q || any exists qs then rest else q ∷ qs

  unfoldable pub make_all : List PurePath → Act (Unit {0})
  make_all [] = pure tt
  make_all (p ∷ ps) = do perform (make_directory p); make_all ps

  abbrev pub recovery_note : PurePath → Text → Act (Unit {0})
  recovery_note p t = perform (write_note (joined p (path_of t)))

  -- The end of a restore that failed: the marker is tried, and the error stays.
  abbrev pub or_marked :
      PurePath
      → Result RestoreError (Unit {0}) × List Effect
      → Result RestoreError (Unit {0}) × List Effect
  or_marked p (ok u, done) = (ok u, done)
  or_marked p (err e, done) = (err e, (recovery_note p (codes "RESTORE_INCOMPLETE") done).1)

  abbrev pub fill : Text → PurePath → Act (Unit {0})
  fill id p = do
    perform (run_restic id p)
    perform (prepare_queue p)
    recovery_note p (codes "RECOVERY.json")

  -- The configuration with the new tree among those that no backup takes.
  abbrev pub updated : Dict → PurePath → Dict
  updated config p =
      put (codes "restores")
        (array (
          to_elements
            (distinct [] (trees (lookup (codes "restores") config) ++ text (path_text p) ∷ []))))
        config

  unfoldable pub save_valid : Dict → Act (Unit {0})
  save_valid config = do
    validated ← lift (of_result (validate_config m.places (object (to_members config))))
    perform (save_config config)

  unfoldable pub apply_plan : Dict → Text → PurePath → Act (Unit {0})
  apply_plan config id p = do
    make_all (missing_from (parents_of p))
    perform (make_directory p)
    save_valid (updated config p)
    λ done. or_marked p (fill id p done)

  abbrev pub materialize : Bool → Dict → Text → PurePath → Act Plan
  materialize false config id p =
      pure (record { chosen = id; target = p; applied = false; quarantined = none })
  materialize true config id p = do
    apply_plan config id p
    pure (record { chosen = id; target = p; applied = true; quarantined = some m.prepared })

  -- `config` is the configuration as it was read, and `dict` as it is on disk.
  unfoldable pub restore : Config → Dict → Text → Option Text → Bool → Act Plan
  restore config dict selector target apply = do
    (id, p) ← review config selector target apply
    materialize apply dict id p
