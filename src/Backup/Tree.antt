-- ===== src/Backup/Tree.antt =====
-- `validate_tree` of rootfs/usr/lib/rougarou/backup.py: what a restore lets pass of the list of a
-- snapshot's files.
pub mod Line
mod Contained
mod Tests
use rougarou_os.Base.{
  ℕ, Bool, true, false, not, ◌&&◌, ◌||◌, Option, none, some, List, [], ◌∷◌, ◌++◌, Exec, Result, ok,
  err, pure, gets, modify, raise, lift, require, ◌>>=◌, ◌>>◌, select, codes, Text, same_text,
  has_text, has_code, is_empty, any, slash, PurePath, path_of, path_text, is_absolute, goes_up,
  is_relative_to, same_path, parent, name, joined, one_slash, if◌then◌else◌,
}

-- The errors, in the order in which the function raises them; `unreadable` is what Restic or the
-- decoding of its answer raises.
pub data TreeError : Type 0 where
  unsafe_path reserved_metadata conflicting_paths outside_roots : TreeError
  bad_directory bad_symlink upward_symlink leaving_symlink special_file through_symlink unreadable :
      TreeError

pub data NodeKind : Type 0 where
  file dir symlink special : NodeKind

-- A line of `restic ls`: the line that tells of the snapshot, or an entry of the tree.
pub data Node : Type 0 where
  snapshot_line : Node
  entry : Text → NodeKind → Node

-- A member of a directory's `nodes`: a target that is no text is `none`.
pub record Item : Type 0 where
  pub name : Text
  pub is_symlink : Bool
  pub linktarget : Option Text

-- `restic cat tree`: the nodes of a directory.
abbrev pub Reader : Type 0
Reader = PurePath → Result TreeError (List Item)

pub record Seen : Type 0 where
  pub paths : List PurePath
  pub links : List PurePath
  pub link_directories : List (PurePath × List Item)

abbrev pub Check : Type 0 → Type 0
Check A = Exec Seen TreeError A

abbrev pub capsule : Text
capsule = codes "rougarou-backup-capsule"

abbrev pub restore_reserved : List Text
restore_reserved = codes "prepared" ∷ codes "RECOVERY.json" ∷ codes "RESTORE_INCOMPLETE" ∷ []

abbrev head_in : List Text → List Text → Bool
head_in names [] = false
head_in names (x ∷ xs) = has_text x names

abbrev without_first : List Text → List Text
without_first [] = []
without_first (x ∷ xs) = xs

-- `len(path.parts) > 1 and path.parts[1] in RESTORE_RESERVED`: the root is a part.
abbrev pub is_reserved : PurePath → Bool
is_reserved p = head_in restore_reserved (if is_absolute p then p.parts else without_first p.parts)

abbrev pub is_safe : Text → Bool
is_safe raw = let p = path_of raw in is_absolute p && not (goes_up p) && same_text (path_text p) raw

abbrev pub has_path : PurePath → List PurePath → Bool
has_path p ps = any (same_path p) ps

abbrev pub is_dir : NodeKind → Bool
is_dir k = elim k [ dir ↦ true | _ ↦ false ]

abbrev pub is_contained : List PurePath → PurePath → Bool
is_contained roots p = any (is_relative_to p) roots

abbrev pub is_declared : List PurePath → PurePath → NodeKind → Bool
is_declared roots p k = is_contained roots p || (any (λ r. is_relative_to r p) roots && is_dir k)

unfoldable pub cached : PurePath → List (PurePath × List Item) → Option (List Item)
cached p [] = none
cached p ((q, items) ∷ rest) = if same_path q p then some items else cached p rest

abbrev pub read_directory : Reader → PurePath → Option (List Item) → Check (List Item)
read_directory cat p (some items) = pure items
read_directory cat p none = do
  items ← lift (cat p)
  modify λ s. record s { link_directories = (p, items) ∷ s.link_directories }
  pure items

-- `target` when it is one that does not lead up or away.
abbrev pub is_level : Text → Bool
is_level t = not (is_empty t || has_code 0 t || is_absolute (path_of t) || goes_up (path_of t))

abbrev pub check_target : List PurePath → PurePath → Option Text → Check (Unit {0})
check_target roots p none = raise upward_symlink
check_target roots p (some target) = do
  require (is_level target) upward_symlink
  require (is_contained roots (joined (parent p) (path_of target))) leaving_symlink
  modify λ s. record s { links = s.links ++ p ∷ [] }

abbrev pub check_item : List PurePath → PurePath → List Item → Check (Unit {0})
check_item roots p (item ∷ []) = do
  require item.is_symlink bad_symlink
  check_target roots p item.linktarget
check_item roots p _ = raise bad_symlink

abbrev pub check_kind : List PurePath → Reader → PurePath → NodeKind → Check (Unit {0})
check_kind roots cat p file = pure tt
check_kind roots cat p dir = pure tt
check_kind roots cat p special = raise special_file
check_kind roots cat p symlink = do
  known ← gets (λ s. cached (parent p) s.link_directories)
  items ← read_directory cat (parent p) known
  check_item roots p (select (λ i. same_text i.name (name p)) items)

unfoldable pub check_node : List PurePath → Reader → Node → Check (Unit {0})
check_node roots cat snapshot_line = pure tt
check_node roots cat (entry raw kind) = do
  let path = path_of raw
  require (is_safe raw) unsafe_path
  require (not (is_reserved path)) reserved_metadata
  seen ← gets (λ s. has_path path s.paths)
  require (not seen) conflicting_paths
  modify λ s. record s { paths = path ∷ s.paths }
  require (is_declared roots path kind) outside_roots
  check_kind roots cat path kind

unfoldable pub check_nodes : List PurePath → Reader → List Node → Check (Unit {0})
check_nodes roots cat [] = pure tt
check_nodes roots cat (n ∷ ns) = do check_node roots cat n; check_nodes roots cat ns

abbrev pub is_through : List PurePath → PurePath → Bool
is_through links p = any (λ l. not (same_path p l) && is_relative_to p l) links

abbrev paths_of : List Text → List PurePath
paths_of [] = []
paths_of (t ∷ ts) = path_of t ∷ paths_of ts

abbrev pub roots_of : List Text → List PurePath
roots_of includes = record { root = one_slash; parts = capsule ∷ [] } ∷ paths_of includes

-- `lines` is what `restic ls` lists, and `includes` the manifest's.
unfoldable pub validate_tree : List Text → Reader → List Node → Check (Unit {0})
validate_tree includes cat lines = do
  check_nodes (roots_of includes) cat lines
  through ← gets (λ s. any (is_through s.links) s.paths)
  require (not through) through_symlink

-- Before the first line.
abbrev pub nothing_seen : Seen
nothing_seen = record { paths = []; links = []; link_directories = [] }
