-- ===== src/Backup/Tree/Tests.antt =====
-- Lists of files for `validate_tree` of rootfs/usr/lib/rougarou/backup.py, and its theorem at them.
use rougarou_os.Base.{
  ◌≡◌, refl, ◌↔◌, Bool, true, false, some, List, [], ◌∷◌, ok, Text, String, codes, is_ok, any,
  select, same_text, has_text, has_code, split_on, join, path_of, path_text, are_prefix, init,
}
use rougarou_os.Backup.Tree.{
  file, dir, symlink, Node, snapshot_line, entry, Reader, cached, check_node, check_nodes,
  validate_tree, roots_of, nothing_seen,
}
use rougarou_os.Backup.Tree.Contained.{IsTree, validate_tree_lem}

normal : List Text → List Text
unfolding path_of path_text split_on join select same_text
normal [] = []
normal (t ∷ ts) = path_text (path_of t) ∷ normal ts

-- What `str(PurePosixPath(text))` is for some texts.
normal_lem :
    normal
      (codes "/a//b/./c/" ∷ codes "//a" ∷ codes "///a" ∷ codes "./a" ∷ codes "" ∷ codes "/" ∷ [])
    ≡ codes "/a/b/c" ∷ codes "//a" ∷ codes "/a" ∷ codes "a" ∷ codes "." ∷ codes "/" ∷ []
unfolding normal
normal_lem = refl

abbrev link_to : String → Reader
link_to target p =
    ok (record { name = codes "www"; is_symlink = true; linktarget = some (codes target) } ∷ [])

abbrev site : List Text
site = codes "/srv/site" ∷ []

abbrev lines : List Node
lines =
    snapshot_line
    ∷ entry (codes "/srv") dir
    ∷ entry (codes "/srv/site") dir
    ∷ entry (codes "/srv/site/www") symlink
    ∷ entry (codes "/srv/site/a") file
    ∷ []

passes : List Text → Reader → List Node → Bool
unfolding validate_tree check_nodes check_node cached path_of path_text split_on join select
    same_text has_text has_code are_prefix init any
passes includes cat ns = is_ok (validate_tree includes cat ns nothing_seen).0

passes_lem : passes site (link_to "a") lines ≡ true
unfolding passes
passes_lem = refl

upward_lem : passes site (link_to "../../etc") lines ≡ false
unfolding passes
upward_lem = refl

-- A file behind the link, and a file outside.
through_lem : passes site (link_to "a") (entry (codes "/srv/site/www/b") file ∷ lines) ≡ false
unfolding passes
through_lem = refl

outside_lem : passes site (link_to "a") (entry (codes "/srv/sites") file ∷ lines) ≡ false
unfolding passes
outside_lem = refl

validate_tree_lem_example :
    is_ok (validate_tree site (link_to "a") lines nothing_seen).0 ≡ true
    ↔ IsTree (roots_of site) (link_to "a") lines
validate_tree_lem_example = validate_tree_lem site (link_to "a") lines
