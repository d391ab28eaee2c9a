-- ===== src/Repository/Promote/Kept.antt =====
-- What `promote` of scripts/repo.py keeps in its stores.
use mathlib.Core.Path.{subst}
use rougarou_os.Base.{
  ◌≡◌, refl, Bool, true, false, some, List, [], ◌∷◌, arith, Result, ok, err, lift, modify, require,
  ◌>>=◌, Text, same_text, is_some, PurePath, same_path, same_path→eq, Triple, Triple-bind, Post,
  Bool-cases, inl, inr,
}
use rougarou_os.Base.Json.{Json}
use rougarou_os.Repository.Packages.{
  RepositoryError, content_modified, Bytes, Node, Reads, given, bytes_of,
}
use rougarou_os.Repository.Sign.{Folder, exists, write}
use rougarou_os.Repository.Sign.Failed.{Published}
use rougarou_os.Repository.Publish.{
  Channel, testing, stable, same_channel, Repository, add_at, add_immutable, add_all, in_pool,
  in_indexes, Run,
}
use rougarou_os.Repository.Gate.{Promotion, checked, publication_of}

-- Every file is still there, with its bytes.
abbrev pub Kept : Folder → Folder → Type 0
Kept old folder =
    (path : PurePath) (bytes : Bytes)
    → (old.node_at path).content ≡ some bytes
    → (folder.node_at path).content ≡ some bytes

write-Kept :
    (old folder : Folder) (path : PurePath) (bytes : Bytes)
    → exists (folder.node_at path) ≡ false
    → Kept old folder
    → Kept old (write path bytes folder)
unfolding write
write-Kept old folder path bytes e kept p b h = elim (Bool-cases (same_path p path)) [
  | inl q ↦
      let d : p ≡ path = same_path→eq p path q in
      let k : (folder.node_at path).content ≡ some b =
        subst (λ z. (folder.node_at z).content ≡ some b) d (kept p b h) in
      absent (folder.node_at path) b e k
  | inr q ↦ rw q (kept p b h)
]
  where
    absent :
        {C : Type 0} (node : Node) (b : Bytes) → exists node ≡ false → node.content ≡ some b → C
    absent node b e k = let t : is_some node.content ≡ true = rw k in ground (arith, t)

module _ (old : Folder) (reads : Reads) (source : Node) (path : PurePath) where
  add_at-Kept :
      (b : Bool) (folder : Folder)
      → exists (folder.node_at path) ≡ b
      → Kept old folder
      → Post (λ _. Kept old) (Kept old) (add_at reads source path (folder.node_at path) folder)
  add_at-Kept true folder e kept =
      rw e (compared (given content_modified (folder.node_at path).content) (bytes_of source))
    where
      compared :
          (x y : Result RepositoryError Bytes)
          → Post
              (λ _. Kept old)
              (Kept old)
              ((do
                past ← lift x
                new ← lift y
                require (same_text (reads.sha256 new) (reads.sha256 past)) content_modified)
                folder)
      compared (ok past) (ok new) = tested (same_text (reads.sha256 new) (reads.sha256 past))
        where
          tested : (b : Bool) → Post (λ _. Kept old) (Kept old) (require b content_modified folder)
          tested true = kept
          tested false = kept
      compared (ok past) (err x) = kept
      compared (err x) y = kept
  add_at-Kept false folder e kept = rw e (added (bytes_of source))
    where
      added :
          (x : Result RepositoryError Bytes)
          → Post (λ _. Kept old) (Kept old) ((do new ← lift x; modify (write path new)) folder)
      added (ok new) = write-Kept old folder path new e kept
      added (err x) = kept

add_all-Kept :
    (old : Folder) (how : Reads) (source : Folder) (paths : List PurePath)
    → Triple (Kept old) (add_all how source paths) (λ _. Kept old) (Kept old)
unfolding add_all add_immutable
add_all-Kept old how source [] = λ folder kept. kept
add_all-Kept old how source (path ∷ paths) =
    Triple-bind (Kept old) (λ _. Kept old) (λ _. Kept old)
      (add_immutable how (source.node_at path) path) _
      (λ folder kept.
        add_at-Kept old how (source.node_at path) path (exists (folder.node_at path)) folder refl
          kept)
      (λ _. add_all-Kept old how source paths)

-- Nothing has changed but that the stores may hold more.
pub record Untouched (old r : Repository) : Type 0 where
  pub snapshots : r.snapshots ≡ old.snapshots
  pub publications : r.publications ≡ old.publications
  pub audits : r.audits ≡ old.audits
  pub pointer : r.pointer ≡ old.pointer
  pub pool : Kept old.pool r.pool
  pub indexes : Kept old.indexes r.indexes

-- The channel's link is to a new publication, whose signatures are by the key; nothing that was
-- there is gone.
pub record Promoted (run : Run) (p : Promotion) (old r : Repository) : Type 0 where
  pub source : Folder
  pub audit : Json
  pub stage : Folder
  pub passed : checked run p old ≡ ok (source, audit)
  pub signed : Published run.signer p.options.key stage
  pub snapshots : r.snapshots ≡ old.snapshots
  pub pool : Kept old.pool r.pool
  pub indexes : Kept old.indexes r.indexes
  pub linked : r.pointer p.channel ≡ some (publication_of run p)
  pub published : r.publications p.channel (publication_of run p) ≡ some stage
  pub others : (c : Channel) → same_channel p.channel c ≡ false → r.pointer c ≡ old.pointer c
  pub kept :
      (c : Channel) (t : Text) (folder : Folder)
      → old.publications c t ≡ some folder
      → r.publications c t ≡ some folder

pub same_channel_refl : (c : Channel) → same_channel c c ≡ true
same_channel_refl testing = refl
same_channel_refl stable = refl

pub same_channel→eq : (c d : Channel) → same_channel c d ≡ true → c ≡ d
same_channel→eq testing testing h = refl
same_channel→eq stable stable h = refl
same_channel→eq testing stable h = cc
same_channel→eq stable testing h = cc

pub in_pool-Untouched :
    (old : Repository) (how : Reads) (source : Folder) (paths : List PurePath)
    → Triple
        (Untouched old)
        (in_pool (add_all how source paths))
        (λ _. Untouched old)
        (Untouched old)
in_pool-Untouched old how source paths r u =
    at (add_all how source paths r.pool) (add_all-Kept old.pool how source paths r.pool u.pool)
  where
    with_pool :
        {folder : Folder} → Kept old.pool folder → Untouched old (record r { pool = folder })
    with_pool k = record {
      snapshots = u.snapshots;
      publications = u.publications;
      audits = u.audits;
      pointer = u.pointer;
      pool = k;
      indexes = u.indexes;
    }

    at :
        (x : Result RepositoryError (Unit {0}) × Folder)
        → Post (λ _. Kept old.pool) (Kept old.pool) x
        → Post (λ _. Untouched old) (Untouched old) (x.0, record r { pool = x.1 })
    at (ok _, folder) k = with_pool k
    at (err e, folder) k = with_pool k

pub in_indexes-Untouched :
    (old : Repository) (how : Reads) (source : Folder) (paths : List PurePath)
    → Triple
        (Untouched old)
        (in_indexes (add_all how source paths))
        (λ _. Untouched old)
        (Untouched old)
in_indexes-Untouched old how source paths r u =
    at (add_all how source paths r.indexes)
      (add_all-Kept old.indexes how source paths r.indexes u.indexes)
  where
    with_indexes :
        {folder : Folder} → Kept old.indexes folder → Untouched old (record r { indexes = folder })
    with_indexes k = record {
      snapshots = u.snapshots;
      publications = u.publications;
      audits = u.audits;
      pointer = u.pointer;
      indexes = k;
      pool = u.pool;
    }

    at :
        (x : Result RepositoryError (Unit {0}) × Folder)
        → Post (λ _. Kept old.indexes) (Kept old.indexes) x
        → Post (λ _. Untouched old) (Untouched old) (x.0, record r { indexes = x.1 })
    at (ok _, folder) k = with_indexes k
    at (err e, folder) k = with_indexes k
