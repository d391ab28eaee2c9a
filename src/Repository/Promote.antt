-- ===== src/Repository/Promote.antt =====
-- `promote` of scripts/repo.py: the stores, the publication and the link of a channel.
pub mod Kept
pub mod Linked
use rougarou_os.Base.{
  ℕ, Bool, true, false, not, ◌&&◌, Option, none, some, List, [], ◌∷◌, ◌++◌, codes, Result, ok, err,
  Exec, pure, gets, lift, modify, require, ◌>>=◌, ◌>>◌, Text, same_text, is_none, PurePath, path_of,
  if◌then◌else◌,
}
use rougarou_os.Base.Json.{Json}
use rougarou_os.Repository.Packages.{RepositoryError, os_error, file, bytes_of}
use rougarou_os.Repository.Sign.{Folder, write, Signing, sign_flat}
use rougarou_os.Repository.Publish.{
  Channel, channel_text, same_channel, Repository, Act, add_all, in_pool, in_indexes, first_is,
  debs, hashed, Run, staged,
}
use rougarou_os.Repository.Gate.{Promotion, checked, publication_of, reads}

module _ (run : Run) where
  unfoldable pub copy_named : Folder → List Text → Signing (Unit {0})
  copy_named source [] = pure tt
  copy_named source (t ∷ ts) = do
    bytes ← lift (bytes_of (file t source.node_at))
    modify (write (path_of t) bytes)
    copy_named source ts

  -- `copytree` of a store into the folder, where there was nothing of that name.
  abbrev pub overlay : Text → Folder → Folder → Folder
  overlay t store folder = record {
    node_at = λ p. if first_is t p.parts then store.node_at p else folder.node_at p;
    paths = store.paths ++ folder.paths;
  }

  unfoldable pub stage_publication : Promotion → Json → Folder → Repository → Signing (Unit {0})
  stage_publication p audit source r = do
    copy_named source (codes "Packages" ∷ codes "Packages.gz" ∷ codes "snapshot.json" ∷ [])
    modify (
        write (path_of (codes "promotion.json"))
          (run.signer.encode (run.json_text audit ++ codes "\n")))
    modify (overlay (codes "pool") r.pool)
    modify (overlay (codes "by-hash") r.indexes)
    sign_flat run.signer p.options.home p.options.key run.stage run.passphrase
        (channel_text p.channel) p.options.valid_days run.now

  -- The publication is in its place before the channel's link is replaced.
  unfoldable pub switch : Channel → Text → Text → Json → Folder → Act (Unit {0})
  switch channel publication identity audit stage = do
    present ← gets (λ r. r.publications channel publication)
    require (is_none present) os_error
    modify (λ r. record r {
      publications = λ c t.
          if same_channel channel c && same_text publication t
          then some stage
          else r.publications c t;
    })
    modify (λ r. record r {
      audits =
          (channel_text channel ++ codes "-" ++ publication ++ codes ".json", audit) ∷ r.audits;
    })
    modify (λ r. record r {
      pointer = λ c. if same_channel channel c then some publication else r.pointer c;
    })

  unfoldable pub promote : Promotion → Act (Unit {0})
  promote p = do
    (source, audit) ← λ r. lift (checked run p r) r
    in_pool (add_all (reads run) source (debs source))
    in_indexes (add_all (reads run) source (hashed source))
    stage ← λ r. lift (staged (stage_publication p audit source r)) r
    switch p.channel (publication_of run p) p.options.snapshot audit stage
