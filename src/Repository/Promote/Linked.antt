-- ===== src/Repository/Promote/Linked.antt =====
-- What `promote` of scripts/repo.py changes, and what it leaves.
use mathlib.Core.Path.{subst}
use rougarou_os.Base.{
  ◌≡◌, refl, ap, sym, ◌∙◌, Bool, true, false, ◌&&◌, some, [], ◌∷◌, ◌++◌, codes, arith, Result, ok,
  err, lift, modify, continue, ◌>>=◌, ◌>>◌, Text, same_text, is_none, path_of, same_text→eq,
  same_text_refl, Triple, Triple-bind, Post, Post-map, if◌then◌else◌, Bool-cases, inl, inr,
}
use rougarou_os.Base.Json.{Json}
use rougarou_os.Repository.Packages.{RepositoryError}
use rougarou_os.Repository.Sign.{Folder, write, Signing, sign_flat}
use rougarou_os.Repository.Sign.Failed.{Same, Published, sign_flat_lem}
use rougarou_os.Repository.Packages.Valid.{ok_eq}
use rougarou_os.Repository.Publish.{
  Channel, channel_text, same_channel, Repository, Act, add_all, in_pool, in_indexes, debs, hashed,
  Run, no_folder, staged,
}
use rougarou_os.Repository.Gate.{Promotion, checked, publication_of, reads}
use rougarou_os.Repository.Promote.{copy_named, overlay, stage_publication, switch, promote}
use rougarou_os.Repository.Promote.Kept.{
  Promoted, Untouched, same_channel_refl, same_channel→eq, in_pool-Untouched, in_indexes-Untouched,
}

-- A step of which nothing is said.
Any : {A : Type 0} (m : Signing A) → Triple (λ _. Unit) m (λ _ _. Unit) (λ _. Unit)
Any {A = A} m folder u = at (m folder)
  where
    at : (x : Result RepositoryError A × Folder) → Post (λ _ _. Unit) (λ _. Unit) x
    at (ok a, f) = tt
    at (err e, f) = tt

forget :
    (P R : Folder → Type 0) (m : Signing (Unit {0})) (folder : Folder)
    → Post (λ _. P) R (m folder)
    → Post (λ _. P) (λ _. Unit) (m folder)
forget P R m folder h = Post-map (m folder) (λ _ f q. q) (λ f q. tt) h

staged-Post :
    (P : Folder → Type 0) (m : Signing (Unit {0})) (stage : Folder)
    → Triple (λ _. Unit) m (λ _. P) (λ _. Unit)
    → staged m ≡ ok stage
    → P stage
staged-Post P m stage t h = at (m no_folder) refl (t no_folder tt)
  where
    at :
        (x : Result RepositoryError (Unit {0}) × Folder)
        → m no_folder ≡ x
        → Post (λ _. P) (λ _. Unit) x
        → P stage
    at (ok u, f) e q =
        let d : staged m ≡ ok f = rw e in
        let g : f ≡ stage = ok_eq f stage (sym d ∙ h) in subst P g q
    at (err x, f) e q = let d : staged m ≡ err x = rw e in cc

module _ (run : Run) (p : Promotion) (old : Repository) where
  switch-Promoted :
      (source stage : Folder) (audit : Json)
      → checked run p old ≡ ok (source, audit)
      → Published run.signer p.options.key stage
      → Triple
          (Untouched old)
          (switch run p.channel (publication_of run p) p.options.snapshot audit stage)
          (λ _. Promoted run p old)
          (Untouched old)
  unfolding switch
  switch-Promoted source stage audit passed signed r u =
      at (is_none (r.publications p.channel (publication_of run p))) refl
    where
      held :
          (c : Channel) (t : Text) (folder : Folder)
          → r.publications c t ≡ some folder
          → is_none (r.publications p.channel (publication_of run p)) ≡ true
          → (if same_channel p.channel c && same_text (publication_of run p) t
              then some stage
              else r.publications c t)
            ≡ some folder
      held c t folder h e =
          elim (Bool-cases (same_channel p.channel c && same_text (publication_of run p) t)) [
            | inl b ↦
                let d : p.channel ≡ c = same_channel→eq p.channel c (ground (arith, b)) in
                let f : publication_of run p ≡ t =
                  same_text→eq (publication_of run p) t (ground (arith, b)) in
                let g : is_none (r.publications c t) ≡ true = rw (← d, ← f) e in
                let n : is_none (r.publications c t) ≡ false = rw h in cc
            | inr b ↦ rw b h
          ]

      at :
          (b : Bool)
          → is_none (r.publications p.channel (publication_of run p)) ≡ b
          → Post
              (λ _. Promoted run p old)
              (Untouched old)
              (switch run p.channel (publication_of run p) p.options.snapshot audit stage r)
      at true e =
          let same : (same_channel p.channel p.channel
                && same_text (publication_of run p) (publication_of run p))
              ≡ true =
            ground (arith, same_channel_refl p.channel, same_text_refl (publication_of run p)) in
          rw e (record {
            source = source;
            audit = audit;
            stage = stage;
            passed = passed;
            signed = signed;
            snapshots = u.snapshots;
            pool = u.pool;
            indexes = u.indexes;
            linked = rw (same_channel_refl p.channel);
            published = rw same;
            others = λ c h. rw h (ap (λ z. z c) u.pointer);
            kept = λ c t folder h.
                held c t folder (subst (λ z. z c t ≡ some folder) (sym u.publications) h) e;
          })
      at false e = rw e u

  made-Published :
      (audit : Json) (source stage : Folder) (r : Repository)
      → staged (stage_publication run p audit source r) ≡ ok stage
      → Published run.signer p.options.key stage
  unfolding stage_publication
  made-Published audit source stage r h =
      staged-Post (Published run.signer p.options.key) (stage_publication run p audit source r)
        stage
        (step
          (copy_named run source
            (codes "Packages" ∷ codes "Packages.gz" ∷ codes "snapshot.json" ∷ []))
          _
          (λ _.
            step
              (modify (
                write (path_of (codes "promotion.json"))
                  (run.signer.encode (run.json_text audit ++ codes "\n"))))
              _
              (λ _.
                step (modify (overlay run (codes "pool") r.pool)) _
                  (λ _. step (modify (overlay run (codes "by-hash") r.indexes)) _ (λ _. signed)))))
        h
    where
      step :
          {A : Type 0} (m : Signing A) (f : A → Signing (Unit {0}))
          → ((a : A)
              → Triple (λ _. Unit) (f a) (λ _. Published run.signer p.options.key) (λ _. Unit))
          → Triple (λ _. Unit) (m >>= f) (λ _. Published run.signer p.options.key) (λ _. Unit)
      step m f g =
          Triple-bind (λ _. Unit) (λ _ _. Unit) (λ _. Published run.signer p.options.key) m f
            (Any m) g

      signed :
          Triple
            (λ _. Unit)
            (sign_flat run.signer p.options.home p.options.key run.stage run.passphrase
              (channel_text p.channel)
              p.options.valid_days
              run.now)
            (λ _. Published run.signer p.options.key)
            (λ _. Unit)
      signed folder u = forget (Published run.signer p.options.key) (Same folder) m folder (
          sign_flat_lem folder run.signer p.options.home p.options.key run.stage run.passphrase
            (channel_text p.channel) p.options.valid_days run.now folder
            (record { release = refl; signature = refl; in_release = refl }))
        where
          m : Signing (Unit {0})
          m =
              sign_flat run.signer p.options.home p.options.key run.stage run.passphrase
                (channel_text p.channel) p.options.valid_days run.now

  -- When `promote` raises, the repository has the snapshots, publications, audits and links of
  -- before, and every file of its stores. When it returns, the checks had passed on the repository
  -- of before; the channel's link is to a publication of a new name, signed with the key; the other
  -- channel's link, every other publication, every snapshot and every file of the stores are kept.
  pub promote_lem : Post (λ _. Promoted run p old) (Untouched old) (promote run p old)
  unfolding promote
  promote_lem = begun (checked run p old) refl
    where
      untouched : Untouched old old
      untouched = record {
        snapshots = refl;
        publications = refl;
        audits = refl;
        pointer = refl;
        pool = λ path bytes h. h;
        indexes = λ path bytes h. h;
      }

      keeping :
          {A : Type 0} (m : Act A) (f : A → Act (Unit {0}))
          → Triple (Untouched old) m (λ _. Untouched old) (Untouched old)
          → ((a : A) → Triple (Untouched old) (f a) (λ _. Promoted run p old) (Untouched old))
          → Triple (Untouched old) (m >>= f) (λ _. Promoted run p old) (Untouched old)
      keeping m f h g =
          Triple-bind (Untouched old) (λ _. Untouched old) (λ _. Promoted run p old) m f h g

      making :
          (source : Folder) (audit : Json)
          → checked run p old ≡ ok (source, audit)
          → Triple
              (Untouched old)
              (do
                stage ← λ r. lift (staged (stage_publication run p audit source r)) r
                switch run p.channel (publication_of run p) p.options.snapshot audit stage)
              (λ _. Promoted run p old)
              (Untouched old)
      making source audit passed r u = at (staged (stage_publication run p audit source r)) refl
        where
          at :
              (x : Result RepositoryError Folder)
              → staged (stage_publication run p audit source r) ≡ x
              → Post
                  (λ _. Promoted run p old)
                  (Untouched old)
                  (continue
                    (λ stage.
                      switch run p.channel (publication_of run p) p.options.snapshot audit stage)
                    x
                    r)
          at (ok stage) e =
              switch-Promoted source stage audit passed (made-Published audit source stage r e) r u
          at (err x) e = u

      begun :
          (x : Result RepositoryError (Folder × Json))
          → checked run p old ≡ x
          → Post
              (λ _. Promoted run p old)
              (Untouched old)
              (continue
                (λ (source, audit). do
                  in_pool (add_all (reads run) source (debs source))
                  in_indexes (add_all (reads run) source (hashed source))
                  stage ← λ r. lift (staged (stage_publication run p audit source r)) r
                  switch run p.channel (publication_of run p) p.options.snapshot audit stage)
                x
                old)
      begun (ok (source, audit)) e =
          keeping (in_pool (add_all (reads run) source (debs source))) _
            (in_pool-Untouched old (reads run) source (debs source))
            (λ _.
              keeping (in_indexes (add_all (reads run) source (hashed source))) _
                (in_indexes-Untouched old (reads run) source (hashed source))
                (λ _. making source audit e))
            old untouched
      begun (err x) e = untouched
