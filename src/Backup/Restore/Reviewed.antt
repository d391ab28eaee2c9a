-- ===== src/Backup/Restore/Reviewed.antt =====
-- What `restore` of rootfs/usr/lib/rougarou/backup.py has found before its first effect.
use rougarou_os.Base.{
  ◌≡◌, refl, Bool, true, false, not, ◌&&◌, ◌||◌, Option, List, [], ◌∷◌, ◌++◌, codes, arith, Result,
  ok, err, lift, require, ◌>>=◌, ◌>>◌, Text, same_text, same_text→eq, any, all, ◌⊎◌, inl, PurePath,
  is_relative_to, same_path, joined, path_of, Triple, Triple-bind, Post-map,
}
use rougarou_os.Backup.Config.{Config, components}
use rougarou_os.Backup.Snapshots.{
  RestoreError, of_result, shared_ancestor, not_full_id, target_exists, overlaps_live,
  inside_repository, inside_live, Snapshot, snapshot, Manifest, read_manifest,
}
use rougarou_os.Backup.Restore.{
  Effect, make_directory, save_config, write_note, Act, Machine, exists, parents_of, is_trusted,
  restore_parents, protected, live, check_target, target_of, check_tree, review,
}

-- The effects that put nothing into the new tree.
abbrev pub is_outside : Effect → Bool
is_outside (make_directory p) = true
is_outside (save_config d) = true
is_outside _ = false

-- Nothing was put into the tree, or the last thing that was tried is the marker in the place that is
-- `Chosen`.
abbrev pub IsMarked : (PurePath → Type 0) → List Effect → Type 0
IsMarked Chosen done =
    (all is_outside done ≡ true)
    ⊎ ((before : List Effect) × (p : PurePath) × Chosen p
        × (done ≡ before ++ write_note (joined p (path_of (codes "RESTORE_INCOMPLETE"))) ∷ []))

abbrev pub Nothing : List Effect → Type 0
Nothing done = done ≡ []

abbrev pub Outside : List Effect → Type 0
Outside done = all is_outside done ≡ true

Nothing-IsMarked : (C : PurePath → Type 0) (done : List Effect) → Nothing done → IsMarked C done
unfolding all
Nothing-IsMarked C done e = inl (rw e)

module _ (m : Machine) where
  -- A new place, that no live data is at or below, and that is in neither the repository nor live data.
  pub record IsApart (config : Config) (p : PurePath) : Type 0 where
    pub is_new : exists m p ≡ false
    pub apart : any (λ q. same_path p q || is_relative_to q p) (protected m config) ≡ false
    pub outside :
        (is_relative_to p config.repository || is_relative_to p m.places.staging_root) ≡ false
    pub not_live :
        any
          (λ q. is_relative_to p q && not (is_relative_to p m.places.recovery_root))
          (live m config)
        ≡ false

  -- What `review` has found: the snapshot, for an application by its whole name, and its place.
  pub record IsReviewed (config : Config) (selector : Text) (target : Option Text) (apply : Bool)
      (id : Text) (p : PurePath) : Type 0 where
    pub chosen : Snapshot
    pub manifest : Manifest
    pub found : snapshot m.listed selector ≡ ok chosen
    pub named : id ≡ chosen.id
    pub whole : apply ≡ true → selector ≡ id
    pub read : read_manifest m.json_of (m.dumped id) ≡ ok manifest
    pub contained : check_tree m manifest ≡ ok tt
    pub placed : target_of m target id ≡ ok p
    pub apart : IsApart config p

module _ (m : Machine) (C : PurePath → Type 0) where
  module _ {B : Type 0} (Q : B → List Effect → Type 0) where
    guard :
        (b : Bool) (e : RestoreError) (n : Act B)
        → (b ≡ true → Triple Nothing n Q (IsMarked C))
        → Triple Nothing (require b e >> n) Q (IsMarked C)
    guard true e n f = f refl
    guard false e n f = Nothing-IsMarked C

    pass :
        {A : Type 0} (r : Result RestoreError A) (f : A → Act B)
        → ((a : A) → r ≡ ok a → Triple Nothing (f a) Q (IsMarked C))
        → Triple Nothing (lift r >>= f) Q (IsMarked C)
    pass (ok a) f g = g a refl
    pass (err e) f g = Nothing-IsMarked C

  require-Nothing :
      (b : Bool) (e : RestoreError)
      → Triple Nothing (require b e) (λ _ s. Nothing s × (b ≡ true)) (IsMarked C)
  require-Nothing true e s h = (h, refl)
  require-Nothing false e s h = Nothing-IsMarked C s h

  lift-Nothing :
      {A : Type 0} (r : Result RestoreError A) → Triple Nothing (lift r) (λ _. Nothing) (IsMarked C)
  lift-Nothing (ok a) s h = h
  lift-Nothing (err e) s h = Nothing-IsMarked C s h

  restore_parents-Nothing :
      (p : PurePath) → Triple Nothing (restore_parents m p) (λ _. Nothing) (IsMarked C)
  unfolding restore_parents
  restore_parents-Nothing p =
      pass (λ _. Nothing) (of_result (components m.places p)) _
        (λ u _ s h.
          Post-map (require (all (is_trusted m) (parents_of m p)) shared_ancestor s) (λ _ _ q. q.0)
            (λ _ q. q) (require-Nothing (all (is_trusted m) (parents_of m p)) shared_ancestor s h))

  check_target-IsApart :
      (config : Config) (p : PurePath)
      → Triple Nothing
          (check_target m config p)
          (λ _ s. Nothing s × IsApart m config p)
          (IsMarked C)
  unfolding check_target
  check_target-IsApart config p =
      Triple-bind (IsMarked C) (λ _. Nothing) Q (restore_parents m p) _ (restore_parents-Nothing p)
        (λ _. guard Q (not (exists m p)) target_exists _ (λ a.
          guard Q (not (any (λ q. same_path p q || is_relative_to q p) (protected m config)))
            overlaps_live _
            (λ b.
              guard Q
                (not (is_relative_to p config.repository || is_relative_to p m.places.staging_root))
                inside_repository _
                (λ c s h.
                  Post-map (require (not (any lives (live m config))) inside_live s)
                    (λ _ _ (n, d). (
                      n,
                      record {
                        is_new = not_true a;
                        apart = not_true b;
                        outside = not_true c;
                        not_live = not_true d;
                      },
                    ))
                    (λ _ q. q)
                    (require-Nothing (not (any lives (live m config))) inside_live s h)))))
    where
      Q : Unit {0} → List Effect → Type 0
      Q _ s = Nothing s × IsApart m config p

      lives : PurePath → Bool
      lives q = is_relative_to p q && not (is_relative_to p m.places.recovery_root)

      not_true : {b : Bool} → not b ≡ true → b ≡ false
      not_true h = ground (arith, h)

  pub review-IsReviewed :
      (config : Config) (selector : Text) (target : Option Text) (apply : Bool)
      → Triple Nothing
          (review m config selector target apply)
          (λ (id, p) s. Nothing s × IsReviewed m config selector target apply id p)
          (IsMarked C)
  unfolding review
  review-IsReviewed config selector target apply =
      pass Q (snapshot m.listed selector) _ (λ chosen a.
        guard Q (not apply || same_text selector chosen.id) not_full_id _ (λ b.
          pass Q (read_manifest m.json_of (m.dumped chosen.id)) _ (λ manifest c.
            pass Q (target_of m target chosen.id) _ (λ p t.
              Triple-bind (IsMarked C) (λ _ s. Nothing s × IsApart m config p) Q
                (check_target m config p) _ (check_target-IsApart config p)
                (λ _ s (n, d).
                  pass Q (check_tree m manifest) _
                    (λ _ e s h. (
                      h,
                      record {
                        chosen = chosen;
                        manifest = manifest;
                        found = a;
                        named = refl;
                        whole = λ y.
                            same_text→eq selector chosen.id
                              (applied apply (same_text selector chosen.id) b y);
                        read = c;
                        contained = e;
                        placed = t;
                        apart = d;
                      },
                    ))
                    s n)))))
    where
      Q : Text × PurePath → List Effect → Type 0
      Q (id, p) s = Nothing s × IsReviewed m config selector target apply id p

      applied : (x y : Bool) → (not x || y) ≡ true → x ≡ true → y ≡ true
      applied x y h g = ground arith
