-- ===== src/Backup/Restore/Staged.antt =====
-- What `restore` of rootfs/usr/lib/rougarou/backup.py does, and in which order.
use mathlib.Core.Path.{subst}
use rougarou_os.Base.{
  ◌≡◌, refl, ap, sym, ◌∙◌, Bool, true, false, Option, List, [], ◌∷◌, ◌++◌, map, codes, arith,
  Result, ok, err, continue, Text, all, inl, inr, PurePath, joined, path_of, Triple, Triple-bind,
  Post, Post-map,
}
use mathlib.Core.List.{append_assoc, append-nil}
use rougarou_os.Base.Json.{object, Dict, to_members}
use rougarou_os.Backup.Config.{Config, validate_config}
use rougarou_os.Backup.Snapshots.{RestoreError, of_result}
use rougarou_os.Backup.Restore.{
  Effect, make_directory, save_config, run_restic, prepare_queue, write_note, Machine, Plan,
  parents_of, perform, review, missing_from, make_all, or_marked, fill, updated, save_valid,
  apply_plan, materialize, restore,
}
use rougarou_os.Backup.Restore.Excluded.{Excludes, updated-Excludes}
use rougarou_os.Backup.Restore.Reviewed.{
  is_outside, Nothing, Outside, IsMarked, IsReviewed, review-IsReviewed,
}

module _ (m : Machine) where
  -- The steps of a restore into the tree, behind the new directories.
  abbrev pub steps : Dict → Text → PurePath → List Effect
  steps saved id p =
      map make_directory (missing_from m (parents_of m p))
      ++ make_directory p
        ∷ save_config saved
        ∷ run_restic id p
        ∷ prepare_queue p
        ∷ write_note (joined p (path_of (codes "RECOVERY.json")))
        ∷ []

module _ (m : Machine) (C : PurePath → Type 0) where
  perform-Post :
      (e : Effect) (done : List Effect)
      → Post (λ _ s. s ≡ done ++ e ∷ []) (λ s. s ≡ done ++ e ∷ []) (perform m e done)
  perform-Post e done = at (m.answer e)
    where
      at :
          (r : Result RestoreError (Unit {0}))
          → Post (λ _ s. s ≡ done ++ e ∷ []) (λ s. s ≡ done ++ e ∷ []) (r, done ++ e ∷ [])
      at (ok u) = refl
      at (err x) = refl

  outside-append : (s t : List Effect) → Outside s → Outside t → Outside (s ++ t)
  unfolding all
  outside-append [] t h g = g
  outside-append (e ∷ s) t h g = ground (arith, outside-append s t (ground arith) g)

  -- An effect outside the tree, behind such effects.
  outside-perform :
      (e : Effect) (before : List Effect)
      → is_outside e ≡ true
      → Outside before
      → Triple (λ s. s ≡ before) (perform m e) (λ _ s. s ≡ before ++ e ∷ []) (IsMarked C)
  unfolding all
  outside-perform e before h o s q =
      Post-map (perform m e s) (λ _ t d. d ∙ ap (λ z. z ++ e ∷ []) q)
        (λ t d. inl (
          subst Outside (sym (d ∙ ap (λ z. z ++ e ∷ []) q))
            (outside-append before (e ∷ []) o (ground arith))))
        (perform-Post e s)

  directories : (ps : List PurePath) → Outside (map make_directory ps)
  unfolding all
  directories [] = refl
  directories (p ∷ ps) = directories ps

  make_all-Post :
      (ps : List PurePath) (before : List Effect)
      → Outside before
      → Triple
          (λ s. s ≡ before)
          (make_all m ps)
          (λ _ s. s ≡ before ++ map make_directory ps)
          (IsMarked C)
  unfolding make_all all
  make_all-Post [] before o = λ s q. rw append-nil q
  make_all-Post (p ∷ ps) before o =
      Triple-bind (IsMarked C) (λ _ s. s ≡ before ++ make_directory p ∷ [])
        (λ _ s. s ≡ before ++ map make_directory (p ∷ ps)) (perform m (make_directory p)) _
        (outside-perform (make_directory p) before refl o)
        (λ _ s q.
          Post-map (make_all m ps s)
            (λ _ t d. d ∙ append_assoc before (make_directory p ∷ []) (map make_directory ps))
            (λ _ d. d)
            (make_all-Post ps (before ++ make_directory p ∷ [])
              (outside-append before (make_directory p ∷ []) o refl) s q))

  save_valid-Post :
      (dict : Dict) (before : List Effect)
      → Outside before
      → Triple
          (λ s. s ≡ before)
          (save_valid m dict)
          (λ _ s. s ≡ before ++ save_config dict ∷ [])
          (IsMarked C)
  unfolding save_valid
  save_valid-Post dict before o s q =
      at (of_result (validate_config m.places (object (to_members dict))))
    where
      at :
          (r : Result RestoreError Config)
          → Post
              (λ _ s. s ≡ before ++ save_config dict ∷ [])
              (IsMarked C)
              (continue (λ _. perform m (save_config dict)) r s)
      at (ok _) = outside-perform (save_config dict) before refl o s q
      at (err e) = inl (rw q o)

  perform-Any :
      (e : Effect) (before : List Effect)
      → Triple (λ s. s ≡ before) (perform m e) (λ _ s. s ≡ before ++ e ∷ []) (λ _. Unit)
  perform-Any e before s q =
      Post-map (perform m e s) (λ _ t d. d ∙ ap (λ z. z ++ e ∷ []) q) (λ _ _. tt) (perform-Post e s)

  -- The three steps in the tree, behind what was done before.
  filled : Text → PurePath → List Effect
  filled id p =
      run_restic id p
      ∷ prepare_queue p
      ∷ write_note (joined p (path_of (codes "RECOVERY.json")))
      ∷ []

  fill-Post :
      (id : Text) (p : PurePath) (before : List Effect)
      → Triple (λ s. s ≡ before) (fill m id p) (λ _ s. s ≡ before ++ filled id p) (λ _. Unit)
  unfolding filled
  fill-Post id p before =
      Triple-bind (λ _. Unit) (λ _ s. s ≡ before ++ a ∷ []) Q (perform m a) _ (perform-Any a before)
        (λ _.
          Triple-bind (λ _. Unit) (λ _ s. s ≡ (before ++ a ∷ []) ++ b ∷ []) Q (perform m b) _
            (perform-Any b (before ++ a ∷ []))
            (λ _ s q.
              Post-map (perform m c s)
                (λ _ t d.
                  d
                  ∙ append_assoc (before ++ a ∷ []) (b ∷ []) (c ∷ [])
                  ∙ append_assoc before (a ∷ []) (b ∷ c ∷ []))
                (λ _ _. tt) (perform-Any c ((before ++ a ∷ []) ++ b ∷ []) s q)))
    where
      a : Effect
      a = run_restic id p

      b : Effect
      b = prepare_queue p

      c : Effect
      c = write_note (joined p (path_of (codes "RECOVERY.json")))

      Q : Unit {0} → List Effect → Type 0
      Q _ s = s ≡ before ++ filled id p

  or_marked-Post :
      (p : PurePath) (c : C p) (Q : List Effect → Type 0)
      (x : Result RestoreError (Unit {0}) × List Effect)
      → Post (λ _. Q) (λ _. Unit) x
      → Post (λ _. Q) (IsMarked C) (or_marked m p x)
  or_marked-Post p c Q (ok u, done) h = h
  or_marked-Post p c Q (err e, done) h = inr (done, p, c, refl)

  apply_plan-Post :
      (dict : Dict) (id : Text) (p : PurePath) (c : C p)
      → Triple Nothing
          (apply_plan m dict id p)
          (λ _ s. s ≡ steps m (updated m dict p) id p)
          (IsMarked C)
  unfolding apply_plan filled all
  apply_plan-Post dict id p c =
      Triple-bind (IsMarked C) (λ _ s. s ≡ made) Q (make_all m ps) _ (make_all-Post ps [] refl)
        (λ _.
          Triple-bind (IsMarked C) (λ _ s. s ≡ made ++ a ∷ []) Q (perform m a) _
            (outside-perform a made refl all_made)
            (λ _.
              Triple-bind (IsMarked C) (λ _ s. s ≡ (made ++ a ∷ []) ++ b ∷ []) Q
                (save_valid m (updated m dict p)) _
                (save_valid-Post (updated m dict p) (made ++ a ∷ [])
                  (outside-append made (a ∷ []) all_made refl))
                (λ _ s q.
                  or_marked-Post p c (λ t. t ≡ steps m (updated m dict p) id p) (fill m id p s)
                    (Post-map (fill m id p s)
                      (λ _ t d.
                        d
                        ∙ append_assoc (made ++ a ∷ []) (b ∷ []) (filled id p)
                        ∙ append_assoc made (a ∷ []) (b ∷ filled id p))
                      (λ _ _. tt) (fill-Post id p ((made ++ a ∷ []) ++ b ∷ []) s q)))))
    where
      ps : List PurePath
      ps = missing_from m (parents_of m p)

      made : List Effect
      made = map make_directory ps

      a : Effect
      a = make_directory p

      b : Effect
      b = save_config (updated m dict p)

      all_made : Outside made
      all_made = directories ps

      Q : Unit {0} → List Effect → Type 0
      Q _ s = s ≡ steps m (updated m dict p) id p

module _ (m : Machine) where
  -- What is done by the end of a restore, or of its preview.
  abbrev pub DoneBy : Bool → Dict → Text → PurePath → List Effect → Type 0
  DoneBy false dict id p done = done ≡ []
  DoneBy true dict id p done = (saved : Dict) × Excludes dict saved p × (done ≡ steps m saved id p)

  pub record IsStaged (config : Config) (dict : Dict) (selector : Text) (target : Option Text)
      (apply : Bool) (plan : Plan) (done : List Effect) : Type 0 where
    pub reviewed : IsReviewed m config selector target apply plan.chosen plan.target
    pub says_so : plan.applied ≡ apply
    pub done_by : DoneBy apply dict plan.chosen plan.target done

  -- The place that the review chose.
  abbrev pub Place : Config → Text → Option Text → Bool → PurePath → Type 0
  Place config selector target apply p =
      (id : Text) × IsReviewed m config selector target apply id p

  materialize-IsStaged :
      (config : Config) (dict : Dict) (selector : Text) (target : Option Text) (apply : Bool)
      (id : Text) (p : PurePath)
      → IsReviewed m config selector target apply id p
      → Triple Nothing
          (materialize m apply dict id p)
          (IsStaged config dict selector target apply)
          (IsMarked (Place config selector target apply))
  materialize-IsStaged config dict selector target false id p reviewed =
      λ s h. record { reviewed = reviewed; says_so = refl; done_by = h }
  materialize-IsStaged config dict selector target true id p reviewed =
      Triple-bind (IsMarked (Place config selector target true))
        (λ _ s. s ≡ steps m (updated m dict p) id p) (IsStaged config dict selector target true)
        (apply_plan m dict id p) _
        (apply_plan-Post m (Place config selector target true) dict id p (id, reviewed))
        (λ _ s q. record {
          reviewed = reviewed;
          says_so = refl;
          done_by = (updated m dict p, updated-Excludes m dict p, q);
        })

  -- A restore that returns has chosen one completed snapshot, which for an application was named in
  -- full, with a manifest that can be read and a list of files that stays below its roots, and a new
  -- place, apart from live data and the repository. A preview has had no effect. An application has
  -- made the missing directories, then the place, then stored the configuration with the place
  -- among the trees that no backup takes, beside those that were, and nothing else of it changed, and
  -- only then run restic, made the queue's copy inert and written the note, in
  -- this order. A restore that raises has put nothing into the place, or its last act was to
  -- write the marker of an incomplete restore into the place that it had reviewed.
  pub restore_lem :
      (config : Config) (dict : Dict) (selector : Text) (target : Option Text) (apply : Bool)
      → Post
          (IsStaged config dict selector target apply)
          (IsMarked (Place config selector target apply))
          (restore m config dict selector target apply [])
  unfolding restore
  restore_lem config dict selector target apply =
      Triple-bind (IsMarked (Place config selector target apply))
        (λ (id, p) s. Nothing s × IsReviewed m config selector target apply id p)
        (IsStaged config dict selector target apply) (review m config selector target apply) _
        (review-IsReviewed m (Place config selector target apply) config selector target apply)
        (λ (id, p) s (n, r). materialize-IsStaged config dict selector target apply id p r s n) []
        refl
