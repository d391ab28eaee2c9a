-- ===== src/Repository/Verify/Listed.antt =====
-- The files that a release lists, as `verify` of scripts/repo.py has found them.
use mathlib.Core.Path.{subst}
use rougarou_os.Base.{
  pos, ◌≡◌, ap, sym, ◌∙◌, Bool, true, false, not, ◌&&◌, some, List, [], ◌∷◌, length, arith, ok,
  Text, same_text, same_text→eq, has_text, is_empty, PurePath, Bool-cases, ◌⊎◌, inl, inr,
  if◌then◌else◌,
}
use rougarou_os.Base.Lines.{words, strip}
use rougarou_os.Base.Results.{bind-ok, demand-ok, then-ok}
use rougarou_os.Repository.Packages.{
  unexpected_index, metadata_mismatch, Bytes, Node, given, file, same_size,
}
use rougarou_os.Repository.Packages.Valid.{given-ok, ok_eq, demand_last, same_size-eq}
use rougarou_os.Repository.Verify.{Checks, index_names, check_index, check_line, check_lines}

module _ (checks : Checks) (node_at : PurePath → Node) where
  -- A file, no link, of the size and the hash that a line gives it.
  pub record IsIndexed (digest size t : Text) : Type 0 where
    pub bytes : Bytes
    pub content : (file t node_at).content ≡ some bytes
    pub no_link : (file t node_at).is_symlink ≡ false
    pub sized : checks.reads.int_of size ≡ some (pos (length bytes))
    pub hashed : checks.reads.sha256 bytes ≡ digest

  -- One of the lines names the file, and gives it its size and hash.
  abbrev pub Listed : Text → List Text → Type 0
  Listed t [] = ⊥
  Listed t (line ∷ lines) =
      ((digest : Text) × (size : Text) × (words line ≡ digest ∷ size ∷ t ∷ [])
        × IsIndexed digest size t)
      ⊎ Listed t lines

  check_index-IsIndexed :
      (digest size t : Text) (u : Unit {0})
      → check_index checks node_at digest size t ≡ ok u
      → IsIndexed digest size t
  unfolding check_index
  check_index-IsIndexed digest size t u h =
      let (bytes, e1, h1) = bind-ok (given metadata_mismatch (file t node_at).content) _ u h in
      let (e2, h2) = demand-ok (not (file t node_at).is_symlink) metadata_mismatch _ u h1 in
      let (sized, e3, h3) = bind-ok (same_size checks.reads size bytes) _ u h2 in
      let (e4, h4) = demand-ok sized metadata_mismatch _ u h3 in
      record {
        bytes = bytes;
        content = given-ok metadata_mismatch (file t node_at).content bytes e1;
        no_link = ground (arith, e2);
        sized = same_size-eq checks.reads size bytes (e3 ∙ ap ok e4);
        hashed =
            same_text→eq (checks.reads.sha256 bytes) digest (demand_last _ metadata_mismatch u h4);
      }

  check_line-Listed :
      (checked ws out : List Text) (t : Text)
      → check_line checks node_at checked ws ≡ ok out
      → has_text t out ≡ true
      → (has_text t checked ≡ true)
        ⊎ ((digest : Text) × (size : Text) × (ws ≡ digest ∷ size ∷ t ∷ [])
            × IsIndexed digest size t)
  unfolding has_text
  check_line-Listed checked (digest ∷ size ∷ s ∷ []) out t h g =
      let (e1, h1) =
        demand-ok (has_text s index_names && not (has_text s checked)) unexpected_index _ out h in
      let (e2, h2) = then-ok (check_index checks node_at digest size s) _ out h1 in
      let i : IsIndexed digest size s = check_index-IsIndexed digest size s tt e2 in
      let k : has_text t (s ∷ checked) ≡ true =
        subst (λ z. has_text t z ≡ true) (sym (ok_eq (s ∷ checked) out h2)) g in
      elim (Bool-cases (same_text s t)) [
        | inl e ↦
            let d : s ≡ t = same_text→eq s t e in
            inr
              (digest, size, ap (λ z. digest ∷ size ∷ z ∷ []) d, subst (IsIndexed digest size) d i)
        | inr e ↦ inl (ground arith)
      ]
  check_line-Listed checked [] out t h g = cc
  check_line-Listed checked (_ ∷ []) out t h g = cc
  check_line-Listed checked (_ ∷ _ ∷ []) out t h g = cc
  check_line-Listed checked (_ ∷ _ ∷ _ ∷ _ ∷ _) out t h g = cc

  step-Listed :
      (b : Bool) (checked ws out : List Text) (t : Text)
      → (if b then ok checked else check_line checks node_at checked ws) ≡ ok out
      → has_text t out ≡ true
      → (has_text t checked ≡ true)
        ⊎ ((digest : Text) × (size : Text) × (ws ≡ digest ∷ size ∷ t ∷ [])
            × IsIndexed digest size t)
  step-Listed true checked ws out t h g =
      inl (subst (λ z. has_text t z ≡ true) (sym (ok_eq checked out h)) g)
  step-Listed false checked ws out t h g = check_line-Listed checked ws out t h g

  check_lines-Listed :
      (checked lines out : List Text) (t : Text)
      → check_lines checks node_at checked lines ≡ ok out
      → has_text t out ≡ true
      → (has_text t checked ≡ true) ⊎ Listed t lines
  unfolding check_lines
  check_lines-Listed checked [] out t h g =
      inl (subst (λ z. has_text t z ≡ true) (sym (ok_eq checked out h)) g)
  check_lines-Listed checked (line ∷ lines) out t h g =
      let (mid, e, h1) =
        bind-ok
          (if is_empty (strip line)
            then ok checked
            else check_line checks node_at checked (words line))
          _ out h in
      elim (check_lines-Listed mid lines out t h1 g) [
        | inl k ↦ elim (step-Listed (is_empty (strip line)) checked (words line) mid t e k) [
          | inl old ↦ inl old
          | inr new ↦ inr (inl new)
        ]
        | inr later ↦ inr (inr later)
      ]

  pub listed :
      (lines out : List Text) (t : Text)
      → check_lines checks node_at [] lines ≡ ok out
      → has_text t out ≡ true
      → Listed t lines
  unfolding has_text
  listed lines out t h g = elim (check_lines-Listed [] lines out t h g) [ inl k ↦ cc | inr l ↦ l ]
