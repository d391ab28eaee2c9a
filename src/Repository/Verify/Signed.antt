-- ===== src/Repository/Verify/Signed.antt =====
-- What `verify` of scripts/repo.py lets pass.
use mathlib.Core.Path.{subst}
use rougarou_os.Base.{
  ℕ, ◌≡◌, refl, ap, sym, ◌∙◌, Bool, true, false, ◌&&◌, ◌||◌, Option, some, List, [], ◌∷◌, ◌++◌, ltb,
  arith, ok, Text, codes, same_text, same_text→eq, has_text, PurePath, ◌⊎◌, inl, inr,
}
use rougarou_os.Base.Dicts.{Table, value_at}
use rougarou_os.Base.Json.{Json, object, no_members}
use rougarou_os.Base.Results.{bind-ok, demand-ok, then-ok}
use rougarou_os.Repository.Packages.{
  not_authentic, wrong_identity, metadata_expired, indexes_missing, compressed_mismatch,
  keyring_missing, gpg_failed, not_a_number, key_error, os_error, Bytes, Node, given, file,
  bytes_of, read_records, validate_packages,
}
use rougarou_os.Repository.Packages.Valid.{
  given-ok, ok_eq, demand_last, ArePackages, validate_packages_lem,
}
use rougarou_os.Repository.Verify.{
  Checks, Verification, check_lines, authentic, only, is_ours, index_lines, current_release,
  check_indexes, check_compressed, signed_snapshot, verify,
}
use rougarou_os.Repository.Verify.Listed.{Listed, listed}

module _ (checks : Checks) (node_at : PurePath → Node) where
  -- Both signatures are good for the keyring: one for a text that is the release, but for one line
  -- feed at its end, the other for the release itself.
  pub record IsAuthentic (keyring release : Bytes) : Type 0 where
    pub in_release : Bytes
    pub cleartext : Bytes
    pub signature : Bytes
    pub clear : checks.clear_of keyring in_release ≡ some cleartext
    pub same : (cleartext ≡ release) ⊎ (cleartext ≡ release ++ 10 ∷ [])
    pub detached : checks.is_signed keyring signature release ≡ true
    pub content : (file (codes "Release") node_at).content ≡ some release

  one_true : (a b : Bool) → (a || b) ≡ true → (a ≡ true) ⊎ (b ≡ true)
  one_true true b h = inl refl
  one_true false b h = inr h

  one_of :
      (c r : Text)
      → (same_text c r ≡ true) ⊎ (same_text c (r ++ 10 ∷ []) ≡ true)
      → (c ≡ r) ⊎ (c ≡ r ++ 10 ∷ [])
  one_of c r (inl e) = inl (same_text→eq c r e)
  one_of c r (inr e) = inr (same_text→eq c (r ++ 10 ∷ []) e)

  authentic-IsAuthentic :
      (keyring release : Bytes)
      → authentic checks node_at keyring ≡ ok release
      → IsAuthentic keyring release
  unfolding authentic bytes_of
  authentic-IsAuthentic keyring release h =
      let (i, e1, h1) =
        bind-ok (given gpg_failed (file (codes "InRelease") node_at).content) _ release h in
      let (c, e2, h2) = bind-ok (given gpg_failed (checks.clear_of keyring i)) _ release h1 in
      let (r, e3, h3) =
        bind-ok (given os_error (file (codes "Release") node_at).content) _ release h2 in
      let (e4, h4) =
        demand-ok (same_text c r || same_text c (r ++ 10 ∷ [])) not_authentic _ release h3 in
      let (s, e5, h5) =
        bind-ok (given gpg_failed (file (codes "Release.gpg") node_at).content) _ release h4 in
      let (e6, h6) = demand-ok (checks.is_signed keyring s r) gpg_failed _ release h5 in
      subst (IsAuthentic keyring) (ok_eq r release h6) (record {
        in_release = i;
        cleartext = c;
        signature = s;
        clear = given-ok gpg_failed (checks.clear_of keyring i) c e2;
        same = one_of c r (one_true (same_text c r) (same_text c (r ++ 10 ∷ [])) e4);
        detached = e6;
        content = given-ok os_error (file (codes "Release") node_at).content r e3;
      })

  only-eq :
      (entries : List Table) (release : Table)
      → only checks node_at entries ≡ ok release
      → entries ≡ release ∷ []
  only-eq [] release h = cc
  only-eq (r ∷ []) release h = ap (λ z. z ∷ []) (ok_eq r release h)
  only-eq (r ∷ q ∷ rest) release h = cc

  signed_snapshot-Listed :
      (b : Bool) (lines checked : List Text) (j : Json)
      → has_text (codes "snapshot.json") checked ≡ b
      → check_lines checks node_at [] lines ≡ ok checked
      → signed_snapshot checks node_at checked ≡ ok j
      → (j ≡ object no_members) ⊎ Listed checks node_at (codes "snapshot.json") lines
  unfolding signed_snapshot
  signed_snapshot-Listed true lines checked j e l h =
      inr (listed checks node_at lines checked (codes "snapshot.json") l e)
  signed_snapshot-Listed false lines checked j e l h =
      inl (sym (ok_eq (object no_members) j (rw e at h)))

  pub record IsCurrent (now : ℕ) (release : Table) : Type 0 where
    pub until : Text
    pub expiry : ℕ
    pub entry : read_records checks.reads (file (codes "Release") node_at) ≡ ok (release ∷ [])
    pub ours : is_ours checks node_at release ≡ true
    pub valid_until : value_at (codes "Valid-Until") release ≡ some until
    pub dated : checks.date_of until ≡ some expiry
    pub in_time : ltb now expiry ≡ true

  current_release-IsCurrent :
      (now : ℕ) (release : Table)
      → current_release checks node_at now ≡ ok release
      → IsCurrent now release
  unfolding current_release
  current_release-IsCurrent now release h =
      let (rs, e1, h1) =
        bind-ok (read_records checks.reads (file (codes "Release") node_at)) _ release h in
      let (r, e2, h2) = bind-ok (only checks node_at rs) _ release h1 in
      let (e3, h3) = demand-ok (is_ours checks node_at r) wrong_identity _ release h2 in
      let (until, e4, h4) =
        bind-ok (given key_error (value_at (codes "Valid-Until") r)) _ release h3 in
      let (expiry, e5, h5) = bind-ok (given not_a_number (checks.date_of until)) _ release h4 in
      let (e6, h6) = demand-ok (ltb now expiry) metadata_expired _ release h5 in
      subst (IsCurrent now) (ok_eq r release h6) (record {
        until = until;
        expiry = expiry;
        entry = e1 ∙ ap ok (only-eq rs r e2);
        ours = e3;
        valid_until = given-ok key_error (value_at (codes "Valid-Until") r) until e4;
        dated = given-ok not_a_number (checks.date_of until) expiry e5;
        in_time = e6;
      })

  check_indexes-ok :
      (release : Table) (checked : List Text)
      → check_indexes checks node_at release ≡ ok checked
      → (check_lines checks node_at [] (index_lines checks node_at release) ≡ ok checked)
        × (has_text (codes "Packages") checked ≡ true)
        × (has_text (codes "Packages.gz") checked ≡ true)
  unfolding check_indexes
  check_indexes-ok release checked h =
      let (c, e1, h1) =
        bind-ok (check_lines checks node_at [] (index_lines checks node_at release)) _ checked h in
      let (e2, h2) =
        demand-ok (has_text (codes "Packages") c && has_text (codes "Packages.gz") c)
          indexes_missing _ checked h1 in
      let d : c ≡ checked = ok_eq c checked h2 in
      (
        e1 ∙ h2,
        subst (λ z. has_text (codes "Packages") z ≡ true) d (ground (arith, e2)),
        subst (λ z. has_text (codes "Packages.gz") z ≡ true) d (ground (arith, e2)),
      )

  -- The package index is what its compressed form holds.
  pub record IsPacked : Type 0 where
    pub packed : Bytes
    pub plain : Bytes
    pub packed_content : (file (codes "Packages.gz") node_at).content ≡ some packed
    pub plain_content : (file (codes "Packages") node_at).content ≡ some plain
    pub unpacked : checks.decompress packed ≡ some plain

  check_compressed-IsPacked : (u : Unit {0}) → check_compressed checks node_at ≡ ok u → IsPacked
  unfolding check_compressed bytes_of
  check_compressed-IsPacked u h =
      let (packed, e1, h1) =
        bind-ok (given os_error (file (codes "Packages.gz") node_at).content) _ u h in
      let (index, e2, h2) = bind-ok (given os_error (checks.decompress packed)) _ u h1 in
      let (plain, e3, h3) =
        bind-ok (given os_error (file (codes "Packages") node_at).content) _ u h2 in
      let d : index ≡ plain = same_text→eq index plain (demand_last _ compressed_mismatch u h3) in
      record {
        packed = packed;
        plain = plain;
        packed_content = given-ok os_error (file (codes "Packages.gz") node_at).content packed e1;
        plain_content = given-ok os_error (file (codes "Packages") node_at).content plain e3;
        unpacked = given-ok os_error (checks.decompress packed) index e2 ∙ ap some d;
      }

  -- What `verify` knows of a folder that it lets pass.
  pub record IsSigned (keyring : Bytes) (now : ℕ) (v : Verification) : Type 0 where
    pub bytes : Bytes
    pub authentic : IsAuthentic keyring bytes
    pub current : IsCurrent now v.release
    pub packages : Listed checks node_at (codes "Packages") (index_lines checks node_at v.release)
    pub compressed :
        Listed checks node_at (codes "Packages.gz") (index_lines checks node_at v.release)
    pub packed : IsPacked
    pub entries : List Table
    pub valid : ArePackages checks.reads node_at [] entries
    pub snapshot :
        (v.snapshot ≡ object no_members)
        ⊎ Listed checks node_at (codes "snapshot.json") (index_lines checks node_at v.release)

  -- A folder that `verify` lets pass has two signatures that are good for the keyring, of its one
  -- Release entry; that entry is of this archive and has not expired; the entry lists the package
  -- index and its compressed form, each a regular file of the listed size and hash, and the one is
  -- the other's content; every package is valid; and the snapshot that is returned is empty, or
  -- its file is listed and of the listed size and hash too.
  pub verify-IsSigned :
      (keyring : Option Bytes) (now : ℕ) (v : Verification)
      → verify checks node_at keyring now ≡ ok v
      → (k : Bytes) × (keyring ≡ some k) × IsSigned k now v
  unfolding verify
  verify-IsSigned keyring now v h0 =
      let (k, e1, h1) = bind-ok (given keyring_missing keyring) _ v h0 in
      let (bytes, e2, h2) = bind-ok (authentic checks node_at k) _ v h1 in
      let (r, e3, h3) = bind-ok (current_release checks node_at now) _ v h2 in
      let (checked, e4, h4) = bind-ok (check_indexes checks node_at r) _ v h3 in
      let (e5, h5) = then-ok (check_compressed checks node_at) _ v h4 in
      let (entries, e6, h6) = bind-ok (validate_packages checks.reads node_at) _ v h5 in
      let (j, e7, h7) = bind-ok (signed_snapshot checks node_at checked) _ v h6 in
      let lines : List Text = index_lines checks node_at r in
      let (c, p, g) = check_indexes-ok r checked e4 in
      subst (λ z. (q : Bytes) × (keyring ≡ some q) × IsSigned q now z)
        (ok_eq (record { release = r; snapshot = j }) v h7)
        (
          k,
          given-ok keyring_missing keyring k e1,
          record {
            bytes = bytes;
            authentic = authentic-IsAuthentic k bytes e2;
            current = current_release-IsCurrent now r e3;
            packages = listed checks node_at lines checked (codes "Packages") c p;
            compressed = listed checks node_at lines checked (codes "Packages.gz") c g;
            packed = check_compressed-IsPacked tt e5;
            entries = entries;
            valid = (validate_packages_lem checks.reads node_at entries e6).1;
            snapshot =
                signed_snapshot-Listed (has_text (codes "snapshot.json") checked) lines checked j
                  refl c e7;
          },
        )
