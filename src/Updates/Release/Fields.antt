-- ===== src/Updates/Release/Fields.antt =====
-- What signed metadata says that passes the checks of rootfs/usr/lib/rougarou/updates.py.
use rougarou_os.Base.{
  String, same_text→eq, ℕ, ◌+◌, ◌≤◌, ◌<◌, ◌≡◌, refl, ◌∙◌, ap, Bool, true, false, not, ◌&&◌, Option,
  none, some, List, [], ◌∷◌, leb, ltb, codes, Result, ok, err, Text, is_empty, is_none, arith, inl,
  inr, Bool-cases,
}
use rougarou_os.Base.Dicts.{Table, value_at}
use mathlib.Core.Path.{subst}
use rougarou_os.Base.Lines.{words, strip}
use rougarou_os.Base.Results.{◌>>=◌, ◌>>◌, demand, bind-ok, demand-ok}
use rougarou_os.Updates.Release.{
  MetadataError, time_invalid, expired, security_identity, archive_identity, other_channel,
  bad_entry, duplicate_path, no_hashes, Channel, debian_security, bootstrap, testing, stable, says,
  check_identity, says_value, date_at, release_check, Digits, Hashes, hash_of, is_sha256,
  are_digits, sized, add_entry, add_entries, signed_hashes,
}

ok_eq : {A : Type 0} (a b : A) → ◌≡◌ {A = Result MetadataError A} (ok a) (ok b) → a ≡ b
ok_eq a b h = cc

-- The archive that the channel is of: what the signed fields that name it say.
abbrev pub IsArchive : String → String → String → Table → Type 0
IsArchive origin label codename f =
    (value_at (codes "Origin") f ≡ some (codes origin))
    × (value_at (codes "Label") f ≡ some (codes label))
    × (value_at (codes "Codename") f ≡ some (codes codename))

abbrev pub IsOf : Channel → Table → Type 0
IsOf debian_security f = IsArchive "Debian" "Debian-Security" "trixie-security" f
IsOf testing f =
    IsArchive "Rougarou" "Rougarou" "rougarou" f
    × (value_at (codes "Suite") f ≡ some (codes "testing"))
IsOf stable f =
    IsArchive "Rougarou" "Rougarou" "rougarou" f
    × (value_at (codes "Suite") f ≡ some (codes "stable"))
IsOf bootstrap f = IsArchive "Rougarou" "Rougarou" "rougarou" f

pub record IsRelease (date_of : Text → Option ℕ) (f : Table) (channel : Channel) (now expiry : ℕ)
    : Type 0 where
  pub date : ℕ
  pub dated : date_at date_of (value_at (codes "Date") f) ≡ ok date
  pub valid_until : date_at date_of (value_at (codes "Valid-Until") f) ≡ ok expiry
  pub not_future : date ≤ now + 300
  pub in_order : date < expiry
  pub in_time : now < expiry
  pub identity : IsOf channel f

says-value : (key value : Text) (f : Table) → says key value f ≡ true → value_at key f ≡ some value
says-value key value f h = at (value_at key f) refl h
  where
    at :
        (o : Option Text)
        → value_at key f ≡ o
        → says_value value o ≡ true
        → value_at key f ≡ some value
    at none e g = cc
    at (some v) e g = e ∙ ap some (same_text→eq v value g)

IsArchive-of :
    (origin label codename : String) (f : Table)
    → (says (codes "Origin") (codes origin) f
        && says (codes "Label") (codes label) f
        && says (codes "Codename") (codes codename) f)
      ≡ true
    → IsArchive origin label codename f
IsArchive-of origin label codename f h = (
  says-value (codes "Origin") (codes origin) f (ground (arith, h)),
  says-value (codes "Label") (codes label) f (ground (arith, h)),
  says-value (codes "Codename") (codes codename) f (ground (arith, h)),
)

demand_last : (b : Bool) (e : MetadataError) (u : Unit {0}) → demand b e ≡ ok u → b ≡ true
demand_last true e u h = refl
demand_last false e u h = cc

-- The part of Rougarou's channels.
rougarou :
    (f : Table) (n : Result MetadataError (Unit {0})) (u : Unit {0})
    → (demand
          (says (codes "Origin") (codes "Rougarou") f
            && says (codes "Label") (codes "Rougarou") f
            && says (codes "Codename") (codes "rougarou") f)
          archive_identity
        >> n)
      ≡ ok u
    → IsArchive "Rougarou" "Rougarou" "rougarou" f × (n ≡ ok u)
rougarou f n u h =
    let (a, g) =
      demand-ok
        (says (codes "Origin") (codes "Rougarou") f
          && says (codes "Label") (codes "Rougarou") f
          && says (codes "Codename") (codes "rougarou") f)
        archive_identity n u h in
    (IsArchive-of "Rougarou" "Rougarou" "rougarou" f a, g)

identity-IsOf : (c : Channel) (f : Table) (u : Unit {0}) → check_identity c f ≡ ok u → IsOf c f
identity-IsOf debian_security f u h = IsArchive-of "Debian" "Debian-Security" "trixie-security" f (
    demand_last
      (says (codes "Origin") (codes "Debian") f
        && says (codes "Label") (codes "Debian-Security") f
        && says (codes "Codename") (codes "trixie-security") f)
      security_identity u h)
identity-IsOf bootstrap f u h = (rougarou f _ u h).0
identity-IsOf testing f u h =
    let (a, g) = rougarou f _ u h in
    (
      a,
      says-value (codes "Suite") (codes "testing") f
          (demand_last (says (codes "Suite") (codes "testing") f) other_channel u g),
    )
identity-IsOf stable f u h =
    let (a, g) = rougarou f _ u h in
    (
      a,
      says-value (codes "Suite") (codes "stable") f
          (demand_last (says (codes "Suite") (codes "stable") f) other_channel u g),
    )

-- What `release_check` lets pass has a date that is at most five minutes ahead and an expiry that is
-- behind both that date and the present, which is what it returns; and its fields Origin, Label and
-- Codename are those of the source's channel (Debian's security archive, or Rougarou), with the very
-- suite for a testing or stable channel.
pub release_lem :
    (date_of : Text → Option ℕ) (f : Table) (channel : Channel) (now expiry : ℕ)
    → release_check date_of f channel now ≡ ok expiry
    → IsRelease date_of f channel now expiry
unfolding release_check
release_lem date_of f channel now expiry h0 =
    let (date, e1, h1) = bind-ok (date_at date_of (value_at (codes "Date") f)) _ expiry h0 in
    let (until, e2, h2) =
      bind-ok (date_at date_of (value_at (codes "Valid-Until") f)) _ expiry h1 in
    let (e3, h3) = demand-ok (leb date (now + 300) && ltb date until) time_invalid _ expiry h2 in
    let (e4, h4) = demand-ok (ltb now until) expired _ expiry h3 in
    let q = in_identity until (check_identity channel f) refl h4 in
    record {
      date = date;
      dated = e1;
      valid_until = e2 ∙ ap (λ z. ok z) q.0;
      not_future = ground (arith, e3);
      in_order = subst (λ z. date < z) q.0 (ground (arith, e3));
      in_time = subst (λ z. now < z) q.0 (ground (arith, e4));
      identity = q.1;
    }
  where
    in_identity :
        (until : ℕ) (r : Result MetadataError (Unit {0}))
        → check_identity channel f ≡ r
        → (r >> ok until) ≡ ok expiry
        → (until ≡ expiry) × IsOf channel f
    in_identity until (ok u) e h = (ok_eq until expiry h, identity-IsOf channel f u e)
    in_identity until (err x) e h = cc

-- No path has two entries, and each hash is one.
abbrev pub AreHashes : Hashes → Type 0
AreHashes [] = Unit
AreHashes ((path, hash, size) ∷ rest) =
    (hash_of path rest ≡ none) × (is_sha256 hash ≡ true) × AreHashes rest

is_none-eq : {A : Type 0} (o : Option A) → is_none o ≡ true → o ≡ none
is_none-eq none h = refl
is_none-eq (some a) h = cc

entry-AreHashes :
    (d : Digits) (ws : List Text) (hs u : Hashes)
    → AreHashes hs
    → add_entry d ws hs ≡ ok u
    → AreHashes u
entry-AreHashes d (h ∷ n ∷ path ∷ []) hs u a e =
    let (b, e1) = demand-ok (is_sha256 h && are_digits d n) bad_entry _ u e in
    let (c, e2) = demand-ok (is_none (hash_of path hs)) duplicate_path _ u e1 in
    let (size, _, e3) = bind-ok (sized d n) (λ size. ok ((path, h, size) ∷ hs)) u e2 in
    subst AreHashes (ok_eq ((path, h, size) ∷ hs) u e3)
      (is_none-eq (hash_of path hs) c, both (is_sha256 h) (are_digits d n) b, a)
  where
    both : (x y : Bool) → (x && y) ≡ true → x ≡ true
    both x y h = ground (arith, h)
entry-AreHashes d [] hs u a e = cc
entry-AreHashes d (_ ∷ []) hs u a e = cc
entry-AreHashes d (_ ∷ _ ∷ []) hs u a e = cc
entry-AreHashes d (_ ∷ _ ∷ _ ∷ _ ∷ _) hs u a e = cc

entries-AreHashes :
    (d : Digits) (lines : List Text) (hs u : Hashes)
    → AreHashes hs
    → add_entries d lines hs ≡ ok u
    → AreHashes u
unfolding add_entries
entries-AreHashes d [] hs u a e = subst AreHashes (ok_eq hs u e) a
entries-AreHashes d (line ∷ lines) hs u a e = elim (Bool-cases (is_empty (strip line))) [
  | inl b ↦ entries-AreHashes d lines hs u a (rw b at e)
  | inr b ↦
      let f : (add_entry d (words line) hs >>= add_entries d lines) ≡ ok u = rw b at e in
      let (m, e1, e2) = bind-ok (add_entry d (words line) hs) (add_entries d lines) u f in
      entries-AreHashes d lines m u (entry-AreHashes d (words line) hs m a e1) e2
]

-- The hashes that `signed_hashes` returns are of different paths, each 64 hexadecimal digits, and
-- there is one.
pub signed_hashes_lem :
    (d : Digits) (f : Table) (hs : Hashes)
    → signed_hashes d f ≡ ok hs
    → AreHashes hs × (is_empty hs ≡ false)
unfolding signed_hashes
signed_hashes_lem d f hs h =
    let (u, e, g) = bind-ok (add_entries d _ []) _ hs h in
    let (n, k) = demand-ok (not (is_empty u)) no_hashes (ok u) hs g in
    subst (λ z. AreHashes z × (is_empty z ≡ false)) (ok_eq u hs k)
      (entries-AreHashes d _ [] u tt e, ground (arith, n))
