-- ===== src/Repository/Sign/Failed.antt =====
-- What `sign_flat` of scripts/repo.py leaves of the three files that clients trust.
use rougarou_os.Base.{
  ℕ, String, ◌≡◌, refl, Bool, true, false, ◌&&◌, Option, none, some, List, [], ◌∷◌, ◌++◌, codes,
  Result, ok, err, gets, lift, modify, require, ◌>>=◌, Text, has_text, same_text, join, begins,
  PurePath, path_of, same_path, split_on, select, are_prefix, Triple, Triple-bind, Post,
  if◌then◌else◌, leb,
}
use rougarou_os.Repository.Packages.{
  RepositoryError, bad_suite, bad_days, gpg_failed, index_modified, Bytes, Node, given, file,
  bytes_of, validate_packages, Home, check_signer,
}
use rougarou_os.Repository.Sign.{
  Folder, exists, write, Signing, Signer, by_hash, header, keep_by_hash, keep_index, metadata_line,
  metadata_lines, metadata_of, publish, sign_flat,
}

abbrev pub node : String → Folder → Node
node t folder = folder.node_at (path_of (codes t))

-- The three files are as they were.
pub record Same (old folder : Folder) : Type 0 where
  pub release : node "Release" folder ≡ node "Release" old
  pub signature : node "Release.gpg" folder ≡ node "Release.gpg" old
  pub in_release : node "InRelease" folder ≡ node "InRelease" old

-- The three files are a release and its two signatures by the key.
pub record Published (signer : Signer) (key : Text) (folder : Folder) : Type 0 where
  pub password : Option Bytes
  pub release_bytes : Bytes
  pub signature_bytes : Bytes
  pub clear_bytes : Bytes
  pub release : (node "Release" folder).content ≡ some release_bytes
  pub signature : (node "Release.gpg" folder).content ≡ some signature_bytes
  pub in_release : (node "InRelease" folder).content ≡ some clear_bytes
  pub clear : signer.clear_sign password key release_bytes ≡ some clear_bytes
  pub detached : signer.detach_sign password key release_bytes ≡ some signature_bytes

-- Some other path is written.
abbrev IsOther : PurePath → Type 0
IsOther path =
    (same_path (path_of (codes "Release")) path ≡ false)
    × (same_path (path_of (codes "Release.gpg")) path ≡ false)
    × (same_path (path_of (codes "InRelease")) path ≡ false)

write-Same :
    (old folder : Folder) (path : PurePath) (bytes : Bytes)
    → IsOther path
    → Same old folder
    → Same old (write path bytes folder)
unfolding write
write-Same old folder path bytes (a, b, c) s = record {
  release = rw a s.release;
  signature = rw b s.signature;
  in_release = rw c s.in_release;
}

by_hash-IsOther : (digest : Text) → IsOther (by_hash digest)
unfolding path_of split_on select same_text are_prefix
by_hash-IsOther digest = (refl, refl, refl)

packages-IsOther : IsOther (path_of (codes "Packages.gz"))
unfolding path_of split_on select same_text are_prefix
packages-IsOther = (refl, refl, refl)

-- A step that leaves them, whether it returns or raises.
abbrev Keeps : {A : Type 0} → Folder → Signing A → Type 0
Keeps old m = Triple (Same old) m (λ _. Same old) (Same old)

module _ (old : Folder) where
  Keeps-bind :
      {A B : Type 0} (m : Signing A) (f : A → Signing B)
      → Keeps old m
      → ((a : A) → Keeps old (f a))
      → Keeps old (m >>= f)
  Keeps-bind m f h g = Triple-bind (Same old) (λ _. Same old) (λ _. Same old) m f h g

  Keeps-lift : {A : Type 0} (r : Result RepositoryError A) → Keeps old (lift r)
  Keeps-lift (ok a) folder s = s
  Keeps-lift (err e) folder s = s

  Keeps-read :
      {A : Type 0} (g : Folder → Result RepositoryError A)
      → Keeps old (λ folder. lift (g folder) folder)
  Keeps-read g folder s = Keeps-lift (g folder) folder s

  Keeps-require : (b : Bool) (e : RepositoryError) → Keeps old (require b e)
  Keeps-require true e folder s = s
  Keeps-require false e folder s = s

  Keeps-write :
      (path : PurePath) (bytes : Bytes) → IsOther path → Keeps old (modify (write path bytes))
  Keeps-write path bytes other folder s = write-Same old folder path bytes other s

  module _ (signer : Signer) where
    keep_by_hash-Keeps :
        (digest : Text) (bytes : Bytes) (hashed : Node)
        → Keeps old (keep_by_hash signer digest bytes hashed)
    keep_by_hash-Keeps digest bytes hashed = at (exists hashed)
      where
        at :
            (b : Bool)
            → Keeps old (
                if b
                then (do
                  past ← lift (bytes_of hashed)
                  require (same_text (signer.reads.sha256 past) digest) index_modified)
                else modify (write (by_hash digest) bytes))
        at true =
            Keeps-bind (lift (bytes_of hashed)) _ (Keeps-lift (bytes_of hashed))
              (λ past. Keeps-require (same_text (signer.reads.sha256 past) digest) index_modified)
        at false = Keeps-write (by_hash digest) bytes (by_hash-IsOther digest)

    keep_index-Keeps :
        (t digest : Text) (bytes : Bytes) → Keeps old (keep_index signer t digest bytes)
    keep_index-Keeps t digest bytes folder s = at (begins (codes "Packages") t)
      where
        at :
            (b : Bool)
            → Post
                (λ _. Same old)
                (Same old)
                (if b
                  then keep_by_hash signer digest bytes (folder.node_at (by_hash digest)) folder
                  else (ok tt, folder))
        at true = keep_by_hash-Keeps digest bytes (folder.node_at (by_hash digest)) folder s
        at false = s

    metadata_line-Keeps : (t : Text) → Keeps old (metadata_line signer t)
    unfolding metadata_line
    metadata_line-Keeps t =
        Keeps-bind _ _ (Keeps-read (λ folder. bytes_of (file t folder.node_at))) (λ bytes.
          Keeps-bind _ _ (keep_index-Keeps t (signer.reads.sha256 bytes) bytes) (λ _ folder s. s))

    metadata_lines-Keeps : (ts : List Text) → Keeps old (metadata_lines signer ts)
    unfolding metadata_lines
    metadata_lines-Keeps [] = λ folder s. s
    metadata_lines-Keeps (t ∷ ts) =
        Keeps-bind _ _ (metadata_line-Keeps t)
          (λ line. Keeps-bind _ _ (metadata_lines-Keeps ts) (λ lines folder s. s))

    given-Keeps :
        {A : Type 0} {P : Folder → Type 0} (e : RepositoryError) (o : Option A)
        → ((folder : Folder) → P folder → Same old folder)
        → Triple P (lift (given e o)) (λ a folder. P folder × (o ≡ some a)) (Same old)
    given-Keeps e none f folder p = f folder p
    given-Keeps e (some a) f folder p = (p, refl)

    write-Published :
        (password : Option Bytes) (key : Text) (release c d : Bytes)
        → signer.clear_sign password key release ≡ some c
        → signer.detach_sign password key release ≡ some d
        → (folder : Folder)
        → Published signer key (
            write (path_of (codes "InRelease")) c (
              write
                (path_of (codes "Release.gpg"))
                d
                (write (path_of (codes "Release")) release folder)))
    unfolding write path_of split_on select same_text are_prefix
    write-Published password key release c d e f folder = record {
      password = password;
      release_bytes = release;
      signature_bytes = d;
      clear_bytes = c;
      release = refl;
      signature = refl;
      in_release = refl;
      clear = e;
      detached = f;
    }

    publish-Published :
        (password : Option Bytes) (key : Text) (release : Bytes)
        → Triple
            (Same old)
            (publish signer password key release)
            (λ _. Published signer key)
            (Same old)
    publish-Published password key release =
        Triple-bind (Same old)
          (λ c folder. Same old folder × (signer.clear_sign password key release ≡ some c))
          (λ _. Published signer key) _ _
          (given-Keeps gpg_failed (signer.clear_sign password key release) (λ folder s. s))
          (λ c.
            Triple-bind (Same old)
              (λ d folder.
                (Same old folder × (signer.clear_sign password key release ≡ some c))
                × (signer.detach_sign password key release ≡ some d))
              (λ _. Published signer key) _ _
              (given-Keeps gpg_failed (signer.detach_sign password key release) (λ folder p. p.0))
              (λ d folder ((s, e), f). write-Published password key release c d e f folder))

    -- When `sign_flat` raises, Release and its two signatures are the files they were before; when it
    -- returns, Release.gpg and InRelease are what the signing program made of the very bytes of
    -- Release with the key.
    pub sign_flat_lem :
        (home : Home) (key : Text) (place : PurePath)
        (passphrase : Result RepositoryError (Option Bytes)) (suite : Text) (days now : ℕ)
        → Triple
            (Same old)
            (sign_flat signer home key place passphrase suite days now)
            (λ _. Published signer key)
            (Same old)
    unfolding sign_flat
    sign_flat_lem home key place passphrase suite days now =
        step _ _
          (Keeps-require (has_text suite (codes "snapshot" ∷ codes "testing" ∷ codes "stable" ∷ []))
            bad_suite)
          (λ _. step _ _ (Keeps-require (leb 1 days && leb days 3650) bad_days) (λ _.
            step _ _ (Keeps-lift (check_signer home key place)) (λ _.
              step _ _ (Keeps-read (λ folder. validate_packages signer.reads folder.node_at))
                (λ entries.
                  step _ _
                    (Keeps-read (λ folder. bytes_of (file (codes "Packages") folder.node_at)))
                    (λ packages.
                      step
                        (modify (write (path_of (codes "Packages.gz")) (signer.compress packages)))
                        _
                        (Keeps-write (path_of (codes "Packages.gz")) (signer.compress packages)
                          packages-IsOther)
                        (λ _.
                          step (gets (metadata_of signer)) _ (λ folder s. s)
                            (λ metadata.
                              step (metadata_lines signer metadata) _
                                (metadata_lines-Keeps metadata)
                                (λ lines. step _ _ (Keeps-lift passphrase) (λ password.
                                  publish-Published password key (
                                    signer.encode (
                                      join (codes "\n")
                                        (header signer suite now days entries ++ lines)
                                      ++ codes "\n")))))))))))
      where
        step :
            {A : Type 0} (m : Signing A) (f : A → Signing (Unit {0}))
            → Keeps old m
            → ((a : A) → Triple (Same old) (f a) (λ _. Published signer key) (Same old))
            → Triple (Same old) (m >>= f) (λ _. Published signer key) (Same old)
        step m f h g = Triple-bind (Same old) (λ _. Same old) (λ _. Published signer key) m f h g
