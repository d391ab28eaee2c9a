-- ===== src/Repository/Tests.antt =====
-- A repository of scripts/repo.py with one snapshot, and the theorems at it.
use rougarou_os.Base.{
  ℕ, ◌+◌, ◌*◌, ◌-◌, pos, ◌≡◌, refl, Bool, true, false, Option, none, some, List, [], ◌∷◌, ◌++◌, leb,
  ◌&&◌, codes, Result, ok, err, Text, same_text, has_text, has_code, split_on, all, any, select,
  are_prefix, path_of, one_slash, is_ok, Post, if◌then◌else◌,
}
use rougarou_os.Base.Dicts.{Table, set_value, span, value_at}
use rougarou_os.Base.Json.{
  Json, text, array, object, no_elements, element, no_members, member, lookup,
}
use rougarou_os.Base.Lines.{is_space, is_line_end, split_lines, words, strip, strip_left}
use rougarou_os.Repository.Records.{read_lines, records, encode_records}
use rougarou_os.Repository.Records.Layout.{is_entry, keys_differ}
use rougarou_os.Repository.Records.Encoded.{records-encode_records}
use rougarou_os.Repository.Packages.{
  RepositoryError, duplicate_version, metadata_expired, Bytes, Reads, file, read_records, bytes_of,
  same_size, is_deb, package_path, field_at, package_of, same_version, check_file, check_entries,
  validate_packages, is_identifier, identifier, Home, check_signer,
}
use rougarou_os.Repository.Verify.{
  Checks, Verification, check_index, check_lines, authentic, current_release, check_indexes,
  check_compressed, signed_snapshot, verify,
}
use rougarou_os.Repository.Verify.Signed.{IsSigned, verify-IsSigned}
use rougarou_os.Repository.Sign.{Folder, Signer, write, sign_flat}
use rougarou_os.Repository.Sign.Failed.{Same, Published, sign_flat_lem}
use rougarou_os.Repository.Publish.{Channel, testing, stable, Repository, no_folder, Run}
use rougarou_os.Repository.Gate.{Promotion, read_evidence, stable_evidence, checked}
use rougarou_os.Repository.Promote.{promote}
use rougarou_os.Repository.Promote.Kept.{Promoted, Untouched}
use rougarou_os.Repository.Promote.Linked.{promote_lem}

abbrev hash : Text
hash = codes "aaaaaaaaaaaaaaaaaaaaaaaaaaaaaaaaaaaaaaaaaaaaaaaaaaaaaaaaaaaaaaaa"

abbrev packages : Text
packages =
    codes "Package: a\nVersion: 1\nArchitecture: all\nFilename: pool/a.deb\nSize: 3\nSHA256: "
    ++ hash
    ++ codes "\n\n"

abbrev release : Text
release =
    codes "Origin: Rougarou\nCodename: rougarou\nSuite: testing\nValid-Until: x\nSHA256:\n "
    ++ hash
    ++ codes " 143 Packages\n "
    ++ hash
    ++ codes " 143 Packages.gz\n "
    ++ hash
    ++ codes " 2 snapshot.json\n"

abbrev number : ℕ → Text → ℕ
number n [] = n
number n (c ∷ t) = number (n * 10 + (c - 48)) t

abbrev reads : Reads
reads = record {
  sha256 = λ bytes. hash;
  decode = λ bytes. some bytes;
  is_digit = λ c. leb 48 c && leb c 57;
  int_of = λ t. some (pos (number 0 t));
}

abbrev evidence_json : Json
evidence_json = object (
    member (codes "snapshot") (text (codes "s1")) (
      member (codes "result") (text (codes "pass")) (
        member (codes "tests") (array (element (text (codes "boot")) no_elements))
          (member (codes "approved_by") (text (codes "op")) no_members))))

-- Signatures are the text itself, and every object is the evidence's.
abbrev checks : Checks
checks = record {
  reads = reads;
  clear_of = λ keyring signed. some signed;
  is_signed = λ keyring signature signed. true;
  decompress = λ bytes. some bytes;
  date_of = λ t. some 100;
  json_of = λ t. some evidence_json;
}

put_file : Text → Bytes → Folder → Folder
unfolding write path_of split_on select same_text are_prefix
put_file t bytes folder = write (path_of t) bytes folder

abbrev signed : Folder
signed = put_file (codes "Packages") packages (
    put_file (codes "Packages.gz") packages (
      put_file (codes "snapshot.json") (codes "{}") (
        put_file (codes "Release") release (
          put_file (codes "InRelease") release (
            put_file (codes "Release.gpg") (codes "s")
              (put_file (codes "pool/a.deb") (codes "abc") no_folder))))))

entries_of : Bytes → Result RepositoryError (List Table)
unfolding validate_packages check_entries check_file package_path package_of field_at same_version
    is_deb same_size bytes_of read_records file records read_lines span set_value value_at
    split_lines strip_left path_of split_on select same_text are_prefix has_text has_code all any
    put_file
entries_of bytes = validate_packages reads (put_file (codes "Packages") bytes signed).node_at

abbrev entry : Table
entry =
    (codes "Package", codes "a")
    ∷ (codes "Version", codes "1")
    ∷ (codes "Architecture", codes "all")
    ∷ (codes "Filename", codes "pool/a.deb")
    ∷ (codes "Size", codes "3")
    ∷ (codes "SHA256", hash)
    ∷ []

entries_lem :
    (entries_of packages ≡ ok (entry ∷ []))
    × (entries_of (packages ++ packages) ≡ err duplicate_version)
unfolding entries_of
entries_lem = (refl, refl)

entry_is : all is_entry (entry ∷ entry ∷ []) ≡ true
unfolding all split_on keys_differ value_at same_text is_space is_line_end
entry_is = refl

records-encode_records_example :
    records (encode_records (entry ∷ entry ∷ [])) ≡ ok (entry ∷ entry ∷ [])
records-encode_records_example = records-encode_records entry (entry ∷ []) entry_is

verified_folder : ℕ → Result RepositoryError Verification
unfolding verify authentic current_release check_indexes check_lines check_index check_compressed
    signed_snapshot words strip lookup entries_of
verified_folder now = verify checks signed.node_at (some (codes "k")) now

abbrev verification : Verification
verification = record {
  release =
      (codes "Origin", codes "Rougarou")
      ∷ (codes "Codename", codes "rougarou")
      ∷ (codes "Suite", codes "testing")
      ∷ (codes "Valid-Until", codes "x")
      ∷ (
        codes "SHA256",
        codes "\n "
            ++ hash
            ++ codes " 143 Packages\n "
            ++ hash
            ++ codes " 143 Packages.gz\n "
            ++ hash
            ++ codes " 2 snapshot.json",
      )
      ∷ [];
  snapshot = evidence_json;
}

verified_lem : (verified_folder 50 ≡ ok verification) × (verified_folder 100 ≡ err metadata_expired)
unfolding verified_folder
verified_lem = (refl, refl)

verify-IsSigned_example :
    (k : Bytes) × (◌≡◌ {A = Option Bytes} (some (codes "k")) (some k))
    × IsSigned checks signed.node_at k 50 verification
unfolding verified_folder
verify-IsSigned_example =
    verify-IsSigned checks signed.node_at (some (codes "k")) 50 verification verified_lem.0

abbrev signer : Signer
signer = record {
  reads = reads;
  encode = λ t. t;
  compress = λ bytes. bytes;
  sized = λ n. codes "1";
  date_text = λ n. codes "x";
  later = λ n days. n + days * 86400;
  clear_sign = λ password key bytes. some bytes;
  detach_sign = λ password key bytes. some key;
}

abbrev run : Run
run = record {
  signer = signer;
  checks = checks;
  json_text = λ j. codes "{}";
  now = 50;
  now_text = codes "t";
  suffix = codes "0123456789ab";
  root = record { root = one_slash; parts = codes "srv" ∷ [] };
  stage = record { root = one_slash; parts = codes "srv" ∷ codes "stage" ∷ [] };
  passphrase = ok none;
}

abbrev home : Home
home = record {
  is_dir = true;
  place = record { root = one_slash; parts = codes "keys" ∷ [] };
  mode = 448;
}

abbrev key : Text
key = codes "aaaaaaaaaaaaaaaaaaaaaaaaaaaaaaaaaaaaaaaa"

abbrev to_stable : Promotion
to_stable = record {
  options = record { snapshot = codes "s1"; home = home; key = key; valid_days = 30 };
  channel = stable;
  keyring = some (codes "k");
  approve_stable = true;
  evidence = some (some (codes "{}"));
}

abbrev pointed : Channel → Option Text
pointed testing = some (codes "s1-0")
pointed stable = none

abbrev repository : Repository
repository = record {
  snapshots = λ t. some signed;
  pool = no_folder;
  indexes = no_folder;
  publications = λ c t. if same_text t (codes "s1-0") then some signed else none;
  audits = [];
  pointer = pointed;
}

passes : Promotion → Repository → Bool
unfolding checked identifier is_identifier check_signer stable_evidence read_evidence
    verified_folder
passes p r = is_ok (checked run p r)

passes_lem :
    (passes to_stable repository ≡ true)
    × (passes (record to_stable { approve_stable = false }) repository ≡ false)
unfolding passes
passes_lem = (refl, refl)

promote_lem_example :
    Post
      (λ _. Promoted run to_stable repository)
      (Untouched repository)
      (promote run to_stable repository)
promote_lem_example = promote_lem run to_stable repository

sign_flat_lem_example :
    Post
      (λ _. Published signer key)
      (Same signed)
      (sign_flat signer home key
        (record { root = one_slash; parts = [] })
        (ok none)
        (codes "stable")
        30
        50
        signed)
sign_flat_lem_example =
    sign_flat_lem signed signer home key (record { root = one_slash; parts = [] }) (ok none)
      (codes "stable") 30 50 signed (record { release = refl; signature = refl; in_release = refl })
