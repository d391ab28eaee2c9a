-- ===== src/Updates/Release.antt =====
-- `paragraphs`, `release_check` and `signed_hashes` of rootfs/usr/lib/rougarou/updates.py: what the
-- signed metadata of a repository must say.
pub mod Fields
mod Tests
use rougarou_os.Base.{
  ℕ, ◌+◌, Bool, true, false, not, ◌&&◌, ◌||◌, Option, none, some, List, [], ◌∷◌, ◌++◌, ◌==◌, leb,
  ltb, length, codes, Result, ok, err, Text, same_text, is_empty, all, is_none, is_some,
  if◌then◌else◌,
}
use rougarou_os.Base.Dicts.{Table, set_value, span, value_at}
use rougarou_os.Base.Lines.{split_lines, words, strip, is_space}
use rougarou_os.Base.Results.{◌>>=◌, ◌>>◌, demand}

pub data MetadataError : Type 0 where
  bad_continuation bad_field bad_dates time_invalid expired : MetadataError
  security_identity archive_identity other_channel : MetadataError
  bad_entry duplicate_path no_hashes not_a_number : MetadataError

-- What `paragraphs` holds between two lines.
pub record Reading : Type 0 where
  pub rows : List Table
  pub row : Table
  pub previous : Option Text

abbrev old_value : Option Text → Text
old_value none = []
old_value (some v) = v

abbrev closed : Table → List Table → List Table
closed [] rows = rows
closed (f ∷ fs) rows = rows ++ (f ∷ fs) ∷ []

abbrev continued : Option Text → Text → Reading → Result MetadataError Reading
continued none more r = err bad_continuation
continued (some key) more r =
    ok (record r { row = set_value key (old_value (value_at key r.row) ++ 10 ∷ more) r.row })

-- `line.partition(':')`, on what stands before the colon and what begins with it
abbrev field : Text × Text → Reading → Result MetadataError Reading
field (key, []) r = err bad_field
field (key, colon ∷ value) r = do
  demand (is_none (value_at key r.row)) bad_field
  ok (record r { row = set_value key (strip value) r.row; previous = some key })

abbrev pub read_field : Text → Reading → Result MetadataError Reading
read_field [] r = err bad_field
read_field (c ∷ line) r =
    if is_space c
    then continued r.previous line r
    else field (span (λ x. not (x == 58)) (c ∷ line)) r

abbrev pub read_row : Text → Reading → Result MetadataError Reading
read_row line r =
    if is_empty (strip line)
    then ok (record { rows = closed r.row r.rows; row = []; previous = none })
    else read_field line r

unfoldable pub read_rows : List Text → Reading → Result MetadataError Reading
read_rows [] r = ok r
read_rows (line ∷ lines) r = do r' ← read_row line r; read_rows lines r'

unfoldable pub paragraphs : Text → Result MetadataError (List Table)
paragraphs data_text = do
  r ← read_rows (split_lines data_text ++ [] ∷ []) (record { rows = []; row = []; previous = none })
  ok r.rows

pub data Channel : Type 0 where
  debian_security bootstrap testing stable : Channel

abbrev pub says_value : Text → Option Text → Bool
says_value value none = false
says_value value (some v) = same_text v value

abbrev pub says : Text → Text → Table → Bool
says key value fields = says_value value (value_at key fields)

abbrev channel_suite : Channel → Table → Result MetadataError (Unit {0})
channel_suite testing fields = demand (says (codes "Suite") (codes "testing") fields) other_channel
channel_suite stable fields = demand (says (codes "Suite") (codes "stable") fields) other_channel
channel_suite _ fields = ok tt

abbrev pub check_identity : Channel → Table → Result MetadataError (Unit {0})
check_identity debian_security fields =
    demand
      (says (codes "Origin") (codes "Debian") fields
        && says (codes "Label") (codes "Debian-Security") fields
        && says (codes "Codename") (codes "trixie-security") fields)
      security_identity
check_identity channel fields = do
  demand
      (says (codes "Origin") (codes "Rougarou") fields
        && says (codes "Label") (codes "Rougarou") fields
        && says (codes "Codename") (codes "rougarou") fields)
      archive_identity
  channel_suite channel fields

-- `date_of` is `parsedate_to_datetime` with `timestamp`, in seconds, for dates from 1970 on.
abbrev pub date_at : (Text → Option ℕ) → Option Text → Result MetadataError ℕ
date_at date_of none = err bad_dates
date_at date_of (some t) = elim (date_of t) [ none ↦ err bad_dates | some n ↦ ok n ]

unfoldable pub release_check : (Text → Option ℕ) → Table → Channel → ℕ → Result MetadataError ℕ
release_check date_of fields channel now = do
  date ← date_at date_of (value_at (codes "Date") fields)
  expiry ← date_at date_of (value_at (codes "Valid-Until") fields)
  demand (leb date (now + 300) && ltb date expiry) time_invalid
  demand (ltb now expiry) expired
  check_identity channel fields
  ok expiry

-- A path's hash and size. `is_digit` and `int_of` are Python's `isdigit` and `int`.
pub record Digits : Type 0 where
  pub is_digit : ℕ → Bool
  pub int_of : Text → Option ℕ

abbrev pub is_hex : ℕ → Bool
is_hex c = (leb 48 c && leb c 57) || (leb 97 c && leb c 102)

abbrev pub is_sha256 : Text → Bool
is_sha256 t = length t == 64 && all is_hex t

abbrev pub are_digits : Digits → Text → Bool
are_digits d t = not (is_empty t) && all d.is_digit t

abbrev pub Hashes : Type 0
Hashes = List (Text × Text × ℕ)

unfoldable pub hash_of : Text → Hashes → Option (Text × ℕ)
hash_of k [] = none
hash_of k ((l, h, n) ∷ rest) = if same_text l k then some (h, n) else hash_of k rest

abbrev pub sized : Digits → Text → Result MetadataError ℕ
sized d t = elim (d.int_of t) [ none ↦ err not_a_number | some n ↦ ok n ]

abbrev pub add_entry : Digits → List Text → Hashes → Result MetadataError Hashes
add_entry d (h ∷ n ∷ path ∷ []) hashes = do
  demand (is_sha256 h && are_digits d n) bad_entry
  demand (is_none (hash_of path hashes)) duplicate_path
  size ← sized d n
  ok ((path, h, size) ∷ hashes)
add_entry d _ hashes = err bad_entry

unfoldable pub add_entries : Digits → List Text → Hashes → Result MetadataError Hashes
add_entries d [] hashes = ok hashes
add_entries d (line ∷ lines) hashes = do
  hashes' ← if is_empty (strip line) then ok hashes else add_entry d (words line) hashes
  add_entries d lines hashes'

unfoldable pub signed_hashes : Digits → Table → Result MetadataError Hashes
signed_hashes d fields = do
  hashes ← add_entries d (split_lines (old_value (value_at (codes "SHA256") fields))) []
  demand (not (is_empty hashes)) no_hashes
  ok hashes
