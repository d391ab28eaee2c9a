-- ===== src/Repository/Records.antt =====
-- `records` and `encode_records` of scripts/repo.py: the paragraphs of a Packages or Release file.
pub mod Layout
pub mod Encoded
use rougarou_os.Base.{
  ℕ, ◌≡◌, Bool, true, false, not, ◌||◌, Option, none, some, List, [], ◌∷◌, ◌++◌, ◌==◌, map, codes,
  Result, ok, err, Text, is_empty, join, is_none, if◌then◌else◌,
}
use rougarou_os.Base.Dicts.{Table, set_value, span, value_at}
use rougarou_os.Base.Lines.{split_lines, strip_left, is_space}
use rougarou_os.Base.Results.{◌>>=◌, ◌>>◌, demand}

pub data RecordError : Type 0 where
  malformed_continuation malformed_field packages_empty : RecordError

-- `result`, `entry` and `key`
pub record Reader : Type 0 where
  pub result : List Table
  pub entry : Table
  pub key : Text

abbrev pub flush : Reader → Reader
flush r =
    if is_empty r.entry
    then r
    else record { result = r.result ++ r.entry ∷ []; entry = []; key = [] }

abbrev value_of : Option Text → Text
value_of none = []
value_of (some v) = v

-- `entry[key] += "\n" + line`, for a key the entry has
abbrev pub extend : Text → Text → Table → Table
extend key line entry = set_value key (value_of (value_at key entry) ++ 10 ∷ line) entry

-- `line.partition(":")`, on what stands before the colon and what begins with it
abbrev pub add_field : Text × Text → Reader → Result RecordError Reader
add_field (key, []) r = err malformed_field
add_field (key, colon ∷ value) r = do
  demand (is_none (value_at key r.entry)) malformed_field
  ok (record r { entry = set_value key (strip_left value) r.entry; key = key })

abbrev pub read_line : Text → Reader → Result RecordError Reader
read_line [] r = ok (flush r)
read_line (c ∷ line) r =
    if is_space c
    then (do
      demand (not (is_empty r.key)) malformed_continuation
      ok (record r { entry = extend r.key (c ∷ line) r.entry }))
    else add_field (span (λ x. not (x == 58)) (c ∷ line)) r

unfoldable pub read_lines : List Text → Reader → Result RecordError Reader
read_lines [] r = ok r
read_lines (line ∷ lines) r = do r' ← read_line line r; read_lines lines r'

unfoldable pub records : Text → Result RecordError (List Table)
records data_text = do
  r ← read_lines (split_lines data_text ++ [] ∷ []) (record { result = []; entry = []; key = [] })
  demand (not (is_empty r.result)) packages_empty
  ok r.result

abbrev pub encode_field : Text × Text → Text
encode_field (key, value) = (key ++ codes ": ") ++ value

unfoldable pub encode_records : List Table → Text
encode_records entries =
    join (codes "\n\n") (map (λ entry. join (codes "\n") (map encode_field entry)) entries)
    ++ codes "\n\n"
