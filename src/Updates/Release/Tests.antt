-- ===== src/Updates/Release/Tests.antt =====
-- Signed metadata for rootfs/usr/lib/rougarou/updates.py, and the theorems at it.
use rougarou_os.Base.{
  ℕ, ◌≡◌, refl, false, Option, some, List, [], ◌∷◌, ◌++◌, Result, ok, err, Text, codes, all,
  same_text, is_empty, leb, if◌then◌else◌,
}
use rougarou_os.Base.Dicts.{Table, set_value, span, value_at}
use rougarou_os.Base.Lines.{split_lines, words, strip}
use rougarou_os.Updates.Release.{
  MetadataError, bad_field, expired, stable, read_rows, paragraphs, release_check, Digits, Hashes,
  hash_of, add_entries, signed_hashes,
}
use rougarou_os.Updates.Release.Fields.{IsRelease, release_lem, AreHashes, signed_hashes_lem}

abbrev release : Table
release =
    (codes "Origin", codes "Rougarou")
    ∷ (codes "Label", codes "Rougarou")
    ∷ (codes "Codename", codes "rougarou")
    ∷ (codes "Suite", codes "stable")
    ∷ (codes "Date", codes "a")
    ∷ (codes "Valid-Until", codes "b")
    ∷ []

rows_of : Text → Result MetadataError (List Table)
unfolding paragraphs read_rows set_value value_at span split_lines words strip same_text
rows_of t = paragraphs t

rows_lem :
    rows_of (codes "A: 1\nB:\n  x\n y\n\n\nA : 2\n")
    ≡ ok (
        ((codes "A", codes "1") ∷ (codes "B", codes "\n x\ny") ∷ [])
        ∷ ((codes "A ", codes "2") ∷ [])
        ∷ [])
unfolding rows_of
rows_lem = refl

twice_lem : rows_of (codes "A: 1\nA: 2\n") ≡ err bad_field
unfolding rows_of
twice_lem = refl

-- "a" is at 100 and every other date at 900.
abbrev dates : Text → Option ℕ
dates t = if same_text t (codes "a") then some 100 else some 900

checked : ℕ → Result MetadataError ℕ
unfolding release_check value_at same_text
checked now = release_check dates release stable now

checked_lem : (checked 500 ≡ ok 900) × (checked 900 ≡ err expired)
unfolding checked
checked_lem = (refl, refl)

release_lem_example : IsRelease dates release stable 500 900
unfolding checked
release_lem_example = release_lem dates release stable 500 900 refl

abbrev digits : Digits
digits = record { is_digit = λ c. leb 48 c; int_of = λ t. some 7 }

abbrev eight : Text
eight = codes "0123abcd"

abbrev hash : Text
hash = (eight ++ eight ++ eight ++ eight) ++ eight ++ eight ++ eight ++ eight

abbrev listed : Table
listed = (codes "SHA256", codes "\n" ++ hash ++ codes " 7 main/Packages\n") ∷ []

abbrev hashes : Hashes
hashes = (codes "main/Packages", hash, 7) ∷ []

signed : Table → Result MetadataError Hashes
unfolding signed_hashes add_entries hash_of split_lines words strip value_at same_text all
signed f = signed_hashes digits f

signed_lem : signed listed ≡ ok hashes
unfolding signed
signed_lem = refl

signed_hashes_lem_example : AreHashes hashes × (is_empty hashes ≡ false)
unfolding signed
signed_hashes_lem_example = signed_hashes_lem digits listed hashes signed_lem
