-- ===== src/Repository/Records/Layout.antt =====
-- The lines of the text that `encode_records` of scripts/repo.py writes.
use mathlib.Core.List.{append_assoc}
use rougarou_os.Base.{
  ℕ, ◌≡◌, refl, ap, sym, ◌∙◌, Bool, true, false, not, ◌&&◌, List, [], ◌∷◌, ◌++◌, ◌==◌, map, codes,
  arith, Text, is_empty, join, all, split_on, Bool-cases, to_head, inl, inr, is_none,
}
use rougarou_os.Base.Dicts.{Table, value_at}
use rougarou_os.Base.Lines.{is_line_end, is_space, split_lines}
use rougarou_os.Base.Lines.Joined.{is_line, unlines, split_lines-unlines, join-unlines}
use rougarou_os.Repository.Records.{encode_field, encode_records}

-- What can stand behind a key: a first line that begins with no space, and lines that do.
abbrev pub is_first : Text → Bool
is_first [] = true
is_first (c ∷ t) = not (is_space c) && is_line (c ∷ t)

abbrev pub is_more : Text → Bool
is_more [] = false
is_more (c ∷ t) = is_space c && is_line (c ∷ t)

abbrev pub are_pieces : List Text → Bool
are_pieces [] = false
are_pieces (t ∷ ts) = is_first t && all is_more ts

abbrev pub no_colon : Text → Bool
no_colon t = all (λ c. not (c == 58)) t

abbrev pub is_key : Text → Bool
is_key [] = false
is_key (c ∷ t) = not (is_space c) && is_line (c ∷ t) && no_colon (c ∷ t)

abbrev pub is_field : Text × Text → Bool
is_field (key, value) = is_key key && are_pieces (split_on 10 value)

unfoldable pub keys_differ : Table → Bool
keys_differ [] = true
keys_differ ((key, value) ∷ entry) = is_none (value_at key entry) && keys_differ entry

-- An entry that a Packages file can hold.
abbrev pub is_entry : Table → Bool
is_entry entry = not (is_empty entry) && all is_field entry && keys_differ entry

abbrev pub first_line : Text → List Text → List Text
first_line key [] = []
first_line key (t ∷ ts) = ((key ++ codes ": ") ++ t) ∷ ts

abbrev pub field_lines : Text × Text → List Text
field_lines (key, value) = first_line key (split_on 10 value)

unfoldable pub entry_lines : Table → List Text
entry_lines [] = []
entry_lines (f ∷ entry) = field_lines f ++ entry_lines entry

unfoldable pub all_lines : List Table → List Text
all_lines [] = []
all_lines (entry ∷ entries) = entry_lines entry ++ [] ∷ all_lines entries

join-separate :
    (t : Text) (ts : List Text)
    → is_empty ts ≡ false
    → join (10 ∷ []) ([] ∷ ts) ≡ 10 ∷ join (10 ∷ []) ts
unfolding join
join-separate t [] h = cc
join-separate t (u ∷ ts) h = refl

join-to_head : (c : ℕ) (ts : List Text) → join (10 ∷ []) (to_head c ts) ≡ c ∷ join (10 ∷ []) ts
unfolding join
join-to_head c [] = refl
join-to_head c (t ∷ []) = refl
join-to_head c (t ∷ u ∷ ts) = refl

split_on-some : (t : Text) → is_empty (split_on 10 t) ≡ false
unfolding split_on
split_on-some [] = refl
split_on-some (c ∷ t) = elim (split_on 10 t) [ [] ↦ ground arith | u ∷ us ↦ ground arith ]

-- A text is its pieces with the separator between them.
pub join-split_on : (t : Text) → join (10 ∷ []) (split_on 10 t) ≡ t
unfolding split_on join
join-split_on [] = refl
join-split_on (c ∷ t) =
    let ih : join (10 ∷ []) (split_on 10 t) ≡ t = join-split_on t in
    elim (Bool-cases (c == 10)) [
      | inl e ↦
          let d : c ≡ 10 = ground arith in
          rw e (
            join-separate [] (split_on 10 t) (split_on-some t)
            ∙ ap (λ z. 10 ∷ z) ih
            ∙ ap (λ z. z ∷ t) (sym d))
      | inr e ↦ rw e (join-to_head c (split_on 10 t) ∙ ap (λ z. c ∷ z) ih)
    ]

unlines-append : (ls ms : List Text) → unlines (ls ++ ms) ≡ unlines ls ++ unlines ms
unfolding unlines
unlines-append [] ms = refl
unlines-append (l ∷ ls) ms =
    ap (λ z. l ++ 10 ∷ z) (unlines-append ls ms)
    ∙ sym (append_assoc l (10 ∷ unlines ls) (unlines ms))

join-front :
    (s p : Text) (ps : List Text) → s ++ join (10 ∷ []) (p ∷ ps) ≡ join (10 ∷ []) ((s ++ p) ∷ ps)
unfolding join
join-front s p [] = refl
join-front s p (q ∷ ps) =
    let n : Text = 10 ∷ [] in
    let j : Text = join n (q ∷ ps) in
    sym (append_assoc s (p ++ n) j) ∙ ap (λ z. z ++ j) (sym (append_assoc s p n))

lines_text :
    (key : Text) (ps : List Text) (t : Text)
    → are_pieces ps ≡ true
    → ((key ++ codes ": ") ++ join (10 ∷ []) ps) ++ 10 ∷ t ≡ unlines (first_line key ps) ++ t
lines_text key [] t h = cc
lines_text key (p ∷ ps) t h =
    let s : Text = key ++ codes ": " in
    ap (λ z. z ++ 10 ∷ t) (join-front s p ps) ∙ join-unlines (s ++ p) ps t

field_text :
    (f : Text × Text) (t : Text)
    → is_field f ≡ true
    → encode_field f ++ 10 ∷ t ≡ unlines (field_lines f) ++ t
field_text (key, value) t h =
    let e : join (10 ∷ []) (split_on 10 value) ≡ value = join-split_on value in
    ap (λ z. ((key ++ codes ": ") ++ z) ++ 10 ∷ t) (sym e)
    ∙ lines_text key (split_on 10 value) t (ground arith)

behind : (ls ms : List Text) (t : Text) → unlines ls ++ (unlines ms ++ t) ≡ unlines (ls ++ ms) ++ t
behind ls ms t =
    sym (append_assoc (unlines ls) (unlines ms) t) ∙ ap (λ z. z ++ t) (sym (unlines-append ls ms))

middle : (a n j t : Text) → ((a ++ n) ++ j) ++ t ≡ a ++ (n ++ (j ++ t))
middle a n j t = append_assoc (a ++ n) j t ∙ append_assoc a n (j ++ t)

abbrev entry_text : Table → Text
entry_text entry = join (codes "\n") (map encode_field entry)

entry_text_lem :
    (entry : Table) (t : Text)
    → is_empty entry ≡ false
    → all is_field entry ≡ true
    → entry_text entry ++ 10 ∷ t ≡ unlines (entry_lines entry) ++ t
unfolding join entry_lines all unlines
entry_text_lem [] t n h = cc
entry_text_lem (f ∷ []) t n h = field_text f t (ground arith) ∙ behind (field_lines f) [] t
entry_text_lem (f ∷ g ∷ entry) t n h =
    let j : Text = entry_text (g ∷ entry) in
    let ls : List Text = entry_lines (g ∷ entry) in
    let ih : j ++ 10 ∷ t ≡ unlines ls ++ t = entry_text_lem (g ∷ entry) t refl (ground arith) in
    middle (encode_field f) (10 ∷ []) j (10 ∷ t)
    ∙ ap (λ z. encode_field f ++ 10 ∷ z) ih
    ∙ field_text f (unlines ls ++ t) (ground arith)
    ∙ behind (field_lines f) ls t

-- The text is those lines.
pub encode_records-unlines :
    (entry : Table) (entries : List Table)
    → all is_entry (entry ∷ entries) ≡ true
    → encode_records (entry ∷ entries) ≡ unlines (all_lines (entry ∷ entries))
unfolding encode_records all_lines join all unlines
encode_records-unlines entry [] h =
    entry_text_lem entry (10 ∷ []) (ground arith) (ground arith)
    ∙ sym (unlines-append (entry_lines entry) ([] ∷ []))
encode_records-unlines entry (f ∷ entries) h =
    let j : Text =
      join (codes "\n\n")
        (map (λ entry. join (codes "\n") (map encode_field entry)) (f ∷ entries)) in
    let ls : List Text = all_lines (f ∷ entries) in
    let ih : j ++ codes "\n\n" ≡ unlines ls = encode_records-unlines f entries (ground arith) in
    middle (entry_text entry) (codes "\n\n") j (codes "\n\n")
    ∙ entry_text_lem entry (10 ∷ (j ++ codes "\n\n")) (ground arith) (ground arith)
    ∙ ap (λ z. unlines (entry_lines entry) ++ 10 ∷ z) ih
    ∙ sym (unlines-append (entry_lines entry) ([] ∷ ls))

more-lines : (ts : List Text) → all is_more ts ≡ true → all is_line ts ≡ true
unfolding all
more-lines [] h = refl
more-lines ([] ∷ ts) h = cc
more-lines ((c ∷ t) ∷ ts) h = ground (arith, more-lines ts (ground arith))

all-append : (s t : Text) (p : ℕ → Bool) → all p s ≡ true → all p t ≡ true → all p (s ++ t) ≡ true
unfolding all
all-append [] t p h g = g
all-append (c ∷ s) t p h g = ground (arith, all-append s t p (ground arith) g)

lines-append :
    (ls ms : List Text)
    → all is_line ls ≡ true
    → all is_line ms ≡ true
    → all is_line (ls ++ ms) ≡ true
unfolding all
lines-append [] ms h g = g
lines-append (l ∷ ls) ms h g = ground (arith, lines-append ls ms (ground arith) g)

first-line : (t : Text) → is_first t ≡ true → is_line t ≡ true
unfolding all
first-line [] h = refl
first-line (c ∷ t) h = ground arith

key-line : (t : Text) → is_key t ≡ true → is_line t ≡ true
key-line [] h = cc
key-line (c ∷ t) h = ground arith

colon-line : is_line (codes ": ") ≡ true
unfolding all is_line_end
colon-line = refl

first_line-lines :
    (key : Text) (ps : List Text)
    → is_key key ≡ true
    → are_pieces ps ≡ true
    → all is_line (first_line key ps) ≡ true
unfolding all
first_line-lines key [] k h = refl
first_line-lines key (p ∷ ps) k h =
    let f : is_line p ≡ true = first-line p (ground arith) in
    let l : is_line (key ++ codes ": ") ≡ true =
      all-append key (codes ": ") (λ c. not (is_line_end c)) (key-line key k) colon-line in
    ground (
      arith,
      all-append (key ++ codes ": ") p (λ c. not (is_line_end c)) l f,
      more-lines ps (ground arith),
    )

entry_lines-lines :
    (entry : Table) → all is_field entry ≡ true → all is_line (entry_lines entry) ≡ true
unfolding entry_lines all
entry_lines-lines [] h = refl
entry_lines-lines ((key, value) ∷ entry) h =
    lines-append (field_lines (key, value)) (entry_lines entry)
      (first_line-lines key (split_on 10 value) (ground arith) (ground arith))
      (entry_lines-lines entry (ground arith))

all_lines-lines :
    (entries : List Table) → all is_entry entries ≡ true → all is_line (all_lines entries) ≡ true
unfolding all_lines all
all_lines-lines [] h = refl
all_lines-lines (entry ∷ entries) h =
    lines-append (entry_lines entry) ([] ∷ all_lines entries)
      (entry_lines-lines entry (ground arith))
      (ground (arith, all_lines-lines entries (ground arith)))

-- The lines that are read back.
pub split_lines-encode_records :
    (entry : Table) (entries : List Table)
    → all is_entry (entry ∷ entries) ≡ true
    → split_lines (encode_records (entry ∷ entries)) ≡ all_lines (entry ∷ entries)
split_lines-encode_records entry entries h =
    ap split_lines (encode_records-unlines entry entries h)
    ∙ split_lines-unlines (all_lines (entry ∷ entries)) (all_lines-lines (entry ∷ entries) h)
