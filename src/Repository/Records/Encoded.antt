-- ===== src/Repository/Records/Encoded.antt =====
-- `records` of scripts/repo.py reads back what `encode_records` writes.
use mathlib.Core.List.{append_assoc, append-nil}
use rougarou_os.Base.{
  ◌≡◌, refl, ap, sym, ◌∙◌, true, false, not, Option, none, some, List, [], ◌∷◌, ◌++◌, ◌==◌, codes,
  arith, ok, Text, same_text, same_text_refl, same_text→eq, is_empty, join, all, split_on, is_none,
  Bool-cases, inl, inr,
}
use rougarou_os.Base.Dicts.{Table, set_value, span, value_at}
use rougarou_os.Base.Lines.{strip_left, is_space}
use rougarou_os.Repository.Records.{read_line, read_lines, records, encode_records}
use rougarou_os.Repository.Records.Layout.{
  is_first, is_more, are_pieces, no_colon, is_key, is_field, keys_differ, is_entry, first_line,
  field_lines, entry_lines, all_lines, split_lines-encode_records, join-split_on,
}

-- A new key goes to the end.
set_value-new :
    (k v : Text) (entry : Table)
    → value_at k entry ≡ none
    → set_value k v entry ≡ entry ++ (k, v) ∷ []
unfolding set_value value_at
set_value-new k v [] h = refl
set_value-new k v ((l, w) ∷ entry) h = elim (Bool-cases (same_text l k)) [
  | inl e ↦ ground arith
  | inr e ↦ rw e (ap (λ z. (l, w) ∷ z) (set_value-new k v entry (ground arith)))
]

value_at-last :
    (k v : Text) (entry : Table)
    → value_at k entry ≡ none
    → value_at k (entry ++ (k, v) ∷ []) ≡ some v
unfolding value_at
value_at-last k v [] h = rw (same_text_refl k)
value_at-last k v ((l, w) ∷ entry) h = elim (Bool-cases (same_text l k)) [
  | inl e ↦ ground arith
  | inr e ↦ rw e (value_at-last k v entry (ground arith))
]

set_value-last :
    (k v w : Text) (entry : Table)
    → value_at k entry ≡ none
    → set_value k w (entry ++ (k, v) ∷ []) ≡ entry ++ (k, w) ∷ []
unfolding value_at set_value
set_value-last k v w [] h = rw (same_text_refl k)
set_value-last k v w ((l, u) ∷ entry) h = elim (Bool-cases (same_text l k)) [
  | inl e ↦ ground arith
  | inr e ↦ rw e (ap (λ z. (l, u) ∷ z) (set_value-last k v w entry (ground arith)))
]

-- A key in front of a colon.
span-colon :
    (k t : Text) → no_colon k ≡ true → span (λ x. not (x == 58)) (k ++ 58 ∷ t) ≡ (k, 58 ∷ t)
unfolding span all
span-colon [] t h = refl
span-colon (c ∷ k) t h =
    let e : (c == 58) ≡ false = ground arith in
    let ih : span (λ x. not (x == 58)) (k ++ 58 ∷ t) ≡ (k, 58 ∷ t) =
      span-colon k t (ground arith) in
    rw (e, ih)

join-two :
    (v t : Text) (ts : List Text)
    → join (10 ∷ []) ((v ++ 10 ∷ t) ∷ ts) ≡ join (10 ∷ []) (v ∷ t ∷ ts)
unfolding join
join-two v t [] = sym (append_assoc v (10 ∷ []) t)
join-two v t (u ∷ ts) =
    let n : Text = 10 ∷ [] in
    let j : Text = join n (u ∷ ts) in
    append_assoc (v ++ 10 ∷ t) n j
    ∙ append_assoc v (10 ∷ t) (10 ∷ j)
    ∙ ap (λ z. v ++ 10 ∷ z) (sym (append_assoc t n j))
    ∙ sym (append_assoc v n ((t ++ n) ++ j))

read_lines-more :
    (k v : Text) (ts ms : List Text) (result : List Table) (entry : Table)
    → is_empty k ≡ false
    → value_at k entry ≡ none
    → all is_more ts ≡ true
    → read_lines (ts ++ ms) (record { result = result; entry = entry ++ (k, v) ∷ []; key = k })
      ≡ read_lines ms
          (record { result = result; entry = entry ++ (k, join (10 ∷ []) (v ∷ ts)) ∷ []; key = k })
unfolding read_lines all join
read_lines-more k v [] ms result entry n a h = refl
read_lines-more k v ([] ∷ ts) ms result entry n a h = cc
read_lines-more k v ((c ∷ t) ∷ ts) ms result entry n a h =
    let s : is_space c ≡ true = ground arith in
    let w : Text = v ++ 10 ∷ c ∷ t in
    let p : value_at k (entry ++ (k, v) ∷ []) ≡ some v = value_at-last k v entry a in
    let q : set_value k w (entry ++ (k, v) ∷ []) ≡ entry ++ (k, w) ∷ [] =
      set_value-last k v w entry a in
    let j : join (10 ∷ []) (w ∷ ts) ≡ join (10 ∷ []) (v ∷ (c ∷ t) ∷ ts) = join-two v (c ∷ t) ts in
    rw (s, n, p, q)
      (read_lines-more k w ts ms result entry n a (ground arith)
        ∙ ap
            (λ z. read_lines ms (record { result = result; entry = entry ++ (k, z) ∷ []; key = k }))
            j)

is_key-facts : (k : Text) → is_key k ≡ true → (is_empty k ≡ false) × (no_colon k ≡ true)
is_key-facts [] h = cc
is_key-facts (c ∷ k) h = (refl, ground arith)

strip-first : (t : Text) → is_first t ≡ true → strip_left (32 ∷ t) ≡ t
unfolding strip_left is_space
strip-first [] h = refl
strip-first (c ∷ t) h = ground arith

-- The line that begins a field.
read_line-key :
    (k p : Text) (result : List Table) (entry : Table) (key : Text)
    → is_key k ≡ true
    → is_first p ≡ true
    → value_at k entry ≡ none
    → read_line ((k ++ codes ": ") ++ p) (record { result = result; entry = entry; key = key })
      ≡ ok (record { result = result; entry = entry ++ (k, p) ∷ []; key = k })
read_line-key [] p result entry key k_ok p_ok a = cc
read_line-key (c ∷ k) p result entry key k_ok p_ok a =
    let n : is_space c ≡ false = ground arith in
    let e : (k ++ codes ": ") ++ p ≡ k ++ 58 ∷ 32 ∷ p = append_assoc k (codes ": ") p in
    let s : span (λ x. not (x == 58)) (c ∷ (k ++ 58 ∷ 32 ∷ p)) ≡ (c ∷ k, 58 ∷ 32 ∷ p) =
      span-colon (c ∷ k) (32 ∷ p) (is_key-facts (c ∷ k) k_ok).1 in
    let f : strip_left (32 ∷ p) ≡ p = strip-first p p_ok in
    let g : set_value (c ∷ k) p entry ≡ entry ++ (c ∷ k, p) ∷ [] =
      set_value-new (c ∷ k) p entry a in
    rw (n, e, s, a, f, g)

read_lines-pieces :
    (k : Text) (ps ms : List Text) (result : List Table) (entry : Table) (key : Text)
    → is_key k ≡ true
    → are_pieces ps ≡ true
    → value_at k entry ≡ none
    → read_lines (first_line k ps ++ ms) (record { result = result; entry = entry; key = key })
      ≡ read_lines ms
          (record { result = result; entry = entry ++ (k, join (10 ∷ []) ps) ∷ []; key = k })
unfolding read_lines
read_lines-pieces k [] ms result entry key k_ok h a = cc
read_lines-pieces k (p ∷ ps) ms result entry key k_ok h a =
    rw (read_line-key k p result entry key k_ok (ground arith) a)
      (read_lines-more k p ps ms result entry (is_key-facts k k_ok).0 a (ground arith))

-- A field is read at the end of its entry.
read_lines-field :
    (f : Text × Text) (ms : List Text) (result : List Table) (entry : Table) (key : Text)
    → is_field f ≡ true
    → value_at f.0 entry ≡ none
    → read_lines (field_lines f ++ ms) (record { result = result; entry = entry; key = key })
      ≡ read_lines ms (record { result = result; entry = entry ++ f ∷ []; key = f.0 })
read_lines-field (k, v) ms result entry key h a =
    read_lines-pieces k (split_on 10 v) ms result entry key (ground arith) (ground arith) a
    ∙ ap (λ z. read_lines ms (record { result = result; entry = entry ++ (k, z) ∷ []; key = k }))
        (join-split_on v)

is_none→none {ℓ} : {A : Type ℓ} (o : Option A) → is_none o ≡ true → o ≡ none
is_none→none none h = refl
is_none→none (some x) h = cc

value_at-middle :
    (k v l : Text) (entry rest : Table)
    → value_at l (entry ++ (k, v) ∷ rest) ≡ none
    → same_text k l ≡ false
unfolding value_at
value_at-middle k v l [] rest h = elim (Bool-cases (same_text k l)) [
  | inl e ↦ ground arith
  | inr e ↦ e
]
value_at-middle k v l ((m, u) ∷ entry) rest h = elim (Bool-cases (same_text m l)) [
  | inl e ↦ ground arith
  | inr e ↦ value_at-middle k v l entry rest (ground arith)
]

same_text-sym : (s t : Text) → same_text s t ≡ false → same_text t s ≡ false
same_text-sym s t h = elim (Bool-cases (same_text t s)) [
  | inl e ↦
      let d : t ≡ s = same_text→eq t s e in
      let g : same_text s t ≡ true = rw d (same_text_refl s) in cc
  | inr e ↦ e
]

keys_differ-middle :
    (k v : Text) (entry rest : Table)
    → keys_differ (entry ++ (k, v) ∷ rest) ≡ true
    → value_at k entry ≡ none
unfolding keys_differ value_at
keys_differ-middle k v [] rest h = refl
keys_differ-middle k v ((l, w) ∷ entry) rest h =
    let n : value_at l (entry ++ (k, v) ∷ rest) ≡ none = is_none→none _ (ground arith) in
    let d : same_text l k ≡ false = same_text-sym k l (value_at-middle k v l entry rest n) in
    rw d (keys_differ-middle k v entry rest (ground arith))

-- The rest of an entry, behind the fields that were read.
read_lines-entry :
    (before entry : Table) (ms : List Text) (result : List Table) (key : Text)
    → all is_field entry ≡ true
    → keys_differ (before ++ entry) ≡ true
    → (key' : Text) × (read_lines
          (entry_lines entry ++ ms)
          (record { result = result; entry = before; key = key })
        ≡ read_lines ms (record { result = result; entry = before ++ entry; key = key' }))
unfolding entry_lines all
read_lines-entry before [] ms result key h d = (key, rw append-nil)
read_lines-entry before ((k, v) ∷ entry) ms result key h d =
    let n : value_at k before ≡ none = keys_differ-middle k v before entry d in
    let a : before ++ (k, v) ∷ entry ≡ (before ++ (k, v) ∷ []) ++ entry =
      sym (append_assoc before ((k, v) ∷ []) entry) in
    let (key', e) =
      read_lines-entry (before ++ (k, v) ∷ []) entry ms result k (ground arith) (rw (← a) d) in
    (
      key',
      rw (append_assoc (field_lines (k, v)) (entry_lines entry) ms) (
          read_lines-field (k, v) (entry_lines entry ++ ms) result before key (ground arith) n
          ∙ rw a e),
    )

-- The entries, each with the empty line behind it.
read_lines-all :
    (entries : List Table) (ms : List Text) (result : List Table)
    → all is_entry entries ≡ true
    → read_lines (all_lines entries ++ ms) (record { result = result; entry = []; key = [] })
      ≡ read_lines ms (record { result = result ++ entries; entry = []; key = [] })
unfolding all_lines all read_lines
read_lines-all [] ms result h = rw append-nil
read_lines-all ([] ∷ entries) ms result h = cc
read_lines-all ((f ∷ entry) ∷ entries) ms result h =
    let rest : List Text = [] ∷ (all_lines entries ++ ms) in
    let (key, e) = read_lines-entry [] (f ∷ entry) rest result [] (ground arith) (ground arith) in
    let a : (entry_lines (f ∷ entry) ++ [] ∷ all_lines entries) ++ ms
        ≡ entry_lines (f ∷ entry) ++ rest =
      append_assoc (entry_lines (f ∷ entry)) ([] ∷ all_lines entries) ms in
    let b : result ++ (f ∷ entry) ∷ entries ≡ (result ++ (f ∷ entry) ∷ []) ++ entries =
      sym (append_assoc result ((f ∷ entry) ∷ []) entries) in
    rw a (e ∙ rw b (read_lines-all entries ms (result ++ (f ∷ entry) ∷ []) (ground arith)))

-- Entries that a Packages file can hold, at least one, are read back as they were when they are
-- written out: in each entry at least one field, keys that differ, are not empty, begin with no
-- space and have no colon or line end, and values whose lines have no line end but the line feeds
-- between them, the first beginning with no space and every other one with a space.
pub records-encode_records :
    (entry : Table) (entries : List Table)
    → all is_entry (entry ∷ entries) ≡ true
    → records (encode_records (entry ∷ entries)) ≡ ok (entry ∷ entries)
unfolding records read_lines
records-encode_records entry entries h =
    let s = split_lines-encode_records entry entries h in
    let e = read_lines-all (entry ∷ entries) ([] ∷ []) [] h in rw (s, e)
