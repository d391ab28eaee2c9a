-- ===== src/Updates/Operations/Plan.antt =====
-- What `operations` of rootfs/usr/lib/rougarou/updates.py has read when it returns.
use rougarou_os.Base.{
  ◌≡◌, refl, sym, ◌∙◌, Bool, true, false, not, Option, none, some, List, [], ◌∷◌, codes, Result, ok,
  Text, same_text, same_text→eq, same_text_refl, begins, all, is_some, is_none, All, All-map, arith,
  ◌⊎◌, inl, inr, Bool-cases,
}
use rougarou_os.Base.Dicts.{Table, value_at}
use mathlib.Core.Path.{subst}
use mathlib.Core.List.{Memᴰ}
use rougarou_os.Base.Lines.{split_lines, words}
use rougarou_os.Base.Results.{bind-ok, demand-ok}
use rougarou_os.Updates.Operations.{
  UpdateError, removal, duplicate_operation, unrelated_configuration, inst_match, is_removal,
  second_word, Read, add_inst, add_conf, read_line, read_lines, nothing_read, operations,
}

-- What a line adds.
data Adds : Text → Read → Read → Type 0 where
  inst :
      {line : Text} {r : Read} (n v : Text)
      → begins (codes "Inst ") line ≡ true
      → inst_match line ≡ some (n, v)
      → value_at n r.result ≡ none
      → Adds line r (record r { result = (n, v) ∷ r.result })
  conf :
      {line : Text} {r : Read} (w : Text)
      → begins (codes "Inst ") line ≡ false
      → second_word (words line) ≡ ok w
      → Adds line r (record r { configured = w ∷ r.configured })
  nothing :
      {line : Text} {r : Read}
      → begins (codes "Inst ") line ≡ false
      → begins (codes "Conf ") line ≡ false
      → Adds line r r

ok_eq : {A : Type 0} (a b : A) → ◌≡◌ {A = Result UpdateError A} (ok a) (ok b) → a ≡ b
ok_eq a b h = cc

added :
    (line : Text) (r r' : Read) (o : Option (Text × Text))
    → inst_match line ≡ o
    → begins (codes "Inst ") line ≡ true
    → add_inst o r ≡ ok r'
    → Adds line r r'
added line r r' none e b h = cc
added line r r' (some (n, v)) e b h =
    let (fresh, g) =
      demand-ok (is_none (value_at n r.result)) duplicate_operation
        (ok (record r { result = (n, v) ∷ r.result })) r' h in
    subst (Adds line r) (ok_eq (record r { result = (n, v) ∷ r.result }) r' g)
      (inst n v b e (absent (value_at n r.result) fresh))
  where
    absent : (o : Option Text) → is_none o ≡ true → o ≡ none
    absent none h = refl
    absent (some t) h = cc

line-Adds :
    (line : Text) (r r' : Read)
    → read_line line r ≡ ok r'
    → (is_removal line ≡ false) × Adds line r r'
line-Adds line r r' h =
    let (kept, g) = demand-ok (not (is_removal line)) removal _ r' h in
    (
      ground (arith, kept),
      elim (Bool-cases (begins (codes "Inst ") line)) [
        | inl b ↦ added line r r' (inst_match line) refl b (rw b at g)
        | inr b ↦ elim (Bool-cases (begins (codes "Conf ") line)) [
          | inl c ↦
              let f : add_conf line r ≡ ok r' = rw (b, c) at g in
              let (w, e, k) =
                bind-ok (second_word (words line))
                  (λ name. ok (record r { configured = name ∷ r.configured })) r' f in
              subst (Adds line r) (ok_eq (record r { configured = w ∷ r.configured }) r' k)
                (conf w b e)
          | inr c ↦
              let f : ok r ≡ ok r' = rw (b, c) at g in
              subst (Adds line r) (ok_eq r r' f) (nothing b c)
        ]
      ],
    )

abbrev Grows : Read → Read → Type 0
Grows r r' =
    ((k v : Text) → value_at k r.result ≡ some v → value_at k r'.result ≡ some v)
    × ((w : Text) → Memᴰ w r.configured → Memᴰ w r'.configured)

-- An `Inst` line names an operation of the plan, a `Conf` line a package that is configured.
abbrev Listed : Read → Text → Type 0
Listed r line =
    begins (codes "Inst ") line ≡ true
    → (n : Text) × (v : Text) × (inst_match line ≡ some (n, v)) × (value_at n r.result ≡ some v)

abbrev Configured : Read → Text → Type 0
Configured r line =
    begins (codes "Inst ") line ≡ false
    → begins (codes "Conf ") line ≡ true
    → (w : Text) × (second_word (words line) ≡ ok w) × Memᴰ w r.configured

abbrev ComesFrom : List Text → Read → Read → Type 0
ComesFrom lines r r' =
    (k v : Text)
    → value_at k r'.result ≡ some v
    → (value_at k r.result ≡ some v) ⊎ ((l : Text) × Memᴰ l lines × (inst_match l ≡ some (k, v)))

record IsRead (lines : List Text) (r r' : Read) : Type 0 where
  kept : All (λ l. is_removal l ≡ false) lines
  grows : Grows r r'
  listed : All (Listed r') lines
  configures : All (Configured r') lines
  only : ComesFrom lines r r'

Adds-Grows : (line : Text) (r r' : Read) → Adds line r r' → Grows r r'
unfolding value_at
Adds-Grows line r r' (inst n v b e f) = (
  λ k w h. elim (Bool-cases (same_text n k)) [
    | inl q ↦
        let c : none ≡ some w =
          sym (subst (λ z. value_at z r.result ≡ none) (same_text→eq n k q) f) ∙ h in
        cc
    | inr q ↦ rw q h
  ],
  λ w m. m,
)
Adds-Grows line r r' (conf w b e) = (λ k v h. h, λ x m. Memᴰ.tail m)
Adds-Grows line r r' (nothing b c) = (λ k v h. h, λ x m. m)

Adds-Listed : (line : Text) (r r' u : Read) → Adds line r r' → Grows r' u → Listed u line
unfolding value_at
Adds-Listed line r r' u (inst n v b e f) g on = (n, v, e, g.0 n v (rw (same_text_refl n) refl))
Adds-Listed line r r' u (conf w b e) g on = cc
Adds-Listed line r r' u (nothing b c) g on = cc

Adds-Configured : (line : Text) (r r' u : Read) → Adds line r r' → Grows r' u → Configured u line
Adds-Configured line r r' u (inst n v b e f) g off on = cc
Adds-Configured line r r' u (conf w b e) g off on = (w, e, g.1 w (Memᴰ.head refl))
Adds-Configured line r r' u (nothing b c) g off on = cc

Adds-only :
    (line : Text) (lines : List Text) (r r' u : Read)
    → Adds line r r'
    → ComesFrom lines r' u
    → ComesFrom (line ∷ lines) r u
unfolding value_at
Adds-only line lines r r' u (inst n v b e f) only k w h = elim (only k w h) [
  | inr (l, m, q) ↦ inr (l, Memᴰ.tail m, q)
  | inl q ↦ elim (Bool-cases (same_text n k)) [
    | inr d ↦ inl (rw d at q)
    | inl d ↦
        let a : n ≡ k = same_text→eq n k d in
        let z : some v ≡ some w = rw d at q in
        let y : v ≡ w = cc in inr (line, Memᴰ.head refl, e ∙ cc)
  ]
]
Adds-only line lines r r' u (conf x b e) only k w h = elim (only k w h) [
  | inr (l, m, q) ↦ inr (l, Memᴰ.tail m, q)
  | inl q ↦ inl q
]
Adds-only line lines r r' u (nothing b c) only k w h = elim (only k w h) [
  | inr (l, m, q) ↦ inr (l, Memᴰ.tail m, q)
  | inl q ↦ inl q
]

lines-IsRead : (lines : List Text) (r u : Read) → read_lines lines r ≡ ok u → IsRead lines r u
unfolding read_lines
lines-IsRead [] r u h =
    let e : r ≡ u = ok_eq r u h in
    subst (IsRead [] r) e (record {
      kept = tt;
      grows = (λ k v q. q, λ w m. m);
      listed = tt;
      configures = tt;
      only = λ k v q. inl q;
    })
lines-IsRead (line ∷ lines) r u h =
    let (r', e, g) = bind-ok (read_line line r) (read_lines lines) u h in
    let (kept, adds) = line-Adds line r r' e in
    let rest = lines-IsRead lines r' u g in
    let grows = Adds-Grows line r r' adds in
    record {
      kept = (kept, rest.kept);
      grows = (λ k v q. rest.grows.0 k v (grows.0 k v q), λ w m. rest.grows.1 w (grows.1 w m));
      listed = (Adds-Listed line r r' u adds rest.grows, rest.listed);
      configures = (Adds-Configured line r r' u adds rest.grows, rest.configures);
      only = Adds-only line lines r r' u adds rest.only;
    }

-- What APT's output says, read off its lines without the order in which they were read.
pub record IsUpgrade (lines : List Text) (t : Table) : Type 0 where
  pub no_removal : All (λ l. is_removal l ≡ false) lines
  pub installs :
      All
        (λ l.
          begins (codes "Inst ") l ≡ true
          → (n : Text) × (v : Text) × (inst_match l ≡ some (n, v)) × (value_at n t ≡ some v))
        lines
  pub configures :
      All
        (λ l.
          begins (codes "Inst ") l ≡ false
          → begins (codes "Conf ") l ≡ true
          → (w : Text) × (second_word (words l) ≡ ok w) × (is_some (value_at w t) ≡ true))
        lines
  pub nothing_else :
      (k v : Text)
      → value_at k t ≡ some v
      → (l : Text) × Memᴰ l lines × (inst_match l ≡ some (k, v))

all-mem : (f : Text → Bool) (xs : List Text) (x : Text) → all f xs ≡ true → Memᴰ x xs → f x ≡ true
unfolding all
all-mem f [] x h m = elim m [ ]
all-mem f (y ∷ ys) x h (Memᴰ.head e) =
    let g : f y ≡ true = ground arith in subst (λ z. f z ≡ true) (sym e) g
all-mem f (y ∷ ys) x h (Memᴰ.tail m) = all-mem f ys x (ground arith) m

-- When `operations` returns, APT's output proposes no removal; the table has for each package of an
-- `Inst` line the version that the line names, and nothing that no `Inst` line names; and every
-- package of a `Conf` line is in it.
pub operations_lem :
    (output : Text) (t : Table) → operations output ≡ ok t → IsUpgrade (split_lines output) t
unfolding operations value_at
operations_lem output t h =
    let (r, e, g) = bind-ok (read_lines (split_lines output) nothing_read) _ t h in
    let (related, k) =
      demand-ok (all (λ name. is_some (value_at name r.result)) r.configured)
        unrelated_configuration (ok r.result) t g in
    let read = lines-IsRead (split_lines output) nothing_read r e in
    subst (IsUpgrade (split_lines output)) (ok_eq r.result t k) (record {
      no_removal = read.kept;
      installs = read.listed;
      configures =
          All-map _ _ (split_lines output)
            (λ l q off on.
              let (w, s, m) = q off on in
              (w, s, all-mem (λ name. is_some (value_at name r.result)) r.configured w related m))
            read.configures;
      nothing_else = λ k v q. elim (read.only k v q) [ inl n ↦ cc | inr x ↦ x ];
    })
