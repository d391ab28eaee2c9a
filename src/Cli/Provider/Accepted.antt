-- ===== src/Cli/Provider/Accepted.antt =====
-- The providers that `validate_provider` of rootfs/usr/lib/rougarou/cli.py accepts.
use rougarou_os.Base.{
  ℕ, suc, ◌≡◌, refl, ap, Bool, true, false, not, ◌&&◌, ◌||◌, some, List, [], ◌∷◌, length, ltb, leb,
  codes, ok, err, is_ok, Text, is_empty, any, begins, All, arith, inl, inr, Bool-cases,
  Option-cases,
}
use mathlib.Core.Path.{subst}
use rougarou_os.Base.Json.{
  Json, boolean, text, array, elements, Elements, no_elements, element, Dict, lookup,
}
use rougarou_os.Base.Results.{demand, is_ok-then, is_ok-bind, demand_iff, result-cases}
use rougarou_os.Cli.Provider.{
  Label, ConfigError, is_control, clean_text, Parts, Net, has_extras, is_secure, validate_url,
  ProviderKind, codex, responses, ollama, command, clean_all, check_argv, is_dashed,
}

-- What the configuration says, without the text that it is written in.
pub data Provider : Type 0 where
  use_codex : Provider
  use_responses : (endpoint model_name : Text) (authenticated : Bool) → Provider
  use_ollama : (model_name : Text) → Provider
  use_command : (executable : Text) (arguments : List Text) → Provider

abbrev pub kind : Provider → ProviderKind
kind use_codex = codex
kind (use_responses e m a) = responses
kind (use_ollama m) = ollama
kind (use_command x ts) = command

abbrev pub of_texts : List Text → Elements
of_texts [] = no_elements
of_texts (t ∷ ts) = element (text t) (of_texts ts)

abbrev pub encode : Provider → Dict
encode use_codex = (codes "kind", text (codes "codex")) ∷ []
encode (use_responses e m a) =
    (codes "kind", text (codes "responses"))
    ∷ (codes "endpoint", text e)
    ∷ (codes "model", text m)
    ∷ (codes "authenticated", boolean a)
    ∷ []
encode (use_ollama m) = (codes "kind", text (codes "ollama")) ∷ (codes "model", text m) ∷ []
encode (use_command x ts) =
    (codes "kind", text (codes "command")) ∷ (codes "argv", array (of_texts (x ∷ ts))) ∷ []

-- Not empty, not too long, and without control characters.
pub record IsClean (limit : ℕ) (t : Text) : Type 0 where
  pub sized : (is_empty t || ltb limit (length t)) ≡ false
  pub printed : any is_control t ≡ false

abbrev pub IsUrl : Net → Text → Type 0
IsUrl net t =
    IsClean 2048 t
    × ((p : Parts) × (net.split t ≡ some p) × (has_extras p ≡ false) × (is_secure net p ≡ true))

abbrev pub IsAccepted : Net → Provider → Type 0
IsAccepted net use_codex = Unit
IsAccepted net (use_responses e m a) = IsUrl net e × IsClean 256 m
IsAccepted net (use_ollama m) = IsClean 256 m
IsAccepted net (use_command x ts) =
    All (IsClean 4096) (x ∷ ts) × (leb (length ts) 63 ≡ true) × (begins (codes "-") x ≡ false)

-- The object says the same of every key.
abbrev pub Says : Dict → Provider → Type 0
Says d p = (k : Text) → lookup k d ≡ lookup k (encode p)

pub clean_text-ok :
    (t : Text) (label : Label) (limit : ℕ)
    → IsClean limit t
    → clean_text (text t) label limit ≡ ok t
unfolding clean_text
clean_text-ok t label limit c = rw (c.sized, c.printed) refl

pub clean_text-IsClean :
    (j : Json) (label : Label) (limit : ℕ) (t : Text)
    → clean_text j label limit ≡ ok t
    → (j ≡ text t) × IsClean limit t
unfolding clean_text
clean_text-IsClean (text u) label limit t e =
    elim (Bool-cases (is_empty u || ltb limit (length u))) [
      | inl a ↦ let c : err (ConfigError.bad_length label) ≡ ok t = rw a at e in cc
      | inr a ↦ elim (Bool-cases (any is_control u)) [
        | inl b ↦ let c : err (ConfigError.control_characters label) ≡ ok t = rw (a, b) at e in cc
        | inr b ↦
            let c : ok u ≡ ok t = rw (a, b) at e in
            let d : u ≡ t = cc in
            (ap text d, subst (IsClean limit) d (record { sized = a; printed = b }))
      ]
    ]
clean_text-IsClean _ label limit t e = cc

pub cleaned :
    (j : Json) (label : Label) (limit : ℕ)
    → is_ok (clean_text j label limit) ≡ true
    → (t : Text) × (j ≡ text t) × IsClean limit t
cleaned j label limit h = elim (result-cases (clean_text j label limit)) [
  | inl (x, e) ↦ let c : false ≡ true = rw e at h in cc
  | inr (t, e) ↦ let (d, c) = clean_text-IsClean j label limit t e in (t, d, c)
]

pub validate_url-IsUrl :
    (net : Net) (j : Json)
    → is_ok (validate_url net j) ≡ true
    → (t : Text) × (j ≡ text t) × IsUrl net t
unfolding validate_url
validate_url-IsUrl net j h =
    let (t, e, g) = (is_ok-bind (clean_text j Label.provider_url 2048) _).0 h in
    let (d, c) = clean_text-IsClean j Label.provider_url 2048 t e in
    elim (Option-cases (net.split t)) [
      | inl n ↦ let w : false ≡ true = rw n at g in cc
      | inr (p, n) ↦ (
        t,
        d,
        (
          c,
          elim (Bool-cases (has_extras p)) [
            | inl a ↦ let w : false ≡ true = rw (n, a) at g in cc
            | inr a ↦ elim (Bool-cases (is_secure net p)) [
              | inl b ↦ (p, n, a, b)
              | inr b ↦ let w : false ≡ true = rw (n, a, b) at g in cc
            ]
          ],
        ),
      )
    ]

pub validate_url-ok : (net : Net) (t : Text) → IsUrl net t → validate_url net (text t) ≡ ok t
unfolding validate_url
validate_url-ok net t (c, (p, e, a, b)) =
    rw (clean_text-ok t Label.provider_url 2048 c) (rw (e, a, b) refl)

clean_all-All :
    (js : Elements) (ts : List Text)
    → clean_all (elements js) ≡ ok ts
    → (js ≡ of_texts ts) × All (IsClean 4096) ts
unfolding clean_all
clean_all-All no_elements [] e = (refl, tt)
clean_all-All no_elements (t ∷ ts) e = cc
clean_all-All (element j js) ts e = elim (result-cases (clean_text j Label.cli_argument 4096)) [
  | inl (x, a) ↦ let c : err x ≡ ok ts = rw a at e in cc
  | inr (t, a) ↦ elim (result-cases (clean_all (elements js))) [
    | inl (x, b) ↦ let c : err x ≡ ok ts = rw (a, b) at e in cc
    | inr (us, b) ↦
        let c : ok (t ∷ us) ≡ ok ts = rw (a, b) at e in
        let (d, k) = clean_text-IsClean j Label.cli_argument 4096 t a in
        let (f, l) = clean_all-All js us b in
        let q : t ∷ us ≡ ts = cc in
        subst (λ z. (element j js ≡ of_texts z) × All (IsClean 4096) z) q (cc, (k, l))
  ]
]

clean_all-ok : (ts : List Text) → All (IsClean 4096) ts → clean_all (elements (of_texts ts)) ≡ ok ts
unfolding clean_all
clean_all-ok [] h = refl
clean_all-ok (t ∷ ts) h = rw (clean_text-ok t Label.cli_argument 4096 h.0, clean_all-ok ts h.1) refl

length-of_texts : (ts : List Text) → length (elements (of_texts ts)) ≡ length ts
length-of_texts [] = refl
length-of_texts (t ∷ ts) = ap suc (length-of_texts ts)

abbrev IsArgv : Json → Type 0
IsArgv j =
    (x : Text) × (ts : List Text) × (j ≡ array (of_texts (x ∷ ts)))
    × All (IsClean 4096) (x ∷ ts)
    × (leb (length ts) 63 ≡ true)
    × (begins (codes "-") x ≡ false)

pub check_argv-IsArgv : (j : Json) → is_ok (check_argv j) ≡ true → IsArgv j
check_argv-IsArgv (array js) h =
    let (sized, g) =
      (is_ok-then
          (demand (leb 1 (length (elements js)) && leb (length (elements js)) 64)
            ConfigError.bad_argv)
          _).0
        h in
    let (ts, e, k) = (is_ok-bind (clean_all (elements js)) _).0 g in
    let (d, c) = clean_all-All js ts e in of_argv ts d c (rw d at ((demand_iff _ _).0 sized)) k
  where
    of_argv :
        (ts : List Text)
        → js ≡ of_texts ts
        → All (IsClean 4096) ts
        → (leb 1 (length (elements (of_texts ts))) && leb (length (elements (of_texts ts))) 64)
          ≡ true
        → is_ok (demand (not (is_dashed ts)) ConfigError.dashed_executable) ≡ true
        → IsArgv (array js)
    of_argv [] d c n k = cc
    of_argv (x ∷ ts) d c n k = (
      x,
      ts,
      ap array d,
      c,
      ground (arith, rw (length-of_texts ts) at n),
      let z = (demand_iff _ _).0 k in ground arith,
    )
check_argv-IsArgv _ h = cc

argv_fits : (n : ℕ) → leb n 63 ≡ true → (leb 1 (suc n) && leb (suc n) 64) ≡ true
argv_fits n h = ground arith

pub check_argv-ok :
    (x : Text) (ts : List Text)
    → All (IsClean 4096) (x ∷ ts)
    → leb (length ts) 63 ≡ true
    → begins (codes "-") x ≡ false
    → check_argv (array (of_texts (x ∷ ts))) ≡ ok tt
check_argv-ok x ts c n b =
    rw (length-of_texts ts) (rw (clean_all-ok (x ∷ ts) c) (rw (argv_fits (length ts) n, b) refl))
