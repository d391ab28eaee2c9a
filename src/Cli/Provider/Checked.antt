-- ===== src/Cli/Provider/Checked.antt =====
-- `validate_provider` of rootfs/usr/lib/rougarou/cli.py reads a provider off an object and accepts it.
use rougarou_os.Base.{
  ◌≡◌, refl, sym, ◌∙◌, ap, ◌↔◌, Bool, true, false, ◌&&◌, Option, none, some, List, [], ◌∷◌, codes,
  Result, ok, err, is_ok, Text, same_text, same_text→eq, same_text_refl, has_text, all, is_some,
  All, arith, inl, inr, Bool-cases, Option-cases,
}
use mathlib.Core.Path.{subst}
use rougarou_os.Base.Json.{
  Json, boolean, text, object, members, Members, Dict, lookup, lookup-none, has_keys, keys_in,
}
use rougarou_os.Base.Results.{demand, is_ok-then, is_ok-bind, demand_iff}
use rougarou_os.Cli.Provider.{
  Label, ConfigError, clean_text, Net, validate_url, ProviderKind, codex, responses, ollama,
  command, kind_named, kind_names, kind_of, keys_of, value_of, check_boolean, check_fields,
  validate_provider,
}
use rougarou_os.Cli.Provider.Accepted.{
  Provider, use_codex, use_responses, use_ollama, use_command, kind, encode, IsAccepted, Says,
  clean_text-ok, cleaned, validate_url-IsUrl, validate_url-ok, check_argv-IsArgv, check_argv-ok,
}

abbrev name_of : ProviderKind → Text
name_of codex = codes "codex"
name_of responses = codes "responses"
name_of ollama = codes "ollama"
name_of command = codes "command"

All-named : All (λ (row : Text × ProviderKind). row.0 ≡ name_of row.1) kind_names
All-named = (refl, (refl, (refl, (refl, tt))))

kind_named-name :
    (t : Text) (k : ProviderKind) (rows : List (Text × ProviderKind))
    → All (λ row. row.0 ≡ name_of row.1) rows
    → kind_named t rows ≡ some k
    → t ≡ name_of k
unfolding kind_named
kind_named-name t k [] a h = cc
kind_named-name t k ((n, l) ∷ rows) a h = elim (Bool-cases (same_text t n)) [
  | inl e ↦
      let d : some l ≡ some k = rw e at h in
      let f : l ≡ k = cc in same_text→eq t n e ∙ a.0 ∙ ap name_of f
  | inr e ↦ kind_named-name t k rows a.1 (rw e at h)
]

kind_of-text : (o : Option Json) (k : ProviderKind) → kind_of o ≡ ok k → o ≡ some (text (name_of k))
kind_of-text (some (text t)) k h = elim (Option-cases (kind_named t kind_names)) [
  | inl e ↦ let c : err ConfigError.unknown_provider ≡ ok k = rw e at h in cc
  | inr (l, e) ↦
      let c : ok l ≡ ok k = rw e at h in
      let d : l ≡ k = cc in
      ap (λ z. some (text z)) (kind_named-name t l kind_names All-named e ∙ ap name_of d)
]
kind_of-text _ k h = cc

kind_of-name : (k : ProviderKind) → kind_of (some (text (name_of k))) ≡ ok k
unfolding kind_named same_text
kind_of-name codex = refl
kind_of-name responses = refl
kind_of-name ollama = refl
kind_of-name command = refl

value_of-some : (k : Text) (d : Dict) (j : Json) → value_of k d ≡ ok j → lookup k d ≡ some j
value_of-some k d j h = elim (Option-cases (lookup k d)) [
  | inl e ↦ let c : err ConfigError.bad_fields ≡ ok j = rw e at h in cc
  | inr (l, e) ↦ let c : ok l ≡ ok j = rw e at h in let q : l ≡ j = cc in e ∙ ap some q
]

-- Two objects with the same keys and the same value of each are the same.
same_at :
    (names : List Text) (d e : Dict)
    → keys_in names d ≡ true
    → keys_in names e ≡ true
    → All (λ k. lookup k d ≡ lookup k e) names
    → (k : Text) → lookup k d ≡ lookup k e
unfolding has_text
same_at names d e h g a k = elim (Bool-cases (has_text k names)) [
  | inl t ↦ at names t a
  | inr n ↦ lookup-none names d k h n ∙ sym (lookup-none names e k g n)
]
  where
    at :
        (ns : List Text)
        → has_text k ns ≡ true
        → All (λ k. lookup k d ≡ lookup k e) ns
        → lookup k d ≡ lookup k e
    at [] t b = cc
    at (n ∷ ns) t b = elim (Bool-cases (same_text n k)) [
      | inl q ↦ subst (λ z. lookup z d ≡ lookup z e) (same_text→eq n k q) b.0
      | inr q ↦ at ns (rw q at t) b.1
    ]

keys_in-of :
    (names : List Text) (d : Dict)
    → ((k : Text) → has_text k names ≡ false → lookup k d ≡ none)
    → keys_in names d ≡ true
unfolding keys_in lookup
keys_in-of names [] f = refl
keys_in-of names ((l, j) ∷ ms) f = elim (Bool-cases (has_text l names)) [
  | inl e ↦ rw e (keys_in-of names ms λ k n. let g = f k n in ground arith)
  | inr e ↦ let c = f l e in let q = same_text_refl l in ground arith
]

abbrev Same : Dict → Provider → Type 0
Same d p = All (λ k. lookup k d ≡ lookup k (encode p)) (keys_of (kind p))

encode-keys : (p : Provider) → keys_in (keys_of (kind p)) (encode p) ≡ true
unfolding keys_in has_text same_text
encode-keys use_codex = refl
encode-keys (use_responses e m a) = refl
encode-keys (use_ollama m) = refl
encode-keys (use_command x ts) = refl

boolean_value :
    (j : Json)
    → is_ok (check_boolean j ConfigError.bad_authenticated) ≡ true
    → (b : Bool) × (j ≡ boolean b)
boolean_value (boolean b) h = (b, refl)
boolean_value _ h = cc

-- The checks of the fields, with the provider that they have read.
fields_sound :
    (net : Net) (k : ProviderKind) (d : Dict)
    → lookup (codes "kind") d ≡ some (text (name_of k))
    → is_ok (check_fields net k d) ≡ true
    → (p : Provider) × (kind p ≡ k) × IsAccepted net p × Same d p
unfolding lookup same_text
fields_sound net codex d h g = (use_codex, refl, tt, (h, tt))
fields_sound net ollama d h g =
    let (j, e, r) = (is_ok-bind (value_of (codes "model") d) _).0 g in
    let (m, q, c) =
      cleaned j Label.model 256 ((is_ok-then (clean_text j Label.model 256) _).0 r).0 in
    (use_ollama m, refl, c, (h, (value_of-some (codes "model") d j e ∙ ap some q, tt)))
fields_sound net responses d h g =
    let (j, e, r) = (is_ok-bind (value_of (codes "model") d) _).0 g in
    let (f, r2) = (is_ok-then (clean_text j Label.model 256) _).0 r in
    let (m, q, c) = cleaned j Label.model 256 f in
    let (i, e2, r3) = (is_ok-bind (value_of (codes "endpoint") d) _).0 r2 in
    let (u, r4) = (is_ok-then (validate_url net i) _).0 r3 in
    let (l, q2, c2) = validate_url-IsUrl net i u in
    let (b, e3, r5) = (is_ok-bind (value_of (codes "authenticated") d) _).0 r4 in
    let (a, q3) = boolean_value b r5 in
    (
      use_responses l m a,
      refl,
      (c2, c),
      (
        h,
        (
          value_of-some (codes "endpoint") d i e2 ∙ ap some q2,
          (
            value_of-some (codes "model") d j e ∙ ap some q,
            (value_of-some (codes "authenticated") d b e3 ∙ ap some q3, tt),
          ),
        ),
      ),
    )
fields_sound net command d h g =
    let (j, e, r) = (is_ok-bind (value_of (codes "argv") d) _).0 g in
    let (x, ts, q, c, n, b) = check_argv-IsArgv j r in
    (use_command x ts, refl, (c, n, b), (h, (value_of-some (codes "argv") d j e ∙ ap some q, tt)))

fields_complete :
    (net : Net) (p : Provider) (d : Dict)
    → IsAccepted net p
    → Says d p
    → is_ok (check_fields net (kind p) d) ≡ true
unfolding lookup same_text
fields_complete net use_codex d a s = refl
fields_complete net (use_ollama m) d a s =
    rw (s (codes "model")) (rw (clean_text-ok m Label.model 256 a) refl)
fields_complete net (use_responses e m b) d (u, c) s =
    rw (s (codes "model"), s (codes "endpoint"), s (codes "authenticated"))
      (rw (clean_text-ok m Label.model 256 c, validate_url-ok net e u) refl)
fields_complete net (use_command x ts) d (c, n, b) s =
    rw (s (codes "argv")) (rw (check_argv-ok x ts c n b) refl)

has_keys-Says : (p : Provider) (d : Dict) → Says d p → has_keys (keys_of (kind p)) d ≡ true
unfolding lookup same_text all
has_keys-Says p d s =
    rw
      (keys_in-of (keys_of (kind p)) d
        λ k n. s k ∙ lookup-none (keys_of (kind p)) (encode p) k (encode-keys p) n)
      (all_there p s)
  where
    all_there :
        (p : Provider) → Says d p → all (λ k. is_some (lookup k d)) (keys_of (kind p)) ≡ true
    all_there use_codex s = rw (s (codes "kind")) refl
    all_there (use_ollama m) s = rw (s (codes "kind"), s (codes "model")) refl
    all_there (use_responses e m a) s =
        rw (s (codes "kind"), s (codes "endpoint"), s (codes "model"), s (codes "authenticated"))
          refl
    all_there (use_command x ts) s = rw (s (codes "kind"), s (codes "argv")) refl

kind-Says : (p : Provider) → lookup (codes "kind") (encode p) ≡ some (text (name_of (kind p)))
unfolding lookup same_text
kind-Says use_codex = refl
kind-Says (use_ollama m) = refl
kind-Says (use_responses e m a) = refl
kind-Says (use_command x ts) = refl

-- `validate_provider` accepts an object when, and only when, it says no more and no less than one of
-- the four kinds of provider: Codex, an endpoint with a model and whether it wants a key, a local
-- model, or a command of 1 to 64 words, the first of which does not begin with a dash; with every
-- text of it clean and of its length, and with an endpoint without credentials, query or fragment
-- that is HTTPS, or HTTP on a loopback host.
pub validate_provider_lem :
    (net : Net) (ms : Members)
    → is_ok (validate_provider net (object ms)) ≡ true
      ↔ ((p : Provider) × IsAccepted net p × Says (members ms) p)
unfolding validate_provider
validate_provider_lem net ms = (
  λ h.
      let d = members ms in
      let (k, e, r) = (is_ok-bind (kind_of (lookup (codes "kind") d)) _).0 h in
      let (keys, r2) =
        (is_ok-then (demand (has_keys (keys_of k) d) ConfigError.bad_fields) _).0 r in
      let (checked, _) = (is_ok-then (check_fields net k d) (Result.ok k)).0 r2 in
      let (p, q, a, same) =
        fields_sound net k d (kind_of-text (lookup (codes "kind") d) k e) checked in
      let all_keys = (demand_iff (has_keys (keys_of k) d) ConfigError.bad_fields).0 keys in
      (
        p,
        a,
        same_at (keys_of (kind p)) d (encode p)
            (let z : (keys_in (keys_of (kind p)) d
                    && all (λ n. is_some (lookup n d)) (keys_of (kind p)))
                  ≡ true =
                rw (sym q) at all_keys in
              ground arith)
            (encode-keys p) same,
      ),
  λ (p, a, s).
      let d = members ms in
      rw (s (codes "kind") ∙ kind-Says p) (
        rw (kind_of-name (kind p)) (
          rw (has_keys-Says p d s) (
            (is_ok-then (check_fields net (kind p) d) (Result.ok (kind p))).1
              (fields_complete net p d a s, refl)))),
)
