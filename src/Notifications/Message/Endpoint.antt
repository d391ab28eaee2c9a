-- ===== src/Notifications/Message/Endpoint.antt =====
-- Which endpoints `validate_url` of rootfs/usr/lib/rougarou/notifications.py lets pass.
use mathlib.Core.Path.{subst}
use rougarou_os.Base.{
  ◌≡◌, refl, Bool, true, false, not, ◌&&◌, ◌||◌, Option, none, some, [], ◌∷◌, codes, arith, Result,
  ℕ, ◌≤◌, ◌≢◌, All, length, any, ok, Text, same_text, same_text→eq, ◌⊎◌, inl, inr, is_empty,
}
use rougarou_os.Base.Json.{
  Json, null, big_double, boolean, whole, double, array, object, text, Dict, lookup, has_keys,
  equals_one,
}
use rougarou_os.Base.Results.{bind-ok, demand-ok}
use rougarou_os.Cli.Provider.{Parts, Net, is_given}
use rougarou_os.Notifications.Message.{
  EndpointError, invalid_url, insecure_url, not_configured, invalid_configuration, is_url_text,
  is_unsafe, has_extras, hostname_text, is_local, is_secure, check_parts, validate_url, Config,
  given, format_of, token_of, load_config,
}

-- 33 is the first character after the space, and 127 is the control character DEL.
abbrev pub IsVisible : ℕ → Type 0
IsVisible c = (33 ≤ c) × (c ≢ 127)

-- An optional part that is missing, or empty.
abbrev pub IsBlank : Option Text → Type 0
IsBlank o = (o ≡ none) ⊎ (o ≡ some [])

-- A text that the URL reader takes, with a host and without a name, a password or a fragment, for
-- HTTPS, or for HTTP to this machine.
pub record IsEndpoint (net : Net) (url : Text) : Type 0 where
  pub parts : Parts
  pub first : ℕ
  pub others : Text
  pub not_empty : url ≡ first ∷ others
  pub in_bounds : length url ≤ 4096
  pub visible : All IsVisible url
  pub read : net.split url ≡ some parts
  pub hostname : (c : ℕ) × (t : Text) × (parts.hostname ≡ some (c ∷ t))
  pub no_name : IsBlank parts.username
  pub no_password : IsBlank parts.password
  pub no_fragment : parts.fragment ≡ []
  pub secure :
      (parts.scheme ≡ codes "https")
      ⊎ ((parts.scheme ≡ codes "http") × (is_local net (hostname_text parts.hostname) ≡ true))

IsBlank-of : (o : Option Text) → is_given o ≡ false → IsBlank o
IsBlank-of none h = inl refl
IsBlank-of (some []) h = inr refl
IsBlank-of (some (c ∷ t)) h = cc

given-host : (o : Option Text) → is_given o ≡ true → (c : ℕ) × (t : Text) × (o ≡ some (c ∷ t))
given-host none h = cc
given-host (some []) h = cc
given-host (some (c ∷ t)) h = (c, t, refl)

empty-eq : (t : Text) → is_empty t ≡ true → t ≡ []
empty-eq [] h = refl
empty-eq (c ∷ t) h = cc

not_empty-eq : (t : Text) → is_empty t ≡ false → (c : ℕ) × (u : Text) × (t ≡ c ∷ u)
not_empty-eq [] h = cc
not_empty-eq (c ∷ t) h = (c, t, refl)

All-IsVisible : (t : Text) → any is_unsafe t ≡ false → All IsVisible t
unfolding any
All-IsVisible [] h = tt
All-IsVisible (c ∷ t) h =
    ((ground (arith, h), ground (arith, h)), All-IsVisible t (ground (arith, h)))

ok_eq : (a b : Text) → ◌≡◌ {A = Result EndpointError Text} (ok a) (ok b) → a ≡ b
ok_eq a b h = cc

secure-cases :
    (net : Net) (p : Parts)
    → is_secure net p ≡ true
    → (p.scheme ≡ codes "https")
      ⊎ ((p.scheme ≡ codes "http") × (is_local net (hostname_text p.hostname) ≡ true))
secure-cases net p h = at (same_text p.scheme (codes "https")) refl h
  where
    both : (a b : Bool) → (a && b) ≡ true → (a ≡ true) × (b ≡ true)
    both a b h = (ground arith, ground arith)

    at :
        (b : Bool)
        → same_text p.scheme (codes "https") ≡ b
        → (b || (same_text p.scheme (codes "http") && is_local net (hostname_text p.hostname)))
          ≡ true
        → (p.scheme ≡ codes "https")
          ⊎ ((p.scheme ≡ codes "http") × (is_local net (hostname_text p.hostname) ≡ true))
    at true e g = inl (same_text→eq p.scheme (codes "https") e)
    at false e g =
        let (x, y) =
          both (same_text p.scheme (codes "http")) (is_local net (hostname_text p.hostname)) g in
        inr (same_text→eq p.scheme (codes "http") x, y)

check_parts-IsEndpoint :
    (net : Net) (url u : Text) (o : Option Parts)
    → is_url_text url ≡ true
    → net.split url ≡ o
    → check_parts net url o ≡ ok u
    → IsEndpoint net u
check_parts-IsEndpoint net url u none b e h = cc
check_parts-IsEndpoint net url u (some p) b e h =
    let (d, g) = demand-ok (not (has_extras p) && is_secure net p) insecure_url _ u h in
    let (bare, secure) = split (has_extras p) (is_secure net p) d in
    let (first, others, n) = not_empty-eq url (ground (arith, b)) in
    subst (IsEndpoint net) (ok_eq url u g) (record {
      parts = p;
      first = first;
      others = others;
      not_empty = n;
      in_bounds = ground (arith, b);
      visible = All-IsVisible url (ground (arith, b));
      read = e;
      hostname = given-host p.hostname (ground (arith, bare));
      no_name = IsBlank-of p.username (ground (arith, bare));
      no_password = IsBlank-of p.password (ground (arith, bare));
      no_fragment = empty-eq p.fragment (ground (arith, bare));
      secure = secure-cases net p secure;
    })
  where
    split : (x y : Bool) → (not x && y) ≡ true → (x ≡ false) × (y ≡ true)
    split x y h = (ground arith, ground arith)

validate_url-IsEndpoint :
    (net : Net) (value : Json) (url : Text) → validate_url net value ≡ ok url → IsEndpoint net url
unfolding validate_url
validate_url-IsEndpoint net (text t) url h =
    let (b, g) = demand-ok (is_url_text t) invalid_url _ url h in
    check_parts-IsEndpoint net t url (net.split t) b refl g
validate_url-IsEndpoint net null url h = cc
validate_url-IsEndpoint net big_double url h = cc
validate_url-IsEndpoint net (boolean _) url h = cc
validate_url-IsEndpoint net (whole _) url h = cc
validate_url-IsEndpoint net (double _ _) url h = cc
validate_url-IsEndpoint net (array _) url h = cc
validate_url-IsEndpoint net (object _) url h = cc

config_eq : (a b : Config) → ◌≡◌ {A = Result EndpointError Config} (ok a) (ok b) → a ≡ b
config_eq a b h = cc

-- The configuration that `load_config` returns sends to an endpoint whose text is of 1 to 4096
-- characters without spaces or control characters, which has a host and neither a name, a password
-- nor a fragment, and which is HTTPS, or HTTP to this very machine.
pub load_config_lem :
    (net : Net) (d : Dict) (config : Config)
    → load_config net d ≡ ok config
    → IsEndpoint net config.url
unfolding load_config
load_config_lem net d config h0 =
    let (e1, h1) = demand-ok (not (is_empty d)) not_configured _ config h0 in
    let (e2, h2) =
      demand-ok (has_keys (codes "schema" ∷ codes "url" ∷ codes "format" ∷ codes "token" ∷ []) d)
        invalid_configuration _ config h1 in
    let (schema, e3, h3) = bind-ok (given (lookup (codes "schema") d)) _ config h2 in
    let (e4, h4) = demand-ok (equals_one schema) invalid_configuration _ config h3 in
    let (format_value, e5, h5) = bind-ok (given (lookup (codes "format") d)) _ config h4 in
    let (format, e6, h6) = bind-ok (format_of format_value) _ config h5 in
    let (url_value, e7, h7) = bind-ok (given (lookup (codes "url") d)) _ config h6 in
    let (url, e8, h8) = bind-ok (validate_url net url_value) _ config h7 in
    let (token_value, e9, h9) = bind-ok (given (lookup (codes "token") d)) _ config h8 in
    let (token, e10, h10) = bind-ok (token_of token_value) _ config h9 in
    subst (λ z. IsEndpoint net z.url)
      (config_eq (record { url = url; format = format; token = token }) config h10)
      (validate_url-IsEndpoint net url_value url e8)
