-- ===== src/Cli/Provider.antt =====
-- `clean_text`, `validate_url`, `validate_provider` and `load_config` of
-- rootfs/usr/lib/rougarou/cli.py.
pub mod Accepted
pub mod Checked
pub mod Tests
use rougarou_os.Base.{
  ℕ, ℤ, Bool, true, false, not, ◌&&◌, ◌||◌, Option, none, some, List, [], ◌∷◌, length, ltb, leb,
  ◌==◌, codes, Result, ok, err, Text, same_text, has_text, is_empty, any, begins, is_some,
  if◌then◌else◌,
}
use rougarou_os.Base.Json.{
  Json, boolean, text, array, object, elements, members, Dict, lookup, has_keys, keys_in,
  equals_one,
}
use rougarou_os.Base.Results.{◌>>=◌, ◌>>◌, demand}

-- The words by which an error names what it is about.
pub data Label : Type 0 where
  provider_url model cli_argument : Label

pub data ConfigError : Type 0 where
  bad_length control_characters : Label → ConfigError
  invalid_url url_extras insecure_url unknown_provider bad_fields bad_authenticated : ConfigError
  bad_argv dashed_executable unsupported_configuration unhashable not_text other_endpoint
        missing_key :
      ConfigError
  invalid_setting : Text → ConfigError

abbrev pub is_control : ℕ → Bool
is_control c = ltb c 32 || (c == 127)

abbrev clean_code_points : Label → ℕ → Text → Result ConfigError Text
clean_code_points label limit t = do
  demand (not (is_empty t || ltb limit (length t))) (bad_length label)
  demand (not (any is_control t)) (control_characters label)
  ok t

unfoldable pub clean_text : Json → Label → ℕ → Result ConfigError Text
clean_text (text t) label limit = clean_code_points label limit t
clean_text _ label limit = err (bad_length label)

-- What `urlsplit` finds in a text: `port` is whether the port is one.
pub record Parts : Type 0 where
  pub scheme : Text
  pub hostname : Option Text
  pub username : Option Text
  pub password : Option Text
  pub query : Text
  pub fragment : Text

-- `urlsplit` and `ipaddress` are parameters: `none` is a `ValueError`, of the parts or of the port.
pub record Net : Type 0 where
  pub split : Text → Option Parts
  pub is_loopback : Text → Bool

-- Python's truth of a text that may be missing
abbrev pub is_given : Option Text → Bool
is_given none = false
is_given (some t) = not (is_empty t)

abbrev pub has_extras : Parts → Bool
has_extras p =
    not (is_given p.hostname)
    || is_given p.username
    || is_given p.password
    || not (is_empty p.query)
    || not (is_empty p.fragment)

abbrev is_local : Net → Option Text → Bool
is_local net none = false
is_local net (some h) = same_text h (codes "localhost") || net.is_loopback h

abbrev pub is_secure : Net → Parts → Bool
is_secure net p =
    same_text p.scheme (codes "https")
    || (same_text p.scheme (codes "http") && is_local net p.hostname)

abbrev check_parts : Net → Text → Option Parts → Result ConfigError Text
check_parts net url none = err invalid_url
check_parts net url (some p) = do
  demand (not (has_extras p)) url_extras
  demand (is_secure net p) insecure_url
  ok url

unfoldable pub validate_url : Net → Json → Result ConfigError Text
validate_url net value = do
  url ← clean_text value provider_url 2048
  check_parts net url (net.split url)

pub data ProviderKind : Type 0 where
  codex responses ollama command : ProviderKind

abbrev pub kind_names : List (Text × ProviderKind)
kind_names =
    (codes "codex", codex)
    ∷ (codes "responses", responses)
    ∷ (codes "ollama", ollama)
    ∷ (codes "command", command)
    ∷ []

unfoldable pub kind_named : Text → List (Text × ProviderKind) → Option ProviderKind
kind_named t [] = none
kind_named t ((name, k) ∷ rest) = if same_text t name then some k else kind_named t rest

abbrev pub or_raise : {A : Type 0} → ConfigError → Option A → Result ConfigError A
or_raise e none = err e
or_raise e (some a) = ok a

-- A list or an object is not in a set of texts, but a `TypeError`.
abbrev pub kind_of : Option Json → Result ConfigError ProviderKind
kind_of (some (text t)) = or_raise unknown_provider (kind_named t kind_names)
kind_of (some (array js)) = err unhashable
kind_of (some (object ms)) = err unhashable
kind_of _ = err unknown_provider

abbrev pub keys_of : ProviderKind → List Text
keys_of codex = codes "kind" ∷ []
keys_of responses = codes "kind" ∷ codes "endpoint" ∷ codes "model" ∷ codes "authenticated" ∷ []
keys_of ollama = codes "kind" ∷ codes "model" ∷ []
keys_of command = codes "kind" ∷ codes "argv" ∷ []

-- `provider[key]`, which `set(provider) != keys` has found to be there
abbrev pub value_of : Text → Dict → Result ConfigError Json
value_of k d = or_raise bad_fields (lookup k d)

abbrev pub check_boolean : Json → ConfigError → Result ConfigError (Unit {0})
check_boolean (boolean b) e = ok tt
check_boolean _ e = err e

unfoldable pub clean_all : List Json → Result ConfigError (List Text)
clean_all [] = ok []
clean_all (j ∷ js) = do t ← clean_text j cli_argument 4096; ts ← clean_all js; ok (t ∷ ts)

abbrev pub is_dashed : List Text → Bool
is_dashed [] = false
is_dashed (t ∷ ts) = begins (codes "-") t

abbrev pub check_argv : Json → Result ConfigError (Unit {0})
check_argv (array js) = do
  let argv = elements js
  demand (leb 1 (length argv) && leb (length argv) 64) bad_argv
  texts ← clean_all argv
  demand (not (is_dashed texts)) dashed_executable
check_argv _ = err bad_argv

abbrev pub check_fields : Net → ProviderKind → Dict → Result ConfigError (Unit {0})
check_fields net codex d = ok tt
check_fields net ollama d = do
  model_name ← value_of (codes "model") d
  clean_text model_name model 256
  ok tt
check_fields net responses d = do
  model_name ← value_of (codes "model") d
  clean_text model_name model 256
  endpoint ← value_of (codes "endpoint") d
  validate_url net endpoint
  authenticated ← value_of (codes "authenticated") d
  check_boolean authenticated bad_authenticated
check_fields net command d = do argv ← value_of (codes "argv") d; check_argv argv

abbrev check_provider : Net → Dict → Result ConfigError ProviderKind
check_provider net d = do
  kind ← kind_of (lookup (codes "kind") d)
  demand (has_keys (keys_of kind) d) bad_fields
  check_fields net kind d
  ok kind

-- The kind stands for the provider that is returned, which is the argument.
unfoldable pub validate_provider : Net → Json → Result ConfigError ProviderKind
validate_provider net (object ms) = check_provider net (members ms)
validate_provider net _ = err unknown_provider

abbrev pub config_keys : List Text
config_keys =
    codes "schema_version"
    ∷ codes "provider"
    ∷ codes "first_login_seen"
    ∷ codes "setup_complete"
    ∷ []

abbrev pub is_version_one : Option Json → Bool
is_version_one none = false
is_version_one (some j) = equals_one j

abbrev pub check_setting : Text → Option Json → Result ConfigError (Unit {0})
check_setting key none = ok tt
check_setting key (some j) = check_boolean j (invalid_setting key)

abbrev pub check_chosen : Net → Option Json → Result ConfigError (Unit {0})
check_chosen net none = ok tt
check_chosen net (some j) = do validate_provider net j; ok tt

abbrev check_config : Net → Dict → Result ConfigError Dict
check_config net d = do
  demand (is_version_one (lookup (codes "schema_version") d) && keys_in config_keys d)
      unsupported_configuration
  check_setting (codes "first_login_seen") (lookup (codes "first_login_seen") d)
  check_setting (codes "setup_complete") (lookup (codes "setup_complete") d)
  check_chosen net (lookup (codes "provider") d)
  ok d

abbrev new_config : Dict
new_config = (codes "schema_version", Json.whole (ℤ.pos 1)) ∷ []

-- `d` is what `read_json` returns: no member when there is no file.
unfoldable pub load_config : Net → Dict → Result ConfigError Dict
load_config net [] = ok new_config
load_config net (m ∷ ms) = check_config net (m ∷ ms)
