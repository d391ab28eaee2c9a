-- ===== src/Cli/Launch.antt =====
-- `codex_arguments` and `ai_command` of rootfs/usr/lib/rougarou/cli.py, and `command_for` of jobs.py
-- beside it, which builds the command of a queued job.
pub mod Secret
mod Tests
use rougarou_os.Base.{
  ℕ, Bool, true, false, ◌&&◌, ◌||◌, not, Option, none, some, List, [], ◌∷◌, ◌++◌, ◌==◌, ltb, ◌+◌,
  codes, Result, ok, err, Text, same_text, contains, join, is_empty, if◌then◌else◌,
}
use Prim.Native.Nat.{◌/◌, ◌%◌}
use rougarou_os.Base.Json.{
  Json, boolean, text, array, object, elements, members, Dict, lookup, put, to_members, is_truthy,
}
use rougarou_os.Base.Results.{◌>>=◌, ◌>>◌, demand}
use rougarou_os.Cli.Provider.{
  Label, ConfigError, not_text, other_endpoint, missing_key, bad_fields, Net, ProviderKind, codex,
  responses, ollama, command, value_of, validate_provider,
}

-- A process's environment: what each name is bound to.
abbrev pub Environment : Type 0
Environment = Text → Option Text

abbrev pub secret_env : Text
secret_env = codes "ROUGAROU_PROVIDER_API_KEY"

-- `environment.pop(key, None)` and `environment[key] = value`
abbrev pub bound : Text → Option Text → Environment → Environment
bound key value env k = if same_text k key then value else env k

abbrev hex_digit : ℕ → ℕ
hex_digit n = if ltb n 10 then 48 + n else 87 + n

abbrev escape : ℕ → Text
escape c =
    if c == 34
    then codes "\\\""
    else if c == 92
    then codes "\\\\"
    else if c == 8
    then codes "\\b"
    else if c == 9
    then codes "\\t"
    else if c == 10
    then codes "\\n"
    else if c == 12
    then codes "\\f"
    else if c == 13
    then codes "\\r"
    else if ltb c 32
    then codes "\\u00" ++ hex_digit (c / 16) ∷ hex_digit (c % 16) ∷ []
    else c ∷ []

abbrev escape_all : Text → Text
escape_all [] = []
escape_all (c ∷ t) = escape c ++ escape_all t

-- `json.dumps(text, ensure_ascii=False)`
abbrev pub quoted : Text → Text
quoted t = 34 ∷ escape_all t ++ 34 ∷ []

unfoldable pub codex_arguments : Text → List Text
unfolding contains
codex_arguments help =
    codes "codex"
      ∷ (if contains (codes "--approve-for-me") help then codes "--approve-for-me" ∷ [] else [])
    ++ (if contains (codes "--no-alt-screen") help then codes "--no-alt-screen" ∷ [] else [])

abbrev pub as_text : Json → Result ConfigError Text
as_text (text t) = ok t
as_text _ = err not_text

abbrev pub text_at : Text → Dict → Result ConfigError Text
text_at key d = do j ← value_of key d; as_text j

abbrev all_texts : List Json → Result ConfigError (List Text)
all_texts [] = ok []
all_texts (j ∷ js) = do t ← as_text j; ts ← all_texts js; ok (t ∷ ts)

abbrev as_texts : Json → Result ConfigError (List Text)
as_texts (array js) = all_texts (elements js)
as_texts _ = err not_text

abbrev pub texts_at : Text → Dict → Result ConfigError (List Text)
texts_at key d = do j ← value_of key d; as_texts j

abbrev pub is_text : Text → Option Json → Bool
is_text t (some (text u)) = same_text u t
is_text t _ = false

-- Python's truth of `provider["authenticated"]`, which is a Boolean
abbrev pub is_true : Option Json → Bool
is_true (some (boolean b)) = b
is_true _ = false

abbrev pub token_of : Option Json → Result ConfigError Text
token_of (some (text t)) = do demand (not (is_empty t)) missing_key; ok t
token_of _ = err missing_key

-- The key for an endpoint that wants one; `credentials` is what `read_json` returns.
abbrev pub secret_for : Text → Result ConfigError Dict → Result ConfigError Text
secret_for endpoint credentials = do
  secrets ← credentials
  demand (is_text endpoint (lookup (codes "endpoint") secrets)) other_endpoint
  token_of (lookup secret_env secrets)

abbrev pub table_text : Text → Bool → Text
table_text endpoint authenticated =
    codes "model_providers.rougarou={name="
    ++ quoted (codes "Rougarou provider")
    ++ codes ", base_url="
    ++ quoted endpoint
    ++ codes ", wire_api="
    ++ quoted (codes "responses")
    ++ codes ", requires_openai_auth=false"
    ++ (if authenticated then codes ", env_key=" ++ quoted secret_env else [])
    ++ codes "}"

abbrev pub endpoint_arguments : Text → Text → Bool → List Text
endpoint_arguments model endpoint authenticated =
    codes "-c"
    ∷ (codes "model_provider=" ++ quoted (codes "rougarou"))
    ∷ codes "-c"
    ∷ (codes "model=" ++ quoted model)
    ∷ codes "-c"
    ∷ table_text endpoint authenticated
    ∷ []

abbrev pub Launched : Type 0
Launched = List Text × Environment

abbrev pub with_secret :
    Bool → Text → Result ConfigError Dict → Environment → Result ConfigError Environment
with_secret false endpoint credentials env = ok env
with_secret true endpoint credentials env = do
  token ← secret_for endpoint credentials
  ok (bound secret_env (some token) env)

abbrev pub base_arguments : Bool → Text → List Text
base_arguments batch help =
    if batch
    then codes "codex" ∷ codes "-a" ∷ codes "never" ∷ codes "exec" ∷ []
    else codex_arguments help

abbrev pub launch :
    ProviderKind
    → Dict
    → Result ConfigError Dict
    → List Text
    → Text
    → Environment
    → Bool
    → Result ConfigError Launched
launch codex d credentials extra help env batch = ok (base_arguments batch help ++ extra, env)
launch command d credentials extra help env batch = do
  argv ← texts_at (codes "argv") d
  ok (argv ++ extra, env)
launch ollama d credentials extra help env batch = do
  model ← text_at (codes "model") d
  ok (
    base_arguments batch help
        ++ (codes "--oss"
            ∷ codes "--local-provider"
            ∷ codes "ollama"
            ∷ codes "--model"
            ∷ model
            ∷ [])
        ++ extra,
    env,
  )
launch responses d credentials extra help env batch = do
  model ← text_at (codes "model") d
  endpoint ← text_at (codes "endpoint") d
  let authenticated = is_true (lookup (codes "authenticated") d)
  env' ← with_secret authenticated endpoint credentials env
  ok (base_arguments batch help ++ endpoint_arguments model endpoint authenticated ++ extra, env')

abbrev pub provider_members : Json → Dict
provider_members (object ms) = members ms
provider_members _ = []

unfoldable pub ai_command :
    Net
    → Result ConfigError Dict
    → Json
    → List Text
    → Text
    → Environment
    → Bool
    → Result ConfigError Launched
ai_command net credentials provider extra help env batch = do
  kind ← validate_provider net provider
  launch kind (provider_members provider) credentials extra help (bound secret_env none env) batch

abbrev pub chosen_model : Dict → Option Json
chosen_model spec = elim (lookup (codes "model") spec) [
  | none ↦ none
  | some j ↦ if is_truthy j then some j else none
]

abbrev is_either : Text → Text → Option Json → Bool
is_either s t o = is_text s o || is_text t o

-- The job's own model in place of the provider's, where the provider has one.
abbrev with_model : Option Json → Dict → Dict
with_model none provider = provider
with_model (some j) provider =
    if is_either (codes "responses") (codes "ollama") (lookup (codes "kind") provider)
    then put (codes "model") j provider
    else provider

abbrev pub job_provider : Dict → Json → Dict
job_provider spec provider = with_model (chosen_model spec) (provider_members provider)

-- `argv.extend(['--model', spec['model']])`
abbrev pub model_arguments : Option Json → Dict → Result ConfigError (List Text)
model_arguments none provider = ok []
model_arguments (some j) provider =
    if is_text (codes "codex") (lookup (codes "kind") provider)
    then (do t ← as_text j; ok (codes "--model" ∷ t ∷ []))
    else ok []

abbrev pub unattended : Text → List Text
unattended sandbox =
    codes "--sandbox"
    ∷ sandbox
    ∷ codes "--color"
    ∷ codes "never"
    ∷ codes "--json"
    ∷ codes "--skip-git-repo-check"
    ∷ codes "-"
    ∷ []

-- The command, its environment, and what it reads from its input.
abbrev pub Prepared : Type 0
Prepared = List Text × Environment × Option Text

abbrev pub ai_job : Net → Result ConfigError Dict → Dict → Environment → Result ConfigError Prepared
ai_job net credentials spec env = do
  provider ← value_of (codes "provider") spec
  launched ←
      ai_command net credentials (object (to_members (job_provider spec provider))) [] [] env true
  model ← model_arguments (chosen_model spec) (job_provider spec provider)
  sandbox ← text_at (codes "sandbox") spec
  prompt ← text_at (codes "prompt") spec
  ok (launched.0 ++ model ++ unattended sandbox, launched.1, some prompt)

-- `spec` is what the job's text holds; a key that is missing from it is a `KeyError`.
unfoldable pub command_for :
    Net → Result ConfigError Dict → Bool → Dict → Environment → Result ConfigError Prepared
command_for net credentials is_command spec env =
    if is_command
    then (do argv ← texts_at (codes "argv") spec; ok (argv, bound secret_env none env, none))
    else ai_job net credentials spec (bound secret_env none env)
