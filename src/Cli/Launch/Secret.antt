-- ===== src/Cli/Launch/Secret.antt =====
-- Where the provider's key goes in `ai_command` of rootfs/usr/lib/rougarou/cli.py.
use rougarou_os.Base.{
  ◌≡◌, refl, sym, ◌∙◌, ap, Bool, true, false, not, Option, none, some, List, [], ◌∷◌, ◌++◌, codes,
  Result, ok, Text, same_text→eq, is_empty, ◌⊎◌, inl, inr, arith,
}
use mathlib.Core.Path.{subst}
use rougarou_os.Base.Json.{
  Json, boolean, text, object, Dict, lookup, to_members, members-to_members,
}
use rougarou_os.Base.Results.{◌>>◌, demand, bind-ok, demand-ok}
use rougarou_os.Cli.Provider.{
  ConfigError, or_raise, other_endpoint, missing_key, bad_fields, Net, ProviderKind, codex,
  responses, ollama, command, value_of, validate_provider,
}
use rougarou_os.Cli.Launch.{
  Environment, secret_env, bound, as_text, text_at, texts_at, is_text, is_true, token_of,
  secret_for, with_secret, base_arguments, endpoint_arguments, launch, Launched, provider_members,
  ai_command, job_provider, chosen_model, model_arguments, Prepared, command_for,
}

-- The key of the stored credentials, for an endpoint that wants it and that it was stored for.
pub record IsHanded (d : Dict) (credentials : Result ConfigError Dict) (token : Text) : Type 0 where
  pub secrets : Dict
  pub endpoint : Text
  pub stored : credentials ≡ ok secrets
  pub chosen : lookup (codes "endpoint") d ≡ some (text endpoint)
  pub wanted : lookup (codes "authenticated") d ≡ some (boolean true)
  pub bound_to : lookup (codes "endpoint") secrets ≡ some (text endpoint)
  pub key : lookup secret_env secrets ≡ some (text token)
  pub given : is_empty token ≡ false

abbrev pub Hands : Dict → Result ConfigError Dict → Environment → Environment → Type 0
Hands d credentials env env' =
    (env' ≡ env)
    ⊎ ((token : Text) × (env' ≡ bound secret_env (some token) env) × IsHanded d credentials token)

ok_eq : {A : Type 0} (a b : A) → ◌≡◌ {A = Result ConfigError A} (ok a) (ok b) → a ≡ b
ok_eq a b h = cc

or_raise-ok :
    {A : Type 0} (e : ConfigError) (o : Option A) (a : A) → or_raise e o ≡ ok a → o ≡ some a
or_raise-ok e none a h = cc
or_raise-ok e (some b) a h = cc

as_text-ok : (j : Json) (t : Text) → as_text j ≡ ok t → j ≡ text t
as_text-ok (text u) t h = let c : ok u ≡ ok t = h in let d : u ≡ t = cc in ap text d
as_text-ok _ t h = cc

text_at-ok :
    (key : Text) (d : Dict) (t : Text) → text_at key d ≡ ok t → lookup key d ≡ some (text t)
text_at-ok key d t h =
    let (j, e, g) = bind-ok (value_of key d) as_text t h in
    or_raise-ok bad_fields (lookup key d) j e ∙ ap some (as_text-ok j t g)

is_text-eq : (t : Text) (o : Option Json) → is_text t o ≡ true → o ≡ some (text t)
is_text-eq t (some (text u)) h = ap (λ z. some (text z)) (same_text→eq u t h)
is_text-eq t (some _) h = cc
is_text-eq t none h = cc

is_true-eq : (o : Option Json) → is_true o ≡ true → o ≡ some (boolean true)
is_true-eq (some (boolean b)) h = ap (λ z. some (boolean z)) h
is_true-eq (some _) h = cc
is_true-eq none h = cc

token_of-ok :
    (o : Option Json) (t : Text) → token_of o ≡ ok t → (o ≡ some (text t)) × (is_empty t ≡ false)
token_of-ok (some (text u)) t h =
    let (n, e) = demand-ok (not (is_empty u)) missing_key (ok u) t h in
    let d : u ≡ t = cc in
    (ap (λ z. some (text z)) d, subst (λ z. is_empty z ≡ false) d (ground arith))
token_of-ok (some _) t h = cc
token_of-ok none t h = cc

with_secret-Hands :
    (d : Dict) (credentials : Result ConfigError Dict) (wanted : Bool) (endpoint : Text)
    (env env' : Environment)
    → lookup (codes "endpoint") d ≡ some (text endpoint)
    → is_true (lookup (codes "authenticated") d) ≡ wanted
    → with_secret wanted endpoint credentials env ≡ ok env'
    → Hands d credentials env env'
with_secret-Hands d c false endpoint env env' f w h = inl (cc)
with_secret-Hands d c true endpoint env env' f w h =
    let (token, e, g) =
      bind-ok (secret_for endpoint c) (λ token. ok (bound secret_env (some token) env)) env' h in
    let (secrets, s, r) =
      bind-ok c
        (λ secrets.
          demand (is_text endpoint (lookup (codes "endpoint") secrets)) other_endpoint
          >> token_of (lookup secret_env secrets))
        token e in
    let (b, k) =
      demand-ok (is_text endpoint (lookup (codes "endpoint") secrets)) other_endpoint
        (token_of (lookup secret_env secrets)) token r in
    let (q, n) = token_of-ok (lookup secret_env secrets) token k in
    inr (
      token,
      (cc),
      record {
        secrets = secrets;
        endpoint = endpoint;
        stored = s;
        chosen = f;
        wanted = is_true-eq (lookup (codes "authenticated") d) w;
        bound_to = is_text-eq endpoint (lookup (codes "endpoint") secrets) b;
        key = q;
        given = n;
      },
    )

launch-Hands :
    (kind : ProviderKind) (d : Dict) (c : Result ConfigError Dict) (extra : List Text) (help : Text)
    (env : Environment) (batch : Bool) (r : Launched)
    → launch kind d c extra help env batch ≡ ok r
    → Hands d c env r.1
launch-Hands codex d c extra help env batch r h =
    let e : (base_arguments batch help ++ extra, env) ≡ r = cc in inl (sym (ap (λ z. z.1) e))
launch-Hands command d c extra help env batch r h =
    let (argv, _, g) = bind-ok (texts_at (codes "argv") d) _ r h in
    let e : (argv ++ extra, env) ≡ r = cc in inl (sym (ap (λ z. z.1) e))
launch-Hands ollama d c extra help env batch r h =
    let (model, _, g) = bind-ok (text_at (codes "model") d) _ r h in
    inl (sym (ap (λ z. z.1) (ok_eq _ r g)))
launch-Hands responses d c extra help env batch r h =
    let (model, _, g) = bind-ok (text_at (codes "model") d) _ r h in
    let (endpoint, f, g2) = bind-ok (text_at (codes "endpoint") d) _ r g in
    let (env', k, g3) =
      bind-ok (with_secret (is_true (lookup (codes "authenticated") d)) endpoint c env) _ r g2 in
    subst (Hands d c env) (ap (λ z. z.1) (ok_eq _ r g3)) (
      with_secret-Hands d c (is_true (lookup (codes "authenticated") d)) endpoint env env'
        (text_at-ok (codes "endpoint") d endpoint f) refl k)

-- The environment of an AI's process differs from the operator's in the provider's key alone. It is
-- bound to nothing, or, when the provider is one that wants a key, to the token that the credentials
-- hold for that very endpoint.
pub ai_command_lem :
    (net : Net) (c : Result ConfigError Dict) (provider : Json) (extra : List Text) (help : Text)
    (env : Environment) (batch : Bool) (r : Launched)
    → ai_command net c provider extra help env batch ≡ ok r
    → Hands (provider_members provider) c (bound secret_env none env) r.1
unfolding ai_command
ai_command_lem net c provider extra help env batch r h =
    let (kind, _, g) = bind-ok (validate_provider net provider) _ r h in
    launch-Hands kind (provider_members provider) c extra help (bound secret_env none env) batch r g

launch-argv :
    (kind : ProviderKind) (d : Dict) (c c' : Result ConfigError Dict) (extra : List Text)
    (help : Text) (env env' : Environment) (batch : Bool) (r r' : Launched)
    → launch kind d c extra help env batch ≡ ok r
    → launch kind d c' extra help env' batch ≡ ok r'
    → r.0 ≡ r'.0
launch-argv codex d c c' extra help env env' batch r r' h h' =
    sym (ap (λ z. z.0) (ok_eq _ r h)) ∙ ap (λ z. z.0) (ok_eq _ r' h')
launch-argv command d c c' extra help env env' batch r r' h h' =
    let (argv, e, g) = bind-ok (texts_at (codes "argv") d) _ r h in
    let (argv', e', g') = bind-ok (texts_at (codes "argv") d) _ r' h' in
    let q : argv ≡ argv' = ok_eq argv argv' (sym e ∙ e') in
    sym (ap (λ z. z.0) (ok_eq _ r g)) ∙ ap (λ z. z ++ extra) q ∙ ap (λ z. z.0) (ok_eq _ r' g')
launch-argv ollama d c c' extra help env env' batch r r' h h' =
    let (model, e, g) = bind-ok (text_at (codes "model") d) _ r h in
    let (model', e', g') = bind-ok (text_at (codes "model") d) _ r' h' in
    let q : model ≡ model' = ok_eq model model' (sym e ∙ e') in
    sym (ap (λ z. z.0) (ok_eq _ r g))
    ∙ ap
        (λ z.
          base_arguments batch help
          ++ (codes "--oss" ∷ codes "--local-provider" ∷ codes "ollama" ∷ codes "--model" ∷ z ∷ [])
          ++ extra)
        q
    ∙ ap (λ z. z.0) (ok_eq _ r' g')
launch-argv responses d c c' extra help env env' batch r r' h h' =
    let wanted = is_true (lookup (codes "authenticated") d) in
    let (model, e, g) = bind-ok (text_at (codes "model") d) _ r h in
    let (model', e', g') = bind-ok (text_at (codes "model") d) _ r' h' in
    let (endpoint, f, k) = bind-ok (text_at (codes "endpoint") d) _ r g in
    let (endpoint', f', k') = bind-ok (text_at (codes "endpoint") d) _ r' g' in
    let (_, _, l) = bind-ok (with_secret wanted endpoint c env) _ r k in
    let (_, _, l') = bind-ok (with_secret wanted endpoint' c' env') _ r' k' in
    let q : model ≡ model' = ok_eq model model' (sym e ∙ e') in
    let p : endpoint ≡ endpoint' = ok_eq endpoint endpoint' (sym f ∙ f') in
    sym (ap (λ z. z.0) (ok_eq _ r l))
    ∙ ap (λ z. base_arguments batch help ++ endpoint_arguments z endpoint wanted ++ extra) q
    ∙ ap (λ z. base_arguments batch help ++ endpoint_arguments model' z wanted ++ extra) p
    ∙ ap (λ z. z.0) (ok_eq _ r' l')

-- The command line that starts an AI tells nothing of the key: whatever credentials are stored, and
-- whatever the environment holds, one and the same provider gets one and the same command line.
pub argv_lem :
    (net : Net) (c c' : Result ConfigError Dict) (provider : Json) (extra : List Text) (help : Text)
    (env env' : Environment) (batch : Bool) (r r' : Launched)
    → ai_command net c provider extra help env batch ≡ ok r
    → ai_command net c' provider extra help env' batch ≡ ok r'
    → r.0 ≡ r'.0
unfolding ai_command
argv_lem net c c' provider extra help env env' batch r r' h h' =
    let (kind, e, g) = bind-ok (validate_provider net provider) _ r h in
    let (kind', e', g') = bind-ok (validate_provider net provider) _ r' h' in
    let q : kind ≡ kind' = ok_eq kind kind' (sym e ∙ e') in
    let d = provider_members provider in
    launch-argv kind' d c c' extra help (bound secret_env none env) (bound secret_env none env')
      batch r r' (subst (λ z. launch z d c extra help (bound secret_env none env) batch ≡ ok r) q g)
      g'

-- The environment of a queued job's process is the worker's without the provider's key, or, for an AI
-- job whose provider wants a key, with the token that the credentials hold for that very endpoint. A
-- command job never has the key.
pub command_for_lem :
    (net : Net) (c : Result ConfigError Dict) (is_command : Bool) (spec : Dict) (env : Environment)
    (r : Prepared)
    → command_for net c is_command spec env ≡ ok r
    → ((is_command ≡ true) × (r.1 ≡ bound secret_env none env))
      ⊎ ((is_command ≡ false)
          × (provider : Json) × (lookup (codes "provider") spec ≡ some provider)
          × Hands
              (job_provider spec provider)
              c
              (bound secret_env none (bound secret_env none env))
              r.1)
unfolding command_for
command_for_lem net c true spec env r h =
    let (argv, _, g) = bind-ok (texts_at (codes "argv") spec) _ r h in
    inl (refl, sym (ap (λ z. z.1) (ok_eq _ r g)))
command_for_lem net c false spec env r h =
    let (provider, e, g) = bind-ok (value_of (codes "provider") spec) _ r h in
    let d = job_provider spec provider in
    let (launched, k, g2) =
      bind-ok (ai_command net c (object (to_members d)) [] [] (bound secret_env none env) true) _ r
        g in
    let (model, _, g3) = bind-ok (model_arguments (chosen_model spec) d) _ r g2 in
    let (sandbox, _, g4) = bind-ok (text_at (codes "sandbox") spec) _ r g3 in
    let (prompt, _, g5) = bind-ok (text_at (codes "prompt") spec) _ r g4 in
    let hands =
      ai_command_lem net c (object (to_members d)) [] [] (bound secret_env none env) true launched
        k in
    inr (
      refl,
      provider,
      or_raise-ok bad_fields (lookup (codes "provider") spec) provider e,
      subst (Hands d c (bound secret_env none (bound secret_env none env)))
          (ap (λ z. z.1) (ok_eq _ r g5))
          (subst (λ z. Hands z c (bound secret_env none (bound secret_env none env)) launched.1)
            (members-to_members d) hands),
    )
