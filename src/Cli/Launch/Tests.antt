-- ===== src/Cli/Launch/Tests.antt =====
-- The launch of a provider by `ai_command` of rootfs/usr/lib/rougarou/cli.py, and the theorems at it.
use rougarou_os.Base.{
  ◌≡◌, refl, true, false, none, some, [], ◌∷◌, Result, ok, Text, codes, any, all, same_text,
  has_text, begins, contains, is_empty, ◌++◌, ◌⊎◌,
}
use rougarou_os.Base.Json.{Json, text, object, Dict, lookup, keys_in, put}
use rougarou_os.Cli.Provider.{
  ConfigError, clean_text, validate_url, kind_named, clean_all, validate_provider,
}
use rougarou_os.Cli.Provider.Tests.{net, service}
use rougarou_os.Cli.Launch.{
  Environment, secret_env, bound, Launched, Prepared, provider_members, codex_arguments,
  base_arguments, endpoint_arguments, unattended, ai_command, command_for, job_provider,
}
use rougarou_os.Cli.Launch.Secret.{Hands, ai_command_lem, argv_lem, command_for_lem}

abbrev credentials : Text → Result ConfigError Dict
credentials token =
    ok ((codes "endpoint", text (codes "https://ai.example/v1")) ∷ (secret_env, text token) ∷ [])

-- The operator's environment has a key of its own, which is not passed on.
abbrev operators : Environment
operators k = some (codes "old")

abbrev launched : Text → Launched
launched token = (
  base_arguments true []
      ++ endpoint_arguments (codes "m") (codes "https://ai.example/v1") true
      ++ [],
  bound secret_env (some token) (bound secret_env none operators),
)

launched_lem :
    (token : Text)
    → is_empty token ≡ false
    → ai_command net (credentials token) (object service) [] [] operators true ≡ ok (launched token)
unfolding ai_command validate_provider validate_url clean_text clean_all kind_named lookup keys_in
    any all same_text has_text begins contains codex_arguments
launched_lem [] h = cc
launched_lem (c ∷ t) h = refl

ai_command_lem_example :
    Hands
      (provider_members (object service))
      (credentials (codes "k"))
      (bound secret_env none operators)
      (launched (codes "k")).1
ai_command_lem_example =
    ai_command_lem net (credentials (codes "k")) (object service) [] [] operators true
      (launched (codes "k")) (launched_lem (codes "k") refl)

argv_lem_example : (launched (codes "k")).0 ≡ (launched (codes "other")).0
argv_lem_example =
    argv_lem net (credentials (codes "k")) (credentials (codes "other")) (object service) [] []
      operators operators true (launched (codes "k")) (launched (codes "other"))
      (launched_lem (codes "k") refl) (launched_lem (codes "other") refl)

-- A job that has an AI of its own look at a text.
abbrev job_spec : Dict
job_spec =
    (codes "provider", object service)
    ∷ (codes "sandbox", text (codes "read-only"))
    ∷ (codes "prompt", text (codes "hello"))
    ∷ []

abbrev prepared : Prepared
prepared = (
  (base_arguments true []
        ++ endpoint_arguments (codes "m") (codes "https://ai.example/v1") true
        ++ [])
      ++ []
      ++ unattended (codes "read-only"),
  bound secret_env (some (codes "k")) (bound secret_env none (bound secret_env none operators)),
  some (codes "hello"),
)

prepared_lem : command_for net (credentials (codes "k")) false job_spec operators ≡ ok prepared
unfolding command_for ai_command validate_provider validate_url clean_text clean_all kind_named
    lookup keys_in any all same_text has_text begins contains codex_arguments put
prepared_lem = refl

command_for_lem_example :
    ((false ≡ true) × (prepared.1 ≡ bound secret_env none operators))
    ⊎ ((false ≡ false)
        × (provider : Json) × (lookup (codes "provider") job_spec ≡ some provider)
        × Hands
            (job_provider job_spec provider)
            (credentials (codes "k"))
            (bound secret_env none (bound secret_env none operators))
            prepared.1)
command_for_lem_example =
    command_for_lem net (credentials (codes "k")) false job_spec operators prepared prepared_lem
