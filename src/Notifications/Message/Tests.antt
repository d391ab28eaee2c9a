-- ===== src/Notifications/Message/Tests.antt =====
-- A webhook of rootfs/usr/lib/rougarou/notifications.py, and what is sent to it.
use rougarou_os.Base.{
  ℕ, pos, ◌≡◌, refl, true, false, none, some, List, [], ◌∷◌, String, codes, Result, ok, err, Text,
  same_text, has_text, any, all, select,
}
use rougarou_os.Base.Dicts.{value_at}
use rougarou_os.Base.Json.{text, whole, object, no_members, member, Dict, lookup, keys_in}
use rougarou_os.Cli.Provider.{Net}
use rougarou_os.Notifications.Message.{
  EndpointError, insecure_url, Config, json, Request, Notices, validate_url, load_config,
  request_of, set_notice, add_sources, health_events,
}
use rougarou_os.Notifications.Message.Endpoint.{IsEndpoint, load_config_lem}

-- Every URL is read as one of the scheme to the host `h`; only `local` is this machine.
abbrev net : String → Net
net scheme = record {
  split = λ t. some (record {
    scheme = codes scheme;
    hostname = some (codes "h");
    username = none;
    password = none;
    query = [];
    fragment = [];
  });
  is_loopback = λ h. same_text h (codes "local");
}

abbrev dict : Dict
dict =
    (codes "schema", whole (pos 1))
    ∷ (codes "url", text (codes "x://h"))
    ∷ (codes "format", text (codes "json"))
    ∷ (codes "token", text (codes "t"))
    ∷ []

abbrev config : Config
config = record { url = codes "x://h"; format = codes "json"; token = codes "t" }

loaded : String → Result EndpointError Config
unfolding load_config validate_url lookup keys_in has_text same_text any all
loaded scheme = load_config (net scheme) dict

loaded_lem : (loaded "https" ≡ ok config) × (loaded "http" ≡ err insecure_url)
unfolding loaded
loaded_lem = (refl, refl)

load_config_lem_example : IsEndpoint (net "https") (codes "x://h")
unfolding loaded
load_config_lem_example = load_config_lem (net "https") dict config loaded_lem.0

request : Request
unfolding request_of select same_text
request =
    request_of (λ c. true) (codes "box") config
      (record { type_name = codes "test"; message = codes "m"; job = none })

request_lem : request ≡ record {
  url = codes "x://h";
  body = json (
      object (
        member (codes "schema") (whole (pos 1)) (
          member (codes "host") (text (codes "box")) (
            member
              (codes "event")
              (text (codes "test"))
              (member (codes "message") (text (codes "m")) no_members)))));
  headers =
      (codes "Content-Type", codes "application/json")
      ∷ (codes "User-Agent", codes "Rougarou-Notify/1")
      ∷ (codes "Authorization", codes "Bearer t")
      ∷ [];
}
unfolding request
request_lem = refl

health_keys : ℕ → List Text
unfolding health_events add_sources set_notice value_at same_text
health_keys free = keys (
    health_events free 100000000000
      (record { recommended = true; required = false; boot_id = codes "b" })
      ((record { name = codes "main"; status = codes "fresh"; valid_until = codes "1" })
        ∷ (record { name = codes "main"; status = codes "expired"; valid_until = codes "1" })
        ∷ []))
  where
    keys : Notices → List Text
    keys [] = []
    keys ((k, n) ∷ rest) = k ∷ keys rest

health_keys_lem :
    (health_keys 9000000000
      ≡ codes "disk" ∷ codes "reboot:b" ∷ codes "repository:main:expired:1" ∷ [])
    × (health_keys 10000000000 ≡ codes "reboot:b" ∷ codes "repository:main:expired:1" ∷ [])
unfolding health_keys
health_keys_lem = (refl, refl)
