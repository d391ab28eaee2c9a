-- ===== src/Notifications/Message.antt =====
-- `validate_url`, `load_config`, the request of `send` and `health_events` of
-- rootfs/usr/lib/rougarou/notifications.py: where a message may go and what is in it.
pub mod Endpoint
mod Tests
use Prim.Native.Nat.{◌^◌}
use rougarou_os.Base.{
  ℕ, ◌*◌, pos, Bool, true, false, not, ◌&&◌, ◌||◌, Option, none, some, List, [], ◌∷◌, ◌++◌, ◌==◌,
  ltb, leb, length, take, select, codes, Result, ok, err, Text, same_text, has_text, is_empty, any,
  is_some, is_none, if◌then◌else◌,
}
use rougarou_os.Base.Dicts.{Table, value_at}
use rougarou_os.Base.Json.{
  Json, boolean, text, array, object, whole, no_elements, no_members, member, Dict, lookup,
  has_keys, equals_one, to_members,
}
use rougarou_os.Base.Results.{◌>>=◌, ◌>>◌, demand}
use rougarou_os.Cli.Provider.{Parts, Net, is_given}

pub data EndpointError : Type 0 where
  invalid_url insecure_url not_configured invalid_configuration invalid_token : EndpointError

abbrev pub is_unsafe : ℕ → Bool
is_unsafe c = ltb c 33 || (c == 127)

abbrev pub hostname_text : Option Text → Text
hostname_text none = []
hostname_text (some h) = h

-- No host, or a name, a password or a fragment.
abbrev pub has_extras : Parts → Bool
has_extras p =
    not (is_given p.hostname)
    || is_given p.username
    || is_given p.password
    || not (is_empty p.fragment)

abbrev pub is_local : Net → Text → Bool
is_local net h = same_text h (codes "localhost") || net.is_loopback h

abbrev pub is_secure : Net → Parts → Bool
is_secure net p =
    same_text p.scheme (codes "https")
    || (same_text p.scheme (codes "http") && is_local net (hostname_text p.hostname))

abbrev pub check_parts : Net → Text → Option Parts → Result EndpointError Text
check_parts net url none = err insecure_url
check_parts net url (some p) = do
  demand (not (has_extras p) && is_secure net p) insecure_url
  ok url

abbrev pub is_url_text : Text → Bool
is_url_text t = not (is_empty t) && leb (length t) 4096 && not (any is_unsafe t)

unfoldable pub validate_url : Net → Json → Result EndpointError Text
validate_url net (text t) = do demand (is_url_text t) invalid_url; check_parts net t (net.split t)
validate_url net _ = err invalid_url

pub record Config : Type 0 where
  pub url : Text
  pub format : Text
  pub token : Text

abbrev formats : List Text
formats = codes "json" ∷ codes "discord" ∷ codes "slack" ∷ codes "ntfy" ∷ []

abbrev given : Option Json → Result EndpointError Json
given none = err invalid_configuration
given (some j) = ok j

abbrev format_of : Json → Result EndpointError Text
format_of (text t) = do demand (has_text t formats) invalid_configuration; ok t
format_of _ = err invalid_configuration

abbrev token_of : Json → Result EndpointError Text
token_of (text t) = do demand (leb (length t) 4096 && not (any is_unsafe t)) invalid_token; ok t
token_of _ = err invalid_token

-- An empty object is what `read_json` gives for a file that is not there.
unfoldable pub load_config : Net → Dict → Result EndpointError Config
load_config net d = do
  demand (not (is_empty d)) not_configured
  demand (has_keys (codes "schema" ∷ codes "url" ∷ codes "format" ∷ codes "token" ∷ []) d)
      invalid_configuration
  schema ← given (lookup (codes "schema") d)
  demand (equals_one schema) invalid_configuration
  format_value ← given (lookup (codes "format") d)
  format ← format_of format_value
  url_value ← given (lookup (codes "url") d)
  url ← validate_url net url_value
  token_value ← given (lookup (codes "token") d)
  token ← token_of token_value
  ok (record { url = url; format = format; token = token })

-- An event with its type, and a job's identifier and state where it is about one.
pub record Notice : Type 0 where
  pub type_name : Text
  pub message : Text
  pub job : Option (Text × Text)

pub data Body : Type 0 where
  plain : Text → Body
  json : Json → Body

pub record Request : Type 0 where
  pub url : Text
  pub body : Body
  pub headers : Table

abbrev pub host_of : (ℕ → Bool) → Text → Text
host_of is_printable hostname = select is_printable (take 100 hostname)

abbrev pub message_of : Text → Notice → Text
message_of host n = codes "Rougarou / " ++ host ++ codes ": " ++ n.message

abbrev job_fields : Option (Text × Text) → Dict
job_fields none = []
job_fields (some (id, state)) = (codes "job_id", text id) ∷ (codes "state", text state) ∷ []

abbrev pub body_of : Text → Text → Notice → Body
body_of format host n =
    if same_text format (codes "discord")
    then json (
        object (
          member (codes "content") (text (message_of host n)) (
            member (codes "allowed_mentions")
              (object (member (codes "parse") (array no_elements) no_members)) no_members)))
    else if same_text format (codes "slack")
    then json (
        object (
          member (codes "text") (text (message_of host n))
            (member (codes "mrkdwn") (boolean false) no_members)))
    else if same_text format (codes "ntfy")
    then plain (message_of host n)
    else json (
        object (
          to_members (
            (codes "schema", whole (pos 1))
            ∷ (codes "host", text host)
            ∷ (codes "event", text n.type_name)
            ∷ (codes "message", text n.message)
            ∷ job_fields n.job)))

abbrev authorization : Text → Table
authorization [] = []
authorization (c ∷ token) = (codes "Authorization", codes "Bearer " ++ c ∷ token) ∷ []

abbrev type_headers : Text → Table
type_headers format =
    if same_text format (codes "ntfy")
    then (codes "Content-Type", codes "text/plain; charset=utf-8")
      ∷ (codes "User-Agent", codes "Rougarou-Notify/1")
      ∷ (codes "Title", codes "Rougarou OS")
      ∷ []
    else (codes "Content-Type", codes "application/json")
      ∷ (codes "User-Agent", codes "Rougarou-Notify/1")
      ∷ []

unfoldable pub request_of : (ℕ → Bool) → Text → Config → Notice → Request
request_of is_printable hostname config n = record {
  url = config.url;
  body = body_of config.format (host_of is_printable hostname) n;
  headers = type_headers config.format ++ authorization config.token;
}

-- The state of a reboot and of a signed source, as updates.py reports them; `valid_until` is `str`
-- of what a source has there.
pub record Reboot : Type 0 where
  pub recommended : Bool
  pub required : Bool
  pub boot_id : Text

pub record Source : Type 0 where
  pub name : Text
  pub status : Text
  pub valid_until : Text

abbrev pub Notices : Type 0
Notices = List (Text × Notice)

-- `events[key] = notice`
unfoldable pub set_notice : Text → Notice → Notices → Notices
set_notice k n [] = (k, n) ∷ []
set_notice k n ((l, m) ∷ rest) =
    let rest' = set_notice k n rest in if same_text l k then (l, n) ∷ rest else (l, m) ∷ rest'

abbrev status_messages : Table
status_messages =
    (codes "expiring", codes "Signed repository metadata expires within seven days.")
    ∷ (
      codes "expired",
      codes "Signed repository metadata has expired; refresh or renew the channel.",
    )
    ∷ (
      codes "missing",
      codes "No verified cached metadata is available for a configured repository.",
    )
    ∷ (codes "invalid", codes "Repository metadata could not be authenticated.")
    ∷ (codes "policy_error", codes "Package source policy needs operator review.")
    ∷ (codes "unavailable", codes "Local repository status is temporarily unavailable.")
    ∷ []

abbrev of_message : Source → Option Text → Notices → Notices
of_message s none events = events
of_message s (some m) events =
    set_notice
      (codes "repository:" ++ s.name ++ codes ":" ++ s.status ++ codes ":" ++ s.valid_until)
      (record {
        type_name = codes "repository_" ++ s.status;
        message = m ++ codes " Run rougarou update plan.";
        job = none;
      })
      events

unfoldable pub add_sources : List Source → Notices → Notices
add_sources [] events = events
add_sources (s ∷ rest) events =
    add_sources rest (of_message s (value_at s.status status_messages) events)

abbrev disk_notices : ℕ → ℕ → Notices
disk_notices free total =
    if ltb free (1024 ^ 3) || ltb (free * 10) total
    then (
      codes "disk",
      record {
        type_name = codes "low_disk";
        message = codes "Operator filesystem has less than 1 GiB or 10% free space.";
        job = none;
      },
    )
      ∷ []
    else []

abbrev reboot_notice : Reboot → Notice
reboot_notice r = record {
  type_name = if r.required then codes "reboot_required" else codes "reboot_recommended";
  message =
      (if r.required
        then codes "Installed packages request a reboot."
        else codes "A reboot is recommended after core package updates.")
      ++ codes " Schedule it when workloads can stop.";
  job = none;
}

abbrev add_reboot : Reboot → Notices → Notices
add_reboot r events =
    if r.recommended
    then set_notice (codes "reboot:" ++ r.boot_id) (reboot_notice r) events
    else events

-- `free / total < .1` is read exactly, which is what the division of doubles comes to for a disk of
-- less than 2^49 bytes; the disk has some.
unfoldable pub health_events : ℕ → ℕ → Reboot → List Source → Notices
health_events free total reboot sources =
    add_sources sources (add_reboot reboot (disk_notices free total))
