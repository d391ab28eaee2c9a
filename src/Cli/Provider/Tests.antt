-- ===== src/Cli/Provider/Tests.antt =====
-- Providers for `validate_provider` of rootfs/usr/lib/rougarou/cli.py, and its theorem at one.
use rougarou_os.Base.{
  ◌≡◌, refl, ◌↔◌, Bool, true, false, none, some, [], codes, is_ok, any, all, same_text, has_text,
  begins,
}
use rougarou_os.Base.Json.{
  text, boolean, array, object, Members, no_members, member, no_elements, element, members, lookup,
  keys_in,
}
use rougarou_os.Cli.Provider.{
  Net, clean_text, validate_url, kind_named, clean_all, validate_provider,
}
use rougarou_os.Cli.Provider.Accepted.{Provider, IsAccepted, Says}
use rougarou_os.Cli.Provider.Checked.{validate_provider_lem}

-- A splitter that finds a host in every text, and the scheme at its head.
abbrev pub net : Net
net = record {
  split = λ t. some (record {
    scheme = codes "https";
    hostname = some (codes "ai.example");
    username = none;
    password = none;
    query = [];
    fragment = [];
  });
  is_loopback = λ t. false;
}

abbrev pub service : Members
service = member (codes "endpoint") (text (codes "https://ai.example/v1")) (
    member (codes "kind") (text (codes "responses")) (
      member (codes "authenticated") (boolean true)
        (member (codes "model") (text (codes "m")) no_members)))

is_accepted : Members → Bool
unfolding validate_provider validate_url clean_text clean_all kind_named lookup keys_in any all
    same_text has_text begins
is_accepted ms = is_ok (validate_provider net (object ms))

service_lem : is_accepted service ≡ true
unfolding is_accepted
service_lem = refl

dashed_lem :
    is_accepted (
      member
        (codes "kind")
        (text (codes "command"))
        (member (codes "argv") (array (element (text (codes "-c")) no_elements)) no_members))
    ≡ false
unfolding is_accepted
dashed_lem = refl

validate_provider_lem_example :
    is_ok (validate_provider net (object service)) ≡ true
    ↔ ((p : Provider) × IsAccepted net p × Says (members service) p)
validate_provider_lem_example = validate_provider_lem net service
