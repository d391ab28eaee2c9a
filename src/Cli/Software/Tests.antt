-- ===== src/Cli/Software/Tests.antt =====
-- Hints of the installer for rootfs/usr/lib/rougarou/cli.py, and the theorem at them.
use rougarou_os.Base.{◌≡◌, refl, Bool, true, false, some, Text, codes, all, same_text, has_text}
use rougarou_os.Base.Dicts.{span, value_at}
use rougarou_os.Base.Lines.{split_lines}
use rougarou_os.Cli.Software.{is_allowed, read_hints, installer_software, provider_default}

abbrev contents : Text
contents = codes "agent=codex\ndocker=none\npodman=true\nherdr=false\n"

suggested : Text → Bool → Text
unfolding installer_software provider_default is_allowed read_hints value_at span split_lines all
    same_text has_text
suggested t is_there =
    provider_default false (installer_software false 50 (some t)) (λ name. is_there)

suggested_lem :
    (suggested contents true ≡ codes "1")
    × (suggested contents false ≡ codes "5")
    × (suggested (codes "agent=codex\n") true ≡ codes "5")
unfolding suggested
suggested_lem = (refl, refl, refl)
