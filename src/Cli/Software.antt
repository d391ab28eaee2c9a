-- ===== src/Cli/Software.antt =====
-- `installer_software` and `provider_default` of rootfs/usr/lib/rougarou/cli.py: what the installer
-- noted, and the provider that the setup suggests.
mod Tests
use rougarou_os.Base.{
  ℕ, Bool, true, false, not, ◌&&◌, ◌||◌, Option, none, some, List, [], ◌∷◌, ◌==◌, ltb, codes, Text,
  same_text, has_text, all, is_some, is_none, if◌then◌else◌,
}
use rougarou_os.Base.Dicts.{Table, span, value_at}
use rougarou_os.Base.Lines.{split_lines}

abbrev pub allowed : List (Text × List Text)
allowed =
    (
      codes "agent",
      codes "none" ∷ codes "codex" ∷ codes "opencode" ∷ codes "gemini" ∷ codes "claude" ∷ [],
    )
    ∷ (codes "docker", codes "none" ∷ codes "rootless" ∷ codes "system" ∷ [])
    ∷ (codes "podman", codes "true" ∷ codes "false" ∷ [])
    ∷ (codes "herdr", codes "true" ∷ codes "false" ∷ [])
    ∷ []

-- `value in allowed[key]`, for a key that is allowed
unfoldable pub is_allowed : Text → Text → List (Text × List Text) → Bool
is_allowed key value [] = false
is_allowed key value ((k, values) ∷ rest) =
    if same_text k key then has_text value values else is_allowed key value rest

abbrev pub add_hint : Text × Text → Table → Option Table
add_hint (key, []) selected = none
add_hint (key, equals ∷ value) selected =
    if is_some (value_at key selected) || not (is_allowed key value allowed)
    then none
    else some ((key, value) ∷ selected)

abbrev and_then : Option Table → (Table → Option Table) → Option Table
and_then none f = none
and_then (some t) f = f t

-- `line.partition("=")`, line by line; `none` is where the function returns early.
unfoldable pub read_hints : List Text → Table → Option Table
unfolding span
read_hints [] selected = some selected
read_hints (line ∷ lines) selected =
    and_then (add_hint (span (λ c. not (c == 61)) line) selected) (read_hints lines)

abbrev pub has_all : Table → Bool
has_all t = all (λ row. is_some (value_at row.0 t)) allowed

abbrev pub or_empty : Option Table → Table
or_empty none = []
or_empty (some t) = if has_all t then t else []

abbrev pub contents_of : Option Text → Table
contents_of none = []
contents_of (some contents) = or_empty (read_hints (split_lines contents) [])

-- `file`: whether it is a symbolic link, its size, and its text where it can be read.
unfoldable pub installer_software : Bool → ℕ → Option Text → Table
installer_software is_symlink size contents =
    if is_symlink || ltb 256 size then [] else contents_of contents

abbrev pub is_agent : Text → Option Text → Bool
is_agent name none = false
is_agent name (some agent) = same_text agent name

-- `is_installed` is `agent_executable`.
unfoldable pub provider_default : Bool → Table → (Text → Bool) → Text
provider_default has_provider software is_installed =
    let agent = value_at (codes "agent") software in
    if has_provider
    then codes "5"
    else if is_agent (codes "opencode") agent
    then codes "6"
    else if is_agent (codes "claude") agent
    then codes "8"
    else if is_agent (codes "codex") agent && is_installed (codes "codex")
    then codes "1"
    else if is_agent (codes "gemini") agent && is_installed (codes "gemini")
    then codes "7"
    else codes "5"
