-- ===== src/Base/Dicts.antt =====
-- Dictionaries of texts, and the longest head of a text that passes a test.
use Prim.Native.Nat.{ℕ}
use mathlib.Core.Bool.{Bool}
use mathlib.Core.Option.{Option, none, some}
use mathlib.Core.List.{List, [], ◌∷◌}
use package.rougarou_os.Base.Tests.{if◌then◌else◌}
use package.rougarou_os.Base.Texts.{Text, same_text}

-- A dictionary of texts.
abbrev pub Table : Type 0
Table = List (Text × Text)

unfoldable pub value_at : Text → Table → Option Text
value_at k [] = none
value_at k ((l, v) ∷ rest) = if same_text l k then some v else value_at k rest

-- The longest head that passes the test, and the rest.
unfoldable pub span : (ℕ → Bool) → Text → Text × Text
span p [] = ([], [])
span p (c ∷ t) = let (head, rest) = span p t in if p c then (c ∷ head, rest) else ([], c ∷ t)

-- `dict[key] = value`
unfoldable pub set_value : Text → Text → Table → Table
set_value k v [] = (k, v) ∷ []
set_value k v ((l, w) ∷ rest) =
    let rest' = set_value k v rest in if same_text l k then (l, v) ∷ rest else (l, w) ∷ rest'
