-- ===== src/Base/Json.antt =====
-- JSON values as Python reads them, and objects with their members in order.
use Prim.Native.Nat.{ℕ, ◌^◌}
use mathlib.Core.Path.{◌≡◌, refl, ap}
use mathlib.Core.Logic.{inl, inr}
use mathlib.Core.Bool.{Bool, true, false, not, ◌&&◌}
use mathlib.Core.Option.{Option, none, some}
use mathlib.Core.List.{List, [], ◌∷◌}
use native.Mathlib.Omega.{arith}
use package.rougarou_os.Base.Tests.{◌==◌, is_some, Bool-cases, if◌then◌else◌}
use package.rougarou_os.Base.Int.{ℤ, pos, is_zero}
use package.rougarou_os.Base.Texts.{Text, same_text, same_text→eq, has_text, all, is_empty}

-- `double m e` is m / 2^e; `big_double` is a double that is no such fraction: an infinity or a NaN.
mutual
  pub data Json : Type 0 where
    null big_double : Json
    boolean : Bool → Json
    whole : ℤ → Json
    double : ℤ → ℕ → Json
    text : Text → Json
    array : Elements → Json
    object : Members → Json

  pub data Elements : Type 0 where
    no_elements : Elements
    element : Json → Elements → Elements

  pub data Members : Type 0 where
    no_members : Members
    member : Text → Json → Members → Members

abbrev pub elements : Elements → List Json
elements no_elements = []
elements (element j js) = j ∷ elements js

abbrev pub Dict : Type 0
Dict = List (Text × Json)

abbrev pub members : Members → Dict
members no_members = []
members (member k j ms) = (k, j) ∷ members ms

-- `value == 1`, which holds of `True` and of 1.0 too
abbrev pub equals_one : Json → Bool
equals_one (boolean b) = b
equals_one (whole (pos n)) = n == 1
equals_one (double (pos m) e) = m == 2 ^ e
equals_one _ = false

-- `dict.get(key)`
unfoldable pub lookup : Text → Dict → Option Json
lookup k [] = none
lookup k ((l, j) ∷ ms) = if same_text l k then some j else lookup k ms

unfoldable pub keys_in : List Text → Dict → Bool
keys_in names [] = true
keys_in names ((k, j) ∷ ms) = has_text k names && keys_in names ms

-- `set(dict) == names`
abbrev pub has_keys : List Text → Dict → Bool
has_keys names d = keys_in names d && all (λ k. is_some (lookup k d)) names

pub lookup-none :
    (names : List Text) (d : Dict) (k : Text)
    → keys_in names d ≡ true
    → has_text k names ≡ false
    → lookup k d ≡ none
unfolding lookup keys_in
lookup-none names [] k h n = refl
lookup-none names ((l, j) ∷ ms) k h n = elim (Bool-cases (same_text l k)) [
  | inl e ↦
      let d : l ≡ k = same_text→eq l k e in
      let c : has_text k names ≡ true =
        rw d at (let q : has_text l names ≡ true = ground arith in q) in
      cc
  | inr e ↦ rw e (lookup-none names ms k (ground arith) n)
]

-- Python's truth of a value
abbrev pub is_truthy : Json → Bool
is_truthy null = false
is_truthy big_double = true
is_truthy (boolean b) = b
is_truthy (whole z) = not (is_zero z)
is_truthy (double m e) = not (is_zero m)
is_truthy (text t) = not (is_empty t)
is_truthy (array js) = not (is_empty (elements js))
is_truthy (object ms) = not (is_empty (members ms))

-- `dict[key] = value`
unfoldable pub put : Text → Json → Dict → Dict
put k j [] = (k, j) ∷ []
put k j ((l, i) ∷ ms) =
    let rest = put k j ms in if same_text l k then (l, j) ∷ ms else (l, i) ∷ rest

abbrev pub to_members : Dict → Members
to_members [] = no_members
to_members ((k, j) ∷ ms) = member k j (to_members ms)

pub members-to_members : (d : Dict) → members (to_members d) ≡ d
members-to_members [] = refl
members-to_members ((k, j) ∷ ms) = ap (λ z. (k, j) ∷ z) (members-to_members ms)
