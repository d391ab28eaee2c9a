-- ===== src/Base/Results.antt =====
-- Code that raises and keeps no state, as do blocks over `Result`.
use mathlib.Core.Path.{◌≡◌, refl}
use mathlib.Core.Logic.{◌⊎◌, inl, inr, ◌↔◌}
use mathlib.Core.Bool.{Bool, true, false}
use native.Mathlib.Omega.{arith}
use package.rougarou_os.Base.Monad.{Result, ok, err, is_ok}

module _ {E A B : Type 0} where
  infixl 5 ◌>>=◌ ◌>>◌
  abbrev pub ◌>>=◌ : Result E A → (A → Result E B) → Result E B
  ok a >>= f = f a
  err e >>= f = err e

  abbrev pub ◌>>◌ : Result E A → Result E B → Result E B
  ok a >> n = n
  err e >> n = err e

-- `if not test: raise e`
abbrev pub demand : {E : Type 0} → Bool → E → Result E (Unit {0})
demand true e = ok tt
demand false e = err e

-- A check passes and so does the rest.
pub is_ok-then :
    {E A B : Type 0} (m : Result E A) (n : Result E B)
    → is_ok (m >> n) ≡ true ↔ (is_ok m ≡ true) × (is_ok n ≡ true)
is_ok-then (ok a) n = (λ h. (refl, h), λ h. h.1)
is_ok-then (err e) n = (λ h. cc, λ h. cc)

pub is_ok-bind :
    {E A B : Type 0} (m : Result E A) (f : A → Result E B)
    → is_ok (m >>= f) ≡ true ↔ ((a : A) × (m ≡ ok a) × (is_ok (f a) ≡ true))
is_ok-bind (ok a) f = (
  λ h. (a, refl, h),
  λ (b, e, h). let d : a ≡ b = cc in let g : f a ≡ f b = cc in ground (arith, g),
)
is_ok-bind (err e) f = (λ h. cc, λ (b, d, h). cc)

pub demand_iff : {E : Type 0} (b : Bool) (e : E) → is_ok (demand b e) ≡ true ↔ b ≡ true
demand_iff true e = (λ h. refl, λ h. refl)
demand_iff false e = (λ h. cc, λ h. cc)

pub result-cases :
    {E A : Type 0} (r : Result E A) → ((e : E) × (r ≡ err e)) ⊎ ((a : A) × (r ≡ ok a))
result-cases (ok a) = inr (a, refl)
result-cases (err e) = inl (e, refl)

-- What a chain that passes has passed through.
pub bind-ok :
    {E A B : Type 0} (m : Result E A) (f : A → Result E B) (b : B)
    → (m >>= f) ≡ ok b
    → (a : A) × (m ≡ ok a) × (f a ≡ ok b)
bind-ok (ok a) f b h = (a, refl, h)
bind-ok (err e) f b h = cc

pub demand-ok :
    {E A : Type 0} (t : Bool) (e : E) (n : Result E A) (a : A)
    → (demand t e >> n) ≡ ok a
    → (t ≡ true) × (n ≡ ok a)
demand-ok true e n a h = (refl, h)
demand-ok false e n a h = cc

pub then-ok :
    {E A : Type 0} (m : Result E (Unit {0})) (n : Result E A) (a : A)
    → (m >> n) ≡ ok a
    → (m ≡ ok tt) × (n ≡ ok a)
then-ok (ok u) n a h = (refl, h)
then-ok (err e) n a h = cc
