-- ===== src/Base/Contract.antt =====
-- What an operation guarantees: from a state of `P` it returns a value with `Q`, or raises in `R`.
use mathlib.Core.Path.{◌≡◌, refl}
use mathlib.Core.Bool.{Bool, true, false}
use package.rougarou_os.Base.Monad.{Result, ok, err, Exec, require, continue, ◌>>=◌}
use package.rougarou_os.Base.Tests.{if◌then◌else◌}

module _ {S E A : Type 0} where
  abbrev pub Post : (A → S → Type 0) → (S → Type 0) → Result E A × S → Type 0
  Post Q R (ok a, s) = Q a s
  Post Q R (err e, s) = R s

  abbrev pub Triple : (S → Type 0) → Exec S E A → (A → S → Type 0) → (S → Type 0) → Type 0
  Triple P m Q R = (s : S) → P s → Post Q R (m s)

  pub Post-map :
      {Q Q' : A → S → Type 0} {R R' : S → Type 0} (x : Result E A × S)
      → ((a : A) (s : S) → Q a s → Q' a s)
      → ((s : S) → R s → R' s)
      → Post Q R x
      → Post Q' R' x
  Post-map (ok a, s) f g h = f a s h
  Post-map (err e, s) f g h = g s h

module _ {S E A B : Type 0} (R : S → Type 0) where
  Post-continue :
      (Q : A → S → Type 0) (Q' : B → S → Type 0) (f : A → Exec S E B) (x : Result E A × S)
      → Post Q R x
      → ((a : A) → Triple (Q a) (f a) Q' R)
      → Post Q' R (continue f x.0 x.1)
  Post-continue Q Q' f (ok a, s) h g = g a s h
  Post-continue Q Q' f (err e, s) h g = h

  pub Triple-bind :
      {P : S → Type 0} (Q : A → S → Type 0) (Q' : B → S → Type 0) (m : Exec S E A)
      (f : A → Exec S E B)
      → Triple P m Q R
      → ((a : A) → Triple (Q a) (f a) Q' R)
      → Triple P (m >>= f) Q' R
  Triple-bind Q Q' m f h g s p = Post-continue Q Q' f (m s) (h s p) g

module _ {S E : Type 0} where
  -- A guard, with what it has found out.
  pub Triple-require :
      {P R : S → Type 0} (b : Bool) (e : E)
      → ((s : S) → P s → R s)
      → Triple P (require b e) (λ _ s. P s × (b ≡ true)) R
  Triple-require true e g s p = (p, refl)
  Triple-require false e g s p = g s p

  pub Triple-if :
      {A : Type 0} {P : S → Type 0} (R : S → Type 0) (Q : A → S → Type 0) (b : Bool)
      (m n : Exec S E A)
      → (b ≡ true → Triple P m Q R)
      → (b ≡ false → Triple P n Q R)
      → Triple P (if b then m else n) Q R
  Triple-if R Q true m n f g = f refl
  Triple-if R Q false m n f g = g refl
