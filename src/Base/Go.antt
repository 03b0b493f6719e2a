-- ===== src/Base/Go.antt =====
-- What a Go function of the repository can do: return, return an error, or panic.
use mathlib.Core.Path.{◌≡◌, refl, ap}
use mathlib.Core.Bool.{Bool, true, false}
use mathlib.Core.Option.{Option, none, some}
use grpc_gw_controller.Base.Tests.{if◌then◌else◌}

pub data Outcome {ℓ} (E A : Type ℓ) : Type ℓ where
  ok : A → Outcome E A
  err : E → Outcome E A
  panic : Outcome E A

infixl 5 ◌>>=◌ ◌>>◌
abbrev pub ◌>>=◌ {ℓ} : {E A B : Type ℓ} → Outcome E A → (A → Outcome E B) → Outcome E B
ok a >>= f = f a
err e >>= f = err e
panic >>= f = panic

abbrev pub ◌>>◌ {ℓ} : {E A B : Type ℓ} → Outcome E A → Outcome E B → Outcome E B
m >> k = m >>= λ _. k

-- An index into a slice: out of range it panics.
abbrev pub index {ℓ} : {E A : Type ℓ} → Option A → Outcome E A
index none = panic
index (some a) = ok a

abbrev value_or : {E A : Type 0} → A → Outcome E A → A
value_or a (ok b) = b
value_or a (err e) = a
value_or a panic = a

pub ok-injective : {E A : Type 0} (a b : A) → ◌≡◌ {A = Outcome E A} (ok a) (ok b) → a ≡ b
ok-injective a b h = ap (λ o. value_or a o) h

-- A chain that succeeds has a first step that does.
pub bind-ok :
    {E A B : Type 0} (o : Outcome E A) (f : A → Outcome E B) (b : B)
    → (o >>= f) ≡ ok b
    → (a : A) × (o ≡ ok a) × (f a ≡ ok b)
bind-ok (ok a) f b h = (a, refl, h)
bind-ok (err e) f b h = absurd cc
bind-ok panic f b h = absurd cc

-- What holds of the result, where there is one.
module _ {E A : Type 0} (P : A → Type 0) where
  abbrev pub Holds : Outcome E A → Type 0
  Holds (ok a) = P a
  Holds (err e) = Unit
  Holds panic = Unit

  pub Holds-if : (b : Bool) (x y : Outcome E A) → Holds x → Holds y → Holds (if b then x else y)
  Holds-if true x y h k = h
  Holds-if false x y h k = k

  pub Holds-bind :
      {C : Type 0} (m : Outcome E C) (f : C → Outcome E A)
      → ((c : C) → Holds (f c))
      → Holds (m >>= f)
  Holds-bind (ok c) f h = h c
  Holds-bind (err e) f h = tt
  Holds-bind panic f h = tt

pub Holds-then :
    {E A C : Type 0} (Q : C → Type 0) (P : A → Type 0) (m : Outcome E C) (f : C → Outcome E A)
    → Holds Q m
    → ((c : C) → Q c → Holds P (f c))
    → Holds P (m >>= f)
Holds-then Q P (ok c) f h k = k c h
Holds-then Q P (err e) f h k = tt
Holds-then Q P panic f h k = tt
