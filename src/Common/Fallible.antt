-- ===== src/Common/Fallible.antt =====
-- What a Go function with an error result does that cannot panic, and a call of another library.
use Prim.Native.String.{String}
use mathlib.Core.Path.{◌≡◌, refl, ap}
use mathlib.Core.Option.{Option, none, some}
use nghttpx_ingress_lb.Common.Results.{Result, ok, err}

pub data Try {ℓ} (A : Type ℓ) : Type ℓ where
  failed : String → Try A
  got : A → Try A

infixl 5 ◌>>=◌
abbrev pub ◌>>=◌ {ℓ κ} : {A : Type ℓ} {B : Type κ} → Try A → (A → Try B) → Try B
failed e >>= f = failed e
got a >>= f = f a

-- `return nil, fmt.Errorf(prefix + …, err)`
abbrev pub wrap_err {ℓ} : {A : Type ℓ} → (String → String) → Try A → Try A
wrap_err f (failed e) = failed (f e)
wrap_err f (got a) = got a

-- A value that is missing is an error.
abbrev pub or_fail {ℓ} : {A : Type ℓ} → Option A → String → Try A
or_fail none message = failed message
or_fail (some a) message = got a

-- `if err != nil { return err }`, in a function that may panic
abbrev pub try {ℓ} : {A : Type ℓ} → Try A → Result A
try (failed e) = err e
try (got a) = ok a

got_or {ℓ} : {A : Type ℓ} → A → Try A → A
got_or d (failed e) = d
got_or d (got a) = a

pub got_injective {ℓ} : {A : Type ℓ} {a b : A} → got a ≡ got b → a ≡ b
unfolding got_or
got_injective {a} h = ap (got_or a) h

-- A function that returns has not stopped at its first part.
module _ {ℓ κ} {A : Type ℓ} {B : Type κ} (rest : A → Try B) {v : B} where
  pub bind-eq-got :
      (first : Try A) → (first >>= rest) ≡ got v → (x : A) × (first ≡ got x) × (rest x ≡ got v)
  bind-eq-got (failed message) returned = cc
  bind-eq-got (got x) returned = (x, refl, returned)

pub wrap_err-eq-got {ℓ} :
    {A : Type ℓ} (m : String → String) (t : Try A) {a : A} → wrap_err m t ≡ got a → t ≡ got a
wrap_err-eq-got m (failed e) h = cc
wrap_err-eq-got m (got a) h = h
