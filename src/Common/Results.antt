-- ===== src/Common/Results.antt =====
-- What a Go function that may panic does: it returns, it fails with a message, or it panics.
use Prim.Native.String.{String}
use mathlib.Core.Path.{◌≡◌, refl, ap}
use mathlib.Core.Option.{Option, none, some}

pub data Result {ℓ} (A : Type ℓ) : Type ℓ where
  ok : A → Result A
  err : String → Result A
  panic : Result A

infixl 5 ◌>>=◌
abbrev pub ◌>>=◌ {ℓ κ} : {A : Type ℓ} {B : Type κ} → Result A → (A → Result B) → Result B
ok a >>= f = f a
err e >>= f = err e
panic >>= f = panic

result_or {ℓ} : {A : Type ℓ} → A → Result A → A
result_or d (ok a) = a
result_or d (err e) = d
result_or d panic = d

pub ok_injective {ℓ} : {A : Type ℓ} {a b : A} → ok a ≡ ok b → a ≡ b
unfolding result_or
ok_injective {a} h = ap (result_or a) h

-- `xs[i]`, which panics out of range
abbrev pub or_panic {ℓ} : {A : Type ℓ} → Option A → Result A
or_panic none = panic
or_panic (some a) = ok a

-- A function that returns has not stopped at its first part.
module _ {ℓ κ} {A : Type ℓ} {B : Type κ} (rest : A → Result B) {v : B} where
  pub bind-eq-ok :
      (first : Result A) → (first >>= rest) ≡ ok v → (x : A) × (first ≡ ok x) × (rest x ≡ ok v)
  bind-eq-ok panic returned = cc
  bind-eq-ok (err message) returned = cc
  bind-eq-ok (ok x) returned = (x, refl, returned)
