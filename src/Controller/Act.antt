-- ===== src/Controller/Act.antt =====
-- What a method of the controller does that may panic and that changes the state of the world: it
-- returns, it fails or it panics, and leaves another state.
use nghttpx_ingress_lb.Common.{
  ◌≡◌, refl, ap, ok_injective, Result, ok, err, panic, Try, failed, got,
}
use nghttpx_ingress_lb.Nghttpx.Io.{Io}

abbrev pub Act : Type 0 → Type 0 → Type 0
Act W A = W → Result A × W

abbrev pub and_then : {W A B : Type 0} → Result A × W → (A → Act W B) → Result B × W
and_then (ok a, w) f = f a w
and_then (err e, w) f = (err e, w)
and_then (panic, w) f = (panic, w)

infixl 5 ◌>>=◌
abbrev pub ◌>>=◌ : {W A B : Type 0} → Act W A → (A → Act W B) → Act W B
m >>= f = λ w. and_then (m w) f

abbrev pub done : {W A : Type 0} → A → Act W A
done a = λ w. (ok a, w)

-- A result that does not touch the world.
abbrev pub lift : {W A : Type 0} → Result A → Act W A
lift r = λ w. (r, w)

abbrev pub raised : {A : Type 0} → Try A → Result A
raised (failed e) = err e
raised (got a) = ok a

abbrev called : {W A : Type 0} → Try A × W → Result A × W
called (failed e, w) = (err e, w)
called (got a, w) = (ok a, w)

-- A call that cannot panic.
abbrev pub call : {W A : Type 0} → Io W A → Act W A
call m = λ w. called (m w)

-- `if err := m; err != nil { log }`: an error is dropped, a panic is not.
abbrev pub dropped : {W : Type 0} → Result (Unit {0}) × W → Result (Unit {0}) × W
dropped (ok u, w) = (ok u, w)
dropped (err e, w) = (ok tt, w)
dropped (panic, w) = (panic, w)

abbrev pub logged : {W : Type 0} → Act W (Unit {0}) → Act W (Unit {0})
logged m = λ w. dropped (m w)

-- Where a sequence ends without an error, so does its first part.
pub and_then-eq-ok :
    {W A B : Type 0} (r : Result A × W) (f : A → Act W B) {b : B} {w' : W}
    → and_then r f ≡ (ok b, w')
    → (a : A) × (w : W) × (r ≡ (ok a, w)) × (f a w ≡ (ok b, w'))
and_then-eq-ok (ok a, w) f h = (a, w, refl, h)
and_then-eq-ok (err e, w) f h = let c = ap (λ p. p.0) h in cc
and_then-eq-ok (panic, w) f h = let c = ap (λ p. p.0) h in cc

pub raised-eq-ok : {A : Type 0} (t : Try A) {a : A} → raised t ≡ ok a → t ≡ got a
raised-eq-ok (failed e) h = cc
raised-eq-ok (got a) h = ap (λ x. got x) (ok_injective h)

pub called-eq-ok :
    {W A : Type 0} (r : Try A × W) {a : A} {w : W} → called r ≡ (ok a, w) → r ≡ (got a, w)
called-eq-ok (failed e, w) h = let c = ap (λ p. p.0) h in cc
called-eq-ok (got a, w) h =
    let same = ok_injective (ap (λ p. p.0) h) in rw (same, ap (λ p. p.1) h) refl
