-- ===== src/Nghttpx/Io/Laws.antt =====
-- Taking apart a computation on the world that has succeeded.
use nghttpx_ingress_lb.Common.{String, ◌≡◌, refl, Try, failed, got}
use nghttpx_ingress_lb.Nghttpx.Io.{Io, after, wrapped}

module _ {W : Type 0} where
  pub after-eq-got :
      {A B : Type 0} (r : Try A × W) (f : A → Io W B) {b : B} {w' : W}
      → after r f ≡ (got b, w')
      → (a : A) × (w1 : W) × (r ≡ (got a, w1)) × (f a w1 ≡ (got b, w'))
  after-eq-got (failed e, w1) f h = cc
  after-eq-got (got a, w1) f h = (a, w1, refl, h)

  pub wrapped-eq-got :
      {A : Type 0} (f : String → String) (r : Try A × W) {a : A} {w' : W}
      → wrapped f r ≡ (got a, w')
      → r ≡ (got a, w')
  wrapped-eq-got f (failed e, w1) h = cc
  wrapped-eq-got f (got a, w1) h = h
