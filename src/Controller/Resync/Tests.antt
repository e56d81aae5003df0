-- ===== src/Controller/Resync/Tests.antt =====
-- The period at a half, with numbers in quarters.
use nghttpx_ingress_lb.Common.{ℕ, ◌+◌, ◌*◌, ◌/◌, ◌≤◌, ◌≡◌, refl, arith}
use nghttpx_ingress_lb.Controller.Resync.{Floats, second, min_dep_resync_period, dep_resync_period}
use nghttpx_ingress_lb.Controller.Resync.Laws.{FloatLaws, dep_resync_period_bounds}

-- `n` stands for a quarter of `n`.
abbrev quarters : Floats ℕ
quarters = record {
  of_int = λ n. 4 * n;
  add = λ x y. x + y;
  mul = λ x y. (x * y) / 4;
  to_int = λ x. x / 4;
}

quarters_mul : (m n : ℕ) → (4 * m * (4 * n)) / 4 ≡ 4 * (m * n)
quarters_mul m n = grind arith

quarters_mono : (n x y : ℕ) → x ≤ y → (4 * n * x) / 4 ≤ (4 * n * y) / 4
quarters_mono n x y h = grind arith

quarters-FloatLaws : FloatLaws quarters
quarters-FloatLaws = record {
  le = λ x y. x ≤ y;
  add-of_int = λ m n h. omega arith;
  mul-of_int = λ m n h. quarters_mul m n;
  to_int-of_int = λ n h. omega arith;
  le_of_int = λ n. omega arith;
  add_mono = λ x y n h. omega arith;
  mul_mono = λ n x y p h. quarters_mono n x y h;
  to_int_mono = λ x y n h k m. omega arith;
}

dep_resync_period_bounds_example :
    (min_dep_resync_period ≤ dep_resync_period quarters 2)
    × (dep_resync_period quarters 2 ≤ 2 * min_dep_resync_period)
unfolding quarters-FloatLaws
dep_resync_period_bounds_example =
    dep_resync_period_bounds quarters quarters-FloatLaws 2 (omega arith) (omega arith)

half_run : dep_resync_period quarters 2 ≡ 18 * 3600 * second
unfolding dep_resync_period
half_run = refl
