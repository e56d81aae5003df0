-- ===== src/Controller/Resync/Laws.antt =====
-- The bounds of the time between two listings.
use nghttpx_ingress_lb.Common.{ℕ, ◌+◌, ◌*◌, ◌^◌, ◌≤◌, ◌<◌, ◌≡◌, ◌∙◌, ap, arith}
use nghttpx_ingress_lb.Controller.Resync.{Floats, min_dep_resync_period, dep_resync_period}

-- Of IEEE 754: whole numbers up to 2^53 are represented exactly, so that sums and products of them in
-- that range are exact; and rounding is monotone, so that adding a whole number, multiplying by one that
-- is positive, and truncating numbers in that range are.
pub record FloatLaws {F : Type 0} (floats : Floats F) : Type 1 where
  pub le : F → F → Type 0
  pub add-of_int :
      (m n : ℕ)
      → m + n ≤ 2 ^ 53
      → floats.add (floats.of_int m) (floats.of_int n) ≡ floats.of_int (m + n)
  pub mul-of_int :
      (m n : ℕ)
      → m * n ≤ 2 ^ 53
      → floats.mul (floats.of_int m) (floats.of_int n) ≡ floats.of_int (m * n)
  pub to_int-of_int : (n : ℕ) → n ≤ 2 ^ 53 → floats.to_int (floats.of_int n) ≡ n
  pub le_of_int : (n : ℕ) → le (floats.of_int n) (floats.of_int n)
  pub add_mono :
      (x y : F) (n : ℕ)
      → le x y
      → le (floats.add x (floats.of_int n)) (floats.add y (floats.of_int n))
  pub mul_mono :
      (n : ℕ) (x y : F)
      → 0 < n
      → le x y
      → le (floats.mul (floats.of_int n) x) (floats.mul (floats.of_int n) y)
  pub to_int_mono :
      (x y : F) (n : ℕ)
      → le x y
      → le y (floats.of_int n)
      → n ≤ 2 ^ 53
      → floats.to_int x ≤ floats.to_int y

module _ {F : Type 0} (floats : Floats F) (laws : FloatLaws floats) where
  open floats use {of_int, add, mul, to_int}
  open laws use {
    le, le_of_int, add-of_int, mul-of_int, to_int-of_int, add_mono, mul_mono, to_int_mono,
  }

  -- the product that is truncated
  product : F → F
  product x = mul (of_int min_dep_resync_period) (add x (of_int 1))

  product_at : (n : ℕ) → n ≤ 1 → product (of_int n) ≡ of_int (min_dep_resync_period * (n + 1))
  unfolding product
  product_at n h =
      ap (mul (of_int min_dep_resync_period)) (add-of_int n 1 (omega arith))
      ∙ mul-of_int min_dep_resync_period (n + 1) (omega arith)

  product_mono : (x y : F) → le x y → le (product x) (product y)
  unfolding product
  product_mono x y h = mul_mono min_dep_resync_period _ _ (omega arith) (add_mono x y 1 h)

  product_le : (x : F) → le x (of_int 1) → le (product x) (of_int (min_dep_resync_period * 2))
  product_le x h = rw (← product_at 1 (omega arith)) (product_mono x (of_int 1) h)

  period_at :
      (n : ℕ) → n ≤ 1 → dep_resync_period floats (of_int n) ≡ min_dep_resync_period * (n + 1)
  unfolding dep_resync_period product
  period_at n h =
      ap to_int (product_at n h) ∙ to_int-of_int (min_dep_resync_period * (n + 1)) (omega arith)

  period_mono :
      (x y : F) → le x y → le y (of_int 1) → dep_resync_period floats x ≤ dep_resync_period floats y
  unfolding dep_resync_period product
  period_mono x y h k =
      to_int_mono (product x) (product y) (min_dep_resync_period * 2) (product_mono x y h)
        (product_le y k) (omega arith)

  -- By the rules of floating-point arithmetic, whatever number from 0 to 1 `rand.Float64` gives,
  -- `depResyncPeriod` is between 12 and 24 hours, both included.
  pub dep_resync_period_bounds :
      (random : F)
      → le (of_int 0) random
      → le random (of_int 1)
      → (min_dep_resync_period ≤ dep_resync_period floats random)
        × (dep_resync_period floats random ≤ 2 * min_dep_resync_period)
  dep_resync_period_bounds random low high = (
    omega (arith, period_at 0 (omega arith), period_mono (of_int 0) random low high),
    omega (arith, period_at 1 (omega arith), period_mono random (of_int 1) high (le_of_int 1)),
  )
