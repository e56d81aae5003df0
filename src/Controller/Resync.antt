-- ===== src/Controller/Resync.antt =====
-- `depResyncPeriod` of pkg/controller/util.go: the time between two listings of the objects other than
-- ingresses, in nanoseconds. Go's `float64` is a parameter, and so is what `rand.Float64` gives.
pub mod Laws
mod Tests
use nghttpx_ingress_lb.Common.{ℕ, ◌*◌}

-- `float64`: `of_int` and `to_int` are the conversions from and to `int64`, of numbers that are not
-- negative.
pub record Floats (F : Type 0) : Type 0 where
  pub of_int : ℕ → F
  pub add : F → F → F
  pub mul : F → F → F
  pub to_int : F → ℕ

abbrev pub second : ℕ
second = 1000000000

-- `12 * time.Hour`
abbrev pub min_dep_resync_period : ℕ
min_dep_resync_period = 12 * 3600 * second

-- `random` is what `rand.Float64` gave.
module _ {F : Type 0} (floats : Floats F) where
  open floats use {of_int, add, mul, to_int}

  unfoldable pub dep_resync_period : F → ℕ
  dep_resync_period random =
      let factor = add random (of_int 1) in to_int (mul (of_int min_dep_resync_period) factor)
