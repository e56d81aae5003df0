-- ===== src/Common/Sorting/Keys.antt =====
-- The orders that the program sorts by: one text key, or a text key and then another.
use Prim.Native.String.{String}
use mathlib.Core.Path.{◌≡◌}
use mathlib.Core.Bool.{Bool, false, ◌&&◌, ◌||◌}
use native.Mathlib.Omega.{arith}
use nghttpx_ingress_lb.Common.Text.{str_lt, ◌=s◌, eq_iff, str_lt_asymm, str_lt_neg_trans}
use nghttpx_ingress_lb.Common.Text.{str_lt_connex, str_lt_irrefl}
use nghttpx_ingress_lb.Common.Sorting.Defs.{IsStrictWeak}

module _ {A : Type 0} (f : A → String) where
  abbrev pub less_by : A → A → Bool
  less_by x y = str_lt (f x) (f y)

  pub less_by-IsStrictWeak : IsStrictWeak less_by
  less_by-IsStrictWeak = record {
    asymm = λ x y. str_lt_asymm (f x) (f y);
    neg_trans = λ x y z. str_lt_neg_trans (f x) (f y) (f z);
  }

module _ {A : Type 0} (f g : A → String) where
  abbrev pub less_by_both : A → A → Bool
  less_by_both x y = str_lt (f x) (f y) || (f x =s f y && str_lt (g x) (g y))

  both_neg_trans :
      (x y z : A) → less_by_both x y ≡ false → less_by_both y z ≡ false → less_by_both x z ≡ false
  both_neg_trans x y z h k = ground (
    arith,
    eq_iff (f x) (f y),
    eq_iff (f y) (f z),
    eq_iff (f x) (f z),
    str_lt_neg_trans (f x) (f y) (f z),
    str_lt_neg_trans (f y) (f z) (f x),
    str_lt_neg_trans (f z) (f x) (f y),
    str_lt_connex (f x) (f y),
    str_lt_connex (f y) (f z),
    str_lt_connex (f x) (f z),
    str_lt_neg_trans (g x) (g y) (g z),
  )

  pub less_by_both-IsStrictWeak : IsStrictWeak less_by_both
  less_by_both-IsStrictWeak = record {
    asymm = λ x y h. ground (
      arith,
      eq_iff (f x) (f y),
      eq_iff (f y) (f x),
      str_lt_asymm (f x) (f y),
      str_lt_irrefl (f x),
      str_lt_asymm (g x) (g y),
    );
    neg_trans = both_neg_trans;
  }
