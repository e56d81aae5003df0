-- ===== src/Common/Text.antt =====
-- Go strings: `+`, `==` and `<`. `<` compares bytes, which for UTF-8 is the order of `compare`.
use Prim.Native.Nat.{ℕ, Ordering, compare as compare_ℕ}
use Prim.Native.Char.{code}
use Prim.Native.String.{String, [], ◌∷◌, compare, then}
use Prim.Native.String.compare as compare_lem
use mathlib.Core.Path.{◌≡◌, refl}
use mathlib.Core.Logic.{◌≢◌}
use mathlib.Core.Bool.{Bool, true, false}
use native.Mathlib.Omega.{arith}
use text.Mathlib.TextEquality.{path_by_compare}
use text.Mathlib.TextPositions.{compare_refl}
pub use Prim.Native.String.{◌++◌ as ◌<>◌}
pub use text.Mathlib.Text.{◌==◌ as ◌=s◌, starts_with}
pub use text.Mathlib.TextEquality.{eq_iff}
pub use text.Mathlib.TextPositions.{eq_refl, starts_with-append}

abbrev is_lt : Ordering → Bool
is_lt Ordering.lt = true
is_lt Ordering.eq = false
is_lt Ordering.gt = false

abbrev pub str_lt : String → String → Bool
str_lt s t = is_lt (compare s t)

abbrev flip : Ordering → Ordering
flip Ordering.lt = Ordering.gt
flip Ordering.eq = Ordering.eq
flip Ordering.gt = Ordering.lt

compare_ℕ-flip : (m n : ℕ) → compare_ℕ n m ≡ flip (compare_ℕ m n)
compare_ℕ-flip m n = ground arith

then-flip : (o p : Ordering) → then (flip o) (flip p) ≡ flip (then o p)
then-flip Ordering.lt p = refl
then-flip Ordering.eq p = refl
then-flip Ordering.gt p = refl

compare-flip : (s t : String) → compare t s ≡ flip (compare s t)
compare-flip [] [] = refl
compare-flip [] (d ∷ t) = rw (compare_lem.nil-cons, compare_lem.cons-nil)
compare-flip (c ∷ s) [] = rw (compare_lem.nil-cons, compare_lem.cons-nil)
compare-flip (c ∷ s) (d ∷ t) =
    rw (compare_lem.cons-cons c d s t, compare_lem.cons-cons d c t s)
      (rw (compare_ℕ-flip (code c) (code d), compare-flip s t) (then-flip _ _))

pub str_lt_asymm : (s t : String) → str_lt s t ≡ true → str_lt t s ≡ false
str_lt_asymm s t h = ground (arith, compare-flip s t)

then_trans :
    (a b c : ℕ) (p q r : Ordering)
    → (is_lt p ≡ false → is_lt q ≡ false → is_lt r ≡ false)
    → is_lt (then (compare_ℕ a b) p) ≡ false
    → is_lt (then (compare_ℕ b c) q) ≡ false
    → is_lt (then (compare_ℕ a c) r) ≡ false
then_trans a b c p q r ih h k = ground arith

-- "Not before" is transitive.
pub str_lt_neg_trans :
    (s t u : String) → str_lt s t ≡ false → str_lt t u ≡ false → str_lt s u ≡ false
str_lt_neg_trans [] [] u h k = k
str_lt_neg_trans [] (d ∷ t) u h k = let h' : true ≡ false = rw compare_lem.nil-cons at h in cc
str_lt_neg_trans (c ∷ s) t [] h k = rw compare_lem.cons-nil
str_lt_neg_trans (c ∷ s) [] (e ∷ u) h k = let k' : true ≡ false = rw compare_lem.nil-cons at k in cc
str_lt_neg_trans (c ∷ s) (d ∷ t) (e ∷ u) h k = rw compare_lem.cons-cons (
    then_trans (code c) (code d) (code e) _ _ _ (str_lt_neg_trans s t u)
      (rw compare_lem.cons-cons at h) (rw compare_lem.cons-cons at k))

-- Two texts neither of which is before the other are one text.
pub str_lt_connex : (s t : String) → str_lt s t ≡ false → str_lt t s ≡ false → s ≡ t
str_lt_connex s t h k = path_by_compare s t (ground (arith, compare-flip s t))

pub str_lt_irrefl : (s : String) → str_lt s s ≡ false
str_lt_irrefl s = rw compare_refl

pub ne_of_test : (s t : String) → (s =s t) ≡ false → s ≢ t
ne_of_test s t h e = let k : true ≡ false = rw (← (eq_iff s t).1 e) h in cc
