-- ===== src/Common/Sorting/Adjacent.antt =====
-- Dropping the elements of an ascending list that are the same as the last one kept: the plain
-- recursion that the program's loops are compared with.
use mathlib.Core.Path.{◌≡◌, refl, sym, subst}
use mathlib.Core.Bool.{Bool, true, false}
use mathlib.Core.Logic.{inl, inr}
use mathlib.Core.List.{List, [], ◌∷◌}
use native.Mathlib.Omega.{arith}
use nghttpx_ingress_lb.Common.Cond.{if◌then◌else◌, Bool-cases}
use nghttpx_ingress_lb.Common.Lists.{All, All-map, any}
use nghttpx_ingress_lb.Common.Sorting.Defs.{IsStrictWeak, IsSorted, IsStrictlySorted}

module _ {A : Type 0} (same : A → A → Bool) where
  unfoldable pub dedup_from : A → List A → List A
  dedup_from x [] = []
  dedup_from x (y ∷ ys) =
      let keep = y ∷ dedup_from y ys in
      let skip = dedup_from x ys in if same x y then skip else keep

  unfoldable pub dedup : List A → List A
  dedup [] = []
  dedup (x ∷ xs) = x ∷ dedup_from x xs

  pub dedup_from_nil : (x : A) → dedup_from x [] ≡ []
  unfolding dedup_from
  dedup_from_nil x = refl

  pub dedup_from_same :
      (x y : A) (ys : List A) → same x y ≡ true → dedup_from x (y ∷ ys) ≡ dedup_from x ys
  unfolding dedup_from
  dedup_from_same x y ys e = rw e

  pub dedup_from_other :
      (x y : A) (ys : List A) → same x y ≡ false → dedup_from x (y ∷ ys) ≡ y ∷ dedup_from y ys
  unfolding dedup_from
  dedup_from_other x y ys e = rw e

  module _ {κ} (P : A → Type κ) where
    dedup_from-All : (x : A) (ys : List A) → All P ys → All P (dedup_from x ys)
    dedup_from-All x [] h = unfold dedup_from in h
    dedup_from-All x (y ∷ ys) h = elim (Bool-cases (same x y)) [
      | inl e ↦ rw (dedup_from_same x y ys e) (dedup_from-All x ys h.1)
      | inr e ↦ rw (dedup_from_other x y ys e) (h.0, dedup_from-All y ys h.1)
    ]

    -- What holds of every element holds of every element kept.
    pub dedup-All : (xs : List A) → All P xs → All P (dedup xs)
    unfolding dedup
    dedup-All [] h = h
    dedup-All (x ∷ xs) h = (h.0, dedup_from-All x xs h.1)

  module _ (same_refl : (x : A) → same x x ≡ true) where
    Covers : List A → List A → Type 0
    Covers kept l = All (λ y. any (λ z. same z y) kept ≡ true) l

    dedup_from-Covers : (x : A) (ys : List A) → Covers (x ∷ dedup_from x ys) ys
    unfolding Covers
    dedup_from-Covers x [] = tt
    dedup_from-Covers x (y ∷ ys) = elim (Bool-cases (same x y)) [
      | inl e ↦
          subst (λ l. Covers (x ∷ l) (y ∷ ys)) (sym (dedup_from_same x y ys e))
            (ground arith, dedup_from-Covers x ys)
      | inr e ↦
          subst (λ l. Covers (x ∷ l) (y ∷ ys)) (sym (dedup_from_other x y ys e))
            (ground (arith, same_refl y), All-map ys (λ z h. ground arith) (dedup_from-Covers y ys))
    ]

    -- Every element is the same as one that is kept.
    pub dedup_covers : (xs : List A) → All (λ y. any (λ z. same z y) (dedup xs) ≡ true) xs
    unfolding dedup Covers
    dedup_covers [] = tt
    dedup_covers (x ∷ xs) = (ground (arith, same_refl x), dedup_from-Covers x xs)

  module _ (less : A → A → Bool) (weak : IsStrictWeak less)
      (connex : (x y : A) → same x y ≡ false → less y x ≡ false → less x y ≡ true)
      (same_le : (x y : A) → same x y ≡ true → less y x ≡ false) where
    less-le_trans : (x y z : A) → less x y ≡ true → less z y ≡ false → less x z ≡ true
    less-le_trans x y z h k = elim (Bool-cases (less x z)) [
      | inl e ↦ e
      | inr e ↦ let c : less x y ≡ false = weak.neg_trans x z y e k in cc
    ]

    dedup_from-IsStrictlySorted :
        (x : A) (ys : List A) → IsSorted less (x ∷ ys) → IsStrictlySorted less (x ∷ dedup_from x ys)
    dedup_from-IsStrictlySorted x [] s = unfold dedup_from in (tt, tt)
    dedup_from-IsStrictlySorted x (y ∷ ys) s = elim (Bool-cases (same x y)) [
      | inl e ↦ rw (dedup_from_same x y ys e) (dedup_from-IsStrictlySorted x ys (s.0.1, s.1.1))
      | inr e ↦
          let before : less x y ≡ true = connex x y e s.0.0 in
          let rest = dedup_from-IsStrictlySorted y ys s.1 in
          rw (dedup_from_other x y ys e) (
            (
              before,
              dedup_from-All (λ z. less x z ≡ true) y ys
                  (All-map ys (λ z h. less-le_trans x y z before h) s.1.0),
            ),
            rest,
          )
    ]

    -- What is kept of an ascending list is strictly ascending.
    pub dedup-IsStrictlySorted : (xs : List A) → IsSorted less xs → IsStrictlySorted less (dedup xs)
    unfolding dedup
    dedup-IsStrictlySorted [] s = tt
    dedup-IsStrictlySorted (x ∷ xs) s = dedup_from-IsStrictlySorted x xs s
