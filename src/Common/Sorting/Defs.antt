-- ===== src/Common/Sorting/Defs.antt =====
-- Orders as Boolean `less` functions, ascending lists, and the contract of `sort.Slice`.
use mathlib.Core.Path.{◌≡◌}
use mathlib.Core.Bool.{Bool, true, false}
use mathlib.Core.List.{List, [], ◌∷◌, Permᴰ}
use nghttpx_ingress_lb.Common.Lists.{All}

-- What `sort.Slice` asks of `less`: a strict weak order.
pub record IsStrictWeak {ℓ} {A : Type ℓ} (less : A → A → Bool) : Type ℓ where
  pub asymm : (x y : A) → less x y ≡ true → less y x ≡ false
  pub neg_trans : (x y z : A) → less x y ≡ false → less y z ≡ false → less x z ≡ false

-- No element is before one that stands in front of it.
abbrev pub IsSorted {ℓ} : {A : Type ℓ} → (A → A → Bool) → List A → Type 0
IsSorted less [] = Unit
IsSorted less (x ∷ xs) = All (λ y. less y x ≡ false) xs × IsSorted less xs

-- Every element is before all that follow it: ascending, with no two that compare equal.
abbrev pub IsStrictlySorted {ℓ} : {A : Type ℓ} → (A → A → Bool) → List A → Type 0
IsStrictlySorted less [] = Unit
IsStrictlySorted less (x ∷ xs) = All (λ y. less x y ≡ true) xs × IsStrictlySorted less xs

pub record Sorter : Type 1 where
  pub sort_slice : {A : Type 0} → (A → A → Bool) → List A → List A
  pub sort_slice-perm :
      {A : Type 0} (less : A → A → Bool) (l : List A) → Permᴰ (sort_slice less l) l
  pub sort_slice-IsSorted :
      {A : Type 0} (less : A → A → Bool) (l : List A)
      → IsStrictWeak less
      → IsSorted less (sort_slice less l)
