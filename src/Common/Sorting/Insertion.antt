-- ===== src/Common/Sorting/Insertion.antt =====
-- Insertion sort, one algorithm that meets the contract.
use mathlib.Core.Path.{◌≡◌, refl}
use mathlib.Core.Bool.{Bool, false}
use mathlib.Core.Logic.{inl, inr}
use mathlib.Core.List.{List, [], ◌∷◌, Permᴰ}
use mathlib.Core.List.Permᴰ
use nghttpx_ingress_lb.Common.Cond.{if◌then◌else◌, Bool-cases}
use nghttpx_ingress_lb.Common.Lists.{All-perm, All-map}
use nghttpx_ingress_lb.Common.Sorting.Defs.{IsStrictWeak, IsSorted, Sorter}

module _ {A : Type 0} (less : A → A → Bool) where
  insert : A → List A → List A
  insert x [] = x ∷ []
  insert x (y ∷ ys) = if less y x then y ∷ insert x ys else x ∷ y ∷ ys

  insertion_sort : List A → List A
  unfolding insert
  insertion_sort [] = []
  insertion_sort (x ∷ xs) = insert x (insertion_sort xs)

  insert-perm : (x : A) (l : List A) → Permᴰ (insert x l) (x ∷ l)
  unfolding insert
  insert-perm x [] = Permᴰ.refl _
  insert-perm x (y ∷ ys) = elim (Bool-cases (less y x)) [
    | inl e ↦ rw e (Permᴰ.trans (Permᴰ.cons refl (insert-perm x ys)) (Permᴰ.swap refl refl))
    | inr e ↦ rw e (Permᴰ.refl _)
  ]

  sort-perm : (l : List A) → Permᴰ (insertion_sort l) l
  unfolding insertion_sort
  sort-perm [] = Permᴰ.nil
  sort-perm (x ∷ xs) =
      Permᴰ.trans (insert-perm x (insertion_sort xs)) (Permᴰ.cons refl (sort-perm xs))

  module _ (weak : IsStrictWeak less) where
    insert-IsSorted : (x : A) (l : List A) → IsSorted less l → IsSorted less (insert x l)
    unfolding insert
    insert-IsSorted x [] s = (tt, tt)
    insert-IsSorted x (y ∷ ys) s = elim (Bool-cases (less y x)) [
      | inl e ↦ rw e (
        All-perm (λ z. less z y ≡ false) (insert-perm x ys) (weak.asymm y x e, s.0),
        insert-IsSorted x ys s.1,
      )
      | inr e ↦ rw e ((e, All-map ys (λ z h. weak.neg_trans z y x h e) s.0), s)
    ]

    sort-IsSorted : (l : List A) → IsSorted less (insertion_sort l)
    unfolding insertion_sort
    sort-IsSorted [] = tt
    sort-IsSorted (x ∷ xs) = insert-IsSorted x (insertion_sort xs) (sort-IsSorted xs)

unfoldable pub insertion_sorter : Sorter
unfolding insertion_sort sort-perm sort-IsSorted insert-perm insert-IsSorted
insertion_sorter = record {
  sort_slice = insertion_sort;
  sort_slice-perm = sort-perm;
  sort_slice-IsSorted = λ less l weak. sort-IsSorted less weak l;
}
