-- ===== src/Common/Sorting/Unordered.antt =====
-- What sorting and making unique do to lists that have the same elements in another order: the keys come
-- out the same.
use Prim.Native.String.{String}
use mathlib.Core.Path.{◌≡◌, refl, sym, ap, subst, ◌∙◌}
use mathlib.Core.Bool.{Bool, false}
use mathlib.Core.Logic.{inl, inr, ∥∥₁_elim}
use mathlib.Core.List.{List, [], ◌∷◌, ◌++◌, map, append_assoc, Permᴰ, Perm}
use mathlib.Core.List.Perm
use mathlib.Core.List.Permᴰ
use native.Mathlib.Omega.{arith}
use nghttpx_ingress_lb.Common.Cond.{Bool-cases}
use nghttpx_ingress_lb.Common.Lists.{All, All-perm, any}
use nghttpx_ingress_lb.Common.Text.{◌=s◌, str_lt, str_lt_connex, str_lt_irrefl}
use nghttpx_ingress_lb.Common.Sorting.Defs.{IsSorted, Sorter}
use nghttpx_ingress_lb.Common.Sorting.Adjacent.{
  dedup, dedup_from, dedup_from_nil, dedup_from_same, dedup_from_other,
}
use nghttpx_ingress_lb.Common.Sorting.Keys.{less_by, less_by-IsStrictWeak}

-- The first text of an ascending list is not after any text of another list with the same texts.
first_le :
    (x y : String) (xs ys : List String)
    → IsSorted str_lt (x ∷ xs)
    → Perm (x ∷ xs) (y ∷ ys)
    → str_lt y x ≡ false
first_le x y xs ys s p =
    ∥∥₁_elim p (hlevel)
      (λ d. (All-perm (λ z. str_lt z x ≡ false) (Permᴰ.symm d) (str_lt_irrefl x, s.0)).0)

-- An ascending list of texts is determined by which texts it has, and how often.
sorted_unique :
    (xs ys : List String) → IsSorted str_lt xs → IsSorted str_lt ys → Perm xs ys → xs ≡ ys
sorted_unique [] [] s t p = refl
sorted_unique [] (y ∷ ys) s t p = Perm.nil-eq p
sorted_unique (x ∷ xs) [] s t p = Perm.eq-nil p
sorted_unique (x ∷ xs) (y ∷ ys) s t p =
    let same : x ≡ y =
      str_lt_connex x y (first_le y x ys xs t (Perm.symm p)) (first_le x y xs ys s p) in
    let p' : Perm (x ∷ xs) (x ∷ ys) = subst (λ z. Perm (x ∷ xs) (z ∷ ys)) (sym same) p in
    rw (same, sorted_unique xs ys s.1 t.1 (Perm.cons_inv p')) refl

module _ {A : Type 0} (f : A → String) where
  map-IsSorted : (xs : List A) → IsSorted (less_by f) xs → IsSorted str_lt (map f xs)
  map-IsSorted [] s = tt
  map-IsSorted (x ∷ xs) s = (heads xs s.0, map-IsSorted xs s.1)
    where
      heads :
          (ys : List A)
          → All (λ y. less_by f y x ≡ false) ys
          → All (λ t. str_lt t (f x) ≡ false) (map f ys)
      heads [] h = tt
      heads (y ∷ ys) h = (h.0, heads ys h.1)

  -- However a list is ordered before it is sorted by a key, the keys come out in one order.
  pub sort_keys-perm :
      (sorter : Sorter) {xs ys : List A}
      → Permᴰ xs ys
      → map f (sorter.sort_slice (less_by f) xs) ≡ map f (sorter.sort_slice (less_by f) ys)
  sort_keys-perm sorter {xs} {ys} p =
      let weak = less_by-IsStrictWeak f in
      let left = sorter.sort_slice-perm (less_by f) xs in
      let right = sorter.sort_slice-perm (less_by f) ys in
      sorted_unique _ _ (map-IsSorted _ (sorter.sort_slice-IsSorted (less_by f) xs weak))
        (map-IsSorted _ (sorter.sort_slice-IsSorted (less_by f) ys weak))
        ∣ Permᴰ.map f (Permᴰ.trans left (Permᴰ.trans p (Permᴰ.symm right))) ∣₁

exchange : {B : Type 0} (us vs ws : List B) → Permᴰ (us ++ (vs ++ ws)) (vs ++ (us ++ ws))
exchange us vs ws =
    rw (← append_assoc us vs ws, ← append_assoc vs us ws)
      (Permᴰ.append_right ws (Permᴰ.append_comm us vs))

module _ {A B : Type 0} (f : A → List B) where
  unfoldable pub flat : List A → List B
  flat [] = []
  flat (x ∷ xs) = f x ++ flat xs

  pub flat-perm : {xs ys : List A} → Permᴰ xs ys → Permᴰ (flat xs) (flat ys)
  unfolding flat
  flat-perm Permᴰ.nil = Permᴰ.nil
  flat-perm (Permᴰ.cons {b = b} e p) = rw e (Permᴰ.append_left (f b) (flat-perm p))
  flat-perm (Permᴰ.swap {a' = a'} {b' = b'} {l = l} e e') =
      rw (e, e') (exchange (f b') (f a') (flat l))
  flat-perm (Permᴰ.trans p q) = Permᴰ.trans (flat-perm p) (flat-perm q)

-- Whether some element has a property does not depend on the order.
pub any-perm : {A : Type 0} (p : A → Bool) {xs ys : List A} → Permᴰ xs ys → any p xs ≡ any p ys
any-perm p Permᴰ.nil = refl
any-perm p (Permᴰ.cons e q) = rw (e, any-perm p q)
any-perm p (Permᴰ.swap e e') = rw (e, e') (ground arith)
any-perm p (Permᴰ.trans q r) = any-perm p q ∙ any-perm p r

-- Making unique by a key goes by the keys alone.
module _ {A : Type 0} (f : A → String) where
  dedup_from-map :
      (x : A) (ys : List A)
      → map f (dedup_from (λ a b. f a =s f b) x ys) ≡ dedup_from ◌=s◌ (f x) (map f ys)
  dedup_from-map x [] = simp dedup_from_nil
  dedup_from-map x (y ∷ ys) = elim (Bool-cases (f x =s f y)) [
    | inl e ↦
        rw
          (
            dedup_from_same (λ a b. f a =s f b) x y ys e,
            dedup_from_same ◌=s◌ (f x) (f y) (map f ys) e,
          )
          (dedup_from-map x ys)
    | inr e ↦
        rw
          (
            dedup_from_other (λ a b. f a =s f b) x y ys e,
            dedup_from_other ◌=s◌ (f x) (f y) (map f ys) e,
          )
          (ap (λ l. f y ∷ l) (dedup_from-map y ys))
  ]

  pub dedup-map : (xs : List A) → map f (dedup (λ a b. f a =s f b) xs) ≡ dedup ◌=s◌ (map f xs)
  unfolding dedup
  dedup-map [] = refl
  dedup-map (x ∷ xs) = ap (λ l. f x ∷ l) (dedup_from-map x xs)
