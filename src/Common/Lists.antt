-- ===== src/Common/Lists.antt =====
-- Lists measured and indexed by native numbers, under the library's names, and predicates on them.
use Prim.Native.Nat.{ℕ, zero, suc, ◌+◌}
use mathlib.Core.Path.{◌≡◌, refl, sym, subst}
use mathlib.Core.Bool.{Bool, true, false, ◌||◌}
use mathlib.Core.Logic.{Lift, ◌↔◌, inl, inr}
use nghttpx_ingress_lb.Common.Cond.{Bool-cases}
use mathlib.Core.List.{List, [], ◌∷◌, ◌++◌, Permᴰ, Memᴰ}
use mathlib.Core.Option.{Option, none, some}
use native.Mathlib.Omega.{arith}

module _ {ℓ} {A : Type ℓ} where
  abbrev pub length : List A → ℕ
  length [] = 0
  length (x ∷ xs) = suc (length xs)

  abbrev pub get_elem? : List A → ℕ → Option A
  get_elem? [] i = none
  get_elem? (x ∷ xs) zero = some x
  get_elem? (x ∷ xs) (suc i) = get_elem? xs i

  abbrev pub set : List A → ℕ → A → List A
  set [] i v = []
  set (x ∷ xs) zero v = v ∷ xs
  set (x ∷ xs) (suc i) v = x ∷ set xs i v

  abbrev pub take : ℕ → List A → List A
  take zero xs = []
  take (suc n) [] = []
  take (suc n) (x ∷ xs) = x ∷ take n xs

  abbrev pub any : (A → Bool) → List A → Bool
  any p [] = false
  any p (x ∷ xs) = p x || any p xs

  pub length-append : (xs ys : List A) → length (xs ++ ys) ≡ length xs + length ys
  length-append [] ys = omega arith
  length-append (x ∷ xs) ys = omega (arith, length-append xs ys)

-- A predicate of every element, by recursion, so that it computes to tuples.
abbrev pub All {ℓ κ} : {A : Type ℓ} → (A → Type κ) → List A → Type κ
All P [] = Unit
All P (x ∷ xs) = P x × All P xs

module _ {ℓ κ} {A : Type ℓ} (P : A → Type κ) where
  pub All-append : (xs ys : List A) → All P xs → All P ys → All P (xs ++ ys)
  All-append [] ys hx hy = hy
  All-append (x ∷ xs) ys hx hy = (hx.0, All-append xs ys hx.1 hy)

  pub All-perm : {xs ys : List A} → Permᴰ xs ys → All P ys → All P xs
  All-perm Permᴰ.nil h = tt
  All-perm (Permᴰ.cons e p) h = (subst P (sym e) h.0, All-perm p h.1)
  All-perm (Permᴰ.swap e e') h = (subst P (sym e) h.1.0, (subst P (sym e') h.0, h.1.1))
  All-perm (Permᴰ.trans p q) h = All-perm p (All-perm q h)

pub All-map {ℓ κ κ'} :
    {A : Type ℓ} {P : A → Type κ} {Q : A → Type κ'} (xs : List A)
    → ((x : A) → P x → Q x)
    → All P xs
    → All Q xs
All-map [] f h = tt
All-map (x ∷ xs) f h = (f x h.0, All-map xs f h.1)

-- Every element of a list is a member of it.
pub All-mem {ℓ} : {A : Type ℓ} (xs : List A) → All (λ x. Memᴰ x xs) xs
All-mem [] = tt
All-mem (x ∷ xs) = (Memᴰ.head refl, All-map xs (λ y m. Memᴰ.tail m) (All-mem xs))

-- No value at any level.
abbrev pub Absent {κ} : Type κ
Absent = Lift ⊥

-- Two lists of one length whose elements are related pairwise.
abbrev pub All₂ {ℓ ℓ' κ} : {A : Type ℓ} {B : Type ℓ'} → (A → B → Type κ) → List A → List B → Type κ
All₂ R [] [] = Unit
All₂ R [] (y ∷ ys) = Absent
All₂ R (x ∷ xs) [] = Absent
All₂ R (x ∷ xs) (y ∷ ys) = R x y × All₂ R xs ys

module _ {ℓ ℓ' κ} {A : Type ℓ} {B : Type ℓ'} (R : A → B → Type κ) where
  pub All₂-right :
      (xs : List A) (ys : List B) → All₂ R xs ys → All (λ y. (x : A) × Memᴰ x xs × R x y) ys
  All₂-right [] [] h = tt
  All₂-right [] (y ∷ ys) h = absurd h.lower
  All₂-right (x ∷ xs) [] h = absurd h.lower
  All₂-right (x ∷ xs) (y ∷ ys) h =
      ((x, Memᴰ.head refl, h.0), All-map ys later (All₂-right xs ys h.1))
    where
      later : (z : B) → (w : A) × Memᴰ w xs × R w z → (w : A) × Memᴰ w (x ∷ xs) × R w z
      later z (w, m, r) = (w, Memᴰ.tail m, r)

  pub All₂-left :
      (xs : List A) (ys : List B) → All₂ R xs ys → All (λ x. (y : B) × Memᴰ y ys × R x y) xs
  All₂-left [] [] h = tt
  All₂-left [] (y ∷ ys) h = absurd h.lower
  All₂-left (x ∷ xs) [] h = absurd h.lower
  All₂-left (x ∷ xs) (y ∷ ys) h = ((y, Memᴰ.head refl, h.0), All-map xs later (All₂-left xs ys h.1))
    where
      later : (z : A) → (w : B) × Memᴰ w ys × R z w → (w : B) × Memᴰ w (y ∷ ys) × R z w
      later z (w, m, r) = (w, Memᴰ.tail m, r)

pub All-apply {ℓ κ} :
    {A : Type ℓ} (P : A → Type κ) (xs : List A) → All P xs → (x : A) → Memᴰ x xs → P x
All-apply P [] h x m = elim m [ ]
All-apply P (y ∷ ys) h x (Memᴰ.head e) = subst P (sym e) h.0
All-apply P (y ∷ ys) h x (Memᴰ.tail m) = All-apply P ys h.1 x m

module _ {ℓ} {A : Type ℓ} (p : A → Bool) where
  any-found : (l : List A) → any p l ≡ true → (a : A) × Memᴰ a l × (p a ≡ true)
  any-found [] e = cc
  any-found (x ∷ xs) e = elim (Bool-cases (p x)) [
    | inl h ↦ (x, Memᴰ.head refl, h)
    | inr h ↦ let (a, m, k) = any-found xs (rw h at e) in (a, Memᴰ.tail m, k)
  ]

  found-any : (l : List A) (a : A) → Memᴰ a l → p a ≡ true → any p l ≡ true
  found-any [] a m e = elim m [ ]
  found-any (x ∷ xs) a (Memᴰ.head k) e = let h : p x ≡ true = rw (← k) e in rw h refl
  found-any (x ∷ xs) a (Memᴰ.tail m) e =
      let h = found-any xs a m e in elim (Bool-cases (p x)) [ inl k ↦ rw k refl | inr k ↦ rw k h ]

  -- `any` finds a member.
  pub any_iff : (l : List A) → (any p l ≡ true) ↔ ((a : A) × Memᴰ a l × (p a ≡ true))
  any_iff l = (any-found l, λ (a, m, e). found-any l a m e)
