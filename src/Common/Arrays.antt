-- ===== src/Common/Arrays.antt =====
-- Slices that a loop writes to: indexing and stores that panic out of range, the counted loop, and
-- the loop that moves the elements it keeps to the front of its array.
use Prim.Native.Nat.{ℕ, zero, suc, ◌+◌, ◌<◌}
use mathlib.Core.Path.{◌≡◌, refl, ap, sym}
use mathlib.Core.Bool.{Bool, true, false}
use mathlib.Core.Logic.{inl, inr}
use mathlib.Core.Option.{Option, none, some}
use mathlib.Core.Option
use mathlib.Core.List.{List, [], ◌∷◌, ◌++◌, append_assoc}
use native.Mathlib.Omega.{arith}
use nghttpx_ingress_lb.Common.Cond.{if◌then◌else◌, Bool-cases}
use nghttpx_ingress_lb.Common.Lists.{length, get_elem?, take, length-append}
use nghttpx_ingress_lb.Common.Results.{Result, ok, err, panic, ◌>>=◌, or_panic}
use nghttpx_ingress_lb.Common.Sorting.Adjacent.{
  dedup_from, dedup, dedup_from_nil, dedup_from_same, dedup_from_other,
}

-- `for i := start; n rounds; i++ { s = body(i, s) }`
unfoldable pub for_range {ℓ} : {S : Type ℓ} → ℕ → ℕ → (ℕ → S → Result S) → S → Result S
for_range zero i body s = ok s
for_range (suc n) i body s = body i s >>= λ s'. for_range n (suc i) body s'

pub for_range-shift {ℓ} :
    {S : Type ℓ} (n i : ℕ) (body : ℕ → S → Result S) (s : S)
    → for_range n i (λ k. body (suc k)) s ≡ for_range n (suc i) body s
unfolding for_range
for_range-shift zero i body s = refl
for_range-shift (suc n) i body s =
    ap (λ k. body (suc i) s >>= k) (λ d s'. for_range-shift n (suc i) body s' d)

module _ {ℓ} {A : Type ℓ} where
  -- `xs[i]`
  abbrev pub index : List A → ℕ → Result A
  index xs i = or_panic (get_elem? xs i)

  abbrev pub set? : List A → ℕ → A → Option (List A)
  set? [] i v = none
  set? (x ∷ xs) zero v = some (v ∷ xs)
  set? (x ∷ xs) (suc i) v = Option.map (◌∷◌ x) (set? xs i v)

  -- `xs[i] = v`
  abbrev pub store : List A → ℕ → A → Result (List A)
  store xs i v = or_panic (set? xs i v)

  pub get_elem?-append :
      (xs : List A) (y : A) (ys : List A) → get_elem? (xs ++ y ∷ ys) (length xs) ≡ some y
  get_elem?-append [] y ys = refl
  get_elem?-append (x ∷ xs) y ys = get_elem?-append xs y ys

  pub set?-append :
      (xs : List A) (y : A) (ys : List A) (v : A)
      → set? (xs ++ y ∷ ys) (length xs) v ≡ some (xs ++ v ∷ ys)
  set?-append [] y ys v = refl
  set?-append (x ∷ xs) y ys v = rw (set?-append xs y ys v)

  pub take-middle :
      (xs : List A) (y : A) (ys : List A) → take (suc (length xs)) (xs ++ y ∷ ys) ≡ xs ++ y ∷ []
  take-middle [] y ys = refl
  take-middle (x ∷ xs) y ys = ap (◌∷◌ x) (take-middle xs y ys)

  pub take-append : (xs ys : List A) → take (length xs) (xs ++ ys) ≡ xs
  take-append [] ys = refl
  take-append (x ∷ xs) ys = ap (◌∷◌ x) (take-append xs ys)

-- `xs[:n]`, for `n` within the length
abbrev pub front {ℓ} : {A : Type ℓ} → Result (List A × ℕ) → Result (List A)
front (ok (a, p)) = ok (take (suc p) a)
front (err e) = err e
front panic = panic

-- One round of a loop that keeps `a[:p + 1]` free of neighbours that are the same: `a[i]` is skipped
-- if it is the same as `a[p]`, and is else moved to `a[p + 1]`, unless it stands there (`moves`).
module _ {A : Type 0} (same : A → A → Bool) (moves : ℕ → ℕ → Bool) where
  abbrev pub place : ℕ → ℕ → A → List A → Result (List A)
  place q i y a = if moves q i then store a q y else ok a

  abbrev pub compact_round : ℕ → List A × ℕ → Result (List A × ℕ)
  compact_round i (a, p) = index a p >>= λ x. index a i >>= λ y.
      if same x y then ok (a, p) else place (suc p) i y a >>= λ a'. ok (a', suc p)

  module _ (stays : (q : ℕ) → moves (suc q) (suc q) ≡ false)
      (goes : (q i : ℕ) → q < i → moves q i ≡ true) where
    -- the array in the middle of the loop: what is kept, its last element, what was passed over
    abbrev middle : List A → A → List A → List A → List A
    middle kept x gap rest = kept ++ x ∷ (gap ++ rest)

    index-middle :
        (kept gap rest : List A) (x y : A)
        → get_elem? (middle kept x gap (y ∷ rest)) (length kept + suc (length gap)) ≡ some y
    index-middle kept gap rest x y =
        let e = append_assoc kept (x ∷ gap) (y ∷ rest) in
        rw (← e) (rw (← length-append kept (x ∷ gap)) (get_elem?-append (kept ++ x ∷ gap) y rest))

    compact_same :
        (kept gap rest : List A) (x y : A)
        → same x y ≡ true
        → compact_round (length kept + suc (length gap)) (middle kept x gap (y ∷ rest), length kept)
          ≡ ok (middle kept x gap (y ∷ rest), length kept)
    compact_same kept gap rest x y e =
        rw (get_elem?-append kept x (gap ++ y ∷ rest), index-middle kept gap rest x y, e)

    place_adjacent :
        (kept rest : List A) (x y : A)
        → place (suc (length kept)) (length kept + 1) y (middle kept x [] (y ∷ rest))
          ≡ ok (middle (kept ++ x ∷ []) y [] rest)
    place_adjacent kept rest x y =
        let e : length kept + 1 ≡ suc (length kept) = omega arith in
        rw (e, stays) (ap ok (sym (append_assoc kept (x ∷ []) (y ∷ rest))))

    set?-after :
        (kept l : List A) (x g y : A)
        → set? (kept ++ x ∷ g ∷ l) (suc (length kept)) y ≡ some (kept ++ x ∷ y ∷ l)
    set?-after [] l x g y = refl
    set?-after (k ∷ kept) l x g y = rw (set?-after kept l x g y)

    place_apart :
        (kept gap rest : List A) (x g y : A)
        → place
            (suc (length kept))
            (length kept + suc (suc (length gap)))
            y
            (middle kept x (g ∷ gap) (y ∷ rest))
          ≡ ok (middle (kept ++ x ∷ []) y (gap ++ y ∷ []) rest)
    place_apart kept gap rest x g y =
        rw
          (
            goes (suc (length kept)) (length kept + suc (suc (length gap))) (omega arith),
            set?-after kept (gap ++ y ∷ rest) x g y,
          )
          (rw (append_assoc kept (x ∷ []) _, append_assoc gap (y ∷ []) rest))

    -- The array after a round that keeps `y`, with what was passed over.
    compact_other :
        (kept gap rest : List A) (x y : A)
        → same x y ≡ false
        → (gap' : List A) × (compact_round
              (length kept + suc (length gap))
              (middle kept x gap (y ∷ rest), length kept)
            ≡ ok (middle (kept ++ x ∷ []) y gap' rest, suc (length kept)))
          × (length gap' ≡ length gap)
    compact_other kept [] rest x y e = (
      [],
      rw (get_elem?-append kept x (y ∷ rest), index-middle kept [] rest x y, e)
          (rw (place_adjacent kept rest x y)),
      refl,
    )
    compact_other kept (g ∷ gap) rest x y e = (
      gap ++ y ∷ [],
      rw (get_elem?-append kept x (g ∷ gap ++ y ∷ rest), index-middle kept (g ∷ gap) rest x y, e)
          (rw (place_apart kept gap rest x g y)),
      omega (arith, length-append gap (y ∷ [])),
    )

    passed :
        (kept gap : List A) (y : A)
        → suc (length kept + suc (length gap)) ≡ length kept + suc (length (gap ++ y ∷ []))
    passed kept gap y = omega (arith, length-append gap (y ∷ []))

    length-snoc : (kept : List A) (x : A) → length (kept ++ x ∷ []) ≡ suc (length kept)
    length-snoc kept x = omega (arith, length-append kept (x ∷ []))

    moved :
        (kept gap gap' : List A) (x : A)
        → length gap' ≡ length gap
        → suc (length kept + suc (length gap)) ≡ suc (length kept) + suc (length gap')
    moved kept gap gap' x e = omega arith

    abbrev result_of : List A → List A → A → List A → Result (List A)
    result_of kept gap x rest = front (
        for_range (length rest) (length kept + suc (length gap)) compact_round
          (middle kept x gap rest, length kept))

    compact_loop :
        (rest kept gap : List A) (x : A)
        → result_of kept gap x rest ≡ ok (kept ++ x ∷ dedup_from same x rest)
    unfolding for_range
    compact_loop [] kept gap x = rw (dedup_from_nil same x) (ap ok (take-middle kept x (gap ++ [])))
    compact_loop (y ∷ rest) kept gap x = elim (Bool-cases (same x y)) [
      | inl e ↦
          rw
            (
              compact_same kept gap rest x y e,
              passed kept gap y,
              ← append_assoc gap (y ∷ []) rest,
              dedup_from_same same x y rest e,
            )
            (compact_loop rest kept (gap ++ y ∷ []) x)
      | inr e ↦
          let (gap', step, len) = compact_other kept gap rest x y e in
          rw (step, moved kept gap gap' x len, dedup_from_other same x y rest e)
            (rw (append_assoc kept (x ∷ []) (y ∷ dedup_from same y rest), length-snoc kept x) at
              (compact_loop rest (kept ++ x ∷ []) gap' y))
    ]

    -- From a whole array, the loop leaves in front what the plain recursion keeps.
    pub compact-dedup :
        (x : A) (rest : List A)
        → front (for_range (length rest) 1 compact_round (x ∷ rest, 0)) ≡ ok (dedup same (x ∷ rest))
    unfolding dedup
    compact-dedup x rest = compact_loop rest [] [] x
