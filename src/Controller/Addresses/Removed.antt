-- ===== src/Controller/Addresses/Removed.antt =====
-- The in-place loop of `removeAddressFromLoadBalancerIngress` against the plain filter.
use mathlib.Core.List.{append_assoc, append-nil}
use nghttpx_ingress_lb.Common.{
  All, ◌≤◌, suc, ◌+◌, String, ◌≡◌, refl, ap, ◌∙◌, inl, inr, true, false, List, [], ◌∷◌, ◌++◌,
  length, length-append, arith, Result, ok, Bool-cases, if◌then◌else◌, get_elem?, some,
}
use nghttpx_ingress_lb.Common.Arrays.{for_range, get_elem?-append, set?-append, take-append}
use nghttpx_ingress_lb.Api.{LoadBalancerIngress}
use nghttpx_ingress_lb.Controller.Addresses.{
  moves, is_address, front_of, remove_round, remove_address_from_load_balancer_ingress,
}

-- The addresses that are not `addr`, neither as IP nor as host name, in their order.
abbrev pub without : String → List LoadBalancerIngress → List LoadBalancerIngress
without addr [] = []
without addr (x ∷ xs) = if is_address addr x then without addr xs else x ∷ without addr xs

module _ (addr : String) where
  -- the array in the middle of the loop: what is kept, what was passed over, what is left
  abbrev middle :
      List LoadBalancerIngress
      → List LoadBalancerIngress
      → List LoadBalancerIngress
      → List LoadBalancerIngress
  middle kept gap rest = kept ++ (gap ++ rest)

  get_elem?-middle :
      (kept gap rest : List LoadBalancerIngress) (x : LoadBalancerIngress)
      → get_elem? (middle kept gap (x ∷ rest)) (length kept + length gap) ≡ some x
  get_elem?-middle kept gap rest x =
      rw (← append_assoc kept gap (x ∷ rest))
        (rw (← length-append kept gap) (get_elem?-append (kept ++ gap) x rest))

  round_skips :
      (kept gap rest : List LoadBalancerIngress) (x : LoadBalancerIngress)
      → is_address addr x ≡ true
      → remove_round addr (length kept + length gap) (middle kept gap (x ∷ rest), length kept)
        ≡ ok (middle kept (gap ++ x ∷ []) rest, length kept)
  unfolding remove_round
  round_skips kept gap rest x e =
      rw (get_elem?-middle kept gap rest x, e) (rw (append_assoc gap (x ∷ []) rest))

  round_keeps :
      (kept gap rest : List LoadBalancerIngress) (x : LoadBalancerIngress)
      → is_address addr x ≡ false
      → (gap' : List LoadBalancerIngress) × (remove_round addr
            (length kept + length gap)
            (middle kept gap (x ∷ rest), length kept)
          ≡ ok (middle (kept ++ x ∷ []) gap' rest, length kept + 1))
        × (length gap' ≡ length gap)
  unfolding remove_round
  round_keeps kept [] rest x e =
      let same : moves (length kept) (length kept + 0) ≡ false = ground arith in
      (
        [],
        rw (get_elem?-middle kept [] rest x, e) (rw same (rw (append_assoc kept (x ∷ []) rest))),
        refl,
      )
  round_keeps kept (g ∷ gap) rest x e =
      let other : moves (length kept) (length kept + suc (length gap)) ≡ true = ground arith in
      (
        gap ++ x ∷ [],
        rw (get_elem?-middle kept (g ∷ gap) rest x, e)
            (rw (other, set?-append kept g (gap ++ x ∷ rest) x)
              (rw (append_assoc kept (x ∷ []), append_assoc gap (x ∷ []) rest))),
        omega (arith, length-append gap (x ∷ [])),
      )

  abbrev result_of :
      List LoadBalancerIngress
      → List LoadBalancerIngress
      → List LoadBalancerIngress
      → Result (List LoadBalancerIngress)
  result_of kept gap rest = front_of (
      for_range (length rest) (length kept + length gap) (remove_round addr)
        (middle kept gap rest, length kept))

  remove_loop :
      (rest kept gap : List LoadBalancerIngress)
      → result_of kept gap rest ≡ ok (kept ++ without addr rest)
  unfolding for_range
  remove_loop [] kept gap = rw (take-append kept (gap ++ []), append-nil kept)
  remove_loop (x ∷ rest) kept gap = elim (Bool-cases (is_address addr x)) [
    | inl e ↦
        let i : suc (length kept + length gap) ≡ length kept + length (gap ++ x ∷ []) =
          omega (arith, length-append gap (x ∷ [])) in
        rw (round_skips kept gap rest x e) (rw (i, e) (remove_loop rest kept (gap ++ x ∷ [])))
    | inr e ↦
        let (gap', step, len) = round_keeps kept gap rest x e in
        let n : length kept + 1 ≡ length (kept ++ x ∷ []) =
          omega (arith, length-append kept (x ∷ [])) in
        let i : suc (length kept + length gap) ≡ length (kept ++ x ∷ []) + length gap' =
          omega (arith, length-append kept (x ∷ [])) in
        rw step (
          rw (i, n, e)
            (remove_loop rest (kept ++ x ∷ []) gap' ∙ ap ok (append_assoc kept (x ∷ []) _)))
  ]

-- `removeAddressFromLoadBalancerIngress` stays within the array, and returns the addresses whose IP
-- and host name are both other than the one given, in their order.
pub remove_address_from_load_balancer_ingress-without :
    (a : List LoadBalancerIngress) (addr : String)
    → remove_address_from_load_balancer_ingress a addr ≡ ok (without addr a)
unfolding remove_address_from_load_balancer_ingress
remove_address_from_load_balancer_ingress-without a addr = remove_loop addr a [] []

-- No entry of the list is the address.
abbrev pub FreeOf : String → List LoadBalancerIngress → Type 0
FreeOf addr l = All (λ x. is_address addr x ≡ false) l

pub without-FreeOf : (addr : String) (l : List LoadBalancerIngress) → FreeOf addr (without addr l)
without-FreeOf addr [] = tt
without-FreeOf addr (x ∷ l) = elim (Bool-cases (is_address addr x)) [
  | inl e ↦ rw e (without-FreeOf addr l)
  | inr e ↦ rw e (e, without-FreeOf addr l)
]

without_le : (addr : String) (l : List LoadBalancerIngress) → length (without addr l) ≤ length l
without_le addr [] = omega arith
without_le addr (x ∷ l) = elim (Bool-cases (is_address addr x)) [
  | inl e ↦ rw e (omega (arith, without_le addr l))
  | inr e ↦ rw e (omega (arith, without_le addr l))
]

pub length-without-FreeOf :
    (addr : String) (l : List LoadBalancerIngress)
    → length l ≡ length (without addr l)
    → FreeOf addr l
length-without-FreeOf addr [] h = tt
length-without-FreeOf addr (x ∷ l) h = elim (Bool-cases (is_address addr x)) [
  | inl e ↦
      let h' : suc (length l) ≡ length (without addr l) = rw e at h in
      let none_left : ⊥ = omega (arith, without_le addr l) in elim none_left [ ]
  | inr e ↦
      let h' : suc (length l) ≡ suc (length (without addr l)) = rw e at h in
      (e, length-without-FreeOf addr l (omega arith))
]
