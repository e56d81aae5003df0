-- ===== src/Controller/Upstreams/Unique/Laws.antt =====
-- The backends that an upstream is left with.
use mathlib.Core.List.{append_assoc}
use mathlib.Core.List.Perm
use mathlib.Core.List.Permᴰ
use nghttpx_ingress_lb.Common.{
  ◌-◌, ◌≡◌, ◌≢◌, refl, ap, ◌∙◌, sym, Bool, true, false, inl, inr, List, [], ◌∷◌, ◌++◌, arith,
  length, length-append, any, All, All-perm, ok, Bool-cases,
}
use nghttpx_ingress_lb.Common.Text.{eq_iff, eq_refl, str_lt_connex, str_lt_irrefl}
use nghttpx_ingress_lb.Common.Arrays.{index, get_elem?-append}
use nghttpx_ingress_lb.Common.Sorting.{Sorter, IsStrictlySorted}
use nghttpx_ingress_lb.Common.Sorting.Keys.{less_by_both-IsStrictWeak}
use nghttpx_ingress_lb.Common.Sorting.Adjacent.{
  dedup, dedup_from, dedup_from_nil, dedup_from_same, dedup_from_other, dedup-All, dedup_covers,
  dedup-IsStrictlySorted,
}
use nghttpx_ingress_lb.Nghttpx.Types.{UpstreamServer}
use nghttpx_ingress_lb.Controller.Upstreams.Unique.{
  same_endpoint, less_endpoint, uniq_loop, uniq_sorted, unique_backends,
}

last-snoc :
    (us : List UpstreamServer) (x : UpstreamServer)
    → index (us ++ x ∷ []) (length (us ++ x ∷ []) - 1) ≡ ok x
last-snoc us x =
    let e : length (us ++ x ∷ []) - 1 ≡ length us = omega (arith, length-append us (x ∷ [])) in
    rw (e, get_elem?-append us x [])

uniq_loop-dedup_from :
    (us : List UpstreamServer) (x : UpstreamServer) (rest : List UpstreamServer)
    → uniq_loop (us ++ x ∷ []) rest ≡ ok (us ++ x ∷ dedup_from same_endpoint x rest)
unfolding uniq_loop
uniq_loop-dedup_from us x [] = rw dedup_from_nil
uniq_loop-dedup_from us x (y ∷ rest) = elim (Bool-cases (same_endpoint x y)) [
  | inl e ↦
      rw (last-snoc us x, e, dedup_from_same same_endpoint x y rest e)
        (uniq_loop-dedup_from us x rest)
  | inr e ↦
      rw (last-snoc us x, e, dedup_from_other same_endpoint x y rest e)
        (uniq_loop-dedup_from (us ++ x ∷ []) y rest
          ∙ ap ok (append_assoc us (x ∷ []) (y ∷ dedup_from same_endpoint y rest)))
]

-- What is left of a list of backends: each address and port once, in ascending order, all of them
-- from the list, and every address and port of the list.
pub record IsUniqueOf (backends unique : List UpstreamServer) : Type 0 where
  pub ascending : IsStrictlySorted less_endpoint unique
  pub kept :
      (P : UpstreamServer → Bool) → All (λ s. P s ≡ true) backends → All (λ s. P s ≡ true) unique
  pub covers : All (λ s. any (λ t. same_endpoint t s) unique ≡ true) backends

same_endpoint_refl : (s : UpstreamServer) → same_endpoint s s ≡ true
same_endpoint_refl s = rw (eq_refl s.address, eq_refl s.port)

endpoint_connex :
    (x y : UpstreamServer)
    → same_endpoint x y ≡ false
    → less_endpoint y x ≡ false
    → less_endpoint x y ≡ true
endpoint_connex x y h k = ground (
  arith,
  eq_iff x.address y.address,
  eq_iff y.address x.address,
  eq_iff x.port y.port,
  str_lt_connex x.address y.address,
  str_lt_connex x.port y.port,
)

same_endpoint_le : (x y : UpstreamServer) → same_endpoint x y ≡ true → less_endpoint y x ≡ false
same_endpoint_le x y h = ground (
  arith,
  eq_iff x.address y.address,
  eq_iff x.port y.port,
  str_lt_irrefl x.address,
  str_lt_irrefl x.port,
)

uniq_sorted-dedup : (l : List UpstreamServer) → l ≢ [] → uniq_sorted l ≡ ok (dedup same_endpoint l)
unfolding uniq_sorted dedup
uniq_sorted-dedup [] h = absurd (h refl)
uniq_sorted-dedup (x ∷ rest) h = uniq_loop-dedup_from [] x rest

module _ (sorter : Sorter) where
  sort_slice-ne-nil :
      (backends : List UpstreamServer)
      → backends ≢ []
      → sorter.sort_slice less_endpoint backends ≢ []
  sort_slice-ne-nil backends h e =
      h (sym (Perm.nil-eq ∣ rw e at (sorter.sort_slice-perm less_endpoint backends) ∣₁))

  unique_backends-dedup :
      (backends : List UpstreamServer)
      → backends ≢ []
      → unique_backends sorter backends
        ≡ ok (dedup same_endpoint (sorter.sort_slice less_endpoint backends))
  unfolding unique_backends
  unique_backends-dedup backends h = uniq_sorted-dedup _ (sort_slice-ne-nil backends h)

  dedup_sorted-IsUniqueOf :
      (backends : List UpstreamServer)
      → IsUniqueOf backends (dedup same_endpoint (sorter.sort_slice less_endpoint backends))
  dedup_sorted-IsUniqueOf backends =
      let sorted = sorter.sort_slice less_endpoint backends in
      let perm = sorter.sort_slice-perm less_endpoint backends in
      let weak = less_by_both-IsStrictWeak (λ (s : UpstreamServer). s.address) (λ s. s.port) in
      record {
        ascending =
            dedup-IsStrictlySorted same_endpoint less_endpoint weak endpoint_connex same_endpoint_le
              sorted (sorter.sort_slice-IsSorted less_endpoint backends weak);
        kept = λ P h.
            dedup-All same_endpoint (λ s. P s ≡ true) sorted (All-perm (λ s. P s ≡ true) perm h);
        covers =
            All-perm (λ s. any (λ t. same_endpoint t s) (dedup same_endpoint sorted) ≡ true)
              (Permᴰ.symm perm) (dedup_covers same_endpoint same_endpoint_refl sorted);
      }

  -- On a non-empty list of backends the last loop of `getUpstreamServers` does not panic: it sorts the
  -- backends by address and port and keeps each pair of an address and a port once, losing none.
  pub unique_backends-IsUniqueOf :
      (backends : List UpstreamServer)
      → backends ≢ []
      → (unique : List UpstreamServer) × (unique_backends sorter backends ≡ ok unique)
        × IsUniqueOf backends unique
  unique_backends-IsUniqueOf backends h =
      (_, unique_backends-dedup backends h, dedup_sorted-IsUniqueOf backends)

-- Something is left of a non-empty list.
pub IsUniqueOf-ne-nil :
    (backends unique : List UpstreamServer)
    → backends ≢ []
    → IsUniqueOf backends unique
    → unique ≢ []
IsUniqueOf-ne-nil [] unique h u e = h refl
IsUniqueOf-ne-nil (b ∷ bs) [] h u e = let c : false ≡ true = u.covers.0 in cc
IsUniqueOf-ne-nil (b ∷ bs) (x ∷ xs) h u e = cc
