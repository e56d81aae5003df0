-- ===== src/Controller/Addresses/Laws.antt =====
-- What the list that is written to the status has in it, and what is left when an address is removed.
use mathlib.Core.List.Permᴰ
use nghttpx_ingress_lb.Common.{
  suc, String, ◌≡◌, ◌↔◌, refl, sym, ap, ◌∙◌, inl, inr, true, false, List, [], ◌∷◌, map, length,
  ◌==◌, any, All, All-perm, arith, ok, Bool-cases,
}
use nghttpx_ingress_lb.Common.Text.{eq_iff, eq_refl, str_lt_connex, str_lt_irrefl}
use nghttpx_ingress_lb.Common.Arrays.{compact-dedup}
use nghttpx_ingress_lb.Common.Sorting.{Sorter, IsStrictlySorted}
use nghttpx_ingress_lb.Common.Sorting.Keys.{less_by_both-IsStrictWeak}
use nghttpx_ingress_lb.Common.Sorting.Adjacent.{dedup, dedup_covers, dedup-IsStrictlySorted}
use nghttpx_ingress_lb.Api.{LoadBalancerIngress}
use nghttpx_ingress_lb.Controller.Addresses.{
  ips_equal, load_balancer_ingresses_ip_equal, less_address, sort_load_balancer_ingress,
  same_address, moves, uniq_load_balancer_ingress,
}

abbrev pub ip_of : LoadBalancerIngress → String
ip_of a = a.ip

ips_equal_iff :
    (a b : List LoadBalancerIngress)
    → length a ≡ length b
    → (ips_equal a b ≡ true) ↔ (map ip_of a ≡ map ip_of b)
unfolding ips_equal
ips_equal_iff [] [] h = ((λ e. refl), λ e. refl)
ips_equal_iff [] (y ∷ ys) h = ground arith
ips_equal_iff (x ∷ xs) [] h = ground arith
ips_equal_iff (x ∷ xs) (y ∷ ys) h =
    ground (arith, ips_equal_iff xs ys (omega arith), eq_iff x.ip y.ip)

length-map : (a : List LoadBalancerIngress) → length (map ip_of a) ≡ length a
length-map [] = refl
length-map (x ∷ xs) = ap suc (length-map xs)

-- `loadBalancerIngressesIPEqual` compares the lists of IP addresses; the host names do not count.
pub load_balancer_ingresses_ip_equal_iff :
    (a b : List LoadBalancerIngress)
    → (load_balancer_ingresses_ip_equal a b ≡ true) ↔ (map ip_of a ≡ map ip_of b)
unfolding load_balancer_ingresses_ip_equal
load_balancer_ingresses_ip_equal_iff a b = elim (Bool-cases (length a == length b)) [
  | inl e ↦ rw e (ips_equal_iff a b (ground arith))
  | inr e ↦ rw e (
    λ k. cc,
    λ k.
        let n : length a ≡ length b = sym (length-map a) ∙ (ap length k ∙ length-map b) in
        ground arith,
  )
]

address_connex :
    (x y : LoadBalancerIngress)
    → same_address x y ≡ false
    → less_address y x ≡ false
    → less_address x y ≡ true
address_connex x y h k = ground (
  arith,
  eq_iff x.ip y.ip,
  eq_iff y.ip x.ip,
  eq_iff x.hostname y.hostname,
  str_lt_connex x.ip y.ip,
  str_lt_connex x.hostname y.hostname,
)

same_address_le : (x y : LoadBalancerIngress) → same_address x y ≡ true → less_address y x ≡ false
same_address_le x y h = ground (
  arith,
  eq_iff x.ip y.ip,
  eq_iff x.hostname y.hostname,
  str_lt_irrefl x.ip,
  str_lt_irrefl x.hostname,
)

uniq-dedup :
    (a : List LoadBalancerIngress) → uniq_load_balancer_ingress a ≡ ok (dedup same_address a)
unfolding uniq_load_balancer_ingress dedup
uniq-dedup [] = refl
uniq-dedup (x ∷ rest) =
    compact-dedup same_address moves (λ q. ground arith) (λ q i h. ground arith) x rest

-- Sorted and made unique, as `getNodeIPAndUpdateIngress` does it, a list of addresses is strictly
-- ascending by IP and host name, and has every address of the list; neither step panics.
pub uniq-sort_load_balancer_ingress :
    (sorter : Sorter) (a : List LoadBalancerIngress)
    → (unique : List LoadBalancerIngress) × (uniq_load_balancer_ingress
          (sort_load_balancer_ingress sorter a)
        ≡ ok unique)
      × IsStrictlySorted less_address unique
      × All (λ x. any (λ y. same_address y x) unique ≡ true) a
unfolding sort_load_balancer_ingress
uniq-sort_load_balancer_ingress sorter a =
    let sorted = sorter.sort_slice less_address a in
    let weak = less_by_both-IsStrictWeak (λ (x : LoadBalancerIngress). x.ip) (λ x. x.hostname) in
    (
      dedup same_address sorted,
      uniq-dedup sorted,
      dedup-IsStrictlySorted same_address less_address weak address_connex same_address_le sorted
          (sorter.sort_slice-IsSorted less_address a weak),
      All-perm (λ x. any (λ y. same_address y x) (dedup same_address sorted) ≡ true)
          (Permᴰ.symm (sorter.sort_slice-perm less_address a))
          (dedup_covers same_address (λ x. rw (eq_refl x.ip, eq_refl x.hostname)) sorted),
    )
