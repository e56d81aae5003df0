-- ===== src/Controller/Addresses.antt =====
-- The lists of load balancer addresses, of pkg/controller/util.go.
pub mod Laws
pub mod Removed
use nghttpx_ingress_lb.Common.{
  ◌+◌, ℕ, String, Bool, true, false, List, [], ◌∷◌, length, not, ◌==◌, ◌&&◌, ◌||◌, Result, ok, err,
  panic, ◌>>=◌, if◌then◌else◌, take,
}
use nghttpx_ingress_lb.Common.Text.{◌=s◌}
use nghttpx_ingress_lb.Common.Arrays.{for_range, index, store, front, compact_round}
use nghttpx_ingress_lb.Common.Sorting.{Sorter}
use nghttpx_ingress_lb.Common.Sorting.Keys.{less_by_both}
use nghttpx_ingress_lb.Api.{LoadBalancerIngress}

-- `a[i].IP != b[i].IP`, for `i` below the length of both
ips_equal : List LoadBalancerIngress → List LoadBalancerIngress → Bool
ips_equal [] ys = true
ips_equal (x ∷ xs) [] = false
ips_equal (x ∷ xs) (y ∷ ys) = if not (x.ip =s y.ip) then false else ips_equal xs ys

unfoldable pub load_balancer_ingresses_ip_equal :
    List LoadBalancerIngress → List LoadBalancerIngress → Bool
unfolding ips_equal
load_balancer_ingresses_ip_equal a b = if not (length a == length b) then false else ips_equal a b

abbrev pub less_address : LoadBalancerIngress → LoadBalancerIngress → Bool
less_address = less_by_both (λ a. a.ip) (λ a. a.hostname)

unfoldable pub sort_load_balancer_ingress :
    Sorter → List LoadBalancerIngress → List LoadBalancerIngress
sort_load_balancer_ingress sorter a = sorter.sort_slice less_address a

abbrev pub same_address : LoadBalancerIngress → LoadBalancerIngress → Bool
same_address a b = a.ip =s b.ip && a.hostname =s b.hostname

-- The loop moves `a[i]` to `a[p]` where they are not one place.
abbrev pub moves : ℕ → ℕ → Bool
moves p i = not (p == i)

unfoldable pub uniq_load_balancer_ingress :
    List LoadBalancerIngress → Result (List LoadBalancerIngress)
uniq_load_balancer_ingress [] = ok []
uniq_load_balancer_ingress (x ∷ rest) =
    front (for_range (length rest) 1 (compact_round same_address moves) (x ∷ rest, 0))

abbrev pub is_address : String → LoadBalancerIngress → Bool
is_address addr x = x.ip =s addr || x.hostname =s addr

-- One round of the loop of `removeAddressFromLoadBalancerIngress`, with the array and `p`.
remove_round : String → ℕ → List LoadBalancerIngress × ℕ → Result (List LoadBalancerIngress × ℕ)
remove_round addr i (a, p) = index a i >>= λ x.
    if is_address addr x
    then ok (a, p)
    else (if moves p i then store a p x else ok a) >>= λ a'. ok (a', p + 1)

abbrev front_of : Result (List LoadBalancerIngress × ℕ) → Result (List LoadBalancerIngress)
front_of (ok (a, p)) = ok (take p a)
front_of (err e) = err e
front_of panic = panic

unfoldable pub remove_address_from_load_balancer_ingress :
    List LoadBalancerIngress → String → Result (List LoadBalancerIngress)
unfolding remove_round
remove_address_from_load_balancer_ingress a addr =
    front_of (for_range (length a) 0 (remove_round addr) (a, 0))
