-- ===== src/Controller/Status/Preferred.antt =====
-- The address of a pod: which of its node's addresses `getPodAddress` takes.
use mathlib.Core.Option.{some-injective}
use nghttpx_ingress_lb.Common.{
  String, ◌≡◌, ◌↔◌, refl, ap, ◌∙◌, inl, inr, Bool, true, false, Option, none, some, List, [], ◌∷◌,
  ◌&&◌, not, Try, failed, got, got_injective, arith, Bool-cases, if◌then◌else◌,
}
use nghttpx_ingress_lb.Common.Text.{◌=s◌, eq_iff}
use nghttpx_ingress_lb.Api.{NodeAddress, Node, Pod}
use nghttpx_ingress_lb.Controller.Env.{LoadBalancerController, Caches}
use nghttpx_ingress_lb.Controller.Status.{
  is_fallback, external_ip, node_loop, node_address, found_node, get_pod_address,
}

-- The first address that is not empty and is of the kind asked for.
abbrev pub first_of : (NodeAddress → Bool) → List NodeAddress → Option String
first_of p [] = none
first_of p (a ∷ rest) = if p a && not (a.address =s "") then some a.address else first_of p rest

abbrev pub is_external : NodeAddress → Bool
is_external a = a.kind =s external_ip

abbrev or_text : Option String → String → String
or_text none d = d
or_text (some a) d = a

abbrev pub or_else : Option String → Option String → Option String
or_else none b = b
or_else (some a) b = some a

-- An address that is not external, in front of what the rest of the list gives.
fallback_step :
    (ip address : String) (f : Bool) (e r : Option String)
    → or_text e (
        if (if ip =s "" && f then address else ip) =s ""
        then or_text r (if ip =s "" && f then address else ip)
        else if ip =s "" && f
        then address
        else ip)
      ≡ or_text e (
          if ip =s ""
          then or_text (if f && not (address =s "") then some address else r) ip
          else ip)
fallback_step ip address f (some x) r = refl
fallback_step ip address false none r = ground arith
fallback_step ip address true none none = ground (arith, eq_iff ip "", eq_iff address "")
fallback_step ip address true none (some x) = ground (arith, eq_iff ip "", eq_iff address "")

abbrev texted : String → String → Try String
texted m ip = if ip =s "" then failed m else got ip

texted_iff :
    (m x : String) (o : Option String)
    → ((y : String) → o ≡ some y → (y =s "") ≡ false)
    → (texted m (or_text o "") ≡ got x) ↔ (o ≡ some x)
texted_iff m x none f = (λ h. cc, λ h. cc)
texted_iff m x (some y) f =
    rw (f y refl) (λ h. ap some (got_injective h), λ h. ap got (some-injective _ _ h))

or_text-or_else : (e r : Option String) → or_text e (or_text r "") ≡ or_text (or_else e r) ""
or_text-or_else none r = refl
or_text-or_else (some x) r = refl

module _ (cache : Caches) (lbc : LoadBalancerController) where
  -- An external address if there is one, and else one that the configuration lets stand in for it.
  abbrev pub preferred : List NodeAddress → Option String
  preferred l = or_else (first_of is_external l) (first_of (is_fallback cache lbc) l)

  external_not_fallback : (a : NodeAddress) → is_external a ≡ true → is_fallback cache lbc a ≡ false
  external_not_fallback a e = rw ((eq_iff a.kind external_ip).0 e) (ground arith)

  node_loop-first_of :
      (ip : String) (l : List NodeAddress)
      → node_loop cache lbc ip l
        ≡ or_text
            (first_of is_external l)
            (if ip =s "" then or_text (first_of (is_fallback cache lbc) l) ip else ip)
  unfolding node_loop
  node_loop-first_of ip [] = ground arith
  node_loop-first_of ip (a ∷ rest) = elim (Bool-cases (is_external a)) [
    | inl e ↦ rw (e, external_not_fallback a e) (ground (arith, node_loop-first_of ip rest))
    | inr e ↦ rw e (
        node_loop-first_of (if ip =s "" && is_fallback cache lbc a then a.address else ip) rest
        ∙ fallback_step ip a.address (is_fallback cache lbc a) (first_of is_external rest)
            (first_of (is_fallback cache lbc) rest))
  ]

  first_of-ne :
      (p : NodeAddress → Bool) (l : List NodeAddress) (x : String)
      → first_of p l ≡ some x
      → (x =s "") ≡ false
  first_of-ne p [] x h = cc
  first_of-ne p (a ∷ rest) x h = ground (arith, first_of-ne p rest x)

  preferred-ne : (l : List NodeAddress) (x : String) → preferred l ≡ some x → (x =s "") ≡ false
  preferred-ne l x = of (first_of is_external l) (first_of-ne is_external l)
    where
      of :
          (e : Option String)
          → ((y : String) → e ≡ some y → (y =s "") ≡ false)
          → or_else e (first_of (is_fallback cache lbc) l) ≡ some x
          → (x =s "") ≡ false
      of none f h = first_of-ne (is_fallback cache lbc) l x h
      of (some y) f h = f x h

  node_address_iff :
      (node : Node) (x : String)
      → (node_address cache lbc node ≡ got x) ↔ (preferred node.addresses ≡ some x)
  unfolding node_address
  node_address_iff node x =
      rw
        (node_loop-first_of "" node.addresses
          ∙ or_text-or_else (first_of is_external node.addresses)
              (first_of (is_fallback cache lbc) node.addresses))
        (texted_iff _ x (preferred node.addresses) (preferred-ne node.addresses))

  -- `getPodAddress` returns an address exactly if the pod's node is in the cache and the address is the
  -- first external one of the node that is not empty, or, where it has none, the first of its internal
  -- addresses, if these are allowed, and its legacy host addresses that is not empty.
  pub get_pod_address-eq-got_iff :
      (pod : Pod) (x : String)
      → (get_pod_address cache lbc pod ≡ got x) ↔ (
          (node : Node) × (cache.node pod.node_name ≡ got (some node))
          × (preferred node.addresses ≡ some x))
  unfolding get_pod_address found_node
  get_pod_address-eq-got_iff pod x = of (cache.node pod.node_name)
    where
      of :
          (t : Try (Option Node))
          → (found_node cache lbc pod t ≡ got x)
            ↔ ((node : Node) × (t ≡ got (some node)) × (preferred node.addresses ≡ some x))
      of (failed e) = (λ h. cc, λ (node, h, k). cc)
      of (got none) = (λ h. cc, λ (node, h, k). cc)
      of (got (some node)) = (
        λ h. (node, refl, (node_address_iff node x).0 h),
        λ (node', h, k). (node_address_iff node x).1 (rw (some-injective _ _ (got_injective h)) k),
      )
