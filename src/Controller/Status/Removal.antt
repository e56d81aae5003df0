-- ===== src/Controller/Status/Removal.antt =====
-- What `removeAddressFromLoadBalancerIngress` of the controller leaves in the status of the ingresses.
use mathlib.Core.List.{Memᴰ}
use nghttpx_ingress_lb.Common.{
  String, ◌≡◌, inl, inr, refl, ap, ◌∙◌, true, false, some, List, [], ◌∷◌, ◌==◌, length, ok, Try,
  failed, got, arith, Bool-cases, ok_injective,
}
use nghttpx_ingress_lb.Common.Text.{eq_refl}
use nghttpx_ingress_lb.Api.{Pod, Ingress, LoadBalancerIngress}
use nghttpx_ingress_lb.Controller.Env.{LoadBalancerController, Caches}
use nghttpx_ingress_lb.Controller.Annotation.{validate_ingress_class}
use nghttpx_ingress_lb.Controller.Addresses.Removed.{
  FreeOf, without-FreeOf, length-without-FreeOf, without,
  remove_address_from_load_balancer_ingress-without,
}
use nghttpx_ingress_lb.Controller.Status.{
  Client, get_this_pod, get_pod_address, write_answer, write_without, remove_from, got_ingress,
  address_removed, remove_loop, remove_address,
}
use nghttpx_ingress_lb.Controller.Status.Laws.{ClientLaws, is_key}

module _ (cache : Caches) (lbc : LoadBalancerController) {W : Type 0} (client : Client W)
    (laws : ClientLaws client) (addr : String) where
  open laws use {
    addresses, update-wrote, update-failed, get-found, get-keeps, poll-true, poll-keeps,
  }

  -- The status of the ingress does not have the address.
  abbrev pub Clear : String → String → W → Type 0
  Clear namespace name w =
      (l : List LoadBalancerIngress) × (addresses w namespace name ≡ some l) × FreeOf addr l

  abbrev cleaned : Ingress → Ingress
  cleaned ing = record ing { load_balancer = without addr ing.load_balancer }

  -- A write of the cleaned ingress keeps the status of any key clear.
  write_answer-Clear :
      (ing : Ingress) (w : W) (namespace name : String)
      → Clear namespace name w
      → Clear namespace name
          (write_answer cache lbc client (client.update_status (cleaned ing) w)).1
  unfolding write_answer
  write_answer-Clear ing w namespace name (l, e, f) = of (client.update_status (cleaned ing) w) refl
    where
      of :
          (r : Try Ingress × W)
          → client.update_status (cleaned ing) w ≡ r
          → Clear namespace name (write_answer cache lbc client r).1
      of (failed m, w') h = (l, update-failed (cleaned ing) m w w' namespace name h ∙ e, f)
      of (got r, w') h =
          let k = update-wrote (cleaned ing) r w w' namespace name h in
          elim (Bool-cases (is_key namespace name ing)) [
            | inl c ↦ (
              without addr ing.load_balancer,
              k ∙ rw c refl,
              without-FreeOf addr ing.load_balancer,
            )
            | inr c ↦ (l, k ∙ (rw c refl ∙ e), f)
          ]

  write_without-Clear :
      (ing : Ingress) (w : W) (namespace name : String)
      → Clear namespace name w
      → Clear namespace name
          (write_without cache lbc client ing (without addr ing.load_balancer) w).1
  unfolding write_without
  write_without-Clear ing w namespace name c =
      elim (Bool-cases (length ing.load_balancer == length (without addr ing.load_balancer))) [
        | inl e ↦ rw e c
        | inr e ↦ rw e (write_answer-Clear ing w namespace name c)
      ]

  remove_from-Clear :
      (ing : Ingress) (w : W) (namespace name : String)
      → Clear namespace name w
      → Clear namespace name (remove_from cache lbc client addr ing w).1
  unfolding remove_from
  remove_from-Clear ing w namespace name c = elim (Bool-cases (length ing.load_balancer == 0)) [
    | inl e ↦ rw e c
    | inr e ↦
        rw (e, remove_address_from_load_balancer_ingress-without ing.load_balancer addr)
          (write_without-Clear ing w namespace name c)
  ]

  address_removed-Clear :
      (ing : Ingress) (w : W) (namespace name : String)
      → Clear namespace name w
      → Clear namespace name (address_removed cache lbc client addr ing w).1
  unfolding address_removed got_ingress
  address_removed-Clear ing w namespace name (l, e, f) =
      of (client.get_ingress ing.namespace ing.name w)
        (l, get-keeps ing.namespace ing.name namespace name w ∙ e, f)
    where
      of :
          (r : Try Ingress × W)
          → Clear namespace name r.1
          → Clear namespace name (got_ingress cache lbc client addr r).1
      of (failed m, w') c = c
      of (got i, w') c = remove_from-Clear i w' namespace name c

  -- If the condition that is polled returns true, the status is clear.
  write_answer-true :
      (ing : Ingress) (w w' : W)
      → write_answer cache lbc client (client.update_status (cleaned ing) w) ≡ (ok true, w')
      → Clear ing.namespace ing.name w'
  unfolding write_answer
  write_answer-true ing w w' h = of (client.update_status (cleaned ing) w) refl h
    where
      of :
          (r : Try Ingress × W)
          → client.update_status (cleaned ing) w ≡ r
          → write_answer cache lbc client r ≡ (ok true, w')
          → Clear ing.namespace ing.name w'
      of (failed m, w1) k e = let c : false ≡ true = ok_injective (ap (λ p. p.0) e) in cc
      of (got r, w1) k e =
          let same : w1 ≡ w' = ap (λ p. p.1) e in
          let l = update-wrote (cleaned ing) r w w1 ing.namespace ing.name k in
          rw (← same) (
            without addr ing.load_balancer,
            l ∙ rw (eq_refl ing.namespace, eq_refl ing.name) refl,
            without-FreeOf addr ing.load_balancer,
          )

  remove_from-true :
      (ing : Ingress) (w w' : W)
      → addresses w ing.namespace ing.name ≡ some ing.load_balancer
      → remove_from cache lbc client addr ing w ≡ (ok true, w')
      → Clear ing.namespace ing.name w'
  unfolding remove_from write_without
  remove_from-true ing w w' a h = elim (Bool-cases (length ing.load_balancer == 0)) [
    | inl e ↦
        let same : w ≡ w' = ap (λ p. p.1) (rw e at h) in
        rw (← same) (ing.load_balancer, a, empty ing.load_balancer e)
    | inr e ↦
        let h' : write_without cache lbc client ing (without addr ing.load_balancer) w
            ≡ (ok true, w') =
          rw (e, remove_address_from_load_balancer_ingress-without ing.load_balancer addr) at h in
        elim (Bool-cases (length ing.load_balancer == length (without addr ing.load_balancer))) [
          | inl k ↦
              let same : w ≡ w' = ap (λ p. p.1) (rw k at h') in
              rw (← same)
                (ing.load_balancer, a, length-without-FreeOf addr ing.load_balancer (ground arith))
          | inr k ↦ write_answer-true ing w w' (rw k at h')
        ]
  ]
    where
      empty : (l : List LoadBalancerIngress) → (length l == 0) ≡ true → FreeOf addr l
      empty [] e = tt
      empty (x ∷ l) e = let c : ⊥ = ground arith in elim c [ ]

  address_removed-true :
      (ing : Ingress) (w w' : W)
      → address_removed cache lbc client addr ing w ≡ (ok true, w')
      → Clear ing.namespace ing.name w'
  unfolding address_removed got_ingress
  address_removed-true ing w w' h = of (client.get_ingress ing.namespace ing.name w) refl h
    where
      of :
          (r : Try Ingress × W)
          → client.get_ingress ing.namespace ing.name w ≡ r
          → got_ingress cache lbc client addr r ≡ (ok true, w')
          → Clear ing.namespace ing.name w'
      of (failed m, w1) k e = elim (Bool-cases (client.is_not_found m)) [
        | inl n ↦ let c = ap (λ p. p.0) (rw n at e) in cc
        | inr n ↦ let c = ok_injective (ap (λ p. p.0) (rw n at e)) in cc
      ]
      of (got i, w1) k e =
          let (ns, n, a) = get-found ing.namespace ing.name i w w1 k in
          rw (← ns, ← n) (remove_from-true i w1 w' (rw (ns, n) a) e)

  module _
      (prompt : (ing : Ingress) (w : W)
        → (w' : W) × (client.poll (address_removed cache lbc client addr ing) w
            ≡ (ok tt, w'))) where
    remove_loop-Clear_kept :
        (ings : List Ingress) (w : W) (namespace name : String)
        → Clear namespace name w
        → Clear namespace name (remove_loop cache lbc client addr ings w).1
    unfolding remove_loop
    remove_loop-Clear_kept [] w namespace name c = c
    remove_loop-Clear_kept (ing ∷ rest) w namespace name c =
        elim (Bool-cases (validate_ingress_class lbc ing)) [
          | inl v ↦
              let (w', h) = prompt ing w in
              let k =
                poll-keeps (Clear namespace name) (address_removed cache lbc client addr ing) w
                  (λ w1. address_removed-Clear ing w1 namespace name) c in
              let k' : Clear namespace name w' = rw h at k in
              rw (v, h) (remove_loop-Clear_kept rest w' namespace name k')
          | inr v ↦ rw v (remove_loop-Clear_kept rest w namespace name c)
        ]

    remove_loop-Clear :
        (ings : List Ingress) (w : W) (ing : Ingress)
        → Memᴰ ing ings
        → validate_ingress_class lbc ing ≡ true
        → Clear ing.namespace ing.name (remove_loop cache lbc client addr ings w).1
    unfolding remove_loop
    remove_loop-Clear [] w ing m v = elim m [ ]
    remove_loop-Clear (i ∷ rest) w ing (Memᴰ.head same) v =
        let v' : validate_ingress_class lbc i ≡ true = rw (← same) v in
        let (w', h) = prompt i w in
        let (w1, k) = poll-true (address_removed cache lbc client addr i) w w' h in
        let c =
          remove_loop-Clear_kept rest w' i.namespace i.name (address_removed-true i w1 w' k) in
        rw same (rw (v', h) c)
    remove_loop-Clear (i ∷ rest) w ing (Memᴰ.tail m) v =
        elim (Bool-cases (validate_ingress_class lbc i)) [
          | inl k ↦ let (w', h) = prompt i w in rw (k, h) (remove_loop-Clear rest w' ing m v)
          | inr k ↦ rw k (remove_loop-Clear rest w ing m v)
        ]

    -- When the controller's pod and its address are known, and `wait.Poll` ends without an error for
    -- every ingress, `removeAddressFromLoadBalancerIngress` leaves no ingress of the cache of this
    -- controller's class with that address in its status, as an IP address or as a host name.
    pub remove_address-Clear :
        (pod : Pod) (ings : List Ingress) (w : W) (ing : Ingress)
        → get_this_pod cache lbc ≡ got pod
        → get_pod_address cache lbc pod ≡ got addr
        → cache.ingresses ≡ got ings
        → Memᴰ ing ings
        → validate_ingress_class lbc ing ≡ true
        → Clear ing.namespace ing.name (remove_address cache lbc client w).1
    unfolding remove_address remove_loop address_removed
    remove_address-Clear pod ings w ing p a e m v = rw (p, a, e) (remove_loop-Clear ings w ing m v)
