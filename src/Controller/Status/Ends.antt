-- ===== src/Controller/Status/Ends.antt =====
-- How the loop of `syncIngress` ends.
use mathlib.Core.List.{Memᴰ}
use nghttpx_ingress_lb.Common.{
  String, Bool, ◌≡◌, ◌≢◌, ◌∙◌, err, panic, inl, inr, refl, true, List, [], ◌∷◌, Result, ok, Try,
  failed, got, Bool-cases,
}
use nghttpx_ingress_lb.Common.Sorting.{Sorter}
use nghttpx_ingress_lb.Api.{Pod, Ingress, LoadBalancerIngress}
use nghttpx_ingress_lb.Controller.Env.{LoadBalancerController, Caches}
use nghttpx_ingress_lb.Controller.Act.{Act}
use nghttpx_ingress_lb.Controller.Annotation.{validate_ingress_class}
use nghttpx_ingress_lb.Controller.Addresses.Laws.{uniq-sort_load_balancer_ingress}
use nghttpx_ingress_lb.Controller.Status.{
  Client, get_this_pod, get_pod_address, get_load_balancer_ingress, update_ingress_status,
  update_loop, get_node_ip_and_update_ingress, address_removed, remove_loop, remove_address, Wake,
  stop_closed, timer_fired, SyncEnd, returned, ended, continued, sync_ingress,
}
use nghttpx_ingress_lb.Controller.Status.Calm.{remove_address-Calm}
use nghttpx_ingress_lb.Controller.Status.Laws.{ClientLaws}
use nghttpx_ingress_lb.Controller.Status.Removal.{Clear, remove_address-Clear}

module _ (cache : Caches) (lbc : LoadBalancerController) {W : Type 0} (client : Client W)
    (sorter : Sorter) where
  -- What is done next is done: there was no panic.
  abbrev Goes : Result (Unit {0}) × W → Type 0
  Goes r = (w : W) × ((next : W → SyncEnd × W) → continued cache lbc client sorter next r ≡ next w)

  update_ingress_status-Goes :
      (lb_ings : List LoadBalancerIngress) (w : W)
      → Goes (update_ingress_status cache lbc client lb_ings w)
  unfolding update_ingress_status continued
  update_ingress_status-Goes lb_ings w = of cache.ingresses refl
    where
      of :
          (r : Try (List Ingress))
          → cache.ingresses ≡ r
          → Goes (update_ingress_status cache lbc client lb_ings w)
      of (failed e) h = (w, λ next. rw h refl)
      of (got ings) h = (update_loop cache lbc client lb_ings ings w, λ next. simp h)

  get_node_ip_and_update_ingress-Goes :
      (w : W) → Goes (get_node_ip_and_update_ingress cache lbc client sorter w)
  unfolding get_node_ip_and_update_ingress continued
  get_node_ip_and_update_ingress-Goes w = of_pod (get_this_pod cache lbc) refl
    where
      of_list :
          (pod : Pod)
          → get_this_pod cache lbc ≡ got pod
          → (r : Try (List LoadBalancerIngress))
          → get_load_balancer_ingress cache lbc client pod.labels ≡ r
          → Goes (get_node_ip_and_update_ingress cache lbc client sorter w)
      of_list pod h (failed e) k = (w, λ next. rw (h, k) refl)
      of_list pod h (got l) k =
          let (unique, u, _, _) = uniq-sort_load_balancer_ingress sorter l in
          let (w', g) = update_ingress_status-Goes unique w in (w', λ next. rw (h, k, u) (g next))

      of_pod :
          (r : Try Pod)
          → get_this_pod cache lbc ≡ r
          → Goes (get_node_ip_and_update_ingress cache lbc client sorter w)
      of_pod (failed e) h = (w, λ next. rw h refl)
      of_pod (got pod) h =
          of_list pod h (get_load_balancer_ingress cache lbc client pod.labels) refl

  -- By the documented behaviour of `wait.Poll`, it panics only if its condition does.
  module _
      (poll_safe : (m : Act W Bool) (w : W)
        → ((w1 : W) → (m w1).0 ≢ panic)
        → (client.poll m w).0 ≢ panic) where
    ended-Calm :
        (r : Result (Unit {0}) × W)
        → r.0 ≢ panic
        → ended cache lbc client sorter r ≡ (returned, r.1)
    unfolding ended
    ended-Calm (ok u, w) h = refl
    ended-Calm (err e, w) h = refl
    ended-Calm (panic, w) h = absurd (h refl)

    -- Once `stopCh` is closed, the loop of `syncIngress` returns, whatever came of the updates before and
    -- comes of the removal of the address, errors included; where `wait.Poll` panics only if its condition
    -- does.
    pub sync_ingress-returned :
        (wakes : List Wake) (w : W)
        → Memᴰ stop_closed wakes
        → (w' : W) × (sync_ingress cache lbc client sorter wakes w ≡ (returned, w'))
    unfolding sync_ingress
    sync_ingress-returned [] w m = elim m [ ]
    sync_ingress-returned (stop_closed ∷ wakes) w m =
        let (w1, g) = get_node_ip_and_update_ingress-Goes w in
        (
          (remove_address cache lbc client w1).1,
          g (λ w2. ended cache lbc client sorter (remove_address cache lbc client w2))
              ∙ ended-Calm (remove_address cache lbc client w1)
                  (remove_address-Calm cache lbc client poll_safe w1),
        )
    sync_ingress-returned (timer_fired ∷ wakes) w (Memᴰ.tail m) =
        let (w1, g) = get_node_ip_and_update_ingress-Goes w in
        let (w', q) = sync_ingress-returned wakes w1 m in
        (w', g (sync_ingress cache lbc client sorter wakes) ∙ q)
    sync_ingress-returned (timer_fired ∷ wakes) w (Memᴰ.head same) =
        let absurd : stop_closed ≡ timer_fired = same in cc

  module _ (laws : ClientLaws client) (addr : String)
      (prompt : (ing : Ingress) (w : W)
        → (w' : W) × (client.poll (address_removed cache lbc client addr ing) w
            ≡ (ok tt, w'))) where
    remove_loop-ok :
        (ings : List Ingress) (w : W)
        → (w' : W) × (remove_loop cache lbc client addr ings w ≡ (ok tt, w'))
    unfolding remove_loop
    remove_loop-ok [] w = (w, refl)
    remove_loop-ok (ing ∷ rest) w = elim (Bool-cases (validate_ingress_class lbc ing)) [
      | inl v ↦
          let (w1, h) = prompt ing w in let (w', k) = remove_loop-ok rest w1 in (w', rw (v, h) k)
      | inr v ↦ let (w', k) = remove_loop-ok rest w in (w', rw v k)
    ]

    module _ (pod : Pod) (ings : List Ingress) (p : get_this_pod cache lbc ≡ got pod)
        (a : get_pod_address cache lbc pod ≡ got addr) (e : cache.ingresses ≡ got ings) where
      abbrev pub Withdrawn : W → Type 0
      Withdrawn w =
          (ing : Ingress)
          → Memᴰ ing ings
          → validate_ingress_class lbc ing ≡ true
          → Clear cache lbc client laws addr ing.namespace ing.name w

      remove_address-Withdrawn :
          (w : W) → (w' : W) × (remove_address cache lbc client w ≡ (ok tt, w')) × Withdrawn w'
      unfolding remove_address remove_loop address_removed
      remove_address-Withdrawn w =
          let (w', k) = remove_loop-ok ings w in
          let q : remove_address cache lbc client w ≡ (ok tt, w') = simp (p, a, e, k) in
          (
            w',
            q,
            λ ing m v.
                let c =
                  remove_address-Clear cache lbc client laws addr prompt pod ings w ing p a e m v in
                rw q at c,
          )

      -- When `stopCh` is closed, and the controller's pod and its address are known and the ingresses can
      -- be listed, and `wait.Poll` ends without an error for every ingress and in every state, then the
      -- loop of `syncIngress` returns with no ingress of the cache of this controller's class having that
      -- address in its status, whatever came of the updates before.
      pub sync_ingress-Withdrawn :
          (wakes : List Wake) (w : W)
          → Memᴰ stop_closed wakes
          → (w' : W) × (sync_ingress cache lbc client sorter wakes w ≡ (returned, w'))
            × Withdrawn w'
      unfolding sync_ingress
      sync_ingress-Withdrawn [] w m = elim m [ ]
      sync_ingress-Withdrawn (stop_closed ∷ wakes) w m =
          let (w1, g) = get_node_ip_and_update_ingress-Goes w in
          let (w', q, c) = remove_address-Withdrawn w1 in
          (
            w',
            rw (g (λ w2. ended cache lbc client sorter (remove_address cache lbc client w2)), q)
                refl,
            c,
          )
      sync_ingress-Withdrawn (timer_fired ∷ wakes) w (Memᴰ.tail m) =
          let (w1, g) = get_node_ip_and_update_ingress-Goes w in
          let (w', q, c) = sync_ingress-Withdrawn wakes w1 m in
          (w', g (sync_ingress cache lbc client sorter wakes) ∙ q, c)
      sync_ingress-Withdrawn (timer_fired ∷ wakes) w (Memᴰ.head same) = elim (fired same) [ ]
        where
          fired : stop_closed ≡ timer_fired → ⊥
          fired e' = cc
