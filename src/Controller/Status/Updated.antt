-- ===== src/Controller/Status/Updated.antt =====
-- What `updateIngressStatus` leaves in the status of the ingresses.
use mathlib.Core.List.{Memᴰ}
use nghttpx_ingress_lb.Common.{
  String, ◌≡◌, ◌⊎◌, inl, inr, refl, ◌∙◌, true, false, some, List, [], ◌∷◌, map, All, All-map, Try,
  failed, got, Bool-cases,
}
use nghttpx_ingress_lb.Common.Text.{eq_refl}
use nghttpx_ingress_lb.Api.{Ingress, LoadBalancerIngress}
use nghttpx_ingress_lb.Controller.Env.{LoadBalancerController, Caches}
use nghttpx_ingress_lb.Controller.Annotation.{validate_ingress_class}
use nghttpx_ingress_lb.Controller.Addresses.{load_balancer_ingresses_ip_equal}
use nghttpx_ingress_lb.Controller.Addresses.Laws.{ip_of, load_balancer_ingresses_ip_equal_iff}
use nghttpx_ingress_lb.Controller.Status.{Client, update_one, update_loop, update_ingress_status}
use nghttpx_ingress_lb.Controller.Status.Laws.{ClientLaws, is_key}

module _ (cache : Caches) (lbc : LoadBalancerController) {W : Type 0} (client : Client W)
    (laws : ClientLaws client) (lb_ings : List LoadBalancerIngress) where
  open laws use {addresses, update-wrote, update-failed}

  -- The status of the ingress has the IP addresses of the list.
  abbrev pub Shows : String → String → W → Type 0
  Shows namespace name w =
      (l : List LoadBalancerIngress) × (addresses w namespace name ≡ some l)
      × (map ip_of l ≡ map ip_of lb_ings)

  abbrev wrote : Ingress → Ingress
  wrote ing = record ing { load_balancer = lb_ings }

  -- Whatever a write to `ing` does, the status of a key is as it was, or the key is the ingress's and
  -- the status is the list.
  update_status-cases :
      (ing : Ingress) (w : W) (namespace name : String)
      → let w' = (client.update_status (wrote ing) w).1 in
        (addresses w' namespace name ≡ addresses w namespace name)
        ⊎ ((is_key namespace name ing ≡ true) × (addresses w' namespace name ≡ some lb_ings))
  update_status-cases ing w namespace name = of (client.update_status (wrote ing) w) refl
    where
      of :
          (r : Try Ingress × W)
          → client.update_status (wrote ing) w ≡ r
          → (addresses r.1 namespace name ≡ addresses w namespace name)
            ⊎ ((is_key namespace name ing ≡ true) × (addresses r.1 namespace name ≡ some lb_ings))
      of (failed e, w') h = inl (update-failed (wrote ing) e w w' namespace name h)
      of (got r, w') h =
          let k = update-wrote (wrote ing) r w w' namespace name h in
          elim (Bool-cases (is_key namespace name ing)) [
            | inl e ↦ inr (e, k ∙ rw e)
            | inr e ↦ inl (k ∙ rw e)
          ]

  update_one-cases :
      (ing : Ingress) (w : W) (namespace name : String)
      → let w' = update_one cache lbc client lb_ings ing w in
        (addresses w' namespace name ≡ addresses w namespace name)
        ⊎ ((validate_ingress_class lbc ing ≡ true)
            × (is_key namespace name ing ≡ true)
            × (addresses w' namespace name ≡ some lb_ings))
  unfolding update_one
  update_one-cases ing w namespace name = elim (Bool-cases (validate_ingress_class lbc ing)) [
    | inl v ↦ elim (Bool-cases (load_balancer_ingresses_ip_equal ing.load_balancer lb_ings)) [
      | inl e ↦ rw (v, e) (inl refl)
      | inr e ↦
          rw (v, e)
            (elim (update_status-cases ing w namespace name) [
              | inl k ↦ inl k
              | inr (i, k) ↦ inr (refl, i, k)
            ])
    ]
    | inr v ↦ rw v (inl refl)
  ]

  update_one-Shows :
      (ing : Ingress) (w : W) (namespace name : String)
      → Shows namespace name w
      → Shows namespace name (update_one cache lbc client lb_ings ing w)
  update_one-Shows ing w namespace name (l, e, k) = elim (update_one-cases ing w namespace name) [
    | inl same ↦ (l, same ∙ e, k)
    | inr (_, _, e') ↦ (lb_ings, e', refl)
  ]

  -- The status is what the cache says of it, or shows the list already.
  abbrev Ready : Ingress → W → Type 0
  Ready ing w =
      (addresses w ing.namespace ing.name ≡ some ing.load_balancer) ⊎ Shows ing.namespace ing.name w

  update_one-Ready :
      (other ing : Ingress) (w : W)
      → Ready ing w
      → Ready ing (update_one cache lbc client lb_ings other w)
  update_one-Ready other ing w (inl e) = elim (update_one-cases other w ing.namespace ing.name) [
    | inl same ↦ inl (same ∙ e)
    | inr (_, _, e') ↦ inr (lb_ings, e', refl)
  ]
  update_one-Ready other ing w (inr s) = inr (update_one-Shows other w ing.namespace ing.name s)

  module _ (running : (w : W) → client.is_stopped w ≡ false)
      (accepted : (ing : Ingress) (w : W)
        → (r : Ingress) × (w' : W) × (client.update_status ing w ≡ (got r, w'))) where
    update_one_self :
        (ing : Ingress) (w : W)
        → validate_ingress_class lbc ing ≡ true
        → Ready ing w
        → Shows ing.namespace ing.name (update_one cache lbc client lb_ings ing w)
    unfolding update_one
    update_one_self ing w v (inr s) = update_one-Shows ing w ing.namespace ing.name s
    update_one_self ing w v (inl e) =
        elim (Bool-cases (load_balancer_ingresses_ip_equal ing.load_balancer lb_ings)) [
          | inl same ↦
              rw (v, same)
                (
                  ing.load_balancer,
                  e,
                  (load_balancer_ingresses_ip_equal_iff ing.load_balancer lb_ings).0 same,
                )
          | inr other ↦
              let (r, w', h) = accepted (wrote ing) w in
              let k = update-wrote (wrote ing) r w w' ing.namespace ing.name h in
              rw (v, other, h) (lb_ings, k ∙ rw (eq_refl ing.namespace, eq_refl ing.name), refl)
        ]

    update_loop-Shows_kept :
        (ings : List Ingress) (w : W) (namespace name : String)
        → Shows namespace name w
        → Shows namespace name (update_loop cache lbc client lb_ings ings w)
    unfolding update_loop
    update_loop-Shows_kept [] w namespace name s = s
    update_loop-Shows_kept (ing ∷ rest) w namespace name s =
        rw (running w)
          (update_loop-Shows_kept rest _ namespace name (update_one-Shows ing w namespace name s))

    update_loop-Shows :
        (ings : List Ingress) (w : W)
        → All (λ ing. Ready ing w) ings
        → (ing : Ingress) → Memᴰ ing ings
        → validate_ingress_class lbc ing ≡ true
        → Shows ing.namespace ing.name (update_loop cache lbc client lb_ings ings w)
    unfolding update_loop
    update_loop-Shows [] w h ing m v = elim m [ ]
    update_loop-Shows (i ∷ rest) w h ing (Memᴰ.head same) v =
        let v' : validate_ingress_class lbc i ≡ true = rw (← same) v in
        let s = update_one_self i w v' h.0 in
        let done = update_loop-Shows_kept rest _ i.namespace i.name s in
        rw (running w) (rw (same) done)
    update_loop-Shows (i ∷ rest) w h ing (Memᴰ.tail m) v =
        rw (running w)
          (update_loop-Shows rest _ (All-map rest (λ j k. update_one-Ready i j w k) h.1) ing m v)

    -- While the controller runs and the API server accepts the writes, `updateIngressStatus` leaves every
    -- ingress of the cache that is of this controller's class with the IP addresses of the list in its
    -- status, provided that the cache has the statuses that the server has.
    pub update_ingress_status-Shows :
        (ings : List Ingress) (w : W) (ing : Ingress)
        → cache.ingresses ≡ got ings
        → All (λ i. addresses w i.namespace i.name ≡ some i.load_balancer) ings
        → Memᴰ ing ings
        → validate_ingress_class lbc ing ≡ true
        → Shows ing.namespace ing.name (update_ingress_status cache lbc client lb_ings w).1
    unfolding update_ingress_status
    update_ingress_status-Shows ings w ing e h m v =
        rw e (update_loop-Shows ings w (All-map ings (λ i k. inl k) h) ing m v)

  update_loop-keeps :
      (ings : List Ingress) (w : W) (namespace name : String)
      → All (λ i. (validate_ingress_class lbc i ≡ false) ⊎ (is_key namespace name i ≡ false)) ings
      → addresses (update_loop cache lbc client lb_ings ings w) namespace name
        ≡ addresses w namespace name
  unfolding update_loop
  update_loop-keeps [] w namespace name h = refl
  update_loop-keeps (i ∷ rest) w namespace name h =
      let w1 = update_one cache lbc client lb_ings i w in
      let step : addresses w1 namespace name ≡ addresses w namespace name =
        elim (update_one-cases i w namespace name) [
          | inl same ↦ same
          | inr (v, k, _) ↦ elim h.0 [ inl v' ↦ cc | inr k' ↦ cc ]
        ] in
      elim (Bool-cases (client.is_stopped w)) [
        | inl s ↦ rw s refl
        | inr s ↦ rw s (update_loop-keeps rest w1 namespace name h.1 ∙ step)
      ]

  -- Whether or not the writes are accepted and the controller is stopped meanwhile, `updateIngressStatus`
  -- leaves alone the status of every ingress that is not one of the cache of this controller's class.
  pub update_ingress_status-keeps :
      (ings : List Ingress) (w : W) (namespace name : String)
      → cache.ingresses ≡ got ings
      → All (λ i. (validate_ingress_class lbc i ≡ false) ⊎ (is_key namespace name i ≡ false)) ings
      → addresses (update_ingress_status cache lbc client lb_ings w).1 namespace name
        ≡ addresses w namespace name
  unfolding update_ingress_status
  update_ingress_status-keeps ings w namespace name e h =
      rw e (update_loop-keeps ings w namespace name h)
