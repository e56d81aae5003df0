-- ===== src/Controller/References/Laws.antt =====
-- When a secret, endpoints or a pod is referenced.
use mathlib.Core.List.{Memᴰ}
use mathlib.Core.List.Memᴰ
use mathlib.Core.Option.{some-injective}
use nghttpx_ingress_lb.Common.{
  String, ◌≡◌, ◌↔◌, ◌⊎◌, inl, inr, refl, sym, true, false, Option, none, some, List, any_iff, Try,
  failed, got, got_injective, Bool-cases,
}
use nghttpx_ingress_lb.Common.Text.{◌=s◌, eq_iff}
use nghttpx_ingress_lb.Api.{Service, Endpoints, Pod, Ingress, HttpIngressPath}
use nghttpx_ingress_lb.Controller.Env.{LoadBalancerController, Caches, Libraries}
use nghttpx_ingress_lb.Controller.Credentials.{slashed}
use nghttpx_ingress_lb.Controller.References.{
  listed_refer, endpoints_referenced, secret_referenced, selected, pod_referenced,
}
use nghttpx_ingress_lb.Controller.References.Loops.{
  SomePath, SomeIngress, rules_refer-true, true-rules_refer, ingresses_refer-true,
  true-ingresses_refer,
}

module _ (lbc : LoadBalancerController) where
  module _ (cache : Caches) where
    -- A secret is referenced exactly if it is the default TLS secret, or an ingress of its namespace
    -- and of this controller's class names it in its TLS section.
    pub secret_referenced_iff :
        (namespace name : String) (ings : List Ingress)
        → cache.ingresses_in namespace ≡ got ings
        → (secret_referenced lbc cache namespace name ≡ true) ↔ (
            (lbc.default_tls_secret ≡ slashed namespace name)
            ⊎ SomeIngress lbc (λ ing. Memᴰ name ing.tls) ings)
    unfolding secret_referenced listed_refer
    secret_referenced_iff namespace name ings e =
        let named = λ (ing : Ingress). any_iff (λ secret_name. secret_name =s name) ing.tls in
        let default = eq_iff lbc.default_tls_secret (slashed namespace name) in
        elim (Bool-cases (lbc.default_tls_secret =s slashed namespace name)) [
          | inl d ↦ rw d (λ _. inl (default.0 d), λ _. refl)
          | inr d ↦
              rw (d, e)
                (
                  λ h.
                      let (ing, m, v, k) = ingresses_refer-true lbc _ ings h in
                      let (secret_name, m', same) = (named ing).0 k in
                      inr (ing, m, v, Memᴰ.cast (sym ((eq_iff secret_name name).0 same)) m'),
                  λ h. elim h [
                    | inl k ↦ let c : true ≡ false = rw (← default.1 k) d in cc
                    | inr (ing, m, v, k) ↦
                        true-ingresses_refer lbc _ ings
                          (ing, m, v, (named ing).1 (name, k, (eq_iff name name).1 refl))
                  ],
                )
        ]

    -- Endpoints are referenced exactly if they are the default service's, or an ingress of their
    -- namespace and of this controller's class has a path whose service has their name.
    pub endpoints_referenced_iff :
        (ep : Endpoints) (ings : List Ingress)
        → cache.ingresses_in ep.namespace ≡ got ings
        → (endpoints_referenced lbc cache ep ≡ true) ↔ (
            (slashed ep.namespace ep.name ≡ lbc.default_svc)
            ⊎ SomeIngress lbc
                (λ ing. SomePath (λ path. (ep.name =s path.backend.service_name) ≡ true) ing.rules)
                ings)
    unfolding endpoints_referenced listed_refer
    endpoints_referenced_iff ep ings e =
        let default = eq_iff (slashed ep.namespace ep.name) lbc.default_svc in
        elim (Bool-cases (slashed ep.namespace ep.name =s lbc.default_svc)) [
          | inl d ↦ rw d (λ _. inl (default.0 d), λ _. refl)
          | inr d ↦
              rw (d, e)
                (
                  λ h.
                      let (ing, m, v, k) = ingresses_refer-true lbc _ ings h in
                      inr (ing, m, v, rules_refer-true _ ing.rules k),
                  λ h. elim h [
                    | inl k ↦ let c : true ≡ false = rw (← default.1 k) d in cc
                    | inr (ing, m, v, k) ↦
                        true-ingresses_refer lbc _ ings (ing, m, v, true-rules_refer _ ing.rules k)
                  ],
                )
        ]

    module _ (lib : Libraries) where
      -- The lister has a service of that key, and it selects the pod.
      abbrev pub IsSelected : Pod → String → Type 0
      IsSelected pod key =
          (svc : Service) × (cache.service key ≡ got (some svc))
          × (lib.selector_matches svc.selector pod.labels ≡ true)

      pub selected_iff :
          (pod : Pod) (key : String)
          → (selected lbc cache lib pod (cache.service key) ≡ true) ↔ IsSelected pod key
      unfolding selected
      selected_iff pod key = of (cache.service key)
        where
          of :
              (t : Try (Option Service))
              → (selected lbc cache lib pod t ≡ true) ↔ (
                  (svc : Service) × (t ≡ got (some svc))
                  × (lib.selector_matches svc.selector pod.labels ≡ true))
          of (failed e) = (λ h. cc, λ (svc, e', m). cc)
          of (got none) = (λ h. cc, λ (svc, e', m). cc)
          of (got (some svc)) =
              (λ h. (svc, refl, h), λ (svc', e', m). rw (some-injective _ _ (got_injective e')) m)

      abbrev service_key : Pod → HttpIngressPath → String
      service_key pod path = slashed pod.namespace path.backend.service_name

      -- A pod is referenced exactly if the default service selects it, or an ingress of its namespace and
      -- of this controller's class has a path whose service, in the pod's namespace, selects it.
      pub pod_referenced_iff :
          (pod : Pod) (ings : List Ingress)
          → cache.ingresses_in pod.namespace ≡ got ings
          → (pod_referenced lbc cache lib pod ≡ true) ↔ (
              IsSelected pod lbc.default_svc
              ⊎ SomeIngress lbc
                  (λ ing.
                    SomePath
                      (λ path. IsSelected pod (slashed pod.namespace path.backend.service_name))
                      ing.rules)
                  ings)
      unfolding pod_referenced listed_refer
      pod_referenced_iff pod ings e =
          let default = selected_iff pod lbc.default_svc in
          elim (Bool-cases (selected lbc cache lib pod (cache.service lbc.default_svc))) [
            | inl d ↦ rw d (λ _. inl (default.0 d), λ _. refl)
            | inr d ↦
                rw (d, e)
                  (
                    λ h.
                        let (ing, m, v, k) = ingresses_refer-true lbc _ ings h in
                        let (r, paths, path, mr, http, mp, q) = rules_refer-true _ ing.rules k in
                        inr (
                          ing,
                          m,
                          v,
                          (
                            r,
                            paths,
                            path,
                            mr,
                            http,
                            mp,
                            (selected_iff pod (service_key pod path)).0 q,
                          ),
                        ),
                    λ h. elim h [
                      | inl k ↦ let c : true ≡ false = rw (← default.1 k) d in cc
                      | inr (ing, m, v, (r, paths, path, mr, http, mp, q)) ↦
                          true-ingresses_refer lbc _ ings (
                            ing,
                            m,
                            v,
                            true-rules_refer _ ing.rules (
                              r,
                              paths,
                              path,
                              mr,
                              http,
                              mp,
                              (selected_iff pod (service_key pod path)).1 q,
                            ),
                          )
                    ],
                  )
          ]
