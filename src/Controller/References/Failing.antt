-- ===== src/Controller/References/Failing.antt =====
-- What is referenced where the ingresses of the namespace cannot be listed.
use nghttpx_ingress_lb.Common.{String, ◌≡◌, ◌↔◌, refl, true, false, inl, inr, Bool-cases, failed}
use nghttpx_ingress_lb.Common.Text.{◌=s◌, eq_iff}
use nghttpx_ingress_lb.Api.{Endpoints, Secret, Pod}
use nghttpx_ingress_lb.Controller.Env.{LoadBalancerController, Caches, Libraries}
use nghttpx_ingress_lb.Controller.Credentials.{slashed}
use nghttpx_ingress_lb.Controller.References.{
  listed_refer, endpoints_referenced, secret_referenced, selected, pod_referenced,
}
use nghttpx_ingress_lb.Controller.References.Laws.{IsSelected, selected_iff}

module _ (lbc : LoadBalancerController) (cache : Caches) where
  pub endpoints_failing :
      (ep : Endpoints) (m : String)
      → cache.ingresses_in ep.namespace ≡ failed m
      → (endpoints_referenced lbc cache ep ≡ true)
        ↔ (slashed ep.namespace ep.name ≡ lbc.default_svc)
  unfolding endpoints_referenced listed_refer
  endpoints_failing ep m e = elim (Bool-cases (slashed ep.namespace ep.name =s lbc.default_svc)) [
    | inl d ↦ rw d (λ _. (eq_iff (slashed ep.namespace ep.name) lbc.default_svc).0 d, λ _. refl)
    | inr d ↦
        rw (d, e)
          (
            λ h. cc,
            λ k.
                let c : true ≡ false =
                  rw (← (eq_iff (slashed ep.namespace ep.name) lbc.default_svc).1 k) d in
                cc,
          )
  ]

  pub secret_failing :
      (s : Secret) (m : String)
      → cache.ingresses_in s.namespace ≡ failed m
      → (secret_referenced lbc cache s.namespace s.name ≡ true)
        ↔ (lbc.default_tls_secret ≡ slashed s.namespace s.name)
  unfolding secret_referenced listed_refer
  secret_failing s m e = elim (Bool-cases (lbc.default_tls_secret =s slashed s.namespace s.name)) [
    | inl d ↦
        rw d (λ _. (eq_iff lbc.default_tls_secret (slashed s.namespace s.name)).0 d, λ _. refl)
    | inr d ↦
        rw (d, e)
          (
            λ h. cc,
            λ k.
                let c : true ≡ false =
                  rw (← (eq_iff lbc.default_tls_secret (slashed s.namespace s.name)).1 k) d in
                cc,
          )
  ]

  pub pod_failing :
      (lib : Libraries) (pod : Pod) (m : String)
      → cache.ingresses_in pod.namespace ≡ failed m
      → (pod_referenced lbc cache lib pod ≡ true) ↔ IsSelected lbc cache lib pod lbc.default_svc
  unfolding pod_referenced listed_refer
  pod_failing lib pod m e =
      let default = selected_iff lbc cache lib pod lbc.default_svc in
      elim (Bool-cases (selected lbc cache lib pod (cache.service lbc.default_svc))) [
        | inl d ↦ rw d (λ _. default.0 d, λ _. refl)
        | inr d ↦ rw (d, e) (λ h. cc, λ k. let c : true ≡ false = rw (← default.1 k) d in cc)
      ]
