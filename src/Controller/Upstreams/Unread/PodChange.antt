-- ===== src/Controller/Upstreams/Unread/PodChange.antt =====
-- The pods that are not referenced, for `getUpstreamServers`.
use mathlib.Core.List.{Memᴰ}
use nghttpx_ingress_lb.Common.{
  String, ◌≡◌, ◌∙◌, refl, sym, true, false, ◌&&◌, some, List, All-map, All-mem, Try, got, inl, inr,
  Bool-cases, arith,
}
use nghttpx_ingress_lb.Common.Text.{◌=s◌, eq_iff}
use nghttpx_ingress_lb.Api.{StringMap, Service, Pod, Ingress, IngressRule, HttpIngressPath}
use nghttpx_ingress_lb.Controller.Env.{LoadBalancerController, Caches}
use nghttpx_ingress_lb.Controller.Annotation.{validate_ingress_class}
use nghttpx_ingress_lb.Controller.Credentials.{slashed}
use nghttpx_ingress_lb.Controller.Names.Laws.{has_slash, slashed-injective}
use nghttpx_ingress_lb.Controller.References.{pod_referenced}
use nghttpx_ingress_lb.Controller.References.Laws.{pod_referenced_iff}
use nghttpx_ingress_lb.Controller.Upstreams.{Environment, get_upstream_servers}
use nghttpx_ingress_lb.Controller.Upstreams.Frame.{get_upstream_servers-same}
use nghttpx_ingress_lb.Controller.Upstreams.Paths.Frame.{SameService}

abbrev pub with_pods : Caches → (String → StringMap → Try (List Pod)) → Caches
with_pods cache pods = record cache { pods_in = pods }

module _ (env : Environment) (lbc : LoadBalancerController)
    (pods : String → StringMap → Try (List Pod)) (pod : Pod)
    (unchanged : (namespace : String) (selector : StringMap)
      → (namespace =s pod.namespace && env.lib.selector_matches selector pod.labels) ≡ false
      → pods namespace selector ≡ env.cache.pods_in namespace selector)
    -- the lister gives a service under its own key
    (keyed : (key : String) (svc : Service)
      → env.cache.service key ≡ got (some svc)
      → slashed svc.namespace svc.name ≡ key)
    (ings those : List Ingress) (lists : env.cache.ingresses_in pod.namespace ≡ got those)
    (listed : (ing : Ingress) → Memᴰ ing ings → ing.namespace ≡ pod.namespace → Memᴰ ing those)
    (plain : has_slash pod.namespace ≡ false)
    (plain_each : (ing : Ingress) → Memᴰ ing ings → has_slash ing.namespace ≡ false)
    (unreferenced : pod_referenced lbc env.cache env.lib pod ≡ false) where
  -- Under a key whose service does not select the pod all is as it was.
  same_service :
      (key : String)
      → ((svc : Service)
          → env.cache.service key ≡ got (some svc)
          → (svc.namespace =s pod.namespace && env.lib.selector_matches svc.selector pod.labels)
            ≡ false)
      → SameService env.lib env.cache (with_pods env.cache pods) key
  same_service key n = (refl, λ svc f. (unchanged svc.namespace svc.selector (n svc f), refl))

  default_unselected :
      (svc : Service)
      → env.cache.service lbc.default_svc ≡ got (some svc)
      → (svc.namespace =s pod.namespace && env.lib.selector_matches svc.selector pod.labels) ≡ false
  default_unselected svc f = elim (Bool-cases (env.lib.selector_matches svc.selector pod.labels)) [
    | inl e ↦
        let k = (pod_referenced_iff lbc env.cache env.lib pod those lists).1 (inl (svc, f, e)) in cc
    | inr e ↦ ground arith
  ]

  unselected :
      (ing : Ingress) (r : IngressRule) (paths : List HttpIngressPath) (path : HttpIngressPath)
      → Memᴰ ing ings
      → validate_ingress_class lbc ing ≡ true
      → Memᴰ r ing.rules
      → r.http ≡ some paths
      → Memᴰ path paths
      → (svc : Service)
      → env.cache.service (slashed ing.namespace path.backend.service_name) ≡ got (some svc)
      → (svc.namespace =s pod.namespace && env.lib.selector_matches svc.selector pod.labels) ≡ false
  unselected ing r paths path m v k e n svc f = elim (Bool-cases (svc.namespace =s pod.namespace)) [
    | inr h ↦ ground arith
    | inl h ↦ elim (Bool-cases (env.lib.selector_matches svc.selector pod.labels)) [
      | inr j ↦ ground arith
      | inl j ↦
          let here : svc.namespace ≡ pod.namespace = (eq_iff svc.namespace pod.namespace).0 h in
          let (ns, _) =
            slashed-injective svc.namespace svc.name ing.namespace path.backend.service_name
              (rw here plain) (plain_each ing m)
              (keyed (slashed ing.namespace path.backend.service_name) svc f) in
          let there : ing.namespace ≡ pod.namespace = sym ns ∙ here in
          let refers = (pod_referenced_iff lbc env.cache env.lib pod those lists).1 (
            inr
              (ing, listed ing m there, v, (r, paths, path, k, e, n, (svc, rw (← there) f, j)))) in
          cc
    ]
  ]

  -- A pod that is not referenced has no bearing on the configuration.
  pub get_upstream_servers-unread_pod :
      get_upstream_servers (record env { cache = with_pods env.cache pods }) lbc ings
      ≡ get_upstream_servers env lbc ings
  get_upstream_servers-unread_pod =
      get_upstream_servers-same env lbc (with_pods env.cache pods) ings refl
        (same_service lbc.default_svc default_unselected)
        (All-map ings
          (λ ing m v. record {
            secrets = All-map ing.tls (λ s n. refl) (All-mem ing.tls);
            services = λ r paths path k e n. same_service _ (unselected ing r paths path m v k e n);
          })
          (All-mem ings))
