-- ===== src/Controller/Upstreams/Unread/EndpointsChange.antt =====
-- The endpoints that are not referenced, for `getUpstreamServers`.
use mathlib.Core.List.{Memᴰ}
use nghttpx_ingress_lb.Common.{
  String, ◌≡◌, ◌∙◌, refl, sym, ap, true, false, some, List, All-map, All-mem, Try, got, inl, inr,
  Bool-cases,
}
use nghttpx_ingress_lb.Common.Text.{◌=s◌, eq_iff}
use nghttpx_ingress_lb.Api.{Service, Endpoints, Ingress, IngressRule, HttpIngressPath}
use nghttpx_ingress_lb.Controller.Env.{LoadBalancerController, Caches}
use nghttpx_ingress_lb.Controller.Annotation.{validate_ingress_class}
use nghttpx_ingress_lb.Controller.Credentials.{slashed}
use nghttpx_ingress_lb.Controller.Names.Laws.{has_slash, slashed-injective}
use nghttpx_ingress_lb.Controller.References.{endpoints_referenced}
use nghttpx_ingress_lb.Controller.References.Laws.{endpoints_referenced_iff}
use nghttpx_ingress_lb.Controller.Upstreams.{Environment, get_upstream_servers}
use nghttpx_ingress_lb.Controller.Upstreams.Frame.{get_upstream_servers-same}
use nghttpx_ingress_lb.Controller.Upstreams.Paths.Frame.{SameService}

abbrev pub with_endpoints : Caches → (Service → Try Endpoints) → Caches
with_endpoints cache endpoints = record cache { service_endpoints = endpoints }

module _ (env : Environment) (lbc : LoadBalancerController) (endpoints : Service → Try Endpoints)
    (ep : Endpoints)
    (unchanged : (svc : Service)
      → (slashed ep.namespace ep.name =s slashed svc.namespace svc.name) ≡ false
      → endpoints svc ≡ env.cache.service_endpoints svc)
    -- the lister gives a service under its own key
    (keyed : (key : String) (svc : Service)
      → env.cache.service key ≡ got (some svc)
      → slashed svc.namespace svc.name ≡ key)
    (ings those : List Ingress) (lists : env.cache.ingresses_in ep.namespace ≡ got those)
    (listed : (ing : Ingress) → Memᴰ ing ings → ing.namespace ≡ ep.namespace → Memᴰ ing those)
    (plain : has_slash ep.namespace ≡ false)
    (plain_each : (ing : Ingress) → Memᴰ ing ings → has_slash ing.namespace ≡ false)
    (unreferenced : endpoints_referenced lbc env.cache ep ≡ false) where
  -- Under a key other than that of the endpoints all is as it was.
  same_service :
      (key : String)
      → (slashed ep.namespace ep.name =s key) ≡ false
      → SameService env.lib env.cache (with_endpoints env.cache endpoints) key
  same_service key n = (
    refl,
    λ svc f.
        (refl, unchanged svc (ap (λ k. slashed ep.namespace ep.name =s k) (keyed key svc f) ∙ n)),
  )

  default_unnamed : (slashed ep.namespace ep.name =s lbc.default_svc) ≡ false
  default_unnamed = elim (Bool-cases (slashed ep.namespace ep.name =s lbc.default_svc)) [
    | inl e ↦
        let k =
          (endpoints_referenced_iff lbc env.cache ep those lists).1
            (inl ((eq_iff (slashed ep.namespace ep.name) lbc.default_svc).0 e)) in
        cc
    | inr e ↦ e
  ]

  unnamed :
      (ing : Ingress) (r : IngressRule) (paths : List HttpIngressPath) (path : HttpIngressPath)
      → Memᴰ ing ings
      → validate_ingress_class lbc ing ≡ true
      → Memᴰ r ing.rules
      → r.http ≡ some paths
      → Memᴰ path paths
      → (slashed ep.namespace ep.name =s slashed ing.namespace path.backend.service_name) ≡ false
  unnamed ing r paths path m v k e n =
      let key = slashed ing.namespace path.backend.service_name in
      elim (Bool-cases (slashed ep.namespace ep.name =s key)) [
        | inl h ↦
            let (ns, same) =
              slashed-injective ep.namespace ep.name ing.namespace path.backend.service_name plain
                (plain_each ing m) ((eq_iff (slashed ep.namespace ep.name) key).0 h) in
            let refers = (endpoints_referenced_iff lbc env.cache ep those lists).1 (
              inr (
                ing,
                listed ing m (sym ns),
                v,
                (r, paths, path, k, e, n, (eq_iff ep.name path.backend.service_name).1 same),
              )) in
            cc
        | inr h ↦ h
      ]

  -- Endpoints that are not referenced have no bearing on the configuration.
  pub get_upstream_servers-unread_endpoints :
      get_upstream_servers (record env { cache = with_endpoints env.cache endpoints }) lbc ings
      ≡ get_upstream_servers env lbc ings
  get_upstream_servers-unread_endpoints =
      get_upstream_servers-same env lbc (with_endpoints env.cache endpoints) ings refl
        (same_service lbc.default_svc default_unnamed)
        (All-map ings
          (λ ing m v. record {
            secrets = All-map ing.tls (λ s n. refl) (All-mem ing.tls);
            services = λ r paths path k e n. same_service _ (unnamed ing r paths path m v k e n);
          })
          (All-mem ings))
