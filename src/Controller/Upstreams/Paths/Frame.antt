-- ===== src/Controller/Upstreams/Paths/Frame.antt =====
-- What the upstreams of an ingress and of the default backend are made from: on caches that agree on the
-- services that are named, and on their pods and endpoints, they are the same.
use mathlib.Core.List.{Memᴰ}
use nghttpx_ingress_lb.Common.{
  String, ◌≡◌, refl, Bool, Option, none, some, List, [], ◌∷◌, Try, failed, got, inl, inr,
  Bool-cases, Option-cases,
}
use nghttpx_ingress_lb.Api.{ServicePort, Service, Ingress, HttpIngressPath, IngressRule}
use nghttpx_ingress_lb.Nghttpx.Types.{PortBackendConfig, default_port_backend_config, Upstream}
use nghttpx_ingress_lb.Controller.Env.{LoadBalancerController, Libraries, Caches, BackendConfigs}
use nghttpx_ingress_lb.Controller.Credentials.{slashed}
use nghttpx_ingress_lb.Controller.Endpoints.{protocol_tcp}
use nghttpx_ingress_lb.Controller.Endpoints.Frame.{SameFor, get_endpoints-same}
use nghttpx_ingress_lb.Controller.Upstreams.Paths.{
  normalized_path, port_named, service_backends, path_backends, path_upstream, path_loop,
  rule_paths, rule_loop, default_backends, default_for, get_default_upstream,
}

module _ (lib : Libraries) (cache other : Caches) where
  -- The caches give the same under the key of a service.
  abbrev pub SameService : String → Type 0
  SameService key =
      (other.service key ≡ cache.service key)
      × ((svc : Service) → cache.service key ≡ got (some svc) → SameFor cache other svc)

  -- The caches give the same for the service of every path of the rules.
  abbrev pub SameForRules : String → List IngressRule → Type 0
  SameForRules namespace rs =
      (r : IngressRule) (paths : List HttpIngressPath) (path : HttpIngressPath)
      → Memᴰ r rs
      → r.http ≡ some paths
      → Memᴰ path paths
      → SameService (slashed namespace path.backend.service_name)

  service_backends-same :
      (svc : Service) (bp : String) (configs : List (String × PortBackendConfig))
      (ports : List ServicePort)
      → SameFor cache other svc
      → service_backends lib other svc bp configs ports
        ≡ service_backends lib cache svc bp configs ports
  unfolding service_backends
  service_backends-same svc bp configs [] same = refl
  service_backends-same svc bp configs (p ∷ ps) same =
      elim (Bool-cases (port_named lib cache bp p)) [
        | inl e ↦ rw (e, get_endpoints-same lib cache other svc same p protocol_tcp _) refl
        | inr e ↦ rw e (service_backends-same svc bp configs ps same)
      ]

  path_backends-same :
      (configs : BackendConfigs) (path : HttpIngressPath) (key : String)
      → SameService key
      → path_backends lib other configs path (other.service key)
        ≡ path_backends lib cache configs path (cache.service key)
  unfolding path_backends
  path_backends-same configs path key (e, same) = rw e (of (cache.service key) same)
    where
      of :
          (t : Try (Option Service))
          → ((svc : Service) → t ≡ got (some svc) → SameFor cache other svc)
          → path_backends lib other configs path t ≡ path_backends lib cache configs path t
      of (failed m) k = refl
      of (got none) k = refl
      of (got (some svc)) k = service_backends-same svc _ _ svc.ports (k svc refl)

  module _ (lbc : LoadBalancerController) where
    module _ (ing : Ingress) (require_tls : Bool) (configs : BackendConfigs) where
      abbrev SameForPath : HttpIngressPath → Type 0
      SameForPath path = SameService (slashed ing.namespace path.backend.service_name)

      path_upstream-same :
          (host : String) (path : HttpIngressPath)
          → SameForPath path
          → path_upstream lib other lbc ing require_tls configs host path
            ≡ path_upstream lib cache lbc ing require_tls configs host path
      unfolding path_upstream
      path_upstream-same host path same = elim (Option-cases (normalized_path path.path)) [
        | inl e ↦ rw (path_upstream, e) refl
        | inr (n, e) ↦ rw (path_upstream, e, path_backends-same configs path _ same) refl
      ]

      path_loop-same :
          (host : String) (paths : List HttpIngressPath) (us : List Upstream)
          → ((path : HttpIngressPath) → Memᴰ path paths → SameForPath path)
          → path_loop lib other lbc ing require_tls configs host paths us
            ≡ path_loop lib cache lbc ing require_tls configs host paths us
      unfolding path_loop
      path_loop-same host [] us same = refl
      path_loop-same host (p ∷ ps) us same =
          rw (path_upstream-same host p (same p (Memᴰ.head refl)))
            (path_loop-same host ps _ (λ q m. same q (Memᴰ.tail m)))

      rule_paths-same :
          (host : String) (http : Option (List HttpIngressPath)) (us : List Upstream)
          → ((paths : List HttpIngressPath) (path : HttpIngressPath)
              → http ≡ some paths
              → Memᴰ path paths
              → SameForPath path)
          → rule_paths lib other lbc ing require_tls configs host http us
            ≡ rule_paths lib cache lbc ing require_tls configs host http us
      unfolding rule_paths
      rule_paths-same host none us same = refl
      rule_paths-same host (some paths) us same =
          path_loop-same host paths us (λ path m. same paths path refl m)

      pub rule_loop-same :
          (rs : List IngressRule) (us : List Upstream)
          → SameForRules ing.namespace rs
          → rule_loop lib other lbc ing require_tls configs rs us
            ≡ rule_loop lib cache lbc ing require_tls configs rs us
      unfolding rule_loop
      rule_loop-same [] us same = refl
      rule_loop-same (r ∷ rs) us same =
          rw
            (rule_paths-same r.host r.http us
              (λ paths path e m. same r paths path (Memᴰ.head refl) e m))
            (rule_loop-same rs _ (λ q paths path m e n. same q paths path (Memᴰ.tail m) e n))

    default_backends-same :
        (svc : Service) (ports : List ServicePort)
        → SameFor cache other svc
        → default_backends lib other lbc svc ports ≡ default_backends lib cache lbc svc ports
    unfolding default_backends
    default_backends-same svc [] same = refl
    default_backends-same svc (p ∷ ps) same =
        rw (get_endpoints-same lib cache other svc same p protocol_tcp default_port_backend_config)
          refl

    pub get_default_upstream-same :
        SameService lbc.default_svc
        → get_default_upstream lib other lbc ≡ get_default_upstream lib cache lbc
    unfolding get_default_upstream default_for
    get_default_upstream-same (e, same) = rw e (of (cache.service lbc.default_svc) same)
      where
        of :
            (t : Try (Option Service))
            → ((svc : Service) → t ≡ got (some svc) → SameFor cache other svc)
            → default_for lib other lbc t ≡ default_for lib cache lbc t
        of (failed m) k = refl
        of (got none) k = refl
        of (got (some svc)) k = default_backends-same svc svc.ports (k svc refl)
