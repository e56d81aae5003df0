-- ===== src/Controller/Endpoints/Frame.antt =====
-- What `getEndpoints` reads: on caches that agree on the service's pods and endpoints it gives the same.
use nghttpx_ingress_lb.Common.{
  String, ◌≡◌, ◌∙◌, refl, List, [], ◌∷◌, Try, failed, got, inl, inr, Option-cases,
}
use nghttpx_ingress_lb.Common.Int.{atoi}
use nghttpx_ingress_lb.Api.{
  IntOrString, int, str, ServicePort, Service, EndpointPort, EndpointSubset, Endpoints, Pod,
}
use nghttpx_ingress_lb.Nghttpx.Types.{PortBackendConfig, UpstreamServer}
use nghttpx_ingress_lb.Controller.Env.{Libraries, Caches}
use nghttpx_ingress_lb.Controller.Endpoints.{
  first_pod, get_named_port_from_pod, named_port, target_port_for, matched_port, port_loop,
  subset_loop, get_endpoints,
}

-- Two caches give the same pods and the same endpoints for a service.
abbrev pub SameFor : Caches → Caches → Service → Type 0
SameFor cache other svc =
    (other.pods_in svc.namespace svc.selector ≡ cache.pods_in svc.namespace svc.selector)
    × (other.service_endpoints svc ≡ cache.service_endpoints svc)

module _ (lib : Libraries) (cache other : Caches) (svc : Service)
    (same : SameFor cache other svc) where
  first_pod-same :
      (p : ServicePort) (pods : List Pod)
      → first_pod lib other svc p pods ≡ first_pod lib cache svc p pods
  unfolding first_pod
  first_pod-same p [] = refl
  first_pod-same p (pod ∷ pods) = refl

  get_named_port_from_pod-same :
      (p : ServicePort)
      → get_named_port_from_pod lib other svc p ≡ get_named_port_from_pod lib cache svc p
  unfolding get_named_port_from_pod
  get_named_port_from_pod-same p = of (cache.pods_in svc.namespace svc.selector) refl
    where
      of :
          (t : Try (List Pod))
          → cache.pods_in svc.namespace svc.selector ≡ t
          → get_named_port_from_pod lib other svc p ≡ get_named_port_from_pod lib cache svc p
      of (failed e) h = rw (get_named_port_from_pod, h, same.0 ∙ h) refl
      of (got pods) h = rw (get_named_port_from_pod, h, same.0 ∙ h) (first_pod-same p pods)

  named_port-same :
      (p : ServicePort) (text : String)
      → named_port lib other svc p text ≡ named_port lib cache svc p text
  unfolding named_port
  named_port-same p text = elim (Option-cases (atoi text)) [
    | inl e ↦ rw (named_port, e, get_named_port_from_pod-same p) refl
    | inr (n, e) ↦ rw (named_port, e) refl
  ]

  target_port_for-same :
      (p : ServicePort) (t : IntOrString) (e : EndpointPort)
      → target_port_for lib other svc p t e ≡ target_port_for lib cache svc p t e
  unfolding target_port_for
  target_port_for-same p (int n) e = refl
  target_port_for-same p (str text) e = rw (named_port-same p text) refl

  matched_port-same :
      (p : ServicePort) (proto : String) (e : EndpointPort)
      → matched_port lib other svc p proto e ≡ matched_port lib cache svc p proto e
  unfolding matched_port
  matched_port-same p proto e = rw (target_port_for-same p p.target_port e) refl

  module _ (p : ServicePort) (proto : String) (config : PortBackendConfig) where
    port_loop-same :
        (ips : List String) (ports : List EndpointPort) (servers : List UpstreamServer)
        → port_loop lib other svc p proto config ips ports servers
          ≡ port_loop lib cache svc p proto config ips ports servers
    unfolding port_loop
    port_loop-same ips [] servers = refl
    port_loop-same ips (e ∷ es) servers = rw (matched_port-same p proto e) (port_loop-same ips es _)

    subset_loop-same :
        (subsets : List EndpointSubset) (servers : List UpstreamServer)
        → subset_loop lib other svc p proto config subsets servers
          ≡ subset_loop lib cache svc p proto config subsets servers
    unfolding subset_loop
    subset_loop-same [] servers = refl
    subset_loop-same (ss ∷ rest) servers =
        rw (port_loop-same ss.addresses ss.ports servers) (subset_loop-same rest _)

    pub get_endpoints-same :
        get_endpoints lib other svc p proto config ≡ get_endpoints lib cache svc p proto config
    unfolding get_endpoints
    get_endpoints-same = of (cache.service_endpoints svc) refl
      where
        of :
            (t : Try Endpoints)
            → cache.service_endpoints svc ≡ t
            → get_endpoints lib other svc p proto config
              ≡ get_endpoints lib cache svc p proto config
        of (failed e) h = rw (get_endpoints, h, same.1 ∙ h) refl
        of (got ep) h = rw (get_endpoints, h, same.1 ∙ h) (subset_loop-same ep.subsets [])
