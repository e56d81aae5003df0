-- ===== src/Controller/Upstreams/Paths.antt =====
-- The upstream of one path of an ingress, the loops over the rules and their paths, and the upstream
-- of the default backend.
pub mod Laws
pub mod Default
pub mod Frame
pub mod Served
use nghttpx_ingress_lb.Common.{
  String, Bool, true, false, Option, none, some, List, [], ◌∷◌, ◌++◌, ◌||◌, not, Result, ok, panic,
  if◌then◌else◌,
}
use nghttpx_ingress_lb.Common.Int.{itoa}
use nghttpx_ingress_lb.Common.Text.{◌<>◌, ◌=s◌, starts_with}
use nghttpx_ingress_lb.Api.{Service, ServicePort, Ingress, HttpIngressPath, IngressRule}
use nghttpx_ingress_lb.Nghttpx.Types.{
  PortBackendConfig, Upstream, UpstreamServer, new_default_server, default_port_backend_config,
  fixup_port_backend_config,
}
use nghttpx_ingress_lb.Controller.Env.{
  LoadBalancerController, Libraries, Caches, BackendConfigs, lookup, lookup_or,
}
use nghttpx_ingress_lb.Common.{Try, failed, got}
use nghttpx_ingress_lb.Controller.Credentials.{slashed}
use nghttpx_ingress_lb.Controller.Endpoints.{get_endpoints, protocol_tcp}

-- `none` is a path that does not start with a slash.
pub normalized_path : String → Option String
normalized_path path =
    if path =s "" then some "/" else if not (starts_with path "/") then none else some path

module _ (lib : Libraries) (cache : Caches) where
  -- whether the ingress's port text names the service's port, by number, target or name
  abbrev pub port_named : String → ServicePort → Bool
  port_named bp p = itoa p.port =s bp || lib.int_or_string_text p.target_port =s bp || p.name =s bp

  pub port_config : Option PortBackendConfig → PortBackendConfig
  port_config none = default_port_backend_config
  port_config (some c) = fixup_port_backend_config c

  -- The loop over the service's ports: the endpoints of the first port that is named.
  service_backends :
      Service → String → List (String × PortBackendConfig) → List ServicePort → List UpstreamServer
  unfolding port_config
  service_backends svc bp configs [] = []
  service_backends svc bp configs (p ∷ ps) =
      if port_named bp p
      then get_endpoints lib cache svc p protocol_tcp (port_config (lookup bp configs))
      else service_backends svc bp configs ps

  pub path_backends : BackendConfigs → HttpIngressPath → Try (Option Service) → List UpstreamServer
  unfolding service_backends
  path_backends configs path (failed _) = []
  path_backends configs path (got none) = []
  path_backends configs path (got (some svc)) =
      service_backends svc (lib.int_or_string_text path.backend.service_port)
        (lookup_or [] path.backend.service_name configs) svc.ports

  abbrev pub upstream_name : Ingress → HttpIngressPath → String → String → String
  upstream_name ing path host normalized =
      slashed ing.namespace path.backend.service_name
      <> ","
      <> lib.int_or_string_text path.backend.service_port
      <> ";"
      <> host
      <> normalized

  module _ (lbc : LoadBalancerController) where
    module _ (ing : Ingress) (require_tls : Bool) (configs : BackendConfigs) where
      upstream_with : String → HttpIngressPath → String → List UpstreamServer → Option Upstream
      upstream_with host path normalized [] = none
      upstream_with host path normalized (b ∷ bs) = some (record {
        name = upstream_name ing path host normalized;
        host = host;
        path = normalized;
        backends = b ∷ bs;
        redirect_if_not_tls = require_tls || not (lbc.default_tls_secret =s "");
      })

      -- One round of the loop over a rule's paths; `none` is a `continue`.
      unfoldable pub path_upstream : String → HttpIngressPath → Option Upstream
      unfolding normalized_path path_backends upstream_with
      path_upstream host path = elim (normalized_path path.path) [
        | none ↦ none
        | some normalized ↦ upstream_with host path normalized (
            path_backends configs path
              (cache.service (slashed ing.namespace path.backend.service_name)))
      ]

      append_some : List Upstream → Option Upstream → List Upstream
      append_some upstreams none = upstreams
      append_some upstreams (some u) = upstreams ++ u ∷ []

      path_loop : String → List HttpIngressPath → List Upstream → List Upstream
      unfolding append_some
      path_loop host [] upstreams = upstreams
      path_loop host (p ∷ ps) upstreams =
          path_loop host ps (append_some upstreams (path_upstream host p))

      rule_paths : String → Option (List HttpIngressPath) → List Upstream → List Upstream
      unfolding path_loop
      rule_paths host none upstreams = upstreams
      rule_paths host (some paths) upstreams = path_loop host paths upstreams

      unfoldable pub rule_loop : List IngressRule → List Upstream → List Upstream
      unfolding rule_paths
      rule_loop [] upstreams = upstreams
      rule_loop (r ∷ rs) upstreams = rule_loop rs (rule_paths r.host r.http upstreams)

    abbrev default_with : List UpstreamServer → Upstream
    default_with backends = record {
      name = lbc.default_svc;
      host = "";
      path = "";
      backends = backends;
      redirect_if_not_tls = not (lbc.default_tls_secret =s "");
    }

    or_default_server : List UpstreamServer → List UpstreamServer
    or_default_server [] = new_default_server ∷ []
    or_default_server (b ∷ bs) = b ∷ bs

    -- `svc.Spec.Ports[0]` panics where the service has no port.
    default_backends : Service → List ServicePort → Result Upstream
    unfolding or_default_server
    default_backends svc [] = panic
    default_backends svc (p ∷ _) = ok (
        default_with (
          or_default_server
            (get_endpoints lib cache svc p protocol_tcp default_port_backend_config)))

    default_for : Try (Option Service) → Result Upstream
    unfolding default_backends
    default_for (failed _) = ok (default_with (new_default_server ∷ []))
    default_for (got none) = ok (default_with (new_default_server ∷ []))
    default_for (got (some svc)) = default_backends svc svc.ports

    unfoldable pub get_default_upstream : Result Upstream
    unfolding default_for
    get_default_upstream = default_for (cache.service lbc.default_svc)
