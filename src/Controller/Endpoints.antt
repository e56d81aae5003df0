-- ===== src/Controller/Endpoints.antt =====
-- `getEndpoints` and `getNamedPortFromPod` of controller.go.
pub mod Laws
pub mod Ports
pub mod Frame
use nghttpx_ingress_lb.Common.{String, Bool, Option, none, some, List, [], ◌∷◌, ◌++◌, if◌then◌else◌}
use nghttpx_ingress_lb.Common.Int.{ℤ, pos, ◌=i◌, to_int32, itoa, atoi}
use nghttpx_ingress_lb.Common.Text.{◌<>◌, ◌=s◌}
use nghttpx_ingress_lb.Api.{
  IntOrString, int, str, Service, ServicePort, Endpoints, EndpointSubset, EndpointPort, Pod,
}
use nghttpx_ingress_lb.Nghttpx.Types.{PortBackendConfig, UpstreamServer}
use nghttpx_ingress_lb.Controller.Env.{Caches, Libraries}
use nghttpx_ingress_lb.Common.{Try, failed, got}
use nghttpx_ingress_lb.Controller.Credentials.{slashed}

abbrev pub protocol_tcp : String
protocol_tcp = "TCP"

-- the literal of the innermost loop
abbrev pub server_at : PortBackendConfig → ℤ → String → UpstreamServer
server_at config target_port ip = record {
  address = ip;
  port = itoa target_port;
  protocol = config.proto;
  tls = config.tls;
  sni = config.sni;
  dns = config.dns;
  affinity = config.affinity;
}

-- the loop over `ss.Addresses`
address_loop : PortBackendConfig → ℤ → List String → List UpstreamServer → List UpstreamServer
address_loop config target_port [] servers = servers
address_loop config target_port (ip ∷ rest) servers =
    address_loop config target_port rest (servers ++ server_at config target_port ip ∷ [])

module _ (lib : Libraries) (cache : Caches) where
  first_pod : Service → ServicePort → List Pod → Try ℤ
  first_pod svc service_port [] =
      failed ("No Pods available for Service " <> slashed svc.namespace svc.name)
  first_pod svc service_port (pod ∷ _) = elim (lib.find_port pod service_port) [
    | failed e ↦ failed (
        "Failed to find port "
        <> lib.int_or_string_text service_port.target_port
        <> " from Pod "
        <> slashed pod.namespace pod.name
        <> ": "
        <> e)
    | got port ↦ got (to_int32 port)
  ]

  unfoldable pub get_named_port_from_pod : Service → ServicePort → Try ℤ
  unfolding first_pod
  get_named_port_from_pod svc service_port = elim (cache.pods_in svc.namespace svc.selector) [
    | failed e ↦ failed ("Could not get Pods " <> slashed svc.namespace svc.name <> ": " <> e)
    | got pods ↦ first_pod svc service_port pods
  ]

  -- The port that a target port in text stands for; `none` is the `continue` on an error.
  named_port : Service → ServicePort → String → Option ℤ
  named_port svc service_port text = elim (atoi text) [
    | some p ↦ some (to_int32 p)
    | none ↦ elim (get_named_port_from_pod svc service_port) [
      | got port ↦ some port
      | failed _ ↦ none
    ]
  ]

  -- The `switch` over the target port: the endpoint's port where it matches, and else 0.
  target_port_for : Service → ServicePort → IntOrString → EndpointPort → Option ℤ
  unfolding named_port
  target_port_for svc service_port (int wanted) ep_port =
      some (if ep_port.port =i wanted then ep_port.port else pos 0)
  target_port_for svc service_port (str text) ep_port =
      if text =s "" then some (pos 0) else elim (named_port svc service_port text) [
        | none ↦ none
        | some port ↦ some (if ep_port.port =i port then port else pos 0)
      ]

  -- The target port of an endpoint's port; `none` where the loop goes on to the next one.
  unfoldable pub matched_port : Service → ServicePort → String → EndpointPort → Option ℤ
  unfolding target_port_for
  matched_port svc service_port proto ep_port =
      if ep_port.protocol =s proto
      then elim (target_port_for svc service_port service_port.target_port ep_port) [
        | none ↦ none
        | some port ↦ if port =i pos 0 then none else some port
      ]
      else none

  module _ (svc : Service) (service_port : ServicePort) (proto : String)
      (config : PortBackendConfig) where
    add_addresses : List String → Option ℤ → List UpstreamServer → List UpstreamServer
    unfolding address_loop
    add_addresses ips none servers = servers
    add_addresses ips (some port) servers = address_loop config port ips servers

    port_loop : List String → List EndpointPort → List UpstreamServer → List UpstreamServer
    unfolding add_addresses
    port_loop ips [] servers = servers
    port_loop ips (p ∷ ps) servers =
        port_loop ips ps (add_addresses ips (matched_port svc service_port proto p) servers)

    subset_loop : List EndpointSubset → List UpstreamServer → List UpstreamServer
    unfolding port_loop
    subset_loop [] servers = servers
    subset_loop (ss ∷ rest) servers = subset_loop rest (port_loop ss.addresses ss.ports servers)

    unfoldable pub get_endpoints : List UpstreamServer
    unfolding subset_loop
    get_endpoints = elim (cache.service_endpoints svc) [
      | failed _ ↦ []
      | got ep ↦ subset_loop ep.subsets []
    ]
