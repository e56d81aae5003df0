-- ===== src/Controller/Tests.antt =====
-- The theorems on pkg/controller at concrete data.
use mathlib.Core.List.{Memᴰ}
use nghttpx_ingress_lb.Common.{
  String, ◌≡◌, ◌≢◌, ◌↔◌, ◌⊎◌, refl, true, some, List, [], ◌∷◌, any, map, All, ok,
}
use nghttpx_ingress_lb.Common.Int.{pos}
use nghttpx_ingress_lb.Common.Text.{◌=s◌}
use nghttpx_ingress_lb.Common.Sorting.{insertion_sorter, IsStrictlySorted}
use nghttpx_ingress_lb.Api.{EndpointPort, LoadBalancerIngress, ServicePort, str}
use nghttpx_ingress_lb.Nghttpx.Types.{
  IngressConfig, TlsCred, UpstreamServer, new_ingress_config, default_port_backend_config,
}
use nghttpx_ingress_lb.Controller.Fixtures.{
  site_lib, site_cache, site_lbc, site_ingress, foreign_ingress, site_cred, site_service,
  site_endpoints, site_pod,
}
use nghttpx_ingress_lb.Controller.Credentials.{slashed}
use nghttpx_ingress_lb.Controller.Endpoints.{get_endpoints, matched_port, server_at, protocol_tcp}
use nghttpx_ingress_lb.Controller.Endpoints.Laws.{IsServer, get_endpoints-IsServer_iff}
use nghttpx_ingress_lb.Controller.Endpoints.Ports.{Targets, matched_port-eq-some_iff}
use nghttpx_ingress_lb.Controller.Upstreams.Creds.{arrange_creds}
use nghttpx_ingress_lb.Controller.Upstreams.Creds.Laws.{IsArranged, arrange_creds-IsArranged}
use nghttpx_ingress_lb.Controller.Upstreams.Unique.{unique_backends}
use nghttpx_ingress_lb.Controller.Upstreams.Unique.Laws.{IsUniqueOf, unique_backends-IsUniqueOf}
use nghttpx_ingress_lb.Controller.Addresses.{
  load_balancer_ingresses_ip_equal, less_address, same_address, sort_load_balancer_ingress,
  uniq_load_balancer_ingress, remove_address_from_load_balancer_ingress,
}
use nghttpx_ingress_lb.Controller.Addresses.Laws.{
  ip_of, load_balancer_ingresses_ip_equal_iff, uniq-sort_load_balancer_ingress,
}
use nghttpx_ingress_lb.Controller.Addresses.Removed.{
  without, remove_address_from_load_balancer_ingress-without,
}
use nghttpx_ingress_lb.Controller.References.{
  pod_referenced, endpoints_referenced, secret_referenced,
}
use nghttpx_ingress_lb.Controller.References.Loops.{SomeIngress, SomePath}
use nghttpx_ingress_lb.Controller.References.Laws.{
  IsSelected, pod_referenced_iff, secret_referenced_iff, endpoints_referenced_iff,
}

abbrev http_port : ServicePort
http_port = record { name = "http"; port = pos 80; target_port = str "http" }

abbrev tcp_8080 : EndpointPort
tcp_8080 = record { port = pos 8080; protocol = "TCP" }

get_endpoints-IsServer_iff_example :
    let s = server_at default_port_backend_config (pos 8080) "10.0.0.1" in
    Memᴰ s (
      get_endpoints site_lib site_cache site_service http_port protocol_tcp
        default_port_backend_config)
    ↔ IsServer site_lib site_cache site_service http_port protocol_tcp default_port_backend_config
        site_endpoints.subsets s
get_endpoints-IsServer_iff_example =
    get_endpoints-IsServer_iff site_lib site_cache site_service http_port protocol_tcp
      default_port_backend_config site_endpoints
      (server_at default_port_backend_config (pos 8080) "10.0.0.1") refl

matched_port-eq-some_iff_example :
    (matched_port site_lib site_cache site_service http_port "TCP" tcp_8080 ≡ some (pos 8080)) ↔ (
      ◌≡◌ {A = String} "TCP" "TCP"
      × (pos 8080 ≡ pos 8080)
      × (pos 8080 ≢ pos 0)
      × Targets site_lib site_cache site_service http_port (str "http") (pos 8080))
matched_port-eq-some_iff_example =
    matched_port-eq-some_iff site_lib site_cache site_service http_port "TCP" tcp_8080 (pos 8080)

abbrev other_cred : TlsCred
other_cred = record site_cred {
  key = record { path = "/etc/nghttpx-tls/shop_b.key"; content = []; checksum = "" };
}

arrange_creds-IsArranged_example :
    (c : IngressConfig) × (arrange_creds insertion_sorter
        (some site_cred)
        (site_cred ∷ other_cred ∷ other_cred ∷ [])
        (new_ingress_config (pos 4))
      ≡ ok c)
    × IsArranged (some site_cred) (site_cred ∷ other_cred ∷ other_cred ∷ []) c
unfolding new_ingress_config
arrange_creds-IsArranged_example =
    arrange_creds-IsArranged (new_ingress_config (pos 4)) refl refl refl insertion_sorter
      (some site_cred) (site_cred ∷ other_cred ∷ other_cred ∷ [])

abbrev server : String → UpstreamServer
server ip = server_at default_port_backend_config (pos 80) ip

unique_backends-IsUniqueOf_example :
    (unique : List UpstreamServer) × (unique_backends insertion_sorter
        (server "b" ∷ server "a" ∷ server "b" ∷ [])
      ≡ ok unique)
    × IsUniqueOf (server "b" ∷ server "a" ∷ server "b" ∷ []) unique
unique_backends-IsUniqueOf_example =
    unique_backends-IsUniqueOf insertion_sorter (server "b" ∷ server "a" ∷ server "b" ∷ [])
      (λ e. cc)

abbrev address : String → String → LoadBalancerIngress
address ip hostname = record { ip = ip; hostname = hostname }

load_balancer_ingresses_ip_equal_iff_example :
    (load_balancer_ingresses_ip_equal (address "" "a.example" ∷ []) (address "" "b.example" ∷ [])
      ≡ true)
    ↔ (map ip_of (address "" "a.example" ∷ []) ≡ map ip_of (address "" "b.example" ∷ []))
load_balancer_ingresses_ip_equal_iff_example =
    load_balancer_ingresses_ip_equal_iff (address "" "a.example" ∷ []) (address "" "b.example" ∷ [])

abbrev some_addresses : List LoadBalancerIngress
some_addresses = address "10.0.0.2" "" ∷ address "10.0.0.1" "" ∷ address "10.0.0.2" "" ∷ []

uniq-sort_load_balancer_ingress_example :
    (unique : List LoadBalancerIngress) × (uniq_load_balancer_ingress
        (sort_load_balancer_ingress insertion_sorter some_addresses)
      ≡ ok unique)
    × IsStrictlySorted less_address unique
    × All (λ x. any (λ y. same_address y x) unique ≡ true) some_addresses
uniq-sort_load_balancer_ingress_example =
    uniq-sort_load_balancer_ingress insertion_sorter some_addresses

remove_address_from_load_balancer_ingress-without_example :
    remove_address_from_load_balancer_ingress some_addresses "10.0.0.2"
    ≡ ok (without "10.0.0.2" some_addresses)
remove_address_from_load_balancer_ingress-without_example =
    remove_address_from_load_balancer_ingress-without some_addresses "10.0.0.2"

secret_referenced_iff_example : (secret_referenced site_lbc site_cache "shop" "cert" ≡ true) ↔ (
    (site_lbc.default_tls_secret ≡ slashed "shop" "cert")
    ⊎ SomeIngress site_lbc (λ ing. Memᴰ "cert" ing.tls) (site_ingress ∷ foreign_ingress ∷ []))
secret_referenced_iff_example =
    secret_referenced_iff site_lbc site_cache "shop" "cert" (site_ingress ∷ foreign_ingress ∷ [])
      refl

endpoints_referenced_iff_example :
    (endpoints_referenced site_lbc site_cache site_endpoints ≡ true) ↔ (
      (slashed "shop" "web" ≡ site_lbc.default_svc)
      ⊎ SomeIngress site_lbc
          (λ ing. SomePath (λ path. ("web" =s path.backend.service_name) ≡ true) ing.rules)
          (site_ingress ∷ foreign_ingress ∷ []))
endpoints_referenced_iff_example =
    endpoints_referenced_iff site_lbc site_cache site_endpoints
      (site_ingress ∷ foreign_ingress ∷ []) refl

pod_referenced_iff_example : (pod_referenced site_lbc site_cache site_lib site_pod ≡ true) ↔ (
    IsSelected site_lbc site_cache site_lib site_pod "shop/fallback"
    ⊎ SomeIngress site_lbc
        (λ ing.
          SomePath
            (λ path.
              IsSelected site_lbc site_cache site_lib site_pod
                (slashed "shop" path.backend.service_name))
            ing.rules)
        (site_ingress ∷ foreign_ingress ∷ []))
pod_referenced_iff_example =
    pod_referenced_iff site_lbc site_cache site_lib site_pod (site_ingress ∷ foreign_ingress ∷ [])
      refl
