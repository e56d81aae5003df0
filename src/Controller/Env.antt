-- ===== src/Controller/Env.antt =====
-- The controller's configuration, the caches that it reads, and what it calls of its libraries.
use nghttpx_ingress_lb.Common.{String, Bool, Option, none, some, List, [], ◌∷◌, if◌then◌else◌, Try}
use nghttpx_ingress_lb.Common.Int.{ℤ}
use nghttpx_ingress_lb.Common.Text.{◌=s◌}
use nghttpx_ingress_lb.Api.{
  StringMap, IntOrString, ServicePort, Service, Endpoints, Secret, ConfigMap, Pod, Node, Ingress,
}
use nghttpx_ingress_lb.Nghttpx.Types.{PortBackendConfig}

pub record PodInfo : Type 0 where
  pub pod_name : String
  pub pod_namespace : String

-- The fields of `LoadBalancerController` that are set once, by `NewLoadBalancerController`.
pub record LoadBalancerController : Type 0 where
  pub pod_info : PodInfo
  pub default_svc : String
  pub ngx_config_map : String
  pub default_tls_secret : String
  pub watch_namespace : String
  pub ingress_class : String
  pub allow_internal_ip : Bool

-- The listers. `GetByKey` gives `got none` where the object does not exist.
pub record Caches : Type 0 where
  pub ingresses : Try (List Ingress)
  pub ingresses_in : String → Try (List Ingress)
  pub service : String → Try (Option Service)
  pub secret : String → Try (Option Secret)
  pub config_map : String → Try (Option ConfigMap)
  pub node : String → Try (Option Node)
  pub service_endpoints : Service → Try Endpoints
  pub pods : StringMap → Try (List Pod)
  pub pods_in : String → StringMap → Try (List Pod)
  pub pod : String → String → Try Pod

-- `backendConfig[service][port]`
abbrev pub BackendConfigs : Type 0
BackendConfigs = List (String × List (String × PortBackendConfig))

-- `IntOrString.String`, `labels.Set(selector).AsSelector().Matches`, `podutil.FindPort`, and
-- `json.Unmarshal` into the annotation's type: what it leaves in the target, and its error.
pub record Libraries : Type 0 where
  pub int_or_string_text : IntOrString → String
  pub selector_matches : StringMap → StringMap → Bool
  pub find_port : Pod → ServicePort → Try ℤ
  pub unmarshal_backend_config : String → BackendConfigs × Option String

-- `m[key]`, with its `ok`
abbrev pub lookup {ℓ} : {V : Type ℓ} → String → List (String × V) → Option V
lookup key [] = none
lookup key ((k, v) ∷ m) = if k =s key then some v else lookup key m

-- `m[key]` alone: the zero value where the key is missing
abbrev pub lookup_or {ℓ} : {V : Type ℓ} → V → String → List (String × V) → V
lookup_or zero_value key [] = zero_value
lookup_or zero_value key ((k, v) ∷ m) = if k =s key then v else lookup_or zero_value key m
