-- ===== src/Main.antt =====
-- cmd/main.go: what `main` checks before it runs the controller, and what `NewLoadBalancerController` of
-- pkg/controller/controller.go makes of the configuration. Parsing the command line, the configurations
-- of the Kubernetes client and the client itself are parameters.
pub mod Laws
pub mod Handlers
mod Tests
use nghttpx_ingress_lb.Common.{
  ℕ, String, Bool, true, false, Option, none, some, not, ◌==◌, Try, failed, got, if◌then◌else◌,
}
use nghttpx_ingress_lb.Common.Fallible.{◌>>=◌, wrap_err}
use nghttpx_ingress_lb.Common.Text.{◌<>◌, ◌=s◌}
use nghttpx_ingress_lb.Controller.Env.{PodInfo, LoadBalancerController}
use nghttpx_ingress_lb.Controller.Names.{parse_ns_name, is_valid_service}

-- The flags that `main` checks or passes on, but for the resync period, and the environment variables
-- `POD_NAME` and `POD_NAMESPACE`.
pub record Flags : Type 0 where
  pub build_cfg : Bool
  pub default_svc : String
  pub ngx_config_map : String
  pub in_cluster : Bool
  pub watch_namespace : String
  pub default_tls_secret : String
  pub ingress_class : String
  pub allow_internal_ip : Bool
  pub pod_name : String
  pub pod_namespace : String

-- `restclient.InClusterConfig`, `clientConfig.ClientConfig`, `internalclientset.NewForConfig`, and the
-- lookup of a service by the client.
pub record Cluster (R K S : Type 0) : Type 0 where
  pub in_cluster_config : Try R
  pub client_config : Try R
  pub new_for_config : R → Try K
  pub get_service : K → String → String → Try S

-- `controller.Config`, but for the resync period
pub record Config : Type 0 where
  pub default_backend_service : String
  pub watch_namespace : String
  pub nghttpx_config_map : String
  pub default_tls_secret : String
  pub ingress_class : String
  pub allow_internal_ip : Bool

-- What `main` comes to: it exits with a message or without one, or it runs the controller.
pub data Started : Type 0 where
  exits : Started
  fails : String → Started
  runs : Config → PodInfo → Started

abbrev pub config_of : Flags → Config
config_of flags = record {
  default_backend_service = flags.default_svc;
  watch_namespace = flags.watch_namespace;
  nghttpx_config_map = flags.ngx_config_map;
  default_tls_secret = flags.default_tls_secret;
  ingress_class = flags.ingress_class;
  allow_internal_ip = flags.allow_internal_ip;
}

-- `if name != "" { if _, _, err := ParseNSName(name); err != nil { glog.Fatalf } }`
abbrev pub checked_name : String → String → Try (Unit {0})
checked_name what name =
    if name =s ""
    then got tt
    else wrap_err (λ e. "could not parse " <> what <> " " <> name <> ": " <> e)
        (parse_ns_name name >>= λ parts. got tt)

abbrev pub non_empty : String → String → Try (Unit {0})
non_empty message value = if value =s "" then failed message else got tt

module _ {R K S : Type 0} (cluster : Cluster R K S) (flags : Flags) where
  abbrev rest_config : Try R
  rest_config =
      if flags.in_cluster
      then wrap_err (λ e. "Could not get clientConfig: " <> e) cluster.in_cluster_config
      else wrap_err (λ e. "error connecting to the client: " <> e) cluster.client_config

  -- The checks of `main`, in their order.
  unfoldable pub validated : Try (Unit {0})
  validated = do
    _ ← non_empty "Please specify --default-backend-service" flags.default_svc
    config ← rest_config
    clientset ← wrap_err (λ e. "Failed to create clientset: " <> e) (cluster.new_for_config config)
    _ ←
        wrap_err (λ e. "no service with name " <> flags.default_svc <> " found: " <> e)
          (is_valid_service (cluster.get_service clientset) flags.default_svc)
    _ ← checked_name "configmap name" flags.ngx_config_map
    _ ← checked_name "Secret" flags.default_tls_secret
    _ ← non_empty "POD_NAME environment variable cannot be empty." flags.pod_name
    non_empty "POD_NAMESPACE environment variable cannot be empty." flags.pod_namespace

  started : Try (Unit {0}) → Started
  started (failed e) = fails e
  started (got u) =
      runs (config_of flags)
        (record { pod_name = flags.pod_name; pod_namespace = flags.pod_namespace })

  unfoldable pub main : Started
  unfolding started
  main = if flags.build_cfg then exits else started validated

-- The fields that `NewLoadBalancerController` sets from the configuration.
unfoldable pub new_load_balancer_controller : Config → PodInfo → LoadBalancerController
new_load_balancer_controller config runtime_info = record {
  pod_info = runtime_info;
  default_svc = config.default_backend_service;
  ngx_config_map = config.nghttpx_config_map;
  default_tls_secret = config.default_tls_secret;
  watch_namespace = config.watch_namespace;
  ingress_class = config.ingress_class;
  allow_internal_ip = config.allow_internal_ip;
}

-- `ns, _, _ := ParseNSName(…)`: the error is dropped, and the text is empty then.
abbrev first_part : Try (String × String) → String
first_part (failed e) = ""
first_part (got parts) = parts.0

-- The namespace whose config maps are watched.
unfoldable pub cm_namespace : LoadBalancerController → String
cm_namespace lbc =
    if not (lbc.ngx_config_map =s "")
    then first_part (parse_ns_name lbc.ngx_config_map)
    else lbc.pod_info.pod_namespace

-- `healthzChecker.Check`, on the status code that nghttpx answers.
unfoldable pub check : Try ℕ → Try (Unit {0})
check status = do code ← status; if not (code == 200) then failed "nghttpx is unhealthy" else got tt
