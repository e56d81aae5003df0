-- ===== src/Main/Tests.antt =====
-- The theorems on the start of the controller at a small cluster.
use nghttpx_ingress_lb.Common.{String, ◌≡◌, ◌↔◌, refl, true, false, got}
use nghttpx_ingress_lb.Common.Text.{ne_of_test}
use nghttpx_ingress_lb.Controller.Credentials.{slashed}
use nghttpx_ingress_lb.Controller.Env.{PodInfo}
use nghttpx_ingress_lb.Controller.Names.{split_slashes, parse_ns_name, is_valid_service}
use nghttpx_ingress_lb.Controller.Names.Laws.{has_slash, parse_ns_name-eq-got_iff}
use nghttpx_ingress_lb.Main.{
  Flags, Cluster, runs, config_of, main, validated, new_load_balancer_controller, cm_namespace,
}
use nghttpx_ingress_lb.Main.Laws.{IsValid, given, main-IsValid, main-cm_namespace}

abbrev site_cluster : Cluster String String String
site_cluster = record {
  in_cluster_config = got "config";
  client_config = got "config";
  new_for_config = λ config. got config;
  get_service = λ clientset ns name. got name;
}

abbrev site_flags : Flags
site_flags = record {
  build_cfg = false;
  default_svc = "shop/fallback";
  ngx_config_map = "shop/conf";
  in_cluster = true;
  watch_namespace = "";
  default_tls_secret = "";
  ingress_class = "nghttpx";
  allow_internal_ip = false;
  pod_name = "web-1";
  pod_namespace = "shop";
}

abbrev site_info : PodInfo
site_info = record { pod_name = "web-1"; pod_namespace = "shop" }

site_runs : main site_cluster site_flags ≡ runs (config_of site_flags) site_info
unfolding main validated parse_ns_name is_valid_service split_slashes
site_runs = refl

parse_ns_name-eq-got_iff_example : (parse_ns_name "shop/conf" ≡ got ("shop", "conf")) ↔ (
    ("shop/conf" ≡ slashed "shop" "conf") × (has_slash "shop" ≡ false) × (has_slash "conf" ≡ false))
parse_ns_name-eq-got_iff_example = parse_ns_name-eq-got_iff "shop/conf" "shop" "conf"

main-IsValid_example :
    IsValid site_cluster site_flags
    × (new_load_balancer_controller (config_of site_flags) site_info
        ≡ given site_cluster site_flags)
main-IsValid_example =
    main-IsValid site_cluster site_flags (config_of site_flags) site_info site_runs

main-cm_namespace_example :
    (name : String) × ("shop/conf"
      ≡ slashed (cm_namespace (new_load_balancer_controller (config_of site_flags) site_info)) name)
    × (has_slash name ≡ false)
main-cm_namespace_example =
    main-cm_namespace site_cluster site_flags (config_of site_flags) site_info site_runs
      (ne_of_test "shop/conf" "" refl)
