-- ===== src/Controller/Fixtures.antt =====
-- A small cluster to run the code of pkg/controller on: two ingresses, a service with endpoints, a
-- secret, a pod and a node.
pub mod Listed
use nghttpx_ingress_lb.Common.{
  String, Bool, true, false, none, some, [], ◌∷◌, ◌&&◌, failed, got, if◌then◌else◌,
}
use nghttpx_ingress_lb.Common.Int.{pos, itoa}
use nghttpx_ingress_lb.Common.Text.{◌=s◌}
use nghttpx_ingress_lb.Common.Sorting.{insertion_sorter}
use nghttpx_ingress_lb.Api.{
  StringMap, IntOrString, int, str, Service, Endpoints, Secret, ConfigMap, Pod, Node, Ingress,
}
use nghttpx_ingress_lb.Nghttpx.Types.{TlsCred}
use nghttpx_ingress_lb.Nghttpx.Tls.{Crypto, rsa}
use nghttpx_ingress_lb.Controller.Env.{LoadBalancerController, Libraries, Caches}
use nghttpx_ingress_lb.Controller.Upstreams.{Environment}

abbrev pub text_of : IntOrString → String
text_of (int n) = itoa n
text_of (str s) = s

-- `selector ⊆ labels`; an empty selector matches everything.
abbrev has_label : String → String → StringMap → Bool
has_label k v [] = false
has_label k v ((j, w) ∷ m) = if k =s j then v =s w else has_label k v m

abbrev matches : StringMap → StringMap → Bool
matches [] labels = true
matches ((k, v) ∷ selector) labels = has_label k v labels && matches selector labels

abbrev pub site_lib : Libraries
site_lib = record {
  int_or_string_text = text_of;
  selector_matches = matches;
  find_port = λ pod port. got (pos 8080);
  unmarshal_backend_config = λ text. ([], some "not JSON");
}

abbrev pub site_crypto : Crypto
site_crypto = record {
  pem_decode = λ b. some b;
  parse_certificate = λ b. got (record { common_name = "shop.example"; dns_names = [] });
  parse_pkcs1 = λ b. some rsa;
  parse_pkcs8 = λ b. none;
  parse_ec = λ b. none;
  sha256_hex = λ b. "5feceb66";
}

abbrev pub site_service : Service
site_service = record {
  namespace = "shop";
  name = "web";
  selector = ("app", "web") ∷ [];
  ports = record { name = "http"; port = pos 80; target_port = str "http" } ∷ [];
}

abbrev pub site_endpoints : Endpoints
site_endpoints = record {
  namespace = "shop";
  name = "web";
  subsets =
      record {
        addresses = "10.0.0.2" ∷ "10.0.0.1" ∷ [];
        ports = record { port = pos 8080; protocol = "TCP" } ∷ [];
      }
      ∷ [];
}

abbrev pub site_secret : Secret
site_secret = record {
  namespace = "shop";
  name = "cert";
  contents = ("tls.crt", 1 ∷ []) ∷ ("tls.key", 2 ∷ []) ∷ [];
}

abbrev pub site_cred : TlsCred
site_cred = record {
  key = record { path = "/etc/nghttpx-tls/shop_cert.key"; content = 2 ∷ []; checksum = "5feceb66" };
  cert = record {
    path = "/etc/nghttpx-tls/shop_cert.crt";
    content = 1 ∷ [];
    checksum = "5feceb66";
  };
}

abbrev pub site_pod : Pod
site_pod = record {
  namespace = "shop";
  name = "web-1";
  labels = ("app", "web") ∷ [];
  node_name = "node-1";
}

abbrev pub site_node : Node
site_node = record {
  name = "node-1";
  addresses =
      record { kind = "InternalIP"; address = "10.1.0.1" }
      ∷ record { kind = "ExternalIP"; address = "198.51.100.7" }
      ∷ [];
}

abbrev pub site_ingress : Ingress
site_ingress = record {
  namespace = "shop";
  name = "front";
  annotations = [];
  tls = "cert" ∷ [];
  rules =
      record {
        host = "shop.example";
        http = some (
            record {
              path = "/cart";
              backend = record { service_name = "web"; service_port = int (pos 80) };
            }
            ∷ []);
      }
      ∷ [];
  load_balancer = [];
}

abbrev pub foreign_ingress : Ingress
foreign_ingress = record site_ingress {
  name = "other";
  annotations = ("kubernetes.io/ingress.class", "nginx") ∷ [];
}

abbrev pub site_config_map : ConfigMap
site_config_map = record {
  namespace = "shop";
  name = "conf";
  contents = ("nghttpx-conf", "log-level=INFO") ∷ [];
}

abbrev pub site_cache : Caches
site_cache = record {
  ingresses = got (site_ingress ∷ foreign_ingress ∷ []);
  ingresses_in = λ ns. got (if ns =s "shop" then site_ingress ∷ foreign_ingress ∷ [] else []);
  service = λ key. got (if key =s "shop/web" then some site_service else none);
  secret = λ key. got (if key =s "shop/cert" then some site_secret else none);
  config_map = λ key. got (if key =s "shop/conf" then some site_config_map else none);
  node = λ key. got (if key =s "node-1" then some site_node else none);
  service_endpoints = λ svc. got site_endpoints;
  pods = λ selector. got (site_pod ∷ []);
  pods_in = λ ns selector. got (site_pod ∷ []);
  pod = λ ns name. if name =s "web-1" then got site_pod else failed "not found";
}

abbrev pub site_lbc : LoadBalancerController
site_lbc = record {
  pod_info = record { pod_name = "web-1"; pod_namespace = "shop" };
  default_svc = "shop/fallback";
  ngx_config_map = "shop/conf";
  default_tls_secret = "shop/cert";
  watch_namespace = "";
  ingress_class = "nghttpx";
  allow_internal_ip = true;
}

abbrev pub site_env : Environment
site_env = record {
  lib = site_lib;
  crypto = site_crypto;
  cache = site_cache;
  sorter = insertion_sorter;
  num_cpu = pos 4;
}
