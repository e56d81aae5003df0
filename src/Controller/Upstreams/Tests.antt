-- ===== src/Controller/Upstreams/Tests.antt =====
-- A run of `getUpstreamServers`, and the theorems on it at concrete data.
use nghttpx_ingress_lb.Common.{
  ◌≡◌, ◌↔◌, refl, inl, inr, true, false, Option, some, List, [], ◌∷◌, any, ok, err, panic, got,
}
use nghttpx_ingress_lb.Common.Arrays.{for_range}
use nghttpx_ingress_lb.Common.Int.{pos, itoa, atoi, to_int32}
use nghttpx_ingress_lb.Common.Sorting.{insertion_sorter}
use nghttpx_ingress_lb.Api.{Ingress}
use nghttpx_ingress_lb.Nghttpx.Types.{
  IngressConfig, TlsCred, new_ingress_config, new_default_server, default_port_backend_config,
}
use nghttpx_ingress_lb.Nghttpx.Pems.{remove_duplicate_pems}
use nghttpx_ingress_lb.Nghttpx.Tls.{
  create_tls_cred, common_names, check_private_key, tls_cred_prefix, create_tls_key_path,
  create_tls_cert_path,
}
use nghttpx_ingress_lb.Controller.Env.{LoadBalancerController}
use nghttpx_ingress_lb.Controller.Fixtures.{
  site_cache, site_env, site_lbc, site_ingress, foreign_ingress, site_cred, site_service,
}
use nghttpx_ingress_lb.Controller.Annotation.{validate_ingress_class, get_backend_config}
use nghttpx_ingress_lb.Controller.Credentials.{
  get_tls_cred_from_secret, create_tls_cred_from_secret, get_tls_cred_from_ingress,
}
use nghttpx_ingress_lb.Controller.Endpoints.{
  server_at, get_endpoints, matched_port, get_named_port_from_pod,
}
use nghttpx_ingress_lb.Controller.Upstreams.{
  Environment, default_cred, is_default, get_upstream_servers,
}
use nghttpx_ingress_lb.Controller.Upstreams.Paths.{get_default_upstream, path_upstream, rule_loop}
use nghttpx_ingress_lb.Controller.Upstreams.Creds.{arrange_creds}
use nghttpx_ingress_lb.Controller.Upstreams.Creds.Laws.{IsArranged}
use nghttpx_ingress_lb.Controller.Upstreams.Unique.{unique_backends}
use nghttpx_ingress_lb.Controller.Upstreams.Collected.{all_upstreams, all_pems}
use nghttpx_ingress_lb.Controller.Upstreams.Config.{
  IsConfig, CanServeRest, get_upstream_servers-IsConfig,
}
use nghttpx_ingress_lb.Controller.Upstreams.Failures.{
  IsPortless, get_upstream_servers-eq-err_iff, get_upstream_servers-eq-panic_iff,
}
use nghttpx_ingress_lb.Controller.Upstreams.Ignored.{get_upstream_servers_of_IsForeign}
use mathlib.Core.List.{Memᴰ}
use nghttpx_ingress_lb.Common.Text.{ne_of_test}
use nghttpx_ingress_lb.Controller.Credentials.Unusable.{deleted}

site_default_cred : default_cred site_env site_lbc ≡ ok (some site_cred)
unfolding default_cred get_tls_cred_from_secret create_tls_cred_from_secret common_names
    check_private_key create_tls_cred create_tls_key_path create_tls_cert_path tls_cred_prefix
site_default_cred = refl

abbrev site_ingresses : List Ingress
site_ingresses = foreign_ingress ∷ site_ingress ∷ []

site_rest : CanServeRest site_env site_lbc site_ingresses
unfolding get_default_upstream
site_rest = inr (_, refl)

get_upstream_servers-IsConfig_example :
    (config : IngressConfig) × (get_upstream_servers site_env site_lbc site_ingresses ≡ ok config)
    × IsConfig site_env site_lbc site_ingresses config
    × IsArranged (some site_cred) (all_pems site_env site_lbc site_ingresses) config
get_upstream_servers-IsConfig_example =
    get_upstream_servers-IsConfig site_env site_lbc site_ingresses (some site_cred)
      site_default_cred site_rest

-- The upstreams of the path and of the default backend, and the default secret's credential once.
site_run :
    let config = get_upstream_servers site_env site_lbc site_ingresses in
    config
    ≡ ok (record (new_ingress_config (pos 4)) {
      upstreams =
          record {
            name = "shop/fallback";
            host = "";
            path = "";
            backends = new_default_server ∷ [];
            redirect_if_not_tls = true;
          }
          ∷ record {
            name = "shop/web,80;shop.example/cart";
            host = "shop.example";
            path = "/cart";
            backends =
                server_at default_port_backend_config (pos 8080) "10.0.0.1"
                ∷ server_at default_port_backend_config (pos 8080) "10.0.0.2"
                ∷ [];
            redirect_if_not_tls = true;
          }
          ∷ [];
      tls = true;
      default_tls_cred = some site_cred;
      sub_tls_cred = [];
    })
unfolding get_upstream_servers get_tls_cred_from_secret create_tls_cred_from_secret common_names
    check_private_key create_tls_cred create_tls_key_path create_tls_cert_path tls_cred_prefix
    validate_ingress_class get_tls_cred_from_ingress get_backend_config rule_loop path_upstream
    get_default_upstream unique_backends arrange_creds remove_duplicate_pems for_range itoa
    get_endpoints matched_port get_named_port_from_pod atoi to_int32 insertion_sorter
    default_port_backend_config new_default_server new_ingress_config
site_run = refl

-- The default secret of another name is not there.
abbrev bare_lbc : LoadBalancerController
bare_lbc = record site_lbc { default_tls_secret = "shop/gone" }

get_upstream_servers-eq-err_iff_example :
    (get_upstream_servers site_env bare_lbc site_ingresses
      ≡ err "Secret shop/gone has been deleted")
    ↔ (default_cred site_env bare_lbc ≡ err "Secret shop/gone has been deleted")
get_upstream_servers-eq-err_iff_example =
    get_upstream_servers-eq-err_iff site_env bare_lbc site_ingresses
      "Secret shop/gone has been deleted"

bare_fails :
    get_upstream_servers site_env bare_lbc site_ingresses ≡ err "Secret shop/gone has been deleted"
unfolding default_cred get_tls_cred_from_secret
bare_fails = get_upstream_servers-eq-err_iff_example.1 refl

-- A default service without ports.
abbrev portless_env : Environment
portless_env = record site_env {
  cache = record site_cache { service = λ key. got (some (record site_service { ports = [] })) };
}

get_upstream_servers-eq-panic_iff_example :
    (get_upstream_servers portless_env site_lbc [] ≡ panic) ↔ (
      ((cred : Option TlsCred) × (default_cred portless_env site_lbc ≡ ok cred))
      × (any (is_default portless_env site_lbc) (all_upstreams portless_env site_lbc []) ≡ false)
      × IsPortless portless_env.cache site_lbc)
get_upstream_servers-eq-panic_iff_example =
    get_upstream_servers-eq-panic_iff portless_env site_lbc []

portless_panics : get_upstream_servers portless_env site_lbc [] ≡ panic
unfolding all_upstreams get_default_upstream default_cred get_tls_cred_from_secret
    create_tls_cred_from_secret common_names check_private_key create_tls_cred
portless_panics = get_upstream_servers-eq-panic_iff_example.1 ((_, refl), refl, (_, refl, refl))

get_upstream_servers_of_IsForeign_example :
    get_upstream_servers site_env site_lbc site_ingresses
    ≡ get_upstream_servers site_env site_lbc (site_ingress ∷ [])
get_upstream_servers_of_IsForeign_example =
    get_upstream_servers_of_IsForeign site_env site_lbc [] foreign_ingress (site_ingress ∷ [])
      (inl ("nginx", refl, ne_of_test _ _ refl, ne_of_test _ _ refl))

-- An ingress with a secret that is not there.
abbrev broken_ingress : Ingress
broken_ingress = record site_ingress { tls = "cert" ∷ "gone" ∷ [] }

broken_is_left_out :
    get_upstream_servers site_env site_lbc (site_ingress ∷ broken_ingress ∷ [])
    ≡ get_upstream_servers site_env site_lbc (site_ingress ∷ [])
broken_is_left_out =
    get_upstream_servers_of_IsForeign site_env site_lbc (site_ingress ∷ []) broken_ingress []
      (inr ("gone", Memᴰ.tail (Memᴰ.head refl), deleted))
