-- ===== src/Controller/Upstreams/Unread/SecretChange.antt =====
-- The secrets that are not referenced, for `getUpstreamServers`.
use mathlib.Core.List.{Memᴰ}
use mathlib.Core.List.Memᴰ
use nghttpx_ingress_lb.Common.{
  String, ◌≡◌, refl, sym, true, false, Option, List, All-map, All-mem, Try, got, inl, inr,
  Bool-cases,
}
use nghttpx_ingress_lb.Common.Text.{◌=s◌, eq_iff}
use nghttpx_ingress_lb.Api.{Secret, Ingress}
use nghttpx_ingress_lb.Controller.Env.{LoadBalancerController, Caches}
use nghttpx_ingress_lb.Controller.Annotation.{validate_ingress_class}
use nghttpx_ingress_lb.Controller.Credentials.{slashed}
use nghttpx_ingress_lb.Controller.Names.Laws.{has_slash, slashed-injective}
use nghttpx_ingress_lb.Controller.References.{secret_referenced}
use nghttpx_ingress_lb.Controller.References.Laws.{secret_referenced_iff}
use nghttpx_ingress_lb.Controller.Upstreams.{Environment, get_upstream_servers}
use nghttpx_ingress_lb.Controller.Upstreams.Frame.{SameForIngress, get_upstream_servers-same}

abbrev pub with_secrets : Caches → (String → Try (Option Secret)) → Caches
with_secrets cache secret = record cache { secret = secret }

module _ (env : Environment) (lbc : LoadBalancerController) (secret : String → Try (Option Secret))
    (namespace name : String)
    (unchanged : (key : String)
      → (key =s slashed namespace name) ≡ false
      → secret key ≡ env.cache.secret key)
    (ings those : List Ingress) (lists : env.cache.ingresses_in namespace ≡ got those)
    (listed : (ing : Ingress) → Memᴰ ing ings → ing.namespace ≡ namespace → Memᴰ ing those)
    (plain : has_slash namespace ≡ false)
    (plain_each : (ing : Ingress) → Memᴰ ing ings → has_slash ing.namespace ≡ false)
    (unreferenced : secret_referenced lbc env.cache namespace name ≡ false) where
  default_unnamed : (lbc.default_tls_secret =s slashed namespace name) ≡ false
  default_unnamed = elim (Bool-cases (lbc.default_tls_secret =s slashed namespace name)) [
    | inl e ↦
        let k =
          (secret_referenced_iff lbc env.cache namespace name those lists).1
            (inl ((eq_iff lbc.default_tls_secret (slashed namespace name)).0 e)) in
        cc
    | inr e ↦ e
  ]

  unnamed :
      (ing : Ingress) (s : String)
      → Memᴰ ing ings
      → validate_ingress_class lbc ing ≡ true
      → Memᴰ s ing.tls
      → (slashed ing.namespace s =s slashed namespace name) ≡ false
  unnamed ing s m v n = elim (Bool-cases (slashed ing.namespace s =s slashed namespace name)) [
    | inl e ↦
        let (ns, same) =
          slashed-injective ing.namespace s namespace name (plain_each ing m) plain
            ((eq_iff (slashed ing.namespace s) (slashed namespace name)).0 e) in
        let k =
          (secret_referenced_iff lbc env.cache namespace name those lists).1
            (inr (ing, listed ing m ns, v, Memᴰ.cast (sym same) n)) in
        cc
    | inr e ↦ e
  ]

  same_for :
      (ing : Ingress)
      → Memᴰ ing ings
      → validate_ingress_class lbc ing ≡ true
      → SameForIngress env lbc (with_secrets env.cache secret) ing
  same_for ing m v = record {
    secrets =
        All-map ing.tls (λ s n. unchanged (slashed ing.namespace s) (unnamed ing s m v n))
          (All-mem ing.tls);
    services = λ r paths path k e n. (refl, λ svc f. (refl, refl));
  }

  -- A secret that is not referenced has no bearing on the configuration.
  pub get_upstream_servers-unread_secret :
      get_upstream_servers (record env { cache = with_secrets env.cache secret }) lbc ings
      ≡ get_upstream_servers env lbc ings
  get_upstream_servers-unread_secret =
      get_upstream_servers-same env lbc (with_secrets env.cache secret) ings
        (unchanged lbc.default_tls_secret default_unnamed) (refl, λ svc f. (refl, refl))
        (All-map ings same_for (All-mem ings))
