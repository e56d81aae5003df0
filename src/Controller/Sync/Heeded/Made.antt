-- ===== src/Controller/Sync/Heeded/Made.antt =====
-- The part of `sync` that makes the configuration, and what it reads of the caches.
use nghttpx_ingress_lb.Common.{
  ◌≡◌, ◌∙◌, refl, sym, ap, String, Bool, true, List, [], ◌∷◌, All, Result, ok, err, panic, ◌>>=◌,
  Try, failed, got,
}
use nghttpx_ingress_lb.Api.{ConfigMap, Ingress}
use nghttpx_ingress_lb.Nghttpx.Types.{IngressConfig}
use nghttpx_ingress_lb.Nghttpx.Io.{Io}
use nghttpx_ingress_lb.Controller.Act.{Act, and_then, raised, call, done}
use nghttpx_ingress_lb.Controller.Env.{LoadBalancerController, Caches}
use nghttpx_ingress_lb.Controller.Annotation.{validate_ingress_class}
use nghttpx_ingress_lb.Controller.Credentials.{slashed}
use nghttpx_ingress_lb.Controller.Queue.{WorkQueue}
use nghttpx_ingress_lb.Controller.Upstreams.{Environment, get_upstream_servers}
use nghttpx_ingress_lb.Controller.Upstreams.Frame.{SameForIngress, get_upstream_servers-same}
use nghttpx_ingress_lb.Controller.Upstreams.Paths.Frame.{SameService}
use nghttpx_ingress_lb.Controller.Sync.{read_config, get_config_map, synchronise}
use nghttpx_ingress_lb.Controller.Sync.Heeded.{at, made_config}

-- The three parts of making a configuration, one after another.
abbrev chain :
    Try (List Ingress)
    → (List Ingress → Result IngressConfig)
    → Try ConfigMap
    → Result IngressConfig
chain t f m =
    raised t >>= λ ings. f ings >>= λ config. raised m >>= λ cm. ok (read_config config cm)

chain-same :
    (t : Try (List Ingress)) (f g : List Ingress → Result IngressConfig) (m : Try ConfigMap)
    → ((ings : List Ingress) → t ≡ got ings → f ings ≡ g ings)
    → chain t f m ≡ chain t g m
chain-same (failed e) f g m h = refl
chain-same (got ings) f g m h = rw (h ings refl) refl

module _ {W : Type 0} (check_and_reload : IngressConfig → Io W Bool) (w : W) where
  abbrev hand_over : IngressConfig → Act W (Unit {0})
  hand_over config = λ w. and_then (call (check_and_reload config) w) (λ b. done tt)

  abbrev with_config_map : Try ConfigMap → IngressConfig → Act W (Unit {0})
  with_config_map m config =
      λ w. and_then (raised m, w) (λ cm. λ w. hand_over (read_config config cm) w)

  with_config_map-chain :
      (r : Result IngressConfig) (m : Try ConfigMap)
      → and_then (r, w) (with_config_map m)
        ≡ and_then (r >>= (λ config. raised m >>= λ cm. ok (read_config config cm)), w) hand_over
  with_config_map-chain (ok config) (failed e) = refl
  with_config_map-chain (ok config) (got cm) = refl
  with_config_map-chain (err e) m = refl
  with_config_map-chain panic m = refl

  hand_over-chain :
      (t : Try (List Ingress)) (f : List Ingress → Result IngressConfig) (m : Try ConfigMap)
      → and_then (raised t, w) (λ ings. λ w. and_then (f ings, w) (with_config_map m))
        ≡ and_then (chain t f m, w) hand_over
  hand_over-chain (failed e) f m = refl
  hand_over-chain (got ings) f m = with_config_map-chain (f ings) m

module _ (env : Environment) (lbc : LoadBalancerController) where
  -- `synchronise` makes the configuration and hands it to `CheckAndReload`.
  synchronise-made_config :
      {W Q : Type 0} (check_and_reload : IngressConfig → Io W Bool) (queue : WorkQueue Q)
      (cache : Caches) (w : W)
      → synchronise (at env lbc cache) lbc check_and_reload queue w
        ≡ and_then (made_config env lbc cache, w) (hand_over check_and_reload w)
  unfolding synchronise made_config
  synchronise-made_config check_and_reload queue cache w =
      hand_over-chain check_and_reload w cache.ingresses
        (get_upstream_servers (at env lbc cache) lbc) (get_config_map cache lbc.ngx_config_map)

  pub made_config-same :
      (cache other : Caches)
      → other.ingresses ≡ cache.ingresses
      → ((ings : List Ingress)
          → cache.ingresses ≡ got ings
          → get_upstream_servers (at env lbc other) lbc ings
            ≡ get_upstream_servers (at env lbc cache) lbc ings)
      → get_config_map other lbc.ngx_config_map ≡ get_config_map cache lbc.ngx_config_map
      → made_config env lbc other ≡ made_config env lbc cache
  unfolding made_config
  made_config-same cache other same each map =
      let f = get_upstream_servers (at env lbc other) lbc in
      ap (λ t. chain t f (get_config_map other lbc.ngx_config_map)) same
      ∙ (ap (λ m. chain cache.ingresses f m) map
          ∙ chain-same cache.ingresses f (get_upstream_servers (at env lbc cache) lbc)
              (get_config_map cache lbc.ngx_config_map) each)

  pub made_config-listed :
      (cache other : Caches) (ings ings' : List Ingress)
      → cache.ingresses ≡ got ings
      → other.ingresses ≡ got ings'
      → get_upstream_servers (at env lbc other) lbc ings'
        ≡ get_upstream_servers (at env lbc cache) lbc ings
      → get_config_map other lbc.ngx_config_map ≡ get_config_map cache lbc.ngx_config_map
      → made_config env lbc other ≡ made_config env lbc cache
  unfolding made_config
  made_config-listed cache other ings ings' l l' servers map =
      let f = get_upstream_servers (at env lbc other) lbc in
      let g = get_upstream_servers (at env lbc cache) lbc in
      let m = get_config_map cache lbc.ngx_config_map in
      ap (λ t. chain t f (get_config_map other lbc.ngx_config_map)) l'
      ∙ (ap (λ m. chain (got ings') f m) map
          ∙ (ap (λ r. chain (got ings) (λ _. r) m) servers ∙ sym (ap (λ t. chain t g m) l)))

module _ (env : Environment) (lbc : LoadBalancerController) (cache other : Caches) where
  pub reads_same :
      (ings : List Ingress)
      → other.secret ≡ cache.secret
      → other.service ≡ cache.service
      → other.service_endpoints ≡ cache.service_endpoints
      → other.pods_in ≡ cache.pods_in
      → get_upstream_servers (at env lbc other) lbc ings
        ≡ get_upstream_servers (at env lbc cache) lbc ings
  reads_same ings secret service endpoints pods =
      get_upstream_servers-same (at env lbc cache) lbc other ings
        (ap (λ f. f lbc.default_tls_secret) secret) (for_service lbc.default_svc) (each ings)
    where
      for_service : (key : String) → SameService env.lib cache other key
      for_service key = (
        ap (λ f. f key) service,
        λ svc found. (ap (λ f. f svc.namespace svc.selector) pods, ap (λ f. f svc) endpoints),
      )

      secrets_of :
          (namespace : String) (names : List String)
          → All (λ s. other.secret (slashed namespace s) ≡ cache.secret (slashed namespace s)) names
      secrets_of namespace [] = tt
      secrets_of namespace (s ∷ names) =
          (ap (λ f. f (slashed namespace s)) secret, secrets_of namespace names)

      each :
          (ings : List Ingress)
          → All
              (λ ing.
                validate_ingress_class lbc ing ≡ true
                → SameForIngress (at env lbc cache) lbc other ing)
              ings
      each [] = tt
      each (ing ∷ rest) = (
        λ v. record {
          secrets = secrets_of ing.namespace ing.tls;
          services = λ r paths path m h mp. for_service _;
        },
        each rest,
      )

  -- Only fields that `getUpstreamServers` does not read have changed.
  pub made_config-unread_fields :
      other.ingresses ≡ cache.ingresses
      → other.config_map ≡ cache.config_map
      → other.secret ≡ cache.secret
      → other.service ≡ cache.service
      → other.service_endpoints ≡ cache.service_endpoints
      → other.pods_in ≡ cache.pods_in
      → made_config env lbc other ≡ made_config env lbc cache
  unfolding get_config_map
  made_config-unread_fields listed config_map secret service endpoints pods =
      made_config-same env lbc cache other listed
        (λ ings l. reads_same ings secret service endpoints pods)
        (ap (λ f. get_config_map (record cache { config_map = f }) lbc.ngx_config_map) config_map)

  pub get_config_map-same :
      (key : String)
      → other.config_map key ≡ cache.config_map key
      → get_config_map other key ≡ get_config_map cache key
  unfolding get_config_map
  get_config_map-same key same = rw same refl
