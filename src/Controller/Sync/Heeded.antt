-- ===== src/Controller/Sync/Heeded.antt =====
-- What the changes of the caches mean for the configuration that `sync` of controller.go makes, and the
-- events that the informers hand out for them.
pub mod Made
pub mod Events
pub mod Unread
pub mod Laws
mod Tests
use nghttpx_ingress_lb.Common.{
  String, ◌≡◌, Bool, true, false, ◌&&◌, Option, none, some, List, [], ◌∷◌, ◌++◌, Result, ok, ◌>>=◌,
  Try, got,
}
use nghttpx_ingress_lb.Common.Text.{◌=s◌}
use nghttpx_ingress_lb.Api.{StringMap, Service, Endpoints, Secret, ConfigMap, Pod, Node, Ingress}
use nghttpx_ingress_lb.Nghttpx.Types.{IngressConfig}
use nghttpx_ingress_lb.Controller.Act.{raised}
use nghttpx_ingress_lb.Controller.Env.{LoadBalancerController, Caches}
use nghttpx_ingress_lb.Controller.Credentials.{slashed}
use nghttpx_ingress_lb.Controller.Names.Laws.{has_slash}
use nghttpx_ingress_lb.Controller.Notifications.{
  Object, ingress_object, endpoints_object, secret_object, config_map_object, pod_object, tombstone,
  foreign, Informer, ingresses, endpoints, services, secrets, pods, nodes, config_maps, Event,
  added, updated, deleted,
}
use nghttpx_ingress_lb.Controller.Upstreams.{Environment, get_upstream_servers}
use nghttpx_ingress_lb.Controller.Upstreams.Unread.{Lists}
use nghttpx_ingress_lb.Controller.Sync.{read_config, get_config_map}
use mathlib.Core.List.{Memᴰ}

-- The states of an object before an event and after it; `none` where there is no object.
pub data Touches {A : Type 0} (wrap : A → Object) : Event → Option A → Option A → Type 0 where
  is_new : (a : A) → Touches wrap (added (wrap a)) none (some a)
  is_changed : (a b : A) → Touches wrap (updated (wrap a) (wrap b)) (some a) (some b)
  is_gone : (a : A) → Touches wrap (deleted (wrap a)) (some a) none
  is_found_gone : (a : A) → Touches wrap (deleted (tombstone (wrap a))) (some a) none

-- What holds of the object in a state where there is one.
abbrev pub Of : {A : Type 0} → (A → Type 0) → Option A → Type 0
Of {A} p o = (a : A) → o ≡ some a → p a

abbrev pub with_option : Option Ingress → List Ingress → List Ingress
with_option none ings = ings
with_option (some ing) ings = ing ∷ ings

module _ (env : Environment) (lbc : LoadBalancerController) where
  abbrev pub at : Caches → Environment
  at cache = record env { cache = cache }

  -- The part of `sync` that makes the configuration for `CheckAndReload`.
  unfoldable pub made_config : Caches → Result IngressConfig
  made_config cache = do
    ings ← raised cache.ingresses
    config ← get_upstream_servers (at cache) lbc ings
    cm ← raised (get_config_map cache lbc.ngx_config_map)
    ok (read_config config cm)

  -- The listers give a service under its own key and in a namespace the ingresses of it, and no
  -- namespace has a slash in its name.
  pub record IsKept (cache : Caches) : Type 0 where
    pub keyed :
        (key : String) (svc : Service)
        → cache.service key ≡ got (some svc)
        → slashed svc.namespace svc.name ≡ key
    pub plain :
        (ings : List Ingress) (ing : Ingress)
        → cache.ingresses ≡ got ings
        → Memᴰ ing ings
        → has_slash ing.namespace ≡ false
    pub lists :
        (ings : List Ingress) (namespace : String)
        → cache.ingresses ≡ got ings
        → has_slash namespace ≡ false
        → Lists (at cache) lbc ings namespace

  -- What an informer does to its cache, and the event that it hands out for it.
  pub data IsChange (cache : Caches) : Caches → Informer → Event → Type 0 where
    ingress_change :
        (e : Event) (old cur : Option Ingress) (xs ys : List Ingress)
        (ingresses_in : String → Try (List Ingress))
        → Touches ingress_object e old cur
        → cache.ingresses ≡ got (xs ++ with_option old ys)
        → IsChange cache
            (record cache {
              ingresses = got (xs ++ with_option cur ys);
              ingresses_in = ingresses_in;
            })
            ingresses
            e
    endpoints_change :
        (e : Event) (old cur : Option Endpoints) (namespace name : String)
        (service_endpoints : Service → Try Endpoints)
        → Touches endpoints_object e old cur
        → has_slash namespace ≡ false
        → Of (λ ep. (ep.namespace ≡ namespace) × (ep.name ≡ name)) old
        → Of (λ ep. (ep.namespace ≡ namespace) × (ep.name ≡ name)) cur
        → ((svc : Service)
            → (slashed namespace name =s slashed svc.namespace svc.name) ≡ false
            → service_endpoints svc ≡ cache.service_endpoints svc)
        → (old ≡ cur → (svc : Service) → service_endpoints svc ≡ cache.service_endpoints svc)
        → IsChange cache (record cache { service_endpoints = service_endpoints }) endpoints e
    secret_change :
        (e : Event) (old cur : Option Secret) (namespace name : String)
        (secret : String → Try (Option Secret))
        → Touches secret_object e old cur
        → has_slash namespace ≡ false
        → Of (λ s. (s.namespace ≡ namespace) × (s.name ≡ name)) old
        → Of (λ s. (s.namespace ≡ namespace) × (s.name ≡ name)) cur
        → ((key : String) → (key =s slashed namespace name) ≡ false → secret key ≡ cache.secret key)
        → (old ≡ cur → (key : String) → secret key ≡ cache.secret key)
        → IsChange cache (record cache { secret = secret }) secrets e
    pod_change :
        (e : Event) (old cur : Option Pod) (namespace : String)
        (pods_in : String → StringMap → Try (List Pod)) (all_pods : StringMap → Try (List Pod))
        (pod : String → String → Try Pod)
        → Touches pod_object e old cur
        → has_slash namespace ≡ false
        → Of (λ p. p.namespace ≡ namespace) old
        → Of (λ p. p.namespace ≡ namespace) cur
        → ((n : String) (selector : StringMap)
            → Of (λ p. (n =s namespace && env.lib.selector_matches selector p.labels) ≡ false) old
            → Of (λ p. (n =s namespace && env.lib.selector_matches selector p.labels) ≡ false) cur
            → pods_in n selector ≡ cache.pods_in n selector)
        → (old ≡ cur
            → (n : String) (selector : StringMap) → pods_in n selector ≡ cache.pods_in n selector)
        → IsChange cache (record cache { pods_in = pods_in; pods = all_pods; pod = pod }) pods e
    config_map_change :
        (e : Event) (old cur : Option ConfigMap) (key : String)
        (config_map : String → Try (Option ConfigMap))
        → Touches config_map_object e old cur
        → Of (λ c. slashed c.namespace c.name ≡ key) old
        → Of (λ c. slashed c.namespace c.name ≡ key) cur
        → ((k : String) → (k =s key) ≡ false → config_map k ≡ cache.config_map k)
        → (old ≡ cur → (k : String) → config_map k ≡ cache.config_map k)
        → IsChange cache (record cache { config_map = config_map }) config_maps e
    node_change :
        (e : Event) (node : String → Try (Option Node))
        → IsChange cache (record cache { node = node }) nodes e
    -- The informer of services has no handler: only a change without consequences is allowed for.
    service_change :
        (e : Event) (service : String → Try (Option Service))
        → made_config (record cache { service = service }) ≡ made_config cache
        → IsChange cache (record cache { service = service }) services e
