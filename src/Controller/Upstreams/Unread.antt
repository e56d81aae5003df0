-- ===== src/Controller/Upstreams/Unread.antt =====
-- The objects that the filters of the notification handlers leave out, for `getUpstreamServers`.
pub mod SecretChange
pub mod EndpointsChange
pub mod PodChange
use mathlib.Core.List.{Memᴰ}
use nghttpx_ingress_lb.Common.{String, ◌≡◌, false, ◌&&◌, Option, some, List, Try, got}
use nghttpx_ingress_lb.Common.Text.{◌=s◌}
use nghttpx_ingress_lb.Api.{StringMap, Secret, Service, Endpoints, Pod, Ingress}
use nghttpx_ingress_lb.Controller.Env.{LoadBalancerController, Caches}
use nghttpx_ingress_lb.Controller.Credentials.{slashed}
use nghttpx_ingress_lb.Controller.Names.Laws.{has_slash}
use nghttpx_ingress_lb.Controller.References.{
  secret_referenced, endpoints_referenced, pod_referenced,
}
use nghttpx_ingress_lb.Controller.Upstreams.{Environment, get_upstream_servers}
use SecretChange.{with_secrets, get_upstream_servers-unread_secret}
use EndpointsChange.{with_endpoints, get_upstream_servers-unread_endpoints}
use PodChange.{with_pods, get_upstream_servers-unread_pod}

module _ (env : Environment) (lbc : LoadBalancerController) (ings : List Ingress) where
  -- The lister gives the ingresses of a namespace that are among `ings`, and the namespace has no slash
  -- in its name.
  pub record Lists (namespace : String) : Type 0 where
    pub those : List Ingress
    pub lists : env.cache.ingresses_in namespace ≡ got those
    pub listed : (ing : Ingress) → Memᴰ ing ings → ing.namespace ≡ namespace → Memᴰ ing those
    pub plain : has_slash namespace ≡ false

  -- Caches in which all is as it was but for one secret, or the endpoints of one service, or one pod,
  -- which are not referenced.
  pub data IsUnread : Caches → Type 0 where
    secret_changed :
        (namespace name : String) (secret : String → Try (Option Secret))
        → ((key : String)
            → (key =s slashed namespace name) ≡ false
            → secret key ≡ env.cache.secret key)
        → Lists namespace
        → secret_referenced lbc env.cache namespace name ≡ false
        → IsUnread (with_secrets env.cache secret)
    endpoints_changed :
        (ep : Endpoints) (endpoints : Service → Try Endpoints)
        → ((svc : Service)
            → (slashed ep.namespace ep.name =s slashed svc.namespace svc.name) ≡ false
            → endpoints svc ≡ env.cache.service_endpoints svc)
        → Lists ep.namespace
        → endpoints_referenced lbc env.cache ep ≡ false
        → IsUnread (with_endpoints env.cache endpoints)
    pod_changed :
        (pod : Pod) (pods : String → StringMap → Try (List Pod))
        → ((namespace : String) (selector : StringMap)
            → (namespace =s pod.namespace && env.lib.selector_matches selector pod.labels) ≡ false
            → pods namespace selector ≡ env.cache.pods_in namespace selector)
        → Lists pod.namespace
        → pod_referenced lbc env.cache env.lib pod ≡ false
        → IsUnread (with_pods env.cache pods)

  -- An object that is not referenced has no bearing on the configuration: whatever becomes of a secret, of
  -- endpoints or of a pod that the filters of the notification handlers leave out, while all else is as
  -- it was, getUpstreamServers returns the same; provided that the lister gives the ingresses of the
  -- object's namespace and a service under its own key, and no namespace has a slash in it.
  pub get_upstream_servers-unread :
      (keyed : (key : String) (svc : Service)
        → env.cache.service key ≡ got (some svc)
        → slashed svc.namespace svc.name ≡ key)
      → ((ing : Ingress) → Memᴰ ing ings → has_slash ing.namespace ≡ false)
      → (cache : Caches) → IsUnread cache
      → get_upstream_servers (record env { cache = cache }) lbc ings
        ≡ get_upstream_servers env lbc ings
  get_upstream_servers-unread keyed each cache (secret_changed namespace name secret same l n) =
      get_upstream_servers-unread_secret env lbc secret namespace name same ings l.those l.lists
        l.listed l.plain each n
  get_upstream_servers-unread keyed each cache (endpoints_changed ep endpoints same l n) =
      get_upstream_servers-unread_endpoints env lbc endpoints ep same keyed ings l.those l.lists
        l.listed l.plain each n
  get_upstream_servers-unread keyed each cache (pod_changed pod pods same l n) =
      get_upstream_servers-unread_pod env lbc pods pod same keyed ings l.those l.lists l.listed
        l.plain each n
