-- ===== src/Controller/Sync/Heeded/Tests.antt =====
-- Endpoints that no ingress refers to, added to a small cluster.
use mathlib.Core.Option.{some-injective}
use nghttpx_ingress_lb.Common.{
  ◌≡◌, ◌⊎◌, refl, Bool, true, false, some, none, [], Try, got, got_injective, if◌then◌else◌,
}
use nghttpx_ingress_lb.Common.Text.{◌=s◌}
use nghttpx_ingress_lb.Api.{Service, Endpoints}
use nghttpx_ingress_lb.Controller.Env.{Caches}
use nghttpx_ingress_lb.Controller.Fixtures.{site_cache, site_env, site_lbc}
use nghttpx_ingress_lb.Controller.Fixtures.Listed.{
  site_ingresses, site_namespaces, site_keyed, site_listed,
}
use nghttpx_ingress_lb.Controller.Credentials.{slashed}
use nghttpx_ingress_lb.Controller.Notifications.{Object, endpoints, endpoints_object, Event, added}
use nghttpx_ingress_lb.Controller.Notifications.Laws.{concerns}
use nghttpx_ingress_lb.Controller.Sync.Heeded.{
  IsKept, IsChange, endpoints_change, is_new, made_config,
}
use nghttpx_ingress_lb.Controller.Sync.Heeded.Laws.{IsChange-heeded}

-- The endpoints of a service that no ingress names.
abbrev unused_endpoints : Endpoints
unused_endpoints = record { namespace = "shop"; name = "unused"; subsets = [] }

abbrev without_unused : Service → Try Endpoints
without_unused svc =
    if "shop/unused" =s slashed svc.namespace svc.name
    then got unused_endpoints
    else site_cache.service_endpoints svc

abbrev with_unused : Caches
with_unused = record site_cache { service_endpoints = without_unused }

abbrev event : Event
event = added (endpoints_object unused_endpoints)

site_IsKept : IsKept site_env site_lbc site_cache
site_IsKept = record {
  keyed = site_keyed;
  plain = λ ings ing l m. site_namespaces ing (rw (got_injective l) m);
  lists = λ ings ns l p. record {
    those = if ns =s "shop" then site_ingresses else [];
    lists = refl;
    listed = λ ing m. site_listed ns ing (rw (got_injective l) m);
    plain = p;
  };
}

unused_added : IsChange site_env site_lbc site_cache with_unused endpoints event
unused_added =
    endpoints_change event none (some unused_endpoints) "shop" "unused" without_unused
      (is_new unused_endpoints) refl (λ s k. cc) (λ s k. rw (← some-injective _ _ k) (refl, refl))
      (λ svc n. rw n refl) (λ k. cc)

abbrev never_equal : Object → Object → Bool
never_equal old cur = false

never_equal_sound : (a b : Object) → never_equal a b ≡ true → a ≡ b
never_equal_sound a b h = cc

IsChange-heeded_example :
    (concerns never_equal site_env.lib with_unused site_lbc endpoints event ≡ true)
    ⊎ (made_config site_env site_lbc with_unused ≡ made_config site_env site_lbc site_cache)
IsChange-heeded_example =
    IsChange-heeded never_equal never_equal_sound site_env site_lbc site_cache site_IsKept
      with_unused endpoints event unused_added
