-- ===== src/Controller/Sync/Heeded/Laws.antt =====
-- A change of the caches for which no handler queues a synchronisation, and the configuration.
use nghttpx_ingress_lb.Common.{
  ◌≡◌, ◌∙◌, ◌⊎◌, inl, inr, refl, sym, ap, fun_ext, String, Bool, true, false, Option, none, some,
  List, ◌++◌, Bool-cases,
}
use nghttpx_ingress_lb.Common.Text.{◌=s◌, eq_iff}
use nghttpx_ingress_lb.Api.{Ingress}
use nghttpx_ingress_lb.Controller.Env.{LoadBalancerController, Caches}
use nghttpx_ingress_lb.Controller.Annotation.{validate_ingress_class}
use nghttpx_ingress_lb.Controller.Notifications.{
  Object, ingress_object, config_map_object, Informer, Event, as_ingress, as_config_map, ingresses,
  endpoints, secrets, pods, config_maps, nodes, services,
}
use nghttpx_ingress_lb.Controller.Notifications.Laws.{concerns}
use nghttpx_ingress_lb.Controller.Upstreams.{Environment, get_upstream_servers}
use nghttpx_ingress_lb.Controller.Credentials.{slashed}
use nghttpx_ingress_lb.Controller.Upstreams.Ignored.{get_upstream_servers_of_IsIgnored}
use nghttpx_ingress_lb.Controller.Sync.Heeded.{
  Of, with_option, at, made_config, IsKept, IsChange, ingress_change, config_map_change,
  node_change, service_change,
}
use nghttpx_ingress_lb.Controller.Sync.Heeded.Made.{
  made_config-same, made_config-listed, get_config_map-same, reads_same, made_config-unread_fields,
}
use nghttpx_ingress_lb.Controller.Sync.Heeded.Events.{Unread, quiet, touched}
use nghttpx_ingress_lb.Controller.Sync.Heeded.Unread.{
  Unheeded, secret-Unheeded, endpoints-Unheeded, pod-Unheeded,
}

unequal_swap : (s t u : String) → s ≡ t → (s =s u) ≡ false → (u =s t) ≡ false
unequal_swap s t u same n = elim (Bool-cases (u =s t)) [
  | inl h ↦
      let k : (s =s u) ≡ true = (eq_iff s u).1 (same ∙ sym ((eq_iff u t).0 h)) in
      let absurd : false ≡ true = sym n ∙ k in cc
  | inr h ↦ h
]

module _ (deep_equal : Object → Object → Bool)
    (equal : (a b : Object) → deep_equal a b ≡ true → a ≡ b) (env : Environment)
    (lbc : LoadBalancerController) (cache : Caches) (kept : IsKept env lbc cache) where
  config_map-Unheeded :
      (other : Caches) (e : Event)
      → IsChange env lbc cache other config_maps e
      → Unheeded deep_equal equal env lbc cache kept other config_maps e
  config_map-Unheeded other e (config_map_change _ old cur key config_map touches o c others same)
        n =
      elim (quiet deep_equal equal env lbc other config_map_object as_config_map (λ s. refl)
        config_maps e old cur touches n) [
          | inl h ↦
              ap (λ f. made_config env lbc (record cache { config_map = f })) (fun_ext (same h))
          | inr (u, v) ↦
              let (cm, unread, named) =
                touched (Unread deep_equal equal env lbc other config_map_object) _ touches u v o
                  c in
              made_config-same env lbc cache other refl
                (λ ings l. reads_same env lbc cache other ings refl refl refl refl)
                (get_config_map-same env lbc cache other lbc.ngx_config_map (
                  others lbc.ngx_config_map (
                    unequal_swap (slashed cm.namespace cm.name) key lbc.ngx_config_map named
                      unread)))
        ]

  node-Unheeded :
      (other : Caches) (e : Event)
      → IsChange env lbc cache other nodes e
      → made_config env lbc other ≡ made_config env lbc cache
  node-Unheeded other e (node_change _ node) =
      made_config-unread_fields env lbc cache other refl refl refl refl refl refl

  -- An ingress of another class may be there or not.
  ignored_option :
      (xs ys : List Ingress) (o : Option Ingress)
      → Of (λ ing. validate_ingress_class lbc ing ≡ false) o
      → get_upstream_servers (at env lbc cache) lbc (xs ++ with_option o ys)
        ≡ get_upstream_servers (at env lbc cache) lbc (xs ++ ys)
  ignored_option xs ys none h = refl
  ignored_option xs ys (some ing) h =
      get_upstream_servers_of_IsIgnored (at env lbc cache) lbc xs ing ys (inl (h ing refl))

  ingress-Unheeded :
      (other : Caches) (e : Event)
      → IsChange env lbc cache other ingresses e
      → Unheeded deep_equal equal env lbc cache kept other ingresses e
  ingress-Unheeded other e (ingress_change _ old cur xs ys ingresses_in touches listed) n =
      made_config-listed env lbc cache other (xs ++ with_option old ys) (xs ++ with_option cur ys)
        listed refl
        (reads_same env lbc cache other (xs ++ with_option cur ys) refl refl refl refl ∙ servers)
        (get_config_map-same env lbc cache other lbc.ngx_config_map refl)
    where
      servers :
          get_upstream_servers (at env lbc cache) lbc (xs ++ with_option cur ys)
          ≡ get_upstream_servers (at env lbc cache) lbc (xs ++ with_option old ys)
      servers =
          elim (quiet deep_equal equal env lbc other ingress_object as_ingress (λ s. refl) ingresses
            e old cur touches n) [
              | inl h ↦
                  ap (λ o. get_upstream_servers (at env lbc cache) lbc (xs ++ with_option o ys))
                    (sym h)
              | inr (u, v) ↦ ignored_option xs ys cur v ∙ sym (ignored_option xs ys old u)
            ]

  -- Whatever an informer does to its cache, be it an ingress, endpoints, a secret, a pod, a config map or
  -- a node that is added, updated or deleted: the event concerns the configuration, so that its handler
  -- queues a synchronisation, or `sync` makes the same configuration as before, or the same error; where
  -- objects that `reflect.DeepEqual` takes for equal are equal, and the lister gives a service under its
  -- own key and in a namespace the ingresses of it, and no namespace has a slash in it. Of the services,
  -- only a change without consequences is allowed for.
  pub IsChange-heeded :
      (other : Caches) (i : Informer) (e : Event)
      → IsChange env lbc cache other i e
      → (concerns deep_equal env.lib other lbc i e ≡ true)
        ⊎ (made_config env lbc other ≡ made_config env lbc cache)
  IsChange-heeded other i e change = elim (Bool-cases (concerns deep_equal env.lib other lbc i e)) [
    | inl h ↦ inl h
    | inr h ↦ inr (unheeded other i e change h)
  ]
    where
      unheeded :
          (other : Caches) (i : Informer) (e : Event)
          → IsChange env lbc cache other i e
          → Unheeded deep_equal equal env lbc cache kept other i e
      unheeded other ingresses e change h = ingress-Unheeded other e change h
      unheeded other endpoints e change h =
          endpoints-Unheeded deep_equal equal env lbc cache kept other e change h
      unheeded other secrets e change h =
          secret-Unheeded deep_equal equal env lbc cache kept other e change h
      unheeded other pods e change h =
          pod-Unheeded deep_equal equal env lbc cache kept other e change h
      unheeded other config_maps e change h = config_map-Unheeded other e change h
      unheeded other nodes e change h = node-Unheeded other e change
      unheeded other services e (service_change _ service same) h = same
