-- ===== src/Controller/Sync/Heeded/Unread.antt =====
-- The secrets, endpoints and pods that no handler queues a synchronisation for.
use nghttpx_ingress_lb.Common.{
  ◌≡◌, ◌∙◌, inl, inr, refl, ap, fun_ext, String, Bool, true, false, ◌&&◌, Option, none, some, List,
  Try, got, Bool-cases, if◌then◌else◌,
}
use nghttpx_ingress_lb.Common.Text.{◌=s◌}
use nghttpx_ingress_lb.Api.{StringMap, Pod, Ingress}
use nghttpx_ingress_lb.Controller.Env.{LoadBalancerController, Caches}
use nghttpx_ingress_lb.Controller.References.{
  endpoints_referenced, secret_referenced, pod_referenced,
}
use nghttpx_ingress_lb.Controller.Notifications.{
  Object, endpoints_object, secret_object, pod_object, Informer, Event, as_endpoints, as_secret,
  as_pod, endpoints, secrets, pods,
}
use nghttpx_ingress_lb.Controller.Notifications.Laws.{concerns}
use nghttpx_ingress_lb.Controller.Names.Laws.{has_slash}
use nghttpx_ingress_lb.Controller.Upstreams.{Environment}
use nghttpx_ingress_lb.Controller.Upstreams.Unread.{
  IsUnread, secret_changed, endpoints_changed, pod_changed, get_upstream_servers-unread,
}
use nghttpx_ingress_lb.Controller.Sync.{get_config_map}
use nghttpx_ingress_lb.Controller.Sync.Heeded.{
  Touches, Of, at, made_config, IsKept, IsChange, endpoints_change, secret_change, pod_change,
}
use nghttpx_ingress_lb.Controller.Upstreams.Unread.PodChange.{with_pods}
use nghttpx_ingress_lb.Controller.Sync.Heeded.Made.{made_config-same, made_config-unread_fields}
use nghttpx_ingress_lb.Controller.Sync.Heeded.Events.{Of-some, Unread, quiet, touched}

module _ (deep_equal : Object → Object → Bool)
    (equal : (a b : Object) → deep_equal a b ≡ true → a ≡ b) (env : Environment)
    (lbc : LoadBalancerController) (cache : Caches) (kept : IsKept env lbc cache) where
  -- A change that has no bearing on an object that is not referenced.
  pub made_config-unread :
      (other : Caches)
      → other.ingresses ≡ cache.ingresses
      → other.config_map ≡ cache.config_map
      → ((ings : List Ingress)
          → cache.ingresses ≡ got ings
          → IsUnread (at env lbc cache) lbc ings other)
      → made_config env lbc other ≡ made_config env lbc cache
  unfolding get_config_map
  made_config-unread other listed config_map unread =
      made_config-same env lbc cache other listed
        (λ ings l.
          get_upstream_servers-unread (at env lbc cache) lbc ings kept.keyed
            (λ ing m. kept.plain ings ing l m) other (unread ings l))
        (ap (λ f. get_config_map (record cache { config_map = f }) lbc.ngx_config_map) config_map)

  abbrev pub Unheeded : Caches → Informer → Event → Type 0
  Unheeded other i e =
      concerns deep_equal env.lib other lbc i e ≡ false
      → made_config env lbc other ≡ made_config env lbc cache

  pub secret-Unheeded :
      (other : Caches) (e : Event)
      → IsChange env lbc cache other secrets e
      → Unheeded other secrets e
  unfolding secret_referenced
  secret-Unheeded other e (secret_change _ old cur ns nm secret touches plain o c others same) n =
      elim (quiet deep_equal equal env lbc other secret_object as_secret (λ s. refl) secrets e old
        cur touches n) [
          | inl h ↦ ap (λ f. made_config env lbc (record cache { secret = f })) (fun_ext (same h))
          | inr (u, v) ↦
              let (s, unread, (in_ns, named)) =
                touched (Unread deep_equal equal env lbc other secret_object) _ touches u v o c in
              made_config-unread other refl refl (λ ings l.
                secret_changed ns nm secret others (kept.lists ings ns l plain)
                  (rw (← in_ns, ← named) unread))
        ]

  pub endpoints-Unheeded :
      (other : Caches) (e : Event)
      → IsChange env lbc cache other endpoints e
      → Unheeded other endpoints e
  unfolding endpoints_referenced
  endpoints-Unheeded other e (endpoints_change _ old cur ns nm eps touches plain o c others same)
        n =
      elim (quiet deep_equal equal env lbc other endpoints_object as_endpoints (λ s. refl) endpoints
        e old cur touches n) [
          | inl h ↦
              ap (λ f. made_config env lbc (record cache { service_endpoints = f }))
                (fun_ext (same h))
          | inr (u, v) ↦
              let (ep, unread, (in_ns, named)) =
                touched (Unread deep_equal equal env lbc other endpoints_object) _ touches u v o
                  c in
              made_config-unread other refl refl (λ ings l.
                endpoints_changed ep eps (rw (in_ns, named) others)
                  (rw in_ns (kept.lists ings ns l plain)) unread)
        ]

  abbrev is_selected : String → String → StringMap → Pod → Bool
  is_selected ns n selector p = n =s ns && env.lib.selector_matches selector p.labels

  pod_unread :
      (ns : String) (pods_in : String → StringMap → Try (List Pod)) (p : Pod)
      → has_slash ns ≡ false
      → p.namespace ≡ ns
      → ((n : String) (selector : StringMap)
          → is_selected ns n selector p ≡ false
          → pods_in n selector ≡ cache.pods_in n selector)
      → pod_referenced lbc cache env.lib p ≡ false
      → made_config env lbc (with_pods cache pods_in) ≡ made_config env lbc cache
  pod_unread ns pods_in p plain in_ns others n =
      made_config-unread (with_pods cache pods_in) refl refl (λ ings l.
        pod_changed p pods_in (rw in_ns others) (rw in_ns (kept.lists ings ns l plain)) n)

  -- The pods as they are where the pod that is not selected any more has been left alone.
  abbrev between :
      String → (String → StringMap → Try (List Pod)) → Pod → String → StringMap → Try (List Pod)
  between ns pods_in b n selector =
      if is_selected ns n selector b then pods_in n selector else cache.pods_in n selector

  IsKept-between :
      (pods_in : String → StringMap → Try (List Pod)) → IsKept env lbc (with_pods cache pods_in)
  IsKept-between pods_in = record {
    keyed = kept.keyed;
    plain = kept.plain;
    lists = λ ings ns l p.
        let k = kept.lists ings ns l p in
        record { those = k.those; lists = k.lists; listed = k.listed; plain = k.plain };
  }

module _ (deep_equal : Object → Object → Bool)
    (equal : (a b : Object) → deep_equal a b ≡ true → a ≡ b) (env : Environment)
    (lbc : LoadBalancerController) (cache : Caches) (kept : IsKept env lbc cache) where
  abbrev selects : String → String → StringMap → Pod → Bool
  selects = is_selected deep_equal equal env lbc cache kept

  -- The old pod is left out of account after the new one.
  both_unread :
      (ns : String) (pods_in : String → StringMap → Try (List Pod)) (a b : Pod)
      → has_slash ns ≡ false
      → a.namespace ≡ ns
      → b.namespace ≡ ns
      → ((n : String) (selector : StringMap)
          → selects ns n selector a ≡ false
          → selects ns n selector b ≡ false
          → pods_in n selector ≡ cache.pods_in n selector)
      → pod_referenced lbc cache env.lib a ≡ false
      → pod_referenced lbc cache env.lib b ≡ false
      → made_config env lbc (with_pods cache pods_in) ≡ made_config env lbc cache
  unfolding pod_referenced
  both_unread ns pods_in a b plain in_ns in_ns' others n n' =
      let middle = between deep_equal equal env lbc cache kept ns pods_in b in
      pod_unread deep_equal equal env lbc (with_pods cache middle)
        (IsKept-between deep_equal equal env lbc cache kept middle) ns pods_in a plain in_ns
        (λ n selector h. elim (Bool-cases (selects ns n selector b)) [
          | inl k ↦ rw k refl
          | inr k ↦ rw k (others n selector h k)
        ])
        n
      ∙ pod_unread deep_equal equal env lbc cache kept ns middle b plain in_ns'
          (λ n selector h. rw h refl) n'

  pub pod-Unheeded :
      (other : Caches) (e : Event)
      → IsChange env lbc cache other pods e
      → Unheeded deep_equal equal env lbc cache kept other pods e
  unfolding pod_referenced
  pod-Unheeded other e (pod_change _ old cur ns pods_in all_pods pod touches plain o c others same)
        n =
      made_config-unread_fields env lbc (with_pods cache pods_in) other refl refl refl refl refl
        refl
      ∙ elim (quiet deep_equal equal env lbc other pod_object as_pod (λ s. refl) pods e old cur
          touches n) [
            | inl h ↦
                ap (λ f. made_config env lbc (with_pods cache f))
                  (fun_ext (λ n. fun_ext (same h n)))
            | inr (u, v) ↦ of e old cur touches o c others u v
          ]
    where
      of :
          (e : Event) (old cur : Option Pod)
          → Touches pod_object e old cur
          → Of (λ p. p.namespace ≡ ns) old
          → Of (λ p. p.namespace ≡ ns) cur
          → ((n : String) (selector : StringMap)
              → Of (λ p. selects ns n selector p ≡ false) old
              → Of (λ p. selects ns n selector p ≡ false) cur
              → pods_in n selector ≡ cache.pods_in n selector)
          → Of (λ p. pod_referenced lbc cache env.lib p ≡ false) old
          → Of (λ p. pod_referenced lbc cache env.lib p ≡ false) cur
          → made_config env lbc (with_pods cache pods_in) ≡ made_config env lbc cache
      of e none none t o c others u v = elim t [ ]
      of e none (some b) t o c others u v =
          pod_unread deep_equal equal env lbc cache kept ns pods_in b plain (c b refl)
            (λ n selector h. others n selector (λ p k. cc) (Of-some _ b h)) (v b refl)
      of e (some a) none t o c others u v =
          pod_unread deep_equal equal env lbc cache kept ns pods_in a plain (o a refl)
            (λ n selector h. others n selector (Of-some _ a h) (λ p k. cc)) (u a refl)
      of e (some a) (some b) t o c others u v =
          both_unread ns pods_in a b plain (o a refl) (c b refl)
            (λ n selector h k. others n selector (Of-some _ a h) (Of-some _ b k)) (u a refl)
            (v b refl)
