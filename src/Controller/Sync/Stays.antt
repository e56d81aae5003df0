-- ===== src/Controller/Sync/Stays.antt =====
-- The filters of the notification handlers, when another informer's cache changes before they look.
use mathlib.Core.List.{Memᴰ}
use nghttpx_ingress_lb.Common.{
  String, ◌≡◌, ◌≢◌, ◌∙◌, ◌↔◌, inl, inr, refl, sym, ap, Bool, true, false, not, ◌&&◌, ◌||◌, Option,
  none, some, List, [], ◌∷◌, ◌++◌, Try, got, got_injective, arith,
}
use nghttpx_ingress_lb.Api.{Ingress}
use nghttpx_ingress_lb.Controller.Env.{LoadBalancerController, Caches}
use nghttpx_ingress_lb.Controller.Annotation.{validate_ingress_class}
use nghttpx_ingress_lb.Controller.References.Loops.{SomeIngress}
use nghttpx_ingress_lb.Controller.References.Laws.{
  endpoints_referenced_iff, secret_referenced_iff, pod_referenced_iff,
}
use nghttpx_ingress_lb.Controller.Notifications.{
  Object, ingress_object, endpoints_object, secret_object, config_map_object, pod_object, tombstone,
  foreign, Informer, ingresses, services, Event, added, updated, deleted, as_ingress,
}
use nghttpx_ingress_lb.Controller.Notifications.Laws.{is_read, concerns, skips_equal}
use nghttpx_ingress_lb.Controller.Upstreams.{Environment}
use nghttpx_ingress_lb.Controller.Sync.Heeded.{
  with_option, IsChange, ingress_change, endpoints_change, secret_change, pod_change,
  config_map_change, node_change, service_change,
}
use nghttpx_ingress_lb.Controller.Sync.Heeded.Events.{quiet}

-- The index by namespace has exactly the ingresses of the cache.
pub record IsIndexed (cache : Caches) : Type 0 where
  pub all : List Ingress
  pub those : String → List Ingress
  pub lists_all : cache.ingresses ≡ got all
  pub lists : (namespace : String) → cache.ingresses_in namespace ≡ got (those namespace)
  pub indexed :
      (namespace : String) (ing : Ingress)
      → Memᴰ ing (those namespace) ↔ (Memᴰ ing all × (ing.namespace ≡ namespace))

-- An ingress that is neither before nor after the event stays.
other_stays :
    (xs ys : List Ingress) (old cur : Option Ingress) (ing : Ingress)
    → (old ≡ some ing → ⊥)
    → Memᴰ ing (xs ++ with_option old ys)
    → Memᴰ ing (xs ++ with_option cur ys)
other_stays [] ys none none ing other m = m
other_stays [] ys none (some c) ing other m = Memᴰ.tail m
other_stays [] ys (some o) none ing other (Memᴰ.head same) = absurd (other (ap some (sym same)))
other_stays [] ys (some o) none ing other (Memᴰ.tail m) = m
other_stays [] ys (some o) (some c) ing other (Memᴰ.head same) = absurd (other (ap some (sym same)))
other_stays [] ys (some o) (some c) ing other (Memᴰ.tail m) = Memᴰ.tail m
other_stays (x ∷ xs) ys old cur ing other (Memᴰ.head same) = Memᴰ.head same
other_stays (x ∷ xs) ys old cur ing other (Memᴰ.tail m) =
    Memᴰ.tail (other_stays xs ys old cur ing other m)

module _ (env : Environment) (lbc : LoadBalancerController) (cache : Caches) where
  change-still :
      (other : Caches) (i : Informer) (e : Event)
      → i ≢ services
      → IsChange env lbc cache other i e
      → other.service ≡ cache.service
  change-still other i e apart (ingress_change _ old cur xs ys ingresses_in t l) = refl
  change-still other i e apart (endpoints_change _ old cur ns nm f t p o c q r) = refl
  change-still other i e apart (secret_change _ old cur ns nm f t p o c q r) = refl
  change-still other i e apart (pod_change _ old cur ns f g h t p o c q r) = refl
  change-still other i e apart (config_map_change _ old cur key f t o c q r) = refl
  change-still other i e apart (node_change _ f) = refl
  change-still other i e apart (service_change _ f s) = absurd (apart refl)

same_members :
    {t : Try (List Ingress)} (xs ys : List Ingress) (ing : Ingress)
    → t ≡ got xs
    → t ≡ got ys
    → Memᴰ ing xs
    → Memᴰ ing ys
same_members xs ys ing e f m = let same : xs ≡ ys = got_injective (sym e ∙ f) in rw (← same) m

module _ (deep_equal : Object → Object → Bool)
    (equal : (a b : Object) → deep_equal a b ≡ true → a ≡ b) (env : Environment)
    (lbc : LoadBalancerController) (cache : Caches) (k : IsIndexed cache) where
  change-all :
      (other : Caches) (k' : IsIndexed other) (i : Informer) (e : Event)
      → i ≢ services
      → IsChange env lbc cache other i e
      → concerns deep_equal env.lib other lbc i e ≡ false
      → (ing : Ingress) → validate_ingress_class lbc ing ≡ true
      → Memᴰ ing k.all
      → Memᴰ ing k'.all
  change-all other k' i e apart (ingress_change _ old cur xs ys ingresses_in t l) n ing v m =
      let before : Memᴰ ing (xs ++ with_option old ys) = same_members _ _ ing k.lists_all l m in
      let after : Memᴰ ing (xs ++ with_option cur ys) =
        elim (quiet deep_equal equal env lbc other ingress_object as_ingress (λ s. refl) ingresses e
          old cur t n) [
            | inl h ↦ rw (← h) before
            | inr (u, _) ↦
                other_stays xs ys old cur ing (λ h. let c : true ≡ false = sym v ∙ u ing h in cc)
                  before
          ] in
      same_members _ _ ing refl k'.lists_all after
  change-all other k' i e apart (endpoints_change _ old cur ns nm f t p o c q r) n ing v m =
      same_members _ _ ing k.lists_all k'.lists_all m
  change-all other k' i e apart (secret_change _ old cur ns nm f t p o c q r) n ing v m =
      same_members _ _ ing k.lists_all k'.lists_all m
  change-all other k' i e apart (pod_change _ old cur ns f g h t p o c q r) n ing v m =
      same_members _ _ ing k.lists_all k'.lists_all m
  change-all other k' i e apart (config_map_change _ old cur key f t o c q r) n ing v m =
      same_members _ _ ing k.lists_all k'.lists_all m
  change-all other k' i e apart (node_change _ f) n ing v m =
      same_members _ _ ing k.lists_all k'.lists_all m
  change-all other k' i e apart (service_change _ f s) n ing v m = absurd (apart refl)

module _ (deep_equal : Object → Object → Bool)
    (equal : (a b : Object) → deep_equal a b ≡ true → a ≡ b) (env : Environment)
    (lbc : LoadBalancerController) (cache other : Caches) where
  abbrev Stays : Caches → Caches → Object → Type 0
  Stays c c' obj =
      is_read deep_equal env.lib c lbc obj ≡ true → is_read deep_equal env.lib c' lbc obj ≡ true

  -- Where all objects that are looked at stay so, events do.
  concerns-Stays :
      (i : Informer) (e : Event)
      → ((obj : Object) → Stays cache other obj)
      → concerns deep_equal env.lib cache lbc i e ≡ true
      → concerns deep_equal env.lib other lbc i e ≡ true
  concerns-Stays i (added obj) stays h = stays obj h
  concerns-Stays i (deleted obj) stays h = stays obj h
  concerns-Stays i (updated old cur) stays h =
      both (not (skips_equal deep_equal env.lib cache lbc i && deep_equal old cur)) _ _ _ _
        (stays old) (stays cur) h
    where
      both :
          (n a b c d : Bool)
          → (a ≡ true → c ≡ true)
          → (b ≡ true → d ≡ true)
          → (n && (a || b)) ≡ true
          → (n && (c || d)) ≡ true
      both n a b c d f g h = ground arith

  module _ (k : IsIndexed cache) (k' : IsIndexed other)
      (keeps : (ing : Ingress)
        → validate_ingress_class lbc ing ≡ true
        → Memᴰ ing k.all
        → Memᴰ ing k'.all)
      (still : other.service ≡ cache.service) where
    some_stays :
        (P : Ingress → Type 0) (namespace : String)
        → SomeIngress lbc P (k.those namespace)
        → SomeIngress lbc P (k'.those namespace)
    some_stays P namespace (ing, m, v, p) =
        let (in_all, in_ns) = (k.indexed namespace ing).0 m in
        (ing, (k'.indexed namespace ing).1 (keeps ing v in_all, in_ns), v, p)

    is_read-Stays : (obj : Object) → Stays cache other obj
    is_read-Stays (ingress_object ing) h = h
    is_read-Stays (endpoints_object ep) h =
        let f =
          endpoints_referenced_iff lbc cache ep (k.those ep.namespace) (k.lists ep.namespace) in
        let g =
          endpoints_referenced_iff lbc other ep (k'.those ep.namespace) (k'.lists ep.namespace) in
        elim (f.0 h) [ inl d ↦ g.1 (inl d) | inr s ↦ g.1 (inr (some_stays _ ep.namespace s)) ]
    is_read-Stays (secret_object s) h =
        let f =
          secret_referenced_iff lbc cache s.namespace s.name (k.those s.namespace)
            (k.lists s.namespace) in
        let g =
          secret_referenced_iff lbc other s.namespace s.name (k'.those s.namespace)
            (k'.lists s.namespace) in
        elim (f.0 h) [ inl d ↦ g.1 (inl d) | inr t ↦ g.1 (inr (some_stays _ s.namespace t)) ]
    is_read-Stays (config_map_object c) h = h
    is_read-Stays (pod_object pod) h =
        let f =
          pod_referenced_iff lbc cache env.lib pod (k.those pod.namespace)
            (k.lists pod.namespace) in
        let g =
          pod_referenced_iff lbc other env.lib pod (k'.those pod.namespace)
            (k'.lists pod.namespace) in
        g.1 (rw still (elim (f.0 h) [ inl d ↦ inl d | inr t ↦ inr (some_stays _ pod.namespace t) ]))
    is_read-Stays (tombstone obj) h = is_read-Stays obj h
    is_read-Stays (foreign name) h = h

  -- After a change for which no handler queues a synchronisation, other than of a service, every handler
  -- that would have queued one still does.
  pub IsChange-stays :
      (i : Informer) (e : Event)
      → IsIndexed cache
      → IsIndexed other
      → i ≢ services
      → IsChange env lbc cache other i e
      → concerns deep_equal env.lib other lbc i e ≡ false
      → (j : Informer) (d : Event) → concerns deep_equal env.lib cache lbc j d ≡ true
      → concerns deep_equal env.lib other lbc j d ≡ true
  IsChange-stays i e k k' apart change n j d h =
      concerns-Stays j d
        (is_read-Stays k k'
          (λ ing v m.
            change-all deep_equal equal env lbc cache k other k' i e apart change n ing v m)
          (change-still env lbc cache other i e apart change))
        h
