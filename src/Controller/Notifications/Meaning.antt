-- ===== src/Controller/Notifications/Meaning.antt =====
-- Which events of the informers queue a synchronisation, told from the objects.
use mathlib.Core.List.{Memᴰ}
use nghttpx_ingress_lb.Common.{
  String, ◌≡◌, ◌⊎◌, ◌↔◌, inl, inr, refl, sym, ◌∙◌, Bool, true, false, not, ◌&&◌, ◌||◌, List, Try,
  failed, got, ok, if◌then◌else◌, Absent,
}
use nghttpx_ingress_lb.Common.Text.{◌=s◌, ◌<>◌, eq_iff}
use nghttpx_ingress_lb.Api.{Endpoints, Pod, Ingress}
use nghttpx_ingress_lb.Controller.Env.{LoadBalancerController, Caches, Libraries}
use nghttpx_ingress_lb.Controller.Annotation.Laws.{IsOurs, validate_ingress_class-IsOurs_iff}
use nghttpx_ingress_lb.Controller.Credentials.{slashed}
use nghttpx_ingress_lb.Controller.References.{
  endpoints_referenced, secret_referenced, pod_referenced,
}
use nghttpx_ingress_lb.Controller.References.Failing.{
  endpoints_failing, secret_failing, pod_failing,
}
use nghttpx_ingress_lb.Controller.References.Loops.{SomeIngress, SomePath}
use nghttpx_ingress_lb.Controller.References.Laws.{
  IsSelected, endpoints_referenced_iff, secret_referenced_iff, pod_referenced_iff,
}
use nghttpx_ingress_lb.Controller.Queue.{WorkQueue}
use nghttpx_ingress_lb.Controller.Notifications.{
  Object, ingress_object, endpoints_object, secret_object, config_map_object, pod_object, tombstone,
  foreign, Informer, ingresses, endpoints, services, secrets, pods, nodes, config_maps, Event,
  added, updated, deleted, notify,
}
use nghttpx_ingress_lb.Controller.Notifications.Laws.{IsEvent, is_read, concerns, notify-concerns}

module _ (deep_equal : Object → Object → Bool) (lib : Libraries) (cache : Caches)
    (lbc : LoadBalancerController) where
  -- The ingresses of the namespace can be listed, and one of them is of this controller's class and has
  -- the property.
  abbrev pub SomeListed : String → (Ingress → Type 0) → Type 0
  SomeListed namespace P =
      (ings : List Ingress) × (ing : Ingress) × (cache.ingresses_in namespace ≡ got ings)
      × Memᴰ ing ings
      × IsOurs lbc ing
      × P ing

  abbrev SomeNamed : Endpoints → Ingress → Type 0
  SomeNamed ep ing = SomePath (λ path. (ep.name =s path.backend.service_name) ≡ true) ing.rules

  abbrev SomeSelected : Pod → Ingress → Type 0
  SomeSelected pod ing =
      SomePath
        (λ path. IsSelected lbc cache lib pod (pod.namespace <> "/" <> path.backend.service_name))
        ing.rules

  -- The object is referred to: an ingress by being of this controller's class; endpoints, a secret and a pod
  -- by the default service or the default secret, or by an ingress of their namespace and of this
  -- controller's class; a config map by its name.
  pub IsReferred : Object → Type 0
  IsReferred (ingress_object ing) = IsOurs lbc ing
  IsReferred (endpoints_object ep) =
      (ep.namespace <> "/" <> ep.name ≡ lbc.default_svc) ⊎ SomeListed ep.namespace (SomeNamed ep)
  IsReferred (secret_object s) =
      (lbc.default_tls_secret ≡ s.namespace <> "/" <> s.name)
      ⊎ SomeListed s.namespace (λ ing. Memᴰ s.name ing.tls)
  IsReferred (config_map_object c) = c.namespace <> "/" <> c.name ≡ lbc.ngx_config_map
  IsReferred (pod_object pod) =
      IsSelected lbc cache lib pod lbc.default_svc ⊎ SomeListed pod.namespace (SomeSelected pod)
  IsReferred (tombstone obj) = IsReferred obj
  IsReferred (foreign name) = Absent

  -- The object is referred to before the event or after it; where an update leaves it equal, that counts for an
  -- ingress only.
  pub IsHeeded : Informer → Event → Type 0
  unfolding IsReferred
  IsHeeded i (added obj) = IsReferred obj
  IsHeeded ingresses (updated old cur) = IsReferred old ⊎ IsReferred cur
  IsHeeded _ (updated old cur) = (deep_equal old cur ≡ false) × (IsReferred old ⊎ IsReferred cur)
  IsHeeded i (deleted obj) = IsReferred obj

  -- From what holds of the listed ingresses to what holds where they can be listed.
  module _ {D : Type 0} (P : Ingress → Type 0) (namespace : String) (b : Bool)
      (failing : (m : String) → cache.ingresses_in namespace ≡ failed m → (b ≡ true) ↔ D)
      (listing : (ings : List Ingress)
        → cache.ingresses_in namespace ≡ got ings
        → (b ≡ true) ↔ (D ⊎ SomeIngress lbc P ings)) where
    listed_iff : (b ≡ true) ↔ (D ⊎ SomeListed namespace P)
    listed_iff = of (cache.ingresses_in namespace) refl
      where
        of :
            (t : Try (List Ingress))
            → cache.ingresses_in namespace ≡ t
            → (b ≡ true) ↔ (D ⊎ SomeListed namespace P)
        of (failed m) e = (
          λ h. inl ((failing m e).0 h),
          λ c. elim c [
            | inl d ↦ (failing m e).1 d
            | inr (ings, ing, l, _, _, _) ↦ let k : failed m ≡ got ings = sym e ∙ l in cc
          ],
        )
        of (got ings) e = (
          λ h. elim ((listing ings e).0 h) [
            | inl d ↦ inl d
            | inr (ing, m, v, p) ↦
                inr (ings, ing, e, m, (validate_ingress_class-IsOurs_iff lbc ing).0 v, p)
          ],
          λ c. elim c [
            | inl d ↦ (listing ings e).1 (inl d)
            | inr (ings', ing, l, m, o, p) ↦
                (listing ings' l).1
                  (inr (ing, m, (validate_ingress_class-IsOurs_iff lbc ing).1 o, p))
          ],
        )

  is_read_iff : (obj : Object) → (is_read deep_equal lib cache lbc obj ≡ true) ↔ IsReferred obj
  unfolding IsReferred
  is_read_iff (ingress_object ing) = validate_ingress_class-IsOurs_iff lbc ing
  is_read_iff (endpoints_object ep) =
      listed_iff (SomeNamed ep) ep.namespace (endpoints_referenced lbc cache ep)
        (endpoints_failing lbc cache ep) (endpoints_referenced_iff lbc cache ep)
  is_read_iff (secret_object s) =
      listed_iff (λ ing. Memᴰ s.name ing.tls) s.namespace
        (secret_referenced lbc cache s.namespace s.name) (secret_failing lbc cache s)
        (secret_referenced_iff lbc cache s.namespace s.name)
  is_read_iff (config_map_object c) = eq_iff (slashed c.namespace c.name) lbc.ngx_config_map
  is_read_iff (pod_object pod) =
      listed_iff (SomeSelected pod) pod.namespace (pod_referenced lbc cache lib pod)
        (pod_failing lbc cache lib pod) (pod_referenced_iff lbc cache lib pod)
  is_read_iff (tombstone obj) = is_read_iff obj
  is_read_iff (foreign name) = (λ h. cc, λ h. absurd h.lower)

  or_iff :
      (a b : Bool) {A B : Type 0} → (a ≡ true) ↔ A → (b ≡ true) ↔ B → ((a || b) ≡ true) ↔ (A ⊎ B)
  or_iff true b f g = (λ _. inl (f.0 refl), λ _. refl)
  or_iff false b f g =
      (λ h. inr (g.0 h), λ c. elim c [ inl a ↦ let k = f.1 a in cc | inr b ↦ g.1 b ])

  differing_iff :
      (same b : Bool) {B : Type 0}
      → (b ≡ true) ↔ B
      → ((not same && b) ≡ true) ↔ ((same ≡ false) × B)
  differing_iff true b f = (λ h. cc, λ h. let k = h.0 in cc)
  differing_iff false b f = (λ h. (refl, f.0 h), λ h. f.1 h.1)

  concerns_iff :
      (i : Informer) (e : Event) → (concerns deep_equal lib cache lbc i e ≡ true) ↔ IsHeeded i e
  unfolding IsHeeded
  concerns_iff i (added obj) = is_read_iff obj
  concerns_iff i (deleted obj) = is_read_iff obj
  concerns_iff i (updated old cur) = of i
    where
      either :
          ((is_read deep_equal lib cache lbc old || is_read deep_equal lib cache lbc cur) ≡ true)
          ↔ (IsReferred old ⊎ IsReferred cur)
      either =
          or_iff (is_read deep_equal lib cache lbc old) (is_read deep_equal lib cache lbc cur)
            (is_read_iff old) (is_read_iff cur)

      of :
          (i : Informer)
          → (concerns deep_equal lib cache lbc i (updated old cur) ≡ true)
            ↔ IsHeeded i (updated old cur)
      of ingresses = either
      of endpoints = differing_iff (deep_equal old cur) _ either
      of services = differing_iff (deep_equal old cur) _ either
      of secrets = differing_iff (deep_equal old cur) _ either
      of pods = differing_iff (deep_equal old cur) _ either
      of nodes = differing_iff (deep_equal old cur) _ either
      of config_maps = differing_iff (deep_equal old cur) _ either

  -- For an event of an informer, whether the object that is deleted comes in a tombstone or not, its handler
  -- does not panic, and it adds the key of the synchronisation to the queue exactly if the object is
  -- referred to, before the event or after it: an ingress whose class is missing, empty or this controller's;
  -- endpoints of the default service, or whose name is that of a path's service in such an ingress of their
  -- namespace; the default secret, or one that such an ingress of its namespace names; a pod that the
  -- default service selects, or the service of a path of such an ingress of its namespace; the
  -- controller's config map. Except that an update to an equal state is skipped, other than of an
  -- ingress. Services and nodes queue nothing.
  pub notify-IsHeeded :
      {Q : Type 0} (queue : WorkQueue Q) (i : Informer) (e : Event) (q : Q)
      → IsEvent i e
      → (wanted : Bool) × (notify deep_equal lib cache lbc queue i e q
          ≡ (ok tt, if wanted then queue.add "ingress" q else q))
        × ((wanted ≡ true) ↔ IsHeeded i e)
  notify-IsHeeded queue i e q v = (
    concerns deep_equal lib cache lbc i e,
    notify-concerns deep_equal lib cache lbc queue i e q v,
    concerns_iff i e,
  )
