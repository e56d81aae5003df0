-- ===== src/Controller/Notifications/Laws.antt =====
-- For which events the handlers queue a synchronisation.
use nghttpx_ingress_lb.Common.{
  String, ◌≡◌, refl, Bool, true, false, not, ◌&&◌, ◌||◌, inl, inr, if◌then◌else◌, Result, ok,
  Bool-cases,
}
use nghttpx_ingress_lb.Common.Text.{◌=s◌}
use nghttpx_ingress_lb.Api.{Endpoints, Secret, ConfigMap, Pod, Ingress}
use nghttpx_ingress_lb.Controller.Env.{LoadBalancerController, Caches, Libraries}
use nghttpx_ingress_lb.Controller.Annotation.{validate_ingress_class}
use nghttpx_ingress_lb.Controller.Credentials.{slashed}
use nghttpx_ingress_lb.Controller.References.{
  endpoints_referenced, secret_referenced, pod_referenced,
}
use nghttpx_ingress_lb.Controller.Queue.{WorkQueue}
use nghttpx_ingress_lb.Controller.Notifications.{
  Object, ingress_object, endpoints_object, secret_object, config_map_object, pod_object, tombstone,
  foreign, Informer, ingresses, endpoints, services, secrets, pods, nodes, config_maps, Event,
  added, updated, deleted, sync_key, enqueue, enqueue_if, notify, add_ingress_notification,
  update_ingress_notification, delete_ingress_notification, add_endpoints_notification,
  update_endpoints_notification, delete_endpoints_notification, add_secret_notification,
  update_secret_notification, delete_secret_notification, add_config_map_notification,
  update_config_map_notification, delete_config_map_notification, add_pod_notification,
  update_pod_notification, delete_pod_notification,
}

-- The objects that an informer watches.
pub data IsOf : Informer → Object → Type 0 where
  ingress_of : (ing : Ingress) → IsOf ingresses (ingress_object ing)
  endpoints_of : (ep : Endpoints) → IsOf endpoints (endpoints_object ep)
  service_of : (name : String) → IsOf services (foreign name)
  secret_of : (s : Secret) → IsOf secrets (secret_object s)
  pod_of : (pod : Pod) → IsOf pods (pod_object pod)
  node_of : (name : String) → IsOf nodes (foreign name)
  config_map_of : (c : ConfigMap) → IsOf config_maps (config_map_object c)

-- An update has two states of one object.
pub data IsUpdate : Informer → Object → Object → Type 0 where
  ingress_updated :
      (old cur : Ingress) → IsUpdate ingresses (ingress_object old) (ingress_object cur)
  endpoints_updated :
      (old cur : Endpoints) → IsUpdate endpoints (endpoints_object old) (endpoints_object cur)
  service_updated : (old cur : String) → IsUpdate services (foreign old) (foreign cur)
  secret_updated : (old cur : Secret) → IsUpdate secrets (secret_object old) (secret_object cur)
  pod_updated : (old cur : Pod) → IsUpdate pods (pod_object old) (pod_object cur)
  node_updated : (old cur : String) → IsUpdate nodes (foreign old) (foreign cur)
  config_map_updated :
      (old cur : ConfigMap)
      → slashed old.namespace old.name ≡ slashed cur.namespace cur.name
      → IsUpdate config_maps (config_map_object old) (config_map_object cur)

-- The events of an informer: what is deleted may be handed over within a tombstone.
pub data IsEvent : Informer → Event → Type 0 where
  is_added : (i : Informer) (obj : Object) → IsOf i obj → IsEvent i (added obj)
  is_updated : (i : Informer) (old cur : Object) → IsUpdate i old cur → IsEvent i (updated old cur)
  is_deleted : (i : Informer) (obj : Object) → IsOf i obj → IsEvent i (deleted obj)
  is_buried : (i : Informer) (obj : Object) → IsOf i obj → IsEvent i (deleted (tombstone obj))

or_same : (b : Bool) → (b || b) ≡ b
or_same true = refl
or_same false = refl

and_false : (b : Bool) → (b && false) ≡ false
and_false true = refl
and_false false = refl

module _ (deep_equal : Object → Object → Bool) (lib : Libraries) (cache : Caches)
    (lbc : LoadBalancerController) where
  -- Whether the configuration is made from the object.
  abbrev pub is_read : Object → Bool
  is_read (ingress_object ing) = validate_ingress_class lbc ing
  is_read (endpoints_object ep) = endpoints_referenced lbc cache ep
  is_read (secret_object s) = secret_referenced lbc cache s.namespace s.name
  is_read (config_map_object c) = slashed c.namespace c.name =s lbc.ngx_config_map
  is_read (pod_object pod) = pod_referenced lbc cache lib pod
  is_read (tombstone obj) = is_read obj
  is_read (foreign name) = false

  abbrev pub skips_equal : Informer → Bool
  skips_equal ingresses = false
  skips_equal _ = true

  abbrev pub concerns : Informer → Event → Bool
  concerns i (added obj) = is_read obj
  concerns i (updated old cur) =
      not (skips_equal i && deep_equal old cur) && (is_read old || is_read cur)
  concerns i (deleted obj) = is_read obj

  module _ {Q : Type 0} (queue : WorkQueue Q) where
    abbrev pub queued : Bool → Q → Result (Unit {0}) × Q
    queued wanted q = (ok tt, if wanted then queue.add sync_key q else q)

    enqueue_if-queued :
        (wanted : Bool) (q : Q)
        → enqueue_if deep_equal lib cache lbc queue wanted q ≡ queued wanted q
    unfolding enqueue
    enqueue_if-queued true q = refl
    enqueue_if-queued false q = refl

    either_queued :
        (a b : Bool) (q : Q)
        → enqueue_if deep_equal lib cache lbc queue (not (not a && not b)) q ≡ queued (a || b) q
    unfolding enqueue
    either_queued true b q = refl
    either_queued false true q = refl
    either_queued false false q = refl

    config_map_queued :
        (b : Bool) (q : Q) → enqueue_if deep_equal lib cache lbc queue (not (not b)) q ≡ queued b q
    unfolding enqueue
    config_map_queued true q = refl
    config_map_queued false q = refl

    -- For an event of an informer, whether the object that is deleted comes in a tombstone or not, its
    -- handler does not panic, and it queues a synchronisation exactly if the configuration is made from
    -- the object, before the event or after it; except that an update to an equal state is skipped,
    -- other than of an ingress. Services and nodes queue nothing.
    pub notify-concerns :
        (i : Informer) (e : Event) (q : Q)
        → IsEvent i e
        → notify deep_equal lib cache lbc queue i e q ≡ queued (concerns i e) q
    unfolding notify add_ingress_notification update_ingress_notification
        delete_ingress_notification add_endpoints_notification update_endpoints_notification
        delete_endpoints_notification add_secret_notification update_secret_notification
        delete_secret_notification add_config_map_notification update_config_map_notification
        delete_config_map_notification add_pod_notification update_pod_notification
        delete_pod_notification
    notify-concerns i e q (is_added _ _ (ingress_of ing)) =
        enqueue_if-queued (validate_ingress_class lbc ing) q
    notify-concerns i e q (is_added _ _ (endpoints_of ep)) =
        enqueue_if-queued (endpoints_referenced lbc cache ep) q
    notify-concerns i e q (is_added _ _ (service_of s)) = refl
    notify-concerns i e q (is_added _ _ (secret_of s)) =
        enqueue_if-queued (secret_referenced lbc cache s.namespace s.name) q
    notify-concerns i e q (is_added _ _ (pod_of pod)) =
        enqueue_if-queued (pod_referenced lbc cache lib pod) q
    notify-concerns i e q (is_added _ _ (node_of n)) = refl
    notify-concerns i e q (is_added _ _ (config_map_of c)) =
        config_map_queued (slashed c.namespace c.name =s lbc.ngx_config_map) q
    notify-concerns i e q (is_deleted _ _ (ingress_of ing)) =
        enqueue_if-queued (validate_ingress_class lbc ing) q
    notify-concerns i e q (is_deleted _ _ (endpoints_of ep)) =
        enqueue_if-queued (endpoints_referenced lbc cache ep) q
    notify-concerns i e q (is_deleted _ _ (service_of s)) = refl
    notify-concerns i e q (is_deleted _ _ (secret_of s)) =
        enqueue_if-queued (secret_referenced lbc cache s.namespace s.name) q
    notify-concerns i e q (is_deleted _ _ (pod_of pod)) =
        enqueue_if-queued (pod_referenced lbc cache lib pod) q
    notify-concerns i e q (is_deleted _ _ (node_of n)) = refl
    notify-concerns i e q (is_deleted _ _ (config_map_of c)) =
        config_map_queued (slashed c.namespace c.name =s lbc.ngx_config_map) q
    notify-concerns i e q (is_buried _ _ (ingress_of ing)) =
        enqueue_if-queued (validate_ingress_class lbc ing) q
    notify-concerns i e q (is_buried _ _ (endpoints_of ep)) =
        enqueue_if-queued (endpoints_referenced lbc cache ep) q
    notify-concerns i e q (is_buried _ _ (service_of s)) = refl
    notify-concerns i e q (is_buried _ _ (secret_of s)) =
        enqueue_if-queued (secret_referenced lbc cache s.namespace s.name) q
    notify-concerns i e q (is_buried _ _ (pod_of pod)) =
        enqueue_if-queued (pod_referenced lbc cache lib pod) q
    notify-concerns i e q (is_buried _ _ (node_of n)) = refl
    notify-concerns i e q (is_buried _ _ (config_map_of c)) =
        config_map_queued (slashed c.namespace c.name =s lbc.ngx_config_map) q
    notify-concerns i e q (is_updated _ _ _ (ingress_updated old cur)) =
        either_queued (validate_ingress_class lbc old) (validate_ingress_class lbc cur) q
    notify-concerns i e q (is_updated _ _ _ (endpoints_updated old cur)) =
        elim (Bool-cases (deep_equal (endpoints_object old) (endpoints_object cur))) [
          | inl h ↦ rw h refl
          | inr h ↦ rw h (
              either_queued (endpoints_referenced lbc cache old)
                (endpoints_referenced lbc cache cur) q)
        ]
    notify-concerns i e q (is_updated _ _ _ (service_updated old cur)) =
        rw (and_false (not (deep_equal (foreign old) (foreign cur)))) refl
    notify-concerns i e q (is_updated _ _ _ (secret_updated old cur)) =
        elim (Bool-cases (deep_equal (secret_object old) (secret_object cur))) [
          | inl h ↦ rw h refl
          | inr h ↦ rw h (
              either_queued (secret_referenced lbc cache old.namespace old.name)
                (secret_referenced lbc cache cur.namespace cur.name) q)
        ]
    notify-concerns i e q (is_updated _ _ _ (pod_updated old cur)) =
        elim (Bool-cases (deep_equal (pod_object old) (pod_object cur))) [
          | inl h ↦ rw h refl
          | inr h ↦ rw h (
              either_queued (pod_referenced lbc cache lib old) (pod_referenced lbc cache lib cur) q)
        ]
    notify-concerns i e q (is_updated _ _ _ (node_updated old cur)) =
        rw (and_false (not (deep_equal (foreign old) (foreign cur)))) refl
    notify-concerns i e q (is_updated _ _ _ (config_map_updated old cur same)) =
        elim (Bool-cases (deep_equal (config_map_object old) (config_map_object cur))) [
          | inl h ↦ rw h refl
          | inr h ↦
              rw (h, same, or_same (slashed cur.namespace cur.name =s lbc.ngx_config_map))
                (config_map_queued (slashed cur.namespace cur.name =s lbc.ngx_config_map) q)
        ]
