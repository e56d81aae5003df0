-- ===== src/Controller/Notifications.antt =====
-- The handlers of the informers, `addIngressNotification` to `deletePodNotification` of controller.go,
-- and what `NewLoadBalancerController` registers them for.
pub mod Laws
pub mod Meaning
use nghttpx_ingress_lb.Common.{
  String, Bool, true, false, Option, none, some, List, [], ◌∷◌, not, ◌&&◌, if◌then◌else◌, Result,
  ok, panic, or_panic,
}
use nghttpx_ingress_lb.Common.Text.{◌=s◌}
use nghttpx_ingress_lb.Api.{Endpoints, Secret, ConfigMap, Pod, Ingress}
use nghttpx_ingress_lb.Controller.Act.{Act, ◌>>=◌, and_then, lift, done}
use nghttpx_ingress_lb.Controller.Env.{LoadBalancerController, Caches, Libraries}
use nghttpx_ingress_lb.Controller.Annotation.{validate_ingress_class}
use nghttpx_ingress_lb.Controller.Credentials.{slashed}
use nghttpx_ingress_lb.Controller.References.{
  endpoints_referenced, secret_referenced, pod_referenced,
}
use nghttpx_ingress_lb.Controller.Queue.{WorkQueue}

-- What an informer hands to a handler as an `interface{}`; `tombstone` is
-- `cache.DeletedFinalStateUnknown` with its `Obj`, and `foreign` any value of another type.
pub data Object : Type 0 where
  ingress_object : Ingress → Object
  endpoints_object : Endpoints → Object
  secret_object : Secret → Object
  config_map_object : ConfigMap → Object
  pod_object : Pod → Object
  tombstone : Object → Object
  foreign : String → Object

-- The casts `obj.(*T)`.
abbrev pub as_ingress : Object → Option Ingress
as_ingress (ingress_object ing) = some ing
as_ingress _ = none

abbrev pub as_endpoints : Object → Option Endpoints
as_endpoints (endpoints_object ep) = some ep
as_endpoints _ = none

abbrev pub as_secret : Object → Option Secret
as_secret (secret_object s) = some s
as_secret _ = none

abbrev pub as_config_map : Object → Option ConfigMap
as_config_map (config_map_object c) = some c
as_config_map _ = none

abbrev pub as_pod : Object → Option Pod
as_pod (pod_object pod) = some pod
as_pod _ = none

-- The cast of a tombstone's object, where the object itself is not of the type.
abbrev pub or_buried {ℓ} : {A : Type ℓ} → (Object → Option A) → Object → Option A → Option A
or_buried cast obj (some a) = some a
or_buried cast (tombstone obj) none = cast obj
or_buried cast _ none = none

abbrev pub sync_key : String
sync_key = "ingress"

-- `deep_equal` is `reflect.DeepEqual`.
module _ (deep_equal : Object → Object → Bool) (lib : Libraries) (cache : Caches)
    (lbc : LoadBalancerController) {Q : Type 0} (queue : WorkQueue Q) where
  unfoldable pub enqueue : String → Act Q (Unit {0})
  enqueue key q = (ok tt, queue.add key q)

  -- `if !wanted { return }`, with the enqueueing behind it
  abbrev pub enqueue_if : Bool → Act Q (Unit {0})
  enqueue_if wanted = if not wanted then done tt else enqueue sync_key

  -- What a deletion does where no object is found: it logs.
  abbrev pub enqueue_for {ℓ} : {A : Type ℓ} → (A → Bool) → Option A → Act Q (Unit {0})
  enqueue_for wanted none = done tt
  enqueue_for wanted (some a) = enqueue_if (wanted a)

  unfoldable pub add_ingress_notification : Object → Act Q (Unit {0})
  add_ingress_notification obj = do
    ing ← lift (or_panic (as_ingress obj))
    enqueue_if (validate_ingress_class lbc ing)

  unfoldable pub update_ingress_notification : Object → Object → Act Q (Unit {0})
  update_ingress_notification old cur = do
    old_ing ← lift (or_panic (as_ingress old))
    cur_ing ← lift (or_panic (as_ingress cur))
    enqueue_if
        (not (not (validate_ingress_class lbc old_ing) && not (validate_ingress_class lbc cur_ing)))

  unfoldable pub delete_ingress_notification : Object → Act Q (Unit {0})
  delete_ingress_notification obj =
      enqueue_for (validate_ingress_class lbc) (or_buried as_ingress obj (as_ingress obj))

  unfoldable pub add_endpoints_notification : Object → Act Q (Unit {0})
  add_endpoints_notification obj = do
    ep ← lift (or_panic (as_endpoints obj))
    enqueue_if (endpoints_referenced lbc cache ep)

  unfoldable pub update_endpoints_notification : Object → Object → Act Q (Unit {0})
  update_endpoints_notification old cur = if deep_equal old cur then done tt else (do
    old_ep ← lift (or_panic (as_endpoints old))
    cur_ep ← lift (or_panic (as_endpoints cur))
    enqueue_if (
        not (
          not (endpoints_referenced lbc cache old_ep)
          && not (endpoints_referenced lbc cache cur_ep))))

  unfoldable pub delete_endpoints_notification : Object → Act Q (Unit {0})
  delete_endpoints_notification obj =
      enqueue_for (endpoints_referenced lbc cache) (or_buried as_endpoints obj (as_endpoints obj))

  abbrev pub secret_wanted : Secret → Bool
  secret_wanted s = secret_referenced lbc cache s.namespace s.name

  unfoldable pub add_secret_notification : Object → Act Q (Unit {0})
  add_secret_notification obj = do s ← lift (or_panic (as_secret obj)); enqueue_if (secret_wanted s)

  unfoldable pub update_secret_notification : Object → Object → Act Q (Unit {0})
  update_secret_notification old cur = if deep_equal old cur then done tt else (do
    old_s ← lift (or_panic (as_secret old))
    cur_s ← lift (or_panic (as_secret cur))
    enqueue_if (not (not (secret_wanted old_s) && not (secret_wanted cur_s))))

  unfoldable pub delete_secret_notification : Object → Act Q (Unit {0})
  delete_secret_notification obj =
      enqueue_for secret_wanted (or_buried as_secret obj (as_secret obj))

  abbrev pub config_map_wanted : ConfigMap → Bool
  config_map_wanted c = not (not (slashed c.namespace c.name =s lbc.ngx_config_map))

  unfoldable pub add_config_map_notification : Object → Act Q (Unit {0})
  add_config_map_notification obj = do
    c ← lift (or_panic (as_config_map obj))
    enqueue_if (config_map_wanted c)

  -- The old object is not cast.
  unfoldable pub update_config_map_notification : Object → Object → Act Q (Unit {0})
  update_config_map_notification old cur =
      if deep_equal old cur
      then done tt
      else (do cur_c ← lift (or_panic (as_config_map cur)); enqueue_if (config_map_wanted cur_c))

  unfoldable pub delete_config_map_notification : Object → Act Q (Unit {0})
  delete_config_map_notification obj =
      enqueue_for config_map_wanted (or_buried as_config_map obj (as_config_map obj))

  unfoldable pub add_pod_notification : Object → Act Q (Unit {0})
  add_pod_notification obj = do
    pod ← lift (or_panic (as_pod obj))
    enqueue_if (pod_referenced lbc cache lib pod)

  unfoldable pub update_pod_notification : Object → Object → Act Q (Unit {0})
  update_pod_notification old cur = if deep_equal old cur then done tt else (do
    old_pod ← lift (or_panic (as_pod old))
    cur_pod ← lift (or_panic (as_pod cur))
    enqueue_if (
        not (
          not (pod_referenced lbc cache lib old_pod)
          && not (pod_referenced lbc cache lib cur_pod))))

  unfoldable pub delete_pod_notification : Object → Act Q (Unit {0})
  delete_pod_notification obj =
      enqueue_for (pod_referenced lbc cache lib) (or_buried as_pod obj (as_pod obj))

-- The informers of `NewLoadBalancerController`.
pub data Informer : Type 0 where
  ingresses endpoints services secrets pods nodes config_maps : Informer

pub data Event : Type 0 where
  added : Object → Event
  updated : Object → Object → Event
  deleted : Object → Event

module _ (deep_equal : Object → Object → Bool) (lib : Libraries) (cache : Caches)
    (lbc : LoadBalancerController) {Q : Type 0} (queue : WorkQueue Q) where
  -- The `ResourceEventHandlerFuncs` of each informer; a handler that is not set does nothing.
  abbrev pub ingress_handlers : Event → Act Q (Unit {0})
  ingress_handlers (added obj) = add_ingress_notification deep_equal lib cache lbc queue obj
  ingress_handlers (updated old cur) =
      update_ingress_notification deep_equal lib cache lbc queue old cur
  ingress_handlers (deleted obj) = delete_ingress_notification deep_equal lib cache lbc queue obj

  abbrev pub endpoints_handlers : Event → Act Q (Unit {0})
  endpoints_handlers (added obj) = add_endpoints_notification deep_equal lib cache lbc queue obj
  endpoints_handlers (updated old cur) =
      update_endpoints_notification deep_equal lib cache lbc queue old cur
  endpoints_handlers (deleted obj) =
      delete_endpoints_notification deep_equal lib cache lbc queue obj

  abbrev pub secret_handlers : Event → Act Q (Unit {0})
  secret_handlers (added obj) = add_secret_notification deep_equal lib cache lbc queue obj
  secret_handlers (updated old cur) =
      update_secret_notification deep_equal lib cache lbc queue old cur
  secret_handlers (deleted obj) = delete_secret_notification deep_equal lib cache lbc queue obj

  abbrev pub pod_handlers : Event → Act Q (Unit {0})
  pod_handlers (added obj) = add_pod_notification deep_equal lib cache lbc queue obj
  pod_handlers (updated old cur) = update_pod_notification deep_equal lib cache lbc queue old cur
  pod_handlers (deleted obj) = delete_pod_notification deep_equal lib cache lbc queue obj

  abbrev pub config_map_handlers : Event → Act Q (Unit {0})
  config_map_handlers (added obj) = add_config_map_notification deep_equal lib cache lbc queue obj
  config_map_handlers (updated old cur) =
      update_config_map_notification deep_equal lib cache lbc queue old cur
  config_map_handlers (deleted obj) =
      delete_config_map_notification deep_equal lib cache lbc queue obj

  abbrev pub no_handlers : Event → Act Q (Unit {0})
  no_handlers event = done tt

  unfoldable pub notify : Informer → Event → Act Q (Unit {0})
  notify ingresses event = ingress_handlers event
  notify endpoints event = endpoints_handlers event
  notify services event = no_handlers event
  notify secrets event = secret_handlers event
  notify pods event = pod_handlers event
  notify nodes event = no_handlers event
  notify config_maps event = config_map_handlers event
