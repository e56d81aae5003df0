-- ===== src/Controller/Status.antt =====
-- The load balancer addresses that the controller writes to the ingresses' status: `syncIngress` of
-- controller.go and the methods that it calls. The Kubernetes client is a parameter.
pub mod Preferred
pub mod Laws
pub mod Updated
pub mod Removal
pub mod Calm
pub mod Ends
mod Tests
use nghttpx_ingress_lb.Common.{
  ℕ, String, Bool, true, false, Option, none, some, List, [], ◌∷◌, ◌++◌, ◌&&◌, ◌||◌, ◌==◌, not,
  length, Result, ok, err, panic, Try, failed, got, if◌then◌else◌,
}
use nghttpx_ingress_lb.Common.Text.{◌<>◌, ◌=s◌}
use nghttpx_ingress_lb.Common.Fallible.{◌>>=◌ as ◌>>=?◌, wrap_err, or_fail}
use nghttpx_ingress_lb.Common.Sorting.{Sorter}
use nghttpx_ingress_lb.Api.{StringMap, Pod, Node, NodeAddress, Ingress, LoadBalancerIngress}
use nghttpx_ingress_lb.Nghttpx.Io.{Io}
use nghttpx_ingress_lb.Controller.Act.{Act, ◌>>=◌, and_then, raised, lift, done, logged}
use nghttpx_ingress_lb.Controller.Env.{LoadBalancerController, Caches}
use nghttpx_ingress_lb.Controller.Annotation.{validate_ingress_class}
use nghttpx_ingress_lb.Controller.Credentials.{slashed}
use nghttpx_ingress_lb.Controller.Addresses.{
  load_balancer_ingresses_ip_equal, sort_load_balancer_ingress, uniq_load_balancer_ingress,
  remove_address_from_load_balancer_ingress,
}

-- The calls of the API server, whether `stopCh` is closed, `net.ParseIP(s) != nil`,
-- `errors.IsNotFound`, `labels.Selector.String`, and `wait.Poll` at the source's two durations.
pub record Client (W : Type 0) : Type 0 where
  pub get_ingress : String → String → Io W Ingress
  pub update_status : Ingress → Io W Ingress
  pub is_stopped : W → Bool
  pub is_ip : String → Bool
  pub is_not_found : String → Bool
  pub selector_text : StringMap → String
  pub poll : Act W Bool → Act W (Unit {0})

abbrev pub external_ip : String
external_ip = "ExternalIP"

abbrev pub internal_ip : String
internal_ip = "InternalIP"

abbrev pub legacy_host_ip : String
legacy_host_ip = "LegacyHostIP"

module _ (cache : Caches) (lbc : LoadBalancerController) where
  unfoldable pub get_this_pod : Try Pod
  get_this_pod =
      wrap_err
        (λ e.
          "Could not get Pod "
          <> slashed lbc.pod_info.pod_namespace lbc.pod_info.pod_name
          <> " from lister: "
          <> e)
        (cache.pod lbc.pod_info.pod_namespace lbc.pod_info.pod_name)

  -- An address that serves where there is no external one.
  abbrev pub is_fallback : NodeAddress → Bool
  is_fallback a = (lbc.allow_internal_ip && a.kind =s internal_ip) || a.kind =s legacy_host_ip

  -- The loop over the node's addresses, with `externalIP` as accumulator.
  node_loop : String → List NodeAddress → String
  node_loop ip [] = ip
  node_loop ip (a ∷ rest) =
      let skipped = node_loop ip rest in
      let next = node_loop (if ip =s "" && is_fallback a then a.address else ip) rest in
      if a.kind =s external_ip then (if a.address =s "" then skipped else a.address) else next

  node_address : Node → Try String
  unfolding node_loop
  node_address node =
      let ip = node_loop "" node.addresses in
      if ip =s "" then failed ("Node " <> node.name <> " has no external IP") else got ip

  found_node : Pod → Try (Option Node) → Try String
  unfolding node_address
  found_node pod (failed e) = failed (
      "Could not get Node "
      <> pod.node_name
      <> " for Pod "
      <> slashed pod.namespace pod.name
      <> " from lister: "
      <> e)
  found_node pod (got none) = failed (
      "Node "
      <> pod.node_name
      <> " for Pod "
      <> slashed pod.namespace pod.name
      <> " has been deleted")
  found_node pod (got (some node)) = node_address node

  unfoldable pub get_pod_address : Pod → Try String
  unfolding found_node
  get_pod_address pod = found_node pod (cache.node pod.node_name)

  module _ {W : Type 0} (client : Client W) where
    abbrev pub lb_ingress : String → LoadBalancerIngress
    lb_ingress address =
        if client.is_ip address
        then record { ip = address; hostname = "" }
        else record { ip = ""; hostname = address }

    abbrev with_pod : List LoadBalancerIngress → Try String → List LoadBalancerIngress
    with_pod lb_ings (failed e) = lb_ings
    with_pod lb_ings (got address) = lb_ings ++ lb_ingress address ∷ []

    -- The loop over the pods; one without an address is logged and skipped.
    pods_loop : List Pod → List LoadBalancerIngress → List LoadBalancerIngress
    pods_loop [] lb_ings = lb_ings
    pods_loop (pod ∷ rest) lb_ings = pods_loop rest (with_pod lb_ings (get_pod_address pod))

    unfoldable pub get_load_balancer_ingress : StringMap → Try (List LoadBalancerIngress)
    unfolding pods_loop
    get_load_balancer_ingress selector =
        wrap_err (λ e. "Could not list Pods with label " <> client.selector_text selector)
          (cache.pods selector)
        >>=? λ pods. got (pods_loop pods [])

    -- What is done about one ingress: its status is written if its IP addresses differ.
    pub update_one : List LoadBalancerIngress → Ingress → W → W
    update_one lb_ings ing w =
        if not (validate_ingress_class lbc ing)
        then w
        else if load_balancer_ingresses_ip_equal ing.load_balancer lb_ings
        then w
        else (client.update_status (record ing { load_balancer = lb_ings }) w).1

    -- The loop over the ingresses, which returns once `stopCh` is closed.
    pub update_loop : List LoadBalancerIngress → List Ingress → W → W
    unfolding update_one
    update_loop lb_ings [] w = w
    update_loop lb_ings (ing ∷ rest) w =
        let w' = update_loop lb_ings rest (update_one lb_ings ing w) in
        if client.is_stopped w then w else w'

    unfoldable pub update_ingress_status : List LoadBalancerIngress → Act W (Unit {0})
    unfolding update_loop
    update_ingress_status lb_ings = do
      ings ← lift (raised (wrap_err (λ e. "Could not list Ingress: " <> e) cache.ingresses))
      λ w. (ok tt, update_loop lb_ings ings w)

    unfoldable pub get_node_ip_and_update_ingress : Sorter → Act W (Unit {0})
    get_node_ip_and_update_ingress sorter = do
      this_pod ← lift (raised get_this_pod)
      lb_ings ← lift (
          raised (
            wrap_err (λ e. "Could not get Node IP of Ingress controller: " <> e)
              (get_load_balancer_ingress this_pod.labels)))
      unique ← lift (uniq_load_balancer_ingress (sort_load_balancer_ingress sorter lb_ings))
      update_ingress_status unique

    -- A failed write is tried again.
    write_answer : Try Ingress × W → Result Bool × W
    write_answer (failed e, w) = (ok false, w)
    write_answer (got ing, w) = (ok true, w)

    write_without : Ingress → List LoadBalancerIngress → Act W Bool
    unfolding write_answer
    write_without ing lb_ings w =
        if length ing.load_balancer == length lb_ings
        then (ok true, w)
        else write_answer (client.update_status (record ing { load_balancer = lb_ings }) w)

    remove_from : String → Ingress → Act W Bool
    unfolding write_without
    remove_from addr ing =
        if length ing.load_balancer == 0
        then done true
        else lift (remove_address_from_load_balancer_ingress ing.load_balancer addr) >>= λ lb_ings.
            write_without ing lb_ings

    got_ingress : String → Try Ingress × W → Result Bool × W
    unfolding remove_from
    got_ingress addr (failed e, w) = (if client.is_not_found e then err e else ok false, w)
    got_ingress addr (got ing, w) = remove_from addr ing w

    -- The condition that is polled for one ingress.
    unfoldable pub address_removed : String → Ingress → Act W Bool
    unfolding got_ingress
    address_removed addr ing w = got_ingress addr (client.get_ingress ing.namespace ing.name w)

    -- The loop over the ingresses; an error of `wait.Poll` is logged.
    unfoldable pub remove_loop : String → List Ingress → Act W (Unit {0})
    remove_loop addr [] = done tt
    remove_loop addr (ing ∷ rest) =
        (if not (validate_ingress_class lbc ing)
          then done tt
          else logged (client.poll (address_removed addr ing)))
        >>= λ _. remove_loop addr rest

    abbrev not_removed : String → String
    not_removed e = "Could not remove address from LoadBalancerIngress: " <> e

    -- the method `removeAddressFromLoadBalancerIngress`
    unfoldable pub remove_address : Act W (Unit {0})
    remove_address = do
      this_pod ← lift (raised (wrap_err not_removed get_this_pod))
      addr ← lift (raised (wrap_err not_removed (get_pod_address this_pod)))
      ings ← lift (raised (wrap_err not_removed cache.ingresses))
      remove_loop addr ings

-- What the `select` of `syncIngress` finds: the stop channel closed, or the timer run out.
pub data Wake : Type 0 where
  stop_closed timer_fired : Wake

-- Where `syncIngress` stands after a number of its `select`s.
pub data SyncEnd : Type 0 where
  waiting returned crashed : SyncEnd

module _ (cache : Caches) (lbc : LoadBalancerController) {W : Type 0} (client : Client W)
    (sorter : Sorter) where
  ended : Result (Unit {0}) × W → SyncEnd × W
  ended (ok u, w) = (returned, w)
  ended (err e, w) = (returned, w)
  ended (panic, w) = (crashed, w)

  -- An error of the update is logged; what `next` does follows.
  continued : (W → SyncEnd × W) → Result (Unit {0}) × W → SyncEnd × W
  continued next (ok u, w) = next w
  continued next (err e, w) = next w
  continued next (panic, w) = (crashed, w)

  unfoldable pub sync_ingress : List Wake → W → SyncEnd × W
  unfolding ended continued
  sync_ingress [] w =
      continued (λ w'. (waiting, w')) (get_node_ip_and_update_ingress cache lbc client sorter w)
  sync_ingress (stop_closed ∷ wakes) w =
      continued (λ w'. ended (remove_address cache lbc client w'))
        (get_node_ip_and_update_ingress cache lbc client sorter w)
  sync_ingress (timer_fired ∷ wakes) w =
      continued (sync_ingress wakes) (get_node_ip_and_update_ingress cache lbc client sorter w)
