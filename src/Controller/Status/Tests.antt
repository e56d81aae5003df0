-- ===== src/Controller/Status/Tests.antt =====
-- An API server in memory that has a status for every ingress, and the theorems on the status at it.
use mathlib.Core.List.{Memᴰ}
use nghttpx_ingress_lb.Common.{
  String, ◌≡◌, ◌≢◌, ◌∙◌, Bool-cases, ◌==◌, length, ◌↔◌, inl, inr, refl, sym, ap, true, false, some,
  List, [], ◌∷◌, ◌&&◌, Result, ok, err, panic, Try, failed, got, if◌then◌else◌, Bool,
}
use nghttpx_ingress_lb.Common.Text.{◌=s◌}
use nghttpx_ingress_lb.Common.Sorting.{insertion_sorter}
use nghttpx_ingress_lb.Api.{Ingress, Node, LoadBalancerIngress}
use nghttpx_ingress_lb.Controller.Fixtures.{
  site_cache, site_lbc, site_ingress, foreign_ingress, site_pod,
}
use nghttpx_ingress_lb.Controller.Annotation.{validate_ingress_class}
use nghttpx_ingress_lb.Controller.Addresses.Removed.{
  without, remove_address_from_load_balancer_ingress-without,
}
use nghttpx_ingress_lb.Controller.Status.{
  Client, get_this_pod, get_pod_address, address_removed, update_ingress_status, sync_ingress,
  stop_closed, timer_fired, Wake, returned, write_without, remove_from, got_ingress, write_answer,
  found_node, node_address, node_loop,
}
use nghttpx_ingress_lb.Controller.Act.{Act}
use nghttpx_ingress_lb.Controller.Env.{Caches}
use nghttpx_ingress_lb.Controller.Status.Laws.{ClientLaws, is_key}
use nghttpx_ingress_lb.Controller.Status.Updated.{
  Shows, update_ingress_status-Shows, update_ingress_status-keeps,
}
use nghttpx_ingress_lb.Controller.Status.Ends.{
  Withdrawn, sync_ingress-returned, sync_ingress-Withdrawn,
}
use nghttpx_ingress_lb.Controller.Status.Preferred.{preferred, get_pod_address-eq-got_iff}

-- The statuses, by namespace and name.
abbrev Statuses : Type 0
Statuses = String → String → List LoadBalancerIngress

abbrev polled : Result Bool × Statuses → Result (Unit {0}) × Statuses
polled (ok true, w) = (ok tt, w)
polled (ok false, w) = (err "timed out waiting for the condition", w)
polled (err e, w) = (err e, w)
polled (panic, w) = (panic, w)

abbrev with_status : String → String → Statuses → Ingress
with_status ns name w = record site_ingress {
  namespace = ns;
  name = name;
  load_balancer = w ns name;
}

abbrev site_client : Client Statuses
site_client = record {
  get_ingress = λ ns name w. (got (with_status ns name w), w);
  update_status =
      λ ing w. (got ing, λ ns name. if is_key ns name ing then ing.load_balancer else w ns name);
  is_stopped = λ w. false;
  is_ip = λ s. true;
  is_not_found = λ e. true;
  selector_text = λ selector. "";
  poll = λ m w. polled (m w);
}

polled_kept : (r : Result Bool × Statuses) → (polled r).1 ≡ r.1
polled_kept (ok true, w) = refl
polled_kept (ok false, w) = refl
polled_kept (err e, w) = refl
polled_kept (panic, w) = refl

polled-ok :
    (r : Result Bool × Statuses) (w' : Statuses) → polled r ≡ (ok tt, w') → r ≡ (ok true, w')
polled-ok (ok true, w) w' e = ap (λ p. (ok true, p.1)) e
polled-ok (ok false, w) w' e = let c = ap (λ p. p.0) e in cc
polled-ok (err m, w) w' e = let c = ap (λ p. p.0) e in cc
polled-ok (panic, w) w' e = let c = ap (λ p. p.0) e in cc

got_value : Ingress → Try Ingress → Ingress
got_value d (failed e) = d
got_value d (got i) = i

site_laws : ClientLaws site_client
unfolding got_value
site_laws = record {
  addresses = λ w ns name. some (w ns name);
  update-wrote = λ ing r w w' ns name h.
      let k : w' ns name ≡ (if is_key ns name ing then ing.load_balancer else w ns name) =
        sym (ap (λ p. p.1 ns name) h) in
      elim (Bool-cases (is_key ns name ing)) [
        | inl e ↦ rw e (ap (λ l. some l) (k ∙ rw e refl))
        | inr e ↦ rw e (ap (λ l. some l) (k ∙ rw e refl))
      ];
  update-failed = λ ing e w w' ns name h. let c = ap (λ p. p.0) h in cc;
  get-found = λ ns name ing w w' h.
      let i : with_status ns name w ≡ ing = ap (λ p. got_value ing p.0) h in
      (
        sym (ap (λ j. j.namespace) i),
        sym (ap (λ j. j.name) i),
        ap (λ p. some (p.1 ns name)) (sym h) ∙ ap (λ j. some j.load_balancer) i,
      );
  get-keeps = λ ns name ns' name' w. refl;
  poll-true = λ m w w' h. (w, polled-ok (m w) w' h);
  poll-keeps = λ P m w step p. rw (polled_kept (m w)) (step w p);
}

abbrev addr : String
addr = "198.51.100.7"

site_prompt :
    (ing : Ingress) (w : Statuses)
    → (w' : Statuses) × (site_client.poll
          (address_removed site_cache site_lbc site_client addr ing)
          w
        ≡ (ok tt, w'))
unfolding address_removed got_ingress remove_from write_without write_answer
site_prompt ing w =
    let l = w ing.namespace ing.name in
    elim (Bool-cases (length l == 0)) [
      | inl e ↦ (w, rw e refl)
      | inr e ↦ elim (Bool-cases (length l == length (without addr l))) [
        | inl k ↦ (w, rw (e, remove_address_from_load_balancer_ingress-without l addr, k) refl)
        | inr k ↦ (
          λ ns name. if ns =s ing.namespace && name =s ing.name then without addr l else w ns name,
          rw (e, remove_address_from_load_balancer_ingress-without l addr, k) refl,
        )
      ]
    ]

abbrev shown : List LoadBalancerIngress
shown = record { ip = addr; hostname = "" } ∷ []

abbrev no_statuses : Statuses
no_statuses ns name = []

abbrev all_shown : Statuses
all_shown ns name = shown

update_ingress_status-Shows_example :
    Shows site_cache site_lbc site_client site_laws shown "shop" "front"
      (update_ingress_status site_cache site_lbc site_client shown no_statuses).1
unfolding site_laws validate_ingress_class
update_ingress_status-Shows_example =
    update_ingress_status-Shows site_cache site_lbc site_client site_laws shown (λ w. refl)
      (λ ing w. (ing, (site_client.update_status ing w).1, refl))
      (site_ingress ∷ foreign_ingress ∷ []) no_statuses site_ingress refl (refl, (refl, tt))
      (Memᴰ.head refl) refl

update_ingress_status-keeps_example :
    site_laws.addresses
      (update_ingress_status site_cache site_lbc site_client shown no_statuses).1
      "shop"
      "other"
    ≡ site_laws.addresses no_statuses "shop" "other"
unfolding validate_ingress_class
update_ingress_status-keeps_example =
    update_ingress_status-keeps site_cache site_lbc site_client site_laws shown
      (site_ingress ∷ foreign_ingress ∷ []) no_statuses "shop" "other" refl
      (inr refl, (inl refl, tt))

this_pod : get_this_pod site_cache site_lbc ≡ got site_pod
unfolding get_this_pod
this_pod = refl

this_address : get_pod_address site_cache site_lbc site_pod ≡ got addr
unfolding get_pod_address found_node node_address node_loop
this_address = refl

abbrev wakes : List Wake
wakes = timer_fired ∷ timer_fired ∷ stop_closed ∷ []

site_poll_safe :
    (m : Act Statuses Bool) (w : Statuses)
    → ((w1 : Statuses) → (m w1).0 ≢ panic)
    → (site_client.poll m w).0 ≢ panic
site_poll_safe m w h = of (m w) (h w)
  where
    of : (r : Result Bool × Statuses) → r.0 ≢ panic → (polled r).0 ≢ panic
    of (ok true, w') k = λ c. cc
    of (ok false, w') k = λ c. cc
    of (err e, w') k = λ c. cc
    of (panic, w') k = λ c. k refl

-- A controller whose pod is not there: the removal of the address fails.
abbrev lost_cache : Caches
lost_cache = record site_cache { pod = λ ns name. failed "not found" }

sync_ingress-returned_example :
    (w' : Statuses) × (sync_ingress lost_cache site_lbc site_client insertion_sorter wakes
        no_statuses
      ≡ (returned, w'))
sync_ingress-returned_example =
    sync_ingress-returned lost_cache site_lbc site_client insertion_sorter site_poll_safe wakes
      no_statuses (Memᴰ.tail (Memᴰ.tail (Memᴰ.head refl)))

sync_ingress-Withdrawn_example :
    (w' : Statuses) × (sync_ingress site_cache site_lbc site_client insertion_sorter wakes
        no_statuses
      ≡ (returned, w'))
    × Withdrawn site_cache site_lbc site_client insertion_sorter site_laws addr site_prompt site_pod
        (site_ingress ∷ foreign_ingress ∷ [])
        this_pod
        this_address
        refl
        w'
sync_ingress-Withdrawn_example =
    sync_ingress-Withdrawn site_cache site_lbc site_client insertion_sorter site_laws addr
      site_prompt site_pod (site_ingress ∷ foreign_ingress ∷ []) this_pod this_address refl wakes
      no_statuses (Memᴰ.tail (Memᴰ.tail (Memᴰ.head refl)))

get_pod_address-eq-got_iff_example : (get_pod_address site_cache site_lbc site_pod ≡ got addr) ↔ (
    (node : Node) × (site_cache.node site_pod.node_name ≡ got (some node))
    × (preferred site_cache site_lbc node.addresses ≡ some addr))
get_pod_address-eq-got_iff_example = get_pod_address-eq-got_iff site_cache site_lbc site_pod addr
