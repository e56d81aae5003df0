-- ===== src/Controller/Status/Laws.antt =====
-- The documented behaviour of the API server and of `wait.Poll`, as far as the status goes.
use nghttpx_ingress_lb.Common.{
  String, ◌≡◌, Bool, true, Option, some, List, ◌&&◌, ok, failed, got, if◌then◌else◌,
}
use nghttpx_ingress_lb.Common.Text.{◌=s◌}
use nghttpx_ingress_lb.Api.{Ingress, LoadBalancerIngress}
use nghttpx_ingress_lb.Controller.Act.{Act}
use nghttpx_ingress_lb.Controller.Status.{Client}

-- Whether `namespace/name` is the object's key.
abbrev pub is_key : String → String → Ingress → Bool
is_key namespace name ing = namespace =s ing.namespace && name =s ing.name

-- The addresses in the status of an ingress are read from the state of the world. A write that
-- succeeds replaces those of one ingress, and nothing else but a write changes any, so that no other
-- client is at work. `wait.Poll` ends without an error only after its condition has returned true, and
-- touches only what its condition touches.
pub record ClientLaws {W : Type 0} (client : Client W) : Type 1 where
  pub addresses : W → String → String → Option (List LoadBalancerIngress)
  pub update-wrote :
      (ing r : Ingress) (w w' : W) (namespace name : String)
      → client.update_status ing w ≡ (got r, w')
      → addresses w' namespace name
        ≡ (if is_key namespace name ing then some ing.load_balancer else addresses w namespace name)
  pub update-failed :
      (ing : Ingress) (e : String) (w w' : W) (namespace name : String)
      → client.update_status ing w ≡ (failed e, w')
      → addresses w' namespace name ≡ addresses w namespace name
  pub get-found :
      (namespace name : String) (ing : Ingress) (w w' : W)
      → client.get_ingress namespace name w ≡ (got ing, w')
      → (ing.namespace ≡ namespace)
        × (ing.name ≡ name)
        × (addresses w' namespace name ≡ some ing.load_balancer)
  pub get-keeps :
      (namespace name namespace' name' : String) (w : W)
      → addresses (client.get_ingress namespace name w).1 namespace' name'
        ≡ addresses w namespace' name'
  pub poll-true :
      (m : Act W Bool) (w w' : W)
      → client.poll m w ≡ (ok tt, w')
      → (w1 : W) × (m w1 ≡ (ok true, w'))
  pub poll-keeps :
      (P : W → Type 0) (m : Act W Bool) (w : W)
      → ((w1 : W) → P w1 → P (m w1).1)
      → P w
      → P (client.poll m w).1
