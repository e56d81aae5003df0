-- ===== src/Controller/Queue.antt =====
-- The work queue of client-go (vendor/k8s.io/kubernetes/pkg/util/workqueue), as far as controller.go
-- calls it.
use nghttpx_ingress_lb.Common.{String, ◌≡◌, Bool, true, false}

-- What `Get` does: it waits, or it gives an item and whether the queue has shut down.
pub data Gotten (Q : Type 0) : Type 0 where
  waits : Gotten Q
  gives : String → Bool → Q → Gotten Q

pub record WorkQueue (Q : Type 0) : Type 0 where
  pub add : String → Q → Q
  pub get : Q → Gotten Q
  pub done : String → Q → Q
  pub shut_down : Q → Q

-- Documented of the queue: unless it is shut down, an item that is added is then waiting to be got,
-- also where it is being processed; to add an item or to be done with one takes none away and does not
-- shut the queue down; and `Get` waits only while every item that was added is being processed.
pub record QueueLaws {Q : Type 0} (queue : WorkQueue Q) : Type 1 where
  pub is_added : Q → String → Bool
  pub is_processed : Q → String → Bool
  pub is_down : Q → Bool
  pub add-is_added : (k : String) (q : Q) → is_down q ≡ false → is_added (queue.add k q) k ≡ true
  pub add-keeps :
      (k : String) (q : Q) (j : String) → is_added q j ≡ true → is_added (queue.add k q) j ≡ true
  pub done-keeps : (k : String) (q : Q) (j : String) → is_added (queue.done k q) j ≡ is_added q j
  pub get-waits :
      (q : Q) (j : String) → queue.get q ≡ waits → is_processed q j ≡ false → is_added q j ≡ false
  pub add-is_down : (k : String) (q : Q) → is_down (queue.add k q) ≡ is_down q
  pub done-is_down : (k : String) (q : Q) → is_down (queue.done k q) ≡ is_down q
