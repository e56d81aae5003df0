-- ===== src/Controller/Lifecycle.antt =====
-- `Stop` of controller.go, which the handlers of cmd/main.go for SIGTERM and for `/stop` may call at one
-- time; each call takes the lock, and is at one of a few places while it holds it. And
-- `waitForControllerToSync`, which waits for the informers.
pub mod Laws
mod Tests
use nghttpx_ingress_lb.Common.{
  ℕ, ◌+◌, Bool, true, false, Option, none, some, List, [], ◌∷◌, ◌&&◌, if◌then◌else◌,
}
use nghttpx_ingress_lb.Controller.Status.{Wake, stop_closed, timer_fired}

pub data Place : Type 0 where
  entered found_open marked leaving : Place

-- `inside` is the place of the call that holds `stopLock`, and `closes` how often `stopCh` was closed.
pub record Stopping : Type 0 where
  pub inside : Option Place
  pub shutdown : Bool
  pub closes : ℕ

-- A call takes the lock, looks at `shutdown`, sets it, closes the channel, and gives the lock back.
pub data StopStep : Stopping → Stopping → Type 0 where
  lock :
      (b : Bool) (n : ℕ)
      → StopStep
          (record { inside = none; shutdown = b; closes = n })
          (record { inside = some entered; shutdown = b; closes = n })
  see_shut :
      (n : ℕ)
      → StopStep
          (record { inside = some entered; shutdown = true; closes = n })
          (record { inside = some leaving; shutdown = true; closes = n })
  see_open :
      (n : ℕ)
      → StopStep
          (record { inside = some entered; shutdown = false; closes = n })
          (record { inside = some found_open; shutdown = false; closes = n })
  mark :
      (b : Bool) (n : ℕ)
      → StopStep
          (record { inside = some found_open; shutdown = b; closes = n })
          (record { inside = some marked; shutdown = true; closes = n })
  close :
      (b : Bool) (n : ℕ)
      → StopStep
          (record { inside = some marked; shutdown = b; closes = n })
          (record { inside = some leaving; shutdown = b; closes = n + 1 })
  unlock :
      (b : Bool) (n : ℕ)
      → StopStep
          (record { inside = some leaving; shutdown = b; closes = n })
          (record { inside = none; shutdown = b; closes = n })

abbrev pub not_stopped : Stopping
not_stopped = record { inside = none; shutdown = false; closes = 0 }

-- `HasSynced` of the informers' controllers.
pub record Synced : Type 0 where
  pub ing : Bool
  pub svc : Bool
  pub ep : Bool
  pub secret : Bool
  pub cm : Bool
  pub pod : Bool
  pub node : Bool

unfoldable pub controllers_in_sync : Synced → Bool
controllers_in_sync s = s.ing && (s.svc && (s.ep && (s.secret && (s.cm && (s.pod && s.node)))))

woken : Wake → Bool → Bool
woken stop_closed next = true
woken timer_fired next = next

-- Whether `ready` is closed after a number of rounds, each with what the controllers say and with what
-- the `select` finds.
unfoldable pub wait_for_controller_to_sync : List (Synced × Wake) → Bool
unfolding woken
wait_for_controller_to_sync [] = false
wait_for_controller_to_sync (look ∷ rest) =
    let next = wait_for_controller_to_sync rest in
    if controllers_in_sync look.0 then true else woken look.1 next
