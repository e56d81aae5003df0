-- ===== src/Controller/Lifecycle/Laws.antt =====
-- How often concurrent calls of `Stop` close the channel, and when the waiting for the informers ends.
use mathlib.Core.List.{Memᴰ}
use nghttpx_ingress_lb.Controller.Status.{Wake, stop_closed, timer_fired}
use nghttpx_ingress_lb.Common.{
  List, [], ◌∷◌, ◌↔◌, ◌⊎◌, inl, inr, Bool-cases, ap, sym, ◌∙◌, ◌≤◌, ◌≡◌, refl, true, false, none,
  some, arith, if◌then◌else◌,
}
use nghttpx_ingress_lb.Controller.Lifecycle.{
  Stopping, entered, found_open, marked, leaving, StopStep, lock, see_shut, see_open, mark, close,
  unlock, not_stopped, Synced, controllers_in_sync, woken, wait_for_controller_to_sync,
}

-- Calls of `Stop` from the start on, in any number and order.
pub data IsReached : Stopping → Type 0 where
  start : IsReached not_stopped
  step : (s t : Stopping) → IsReached s → StopStep s t → IsReached t

-- The states that there are.
data IsExpected : Stopping → Type 0 where
  before : IsExpected (record { inside = none; shutdown = false; closes = 0 })
  entering : IsExpected (record { inside = some entered; shutdown = false; closes = 0 })
  opening : IsExpected (record { inside = some found_open; shutdown = false; closes = 0 })
  marking : IsExpected (record { inside = some marked; shutdown = true; closes = 0 })
  closing : IsExpected (record { inside = some leaving; shutdown = true; closes = 1 })
  after : IsExpected (record { inside = none; shutdown = true; closes = 1 })
  again : IsExpected (record { inside = some entered; shutdown = true; closes = 1 })

step-IsExpected : (s t : Stopping) → IsExpected s → StopStep s t → IsExpected t
step-IsExpected s t before (lock _ _) = entering
step-IsExpected s t entering (see_open _) = opening
step-IsExpected s t opening (mark _ _) = marking
step-IsExpected s t marking (close _ _) = closing
step-IsExpected s t closing (unlock _ _) = after
step-IsExpected s t after (lock _ _) = again
step-IsExpected s t again (see_shut _) = closing

reached-IsExpected : (s : Stopping) → IsReached s → IsExpected s
reached-IsExpected s start = before
reached-IsExpected s (step m t r h) = step-IsExpected m t (reached-IsExpected m r) h

-- Whatever calls of `Stop` there are and however they interleave, `stopCh` is closed at most once, and
-- while no call holds the lock it is closed exactly if `shutdown` is set.
pub stopped_once :
    (s : Stopping)
    → IsReached s
    → (s.closes ≤ 1) × (s.inside ≡ none → s.closes ≡ (if s.shutdown then 1 else 0))
stopped_once s r = of s (reached-IsExpected s r)
  where
    of :
        (s : Stopping)
        → IsExpected s
        → (s.closes ≤ 1) × (s.inside ≡ none → s.closes ≡ (if s.shutdown then 1 else 0))
    of s before = (omega arith, λ e. refl)
    of s entering = (omega arith, λ e. cc)
    of s opening = (omega arith, λ e. cc)
    of s marking = (omega arith, λ e. cc)
    of s closing = (omega arith, λ e. refl)
    of s after = (omega arith, λ e. refl)
    of s again = (omega arith, λ e. refl)

-- Every controller has synced.
abbrev pub IsInSync : Synced → Type 0
IsInSync s =
    (s.ing ≡ true)
    × (s.svc ≡ true)
    × (s.ep ≡ true)
    × (s.secret ≡ true)
    × (s.cm ≡ true)
    × (s.pod ≡ true)
    × (s.node ≡ true)

controllers_in_sync_iff : (s : Synced) → (controllers_in_sync s ≡ true) ↔ IsInSync s
unfolding controllers_in_sync
controllers_in_sync_iff s = ground arith

-- `waitForControllerToSync` closes `ready` exactly if in some round the controllers of all seven
-- informers have synced, or it finds `stopCh` closed: on a stop the controllers need not have synced.
wait_for_controller_to_sync_iff :
    (looks : List (Synced × Wake))
    → (wait_for_controller_to_sync looks ≡ true)
      ↔ ((look : Synced × Wake) × Memᴰ look looks × (IsInSync look.0 ⊎ (look.1 ≡ stop_closed)))
unfolding wait_for_controller_to_sync woken
wait_for_controller_to_sync_iff [] = (λ h. cc, λ (look, m, k). elim m [ ])
wait_for_controller_to_sync_iff ((s, stop_closed) ∷ rest) =
    elim (Bool-cases (controllers_in_sync s)) [
      | inl e ↦ rw e (λ _. ((s, stop_closed), Memᴰ.head refl, inr refl), λ _. refl)
      | inr e ↦ rw e (λ _. ((s, stop_closed), Memᴰ.head refl, inr refl), λ _. refl)
    ]
wait_for_controller_to_sync_iff ((s, timer_fired) ∷ rest) =
    let later = wait_for_controller_to_sync_iff rest in
    elim (Bool-cases (controllers_in_sync s)) [
      | inl e ↦ rw e (
        λ _. ((s, timer_fired), Memᴰ.head refl, inl ((controllers_in_sync_iff s).0 e)),
        λ _. refl,
      )
      | inr e ↦ rw e (
        λ h. let (look, m, k) = later.0 h in (look, Memᴰ.tail m, k),
        λ (look, m, k). back e later look m k,
      )
    ]
  where
    back :
        controllers_in_sync s ≡ false
        → (wait_for_controller_to_sync rest ≡ true)
          ↔ ((look : Synced × Wake) × Memᴰ look rest × (IsInSync look.0 ⊎ (look.1 ≡ stop_closed)))
        → (look : Synced × Wake) → Memᴰ look ((s, timer_fired) ∷ rest)
        → IsInSync look.0 ⊎ (look.1 ≡ stop_closed)
        → wait_for_controller_to_sync rest ≡ true
    back e later look (Memᴰ.tail m) k = later.1 (look, m, k)
    back e later look (Memᴰ.head same) (inl k) =
        let k' : IsInSync s = rw (ap (λ l. l.0) same) at k in
        let absurd : true ≡ false = sym ((controllers_in_sync_iff s).1 k') ∙ e in cc
    back e later look (Memᴰ.head same) (inr k) =
        let absurd : timer_fired ≡ stop_closed = sym (ap (λ l. l.1) same) ∙ k in cc
