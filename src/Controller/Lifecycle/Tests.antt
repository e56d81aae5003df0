-- ===== src/Controller/Lifecycle/Tests.antt =====
-- Two calls of `Stop`, and two rounds of waiting.
use nghttpx_ingress_lb.Common.{ℕ, ◌≤◌, ◌≡◌, Bool, true, false, Option, none, some, if◌then◌else◌}
use nghttpx_ingress_lb.Controller.Lifecycle.{
  Stopping, Place, entered, found_open, marked, leaving, lock, see_shut, see_open, mark, close,
  unlock,
}
use nghttpx_ingress_lb.Controller.Lifecycle.Laws.{IsReached, start, step, stopped_once}

abbrev at : Option Place → Bool → ℕ → Stopping
at inside shutdown closes = record { inside = inside; shutdown = shutdown; closes = closes }

first_call : IsReached (at none true 1)
first_call =
    step (at (some leaving) true 1) _
      (step (at (some marked) true 0) _
        (step (at (some found_open) false 0) _
          (step (at (some entered) false 0) _ (step (at none false 0) _ start (lock false 0))
            (see_open 0))
          (mark false 0))
        (close true 0))
      (unlock true 1)

second_call : IsReached (at none true 1)
second_call =
    step (at (some leaving) true 1) _
      (step (at (some entered) true 1) _ (step (at none true 1) _ first_call (lock true 1))
        (see_shut 1))
      (unlock true 1)

stopped_once_example :
    let s = at none true 1 in
    (s.closes ≤ 1) × (s.inside ≡ none → s.closes ≡ (if s.shutdown then 1 else 0))
stopped_once_example = stopped_once (at none true 1) second_call
