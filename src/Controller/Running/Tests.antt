-- ===== src/Controller/Running/Tests.antt =====
-- A run of the program from its start to its end.
use nghttpx_ingress_lb.Common.{◌≡◌, ◌≤◌, ◌<◌, ◌⊎◌, ◌||◌, inl, refl, true, false, [], ◌∷◌}
use nghttpx_ingress_lb.Nghttpx.Process.{
  returned, start_succeeded, select_stop, signalled, wait_returned, exited,
}
use nghttpx_ingress_lb.Nghttpx.Process.Laws.{AwaitsExit}
use nghttpx_ingress_lb.Controller.Running.{
  nghttpx, ingresses, endpoints, services, secrets, config_maps, pods, nodes, waiter, worker,
  status, Running, at_first, same_routine, is_started, RunStep, launched, found_ready, found_stop,
  shut_down, closed_ready, process_step, informers_synced, stopped, process_ended, Runs, begins,
  own, outer,
}
use nghttpx_ingress_lb.Controller.Running.Laws.{
  HasReturned, HasEnded, Runs-HasEnded, Runs-IsInOrder,
}

abbrev at_last : Running
at_last = record {
  rest = [];
  routines =
      status ∷ worker ∷ waiter ∷ nodes ∷ pods ∷ config_maps ∷ secrets ∷ services ∷ endpoints
      ∷ ingresses ∷ nghttpx ∷ [];
  synced = true;
  ready = true;
  stop_closed = true;
  queue_down = true;
  process = record { place = returned; alive = false; wait_done = true; quits = 1 };
}

whole_run : Runs at_first 23 at_last
unfolding is_started same_routine
whole_run =
    own _ _ _
      (own _ _ _
        (outer _ _ _
          (own _ _ _
            (own _ _ _
              (own _ _ _
                (own _ _ _
                  (outer _ _ _
                    (own _ _ _
                      (own _ _ _
                        (own _ _ _
                          (own _ _ _
                            (outer _ _ _
                              (own _ _ _
                                (own _ _ _
                                  (own _ _ _
                                    (own _ _ _
                                      (own _ _ _
                                        (own _ _ _
                                          (own _ _ _
                                            (own _ _ _
                                              (own _ _ _
                                                (own _ _ _ begins (launched _ nghttpx _ refl))
                                                (process_step _ _ refl (start_succeeded _ refl)))
                                              (launched _ ingresses _ refl))
                                            (launched _ endpoints _ refl))
                                          (launched _ services _ refl))
                                        (launched _ secrets _ refl))
                                      (launched _ config_maps _ refl))
                                    (launched _ pods _ refl))
                                  (launched _ nodes _ refl))
                                (launched _ waiter _ refl))
                              (informers_synced _ refl))
                            (closed_ready _ refl refl (inl refl)))
                          (found_ready _ _ refl refl))
                        (launched _ worker _ refl))
                      (launched _ status _ refl))
                    (stopped _ refl))
                  (found_stop _ _ refl refl))
                (process_step _ _ refl (select_stop _ refl refl)))
              (shut_down _ _ refl))
            (process_step _ _ refl (signalled _ refl)))
          (process_ended _ refl))
        (process_step _ _ refl (wait_returned _ (λ e. cc) (λ e. cc) refl refl)))
      (process_step _ _ refl (exited _ refl refl))

Runs-HasEnded_example :
    (23 ≤ 23)
    × (at_last.stop_closed ≡ true
        → HasEnded at_last
          ⊎ ((t : Running) × RunStep at_last t)
          ⊎ (HasReturned at_last × AwaitsExit at_last.process))
Runs-HasEnded_example = Runs-HasEnded 23 at_last whole_run

Runs-IsInOrder_example :
    ((is_started worker at_last.routines || is_started status at_last.routines) ≡ true
      → (at_last.synced ≡ true) ⊎ (at_last.stop_closed ≡ true))
    × (at_last.queue_down ≡ true → at_last.stop_closed ≡ true)
    × (at_last.process.quits ≤ 1)
    × (0 < at_last.process.quits → at_last.stop_closed ≡ true)
    × (at_last.process.place ≡ returned → at_last.process.alive ≡ false)
Runs-IsInOrder_example = Runs-IsInOrder 23 at_last whole_run
