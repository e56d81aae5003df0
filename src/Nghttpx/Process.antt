-- ===== src/Nghttpx/Process.antt =====
-- `Manager.Start` of pkg/nghttpx/command.go: the nghttpx process, the goroutine that waits for it, and the
-- `select` between its end and the closing of `stopCh`.
pub mod Laws
use nghttpx_ingress_lb.Common.{ℕ, ◌+◌, ◌≡◌, ◌≢◌, Bool, true, false}

-- Where a call of `Start` is: before `cmd.Start`, in the `select`, about to signal, waiting for the end of
-- the process it has signalled, or returned.
pub data Place : Type 0 where
  entered selecting stopping waiting returned : Place

-- `alive` is whether the process runs, `wait_done` whether `waitDoneCh` is closed, and `quits` how often
-- the QUIT signal was sent.
pub record Nghttpx : Type 0 where
  pub place : Place
  pub alive : Bool
  pub wait_done : Bool
  pub quits : ℕ

abbrev pub not_started : Nghttpx
not_started = record { place = entered; alive = false; wait_done = false; quits = 0 }

-- The steps of `Start` and of its goroutine, while `stopCh` is closed or is not. The channel of the
-- goroutine is closed when `cmd.Wait` has returned, with an error or without one; and whether the signal
-- could be sent makes no difference to what `Start` does next.
pub data StartStep (stop_closed : Bool) : Nghttpx → Nghttpx → Type 0 where
  start_failed :
      (p : Nghttpx) → p.place ≡ entered → StartStep stop_closed p (record p { place = returned })
  start_succeeded :
      (p : Nghttpx)
      → p.place ≡ entered
      → StartStep stop_closed p (record p { place = selecting; alive = true })
  wait_returned :
      (p : Nghttpx)
      → p.place ≢ entered
      → p.place ≢ returned
      → p.alive ≡ false
      → p.wait_done ≡ false
      → StartStep stop_closed p (record p { wait_done = true })
  select_done :
      (p : Nghttpx)
      → p.place ≡ selecting
      → p.wait_done ≡ true
      → StartStep stop_closed p (record p { place = returned })
  select_stop :
      (p : Nghttpx)
      → p.place ≡ selecting
      → stop_closed ≡ true
      → StartStep stop_closed p (record p { place = stopping })
  signalled :
      (p : Nghttpx)
      → p.place ≡ stopping
      → StartStep stop_closed p (record p { place = waiting; quits = p.quits + 1 })
  exited :
      (p : Nghttpx)
      → p.place ≡ waiting
      → p.wait_done ≡ true
      → StartStep stop_closed p (record p { place = returned })
