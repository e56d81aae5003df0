-- ===== src/Controller/Running.antt =====
-- `Run` of controller.go: the goroutines that it starts, what it waits for, and the closing of the queue,
-- side by side with `Start` of the nghttpx process, with `waitForControllerToSync` and with `Stop`. What
-- the worker, the informers and the loop of the status do once they are started is modelled elsewhere.
pub mod Laws
mod Tests
use nghttpx_ingress_lb.Common.{ℕ, suc, ◌≡◌, ◌⊎◌, Bool, true, false, List, [], ◌∷◌, ◌||◌}
use nghttpx_ingress_lb.Nghttpx.Process.{Nghttpx, not_started, StartStep}

-- The goroutines of `Run`. `waiter` is `waitForControllerToSync`, and `worker` runs under `wait.Until`.
pub data Routine : Type 0 where
  nghttpx ingresses endpoints services secrets config_maps pods nodes waiter worker status : Routine

pub data Command : Type 0 where
  go : Routine → Command
  await_ready await_stop shut_down_queue : Command

-- The body of `Run`.
abbrev pub run_body : List Command
run_body =
    go nghttpx
    ∷ go ingresses
    ∷ go endpoints
    ∷ go services
    ∷ go secrets
    ∷ go config_maps
    ∷ go pods
    ∷ go nodes
    ∷ go waiter
    ∷ await_ready
    ∷ go worker
    ∷ go status
    ∷ await_stop
    ∷ shut_down_queue
    ∷ []

-- `rest` is what `Run` has still to do, `routines` what it has started, `synced` whether the informers have synced, and `ready` whether the
-- channel of that name is closed.
pub record Running : Type 0 where
  pub rest : List Command
  pub routines : List Routine
  pub synced : Bool
  pub ready : Bool
  pub stop_closed : Bool
  pub queue_down : Bool
  pub process : Nghttpx

abbrev pub at_first : Running
at_first = record {
  rest = run_body;
  routines = [];
  synced = false;
  ready = false;
  stop_closed = false;
  queue_down = false;
  process = not_started;
}

same_routine : Routine → Routine → Bool
same_routine nghttpx nghttpx = true
same_routine ingresses ingresses = true
same_routine endpoints endpoints = true
same_routine services services = true
same_routine secrets secrets = true
same_routine config_maps config_maps = true
same_routine pods pods = true
same_routine nodes nodes = true
same_routine waiter waiter = true
same_routine worker worker = true
same_routine status status = true
same_routine a b = false

unfoldable pub is_started : Routine → List Routine → Bool
unfolding same_routine
is_started r [] = false
is_started r (q ∷ qs) = same_routine r q || is_started r qs

-- A step of the program.
pub data RunStep : Running → Running → Type 0 where
  launched :
      (s : Running) (r : Routine) (cs : List Command)
      → s.rest ≡ go r ∷ cs
      → RunStep s (record s { rest = cs; routines = r ∷ s.routines })
  found_ready :
      (s : Running) (cs : List Command)
      → s.rest ≡ await_ready ∷ cs
      → s.ready ≡ true
      → RunStep s (record s { rest = cs })
  found_stop :
      (s : Running) (cs : List Command)
      → s.rest ≡ await_stop ∷ cs
      → s.stop_closed ≡ true
      → RunStep s (record s { rest = cs })
  shut_down :
      (s : Running) (cs : List Command)
      → s.rest ≡ shut_down_queue ∷ cs
      → RunStep s (record s { rest = cs; queue_down = true })
  -- the end of `waitForControllerToSync`
  closed_ready :
      (s : Running)
      → is_started waiter s.routines ≡ true
      → s.ready ≡ false
      → (s.synced ≡ true) ⊎ (s.stop_closed ≡ true)
      → RunStep s (record s { ready = true })
  -- a step of `Start`
  process_step :
      (s : Running) (p : Nghttpx)
      → is_started nghttpx s.routines ≡ true
      → StartStep s.stop_closed s.process p
      → RunStep s (record s { process = p })

-- What happens to the program: the informers have synced, a call of `Stop` closes the channel, and the
-- nghttpx process ends, of itself or because of a signal.
pub data Surroundings : Running → Running → Type 0 where
  informers_synced : (s : Running) → s.synced ≡ false → Surroundings s (record s { synced = true })
  stopped : (s : Running) → s.stop_closed ≡ false → Surroundings s (record s { stop_closed = true })
  process_ended :
      (s : Running)
      → s.process.alive ≡ true
      → Surroundings s (record s { process = record s.process { alive = false } })

-- A run, with the number of its steps.
pub data Runs (s : Running) : ℕ → Running → Type 0 where
  begins : Runs s 0 s
  own : (n : ℕ) (t u : Running) → Runs s n t → RunStep t u → Runs s (suc n) u
  outer : (n : ℕ) (t u : Running) → Runs s n t → Surroundings t u → Runs s (suc n) u
