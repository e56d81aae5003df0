-- ===== src/Controller/Running/Laws.antt =====
-- The order in which `Run` does things, what it leaves behind, and that it comes to an end.
use nghttpx_ingress_lb.Common.{
  ℕ, ◌+◌, ◌≤◌, ◌<◌, ◌≡◌, ◌⊎◌, ◌∙◌, inl, inr, refl, sym, ap, Bool, Bool-cases, true, false, List, [],
  ◌∷◌, ◌&&◌, ◌||◌, not, length, if◌then◌else◌, arith,
}
use nghttpx_ingress_lb.Nghttpx.Process.{returned}
use nghttpx_ingress_lb.Nghttpx.Process.Laws.{
  process_weight, StartStep-weight, IsInOrder, StartStep-IsInOrder, IsInOrder-stopped,
  IsInOrder-ended, IsInOrder-told, AwaitsExit, Start_ends,
}
use nghttpx_ingress_lb.Controller.Running.{
  Routine, nghttpx, waiter, worker, status, Command, go, await_ready, await_stop, shut_down_queue,
  Running, at_first, same_routine, is_started, RunStep, launched, found_ready, found_stop,
  shut_down, closed_ready, process_step, Surroundings, informers_synced, stopped, process_ended,
  Runs, begins, own, outer,
}

-- The steps that are left, at most.
abbrev weight : Running → ℕ
weight s =
    length s.rest
    + (if s.ready then 0 else 1)
    + (if s.synced then 0 else 1)
    + (if s.stop_closed then 0 else 1)
    + process_weight s.process

RunStep-weight : (s t : Running) → RunStep s t → weight t < weight s
RunStep-weight s t (launched _ r cs e) = ground (arith, ap length e)
RunStep-weight s t (found_ready _ cs e h) = ground (arith, ap length e)
RunStep-weight s t (found_stop _ cs e h) = ground (arith, ap length e)
RunStep-weight s t (shut_down _ cs e) = ground (arith, ap length e)
RunStep-weight s t (closed_ready _ w r h) = ground arith
RunStep-weight s t (process_step _ p n h) =
    omega (arith, StartStep-weight s.stop_closed s.process p h)

Surroundings-weight : (s t : Running) → Surroundings s t → weight t < weight s
Surroundings-weight s t (informers_synced _ e) = ground arith
Surroundings-weight s t (stopped _ e) = ground arith
Surroundings-weight s t (process_ended _ e) = ground arith

Runs-weight : (s : Running) (n : ℕ) (t : Running) → Runs s n t → n + weight t ≤ weight s
Runs-weight s n t begins = omega arith
Runs-weight s n t (own m u _ r h) = omega (arith, Runs-weight s m u r, RunStep-weight u t h)
Runs-weight s n t (outer m u _ r h) = omega (arith, Runs-weight s m u r, Surroundings-weight u t h)

needs_ready : Routine → Bool
needs_ready worker = true
needs_ready status = true
needs_ready r = false

-- Whether what is left of `Run` is in order: `passed` and `left` are whether it has been through the two
-- waits, and `down` whether it has shut the queue down.
ordered : List Routine → Bool → Bool → Bool → List Command → Bool
unfolding needs_ready
ordered rs passed left down [] = is_started nghttpx rs && (left && down)
ordered rs passed left down (go r ∷ cs) =
    (passed || not (needs_ready r)) && ordered (r ∷ rs) passed left down cs
ordered rs passed left down (await_ready ∷ cs) =
    is_started waiter rs && ordered rs true left down cs
ordered rs passed left down (await_stop ∷ cs) = ordered rs passed true down cs
ordered rs passed left down (shut_down_queue ∷ cs) = left && ordered rs passed left true cs

record IsOrderlyWith (passed left : Bool) (s : Running) : Type 0 where
  is_ordered : ordered s.routines passed left s.queue_down s.rest ≡ true
  was_ready : passed ≡ true → s.ready ≡ true
  was_stopped : left ≡ true → s.stop_closed ≡ true
  had_synced : s.ready ≡ true → (s.synced ≡ true) ⊎ (s.stop_closed ≡ true)
  worker_ready : is_started worker s.routines ≡ true → s.ready ≡ true
  status_ready : is_started status s.routines ≡ true → s.ready ≡ true
  down_stopped : s.queue_down ≡ true → s.stop_closed ≡ true
  process : IsInOrder s.stop_closed s.process

-- `Run` is in order, with what it has been through.
IsOrderly : Running → Type 0
IsOrderly s = (passed : Bool) × (left : Bool) × IsOrderlyWith passed left s

and_parts : (a b : Bool) → (a && b) ≡ true → (a ≡ true) × (b ≡ true)
and_parts true b h = (refl, h)
and_parts false b h = cc

-- The worker and the loop of the status are launched once `ready` is closed.
ready_when :
    (q r : Routine) (passed ready : Bool) (rs : List Routine)
    → needs_ready q ≡ true
    → (passed || not (needs_ready r)) ≡ true
    → (passed ≡ true → ready ≡ true)
    → (is_started q rs ≡ true → ready ≡ true)
    → is_started q (r ∷ rs) ≡ true
    → ready ≡ true
unfolding is_started same_routine needs_ready
ready_when worker worker true ready rs n h p w k = p refl
ready_when status status true ready rs n h p w k = p refl
ready_when worker worker false ready rs n h p w k = cc
ready_when status status false ready rs n h p w k = cc
ready_when q r passed ready rs n h p w k = ground arith

launched-IsOrderly :
    (s : Running) (r : Routine) (cs : List Command)
    → s.rest ≡ go r ∷ cs
    → IsOrderly s
    → IsOrderly (record s { rest = cs; routines = r ∷ s.routines })
unfolding IsOrderly ordered needs_ready
launched-IsOrderly s r cs e (passed, left, o) =
    let h : ordered s.routines passed left s.queue_down (go r ∷ cs) ≡ true =
      ap (ordered s.routines passed left s.queue_down) (sym e) ∙ o.is_ordered in
    (
      passed,
      left,
      ground (
        arith,
        ready_when worker r passed s.ready s.routines,
        ready_when status r passed s.ready s.routines,
      ),
    )

RunStep-IsOrderly : (s t : Running) → RunStep s t → IsOrderly s → IsOrderly t
unfolding IsOrderly ordered
RunStep-IsOrderly s t (launched _ r cs e) o = launched-IsOrderly s r cs e o
RunStep-IsOrderly s t (found_ready _ cs e h) (passed, left, o) =
    let k = ap (ordered s.routines passed left s.queue_down) (sym e) ∙ o.is_ordered in
    (true, left, ground arith)
RunStep-IsOrderly s t (found_stop _ cs e h) (passed, left, o) =
    let k = ap (ordered s.routines passed left s.queue_down) (sym e) ∙ o.is_ordered in
    (passed, true, ground arith)
RunStep-IsOrderly s t (shut_down _ cs e) (passed, left, o) =
    let k = ap (ordered s.routines passed left s.queue_down) (sym e) ∙ o.is_ordered in
    (passed, left, ground arith)
RunStep-IsOrderly s t (closed_ready _ w r h) (passed, left, o) = (passed, left, ground arith)
RunStep-IsOrderly s t (process_step _ p n h) (passed, left, o) =
    (passed, left, ground (arith, StartStep-IsInOrder s.stop_closed s.process p h o.process))

Surroundings-IsOrderly : (s t : Running) → Surroundings s t → IsOrderly s → IsOrderly t
unfolding IsOrderly
Surroundings-IsOrderly s t (informers_synced _ e) (passed, left, o) = (passed, left, ground arith)
Surroundings-IsOrderly s t (stopped _ e) (passed, left, o) =
    (passed, left, ground (arith, IsInOrder-stopped s.stop_closed s.process o.process))
Surroundings-IsOrderly s t (process_ended _ e) (passed, left, o) =
    (passed, left, ground (arith, IsInOrder-ended s.stop_closed s.process o.process))

Runs-IsOrderly : (s : Running) (n : ℕ) (t : Running) → Runs s n t → IsOrderly s → IsOrderly t
Runs-IsOrderly s n t begins o = o
Runs-IsOrderly s n t (own m u _ r h) o = RunStep-IsOrderly u t h (Runs-IsOrderly s m u r o)
Runs-IsOrderly s n t (outer m u _ r h) o = Surroundings-IsOrderly u t h (Runs-IsOrderly s m u r o)

at_first-IsOrderly : IsOrderly at_first
unfolding IsOrderly ordered is_started same_routine needs_ready
at_first-IsOrderly = (false, false, ground arith)

-- `Run` has returned, and has shut the queue down.
abbrev pub HasReturned : Running → Type 0
HasReturned s = (s.rest ≡ []) × (s.queue_down ≡ true)

-- The program has come to an end: `Run` and `Start` have returned, the queue is shut down, and nghttpx
-- does not run.
abbrev pub HasEnded : Running → Type 0
HasEnded s = HasReturned s × (s.process.place ≡ returned) × (s.process.alive ≡ false)

-- Once `stopCh` is closed, `Run` has returned, or it or `waitForControllerToSync` can take a step.
returns :
    (s : Running) (passed left : Bool)
    → s.stop_closed ≡ true
    → IsOrderlyWith passed left s
    → (HasReturned s × (is_started nghttpx s.routines ≡ true)) ⊎ ((t : Running) × RunStep s t)
unfolding ordered
returns s passed left stop o = of s.rest refl o.is_ordered
  where
    of :
        (cs : List Command)
        → s.rest ≡ cs
        → ordered s.routines passed left s.queue_down cs ≡ true
        → (HasReturned s × (is_started nghttpx s.routines ≡ true)) ⊎ ((t : Running) × RunStep s t)
    of [] e h = inl (ground arith)
    of (go r ∷ cs) e h = inr (_, launched s r cs e)
    of (await_ready ∷ cs) e h = elim (Bool-cases s.ready) [
      | inl k ↦ inr (_, found_ready s cs e k)
      | inr k ↦ inr (_, closed_ready s (and_parts _ _ h).0 k (inr stop))
    ]
    of (await_stop ∷ cs) e h = inr (_, found_stop s cs e stop)
    of (shut_down_queue ∷ cs) e h = inr (_, shut_down s cs e)

ends :
    (s : Running)
    → s.stop_closed ≡ true
    → IsOrderly s
    → HasEnded s ⊎ ((t : Running) × RunStep s t) ⊎ (HasReturned s × AwaitsExit s.process)
unfolding IsOrderly
ends s stop (passed, left, o) = elim (returns s passed left stop o) [
  | inr step ↦ inr (inl step)
  | inl (back, n) ↦ elim (Start_ends s.process (rw (sym stop) o.process)) [
    | inl gone ↦ inl (back, gone.0, gone.1)
    | inr (inl (q, h)) ↦ inr (inl (_, process_step s q n (rw stop h)))
    | inr (inr waits) ↦ inr (inr (back, waits))
  ]
]

-- However the steps of `Run`, of `Start`, of the informers' syncing, of the call of `Stop` that closes
-- `stopCh` and of the process's end fall, there are at most 23 of them. And once `stopCh` is closed, at
-- every moment the program can take a step, or it has come to an end with `Run` and `Start` returned, the
-- queue shut down and nghttpx not running, or `Run` has returned, the queue is shut down, and all that is
-- missing is the end of the nghttpx process, which has been sent QUIT once.
pub Runs-HasEnded :
    (n : ℕ) (s : Running)
    → Runs at_first n s
    → (n ≤ 23)
      × (s.stop_closed ≡ true
          → HasEnded s ⊎ ((t : Running) × RunStep s t) ⊎ (HasReturned s × AwaitsExit s.process))
Runs-HasEnded n s r = (
  omega (arith, Runs-weight at_first n s r),
  λ stop. ends s stop (Runs-IsOrderly at_first n s r at_first-IsOrderly),
)

-- However the steps fall: the worker and the loop of the status are started only after the informers
-- have synced or `stopCh` was closed; the queue is shut down only after `stopCh` was closed; and QUIT is
-- sent to nghttpx at most once, only after `stopCh` was closed; and when `Start` has returned, nghttpx
-- does not run.
pub Runs-IsInOrder :
    (n : ℕ) (s : Running)
    → Runs at_first n s
    → ((is_started worker s.routines || is_started status s.routines) ≡ true
        → (s.synced ≡ true) ⊎ (s.stop_closed ≡ true))
      × (s.queue_down ≡ true → s.stop_closed ≡ true)
      × (s.process.quits ≤ 1)
      × (0 < s.process.quits → s.stop_closed ≡ true)
      × (s.process.place ≡ returned → s.process.alive ≡ false)
unfolding IsOrderly
Runs-IsInOrder n s r =
    let (passed, left, o) = Runs-IsOrderly at_first n s r at_first-IsOrderly in
    let told = IsInOrder-told s.stop_closed s.process o.process in
    (ground arith, o.down_stopped, told.0, told.1, told.2)
