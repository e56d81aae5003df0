-- ===== src/Controller/Sync/Settled.antt =====
-- The informers, the queue and the worker with the manager of pkg/nghttpx behind the worker.
mod Tests
use mathlib.Core.Option.{some-injective}
use nghttpx_ingress_lb.Common.{
  String, ◌≡◌, ◌∙◌, refl, sym, ap, Bool, true, false, not, Option, none, some, List, [], Result, ok,
  got, bind-eq-ok, ok_injective,
}
use nghttpx_ingress_lb.Nghttpx.Types.{IngressConfig}
use nghttpx_ingress_lb.Nghttpx.Io.{Os}
use nghttpx_ingress_lb.Nghttpx.Files.Laws.{FileLaws}
use nghttpx_ingress_lb.Nghttpx.Reload.{Manager, generate_cfg, check_and_reload}
use nghttpx_ingress_lb.Nghttpx.Setup.{Host, made, new_manager}
use nghttpx_ingress_lb.Controller.Act.{raised, raised-eq-ok}
use nghttpx_ingress_lb.Controller.Env.{LoadBalancerController, Caches}
use nghttpx_ingress_lb.Controller.Upstreams.{Environment, get_upstream_servers}
use nghttpx_ingress_lb.Controller.Queue.{WorkQueue, waits, QueueLaws}
use nghttpx_ingress_lb.Controller.Notifications.{Object, sync_key}
use nghttpx_ingress_lb.Controller.Sync.{read_config, get_config_map, retry_or_forget, sync}
use nghttpx_ingress_lb.Controller.Sync.Heeded.{at, made_config}
use nghttpx_ingress_lb.Controller.Sync.Installed.{
  IsInstalled, IsInstalledBy, IsInstalledBy-IsInstalled, sync_of_new_manager-IsInstalledBy,
}
use nghttpx_ingress_lb.Controller.Sync.Unlost.{
  System, idle, fetched, working, Step, changed, delivered, began, looked, ended, Steps, none_left,
  next, NotLost, IsCurrent, Steps-IsCurrent,
}

-- `world` is what the manager acts on, and `result` what the last synchronisation returned.
pub record Site (Q W : Type 0) : Type 0 where
  pub system : System Q
  pub world : W
  pub result : Option (Result (Unit {0}))

module _ (deep_equal : Object → Object → Bool) (env : Environment) (lbc : LoadBalancerController)
    {Q W : Type 0} (queue : WorkQueue Q) (os : Os W) (ngx : Manager) where
  -- What `sync` does for caches.
  abbrev pub synced : Caches → String → W × Q → Result (Unit {0}) × (W × Q)
  synced cache = sync (at env lbc cache) lbc (check_and_reload os ngx) queue

  -- A step of the informers or of the worker, other than the end of a synchronisation; or that end, when
  -- `sync` has done its work for the caches that it read, and `Done` is called.
  pub data Move : Site Q W → Site Q W → Type 0 where
    moved :
        (s : Site Q W) (t : System Q)
        → Step deep_equal env lbc queue s.system t
        → (s.system.phase ≡ working → t.phase ≡ working)
        → Move s (record s { system = t })
    finished :
        (s : Site Q W) (k : String) (c : Caches)
        → s.system.phase ≡ working
        → s.system.read ≡ some c
        → Move s (record {
          system = record s.system {
            queue_state = queue.done k (synced c k (s.world, s.system.queue_state)).1.1;
            phase = idle;
          };
          world = (synced c k (s.world, s.system.queue_state)).1.0;
          result = some (synced c k (s.world, s.system.queue_state)).0;
        })

  pub data Moves : Site Q W → Site Q W → Type 0 where
    at_rest : (s : Site Q W) → Moves s s
    move : (s t u : Site Q W) → Move s t → Moves t u → Moves s u

  Move-Step : (s t : Site Q W) → Move s t → Step deep_equal env lbc queue s.system t.system
  unfolding sync retry_or_forget
  Move-Step s t (moved _ u h b) = h
  Move-Step s t (finished _ k c b e) = ended s.system k b

  Moves-Steps : (s t : Site Q W) → Moves s t → Steps deep_equal env lbc queue s.system t.system
  Moves-Steps s t (at_rest _) = none_left _
  Moves-Steps s t (move _ u _ h k) = next _ u.system _ (Move-Step s u h) (Moves-Steps u t k)

  -- Where the last synchronisation is over and returned no error, the files are up to its caches.
  abbrev pub IsDone : Site Q W → Type 0
  IsDone s =
      (c : Caches)
      → s.system.phase ≡ idle
      → s.system.read ≡ some c
      → s.result ≡ some (ok tt)
      → IsInstalledBy os ngx (at env lbc c) lbc queue s.world

  -- A step after which the worker is idle, and which is not an end, leaves what was read.
  idle-same :
      (s t : System Q)
      → Step deep_equal env lbc queue s t
      → (s.phase ≡ working → t.phase ≡ working)
      → t.phase ≡ idle
      → (t.read ≡ s.read) × (s.phase ≡ idle)
  idle-same s t (changed _ c i e v a k x y h) keeps rest = (refl, rest)
  idle-same s t (delivered _ i e xs ys u v) keeps rest = (refl, rest)
  idle-same s t (began _ k q p g) keeps rest = let absurd : fetched ≡ idle = rest in cc
  idle-same s t (looked _ p) keeps rest = let absurd : working ≡ idle = rest in cc
  idle-same s t (ended _ k p) keeps rest = let absurd : idle ≡ working = keeps p in cc

  module _ (laws : FileLaws os) (host : Host W) (w0 w1 : W)
      (manager : new_manager host w0 ≡ (made ngx, w1)) where
    Move-IsDone : (s t : Site Q W) → Move s t → IsDone s → IsDone t
    Move-IsDone s t (moved _ u h b) d = λ c idle begun r.
        let (same, was_idle) = idle-same s.system u h b idle in d c was_idle (sym same ∙ begun) r
    Move-IsDone s t (finished _ k c b e) d = λ c' rest seen r.
        let same : c ≡ c' = some-injective _ _ (sym e ∙ seen) in
        let run = synced c k (s.world, s.system.queue_state) in
        rw (← same) (
          sync_of_new_manager-IsInstalledBy os ngx (at env lbc c) lbc queue laws host w0 w1 manager
            k s.world run.1.0 s.system.queue_state run.1.1
            (ap (λ r. (r, run.1)) (some-injective _ _ r)))

    Moves-IsDone : (s t : Site Q W) → Moves s t → IsDone s → IsDone t
    Moves-IsDone s t (at_rest _) d = d
    Moves-IsDone s t (move _ u _ h k) d = Moves-IsDone u t k (Move-IsDone s u h d)

  -- The files depend on the caches by what `made_config` makes of them.
  made_config-IsInstalledBy :
      (c c' : Caches) (w : W)
      → made_config env lbc c ≡ made_config env lbc c'
      → IsInstalledBy os ngx (at env lbc c) lbc queue w
      → IsInstalledBy os ngx (at env lbc c') lbc queue w
  unfolding made_config
  made_config-IsInstalledBy c c' w same (ings, config, cm, main, backend, l, g, m, texts, holds) =
      let h : made_config env lbc c' ≡ ok (read_config config cm) = sym same ∙ simp (l, g, m) in
      let (ings', l', h1) = bind-eq-ok _ (raised c'.ingresses) h in
      let (config', g', h2) = bind-eq-ok _ (get_upstream_servers (at env lbc c') lbc ings') h1 in
      let (cm', m', h3) = bind-eq-ok _ (raised (get_config_map c' lbc.ngx_config_map)) h2 in
      (
        ings',
        config',
        cm',
        main,
        backend,
        raised-eq-ok _ l',
        g',
        raised-eq-ok _ m',
        ap (generate_cfg ngx) (ok_injective h3) ∙ texts,
        holds,
      )

  -- The informers run side by side, and so do the worker and they; the services do not change. When all has
  -- come to rest, and the last synchronisation returned no error, the two configuration files have the
  -- texts that the templates give for the configuration that `getUpstreamServers` makes of the present
  -- caches, with the config map's text. The manager is the one that `NewManager` made, and the operations on
  -- files and the queue are as they are documented; no handler is still to be called, `Get` waits, the
  -- worker is idle and the queue is not shut down. A synchronisation reads the caches in one moment after
  -- `Get`, and a handler in one moment; objects that `reflect.DeepEqual` takes for equal are equal; the
  -- listers are kept as `IsKept` and `IsIndexed` say, and the informers change the caches as `IsChange`
  -- says. The run begins with nothing lost and, if a synchronisation is over, with the files up to its
  -- caches.
  pub Moves-IsInstalled :
      (equal : (a b : Object) → deep_equal a b ≡ true → a ≡ b) (laws : QueueLaws queue)
      → FileLaws os
      → (host : Host W) (w0 w1 : W) → new_manager host w0 ≡ (made ngx, w1)
      → (s t : Site Q W) → Moves s t
      → NotLost deep_equal env lbc queue equal laws s.system
      → IsDone s
      → t.system.undelivered ≡ []
      → queue.get t.system.queue_state ≡ waits
      → t.system.phase ≡ idle
      → laws.is_processed t.system.queue_state sync_key ≡ false
      → laws.is_down t.system.queue_state ≡ false
      → t.result ≡ some (ok tt)
      → IsInstalled os ngx (at env lbc t.system.caches) lbc queue t.world
  Moves-IsInstalled equal laws files host w0 w1 manager s t run lost done u g rest p d r =
      let (c, seen, same) =
        Steps-IsCurrent deep_equal env lbc queue equal laws s.system t.system (Moves-Steps s t run)
          lost u g rest p d in
      IsInstalledBy-IsInstalled os ngx (at env lbc t.system.caches) lbc queue t.world (
        made_config-IsInstalledBy c t.system.caches t.world same
          (Moves-IsDone files host w0 w1 manager s t run done c rest seen r))
