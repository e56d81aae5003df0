-- ===== src/Controller/Sync/Settled/Tests.antt =====
-- A first synchronisation of a cluster without ingresses, and the rest after it.
use nghttpx_ingress_lb.Common.{◌≡◌, refl, true, Option, none, some, Result, ok, []}
use nghttpx_ingress_lb.Nghttpx.Fixtures.{
  Machine, machine_os, machine_os-FileLaws, machine_manager, machine_at,
}
use nghttpx_ingress_lb.Nghttpx.Reload.{check_and_reload}
use nghttpx_ingress_lb.Controller.Env.{Caches}
use nghttpx_ingress_lb.Controller.Fixtures.{site_lbc}
use nghttpx_ingress_lb.Controller.Notifications.{sync_key}
use nghttpx_ingress_lb.Controller.Sync.{sync}
use nghttpx_ingress_lb.Controller.Sync.Fixtures.{
  SiteQueue, site_queue, site_queue_laws, never_equal, never_equal_sound, no_items, one_item,
  empty_env, final, sync_runs, machine_host, manager_made,
}
use nghttpx_ingress_lb.Controller.Sync.Installed.{IsInstalled}
use nghttpx_ingress_lb.Controller.Sync.Unlost.{
  System, Phase, idle, fetched, working, began, looked, NotLost, to_sync,
}
use nghttpx_ingress_lb.Controller.Sync.Settled.{
  Site, Move, Moves, moved, finished, at_rest, move, IsDone, Moves-IsInstalled,
}

abbrev system : Option Caches → SiteQueue → Phase → System SiteQueue
system read q phase = record {
  caches = empty_env.cache;
  read = read;
  undelivered = [];
  queue_state = q;
  phase = phase;
}

abbrev first_site : Site SiteQueue Machine
first_site = record { system = system none one_item idle; world = machine_at true; result = none }

abbrev last_site : Site SiteQueue Machine
last_site = record {
  system = system (some empty_env.cache) no_items idle;
  world = final;
  result = some (ok tt);
}

abbrev busy_site : Site SiteQueue Machine
busy_site = record first_site { system = system (some empty_env.cache) no_items working }

site_finished :
    (run : Result (Unit {0}) × (Machine × SiteQueue))
    → sync empty_env site_lbc
        (check_and_reload machine_os machine_manager)
        site_queue
        sync_key
        (machine_at true, no_items)
      ≡ run
    → Move never_equal empty_env site_lbc site_queue machine_os machine_manager busy_site (record {
      system = system (some empty_env.cache) run.1.1 idle;
      world = run.1.0;
      result = some run.0;
    })
site_finished run same = rw (← same) (finished busy_site sync_key empty_env.cache refl refl)

abbrev fetched_site : Site SiteQueue Machine
fetched_site = record first_site { system = system none no_items fetched }

site_moves :
    Moves never_equal empty_env site_lbc site_queue machine_os machine_manager first_site last_site
site_moves =
    move _ fetched_site _
      (moved first_site fetched_site.system (began first_site.system sync_key no_items refl refl)
        (λ b. let absurd : idle ≡ working = b in cc))
      (move _ busy_site _
        (moved fetched_site busy_site.system (looked fetched_site.system refl) (λ b. refl))
        (move _ last_site _
          (site_finished (ok tt, (final, no_items)) (sync_runs site_queue no_items))
          (at_rest last_site)))

first-NotLost :
    NotLost never_equal empty_env site_lbc site_queue never_equal_sound site_queue_laws
      first_site.system
unfolding site_queue_laws
first-NotLost = to_sync first_site.system refl

first-IsDone :
    IsDone never_equal empty_env site_lbc site_queue machine_os machine_manager first_site
first-IsDone c rest seen r = cc

Moves-IsInstalled_example :
    IsInstalled machine_os machine_manager empty_env site_lbc site_queue final
unfolding site_queue_laws
Moves-IsInstalled_example =
    Moves-IsInstalled never_equal empty_env site_lbc site_queue machine_os machine_manager
      never_equal_sound site_queue_laws machine_os-FileLaws machine_host (machine_at true)
      (machine_at true) manager_made first_site last_site site_moves first-NotLost first-IsDone refl
      refl refl refl refl refl
