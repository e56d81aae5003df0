-- ===== src/Controller/Sync/Installed/Tests.antt =====
-- A synchronisation of a small cluster on a machine in memory.
use nghttpx_ingress_lb.Common.{true}
use nghttpx_ingress_lb.Nghttpx.Fixtures.{
  machine_os, machine_os-FileLaws, machine_manager, machine_at,
}
use nghttpx_ingress_lb.Controller.Fixtures.{site_lbc}
use nghttpx_ingress_lb.Controller.Queue.{WorkQueue, waits}
use nghttpx_ingress_lb.Controller.Notifications.{sync_key}
use nghttpx_ingress_lb.Controller.Sync.Fixtures.{
  empty_env, final, sync_runs, machine_host, manager_made,
}
use nghttpx_ingress_lb.Controller.Sync.Installed.{IsInstalled, sync_of_new_manager-IsInstalled}

-- A queue that takes nothing.
abbrev no_queue : WorkQueue (Unit {0})
no_queue = record { add = λ k q. q; get = λ q. waits; done = λ k q. q; shut_down = λ q. q }

sync_of_new_manager-IsInstalled_example :
    IsInstalled machine_os machine_manager empty_env site_lbc no_queue final
sync_of_new_manager-IsInstalled_example =
    sync_of_new_manager-IsInstalled machine_os machine_manager empty_env site_lbc no_queue
      machine_os-FileLaws machine_host (machine_at true) (machine_at true) manager_made sync_key
      (machine_at true) final tt tt (sync_runs no_queue tt)
