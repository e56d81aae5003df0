-- ===== src/Controller/Sync.antt =====
-- The synchronisation of controller.go: `sync`, `getConfigMap`, `retryOrForget` and `worker`, and
-- `ReadConfig` of pkg/nghttpx/utils.go. The rate limiter only makes `sync` wait.
pub mod Laws
pub mod Unlost
pub mod Heeded
pub mod Stays
pub mod Settled
pub mod Installed
pub mod Fixtures
mod Tests
use nghttpx_ingress_lb.Common.{
  String, Bool, true, false, Option, none, some, List, [], Result, ok, err, panic, Try, failed, got,
  if◌then◌else◌,
}
use nghttpx_ingress_lb.Common.Text.{◌=s◌}
use nghttpx_ingress_lb.Api.{ConfigMap}
use nghttpx_ingress_lb.Nghttpx.Types.{IngressConfig}
use nghttpx_ingress_lb.Nghttpx.Io.{Io}
use nghttpx_ingress_lb.Controller.Act.{Act, ◌>>=◌, and_then, raised, lift, call, done}
use nghttpx_ingress_lb.Controller.Env.{LoadBalancerController, Caches, lookup_or}
use nghttpx_ingress_lb.Controller.Upstreams.{Environment, get_upstream_servers}
use nghttpx_ingress_lb.Controller.Queue.{WorkQueue, Gotten, waits, gives}

abbrev pub nghttpx_extra_config_key : String
nghttpx_extra_config_key = "nghttpx-conf"

unfoldable pub read_config : IngressConfig → ConfigMap → IngressConfig
read_config config cm = record config {
  extra_config = lookup_or "" nghttpx_extra_config_key cm.contents;
}

-- `&api.ConfigMap{}`
abbrev pub empty_config_map : ConfigMap
empty_config_map = record { namespace = ""; name = ""; contents = [] }

abbrev or_empty : Option ConfigMap → ConfigMap
or_empty none = empty_config_map
or_empty (some cm) = cm

found_config_map : Try (Option ConfigMap) → Try ConfigMap
found_config_map (failed e) = failed e
found_config_map (got found) = got (or_empty found)

unfoldable pub get_config_map : Caches → String → Try ConfigMap
unfolding found_config_map
get_config_map cache cm_key =
    if cm_key =s "" then got empty_config_map else found_config_map (cache.config_map cm_key)

-- `check_and_reload` is the method of `nghttpx.Interface`.
module _ (env : Environment) (lbc : LoadBalancerController) {W Q : Type 0}
    (check_and_reload : IngressConfig → Io W Bool) (queue : WorkQueue Q) where
  -- The body of `sync`.
  unfoldable pub synchronise : Act W (Unit {0})
  synchronise = do
    ings ← lift (raised env.cache.ingresses)
    config ← lift (get_upstream_servers env lbc ings)
    cm ← lift (raised (get_config_map env.cache lbc.ngx_config_map))
    reloaded ← call (check_and_reload (read_config config cm))
    done tt

  unfoldable pub retry_or_forget : String → Bool → Q → Q
  retry_or_forget key requeue q = if requeue then queue.add key q else q

  -- The deferred call is made whatever came of the body. `retry` is false, and nothing sets it.
  unfoldable pub sync : String → Act (W × Q) (Unit {0})
  sync key (w, q) = let (r, w') = synchronise w in (r, (w', retry_or_forget key false q))

  -- What one round of `worker` does: it waits in `Get`, it finds the queue shut down, or it synchronises.
  pub data Round : Type 0 where
    waiting : Round
    quit : W × Q → Round
    worked : Result (Unit {0}) → W × Q → Round

  finished : String → Result (Unit {0}) × (W × Q) → Round
  finished key (r, (w, q)) = worked r (w, queue.done key q)

  taken : W → Gotten Q → Round
  unfolding finished
  taken w waits = waiting
  taken w (gives key true q) = quit (w, q)
  taken w (gives key false q) = finished key (sync key (w, q))

  unfoldable pub worker_round : W × Q → Round
  unfolding taken
  worker_round (w, q) = taken w (queue.get q)
