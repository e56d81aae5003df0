-- ===== src/Controller/Sync/Tests.antt =====
-- The theorems on the handlers and the synchronisation at a small cluster.
use nghttpx_ingress_lb.Common.{
  ◌≡◌, ◌↔◌, refl, Bool, true, Option, none, some, List, [], ◌∷◌, if◌then◌else◌, ok, got,
  got_injective,
}
use nghttpx_ingress_lb.Common.Text.{◌=s◌}
use mathlib.Core.Option.{some-injective}
use nghttpx_ingress_lb.Controller.Env.{Caches}
use nghttpx_ingress_lb.Controller.References.{secret_referenced}
use nghttpx_ingress_lb.Controller.Fixtures.{site_lib, site_cache, site_env, site_lbc, site_secret}
use nghttpx_ingress_lb.Controller.Notifications.{
  secret_object, tombstone, Informer, secrets, nodes, foreign, Event, added, deleted, sync_key,
  notify, enqueue, add_secret_notification,
}
use nghttpx_ingress_lb.Controller.Notifications.Laws.{is_added, is_buried, secret_of, node_of}
use nghttpx_ingress_lb.Controller.Notifications.Meaning.{IsHeeded, notify-IsHeeded}
use nghttpx_ingress_lb.Controller.Fixtures.Listed.{
  site_ingresses, site_namespaces, site_keyed, site_listed, listed_site,
}
use nghttpx_ingress_lb.Controller.Sync.Heeded.{IsKept, IsChange, secret_change, node_change, is_new}
use nghttpx_ingress_lb.Controller.Sync.Stays.{IsIndexed}
use nghttpx_ingress_lb.Controller.Sync.Fixtures.{
  SiteQueue, site_queue, site_queue_laws, never_equal, never_equal_sound, no_items, one_item,
}
use nghttpx_ingress_lb.Controller.Sync.Unlost.{
  System, Phase, idle, fetched, working, Steps, changed, delivered, began, looked, ended, none_left,
  next, NotLost, current, IsCurrent, Steps-IsCurrent,
}

notify-IsHeeded_example :
    (wanted : Bool) × (notify never_equal site_lib site_cache site_lbc site_queue secrets
        (deleted (tombstone (secret_object site_secret)))
        no_items
      ≡ (ok tt, if wanted then site_queue.add "ingress" no_items else no_items))
    × ((wanted ≡ true)
        ↔ IsHeeded never_equal site_lib site_cache site_lbc secrets
            (deleted (tombstone (secret_object site_secret))))
notify-IsHeeded_example =
    notify-IsHeeded never_equal site_lib site_cache site_lbc site_queue secrets
      (deleted (tombstone (secret_object site_secret))) no_items
      (is_buried secrets (secret_object site_secret) (secret_of site_secret))

abbrev event : Event
event = added (secret_object site_secret)

-- The caches before the secret was there.
abbrev no_secrets : Caches
no_secrets = record site_cache { secret = λ key. got none }

abbrev system :
    Caches → Option Caches → List (Informer × Event) → SiteQueue → Phase → System SiteQueue
system caches read undelivered q phase = record {
  caches = caches;
  read = read;
  undelivered = undelivered;
  queue_state = q;
  phase = phase;
}

abbrev first_state : System SiteQueue
first_state = system no_secrets (some no_secrets) [] no_items idle

abbrev last_state : System SiteQueue
last_state = system site_cache (some site_cache) [] no_items idle

no_secrets-IsIndexed : IsIndexed no_secrets
no_secrets-IsIndexed = record {
  all = site_ingresses;
  those = λ ns. if ns =s "shop" then site_ingresses else [];
  lists_all = refl;
  lists = λ ns. refl;
  indexed = λ ns ing. (listed_site ns ing, λ h. site_listed ns ing h.0 h.1);
}

site-IsIndexed : IsIndexed site_cache
site-IsIndexed = record {
  all = site_ingresses;
  those = λ ns. if ns =s "shop" then site_ingresses else [];
  lists_all = refl;
  lists = λ ns. refl;
  indexed = λ ns ing. (listed_site ns ing, λ h. site_listed ns ing h.0 h.1);
}

no_secrets-IsKept : IsKept site_env site_lbc no_secrets
no_secrets-IsKept = record {
  keyed = site_keyed;
  plain = λ ings ing l m. site_namespaces ing (rw (got_injective l) m);
  lists = λ ings ns l p. record {
    those = if ns =s "shop" then site_ingresses else [];
    lists = refl;
    listed = λ ing m. site_listed ns ing (rw (got_injective l) m);
    plain = p;
  };
}

site-IsKept : IsKept site_env site_lbc site_cache
site-IsKept = record {
  keyed = site_keyed;
  plain = λ ings ing l m. site_namespaces ing (rw (got_injective l) m);
  lists = λ ings ns l p. record {
    those = if ns =s "shop" then site_ingresses else [];
    lists = refl;
    listed = λ ing m. site_listed ns ing (rw (got_injective l) m);
    plain = p;
  };
}

secret_added : IsChange site_env site_lbc no_secrets site_cache secrets event
secret_added =
    secret_change event none (some site_secret) "shop" "cert" site_cache.secret (is_new site_secret)
      refl (λ s k. cc) (λ s k. rw (← some-injective _ _ k) (refl, refl)) (λ key n. rw n refl)
      (λ k. cc)

-- The secret comes, and while its handler is to be called, a node changes.
abbrev node_event : Event
node_event = added (foreign "node-2")

steps : Steps never_equal site_env site_lbc site_queue first_state last_state
unfolding notify enqueue add_secret_notification secret_referenced
steps =
    next _ (system site_cache (some no_secrets) ((secrets, event) ∷ []) no_items idle) _
      (changed _ site_cache secrets event (is_added secrets _ (secret_of site_secret)) (λ e. cc)
        no_secrets-IsKept no_secrets-IsIndexed site-IsIndexed secret_added)
      (next _
        (system site_cache (some no_secrets) ((nodes, node_event) ∷ (secrets, event) ∷ []) no_items
          idle)
        _
        (changed _ site_cache nodes node_event (is_added nodes _ (node_of "node-2")) (λ e. cc)
          site-IsKept site-IsIndexed site-IsIndexed (node_change node_event site_cache.node))
        (next _ (system site_cache (some no_secrets) ((nodes, node_event) ∷ []) one_item idle) _
          (delivered _ secrets event ((nodes, node_event) ∷ []) [] refl
            (is_added secrets _ (secret_of site_secret)))
          (next _ (system site_cache (some no_secrets) ((nodes, node_event) ∷ []) no_items fetched)
            _ (began _ sync_key no_items refl refl)
            (next _ (system site_cache (some no_secrets) [] no_items fetched) _
              (delivered _ nodes node_event [] [] refl (is_added nodes _ (node_of "node-2")))
              (next _ (system site_cache (some site_cache) [] no_items working) _ (looked _ refl)
                (next _ last_state _ (ended _ sync_key refl) (none_left _)))))))

first-NotLost :
    NotLost never_equal site_env site_lbc site_queue never_equal_sound site_queue_laws first_state
unfolding site_queue_laws
first-NotLost = current first_state (no_secrets, refl, refl)

Steps-IsCurrent_example : IsCurrent never_equal site_env site_lbc site_queue last_state
unfolding site_queue_laws
Steps-IsCurrent_example =
    Steps-IsCurrent never_equal site_env site_lbc site_queue never_equal_sound site_queue_laws
      first_state last_state steps first-NotLost refl refl refl refl refl
