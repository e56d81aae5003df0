-- ===== src/Controller/Sync/Fixtures.antt =====
-- A queue in memory, and a synchronisation of a cluster without ingresses on a machine in memory.
use nghttpx_ingress_lb.Common.{
  String, ◌≡◌, inl, inr, refl, Bool, true, false, some, List, [], ◌∷◌, any, if◌then◌else◌, ok, got,
  Bool-cases,
}
use nghttpx_ingress_lb.Common.Text.{◌=s◌, eq_refl}
use nghttpx_ingress_lb.Nghttpx.Types.{IngressConfig, new_ingress_config, new_default_server}
use nghttpx_ingress_lb.Controller.Fixtures.{
  site_cache, site_env, site_lbc, site_cred, site_config_map,
}
use nghttpx_ingress_lb.Controller.Queue.{WorkQueue, Gotten, waits, gives, QueueLaws}
use nghttpx_ingress_lb.Controller.Notifications.{Object, sync_key}
use nghttpx_ingress_lb.Controller.Sync.{sync, read_config, get_config_map}
use nghttpx_ingress_lb.Controller.Sync.Laws.{sync-eq-ok_iff}
use nghttpx_ingress_lb.Common.Arrays.{for_range}
use nghttpx_ingress_lb.Common.Int.{itoa}
use nghttpx_ingress_lb.Common.Sorting.{insertion_sorter}
use nghttpx_ingress_lb.Nghttpx.Pems.{remove_duplicate_pems}
use nghttpx_ingress_lb.Nghttpx.Tls.{
  create_tls_cred, common_names, check_private_key, tls_cred_prefix, create_tls_key_path,
  create_tls_cert_path,
}
use nghttpx_ingress_lb.Nghttpx.Files.{needs_reload, write_file}
use nghttpx_ingress_lb.Nghttpx.Fixtures.{Machine, machine_os, machine_manager, machine_at}
use nghttpx_ingress_lb.Nghttpx.Reload.{
  check_and_reload, check_and_write_cfg, change_of, generate_cfg, apply_change,
  get_nghttpx_config_revision, write_tls_key_cert, wait_until_config_revision_changes,
}
use nghttpx_ingress_lb.Controller.Credentials.{
  get_tls_cred_from_secret, create_tls_cred_from_secret,
}
use nghttpx_ingress_lb.Controller.Upstreams.{Environment, get_upstream_servers}
use nghttpx_ingress_lb.Controller.Upstreams.Paths.{get_default_upstream}
use nghttpx_ingress_lb.Controller.Upstreams.Creds.{arrange_creds}
use nghttpx_ingress_lb.Controller.Upstreams.Unique.{unique_backends}
use nghttpx_ingress_lb.Nghttpx.Setup.{Host, made, new_manager, create_certs_dir, load_template}

pub record SiteQueue : Type 0 where
  pub items : List String
  pub closed : Bool

abbrev first_of : List String → Bool → Gotten SiteQueue
first_of [] true = gives "" true (record { items = []; closed = true })
first_of [] false = waits
first_of (x ∷ xs) closed = gives x false (record { items = xs; closed = closed })

abbrev pub site_queue : WorkQueue SiteQueue
site_queue = record {
  add = λ k q. if q.closed then q else record q { items = k ∷ q.items };
  get = λ q. first_of q.items q.closed;
  done = λ k q. q;
  shut_down = λ q. record q { closed = true };
}

abbrev is_item : SiteQueue → String → Bool
is_item q k = any (λ x. x =s k) q.items

unfoldable pub site_queue_laws : QueueLaws site_queue
site_queue_laws = record {
  is_added = is_item;
  is_processed = λ q k. false;
  is_down = λ q. q.closed;
  add-is_added = λ k q d. rw (d, eq_refl k) refl;
  add-keeps = λ k q j h. keeps q.closed k q j h;
  done-keeps = λ k q j. refl;
  get-waits = λ q j h p. empty q.items q.closed j h;
  add-is_down = λ k q. elim (Bool-cases q.closed) [ inl d ↦ rw d refl | inr d ↦ rw d refl ];
  done-is_down = λ k q. refl;
}
  where
    keeps :
        (b : Bool) (k : String) (q : SiteQueue) (j : String)
        → is_item q j ≡ true
        → is_item (if b then q else record q { items = k ∷ q.items }) j ≡ true
    keeps true k q j h = h
    keeps false k q j h = elim (Bool-cases (k =s j)) [ inl e ↦ rw e refl | inr e ↦ rw e h ]

    empty :
        (l : List String) (b : Bool) (j : String)
        → first_of l b ≡ waits
        → any (λ x. x =s j) l ≡ false
    empty [] b j h = refl
    empty (x ∷ xs) b j h = cc

abbrev pub never_equal : Object → Object → Bool
never_equal old cur = false

abbrev pub no_items : SiteQueue
no_items = record { items = []; closed = false }

abbrev pub one_item : SiteQueue
one_item = record { items = sync_key ∷ []; closed = false }

pub never_equal_sound : (a b : Object) → never_equal a b ≡ true → a ≡ b
never_equal_sound a b h = cc

abbrev pub empty_env : Environment
empty_env = record site_env { cache = record site_cache { ingresses = got [] } }

abbrev empty_config : IngressConfig
empty_config = record {
  upstreams =
      record {
        name = "shop/fallback";
        host = "";
        path = "";
        backends = new_default_server ∷ [];
        redirect_if_not_tls = true;
      }
      ∷ [];
  tls = true;
  default_tls_cred = some site_cred;
  sub_tls_cred = [];
  workers = "4";
  extra_config = "";
}

empty_run : get_upstream_servers empty_env site_lbc [] ≡ ok empty_config
unfolding get_upstream_servers get_tls_cred_from_secret create_tls_cred_from_secret common_names
    check_private_key create_tls_cred create_tls_key_path create_tls_cert_path tls_cred_prefix
    get_default_upstream unique_backends arrange_creds remove_duplicate_pems for_range itoa
    insertion_sorter new_default_server new_ingress_config
empty_run = refl

abbrev pub final : Machine
final =
    (check_and_reload machine_os machine_manager (read_config empty_config site_config_map)
      (machine_at true)).1

reload_runs :
    check_and_reload machine_os machine_manager
      (read_config empty_config site_config_map)
      (machine_at true)
    ≡ (got true, final)
unfolding check_and_reload check_and_write_cfg needs_reload write_file change_of generate_cfg
    apply_change get_nghttpx_config_revision write_tls_key_cert wait_until_config_revision_changes
    itoa read_config
reload_runs = refl

pub sync_runs :
    {Q : Type 0} (queue : WorkQueue Q) (q : Q)
    → sync empty_env site_lbc
        (check_and_reload machine_os machine_manager)
        queue
        sync_key
        (machine_at true, q)
      ≡ (ok tt, (final, q))
unfolding get_config_map
sync_runs queue q =
    (sync-eq-ok_iff empty_env site_lbc (check_and_reload machine_os machine_manager) queue sync_key
        (machine_at true) final q q).1
      (([], empty_config, site_config_map, true, refl, empty_run, refl, reload_runs), refl)

-- The directory of the credentials is there already.
abbrev pub machine_host : Host Machine
machine_host = record {
  mkdir = λ base w. (some (record { is_exist = true; message = "file exists" }), w);
  parse_files = λ name w.
      if name =s "./nghttpx.tmpl"
      then got machine_manager.template
      else got machine_manager.backend_template;
}

pub manager_made :
    new_manager machine_host (machine_at true) ≡ (made machine_manager, machine_at true)
unfolding new_manager create_certs_dir load_template
manager_made = refl
