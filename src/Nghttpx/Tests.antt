-- ===== src/Nghttpx/Tests.antt =====
-- Runs of the code of pkg/nghttpx, and the theorems on it at concrete data.
use nghttpx_ingress_lb.Common.{◌≡◌, ◌↔◌, refl, true, false, List, [], ◌∷◌, got, All, ok}
use nghttpx_ingress_lb.Common.Arrays.{for_range}
use nghttpx_ingress_lb.Common.Int.{itoa}
use nghttpx_ingress_lb.Common.Text.{ne_of_test}
use nghttpx_ingress_lb.Common.Sorting.Adjacent.{dedup}
use nghttpx_ingress_lb.Api.{Bytes}
use nghttpx_ingress_lb.Nghttpx.Types.{PortBackendConfig, TlsCred, fixup_port_backend_config}
use nghttpx_ingress_lb.Nghttpx.Types.Laws.{IsUsable, fixup_port_backend_config_lem}
use nghttpx_ingress_lb.Nghttpx.Pems.{same_key_path, remove_duplicate_pems}
use nghttpx_ingress_lb.Nghttpx.Pems.Laws.{remove_duplicate_pems-dedup}
use nghttpx_ingress_lb.Nghttpx.Files.{needs_reload, write_file}
use nghttpx_ingress_lb.Nghttpx.Files.Laws.{Wrote, write_file-Wrote}
use nghttpx_ingress_lb.Nghttpx.Fixtures.{
  Machine, machine_os, machine_os-FileLaws, machine_os-PollLaw, machine_manager, machine_at,
  machine_config, cred_of, config_path,
}
use nghttpx_ingress_lb.Nghttpx.Reload.{
  Change, main_config_changed, change_of, check_and_write_cfg, check_and_reload, generate_cfg,
  apply_change, write_tls_key_cert, get_nghttpx_config_revision, wait_until_config_revision_changes,
}
use nghttpx_ingress_lb.Nghttpx.Reload.Laws.{Installed, check_and_write_cfg-Installed}
use nghttpx_ingress_lb.Nghttpx.Reload.Stored.{IsStored, write_tls_key_cert-IsStored}
use nghttpx_ingress_lb.Nghttpx.Reload.Reloaded.{Done, check_and_reload-Done}
use nghttpx_ingress_lb.Nghttpx.Reload.Retry.{check_and_reload-check_and_reload}

abbrev odd_config : PortBackendConfig
odd_config = record { proto = "spdy"; tls = true; sni = "a.example"; dns = false; affinity = "" }

fixup_port_backend_config_lem_example :
    let d = fixup_port_backend_config odd_config in
    IsUsable d
    × (d.tls ≡ true)
    × (d.sni ≡ "a.example")
    × (d.dns ≡ false)
    × ((d ≡ odd_config) ↔ IsUsable odd_config)
fixup_port_backend_config_lem_example = fixup_port_backend_config_lem odd_config

abbrev some_pems : List TlsCred
some_pems = cred_of "a" ∷ cred_of "a" ∷ cred_of "b" ∷ cred_of "b" ∷ cred_of "c" ∷ []

remove_duplicate_pems-dedup_example :
    remove_duplicate_pems some_pems ≡ ok (dedup same_key_path some_pems)
remove_duplicate_pems-dedup_example = remove_duplicate_pems-dedup some_pems

some_pems_run : remove_duplicate_pems some_pems ≡ ok (cred_of "a" ∷ cred_of "b" ∷ cred_of "c" ∷ [])
unfolding remove_duplicate_pems for_range
some_pems_run = refl

write_file-Wrote_example :
    Wrote machine_os machine_os-FileLaws config_path
      (5 ∷ [])
      (machine_at true)
      (write_file machine_os config_path (5 ∷ []) (machine_at true))
write_file-Wrote_example =
    write_file-Wrote machine_os machine_os-FileLaws config_path (5 ∷ []) (machine_at true)

-- The state after `checkAndWriteCfg`.
abbrev written_machine : Machine
written_machine =
    (check_and_write_cfg machine_os machine_manager (1 ∷ []) (7 ∷ []) (machine_at false)).1

check_writes :
    check_and_write_cfg machine_os machine_manager (1 ∷ []) (7 ∷ []) (machine_at false)
    ≡ (got main_config_changed, written_machine)
unfolding check_and_write_cfg needs_reload write_file change_of
check_writes = refl

check_and_write_cfg-Installed_example :
    Installed machine_os machine_manager machine_os-FileLaws
      (1 ∷ [])
      (7 ∷ [])
      (machine_at false)
      main_config_changed
      written_machine
check_and_write_cfg-Installed_example =
    check_and_write_cfg-Installed machine_os machine_manager machine_os-FileLaws (1 ∷ []) (7 ∷ [])
      (machine_at false) written_machine main_config_changed (ne_of_test _ _ refl) check_writes

-- nghttpx does not take the signal; the second call does not try again.
check_and_reload-check_and_reload_example :
    let w1 = (check_and_reload machine_os machine_manager machine_config (machine_at false)).1 in
    check_and_reload machine_os machine_manager machine_config w1 ≡ (got false, w1)
unfolding generate_cfg
check_and_reload-check_and_reload_example =
    check_and_reload-check_and_reload machine_os machine_manager machine_config machine_os-FileLaws
      (ne_of_test _ _ refl)
      ((ne_of_test _ _ refl, ne_of_test _ _ refl), ((ne_of_test _ _ refl, ne_of_test _ _ refl), tt))
      ((ne_of_test _ _ refl, ne_of_test _ _ refl), ((ne_of_test _ _ refl, ne_of_test _ _ refl), tt))
      (1 ∷ []) (7 ∷ []) (machine_at false) written_machine main_config_changed refl check_writes

-- The state after a reload.
abbrev reloaded_machine : Machine
reloaded_machine = (check_and_reload machine_os machine_manager machine_config (machine_at true)).1

reload_runs :
    check_and_reload machine_os machine_manager machine_config (machine_at true)
    ≡ (got true, reloaded_machine)
unfolding check_and_reload check_and_write_cfg needs_reload write_file change_of generate_cfg
    apply_change get_nghttpx_config_revision write_tls_key_cert wait_until_config_revision_changes
    itoa
reload_runs = refl

check_and_reload-Done_example :
    (main : Bytes) × (backend : Bytes) × (change : Change) × (w0 : Machine) × (generate_cfg
        machine_manager machine_config
      ≡ got (main, backend))
    × (check_and_write_cfg machine_os machine_manager main backend (machine_at true)
        ≡ (got change, w0))
    × Done machine_os machine_manager machine_config w0 change true reloaded_machine
check_and_reload-Done_example =
    check_and_reload-Done machine_os machine_os-PollLaw machine_manager machine_config true
      (machine_at true) reloaded_machine reload_runs

abbrev stored_machine : Machine
stored_machine = (write_tls_key_cert machine_os machine_config (machine_at true)).1

stored_runs :
    write_tls_key_cert machine_os machine_config (machine_at true) ≡ (got tt, stored_machine)
unfolding write_tls_key_cert write_file
stored_runs = refl

write_tls_key_cert-IsStored_example :
    All (IsStored machine_os stored_machine) (cred_of "a" ∷ cred_of "b" ∷ [])
write_tls_key_cert-IsStored_example =
    write_tls_key_cert-IsStored machine_os machine_os-FileLaws machine_config (machine_at true)
      stored_machine
      (
        ne_of_test _ _ refl,
        ((ne_of_test _ _ refl, ne_of_test _ _ refl), tt),
        ((ne_of_test _ _ refl, ne_of_test _ _ refl), tt),
        (ne_of_test _ _ refl, tt, tt, tt),
      )
      stored_runs
