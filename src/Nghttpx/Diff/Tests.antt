-- ===== src/Nghttpx/Diff/Tests.antt =====
-- A run of `needsReload` with its log on a machine in memory.
use nghttpx_ingress_lb.Common.{String, ◌≡◌, refl, true, Option, none, [], ◌∷◌, got}
use nghttpx_ingress_lb.Api.{Bytes}
use nghttpx_ingress_lb.Nghttpx.Files.{read_file, needs_reload}
use nghttpx_ingress_lb.Nghttpx.Fixtures.{
  Machine, machine_os, machine_os-FileLaws, machine_at, config_path, backend_path,
}
use nghttpx_ingress_lb.Nghttpx.Diff.{needs_reload_logged}
use nghttpx_ingress_lb.Nghttpx.Diff.Laws.{needs_reload_logged-needs_reload}

abbrev machine_diff : String → String → Machine → (Bytes × Option String) × Machine
machine_diff f g w = ((45 ∷ [], none), w)

needs_reload_logged-needs_reload_example :
    ((needs_reload_logged machine_os machine_diff true config_path (8 ∷ []) (machine_at true)).0
      ≡ (needs_reload machine_os config_path (8 ∷ []) (machine_at true)).0)
    × (read_file machine_os backend_path
          (needs_reload_logged machine_os machine_diff true config_path
            (8 ∷ [])
            (machine_at true)).1
        ≡ got (9 ∷ []))
needs_reload_logged-needs_reload_example =
    needs_reload_logged-needs_reload machine_os machine_diff machine_os-FileLaws backend_path
      (9 ∷ []) (λ f g w h. h) true config_path (8 ∷ []) (machine_at true) refl
