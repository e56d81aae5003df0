-- ===== src/Controller/Sync/Installed.antt =====
-- The synchronisation with the manager of pkg/nghttpx behind it.
mod Tests
use nghttpx_ingress_lb.Common.{
  refl, ◌≡◌, ◌≢◌, ◌∙◌, sym, ap, String, Bool, List, Option, none, some, ◌⊎◌, inl, inr, Bool-cases,
  Result, ok, Try, failed, got, got_injective, if◌then◌else◌,
}
use nghttpx_ingress_lb.Api.{Bytes, ConfigMap, Ingress}
use nghttpx_ingress_lb.Nghttpx.Types.{IngressConfig}
use nghttpx_ingress_lb.Nghttpx.Io.{Os, wrap}
use nghttpx_ingress_lb.Nghttpx.Io.Laws.{after-eq-got, wrapped-eq-got}
use nghttpx_ingress_lb.Nghttpx.Files.Laws.{FileLaws}
use nghttpx_ingress_lb.Nghttpx.Reload.{
  Manager, Change, generate_cfg, check_and_write_cfg, check_and_reload,
}
use nghttpx_ingress_lb.Common.Text.{◌=s◌, eq_iff, ne_of_test}
use nghttpx_ingress_lb.Nghttpx.Setup.{Host, made, new_manager}
use nghttpx_ingress_lb.Nghttpx.Setup.Laws.{new_manager-eq-made_iff}
use nghttpx_ingress_lb.Controller.Upstreams.Untouched.{get_upstream_servers-Untouched}
use nghttpx_ingress_lb.Nghttpx.Reload.Laws.{Holds}
use nghttpx_ingress_lb.Nghttpx.Reload.Retry.{Untouched, check_and_reload-Holds}
use nghttpx_ingress_lb.Controller.Env.{LoadBalancerController, lookup, lookup_or}
use nghttpx_ingress_lb.Controller.Upstreams.{Environment, get_upstream_servers}
use nghttpx_ingress_lb.Controller.Queue.{WorkQueue}
use nghttpx_ingress_lb.Controller.Sync.{
  nghttpx_extra_config_key, empty_config_map, found_config_map, read_config, get_config_map, sync,
}
use nghttpx_ingress_lb.Controller.Annotation.Laws.{value_or, lookup_or-lookup}
use nghttpx_ingress_lb.Controller.Sync.Laws.{sync-eq-ok_iff}

module _ {W : Type 0} (os : Os W) (ngx : Manager) where
  check_and_reload-wrote :
      (config : IngressConfig) (b : Bool) (w w' : W)
      → check_and_reload os ngx config w ≡ (got b, w')
      → (main : Bytes) × (backend : Bytes) × (change : Change) × (w0 : W) × (generate_cfg ngx config
          ≡ got (main, backend))
        × (check_and_write_cfg os ngx main backend w ≡ (got change, w0))
  unfolding check_and_reload
  check_and_reload-wrote config b w w' h =
      let ((main, backend), w1, e1, h1) = after-eq-got (generate_cfg ngx config, w) _ h in
      let (change, w0, e2, h2) =
        after-eq-got (wrap _ (check_and_write_cfg os ngx main backend) w1) _ h1 in
      let back : w1 ≡ w = sym (ap (λ r. r.1) e1) in
      (
        main,
        backend,
        change,
        w0,
        ap (λ r. r.0) e1,
        ap (check_and_write_cfg os ngx main backend) (sym back)
            ∙ wrapped-eq-got _ (check_and_write_cfg os ngx main backend w1) e2,
      )

  module _ (env : Environment) (lbc : LoadBalancerController) {Q : Type 0}
      (queue : WorkQueue Q) where
    -- The files have the texts that are generated from the configuration that is made of the caches.
    abbrev pub IsInstalledBy : W → Type 0
    IsInstalledBy w =
        (ings : List Ingress) × (config : IngressConfig) × (cm : ConfigMap) × (main : Bytes)
        × (backend : Bytes) × (env.cache.ingresses ≡ got ings)
        × (get_upstream_servers env lbc ings ≡ ok config)
        × (get_config_map env.cache lbc.ngx_config_map ≡ got cm)
        × (generate_cfg ngx (read_config config cm) ≡ got (main, backend))
        × Holds os ngx main backend w

    -- By the documented behaviour of the file operations, if `sync` returns no error, then the two
    -- configuration files have the texts that the templates give for the configuration that
    -- getUpstreamServers makes of the ingresses of the cache, with the config map's text; provided that
    -- the two files are not one, and neither is a file of the configuration's credentials.
    sync-IsInstalledBy :
        FileLaws os
        → ngx.backend_config_file ≢ ngx.config_file
        → ((ings : List Ingress) (config : IngressConfig)
            → env.cache.ingresses ≡ got ings
            → get_upstream_servers env lbc ings ≡ ok config
            → Untouched ngx.config_file config × Untouched ngx.backend_config_file config)
        → (key : String) (w w' : W) (q q' : Q)
        → sync env lbc (check_and_reload os ngx) queue key (w, q) ≡ (ok tt, (w', q'))
        → IsInstalledBy w'
    unfolding read_config
    sync-IsInstalledBy laws apart creds key w w' q q' h =
        let ((ings, config, cm, b, i, k, c, r), _) =
          (sync-eq-ok_iff env lbc (check_and_reload os ngx) queue key w w' q q').0 h in
        let (main, backend, change, w0, g, wrote) =
          check_and_reload-wrote (read_config config cm) b w w' r in
        let (main_apart, backend_apart) = creds ings config i k in
        let holds =
          check_and_reload-Holds os ngx (read_config config cm) laws apart main_apart backend_apart
            main backend w w0 change g wrote in
        (ings, config, cm, main, backend, i, k, c, g, rw (ap (λ p. p.1) r) at holds)

    -- `sync` with the manager that `NewManager` made installs what it makes of the caches.
    pub sync_of_new_manager-IsInstalledBy :
        FileLaws os
        → (host : Host W) (w0 w1 : W) → new_manager host w0 ≡ (made ngx, w1)
        → (key : String) (w w' : W) (q q' : Q)
        → sync env lbc (check_and_reload os ngx) queue key (w, q) ≡ (ok tt, (w', q'))
        → IsInstalledBy w'
    sync_of_new_manager-IsInstalledBy laws host w0 w1 m key w w' q q' h =
        let (_, _, manager) = (new_manager-eq-made_iff host w0 w1 ngx).0 m in
        let apart : ngx.backend_config_file ≢ ngx.config_file =
          rw (manager.main_file, manager.backend_file) (ne_of_test _ _ refl) in
        sync-IsInstalledBy laws apart
          (λ ings config i k. (
            get_upstream_servers-Untouched env lbc ings config ngx.config_file
                (rw (manager.main_file) refl) k,
            get_upstream_servers-Untouched env lbc ings config ngx.backend_config_file
                (rw (manager.backend_file) refl) k,
          ))
          key w w' q q' h

    -- The text under the key "nghttpx-conf" of the controller's config map; it is empty where the controller
    -- has no config map, the config map is missing, or it has no such key.
    abbrev pub IsExtraText : String → Type 0
    IsExtraText text =
        ((lbc.ngx_config_map ≡ "") × (text ≡ ""))
        ⊎ ((lbc.ngx_config_map ≢ "")
            × (((env.cache.config_map lbc.ngx_config_map ≡ got none) × (text ≡ ""))
                ⊎ ((cm : ConfigMap) × (env.cache.config_map lbc.ngx_config_map ≡ got (some cm))
                    × ((lookup "nghttpx-conf" cm.contents ≡ some text)
                        ⊎ ((lookup "nghttpx-conf" cm.contents ≡ none) × (text ≡ ""))))))

    looked_up :
        (o : Option String) → (o ≡ some (value_or "" o)) ⊎ ((o ≡ none) × (value_or "" o ≡ ""))
    looked_up none = inr (refl, refl)
    looked_up (some t) = inl refl

    get_config_map-IsExtraText :
        (config : IngressConfig) (cm : ConfigMap)
        → get_config_map env.cache lbc.ngx_config_map ≡ got cm
        → IsExtraText (read_config config cm).extra_config
    unfolding get_config_map read_config
    get_config_map-IsExtraText config cm h = elim (Bool-cases (lbc.ngx_config_map =s "")) [
      | inl e ↦
          let same : empty_config_map ≡ cm = got_injective (rw e at h) in
          inl ((eq_iff lbc.ngx_config_map "").0 e, rw (← same) refl)
      | inr e ↦ inr (
        ne_of_test lbc.ngx_config_map "" e,
        of (env.cache.config_map lbc.ngx_config_map) refl (rw e at h),
      )
    ]
      where
        of :
            (t : Try (Option ConfigMap))
            → env.cache.config_map lbc.ngx_config_map ≡ t
            → found_config_map t ≡ got cm
            → ((env.cache.config_map lbc.ngx_config_map ≡ got none)
                × (lookup_or "" nghttpx_extra_config_key cm.contents ≡ ""))
              ⊎ ((cm' : ConfigMap) × (env.cache.config_map lbc.ngx_config_map ≡ got (some cm'))
                  × ((lookup "nghttpx-conf" cm'.contents
                        ≡ some (lookup_or "" nghttpx_extra_config_key cm.contents))
                      ⊎ ((lookup "nghttpx-conf" cm'.contents ≡ none)
                          × (lookup_or "" nghttpx_extra_config_key cm.contents ≡ ""))))
        of (failed m) e k = cc
        of (got none) e k = inl (e, rw (← got_injective k) refl)
        of (got (some found)) e k = inr (
          found,
          e,
          rw (← got_injective k, lookup_or-lookup "" nghttpx_extra_config_key found.contents)
              (looked_up (lookup "nghttpx-conf" found.contents)),
        )

    -- The two configuration files have the texts that the templates give for the configuration that is made of
    -- the ingresses of the cache, with the config map's text.
    abbrev pub IsInstalled : W → Type 0
    IsInstalled w =
        (ings : List Ingress) × (config : IngressConfig) × (text : String) × (main : Bytes)
        × (backend : Bytes) × (env.cache.ingresses ≡ got ings)
        × (get_upstream_servers env lbc ings ≡ ok config)
        × IsExtraText text
        × (generate_cfg ngx (record config { extra_config = text }) ≡ got (main, backend))
        × Holds os ngx main backend w

    pub IsInstalledBy-IsInstalled : (w : W) → IsInstalledBy w → IsInstalled w
    unfolding read_config
    IsInstalledBy-IsInstalled w (ings, config, cm, main, backend, l, g, m, texts, holds) = (
      ings,
      config,
      (read_config config cm).extra_config,
      main,
      backend,
      l,
      g,
      get_config_map-IsExtraText config cm m,
      texts,
      holds,
    )

    -- By the documented behaviour of the file operations, if `sync` with the manager that `NewManager`
    -- made returns no error, then the two configuration files have the texts that the templates give for
    -- the configuration that getUpstreamServers makes of the ingresses of the cache, with the config
    -- map's text.
    pub sync_of_new_manager-IsInstalled :
        FileLaws os
        → (host : Host W) (w0 w1 : W) → new_manager host w0 ≡ (made ngx, w1)
        → (key : String) (w w' : W) (q q' : Q)
        → sync env lbc (check_and_reload os ngx) queue key (w, q) ≡ (ok tt, (w', q'))
        → IsInstalled w'
    sync_of_new_manager-IsInstalled laws host w0 w1 m key w w' q q' h =
        IsInstalledBy-IsInstalled w'
          (sync_of_new_manager-IsInstalledBy laws host w0 w1 m key w w' q q' h)
