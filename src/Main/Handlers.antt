-- ===== src/Main/Handlers.antt =====
-- `registerHandlers` of pkg/cmd/main.go: which addresses its server serves. The multiplexers of net/http,
-- and `healthz.InstallHandler` of the Kubernetes libraries, are a parameter.
use nghttpx_ingress_lb.Common.{
  String, ◌≡◌, ◌≢◌, ◌∙◌, sym, ◌⊎◌, inl, inr, Bool, Bool-cases, Option, none, some, if◌then◌else◌,
}

-- The handlers: the health checks, those of `/build` and `/stop`, and the profiler's.
pub data Handler : Type 0 where
  health_checks build stop pprof_index pprof_profile pprof_symbol : Handler

-- `serve_mux` is `http.NewServeMux()`, and `serve` the handler that serves an address, if there is one.
pub record Muxes (M : Type 0) : Type 0 where
  pub serve_mux : M
  pub handle_func : String → Handler → M → M
  pub install_handler : M → M
  pub serve : M → String → Option Handler

-- Documented: a multiplexer has no handlers at first, it serves by a handler that was registered with it,
-- and `InstallHandler` registers health checks.
pub record MuxLaws {M : Type 0} (muxes : Muxes M) : Type 0 where
  pub serve-new : (path : String) → muxes.serve muxes.serve_mux path ≡ none
  pub serve-handle :
      (pattern : String) (h : Handler) (m : M) (path : String) (k : Handler)
      → muxes.serve (muxes.handle_func pattern h m) path ≡ some k
      → (k ≡ h) ⊎ (muxes.serve m path ≡ some k)
  pub serve-install :
      (m : M) (path : String) (k : Handler)
      → muxes.serve (muxes.install_handler m) path ≡ some k
      → (k ≡ health_checks) ⊎ (muxes.serve m path ≡ some k)

module _ {M : Type 0} (muxes : Muxes M) where
  open muxes use {serve_mux, handle_func, install_handler, serve}

  -- `http.HandleFunc` registers with the default multiplexer of net/http, the second of the pair; the
  -- server is given the first.
  unfoldable pub register_handlers : Bool → M → M × M
  register_handlers profiling default_mux =
      let mux = install_handler serve_mux in
      let default_mux' = handle_func "/stop" stop (handle_func "/build" build default_mux) in
      let with_pprof = handle_func "/debug/pprof/symbol" pprof_symbol (
        handle_func "/debug/pprof/profile" pprof_profile
          (handle_func "/debug/pprof/" pprof_index mux)) in
      (if profiling then with_pprof else mux, default_mux')

  -- Whatever the address, the server does not serve it by the handler that calls `Stop`.
  pub register_handlers-ne-stop :
      MuxLaws muxes
      → (profiling : Bool) (default_mux : M) (path : String)
      → serve (register_handlers profiling default_mux).0 path ≢ some stop
  unfolding register_handlers
  register_handlers-ne-stop laws profiling default_mux path e = elim (Bool-cases profiling) [
    | inl p ↦ with_pprof (rw p at e)
    | inr p ↦ plain (rw p at e)
  ]
    where
      plain : serve (install_handler serve_mux) path ≡ some stop → ⊥
      plain h = elim (laws.serve-install serve_mux path stop h) [
        | inl k ↦ cc
        | inr k ↦ let c : none ≡ some stop = sym (laws.serve-new path) ∙ k in cc
      ]

      with_pprof :
          serve
              (handle_func "/debug/pprof/symbol" pprof_symbol (
                handle_func "/debug/pprof/profile" pprof_profile
                  (handle_func "/debug/pprof/" pprof_index (install_handler serve_mux))))
              path
            ≡ some stop
          → ⊥
      with_pprof h = elim (laws.serve-handle _ _ _ path stop h) [
        | inl k ↦ cc
        | inr k ↦ elim (laws.serve-handle _ _ _ path stop k) [
          | inl j ↦ cc
          | inr j ↦ elim (laws.serve-handle _ _ _ path stop j) [ inl i ↦ cc | inr i ↦ plain i ]
        ]
      ]
