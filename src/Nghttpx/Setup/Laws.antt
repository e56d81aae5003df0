-- ===== src/Nghttpx/Setup/Laws.antt =====
-- When `NewManager` makes a manager.
use nghttpx_ingress_lb.Common.{
  String, ◌≡◌, ◌↔◌, refl, sym, ap, true, Option, none, some, Try, failed, got, arith,
}
use nghttpx_ingress_lb.Nghttpx.Tls.{tls_directory}
use nghttpx_ingress_lb.Nghttpx.Reload.{Manager}
use nghttpx_ingress_lb.Nghttpx.Setup.{
  MkdirError, Host, Attempt, exited, panicked, made, checked_dir, Template, must, then_try,
  templates, manager_with, loaded, create_certs_dir, load_template, new_manager,
}

module _ {W : Type 0} (host : Host W) where
  -- The directory of the credentials could be made, or is there.
  abbrev pub HasDir : Option MkdirError → Type 0
  HasDir none = Unit
  HasDir (some e) = e.is_exist ≡ true

  -- `ngx` executes the two templates as they were parsed, and writes to the two files of nghttpx.
  pub record IsManagerOf (w : W) (ngx : Manager) : Type 0 where
    pub main_parsed : host.parse_files "./nghttpx.tmpl" w ≡ got ngx.template
    pub backend_parsed : host.parse_files "./nghttpx-backend.tmpl" w ≡ got ngx.backend_template
    pub main_file : ngx.config_file ≡ "/etc/nghttpx/nghttpx.conf"
    pub backend_file : ngx.backend_config_file ≡ "/etc/nghttpx/nghttpx-backend.conf"

  checked_dir_iff :
      (base : String) (r : Option MkdirError) → (checked_dir host base r ≡ made tt) ↔ HasDir r
  unfolding checked_dir
  checked_dir_iff base none = (λ _. tt, λ _. refl)
  checked_dir_iff base (some e) = ground arith

  -- Every part must succeed.
  parts_iff :
      (d : Attempt (Unit {0})) (t b : Try Template) (ngx : Manager)
      → (then_try d (λ _. then_try (templates t b) (λ parts. made (manager_with parts.0 parts.1)))
          ≡ made ngx)
        ↔ ((d ≡ made tt)
            × (t ≡ got ngx.template)
            × (b ≡ got ngx.backend_template)
            × (ngx.config_file ≡ "/etc/nghttpx/nghttpx.conf")
            × (ngx.backend_config_file ≡ "/etc/nghttpx/nghttpx-backend.conf"))
  unfolding templates must
  parts_iff (exited e) t b ngx = (λ h. ground arith, λ h. ground arith)
  parts_iff (panicked e) t b ngx = (λ h. ground arith, λ h. ground arith)
  parts_iff (made u) (failed e) b ngx = (λ h. ground arith, λ h. ground arith)
  parts_iff (made u) (got m) (failed e) ngx = (λ h. ground arith, λ h. ground arith)
  parts_iff (made u) (got m) (got k) ngx = (λ h. ground arith, λ h. ground arith)

  -- `NewManager` makes a manager exactly if the directory of the credentials could be made or is there
  -- and both templates can be parsed; the manager executes these templates, and its files are
  -- nghttpx.conf and nghttpx-backend.conf in /etc/nghttpx.
  pub new_manager-eq-made_iff :
      (w w' : W) (ngx : Manager)
      → (new_manager host w ≡ (made ngx, w')) ↔ (
          (w' ≡ (host.mkdir tls_directory w).1)
          × HasDir (host.mkdir tls_directory w).0
          × IsManagerOf w' ngx)
  unfolding new_manager create_certs_dir loaded load_template
  new_manager-eq-made_iff w w' ngx = of (host.mkdir tls_directory w)
    where
      of :
          (r : Option MkdirError × W)
          → (loaded host (checked_dir host tls_directory r.0, r.1) ≡ (made ngx, w'))
            ↔ ((w' ≡ r.1) × HasDir r.0 × IsManagerOf w' ngx)
      of (r, w1) =
          let (there, back) =
            parts_iff (checked_dir host tls_directory r) (host.parse_files "./nghttpx.tmpl" w1)
              (host.parse_files "./nghttpx-backend.tmpl" w1) ngx in
          (
            (λ h.
                let (d, t, b, m, k) = there (ap (λ s. s.0) h) in
                let same : w' ≡ w1 = sym (ap (λ s. s.1) h) in
                (
                  same,
                  (checked_dir_iff tls_directory r).0 d,
                  rw same (record {
                    main_parsed = t;
                    backend_parsed = b;
                    main_file = m;
                    backend_file = k;
                  }),
                )),
            λ (same, d, m).
                let m' : IsManagerOf w1 ngx = rw (← same) m in
                rw same (
                  ap (λ a. (a, w1))
                    (back (
                      (checked_dir_iff tls_directory r).1 d,
                      m'.main_parsed,
                      m'.backend_parsed,
                      m'.main_file,
                      m'.backend_file,
                    ))),
          )
