-- ===== src/Nghttpx/Reload/Laws.antt =====
-- What `checkAndWriteCfg` and `CheckAndReload` have done when they return without an error.
use mathlib.Core.Path.{subst}
use nghttpx_ingress_lb.Common.{
  String, ◌≡◌, ◌≢◌, inl, inr, sym, ap, ◌∙◌, Bool, not, got, got_injective, Bool-cases,
}
use nghttpx_ingress_lb.Api.{Bytes}
use nghttpx_ingress_lb.Nghttpx.Io.{Os, when}
use nghttpx_ingress_lb.Nghttpx.Io.Laws.{after-eq-got}
use nghttpx_ingress_lb.Nghttpx.Files.{same_bytes, read_file, needs_reload, write_file}
use nghttpx_ingress_lb.Nghttpx.Files.Laws.{
  FileLaws, same_bytes_iff, when-Keeps, write_file-Keeps, write_file-content,
}
use nghttpx_ingress_lb.Nghttpx.Reload.{Manager, Change, change_of, check_and_write_cfg}

module _ {W : Type 0} (os : Os W) (ngx : Manager) where
  -- The configuration files have these contents.
  abbrev pub Holds : Bytes → Bytes → W → Type 0
  Holds main backend w =
      (read_file os ngx.config_file w ≡ got main)
      × (read_file os ngx.backend_config_file w ≡ got backend)

  needs_reload-eq-got :
      (filename : String) (new : Bytes) (w w' : W) (b : Bool)
      → needs_reload os filename new w ≡ (got b, w')
      → (old : Bytes) × (read_file os filename w ≡ got old)
        × (b ≡ not (same_bytes old new))
        × (w' ≡ w)
  unfolding needs_reload
  needs_reload-eq-got filename new w w' b h =
      let (old, w1, e, k) = after-eq-got (read_file os filename w, w) _ h in
      (
        old,
        ap (λ r. r.0) e,
        sym (got_injective (ap (λ r. r.0) k)),
        sym (ap (λ r. r.1) k) ∙ sym (ap (λ r. r.1) e),
      )

  module _ (laws : FileLaws os) where
    when_write-content :
        (path : String) (old new : Bytes) (w w' : W)
        → read_file os path w ≡ got old
        → when (not (same_bytes old new)) (write_file os path new) w ≡ (got tt, w')
        → read_file os path w' ≡ got new
    when_write-content path old new w w' h e = elim (Bool-cases (same_bytes old new)) [
      | inl k ↦
          let s : (got tt, w) ≡ (got tt, w') = rw k at e in
          rw (← ap (λ r. r.1) s) (h ∙ ap got ((same_bytes_iff old new).0 k))
      | inr k ↦
          let s : write_file os path new w ≡ (got tt, w') = rw k at e in
          write_file-content os laws path new w w' s
    ]

    -- What a check and write without an error has found and left.
    pub record Installed (main backend : Bytes) (w : W) (change : Change) (w' : W) : Type 0 where
      pub old_main : Bytes
      pub old_backend : Bytes
      pub found : Holds old_main old_backend w
      pub tells :
          change ≡ change_of (not (same_bytes old_main main)) (not (same_bytes old_backend backend))
      pub holds : Holds main backend w'

    -- If `checkAndWriteCfg` returns no error, and the two files are not one, then both could be read and
    -- have the new contents now; what it returns tells which of them had others before, the main file
    -- first.
    pub check_and_write_cfg-Installed :
        (main backend : Bytes) (w w' : W) (change : Change)
        → ngx.backend_config_file ≢ ngx.config_file
        → check_and_write_cfg os ngx main backend w ≡ (got change, w')
        → Installed main backend w change w'
    unfolding check_and_write_cfg
    check_and_write_cfg-Installed main backend w w' change apart h =
        let (mc, w1, e1, h1) = after-eq-got (needs_reload os ngx.config_file main w) _ h in
        let (bc, w2, e2, h2) =
          after-eq-got (needs_reload os ngx.backend_config_file backend w1) _ h1 in
        let (_, w3, e3, h3) = after-eq-got (when mc (write_file os ngx.config_file main) w2) _ h2 in
        let (_, w4, e4, h4) =
          after-eq-got (when bc (write_file os ngx.backend_config_file backend) w3) _ h3 in
        let (om, r1, k1, s1) = needs_reload-eq-got ngx.config_file main w w1 mc e1 in
        let (ob, r2, k2, s2) = needs_reload-eq-got ngx.backend_config_file backend w1 w2 bc e2 in
        let r2' : read_file os ngx.backend_config_file w ≡ got ob = rw (← s1) r2 in
        let back : w2 ≡ w = s2 ∙ s1 in
        let m3 = when_write-content ngx.config_file om main w w3 r1 (rw (← back, ← k1) e3) in
        let b3 : read_file os ngx.backend_config_file w3 ≡ got ob =
          subst (λ s. read_file os ngx.backend_config_file s.1 ≡ got ob) e3
            (when-Keeps os ngx.backend_config_file ob mc (write_file os ngx.config_file main)
              (write_file-Keeps os laws ngx.config_file ngx.backend_config_file main ob apart) w2
              (rw back r2')) in
        let b4 = when_write-content ngx.backend_config_file ob backend w3 w4 b3 (rw (← k2) e4) in
        let m4 : read_file os ngx.config_file w4 ≡ got main =
          subst (λ s. read_file os ngx.config_file s.1 ≡ got main) e4
            (when-Keeps os ngx.config_file main bc (write_file os ngx.backend_config_file backend)
              (write_file-Keeps os laws ngx.backend_config_file ngx.config_file backend main
                (λ e. apart (sym e)))
              w3 m3) in
        record {
          old_main = om;
          old_backend = ob;
          found = (r1, r2');
          tells = rw (← k1, ← k2) (sym (got_injective (ap (λ r. r.0) h4)));
          holds = rw (← ap (λ r. r.1) h4) (m4, b4);
        }
