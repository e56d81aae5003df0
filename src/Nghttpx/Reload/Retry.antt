-- ===== src/Nghttpx/Reload/Retry.antt =====
-- What `CheckAndReload` does to the configuration files after it has written them, and what its next
-- call then does.
use nghttpx_ingress_lb.Common.{
  String, ◌≡◌, ◌≢◌, refl, true, false, Option, none, some, List, [], ◌∷◌, not, All, Try, got,
}
use nghttpx_ingress_lb.Common.Text.{◌=s◌}
use nghttpx_ingress_lb.Api.{Bytes}
use nghttpx_ingress_lb.Nghttpx.Types.{TlsCred, IngressConfig}
use nghttpx_ingress_lb.Nghttpx.Io.{Os, lift}
use nghttpx_ingress_lb.Nghttpx.Files.{write_file}
use nghttpx_ingress_lb.Nghttpx.Files.Laws.{
  FileLaws, same_bytes_iff, Keeps, bind-Keeps, wrap-Keeps, write_file-Keeps, needs_reload_of_got,
}
use nghttpx_ingress_lb.Nghttpx.Reload.{
  Manager, Change, config_not_changed, main_config_changed, backend_config_changed, change_of,
  check_and_write_cfg, generate_cfg, check_and_reload, apply_change, write_cred, write_creds,
  write_default, write_tls_key_cert, get_nghttpx_config_revision, revision_changes,
  wait_until_config_revision_changes, issue_backend_replace_request, revision_from, replaced,
  opened_backend, made_request, posted,
}
use nghttpx_ingress_lb.Nghttpx.Reload.Laws.{Holds, check_and_write_cfg-Installed}

-- `p` is not a file of one of the credentials.
abbrev pub NotOf : String → TlsCred → Type 0
NotOf p c = (p ≢ c.key.path) × (p ≢ c.cert.path)

abbrev pub NotDefault : String → Option TlsCred → Type 0
NotDefault p none = Unit
NotDefault p (some c) = NotOf p c

abbrev pub Untouched : String → IngressConfig → Type 0
Untouched p config = NotDefault p config.default_tls_cred × All (NotOf p) config.sub_tls_cred

module _ {W : Type 0} (os : Os W) (laws : FileLaws os) (p : String) (c : Bytes) where
  write_cred-Keeps : (d : TlsCred) → NotOf p d → Keeps os p c (write_cred os d)
  unfolding write_cred
  write_cred-Keeps d n =
      bind-Keeps os p c _ _
        (wrap-Keeps os p c _ (write_file os d.key.path d.key.content)
          (write_file-Keeps os laws d.key.path p d.key.content c n.0))
        (λ _.
          wrap-Keeps os p c _ (write_file os d.cert.path d.cert.content)
            (write_file-Keeps os laws d.cert.path p d.cert.content c n.1))

  pub write_creds-Keeps : (ds : List TlsCred) → All (NotOf p) ds → Keeps os p c (write_creds os ds)
  unfolding write_creds
  write_creds-Keeps [] n = λ w h. h
  write_creds-Keeps (d ∷ ds) n =
      bind-Keeps os p c (write_cred os d) _ (write_cred-Keeps d n.0) (λ _. write_creds-Keeps ds n.1)

  write_default-Keeps : (o : Option TlsCred) → NotDefault p o → Keeps os p c (write_default os o)
  unfolding write_default
  write_default-Keeps none n = λ w h. h
  write_default-Keeps (some d) n = write_cred-Keeps d n

  write_tls_key_cert-Keeps :
      (config : IngressConfig) → Untouched p config → Keeps os p c (write_tls_key_cert os config)
  unfolding write_tls_key_cert
  write_tls_key_cert-Keeps config n =
      bind-Keeps os p c (write_default os config.default_tls_cred) _
        (write_default-Keeps config.default_tls_cred n.0)
        (λ _. write_creds-Keeps config.sub_tls_cred n.1)

  lift-Keeps : {A : Type 0} (t : Try A) → Keeps os p c (lift t)
  lift-Keeps t w h = h

  revision-Keeps : Keeps os p c (get_nghttpx_config_revision os)
  unfolding get_nghttpx_config_revision
  revision-Keeps =
      bind-Keeps os p c _ _ (wrap-Keeps os p c _ _ (laws.http_get-Keeps _ p c))
        (λ resp. lift-Keeps (revision_from resp))

  revision_changes-Keeps : (old : String) → Keeps os p c (revision_changes os old)
  unfolding revision_changes
  revision_changes-Keeps old =
      bind-Keeps os p c (get_nghttpx_config_revision os) _ revision-Keeps
        (λ new. lift-Keeps (got (not (new =s old))))

  wait-Keeps : (old : String) → Keeps os p c (wait_until_config_revision_changes os old)
  unfolding wait_until_config_revision_changes
  wait-Keeps old =
      wrap-Keeps os p c _ _
        (laws.poll-Keeps p c (revision_changes os old) (revision_changes-Keeps old))

  issue-Keeps : (ngx : Manager) → Keeps os p c (issue_backend_replace_request os ngx)
  unfolding issue_backend_replace_request opened_backend made_request posted
  issue-Keeps ngx =
      bind-Keeps os p c (opened_backend os ngx) _ (λ w h. h)
        (λ _.
          bind-Keeps os p c (made_request os) _ (λ w h. h)
            (λ _.
              bind-Keeps os p c (posted os ngx) _
                (wrap-Keeps os p c _ _ (laws.do_post-Keeps _ _ p c))
                (λ resp. lift-Keeps (replaced resp))))

  apply_change-Keeps :
      (ngx : Manager) (config : IngressConfig) (change : Change)
      → Untouched p config
      → Keeps os p c (apply_change os ngx config change)
  unfolding apply_change
  apply_change-Keeps ngx config config_not_changed n = λ w h. h
  apply_change-Keeps ngx config main_config_changed n =
      bind-Keeps os p c (get_nghttpx_config_revision os) _ revision-Keeps (λ old.
        bind-Keeps os p c (write_tls_key_cert os config) _ (write_tls_key_cert-Keeps config n) (λ _.
          bind-Keeps os p c _ _ (wrap-Keeps os p c _ _ (laws.killall-Keeps p c)) (λ _.
            bind-Keeps os p c (wait_until_config_revision_changes os old) _ (wait-Keeps old)
              (λ _. lift-Keeps (got true)))))
  apply_change-Keeps ngx config backend_config_changed n =
      bind-Keeps os p c _ _
        (wrap-Keeps os p c _ (issue_backend_replace_request os ngx) (issue-Keeps ngx))
        (λ _. lift-Keeps (got true))

module _ {W : Type 0} (os : Os W) (ngx : Manager) (config : IngressConfig) where
  check_and_write_cfg_of_Holds :
      (main backend : Bytes) (w : W)
      → Holds os ngx main backend w
      → check_and_write_cfg os ngx main backend w ≡ (got config_not_changed, w)
  unfolding check_and_write_cfg change_of
  check_and_write_cfg_of_Holds main backend w h =
      rw (needs_reload_of_got os ngx.config_file main main w h.0, (same_bytes_iff main main).1 refl)
        (rw (
          needs_reload_of_got os ngx.backend_config_file backend backend w h.1,
          (same_bytes_iff backend backend).1 refl,
        ))

  -- `CheckAndReload` does nothing at all if both files have the generated contents already.
  pub check_and_reload_of_Holds :
      (main backend : Bytes) (w : W)
      → generate_cfg ngx config ≡ got (main, backend)
      → Holds os ngx main backend w
      → check_and_reload os ngx config w ≡ (got false, w)
  unfolding check_and_reload apply_change
  check_and_reload_of_Holds main backend w g h =
      rw g (rw (check_and_write_cfg_of_Holds main backend w h))

  after_write :
      (main backend : Bytes) (w w0 : W) (change : Change)
      → generate_cfg ngx config ≡ got (main, backend)
      → check_and_write_cfg os ngx main backend w ≡ (got change, w0)
      → check_and_reload os ngx config w ≡ apply_change os ngx config change w0
  unfolding check_and_reload
  after_write main backend w w0 change g k = rw g (rw k refl)

  module _ (laws : FileLaws os) (apart : ngx.backend_config_file ≢ ngx.config_file)
      (main_apart : Untouched ngx.config_file config)
      (backend_apart : Untouched ngx.backend_config_file config) where
    -- The files have the generated contents after a call that wrote them, whatever came of the rest.
    pub check_and_reload-Holds :
        (main backend : Bytes) (w w0 : W) (change : Change)
        → generate_cfg ngx config ≡ got (main, backend)
        → check_and_write_cfg os ngx main backend w ≡ (got change, w0)
        → Holds os ngx main backend (check_and_reload os ngx config w).1
    check_and_reload-Holds main backend w w0 change g k =
        let (hm, hb) =
          (check_and_write_cfg-Installed os ngx laws main backend w w0 change apart k).holds in
        rw (after_write main backend w w0 change g k) (
          apply_change-Keeps os laws ngx.config_file main ngx config change main_apart w0 hm,
          apply_change-Keeps os laws ngx.backend_config_file backend ngx config change backend_apart
              w0 hb,
        )

    -- If a call of `CheckAndReload` has written the configuration files, which are two and not files of
    -- the credentials, then the next call with the same configuration does nothing and returns false
    -- without an error, whatever came of the first call after the writing.
    pub check_and_reload-check_and_reload :
        (main backend : Bytes) (w w0 : W) (change : Change)
        → generate_cfg ngx config ≡ got (main, backend)
        → check_and_write_cfg os ngx main backend w ≡ (got change, w0)
        → let w1 = (check_and_reload os ngx config w).1 in
          check_and_reload os ngx config w1 ≡ (got false, w1)
    check_and_reload-check_and_reload main backend w w0 change g k =
        check_and_reload_of_Holds main backend (check_and_reload os ngx config w).1 g
          (check_and_reload-Holds main backend w w0 change g k)
