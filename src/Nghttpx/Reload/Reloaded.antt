-- ===== src/Nghttpx/Reload/Reloaded.antt =====
-- What has happened when `CheckAndReload` returns without an error.
use nghttpx_ingress_lb.Common.{
  String, ◌≡◌, ◌≢◌, sym, ap, ◌∙◌, Bool, true, false, not, failed, got, got_injective, inl, inr,
  Bool-cases, ◌==◌, arith,
}
use nghttpx_ingress_lb.Common.Text.{◌=s◌, eq_iff}
use nghttpx_ingress_lb.Api.{Bytes}
use nghttpx_ingress_lb.Nghttpx.Types.{IngressConfig}
use nghttpx_ingress_lb.Nghttpx.Io.{Io, Os, Response, wrap}
use nghttpx_ingress_lb.Nghttpx.Io.Laws.{after-eq-got, wrapped-eq-got}
use nghttpx_ingress_lb.Nghttpx.Reload.{
  Manager, Change, config_not_changed, main_config_changed, backend_config_changed,
  check_and_write_cfg, generate_cfg, check_and_reload, apply_change, write_tls_key_cert,
  get_nghttpx_config_revision, revision_changes, wait_until_config_revision_changes,
  issue_backend_replace_request, opened_backend, made_request, posted, replaced, backendconfig_uri,
}

module _ {W : Type 0} (os : Os W) where
  -- `wait.Poll` returns no error only after its condition has returned true.
  abbrev pub PollLaw : Type 0
  PollLaw =
      (m : Io W Bool) (w w' : W) → os.poll m w ≡ (got tt, w') → (w1 : W) × (m w1 ≡ (got true, w'))

  -- What a change of the files has led to, from the state `w` to `w'`, when no error was returned.
  pub data Done (ngx : Manager) (config : IngressConfig) (w : W) : Change → Bool → W → Type 0 where
    nothing : Done ngx config w config_not_changed false w
    reloaded :
        (old new : String) (w1 w2 w3 w4 w' : W)
        → get_nghttpx_config_revision os w ≡ (got old, w1)
        → write_tls_key_cert os config w1 ≡ (got tt, w2)
        → os.killall w2 ≡ (got tt, w3)
        → get_nghttpx_config_revision os w4 ≡ (got new, w')
        → new ≢ old
        → Done ngx config w main_config_changed true w'
    backends_replaced :
        (resp : Response) (w' : W)
        → os.do_post backendconfig_uri ngx.backend_config_file w ≡ (got resp, w')
        → resp.status_code ≡ 200
        → Done ngx config w backend_config_changed true w'

  new_revision :
      PollLaw
      → (old : String) (w w' : W) → wait_until_config_revision_changes os old w ≡ (got tt, w')
      → (new : String) × (w1 : W) × (get_nghttpx_config_revision os w1 ≡ (got new, w'))
        × (new ≢ old)
  unfolding wait_until_config_revision_changes revision_changes
  new_revision law old w w' h =
      let (w1, e) = law (revision_changes os old) w w' (wrapped-eq-got _ (os.poll _ w) h) in
      let (new, w2, e2, k) = after-eq-got (get_nghttpx_config_revision os w1) _ e in
      (
        new,
        w1,
        e2 ∙ ap (λ r. (got new, r.1)) k,
        λ same.
            let b : not (new =s old) ≡ true = got_injective (ap (λ r. r.0) k) in
            let c : false ≡ true = rw ((eq_iff new old).1 same) at b in cc,
      )

  replaced-eq-got : (resp : Response) → replaced resp ≡ got tt → resp.status_code ≡ 200
  unfolding replaced
  replaced-eq-got resp h = elim (Bool-cases (resp.status_code == 200)) [
    | inl e ↦ ground arith
    | inr e ↦ let k : failed _ ≡ got tt = rw e at h in cc
  ]

  issued-Done :
      (ngx : Manager) (w w' : W)
      → issue_backend_replace_request os ngx w ≡ (got tt, w')
      → (resp : Response) × (os.do_post backendconfig_uri ngx.backend_config_file w
          ≡ (got resp, w'))
        × (resp.status_code ≡ 200)
  unfolding issue_backend_replace_request opened_backend made_request posted
  issued-Done ngx w w' h =
      let (_, w1, e1, h1) = after-eq-got (opened_backend os ngx w) _ h in
      let (_, w2, e2, h2) = after-eq-got (made_request os w1) _ h1 in
      let (resp, w3, e3, h3) = after-eq-got (posted os ngx w2) _ h2 in
      let back : w2 ≡ w = sym (ap (λ r. r.1) e2) ∙ sym (ap (λ r. r.1) e1) in
      let sent = wrapped-eq-got _ (os.do_post _ _ w2) e3 in
      (
        resp,
        rw (← back) (sent ∙ ap (λ r. (got resp, r.1)) h3),
        replaced-eq-got resp (ap (λ r. r.0) h3),
      )

  apply_change-Done :
      PollLaw
      → (ngx : Manager) (config : IngressConfig) (change : Change) (b : Bool) (w w' : W)
      → apply_change os ngx config change w ≡ (got b, w')
      → Done ngx config w change b w'
  unfolding apply_change
  apply_change-Done law ngx config config_not_changed b w w' h =
      rw (← ap (λ r. r.1) h, ← got_injective (ap (λ r. r.0) h)) nothing
  apply_change-Done law ngx config main_config_changed b w w' h =
      let (old, w1, e1, h1) = after-eq-got (get_nghttpx_config_revision os w) _ h in
      let (_, w2, e2, h2) = after-eq-got (write_tls_key_cert os config w1) _ h1 in
      let (_, w3, e3, h3) = after-eq-got (wrap _ os.killall w2) _ h2 in
      let (_, w4, e4, h4) = after-eq-got (wait_until_config_revision_changes os old w3) _ h3 in
      let (new, w5, e5, n) = new_revision law old w3 w4 e4 in
      rw (← ap (λ r. r.1) h4, ← got_injective (ap (λ r. r.0) h4))
        (reloaded old new w1 w2 w3 w5 w4 e1 e2 (wrapped-eq-got _ (os.killall w2) e3) e5 n)
  apply_change-Done law ngx config backend_config_changed b w w' h =
      let (_, w1, e1, h1) = after-eq-got (wrap _ (issue_backend_replace_request os ngx) w) _ h in
      let (resp, e, s) =
        issued-Done ngx w w1 (wrapped-eq-got _ (issue_backend_replace_request os ngx w) e1) in
      rw (← ap (λ r. r.1) h1, ← got_injective (ap (λ r. r.0) h1)) (backends_replaced resp w1 e s)

  -- If `CheckAndReload` returns no error, and `wait.Poll` returns no error only after its condition has
  -- returned true, then it has generated both texts, compared and written the
  -- files, and done what the change asks for: nothing, for no change; for the main file, the
  -- credentials are written, nghttpx is signalled, and a revision is seen that differs from the one
  -- before; for the backends' file alone, nghttpx has answered the request to replace them with 200.
  pub check_and_reload-Done :
      PollLaw
      → (ngx : Manager) (config : IngressConfig) (b : Bool) (w w' : W)
      → check_and_reload os ngx config w ≡ (got b, w')
      → (main : Bytes) × (backend : Bytes) × (change : Change) × (w0 : W) × (generate_cfg ngx config
          ≡ got (main, backend))
        × (check_and_write_cfg os ngx main backend w ≡ (got change, w0))
        × Done ngx config w0 change b w'
  unfolding check_and_reload
  check_and_reload-Done law ngx config b w w' h =
      let ((main, backend), w1, e1, h1) = after-eq-got (generate_cfg ngx config, w) _ h in
      let (change, w0, e2, h2) =
        after-eq-got (wrap _ (check_and_write_cfg os ngx main backend) w1) _ h1 in
      let back : w1 ≡ w = sym (ap (λ r. r.1) e1) in
      (
        main,
        backend,
        change,
        w0,
        ap (λ r. r.0) e1,
        rw (← back) (wrapped-eq-got _ (check_and_write_cfg os ngx main backend w1) e2),
        apply_change-Done law ngx config change b w0 w' h2,
      )
