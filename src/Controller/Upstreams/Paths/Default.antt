-- ===== src/Controller/Upstreams/Paths/Default.antt =====
-- The upstream of the default backend, `getDefaultUpstream`.
use mathlib.Core.Path.{subst}
use mathlib.Core.Option.{some-injective}
use nghttpx_ingress_lb.Common.{
  ◌≡◌, ◌≢◌, refl, String, Option, none, some, List, [], ◌∷◌, not, ok, err, ok_injective,
}
use nghttpx_ingress_lb.Common.Text.{◌=s◌}
use nghttpx_ingress_lb.Api.{Service, ServicePort}
use nghttpx_ingress_lb.Nghttpx.Types.{Upstream, UpstreamServer, new_default_server}
use nghttpx_ingress_lb.Controller.Env.{LoadBalancerController, Libraries, Caches}
use nghttpx_ingress_lb.Common.{Try, got, failed, got_injective, panic, ◌↔◌}
use nghttpx_ingress_lb.Controller.Upstreams.Paths.{
  get_default_upstream, default_for, default_backends, default_with, or_default_server,
}

module _ (lib : Libraries) (cache : Caches) (lbc : LoadBalancerController) where
  -- The upstream of the default backend: for every host and path, and with at least one backend.
  pub record IsDefaultUpstream (u : Upstream) : Type 0 where
    pub named : u.name ≡ lbc.default_svc
    pub any_host : u.host ≡ ""
    pub any_path : u.path ≡ ""
    pub redirects : u.redirect_if_not_tls ≡ not (lbc.default_tls_secret =s "")
    pub nonempty : u.backends ≢ []

  default_with-IsDefaultUpstream :
      (b : UpstreamServer) (bs : List UpstreamServer)
      → IsDefaultUpstream (default_with lib cache lbc (b ∷ bs))
  default_with-IsDefaultUpstream b bs = record {
    named = refl;
    any_host = refl;
    any_path = refl;
    redirects = refl;
    nonempty = λ e. cc;
  }

  or_default-IsDefaultUpstream :
      (bs : List UpstreamServer)
      → IsDefaultUpstream (default_with lib cache lbc (or_default_server lib cache lbc bs))
  unfolding or_default_server
  or_default-IsDefaultUpstream [] = default_with-IsDefaultUpstream new_default_server []
  or_default-IsDefaultUpstream (b ∷ bs) = default_with-IsDefaultUpstream b bs

  default_for-IsDefaultUpstream :
      (t : Try (Option Service)) (u : Upstream)
      → default_for lib cache lbc t ≡ ok u
      → IsDefaultUpstream u
  unfolding default_for
  default_for-IsDefaultUpstream (failed e) u h =
      subst IsDefaultUpstream (ok_injective h)
        (default_with-IsDefaultUpstream new_default_server [])
  default_for-IsDefaultUpstream (got none) u h =
      subst IsDefaultUpstream (ok_injective h)
        (default_with-IsDefaultUpstream new_default_server [])
  default_for-IsDefaultUpstream (got (some svc)) u h = backends svc.ports h
    where
      backends :
          (ps : List ServicePort)
          → default_backends lib cache lbc svc ps ≡ ok u
          → IsDefaultUpstream u
      backends [] k = cc
      backends (p ∷ ps) k =
          subst IsDefaultUpstream (ok_injective k) (or_default-IsDefaultUpstream _)

  default_for-ne-err : (t : Try (Option Service)) (m : String) → default_for lib cache lbc t ≢ err m
  unfolding default_for
  default_for-ne-err (failed e) m h = cc
  default_for-ne-err (got none) m h = cc
  default_for-ne-err (got (some svc)) m h = backends svc.ports h
    where
      backends : (ps : List ServicePort) → default_backends lib cache lbc svc ps ≢ err m
      backends [] k = cc
      backends (p ∷ ps) k = cc

  -- The default upstream is made or its making panics; it has no error of its own.
  pub get_default_upstream-ne-err : (m : String) → get_default_upstream lib cache lbc ≢ err m
  unfolding get_default_upstream
  get_default_upstream-ne-err m = default_for-ne-err _ m

  pub get_default_upstream-IsDefaultUpstream :
      (u : Upstream) → get_default_upstream lib cache lbc ≡ ok u → IsDefaultUpstream u
  unfolding get_default_upstream
  get_default_upstream-IsDefaultUpstream u h = default_for-IsDefaultUpstream _ u h

  -- Making the default upstream panics exactly if the lister has the service and it has no port.
  pub get_default_upstream-eq-panic_iff :
      (get_default_upstream lib cache lbc ≡ panic)
      ↔ ((svc : Service) × (cache.service lbc.default_svc ≡ got (some svc)) × (svc.ports ≡ []))
  unfolding get_default_upstream default_for default_backends
  get_default_upstream-eq-panic_iff = of (cache.service lbc.default_svc)
    where
      of_ports :
          (svc : Service) (ports : List ServicePort)
          → (default_backends lib cache lbc svc ports ≡ panic) ↔ (ports ≡ [])
      of_ports svc [] = (λ _. refl, λ _. refl)
      of_ports svc (p ∷ ps) = (λ h. cc, λ h. cc)

      of :
          (t : Try (Option Service))
          → (default_for lib cache lbc t ≡ panic)
            ↔ ((svc : Service) × (t ≡ got (some svc)) × (svc.ports ≡ []))
      of (failed e) = (λ h. cc, λ (svc, e', k). cc)
      of (got none) = (λ h. cc, λ (svc, e', k). cc)
      of (got (some svc)) = (
        λ h. (svc, refl, (of_ports svc svc.ports).0 h),
        λ (svc', e, k). (of_ports svc svc.ports).1 (rw (some-injective _ _ (got_injective e)) k),
      )
