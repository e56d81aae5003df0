-- ===== src/Controller/Upstreams/Versions.antt =====
-- The last loop of `getUpstreamServers`: each upstream with its backends sorted, each once.
use nghttpx_ingress_lb.Common.{◌≡◌, ◌≢◌, refl, List, [], ◌∷◌, All, All₂, ok}
use nghttpx_ingress_lb.Nghttpx.Types.{Upstream}
use nghttpx_ingress_lb.Controller.Env.{LoadBalancerController}
use nghttpx_ingress_lb.Controller.Upstreams.{Environment, unique_loop}
use nghttpx_ingress_lb.Controller.Upstreams.Unique.Laws.{
  IsUniqueOf, IsUniqueOf-ne-nil, unique_backends-IsUniqueOf,
}

-- `v` is `u` with its backends made unique; it has at least one.
pub record IsVersion (u v : Upstream) : Type 0 where
  pub same : v ≡ record u { backends = v.backends }
  pub unique : IsUniqueOf u.backends v.backends
  pub nonempty : v.backends ≢ []

module _ (env : Environment) (lbc : LoadBalancerController) where
  pub unique_loop-IsVersion :
      (us : List Upstream)
      → All (λ u. u.backends ≢ []) us
      → (vs : List Upstream) × (unique_loop env lbc us ≡ ok vs) × All₂ IsVersion us vs
  unfolding unique_loop
  unique_loop-IsVersion [] h = ([], refl, tt)
  unique_loop-IsVersion (u ∷ us) h =
      let (bs, e, q) = unique_backends-IsUniqueOf env.sorter u.backends h.0 in
      let (vs, e', r) = unique_loop-IsVersion us h.1 in
      (
        record u { backends = bs } ∷ vs,
        rw (e, e'),
        (record { same = refl; unique = q; nonempty = IsUniqueOf-ne-nil u.backends bs h.0 q }, r),
      )
