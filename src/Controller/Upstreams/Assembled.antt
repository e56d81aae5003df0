-- ===== src/Controller/Upstreams/Assembled.antt =====
-- `getUpstreamServers` as what its loop over the ingresses collects and what it then makes of it.
use nghttpx_ingress_lb.Common.{
  ◌≡◌, sym, Option, List, [], Result, ok, ◌>>=◌, ok_injective, bind-eq-ok,
}
use nghttpx_ingress_lb.Common.Sorting.Keys.{less_by}
use nghttpx_ingress_lb.Api.{Ingress}
use nghttpx_ingress_lb.Nghttpx.Types.{TlsCred, Upstream, IngressConfig, new_ingress_config}
use nghttpx_ingress_lb.Controller.Env.{LoadBalancerController}
use nghttpx_ingress_lb.Controller.Upstreams.{
  Environment, default_cred, with_default, unique_loop, get_upstream_servers,
}
use nghttpx_ingress_lb.Controller.Upstreams.Creds.{arrange_creds}
use nghttpx_ingress_lb.Controller.Upstreams.Collected.{all_upstreams, all_pems, ingress_loop-append}
use nghttpx_ingress_lb.Controller.Upstreams.Laws.{name_of}

module _ (env : Environment) (lbc : LoadBalancerController) where
  open env use {sorter, num_cpu}

  -- What follows the loop over the ingresses.
  unfoldable pub assembled :
      Result (Option TlsCred) → List Upstream → List TlsCred → Result IngressConfig
  unfolding with_default unique_loop
  assembled default upstreams pems = do
    cred ← default
    config ← arrange_creds sorter cred pems (new_ingress_config num_cpu)
    upstreams' ← with_default env lbc upstreams
    unique ← unique_loop env lbc (sorter.sort_slice (less_by name_of) upstreams')
    ok (record config { upstreams = unique })

  pub get_upstream_servers-assembled :
      (ings : List Ingress)
      → get_upstream_servers env lbc ings
        ≡ assembled (default_cred env lbc) (all_upstreams env lbc ings) (all_pems env lbc ings)
  unfolding get_upstream_servers assembled
  get_upstream_servers-assembled ings = rw (ingress_loop-append env lbc ings [] [])

  -- The credentials of a configuration are those that were arranged.
  pub assembled-eq-ok :
      (d : Result (Option TlsCred)) (us : List Upstream) (pems : List TlsCred)
      (config : IngressConfig)
      → assembled d us pems ≡ ok config
      → (cred : Option TlsCred) × (c : IngressConfig) × (vs : List Upstream) × (d ≡ ok cred)
        × (arrange_creds sorter cred pems (new_ingress_config num_cpu) ≡ ok c)
        × (config ≡ record c { upstreams = vs })
  unfolding assembled
  assembled-eq-ok d us pems config h =
      let (cred, e, h1) = bind-eq-ok _ d h in
      let (c, a, h2) =
        bind-eq-ok _ (arrange_creds sorter cred pems (new_ingress_config num_cpu)) h1 in
      let (ws, _, h3) = bind-eq-ok _ (with_default env lbc us) h2 in
      let (vs, _, h4) =
        bind-eq-ok _ (unique_loop env lbc (sorter.sort_slice (less_by name_of) ws)) h3 in
      (cred, c, vs, e, a, sym (ok_injective h4))
