-- ===== src/Controller/Upstreams/Failures.antt =====
-- When `getUpstreamServers` fails and when it panics.
use nghttpx_ingress_lb.Common.{
  ◌≡◌, ◌≢◌, ◌↔◌, refl, String, false, Option, List, [], any, arith, Bool-cases, inl, inr, Result,
  ok, err, panic, some, got,
}
use nghttpx_ingress_lb.Api.{Ingress, Service}
use nghttpx_ingress_lb.Nghttpx.Types.{TlsCred, Upstream, IngressConfig}
use nghttpx_ingress_lb.Controller.Env.{LoadBalancerController, Caches}
use nghttpx_ingress_lb.Controller.Upstreams.{
  Environment, default_cred, is_default, with_default, get_upstream_servers,
}
use nghttpx_ingress_lb.Controller.Upstreams.Paths.{get_default_upstream}
use nghttpx_ingress_lb.Controller.Upstreams.Paths.Default.{
  get_default_upstream-ne-err, get_default_upstream-eq-panic_iff,
}
use nghttpx_ingress_lb.Controller.Upstreams.Collected.{all_upstreams, all_pems, ingress_loop-append}
use nghttpx_ingress_lb.Controller.Upstreams.Laws.{
  HasDefault, arrange_new, get_upstream_servers-IsConfigFor,
}

-- The lister has the default service, and it has no port.
abbrev pub IsPortless : Caches → LoadBalancerController → Type 0
IsPortless cache lbc =
    (svc : Service) × (cache.service lbc.default_svc ≡ got (some svc)) × (svc.ports ≡ [])

module _ (env : Environment) (lbc : LoadBalancerController) where
  open env use {lib, crypto, cache, sorter, num_cpu}

  default_cred-ne-panic : default_cred env lbc ≢ panic
  unfolding default_cred
  default_cred-ne-panic e = ground arith

  -- An error of the default secret is the error of `getUpstreamServers`.
  get_upstream_servers_of_err :
      (ings : List Ingress) {m : String}
      → default_cred env lbc ≡ err m
      → get_upstream_servers env lbc ings ≡ err m
  unfolding get_upstream_servers
  get_upstream_servers_of_err ings e = rw (ingress_loop-append env lbc ings [] []) (rw e)

  -- If no ingress serves the requests that match no other, and the default service has no port, then
  -- `svc.Spec.Ports[0]` panics.
  get_upstream_servers_of_panic :
      (ings : List Ingress) {cred : Option TlsCred}
      → default_cred env lbc ≡ ok cred
      → any (is_default env lbc) (all_upstreams env lbc ings) ≡ false
      → get_default_upstream lib cache lbc ≡ panic
      → get_upstream_servers env lbc ings ≡ panic
  unfolding get_upstream_servers with_default
  get_upstream_servers_of_panic ings {cred} e a p =
      let (config, k, _) = arrange_new env lbc cred (all_pems env lbc ings) in
      rw (ingress_loop-append env lbc ings [] []) (rw (e, k) (rw (a, p)))

  -- The ways in which `getUpstreamServers` ends.
  data Ending (ings : List Ingress) : Type 0 where
    fails :
        (m : String)
        → default_cred env lbc ≡ err m
        → get_upstream_servers env lbc ings ≡ err m
        → Ending ings
    panics :
        (cred : Option TlsCred)
        → default_cred env lbc ≡ ok cred
        → any (is_default env lbc) (all_upstreams env lbc ings) ≡ false
        → get_default_upstream lib cache lbc ≡ panic
        → get_upstream_servers env lbc ings ≡ panic
        → Ending ings
    returns :
        (cred : Option TlsCred) (config : IngressConfig)
        → default_cred env lbc ≡ ok cred
        → HasDefault env lbc ings
        → get_upstream_servers env lbc ings ≡ ok config
        → Ending ings

  finish_with :
      (ings : List Ingress) (cred : Option TlsCred)
      → default_cred env lbc ≡ ok cred
      → HasDefault env lbc ings
      → Ending ings
  finish_with ings cred e h =
      let (config, k, _, _) = get_upstream_servers-IsConfigFor env lbc ings cred e h in
      returns cred config e h k

  -- Whatever the ingresses and the caches are, one of the three ways is taken.
  finish : (ings : List Ingress) → Ending ings
  finish ings = of_cred (default_cred env lbc) refl
    where
      of_default :
          (cred : Option TlsCred) (d : Result Upstream)
          → default_cred env lbc ≡ ok cred
          → any (is_default env lbc) (all_upstreams env lbc ings) ≡ false
          → get_default_upstream lib cache lbc ≡ d
          → Ending ings
      of_default cred (ok d) e a h = finish_with ings cred e (inr (d, h))
      of_default cred (err m) e a h = absurd (get_default_upstream-ne-err lib cache lbc m h)
      of_default cred panic e a h = panics cred e a h (get_upstream_servers_of_panic ings e a h)

      of_cred : (c : Result (Option TlsCred)) → default_cred env lbc ≡ c → Ending ings
      of_cred (ok cred) e =
          elim (Bool-cases (any (is_default env lbc) (all_upstreams env lbc ings))) [
            | inl a ↦ finish_with ings cred e (inl a)
            | inr a ↦ of_default cred (get_default_upstream lib cache lbc) e a refl
          ]
      of_cred (err m) e = fails m e (get_upstream_servers_of_err ings e)
      of_cred panic e = absurd (default_cred-ne-panic e)

  pub get_upstream_servers-eq-err_iff :
      (ings : List Ingress) (m : String)
      → (get_upstream_servers env lbc ings ≡ err m) ↔ (default_cred env lbc ≡ err m)
  get_upstream_servers-eq-err_iff ings m = (only (finish ings), get_upstream_servers_of_err ings)
    where
      only : Ending ings → get_upstream_servers env lbc ings ≡ err m → default_cred env lbc ≡ err m
      only (fails m' e k) h = cc
      only (panics cred e a p k) h = cc
      only (returns cred config e d k) h = cc

  -- `getUpstreamServers` panics exactly if the default secret is in order, no ingress serves the
  -- requests that match no other, and the lister has the default service and it has no port.
  pub get_upstream_servers-eq-panic_iff :
      (ings : List Ingress)
      → (get_upstream_servers env lbc ings ≡ panic) ↔ (
          ((cred : Option TlsCred) × (default_cred env lbc ≡ ok cred))
          × (any (is_default env lbc) (all_upstreams env lbc ings) ≡ false)
          × IsPortless cache lbc)
  get_upstream_servers-eq-panic_iff ings = (
    only (finish ings),
    λ ((cred, e), a, p).
        get_upstream_servers_of_panic ings e a
          ((get_default_upstream-eq-panic_iff lib cache lbc).1 p),
  )
    where
      only :
          Ending ings
          → get_upstream_servers env lbc ings ≡ panic
          → ((cred : Option TlsCred) × (default_cred env lbc ≡ ok cred))
            × (any (is_default env lbc) (all_upstreams env lbc ings) ≡ false)
            × IsPortless cache lbc
      only (fails m' e k) h = cc
      only (panics cred e a p k) h =
          ((cred, e), a, (get_default_upstream-eq-panic_iff lib cache lbc).0 p)
      only (returns cred config e d k) h = cc
