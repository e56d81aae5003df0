-- ===== src/Controller/Upstreams/Config.antt =====
-- What `getUpstreamServers` returns, told from the ingresses, the services and the endpoints.
use mathlib.Core.List.{Memᴰ}
use mathlib.Core.List.Memᴰ
use nghttpx_ingress_lb.Common.{
  ◌≡◌, ◌⊎◌, inl, inr, refl, true, false, Option, some, List, [], ◌∷◌, any, All, All-map, All-apply,
  ok, Bool-cases, got,
}
use nghttpx_ingress_lb.Common.Text.{◌=s◌, eq_iff}
use nghttpx_ingress_lb.Common.Sorting.{IsSorted}
use nghttpx_ingress_lb.Common.Sorting.Keys.{less_by}
use nghttpx_ingress_lb.Api.{Ingress, IngressRule, HttpIngressPath}
use nghttpx_ingress_lb.Nghttpx.Types.{TlsCred, Upstream, IngressConfig}
use nghttpx_ingress_lb.Controller.Env.{LoadBalancerController}
use nghttpx_ingress_lb.Controller.Annotation.{validate_ingress_class, get_backend_config}
use nghttpx_ingress_lb.Controller.Annotation.Laws.{IsOurs, validate_ingress_class-IsOurs_iff}
use nghttpx_ingress_lb.Controller.Credentials.{get_tls_cred_from_ingress}
use nghttpx_ingress_lb.Controller.Upstreams.{
  Environment, default_cred, is_default, get_upstream_servers,
}
use nghttpx_ingress_lb.Controller.Upstreams.Paths.{get_default_upstream}
use nghttpx_ingress_lb.Controller.Upstreams.Paths.Laws.{from_path}
use nghttpx_ingress_lb.Controller.Upstreams.Paths.Default.{
  IsDefaultUpstream, get_default_upstream-IsDefaultUpstream,
}
use nghttpx_ingress_lb.Controller.Upstreams.Paths.Served.{
  IsPathUpstream, IsUpstreamFor-IsPathUpstream, rule_upstreams-Serves,
}
use nghttpx_ingress_lb.Controller.Upstreams.Creds.Laws.{IsArranged}
use nghttpx_ingress_lb.Controller.Upstreams.Collected.{
  upstreams_with, ingress_upstreams, all_upstreams, all_pems, FromIngress, from_ingress,
}
use nghttpx_ingress_lb.Controller.Upstreams.Laws.{
  name_of, HasDefault, get_upstream_servers-IsConfigFor,
}
use nghttpx_ingress_lb.Controller.Upstreams.Versions.{IsVersion}

module _ (env : Environment) (lbc : LoadBalancerController) where
  open env use {lib, crypto, cache}

  -- `u` is the upstream of a path of an ingress of this controller's class whose secrets are in order.
  pub data Yields (ings : List Ingress) (u : Upstream) : Type 0 where
    yields :
        (ing : Ingress) (pems : List TlsCred) (r : IngressRule) (paths : List HttpIngressPath)
        (path : HttpIngressPath)
        → Memᴰ ing ings
        → IsOurs lbc ing
        → get_tls_cred_from_ingress crypto cache ing ≡ got pems
        → Memᴰ r ing.rules
        → r.http ≡ some paths
        → Memᴰ path paths
        → IsPathUpstream lib cache lbc ing
            (any (λ _. true) pems)
            (get_backend_config lib ing.annotations)
            r.host
            path
            u
        → Yields ings u

  -- It is for the requests that match no other: for every host, and for the path "/" or "".
  abbrev pub ServesRest : Upstream → Type 0
  ServesRest u = (u.host ≡ "") × ((u.path ≡ "") ⊎ (u.path ≡ "/"))

  -- `u` is the upstream of a path, or the one of the default backend.
  abbrev pub IsOrigin : List Ingress → Upstream → Type 0
  IsOrigin ings u =
      Yields ings u
      ⊎ ((get_default_upstream lib cache lbc ≡ ok u) × IsDefaultUpstream lib cache lbc u)

  pub record IsConfig (ings : List Ingress) (config : IngressConfig) : Type 0 where
    pub by_name : IsSorted (less_by name_of) config.upstreams
    pub sound : All (λ v. (u : Upstream) × IsOrigin ings u × IsVersion u v) config.upstreams
    pub complete :
        (u : Upstream) → Yields ings u → (v : Upstream) × Memᴰ v config.upstreams × IsVersion u v
    pub has_default : (v : Upstream) × Memᴰ v config.upstreams × ServesRest v

  is_default-ServesRest : (u : Upstream) → is_default env lbc u ≡ true → ServesRest u
  is_default-ServesRest u h = elim (Bool-cases (u.host =s "")) [
    | inl e ↦ elim (Bool-cases (u.path =s "")) [
      | inl f ↦ ((eq_iff u.host "").0 e, inl ((eq_iff u.path "").0 f))
      | inr f ↦ ((eq_iff u.host "").0 e, inr ((eq_iff u.path "/").0 (rw (e, f) at h)))
    ]
    | inr e ↦ let absurd : false ≡ true = rw e at h in cc
  ]

  ServesRest-is_default : (u : Upstream) → ServesRest u → is_default env lbc u ≡ true
  ServesRest-is_default u (h, inl e) = rw ((eq_iff u.host "").1 h, (eq_iff u.path "").1 e) refl
  ServesRest-is_default u (h, inr e) = elim (Bool-cases (u.path =s "")) [
    | inl f ↦ rw ((eq_iff u.host "").1 h, f) refl
    | inr f ↦ rw ((eq_iff u.host "").1 h, f, (eq_iff u.path "/").1 e) refl
  ]

  FromIngress-Yields :
      (ings : List Ingress) (u : Upstream) → FromIngress env lbc ings u → Yields ings u
  FromIngress-Yields ings u (from_ingress ing pems m v e (from_path r paths p mr k mp h)) =
      yields ing pems r paths p m ((validate_ingress_class-IsOurs_iff lbc ing).0 v) e mr k mp
        (IsUpstreamFor-IsPathUpstream lib cache lbc ing _ _ r.host p u h)

  Yields-all_upstreams :
      (ings : List Ingress) (u : Upstream) → Yields ings u → Memᴰ u (all_upstreams env lbc ings)
  unfolding all_upstreams ingress_upstreams
  Yields-all_upstreams [] u (yields ing pems r paths p m o e mr k mp h) = elim m [ ]
  Yields-all_upstreams (i ∷ ings) u
        (yields ing pems r paths p (Memᴰ.head same) o e mr k mp (request, bs, n, s, filled, is)) =
      let v : validate_ingress_class lbc i ≡ true =
        rw (← same) ((validate_ingress_class-IsOurs_iff lbc ing).1 o) in
      let g : get_tls_cred_from_ingress crypto cache i ≡ got pems = rw (← same) e in
      let there : Memᴰ u (upstreams_with env lbc i (got pems)) =
        rw (is, ← same)
          (rule_upstreams-Serves lib cache lbc ing (any (λ _. true) pems)
            (get_backend_config lib ing.annotations) ing.rules r paths p request bs mr k mp n s
            filled) in
      Memᴰ.append_left {s = ingress_upstreams env lbc i} (all_upstreams env lbc ings)
        (rw (v, g) there)
  Yields-all_upstreams (i ∷ ings) u (yields ing pems r paths p (Memᴰ.tail m) o e mr k mp h) =
      Memᴰ.append_right (ingress_upstreams env lbc i)
        (Yields-all_upstreams ings u (yields ing pems r paths p m o e mr k mp h))

  Memᴰ-any :
      (us : List Upstream) (u : Upstream)
      → Memᴰ u us
      → is_default env lbc u ≡ true
      → any (is_default env lbc) us ≡ true
  Memᴰ-any [] u m h = elim m [ ]
  Memᴰ-any (v ∷ us) u (Memᴰ.head same) h =
      let k : is_default env lbc v ≡ true = rw (← same) h in rw k refl
  Memᴰ-any (v ∷ us) u (Memᴰ.tail m) h = elim (Bool-cases (is_default env lbc v)) [
    | inl e ↦ rw e refl
    | inr e ↦ rw e (Memᴰ-any us u m h)
  ]

  -- An upstream of an ingress serves the requests that match no other, or the default backend can.
  abbrev pub CanServeRest : List Ingress → Type 0
  CanServeRest ings =
      ((u : Upstream) × Yields ings u × ServesRest u)
      ⊎ ((d : Upstream) × (get_default_upstream lib cache lbc ≡ ok d))

  CanServeRest-HasDefault : (ings : List Ingress) → CanServeRest ings → HasDefault env lbc ings
  CanServeRest-HasDefault ings (inl (u, y, r)) =
      inl (Memᴰ-any _ u (Yields-all_upstreams ings u y) (ServesRest-is_default u r))
  CanServeRest-HasDefault ings (inr d) = inr d

  -- If the default secret is in order, and an upstream of an ingress serves the requests that match no
  -- other or the default backend can, then `getUpstreamServers` returns a configuration. Its upstreams
  -- are in the order of their names. Each is that of a path of an ingress of this controller's class whose
  -- secrets are in order, or the default backend's, with its backends sorted by address and port and each
  -- pair once; and each such path has its upstream. A path has one where it is empty, for the requests to
  -- "/", or starts with a slash, and where its service is there and the first of the service's ports whose
  -- number, target port or name is the text of the path's port has endpoints: these are the backends. One
  -- upstream is for every host and for the path "/" or ""; and the credentials are arranged from the
  -- default secret's and the ingresses'.
  pub get_upstream_servers-IsConfig :
      (ings : List Ingress) (cred : Option TlsCred)
      → default_cred env lbc ≡ ok cred
      → CanServeRest ings
      → (config : IngressConfig) × (get_upstream_servers env lbc ings ≡ ok config)
        × IsConfig ings config
        × IsArranged cred (all_pems env lbc ings) config
  get_upstream_servers-IsConfig ings cred e k =
      let (config, g, c, a) =
        get_upstream_servers-IsConfigFor env lbc ings cred e (CanServeRest-HasDefault ings k) in
      let (v, m, d) = c.has_default in
      (
        config,
        g,
        record {
          by_name = c.by_name;
          sound = All-map config.upstreams (λ v (u, s, r). (u, origin u s, r)) c.sound;
          complete = λ u y.
              All-apply _ (all_upstreams env lbc ings) c.complete u (Yields-all_upstreams ings u y);
          has_default = (v, m, is_default-ServesRest v d);
        },
        a,
      )
    where
      origin :
          (u : Upstream)
          → FromIngress env lbc ings u ⊎ (get_default_upstream lib cache lbc ≡ ok u)
          → IsOrigin ings u
      origin u (inl f) = inl (FromIngress-Yields ings u f)
      origin u (inr d) = inr (d, get_default_upstream-IsDefaultUpstream lib cache lbc u d)
