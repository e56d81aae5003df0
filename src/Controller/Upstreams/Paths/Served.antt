-- ===== src/Controller/Upstreams/Paths/Served.antt =====
-- Which paths of an ingress have an upstream, and with which backends.
use mathlib.Core.List.{Memᴰ}
use mathlib.Core.List.Memᴰ
use nghttpx_ingress_lb.Common.{
  String, ◌≡◌, ◌≢◌, ◌⊎◌, ◌↔◌, inl, inr, refl, sym, ap, ◌∙◌, Bool, true, false, Option, none, some,
  List, [], ◌∷◌, ◌++◌, ◌||◌, not, Try, failed, got, Bool-cases,
}
use nghttpx_ingress_lb.Common.Int.{itoa}
use nghttpx_ingress_lb.Common.Text.{◌=s◌, ◌<>◌, eq_iff, starts_with}
use nghttpx_ingress_lb.Api.{Service, ServicePort, Ingress, IngressRule, HttpIngressPath}
use nghttpx_ingress_lb.Nghttpx.Types.{Upstream, UpstreamServer, PortBackendConfig}
use nghttpx_ingress_lb.Controller.Env.{
  LoadBalancerController, Libraries, Caches, BackendConfigs, lookup, lookup_or,
}
use nghttpx_ingress_lb.Controller.Credentials.{slashed}
use nghttpx_ingress_lb.Controller.Endpoints.{get_endpoints}
use nghttpx_ingress_lb.Controller.Upstreams.Paths.{
  normalized_path, port_named, port_config, service_backends, path_backends, upstream_with,
  path_upstream,
}
use nghttpx_ingress_lb.Controller.Upstreams.Paths.Laws.{
  IsUpstreamFor, or_skip, path_upstreams, http_upstreams, rule_upstreams,
}

-- The path of a request that an upstream is for: a path of the ingress, or "/" where that is empty.
pub data IsRequestPath : String → String → Type 0 where
  root : IsRequestPath "" "/"
  slash : (path : String) → starts_with path "/" ≡ true → IsRequestPath path path

same_upstream :
    (u : Upstream) (name host : String) (redirects : Bool)
    → u.name ≡ name
    → u.host ≡ host
    → u.redirect_if_not_tls ≡ redirects
    → u ≡ record {
      name = name;
      host = host;
      path = u.path;
      backends = u.backends;
      redirect_if_not_tls = redirects;
    }
same_upstream u name host redirects a b c = rw (← a, ← b, ← c) refl

module _ (lib : Libraries) (cache : Caches) where
  -- The text of the ingress's port is the number, the target port or the name of the service's port.
  abbrev pub IsNamed : String → ServicePort → Type 0
  IsNamed bp p = (itoa p.port ≡ bp) ⊎ ((lib.int_or_string_text p.target_port ≡ bp) ⊎ (p.name ≡ bp))

  port_named_iff :
      (bp : String) (p : ServicePort) → (port_named lib cache bp p ≡ true) ↔ IsNamed bp p
  port_named_iff bp p =
      let number = eq_iff (itoa p.port) bp in
      let target = eq_iff (lib.int_or_string_text p.target_port) bp in
      let name = eq_iff p.name bp in
      elim (Bool-cases (itoa p.port =s bp)) [
        | inl e ↦ rw e (λ _. inl (number.0 e), λ _. refl)
        | inr e ↦ elim (Bool-cases (lib.int_or_string_text p.target_port =s bp)) [
          | inl f ↦ rw (e, f) (λ _. inr (inl (target.0 f)), λ _. refl)
          | inr f ↦
              rw (e, f)
                (
                  λ k. inr (inr (name.0 k)),
                  λ c. elim c [
                    | inl h ↦ let k : true ≡ false = rw (← number.1 h) e in cc
                    | inr (inl h) ↦ let k : true ≡ false = rw (← target.1 h) f in cc
                    | inr (inr h) ↦ name.1 h
                  ],
                )
        ]
      ]

  -- The service is there, and `bs` are the endpoints of the first of its ports that the ingress's port
  -- names, with the configuration that the ingress has for that service and that port.
  pub data Serves (namespace : String) (configs : BackendConfigs) (path : HttpIngressPath)
      (bs : List UpstreamServer) : Type 0 where
    serves :
        (svc : Service) (before after : List ServicePort) (p : ServicePort)
        → cache.service (namespace <> "/" <> path.backend.service_name) ≡ got (some svc)
        → svc.ports ≡ before ++ p ∷ after
        → ((q : ServicePort)
            → Memᴰ q before
            → IsNamed (lib.int_or_string_text path.backend.service_port) q
            → ⊥)
        → IsNamed (lib.int_or_string_text path.backend.service_port) p
        → bs
          ≡ get_endpoints lib cache svc p "TCP" (
              port_config lib cache (
                lookup
                  (lib.int_or_string_text path.backend.service_port)
                  (lookup_or [] path.backend.service_name configs)))
        → Serves namespace configs path bs

  service_backends-first :
      (svc : Service) (bp : String) (configs : List (String × PortBackendConfig))
      (before after : List ServicePort) (p : ServicePort)
      → ((q : ServicePort) → Memᴰ q before → IsNamed bp q → ⊥)
      → IsNamed bp p
      → service_backends lib cache svc bp configs (before ++ p ∷ after)
        ≡ get_endpoints lib cache svc p "TCP" (port_config lib cache (lookup bp configs))
  unfolding service_backends
  service_backends-first svc bp configs [] after p none_before named =
      rw ((port_named_iff bp p).1 named) refl
  service_backends-first svc bp configs (q ∷ before) after p none_before named =
      elim (Bool-cases (port_named lib cache bp q)) [
        | inl e ↦ absurd (none_before q (Memᴰ.head refl) ((port_named_iff bp q).0 e))
        | inr e ↦ rw e (
            service_backends-first svc bp configs before after p
              (λ r m. none_before r (Memᴰ.tail m)) named)
      ]

  Serves-path_backends :
      (namespace : String) (configs : BackendConfigs) (path : HttpIngressPath)
      (bs : List UpstreamServer)
      → Serves namespace configs path bs
      → path_backends lib cache configs path
          (cache.service (slashed namespace path.backend.service_name))
        ≡ bs
  unfolding path_backends
  Serves-path_backends namespace configs path bs (serves svc before after p f ports first named e) =
      let bp = lib.int_or_string_text path.backend.service_port in
      let own = lookup_or [] path.backend.service_name configs in
      rw (f, e)
        (ap (λ ps. service_backends lib cache svc bp own ps) ports
          ∙ service_backends-first svc bp own before after p first named)

  -- The ports before the first that is named, that port, and the ones after it.
  abbrev FirstNamed :
      Service → String → List (String × PortBackendConfig) → List ServicePort → Type 0
  FirstNamed svc bp own ports =
      (before : List ServicePort) × (after : List ServicePort) × (p : ServicePort) × (ports
        ≡ before ++ p ∷ after)
      × ((q : ServicePort) → Memᴰ q before → IsNamed bp q → ⊥)
      × IsNamed bp p
      × (service_backends lib cache svc bp own ports
          ≡ get_endpoints lib cache svc p "TCP" (port_config lib cache (lookup bp own)))

  service_backends-FirstNamed :
      (svc : Service) (bp : String) (own : List (String × PortBackendConfig))
      (ports : List ServicePort)
      → service_backends lib cache svc bp own ports ≢ []
      → FirstNamed svc bp own ports
  unfolding service_backends
  service_backends-FirstNamed svc bp own [] filled = absurd (filled refl)
  service_backends-FirstNamed svc bp own (q ∷ ports) filled =
      elim (Bool-cases (port_named lib cache bp q)) [
        | inl e ↦ ([], ports, q, refl, (λ r m. elim m [ ]), (port_named_iff bp q).0 e, rw e refl)
        | inr e ↦
            let (before, after, p, split, first, named, same) =
              service_backends-FirstNamed svc bp own ports (rw e at filled) in
            (
              q ∷ before,
              after,
              p,
              ap (λ ps. q ∷ ps) split,
              unnamed q before e first,
              named,
              rw e same,
            )
      ]
    where
      unnamed :
          (q : ServicePort) (before : List ServicePort)
          → port_named lib cache bp q ≡ false
          → ((r : ServicePort) → Memᴰ r before → IsNamed bp r → ⊥)
          → (r : ServicePort) → Memᴰ r (q ∷ before)
          → IsNamed bp r
          → ⊥
      unnamed q before e first r (Memᴰ.head same) named =
          let k : true ≡ false = sym ((port_named_iff bp q).1 (rw (← same) named)) ∙ e in cc
      unnamed q before e first r (Memᴰ.tail m) named = first r m named

  path_backends-Serves :
      (namespace : String) (configs : BackendConfigs) (path : HttpIngressPath)
      → path_backends lib cache configs path
          (cache.service (slashed namespace path.backend.service_name))
        ≢ []
      → Serves namespace configs path (
          path_backends lib cache configs path
            (cache.service (slashed namespace path.backend.service_name)))
  unfolding path_backends
  path_backends-Serves namespace configs path filled =
      of (cache.service (slashed namespace path.backend.service_name)) refl filled
    where
      of :
          (t : Try (Option Service))
          → cache.service (slashed namespace path.backend.service_name) ≡ t
          → path_backends lib cache configs path t ≢ []
          → Serves namespace configs path (path_backends lib cache configs path t)
      of (failed e) f filled = absurd (filled refl)
      of (got none) f filled = absurd (filled refl)
      of (got (some svc)) f filled =
          let bp = lib.int_or_string_text path.backend.service_port in
          let own = lookup_or [] path.backend.service_name configs in
          let (before, after, p, split, first, named, same) =
            service_backends-FirstNamed svc bp own svc.ports filled in
          serves svc before after p f split first named same

  module _ (lbc : LoadBalancerController) (ing : Ingress) (require_tls : Bool)
      (configs : BackendConfigs) where
    -- The upstream of a path: for the rule's host and the path, with the path's backends.
    abbrev pub upstream_of : String → HttpIngressPath → String → List UpstreamServer → Upstream
    upstream_of host path request bs = record {
      name =
          (ing.namespace <> "/" <> path.backend.service_name)
          <> ","
          <> lib.int_or_string_text path.backend.service_port
          <> ";"
          <> host
          <> request;
      host = host;
      path = request;
      backends = bs;
      redirect_if_not_tls = require_tls || not (lbc.default_tls_secret =s "");
    }

    -- The upstream of a path that is for a request, and for which there is a server.
    abbrev pub IsPathUpstream : String → HttpIngressPath → Upstream → Type 0
    IsPathUpstream host path u =
        (request : String) × (bs : List UpstreamServer) × IsRequestPath path.path request
        × Serves ing.namespace configs path bs
        × (bs ≢ [])
        × (u ≡ upstream_of host path request bs)

    request_path :
        (path request : String)
        → ((path ≡ "") × (request ≡ "/")) ⊎ ((starts_with path "/" ≡ true) × (request ≡ path))
        → IsRequestPath path request
    request_path path request (inl (e, r)) = rw (e, r) root
    request_path path request (inr (e, r)) = rw r (slash path e)

    pub IsUpstreamFor-IsPathUpstream :
        (host : String) (path : HttpIngressPath) (u : Upstream)
        → IsUpstreamFor lib cache lbc ing require_tls configs host path u
        → IsPathUpstream host path u
    IsUpstreamFor-IsPathUpstream host path u h = (
      u.path,
      u.backends,
      request_path path.path u.path h.normalized,
      rw (h.served)
          (path_backends-Serves ing.namespace configs path (λ e. h.nonempty (h.served ∙ e))),
      h.nonempty,
      same_upstream u _ _ _ h.named h.host_kept h.redirects,
    )

    normalized :
        (path request : String) → IsRequestPath path request → normalized_path path ≡ some request
    unfolding normalized_path
    normalized _ _ root = refl
    normalized _ _ (slash path h) = elim (Bool-cases (path =s "")) [
      | inl e ↦ let none_left : starts_with "" "/" ≡ true = rw ((eq_iff path "").0 e) at h in cc
      | inr e ↦ rw (e, h) refl
    ]

    path_upstream-Serves :
        (host : String) (path : HttpIngressPath) (request : String) (bs : List UpstreamServer)
        → IsRequestPath path.path request
        → Serves ing.namespace configs path bs
        → bs ≢ []
        → path_upstream lib cache lbc ing require_tls configs host path
          ≡ some (upstream_of host path request bs)
    unfolding path_upstream
    path_upstream-Serves host path request bs n s filled =
        rw
          (
            path_upstream,
            normalized path.path request n,
            Serves-path_backends ing.namespace configs path bs s,
          )
          (of bs filled)
      where
        of :
            (bs : List UpstreamServer)
            → bs ≢ []
            → upstream_with lib cache lbc ing require_tls configs host path request bs
              ≡ some (upstream_of host path request bs)
        of [] f = absurd (f refl)
        of (b ∷ bs) f = refl

    -- What is an upstream of one of the paths is one of the upstreams of the rules.
    path_upstreams-mem :
        (host : String) (paths : List HttpIngressPath) (path : HttpIngressPath) (u : Upstream)
        → Memᴰ path paths
        → path_upstream lib cache lbc ing require_tls configs host path ≡ some u
        → Memᴰ u (path_upstreams lib cache lbc ing require_tls configs host paths)
    path_upstreams-mem host [] path u m e = elim m [ ]
    path_upstreams-mem host (p ∷ paths) path u (Memᴰ.head same) e =
        let k : path_upstream lib cache lbc ing require_tls configs host p ≡ some u =
          rw (← same) e in
        rw k (Memᴰ.head refl)
    path_upstreams-mem host (p ∷ paths) path u (Memᴰ.tail m) e =
        or_skip-mem (path_upstream lib cache lbc ing require_tls configs host p) _
          (path_upstreams-mem host paths path u m e)
      where
        or_skip-mem : (o : Option Upstream) (us : List Upstream) → Memᴰ u us → Memᴰ u (or_skip o us)
        or_skip-mem none us n = n
        or_skip-mem (some v) us n = Memᴰ.tail n

    pub rule_upstreams-Serves :
        (rs : List IngressRule) (r : IngressRule) (paths : List HttpIngressPath)
        (path : HttpIngressPath) (request : String) (bs : List UpstreamServer)
        → Memᴰ r rs
        → r.http ≡ some paths
        → Memᴰ path paths
        → IsRequestPath path.path request
        → Serves ing.namespace configs path bs
        → bs ≢ []
        → Memᴰ
            (upstream_of r.host path request bs)
            (rule_upstreams lib cache lbc ing require_tls configs rs)
    rule_upstreams-Serves [] r paths path request bs m e mp n s f = elim m [ ]
    rule_upstreams-Serves (t ∷ rs) r paths path request bs (Memᴰ.head same) e mp n s f =
        let k : t.http ≡ some paths = rw (← same) e in
        rw (same, k)
          (Memᴰ.append_left _ (
            path_upstreams-mem t.host paths path _ mp
              (path_upstream-Serves t.host path request bs n s f)))
    rule_upstreams-Serves (t ∷ rs) r paths path request bs (Memᴰ.tail m) e mp n s f =
        Memᴰ.append_right (http_upstreams lib cache lbc ing require_tls configs t.host t.http)
          (rule_upstreams-Serves rs r paths path request bs m e mp n s f)
