-- ===== src/Controller/Upstreams/Paths/Laws.antt =====
-- The upstreams that an ingress yields, path by path.
use mathlib.Core.List.{append_assoc, append-nil, Memᴰ}
use mathlib.Core.Path.{subst}
use mathlib.Core.Option.{some-injective}
use nghttpx_ingress_lb.Common.{
  ◌≡◌, ◌≢◌, ◌⊎◌, inl, inr, refl, sym, ◌∙◌, String, Bool, true, Option, none, some, List, [], ◌∷◌,
  ◌++◌, ◌||◌, not, All, All-append, All-map, All-mem, Bool-cases, Option-cases,
}
use nghttpx_ingress_lb.Common.Text.{◌=s◌, starts_with, eq_iff}
use nghttpx_ingress_lb.Api.{Ingress, HttpIngressPath, IngressRule}
use nghttpx_ingress_lb.Nghttpx.Types.{Upstream, UpstreamServer}
use nghttpx_ingress_lb.Controller.Env.{LoadBalancerController, Libraries, Caches, BackendConfigs}
use nghttpx_ingress_lb.Controller.Credentials.{slashed}
use nghttpx_ingress_lb.Controller.Upstreams.Paths.{
  normalized_path, path_backends, upstream_name, path_upstream, path_loop, rule_paths, rule_loop,
  upstream_with,
}

-- the value, if it is there, in front of the list
abbrev pub or_skip {ℓ} : {A : Type ℓ} → Option A → List A → List A
or_skip none l = l
or_skip (some a) l = a ∷ l

-- The path is skipped if it is neither empty nor starts with a slash, and is else normalised.
normalized_path_cases :
    (path : String)
    → (normalized_path path ≡ none)
      ⊎ ((n : String) × (normalized_path path ≡ some n)
          × (((path ≡ "") × (n ≡ "/")) ⊎ ((starts_with path "/" ≡ true) × (n ≡ path))))
unfolding normalized_path
normalized_path_cases path = elim (Bool-cases (path =s "")) [
  | inl e ↦ inr ("/", rw e, inl ((eq_iff path "").0 e, refl))
  | inr e ↦ elim (Bool-cases (starts_with path "/")) [
    | inl k ↦ inr (path, rw (e, k), inr (k, refl))
    | inr k ↦ inl (rw (e, k))
  ]
]

module _ (lib : Libraries) (cache : Caches) (lbc : LoadBalancerController) where
  module _ (ing : Ingress) (require_tls : Bool) (configs : BackendConfigs) where
    -- The upstream `u` is the one of the path `p` of a rule for `host`.
    pub record IsUpstreamFor (host : String) (p : HttpIngressPath) (u : Upstream) : Type 0 where
      pub normalized :
          ((p.path ≡ "") × (u.path ≡ "/")) ⊎ ((starts_with p.path "/" ≡ true) × (u.path ≡ p.path))
      pub host_kept : u.host ≡ host
      pub named : u.name ≡ upstream_name lib cache ing p host u.path
      pub redirects : u.redirect_if_not_tls ≡ (require_tls || not (lbc.default_tls_secret =s ""))
      pub served :
          u.backends
          ≡ path_backends lib cache configs p
              (cache.service (slashed ing.namespace p.backend.service_name))
      pub nonempty : u.backends ≢ []

    upstream_with-IsUpstreamFor :
        (host : String) (p : HttpIngressPath) (n : String) (bs : List UpstreamServer) (u : Upstream)
        → ((p.path ≡ "") × (n ≡ "/")) ⊎ ((starts_with p.path "/" ≡ true) × (n ≡ p.path))
        → bs
          ≡ path_backends lib cache configs p
              (cache.service (slashed ing.namespace p.backend.service_name))
        → upstream_with lib cache lbc ing require_tls configs host p n bs ≡ some u
        → IsUpstreamFor host p u
    unfolding upstream_with
    upstream_with-IsUpstreamFor host p n [] u c e h = cc
    upstream_with-IsUpstreamFor host p n (b ∷ bs) u c e h =
        let same = some-injective _ _ h in
        subst (IsUpstreamFor host p) same (record {
          normalized = c;
          host_kept = refl;
          named = refl;
          redirects = refl;
          served = e;
          nonempty = λ k. cc;
        })

    abbrev upstream_at : String → HttpIngressPath → Option Upstream
    upstream_at = path_upstream lib cache lbc ing require_tls configs

    path_upstream-IsUpstreamFor :
        (host : String) (p : HttpIngressPath) (u : Upstream)
        → upstream_at host p ≡ some u
        → IsUpstreamFor host p u
    unfolding path_upstream
    path_upstream-IsUpstreamFor host p u h = elim (normalized_path_cases p.path) [
      | inl e ↦ let none_some : none ≡ some u = rw (e, path_upstream) at h in cc
      | inr (n, e, c) ↦ upstream_with-IsUpstreamFor host p n _ u c refl (rw (e, path_upstream) at h)
    ]

    abbrev pub path_upstreams : String → List HttpIngressPath → List Upstream
    path_upstreams host [] = []
    path_upstreams host (p ∷ ps) = or_skip (upstream_at host p) (path_upstreams host ps)

    abbrev pub http_upstreams : String → Option (List HttpIngressPath) → List Upstream
    http_upstreams host none = []
    http_upstreams host (some paths) = path_upstreams host paths

    abbrev pub rule_upstreams : List IngressRule → List Upstream
    rule_upstreams [] = []
    rule_upstreams (r ∷ rs) = http_upstreams r.host r.http ++ rule_upstreams rs

    path_loop-append :
        (host : String) (ps : List HttpIngressPath) (us : List Upstream)
        → path_loop lib cache lbc ing require_tls configs host ps us ≡ us ++ path_upstreams host ps
    unfolding path_loop
    path_loop-append host [] us = sym (append-nil us)
    path_loop-append host (p ∷ ps) us = elim (Option-cases (upstream_at host p)) [
      | inl e ↦ rw e (path_loop-append host ps us)
      | inr (u, e) ↦ rw e (path_loop-append host ps (us ++ u ∷ []) ∙ append_assoc us (u ∷ []) _)
    ]

    rule_paths-append :
        (host : String) (http : Option (List HttpIngressPath)) (us : List Upstream)
        → rule_paths lib cache lbc ing require_tls configs host http us
          ≡ us ++ http_upstreams host http
    unfolding rule_loop
    rule_paths-append host none us = sym (append-nil us)
    rule_paths-append host (some paths) us = path_loop-append host paths us

    -- The loops over the rules and their paths append the upstreams of the paths that are not skipped.
    pub rule_loop-append :
        (rs : List IngressRule) (us : List Upstream)
        → rule_loop lib cache lbc ing require_tls configs rs us ≡ us ++ rule_upstreams rs
    unfolding rule_loop
    rule_loop-append [] us = sym (append-nil us)
    rule_loop-append (r ∷ rs) us = rw (rule_paths-append r.host r.http us) (
        rule_loop-append rs (us ++ http_upstreams r.host r.http)
        ∙ append_assoc us (http_upstreams r.host r.http) (rule_upstreams rs))

    module _ (Q : Upstream → Type 0) where
      or_skip-All :
          (o : Option Upstream) (us : List Upstream)
          → ((u : Upstream) → o ≡ some u → Q u)
          → All Q us
          → All Q (or_skip o us)
      or_skip-All none us f h = h
      or_skip-All (some u) us f h = (f u refl, h)

      path_upstreams-All :
          (host : String) (ps : List HttpIngressPath)
          → All (λ p. (u : Upstream) → upstream_at host p ≡ some u → Q u) ps
          → All Q (path_upstreams host ps)
      path_upstreams-All host [] h = tt
      path_upstreams-All host (p ∷ ps) h =
          or_skip-All (upstream_at host p) (path_upstreams host ps) h.0
            (path_upstreams-All host ps h.1)

      http_upstreams-All :
          (host : String) (http : Option (List HttpIngressPath))
          → ((paths : List HttpIngressPath)
              → http ≡ some paths
              → All (λ p. (u : Upstream) → upstream_at host p ≡ some u → Q u) paths)
          → All Q (http_upstreams host http)
      http_upstreams-All host none f = tt
      http_upstreams-All host (some paths) f = path_upstreams-All host paths (f paths refl)

      -- What holds of the upstream of every path holds of every upstream of the rules.
      pub rule_upstreams-All :
          (rs : List IngressRule)
          → All
              (λ r.
                (paths : List HttpIngressPath)
                → r.http ≡ some paths
                → All (λ p. (u : Upstream) → upstream_at r.host p ≡ some u → Q u) paths)
              rs
          → All Q (rule_upstreams rs)
      rule_upstreams-All [] h = tt
      rule_upstreams-All (r ∷ rs) h =
          All-append Q (http_upstreams r.host r.http) (rule_upstreams rs)
            (http_upstreams-All r.host r.http h.0) (rule_upstreams-All rs h.1)

    -- `u` is the upstream of a path of one of the rules.
    pub data FromPath (rs : List IngressRule) (u : Upstream) : Type 0 where
      from_path :
          (r : IngressRule) (paths : List HttpIngressPath) (p : HttpIngressPath)
          → Memᴰ r rs
          → r.http ≡ some paths
          → Memᴰ p paths
          → IsUpstreamFor r.host p u
          → FromPath rs u

    pub rule_upstreams-FromPath : (rs : List IngressRule) → All (FromPath rs) (rule_upstreams rs)
    rule_upstreams-FromPath rs = rule_upstreams-All (FromPath rs) rs (
        All-map rs
          (λ r m paths e.
            All-map paths
              (λ p k u f. from_path r paths p m e k (path_upstream-IsUpstreamFor r.host p u f))
              (All-mem paths))
          (All-mem rs))
