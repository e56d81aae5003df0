-- ===== src/Controller/Upstreams/Frame.antt =====
-- What `getUpstreamServers` reads of the caches.
use nghttpx_ingress_lb.Common.{
  ◌≡◌, refl, true, List, [], ◌∷◌, All, Try, failed, got, inl, inr, Bool-cases, fun_ext,
}
use nghttpx_ingress_lb.Api.{Ingress}
use nghttpx_ingress_lb.Nghttpx.Types.{Upstream, TlsCred}
use nghttpx_ingress_lb.Controller.Env.{LoadBalancerController, Caches}
use nghttpx_ingress_lb.Controller.Annotation.{validate_ingress_class}
use nghttpx_ingress_lb.Controller.Credentials.{slashed, get_tls_cred_from_ingress}
use nghttpx_ingress_lb.Controller.Credentials.Frame.{
  get_tls_cred_from_secret-same_secrets, get_tls_cred_from_ingress-same_secrets,
}
use nghttpx_ingress_lb.Controller.Upstreams.{
  Environment, ingress_round, ingress_loop, default_cred, with_default, unique_loop,
  get_upstream_servers,
}
use nghttpx_ingress_lb.Controller.Upstreams.Paths.Frame.{
  SameService, SameForRules, rule_loop-same, get_default_upstream-same,
}

module _ (env : Environment) (lbc : LoadBalancerController) (cache : Caches) where
  abbrev other : Environment
  other = record env { cache = cache }

  -- The caches give the same for the secrets of an ingress of this controller's class and for the services
  -- of its paths.
  pub record SameForIngress (ing : Ingress) : Type 0 where
    pub secrets :
        All
          (λ s. cache.secret (slashed ing.namespace s) ≡ env.cache.secret (slashed ing.namespace s))
          ing.tls
    pub services : SameForRules env.lib env.cache cache ing.namespace ing.rules

  ingress_round-same :
      (ing : Ingress) (acc : List Upstream × List TlsCred) (t : Try (List TlsCred))
      → SameForIngress ing
      → ingress_round other lbc ing acc t ≡ ingress_round env lbc ing acc t
  unfolding ingress_round
  ingress_round-same ing acc (failed e) same = refl
  ingress_round-same ing (us, pems) (got creds) same =
      rw (rule_loop-same env.lib env.cache cache lbc ing _ _ ing.rules us same.services) refl

  unique_loop-same : (us : List Upstream) → unique_loop other lbc us ≡ unique_loop env lbc us
  unfolding unique_loop
  unique_loop-same [] = refl
  unique_loop-same (u ∷ us) = rw (unique_loop-same us) refl

  default_cred-same :
      cache.secret lbc.default_tls_secret ≡ env.cache.secret lbc.default_tls_secret
      → default_cred other lbc ≡ default_cred env lbc
  unfolding default_cred
  default_cred-same h =
      rw (get_tls_cred_from_secret-same_secrets env.crypto env.cache cache lbc.default_tls_secret h)
        refl

  ingress_loop-same :
      (ings : List Ingress) (acc : List Upstream × List TlsCred)
      → All (λ ing. validate_ingress_class lbc ing ≡ true → SameForIngress ing) ings
      → ingress_loop other lbc ings acc ≡ ingress_loop env lbc ings acc
  unfolding ingress_loop
  ingress_loop-same [] acc h = refl
  ingress_loop-same (ing ∷ rest) acc (h, hs) = elim (Bool-cases (validate_ingress_class lbc ing)) [
    | inl v ↦
        rw
          (
            v,
            get_tls_cred_from_ingress-same_secrets env.crypto env.cache cache ing (h v).secrets,
            ingress_round-same ing acc (get_tls_cred_from_ingress env.crypto env.cache ing) (h v),
          )
          (ingress_loop-same rest _ hs)
    | inr v ↦ rw v (ingress_loop-same rest acc hs)
  ]

  -- `getUpstreamServers` reads the default secret, the default service, and of the ingresses of this
  -- controller's class the secrets and the services; of a service its pods and endpoints; and no more.
  pub get_upstream_servers-same :
      (ings : List Ingress)
      → cache.secret lbc.default_tls_secret ≡ env.cache.secret lbc.default_tls_secret
      → SameService env.lib env.cache cache lbc.default_svc
      → All (λ ing. validate_ingress_class lbc ing ≡ true → SameForIngress ing) ings
      → get_upstream_servers other lbc ings ≡ get_upstream_servers env lbc ings
  unfolding get_upstream_servers with_default
  get_upstream_servers-same ings secret service each =
      let unique : unique_loop other lbc ≡ unique_loop env lbc = fun_ext unique_loop-same in
      rw (ingress_loop-same ings ([], []) each, default_cred-same secret)
        (rw (get_default_upstream-same env.lib env.cache cache lbc service, unique) refl)
