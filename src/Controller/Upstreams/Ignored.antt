-- ===== src/Controller/Upstreams/Ignored.antt =====
-- The ingresses that do not change what `getUpstreamServers` returns.
use mathlib.Core.List.{Memᴰ}
use nghttpx_ingress_lb.Common.{
  String, ◌≡◌, ◌⊎◌, inl, inr, false, List, [], ◌∷◌, ◌++◌, Bool-cases, failed,
}
use nghttpx_ingress_lb.Api.{Ingress}
use nghttpx_ingress_lb.Controller.Env.{LoadBalancerController}
use nghttpx_ingress_lb.Controller.Annotation.{validate_ingress_class}
use nghttpx_ingress_lb.Controller.Credentials.{get_tls_cred_from_ingress}
use nghttpx_ingress_lb.Controller.Upstreams.{Environment, get_upstream_servers}
use nghttpx_ingress_lb.Controller.Upstreams.Collected.{
  all_upstreams, all_pems, ingress_upstreams, ingress_pems, ingress_loop-append,
}
use nghttpx_ingress_lb.Controller.Annotation.Laws.{IsForeign, validate_ingress_class_of_IsForeign}
use nghttpx_ingress_lb.Controller.Credentials.{slashed}
use nghttpx_ingress_lb.Controller.Credentials.Unusable.{IsUnusable, get_tls_cred_from_ingress-Fails}

module _ (env : Environment) (lbc : LoadBalancerController) where
  open env use {crypto, cache}

  -- Its class is another controller's, or one of its secrets cannot be used.
  abbrev pub IsIgnored : Ingress → Type 0
  IsIgnored ing =
      (validate_ingress_class lbc ing ≡ false)
      ⊎ ((m : String) × (get_tls_cred_from_ingress crypto cache ing ≡ failed m))

  ingress_upstreams_of_IsIgnored :
      (ing : Ingress) → IsIgnored ing → ingress_upstreams env lbc ing ≡ []
  unfolding ingress_upstreams
  ingress_upstreams_of_IsIgnored ing (inl e) = rw e
  ingress_upstreams_of_IsIgnored ing (inr (m, e)) =
      elim (Bool-cases (validate_ingress_class lbc ing)) [ inl v ↦ rw (v, e) | inr v ↦ rw v ]

  ingress_pems_of_IsIgnored : (ing : Ingress) → IsIgnored ing → ingress_pems env lbc ing ≡ []
  unfolding ingress_pems
  ingress_pems_of_IsIgnored ing (inl e) = rw e
  ingress_pems_of_IsIgnored ing (inr (m, e)) = elim (Bool-cases (validate_ingress_class lbc ing)) [
    | inl v ↦ rw (v, e)
    | inr v ↦ rw v
  ]

  all_upstreams_of_IsIgnored :
      (xs : List Ingress) (ing : Ingress) (ys : List Ingress)
      → IsIgnored ing
      → all_upstreams env lbc (xs ++ ing ∷ ys) ≡ all_upstreams env lbc (xs ++ ys)
  unfolding all_upstreams
  all_upstreams_of_IsIgnored [] ing ys h = rw (ingress_upstreams_of_IsIgnored ing h)
  all_upstreams_of_IsIgnored (x ∷ xs) ing ys h = rw (all_upstreams_of_IsIgnored xs ing ys h)

  all_pems_of_IsIgnored :
      (xs : List Ingress) (ing : Ingress) (ys : List Ingress)
      → IsIgnored ing
      → all_pems env lbc (xs ++ ing ∷ ys) ≡ all_pems env lbc (xs ++ ys)
  unfolding all_pems
  all_pems_of_IsIgnored [] ing ys h = rw (ingress_pems_of_IsIgnored ing h)
  all_pems_of_IsIgnored (x ∷ xs) ing ys h = rw (all_pems_of_IsIgnored xs ing ys h)

  pub get_upstream_servers_of_IsIgnored :
      (xs : List Ingress) (ing : Ingress) (ys : List Ingress)
      → IsIgnored ing
      → get_upstream_servers env lbc (xs ++ ing ∷ ys) ≡ get_upstream_servers env lbc (xs ++ ys)
  unfolding get_upstream_servers
  get_upstream_servers_of_IsIgnored xs ing ys h =
      rw
        (
          ingress_loop-append env lbc (xs ++ ing ∷ ys) [] [],
          ingress_loop-append env lbc (xs ++ ys) [] [],
        )
        (rw (all_upstreams_of_IsIgnored xs ing ys h, all_pems_of_IsIgnored xs ing ys h))

  -- An ingress whose class is neither empty nor this controller's, or one of whose TLS secrets is of no use
  -- (it is missing or cannot be read, or it has no certificate or no private key, or one that does not
  -- parse), does not change the outcome, wherever it stands among the others.
  pub get_upstream_servers_of_IsForeign :
      (xs : List Ingress) (ing : Ingress) (ys : List Ingress)
      → IsForeign lbc ing
        ⊎ ((name : String) × Memᴰ name ing.tls
            × IsUnusable crypto (cache.secret (slashed ing.namespace name)))
      → get_upstream_servers env lbc (xs ++ ing ∷ ys) ≡ get_upstream_servers env lbc (xs ++ ys)
  get_upstream_servers_of_IsForeign xs ing ys (inl foreign) =
      get_upstream_servers_of_IsIgnored xs ing ys
        (inl (validate_ingress_class_of_IsForeign lbc ing foreign))
  get_upstream_servers_of_IsForeign xs ing ys (inr (name, m, u)) =
      get_upstream_servers_of_IsIgnored xs ing ys
        (inr (get_tls_cred_from_ingress-Fails crypto cache ing name m u))
