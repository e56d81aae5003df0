-- ===== src/Controller/Upstreams/Untouched.antt =====
-- Which files the credentials of a configuration are: none outside of their directory.

use nghttpx_ingress_lb.Common.{
  ◌≡◌, ◌∙◌, sym, refl, String, false, Option, none, some, List, [], ◌∷◌, All, All-map, All-append,
  ok, Try, failed, got, ok_injective, arith, Bool-cases, inl, inr, ◌>>=◌, try,
}
use nghttpx_ingress_lb.Common.Text.{◌=s◌, starts_with}
use nghttpx_ingress_lb.Api.{Ingress}
use nghttpx_ingress_lb.Nghttpx.Types.{TlsCred, IngressConfig}
use nghttpx_ingress_lb.Nghttpx.Tls.{tls_directory}
use nghttpx_ingress_lb.Nghttpx.Reload.Retry.{Untouched, NotDefault, NotOf}
use nghttpx_ingress_lb.Controller.Env.{LoadBalancerController}
use nghttpx_ingress_lb.Controller.Annotation.{validate_ingress_class}
use nghttpx_ingress_lb.Controller.Credentials.{get_tls_cred_from_secret, get_tls_cred_from_ingress}
use nghttpx_ingress_lb.Controller.Credentials.Directory.{
  in_directory, IsInDirectory, get_tls_cred_from_secret-IsInDirectory,
  get_tls_cred_from_ingress-IsInDirectory,
}
use nghttpx_ingress_lb.Controller.Upstreams.{Environment, default_cred, get_upstream_servers}
use nghttpx_ingress_lb.Controller.Upstreams.Creds.Laws.{default_list, arrange_creds-All}
use nghttpx_ingress_lb.Controller.Upstreams.Collected.{pems_with, ingress_pems, all_pems}
use nghttpx_ingress_lb.Controller.Upstreams.Assembled.{
  get_upstream_servers-assembled, assembled-eq-ok,
}

module _ (env : Environment) (lbc : LoadBalancerController) where
  open env use {crypto, cache, sorter, num_cpu}

  pems_with-IsInDirectory :
      (ing : Ingress) (r : Try (List TlsCred))
      → get_tls_cred_from_ingress crypto cache ing ≡ r
      → All IsInDirectory (pems_with env lbc r)
  pems_with-IsInDirectory ing (got pems) e =
      get_tls_cred_from_ingress-IsInDirectory crypto cache ing pems e
  pems_with-IsInDirectory ing (failed m) e = tt

  ingress_pems-IsInDirectory : (ing : Ingress) → All IsInDirectory (ingress_pems env lbc ing)
  unfolding ingress_pems
  ingress_pems-IsInDirectory ing = elim (Bool-cases (validate_ingress_class lbc ing)) [
    | inl e ↦ rw e (pems_with-IsInDirectory ing _ refl)
    | inr e ↦ rw e tt
  ]

  all_pems-IsInDirectory : (ings : List Ingress) → All IsInDirectory (all_pems env lbc ings)
  unfolding all_pems
  all_pems-IsInDirectory [] = tt
  all_pems-IsInDirectory (ing ∷ rest) =
      All-append IsInDirectory (ingress_pems env lbc ing) (all_pems env lbc rest)
        (ingress_pems-IsInDirectory ing) (all_pems-IsInDirectory rest)

  from_secret :
      (r : Try TlsCred) (cred : Option TlsCred)
      → get_tls_cred_from_secret crypto cache lbc.default_tls_secret ≡ r
      → (try r >>= λ d. ok (some d)) ≡ ok cred
      → All IsInDirectory (default_list cred)
  from_secret (failed m) cred e h = cc
  from_secret (got d) cred e h =
      rw (← ok_injective h)
        (get_tls_cred_from_secret-IsInDirectory crypto cache lbc.default_tls_secret d e, tt)

  default_cred-IsInDirectory :
      (cred : Option TlsCred)
      → default_cred env lbc ≡ ok cred
      → All IsInDirectory (default_list cred)
  unfolding default_cred
  default_cred-IsInDirectory cred e = elim (Bool-cases (lbc.default_tls_secret =s "")) [
    | inl k ↦ rw (← ok_injective (rw k at e)) tt
    | inr k ↦ from_secret _ cred refl (rw k at e)
  ]

  not_in_directory :
      (p : String) (c : TlsCred) → starts_with p tls_directory ≡ false → IsInDirectory c → NotOf p c
  not_in_directory p c f h = (
    (λ e. let k : starts_with c.key.path tls_directory ≡ false = rw (← e) f in ground arith),
    λ e. let k : starts_with c.cert.path tls_directory ≡ false = rw (← e) f in ground arith,
  )

  NotDefault-list :
      (p : String) (o : Option TlsCred)
      → starts_with p tls_directory ≡ false
      → All IsInDirectory (default_list o)
      → NotDefault p o
  NotDefault-list p none f h = tt
  NotDefault-list p (some d) f h = not_in_directory p d f h.0

  -- A file whose path does not begin with that of the directory of the credentials is not a file of the
  -- credentials of a configuration that `getUpstreamServers` returns.
  pub get_upstream_servers-Untouched :
      (ings : List Ingress) (config : IngressConfig) (p : String)
      → starts_with p tls_directory ≡ false
      → get_upstream_servers env lbc ings ≡ ok config
      → Untouched p config
  get_upstream_servers-Untouched ings config p f h =
      let (cred, c, vs, d, a, same) =
        assembled-eq-ok env lbc _ _ _ config
          (sym (get_upstream_servers-assembled env lbc ings) ∙ h) in
      let (default, subs) =
        arrange_creds-All in_directory sorter cred (all_pems env lbc ings) num_cpu c
          (default_cred-IsInDirectory cred d) (all_pems-IsInDirectory ings) a in
      rw same (
        NotDefault-list p c.default_tls_cred f default,
        All-map c.sub_tls_cred (λ s k. not_in_directory p s f k) subs,
      )
