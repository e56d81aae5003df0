-- ===== src/Controller/Upstreams/Collected.antt =====
-- What the loop over the ingresses collects: each ingress's own share, in order.
use mathlib.Core.List.{append_assoc, append-nil, Memᴰ}
use nghttpx_ingress_lb.Common.{
  ◌≡◌, refl, true, List, [], ◌∷◌, ◌++◌, not, any, All, All-append, All-map, All-mem, Bool-cases,
  inl, inr, if◌then◌else◌, Try, failed, got,
}
use nghttpx_ingress_lb.Api.{Ingress}
use nghttpx_ingress_lb.Nghttpx.Types.{TlsCred, Upstream}
use nghttpx_ingress_lb.Controller.Env.{LoadBalancerController}
use nghttpx_ingress_lb.Controller.Annotation.{validate_ingress_class, get_backend_config}
use nghttpx_ingress_lb.Controller.Credentials.{get_tls_cred_from_ingress}
use nghttpx_ingress_lb.Controller.Upstreams.{Environment, ingress_round, ingress_loop}
use nghttpx_ingress_lb.Controller.Upstreams.Paths.Laws.{
  rule_upstreams, rule_loop-append, FromPath, rule_upstreams-FromPath,
}

module _ (env : Environment) (lbc : LoadBalancerController) where
  open env use {lib, crypto, cache}

  -- the upstreams of an ingress whose secrets are `r`
  abbrev pub upstreams_with : Ingress → Try (List TlsCred) → List Upstream
  upstreams_with ing (got pems) =
      rule_upstreams lib cache lbc ing (any (λ _. true) pems)
        (get_backend_config lib ing.annotations) ing.rules
  upstreams_with ing (failed e) = []

  abbrev pub pems_with : Try (List TlsCred) → List TlsCred
  pems_with (got pems) = pems
  pems_with (failed e) = []

  -- the upstreams and the credentials that an ingress adds
  unfoldable pub ingress_upstreams : Ingress → List Upstream
  ingress_upstreams ing =
      if not (validate_ingress_class lbc ing)
      then []
      else upstreams_with ing (get_tls_cred_from_ingress crypto cache ing)

  unfoldable pub ingress_pems : Ingress → List TlsCred
  ingress_pems ing =
      if not (validate_ingress_class lbc ing)
      then []
      else pems_with (get_tls_cred_from_ingress crypto cache ing)

  unfoldable pub all_upstreams : List Ingress → List Upstream
  all_upstreams [] = []
  all_upstreams (ing ∷ rest) = ingress_upstreams ing ++ all_upstreams rest

  unfoldable pub all_pems : List Ingress → List TlsCred
  all_pems [] = []
  all_pems (ing ∷ rest) = ingress_pems ing ++ all_pems rest

  round-append :
      (ing : Ingress) (us : List Upstream) (ps : List TlsCred) (r : Try (List TlsCred))
      → ingress_round env lbc ing (us, ps) r ≡ (us ++ upstreams_with ing r, ps ++ pems_with r)
  unfolding ingress_round
  round-append ing us ps (got pems) = rw (rule_loop-append lib cache lbc ing _ _ ing.rules us)
  round-append ing us ps (failed e) = rw (append-nil us, append-nil ps)

  step-append :
      (ing : Ingress) (us : List Upstream) (ps : List TlsCred)
      → (if not (validate_ingress_class lbc ing)
          then (us, ps)
          else ingress_round env lbc ing (us, ps) (get_tls_cred_from_ingress crypto cache ing))
        ≡ (us ++ ingress_upstreams ing, ps ++ ingress_pems ing)
  unfolding ingress_upstreams ingress_pems
  step-append ing us ps = elim (Bool-cases (validate_ingress_class lbc ing)) [
    | inl e ↦ rw e (round-append ing us ps _)
    | inr e ↦ rw e (rw (append-nil us, append-nil ps))
  ]

  pub ingress_loop-append :
      (ings : List Ingress) (us : List Upstream) (ps : List TlsCred)
      → ingress_loop env lbc ings (us, ps) ≡ (us ++ all_upstreams ings, ps ++ all_pems ings)
  unfolding ingress_loop all_upstreams all_pems
  ingress_loop-append [] us ps = rw (append-nil us, append-nil ps)
  ingress_loop-append (ing ∷ rest) us ps =
      rw (step-append ing us ps) (rw (ingress_loop-append rest, append_assoc us, append_assoc ps))

  -- `u` is the upstream of a path of an ingress of this controller's class whose secrets are in order.
  pub data FromIngress (ings : List Ingress) (u : Upstream) : Type 0 where
    from_ingress :
        (ing : Ingress) (pems : List TlsCred)
        → Memᴰ ing ings
        → validate_ingress_class lbc ing ≡ true
        → get_tls_cred_from_ingress crypto cache ing ≡ got pems
        → FromPath lib cache lbc ing
            (any (λ _. true) pems)
            (get_backend_config lib ing.annotations)
            ing.rules
            u
        → FromIngress ings u

  upstreams_with-FromIngress :
      (ing : Ingress) (ings : List Ingress) (r : Try (List TlsCred))
      → Memᴰ ing ings
      → validate_ingress_class lbc ing ≡ true
      → get_tls_cred_from_ingress crypto cache ing ≡ r
      → All (FromIngress ings) (upstreams_with ing r)
  upstreams_with-FromIngress ing ings (got pems) m v e =
      All-map (upstreams_with ing (got pems)) (λ u f. from_ingress ing pems m v e f)
        (rule_upstreams-FromPath lib cache lbc ing _ _ ing.rules)
  upstreams_with-FromIngress ing ings (failed e') m v e = tt

  ingress_upstreams-FromIngress :
      (ing : Ingress) (ings : List Ingress)
      → Memᴰ ing ings
      → All (FromIngress ings) (ingress_upstreams ing)
  unfolding ingress_upstreams
  ingress_upstreams-FromIngress ing ings m = elim (Bool-cases (validate_ingress_class lbc ing)) [
    | inl e ↦ rw e (upstreams_with-FromIngress ing ings _ m e refl)
    | inr e ↦ rw e tt
  ]

  all_upstreams-All :
      (Q : Upstream → Type 0) (ings : List Ingress)
      → All (λ ing. All Q (ingress_upstreams ing)) ings
      → All Q (all_upstreams ings)
  unfolding all_upstreams
  all_upstreams-All Q [] h = tt
  all_upstreams-All Q (ing ∷ rest) h =
      All-append Q (ingress_upstreams ing) (all_upstreams rest) h.0 (all_upstreams-All Q rest h.1)

  pub all_upstreams-FromIngress :
      (ings : List Ingress) → All (FromIngress ings) (all_upstreams ings)
  all_upstreams-FromIngress ings =
      all_upstreams-All (FromIngress ings) ings
        (All-map ings (λ ing m. ingress_upstreams-FromIngress ing ings m) (All-mem ings))
