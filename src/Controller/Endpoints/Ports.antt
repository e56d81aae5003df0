-- ===== src/Controller/Endpoints/Ports.antt =====
-- Which endpoint port a service's port matches, and where no endpoint does.
use mathlib.Core.Option.{some-injective}
use nghttpx_ingress_lb.Common.{
  String, ◌≡◌, ◌≢◌, ◌↔◌, ◌⊎◌, inl, inr, refl, sym, ap, ◌∙◌, true, false, Option, none, some, Try,
  failed, got, got_injective, Bool-cases, if◌then◌else◌,
}
use nghttpx_ingress_lb.Common.Int.{ℤ, pos, ◌=i◌, =i_iff, to_int32, atoi}
use nghttpx_ingress_lb.Common.Text.{◌=s◌, eq_iff}
use nghttpx_ingress_lb.Api.{IntOrString, int, str, Service, ServicePort, EndpointPort}
use nghttpx_ingress_lb.Controller.Env.{Caches, Libraries}
use nghttpx_ingress_lb.Controller.Endpoints.{
  matched_port, target_port_for, named_port, get_named_port_from_pod,
}

module _ (lib : Libraries) (cache : Caches) (svc : Service) (service_port : ServicePort) where
  -- The target port is `port`: as a number, as a text of one, or by the name that a pod gives it.
  abbrev pub Targets : IntOrString → ℤ → Type 0
  Targets (int wanted) port = wanted ≡ port
  Targets (str text) port =
      (text ≢ "")
      × (((n : ℤ) × (atoi text ≡ some n) × (to_int32 n ≡ port))
          ⊎ ((atoi text ≡ none) × (get_named_port_from_pod lib cache svc service_port ≡ got port)))

  abbrev named_of : Option ℤ → Try ℤ → Option ℤ
  named_of (some n) t = some (to_int32 n)
  named_of none (got port) = some port
  named_of none (failed m) = none

  named_of_iff :
      (o : Option ℤ) (t : Try ℤ) (port : ℤ)
      → (named_of o t ≡ some port)
        ↔ (((n : ℤ) × (o ≡ some n) × (to_int32 n ≡ port)) ⊎ ((o ≡ none) × (t ≡ got port)))
  named_of_iff (some n) t port = (
    λ e. inl (n, refl, some-injective _ _ e),
    λ c. elim c [ inl (m, e, k) ↦ rw (some-injective _ _ e) (ap some k) | inr (e, k) ↦ cc ],
  )
  named_of_iff none (got q) port = (
    λ e. inr (refl, ap got (some-injective _ _ e)),
    λ c. elim c [ inl (m, e, k) ↦ cc | inr (e, k) ↦ ap some (got_injective k) ],
  )
  named_of_iff none (failed m) port =
      (λ e. cc, λ c. elim c [ inl (m, e, k) ↦ cc | inr (e, k) ↦ cc ])

  named_port-eq :
      (text : String)
      → named_port lib cache svc service_port text
        ≡ named_of (atoi text) (get_named_port_from_pod lib cache svc service_port)
  unfolding named_port
  named_port-eq text = cases (atoi text) (get_named_port_from_pod lib cache svc service_port)
    where
      cases :
          (o : Option ℤ) (t : Try ℤ)
          → elim o [
            | some p ↦ some (to_int32 p)
            | none ↦ elim t [ got port ↦ some port | failed _ ↦ none ]
          ]
            ≡ named_of o t
      cases (some n) t = refl
      cases none (got q) = refl
      cases none (failed m) = refl

  abbrev nonzero : ℤ → Option ℤ
  nonzero port = if port =i pos 0 then none else some port

  nonzero_iff : (x q : ℤ) → (nonzero x ≡ some q) ↔ ((x ≡ q) × (q ≢ pos 0))
  nonzero_iff x q = elim (Bool-cases (x =i pos 0)) [
    | inl e ↦ rw e (λ k. cc, λ k. absurd (k.1 (rw (← k.0) ((=i_iff x (pos 0)).0 e))))
    | inr e ↦ rw e (
      λ k.
          let same : x ≡ q = some-injective _ _ k in
          (same, λ z. let h : true ≡ false = rw (← (=i_iff x (pos 0)).1 (same ∙ z)) e in cc),
      λ k. ap some k.0,
    )
  ]

  -- The port that is left of `x` where the endpoint's port is compared with `wanted`.
  compared_iff :
      (ep wanted x q : ℤ)
      → (ep ≡ wanted → x ≡ wanted)
      → (nonzero (if ep =i wanted then x else pos 0) ≡ some q)
        ↔ ((ep ≡ q) × (q ≢ pos 0) × (wanted ≡ q))
  compared_iff ep wanted x q f = elim (Bool-cases (ep =i wanted)) [
    | inl e ↦
        let same = (=i_iff ep wanted).0 e in
        rw e (
          λ k.
              let (h, nz) = (nonzero_iff x q).0 k in
              (same ∙ (sym (f same) ∙ h), nz, sym (f same) ∙ h),
          λ k. (nonzero_iff x q).1 (f same ∙ k.2, k.1),
        )
    | inr e ↦
        rw e
          (λ k. cc, λ k. let h : true ≡ false = rw (← (=i_iff ep wanted).1 (k.0 ∙ sym k.2)) e in cc)
  ]

  abbrev left_of : Option ℤ → Option ℤ
  left_of none = none
  left_of (some port) = nonzero port

  compared_named_iff :
      (ep q : ℤ) (n : Option ℤ)
      → (left_of (elim n [ none ↦ none | some port ↦ some (if ep =i port then port else pos 0) ])
          ≡ some q)
        ↔ ((ep ≡ q) × (q ≢ pos 0) × (n ≡ some q))
  compared_named_iff ep q none = (λ k. cc, λ k. cc)
  compared_named_iff ep q (some port) =
      let c = compared_iff ep port port q (λ e. refl) in
      (
        λ k. let (h, nz, e) = c.0 k in (h, nz, ap some e),
        λ k. c.1 (k.0, k.1, some-injective _ _ k.2),
      )

  named_port_iff :
      (text : String) (q : ℤ)
      → (named_port lib cache svc service_port text ≡ some q) ↔ (
          ((n : ℤ) × (atoi text ≡ some n) × (to_int32 n ≡ q))
          ⊎ ((atoi text ≡ none) × (get_named_port_from_pod lib cache svc service_port ≡ got q)))
  named_port_iff text q = rw (named_port-eq text) (named_of_iff (atoi text) _ q)

  target_port_iff :
      (t : IntOrString) (ep : EndpointPort) (q : ℤ)
      → (left_of (target_port_for lib cache svc service_port t ep) ≡ some q)
        ↔ ((ep.port ≡ q) × (q ≢ pos 0) × Targets t q)
  unfolding target_port_for
  target_port_iff (int wanted) ep q = compared_iff ep.port wanted ep.port q (λ e. e)
  target_port_iff (str text) ep q =
      let c = compared_named_iff ep.port q (named_port lib cache svc service_port text) in
      let n = named_port_iff text q in
      elim (Bool-cases (text =s "")) [
        | inl e ↦ rw e (λ k. cc, λ k. absurd (k.2.0 ((eq_iff text "").0 e)))
        | inr e ↦ rw e (
          λ k.
              let (h, nz, m) = c.0 k in
              (h, nz, (λ z. let b : true ≡ false = rw (← (eq_iff text "").1 z) e in cc, n.0 m)),
          λ k. c.1 (k.0, k.1, n.1 k.2.1),
        )
      ]

  matched_port-eq :
      (proto : String) (ep : EndpointPort)
      → matched_port lib cache svc service_port proto ep ≡ (
          if ep.protocol =s proto
          then left_of (target_port_for lib cache svc service_port service_port.target_port ep)
          else none)
  unfolding matched_port
  matched_port-eq proto ep =
      cases (target_port_for lib cache svc service_port service_port.target_port ep)
    where
      cases :
          (o : Option ℤ)
          → (if ep.protocol =s proto
              then elim o [ none ↦ none | some port ↦ if port =i pos 0 then none else some port ]
              else none)
            ≡ (if ep.protocol =s proto then left_of o else none)
      cases none = refl
      cases (some port) = refl

  -- An endpoint's port is used exactly if its protocol is the wanted one and its number is not 0 and
  -- is the one that the service's target port stands for; that number is then the server's port.
  pub matched_port-eq-some_iff :
      (proto : String) (ep : EndpointPort) (q : ℤ)
      → (matched_port lib cache svc service_port proto ep ≡ some q)
        ↔ ((ep.protocol ≡ proto) × (ep.port ≡ q) × (q ≢ pos 0) × Targets service_port.target_port q)
  matched_port-eq-some_iff proto ep q =
      let t = target_port_iff service_port.target_port ep q in
      let p = eq_iff ep.protocol proto in
      rw (matched_port-eq proto ep) (elim (Bool-cases (ep.protocol =s proto)) [
        | inl e ↦
            rw e (λ k. let (h, nz, m) = t.0 k in (p.0 e, h, nz, m), λ (_, h, nz, m). t.1 (h, nz, m))
        | inr e ↦ rw e (λ k. cc, λ k. let b : true ≡ false = rw (← p.1 k.0) e in cc)
      ])
