-- ===== src/Controller/References/Loops.antt =====
-- The loops over the ingresses of a namespace and over their rules.
use mathlib.Core.List.{Memᴰ}
use nghttpx_ingress_lb.Common.{
  ◌≡◌, inl, inr, refl, Bool, true, Option, none, some, List, [], ◌∷◌, any_iff, Bool-cases,
}
use nghttpx_ingress_lb.Api.{Ingress, HttpIngressPath, IngressRule}
use nghttpx_ingress_lb.Controller.Env.{LoadBalancerController}
use nghttpx_ingress_lb.Controller.Annotation.{validate_ingress_class}
use nghttpx_ingress_lb.Controller.References.{http_refers, rules_refer, ingresses_refer}

-- Some path of one of the rules.
abbrev pub SomePath : (HttpIngressPath → Type 0) → List IngressRule → Type 0
SomePath P rs =
    (r : IngressRule) × (paths : List HttpIngressPath) × (path : HttpIngressPath) × Memᴰ r rs
    × (r.http ≡ some paths)
    × Memᴰ path paths
    × P path

pub rules_refer-true :
    (p : HttpIngressPath → Bool) (rs : List IngressRule)
    → rules_refer p rs ≡ true
    → SomePath (λ path. p path ≡ true) rs
unfolding rules_refer http_refers
rules_refer-true p [] e = cc
rules_refer-true p (r ∷ rs) e = elim (Bool-cases (http_refers p r.http)) [
  | inl h ↦ let (paths, path, k, m, q) = here r.http h in (r, paths, path, Memᴰ.head refl, k, m, q)
  | inr h ↦
      let (r', paths, path, m, k, m', q) = rules_refer-true p rs (rw h at e) in
      (r', paths, path, Memᴰ.tail m, k, m', q)
]
  where
    here :
        (http : Option (List HttpIngressPath))
        → http_refers p http ≡ true
        → (paths : List HttpIngressPath) × (path : HttpIngressPath) × (http ≡ some paths)
          × Memᴰ path paths
          × (p path ≡ true)
    here none h = cc
    here (some paths) h = let (path, m, q) = (any_iff p paths).0 h in (paths, path, refl, m, q)

pub true-rules_refer :
    (p : HttpIngressPath → Bool) (rs : List IngressRule)
    → SomePath (λ path. p path ≡ true) rs
    → rules_refer p rs ≡ true
unfolding rules_refer http_refers
true-rules_refer p [] (r, paths, path, m, k, m', q) = elim m [ ]
true-rules_refer p (t ∷ rs) (r, paths, path, Memᴰ.head same, k, m', q) =
    let e : t.http ≡ some paths = rw (← same) k in rw (e, (any_iff p paths).1 (path, m', q)) refl
true-rules_refer p (t ∷ rs) (r, paths, path, Memᴰ.tail m, k, m', q) =
    let h = true-rules_refer p rs (r, paths, path, m, k, m', q) in
    elim (Bool-cases (http_refers p t.http)) [ inl e ↦ rw e refl | inr e ↦ rw e h ]

module _ (lbc : LoadBalancerController) where
  -- Some ingress of this controller's class.
  abbrev pub SomeIngress : (Ingress → Type 0) → List Ingress → Type 0
  SomeIngress P ings =
      (ing : Ingress) × Memᴰ ing ings × (validate_ingress_class lbc ing ≡ true) × P ing

  pub ingresses_refer-true :
      (p : Ingress → Bool) (ings : List Ingress)
      → ingresses_refer lbc p ings ≡ true
      → SomeIngress (λ ing. p ing ≡ true) ings
  unfolding ingresses_refer
  ingresses_refer-true p [] e = cc
  ingresses_refer-true p (i ∷ rest) e = elim (Bool-cases (validate_ingress_class lbc i)) [
    | inl v ↦ elim (Bool-cases (p i)) [
      | inl h ↦ (i, Memᴰ.head refl, v, h)
      | inr h ↦
          let (j, m, w, k) = ingresses_refer-true p rest (rw (v, h) at e) in (j, Memᴰ.tail m, w, k)
    ]
    | inr v ↦ let (j, m, w, k) = ingresses_refer-true p rest (rw v at e) in (j, Memᴰ.tail m, w, k)
  ]

  pub true-ingresses_refer :
      (p : Ingress → Bool) (ings : List Ingress)
      → SomeIngress (λ ing. p ing ≡ true) ings
      → ingresses_refer lbc p ings ≡ true
  unfolding ingresses_refer
  true-ingresses_refer p [] (j, m, w, k) = elim m [ ]
  true-ingresses_refer p (i ∷ rest) (j, Memᴰ.head same, w, k) =
      let v : validate_ingress_class lbc i ≡ true = rw (← same) w in
      let h : p i ≡ true = rw (← same) k in rw (v, h) refl
  true-ingresses_refer p (i ∷ rest) (j, Memᴰ.tail m, w, k) =
      let t = true-ingresses_refer p rest (j, m, w, k) in
      elim (Bool-cases (validate_ingress_class lbc i)) [
        | inl v ↦ elim (Bool-cases (p i)) [ inl h ↦ rw (v, h) refl | inr h ↦ rw (v, h) t ]
        | inr v ↦ rw v t
      ]
