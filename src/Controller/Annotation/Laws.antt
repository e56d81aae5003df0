-- ===== src/Controller/Annotation/Laws.antt =====
-- Which classes of ingresses are this controller's.
use nghttpx_ingress_lb.Common.{
  String, ◌≡◌, ◌≢◌, ◌⊎◌, ◌↔◌, inl, inr, refl, Bool, true, false, Option, none, some, List, [], ◌∷◌,
  ◌||◌, Bool-cases, if◌then◌else◌,
}
use mathlib.Core.Option.{some-injective}
use nghttpx_ingress_lb.Common.Text.{◌=s◌, eq_iff}
use nghttpx_ingress_lb.Api.{Ingress}
use nghttpx_ingress_lb.Controller.Env.{LoadBalancerController, lookup, lookup_or}
use nghttpx_ingress_lb.Controller.Annotation.{get_ingress_class, validate_ingress_class}

-- The annotation of the class is missing or empty, or it is the class of this controller.
abbrev pub IsOurs : LoadBalancerController → Ingress → Type 0
IsOurs lbc ing =
    (lookup "kubernetes.io/ingress.class" ing.annotations ≡ none)
    ⊎ ((lookup "kubernetes.io/ingress.class" ing.annotations ≡ some "")
        ⊎ (lookup "kubernetes.io/ingress.class" ing.annotations ≡ some lbc.ingress_class))

-- It is there, and is another one.
abbrev pub IsForeign : LoadBalancerController → Ingress → Type 0
IsForeign lbc ing =
    (class : String) × (lookup "kubernetes.io/ingress.class" ing.annotations ≡ some class)
    × (class ≢ "")
    × (class ≢ lbc.ingress_class)

abbrev pub value_or : String → Option String → String
value_or d none = d
value_or d (some t) = t

pub lookup_or-lookup :
    (d key : String) (m : List (String × String)) → lookup_or d key m ≡ value_or d (lookup key m)
lookup_or-lookup d key [] = refl
lookup_or-lookup d key ((k, v) ∷ m) = elim (Bool-cases (k =s key)) [
  | inl e ↦ rw e refl
  | inr e ↦ rw e (lookup_or-lookup d key m)
]

module _ (lbc : LoadBalancerController) (ing : Ingress) where
  tested : String → Bool
  tested class = if class =s "" || class =s lbc.ingress_class then true else false

  validate_ingress_class-eq :
      validate_ingress_class lbc ing
      ≡ tested (value_or "" (lookup "kubernetes.io/ingress.class" ing.annotations))
  unfolding validate_ingress_class get_ingress_class tested
  validate_ingress_class-eq =
      rw (lookup_or-lookup "" "kubernetes.io/ingress.class" ing.annotations) refl

  tested_iff :
      (class : String) → (tested class ≡ true) ↔ ((class ≡ "") ⊎ (class ≡ lbc.ingress_class))
  unfolding tested
  tested_iff class =
      let empty = eq_iff class "" in
      let ours = eq_iff class lbc.ingress_class in
      elim (Bool-cases (class =s "")) [
        | inl e ↦ rw e (λ _. inl (empty.0 e), λ _. refl)
        | inr e ↦ elim (Bool-cases (class =s lbc.ingress_class)) [
          | inl f ↦ rw (e, f) (λ _. inr (ours.0 f), λ _. refl)
          | inr f ↦
              rw (e, f)
                (
                  λ k. cc,
                  λ c. elim c [
                    | inl h ↦ let k : true ≡ false = rw (← empty.1 h) e in cc
                    | inr h ↦ let k : true ≡ false = rw (← ours.1 h) f in cc
                  ],
                )
        ]
      ]

  pub validate_ingress_class-IsOurs_iff : (validate_ingress_class lbc ing ≡ true) ↔ IsOurs lbc ing
  validate_ingress_class-IsOurs_iff =
      rw validate_ingress_class-eq (of (lookup "kubernetes.io/ingress.class" ing.annotations))
    where
      of :
          (o : Option String)
          → (tested (value_or "" o) ≡ true)
            ↔ ((o ≡ none) ⊎ ((o ≡ some "") ⊎ (o ≡ some lbc.ingress_class)))
      of none = (λ _. inl refl, λ _. (tested_iff "").1 (inl refl))
      of (some class) = (
        λ h. elim ((tested_iff class).0 h) [
          | inl e ↦ inr (inl (rw e refl))
          | inr e ↦ inr (inr (rw e refl))
        ],
        λ c. elim c [
          | inl e ↦ cc
          | inr (inl e) ↦ (tested_iff class).1 (inl (some-injective _ _ e))
          | inr (inr e) ↦ (tested_iff class).1 (inr (some-injective _ _ e))
        ],
      )

  pub validate_ingress_class_of_IsForeign :
      IsForeign lbc ing → validate_ingress_class lbc ing ≡ false
  validate_ingress_class_of_IsForeign (class, e, filled, other) =
      elim (Bool-cases (validate_ingress_class lbc ing)) [
        | inr h ↦ h
        | inl h ↦
            let k : tested class ≡ true = rw (validate_ingress_class-eq, e) at h in
            elim ((tested_iff class).0 k) [ inl z ↦ absurd (filled z) | inr z ↦ absurd (other z) ]
      ]
