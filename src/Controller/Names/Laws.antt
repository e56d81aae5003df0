-- ===== src/Controller/Names/Laws.antt =====
-- Names of two parts against the text that joins the parts.
use Prim.Native.Char.{Char}
use text.Mathlib.TextEquality.{Char-path}
use Prim.Native.String.{[] as empty, ◌∷◌ as ◌∷ᶜ◌}
use Prim.Native.String.append as append_lem
use nghttpx_ingress_lb.Common.{
  String, ◌≡◌, ◌∙◌, ◌↔◌, refl, sym, ap, Bool, true, false, List, [], ◌∷◌, Try, failed, got,
  got_injective, inl, inr, All, Bool-cases, if◌then◌else◌, arith,
}
use nghttpx_ingress_lb.Common.Text.{◌=s◌}
use nghttpx_ingress_lb.Controller.Credentials.{slashed}
use nghttpx_ingress_lb.Controller.Names.{
  is_slash, longer, split_slashes, two_parts, parse_ns_name, dropped_result, checked_service,
  is_valid_service,
}

abbrev pub has_slash : String → Bool
has_slash empty = false
has_slash (c ∷ᶜ s) = let rest = has_slash s in if is_slash c then true else rest

abbrev slash : Char
slash = "/"

is_slash-eq : (c : Char) → is_slash c ≡ true → slash ≡ c
is_slash-eq c h = Char-path slash c (ground arith)

slashed-nil : (name : String) → slashed "" name ≡ slash ∷ᶜ name
slashed-nil name = rw (append_lem.nil, append_lem.cons, append_lem.nil) refl

slashed-cons : (c : Char) (s name : String) → slashed (c ∷ᶜ s) name ≡ c ∷ᶜ slashed s name
slashed-cons c s name = rw (append_lem.cons, append_lem.cons) refl

-- A text without a slash is one part, and nothing else is.
split_one : (s : String) → has_slash s ≡ false → split_slashes s ≡ s ∷ []
unfolding split_slashes
split_one empty h = refl
split_one (c ∷ᶜ s) h = elim (Bool-cases (is_slash c)) [
  | inl e ↦ let absurd : true ≡ false = rw e at h in cc
  | inr e ↦ let k : has_slash s ≡ false = rw e at h in rw (e, split_one s k) refl
]

abbrev joined : List String → String
joined [] = ""
joined (p ∷ []) = p
joined (p ∷ q ∷ ps) = slashed p (joined (q ∷ ps))

joined-longer : (c : Char) (ps : List String) → joined (longer c ps) ≡ c ∷ᶜ joined ps
joined-longer c [] = refl
joined-longer c (p ∷ []) = refl
joined-longer c (p ∷ q ∷ ps) = slashed-cons c p (joined (q ∷ ps))

split-nonempty : (s : String) → (p : String) × (ps : List String) × (split_slashes s ≡ p ∷ ps)
unfolding split_slashes
split-nonempty empty = ("", [], refl)
split-nonempty (c ∷ᶜ s) =
    let (p, ps, e) = split-nonempty s in
    elim (Bool-cases (is_slash c)) [
      | inl k ↦ ("", p ∷ ps, rw (k, e) refl)
      | inr k ↦ (c ∷ᶜ p, ps, rw (k, e) refl)
    ]

joined-split : (s : String) → joined (split_slashes s) ≡ s
unfolding split_slashes
joined-split empty = refl
joined-split (c ∷ᶜ s) = elim (Bool-cases (is_slash c)) [
  | inl k ↦
      let (p, ps, e) = split-nonempty s in
      let rest : joined (p ∷ ps) ≡ s = rw (← e) (joined-split s) in
      rw (k, e)
        (slashed-nil (joined (p ∷ ps))
          ∙ (ap (λ t. slash ∷ᶜ t) rest ∙ ap (λ d. d ∷ᶜ s) (is_slash-eq c k)))
  | inr k ↦ rw k (joined-longer c (split_slashes s) ∙ ap (λ t. c ∷ᶜ t) (joined-split s))
]

abbrev Plain : List String → Type 0
Plain ps = All (λ p. has_slash p ≡ false) ps

longer-Plain : (c : Char) (ps : List String) → is_slash c ≡ false → Plain ps → Plain (longer c ps)
longer-Plain c [] k h = (rw k refl, tt)
longer-Plain c (p ∷ ps) k (h, hs) = (rw k h, hs)

split-Plain : (s : String) → Plain (split_slashes s)
unfolding split_slashes
split-Plain empty = (refl, tt)
split-Plain (c ∷ᶜ s) = elim (Bool-cases (is_slash c)) [
  | inl k ↦ rw k (refl, split-Plain s)
  | inr k ↦ rw k (longer-Plain c (split_slashes s) k (split-Plain s))
]

split-slashed :
    (ns name : String)
    → has_slash ns ≡ false
    → split_slashes (slashed ns name) ≡ ns ∷ split_slashes name
unfolding split_slashes
split-slashed empty name h = rw (slashed-nil name) refl
split-slashed (c ∷ᶜ s) name h = elim (Bool-cases (is_slash c)) [
  | inl e ↦ let absurd : true ≡ false = rw e at h in cc
  | inr e ↦
      let k : has_slash s ≡ false = rw e at h in
      rw (slashed-cons c s name) (rw (e, split-slashed s name k) refl)
]

head_or : String → List String → String
head_or d [] = d
head_or d (x ∷ xs) = x

tail_of : List String → List String
tail_of [] = []
tail_of (x ∷ xs) = xs

pub slashed-injective :
    (a b c d : String)
    → has_slash a ≡ false
    → has_slash c ≡ false
    → slashed a b ≡ slashed c d
    → (a ≡ c) × (b ≡ d)
unfolding head_or tail_of
slashed-injective a b c d h k e =
    let same : a ∷ split_slashes b ≡ c ∷ split_slashes d =
      sym (split-slashed a b h) ∙ (ap split_slashes e ∙ split-slashed c d k) in
    (
      ap (head_or a) same,
      sym (joined-split b) ∙ (ap (λ l. joined (tail_of l)) same ∙ joined-split d),
    )

two_parts-eq-got :
    (m : String) (ps : List String) (ns name : String)
    → two_parts m ps ≡ got (ns, name)
    → ps ≡ ns ∷ name ∷ []
unfolding two_parts
two_parts-eq-got m [] ns name h = cc
two_parts-eq-got m (a ∷ []) ns name h = cc
two_parts-eq-got m (a ∷ b ∷ []) ns name h = ap (λ p. p.0 ∷ p.1 ∷ []) (got_injective h)
two_parts-eq-got m (a ∷ b ∷ c ∷ ps) ns name h = cc

pub split_slashes-eq-two :
    (input ns name : String)
    → split_slashes input ≡ ns ∷ name ∷ []
    → (input ≡ slashed ns name) × (has_slash ns ≡ false) × (has_slash name ≡ false)
split_slashes-eq-two input ns name e =
    let plain : Plain (ns ∷ name ∷ []) = rw e at (split-Plain input) in
    (sym (joined-split input) ∙ ap joined e, plain.0, plain.1.0)

-- `ParseNSName` returns a namespace and a name exactly if neither has a slash and the text is the
-- namespace, a slash and the name; an empty namespace or name is accepted.
pub parse_ns_name-eq-got_iff :
    (input ns name : String)
    → (parse_ns_name input ≡ got (ns, name))
      ↔ ((input ≡ slashed ns name) × (has_slash ns ≡ false) × (has_slash name ≡ false))
unfolding parse_ns_name two_parts
parse_ns_name-eq-got_iff input ns name = (
  λ h. split_slashes-eq-two input ns name (two_parts-eq-got _ (split_slashes input) ns name h),
  λ (e, k, l). rw (e, split-slashed ns name k, split_one name l) refl,
)

-- The text is a namespace, a slash and a name.
abbrev pub IsName : String → Type 0
IsName s =
    (ns : String) × (name : String) × (s ≡ slashed ns name)
    × (has_slash ns ≡ false)
    × (has_slash name ≡ false)

module _ {S : Type 0} (get_service : String → String → Try S) where
  -- The text is the name of a service that there is.
  abbrev pub Exists : String → Type 0
  Exists s =
      (ns : String) × (name : String) × (svc : S) × (s ≡ slashed ns name)
      × (get_service ns name ≡ got svc)

  checked_service-Exists :
      (s m : String) (ps : List String) {u : Unit {0}}
      → split_slashes s ≡ ps
      → checked_service get_service m ps ≡ got u
      → Exists s
  unfolding checked_service
  checked_service-Exists s m [] e h = cc
  checked_service-Exists s m (a ∷ []) e h = cc
  checked_service-Exists s m (a ∷ b ∷ []) {u} e h = of (get_service a b) refl h
    where
      of : (t : Try S) → get_service a b ≡ t → dropped_result t ≡ got u → Exists s
      of (failed e') k h = cc
      of (got svc) k h = (a, b, svc, (split_slashes-eq-two s a b e).0, k)
  checked_service-Exists s m (a ∷ b ∷ c ∷ ps) e h = cc

  pub is_valid_service-Exists :
      (s : String) {u : Unit {0}} → is_valid_service get_service s ≡ got u → Exists s
  unfolding is_valid_service
  is_valid_service-Exists s h = elim (Bool-cases (s =s "")) [
    | inl e ↦ let k : failed _ ≡ got _ = rw e at h in cc
    | inr e ↦ checked_service-Exists s _ (split_slashes s) refl (rw e at h)
  ]
