-- ===== src/Controller/Fixtures/Listed.antt =====
-- What the listers of the small cluster give.
use mathlib.Core.List.{Memᴰ}
use mathlib.Core.Option.{some-injective}
use nghttpx_ingress_lb.Common.{
  String, ◌≡◌, refl, sym, false, Option, none, some, List, [], ◌∷◌, got, got_injective, inl, inr,
  Bool-cases, if◌then◌else◌, ◌∙◌,
}
use nghttpx_ingress_lb.Common.Text.{◌=s◌, eq_iff}
use nghttpx_ingress_lb.Api.{Ingress, Service}
use nghttpx_ingress_lb.Controller.Credentials.{slashed}
use nghttpx_ingress_lb.Controller.Fixtures.{site_cache, site_ingress, foreign_ingress, site_service}
use nghttpx_ingress_lb.Controller.Names.Laws.{has_slash}

abbrev pub site_ingresses : List Ingress
site_ingresses = site_ingress ∷ foreign_ingress ∷ []

pub site_namespaces : (ing : Ingress) → Memᴰ ing site_ingresses → has_slash ing.namespace ≡ false
site_namespaces ing (Memᴰ.head same) = rw same refl
site_namespaces ing (Memᴰ.tail (Memᴰ.head same)) = rw same refl
site_namespaces ing (Memᴰ.tail (Memᴰ.tail m)) = elim m [ ]

pub site_keyed :
    (key : String) (svc : Service)
    → site_cache.service key ≡ got (some svc)
    → slashed svc.namespace svc.name ≡ key
site_keyed key svc e = elim (Bool-cases (key =s "shop/web")) [
  | inl h ↦
      let found : ◌≡◌ {A = Option Service} (some site_service) (some svc) =
        got_injective (rw h at e) in
      rw (← some-injective _ _ found) (sym ((eq_iff key "shop/web").0 h))
  | inr h ↦ let missing : ◌≡◌ {A = Option Service} none (some svc) = got_injective (rw h at e) in cc
]

in_shop : (ing : Ingress) → Memᴰ ing site_ingresses → ing.namespace ≡ "shop"
in_shop ing (Memᴰ.head same) = rw same refl
in_shop ing (Memᴰ.tail (Memᴰ.head same)) = rw same refl
in_shop ing (Memᴰ.tail (Memᴰ.tail m)) = elim m [ ]

pub site_listed :
    (ns : String) (ing : Ingress)
    → Memᴰ ing site_ingresses
    → ing.namespace ≡ ns
    → Memᴰ ing (if ns =s "shop" then site_ingresses else [])
site_listed ns ing m in_ns = rw (sym in_ns ∙ in_shop ing m) m

pub listed_site :
    (ns : String) (ing : Ingress)
    → Memᴰ ing (if ns =s "shop" then site_ingresses else [])
    → Memᴰ ing site_ingresses × (ing.namespace ≡ ns)
listed_site ns ing m = elim (Bool-cases (ns =s "shop")) [
  | inl e ↦
      let k : Memᴰ ing site_ingresses = rw e at m in
      (k, in_shop ing k ∙ sym ((eq_iff ns "shop").0 e))
  | inr e ↦ let k : Memᴰ ing [] = rw e at m in elim k [ ]
]
