-- ===== src/Controller/Upstreams/Unordered.antt =====
-- What `getUpstreamServers` makes of the same ingresses in another order: a lister gives them in none.
mod Tests
use mathlib.Core.List.{Permᴰ}
use mathlib.Core.List.Permᴰ
use nghttpx_ingress_lb.Common.{
  ◌≡◌, ◌≢◌, ◌∙◌, sym, ap, refl, String, Bool, true, false, inl, inr, Option, none, some, List, [],
  ◌∷◌, ◌++◌, map, any, All, All-map, All-append, All-perm, Result, ok, err, panic, ◌>>=◌,
  ok_injective, Bool-cases, if◌then◌else◌,
}
use nghttpx_ingress_lb.Common.Sorting.Keys.{less_by}
use nghttpx_ingress_lb.Common.Sorting.Unordered.{flat, flat-perm, sort_keys-perm, any-perm}
use nghttpx_ingress_lb.Api.{Ingress}
use nghttpx_ingress_lb.Nghttpx.Types.{
  TlsCred, Upstream, UpstreamServer, IngressConfig, new_ingress_config,
}
use nghttpx_ingress_lb.Controller.Env.{LoadBalancerController}
use nghttpx_ingress_lb.Controller.Upstreams.{
  Environment, default_cred, is_default, with_default, unique_loop, get_upstream_servers,
}
use nghttpx_ingress_lb.Controller.Upstreams.Paths.{get_default_upstream}
use nghttpx_ingress_lb.Controller.Upstreams.Unique.{unique_backends}
use nghttpx_ingress_lb.Controller.Upstreams.Creds.{arrange_creds}
use nghttpx_ingress_lb.Controller.Upstreams.Creds.Unordered.{SameCreds, arrange_creds-perm}
use nghttpx_ingress_lb.Controller.Upstreams.Collected.{
  ingress_upstreams, ingress_pems, all_upstreams, all_pems, ingress_loop-append,
  all_upstreams-FromIngress,
}
use nghttpx_ingress_lb.Controller.Upstreams.Assembled.{assembled, get_upstream_servers-assembled}
use nghttpx_ingress_lb.Controller.Upstreams.Laws.{name_of, IsSource-ne-nil}
use nghttpx_ingress_lb.Controller.Upstreams.Versions.{unique_loop-IsVersion}

-- Two results are the same but for the order of upstreams of one name and for the contents of
-- credentials of one key path.
pub record SameConfig (c c' : IngressConfig) : Type 0 where
  pub upstreams : Permᴰ c.upstreams c'.upstreams
  pub names : map name_of c.upstreams ≡ map name_of c'.upstreams
  pub creds : SameCreds c c'

abbrev pub SameResult : Result IngressConfig → Result IngressConfig → Type 0
SameResult (ok c) (ok c') = SameConfig c c'
SameResult (ok c) (err e) = ⊥
SameResult (ok c) panic = ⊥
SameResult (err e) (ok c) = ⊥
SameResult (err e) (err e') = e ≡ e'
SameResult (err e) panic = ⊥
SameResult panic (ok c) = ⊥
SameResult panic (err e) = ⊥
SameResult panic panic = Unit

module _ (env : Environment) (lbc : LoadBalancerController) where
  open env use {lib, cache, sorter, num_cpu}

  all_upstreams-flat :
      (ings : List Ingress) → all_upstreams env lbc ings ≡ flat (ingress_upstreams env lbc) ings
  unfolding all_upstreams flat
  all_upstreams-flat [] = refl
  all_upstreams-flat (ing ∷ rest) =
      ap (λ l. ingress_upstreams env lbc ing ++ l) (all_upstreams-flat rest)

  all_pems-flat : (ings : List Ingress) → all_pems env lbc ings ≡ flat (ingress_pems env lbc) ings
  unfolding all_pems flat
  all_pems-flat [] = refl
  all_pems-flat (ing ∷ rest) = ap (λ l. ingress_pems env lbc ing ++ l) (all_pems-flat rest)

  backends_or : Result (List UpstreamServer) → List UpstreamServer
  backends_or (ok bs) = bs
  backends_or (err e) = []
  backends_or panic = []

  -- An upstream with its backends made unique.
  version : Upstream → Upstream
  version u = record u { backends = backends_or (unique_backends sorter u.backends) }

  unique_loop-map : (us vs : List Upstream) → unique_loop env lbc us ≡ ok vs → vs ≡ map version us
  unfolding unique_loop version backends_or
  unique_loop-map [] vs e = sym (ok_injective e)
  unique_loop-map (u ∷ us) vs e =
      of (unique_backends sorter u.backends) refl (unique_loop env lbc us) (unique_loop-map us) e
    where
      of :
          (r : Result (List UpstreamServer))
          → unique_backends sorter u.backends ≡ r
          → (rest : Result (List Upstream))
          → ((ws : List Upstream) → rest ≡ ok ws → ws ≡ map version us)
          → (r >>= λ bs. rest >>= λ us'. ok (record u { backends = bs } ∷ us')) ≡ ok vs
          → vs
            ≡ record u { backends = backends_or (unique_backends sorter u.backends) }
              ∷ map version us
      of (ok bs) h (ok ws) ih k = rw (h, ← ih ws refl) (sym (ok_injective k))
      of (ok bs) h (err m) ih k = cc
      of (ok bs) h panic ih k = cc
      of (err m) h rest ih k = cc
      of panic h rest ih k = cc

  map-version : (us : List Upstream) → map name_of (map version us) ≡ map name_of us
  unfolding version
  map-version [] = refl
  map-version (u ∷ us) = ap (λ l. name_of u ∷ l) (map-version us)

  -- The last two steps, on upstreams that all have backends.
  sorted_and_unique :
      (ws ws' : List Upstream)
      → Permᴰ ws ws'
      → All (λ u. u.backends ≢ []) ws
      → (vs : List Upstream) × (vs' : List Upstream) × (unique_loop env lbc
            (sorter.sort_slice (less_by name_of) ws)
          ≡ ok vs)
        × (unique_loop env lbc (sorter.sort_slice (less_by name_of) ws') ≡ ok vs')
        × Permᴰ vs vs'
        × (map name_of vs ≡ map name_of vs')
  sorted_and_unique ws ws' p h =
      let left = sorter.sort_slice-perm (less_by name_of) ws in
      let right = sorter.sort_slice-perm (less_by name_of) ws' in
      let (vs, e, r) =
        unique_loop-IsVersion env lbc (sorter.sort_slice (less_by name_of) ws)
          (All-perm (λ u. u.backends ≢ []) left h) in
      let (vs', e', r') =
        unique_loop-IsVersion env lbc (sorter.sort_slice (less_by name_of) ws')
          (All-perm (λ u. u.backends ≢ []) (Permᴰ.trans right (Permᴰ.symm p)) h) in
      let m : vs ≡ map version (sorter.sort_slice (less_by name_of) ws) = unique_loop-map _ vs e in
      let m' : vs' ≡ map version (sorter.sort_slice (less_by name_of) ws') =
        unique_loop-map _ vs' e' in
      (
        vs,
        vs',
        e,
        e',
        rw (m, m') (Permᴰ.map version (Permᴰ.trans left (Permᴰ.trans p (Permᴰ.symm right)))),
        rw (m, m') (map-version _ ∙ sort_keys-perm name_of sorter p ∙ sym (map-version _)),
      )

  backends_ne_nil : (ings : List Ingress) → All (λ u. u.backends ≢ []) (all_upstreams env lbc ings)
  backends_ne_nil ings =
      All-map (all_upstreams env lbc ings) (λ u f. IsSource-ne-nil env lbc ings u (inl f))
        (all_upstreams-FromIngress env lbc ings)

  -- What follows the arranging of the credentials.
  ended : IngressConfig → Result (List Upstream) → Result IngressConfig
  ended config upstreams = do
    upstreams' ← upstreams
    unique ← unique_loop env lbc (sorter.sort_slice (less_by name_of) upstreams')
    ok (record config { upstreams = unique })

  with_upstreams-SameConfig :
      (c c' : IngressConfig) (vs vs' : List Upstream)
      → SameCreds c c'
      → Permᴰ vs vs'
      → map name_of vs ≡ map name_of vs'
      → SameConfig (record c { upstreams = vs }) (record c' { upstreams = vs' })
  with_upstreams-SameConfig c c' vs vs' same p e = record {
    upstreams = p;
    names = e;
    creds = record {
      tls = same.tls;
      default_path = same.default_path;
      sub_paths = same.sub_paths;
      workers = same.workers;
      extra_config = same.extra_config;
    };
  }

  ended-SameResult :
      (c c' : IngressConfig) (ws ws' : List Upstream)
      → SameCreds c c'
      → Permᴰ ws ws'
      → All (λ u. u.backends ≢ []) ws
      → SameResult (ended c (ok ws)) (ended c' (ok ws'))
  unfolding ended
  ended-SameResult c c' ws ws' same p h =
      let (vs, vs', e, e', q, n) = sorted_and_unique ws ws' p h in
      rw (e, e') (with_upstreams-SameConfig c c' vs vs' same q n)

  defaulted-SameResult :
      (c c' : IngressConfig) (us us' : List Upstream)
      → SameCreds c c'
      → Permᴰ us us'
      → All (λ u. u.backends ≢ []) us
      → (d : Result Upstream) → get_default_upstream lib cache lbc ≡ d
      → SameResult
          (ended c (d >>= λ u. ok (us ++ u ∷ [])))
          (ended c' (d >>= λ u. ok (us' ++ u ∷ [])))
  unfolding ended
  defaulted-SameResult c c' us us' same p h (ok u) e =
      ended-SameResult c c' (us ++ u ∷ []) (us' ++ u ∷ []) same (Permᴰ.append_right (u ∷ []) p)
        (All-append (λ v. v.backends ≢ []) us (u ∷ []) h (IsSource-ne-nil env lbc [] u (inr e), tt))
  defaulted-SameResult c c' us us' same p h (err m) e = refl
  defaulted-SameResult c c' us us' same p h panic e = tt

  with_default-SameResult :
      (c c' : IngressConfig) (us us' : List Upstream)
      → SameCreds c c'
      → Permᴰ us us'
      → All (λ u. u.backends ≢ []) us
      → SameResult (ended c (with_default env lbc us)) (ended c' (with_default env lbc us'))
  unfolding with_default
  with_default-SameResult c c' us us' same p h = elim (Bool-cases (any (is_default env lbc) us)) [
    | inl e ↦
        let e' = sym (any-perm (is_default env lbc) p) ∙ e in
        rw (e, e') (ended-SameResult c c' us us' same p h)
    | inr e ↦
        let e' = sym (any-perm (is_default env lbc) p) ∙ e in
        rw (e, e') (defaulted-SameResult c c' us us' same p h _ refl)
  ]

  assembled-SameResult :
      (d : Result (Option TlsCred)) {us us' : List Upstream} {pems pems' : List TlsCred}
      → Permᴰ us us'
      → Permᴰ pems pems'
      → All (λ u. u.backends ≢ []) us
      → SameResult (assembled env lbc d us pems) (assembled env lbc d us' pems')
  unfolding assembled ended
  assembled-SameResult (ok cred) {us} {us'} p q h =
      let (c, c', e, e', same) = arrange_creds-perm sorter cred (new_ingress_config num_cpu) q in
      rw (e, e') (with_default-SameResult c c' us us' same p h)
  assembled-SameResult (err m) p q h = refl
  assembled-SameResult panic p q h = tt

  -- In whatever order the lister gives the ingresses, `getUpstreamServers` comes to the same: the same
  -- panic or error, or configurations with the same upstreams, backends included, each as often, whose
  -- names are in the same order, with the same key paths of the default credential and, in the same
  -- order, of the others, and the same in all else.
  pub get_upstream_servers-perm :
      (ings ings' : List Ingress)
      → Permᴰ ings ings'
      → SameResult (get_upstream_servers env lbc ings) (get_upstream_servers env lbc ings')
  get_upstream_servers-perm ings ings' p =
      rw (get_upstream_servers-assembled env lbc ings, get_upstream_servers-assembled env lbc ings')
        (assembled-SameResult (default_cred env lbc)
          (rw (all_upstreams-flat ings, all_upstreams-flat ings')
            (flat-perm (ingress_upstreams env lbc) p))
          (rw (all_pems-flat ings, all_pems-flat ings') (flat-perm (ingress_pems env lbc) p))
          (backends_ne_nil ings))
