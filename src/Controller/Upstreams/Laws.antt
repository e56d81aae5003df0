-- ===== src/Controller/Upstreams/Laws.antt =====
-- What `getUpstreamServers` returns.
use mathlib.Core.List.{Memᴰ}
use mathlib.Core.List.Memᴰ
use mathlib.Core.List.Permᴰ
use nghttpx_ingress_lb.Common.{
  ◌≡◌, ◌≢◌, ◌⊎◌, refl, ap, String, true, false, Option, List, [], ◌∷◌, ◌++◌, any, All, All₂,
  All-append, All-map, All-mem, All-perm, All-apply, All₂-left, All₂-right, Bool-cases, inl, inr,
  ok,
}
use nghttpx_ingress_lb.Common.Text.{eq_refl}
use nghttpx_ingress_lb.Common.Sorting.{IsSorted}
use nghttpx_ingress_lb.Common.Sorting.Keys.{less_by, less_by-IsStrictWeak}
use nghttpx_ingress_lb.Api.{Ingress}
use nghttpx_ingress_lb.Nghttpx.Types.{TlsCred, Upstream, IngressConfig, new_ingress_config}
use nghttpx_ingress_lb.Controller.Env.{LoadBalancerController}
use nghttpx_ingress_lb.Controller.Upstreams.{
  Environment, default_cred, is_default, with_default, unique_loop, get_upstream_servers,
}
use nghttpx_ingress_lb.Controller.Upstreams.Paths.{get_default_upstream}
use nghttpx_ingress_lb.Controller.Upstreams.Paths.Laws.{from_path}
use nghttpx_ingress_lb.Controller.Upstreams.Paths.Default.{get_default_upstream-IsDefaultUpstream}
use nghttpx_ingress_lb.Controller.Upstreams.Creds.{arrange_creds}
use nghttpx_ingress_lb.Controller.Upstreams.Creds.Laws.{IsArranged, arrange_creds-IsArranged}
use nghttpx_ingress_lb.Controller.Upstreams.Collected.{
  all_upstreams, all_pems, ingress_loop-append, FromIngress, from_ingress,
  all_upstreams-FromIngress,
}
use nghttpx_ingress_lb.Controller.Upstreams.Versions.{IsVersion, unique_loop-IsVersion}

abbrev pub name_of : Upstream → String
name_of u = u.name

-- The versions of a list sorted by name are sorted by name.
IsVersion-IsSorted :
    (us vs : List Upstream)
    → All₂ IsVersion us vs
    → IsSorted (less_by name_of) us
    → IsSorted (less_by name_of) vs
IsVersion-IsSorted [] [] h s = tt
IsVersion-IsSorted [] (v ∷ vs) h s = absurd h.lower
IsVersion-IsSorted (u ∷ us) [] h s = tt
IsVersion-IsSorted (u ∷ us) (v ∷ vs) h s = (heads us vs h.1 s.0, IsVersion-IsSorted us vs h.1 s.1)
  where
    heads :
        (ws xs : List Upstream)
        → All₂ IsVersion ws xs
        → All (λ w. less_by name_of w u ≡ false) ws
        → All (λ x. less_by name_of x v ≡ false) xs
    heads [] [] k t = tt
    heads [] (x ∷ xs) k t = absurd k.lower
    heads (w ∷ ws) [] k t = tt
    heads (w ∷ ws) (x ∷ xs) k t =
        (rw (ap name_of h.0.same, ap name_of k.0.same) t.0, heads ws xs k.1 t.1)

module _ (env : Environment) (lbc : LoadBalancerController) where
  open env use {lib, cache, sorter, num_cpu}

  -- `u` is an ingress's upstream, or the one of the default backend.
  abbrev pub IsSource : List Ingress → Upstream → Type 0
  IsSource ings u = FromIngress env lbc ings u ⊎ (get_default_upstream lib cache lbc ≡ ok u)

  -- What the configuration promises of the upstreams: they are in the order of their names; each is
  -- an ingress's or the default backend's, with its backends sorted, each address and port once; each
  -- upstream of an ingress is there; and one of them serves the requests that match no other.
  pub record IsConfigFor (ings : List Ingress) (config : IngressConfig) : Type 0 where
    pub by_name : IsSorted (less_by name_of) config.upstreams
    pub sound : All (λ v. (u : Upstream) × IsSource ings u × IsVersion u v) config.upstreams
    pub complete :
        All
          (λ u. (v : Upstream) × Memᴰ v config.upstreams × IsVersion u v)
          (all_upstreams env lbc ings)
    pub has_default : (v : Upstream) × Memᴰ v config.upstreams × (is_default env lbc v ≡ true)

  pub IsSource-ne-nil : (ings : List Ingress) (u : Upstream) → IsSource ings u → u.backends ≢ []
  IsSource-ne-nil ings u (inl (from_ingress _ _ _ _ _ (from_path _ _ _ _ _ _ p))) = p.nonempty
  IsSource-ne-nil ings u (inr e) =
      (get_default_upstream-IsDefaultUpstream lib cache lbc u e).nonempty

  -- An ingress serves the requests that match no other, or the default backend can.
  abbrev pub HasDefault : List Ingress → Type 0
  HasDefault ings =
      (any (is_default env lbc) (all_upstreams env lbc ings) ≡ true)
      ⊎ ((d : Upstream) × (get_default_upstream lib cache lbc ≡ ok d))

  with_default_cases :
      (ings : List Ingress)
      → HasDefault ings
      → let us = all_upstreams env lbc ings in
        ((any (is_default env lbc) us ≡ true) × (with_default env lbc us ≡ ok us))
        ⊎ ((d : Upstream) × (get_default_upstream lib cache lbc ≡ ok d)
            × (with_default env lbc us ≡ ok (us ++ d ∷ [])))
  unfolding with_default
  with_default_cases ings (inl h) = inl (h, rw h)
  with_default_cases ings (inr (d, e)) =
      elim (Bool-cases (any (is_default env lbc) (all_upstreams env lbc ings))) [
        | inl h ↦ inl (h, rw h)
        | inr h ↦ inr (d, e, rw (h, e))
      ]

  any-Memᴰ :
      (us : List Upstream)
      → any (is_default env lbc) us ≡ true
      → (u : Upstream) × Memᴰ u us × (is_default env lbc u ≡ true)
  any-Memᴰ [] h = cc
  any-Memᴰ (u ∷ us) h = elim (Bool-cases (is_default env lbc u)) [
    | inl e ↦ (u, Memᴰ.head refl, e)
    | inr e ↦ let (v, m, k) = any-Memᴰ us (rw e at h) in (v, Memᴰ.tail m, k)
  ]

  default_is_default :
      (d : Upstream) → get_default_upstream lib cache lbc ≡ ok d → is_default env lbc d ≡ true
  default_is_default d e =
      let h = get_default_upstream-IsDefaultUpstream lib cache lbc d e in
      rw (h.any_host, h.any_path, eq_refl "")

  -- The upstreams before the sort: those of the ingresses, and the default one if none of them is.
  sources :
      (ings : List Ingress)
      → HasDefault ings
      → let us = all_upstreams env lbc ings in
        (ws : List Upstream) × (with_default env lbc us ≡ ok ws)
        × All (IsSource ings) ws
        × ((u : Upstream) → Memᴰ u us → Memᴰ u ws)
        × ((u : Upstream) × Memᴰ u ws × (is_default env lbc u ≡ true))
  sources ings e =
      let us = all_upstreams env lbc ings in
      let from = All-map us (λ u f. inl f) (all_upstreams-FromIngress env lbc ings) in
      elim (with_default_cases ings e) [
        | inl (h, k) ↦ (us, k, from, (λ u m. m), any-Memᴰ us h)
        | inr (d, e', k) ↦ (
          us ++ d ∷ [],
          k,
          All-append (IsSource ings) us (d ∷ []) from (inr e', tt),
          (λ u m. Memᴰ.append_left (d ∷ []) m),
          (d, Memᴰ.append_right us (Memᴰ.head refl), default_is_default d e'),
        )
      ]

  abbrev sorted_upstreams : List Upstream → List Upstream
  sorted_upstreams ws = sorter.sort_slice (less_by name_of) ws

  sorted_versions :
      (ings : List Ingress) (ws vs : List Upstream)
      → All (IsSource ings) ws
      → All₂ IsVersion (sorted_upstreams ws) vs
      → All (λ v. (u : Upstream) × IsSource ings u × IsVersion u v) vs
  sorted_versions ings ws vs from r =
      let perm = sorter.sort_slice-perm (less_by name_of) ws in
      let from' = All-perm (IsSource ings) perm from in
      All-map vs
        (λ v (t : (u : Upstream) × Memᴰ u (sorted_upstreams ws) × IsVersion u v).
          (t.0, All-apply (IsSource ings) _ from' t.0 t.1, t.2))
        (All₂-right IsVersion (sorted_upstreams ws) vs r)

  abbrev Versioned : List Upstream → Upstream → Type 0
  Versioned vs u = (v : Upstream) × Memᴰ v vs × IsVersion u v

  versioned :
      (ws vs : List Upstream) → All₂ IsVersion (sorted_upstreams ws) vs → All (Versioned vs) ws
  versioned ws vs r =
      All-perm (Versioned vs) (Permᴰ.symm (sorter.sort_slice-perm (less_by name_of) ws))
        (All₂-left IsVersion (sorted_upstreams ws) vs r)

  version_is_default :
      (u v : Upstream) → IsVersion u v → is_default env lbc u ≡ true → is_default env lbc v ≡ true
  version_is_default u v r h = rw (r.same) h

  get_upstream_servers-eq :
      (ings : List Ingress) {cred : Option TlsCred} {config : IngressConfig} {ws vs : List Upstream}
      → default_cred env lbc ≡ ok cred
      → arrange_creds sorter cred (all_pems env lbc ings) (new_ingress_config num_cpu) ≡ ok config
      → with_default env lbc (all_upstreams env lbc ings) ≡ ok ws
      → unique_loop env lbc (sorted_upstreams ws) ≡ ok vs
      → get_upstream_servers env lbc ings ≡ ok (record config { upstreams = vs })
  unfolding get_upstream_servers
  get_upstream_servers-eq ings e a w u =
      rw (ingress_loop-append env lbc ings [] []) (rw (e, a, w, u))

  pub arrange_new :
      (cred : Option TlsCred) (pems : List TlsCred)
      → (c : IngressConfig) × (arrange_creds sorter cred pems (new_ingress_config num_cpu) ≡ ok c)
        × IsArranged cred pems c
  unfolding new_ingress_config
  arrange_new cred pems =
      arrange_creds-IsArranged (new_ingress_config num_cpu) refl refl refl sorter cred pems

  with_upstreams-IsArranged :
      (cred : Option TlsCred) (pems : List TlsCred) (c : IngressConfig) (vs : List Upstream)
      → IsArranged cred pems c
      → IsArranged cred pems (record c { upstreams = vs })
  with_upstreams-IsArranged cred pems c vs a = record {
    ascending = a.ascending;
    apart = a.apart;
    covers = a.covers;
    from_secret = a.from_secret;
    tls_iff = a.tls_iff;
  }

  -- If the default secret is in order, and an ingress serves the requests that match no other or the
  -- default backend can, then `getUpstreamServers` returns a configuration. Its upstreams are in the
  -- order of their names; each is that of a path of an ingress of this controller's class whose secrets
  -- are in order, or the default backend's, with its backends sorted by address and port, each pair
  -- once; each such path that has endpoints has its upstream; one upstream is for every host and for
  -- the path "/" or ""; and its credentials are arranged from the default secret's and the ingresses'.
  pub get_upstream_servers-IsConfigFor :
      (ings : List Ingress) (cred : Option TlsCred)
      → default_cred env lbc ≡ ok cred
      → HasDefault ings
      → (config : IngressConfig) × (get_upstream_servers env lbc ings ≡ ok config)
        × IsConfigFor ings config
        × IsArranged cred (all_pems env lbc ings) config
  get_upstream_servers-IsConfigFor ings cred e k =
      let (config, a, arranged) = arrange_new cred (all_pems env lbc ings) in
      let (ws, w, from, kept, (s, m, h)) = sources ings k in
      let (vs, u, r) = unique_loop-IsVersion env lbc (sorted_upstreams ws) (
        All-perm (λ x. x.backends ≢ []) (sorter.sort_slice-perm (less_by name_of) ws)
          (All-map ws (IsSource-ne-nil ings) from)) in
      let versions = versioned ws vs r in
      let (v, m', r') = All-apply (Versioned vs) ws versions s m in
      (
        record config { upstreams = vs },
        get_upstream_servers-eq ings e a w u,
        record {
          by_name =
              IsVersion-IsSorted (sorted_upstreams ws) vs r
                (sorter.sort_slice-IsSorted (less_by name_of) ws (less_by-IsStrictWeak name_of));
          sound = sorted_versions ings ws vs from r;
          complete =
              All-map (all_upstreams env lbc ings)
                (λ x n. All-apply (Versioned vs) ws versions x (kept x n))
                (All-mem (all_upstreams env lbc ings));
          has_default = (v, m', version_is_default s v r' h);
        },
        with_upstreams-IsArranged cred (all_pems env lbc ings) config vs arranged,
      )
