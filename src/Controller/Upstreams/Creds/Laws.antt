-- ===== src/Controller/Upstreams/Creds/Laws.antt =====
-- The credentials that the configuration names.
use mathlib.Core.List.Permᴰ
use nghttpx_ingress_lb.Common.{
  ◌≡◌, ◌≢◌, ◌↔◌, Bool, true, false, inl, inr, Option, none, some, List, [], ◌∷◌, arith, any, All,
  All-perm, All-map, ok, ok_injective, Bool-cases,
}
use nghttpx_ingress_lb.Common.Int.{ℤ}
use nghttpx_ingress_lb.Common.Text.{eq_iff, eq_refl, str_lt_connex, str_lt_irrefl}
use nghttpx_ingress_lb.Common.Sorting.{Sorter, IsStrictlySorted}
use nghttpx_ingress_lb.Common.Sorting.Keys.{less_by, less_by-IsStrictWeak}
use nghttpx_ingress_lb.Common.Sorting.Adjacent.{
  dedup, dedup_covers, dedup-All, dedup-IsStrictlySorted,
}
use nghttpx_ingress_lb.Nghttpx.Types.{TlsCred, IngressConfig, new_ingress_config}
use nghttpx_ingress_lb.Nghttpx.Pems.{same_key_path}
use nghttpx_ingress_lb.Nghttpx.Pems.Laws.{remove_duplicate_pems-dedup}
use nghttpx_ingress_lb.Controller.Upstreams.Creds.{
  key_path, remove_default, place_creds, arrange_creds,
}

abbrev pub less_key : TlsCred → TlsCred → Bool
less_key = less_by key_path

key_connex :
    (x y : TlsCred) → same_key_path x y ≡ false → less_key y x ≡ false → less_key x y ≡ true
key_connex x y h k =
    ground (arith, eq_iff (key_path x) (key_path y), str_lt_connex (key_path x) (key_path y))

same_key_le : (x y : TlsCred) → same_key_path x y ≡ true → less_key y x ≡ false
same_key_le x y h = ground (arith, eq_iff (key_path x) (key_path y), str_lt_irrefl (key_path x))

remove_default-All :
    (P : TlsCred → Bool) (d : TlsCred) (l : List TlsCred)
    → All (λ c. P c ≡ true) l
    → All (λ c. P c ≡ true) (remove_default d l)
unfolding remove_default
remove_default-All P d [] h = h
remove_default-All P d (x ∷ xs) h = elim (Bool-cases (same_key_path d x)) [
  | inl e ↦ rw e h.1
  | inr e ↦ rw e (h.0, remove_default-All P d xs h.1)
]

differs_of_less :
    (d x y : TlsCred) → same_key_path d x ≡ true → less_key x y ≡ true → same_key_path d y ≡ false
differs_of_less d x y e h = ground (
  arith,
  eq_iff (key_path d) (key_path x),
  eq_iff (key_path d) (key_path y),
  str_lt_irrefl (key_path x),
)

remove_default-IsStrictlySorted :
    (d : TlsCred) (l : List TlsCred)
    → IsStrictlySorted less_key l
    → IsStrictlySorted less_key (remove_default d l)
      × All (λ c. same_key_path d c ≡ false) (remove_default d l)
unfolding remove_default
remove_default-IsStrictlySorted d [] s = (tt, tt)
remove_default-IsStrictlySorted d (x ∷ xs) s = elim (Bool-cases (same_key_path d x)) [
  | inl e ↦ rw e (s.1, All-map xs (λ y h. differs_of_less d x y e h) s.0)
  | inr e ↦
      let rest = remove_default-IsStrictlySorted d xs s.1 in
      rw e ((remove_default-All (less_key x) d xs s.0, rest.0), (e, rest.1))
]

-- what `c` covers, or the list covers
abbrev listed : Option TlsCred → List TlsCred → TlsCred → Bool
listed none l x = any (λ c. same_key_path c x) l
listed (some d) l x = any (λ c. same_key_path c x) (d ∷ l)

remove_default_covers :
    (d : TlsCred) (l : List TlsCred) (x : TlsCred)
    → any (λ c. same_key_path c x) l ≡ true
    → any (λ c. same_key_path c x) (d ∷ remove_default d l) ≡ true
unfolding remove_default
remove_default_covers d [] x h = cc
remove_default_covers d (y ∷ l) x h = ground (
  arith,
  remove_default_covers d l x,
  eq_iff (key_path d) (key_path y),
  eq_iff (key_path d) (key_path x),
  eq_iff (key_path y) (key_path x),
)

-- The credentials of the configuration `c`, from those that the ingresses name (`pems`) and the one
-- of the default secret (`cred`).
pub record IsArranged (cred : Option TlsCred) (pems : List TlsCred) (c : IngressConfig)
    : Type 0 where
  pub ascending : IsStrictlySorted less_key c.sub_tls_cred
  pub apart :
      (d : TlsCred)
      → c.default_tls_cred ≡ some d
      → All (λ s. same_key_path d s ≡ false) c.sub_tls_cred
  pub covers : All (λ x. listed c.default_tls_cred c.sub_tls_cred x ≡ true) pems
  pub from_secret : (d : TlsCred) → cred ≡ some d → c.default_tls_cred ≡ some d
  pub tls_iff : (c.tls ≡ true) ↔ (c.default_tls_cred ≢ none)

module _ (config : IngressConfig) (plain : config.tls ≡ false)
    (bare : config.default_tls_cred ≡ none) (empty : config.sub_tls_cred ≡ []) where
  place_creds-IsArranged :
      (cred : Option TlsCred) (pems l : List TlsCred)
      → IsStrictlySorted less_key l
      → All (λ x. any (λ c. same_key_path c x) l ≡ true) pems
      → IsArranged cred pems (place_creds cred l config)
  unfolding place_creds
  place_creds-IsArranged (some d) pems l s h = record {
    ascending = (remove_default-IsStrictlySorted d l s).0;
    apart = λ d' e.
        let same : d ≡ d' = ground arith in rw (← same) ((remove_default-IsStrictlySorted d l s).1);
    covers = All-map pems (remove_default_covers d l) h;
    from_secret = λ d' e. e;
    tls_iff = ground arith;
  }
  place_creds-IsArranged none pems [] s h = record {
    ascending = rw empty tt;
    apart = λ d e. ground arith;
    covers = All-map pems (λ x e. cc) h;
    from_secret = λ d e. ground arith;
    tls_iff = ground arith;
  }
  place_creds-IsArranged none pems (p ∷ ps) s h = record {
    ascending = s.1;
    apart = λ d e.
        let same : p ≡ d = ground arith in
        rw (← same) (All-map ps (λ y k. differs_of_less p p y (eq_refl (key_path p)) k) s.0);
    covers = h;
    from_secret = λ d e. ground arith;
    tls_iff = ground arith;
  }

  -- From a configuration without credentials, arranging them does not fail. The default credential is
  -- the default secret's, if there is one; the others are in ascending order of their key paths, each
  -- key path once, and none has the default one's; every credential of the ingresses has its key path
  -- among them; and TLS is on exactly if there is a default credential.
  pub arrange_creds-IsArranged :
      (sorter : Sorter) (cred : Option TlsCred) (pems : List TlsCred)
      → (c : IngressConfig) × (arrange_creds sorter cred pems config ≡ ok c)
        × IsArranged cred pems c
  unfolding arrange_creds
  arrange_creds-IsArranged sorter cred pems =
      let sorted = sorter.sort_slice less_key pems in
      let weak = less_by-IsStrictWeak key_path in
      let unique = dedup same_key_path sorted in
      (
        place_creds cred unique config,
        rw (remove_duplicate_pems-dedup sorted),
        place_creds-IsArranged cred pems unique
            (dedup-IsStrictlySorted same_key_path less_key weak key_connex same_key_le sorted
              (sorter.sort_slice-IsSorted less_key pems weak))
            (All-perm (λ x. any (λ c. same_key_path c x) unique ≡ true)
              (Permᴰ.symm (sorter.sort_slice-perm less_key pems))
              (dedup_covers same_key_path (λ c. eq_refl (key_path c)) sorted)),
      )

-- the default credential, if there is one
abbrev pub default_list : Option TlsCred → List TlsCred
default_list none = []
default_list (some d) = d ∷ []

place_creds-All :
    (P : TlsCred → Bool) (cred : Option TlsCred) (l : List TlsCred) (config : IngressConfig)
    → All (λ c. P c ≡ true) (default_list config.default_tls_cred)
    → All (λ c. P c ≡ true) config.sub_tls_cred
    → All (λ c. P c ≡ true) (default_list cred)
    → All (λ c. P c ≡ true) l
    → All (λ c. P c ≡ true) (default_list (place_creds cred l config).default_tls_cred)
      × All (λ c. P c ≡ true) (place_creds cred l config).sub_tls_cred
unfolding place_creds
place_creds-All P (some d) l config a b h k = (h, remove_default-All P d l k)
place_creds-All P none [] config a b h k = (a, b)
place_creds-All P none (x ∷ xs) config a b h k = ((k.0, tt), k.1)

-- What holds of the default secret's credential and of those of the ingresses holds of those of the
-- configuration that is arranged from an empty one.
pub arrange_creds-All :
    (P : TlsCred → Bool) (sorter : Sorter) (cred : Option TlsCred) (pems : List TlsCred)
    (num_cpu : ℤ) (c : IngressConfig)
    → All (λ c. P c ≡ true) (default_list cred)
    → All (λ c. P c ≡ true) pems
    → arrange_creds sorter cred pems (new_ingress_config num_cpu) ≡ ok c
    → All (λ c. P c ≡ true) (default_list c.default_tls_cred) × All (λ c. P c ≡ true) c.sub_tls_cred
unfolding arrange_creds new_ingress_config
arrange_creds-All P sorter cred pems num_cpu c h k e =
    let sorted = sorter.sort_slice less_key pems in
    let unique = dedup same_key_path sorted in
    let e' : place_creds cred unique (new_ingress_config num_cpu) ≡ c =
      ok_injective (rw (remove_duplicate_pems-dedup sorted) at e) in
    rw (← e') (
      place_creds-All P cred unique (new_ingress_config num_cpu) tt tt h (
        dedup-All same_key_path (λ c. P c ≡ true) sorted
          (All-perm (λ c. P c ≡ true) (sorter.sort_slice-perm less_key pems) k)))
