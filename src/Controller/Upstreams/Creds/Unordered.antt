-- ===== src/Controller/Upstreams/Creds/Unordered.antt =====
-- The credentials of the configuration, when the ingresses name theirs in another order.
use mathlib.Core.List.{Permᴰ}
use mathlib.Core.Option
use nghttpx_ingress_lb.Common.{
  ◌≡◌, ◌∙◌, sym, ap, refl, String, inl, inr, Option, none, some, List, [], ◌∷◌, map, ok, Bool-cases,
  if◌then◌else◌, arith,
}
use nghttpx_ingress_lb.Common.Text.{◌=s◌}
use nghttpx_ingress_lb.Common.Sorting.{Sorter}
use nghttpx_ingress_lb.Common.Sorting.Adjacent.{dedup}
use nghttpx_ingress_lb.Common.Sorting.Keys.{less_by}
use nghttpx_ingress_lb.Common.Sorting.Unordered.{sort_keys-perm, dedup-map}
use nghttpx_ingress_lb.Nghttpx.Types.{TlsCred, IngressConfig}
use nghttpx_ingress_lb.Nghttpx.Pems.{same_key_path}
use nghttpx_ingress_lb.Nghttpx.Pems.Laws.{remove_duplicate_pems-dedup}
use nghttpx_ingress_lb.Controller.Upstreams.Creds.{
  key_path, remove_default, place_creds, arrange_creds,
}

-- Two configurations are the same but for their upstreams and for the contents of the credentials, which
-- have the same key paths in the same places.
pub record SameCreds (c c' : IngressConfig) : Type 0 where
  pub tls : c.tls ≡ c'.tls
  pub default_path :
      Option.map key_path c.default_tls_cred ≡ Option.map key_path c'.default_tls_cred
  pub sub_paths : map key_path c.sub_tls_cred ≡ map key_path c'.sub_tls_cred
  pub workers : c.workers ≡ c'.workers
  pub extra_config : c.extra_config ≡ c'.extra_config

without : String → List String → List String
without d [] = []
without d (p ∷ ps) = if d =s p then ps else p ∷ without d ps

remove_default-map :
    (d : TlsCred) (l : List TlsCred)
    → map key_path (remove_default d l) ≡ without (key_path d) (map key_path l)
unfolding remove_default without
remove_default-map d [] = refl
remove_default-map d (p ∷ ps) = elim (Bool-cases (same_key_path d p)) [
  | inl e ↦ rw e refl
  | inr e ↦ rw e (ap (λ l. key_path p ∷ l) (remove_default-map d ps))
]

place_creds-SameCreds :
    (cred : Option TlsCred) (l l' : List TlsCred) (config : IngressConfig)
    → map key_path l ≡ map key_path l'
    → SameCreds (place_creds cred l config) (place_creds cred l' config)
unfolding place_creds
place_creds-SameCreds (some d) l l' config e = record {
  tls = refl;
  default_path = refl;
  sub_paths = remove_default-map d l ∙ ap (without (key_path d)) e ∙ sym (remove_default-map d l');
  workers = refl;
  extra_config = refl;
}
place_creds-SameCreds none [] [] config e = ground arith
place_creds-SameCreds none [] (y ∷ ys) config e = cc
place_creds-SameCreds none (x ∷ xs) [] config e = cc
place_creds-SameCreds none (x ∷ xs) (y ∷ ys) config e = record {
  tls = refl;
  default_path = cc;
  sub_paths = cc;
  workers = refl;
  extra_config = refl;
}

-- `arrange_creds` gives the same but for the order in which it is given credentials of one key path.
pub arrange_creds-perm :
    (sorter : Sorter) (cred : Option TlsCred) {pems pems' : List TlsCred} (config : IngressConfig)
    → Permᴰ pems pems'
    → (c : IngressConfig) × (c' : IngressConfig) × (arrange_creds sorter cred pems config ≡ ok c)
      × (arrange_creds sorter cred pems' config ≡ ok c')
      × SameCreds c c'
unfolding arrange_creds
arrange_creds-perm sorter cred {pems} {pems'} config p =
    let left = sorter.sort_slice (less_by key_path) pems in
    let right = sorter.sort_slice (less_by key_path) pems' in
    let paths =
      dedup-map key_path left
      ∙ ap (dedup ◌=s◌) (sort_keys-perm key_path sorter p)
      ∙ sym (dedup-map key_path right) in
    (
      place_creds cred (dedup same_key_path left) config,
      place_creds cred (dedup same_key_path right) config,
      rw (remove_duplicate_pems-dedup left),
      rw (remove_duplicate_pems-dedup right),
      place_creds-SameCreds cred _ _ config paths,
    )
