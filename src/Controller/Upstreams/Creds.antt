-- ===== src/Controller/Upstreams/Creds.antt =====
-- The TLS credentials of the configuration: sorted, each key path once, the default one apart.
pub mod Laws
pub mod Unordered
use nghttpx_ingress_lb.Common.{
  Option, none, some, List, [], ◌∷◌, true, Result, ok, ◌>>=◌, if◌then◌else◌, String,
}
use nghttpx_ingress_lb.Common.Sorting.{Sorter}
use nghttpx_ingress_lb.Common.Sorting.Keys.{less_by}
use nghttpx_ingress_lb.Nghttpx.Types.{TlsCred, IngressConfig}
use nghttpx_ingress_lb.Nghttpx.Pems.{same_key_path, remove_duplicate_pems}

-- The loop that takes the first credential with the default one's key path out of `pems`.
remove_default : TlsCred → List TlsCred → List TlsCred
remove_default d [] = []
remove_default d (p ∷ ps) = if same_key_path d p then ps else p ∷ remove_default d ps

place_creds : Option TlsCred → List TlsCred → IngressConfig → IngressConfig
unfolding remove_default
place_creds (some d) pems config = record config {
  tls = true;
  default_tls_cred = some d;
  sub_tls_cred = remove_default d pems;
}
place_creds none [] config = config
place_creds none (p ∷ ps) config = record config {
  tls = true;
  default_tls_cred = some p;
  sub_tls_cred = ps;
}

abbrev pub key_path : TlsCred → String
key_path c = c.key.path

unfoldable pub arrange_creds :
    Sorter → Option TlsCred → List TlsCred → IngressConfig → Result IngressConfig
unfolding place_creds
arrange_creds sorter default_cred pems config =
    remove_duplicate_pems (sorter.sort_slice (less_by key_path) pems) >>= λ unique.
    ok (place_creds default_cred unique config)
