-- ===== src/Controller/Upstreams.antt =====
-- `getUpstreamServers` and `getDefaultUpstream` of controller.go: its parts are the child modules.
pub mod Paths
pub mod Creds
pub mod Unique
pub mod Collected
pub mod Versions
pub mod Laws
pub mod Config
pub mod Failures
pub mod Ignored
pub mod Unread
pub mod Frame
pub mod Assembled
pub mod Unordered
pub mod Untouched
pub mod Tests
use nghttpx_ingress_lb.Common.{
  String, Bool, true, false, Option, none, some, List, [], ◌∷◌, ◌++◌, ◌&&◌, ◌||◌, not, any, Result,
  ok, ◌>>=◌, Try, failed, got, try, if◌then◌else◌,
}
use nghttpx_ingress_lb.Common.Int.{ℤ}
use nghttpx_ingress_lb.Common.Text.{◌=s◌}
use nghttpx_ingress_lb.Common.Sorting.{Sorter}
use nghttpx_ingress_lb.Common.Sorting.Keys.{less_by}
use nghttpx_ingress_lb.Api.{Ingress}
use nghttpx_ingress_lb.Nghttpx.Types.{TlsCred, Upstream, IngressConfig, new_ingress_config}
use nghttpx_ingress_lb.Nghttpx.Tls.{Crypto}
use nghttpx_ingress_lb.Controller.Env.{LoadBalancerController, Libraries, Caches}
use nghttpx_ingress_lb.Controller.Annotation.{validate_ingress_class, get_backend_config}
use nghttpx_ingress_lb.Controller.Credentials.{get_tls_cred_from_secret, get_tls_cred_from_ingress}
use Paths.{rule_loop, get_default_upstream}
use Creds.{arrange_creds}
use Unique.{unique_backends}

-- What the program calls: the listers, the libraries, the sort and the number of CPUs.
pub record Environment : Type 1 where
  pub lib : Libraries
  pub crypto : Crypto
  pub cache : Caches
  pub sorter : Sorter
  pub num_cpu : ℤ

module _ (env : Environment) (lbc : LoadBalancerController) where
  open env use {lib, crypto, cache, sorter, num_cpu}

  -- One round of the loop over the ingresses.
  ingress_round :
      Ingress → List Upstream × List TlsCred → Try (List TlsCred) → List Upstream × List TlsCred
  ingress_round ing (upstreams, pems) (got ing_pems) = (
    rule_loop lib cache lbc ing (any (λ _. true) ing_pems) (get_backend_config lib ing.annotations)
        ing.rules upstreams,
    pems ++ ing_pems,
  )
  ingress_round ing acc (failed _) = acc

  pub ingress_loop : List Ingress → List Upstream × List TlsCred → List Upstream × List TlsCred
  unfolding ingress_round
  ingress_loop [] acc = acc
  ingress_loop (ing ∷ rest) acc = ingress_loop rest (
      if not (validate_ingress_class lbc ing)
      then acc
      else ingress_round ing acc (get_tls_cred_from_ingress crypto cache ing))

  pub default_cred : Result (Option TlsCred)
  default_cred =
      if lbc.default_tls_secret =s ""
      then ok none
      else try (get_tls_cred_from_secret crypto cache lbc.default_tls_secret) >>= λ cred.
          ok (some cred)

  abbrev pub is_default : Upstream → Bool
  is_default u = u.host =s "" && (u.path =s "" || u.path =s "/")

  with_default : List Upstream → Result (List Upstream)
  with_default upstreams =
      if any is_default upstreams
      then ok upstreams
      else get_default_upstream lib cache lbc >>= λ u. ok (upstreams ++ u ∷ [])

  -- The last loop: the backends of each upstream in turn.
  pub unique_loop : List Upstream → Result (List Upstream)
  unique_loop [] = ok []
  unique_loop (u ∷ us) = unique_backends sorter u.backends >>= λ backends.
      unique_loop us >>= λ us'. ok (record u { backends = backends } ∷ us')

  unfoldable pub get_upstream_servers : List Ingress → Result IngressConfig
  unfolding ingress_loop default_cred with_default unique_loop
  get_upstream_servers ings =
      let (upstreams, pems) = ingress_loop ings ([], []) in
      do
        cred ← default_cred
        config ← arrange_creds sorter cred pems (new_ingress_config num_cpu)
        upstreams' ← with_default upstreams
        unique ← unique_loop (sorter.sort_slice (less_by (λ u. u.name)) upstreams')
        ok (record config { upstreams = unique })
