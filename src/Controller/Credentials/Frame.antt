-- ===== src/Controller/Credentials/Frame.antt =====
-- What the credentials are made from: on caches that agree on the secrets that are named they are the same.
use nghttpx_ingress_lb.Common.{
  String, ◌≡◌, ◌∙◌, refl, ap, Option, none, some, List, [], ◌∷◌, ◌++◌, All, Try, failed, got,
}
use nghttpx_ingress_lb.Common.Fallible.{◌>>=◌}
use nghttpx_ingress_lb.Api.{Secret, Ingress}
use nghttpx_ingress_lb.Nghttpx.Types.{TlsCred}
use nghttpx_ingress_lb.Nghttpx.Tls.{Crypto}
use nghttpx_ingress_lb.Controller.Env.{Caches}
use nghttpx_ingress_lb.Controller.Credentials.{
  slashed, found_secret, get_tls_cred_from_secret, tls_loop, get_tls_cred_from_ingress,
}

bind-same :
    {A B : Type 0} (t : Try A) (f g : A → Try B) → ((a : A) → f a ≡ g a) → (t >>= f) ≡ (t >>= g)
bind-same (failed e) f g h = refl
bind-same (got a) f g h = h a

module _ (crypto : Crypto) (cache other : Caches) where
  found_secret-same :
      (key message : String) (t : Try (Option Secret))
      → found_secret crypto other key message t ≡ found_secret crypto cache key message t
  found_secret-same key message (failed e) = refl
  found_secret-same key message (got none) = refl
  found_secret-same key message (got (some s)) = refl

  found_secret-same_secrets :
      (key message : String)
      → other.secret key ≡ cache.secret key
      → found_secret crypto other key message (other.secret key)
        ≡ found_secret crypto cache key message (cache.secret key)
  found_secret-same_secrets key message e =
      found_secret-same key message (other.secret key)
      ∙ ap (found_secret crypto cache key message) e

  pub get_tls_cred_from_secret-same_secrets :
      (key : String)
      → other.secret key ≡ cache.secret key
      → get_tls_cred_from_secret crypto other key ≡ get_tls_cred_from_secret crypto cache key
  unfolding get_tls_cred_from_secret
  get_tls_cred_from_secret-same_secrets key e = found_secret-same_secrets key _ e

  tls_loop-same_secrets :
      (ing : Ingress) (tls : List String) (pems : List TlsCred)
      → All
          (λ s. other.secret (slashed ing.namespace s) ≡ cache.secret (slashed ing.namespace s))
          tls
      → tls_loop crypto other ing tls pems ≡ tls_loop crypto cache ing tls pems
  unfolding tls_loop
  tls_loop-same_secrets ing [] pems h = refl
  tls_loop-same_secrets ing (s ∷ rest) pems (e, h) =
      let key = slashed ing.namespace s in
      ap (λ t. t >>= λ cred. tls_loop crypto other ing rest (pems ++ cred ∷ []))
        (found_secret-same_secrets key _ e)
      ∙ bind-same (found_secret crypto cache key _ (cache.secret key)) _ _
          (λ cred. tls_loop-same_secrets ing rest (pems ++ cred ∷ []) h)

  pub get_tls_cred_from_ingress-same_secrets :
      (ing : Ingress)
      → All
          (λ s. other.secret (slashed ing.namespace s) ≡ cache.secret (slashed ing.namespace s))
          ing.tls
      → get_tls_cred_from_ingress crypto other ing ≡ get_tls_cred_from_ingress crypto cache ing
  unfolding get_tls_cred_from_ingress
  get_tls_cred_from_ingress-same_secrets ing h = tls_loop-same_secrets ing ing.tls [] h
