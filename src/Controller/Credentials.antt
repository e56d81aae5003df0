-- ===== src/Controller/Credentials.antt =====
-- `createTLSCredFromSecret`, `getTLSCredFromSecret` and `getTLSCredFromIngress` of controller.go.
pub mod Frame
pub mod Directory
pub mod Unusable
use nghttpx_ingress_lb.Common.{String, Option, none, some, List, [], ◌∷◌, ◌++◌, Try, failed, got}
use nghttpx_ingress_lb.Common.Text.{◌<>◌}
use nghttpx_ingress_lb.Common.Fallible.{◌>>=◌, wrap_err, or_fail}
use nghttpx_ingress_lb.Api.{Secret, Ingress}
use nghttpx_ingress_lb.Nghttpx.Types.{TlsCred}
use nghttpx_ingress_lb.Nghttpx.Tls.{
  Crypto, common_names, check_private_key, create_tls_cred, tls_cred_prefix,
}
use nghttpx_ingress_lb.Controller.Env.{Caches, lookup}

-- `fmt.Sprintf("%v/%v", namespace, name)`
abbrev pub slashed : String → String → String
slashed namespace name = namespace <> "/" <> name

abbrev pub tls_cert_key : String
tls_cert_key = "tls.crt"

abbrev pub tls_private_key_key : String
tls_private_key_key = "tls.key"

module _ (crypto : Crypto) where
  unfoldable pub create_tls_cred_from_secret : Secret → Try TlsCred
  create_tls_cred_from_secret secret =
      let id = slashed secret.namespace secret.name in
      do
        cert ←
            or_fail (lookup tls_cert_key secret.contents) ("Secret " <> id <> " has no certificate")
        key ←
            or_fail (lookup tls_private_key_key secret.contents)
              ("Secret " <> id <> " has no private key")
        _ ←
            wrap_err (λ e. "No valid TLS certificate found in Secret " <> id <> ": " <> e)
              (common_names crypto cert)
        _ ←
            wrap_err (λ e. "No valid TLS private key found in Secret " <> id <> ": " <> e)
              (check_private_key crypto key)
        wrap_err
            (λ e.
              "Could not create private key and certificate files for Secret " <> id <> ": " <> e)
            (create_tls_cred crypto (tls_cred_prefix secret) cert key)

  module _ (cache : Caches) where
    abbrev pub found_secret : String → String → Try (Option Secret) → Try TlsCred
    found_secret key message (failed e) = failed (message <> ": " <> e)
    found_secret key message (got none) = failed ("Secret " <> key <> " has been deleted")
    found_secret key message (got (some s)) = create_tls_cred_from_secret s

    unfoldable pub get_tls_cred_from_secret : String → Try TlsCred
    get_tls_cred_from_secret key =
        found_secret key ("Could not get TLS secret " <> key) (cache.secret key)

    -- The loop over `ing.Spec.TLS`, with `pems` as accumulator.
    tls_loop : Ingress → List String → List TlsCred → Try (List TlsCred)
    tls_loop ing [] pems = got pems
    tls_loop ing (secret_name ∷ rest) pems =
        let key = slashed ing.namespace secret_name in
        found_secret key
          ("Error retrieving Secret " <> key <> " for Ingress " <> slashed ing.namespace ing.name)
          (cache.secret key)
        >>= λ cred. tls_loop ing rest (pems ++ cred ∷ [])

    unfoldable pub get_tls_cred_from_ingress : Ingress → Try (List TlsCred)
    unfolding tls_loop
    get_tls_cred_from_ingress ing = tls_loop ing ing.tls []
