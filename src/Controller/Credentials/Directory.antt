-- ===== src/Controller/Credentials/Directory.antt =====
-- Where the files of the credentials are: in the directory for them.
use nghttpx_ingress_lb.Common.{
  ◌≡◌, String, Bool, true, ◌&&◌, Option, none, some, List, [], ◌∷◌, ◌++◌, All, All-append, Try,
  failed, got, got_injective,
}
use nghttpx_ingress_lb.Common.Text.{◌<>◌, starts_with, starts_with-append}
use nghttpx_ingress_lb.Common.Fallible.{bind-eq-got, wrap_err-eq-got, wrap_err, or_fail}
use nghttpx_ingress_lb.Api.{Bytes, Secret, Ingress}
use nghttpx_ingress_lb.Nghttpx.Types.{TlsCred}
use nghttpx_ingress_lb.Nghttpx.Tls.{
  Crypto, create_tls_cred, create_tls_key_path, create_tls_cert_path, tls_cred_prefix,
  tls_directory, common_names, check_private_key,
}
use nghttpx_ingress_lb.Controller.Env.{Caches, lookup}
use nghttpx_ingress_lb.Controller.Credentials.{
  slashed, create_tls_cred_from_secret, get_tls_cred_from_secret, get_tls_cred_from_ingress,
  found_secret, tls_loop, tls_cert_key, tls_private_key_key,
}

-- The paths of both files of `c` begin with that of `tlsDirectory`.
abbrev pub in_directory : TlsCred → Bool
in_directory c = starts_with c.key.path tls_directory && starts_with c.cert.path tls_directory

abbrev pub IsInDirectory : TlsCred → Type 0
IsInDirectory c = in_directory c ≡ true

module _ (crypto : Crypto) where
  created-IsInDirectory :
      (name : String) (cert key : Bytes) (c : TlsCred)
      → create_tls_cred crypto name cert key ≡ got c
      → IsInDirectory c
  unfolding create_tls_cred create_tls_key_path create_tls_cert_path
  created-IsInDirectory name cert key c h = rw (← got_injective h) (
      rw (starts_with-append tls_directory ("/" <> (name <> ".key")))
        (starts_with-append tls_directory ("/" <> (name <> ".crt"))))

  create_tls_cred_from_secret-IsInDirectory :
      (s : Secret) (c : TlsCred) → create_tls_cred_from_secret crypto s ≡ got c → IsInDirectory c
  unfolding create_tls_cred_from_secret
  create_tls_cred_from_secret-IsInDirectory s c h =
      let (cert, _, h1) = bind-eq-got _ (or_fail (lookup tls_cert_key s.contents) _) h in
      let (key, _, h2) = bind-eq-got _ (or_fail (lookup tls_private_key_key s.contents) _) h1 in
      let id = slashed s.namespace s.name in
      let (_, _, h3) =
        bind-eq-got _
          (wrap_err (λ e. "No valid TLS certificate found in Secret " <> id <> ": " <> e)
            (common_names crypto cert))
          h2 in
      let (_, _, h4) =
        bind-eq-got _
          (wrap_err (λ e. "No valid TLS private key found in Secret " <> id <> ": " <> e)
            (check_private_key crypto key))
          h3 in
      created-IsInDirectory (tls_cred_prefix s) cert key c (
        wrap_err-eq-got
          (λ e. "Could not create private key and certificate files for Secret " <> id <> ": " <> e)
          (create_tls_cred crypto (tls_cred_prefix s) cert key) h4)

  module _ (cache : Caches) where
    found_secret-IsInDirectory :
        (key message : String) (r : Try (Option Secret)) (c : TlsCred)
        → found_secret crypto cache key message r ≡ got c
        → IsInDirectory c
    found_secret-IsInDirectory key message (failed e) c h = cc
    found_secret-IsInDirectory key message (got none) c h = cc
    found_secret-IsInDirectory key message (got (some s)) c h =
        create_tls_cred_from_secret-IsInDirectory s c h

    pub get_tls_cred_from_secret-IsInDirectory :
        (key : String) (c : TlsCred)
        → get_tls_cred_from_secret crypto cache key ≡ got c
        → IsInDirectory c
    unfolding get_tls_cred_from_secret
    get_tls_cred_from_secret-IsInDirectory key c h =
        found_secret-IsInDirectory key _ (cache.secret key) c h

    tls_loop-IsInDirectory :
        (ing : Ingress) (names : List String) (pems cs : List TlsCred)
        → All IsInDirectory pems
        → tls_loop crypto cache ing names pems ≡ got cs
        → All IsInDirectory cs
    unfolding tls_loop
    tls_loop-IsInDirectory ing [] pems cs h e = rw (← got_injective e) h
    tls_loop-IsInDirectory ing (name ∷ rest) pems cs h e =
        let key = slashed ing.namespace name in
        let (c, e1, e2) = bind-eq-got _ (found_secret crypto cache key _ (cache.secret key)) e in
        tls_loop-IsInDirectory ing rest (pems ++ c ∷ []) cs
          (All-append IsInDirectory pems (c ∷ []) h
            (found_secret-IsInDirectory key _ (cache.secret key) c e1, tt))
          e2

    pub get_tls_cred_from_ingress-IsInDirectory :
        (ing : Ingress) (cs : List TlsCred)
        → get_tls_cred_from_ingress crypto cache ing ≡ got cs
        → All IsInDirectory cs
    unfolding get_tls_cred_from_ingress
    get_tls_cred_from_ingress-IsInDirectory ing cs e = tls_loop-IsInDirectory ing ing.tls [] cs tt e
