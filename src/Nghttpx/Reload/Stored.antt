-- ===== src/Nghttpx/Reload/Stored.antt =====
-- The files of the credentials after `writeTLSKeyCert`.
use mathlib.Core.Path.{subst}
use nghttpx_ingress_lb.Common.{◌≡◌, ◌≢◌, Option, none, some, List, [], ◌∷◌, All, got}
use nghttpx_ingress_lb.Nghttpx.Types.{TlsCred, IngressConfig}
use nghttpx_ingress_lb.Nghttpx.Io.{Os, wrap, ◌>>=◌}
use nghttpx_ingress_lb.Nghttpx.Io.Laws.{after-eq-got, wrapped-eq-got}
use nghttpx_ingress_lb.Nghttpx.Files.{read_file, write_file}
use nghttpx_ingress_lb.Nghttpx.Files.Laws.{FileLaws, write_file-Keeps, write_file-content}
use nghttpx_ingress_lb.Nghttpx.Reload.{write_cred, write_creds, write_default, write_tls_key_cert}
use nghttpx_ingress_lb.Nghttpx.Reload.Retry.{NotOf, write_creds-Keeps}

-- No file of a credential is another one's, or both its key and its certificate.
abbrev pub Distinct : List TlsCred → Type 0
Distinct [] = Unit
Distinct (c ∷ cs) =
    (c.key.path ≢ c.cert.path)
    × All (NotOf c.key.path) cs
    × All (NotOf c.cert.path) cs
    × Distinct cs

abbrev pub with_default_cred : Option TlsCred → List TlsCred → List TlsCred
with_default_cred none cs = cs
with_default_cred (some c) cs = c ∷ cs

module _ {W : Type 0} (os : Os W) where
  abbrev pub IsStored : W → TlsCred → Type 0
  IsStored w c =
      (read_file os c.key.path w ≡ got c.key.content)
      × (read_file os c.cert.path w ≡ got c.cert.content)

  module _ (laws : FileLaws os) where
    write_cred-IsStored :
        (c : TlsCred) (w w' : W)
        → c.key.path ≢ c.cert.path
        → write_cred os c w ≡ (got tt, w')
        → IsStored w' c
    unfolding write_cred
    write_cred-IsStored c w w' n h =
        let (_, w1, e1, h1) =
          after-eq-got (wrap _ (write_file os c.key.path c.key.content) w) _ h in
        let key =
          write_file-content os laws c.key.path c.key.content w w1
            (wrapped-eq-got _ (write_file os c.key.path c.key.content w) e1) in
        let done = wrapped-eq-got _ (write_file os c.cert.path c.cert.content w1) h1 in
        (
          subst (λ s. read_file os c.key.path s.1 ≡ got c.key.content) done
              (write_file-Keeps os laws c.cert.path c.key.path c.cert.content c.key.content n w1
                key),
          write_file-content os laws c.cert.path c.cert.content w1 w' done,
        )

    write_creds-IsStored :
        (cs : List TlsCred) (w w' : W)
        → Distinct cs
        → write_creds os cs w ≡ (got tt, w')
        → All (IsStored w') cs
    unfolding write_creds
    write_creds-IsStored [] w w' n h = tt
    write_creds-IsStored (c ∷ cs) w w' (n, nk, nc, ns) h =
        let (_, w1, e1, h1) = after-eq-got (write_cred os c w) _ h in
        let (key, cert) = write_cred-IsStored c w w1 n e1 in
        (
          (
            subst (λ s. read_file os c.key.path s.1 ≡ got c.key.content) h1
                (write_creds-Keeps os laws c.key.path c.key.content cs nk w1 key),
            subst (λ s. read_file os c.cert.path s.1 ≡ got c.cert.content) h1
                (write_creds-Keeps os laws c.cert.path c.cert.content cs nc w1 cert),
          ),
          write_creds-IsStored cs w1 w' ns h1,
        )

    -- If `writeTLSKeyCert` returns no error, then the private key and the certificate of every
    -- credential of the configuration, the default one included, are in their files, provided that no
    -- two of these files are the same one.
    pub write_tls_key_cert-IsStored :
        (config : IngressConfig) (w w' : W)
        → Distinct (with_default_cred config.default_tls_cred config.sub_tls_cred)
        → write_tls_key_cert os config w ≡ (got tt, w')
        → All (IsStored w') (with_default_cred config.default_tls_cred config.sub_tls_cred)
    unfolding write_tls_key_cert write_default write_creds
    write_tls_key_cert-IsStored config w w' = go config.default_tls_cred config.sub_tls_cred
      where
        go :
            (o : Option TlsCred) (cs : List TlsCred)
            → Distinct (with_default_cred o cs)
            → (write_default os o >>= λ _. write_creds os cs) w ≡ (got tt, w')
            → All (IsStored w') (with_default_cred o cs)
        go none cs n h = write_creds-IsStored cs w w' n h
        go (some c) cs n h = write_creds-IsStored (c ∷ cs) w w' n h
