-- ===== src/Controller/Credentials/Unusable.antt =====
-- The secrets that are of no use to an ingress.
use mathlib.Core.List.{Memᴰ}
use nghttpx_ingress_lb.Common.{
  String, ◌≡◌, ◌⊎◌, inl, inr, refl, Option, none, some, List, [], ◌∷◌, ◌++◌, Try, failed, got,
}
use nghttpx_ingress_lb.Common.Fallible.{◌>>=◌, wrap_err, or_fail}
use nghttpx_ingress_lb.Api.{Bytes, Secret, Ingress}
use nghttpx_ingress_lb.Nghttpx.Types.{TlsCred}
use nghttpx_ingress_lb.Nghttpx.Tls.{
  Crypto, unknown, common_names, parse_private_key, check_private_key,
}
use nghttpx_ingress_lb.Controller.Env.{Caches, lookup}
use nghttpx_ingress_lb.Controller.Credentials.{
  slashed, create_tls_cred_from_secret, found_secret, tls_loop, get_tls_cred_from_ingress,
}

abbrev pub Fails : {A : Type 0} → Try A → Type 0
Fails t = (m : String) × (t ≡ failed m)

bind-Fails : {A B : Type 0} (t : Try A) (f : A → Try B) → Fails t → Fails (t >>= f)
bind-Fails (failed e) f h = (e, refl)
bind-Fails (got a) f (m, h) = cc

bind_rest-Fails :
    {A B : Type 0} (t : Try A) (f : A → Try B)
    → ((a : A) → t ≡ got a → Fails (f a))
    → Fails (t >>= f)
bind_rest-Fails (failed e) f h = (e, refl)
bind_rest-Fails (got a) f h = h a refl

wrap_err-Fails : {A : Type 0} (m : String → String) (t : Try A) → Fails t → Fails (wrap_err m t)
wrap_err-Fails m (failed e) h = (m e, refl)
wrap_err-Fails m (got a) (e, h) = cc

module _ (crypto : Crypto) where
  open crypto use {pem_decode, parse_certificate, parse_pkcs1, parse_pkcs8, parse_ec}

  -- There is no PEM block, or no certificate in it.
  abbrev pub IsBadCert : Bytes → Type 0
  IsBadCert cert =
      (pem_decode cert ≡ none)
      ⊎ ((block : Bytes) × (pem_decode cert ≡ some block) × Fails (parse_certificate block))

  -- There is no PEM block, or no private key in it of a type that is known.
  abbrev pub IsBadKey : Bytes → Type 0
  IsBadKey key =
      (pem_decode key ≡ none)
      ⊎ ((block : Bytes) × (pem_decode key ≡ some block)
          × (parse_pkcs1 block ≡ none)
          × ((parse_pkcs8 block ≡ some unknown)
              ⊎ ((parse_pkcs8 block ≡ none) × (parse_ec block ≡ none))))

  -- What the lister gives is of no use: an error, no secret, or one without a certificate or a private
  -- key, or with one that is not in order.
  pub data IsUnusable : Try (Option Secret) → Type 0 where
    unreadable : (m : String) → IsUnusable (failed m)
    deleted : IsUnusable (got none)
    no_cert : (s : Secret) → lookup "tls.crt" s.contents ≡ none → IsUnusable (got (some s))
    no_key : (s : Secret) → lookup "tls.key" s.contents ≡ none → IsUnusable (got (some s))
    bad_cert :
        (s : Secret) (cert : Bytes)
        → lookup "tls.crt" s.contents ≡ some cert
        → IsBadCert cert
        → IsUnusable (got (some s))
    bad_key :
        (s : Secret) (key : Bytes)
        → lookup "tls.key" s.contents ≡ some key
        → IsBadKey key
        → IsUnusable (got (some s))

  common_names-Fails : (cert : Bytes) → IsBadCert cert → Fails (common_names crypto cert)
  unfolding common_names
  common_names-Fails cert (inl e) = rw (common_names, e) (_, refl)
  common_names-Fails cert (inr (block, e, f)) =
      rw (common_names, e) (bind-Fails (parse_certificate block) _ f)

  parse-Fails :
      (block : Bytes)
      → parse_pkcs1 block ≡ none
      → (parse_pkcs8 block ≡ some unknown) ⊎ ((parse_pkcs8 block ≡ none) × (parse_ec block ≡ none))
      → Fails (parse_private_key crypto block)
  unfolding parse_private_key
  parse-Fails block f (inl g) = rw (parse_private_key, f, g) (_, refl)
  parse-Fails block f (inr (g, h)) = rw (parse_private_key, f, g, h) (_, refl)

  check_private_key-Fails : (key : Bytes) → IsBadKey key → Fails (check_private_key crypto key)
  unfolding check_private_key parse_private_key
  check_private_key-Fails key (inl e) = rw (check_private_key, e) (_, refl)
  check_private_key-Fails key (inr (block, e, f, inl g)) =
      rw (check_private_key, e)
        (bind-Fails (parse_private_key crypto block) _ (parse-Fails block f (inl g)))
  check_private_key-Fails key (inr (block, e, f, inr (g, h))) =
      rw (check_private_key, e)
        (bind-Fails (parse_private_key crypto block) _ (parse-Fails block f (inr (g, h))))

  create-Fails :
      (s : Secret) → IsUnusable (got (some s)) → Fails (create_tls_cred_from_secret crypto s)
  unfolding create_tls_cred_from_secret
  create-Fails s (no_cert _ e) = rw e (_, refl)
  create-Fails s (no_key _ e) =
      bind_rest-Fails (or_fail (lookup "tls.crt" s.contents) _) _ (λ cert k. rw e (_, refl))
  create-Fails s (bad_cert _ cert e b) = rw e (
      bind_rest-Fails (or_fail (lookup "tls.key" s.contents) _) _ (λ key k.
        bind-Fails (wrap_err _ (common_names crypto cert)) _
          (wrap_err-Fails _ _ (common_names-Fails cert b))))
  create-Fails s (bad_key _ key e b) =
      bind_rest-Fails (or_fail (lookup "tls.crt" s.contents) _) _ (λ cert k. rw e (
        bind_rest-Fails (wrap_err _ (common_names crypto cert)) _ (λ names l.
          bind-Fails (wrap_err _ (check_private_key crypto key)) _
            (wrap_err-Fails _ _ (check_private_key-Fails key b)))))

  module _ (cache : Caches) where
    found_secret-Fails :
        (key message : String) (t : Try (Option Secret))
        → IsUnusable t
        → Fails (found_secret crypto cache key message t)
    found_secret-Fails key message (failed e) u = (_, refl)
    found_secret-Fails key message (got none) u = (_, refl)
    found_secret-Fails key message (got (some s)) u = create-Fails s u

    tls_loop-Fails :
        (ing : Ingress) (names : List String) (pems : List TlsCred) (name : String)
        → Memᴰ name names
        → IsUnusable (cache.secret (slashed ing.namespace name))
        → Fails (tls_loop crypto cache ing names pems)
    unfolding tls_loop
    tls_loop-Fails ing [] pems name m u = elim m [ ]
    tls_loop-Fails ing (n ∷ rest) pems name (Memᴰ.head same) u =
        let u' : IsUnusable (cache.secret (slashed ing.namespace n)) = rw (← same) u in
        bind-Fails (found_secret crypto cache _ _ (cache.secret (slashed ing.namespace n))) _
          (found_secret-Fails _ _ (cache.secret (slashed ing.namespace n)) u')
    tls_loop-Fails ing (n ∷ rest) pems name (Memᴰ.tail m) u =
        bind_rest-Fails (found_secret crypto cache _ _ (cache.secret (slashed ing.namespace n))) _
          (λ cred k. tls_loop-Fails ing rest (pems ++ cred ∷ []) name m u)

    -- An ingress with a secret that is of no use has no credentials.
    pub get_tls_cred_from_ingress-Fails :
        (ing : Ingress) (name : String)
        → Memᴰ name ing.tls
        → IsUnusable (cache.secret (slashed ing.namespace name))
        → Fails (get_tls_cred_from_ingress crypto cache ing)
    unfolding get_tls_cred_from_ingress
    get_tls_cred_from_ingress-Fails ing name m u = tls_loop-Fails ing ing.tls [] name m u
