-- ===== src/Nghttpx/Tls.antt =====
-- pkg/nghttpx/tls.go, and `Checksum` of pkg/nghttpx/utils.go. Decoding, parsing and hashing are the
-- crypto libraries', and come as a parameter.
use nghttpx_ingress_lb.Common.{String, Option, none, some, List, ◌∷◌, Try, failed, got}
use nghttpx_ingress_lb.Common.Text.{◌<>◌}
use nghttpx_ingress_lb.Common.Fallible.{◌>>=◌}
use nghttpx_ingress_lb.Api.{Bytes, Secret}
use nghttpx_ingress_lb.Nghttpx.Types.{TlsCred}

-- The private keys that `x509.ParsePKCS8PrivateKey` tells apart.
pub data PrivateKey : Type 0 where
  rsa ecdsa unknown : PrivateKey

pub record Certificate : Type 0 where
  pub common_name : String
  pub dns_names : List String

-- crypto/x509, encoding/pem and crypto/sha256 (in hex)
pub record Crypto : Type 0 where
  pub pem_decode : Bytes → Option Bytes
  pub parse_certificate : Bytes → Try Certificate
  pub parse_pkcs1 : Bytes → Option PrivateKey
  pub parse_pkcs8 : Bytes → Option PrivateKey
  pub parse_ec : Bytes → Option PrivateKey
  pub sha256_hex : Bytes → String

abbrev pub tls_directory : String
tls_directory = "/etc/nghttpx-tls"

-- `filepath.Join` of the directory and a name without a slash
unfoldable pub create_tls_key_path : String → String
create_tls_key_path name = tls_directory <> "/" <> (name <> ".key")

unfoldable pub create_tls_cert_path : String → String
create_tls_cert_path name = tls_directory <> "/" <> (name <> ".crt")

unfoldable pub tls_cred_prefix : Secret → String
tls_cred_prefix secret = secret.namespace <> "_" <> secret.name

module _ (crypto : Crypto) where
  open crypto use {pem_decode, parse_certificate, parse_pkcs1, parse_pkcs8, parse_ec, sha256_hex}

  -- It never fails.
  unfoldable pub create_tls_cred : String → Bytes → Bytes → Try TlsCred
  create_tls_cred name cert key = got (record {
    key = record { path = create_tls_key_path name; content = key; checksum = sha256_hex key };
    cert = record { path = create_tls_cert_path name; content = cert; checksum = sha256_hex cert };
  })

  names_of : Certificate → List String
  names_of cert = cert.common_name ∷ cert.dns_names

  unfoldable pub common_names : Bytes → Try (List String)
  unfolding names_of
  common_names cert_blob = elim (pem_decode cert_blob) [
    | none ↦ failed "No valid PEM formatted block found from certificate"
    | some block ↦ parse_certificate block >>= λ cert. got (names_of cert)
  ]

  known_key : PrivateKey → Try PrivateKey
  known_key rsa = got rsa
  known_key ecdsa = got ecdsa
  known_key unknown = failed "Found unknown private key type in PKCS#8 wrapping"

  unfoldable pub parse_private_key : Bytes → Try PrivateKey
  unfolding known_key
  parse_private_key der = elim (parse_pkcs1 der) [
    | some key ↦ got key
    | none ↦ elim (parse_pkcs8 der) [
      | some key ↦ known_key key
      | none ↦ elim (parse_ec der) [
        | some key ↦ got key
        | none ↦ failed "Failed to parse private key"
      ]
    ]
  ]

  unfoldable pub check_private_key : Bytes → Try (Unit {0})
  unfolding parse_private_key
  check_private_key key_blob = elim (pem_decode key_blob) [
    | none ↦ failed "No valid PEM formatted block found from private key"
    | some block ↦ parse_private_key block >>= λ _. got tt
  ]
