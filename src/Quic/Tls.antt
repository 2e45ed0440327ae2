-- ===== src/Quic/Tls.antt =====
-- quic/tls.go: the certificate of the server, and the TLS configurations of both ends. The crypto
-- packages are a parameter.
use rtp_over_quic.Base.{
  ℕ, ◌≡◌, refl, length, Bool, true, false, String, List, [], ◌∷◌, Option, Outcome, ok, err, panic,
  ◌>>=◌,
}

-- crypto/rsa, crypto/x509, encoding/pem and crypto/tls: `GenerateKey` for a number of bits,
-- `CreateCertificate` for a template with a serial number that signs itself,
-- `MarshalPKCS1PrivateKey`, `EncodeToMemory` for a block of a type, and `X509KeyPair`.
record CryptoLib : Type 1 where
  pub Key : Type 0
  pub Certificate : Type 0
  pub generate_key : ℕ → Outcome Key
  pub create_certificate : ℕ → Key → Outcome (List ℕ)
  pub marshal_key : Key → List ℕ
  pub encode : String → List ℕ → List ℕ
  pub key_pair : List ℕ → List ℕ → Outcome Certificate

-- tls.Config, with the fields that are set; the key log is known by its file.
record TlsConfig (Certificate : Type 0) : Type 0 where
  pub key_log_writer : Option String
  pub certificates : List Certificate
  pub insecure_skip_verify : Bool
  pub next_protos : List String

-- `rtpOverQUICALPN`
abbrev rtp_over_quic_alpn : String
rtp_over_quic_alpn = "rtp-mux-quic"

-- `if err != nil { panic(err) }`
abbrev must : {A : Type 0} → Outcome A → Outcome A
must (ok a) = ok a
must (err e) = panic
must panic = panic

unfoldable generate_tls_config : (l : CryptoLib) → Option String → Outcome (TlsConfig l.Certificate)
generate_tls_config l key_log_writer = do
  key ← must (l.generate_key 1024)
  cert_der ← must (l.create_certificate 1 key)
  let key_pem = l.encode "RSA PRIVATE KEY" (l.marshal_key key)
  let cert_pem = l.encode "CERTIFICATE" cert_der
  tls_cert ← must (l.key_pair cert_pem key_pem)
  ok record {
    key_log_writer = key_log_writer;
    certificates = tls_cert ∷ [];
    insecure_skip_verify = false;
    next_protos = rtp_over_quic_alpn ∷ [];
  }

-- The configuration that the sender's `Connect` makes.
unfoldable client_tls_config : (l : CryptoLib) → Option String → TlsConfig l.Certificate
client_tls_config l key_logger = record {
  key_log_writer = key_logger;
  certificates = [];
  insecure_skip_verify = true;
  next_protos = rtp_over_quic_alpn ∷ [];
}

must-keeps :
    {A B : Type 0} (P : Outcome B → Type 0) (m : Outcome A) (f : A → Outcome B)
    → P panic
    → ((a : A) → P (f a))
    → P (must m >>= f)
must-keeps P (ok a) f panics rest = rest a
must-keeps P (err e) f panics rest = panics
must-keeps P panic f panics rest = panics

-- The server's configuration fits that of a client with the same key log: the same protocol, and a
-- certificate to show. There is no error: the server panics instead.
abbrev FitsClient : (l : CryptoLib) → Option String → Outcome (TlsConfig l.Certificate) → Type 0
FitsClient l log (ok c) =
    (c.next_protos ≡ (client_tls_config l log).next_protos)
    × (c.key_log_writer ≡ (client_tls_config l log).key_log_writer)
    × (length c.certificates ≡ 1)
FitsClient l log (err e) = ⊥
FitsClient l log panic = Unit {0}

generate_tls_config-FitsClient :
    (l : CryptoLib) (log : Option String) → FitsClient l log (generate_tls_config l log)
unfolding generate_tls_config client_tls_config
generate_tls_config-FitsClient l log =
    let fits = FitsClient l log in
    must-keeps fits (l.generate_key 1024) _ tt λ key.
      must-keeps fits (l.create_certificate 1 key) _ tt λ cert.
        must-keeps fits
          (l.key_pair (l.encode "CERTIFICATE" cert)
            (l.encode "RSA PRIVATE KEY" (l.marshal_key key)))
          _ tt λ pair. (refl, refl, refl)
