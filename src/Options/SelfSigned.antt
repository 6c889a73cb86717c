-- ===== src/Options/SelfSigned.antt =====
-- pkg/moqttransport/tls.go: the self-signed certificate of a server without one, and the default TLS
-- configurations. Keys and certificates of the crypto packages are numbers, and their calls arguments.
use mcp_moqt_transport.Base.{ℕ, ◌+◌, true, false, none, some, List, [], ◌∷◌, String}
use mcp_moqt_transport.Errors.{Result, ok, err}
use mcp_moqt_transport.Options.{Tls, Role, server, client}
use mcp_moqt_transport.Options.Resolve.{tls_1_2}

-- 365 days in nanoseconds.
abbrev pub default_cert_validity : ℕ
default_cert_validity = 31536000000000000

-- The template's fields that are not fixed flags.
pub record Template : Type 0 where
  pub serial_number : ℕ
  pub common_name : String
  pub not_before : ℕ
  pub not_after : ℕ
  pub ip_addresses : List String
  pub dns_names : List String

-- The two `time.Now` calls give `now` and `later`.
unfoldable pub template : ℕ → ℕ → Template
template now later = record {
  serial_number = 1;
  common_name = "localhost";
  not_before = now;
  not_after = later + default_cert_validity;
  ip_addresses = "127.0.0.1" ∷ "::1" ∷ [];
  dns_names = "localhost" ∷ [];
}

module _ (generate_key : Result ℕ) (create : Template → ℕ → Result ℕ)
    (pair : ℕ → ℕ → Result ℕ) where
  -- `create` signs the template with the key; `pair` reads both back from their PEM texts.
  unfoldable pub generate_self_signed_cert : ℕ → ℕ → Result Tls
  unfolding template
  generate_self_signed_cert now later = elim generate_key [
    | err e ↦ err e
    | ok key ↦ elim (create (template now later) key) [
      | err e ↦ err e
      | ok der ↦ elim (pair der key) [
        | err e ↦ err e
        | ok cert ↦ ok (record {
          certificate = some cert;
          root_cas = none;
          insecure_skip_verify = false;
          next_protos = "moq-00" ∷ [];
          min_version = tls_1_2;
        })
      ]
    ]
  ]

  unfoldable pub default_tls_config : ℕ → ℕ → Role → List String → Result Tls
  unfolding generate_self_signed_cert
  default_tls_config now later server alpn = elim (generate_self_signed_cert now later) [
    | err e ↦ err e
    | ok cfg ↦ ok (record cfg { next_protos = alpn })
  ]
  default_tls_config now later client alpn = ok (record {
    certificate = none;
    root_cas = none;
    insecure_skip_verify = true;
    next_protos = alpn;
    min_version = tls_1_2;
  })
