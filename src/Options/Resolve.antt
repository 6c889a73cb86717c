-- ===== src/Options/Resolve.antt =====
-- pkg/moqttransport/tls.go and the loading part of pkg/config/tls.go. `load_pair` is
-- `tls.LoadX509KeyPair`, `read` is `os.ReadFile`, `append_certs` the certificate pool that
-- `AppendCertsFromPEM` fills, none if it finds no certificate, and `generated` the self-signed pair.
use mcp_moqt_transport.Base.{
  ℕ, ◌≡◌, ◌↔◌, ◌≢◌, true, false, not, ◌&&◌, ◌||◌, Option, none, some, List, String, str_eq, eq_iff,
  if◌then◌else◌, Bool-cases, Option-cases, inl, inr, arith, is_some,
}
use mcp_moqt_transport.Errors.{Result, ok, err, text, wrap, Result-cases}
use mcp_moqt_transport.Config.{TlsConfig, has_server_cert, no_alpn}
use mcp_moqt_transport.Options.{Tls, TransportConfig, default_alpn}

-- `tls.VersionTLS12`.
abbrev pub tls_1_2 : ℕ
tls_1_2 = 771

abbrev pub alpn_or_default : List String → List String
alpn_or_default alpn = if no_alpn alpn then default_alpn else alpn

unfoldable pub load_server_tls : (String → String → Result ℕ) → List String → TlsConfig → Result Tls
unfolding has_server_cert
load_server_tls load_pair alpn t =
    if not (has_server_cert t)
    then err (text "tls cert_file and key_file are required for server TLS")
    else elim (load_pair t.cert_file t.key_file) [
      | err e ↦ err (wrap "load tls key pair" e)
      | ok cert ↦ ok (record {
        certificate = some cert;
        root_cas = none;
        insecure_skip_verify = false;
        next_protos = alpn_or_default alpn;
        min_version = tls_1_2;
      })
    ]

unfoldable pub resolve_server_tls :
    (String → String → Result ℕ) → Result ℕ → TransportConfig → Result (TransportConfig × Tls)
unfolding load_server_tls
resolve_server_tls load_pair generated c = elim c.tls_server [
  | some t ↦ ok (c, t)
  | none ↦
      if not (str_eq c.tls_cert_file "") && not (str_eq c.tls_key_file "")
      then elim (load_server_tls load_pair c.alpn (record {
        cert_file = c.tls_cert_file;
        key_file = c.tls_key_file;
        ca_file = "";
        insecure_skip_verify = false;
      })) [ err e ↦ err e | ok t ↦ ok (record c { tls_server = some t }, t) ]
      else elim generated [
        | err e ↦ err e
        | ok cert ↦
            let t : Tls = record {
              certificate = some cert;
              root_cas = none;
              insecure_skip_verify = false;
              next_protos = c.alpn;
              min_version = tls_1_2;
            } in
            ok (record c { tls_server = some t }, t)
      ]
]

module _ {P : Type 0} (read : String → Result P) (append_certs : P → Option ℕ) where
  unfoldable pub load_client_tls : List String → TlsConfig → Result Tls
  load_client_tls alpn t =
      let cfg : Tls = record {
        certificate = none;
        root_cas = none;
        insecure_skip_verify = t.insecure_skip_verify;
        next_protos = alpn_or_default alpn;
        min_version = tls_1_2;
      } in
      if str_eq t.ca_file "" then ok cfg else elim (read t.ca_file) [
        | err e ↦ err (wrap "read ca file" e)
        | ok pem ↦ elim (append_certs pem) [
          | none ↦ err (text "parse ca file: no certificates found")
          | some pool ↦ ok (record cfg { root_cas = some pool; insecure_skip_verify = false })
        ]
      ]

  unfoldable pub resolve_client_tls : TransportConfig → Result (TransportConfig × Tls)
  unfolding load_client_tls
  resolve_client_tls c = elim c.tls_client [
    | some t ↦ ok (c, t)
    | none ↦
        if not (str_eq c.tls_ca_file "") || c.tls_insecure_skip_verify
        then elim (load_client_tls c.alpn (record {
          cert_file = "";
          key_file = "";
          ca_file = c.tls_ca_file;
          insecure_skip_verify = c.tls_insecure_skip_verify;
        })) [ err e ↦ err e | ok t ↦ ok (record c { tls_client = some t }, t) ]
        else (let t : Tls = record {
          certificate = none;
          root_cas = none;
          insecure_skip_verify = true;
          next_protos = c.alpn;
          min_version = tls_1_2;
        } in
            ok (record c { tls_client = some t }, t))
  ]

  -- Without a TLS configuration of its own a client skips the verification of the server exactly when
  -- it has no CA file: the option to skip it decides nothing. With a CA file it verifies against the
  -- file's certificates. It never accepts a version below TLS 1.2.
  pub resolve_client_tls-verifies :
      (c c' : TransportConfig) (t : Tls)
      → c.tls_client ≡ none
      → resolve_client_tls c ≡ ok (c', t)
      → ((t.insecure_skip_verify ≡ true) ↔ (c.tls_ca_file ≡ ""))
        × ((is_some t.root_cas ≡ true) ↔ (c.tls_ca_file ≢ ""))
        × (t.min_version ≡ tls_1_2)
        × (c'.tls_client ≡ some t)
  unfolding resolve_client_tls load_client_tls
  resolve_client_tls-verifies c c' t n h = elim (Bool-cases (str_eq c.tls_ca_file "")) [
    | inl e ↦
        let no_ca : c.tls_ca_file ≡ "" = (eq_iff c.tls_ca_file "").0 e in
        elim (Bool-cases c.tls_insecure_skip_verify) [
          | inl s ↦ ground (arith, n, no_ca)
          | inr s ↦ ground (arith, n, no_ca)
        ]
    | inr e ↦
        let ca : c.tls_ca_file ≢ "" = λ q. ground (arith, eq_iff c.tls_ca_file "") in
        elim (Result-cases (read c.tls_ca_file)) [
          | inl (x, r) ↦ absurd (ground arith)
          | inr (pem, r) ↦ elim (Option-cases (append_certs pem)) [
            | inl a ↦ absurd (ground arith)
            | inr (pool, a) ↦ ground (arith, ca)
          ]
        ]
  ]
