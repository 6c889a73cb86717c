-- ===== src/Transport.antt =====
-- pkg/moqttransport/new_transport.go, transport.go and quic_moq.go: the constructor by role, the legacy
-- transport, and the helpers that open a QUIC connection. A nil pointer that the constructors return
-- with an error is not kept. A `Role` of the model is one of the two constants.
use mcp_moqt_transport.Base.{ℕ, Bool, true, false, Option, List, String}
use mcp_moqt_transport.Errors.{Result, ok, err, sentinel, session_not_found, wrap}
use mcp_moqt_transport.Errors.Messages.{new_transport_error}
use mcp_moqt_transport.Quic.{QuicConfig, QuicConnectionConfig}
use mcp_moqt_transport.Options.{Role, server, client, Opt, Tls, TransportConfig}
use mcp_moqt_transport.Client.{Client, new_client}
use mcp_moqt_transport.Server.{Server, new_server}

pub data Transport (M : Type 0) : Type 0 where
  of_server : Server M → QuicConnectionConfig → Transport M
  of_client : Client → QuicConnectionConfig → Transport M

module _ {M P : Type 0} (load_pair : String → String → Result ℕ) (generated : Result ℕ)
    (read : String → Result P) (append_certs : P → Option ℕ) where
  unfoldable pub new_moq_transport : Role → List (Option Opt) → ℕ → Result (Transport M)
  unfolding new_server new_client
  new_moq_transport server opts tls = elim (new_server {M = M} load_pair generated opts tls) [
    | err e ↦ err e
    | ok (s, q) ↦ ok (of_server s q)
  ]
  new_moq_transport client opts tls = elim (new_client read append_certs opts tls) [
    | err e ↦ err e
    | ok (c, q) ↦ ok (of_client c q)
  ]

-- The new error is at the address.
unfoldable pub connect_legacy : ℕ → Result ℕ
unfolding new_transport_error
connect_legacy address = err (new_transport_error address "Connect" (sentinel session_not_found))

-- `listen` and `accept` are calls of quic-go, which give a listener and a connection. The Boolean says
-- whether the listener was closed again.
unfoldable pub listen_and_accept_moqt :
    (String → Option Tls → Option QuicConfig → Result ℕ)
    → (ℕ → Result ℕ)
    → TransportConfig
    → Result (ℕ × ℕ) × Bool
listen_and_accept_moqt listen accept cfg = elim (listen cfg.addr cfg.tls_server cfg.quic_config) [
  | err e ↦ (err (wrap "failed to listen" e), false)
  | ok ln ↦ elim (accept ln) [
    | err e ↦ (err (wrap "failed to accept" e), true)
    | ok conn ↦ (ok (conn, ln), false)
  ]
]

unfoldable pub dial_moqt :
    (String → Option Tls → Option QuicConfig → Result ℕ) → TransportConfig → Result ℕ
dial_moqt dial cfg = elim (dial cfg.addr cfg.tls_client cfg.quic_config) [
  | err e ↦ err (wrap "failed to dial" e)
  | ok conn ↦ ok conn
]
