-- ===== src/Command/Doctor/Wired.antt =====
-- cmd/mcp-moqt/main.go, `runDoctor`: the calls of the checks of doctor_checks.go.
use mcp_moqt_transport.Base.{ℕ, Bool, Option, List, String}
use mcp_moqt_transport.Errors.{Error, Result}
use mcp_moqt_transport.Options.{Opt}
use mcp_moqt_transport.Service.Capabilities.{Capabilities}
use mcp_moqt_transport.Command.Probes.{
  Leaf, ClientSession, smoke_capabilities, check_tls_cert_pair, check_udp_port_bind,
  probe_quic_server, probe_metrics_endpoint,
}
use mcp_moqt_transport.Command.Doctor.{Findings}

-- `go_found` tells whether the path has a Go toolchain; the other parameters are those of the checks.
unfoldable pub findings :
    {C T : Type 0}
    → Bool
    → (Capabilities → Option Error)
    → (Capabilities → Result ClientSession)
    → (String → String → Result (List C))
    → (C → Result Leaf)
    → ℕ
    → (String → Result (String × String))
    → (String → String → Option Error)
    → (List (Option Opt) → Result T)
    → (T → Result ClientSession)
    → (String → Result ℕ)
    → Findings
unfolding smoke_capabilities check_tls_cert_pair check_udp_port_bind probe_quic_server
    probe_metrics_endpoint
findings go_found serve join load parse now split listen new connect get = record {
  go_found = go_found;
  smoke = smoke_capabilities serve join;
  cert_pair = check_tls_cert_pair load parse now;
  udp_bind = check_udp_port_bind split listen;
  quic_probe = probe_quic_server new connect;
  metrics_probe = probe_metrics_endpoint get;
}
