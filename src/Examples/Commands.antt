-- ===== src/Examples/Commands.antt =====
-- Runs of the command line and of the metrics endpoint.
use mcp_moqt_transport.Base.{
  ℕ, ◌≡◌, ◌≤◌, true, false, not, none, some, List, [], ◌∷◌, str_eq, if◌then◌else◌, arith,
}
use mcp_moqt_transport.Errors.{Error, Result, ok, text}
use mcp_moqt_transport.Config.{Config, Format, Os, load_from_file}
use mcp_moqt_transport.Command.Doctor.{Flags, Findings, exit_status, run_doctor}
use mcp_moqt_transport.Command.Doctor.Verdict.{some_failed, run_doctor-verdict}
use mcp_moqt_transport.Command.Serve.{ServerFlags, default_flags, server_options}
use mcp_moqt_transport.Command.Serve.Composed.{
  applied, from_file, from_flags, server_options-applied,
}
use mcp_moqt_transport.Metrics.{
  Event, new_metrics, snapshot, run, message_sent, connection_opened, connection_closed,
}
use mcp_moqt_transport.Metrics.Endpoint.{families}
use mcp_moqt_transport.Metrics.Endpoint.Counters.{Room, budget_of, Grown, run-Grown}

-- The server is not there, and its port is taken.
abbrev probing : Flags
probing = record {
  skip_capabilities = false;
  addr = "127.0.0.1:8080";
  metrics = "";
  tls_cert = "";
  tls_key = "";
  skip_udp_bind = false;
}

abbrev unreachable : Findings
unreachable = record {
  go_found = true;
  smoke = none;
  cert_pair = λ cert key. none;
  udp_bind = λ addr. some (text "udp bind");
  quic_probe = λ addr. some (Error.foreign 3);
  metrics_probe = λ addr. none;
}

run_doctor-verdict_example :
    let (lines, status) = run_doctor probing unreachable in
    status ≡ exit_status (not (some_failed lines))
run_doctor-verdict_example = run_doctor-verdict probing unreachable

-- A file system whose files are all the number 1, which decodes to the defaults.
abbrev ones : Os ℕ
ones = record { read = λ path. ok 1; stat = λ path. none; mod_time = λ path. ok 0 }

abbrev decode : Format → ℕ → Config → Result Config
decode format n c = ok c

abbrev with_file : ServerFlags
with_file = record default_flags { config = "server.yaml" }

server_options-applied_example : applied (server_options decode ones with_file) ≡ (
    if str_eq "server.yaml" ""
    then from_flags decode ones with_file
    else from_file decode ones (load_from_file decode ones "server.yaml"))
server_options-applied_example = server_options-applied decode ones with_file

abbrev same : ℕ → ℕ
same n = n

abbrev first_of : ℕ → ℕ → ℕ
first_of a b = a

abbrev traffic : List Event
traffic = message_sent 40 ∷ connection_opened ∷ connection_closed ∷ []

traffic-Room : Room (budget_of traffic) (new_metrics 5)
unfolding new_metrics
traffic-Room = ground arith

run-Grown_example :
    Grown ◌≤◌
      (families same same (snapshot 0 first_of first_of 9 (new_metrics 5)))
      (families same same (snapshot 0 first_of first_of 12 (run traffic (new_metrics 5))))
run-Grown_example =
    run-Grown ◌≤◌ 0 first_of first_of same same (λ a b le small. le) 9 12 traffic (new_metrics 5)
      traffic-Room
