-- ===== src/Metrics/Endpoint.antt =====
-- pkg/moqttransport/metrics_http.go: the scrape endpoint and its HTTP server. `float` is the conversion
-- of an int64 to float64, `seconds` that of a duration; `show` formats a float64 as `%g`. The server's
-- calls of net and net/http are parameters.
pub mod Counters
use Prim.Native.String.{◌++◌ as joined}
use mcp_moqt_transport.Base.{
  ℕ, Bool, true, false, Option, none, some, List, [], ◌∷◌, ◌++◌, String, str_eq, if◌then◌else◌,
}
use mcp_moqt_transport.Errors.{Error, Result, ok, err}
use mcp_moqt_transport.Metrics.{Metrics, Snapshot}

pub data Kind : Type 0 where
  counter gauge : Kind

-- A metric that is written: its type, name, help and value.
pub record Family (F : Type 0) : Type 0 where
  pub kind : Kind
  pub name : String
  pub help : String
  pub value : F

abbrev pub kind_name : Kind → String
kind_name counter = "counter"
kind_name gauge = "gauge"

module _ {F : Type 0} where
  unfoldable pub prom_counter : String → String → F → Family F
  prom_counter name help v = record { kind = counter; name = name; help = help; value = v }

  unfoldable pub prom_gauge : String → String → F → Family F
  prom_gauge name help v = record { kind = gauge; name = name; help = help; value = v }

  -- The three lines of a metric.
  unfoldable pub write_prom : (F → String) → Family F → List String
  write_prom show f =
      joined (joined (joined "# HELP " f.name) " ") f.help
      ∷ joined (joined (joined "# TYPE " f.name) " ") (kind_name f.kind)
      ∷ joined (joined f.name " ") (show f.value)
      ∷ []

  -- What `handleMetrics` writes, in order.
  unfoldable pub families : (ℕ → F) → (ℕ → F) → Snapshot F → List (Family F)
  unfolding prom_counter prom_gauge
  families float seconds s =
      prom_counter "mcp_moqt_messages_sent_total" "Total MCP messages sent"
        (float s.counters.messages_sent)
      ∷ prom_counter "mcp_moqt_messages_received_total" "Total MCP messages received"
          (float s.counters.messages_received)
      ∷ prom_counter "mcp_moqt_messages_acked_total" "Total messages acknowledged"
          (float s.counters.messages_acked)
      ∷ prom_counter "mcp_moqt_messages_nacked_total" "Total messages negatively acknowledged"
          (float s.counters.messages_nacked)
      ∷ prom_counter "mcp_moqt_messages_timeout_total" "Total message ACK timeouts"
          (float s.counters.messages_timeout)
      ∷ prom_counter "mcp_moqt_bytes_sent_total" "Total bytes sent" (float s.counters.bytes_sent)
      ∷ prom_counter "mcp_moqt_bytes_received_total" "Total bytes received"
          (float s.counters.bytes_received)
      ∷ prom_counter "mcp_moqt_errors_total" "Total errors" (float s.counters.errors)
      ∷ prom_counter "mcp_moqt_retries_total" "Total write retries" (float s.counters.retries)
      ∷ prom_counter "mcp_moqt_heartbeats_sent_total" "Total heartbeats sent"
          (float s.counters.heartbeats_sent)
      ∷ prom_counter "mcp_moqt_heartbeats_failed_total" "Total heartbeat failures"
          (float s.counters.heartbeats_failed)
      ∷ prom_counter "mcp_moqt_connections_total" "Total connections opened"
          (float s.counters.connections_total)
      ∷ prom_gauge "mcp_moqt_connections_active" "Currently active connections"
          (float s.counters.connections_active)
      ∷ prom_gauge "mcp_moqt_tracks_active" "Currently active tracks"
          (float s.counters.tracks_active)
      ∷ prom_counter "mcp_moqt_tracks_total" "Total tracks opened" (float s.counters.tracks_total)
      ∷ prom_counter "mcp_moqt_data_track_messages_total" "Total data track messages"
          (float s.counters.data_track_messages)
      ∷ prom_counter "mcp_moqt_data_track_bytes_total" "Total data track payload bytes"
          (float s.counters.data_track_bytes)
      ∷ prom_gauge "mcp_moqt_uptime_seconds" "Process metrics uptime in seconds"
          (seconds s.uptime_ns)
      ∷ prom_gauge "mcp_moqt_ack_rate" "ACK rate (acked/sent)" s.ack_rate
      ∷ prom_gauge "mcp_moqt_error_rate" "Error rate" s.error_rate
      ∷ prom_gauge "mcp_moqt_throughput_in_bytes_per_sec" "Inbound throughput (bytes/s)"
          s.throughput_in
      ∷ prom_gauge "mcp_moqt_throughput_out_bytes_per_sec" "Outbound throughput (bytes/s)"
          s.throughput_out
      ∷ []

  abbrev pub write_all : (F → String) → List (Family F) → List String
  write_all show [] = []
  write_all show (f ∷ fs) = write_prom show f ++ write_all show fs

  -- The body of the answer, line by line.
  unfoldable pub handle_metrics : (F → String) → (ℕ → F) → (ℕ → F) → Snapshot F → List String
  unfolding families write_prom
  handle_metrics show float seconds s = write_all show (families float seconds s)

pub record MetricsHttpServer : Type 0 where
  pub addr : String
  pub metrics : Option ℕ
  pub server_addr : String

-- A nil `Metrics` is replaced by the default ones, `default` by their address.
unfoldable pub new_metrics_http_server : String → Option ℕ → ℕ → MetricsHttpServer
new_metrics_http_server addr metrics default = record {
  addr = addr;
  metrics = elim metrics [ none ↦ some default | some m ↦ some m ];
  server_addr = addr;
}

-- `listen` gives the address that was bound, `serve` what `http.Server.Serve` returns, and
-- `is_server_closed` tells its `ErrServerClosed`.
unfoldable pub start :
    (String → Result String)
    → (String → Error)
    → (Error → Bool)
    → MetricsHttpServer
    → MetricsHttpServer × Option Error
start listen serve is_server_closed s = elim (listen s.addr) [
  | err e ↦ (s, some e)
  | ok bound ↦
      let r = serve bound in
      (record s { addr = bound; server_addr = bound }, if is_server_closed r then none else some r)
]
