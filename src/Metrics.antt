-- ===== src/Metrics.antt =====
-- pkg/moqttransport/metrics.go. The counters are atomic int64 bit patterns, so each record method is
-- one step for each counter that it adds to. Floating-point rates are a parameter.
pub mod Counts
pub mod Endpoint
use mcp_moqt_transport.Base.{ℕ, ◌+◌, ◌-◌, Bool, true, false, List, [], ◌∷◌, if◌then◌else◌}
use mcp_moqt_transport.Base.Word.{inc_64, dec_64, add_64, lt_64}

pub record Metrics : Type 0 where
  pub messages_sent : ℕ
  pub messages_received : ℕ
  pub messages_acked : ℕ
  pub messages_nacked : ℕ
  pub messages_timeout : ℕ
  pub bytes_sent : ℕ
  pub bytes_received : ℕ
  pub errors : ℕ
  pub retries : ℕ
  pub heartbeats_sent : ℕ
  pub heartbeats_failed : ℕ
  pub connections_total : ℕ
  pub connections_active : ℕ
  pub tracks_total : ℕ
  pub tracks_active : ℕ
  pub data_track_messages : ℕ
  pub data_track_bytes : ℕ
  pub start_time : ℕ

unfoldable pub new_metrics : ℕ → Metrics
new_metrics now = record {
  messages_sent = 0;
  messages_received = 0;
  messages_acked = 0;
  messages_nacked = 0;
  messages_timeout = 0;
  bytes_sent = 0;
  bytes_received = 0;
  errors = 0;
  retries = 0;
  heartbeats_sent = 0;
  heartbeats_failed = 0;
  connections_total = 0;
  connections_active = 0;
  tracks_total = 0;
  tracks_active = 0;
  data_track_messages = 0;
  data_track_bytes = 0;
  start_time = now;
}

unfoldable pub record_message_sent : ℕ → Metrics → Metrics
record_message_sent bytes m = record m {
  messages_sent = inc_64 m.messages_sent;
  bytes_sent = add_64 m.bytes_sent bytes;
}

unfoldable pub record_message_received : ℕ → Metrics → Metrics
record_message_received bytes m = record m {
  messages_received = inc_64 m.messages_received;
  bytes_received = add_64 m.bytes_received bytes;
}

unfoldable pub record_ack : Metrics → Metrics
record_ack m = record m { messages_acked = inc_64 m.messages_acked }

unfoldable pub record_nack : Metrics → Metrics
record_nack m = record m { messages_nacked = inc_64 m.messages_nacked }

unfoldable pub record_timeout : Metrics → Metrics
record_timeout m = record m { messages_timeout = inc_64 m.messages_timeout }

unfoldable pub record_error : Metrics → Metrics
record_error m = record m { errors = inc_64 m.errors }

unfoldable pub record_retry : Metrics → Metrics
record_retry m = record m { retries = inc_64 m.retries }

unfoldable pub record_heartbeat_sent : Metrics → Metrics
record_heartbeat_sent m = record m { heartbeats_sent = inc_64 m.heartbeats_sent }

unfoldable pub record_heartbeat_failed : Metrics → Metrics
record_heartbeat_failed m = record m { heartbeats_failed = inc_64 m.heartbeats_failed }

unfoldable pub record_connection_opened : Metrics → Metrics
record_connection_opened m = record m {
  connections_total = inc_64 m.connections_total;
  connections_active = inc_64 m.connections_active;
}

unfoldable pub record_connection_closed : Metrics → Metrics
record_connection_closed m = record m { connections_active = dec_64 m.connections_active }

unfoldable pub record_track_opened : Metrics → Metrics
record_track_opened m = record m {
  tracks_total = inc_64 m.tracks_total;
  tracks_active = inc_64 m.tracks_active;
}

unfoldable pub record_track_closed : Metrics → Metrics
record_track_closed m = record m { tracks_active = dec_64 m.tracks_active }

unfoldable pub record_data_track_message : ℕ → Metrics → Metrics
record_data_track_message bytes m = record m {
  data_track_messages = inc_64 m.data_track_messages;
  data_track_bytes = add_64 m.data_track_bytes bytes;
}

unfoldable pub reset : ℕ → Metrics → Metrics
unfolding new_metrics
reset now m = new_metrics now

unfoldable pub uptime : ℕ → Metrics → ℕ
uptime now m = now - m.start_time

-- The counters and the four rates; `counters` stands for the fields that are copied.
pub record Snapshot (F : Type 0) : Type 0 where
  pub counters : Metrics
  pub uptime_ns : ℕ
  pub ack_rate : F
  pub error_rate : F
  pub throughput_in : F
  pub throughput_out : F

-- `ratio a b` is float64(a) / float64(b), `per_second n t` is float64(n) divided by t nanoseconds in
-- seconds.
module _ {F : Type 0} (zero : F) (ratio per_second : ℕ → ℕ → F) where
  unfoldable pub snapshot : ℕ → Metrics → Snapshot F
  unfolding uptime
  snapshot now m =
      let sent = m.messages_sent in
      let both = add_64 sent m.messages_received in
      let up = uptime now m in
      record {
        counters = m;
        uptime_ns = up;
        ack_rate = if lt_64 0 sent then ratio m.messages_acked sent else zero;
        error_rate = if lt_64 0 both then ratio m.errors both else zero;
        throughput_in = if lt_64 0 up then per_second m.bytes_received up else zero;
        throughput_out = if lt_64 0 up then per_second m.bytes_sent up else zero;
      }

pub data Event : Type 0 where
  message_sent message_received data_track_message : ℕ → Event
  acked nacked timed_out error retry heartbeat_sent heartbeat_failed : Event
  connection_opened connection_closed track_opened track_closed : Event

unfoldable pub step : Event → Metrics → Metrics
unfolding record_message_sent record_message_received record_data_track_message record_ack
    record_nack record_timeout record_error record_retry record_heartbeat_sent
    record_heartbeat_failed record_connection_opened record_connection_closed record_track_opened
    record_track_closed
step (message_sent n) m = record_message_sent n m
step (message_received n) m = record_message_received n m
step (data_track_message n) m = record_data_track_message n m
step acked m = record_ack m
step nacked m = record_nack m
step timed_out m = record_timeout m
step error m = record_error m
step retry m = record_retry m
step heartbeat_sent m = record_heartbeat_sent m
step heartbeat_failed m = record_heartbeat_failed m
step connection_opened m = record_connection_opened m
step connection_closed m = record_connection_closed m
step track_opened m = record_track_opened m
step track_closed m = record_track_closed m

unfoldable pub run : List Event → Metrics → Metrics
unfolding step
run [] m = m
run (e ∷ es) m = run es (step e m)
