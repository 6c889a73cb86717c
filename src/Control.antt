-- ===== src/Control.antt =====
-- pkg/moqttransport/control_conn.go. JSON-RPC's codec and the SDK's error are parameters, an id is what
-- `fmt.Sprint` makes of its raw value, none if it is not valid. A step is `none` where the ack tracker
-- would panic. `waiting` are the channels that the goroutines of `trackAckAsync` wait on.
pub mod Writing
pub mod Reading
pub mod Closing
pub mod Acks
pub mod Soundness
pub mod Histories
pub mod Exchange
pub mod Failing
pub mod Gauges
pub mod Process
use mcp_moqt_transport.Base.{
  ℕ, zero, suc, Bool, true, false, not, Option, none, some, List, [], ◌∷◌, String, str_eq,
  if◌then◌else◌, leb, length,
}
use mcp_moqt_transport.Errors.{Error, Result, ok, err}
use mcp_moqt_transport.Metrics.{
  Metrics, record_ack, record_nack, record_timeout, record_error, record_connection_opened,
  record_connection_closed, record_heartbeat_sent, record_heartbeat_failed,
}
use mcp_moqt_transport.Tracks.{
  TrackWriter, Slot, new_track_writer, close_writer, Peer, Bytes, Action, Outcome, waits, returns,
}
use mcp_moqt_transport.Tracks
use mcp_moqt_transport.Ack
use mcp_moqt_transport.Ack.{
  Tracker, new_tracker, default_ack_config, track, ack, nack, Status, pending, acked, nacked,
  timed_out,
}
use mcp_moqt_transport.Ack.Steps.{close_begin, close_finish}
use mcp_moqt_transport.Heartbeat
use mcp_moqt_transport.Heartbeat.{
  Heartbeat, HeartbeatConfig, default_heartbeat_config, new_heartbeat, start, stop, send_heartbeat,
  record_pong, remove,
}
use mcp_moqt_transport.Base.Word.{inc_32}
use mcp_moqt_transport.Base.Map.{lookup, nat_key}

pub data Message : Type 0 where
  request : Option String → String → Message
  response : Option String → Option Error → Message

abbrev pub heartbeat_method : String
heartbeat_method = "notifications/moqt/heartbeat"

-- `calls_on_close` counts the calls of `OnClose`.
pub record ControlConn : Type 0 where
  pub session_id : String
  pub write_track : TrackWriter
  pub read_cancelled : Bool
  pub closed : Bool
  pub done : Bool
  pub tracker : Tracker
  pub heartbeat : Heartbeat
  pub metrics : Metrics
  pub waiting : List ℕ
  pub recv_closed : Bool
  pub conn_closed : Bool
  pub has_on_close : Bool
  pub calls_on_close : ℕ

unfoldable pub new_control_conn : ℕ → String → Slot → Bool → Metrics → ControlConn
unfolding new_tracker default_ack_config new_track_writer new_heartbeat default_heartbeat_config
    start record_connection_opened
new_control_conn now session_id send has_on_close metrics = record {
  session_id = session_id;
  write_track = new_track_writer send;
  read_cancelled = false;
  closed = false;
  done = false;
  tracker = new_tracker default_ack_config;
  heartbeat = start now (
      new_heartbeat
        (record default_heartbeat_config { has_on_heartbeat = true; has_on_timeout = true }));
  metrics = record_connection_opened metrics;
  waiting = [];
  recv_closed = false;
  conn_closed = false;
  has_on_close = has_on_close;
  calls_on_close = 0;
}

abbrev pub id_text : Option String → String
id_text none = ""
id_text (some id) = id

unfoldable pub extract_message_id : Message → String
extract_message_id (request id method) = id_text id
extract_message_id (response id error) = id_text id

-- The channel of `Track` is the one at the tracker's old `next`.
unfoldable pub track_ack_async : ℕ → String → ControlConn → ControlConn
unfolding track
track_ack_async now id c = record c {
  tracker = track now id c.tracker;
  waiting = c.tracker.next ∷ c.waiting;
}

abbrev pub count_status : Status → Metrics → Metrics
count_status acked m = record_ack m
count_status nacked m = record_nack m
count_status timed_out m = record_timeout m
count_status pending m = m

-- A goroutine of `trackAckAsync` receives the answer on its channel.
unfoldable pub collect : ℕ → ControlConn → ControlConn
collect ch c = elim (lookup ch c.tracker.chans) [
  | none ↦ c
  | some chan ↦ elim chan.queue [
    | [] ↦ c
    | m ∷ rest ↦ record c {
      metrics = count_status m.status c.metrics;
      waiting = remove ch c.waiting;
    }
  ]
]

abbrev pub with_tracker : Option Tracker → (Metrics → Metrics) → ControlConn → Option ControlConn
with_tracker none f c = none
with_tracker (some t) f c = some (record c { tracker = t; metrics = f c.metrics })

unfoldable pub handle_inbound_ack : ℕ → Message → ControlConn → Option ControlConn
unfolding ack nack
handle_inbound_ack now (request id method) c = some c
handle_inbound_ack now (response none error) c = some c
handle_inbound_ack now (response (some id) (some e)) c =
    with_tracker (nack now id e c.tracker) record_nack c
handle_inbound_ack now (response (some id) none) c =
    with_tracker (ack now id c.tracker) record_ack c

-- The rest of `Close`, with the tracker that its `Close` left.
abbrev pub closed_down : Tracker → ControlConn → ControlConn
closed_down t c = record c {
  tracker = t;
  metrics = record_connection_closed c.metrics;
  read_cancelled = true;
  recv_closed = true;
  write_track = close_writer c.write_track;
  conn_closed = true;
  calls_on_close = if c.has_on_close then suc c.calls_on_close else c.calls_on_close;
}

abbrev pub after_tracker_close : Option Tracker → ControlConn → Option ControlConn
after_tracker_close none c = none
after_tracker_close (some t) c = some (closed_down t c)

unfoldable pub close : ℕ → ControlConn → Option ControlConn
unfolding stop close_begin close_finish
close now c =
    if c.closed
    then some c
    else after_tracker_close (close_finish now (close_begin c.tracker))
        (record c { closed = true; done = true; heartbeat = stop c.heartbeat })

-- `OnTimeout` after a failure that is the `failures`-th in a row.
unfoldable pub on_timeout : ℕ → ℕ → ControlConn → Option ControlConn
unfolding close
on_timeout now failures c =
    let c' = record c { metrics = record_heartbeat_failed c.metrics } in
    if leb c.heartbeat.config.max_failures failures then close now c' else some c'

-- What the heartbeat makes of the callback's result; `OnTimeout` reads the counter before it is reset.
unfoldable pub settle_beat : ℕ → Option Error → ControlConn → Option ControlConn
unfolding send_heartbeat on_timeout
settle_beat now result c =
    let c' = record c { heartbeat = send_heartbeat now result c.heartbeat } in
    elim result [ none ↦ some c' | some e ↦ on_timeout now (inc_32 c.heartbeat.failures) c' ]

-- The end of a beat whose write came to `r`. `late` says that its time or its context ended before
-- the callback returned. A write that waits keeps the beat waiting.
unfoldable pub after_beat : ℕ → Option Error → Outcome → ControlConn → Option ControlConn
unfolding settle_beat
after_beat now late waits c = some c
after_beat now none (returns result) c = settle_beat now result c
after_beat now (some e) (returns result) c = settle_beat now (some e) c

-- One beat: `payload` are the bytes of the heartbeat's notification.
unfoldable pub beat :
    ℕ → Option Error → Bool → Peer → Bytes → Option Error → ControlConn → Option ControlConn
unfolding after_beat
beat now ctx ready_first peer payload late c =
    let (w, actions, r) = Tracks.write ctx ready_first peer payload c.write_track in
    after_beat now late r (record c { metrics = record_heartbeat_sent c.metrics; write_track = w })
