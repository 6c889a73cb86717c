-- ===== src/Streams.antt =====
-- pkg/moqttransport/quic_manager.go, the stream manager. Streams are pointers, numbers; ids and
-- counters are int64 bit patterns. What the QUIC connection answers to an open, and a stream to its
-- `Close`, are arguments. `closes` lists the streams that were closed, newest first.
pub mod Counters
use mcp_moqt_transport.Base.{ℕ, Bool, true, false, Option, none, some, List, [], ◌∷◌, if◌then◌else◌}
use mcp_moqt_transport.Base.Word.{inc_64, dec_64, add_64}
use mcp_moqt_transport.Base.Map.{lookup, insert, erase, nat_key}
use mcp_moqt_transport.Errors.{Error, Result, ok, err, sentinel, connection_closed}

pub record StreamStats : Type 0 where
  pub total_streams : ℕ
  pub active_streams : ℕ
  pub streams_opened : ℕ
  pub streams_closed : ℕ
  pub bytes_sent : ℕ
  pub bytes_received : ℕ

pub record Manager : Type 0 where
  pub streams : List (ℕ × ℕ)
  pub next_id : ℕ
  pub closed : Bool
  pub done : Bool
  pub stats : StreamStats
  pub closes : List ℕ

unfoldable pub new_manager : Manager
new_manager = record {
  streams = [];
  next_id = 0;
  closed = false;
  done = false;
  stats = record {
    total_streams = 0;
    active_streams = 0;
    streams_opened = 0;
    streams_closed = 0;
    bytes_sent = 0;
    bytes_received = 0;
  };
  closes = [];
}

unfoldable pub count_open : StreamStats → StreamStats
count_open s = record s {
  total_streams = inc_64 s.total_streams;
  active_streams = inc_64 s.active_streams;
  streams_opened = inc_64 s.streams_opened;
}

-- `OpenStream` and `OpenStreamSync` behind the test of `closed`: they differ in the call of the
-- connection, whose outcome is `opened`.
unfoldable pub open_locked : Result ℕ → Manager → Manager × Result (ℕ × ℕ)
unfolding count_open
open_locked (err e) m = (m, err e)
open_locked (ok stream) m =
    let id = inc_64 m.next_id in
    (
      record m { next_id = id; streams = insert id stream m.streams; stats = count_open m.stats },
      ok (stream, id),
    )

unfoldable pub open_stream : Result ℕ → Manager → Manager × Result (ℕ × ℕ)
unfolding open_locked
open_stream opened m =
    if m.closed then (m, err (sentinel connection_closed)) else open_locked opened m

unfoldable pub open_stream_sync : Result ℕ → Manager → Manager × Result (ℕ × ℕ)
unfolding open_locked
open_stream_sync opened m =
    if m.closed then (m, err (sentinel connection_closed)) else open_locked opened m

-- A unidirectional stream is counted and gets an id, and is not put into the map.
unfoldable pub open_uni_locked : Result ℕ → Manager → Manager × Result (ℕ × ℕ)
unfolding count_open
open_uni_locked (err e) m = (m, err e)
open_uni_locked (ok stream) m =
    let id = inc_64 m.next_id in
    (record m { next_id = id; stats = count_open m.stats }, ok (stream, id))

unfoldable pub open_uni_stream : Result ℕ → Manager → Manager × Result (ℕ × ℕ)
unfolding open_uni_locked
open_uni_stream opened m =
    if m.closed then (m, err (sentinel connection_closed)) else open_uni_locked opened m

-- `close_result` is what the stream's own `Close` returns: no error, or one.
unfoldable pub close_stream : ℕ → Option Error → Manager → Manager × Option Error
close_stream id close_result m = elim (lookup id m.streams) [
  | none ↦ (m, none)
  | some stream ↦ (
    record m {
      streams = erase id m.streams;
      stats = record st {
        total_streams = dec_64 st.total_streams;
        active_streams = dec_64 st.active_streams;
        streams_closed = inc_64 st.streams_closed;
      };
      closes = stream ∷ m.closes;
    },
    close_result,
  )
]
  where
    open m use {stats as st}

unfoldable pub get_stream : ℕ → Manager → Option ℕ
get_stream id m = lookup id m.streams

-- The loop of `Close`, with the counter of closed streams.
unfoldable pub close_each : List (ℕ × ℕ) → ℕ → List ℕ → ℕ × List ℕ
close_each [] closed closes = (closed, closes)
close_each ((id, stream) ∷ rest) closed closes = close_each rest (inc_64 closed) (stream ∷ closes)

unfoldable pub close : Manager → Manager
unfolding close_each
close m =
    let (closed, closes) = close_each m.streams m.stats.streams_closed m.closes in
    if m.closed then m else record m {
      streams = [];
      closed = true;
      done = true;
      stats = record st { total_streams = 0; active_streams = 0; streams_closed = closed };
      closes = closes;
    }
  where
    open m use {stats as st}

unfoldable pub record_bytes_sent : ℕ → Manager → Manager
record_bytes_sent n m = record m { stats = record st { bytes_sent = add_64 st.bytes_sent n } }
  where
    open m use {stats as st}

unfoldable pub record_bytes_received : ℕ → Manager → Manager
record_bytes_received n m = record m {
  stats = record st { bytes_received = add_64 st.bytes_received n };
}
  where
    open m use {stats as st}

pub data Event : Type 0 where
  opens open_syncs open_unis : Result ℕ → Event
  closes_one : ℕ → Option Error → Event
  closes_all : Event
  sends receives : ℕ → Event

unfoldable pub step : Event → Manager → Manager
unfolding open_stream open_stream_sync open_uni_stream close_stream close record_bytes_sent
    record_bytes_received
step (opens r) m = (open_stream r m).0
step (open_syncs r) m = (open_stream_sync r m).0
step (open_unis r) m = (open_uni_stream r m).0
step (closes_one id r) m = (close_stream id r m).0
step closes_all m = close m
step (sends n) m = record_bytes_sent n m
step (receives n) m = record_bytes_received n m

unfoldable pub run : List Event → Manager → Manager
unfolding step
run [] m = m
run (e ∷ es) m = run es (step e m)
