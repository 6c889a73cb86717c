-- ===== src/Examples/Messages.antt =====
-- Runs of the data track handler and of the handlers that answer subscriptions.
use mathlib.Core.List.{reverse}
use mcp_moqt_transport.Base.{
  ℕ, ◌≡◌, refl, true, false, none, some, [], ◌∷◌, ◌++◌, map, String, arith,
}
use mcp_moqt_transport.Base.Map.{lookup, nat_key, string_key}
use mcp_moqt_transport.Errors.{Error, Result, ok, err}
use mcp_moqt_transport.Metrics.{Metrics}
use mcp_moqt_transport.Tracks.{TrackWriter, Peer, Bytes}
use mcp_moqt_transport.Data.{DataTrackType, tools, Handler, Subscriber, receive_loop}
use mcp_moqt_transport.Data.Delivery.{IsLive, receive_loop_in_order}
use mcp_moqt_transport.Data.Publishing.{batch_publish}
use mcp_moqt_transport.Data.Publishing.Batches.{Obliging, IsReady, Delivers, batch_publish-Delivers}

-- A message is a number, and its encoding one byte.
abbrev encode : ℕ → Bytes
encode m = m ∷ []

abbrev marshal : ℕ → Result Bytes
marshal m = ok (m ∷ [])

abbrev unmarshal : Bytes → Result ℕ
unmarshal [] = err (Error.foreign 8)
unmarshal (m ∷ rest) = ok m

abbrev subscriber : Subscriber ℕ
subscriber = record { reader = none; handler = λ m. none; ctx = 5 }

abbrev writer : TrackWriter
writer = record {
  slot = record { publisher = some 4; ready = true; cleared = false };
  next_group = 0;
  closed = false;
}

abbrev no_metrics : Metrics
no_metrics = record {
  messages_sent = 0;
  messages_received = 0;
  messages_acked = 0;
  messages_nacked = 0;
  messages_timeout = 0;
  bytes_sent = 0;
  bytes_received = 0;
  errors = 0;
  retries = 0;
  heartbeats_sent = 0;
  heartbeats_failed = 0;
  connections_total = 0;
  connections_active = 0;
  tracks_total = 0;
  tracks_active = 0;
  data_track_messages = 0;
  data_track_bytes = 0;
  start_time = 0;
}

-- A handler of one session with a publisher's writer and a subscriber on track "t".
abbrev handler : DataTrackType → String → Handler ℕ
handler type name = record {
  session_id = "s";
  track_type = type;
  namespace = "mcp" ∷ "s" ∷ name ∷ [];
  publishers = ("t", 0) ∷ [];
  subscribers = ("t", subscriber) ∷ [];
  closed = false;
  done = false;
  metrics = no_metrics;
  writers = (0, writer) ∷ [];
  cancelled = [];
  closed_readers = [];
  delivered = [];
  next = 6;
}

abbrev tools_handler : Handler ℕ
tools_handler = handler tools "tools"

abbrev good_peer : Peer
good_peer = record {
  open_subgroup = λ p g. none;
  write_object = λ g i bytes. none;
  close_subgroup = λ g. none;
}

abbrev obliging : Obliging good_peer
obliging = (λ p g. refl, λ g i b. refl, λ g. refl)

publisher_at : lookup "t" tools_handler.publishers ≡ some 0
unfolding lookup
publisher_at = refl

writer_at : lookup 0 tools_handler.writers ≡ some writer
unfolding lookup
writer_at = refl

writer-IsReady : IsReady writer
writer-IsReady = record { is_open = refl; ready = refl; uncleared = refl; held = λ e. cc }

-- Three messages in batches of two.
batch_publish-Delivers_example :
    Delivers marshal encode
      (λ m. refl)
      true
      good_peer
      obliging
      0
      0
      (1 ∷ 2 ∷ 3 ∷ [])
      (batch_publish marshal none true good_peer 4 0 2 "t" (1 ∷ 2 ∷ 3 ∷ []) tools_handler)
batch_publish-Delivers_example =
    batch_publish-Delivers marshal encode (λ m. refl) true good_peer obliging 0 0 4 2 "t"
      (1 ∷ 2 ∷ 3 ∷ []) tools_handler (omega arith) (omega arith) refl publisher_at
      (writer, writer_at, writer-IsReady)

subscriber_at : lookup "t" tools_handler.subscribers ≡ some subscriber
unfolding lookup
subscriber_at = refl

tools-IsLive : IsLive unmarshal "t" 5 tools_handler
tools-IsLive = record {
  is_open = refl;
  running = refl;
  sub = subscriber;
  subscribed = subscriber_at;
  its_ctx = refl;
  live = refl;
  succeeds = λ m. refl;
}

receive_loop_in_order_example :
    let (h', returned) =
      receive_loop unmarshal 5 "t" 6 (map (λ m. ok (encode m)) (1 ∷ 2 ∷ [])) tools_handler in
    (h'.delivered ≡ reverse (1 ∷ 2 ∷ []) ++ []) × (returned ≡ false)
receive_loop_in_order_example =
    receive_loop_in_order unmarshal encode "t" 5 6 (1 ∷ 2 ∷ []) tools_handler (λ m. refl)
      (λ m. omega arith) tools-IsLive
