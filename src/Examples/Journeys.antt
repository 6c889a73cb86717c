-- ===== src/Examples/Journeys.antt =====
-- A session from its setup to the callback of its client.
use mcp_moqt_transport.Base.{
  ℕ, ◌≡◌, refl, true, false, Option, none, some, map, List, [], ◌∷◌, arith,
}
use mcp_moqt_transport.Base.Map.{lookup, insert, string_key}
use mcp_moqt_transport.Errors.{Error, Result, ok, err}
use mcp_moqt_transport.Metrics.{new_metrics}
use mcp_moqt_transport.Data.Publishing.Batches.{payloads}
use mcp_moqt_transport.Tracks.{Action, Peer, Bytes, new_slot}
use mcp_moqt_transport.Options.{server, defaults}
use mcp_moqt_transport.Pool.{new_pool}
use mcp_moqt_transport.Data.{Handler, tools, accepted}
use mcp_moqt_transport.Session
use mcp_moqt_transport.Session.{handle_composite}
use mcp_moqt_transport.Client.{Client, subscribe_data_track}
use mcp_moqt_transport.Server.{Server, Incoming, setup_connection}
use mcp_moqt_transport.Server.Serving.{data_track_handler_for}
use mcp_moqt_transport.Server.Journey.{Delivers, session_journey}

abbrev incoming : Incoming
incoming = record { quic_conn = 5; session_id = "a"; run = none; subscribe = none }

abbrev waiting_server : Server ℕ
waiting_server = record {
  cfg = defaults server;
  pool = new_pool 10 30000000000;
  connections = [];
  session_handlers = [];
  listening = true;
  closed = false;
  metrics_addr = "";
  metrics_server = none;
  conns = [];
  retired = [];
  refused = [];
  next = 0;
}

abbrev visitor : Client
visitor = record {
  addr = "localhost:8080";
  pool = new_pool 10 30000000000;
  session = some 3;
  session_id = "a";
  quic_conn = some 5;
  ended = [];
}

abbrev control : Session.Control
control = record { session_id = "a"; send_track = "server-to-client"; send_slot = new_slot }

abbrev agreeable : Peer
agreeable = record {
  open_subgroup = λ p g. none;
  write_object = λ g i b. none;
  close_subgroup = λ g. none;
}

abbrev encode : ℕ → Bytes
encode m = m ∷ []

abbrev marshal : ℕ → Result Bytes
marshal m = ok (m ∷ [])

abbrev unmarshal : Bytes → Result ℕ
unmarshal [] = err (Error.foreign 8)
unmarshal (b ∷ bs) = ok b

abbrev silent : ℕ → Option Error
silent m = none

abbrev carried : List Action → List (Result Bytes)
carried log = map ok (payloads log)

session_journey_example :
    let s1 = (setup_connection (new_metrics 0) incoming waiting_server).0 in
    (hs hs' : List (Handler ℕ)) × (sender receiver : Handler ℕ) × (lookup "a" s1.session_handlers
      ≡ some hs)
    × (subscribe_data_track (new_metrics 1) tools "calls" silent none visitor ≡ ok receiver)
    × (handle_composite 9 none receiver.namespace "calls"
          (record { control = control; handlers = hs })
        ≡ some (record { control = control; handlers = hs' }, accepted))
    × (data_track_handler_for "a" tools
          (record s1 { session_handlers = insert "a" hs' s1.session_handlers })
        ≡ some sender)
    × Delivers marshal unmarshal true agreeable carried 4 2 "calls" (1 ∷ 2 ∷ 3 ∷ []) sender receiver
session_journey_example =
    session_journey marshal unmarshal encode (λ m. refl) (λ m. refl) (λ m. omega arith) true
      agreeable (λ p g. refl, λ g i b. refl, λ g. refl) carried (λ log. refl) 9 4 2 3 "calls" tools
      (new_metrics 0) (new_metrics 1) incoming waiting_server control visitor silent
      (1 ∷ 2 ∷ 3 ∷ []) tt refl refl refl refl refl (λ m. refl) (omega arith) (omega arith)
