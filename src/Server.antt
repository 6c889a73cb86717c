-- ===== src/Server.antt =====
-- pkg/moqttransport/server.go. A control connection is an object at an address, whose `OnClose` the
-- server sets; of the rest of it only `closeOnce` matters here. `listening` is `quicLn != nil`.
pub mod Serving
pub mod Journey
pub mod Live
pub mod Mirrors
pub mod Closing
pub mod Refinement
use mcp_moqt_transport.Base.{
  ℕ, suc, Bool, true, false, Option, none, some, List, [], ◌∷◌, ◌++◌, map, String, str_eq,
  if◌then◌else◌, ◌==◌, length, not, ◌&&◌,
}
use mcp_moqt_transport.Base.Map.{lookup, insert, erase, nat_key, string_key}
use mcp_moqt_transport.Errors.{Error, Result, ok, err, text, wrap}
use mcp_moqt_transport.Metrics.{Metrics}
use mcp_moqt_transport.Quic.{
  QuicConfig, QuicConnectionConfig, default_quic_connection_config, quic_config_to_pool_config,
}
use mcp_moqt_transport.Pool.{Pool, new_pool, set_tls_config}
use mcp_moqt_transport.Pool.Sweep
use mcp_moqt_transport.Data
use mcp_moqt_transport.Data.{
  DataTrackType, resources, tools, notifications, other, Handler, new_handler,
}
use mcp_moqt_transport.Session.{default_data_track_handlers}
use mcp_moqt_transport.Options.{server, Opt, Tls, TransportConfig, apply_options}
use mcp_moqt_transport.Options.Resolve.{resolve_server_tls}

-- `closed` is set once `Close` has run its `closeOnce`.
pub record Conn : Type 0 where
  pub session_id : String
  pub closed : Bool

-- `metrics_server` is the address that it was started with, and whether it was shut down. `conns` are
-- the control connections that were made, `retired` the data handlers that were closed with their
-- session, and `refused` the QUIC connections that a failed setup closed, with the reason.
pub record Server (M : Type 0) : Type 0 where
  pub cfg : TransportConfig
  pub pool : Pool
  pub connections : List (ℕ × Bool)
  pub session_handlers : List (String × List (Handler M))
  pub listening : Bool
  pub closed : Bool
  pub metrics_addr : String
  pub metrics_server : Option (String × Bool)
  pub conns : List (ℕ × Conn)
  pub retired : List (Handler M)
  pub refused : List (ℕ × String)
  pub next : ℕ

-- What an incoming QUIC connection meets: the id that `generateSessionID` returns for it, and what
-- `runSession` and `Subscribe` return.
pub record Incoming : Type 0 where
  pub quic_conn : ℕ
  pub session_id : String
  pub run : Option Error
  pub subscribe : Option Error

-- Equal values of the type of tracks.
abbrev pub same_type : DataTrackType → DataTrackType → Bool
same_type resources resources = true
same_type tools tools = true
same_type notifications notifications = true
same_type (other m) (other n) = m == n
same_type _ _ = false

abbrev pub stop_metrics : Option (String × Bool) → Option (String × Bool)
stop_metrics none = none
stop_metrics (some (addr, stopped)) = some (addr, true)

module _ {M : Type 0} where
  -- `tls` is the address of the server's TLS configuration; the cleanup runs every 10 s.
  unfoldable pub new_server :
      (String → String → Result ℕ)
      → Result ℕ
      → List (Option Opt)
      → ℕ
      → Result (Server M × QuicConnectionConfig)
  unfolding apply_options resolve_server_tls new_pool set_tls_config
  new_server load_pair generated opts tls = elim (apply_options server opts) [
    | err e ↦ err e
    | ok cfg ↦ elim (resolve_server_tls load_pair generated cfg) [
      | err e ↦ err e
      | ok (cfg', t) ↦ ok (
        record {
          cfg = cfg';
          pool = set_tls_config none (some tls) (new_pool 10 30000000000);
          connections = [];
          session_handlers = [];
          listening = false;
          closed = false;
          metrics_addr = cfg'.metrics_addr;
          metrics_server = none;
          conns = [];
          retired = [];
          refused = [];
          next = 0;
        },
        quic_config_to_pool_config cfg'.quic_config default_quic_connection_config,
      )
    ]
  ]

  abbrev pub start_metrics : Server M → Server M
  start_metrics s = elim s.metrics_server [
    | some m ↦ s
    | none ↦
        if str_eq s.metrics_addr ""
        then s
        else record s { metrics_server = some (s.metrics_addr, false) }
  ]

  -- `bound` is the error of `quic.ListenAddr`.
  unfoldable pub listen : Option Error → Server M → Server M × Option Error
  listen bound s =
      if s.closed
      then (s, some (text "server transport is closed"))
      else if s.listening
      then (s, none)
      else elim bound [
        | some e ↦ (s, some (wrap "failed to listen" e))
        | none ↦ (start_metrics (record s { listening = true }), none)
      ]

  abbrev pub refuse : ℕ → String → Server M → Server M
  refuse c why s = record s { refused = (c, why) ∷ s.refused }

  -- The end of `setupConnection`: the new control connection and the handlers of its session.
  unfoldable pub register : String → Metrics → Server M → Server M
  unfolding default_data_track_handlers
  register id metrics s = record s {
    connections = insert s.next true s.connections;
    session_handlers = insert id (default_data_track_handlers id metrics) s.session_handlers;
    conns = insert s.next (record { session_id = id; closed = false }) s.conns;
    next = suc s.next;
  }

  unfoldable pub setup_connection : Metrics → Incoming → Server M → Server M × Result ℕ
  unfolding register
  setup_connection metrics i s = elim i.run [
    | some e ↦ (refuse i.quic_conn "session failed" s, err (wrap "failed to run MOQT session" e))
    | none ↦ elim i.subscribe [
      | some e ↦ (
        refuse i.quic_conn "subscribe failed" s,
        err (wrap "failed to subscribe to client-to-server control track" e),
      )
      | none ↦ (register i.session_id metrics s, ok s.next)
    ]
  ]

  unfoldable pub remove_connection : ℕ → Server M → Server M
  remove_connection a s = record s { connections = erase a s.connections }

  -- `for _, h := range handlers { _ = h.Close() }`.
  abbrev pub close_handlers : List (Handler M) → List (Handler M)
  close_handlers handlers = map Data.close handlers

  abbrev pub handlers_of : Option (List (Handler M)) → List (Handler M)
  handlers_of none = []
  handlers_of (some handlers) = handlers

  -- The `OnClose` that `setupConnection` gives to the control connection at an address.
  unfoldable pub on_close : ℕ → String → Server M → Server M
  unfolding remove_connection Data.close
  on_close a id s = record (remove_connection a s) {
    session_handlers = erase id s.session_handlers;
    retired = close_handlers (handlers_of (lookup id s.session_handlers)) ++ s.retired;
  }

  abbrev pub end_of : ℕ → Option Conn → Server M → Server M
  end_of a none s = s
  end_of a (some k) s =
      if k.closed
      then s
      else on_close a k.session_id
          (record s { conns = insert a (record k { closed = true }) s.conns })

  -- `Close` of the control connection at an address.
  unfoldable pub close_conn : ℕ → Server M → Server M
  unfolding on_close
  close_conn a s = end_of a (lookup a s.conns) s

  -- `for _, conn := range conns { _ = conn.Close() }`.
  unfoldable pub close_each : List (ℕ × Bool) → Server M → Server M
  unfolding close_conn
  close_each [] s = s
  close_each ((a, present) ∷ m) s = close_each m (close_conn a s)

  -- The handlers of the sessions that are left, all closed.
  unfoldable pub close_sessions : List (String × List (Handler M)) → List (Handler M)
  unfolding Data.close
  close_sessions [] = []
  close_sessions ((id, handlers) ∷ m) = close_handlers handlers ++ close_sessions m

  unfoldable pub close : Server M → Server M
  unfolding close_each close_sessions Sweep.close
  close s =
      let s' = close_each s.connections (record s { closed = true; connections = [] }) in
      if s.closed then s else record s' {
        session_handlers = [];
        retired = close_sessions s'.session_handlers ++ s'.retired;
        listening = false;
        metrics_server = stop_metrics s'.metrics_server;
        pool = Sweep.close s'.pool;
      }
