-- ===== src/Client.antt =====
-- pkg/moqttransport/client.go. `remote_addr` is the address that a QUIC connection reports, and what the
-- MOQT session answers while a connection is set up is a `Setup`. `ended` are the QUIC connections
-- that their control connection has closed.
pub mod Decoding
pub mod Leases
pub mod Lent
pub mod Leaks
use mcp_moqt_transport.Base.{
  ℕ, Bool, true, false, Option, none, some, List, [], ◌∷◌, String, str_eq, if◌then◌else◌,
}
use mcp_moqt_transport.Errors.{Error, Result, ok, err, text, wrap}
use mcp_moqt_transport.Tracks.{Bytes}
use mcp_moqt_transport.Client.Decoding.{Json, read_string, read_struct}
use mcp_moqt_transport.Quic.{
  QuicConfig, QuicConnectionConfig, default_quic_connection_config, quic_config_to_pool_config,
}
use mcp_moqt_transport.Pool.{Pool, new_pool, set_tls_config, get, put}
use mcp_moqt_transport.Pool.Sweep
use mcp_moqt_transport.Metrics.{Metrics}
use mcp_moqt_transport.Data.{DataTrackType, Handler, new_handler, subscribe}
use mcp_moqt_transport.Data.Info.{attach_session_subscribe}
use mcp_moqt_transport.Options.{Role, client, Opt, Tls, TransportConfig, apply_options}
use mcp_moqt_transport.Options.Resolve.{resolve_client_tls}

-- `tls` is the address of the client's TLS configuration.
pub record Client : Type 0 where
  pub addr : String
  pub pool : Pool
  pub session : Option ℕ
  pub session_id : String
  pub quic_conn : Option ℕ
  pub ended : List ℕ

-- `NewMOQTClientTransport`: the pool keeps 10 connections, idle for at most 30 s.
unfoldable pub new_client :
    {P : Type 0}
    → (String → Result P)
    → (P → Option ℕ)
    → List (Option Opt)
    → ℕ
    → Result (Client × QuicConnectionConfig)
unfolding apply_options resolve_client_tls new_pool set_tls_config
new_client read append_certs opts tls = elim (apply_options client opts) [
  | err e ↦ err e
  | ok cfg ↦ elim (resolve_client_tls read append_certs cfg) [
    | err e ↦ err e
    | ok (cfg', t) ↦ ok (
      record {
        addr = cfg'.addr;
        pool = set_tls_config (some tls) none (new_pool 10 30000000000);
        session = none;
        session_id = "";
        quic_conn = none;
        ended = [];
      },
      quic_config_to_pool_config cfg'.quic_config default_quic_connection_config,
    )
  ]
]

-- What a setup meets: the session is at `session`; `run` and `subscribe` are errors or nil, `fetch` and
-- `object` what the discovery returns. `parse`, `matches` and `mismatch` are of `encoding/json`: the
-- value that is read, whether a key stands for a tag (the case of letters does not matter), and the
-- error for a value of another type.
pub record Setup : Type 0 where
  pub session : ℕ
  pub run : Option Error
  pub fetch : Option Error
  pub object : Result Bytes
  pub parse : Bytes → Result Json
  pub matches : String → String → Bool
  pub mismatch : Error
  pub subscribe : Option Error

-- `json.Unmarshal` into the struct with the tags `result` and, in it, `session_id`.
unfoldable pub session_id_in : (String → String → Bool) → Error → Json → Result String
unfolding read_string read_struct
session_id_in matches mismatch j =
    read_struct matches mismatch "result"
      (read_struct matches mismatch "session_id" (read_string matches mismatch)) j ""

abbrev pub unmarshal : Setup → Bytes → Result String
unmarshal s bytes = elim (s.parse bytes) [
  | err e ↦ err e
  | ok j ↦ session_id_in s.matches s.mismatch j
]

unfoldable pub discover_session_id : Setup → Result String
unfolding session_id_in
discover_session_id s = elim s.fetch [
  | some e ↦ err (wrap "failed to fetch discovery track" e)
  | none ↦ elim s.object [
    | err e ↦ err (wrap "failed to read discovery response" e)
    | ok bytes ↦ elim (unmarshal s bytes) [
      | err e ↦ err (wrap "failed to parse discovery response" e)
      | ok id ↦ if str_eq id "" then err (text "empty session ID in discovery response") else ok id
    ]
  ]
]

-- A setup that fails gives its connection back to the pool.
abbrev pub give_up : (ℕ → String) → ℕ → String → Error → Client → Client × Result (ℕ × String)
give_up remote_addr c what e cl =
    (record cl { pool = put remote_addr c cl.pool }, err (wrap what e))

-- `Connect` behind `Get`: the result is the QUIC connection of the control connection, and its session.
unfoldable pub set_up : (ℕ → String) → ℕ → Setup → Client → Client × Result (ℕ × String)
unfolding discover_session_id
set_up remote_addr c s cl = elim s.run [
  | some e ↦ give_up remote_addr c "failed to run MOQT session" e cl
  | none ↦ elim (discover_session_id s) [
    | err e ↦ give_up remote_addr c "failed to discover session ID" e cl
    | ok id ↦ elim s.subscribe [
      | some e ↦ give_up remote_addr c "failed to subscribe to server-to-client control track" e cl
      | none ↦
          (record cl { session = some s.session; session_id = id; quic_conn = some c }, ok (c, id))
    ]
  ]
]

unfoldable pub connect : (ℕ → String) → ℕ → Result ℕ → Setup → Client → Client × Result (ℕ × String)
unfolding set_up get
connect remote_addr now dialed s cl =
    let (pool, r) = get now dialed cl.addr cl.pool in
    let cl' = record cl { pool = pool } in
    elim r [
      | err e ↦ (cl', err (wrap "failed to get QUIC connection from pool" e))
      | ok c ↦ set_up remote_addr c s cl'
    ]

-- `OnClose` of the control connection on `c`.
unfoldable pub on_close : (ℕ → String) → ℕ → Client → Client
unfolding put
on_close remote_addr c cl = record cl {
  pool = put remote_addr c cl.pool;
  session = none;
  quic_conn = none;
}

-- `Close` of the control connection on `c`, as the client sees it: it closes the QUIC connection, and
-- calls `OnClose` last.
unfoldable pub session_closed : (ℕ → String) → ℕ → Client → Client
unfolding on_close
session_closed remote_addr c cl = on_close remote_addr c (record cl { ended = c ∷ cl.ended })

module _ {M : Type 0} where
  -- An attach that fails closes the handler, which nobody holds then.
  unfoldable pub subscribe_data_track :
      Metrics
      → DataTrackType
      → String
      → (M → Option Error)
      → Option Error
      → Client
      → Result (Handler M)
  unfolding attach_session_subscribe new_handler subscribe
  subscribe_data_track metrics type track callback remote cl =
      let h = new_handler cl.session_id type metrics in
      let (h1, subscribed) = subscribe track callback h in
      let (h2, attached) = attach_session_subscribe remote track h1 in
      elim cl.session [
        | none ↦ err (text "client session not connected")
        | some s ↦
            if str_eq cl.session_id ""
            then err (text "client session not connected")
            else elim subscribed [
              | some e ↦ err e
              | none ↦ elim attached [ err e ↦ err e | ok x ↦ ok h2 ]
            ]
      ]

unfoldable pub close : Client → Client
unfolding Sweep.close
close cl = record cl { pool = Sweep.close cl.pool }
