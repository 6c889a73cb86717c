-- ===== src/Control/Reading.antt =====
-- pkg/moqttransport/control_conn.go, `Read`, over what the receive track returns. A list that ends is a
-- read that waits for the next object.
pub mod Keepalives
use mcp_moqt_transport.Base.{
  ℕ, suc, ◌+◌, ◌%◌, ◌≡◌, ◌≢◌, refl, Bool, true, false, not, ◌&&◌, Option, none, some, List, [], ◌∷◌,
  ◌++◌, String, str_eq, if◌then◌else◌, length, arith, Bool-cases, Option-cases, inl, inr,
}
use mcp_moqt_transport.Errors.{Error, Result, ok, err}
use mcp_moqt_transport.Metrics.{record_error, record_message_received}
use mcp_moqt_transport.Tracks.{Bytes}
use mcp_moqt_transport.Heartbeat.{record_pong}
use mcp_moqt_transport.Control.{
  ControlConn, Message, request, response, heartbeat_method, handle_inbound_ack,
}

unfoldable pub is_heartbeat : Message → Bool
is_heartbeat (request id method) = str_eq method heartbeat_method
is_heartbeat (response id error) = false

-- The bookkeeping of a message that was decoded.
unfoldable pub receive : ℕ → ℕ → Message → ControlConn → Option ControlConn
unfolding handle_inbound_ack
receive now size message c = handle_inbound_ack now message (record c {
  metrics = record_message_received size c.metrics;
  heartbeat = record_pong now c.heartbeat;
})

-- The `select` at the head of the loop: `done_first` says which case is taken if both are ready.
unfoldable pub stopped : Option Error → Bool → Error → ControlConn → Option Error
stopped none done_first eof c = if c.done then some eof else none
stopped (some e) done_first eof c = if c.done && done_first then some eof else some e

module _ (decode : Bytes → Result Message) (ctx : Option Error) (done_first : Bool)
    (eof : Error) where
  -- The result is none while the call waits.
  unfoldable pub read :
      List (ℕ × Result Bytes) → ControlConn → Option (ControlConn × Option (Result Message))
  unfolding stopped receive is_heartbeat
  read [] c = elim (stopped ctx done_first eof c) [
    | some e ↦ some (c, some (err e))
    | none ↦ some (c, none)
  ]
  read ((now, object) ∷ rest) c = elim (stopped ctx done_first eof c) [
    | some e ↦ some (c, some (err e))
    | none ↦ elim object [
      | err e ↦ some (c, some (err e))
      | ok bytes ↦ elim (decode bytes) [
        | err e ↦ some (record c { metrics = record_error c.metrics }, some (err e))
        | ok message ↦ elim (receive now (length bytes) message c) [
          | none ↦ none
          | some c' ↦
              let further = read rest c' in
              if is_heartbeat message then further else some (c', some (ok message))
        ]
      ]
    ]
  ]
