-- ===== src/Control/Reading/Keepalives.antt =====
-- What `Read` hands to the MCP layer.
use mcp_moqt_transport.Base.{
  ℕ, suc, ◌+◌, ◌%◌, ◌≡◌, ◌≢◌, refl, ◌∙◌, false, Option, none, some, List, [], ◌∷◌, ◌++◌, map,
  String, eq_iff, length, arith, All,
}
use mcp_moqt_transport.Base.Word.{two_64}
use mcp_moqt_transport.Errors.{Error, Result, ok}
use mcp_moqt_transport.Metrics.{record_message_received}
use mcp_moqt_transport.Tracks.{Bytes}
use mcp_moqt_transport.Heartbeat.{record_pong}
use mcp_moqt_transport.Control.{ControlConn, Message, request, heartbeat_method, handle_inbound_ack}
use mcp_moqt_transport.Control.Reading.{is_heartbeat, receive, stopped, read}

-- The connection after the bookkeeping of a request.
abbrev received : ℕ → ℕ → ControlConn → ControlConn
received now size c = record c {
  metrics = record_message_received size c.metrics;
  heartbeat = record_pong now c.heartbeat;
}

-- An object that came at its time.
abbrev pub arrived : ℕ × Bytes → ℕ × Result Bytes
arrived e = (e.0, ok e.1)

module _ (decode : Bytes → Result Message) (eof : Error) where
  -- The bytes of a keepalive of the peer.
  abbrev pub IsKeepalive : ℕ × Bytes → Type 0
  IsKeepalive e = (id : Option String) × (decode e.1 ≡ ok (request id heartbeat_method))

  module _ (now : ℕ) (bytes : Bytes) (id : Option String) (method : String)
      (rest : List (ℕ × Result Bytes)) (c : ControlConn) (d : decode bytes ≡ ok (request id method))
      (o : c.done ≡ false) where
    read_other :
        method ≢ heartbeat_method
        → read decode none false eof ((now, ok bytes) ∷ rest) c
          ≡ some (received now (length bytes) c, some (ok (request id method)))
    unfolding read stopped is_heartbeat receive handle_inbound_ack
    read_other n = ground (arith, d, eq_iff method heartbeat_method)

    read_keepalive :
        method ≡ heartbeat_method
        → read decode none false eof ((now, ok bytes) ∷ rest) c
          ≡ read decode none false eof rest (received now (length bytes) c)
    unfolding read stopped is_heartbeat receive handle_inbound_ack
    read_keepalive e = ground (arith, d, eq_iff method heartbeat_method)

  -- The counters after `n` messages, the last of which came at `now`.
  abbrev pub Heard : ℕ → ℕ → ControlConn → ControlConn → Type 0
  Heard n now c c' =
      (c'.metrics.messages_received % two_64 ≡ (c.metrics.messages_received + n) % two_64)
      × (c'.heartbeat.failures ≡ 0)
      × (c'.heartbeat.last_pong ≡ now)

  Heard-received :
      (t size n now : ℕ) (c c' : ControlConn)
      → Heard n now (received t size c) c'
      → Heard (suc n) now c c'
  unfolding record_message_received
  Heard-received t size n now c c' h = (omega (arith, h.0), h.1, h.2)

  -- On an open connection whose context is not done `Read` passes over any number of keepalives and
  -- returns the first other request; every message on the way is counted, and the heartbeat has no
  -- failure left and was last heard when that request came.
  pub read_passes_keepalives :
      (beats : List (ℕ × Bytes)) (now : ℕ) (bytes : Bytes) (rest : List (ℕ × Result Bytes))
      (id : Option String) (method : String) (c : ControlConn)
      → All IsKeepalive beats
      → decode bytes ≡ ok (request id method)
      → method ≢ heartbeat_method
      → c.done ≡ false
      → (c' : ControlConn) × (read decode none false eof
            (map arrived beats ++ (now, ok bytes) ∷ rest)
            c
          ≡ some (c', some (ok (request id method))))
        × Heard (suc (length beats)) now c c'
  read_passes_keepalives [] now bytes rest id method c k d n o = (
    received now (length bytes) c,
    read_other now bytes id method rest c d o n,
    unfold record_message_received record_pong in (omega arith, refl, refl),
  )
  read_passes_keepalives ((t, b) ∷ beats) now bytes rest id method c ((i, e), k) d n o =
      let later = map arrived beats ++ (now, ok bytes) ∷ rest in
      let c1 = received t (length b) c in
      let (c', r, heard) = read_passes_keepalives beats now bytes rest id method c1 k d n o in
      (
        c',
        read_keepalive t b i heartbeat_method later c e o refl ∙ r,
        Heard-received t (length b) (suc (length beats)) now c c' heard,
      )
