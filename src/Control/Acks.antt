-- ===== src/Control/Acks.antt =====
-- The control connection's use of the ack tracker.
use mcp_moqt_transport.Base.{ℕ, ◌+◌, ◌%◌, ◌≡◌, refl, none, some, String, arith}
use mcp_moqt_transport.Base.Word.{two_64}
use mcp_moqt_transport.Base.Map.{lookup, nat_key, string_key}
use mcp_moqt_transport.Metrics.{record_ack}
use mcp_moqt_transport.Ack.{PendingAck}
use mcp_moqt_transport.Ack.Steps.Invariant.{Inv}
use mcp_moqt_transport.Ack.Steps.Answers.{ack_waiting}
use mcp_moqt_transport.Control.{ControlConn, response, collect, handle_inbound_ack}

-- One acknowledgement is counted twice: `Read` counts the response itself, and the goroutine that
-- `Write` started counts the tracker's answer, for an id that waits in a coherent tracker.
acknowledged_twice :
    (now : ℕ) (id : String) (p : PendingAck) (c : ControlConn)
    → Inv c.tracker
    → lookup id c.tracker.pending ≡ some p
    → (c' : ControlConn) × (handle_inbound_ack now (response (some id) none) c ≡ some c')
      × ((collect p.chan c').metrics.messages_acked % two_64
          ≡ (c.metrics.messages_acked + 2) % two_64)
unfolding handle_inbound_ack collect record_ack
acknowledged_twice now id p c v h =
    let (t', e, answered, rest, others) = ack_waiting now id c.tracker p v h in
    rw (e, handle_inbound_ack)
      (
        record c { tracker = t'; metrics = record_ack c.metrics },
        refl,
        rw (answered, collect) (unfold record_ack in omega arith),
      )
