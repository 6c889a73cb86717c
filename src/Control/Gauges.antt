-- ===== src/Control/Gauges.antt =====
-- What the operations of a control connection do to the connection counters of its metrics.
use mcp_moqt_transport.Base.{
  ℕ, ◌≡◌, ◌⊎◌, ◌∙◌, refl, inl, inr, Bool, true, false, Option, none, some, List, [], ◌∷◌, String,
  if◌then◌else◌, ltb, leb, length, arith, Bool-cases, Option-cases,
}
use mcp_moqt_transport.Base.Map.{nat_key}
use mcp_moqt_transport.Base.Word.{inc_32, dec_64}
use mcp_moqt_transport.Errors.{Error, Result, ok, err, Result-cases}
use mcp_moqt_transport.Metrics.{
  record_retry, record_error, record_timeout, record_message_sent, record_ack, record_nack,
  record_heartbeat_failed, record_heartbeat_sent, record_message_received, record_connection_closed,
}
use mcp_moqt_transport.Tracks
use mcp_moqt_transport.Tracks.{Peer, Bytes, Outcome, waits, returns}
use mcp_moqt_transport.Heartbeat.{send_heartbeat}
use mcp_moqt_transport.Ack.{Tracker}
use mcp_moqt_transport.Ack.Steps.{close_begin, close_finish}
use mcp_moqt_transport.Control.{
  ControlConn, Message, track_ack_async, collect, handle_inbound_ack, close, on_timeout,
  settle_beat, after_beat, beat, with_tracker,
}
use mcp_moqt_transport.Control.Writing.{Attempt, after_write, attempt_write}
use mcp_moqt_transport.Control.Reading.{receive, stopped, is_heartbeat, read}

-- The connection is open or closed as before, and the counters of connections are too.
abbrev pub Kept : ControlConn → ControlConn → Type 0
Kept c c' =
    (c'.closed ≡ c.closed)
    × (c'.metrics.connections_active ≡ c.metrics.connections_active)
    × (c'.metrics.connections_total ≡ c.metrics.connections_total)

Kept-trans : (c d e : ControlConn) → Kept c d → Kept d e → Kept c e
Kept-trans c d e (a, b, g) (a', b', g') = (a' ∙ a, b' ∙ b, g' ∙ g)

-- The connection was open, is closed, and was counted as closed.
abbrev pub Ended : ControlConn → ControlConn → Type 0
Ended c c' =
    (c.closed ≡ false)
    × (c'.closed ≡ true)
    × (c'.metrics.connections_active ≡ dec_64 c.metrics.connections_active)
    × (c'.metrics.connections_total ≡ c.metrics.connections_total)

after_write-Kept :
    (now size : ℕ) (id : String) (r : Outcome) (c : ControlConn)
    → Kept c (after_write now size id r c)
unfolding after_write track_ack_async record_error record_message_sent
after_write-Kept now size id waits c = (refl, refl, refl)
after_write-Kept now size id (returns (some e)) c = (refl, refl, refl)
after_write-Kept now size id (returns none) c = ground arith

pub attempt_write-Kept :
    (n : ℕ) (a : Attempt) (bytes : Bytes) (id : String) (c : ControlConn)
    → Kept c (attempt_write n a bytes id c).0
unfolding attempt_write record_retry
attempt_write-Kept n a bytes id c =
    let m = if ltb 1 n then record_retry c.metrics else c.metrics in
    let w = Tracks.write a.ctx a.ready_first a.peer bytes c.write_track in
    let c1 : ControlConn = record c { metrics = m; write_track = w.0 } in
    let first : Kept c c1 = (refl, ground arith, ground arith) in
    Kept-trans c c1 (after_write a.now (length bytes) id w.2 c1) first
      (after_write-Kept a.now (length bytes) id w.2 c1)

handle_inbound_ack-Kept :
    (now : ℕ) (m : Message) (c c' : ControlConn) → handle_inbound_ack now m c ≡ some c' → Kept c c'
unfolding handle_inbound_ack record_ack record_nack
handle_inbound_ack-Kept now m c c' e = ground arith

receive-Kept :
    (now size : ℕ) (m : Message) (c c' : ControlConn) → receive now size m c ≡ some c' → Kept c c'
unfolding receive record_message_received
receive-Kept now size m c c' e = handle_inbound_ack-Kept now m _ c' e

module _ (decode : Bytes → Result Message) (ctx : Option Error) (done_first : Bool)
    (eof : Error) where
  pub read-Kept :
      (objects : List (ℕ × Result Bytes)) (c c' : ControlConn) (r : Option (Result Message))
      → read decode ctx done_first eof objects c ≡ some (c', r)
      → Kept c c'
  unfolding read
  read-Kept [] c c' r e = ground arith
  read-Kept ((now, err x) ∷ rest) c c' r e = ground arith
  read-Kept ((now, ok bytes) ∷ rest) c c' r e = elim (Option-cases (stopped ctx done_first eof c)) [
    | inr (x, s) ↦ let h = rw (s, read) at e in ground arith
    | inl s ↦ elim (Result-cases (decode bytes)) [
      | inl (x, d) ↦ let h = rw (s, d, read) at e in unfold record_error in ground arith
      | inr (m, d) ↦ elim (Option-cases (receive now (length bytes) m c)) [
        | inl n ↦ cc (rw (s, d, n, read) at e)
        | inr (c1, n) ↦
            let first = receive-Kept now (length bytes) m c c1 n in
            elim (Bool-cases (is_heartbeat m)) [
              | inl b ↦
                  Kept-trans c c1 c' first (read-Kept rest c1 c' r (rw (s, d, n, b, read) at e))
              | inr b ↦ let h = rw (s, d, n, b, read) at e in ground (arith, first)
            ]
      ]
    ]
  ]

pub close-Ended : (now : ℕ) (c c' : ControlConn) → close now c ≡ some c' → Kept c c' ⊎ Ended c c'
unfolding close record_connection_closed
close-Ended now c c' e = elim (Bool-cases c.closed) [
  | inl f ↦ inl (ground arith)
  | inr f ↦ elim (Option-cases (close_finish now (close_begin c.tracker))) [
    | inl g ↦ cc (simp (f, g) at e)
    | inr (t, g) ↦ let h = simp (f, g) at e in inr (f, ground arith, ground arith, ground arith)
  ]
]

-- Nothing before the operation, or nothing but what it keeps.
after_Kept : (c d e : ControlConn) → Kept c d → Kept d e ⊎ Ended d e → Kept c e ⊎ Ended c e
after_Kept c d e k (inl k') = inl (Kept-trans c d e k k')
after_Kept c d e k (inr x) = inr (ground (arith, k, x))

settle_beat-Ended :
    (now : ℕ) (r : Option Error) (c c' : ControlConn)
    → settle_beat now r c ≡ some c'
    → Kept c c' ⊎ Ended c c'
unfolding settle_beat on_timeout record_heartbeat_failed
settle_beat-Ended now none c c' e = inl (ground arith)
settle_beat-Ended now (some x) c c' e =
    let h = send_heartbeat now (some x) c.heartbeat in
    let c1 : ControlConn = record c {
      heartbeat = h;
      metrics = record_heartbeat_failed c.metrics;
    } in
    elim (Bool-cases (leb h.config.max_failures (inc_32 c.heartbeat.failures))) [
      | inl l ↦ after_Kept c c1 c' (refl, refl, refl) (close-Ended now c1 c' (simp l at e))
      | inr l ↦ let k = simp l at e in inl (ground arith)
    ]

after_beat-Ended :
    (now : ℕ) (late : Option Error) (r : Outcome) (c c' : ControlConn)
    → after_beat now late r c ≡ some c'
    → Kept c c' ⊎ Ended c c'
unfolding after_beat
after_beat-Ended now late waits c c' e = inl (ground arith)
after_beat-Ended now none (returns result) c c' e = settle_beat-Ended now result c c' e
after_beat-Ended now (some x) (returns result) c c' e = settle_beat-Ended now (some x) c c' e

pub beat-Ended :
    (now : ℕ) (ctx : Option Error) (ready_first : Bool) (peer : Peer) (payload : Bytes)
    (late : Option Error) (c c' : ControlConn)
    → beat now ctx ready_first peer payload late c ≡ some c'
    → Kept c c' ⊎ Ended c c'
unfolding beat record_heartbeat_sent
beat-Ended now ctx ready_first peer payload late c c' e =
    let (w, actions, r) = Tracks.write ctx ready_first peer payload c.write_track in
    let c1 : ControlConn = record c {
      metrics = record_heartbeat_sent c.metrics;
      write_track = w;
    } in
    after_Kept c c1 c' (refl, refl, refl) (after_beat-Ended now late r c1 c' e)

pub collect-Kept : (ch : ℕ) (c : ControlConn) → Kept c (collect ch c)
unfolding collect record_ack record_nack record_timeout
collect-Kept ch c = ground arith

pub with_tracker-Kept :
    (r : Option Tracker) (c c' : ControlConn) → with_tracker r (λ m. m) c ≡ some c' → Kept c c'
with_tracker-Kept r c c' e = ground arith
