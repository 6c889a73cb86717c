-- ===== src/Control/Soundness.antt =====
-- No operation of a control connection makes the ack tracker panic.
use mcp_moqt_transport.Base.{
  ℕ, ◌≡◌, refl, Bool, Option, none, some, List, [], ◌∷◌, String, str_eq, if◌then◌else◌, arith,
  Bool-cases, inl, inr, Option-cases, ltb, length, leb,
}
use mcp_moqt_transport.Base.Map.{nat_key}
use mcp_moqt_transport.Base.Word.{inc_32}
use mcp_moqt_transport.Errors.{Error, Result, ok, err, Result-cases}
use mcp_moqt_transport.Metrics.{Metrics, record_retry, record_heartbeat_failed}
use mcp_moqt_transport.Tracks
use mcp_moqt_transport.Tracks.{Slot, Peer, Bytes, Outcome, waits, returns}
use mcp_moqt_transport.Heartbeat.{send_heartbeat}
use mcp_moqt_transport.Ack.{Tracker}
use mcp_moqt_transport.Ack.Steps.{close_begin}
use mcp_moqt_transport.Ack.Steps.Invariant.{
  Inv, Steps, track-Inv, close_begin-Inv, close_finish-Steps, ack-Steps, nack-Steps,
}
use mcp_moqt_transport.Control.{
  ControlConn, Message, request, response, track_ack_async, collect, handle_inbound_ack, close,
  on_timeout, settle_beat, after_beat, beat, with_tracker,
}
use mcp_moqt_transport.Control.Writing.{Attempt, after_write, attempt_write}
use mcp_moqt_transport.Control.Reading.{receive, stopped, is_heartbeat, read}

-- A step that goes through, and leaves a coherent tracker.
abbrev pub Sound : Option ControlConn → Type 0
Sound r = (c : ControlConn) × (r ≡ some c) × Inv c.tracker

pub with_tracker-Sound :
    (r : Option Tracker) (f : Metrics → Metrics) (c : ControlConn)
    → Steps r
    → Sound (with_tracker r f c)
with_tracker-Sound r f c (t, e, v) = rw e (record c { tracker = t; metrics = f c.metrics }, refl, v)

handle_inbound_ack-Sound :
    (now : ℕ) (m : Message) (c : ControlConn) → Inv c.tracker → Sound (handle_inbound_ack now m c)
unfolding handle_inbound_ack
handle_inbound_ack-Sound now (request id method) c v = (c, refl, v)
handle_inbound_ack-Sound now (response none error) c v = (c, refl, v)
handle_inbound_ack-Sound now (response (some id) (some e)) c v =
    with_tracker-Sound _ _ c (nack-Steps now id e c.tracker v)
handle_inbound_ack-Sound now (response (some id) none) c v =
    with_tracker-Sound _ _ c (ack-Steps now id c.tracker v)

receive-Sound :
    (now size : ℕ) (m : Message) (c : ControlConn) → Inv c.tracker → Sound (receive now size m c)
unfolding receive
receive-Sound now size m c v = handle_inbound_ack-Sound now m _ v

pub close-Sound : (now : ℕ) (c : ControlConn) → Inv c.tracker → Sound (close now c)
unfolding close
close-Sound now c v = elim (Bool-cases c.closed) [
  | inl e ↦ simp e (c, refl, v)
  | inr e ↦
      let (t', h, v') =
        close_finish-Steps now (close_begin c.tracker) (close_begin-Inv c.tracker v) in
      simp (e, h) (_, refl, v')
]

settle_beat-Sound :
    (now : ℕ) (r : Option Error) (c : ControlConn) → Inv c.tracker → Sound (settle_beat now r c)
unfolding settle_beat on_timeout
settle_beat-Sound now none c v = (_, refl, v)
settle_beat-Sound now (some e) c v =
    elim (Bool-cases (leb c'.heartbeat.config.max_failures (inc_32 c.heartbeat.failures))) [
      | inl l ↦
          simp l (close-Sound now (record c' { metrics = record_heartbeat_failed c.metrics }) v)
      | inr l ↦ simp l (_, refl, v)
    ]
  where
    c' : ControlConn
    c' = record c { heartbeat = send_heartbeat now (some e) c.heartbeat }

after_beat-Sound :
    (now : ℕ) (late : Option Error) (r : Outcome) (c : ControlConn)
    → Inv c.tracker
    → Sound (after_beat now late r c)
unfolding after_beat
after_beat-Sound now late waits c v = (c, refl, v)
after_beat-Sound now none (returns result) c v = settle_beat-Sound now result c v
after_beat-Sound now (some e) (returns result) c v = settle_beat-Sound now (some e) c v

pub beat-Sound :
    (now : ℕ) (ctx : Option Error) (ready_first : Bool) (peer : Peer) (payload : Bytes)
    (late : Option Error) (c : ControlConn)
    → Inv c.tracker
    → Sound (beat now ctx ready_first peer payload late c)
unfolding beat
beat-Sound now ctx ready_first peer payload late c v = after_beat-Sound now late _ _ v

pub collect-tracker : (ch : ℕ) (c : ControlConn) → (collect ch c).tracker ≡ c.tracker
unfolding collect
collect-tracker ch c = ground arith

after_write-Inv :
    (now size : ℕ) (id : String) (r : Outcome) (c : ControlConn)
    → Inv c.tracker
    → Inv (after_write now size id r c).tracker
unfolding after_write track_ack_async
after_write-Inv now size id waits c v = v
after_write-Inv now size id (returns (some e)) c v = v
after_write-Inv now size id (returns none) c v = elim (Bool-cases (str_eq id "")) [
  | inl e ↦ simp e v
  | inr e ↦ simp e (track-Inv now id c.tracker v)
]

pub attempt_write-Inv :
    (n : ℕ) (a : Attempt) (bytes : Bytes) (id : String) (c : ControlConn)
    → Inv c.tracker
    → Inv (attempt_write n a bytes id c).0.tracker
unfolding attempt_write
attempt_write-Inv n a bytes id c v =
    let m = if ltb 1 n then record_retry c.metrics else c.metrics in
    let w = Tracks.write a.ctx a.ready_first a.peer bytes c.write_track in
    after_write-Inv a.now (length bytes) id w.2 (record c { metrics = m; write_track = w.0 }) v

module _ (decode : Bytes → Result Message) (eof : Error) where
  -- What a `Read` came to, once it is over or waits.
  abbrev pub ReadSound : Option (ControlConn × Option (Result Message)) → Type 0
  ReadSound r =
      (c : ControlConn) × (m : Option (Result Message)) × (r ≡ some (c, m)) × Inv c.tracker

  pub read-ReadSound :
      (ctx : Option Error) (done_first : Bool) (objects : List (ℕ × Result Bytes)) (c : ControlConn)
      → Inv c.tracker
      → ReadSound (read decode ctx done_first eof objects c)
  unfolding read
  read-ReadSound ctx done_first [] c v = elim (Option-cases (stopped ctx done_first eof c)) [
    | inl s ↦ rw (s, read) (c, _, refl, v)
    | inr (e, s) ↦ rw (s, read) (c, _, refl, v)
  ]
  read-ReadSound ctx done_first ((now, err e) ∷ rest) c v =
      elim (Option-cases (stopped ctx done_first eof c)) [
        | inl s ↦ rw (s, read) (c, _, refl, v)
        | inr (x, s) ↦ rw (s, read) (c, _, refl, v)
      ]
  read-ReadSound ctx done_first ((now, ok bytes) ∷ rest) c v =
      elim (Option-cases (stopped ctx done_first eof c)) [
        | inr (x, s) ↦ rw (s, read) (c, _, refl, v)
        | inl s ↦ elim (Result-cases (decode bytes)) [
          | inl (x, d) ↦ rw (s, d, read) (_, _, refl, v)
          | inr (m, d) ↦
              let (c', r, v') = receive-Sound now (length bytes) m c v in
              let further = read-ReadSound ctx done_first rest c' v' in
              elim (Bool-cases (is_heartbeat m)) [
                | inl b ↦ rw (s, d, r, b, read) further
                | inr b ↦ rw (s, d, r, b, read) (c', _, refl, v')
              ]
        ]
      ]
