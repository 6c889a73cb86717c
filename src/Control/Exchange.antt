-- ===== src/Control/Exchange.antt =====
-- pkg/moqttransport/control_conn.go: a request that is written, and its response that is read.
use mcp_moqt_transport.Base.{
  ℕ, zero, suc, ◌≡◌, ◌≢◌, refl, ap, ◌∙◌, Bool, true, false, Option, none, some, List, [], ◌∷◌,
  String, str_eq, eq_iff, length, arith, inl, inr, Option-cases,
}
use mcp_moqt_transport.Base.Word.{lt_64}
use mcp_moqt_transport.Base.Map.{lookup, string_key, nat_key, lookup-insert_self}
use mcp_moqt_transport.Errors.{Error, Result, ok}
use mcp_moqt_transport.Metrics.{record_message_sent, record_ack, record_message_received}
use mcp_moqt_transport.Heartbeat.{record_pong}
use mcp_moqt_transport.Tracks.{
  TrackWriter, Peer, Bytes, Outcome, waits, returns, take_publisher, get, write_to,
}
use mcp_moqt_transport.Tracks
use mcp_moqt_transport.Retry.{RetryConfig, retry_do, do_loop, rounds}
use mcp_moqt_transport.Ack.{Tracker, PendingAck, answer, acked, track, ack}
use mcp_moqt_transport.Ack.Steps.Invariant.{Inv, track-Inv}
use mcp_moqt_transport.Ack.Steps.Answers.{Answered, ack_waiting}
use mcp_moqt_transport.Data.Publishing.Batches.{Obliging, IsReady}
use mcp_moqt_transport.Control.{
  ControlConn, Message, request, response, extract_message_id, track_ack_async, handle_inbound_ack,
}
use mcp_moqt_transport.Control.Writing.{
  Attempt, after_write, attempt_write, resolved, after, outcome, finish, write,
}
use mcp_moqt_transport.Control.Reading.{read, receive, stopped, is_heartbeat}

write_to_obliging :
    (peer : Peer) (p : ℕ) (bytes : Bytes) (w : TrackWriter)
    → Obliging peer
    → (write_to peer p bytes w).2 ≡ returns none
unfolding write_to
write_to_obliging peer p bytes w o =
    rw (o.0 p w.next_group, write_to)
      (rw (o.1 w.next_group 0 bytes) (ap returns (o.2 w.next_group)))

write_obliging :
    (ready_first : Bool) (peer : Peer) (bytes : Bytes) (w : TrackWriter)
    → Obliging peer
    → IsReady w
    → (Tracks.write none ready_first peer bytes w).2 ≡ returns none
unfolding Tracks.write get take_publisher
write_obliging ready_first peer bytes w o v = elim (Option-cases w.slot.publisher) [
  | inl n ↦ absurd (v.held n)
  | inr (p, e) ↦ simp (v.is_open, v.ready, v.uncleared, e) (write_to_obliging peer p bytes w o)
]

module _ {F : Type 0} (same : Error → Error → Bool) (config : RetryConfig F)
    (fn before wait : ℕ → Option Error) where
  do_loop_first :
      (left : ℕ)
      → left ≢ 0
      → before 1 ≡ none
      → fn 1 ≡ none
      → do_loop same config fn before wait left 1 none ≡ (none, 1 ∷ [])
  unfolding do_loop
  do_loop_first zero n b f = absurd (n refl)
  do_loop_first (suc left) n b f = rw (b, do_loop) (rw f refl)

  retry_do_first :
      lt_64 0 config.max_attempts ≡ true
      → before 1 ≡ none
      → fn 1 ≡ none
      → retry_do same config fn before wait ≡ (none, 1 ∷ [])
  unfolding retry_do rounds
  retry_do_first n b f = simp n (do_loop_first config.max_attempts (λ z. ground (arith, z, n)) b f)

-- The connection once the message was written at the first attempt.
abbrev sent : Attempt → Bytes → String → ControlConn → ControlConn
sent a bytes id c = track_ack_async a.now id (record c {
  metrics = record_message_sent (length bytes) c.metrics;
  write_track = (Tracks.write a.ctx a.ready_first a.peer bytes c.write_track).0;
})

attempt_write_first :
    (a : Attempt) (bytes : Bytes) (id : String) (c : ControlConn)
    → a.ctx ≡ none
    → Obliging a.peer
    → IsReady c.write_track
    → id ≢ ""
    → attempt_write 1 a bytes id c ≡ (sent a bytes id c, returns none)
unfolding attempt_write after_write
attempt_write_first a bytes id c e o v n =
    let blank : str_eq id "" ≡ false = ground (arith, eq_iff id "", n) in
    let done : (Tracks.write a.ctx a.ready_first a.peer bytes c.write_track).2 ≡ returns none =
      rw e (write_obliging a.ready_first a.peer bytes c.write_track o v) in
    rw done (simp blank refl)

module _ {F : Type 0} (same : Error → Error → Bool) (config : RetryConfig F)
    (encode : Message → Result Bytes) (closed_error : Error) (env : ℕ → Attempt)
    (before wait : ℕ → Option Error) (id method : String) (bytes : Bytes) (c : ControlConn) where
  -- The conditions under which the first attempt writes the request.
  pub record IsWritable : Type 0 where
    pub is_open : c.closed ≡ false
    pub ready : IsReady c.write_track
    pub some_attempts : lt_64 0 config.max_attempts ≡ true
    pub goes_ahead : before 1 ≡ none
    pub no_deadline : (env 1).ctx ≡ none
    pub obliging : Obliging (env 1).peer
    pub encoded : encode (request (some id) method) ≡ ok bytes
    pub has_id : id ≢ ""

  abbrev asked : ControlConn
  asked = sent (env 1) bytes id c

  abbrev fn : ℕ → Option Error
  fn n = resolved (outcome env bytes id n c)

  abbrev ending : Option Error × List ℕ → ControlConn × Outcome
  ending (r, calls) =
      finish (outcome env bytes id (length calls) c) r (after env bytes id (length calls) c)

  write_open :
      c.closed ≡ false
      → encode (request (some id) method) ≡ ok bytes
      → write same config encode closed_error env before wait (request (some id) method) c
        ≡ ending (retry_do same config fn before wait)
  unfolding write extract_message_id
  write_open o e = simp (o, e) refl

  abbrev first_attempt : ControlConn × Outcome
  first_attempt = attempt_write 1 (env 1) bytes id c

  ending_first : ending (none, 1 ∷ []) ≡ finish first_attempt.1 none first_attempt.0
  unfolding after outcome
  ending_first = refl

  fn_first : fn 1 ≡ resolved first_attempt.1
  unfolding outcome
  fn_first = refl

  write_first :
      IsWritable
      → write same config encode closed_error env before wait (request (some id) method) c
        ≡ (asked, returns none)
  unfolding finish
  write_first v =
      let attempt =
        attempt_write_first (env 1) bytes id c v.no_deadline v.obliging v.ready v.has_id in
      let fine : fn 1 ≡ none = fn_first ∙ ap (λ r. resolved r.1) attempt in
      write_open v.is_open v.encoded
      ∙ ap ending (retry_do_first same config fn before wait v.some_attempts v.goes_ahead fine)
      ∙ ending_first
      ∙ ap (λ r. finish r.1 none r.0) attempt

  -- The request's entry in the tracker.
  abbrev entry : PendingAck
  entry = record { id = id; timestamp = (env 1).now; chan = c.tracker.next; timer = c.tracker.next }

  asked_waits : c.tracker.closed ≡ false → lookup id asked.tracker.pending ≡ some entry
  unfolding track_ack_async track
  asked_waits o = simp o (lookup-insert_self id entry c.tracker.pending)

  asked-Inv : Inv c.tracker → Inv asked.tracker
  unfolding track_ack_async
  asked-Inv v = track-Inv (env 1).now id c.tracker v

  asked_waiting : asked.waiting ≡ c.tracker.next ∷ c.waiting
  unfolding track_ack_async
  asked_waiting = refl

  asked_done : asked.done ≡ c.done
  unfolding track_ack_async
  asked_done = refl

  module _ (decode : Bytes → Result Message) (done_first : Bool) (eof : Error) where
    abbrev answered_by : ℕ → Bytes → Tracker → ControlConn → ControlConn
    answered_by later bytes' t' c' = record c' {
      metrics = record_ack (record_message_received (length bytes') c'.metrics);
      heartbeat = record_pong later c'.heartbeat;
      tracker = t';
    }

    receive_response :
        (later : ℕ) (bytes' : Bytes) (t' : Tracker) (c' : ControlConn)
        → ack later id c'.tracker ≡ some t'
        → receive later (length bytes') (response (some id) none) c'
          ≡ some (answered_by later bytes' t' c')
    unfolding receive handle_inbound_ack
    receive_response later bytes' t' c' a = rw (a, handle_inbound_ack) refl

    -- A response that is read, where the tracker answers its entry.
    read_response :
        (later : ℕ) (bytes' : Bytes) (t' : Tracker) (c' : ControlConn)
        → decode bytes' ≡ ok (response (some id) none)
        → c'.done ≡ false
        → ack later id c'.tracker ≡ some t'
        → read decode none done_first eof ((later, ok bytes') ∷ []) c'
          ≡ some (answered_by later bytes' t' c', some (ok (response (some id) none)))
    unfolding read stopped is_heartbeat
    read_response later bytes' t' c' d o a =
        let still : stopped none done_first eof c' ≡ none = simp o refl in
        rw (still, read) (rw (d, read) (rw (receive_response later bytes' t' c' a) refl))

    -- An open connection with a coherent tracker writes a request with an id at its first attempt,
    -- and the next object of the receive track is a response to it that is no error: `Write` returns
    -- nil, `Read` returns the response, the request waits no longer, and the channel on which its
    -- goroutine waits holds the answer "acked".
    pub write-read_answers :
        (later : ℕ) (bytes' : Bytes)
        → IsWritable
        → c.done ≡ false
        → Inv c.tracker
        → c.tracker.closed ≡ false
        → decode bytes' ≡ ok (response (some id) none)
        → (c1 c2 : ControlConn) × (write same config encode closed_error env before wait
              (request (some id) method)
              c
            ≡ (c1, returns none))
          × (read decode none done_first eof ((later, ok bytes') ∷ []) c1
              ≡ some (c2, some (ok (response (some id) none))))
          × (lookup id c2.tracker.pending ≡ none)
          × (c2.waiting ≡ c.tracker.next ∷ c.waiting)
          × Answered (answer acked none id later) c.tracker.next c2.tracker
    write-read_answers later bytes' v o i n d =
        let (t', e, answered, disarmed, (gone, others)) =
          ack_waiting later id asked.tracker entry (asked-Inv i) (asked_waits n) in
        (
          asked,
          answered_by later bytes' t' asked,
          write_first v,
          read_response later bytes' t' asked d (asked_done ∙ o) e,
          gone,
          asked_waiting,
          answered,
        )
