-- ===== src/Examples/Controls.antt =====
-- Runs of the control connection.
use mcp_moqt_transport.Base.{
  ℕ, zero, suc, ◌%◌, ◌≡◌, ◌≢◌, refl, Bool, true, false, Option, none, some, List, [], ◌∷◌, ◌++◌,
  map, length, arith, eq_iff,
}
use mcp_moqt_transport.Base.Word.{inc_64, two_64}
use mcp_moqt_transport.Base.Map.{lookup, nat_key, string_key}
use mcp_moqt_transport.Errors.{Error, Result, foreign, ok, err}
use mcp_moqt_transport.Metrics.{new_metrics}
use mcp_moqt_transport.Tracks.{
  Bytes, Slot, Peer, returns, new_track_writer, get, take_publisher, write_to,
}
use mcp_moqt_transport.Tracks
use mcp_moqt_transport.Retry.{RetryConfig, retry_do, do_loop, rounds}
use mcp_moqt_transport.Ack.{answer, acked, new_tracker, default_ack_config, track}
use mcp_moqt_transport.Ack.Steps.Invariant.{Inv, new_tracker-Inv, track-Inv}
use mcp_moqt_transport.Control.{
  extract_message_id, ControlConn, Message, request, response, heartbeat_method, new_control_conn,
  track_ack_async, close, beat, after_beat, settle_beat, on_timeout,
}
use mcp_moqt_transport.Control.Writing.{
  Attempt, write, finish, after, outcome, attempt_write, after_write,
}
use mcp_moqt_transport.Control.Writing.Counts.{write-messages_sent}
use mcp_moqt_transport.Control.Reading.{read}
use mcp_moqt_transport.Control.Reading.Keepalives.{Heard, arrived, read_passes_keepalives}
use mcp_moqt_transport.Control.Exchange.{IsWritable, write-read_answers}
use mcp_moqt_transport.Ack.Steps.Answers.{Answered}
use mcp_moqt_transport.Control.Closing.{IsShut, close-IsShut}
use mcp_moqt_transport.Control.Failing.{Beat, IsAlive, Ends, run_beats, run_beats-Ends}
use mcp_moqt_transport.Heartbeat.{
  new_heartbeat, default_heartbeat_config, start, send_heartbeat, handle_failure,
}
use mcp_moqt_transport.Control.Process
use mcp_moqt_transport.Control.Process.{run-new_process-connections_active}
use mcp_moqt_transport.Control.Histories.{attempts, closes}

abbrev slot : Slot
slot = record { publisher = some 4; ready = true; cleared = false }

abbrev fresh_conn : ControlConn
fresh_conn = new_control_conn 3 "s1" slot true (new_metrics 0)

-- A connection on which the request "7" waits for its answer.
abbrev asking : ControlConn
asking = track_ack_async 5 "7" fresh_conn

fresh_conn-Inv : Inv fresh_conn.tracker
unfolding new_control_conn
fresh_conn-Inv = new_tracker-Inv default_ack_config

asking-Inv : Inv asking.tracker
unfolding track_ack_async
asking-Inv = track-Inv 5 "7" fresh_conn.tracker fresh_conn-Inv

close-IsShut_example :
    (c' : ControlConn) × (close 9 asking ≡ some c') × IsShut 9 asking c' × (close 10 c' ≡ some c')
close-IsShut_example =
    close-IsShut 9 10 asking asking-Inv (unfold track_ack_async new_control_conn in refl)
      (unfold track_ack_async new_control_conn track new_tracker in refl)

abbrev retries : RetryConfig ℕ
retries = record {
  max_attempts = 3;
  initial_delay = 1;
  max_delay = 8;
  multiplier = 2;
  jitter = false;
  retryable_errors = [];
}

abbrev no_match : Error → Error → Bool
no_match a b = false

abbrev encode_seven : Message → Result Bytes
encode_seven m = ok (7 ∷ [])

-- The byte 0 stands for a keepalive, every other for a request.
abbrev decode_first : Bytes → Result Message
decode_first (zero ∷ rest) = ok (request none heartbeat_method)
decode_first [] = err (foreign 6)
decode_first (suc b ∷ rest) = ok (request (some "1") "tools/list")

abbrev willing : Peer
willing = record {
  open_subgroup = λ p g. none;
  write_object = λ g i bytes. none;
  close_subgroup = λ g. none;
}

abbrev attempt : ℕ → Attempt
attempt n = record { now = n; ctx = none; ready_first = true; peer = willing }

abbrev nothing : ℕ → Option Error
nothing n = none

abbrev nil : Option Error
nil = none

write_done :
    (write no_match retries encode_seven
      (foreign 9)
      attempt
      nothing
      nothing
      (request (some "1") "ping")
      fresh_conn).1
    ≡ returns nil
unfolding write finish after outcome attempt_write after_write retry_do do_loop rounds
    new_control_conn extract_message_id new_track_writer Tracks.write get take_publisher write_to
    track_ack_async
write_done = refl

write-messages_sent_example :
    let c' =
      (write no_match retries encode_seven
        (foreign 9)
        attempt
        nothing
        nothing
        (request (some "1") "ping")
        fresh_conn).0 in
    (nil ≡ none → c'.metrics.messages_sent ≡ inc_64 fresh_conn.metrics.messages_sent)
    × (nil ≢ none → c'.metrics.messages_sent ≡ fresh_conn.metrics.messages_sent)
write-messages_sent_example =
    write-messages_sent no_match retries encode_seven (foreign 9) attempt nothing nothing
      (request (some "1") "ping") (7 ∷ []) fresh_conn nil (omega arith) (omega arith)
      (unfold new_control_conn in refl) refl write_done

other_method : "tools/list" ≢ heartbeat_method
other_method e = ground (arith, eq_iff "tools/list" heartbeat_method)

abbrev keepalives : List (ℕ × Bytes)
keepalives = (4, 0 ∷ []) ∷ (6, 0 ∷ []) ∷ []

read_passes_keepalives_example :
    (c' : ControlConn) × (read decode_first none false
        (foreign 8)
        (map arrived keepalives ++ (8, ok (5 ∷ [])) ∷ [])
        fresh_conn
      ≡ some (c', some (ok (request (some "1") "tools/list"))))
    × Heard decode_first (foreign 8) (suc (length keepalives)) 8 fresh_conn c'
read_passes_keepalives_example =
    read_passes_keepalives decode_first (foreign 8) keepalives 8 (5 ∷ []) [] (some "1") "tools/list"
      fresh_conn ((none, refl), ((none, refl), tt)) refl other_method
      (unfold new_control_conn in refl)

-- Every object of the peer is a response to the request "7".
abbrev decode_answer : Bytes → Result Message
decode_answer bytes = ok (response (some "7") none)

fresh_conn-IsWritable :
    IsWritable no_match retries encode_seven
      (foreign 9)
      attempt
      nothing
      nothing
      "7"
      "ping"
      (7 ∷ [])
      fresh_conn
unfolding new_control_conn new_track_writer
fresh_conn-IsWritable = record {
  is_open = refl;
  ready = record { is_open = refl; ready = refl; uncleared = refl; held = λ e. cc };
  some_attempts = refl;
  goes_ahead = refl;
  no_deadline = refl;
  obliging = (λ p g. refl, λ g i b. refl, λ g. refl);
  encoded = refl;
  has_id = λ e. ground (arith, (eq_iff "7" "").1 e);
}

fresh_open : fresh_conn.done ≡ false
unfolding new_control_conn
fresh_open = refl

fresh_tracker_open : fresh_conn.tracker.closed ≡ false
unfolding new_control_conn new_tracker
fresh_tracker_open = refl

write-read_answers_example :
    (c1 c2 : ControlConn) × (write no_match retries encode_seven
        (foreign 9)
        attempt
        nothing
        nothing
        (request (some "7") "ping")
        fresh_conn
      ≡ (c1, returns none))
    × (read decode_answer none true (foreign 8) ((9, ok (1 ∷ [])) ∷ []) c1
        ≡ some (c2, some (ok (response (some "7") none))))
    × (lookup "7" c2.tracker.pending ≡ none)
    × (c2.waiting ≡ fresh_conn.tracker.next ∷ fresh_conn.waiting)
    × Answered (answer acked none "7" 9) fresh_conn.tracker.next c2.tracker
write-read_answers_example =
    write-read_answers no_match retries encode_seven (foreign 9) attempt nothing nothing "7" "ping"
      (7 ∷ []) fresh_conn decode_answer true (foreign 8) 9 (1 ∷ []) fresh_conn-IsWritable fresh_open
      fresh_conn-Inv fresh_tracker_open refl

-- A keepalive whose time is over before its write is done.
abbrev late_beat : ℕ → Beat
late_beat now = record {
  now = now;
  ctx = none;
  ready_first = true;
  peer = willing;
  payload = 1 ∷ [];
  late = some (foreign 9);
}

fresh_conn-IsAlive : IsAlive fresh_conn
unfolding new_control_conn new_tracker default_ack_config new_heartbeat default_heartbeat_config
    start
fresh_conn-IsAlive = record {
  tracker = fresh_conn-Inv;
  opened = refl;
  tracking = refl;
  beating = refl;
  counting = record { positive = omega arith; small = omega arith; below = omega arith };
}

run_beats-Ends_example :
    Ends 3 fresh_conn (run_beats (late_beat 10 ∷ late_beat 20 ∷ late_beat 30 ∷ []) fresh_conn)
unfolding new_control_conn new_heartbeat default_heartbeat_config start beat after_beat settle_beat
    on_timeout send_heartbeat handle_failure Tracks.write get take_publisher write_to
run_beats-Ends_example =
    run_beats-Ends (late_beat 10 ∷ late_beat 20 ∷ late_beat 30 ∷ []) fresh_conn fresh_conn-IsAlive
      (refl, (refl, (refl, tt))) (omega arith)

-- Two connections in turns: the older one is written on and closed, the newer one stays open.
abbrev shared_day : List (ℕ × Process.Event)
shared_day =
    (1, Process.opens "s1" slot true)
    ∷ (2, Process.opens "s2" slot false)
    ∷ (3, Process.operates 1 (attempts 1 (attempt 1) (7 ∷ []) "1"))
    ∷ (4, Process.counts 12)
    ∷ (5, Process.operates 1 closes)
    ∷ (6, Process.operates 1 (attempts 2 (attempt 2) (7 ∷ []) "1"))
    ∷ []

run-new_process-connections_active_example :
    (p : Process.Process) × (Process.run decode_first (foreign 8) shared_day (Process.new_process 0)
      ≡ some p)
    × (p.metrics.connections_active ≡ Process.open_count p.conns % two_64)
    × (p.metrics.connections_total ≡ length p.conns % two_64)
run-new_process-connections_active_example =
    run-new_process-connections_active decode_first (foreign 8) 0 shared_day
