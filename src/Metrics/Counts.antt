-- ===== src/Metrics/Counts.antt =====
-- The counters against the list of events that were recorded.
use mcp_moqt_transport.Base.{ℕ, ◌+◌, ◌%◌, ◌≡◌, refl, List, [], ◌∷◌, arith}
use mcp_moqt_transport.Base.Word.{two_64}
use mcp_moqt_transport.Metrics.{
  Metrics, Event, message_sent, message_received, acked, connection_opened, connection_closed, step,
  run,
}

-- What an event stands for: messages and bytes sent and received, answers, and the opened and
-- closed connections.
abbrev pub sent_of : Event → ℕ
sent_of (message_sent n) = 1
sent_of _ = 0

abbrev pub sent_bytes_of : Event → ℕ
sent_bytes_of (message_sent n) = n
sent_bytes_of _ = 0

abbrev pub received_of : Event → ℕ
received_of (message_received n) = 1
received_of _ = 0

abbrev pub acked_of : Event → ℕ
acked_of acked = 1
acked_of _ = 0

abbrev pub opened_of : Event → ℕ
opened_of connection_opened = 1
opened_of _ = 0

abbrev pub closed_of : Event → ℕ
closed_of connection_closed = 1
closed_of _ = 0

abbrev pub total : (Event → ℕ) → List Event → ℕ
total f [] = 0
total f (e ∷ es) = f e + total f es

-- The counters of `m'` are those of `m` and what the events add, modulo 2 ^ 64.
pub record Adds (es : List Event) (m m' : Metrics) : Type 0 where
  pub sent : m'.messages_sent % two_64 ≡ (m.messages_sent + total sent_of es) % two_64
  pub sent_bytes : m'.bytes_sent % two_64 ≡ (m.bytes_sent + total sent_bytes_of es) % two_64
  pub received :
      m'.messages_received % two_64 ≡ (m.messages_received + total received_of es) % two_64
  pub acks : m'.messages_acked % two_64 ≡ (m.messages_acked + total acked_of es) % two_64
  pub opened : m'.connections_total % two_64 ≡ (m.connections_total + total opened_of es) % two_64
  pub balance :
      (m'.connections_active + total closed_of es) % two_64
      ≡ (m.connections_active + total opened_of es) % two_64
  pub started : m'.start_time ≡ m.start_time

step-Adds : (e : Event) (m : Metrics) → Adds (e ∷ []) m (step e m)
unfolding step
step-Adds e m = ground arith

-- After any recorded events the counters of messages sent and received, of bytes sent, of acks
-- and of connections have grown by what the events stand for, and the active connections by those
-- opened less those closed, all modulo 2 ^ 64; the start time stays.
run-Adds : (es : List Event) (m : Metrics) → Adds es m (run es m)
unfolding run
run-Adds [] m = record {
  sent = omega arith;
  sent_bytes = omega arith;
  received = omega arith;
  acks = omega arith;
  opened = omega arith;
  balance = omega arith;
  started = refl;
}
run-Adds (e ∷ es) m =
    let here = step-Adds e m in
    let rest = run-Adds es (step e m) in
    record {
      sent = omega (arith, here.sent, rest.sent);
      sent_bytes = omega (arith, here.sent_bytes, rest.sent_bytes);
      received = omega (arith, here.received, rest.received);
      acks = omega (arith, here.acks, rest.acks);
      opened = omega (arith, here.opened, rest.opened);
      balance = omega (arith, here.balance, rest.balance);
      started = ground (arith, here.started, rest.started);
    }
