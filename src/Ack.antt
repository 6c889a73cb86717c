-- ===== src/Ack.antt =====
-- pkg/moqttransport/ack.go. The methods run under the tracker's lock, so each is one step; the
-- channels and the runtime's timers are explicit. A step is `none` where the code would panic (send
-- on or close of a closed channel) or block for ever with the lock held (send on a full channel).
pub mod Steps
use mcp_moqt_transport.Base.{
  ℕ, suc, ◌+◌, Bool, true, false, Option, none, some, List, [], ◌∷◌, String, if◌then◌else◌, length,
  leb,
}
use mcp_moqt_transport.Base.Map.{lookup, insert, erase, nat_key, string_key}
use mcp_moqt_transport.Errors.{Error, Sentinel, sentinel, connection_closed}

pub data Status : Type 0 where
  pending acked nacked timed_out : Status

pub record AckConfig : Type 0 where
  pub ack_timeout : ℕ
  pub retry_count : ℕ
  pub retry_interval : ℕ

-- Nanoseconds: 5 s and 100 ms.
unfoldable pub default_ack_config : AckConfig
default_ack_config = record {
  ack_timeout = 5000000000;
  retry_count = 3;
  retry_interval = 100000000;
}

pub record AckMessage : Type 0 where
  pub id : String
  pub status : Status
  pub timestamp : ℕ
  pub error : Option Error

-- A channel of capacity 1. Receiving is left out: it only makes room.
pub record Chan : Type 0 where
  pub queue : List AckMessage
  pub is_closed : Bool

pub record PendingAck : Type 0 where
  pub id : String
  pub timestamp : ℕ
  pub chan : ℕ
  pub timer : ℕ

-- A timer that was started and not stopped: when it is due, and the id that its callback closes over.
pub record Timer : Type 0 where
  pub key : String
  pub deadline : ℕ

-- `next` is the address of the next channel and timer; `fired` are the callbacks that wait for the
-- lock; `closing` says that a `Close` has set `closed` and waits for the lock.
pub record Tracker : Type 0 where
  pub pending : List (String × PendingAck)
  pub timeout : ℕ
  pub closed : Bool
  pub closing : Bool
  pub chans : List (ℕ × Chan)
  pub armed : List (ℕ × Timer)
  pub fired : List (ℕ × Timer)
  pub next : ℕ

unfoldable pub new_tracker : AckConfig → Tracker
new_tracker config = record {
  pending = [];
  timeout = config.ack_timeout;
  closed = false;
  closing = false;
  chans = [];
  armed = [];
  fired = [];
  next = 0;
}

abbrev pub empty_chan : Chan
empty_chan = record { queue = []; is_closed = false }

abbrev pub answer : Status → Option Error → String → ℕ → AckMessage
answer status error id now = record { id = id; status = status; timestamp = now; error = error }

-- The channel that `Track` returns is the one at the old `next`.
unfoldable pub track : ℕ → String → Tracker → Tracker
track now id t =
    if t.closed
    then record t { chans = insert t.next refused t.chans; next = suc t.next }
    else record t {
      pending = insert id entry t.pending;
      chans = insert t.next empty_chan t.chans;
      armed = insert t.next (record { key = id; deadline = now + t.timeout }) t.armed;
      next = suc t.next;
    }
  where
    refused : Chan
    refused = record {
      queue = answer nacked (some (sentinel connection_closed)) id now ∷ [];
      is_closed = false;
    }

    entry : PendingAck
    entry = record { id = id; timestamp = now; chan = t.next; timer = t.next }

-- `ackCh <- m` and `close(ackCh)`.
unfoldable pub send_close : ℕ → AckMessage → List (ℕ × Chan) → Option (List (ℕ × Chan))
send_close c m chans = elim (lookup c chans) [
  | none ↦ none
  | some ch ↦ if ch.is_closed then none else elim ch.queue [
    | [] ↦ some (insert c (record { queue = m ∷ []; is_closed = true }) chans)
    | x ∷ xs ↦ none
  ]
]

abbrev pub with_chans : Option (List (ℕ × Chan)) → (List (ℕ × Chan) → Tracker) → Option Tracker
with_chans none f = none
with_chans (some chans) f = some (f chans)

unfoldable pub ack : ℕ → String → Tracker → Option Tracker
unfolding send_close
ack now id t = elim (lookup id t.pending) [
  | none ↦ some t
  | some p ↦ with_chans (send_close p.chan (answer acked none id now) t.chans) (λ chans. record t {
    pending = erase id t.pending;
    chans = chans;
    armed = erase p.timer t.armed;
  })
]

unfoldable pub nack : ℕ → String → Error → Tracker → Option Tracker
unfolding send_close
nack now id e t = elim (lookup id t.pending) [
  | none ↦ some t
  | some p ↦ with_chans (send_close p.chan (answer nacked (some e) id now) t.chans) (λ chans.
      record t { pending = erase id t.pending; chans = chans; armed = erase p.timer t.armed })
]

unfoldable pub timeout_ack : ℕ → String → Tracker → Option Tracker
unfolding send_close
timeout_ack now id t = elim (lookup id t.pending) [
  | none ↦ some t
  | some p ↦
      with_chans
        (send_close p.chan (answer timed_out (some (sentinel Sentinel.timeout)) id now) t.chans)
        (λ chans. record t { pending = erase id t.pending; chans = chans })
]
