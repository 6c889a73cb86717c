-- ===== src/Ack/Steps.antt =====
-- pkg/moqttransport/ack.go: `Close`, the timers, the read-only methods, and the histories of a
-- tracker that callers, timer callbacks and `Close` share.
pub mod Invariant
pub mod Answers
pub mod Orphans
pub mod Closing
pub mod Served
pub mod Settled
pub mod Once
use mcp_moqt_transport.Base.{
  ℕ, ◌≡◌, Bool, true, false, Option, none, some, List, [], ◌∷◌, String, if◌then◌else◌, length, leb,
}
use mcp_moqt_transport.Base.Map.{lookup, insert, erase, nat_key}
use mcp_moqt_transport.Errors.{Error, sentinel, connection_closed}
use mcp_moqt_transport.Ack.{
  Tracker, PendingAck, Chan, Timer, answer, nacked, send_close, track, ack, nack, timeout_ack,
}

-- The loop of `Close`: every waiting channel gets its answer, and the timers are stopped.
unfoldable pub refuse_all :
    ℕ
    → List (String × PendingAck)
    → List (ℕ × Chan)
    → List (ℕ × Timer)
    → Option (List (ℕ × Chan) × List (ℕ × Timer))
unfolding send_close
refuse_all now [] chans armed = some (chans, armed)
refuse_all now ((id, p) ∷ rest) chans armed =
    elim (send_close p.chan (answer nacked (some (sentinel connection_closed)) id now) chans) [
      | none ↦ none
      | some chans' ↦ refuse_all now rest chans' (erase p.timer armed)
    ]

-- The compare-and-swap of `Close`.
unfoldable pub close_begin : Tracker → Tracker
close_begin t = if t.closed then t else record t { closed = true; closing = true }

-- The rest of `Close`, under the lock.
unfoldable pub close_finish : ℕ → Tracker → Option Tracker
unfolding refuse_all
close_finish now t =
    if t.closing
    then elim (refuse_all now t.pending t.chans t.armed) [
      | none ↦ none
      | some (chans, armed) ↦
          some (record t { pending = []; closing = false; chans = chans; armed = armed })
    ]
    else some t

unfoldable pub pending_count : Tracker → ℕ
pending_count t = length t.pending

unfoldable pub is_closed : Tracker → Bool
is_closed t = t.closed

-- A started timer that is due moves to the callbacks; the runtime does this without the lock.
unfoldable pub fire : ℕ → ℕ → Tracker → Tracker
fire now timer t = elim (lookup timer t.armed) [
  | none ↦ t
  | some d ↦
      if leb d.deadline now
      then record t { armed = erase timer t.armed; fired = insert timer d t.fired }
      else t
]

-- A callback gets the lock and runs `timeoutAck` on the id that it closes over.
unfoldable pub callback : ℕ → ℕ → Tracker → Option Tracker
unfolding timeout_ack
callback now timer t = elim (lookup timer t.fired) [
  | none ↦ some t
  | some d ↦ timeout_ack now d.key (record t { fired = erase timer t.fired })
]

pub data Event : Type 0 where
  tracks acks : String → Event
  nacks : String → Error → Event
  fires callbacks : ℕ → Event
  begins_close finishes_close : Event

unfoldable pub step : ℕ → Event → Tracker → Option Tracker
unfolding track ack nack fire callback close_begin close_finish
step now (tracks id) t = some (track now id t)
step now (acks id) t = ack now id t
step now (nacks id e) t = nack now id e t
step now (fires timer) t = some (fire now timer t)
step now (callbacks timer) t = callback now timer t
step now begins_close t = some (close_begin t)
step now finishes_close t = close_finish now t

abbrev pub continue : Option Tracker → (Tracker → Option Tracker) → Option Tracker
continue none f = none
continue (some t) f = f t

-- Each event comes with the clock's reading.
unfoldable pub run : List (ℕ × Event) → Tracker → Option Tracker
unfolding step
run [] t = some t
run ((now, e) ∷ es) t = continue (step now e t) (run es)
