-- ===== src/Examples/Tracks.antt =====
-- Runs of the publisher slot, the track writer and the ack tracker.
use mcp_moqt_transport.Base.{
  ℕ, All, ◌≤◌, ◌≡◌, ◌⊎◌, refl, true, false, Option, none, some, List, [], ◌∷◌, arith, ◌==◌,
  if◌then◌else◌,
}
use mcp_moqt_transport.Base.Map.{lookup, insert, erase, nat_key, string_key}
use mcp_moqt_transport.Errors.{Error, foreign}
use mcp_moqt_transport.Tracks.{Slot, get, clear, blocked, failed, TrackWriter, Peer, write_stream}
use mcp_moqt_transport.Tracks.Slots.{sets, clears, calls, clear-get_waits}
use mcp_moqt_transport.Tracks.Buffers.{new_data_buffer}
use mcp_moqt_transport.Tracks.Buffers.Memory.{IsIntact, held_in}
use mcp_moqt_transport.Tracks.Buffers.Ownership
use mcp_moqt_transport.Tracks.Buffers.Ownership.{run-IsIntact}
use mcp_moqt_transport.Tracks.Writes.{Balanced, write_stream-Balanced}
use mcp_moqt_transport.Ack.{
  default_ack_config, new_tracker, Tracker, PendingAck, empty_chan, track, ack, send_close,
}
use mcp_moqt_transport.Ack.Steps.Served.{Served, AllReported}
use mcp_moqt_transport.Ack.Steps.Once.{run-new_tracker-Served}
use mcp_moqt_transport.Ack.Steps.{
  Event, tracks, acks, fires, callbacks, begins_close, finishes_close, step, run, close_begin,
}
use mcp_moqt_transport.Ack.Steps.Invariant.{Inv, Steps, run-new_tracker-Steps}
use mcp_moqt_transport.Ack.Steps.Orphans.{track_again_orphans}

abbrev empty_slot : Slot
empty_slot = record { publisher = none; ready = false; cleared = false }

abbrev filled_slot : Slot
filled_slot = record { publisher = some 4; ready = true; cleared = false }

clear-get_waits_example :
    (s' : Slot) × (calls (sets 4 ∷ clears ∷ []) (clear empty_slot) ≡ some s')
    × (get none true s' ≡ blocked)
    × (get (some (foreign 1)) true s' ≡ failed (foreign 1))
clear-get_waits_example = clear-get_waits empty_slot (sets 4 ∷ clears ∷ []) true (foreign 1) refl

abbrev second_fails : ℕ → Option Error
second_fails i = if i == 1 then some (foreign 9) else none

-- A peer whose second object fails, and a writer whose publisher is set.
abbrev failing_peer : Peer
failing_peer = record {
  open_subgroup = λ p g. none;
  write_object = λ g i bytes. second_fails i;
  close_subgroup = λ g. none;
}

abbrev open_writer : TrackWriter
open_writer = record { slot = filled_slot; next_group = 6; closed = false }

write_stream-Balanced_example :
    Balanced none true failing_peer open_writer
      (write_stream none true failing_peer ((1 ∷ []) ∷ (2 ∷ []) ∷ (3 ∷ []) ∷ []) open_writer)
write_stream-Balanced_example =
    write_stream-Balanced none true failing_peer ((1 ∷ []) ∷ (2 ∷ []) ∷ (3 ∷ []) ∷ []) open_writer

-- Two ids are tracked, one is acknowledged late, after its timer fired, while a `Close` waits.
abbrev late : List (ℕ × Event)
late =
    (0, tracks "a")
    ∷ (1, tracks "b")
    ∷ (5000000000, fires 0)
    ∷ (5000000001, begins_close)
    ∷ (5000000002, acks "a")
    ∷ (5000000003, callbacks 0)
    ∷ (5000000004, finishes_close)
    ∷ []

run-new_tracker-Steps_example : Steps (run late (new_tracker default_ack_config))
run-new_tracker-Steps_example = run-new_tracker-Steps default_ack_config late

abbrev entry : PendingAck
entry = record { id = "a"; timestamp = 3; chan = 0; timer = 0 }

abbrev waiting : Tracker
waiting = record {
  pending = ("a", entry) ∷ [];
  timeout = 100;
  closed = false;
  closing = false;
  chans = (0, empty_chan) ∷ [];
  armed = (0, record { key = "a"; deadline = 103 }) ∷ [];
  fired = [];
  next = 1;
}

waiting-Inv : Inv waiting
unfolding lookup
waiting-Inv = record { waiting = (omega arith, refl, tt); drained = λ c k. cc }

found : lookup "a" waiting.pending ≡ some entry
unfolding lookup
found = refl

-- The id is tracked once more, and then acknowledged.
abbrev retracked : Tracker
retracked = record {
  pending = ("a", record { id = "a"; timestamp = 60; chan = 1; timer = 1 }) ∷ [];
  timeout = 100;
  closed = false;
  closing = false;
  chans = (1, empty_chan) ∷ (0, empty_chan) ∷ [];
  armed =
      (1, record { key = "a"; deadline = 160 }) ∷ (0, record { key = "a"; deadline = 103 }) ∷ [];
  fired = [];
  next = 2;
}

runs_again :
    run ((60, tracks "a") ∷ (70, begins_close) ∷ []) waiting
    ≡ some (record retracked { closed = true; closing = true })
unfolding run step insert
runs_again = refl

track_again_orphans_example : lookup 0 retracked.chans ≡ some empty_chan
track_again_orphans_example =
    track_again_orphans 60 "a" waiting (record retracked { closed = true; closing = true }) entry
      ((70, begins_close) ∷ []) waiting-Inv refl found runs_again

-- Two messages, one of which is acknowledged, a `Close`, and one after it.
abbrev served : List (ℕ × Event)
served =
    (0, tracks "a")
    ∷ (1, tracks "b")
    ∷ (2, acks "a")
    ∷ (3, begins_close)
    ∷ (4, tracks "c")
    ∷ (5, finishes_close)
    ∷ []

run-new_tracker-Served_example :
    (t : Tracker) × (run served (new_tracker default_ack_config) ≡ some t)
    × (t.next ≡ 3)
    × Served ("c" ∷ "b" ∷ "a" ∷ []) t
    × ((t.closed ≡ false) ⊎ ((t.closing ≡ true) ⊎ AllReported ("c" ∷ "b" ∷ "a" ∷ []) t))
unfolding new_tracker default_ack_config run step track ack send_close lookup insert erase
    close_begin
run-new_tracker-Served_example =
    run-new_tracker-Served default_ack_config served
      ((λ c. refl), ((λ c. refl), (tt, (tt, ((λ c. refl), (tt, tt))))))

-- Two slices are read, the older one is returned, and its buffer is used again.
abbrev reuse : List Ownership.Event
reuse =
    Ownership.reads none 0 (1 ∷ 2 ∷ [])
    ∷ Ownership.reads none 0 (3 ∷ [])
    ∷ Ownership.returns 1
    ∷ Ownership.reads (some 0) 0 (4 ∷ 5 ∷ 6 ∷ [])
    ∷ []

run-IsIntact_example :
    let w = Ownership.run reuse (record { memory = new_data_buffer; held = [] }) in
    All (IsIntact w.memory.bytes) w.held × ((a : ℕ) → held_in a w.held ≤ 1)
run-IsIntact_example = run-IsIntact reuse
