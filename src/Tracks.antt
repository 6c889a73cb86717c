-- ===== src/Tracks.antt =====
-- pkg/moqttransport/track_base.go. A publisher is a pointer, a number; a channel that is only ever
-- closed is a Boolean. What a publisher and its subgroups answer is the record `Peer`; what is asked
-- of them is a list of actions. A context is the error that it is done with, if it is.
pub mod Slots
pub mod Writes
pub mod Reading
pub mod Buffers
use mcp_moqt_transport.Base.{
  ℕ, suc, Bool, true, false, ◌||◌, Option, none, some, List, [], ◌∷◌, ◌++◌, if◌then◌else◌, is_some,
}
use mcp_moqt_transport.Base.Word.{inc_64}
use mcp_moqt_transport.Errors.{Error, Result, ok, err, sentinel, connection_closed}

pub record Slot : Type 0 where
  pub publisher : Option ℕ
  pub ready : Bool
  pub cleared : Bool

unfoldable pub new_slot : Slot
new_slot = record { publisher = none; ready = false; cleared = false }

-- The argument is an interface value, `none` for nil. The result is `none` where `close(s.ready)`
-- panics because the channel is closed.
unfoldable pub set : Option ℕ → Slot → Option Slot
set new s =
    if is_some s.publisher || s.cleared
    then some s
    else if s.ready
    then none
    else some (record s { publisher = new; ready = true })

pub data Got : Type 0 where
  blocked : Got
  failed : Error → Got
  got : Option ℕ → Got

-- The part of `Get` behind the `select`.
unfoldable pub take_publisher : Slot → Got
take_publisher s = if s.cleared then failed (sentinel connection_closed) else got s.publisher

-- Where the context is done and the slot is ready, `select` takes either case: `ready_first` says
-- which one. `blocked` is a call that still waits.
unfoldable pub get : Option Error → Bool → Slot → Got
unfolding take_publisher
get none ready_first s = if s.ready then take_publisher s else blocked
get (some e) ready_first s =
    if s.ready then (if ready_first then take_publisher s else failed e) else failed e

unfoldable pub clear : Slot → Slot
clear s = record s { cleared = true; publisher = none }

pub record TrackWriter : Type 0 where
  pub slot : Slot
  pub next_group : ℕ
  pub closed : Bool

unfoldable pub new_track_writer : Slot → TrackWriter
new_track_writer slot = record { slot = slot; next_group = 0; closed = false }

abbrev pub Bytes : Type 0
Bytes = List ℕ

-- A publisher's `OpenSubgroup(group, 0, 0)`, a subgroup's `WriteObject(index, bytes)` and `Close`.
pub record Peer : Type 0 where
  pub open_subgroup : ℕ → ℕ → Option Error
  pub write_object : ℕ → ℕ → Bytes → Option Error
  pub close_subgroup : ℕ → Option Error

pub data Action : Type 0 where
  opened : ℕ → Action
  wrote : ℕ → ℕ → Bytes → Action
  closed_group : ℕ → Action

-- A call that returned an error or nil, or one that still waits for a publisher.
pub data Outcome : Type 0 where
  waits : Outcome
  returns : Option Error → Outcome

-- The loop of `WriteStream` from object `i` on, and the `Close` that ends it.
unfoldable pub write_objects : Peer → ℕ → ℕ → List Bytes → List Action × Option Error
write_objects peer group i [] = (closed_group group ∷ [], peer.close_subgroup group)
write_objects peer group i (object ∷ rest) =
    let later = write_objects peer group (suc i) rest in
    elim (peer.write_object group i object) [
      | none ↦ (wrote group i object ∷ later.0, later.1)
      | some e ↦ (wrote group i object ∷ closed_group group ∷ [], some e)
    ]

-- `WriteStream` behind `Get`, with a nil publisher left out: calling it would panic.
unfoldable pub stream_to : Peer → ℕ → List Bytes → TrackWriter → TrackWriter × List Action × Outcome
unfolding write_objects
stream_to peer publisher objects w =
    let group = w.next_group in
    let w' = record w { next_group = inc_64 group } in
    elim (peer.open_subgroup publisher group) [
      | some e ↦ (w', [], returns (some e))
      | none ↦
          let (actions, r) = write_objects peer group 0 objects in
          (w', opened group ∷ actions, returns r)
    ]

unfoldable pub write_to : Peer → ℕ → Bytes → TrackWriter → TrackWriter × List Action × Outcome
write_to peer publisher bytes w =
    let group = w.next_group in
    let w' = record w { next_group = inc_64 group } in
    elim (peer.open_subgroup publisher group) [
      | some e ↦ (w', [], returns (some e))
      | none ↦ elim (peer.write_object group 0 bytes) [
        | some e ↦
            (w', opened group ∷ wrote group 0 bytes ∷ closed_group group ∷ [], returns (some e))
        | none ↦ (
          w',
          opened group ∷ wrote group 0 bytes ∷ closed_group group ∷ [],
          returns (peer.close_subgroup group),
        )
      ]
    ]

-- `Slot.Set` is only called with a publisher, so `got none` stands for no run of the code.
abbrev pub with_publisher :
    Got
    → TrackWriter
    → (ℕ → TrackWriter × List Action × Outcome)
    → TrackWriter × List Action × Outcome
with_publisher blocked w f = (w, [], waits)
with_publisher (failed e) w f = (w, [], returns (some e))
with_publisher (got none) w f = (w, [], waits)
with_publisher (got (some publisher)) w f = f publisher

unfoldable pub write :
    Option Error → Bool → Peer → Bytes → TrackWriter → TrackWriter × List Action × Outcome
unfolding get write_to
write ctx ready_first peer bytes w =
    if w.closed
    then (w, [], returns (some (sentinel connection_closed)))
    else with_publisher (get ctx ready_first w.slot) w
        (λ publisher. write_to peer publisher bytes w)

unfoldable pub write_stream :
    Option Error → Bool → Peer → List Bytes → TrackWriter → TrackWriter × List Action × Outcome
unfolding get stream_to
write_stream ctx ready_first peer objects w =
    if w.closed
    then (w, [], returns (some (sentinel connection_closed)))
    else with_publisher (get ctx ready_first w.slot) w
        (λ publisher. stream_to peer publisher objects w)

unfoldable pub close_writer : TrackWriter → TrackWriter
unfolding clear
close_writer w = record w { closed = true; slot = clear w.slot }
