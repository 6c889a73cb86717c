-- ===== src/Ack/Steps/Served.antt =====
-- pkg/moqttransport/ack.go: what became of each call of `Track`.
use mcp_moqt_transport.Base.{
  ℕ, ◌≤◌, ◌<◌, ◌≡◌, ◌⊎◌, Bool, false, Option, none, some, List, [], ◌∷◌, String, length, arith,
}
use mcp_moqt_transport.Base.Map.{lookup, nat_key, string_key}
use mcp_moqt_transport.Ack.{Tracker, PendingAck, Chan, AckMessage, empty_chan}
use mcp_moqt_transport.Ack.Steps.{
  Event, tracks, acks, nacks, fires, callbacks, begins_close, finishes_close, step,
}
use mcp_moqt_transport.Ack.Steps.Invariant.{Inv}

-- The channel holds one message, which is about this id.
abbrev pub Reported : ℕ → String → List (ℕ × Chan) → Type 0
Reported c id chans =
    (m : AckMessage) × (done : Bool) × (lookup c chans
      ≡ some (record { queue = m ∷ []; is_closed = done }))
    × (m.id ≡ id)

-- The channel is empty and belongs to the entry of this id.
abbrev pub Awaited : ℕ → String → Tracker → Type 0
Awaited c id t =
    (p : PendingAck) × (lookup id t.pending ≡ some p)
    × (p.chan ≡ c)
    × (lookup c t.chans ≡ some empty_chan)

-- The channels 0, 1, ... are those of the ids, the newest first.
abbrev pub Served : List String → Tracker → Type 0
Served [] t = Unit {0}
Served (id ∷ ids) t = (Reported (length ids) id t.chans ⊎ Awaited (length ids) id t) × Served ids t

abbrev pub AllReported : List String → Tracker → Type 0
AllReported [] t = Unit {0}
AllReported (id ∷ ids) t = Reported (length ids) id t.chans × AllReported ids t

-- The ids of the calls of `Track`, the newest first.
abbrev pub tracked : List (ℕ × Event) → List String → List String
tracked [] ids = ids
tracked ((now, tracks id) ∷ es) ids = tracked es (id ∷ ids)
tracked ((now, acks id) ∷ es) ids = tracked es ids
tracked ((now, nacks id e) ∷ es) ids = tracked es ids
tracked ((now, fires timer) ∷ es) ids = tracked es ids
tracked ((now, callbacks timer) ∷ es) ids = tracked es ids
tracked ((now, begins_close) ∷ es) ids = tracked es ids
tracked ((now, finishes_close) ∷ es) ids = tracked es ids

abbrev pub IsNew : Event → Tracker → Type 0
IsNew (tracks id) t = t.closed ≡ false → lookup id t.pending ≡ none
IsNew (acks id) t = Unit {0}
IsNew (nacks id e) t = Unit {0}
IsNew (fires timer) t = Unit {0}
IsNew (callbacks timer) t = Unit {0}
IsNew begins_close t = Unit {0}
IsNew finishes_close t = Unit {0}

abbrev pub Then : Option Tracker → (Tracker → Type 0) → Type 0
Then none P = Unit {0}
Then (some t) P = P t

-- No open tracker is asked to track an id that waits.
abbrev pub AllNew : List (ℕ × Event) → Tracker → Type 0
AllNew [] t = Unit {0}
AllNew ((now, e) ∷ es) t = IsNew e t × Then (step now e t) (AllNew es)

pub record Once (ids : List String) (t : Tracker) : Type 0 where
  pub inv : Inv t
  pub count : t.next ≡ length ids
  pub served : Served ids t

-- What happens to the channels that there were, each on its own.
pub Served-map :
    (ids : List String) (t t' : Tracker) (n : ℕ)
    → length ids ≤ n
    → ((c : ℕ) (id : String)
        → c < n
        → Reported c id t.chans ⊎ Awaited c id t
        → Reported c id t'.chans ⊎ Awaited c id t')
    → Served ids t
    → Served ids t'
Served-map [] t t' n h f s = tt
Served-map (id ∷ ids) t t' n h f s =
    (f (length ids) id (omega arith) s.0, Served-map ids t t' n (omega arith) f s.1)
