-- ===== src/Ack/Steps/Answers.antt =====
-- What an acknowledgement answers.
use mcp_moqt_transport.Base.{ℕ, ◌≡◌, ◌≢◌, refl, true, none, some, [], ◌∷◌, String, arith, eq_iff}
use mcp_moqt_transport.Base.Map.{
  lookup, insert, erase, nat_key, string_key, lookup-erase, lookup-insert_self, lookup-erase_self,
}
use mcp_moqt_transport.Ack.{Tracker, PendingAck, Chan, AckMessage, acked, answer, ack}
use mcp_moqt_transport.Ack.Steps.Invariant.{Inv, Waiting-lookup, send_close_waiting}

-- The channel got this answer and was closed.
abbrev pub Answered : AckMessage → ℕ → Tracker → Type 0
Answered m c t = lookup c t.chans ≡ some (record { queue = m ∷ []; is_closed = true })

-- The entry of an id is gone, and those of the other ids are as they were.
abbrev pub Removed : String → Tracker → Tracker → Type 0
Removed id t t' =
    (lookup id t'.pending ≡ none)
    × ((j : String) → j ≢ id → lookup j t'.pending ≡ lookup j t.pending)

-- In a coherent tracker `Ack` of a waiting id sends "acked" to the channel that its `Track`
-- returned and closes it, stops its timer, and removes the entry and no other.
pub ack_waiting :
    (now : ℕ) (id : String) (t : Tracker) (p : PendingAck)
    → Inv t
    → lookup id t.pending ≡ some p
    → (t' : Tracker) × (ack now id t ≡ some t')
      × Answered (answer acked none id now) p.chan t'
      × (lookup p.timer t'.armed ≡ none)
      × Removed id t t'
unfolding ack
ack_waiting now id t p v h =
    let m = answer acked none id now in
    let ch : Chan = record { queue = m ∷ []; is_closed = true } in
    let (below, wait) = Waiting-lookup t.chans t.next id t.pending v.waiting h in
    rw (h, ack, send_close_waiting p.chan m t.chans wait)
      (
        record t {
          pending = erase id t.pending;
          chans = insert p.chan ch t.chans;
          armed = erase p.timer t.armed;
        },
        refl,
        lookup-insert_self p.chan ch t.chans,
        lookup-erase_self p.timer t.armed,
        (lookup-erase_self id t.pending, λ j n. erased j n),
      )
  where
    erased : (j : String) → j ≢ id → lookup j (erase id t.pending) ≡ lookup j t.pending
    erased j n = ground (arith, lookup-erase id j t.pending, eq_iff id j)
