-- ===== src/Ack/Steps/Closing.antt =====
-- pkg/moqttransport/ack.go: what `Close` answers.
use mcp_moqt_transport.Base.{
  ℕ, ◌≤◌, ◌≡◌, refl, ◌∙◌, true, false, some, List, [], ◌∷◌, String, arith, All,
}
use mcp_moqt_transport.Base.Map.{lookup, insert, erase, nat_key, lookup-insert, lookup-insert_self}
use mcp_moqt_transport.Errors.{sentinel, connection_closed}
use mcp_moqt_transport.Ack.{Tracker, PendingAck, Chan, Timer, nacked, answer}
use mcp_moqt_transport.Ack.Steps.{refuse_all, close_finish}
use mcp_moqt_transport.Ack.Steps.Invariant.{Inv, Waiting, send_close_waiting, Waiting-insert_above}

-- The channel holds the refusal of its id and is closed.
abbrev pub Refused : ℕ → List (ℕ × Chan) → String × PendingAck → Type 0
Refused now chans e =
    lookup e.1.chan chans
    ≡ some (record {
      queue = answer nacked (some (sentinel connection_closed)) e.0 now ∷ [];
      is_closed = true;
    })

-- The loop of `Close` refuses every entry, and touches no channel from the bound on.
pub refuse_all-Refused :
    (now : ℕ) (m : List (String × PendingAck)) (chans : List (ℕ × Chan)) (armed : List (ℕ × Timer))
    (n : ℕ)
    → Waiting chans n m
    → (r : List (ℕ × Chan) × List (ℕ × Timer)) × (refuse_all now m chans armed ≡ some r)
      × ((c : ℕ) → n ≤ c → lookup c r.0 ≡ lookup c chans)
      × All (Refused now r.0) m
unfolding refuse_all
refuse_all-Refused now [] chans armed n w = ((chans, armed), refl, λ c h. refl, tt)
refuse_all-Refused now ((id, p) ∷ rest) chans armed n w =
    let m = answer nacked (some (sentinel connection_closed)) id now in
    let ch : Chan = record { queue = m ∷ []; is_closed = true } in
    let chans' = insert p.chan ch chans in
    let (r, e, kept, all) =
      refuse_all-Refused now rest chans' (erase p.timer armed) p.chan
        (Waiting-insert_above chans p.chan p.chan ch rest (omega arith) w.2) in
    rw (send_close_waiting p.chan m chans w.1, refuse_all)
      (
        r,
        e,
        λ c h.
            kept c (omega (arith, w.0, h)) ∙ ground (arith, lookup-insert p.chan c ch chans, w.0),
        (kept p.chan (omega arith) ∙ lookup-insert_self p.chan ch chans, all),
      )

-- The part of `Close` under the lock goes through from a coherent tracker: every id that waits gets
-- one refusal, with the closed connection as its error, on its own channel, which is closed, and
-- nothing waits any more.
pub close_finish-Refused :
    (now : ℕ) (t : Tracker)
    → Inv t
    → t.closing ≡ true
    → (t' : Tracker) × (close_finish now t ≡ some t')
      × All (Refused now t'.chans) t.pending
      × (t'.pending ≡ [])
unfolding close_finish
close_finish-Refused now t v c =
    let ((chans, armed), e, kept, all) =
      refuse_all-Refused now t.pending t.chans t.armed t.next v.waiting in
    simp (c, e)
      (record t { pending = []; closing = false; chans = chans; armed = armed }, refl, all, refl)
