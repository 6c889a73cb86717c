-- ===== src/Ack/Steps/Settled.antt =====
-- pkg/moqttransport/ack.go: what an answer does to the channels of the calls of `Track`.
use mathlib.Core.Path.{subst}
use mcp_moqt_transport.Base.{
  ℕ, ◌≡◌, ◌≢◌, ◌⊎◌, refl, sym, ap, ◌∙◌, inl, inr, true, Option, none, some, List, [], ◌∷◌, String,
  arith, some_inj, Bool-cases, str_eq, eq_iff, Option-cases,
}
use mcp_moqt_transport.Base.Map.{
  lookup, insert, erase, nat_key, string_key, lookup-insert, lookup-insert_self, lookup-erase,
}
use mcp_moqt_transport.Ack.{
  Tracker, PendingAck, Chan, Timer, AckMessage, empty_chan, with_chans, send_close, acked, nacked,
  timed_out, answer, ack, nack, timeout_ack,
}
use mcp_moqt_transport.Ack.Steps.{close_begin, fire, callback}
use mcp_moqt_transport.Ack.Steps.Invariant.{
  Inv, Waiting-lookup, send_close_waiting, settled-Steps, fire-Inv, close_begin-Inv,
}
use mcp_moqt_transport.Errors.{Error, Sentinel, sentinel}
use mcp_moqt_transport.Ack.Steps.Served.{Reported, Awaited, Once, Served-map}

Reported-insert_other :
    (c d : ℕ) (id : String) (ch : Chan) (chans : List (ℕ × Chan))
    → d ≢ c
    → Reported c id chans
    → Reported c id (insert d ch chans)
Reported-insert_other c d id ch chans n (m, done, h, k) =
    (m, done, ground (arith, lookup-insert d c ch chans), k)

-- What an answer to one entry makes of a channel.
settled_channel :
    (id : String) (m : AckMessage) (t t' : Tracker) (p : PendingAck) (c : ℕ) (j : String)
    → Inv t'
    → lookup p.chan t.chans ≡ some empty_chan
    → lookup id t.pending ≡ some p
    → m.id ≡ id
    → t'.chans ≡ insert p.chan (record { queue = m ∷ []; is_closed = true }) t.chans
    → t'.pending ≡ erase id t.pending
    → Reported c j t.chans ⊎ Awaited c j t
    → Reported c j t'.chans ⊎ Awaited c j t'
settled_channel id m t t' p c j v wait h k ec ep (inl (m', done, hc, kc)) =
    let ch : Chan = record { queue = m ∷ []; is_closed = true } in
    inl (rw ec (Reported-insert_other c p.chan j ch t.chans (λ e. ground arith) (m', done, hc, kc)))
settled_channel id m t t' p c j v wait h k ec ep (inr (q, hq, eq, hc)) =
    let ch : Chan = record { queue = m ∷ []; is_closed = true } in
    elim (Bool-cases (str_eq id j)) [
      | inl e ↦
          let eqv : id ≡ j = (eq_iff id j).0 e in
          let same : p ≡ q = some_inj (sym h ∙ ap (λ x. lookup x t.pending) eqv ∙ hq) in
          let here : p.chan ≡ c = ap (λ x. x.chan) same ∙ eq in
          inl (
            m,
            true,
            rw ec (
                subst (λ x. lookup x (insert p.chan ch t.chans) ≡ some ch) here
                  (lookup-insert_self p.chan ch t.chans)),
            k ∙ eqv,
          )
      | inr e ↦
          let found : lookup j t'.pending ≡ some q =
            rw ep (ground (arith, lookup-erase id j t.pending)) in
          let (below, empty) = Waiting-lookup t'.chans t'.next j t'.pending v.waiting found in
          inr (q, found, eq, subst (λ x. lookup x t'.chans ≡ some empty_chan) eq empty)
    ]

-- An answer to a waiting entry leaves the other channels as they are.
settled-Once :
    (ids : List String) (id : String) (m : AckMessage) (t : Tracker) (p : PendingAck)
    (armed : List (ℕ × Timer))
    → Once ids t
    → lookup id t.pending ≡ some p
    → m.id ≡ id
    → (t' : Tracker) × (with_chans
          (send_close p.chan m t.chans)
          (λ chans. record t { pending = erase id t.pending; chans = chans; armed = armed })
        ≡ some t')
      × Once ids t'
settled-Once ids id m t p armed o h k =
    let (below, wait) = Waiting-lookup t.chans t.next id t.pending o.inv.waiting h in
    let ch : Chan = record { queue = m ∷ []; is_closed = true } in
    let chans' = insert p.chan ch t.chans in
    let t' : Tracker = record t { pending = erase id t.pending; chans = chans'; armed = armed } in
    let (u, e, v) = settled-Steps id m t p armed o.inv h in
    let same : u ≡ t' = some_inj (sym e ∙ rw (send_close_waiting p.chan m t.chans wait) refl) in
    let inv = subst Inv same v in
    (
      t',
      rw (send_close_waiting p.chan m t.chans wait) refl,
      record {
        inv = inv;
        count = o.count;
        served =
            Served-map ids t t' t.next (rw o.count (omega arith))
              (λ c j lt s. settled_channel id m t t' p c j inv wait h k refl refl s) o.served;
      },
    )

-- A step that goes through, after which each call of `Track` is answered or waits.
abbrev pub Goes : List String → Option Tracker → Type 0
Goes ids r = (t : Tracker) × (r ≡ some t) × Once ids t

pub ack-Once :
    (ids : List String) (now : ℕ) (id : String) (t : Tracker) → Once ids t → Goes ids (ack now id t)
unfolding ack
ack-Once ids now id t o = elim (Option-cases (lookup id t.pending)) [
  | inl e ↦ rw (e, ack) (t, refl, o)
  | inr (p, e) ↦
      rw (e, ack)
        (settled-Once ids id (answer acked none id now) t p (erase p.timer t.armed) o e refl)
]

pub nack-Once :
    (ids : List String) (now : ℕ) (id : String) (x : Error) (t : Tracker)
    → Once ids t
    → Goes ids (nack now id x t)
unfolding nack
nack-Once ids now id x t o = elim (Option-cases (lookup id t.pending)) [
  | inl e ↦ rw (e, nack) (t, refl, o)
  | inr (p, e) ↦
      rw (e, nack)
        (settled-Once ids id (answer nacked (some x) id now) t p (erase p.timer t.armed) o e refl)
]

timeout_ack-Once :
    (ids : List String) (now : ℕ) (id : String) (t : Tracker)
    → Once ids t
    → Goes ids (timeout_ack now id t)
unfolding timeout_ack
timeout_ack-Once ids now id t o = elim (Option-cases (lookup id t.pending)) [
  | inl e ↦ rw (e, timeout_ack) (t, refl, o)
  | inr (p, e) ↦
      rw (e, timeout_ack)
        (settled-Once ids id (answer timed_out (some (sentinel Sentinel.timeout)) id now) t p
          t.armed o e refl)
]

-- What a tracker has besides its entries and channels.
Once-same :
    (ids : List String) (t t' : Tracker)
    → Inv t'
    → t'.next ≡ t.next
    → t'.chans ≡ t.chans
    → t'.pending ≡ t.pending
    → Once ids t
    → Once ids t'
Once-same ids t t' v n c p o = record {
  inv = v;
  count = n ∙ o.count;
  served =
      Served-map ids t t' t.next (rw o.count (omega arith)) (λ d id lt s. rw (c, p) s) o.served;
}

pub callback-Once :
    (ids : List String) (now timer : ℕ) (t : Tracker) → Once ids t → Goes ids (callback now timer t)
unfolding callback
callback-Once ids now timer t o = elim (Option-cases (lookup timer t.fired)) [
  | inl e ↦ rw (e, callback) (t, refl, o)
  | inr (d, e) ↦
      let u : Tracker = record t { fired = erase timer t.fired } in
      let v : Inv u = record { waiting = o.inv.waiting; drained = o.inv.drained } in
      rw (e, callback) (timeout_ack-Once ids now d.key u (Once-same ids t u v refl refl refl o))
]

pub fire-Once :
    (ids : List String) (now timer : ℕ) (t : Tracker) → Once ids t → Once ids (fire now timer t)
unfolding fire
fire-Once ids now timer t o =
    Once-same ids t (fire now timer t) (fire-Inv now timer t o.inv) (ground arith) (ground arith)
      (ground arith) o

pub close_begin-Once : (ids : List String) (t : Tracker) → Once ids t → Once ids (close_begin t)
unfolding close_begin
close_begin-Once ids t o =
    Once-same ids t (close_begin t) (close_begin-Inv t o.inv) (ground arith) (ground arith)
      (ground arith) o
