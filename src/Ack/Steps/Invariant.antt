-- ===== src/Ack/Steps/Invariant.antt =====
-- No step of the tracker faults, in any order of calls, timers and `Close`.
use mcp_moqt_transport.Base.{
  ℕ, suc, ◌≤◌, ◌<◌, ◌≡◌, refl, inl, inr, true, false, Option, none, some, List, [], ◌∷◌, String,
  arith, Option-cases, Bool-cases, str_eq,
}
use mcp_moqt_transport.Base.Map.{
  lookup, insert, erase, nat_key, string_key, lookup-insert, lookup-insert_self,
}
use mcp_moqt_transport.Errors.{Error, Sentinel, sentinel, connection_closed}
use mcp_moqt_transport.Ack.{
  AckConfig, new_tracker, Tracker, PendingAck, Chan, Timer, AckMessage, acked, nacked, timed_out,
  answer, empty_chan, with_chans, send_close, track, ack, nack, timeout_ack,
}
use mcp_moqt_transport.Ack.Steps.{
  refuse_all, close_begin, close_finish, fire, callback, Event, tracks, acks, nacks, fires,
  callbacks, begins_close, finishes_close, step, run,
}

-- Every waiting entry has an open, empty channel that was made before `n`; the channels fall along
-- the list, so no two entries share one.
abbrev pub Waiting : List (ℕ × Chan) → ℕ → List (String × PendingAck) → Type 0
Waiting chans n [] = Unit {0}
Waiting chans n ((id, p) ∷ m) =
    (p.chan < n) × (lookup p.chan chans ≡ some empty_chan) × Waiting chans p.chan m

pub record Inv (t : Tracker) : Type 0 where
  pub waiting : Waiting t.chans t.next t.pending
  pub drained : t.closed ≡ true → t.closing ≡ false → t.pending ≡ []

Waiting-le :
    (chans : List (ℕ × Chan)) (a b : ℕ) (m : List (String × PendingAck))
    → a ≤ b
    → Waiting chans a m
    → Waiting chans b m
Waiting-le chans a b [] h w = tt
Waiting-le chans a b ((id, p) ∷ m) h w = (omega arith, w.1, w.2)

Waiting-erase :
    (chans : List (ℕ × Chan)) (n : ℕ) (id : String) (m : List (String × PendingAck))
    → Waiting chans n m
    → Waiting chans n (erase id m)
unfolding erase
Waiting-erase chans n id [] w = tt
Waiting-erase chans n id ((j, p) ∷ m) w = elim (Bool-cases (str_eq j id)) [
  | inl e ↦
      rw e
        (Waiting-le chans p.chan n (erase id m) (omega arith) (Waiting-erase chans p.chan id m w.2))
  | inr e ↦ rw e (w.0, w.1, Waiting-erase chans p.chan id m w.2)
]

-- A write to a channel above the bound leaves the waiting entries as they are.
pub Waiting-insert_above :
    (chans : List (ℕ × Chan)) (n c : ℕ) (ch : Chan) (m : List (String × PendingAck))
    → n ≤ c
    → Waiting chans n m
    → Waiting (insert c ch chans) n m
Waiting-insert_above chans n c ch [] h w = tt
Waiting-insert_above chans n c ch ((id, p) ∷ m) h w = (
  w.0,
  ground (arith, lookup-insert c p.chan ch chans, w.1),
  Waiting-insert_above chans p.chan c ch m (omega arith) w.2,
)

pub Waiting-lookup :
    (chans : List (ℕ × Chan)) (n : ℕ) (id : String) (m : List (String × PendingAck))
    {p : PendingAck}
    → Waiting chans n m
    → lookup id m ≡ some p
    → (p.chan < n) × (lookup p.chan chans ≡ some empty_chan)
unfolding lookup
Waiting-lookup chans n id [] w h = ground arith
Waiting-lookup chans n id ((j, q) ∷ m) {p} w h = elim (Bool-cases (str_eq j id)) [
  | inl e ↦ ground arith
  | inr e ↦
      let found : lookup id m ≡ some p = ground arith in
      ground (arith, Waiting-lookup chans q.chan id m w.2 found)
]

-- After the channel of one entry is answered, the entries of the other ids still wait.
Waiting-answered :
    (chans : List (ℕ × Chan)) (n : ℕ) (ch : Chan) (id : String) (m : List (String × PendingAck))
    {p : PendingAck}
    → Waiting chans n m
    → lookup id m ≡ some p
    → Waiting (insert p.chan ch chans) n (erase id m)
unfolding lookup erase
Waiting-answered chans n ch id [] w h = tt
Waiting-answered chans n ch id ((j, q) ∷ m) {p} w h = elim (Bool-cases (str_eq j id)) [
  | inl e ↦
      let same : q ≡ p = ground arith in
      let above =
        Waiting-insert_above chans q.chan p.chan ch (erase id m) (ground arith)
          (Waiting-erase chans q.chan id m w.2) in
      rw e (Waiting-le (insert p.chan ch chans) q.chan n (erase id m) (omega arith) above)
  | inr e ↦
      let found : lookup id m ≡ some p = ground arith in
      rw e (
        w.0,
        ground (
          arith,
          lookup-insert p.chan q.chan ch chans,
          Waiting-lookup chans q.chan id m w.2 found,
        ),
        Waiting-answered chans q.chan ch id m w.2 found,
      )
]

-- The answer to a waiting entry goes through.
pub send_close_waiting :
    (c : ℕ) (m : AckMessage) (chans : List (ℕ × Chan))
    → lookup c chans ≡ some empty_chan
    → send_close c m chans ≡ some (insert c (record { queue = m ∷ []; is_closed = true }) chans)
unfolding send_close
send_close_waiting c m chans h = rw (h, send_close)

-- A step that goes through and keeps the invariant.
abbrev pub Steps : Option Tracker → Type 0
Steps r = (t : Tracker) × (r ≡ some t) × Inv t

-- What `Ack`, `Nack` and `timeoutAck` do to a waiting entry.
pub settled-Steps :
    (id : String) (m : AckMessage) (t : Tracker) (p : PendingAck) (armed : List (ℕ × Timer))
    → Inv t
    → lookup id t.pending ≡ some p
    → Steps (
        with_chans
          (send_close p.chan m t.chans)
          (λ chans. record t { pending = erase id t.pending; chans = chans; armed = armed }))
settled-Steps id m t p armed v h =
    let ch : Chan = record { queue = m ∷ []; is_closed = true } in
    let (below, wait) = Waiting-lookup t.chans t.next id t.pending v.waiting h in
    rw (send_close_waiting p.chan m t.chans wait) (
      record t { pending = erase id t.pending; chans = insert p.chan ch t.chans; armed = armed },
      refl,
      record {
        waiting = Waiting-answered t.chans t.next ch id t.pending v.waiting h;
        drained = λ c k. rw (v.drained c k) (unfold erase in refl);
      },
    )

pub ack-Steps : (now : ℕ) (id : String) (t : Tracker) → Inv t → Steps (ack now id t)
unfolding ack
ack-Steps now id t v = elim (Option-cases (lookup id t.pending)) [
  | inl e ↦ rw (e, ack) (t, refl, v)
  | inr (p, e) ↦
      rw (e, ack) (settled-Steps id (answer acked none id now) t p (erase p.timer t.armed) v e)
]

pub nack-Steps : (now : ℕ) (id : String) (x : Error) (t : Tracker) → Inv t → Steps (nack now id x t)
unfolding nack
nack-Steps now id x t v = elim (Option-cases (lookup id t.pending)) [
  | inl e ↦ rw (e, nack) (t, refl, v)
  | inr (p, e) ↦
      rw (e, nack)
        (settled-Steps id (answer nacked (some x) id now) t p (erase p.timer t.armed) v e)
]

timeout_ack-Steps : (now : ℕ) (id : String) (t : Tracker) → Inv t → Steps (timeout_ack now id t)
unfolding timeout_ack
timeout_ack-Steps now id t v = elim (Option-cases (lookup id t.pending)) [
  | inl e ↦ rw (e, timeout_ack) (t, refl, v)
  | inr (p, e) ↦
      rw (e, timeout_ack)
        (settled-Steps id (answer timed_out (some (sentinel Sentinel.timeout)) id now) t p t.armed v
          e)
]

pub callback-Steps : (now timer : ℕ) (t : Tracker) → Inv t → Steps (callback now timer t)
unfolding callback
callback-Steps now timer t v = elim (Option-cases (lookup timer t.fired)) [
  | inl e ↦ rw (e, callback) (t, refl, v)
  | inr (d, e) ↦
      rw (e, callback)
        (timeout_ack-Steps now d.key (record t { fired = erase timer t.fired })
          (record { waiting = v.waiting; drained = v.drained }))
]

pub fire-Inv : (now timer : ℕ) (t : Tracker) → Inv t → Inv (fire now timer t)
unfolding fire
fire-Inv now timer t v = ground arith

pub track-Inv : (now : ℕ) (id : String) (t : Tracker) → Inv t → Inv (track now id t)
unfolding track
track-Inv now id t v = elim (Bool-cases t.closed) [
  | inl e ↦
      let kept = λ (ch : Chan).
        Waiting-insert_above t.chans t.next t.next ch t.pending (omega arith) v.waiting in
      simp e (record {
        waiting = Waiting-le _ t.next (suc t.next) t.pending (omega arith) (kept _);
        drained = λ c k. v.drained e k;
      })
  | inr e ↦
      let rest = Waiting-erase t.chans t.next id t.pending v.waiting in
      simp e (record {
        waiting =
            unfold insert in
            (
              omega arith,
              lookup-insert_self t.next empty_chan t.chans,
              Waiting-insert_above t.chans t.next t.next empty_chan (erase id t.pending)
                  (omega arith) rest,
            );
        drained = λ c k. cc;
      })
]

pub close_begin-Inv : (t : Tracker) → Inv t → Inv (close_begin t)
unfolding close_begin
close_begin-Inv t v = ground arith

-- The loop of `Close` answers every waiting entry.
pub refuse_all_waiting :
    (now : ℕ) (m : List (String × PendingAck)) (chans : List (ℕ × Chan)) (armed : List (ℕ × Timer))
    (n : ℕ)
    → Waiting chans n m
    → (r : List (ℕ × Chan) × List (ℕ × Timer)) × (refuse_all now m chans armed ≡ some r)
unfolding refuse_all
refuse_all_waiting now [] chans armed n w = ((chans, armed), refl)
refuse_all_waiting now ((id, p) ∷ rest) chans armed n w =
    let m = answer nacked (some (sentinel connection_closed)) id now in
    let ch : Chan = record { queue = m ∷ []; is_closed = true } in
    rw (send_close_waiting p.chan m chans w.1, refuse_all)
      (refuse_all_waiting now rest (insert p.chan ch chans) (erase p.timer armed) p.chan
        (Waiting-insert_above chans p.chan p.chan ch rest (omega arith) w.2))

pub close_finish-Steps : (now : ℕ) (t : Tracker) → Inv t → Steps (close_finish now t)
unfolding close_finish
close_finish-Steps now t v = elim (Bool-cases t.closing) [
  | inl e ↦
      let ((chans, armed), h) = refuse_all_waiting now t.pending t.chans t.armed t.next v.waiting in
      simp (e, h)
        (
          record t { pending = []; closing = false; chans = chans; armed = armed },
          refl,
          record { waiting = tt; drained = λ c k. refl },
        )
  | inr e ↦ simp e (t, refl, v)
]

-- From a coherent state every step goes through: no send or close hits a closed channel, no send
-- blocks with the lock held, and once `Close` is over nothing waits any more.
pub step-Steps : (now : ℕ) (e : Event) (t : Tracker) → Inv t → Steps (step now e t)
unfolding step
step-Steps now (tracks id) t v = (track now id t, refl, track-Inv now id t v)
step-Steps now (acks id) t v = ack-Steps now id t v
step-Steps now (nacks id e) t v = nack-Steps now id e t v
step-Steps now (fires timer) t v = (fire now timer t, refl, fire-Inv now timer t v)
step-Steps now (callbacks timer) t v = callback-Steps now timer t v
step-Steps now begins_close t v = (close_begin t, refl, close_begin-Inv t v)
step-Steps now finishes_close t v = close_finish-Steps now t v

pub run-Steps : (es : List (ℕ × Event)) (t : Tracker) → Inv t → Steps (run es t)
unfolding run
run-Steps [] t v = (t, refl, v)
run-Steps ((now, e) ∷ es) t v = let (t', h, v') = step-Steps now e t v in rw h (run-Steps es t' v')

pub new_tracker-Inv : (config : AckConfig) → Inv (new_tracker config)
unfolding new_tracker
new_tracker-Inv config = record { waiting = tt; drained = λ c k. refl }

-- Whatever calls, timer callbacks and `Close` do with a new tracker, in any order and at any times,
-- no step panics or blocks for ever with the lock held, and in the state reached every waiting
-- entry has an open, empty channel of its own, and nothing waits once a `Close` is over.
pub run-new_tracker-Steps :
    (config : AckConfig) (es : List (ℕ × Event)) → Steps (run es (new_tracker config))
run-new_tracker-Steps config es = run-Steps es (new_tracker config) (new_tracker-Inv config)
