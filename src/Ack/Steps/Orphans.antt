-- ===== src/Ack/Steps/Orphans.antt =====
-- A second `Track` of an id that still waits loses the first one's channel.
use mathlib.Core.Path.{subst}
use mcp_moqt_transport.Base.{
  ℕ, ◌<◌, ◌≡◌, ◌≢◌, sym, ap, ◌∙◌, inl, inr, true, false, none, some, List, [], ◌∷◌, String, arith,
  some_inj, Option-cases, Bool-cases, str_eq,
}
use mcp_moqt_transport.Base.Map.{lookup, insert, erase, nat_key, string_key, lookup-insert}
use mcp_moqt_transport.Errors.{Error, Sentinel, sentinel, connection_closed}
use mcp_moqt_transport.Ack.{
  Tracker, PendingAck, Chan, Timer, AckMessage, acked, nacked, timed_out, answer, empty_chan,
  with_chans, send_close, track, ack, nack, timeout_ack,
}
use mcp_moqt_transport.Ack.Steps.{
  refuse_all, close_begin, close_finish, fire, callback, Event, tracks, acks, nacks, fires,
  callbacks, begins_close, finishes_close, step, run,
}
use mcp_moqt_transport.Ack.Steps.Invariant.{Inv, Waiting, Waiting-lookup}

-- No entry waits on the channel.
abbrev pub Unwaited : ℕ → List (String × PendingAck) → Type 0
Unwaited c [] = Unit {0}
Unwaited c ((id, p) ∷ m) = (p.chan ≢ c) × Unwaited c m

-- An open channel with nothing in it that no `Ack`, `Nack`, timeout or `Close` will find.
pub record Orphan (c : ℕ) (t : Tracker) : Type 0 where
  pub made : c < t.next
  pub silent : lookup c t.chans ≡ some empty_chan
  pub unwaited : Unwaited c t.pending

Unwaited-erase :
    (c : ℕ) (id : String) (m : List (String × PendingAck)) → Unwaited c m → Unwaited c (erase id m)
unfolding erase
Unwaited-erase c id [] u = tt
Unwaited-erase c id ((j, p) ∷ m) u = ground (arith, Unwaited-erase c id m u.1)

Unwaited-lookup :
    (c : ℕ) (id : String) (m : List (String × PendingAck)) {p : PendingAck}
    → Unwaited c m
    → lookup id m ≡ some p
    → p.chan ≢ c
unfolding lookup
Unwaited-lookup c id [] u h = ground arith
Unwaited-lookup c id ((j, q) ∷ m) {p} u h = elim (Bool-cases (str_eq j id)) [
  | inl e ↦ ground arith
  | inr e ↦ Unwaited-lookup c id m {p = p} u.1 (ground arith)
]

send_close_other :
    (c d : ℕ) (m : AckMessage) (chans : List (ℕ × Chan)) {chans' : List (ℕ × Chan)}
    → send_close d m chans ≡ some chans'
    → d ≢ c
    → lookup c chans' ≡ lookup c chans
unfolding send_close
send_close_other c d m chans h n =
    let ch : Chan = record { queue = m ∷ []; is_closed = true } in
    ground (arith, lookup-insert d c ch chans)

settled-Orphan :
    (c : ℕ) (id : String) (m : AckMessage) (t t' : Tracker) (p : PendingAck)
    (armed : List (ℕ × Timer))
    → Orphan c t
    → lookup id t.pending ≡ some p
    → with_chans
        (send_close p.chan m t.chans)
        (λ chans. record t { pending = erase id t.pending; chans = chans; armed = armed })
      ≡ some t'
    → Orphan c t'
settled-Orphan c id m t t' p armed o h e = elim (Option-cases (send_close p.chan m t.chans)) [
  | inl f ↦ cc (rw f at e)
  | inr (chans, f) ↦
      let other =
        send_close_other c p.chan m t.chans f (Unwaited-lookup c id t.pending o.unwaited h) in
      let fewer = Unwaited-erase c id t.pending o.unwaited in
      subst (Orphan c) (some_inj (rw f at e))
        (record { made = o.made; silent = other ∙ o.silent; unwaited = fewer })
]

ack-Orphan :
    (c now : ℕ) (id : String) (t t' : Tracker) → Orphan c t → ack now id t ≡ some t' → Orphan c t'
unfolding ack
ack-Orphan c now id t t' o e = elim (Option-cases (lookup id t.pending)) [
  | inl f ↦ subst (Orphan c) (some_inj (rw (f, ack) at e)) o
  | inr (p, f) ↦
      settled-Orphan c id (answer acked none id now) t t' p (erase p.timer t.armed) o f
        (rw (f, ack) at e)
]

nack-Orphan :
    (c now : ℕ) (id : String) (x : Error) (t t' : Tracker)
    → Orphan c t
    → nack now id x t ≡ some t'
    → Orphan c t'
unfolding nack
nack-Orphan c now id x t t' o e = elim (Option-cases (lookup id t.pending)) [
  | inl f ↦ subst (Orphan c) (some_inj (rw (f, nack) at e)) o
  | inr (p, f) ↦
      settled-Orphan c id (answer nacked (some x) id now) t t' p (erase p.timer t.armed) o f
        (rw (f, nack) at e)
]

timeout_ack-Orphan :
    (c now : ℕ) (id : String) (t t' : Tracker)
    → Orphan c t
    → timeout_ack now id t ≡ some t'
    → Orphan c t'
unfolding timeout_ack
timeout_ack-Orphan c now id t t' o e = elim (Option-cases (lookup id t.pending)) [
  | inl f ↦ subst (Orphan c) (some_inj (rw (f, timeout_ack) at e)) o
  | inr (p, f) ↦
      settled-Orphan c id (answer timed_out (some (sentinel Sentinel.timeout)) id now) t t' p
        t.armed o f (rw (f, timeout_ack) at e)
]

callback-Orphan :
    (c now timer : ℕ) (t t' : Tracker) → Orphan c t → callback now timer t ≡ some t' → Orphan c t'
unfolding callback
callback-Orphan c now timer t t' o e = elim (Option-cases (lookup timer t.fired)) [
  | inl f ↦ subst (Orphan c) (some_inj (rw (f, callback) at e)) o
  | inr (d, f) ↦
      timeout_ack-Orphan c now d.key (record t { fired = erase timer t.fired }) t'
        (record { made = o.made; silent = o.silent; unwaited = o.unwaited }) (rw (f, callback) at e)
]

pub refuse_all-Orphan :
    (c now : ℕ) (m : List (String × PendingAck)) (chans : List (ℕ × Chan))
    (armed : List (ℕ × Timer)) {r : List (ℕ × Chan) × List (ℕ × Timer)}
    → Unwaited c m
    → refuse_all now m chans armed ≡ some r
    → lookup c r.0 ≡ lookup c chans
unfolding refuse_all
refuse_all-Orphan c now [] chans armed u e = ap (λ x. lookup c x) (sym (ap (λ y. y.0) (some_inj e)))
refuse_all-Orphan c now ((id, p) ∷ rest) chans armed {r} u e =
    let m = answer nacked (some (sentinel connection_closed)) id now in
    elim (Option-cases (send_close p.chan m chans)) [
      | inl f ↦ cc (rw (f, refuse_all) at e)
      | inr (chans', f) ↦
          refuse_all-Orphan c now rest chans' (erase p.timer armed) {r = r} u.1
            (rw (f, refuse_all) at e)
          ∙ send_close_other c p.chan m chans f u.0
    ]

close_finish-Orphan :
    (c now : ℕ) (t t' : Tracker) → Orphan c t → close_finish now t ≡ some t' → Orphan c t'
unfolding close_finish
close_finish-Orphan c now t t' o e = elim (Bool-cases t.closing) [
  | inr f ↦ subst (Orphan c) (some_inj (simp f at e)) o
  | inl f ↦ elim (Option-cases (refuse_all now t.pending t.chans t.armed)) [
    | inl g ↦ cc (simp (f, g) at e)
    | inr ((chans, armed), g) ↦ subst (Orphan c) (some_inj (simp (f, g) at e)) (record {
      made = o.made;
      silent = refuse_all-Orphan c now t.pending t.chans t.armed o.unwaited g ∙ o.silent;
      unwaited = tt;
    })
  ]
]

pub lookup-insert_above :
    (n c : ℕ) (ch : Chan) (chans : List (ℕ × Chan))
    → c < n
    → lookup c (insert n ch chans) ≡ lookup c chans
lookup-insert_above n c ch chans h = ground (arith, lookup-insert n c ch chans)

track-Orphan : (c now : ℕ) (id : String) (t : Tracker) → Orphan c t → Orphan c (track now id t)
unfolding track
track-Orphan c now id t o = elim (Bool-cases t.closed) [
  | inl f ↦ simp f (record {
    made = omega (arith, o.made);
    silent = lookup-insert_above t.next c _ t.chans o.made ∙ o.silent;
    unwaited = o.unwaited;
  })
  | inr f ↦ simp f (record {
    made = omega (arith, o.made);
    silent = ground (arith, lookup-insert t.next c empty_chan t.chans, o.made, o.silent);
    unwaited =
        unfold insert in (λ e. omega (arith, o.made), Unwaited-erase c id t.pending o.unwaited);
  })
]

fire-Orphan : (c now timer : ℕ) (t : Tracker) → Orphan c t → Orphan c (fire now timer t)
unfolding fire
fire-Orphan c now timer t o = ground arith

close_begin-Orphan : (c : ℕ) (t : Tracker) → Orphan c t → Orphan c (close_begin t)
unfolding close_begin
close_begin-Orphan c t o = ground arith

step-Orphan :
    (c now : ℕ) (e : Event) (t t' : Tracker) → Orphan c t → step now e t ≡ some t' → Orphan c t'
unfolding step
step-Orphan c now (tracks id) t t' o h = subst (Orphan c) (some_inj h) (track-Orphan c now id t o)
step-Orphan c now (acks id) t t' o h = ack-Orphan c now id t t' o h
step-Orphan c now (nacks id e) t t' o h = nack-Orphan c now id e t t' o h
step-Orphan c now (fires timer) t t' o h =
    subst (Orphan c) (some_inj h) (fire-Orphan c now timer t o)
step-Orphan c now (callbacks timer) t t' o h = callback-Orphan c now timer t t' o h
step-Orphan c now begins_close t t' o h = subst (Orphan c) (some_inj h) (close_begin-Orphan c t o)
step-Orphan c now finishes_close t t' o h = close_finish-Orphan c now t t' o h

run-Orphan :
    (c : ℕ) (es : List (ℕ × Event)) (t t' : Tracker) → Orphan c t → run es t ≡ some t' → Orphan c t'
unfolding run
run-Orphan c [] t t' o h = subst (Orphan c) (some_inj h) o
run-Orphan c ((now, e) ∷ es) t t' o h = elim (Option-cases (step now e t)) [
  | inl f ↦ cc (rw (f, run) at h)
  | inr (u, f) ↦ run-Orphan c es u t' (step-Orphan c now e t u o f) (rw (f, run) at h)
]

Unwaited-below :
    (chans : List (ℕ × Chan)) (c : ℕ) (m : List (String × PendingAck))
    → Waiting chans c m
    → Unwaited c m
Unwaited-below chans c [] w = tt
Unwaited-below chans c ((id, p) ∷ m) w = (λ e. omega arith, below m (p.chan) w.2 w.0)
  where
    below : (l : List (String × PendingAck)) (n : ℕ) → Waiting chans n l → n < c → Unwaited c l
    below [] n x lt = tt
    below ((j, q) ∷ l) n x lt = (λ e. omega arith, below l q.chan x.2 (omega arith))

Waiting-Unwaited :
    (chans : List (ℕ × Chan)) (n : ℕ) (id : String) (m : List (String × PendingAck))
    {p : PendingAck}
    → Waiting chans n m
    → lookup id m ≡ some p
    → Unwaited p.chan (erase id m)
unfolding lookup erase
Waiting-Unwaited chans n id [] w h = tt
Waiting-Unwaited chans n id ((j, q) ∷ m) {p} w h = elim (Bool-cases (str_eq j id)) [
  | inl e ↦
      let same : q ≡ p = ground arith in
      rw e (
        subst (λ x. Unwaited x.chan (erase id m)) same
          (Unwaited-erase q.chan id m (Unwaited-below chans q.chan m w.2)))
  | inr e ↦
      let found : lookup id m ≡ some p = ground arith in
      let (lt, _) = Waiting-lookup chans q.chan id m w.2 found in
      rw e (λ x. omega arith, Waiting-Unwaited chans q.chan id m w.2 found)
]

track_again-Orphan :
    (now : ℕ) (id : String) (t : Tracker) (p : PendingAck)
    → Inv t
    → t.closed ≡ false
    → lookup id t.pending ≡ some p
    → Orphan p.chan (track now id t)
unfolding track
track_again-Orphan now id t p v o h =
    let (below, wait) = Waiting-lookup t.chans t.next id t.pending v.waiting h in
    simp o (record {
      made = omega arith;
      silent = ground (arith, lookup-insert t.next p.chan empty_chan t.chans);
      unwaited =
          unfold insert in
          (λ e. omega arith, Waiting-Unwaited t.chans t.next id t.pending v.waiting h);
    })

-- Once an id that still waits in an open, coherent tracker is tracked again, the channel of its
-- first `Track` stays open and empty, whatever comes later: no `Ack`, `Nack`, timeout or `Close`
-- answers it.
pub track_again_orphans :
    (now : ℕ) (id : String) (t t' : Tracker) (p : PendingAck) (es : List (ℕ × Event))
    → Inv t
    → t.closed ≡ false
    → lookup id t.pending ≡ some p
    → run ((now, tracks id) ∷ es) t ≡ some t'
    → lookup p.chan t'.chans ≡ some empty_chan
unfolding run step
track_again_orphans now id t t' p es v o h r =
    (run-Orphan p.chan es (track now id t) t' (track_again-Orphan now id t p v o h) r).silent
