-- ===== src/Ack/Steps/Once.antt =====
-- pkg/moqttransport/ack.go: what became of each call of `Track`, step by step.
use mathlib.Core.Path.{subst}
use mcp_moqt_transport.Base.{
  ℕ, ◌≡◌, ◌⊎◌, refl, sym, ap, ◌∙◌, inl, inr, true, false, none, some, List, [], ◌∷◌, String, length,
  arith, some_inj, Bool-cases, str_eq, eq_iff, suc, ◌+◌, All,
}
use mcp_moqt_transport.Base.Map.{
  lookup, insert, nat_key, string_key, lookup-insert, lookup-insert_self,
}
use mcp_moqt_transport.Ack.{
  Tracker, PendingAck, Chan, Timer, empty_chan, AckConfig, new_tracker, nacked, answer, track,
}
use mcp_moqt_transport.Ack.Steps.{
  Event, tracks, acks, nacks, fires, callbacks, begins_close, finishes_close, step, refuse_all,
  close_begin, close_finish, fire, run,
}
use mcp_moqt_transport.Ack.Steps.Invariant.{
  Inv, Waiting, track-Inv, close_finish-Steps, new_tracker-Inv,
}
use mcp_moqt_transport.Errors.{sentinel, connection_closed}
use mcp_moqt_transport.Ack.Steps.Closing.{Refused, refuse_all-Refused}
use mcp_moqt_transport.Ack.Steps.Orphans.{Unwaited, refuse_all-Orphan, lookup-insert_above}
use mcp_moqt_transport.Ack.Steps.Served.{
  Reported, Awaited, Served, AllReported, tracked, IsNew, AllNew, Once, Served-map,
}
use mcp_moqt_transport.Ack.Steps.Settled.{
  Goes, ack-Once, nack-Once, callback-Once, fire-Once, close_begin-Once,
}

-- A channel with a message in it is no waiting entry's.
Waiting-Reported :
    (chans : List (ℕ × Chan)) (n c : ℕ) (id : String) (m : List (String × PendingAck))
    → Reported c id chans
    → Waiting chans n m
    → Unwaited c m
Waiting-Reported chans n c id [] r w = tt
Waiting-Reported chans n c id ((j, p) ∷ m) r w = (
  λ e.
      let empty : lookup c chans ≡ some empty_chan =
        subst (λ x. lookup x chans ≡ some empty_chan) e w.1 in
      ground (arith, r.2),
  Waiting-Reported chans p.chan c id m r w.2,
)

Refused-lookup :
    (now : ℕ) (chans : List (ℕ × Chan)) (id : String) (m : List (String × PendingAck))
    {p : PendingAck}
    → All (Refused now chans) m
    → lookup id m ≡ some p
    → Reported p.chan id chans
unfolding lookup
Refused-lookup now chans id [] a h = ground arith
Refused-lookup now chans id ((j, q) ∷ m) {p} a h = elim (Bool-cases (str_eq j id)) [
  | inl e ↦
      let same : q ≡ p = ground arith in
      let m' = answer nacked (some (sentinel connection_closed)) j now in
      (
        m',
        true,
        subst (λ x. lookup x.chan chans ≡ some (record { queue = m' ∷ []; is_closed = true })) same
            a.0,
        (eq_iff j id).0 e,
      )
  | inr e ↦ Refused-lookup now chans id m {p = p} a.1 (ground arith)
]

close_finish-Once :
    (ids : List String) (now : ℕ) (t : Tracker) → Once ids t → Goes ids (close_finish now t)
unfolding close_finish
close_finish-Once ids now t o = elim (Bool-cases t.closing) [
  | inr f ↦ simp f (t, refl, o)
  | inl f ↦
      let ((chans, armed), e, kept, all) =
        refuse_all-Refused now t.pending t.chans t.armed t.next o.inv.waiting in
      let t' : Tracker = record t { pending = []; closing = false; chans = chans; armed = armed } in
      let (u, h, v) = close_finish-Steps now t o.inv in
      let here : close_finish now t ≡ some t' = simp (f, e) refl in
      (
        t',
        here,
        record {
          inv = subst Inv (some_inj (sym h ∙ here)) v;
          count = o.count;
          served =
              Served-map ids t t' t.next (rw o.count (omega arith))
                (λ c id lt s. refused chans armed e all c id s) o.served;
        },
      )
]
  where
    refused :
        (chans : List (ℕ × Chan)) (armed : List (ℕ × Timer))
        → refuse_all now t.pending t.chans t.armed ≡ some (chans, armed)
        → All (Refused now chans) t.pending
        → (c : ℕ) (id : String) → Reported c id t.chans ⊎ Awaited c id t
        → Reported c id chans
          ⊎ Awaited c id (record t { pending = []; closing = false; chans = chans; armed = armed })
    refused chans armed e all c id (inl r) =
        let un = Waiting-Reported t.chans t.next c id t.pending r o.inv.waiting in
        inl (r.0, r.1, refuse_all-Orphan c now t.pending t.chans t.armed un e ∙ r.2, r.3)
    refused chans armed e all c id (inr (p, h, k, q)) =
        inl (subst (λ x. Reported x id chans) k (Refused-lookup now chans id t.pending all h))

kept_channel :
    (c : ℕ) (j : String) (t t' : Tracker)
    → lookup c t'.chans ≡ lookup c t.chans
    → ((p : PendingAck) → lookup j t.pending ≡ some p → lookup j t'.pending ≡ some p)
    → Reported c j t.chans ⊎ Awaited c j t
    → Reported c j t'.chans ⊎ Awaited c j t'
kept_channel c j t t' e f (inl r) = inl (r.0, r.1, e ∙ r.2, r.3)
kept_channel c j t t' e f (inr (p, h, k, q)) = inr (p, f p h, k, e ∙ q)

-- A new entry hides no other id's.
lookup-insert_new :
    (id j : String) (x p : PendingAck) (m : List (String × PendingAck))
    → lookup id m ≡ none
    → lookup j m ≡ some p
    → lookup j (insert id x m) ≡ some p
lookup-insert_new id j x p m n h = elim (Bool-cases (str_eq id j)) [
  | inl e ↦ let eq : id ≡ j = (eq_iff id j).0 e in cc
  | inr e ↦ ground (arith, lookup-insert id j x m)
]

track-Once :
    (ids : List String) (now : ℕ) (id : String) (t : Tracker)
    → IsNew (tracks id) t
    → Once ids t
    → Once (id ∷ ids) (track now id t)
unfolding track
track-Once ids now id t n o = elim (Bool-cases t.closed) [
  | inl f ↦
      let m = answer nacked (some (sentinel connection_closed)) id now in
      let ch : Chan = record { queue = m ∷ []; is_closed = false } in
      let t' : Tracker = record t { chans = insert t.next ch t.chans; next = suc t.next } in
      let e : track now id t ≡ t' = simp f refl in
      subst (Once (id ∷ ids)) (sym e) (record {
        inv = subst Inv e (track-Inv now id t o.inv);
        count = ap suc o.count;
        served = (
          rw (sym o.count) (inl (m, false, lookup-insert_self t.next ch t.chans, refl)),
          Served-map ids t t' t.next (rw o.count (omega arith))
              (λ c j lt s.
                kept_channel c j t t' (lookup-insert_above t.next c ch t.chans lt) (λ q h. h) s)
              o.served,
        );
      })
  | inr f ↦
      let p : PendingAck = record { id = id; timestamp = now; chan = t.next; timer = t.next } in
      let t' : Tracker = record t {
        pending = insert id p t.pending;
        chans = insert t.next empty_chan t.chans;
        armed = insert t.next (record { key = id; deadline = now + t.timeout }) t.armed;
        next = suc t.next;
      } in
      let e : track now id t ≡ t' = simp f refl in
      subst (Once (id ∷ ids)) (sym e) (record {
        inv = subst Inv e (track-Inv now id t o.inv);
        count = ap suc o.count;
        served = (
          rw (sym o.count) (
              inr (
                p,
                lookup-insert_self id p t.pending,
                refl,
                lookup-insert_self t.next empty_chan t.chans,
              )),
          Served-map ids t t' t.next (rw o.count (omega arith))
              (λ c j lt s.
                kept_channel c j t t' (lookup-insert_above t.next c empty_chan t.chans lt)
                  (λ q h. lookup-insert_new id j p q t.pending (n f) h) s)
              o.served,
        );
      })
]

step-Once :
    (ids : List String) (now : ℕ) (e : Event) (t : Tracker)
    → IsNew e t
    → Once ids t
    → Goes (tracked ((now, e) ∷ []) ids) (step now e t)
unfolding step
step-Once ids now (tracks id) t n o = (track now id t, refl, track-Once ids now id t n o)
step-Once ids now (acks id) t n o = ack-Once ids now id t o
step-Once ids now (nacks id e) t n o = nack-Once ids now id e t o
step-Once ids now (fires timer) t n o = (fire now timer t, refl, fire-Once ids now timer t o)
step-Once ids now (callbacks timer) t n o = callback-Once ids now timer t o
step-Once ids now begins_close t n o = (close_begin t, refl, close_begin-Once ids t o)
step-Once ids now finishes_close t n o = close_finish-Once ids now t o

tracked_first :
    (now : ℕ) (e : Event) (es : List (ℕ × Event)) (ids : List String)
    → tracked ((now, e) ∷ es) ids ≡ tracked es (tracked ((now, e) ∷ []) ids)
tracked_first now (tracks id) es ids = refl
tracked_first now (acks id) es ids = refl
tracked_first now (nacks id e) es ids = refl
tracked_first now (fires timer) es ids = refl
tracked_first now (callbacks timer) es ids = refl
tracked_first now begins_close es ids = refl
tracked_first now finishes_close es ids = refl

run-Once :
    (ids : List String) (es : List (ℕ × Event)) (t : Tracker)
    → AllNew es t
    → Once ids t
    → Goes (tracked es ids) (run es t)
unfolding run
run-Once ids [] t n o = (t, refl, o)
run-Once ids ((now, e) ∷ es) t n o =
    let (u, h, o') = step-Once ids now e t n.0 o in
    rw (h, run, tracked_first now e es ids)
      (run-Once (tracked ((now, e) ∷ []) ids) es u (rw h at n.1) o')

Served-AllReported :
    (ids : List String) (t : Tracker) → t.pending ≡ [] → Served ids t → AllReported ids t
Served-AllReported [] t e s = tt
Served-AllReported (id ∷ ids) t e (inl r, s) = (r, Served-AllReported ids t e s)
Served-AllReported (id ∷ ids) t e (inr (p, h, k, q), s) =
    (unfold lookup in cc (rw e at h), Served-AllReported ids t e s)

-- Whatever calls, timers and `Close` come to a new tracker, in any order and at any times, as long
-- as no id is tracked again while it waits: every call of `Track` has a channel of its own, which
-- holds exactly one message, about the id of that call, or is empty and is the one of the entry that
-- waits under this id. Once a `Close` is over, each of them holds its message.
pub run-new_tracker-Served :
    (config : AckConfig) (es : List (ℕ × Event))
    → AllNew es (new_tracker config)
    → let ids = tracked es [] in
      (t : Tracker) × (run es (new_tracker config) ≡ some t)
      × (t.next ≡ length ids)
      × Served ids t
      × ((t.closed ≡ false) ⊎ ((t.closing ≡ true) ⊎ AllReported ids t))
run-new_tracker-Served config es n =
    let start : Once [] (new_tracker config) = record {
      inv = new_tracker-Inv config;
      count = unfold new_tracker in refl;
      served = tt;
    } in
    let (t, h, o) = run-Once [] es (new_tracker config) n start in
    (
      t,
      h,
      o.count,
      o.served,
      elim (Bool-cases t.closed) [
        | inr c ↦ inl c
        | inl c ↦ elim (Bool-cases t.closing) [
          | inl k ↦ inr (inl k)
          | inr k ↦ inr (inr (Served-AllReported (tracked es []) t (o.inv.drained c k) o.served))
        ]
      ],
    )
