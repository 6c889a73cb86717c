-- ===== src/Control/Failing.antt =====
-- pkg/moqttransport/control_conn.go over heartbeat.go: keepalives that fail.
use mathlib.Core.Path.{subst}
use mcp_moqt_transport.Base.{
  ℕ, suc, ◌+◌, ◌≤◌, ◌<◌, ◌≡◌, ◌⊎◌, refl, ap, ◌∙◌, inl, inr, Bool, true, false, Option, none, some,
  List, [], ◌∷◌, length, leb, arith, All, Bool-cases,
}
use mcp_moqt_transport.Base.Word.{inc_32}
use mcp_moqt_transport.Errors.{Error}
use mcp_moqt_transport.Metrics.{record_heartbeat_sent, record_heartbeat_failed}
use mcp_moqt_transport.Tracks
use mcp_moqt_transport.Tracks.{Peer, Bytes, Outcome, waits, returns, TrackWriter}
use mcp_moqt_transport.Heartbeat.{Heartbeat, send_heartbeat, handle_failure}
use mcp_moqt_transport.Heartbeat.Cycles.{IsCounting}
use mcp_moqt_transport.Ack.Steps.Invariant.{Inv}
use mcp_moqt_transport.Control.{ControlConn, on_timeout, settle_beat, after_beat, beat}
use mcp_moqt_transport.Control.Closing.{IsShut, close-IsShut}
use mcp_moqt_transport.Ack.Steps.Closing.{Refused}

-- One beat of the heartbeat, with what its write meets.
pub record Beat : Type 0 where
  pub now : ℕ
  pub ctx : Option Error
  pub ready_first : Bool
  pub peer : Peer
  pub payload : Bytes
  pub late : Option Error

abbrev pub run_beat : Beat → ControlConn → Option ControlConn
run_beat b c = beat b.now b.ctx b.ready_first b.peer b.payload b.late c

-- What the write of a beat came to.
abbrev pub written : Beat → TrackWriter → Outcome
written b w = (Tracks.write b.ctx b.ready_first b.peer b.payload w).2

-- The callback returned, with an error or too late.
abbrev pub failed : Option Error → Outcome → Bool
failed late waits = false
failed (some e) (returns r) = true
failed none (returns none) = false
failed none (returns (some e)) = true

abbrev pub continue : Option ControlConn → (ControlConn → Option ControlConn) → Option ControlConn
continue none f = none
continue (some c) f = f c

unfoldable pub run_beats : List Beat → ControlConn → Option ControlConn
run_beats [] c = some c
run_beats (b ∷ bs) c = continue (run_beat b c) (run_beats bs)

abbrev pub After : Option ControlConn → (ControlConn → Type 0) → Type 0
After none P = Unit {0}
After (some c) P = P c

-- Each beat fails in the state that it finds.
abbrev pub AllFail : List Beat → ControlConn → Type 0
AllFail [] c = Unit {0}
AllFail (b ∷ bs) c =
    (failed b.late (written b c.write_track) ≡ true) × After (run_beat b c) (AllFail bs)

-- An open connection with a coherent tracker, whose heartbeat has its callback and counts.
pub record IsAlive (c : ControlConn) : Type 0 where
  pub tracker : Inv c.tracker
  pub opened : c.closed ≡ false
  pub tracking : c.tracker.closed ≡ false
  pub beating : c.heartbeat.config.has_on_heartbeat ≡ true
  pub counting : IsCounting c.heartbeat

-- Whatever the failure is, the beat goes the same way.
after_beat-failed :
    (now : ℕ) (late : Option Error) (r : Outcome) (c : ControlConn)
    → failed late r ≡ true
    → (e : Error) × (after_beat now late r c ≡ settle_beat now (some e) c)
unfolding after_beat
after_beat-failed now late waits c h = ground arith
after_beat-failed now (some e) (returns r) c h = (e, refl)
after_beat-failed now none (returns none) c h = ground arith
after_beat-failed now none (returns (some e)) c h = (e, refl)

send_fails :
    (now : ℕ) (e : Error) (h : Heartbeat)
    → IsCounting h
    → h.config.has_on_heartbeat ≡ true
    → let h' = send_heartbeat now (some e) h in
      (h'.config ≡ h.config)
      × (h.failures + 1 < h.config.max_failures → h'.failures ≡ h.failures + 1)
unfolding send_heartbeat handle_failure
send_fails now e h v b = (ground arith, λ lt. ground arith)

-- What a beat leaves alone while the connection stays open.
abbrev Same : ControlConn → ControlConn → Type 0
Same c c' =
    (c'.tracker ≡ c.tracker)
    × (c'.has_on_close ≡ c.has_on_close)
    × (c'.calls_on_close ≡ c.calls_on_close)
    × (c'.heartbeat.config ≡ c.heartbeat.config)

Same-IsShut : (now : ℕ) (c d e : ControlConn) → Same c d → IsShut now d e → IsShut now c e
Same-IsShut now c d e (t, h, k, _) s = record {
  closed = s.closed;
  done = s.done;
  refused = subst (λ x. All (Refused now e.tracker.chans) x.pending) t s.refused;
  drained = s.drained;
  silent = s.silent;
  read_cancelled = s.read_cancelled;
  write_closed = s.write_closed;
  recv_closed = s.recv_closed;
  conn_closed = s.conn_closed;
  told = λ o. s.told (h ∙ o) ∙ ap suc k;
}

-- What a failing beat comes to, by how many failures there were before.
abbrev Beaten : ControlConn → Option ControlConn → Type 0
Beaten c r =
    (c' : ControlConn) × (r ≡ some c')
    × ((c.heartbeat.failures + 1 < c.heartbeat.config.max_failures)
          × IsAlive c'
          × Same c c'
          × (c'.heartbeat.failures ≡ c.heartbeat.failures + 1)
        ⊎ ((c.heartbeat.failures + 1 ≡ c.heartbeat.config.max_failures)
            × ((now : ℕ) × IsShut now c c')))

settle_fails :
    (now : ℕ) (e : Error) (c : ControlConn) → IsAlive c → Beaten c (settle_beat now (some e) c)
unfolding settle_beat on_timeout
settle_fails now e c v =
    let h' = send_heartbeat now (some e) c.heartbeat in
    let (config, count) = send_fails now e c.heartbeat v.counting v.beating in
    let c1 : ControlConn = record c {
      heartbeat = h';
      metrics = record_heartbeat_failed c.metrics;
    } in
    let alive : c.heartbeat.failures + 1 < c.heartbeat.config.max_failures → IsAlive c1 = λ lt.
      record {
        tracker = v.tracker;
        opened = v.opened;
        tracking = v.tracking;
        beating = ap (λ x. x.has_on_heartbeat) config ∙ v.beating;
        counting = record {
          positive = omega (arith, ap (λ x. x.max_failures) config, v.counting.positive);
          small = omega (arith, ap (λ x. x.max_failures) config, v.counting.small);
          below = omega (arith, ap (λ x. x.max_failures) config, count lt, lt);
        };
      } in
    let maximum : h'.config.max_failures ≡ c.heartbeat.config.max_failures =
      ap (λ x. x.max_failures) config in
    elim (Bool-cases (leb h'.config.max_failures (inc_32 c.heartbeat.failures))) [
      | inr f ↦
          let lt : c.heartbeat.failures + 1 < c.heartbeat.config.max_failures =
            ground (arith, v.counting.small) in
          (c1, simp f refl, inl (lt, alive lt, (refl, refl, refl, config), count lt))
      | inl f ↦
          let top : c.heartbeat.failures + 1 ≡ c.heartbeat.config.max_failures =
            ground (arith, v.counting.small, v.counting.below) in
          let (c', k, shut, _) = close-IsShut now now c1 v.tracker v.opened v.tracking in
          (
            c',
            simp (f, k) refl,
            inr (top, (now, Same-IsShut now c c1 c' (refl, refl, refl, config) shut)),
          )
    ]

-- The write before it changes the writer and the metrics only.
beat_fails :
    (b : Beat) (c : ControlConn)
    → IsAlive c
    → failed b.late (written b c.write_track) ≡ true
    → Beaten c (run_beat b c)
unfolding beat
beat_fails b c v f =
    let (w, actions, r) = Tracks.write b.ctx b.ready_first b.peer b.payload c.write_track in
    let c1 : ControlConn = record c {
      metrics = record_heartbeat_sent c.metrics;
      write_track = w;
    } in
    let alive : IsAlive c1 = record {
      tracker = v.tracker;
      opened = v.opened;
      tracking = v.tracking;
      beating = v.beating;
      counting = v.counting;
    } in
    let (e, g) = after_beat-failed b.now b.late r c1 f in
    let (c', k, out) = settle_fails b.now e c1 alive in
    (
      c',
      g ∙ k,
      elim out [
        | inl (lt, v', same, count) ↦ inl (lt, v', same, count)
        | inr (top, (now, shut)) ↦
            inr (top, (now, Same-IsShut now c c1 c' (refl, refl, refl, refl) shut))
      ],
    )

-- Fewer failures than the limit leave the connection open, the one that reaches it shuts it.
abbrev pub Ends : ℕ → ControlConn → Option ControlConn → Type 0
Ends failures c r =
    (c' : ControlConn) × (r ≡ some c')
    × (((failures < c.heartbeat.config.max_failures)
          × (c'.closed ≡ false)
          × (c'.tracker ≡ c.tracker)
          × (c'.calls_on_close ≡ c.calls_on_close))
        ⊎ ((failures ≡ c.heartbeat.config.max_failures) × ((now : ℕ) × IsShut now c c')))

-- No beat comes after the one that reached the limit.
last-Ends :
    (b : Beat) (bs : List Beat) (c c1 : ControlConn) (now : ℕ)
    → run_beat b c ≡ some c1
    → c.heartbeat.failures + 1 ≡ c.heartbeat.config.max_failures
    → IsShut now c c1
    → c.heartbeat.failures + length (b ∷ bs) ≤ c.heartbeat.config.max_failures
    → Ends (c.heartbeat.failures + length (b ∷ bs)) c (run_beats (b ∷ bs) c)
unfolding run_beats
last-Ends b [] c c1 now k top shut h = (c1, rw k refl, inr (top, (now, shut)))
last-Ends b (x ∷ bs) c c1 now k top shut h = ground arith

-- Beats that fail one after the other, on an open connection with a coherent tracker and a positive
-- limit that an int32 holds, not more of them than the limit leaves: while they are fewer than that
-- the connection stays open and its tracker untouched, and the one that reaches the limit closes it:
-- every message that waits is refused, the tracks and the connection are closed, `OnClose` is
-- called once, and the heartbeat stops.
pub run_beats-Ends :
    (bs : List Beat) (c : ControlConn)
    → IsAlive c
    → AllFail bs c
    → c.heartbeat.failures + length bs ≤ c.heartbeat.config.max_failures
    → Ends (c.heartbeat.failures + length bs) c (run_beats bs c)
unfolding run_beats
run_beats-Ends [] c v a h = (c, refl, inl (omega (arith, v.counting.below), v.opened, refl, refl))
run_beats-Ends (b ∷ bs) c v a h =
    let (c1, k, out) = beat_fails b c v a.0 in
    let rest : AllFail bs c1 = rw k at a.1 in
    elim out [
      | inr (top, (now, shut)) ↦ last-Ends b bs c c1 now k top shut h
      | inl (lt, v', same, count) ↦
          let maximum = ap (λ x. x.max_failures) same.3 in
          let (c', k', ends) = run_beats-Ends bs c1 v' rest (omega (arith, maximum, count, h)) in
          (
            c',
            rw k k',
            elim ends [
              | inl (less, o, t, calls) ↦
                  inl (omega (arith, maximum, count, less), o, t ∙ same.0, calls ∙ same.2)
              | inr (top, (now, shut)) ↦
                  inr (omega (arith, maximum, count, top), (now, Same-IsShut now c c1 c' same shut))
            ],
          )
    ]
