-- ===== src/Control/Process.antt =====
-- pkg/moqttransport/control_conn.go over metrics.go: control connections that share the metrics of the
-- process, `DefaultMetrics()`. What an operation does to the counters are atomic additions, so that
-- those of one operation may be taken together.
use mathlib.Core.Path.{subst}
use mcp_moqt_transport.Base.{
  ℕ, zero, suc, ◌+◌, ◌%◌, ◌≡◌, ◌⊎◌, refl, inl, inr, Bool, Option, none, some, List, [], ◌∷◌, String,
  if◌then◌else◌, length, arith, All, some_inj, ap,
}
use mcp_moqt_transport.Base.Word.{two_64}
use mcp_moqt_transport.Errors.{Error, Result}
use mcp_moqt_transport.Metrics.{
  Metrics, new_metrics, record_error, record_data_track_message, record_connection_opened,
}
use mcp_moqt_transport.Tracks.{Slot, Bytes}
use mcp_moqt_transport.Ack.{default_ack_config}
use mcp_moqt_transport.Ack.Steps.Invariant.{Inv, new_tracker-Inv}
use mcp_moqt_transport.Control.{ControlConn, Message, new_control_conn}
use mcp_moqt_transport.Control.Reading.{read}
use mcp_moqt_transport.Control.Histories
use mcp_moqt_transport.Control.Histories.{
  attempts, gives_up, reads, beats, closes, collects, fires, callbacks, finished, step-Sound,
}
use mcp_moqt_transport.Control.Gauges.{
  Kept, Ended, read-Kept, attempt_write-Kept, close-Ended, beat-Ended, collect-Kept,
  with_tracker-Kept,
}

-- The control connections that were made, the newest first.
pub record Process : Type 0 where
  pub metrics : Metrics
  pub conns : List ControlConn

-- The package-wide metrics, which are made when the process starts.
unfoldable pub default_metrics : ℕ → Metrics
unfolding new_metrics
default_metrics start = new_metrics start

unfoldable pub new_process : ℕ → Process
unfolding default_metrics
new_process start = record { metrics = default_metrics start; conns = [] }

-- A new control connection, an operation of the one at a position, a data message that is counted.
pub data Event : Type 0 where
  opens : String → Slot → Bool → Event
  operates : ℕ → Histories.Event → Event
  counts : ℕ → Event

-- An operation of the connection at a position, which finds the metrics as they are.
unfoldable pub operate :
    (ControlConn → Option ControlConn)
    → ℕ
    → Metrics
    → List ControlConn
    → Option (Metrics × List ControlConn)
operate f i m [] = some (m, [])
operate f zero m (c ∷ cs) = elim (f (record c { metrics = m })) [
  | none ↦ none
  | some c' ↦ some (c'.metrics, c' ∷ cs)
]
operate f (suc i) m (c ∷ cs) = elim (operate f i m cs) [
  | none ↦ none
  | some (m', cs') ↦ some (m', c ∷ cs')
]

abbrev pub resumed : Option (Metrics × List ControlConn) → Option Process
resumed none = none
resumed (some (m, cs)) = some (record { metrics = m; conns = cs })

abbrev pub continue : Option Process → (Process → Option Process) → Option Process
continue none f = none
continue (some p) f = f p

abbrev pub open_count : List ControlConn → ℕ
open_count [] = 0
open_count (c ∷ cs) = (if c.closed then 0 else 1) + open_count cs

-- The counters of connections are right, and every connection's tracker is coherent.
record Gauged (p : Process) : Type 0 where
  pub active : p.metrics.connections_active ≡ open_count p.conns % two_64
  pub total : p.metrics.connections_total ≡ length p.conns % two_64
  pub coherent : All (λ c. Inv c.tracker) p.conns

-- An operation that goes through, and counts the connection as closed when it closes it.
abbrev Fair : (ControlConn → Option ControlConn) → Type 0
Fair f =
    (c : ControlConn)
    → Inv c.tracker
    → (c' : ControlConn) × (f c ≡ some c') × Inv c'.tracker × (Kept c c' ⊎ Ended c c')

finished_read :
    (c c' : ControlConn) (r : Option (ControlConn × Option (Result Message)))
    → finished r ≡ some c'
    → ((m : Option (Result Message)) → r ≡ some (c', m) → Kept c c')
    → Kept c c'
finished_read c c' none k f = cc
finished_read c c' (some (d, m)) k f = f m (ap (λ x. some (x, m)) (some_inj k))

-- `before` stands for the connections in front.
operate-Fair :
    (f : ControlConn → Option ControlConn) (i : ℕ) (m : Metrics) (cs : List ControlConn)
    (before : ℕ)
    → Fair f
    → All (λ c. Inv c.tracker) cs
    → m.connections_active ≡ (before + open_count cs) % two_64
    → (m' : Metrics) × (cs' : List ControlConn) × (operate f i m cs ≡ some (m', cs'))
      × (m'.connections_active ≡ (before + open_count cs') % two_64)
      × (m'.connections_total ≡ m.connections_total)
      × (length cs' ≡ length cs)
      × All (λ c. Inv c.tracker) cs'
unfolding operate
operate-Fair f i m [] before fair v a = (m, [], refl, a, refl, refl, tt)
operate-Fair f zero m (c ∷ cs) before fair v a =
    let (c', e, v', out) = fair (record c { metrics = m }) v.0 in
    rw (e, operate)
      (
        c'.metrics,
        c' ∷ cs,
        refl,
        elim out [ inl k ↦ ground (arith, a, k) | inr k ↦ ground (arith, a, k) ],
        elim out [ inl k ↦ k.2 | inr k ↦ k.3 ],
        refl,
        (v', v.1),
      )
operate-Fair f (suc i) m (c ∷ cs) before fair v a =
    let here = if c.closed then 0 else 1 in
    let (m', cs', e, act, total, len, v') =
      operate-Fair f i m cs (before + here) fair v.1 (omega (arith, a)) in
    rw (e, operate) (m', c ∷ cs', refl, omega (arith, act), total, omega (arith, len), (v.0, v'))

module _ (decode : Bytes → Result Message) (eof : Error) where
  unfoldable pub step : ℕ → Event → Process → Option Process
  unfolding operate new_control_conn record_data_track_message Histories.step
  step now (opens session_id send has_on_close) p =
      let c = new_control_conn now session_id send has_on_close p.metrics in
      some (record { metrics = c.metrics; conns = c ∷ p.conns })
  step now (operates i e) p =
      resumed (operate (Histories.step decode eof now e) i p.metrics p.conns)
  step now (counts size) p = some (record p { metrics = record_data_track_message size p.metrics })

  unfoldable pub run : List (ℕ × Event) → Process → Option Process
  unfolding step
  run [] p = some p
  run ((now, e) ∷ es) p = continue (step now e p) (run es)

  step-Fair : (now : ℕ) (e : Histories.Event) → Fair (Histories.step decode eof now e)
  unfolding Histories.step
  step-Fair now e c v =
      let (c', k, v') = step-Sound decode eof now e c v in (c', k, v', effect now e c c' k)
    where
      effect :
          (now : ℕ) (e : Histories.Event) (c c' : ControlConn)
          → Histories.step decode eof now e c ≡ some c'
          → Kept c c' ⊎ Ended c c'
      effect now (attempts n a bytes id) c c' k =
          inl
            (subst (Kept c) (some_inj k) (attempt_write-Kept n (record a { now = now }) bytes id c))
      effect now gives_up c c' k =
          inl (subst (Kept c) (some_inj k) (unfold record_error in (refl, refl, refl)))
      effect now (reads ctx done_first objects) c c' k = inl (
          finished_read c c' (read decode ctx done_first eof objects c) k
            (read-Kept decode ctx done_first eof objects c c'))
      effect now (beats ctx ready_first peer payload late) c c' k =
          beat-Ended now ctx ready_first peer payload late c c' k
      effect now closes c c' k = close-Ended now c c' k
      effect now (collects ch) c c' k = inl (subst (Kept c) (some_inj k) (collect-Kept ch c))
      effect now (fires timer) c c' k = inl (subst (Kept c) (some_inj k) (refl, refl, refl))
      effect now (callbacks timer) c c' k = inl (with_tracker-Kept _ c c' k)

  step-Gauged :
      (now : ℕ) (e : Event) (p : Process)
      → Gauged p
      → (p' : Process) × (step now e p ≡ some p') × Gauged p'
  unfolding step new_control_conn
  step-Gauged now (opens session_id send has_on_close) p v = (
    _,
    refl,
    record {
      active = unfold record_connection_opened in omega (arith, v.active);
      total = unfold record_connection_opened in omega (arith, v.total);
      coherent = (new_tracker-Inv default_ack_config, v.coherent);
    },
  )
  step-Gauged now (operates i e) p v =
      let (m', cs', k, act, total, len, v') =
        operate-Fair (Histories.step decode eof now e) i p.metrics p.conns 0 (step-Fair now e)
          v.coherent (omega (arith, v.active)) in
      rw (k, step)
        (
          _,
          refl,
          record {
            active = omega (arith, act);
            total = omega (arith, total, v.total, len);
            coherent = v';
          },
        )
  step-Gauged now (counts size) p v = (
    _,
    refl,
    record {
      active = unfold record_data_track_message in v.active;
      total = unfold record_data_track_message in v.total;
      coherent = v.coherent;
    },
  )

  run-Gauged :
      (es : List (ℕ × Event)) (p : Process)
      → Gauged p
      → (p' : Process) × (run es p ≡ some p') × Gauged p'
  unfolding run
  run-Gauged [] p v = (p, refl, v)
  run-Gauged ((now, e) ∷ es) p v =
      let (p', k, v') = step-Gauged now e p v in rw k (run-Gauged es p' v')

  -- From the start of the process, whatever control connections are made and whatever is written,
  -- read and answered on them, whenever the attempts of their `Write`s, their keepalives, timers and
  -- `Close` come, in any order, `Close` between two attempts too: no step panics, and the metrics that they all share have as the active connections the
  -- number of control connections that are not closed, and as the total the number of those that
  -- were made, modulo 2 ^ 64.
  pub run-new_process-connections_active :
      (start : ℕ) (es : List (ℕ × Event))
      → (p : Process) × (run es (new_process start) ≡ some p)
        × (p.metrics.connections_active ≡ open_count p.conns % two_64)
        × (p.metrics.connections_total ≡ length p.conns % two_64)
  run-new_process-connections_active start es =
      let fresh : Gauged (new_process start) =
        unfold new_process in
        (record { active = omega arith; total = omega arith; coherent = tt }) in
      let (p, k, v) = run-Gauged es (new_process start) fresh in (p, k, v.active, v.total)
