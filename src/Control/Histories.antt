-- ===== src/Control/Histories.antt =====
-- A control connection whose methods, keepalives and timers come in any order. A `Write` is not one step:
-- it tests `closed` under the lock once and then makes its attempts without it and sleeps between them.
-- Its steps are the attempts and the count of its failure, and whatever else comes may come between
-- them, `Close` too.
use mathlib.Core.Path.{subst}
use mcp_moqt_transport.Base.{
  ℕ, zero, suc, ◌≡◌, refl, sym, Bool, Option, none, some, List, [], ◌∷◌, ◌++◌, String, inl, inr,
  Bool-cases, Option-cases,
}
use mcp_moqt_transport.Base.Map.{nat_key}
use mcp_moqt_transport.Errors.{Error, Result, Result-cases}
use mcp_moqt_transport.Metrics.{record_error}
use mcp_moqt_transport.Tracks.{Peer, Bytes, Outcome, waits, returns}
use mcp_moqt_transport.Retry.{RetryConfig}
use mcp_moqt_transport.Ack.Steps.{fire, callback}
use mcp_moqt_transport.Ack.Steps.Invariant.{Inv, fire-Inv, callback-Steps}
use mcp_moqt_transport.Control.{
  ControlConn, Message, collect, close, beat, with_tracker, extract_message_id,
}
use mcp_moqt_transport.Control.Writing.{Attempt, attempt_write, after, finish, write}
use mcp_moqt_transport.Control.Reading.{read}
use mcp_moqt_transport.Control.Soundness.{
  Sound, with_tracker-Sound, close-Sound, attempt_write-Inv, read-ReadSound, beat-Sound,
  collect-tracker,
}

-- What may happen to a connection: the attempt `n` of a `Write` with its bytes and the message's id, the
-- end of a `Write` that failed, a `Read` with the objects that it meets, a beat, `Close`, a goroutine
-- of `trackAckAsync`, and a timer of the tracker that fires or gets the lock. A `Read` may be given as
-- one event for each object.
pub data Event : Type 0 where
  attempts : ℕ → Attempt → Bytes → String → Event
  gives_up : Event
  reads : Option Error → Bool → List (ℕ × Result Bytes) → Event
  beats : Option Error → Bool → Peer → Bytes → Option Error → Event
  closes : Event
  collects fires callbacks : ℕ → Event

abbrev pub finished : Option (ControlConn × Option (Result Message)) → Option ControlConn
finished none = none
finished (some (c, r)) = some c

abbrev pub continue : Option ControlConn → (ControlConn → Option ControlConn) → Option ControlConn
continue none f = none
continue (some c) f = f c

module _ (decode : Bytes → Result Message) (eof : Error) where
  unfoldable pub step : ℕ → Event → ControlConn → Option ControlConn
  unfolding attempt_write record_error read beat close collect fire callback
  step now (attempts n a bytes id) c = some (attempt_write n (record a { now = now }) bytes id c).0
  step now gives_up c = some (record c { metrics = record_error c.metrics })
  step now (reads ctx done_first objects) c = finished (read decode ctx done_first eof objects c)
  step now (beats ctx ready_first peer payload late) c =
      beat now ctx ready_first peer payload late c
  step now closes c = close now c
  step now (collects ch) c = some (collect ch c)
  step now (fires timer) c = some (record c { tracker = fire now timer c.tracker })
  step now (callbacks timer) c = with_tracker (callback now timer c.tracker) (λ m. m) c

  unfoldable run : List (ℕ × Event) → ControlConn → Option ControlConn
  unfolding step
  run [] c = some c
  run ((now, e) ∷ es) c = continue (step now e c) (run es)

  pub step-Sound : (now : ℕ) (e : Event) (c : ControlConn) → Inv c.tracker → Sound (step now e c)
  unfolding step
  step-Sound now (attempts n a bytes id) c v =
      (_, refl, attempt_write-Inv n (record a { now = now }) bytes id c v)
  step-Sound now gives_up c v = (_, refl, v)
  step-Sound now (reads ctx done_first objects) c v =
      let (c', m, r, v') = read-ReadSound decode eof ctx done_first objects c v in
      rw r (c', refl, v')
  step-Sound now (beats ctx ready_first peer payload late) c v =
      beat-Sound now ctx ready_first peer payload late c v
  step-Sound now closes c v = close-Sound now c v
  step-Sound now (collects ch) c v = (collect ch c, refl, subst Inv (sym (collect-tracker ch c)) v)
  step-Sound now (fires timer) c v = (_, refl, fire-Inv now timer c.tracker v)
  step-Sound now (callbacks timer) c v =
      with_tracker-Sound _ _ c (callback-Steps now timer c.tracker v)

  run-append :
      (es fs : List (ℕ × Event)) (c : ControlConn) → run (es ++ fs) c ≡ continue (run es c) (run fs)
  unfolding run
  run-append [] fs c = refl
  run-append ((now, e) ∷ es) fs c = elim (Option-cases (step now e c)) [
    | inl h ↦ simp h refl
    | inr (d, h) ↦ simp h (run-append es fs d)
  ]

  module _ (env : ℕ → Attempt) (bytes : Bytes) (id : String) where
    -- The first attempts of a `Write`, with nothing between them.
    abbrev tries : ℕ → List (ℕ × Event)
    tries zero = []
    tries (suc n) = tries n ++ ((env (suc n)).now, attempts (suc n) (env (suc n)) bytes id) ∷ []

    run-tries : (n : ℕ) (c : ControlConn) → run (tries n) c ≡ some (after env bytes id n c)
    unfolding run step after
    run-tries zero c = refl
    run-tries (suc n) c = rw (run-append (tries n) _ c, run-tries n c) refl

    run-finish :
        (n : ℕ) (c : ControlConn) (o : Outcome) (r : Option Error)
        → (es : List (ℕ × Event)) × (run es c ≡ some (finish o r (after env bytes id n c)).0)
    unfolding finish run step
    run-finish n c waits r = (tries n, run-tries n c)
    run-finish n c (returns x) none = (tries n, run-tries n c)
    run-finish n c (returns x) (some e) =
        (tries n ++ (0, gives_up) ∷ [], rw (run-append (tries n) _ c, run-tries n c) refl)

  -- A `Write` with nothing between its steps is such a sequence of attempts, with `gives_up` at its end
  -- if it failed.
  run-write :
      {F : Type 0} (same : Error → Error → Bool) (config : RetryConfig F)
      (encode : Message → Result Bytes) (closed_error : Error) (env : ℕ → Attempt)
      (before wait : ℕ → Option Error) (m : Message) (c : ControlConn)
      → (es : List (ℕ × Event)) × (run es c
          ≡ some (write same config encode closed_error env before wait m c).0)
  unfolding write
  run-write same config encode closed_error env before wait m c = elim (Bool-cases c.closed) [
    | inl h ↦ simp h ([], unfold run in refl)
    | inr h ↦ elim (Result-cases (encode m)) [
      | inl (e, k) ↦ simp (h, k) ([], unfold run in refl)
      | inr (bytes, k) ↦ simp (h, k) (run-finish env bytes (extract_message_id m) _ c _ _)
    ]
  ]
