-- ===== src/Data/Streaming/Order.antt =====
-- What a caller of `StreamMessages` receives.
use mathlib.Core.List.{reverse, reverse-cons, append_assoc}
use mcp_moqt_transport.Base.{
  ◌≤◌, ◌<◌, ◌⊎◌, ◌&&◌, ◌≡◌, refl, ap, sym, ◌∙◌, Bool, false, Option, none, some, List, [], ◌∷◌,
  ◌++◌, length, length-append, ltb, arith, inl, inr, Bool-cases,
}
use mcp_moqt_transport.Metrics.{Metrics}
use mcp_moqt_transport.Data.{canceled}
use mcp_moqt_transport.Data.Streaming.{
  Stream, Sent, sent, waits, panics, stopped, capacity, new_stream, push, receive_from, offer,
  take_one, cancel_stream, close_channels,
}

-- A message for the callback with the choice of its `select`, a receive of the caller, the context's
-- end, and the goroutine's.
pub data Event (M : Type 0) : Type 0 where
  offers : Bool → M → Event M
  takes cancels closes : Event M

module _ {M : Type 0} where
  -- The messages that were sent, oldest first; none after a panic.
  abbrev pub noted : M → List M → Stream M × Sent → Option (Stream M × List M)
  noted m log (s, sent) = some (s, log ++ m ∷ [])
  noted m log (s, waits) = some (s, log)
  noted m log (s, stopped e) = some (s, log)
  noted m log (s, panics) = none

  unfoldable pub step : Event M → Stream M → List M → Option (Stream M × List M)
  unfolding offer take_one cancel_stream close_channels
  step (offers done_first m) s log = noted m log (offer done_first m s)
  step takes s log = some (take_one s, log)
  step cancels s log = some (cancel_stream s, log)
  step closes s log = some (close_channels s, log)

  abbrev pub continue :
      Option (Stream M × List M)
      → (Stream M → List M → Option (Stream M × List M))
      → Option (Stream M × List M)
  continue none f = none
  continue (some (s, log)) f = f s log

  unfoldable pub run : List (Event M) → Stream M → List M → Option (Stream M × List M)
  unfolding step
  run [] s log = some (s, log)
  run (e ∷ es) s log = continue (step e s log) (run es)

  -- Nothing is offered any more.
  abbrev pub NoOffers : List (Event M) → Type 0
  NoOffers [] = Unit
  NoOffers (offers done_first m ∷ es) = ⊥
  NoOffers (e ∷ es) = NoOffers es

  -- The callback runs only before the goroutine closes the channels.
  abbrev pub Timely : List (Event M) → Type 0
  Timely [] = Unit
  Timely (closes ∷ es) = NoOffers es
  Timely (e ∷ es) = Timely es

  -- What was taken, and what is queued, is what was sent.
  record Ordered (s : Stream M) (log : List M) : Type 0 where
    all : reverse s.taken ++ s.queue ≡ log
    fits : length s.queue ≤ capacity

  -- While the channel is open, the callback gives up, sends, or waits.
  offer-cases :
      (done_first : Bool) (m : M) (s : Stream M)
      → s.closed ≡ false
      → (offer done_first m s ≡ (s, stopped canceled))
        ⊎ ((offer done_first m s ≡ (push m s, sent)) × (length s.queue < capacity))
        ⊎ (offer done_first m s ≡ (s, waits))
  unfolding offer
  offer-cases done_first m s o = elim (Bool-cases (s.cancelled && done_first)) [
    | inl c ↦ inl (simp c refl)
    | inr c ↦ elim (Bool-cases (ltb (length s.queue) capacity)) [
      | inl l ↦ inr (inl (simp (c, o, l) refl, ground arith))
      | inr l ↦ elim (Bool-cases s.cancelled) [
        | inl d ↦ inl (ground (arith, c, o, l, d))
        | inr d ↦ inr (inr (ground (arith, c, o, l, d)))
      ]
    ]
  ]

  push-Ordered :
      (m : M) (s : Stream M) (log : List M)
      → length s.queue < capacity
      → Ordered s log
      → Ordered (push m s) (log ++ m ∷ [])
  push-Ordered m s log l v = record {
    all = sym (append_assoc (reverse s.taken) s.queue (m ∷ [])) ∙ ap (λ r. r ++ m ∷ []) v.all;
    fits = omega (arith, length-append s.queue (m ∷ []), l);
  }

  abbrev Goes : Option (Stream M × List M) → Type 0
  Goes r =
      (s : Stream M) × (log : List M) × (r ≡ some (s, log)) × Ordered s log × (s.closed ≡ false)

  offer-Goes :
      (done_first : Bool) (m : M) (s : Stream M) (log : List M)
      → s.closed ≡ false
      → Ordered s log
      → Goes (noted m log (offer done_first m s))
  offer-Goes done_first m s log o v = elim (offer-cases done_first m s o) [
    | inl e ↦ rw e (s, log, refl, v, o)
    | inr (inl (e, l)) ↦ rw e (push m s, log ++ m ∷ [], refl, push-Ordered m s log l v, o)
    | inr (inr e) ↦ rw e (s, log, refl, v, o)
  ]

  receive_from-Ordered :
      (q : List M) (s : Stream M) (log : List M)
      → s.queue ≡ q
      → Ordered s log
      → Ordered (receive_from q s) log
  receive_from-Ordered [] s log e v = v
  receive_from-Ordered (m ∷ rest) s log e v = record {
    all = rw (reverse-cons m s.taken) (
        append_assoc (reverse s.taken) (m ∷ []) rest
        ∙ ap (λ q. reverse s.taken ++ q) (sym e)
        ∙ v.all);
    fits = ground (arith, v.fits, e);
  }

  receive_from-closed : (q : List M) (s : Stream M) → (receive_from q s).closed ≡ s.closed
  receive_from-closed [] s = refl
  receive_from-closed (m ∷ rest) s = refl

  take_one-Ordered : (s : Stream M) (log : List M) → Ordered s log → Ordered (take_one s) log
  unfolding take_one
  take_one-Ordered s log v = receive_from-Ordered s.queue s log refl v

  cancel_stream-Ordered :
      (s : Stream M) (log : List M) → Ordered s log → Ordered (cancel_stream s) log
  unfolding cancel_stream
  cancel_stream-Ordered s log v = record { all = v.all; fits = v.fits }

  close_channels-Ordered :
      (s : Stream M) (log : List M) → Ordered s log → Ordered (close_channels s) log
  unfolding close_channels
  close_channels-Ordered s log v = elim (Bool-cases s.cancelled) [
    | inl c ↦ simp c (record { all = v.all; fits = v.fits })
    | inr c ↦ simp c v
  ]

  abbrev InOrder : List (Event M) → Stream M → List M → Type 0
  InOrder es s log =
      (s' : Stream M) × (log' : List M) × (run es s log ≡ some (s', log')) × Ordered s' log'

  drained :
      (es : List (Event M)) (s : Stream M) (log : List M)
      → NoOffers es
      → Ordered s log
      → InOrder es s log
  unfolding run step
  drained [] s log n v = (s, log, refl, v)
  drained (offers done_first m ∷ es) s log n v = absurd n
  drained (takes ∷ es) s log n v = drained es (take_one s) log n (take_one-Ordered s log v)
  drained (cancels ∷ es) s log n v =
      drained es (cancel_stream s) log n (cancel_stream-Ordered s log v)
  drained (closes ∷ es) s log n v =
      drained es (close_channels s) log n (close_channels-Ordered s log v)

  run-InOrder :
      (es : List (Event M)) (s : Stream M) (log : List M)
      → Timely es
      → s.closed ≡ false
      → Ordered s log
      → InOrder es s log
  unfolding run step
  run-InOrder [] s log t o v = (s, log, refl, v)
  run-InOrder (offers done_first m ∷ es) s log t o v =
      let (s', log', e, v', o') = offer-Goes done_first m s log o v in
      let (s'', log'', r, w) = run-InOrder es s' log' t o' v' in
      (s'', log'', ap (λ q. continue q (run es)) e ∙ r, w)
  run-InOrder (takes ∷ es) s log t o v =
      run-InOrder es (take_one s) log t (unfold take_one in receive_from-closed s.queue s ∙ o)
        (take_one-Ordered s log v)
  run-InOrder (cancels ∷ es) s log t o v =
      run-InOrder es (cancel_stream s) log t (unfold cancel_stream in o)
        (cancel_stream-Ordered s log v)
  run-InOrder (closes ∷ es) s log t o v =
      drained es (close_channels s) log t (close_channels-Ordered s log v)

  -- Whatever is offered to a new stream, whenever its caller receives and its context ends, as long as
  -- the callback does not run after the channels were closed, nothing panics; what the caller has
  -- received and what still waits in the channel are together the messages that were sent, each once
  -- and in order, and at most ten wait.
  pub run-new_stream :
      (es : List (Event M)) (metrics : Metrics)
      → Timely es
      → (s : Stream M) × (log : List M) × (run es (new_stream metrics) [] ≡ some (s, log))
        × (reverse s.taken ++ s.queue ≡ log)
        × (length s.queue ≤ capacity)
  unfolding new_stream
  run-new_stream es metrics t =
      let (s, log, r, v) =
        run-InOrder es (new_stream metrics) [] t refl (record { all = refl; fits = omega arith }) in
      (s, log, r, v.all, v.fits)

  continue-append :
      (r : Option (Stream M × List M)) (es fs : List (Event M))
      → ((s : Stream M) (log : List M) → run (es ++ fs) s log ≡ continue (run es s log) (run fs))
      → continue r (run (es ++ fs)) ≡ continue (continue r (run es)) (run fs)
  continue-append none es fs later = refl
  continue-append (some (s, log)) es fs later = later s log

  run-append :
      (es fs : List (Event M)) (s : Stream M) (log : List M)
      → run (es ++ fs) s log ≡ continue (run es s log) (run fs)
  unfolding run
  run-append [] fs s log = refl
  run-append (e ∷ es) fs s log = continue-append (step e s log) es fs (run-append es fs)

  offer_panics :
      (m : M) (s : Stream M) → (offer false m (close_channels (cancel_stream s))).1 ≡ panics
  unfolding offer close_channels cancel_stream
  offer_panics m s = ground arith

  noted_panic : (m : M) (log : List M) (r : Stream M × Sent) → r.1 ≡ panics → noted m log r ≡ none
  noted_panic m log (s, panics) e = refl
  noted_panic m log (s, sent) e = cc
  noted_panic m log (s, waits) e = cc
  noted_panic m log (s, stopped x) e = cc

  -- Whatever happened to a stream before, one message for which `HandleData` has passed its test of the
  -- context ends the program: if the context is done then, the goroutine closes the channels first,
  -- and the callback's `select` takes the send, which is as ready as the end of the context, it sends
  -- on a closed channel.
  run_late_panics :
      (es : List (Event M)) (metrics : Metrics) (m : M)
      → Timely es
      → run (es ++ cancels ∷ closes ∷ offers false m ∷ []) (new_stream metrics) [] ≡ none
  run_late_panics es metrics m t =
      let (s, log, r, all, fits) = run-new_stream es metrics t in
      run-append es (cancels ∷ closes ∷ offers false m ∷ []) (new_stream metrics) []
      ∙ rw r (
          unfold run step in
          ap (λ q. continue q (run []))
            (noted_panic m log (offer false m (close_channels (cancel_stream s)))
              (offer_panics m s)))
