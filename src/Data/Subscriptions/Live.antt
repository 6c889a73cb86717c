-- ===== src/Data/Subscriptions/Live.antt =====
-- pkg/moqttransport/data_track_handler.go: the live contexts of a handler, after any events.
use mathlib.Core.Path.{subst}
use mcp_moqt_transport.Base.{
  Bool, if◌then◌else◌, ℕ, ◌≡◌, refl, sym, true, false, Option, none, List, [], ◌∷◌, String, arith,
  inl, inr, ◌⊎◌, All, Bool-cases,
}
use mcp_moqt_transport.Base.Map.{lookup, string_key, lookup-insert_self}
use mcp_moqt_transport.Errors.{Error, Result}
use mcp_moqt_transport.Tracks.{Bytes}
use mcp_moqt_transport.Metrics.{Metrics}
use mcp_moqt_transport.Data.{
  DataTrackType, Handler, Subscriber, new_handler, handle_subscribe, subscribe, unsubscribe,
  handle_data, cancel, handle_remote_track, close, mem, cancel_existing,
}
use mcp_moqt_transport.Data.Streaming.{stream_messages, end_subscription}
use mcp_moqt_transport.Data.Subscriptions.{
  subscribe_late, late_subscribes, Event, peers, subscribes, streams, ends, unsubscribes, attaches,
  arrives, expires, closes, Issued, issue, failure, Current, Accounted, step, run,
}
use mcp_moqt_transport.Data.Subscriptions.Carrying.{
  Emptied, Carries, accounted, cancel-Carries, renewed, renewed-Carries, renewed-Moves,
  subscribe_open, subscribe_shut, stream_messages_open, stream_messages_shut,
}
use mcp_moqt_transport.Data.Subscriptions.Ending.{
  unsubscribe-Carries, end_subscription-Carries, attach-Carries, handle_subscribe-Carries,
  handle_data-Carries, close-Carries,
}

module _ {M : Type 0} where
  -- Every context given out is accounted for, and, without late subscriptions, a closed handler has
  -- no subscription.
  abbrev Kept : Bool → Handler M × Issued → Type 0
  Kept late (h, given) = All (Accounted h) given × (late ≡ false → Emptied h)

  kept :
      (late : Bool) (h h' : Handler M) (given : Issued)
      → Carries h h'
      → Kept late (h, given)
      → Kept late (h', given)
  kept late h h' given v (a, f) = (accounted h h' given v.moves a, λ z. v.emptied (f z))

  abbrev pub is_late : Event M → Bool
  is_late (late_subscribes track callback) = true
  is_late _ = false

  abbrev pub any_late : List (Event M) → Bool
  any_late [] = false
  any_late (e ∷ es) = if is_late e then true else any_late es

  module _ (late : Bool) where
    -- A new subscription's context is current.
    renewed_issued :
        (track : String) (h : Handler M) (callback : M → Option Error) (given : Issued)
        → (late ≡ false → h.closed ≡ false)
        → Kept late (h, given)
        → Kept late (
          renewed track h (record { reader = none; handler = callback; ctx = h.next }),
          (h.next, track) ∷ given,
        )
    renewed_issued track h callback given o (a, f) =
        let sub : Subscriber M = record { reader = none; handler = callback; ctx = h.next } in
        (
          (
            inr (sub, lookup-insert_self track sub (cancel_existing track h).subscribers, refl),
            accounted h (renewed track h sub) given (renewed-Moves track h sub) a,
          ),
          λ z. (renewed-Carries track h sub (o z)).emptied (f z),
        )

    subscribe_issued :
        (track : String) (callback : M → Option Error) (h : Handler M) (given : Issued)
        → Kept late (h, given)
        → Kept late (issue track h (subscribe track callback h) given)
    subscribe_issued track callback h given k = elim (Bool-cases h.closed) [
      | inl c ↦
          subst (λ r. Kept late (issue track h r given)) (sym (subscribe_shut track h callback c)) k
      | inr o ↦
          subst (λ r. Kept late (issue track h r given)) (sym (subscribe_open track h callback o))
            (renewed_issued track h callback given (λ z. o) k)
    ]

    stream_messages_issued :
        (track : String) (send : M → Option Error) (h : Handler M) (given : Issued)
        → Kept late (h, given)
        → Kept late (issue track h (failure (stream_messages track send h)) given)
    stream_messages_issued track send h given k = elim (Bool-cases h.closed) [
      | inl c ↦
          subst (λ r. Kept late (issue track h (failure r) given))
            (sym (stream_messages_shut track h send c)) k
      | inr o ↦
          subst (λ r. Kept late (issue track h (failure r) given))
            (sym (stream_messages_open track h send o))
            (renewed_issued track h send given (λ z. o) k)
    ]

  -- The context is done, or it is the one of its track's subscription, in an open handler if there were
  -- no late subscriptions.
  abbrev pub Live : Bool → Handler M → ℕ × String → Type 0
  Live late h e = (mem e.0 h.cancelled ≡ true) ⊎ (Current h e × (late ≡ false → h.closed ≡ false))

  open_when :
      (h : Handler M) → Emptied h → (c : ℕ) (t : String) → Current h (c, t) → h.closed ≡ false
  unfolding lookup
  open_when h f c t (sub, l, e) = elim (Bool-cases h.closed) [
    | inl k ↦ ground (arith, f k, l)
    | inr o ↦ o
  ]

  live :
      (late : Bool) (h : Handler M) (given : Issued)
      → Kept late (h, given)
      → All (Live late h) given
  live late h [] (a, f) = tt
  live late h ((c, t) ∷ given) ((inl m, a), f) = (inl m, live late h given (a, f))
  live late h ((c, t) ∷ given) ((inr k, a), f) =
      (inr (k, λ z. open_when h (f z) c t k), live late h given (a, f))

  module _ (unmarshal : Bytes → Result M) where
    step-Kept :
        (late : Bool) (e : Event M) (h : Handler M) (given : Issued)
        → (is_late e ≡ true → late ≡ true)
        → Kept late (h, given)
        → Kept late (step unmarshal e h given)
    unfolding step subscribe_late
    step-Kept late (peers publisher accept namespace track) h given l k =
        kept late h (handle_subscribe publisher accept namespace track h).0 given
          (handle_subscribe-Carries publisher accept namespace track h) k
    step-Kept late (subscribes track callback) h given l k =
        subscribe_issued late track callback h given k
    step-Kept late (late_subscribes track callback) h given l k =
        renewed_issued late track h callback given (λ z. ground (arith, l refl, z)) k
    step-Kept late (streams track send) h given l k =
        stream_messages_issued late track send h given k
    step-Kept late (ends track c) h given l k = elim (Bool-cases (mem c h.cancelled)) [
      | inl m ↦
          simp m
            (kept late h (end_subscription track c h) given (end_subscription-Carries track h c) k)
      | inr m ↦ simp m k
    ]
    step-Kept late (unsubscribes track) h given l k =
        kept late h (unsubscribe track h) given (unsubscribe-Carries track h) k
    step-Kept late (attaches track) h given l k =
        kept late h (handle_remote_track track h).0 given (attach-Carries track h) k
    step-Kept late (arrives track bytes) h given l k =
        kept late h (handle_data unmarshal track bytes h).0 given
          (handle_data-Carries unmarshal track bytes h) k
    step-Kept late (expires c) h given l k = kept late h (cancel c h) given (cancel-Carries c h) k
    step-Kept late closes h given l k = kept late h (close h) given (close-Carries h) k

    run-Kept :
        (late : Bool) (es : List (Event M)) (h : Handler M) (given : Issued)
        → (any_late es ≡ true → late ≡ true)
        → Kept late (h, given)
        → Kept late (run unmarshal es h given)
    unfolding run
    run-Kept late [] h given l k = k
    run-Kept late (e ∷ es) h given l k =
        let (h', given') = step unmarshal e h given in
        run-Kept late es h' given' (λ z. l (ground (arith, z)))
          (step-Kept late e h given (λ z. l (ground (arith, z))) k)

    -- From a new handler, after any sequence of subscriptions (also of those that tested `closed`
    -- before a `Close` and go on after it), streams and their ends, arrivals and `Close`: every context
    -- that was given out is done or is that of its track's current subscription, so that a track never
    -- has two live ones. Without such late subscriptions a closed handler has no live one.
    pub run-Live :
        (es : List (Event M)) (session : String) (kind : DataTrackType) (metrics : Metrics)
        → let (h, given) = run unmarshal es (new_handler session kind metrics) [] in
          All (Live (any_late es) h) given
    run-Live es session kind metrics =
        let start = new_handler session kind metrics in
        let late = any_late es in
        let k = run-Kept late es start [] (λ z. z) (tt, λ z. (unfold new_handler in λ c. refl)) in
        let (h, given) = run unmarshal es start [] in live late h given k
