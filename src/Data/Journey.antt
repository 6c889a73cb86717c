-- ===== src/Data/Journey.antt =====
-- pkg/moqttransport/data_track_handler.go on both sides of a track: the messages from the publisher's
-- BatchPublish to the subscriber's callback. The track hands its reader the payloads that were written,
-- in their order.
use mathlib.Core.List.{reverse}
use mcp_moqt_transport.Base.{
  ℕ, suc, ◌<◌, ◌≤◌, ◌≡◌, refl, ap, ◌∙◌, Bool, true, false, Option, none, some, List, [], ◌∷◌, ◌++◌,
  map, String, length, eq_iff, arith, ◌==◌,
}
use mcp_moqt_transport.Base.Map.{lookup, insert, nat_key, string_key, lookup-insert_self}
use mcp_moqt_transport.Errors.{Error, Result, ok}
use mcp_moqt_transport.Tracks.{Peer, Bytes, returns, new_track_writer, new_slot, set}
use mcp_moqt_transport.Data.{
  Handler, Subscriber, accepted, handle_subscribe, register, close_existing, close_at,
  cancel_existing, close_reader, accepted_slot, same_namespace, subscribe, handle_remote_track,
  receive_loop, mem, max_message_size,
}
use mcp_moqt_transport.Data.Delivery.{IsLive, receive_loop_in_order}
use mcp_moqt_transport.Data.Subscriptions.Carrying.{subscribe_open}
use mcp_moqt_transport.Data.Publishing.{batch_publish}
use mcp_moqt_transport.Data.Publishing.Batches.{
  Obliging, IsReady, ReadyAt, payloads, batch_publish-Delivers,
}

same_namespace_refl : (xs : List String) → same_namespace xs xs ≡ true
unfolding same_namespace
same_namespace_refl [] = refl
same_namespace_refl (x ∷ xs) = ground (arith, eq_iff x x, same_namespace_refl xs)

accepted-IsReady : (publisher : ℕ) → IsReady (new_track_writer (accepted_slot publisher))
unfolding new_track_writer accepted_slot set new_slot
accepted-IsReady publisher = record {
  is_open = refl;
  ready = refl;
  uncleared = refl;
  held = λ e. cc;
}

each_read :
    {M : Type 0} (enc : M → Bytes) (ms : List M)
    → map (λ b. ok b) (map enc ms) ≡ map (λ m. ok (enc m)) ms
each_read enc [] = refl
each_read enc (m ∷ ms) = ap (◌∷◌ (ok (enc m))) (each_read enc ms)

module _ {M : Type 0} where
  close_existing-closed :
      (track : String) (h : Handler M) → (close_existing track h).closed ≡ h.closed
  unfolding close_existing close_at
  close_existing-closed track h = ground arith

  pub handle_subscribe_own :
      (publisher : ℕ) (track : String) (h : Handler M)
      → h.closed ≡ false
      → handle_subscribe publisher none h.namespace track h ≡ (register publisher track h, accepted)
  unfolding handle_subscribe
  handle_subscribe_own publisher track h o =
      let len : (length h.namespace == length h.namespace) ≡ true = ground arith in
      simp (o, len, same_namespace_refl h.namespace) refl

  -- What a receiver needs for a new subscription.
  pub record IsFree (track : String) (h : Handler M) : Type 0 where
    pub is_open : h.closed ≡ false
    pub running : h.done ≡ false
    pub unsubscribed : lookup track h.subscribers ≡ none
    pub fresh : mem h.next h.cancelled ≡ false

  abbrev pub subscriber : (M → Option Error) → ℕ → Option ℕ → Subscriber M
  subscriber callback ctx reader = record { reader = reader; handler = callback; ctx = ctx }

  abbrev pub subscribed : String → (M → Option Error) → Handler M → Handler M
  subscribed track callback h = record h {
    subscribers = insert track (subscriber callback h.next none) h.subscribers;
    next = suc h.next;
  }

  cancel_existing_free :
      (track : String) (h : Handler M)
      → lookup track h.subscribers ≡ none
      → cancel_existing track h ≡ h
  unfolding cancel_existing
  cancel_existing_free track h n = rw (n, cancel_existing) refl

  pub subscribe_free :
      (track : String) (callback : M → Option Error) (h : Handler M)
      → IsFree track h
      → subscribe track callback h ≡ (subscribed track callback h, none)
  subscribe_free track callback h f =
      subscribe_open track h callback f.is_open
      ∙ ap
          (λ x. (
            record x {
              subscribers = insert track (subscriber callback h.next none) x.subscribers;
              next = suc h.next;
            },
            none,
          ))
          (cancel_existing_free track h f.unsubscribed)

  abbrev pub attached : String → (M → Option Error) → Handler M → Handler M
  attached track callback h = record (subscribed track callback h) {
    subscribers =
        insert track (subscriber callback h.next (some (suc h.next)))
          (subscribed track callback h).subscribers;
    next = suc (suc h.next);
  }

  pub handle_remote_track_subscribed :
      (track : String) (callback : M → Option Error) (h : Handler M)
      → IsFree track h
      → handle_remote_track track (subscribed track callback h)
        ≡ (attached track callback h, ok (suc h.next, h.next))
  unfolding handle_remote_track close_reader
  handle_remote_track_subscribed track callback h f =
      simp (f.is_open, lookup-insert_self track (subscriber callback h.next none) h.subscribers)
        refl

  attached-IsLive :
      (unmarshal : Bytes → Result M) (track : String) (callback : M → Option Error) (h : Handler M)
      → IsFree track h
      → ((m : M) → callback m ≡ none)
      → IsLive unmarshal track h.next (attached track callback h)
  attached-IsLive unmarshal track callback h f fine = record {
    is_open = f.is_open;
    running = f.running;
    sub = subscriber callback h.next (some (suc h.next));
    subscribed =
        lookup-insert_self track (subscriber callback h.next (some (suc h.next)))
          (subscribed track callback h).subscribers;
    its_ctx = refl;
    live = f.fresh;
    succeeds = fine;
  }

  -- What is written reaches the other side's callback.
  module _ (marshal : M → Result Bytes) (unmarshal : Bytes → Result M) (enc : M → Bytes)
      (total : (m : M) → marshal m ≡ ok (enc m)) (decode : (m : M) → unmarshal (enc m) ≡ ok m)
      (small : (m : M) → length (enc m) ≤ max_message_size) (ready_first : Bool) (peer : Peer)
      (obliging : Obliging peer) where
    register-ReadyAt :
        (publisher : ℕ) (track : String) (h : Handler M)
        → ReadyAt marshal enc total ready_first peer obliging 0 h.next (register publisher track h)
    unfolding register
    register-ReadyAt publisher track h =
        let w = new_track_writer (accepted_slot publisher) in
        (
          w,
          lookup-insert_self h.next w (close_existing track h).writers,
          accepted-IsReady publisher,
        )

    sent_in_order :
        (publisher fuel size : ℕ) (track : String) (ms : List M) (h : Handler M)
        → h.closed ≡ false
        → length ms < fuel
        → 0 < size
        → let (h', actions, r) =
            batch_publish marshal none ready_first peer fuel 0 size track ms
              (register publisher track h) in
          (payloads actions ≡ map enc ms) × (r ≡ some (returns none))
    unfolding register
    sent_in_order publisher fuel size track ms h o f s =
        let (log, r, v) =
          batch_publish-Delivers marshal enc total ready_first peer obliging 0 h.next fuel size
            track ms (register publisher track h) f s (close_existing-closed track h ∙ o)
            (lookup-insert_self track h.next (close_existing track h).publishers)
            (register-ReadyAt publisher track h) in
        (log, r)

    -- A publisher's handler that is open and a receiver's that is open and has no subscription of the
    -- track; messages that serialize, fit and parse back, a peer that answers every request, a
    -- positive batch size and a callback that does not fail. Once the peer has subscribed and the
    -- receiver has subscribed and attached the track, `BatchPublish` returns nil, and the receive loop
    -- over the payloads that it wrote hands every message to the callback exactly once, in order, and
    -- goes on reading.
    pub receive_loop-batch_publish :
        (publisher fuel size : ℕ) (track : String) (callback : M → Option Error) (ms : List M)
        (sender receiver : Handler M)
        → sender.closed ≡ false
        → IsFree track receiver
        → ((m : M) → callback m ≡ none)
        → length ms < fuel
        → 0 < size
        → let (s, answer) = handle_subscribe publisher none sender.namespace track sender in
          let (s', actions, outcome) =
            batch_publish marshal none ready_first peer fuel 0 size track ms s in
          let (r, problem) = subscribe track callback receiver in
          let (r', joined) = handle_remote_track track r in
          let (r'', returned) =
            receive_loop unmarshal receiver.next track
              (suc receiver.next)
              (map ok (payloads actions))
              r' in
          (answer ≡ accepted)
          × (outcome ≡ some (returns none))
          × (problem ≡ none)
          × (joined ≡ ok (suc receiver.next, receiver.next))
          × (r''.delivered ≡ reverse ms ++ receiver.delivered)
          × (returned ≡ false)
    receive_loop-batch_publish publisher fuel size track callback ms sender receiver o free fine f
          s =
        let answered = handle_subscribe_own publisher track sender o in
        let (log, done) = sent_in_order publisher fuel size track ms sender o f s in
        let opened = subscribe_free track callback receiver free in
        let joined = handle_remote_track_subscribed track callback receiver free in
        let (got, goes_on) =
          receive_loop_in_order unmarshal enc track receiver.next (suc receiver.next) ms
            (attached track callback receiver) decode small
            (attached-IsLive unmarshal track callback receiver free fine) in
        let read = ap (map ok) log ∙ each_read enc ms in
        rw (answered, opened, joined, read) (refl, done, refl, refl, got, goes_on)
