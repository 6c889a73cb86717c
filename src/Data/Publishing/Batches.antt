-- ===== src/Data/Publishing/Batches.antt =====
-- `BatchPublish` sends every message once, in order, and ends if the batch size is positive.
use mathlib.Core.Path.{ap₂}
use mathlib.Core.List.{map-append}
use mcp_moqt_transport.Base.{
  ℕ, zero, suc, ◌<◌, ◌≡◌, ◌≢◌, refl, ap, sym, ◌∙◌, inl, inr, Bool, true, false, Option, none, some,
  List, [], ◌∷◌, ◌++◌, map, String, length, take, drop, take-append-drop, length-drop, arith,
  Option-cases,
}
use mcp_moqt_transport.Base.Map.{lookup, nat_key, string_key, lookup-insert_self}
use mcp_moqt_transport.Errors.{Result, ok}
use mcp_moqt_transport.Tracks.{
  TrackWriter, Peer, Bytes, Action, opened, wrote, closed_group, Outcome, returns, write_stream,
  write_objects, stream_to,
}
use mcp_moqt_transport.Data.{Handler}
use mcp_moqt_transport.Data.Publishing.{marshal_all, publish_batch, batch_loop, batch_publish}

-- A peer and its subgroups that answer every request without an error.
abbrev pub Obliging : Peer → Type 0
Obliging peer =
    ((p g : ℕ) → peer.open_subgroup p g ≡ none)
    × ((g i : ℕ) (b : Bytes) → peer.write_object g i b ≡ none)
    × ((g : ℕ) → peer.close_subgroup g ≡ none)

-- The writer is open and its slot holds a publisher.
pub record IsReady (w : TrackWriter) : Type 0 where
  pub is_open : w.closed ≡ false
  pub ready : w.slot.ready ≡ true
  pub uncleared : w.slot.cleared ≡ false
  pub held : w.slot.publisher ≢ none

-- The payloads that were written, in order.
abbrev pub payloads : List Action → List Bytes
payloads [] = []
payloads (opened g ∷ l) = payloads l
payloads (wrote g i bytes ∷ l) = bytes ∷ payloads l
payloads (closed_group g ∷ l) = payloads l

payloads-append : (l m : List Action) → payloads (l ++ m) ≡ payloads l ++ payloads m
payloads-append [] m = refl
payloads-append (opened g ∷ l) m = payloads-append l m
payloads-append (wrote g i bytes ∷ l) m = ap (◌∷◌ bytes) (payloads-append l m)
payloads-append (closed_group g ∷ l) m = payloads-append l m

write_objects_obliging :
    (peer : Peer) (g i : ℕ) (objects : List Bytes)
    → Obliging peer
    → let (actions, r) = write_objects peer g i objects in (payloads actions ≡ objects) × (r ≡ none)
unfolding write_objects
write_objects_obliging peer g i [] o = (refl, o.2 g)
write_objects_obliging peer g i (b ∷ bs) o =
    let ih = write_objects_obliging peer g (suc i) bs o in
    rw (o.1 g i b, write_objects) (ap (◌∷◌ b) ih.0, ih.1)

abbrev Sends : List Bytes → TrackWriter × List Action × Outcome → Type 0
Sends objects r = (payloads r.1 ≡ objects) × (r.2 ≡ returns none) × IsReady r.0

stream_to_obliging :
    (peer : Peer) (p : ℕ) (objects : List Bytes) (w : TrackWriter)
    → Obliging peer
    → IsReady w
    → Sends objects (stream_to peer p objects w)
unfolding stream_to
stream_to_obliging peer p objects w o v =
    let log = write_objects_obliging peer w.next_group 0 objects o in
    rw (o.0 p w.next_group, stream_to)
      (
        log.0,
        ap returns log.1,
        record { is_open = v.is_open; ready = v.ready; uncleared = v.uncleared; held = v.held },
      )

write_stream_obliging :
    (ready_first : Bool) (peer : Peer) (objects : List Bytes) (w : TrackWriter)
    → Obliging peer
    → IsReady w
    → Sends objects (write_stream none ready_first peer objects w)
unfolding write_stream
write_stream_obliging ready_first peer objects w o v = elim (Option-cases w.slot.publisher) [
  | inl n ↦ absurd (v.held n)
  | inr (p, e) ↦ simp (v.is_open, v.ready, v.uncleared, e) (stream_to_obliging peer p objects w o v)
]

-- Every message serializes, to its encoding.
module _ {M : Type 0} (marshal : M → Result Bytes) (enc : M → Bytes)
    (total : (m : M) → marshal m ≡ ok (enc m)) where
  marshal_all_total : (ms : List M) → marshal_all marshal ms ≡ (map enc ms, [])
  unfolding marshal_all
  marshal_all_total [] = refl
  marshal_all_total (m ∷ ms) = ground (arith, total m, marshal_all_total ms)

  module _ (ready_first : Bool) (peer : Peer) (o : Obliging peer) (arrival at : ℕ) where
    -- The handler's writer at the address is ready.
    abbrev pub ReadyAt : Handler M → Type 0
    ReadyAt h = (w : TrackWriter) × (lookup at h.writers ≡ some w) × IsReady w

    publish_batch_obliging :
        (batch : List M) (h : Handler M)
        → ReadyAt h
        → let (h', actions, r) = publish_batch marshal none ready_first peer arrival at batch h in
          (payloads actions ≡ map enc batch) × (r ≡ returns none) × ReadyAt h'
    unfolding publish_batch
    publish_batch_obliging batch h (w, found, v) =
        let sent = write_stream_obliging ready_first peer (map enc batch) w o v in
        let w' = (write_stream none ready_first peer (map enc batch) w).0 in
        let all = marshal_all_total batch in
        (
          ground (arith, all, found, sent.0, sent.1),
          ground (arith, all, found, sent.1),
          (w', ground (arith, all, found, sent.1, lookup-insert_self at w' h.writers), sent.2),
        )

    -- The loop returns nil, and has written every message once, in order.
    abbrev pub Delivers : List M → Handler M × List Action × Option Outcome → Type 0
    Delivers ms r = (payloads r.1 ≡ map enc ms) × (r.2 ≡ some (returns none)) × ReadyAt r.0

    batch_loop_obliging :
        (fuel size : ℕ) (ms : List M) (h : Handler M)
        → length ms < fuel
        → 0 < size
        → ReadyAt h
        → Delivers ms (batch_loop marshal none ready_first peer fuel arrival size at ms h)
    unfolding batch_loop
    batch_loop_obliging zero size ms h f s v = absurd (omega arith)
    batch_loop_obliging (suc fuel) size [] h f s v = (refl, refl, v)
    batch_loop_obliging (suc fuel) size (m ∷ ms) h f s v =
        let batch = take size (m ∷ ms) in
        let rest = drop size (m ∷ ms) in
        let (sent, fine, v') = publish_batch_obliging batch h v in
        let h' = (publish_batch marshal none ready_first peer arrival at batch h).0 in
        let ih =
          batch_loop_obliging fuel size rest h' (omega (arith, length-drop size (m ∷ ms))) s v' in
        let joined =
          payloads-append (publish_batch marshal none ready_first peer arrival at batch h).1
            (batch_loop marshal none ready_first peer fuel arrival size at rest h').1
          ∙ ap₂ ◌++◌ sent ih.0
          ∙ sym (map-append enc batch rest)
          ∙ ap (map enc) (take-append-drop size (m ∷ ms)) in
        rw (fine, batch_loop) (joined, ih.1, ih.2)

    -- With a positive batch size, an open handler with a ready writer for the track, a peer
    -- that answers every request and messages that serialize, `BatchPublish` returns nil
    -- after at most one round for each message, and has written every message exactly once,
    -- in order.
    pub batch_publish-Delivers :
        (fuel size : ℕ) (track : String) (ms : List M) (h : Handler M)
        → length ms < fuel
        → 0 < size
        → h.closed ≡ false
        → lookup track h.publishers ≡ some at
        → ReadyAt h
        → Delivers ms (batch_publish marshal none ready_first peer fuel arrival size track ms h)
    unfolding batch_publish
    batch_publish-Delivers fuel size track ms h f s c t v =
        simp (c, t) (batch_loop_obliging fuel size ms h f s v)

    -- With batch size 0, a message to send, a ready writer and a peer that answers every request, the
    -- loop of `BatchPublish` never ends: however many rounds it is given, it is still running.
    batch_loop_zero :
        (fuel : ℕ) (m : M) (ms : List M) (h : Handler M)
        → ReadyAt h
        → (batch_loop marshal none ready_first peer fuel arrival 0 at (m ∷ ms) h).2 ≡ none
    unfolding batch_loop
    batch_loop_zero zero m ms h v = refl
    batch_loop_zero (suc fuel) m ms h v =
        let (sent, fine, v') = publish_batch_obliging [] h v in
        let h' = (publish_batch marshal none ready_first peer arrival at [] h).0 in
        rw (fine, batch_loop) (batch_loop_zero fuel m ms h' v')
