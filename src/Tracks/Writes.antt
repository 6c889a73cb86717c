-- ===== src/Tracks/Writes.antt =====
-- What a track writer asks of its publisher.
use mathlib.Core.Path.{fun_ext, subst}
use mcp_moqt_transport.Base.{
  ℕ, suc, ◌≡◌, refl, sym, ap, ◌⊎◌, inl, inr, Bool, true, false, Option, none, some, List, [], ◌∷◌,
  ◌++◌, arith, Bool-cases, Option-cases, if◌then◌else◌,
}
use mcp_moqt_transport.Base.Word.{inc_64}
use mcp_moqt_transport.Errors.{Error, sentinel, connection_closed}
use mcp_moqt_transport.Tracks.{
  TrackWriter, Peer, Bytes, Action, opened, wrote, closed_group, Outcome, returns, write_objects,
  stream_to, write_to, with_publisher, write, write_stream, close_writer, get, Got, blocked, failed,
  got,
}

write_to-stream_to :
    (peer : Peer) (publisher : ℕ) (bytes : Bytes) (w : TrackWriter)
    → write_to peer publisher bytes w ≡ stream_to peer publisher (bytes ∷ []) w
unfolding write_to stream_to
write_to-stream_to peer publisher bytes w = ground arith

-- `Write` of one message is `WriteStream` of that one object: the same requests, the same result
-- and the same next group, on every branch.
write-write_stream :
    (ctx : Option Error) (ready_first : Bool) (peer : Peer) (bytes : Bytes) (w : TrackWriter)
    → write ctx ready_first peer bytes w ≡ write_stream ctx ready_first peer (bytes ∷ []) w
unfolding write write_stream
write-write_stream ctx ready_first peer bytes w =
    ap
      (λ f.
        if w.closed
        then (w, [], returns (some (sentinel connection_closed)))
        else with_publisher (get ctx ready_first w.slot) w f)
      (fun_ext (λ publisher. write_to-stream_to peer publisher bytes w))

-- The requests for the objects from `i` on, when none fails.
abbrev pub written : ℕ → ℕ → List Bytes → List Action
written group i [] = closed_group group ∷ []
written group i (object ∷ rest) = wrote group i object ∷ written group (suc i) rest

-- The loop writes a prefix of the objects, in order, under successive indices, and closes the
-- subgroup at the end; nil is returned only after all of them.
write_objects_prefix :
    (peer : Peer) (group i : ℕ) (objects : List Bytes)
    → (done : List Bytes) × (rest : List Bytes) × (objects ≡ done ++ rest)
      × ((write_objects peer group i objects).0 ≡ written group i done)
      × ((write_objects peer group i objects).1 ≡ none → rest ≡ [])
unfolding write_objects
write_objects_prefix peer group i [] = ([], [], refl, refl, λ _. refl)
write_objects_prefix peer group i (object ∷ objects) =
    let (done, rest, split, log, all) = write_objects_prefix peer group (suc i) objects in
    elim (Option-cases (peer.write_object group i object)) [
      | inl e ↦ (
        object ∷ done,
        rest,
        ap (◌∷◌ object) split,
        rw (e, write_objects) (ap (◌∷◌ (wrote group i object)) log),
        rw (e, write_objects) all,
      )
      | inr (x, e) ↦
          (object ∷ [], objects, refl, rw (e, write_objects), rw (e, write_objects) (λ n. cc))
    ]

-- The subgroups that a call opens and closes, in order.
abbrev pub opens : List Action → List ℕ
opens [] = []
opens (opened group ∷ l) = group ∷ opens l
opens (wrote group i bytes ∷ l) = opens l
opens (closed_group group ∷ l) = opens l

abbrev pub closings : List Action → List ℕ
closings [] = []
closings (opened group ∷ l) = closings l
closings (wrote group i bytes ∷ l) = closings l
closings (closed_group group ∷ l) = group ∷ closings l

write_objects_closes :
    (peer : Peer) (group i : ℕ) (objects : List Bytes)
    → let log = (write_objects peer group i objects).0 in
      (opens log ≡ []) × (closings log ≡ group ∷ [])
unfolding write_objects
write_objects_closes peer group i [] = (refl, refl)
write_objects_closes peer group i (object ∷ objects) =
    let ih = write_objects_closes peer group (suc i) objects in
    elim (Option-cases (peer.write_object group i object)) [
      | inl e ↦ rw (e, write_objects) ih
      | inr (x, e) ↦ rw (e, write_objects) (refl, refl)
    ]

abbrev pub nobody : Got → Bool
nobody blocked = true
nobody (failed e) = true
nobody (got none) = true
nobody (got (some publisher)) = false

-- A call that got its publisher: it advances the next group, also when the open fails, and asks for a
-- subgroup of the old one only. An open that succeeds is followed by one `Close`.
abbrev pub Asked : Peer → ℕ → TrackWriter → TrackWriter × List Action × Outcome → Type 0
Asked peer publisher w (w', log, r) =
    (w' ≡ record w { next_group = inc_64 w.next_group })
    × (((e : Error) × (peer.open_subgroup publisher w.next_group ≡ some e)
          × (log ≡ [])
          × (r ≡ returns (some e)))
        ⊎ ((peer.open_subgroup publisher w.next_group ≡ none)
            × (opens log ≡ w.next_group ∷ [])
            × (closings log ≡ w.next_group ∷ [])))

-- A call of `WriteStream` that gets a publisher from an open writer, and one that does not.
abbrev pub Balanced :
    Option Error → Bool → Peer → TrackWriter → TrackWriter × List Action × Outcome → Type 0
Balanced ctx ready_first peer w r =
    ((publisher : ℕ) × (w.closed ≡ false)
      × (get ctx ready_first w.slot ≡ got (some publisher))
      × Asked peer publisher w r)
    ⊎ (((w.closed ≡ true) ⊎ (nobody (get ctx ready_first w.slot) ≡ true)) × (r.0 ≡ w) × (r.1 ≡ []))

stream_to-Asked :
    (peer : Peer) (publisher : ℕ) (objects : List Bytes) (w : TrackWriter)
    → Asked peer publisher w (stream_to peer publisher objects w)
unfolding stream_to
stream_to-Asked peer publisher objects w =
    let closing = write_objects_closes peer w.next_group 0 objects in
    elim (Option-cases (peer.open_subgroup publisher w.next_group)) [
      | inl e ↦ rw (e, stream_to) (refl, inr (refl, ap (◌∷◌ w.next_group) closing.0, closing.1))
      | inr (x, e) ↦ rw (e, stream_to) (refl, inl (x, refl, refl, refl))
    ]

with_publisher-Balanced :
    (ctx : Option Error) (ready_first : Bool) (g : Got) (peer : Peer) (objects : List Bytes)
    (w : TrackWriter)
    → w.closed ≡ false
    → get ctx ready_first w.slot ≡ g
    → Balanced ctx ready_first peer w
        (with_publisher g w (λ publisher. stream_to peer publisher objects w))
with_publisher-Balanced ctx ready_first blocked peer objects w o h =
    inr (inr (rw h refl), refl, refl)
with_publisher-Balanced ctx ready_first (failed e) peer objects w o h =
    inr (inr (rw h refl), refl, refl)
with_publisher-Balanced ctx ready_first (got none) peer objects w o h =
    inr (inr (rw h refl), refl, refl)
with_publisher-Balanced ctx ready_first (got (some publisher)) peer objects w o h =
    inl (publisher, o, h, stream_to-Asked peer publisher objects w)

-- A call of `WriteStream` on an open writer that gets a publisher advances the next group by one, also
-- when the open or a write fails, so that the group that it asked for is not asked for again until the
-- 64-bit counter wraps. It asks for one subgroup, the one of the old next group, and if that is opened
-- closes it exactly once. Any other call changes nothing and asks for nothing.
pub write_stream-Balanced :
    (ctx : Option Error) (ready_first : Bool) (peer : Peer) (objects : List Bytes) (w : TrackWriter)
    → Balanced ctx ready_first peer w (write_stream ctx ready_first peer objects w)
unfolding write_stream
write_stream-Balanced ctx ready_first peer objects w = elim (Bool-cases w.closed) [
  | inl e ↦ simp e (inr (inl refl, refl, refl))
  | inr e ↦
      let whole =
        with_publisher-Balanced ctx ready_first (get ctx ready_first w.slot) peer objects w e
          refl in
      let same : write_stream ctx ready_first peer objects w
          ≡ with_publisher (get ctx ready_first w.slot) w
              (λ publisher. stream_to peer publisher objects w) =
        simp e refl in
      subst (Balanced ctx ready_first peer w) (sym same) whole
]

-- After `Close` a writer asks nothing of its publisher, and `Write` and `WriteStream` report the
-- closed connection; the closed state stays.
pub close_writer-write_stream :
    (ctx : Option Error) (ready_first : Bool) (peer : Peer) (objects : List Bytes) (w : TrackWriter)
    → (write_stream ctx ready_first peer objects (close_writer w)
        ≡ (close_writer w, [], returns (some (sentinel connection_closed))))
      × ((close_writer w).slot.publisher ≡ none)
      × (close_writer (close_writer w) ≡ close_writer w)
unfolding write_stream close_writer
close_writer-write_stream ctx ready_first peer objects w = (refl, refl, refl)
