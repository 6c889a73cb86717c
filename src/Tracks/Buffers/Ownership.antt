-- ===== src/Tracks/Buffers/Ownership.antt =====
-- pkg/moqttransport/track_base.go: what callers read and return, and who owns the buffers.
use mcp_moqt_transport.Base.{
  ℕ, suc, ◌≤◌, ◌≡◌, refl, Bool, inl, inr, Option, none, some, List, [], ◌∷◌, arith, All,
  Option-cases,
}
use mcp_moqt_transport.Errors.{Error, Result, ok, err}
use mcp_moqt_transport.Tracks.Reading
use mcp_moqt_transport.Tracks.Reading.{TrackReader}
use mcp_moqt_transport.Tracks.{Bytes}
use mcp_moqt_transport.Tracks.Buffers.{
  Slice, DataBuffer, new_data_buffer, set_header, get, put, append, read_payload, copied, read,
  return_buffer, give_back,
}
use mcp_moqt_transport.Tracks.Buffers.Memory.{
  held_in, IsIntact, All-IsIntact, Appended, append-Appended,
}
use mcp_moqt_transport.Tracks.Buffers.Pooling.{
  pluck_held, pooled_in, pooled_in-set_header, Spare-set_header, fresh_variable, other_variable,
  pluck_held_lem, Taken, IsOwned, get-Taken,
}

-- The memory, and the slices that callers hold, each with the payload that it was read for.
pub record World : Type 0 where
  pub memory : DataBuffer
  pub held : List (Slice × Bytes)

pub data Event : Type 0 where
  reads : Option ℕ → ℕ → Bytes → Event
  returns : ℕ → Event

-- A caller returns a slice that it holds, and holds it no longer.
unfoldable pub step : Event → World → World
unfolding read_payload give_back
step (reads pick room payload) w =
    let (s, h) = read_payload pick room payload w.memory in
    record { memory = h; held = (s, payload) ∷ w.held }
step (returns i) w = elim (pluck_held i w.held) [
  | none ↦ w
  | some (x, rest) ↦ record { memory = give_back x.0 w.memory; held = rest }
]

unfoldable pub run : List Event → World → World
unfolding step
run [] w = w
run (e ∷ es) w = run es (step e w)

-- The slice that `Read` stores and returns holds the payload, and everyone's buffers stay his own.
stored-IsOwned :
    (b : ℕ) (h1 h2 : DataBuffer) (held : List (Slice × Bytes)) (s : Slice) (payload : Bytes)
    → Taken b h1 held
    → Appended (h1.header b) payload h1 (s, h2)
    → IsOwned (record h2 { header = set_header b s h2.header }) ((s, payload) ∷ held)
stored-IsOwned b h1 h2 held s payload t (whole, header, pooled, other, place) =
    let mine : pooled_in (h1.header b).array h1.header h1.pooled ≡ 0 =
      ground (arith, t.once (h1.header b).array) in
    let apart = other_variable h1.header b h1.pooled mine in
    let kept = λ (a : ℕ). pooled_in-set_header a b s h1.header h1.pooled apart in
    let nobody : held_in s.array held ≡ 0 = elim place [
      | inl (e, n) ↦ rw e (ground (arith, t.once (h1.header b).array))
      | inr (e, n) ↦ rw e (omega (arith, t.made h1.next (omega arith)))
    ] in
    let grown : h1.next ≤ h2.next = elim place [
      | inl (e, n) ↦ omega (arith, n)
      | inr (e, n) ↦ omega (arith, n)
    ] in
    (
      record {
        once = λ a.
            rw (header, pooled, kept a)
              (elim place [
                | inl (e, n) ↦ rw e (omega (arith, t.once a))
                | inr (e, n) ↦ rw e (ground (arith, t.once a, t.made h1.next (omega arith)))
              ]);
        made = λ a lt.
            rw (header, pooled, kept a)
              (elim place [
                | inl (e, n) ↦ rw e (omega (arith, t.made a (omega (arith, n, lt))))
                | inr (e, n) ↦ rw e (ground (arith, t.made a (omega (arith, n, lt)), n, lt))
              ]);
        spare =
            rw (header, pooled)
              (Spare-set_header h1.next h2.next b s h1.header h1.pooled grown apart t.spare);
      },
      (whole, All-IsIntact s.array h1.bytes h2.bytes held other nobody t.intact),
    )

read_payload-IsOwned :
    (pick : Option ℕ) (room : ℕ) (payload : Bytes) (h : DataBuffer) (held : List (Slice × Bytes))
    → IsOwned h held
    → let r = read_payload pick room payload h in IsOwned r.1 ((r.0, payload) ∷ held)
unfolding read_payload
read_payload-IsOwned pick room payload h held o =
    let (b, h1) = get pick h in
    let t : Taken b h1 held = get-Taken pick h held o in
    let (s, h2) = append room (h1.header b) payload h1 in
    stored-IsOwned b h1 h2 held s payload t (append-Appended room (h1.header b) payload h1 t.empty)

-- What `Read` returns against the payload or the error that the reader's guards let through.
abbrev Matches : Result Bytes → Result Slice × DataBuffer → Type 0
Matches (err e) (err x, h) = e ≡ x
Matches (err e) (ok s, h) = ⊥
Matches (ok payload) (err x, h) = ⊥
Matches (ok payload) (ok s, h) = IsIntact h.bytes (s, payload)

copied-Matches :
    (pick : Option ℕ) (room : ℕ) (r : Result Bytes) (h : DataBuffer) (held : List (Slice × Bytes))
    → IsOwned h held
    → Matches r (copied pick room r h)
copied-Matches pick room (err e) h held o = refl
copied-Matches pick room (ok payload) h held o =
    (read_payload-IsOwned pick room payload h held o).1.0

-- `Read` returns the errors that the guards return, and a slice that holds the object's payload where
-- they let it through.
read-Matches :
    (ctx : Option Error) (done_first : Bool) (object : Result Bytes) (pick : Option ℕ) (room : ℕ)
    (r : TrackReader) (h : DataBuffer) (held : List (Slice × Bytes))
    → IsOwned h held
    → Matches (Reading.read ctx done_first object r) (read ctx done_first object pick room r h)
unfolding read
read-Matches ctx done_first object pick room r h held o =
    copied-Matches pick room (Reading.read ctx done_first object r) h held o

give_back-IsOwned :
    (i : ℕ) (x : Slice × Bytes) (h : DataBuffer) (held rest : List (Slice × Bytes))
    → pluck_held i held ≡ some (x, rest)
    → IsOwned h held
    → IsOwned (give_back x.0 h) rest
unfolding give_back return_buffer put
give_back-IsOwned i x h held rest e (o, v) =
    let (count, others) = pluck_held_lem h.bytes i x held rest e v in
    let fresh = fresh_variable h.header h.next h.next h.pooled (omega arith) o.spare in
    let s : Slice = record x.0 { len = 0 } in
    let header = set_header h.next x.0 h.header in
    let kept = λ (a : ℕ). pooled_in-set_header a h.next x.0 h.header h.pooled fresh in
    let kept' = λ (a : ℕ).
      pooled_in-set_header a h.next (record (header h.next) { len = 0 }) header h.pooled fresh in
    let spare =
      Spare-set_header h.next (suc h.next) h.next x.0 h.header h.pooled (omega arith) fresh
        o.spare in
    (
      record {
        once = λ a. ground (arith, kept a, kept' a, count a, o.once a);
        made = λ a lt. ground (arith, kept a, kept' a, count a, o.made a (omega arith));
        spare = (
          (omega arith, ground arith),
          Spare-set_header (suc h.next) (suc h.next) h.next _ header h.pooled (omega arith) fresh
              spare,
        );
      },
      others,
    )

step-IsOwned :
    (e : Event) (w : World) → IsOwned w.memory w.held → IsOwned (step e w).memory (step e w).held
unfolding step
step-IsOwned (reads pick room payload) w o =
    read_payload-IsOwned pick room payload w.memory w.held o
step-IsOwned (returns i) w o = elim (Option-cases (pluck_held i w.held)) [
  | inl e ↦ rw (e, step) o
  | inr ((x, rest), e) ↦ rw (e, step) (give_back-IsOwned i x w.memory w.held rest e o)
]

run-IsOwned :
    (es : List Event) (w : World)
    → IsOwned w.memory w.held
    → IsOwned (run es w).memory (run es w).held
unfolding run
run-IsOwned [] w o = o
run-IsOwned (e ∷ es) w o = run-IsOwned es (step e w) (step-IsOwned e w o)

-- Whatever is read and returned, in any order, whatever buffers the pool hands out and wherever
-- `append` allocates, as long as a caller returns a slice only once: every slice that was read and
-- not returned still holds the payload that it was read for, in an array of its own.
pub run-IsIntact :
    (es : List Event)
    → let w = run es (record { memory = new_data_buffer; held = [] }) in
      All (IsIntact w.memory.bytes) w.held × ((a : ℕ) → held_in a w.held ≤ 1)
run-IsIntact es =
    let start : IsOwned new_data_buffer [] =
      unfold new_data_buffer in
      (record { once = λ a. omega arith; made = λ a lt. omega arith; spare = tt }, tt) in
    let (o, v) = run-IsOwned es (record { memory = new_data_buffer; held = [] }) start in
    (v, λ a. omega (arith, o.once a))
