-- ===== src/Streams/Counters.antt =====
-- The stream manager's counters and ids against its map.
use mcp_moqt_transport.Base.{
  ℕ, suc, ◌+◌, ◌%◌, ◌≤◌, ◌<◌, ◌≡◌, refl, inl, inr, Bool, true, false, Option, none, List, [], ◌∷◌,
  length, arith, Option-cases, Bool-cases, count_if,
}
use mcp_moqt_transport.Base.Word.{two_64, two_63}
use mcp_moqt_transport.Base.Map.{
  lookup, insert, nat_key, IsUnique, insert-IsUnique, erase-IsUnique, length-erase, lookup-insert,
  lookup-erase, erase_absent,
}
use mcp_moqt_transport.Errors.{Error, Result, ok, err}
use mcp_moqt_transport.Streams.{
  Manager, Event, opens, open_syncs, open_unis, closes_one, closes_all, sends, receives, step, run,
  open_stream, open_uni_stream, open_locked, open_uni_locked, close_stream, close, get_stream,
  open_stream_sync, record_bytes_sent, record_bytes_received,
}

-- Every id in the map was handed out, and the counters are the number of open streams in the map
-- and of the `uni` unidirectional ones opened since the last `Close`.
pub record Inv (uni : ℕ) (m : Manager) : Type 0 where
  pub unique : IsUnique m.streams
  pub issued : (id : ℕ) → m.next_id < id → lookup id m.streams ≡ none
  pub total : m.stats.total_streams ≡ (length m.streams + uni) % two_64
  pub active : m.stats.active_streams ≡ (length m.streams + uni) % two_64

open_locked-Inv :
    (opened : Result ℕ) (uni : ℕ) (m : Manager)
    → m.next_id < two_63
    → Inv uni m
    → Inv uni (open_locked opened m).0
unfolding open_locked
open_locked-Inv (err e) uni m b v = v
open_locked-Inv (ok stream) uni m b v =
    let id = (m.next_id + 1) % two_64 in
    let absent = v.issued id (omega arith) in
    let same = erase_absent id m.streams absent in
    record {
      unique = insert-IsUnique id stream m.streams v.unique;
      issued = λ j h. ground (arith, lookup-insert id j stream m.streams, v.issued j);
      total = unfold insert in ground (arith, v.total, same);
      active = unfold insert in ground (arith, v.active, same);
    }

open_uni_locked-Inv :
    (opened : Result ℕ) (uni : ℕ) (m : Manager)
    → m.next_id < two_63
    → Inv uni m
    → (uni' : ℕ) × Inv uni' (open_uni_locked opened m).0 × (uni' ≤ suc uni)
unfolding open_uni_locked
open_uni_locked-Inv (err e) uni m b v = (uni, v, omega arith)
open_uni_locked-Inv (ok stream) uni m b v = (
  suc uni,
  record {
    unique = v.unique;
    issued = λ j h. v.issued j (omega arith);
    total = omega (arith, v.total);
    active = omega (arith, v.active);
  },
  omega arith,
)

close_stream-Inv :
    (id : ℕ) (r : Option Error) (uni : ℕ) (m : Manager)
    → Inv uni m
    → Inv uni (close_stream id r m).0
unfolding close_stream
close_stream-Inv id r uni m v = elim (Option-cases (lookup id m.streams)) [
  | inl e ↦ rw (e, close_stream) v
  | inr (s, e) ↦
      let fewer = length-erase id m.streams v.unique in
      rw (e, close_stream)
        (record {
          unique = erase-IsUnique id m.streams v.unique;
          issued = λ j h. ground (arith, lookup-erase id j m.streams, v.issued j);
          total = ground (arith, v.total, fewer);
          active = ground (arith, v.active, fewer);
        })
]

-- How many opens of unidirectional streams a history asks for.
abbrev pub is_open_uni : Event → Bool
is_open_uni (open_unis r) = true
is_open_uni _ = false

abbrev pub Counted : ℕ → Manager → Manager → Type 0
Counted uni m m' = (uni' : ℕ) × Inv uni' m' × (uni' ≤ uni) × (m'.next_id ≤ m.next_id + 1)

open_locked_next :
    (r : Result ℕ) (m : Manager) → m.next_id < two_63 → (open_locked r m).0.next_id ≤ m.next_id + 1
unfolding open_locked
open_locked_next (err e) m b = omega arith
open_locked_next (ok stream) m b = omega arith

open_uni_locked_next :
    (r : Result ℕ) (m : Manager)
    → m.next_id < two_63
    → (open_uni_locked r m).0.next_id ≤ m.next_id + 1
unfolding open_uni_locked
open_uni_locked_next (err e) m b = omega arith
open_uni_locked_next (ok stream) m b = omega arith

close_stream_next :
    (id : ℕ) (r : Option Error) (m : Manager) → (close_stream id r m).0.next_id ≤ m.next_id + 1
unfolding close_stream
close_stream_next id r m = ground arith

opened-Counted :
    (r : Result ℕ) (uni : ℕ) (m : Manager)
    → m.next_id < two_63
    → Inv uni m
    → Counted (uni + 0) m (open_stream r m).0
unfolding open_stream
opened-Counted r uni m b v = elim (Bool-cases m.closed) [
  | inl e ↦ (uni, simp e v, omega arith, simp e (omega arith))
  | inr e ↦
      (uni, simp e (open_locked-Inv r uni m b v), omega arith, simp e (open_locked_next r m b))
]

opened_uni-Counted :
    (r : Result ℕ) (uni : ℕ) (m : Manager)
    → m.next_id < two_63
    → Inv uni m
    → Counted (uni + 1) m (open_uni_stream r m).0
unfolding open_uni_stream
opened_uni-Counted r uni m b v = elim (Bool-cases m.closed) [
  | inl e ↦ (uni, simp e v, omega arith, simp e (omega arith))
  | inr e ↦
      let (uni', v', le) = open_uni_locked-Inv r uni m b v in
      (uni', simp e v', omega (arith, le), simp e (open_uni_locked_next r m b))
]

step-Inv :
    (e : Event) (uni : ℕ) (m : Manager)
    → m.next_id < two_63
    → Inv uni m
    → Counted (uni + count_if is_open_uni (e ∷ [])) m (step e m)
unfolding step open_stream open_stream_sync open_uni_stream close record_bytes_sent
    record_bytes_received
step-Inv (opens r) uni m b v = opened-Counted r uni m b v
step-Inv (open_syncs r) uni m b v = opened-Counted r uni m b v
step-Inv (open_unis r) uni m b v = opened_uni-Counted r uni m b v
step-Inv (closes_one id r) uni m b v =
    (uni, close_stream-Inv id r uni m v, omega arith, close_stream_next id r m)
step-Inv closes_all uni m b v = elim (Bool-cases m.closed) [
  | inl e ↦ (uni, simp e v, omega arith, simp e (omega arith))
  | inr e ↦ (
    0,
    simp e (record {
      unique = tt;
      issued = λ id h. unfold lookup in refl;
      total = refl;
      active = refl;
    }),
    omega arith,
    simp e (omega arith),
  )
]
step-Inv (sends n) uni m b v = (
  uni,
  record { unique = v.unique; issued = v.issued; total = v.total; active = v.active },
  omega arith,
  omega arith,
)
step-Inv (receives n) uni m b v = (
  uni,
  record { unique = v.unique; issued = v.issued; total = v.total; active = v.active },
  omega arith,
  omega arith,
)

-- From a coherent state, over any history that hands out ids below 2 ^ 63 only, `TotalStreams`
-- and `ActiveStreams` are, modulo 2 ^ 64, the number of streams in the map and of unidirectional
-- streams, at most those counted before and opened since (so exactly the number in the map where
-- there are none), and no id is in the map before it is handed out.
pub run-Inv :
    (es : List Event) (uni : ℕ) (m : Manager)
    → m.next_id + length es < two_63
    → Inv uni m
    → (uni' : ℕ) × Inv uni' (run es m) × (uni' ≤ uni + count_if is_open_uni es)
unfolding run
run-Inv [] uni m b v = (uni, v, omega arith)
run-Inv (e ∷ es) uni m b v =
    let (u1, v1, b1, n1) = step-Inv e uni m (omega arith) v in
    let (u2, v2, b2) = run-Inv es u1 (step e m) (omega arith) v1 in (u2, v2, ground arith)

-- In an open, coherent manager whose ids are below 2 ^ 63, a unidirectional stream is beyond the
-- manager's reach: the id that its open returns is no key of the map, so `GetStream` does not
-- find it, and `CloseStream` closes nothing and leaves it counted.
open_uni_stream_lost :
    (stream : ℕ) (r : Option Error) (uni : ℕ) (m : Manager)
    → m.closed ≡ false
    → m.next_id < two_63
    → Inv uni m
    → let m' = (open_uni_stream (ok stream) m).0 in
      let id = m.next_id + 1 in
      ((open_uni_stream (ok stream) m).1 ≡ ok (stream, id))
      × (get_stream id m' ≡ none)
      × (close_stream id r m' ≡ (m', none))
unfolding open_uni_stream get_stream close_stream
open_uni_stream_lost stream r uni m o b v = ground (arith, v.issued (m.next_id + 1) (omega arith))
