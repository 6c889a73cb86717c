-- ===== src/Tracks/Buffers.antt =====
-- pkg/moqttransport/track_base.go, the buffers behind the track readers. The memory is explicit:
-- arrays by address, the variables that a `*[]byte` points at, and the pool's pointers. What
-- sync.Pool hands out, one of its items or a new one, is an argument, and so is the room that `append`
-- leaves in an array that it allocates.
pub mod Memory
pub mod Pooling
pub mod Ownership
use mcp_moqt_transport.Base.{
  ℕ, zero, suc, ◌+◌, Bool, true, false, ◌&&◌, Option, none, some, List, [], ◌∷◌, if◌then◌else◌,
  ◌==◌, leb, ltb, length,
}
use mcp_moqt_transport.Errors.{Error, Result, ok, err}
use mcp_moqt_transport.Tracks.{Bytes}
use mcp_moqt_transport.Tracks.Reading
use mcp_moqt_transport.Tracks.Reading.{TrackReader}

-- A []byte that starts at its array's start.
pub record Slice : Type 0 where
  pub array : ℕ
  pub len : ℕ
  pub cap : ℕ

-- `bytes` is the contents of the arrays, `header` that of the variables, `pooled` the pointers in the
-- pool, and nothing is allocated from `next` on.
pub record DataBuffer : Type 0 where
  pub bytes : ℕ → ℕ → ℕ
  pub header : ℕ → Slice
  pub pooled : List ℕ
  pub next : ℕ

unfoldable pub new_data_buffer : DataBuffer
new_data_buffer = record {
  bytes = λ a i. 0;
  header = λ b. record { array = 0; len = 0; cap = 0 };
  pooled = [];
  next = 0;
}

abbrev pub set_header : ℕ → Slice → (ℕ → Slice) → ℕ → Slice
set_header b s header c = if c == b then s else header c

-- The pool's item at a position, and the others.
unfoldable pub pluck : ℕ → List ℕ → Option (ℕ × List ℕ)
pluck i [] = none
pluck zero (b ∷ bs) = some (b, bs)
pluck (suc i) (b ∷ bs) = elim (pluck i bs) [ none ↦ none | some (c, rest) ↦ some (c, b ∷ rest) ]

-- The pool's `New`: an array of 4096 bytes, and a variable that holds its empty slice.
unfoldable pub new_buffer : DataBuffer → ℕ × DataBuffer
new_buffer h = (
  suc h.next,
  record h {
    bytes = λ a i. if a == h.next then 0 else h.bytes a i;
    header = set_header (suc h.next) (record { array = h.next; len = 0; cap = 4096 }) h.header;
    next = suc (suc h.next);
  },
)

-- `Get`, where the pool hands out its item at a position, or a new one if it has none there.
unfoldable pub get : Option ℕ → DataBuffer → ℕ × DataBuffer
unfolding pluck new_buffer
get none h = new_buffer h
get (some i) h = elim (pluck i h.pooled) [
  | none ↦ new_buffer h
  | some (b, rest) ↦ (b, record h { pooled = rest })
]

unfoldable pub put : ℕ → DataBuffer → DataBuffer
put b h = record h {
  header = set_header b (record (h.header b) { len = 0 }) h.header;
  pooled = b ∷ h.pooled;
}

abbrev pub set_byte : ℕ → ℕ → ℕ → (ℕ → ℕ → ℕ) → ℕ → ℕ → ℕ
set_byte a i x m b j = if b == a && j == i then x else m b j

unfoldable pub write_at : ℕ → ℕ → Bytes → (ℕ → ℕ → ℕ) → ℕ → ℕ → ℕ
write_at a i [] m = m
write_at a i (x ∷ xs) m = write_at a (suc i) xs (set_byte a i x m)

-- An array at an address of its own that starts like another one.
abbrev pub copy : ℕ → ℕ → ℕ → (ℕ → ℕ → ℕ) → ℕ → ℕ → ℕ
copy a n a' m b j = if b == a' then (if ltb j n then m a j else 0) else m b j

-- `append`: in place where the capacity is enough, and else in a new array.
unfoldable pub append : ℕ → Slice → Bytes → DataBuffer → Slice × DataBuffer
unfolding write_at
append room s payload h =
    let n = s.len + length payload in
    if leb n s.cap
    then (record s { len = n }, record h { bytes = write_at s.array s.len payload h.bytes })
    else (
      record { array = h.next; len = n; cap = n + room },
      record h {
        bytes = write_at h.next s.len payload (copy s.array s.len h.next h.bytes);
        next = suc h.next;
      },
    )

-- What `Read` does with the payload of an object: the slice that it returns.
unfoldable pub read_payload : Option ℕ → ℕ → Bytes → DataBuffer → Slice × DataBuffer
unfolding get append
read_payload pick room payload h =
    let (b, h1) = get pick h in
    let (s, h2) = append room (h1.header b) payload h1 in
    (s, record h2 { header = set_header b s h2.header })

abbrev pub copied : Option ℕ → ℕ → Result Bytes → DataBuffer → Result Slice × DataBuffer
copied pick room (err e) h = (err e, h)
copied pick room (ok payload) h = let (s, h') = read_payload pick room payload h in (ok s, h')

-- `Read` with the buffers.
unfoldable pub read :
    Option Error
    → Bool
    → Result Bytes
    → Option ℕ
    → ℕ
    → TrackReader
    → DataBuffer
    → Result Slice × DataBuffer
unfolding read_payload Reading.read
read ctx done_first object pick room r h = copied pick room (Reading.read ctx done_first object r) h

unfoldable pub return_buffer : Option ℕ → DataBuffer → DataBuffer
unfolding put
return_buffer none h = h
return_buffer (some b) h = put b h

-- A caller that has a slice returns it: it takes the address of the variable that holds it.
unfoldable pub give_back : Slice → DataBuffer → DataBuffer
unfolding return_buffer
give_back s h =
    return_buffer (some h.next)
      (record h { header = set_header h.next s h.header; next = suc h.next })

-- What a slice holds.
unfoldable pub contents : ℕ → ℕ → ℕ → (ℕ → ℕ → ℕ) → Bytes
contents a i zero m = []
contents a i (suc n) m = m a i ∷ contents a (suc i) n m
