-- ===== src/Tracks/Buffers/Memory.antt =====
-- pkg/moqttransport/track_base.go: what a slice holds, and what `append` does to the arrays.
use native.Mathlib.Nat.{zero-add}
use mcp_moqt_transport.Base.{
  ℕ, zero, suc, ◌+◌, ◌<◌, ◌≡◌, ◌≢◌, ◌⊎◌, refl, ◌∙◌, inl, inr, List, [], ◌∷◌, if◌then◌else◌, ◌==◌,
  leb, length, arith, All, Bool-cases,
}
use mcp_moqt_transport.Tracks.{Bytes}
use mcp_moqt_transport.Tracks.Buffers.{
  Slice, DataBuffer, set_byte, write_at, copy, append, contents,
}

abbrev pub IsIntact : (ℕ → ℕ → ℕ) → Slice × Bytes → Type 0
IsIntact m x = contents x.0.array 0 x.0.len m ≡ x.1

pub contents-ext :
    (a i n : ℕ) (m m' : ℕ → ℕ → ℕ)
    → ((j : ℕ) → m' a j ≡ m a j)
    → contents a i n m' ≡ contents a i n m
unfolding contents
contents-ext a i zero m m' e = refl
contents-ext a i (suc n) m m' e = rw (e i, contents-ext a (suc i) n m m' e) refl

pub write_at_other :
    (a i : ℕ) (p : Bytes) (m : ℕ → ℕ → ℕ) (b j : ℕ) → b ≢ a → write_at a i p m b j ≡ m b j
unfolding write_at
write_at_other a i [] m b j n = refl
write_at_other a i (x ∷ xs) m b j n =
    ground (arith, write_at_other a (suc i) xs (set_byte a i x m) b j n)

pub write_at_below :
    (a i : ℕ) (p : Bytes) (m : ℕ → ℕ → ℕ) (j : ℕ) → j < i → write_at a i p m a j ≡ m a j
unfolding write_at
write_at_below a i [] m j h = refl
write_at_below a i (x ∷ xs) m j h =
    ground (arith, write_at_below a (suc i) xs (set_byte a i x m) j (omega arith))

pub contents-write_at :
    (a i : ℕ) (p : Bytes) (m : ℕ → ℕ → ℕ) → contents a i (length p) (write_at a i p m) ≡ p
unfolding contents write_at
contents-write_at a i [] m = refl
contents-write_at a i (x ∷ xs) m =
    let here : write_at a (suc i) xs (set_byte a i x m) a i ≡ x =
      ground (arith, write_at_below a (suc i) xs (set_byte a i x m) i (omega arith)) in
    rw (here, contents-write_at a (suc i) xs (set_byte a i x m)) refl

pub contents-write_at_start :
    (a : ℕ) (p : Bytes) (m : ℕ → ℕ → ℕ) → contents a 0 (0 + length p) (write_at a 0 p m) ≡ p
contents-write_at_start a p m = rw zero-add (contents-write_at a 0 p m)

-- How many of the slices are in an array.
abbrev pub held_in : ℕ → List (Slice × Bytes) → ℕ
held_in a [] = 0
held_in a (x ∷ xs) = (if x.0.array == a then 1 else 0) + held_in a xs

-- Slices outside an array keep their bytes when only that array changes.
pub All-IsIntact :
    (a : ℕ) (m m' : ℕ → ℕ → ℕ) (held : List (Slice × Bytes))
    → ((b j : ℕ) → b ≢ a → m' b j ≡ m b j)
    → held_in a held ≡ 0
    → All (IsIntact m) held
    → All (IsIntact m') held
All-IsIntact a m m' [] e h v = tt
All-IsIntact a m m' (x ∷ xs) e h v =
    let apart : x.0.array ≢ a = λ q. ground (arith, h) in
    (
      contents-ext x.0.array 0 x.0.len m m' (λ j. e x.0.array j apart) ∙ v.0,
      All-IsIntact a m m' xs e (ground (arith, h)) v.1,
    )

-- What `append` to an empty slice makes: the payload, in the slice's array or in a new one.
abbrev pub Appended : Slice → Bytes → DataBuffer → Slice × DataBuffer → Type 0
Appended s payload h (s', h') =
    (contents s'.array 0 s'.len h'.bytes ≡ payload)
    × (h'.header ≡ h.header)
    × (h'.pooled ≡ h.pooled)
    × ((b j : ℕ) → b ≢ s'.array → h'.bytes b j ≡ h.bytes b j)
    × (((s'.array ≡ s.array) × (h'.next ≡ h.next)) ⊎ ((s'.array ≡ h.next) × (h'.next ≡ suc h.next)))

pub append-Appended :
    (room : ℕ) (s : Slice) (payload : Bytes) (h : DataBuffer)
    → s.len ≡ 0
    → Appended s payload h (append room s payload h)
unfolding append
append-Appended room s payload h z = elim (Bool-cases (leb (0 + length payload) s.cap)) [
  | inl f ↦
      simp (f, z)
        (
          contents-write_at_start s.array payload h.bytes,
          refl,
          refl,
          (λ b j n. write_at_other s.array 0 payload h.bytes b j n),
          inl (refl, refl),
        )
  | inr f ↦
      simp (f, z)
        (
          contents-write_at_start h.next payload (copy s.array 0 h.next h.bytes),
          refl,
          refl,
          (λ b j n.
              write_at_other h.next 0 payload (copy s.array 0 h.next h.bytes) b j n ∙ ground arith),
          inr (refl, refl),
        )
]
