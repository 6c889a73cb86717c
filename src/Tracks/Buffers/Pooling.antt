-- ===== src/Tracks/Buffers/Pooling.antt =====
-- pkg/moqttransport/track_base.go: the owners of the arrays, pooled buffers and held slices.
use mcp_moqt_transport.Base.{
  ℕ, zero, suc, ◌+◌, ◌≤◌, ◌<◌, ◌≡◌, ◌≢◌, refl, sym, ap, inl, inr, Option, none, some, List, [], ◌∷◌,
  if◌then◌else◌, ◌==◌, arith, All, some_inj, Option-cases,
}
use mcp_moqt_transport.Tracks.{Bytes}
use mcp_moqt_transport.Tracks.Buffers.{Slice, DataBuffer, set_header, pluck, new_buffer, get}
use mcp_moqt_transport.Tracks.Buffers.Memory.{held_in, IsIntact, All-IsIntact}

abbrev pub pluck_held : ℕ → List (Slice × Bytes) → Option ((Slice × Bytes) × List (Slice × Bytes))
pluck_held i [] = none
pluck_held zero (x ∷ xs) = some (x, xs)
pluck_held (suc i) (x ∷ xs) = elim (pluck_held i xs) [
  | none ↦ none
  | some (y, rest) ↦ some (y, x ∷ rest)
]

-- How many pooled buffers are in an array.
abbrev pub pooled_in : ℕ → (ℕ → Slice) → List ℕ → ℕ
pooled_in a header [] = 0
pooled_in a header (b ∷ bs) = (if (header b).array == a then 1 else 0) + pooled_in a header bs

abbrev pub Spare : (ℕ → Slice) → ℕ → ℕ → Type 0
Spare header next b = (b < next) × ((header b).len ≡ 0)

-- Every array is one pooled buffer's or one held slice's or nobody's.
pub record Owned (header : ℕ → Slice) (pooled : List ℕ) (next : ℕ) (held : List (Slice × Bytes))
    : Type 0 where
  pub once : (a : ℕ) → pooled_in a header pooled + held_in a held ≤ 1
  pub made : (a : ℕ) → next ≤ a → pooled_in a header pooled + held_in a held ≡ 0
  pub spare : All (Spare header next) pooled

-- A variable that no pooled pointer points at may change.
pub pooled_in-set_header :
    (a b : ℕ) (s : Slice) (header : ℕ → Slice) (pooled : List ℕ)
    → All (λ c. c ≢ b) pooled
    → pooled_in a (set_header b s header) pooled ≡ pooled_in a header pooled
pooled_in-set_header a b s header [] n = refl
pooled_in-set_header a b s header (c ∷ cs) n =
    ground (arith, pooled_in-set_header a b s header cs n.1, n.0)

pub Spare-set_header :
    (next next' b : ℕ) (s : Slice) (header : ℕ → Slice) (pooled : List ℕ)
    → next ≤ next'
    → All (λ c. c ≢ b) pooled
    → All (Spare header next) pooled
    → All (Spare (set_header b s header) next') pooled
Spare-set_header next next' b s header [] h n v = tt
Spare-set_header next next' b s header (c ∷ cs) h n v = (
  (omega (arith, v.0.0), ground (arith, n.0, v.0.1)),
  Spare-set_header next next' b s header cs h n.1 v.1,
)

-- No pooled pointer points at a variable that is not made yet, or at one of an array of no buffer.
pub fresh_variable :
    (header : ℕ → Slice) (next b : ℕ) (pooled : List ℕ)
    → next ≤ b
    → All (Spare header next) pooled
    → All (λ c. c ≢ b) pooled
fresh_variable header next b [] h v = tt
fresh_variable header next b (c ∷ cs) h v =
    ((λ e. omega (arith, v.0.0)), fresh_variable header next b cs h v.1)

pub other_variable :
    (header : ℕ → Slice) (b : ℕ) (pooled : List ℕ)
    → pooled_in (header b).array header pooled ≡ 0
    → All (λ c. c ≢ b) pooled
other_variable header b [] h = tt
other_variable header b (c ∷ cs) h = (
  (λ e. ground (arith, h, ap (λ x. (header x).array) e)),
  other_variable header b cs (ground (arith, h)),
)

-- An item that is taken out of the pool was in it once more than in the rest.
pub pluck_lem :
    (header : ℕ → Slice) (next i b : ℕ) (l rest : List ℕ)
    → pluck i l ≡ some (b, rest)
    → All (Spare header next) l
    → ((a : ℕ)
        → pooled_in a header l ≡ (if (header b).array == a then 1 else 0) + pooled_in a header rest)
      × Spare header next b
      × All (Spare header next) rest
unfolding pluck
pluck_lem header next i b [] rest h v = ground arith
pluck_lem header next zero b (c ∷ cs) rest h v =
    let e : c ≡ b = ap (λ x. x.0) (some_inj h) in
    let f : cs ≡ rest = ap (λ x. x.1) (some_inj h) in rw (sym e, sym f) ((λ a. refl), v.0, v.1)
pluck_lem header next (suc i) b (c ∷ cs) rest h v = elim (Option-cases (pluck i cs)) [
  | inl e ↦ cc (rw e at h)
  | inr ((d, rest'), e) ↦
      let k = some_inj (rw e at h) in
      let p : d ≡ b = ap (λ x. x.0) k in
      let q : (c ∷ rest') ≡ rest = ap (λ x. x.1) k in
      let (count, mine, others) = pluck_lem header next i d cs rest' e v.1 in
      rw (sym p, sym q) ((λ a. omega (arith, count a)), mine, (v.0, others))
]

pub pluck_held_lem :
    (m : ℕ → ℕ → ℕ) (i : ℕ) (x : Slice × Bytes) (l rest : List (Slice × Bytes))
    → pluck_held i l ≡ some (x, rest)
    → All (IsIntact m) l
    → ((a : ℕ) → held_in a l ≡ (if x.0.array == a then 1 else 0) + held_in a rest)
      × All (IsIntact m) rest
pluck_held_lem m i x [] rest h v = ground arith
pluck_held_lem m zero x (y ∷ ys) rest h v =
    let e : y ≡ x = ap (λ z. z.0) (some_inj h) in
    let f : ys ≡ rest = ap (λ z. z.1) (some_inj h) in rw (sym e, sym f) ((λ a. refl), v.1)
pluck_held_lem m (suc i) x (y ∷ ys) rest h v = elim (Option-cases (pluck_held i ys)) [
  | inl e ↦ cc (rw e at h)
  | inr ((z, rest'), e) ↦
      let k = some_inj (rw e at h) in
      let p : z ≡ x = ap (λ u. u.0) k in
      let q : (y ∷ rest') ≡ rest = ap (λ u. u.1) k in
      let (count, others) = pluck_held_lem m i z ys rest' e v.1 in
      rw (sym p, sym q) ((λ a. omega (arith, count a)), (v.0, others))
]

-- The buffer that `Get` gave out is empty, and nobody else's.
pub record Taken (b : ℕ) (h : DataBuffer) (held : List (Slice × Bytes)) : Type 0 where
  pub empty : (h.header b).len ≡ 0
  pub once :
      (a : ℕ)
      → (if (h.header b).array == a then 1 else 0) + pooled_in a h.header h.pooled + held_in a held
        ≤ 1
  pub made :
      (a : ℕ)
      → h.next ≤ a
      → (if (h.header b).array == a then 1 else 0) + pooled_in a h.header h.pooled + held_in a held
        ≡ 0
  pub spare : All (Spare h.header h.next) h.pooled
  pub intact : All (IsIntact h.bytes) held

abbrev pub IsOwned : DataBuffer → List (Slice × Bytes) → Type 0
IsOwned h held = Owned h.header h.pooled h.next held × All (IsIntact h.bytes) held

pub new_buffer-Taken :
    (h : DataBuffer) (held : List (Slice × Bytes))
    → IsOwned h held
    → let r = new_buffer h in Taken r.0 r.1 held
unfolding new_buffer
new_buffer-Taken h held (o, v) =
    let fresh = fresh_variable h.header h.next (suc h.next) h.pooled (omega arith) o.spare in
    let s : Slice = record { array = h.next; len = 0; cap = 4096 } in
    let kept = λ (a : ℕ). pooled_in-set_header a (suc h.next) s h.header h.pooled fresh in
    record {
      empty = ground arith;
      once = λ a. ground (arith, kept a, o.once a, o.made a);
      made = λ a lt. ground (arith, kept a, o.made a);
      spare =
          Spare-set_header h.next (suc (suc h.next)) (suc h.next) s h.header h.pooled (omega arith)
            fresh o.spare;
      intact =
          All-IsIntact h.next h.bytes (λ a i. if a == h.next then 0 else h.bytes a i) held
            (λ b j n. ground arith) (omega (arith, o.made h.next (omega arith))) v;
    }

pub get-Taken :
    (pick : Option ℕ) (h : DataBuffer) (held : List (Slice × Bytes))
    → IsOwned h held
    → let r = get pick h in Taken r.0 r.1 held
unfolding get
get-Taken none h held o = new_buffer-Taken h held o
get-Taken (some i) h held o = elim (Option-cases (pluck i h.pooled)) [
  | inl e ↦ rw (e, get) (new_buffer-Taken h held o)
  | inr ((b, rest), e) ↦
      let (count, mine, others) = pluck_lem h.header h.next i b h.pooled rest e o.0.spare in
      rw (e, get)
        (record {
          empty = mine.1;
          once = λ a. omega (arith, count a, o.0.once a);
          made = λ a lt. omega (arith, count a, o.0.made a lt);
          spare = others;
          intact = o.1;
        })
]
