-- ===== src/SessionIds.antt =====
-- pkg/moqttransport/session_id.go. `random` is what `rand.Read` gives, `now` the clock's nanoseconds
-- and `encode` is `hex.EncodeToString`, with texts of any type; the counter is the package's, a uint64.
use mcp_moqt_transport.Base.{
  ℕ, ◌/◌, ◌%◌, ◌+◌, ◌<◌, ◌≤◌, All, length, drop, ◌≡◌, ◌≢◌, ap, List, [], ◌∷◌, ◌++◌, arith,
}
use mcp_moqt_transport.Base.Word.{inc_64, two_64}
use mcp_moqt_transport.Errors.{Error, Result, ok, err}

-- `byte(x >> 56)` to `byte(x)`.
abbrev pub bytes_of : ℕ → List ℕ
bytes_of x =
    x / 72057594037927936 % 256
    ∷ x / 281474976710656 % 256
    ∷ x / 1099511627776 % 256
    ∷ x / 4294967296 % 256
    ∷ x / 16777216 % 256
    ∷ x / 65536 % 256
    ∷ x / 256 % 256
    ∷ x % 256
    ∷ []

-- The counter after the call, and the id.
unfoldable pub generate_session_id : {I : Type 0} → (List ℕ → I) → Result (List ℕ) → ℕ → ℕ → ℕ × I
generate_session_id encode (ok random) now counter = (counter, encode random)
generate_session_id encode (err e) now counter =
    let counter' = inc_64 counter in (counter', encode (bytes_of now ++ bytes_of counter'))

same_number :
    (x y : ℕ)
    → x < two_64
    → y < two_64
    → x / 72057594037927936 % 256 ≡ y / 72057594037927936 % 256
    → x / 281474976710656 % 256 ≡ y / 281474976710656 % 256
    → x / 1099511627776 % 256 ≡ y / 1099511627776 % 256
    → x / 4294967296 % 256 ≡ y / 4294967296 % 256
    → x / 16777216 % 256 ≡ y / 16777216 % 256
    → x / 65536 % 256 ≡ y / 65536 % 256
    → x / 256 % 256 ≡ y / 256 % 256
    → x % 256 ≡ y % 256
    → x ≡ y
same_number x y l m a b c d e f g h = omega (arith, l, m, a, b, c, d, e, f, g, h)

-- The ids of several calls in a row.
unfoldable pub generate_all : {I : Type 0} → (List ℕ → I) → List (Result (List ℕ) × ℕ) → ℕ → List I
unfolding generate_session_id
generate_all encode [] counter = []
generate_all encode ((random, now) ∷ calls) counter =
    let (counter', id) = generate_session_id encode random now counter in
    id ∷ generate_all encode calls counter'

abbrev pub AllDiffer : {I : Type 0} → List I → Type 0
AllDiffer [] = Unit
AllDiffer (id ∷ ids) = All (λ j. j ≢ id) ids × AllDiffer ids

-- Calls that find no random bytes.
abbrev pub starved : Error → List ℕ → List (Result (List ℕ) × ℕ)
starved e [] = []
starved e (now ∷ nows) = (err e, now) ∷ starved e nows

same_counter :
    (a b k l : ℕ)
    → k < two_64
    → l < two_64
    → bytes_of a ++ bytes_of k ≡ bytes_of b ++ bytes_of l
    → k ≡ l
same_counter a b k l m n e =
    let f : bytes_of k ≡ bytes_of l = ap (drop 8) e in
    same_number k l m n (cc) (cc) (cc) (cc) (cc) (cc) (cc) (cc)

module _ {I : Type 0} (encode : List ℕ → I)
    (injective : (xs ys : List ℕ) → encode xs ≡ encode ys → xs ≡ ys) (e : Error) where
  later_differ :
      (nows : List ℕ) (counter a k : ℕ)
      → k ≤ counter
      → counter + length nows < two_64
      → All
          (λ j. j ≢ encode (bytes_of a ++ bytes_of k))
          (generate_all encode (starved e nows) counter)
  unfolding generate_all generate_session_id
  later_differ [] counter a k l m = tt
  later_differ (now ∷ nows) counter a k l m =
      let next : inc_64 counter ≡ counter + 1 = omega (arith, m) in
      (
        λ q.
            let same =
              same_counter now a (inc_64 counter) k (omega (arith, m)) (omega (arith, l, m)) (
                injective (bytes_of now ++ bytes_of (inc_64 counter)) (bytes_of a ++ bytes_of k)
                  q) in
            absurd (omega (arith, same, next, l)),
        later_differ nows (inc_64 counter) a k (omega (arith, next, l)) (omega (arith, next, m)),
      )

  -- Without random bytes, fewer calls than 2^64 give ids that all differ, whatever the clock says and
  -- however often it says the same, since the counter differs.
  pub generate_all-AllDiffer :
      (nows : List ℕ) (counter : ℕ)
      → counter + length nows < two_64
      → AllDiffer (generate_all encode (starved e nows) counter)
  unfolding generate_all generate_session_id
  generate_all-AllDiffer [] counter m = tt
  generate_all-AllDiffer (now ∷ nows) counter m =
      let next : inc_64 counter ≡ counter + 1 = omega (arith, m) in
      (
        later_differ nows (inc_64 counter) now (inc_64 counter) (omega arith)
            (omega (arith, next, m)),
        generate_all-AllDiffer nows (inc_64 counter) (omega (arith, next, m)),
      )
