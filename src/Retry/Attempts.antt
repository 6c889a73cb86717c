-- ===== src/Retry/Attempts.antt =====
-- How often a retry calls its function, and what it returns.
use native.Mathlib.Nat.{add-zero, add-suc, suc-add, zero-add}
use mathlib.Core.Path.{subst}
use mcp_moqt_transport.Base.{
  ℕ, zero, suc, ◌+◌, ◌-◌, ◌<◌, ◌≤◌, ◌≡◌, ◌≢◌, refl, ap, ◌⊎◌, inl, inr, Bool, true, false, Option,
  none, some, List, [], ◌∷◌, leb, arith, Bool-cases, Option-cases,
}
use mcp_moqt_transport.Base.Word.{two_63, lt_64}
use mcp_moqt_transport.Errors.{Error}
use mcp_moqt_transport.Retry.{RetryConfig, is_retryable, do_loop, retry_do}

-- The attempts a, a + 1, ..., k of them.
abbrev pub attempts : ℕ → ℕ → List ℕ
attempts a zero = []
attempts a (suc k) = a ∷ attempts (suc a) k

module _ {F : Type 0} (same : Error → Error → Bool) (config : RetryConfig F)
    (fn before wait : ℕ → Option Error) where
  -- Nil comes from a last call that succeeded, unless there was no round at all.
  abbrev Succeeds : ℕ → ℕ → ℕ → Option Error → Type 0
  Succeeds left a k last =
      ((left ≡ 0) × (last ≡ none)) ⊎ ((n : ℕ) × (k ≡ suc n) × (fn (a + n) ≡ none))

  -- The calls are at successive attempts.
  abbrev Tried : ℕ → ℕ → Option Error → Type 0
  Tried left a last =
      (k : ℕ) × (k ≤ left)
      × ((do_loop same config fn before wait left a last).1 ≡ attempts a k)
      × ((do_loop same config fn before wait left a last).0 ≡ none → Succeeds left a k last)

  later :
      (left a : ℕ) (x : Error) (last : Option Error) (k : ℕ)
      → Succeeds left (suc a) k (some x)
      → Succeeds (suc left) a (suc k) last
  later left a x last k (inl h) = cc (h.1)
  later left a x last k (inr (n, e, h)) = inr (suc n, ap suc e, rw add-suc (rw suc-add at h))

  do_loop_attempts : (left a : ℕ) (last : Option Error) → Tried left a last
  unfolding do_loop
  do_loop_attempts zero a last = (0, omega arith, refl, λ e. inl (refl, e))
  do_loop_attempts (suc left) a last = elim (Option-cases (before a)) [
    | inr (x, b) ↦ rw (b, do_loop) (0, omega arith, refl, λ e. cc)
    | inl b ↦ elim (Option-cases (fn a)) [
      | inl f ↦ (1, omega arith, ground arith, λ e. inr (0, refl, rw add-zero f))
      | inr (x, f) ↦
          let (k, le, calls, success) = do_loop_attempts left (suc a) (some x) in
          let once =
            λ (c : (do_loop same config fn before wait (suc left) a last).1 ≡ a ∷ [])
                (e : (do_loop same config fn before wait (suc left) a last).0 ≢ none).
              let r : Tried (suc left) a last = (1, omega arith, c, λ n. absurd (e n)) in r in
          elim (Bool-cases (is_retryable same config.retryable_errors x)) [
            | inr q ↦ once (ground arith) (λ e. ground arith)
            | inl q ↦ elim (Bool-cases (leb config.max_attempts a)) [
              | inl m ↦ once (ground arith) (λ e. ground arith)
              | inr m ↦ elim (Option-cases (wait a)) [
                | inr (c, w) ↦ once (ground arith) (λ e. ground arith)
                | inl w ↦ (
                  suc k,
                  omega arith,
                  ground (arith, calls),
                  λ e. later left a x last k (success (ground arith)),
                )
              ]
            ]
          ]
    ]
  ]

  -- With a positive limit that an int holds, `Do` calls the function at most `MaxAttempts` times, at
  -- successive attempts from 1 on, and returns nil only if the last of these calls returned nil.
  pub retry_do-attempts :
      0 < config.max_attempts
      → config.max_attempts < two_63
      → let (r, calls) = retry_do same config fn before wait in
        (k : ℕ) × (k ≤ config.max_attempts)
        × (calls ≡ attempts 1 k)
        × (r ≡ none → (n : ℕ) × (k ≡ suc n) × (fn (suc n) ≡ none))
  unfolding retry_do
  retry_do-attempts p b =
      let positive : lt_64 0 config.max_attempts ≡ true = ground arith in
      let (k, le, calls, success) = do_loop_attempts config.max_attempts 1 none in
      simp positive (k, le, calls, λ e. succeeded k (success e))
    where
      succeeded :
          (k : ℕ)
          → Succeeds config.max_attempts 1 k none
          → (n : ℕ) × (k ≡ suc n) × (fn (suc n) ≡ none)
      succeeded k (inl h) = absurd (omega (arith, h.0))
      succeeded k (inr (n, e, h)) = (n, e, rw (suc-add, zero-add) at h)

  -- A limit that is 0 or negative: `Do` returns nil, and has not called the function.
  retry_do_no_attempts :
      lt_64 0 config.max_attempts ≡ false → retry_do same config fn before wait ≡ (none, [])
  unfolding retry_do
  retry_do_no_attempts h = simp h

  do_loop_exhausts :
      (left a : ℕ) (last : Option Error) (e : ℕ → Error)
      → ((n : ℕ) → before n ≡ none)
      → ((n : ℕ) → wait n ≡ none)
      → ((n : ℕ) → fn n ≡ some (e n))
      → ((n : ℕ) → is_retryable same config.retryable_errors (e n) ≡ true)
      → a + left ≡ config.max_attempts
      → do_loop same config fn before wait (suc left) a last
        ≡ (some (e (a + left)), attempts a (suc left))
  unfolding do_loop
  do_loop_exhausts zero a last e b w f r h =
      let limit : leb config.max_attempts a ≡ true = ground arith in
      rw add-zero (ground (arith, b a, f a, r a))
  do_loop_exhausts (suc left) a last e b w f r h =
      let more : leb config.max_attempts a ≡ false = ground arith in
      let ih = do_loop_exhausts left (suc a) (some (e a)) e b w f r (omega arith) in
      rw (add-suc, ← suc-add) (ground (arith, b a, f a, r a, w a, ih))

  -- A function that always fails with retryable errors, under a context that is never done, is called
  -- exactly `MaxAttempts` times, and `Do` returns its last error, for a positive limit that
  -- an int holds.
  retry_do_exhausts :
      (e : ℕ → Error)
      → 0 < config.max_attempts
      → config.max_attempts < two_63
      → ((n : ℕ) → before n ≡ none)
      → ((n : ℕ) → wait n ≡ none)
      → ((n : ℕ) → fn n ≡ some (e n))
      → ((n : ℕ) → is_retryable same config.retryable_errors (e n) ≡ true)
      → retry_do same config fn before wait
        ≡ (some (e config.max_attempts), attempts 1 config.max_attempts)
  unfolding retry_do
  retry_do_exhausts e p m b w f r =
      let positive : lt_64 0 config.max_attempts ≡ true = ground arith in
      let l = config.max_attempts - 1 in
      let whole : 1 + l ≡ config.max_attempts = omega arith in
      let run = do_loop_exhausts l 1 none e b w f r whole in
      let one : suc l ≡ 1 + l = omega arith in
      let run' =
        subst (λ x. do_loop same config fn before wait x 1 none ≡ (some (e (1 + l)), attempts 1 x))
          one run in
      simp positive (
        subst (λ x. do_loop same config fn before wait x 1 none ≡ (some (e x), attempts 1 x)) whole
          run')
