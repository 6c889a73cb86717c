-- ===== src/Retry/Endings.antt =====
-- How the calls of a retry end: all but the last fail, and the result is nil if the last does not.
use mcp_moqt_transport.Base.{
  ℕ, zero, suc, ◌<◌, ◌≡◌, ◌≢◌, ◌↔◌, refl, ap, Bool, true, Option, none, some, [], ◌∷◌, leb, arith,
  Bool-cases, Option-cases, inl, inr,
}
use mcp_moqt_transport.Base.Word.{two_63, lt_64}
use mcp_moqt_transport.Errors.{Error}
use mcp_moqt_transport.Retry.{RetryConfig, is_retryable, do_loop, retry_do, rounds}
use mcp_moqt_transport.Retry.Attempts.{attempts}

-- Of the `k` calls from attempt `a` on all but the last fail, and the last fails unless `r` is nil.
abbrev pub Ended : (ℕ → Option Error) → ℕ → ℕ → Option Error → Type 0
Ended fn a zero r = Unit
Ended fn a (suc zero) r = (fn a ≡ none) ↔ (r ≡ none)
Ended fn a (suc (suc k)) r = (fn a ≢ none) × Ended fn (suc a) (suc k) r

module _ {F : Type 0} (same : Error → Error → Bool) (config : RetryConfig F)
    (fn before wait : ℕ → Option Error) where
  abbrev Ends : ℕ → ℕ → Option Error → Type 0
  Ends left a last =
      let r = do_loop same config fn before wait left a last in
      (k : ℕ) × (r.1 ≡ attempts a k)
      × Ended fn a k r.0
      × (k ≡ 0 → r.0 ≡ none → (left ≡ 0) × (last ≡ none))

  joined :
      (a k : ℕ) (r : Option Error) (x : Error)
      → fn a ≡ some x
      → Ended fn (suc a) k r
      → (k ≡ 0 → r ≢ none)
      → Ended fn a (suc k) r
  joined a zero r x f e z = (λ n. cc, λ n. absurd (z refl n))
  joined a (suc k) r x f e z = (λ n. cc, e)

  once :
      (left a : ℕ) (last : Option Error) (x y : Error)
      → fn a ≡ some x
      → do_loop same config fn before wait left a last ≡ (some y, a ∷ [])
      → Ends left a last
  once left a last x y f e = rw e (1, refl, (λ n. cc, λ n. cc), λ z n. cc)

  on_again :
      (left a : ℕ) (last : Option Error) (x : Error)
      → fn a ≡ some x
      → (let rest = do_loop same config fn before wait left (suc a) (some x) in
          do_loop same config fn before wait (suc left) a last ≡ (rest.0, a ∷ rest.1))
      → Ends left (suc a) (some x)
      → Ends (suc left) a last
  on_again left a last x f e (k, calls, ended, none_left) =
      let rest = do_loop same config fn before wait left (suc a) (some x) in
      rw e (
        suc k,
        ap (◌∷◌ a) calls,
        joined a k rest.0 x f ended (λ z n. cc ((none_left z n).1)),
        λ z n. absurd (omega arith),
      )

  do_loop-Ends : (left a : ℕ) (last : Option Error) → Ends left a last
  unfolding do_loop
  do_loop-Ends zero a last = (0, refl, tt, λ z n. (refl, n))
  do_loop-Ends (suc left) a last = elim (Option-cases (before a)) [
    | inr (x, b) ↦ rw (b, do_loop) (0, refl, tt, λ z n. cc)
    | inl b ↦ elim (Option-cases (fn a)) [
      | inl f ↦ rw (b, f, do_loop) (1, refl, (λ n. refl, λ n. f), λ z n. absurd (omega arith))
      | inr (x, f) ↦ elim (Bool-cases (is_retryable same config.retryable_errors x)) [
        | inr q ↦ once (suc left) a last x x f (ground arith)
        | inl q ↦ elim (Bool-cases (leb config.max_attempts a)) [
          | inl m ↦ once (suc left) a last x x f (ground arith)
          | inr m ↦ elim (Option-cases (wait a)) [
            | inr (c, w) ↦ once (suc left) a last x c f (ground arith)
            | inl w ↦ on_again left a last x f (ground arith) (do_loop-Ends left (suc a) (some x))
          ]
        ]
      ]
    ]
  ]

  -- With a positive limit that an int holds, a nil result comes with at least one call.
  pub retry_do-Ended :
      0 < config.max_attempts
      → config.max_attempts < two_63
      → let (r, calls) = retry_do same config fn before wait in
        (k : ℕ) × (calls ≡ attempts 1 k) × Ended fn 1 k r × (k ≡ 0 → r ≢ none)
  unfolding retry_do rounds
  retry_do-Ended p b =
      let positive : lt_64 0 config.max_attempts ≡ true = ground arith in
      let (k, calls, ended, z) = do_loop-Ends config.max_attempts 1 none in
      simp positive (k, calls, ended, λ e n. absurd (omega (arith, (z e n).0)))
