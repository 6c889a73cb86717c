-- ===== src/Retry.antt =====
-- pkg/moqttransport/retry.go. The function that is retried answers by the number of the attempt, and
-- so does the context: what it is done with before an attempt, and during the wait after one. Floating
-- point is a parameter.
pub mod Attempts
pub mod Endings
pub mod Agree
use mcp_moqt_transport.Base.{
  ℕ, zero, suc, ◌-◌, Bool, true, false, not, Option, none, some, List, [], ◌∷◌, if◌then◌else◌, leb,
}
use mcp_moqt_transport.Base.Word.{lt_64}
use mcp_moqt_transport.Errors.{Error, Result, ok, err}

-- float64, with what the code computes in it.
pub record Floats : Type 1 where
  pub F : Type 0
  pub of_duration : ℕ → F
  pub to_duration : F → ℕ
  pub times : F → F → F
  pub plus : F → F → F
  pub greater : F → F → Bool
  pub tenth : F

pub record RetryConfig (F : Type 0) : Type 0 where
  pub max_attempts : ℕ
  pub initial_delay : ℕ
  pub max_delay : ℕ
  pub multiplier : F
  pub jitter : Bool
  pub retryable_errors : List Error

-- Nanoseconds: 100 ms and 30 s; `two` is 2.0.
unfoldable pub default_retry_config : {F : Type 0} → F → RetryConfig F
default_retry_config two = record {
  max_attempts = 3;
  initial_delay = 100000000;
  max_delay = 30000000000;
  multiplier = two;
  jitter = true;
  retryable_errors = [];
}

-- `==` on error values, `same`, is identity and belongs to the language.
abbrev pub any_same : (Error → Error → Bool) → Error → List Error → Bool
any_same same e [] = false
any_same same e (x ∷ xs) = if same e x then true else any_same same e xs

unfoldable pub is_retryable : (Error → Error → Bool) → List Error → Error → Bool
is_retryable same [] e = true
is_retryable same (x ∷ xs) e = any_same same e (x ∷ xs)

module _ (f : Floats) where
  open f use {F, of_duration, to_duration, times, plus, greater, tenth}

  -- The loop `for i := 1; i < attempt; i++`, `n` times.
  unfoldable pub grow_delay : ℕ → F → F → F
  grow_delay zero multiplier delay = delay
  grow_delay (suc n) multiplier delay = grow_delay n multiplier (times delay multiplier)

  -- `random` is what `r.rand.Float64()` returns.
  unfoldable pub calculate_delay : RetryConfig F → F → ℕ → ℕ
  unfolding grow_delay
  calculate_delay config random attempt =
      let grown = grow_delay (attempt - 1) config.multiplier (of_duration config.initial_delay) in
      let capped =
        if greater grown (of_duration config.max_delay)
        then of_duration config.max_delay
        else grown in
      to_duration
        (if config.jitter then plus capped (times (times capped tenth) random) else capped)

-- What `Do` returned, and the attempts at which it called the function, in order.
pub record Trace (A : Type 0) : Type 0 where
  pub value : Option A
  pub error : Option Error
  pub calls : List ℕ

abbrev pub called : {A : Type 0} → ℕ → Trace A → Trace A
called n t = record t { calls = n ∷ t.calls }

module _ {F : Type 0} (same : Error → Error → Bool) (config : RetryConfig F) where
  -- The `int` loop bound: no round for a limit that is not positive.
  unfoldable pub rounds : ℕ
  rounds = if lt_64 0 config.max_attempts then config.max_attempts else 0

  module _ {A : Type 0} (fn : ℕ → Result A) (before wait : ℕ → Option Error) where
    -- The loop of `DoWithResult` from `attempt` on, with `left` rounds left. `wait n` is none where
    -- the delay after attempt `n` ran out before the context was done.
    unfoldable pub result_loop : ℕ → ℕ → Option Error → Trace A
    unfolding is_retryable
    result_loop zero attempt last = record { value = none; error = last; calls = [] }
    result_loop (suc left) attempt last = elim (before attempt) [
      | some e ↦ record { value = none; error = some e; calls = [] }
      | none ↦ elim (fn attempt) [
        | ok a ↦ record { value = some a; error = none; calls = attempt ∷ [] }
        | err e ↦
            let rest = result_loop left (suc attempt) (some e) in
            if not (is_retryable same config.retryable_errors e)
            then record { value = none; error = some e; calls = attempt ∷ [] }
            else if leb config.max_attempts attempt
            then record { value = none; error = some e; calls = attempt ∷ [] }
            else elim (wait attempt) [
              | some c ↦ record { value = none; error = some c; calls = attempt ∷ [] }
              | none ↦ called attempt rest
            ]
      ]
    ]

    unfoldable pub do_with_result : Trace A
    unfolding rounds result_loop
    do_with_result = result_loop rounds 1 none

  module _ (fn : ℕ → Option Error) (before wait : ℕ → Option Error) where
    -- The loop of `Do`, whose function returns an error or nil.
    unfoldable pub do_loop : ℕ → ℕ → Option Error → Option Error × List ℕ
    unfolding is_retryable
    do_loop zero attempt last = (last, [])
    do_loop (suc left) attempt last = elim (before attempt) [
      | some e ↦ (some e, [])
      | none ↦ elim (fn attempt) [
        | none ↦ (none, attempt ∷ [])
        | some e ↦
            let rest = do_loop left (suc attempt) (some e) in
            if not (is_retryable same config.retryable_errors e)
            then (some e, attempt ∷ [])
            else if leb config.max_attempts attempt
            then (some e, attempt ∷ [])
            else elim (wait attempt) [
              | some c ↦ (some c, attempt ∷ [])
              | none ↦ (rest.0, attempt ∷ rest.1)
            ]
      ]
    ]

    unfoldable pub retry_do : Option Error × List ℕ
    unfolding rounds do_loop
    retry_do = do_loop rounds 1 none
