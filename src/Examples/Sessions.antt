-- ===== src/Examples/Sessions.antt =====
-- Runs of the retry loop, the heartbeat, the stream manager, the counters and the session's handlers.
use mcp_moqt_transport.Base.{
  ℕ, suc, ◌+◌, ◌≤◌, ◌≡◌, refl, Bool, false, Option, none, some, List, [], ◌∷◌, count_if, arith,
}
use mcp_moqt_transport.Errors.{Error, foreign, ok}
use mcp_moqt_transport.Retry.{RetryConfig, retry_do, do_with_result}
use mcp_moqt_transport.Retry.Agree.{without_value, with_value, do_with_result-retry_do}
use mcp_moqt_transport.Retry.Attempts.{attempts, retry_do-attempts}
use mcp_moqt_transport.Streams.{new_manager, Event, opens, open_unis, closes_one, run}
use mcp_moqt_transport.Streams.Counters.{Inv, is_open_uni, run-Inv}
use mcp_moqt_transport.Base.Map.{lookup, nat_key}

-- Three attempts of a function that fails with a new error each time.
abbrev three_attempts : RetryConfig ℕ
three_attempts = record {
  max_attempts = 3;
  initial_delay = 1;
  max_delay = 8;
  multiplier = 2;
  jitter = false;
  retryable_errors = [];
}

abbrev never_same : Error → Error → Bool
never_same a b = false

abbrev fails : ℕ → Option Error
fails n = some (foreign n)

abbrev never : ℕ → Option Error
never n = none

retry_do-attempts_example :
    let (r, calls) = retry_do never_same three_attempts fails never never in
    (k : ℕ) × (k ≤ 3)
    × (calls ≡ attempts 1 k)
    × (r ≡ none → (n : ℕ) × (k ≡ suc n) × (fails (suc n) ≡ none))
retry_do-attempts_example =
    retry_do-attempts never_same three_attempts fails never never (omega arith) (omega arith)

new_manager-Inv : Inv 0 new_manager
unfolding new_manager lookup
new_manager-Inv = record { unique = tt; issued = λ id h. refl; total = refl; active = refl }

-- Two streams and a unidirectional one are opened, and the first one is closed.
abbrev traffic : List Event
traffic = opens (ok 10) ∷ open_unis (ok 11) ∷ opens (ok 12) ∷ closes_one 1 none ∷ []

run-Inv_example :
    (uni' : ℕ) × Inv uni' (run traffic new_manager) × (uni' ≤ 0 + count_if is_open_uni traffic)
run-Inv_example = run-Inv traffic 0 new_manager (unfold new_manager in omega arith) new_manager-Inv

abbrev five : ℕ
five = 5

do_with_result-retry_do_example :
    without_value (
      do_with_result never_same three_attempts
        (with_value never_same three_attempts five fails never never)
        never
        never)
    ≡ retry_do never_same three_attempts fails never never
do_with_result-retry_do_example =
    do_with_result-retry_do never_same three_attempts five fails never never
