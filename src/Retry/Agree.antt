-- ===== src/Retry/Agree.antt =====
-- pkg/moqttransport/retry.go: `Do` and `DoWithResult`, which have a loop each.
use mcp_moqt_transport.Base.{
  ℕ, zero, suc, ◌≡◌, refl, Bool, Option, none, some, List, arith, inl, inr, Option-cases,
}
use mcp_moqt_transport.Errors.{Error, Result, ok, err}
use mcp_moqt_transport.Retry.{
  RetryConfig, Trace, rounds, do_loop, retry_do, result_loop, do_with_result,
}

-- What `Do` tells of a run of `DoWithResult`.
abbrev pub without_value : {A : Type 0} → Trace A → Option Error × List ℕ
without_value t = (t.error, t.calls)

module _ {F A : Type 0} (same : Error → Error → Bool) (config : RetryConfig F) (a : A)
    (fn before wait : ℕ → Option Error) where
  -- The function as one with a result.
  abbrev pub with_value : ℕ → Result A
  with_value n = elim (fn n) [ none ↦ ok a | some e ↦ err e ]

  agree :
      (left attempt : ℕ) (last : Option Error)
      → without_value (result_loop same config with_value before wait left attempt last)
        ≡ do_loop same config fn before wait left attempt last
  unfolding result_loop do_loop
  agree zero attempt last = refl
  agree (suc left) attempt last = elim (Option-cases (fn attempt)) [
    | inl n ↦ ground (arith, n)
    | inr (e, n) ↦ ground (arith, n, agree left (suc attempt) (some e))
  ]

  -- Whatever the limits, the contexts and the function do: `DoWithResult` of a function ends with the
  -- same error as `Do` of it, after the same calls.
  pub do_with_result-retry_do :
      without_value (do_with_result same config with_value before wait)
      ≡ retry_do same config fn before wait
  unfolding do_with_result retry_do
  do_with_result-retry_do = agree (rounds same config) 1 none
