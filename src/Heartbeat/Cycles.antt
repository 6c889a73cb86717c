-- ===== src/Heartbeat/Cycles.antt =====
-- Consecutive failures, and when they call for a reconnect.
use native.Mathlib.Nat.{zero-add, suc-add, zero-mul, suc-mul}
use mcp_moqt_transport.Base.{ℕ, zero, suc, ◌+◌, ◌*◌, ◌<◌, ◌≡◌, refl, ap, ◌∙◌, true, Option, arith}
use mcp_moqt_transport.Base.Word.{two_31}
use mcp_moqt_transport.Errors.{Error}
use mcp_moqt_transport.Heartbeat.{
  Heartbeat, send_heartbeat, handle_failure, start, stop, record_pong, exit_loop,
}

-- The failure limit is a positive int32, and the counter is below it.
pub record IsCounting (h : Heartbeat) : Type 0 where
  pub positive : 0 < h.config.max_failures
  pub small : h.config.max_failures < two_31
  pub below : h.failures < h.config.max_failures

-- The methods that change the failure counter.
pub data Call : Type 0 where
  beats : ℕ → Option Error → Call
  starts pongs : ℕ → Call
  stops : Call
  exits : ℕ → Call

unfoldable pub call : Call → Heartbeat → Heartbeat
unfolding send_heartbeat start record_pong stop exit_loop
call (beats now result) h = send_heartbeat now result h
call (starts now) h = start now h
call (pongs now) h = record_pong now h
call stops h = stop h
call (exits c) h = exit_loop c h

-- From a counter below a positive limit that an int32 holds, no method lets the failure counter
-- reach the limit: it is reset in the step that would.
call-IsCounting : (c : Call) (h : Heartbeat) → IsCounting h → IsCounting (call c h)
unfolding call
call-IsCounting c h v = ground arith

unfoldable pub fail : ℕ → Heartbeat → Heartbeat
fail zero h = h
fail (suc k) h = handle_failure (fail k h)

-- Below the limit failures only count.
fail_below :
    (k : ℕ) (h : Heartbeat)
    → IsCounting h
    → h.failures + k < h.config.max_failures
    → ((fail k h).failures ≡ h.failures + k)
      × ((fail k h).reconnects ≡ h.reconnects)
      × ((fail k h).config ≡ h.config)
unfolding fail handle_failure
fail_below zero h v lt = ground arith
fail_below (suc k) h v lt = ground (arith, fail_below k h v)

-- One failure more than fit below the limit resets the counter and asks for one reconnect.
fail_cycle :
    (k : ℕ) (h : Heartbeat)
    → IsCounting h
    → h.config.max_failures ≡ suc k
    → h.failures ≡ 0
    → h.config.has_on_reconnect ≡ true
    → ((fail (suc k) h).failures ≡ 0)
      × ((fail (suc k) h).reconnects ≡ h.reconnects + 1)
      × ((fail (suc k) h).config ≡ h.config)
unfolding fail handle_failure
fail_cycle k h v m z r = ground (arith, fail_below k h v)

fail_add : (a b : ℕ) (h : Heartbeat) → fail (a + b) h ≡ fail a (fail b h)
unfolding fail
fail_add zero b h = rw zero-add refl
fail_add (suc a) b h = rw suc-add (ap handle_failure (fail_add a b h))

-- From a fresh counter, with `OnReconnect` set, every `MaxFailures` consecutive failures call
-- `OnReconnect` exactly once and leave the counter at 0, for any positive limit that an int32
-- holds.
fail_cycles :
    (n k : ℕ) (h : Heartbeat)
    → IsCounting h
    → h.config.max_failures ≡ suc k
    → h.failures ≡ 0
    → h.config.has_on_reconnect ≡ true
    → ((fail (n * suc k) h).failures ≡ 0) × ((fail (n * suc k) h).reconnects ≡ h.reconnects + n)
fail_cycles zero k h v m z r = rw zero-mul (unfold fail in (z, omega arith))
fail_cycles (suc n) k h v m z r =
    let (z', r', c') = fail_cycle k h v m z r in
    let h' = fail (suc k) h in
    let v' : IsCounting h' = record {
      positive = omega (arith, ap (λ c. c.max_failures) c', v.positive);
      small = omega (arith, ap (λ c. c.max_failures) c', v.small);
      below = omega (arith, ap (λ c. c.max_failures) c', v.positive);
    } in
    let (z2, r2) =
      fail_cycles n k h' v' (ap (λ c. c.max_failures) c' ∙ m) z'
        (ap (λ c. c.has_on_reconnect) c' ∙ r) in
    rw (suc-mul n (suc k), fail_add (n * suc k) (suc k) h) (z2, omega (arith, r2, r'))
