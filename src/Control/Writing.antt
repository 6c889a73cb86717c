-- ===== src/Control/Writing.antt =====
-- pkg/moqttransport/control_conn.go, `Write`: the attempts of the retry loop change the connection, and
-- what they come to is what the loop is told. An attempt that waits for a publisher ends the run.
pub mod Counts
use mcp_moqt_transport.Base.{
  ℕ, zero, suc, Bool, true, false, Option, none, some, List, [], ◌∷◌, String, str_eq, if◌then◌else◌,
  ltb, length,
}
use mcp_moqt_transport.Errors.{Error, Result, ok, err}
use mcp_moqt_transport.Metrics.{record_error, record_retry, record_message_sent}
use mcp_moqt_transport.Tracks.{Peer, Bytes, Outcome, waits, returns}
use mcp_moqt_transport.Tracks
use mcp_moqt_transport.Retry.{RetryConfig, retry_do}
use mcp_moqt_transport.Control.{ControlConn, Message, extract_message_id, track_ack_async}

-- The circumstances of an attempt.
pub record Attempt : Type 0 where
  pub now : ℕ
  pub ctx : Option Error
  pub ready_first : Bool
  pub peer : Peer

-- What follows the writer's `Write`, which left `c`.
unfoldable pub after_write : ℕ → ℕ → String → Outcome → ControlConn → ControlConn
unfolding track_ack_async
after_write now size id waits c = c
after_write now size id (returns (some e)) c = record c { metrics = record_error c.metrics }
after_write now size id (returns none) c =
    let c' = record c { metrics = record_message_sent size c.metrics } in
    if str_eq id "" then c' else track_ack_async now id c'

-- The function that is retried, at the attempt `n`.
unfoldable pub attempt_write : ℕ → Attempt → Bytes → String → ControlConn → ControlConn × Outcome
unfolding after_write
attempt_write n a bytes id c =
    let m = if ltb 1 n then record_retry c.metrics else c.metrics in
    let (w, actions, r) = Tracks.write a.ctx a.ready_first a.peer bytes c.write_track in
    (after_write a.now (length bytes) id r (record c { metrics = m; write_track = w }), r)

abbrev pub resolved : Outcome → Option Error
resolved waits = none
resolved (returns r) = r

module _ (env : ℕ → Attempt) (bytes : Bytes) (id : String) where
  -- The connection after the first attempts, and what an attempt comes to.
  unfoldable pub after : ℕ → ControlConn → ControlConn
  unfolding attempt_write
  after zero c = c
  after (suc n) c = (attempt_write (suc n) (env (suc n)) bytes id (after n c)).0

  unfoldable pub outcome : ℕ → ControlConn → Outcome
  unfolding attempt_write after
  outcome zero c = returns none
  outcome (suc n) c = (attempt_write (suc n) (env (suc n)) bytes id (after n c)).1

-- The end of `Write`, with the last attempt's outcome and the loop's result.
unfoldable pub finish : Outcome → Option Error → ControlConn → ControlConn × Outcome
finish waits r c = (c, waits)
finish (returns last) none c = (c, returns none)
finish (returns last) (some e) c = (record c { metrics = record_error c.metrics }, returns (some e))

-- A `Write` that no other operation comes between. The lock is held for the test of `closed` only: the
-- attempts come later and with pauses, and Control/Histories.antt has them as steps of their own, with
-- `Close`, beats and reads between them. `closed_error` is the SDK's `ErrConnectionClosed`; `before`
-- and `wait` are the context of the retry.
module _ {F : Type 0} (same : Error → Error → Bool) (config : RetryConfig F)
    (encode : Message → Result Bytes) (closed_error : Error) where
  unfoldable pub write :
      (ℕ → Attempt)
      → (ℕ → Option Error)
      → (ℕ → Option Error)
      → Message
      → ControlConn
      → ControlConn × Outcome
  unfolding finish retry_do after outcome
  write env before wait message c =
      if c.closed then (c, returns (some closed_error)) else elim (encode message) [
        | err e ↦ (c, returns (some e))
        | ok bytes ↦
            let id = extract_message_id message in
            let (r, calls) =
              retry_do same config (λ n. resolved (outcome env bytes id n c)) before wait in
            let k = length calls in finish (outcome env bytes id k c) r (after env bytes id k c)
      ]
