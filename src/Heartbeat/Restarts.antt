-- ===== src/Heartbeat/Restarts.antt =====
-- `Stop` and `Start` while the old loop has not ended yet: it waits in its select on the old context, or
-- it is in `sendHeartbeat`.
use mcp_moqt_transport.Base.{ℕ, suc, ◌<◌, ◌≡◌, true, false, some, [], ◌∷◌, arith}
use mcp_moqt_transport.Heartbeat.{
  Heartbeat, start, stop, exit_loop, next_iteration, mem, is_healthy,
}

-- One loop runs, on the heartbeat's context.
record IsRunning (c : ℕ) (h : Heartbeat) : Type 0 where
  running : h.running ≡ true
  its_ctx : h.ctx ≡ some c
  one_loop : h.loops ≡ c ∷ []
  older : c < h.next_ctx
  fresh : mem h.next_ctx h.cancelled ≡ false

-- When a running heartbeat is stopped and started again while its old loop waits in its select, the
-- old loop's end clears `running` although the new loop goes on: the heartbeat counts as unhealthy at
-- every time, `Stop` does nothing, and a further `Start` makes a second live loop.
restart_loses_running :
    (c now later : ℕ) (h : Heartbeat)
    → IsRunning c h
    → let h' = exit_loop c (start now (stop h)) in
      (h'.running ≡ false)
      × (h'.loops ≡ h.next_ctx ∷ [])
      × (mem h.next_ctx h'.cancelled ≡ false)
      × (is_healthy later h' ≡ false)
      × (stop h' ≡ h')
      × ((start later h').loops ≡ suc h.next_ctx ∷ h.next_ctx ∷ [])
unfolding exit_loop start stop is_healthy
restart_loses_running c now later h v = ground arith

-- If the old loop was in `sendHeartbeat` instead, it goes on beside the new one, on the new context.
restart_keeps_both :
    (c now : ℕ) (h : Heartbeat)
    → IsRunning c h
    → let h' = next_iteration c (start now (stop h)) in
      (h'.running ≡ true) × (h'.loops ≡ h.next_ctx ∷ h.next_ctx ∷ [])
unfolding next_iteration start stop
restart_keeps_both c now h v = ground arith
