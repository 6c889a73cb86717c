-- ===== src/Heartbeat.antt =====
-- pkg/moqttransport/heartbeat.go. `failures` is an int32 and `max_failures` an int, both as bit
-- patterns. A context is an address; `loops` are the contexts that the running loop goroutines wait
-- on, read at their last iteration. The callbacks' calls are counted: `timeouts` holds what `Failures()` answers at each call of
-- `OnTimeout`, newest first.
pub mod Cycles
pub mod Restarts
use mcp_moqt_transport.Base.{
  ℕ, suc, ◌+◌, ◌-◌, ◌%◌, Bool, true, false, not, Option, none, some, List, [], ◌∷◌, if◌then◌else◌,
  ◌==◌,
}
use mcp_moqt_transport.Base.Word.{inc_32, le_32, to_32, lt_64, mul_64, two_64}
use mcp_moqt_transport.Errors.{Error}

pub record HeartbeatConfig : Type 0 where
  pub interval : ℕ
  pub timeout : ℕ
  pub max_failures : ℕ
  pub has_on_heartbeat : Bool
  pub has_on_timeout : Bool
  pub has_on_reconnect : Bool

-- Nanoseconds: 30 s and 10 s.
unfoldable pub default_heartbeat_config : HeartbeatConfig
default_heartbeat_config = record {
  interval = 30000000000;
  timeout = 10000000000;
  max_failures = 3;
  has_on_heartbeat = false;
  has_on_timeout = false;
  has_on_reconnect = false;
}

pub record Heartbeat : Type 0 where
  pub config : HeartbeatConfig
  pub running : Bool
  pub failures : ℕ
  pub last_pong : ℕ
  pub ctx : Option ℕ
  pub cancelled : List ℕ
  pub loops : List ℕ
  pub next_ctx : ℕ
  pub timeouts : List ℕ
  pub reconnects : ℕ

unfoldable pub new_heartbeat : HeartbeatConfig → Heartbeat
new_heartbeat config = record {
  config = config;
  running = false;
  failures = 0;
  last_pong = 0;
  ctx = none;
  cancelled = [];
  loops = [];
  next_ctx = 0;
  timeouts = [];
  reconnects = 0;
}

unfoldable pub start : ℕ → Heartbeat → Heartbeat
start now h = if h.running then h else record h {
  running = true;
  failures = 0;
  last_pong = now;
  ctx = some h.next_ctx;
  loops = h.next_ctx ∷ h.loops;
  next_ctx = suc h.next_ctx;
}

abbrev pub mem : ℕ → List ℕ → Bool
mem c [] = false
mem c (x ∷ xs) = if x == c then true else mem c xs

abbrev pub remove : ℕ → List ℕ → List ℕ
remove c [] = []
remove c (x ∷ xs) = let rest = remove c xs in if x == c then rest else x ∷ rest

-- A loop that waits in its select on a context sees that it is done, and its deferred call clears
-- `running`. The select has read `h.ctx` when it began to wait.
unfoldable pub exit_loop : ℕ → Heartbeat → Heartbeat
exit_loop c h =
    if mem c h.loops
    then (if mem c h.cancelled then record h { loops = remove c h.loops; running = false } else h)
    else h

-- The next iteration of a loop that was in `sendHeartbeat`: its select reads `h.ctx` anew, and waits on
-- the heartbeat's current context from then on, whichever it waited on before.
unfoldable pub next_iteration : ℕ → Heartbeat → Heartbeat
next_iteration c h = elim h.ctx [
  | none ↦ h
  | some d ↦ if mem c h.loops then record h { loops = d ∷ remove c h.loops } else h
]

unfoldable pub handle_success : ℕ → Heartbeat → Heartbeat
handle_success now h = record h { failures = 0; last_pong = now }

unfoldable pub handle_failure : Heartbeat → Heartbeat
handle_failure h =
    let failures = inc_32 h.failures in
    let timeouts = if h.config.has_on_timeout then failures ∷ h.timeouts else h.timeouts in
    let reconnects = if h.config.has_on_reconnect then suc h.reconnects else h.reconnects in
    if le_32 (to_32 h.config.max_failures) failures
    then record h { failures = 0; timeouts = timeouts; reconnects = reconnects }
    else record h { failures = failures; timeouts = timeouts }

-- `result` is what the beat came to: nil, the callback's error, or a timeout.
unfoldable pub send_heartbeat : ℕ → Option Error → Heartbeat → Heartbeat
unfolding handle_failure handle_success
send_heartbeat now result h =
    if h.config.has_on_heartbeat
    then elim result [ none ↦ handle_success now h | some e ↦ handle_failure h ]
    else h

unfoldable pub stop : Heartbeat → Heartbeat
stop h =
    if h.running
    then elim h.ctx [
      | none ↦ record h { running = false }
      | some c ↦ record h { running = false; cancelled = c ∷ h.cancelled }
    ]
    else h

unfoldable pub record_pong : ℕ → Heartbeat → Heartbeat
record_pong now h = record h { last_pong = now; failures = 0 }

unfoldable pub is_healthy : ℕ → Heartbeat → Bool
is_healthy now h =
    if not h.running
    then false
    else lt_64 ((now - h.last_pong) % two_64) (mul_64 h.config.interval h.config.max_failures)
