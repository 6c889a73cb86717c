-- ===== src/Pool/Sweep.antt =====
-- pkg/moqttransport/quic_manager.go, the pool's `Close` and `CleanupExpired`, its read-only
-- methods, and the steps that callers and the cleanup goroutine make.
pub mod Counts
pub mod Limits
pub mod Effects
use mcp_moqt_transport.Base.{
  ℕ, ◌≡◌, Bool, true, false, not, ◌&&◌, Option, none, some, List, [], ◌∷◌, String, if◌then◌else◌,
}
use mcp_moqt_transport.Base.Word.{inc_64, dec_64, sub_64, lt_64, le_64, minus_one}
use mcp_moqt_transport.Errors.{Result}
use mcp_moqt_transport.Pool.{
  Pooled, Stats, Pool, is_expired, get, get_locked, put, put_locked, set_tls_config,
}

-- What a loop over entries updates: the counters and the list of closed connections.
pub record Ledger : Type 0 where
  pub stats : Stats
  pub closes : List ℕ

unfoldable pub expire_one : Pooled → Ledger → Ledger
expire_one pc l = record {
  stats = record st {
    closed_count = inc_64 st.closed_count;
    total = dec_64 st.total;
    idle = dec_64 st.idle;
  };
  closes = pc.conn ∷ l.closes;
}
  where
    open l use {stats as st}

-- The inner loop of `CleanupExpired`: what stays, and the ledger.
unfoldable pub sweep : ℕ → ℕ → List Pooled → Ledger → List Pooled × Ledger
unfolding expire_one is_expired
sweep now max_idle [] l = ([], l)
sweep now max_idle (pc ∷ rest) l =
    let gone = is_expired now max_idle pc in
    let (active, l') = sweep now max_idle rest (if gone then expire_one pc l else l) in
    (if gone then active else pc ∷ active, l')

-- `delete(p.connections, addr)` or `p.connections[addr] = active`.
abbrev pub keep : String → List Pooled → List (String × List Pooled) → List (String × List Pooled)
keep addr [] m = m
keep addr (pc ∷ active) m = (addr, pc ∷ active) ∷ m

unfoldable pub sweep_all :
    ℕ → ℕ → List (String × List Pooled) → Ledger → List (String × List Pooled) × Ledger
unfolding sweep
sweep_all now max_idle [] l = ([], l)
sweep_all now max_idle ((addr, conns) ∷ m) l =
    let (active, l1) = sweep now max_idle conns l in
    let (m', l2) = sweep_all now max_idle m l1 in (keep addr active m', l2)

unfoldable pub cleanup_expired : ℕ → Pool → Pool
unfolding sweep_all
cleanup_expired now p =
    let (m, l) =
      sweep_all now p.max_idle_time p.connections (record { stats = p.stats; closes = p.closes }) in
    record p { connections = m; stats = l.stats; closes = l.closes }

unfoldable pub close_one : Pooled → Ledger → Ledger
close_one pc l = record {
  stats = record st { closed_count = inc_64 st.closed_count };
  closes = pc.conn ∷ l.closes;
}
  where
    open l use {stats as st}

unfoldable pub close_conns : List Pooled → Ledger → Ledger
unfolding close_one
close_conns [] l = l
close_conns (pc ∷ rest) l = close_conns rest (close_one pc l)

unfoldable pub close_all : List (String × List Pooled) → Ledger → Ledger
unfolding close_conns
close_all [] l = l
close_all ((addr, conns) ∷ m) l = close_all m (close_conns conns l)

-- `Close` behind its compare-and-swap, under the lock.
unfoldable pub close_locked : Pool → Pool
unfolding close_all
close_locked p =
    let l = close_all p.connections (record { stats = p.stats; closes = p.closes }) in
    record p {
      connections = [];
      stats = record (l.stats) { total = 0; active = 0; idle = 0 };
      closes = l.closes;
    }

unfoldable pub close : Pool → Pool
unfolding close_locked
close p = if p.closed then p else close_locked (record p { closed = true; done = true })

unfoldable pub available : Pool → ℕ
available p =
    let left = sub_64 p.max_pool_size p.stats.total in
    if le_64 p.max_pool_size 0 then minus_one else if lt_64 left 0 then 0 else left

unfoldable pub is_healthy : Pool → Bool
is_healthy p = if p.closed then false else le_64 0 p.stats.active && le_64 0 p.stats.idle

-- What a caller or the cleanup goroutine of `StartCleanup` does next. `get_race`, `put_race` are
-- calls that passed the test of `closed` before another goroutine's `Close` set it. The cleanup
-- goroutine ends once `done` is closed, and may make one more round before it sees that.
pub data Event : Type 0 where
  gets get_races : ℕ → Result ℕ → String → Event
  puts put_races : ℕ → Event
  cleanups : ℕ → Event
  closes : Event
  sets_tls : Option ℕ → Option ℕ → Event

unfoldable pub step : (ℕ → String) → Event → Pool → Pool
unfolding get get_locked put put_locked cleanup_expired close set_tls_config
step remote_addr (gets now dialed addr) p = (get now dialed addr p).0
step remote_addr (get_races now dialed addr) p = (get_locked now dialed addr p).0
step remote_addr (puts c) p = put remote_addr c p
step remote_addr (put_races c) p = put_locked remote_addr c p
step remote_addr (cleanups now) p = cleanup_expired now p
step remote_addr closes p = close p
step remote_addr (sets_tls client server) p = set_tls_config client server p

unfoldable pub run : (ℕ → String) → List Event → Pool → Pool
unfolding step
run remote_addr [] p = p
run remote_addr (e ∷ es) p = run remote_addr es (step remote_addr e p)
