-- ===== src/Pool.antt =====
-- pkg/moqttransport/quic_manager.go, the connection pool. A connection is a pointer, a number;
-- instants and durations are nanoseconds, the clock's reading `now` is an argument. The counters
-- are int64 bit patterns. What `quic.DialAddr` answers, and a connection's remote address, are
-- arguments. `closes` lists the connections on which `CloseWithError` was called, newest first.
pub mod Sweep
pub mod Accounting
use mcp_moqt_transport.Base.{
  ℕ, ◌+◌, ◌-◌, ◌≡◌, Bool, true, false, not, ◌&&◌, Option, none, some, List, [], ◌∷◌, ◌++◌, String,
  if◌then◌else◌, ltb, ◌==◌, length,
}
use mcp_moqt_transport.Base.Word.{inc_64, dec_64, sub_64, lt_64, le_64, minus_one}
use mcp_moqt_transport.Base.Map.{lookup, insert, string_key}
use mcp_moqt_transport.Errors.{Error, Result, ok, err, sentinel, text, pool_closed, pool_full}

pub record Pooled : Type 0 where
  pub conn : ℕ
  pub addr : String
  pub created_at : ℕ
  pub last_used_at : ℕ
  pub in_use : Bool

unfoldable pub mark_in_use : ℕ → Pooled → Pooled
mark_in_use now pc = record pc { last_used_at = now; in_use = true }

unfoldable pub mark_idle : Pooled → Pooled
mark_idle pc = record pc { in_use = false }

unfoldable pub is_expired : ℕ → ℕ → Pooled → Bool
is_expired now max_idle pc = if pc.in_use then false else ltb max_idle (now - pc.last_used_at)

pub record Stats : Type 0 where
  pub total : ℕ
  pub active : ℕ
  pub idle : ℕ
  pub created : ℕ
  pub closed_count : ℕ
  pub hits : ℕ
  pub misses : ℕ

pub record Pool : Type 0 where
  pub connections : List (String × List Pooled)
  pub max_pool_size : ℕ
  pub max_idle_time : ℕ
  pub tls_client : Option ℕ
  pub tls_server : Option ℕ
  pub closed : Bool
  pub done : Bool
  pub stats : Stats
  pub closes : List ℕ

unfoldable pub zero_stats : Stats
zero_stats = record {
  total = 0;
  active = 0;
  idle = 0;
  created = 0;
  closed_count = 0;
  hits = 0;
  misses = 0;
}

unfoldable pub new_pool : ℕ → ℕ → Pool
unfolding zero_stats
new_pool max_pool_size max_idle_time = record {
  connections = [];
  max_pool_size = max_pool_size;
  max_idle_time = max_idle_time;
  tls_client = none;
  tls_server = none;
  closed = false;
  done = false;
  stats = zero_stats;
  closes = [];
}

unfoldable pub set_tls_config : Option ℕ → Option ℕ → Pool → Pool
set_tls_config client server p = record p { tls_client = client; tls_server = server }

-- The loop of `Get`: the first entry that is neither in use nor expired is marked in place.
unfoldable pub checkout : ℕ → ℕ → List Pooled → Option (ℕ × List Pooled)
unfolding mark_in_use is_expired
checkout now max_idle [] = none
checkout now max_idle (pc ∷ rest) =
    let later = checkout now max_idle rest in
    if not pc.in_use && not (is_expired now max_idle pc)
    then some (pc.conn, mark_in_use now pc ∷ rest)
    else elim later [ none ↦ none | some (c, rest') ↦ some (c, pc ∷ rest') ]

unfoldable pub cached : ℕ → String → Pool → Option (ℕ × List Pooled)
unfolding checkout
cached now addr p = elim (lookup addr p.connections) [
  | none ↦ none
  | some conns ↦ checkout now p.max_idle_time conns
]

unfoldable pub is_full : Pool → Bool
is_full p = lt_64 0 p.max_pool_size && le_64 p.max_pool_size p.stats.total

-- `dialed` is the outcome of `quic.DialAddr`, which is not called without a TLS configuration.
unfoldable pub dial : Result ℕ → Pool → Result ℕ
dial dialed p = elim p.tls_client [
  | none ↦ err (text "TLS client config not set")
  | some t ↦ dialed
]

-- A missing key reads as a nil slice.
abbrev pub entries : Option (List Pooled) → List Pooled
entries none = []
entries (some conns) = conns

abbrev pub conns_at : String → Pool → List Pooled
conns_at addr p = entries (lookup addr p.connections)

unfoldable pub on_hit : String → ℕ → List Pooled → Pool → Pool
on_hit addr c conns p = record p {
  connections = insert addr conns p.connections;
  stats = record st { hits = inc_64 st.hits; idle = dec_64 st.idle; active = inc_64 st.active };
}
  where
    open p use {stats as st}

unfoldable pub on_dialed : ℕ → String → ℕ → Pool → Pool
unfolding mark_in_use
on_dialed now addr c p = record p {
  connections = insert addr (conns_at addr p ++ mark_in_use now fresh ∷ []) p.connections;
  stats = record st {
    total = inc_64 st.total;
    active = inc_64 st.active;
    created = inc_64 st.created;
  };
}
  where
    open p use {stats as st}

    fresh : Pooled
    fresh = record { conn = c; addr = addr; created_at = now; last_used_at = now; in_use = false }

unfoldable pub miss : Pool → Pool
miss p = record p { stats = record st { misses = inc_64 st.misses } }
  where
    open p use {stats as st}

unfoldable pub on_miss : ℕ → Result ℕ → String → Pool → Pool × Result ℕ
unfolding dial on_dialed miss
on_miss now dialed addr p = elim (dial dialed p) [
  | err e ↦ (miss p, err e)
  | ok c ↦ (on_dialed now addr c (miss p), ok c)
]

-- `Get` behind its first test, under the lock.
unfoldable pub get_locked : ℕ → Result ℕ → String → Pool → Pool × Result ℕ
unfolding cached on_hit on_miss is_full
get_locked now dialed addr p = elim (cached now addr p) [
  | some (c, conns) ↦ (on_hit addr c conns p, ok c)
  | none ↦ if is_full p then (p, err (sentinel pool_full)) else on_miss now dialed addr p
]

unfoldable pub get : ℕ → Result ℕ → String → Pool → Pool × Result ℕ
unfolding get_locked
get now dialed addr p =
    if p.closed then (p, err (sentinel pool_closed)) else get_locked now dialed addr p

-- The loop of `Put`: the first entry for the connection is marked idle.
unfoldable pub give_back : ℕ → List Pooled → Option (List Pooled)
unfolding mark_idle
give_back c [] = none
give_back c (pc ∷ rest) =
    let later = give_back c rest in
    if pc.conn == c
    then some (mark_idle pc ∷ rest)
    else elim later [ none ↦ none | some rest' ↦ some (pc ∷ rest') ]

unfoldable pub put_locked : (ℕ → String) → ℕ → Pool → Pool
unfolding give_back
put_locked remote_addr c p = elim (give_back c (conns_at (remote_addr c) p)) [
  | none ↦ p
  | some conns ↦ record p {
    connections = insert (remote_addr c) conns p.connections;
    stats = record st { active = dec_64 st.active; idle = inc_64 st.idle };
  }
]
  where
    open p use {stats as st}

unfoldable pub put : (ℕ → String) → ℕ → Pool → Pool
unfolding put_locked
put remote_addr c p =
    if p.closed then record p { closes = c ∷ p.closes } else put_locked remote_addr c p
