-- ===== src/Examples/Pools.antt =====
-- Runs of the connection pool.
use mcp_moqt_transport.Base.{
  ℕ, ◌≡◌, refl, inr, false, none, some, List, [], ◌∷◌, ◌++◌, String, filter_by, arith,
}
use mathlib.Core.List.{reverse}
use mcp_moqt_transport.Base.Map.{IsUnique, lookup, insert, string_key}
use mcp_moqt_transport.Errors.{ok}
use mcp_moqt_transport.Pool.{Pool, Pooled, new_pool, get, conns_at}
use mcp_moqt_transport.Pool.Sweep.{Event, gets, puts, sets_tls, step, run, cleanup_expired}
use mcp_moqt_transport.Pool.Accounting.{Inv, is_parked}
use mcp_moqt_transport.Pool.Sweep.Counts.{run-new_pool-Inv, AllAllowed}
use mcp_moqt_transport.Pool.Sweep.Limits.{get-Within, Within}
use mcp_moqt_transport.Pool.Sweep.Effects.{cleanup_expired_lem, live, dead, all_conns}

abbrev addr_of : ℕ → String
addr_of c = "a:1"

-- Two connections are lent, one comes back, is lent again, and comes back.
abbrev lending : List Event
lending =
    sets_tls (some 7) none
    ∷ gets 0 (ok 1) "a:1"
    ∷ gets 1 (ok 2) "a:1"
    ∷ puts 1
    ∷ gets 2 (ok 3) "a:1"
    ∷ puts 1
    ∷ []

lending_allowed : AllAllowed addr_of lending (new_pool 2 100)
unfolding step new_pool is_parked lookup insert
lending_allowed = (tt, (tt, (tt, (inr refl, (tt, (inr refl, tt))))))

run-new_pool-Inv_example : Inv (run addr_of lending (new_pool 2 100))
run-new_pool-Inv_example = run-new_pool-Inv addr_of lending 2 100 lending_allowed

-- An idle connection that was last used at 10, and one that was last used at 200.
abbrev old : Pooled
old = record { conn = 1; addr = "a:1"; created_at = 0; last_used_at = 10; in_use = false }

abbrev recent : Pooled
recent = record { conn = 2; addr = "a:1"; created_at = 0; last_used_at = 200; in_use = false }

abbrev two_idle : Pool
two_idle = record {
  connections = ("a:1", old ∷ recent ∷ []) ∷ [];
  max_pool_size = 3;
  max_idle_time = 100;
  tls_client = some 7;
  tls_server = none;
  closed = false;
  done = false;
  stats = record {
    total = 2;
    active = 0;
    idle = 2;
    created = 2;
    closed_count = 0;
    hits = 0;
    misses = 2;
  };
  closes = [];
}

two_idle-IsUnique : IsUnique two_idle.connections
unfolding lookup
two_idle-IsUnique = (refl, tt)

two_idle-Inv : Inv two_idle
two_idle-Inv = record { unique = two_idle-IsUnique; total = refl; active = refl; idle = refl }

-- Another address has no connection yet, so a third one is dialed.
get-Within_example : Within (get 250 (ok 3) "b:1" two_idle).0
get-Within_example =
    get-Within 250 (ok 3) "b:1" two_idle two_idle-Inv (omega arith) (λ _. omega arith)

cleanup_expired_lem_example :
    (conns_at "a:1" (cleanup_expired 250 two_idle)
      ≡ filter_by (live 250 100) (conns_at "a:1" two_idle))
    × ((cleanup_expired 250 two_idle).closes
        ≡ reverse (all_conns (dead 250 100) two_idle.connections) ++ [])
cleanup_expired_lem_example = cleanup_expired_lem 250 two_idle "a:1" two_idle-IsUnique
