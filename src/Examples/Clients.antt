-- ===== src/Examples/Clients.antt =====
-- Runs of the client transport.
use mcp_moqt_transport.Base.{
  ℕ, ◌≡◌, ◌≢◌, refl, true, none, some, List, [], ◌∷◌, String, arith, eq_iff,
}
use mcp_moqt_transport.Base.Map.{lookup, string_key}
use mcp_moqt_transport.Errors.{foreign, ok, err, sentinel, pool_full, wrap}
use mcp_moqt_transport.Pool.{Pooled, Pool, new_pool, set_tls_config, get}
use mcp_moqt_transport.Client.Decoding.{string, object, end, field}
use mcp_moqt_transport.Base.{str_eq}
use mcp_moqt_transport.Client.{Client, Setup, connect, session_closed}
use mcp_moqt_transport.Client.Leaks.{Try, visits, connect_leaks}
use mcp_moqt_transport.Client.Leases.{OneLent, session_closed_relends}

abbrev remote : ℕ → String
remote c = "127.0.0.1:8080"

abbrev works : Setup
works = record {
  session = 3;
  run = none;
  fetch = none;
  object = ok (1 ∷ []);
  parse = λ bytes. ok (object (field "result" (object (field "session_id" (string "s1") end)) end));
  matches = str_eq;
  mismatch = foreign 9;
  subscribe = none;
}

-- A client that dials a name, with a pool of two.
abbrev by_name : Client
by_name = record {
  addr = "localhost:8080";
  pool = set_tls_config (some 1) none (new_pool 2 100);
  session = none;
  session_id = "";
  quic_conn = none;
  ended = [];
}

-- One session that ends, and one whose setup fails.
abbrev two_tries : List Try
two_tries =
    record { now = 5; conn = 1; setup = works }
    ∷ record { now = 9; conn = 2; setup = record works { run = some (foreign 4) } }
    ∷ []

other_name : remote 1 ≢ by_name.addr
other_name e = ground (arith, eq_iff (remote 1) by_name.addr)

connect_leaks_example :
    (connect remote 12 (ok 3) works (visits remote two_tries by_name)).1
    ≡ err (wrap "failed to get QUIC connection from pool" (sentinel pool_full))
connect_leaks_example =
    connect_leaks remote 1 100 12 (ok 3) works two_tries by_name refl (omega arith) (omega arith)
      (other_name, (other_name, tt))

abbrev lent : Pooled
lent = record { conn = 1; addr = "127.0.0.1:8080"; created_at = 5; last_used_at = 5; in_use = true }

abbrev lending_pool : Pool
lending_pool = record (new_pool 2 100) { connections = ("127.0.0.1:8080", lent ∷ []) ∷ [] }

-- A client in a session.
abbrev in_session : Client
in_session = record by_name {
  addr = "127.0.0.1:8080";
  pool = lending_pool;
  session = some 3;
  session_id = "s1";
  quic_conn = some 1;
}

one_lent : OneLent 1 5 in_session
unfolding lookup new_pool
one_lent = record {
  entry = lent;
  only = refl;
  its_conn = refl;
  lent = refl;
  last_used = refl;
  is_open = refl;
}

session_closed_relends_example :
    let cl' = session_closed remote 1 in_session in
    (cl'.ended ≡ 1 ∷ []) × ((get 50 (ok 8) cl'.addr cl'.pool).1 ≡ ok 1)
session_closed_relends_example =
    session_closed_relends remote 1 5 50 (ok 8) in_session one_lent refl
      (unfold new_pool in omega arith)
