-- ===== src/Examples/Servers.antt =====
-- Runs of the server transport and of the RTT tool.
use mcp_moqt_transport.Base.{str_eq, eq_iff, ◌≢◌}
use mcp_moqt_transport.Base.{
  ℕ, ◌+◌, ◌≡◌, refl, Bool, true, false, none, some, List, [], ◌∷◌, String, if◌then◌else◌, take,
  length, All, arith, count_if,
}
use mcp_moqt_transport.Base.Map.{lookup, nat_key, string_key, sum_by, IsUnique}
use mcp_moqt_transport.Errors.{Result, foreign, ok, err}
use mcp_moqt_transport.Metrics.{Metrics, new_metrics}
use mcp_moqt_transport.Pool.{new_pool}
use mcp_moqt_transport.Data.{Handler, resources, new_handler}
use mcp_moqt_transport.Session.{default_data_track_handlers}
use mcp_moqt_transport.Options.{TransportConfig, server, defaults}
use mcp_moqt_transport.Server.{Server, Incoming, close}
use mcp_moqt_transport.Server.Serving.{active_connections}
use mcp_moqt_transport.Server.Serving.{Round, serve_rounds}
use mcp_moqt_transport.Server.Serving.Rounds.{
  accepts_of, conns_of, pushed, NotDone, Ending, serve_rounds-run,
}
use mcp_moqt_transport.Server.Live.{
  Event, accepts, sets_up, ends, shuts, run, mark, has_id, NewIds, open_at,
}
use mcp_moqt_transport.Server.Refinement.{run-Refines}
use mcp_moqt_transport.Server.Closing.{IsClosed, closed_count, close_ends_all}
use mcp_moqt_transport.SessionIds.{AllDiffer, generate_all, starved, generate_all-AllDiffer}
use mcp_moqt_transport.Data.{accepted}
use mcp_moqt_transport.Tracks.{Bytes}
use mcp_moqt_transport.Client.Decoding.{Json}
use mcp_moqt_transport.Client.{Setup, discover_session_id}
use mcp_moqt_transport.Discovery.{
  Writer, names, response_of, handle, sessions_fetch, received, discover_session_id-handle,
}

abbrev quiet : Metrics
quiet = new_metrics 0

abbrev incoming : ℕ → String → Incoming
incoming c id = record { quic_conn = c; session_id = id; run = none; subscribe = none }

abbrev settings : TransportConfig
settings = defaults server

-- A server of messages that are numbers, whose listener runs.
abbrev listening_server : Server ℕ
listening_server = record {
  cfg = settings;
  pool = new_pool 10 30000000000;
  connections = [];
  session_handlers = [];
  listening = true;
  closed = false;
  metrics_addr = "";
  metrics_server = none;
  conns = [];
  retired = [];
  refused = [];
  next = 0;
}

-- Two sessions are accepted, the first one ends, the server is closed, and a late setup ends.
abbrev evening : List Event
evening =
    accepts (ok (incoming 5 "a"))
    ∷ accepts (ok (incoming 6 "b"))
    ∷ ends 0
    ∷ accepts (err (foreign 3))
    ∷ shuts
    ∷ sets_up (incoming 7 "c")
    ∷ []

evening-NewIds : NewIds evening []
evening-NewIds = (refl, (refl, (refl, tt)))

run-Refines_example :
    let (s', m) = run quiet evening listening_server [] in
    (s'.connections ≡ mark m)
    × (active_connections s' ≡ length m)
    × ((id : String)
        → lookup id s'.session_handlers
          ≡ (if has_id id m then some (default_data_track_handlers id quiet) else none))
run-Refines_example = run-Refines quiet evening listening_server refl refl refl evening-NewIds

-- A server with one live session, whose control connection is at address 0.
abbrev busy_server : Server ℕ
busy_server = record listening_server {
  connections = (0, true) ∷ [];
  session_handlers = ("a", new_handler "a" resources quiet ∷ []) ∷ [];
  conns = (0, record { session_id = "a"; closed = false }) ∷ [];
  next = 1;
}

sessions-IsUnique : IsUnique busy_server.session_handlers
unfolding lookup
sessions-IsUnique = (refl, tt)

close_ends_all_example :
    ((close busy_server).closed ≡ true)
    × ((close busy_server).connections ≡ [])
    × ((close busy_server).session_handlers ≡ [])
    × ((close busy_server).listening ≡ false)
    × ((a : ℕ) (x : Bool)
        → lookup a busy_server.connections ≡ some x
        → open_at (lookup a (close busy_server).conns) ≡ none)
    × All IsClosed (close busy_server).retired
    × ((test : Handler ℕ → Bool)
        → count_if test (close busy_server).retired
          ≡ count_if test busy_server.retired
            + sum_by (closed_count test) busy_server.session_handlers)
close_ends_all_example = close_ends_all busy_server refl sessions-IsUnique tt

-- Two connections are accepted, and a third call of `Accept` fails.
abbrev rounds : List Round
rounds =
    record { done_first = false; accepted = ok (incoming 5 "a"); done_after = false }
    ∷ record { done_first = false; accepted = ok (incoming 6 "b"); done_after = false }
    ∷ record { done_first = false; accepted = err (foreign 3); done_after = false }
    ∷ []

serve_rounds-run_example :
    let (s', (handled, e)) = serve_rounds (foreign 1) quiet rounds listening_server in
    (k : ℕ) × ((run quiet (accepts_of (take k rounds)) listening_server []).0 ≡ s')
    × (conns_of (run quiet (accepts_of (take k rounds)) listening_server []).1 ≡ pushed handled [])
    × All NotDone (take k rounds)
    × Ending
        (foreign 1)
        quiet
        rounds
        k
        (run quiet (accepts_of (take (length handled) rounds)) listening_server []).0
        (length handled)
        e
serve_rounds-run_example = serve_rounds-run (foreign 1) quiet rounds listening_server []

-- The bytes themselves stand for their hexadecimal digits.
abbrev as_bytes : List ℕ → List ℕ
as_bytes xs = xs

generate_all-AllDiffer_example :
    AllDiffer (generate_all as_bytes (starved (foreign 2) (7 ∷ 7 ∷ 7 ∷ [])) 40)
generate_all-AllDiffer_example =
    generate_all-AllDiffer as_bytes (λ xs ys e. e) (foreign 2) (7 ∷ 7 ∷ 7 ∷ []) 40 (omega arith)

-- The response is encoded as one byte, and the decoder knows its value.
abbrev one_byte : Json → Result Bytes
one_byte j = ok (7 ∷ [])

abbrev read_response : Bytes → Result Json
read_response bytes = ok (response_of "s7")

abbrev fetch_writer : Writer
fetch_writer = record { is_publisher = true; accept = none; stream = none }

abbrev discovering : Setup
discovering = record {
  session = 3;
  run = none;
  fetch = none;
  object = err (foreign 5);
  parse = read_response;
  matches = str_eq;
  mismatch = foreign 6;
  subscribe = none;
}

abbrev each_refl :
    (key : String) (tags : List String) → All (λ tag. str_eq key tag ≡ str_eq key tag) tags
each_refl key [] = tt
each_refl key (tag ∷ tags) = (refl, each_refl key tags)

str_eq-IsExact :
    (keys tags : List String) → All (λ key. All (λ tag. str_eq key tag ≡ str_eq key tag) tags) keys
str_eq-IsExact [] tags = tt
str_eq-IsExact (key ∷ keys) tags = (each_refl key tags, str_eq-IsExact keys tags)

abbrev its_id : String
its_id = "s7"

not_empty : its_id ≢ ""
not_empty e = ground (arith, eq_iff its_id "")

discover_session_id-handle_example :
    let (answer, written) = handle one_byte "s7" fetch_writer sessions_fetch in
    (answer ≡ accepted)
    × (discover_session_id (record discovering { object = received written }) ≡ ok "s7")
discover_session_id-handle_example =
    discover_session_id-handle one_byte "s7" (7 ∷ []) fetch_writer discovering (λ b h. refl)
      (str_eq-IsExact names names) refl not_empty refl refl refl refl
