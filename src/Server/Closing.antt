-- ===== src/Server/Closing.antt =====
-- What `Close` leaves of a server, and a setup that outlasts it.
use mcp_moqt_transport.Base.{
  ℕ, ◌≡◌, refl, ap, ◌∙◌, Bool, true, false, Option, none, some, List, [], ◌∷◌, ◌++◌, String, map,
  count_if, count_if-append, ◌+◌, arith, Option-cases, Bool-cases, inl, inr, All,
}
use mcp_moqt_transport.Base.Map.{
  lookup, insert, nat_key, string_key, sum_by, sum_by-erase, measure_at, IsUnique, erase-IsUnique,
}
use mcp_moqt_transport.Errors.{Error, ok, text}
use mcp_moqt_transport.Metrics.{Metrics}
use mcp_moqt_transport.Pool.Sweep
use mcp_moqt_transport.Data
use mcp_moqt_transport.Data.{Handler}
use mcp_moqt_transport.Data.Closing.{close-closed}
use mcp_moqt_transport.Server.{
  Server, Conn, Incoming, listen, setup_connection, register, close, stop_metrics, close_handlers,
  close_sessions, handlers_of, on_close, remove_connection, close_conn, close_each,
}
use mcp_moqt_transport.Server.Mirrors.{close_each-Ends, close_conn_gone, close_conn_open}
use mcp_moqt_transport.Server.Live.{open_at}

abbrev pub IsClosed : {M : Type 0} → Handler M → Type 0
IsClosed h = h.closed ≡ true

All-append : {A : Type 0} (P : A → Type 0) (xs ys : List A) → All P xs → All P ys → All P (xs ++ ys)
All-append P [] ys a b = b
All-append P (x ∷ xs) ys a b = (a.0, All-append P xs ys a.1 b)

module _ {M : Type 0} where
  close_handlers-IsClosed : (hs : List (Handler M)) → All IsClosed (close_handlers hs)
  close_handlers-IsClosed [] = tt
  close_handlers-IsClosed (h ∷ hs) = (close-closed h, close_handlers-IsClosed hs)

  close_sessions-IsClosed : (m : List (String × List (Handler M))) → All IsClosed (close_sessions m)
  unfolding close_sessions
  close_sessions-IsClosed [] = tt
  close_sessions-IsClosed ((id, hs) ∷ m) =
      All-append IsClosed (close_handlers hs) (close_sessions m) (close_handlers-IsClosed hs)
        (close_sessions-IsClosed m)

  -- How many of a session's handlers pass the test once they are closed.
  abbrev pub closed_count : (Handler M → Bool) → List (Handler M) → ℕ
  closed_count test hs = count_if test (map Data.close hs)

  count_if-handlers_of :
      (test : Handler M → Bool) (o : Option (List (Handler M)))
      → count_if test (close_handlers (handlers_of o)) ≡ measure_at (closed_count test) o
  count_if-handlers_of test none = refl
  count_if-handlers_of test (some hs) = refl

  count_if-close_sessions :
      (test : Handler M → Bool) (m : List (String × List (Handler M)))
      → count_if test (close_sessions m) ≡ sum_by (closed_count test) m
  unfolding close_sessions
  count_if-close_sessions test [] = refl
  count_if-close_sessions test ((id, hs) ∷ m) = omega (
    arith,
    count_if-append test (close_handlers hs) (close_sessions m),
    count_if-close_sessions test m,
  )

  -- What closing connections keeps: the closed flag, the pool, and each handler, registered or closed.
  record Keeps (s s' : Server M) : Type 0 where
    closed : s'.closed ≡ s.closed
    unique : IsUnique s.session_handlers → IsUnique s'.session_handlers
    handlers :
        (test : Handler M → Bool)
        → IsUnique s.session_handlers
        → count_if test s'.retired + sum_by (closed_count test) s'.session_handlers
          ≡ count_if test s.retired + sum_by (closed_count test) s.session_handlers
    all_closed : All IsClosed s.retired → All IsClosed s'.retired

  on_close-Keeps :
      (a : ℕ) (id : String) (cs : List (ℕ × Conn)) (s : Server M)
      → Keeps s (on_close a id (record s { conns = cs }))
  unfolding on_close remove_connection
  on_close-Keeps a id cs s =
      let gone = handlers_of (lookup id s.session_handlers) in
      record {
        closed = refl;
        unique = λ u. erase-IsUnique id s.session_handlers u;
        handlers = λ test u. omega (
          arith,
          count_if-append test (close_handlers gone) s.retired,
          count_if-handlers_of test (lookup id s.session_handlers),
          sum_by-erase (closed_count test) id s.session_handlers u,
        );
        all_closed = λ c.
            All-append IsClosed (close_handlers gone) s.retired (close_handlers-IsClosed gone) c;
      }

  close_conn-Keeps : (a : ℕ) (s : Server M) → Keeps s (close_conn a s)
  close_conn-Keeps a s = elim (Option-cases (lookup a s.conns)) [
    | inl h ↦ gone (ap open_at h)
    | inr (k, h) ↦ elim (Bool-cases k.closed) [
      | inl c ↦ gone (simp (h, c) refl)
      | inr c ↦
          rw (close_conn_open a s k h c)
            (on_close-Keeps a k.session_id (insert a (record k { closed = true }) s.conns) s)
    ]
  ]
    where
      gone : open_at (lookup a s.conns) ≡ none → Keeps s (close_conn a s)
      gone h = rw (close_conn_gone a s h) (record {
        closed = refl;
        unique = λ u. u;
        handlers = λ test u. refl;
        all_closed = λ c. c;
      })

  close_each-Keeps : (l : List (ℕ × Bool)) (s : Server M) → Keeps s (close_each l s)
  unfolding close_each
  close_each-Keeps [] s = record {
    closed = refl;
    unique = λ u. u;
    handlers = λ test u. refl;
    all_closed = λ c. c;
  }
  close_each-Keeps ((a, x) ∷ l) s =
      let v = close_conn-Keeps a s in
      let w = close_each-Keeps l (close_conn a s) in
      record {
        closed = w.closed ∙ v.closed;
        unique = λ u. w.unique (v.unique u);
        handlers = λ test u. w.handlers test (v.unique u) ∙ v.handlers test u;
        all_closed = λ c. w.all_closed (v.all_closed c);
      }

  module _ (s : Server M) (o : s.closed ≡ false) where
    abbrev begun : Server M
    begun = record s { closed = true; connections = [] }

    abbrev emptied : Server M
    emptied = close_each s.connections begun

    close_open : close s ≡ record emptied {
      session_handlers = [];
      retired = close_sessions emptied.session_handlers ++ emptied.retired;
      listening = false;
      metrics_server = stop_metrics emptied.metrics_server;
      pool = Sweep.close emptied.pool;
    }
    unfolding close
    close_open = simp o refl

    -- The first `Close` of a server whose sessions have one id each and whose former handlers are closed
    -- closes every control connection that it holds, and every data handler of its sessions: it leaves
    -- no connection, no session and no listener, every handler that it let go of is closed, and those
    -- are the former ones and each registered handler, closed, exactly once: of those that pass a test,
    -- whatever the test is, there are as many.
    pub close_ends_all :
        IsUnique s.session_handlers
        → All IsClosed s.retired
        → ((close s).closed ≡ true)
          × ((close s).connections ≡ [])
          × ((close s).session_handlers ≡ [])
          × ((close s).listening ≡ false)
          × ((a : ℕ) (x : Bool)
              → lookup a s.connections ≡ some x
              → open_at (lookup a (close s).conns) ≡ none)
          × All IsClosed (close s).retired
          × ((test : Handler M → Bool)
              → count_if test (close s).retired
                ≡ count_if test s.retired + sum_by (closed_count test) s.session_handlers)
    close_ends_all u c =
        let v = close_each-Keeps s.connections begun in
        let w = close_each-Ends s.connections begun in
        rw close_open (
          v.closed,
          w.none_left refl,
          refl,
          refl,
          λ a x h. w.are_open a ∙ rw h refl,
          All-append IsClosed (close_sessions emptied.session_handlers) emptied.retired
              (close_sessions-IsClosed emptied.session_handlers) (v.all_closed c),
          λ test. omega (
            arith,
            count_if-append test (close_sessions emptied.session_handlers) emptied.retired,
            count_if-close_sessions test emptied.session_handlers,
            v.handlers test u,
          ),
        )

  closed-close : (s : Server M) → (close s).closed ≡ true
  unfolding close
  closed-close s = elim (Bool-cases s.closed) [
    | inl h ↦ simp h refl
    | inr h ↦ rw (close_open s h) (close_each-Keeps s.connections (begun s h)).closed
  ]

  setup_connection-register :
      (metrics : Metrics) (i : Incoming) (s : Server M)
      → i.run ≡ none
      → i.subscribe ≡ none
      → setup_connection metrics i s ≡ (register i.session_id metrics s, ok s.next)
  unfolding setup_connection
  setup_connection-register metrics i s h k = rw (h, k, setup_connection) refl

  -- A setup that began before the server's `Close` and ends after it succeeds: the closed server has a
  -- connection, which another `Close` leaves open, while `Listen` refuses with its error.
  setup_connection_outlasts-close :
      (metrics : Metrics) (i : Incoming) (bound : Option Error) (s : Server M)
      → i.run ≡ none
      → i.subscribe ≡ none
      → let (s', r) = setup_connection metrics i (close s) in
        (r ≡ ok (close s).next)
        × (lookup (close s).next (close s').connections ≡ some true)
        × ((listen bound s').1 ≡ some (text "server transport is closed"))
  unfolding register listen insert lookup
  setup_connection_outlasts-close metrics i bound s h k =
      let s' : Server M = register i.session_id metrics (close s) in
      let again : close s' ≡ s' = unfold close in simp (closed-close s) refl in
      rw (setup_connection-register metrics i (close s) h k)
        (refl, rw again (ground arith), simp (closed-close s) refl)
