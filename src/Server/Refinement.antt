-- ===== src/Server/Refinement.antt =====
-- The server's two maps against the set of the sessions that are live, as its callers see them: an
-- accepted connection adds one, its `Close` removes it, and the server's `Close` ends them all.
use mcp_moqt_transport.Base.{
  suc, ◌≡◌, refl, sym, ap, ◌∙◌, true, false, Option, none, some, List, [], ◌∷◌, String,
  if◌then◌else◌, arith, Option-cases, Bool-cases, inl, inr, length,
}
use mcp_moqt_transport.Base.Map.{lookup, nat_key, string_key}
use mcp_moqt_transport.Errors.{Error, Result, ok, err, text, wrap}
use mcp_moqt_transport.Metrics.{Metrics}
use mcp_moqt_transport.Session.{default_data_track_handlers}
use mcp_moqt_transport.Server.{Server, Incoming, listen, setup_connection, close}
use mcp_moqt_transport.Server.Serving.{accept, active_connections}
use mcp_moqt_transport.Server.Live.{
  Live, Event, listens, accepts, sets_up, ends, shuts, shut, unchanged, advance, answered, has_id,
  contains, mark, NewIds, step, run,
}
use mcp_moqt_transport.Server.Mirrors.{Mirrors, register-Mirrors, close_conn-Mirrors, close-Mirrors}

length-mark : (m : Live) → length (mark m) ≡ length m
length-mark [] = refl
length-mark ((c, id) ∷ m) = ap suc (length-mark m)

older :
    (i : String) (used : List String) (id : String)
    → contains id (i ∷ used) ≡ false
    → contains id used ≡ false
older i used id h = ground (arith, h)

module _ {M : Type 0} (metrics : Metrics) where
  -- `Mirrors` reads four fields.
  same-Mirrors :
      (s s' : Server M) (m : Live) (used used' : List String)
      → s'.connections ≡ s.connections
      → s'.session_handlers ≡ s.session_handlers
      → s'.conns ≡ s.conns
      → s'.next ≡ s.next
      → ((id : String) → contains id used' ≡ false → contains id used ≡ false)
      → Mirrors metrics s m used
      → Mirrors metrics s' m used'
  same-Mirrors s s' m used used' c h k n u v = record {
    connections = c ∙ v.connections;
    handlers = λ id. rw h (v.handlers id);
    are_open = λ a. rw k (v.are_open a);
    fresh = λ a l. rw k (v.fresh a (rw (sym n) l));
    keys = v.keys;
    ids = v.ids;
    in_use = λ id l. v.in_use id (u id l);
  }

  setup_connection-Mirrors :
      (i : Incoming) (s : Server M) (m : Live) (used : List String)
      → contains i.session_id used ≡ false
      → Mirrors metrics s m used
      → let (s', r) = setup_connection metrics i s in
        Mirrors metrics s' (advance (answered i.session_id r) m) (i.session_id ∷ used)
  unfolding setup_connection advance
  setup_connection-Mirrors i s m used new v = elim (Option-cases i.run) [
    | inr (e, h) ↦
        rw (h, setup_connection)
          (same-Mirrors s _ m used _ refl refl refl refl (older i.session_id used) v)
    | inl h ↦ elim (Option-cases i.subscribe) [
      | inr (e, k) ↦
          rw (h, k, setup_connection)
            (same-Mirrors s _ m used _ refl refl refl refl (older i.session_id used) v)
      | inl k ↦ rw (h, k, setup_connection) (register-Mirrors metrics i.session_id s m used new v)
    ]
  ]

  listen-Mirrors :
      (bound : Option Error) (s : Server M) (m : Live) (used : List String)
      → Mirrors metrics s m used
      → Mirrors metrics (listen bound s).0 m used
  unfolding listen
  listen-Mirrors bound s m used v =
      same-Mirrors s (listen bound s).0 m used used (ground arith) (ground arith) (ground arith)
        (ground arith) (λ id h. h) v

  accept_listening :
      (x : Result Incoming) (s : Server M)
      → s.listening ≡ true
      → accept metrics x s ≡ (elim x [
        | err e ↦ (s, err (wrap "failed to accept" e))
        | ok i ↦ setup_connection metrics i s
      ])
  unfolding accept
  accept_listening x s h = simp h refl

  accept_deaf :
      (x : Result Incoming) (s : Server M)
      → s.listening ≡ false
      → accept metrics x s ≡ (s, err (text "listener not started; call Listen or Connect first"))
  unfolding accept
  accept_deaf x s h = simp h refl

  accept-Mirrors :
      (i : Incoming) (s : Server M) (m : Live) (used : List String)
      → contains i.session_id used ≡ false
      → Mirrors metrics s m used
      → let (s', r) = accept metrics (ok i) s in
        Mirrors metrics s' (advance (answered i.session_id r) m) (i.session_id ∷ used)
  unfolding advance
  accept-Mirrors i s m used new v = elim (Bool-cases s.listening) [
    | inl h ↦ rw (accept_listening (ok i) s h) (setup_connection-Mirrors i s m used new v)
    | inr h ↦ rw (accept_deaf (ok i) s h) (
        same-Mirrors s s m used (i.session_id ∷ used) refl refl refl refl (older i.session_id used)
          v)
  ]

  accept_fails-Mirrors :
      (e : Error) (s : Server M) (m : Live) (used : List String)
      → Mirrors metrics s m used
      → let (s', r) = accept metrics (err e) s in
        Mirrors metrics s' (advance (answered "" r) m) used
  unfolding advance
  accept_fails-Mirrors e s m used v = elim (Bool-cases s.listening) [
    | inl h ↦ rw (accept_listening (err e) s h) v
    | inr h ↦ rw (accept_deaf (err e) s h) v
  ]

  close_again : (s : Server M) → s.closed ≡ true → close s ≡ s
  unfolding close
  close_again s h = simp h refl

  shuts-Mirrors :
      (s : Server M) (m : Live) (used : List String)
      → Mirrors metrics s m used
      → Mirrors metrics (close s) (advance (if s.closed then unchanged else shut) m) used
  unfolding advance
  shuts-Mirrors s m used v = elim (Bool-cases s.closed) [
    | inl h ↦ simp (close_again s h, h) v
    | inr h ↦ simp h (close-Mirrors metrics s m used h v)
  ]

  run-Mirrors :
      (es : List Event) (s : Server M) (m : Live) (used : List String)
      → NewIds es used
      → Mirrors metrics s m used
      → (used' : List String) × Mirrors metrics (run metrics es s m).0 (run metrics es s m).1 used'
  unfolding run step advance
  run-Mirrors [] s m used n v = (used, v)
  run-Mirrors (listens bound ∷ es) s m used n v =
      run-Mirrors es (listen bound s).0 m used n (listen-Mirrors bound s m used v)
  run-Mirrors (accepts (ok i) ∷ es) s m used n v =
      run-Mirrors es _ _ (i.session_id ∷ used) n.1 (accept-Mirrors i s m used n.0 v)
  run-Mirrors (accepts (err e) ∷ es) s m used n v =
      run-Mirrors es _ _ used n (accept_fails-Mirrors e s m used v)
  run-Mirrors (sets_up i ∷ es) s m used n v =
      run-Mirrors es _ _ (i.session_id ∷ used) n.1 (setup_connection-Mirrors i s m used n.0 v)
  run-Mirrors (ends a ∷ es) s m used n v =
      run-Mirrors es _ _ used n (close_conn-Mirrors metrics a s m used v)
  run-Mirrors (shuts ∷ es) s m used n v = run-Mirrors es _ _ used n (shuts-Mirrors s m used v)

  -- A server that no connection was set up on, whose listener may run, and then any sequence of
  -- `Listen`, `Accept`, setups that started earlier, and calls of `Close` on control connections and on
  -- the server, where no session id is generated twice: the server holds exactly the sessions that its
  -- callers know to be live. `connections` are theirs, so `ActiveConnections` counts them, and an id has
  -- data handlers, the ones made for it, exactly when its session is live.
  pub run-Refines :
      (es : List Event) (s : Server M)
      → s.connections ≡ []
      → s.session_handlers ≡ []
      → s.conns ≡ []
      → NewIds es []
      → let (s', m) = run metrics es s [] in
        (s'.connections ≡ mark m)
        × (active_connections s' ≡ length m)
        × ((id : String)
            → lookup id s'.session_handlers
              ≡ (if has_id id m then some (default_data_track_handlers id metrics) else none))
  unfolding lookup active_connections
  run-Refines es s c h k n =
      let start : Mirrors metrics s [] [] = record {
        connections = c;
        handlers = λ id. rw h refl;
        are_open = λ a. rw k refl;
        fresh = λ a l. rw k refl;
        keys = tt;
        ids = tt;
        in_use = λ id l. refl;
      } in
      let (used, v) = run-Mirrors es s [] [] n start in
      (v.connections, rw v.connections (length-mark _), v.handlers)
