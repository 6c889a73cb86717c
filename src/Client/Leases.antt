-- ===== src/Client/Leases.antt =====
-- What becomes of a connection that the client borrowed from its pool.
use mcp_moqt_transport.Base.{
  ℕ, ◌-◌, ◌≤◌, ◌≡◌, refl, ap, ◌∙◌, true, false, Option, none, some, [], ◌∷◌, String, arith,
}
use mcp_moqt_transport.Base.Map.{lookup, string_key, lookup-insert_self}
use mcp_moqt_transport.Errors.{Error, Result, ok, err, text}
use mcp_moqt_transport.Metrics.{Metrics}
use mcp_moqt_transport.Data.{DataTrackType}
use mcp_moqt_transport.Pool.{
  Pool, Pooled, get, get_locked, put, put_locked, give_back, is_expired, checkout, cached,
  mark_idle,
}
use mcp_moqt_transport.Client.{Client, session_closed, on_close, subscribe_data_track}

-- Under its address the pool holds one connection, which is lent and was last used at a known time.
pub record OneLent (c : ℕ) (used : ℕ) (cl : Client) : Type 0 where
  pub entry : Pooled
  pub only : lookup cl.addr cl.pool.connections ≡ some (entry ∷ [])
  pub its_conn : entry.conn ≡ c
  pub lent : entry.in_use ≡ true
  pub last_used : entry.last_used_at ≡ used
  pub is_open : cl.pool.closed ≡ false

module _ (remote_addr : ℕ → String) (c : ℕ) (addr : String) (e : Pooled) (p : Pool)
    (only : lookup addr p.connections ≡ some (e ∷ [])) (r : remote_addr c ≡ addr)
    (o : p.closed ≡ false) where
  put_one :
      e.conn ≡ c
      → (lookup addr (put remote_addr c p).connections ≡ some (mark_idle e ∷ []))
        × ((put remote_addr c p).closed ≡ false)
        × ((put remote_addr c p).max_idle_time ≡ p.max_idle_time)
  unfolding put put_locked give_back
  put_one k =
      ground (arith, r, only, o, k, lookup-insert_self addr (mark_idle e ∷ []) p.connections)

  get_idle :
      (now : ℕ) (dialed : Result ℕ)
      → e.in_use ≡ false
      → now - e.last_used_at ≤ p.max_idle_time
      → (get now dialed addr p).1 ≡ ok e.conn
  unfolding get get_locked cached checkout is_expired
  get_idle now dialed free h = ground (arith, o, only, free)

-- A client with an open pool, which holds under the client's address one connection, lent out, and a
-- connection that reports this address: when its session ends it has been closed and goes back to the
-- pool all the same, and until it has been idle too long the client's next `Get` hands out the closed
-- connection.
pub session_closed_relends :
    (remote_addr : ℕ → String) (c used now : ℕ) (dialed : Result ℕ) (cl : Client)
    → OneLent c used cl
    → remote_addr c ≡ cl.addr
    → now - used ≤ cl.pool.max_idle_time
    → let cl' = session_closed remote_addr c cl in
      (cl'.ended ≡ c ∷ cl.ended) × ((get now dialed cl'.addr cl'.pool).1 ≡ ok c)
unfolding session_closed on_close mark_idle
session_closed_relends remote_addr c used now dialed cl v r h =
    let (only, o, idle) =
      put_one remote_addr c cl.addr v.entry cl.pool v.only r v.is_open v.its_conn in
    let fresh : now - v.entry.last_used_at ≤ (put remote_addr c cl.pool).max_idle_time =
      omega (arith, v.last_used, idle, h) in
    (
      refl,
      get_idle remote_addr c cl.addr (mark_idle v.entry) (put remote_addr c cl.pool) only r o now
            dialed refl fresh
          ∙ ap ok v.its_conn,
    )

-- The end of any of a client's sessions makes the client forget the newest one: it has no session any
-- more, and attaches no data track, although that session may still be open.
session_closed_forgets :
    {M : Type 0} (remote_addr : ℕ → String) (c : ℕ) (metrics : Metrics) (type : DataTrackType)
    (track : String) (callback : M → Option Error) (remote : Option Error) (cl : Client)
    → let cl' = session_closed remote_addr c cl in
      (cl'.session ≡ none)
      × (subscribe_data_track metrics type track callback remote cl'
          ≡ err (text "client session not connected"))
unfolding session_closed on_close subscribe_data_track
session_closed_forgets remote_addr c metrics type track callback remote cl = (refl, refl)
