-- ===== src/Client/Leaks.antt =====
-- A client that dials by a name. The pool files a connection under the address that was dialed, and
-- `Put` looks for it under the address that the connection reports, which is numeric.
use mathlib.Core.Path.{subst}
use mcp_moqt_transport.Base.{
  ℕ, suc, ◌+◌, ◌≤◌, ◌<◌, ◌≡◌, ◌≢◌, refl, sym, ap, ◌∙◌, none, some, List, [], ◌∷◌, String, length,
  arith, All,
}
use mcp_moqt_transport.Base.Word.{two_63}
use mcp_moqt_transport.Base.Map.{lookup, string_key}
use mcp_moqt_transport.Errors.{Error, Result, ok, err, sentinel, pool_full, wrap}
use mcp_moqt_transport.Pool.{Pool, new_pool, set_tls_config, get, put, on_dialed, miss, zero_stats}
use mcp_moqt_transport.Client.{Client, Setup, connect, set_up, session_closed, on_close}
use mcp_moqt_transport.Client.Lent.{
  Leaked, put_unknown, get_with_room, get_when_full, on_dialed-Leaked,
}

-- One try: `Connect`, whose dial gives `c`, and once it succeeded, the end of its session.
pub record Try : Type 0 where
  pub now : ℕ
  pub conn : ℕ
  pub setup : Setup

module _ (remote_addr : ℕ → String) where
  abbrev pub over : ℕ → Client × Result (ℕ × String) → Client
  over c (cl, err e) = cl
  over c (cl, ok x) = session_closed remote_addr c cl

  abbrev pub visit : Try → Client → Client
  visit t cl = over t.conn (connect remote_addr t.now (ok t.conn) t.setup cl)

  abbrev pub visits : List Try → Client → Client
  visits [] cl = cl
  visits (t ∷ ts) cl = visits ts (visit t cl)

  set_up-over :
      (c : ℕ) (s : Setup) (cl : Client)
      → put remote_addr c cl.pool ≡ cl.pool
      → ((over c (set_up remote_addr c s cl)).pool ≡ cl.pool)
        × ((over c (set_up remote_addr c s cl)).addr ≡ cl.addr)
  unfolding set_up session_closed on_close
  set_up-over c s cl h = ground (arith, h)

  connect_got :
      (now c : ℕ) (dialed : Result ℕ) (s : Setup) (p : Pool) (cl : Client)
      → get now dialed cl.addr cl.pool ≡ (p, ok c)
      → connect remote_addr now dialed s cl ≡ set_up remote_addr c s (record cl { pool = p })
  unfolding connect
  connect_got now c dialed s p cl h =
      rw (h, connect) (ap (λ r. set_up remote_addr c s (record cl { pool = r.0 })) h)

  connect_refused :
      (now : ℕ) (dialed : Result ℕ) (s : Setup) (p : Pool) (e : Error) (cl : Client)
      → get now dialed cl.addr cl.pool ≡ (p, err e)
      → (connect remote_addr now dialed s cl).1
        ≡ err (wrap "failed to get QUIC connection from pool" e)
  unfolding connect
  connect_refused now dialed s p e cl h = rw (h, connect) refl

  -- The connection that a try dials reports another address than the one dialed.
  abbrev pub ReportsOther : String → Try → Type 0
  ReportsOther addr t = remote_addr t.conn ≢ addr

  visit-Leaked :
      (n : ℕ) (t : Try) (cl : Client)
      → n < cl.pool.max_pool_size
      → cl.pool.max_pool_size < two_63
      → ReportsOther cl.addr t
      → Leaked n cl.addr cl.pool
      → ((visit t cl).addr ≡ cl.addr)
        × ((visit t cl).pool.max_pool_size ≡ cl.pool.max_pool_size)
        × Leaked (suc n) cl.addr (visit t cl).pool
  visit-Leaked n t cl l m d v =
      let p = on_dialed t.now cl.addr t.conn (miss cl.pool) in
      let w : Leaked (suc n) cl.addr p =
        on_dialed-Leaked t.now t.conn n cl.addr cl.pool (omega (arith, l, m)) v in
      let same : put remote_addr t.conn p ≡ p =
        put_unknown remote_addr t.conn p w.is_open (w.only (remote_addr t.conn) d) in
      let (q, a) = set_up-over t.conn t.setup (record cl { pool = p }) same in
      let got =
        connect_got t.now t.conn (ok t.conn) t.setup p cl
          (get_with_room t.now t.conn n cl.addr cl.pool l m v) in
      rw (got, q, a) (refl, unfold on_dialed miss in refl, w)

  visits-Leaked :
      (ts : List Try) (n : ℕ) (cl : Client)
      → n + length ts ≤ cl.pool.max_pool_size
      → cl.pool.max_pool_size < two_63
      → All (ReportsOther cl.addr) ts
      → Leaked n cl.addr cl.pool
      → ((visits ts cl).addr ≡ cl.addr)
        × ((visits ts cl).pool.max_pool_size ≡ cl.pool.max_pool_size)
        × Leaked (n + length ts) cl.addr (visits ts cl).pool
  visits-Leaked [] n cl l m d v =
      (refl, refl, subst (λ k. Leaked k cl.addr cl.pool) (omega arith) v)
  visits-Leaked (t ∷ ts) n cl l m d v =
      let (a, z, w) = visit-Leaked n t cl (omega (arith, l)) m d.0 v in
      let cl' = visit t cl in
      let (a', z', w') =
        visits-Leaked ts (suc n) cl' (omega (arith, l, z)) (omega (arith, m, z))
          (subst (λ b. All (ReportsOther b) ts) (sym a) d.1)
          (subst (λ b. Leaked (suc n) b cl'.pool) (sym a) w) in
      (
        a' ∙ a,
        z' ∙ z,
        subst (λ k. Leaked k cl.addr (visits ts cl').pool) (omega arith)
            (subst (λ b. Leaked (suc n + length ts) b (visits ts cl').pool) a w'),
      )

  -- A client that dials a host name, or any address that the connection does not report, loses every
  -- connection that it borrows: after as many tries as the pool's size, whether their setup failed or
  -- their session was closed, `Connect` fails because the pool is full, whatever a dial would give.
  pub connect_leaks :
      (tls idle now : ℕ) (dialed : Result ℕ) (s : Setup) (ts : List Try) (cl : Client)
      → cl.pool ≡ set_tls_config (some tls) none (new_pool (length ts) idle)
      → 0 < length ts
      → length ts < two_63
      → All (ReportsOther cl.addr) ts
      → (connect remote_addr now dialed s (visits ts cl)).1
        ≡ err (wrap "failed to get QUIC connection from pool" (sentinel pool_full))
  unfolding new_pool set_tls_config lookup
  connect_leaks tls idle now dialed s ts cl h z m d =
      let start : Leaked 0 cl.addr cl.pool = rw h (record {
        is_open = refl;
        tls = tls;
        has_tls = refl;
        total = unfold zero_stats in refl;
        all_used = tt;
        only = λ b n. refl;
      }) in
      let size : cl.pool.max_pool_size ≡ length ts = rw h refl in
      let (a, z', w) =
        visits-Leaked ts 0 cl (omega (arith, size)) (omega (arith, size, m)) d start in
      let full : length ts ≡ (visits ts cl).pool.max_pool_size = sym (z' ∙ size) in
      connect_refused now dialed s (visits ts cl).pool (sentinel pool_full) (visits ts cl) (
        get_when_full now (length ts) dialed (visits ts cl).addr (visits ts cl).pool full z m (
          subst (λ b. Leaked (length ts) b (visits ts cl).pool) (sym a)
            (subst (λ k. Leaked k cl.addr (visits ts cl).pool) (omega arith) w)))
