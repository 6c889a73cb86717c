-- ===== src/Pool/Sweep/Counts.antt =====
-- The pool's counters over `CleanupExpired` and `Close`, and over every history of the pool.
use mcp_moqt_transport.Base.{
  ℕ, suc, ◌+◌, ◌%◌, ◌≡◌, refl, ◌⊎◌, inl, inr, true, false, none, List, [], ◌∷◌, String,
  if◌then◌else◌, length, count_if, arith, Bool-cases,
}
use mcp_moqt_transport.Base.Word.{two_64}
use mcp_moqt_transport.Base.Map.{lookup, string_key, IsUnique, sum_by}
use mcp_moqt_transport.Pool.{Pooled, Pool, is_expired, new_pool, put, set_tls_config}
use mcp_moqt_transport.Pool.Sweep.{
  Ledger, expire_one, sweep, sweep_all, cleanup_expired, close_locked, close, Event, gets,
  get_races, puts, put_races, cleanups, closes, sets_tls, step, run,
}
use mcp_moqt_transport.Pool.Accounting.{
  used, unused, Inv, get_locked-Inv, get-Inv, parked, put_locked-Inv,
}

-- The inner loop of the cleanup drops idle entries only, and lowers the counters by their number:
-- `n` and `m` stand for the entries of the other addresses.
sweep_counts :
    (now max_idle : ℕ) (conns : List Pooled) (l : Ledger) (n m : ℕ)
    → l.stats.total ≡ (n + length conns) % two_64
    → l.stats.idle ≡ (m + count_if unused conns) % two_64
    → let (active, l') = sweep now max_idle conns l in
      (count_if used active ≡ count_if used conns)
      × (l'.stats.total ≡ (n + length active) % two_64)
      × (l'.stats.idle ≡ (m + count_if unused active) % two_64)
      × (l'.stats.active ≡ l.stats.active)
unfolding sweep
sweep_counts now max_idle [] l n m t i = ground arith
sweep_counts now max_idle (pc ∷ rest) l n m t i = elim (Bool-cases (is_expired now max_idle pc)) [
  | inl e ↦ ground (arith, sweep_counts now max_idle rest (expire_one pc l) n m)
  | inr e ↦
      ground (arith, sweep_counts now max_idle rest l (suc n) (m + (if pc.in_use then 0 else 1)))
]

lookup-sweep_all :
    (now max_idle : ℕ) (m : List (String × List Pooled)) (l : Ledger) (addr : String)
    → lookup addr m ≡ none
    → lookup addr (sweep_all now max_idle m l).0 ≡ none
unfolding sweep_all lookup
lookup-sweep_all now max_idle [] l addr h = refl
lookup-sweep_all now max_idle ((a, conns) ∷ m) l addr h =
    ground (arith, lookup-sweep_all now max_idle m (sweep now max_idle conns l).1 addr)

sweep_all-IsUnique :
    (now max_idle : ℕ) (m : List (String × List Pooled)) (l : Ledger)
    → IsUnique m
    → IsUnique (sweep_all now max_idle m l).0
unfolding sweep_all
sweep_all-IsUnique now max_idle [] l u = tt
sweep_all-IsUnique now max_idle ((a, conns) ∷ m) l u =
    let l1 = (sweep now max_idle conns l).1 in
    ground
      (arith, sweep_all-IsUnique now max_idle m l1 u.1, lookup-sweep_all now max_idle m l1 a u.0)

sweep_all_counts :
    (now max_idle : ℕ) (m : List (String × List Pooled)) (l : Ledger) (n k : ℕ)
    → l.stats.total ≡ (n + sum_by length m) % two_64
    → l.stats.idle ≡ (k + sum_by (count_if unused) m) % two_64
    → let (m', l') = sweep_all now max_idle m l in
      (sum_by (count_if used) m' ≡ sum_by (count_if used) m)
      × (l'.stats.total ≡ (n + sum_by length m') % two_64)
      × (l'.stats.idle ≡ (k + sum_by (count_if unused) m') % two_64)
      × (l'.stats.active ≡ l.stats.active)
unfolding sweep_all
sweep_all_counts now max_idle [] l n k t i = ground arith
sweep_all_counts now max_idle ((a, conns) ∷ m) l n k t i =
    let (active, l1) = sweep now max_idle conns l in
    let here =
      sweep_counts now max_idle conns l (n + sum_by length m) (k + sum_by (count_if unused) m)
        (omega arith) (omega arith) in
    let rest =
      sweep_all_counts now max_idle m l1 (n + length active) (k + count_if unused active)
        (omega arith) (omega arith) in
    ground (arith, here, rest)

-- The cleanup keeps the counters exact.
pub cleanup_expired-Inv : (now : ℕ) (p : Pool) → Inv p → Inv (cleanup_expired now p)
unfolding cleanup_expired
cleanup_expired-Inv now p v =
    let l : Ledger = record { stats = p.stats; closes = p.closes } in
    let counts =
      sweep_all_counts now p.max_idle_time p.connections l 0 0 (omega (arith, v.total))
        (omega (arith, v.idle)) in
    record {
      unique = sweep_all-IsUnique now p.max_idle_time p.connections l v.unique;
      total = omega (arith, counts);
      active = omega (arith, counts, v.active);
      idle = omega (arith, counts);
    }

close_locked-Inv : (p : Pool) → Inv (close_locked p)
unfolding close_locked
close_locked-Inv p = record { unique = tt; total = refl; active = refl; idle = refl }

close-Inv : (p : Pool) → Inv p → Inv (close p)
unfolding close
close-Inv p v = ground (arith, close_locked-Inv (record p { closed = true; done = true }))

-- `Put` is called for connections that are not idle in the pool already.
abbrev pub Allowed : (ℕ → String) → Event → Pool → Type 0
Allowed remote_addr (puts c) p = (p.closed ≡ true) ⊎ (parked remote_addr c p ≡ false)
Allowed remote_addr (put_races c) p = parked remote_addr c p ≡ false
Allowed remote_addr _ p = Unit

abbrev pub AllAllowed : (ℕ → String) → List Event → Pool → Type 0
AllAllowed remote_addr [] p = Unit
AllAllowed remote_addr (e ∷ es) p =
    Allowed remote_addr e p × AllAllowed remote_addr es (step remote_addr e p)

put-Inv :
    (remote_addr : ℕ → String) (c : ℕ) (p : Pool)
    → Inv p
    → (p.closed ≡ true) ⊎ (parked remote_addr c p ≡ false)
    → Inv (put remote_addr c p)
unfolding put
put-Inv remote_addr c p v (inl e) = ground arith
put-Inv remote_addr c p v (inr l) = ground (arith, put_locked-Inv remote_addr c p v l)

pub step-Inv :
    (remote_addr : ℕ → String) (e : Event) (p : Pool)
    → Inv p
    → Allowed remote_addr e p
    → Inv (step remote_addr e p)
unfolding step set_tls_config
step-Inv remote_addr (gets now dialed addr) p v h = get-Inv now dialed addr p v
step-Inv remote_addr (get_races now dialed addr) p v h = get_locked-Inv now dialed addr p v
step-Inv remote_addr (puts c) p v h = put-Inv remote_addr c p v h
step-Inv remote_addr (put_races c) p v h = put_locked-Inv remote_addr c p v h
step-Inv remote_addr (cleanups now) p v h = cleanup_expired-Inv now p v
step-Inv remote_addr closes p v h = close-Inv p v
step-Inv remote_addr (sets_tls client server) p v h = ground arith

run-Inv :
    (remote_addr : ℕ → String) (es : List Event) (p : Pool)
    → Inv p
    → AllAllowed remote_addr es p
    → Inv (run remote_addr es p)
unfolding run
run-Inv remote_addr [] p v h = v
run-Inv remote_addr (e ∷ es) p v h =
    run-Inv remote_addr es (step remote_addr e p) (step-Inv remote_addr e p v h.0) h.1

-- After any history in which `Put` is given no connection that is idle in the pool already (the
-- calls may overtake `Close` after their test of `closed`), `TotalConnections`,
-- `ActiveConnections` and `IdleConnections` are the numbers of pooled entries, of entries in use
-- and of idle entries, modulo 2 ^ 64, and no address stands twice in the map.
pub run-new_pool-Inv :
    (remote_addr : ℕ → String) (es : List Event) (max_pool_size max_idle_time : ℕ)
    → AllAllowed remote_addr es (new_pool max_pool_size max_idle_time)
    → Inv (run remote_addr es (new_pool max_pool_size max_idle_time))
run-new_pool-Inv remote_addr es max_pool_size max_idle_time h =
    run-Inv remote_addr es (new_pool max_pool_size max_idle_time) empty h
  where
    empty : Inv (new_pool max_pool_size max_idle_time)
    empty = unfold new_pool in record { unique = tt; total = refl; active = refl; idle = refl }
