-- ===== src/Pool/Sweep/Limits.antt =====
-- What the pool promises its callers: the limit on its size, one holder for each connection, and
-- what `Close` and `CleanupExpired` close.
use mcp_moqt_transport.Base.{
  ℕ, suc, ◌≤◌, ◌<◌, ◌≡◌, refl, inl, inr, true, false, some, List, [], ◌∷◌, ◌++◌, String,
  length-append, arith, Bool-cases, Option-cases,
}
use mcp_moqt_transport.Base.Word.{two_64, lt_64}
use mcp_moqt_transport.Base.Map.{string_key}
use mcp_moqt_transport.Errors.{Result, Result-cases}
use mcp_moqt_transport.Pool.{
  Pooled, Pool, cached, conns_at, on_hit, on_dialed, miss, on_miss, dial, is_full, get_locked, get,
  put, mark_in_use,
}
use mcp_moqt_transport.Pool.Sweep.{is_healthy}
use mcp_moqt_transport.Pool.Accounting.{
  total_of, active_of, Inv, cached-checkout, checkout_counts, total-insert, parked,
  put_locked-parked, miss-Inv,
}

-- A pool with a positive size limit holds no more connections than that.
abbrev pub Within : Pool → Type 0
Within p = lt_64 0 p.max_pool_size ≡ true → total_of p ≤ p.max_pool_size

on_dialed_total :
    (now : ℕ) (addr : String) (c : ℕ) (p : Pool)
    → Inv p
    → total_of (on_dialed now addr c p) ≡ suc (total_of p)
unfolding on_dialed
on_dialed_total now addr c p v =
    let here = conns_at addr p in
    let entry : Pooled = record {
      conn = c;
      addr = addr;
      created_at = now;
      last_used_at = now;
      in_use = true;
    } in
    let new = mark_in_use now entry in
    omega (arith, total-insert p addr (here ++ new ∷ []) v, length-append here (new ∷ []))

on_miss-Within :
    (now : ℕ) (dialed : Result ℕ) (addr : String) (p : Pool)
    → Inv p
    → p.max_pool_size < two_64
    → is_full p ≡ false
    → Within p
    → Within (on_miss now dialed addr p).0
unfolding on_miss
on_miss-Within now dialed addr p v m f w = elim (Result-cases (dial dialed p)) [
  | inl (x, e) ↦ rw (e, on_miss) (unfold miss in w)
  | inr (c, e) ↦
      rw (e, on_miss)
        (grow (on_dialed now addr c (miss p)) (on_dialed_total now addr c (miss p) (miss-Inv p v))
          (unfold miss on_dialed in refl))
]
  where
    grow :
        (q : Pool)
        → total_of q ≡ suc (total_of (miss p))
        → q.max_pool_size ≡ p.max_pool_size
        → Within q
    grow q t s pos = unfold miss is_full in ground (arith, v.total, w)

on_hit-Within :
    (now : ℕ) (addr : String) (p : Pool) (c : ℕ) (conns : List Pooled)
    → Inv p
    → cached now addr p ≡ some (c, conns)
    → Within p
    → Within (on_hit addr c conns p)
unfolding on_hit
on_hit-Within now addr p c conns v h w pos = omega (
  arith,
  w pos,
  total-insert p addr conns v,
  checkout_counts now p.max_idle_time (conns_at addr p) (cached-checkout now addr p h),
)

get_locked-Within :
    (now : ℕ) (dialed : Result ℕ) (addr : String) (p : Pool)
    → Inv p
    → p.max_pool_size < two_64
    → Within p
    → Within (get_locked now dialed addr p).0
unfolding get_locked
get_locked-Within now dialed addr p v m w = elim (Option-cases (cached now addr p)) [
  | inr ((c, conns), e) ↦ rw (e, get_locked) (on_hit-Within now addr p c conns v e w)
  | inl e ↦
      rw (e, get_locked)
        (elim (Bool-cases (is_full p)) [
          | inl full ↦ rw full w
          | inr room ↦ rw room (on_miss-Within now dialed addr p v m room w)
        ])
]

-- `Get` never takes a pool past its size limit: with coherent counters and a positive limit that an
-- int holds, a pool within the limit is within it after `Get`, whatever the dial answers.
pub get-Within :
    (now : ℕ) (dialed : Result ℕ) (addr : String) (p : Pool)
    → Inv p
    → p.max_pool_size < two_64
    → Within p
    → Within (get now dialed addr p).0
unfolding get
get-Within now dialed addr p v m w = elim (Bool-cases p.closed) [
  | inl e ↦ simp (e, get) w
  | inr e ↦ simp (e, get) (get_locked-Within now dialed addr p v m w)
]

-- In an open pool with coherent counters and no connection in use, putting back one that is idle
-- already makes the pool unhealthy.
put-parked_unhealthy :
    (remote_addr : ℕ → String) (c : ℕ) (p : Pool)
    → Inv p
    → p.closed ≡ false
    → parked remote_addr c p ≡ true
    → active_of p ≡ 0
    → is_healthy (put remote_addr c p) ≡ false
unfolding put is_healthy
put-parked_unhealthy remote_addr c p v o l z =
    ground (arith, put_locked-parked remote_addr c p v l z)
