-- ===== src/Pool/Accounting.antt =====
-- The pool's counters against its entries: the totals that the code keeps in `stats` are the
-- numbers of entries, of entries in use and of idle entries, modulo 2 ^ 64.
use mcp_moqt_transport.Base.{
  ℕ, suc, ◌+◌, ◌%◌, ◌≡◌, inl, inr, Bool, true, false, not, some, List, [], ◌∷◌, ◌++◌, String,
  if◌then◌else◌, ◌==◌, length, count_if, length-append, count_if-append, arith, Option-cases,
  Bool-cases,
}
use mcp_moqt_transport.Base.Word.{two_64, minus_one}
use mcp_moqt_transport.Base.Map.{
  lookup, insert, string_key, IsUnique, insert-IsUnique, sum_by, sum_by-insert,
}
use mcp_moqt_transport.Errors.{Result, Result-cases}
use mcp_moqt_transport.Pool.{
  Pooled, Pool, checkout, cached, conns_at, on_hit, on_dialed, miss, on_miss, dial, is_full,
  get_locked, get, give_back, put_locked, mark_in_use, mark_idle,
}

abbrev pub used : Pooled → Bool
used pc = pc.in_use

abbrev pub unused : Pooled → Bool
unused pc = not pc.in_use

abbrev pub total_of : Pool → ℕ
total_of p = sum_by length p.connections

abbrev pub active_of : Pool → ℕ
active_of p = sum_by (count_if used) p.connections

abbrev pub idle_of : Pool → ℕ
idle_of p = sum_by (count_if unused) p.connections

pub record Inv (p : Pool) : Type 0 where
  pub unique : IsUnique p.connections
  pub total : p.stats.total ≡ total_of p % two_64
  pub active : p.stats.active ≡ active_of p % two_64
  pub idle : p.stats.idle ≡ idle_of p % two_64

-- A checkout turns one idle entry into one in use.
pub checkout_counts :
    (now max_idle : ℕ) (conns : List Pooled) {c : ℕ} {conns' : List Pooled}
    → checkout now max_idle conns ≡ some (c, conns')
    → (length conns' ≡ length conns)
      × (count_if used conns' ≡ suc (count_if used conns))
      × (suc (count_if unused conns') ≡ count_if unused conns)
unfolding checkout
checkout_counts now max_idle [] h = ground arith
checkout_counts now max_idle (pc ∷ rest) h = elim (Option-cases (checkout now max_idle rest)) [
  | inl e ↦ ground arith
  | inr ((c, rest'), e) ↦ ground (arith, checkout_counts now max_idle rest e)
]

-- A connection given back turns one entry, in use or not, into an idle one.
pub give_back_counts :
    (c : ℕ) (conns : List Pooled) {conns' : List Pooled}
    → give_back c conns ≡ some conns'
    → (length conns' ≡ length conns)
      × (count_if used conns' + count_if unused conns'
          ≡ count_if used conns + count_if unused conns)
unfolding give_back
give_back_counts c [] h = ground arith
give_back_counts c (pc ∷ rest) h = elim (Option-cases (give_back c rest)) [
  | inl e ↦ ground arith
  | inr (rest', e) ↦ ground (arith, give_back_counts c rest e)
]

-- The entry that `Put` finds first for the connection is idle: it was put back already.
unfoldable pub is_parked : ℕ → List Pooled → Bool
is_parked c [] = false
is_parked c (pc ∷ rest) = if pc.conn == c then not pc.in_use else is_parked c rest

pub give_back_lent :
    (c : ℕ) (conns : List Pooled) {conns' : List Pooled}
    → give_back c conns ≡ some conns'
    → is_parked c conns ≡ false
    → (suc (count_if used conns') ≡ count_if used conns)
      × (count_if unused conns' ≡ suc (count_if unused conns))
unfolding give_back is_parked
give_back_lent c [] h l = ground arith
give_back_lent c (pc ∷ rest) h l = elim (Option-cases (give_back c rest)) [
  | inl e ↦ ground arith
  | inr (rest', e) ↦ ground (arith, give_back_lent c rest e)
]

-- The counts of the entries of one address are part of the pool's.
module _ (p : Pool) (addr : String) (conns : List Pooled) (v : Inv p) where
  pub total-insert :
      sum_by length (insert addr conns p.connections) + length (conns_at addr p)
      ≡ total_of p + length conns
  total-insert = elim (Option-cases (lookup addr p.connections)) [
    | inl e ↦ ground (arith, sum_by-insert length addr conns p.connections v.unique)
    | inr (cs, e) ↦ ground (arith, sum_by-insert length addr conns p.connections v.unique)
  ]

  active-insert :
      sum_by (count_if used) (insert addr conns p.connections) + count_if used (conns_at addr p)
      ≡ active_of p + count_if used conns
  active-insert = elim (Option-cases (lookup addr p.connections)) [
    | inl e ↦ ground (arith, sum_by-insert (count_if used) addr conns p.connections v.unique)
    | inr (cs, e) ↦ ground (arith, sum_by-insert (count_if used) addr conns p.connections v.unique)
  ]

  idle-insert :
      sum_by (count_if unused) (insert addr conns p.connections) + count_if unused (conns_at addr p)
      ≡ idle_of p + count_if unused conns
  idle-insert = elim (Option-cases (lookup addr p.connections)) [
    | inl e ↦ ground (arith, sum_by-insert (count_if unused) addr conns p.connections v.unique)
    | inr (cs, e) ↦
        ground (arith, sum_by-insert (count_if unused) addr conns p.connections v.unique)
  ]

pub cached-checkout :
    (now : ℕ) (addr : String) (p : Pool) {c : ℕ} {conns : List Pooled}
    → cached now addr p ≡ some (c, conns)
    → checkout now p.max_idle_time (conns_at addr p) ≡ some (c, conns)
unfolding cached checkout
cached-checkout now addr p h = ground arith

pub on_hit-Inv :
    (now : ℕ) (addr : String) (p : Pool) (c : ℕ) (conns : List Pooled)
    → Inv p
    → cached now addr p ≡ some (c, conns)
    → Inv (on_hit addr c conns p)
unfolding on_hit
on_hit-Inv now addr p c conns v h =
    let counts =
      checkout_counts now p.max_idle_time (conns_at addr p) (cached-checkout now addr p h) in
    record {
      unique = insert-IsUnique addr conns p.connections v.unique;
      total = omega (arith, total-insert p addr conns v);
      active = omega (arith, active-insert p addr conns v);
      idle = omega (arith, idle-insert p addr conns v);
    }

on_dialed-Inv : (now : ℕ) (addr : String) (c : ℕ) (p : Pool) → Inv p → Inv (on_dialed now addr c p)
unfolding on_dialed mark_in_use
on_dialed-Inv now addr c p v =
    let here = conns_at addr p in
    let entry : Pooled = record {
      conn = c;
      addr = addr;
      created_at = now;
      last_used_at = now;
      in_use = true;
    } in
    record {
      unique = insert-IsUnique addr (here ++ entry ∷ []) p.connections v.unique;
      total =
          omega
            (arith, total-insert p addr (here ++ entry ∷ []) v, length-append here (entry ∷ []));
      active = omega (
        arith,
        active-insert p addr (here ++ entry ∷ []) v,
        count_if-append used here (entry ∷ []),
      );
      idle = omega (
        arith,
        idle-insert p addr (here ++ entry ∷ []) v,
        count_if-append unused here (entry ∷ []),
      );
    }

pub miss-Inv : (p : Pool) → Inv p → Inv (miss p)
unfolding miss
miss-Inv p v = record { unique = v.unique; total = v.total; active = v.active; idle = v.idle }

on_miss-Inv :
    (now : ℕ) (dialed : Result ℕ) (addr : String) (p : Pool)
    → Inv p
    → Inv (on_miss now dialed addr p).0
unfolding on_miss
on_miss-Inv now dialed addr p v = elim (Result-cases (dial dialed p)) [
  | inl (x, e) ↦ rw (e, on_miss) (miss-Inv p v)
  | inr (c, e) ↦ rw (e, on_miss) (on_dialed-Inv now addr c (miss p) (miss-Inv p v))
]

-- `Get` behind its first test keeps the counters exact, on a hit, a miss, a failed dial and a full
-- pool.
pub get_locked-Inv :
    (now : ℕ) (dialed : Result ℕ) (addr : String) (p : Pool)
    → Inv p
    → Inv (get_locked now dialed addr p).0
unfolding get_locked
get_locked-Inv now dialed addr p v = elim (Option-cases (cached now addr p)) [
  | inr ((c, conns), e) ↦ rw (e, get_locked) (on_hit-Inv now addr p c conns v e)
  | inl e ↦
      rw (e, get_locked)
        (elim (Bool-cases (is_full p)) [
          | inl full ↦ rw full v
          | inr room ↦ rw room (on_miss-Inv now dialed addr p v)
        ])
]

pub get-Inv :
    (now : ℕ) (dialed : Result ℕ) (addr : String) (p : Pool) → Inv p → Inv (get now dialed addr p).0
unfolding get
get-Inv now dialed addr p v = ground (arith, get_locked-Inv now dialed addr p v)

abbrev pub parked : (ℕ → String) → ℕ → Pool → Bool
parked remote_addr c p = is_parked c (conns_at (remote_addr c) p)

pub put_locked-Inv :
    (remote_addr : ℕ → String) (c : ℕ) (p : Pool)
    → Inv p
    → parked remote_addr c p ≡ false
    → Inv (put_locked remote_addr c p)
unfolding put_locked
put_locked-Inv remote_addr c p v l =
    elim (Option-cases (give_back c (conns_at (remote_addr c) p))) [
      | inl e ↦ rw (e, put_locked) v
      | inr (conns, e) ↦
          let lens = give_back_counts c (conns_at (remote_addr c) p) e in
          let counts = give_back_lent c (conns_at (remote_addr c) p) e l in
          rw (e, put_locked)
            (record {
              unique = insert-IsUnique (remote_addr c) conns p.connections v.unique;
              total = omega (arith, total-insert p (remote_addr c) conns v);
              active = omega (arith, active-insert p (remote_addr c) conns v);
              idle = omega (arith, idle-insert p (remote_addr c) conns v);
            })
    ]

give_back_parked :
    (c : ℕ) (conns : List Pooled)
    → is_parked c conns ≡ true
    → (conns' : List Pooled) × (give_back c conns ≡ some conns')
      × (count_if used conns' ≡ count_if used conns)
unfolding give_back is_parked
give_back_parked c [] l = ground arith
give_back_parked c (pc ∷ rest) l = elim (Bool-cases (pc.conn == c)) [
  | inl e ↦ (mark_idle pc ∷ rest, ground arith, unfold mark_idle in ground arith)
  | inr e ↦
      let (rest', h, n) = give_back_parked c rest (ground arith) in
      (pc ∷ rest', ground arith, ground arith)
]

-- A connection that is put back when it is idle already is counted out of `active` once more: with
-- no connection in use, `active` becomes -1.
pub put_locked-parked :
    (remote_addr : ℕ → String) (c : ℕ) (p : Pool)
    → Inv p
    → parked remote_addr c p ≡ true
    → active_of p ≡ 0
    → (put_locked remote_addr c p).stats.active ≡ minus_one
unfolding put_locked
put_locked-parked remote_addr c p v l z =
    let (conns, e, n) = give_back_parked c (conns_at (remote_addr c) p) l in
    rw (e, put_locked) (omega (arith, v.active))
