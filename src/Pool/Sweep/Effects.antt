-- ===== src/Pool/Sweep/Effects.antt =====
-- What `Get`, `CleanupExpired` and `Close` do to the connections themselves.
use mathlib.Core.List.{reverse, reverse-cons, reverse-append, append_assoc}
use mcp_moqt_transport.Base.{
  ℕ, ◌-◌, ◌≡◌, refl, ap, sym, ◌∙◌, ◌⊎◌, inl, inr, Bool, true, false, not, ◌&&◌, ◌||◌, leb, some,
  List, [], ◌∷◌, ◌++◌, map, String, filter_by, arith, str_eq, Bool-cases, Option-cases, All, eq_iff,
}
use mcp_moqt_transport.Base.Map.{lookup, string_key, IsUnique}
use mcp_moqt_transport.Errors.{Result, err, sentinel, pool_closed}
use mcp_moqt_transport.Pool.{
  Pooled, Pool, is_expired, checkout, cached, conns_at, entries, get, mark_in_use,
}
use mcp_moqt_transport.Pool.Sweep.{
  Ledger, keep, expire_one, close_one, sweep, sweep_all, cleanup_expired, close_conns, close_all,
  close_locked, close, is_healthy,
}
use mcp_moqt_transport.Pool.Accounting.{cached-checkout}

-- An entry that `Get` passes over.
abbrev pub Taken : ℕ → ℕ → Pooled → Type 0
Taken now max_idle pc = (pc.in_use ≡ true) ⊎ (is_expired now max_idle pc ≡ true)

-- The entry that the loop of `Get` picks, between those before and after it.
pub record Pick (now max_idle : ℕ) (conns : List Pooled) (c : ℕ) (conns' : List Pooled)
    : Type 0 where
  pub before : List Pooled
  pub entry : Pooled
  pub after : List Pooled
  pub split : conns ≡ before ++ entry ∷ after
  pub result : conns' ≡ before ++ mark_in_use now entry ∷ after
  pub its_conn : entry.conn ≡ c
  pub free : entry.in_use ≡ false
  pub fresh : is_expired now max_idle entry ≡ false
  pub first : All (Taken now max_idle) before

checkout-Pick :
    (now max_idle : ℕ) (conns : List Pooled) {c : ℕ} {conns' : List Pooled}
    → checkout now max_idle conns ≡ some (c, conns')
    → Pick now max_idle conns c conns'
unfolding checkout
checkout-Pick now max_idle [] h = ground arith
checkout-Pick now max_idle (pc ∷ rest) {c} {conns'} h =
    elim (Bool-cases (not pc.in_use && not (is_expired now max_idle pc))) [
      | inl free ↦ record {
        before = [];
        entry = pc;
        after = rest;
        split = refl;
        result = ground arith;
        its_conn = ground arith;
        free = ground arith;
        fresh = ground arith;
        first = tt;
      }
      | inr taken ↦ elim (Option-cases (checkout now max_idle rest)) [
        | inl e ↦ ground arith
        | inr ((d, rest'), e) ↦
            let ih = checkout-Pick now max_idle rest e in
            record {
              before = pc ∷ ih.before;
              entry = ih.entry;
              after = ih.after;
              split = ap (◌∷◌ pc) ih.split;
              result = ground (arith, ih.result);
              its_conn = ground (arith, ih.its_conn);
              free = ih.free;
              fresh = ih.fresh;
              first = (ground arith, ih.first);
            }
      ]
    ]

-- Whenever `Get` answers from the pool, the entry is the first one of the address that is neither
-- in use nor expired; it is marked in use, and the other entries of the address stay as they are.
cached-Pick :
    (now : ℕ) (addr : String) (p : Pool) {c : ℕ} {conns : List Pooled}
    → cached now addr p ≡ some (c, conns)
    → Pick now p.max_idle_time (conns_at addr p) c conns
cached-Pick now addr p h =
    checkout-Pick now p.max_idle_time (conns_at addr p) (cached-checkout now addr p h)

-- An entry that is lent out, or that was used recently enough.
abbrev pub live : ℕ → ℕ → Pooled → Bool
live now max_idle pc = pc.in_use || leb (now - pc.last_used_at) max_idle

abbrev pub dead : ℕ → ℕ → Pooled → Bool
dead now max_idle pc = not (live now max_idle pc)

is_expired-dead :
    (now max_idle : ℕ) (pc : Pooled) → is_expired now max_idle pc ≡ dead now max_idle pc
unfolding is_expired
is_expired-dead now max_idle pc = ground arith

sweep-filter_by :
    (now max_idle : ℕ) (conns : List Pooled) (l : Ledger)
    → (sweep now max_idle conns l).0 ≡ filter_by (live now max_idle) conns
unfolding sweep
sweep-filter_by now max_idle [] l = refl
sweep-filter_by now max_idle (pc ∷ rest) l =
    let same = is_expired-dead now max_idle pc in
    elim (Bool-cases (live now max_idle pc)) [
      | inl e ↦
          let kept : is_expired now max_idle pc ≡ false = ground arith in
          simp (kept, e) (ap (◌∷◌ pc) (sweep-filter_by now max_idle rest l))
      | inr e ↦
          let gone : is_expired now max_idle pc ≡ true = ground arith in
          simp (gone, e) (sweep-filter_by now max_idle rest (expire_one pc l))
    ]

filter_by-dead :
    (now max_idle : ℕ) (conns : List Pooled)
    → filter_by (is_expired now max_idle) conns ≡ filter_by (dead now max_idle) conns
filter_by-dead now max_idle [] = refl
filter_by-dead now max_idle (pc ∷ rest) =
    rw (is_expired-dead now max_idle pc, filter_by-dead now max_idle rest) refl

abbrev conns_of : List Pooled → List ℕ
conns_of = map (λ pc. pc.conn)

reverse-cons-append {ℓ} :
    {A : Type ℓ} (x : A) (xs ys : List A) → reverse (x ∷ xs) ++ ys ≡ reverse xs ++ x ∷ ys
reverse-cons-append x xs ys = rw (reverse-cons x xs) (append_assoc (reverse xs) (x ∷ []) ys)

sweep-closes :
    (now max_idle : ℕ) (conns : List Pooled) (l : Ledger)
    → (sweep now max_idle conns l).1.closes
      ≡ reverse (conns_of (filter_by (is_expired now max_idle) conns)) ++ l.closes
unfolding sweep
sweep-closes now max_idle [] l = refl
sweep-closes now max_idle (pc ∷ rest) l = elim (Bool-cases (is_expired now max_idle pc)) [
  | inl e ↦ simp e (
      sweep-closes now max_idle rest (expire_one pc l)
      ∙ sym (
          reverse-cons-append pc.conn (conns_of (filter_by (is_expired now max_idle) rest))
            l.closes))
  | inr e ↦ simp e (sweep-closes now max_idle rest l)
]

close_conns-closes :
    (conns : List Pooled) (l : Ledger)
    → (close_conns conns l).closes ≡ reverse (conns_of conns) ++ l.closes
unfolding close_conns
close_conns-closes [] l = refl
close_conns-closes (pc ∷ rest) l =
    close_conns-closes rest (close_one pc l)
    ∙ sym (reverse-cons-append pc.conn (conns_of rest) l.closes)

-- The connections of a map of pooled entries, those that pass a test.
abbrev pub all_conns : (Pooled → Bool) → List (String × List Pooled) → List ℕ
all_conns test [] = []
all_conns test ((addr, conns) ∷ m) = conns_of (filter_by test conns) ++ all_conns test m

reverse-append_onto {ℓ} :
    {A : Type ℓ} (xs ys zs : List A) → reverse ys ++ (reverse xs ++ zs) ≡ reverse (xs ++ ys) ++ zs
reverse-append_onto xs ys zs = rw reverse-append (sym (append_assoc (reverse ys) (reverse xs) zs))

sweep_all-closes :
    (now max_idle : ℕ) (m : List (String × List Pooled)) (l : Ledger)
    → (sweep_all now max_idle m l).1.closes
      ≡ reverse (all_conns (is_expired now max_idle) m) ++ l.closes
unfolding sweep_all
sweep_all-closes now max_idle [] l = refl
sweep_all-closes now max_idle ((addr, conns) ∷ m) l =
    let here = conns_of (filter_by (is_expired now max_idle) conns) in
    sweep_all-closes now max_idle m (sweep now max_idle conns l).1
    ∙ ap (λ t. reverse (all_conns (is_expired now max_idle) m) ++ t)
        (sweep-closes now max_idle conns l)
    ∙ reverse-append_onto here (all_conns (is_expired now max_idle) m) l.closes

all_conns-dead :
    (now max_idle : ℕ) (m : List (String × List Pooled))
    → all_conns (is_expired now max_idle) m ≡ all_conns (dead now max_idle) m
all_conns-dead now max_idle [] = refl
all_conns-dead now max_idle ((addr, conns) ∷ m) =
    rw (filter_by-dead now max_idle conns, all_conns-dead now max_idle m) refl

filter_by-true {ℓ} : {A : Type ℓ} (xs : List A) → filter_by (λ _. true) xs ≡ xs
filter_by-true [] = refl
filter_by-true (x ∷ xs) = ap (◌∷◌ x) (filter_by-true xs)

close_all-closes :
    (m : List (String × List Pooled)) (l : Ledger)
    → (close_all m l).closes ≡ reverse (all_conns (λ _. true) m) ++ l.closes
unfolding close_all
close_all-closes [] l = refl
close_all-closes ((addr, conns) ∷ m) l =
    close_all-closes m (close_conns conns l)
    ∙ ap (λ t. reverse (all_conns (λ _. true) m) ++ t)
        (close_conns-closes conns l
          ∙ ap (λ t. reverse (conns_of t) ++ l.closes) (sym (filter_by-true conns)))
    ∙ reverse-append_onto (conns_of (filter_by (λ _. true) conns)) (all_conns (λ _. true) m)
        l.closes

module _ (a : String) (m : List (String × List Pooled)) where
  lookup-keep_self :
      (active : List Pooled)
      → entries (lookup a m) ≡ []
      → entries (lookup a (keep a active m)) ≡ active
  unfolding lookup
  lookup-keep_self [] h = h
  lookup-keep_self (pc ∷ active) h = ground (arith, eq_iff a a)

  lookup-keep_ne :
      (b : String) (active : List Pooled)
      → str_eq a b ≡ false
      → lookup b (keep a active m) ≡ lookup b m
  unfolding lookup
  lookup-keep_ne b [] h = refl
  lookup-keep_ne b (pc ∷ active) h = ground arith

-- The entries that stay under an address after a cleanup.
lookup-sweep_all :
    (now max_idle : ℕ) (m : List (String × List Pooled)) (l : Ledger) (addr : String)
    → IsUnique m
    → entries (lookup addr (sweep_all now max_idle m l).0)
      ≡ filter_by (live now max_idle) (entries (lookup addr m))
unfolding sweep_all lookup
lookup-sweep_all now max_idle [] l addr u = refl
lookup-sweep_all now max_idle ((a, conns) ∷ m) l addr u =
    let m' = (sweep_all now max_idle m (sweep now max_idle conns l).1).0 in
    let active = (sweep now max_idle conns l).0 in
    let rest = lookup-sweep_all now max_idle m (sweep now max_idle conns l).1 addr u.1 in
    let same = lookup-keep_self a m' active in
    let other = lookup-keep_ne a m' addr active in
    ground (arith, eq_iff a addr, rest, same, other, sweep-filter_by now max_idle conns l)

-- With no address twice in the map, `CleanupExpired` leaves under every address the entries that
-- are in use, or were last used not longer ago than the idle time, in their order, and closes the other
-- ones.
pub cleanup_expired_lem :
    (now : ℕ) (p : Pool) (addr : String)
    → IsUnique p.connections
    → (conns_at addr (cleanup_expired now p)
        ≡ filter_by (live now p.max_idle_time) (conns_at addr p))
      × ((cleanup_expired now p).closes
          ≡ reverse (all_conns (dead now p.max_idle_time) p.connections) ++ p.closes)
unfolding cleanup_expired
cleanup_expired_lem now p addr u =
    let l : Ledger = record { stats = p.stats; closes = p.closes } in
    (
      lookup-sweep_all now p.max_idle_time p.connections l addr u,
      sweep_all-closes now p.max_idle_time p.connections l
          ∙ ap (λ t. reverse t ++ p.closes) (all_conns-dead now p.max_idle_time p.connections),
    )

-- The first `Close` closes every pooled connection, in use or not; afterwards the pool is empty and
-- unhealthy, `Get` and `Close` change nothing more, and `Get` reports the closed pool.
close_lem :
    (p : Pool) (now : ℕ) (dialed : Result ℕ) (addr : String)
    → p.closed ≡ false
    → ((close p).closes ≡ reverse (all_conns (λ _. true) p.connections) ++ p.closes)
      × ((close p).connections ≡ [])
      × (is_healthy (close p) ≡ false)
      × (close (close p) ≡ close p)
      × (get now dialed addr (close p) ≡ (close p, err (sentinel pool_closed)))
unfolding close close_locked is_healthy get
close_lem p now dialed addr o = simp o (
  close_all-closes p.connections (record { stats = p.stats; closes = p.closes }),
  refl,
  refl,
  refl,
  refl,
)
