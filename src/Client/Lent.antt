-- ===== src/Client/Lent.antt =====
-- A pool whose connections are all lent under one address: `Put` from another address, and `Get`.
use mathlib.Core.Path.{subst}
use mcp_moqt_transport.Base.{
  ℕ, suc, ◌<◌, ◌≡◌, ◌≢◌, refl, sym, true, false, Option, none, some, List, [], ◌∷◌, ◌++◌, String,
  eq_iff, arith, All,
}
use mcp_moqt_transport.Base.Word.{two_63}
use mcp_moqt_transport.Base.Map.{lookup, string_key, lookup-insert, lookup-insert_self}
use mcp_moqt_transport.Errors.{Result, ok, err, sentinel, pool_full}
use mcp_moqt_transport.Pool.{
  Pool, Pooled, get, get_locked, put, put_locked, give_back, conns_at, entries, checkout, cached,
  mark_in_use, is_full, on_miss, on_dialed, miss, dial,
}

abbrev pub InUse : Pooled → Type 0
InUse pc = pc.in_use ≡ true

-- The pool has `n` connections, all lent, all filed under one address.
pub record Leaked (n : ℕ) (addr : String) (p : Pool) : Type 0 where
  pub is_open : p.closed ≡ false
  pub tls : ℕ
  pub has_tls : p.tls_client ≡ some tls
  pub total : p.stats.total ≡ n
  pub all_used : All InUse (conns_at addr p)
  pub only : (b : String) → b ≢ addr → lookup b p.connections ≡ none

pub put_unknown :
    (remote_addr : ℕ → String) (c : ℕ) (p : Pool)
    → p.closed ≡ false
    → lookup (remote_addr c) p.connections ≡ none
    → put remote_addr c p ≡ p
unfolding put put_locked give_back
put_unknown remote_addr c p o h = ground (arith, o, h)

checkout_all_used :
    (now idle : ℕ) (conns : List Pooled) → All InUse conns → checkout now idle conns ≡ none
unfolding checkout
checkout_all_used now idle [] a = refl
checkout_all_used now idle (pc ∷ rest) a = ground (arith, a.0, checkout_all_used now idle rest a.1)

cached_all_used :
    (now : ℕ) (addr : String) (p : Pool) → All InUse (conns_at addr p) → cached now addr p ≡ none
unfolding cached
cached_all_used now addr p a = go (lookup addr p.connections) refl
  where
    go : (o : Option (List Pooled)) → lookup addr p.connections ≡ o → cached now addr p ≡ none
    go none h = rw (h, cached) refl
    go (some conns) h =
        rw (h, cached)
          (checkout_all_used now p.max_idle_time conns (subst (λ o. All InUse (entries o)) h a))

pub get_with_room :
    (now c n : ℕ) (addr : String) (p : Pool)
    → n < p.max_pool_size
    → p.max_pool_size < two_63
    → Leaked n addr p
    → get now (ok c) addr p ≡ (on_dialed now addr c (miss p), ok c)
unfolding get get_locked is_full on_miss dial miss
get_with_room now c n addr p l m v =
    ground (arith, v.is_open, v.total, v.has_tls, cached_all_used now addr p v.all_used)

pub get_when_full :
    (now n : ℕ) (dialed : Result ℕ) (addr : String) (p : Pool)
    → n ≡ p.max_pool_size
    → 0 < n
    → n < two_63
    → Leaked n addr p
    → get now dialed addr p ≡ (p, err (sentinel pool_full))
unfolding get get_locked is_full
get_when_full now n dialed addr p l z m v =
    ground (arith, v.is_open, v.total, cached_all_used now addr p v.all_used)

All-append_one : (xs : List Pooled) (x : Pooled) → All InUse xs → InUse x → All InUse (xs ++ x ∷ [])
All-append_one [] x a b = (b, tt)
All-append_one (y ∷ ys) x a b = (a.0, All-append_one ys x a.1 b)

pub on_dialed-Leaked :
    (now c n : ℕ) (addr : String) (p : Pool)
    → n < two_63
    → Leaked n addr p
    → Leaked (suc n) addr (on_dialed now addr c (miss p))
unfolding on_dialed miss mark_in_use
on_dialed-Leaked now c n addr p l v =
    let fresh : Pooled = record {
      conn = c;
      addr = addr;
      created_at = now;
      last_used_at = now;
      in_use = true;
    } in
    record {
      is_open = v.is_open;
      tls = v.tls;
      has_tls = v.has_tls;
      total = omega (arith, v.total, l);
      all_used =
          subst (λ o. All InUse (entries o))
            (sym (lookup-insert_self addr (conns_at addr p ++ fresh ∷ []) p.connections))
            (All-append_one (conns_at addr p) fresh v.all_used refl);
      only = λ b h. ground (
        arith,
        lookup-insert addr b (conns_at addr p ++ fresh ∷ []) p.connections,
        v.only b,
        h,
        eq_iff addr b,
      );
    }
