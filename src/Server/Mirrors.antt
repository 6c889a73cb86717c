-- ===== src/Server/Mirrors.antt =====
-- The server's maps against its live sessions: the invariant, a new connection, and what closes one.
use mcp_moqt_transport.Base.{
  ℕ, ◌≤◌, ◌≡◌, refl, sym, ap, ◌∙◌, Bool, true, false, Option, none, some, List, [], ◌∷◌, String,
  eq_iff, if◌then◌else◌, arith, Option-cases, Bool-cases, inl, inr, is_some,
}
use mcp_moqt_transport.Base.Map.{
  lookup, insert, erase, nat_key, string_key, lookup-insert, lookup-erase, IsUnique, erase-IsUnique,
  erase_absent,
}
use mcp_moqt_transport.Metrics.{Metrics}
use mcp_moqt_transport.Session.{default_data_track_handlers}
use mcp_moqt_transport.Server.{
  Server, Conn, register, close_conn, on_close, remove_connection, close_each, close,
}
use mcp_moqt_transport.Server.Live.{
  Live, has_id, contains, mark, UniqueIds, open_at, erase-mark, has_id-erase_other, erase-UniqueIds,
  has_id-erase,
}

is_some-mark : (a : ℕ) (m : Live) → is_some (lookup a (mark m)) ≡ is_some (lookup a m)
unfolding lookup
is_some-mark a [] = refl
is_some-mark a ((c, id) ∷ m) = ground (arith, is_some-mark a m)

all_closed :
    (a : ℕ) (m : Live) (o : Option String)
    → lookup a m ≡ o
    → (if is_some (lookup a (mark m)) then none else o) ≡ none
all_closed a m none h = ground arith
all_closed a m (some id) h = ground (arith, is_some-mark a m, h)

module _ {M : Type 0} where
  module _ (a : ℕ) (s : Server M) where
    pub close_conn_gone : open_at (lookup a s.conns) ≡ none → close_conn a s ≡ s
    unfolding close_conn
    close_conn_gone h = elim (Option-cases (lookup a s.conns)) [
      | inl n ↦ simp n refl
      | inr (k, e) ↦ elim (Bool-cases k.closed) [
        | inl c ↦ simp (e, c) refl
        | inr c ↦ absurd (ground (arith, e, c, h))
      ]
    ]

    pub close_conn_open :
        (k : Conn)
        → lookup a s.conns ≡ some k
        → k.closed ≡ false
        → close_conn a s
          ≡ on_close a k.session_id
              (record s { conns = insert a (record k { closed = true }) s.conns })
    unfolding close_conn
    close_conn_open k e c = simp (e, c) refl

  -- What closing the connections of a map does to the server.
  pub record Ends (l : List (ℕ × Bool)) (s s' : Server M) : Type 0 where
    pub are_open :
        (a : ℕ)
        → open_at (lookup a s'.conns)
          ≡ (if is_some (lookup a l) then none else open_at (lookup a s.conns))
    pub absent : (a : ℕ) → lookup a s.conns ≡ none → lookup a s'.conns ≡ none
    pub next : s'.next ≡ s.next
    pub none_left : s.connections ≡ [] → s'.connections ≡ []

  on_close-Ends :
      (b : ℕ) (x : Bool) (k : Conn) (s : Server M)
      → lookup b s.conns ≡ some k
      → Ends ((b, x) ∷ []) s (
          on_close b k.session_id
            (record s { conns = insert b (record k { closed = true }) s.conns }))
  unfolding on_close remove_connection lookup erase
  on_close-Ends b x k s e = record {
    are_open = λ a. ground (arith, lookup-insert b a (record k { closed = true }) s.conns);
    absent = λ a h. ground (arith, lookup-insert b a (record k { closed = true }) s.conns, e, h);
    next = refl;
    none_left = λ h. rw h refl;
  }

  close_conn-Ends : (b : ℕ) (x : Bool) (s : Server M) → Ends ((b, x) ∷ []) s (close_conn b s)
  unfolding lookup
  close_conn-Ends b x s = elim (Option-cases (lookup b s.conns)) [
    | inl h ↦ gone (ap open_at h)
    | inr (k, h) ↦ elim (Bool-cases k.closed) [
      | inl c ↦ gone (simp (h, c) refl)
      | inr c ↦ rw (close_conn_open b s k h c) (on_close-Ends b x k s h)
    ]
  ]
    where
      gone : open_at (lookup b s.conns) ≡ none → Ends ((b, x) ∷ []) s (close_conn b s)
      gone h = rw (close_conn_gone b s h) (record {
        are_open = λ a. ground (arith, h);
        absent = λ a n. n;
        next = refl;
        none_left = λ n. n;
      })

  pub close_each-Ends : (l : List (ℕ × Bool)) (s : Server M) → Ends l s (close_each l s)
  unfolding close_each lookup
  close_each-Ends [] s = record {
    are_open = λ a. refl;
    absent = λ a n. n;
    next = refl;
    none_left = λ n. n;
  }
  close_each-Ends ((b, x) ∷ l) s =
      let v = close_conn-Ends b x s in
      let w = close_each-Ends l (close_conn b s) in
      record {
        are_open = λ a. ground (arith, v.are_open a, w.are_open a);
        absent = λ a n. w.absent a (v.absent a n);
        next = w.next ∙ v.next;
        none_left = λ n. w.none_left (v.none_left n);
      }

module _ {M : Type 0} (metrics : Metrics) where
  pub record Mirrors (s : Server M) (m : Live) (used : List String) : Type 0 where
    pub connections : s.connections ≡ mark m
    pub handlers :
        (id : String)
        → lookup id s.session_handlers
          ≡ (if has_id id m then some (default_data_track_handlers id metrics) else none)
    pub are_open : (a : ℕ) → lookup a m ≡ open_at (lookup a s.conns)
    pub fresh : (a : ℕ) → s.next ≤ a → lookup a s.conns ≡ none
    pub keys : IsUnique m
    pub ids : UniqueIds m
    pub in_use : (id : String) → contains id used ≡ false → has_id id m ≡ false

  pub register-Mirrors :
      (id : String) (s : Server M) (m : Live) (used : List String)
      → contains id used ≡ false
      → Mirrors s m used
      → Mirrors (register id metrics s) ((s.next, id) ∷ m) (id ∷ used)
  unfolding register insert lookup
  register-Mirrors id s m used new v =
      let absent : lookup s.next m ≡ none =
        v.are_open s.next ∙ ap open_at (v.fresh s.next (omega arith)) in
      record {
        connections = rw v.connections (
            ap (λ r. (s.next, true) ∷ r)
              (erase-mark s.next m ∙ ap mark (erase_absent s.next m absent)));
        handlers = λ i. ground (
          arith,
          lookup-insert id i (default_data_track_handlers id metrics) s.session_handlers,
          v.handlers i,
          eq_iff id i,
        );
        are_open = λ a. ground (
          arith,
          lookup-insert s.next a (record { session_id = id; closed = false }) s.conns,
          v.are_open a,
        );
        fresh = λ a h. ground (
          arith,
          lookup-insert s.next a (record { session_id = id; closed = false }) s.conns,
          v.fresh a,
        );
        keys = (absent, v.keys);
        ids = (v.in_use id new, v.ids);
        in_use = λ i h. ground (arith, v.in_use i);
      }

  -- The control connection is open, so its `Close` calls `OnClose`.
  on_close-Mirrors :
      (a : ℕ) (k : Conn) (s : Server M) (m : Live) (used : List String)
      → lookup a s.conns ≡ some k
      → lookup a m ≡ some k.session_id
      → Mirrors s m used
      → Mirrors
          (on_close a k.session_id
            (record s { conns = insert a (record k { closed = true }) s.conns }))
          (erase a m)
          used
  unfolding on_close remove_connection
  on_close-Mirrors a k s m used e l v = record {
    connections = rw v.connections (erase-mark a m);
    handlers = λ i. ground (
      arith,
      lookup-erase k.session_id i s.session_handlers,
      v.handlers i,
      has_id-erase i k.session_id a m v.keys v.ids l,
      eq_iff k.session_id i,
    );
    are_open = λ b. ground (
      arith,
      lookup-insert a b (record k { closed = true }) s.conns,
      v.are_open b,
      lookup-erase a b m,
    );
    fresh =
        λ b h. ground (arith, lookup-insert a b (record k { closed = true }) s.conns, v.fresh b, e);
    keys = erase-IsUnique a m v.keys;
    ids = erase-UniqueIds a m v.ids;
    in_use = λ i h. has_id-erase_other i a m (v.in_use i h);
  }

  pub close_conn-Mirrors :
      (a : ℕ) (s : Server M) (m : Live) (used : List String)
      → Mirrors s m used
      → Mirrors (close_conn a s) (erase a m) used
  close_conn-Mirrors a s m used v = elim (Option-cases (lookup a s.conns)) [
    | inl h ↦ gone (ap open_at h)
    | inr (k, h) ↦ elim (Bool-cases k.closed) [
      | inl c ↦ gone (simp (h, c) refl)
      | inr c ↦
          rw (close_conn_open a s k h c)
            (on_close-Mirrors a k s m used h (v.are_open a ∙ simp (h, c) refl) v)
    ]
  ]
    where
      gone : open_at (lookup a s.conns) ≡ none → Mirrors (close_conn a s) (erase a m) used
      gone h = rw (close_conn_gone a s h, erase_absent a m (v.are_open a ∙ h)) v

  pub close-Mirrors :
      (s : Server M) (m : Live) (used : List String)
      → s.closed ≡ false
      → Mirrors s m used
      → Mirrors (close s) [] used
  unfolding close lookup
  close-Mirrors s m used o v =
      let s' : Server M = record s { closed = true; connections = [] } in
      let w = close_each-Ends s.connections s' in
      simp o (record {
        connections = w.none_left refl;
        handlers = λ id. refl;
        are_open = λ a. sym (
            w.are_open a
            ∙ rw v.connections (all_closed a m (open_at (lookup a s.conns)) (v.are_open a)));
        fresh = λ a h. w.absent a (v.fresh a (rw (sym w.next) h));
        keys = tt;
        ids = tt;
        in_use = λ id h. refl;
      })
