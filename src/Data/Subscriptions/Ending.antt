-- ===== src/Data/Subscriptions/Ending.antt =====
-- pkg/moqttransport/data_track_handler.go: what the operations that end, attach or serve subscriptions
-- do to the contexts of the handler.
use mcp_moqt_transport.Base.{
  ℕ, suc, ◌≡◌, refl, sym, ap, ◌∙◌, true, false, Option, some, List, [], ◌∷◌, String, str_eq, eq_iff,
  ◌==◌, arith, inl, inr, ◌⊎◌, All, Bool-cases, Option-cases,
}
use mcp_moqt_transport.Base.Map.{
  lookup, insert, erase, nat_key, string_key, lookup-insert, lookup-erase,
}
use mcp_moqt_transport.Errors.{Error, Result}
use mcp_moqt_transport.Tracks.{Bytes}
use mcp_moqt_transport.Data.{
  Handler, Subscriber, handle_subscribe, register, close_existing, close_at, cancel, close_reader,
  unsubscribe, handle_data, deliver, handle_remote_track, close, mem,
}
use mcp_moqt_transport.Data.Streaming.{end_subscription}
use mcp_moqt_transport.Data.Closing.{Stopped, close_releases, close-mem}
use mcp_moqt_transport.Data.Subscriptions.Carrying.{
  Carries, same-Carries, mem-cancel, close_reader_keeps, carried,
}

module _ {M : Type 0} where
  module _ (track : String) (h : Handler M) where
    abbrev stopped : Subscriber M → Handler M
    stopped sub = close_reader sub.reader (cancel sub.ctx h)

    -- A subscription that is stopped and removed.
    abbrev removed : Subscriber M → Handler M
    removed sub = record (stopped sub) { subscribers = erase track (stopped sub).subscribers }

    removed-Carries :
        (sub : Subscriber M) → lookup track h.subscribers ≡ some sub → Carries h (removed sub)
    unfolding cancel
    removed-Carries sub found =
        let (d, s, k) = close_reader_keeps sub.reader (cancel sub.ctx h) in
        record {
          moves = record {
            done = λ c m. ap (mem c) d ∙ mem-cancel c sub.ctx h m;
            current = λ c t (old, l, e). elim (Bool-cases (str_eq track t)) [
              | inl q ↦
                  let same : track ≡ t = (eq_iff track t).0 q in
                  let one : some old ≡ some sub =
                    sym l ∙ sym (ap (λ x. lookup x h.subscribers) same) ∙ found in
                  inl (ap (mem c) d ∙ ground (arith, one, e))
              | inr q ↦ inr (
                old,
                lookup-erase track t (stopped sub).subscribers ∙ simp q (ap (lookup t) s ∙ l),
                e,
              )
            ];
          };
          emptied = λ f n. ap (erase track) (s ∙ f (sym k ∙ n)) ∙ (unfold erase in refl);
        }

    pub unsubscribe-Carries : Carries h (unsubscribe track h)
    unfolding unsubscribe
    unsubscribe-Carries = elim (Option-cases (lookup track h.subscribers)) [
      | inl n ↦
          carried h (unsubscribe track h) h (rw (n, unsubscribe) refl)
            (same-Carries h h refl refl refl)
      | inr (sub, n) ↦
          carried h (unsubscribe track h) (removed sub) (rw (n, unsubscribe) refl)
            (removed-Carries sub n)
    ]

    pub end_subscription-Carries : (c : ℕ) → Carries h (end_subscription track c h)
    unfolding end_subscription
    end_subscription-Carries c =
        let h' = end_subscription track c h in
        elim (Option-cases (lookup track h.subscribers)) [
          | inl n ↦ carried h h' h (rw (n, end_subscription) refl) (same-Carries h h refl refl refl)
          | inr (sub, n) ↦ elim (Bool-cases (sub.ctx == c)) [
            | inl q ↦
                carried h h' (removed sub) (rw (n, q, end_subscription) refl)
                  (removed-Carries sub n)
            | inr q ↦
                carried h h' h (rw (n, q, end_subscription) refl) (same-Carries h h refl refl refl)
          ]
        ]

    abbrev numbered : Handler M
    numbered = record h { next = suc h.next }

    abbrev attached : Subscriber M → Handler M
    attached sub = record (close_reader sub.reader numbered) {
      subscribers =
          insert track (record sub { reader = some h.next })
            (close_reader sub.reader numbered).subscribers;
    }

    attached-Carries :
        (sub : Subscriber M)
        → lookup track h.subscribers ≡ some sub
        → h.closed ≡ false
        → Carries h (attached sub)
    attached-Carries sub found o =
        let (d, s, k) = close_reader_keeps sub.reader numbered in
        let inserted = record sub { reader = some h.next } in
        record {
          moves = record {
            done = λ c m. ap (mem c) d ∙ m;
            current = λ c t (old, l, e). elim (Bool-cases (str_eq track t)) [
              | inl q ↦
                  let same : track ≡ t = (eq_iff track t).0 q in
                  let one : some old ≡ some sub =
                    sym l ∙ sym (ap (λ x. lookup x h.subscribers) same) ∙ found in
                  inr (
                    inserted,
                    lookup-insert track t inserted (close_reader sub.reader numbered).subscribers
                        ∙ simp q refl,
                    ground (arith, one, e),
                  )
              | inr q ↦ inr (
                old,
                lookup-insert track t inserted (close_reader sub.reader numbered).subscribers
                    ∙ simp q (ap (lookup t) s ∙ l),
                e,
              )
            ];
          };
          emptied = λ f n. ground (arith, o, sym k ∙ n);
        }

    pub attach-Carries : Carries h (handle_remote_track track h).0
    unfolding handle_remote_track
    attach-Carries =
        let h' = (handle_remote_track track h).0 in
        elim (Bool-cases h.closed) [
          | inl k ↦ carried h h' h (simp k refl) (same-Carries h h refl refl refl)
          | inr o ↦ elim (Option-cases (lookup track h.subscribers)) [
            | inl n ↦
                let (d, s, k) = close_reader_keeps (some h.next) numbered in
                carried h h' (close_reader (some h.next) numbered) (simp (o, n) refl)
                  (same-Carries h (close_reader (some h.next) numbered) d s k)
            | inr (sub, n) ↦
                carried h h' (attached sub) (simp (o, n) refl) (attached-Carries sub n o)
          ]
        ]

  close_existing_keeps :
      (track : String) (h : Handler M)
      → ((close_existing track h).cancelled ≡ h.cancelled)
        × ((close_existing track h).subscribers ≡ h.subscribers)
        × ((close_existing track h).closed ≡ h.closed)
  unfolding close_existing close_at
  close_existing_keeps track h = (ground arith, ground arith, ground arith)

  register-Carries :
      (publisher : ℕ) (track : String) (h : Handler M) → Carries h (register publisher track h)
  unfolding register
  register-Carries publisher track h =
      let (d, s, k) = close_existing_keeps track h in
      same-Carries h (register publisher track h) d s k

  handle_subscribe_keeps :
      (publisher : ℕ) (accept : Option Error) (namespace : List String) (track : String)
      (h : Handler M)
      → let h' = (handle_subscribe publisher accept namespace track h).0 in
        (h' ≡ h) ⊎ (h' ≡ register publisher track h)
  unfolding handle_subscribe
  handle_subscribe_keeps publisher accept namespace track h = ground arith

  pub handle_subscribe-Carries :
      (publisher : ℕ) (accept : Option Error) (namespace : List String) (track : String)
      (h : Handler M)
      → Carries h (handle_subscribe publisher accept namespace track h).0
  unfolding handle_subscribe
  handle_subscribe-Carries publisher accept namespace track h =
      let h' = (handle_subscribe publisher accept namespace track h).0 in
      elim (handle_subscribe_keeps publisher accept namespace track h) [
        | inl e ↦ carried h h' h e (same-Carries h h refl refl refl)
        | inr e ↦ carried h h' (register publisher track h) e (register-Carries publisher track h)
      ]

  pub handle_data-Carries :
      (unmarshal : Bytes → Result M) (track : String) (bytes : Bytes) (h : Handler M)
      → Carries h (handle_data unmarshal track bytes h).0
  unfolding handle_data deliver
  handle_data-Carries unmarshal track bytes h =
      same-Carries h (handle_data unmarshal track bytes h).0 (ground arith) (ground arith)
        (ground arith)

  mem-Stopped :
      (t : String) (h' : Handler M) (subs : List (String × Subscriber M)) (sub : Subscriber M)
      → All (Stopped h') subs
      → lookup t subs ≡ some sub
      → mem sub.ctx h'.cancelled ≡ true
  unfolding lookup
  mem-Stopped t h' [] sub a l = ground arith
  mem-Stopped t h' ((u, v) ∷ subs) sub a l = ground (arith, a.0, mem-Stopped t h' subs sub a.1)

  pub close-Carries : (h : Handler M) → Carries h (close h)
  close-Carries h = elim (Bool-cases h.closed) [
    | inl k ↦ carried h (close h) h (unfold close in simp k refl) (same-Carries h h refl refl refl)
    | inr o ↦
        let (p, s, a, w) = close_releases h o in
        record {
          moves = record {
            done = λ c m. close-mem c h m;
            current = λ c t (sub, l, e). inl (
                ap (λ x. mem x (close h).cancelled) (sym e)
                ∙ mem-Stopped t (close h) h.subscribers sub a l);
          };
          emptied = λ f n. s;
        }
  ]
