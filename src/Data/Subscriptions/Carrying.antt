-- ===== src/Data/Subscriptions/Carrying.antt =====
-- pkg/moqttransport/data_track_handler.go: what each operation of the handler does to the contexts
-- that it gave out.
use mathlib.Core.Path.{subst}
use mcp_moqt_transport.Base.{
  ℕ, suc, ◌≡◌, refl, sym, ap, ◌∙◌, true, false, Option, none, some, [], ◌∷◌, String, str_eq, eq_iff,
  arith, inl, inr, All, Bool-cases, Option-cases,
}
use mcp_moqt_transport.Base.Map.{lookup, insert, nat_key, string_key, lookup-insert}
use mcp_moqt_transport.Errors.{Error, ok, err, sentinel, connection_closed}
use mcp_moqt_transport.Data.{
  Handler, Subscriber, cancel, cancel_existing, subscribe, close_reader, mem,
}
use mcp_moqt_transport.Data.Streaming.{stream_messages}
use mcp_moqt_transport.Data.Subscriptions.{Issued, Current, Accounted}

module _ {M : Type 0} where
  abbrev pub Emptied : Handler M → Type 0
  Emptied h = h.closed ≡ true → h.subscribers ≡ []

  -- What an operation does to the contexts: the ones that are done stay so, and the ones that are
  -- current stay so or are done.
  pub record Moves (h h' : Handler M) : Type 0 where
    pub done : (c : ℕ) → mem c h.cancelled ≡ true → mem c h'.cancelled ≡ true
    pub current : (c : ℕ) (t : String) → Current h (c, t) → Accounted h' (c, t)

  -- Besides, a closed handler is left without subscriptions.
  pub record Carries (h h' : Handler M) : Type 0 where
    pub moves : Moves h h'
    pub emptied : Emptied h → Emptied h'

  pub accounted :
      (h h' : Handler M) (given : Issued)
      → Moves h h'
      → All (Accounted h) given
      → All (Accounted h') given
  accounted h h' [] v a = tt
  accounted h h' ((c, t) ∷ given) v (inl d, a) = (inl (v.done c d), accounted h h' given v a)
  accounted h h' ((c, t) ∷ given) v (inr k, a) = (v.current c t k, accounted h h' given v a)

  pub same-Carries :
      (h h' : Handler M)
      → h'.cancelled ≡ h.cancelled
      → h'.subscribers ≡ h.subscribers
      → h'.closed ≡ h.closed
      → Carries h h'
  same-Carries h h' d s k = record {
    moves = record {
      done = λ c m. ap (mem c) d ∙ m;
      current = λ c t (sub, l, e). inr (sub, ap (lookup t) s ∙ l, e);
    };
    emptied = λ f o. s ∙ f (sym k ∙ o);
  }

  pub mem-cancel :
      (c d : ℕ) (h : Handler M) → mem c h.cancelled ≡ true → mem c (cancel d h).cancelled ≡ true
  unfolding cancel
  mem-cancel c d h m = ground (arith, m)

  pub cancel-Carries : (d : ℕ) (h : Handler M) → Carries h (cancel d h)
  cancel-Carries d h = record {
    moves = record {
      done = λ c m. mem-cancel c d h m;
      current = λ c t k. inr (unfold cancel in k);
    };
    emptied = λ f. unfold cancel in f;
  }

  pub close_reader_keeps :
      (r : Option ℕ) (h : Handler M)
      → ((close_reader r h).cancelled ≡ h.cancelled)
        × ((close_reader r h).subscribers ≡ h.subscribers)
        × ((close_reader r h).closed ≡ h.closed)
  unfolding close_reader
  close_reader_keeps none h = (refl, refl, refl)
  close_reader_keeps (some r) h = (refl, refl, refl)

  -- After `cancel_existing` the track's context is done.
  cancel_existing-mem :
      (c : ℕ) (track : String) (h : Handler M)
      → Current h (c, track)
      → mem c (cancel_existing track h).cancelled ≡ true
  unfolding cancel_existing cancel
  cancel_existing-mem c track h (sub, l, e) = ground (arith, l, e)

  cancel_existing_keeps :
      (track : String) (h : Handler M)
      → ((cancel_existing track h).subscribers ≡ h.subscribers)
        × ((cancel_existing track h).closed ≡ h.closed)
        × ((c : ℕ) → mem c h.cancelled ≡ true → mem c (cancel_existing track h).cancelled ≡ true)
  unfolding cancel_existing cancel
  cancel_existing_keeps track h = elim (Option-cases (lookup track h.subscribers)) [
    | inl n ↦ rw (n, cancel_existing) (refl, refl, λ c m. m)
    | inr (sub, n) ↦ rw (n, cancel_existing) (refl, refl, λ c m. ground (arith, m))
  ]

  pub carried : (h h1 h2 : Handler M) → h1 ≡ h2 → Carries h h2 → Carries h h1
  carried h h1 h2 e v = subst (Carries h) (sym e) v

  module _ (track : String) (h : Handler M) where
    abbrev pub renewed : Subscriber M → Handler M
    renewed sub = record (cancel_existing track h) {
      subscribers = insert track sub (cancel_existing track h).subscribers;
      next = suc h.next;
    }

    pub renewed-Moves : (sub : Subscriber M) → Moves h (renewed sub)
    renewed-Moves sub =
        let (s, k, d) = cancel_existing_keeps track h in
        record {
          done = d;
          current = λ c t (old, l, e). elim (Bool-cases (str_eq track t)) [
            | inl q ↦
                let same : track ≡ t = (eq_iff track t).0 q in
                inl (
                  cancel_existing-mem c track h (old, ap (λ x. lookup x h.subscribers) same ∙ l, e))
            | inr q ↦ inr (
              old,
              lookup-insert track t sub (cancel_existing track h).subscribers
                  ∙ simp q (ap (lookup t) s ∙ l),
              e,
            )
          ];
        }

    pub renewed-Carries : (sub : Subscriber M) → h.closed ≡ false → Carries h (renewed sub)
    renewed-Carries sub o =
        let (s, k, d) = cancel_existing_keeps track h in
        record { moves = renewed-Moves sub; emptied = λ f n. ground (arith, o, sym k ∙ n) }

    pub subscribe_open :
        (callback : M → Option Error)
        → h.closed ≡ false
        → subscribe track callback h
          ≡ (renewed (record { reader = none; handler = callback; ctx = h.next }), none)
    unfolding subscribe
    subscribe_open callback o = simp o refl

    pub stream_messages_open :
        (send : M → Option Error)
        → h.closed ≡ false
        → stream_messages track send h
          ≡ (renewed (record { reader = none; handler = send; ctx = h.next }), ok h.next)
    unfolding stream_messages
    stream_messages_open send o = simp o refl

    pub subscribe_shut :
        (callback : M → Option Error)
        → h.closed ≡ true
        → subscribe track callback h ≡ (h, some (sentinel connection_closed))
    unfolding subscribe
    subscribe_shut callback o = simp o refl

    pub stream_messages_shut :
        (send : M → Option Error)
        → h.closed ≡ true
        → stream_messages track send h ≡ (h, err (sentinel connection_closed))
    unfolding stream_messages
    stream_messages_shut send o = simp o refl
