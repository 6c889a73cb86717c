-- ===== src/Data/Closing.antt =====
-- pkg/moqttransport/data_track_handler.go: what `Close` and `Unsubscribe` leave behind.
use mathlib.Core.Path.{subst}
use mcp_moqt_transport.Base.{
  ℕ, ◌≡◌, refl, sym, ap, ◌∙◌, inl, inr, true, false, Option, none, some, List, [], ◌∷◌, String,
  arith, Option-cases, Bool-cases, All,
}
use mcp_moqt_transport.Base.Map.{lookup, nat_key, string_key, lookup-insert, lookup-insert_self}
use mcp_moqt_transport.Tracks.{TrackWriter, close_writer}
use mcp_moqt_transport.Data.{
  Handler, Subscriber, mem, cancel, close_reader, close_at, close_writers, stop_subscribers, close,
}

-- The writer of the entry, if there is one at its address, is closed.
abbrev pub Shut : List (ℕ × TrackWriter) → ℕ → Type 0
Shut writers a = (w : TrackWriter) → lookup a writers ≡ some w → w.closed ≡ true

module _ {M : Type 0} where
  -- The context of the subscription is done.
  abbrev pub Stopped : Handler M → String × Subscriber M → Type 0
  Stopped h entry = mem entry.1.ctx h.cancelled ≡ true

  close_reader-cancelled :
      (r : Option ℕ) (h : Handler M) → (close_reader r h).cancelled ≡ h.cancelled
  unfolding close_reader
  close_reader-cancelled none h = refl
  close_reader-cancelled (some r) h = refl

  stop_one-cancelled :
      (sub : Subscriber M) (h : Handler M)
      → (close_reader sub.reader (cancel sub.ctx h)).cancelled ≡ sub.ctx ∷ h.cancelled
  unfolding cancel
  stop_one-cancelled sub h = close_reader-cancelled sub.reader (cancel sub.ctx h)

  -- Stopping subscribers never revives a context.
  stop_subscribers-mem :
      (subs : List (String × Subscriber M)) (h : Handler M) (c : ℕ)
      → mem c h.cancelled ≡ true
      → mem c (stop_subscribers subs h).cancelled ≡ true
  unfolding stop_subscribers
  stop_subscribers-mem [] h c e = e
  stop_subscribers-mem ((track, sub) ∷ rest) h c e =
      stop_subscribers-mem rest (close_reader sub.reader (cancel sub.ctx h)) c
        (rw (stop_one-cancelled sub h) (ground arith))

  stop_subscribers-Stopped :
      (subs : List (String × Subscriber M)) (h : Handler M)
      → All (Stopped (stop_subscribers subs h)) subs
  unfolding stop_subscribers
  stop_subscribers-Stopped [] h = tt
  stop_subscribers-Stopped ((track, sub) ∷ rest) h =
      let h' = close_reader sub.reader (cancel sub.ctx h) in
      (
        stop_subscribers-mem rest h' sub.ctx (rw (stop_one-cancelled sub h) (ground arith)),
        stop_subscribers-Stopped rest h',
      )

  close_at-Shut : (a : ℕ) (h : Handler M) → Shut (close_at a h).writers a
  unfolding close_at
  close_at-Shut a h w e = elim (Option-cases (lookup a h.writers)) [
    | inl n ↦ ground arith
    | inr (v, n) ↦
        unfold close_writer in ground (arith, lookup-insert_self a (close_writer v) h.writers)
  ]

  close_at-Shut_other : (a b : ℕ) (h : Handler M) → Shut h.writers b → Shut (close_at a h).writers b
  unfolding close_at
  close_at-Shut_other a b h s w e = elim (Option-cases (lookup a h.writers)) [
    | inl n ↦ s w (ground arith)
    | inr (v, n) ↦
        unfold close_writer in ground (arith, lookup-insert a b (close_writer v) h.writers, s w)
  ]

  close_writers-Shut_other :
      (pubs : List (String × ℕ)) (h : Handler M) (b : ℕ)
      → Shut h.writers b
      → Shut (close_writers pubs h).writers b
  unfolding close_writers
  close_writers-Shut_other [] h b s = s
  close_writers-Shut_other ((track, a) ∷ rest) h b s =
      close_writers-Shut_other rest (close_at a h) b (close_at-Shut_other a b h s)

  close_writers-Shut :
      (pubs : List (String × ℕ)) (h : Handler M)
      → All (λ e. Shut (close_writers pubs h).writers e.1) pubs
  unfolding close_writers
  close_writers-Shut [] h = tt
  close_writers-Shut ((track, a) ∷ rest) h = (
    close_writers-Shut_other rest (close_at a h) a (close_at-Shut a h),
    close_writers-Shut rest (close_at a h),
  )

  close_at-subscribers : (a : ℕ) (h : Handler M) → (close_at a h).subscribers ≡ h.subscribers
  unfolding close_at
  close_at-subscribers a h = ground arith

  close_writers-subscribers :
      (pubs : List (String × ℕ)) (h : Handler M)
      → (close_writers pubs h).subscribers ≡ h.subscribers
  unfolding close_writers
  close_writers-subscribers [] h = refl
  close_writers-subscribers ((track, a) ∷ rest) h =
      close_writers-subscribers rest (close_at a h) ∙ close_at-subscribers a h

  close_reader-writers : (r : Option ℕ) (h : Handler M) → (close_reader r h).writers ≡ h.writers
  unfolding close_reader
  close_reader-writers none h = refl
  close_reader-writers (some r) h = refl

  stop_subscribers-writers :
      (subs : List (String × Subscriber M)) (h : Handler M)
      → (stop_subscribers subs h).writers ≡ h.writers
  unfolding stop_subscribers cancel
  stop_subscribers-writers [] h = refl
  stop_subscribers-writers ((track, sub) ∷ rest) h =
      stop_subscribers-writers rest (close_reader sub.reader (cancel sub.ctx h))
      ∙ close_reader-writers sub.reader (cancel sub.ctx h)

  close_reader-publishers :
      (r : Option ℕ) (h : Handler M) → (close_reader r h).publishers ≡ h.publishers
  unfolding close_reader
  close_reader-publishers none h = refl
  close_reader-publishers (some r) h = refl

  stop_subscribers-publishers :
      (subs : List (String × Subscriber M)) (h : Handler M)
      → (stop_subscribers subs h).publishers ≡ h.publishers
  unfolding stop_subscribers cancel
  stop_subscribers-publishers [] h = refl
  stop_subscribers-publishers ((track, sub) ∷ rest) h =
      stop_subscribers-publishers rest (close_reader sub.reader (cancel sub.ctx h))
      ∙ close_reader-publishers sub.reader (cancel sub.ctx h)

  -- The handler after the writers' loop of `Close`, and at its end.
  abbrev halfway : Handler M → Handler M
  halfway h = record (close_writers h.publishers (record h { closed = true; done = true })) {
    publishers = [];
  }

  abbrev ended : Handler M → Handler M
  ended h = record (stop_subscribers (halfway h).subscribers (halfway h)) { subscribers = [] }

  close-ended : (h : Handler M) → h.closed ≡ false → close h ≡ ended h
  unfolding close
  close-ended h o = simp o

  halfway-subscribers : (h : Handler M) → (halfway h).subscribers ≡ h.subscribers
  halfway-subscribers h =
      close_writers-subscribers h.publishers (record h { closed = true; done = true })

  -- The first `Close` of a handler closes the writer of every publisher, cancels the context of every
  -- subscription, and leaves neither publishers nor subscribers.
  pub close_releases :
      (h : Handler M)
      → h.closed ≡ false
      → ((close h).publishers ≡ [])
        × ((close h).subscribers ≡ [])
        × All (Stopped (close h)) h.subscribers
        × All (λ e. Shut (close h).writers e.1) h.publishers
  close_releases h o =
      let stopped = stop_subscribers-Stopped (halfway h).subscribers (halfway h) in
      let shut = close_writers-Shut h.publishers (record h { closed = true; done = true }) in
      rw (close-ended h o) (
        stop_subscribers-publishers (halfway h).subscribers (halfway h),
        refl,
        subst (λ s. All (Stopped (ended h)) s) (halfway-subscribers h) stopped,
        subst (λ ws. All (λ e. Shut ws e.1) h.publishers)
            (sym (stop_subscribers-writers (halfway h).subscribers (halfway h))) shut,
      )

  close_writers-closed :
      (pubs : List (String × ℕ)) (h : Handler M) → (close_writers pubs h).closed ≡ h.closed
  unfolding close_writers close_at
  close_writers-closed [] h = refl
  close_writers-closed ((track, a) ∷ rest) h =
      close_writers-closed rest (close_at a h) ∙ ground arith

  close_reader-closed : (r : Option ℕ) (h : Handler M) → (close_reader r h).closed ≡ h.closed
  unfolding close_reader
  close_reader-closed none h = refl
  close_reader-closed (some r) h = refl

  stop_subscribers-closed :
      (subs : List (String × Subscriber M)) (h : Handler M)
      → (stop_subscribers subs h).closed ≡ h.closed
  unfolding stop_subscribers cancel
  stop_subscribers-closed [] h = refl
  stop_subscribers-closed ((track, sub) ∷ rest) h =
      stop_subscribers-closed rest (close_reader sub.reader (cancel sub.ctx h))
      ∙ close_reader-closed sub.reader (cancel sub.ctx h)

  pub close-closed : (h : Handler M) → (close h).closed ≡ true
  unfolding close
  close-closed h = elim (Bool-cases h.closed) [
    | inl c ↦ simp c refl
    | inr o ↦ rw (close-ended h o) (
        stop_subscribers-closed (halfway h).subscribers (halfway h)
        ∙ close_writers-closed h.publishers (record h { closed = true; done = true }))
  ]

  close_at-cancelled : (a : ℕ) (h : Handler M) → (close_at a h).cancelled ≡ h.cancelled
  unfolding close_at
  close_at-cancelled a h = ground arith

  close_writers-cancelled :
      (pubs : List (String × ℕ)) (h : Handler M) → (close_writers pubs h).cancelled ≡ h.cancelled
  unfolding close_writers
  close_writers-cancelled [] h = refl
  close_writers-cancelled ((track, a) ∷ rest) h =
      close_writers-cancelled rest (close_at a h) ∙ close_at-cancelled a h

  -- A context that is done stays so.
  pub close-mem :
      (c : ℕ) (h : Handler M) → mem c h.cancelled ≡ true → mem c (close h).cancelled ≡ true
  close-mem c h m = elim (Bool-cases h.closed) [
    | inl k ↦ unfold close in simp k m
    | inr o ↦ rw (close-ended h o) (
        stop_subscribers-mem (halfway h).subscribers (halfway h) c (
          ap (mem c)
            (close_writers-cancelled h.publishers (record h { closed = true; done = true }))
          ∙ m))
  ]
