-- ===== src/Data/Delivery.antt =====
-- What reaches a subscriber's callback.
use mathlib.Core.List.{reverse, reverse-cons, append_assoc}
use mcp_moqt_transport.Base.{
  ℕ, ◌≤◌, ◌≡◌, refl, ap, sym, ◌∙◌, ◌⊎◌, inl, inr, false, none, some, List, [], ◌∷◌, ◌++◌, map,
  String, length, arith, Bool-cases, Option-cases, ltb,
}
use mcp_moqt_transport.Base.Map.{lookup, nat_key, string_key}
use mcp_moqt_transport.Errors.{
  Error, Result, ok, Result-cases, sentinel, connection_closed, no_subscriber, message_too_large,
}
use mcp_moqt_transport.Tracks.{Bytes}
use mcp_moqt_transport.Data.{
  Handler, Subscriber, handle_data, mem, canceled, max_message_size, receive_loop,
}

onto {ℓ} : {A : Type ℓ} (x : A) (xs ys : List A) → reverse xs ++ x ∷ ys ≡ reverse (x ∷ xs) ++ ys
onto x xs ys = sym (rw (reverse-cons x xs) (append_assoc (reverse xs) (x ∷ []) ys))

module _ {M : Type 0} (unmarshal : Bytes → Result M) where
  -- The conditions under which `HandleData` calls the callback.
  pub record Deliverable (track : String) (bytes : Bytes) (h : Handler M) (sub : Subscriber M)
      (m : M) : Type 0 where
    pub is_open : h.closed ≡ false
    pub fits : length bytes ≤ max_message_size
    pub subscribed : lookup track h.subscribers ≡ some sub
    pub decoded : unmarshal bytes ≡ ok m
    pub live : mem sub.ctx h.cancelled ≡ false

  -- `HandleData` hands the decoded message to the track's current subscriber and returns what its
  -- callback returns, if the handler is open, the message fits, there is a subscriber, it decodes and
  -- the subscription is not cancelled.
  handle_data_delivers :
      (track : String) (bytes : Bytes) (h : Handler M) (sub : Subscriber M) (m : M)
      → Deliverable track bytes h sub m
      → let (h', r) = handle_data unmarshal track bytes h in
        (h'.delivered ≡ m ∷ h.delivered)
        × (h'.subscribers ≡ h.subscribers)
        × (h'.cancelled ≡ h.cancelled)
        × (h'.closed ≡ h.closed)
        × (h'.done ≡ h.done)
        × (r ≡ sub.handler m)
  unfolding handle_data
  handle_data_delivers track bytes h sub m d =
      let small : ltb max_message_size (length bytes) ≡ false = ground (arith, d.fits) in
      simp (d.is_open, small, d.subscribed, d.decoded, d.live) (refl, refl, refl, refl, refl, refl)

  -- Every call of `HandleData` either meets the conditions under which it delivers the message, or
  -- returns an error and changes nothing.
  handle_data_otherwise :
      (track : String) (bytes : Bytes) (h : Handler M)
      → ((sub : Subscriber M) × (m : M) × Deliverable track bytes h sub m)
        ⊎ (((handle_data unmarshal track bytes h).0 ≡ h)
            × (e : Error) × ((handle_data unmarshal track bytes h).1 ≡ some e))
  unfolding handle_data
  handle_data_otherwise track bytes h = elim (Bool-cases h.closed) [
    | inl c ↦ inr (simp c, sentinel connection_closed, simp c)
    | inr c ↦ elim (Bool-cases (ltb max_message_size (length bytes))) [
      | inl l ↦ inr (simp (c, l), sentinel message_too_large, simp (c, l))
      | inr l ↦ elim (Option-cases (lookup track h.subscribers)) [
        | inl s ↦ inr (simp (c, l, s), sentinel no_subscriber, simp (c, l, s))
        | inr (sub, s) ↦ elim (Result-cases (unmarshal bytes)) [
          | inl (e, u) ↦ inr (simp (c, l, s, u), e, simp (c, l, s, u))
          | inr (m, u) ↦ elim (Bool-cases (mem sub.ctx h.cancelled)) [
            | inl d ↦ inr (simp (c, l, s, u, d), canceled, simp (c, l, s, u, d))
            | inr d ↦ inl (
              sub,
              m,
              record { is_open = c; fits = ground arith; subscribed = s; decoded = u; live = d },
            )
          ]
        ]
      ]
    ]
  ]

  -- A subscription that is not cancelled, with a callback that never fails.
  pub record IsLive (track : String) (ctx : ℕ) (h : Handler M) : Type 0 where
    pub is_open : h.closed ≡ false
    pub running : h.done ≡ false
    pub sub : Subscriber M
    pub subscribed : lookup track h.subscribers ≡ some sub
    pub its_ctx : sub.ctx ≡ ctx
    pub live : mem ctx h.cancelled ≡ false
    pub succeeds : (m : M) → sub.handler m ≡ none

  -- While the subscription lives, its callback does not fail and what is read are the encodings
  -- of messages that fit and decode, the receive loop keeps reading, and hands every message to
  -- the callback exactly once, in order.
  pub receive_loop_in_order :
      (enc : M → Bytes) (track : String) (ctx reader : ℕ) (ms : List M) (h : Handler M)
      → ((m : M) → unmarshal (enc m) ≡ ok m)
      → ((m : M) → length (enc m) ≤ max_message_size)
      → IsLive track ctx h
      → let (h', returned) = receive_loop unmarshal ctx track reader (map (λ m. ok (enc m)) ms) h in
        (h'.delivered ≡ reverse ms ++ h.delivered) × (returned ≡ false)
  unfolding receive_loop
  receive_loop_in_order enc track ctx reader [] h decode fit v =
      simp (v.live, v.running) (refl, refl)
  receive_loop_in_order enc track ctx reader (m ∷ ms) h decode fit v =
      let r = handle_data unmarshal track (enc m) h in
      let (d, subs, canc, cl, dn, res) = handle_data_delivers track (enc m) h v.sub m (record {
        is_open = v.is_open;
        fits = fit m;
        subscribed = v.subscribed;
        decoded = decode m;
        live = rw v.its_ctx v.live;
      }) in
      let ih = receive_loop_in_order enc track ctx reader ms r.0 decode fit (record {
        is_open = cl ∙ v.is_open;
        running = dn ∙ v.running;
        sub = v.sub;
        subscribed = ap (lookup track) subs ∙ v.subscribed;
        its_ctx = v.its_ctx;
        live = ap (mem ctx) canc ∙ v.live;
        succeeds = v.succeeds;
      }) in
      let fine : r.1 ≡ none = res ∙ v.succeeds m in
      simp (v.live, v.running, fine)
        (ih.0 ∙ ap (λ t. reverse ms ++ t) d ∙ onto m ms h.delivered, ih.1)
