-- ===== src/Data/Publishing/Rounds.antt =====
-- `BatchPublish` ends if the batch size is positive, whatever the peer and the messages do.
use mcp_moqt_transport.Base.{
  ℕ, zero, suc, ◌<◌, ◌≡◌, refl, ap, sym, ◌∙◌, Bool, true, Option, none, some, List, [], ◌∷◌, ◌++◌,
  String, length, take, drop, length-drop, arith, Option-cases, inl, inr, is_some, Bool-cases,
}
use mcp_moqt_transport.Base.Map.{lookup, string_key}
use mcp_moqt_transport.Errors.{Error, Result}
use mcp_moqt_transport.Tracks.{Peer, Bytes, Action, Outcome, waits, returns}
use mcp_moqt_transport.Data.{Handler}
use mcp_moqt_transport.Data.Publishing.{publish_batch, batch_loop, batch_publish}

module _ {M : Type 0} (marshal : M → Result Bytes) (ctx : Option Error) (ready_first : Bool)
    (peer : Peer) (arrival size : ℕ) (positive : 0 < size) where
  abbrev loop : ℕ → ℕ → List M → Handler M → Handler M × List Action × Option Outcome
  loop fuel w ms h = batch_loop marshal ctx ready_first peer fuel arrival size w ms h

  -- What the loop makes of a round and of the rounds behind it.
  abbrev joined :
      Handler M × List Action × Outcome
      → Handler M × List Action × Option Outcome
      → Handler M × List Action × Option Outcome
  joined (h', actions, waits) rest = (h', actions, some waits)
  joined (h', actions, returns (some e)) rest = (h', actions, some (returns (some e)))
  joined (h', actions, returns none) (h2, more, r2) = (h2, actions ++ more, r2)

  loop_round :
      (fuel w : ℕ) (m : M) (ms : List M) (h : Handler M)
      → let round = publish_batch marshal ctx ready_first peer arrival w (take size (m ∷ ms)) h in
        loop (suc fuel) w (m ∷ ms) h ≡ joined round (loop fuel w (drop size (m ∷ ms)) round.0)
  unfolding batch_loop
  loop_round fuel w m ms h = ground arith

  joined_ends :
      (round : Handler M × List Action × Outcome) (rest : Handler M × List Action × Option Outcome)
      → is_some rest.2 ≡ true
      → is_some (joined round rest).2 ≡ true
  joined_ends (h', actions, waits) rest e = refl
  joined_ends (h', actions, returns (some x)) rest e = refl
  joined_ends (h', actions, returns none) rest e = e

  -- More fuel than messages is enough, and what is left over changes nothing.
  loop_ends :
      (fuel other w : ℕ) (ms : List M) (h : Handler M)
      → length ms < fuel
      → length ms < other
      → (is_some (loop fuel w ms h).2 ≡ true) × (loop other w ms h ≡ loop fuel w ms h)
  unfolding batch_loop
  loop_ends zero other w ms h l k = absurd (omega (arith, l))
  loop_ends (suc fuel) zero w ms h l k = absurd (omega (arith, k))
  loop_ends (suc fuel) (suc other) w [] h l k = (refl, refl)
  loop_ends (suc fuel) (suc other) w (m ∷ ms) h l k =
      let round = publish_batch marshal ctx ready_first peer arrival w (take size (m ∷ ms)) h in
      let rest = drop size (m ∷ ms) in
      let shorter = length-drop size (m ∷ ms) in
      let (ends, same) =
        loop_ends fuel other w rest round.0 (omega (arith, shorter, l, positive))
          (omega (arith, shorter, k, positive)) in
      (
        ap (λ x. is_some x.2) (loop_round fuel w m ms h)
            ∙ joined_ends round (loop fuel w rest round.0) ends,
        loop_round other w m ms h ∙ ap (joined round) same ∙ sym (loop_round fuel w m ms h),
      )

  -- With a positive batch size, whatever the peer answers, the context and the serialization do:
  -- `BatchPublish` comes to its end after at most one round for each message (it has returned, or
  -- waits in a write for the publisher), and more rounds than that change nothing.
  pub batch_publish_ends :
      (fuel : ℕ) (track : String) (ms : List M) (h : Handler M)
      → length ms < fuel
      → let end =
          batch_publish marshal ctx ready_first peer (suc (length ms)) arrival size track ms h in
        (is_some end.2 ≡ true)
        × (batch_publish marshal ctx ready_first peer fuel arrival size track ms h ≡ end)
  unfolding batch_publish
  batch_publish_ends fuel track ms h l = elim (Bool-cases h.closed) [
    | inl c ↦ simp c (refl, refl)
    | inr o ↦ simp o (elim (Option-cases (lookup track h.publishers)) [
      | inl n ↦ simp n (refl, refl)
      | inr (w, n) ↦ simp n (loop_ends (suc (length ms)) fuel w ms h (omega arith) l)
    ])
  ]
