-- ===== src/Control/Writing/Counts.antt =====
-- What `Write` counts.
use mathlib.Core.Path.{subst}
use mcp_moqt_transport.Base.{
  ℕ, zero, suc, ◌+◌, ◌<◌, ◌≡◌, ◌≢◌, refl, ap, sym, ◌∙◌, Bool, false, Option, none, some, String,
  if◌then◌else◌, ltb, length, arith,
}
use mcp_moqt_transport.Base.Word.{inc_64, two_63}
use mcp_moqt_transport.Errors.{Error, Result, ok}
use mcp_moqt_transport.Metrics.{record_error, record_retry, record_message_sent}
use mcp_moqt_transport.Tracks.{Peer, Bytes, Outcome, waits, returns}
use mcp_moqt_transport.Tracks
use mcp_moqt_transport.Retry.{RetryConfig, retry_do}
use mcp_moqt_transport.Retry.Attempts.{attempts}
use mcp_moqt_transport.Retry.Endings.{Ended, retry_do-Ended}
use mcp_moqt_transport.Control.{ControlConn, Message, extract_message_id, track_ack_async}
use mcp_moqt_transport.Control.Writing.{
  Attempt, after_write, attempt_write, resolved, after, outcome, finish, write,
}

abbrev sent : ControlConn → ℕ
sent c = c.metrics.messages_sent

after_write-sent :
    (now size : ℕ) (id : String) (r : Outcome) (c : ControlConn)
    → (r ≡ returns none → sent (after_write now size id r c) ≡ inc_64 (sent c))
      × (r ≢ returns none → sent (after_write now size id r c) ≡ sent c)
unfolding after_write track_ack_async record_message_sent record_error
after_write-sent now size id waits c = (λ e. cc, λ n. refl)
after_write-sent now size id (returns (some e)) c = (λ h. cc, λ n. refl)
after_write-sent now size id (returns none) c = (λ h. ground arith, λ n. absurd (n refl))

returned_none : (o : Outcome) → resolved o ≡ none → o ≢ waits → o ≡ returns none
returned_none waits e w = absurd (w refl)
returned_none (returns none) e w = refl
returned_none (returns (some x)) e w = cc

failed : (o : Outcome) → resolved o ≢ none → o ≢ returns none
failed waits n e = cc
failed (returns none) n e = n refl
failed (returns (some x)) n e = cc

length-attempts : (a k : ℕ) → length (attempts a k) ≡ k
length-attempts a zero = refl
length-attempts a (suc k) = ap suc (length-attempts (suc a) k)

module _ (env : ℕ → Attempt) (bytes : Bytes) (id : String) (c : ControlConn) where
  abbrev sent_after : ℕ → ℕ
  sent_after n = sent (after env bytes id n c)

  abbrev came_to : ℕ → Outcome
  came_to n = outcome env bytes id n c

  after-sent :
      (n : ℕ)
      → (came_to (suc n) ≡ returns none → sent_after (suc n) ≡ inc_64 (sent_after n))
        × (came_to (suc n) ≢ returns none → sent_after (suc n) ≡ sent_after n)
  unfolding after outcome attempt_write record_retry
  after-sent n =
      let a = env (suc n) in
      let c' = after env bytes id n c in
      let m = if ltb 1 (suc n) then record_retry c'.metrics else c'.metrics in
      let w = Tracks.write a.ctx a.ready_first a.peer bytes c'.write_track in
      let kept : m.messages_sent ≡ sent c' = ground arith in
      let s =
        after_write-sent a.now (length bytes) id w.2
          (record c' { metrics = m; write_track = w.0 }) in
      (λ e. s.0 e ∙ ap inc_64 kept, λ e. s.1 e ∙ kept)

  abbrev fn : ℕ → Option Error
  fn n = resolved (came_to n)

  -- The calls up to the `k`-th after attempt `b`, of which the last did not wait.
  Ended-sent :
      (b k : ℕ) (r : Option Error)
      → Ended fn (suc b) (suc k) r
      → came_to (suc (b + k)) ≢ waits
      → (r ≡ none → sent_after (suc (b + k)) ≡ inc_64 (sent_after b))
        × (r ≢ none → sent_after (suc (b + k)) ≡ sent_after b)
  Ended-sent b zero r e w =
      let here = after-sent b in
      let last : suc (b + 0) ≡ suc b = omega arith in
      rw last (
        λ n. here.0 (returned_none (came_to (suc b)) (e.1 n) (rw last at w)),
        λ n. here.1 (failed (came_to (suc b)) (λ f. n (e.0 f))),
      )
  Ended-sent b (suc k) r e w =
      let here = (after-sent b).1 (failed (came_to (suc b)) e.0) in
      let same : suc (b + suc k) ≡ suc (suc b + k) = omega arith in
      let rest = Ended-sent (suc b) k r e.1 (rw same at w) in
      rw same (λ n. rest.0 n ∙ ap inc_64 here, λ n. rest.1 n ∙ here)

  -- The same from the first attempt on.
  first-sent :
      (k : ℕ) (r : Option Error)
      → Ended fn 1 (suc k) r
      → came_to (suc k) ≢ waits
      → (r ≡ none → sent_after (suc k) ≡ inc_64 (sent_after 0))
        × (r ≢ none → sent_after (suc k) ≡ sent_after 0)
  first-sent k r e =
      let start : suc (0 + k) ≡ suc k = omega arith in
      subst
        (λ m.
          came_to m ≢ waits
          → (r ≡ none → sent_after m ≡ inc_64 (sent_after 0))
            × (r ≢ none → sent_after m ≡ sent_after 0))
        start (Ended-sent 0 k r e)

finish-sent : (o : Outcome) (r : Option Error) (c : ControlConn) → sent (finish o r c).0 ≡ sent c
unfolding finish record_error
finish-sent waits r c = refl
finish-sent (returns last) none c = refl
finish-sent (returns last) (some e) c = refl

finish_returned :
    (o : Outcome) (r s : Option Error) (c : ControlConn)
    → (finish o r c).1 ≡ returns s
    → (o ≢ waits) × (s ≡ r)
unfolding finish
finish_returned waits r s c e = cc
finish_returned (returns last) none s c e = (λ w. cc, cc)
finish_returned (returns last) (some x) s c e = (λ w. cc, cc)

-- What is claimed of a result and the connection that it left.
abbrev Counted : ControlConn → ControlConn × Outcome → Type 0
Counted c w =
    (r : Option Error)
    → w.1 ≡ returns r
    → (r ≡ none → sent w.0 ≡ inc_64 (sent c)) × (r ≢ none → sent w.0 ≡ sent c)

finish-Counted :
    (env : ℕ → Attempt) (bytes : Bytes) (id : String) (c : ControlConn) (k : ℕ) (r : Option Error)
    → Ended (fn env bytes id c) 1 k r
    → (k ≡ 0 → r ≢ none)
    → Counted c (finish (outcome env bytes id k c) r (after env bytes id k c))
unfolding after outcome
finish-Counted env bytes id c zero r e z s done =
    let (w, q) = finish_returned (returns none) r s c done in
    let f = finish-sent (returns none) r c in (λ n. absurd (z refl (sym q ∙ n)), λ n. f)
finish-Counted env bytes id c (suc k) r e z s done =
    let o = outcome env bytes id (suc k) c in
    let c' = after env bytes id (suc k) c in
    let (w, q) = finish_returned o r s c' done in
    let f = finish-sent o r c' in
    let counts = first-sent env bytes id c k r e w in
    (λ n. f ∙ counts.0 (sym q ∙ n), λ n. f ∙ counts.1 (λ m. n (q ∙ m)))

module _ {F : Type 0} (same : Error → Error → Bool) (config : RetryConfig F)
    (encode : Message → Result Bytes) (closed_error : Error) where
  opened :
      (env : ℕ → Attempt) (before wait : ℕ → Option Error) (message : Message) (bytes : Bytes)
      (c : ControlConn)
      → c.closed ≡ false
      → encode message ≡ ok bytes
      → (let id = extract_message_id message in
          let run = retry_do same config (fn env bytes id c) before wait in
          let k = length run.1 in
          write same config encode closed_error env before wait message c
          ≡ finish (outcome env bytes id k c) run.0 (after env bytes id k c))
  unfolding write
  opened env before wait message bytes c o e = simp (o, e) refl

  -- When a `Write` on an open connection returns, it has counted the message as sent exactly once if
  -- it returns nil, however many attempts failed before, and not at all if it returns an error.
  pub write-messages_sent :
      (env : ℕ → Attempt) (before wait : ℕ → Option Error) (message : Message) (bytes : Bytes)
      (c : ControlConn) (r : Option Error)
      → 0 < config.max_attempts
      → config.max_attempts < two_63
      → c.closed ≡ false
      → encode message ≡ ok bytes
      → (write same config encode closed_error env before wait message c).1 ≡ returns r
      → let c' = (write same config encode closed_error env before wait message c).0 in
        (r ≡ none → c'.metrics.messages_sent ≡ inc_64 c.metrics.messages_sent)
        × (r ≢ none → c'.metrics.messages_sent ≡ c.metrics.messages_sent)
  write-messages_sent env before wait message bytes c r p b o e done =
      let id = extract_message_id message in
      let f = fn env bytes id c in
      let (k, calls, ended, z) = retry_do-Ended same config f before wait p b in
      let run = retry_do same config f before wait in
      let len : length run.1 ≡ k = ap length calls ∙ length-attempts 1 k in
      let counted = finish-Counted env bytes id c k run.0 ended z in
      let shown : Counted c (write same config encode closed_error env before wait message c) =
        rw (opened env before wait message bytes c o e, len) counted in
      shown r done
