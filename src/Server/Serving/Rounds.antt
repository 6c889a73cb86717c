-- ===== src/Server/Serving/Rounds.antt =====
-- `Serve` against the calls of `Accept` that it makes.
use mcp_moqt_transport.Base.{
  ℕ, suc, ◌≡◌, refl, ap, ◌∙◌, true, false, Option, none, some, List, [], ◌∷◌, take, drop, length,
  All, if◌then◌else◌, Bool-cases, inl, inr,
}
use mcp_moqt_transport.Errors.{Error, Result, ok, err, Result-cases}
use mcp_moqt_transport.Metrics.{Metrics}
use mcp_moqt_transport.Server.{Server, Incoming}
use mcp_moqt_transport.Server.Serving.{Round, accept, serve_rounds}
use mcp_moqt_transport.Server.Live.{Live, Event, accepts, run, step, advance, answered, id_of}

abbrev pub accepts_of : List Round → List Event
accepts_of [] = []
accepts_of (r ∷ rs) = accepts r.accepted ∷ accepts_of rs

abbrev pub conns_of : Live → List ℕ
conns_of [] = []
conns_of ((c, id) ∷ m) = c ∷ conns_of m

-- The second list with the elements of the first put in front, one after the other.
abbrev pub pushed : List ℕ → List ℕ → List ℕ
pushed [] m = m
pushed (c ∷ cs) m = pushed cs (c ∷ m)

abbrev pub NotDone : Round → Type 0
NotDone r = r.done_first ≡ false

module _ {M : Type 0} (ctx_err : Error) (metrics : Metrics) where
  module _ (r : Round) (rs : List Round) (s : Server M) where
    abbrev rest : Server M × (List ℕ × Option Error)
    rest = serve_rounds ctx_err metrics rs (accept metrics r.accepted s).0

    serve_rounds_cancelled :
        r.done_first ≡ true → serve_rounds ctx_err metrics (r ∷ rs) s ≡ (s, ([], some ctx_err))
    unfolding serve_rounds
    serve_rounds_cancelled d = simp d refl

    serve_rounds_failed :
        (x : Error)
        → r.done_first ≡ false
        → (accept metrics r.accepted s).1 ≡ err x
        → serve_rounds ctx_err metrics (r ∷ rs) s
          ≡ ((accept metrics r.accepted s).0, ([], some (if r.done_after then ctx_err else x)))
    unfolding serve_rounds
    serve_rounds_failed x d h = rw (h, serve_rounds) (simp d refl)

    serve_rounds_accepted :
        (c : ℕ)
        → r.done_first ≡ false
        → (accept metrics r.accepted s).1 ≡ ok c
        → serve_rounds ctx_err metrics (r ∷ rs) s ≡ (rest.0, (c ∷ rest.1.0, rest.1.1))
    unfolding serve_rounds
    serve_rounds_accepted c d h = rw (h, serve_rounds) (simp d refl)

  module _ (x : Result Incoming) (es : List Event) (s : Server M) (m : Live) where
    run_failed :
        (e : Error)
        → (accept metrics x s).1 ≡ err e
        → run metrics (accepts x ∷ es) s m ≡ run metrics es (accept metrics x s).0 m
    unfolding run step advance
    run_failed e h =
        ap (λ r. run metrics es (accept metrics x s).0 (advance (answered (id_of x) r) m)) h

    run_opened :
        (c : ℕ)
        → (accept metrics x s).1 ≡ ok c
        → run metrics (accepts x ∷ es) s m
          ≡ run metrics es (accept metrics x s).0 ((c, id_of x) ∷ m)
    unfolding run step advance
    run_opened c h =
        ap (λ r. run metrics es (accept metrics x s).0 (advance (answered (id_of x) r) m)) h

  -- How `Serve` stands after `k` rounds of which it handed on the connections of all that were accepted:
  -- it has made every round, and still runs; or the context was done at the start of the next one; or
  -- the last one's `Accept` failed, in a server that the rounds before it had left at `s`.
  pub data Ending (rs : List Round) (k : ℕ) (s : Server M) (handled : ℕ) (e : Option Error)
      : Type 0 where
    runs_on : k ≡ length rs → handled ≡ k → e ≡ none → Ending rs k s handled e
    cancelled :
        (r : Round) (rest : List Round)
        → drop k rs ≡ r ∷ rest
        → r.done_first ≡ true
        → handled ≡ k
        → e ≡ some ctx_err
        → Ending rs k s handled e
    failed :
        (r : Round) (rest : List Round) (x : Error)
        → drop handled rs ≡ r ∷ rest
        → k ≡ suc handled
        → (accept metrics r.accepted s).1 ≡ err x
        → e ≡ some (if r.done_after then ctx_err else x)
        → Ending rs k s handled e

  Ending-suc :
      (r : Round) (rs : List Round) (k : ℕ) (s : Server M) (handled : ℕ) (e : Option Error)
      → Ending rs k s handled e
      → Ending (r ∷ rs) (suc k) s (suc handled) e
  Ending-suc r rs k s handled e (runs_on a b c) = runs_on (ap suc a) (ap suc b) c
  Ending-suc r rs k s handled e (cancelled q rest a b c d) = cancelled q rest a b (ap suc c) d
  Ending-suc r rs k s handled e (failed q rest x a b c d) = failed q rest x a (ap suc b) c d

  -- `Serve` makes the calls of `Accept` of its first `k` rounds, at whose starts the context is not done:
  -- all that there are, or those up to the first that fails or the one before the first at whose start
  -- the context is done. The server and its live sessions are what these calls alone make of them, the
  -- connections that it hands to `handle` are those that they opened, each once and in order, and the
  -- result is the context's error if it is done, and else the error of the failed `Accept`.
  pub serve_rounds-run :
      (rs : List Round) (s : Server M) (m : Live)
      → let (s', (handled, e)) = serve_rounds ctx_err metrics rs s in
        (k : ℕ) × ((run metrics (accepts_of (take k rs)) s m).0 ≡ s')
        × (conns_of (run metrics (accepts_of (take k rs)) s m).1 ≡ pushed handled (conns_of m))
        × All NotDone (take k rs)
        × Ending rs k (run metrics (accepts_of (take (length handled) rs)) s m).0 (length handled) e
  unfolding serve_rounds run
  serve_rounds-run [] s m = (0, refl, refl, tt, runs_on refl refl refl)
  serve_rounds-run (r ∷ rs) s m = elim (Bool-cases r.done_first) [
    | inl d ↦
        rw (serve_rounds_cancelled r rs s d) (0, refl, refl, tt, cancelled r rs refl d refl refl)
    | inr d ↦ elim (Result-cases (accept metrics r.accepted s).1) [
      | inl (x, h) ↦ rw (serve_rounds_failed r rs s x d h) (
        1,
        ap (λ q. q.0) (run_failed r.accepted [] s m x h),
        ap (λ q. conns_of q.1) (run_failed r.accepted [] s m x h),
        (d, tt),
        failed r rs x refl refl h refl,
      )
      | inr (c, h) ↦
          let s' = (accept metrics r.accepted s).0 in
          let m' = (c, id_of r.accepted) ∷ m in
          let (k, q, o, a, z) = serve_rounds-run rs s' m' in
          let first = run_opened r.accepted (accepts_of (take k rs)) s m c h in
          let ended = rest_ending r rs s m c h k z in
          rw (serve_rounds_accepted r rs s c d h)
            (suc k, ap (λ q. q.0) first ∙ q, ap (λ q. conns_of q.1) first ∙ o, (d, a), ended)
    ]
  ]
    where
      rest_ending :
          (r : Round) (rs : List Round) (s : Server M) (m : Live) (c : ℕ)
          → (accept metrics r.accepted s).1 ≡ ok c
          → (k : ℕ)
          → (let t = (accept metrics r.accepted s).0 in
              let out = (serve_rounds ctx_err metrics rs t).1 in
              let n = length out.0 in
              Ending rs k
                (run metrics (accepts_of (take n rs)) t ((c, id_of r.accepted) ∷ m)).0
                n
                out.1)
          → let n = length (rest r rs s).1.0 in
            Ending
              (r ∷ rs)
              (suc k)
              (run metrics (accepts_of (take (suc n) (r ∷ rs))) s m).0
              (suc n)
              (rest r rs s).1.1
      rest_ending r rs s m c h k z =
          let n = length (rest r rs s).1.0 in
          rw (run_opened r.accepted (accepts_of (take n rs)) s m c h)
            (Ending-suc r rs k _ n (rest r rs s).1.1 z)
