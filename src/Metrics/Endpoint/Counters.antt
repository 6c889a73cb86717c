-- ===== src/Metrics/Endpoint/Counters.antt =====
-- The metrics that the endpoint announces as counters, from one scrape to the next.
use mcp_moqt_transport.Base.{ℕ, ◌+◌, ◌≤◌, ◌<◌, ◌≡◌, refl, true, false, List, [], ◌∷◌, arith, All}
use mcp_moqt_transport.Base.Word.{two_63}
use mcp_moqt_transport.Metrics.{
  Metrics, snapshot, Event, message_sent, message_received, data_track_message, step, run,
}
use mcp_moqt_transport.Metrics.Endpoint.{Kind, counter, gauge, Family, families}

-- What an event can add to a counter, at most.
abbrev pub budget : Event → ℕ
budget (message_sent n) = 1 + n
budget (message_received n) = 1 + n
budget (data_track_message n) = 1 + n
budget _ = 1

abbrev pub budget_of : List Event → ℕ
budget_of [] = 0
budget_of (e ∷ es) = budget e + budget_of es

abbrev counts : Metrics → List ℕ
counts m =
    m.messages_sent ∷ m.messages_received ∷ m.messages_acked ∷ m.messages_nacked
    ∷ m.messages_timeout ∷ m.bytes_sent ∷ m.bytes_received ∷ m.errors ∷ m.retries
    ∷ m.heartbeats_sent ∷ m.heartbeats_failed ∷ m.connections_total ∷ m.tracks_total
    ∷ m.data_track_messages ∷ m.data_track_bytes ∷ []

-- Every counter can grow by so much and stay a positive int64.
abbrev pub Room : ℕ → Metrics → Type 0
Room n m = All (λ v. v + n < two_63) (counts m)

-- Each counter has grown, by `n` at most.
abbrev UpTo : ℕ → List ℕ → List ℕ → Type 0
UpTo n [] [] = Unit
UpTo n (u ∷ us) (v ∷ vs) = (u ≤ v) × (v ≤ u + n) × UpTo n us vs
UpTo n _ _ = true ≡ false

UpTo-zero : (us : List ℕ) → UpTo 0 us us
UpTo-zero [] = tt
UpTo-zero (u ∷ us) = (omega arith, omega arith, UpTo-zero us)

UpTo-trans : (m n : ℕ) (us vs ws : List ℕ) → UpTo m us vs → UpTo n vs ws → UpTo (m + n) us ws
UpTo-trans m n [] [] [] a b = tt
UpTo-trans m n [] [] (w ∷ ws) a b = b
UpTo-trans m n [] (v ∷ vs) ws a b = ground (arith, a)
UpTo-trans m n (u ∷ us) [] ws a b = ground (arith, a)
UpTo-trans m n (u ∷ us) (v ∷ vs) [] a b = ground (arith, b)
UpTo-trans m n (u ∷ us) (v ∷ vs) (w ∷ ws) (a0, a1, a) (b0, b1, b) =
    (omega (arith, a0, b0), omega (arith, a1, b1), UpTo-trans m n us vs ws a b)

UpTo-room :
    (n rest : ℕ) (us vs : List ℕ)
    → UpTo n us vs
    → All (λ v. v + (n + rest) < two_63) us
    → All (λ v. v + rest < two_63) vs
UpTo-room n rest [] [] a r = tt
UpTo-room n rest [] (v ∷ vs) a r = ground (arith, a)
UpTo-room n rest (u ∷ us) [] a r = tt
UpTo-room n rest (u ∷ us) (v ∷ vs) (a0, a1, a) (r0, r) =
    (omega (arith, a1, r0), UpTo-room n rest us vs a r)

less_room :
    (n rest : ℕ) (us : List ℕ)
    → All (λ v. v + (n + rest) < two_63) us
    → All (λ v. v + n < two_63) us
less_room n rest [] r = tt
less_room n rest (u ∷ us) (r0, r) = (omega (arith, r0), less_room n rest us r)

step-UpTo :
    (e : Event) (m : Metrics) → Room (budget e) m → UpTo (budget e) (counts m) (counts (step e m))
unfolding step
step-UpTo e m r = ground (arith, r)

run-UpTo :
    (es : List Event) (m : Metrics)
    → Room (budget_of es) m
    → UpTo (budget_of es) (counts m) (counts (run es m))
unfolding run
run-UpTo [] m r = UpTo-zero (counts m)
run-UpTo (e ∷ es) m r =
    let n = budget e in
    let here = step-UpTo e m (less_room n (budget_of es) (counts m) r) in
    let further =
      run-UpTo es (step e m) (UpTo-room n (budget_of es) (counts m) (counts (step e m)) here r) in
    UpTo-trans n (budget_of es) (counts m) (counts (step e m)) (counts (run es (step e m))) here
      further

module _ {F : Type 0} (Le : F → F → Type 0) where
  abbrev pub Grows : Kind → F → F → Type 0
  Grows counter u v = Le u v
  Grows gauge u v = Unit

  -- The same metrics in the same order, and each counter at least as high.
  abbrev pub Grown : List (Family F) → List (Family F) → Type 0
  Grown [] [] = Unit
  Grown (f ∷ fs) (g ∷ gs) =
      (f.name ≡ g.name) × (f.kind ≡ g.kind) × Grows f.kind f.value g.value × Grown fs gs
  Grown _ _ = true ≡ false

  -- What the lists of counts tell of the converted ones.
  abbrev Raised : (ℕ → F) → List ℕ → List ℕ → Type 0
  Raised float [] vs = Unit
  Raised float (u ∷ us) [] = Unit
  Raised float (u ∷ us) (v ∷ vs) = Le (float u) (float v) × Raised float us vs

  raised :
      (float : ℕ → F)
      → ((a b : ℕ) → a ≤ b → b < two_63 → Le (float a) (float b))
      → (n : ℕ) (us vs : List ℕ) → UpTo n us vs
      → All (λ v. v + n < two_63) us
      → Raised float us vs
  raised float mono n [] vs a r = tt
  raised float mono n (u ∷ us) [] a r = tt
  raised float mono n (u ∷ us) (v ∷ vs) (a0, a1, a) (r0, r) =
      (mono u v a0 (omega (arith, a1, r0)), raised float mono n us vs a r)

  -- Whatever was recorded between two scrapes, as long as no counter passes the largest int64: the
  -- second one writes the same metrics, and none that is announced as a counter has gone down.
  pub run-Grown :
      (zero : F) (ratio per_second : ℕ → ℕ → F) (float seconds : ℕ → F)
      → ((a b : ℕ) → a ≤ b → b < two_63 → Le (float a) (float b))
      → (now later : ℕ) (es : List Event) (m : Metrics) → Room (budget_of es) m
      → Grown
          (families float seconds (snapshot zero ratio per_second now m))
          (families float seconds (snapshot zero ratio per_second later (run es m)))
  unfolding families snapshot
  run-Grown zero ratio per_second float seconds mono now later es m r =
      let n = budget_of es in
      let (
        l0,
        (
          l1,
          (l2, (l3, (l4, (l5, (l6, (l7, (l8, (l9, (l10, (l11, (l12, (l13, (l14, rest))))))))))))),
        ),
      ) =
        raised float mono n (counts m) (counts (run es m)) (run-UpTo es m r) r in
      (
        refl,
        refl,
        l0,
        (
          refl,
          refl,
          l1,
          (
            refl,
            refl,
            l2,
            (
              refl,
              refl,
              l3,
              (
                refl,
                refl,
                l4,
                (
                  refl,
                  refl,
                  l5,
                  (
                    refl,
                    refl,
                    l6,
                    (
                      refl,
                      refl,
                      l7,
                      (
                        refl,
                        refl,
                        l8,
                        (
                          refl,
                          refl,
                          l9,
                          (
                            refl,
                            refl,
                            l10,
                            (
                              refl,
                              refl,
                              l11,
                              (
                                refl,
                                refl,
                                tt,
                                (
                                  refl,
                                  refl,
                                  tt,
                                  (
                                    refl,
                                    refl,
                                    l12,
                                    (
                                      refl,
                                      refl,
                                      l13,
                                      (
                                        refl,
                                        refl,
                                        l14,
                                        (
                                          refl,
                                          refl,
                                          tt,
                                          (
                                            refl,
                                            refl,
                                            tt,
                                            (
                                              refl,
                                              refl,
                                              tt,
                                              (refl, refl, tt, (refl, refl, tt, tt)),
                                            ),
                                          ),
                                        ),
                                      ),
                                    ),
                                  ),
                                ),
                              ),
                            ),
                          ),
                        ),
                      ),
                    ),
                  ),
                ),
              ),
            ),
          ),
        ),
      )
