-- ===== src/Service/Estimates.antt =====
-- The RTT tool against the samples that it is given.
use mcp_moqt_transport.Base.{
  ℕ, ◌≤◌, ◌<◌, ◌≡◌, refl, ap, ◌∙◌, Bool, true, false, List, [], ◌∷◌, if◌then◌else◌, length, ◌==◌,
  ◌⊎◌, inl, arith, All,
}
use mcp_moqt_transport.Base.Word.{two_63, lt_64, lt_64_nonneg}
use mcp_moqt_transport.Errors.{ok}
use mcp_moqt_transport.Service.{Rtt, RttOutput, note, scan, summary, estimate_rtt}

-- A sample that is not negative.
abbrev pub IsSample : ℕ → Type 0
IsSample v = v < two_63

abbrev pub occurs : ℕ → List ℕ → Bool
occurs x [] = false
occurs x (v ∷ vs) = if v == x then true else occurs x vs

-- What the loop finds in the samples behind the ones that it has seen.
record Found (vs : List ℕ) (r r' : Rtt) : Type 0 where
  lowest : All (λ v. r'.min_v ≤ v) vs
  highest : All (λ v. v ≤ r'.max_v) vs
  min_le : r'.min_v ≤ r.min_v
  max_ge : r.max_v ≤ r'.max_v
  min_seen : (r'.min_v ≡ r.min_v) ⊎ (occurs r'.min_v vs ≡ true)
  max_seen : (r'.max_v ≡ r.max_v) ⊎ (occurs r'.max_v vs ≡ true)

note-Found :
    (v : ℕ) (vs : List ℕ) (r r' : Rtt)
    → IsSample v
    → IsSample r.min_v
    → IsSample r.max_v
    → Found vs (note v r) r'
    → Found (v ∷ vs) r r'
note-Found v vs r r' h a b f =
    let lo = lt_64_nonneg v r.min_v h a in
    let hi = lt_64_nonneg r.max_v v b h in
    record {
      lowest = (ground (arith, f.min_le, lo), f.lowest);
      highest = (ground (arith, f.max_ge, hi), f.highest);
      min_le = ground (arith, f.min_le, lo);
      max_ge = ground (arith, f.max_ge, hi);
      min_seen = ground (arith, f.min_seen, lo);
      max_seen = ground (arith, f.max_seen, hi);
    }

scan-Found :
    (vs : List ℕ) (r : Rtt)
    → All IsSample vs
    → IsSample r.min_v
    → IsSample r.max_v
    → (r' : Rtt) × (scan vs r ≡ ok r') × Found vs r r'
unfolding scan
scan-Found [] r h a b = (
  r,
  refl,
  record {
    lowest = tt;
    highest = tt;
    min_le = omega arith;
    max_ge = omega arith;
    min_seen = inl refl;
    max_seen = inl refl;
  },
)
scan-Found (v ∷ vs) r h a b =
    let (r', e, f) =
      scan-Found vs (note v r) h.1 (ground (arith, h.0, a)) (ground (arith, h.0, b)) in
    let sample : lt_64 v 0 ≡ false = lt_64_nonneg v 0 h.0 (omega arith) ∙ ground arith in
    (r', simp (sample, e) refl, note-Found v vs r r' h.0 a b f)

-- Samples of which none is negative: the RTT tool answers with their number, and its minimum and
-- maximum are two of the samples that bound all of them.
estimate_rtt_bounds :
    {F : Type 0} (quotient : ℕ → ℕ → F) (v : ℕ) (vs : List ℕ)
    → All IsSample (v ∷ vs)
    → (out : RttOutput F) × (estimate_rtt quotient (v ∷ vs) ≡ ok out)
      × (out.count ≡ length (v ∷ vs))
      × All (λ x. out.min_ms ≤ x) (v ∷ vs)
      × (occurs out.min_ms (v ∷ vs) ≡ true)
      × All (λ x. x ≤ out.max_ms) (v ∷ vs)
      × (occurs out.max_ms (v ∷ vs) ≡ true)
unfolding estimate_rtt
estimate_rtt_bounds quotient v vs h =
    let (r, e, f) = scan-Found (v ∷ vs) (record { min_v = v; max_v = v; sum = 0 }) h h.0 h.0 in
    (
      record {
        count = length (v ∷ vs);
        min_ms = r.min_v;
        max_ms = r.max_v;
        avg_ms = quotient r.sum (length (v ∷ vs));
      },
      ap (summary quotient (length (v ∷ vs))) e,
      refl,
      f.lowest,
      ground (arith, f.min_seen),
      f.highest,
      ground (arith, f.max_seen),
    )
