-- ===== src/Data/Namespaces.antt =====
-- Namespaces and the routing of subscriptions by them.
use mcp_moqt_transport.Base.{
  ℕ, ◌≡◌, ◌≢◌, ◌↔◌, refl, ap, sym, inl, inr, true, false, Option, none, List, [], ◌∷◌, String,
  eq_iff, ◌==◌, length, arith, Bool-cases, Option-cases,
}
use mcp_moqt_transport.Base.Map.{nat_key, string_key}
use mcp_moqt_transport.Errors.{Error}
use mcp_moqt_transport.Data.{
  DataTrackType, resources, tools, notifications, other, to_string, data_track_namespace, Handler,
  accepted, same_namespace, handle_subscribe,
}

pub same_namespace-eq :
    (xs ys : List String) → length ys ≡ length xs → (same_namespace xs ys ≡ true) ↔ (xs ≡ ys)
unfolding same_namespace
same_namespace-eq [] [] h = (λ _. refl, λ _. refl)
same_namespace-eq [] (y ∷ ys) h = absurd (omega arith)
same_namespace-eq (x ∷ xs) [] h = absurd (omega arith)
same_namespace-eq (x ∷ xs) (y ∷ ys) h =
    let ih = same_namespace-eq xs ys (omega arith) in
    (λ e. ground (arith, eq_iff y x, ih), λ e. ground (arith, eq_iff y x, ih))

-- The namespace of a data track is "mcp", the session and the name of the track type; two tracks
-- share a namespace exactly when they share the session and the name of their type.
pub data_track_namespace_eq :
    (s t : String) (a b : DataTrackType)
    → (data_track_namespace s a ≡ data_track_namespace t b)
      ↔ ((s ≡ t) × (to_string a ≡ to_string b))
data_track_namespace_eq s t a b =
    rw (form s a, form t b) (λ e. (ground arith, ground arith), λ e. ground arith)
  where
    form :
        (u : String) (c : DataTrackType) → data_track_namespace u c ≡ "mcp" ∷ u ∷ to_string c ∷ []
    form u resources = unfold data_track_namespace to_string in refl
    form u tools = unfold data_track_namespace to_string in refl
    form u notifications = unfold data_track_namespace to_string in refl
    form u (other n) = unfold data_track_namespace to_string in refl

-- A subscription is accepted exactly when the handler is open, its namespace is the handler's, and
-- the response writer accepts; any other leaves the handler as it was.
handle_subscribe_accepts :
    {M : Type 0} (publisher : ℕ) (accept : Option Error) (ns : List String) (track : String)
    (h : Handler M)
    → (((handle_subscribe publisher accept ns track h).1 ≡ accepted)
        ↔ ((h.closed ≡ false) × (ns ≡ h.namespace) × (accept ≡ none)))
      × (((handle_subscribe publisher accept ns track h).1 ≢ accepted)
          → (handle_subscribe publisher accept ns track h).0 ≡ h)
unfolding handle_subscribe
handle_subscribe_accepts publisher accept ns track h = elim (Bool-cases h.closed) [
  | inl c ↦ simp c ((λ e. cc, λ e. cc), λ e. refl)
  | inr c ↦ elim (Bool-cases (length ns == length h.namespace)) [
    | inr l ↦ simp (c, l) ((λ e. cc, λ e. absurd (differ l e.1)), λ e. refl)
    | inl l ↦
        let same = same_namespace-eq h.namespace ns (ground arith) in
        elim (Bool-cases (same_namespace h.namespace ns)) [
          | inr n ↦ simp (c, l, n) ((λ e. cc, λ e. cc (same.1 (sym e.1))), λ e. refl)
          | inl n ↦ elim (Option-cases accept) [
            | inl a ↦
                simp (c, l, n, a)
                  ((λ e. (refl, sym (same.0 n), refl), λ e. refl), λ e. absurd (e refl))
            | inr (x, a) ↦ simp (c, l, n, a) ((λ e. cc, λ e. cc e.2), λ e. refl)
          ]
        ]
  ]
]
  where
    differ : (length ns == length h.namespace) ≡ false → ns ≢ h.namespace
    differ l e = ground (arith, ap length e)
