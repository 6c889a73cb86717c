-- ===== src/Session/Routing.antt =====
-- The control handler's conditions, and where a subscription to a data track goes.
use mcp_moqt_transport.Base.{
  ℕ, ◌≡◌, ◌≢◌, ◌↔◌, refl, sym, ap, ◌∙◌, ◌⊎◌, inl, inr, true, false, not, ◌&&◌, Option, none, some,
  List, [], ◌∷◌, String, str_eq, eq_iff, if◌then◌else◌, ◌==◌, length, arith, Bool-cases, is_some,
  ◌||◌,
}
use mcp_moqt_transport.Errors.{Error}
use mcp_moqt_transport.Tracks.{Slot, set}
use mcp_moqt_transport.Tracks.Slots.{IsSound}
use mcp_moqt_transport.Data.{
  DataTrackType, resources, tools, notifications, other, data_track_namespace, to_string, Handler,
  handle_subscribe, Answer, accepted,
}
use mcp_moqt_transport.Data.Namespaces.{same_namespace-eq, data_track_namespace_eq}
use mcp_moqt_transport.Session.{
  Control, control_namespace, control_session, accept_control, handle_control, Composite, matches,
  route, handle_composite,
}

-- The handler accepts a track of its session, or of any session while it knows none.
abbrev pub Admits : String → String → Control → Type 0
Admits session track h = ((h.session_id ≡ "") ⊎ (session ≡ h.session_id)) × (track ≡ h.send_track)

set_total : (p : ℕ) (s : Slot) → IsSound s → (s' : Slot) × (set (some p) s ≡ some s')
unfolding set
set_total p s v = elim (Bool-cases (is_some s.publisher || s.cleared)) [
  | inl kept ↦ (s, simp kept)
  | inr fresh ↦ elim (Bool-cases s.ready) [
    | inl r ↦ absurd (v.held r (ground arith) (ground arith))
    | inr r ↦ (record s { publisher = some p; ready = true }, simp (fresh, r))
  ]
]

-- A subscription in the control namespace of a session that the handler admits, and whose
-- `Accept` succeeds, is accepted, does not panic if the send slot is sound, fixes the session if
-- none was known, and offers the publisher to the send slot.
handle_control-Admits :
    (publisher : ℕ) (session track : String) (h : Control)
    → IsSound h.send_slot
    → Admits session track h
    → (slot : Slot) × (set (some publisher) h.send_slot ≡ some slot)
      × (handle_control publisher none (control_namespace session) track h
          ≡ some (
            record h {
              session_id = if str_eq h.session_id "" then session else h.session_id;
              send_slot = slot;
            },
            accepted,
          ))
unfolding handle_control control_namespace
handle_control-Admits publisher session track h v (a, t) =
    let (slot, e) = set_total publisher h.send_slot v in
    let mine : (not (str_eq h.session_id "") && not (str_eq session h.session_id)) ≡ false =
      ground (arith, eq_iff h.session_id "", eq_iff session h.session_id) in
    let sends : str_eq track h.send_track ≡ true = (eq_iff track h.send_track).1 t in
    (slot, e, simp (mine, sends) (rw (e, accept_control) refl))

-- A data track's namespace is routed past the control handler.
data_namespace_not_control :
    (session : String) (t : DataTrackType) → control_session (data_track_namespace session t) ≡ none
unfolding control_session data_track_namespace
data_namespace_not_control session resources = refl
data_namespace_not_control session tools = refl
data_namespace_not_control session notifications = refl
data_namespace_not_control session (other n) = refl

matches-eq :
    {M : Type 0} (ns : List String) (h : Handler M) → (matches ns h ≡ true) ↔ (h.namespace ≡ ns)
unfolding matches
matches-eq ns h = elim (Bool-cases (length ns == length h.namespace)) [
  | inr l ↦ simp l (λ e. cc, λ e. absurd (differ l e))
  | inl l ↦ simp l (same_namespace-eq h.namespace ns (ground arith))
]
  where
    differ : (length ns == length h.namespace) ≡ false → h.namespace ≢ ns
    differ l e = ground (arith, ap length e)

not_matches :
    {M : Type 0} (ns : List String) (h : Handler M) → h.namespace ≢ ns → matches ns h ≡ false
not_matches ns h n = elim (Bool-cases (matches ns h)) [
  | inl e ↦ absurd (n ((matches-eq ns h).0 e))
  | inr e ↦ e
]

-- The namespaces of two types of another name differ.
namespaces_differ :
    (session : String) (a b : DataTrackType)
    → str_eq (to_string a) (to_string b) ≡ false
    → data_track_namespace session a ≢ data_track_namespace session b
namespaces_differ session a b d e =
    let same =
      (eq_iff (to_string a) (to_string b)).1
        ((data_track_namespace_eq session session a b).0 e).1 in
    cc

module _ {M : Type 0} (publisher : ℕ) (accept : Option Error) (ns : List String) (track : String)
    (h : Handler M) (hs : List (Handler M)) where
  route_here :
      h.namespace ≡ ns
      → route publisher accept ns track (h ∷ hs)
        ≡ some (
          (handle_subscribe publisher accept ns track h).0 ∷ hs,
          (handle_subscribe publisher accept ns track h).1,
        )
  unfolding route
  route_here e = ground (arith, matches-eq ns h)

  route_later :
      {hs' : List (Handler M)} {a : Answer}
      → h.namespace ≢ ns
      → route publisher accept ns track hs ≡ some (hs', a)
      → route publisher accept ns track (h ∷ hs) ≡ some (h ∷ hs', a)
  unfolding route
  route_later n e = rw (not_matches ns h n, e, route) refl

module _ {M : Type 0} (publisher : ℕ) (accept : Option Error) (session track : String)
    (control : Control) (r t n : Handler M)
    (rns : r.namespace ≡ data_track_namespace session resources)
    (tns : t.namespace ≡ data_track_namespace session tools)
    (nns : n.namespace ≡ data_track_namespace session notifications) where
  abbrev pub asked : DataTrackType → Option (Composite M × Answer)
  asked type =
      handle_composite publisher accept (data_track_namespace session type) track
        (record { control = control; handlers = r ∷ t ∷ n ∷ [] })

  abbrev pub by : DataTrackType → Handler M → Handler M × Answer
  by type h = handle_subscribe publisher accept (data_track_namespace session type) track h

  abbrev pub to_three : Handler M → Handler M → Handler M → Answer → Option (Composite M × Answer)
  to_three a b c answer = some (record { control = control; handlers = a ∷ b ∷ c ∷ [] }, answer)

  past_control :
      (type : DataTrackType) {hs : List (Handler M)} {a : Answer}
      → route publisher accept (data_track_namespace session type) track (r ∷ t ∷ n ∷ [])
        ≡ some (hs, a)
      → asked type ≡ some (record { control = control; handlers = hs }, a)
  unfolding handle_composite
  past_control type e = rw (data_namespace_not_control session type, e, handle_composite) refl

  other_namespace :
      (h : Handler M) (a b : DataTrackType)
      → h.namespace ≡ data_track_namespace session a
      → str_eq (to_string a) (to_string b) ≡ false
      → h.namespace ≢ data_track_namespace session b
  other_namespace h a b e d f = namespaces_differ session a b d (sym e ∙ f)

  -- With handlers in the namespaces of a session's three data tracks, a subscription in one of
  -- these namespaces is answered by that track's handler, and the two others and the control
  -- handler stay as they are.
  pub handle_composite_routes :
      (asked resources ≡ to_three (by resources r).0 t n (by resources r).1)
      × (asked tools ≡ to_three r (by tools t).0 n (by tools t).1)
      × (asked notifications ≡ to_three r t (by notifications n).0 (by notifications n).1)
  unfolding to_string
  handle_composite_routes = (
    past_control resources (route_here publisher accept _ track r (t ∷ n ∷ []) rns),
    past_control tools (
        route_later publisher accept _ track r (t ∷ n ∷ [])
          (other_namespace r resources tools rns refl)
          (route_here publisher accept _ track t (n ∷ []) tns)),
    past_control notifications (
        route_later publisher accept _ track r (t ∷ n ∷ [])
          (other_namespace r resources notifications rns refl)
          (route_later publisher accept _ track t (n ∷ [])
            (other_namespace t tools notifications tns refl)
            (route_here publisher accept _ track n [] nns))),
  )
