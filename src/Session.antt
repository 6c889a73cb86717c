-- ===== src/Session.antt =====
-- pkg/moqttransport/session_handlers.go and the control namespace of control_conn.go: who answers a
-- subscription. The response writer is the publisher that an accepted subscription provides; what its
-- `Accept` returns is an argument. A step is `none` where `PublisherSlot.Set` would panic.
pub mod Routing
use mcp_moqt_transport.Base.{
  ℕ, Bool, true, false, not, ◌&&◌, ◌||◌, Option, none, some, List, [], ◌∷◌, String, str_eq,
  if◌then◌else◌, ◌==◌, length,
}
use mcp_moqt_transport.Errors.{Error}
use mcp_moqt_transport.Metrics.{Metrics}
use mcp_moqt_transport.Tracks.{Slot, set}
use mcp_moqt_transport.Data.{
  DataTrackType, resources, tools, notifications, Handler, new_handler, handle_subscribe, Answer,
  rejected, accepted, accept_failed, same_namespace,
}

unfoldable pub control_namespace : String → List String
control_namespace session = "mcp" ∷ session ∷ "control" ∷ []

-- `subscribeHandler`; the slot is the one that the control connection writes through.
pub record Control : Type 0 where
  pub session_id : String
  pub send_track : String
  pub send_slot : Slot

-- `len(ns) == 3 && ns[0] == "mcp" && ns[2] == "control"`, with the session in the middle.
unfoldable pub control_session : List String → Option String
control_session (a ∷ session ∷ c ∷ []) =
    if str_eq a "mcp" && str_eq c "control" then some session else none
control_session _ = none

unfoldable pub accept_control : ℕ → String → Control → Option (Control × Answer)
accept_control publisher session h = elim (set (some publisher) h.send_slot) [
  | none ↦ none
  | some slot ↦ some (
    record h {
      session_id = if str_eq h.session_id "" then session else h.session_id;
      send_slot = slot;
    },
    accepted,
  )
]

unfoldable pub handle_control :
    ℕ → Option Error → List String → String → Control → Option (Control × Answer)
unfolding control_session accept_control
handle_control publisher accept namespace track h = elim (control_session namespace) [
  | none ↦ some (h, rejected "track does not exist" "unknown namespace")
  | some session ↦
      if not (str_eq h.session_id "") && not (str_eq session h.session_id)
      then some (h, rejected "track does not exist" "unknown session")
      else if not (str_eq track h.send_track)
      then some (h, rejected "track does not exist" "unknown track")
      else elim accept [
        | some e ↦ some (h, accept_failed)
        | none ↦ accept_control publisher session h
      ]
]

pub record Composite (M : Type 0) : Type 0 where
  pub control : Control
  pub handlers : List (Handler M)

module _ {M : Type 0} where
  unfoldable pub matches : List String → Handler M → Bool
  unfolding same_namespace
  matches namespace h =
      length namespace == length h.namespace && same_namespace h.namespace namespace

  -- The loop over the data handlers; none if no namespace matches.
  unfoldable pub route :
      ℕ
      → Option Error
      → List String
      → String
      → List (Handler M)
      → Option (List (Handler M) × Answer)
  unfolding matches
  route publisher accept namespace track [] = none
  route publisher accept namespace track (h ∷ hs) =
      let later = route publisher accept namespace track hs in
      if matches namespace h
      then (let (h', a) = handle_subscribe publisher accept namespace track h in some (h' ∷ hs, a))
      else elim later [ none ↦ none | some (hs', a) ↦ some (h ∷ hs', a) ]

  unfoldable pub handle_composite :
      ℕ → Option Error → List String → String → Composite M → Option (Composite M × Answer)
  unfolding handle_control route
  handle_composite publisher accept namespace track h = elim (control_session namespace) [
    | some session ↦ elim (handle_control publisher accept namespace track h.control) [
      | none ↦ none
      | some (c, a) ↦ some (record h { control = c }, a)
    ]
    | none ↦ elim (route publisher accept namespace track h.handlers) [
      | none ↦ some (h, rejected "track does not exist" "unknown namespace")
      | some (hs, a) ↦ some (record h { handlers = hs }, a)
    ]
  ]

  -- `defaultDataTrackHandlers` of server.go.
  unfoldable pub default_data_track_handlers : String → Metrics → List (Handler M)
  unfolding new_handler
  default_data_track_handlers session metrics =
      new_handler session resources metrics
      ∷ new_handler session tools metrics
      ∷ new_handler session notifications metrics
      ∷ []
