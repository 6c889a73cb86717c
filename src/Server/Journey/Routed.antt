-- ===== src/Server/Journey/Routed.antt =====
-- pkg/moqttransport: the client's subscription of a data track, and the handler of the session that
-- accepts it (SubscribeDataTrack of client.go, defaultDataTrackHandlers of server.go and the composite
-- subscribe handler of session_handlers.go).
use mathlib.Core.Path.{subst}
use mcp_moqt_transport.Base.{
  ℕ, suc, ◌≡◌, refl, ap, ◌∙◌, false, Option, none, some, List, [], ◌∷◌, String, str_eq, arith,
}
use mcp_moqt_transport.Base.Map.{lookup, string_key}
use mcp_moqt_transport.Errors.{Error, ok}
use mcp_moqt_transport.Metrics.{Metrics}
use mcp_moqt_transport.Data.{
  DataTrackType, resources, tools, notifications, other, data_track_namespace, Handler, new_handler,
  handle_subscribe, register, close_existing, close_at, Answer, accepted, subscribe,
}
use mcp_moqt_transport.Data.Info.{attach_session_subscribe}
use mcp_moqt_transport.Data.Journey.{
  IsFree, attached, subscribed, handle_subscribe_own, subscribe_free,
  handle_remote_track_subscribed,
}
use mcp_moqt_transport.Session
use mcp_moqt_transport.Session.{Composite, handle_composite, default_data_track_handlers}
use mcp_moqt_transport.Session.Routing.{handle_composite_routes}
use mcp_moqt_transport.Client.{Client, subscribe_data_track}
use mcp_moqt_transport.Server.Serving.{find_type}

-- A type that every session has a handler for.
abbrev pub IsDefault : DataTrackType → Type 0
IsDefault resources = Unit {0}
IsDefault tools = Unit {0}
IsDefault notifications = Unit {0}
IsDefault (other n) = ⊥

module _ {M : Type 0} where
  pub new_handler-IsFree :
      (id track : String) (t : DataTrackType) (m : Metrics)
      → IsFree track (new_handler {M = M} id t m)
  unfolding new_handler lookup
  new_handler-IsFree id track t m = record {
    is_open = refl;
    running = refl;
    unsubscribed = refl;
    fresh = refl;
  }

  -- The client's handler is subscribed and attached.
  pub subscribe_data_track-attached :
      (m : Metrics) (t : DataTrackType) (track : String) (callback : M → Option Error) (cl : Client)
      (session : ℕ)
      → cl.session ≡ some session
      → str_eq cl.session_id "" ≡ false
      → subscribe_data_track m t track callback none cl
        ≡ ok (attached track callback (new_handler cl.session_id t m))
  unfolding subscribe_data_track attach_session_subscribe
  subscribe_data_track-attached m t track callback cl session e n =
      let h = new_handler cl.session_id t m in
      let free = new_handler-IsFree cl.session_id track t m in
      let first = subscribe_free track callback h free in
      let second = handle_remote_track_subscribed track callback h free in
      let third : attach_session_subscribe none track (subscribed track callback h)
          ≡ (attached track callback h, ok (suc h.next, h.next)) =
        simp free.is_open second in
      let joined : attach_session_subscribe none track (subscribe track callback h).0
          ≡ (attached track callback h, ok (suc h.next, h.next)) =
        ap (λ x. attach_session_subscribe none track x.0) first ∙ third in
      rw (e, n, subscribe_data_track) (simp (ap (λ x. x.1) first, joined) refl)

  register-track_type :
      (publisher : ℕ) (track : String) (h : Handler M)
      → (register publisher track h).track_type ≡ h.track_type
  unfolding register close_existing close_at
  register-track_type publisher track h = ground arith

module _ (M : Type 0) where
  new_handler-namespace :
      (id : String) (t : DataTrackType) (m : Metrics)
      → (new_handler {M = M} id t m).namespace ≡ data_track_namespace id t
  unfolding new_handler
  new_handler-namespace id t m = refl

  new_handler-track_type :
      (id : String) (t : DataTrackType) (m : Metrics) → (new_handler {M = M} id t m).track_type ≡ t
  unfolding new_handler
  new_handler-track_type id t m = refl

  -- The client's subscription reaches the session's handler of the type, which accepts it.
  module _ (publisher : ℕ) (id track : String) (m : Metrics) (control : Session.Control) where
    abbrev h : DataTrackType → Handler M
    h t = new_handler id t m

    abbrev own : DataTrackType → Handler M
    own t = register publisher track (h t)

    answered :
        (t : DataTrackType)
        → handle_subscribe publisher none (data_track_namespace id t) track (h t)
          ≡ (own t, accepted)
    answered t =
        subst (λ ns. handle_subscribe publisher none ns track (h t) ≡ (own t, accepted))
          (new_handler-namespace id t m)
          (handle_subscribe_own publisher track (h t) (unfold new_handler in refl))

    own-track_type : (t : DataTrackType) → (own t).track_type ≡ t
    own-track_type t = register-track_type publisher track (h t) ∙ new_handler-track_type id t m

    abbrev asks : DataTrackType → Option (Composite M × Answer)
    asks t =
        handle_composite publisher none (data_track_namespace id t) track
          (record { control = control; handlers = h resources ∷ h tools ∷ h notifications ∷ [] })

    abbrev leaves : Handler M → Handler M → Handler M → Option (Composite M × Answer)
    leaves a b c = some (record { control = control; handlers = a ∷ b ∷ c ∷ [] }, accepted)

    default_routes :
        (asks resources ≡ leaves (own resources) (h tools) (h notifications))
        × (asks tools ≡ leaves (h resources) (own tools) (h notifications))
        × (asks notifications ≡ leaves (h resources) (h tools) (own notifications))
    default_routes =
        let (r, t, n) =
          handle_composite_routes publisher none id track control (h resources) (h tools)
            (h notifications) (new_handler-namespace id resources m)
            (new_handler-namespace id tools m) (new_handler-namespace id notifications m) in
        (rw (answered resources) at r, rw (answered tools) at t, rw (answered notifications) at n)

    abbrev Routed : DataTrackType → Type 0
    Routed t =
        (hs : List (Handler M)) × (handle_composite publisher none (data_track_namespace id t) track
            (record { control = control; handlers = default_data_track_handlers id m })
          ≡ some (record { control = control; handlers = hs }, accepted))
        × (find_type t hs ≡ some (own t))

    pub default_handlers-Routed : (t : DataTrackType) → IsDefault t → Routed t
    unfolding default_data_track_handlers find_type
    default_handlers-Routed (other n) d = absurd d
    default_handlers-Routed resources d = (_, default_routes.0, rw (own-track_type resources) refl)
    default_handlers-Routed tools d = (_, default_routes.1, rw (own-track_type tools) refl)
    default_handlers-Routed notifications d =
        (_, default_routes.2, rw (own-track_type notifications) refl)
