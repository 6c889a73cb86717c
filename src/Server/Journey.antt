-- ===== src/Server/Journey.antt =====
-- pkg/moqttransport: a data track from the server program to the callback of its client, through
-- setupConnection and DataTrackHandlerFor of server.go, the session's subscribe handler, SubscribeDataTrack
-- of client.go and the data track handlers of both sides. The session carries the client's subscription to
-- its peer; what it makes of the publisher's objects is a parameter.
mod Routed
use mathlib.Core.Path.{subst}
use mathlib.Core.List.{reverse}
use mcp_moqt_transport.Base.{
  ℕ, suc, ◌<◌, ◌≤◌, ◌≡◌, refl, ap, ◌∙◌, Bool, false, Option, none, some, List, [], ◌∷◌, ◌++◌, map,
  String, length, str_eq, arith,
}
use mcp_moqt_transport.Base.Map.{lookup, insert, string_key, lookup-insert_self}
use mcp_moqt_transport.Errors.{Error, Result, ok}
use mcp_moqt_transport.Metrics.{Metrics}
use mcp_moqt_transport.Tracks.{Action, Peer, Bytes, returns}
use mcp_moqt_transport.Data.{
  DataTrackType, resources, tools, notifications, other, data_track_namespace, Handler, new_handler,
  handle_subscribe, register, close_existing, close_at, Answer, accepted, subscribe, receive_loop,
  max_message_size,
}
use mcp_moqt_transport.Data.Info.{attach_session_subscribe}
use mcp_moqt_transport.Data.Journey.{
  IsFree, attached, subscribed, handle_subscribe_own, subscribe_free,
  handle_remote_track_subscribed, receive_loop-batch_publish,
}
use mcp_moqt_transport.Data.Publishing.{batch_publish}
use mcp_moqt_transport.Data.Publishing.Batches.{Obliging, payloads}
use mcp_moqt_transport.Session
use mcp_moqt_transport.Session.{Composite, handle_composite, default_data_track_handlers}
use mcp_moqt_transport.Session.Routing.{handle_composite_routes}
use mcp_moqt_transport.Client.{Client, subscribe_data_track}
use mcp_moqt_transport.Server.{Server, Incoming, setup_connection, same_type}
use mcp_moqt_transport.Server
use mcp_moqt_transport.Server.Serving.{data_track_handler_for, find_type}
use mcp_moqt_transport.Server.Journey.Routed.{
  IsDefault, new_handler-IsFree, subscribe_data_track-attached, default_handlers-Routed,
}

-- What is sent and received on one track: the server program's messages on `sender`, and the client's
-- receive loop over what `carry`, the session and the network, makes of the publisher's actions.
module _ {M : Type 0} (marshal : M → Result Bytes) (unmarshal : Bytes → Result M)
    (ready_first : Bool) (peer : Peer) (carry : List Action → List (Result Bytes)) where
  abbrev pub Delivers : ℕ → ℕ → String → List M → Handler M → Handler M → Type 0
  Delivers fuel size track ms sender receiver =
      let (sender', actions, outcome) =
        batch_publish marshal none ready_first peer fuel 0 size track ms sender in
      let (receiver', returned) = receive_loop unmarshal 0 track 1 (carry actions) receiver in
      (outcome ≡ some (returns none))
      × (receiver'.delivered ≡ reverse ms ++ receiver.delivered)
      × (returned ≡ false)

module _ {M : Type 0} (marshal : M → Result Bytes) (unmarshal : Bytes → Result M) (enc : M → Bytes)
    (total : (m : M) → marshal m ≡ ok (enc m)) (decode : (m : M) → unmarshal (enc m) ≡ ok m)
    (small : (m : M) → length (enc m) ≤ max_message_size) (ready_first : Bool) (peer : Peer)
    (obliging : Obliging peer) (carry : List Action → List (Result Bytes))
    (lossless : (log : List Action) → carry log ≡ map ok (payloads log)) where
  own-Delivers :
      (publisher fuel size : ℕ) (id track : String) (t : DataTrackType) (m n : Metrics)
      (callback : M → Option Error) (ms : List M)
      → ((m : M) → callback m ≡ none)
      → length ms < fuel
      → 0 < size
      → Delivers marshal unmarshal ready_first peer carry fuel size track ms
          (register publisher track (new_handler id t m))
          (attached track callback (new_handler id t n))
  own-Delivers publisher fuel size id track t m n callback ms fine f s =
      let sender = new_handler id t m in
      let receiver = new_handler id t n in
      let free = new_handler-IsFree id track t n in
      let opened = (new_handler-IsFree id track t m).is_open in
      let whole =
        receive_loop-batch_publish marshal unmarshal enc total decode small ready_first peer
          obliging publisher fuel size track callback ms sender receiver opened free fine f s in
      let answered = handle_subscribe_own publisher track sender opened in
      let first = subscribe_free track callback receiver free in
      let second = handle_remote_track_subscribed track callback receiver free in
      let (a, outcome, p, j, got, goes_on) = rw (answered, first, second) at whole in
      let log =
        (batch_publish marshal none ready_first peer fuel 0 size track ms
          (register publisher track sender)).1 in
      rw (lossless log) (unfold new_handler in (outcome, got, goes_on))

  -- The session's handlers after its setup, and what DataTrackHandlerFor finds among those that a
  -- subscription leaves.
  setup_connection-handlers :
      (m : Metrics) (i : Incoming) (s : Server M)
      → i.run ≡ none
      → i.subscribe ≡ none
      → lookup i.session_id (setup_connection m i s).0.session_handlers
        ≡ some (default_data_track_handlers i.session_id m)
  unfolding setup_connection Server.register
  setup_connection-handlers m i s r e =
      rw (r, e, setup_connection)
        (lookup-insert_self i.session_id (default_data_track_handlers i.session_id m)
          s.session_handlers)

  data_track_handler_for_own :
      (id : String) (t : DataTrackType) (hs : List (Handler M)) (s : Server M)
      → str_eq id "" ≡ false
      → data_track_handler_for id t
          (record s { session_handlers = insert id hs s.session_handlers })
        ≡ find_type t hs
  unfolding data_track_handler_for
  data_track_handler_for_own id t hs s n =
      simp (n, lookup-insert_self id hs s.session_handlers) refl

  -- An incoming connection whose session runs, with an id that is not empty, and a client that is
  -- connected to that session; messages that serialize, fit and parse back, a peer that answers every
  -- request, a network that loses and reorders nothing (the reader of the track gets the payloads of all
  -- the groups, each once and in the order in which they were written), a positive batch size and a
  -- callback that does not fail. For each of the three types of
  -- tracks: the client's SubscribeDataTrack succeeds; the session's subscribe handler accepts its
  -- subscription; the server program then gets the session's handler of this type from
  -- DataTrackHandlerFor; and what it gives to BatchPublish there reaches the client's callback,
  -- every message exactly once and in order, while the receive loop goes on.
  pub session_journey :
      (publisher fuel size session : ℕ) (track : String) (t : DataTrackType) (m n : Metrics)
      (i : Incoming) (s : Server M) (control : Session.Control) (cl : Client)
      (callback : M → Option Error) (ms : List M)
      → IsDefault t
      → i.run ≡ none
      → i.subscribe ≡ none
      → str_eq i.session_id "" ≡ false
      → cl.session ≡ some session
      → cl.session_id ≡ i.session_id
      → ((m : M) → callback m ≡ none)
      → length ms < fuel
      → 0 < size
      → let s1 = (setup_connection m i s).0 in
        (hs hs' : List (Handler M)) × (sender receiver : Handler M) × (lookup i.session_id
            s1.session_handlers
          ≡ some hs)
        × (subscribe_data_track n t track callback none cl ≡ ok receiver)
        × (handle_composite publisher none receiver.namespace track
              (record { control = control; handlers = hs })
            ≡ some (record { control = control; handlers = hs' }, accepted))
        × (data_track_handler_for i.session_id t
              (record s1 { session_handlers = insert i.session_id hs' s1.session_handlers })
            ≡ some sender)
        × Delivers marshal unmarshal ready_first peer carry fuel size track ms sender receiver
  session_journey publisher fuel size session track t m n i s control cl callback ms d r e id c same
        fine f k =
      let s1 = (setup_connection m i s).0 in
      let (hs', routed, found) =
        default_handlers-Routed M publisher i.session_id track m control t d in
      let receiver = attached track callback (new_handler i.session_id t n) in
      let named : str_eq cl.session_id "" ≡ false = ap (λ x. str_eq x "") same ∙ id in
      (
        default_data_track_handlers i.session_id m,
        hs',
        register publisher track (new_handler i.session_id t m),
        receiver,
        setup_connection-handlers m i s r e,
        subst
            (λ x.
              subscribe_data_track n t track callback none cl
              ≡ ok (attached track callback (new_handler x t n)))
            same (subscribe_data_track-attached n t track callback cl session c named),
        unfold new_handler in routed,
        data_track_handler_for_own i.session_id t hs' s1 id ∙ found,
        own-Delivers publisher fuel size i.session_id track t m n callback ms fine f k,
      )
