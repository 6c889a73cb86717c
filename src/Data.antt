-- ===== src/Data.antt =====
-- pkg/moqttransport/data_tracks.go and data_track_handler.go: the namespaces, the handler's state,
-- and its subscriber side. `M` is a decoded message. Writers, readers and contexts are shared by
-- pointers, so they stand in tables by address; `next` is the next address.
pub mod Publishing
pub mod Delivery
pub mod Namespaces
pub mod Closing
pub mod Journey
pub mod Info
pub mod Streaming
pub mod Subscriptions
use mcp_moqt_transport.Base.{
  ℕ, suc, ◌+◌, Bool, true, false, not, ◌&&◌, Option, none, some, List, [], ◌∷◌, String, str_eq,
  if◌then◌else◌, ◌==◌, length, ltb,
}
use mcp_moqt_transport.Base.Map.{lookup, insert, erase, nat_key, string_key}
use mcp_moqt_transport.Errors.{
  Error, Result, ok, err, sentinel, connection_closed, no_subscriber, message_too_large,
}
use mcp_moqt_transport.Tracks.{
  Slot, new_slot, set, TrackWriter, new_track_writer, close_writer, Bytes,
}
use mcp_moqt_transport.Metrics.{Metrics, record_data_track_message}

-- `other` are the values of the integer type that no constant names.
pub data DataTrackType : Type 0 where
  resources tools notifications : DataTrackType
  other : ℕ → DataTrackType

unfoldable pub to_string : DataTrackType → String
to_string resources = "resources"
to_string tools = "tools"
to_string notifications = "notifications"
to_string (other n) = "unknown"

unfoldable pub resources_namespace : String → List String
resources_namespace session = "mcp" ∷ session ∷ "resources" ∷ []

unfoldable pub tools_namespace : String → List String
tools_namespace session = "mcp" ∷ session ∷ "tools" ∷ []

unfoldable pub notifications_namespace : String → List String
notifications_namespace session = "mcp" ∷ session ∷ "notifications" ∷ []

unfoldable pub data_track_namespace : String → DataTrackType → List String
unfolding resources_namespace tools_namespace notifications_namespace
data_track_namespace session resources = resources_namespace session
data_track_namespace session tools = tools_namespace session
data_track_namespace session notifications = notifications_namespace session
data_track_namespace session (other n) = "mcp" ∷ session ∷ "unknown" ∷ []

abbrev pub max_message_size : ℕ
max_message_size = 10485760

-- `handler` is the subscriber's callback, `ctx` the address of its context.
pub record Subscriber (M : Type 0) : Type 0 where
  pub reader : Option ℕ
  pub handler : M → Option Error
  pub ctx : ℕ

-- `cancelled` are the contexts that are done and `closed_readers` the readers that were closed;
-- `delivered` are the messages handed to callbacks, newest first.
pub record Handler (M : Type 0) : Type 0 where
  pub session_id : String
  pub track_type : DataTrackType
  pub namespace : List String
  pub publishers : List (String × ℕ)
  pub subscribers : List (String × Subscriber M)
  pub closed : Bool
  pub done : Bool
  pub metrics : Metrics
  pub writers : List (ℕ × TrackWriter)
  pub cancelled : List ℕ
  pub closed_readers : List ℕ
  pub delivered : List M
  pub next : ℕ

pub data Answer : Type 0 where
  rejected : String → String → Answer
  accepted accept_failed : Answer

-- Two namespaces of one length, compared element by element.
unfoldable pub same_namespace : List String → List String → Bool
same_namespace [] ys = true
same_namespace (x ∷ xs) [] = false
same_namespace (x ∷ xs) (y ∷ ys) = str_eq y x && same_namespace xs ys

abbrev pub mem : ℕ → List ℕ → Bool
mem c [] = false
mem c (x ∷ xs) = if x == c then true else mem c xs

-- A context that was cancelled has the error of this address.
abbrev pub canceled : Error
canceled = Error.foreign 1

-- `NewPublisherSlot` and `Set` with the accepted response writer.
unfoldable pub accepted_slot : ℕ → Slot
unfolding new_slot set
accepted_slot publisher = elim (set (some publisher) new_slot) [ none ↦ new_slot | some s ↦ s ]

module _ {M : Type 0} where
  unfoldable pub new_handler : String → DataTrackType → Metrics → Handler M
  new_handler session track_type metrics = record {
    session_id = session;
    track_type = track_type;
    namespace = data_track_namespace session track_type;
    publishers = [];
    subscribers = [];
    closed = false;
    done = false;
    metrics = metrics;
    writers = [];
    cancelled = [];
    closed_readers = [];
    delivered = [];
    next = 0;
  }

  -- `Close` on the writer at an address.
  unfoldable pub close_at : ℕ → Handler M → Handler M
  close_at w h = elim (lookup w h.writers) [
    | none ↦ h
    | some writer ↦ record h { writers = insert w (close_writer writer) h.writers }
  ]

  unfoldable pub close_existing : String → Handler M → Handler M
  unfolding close_at
  close_existing track h = elim (lookup track h.publishers) [ none ↦ h | some w ↦ close_at w h ]

  unfoldable pub register : ℕ → String → Handler M → Handler M
  unfolding close_existing accepted_slot new_track_writer
  register publisher track h =
      let h' = close_existing track h in
      record h' {
        publishers = insert track h.next h'.publishers;
        writers = insert h.next (new_track_writer (accepted_slot publisher)) h'.writers;
        next = suc h.next;
      }

  -- `accept` is what the response writer's `Accept` returns.
  unfoldable pub handle_subscribe :
      ℕ → Option Error → List String → String → Handler M → Handler M × Answer
  unfolding register same_namespace
  handle_subscribe publisher accept namespace track h =
      if h.closed
      then (h, rejected "internal" "handler closed")
      else if not (length namespace == length h.namespace)
      then (h, rejected "track does not exist" "invalid namespace length")
      else if not (same_namespace h.namespace namespace)
      then (h, rejected "track does not exist" "namespace mismatch")
      else elim accept [
        | some e ↦ (h, accept_failed)
        | none ↦ (register publisher track h, accepted)
      ]

  unfoldable pub cancel : ℕ → Handler M → Handler M
  cancel ctx h = record h { cancelled = ctx ∷ h.cancelled }

  unfoldable pub cancel_existing : String → Handler M → Handler M
  unfolding cancel
  cancel_existing track h = elim (lookup track h.subscribers) [
    | none ↦ h
    | some sub ↦ cancel sub.ctx h
  ]

  unfoldable pub subscribe : String → (M → Option Error) → Handler M → Handler M × Option Error
  unfolding cancel_existing
  subscribe track callback h =
      let h' = cancel_existing track h in
      if h.closed then (h, some (sentinel connection_closed)) else (
        record h' {
          subscribers =
              insert track (record { reader = none; handler = callback; ctx = h.next })
                h'.subscribers;
          next = suc h.next;
        },
        none,
      )

  unfoldable pub close_reader : Option ℕ → Handler M → Handler M
  close_reader none h = h
  close_reader (some r) h = record h { closed_readers = r ∷ h.closed_readers }

  unfoldable pub unsubscribe : String → Handler M → Handler M
  unfolding cancel close_reader
  unsubscribe track h = elim (lookup track h.subscribers) [
    | none ↦ h
    | some sub ↦
        let h' = close_reader sub.reader (cancel sub.ctx h) in
        record h' { subscribers = erase track h'.subscribers }
  ]

  unfoldable pub deliver : ℕ → Subscriber M → M → Handler M → Handler M × Option Error
  deliver size sub message h = if mem sub.ctx h.cancelled then (h, some canceled) else (
    record h {
      metrics = record_data_track_message size h.metrics;
      delivered = message ∷ h.delivered;
    },
    sub.handler message,
  )

  -- `unmarshal` is `json.Unmarshal` into a message.
  unfoldable pub handle_data :
      (Bytes → Result M) → String → Bytes → Handler M → Handler M × Option Error
  unfolding deliver
  handle_data unmarshal track bytes h =
      if h.closed
      then (h, some (sentinel connection_closed))
      else if ltb max_message_size (length bytes)
      then (h, some (sentinel message_too_large))
      else elim (lookup track h.subscribers) [
        | none ↦ (h, some (sentinel no_subscriber))
        | some sub ↦ elim (unmarshal bytes) [
          | err e ↦ (h, some e)
          | ok message ↦ deliver (length bytes) sub message h
        ]
      ]

  -- The new reader is at the old `next`; the receive loop starts with it and the context returned.
  unfoldable pub handle_remote_track : String → Handler M → Handler M × Result (ℕ × ℕ)
  unfolding close_reader
  handle_remote_track track h =
      let reader = h.next in
      let h1 = record h { next = suc h.next } in
      if h.closed
      then (h, err (sentinel connection_closed))
      else elim (lookup track h.subscribers) [
        | none ↦ (close_reader (some reader) h1, err (sentinel no_subscriber))
        | some sub ↦
            let h2 = close_reader sub.reader h1 in
            (
              record h2 {
                subscribers = insert track (record sub { reader = some reader }) h2.subscribers;
              },
              ok (reader, sub.ctx),
            )
      ]

  -- `receiveLoop` over what its reads return; at the end of the list it waits for the next read.
  -- The Boolean says whether it has returned, and closed its reader.
  unfoldable pub receive_loop :
      (Bytes → Result M) → ℕ → String → ℕ → List (Result Bytes) → Handler M → Handler M × Bool
  unfolding handle_data close_reader
  receive_loop unmarshal ctx track reader [] h =
      if mem ctx h.cancelled
      then (close_reader (some reader) h, true)
      else if h.done
      then (close_reader (some reader) h, true)
      else (h, false)
  receive_loop unmarshal ctx track reader (err e ∷ rest) h = (close_reader (some reader) h, true)
  receive_loop unmarshal ctx track reader (ok bytes ∷ rest) h =
      let (h', r) = handle_data unmarshal track bytes h in
      let further = receive_loop unmarshal ctx track reader rest h' in
      if mem ctx h.cancelled
      then (close_reader (some reader) h, true)
      else if h.done
      then (close_reader (some reader) h, true)
      else elim r [ none ↦ further | some e ↦ (close_reader (some reader) h', true) ]

  unfoldable pub close_writers : List (String × ℕ) → Handler M → Handler M
  unfolding close_at
  close_writers [] h = h
  close_writers ((track, w) ∷ rest) h = close_writers rest (close_at w h)

  unfoldable pub stop_subscribers : List (String × Subscriber M) → Handler M → Handler M
  unfolding cancel close_reader
  stop_subscribers [] h = h
  stop_subscribers ((track, sub) ∷ rest) h =
      stop_subscribers rest (close_reader sub.reader (cancel sub.ctx h))

  unfoldable pub close : Handler M → Handler M
  unfolding close_writers stop_subscribers
  close h =
      let h1 = close_writers h.publishers (record h { closed = true; done = true }) in
      let h2 = stop_subscribers h1.subscribers (record h1 { publishers = [] }) in
      if h.closed then h else record h2 { subscribers = [] }
