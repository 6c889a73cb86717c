-- ===== src/Data/Streaming.antt =====
-- pkg/moqttransport/data_track_handler.go, `StreamMessages`: the subscription that it makes, and the
-- channel that its callback sends on. A stream's context is the one of its subscription.
pub mod Order
use mcp_moqt_transport.Base.{
  ℕ, suc, Bool, true, false, not, ◌&&◌, Option, none, some, List, [], ◌∷◌, ◌++◌, String,
  if◌then◌else◌, ◌==◌, length, ltb,
}
use mcp_moqt_transport.Base.Map.{lookup, insert, erase, string_key}
use mcp_moqt_transport.Errors.{Error, Result, ok, err, sentinel, connection_closed}
use mcp_moqt_transport.Metrics.{Metrics, record_message_received}
use mcp_moqt_transport.Data.{Handler, Subscriber, cancel, cancel_existing, close_reader, canceled}

-- `make(chan *DataTrackMessage, 10)`.
abbrev pub capacity : ℕ
capacity = 10

-- `queue` is what the message channel holds, oldest first; `taken` what the caller has received from
-- it, newest first. The error channel, which nobody sends on, is closed together with it.
pub record Stream (M : Type 0) : Type 0 where
  pub queue : List M
  pub closed : Bool
  pub cancelled : Bool
  pub taken : List M
  pub metrics : Metrics

-- What the callback's `select` comes to.
pub data Sent : Type 0 where
  sent waits panics : Sent
  stopped : Error → Sent

module _ {M : Type 0} where
  -- The subscription of `StreamMessages`, and its context; `send` is the callback.
  unfoldable pub stream_messages : String → (M → Option Error) → Handler M → Handler M × Result ℕ
  unfolding cancel_existing
  stream_messages track send h =
      let h' = cancel_existing track h in
      if h.closed then (h, err (sentinel connection_closed)) else (
        record h' {
          subscribers =
              insert track (record { reader = none; handler = send; ctx = h.next }) h'.subscribers;
          next = suc h.next;
        },
        ok h.next,
      )

  -- The goroutine once the context is done: it removes its subscription, unless that was replaced.
  unfoldable pub end_subscription : String → ℕ → Handler M → Handler M
  unfolding cancel close_reader
  end_subscription track ctx h = elim (lookup track h.subscribers) [
    | none ↦ h
    | some sub ↦
        let h' = close_reader sub.reader (cancel sub.ctx h) in
        if sub.ctx == ctx then record h' { subscribers = erase track h'.subscribers } else h
  ]

  unfoldable pub new_stream : Metrics → Stream M
  new_stream metrics = record {
    queue = [];
    closed = false;
    cancelled = false;
    taken = [];
    metrics = metrics;
  }

  abbrev pub push : M → Stream M → Stream M
  push m s = record s { queue = s.queue ++ m ∷ []; metrics = record_message_received 1 s.metrics }

  -- The callback. A send on the closed channel is always ready, and panics; `done_first` says which
  -- case is taken when both are ready.
  unfoldable pub offer : Bool → M → Stream M → Stream M × Sent
  offer done_first m s =
      if s.cancelled && done_first
      then (s, stopped canceled)
      else if s.closed
      then (s, panics)
      else if ltb (length s.queue) capacity
      then (push m s, sent)
      else if s.cancelled
      then (s, stopped canceled)
      else (s, waits)

  abbrev pub receive_from : List M → Stream M → Stream M
  receive_from [] s = s
  receive_from (m ∷ rest) s = record s { queue = rest; taken = m ∷ s.taken }

  -- The caller receives a message; an empty channel keeps it waiting, or tells that it is closed.
  unfoldable pub take_one : Stream M → Stream M
  take_one s = receive_from s.queue s

  unfoldable pub cancel_stream : Stream M → Stream M
  cancel_stream s = record s { cancelled = true }

  -- The end of the goroutine, which waits for the context.
  unfoldable pub close_channels : Stream M → Stream M
  close_channels s = if s.cancelled then record s { closed = true } else s
