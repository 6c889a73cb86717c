-- ===== src/Data/Publishing.antt =====
-- pkg/moqttransport/data_track_handler.go: `Publish`, `PublishStream` and `BatchPublish`. `marshal`
-- is `json.Marshal`. The result is the handler, what was asked of the publisher, and the outcome.
pub mod Batches
pub mod Rounds
use mcp_moqt_transport.Base.{
  ℕ, zero, suc, Bool, true, false, Option, none, some, List, [], ◌∷◌, ◌++◌, String, if◌then◌else◌,
  length, take, drop,
}
use mcp_moqt_transport.Base.Map.{lookup, insert, nat_key, string_key}
use mcp_moqt_transport.Errors.{Error, Result, ok, err, sentinel, connection_closed, no_publisher}
use mcp_moqt_transport.Tracks.{
  TrackWriter, Peer, Bytes, Action, Outcome, waits, returns, write, write_stream,
}
use mcp_moqt_transport.Metrics.{record_data_track_message, record_message_sent, record_error}
use mcp_moqt_transport.Data.{Handler}

-- The objects of the messages that marshal, and the errors of those that do not.
unfoldable pub marshal_all : {M : Type 0} → (M → Result Bytes) → List M → List Bytes × List Error
marshal_all marshal [] = ([], [])
marshal_all marshal (m ∷ ms) =
    let (objects, errors) = marshal_all marshal ms in
    elim (marshal m) [ ok bytes ↦ (bytes ∷ objects, errors) | err e ↦ (objects, e ∷ errors) ]

-- Serialization runs concurrently; the error returned is that of the goroutine that reports first,
-- here the one at position `arrival` of those that fail.
unfoldable pub pick_error : ℕ → Error → List Error → Error
pick_error zero e es = e
pick_error (suc n) e [] = e
pick_error (suc n) e (x ∷ es) = pick_error n x es

module _ {M : Type 0} where
  -- A call on the writer at an address, through the pointer that was read from the map.
  unfoldable pub on_writer :
      ℕ
      → (TrackWriter → TrackWriter × List Action × Outcome)
      → Handler M
      → Handler M × List Action × Outcome
  on_writer w f h = elim (lookup w h.writers) [
    | none ↦ (h, [], waits)
    | some writer ↦
        let (writer', actions, r) = f writer in
        (record h { writers = insert w writer' h.writers }, actions, r)
  ]

module _ {M : Type 0} (marshal : M → Result Bytes) (ctx : Option Error) (ready_first : Bool)
    (peer : Peer) where
  unfoldable pub publish : String → M → Handler M → Handler M × List Action × Outcome
  unfolding on_writer
  publish track message h =
      if h.closed
      then (h, [], returns (some (sentinel connection_closed)))
      else elim (lookup track h.publishers) [
        | none ↦ (h, [], returns (some (sentinel no_publisher)))
        | some w ↦ elim (marshal message) [
          | err e ↦ (h, [], returns (some e))
          | ok bytes ↦
              let (h', actions, r) = on_writer w (write ctx ready_first peer bytes) h in
              elim r [
                | waits ↦ (h', actions, waits)
                | returns x ↦ elim x [
                  | some e ↦ (h', actions, returns (some e))
                  | none ↦ (
                    record h' { metrics = record_data_track_message (length bytes) h'.metrics },
                    actions,
                    returns none,
                  )
                ]
              ]
        ]
      ]

  unfoldable pub publish_stream :
      ℕ → String → List M → Handler M → Handler M × List Action × Outcome
  unfolding on_writer marshal_all pick_error
  publish_stream arrival track messages h =
      if h.closed
      then (h, [], returns (some (sentinel connection_closed)))
      else elim (lookup track h.publishers) [
        | none ↦ (h, [], returns (some (sentinel no_publisher)))
        | some w ↦ elim (marshal_all marshal messages).1 [
          | e ∷ es ↦ (h, [], returns (some (pick_error arrival e es)))
          | [] ↦ on_writer w (write_stream ctx ready_first peer (marshal_all marshal messages).0) h
        ]
      ]

  -- One round of `BatchPublish`: the batch is serialized and written.
  unfoldable pub publish_batch : ℕ → ℕ → List M → Handler M → Handler M × List Action × Outcome
  unfolding on_writer marshal_all pick_error
  publish_batch arrival w batch h = elim (marshal_all marshal batch).1 [
    | e ∷ es ↦ (h, [], returns (some (pick_error arrival e es)))
    | [] ↦
        let (h', actions, r) =
          on_writer w (write_stream ctx ready_first peer (marshal_all marshal batch).0) h in
        elim r [
          | waits ↦ (h', actions, waits)
          | returns x ↦ elim x [
            | some e ↦ (record h' { metrics = record_error h'.metrics }, actions, returns (some e))
            | none ↦ (
              record h' { metrics = record_message_sent (length batch) h'.metrics },
              actions,
              returns none,
            )
          ]
        ]
  ]

  -- The loop over the messages that are left, `size` at a time. With the fuel used up it is still
  -- running, and `none` stands for its outcome.
  unfoldable pub batch_loop :
      ℕ → ℕ → ℕ → ℕ → List M → Handler M → Handler M × List Action × Option Outcome
  unfolding publish_batch
  batch_loop zero arrival size w messages h = (h, [], none)
  batch_loop (suc fuel) arrival size w [] h = (h, [], some (returns none))
  batch_loop (suc fuel) arrival size w (m ∷ ms) h =
      let (h', actions, r) = publish_batch arrival w (take size (m ∷ ms)) h in
      let (h2, more, r2) = batch_loop fuel arrival size w (drop size (m ∷ ms)) h' in
      elim r [
        | waits ↦ (h', actions, some waits)
        | returns x ↦ elim x [
          | some e ↦ (h', actions, some (returns (some e)))
          | none ↦ (h2, actions ++ more, r2)
        ]
      ]

  unfoldable pub batch_publish :
      ℕ → ℕ → ℕ → String → List M → Handler M → Handler M × List Action × Option Outcome
  unfolding batch_loop
  batch_publish fuel arrival size track messages h =
      if h.closed
      then (h, [], some (returns (some (sentinel connection_closed))))
      else elim (lookup track h.publishers) [
        | none ↦ (h, [], some (returns (some (sentinel no_publisher))))
        | some w ↦ batch_loop fuel arrival size w messages h
      ]
