-- ===== src/Examples/Subscriptions.antt =====
-- Runs of the data track handler's subscriptions, streams and batches.
use mathlib.Core.List.{reverse}
use mcp_moqt_transport.Base.Map.{lookup, string_key}
use mcp_moqt_transport.Data.Publishing.Batches.{payloads}
use mcp_moqt_transport.Data.Journey.{IsFree, receive_loop-batch_publish}
use mcp_moqt_transport.Base.{
  suc, map, refl, ℕ, ◌≡◌, ◌≤◌, true, false, Option, none, some, List, [], ◌∷◌, ◌++◌, length, All,
  arith, is_some,
}
use mcp_moqt_transport.Errors.{Error, Result, ok, err}
use mcp_moqt_transport.Metrics.{new_metrics}
use mcp_moqt_transport.Tracks.{returns, Peer, Bytes}
use mcp_moqt_transport.Data.{
  handle_subscribe, subscribe, handle_remote_track, receive_loop, accepted, Handler, resources,
  new_handler,
}
use mcp_moqt_transport.Data.Streaming.{Stream, capacity, new_stream}
use mcp_moqt_transport.Data.Streaming.Order
use mcp_moqt_transport.Data.Streaming.Order.{Timely, offers, takes, cancels, closes, run-new_stream}
use mcp_moqt_transport.Data.Subscriptions.{Event, run}
use mcp_moqt_transport.Data.Subscriptions.Live.{Live, any_late, run-Live}
use mcp_moqt_transport.Data.Publishing.{batch_publish}
use mcp_moqt_transport.Data.Publishing.Rounds.{batch_publish_ends}

abbrev first_byte : Bytes → Result ℕ
first_byte [] = err (Error.foreign 8)
first_byte (b ∷ bs) = ok b

abbrev one_byte : ℕ → Result Bytes
one_byte m = ok (m ∷ [])

abbrev silent : ℕ → Option Error
silent m = none

-- Two subscriptions of one track, a stream of another, data for the first, and a subscription that
-- tested `closed` before the handler was closed.
abbrev busy : List (Event ℕ)
busy =
    Event.subscribes "a" silent
    ∷ Event.attaches "a"
    ∷ Event.arrives "a" (7 ∷ [])
    ∷ Event.subscribes "a" silent
    ∷ Event.streams "b" silent
    ∷ Event.expires 3
    ∷ Event.ends "b" 3
    ∷ Event.unsubscribes "c"
    ∷ []

run-Live_example :
    let (h, given) = run first_byte busy (new_handler "s" resources (new_metrics 5)) [] in
    All (Live (any_late busy) h) given
run-Live_example = run-Live first_byte busy "s" resources (new_metrics 5)

-- A message is offered, received, another offered, and the context ends.
abbrev short_stream : List (Order.Event ℕ)
short_stream = offers false 1 ∷ takes ∷ offers false 2 ∷ cancels ∷ []

run-new_stream_example :
    (s : Stream ℕ) × (log : List ℕ) × (Order.run short_stream (new_stream (new_metrics 5)) []
      ≡ some (s, log))
    × (reverse s.taken ++ s.queue ≡ log)
    × (length s.queue ≤ capacity)
run-new_stream_example = run-new_stream short_stream (new_metrics 5) tt

-- A peer that refuses every subgroup.
abbrev refusing : Peer
refusing = record {
  open_subgroup = λ p g. some (Error.foreign 4);
  write_object = λ g i b. none;
  close_subgroup = λ g. none;
}

abbrev idle : Handler ℕ
idle = new_handler "s" resources (new_metrics 5)

batch_publish_ends_example :
    let end = batch_publish one_byte none true refusing 4 0 2 "a" (1 ∷ 2 ∷ 3 ∷ []) idle in
    (is_some end.2 ≡ true)
    × (batch_publish one_byte none true refusing 9 0 2 "a" (1 ∷ 2 ∷ 3 ∷ []) idle ≡ end)
batch_publish_ends_example =
    batch_publish_ends one_byte none true refusing 0 2 (omega arith) 9 "a" (1 ∷ 2 ∷ 3 ∷ []) idle
      (omega arith)

abbrev encode : ℕ → Bytes
encode m = m ∷ []

abbrev agreeable : Peer
agreeable = record {
  open_subgroup = λ p g. none;
  write_object = λ g i b. none;
  close_subgroup = λ g. none;
}

idle-IsFree : IsFree "a" idle
unfolding lookup new_handler
idle-IsFree = record { is_open = refl; running = refl; unsubscribed = refl; fresh = refl }

idle_open : idle.closed ≡ false
unfolding new_handler
idle_open = refl

receive_loop-batch_publish_example :
    let (s, answer) = handle_subscribe 9 none idle.namespace "a" idle in
    let (s', actions, outcome) =
      batch_publish one_byte none true agreeable 4 0 2 "a" (1 ∷ 2 ∷ 3 ∷ []) s in
    let (r, problem) = subscribe "a" silent idle in
    let (r', joined) = handle_remote_track "a" r in
    let (r'', returned) =
      receive_loop first_byte idle.next "a" (suc idle.next) (map ok (payloads actions)) r' in
    (answer ≡ accepted)
    × (outcome ≡ some (returns none))
    × (problem ≡ none)
    × (joined ≡ ok (suc idle.next, idle.next))
    × (r''.delivered ≡ reverse (1 ∷ 2 ∷ 3 ∷ []) ++ idle.delivered)
    × (returned ≡ false)
receive_loop-batch_publish_example =
    receive_loop-batch_publish one_byte first_byte encode (λ m. refl) (λ m. refl) (λ m. omega arith)
      true agreeable (λ p g. refl, λ g i b. refl, λ g. refl) 9 4 2 "a" silent (1 ∷ 2 ∷ 3 ∷ []) idle
      idle idle_open idle-IsFree (λ m. refl) (omega arith) (omega arith)
