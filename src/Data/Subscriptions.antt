-- ===== src/Data/Subscriptions.antt =====
-- The subscriptions of a data track handler, under any sequence of its operations: which of the
-- contexts that it gave out are still live.
pub mod Carrying
pub mod Ending
pub mod Live
use mcp_moqt_transport.Base.{
  ℕ, suc, ◌≡◌, refl, sym, ap, ◌∙◌, Bool, true, false, Option, none, some, List, [], ◌∷◌, String,
  str_eq, eq_iff, if◌then◌else◌, ◌==◌, arith, inl, inr, ◌⊎◌, All, Bool-cases, Option-cases,
}
use mcp_moqt_transport.Base.Map.{
  lookup, insert, erase, nat_key, string_key, lookup-insert, lookup-erase,
}
use mcp_moqt_transport.Errors.{Error, Result, ok, err, sentinel, connection_closed}
use mcp_moqt_transport.Tracks.{Bytes}
use mcp_moqt_transport.Metrics.{Metrics}
use mcp_moqt_transport.Data.{
  DataTrackType, Handler, Subscriber, new_handler, handle_subscribe, register, close_existing,
  close_at, cancel, cancel_existing, subscribe, close_reader, unsubscribe, handle_data, deliver,
  handle_remote_track, close, mem,
}
use mcp_moqt_transport.Data.Streaming.{stream_messages, end_subscription}
use mcp_moqt_transport.Data.Closing.{close_releases, close-mem, close-closed}

-- A subscription of the peer, `Subscribe`, `StreamMessages` and the end of its goroutine, `Unsubscribe`,
-- a remote track that is attached, data that arrives, the end of a caller's context, and `Close`. A late
-- subscription is a `Subscribe` or `StreamMessages` that tested `closed` before it took the lock, perhaps
-- before a `Close`; the others are one step.
pub data Event (M : Type 0) : Type 0 where
  peers : ℕ → Option Error → List String → String → Event M
  subscribes streams late_subscribes : String → (M → Option Error) → Event M
  ends : String → ℕ → Event M
  unsubscribes attaches : String → Event M
  arrives : String → Bytes → Event M
  expires : ℕ → Event M
  closes : Event M

-- The contexts that were given out, newest first, each with its track.
abbrev pub Issued : Type 0
Issued = List (ℕ × String)

module _ {M : Type 0} where
  abbrev pub issue : String → Handler M → Handler M × Option Error → Issued → Handler M × Issued
  issue track h (h', some e) given = (h', given)
  issue track h (h', none) given = (h', (h.next, track) ∷ given)

  abbrev pub failure : Handler M × Result ℕ → Handler M × Option Error
  failure (h, err e) = (h, some e)
  failure (h, ok c) = (h, none)

  -- `Subscribe` and `StreamMessages` under the lock.
  unfoldable pub subscribe_late : String → (M → Option Error) → Handler M → Handler M
  unfolding cancel_existing
  subscribe_late track callback h =
      let h' = cancel_existing track h in
      record h' {
        subscribers =
            insert track (record { reader = none; handler = callback; ctx = h.next })
              h'.subscribers;
        next = suc h.next;
      }

module _ {M : Type 0} (unmarshal : Bytes → Result M) where
  unfoldable pub step : Event M → Handler M → Issued → Handler M × Issued
  unfolding subscribe_late handle_subscribe subscribe stream_messages end_subscription unsubscribe
      handle_remote_track handle_data cancel close
  step (peers publisher accept namespace track) h given =
      ((handle_subscribe publisher accept namespace track h).0, given)
  step (subscribes track callback) h given = issue track h (subscribe track callback h) given
  step (late_subscribes track callback) h given =
      issue track h (subscribe_late track callback h, none) given
  step (streams track send) h given = issue track h (failure (stream_messages track send h)) given
  step (ends track c) h given = (if mem c h.cancelled then end_subscription track c h else h, given)
  step (unsubscribes track) h given = (unsubscribe track h, given)
  step (attaches track) h given = ((handle_remote_track track h).0, given)
  step (arrives track bytes) h given = ((handle_data unmarshal track bytes h).0, given)
  step (expires c) h given = (cancel c h, given)
  step closes h given = (close h, given)

  unfoldable pub run : List (Event M) → Handler M → Issued → Handler M × Issued
  unfolding step
  run [] h given = (h, given)
  run (e ∷ es) h given = let (h', given') = step e h given in run es h' given'

module _ {M : Type 0} where
  -- The context is the one of the track's current subscription.
  abbrev pub Current : Handler M → ℕ × String → Type 0
  Current h (c, track) =
      (sub : Subscriber M) × (lookup track h.subscribers ≡ some sub) × (sub.ctx ≡ c)

  abbrev pub Accounted : Handler M → ℕ × String → Type 0
  Accounted h e = (mem e.0 h.cancelled ≡ true) ⊎ Current h e
