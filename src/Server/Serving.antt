-- ===== src/Server/Serving.antt =====
-- pkg/moqttransport/server.go: `Connect`, `Accept`, `Serve`, what the server tells of its sessions, and
-- the transport around a connection that was accepted already.
pub mod Rounds
use mcp_moqt_transport.Base.{
  ℕ, Bool, not, Option, none, some, List, [], ◌∷◌, String, str_eq, if◌then◌else◌, length,
}
use mcp_moqt_transport.Base.Map.{lookup, nat_key, string_key}
use mcp_moqt_transport.Errors.{Error, Result, ok, err, text, wrap}
use mcp_moqt_transport.Metrics.{Metrics}
use mcp_moqt_transport.Data.{DataTrackType, Handler}
use mcp_moqt_transport.Server.{Server, Incoming, same_type, listen, setup_connection}

-- What a round of `Serve` meets: whether the context is done at its start, what the listener's `Accept`
-- returns, and the context's state once `Accept` has failed.
pub record Round : Type 0 where
  pub done_first : Bool
  pub accepted : Result Incoming
  pub done_after : Bool

unfoldable pub preconnected_connect : Option ℕ → Result ℕ
preconnected_connect none = err (text "preconnected connection is nil")
preconnected_connect (some conn) = ok conn

-- The first of two searches that finds something.
abbrev pub either {ℓ} : {A : Type ℓ} → Option A → Option A → Option A
either none y = y
either (some x) y = some x

module _ {M : Type 0} where
  unfoldable pub accept : Metrics → Result Incoming → Server M → Server M × Result ℕ
  unfolding setup_connection
  accept metrics accepted s =
      if not s.listening
      then (s, err (text "listener not started; call Listen or Connect first"))
      else elim accepted [
        | err e ↦ (s, err (wrap "failed to accept" e))
        | ok i ↦ setup_connection metrics i s
      ]

  unfoldable pub connect : Metrics → Option Error → Result Incoming → Server M → Server M × Result ℕ
  unfolding listen accept
  connect metrics bound accepted s =
      let (s', e) = listen bound s in
      elim e [ some e ↦ (s', err e) | none ↦ accept metrics accepted s' ]

  -- The connections are those that `handle` is called on, oldest first, and the error is none while
  -- `Serve` still runs.
  unfoldable pub serve_rounds :
      Error → Metrics → List Round → Server M → Server M × (List ℕ × Option Error)
  unfolding accept
  serve_rounds ctx_err metrics [] s = (s, ([], none))
  serve_rounds ctx_err metrics (r ∷ rs) s =
      let (s', a) = accept metrics r.accepted s in
      let (s'', (handled, e)) = serve_rounds ctx_err metrics rs s' in
      if r.done_first then (s, ([], some ctx_err)) else elim a [
        | err e ↦ (s', ([], some (if r.done_after then ctx_err else e)))
        | ok c ↦ (s'', (c ∷ handled, e))
      ]

  unfoldable pub serve :
      Bool
      → Error
      → Metrics
      → Option Error
      → List Round
      → Server M
      → Server M × (List ℕ × Option Error)
  unfolding serve_rounds listen
  serve has_handle ctx_err metrics bound rounds s =
      let (s', e) = listen bound s in
      if not has_handle
      then (s, ([], some (text "handle must not be nil")))
      else elim e [ some e ↦ (s', ([], some e)) | none ↦ serve_rounds ctx_err metrics rounds s' ]

  unfoldable pub find_type : DataTrackType → List (Handler M) → Option (Handler M)
  find_type t [] = none
  find_type t (h ∷ hs) = if same_type h.track_type t then some h else find_type t hs

  unfoldable pub find_any : DataTrackType → List (String × List (Handler M)) → Option (Handler M)
  unfolding find_type
  find_any t [] = none
  find_any t ((id, hs) ∷ m) = either (find_type t hs) (find_any t m)

  abbrev pub find_in : DataTrackType → Option (List (Handler M)) → Option (Handler M)
  find_in t none = none
  find_in t (some hs) = find_type t hs

  unfoldable pub data_track_handler_for : String → DataTrackType → Server M → Option (Handler M)
  unfolding find_any
  data_track_handler_for id t s =
      if str_eq id ""
      then find_any t s.session_handlers
      else find_in t (lookup id s.session_handlers)

  unfoldable pub data_track_handler : DataTrackType → Server M → Option (Handler M)
  unfolding data_track_handler_for
  data_track_handler t s = data_track_handler_for "" t s

  abbrev pub first_id : List (String × List (Handler M)) → String
  first_id [] = ""
  first_id ((id, hs) ∷ m) = id

  unfoldable pub session_id : Server M → String
  session_id s = first_id s.session_handlers

  unfoldable pub active_connections : Server M → ℕ
  active_connections s = length s.connections
