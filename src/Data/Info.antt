-- ===== src/Data/Info.antt =====
-- pkg/moqttransport/data_tracks.go and data_track_handler.go: what a handler tells about its tracks,
-- and its subscription to a track of the peer.
use mcp_moqt_transport.Base.{ℕ, List, [], ◌∷◌, String}
use mcp_moqt_transport.Base.{Option, none, some, if◌then◌else◌}
use mcp_moqt_transport.Errors.{Error, Result, err, sentinel, connection_closed}
use mcp_moqt_transport.Data.{DataTrackType, Handler, handle_remote_track}

-- The description is left out of every entry: it stays the empty string.
pub record DataTrackInfo : Type 0 where
  pub type : DataTrackType
  pub track_name : String
  pub namespace : List String
  pub description : String

unfoldable pub info_of : DataTrackType → List String → List (String × ℕ) → List DataTrackInfo
info_of type namespace [] = []
info_of type namespace ((track, w) ∷ rest) =
    record { type = type; track_name = track; namespace = namespace; description = "" }
    ∷ info_of type namespace rest

unfoldable pub get_track_info : {M : Type 0} → Handler M → List DataTrackInfo
unfolding info_of
get_track_info h = info_of h.track_type h.namespace h.publishers

module _ {M : Type 0} where
  -- `remote` is what the session's `Subscribe` returns.
  unfoldable pub attach_session_subscribe :
      Option Error → String → Handler M → Handler M × Result (ℕ × ℕ)
  unfolding handle_remote_track
  attach_session_subscribe remote track h =
      if h.closed
      then (h, err (sentinel connection_closed))
      else elim remote [ some e ↦ (h, err e) | none ↦ handle_remote_track track h ]
