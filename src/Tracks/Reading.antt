-- ===== src/Tracks/Reading.antt =====
-- pkg/moqttransport/track_base.go, the track reader. What the remote track's `ReadObject` and `Close`
-- return are arguments; the payload is copied into a pooled buffer, here the payload itself (the buffers
-- are those of Tracks/Buffers).
use mcp_moqt_transport.Base.{
  ℕ, suc, ◌≡◌, refl, Bool, true, false, ◌&&◌, Option, none, some, List, [], ◌∷◌, if◌then◌else◌,
}
use mcp_moqt_transport.Errors.{Error, Result, err, sentinel, connection_closed}
use mcp_moqt_transport.Tracks.{Bytes}

-- `track` is nil or a pointer, `track_closes` the number of calls of its `Close`.
pub record TrackReader : Type 0 where
  pub track : Option ℕ
  pub closed : Bool
  pub done : Bool
  pub track_closes : ℕ

unfoldable pub new_track_reader : Option ℕ → TrackReader
new_track_reader track = record { track = track; closed = false; done = false; track_closes = 0 }

-- With the context done and the channel closed `select` takes either case: `done_first` says which.
unfoldable pub read : Option Error → Bool → Result Bytes → TrackReader → Result Bytes
read ctx done_first object r = if r.closed then err (sentinel connection_closed) else elim ctx [
  | some e ↦ if r.done && done_first then err (sentinel connection_closed) else err e
  | none ↦ if r.done then err (sentinel connection_closed) else object
]

unfoldable pub close_track : Option Error → TrackReader → TrackReader × Option Error
close_track result r = elim r.track [
  | none ↦ (r, none)
  | some t ↦ (record r { track_closes = suc r.track_closes }, result)
]

unfoldable pub close : Option Error → TrackReader → TrackReader × Option Error
unfolding close_track
close result r =
    if r.closed then (r, none) else close_track result (record r { closed = true; done = true })

-- `Close` again and again, with what the track would return.
unfoldable pub close_all : List (Option Error) → TrackReader → TrackReader
unfolding close
close_all [] r = r
close_all (result ∷ rest) r = close_all rest (close result r).0

close_all_closed :
    (results : List (Option Error)) (r : TrackReader) → r.closed ≡ true → close_all results r ≡ r
unfolding close_all close
close_all_closed [] r c = refl
close_all_closed (x ∷ results) r c = simp c (close_all_closed results r c)

-- However often a new reader on a track is closed after the first time, the track is closed once, by
-- the first call, which returns what the track returns; every later read reports the closed
-- connection, with or without its context done.
close_once :
    (t : ℕ) (first : Option Error) (later : List (Option Error)) (ctx : Option Error)
    (done_first : Bool) (object : Result Bytes)
    → let r = new_track_reader (some t) in
      let r' = close_all (first ∷ later) r in
      ((close first r).1 ≡ first)
      × (r'.track_closes ≡ 1)
      × (read ctx done_first object r' ≡ err (sentinel connection_closed))
unfolding close_all close new_track_reader read
close_once t first later ctx done_first object =
    let r : TrackReader = record { track = some t; closed = true; done = true; track_closes = 1 } in
    rw (close_all_closed later r refl) (refl, refl, refl)
