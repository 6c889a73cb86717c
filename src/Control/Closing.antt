-- ===== src/Control/Closing.antt =====
-- `Close` of a control connection.
use mathlib.Core.Path.{subst}
use mcp_moqt_transport.Base.{ℕ, suc, ◌≡◌, refl, true, false, some, [], arith, All}
use mcp_moqt_transport.Tracks.{close_writer}
use mcp_moqt_transport.Heartbeat.{stop}
use mcp_moqt_transport.Ack.{Tracker}
use mcp_moqt_transport.Ack.Steps.{close_begin}
use mcp_moqt_transport.Ack.Steps.Invariant.{Inv, close_begin-Inv}
use mcp_moqt_transport.Ack.Steps.Closing.{Refused, close_finish-Refused}
use mcp_moqt_transport.Control.{ControlConn, close, closed_down}

-- What `Close` leaves of the connection `c`.
pub record IsShut (now : ℕ) (c c' : ControlConn) : Type 0 where
  pub closed : c'.closed ≡ true
  pub done : c'.done ≡ true
  pub refused : All (Refused now c'.tracker.chans) c.tracker.pending
  pub drained : c'.tracker.pending ≡ []
  pub silent : c'.heartbeat.running ≡ false
  pub read_cancelled : c'.read_cancelled ≡ true
  pub write_closed : c'.write_track.closed ≡ true
  pub recv_closed : c'.recv_closed ≡ true
  pub conn_closed : c'.conn_closed ≡ true
  pub told : c.has_on_close ≡ true → c'.calls_on_close ≡ suc c.calls_on_close

stop-running : (c : ControlConn) → (stop c.heartbeat).running ≡ false
unfolding stop
stop-running c = ground arith

close_begin-pending : (t : Tracker) → (close_begin t).pending ≡ t.pending
unfolding close_begin
close_begin-pending t = ground arith

close_begin-closing : (t : Tracker) → t.closed ≡ false → (close_begin t).closing ≡ true
unfolding close_begin
close_begin-closing t o = simp o refl

-- The first `Close` of a connection with a coherent, open tracker goes through: every message that
-- waits for its acknowledgement is refused once, nothing waits any more, the heartbeat stops, both
-- tracks and the transport's connection are closed, and `OnClose` is called once; a further `Close`
-- changes nothing.
pub close-IsShut :
    (now later : ℕ) (c : ControlConn)
    → Inv c.tracker
    → c.closed ≡ false
    → c.tracker.closed ≡ false
    → (c' : ControlConn) × (close now c ≡ some c') × IsShut now c c' × (close later c' ≡ some c')
unfolding close close_writer
close-IsShut now later c v o t =
    let (t', e, refused, drained) =
      close_finish-Refused now (close_begin c.tracker) (close_begin-Inv c.tracker v)
        (close_begin-closing c.tracker t) in
    let half : ControlConn = record c {
      closed = true;
      done = true;
      heartbeat = stop c.heartbeat;
    } in
    (
      closed_down t' half,
      simp (o, e) refl,
      record {
        closed = refl;
        done = refl;
        refused = subst (λ m. All (Refused now t'.chans) m) (close_begin-pending c.tracker) refused;
        drained = drained;
        silent = stop-running c;
        read_cancelled = refl;
        write_closed = refl;
        recv_closed = refl;
        conn_closed = refl;
        told = λ h. rw h refl;
      },
      refl,
    )
