-- ===== src/Server/Live.antt =====
-- The sessions of a server that are live, as its callers see them: an accepted connection adds one,
-- its `Close` removes it, and the server's `Close` ends them all.
use mcp_moqt_transport.Base.{
  ℕ, ◌≡◌, refl, Bool, true, false, Option, none, some, List, [], ◌∷◌, String, str_eq, eq_iff,
  if◌then◌else◌, arith,
}
use mcp_moqt_transport.Base.Map.{lookup, erase, nat_key, string_key, IsUnique, erase_absent}
use mcp_moqt_transport.Errors.{Error, Result, ok, err}
use mcp_moqt_transport.Metrics.{Metrics}
use mcp_moqt_transport.Server.{Server, Conn, Incoming, listen, setup_connection, close_conn, close}
use mcp_moqt_transport.Server.Serving.{accept}

-- The live sessions: the address of the control connection and the session's id.
abbrev pub Live : Type 0
Live = List (ℕ × String)

-- What may happen: `Listen`, `Accept`, the setup of a connection that an earlier `Accept` took, `Close`
-- of a control connection, `Close` of the server.
pub data Event : Type 0 where
  listens : Option Error → Event
  accepts : Result Incoming → Event
  sets_up : Incoming → Event
  ends : ℕ → Event
  shuts : Event

-- What a caller learns.
pub data Output : Type 0 where
  opened : ℕ → String → Output
  ended : ℕ → Output
  shut unchanged : Output

unfoldable pub advance : Output → Live → Live
advance (opened c id) m = (c, id) ∷ m
advance (ended c) m = erase c m
advance shut m = []
advance unchanged m = m

abbrev pub answered : String → Result ℕ → Output
answered id (err e) = unchanged
answered id (ok c) = opened c id

abbrev pub id_of : Result Incoming → String
id_of (err e) = ""
id_of (ok i) = i.session_id

abbrev pub has_id : String → Live → Bool
has_id id [] = false
has_id id ((c, i) ∷ m) = if str_eq i id then true else has_id id m

abbrev pub contains : String → List String → Bool
contains id [] = false
contains id (i ∷ is) = if str_eq i id then true else contains id is

-- `connections` of the live sessions.
abbrev pub mark : Live → List (ℕ × Bool)
mark [] = []
mark ((c, id) ∷ m) = (c, true) ∷ mark m

abbrev pub UniqueIds : Live → Type 0
UniqueIds [] = Unit
UniqueIds ((c, id) ∷ m) = (has_id id m ≡ false) × UniqueIds m

-- No id is generated twice, and none that is `used`.
abbrev pub NewIds : List Event → List String → Type 0
NewIds [] used = Unit
NewIds (accepts (ok i) ∷ es) used =
    (contains i.session_id used ≡ false) × NewIds es (i.session_id ∷ used)
NewIds (sets_up i ∷ es) used =
    (contains i.session_id used ≡ false) × NewIds es (i.session_id ∷ used)
NewIds (e ∷ es) used = NewIds es used

abbrev pub open_at : Option Conn → Option String
open_at none = none
open_at (some k) = if k.closed then none else some k.session_id

pub erase-mark : (a : ℕ) (m : Live) → erase a (mark m) ≡ mark (erase a m)
unfolding erase
erase-mark a [] = refl
erase-mark a ((c, id) ∷ m) = ground (arith, erase-mark a m)

pub has_id-erase_other :
    (id : String) (a : ℕ) (m : Live) → has_id id m ≡ false → has_id id (erase a m) ≡ false
unfolding erase
has_id-erase_other id a [] h = refl
has_id-erase_other id a ((c, i) ∷ m) h = ground (arith, has_id-erase_other id a m)

pub erase-UniqueIds : (a : ℕ) (m : Live) → UniqueIds m → UniqueIds (erase a m)
unfolding erase
erase-UniqueIds a [] u = tt
erase-UniqueIds a ((c, i) ∷ m) u =
    ground (arith, has_id-erase_other i a m u.0, erase-UniqueIds a m u.1)

pub lookup-has_id : (a : ℕ) (sid : String) (m : Live) → lookup a m ≡ some sid → has_id sid m ≡ true
unfolding lookup
lookup-has_id a sid [] h = absurd (ground arith)
lookup-has_id a sid ((c, i) ∷ m) h = ground (arith, eq_iff i sid, lookup-has_id a sid m)

pub has_id-erase :
    (id sid : String) (a : ℕ) (m : Live)
    → IsUnique m
    → UniqueIds m
    → lookup a m ≡ some sid
    → has_id id (erase a m) ≡ (if str_eq sid id then false else has_id id m)
unfolding erase lookup
has_id-erase id sid a [] u v h = absurd (ground arith)
has_id-erase id sid a ((c, i) ∷ m) u v h = ground (
  arith,
  eq_iff sid id,
  eq_iff i id,
  eq_iff i sid,
  lookup-has_id a sid m,
  has_id-erase id sid a m u.1 v.1,
  erase_absent a m,
)

module _ {M : Type 0} (metrics : Metrics) where
  unfoldable pub step : Event → Server M → Server M × Output
  unfolding accept close_conn close listen setup_connection
  step (listens bound) s = ((listen bound s).0, unchanged)
  step (accepts i) s = let (s', r) = accept metrics i s in (s', answered (id_of i) r)
  step (sets_up i) s = let (s', r) = setup_connection metrics i s in (s', answered i.session_id r)
  step (ends a) s = (close_conn a s, ended a)
  step shuts s = (close s, if s.closed then unchanged else shut)

  -- The server, and the live sessions by what its callers learnt.
  unfoldable pub run : List Event → Server M → Live → Server M × Live
  unfolding step advance
  run [] s m = (s, m)
  run (e ∷ es) s m = let (s', o) = step e s in run es s' (advance o m)
