-- ===== src/Discovery.antt =====
-- pkg/moqttransport/session_handlers.go, `discoveryHandler`: what a server answers to the fetch by which
-- a client learns its session id. `marshal` is `json.Marshal` of the response.
use Prim.Native.String.{◌++◌ as joined}
use mcp_moqt_transport.Base.{
  ◌≡◌, refl, ◌≢◌, ap, ◌∙◌, Bool, true, false, not, ◌&&◌, Option, none, some, List, [], ◌∷◌, String,
  str_eq, eq_iff, if◌then◌else◌, arith, All,
}
use mcp_moqt_transport.Errors.{Error, Result, ok, err, text}
use mcp_moqt_transport.Tracks.{Bytes}
use mcp_moqt_transport.Data.{Answer, rejected, accepted, accept_failed}
use mcp_moqt_transport.Client.{Setup, discover_session_id, session_id_in}
use mcp_moqt_transport.Client.Decoding.{
  Json, number, string, object, end, field, read_struct, read_fields, read_string,
}

-- `"mcp/%s" + rest`.
abbrev pub path : String → String → String
path id rest = joined (joined "mcp/" id) rest

-- A track's object in the response.
unfoldable described : String → String → Json
described namespace description =
    object (field "description" (string description) (field "namespace" (string namespace) end))

unfoldable control_of : String → Json
control_of id = object (
    field "client_to_server" (string (path id "/control/client-to-server"))
      (field "server_to_client" (string (path id "/control/server-to-client")) end))

unfoldable data_of : String → Json
unfolding described
data_of id = object (
    field "notifications" (described (path id "/notifications") "Track for notification messages") (
      field "resources" (described (path id "/resources") "Track for resource data transfer")
        (field "tools" (described (path id "/tools") "Track for tool invocation and results") end)))

unfoldable server_info : Json
server_info = object (
    field "name" (string "mcp-moqt-transport")
      (field "protocol_version" (string "2025-06-18") (field "version" (string "1.5.0") end)))

-- The response's map. A map's keys come in the order in which `json.Marshal` writes them, sorted.
unfoldable pub response_of : String → Json
unfolding control_of data_of server_info
response_of id =
    let tracks = object (field "control" (control_of id) (field "data" (data_of id) end)) in
    let result = object (
      field "available_tracks" tracks
        (field "server_info" server_info (field "session_id" (string id) end))) in
    object (field "id" (number 1) (field "jsonrpc" (string "2.0") (field "result" result end)))

-- A request; only its method's being a fetch matters.
pub record Fetch : Type 0 where
  pub is_fetch : Bool
  pub namespace : List String
  pub track : String

-- What the response writer gives: whether it publishes fetches, its `Accept` and its `FetchStream`.
pub record Writer : Type 0 where
  pub is_publisher : Bool
  pub accept : Option Error
  pub stream : Option Error

unfoldable pub is_discovery : List String → Bool
is_discovery (a ∷ b ∷ []) = str_eq a "mcp" && str_eq b "discovery"
is_discovery _ = false

module _ (marshal : Json → Result Bytes) (session_id : String) (w : Writer) where
  -- The answer, and the object that was written.
  unfoldable pub handle_discovery_fetch : Answer × Option Bytes
  unfolding response_of
  handle_discovery_fetch =
      if not w.is_publisher
      then (rejected "0" "internal error: not a fetch publisher", none)
      else elim w.accept [
        | some e ↦ (accept_failed, none)
        | none ↦ elim (marshal (response_of session_id)) [
          | err e ↦ (accepted, none)
          | ok bytes ↦ elim w.stream [ some e ↦ (accepted, none) | none ↦ (accepted, some bytes) ]
        ]
      ]

  unfoldable pub handle : Fetch → Answer × Option Bytes
  unfolding handle_discovery_fetch is_discovery
  handle f =
      if not f.is_fetch
      then (rejected "0" "unsupported", none)
      else if is_discovery f.namespace && str_eq f.track "sessions"
      then handle_discovery_fetch
      else (rejected "0" "unknown fetch track", none)

-- `Fetch` of `discoverSessionID`.
abbrev pub sessions_fetch : Fetch
sessions_fetch = record {
  is_fetch = true;
  namespace = "mcp" ∷ "discovery" ∷ [];
  track = "sessions";
}

-- The object that the client reads, or an error if none was written.
abbrev pub received : Option Bytes → Result Bytes
received none = err (text "no object")
received (some bytes) = ok bytes

-- The names that the two sides use, all in lower-case letters.
abbrev pub names : List String
names = "id" ∷ "jsonrpc" ∷ "result" ∷ "available_tracks" ∷ "server_info" ∷ "session_id" ∷ []

-- Of these names a key stands for a tag only if it is the tag.
abbrev pub IsExact : (String → String → Bool) → Type 0
IsExact matches = All (λ key. All (λ tag. matches key tag ≡ str_eq key tag) names) names

-- The decoder finds the server's id under its keys.
session_id_in-response_of :
    (matches : String → String → Bool) (mismatch : Error) (id : String)
    → IsExact matches
    → session_id_in matches mismatch (response_of id) ≡ ok id
unfolding session_id_in response_of read_struct read_fields read_string
session_id_in-response_of matches mismatch id (i, (j, (r, (a, (v, (s, t)))))) =
    ground (arith, i.1.1.0, j.1.1.0, r.1.1.0, a.1.1.1.1.1.0, v.1.1.1.1.1.0, s.1.1.1.1.1.0)

-- A client discovers the id of its session: what the server's handler writes on the fetch that the
-- client makes is read back, under the keys that the client looks for, as the server's id. This is so
-- if that id is not empty, the response can be encoded and is decoded to the same JSON value, the
-- decoder does not take one of the names in it for another, and accepting and opening the stream
-- succeed.
pub discover_session_id-handle :
    (marshal : Json → Result Bytes) (id : String) (bytes : Bytes) (w : Writer) (s : Setup)
    → ((b : Bytes) → marshal (response_of id) ≡ ok b → s.parse b ≡ ok (response_of id))
    → IsExact s.matches
    → marshal (response_of id) ≡ ok bytes
    → id ≢ ""
    → w.is_publisher ≡ true
    → w.accept ≡ none
    → w.stream ≡ none
    → s.fetch ≡ none
    → let (answer, written) = handle marshal id w sessions_fetch in
      (answer ≡ accepted) × (discover_session_id (record s { object = received written }) ≡ ok id)
unfolding handle discover_session_id
discover_session_id-handle marshal id bytes w s codec exact m n p a o f =
    let writes : handle marshal id w sessions_fetch ≡ (accepted, some bytes) =
      ground (arith, m, p, a, o) in
    let parsed : s.parse bytes ≡ ok (response_of id) = codec bytes m in
    let read : session_id_in s.matches s.mismatch (response_of id) ≡ ok id =
      session_id_in-response_of s.matches s.mismatch id exact in
    let given : str_eq id "" ≡ false = ground (arith, eq_iff id "", n) in
    let reads : discover_session_id (record s { object = ok bytes }) ≡ ok id =
      simp (f, parsed, read, given) refl in
    (
      ap (λ q. q.0) writes,
      ap (λ q. discover_session_id (record s { object = received q.1 })) writes ∙ reads,
    )
