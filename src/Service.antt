-- ===== src/Service.antt =====
-- pkg/mcpservice/capabilities.go: the tools. A Go `int` is its bit pattern, and `quotient` the division
-- of two of them as floats. Their titles and descriptions, and the errors' texts, are prose; an error
-- keeps which it is.
pub mod Estimates
pub mod Capabilities
use mcp_moqt_transport.Base.{
  ℕ, Bool, true, false, Option, none, some, List, [], ◌∷◌, String, str_eq, if◌then◌else◌, length,
}
use mcp_moqt_transport.Base.Word.{add_64, lt_64}
use mcp_moqt_transport.Errors.{Error, Result, ok, err, text}
use mcp_moqt_transport.Config.{Config, Format, Os, load_from_file, validate, has_server_cert}

pub record RttOutput (F : Type 0) : Type 0 where
  pub count : ℕ
  pub min_ms : ℕ
  pub max_ms : ℕ
  pub avg_ms : F

-- The variables of the loop.
pub record Rtt : Type 0 where
  pub min_v : ℕ
  pub max_v : ℕ
  pub sum : ℕ

abbrev pub note : ℕ → Rtt → Rtt
note v r = record {
  min_v = if lt_64 v r.min_v then v else r.min_v;
  max_v = if lt_64 r.max_v v then v else r.max_v;
  sum = add_64 r.sum v;
}

-- The loop ends early at a negative sample.
unfoldable pub scan : List ℕ → Rtt → Result Rtt
scan [] r = ok r
scan (v ∷ vs) r =
    let rest = scan vs (note v r) in if lt_64 v 0 then err (text "negative sample") else rest

abbrev pub summary : {F : Type 0} → (ℕ → ℕ → F) → ℕ → Result Rtt → Result (RttOutput F)
summary quotient n (err e) = err e
summary quotient n (ok r) =
    ok (record { count = n; min_ms = r.min_v; max_ms = r.max_v; avg_ms = quotient r.sum n })

unfoldable pub estimate_rtt : {F : Type 0} → (ℕ → ℕ → F) → List ℕ → Result (RttOutput F)
unfolding scan
estimate_rtt quotient [] = err (text "no samples")
estimate_rtt quotient (v ∷ vs) =
    summary quotient (length (v ∷ vs)) (scan (v ∷ vs) (record { min_v = v; max_v = v; sum = 0 }))

pub record ValidateConfigOutput : Type 0 where
  pub valid : Bool
  pub addr : String
  pub alpn : String
  pub has_tls : Bool

abbrev pub first : List String → String
first [] = ""
first (x ∷ xs) = x

unfoldable pub validate_config :
    {D : Type 0}
    → (Format → D → Config → Result Config)
    → Os D
    → String
    → Result ValidateConfigOutput
unfolding load_from_file validate has_server_cert
validate_config decode os path =
    if str_eq path "" then err (text "no path") else elim (load_from_file decode os path) [
      | err e ↦ err e
      | ok cfg ↦ elim (validate os.stat cfg) [
        | some e ↦ err e
        | none ↦ ok (record {
          valid = true;
          addr = cfg.addr;
          alpn = first cfg.alpn;
          has_tls = has_server_cert cfg.tls;
        })
      ]
    ]

pub record TrackInfo : Type 0 where
  pub name : String
  pub namespace : String

-- `namespace` joins a track's namespace with slashes.
unfoldable pub list_data_tracks : List TrackInfo
list_data_tracks =
    record { name = "resources"; namespace = "mcp/data/resources" }
    ∷ record { name = "tools"; namespace = "mcp/data/tools" }
    ∷ record { name = "notifications"; namespace = "mcp/data/notifications" }
    ∷ []

-- pkg/version.
abbrev pub service_name : String
service_name = "mcp-moqt-transport"

abbrev pub service_version : String
service_version = "1.5.0"

pub record TransportInfo : Type 0 where
  pub name : String
  pub version : String
  pub alpn : String
  pub draft : String
  pub features : List String
  pub data_tracks : List String

unfoldable pub get_transport_info : Bool → TransportInfo
get_transport_info include_tracks = record {
  name = service_name;
  version = service_version;
  alpn = "moq-00";
  draft = "moqtransport draft-11 / draft-jennings-mcp-over-moqt-00";
  features =
      "quic-multiplex" ∷ "0-rtt" ∷ "ack-nack" ∷ "heartbeat" ∷ "retry" ∷ "connection-pool"
      ∷ "data-tracks" ∷ [];
  data_tracks = if include_tracks then "resources" ∷ "tools" ∷ "notifications" ∷ [] else [];
}
