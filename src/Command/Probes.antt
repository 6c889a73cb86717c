-- ===== src/Command/Probes.antt =====
-- cmd/mcp-moqt/doctor_checks.go, the smoke test of main.go, and the certificate check of
-- pkg/config/tls.go. A session of the SDK is a record of what its calls return; `load` is
-- `tls.LoadX509KeyPair` with the chain of the certificate, `parse` is `x509.ParseCertificate`.
use Prim.Native.Char.{code}
use Prim.Native.String.{◌++◌ as joined}
use mcp_moqt_transport.Base.{
  ℕ, Bool, true, false, ◌&&◌, ◌||◌, Option, none, some, List, [], ◌∷◌, String, str_eq,
  if◌then◌else◌, ◌==◌, ltb,
}
use mcp_moqt_transport.Errors.{Error, Result, ok, err, text, wrap}
use mcp_moqt_transport.Options.{Opt, with_addr}
use mcp_moqt_transport.Service.Capabilities.{Capabilities, register_capabilities}

unfoldable pub has_prefix : String → String → Bool
has_prefix String.[] (String.◌∷◌ d p) = false
has_prefix s String.[] = true
has_prefix (String.◌∷◌ c s) (String.◌∷◌ d p) = code c == code d && has_prefix s p

-- `strings.TrimSuffix` of a slash.
unfoldable pub trim_slash : String → String
trim_slash String.[] = String.[]
trim_slash (String.◌∷◌ c s) =
    let rest = trim_slash s in if str_eq (String.◌∷◌ c s) "/" then String.[] else String.◌∷◌ c rest

unfoldable pub health_url : String → String
unfolding has_prefix trim_slash
health_url addr =
    if has_prefix addr "http://"
    then joined (trim_slash addr) "/healthz"
    else joined (joined "http://" addr) "/healthz"

-- `get` is the request: its status, or the error.
unfoldable pub probe_metrics_endpoint : (String → Result ℕ) → String → Option Error
unfolding health_url
probe_metrics_endpoint get addr = if str_eq addr "" then none else elim (get (health_url addr)) [
  | err e ↦ some e
  | ok status ↦ if status == 200 then none else some (text "healthz status")
]

pub record Leaf : Type 0 where
  pub not_before : ℕ
  pub not_after : ℕ

abbrev pub check_leaf : ℕ → Result Leaf → Option Error
check_leaf now (err e) = some (wrap "parse leaf certificate" e)
check_leaf now (ok leaf) =
    if ltb now leaf.not_before
    then some (text "certificate not yet valid")
    else if ltb leaf.not_after now
    then some (text "certificate expired")
    else none

module _ {C : Type 0} (load : String → String → Result (List C)) (parse : C → Result Leaf)
    (now : ℕ) where
  abbrev pub check_chain : Result (List C) → Option Error
  check_chain (err e) = some e
  check_chain (ok []) = some (text "certificate chain is empty")
  check_chain (ok (c ∷ rest)) = check_leaf now (parse c)

  unfoldable pub validate_cert_pair : String → String → Option Error
  validate_cert_pair cert key =
      if str_eq cert "" || str_eq key ""
      then some (text "cert_file and key_file must both be set")
      else check_chain (load cert key)

  unfoldable pub check_tls_cert_pair : String → String → Option Error
  unfolding validate_cert_pair
  check_tls_cert_pair cert key =
      if str_eq cert "" && str_eq key "" then none else validate_cert_pair cert key

-- `split` is `net.SplitHostPort`, `listen` the error of `net.ListenPacket` at the joined address.
unfoldable pub check_udp_port_bind :
    (String → Result (String × String)) → (String → String → Option Error) → String → Option Error
check_udp_port_bind split listen addr = if str_eq addr "" then none else elim (split addr) [
  | err e ↦ some e
  | ok (host, port) ↦ elim (listen (if str_eq host "" then "127.0.0.1" else host) port) [
    | some e ↦ some (wrap "udp bind" e)
    | none ↦ none
  ]
]

pub record ClientSession : Type 0 where
  pub ping : Option Error
  pub list_tools : Result (List String)
  pub list_prompts : Result (List String)
  pub list_resources : Result (List String)
  pub call_tool : String → Option Error
  pub read_resource : String → Option Error

-- `new` is `NewMoqTransport` for a client, `connect` the connection of an SDK client over it.
unfoldable pub probe_quic_server :
    {T : Type 0}
    → (List (Option Opt) → Result T)
    → (T → Result ClientSession)
    → String
    → Option Error
unfolding with_addr
probe_quic_server new connect addr =
    if str_eq addr "" then none else elim (new (some (with_addr addr) ∷ [])) [
      | err e ↦ some e
      | ok t ↦ elim (connect t) [ err e ↦ some e | ok s ↦ s.ping ]
    ]

-- The listing failed, or lists nothing.
abbrev pub lists_none : Result (List String) → Bool
lists_none (err e) = true
lists_none (ok []) = true
lists_none (ok (x ∷ xs)) = false

abbrev pub smoke_session : ClientSession → Option Error
smoke_session s =
    if lists_none s.list_tools
    then some (text "list tools")
    else if lists_none s.list_prompts
    then some (text "list prompts failed")
    else if lists_none s.list_resources
    then some (text "list resources failed")
    else elim (s.call_tool "health_check") [
      | some e ↦ some (wrap "health_check" e)
      | none ↦ elim (s.read_resource "moqt://docs/overview") [
        | some e ↦ some (wrap "read resource" e)
        | none ↦ none
      ]
    ]

-- `serve` connects a server with the capabilities to one end of the in-memory transport, and `connect`
-- a client to the other.
unfoldable pub smoke_capabilities :
    (Capabilities → Option Error) → (Capabilities → Result ClientSession) → Option Error
unfolding register_capabilities
smoke_capabilities serve connect = elim (serve register_capabilities) [
  | some e ↦ some (wrap "server connect" e)
  | none ↦ elim (connect register_capabilities) [
    | err e ↦ some (wrap "client connect" e)
    | ok s ↦ smoke_session s
  ]
]
