-- ===== src/Config.antt =====
-- pkg/config/config.go and the configuration part of pkg/config/tls.go. Environment variables are a
-- function, a file system at one moment is an `Os`; what yaml and json make of a file is a parameter.
pub mod Files
pub mod Watch
use Prim.Native.Char.{Char, code}
use mcp_moqt_transport.Base.{
  ℕ, ◌≡◌, Bool, true, false, not, ◌&&◌, ◌||◌, Option, none, some, List, [], ◌∷◌, String, str_eq,
  if◌then◌else◌, ◌==◌,
}
use mcp_moqt_transport.Errors.{Error, Result, ok, err, text, wrap}

pub record TlsConfig : Type 0 where
  pub cert_file : String
  pub key_file : String
  pub ca_file : String
  pub insecure_skip_verify : Bool

pub record Config : Type 0 where
  pub addr : String
  pub alpn : List String
  pub enable_datagrams : Bool
  pub metrics_addr : String
  pub tls : TlsConfig

unfoldable pub default_config : Config
default_config = record {
  addr = "localhost:0";
  alpn = "moq-00" ∷ [];
  enable_datagrams = true;
  metrics_addr = "";
  tls = record { cert_file = ""; key_file = ""; ca_file = ""; insecure_skip_verify = false };
}

unfoldable pub has_server_cert : TlsConfig → Bool
has_server_cert t = not (str_eq t.cert_file "") && not (str_eq t.key_file "")

-- One more character at the front of the first part.
abbrev pub extend : Char → List String → List String
extend c [] = String.◌∷◌ c String.[] ∷ []
extend c (part ∷ parts) = String.◌∷◌ c part ∷ parts

-- `strings.Split` at a separator of one character, by its code.
unfoldable pub split : ℕ → String → List String
split sep String.[] = String.[] ∷ []
split sep (String.◌∷◌ c s) =
    let rest = split sep s in if code c == sep then String.[] ∷ rest else extend c rest

-- `strings.HasSuffix`.
unfoldable pub has_suffix : String → String → Bool
has_suffix String.[] suffix = str_eq String.[] suffix
has_suffix (String.◌∷◌ c s) suffix = str_eq (String.◌∷◌ c s) suffix || has_suffix s suffix

-- A variable that is set and not empty replaces the field.
abbrev pub or_default : String → String → String
or_default value old = if str_eq value "" then old else value

unfoldable pub load_from_env : (String → String) → Config
unfolding default_config split
load_from_env env = record d {
  addr = or_default (env "MCP_MOQT_ADDR") d.addr;
  alpn = if str_eq (env "MCP_MOQT_ALPN") "" then d.alpn else split 44 (env "MCP_MOQT_ALPN");
  enable_datagrams =
      if str_eq (env "MCP_MOQT_ENABLE_DATAGRAMS") ""
      then d.enable_datagrams
      else str_eq (env "MCP_MOQT_ENABLE_DATAGRAMS") "true";
  metrics_addr = or_default (env "MCP_MOQT_METRICS_ADDR") d.metrics_addr;
  tls = record {
    cert_file = or_default (env "MCP_MOQT_TLS_CERT") d.tls.cert_file;
    key_file = or_default (env "MCP_MOQT_TLS_KEY") d.tls.key_file;
    ca_file = or_default (env "MCP_MOQT_TLS_CA") d.tls.ca_file;
    insecure_skip_verify =
        if str_eq (env "MCP_MOQT_TLS_INSECURE_SKIP_VERIFY") "true"
        then true
        else d.tls.insecure_skip_verify;
  };
}
  where
    d : Config
    d = default_config

abbrev pub no_alpn : List String → Bool
no_alpn [] = true
no_alpn (a ∷ rest) = false

-- The checks of the TLS files: `stat` is the error of `os.Stat`.
unfoldable pub validate_cert : (String → Option Error) → TlsConfig → Option Error
unfolding has_server_cert
validate_cert stat t =
    if has_server_cert t
    then elim (stat t.cert_file) [
      | some e ↦ some (wrap "tls cert_file" e)
      | none ↦ elim (stat t.key_file) [ some e ↦ some (wrap "tls key_file" e) | none ↦ none ]
    ]
    else none

unfoldable pub validate_ca : (String → Option Error) → TlsConfig → Option Error
validate_ca stat t =
    if str_eq t.ca_file ""
    then none
    else elim (stat t.ca_file) [ some e ↦ some (wrap "tls ca_file" e) | none ↦ none ]

unfoldable pub validate : (String → Option Error) → Config → Option Error
unfolding validate_cert validate_ca
validate stat c =
    if str_eq c.addr ""
    then some (text "addr must not be empty")
    else if no_alpn c.alpn
    then some (text "alpn must not be empty")
    else elim (validate_cert stat c.tls) [ some e ↦ some e | none ↦ validate_ca stat c.tls ]

pub data Format : Type 0 where
  yaml json : Format

-- A suffix that is none of the three is read and written as YAML.
unfoldable pub format_of : String → Format
unfolding has_suffix
format_of path =
    if has_suffix path ".yaml" || has_suffix path ".yml"
    then yaml
    else if has_suffix path ".json"
    then json
    else yaml

-- The file system at one moment: `os.ReadFile`, the error of `os.Stat`, and the modification time.
pub record Os (D : Type 0) : Type 0 where
  pub read : String → Result D
  pub stat : String → Option Error
  pub mod_time : String → Result ℕ

-- The message of a failed parse depends on the suffix: YAML, JSON or neither.
unfoldable pub parse_error : String → String
unfolding has_suffix
parse_error path =
    if has_suffix path ".yaml" || has_suffix path ".yml"
    then "failed to parse YAML config"
    else if has_suffix path ".json"
    then "failed to parse JSON config"
    else "failed to parse config"

-- `decode` is `yaml.Unmarshal` and `json.Unmarshal` onto a config that has its defaults.
unfoldable pub load_from_file :
    {D : Type 0} → (Format → D → Config → Result Config) → Os D → String → Result Config
unfolding format_of parse_error
load_from_file decode os path = elim (os.read path) [
  | err e ↦ err (wrap "failed to read config file" e)
  | ok bytes ↦ elim (decode (format_of path) bytes default_config) [
    | err e ↦ err (wrap (parse_error path) e)
    | ok c ↦ ok c
  ]
]

unfoldable pub marshal_error : String → String
unfolding has_suffix
marshal_error path =
    if has_suffix path ".yaml" || has_suffix path ".yml"
    then "failed to marshal YAML"
    else if has_suffix path ".json"
    then "failed to marshal JSON"
    else "failed to marshal"

-- `write` is `os.WriteFile`; the result is its file system, if it was called, and the error.
unfoldable pub save_to_file :
    {D : Type 0}
    → (Format → Config → Result D)
    → (String → D → Os D → Os D × Option Error)
    → Os D
    → String
    → Config
    → Os D × Option Error
unfolding format_of marshal_error
save_to_file encode write os path c = elim (encode (format_of path) c) [
  | err e ↦ (os, some (wrap (marshal_error path) e))
  | ok bytes ↦
      let (os', r) = write path bytes os in
      (os', elim r [ none ↦ none | some e ↦ some (wrap "failed to write config file" e) ])
]
