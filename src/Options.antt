-- ===== src/Options.antt =====
-- pkg/moqttransport/options.go. An option is a function on the configuration, `none` for a nil one;
-- `stat` is the error of `os.Stat`. A `*tls.Config` is a record of the fields that the code sets.
pub mod Resolve
pub mod SelfSigned
pub mod Sources
use mcp_moqt_transport.Base.{
  ℕ, Bool, true, false, Option, none, some, List, [], ◌∷◌, String, str_eq, if◌then◌else◌,
}
use mcp_moqt_transport.Errors.{Error, Result, ok, err, text}
use mcp_moqt_transport.Quic.{QuicConfig}
use mcp_moqt_transport.Config.{Config, load_from_env, validate, no_alpn}

pub data Role : Type 0 where
  server client : Role

-- A certificate pair and a certificate pool are pointers, numbers.
pub record Tls : Type 0 where
  pub certificate : Option ℕ
  pub root_cas : Option ℕ
  pub insecure_skip_verify : Bool
  pub next_protos : List String
  pub min_version : ℕ

pub record TransportConfig : Type 0 where
  pub role : Role
  pub addr : String
  pub tls_server : Option Tls
  pub tls_client : Option Tls
  pub quic_config : Option QuicConfig
  pub alpn : List String
  pub metrics_addr : String
  pub tls_cert_file : String
  pub tls_key_file : String
  pub tls_ca_file : String
  pub tls_insecure_skip_verify : Bool

abbrev pub Opt : Type 0
Opt = TransportConfig → Result TransportConfig

abbrev pub default_alpn : List String
default_alpn = "moq-00" ∷ []

unfoldable pub with_addr : String → Opt
with_addr addr c = ok (record c { addr = addr })

unfoldable pub with_quic_config : Option QuicConfig → Opt
with_quic_config cfg c = ok (record c { quic_config = cfg })

unfoldable pub with_alpn : List String → Opt
with_alpn alpn c =
    if no_alpn alpn then err (text "alpn must not be empty") else ok (record c { alpn = alpn })

unfoldable pub with_tls_server_config : Option Tls → Opt
with_tls_server_config cfg c = ok (record c { tls_server = cfg })

unfoldable pub with_tls_client_config : Option Tls → Opt
with_tls_client_config cfg c = ok (record c { tls_client = cfg })

unfoldable pub with_metrics_addr : String → Opt
with_metrics_addr addr c = ok (record c { metrics_addr = addr })

unfoldable pub with_tls_cert_files : String → String → Opt
with_tls_cert_files cert key c = ok (record c { tls_cert_file = cert; tls_key_file = key })

unfoldable pub with_tls_ca_file : String → Opt
with_tls_ca_file ca c = ok (record c { tls_ca_file = ca })

unfoldable pub with_tls_insecure_skip_verify : Bool → Opt
with_tls_insecure_skip_verify skip c = ok (record c { tls_insecure_skip_verify = skip })

-- `&quic.Config{EnableDatagrams: enabled}`.
abbrev pub only_datagrams : Bool → QuicConfig
only_datagrams enabled = record {
  handshake_idle_timeout = 0;
  max_idle_timeout = 0;
  keep_alive_period = 0;
  max_incoming_streams = 0;
  max_incoming_uni_streams = 0;
  enable_datagrams = enabled;
  initial_stream_receive_window = 0;
  initial_connection_receive_window = 0;
  max_stream_receive_window = 0;
  max_connection_receive_window = 0;
  allow_0rtt = false;
}

abbrev pub configured : Config → TransportConfig → TransportConfig
configured cfg c = record c {
  addr = cfg.addr;
  alpn = cfg.alpn;
  quic_config = some (only_datagrams cfg.enable_datagrams);
  metrics_addr = cfg.metrics_addr;
  tls_cert_file = cfg.tls.cert_file;
  tls_key_file = cfg.tls.key_file;
  tls_ca_file = cfg.tls.ca_file;
  tls_insecure_skip_verify = cfg.tls.insecure_skip_verify;
}

unfoldable pub with_config : (String → Option Error) → Config → Opt
unfolding validate
with_config stat cfg c = elim (validate stat cfg) [ some e ↦ err e | none ↦ ok (configured cfg c) ]

unfoldable pub with_config_from_env : (String → Option Error) → (String → String) → Opt
unfolding with_config load_from_env
with_config_from_env stat env = with_config stat (load_from_env env)

-- Nanoseconds: 60 s, 30 s and 15 s.
unfoldable pub defaults : Role → TransportConfig
defaults role = record {
  role = role;
  addr = "localhost:0";
  tls_server = none;
  tls_client = none;
  quic_config = some (record (only_datagrams true) {
    max_idle_timeout = 60000000000;
    handshake_idle_timeout = 30000000000;
    keep_alive_period = 15000000000;
  });
  alpn = default_alpn;
  metrics_addr = "";
  tls_cert_file = "";
  tls_key_file = "";
  tls_ca_file = "";
  tls_insecure_skip_verify = false;
}

unfoldable pub apply_each : List (Option Opt) → TransportConfig → Result TransportConfig
apply_each [] c = ok c
apply_each (none ∷ rest) c = apply_each rest c
apply_each (some opt ∷ rest) c = elim (opt c) [ err e ↦ err e | ok c' ↦ apply_each rest c' ]

unfoldable pub apply_options : Role → List (Option Opt) → Result TransportConfig
unfolding apply_each defaults
apply_options role opts = elim (apply_each opts (defaults role)) [
  | err e ↦ err e
  | ok c ↦ if str_eq c.addr "" then err (text "addr must not be empty") else ok c
]
