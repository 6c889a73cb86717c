-- ===== src/Command/Serve/Composed.antt =====
-- The flags of the server command against the configuration that its transport gets.
use mathlib.Core.Path.{subst}
use mcp_moqt_transport.Base.{
  ◌≡◌, refl, sym, false, Option, none, some, List, [], ◌∷◌, String, str_eq, eq_iff, if◌then◌else◌,
  Bool-cases, inl, inr, arith,
}
use mcp_moqt_transport.Errors.{Error, Result, ok, err, text, wrap}
use mcp_moqt_transport.Config.{Config, Format, Os, load_from_file, validate}
use mcp_moqt_transport.Options.{
  Opt, server, TransportConfig, configured, defaults, apply_options, apply_each, with_config,
  with_addr, with_metrics_addr,
}
use mcp_moqt_transport.Command.Serve.{
  ServerFlags, metrics_option, file_options, checked_options, server_options,
}

abbrev pub applied : Result (List (Option Opt)) → Result TransportConfig
applied (err e) = err e
applied (ok opts) = apply_options server opts

abbrev pub nonempty : String → TransportConfig → Result TransportConfig
nonempty addr c = if str_eq addr "" then err (text "addr must not be empty") else ok c

-- The transport's configuration for a config: each of its fields in its place, datagrams as the config
-- says, and nothing else.
abbrev pub of_config : Config → TransportConfig
of_config cfg = record {
  role = server;
  addr = cfg.addr;
  tls_server = none;
  tls_client = none;
  quic_config = some (record {
    handshake_idle_timeout = 0;
    max_idle_timeout = 0;
    keep_alive_period = 0;
    max_incoming_streams = 0;
    max_incoming_uni_streams = 0;
    enable_datagrams = cfg.enable_datagrams;
    initial_stream_receive_window = 0;
    initial_connection_receive_window = 0;
    max_stream_receive_window = 0;
    max_connection_receive_window = 0;
    allow_0rtt = false;
  });
  alpn = cfg.alpn;
  metrics_addr = cfg.metrics_addr;
  tls_cert_file = cfg.tls.cert_file;
  tls_key_file = cfg.tls.key_file;
  tls_ca_file = cfg.tls.ca_file;
  tls_insecure_skip_verify = cfg.tls.insecure_skip_verify;
}

-- The transport's configuration, by the flags: a file decides everything, else the address and the
-- metrics address are the flags'.
module _ {D : Type 0} (decode : Format → D → Config → Result Config) (os : Os D) where
  abbrev pub from_checked : Config → Option Error → Result TransportConfig
  from_checked cfg (some e) = err (wrap "invalid config" e)
  from_checked cfg none = ok (of_config cfg)

  abbrev pub from_file : Result Config → Result TransportConfig
  from_file (err e) = err (wrap "load config" e)
  from_file (ok cfg) = from_checked cfg (validate os.stat cfg)

  abbrev pub from_flags : ServerFlags → Result TransportConfig
  from_flags flags =
      nonempty flags.addr
        (record (defaults server) { addr = flags.addr; metrics_addr = flags.metrics })

  applied_flags :
      (flags : ServerFlags)
      → applied (ok (some (with_addr flags.addr) ∷ metrics_option flags.metrics)) ≡ from_flags flags
  unfolding apply_options apply_each with_addr with_metrics_addr defaults
  applied_flags flags = elim (Bool-cases (str_eq flags.metrics "")) [
    | inl m ↦
        subst
          (λ x.
            applied (ok (some (with_addr flags.addr) ∷ metrics_option x))
            ≡ nonempty flags.addr
                (record (defaults server) { addr = flags.addr; metrics_addr = x }))
          (sym ((eq_iff flags.metrics "").0 m)) refl
    | inr m ↦ simp m refl
  ]

  with_config_valid :
      (cfg : Config) (c : TransportConfig)
      → validate os.stat cfg ≡ none
      → with_config os.stat cfg c ≡ ok (configured cfg c)
  unfolding with_config
  with_config_valid cfg c v = rw (v, with_config) refl

  named : (cfg : Config) → validate os.stat cfg ≡ none → str_eq cfg.addr "" ≡ false
  unfolding validate
  named cfg v = elim (Bool-cases (str_eq cfg.addr "")) [ inl e ↦ ground (arith, v) | inr e ↦ e ]

  applied_file :
      (cfg : Config)
      → validate os.stat cfg ≡ none
      → applied (ok (some (with_config os.stat cfg) ∷ [])) ≡ ok (of_config cfg)
  unfolding apply_options apply_each defaults
  applied_file cfg v =
      rw (with_config_valid cfg (defaults server) v, apply_options, apply_each)
        (simp (named cfg v) refl)

  checked_applied :
      (cfg : Config) (o : Option Error)
      → validate os.stat cfg ≡ o
      → applied (checked_options decode os cfg o) ≡ from_checked cfg o
  checked_applied cfg (some e) v = refl
  checked_applied cfg none v = applied_file cfg v

  file_applied : (r : Result Config) → applied (file_options decode os r) ≡ from_file r
  file_applied (err e) = refl
  file_applied (ok cfg) = checked_applied cfg (validate os.stat cfg) refl

  -- Whatever the flags and the file system: when `-config` names a file, the options that the server
  -- command composes give, field by field, what `load_from_file` read and `validate` accepted, and
  -- nothing of the flags, or the error of the one or the other; when it names none they give the defaults
  -- with the two addresses of the flags, and an error if the address is empty.
  pub server_options-applied :
      (flags : ServerFlags)
      → applied (server_options decode os flags) ≡ (
          if str_eq flags.config ""
          then from_flags flags
          else from_file (load_from_file decode os flags.config))
  unfolding server_options
  server_options-applied flags = elim (Bool-cases (str_eq flags.config "")) [
    | inl e ↦ simp e (applied_flags flags)
    | inr e ↦ simp e (file_applied (load_from_file decode os flags.config))
  ]
