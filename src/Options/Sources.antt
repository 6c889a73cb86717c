-- ===== src/Options/Sources.antt =====
-- Where a transport's configuration comes from.
use mcp_moqt_transport.Base.{◌≡◌, refl, false, Option, none, some, [], ◌∷◌, String, str_eq, arith}
use mcp_moqt_transport.Errors.{Error, ok}
use mcp_moqt_transport.Config.{Config, load_from_env, validate}
use mcp_moqt_transport.Config.Files.{Present, validate-load_from_env, load_from_env-addr}
use mcp_moqt_transport.Options.{
  Role, TransportConfig, only_datagrams, configured, with_config, with_config_from_env, defaults,
  apply_each, apply_options,
}

apply_options-with_config :
    (role : Role) (stat : String → Option Error) (cfg : Config)
    → validate stat cfg ≡ none
    → str_eq cfg.addr "" ≡ false
    → apply_options role (some (with_config stat cfg) ∷ []) ≡ ok (configured cfg (defaults role))
unfolding apply_options apply_each with_config
apply_options-with_config role stat cfg valid addr = ground (arith, valid, addr)

-- A configuration from the environment is accepted if the TLS files that the environment names are
-- there. The address, the ALPN protocols and the TLS files are the environment's; the QUIC
-- configuration has no idle timeout and no keep-alive of the defaults left, only the datagrams.
apply_options-with_config_from_env :
    (role : Role) (stat : String → Option Error) (env : String → String)
    → Present stat (env "MCP_MOQT_TLS_CERT")
    → Present stat (env "MCP_MOQT_TLS_KEY")
    → Present stat (env "MCP_MOQT_TLS_CA")
    → let cfg = load_from_env env in
      (c : TransportConfig) × (apply_options role (some (with_config_from_env stat env) ∷ [])
        ≡ ok c)
      × (c.role ≡ role)
      × (c.addr ≡ cfg.addr)
      × (c.alpn ≡ cfg.alpn)
      × (c.tls_ca_file ≡ cfg.tls.ca_file)
      × (c.quic_config ≡ some (only_datagrams cfg.enable_datagrams))
unfolding with_config_from_env defaults
apply_options-with_config_from_env role stat env cert key ca =
    let cfg = load_from_env env in
    let valid = validate-load_from_env stat env cert key ca in
    (
      configured cfg (defaults role),
      apply_options-with_config role stat cfg valid (load_from_env-addr env),
      refl,
      refl,
      refl,
      refl,
      refl,
    )
