-- ===== src/Examples/Configs.antt =====
-- Runs of the configuration, its watcher and the client's TLS setup.
use mcp_moqt_transport.Base.{
  ℕ, ◌≡◌, ◌≢◌, ◌↔◌, refl, true, false, Option, none, some, [], ◌∷◌, String, is_some,
}
use mcp_moqt_transport.Errors.{Result, foreign, ok, err}
use mcp_moqt_transport.Config.{Config, Format, Os, default_config}
use mcp_moqt_transport.Config.Watch.{Watcher}
use mcp_moqt_transport.Options.{Tls, TransportConfig, client, defaults}
use mcp_moqt_transport.Options.Resolve.{
  resolve_client_tls, load_client_tls, resolve_client_tls-verifies, tls_1_2,
}

abbrev named : Config
named = record default_config { addr = "h:1" }

abbrev decode : Format → ℕ → Config → Result Config
decode f bytes c = ok named

abbrev blank : Os ℕ
blank = record { read = λ p. err (foreign 1); stat = λ p. none; mod_time = λ p. ok 5 }

abbrev filled : Os ℕ
filled = record blank { read = λ p. ok 7 }

abbrev watcher : Watcher
watcher = record {
  path = "c.json";
  interval = 1000000000;
  has_on_error = false;
  current = named;
  mod_time = 5;
  stopped = false;
  delivered = named ∷ [];
  reported = [];
}

-- The file cannot be read at first, and is newer then.
abbrev newer : Os ℕ
newer = record filled { mod_time = λ p. ok 8 }

abbrev read_pem : String → Result ℕ
read_pem name = ok 4

abbrev append_pem : ℕ → Option ℕ
append_pem pem = some 2

-- What a client with a CA file gets, although it asked to skip the verification.
abbrev verifying : Tls
verifying = record {
  certificate = none;
  root_cas = some 2;
  insecure_skip_verify = false;
  next_protos = "moq-00" ∷ [];
  min_version = 771;
}

abbrev with_ca : TransportConfig
with_ca = record (defaults client) { tls_ca_file = "ca.pem"; tls_insecure_skip_verify = true }

resolved :
    resolve_client_tls read_pem append_pem with_ca
    ≡ ok (record with_ca { tls_client = some verifying }, verifying)
unfolding resolve_client_tls load_client_tls defaults
resolved = refl

resolve_client_tls-verifies_example :
    ((verifying.insecure_skip_verify ≡ true) ↔ (with_ca.tls_ca_file ≡ ""))
    × ((is_some verifying.root_cas ≡ true) ↔ (with_ca.tls_ca_file ≢ ""))
    × (verifying.min_version ≡ tls_1_2)
    × (some verifying ≡ some verifying)
resolve_client_tls-verifies_example =
    resolve_client_tls-verifies read_pem append_pem with_ca
      (record with_ca { tls_client = some verifying }) verifying (unfold defaults in refl) resolved
