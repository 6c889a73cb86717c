-- ===== src/Command/Serve.antt =====
-- cmd/mcp-moqt/main.go, `runServer` and `runClient`: what they make of their flags. `load_from_file`
-- and `validate` see one file system; `new` and `raw` are the two constructors of a server's transport.
pub mod Composed
use mcp_moqt_transport.Base.{
  ℕ, Bool, true, false, Option, none, some, List, [], ◌∷◌, ◌++◌, String, str_eq, if◌then◌else◌,
}
use mcp_moqt_transport.Errors.{Error, Result, ok, err, wrap}
use mcp_moqt_transport.Config.{Config, Format, Os, load_from_file, validate}
use mcp_moqt_transport.Options.{Opt, with_config, with_addr, with_metrics_addr}
use mcp_moqt_transport.Command.Probes.{ClientSession}

pub record ServerFlags : Type 0 where
  pub addr : String
  pub config : String
  pub stdio : Bool
  pub metrics : String
  pub multi : Bool

abbrev pub default_flags : ServerFlags
default_flags = record {
  addr = "127.0.0.1:8080";
  config = "";
  stdio = false;
  metrics = "";
  multi = false;
}

abbrev pub metrics_option : String → List (Option Opt)
metrics_option metrics = if str_eq metrics "" then [] else some (with_metrics_addr metrics) ∷ []

module _ {D : Type 0} (decode : Format → D → Config → Result Config) (os : Os D) where
  abbrev pub checked_options : Config → Option Error → Result (List (Option Opt))
  checked_options cfg (some e) = err (wrap "invalid config" e)
  checked_options cfg none = ok (some (with_config os.stat cfg) ∷ [])

  abbrev pub file_options : Result Config → Result (List (Option Opt))
  file_options (err e) = err (wrap "load config" e)
  file_options (ok cfg) = checked_options cfg (validate os.stat cfg)

  unfoldable pub server_options : ServerFlags → Result (List (Option Opt))
  unfolding load_from_file validate with_config with_addr with_metrics_addr
  server_options flags =
      if str_eq flags.config ""
      then ok (some (with_addr flags.addr) ∷ metrics_option flags.metrics)
      else file_options (load_from_file decode os flags.config)

  -- `run` and `serve` are what the SDK's server and the transport's loop return; the error ends the
  -- process with status 1.
  unfoldable pub run_server :
      {T : Type 0}
      → (List (Option Opt) → Result T)
      → (List (Option Opt) → Result T)
      → (Option T → Option Error)
      → (T → Option Error)
      → ServerFlags
      → Option Error
  unfolding server_options
  run_server new raw run serve flags = elim (server_options flags) [
    | err e ↦ some e
    | ok opts ↦
        if flags.stdio
        then elim (run none) [ some e ↦ some (wrap "server run" e) | none ↦ none ]
        else if flags.multi
        then elim (raw opts) [
          | err e ↦ some (wrap "new transport" e)
          | ok t ↦ elim (serve t) [ some e ↦ some (wrap "serve" e) | none ↦ none ]
        ]
        else elim (new opts) [
          | err e ↦ some (wrap "new transport" e)
          | ok t ↦ elim (run (some t)) [ some e ↦ some (wrap "server run" e) | none ↦ none ]
        ]
  ]

-- `print_capabilities` prints the lists that the session gives.
abbrev pub listed : Result (List String) → List (List String)
listed (err e) = []
listed (ok names) = names ∷ []

unfoldable pub print_capabilities : ClientSession → List (List String)
print_capabilities s = listed s.list_tools ++ listed s.list_prompts ++ listed s.list_resources

unfoldable pub run_client :
    {T : Type 0}
    → (List (Option Opt) → Result T)
    → (T → Result ClientSession)
    → String
    → Result (List (List String))
unfolding with_addr print_capabilities
run_client new connect addr = elim (new (some (with_addr addr) ∷ [])) [
  | err e ↦ err (wrap "new transport" e)
  | ok t ↦ elim (connect t) [
    | err e ↦ err (wrap "connect" e)
    | ok s ↦ elim s.ping [ some e ↦ err (wrap "ping" e) | none ↦ ok (print_capabilities s) ]
  ]
]
