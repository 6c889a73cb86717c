-- ===== src/Command.antt =====
-- cmd/mcp-moqt/main.go: which command the arguments name. A `[]string` of flags stays unread here:
-- package flag reads it.
pub mod Doctor
pub mod Probes
pub mod Serve
use mcp_moqt_transport.Service.{service_name, service_version}
use mcp_moqt_transport.Base.{ℕ, Bool, ◌||◌, List, [], ◌∷◌, String, str_eq, if◌then◌else◌}

-- What `main` does; a usage error prints the usage and exits with 2.
pub data Action : Type 0 where
  prints_usage usage_error : Action
  prints_version : String → String → Action
  runs_server runs_client runs_doctor : List String → Action

unfoldable pub main : List String → Action
main [] = usage_error
main (program ∷ []) = usage_error
main (program ∷ command ∷ args) =
    if str_eq command "version"
    then prints_version service_name service_version
    else if str_eq command "server"
    then runs_server args
    else if str_eq command "client"
    then runs_client args
    else if str_eq command "doctor"
    then runs_doctor args
    else if str_eq command "help" || str_eq command "-h" || str_eq command "--help"
    then prints_usage
    else usage_error
