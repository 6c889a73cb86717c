-- ===== src/Service/Capabilities.antt =====
-- pkg/mcpservice/capabilities.go: the registered tools, prompts and resources, the prompts' arguments,
-- and the handler of the resources. `prose` are the resources' texts by their URI, and `write` lays a
-- prompt's two arguments into its text. A name stands for the handler registered with it.
pub mod Serving
use mcp_moqt_transport.Base.{
  ℕ, Bool, true, false, Option, none, some, List, [], ◌∷◌, String, str_eq, if◌then◌else◌,
}
use mcp_moqt_transport.Base.Map.{lookup, string_key}
use mcp_moqt_transport.Errors.{Error, Result, ok, err, text}
use mcp_moqt_transport.Service.{service_name, service_version}
use mcp_moqt_transport.Metrics.{Metrics, Snapshot, snapshot}

pub record Resource : Type 0 where
  pub uri : String
  pub name : String
  pub mime_type : String

pub record PromptArgument : Type 0 where
  pub name : String
  pub required : Bool

pub record Prompt : Type 0 where
  pub name : String
  pub arguments : List PromptArgument

-- What a server offers.
pub record Capabilities : Type 0 where
  pub tools : List String
  pub prompts : List Prompt
  pub resources : List Resource

unfoldable pub register_tools : List String
register_tools =
    "health_check" ∷ "get_transport_info" ∷ "list_data_tracks" ∷ "estimate_rtt" ∷ "validate_config"
    ∷ "export_metrics" ∷ []

unfoldable pub register_prompts : List Prompt
register_prompts =
    record {
      name = "debug_moqt_session";
      arguments =
          record { name = "symptom"; required = true }
          ∷ record { name = "addr"; required = false }
          ∷ [];
    }
    ∷ record {
      name = "configure_transport";
      arguments =
          record { name = "environment"; required = true }
          ∷ record { name = "goal"; required = false }
          ∷ [];
    }
    ∷ []

unfoldable pub register_resources : List Resource
register_resources =
    record { uri = "moqt://docs/overview"; name = "Service Overview"; mime_type = "text/markdown" }
    ∷ record {
      uri = "moqt://config/example";
      name = "Example Config";
      mime_type = "application/yaml";
    }
    ∷ record {
      uri = "moqt://tracks/catalog";
      name = "Data Track Catalog";
      mime_type = "application/json";
    }
    ∷ record {
      uri = "moqt://install/quickstart";
      name = "Install Quickstart";
      mime_type = "text/markdown";
    }
    ∷ record {
      uri = "moqt://docs/deployment";
      name = "Deployment Guide";
      mime_type = "text/markdown";
    }
    ∷ record {
      uri = "moqt://docs/security";
      name = "Security Checklist";
      mime_type = "text/markdown";
    }
    ∷ []

unfoldable pub register_capabilities : Capabilities
unfolding register_tools register_prompts register_resources
register_capabilities = record {
  tools = register_tools;
  prompts = register_prompts;
  resources = register_resources;
}

pub record HealthOutput : Type 0 where
  pub status : String
  pub service : String
  pub version : String
  pub go_version : String
  pub os : String
  pub arch : String
  pub timestamp : String

-- What the runtime and the clock tell.
pub record Runtime : Type 0 where
  pub go_version : String
  pub goos : String
  pub goarch : String
  pub now : String

unfoldable pub health_check : Runtime → HealthOutput
health_check r = record {
  status = "ok";
  service = service_name;
  version = service_version;
  go_version = r.go_version;
  os = r.goos;
  arch = r.goarch;
  timestamp = r.now;
}

unfoldable pub export_metrics :
    {F : Type 0} → F → (ℕ → ℕ → F) → (ℕ → ℕ → F) → ℕ → Metrics → Snapshot F
unfolding snapshot
export_metrics zero ratio per_second now metrics = snapshot zero ratio per_second now metrics

-- A missing argument is the empty string.
abbrev pub argument : String → List (String × String) → String
argument name arguments = elim (lookup name arguments) [ none ↦ "" | some v ↦ v ]

abbrev pub or_default : String → String → String
or_default v d = if str_eq v "" then d else v

unfoldable pub debug_moqt_session_prompt :
    {T : Type 0} → (String → String → T) → List (String × String) → T
debug_moqt_session_prompt write arguments =
    let symptom = argument "symptom" arguments in
    let addr = or_default (argument "addr" arguments) "127.0.0.1:8080" in write addr symptom

unfoldable pub configure_transport_prompt :
    {T : Type 0} → (String → String → T) → List (String × String) → T
configure_transport_prompt write arguments =
    let env = argument "environment" arguments in
    let goal = or_default (argument "goal" arguments) "reliability" in write env goal

abbrev pub contents : (String → String) → List (String × String)
contents prose =
    ("moqt://docs/overview", prose "moqt://docs/overview")
    ∷ ("moqt://docs/deployment", prose "moqt://docs/deployment")
    ∷ ("moqt://docs/security", prose "moqt://docs/security")
    ∷ ("moqt://config/example", prose "moqt://config/example")
    ∷ ("moqt://tracks/catalog", prose "moqt://tracks/catalog")
    ∷ ("moqt://install/quickstart", prose "moqt://install/quickstart")
    ∷ []

-- The switch on the URI.
abbrev pub mime : String → String
mime uri =
    if str_eq "moqt://docs/overview" uri
    then "text/markdown"
    else if str_eq "moqt://install/quickstart" uri
    then "text/markdown"
    else if str_eq "moqt://docs/deployment" uri
    then "text/markdown"
    else if str_eq "moqt://docs/security" uri
    then "text/markdown"
    else if str_eq "moqt://config/example" uri
    then "application/yaml"
    else if str_eq "moqt://tracks/catalog" uri
    then "application/json"
    else "text/plain"

pub record ResourceContents : Type 0 where
  pub uri : String
  pub mime_type : String
  pub text : String

unfoldable pub resource_handler : (String → String) → String → Result ResourceContents
unfolding lookup
resource_handler prose uri = elim (lookup uri (contents prose)) [
  | none ↦ err (text "resource not found")
  | some t ↦ ok (record { uri = uri; mime_type = mime uri; text = t })
]
