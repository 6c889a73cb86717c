-- ===== src/Service/Capabilities/Serving.antt =====
-- The resources that are registered against those that the handler serves.
use mathlib.Core.Path.{subst}
use mcp_moqt_transport.Base.{
  ◌≡◌, refl, false, Option, none, some, List, [], ◌∷◌, String, str_eq, eq_iff, if◌then◌else◌, inl,
  inr, Bool-cases,
}
use mcp_moqt_transport.Base.Map.{lookup, string_key}
use mcp_moqt_transport.Errors.{Result, ok, err}
use mcp_moqt_transport.Service.Capabilities.{
  Resource, ResourceContents, register_resources, resource_handler, contents,
}

-- The MIME type that a URI is registered with.
abbrev pub registered : String → List Resource → Option String
registered uri [] = none
registered uri (r ∷ rs) = if str_eq r.uri uri then some r.mime_type else registered uri rs

abbrev pub served : Result ResourceContents → Option String
served (ok c) = some c.mime_type
served (err e) = none

abbrev Agrees : (String → String) → String → Type 0
Agrees prose uri = served (resource_handler prose uri) ≡ registered uri register_resources

subst-Agrees :
    (prose : String → String) (literal uri : String)
    → Agrees prose literal
    → (str_eq literal uri ≡ false → Agrees prose uri)
    → Agrees prose uri
subst-Agrees prose literal uri here further = elim (Bool-cases (str_eq literal uri)) [
  | inl e ↦ subst (Agrees prose) ((eq_iff literal uri).0 e) here
  | inr e ↦ further e
]

-- Whatever the URI: the handler serves it exactly when it is registered, and with the MIME type that
-- it is registered with.
pub resource_handler-registered :
    (prose : String → String) (uri : String)
    → served (resource_handler prose uri) ≡ registered uri register_resources
unfolding resource_handler register_resources lookup
resource_handler-registered prose uri = subst-Agrees prose "moqt://docs/overview" uri refl (λ a.
    subst-Agrees prose "moqt://docs/deployment" uri refl (λ b.
      subst-Agrees prose "moqt://docs/security" uri refl (λ c.
        subst-Agrees prose "moqt://config/example" uri refl (λ d.
          subst-Agrees prose "moqt://tracks/catalog" uri refl (λ e.
            subst-Agrees prose "moqt://install/quickstart" uri refl (λ f.
              let absent : lookup uri (contents prose) ≡ none = simp (a, b, c, d, e, f) refl in
              rw (absent, resource_handler) (simp (a, b, c, d, e, f) refl)))))))
