-- ===== src/Config/Files.antt =====
-- A configuration that is saved and loaded again, and one that comes from the environment.
use mcp_moqt_transport.Base.{
  ℕ, ◌≡◌, ◌≢◌, refl, false, Option, none, some, List, [], ◌∷◌, String, str_eq, eq_iff,
  if◌then◌else◌, arith, Bool-cases, Option-cases, inl, inr, ◌==◌,
}
use Prim.Native.Char.{Char, code}
use mcp_moqt_transport.Errors.{Error, Result, ok, err, Result-cases}
use mcp_moqt_transport.Config.{
  Config, TlsConfig, default_config, Format, format_of, Os, load_from_file, save_to_file,
  load_from_env, split, extend, validate, validate_cert, validate_ca, or_default, has_server_cert,
  no_alpn,
}

-- What `SaveToFile` wrote, `LoadFromFile` of the same path reads back, for every suffix, if the codecs
-- read back onto the defaults what they wrote and the file system returns what was written to it.
load_from_file-save_to_file :
    {D : Type 0} (decode : Format → D → Config → Result Config)
    (encode : Format → Config → Result D) (write : String → D → Os D → Os D × Option Error)
    (os : Os D) (path : String) (c : Config)
    → ((f : Format) (bytes : D) → encode f c ≡ ok bytes → decode f bytes default_config ≡ ok c)
    → ((bytes : D) → (write path bytes os).1 ≡ none → (write path bytes os).0.read path ≡ ok bytes)
    → (save_to_file encode write os path c).1 ≡ none
    → load_from_file decode (save_to_file encode write os path c).0 path ≡ ok c
unfolding load_from_file save_to_file
load_from_file-save_to_file {D = D} decode encode write os path c codec store saved =
    elim (Result-cases (encode (format_of path) c)) [
      | inl (e, h) ↦ absurd (rejects e h)
      | inr (bytes, h) ↦ elim (Option-cases (write path bytes os).1) [
        | inr (e, w) ↦ absurd (unwritten bytes e h w)
        | inl w ↦ ground (arith, h, w, store bytes w, codec (format_of path) bytes h)
      ]
    ]
  where
    rejects : (e : Error) → encode (format_of path) c ≡ err e → ⊥
    rejects e h = ground arith

    unwritten :
        (bytes : D) (e : Error)
        → encode (format_of path) c ≡ ok bytes
        → (write path bytes os).1 ≡ some e
        → ⊥
    unwritten bytes e h w = ground arith

extend_some : (c : Char) (parts : List String) → no_alpn (extend c parts) ≡ false
extend_some c [] = refl
extend_some c (part ∷ parts) = refl

split_some : (sep : ℕ) (s : String) → no_alpn (split sep s) ≡ false
unfolding split
split_some sep String.[] = refl
split_some sep (String.◌∷◌ c s) = elim (Bool-cases (code c == sep)) [
  | inl e ↦ rw e refl
  | inr e ↦ rw e (extend_some c (split sep s))
]

-- The file of a name is there, unless the name is empty.
abbrev pub Present : (String → Option Error) → String → Type 0
Present stat name = name ≢ "" → stat name ≡ none

Present-name :
    (stat : String → Option Error) (name : String)
    → Present stat name
    → str_eq name "" ≡ false
    → stat name ≡ none
Present-name stat name h e = h (λ q. ground (arith, eq_iff name ""))

validate_cert-Present :
    (stat : String → Option Error) (t : TlsConfig)
    → Present stat t.cert_file
    → Present stat t.key_file
    → validate_cert stat t ≡ none
unfolding validate_cert has_server_cert
validate_cert-Present stat t c k =
    ground (arith, Present-name stat t.cert_file c, Present-name stat t.key_file k)

validate_ca-Present :
    (stat : String → Option Error) (t : TlsConfig)
    → Present stat t.ca_file
    → validate_ca stat t ≡ none
unfolding validate_ca
validate_ca-Present stat t c = ground (arith, Present-name stat t.ca_file c)

pub validate-Present :
    (stat : String → Option Error) (c : Config)
    → str_eq c.addr "" ≡ false
    → no_alpn c.alpn ≡ false
    → Present stat c.tls.cert_file
    → Present stat c.tls.key_file
    → Present stat c.tls.ca_file
    → validate stat c ≡ none
unfolding validate
validate-Present stat c a n f k ca =
    simp (a, n, validate_cert-Present stat c.tls f k) (validate_ca-Present stat c.tls ca)

Present-or_default :
    (stat : String → Option Error) (name : String)
    → Present stat name
    → Present stat (or_default name "")
Present-or_default stat name h n = ground (arith, h)

filled_or_default :
    (name old : String) → str_eq old "" ≡ false → str_eq (or_default name old) "" ≡ false
filled_or_default name old h = ground arith

pub load_from_env-addr : (env : String → String) → str_eq (load_from_env env).addr "" ≡ false
unfolding load_from_env default_config
load_from_env-addr env = filled_or_default (env "MCP_MOQT_ADDR") "localhost:0" refl

-- A configuration from the environment is valid whenever the TLS files that the environment names are
-- there, whatever its other variables hold.
pub validate-load_from_env :
    (stat : String → Option Error) (env : String → String)
    → Present stat (env "MCP_MOQT_TLS_CERT")
    → Present stat (env "MCP_MOQT_TLS_KEY")
    → Present stat (env "MCP_MOQT_TLS_CA")
    → validate stat (load_from_env env) ≡ none
unfolding load_from_env default_config
validate-load_from_env stat env cert key ca =
    validate-Present stat (load_from_env env) (load_from_env-addr env)
      (alpn_kept (env "MCP_MOQT_ALPN")) (Present-or_default stat (env "MCP_MOQT_TLS_CERT") cert)
      (Present-or_default stat (env "MCP_MOQT_TLS_KEY") key)
      (Present-or_default stat (env "MCP_MOQT_TLS_CA") ca)
  where
    alpn_kept :
        (value : String)
        → no_alpn (if str_eq value "" then "moq-00" ∷ [] else split 44 value) ≡ false
    alpn_kept value = ground (arith, split_some 44 value)
