-- ===== src/Command/Doctor.antt =====
-- cmd/mcp-moqt/main.go, `runDoctor`: the lines that it prints and the status that it exits with. What
-- the checks return is a record; the checks themselves are in Probes, and Wired calls them.
pub mod Verdict
pub mod Wired
use mcp_moqt_transport.Base.{
  ℕ, Bool, true, false, not, ◌&&◌, ◌||◌, Option, none, some, List, [], ◌∷◌, ◌++◌, String, str_eq,
  if◌then◌else◌,
}
use mcp_moqt_transport.Errors.{Error}

pub record Flags : Type 0 where
  pub skip_capabilities : Bool
  pub addr : String
  pub metrics : String
  pub tls_cert : String
  pub tls_key : String
  pub skip_udp_bind : Bool

pub record Findings : Type 0 where
  pub go_found : Bool
  pub smoke : Option Error
  pub cert_pair : String → String → Option Error
  pub udp_bind : String → Option Error
  pub quic_probe : String → Option Error
  pub metrics_probe : String → Option Error

pub data Mark : Type 0 where
  passed warned failed : Mark

-- `lines` are the printed checks, first to last.
pub record Report : Type 0 where
  pub all_ok : Bool
  pub lines : List (Mark × String)

abbrev pub line : Mark → String → Report → Report
line mark name r = record r { lines = r.lines ++ (mark, name) ∷ [] }

-- A check that fails the report.
abbrev pub required : String → Option Error → Report → Report
required name (some e) r = record (line failed name r) { all_ok = false }
required name none r = line passed name r

abbrev pub advised : String → Option Error → Report → Report
advised name (some e) r = line warned name r
advised name none r = line passed name r

abbrev pub checks : Bool → List (String × Bool)
checks go_found =
    ("go toolchain", go_found)
    ∷ ("service package", true)
    ∷ ("CLI entrypoint", true)
    ∷ ("stdio mode", true)
    ∷ ("install scripts", true)
    ∷ ("docker compose", true)
    ∷ ("mcp config samples", true)
    ∷ ("deployment docs", true)
    ∷ ("grafana sample", true)
    ∷ []

unfoldable pub print_checks : List (String × Bool) → Report → Report
print_checks [] r = r
print_checks ((name, good) ∷ rest) r =
    print_checks rest
      (if good then line passed name r else record (line failed name r) { all_ok = false })

unfoldable pub check_capabilities : Flags → Findings → Report → Report
check_capabilities f w r =
    if f.skip_capabilities then r else required "capabilities smoke" w.smoke r

unfoldable pub check_tls : Flags → Findings → Report → Report
check_tls f w r =
    if not (str_eq f.tls_cert "") || not (str_eq f.tls_key "")
    then required "tls cert pair" (w.cert_pair f.tls_cert f.tls_key) r
    else r

unfoldable pub check_udp : Flags → Findings → Report → Report
check_udp f w r =
    if not (str_eq f.addr "") && not f.skip_udp_bind
    then advised "udp bind" (w.udp_bind f.addr) r
    else r

unfoldable pub check_quic : Flags → Findings → Report → Report
check_quic f w r = if str_eq f.addr "" then r else required "quic probe" (w.quic_probe f.addr) r

unfoldable pub check_metrics : Flags → Findings → Report → Report
check_metrics f w r =
    if str_eq f.metrics "" then r else required "metrics probe" (w.metrics_probe f.metrics) r

abbrev pub report : Flags → Findings → Report
report f w = check_metrics f w (
    check_quic f w (
      check_udp f w (
        check_tls f w (
          check_capabilities f w
            (print_checks (checks w.go_found) (record { all_ok = true; lines = [] }))))))

abbrev pub exit_status : Bool → ℕ
exit_status true = 0
exit_status false = 1

-- The lines, and the exit status.
unfoldable pub run_doctor : Flags → Findings → List (Mark × String) × ℕ
unfolding check_metrics check_quic check_udp check_tls check_capabilities print_checks
run_doctor f w = let r = report f w in (r.lines, exit_status r.all_ok)
