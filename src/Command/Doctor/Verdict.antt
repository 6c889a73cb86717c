-- ===== src/Command/Doctor/Verdict.antt =====
-- What the doctor prints against the status that it exits with.
use mcp_moqt_transport.Base.{
  str_eq, ◌||◌, ◌≡◌, refl, ◌∙◌, Bool, true, false, not, ◌&&◌, Option, none, some, List, [], ◌∷◌,
  ◌++◌, String, if◌then◌else◌, arith,
}
use mcp_moqt_transport.Errors.{Error}
use mcp_moqt_transport.Command.Doctor.{
  Flags, Findings, Mark, passed, warned, failed, Report, line, required, advised, checks,
  print_checks, check_capabilities, check_tls, check_udp, check_quic, check_metrics, exit_status,
  run_doctor,
}

abbrev pub is_failed : Mark → Bool
is_failed failed = true
is_failed _ = false

abbrev pub some_failed : List (Mark × String) → Bool
some_failed [] = false
some_failed ((mark, name) ∷ rest) = if is_failed mark then true else some_failed rest

-- The verdict so far agrees with the lines so far.
abbrev Agrees : Report → Type 0
Agrees r = some_failed r.lines ≡ not r.all_ok

some_failed-append :
    (ls : List (Mark × String)) (mark : Mark) (name : String)
    → some_failed (ls ++ (mark, name) ∷ []) ≡ (if is_failed mark then true else some_failed ls)
some_failed-append [] mark name = ground arith
some_failed-append ((m, n) ∷ ls) mark name = ground (arith, some_failed-append ls mark name)

required-Agrees :
    (name : String) (e : Option Error) (r : Report) → Agrees r → Agrees (required name e r)
required-Agrees name (some e) r a = some_failed-append r.lines failed name
required-Agrees name none r a = some_failed-append r.lines passed name ∙ a

advised-Agrees :
    (name : String) (e : Option Error) (r : Report) → Agrees r → Agrees (advised name e r)
advised-Agrees name (some e) r a = some_failed-append r.lines warned name ∙ a
advised-Agrees name none r a = some_failed-append r.lines passed name ∙ a

print_checks-Agrees :
    (cs : List (String × Bool)) (r : Report) → Agrees r → Agrees (print_checks cs r)
unfolding print_checks
print_checks-Agrees [] r a = a
print_checks-Agrees ((name, true) ∷ cs) r a =
    print_checks-Agrees cs (line passed name r) (some_failed-append r.lines passed name ∙ a)
print_checks-Agrees ((name, false) ∷ cs) r a =
    print_checks-Agrees cs (record (line failed name r) { all_ok = false })
      (some_failed-append r.lines failed name)

-- A check that is made or left out.
if-Agrees : (b : Bool) (r r' : Report) → Agrees r → Agrees r' → Agrees (if b then r else r')
if-Agrees true r r' a a' = a
if-Agrees false r r' a a' = a'

status_of : (r : Report) → Agrees r → exit_status r.all_ok ≡ exit_status (not (some_failed r.lines))
status_of r a = ground (arith, a)

module _ (f : Flags) (w : Findings) where
  capabilities-Agrees : (r : Report) → Agrees r → Agrees (check_capabilities f w r)
  unfolding check_capabilities
  capabilities-Agrees r a =
      if-Agrees f.skip_capabilities r (required "capabilities smoke" w.smoke r) a
        (required-Agrees "capabilities smoke" w.smoke r a)

  tls-Agrees : (r : Report) → Agrees r → Agrees (check_tls f w r)
  unfolding check_tls
  tls-Agrees r a =
      let e = w.cert_pair f.tls_cert f.tls_key in
      if-Agrees (not (str_eq f.tls_cert "") || not (str_eq f.tls_key ""))
        (required "tls cert pair" e r) r (required-Agrees "tls cert pair" e r a) a

  udp-Agrees : (r : Report) → Agrees r → Agrees (check_udp f w r)
  unfolding check_udp
  udp-Agrees r a =
      if-Agrees (not (str_eq f.addr "") && not f.skip_udp_bind)
        (advised "udp bind" (w.udp_bind f.addr) r) r
        (advised-Agrees "udp bind" (w.udp_bind f.addr) r a) a

  quic-Agrees : (r : Report) → Agrees r → Agrees (check_quic f w r)
  unfolding check_quic
  quic-Agrees r a =
      if-Agrees (str_eq f.addr "") r (required "quic probe" (w.quic_probe f.addr) r) a
        (required-Agrees "quic probe" (w.quic_probe f.addr) r a)

  metrics-Agrees : (r : Report) → Agrees r → Agrees (check_metrics f w r)
  unfolding check_metrics
  metrics-Agrees r a =
      if-Agrees (str_eq f.metrics "") r (required "metrics probe" (w.metrics_probe f.metrics) r) a
        (required-Agrees "metrics probe" (w.metrics_probe f.metrics) r a)

  -- Whatever the flags and whatever the checks find: the doctor exits with 1 when one of the lines
  -- that it printed is a failure, and with 0 otherwise.
  pub run_doctor-verdict :
      let (lines, status) = run_doctor f w in status ≡ exit_status (not (some_failed lines))
  unfolding run_doctor
  run_doctor-verdict =
      let start : Report = record { all_ok = true; lines = [] } in
      let r1 = print_checks (checks w.go_found) start in
      let r2 = check_capabilities f w r1 in
      let r3 = check_tls f w r2 in
      let r4 = check_udp f w r3 in
      let r5 = check_quic f w r4 in
      let agrees = metrics-Agrees r5 (
        quic-Agrees r4 (
          udp-Agrees r3 (
            tls-Agrees r2
              (capabilities-Agrees r1 (print_checks-Agrees (checks w.go_found) start refl))))) in
      status_of (check_metrics f w r5) agrees
