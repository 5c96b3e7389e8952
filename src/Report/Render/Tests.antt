-- ===== src/Report/Render/Tests.antt =====
-- Runs of `format_bytes` and `to_text`, with the cases of the tests in src/report.rs.
use wiretally.Prelude.{
  ◌^◌, ◌*◌, ◌≤◌, ◌<◌, ◌-◌, ◌≡◌, refl, pos, negsuc, true, false, ◌⊎◌, none, some, [], ◌∷◌, ◌++◌,
  length, arith,
}
use wiretally.Text.{Text, chars, decimal}
use wiretally.Stats.{Endpoint}
use wiretally.Report.{report_new, elide, format_bytes}
use wiretally.Report.Bytes.{Printed, format_bytes-Printed}
use wiretally.Report.Render.{endpoint_line, report_lines, int_text}
use wiretally.Report.Render.Width.{endpoint_line_width}

format_bytes_cases :
    (format_bytes 0 ≡ chars "0 B")
    × (format_bytes 1023 ≡ chars "1023 B")
    × (format_bytes 1024 ≡ chars "1.00 KB")
    × (format_bytes 4311 ≡ chars "4.21 KB")
    × (format_bytes 149760000 ≡ chars "142.82 MB")
    × (format_bytes (2 * 1024 * 1024 * 1024) ≡ chars "2.00 GB")
    × (format_bytes 1048575 ≡ chars "1024.00 KB")
    × (format_bytes (2 ^ 64 - 1) ≡ chars "16384.00 PB")
unfolding format_bytes
format_bytes_cases = (refl, refl, refl, refl, refl, refl, refl, refl)

signs : (int_text (pos 130) ≡ chars "130") × (int_text (negsuc 0) ≡ chars "-1")
unfolding int_text
signs = (refl, refl)

abbrev shown : Endpoint
shown = record {
  domain = chars "a.example.com";
  ip_address = none;
  ingress_bytes = 100;
  egress_bytes = 10;
  connections = 1;
  matches_filter = true;
}

abbrev hidden : Endpoint
hidden = record {
  domain = chars "other.dev";
  ip_address = none;
  ingress_bytes = 5;
  egress_bytes = 1;
  connections = 1;
  matches_filter = false;
}

report_shows :
    report_lines
      (report_new (chars "curl x") (some (chars "example.com")) 1840 (pos 0) (shown ∷ hidden ∷ []))
    ≡ chars "================================================================================"
      ∷ chars "                           WIRETALLY TRAFFIC SUMMARY                            "
      ∷ chars "================================================================================"
      ∷ chars "Command:          curl x"
      ∷ chars "Target Filter:    *.example.com (Prefix Match)"
      ∷ chars "Execution Time:   1.84s"
      ∷ chars "Exit Code:        0"
      ∷ []
      ∷ chars "DOMAIN / ENDPOINT SUMMARY:"
      ∷ chars "--------------------------------------------------------------------------------"
      ∷ chars "ENDPOINT / DOMAIN                   INGRESS (Rx)      EGRESS (Tx)   CONNS"
      ∷ chars "--------------------------------------------------------------------------------"
      ∷ chars "a.example.com                              100 B             10 B       1"
      ∷ chars "--------------------------------------------------------------------------------"
      ∷ chars "TOTAL (Matching Filter):                   100 B             10 B       1"
      ∷ chars "TOTAL (All Destinations):                  105 B             11 B       2"
      ∷ chars "================================================================================"
      ∷ []
unfolding report_lines report_new
report_shows = refl

format_bytes-Printed_example :
    ((4311 < 1024) × (format_bytes 4311 ≡ decimal 4311 ++ chars " B"))
    ⊎ ((1024 ≤ 4311) × Printed 4311)
format_bytes-Printed_example = format_bytes-Printed 4311

endpoint_line_width_example :
    (length (endpoint_line shown) ≡ 73)
    × (length (elide shown.domain 33) ≤ 33)
    × ((cells : Text) × (endpoint_line shown ≡ elide shown.domain 33 ++ (b' ' ∷ cells)))
endpoint_line_width_example = endpoint_line_width shown (omega arith) (omega arith) (omega arith)
