-- ===== src/Report/Render.antt =====
-- src/report.rs: `Report::to_text`, as the lines that it writes.
pub mod Width
mod Tests
use wiretally.Prelude.{
  ℕ, zero, suc, ◌+◌, ◌-◌, ◌/◌, ℤ, pos, negsuc, Bool, true, false, Option, none, some, List, [], ◌∷◌,
  ◌++◌, map, length, if◌then◌else◌,
}
use wiretally.Text.{Text, chars, decimal, is_empty, of_int, div_1000, two_decimals}
use wiretally.Stats.{Endpoint}
use wiretally.Report.{Totals, Report, matching, elide, format_bytes}

abbrev pub rule_width : ℕ
rule_width = 80

abbrev pub domain_col : ℕ
domain_col = 34

unfoldable pub repeat : ℕ → ℕ → Text
repeat zero c = []
repeat (suc n) c = c ∷ repeat n c

-- `{:<n}`, `{:>n}` and `{:^n}`: a longer text is not cut.
unfoldable pub left_aligned : ℕ → Text → Text
unfolding repeat
left_aligned n t = t ++ repeat (n - length t) b' '

unfoldable pub right_aligned : ℕ → Text → Text
unfolding repeat
right_aligned n t = repeat (n - length t) b' ' ++ t

unfoldable pub centred : ℕ → Text → Text
unfolding repeat
centred n t =
    let spaces = n - length t in
    repeat (spaces / 2) b' ' ++ (t ++ repeat (spaces - spaces / 2) b' ')

-- `{}` of an `i32`.
unfoldable pub int_text : ℤ → Text
unfolding decimal
int_text (pos n) = decimal n
int_text (negsuc n) = b'-' ∷ decimal (n + 1)

-- `"{:<DOMAIN_COL$}{:>14}{:>17}{:>8}"`.
unfoldable pub columns : Text → Text → Text → Text → Text
unfolding left_aligned right_aligned
columns name rx tx conns =
    left_aligned domain_col name
    ++ (right_aligned 14 rx ++ (right_aligned 17 tx ++ right_aligned 8 conns))

unfoldable pub endpoint_line : Endpoint → Text
unfolding columns elide format_bytes decimal
endpoint_line e =
    columns (elide e.domain (domain_col - 1)) (format_bytes e.ingress_bytes)
      (format_bytes e.egress_bytes) (decimal e.connections)

unfoldable pub totals_line : Text → Totals → Text
unfolding columns format_bytes decimal
totals_line label t =
    columns label (format_bytes t.ingress_bytes) (format_bytes t.egress_bytes)
      (decimal t.connections)

unfoldable pub filter_text : Option Text → Text
filter_text none = chars "none (all destinations)"
filter_text (some prefix) = chars "*." ++ (prefix ++ chars " (Prefix Match)")

unfoldable pub heading : Report → List Text
unfolding repeat centred filter_text int_text columns of_int div_1000 two_decimals
heading r =
    repeat rule_width b'='
    ∷ centred rule_width (chars "WIRETALLY TRAFFIC SUMMARY")
    ∷ repeat rule_width b'='
    ∷ (chars "Command:          " ++ r.command)
    ∷ (chars "Target Filter:    " ++ filter_text r.domain_prefix_filter)
    ∷ (chars "Execution Time:   "
        ++ (two_decimals (div_1000 (of_int r.execution_time_ms)) ++ chars "s"))
    ∷ (chars "Exit Code:        " ++ int_text r.exit_code)
    ∷ []
    ∷ chars "DOMAIN / ENDPOINT SUMMARY:"
    ∷ repeat rule_width b'-'
    ∷ columns (chars "ENDPOINT / DOMAIN") (chars "INGRESS (Rx)") (chars "EGRESS (Tx)")
        (chars "CONNS")
    ∷ repeat rule_width b'-'
    ∷ []

-- The notice if there is nothing to show, and then a line for each endpoint.
unfoldable pub table_lines : List Endpoint → List Text
unfolding endpoint_line
table_lines [] = chars "(no matching traffic observed)" ∷ []
table_lines (e ∷ es) = map endpoint_line (e ∷ es)

unfoldable pub footing : Report → List Text
unfolding repeat totals_line
footing r =
    repeat rule_width b'-'
    ∷ totals_line (chars "TOTAL (Matching Filter):") r.totals.matching_filter
    ∷ totals_line (chars "TOTAL (All Destinations):") r.totals.all_destinations
    ∷ repeat rule_width b'='
    ∷ []

unfoldable pub report_lines : Report → List Text
unfolding heading matching table_lines footing
report_lines r = heading r ++ (table_lines (matching r.endpoints) ++ footing r)

-- `writeln!`, line by line.
unfoldable pub write_lines : List Text → Text
write_lines [] = []
write_lines (l ∷ ls) = l ++ (b'\n' ∷ write_lines ls)

unfoldable pub to_text : Report → Text
unfolding report_lines write_lines
to_text r = write_lines (report_lines r)
