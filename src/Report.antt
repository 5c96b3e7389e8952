-- ===== src/Report.antt =====
-- src/report.rs: the totals of a report, the names that it shortens and the byte counts that it prints.
-- The `+=` of `Totals::of` wraps, as in a release build. `to_text` is in Render.
pub mod Sums
pub mod Bytes
pub mod Render
mod Tests
use wiretally.Prelude.{
  ℕ, ℤ, ◌+◌, ◌-◌, ◌%◌, Bool, true, false, Option, none, some, List, [], ◌∷◌, ◌++◌, length, take,
  leb, ltb, if◌then◌else◌,
}
use wiretally.Text.{Text, chars, decimal, F64, of_int, div_1024, lt_1024, two_decimals}
use wiretally.Stats.{u64_mod, Endpoint}

pub record Totals : Type 0 where
  pub ingress_bytes : ℕ
  pub egress_bytes : ℕ
  pub connections : ℕ

abbrev pub default_totals : Totals
default_totals = record { ingress_bytes = 0; egress_bytes = 0; connections = 0 }

-- The closure of the `fold`.
unfoldable pub add_endpoint : Totals → Endpoint → Totals
add_endpoint acc e = record {
  ingress_bytes = (acc.ingress_bytes + e.ingress_bytes) % u64_mod;
  egress_bytes = (acc.egress_bytes + e.egress_bytes) % u64_mod;
  connections = (acc.connections + e.connections) % u64_mod;
}

unfoldable pub fold_totals : Totals → List Endpoint → Totals
unfolding add_endpoint
fold_totals acc [] = acc
fold_totals acc (e ∷ es) = fold_totals (add_endpoint acc e) es

unfoldable pub totals_of : List Endpoint → Totals
unfolding fold_totals
totals_of es = fold_totals default_totals es

-- `filter(|e| e.matches_filter)`.
unfoldable pub matching : List Endpoint → List Endpoint
matching [] = []
matching (e ∷ es) = let rest = matching es in if e.matches_filter then e ∷ rest else rest

pub record TotalsBreakdown : Type 0 where
  pub matching_filter : Totals
  pub all_destinations : Totals

-- The `totals` of `Report::new`.
unfoldable pub breakdown : List Endpoint → TotalsBreakdown
unfolding totals_of matching
breakdown es = record { matching_filter = totals_of (matching es); all_destinations = totals_of es }

-- A run's summary. The exit code is an `i32`, the time a `u128`.
pub record Report : Type 0 where
  pub command : Text
  pub domain_prefix_filter : Option Text
  pub execution_time_ms : ℕ
  pub exit_code : ℤ
  pub totals : TotalsBreakdown
  pub endpoints : List Endpoint

-- `Report::new`.
unfoldable pub report_new : Text → Option Text → ℕ → ℤ → List Endpoint → Report
unfolding breakdown
report_new command filter time code es = record {
  command = command;
  domain_prefix_filter = filter;
  execution_time_ms = time;
  exit_code = code;
  totals = breakdown es;
  endpoints = es;
}

-- The character that marks a cut.
abbrev pub ellipsis : ℕ
ellipsis = 0x2026

unfoldable pub elide : Text → ℕ → Text
elide text max = if leb (length text) max then text else take (max - 1) text ++ ellipsis ∷ []

-- `UNITS[1..]`, behind the unit that the loop starts with.
abbrev pub later_units : List Text
later_units = chars "MB" ∷ chars "GB" ∷ chars "TB" ∷ chars "PB" ∷ []

-- The loop of `format_bytes`.
unfoldable pub scale_units : F64 → Text → List Text → F64 × Text
unfolding lt_1024 div_1024
scale_units value unit [] = (value, unit)
scale_units value unit (next ∷ units) =
    let rest = scale_units (div_1024 value) next units in
    if lt_1024 value then (value, unit) else rest

unfoldable pub in_units : F64 × Text → Text
unfolding two_decimals
in_units (value, unit) = two_decimals value ++ (b' ' ∷ unit)

unfoldable pub format_bytes : ℕ → Text
unfolding scale_units in_units div_1024 of_int
format_bytes bytes =
    if ltb bytes 1024
    then decimal bytes ++ chars " B"
    else in_units (scale_units (div_1024 (of_int bytes)) (chars "KB") later_units)
