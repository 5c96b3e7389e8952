-- ===== src/Text.antt =====
-- The parts of Rust's `str` and `String` that the program calls. A text is the list of its
-- characters' code points; a `[u8]` is a list of numbers below 256.
mod Ascii
mod Utf8
mod Decimal
mod Float
unfoldable pub use Ascii.{
  Text, chars, is_empty, text_eq, lower, to_ascii_lowercase, eq_ignore_ascii_case, trim_cons,
  trim_end_matches, trim_start, trim_matches, strip_prefix, trim_start_rounds, trim_start_matches,
  ends_with, push_front, split_once, or_else, rsplit_once,
}
pub use Ascii.{
  text_eq-eq, text_eq_refl, text_eq_iff, ends_with_iff, rsplit_once_last, split_once_first,
}
unfoldable pub use Utf8.{from_utf8, from_utf8_lossy}
pub use Utf8.{from_utf8_lossy-ascii, from_utf8-ascii}
unfoldable pub use Decimal.{digit, radix_rounds, decimal, hex, is_digit, parse_digits, parse_u16}
pub use Decimal.{IsDigit, parse_u16-lt, decimal-IsDigit, parse_u16-decimal}
unfoldable pub use Float.{
  round_div, of_int, div_1024, lt_1024, div_1000, hundredths, fixed_two, two_decimals,
}
pub use Float.{F64, round_div_half, of_int_exact, of_int_near}
