-- ===== src/Net.antt =====
-- `std::net`: IP addresses by their octets, socket addresses, and how an address is printed.
mod Display
mod Parse
mod Tests
pub mod RoundTrip
use wiretally.Prelude.{
  ℕ, ◌+◌, ◌*◌, ◌/◌, ◌%◌, ◌<◌, ◌≡◌, Bool, true, false, ◌&&◌, Option, none, some, if◌then◌else◌, List,
  [], ◌∷◌, ◌++◌, All, length, get_or, arith, ◌==◌,
}
use wiretally.Text.{Text, decimal, is_empty, text_eq, text_eq_iff}
use Display.{v4_text, v6_text}
use Parse.{read_v4, read_v6}
use mathlib.Core.Option

-- `Ipv4Addr` holds four octets and `Ipv6Addr` sixteen.
pub data IpAddr : Type 0 where
  v4 v6 : List ℕ → IpAddr

abbrev pub IsByte : ℕ → Type 0
IsByte b = b < 256

abbrev pub IsAddr : IpAddr → Type 0
IsAddr (v4 os) = (length os ≡ 4) × All IsByte os
IsAddr (v6 os) = (length os ≡ 16) × All IsByte os

pub record SocketAddr : Type 0 where
  pub ip : IpAddr
  pub port : ℕ

-- `IpAddr::to_string`.
unfoldable pub ip_text : IpAddr → Text
unfolding v4_text v6_text
ip_text (v4 os) = v4_text os
ip_text (v6 os) = v6_text os

-- `SocketAddr::to_string`; flow label and scope are zero.
unfoldable pub socket_text : SocketAddr → Text
unfolding ip_text decimal
socket_text s = bracketed_ip s.ip ++ (b':' ∷ decimal s.port)
  where
    bracketed_ip : IpAddr → Text
    bracketed_ip (v4 os) = ip_text (v4 os)
    bracketed_ip (v6 os) = b'[' ∷ ip_text (v6 os) ++ b']' ∷ []

unfoldable pub ip_eq : IpAddr → IpAddr → Bool
ip_eq (v4 a) (v4 b) = text_eq a b
ip_eq (v6 a) (v6 b) = text_eq a b
ip_eq _ _ = false

pub ip_eq-eq : (a b : IpAddr) → ip_eq a b ≡ true → a ≡ b
unfolding ip_eq
ip_eq-eq (v4 a) (v4 b) h = ground (arith, text_eq_iff a b)
ip_eq-eq (v6 a) (v6 b) h = ground (arith, text_eq_iff a b)
ip_eq-eq (v4 a) (v6 b) h = ground arith
ip_eq-eq (v6 a) (v4 b) h = ground arith

pub ip_eq_refl : (a : IpAddr) → ip_eq a a ≡ true
unfolding ip_eq
ip_eq_refl (v4 a) = ground (arith, text_eq_iff a a)
ip_eq_refl (v6 a) = ground (arith, text_eq_iff a a)

-- `u16::to_be_bytes` and `u16::from_be_bytes`.
unfoldable pub to_be_bytes : ℕ → List ℕ
to_be_bytes p = (p / 256) ∷ (p % 256) ∷ []

unfoldable pub from_be_bytes : List ℕ → ℕ
from_be_bytes bs = get_or bs 0 0 * 256 + get_or bs 1 0

pub from_be_bytes-to_be_bytes : (p : ℕ) → from_be_bytes (to_be_bytes p) ≡ p
unfolding from_be_bytes to_be_bytes
from_be_bytes-to_be_bytes p = omega arith

pub from_be_bytes-lt : (hi lo : ℕ) → IsByte hi → IsByte lo → from_be_bytes (hi ∷ lo ∷ []) < 65536
unfolding from_be_bytes
from_be_bytes-lt hi lo h k = omega arith

unfoldable pub whole : Option (List ℕ × Text) → Option (List ℕ)
unfolding is_empty
whole none = none
whole (some (os, rest)) = if is_empty rest then some os else none

-- `IpAddr::from_str`: an IPv4 address that is a front of the text settles it.
unfoldable pub parse_ip : Text → Option IpAddr
unfolding whole read_v4 read_v6
parse_ip s = elim (read_v4 s) [
  | some (os, rest) ↦ Option.map v4 (whole (some (os, rest)))
  | none ↦ Option.map v6 (whole (read_v6 s))
]
