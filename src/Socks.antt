-- ===== src/Socks.antt =====
-- src/socks.rs: the constants and types of the SOCKS5 module, the greeting and request of a client,
-- and the replies. The UDP relay header is in Socks/Datagram.
pub mod Wire
mod Tests
pub mod Message
pub mod Datagram
pub mod Handshake
use wiretally.Prelude.{
  ℕ, Bool, false, ◌||◌, List, [], ◌∷◌, ◌++◌, get_or, Result, ok, err, Exec, pure, raise, map_err,
  ◌>>=◌, ◌>>◌, ◌==◌, if◌then◌else◌,
}
use wiretally.Text.{Text, trim_end_matches, to_ascii_lowercase, from_utf8_lossy}
use wiretally.Net.{IpAddr, v4, v6, SocketAddr, ip_text, to_be_bytes, from_be_bytes}
use wiretally.Stream.{IoError, Stream, read_exact, write_all}

abbrev pub version : ℕ
version = 0x05

abbrev pub greeting_byte : ℕ
greeting_byte = version

abbrev pub method_none : ℕ
method_none = 0x00

abbrev pub method_unacceptable : ℕ
method_unacceptable = 0xFF

abbrev pub cmd_connect : ℕ
cmd_connect = 0x01

abbrev pub cmd_udp_associate : ℕ
cmd_udp_associate = 0x03

abbrev pub atyp_ipv4 : ℕ
atyp_ipv4 = 0x01

abbrev pub atyp_domain : ℕ
atyp_domain = 0x03

abbrev pub atyp_ipv6 : ℕ
atyp_ipv6 = 0x04

abbrev pub rep_success : ℕ
rep_success = 0x00

abbrev pub rep_general_failure : ℕ
rep_general_failure = 0x01

abbrev pub rep_connection_refused : ℕ
rep_connection_refused = 0x05

abbrev pub rep_command_not_supported : ℕ
rep_command_not_supported = 0x07

abbrev pub rep_address_not_supported : ℕ
rep_address_not_supported = 0x08

pub record Request : Type 0 where
  pub host : Text
  pub port : ℕ

pub data Command : Type 0 where
  connect udp_associate : Request → Command

pub data Error : Type 0 where
  io : IoError → Error
  unsupported_version : ℕ → Error
  no_acceptable_method : Error
  unsupported_command unsupported_address_type : ℕ → Error

unfoldable pub reply_code : Error → ℕ
reply_code (unsupported_command c) = rep_command_not_supported
reply_code (unsupported_address_type a) = rep_address_not_supported
reply_code _ = rep_general_failure

-- `Error::from(io::Error)`, which `?` applies.
abbrev pub from_io : {A : Type 0} → Exec Stream IoError A → Exec Stream Error A
from_io m s = map_err io (m s)

unfoldable pub contains : ℕ → List ℕ → Bool
contains a [] = false
contains a (x ∷ xs) = x == a || contains a xs

-- A domain name as the program keeps it: no dot at the end, in lower case.
unfoldable pub domain_text : List ℕ → Text
domain_text domain = to_ascii_lowercase (trim_end_matches b'.' (from_utf8_lossy domain))

-- The `match address_type` of `accept`.
pub read_host : ℕ → Exec Stream Error Text
read_host address_type =
    if address_type == atyp_ipv4
    then (do octets ← from_io (read_exact 4); pure (ip_text (v4 octets)))
    else if address_type == atyp_ipv6
    then (do octets ← from_io (read_exact 16); pure (ip_text (v6 octets)))
    else if address_type == atyp_domain
    then (do
      len ← from_io (read_exact 1)
      domain ← from_io (read_exact (get_or len 0 0))
      pure (domain_text domain))
    else raise (unsupported_address_type address_type)

-- The last `match` of `accept`.
unfoldable pub select : ℕ → Request → Result Error Command
select command request =
    if command == cmd_connect
    then ok (connect request)
    else if command == cmd_udp_associate
    then ok (udp_associate request)
    else err (unsupported_command command)

-- `accept` from the request header on.
pub read_request : Exec Stream Error Command
unfolding read_host select
read_request = do
  header ← from_io (read_exact 4)
  if get_or header 0 0 == version
      then (do
        host ← read_host (get_or header 3 0)
        port ← from_io (read_exact 2)
        λ s. (select (get_or header 1 0) (record { host = host; port = from_be_bytes port }), s))
      else raise (unsupported_version (get_or header 0 0))

-- `accept` behind the greeting: the client's methods, and the answer to them.
pub read_methods : ℕ → Exec Stream Error Command
unfolding contains read_request
read_methods count = do
  methods ← from_io (read_exact count)
  if contains method_none methods
      then (do from_io (write_all (version ∷ method_none ∷ [])); read_request)
      else (do from_io (write_all (version ∷ method_unacceptable ∷ [])); raise no_acceptable_method)

pub accept : Exec Stream Error Command
unfolding read_methods
accept = do
  greeting ← from_io (read_exact 2)
  if get_or greeting 0 0 == version
      then read_methods (get_or greeting 1 0)
      else raise (unsupported_version (get_or greeting 0 0))

-- The address type and octets that `reply_bound` and `encode_datagram` both write.
unfoldable pub addr_bytes : IpAddr → List ℕ
addr_bytes (v4 octets) = atyp_ipv4 ∷ octets
addr_bytes (v6 octets) = atyp_ipv6 ∷ octets

unfoldable pub reply : ℕ → Exec Stream IoError Unit
reply code = write_all (version ∷ code ∷ 0x00 ∷ atyp_ipv4 ∷ 0 ∷ 0 ∷ 0 ∷ 0 ∷ 0 ∷ 0 ∷ [])

unfoldable pub reply_bound : ℕ → SocketAddr → Exec Stream IoError Unit
unfolding addr_bytes
reply_bound code bound =
    write_all ((version ∷ code ∷ 0x00 ∷ []) ++ (addr_bytes bound.ip ++ to_be_bytes bound.port))
