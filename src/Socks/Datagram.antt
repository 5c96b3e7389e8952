-- ===== src/Socks/Datagram.antt =====
-- src/socks.rs: the UDP relay header, `parse_datagram` and `encode_datagram`.
mod Parse
pub mod Grammar
mod Tests
use wiretally.Prelude.{
  ℕ, ◌+◌, ◌-◌, ◌&&◌, Option, none, some, List, [], ◌∷◌, ◌++◌, length, take, drop, get_or, Result,
  ok, err, Exec, pure, raise, ◌>>=◌, ltb, leb, ◌==◌, if◌then◌else◌,
}
use wiretally.Text.{Text}
use wiretally.Net.{v4, v6, SocketAddr, ip_text, to_be_bytes, from_be_bytes}
use wiretally.Socks.{atyp_ipv4, atyp_ipv6, atyp_domain, domain_text, addr_bytes}

-- The fixed part of the header: RSV(2) FRAG(1) ATYP(1).
abbrev pub udp_header_prefix : ℕ
udp_header_prefix = 4

pub record Datagram : Type 0 where
  pub host : Text
  pub port : ℕ
  pub payload : List ℕ

pub data DatagramError : Type 0 where
  truncated : DatagramError
  unsupported_address_type fragmented : ℕ → DatagramError

-- `buf.get(lo..hi)`.
pub slice : ℕ → ℕ → List ℕ → Option (List ℕ)
slice lo hi buf =
    if leb lo hi && leb hi (length buf) then some (take (hi - lo) (drop lo buf)) else none

pub advance : Option (List ℕ) → ℕ → Exec ℕ DatagramError (List ℕ)
advance none end cursor = (err truncated, cursor)
advance (some bytes) end cursor = (ok bytes, end)

-- The state is the cursor, which moves only if the field is there.
pub read_slice : ℕ → List ℕ → Exec ℕ DatagramError (List ℕ)
unfolding slice advance
read_slice n buf cursor = advance (slice cursor (cursor + n) buf) (cursor + n) cursor

-- The `match buf[3]` of `parse_datagram`. A domain is the field of the length just read.
pub read_host : ℕ → List ℕ → Exec ℕ DatagramError Text
unfolding read_slice
read_host address_type buf =
    if address_type == atyp_ipv4
    then (do octets ← read_slice 4 buf; pure (ip_text (v4 octets)))
    else if address_type == atyp_ipv6
    then (do octets ← read_slice 16 buf; pure (ip_text (v6 octets)))
    else if address_type == atyp_domain
    then (do
      len ← read_slice 1 buf
      domain ← read_slice (get_or len 0 0) buf
      pure (domain_text domain))
    else raise (unsupported_address_type address_type)

-- `parse_datagram` behind its two guards; the payload starts at the last cursor.
pub read_fields : List ℕ → Exec ℕ DatagramError Datagram
unfolding read_host
read_fields buf = do
  host ← read_host (get_or buf 3 0) buf
  port ← read_slice 2 buf
  λ cursor.
      (ok (record { host = host; port = from_be_bytes port; payload = drop cursor buf }), cursor)

pub parse_datagram : List ℕ → Result DatagramError Datagram
unfolding read_fields
parse_datagram buf =
    if ltb (length buf) udp_header_prefix
    then err truncated
    else if get_or buf 2 0 == 0
    then (read_fields buf udp_header_prefix).0
    else err (fragmented (get_or buf 2 0))

-- The buffer `out` is cleared and filled.
pub encode_datagram : SocketAddr → List ℕ → List ℕ → List ℕ
unfolding addr_bytes
encode_datagram from payload out =
    (0x00 ∷ 0x00 ∷ 0x00 ∷ []) ++ (addr_bytes from.ip ++ (to_be_bytes from.port ++ payload))
