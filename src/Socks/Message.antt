-- ===== src/Socks/Message.antt =====
-- src/socks.rs: the texts of the errors.
--
-- How an `io::Error` is printed is the system's.
use wiretally.Prelude.{ℕ, ◌∷◌, ◌++◌, ltb, if◌then◌else◌}
use wiretally.Text.{Text, chars, hex}
use wiretally.Stream.{IoError}
use wiretally.Socks.{
  Error, io, unsupported_version, no_acceptable_method, unsupported_command,
  unsupported_address_type,
}
use wiretally.Socks.Datagram.{DatagramError, truncated, fragmented}

-- `{:#04x}` of a byte.
unfoldable pub byte_hex : ℕ → Text
unfolding hex
byte_hex b = chars "0x" ++ (if ltb b 16 then b'0' ∷ hex b else hex b)

module _ (io_text : IoError → Text) where
  unfoldable pub error_text : Error → Text
  unfolding byte_hex
  error_text (io e) = chars "socks5 handshake io error: " ++ io_text e
  error_text (unsupported_version v) = chars "unsupported socks version " ++ byte_hex v
  error_text no_acceptable_method = chars "client offered no acceptable authentication method"
  error_text (unsupported_command c) = chars "unsupported socks command " ++ byte_hex c
  error_text (unsupported_address_type a) = chars "unsupported address type " ++ byte_hex a

unfoldable pub datagram_error_text : DatagramError → Text
unfolding byte_hex
datagram_error_text truncated = chars "truncated udp relay header"
datagram_error_text (DatagramError.unsupported_address_type a) =
    chars "unsupported address type " ++ byte_hex a
datagram_error_text (fragmented frag) =
    chars "fragmented datagram (FRAG " ++ (byte_hex frag ++ chars ") is not supported")
