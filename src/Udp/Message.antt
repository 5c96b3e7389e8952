-- ===== src/Udp/Message.antt =====
-- src/udp.rs: the lines that the relay logs.
use wiretally.Prelude.{◌++◌}
use wiretally.Text.{Text, chars, decimal}
use wiretally.Net.{socket_text}
use wiretally.Stream.{IoError}
use wiretally.Socks.Message.{datagram_error_text}
use wiretally.Udp.{Note, dropped, unresolved, sent, send_failed, replied, reply_failed}

-- The body of a line; how an `io::Error` is printed is the system's.
module _ (io_text : IoError → Text) where
  unfoldable pub note_text : Note → Text
  unfolding datagram_error_text decimal socket_text
  note_text (dropped e) = chars "UDP   -- dropped datagram: " ++ datagram_error_text e
  note_text (unresolved host port e) =
      chars "UDP   -- cannot resolve "
      ++ (host ++ (chars ":" ++ (decimal port ++ (chars ": " ++ io_text e))))
  note_text (sent n host port) =
      chars "UDP   -> " ++ (decimal n ++ (chars " bytes " ++ (host ++ (chars ":" ++ decimal port))))
  note_text (send_failed target e) =
      chars "UDP   -- send to " ++ (socket_text target ++ (chars " failed: " ++ io_text e))
  note_text (replied n host) = chars "UDP   <- " ++ (decimal n ++ (chars " bytes " ++ host))
  note_text (reply_failed e) = chars "UDP   -- reply to client failed: " ++ io_text e
