-- ===== src/Socks/Tests.antt =====
-- Runs of the handshake, with the cases of the tests in src/socks.rs.
use wiretally.Socks.{unsupported_version}
use wiretally.Socks.Datagram.{fragmented}
use wiretally.Socks.Message.{error_text, datagram_error_text}
use wiretally.Text.{chars}
use wiretally.Prelude.{ℕ, ◌≡◌, refl, List, [], ◌∷◌, ◌++◌, ok, err, none, arith}
use wiretally.Text.{chars, from_utf8_lossy, to_ascii_lowercase, trim_end_matches}
use wiretally.Net.{from_be_bytes}
use wiretally.Stream.{Stream, read_exact, write_all}
use wiretally.Socks.{Command, connect, unsupported_address_type, accept, domain_text}
use wiretally.Socks.Wire.{domain, target_text, target_type, target_body}
use wiretally.Socks.Handshake.{accept_complete, accept-unsupported_address_type}
use wiretally.Socks.Handshake.Sound.{HandshakeRead, accept_sound}

abbrev client : List ℕ → Stream
client bytes = record {
  incoming = bytes;
  arrivals = [];
  ending = none;
  outgoing = [];
  broken = none;
}

abbrev example_com : List ℕ
example_com = 5 ∷ 1 ∷ 0 ∷ 5 ∷ 1 ∷ 0 ∷ 3 ∷ 11 ∷ chars "Example.COM" ++ (1 ∷ 187 ∷ chars "tls")

abbrev answered : Stream
answered = record (client (chars "tls")) { outgoing = 5 ∷ 0 ∷ [] }

abbrev connect_example_com : Command
connect_example_com = connect (record { host = chars "example.com"; port = 443 })

accepts : accept (client example_com) ≡ (ok connect_example_com, answered)
unfolding accept read_exact write_all domain_text from_utf8_lossy to_ascii_lowercase
    trim_end_matches from_be_bytes
accepts = refl

accept_complete_example : accept (client example_com) ≡ (ok connect_example_com, answered)
unfolding accept target_type target_body target_text from_utf8_lossy to_ascii_lowercase
    trim_end_matches from_be_bytes
accept_complete_example =
    accept_complete (client []) (0 ∷ []) (chars "tls") 1 0 1 187 (domain (chars "Example.COM")) refl
      (omega arith) refl

accept_sound_example : HandshakeRead (client example_com) connect_example_com answered
accept_sound_example = accept_sound (client example_com) answered connect_example_com accepts

accept-unsupported_address_type_example :
    accept (client (5 ∷ 1 ∷ 0 ∷ 5 ∷ 1 ∷ 0 ∷ 9 ∷ 1 ∷ 2 ∷ []))
    ≡ (err (unsupported_address_type 9), record (client (1 ∷ 2 ∷ [])) { outgoing = 5 ∷ 0 ∷ [] })
unfolding accept
accept-unsupported_address_type_example =
    accept-unsupported_address_type (client []) (0 ∷ []) (1 ∷ 2 ∷ []) 1 0 9 refl (omega arith)
      (omega arith) (omega arith) refl

error_texts :
    (error_text (λ e. []) (unsupported_version 4) ≡ chars "unsupported socks version 0x04")
    × (datagram_error_text (fragmented 0x1f)
        ≡ chars "fragmented datagram (FRAG 0x1f) is not supported")
unfolding error_text datagram_error_text
error_texts = (refl, refl)
