-- ===== src/Socks/Datagram/Tests.antt =====
-- Runs of the relay header's functions, with the cases of the tests in src/socks.rs.
use wiretally.Prelude.{ℕ, ◌≡◌, refl, List, [], ◌∷◌, ◌++◌, ok, err, arith}
use wiretally.Text.{chars, from_utf8_lossy, to_ascii_lowercase, trim_end_matches}
use wiretally.Net.{v4, SocketAddr, ip_text, from_be_bytes}
use wiretally.Socks.{domain_text}
use wiretally.Socks.Wire.{domain, target_text}
use wiretally.Socks.Datagram.{
  Datagram, truncated, fragmented, unsupported_address_type, parse_datagram, encode_datagram,
}
use wiretally.Socks.Datagram.Grammar.{
  Reads, client_datagram, parse_datagram_complete, parse_datagram_sound,
  parse_datagram-encode_datagram,
}

abbrev source : SocketAddr
source = record { ip = v4 (203 ∷ 0 ∷ 113 ∷ 9 ∷ []); port = 53 }

abbrev to_example_com : List ℕ
to_example_com = 0 ∷ 0 ∷ 0 ∷ 3 ∷ 11 ∷ (chars "Example.COM") ++ (1 ∷ 187 ∷ chars "hi")

abbrev for_example_com : Datagram
for_example_com = record { host = chars "example.com"; port = 443; payload = chars "hi" }

rejects :
    (parse_datagram (0 ∷ 0 ∷ 1 ∷ 1 ∷ 1 ∷ 2 ∷ 3 ∷ 4 ∷ 0 ∷ 53 ∷ []) ≡ err (fragmented 1))
    × (parse_datagram (0 ∷ 0 ∷ []) ≡ err truncated)
    × (parse_datagram (0 ∷ 0 ∷ 0 ∷ 1 ∷ 1 ∷ 2 ∷ []) ≡ err truncated)
    × (parse_datagram (0 ∷ 0 ∷ 0 ∷ 9 ∷ 1 ∷ 2 ∷ []) ≡ err (unsupported_address_type 9))
unfolding parse_datagram
rejects = (refl, refl, refl, refl)

accepts : parse_datagram to_example_com ≡ ok for_example_com
unfolding parse_datagram domain_text from_utf8_lossy to_ascii_lowercase trim_end_matches
    from_be_bytes
accepts = refl

parse_datagram_complete_example :
    parse_datagram (client_datagram 0 0 (domain (chars "Example.COM")) (1 ∷ 187 ∷ []) (chars "hi"))
    ≡ ok for_example_com
unfolding target_text from_utf8_lossy to_ascii_lowercase trim_end_matches from_be_bytes
parse_datagram_complete_example =
    parse_datagram_complete 0 0 1 187 (domain (chars "Example.COM")) (chars "hi") (omega arith)

parse_datagram_sound_example : Reads to_example_com for_example_com
parse_datagram_sound_example =
    parse_datagram_sound to_example_com for_example_com (omega arith) accepts

parse_datagram-encode_datagram_example :
    parse_datagram (encode_datagram source (chars "answer") (1 ∷ 2 ∷ []))
    ≡ ok (record { host = chars "203.0.113.9"; port = 53; payload = chars "answer" })
unfolding ip_text
parse_datagram-encode_datagram_example =
    parse_datagram-encode_datagram source (chars "answer") (1 ∷ 2 ∷ []) (omega arith)
