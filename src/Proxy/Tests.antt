-- ===== src/Proxy/Tests.antt =====
-- Runs of the request head's functions, with the cases of the tests in src/proxy.rs.
use wiretally.Prelude.{◌≡◌, refl, ℕ, none, some, List, [], ◌∷◌, ◌++◌, arith}
use wiretally.Text.{
  chars, is_empty, strip_prefix, split_once, rsplit_once, to_ascii_lowercase, from_utf8, parse_u16,
  decimal,
}
use wiretally.Stream.{Stream}
use wiretally.Proxy.{request_line, head_body, split_authority, read_head, head_mark}
use wiretally.Proxy.Authority.{split_authority_port, split_authority_bracketed}
use wiretally.Proxy.Blank.{HeadReturned, read_head-HeadReturned}

abbrev connect_head : List ℕ
connect_head = chars "CONNECT a:443 HTTP/1.1" ++ head_mark

request_line_cases :
    (request_line connect_head ≡ some (chars "CONNECT", chars "a:443"))
    × (request_line (chars "garbage") ≡ none)
unfolding request_line from_utf8 split_once is_empty strip_prefix
request_line_cases = (refl, refl)

head_body_cases :
    (head_body (connect_head ++ chars "EXTRA") ≡ chars "EXTRA") × (head_body connect_head ≡ [])
unfolding head_body strip_prefix
head_body_cases = (refl, refl)

split_authority_cases :
    (split_authority (chars "Example.COM:8443") 80 ≡ (chars "example.com", 8443))
    × (split_authority (chars "example.com") 80 ≡ (chars "example.com", 80))
    × (split_authority (chars "[2001:db8::1]:443") 80 ≡ (chars "2001:db8::1", 443))
    × (split_authority (chars "[2001:db8::1]") 80 ≡ (chars "2001:db8::1", 80))
unfolding split_authority strip_prefix split_once rsplit_once to_ascii_lowercase parse_u16
split_authority_cases = (refl, refl, refl, refl)

split_authority_port_example :
    split_authority (chars "Example.COM" ++ b':' ∷ decimal 8443) 80
    ≡ (to_ascii_lowercase (chars "Example.COM"), 8443)
unfolding strip_prefix
split_authority_port_example = split_authority_port (chars "Example.COM") 8443 80 refl (omega arith)

split_authority_bracketed_example :
    (split_authority (b'[' ∷ (chars "::1" ++ b']' ∷ b':' ∷ decimal 443)) 80
      ≡ (to_ascii_lowercase (chars "::1"), 443))
    × (split_authority (b'[' ∷ (chars "::1" ++ b']' ∷ [])) 80
        ≡ (to_ascii_lowercase (chars "::1"), 80))
split_authority_bracketed_example =
    split_authority_bracketed (chars "::1") 443 80 (omega arith, (omega arith, (omega arith, tt)))
      (omega arith)

-- The head arrives in three pieces, with the first bytes of the tunnel behind it.
abbrev pipelined : Stream
pipelined = record {
  incoming = connect_head ++ chars "EXTRA";
  arrivals = 5 ∷ 20 ∷ 4 ∷ [];
  ending = none;
  outgoing = [];
  broken = none;
}

read_head-HeadReturned_example :
    HeadReturned (connect_head ++ chars "EXTRA") none (read_head pipelined)
read_head-HeadReturned_example = read_head-HeadReturned pipelined
