-- ===== src/Proxy.antt =====
-- src/proxy.rs: the head of an HTTP request and the authority that it names. The connections are in
-- the modules below.
pub mod Authority
mod Blank
pub mod ReadHead
pub mod HeadEnd
pub mod ReadPast
pub mod ConnectHead
pub mod Tunnel
pub mod Splice
pub mod Connector
pub mod Http
pub mod Association
pub mod Tasks
pub mod Serve
mod Tests
use wiretally.Prelude.{
  ℕ, zero, suc, ◌+◌, ◌*◌, not, ◌&&◌, Option, none, some, List, [], ◌∷◌, ◌++◌, length, take, drop,
  Result, ok, err, ltb, ◌==◌, if◌then◌else◌,
}
use wiretally.Text.{
  Text, chars, is_empty, strip_prefix, split_once, rsplit_once, to_ascii_lowercase, from_utf8,
  parse_u16,
}
use wiretally.Stream.{IoError, unexpected_eof, invalid_data, Stream, read}

abbrev pub max_head_bytes : ℕ
max_head_bytes = 64 * 1024

abbrev pub crlf : List ℕ
crlf = 13 ∷ 10 ∷ []

abbrev pub head_mark : List ℕ
head_mark = 13 ∷ 10 ∷ 13 ∷ 10 ∷ []

-- `windows(n).position(|w| w == mark)`, at a start and then one further.
unfoldable pub position_at : Option (List ℕ) → Option ℕ → Option ℕ
position_at (some rest) later = some 0
position_at none none = none
position_at none (some i) = some (suc i)

unfoldable pub position : List ℕ → List ℕ → Option ℕ
unfolding position_at
position mark [] = none
position mark (b ∷ bs) = position_at (strip_prefix mark (b ∷ bs)) (position mark bs)

unfoldable pub find_head_end : List ℕ → Option ℕ
unfolding position
find_head_end buf = elim (position head_mark buf) [ none ↦ none | some i ↦ some (i + 4) ]

-- `map_or_else(Vec::new, |end| head[end..].to_vec())`.
unfoldable pub head_body : List ℕ → List ℕ
unfolding find_head_end
head_body head = elim (find_head_end head) [ none ↦ [] | some end ↦ drop end head ]

-- The next part of `split(' ')`, of what is left of the line.
unfoldable pub next_part : Text → Text
next_part rest = elim (split_once b' ' rest) [ none ↦ rest | some (part, _) ↦ part ]

-- The first two parts of a line, if both are there and not empty.
unfoldable pub method_target : Text → Option (Text × Text)
unfolding next_part
method_target line = elim (split_once b' ' line) [
  | none ↦ none
  | some (method, rest) ↦
      if not (is_empty method) && not (is_empty (next_part rest))
      then some (method, next_part rest)
      else none
]

unfoldable pub request_line : List ℕ → Option (Text × Text)
unfolding position method_target
request_line head = elim (position crlf head) [
  | none ↦ none
  | some line_end ↦ elim (from_utf8 (take line_end head)) [
    | none ↦ none
    | some line ↦ method_target line
  ]
]

-- The port behind a bracketed host.
unfoldable pub tail_port : Text → ℕ → ℕ
tail_port tail default_port = elim (strip_prefix (chars ":") tail) [
  | none ↦ default_port
  | some p ↦ elim (parse_u16 p) [ none ↦ default_port | some port ↦ port ]
]

-- `rest.split_once(']').unwrap_or((rest, ""))`.
unfoldable pub bracketed : Text → Text × Text
bracketed rest = elim (split_once b']' rest) [ none ↦ (rest, []) | some p ↦ p ]

-- The `match authority.rsplit_once(':')`.
unfoldable pub unbracketed : Option (Text × Text) → Text → ℕ → Text × ℕ
unbracketed none authority default_port = (to_ascii_lowercase authority, default_port)
unbracketed (some (host, port)) authority default_port = elim (parse_u16 port) [
  | none ↦ (to_ascii_lowercase authority, default_port)
  | some p ↦ (to_ascii_lowercase host, p)
]

unfoldable pub split_authority : Text → ℕ → Text × ℕ
unfolding tail_port bracketed unbracketed
split_authority authority default_port = elim (strip_prefix (chars "[") authority) [
  | some rest ↦ (to_ascii_lowercase (bracketed rest).0, tail_port (bracketed rest).1 default_port)
  | none ↦ unbracketed (rsplit_once b':' authority) authority default_port
]

-- One round of `read_head`: whether to stop, and with what. `none` is one more round, with the buffer.
unfoldable pub head_round : List ℕ → List ℕ → Option (Result IoError (List ℕ))
unfolding find_head_end
head_round buf [] = if is_empty buf then some (err unexpected_eof) else some (ok buf)
head_round buf (b ∷ chunk) = elim (find_head_end (buf ++ b ∷ chunk)) [
  | some end ↦ some (ok (buf ++ b ∷ chunk))
  | none ↦ if ltb max_head_bytes (length (buf ++ b ∷ chunk)) then some (err invalid_data) else none
]

-- The loop of `read_head`, on fuel; `none` means that the fuel ran out.
unfoldable pub read_head_loop : ℕ → List ℕ → Stream → Option (Result IoError (List ℕ) × Stream)
unfolding head_round
read_head_loop zero buf s = none
read_head_loop (suc fuel) buf s =
    let (r, s') = read 2048 s in
    elim r [
      | err e ↦ some (err e, s')
      | ok chunk ↦ elim (head_round buf chunk) [
        | some result ↦ some (result, s')
        | none ↦ read_head_loop fuel (buf ++ chunk) s'
      ]
    ]

-- A read that goes on takes a byte at least, so one round more than there are bytes is enough.
unfoldable pub read_head : Stream → Option (Result IoError (List ℕ) × Stream)
unfolding read_head_loop
read_head s = read_head_loop (suc (length s.incoming)) [] s
