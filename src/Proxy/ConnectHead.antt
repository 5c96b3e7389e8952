-- ===== src/Proxy/ConnectHead.antt =====
-- The head of a `CONNECT` request: its first line, where it ends, and what `request_line` makes of it.
use wiretally.Prelude.{
  ℕ, ◌+◌, ◌<◌, ◌≡◌, ◌≢◌, refl, ap, ◌∙◌, false, some, List, [], ◌∷◌, ◌++◌, append_assoc, length,
  take, take-append, All, append-All, All-map, arith,
}
use wiretally.Text.{
  Text, chars, decimal, is_empty, strip_prefix, split_once_first, from_utf8, from_utf8-ascii,
  IsDigit, decimal-IsDigit,
}
use wiretally.Proxy.{crlf, position, find_head_end, next_part, method_target, request_line}
use wiretally.Proxy.HeadEnd.{IsLine, head_of, position-past, find_head_end-head_of}

-- A visible ASCII character.
abbrev pub IsVisible : ℕ → Type 0
IsVisible c = (32 < c) × (c < 127)

-- `CONNECT target version`.
abbrev pub connect_line : Text → Text → Text
connect_line target version = chars "CONNECT" ++ b' ' ∷ (target ++ b' ' ∷ version)

abbrev IsLineChar : ℕ → Type 0
IsLineChar c = (c ≢ 13) × (c < 0x80)

IsVisible-IsLineChar : (s : Text) → All IsVisible s → All IsLineChar s
IsVisible-IsLineChar s h = All-map IsVisible IsLineChar s (λ c v. omega (arith, v)) h

connect_line-IsLineChar :
    (target version : Text)
    → All IsVisible target
    → All IsVisible version
    → All IsLineChar (connect_line target version)
connect_line-IsLineChar target version h k =
    append-All IsLineChar (chars "CONNECT ") (target ++ b' ' ∷ version) (omega arith) (
      append-All IsLineChar target (b' ' ∷ version) (IsVisible-IsLineChar target h)
        (omega arith, IsVisible-IsLineChar version k))

method_target-connect_line :
    (target version : Text)
    → All IsVisible target
    → is_empty target ≡ false
    → method_target (connect_line target version) ≡ some (chars "CONNECT", target)
unfolding method_target next_part is_empty
method_target-connect_line target version h long =
    let spaced = All-map IsVisible (λ x. x ≢ b' ') target (λ x v. omega (arith, v)) h in
    let first = split_once_first b' ' (chars "CONNECT") (target ++ b' ' ∷ version) (omega arith) in
    let second = split_once_first b' ' target version spaced in
    rw (method_target, first, next_part, second, long) refl

-- The bytes up to the first line end, as a line of ASCII characters.
position-crlf :
    (line rest : List ℕ)
    → All IsLineChar line
    → (position crlf (line ++ (crlf ++ rest)) ≡ some (length line + 0))
      × (take (length line + 0) (line ++ (crlf ++ rest)) ≡ line)
      × (from_utf8 line ≡ some line)
unfolding strip_prefix position
position-crlf line rest h = (
  position-past 13 (10 ∷ []) line (crlf ++ rest) 0
      (All-map IsLineChar (λ b. b ≢ 13) line (λ b v. v.0) h) refl,
  take-append line (crlf ++ rest) (length line + 0) (omega arith),
  from_utf8-ascii line (All-map IsLineChar (λ b. b < 0x80) line (λ b v. v.1) h),
)

pub request_line-connect_line :
    (target version : Text) (fields : List (List ℕ)) (q : List ℕ)
    → All IsVisible target
    → All IsVisible version
    → is_empty target ≡ false
    → request_line (head_of (connect_line target version ∷ fields) ++ q)
      ≡ some (chars "CONNECT", target)
unfolding request_line
request_line-connect_line target version fields q h k long =
    let line = connect_line target version in
    let (e, front, text) =
      position-crlf line (head_of fields ++ q) (connect_line-IsLineChar target version h k) in
    ap request_line (append_assoc line (crlf ++ head_of fields) q)
    ∙ rw (request_line, e, front, text) (method_target-connect_line target version h long)

-- The head of a request to CONNECT to a host and a port, with some fields.
abbrev pub connect_head : Text → ℕ → Text → List (List ℕ) → List ℕ
connect_head host port version fields =
    head_of (connect_line (host ++ b':' ∷ decimal port) version ∷ fields)

pub target-IsVisible :
    (host : Text) (port : ℕ) → All IsVisible host → All IsVisible (host ++ b':' ∷ decimal port)
target-IsVisible host port h = append-All IsVisible host (b':' ∷ decimal port) h (
  omega arith,
  All-map IsDigit IsVisible (decimal port) (λ c d. omega (arith, d)) (decimal-IsDigit port),
)

pub is_empty-target : (host : Text) (port : ℕ) → is_empty (host ++ b':' ∷ decimal port) ≡ false
unfolding is_empty
is_empty-target [] port = refl
is_empty-target (c ∷ host) port = refl

pub find_head_end-connect_head :
    (host version : Text) (port : ℕ) (fields : List (List ℕ))
    → All IsVisible host
    → All IsVisible version
    → All IsLine fields
    → (p : List ℕ)
    → find_head_end (connect_head host port version fields ++ p)
      ≡ some (length (connect_head host port version fields))
find_head_end-connect_head host version port fields h v ls p =
    let t = host ++ b':' ∷ decimal port in
    find_head_end-head_of (connect_line t version) fields p
      (All-map IsLineChar (λ b. b ≢ 13) (connect_line t version) (λ b v. v.0)
        (connect_line-IsLineChar t version (target-IsVisible host port h) v))
      ls
