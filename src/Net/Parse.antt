-- ===== src/Net/Parse.antt =====
-- `IpAddr::from_str`: the standard's parser of IPv4 and IPv6 addresses. A reader takes a front of the
-- text and gives the rest back, or fails and takes nothing.
use wiretally.Prelude.{
  ℕ, zero, suc, ◌+◌, ◌-◌, ◌*◌, ◌/◌, ◌%◌, Bool, true, false, not, ◌&&◌, ◌||◌, Option, none, some,
  List, [], ◌∷◌, ◌++◌, leb, ltb, ◌==◌, if◌then◌else◌,
}
use wiretally.Text.{Text}

-- `char::to_digit`.
unfoldable pub to_digit : ℕ → ℕ → Option ℕ
to_digit radix c =
    if leb b'0' c && leb c b'9'
    then some (c - b'0')
    else if ltb 10 radix && leb b'a' c && leb c b'f'
    then some (c - 87)
    else if ltb 10 radix && leb b'A' c && leb c b'F'
    then some (c - 55)
    else none

-- The loop of `read_number`: the value, the count of digits and the rest; `none` is a digit too many.
unfoldable pub read_digits : ℕ → ℕ → ℕ → ℕ → Text → Option (ℕ × ℕ × Text)
unfolding to_digit
read_digits radix most acc count [] = some (acc, count, [])
read_digits radix most acc count (c ∷ s) = elim (to_digit radix c) [
  | none ↦ some (acc, count, c ∷ s)
  | some d ↦
      if ltb most (count + 1) then none else read_digits radix most (acc * radix + d) (count + 1) s
]

abbrev pub starts_with_zero : Text → Bool
starts_with_zero [] = false
starts_with_zero (c ∷ s) = c == b'0'

-- `read_number`, into a type with values below `limit`.
unfoldable pub read_number : ℕ → ℕ → Bool → ℕ → Text → Option (ℕ × Text)
unfolding read_digits
read_number radix most zero_prefix limit s = elim (read_digits radix most 0 0 s) [
  | none ↦ none
  | some (value, count, rest) ↦
      if count == 0 || (not zero_prefix && starts_with_zero s && ltb 1 count) || leb limit value
      then none
      else some (value, rest)
]

unfoldable pub read_given_char : ℕ → Text → Option Text
read_given_char c [] = none
read_given_char c (d ∷ s) = if d == c then some s else none

-- `read_separator`: nothing in front of the first item.
unfoldable pub read_separator : ℕ → ℕ → Text → Option Text
unfolding read_given_char
read_separator sep zero s = some s
read_separator sep (suc i) s = read_given_char sep s

unfoldable pub read_octet : ℕ → Text → Option (ℕ × Text)
unfolding read_separator read_number
read_octet i s = elim (read_separator b'.' i s) [
  | none ↦ none
  | some rest ↦ read_number 10 3 false 256 rest
]

-- The octets from the `i`th, as many as `left`.
unfoldable pub read_octets : ℕ → ℕ → Text → Option (List ℕ × Text)
unfolding read_octet
read_octets zero i s = some ([], s)
read_octets (suc left) i s = elim (read_octet i s) [
  | none ↦ none
  | some (o, rest) ↦ elim (read_octets left (i + 1) rest) [
    | none ↦ none
    | some (os, rest') ↦ some (o ∷ os, rest')
  ]
]

unfoldable pub read_v4 : Text → Option (List ℕ × Text)
unfolding read_octets
read_v4 s = read_octets 4 0 s

unfoldable pub read_group : ℕ → Text → Option (ℕ × Text)
unfolding read_separator read_number
read_group i s = elim (read_separator b':' i s) [
  | none ↦ none
  | some rest ↦ read_number 16 4 true 65536 rest
]

-- An embedded IPv4 address, where two groups are left at least.
unfoldable pub read_embedded : ℕ → ℕ → Text → Option (List ℕ × Text)
unfolding read_separator read_v4
read_embedded left i s =
    if ltb left 2
    then none
    else elim (read_separator b':' i s) [ none ↦ none | some rest ↦ read_v4 rest ]

-- `read_groups`, the groups as octets: how many groups were read, whether by an IPv4 address at the
-- end, and the rest.
pub record Groups : Type 0 where
  pub octets : List ℕ
  pub size : ℕ
  pub embedded : Bool
  pub rest : Text

unfoldable pub read_groups : ℕ → ℕ → Text → Groups
unfolding read_embedded read_group
read_groups zero i s = record { octets = []; size = 0; embedded = false; rest = s }
read_groups (suc left) i s = elim (read_embedded (suc left) i s) [
  | some (os, rest) ↦ record { octets = os; size = 2; embedded = true; rest = rest }
  | none ↦ elim (read_group i s) [
    | none ↦ record { octets = []; size = 0; embedded = false; rest = s }
    | some (g, rest) ↦
        let later = read_groups left (i + 1) rest in
        record later { octets = g / 256 ∷ g % 256 ∷ later.octets; size = later.size + 1 }
  ]
]

unfoldable pub zeros : ℕ → List ℕ
zeros zero = []
zeros (suc n) = 0 ∷ zeros n

-- What stands behind `::`.
unfoldable pub read_tail : Groups → Text → Option (List ℕ × Text)
unfolding read_groups zeros
read_tail head s =
    let tail = read_groups (7 - head.size) 0 s in
    some (head.octets ++ (zeros (2 * (8 - head.size - tail.size)) ++ tail.octets), tail.rest)

unfoldable pub read_v6 : Text → Option (List ℕ × Text)
unfolding read_groups read_given_char read_tail
read_v6 s =
    let head = read_groups 8 0 s in
    if head.size == 8
    then some (head.octets, head.rest)
    else if head.embedded
    then none
    else elim (read_given_char b':' head.rest) [
      | none ↦ none
      | some rest ↦ elim (read_given_char b':' rest) [
        | none ↦ none
        | some rest' ↦ read_tail head rest'
      ]
    ]
