-- ===== src/Net/Display.antt =====
-- How the standard prints an address: dotted decimals, and the groups of RFC 5952.
use wiretally.Prelude.{
  ℕ, ◌+◌, ◌*◌, ◌≡◌, refl, Bool, true, ◌&&◌, List, [], ◌∷◌, ◌++◌, map, take, drop, ltb, ◌==◌,
  if◌then◌else◌,
}
use wiretally.Text.{Text, chars, decimal, hex}

-- The texts with a separator between them.
join : ℕ → List Text → Text
join sep [] = []
join sep (t ∷ []) = t
join sep (t ∷ u ∷ ts) = t ++ sep ∷ join sep (u ∷ ts)

unfoldable pub v4_text : List ℕ → Text
unfolding join decimal
v4_text os = join b'.' (map decimal os)

segments : List ℕ → List ℕ
segments (a ∷ b ∷ os) = (a * 256 + b) ∷ segments os
segments _ = []

pub record Span : Type 0 where
  pub start : ℕ
  pub len : ℕ

-- The longest run of zero groups; of two equal ones the first. `i` counts the groups read.
longest_zeros : ℕ → Span → Span → List ℕ → Span
longest_zeros i current longest [] = longest
longest_zeros i current longest (g ∷ gs) =
    let grown : Span = record {
      start = if current.len == 0 then i else current.start;
      len = current.len + 1;
    } in
    let current' : Span = if g == 0 then grown else record { start = 0; len = 0 } in
    let longest' : Span = if ltb longest.len current'.len then current' else longest in
    longest_zeros (i + 1) current' longest' gs

all_zero : List ℕ → Bool
all_zero [] = true
all_zero (o ∷ os) = o == 0 && all_zero os

all_255 : List ℕ → Bool
all_255 [] = true
all_255 (o ∷ os) = o == 255 && all_255 os

-- `::ffff:a.b.c.d`, the addresses that stand for an IPv4 one.
is_mapped : List ℕ → Bool
unfolding all_zero all_255
is_mapped os = all_zero (take 10 os) && all_255 (take 2 (drop 10 os))

groups_text : List ℕ → Text
unfolding join hex
groups_text gs = join b':' (map hex gs)

compressed : List ℕ → Span → Text
unfolding groups_text
compressed gs zeros =
    if ltb 1 zeros.len
    then groups_text (take zeros.start gs)
      ++ (chars "::" ++ groups_text (drop (zeros.start + zeros.len) gs))
    else groups_text gs

unfoldable pub v6_text : List ℕ → Text
unfolding is_mapped v4_text compressed longest_zeros segments
v6_text os =
    let zeros =
      longest_zeros 0 (record { start = 0; len = 0 }) (record { start = 0; len = 0 })
        (segments os) in
    if is_mapped os then chars "::ffff:" ++ v4_text (drop 12 os) else compressed (segments os) zeros

v4_prints : v4_text (203 ∷ 0 ∷ 113 ∷ 9 ∷ []) ≡ chars "203.0.113.9"
unfolding v4_text
v4_prints = refl

v6_prints :
    v6_text (0x20 ∷ 1 ∷ 0xd ∷ 0xb8 ∷ 0 ∷ 0 ∷ 0 ∷ 0 ∷ 0 ∷ 0 ∷ 0 ∷ 0 ∷ 0 ∷ 0 ∷ 0 ∷ 1 ∷ [])
    ≡ chars "2001:db8::1"
unfolding v6_text
v6_prints = refl

v6_loopback :
    v6_text (0 ∷ 0 ∷ 0 ∷ 0 ∷ 0 ∷ 0 ∷ 0 ∷ 0 ∷ 0 ∷ 0 ∷ 0 ∷ 0 ∷ 0 ∷ 0 ∷ 0 ∷ 1 ∷ []) ≡ chars "::1"
unfolding v6_text
v6_loopback = refl
