-- ===== src/Text/Utf8.antt =====
-- `str::from_utf8` and `String::from_utf8_lossy`: one automaton reads the bytes, and an ill-formed
-- sequence is cut where the standard cuts it, after its longest well-formed start.
use wiretally.Prelude.{
  ℕ, zero, suc, ◌+◌, ◌*◌, ◌-◌, ◌<◌, ◌≡◌, refl, ◌&&◌, Option, none, some, List, [], ◌∷◌, ◌++◌, All,
  leb, ltb, lt→ltb, ◌==◌, if◌then◌else◌,
}

-- Between characters, or `k + 1` bytes before the end of one, the next of them in `lo ..= hi`.
pub data Decoder : Type 0 where
  start : Decoder
  inside : (k lo hi acc : ℕ) → Decoder

-- What a byte adds to the text: characters, or the mark of an ill-formed sequence.
pub data Piece : Type 0 where
  char : ℕ → Piece
  bad : Piece

first : ℕ → List Piece × Decoder
first b =
    if ltb b 0x80
    then (char b ∷ [], start)
    else if ltb b 0xC2
    then (bad ∷ [], start)
    else if ltb b 0xE0
    then ([], inside 0 0x80 0xBF (b - 0xC0))
    else if b == 0xE0
    then ([], inside 1 0xA0 0xBF 0)
    else if b == 0xED
    then ([], inside 1 0x80 0x9F 0xD)
    else if ltb b 0xF0
    then ([], inside 1 0x80 0xBF (b - 0xE0))
    else if b == 0xF0
    then ([], inside 2 0x90 0xBF 0)
    else if ltb b 0xF4
    then ([], inside 2 0x80 0xBF (b - 0xF0))
    else if b == 0xF4
    then ([], inside 2 0x80 0x8F 4)
    else (bad ∷ [], start)

next : Decoder → ℕ → List Piece × Decoder
unfolding first
next start b = first b
next (inside zero lo hi acc) b =
    if leb lo b && leb b hi
    then (char (acc * 64 + (b - 0x80)) ∷ [], start)
    else (bad ∷ (first b).0, (first b).1)
next (inside (suc k) lo hi acc) b =
    if leb lo b && leb b hi
    then ([], inside k 0x80 0xBF (acc * 64 + (b - 0x80)))
    else (bad ∷ (first b).0, (first b).1)

pieces : Decoder → List ℕ → List Piece
unfolding next
pieces start [] = []
pieces (inside k lo hi acc) [] = bad ∷ []
pieces d (b ∷ bs) = let (out, d') = next d b in out ++ pieces d' bs

replace : List Piece → List ℕ
replace [] = []
replace (char c ∷ ps) = c ∷ replace ps
replace (bad ∷ ps) = 0xFFFD ∷ replace ps

strict : List Piece → Option (List ℕ)
strict [] = some []
strict (char c ∷ ps) = elim (strict ps) [ none ↦ none | some s ↦ some (c ∷ s) ]
strict (bad ∷ ps) = none

unfoldable pub from_utf8_lossy : List ℕ → List ℕ
unfolding pieces replace
from_utf8_lossy bs = replace (pieces start bs)

unfoldable pub from_utf8 : List ℕ → Option (List ℕ)
unfolding pieces strict
from_utf8 bs = strict (pieces start bs)

-- ASCII bytes are their own text.
pub from_utf8_lossy-ascii : (bs : List ℕ) → All (λ b. b < 0x80) bs → from_utf8_lossy bs ≡ bs
unfolding from_utf8_lossy next first
from_utf8_lossy-ascii [] h = refl
from_utf8_lossy-ascii (b ∷ bs) h = rw (lt→ltb b 0x80 h.0, from_utf8_lossy-ascii bs h.1)

pub from_utf8-ascii : (bs : List ℕ) → All (λ b. b < 0x80) bs → from_utf8 bs ≡ some bs
unfolding from_utf8 next first
from_utf8-ascii [] h = refl
from_utf8-ascii (b ∷ bs) h = rw (lt→ltb b 0x80 h.0, from_utf8-ascii bs h.1)

two_byte_sequence : from_utf8_lossy (0x63 ∷ 0xC3 ∷ 0xA9 ∷ []) ≡ 0x63 ∷ 0xE9 ∷ []
unfolding from_utf8_lossy next first
two_byte_sequence = refl

cut_sequence : from_utf8_lossy (0xE2 ∷ 0x82 ∷ 0x41 ∷ 0xFF ∷ []) ≡ 0xFFFD ∷ 0x41 ∷ 0xFFFD ∷ []
unfolding from_utf8_lossy next first
cut_sequence = refl
