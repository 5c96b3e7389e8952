-- ===== src/Proxy/HeadEnd.antt =====
-- Where the head of a request ends: the first blank line, in all bytes as in any front of them that holds it.
use wiretally.Prelude.{
  ℕ, suc, ◌+◌, ◌<◌, ◌≤◌, ◌≡◌, ◌≢◌, refl, ap, sym, ◌∙◌, none, some, List, [], ◌∷◌, ◌++◌,
  append_assoc, length, length-append, All, Option-cases, inl, inr, ne→==-false, arith,
}
use wiretally.Text.{strip_prefix}
use wiretally.Proxy.{crlf, head_mark, position_at, position, find_head_end}

-- A line of a head: not empty, and without the byte that ends it.
abbrev pub IsLine : List ℕ → Type 0
IsLine l = (0 < length l) × All (λ b. b ≢ 13) l

-- A head of some lines.
abbrev pub head_of : List (List ℕ) → List ℕ
head_of [] = crlf
head_of (l ∷ ls) = l ++ (crlf ++ head_of ls)

strip_prefix-append :
    (mark xs ys rest : List ℕ)
    → strip_prefix mark xs ≡ some rest
    → (strip_prefix mark (xs ++ ys) ≡ some (rest ++ ys)) × (length mark ≤ length xs)
unfolding strip_prefix
strip_prefix-append [] xs ys rest h = ground arith
strip_prefix-append (m ∷ mark) [] ys rest h = ground arith
strip_prefix-append (m ∷ mark) (x ∷ xs) ys rest h =
    ground (arith, strip_prefix-append mark xs ys rest)

strip_prefix-none :
    (mark xs ys : List ℕ)
    → strip_prefix mark xs ≡ none
    → length mark ≤ length xs
    → strip_prefix mark (xs ++ ys) ≡ none
unfolding strip_prefix
strip_prefix-none [] xs ys h e = ground arith
strip_prefix-none (m ∷ mark) [] ys h e = absurd (omega arith)
strip_prefix-none (m ∷ mark) (x ∷ xs) ys h e = ground (arith, strip_prefix-none mark xs ys)

-- A mark that is found is found at the same position when more bytes follow.
pub position-append :
    (mark xs ys : List ℕ) (i : ℕ)
    → position mark xs ≡ some i
    → (position mark (xs ++ ys) ≡ some i) × (i + length mark ≤ length xs)
unfolding position position_at
position-append mark [] ys i h = ground arith
position-append mark (x ∷ xs) ys i h = elim (Option-cases (strip_prefix mark (x ∷ xs))) [
  | inr (rest, e) ↦ ground (arith, e, strip_prefix-append mark (x ∷ xs) ys rest e)
  | inl e ↦ elim (Option-cases (position mark xs)) [
    | inl k ↦ ground (arith, e, k)
    | inr (j, k) ↦
        let (later, bound) = position-append mark xs ys j k in
        ground (arith, e, k, later, strip_prefix-none mark (x ∷ xs) ys e)
  ]
]

-- Bytes without the mark's first in front of it.
pub position-past :
    (m : ℕ) (mark xs ys : List ℕ) (i : ℕ)
    → All (λ b. b ≢ m) xs
    → position (m ∷ mark) ys ≡ some i
    → position (m ∷ mark) (xs ++ ys) ≡ some (length xs + i)
unfolding position position_at strip_prefix
position-past m mark [] ys i h e = ground (arith, e)
position-past m mark (x ∷ xs) ys i (hx, h) e =
    rw (ne→==-false m x (λ k. hx (sym k)), position-past m mark xs ys i h e) (ap some (omega arith))

-- A line's end that is no blank line.
past_crlf :
    (y : ℕ) (zs : List ℕ) (i : ℕ)
    → y ≢ 13
    → position head_mark (y ∷ zs) ≡ some i
    → position head_mark (13 ∷ 10 ∷ y ∷ zs) ≡ some (suc (suc i))
unfolding position position_at strip_prefix
past_crlf y zs i h e = ground (arith, e, ne→==-false 13 y (λ k. h (sym k)))

-- The blank line behind the lines of a head is the first.
position-head_of :
    (l : List ℕ) (ls : List (List ℕ)) (p : List ℕ)
    → All (λ b. b ≢ 13) l
    → All IsLine ls
    → (i : ℕ) × (position head_mark (head_of (l ∷ ls) ++ p) ≡ some i)
      × (i + 4 ≡ length (head_of (l ∷ ls)))
unfolding position position_at strip_prefix
position-head_of l [] p h hs = (
  length l + 0,
  ap (position head_mark) (append_assoc l head_mark p)
      ∙ position-past 13 (10 ∷ 13 ∷ 10 ∷ []) l (head_mark ++ p) 0 h refl,
  omega (arith, length-append l head_mark),
)
position-head_of l ([] ∷ ls) p h ((long, hm), hs) = absurd (omega arith)
position-head_of l ((y ∷ m) ∷ ls) p h ((long, (hy, hm)), hs) =
    let (i, e, k) = position-head_of (y ∷ m) ls p (hy, hm) hs in
    (
      length l + suc (suc i),
      ap (position head_mark) (append_assoc l (13 ∷ 10 ∷ head_of ((y ∷ m) ∷ ls)) p)
          ∙ position-past 13 (10 ∷ 13 ∷ 10 ∷ []) l (13 ∷ 10 ∷ (head_of ((y ∷ m) ∷ ls) ++ p)) _ h
              (past_crlf y ((m ++ (crlf ++ head_of ls)) ++ p) i hy e),
      omega (arith, length-append l (13 ∷ 10 ∷ head_of ((y ∷ m) ∷ ls)), k),
    )

-- The length of a head, however many bytes follow it.
pub find_head_end-head_of :
    (l : List ℕ) (ls : List (List ℕ)) (p : List ℕ)
    → All (λ b. b ≢ 13) l
    → All IsLine ls
    → find_head_end (head_of (l ∷ ls) ++ p) ≡ some (length (head_of (l ∷ ls)))
unfolding find_head_end
find_head_end-head_of l ls p h hs =
    let (i, e, k) = position-head_of l ls p h hs in rw (find_head_end, e) (ap some k)

pub find_head_end-append :
    (xs ys : List ℕ) (end : ℕ)
    → find_head_end xs ≡ some end
    → (find_head_end (xs ++ ys) ≡ some end) × (end ≤ length xs)
unfolding find_head_end
find_head_end-append xs ys end h = elim (Option-cases (position head_mark xs)) [
  | inl e ↦ ground (arith, e)
  | inr (i, e) ↦ ground (arith, e, position-append head_mark xs ys i e)
]
