-- ===== src/Proxy/Blank.antt =====
-- What `read_head` returns, by the blank line that its bytes hold.
use wiretally.Prelude.{
  ℕ, suc, ◌+◌, ◌≤◌, ◌<◌, ◌≡◌, ◌⊎◌, inl, inr, refl, ap, ◌∙◌, Option, none, some, Option-cases, List,
  [], ◌∷◌, ◌++◌, length, Result, ok, err, arith,
}
use wiretally.Text.{strip_prefix}
use wiretally.Stream.{IoError, invalid_data, unexpected_eof, Stream}
use wiretally.Proxy.{head_mark, position_at, position, find_head_end, read_head}
use wiretally.Proxy.ReadHead.{HeadRead, read_head-HeadRead}

-- Somewhere two line ends, CR LF, follow each other.
abbrev pub HasBlankLine : List ℕ → Type 0
HasBlankLine bytes = (before behind : List ℕ) × (bytes ≡ before ++ 13 ∷ 10 ∷ 13 ∷ 10 ∷ behind)

strip_prefix-front : (mark xs rest : List ℕ) → strip_prefix mark xs ≡ some rest → xs ≡ mark ++ rest
unfolding strip_prefix
strip_prefix-front [] xs rest h = ground (arith, h)
strip_prefix-front (m ∷ mark) [] rest h = ground (arith, h)
strip_prefix-front (m ∷ mark) (x ∷ xs) rest h = ground (arith, h, strip_prefix-front mark xs rest)

position_found : (xs : List ℕ) (i : ℕ) → position head_mark xs ≡ some i → HasBlankLine xs
unfolding position position_at
position_found [] i h = ground (arith, h)
position_found (x ∷ xs) i h = elim (Option-cases (strip_prefix head_mark (x ∷ xs))) [
  | inr (rest, e) ↦ ([], rest, strip_prefix-front head_mark (x ∷ xs) rest e)
  | inl e ↦ elim (Option-cases (position head_mark xs)) [
    | inl k ↦ absurd (ground (arith, h, e, k))
    | inr (j, k) ↦
        let (before, behind, front) = position_found xs j k in
        (x ∷ before, behind, ap (λ l. x ∷ l) front)
  ]
]

position_there :
    (before behind : List ℕ)
    → (i : ℕ) × (position head_mark (before ++ 13 ∷ 10 ∷ 13 ∷ 10 ∷ behind) ≡ some i)
unfolding position position_at strip_prefix
position_there [] behind = (0, refl)
position_there (b ∷ before) behind =
    let (i, e) = position_there before behind in
    let more = before ++ 13 ∷ 10 ∷ 13 ∷ 10 ∷ behind in
    elim (Option-cases (strip_prefix head_mark (b ∷ more))) [
      | inl k ↦
          (suc i, ap (λ o. position_at o (position head_mark more)) k ∙ ap (position_at none) e)
      | inr (rest, k) ↦ (0, ap (λ o. position_at o (position head_mark more)) k)
    ]

find_head_end-HasBlankLine : (xs : List ℕ) (end : ℕ) → find_head_end xs ≡ some end → HasBlankLine xs
unfolding find_head_end
find_head_end-HasBlankLine xs end h = elim (Option-cases (position head_mark xs)) [
  | inl e ↦ absurd (ground (arith, h, e))
  | inr (i, e) ↦ position_found xs i e
]

no_head_end : (xs : List ℕ) → find_head_end xs ≡ none → HasBlankLine xs → ⊥
unfolding find_head_end
no_head_end xs h (before, behind, e) =
    let (i, k) = position_there before behind in ground (arith, h, ap (position head_mark) e ∙ k)

-- What `read_head` may return of the bytes `all`, on a stream that ends in `ending`.
abbrev pub HeadReturned :
    List ℕ → Option IoError → Option (Result IoError (List ℕ) × Stream) → Type 0
HeadReturned all ending none = ⊥
HeadReturned all ending (some (ok head, s)) =
    (all ≡ head ++ s.incoming)
    × (length head ≤ 65536 + 2048)
    × (HasBlankLine head
        ⊎ ((0 < length head) × (s.incoming ≡ []) × (ending ≡ none) × (HasBlankLine head → ⊥)))
HeadReturned all ending (some (err e, s)) =
    ((e ≡ invalid_data)
      × ((front rest : List ℕ) × (all ≡ front ++ rest)
          × (HasBlankLine front → ⊥)
          × (65536 < length front)))
    ⊎ ((e ≡ unexpected_eof) × (all ≡ []) × (ending ≡ none))
    ⊎ ((ending ≡ some e) × (HasBlankLine all → ⊥))

HeadRead-HeadReturned :
    (all : List ℕ) (ending : Option IoError) (x : Option (Result IoError (List ℕ) × Stream))
    → HeadRead all ending x
    → HeadReturned all ending x
HeadRead-HeadReturned all ending none h = h
HeadRead-HeadReturned all ending (some (ok head, s)) (e, small, inl (end, found)) =
    (e, small, inl (find_head_end-HasBlankLine head end found))
HeadRead-HeadReturned all ending (some (ok head, s))
      (e, small, inr (long, over, closed, open_yet)) =
    (e, small, inr (long, over, closed, no_head_end head open_yet))
HeadRead-HeadReturned all ending (some (err e, s)) (inl (same, (front, rest, f, open_yet, large))) =
    inl (same, (front, rest, f, no_head_end front open_yet, large))
HeadRead-HeadReturned all ending (some (err e, s)) (inr (inl h)) = inr (inl h)
HeadRead-HeadReturned all ending (some (err e, s)) (inr (inr (ends, open_yet))) =
    inr (inr (ends, no_head_end all open_yet))

-- `read_head` returns, whatever the sizes of the pieces that arrive. A head that it returns is the
-- front of what the client sent, with the rest left unread, has at most 2048 bytes more than the
-- limit of 65536, and holds a blank line, CR LF CR LF, unless the client closed the connection before
-- one, with some bytes sent. It fails as invalid data only if more than 65536 bytes came without a
-- blank line, with an unexpected end only if no byte was sent, and with the error that ended the
-- stream only if all bytes came without a blank line.
pub read_head-HeadReturned : (s : Stream) → HeadReturned s.incoming s.ending (read_head s)
read_head-HeadReturned s =
    HeadRead-HeadReturned s.incoming s.ending (read_head s) (read_head-HeadRead s)
