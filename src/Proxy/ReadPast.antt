-- ===== src/Proxy/ReadPast.antt =====
-- `read_head` on a request whose head is not too large: the head is read, and a front of what follows.
use wiretally.Prelude.{
  ℕ, ◌<◌, ◌≤◌, ◌≡◌, refl, ap, sym, Option, none, some, List, [], ◌∷◌, ◌++◌, length, length-append,
  inl, inr, Result, ok, err, arith, Bool-cases, ltb, ltb→lt, ltb-false,
}
use mathlib.Core.Path.{ap₂}
use wiretally.Stream.{IoError, Stream}
use wiretally.Proxy.{max_head_bytes, find_head_end}
use wiretally.Proxy.HeadEnd.{find_head_end-append}
use wiretally.Proxy.ReadHead.{HeadRead}

-- What a front of `h ++ p` that is no shorter than `h` holds.
front-append :
    (h p xs ys : List ℕ)
    → xs ++ ys ≡ h ++ p
    → length h ≤ length xs
    → (q : List ℕ) × (xs ≡ h ++ q) × (q ++ ys ≡ p)
front-append [] p xs ys e k = (xs, refl, e)
front-append (b ∷ h) p [] ys e k = absurd (omega arith)
front-append (b ∷ h) p (x ∷ xs) ys e k =
    let tails : xs ++ ys ≡ h ++ p = ground arith in
    let (q, f, g) = front-append h p xs ys tails (omega arith) in
    let heads : x ≡ b = ground arith in (q, ap₂ (λ z zs. z ∷ zs) heads f, g)

-- What is read of a request whose head is not too large: the head, and a front of what follows it.
abbrev pub ReadPast : List ℕ → List ℕ → Stream → Option (Result IoError (List ℕ) × Stream) → Type 0
ReadPast head payload s x =
    (q : List ℕ) × (s' : Stream) × (x ≡ some (ok (head ++ q), s')) × (q ++ s'.incoming ≡ payload)

ends_within :
    (head payload xs ys : List ℕ) (end : ℕ)
    → ((p : List ℕ) → find_head_end (head ++ p) ≡ some (length head))
    → xs ++ ys ≡ head ++ payload
    → find_head_end xs ≡ some end
    → length head ≤ length xs
ends_within head payload xs ys end found e h =
    let (later, bound) = find_head_end-append xs ys end h in
    let same : end ≡ length head = ground (arith, later, found payload, ap find_head_end e) in
    omega (arith, bound, same)

-- A front without a blank line is shorter than the head.
still_open :
    (head payload xs ys : List ℕ)
    → ((p : List ℕ) → find_head_end (head ++ p) ≡ some (length head))
    → xs ++ ys ≡ head ++ payload
    → find_head_end xs ≡ none
    → length xs < length head
still_open head payload xs ys found e h = elim (Bool-cases (ltb (length xs) (length head))) [
  | inl short ↦ ltb→lt _ _ short
  | inr long ↦
      let (q, f, g) = front-append head payload xs ys e (ltb-false _ _ long) in
      ground (arith, found q, ap find_head_end f)
]

-- A head within the limit is read to its end, whatever the sizes of the pieces that arrive.
pub HeadRead-ReadPast :
    (head payload : List ℕ) (s : Stream) (x : Option (Result IoError (List ℕ) × Stream))
    → ((p : List ℕ) → find_head_end (head ++ p) ≡ some (length head))
    → 0 < length head
    → length head ≤ max_head_bytes
    → HeadRead (head ++ payload) s.ending x
    → ReadPast head payload s x
HeadRead-ReadPast head payload s none found pos small r = absurd r
HeadRead-ReadPast head payload s (some (ok xs, s')) found pos small (e, _, inl (end, h)) =
    let (q, f, g) =
      front-append head payload xs s'.incoming (sym e)
        (ends_within head payload xs s'.incoming end found (sym e) h) in
    (q, s', ap (λ bytes. some (ok bytes, s')) f, g)
HeadRead-ReadPast head payload s (some (ok xs, s')) found pos small
      (e, _, inr (_, h, _, open_yet)) =
    let short = still_open head payload xs s'.incoming found (sym e) open_yet in
    absurd (
      omega (
        arith,
        short,
        ap length e,
        ap length h,
        length-append head payload,
        length-append xs s'.incoming,
      ))
HeadRead-ReadPast head payload s (some (err e, s')) found pos small
      (inl (_, (front, rest, f, open_yet, long))) =
    absurd (omega (arith, still_open head payload front rest found (sym f) open_yet, small, long))
HeadRead-ReadPast head payload s (some (err e, s')) found pos small (inr (inl (_, h, _))) =
    absurd (omega (arith, ap length h, length-append head payload, pos))
HeadRead-ReadPast head payload s (some (err e, s')) found pos small (inr (inr (_, open_yet))) =
    ground (arith, found payload, open_yet)
