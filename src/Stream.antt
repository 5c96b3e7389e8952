-- ===== src/Stream.antt =====
-- A byte stream to a peer, as tokio's `AsyncRead` and `AsyncWrite` extensions show it: the bytes
-- that the peer will have sent, in order, how the stream then ends, and the bytes written to it.
use wiretally.Prelude.{
  zero, suc, ◌≤◌, refl, take-append-drop, length-take, ℕ, ◌<◌, ◌≡◌, Option, none, some, List, [],
  ◌∷◌, ◌++◌, length, take, drop, min, split_at?, split_at?-append, split_at?-short, split_at?-some,
  Option-cases, inl, inr, arith, ok, err, Exec, ltb, if◌then◌else◌,
}

pub data IoError : Type 0 where
  unexpected_eof invalid_data invalid_input : IoError
  os_error : ℕ → IoError

pub record Stream : Type 0 where
  -- What is still to be read.
  pub incoming : List ℕ
  -- The size of the piece that each `read` finds ready; a missing entry is "all of it".
  pub arrivals : List ℕ
  -- What a read finds behind the last byte: the end of the stream, or an error.
  pub ending : Option IoError
  pub outgoing : List ℕ
  -- Whether writes fail.
  pub broken : Option IoError

-- `read_exact` fails with the stream's own error, and otherwise with `UnexpectedEof`.
unfoldable pub ending_error : Option IoError → IoError
ending_error none = unexpected_eof
ending_error (some e) = e

unfoldable pub taken : Option (List ℕ × List ℕ) → Exec Stream IoError (List ℕ)
unfolding ending_error
taken (some (front, rest)) s = (ok front, record s { incoming = rest })
taken none s = (err (ending_error s.ending), record s { incoming = [] })

unfoldable pub read_exact : ℕ → Exec Stream IoError (List ℕ)
unfolding taken
read_exact n s = taken (split_at? n s.incoming) s

unfoldable pub write_all : List ℕ → Exec Stream IoError Unit
write_all bs s = elim s.broken [
  | none ↦ (ok tt, record s { outgoing = s.outgoing ++ bs })
  | some e ↦ (err e, s)
]

-- How many bytes a read into `cap` bytes of room takes, out of `ready`: at least one.
unfoldable pub read_size : ℕ → List ℕ → ℕ → ℕ
read_size cap [] ready = min cap ready
read_size cap (a ∷ as') ready = min cap (min ready (if ltb 0 a then a else 1))

unfoldable pub later_arrivals : List ℕ → List ℕ
later_arrivals [] = []
later_arrivals (a ∷ as') = as'

-- `read`: some of the bytes that are there, or none at the end of the stream.
unfoldable pub read_some : ℕ → List ℕ → Exec Stream IoError (List ℕ)
unfolding read_size later_arrivals
read_some cap [] s = elim s.ending [ none ↦ (ok [], s) | some e ↦ (err e, s) ]
read_some cap (b ∷ bs) s =
    let n = read_size cap s.arrivals (length (b ∷ bs)) in
    (
      ok (take n (b ∷ bs)),
      record s { incoming = drop n (b ∷ bs); arrivals = later_arrivals s.arrivals },
    )

unfoldable pub read : ℕ → Exec Stream IoError (List ℕ)
unfolding read_some
read cap s = read_some cap s.incoming s

-- A read of bytes that are there takes just those.
pub read_exact-append :
    (s : Stream) (xs ys : List ℕ) (n : ℕ)
    → n ≡ length xs
    → read_exact n (record s { incoming = xs ++ ys }) ≡ (ok xs, record s { incoming = ys })
unfolding read_exact
read_exact-append s xs ys n h = rw (split_at?-append xs ys n h, read_exact)

pub read_exact-short :
    (s : Stream) (xs : List ℕ) (n : ℕ)
    → length xs < n
    → read_exact n (record s { incoming = xs })
      ≡ (err (ending_error s.ending), record s { incoming = [] })
unfolding read_exact
read_exact-short s xs n h = rw (split_at?-short xs n h, read_exact)

pub write_all-ok :
    (s : Stream) (bs : List ℕ)
    → s.broken ≡ none
    → write_all bs s ≡ (ok tt, record s { outgoing = s.outgoing ++ bs })
unfolding write_all
write_all-ok s bs h = ground (arith, h)

-- What a successful read says of the stream.
pub read_exact-inv :
    (s s' : Stream) (n : ℕ) (xs : List ℕ)
    → read_exact n s ≡ (ok xs, s')
    → (length xs ≡ n)
      × (s.incoming ≡ xs ++ s'.incoming)
      × (s' ≡ record s { incoming = s'.incoming })
unfolding read_exact
read_exact-inv s s' n xs h = elim (Option-cases (split_at? n s.incoming)) [
  | inl e ↦ ground (arith, e)
  | inr ((front, rest), e) ↦ ground (arith, e, split_at?-some s.incoming n front rest e)
]

-- Reading writes nothing, also when it fails.
pub outgoing-read_exact : (s : Stream) (n : ℕ) → (read_exact n s).1.outgoing ≡ s.outgoing
unfolding read_exact
outgoing-read_exact s n = ground arith

-- A read into some room takes a byte at least, of those that are there.
abbrev pub Takes : ℕ → Stream → Type 0
Takes cap s =
    (c : ℕ) × (cs : List ℕ) × (s' : Stream) × (read cap s ≡ (ok (c ∷ cs), s'))
    × (s.incoming ≡ c ∷ cs ++ s'.incoming)
    × (length (c ∷ cs) ≤ cap)
    × (s' ≡ record s { incoming = s'.incoming; arrivals = s'.arrivals })

read_size_bounds :
    (cap : ℕ) (arrivals : List ℕ) (ready : ℕ)
    → 0 < cap
    → 0 < ready
    → (0 < read_size cap arrivals ready) × (read_size cap arrivals ready ≤ cap)
unfolding read_size
read_size_bounds cap [] ready h k = omega arith
read_size_bounds cap (a ∷ later) ready h k = ground arith

read_sized :
    (cap n : ℕ) (b : ℕ) (bs : List ℕ) (s : Stream)
    → s.incoming ≡ b ∷ bs
    → read_size cap s.arrivals (length (b ∷ bs)) ≡ n
    → 0 < n
    → n ≤ cap
    → Takes cap s
unfolding read
read_sized cap zero b bs s e size pos le = absurd (omega arith)
read_sized cap (suc n) b bs s e size pos le = (
  b,
  take n bs,
  record s { incoming = drop n bs; arrivals = later_arrivals s.arrivals },
  rw (e, read_some, size),
  rw (e, take-append-drop n bs),
  omega (arith, length-take n bs),
  refl,
)

pub read-Takes :
    (cap : ℕ) (b : ℕ) (bs : List ℕ) (s : Stream) → 0 < cap → s.incoming ≡ b ∷ bs → Takes cap s
read-Takes cap b bs s h e =
    let (pos, le) = read_size_bounds cap s.arrivals (length (b ∷ bs)) h (omega arith) in
    read_sized cap _ b bs s e refl pos le
