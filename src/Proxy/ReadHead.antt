-- ===== src/Proxy/ReadHead.antt =====
-- `read_head` ends, and takes from the client what it returns and no more.
use wiretally.Prelude.{
  ℕ, zero, suc, ◌+◌, ◌≤◌, ◌<◌, ◌≡◌, ◌⊎◌, inl, inr, refl, ap, sym, ◌∙◌, subst, Option, none, some,
  List, [], ◌∷◌, ◌++◌, append-nil, append_assoc, length, length-append, Option-cases, List-cases,
  Bool-cases, ltb-false, Result, ok, err, ltb, ltb→lt, arith,
}
use wiretally.Text.{is_empty}
use wiretally.Stream.{IoError, invalid_data, unexpected_eof, Stream, read, read_some, read-Takes}
use wiretally.Proxy.{max_head_bytes, find_head_end, head_round, read_head_loop, read_head}

-- More bytes than the limit come before the end of a head.
abbrev pub TooLarge : List ℕ → Type 0
TooLarge all =
    (front rest : List ℕ) × (all ≡ front ++ rest)
    × (find_head_end front ≡ none)
    × (max_head_bytes < length front)

-- What `read_head` may return of the bytes `all`, on a stream that ends in `ending`.
abbrev pub HeadRead : List ℕ → Option IoError → Option (Result IoError (List ℕ) × Stream) → Type 0
HeadRead all ending none = ⊥
HeadRead all ending (some (ok head, s)) =
    (all ≡ head ++ s.incoming)
    × (length head ≤ max_head_bytes + 2048)
    × (((end : ℕ) × (find_head_end head ≡ some end))
        ⊎ ((0 < length head) × (s.incoming ≡ []) × (ending ≡ none) × (find_head_end head ≡ none)))
HeadRead all ending (some (err e, s)) =
    ((e ≡ invalid_data) × TooLarge all)
    ⊎ ((e ≡ unexpected_eof) × (all ≡ []) × (ending ≡ none))
    ⊎ ((ending ≡ some e) × (find_head_end all ≡ none))

-- A round that finds no more bytes.
at_end :
    (fuel : ℕ) (buf : List ℕ) (s : Stream) (ending : Option IoError)
    → s.incoming ≡ []
    → s.ending ≡ ending
    → length buf ≤ max_head_bytes
    → find_head_end buf ≡ none
    → HeadRead buf ending (read_head_loop (suc fuel) buf s)
unfolding read_head_loop head_round read read_some is_empty
at_end fuel [] s none e k h open_yet = rw (e, read_some, k) (inr (inl (refl, refl, refl)))
at_end fuel (b ∷ buf) s none e k h open_yet =
    rw (e, read_some, k)
      (sym (append-nil (b ∷ buf)), omega arith, inr (omega arith, refl, refl, open_yet))
at_end fuel buf s (some x) e k h open_yet = rw (e, read_some, k) (inr (inr (refl, open_yet)))

-- A round that finds some.
one_round :
    (fuel : ℕ) (c : ℕ) (buf cs : List ℕ) (s s' : Stream)
    → read 2048 s ≡ (ok (c ∷ cs), s')
    → length buf ≤ max_head_bytes
    → length (c ∷ cs) ≤ 2048
    → (length (buf ++ c ∷ cs) ≤ max_head_bytes
        → find_head_end (buf ++ c ∷ cs) ≡ none
        → HeadRead
            ((buf ++ c ∷ cs) ++ s'.incoming)
            s'.ending
            (read_head_loop fuel (buf ++ c ∷ cs) s'))
    → HeadRead ((buf ++ c ∷ cs) ++ s'.incoming) s'.ending (read_head_loop (suc fuel) buf s)
unfolding read_head_loop head_round
one_round fuel c buf cs s s' e h k later = elim (Option-cases (find_head_end (buf ++ c ∷ cs))) [
  | inr (end, found) ↦
      rw (e, read_head_loop, head_round, found)
        (rw e (refl, omega (arith, length-append buf (c ∷ cs)), inl (end, found)))
  | inl none_yet ↦ elim (Bool-cases (ltb max_head_bytes (length (buf ++ c ∷ cs)))) [
    | inl big ↦
        rw (e, read_head_loop, head_round, none_yet, big)
          (inl (refl, (buf ++ c ∷ cs, s'.incoming, refl, none_yet, ltb→lt _ _ big)))
    | inr small ↦
        rw (e, read_head_loop, head_round, none_yet, small)
          (rw e (later (ltb-false _ _ small) none_yet))
  ]
]

HeadRead-cong :
    {all all' : List ℕ} {ending ending' : Option IoError}
    (r : Option (Result IoError (List ℕ) × Stream))
    → all ≡ all'
    → ending ≡ ending'
    → HeadRead all ending r
    → HeadRead all' ending' r
HeadRead-cong {all} {all'} {ending} {ending'} r e k h =
    subst (λ bytes. HeadRead bytes ending' r) e (subst (λ end. HeadRead all end r) k h)

loop-HeadRead :
    (fuel : ℕ) (buf : List ℕ) (s : Stream)
    → length s.incoming < fuel
    → length buf ≤ max_head_bytes
    → find_head_end buf ≡ none
    → HeadRead (buf ++ s.incoming) s.ending (read_head_loop fuel buf s)
loop-HeadRead zero buf s f h open_yet = absurd (omega arith)
loop-HeadRead (suc fuel) buf s f h open_yet = elim (List-cases s.incoming) [
  | inl e ↦
      HeadRead-cong _ (sym (append-nil buf) ∙ ap (λ bytes. buf ++ bytes) (sym e)) refl
        (at_end fuel buf s s.ending e refl h open_yet)
  | inr (b, bs, e) ↦
      let (c, cs, s', r, front, k, same) = read-Takes 2048 b bs s (omega arith) e in
      let fewer : length s'.incoming < fuel =
        omega (arith, ap length front, length-append (c ∷ cs) s'.incoming, f) in
      HeadRead-cong _
        (append_assoc buf (c ∷ cs) s'.incoming ∙ ap (λ bytes. buf ++ bytes) (sym front))
        (ap (λ x. x.ending) same)
        (one_round fuel c buf cs s s' r h k (loop-HeadRead fuel (buf ++ c ∷ cs) s' fewer))
]

-- `read_head` returns, whatever the sizes of the pieces that arrive. A head that it returns is the
-- front of what the client sent, with the rest left unread, has at most 2048 bytes more than the
-- limit, and has an end that `find_head_end` finds, unless the client closed the connection before
-- one, with some bytes sent. It fails as invalid data only if more bytes than the limit came before
-- a head's end, with an unexpected end only if no byte was sent, and with the error that ended the
-- stream only if all bytes came without a head's end.
pub read_head-HeadRead : (s : Stream) → HeadRead s.incoming s.ending (read_head s)
unfolding read_head find_head_end
read_head-HeadRead s = loop-HeadRead (suc (length s.incoming)) [] s (omega arith) (omega arith) refl

-- Only what is still to be read differs, and in which pieces.
abbrev Keeps : Stream → Stream → Type 0
Keeps s s' = s' ≡ record s { incoming = s'.incoming; arrivals = s'.arrivals }

read_some-Keeps : (room : ℕ) (bs : List ℕ) (s : Stream) → Keeps s (read_some room bs s).1
unfolding read_some
read_some-Keeps room [] s = elim (Option-cases s.ending) [
  | inl k ↦ ground (arith, k)
  | inr (x, k) ↦ ground (arith, k)
]
read_some-Keeps room (b ∷ bs) s = refl

abbrev KeepsRead : Stream → Option (Result IoError (List ℕ) × Stream) → Type 0
KeepsRead s none = Unit
KeepsRead s (some (r, s')) = Keeps s s'

Keeps-trans :
    (s s' : Stream) (x : Option (Result IoError (List ℕ) × Stream))
    → Keeps s s'
    → KeepsRead s' x
    → KeepsRead s x
Keeps-trans s s' none h k = tt
Keeps-trans s s' (some (r, s'')) h k = ground (arith, h, k)

loop_round-KeepsRead :
    (fuel : ℕ) (buf : List ℕ) (s s' : Stream) (r : Result IoError (List ℕ))
    → read 2048 s ≡ (r, s')
    → Keeps s s'
    → ((buf' : List ℕ) → KeepsRead s' (read_head_loop fuel buf' s'))
    → KeepsRead s (read_head_loop (suc fuel) buf s)
unfolding read_head_loop
loop_round-KeepsRead fuel buf s s' (err e) h k later = rw (h, read_head_loop) (rw h k)
loop_round-KeepsRead fuel buf s s' (ok chunk) h k later =
    elim (Option-cases (head_round buf chunk)) [
      | inl on ↦ rw (h, read_head_loop, on) (rw h (Keeps-trans s s' _ k (later (buf ++ chunk))))
      | inr (x, done) ↦ rw (h, read_head_loop, done) (rw h k)
    ]

loop-KeepsRead : (fuel : ℕ) (buf : List ℕ) (s : Stream) → KeepsRead s (read_head_loop fuel buf s)
unfolding read_head_loop read
loop-KeepsRead zero buf s = tt
loop-KeepsRead (suc fuel) buf s =
    loop_round-KeepsRead fuel buf s _ _ refl (read_some-Keeps 2048 s.incoming s)
      (λ buf'. loop-KeepsRead fuel buf' _)

-- What `read_head` takes, it takes from what is to be read, and it changes nothing else of the stream.
pub read_head_keeps :
    (s s' : Stream) (r : Result IoError (List ℕ))
    → read_head s ≡ some (r, s')
    → s' ≡ record s { incoming = s'.incoming; arrivals = s'.arrivals }
unfolding read_head
read_head_keeps s s' r h = subst (KeepsRead s) h (loop-KeepsRead (suc (length s.incoming)) [] s)
