-- ===== src/Io/Replay.antt =====
-- A rewound stream is the bytes that were read before, followed by the stream.
use wiretally.Prelude.{
  ℕ, ◌+◌, ◌<◌, ◌≡◌, refl, ap, sym, ◌∙◌, subst, Option, some, none, List, [], ◌∷◌, length, take,
  drop, min, length-drop, drop-drop, take-min, drop-min, drop-length, Result, ok, ◌==◌, Bool-cases,
  inl, inr, arith,
}
use mathlib.Core.Path.{ap₂}
use wiretally.Stream.{IoError}
use wiretally.Text.{is_empty}
use wiretally.Io.{ByteStream, Poll, ready, Rewind, rewind, rewind_new, rewind_read, replay, within}
use wiretally.Io.Run.{Op, read, write, write_vectored, flush, shutdown, Outcome, got, step, run}

-- What a rewound stream still holds back.
abbrev pub held : Option (List ℕ) → ℕ → List ℕ
held none offset = []
held (some bytes) offset = drop offset bytes

-- The offset stands in the prefix, which is let go as soon as it is used up.
abbrev pub IsHeld : Option (List ℕ) → ℕ → Type 0
IsHeld none offset = Unit
IsHeld (some bytes) offset = offset < length bytes

module _ {S : Type 0} where
  abbrev pub after :
      {A : Type 0} → List ℕ → Poll (Result IoError A) × S → Poll (Result IoError A) × (List ℕ × S)
  after bytes (poll, s) = (poll, (bytes, s))

  unfoldable pub front_read :
      ByteStream S → ℕ → List ℕ → S → Poll (Result IoError (List ℕ)) × (List ℕ × S)
  front_read b room [] s = after [] (b.poll_read room s)
  front_read b room (x ∷ xs) s = (ready (ok (take room (x ∷ xs))), (drop room (x ∷ xs), s))

  -- The specification: bytes in front of a stream are read first, and writes go past them.
  unfoldable pub in_front : ByteStream S → ByteStream (List ℕ × S)
  unfolding front_read
  in_front b = record {
    poll_read = λ room p. front_read b room p.0 p.1;
    poll_write = λ buf p. after p.0 (b.poll_write buf p.1);
    poll_write_vectored = λ bufs p. after p.0 (b.poll_write_vectored bufs p.1);
    is_write_vectored = λ p. b.is_write_vectored p.1;
    poll_flush = λ p. after p.0 (b.poll_flush p.1);
    poll_shutdown = λ p. after p.0 (b.poll_shutdown p.1);
  }

  abbrev pub view : Rewind S → List ℕ × S
  view r = (held r.prefix r.offset, r.inner)

  -- A poll of both sides: the same outcome, and states that still correspond.
  record Same (x : Outcome × Rewind S) (y : Outcome × (List ℕ × S)) : Type 0 where
    same_outcome : x.0 ≡ y.0
    same_view : view x.1 ≡ y.1
    is_held : IsHeld x.1.prefix x.1.offset

  replay-Same :
      (b : ByteStream S) (room : ℕ) (bytes rest : List ℕ) (r : Rewind S)
      → r.offset < length bytes
      → drop r.offset bytes ≡ rest
      → (let x = replay bytes room r in
          let y = front_read b room rest r.inner in Same (got x.0, x.1) (got y.0, y.1))
  unfolding replay front_read
  replay-Same b room bytes [] r h e =
      absurd (omega (arith, ap length e, length-drop r.offset bytes))
  replay-Same b room bytes (x ∷ xs) r h e =
      let rem = drop r.offset bytes in
      let n = min (length rem) room in
      let taken : take n rem ≡ take room (x ∷ xs) = take-min room rem ∙ ap (take room) e in
      let left : drop (r.offset + n) bytes ≡ drop room (x ∷ xs) =
        sym (drop-drop bytes r.offset n) ∙ drop-min room rem ∙ ap (drop room) e in
      elim (Bool-cases (r.offset + n == length bytes)) [
        | inl all ↦
            let over : drop (r.offset + n) bytes ≡ [] =
              drop-length (r.offset + n) bytes (ground arith) in
            rw all (record {
              same_outcome = ap (λ l. got (ready (ok l))) taken;
              same_view = ap (λ l. (l, r.inner)) (sym over ∙ left);
              is_held = tt;
            })
        | inr more ↦ rw more (record {
          same_outcome = ap (λ l. got (ready (ok l))) taken;
          same_view = ap (λ l. (l, r.inner)) left;
          is_held = ground (arith, length-drop r.offset bytes);
        })
      ]

  read-Same :
      (b : ByteStream S) (room : ℕ) (prefix : Option (List ℕ)) (r : Rewind S)
      → r.prefix ≡ prefix
      → IsHeld prefix r.offset
      → (let x = rewind_read b prefix room r in
          let y = front_read b room (held prefix r.offset) r.inner in
          Same (got x.0, x.1) (got y.0, y.1))
  unfolding rewind_read front_read within
  read-Same b room none r e h = record { same_outcome = refl; same_view = rw e; is_held = rw e tt }
  read-Same b room (some bytes) r e h = replay-Same b room bytes (drop r.offset bytes) r h refl

  step-Same :
      (b : ByteStream S) (op : Op) (r : Rewind S)
      → IsHeld r.prefix r.offset
      → Same (step (rewind b) op r) (step (in_front b) op (view r))
  unfolding step rewind in_front within
  step-Same b (read room) r h = read-Same b room r.prefix r refl h
  step-Same b (write buf) r h = record { same_outcome = refl; same_view = refl; is_held = h }
  step-Same b (write_vectored bufs) r h = record {
    same_outcome = refl;
    same_view = refl;
    is_held = h;
  }
  step-Same b flush r h = record { same_outcome = refl; same_view = refl; is_held = h }
  step-Same b shutdown r h = record { same_outcome = refl; same_view = refl; is_held = h }

  -- Any sequence of polls of a rewound stream has the outcomes of the same polls of the specification,
  -- and leaves the same bytes in front of the same stream.
  pub rewind_refines :
      (b : ByteStream S) (ops : List Op) (r : Rewind S)
      → IsHeld r.prefix r.offset
      → ((run (rewind b) ops r).0 ≡ (run (in_front b) ops (view r)).0)
        × (view (run (rewind b) ops r).1 ≡ (run (in_front b) ops (view r)).1)
  unfolding run
  rewind_refines b [] r h = (refl, refl)
  rewind_refines b (op ∷ ops) r h =
      let same = step-Same b op r h in
      let (os, last) = rewind_refines b ops (step (rewind b) op r).1 same.is_held in
      let start : run (in_front b) ops (view (step (rewind b) op r).1)
          ≡ run (in_front b) ops (step (in_front b) op (view r)).1 =
        ap (run (in_front b) ops) same.same_view in
      (ap₂ (λ o l. o ∷ l) same.same_outcome (os ∙ ap (λ x. x.0) start), last ∙ ap (λ x. x.1) start)

  new-view : (bytes : List ℕ) (s : S) → view (rewind_new bytes s) ≡ (bytes, s)
  unfolding rewind_new is_empty
  new-view [] s = refl
  new-view (x ∷ bytes) s = refl

  new-IsHeld :
      (bytes : List ℕ) (s : S) → IsHeld (rewind_new bytes s).prefix (rewind_new bytes s).offset
  unfolding rewind_new is_empty
  new-IsHeld [] s = tt
  new-IsHeld (x ∷ bytes) s = omega arith

  -- A stream rewound by `Rewind::new` answers any sequence of polls as the stream itself would with the
  -- given bytes in front of it: reads take those bytes first, in order, none twice and none left out, and
  -- a read with room never comes back empty before they are used up; writes, flushes and shutdowns go
  -- straight to the stream.
  pub rewind_new_refines :
      (b : ByteStream S) (ops : List Op) (bytes : List ℕ) (s : S)
      → ((run (rewind b) ops (rewind_new bytes s)).0 ≡ (run (in_front b) ops (bytes, s)).0)
        × (view (run (rewind b) ops (rewind_new bytes s)).1 ≡ (run (in_front b) ops (bytes, s)).1)
  rewind_new_refines b ops bytes s =
      subst
        (λ v.
          ((run (rewind b) ops (rewind_new bytes s)).0 ≡ (run (in_front b) ops v).0)
          × (view (run (rewind b) ops (rewind_new bytes s)).1 ≡ (run (in_front b) ops v).1))
        (new-view bytes s) (rewind_refines b ops (rewind_new bytes s) (new-IsHeld bytes s))
