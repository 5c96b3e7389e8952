-- ===== src/Io/Payload.antt =====
-- The bytes that a caller gets of a stream, and those that are left in it.
use wiretally.Prelude.{
  ℕ, ◌≡◌, refl, ap, sym, ◌∙◌, List, [], ◌∷◌, ◌++◌, append_assoc, length, length-append, take, drop,
  take-append-drop, Result, ok, err, arith,
}
use wiretally.Stream.{IoError}
use wiretally.Io.{ByteStream, Poll, pending, ready}
use wiretally.Io.Run.{
  Op, read, write, write_vectored, flush, shutdown, Outcome, got, put, done, step, run, read_by,
  bytes_read,
}
use wiretally.Io.Replay.{front_read, in_front}

-- The bytes that one poll got, and those of a run.
abbrev pub got_by : Poll (Result IoError (List ℕ)) → List ℕ
got_by (ready (ok bytes)) = bytes
got_by (ready (err e)) = []
got_by pending = []

abbrev pub outcome_bytes : Outcome → List ℕ
outcome_bytes (got p) = got_by p
outcome_bytes (put p) = []
outcome_bytes (done p) = []

abbrev pub read_bytes : List Outcome → List ℕ
read_bytes [] = []
read_bytes (o ∷ os) = outcome_bytes o ++ read_bytes os

-- What a stream of bytes in order does, where `left` are the bytes still to be read: a read takes them
-- from the front, and nothing else takes any.
pub record Ordered {S : Type 0} (b : ByteStream S) (left : S → List ℕ) : Type 0 where
  pub reads :
      (room : ℕ) (s : S) → got_by (b.poll_read room s).0 ++ left (b.poll_read room s).1 ≡ left s
  pub writes : (buf : List ℕ) (s : S) → left (b.poll_write buf s).1 ≡ left s
  pub writes_vectored :
      (bufs : List (List ℕ)) (s : S) → left (b.poll_write_vectored bufs s).1 ≡ left s
  pub flushes : (s : S) → left (b.poll_flush s).1 ≡ left s
  pub shuts_down : (s : S) → left (b.poll_shutdown s).1 ≡ left s

module _ {S : Type 0} (b : ByteStream S) (left : S → List ℕ) where
  step-Ordered :
      Ordered b left
      → (op : Op) (s : S) → outcome_bytes (step b op s).0 ++ left (step b op s).1 ≡ left s
  unfolding step
  step-Ordered h (read room) s = h.reads room s
  step-Ordered h (write buf) s = h.writes buf s
  step-Ordered h (write_vectored bufs) s = h.writes_vectored bufs s
  step-Ordered h flush s = h.flushes s
  step-Ordered h shutdown s = h.shuts_down s

  -- What a run got and what it left are the bytes that were there, in order.
  pub run-Ordered :
      Ordered b left
      → (ops : List Op) (s : S) → read_bytes (run b ops s).0 ++ left (run b ops s).1 ≡ left s
  unfolding run
  run-Ordered h [] s = refl
  run-Ordered h (op ∷ ops) s =
      let (o, s') = step b op s in
      append_assoc (outcome_bytes o) (read_bytes (run b ops s').0) (left (run b ops s').1)
      ∙ ap (λ bytes. outcome_bytes o ++ bytes) (run-Ordered h ops s')
      ∙ step-Ordered h op s

  front_reads :
      Ordered b left
      → (room : ℕ) (bytes : List ℕ) (s : S)
      → got_by (front_read b room bytes s).0
          ++ ((front_read b room bytes s).1.0 ++ left (front_read b room bytes s).1.1)
        ≡ bytes ++ left s
  unfolding front_read
  front_reads h room [] s = h.reads room s
  front_reads h room (x ∷ xs) s =
      sym (append_assoc (take room (x ∷ xs)) (drop room (x ∷ xs)) (left s))
      ∙ ap (λ bytes. bytes ++ left s) (take-append-drop room (x ∷ xs))

  -- Bytes in front of such a stream make another.
  pub in_front-Ordered : Ordered b left → Ordered (in_front b) (λ p. p.0 ++ left p.1)
  unfolding in_front
  in_front-Ordered h = record {
    reads = λ room p. front_reads h room p.0 p.1;
    writes = λ buf p. ap (λ bytes. p.0 ++ bytes) (h.writes buf p.1);
    writes_vectored = λ bufs p. ap (λ bytes. p.0 ++ bytes) (h.writes_vectored bufs p.1);
    flushes = λ p. ap (λ bytes. p.0 ++ bytes) (h.flushes p.1);
    shuts_down = λ p. ap (λ bytes. p.0 ++ bytes) (h.shuts_down p.1);
  }

read_by-outcome_bytes : (o : Outcome) → read_by o ≡ length (outcome_bytes o)
read_by-outcome_bytes (got (ready (ok bytes))) = refl
read_by-outcome_bytes (got (ready (err e))) = refl
read_by-outcome_bytes (got pending) = refl
read_by-outcome_bytes (put p) = refl
read_by-outcome_bytes (done p) = refl

-- The count of a run's bytes is their number.
pub bytes_read-read_bytes : (os : List Outcome) → bytes_read os ≡ length (read_bytes os)
bytes_read-read_bytes [] = refl
bytes_read-read_bytes (o ∷ os) = omega (
  arith,
  read_by-outcome_bytes o,
  bytes_read-read_bytes os,
  length-append (outcome_bytes o) (read_bytes os),
)
