-- ===== src/Io/Run.antt =====
-- A caller of a stream: any sequence of polls, and what each came back with.
use wiretally.Prelude.{ℕ, ◌+◌, List, [], ◌∷◌, length, Result, ok}
use wiretally.Stream.{IoError}
use wiretally.Io.{ByteStream, Poll, ready}

pub data Op : Type 0 where
  read : ℕ → Op
  write : List ℕ → Op
  write_vectored : List (List ℕ) → Op
  flush shutdown : Op

pub data Outcome : Type 0 where
  got : Poll (Result IoError (List ℕ)) → Outcome
  put : Poll (Result IoError ℕ) → Outcome
  done : Poll (Result IoError (Unit {0})) → Outcome

unfoldable pub step : {S : Type 0} → ByteStream S → Op → S → Outcome × S
step b (read room) s = let (p, s') = b.poll_read room s in (got p, s')
step b (write buf) s = let (p, s') = b.poll_write buf s in (put p, s')
step b (write_vectored bufs) s = let (p, s') = b.poll_write_vectored bufs s in (put p, s')
step b flush s = let (p, s') = b.poll_flush s in (done p, s')
step b shutdown s = let (p, s') = b.poll_shutdown s in (done p, s')

unfoldable pub run : {S : Type 0} → ByteStream S → List Op → S → List Outcome × S
run b [] s = ([], s)
run b (op ∷ ops) s = let (o, s') = step b op s in let (os, s'') = run b ops s' in (o ∷ os, s'')

-- The bytes that one poll moved.
abbrev pub read_by : Outcome → ℕ
read_by (got (ready (ok bytes))) = length bytes
read_by _ = 0

abbrev pub written_by : Outcome → ℕ
written_by (put (ready (ok n))) = n
written_by _ = 0

abbrev pub bytes_read : List Outcome → ℕ
bytes_read [] = 0
bytes_read (o ∷ os) = read_by o + bytes_read os

abbrev pub bytes_written : List Outcome → ℕ
bytes_written [] = 0
bytes_written (o ∷ os) = written_by o + bytes_written os
