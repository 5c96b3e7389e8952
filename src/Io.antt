-- ===== src/Io.antt =====
-- src/io.rs: the stream adapters of the data path and the wire log.
--
-- A stream is what its poll functions do to a state of it: tokio's `AsyncRead` and `AsyncWrite` are
-- the record `ByteStream`, and an adapter makes such a record of another. The timestamp of a log line
-- is taken by chrono and left out.
pub mod Run
pub mod Metered
pub mod Replay
pub mod Payload
mod Tests
use wiretally.Prelude.{
  ℕ, ◌+◌, Bool, Option, none, some, List, [], ◌∷◌, ◌++◌, length, take, drop, min, Result, ok, err,
  ◌==◌, if◌then◌else◌,
}
use wiretally.Text.{Text, chars, decimal, is_empty}
use wiretally.Stream.{IoError}
use wiretally.Stats.{EndpointStats, add_ingress, add_egress}

pub data Poll {ℓ} (A : Type ℓ) : Type ℓ where
  pending : Poll A
  ready : A → Poll A

-- A read is given the room in the caller's buffer, and yields the bytes that it put there.
pub record ByteStream (S : Type 0) : Type 0 where
  pub poll_read : ℕ → S → Poll (Result IoError (List ℕ)) × S
  pub poll_write : List ℕ → S → Poll (Result IoError ℕ) × S
  pub poll_write_vectored : List (List ℕ) → S → Poll (Result IoError ℕ) × S
  pub is_write_vectored : S → Bool
  pub poll_flush : S → Poll (Result IoError (Unit {0})) × S
  pub poll_shutdown : S → Poll (Result IoError (Unit {0})) × S

pub data Side : Type 0 where
  client upstream : Side

pub record ConnLog : Type 0 where
  pub id : ℕ
  pub target : Text

-- A line on stderr, `[CONN #id] body`.
abbrev pub LogLine : Type 0
LogLine = ℕ × Text

unfoldable pub event : ConnLog → Text → List LogLine → List LogLine
event log body lines = lines ++ (log.id, body) ∷ []

unfoldable pub tx : ConnLog → ℕ → List LogLine → List LogLine
unfolding event
tx log n = event log (chars "TX    -> " ++ (decimal n ++ (chars " bytes " ++ log.target)))

unfoldable pub rx : ConnLog → ℕ → List LogLine → List LogLine
unfolding event
rx log n = event log (chars "RX    <- " ++ (decimal n ++ (chars " bytes " ++ log.target)))

-- `if let Some(log) = &self.log { … }`.
unfoldable pub logged :
    (ConnLog → ℕ → List LogLine → List LogLine) → Option ConnLog → ℕ → List LogLine → List LogLine
logged line none n lines = lines
logged line (some log) n lines = line log n lines

-- `Counting<S>`, with the counters that its `Arc` points to and the lines logged so far.
pub record Counting (S : Type 0) : Type 0 where
  pub inner : S
  pub stats : EndpointStats
  pub side : Side
  pub log : Option ConnLog
  pub lines : List LogLine

module _ {S : Type 0} where
  unfoldable pub record_egress : ℕ → Counting S → Counting S
  unfolding tx logged
  record_egress n c = record c { stats = add_egress n c.stats; lines = logged tx c.log n c.lines }

  unfoldable pub record_ingress : ℕ → Counting S → Counting S
  unfolding rx logged
  record_ingress n c = record c { stats = add_ingress n c.stats; lines = logged rx c.log n c.lines }

  unfoldable pub read_side : Side → ℕ → Counting S → Counting S
  unfolding record_egress record_ingress
  read_side client = record_egress
  read_side upstream = record_ingress

  unfoldable pub write_side : Side → ℕ → Counting S → Counting S
  unfolding record_egress record_ingress
  write_side client = record_ingress
  write_side upstream = record_egress

  unfoldable pub on_read : ℕ → Counting S → Counting S
  unfolding read_side
  on_read n c = if n == 0 then c else read_side c.side n c

  unfoldable pub on_write : ℕ → Counting S → Counting S
  unfolding write_side
  on_write n c = if n == 0 then c else write_side c.side n c

  -- What is counted of a poll: the bytes of one that is ready and has not failed.
  unfoldable pub count_read : Poll (Result IoError (List ℕ)) → Counting S → Counting S
  unfolding on_read
  count_read (ready (ok bytes)) c = on_read (length bytes) c
  count_read (ready (err e)) c = c
  count_read pending c = c

  unfoldable pub count_write : Poll (Result IoError ℕ) → Counting S → Counting S
  unfolding on_write
  count_write (ready (ok n)) c = on_write n c
  count_write (ready (err e)) c = c
  count_write pending c = c

  unfoldable pub counting_read :
      ByteStream S → ℕ → Counting S → Poll (Result IoError (List ℕ)) × Counting S
  unfolding count_read
  counting_read b room c =
      let (poll, s) = b.poll_read room c.inner in (poll, count_read poll (record c { inner = s }))

  unfoldable pub counted_write :
      Poll (Result IoError ℕ) × S → Counting S → Poll (Result IoError ℕ) × Counting S
  unfolding count_write
  counted_write (poll, s) c = (poll, count_write poll (record c { inner = s }))

  unfoldable pub passed :
      Poll (Result IoError (Unit {0})) × S
      → Counting S
      → Poll (Result IoError (Unit {0})) × Counting S
  passed (poll, s) c = (poll, record c { inner = s })

  -- `impl AsyncRead` and `impl AsyncWrite for Counting<S>`.
  unfoldable pub counting : ByteStream S → ByteStream (Counting S)
  unfolding counting_read counted_write passed
  counting b = record {
    poll_read = counting_read b;
    poll_write = λ buf c. counted_write (b.poll_write buf c.inner) c;
    poll_write_vectored = λ bufs c. counted_write (b.poll_write_vectored bufs c.inner) c;
    is_write_vectored = λ c. b.is_write_vectored c.inner;
    poll_flush = λ c. passed (b.poll_flush c.inner) c;
    poll_shutdown = λ c. passed (b.poll_shutdown c.inner) c;
  }

-- `Rewind<S>`.
pub record Rewind (S : Type 0) : Type 0 where
  pub prefix : Option (List ℕ)
  pub offset : ℕ
  pub inner : S

module _ {S : Type 0} where
  unfoldable pub rewind_new : List ℕ → S → Rewind S
  rewind_new bytes s = record {
    prefix = if is_empty bytes then none else some bytes;
    offset = 0;
    inner = s;
  }

  unfoldable pub replay : List ℕ → ℕ → Rewind S → Poll (Result IoError (List ℕ)) × Rewind S
  replay bytes room r =
      let remaining = drop r.offset bytes in
      let n = min (length remaining) room in
      let offset = r.offset + n in
      (
        ready (ok (take n remaining)),
        record r { prefix = if offset == length bytes then none else some bytes; offset = offset },
      )

  unfoldable pub within :
      {A : Type 0} → Poll (Result IoError A) × S → Rewind S → Poll (Result IoError A) × Rewind S
  within (poll, s) r = (poll, record r { inner = s })

  unfoldable pub rewind_read :
      ByteStream S → Option (List ℕ) → ℕ → Rewind S → Poll (Result IoError (List ℕ)) × Rewind S
  unfolding replay within
  rewind_read b (some bytes) room r = replay bytes room r
  rewind_read b none room r = within (b.poll_read room r.inner) r

  -- `impl AsyncRead` and `impl AsyncWrite for Rewind<S>`.
  unfoldable pub rewind : ByteStream S → ByteStream (Rewind S)
  unfolding rewind_read within
  rewind b = record {
    poll_read = λ room r. rewind_read b r.prefix room r;
    poll_write = λ buf r. within (b.poll_write buf r.inner) r;
    poll_write_vectored = λ bufs r. within (b.poll_write_vectored bufs r.inner) r;
    is_write_vectored = λ r. b.is_write_vectored r.inner;
    poll_flush = λ r. within (b.poll_flush r.inner) r;
    poll_shutdown = λ r. within (b.poll_shutdown r.inner) r;
  }
