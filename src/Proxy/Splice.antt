-- ===== src/Proxy/Splice.antt =====
-- src/proxy.rs: the copying at the end of `connect_and_splice`. Its counted streams hold their counters
-- through an `Arc`, so any number of them may share a cell of the registry.
--
-- `copy_bidirectional` polls the streams it is given; a schedule of polls, each of the stream at some
-- position, stands for all the tasks that copy at the same time.
pub mod Poll
pub mod Shares
pub mod Tunnels
use wiretally.Prelude.{ℕ, zero, suc, Option, none, some, List, [], ◌∷◌, ◌++◌}
use wiretally.Text.{Text, chars, decimal}
use wiretally.Stats.{EndpointStats, Registry, read, update}
use wiretally.Io.{
  ByteStream, Side, client, ConnLog, LogLine, event, Counting, counting, Rewind, rewind_new,
}
use wiretally.Io.Run.{Op, Outcome, step}
use wiretally.Proxy.Tunnel.{Tunnel}

-- What all tasks share: the registry, and the log on stderr.
pub record Shared : Type 0 where
  pub registry : Registry
  pub lines : List LogLine

-- A `Counting`, with the cell that its `Arc` points to.
pub record Counted (S : Type 0) : Type 0 where
  pub inner : S
  pub stats : ℕ
  pub side : Side
  pub log : Option ConnLog

module _ {S : Type 0} where
  -- The `Counting` as one poll finds it.
  abbrev pub attached : Counted S → Shared → Counting S
  attached t sh = record {
    inner = t.inner;
    stats = read sh.registry t.stats;
    side = t.side;
    log = t.log;
    lines = sh.lines;
  }

  unfoldable pub poll_counted :
      ByteStream S → Op → Counted S → Shared → Outcome × (Counted S × Shared)
  unfolding step counting
  poll_counted b op t sh =
      let (o, c) = step (counting b) op (attached t sh) in
      (
        o,
        (
          record t { inner = c.inner },
          record { registry = update t.stats (λ _. c.stats) sh.registry; lines = c.lines },
        ),
      )

  -- A poll of the stream at a position.
  unfoldable pub poll_at :
      ByteStream S → ℕ → Op → List (Counted S) → Shared → List (Counted S) × Shared
  unfolding poll_counted
  poll_at b k op [] sh = ([], sh)
  poll_at b zero op (t ∷ ts) sh = let (o, (t', sh')) = poll_counted b op t sh in (t' ∷ ts, sh')
  poll_at b (suc k) op (t ∷ ts) sh = let (ts', sh') = poll_at b k op ts sh in (t ∷ ts', sh')

  unfoldable pub run_schedule :
      ByteStream S → List (ℕ × Op) → List (Counted S) → Shared → List (Counted S) × Shared
  unfolding poll_at
  run_schedule b [] ts sh = (ts, sh)
  run_schedule b ((k, op) ∷ sched) ts sh =
      let (ts', sh') = poll_at b k op ts sh in run_schedule b sched ts' sh'

  -- The client's side of a tunnel: what was read behind the head comes first.
  unfoldable pub counted_client : Tunnel → S → Counted (Rewind S)
  unfolding rewind_new
  counted_client t s = record {
    inner = rewind_new t.leftover s;
    stats = t.stats;
    side = client;
    log = t.log;
  }

unfoldable pub close_line : EndpointStats → Text
close_line s =
    chars "CLOSE -> Total Rx: "
    ++ (decimal s.ingress ++ (chars " bytes | Total Tx: " ++ (decimal s.egress ++ chars " bytes")))

-- The line behind the copying, and the one that `CloseLog` leaves.
unfoldable pub log_close : Option ConnLog → ℕ → Shared → Shared
unfolding event close_line
log_close none i sh = sh
log_close (some log) i sh = record sh {
  lines = event log (close_line (read sh.registry i)) sh.lines;
}
