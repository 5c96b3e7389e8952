-- ===== src/Proxy/Splice/Poll.antt =====
-- One poll of one of several streams: what it does to that stream and to the cells.
use wiretally.Prelude.{
  ℕ, zero, suc, ◌+◌, ◌%◌, ◌<◌, ◌≡◌, refl, ap, ◌∙◌, ◌==◌, if◌then◌else◌, List, [], ◌∷◌, length, All,
  Bool-cases, inl, inr, arith,
}
use wiretally.Stats.{
  EndpointStats, Registry, u64_mod, default_stats, read, update, update_at, update_at_own,
  length-update_at, get_or-update_at,
}
use wiretally.Io.{ByteStream, Side, counting}
use wiretally.Io.Run.{Op, step, run, read_by, written_by}
use wiretally.Io.Metered.{ingress_by, egress_by, metered, IsCounted, counting-Totals}
use wiretally.Proxy.Splice.{Shared, Counted, attached, poll_counted, poll_at}

-- The streams' cells are there.
abbrev pub InRange : {S : Type 0} → Registry → List (Counted S) → Type 0
InRange r ts = All (λ t. t.stats < length r.cells) ts

-- Counters are in range.
abbrev pub AllCounted : Registry → Type 0
AllCounted r = (i : ℕ) → IsCounted (read r i)

pub unchanged :
    (s : EndpointStats)
    → IsCounted s
    → s ≡ record s { ingress = (s.ingress + 0) % u64_mod; egress = (s.egress + 0) % u64_mod }
unchanged s v = ground arith

module _ {S : Type 0} (b : ByteStream S) where
  abbrev pub moved : Op → Counted S → EndpointStats → EndpointStats
  moved op t = metered t.side (read_by (step b op t.inner).0) (written_by (step b op t.inner).0)

  pub record Polled (op : Op) (t : Counted S) (sh : Shared) : Type 0 where
    pub outcome : (poll_counted b op t sh).0 ≡ (step b op t.inner).0
    pub stream : (poll_counted b op t sh).1.0 ≡ record t { inner = (step b op t.inner).1 }
    pub cells : (poll_counted b op t sh).1.1.registry ≡ update t.stats (moved op t) sh.registry

  pub poll_counted-Polled :
      (op : Op) (t : Counted S) (sh : Shared)
      → IsCounted (read sh.registry t.stats)
      → Polled op t sh
  unfolding poll_counted run update read
  poll_counted-Polled op t sh v =
      let c = counting-Totals b (op ∷ []) (attached t sh) v in
      let here : (step (counting b) op (attached t sh)).1.stats
          ≡ moved op t (read sh.registry t.stats) =
        ground (arith, c.counted) in
      record {
        outcome = ground (arith, c.same_outcomes);
        stream = ap (λ s. record t { inner = s }) c.same_inner;
        cells =
            ap (λ x. update t.stats (λ _. x) sh.registry) here
            ∙ ap (λ cs. record sh.registry { cells = cs })
                (update_at_own t.stats (moved op t) sh.registry.cells default_stats);
      }

  -- What a poll adds to its stream's cell.
  abbrev pub gain : (Side → ℕ → ℕ → ℕ) → ℕ → ℕ → Op → List (Counted S) → ℕ
  gain share i k op [] = 0
  gain share i zero op (t ∷ ts) =
      if t.stats == i
      then share t.side (read_by (step b op t.inner).0) (written_by (step b op t.inner).0)
      else 0
  gain share i (suc k) op (t ∷ ts) = gain share i k op ts

  abbrev pub stepped : ℕ → Op → List (Counted S) → List (Counted S)
  stepped k op [] = []
  stepped zero op (t ∷ ts) = record t { inner = (step b op t.inner).1 } ∷ ts
  stepped (suc k) op (t ∷ ts) = t ∷ stepped k op ts

  pub record Step (k : ℕ) (op : Op) (ts : List (Counted S)) (sh : Shared) : Type 0 where
    pub streams : (poll_at b k op ts sh).0 ≡ stepped k op ts
    pub count : length (poll_at b k op ts sh).1.registry.cells ≡ length sh.registry.cells
    pub cells :
        (i : ℕ)
        → read (poll_at b k op ts sh).1.registry i ≡ record (read sh.registry i) {
          ingress = ((read sh.registry i).ingress + gain ingress_by i k op ts) % u64_mod;
          egress = ((read sh.registry i).egress + gain egress_by i k op ts) % u64_mod;
        }

  moved_cells :
      (op : Op) (t : Counted S) (ts : List (Counted S)) (r : Registry) (i : ℕ)
      → t.stats < length r.cells
      → AllCounted r
      → read (update t.stats (moved op t) r) i ≡ record (read r i) {
        ingress = ((read r i).ingress + gain ingress_by i 0 op (t ∷ ts)) % u64_mod;
        egress = ((read r i).egress + gain egress_by i 0 op (t ∷ ts)) % u64_mod;
      }
  unfolding update read
  moved_cells op t ts r i here v = elim (Bool-cases (t.stats == i)) [
    | inl same ↦
        ground (arith, same, get_or-update_at t.stats i (moved op t) r.cells default_stats here)
    | inr other ↦ rw other (
        ground (arith, other, get_or-update_at t.stats i (moved op t) r.cells default_stats here)
        ∙ unchanged (read r i) (v i))
  ]

  pub poll_at-Step :
      (k : ℕ) (op : Op) (ts : List (Counted S)) (sh : Shared)
      → InRange sh.registry ts
      → AllCounted sh.registry
      → Step k op ts sh
  unfolding poll_at update update_at
  poll_at-Step k op [] sh h v = record {
    streams = refl;
    count = refl;
    cells = λ i. unchanged (read sh.registry i) (v i);
  }
  poll_at-Step zero op (t ∷ ts) sh (here, h) v =
      let p = poll_counted-Polled op t sh (v t.stats) in
      record {
        streams = ap (λ x. x ∷ ts) p.stream;
        count =
            ap (λ r. length r.cells) p.cells
            ∙ length-update_at t.stats (moved op t) sh.registry.cells;
        cells = λ i. ap (λ r. read r i) p.cells ∙ moved_cells op t ts sh.registry i here v;
      }
  poll_at-Step (suc k) op (t ∷ ts) sh (here, h) v =
      let p = poll_at-Step k op ts sh h v in
      record { streams = ap (λ l. t ∷ l) p.streams; count = p.count; cells = p.cells }
