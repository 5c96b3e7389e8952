-- ===== src/Proxy/Splice/Shares.antt =====
-- Streams that are polled in any order and share their counters: no byte is lost.
use wiretally.Prelude.{
  ℕ, zero, suc, ◌+◌, ◌%◌, ◌<◌, ◌≡◌, refl, ap, sym, subst, ◌∙◌, ◌==◌, if◌then◌else◌, true, false,
  List, [], ◌∷◌, length, All, Bool-cases, inl, inr, arith,
}
use wiretally.Stats.{EndpointStats, Registry, u64_mod, read}
use wiretally.Io.{ByteStream, Side, client, upstream}
use wiretally.Io.Run.{Op, step, run, read_by, written_by, bytes_read, bytes_written}
use wiretally.Io.Metered.{ingress_by, egress_by}
use wiretally.Proxy.Splice.{Shared, Counted, poll_at, run_schedule}
use wiretally.Proxy.Splice.Poll.{InRange, AllCounted, unchanged, gain, stepped, poll_at-Step}

-- The polls of one stream in a schedule.
abbrev pub ops_of : ℕ → List (ℕ × Op) → List Op
ops_of j [] = []
ops_of j ((k, op) ∷ sched) = let rest = ops_of j sched in if k == j then op ∷ rest else rest

module _ {S : Type 0} (b : ByteStream S) where
  -- What a share of the streams that use the cell `i` comes to, each run by itself.
  abbrev pub total : (Side → ℕ → ℕ → ℕ) → ℕ → List (ℕ × Op) → ℕ → List (Counted S) → ℕ
  total share i sched j [] = 0
  total share i sched j (t ∷ ts) =
      let os = (run b (ops_of j sched) t.inner).0 in
      (if t.stats == i then share t.side (bytes_read os) (bytes_written os) else 0)
      + total share i sched (suc j) ts

  -- The streams, each after its own polls.
  abbrev pub alone : List (ℕ × Op) → ℕ → List (Counted S) → List (Counted S)
  alone sched j [] = []
  alone sched j (t ∷ ts) =
      record t { inner = (run b (ops_of j sched) t.inner).1 } ∷ alone sched (suc j) ts

  -- A share of all bytes is the sum of the shares.
  abbrev Adds : (Side → ℕ → ℕ → ℕ) → Type 0
  Adds share =
      (side : Side) (r w r' w' : ℕ)
      → share side (r + r') (w + w') ≡ share side r w + share side r' w'

  total_past :
      (share : Side → ℕ → ℕ → ℕ) (i k j : ℕ) (op : Op) (sched : List (ℕ × Op))
      (ts : List (Counted S))
      → k < j
      → (total share i ((k, op) ∷ sched) j ts ≡ total share i sched j ts)
        × (alone ((k, op) ∷ sched) j ts ≡ alone sched j ts)
  total_past share i k j op sched [] h = (refl, refl)
  total_past share i k j op sched (t ∷ ts) h =
      let (a, c) = total_past share i k (suc j) op sched ts (omega arith) in
      let skip : (k == j) ≡ false = ground arith in (rw (skip, a) refl, rw (skip, c) refl)

  total_step :
      (share : Side → ℕ → ℕ → ℕ) (i k n j : ℕ) (op : Op) (sched : List (ℕ × Op))
      (ts : List (Counted S))
      → Adds share
      → k ≡ j + n
      → (total share i ((k, op) ∷ sched) j ts
          ≡ gain b share i n op ts + total share i sched j (stepped b n op ts))
        × (alone ((k, op) ∷ sched) j ts ≡ alone sched j (stepped b n op ts))
  unfolding run
  total_step share i k n j op sched [] adds e = (refl, refl)
  total_step share i k zero j op sched (t ∷ ts) adds e =
      let hit : (k == j) ≡ true = ground arith in
      let (a, c) = total_past share i k (suc j) op sched ts (omega arith) in
      let (o, s) = step b op t.inner in
      let os = (run b (ops_of j sched) s).0 in
      elim (Bool-cases (t.stats == i)) [
        | inl same ↦ (
          rw (hit, same)
              (omega (
                arith,
                a,
                adds t.side (read_by o) (written_by o) (bytes_read os) (bytes_written os),
              )),
          rw (hit, c) refl,
        )
        | inr other ↦ (rw (hit, other) (omega (arith, a)), rw (hit, c) refl)
      ]
  total_step share i k (suc n) j op sched (t ∷ ts) adds e =
      let skip : (k == j) ≡ false = ground arith in
      let (a, c) = total_step share i k n (suc j) op sched ts adds (omega arith) in
      (rw skip (omega (arith, a)), rw (skip, c) refl)

  ingress-Adds : Adds ingress_by
  ingress-Adds client r w r' w' = refl
  ingress-Adds upstream r w r' w' = refl

  egress-Adds : Adds egress_by
  egress-Adds client r w r' w' = refl
  egress-Adds upstream r w r' w' = refl

  -- The streams and the cells after a schedule.
  pub record SharesKept (sched : List (ℕ × Op)) (ts : List (Counted S)) (sh : Shared) : Type 0 where
    pub streams : (run_schedule b sched ts sh).0 ≡ alone sched 0 ts
    pub cells :
        (i : ℕ)
        → read (run_schedule b sched ts sh).1.registry i ≡ record (read sh.registry i) {
          ingress = ((read sh.registry i).ingress + total ingress_by i sched 0 ts) % u64_mod;
          egress = ((read sh.registry i).egress + total egress_by i sched 0 ts) % u64_mod;
        }

  total_none :
      (share : Side → ℕ → ℕ → ℕ) (i j : ℕ) (ts : List (Counted S))
      → Adds share
      → (total share i [] j ts ≡ 0) × (alone [] j ts ≡ ts)
  unfolding run
  total_none share i j [] adds = (refl, refl)
  total_none share i j (t ∷ ts) adds =
      let (a, c) = total_none share i (suc j) ts adds in
      (ground (arith, a, adds t.side 0 0 0 0), ap (λ l. t ∷ l) c)

  grown_twice :
      (s s' : EndpointStats) (g e : ℕ) {i o i' o' i'' o'' : ℕ}
      → s' ≡ record s { ingress = (s.ingress + g) % u64_mod; egress = (s.egress + e) % u64_mod }
      → i ≡ i'
      → o ≡ o'
      → i'' ≡ g + i'
      → o'' ≡ e + o'
      → ◌≡◌ {A = EndpointStats}
          (record s' { ingress = (s'.ingress + i) % u64_mod; egress = (s'.egress + o) % u64_mod })
          (record s { ingress = (s.ingress + i'') % u64_mod; egress = (s.egress + o'') % u64_mod })
  grown_twice s s' g e one a b c d = ground arith

  stepped-InRange :
      (n : ℕ) (op : Op) (r r' : Registry) (ts : List (Counted S))
      → length r'.cells ≡ length r.cells
      → InRange r ts
      → InRange r' (stepped b n op ts)
  stepped-InRange n op r r' [] e h = tt
  stepped-InRange zero op r r' (t ∷ ts) e (here, h) =
      (omega arith, subst (λ (n : ℕ). All (λ t. t.stats < n) ts) (sym e) h)
  stepped-InRange (suc n) op r r' (t ∷ ts) e (here, h) =
      (omega arith, stepped-InRange n op r r' ts e h)

  -- If the streams' cells are there and all counters in range, then whatever the schedule of polls, and
  -- however many of the streams share a cell: every stream is left as its own polls leave it by
  -- themselves, and the byte counters of every cell have grown by what those polls move on all streams
  -- that use it, modulo 2 ^ 64; connections and the address stay.
  pub run_schedule-SharesKept :
      (sched : List (ℕ × Op)) (ts : List (Counted S)) (sh : Shared)
      → InRange sh.registry ts
      → AllCounted sh.registry
      → SharesKept sched ts sh
  unfolding run_schedule
  run_schedule-SharesKept [] ts sh h v = record {
    streams = sym (total_none ingress_by 0 0 ts ingress-Adds).1;
    cells = λ i. ground (
      arith,
      unchanged (read sh.registry i) (v i),
      (total_none ingress_by i 0 ts ingress-Adds).0,
      (total_none egress_by i 0 ts egress-Adds).0,
    );
  }
  run_schedule-SharesKept ((k, op) ∷ sched) ts sh h v =
      let one = poll_at-Step b k op ts sh h v in
      let (ts', sh') = poll_at b k op ts sh in
      let v' : AllCounted sh'.registry = λ i. rw (one.cells i) (omega arith) in
      let rest =
        run_schedule-SharesKept sched ts' sh'
          (rw one.streams (stepped-InRange k op sh.registry sh'.registry ts one.count h)) v' in
      record {
        streams =
            rest.streams
            ∙ ap (alone sched 0) one.streams
            ∙ sym (total_step ingress_by 0 k k 0 op sched ts ingress-Adds (omega arith)).1;
        cells = λ i.
            rest.cells i
            ∙ grown_twice (read sh.registry i) (read sh'.registry i) (gain b ingress_by i k op ts)
                (gain b egress_by i k op ts) (one.cells i)
                (ap (total ingress_by i sched 0) one.streams)
                (ap (total egress_by i sched 0) one.streams)
                (total_step ingress_by i k k 0 op sched ts ingress-Adds (omega arith)).0
                (total_step egress_by i k k 0 op sched ts egress-Adds (omega arith)).0;
      }
