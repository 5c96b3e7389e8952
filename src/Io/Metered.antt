-- ===== src/Io/Metered.antt =====
-- A counting stream does what the stream under it does, and its counters grow by the bytes that moved.
use wiretally.Prelude.{ℕ, ◌+◌, ◌%◌, ◌<◌, ◌≡◌, refl, ap, ◌∙◌, List, [], ◌∷◌, ok, err, arith}
use wiretally.Stats.{EndpointStats, u64_mod, add_ingress, add_egress}
use wiretally.Io.{
  ByteStream, pending, ready, Side, client, upstream, Counting, counting, count_read, count_write,
  on_read, on_write,
}
use wiretally.Io.Run.{
  Op, read, write, write_vectored, flush, shutdown, Outcome, got, put, done, step, run, read_by,
  written_by, bytes_read, bytes_written,
}

-- Egress is what the child sends: what is read from the client's socket, or written upstream.
abbrev pub egress_by : Side → ℕ → ℕ → ℕ
egress_by client r w = r
egress_by upstream r w = w

abbrev pub ingress_by : Side → ℕ → ℕ → ℕ
ingress_by client r w = w
ingress_by upstream r w = r

-- The counters after `r` bytes were read and `w` written.
abbrev pub metered : Side → ℕ → ℕ → EndpointStats → EndpointStats
metered side r w s = record s {
  ingress = (s.ingress + ingress_by side r w) % u64_mod;
  egress = (s.egress + egress_by side r w) % u64_mod;
}

pub record IsCounted (s : EndpointStats) : Type 0 where
  pub ingress_lt : s.ingress < u64_mod
  pub egress_lt : s.egress < u64_mod

module _ {S : Type 0} where
  count : Outcome → Counting S → Counting S
  count (got p) c = count_read p c
  count (put p) c = count_write p c
  count (done p) c = c

  step-counting :
      (b : ByteStream S) (op : Op) (c : Counting S)
      → step (counting b) op c ≡ (
        (step b op c.inner).0,
        count (step b op c.inner).0 (record c { inner = (step b op c.inner).1 }),
      )
  unfolding step counting count
  step-counting b (read room) c = refl
  step-counting b (write buf) c = refl
  step-counting b (write_vectored bufs) c = refl
  step-counting b flush c = refl
  step-counting b shutdown c = refl

  record Metered (side : Side) (o : Outcome) (c c' : Counting S) : Type 0 where
    same_inner : c'.inner ≡ c.inner
    same_side : c'.side ≡ side
    counted : c'.stats ≡ metered side (read_by o) (written_by o) c.stats

  count-Metered :
      (side : Side) (o : Outcome) (c : Counting S)
      → c.side ≡ side
      → IsCounted c.stats
      → Metered side o c (count o c)
  unfolding count on_read on_write count_read count_write add_ingress add_egress
  count-Metered client (got pending) c e v = ground arith
  count-Metered client (got (ready (ok bytes))) c e v = ground arith
  count-Metered client (got (ready (err x))) c e v = ground arith
  count-Metered client (put pending) c e v = ground arith
  count-Metered client (put (ready (ok n))) c e v = ground arith
  count-Metered client (put (ready (err x))) c e v = ground arith
  count-Metered client (done p) c e v = ground arith
  count-Metered upstream (got pending) c e v = ground arith
  count-Metered upstream (got (ready (ok bytes))) c e v = ground arith
  count-Metered upstream (got (ready (err x))) c e v = ground arith
  count-Metered upstream (put pending) c e v = ground arith
  count-Metered upstream (put (ready (ok n))) c e v = ground arith
  count-Metered upstream (put (ready (err x))) c e v = ground arith
  count-Metered upstream (done p) c e v = ground arith

metered-metered :
    (side : Side) (r w r' w' : ℕ) (s : EndpointStats)
    → metered side r' w' (metered side r w s) ≡ metered side (r + r') (w + w') s
metered-metered client r w r' w' s = ground arith
metered-metered upstream r w r' w' s = ground arith

metered-IsCounted : (side : Side) (r w : ℕ) (s : EndpointStats) → IsCounted (metered side r w s)
metered-IsCounted side r w s = omega arith

metered_zero : (side : Side) (s : EndpointStats) → IsCounted s → s ≡ metered side 0 0 s
metered_zero client s v = ground arith
metered_zero upstream s v = ground arith

module _ {S : Type 0} where
  pub record Totals (b : ByteStream S) (ops : List Op) (c : Counting S) : Type 0 where
    pub same_outcomes : (run (counting b) ops c).0 ≡ (run b ops c.inner).0
    pub same_inner : (run (counting b) ops c).1.inner ≡ (run b ops c.inner).1
    pub counted :
        (run (counting b) ops c).1.stats
        ≡ metered c.side
            (bytes_read (run b ops c.inner).0)
            (bytes_written (run b ops c.inner).0)
            c.stats

  Totals-step :
      (b : ByteStream S) (op : Op) (ops : List Op) (c c' : Counting S) (o : Outcome) (s : S)
      → step b op c.inner ≡ (o, s)
      → step (counting b) op c ≡ (o, c')
      → c'.inner ≡ s
      → c'.side ≡ c.side
      → c'.stats ≡ metered c.side (read_by o) (written_by o) c.stats
      → Totals b ops c'
      → Totals b (op ∷ ops) c
  unfolding run
  Totals-step b op ops c c' o s e e' same_i same_s one rest =
      let os = (run b ops s).0 in
      let inner_eq : run b ops c'.inner ≡ run b ops s = ap (run b ops) same_i in
      let later : (run (counting b) ops c').1.stats
          ≡ metered c.side (bytes_read os) (bytes_written os)
              (metered c.side (read_by o) (written_by o) c.stats) =
        ground (arith, rest.counted, inner_eq, same_s, one) in
      record {
        same_outcomes = rw (e, e') (ap (λ l. o ∷ l) (rest.same_outcomes ∙ ap (λ r. r.0) inner_eq));
        same_inner = rw (e, e') (rest.same_inner ∙ ap (λ r. r.1) inner_eq);
        counted =
            rw (e, e')
              (later
                ∙ metered-metered c.side (read_by o) (written_by o) (bytes_read os)
                    (bytes_written os) c.stats);
      }

  -- Whatever is polled, and however the stream under it answers, a counting stream answers the same and
  -- leaves that stream the same. Its counters, if they were in range, have grown modulo 2 ^ 64 by the
  -- bytes that moved: on the client's side what was read is egress and what was written is ingress, and
  -- on the upstream side the other way round; connections and the address stay.
  pub counting-Totals :
      (b : ByteStream S) (ops : List Op) (c : Counting S) → IsCounted c.stats → Totals b ops c
  unfolding run
  counting-Totals b [] c v = record {
    same_outcomes = refl;
    same_inner = refl;
    counted = metered_zero c.side c.stats v;
  }
  counting-Totals b (op ∷ ops) c v =
      let o = (step b op c.inner).0 in
      let s = (step b op c.inner).1 in
      let c' = count o (record c { inner = s }) in
      let m : Metered c.side o (record c { inner = s }) c' =
        count-Metered c.side o (record c { inner = s }) refl v in
      let v' : IsCounted c'.stats =
        rw m.counted (metered-IsCounted c.side (read_by o) (written_by o) c.stats) in
      Totals-step b op ops c c' o s refl (step-counting b op c) m.same_inner m.same_side m.counted
        (counting-Totals b ops c' v')
