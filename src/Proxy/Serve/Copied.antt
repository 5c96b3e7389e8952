-- ===== src/Proxy/Serve/Copied.antt =====
-- The polls of one counted stream, as one update of its counters.
use wiretally.Prelude.{
  ℕ, ◌+◌, ◌<◌, ◌≡◌, refl, ap, sym, subst, ◌∙◌, List, [], ◌∷◌, length, arith, if◌then◌else◌, ==_refl,
}
use mathlib.Core.Path.{ap₂}
use wiretally.Stats.{
  EndpointStats, Registry, default_stats, read, update, update_at_twice, update_at_same,
  length-update_at, get_or-update_at,
}
use wiretally.Io.{ByteStream, Side, client, upstream}
use wiretally.Io.Run.{Op, step, run, read_by, written_by, bytes_read, bytes_written}
use wiretally.Io.Metered.{metered, IsCounted}
use wiretally.Proxy.Splice.{Shared, Counted, poll_counted}
use wiretally.Proxy.Splice.Poll.{unchanged, moved, poll_counted-Polled}
use wiretally.Proxy.Serve.{poll_counted_all}

metered_none : (side : Side) (s : EndpointStats) → IsCounted s → metered side 0 0 s ≡ s
metered_none client s v = sym (unchanged s v)
metered_none upstream s v = sym (unchanged s v)

metered_twice :
    (side : Side) (r w r' w' : ℕ) (s : EndpointStats)
    → metered side r' w' (metered side r w s) ≡ metered side (r + r') (w + w') s
metered_twice client r w r' w' s = ground arith
metered_twice upstream r w r' w' s = ground arith

metered-IsCounted : (side : Side) (r w : ℕ) (s : EndpointStats) → IsCounted (metered side r w s)
metered-IsCounted side r w s = record { ingress_lt = omega arith; egress_lt = omega arith }

module _ {S : Type 0} (b : ByteStream S) where
  -- A counted stream that is polled any number of times is left as the stream itself would be, and its
  -- counters have grown by the bytes that the polls moved.
  pub record Copied (ops : List Op) (t : Counted S) (sh : Shared) : Type 0 where
    pub outcomes : (poll_counted_all b ops t sh).0 ≡ (run b ops t.inner).0
    pub stream : (poll_counted_all b ops t sh).1.0 ≡ record t { inner = (run b ops t.inner).1 }
    pub registry :
        (poll_counted_all b ops t sh).1.1.registry
        ≡ update t.stats
            (metered t.side
              (bytes_read (run b ops t.inner).0)
              (bytes_written (run b ops t.inner).0))
            sh.registry

  still_counted :
      (op : Op) (t : Counted S) (r : Registry)
      → t.stats < length r.cells
      → IsCounted (read (update t.stats (moved b op t) r) t.stats)
  unfolding read update
  still_counted op t r h =
      subst IsCounted
        (sym (
          get_or-update_at t.stats t.stats (moved b op t) r.cells default_stats h
          ∙ ap (λ x. if x then moved b op t (read r t.stats) else read r t.stats)
              (==_refl t.stats)))
        (metered-IsCounted t.side (read_by (step b op t.inner).0) (written_by (step b op t.inner).0)
          (read r t.stats))

  pub poll_counted_all-Copied :
      (ops : List Op) (t : Counted S) (sh : Shared)
      → t.stats < length sh.registry.cells
      → IsCounted (read sh.registry t.stats)
      → Copied ops t sh
  unfolding poll_counted_all run update read
  poll_counted_all-Copied [] t sh h v = record {
    outcomes = refl;
    stream = refl;
    registry =
        ap (λ cs. record sh.registry { cells = cs })
          (sym (
            update_at_same t.stats (metered t.side 0 0) sh.registry.cells default_stats
              (metered_none t.side (read sh.registry t.stats) v)));
  }
  poll_counted_all-Copied (op ∷ ops) t sh h v =
      let sh' = (poll_counted b op t sh).1.1 in
      let p = poll_counted-Polled b op t sh v in
      let t' = record t { inner = (step b op t.inner).1 } in
      let os = (run b ops t'.inner).0 in
      let o = (step b op t.inner).0 in
      let rest =
        poll_counted_all-Copied ops t' sh'
          (omega (
            arith,
            ap (λ r. length r.cells) p.cells,
            length-update_at t.stats (moved b op t) sh.registry.cells,
          ))
          (subst (λ r. IsCounted (read r t.stats)) (sym p.cells)
            (still_counted op t sh.registry h)) in
      record {
        outcomes =
            ap₂ (λ x l. x ∷ l) p.outcome
              (ap (λ u. (poll_counted_all b ops u sh').0) p.stream ∙ rest.outcomes);
        stream = ap (λ u. (poll_counted_all b ops u sh').1.0) p.stream ∙ rest.stream;
        registry =
            ap (λ u. (poll_counted_all b ops u sh').1.1.registry) p.stream
            ∙ rest.registry
            ∙ ap (update t.stats (metered t.side (bytes_read os) (bytes_written os))) p.cells
            ∙ ap (λ cs. record sh.registry { cells = cs })
                (update_at_twice t.stats (moved b op t)
                  (metered t.side (bytes_read os) (bytes_written os))
                  (metered t.side (read_by o + bytes_read os) (written_by o + bytes_written os))
                  sh.registry.cells
                  (metered_twice t.side (read_by o) (written_by o) (bytes_read os)
                    (bytes_written os)));
      }
