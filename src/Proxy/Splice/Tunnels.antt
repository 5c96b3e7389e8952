-- ===== src/Proxy/Splice/Tunnels.antt =====
-- Tunnels that copy at the same time: the bytes of each client, those read behind its head included.
use wiretally.Prelude.{ℕ, suc, ◌+◌, ◌%◌, ◌≡◌, refl, ◌∙◌, ◌==◌, if◌then◌else◌, List, [], ◌∷◌}
use mathlib.Core.Path.{ap₂}
use wiretally.Stats.{u64_mod, read}
use wiretally.Io.{ByteStream, Rewind, rewind}
use wiretally.Io.Run.{Op, Outcome, run, bytes_read, bytes_written}
use wiretally.Io.Metered.{ingress_by, egress_by}
use wiretally.Io.Replay.{in_front, rewind_new_refines}
use wiretally.Proxy.Tunnel.{Tunnel}
use wiretally.Proxy.Splice.{Shared, Counted, counted_client, run_schedule}
use wiretally.Proxy.Splice.Poll.{InRange, AllCounted}
use wiretally.Proxy.Splice.Shares.{run_schedule-SharesKept, ops_of, total}

module _ {S : Type 0} (b : ByteStream S) where
  -- A tunnel with its client's stream, counted as `connect_and_splice` does it.
  abbrev pub clients : List (Tunnel × S) → List (Counted (Rewind S))
  clients [] = []
  clients ((t, s) ∷ tunnels) = counted_client t s ∷ clients tunnels

  -- What the polls of one tunnel come to on its client: the bytes behind the head, and then the stream.
  abbrev pub outcomes : List (ℕ × Op) → ℕ → Tunnel → S → List Outcome
  outcomes sched j t s = (run (in_front b) (ops_of j sched) (t.leftover, s)).0

  -- The bytes that the tunnels of one host sent, and those that they received.
  abbrev pub sent : ℕ → List (ℕ × Op) → ℕ → List (Tunnel × S) → ℕ
  sent i sched j [] = 0
  sent i sched j ((t, s) ∷ tunnels) =
      (if t.stats == i then bytes_read (outcomes sched j t s) else 0) + sent i sched (suc j) tunnels

  abbrev pub received : ℕ → List (ℕ × Op) → ℕ → List (Tunnel × S) → ℕ
  received i sched j [] = 0
  received i sched j ((t, s) ∷ tunnels) =
      (if t.stats == i then bytes_written (outcomes sched j t s) else 0)
      + received i sched (suc j) tunnels

  total-clients :
      (i : ℕ) (sched : List (ℕ × Op)) (j : ℕ) (tunnels : List (Tunnel × S))
      → (total (rewind b) egress_by i sched j (clients tunnels) ≡ sent i sched j tunnels)
        × (total (rewind b) ingress_by i sched j (clients tunnels) ≡ received i sched j tunnels)
  unfolding counted_client
  total-clients i sched j [] = (refl, refl)
  total-clients i sched j ((t, s) ∷ tunnels) =
      let (e, g) = total-clients i sched (suc j) tunnels in
      let (same, _) = rewind_new_refines b (ops_of j sched) t.leftover s in
      (
        ap₂ (λ os n. (if t.stats == i then bytes_read os else 0) + n) same e,
        ap₂ (λ os n. (if t.stats == i then bytes_written os else 0) + n) same g,
      )

  -- If the tunnels' cells are there and all counters in range, then however many tunnels copy at the same
  -- time, in whatever order their clients are polled: the counters of a host have grown, modulo 2 ^ 64,
  -- as egress by the bytes that its tunnels' clients sent, those read behind their heads first, and as
  -- ingress by the bytes that were written to those clients.
  pub copied_tunnels :
      (sched : List (ℕ × Op)) (tunnels : List (Tunnel × S)) (sh : Shared) (i : ℕ)
      → InRange sh.registry (clients tunnels)
      → AllCounted sh.registry
      → read (run_schedule (rewind b) sched (clients tunnels) sh).1.registry i
        ≡ record (read sh.registry i) {
          ingress = ((read sh.registry i).ingress + received i sched 0 tunnels) % u64_mod;
          egress = ((read sh.registry i).egress + sent i sched 0 tunnels) % u64_mod;
        }
  copied_tunnels sched tunnels sh i range valid =
      let kept = run_schedule-SharesKept (rewind b) sched (clients tunnels) sh range valid in
      let (e, g) = total-clients i sched 0 tunnels in
      kept.cells i
      ∙ ap₂
          (λ x y. record (read sh.registry i) {
            ingress = ((read sh.registry i).ingress + x) % u64_mod;
            egress = ((read sh.registry i).egress + y) % u64_mod;
          })
          g e
