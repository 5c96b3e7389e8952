-- ===== src/Main/Idle.antt =====
-- What the wait for open connections waits for.
use wiretally.Prelude.{ℕ, ◌+◌, ◌<◌, ◌≤◌, ◌≡◌, ap, ◌⊎◌, inl, inr, some, arith}
use wiretally.Stats.{u64_mod}
use wiretally.Proxy.Tasks.{Tasks, bound, ◌⟶*◌}
use wiretally.Proxy.Tasks.Guards.{guards, reached_guards}
use wiretally.Main.{World, drain, drain_timeout}
use wiretally.Main.Drain.{Sleeps, drain_ends}

-- What the tasks have come to by each round: any steps may lie between two of them.
pub record Rounds (w : World) (tasks : ℕ → Tasks) : Type 0 where
  pub reached : (round : ℕ) → bound ⟶* tasks round
  pub few : (round : ℕ) → guards (tasks round) < u64_mod
  pub seen : (round : ℕ) → (w round).1 ≡ (tasks round).registry

-- No connection is being handled, and no upstream socket is alive.
abbrev pub Idle : Tasks → Type 0
Idle s = (s.handled ≡ 0) × (s.sockets ≡ 0)

-- If each sleep takes the poll interval at least, and fewer than 2 ^ 64 guards are held at any time:
-- whatever the tasks do meanwhile, `drain` ends, and it ends before its timeout is over in a round alone
-- in which no connection is being handled and no upstream socket is alive.
pub drain-Idle :
    (w : World) (tasks : ℕ → Tasks)
    → Sleeps w
    → Rounds w tasks
    → (last : ℕ) × (drain w ≡ some last)
      × (Idle (tasks last) ⊎ ((w 0).0 + drain_timeout ≤ (w last).0))
drain-Idle w tasks sleeps rounds =
    let (last, e, _, (_, why, _)) = drain_ends w sleeps in
    (
      last,
      e,
      elim why [
        | inl none_open ↦
            let counted = reached_guards (tasks last) (rounds.reached last) (rounds.few last) in
            let seen = ap (λ r. r.open_connections) (rounds.seen last) in
            inl (omega (arith, counted, seen, none_open), omega (arith, counted, seen, none_open))
        | inr late ↦ inr late
      ],
    )
