-- ===== src/Main/Drain.antt =====
-- The wait for open connections.
use wiretally.Prelude.{
  ℕ, zero, suc, ◌+◌, ◌*◌, ◌≤◌, ◌<◌, ◌≡◌, refl, subst, ◌⊎◌, inl, inr, true, false, ◌&&◌, some, ltb,
  arith,
}
use native.Mathlib.Decide.{dec_lt}
use wiretally.Main.{drain_timeout, drain_poll, World, drain_loop, drain}

-- A clock by which each sleep takes the poll interval at least.
abbrev pub Sleeps : World → Type 0
Sleeps w = (round : ℕ) → (w round).0 + drain_poll ≤ (w (suc round)).0

-- A round in which the loop goes on.
abbrev pub GoesOn : ℕ → World → ℕ → Type 0
GoesOn deadline w round = (0 < (w round).1.open_connections) × ((w round).0 < deadline)

-- Where the loop ends: at the first round that has no open connection or is not before the deadline.
abbrev pub EndsAt : ℕ → World → ℕ → ℕ → Type 0
EndsAt deadline w first last =
    (first ≤ last)
    × (((w last).1.open_connections ≡ 0) ⊎ (deadline ≤ (w last).0))
    × ((round : ℕ) → first ≤ round → round < last → GoesOn deadline w round)

stops_or_goes :
    (deadline round : ℕ) (w : World)
    → ((((w round).1.open_connections ≡ 0) ⊎ (deadline ≤ (w round).0))
        × ((ltb 0 (w round).1.open_connections && ltb (w round).0 deadline) ≡ false))
      ⊎ (GoesOn deadline w round
          × ((ltb 0 (w round).1.open_connections && ltb (w round).0 deadline) ≡ true))
stops_or_goes deadline round w = elim (dec_lt 0 (w round).1.open_connections) [
  | no none_open ↦ inl (inl (omega arith), ground (arith, none_open))
  | yes some_open ↦ elim (dec_lt (w round).0 deadline) [
    | no late ↦ inl (inr (omega arith), ground (arith, late))
    | yes early ↦ inr ((some_open, early), ground (arith, some_open, early))
  ]
]

drain_loop_ends :
    (fuel deadline first : ℕ) (w : World)
    → Sleeps w
    → deadline ≤ (w first).0 + drain_poll * fuel
    → (last : ℕ) × (drain_loop (suc fuel) deadline first w ≡ some last)
      × EndsAt deadline w first last
unfolding drain_loop
drain_loop_ends zero deadline first w sleeps enough = elim (stops_or_goes deadline first w) [
  | inl (why, stop) ↦ (first, rw stop refl, (omega arith, why, λ round h k. absurd (omega arith)))
  | inr ((some_open, early), go) ↦ absurd (omega arith)
]
drain_loop_ends (suc fuel) deadline first w sleeps enough = elim (stops_or_goes deadline first w) [
  | inl (why, stop) ↦ (first, rw stop refl, (omega arith, why, λ round h k. absurd (omega arith)))
  | inr (on, go) ↦
      let (last, e, (after, why, before)) =
        drain_loop_ends fuel deadline (suc first) w sleeps (omega (arith, sleeps first)) in
      (
        last,
        rw go e,
        (
          omega arith,
          why,
          λ round h k. elim (dec_lt first round) [
            | yes later ↦ before round later k
            | no same ↦ let e : first ≡ round = omega arith in subst (GoesOn deadline w) e on
          ],
        ),
      )
]

clock_runs : (w : World) → Sleeps w → (round : ℕ) → (w 0).0 + drain_poll * round ≤ (w round).0
clock_runs w sleeps zero = omega arith
clock_runs w sleeps (suc round) = omega (arith, clock_runs w sleeps round, sleeps round)

rounds_bound :
    (w : World) (last : ℕ) → Sleeps w → EndsAt ((w 0).0 + drain_timeout) w 0 last → last ≤ 200
rounds_bound w zero sleeps ends = omega arith
rounds_bound w (suc last) sleeps (_, _, before) =
    omega (arith, clock_runs w sleeps last, (before last (omega arith) (omega arith)).1)

-- If each sleep takes the poll interval at least, `drain` ends after at most 200 sleeps, whatever the
-- connections do: in the first round that finds no connection open or the timeout over.
pub drain_ends :
    (w : World)
    → Sleeps w
    → (last : ℕ) × (drain w ≡ some last) × (last ≤ 200) × EndsAt ((w 0).0 + drain_timeout) w 0 last
unfolding drain
drain_ends w sleeps =
    let (last, e, ends) = drain_loop_ends 200 ((w 0).0 + drain_timeout) 0 w sleeps (omega arith) in
    (last, e, rounds_bound w last sleeps ends, ends)

clock_mono : (w : World) → Sleeps w → (i j : ℕ) → i ≤ j → (w i).0 ≤ (w j).0
clock_mono w sleeps i zero h = let e : i ≡ 0 = omega arith in rw e (omega arith)
clock_mono w sleeps i (suc j) h = elim (dec_lt j i) [
  | yes same ↦ let e : i ≡ suc j = omega arith in rw e (omega arith)
  | no earlier ↦ omega (arith, clock_mono w sleeps i j (omega arith), sleeps j)
]

-- Connections that are all closed in some round before the timeout is over are waited for, and no longer:
-- `drain` ends in that round at the latest, with none open.
pub drain_closed :
    (w : World) (closed : ℕ)
    → Sleeps w
    → (w closed).1.open_connections ≡ 0
    → (w closed).0 < (w 0).0 + drain_timeout
    → (last : ℕ) × (drain w ≡ some last) × (last ≤ closed) × ((w last).1.open_connections ≡ 0)
drain_closed w closed sleeps none_open early =
    let (last, e, _, (_, why, before)) = drain_ends w sleeps in
    let ended : last ≤ closed = elim (dec_lt closed last) [
      | yes passed ↦ absurd (omega (arith, (before closed (omega arith) passed).0, none_open))
      | no within ↦ omega arith
    ] in
    (
      last,
      e,
      ended,
      elim why [
        | inl done ↦ done
        | inr late ↦ absurd (omega (arith, clock_mono w sleeps last closed ended, late, early))
      ],
    )
