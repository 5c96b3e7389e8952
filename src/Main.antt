-- ===== src/Main.antt =====
-- src/main.rs: what happens when the child has ended: the wait for open connections, the names for
-- addresses, the exit code and the report. Run puts them together.
pub mod Drain
mod Lookups
pub mod Conserve
pub mod Addresses
mod Answers
pub mod Names
pub mod Idle
pub mod Run
mod Tests
use wiretally.Prelude.{
  ℕ, zero, suc, ◌+◌, ◌*◌, ◌&&◌, ℤ, pos, negsuc, Bool, true, false, Option, none, some, List, [],
  ◌∷◌, ltb, if◌then◌else◌,
}
use wiretally.Text.{Text}
use wiretally.Net.{IpAddr, parse_ip}
use wiretally.Stats.{Registry, hosts, rename, snapshot}
use wiretally.Dns.{RData, ReverseResolver, Progress, fresh, asking, found, from_system, hostname}
use wiretally.Report.{Report, report_new}

-- Milliseconds.
abbrev pub drain_timeout : ℕ
drain_timeout = 2000

abbrev pub drain_poll : ℕ
drain_poll = 10

-- What a round of a loop finds: the clock, and the registry that the connections share.
abbrev pub World : Type 0
World = ℕ → ℕ × Registry

-- The loop of `drain`, from a round on: the round in which it ends, or `none` when the fuel runs out.
unfoldable pub drain_loop : ℕ → ℕ → ℕ → World → Option ℕ
drain_loop zero deadline round w = none
drain_loop (suc fuel) deadline round w =
    let rest = drain_loop fuel deadline (suc round) w in
    if ltb 0 (w round).1.open_connections && ltb (w round).0 deadline then rest else some round

-- A sleep takes `drain_poll` at least, so there are no more sleeps than fit into the timeout.
unfoldable pub drain : World → Option ℕ
unfolding drain_loop
drain w = drain_loop 201 ((w 0).0 + drain_timeout) 0 w

-- The `filter_map` over the hosts.
unfoldable pub ip_hosts : List (Text × ℕ) → List (Text × IpAddr)
ip_hosts [] = []
ip_hosts ((host, i) ∷ hs) = elim (parse_ip host) [
  | none ↦ ip_hosts hs
  | some ip ↦ (host, ip) ∷ ip_hosts hs
]

-- A task that looks up a name: a host, its address, what the resolver answers if it is asked, and how far it is.
pub record Lookup : Type 0 where
  pub host : Text
  pub ip : IpAddr
  pub answer : Option (List RData)
  pub progress : Progress

unfoldable pub resume : Lookup → ReverseResolver → Lookup × ReverseResolver
unfolding hostname
resume t s =
    let (progress, s') = hostname t.ip t.answer t.progress s in
    (record t { progress = progress }, s')

unfoldable pub lookups : (Text → Option (List RData)) → List (Text × IpAddr) → List Lookup
lookups answers [] = []
lookups answers ((host, ip) ∷ hs) =
    record { host = host; ip = ip; answer = answers host; progress = fresh } ∷ lookups answers hs

-- The task with a number goes a step further, and so for all numbers of a schedule.
unfoldable pub resume_at : ℕ → List Lookup → ReverseResolver → List Lookup × ReverseResolver
unfolding resume
resume_at i [] s = ([], s)
resume_at zero (t ∷ ts) s = let (t', s') = resume t s in (t' ∷ ts, s')
resume_at (suc i) (t ∷ ts) s = let (ts', s') = resume_at i ts s in (t ∷ ts', s')

unfoldable pub resume_by : List ℕ → List Lookup × ReverseResolver → List Lookup × ReverseResolver
unfolding resume_at
resume_by [] x = x
resume_by (i ∷ is') (ts, s) = resume_by is' (resume_at i ts s)

unfoldable pub name_of : Progress → Option Text
name_of fresh = none
name_of asking = none
name_of (found name) = name

-- The handles are awaited in turn. A task has two steps, so that it is at its end after two more.
unfoldable pub await_all : List Lookup × ReverseResolver → List (Text × Option Text)
unfolding resume name_of
await_all ([], s) = []
await_all (t ∷ ts, s) =
    let (t', s') = resume t s in
    let (t'', s'') = resume t' s' in (t''.host, name_of t''.progress) ∷ await_all (ts, s'')

-- What the spawned lookups come to, when their steps are interleaved as the schedule says.
unfoldable pub lookup_all :
    (Text → Option (List RData))
    → List ℕ
    → List (Text × IpAddr)
    → ReverseResolver
    → List (Text × Option Text)
unfolding lookups resume_by await_all
lookup_all answers schedule hs s = await_all (resume_by schedule (lookups answers hs, s))

-- The loop over the handles. A task that failed counts as one without a name.
unfoldable pub rename_all : List (Text × Option Text) → Registry → Registry
unfolding rename
rename_all [] r = r
rename_all ((host, none) ∷ names) r = rename_all names r
rename_all ((host, some name) ∷ names) r = rename_all names (rename host name r)

-- `built` says whether the system's resolver could be built. The hosts are listed before the lookups;
-- `live` is the registry as it is when they are done.
unfoldable pub resolve_ip_only_endpoints :
    Bool → (Text → Option (List RData)) → List ℕ → Registry → Registry → Registry
unfolding ip_hosts lookup_all rename_all
resolve_ip_only_endpoints built answers schedule r live =
    rename_all (lookup_all answers schedule (ip_hosts (hosts r)) (from_system built)) live

-- How the child ended: with a code or by a signal.
pub record ExitStatus : Type 0 where
  pub code : Option ℤ
  pub signal : Option ℕ

unfoldable pub exit_code : ExitStatus → ℤ
exit_code status = elim status.code [
  | some code ↦ code
  | none ↦ elim status.signal [ some signal ↦ pos (128 + signal) | none ↦ pos 1 ]
]

-- `u8::try_from(exit_code).unwrap_or(1)`.
unfoldable pub exit_byte : ℤ → ℕ
exit_byte (pos n) = if ltb n 256 then n else 1
exit_byte (negsuc n) = 1

-- `run` behind the child: the registry after the drain, and as it is when the names are looked up,
-- become the report, and the exit byte.
unfoldable pub finish :
    Text
    → Option Text
    → ℕ
    → ExitStatus
    → Bool
    → (Text → Option (List RData))
    → List ℕ
    → Registry
    → Registry
    → Report × ℕ
unfolding resolve_ip_only_endpoints exit_code exit_byte report_new
finish command filter time status built answers schedule r live = (
  report_new command filter time (exit_code status)
      (snapshot filter (resolve_ip_only_endpoints built answers schedule r live)),
  exit_byte (exit_code status),
)
