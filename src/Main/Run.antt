-- ===== src/Main/Run.antt =====
-- src/main.rs: `run` from the command line to the exit code, and `main` around it.
--
-- The system's answers are given: where the proxy is bound, whether the child could be started, how it
-- ended and after how many milliseconds, what the drain finds, what the resolver answers and in
-- which order the lookups go on, and what tasks that are left do meanwhile.
use wiretally.Prelude.{
  ℕ, ◌+◌, ◌≤◌, ◌⊎◌, inl, inr, ltb, ℤ, pos, negsuc, if◌then◌else◌, ◌≡◌, refl, ap, sym, subst, ◌∙◌,
  Bool, Option, none, some, List, [], ◌∷◌, ◌++◌, Result, ok, err,
}
use wiretally.Text.{Text, chars}
use wiretally.Net.{SocketAddr}
use wiretally.Dns.{RData}
use wiretally.Report.{Report}
use wiretally.Report.Sums.{registry_totals}
use wiretally.Stats.{Registry}
use wiretally.Stats.View.{IsRegistry}
use wiretally.Proxy.Association.{http_url, socks_url}
use wiretally.Main.{World, drain, drain_timeout, ExitStatus, exit_code, exit_byte, finish}
use wiretally.Main.Drain.{Sleeps, EndsAt, drain_ends}
use wiretally.Main.Conserve.{finish_totals}

-- clap guarantees a program in front of the arguments.
pub record Cli : Type 0 where
  pub domain_prefix : Option Text
  pub verbose : Bool
  pub json : Bool
  pub program : Text
  pub args : List Text

-- `join(" ")`, behind the first.
unfoldable pub joined : Text → List Text → Text
joined t [] = t
joined t (u ∷ ts) = t ++ (b' ' ∷ joined u ts)

-- What is added to the child's environment.
unfoldable pub child_env : SocketAddr → List (Text × Text)
unfolding http_url socks_url
child_env addr =
    (chars "HTTP_PROXY", http_url addr)
    ∷ (chars "HTTPS_PROXY", http_url addr)
    ∷ (chars "http_proxy", http_url addr)
    ∷ (chars "https_proxy", http_url addr)
    ∷ (chars "ALL_PROXY", socks_url addr)
    ∷ (chars "all_proxy", socks_url addr)
    ∷ []

-- A run that comes to a report, which is printed in one of the two forms, and to an exit code.
pub record Finished : Type 0 where
  pub env : List (Text × Text)
  pub report : Report
  pub as_json : Bool
  pub code : ℕ

-- Behind the child's end, from the round in which the drain ended; `late` is what tasks that are left
-- then do to the registry while the names are looked up.
unfoldable pub summed :
    Cli
    → SocketAddr
    → ExitStatus
    → ℕ
    → Bool
    → (Text → Option (List RData))
    → List ℕ
    → (Registry → Registry)
    → World
    → Option ℕ
    → Option (Result Text Finished)
unfolding finish joined child_env
summed cli addr status elapsed built answers schedule late w none = none
summed cli addr status elapsed built answers schedule late w (some last) =
    let (report, code) =
      finish (joined cli.program cli.args) cli.domain_prefix elapsed status built answers schedule
        (w last).1 (late (w last).1) in
    some (ok (record { env = child_env addr; report = report; as_json = cli.json; code = code }))

unfoldable pub waited :
    Cli
    → SocketAddr
    → Result Text (ExitStatus × ℕ)
    → Bool
    → (Text → Option (List RData))
    → List ℕ
    → (Registry → Registry)
    → World
    → Option (Result Text Finished)
unfolding summed drain
waited cli addr (err e) built answers schedule late w = some (err e)
waited cli addr (ok (status, elapsed)) built answers schedule late w =
    summed cli addr status elapsed built answers schedule late w (drain w)

unfoldable pub started :
    Cli
    → SocketAddr
    → Result Text (Unit {0})
    → Result Text (ExitStatus × ℕ)
    → Bool
    → (Text → Option (List RData))
    → List ℕ
    → (Registry → Registry)
    → World
    → Option (Result Text Finished)
unfolding waited
started cli addr (err e) ended built answers schedule late w =
    some (err (chars "failed to run `" ++ (cli.program ++ (chars "`: " ++ e))))
started cli addr (ok _) ended built answers schedule late w =
    waited cli addr ended built answers schedule late w

-- `run`; `none` is a drain that does not end.
unfoldable pub run :
    Cli
    → Result Text SocketAddr
    → Result Text (Unit {0})
    → Result Text (ExitStatus × ℕ)
    → Bool
    → (Text → Option (List RData))
    → List ℕ
    → (Registry → Registry)
    → World
    → Option (Result Text Finished)
unfolding started
run cli (err e) spawned ended built answers schedule late w = some (err e)
run cli (ok addr) spawned ended built answers schedule late w =
    started cli addr spawned ended built answers schedule late w

-- `main`: an error is `ExitCode::FAILURE`.
unfoldable pub main_code : Result Text Finished → ℕ
main_code (ok finished) = finished.code
main_code (err e) = 1

-- The exit byte for a child: its own code from 0 to 255; for one that a signal ended, 128 and the signal,
-- if that is a byte; and 1 for all others.
abbrev pub child_byte : Option ℤ → Option ℕ → ℕ
child_byte (some (pos n)) signal = if ltb n 256 then n else 1
child_byte (some (negsuc n)) signal = 1
child_byte none (some signal) = if ltb (128 + signal) 256 then 128 + signal else 1
child_byte none none = 1

exit_byte-exit_code :
    (code : Option ℤ) (signal : Option ℕ)
    → exit_byte (exit_code (record { code = code; signal = signal })) ≡ child_byte code signal
unfolding exit_byte exit_code
exit_byte-exit_code (some (pos n)) signal = refl
exit_byte-exit_code (some (negsuc n)) signal = refl
exit_byte-exit_code none (some signal) = refl
exit_byte-exit_code none none = refl

-- When the child has run, each sleep takes the poll interval at least, and the registry stays as it is
-- once no connection is open: `run` comes to a report, at most 200 sleeps after the child's end, and to
-- an exit code, which is the child's own code if that is from 0 to 255, 128 and the signal that ended it
-- if that is a byte, and 1 for all others. Either no connection was open any more, and the report's
-- totals for all destinations are the sums of all counters that the registry then had, although addresses
-- were given names in between; or the timeout was over.
pub run_reports :
    (cli : Cli) (addr : SocketAddr) (status : ExitStatus) (elapsed : ℕ) (built : Bool)
    (answers : Text → Option (List RData)) (schedule : List ℕ) (late : Registry → Registry)
    (w : World)
    → Sleeps w
    → ((round : ℕ) → IsRegistry (w round).1)
    → ((r : Registry) → r.open_connections ≡ 0 → late r ≡ r)
    → (last : ℕ) × (finished : Finished) × (run cli
          (ok addr)
          (ok tt)
          (ok (status, elapsed))
          built
          answers
          schedule
          late
          w
        ≡ some (ok finished))
      × (last ≤ 200)
      × EndsAt ((w 0).0 + drain_timeout) w 0 last
      × ((((w last).1.open_connections ≡ 0)
            × (finished.report.totals.all_destinations ≡ registry_totals (w last).1))
          ⊎ ((w 0).0 + drain_timeout ≤ (w last).0))
      × (main_code (ok finished) ≡ child_byte status.code status.signal)
unfolding run started waited summed finish main_code
run_reports cli addr status elapsed built answers schedule late w sleeps valid still =
    let (last, e, within, ends) = drain_ends w sleeps in
    let command = joined cli.program cli.args in
    let r = (w last).1 in
    (
      last,
      _,
      ap (summed cli addr status elapsed built answers schedule late w) e,
      within,
      ends,
      elim ends.1 [
        | inl closed ↦
            let same = still r closed in
            inl (
              closed,
              finish_totals command cli.domain_prefix elapsed status built answers schedule r
                    (late r) (subst IsRegistry (sym same) (valid last))
                  ∙ ap registry_totals same,
            )
        | inr over ↦ inr over
      ],
      exit_byte-exit_code status.code status.signal,
    )
