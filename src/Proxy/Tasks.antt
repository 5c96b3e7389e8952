-- ===== src/Proxy/Tasks.antt =====
-- src/proxy.rs: the accept loop and the tasks that it starts, as far as they open and close guards.
--
-- A connection is accepted, and its task is spawned; the task opens a guard when it first runs, and drops
-- it when `handle_connection` has returned. An upstream socket has a guard of its own. In between, and in
-- any order, the tasks work with the registry that they share.
pub mod Guards
pub mod Uses
pub mod Invariant
pub mod Relay
mod Tests
use wiretally.Prelude.{ℕ, suc, ◌≡◌, Bool, true, false}
use wiretally.Text.{Text}
use wiretally.Stats
use wiretally.Stats.{EndpointStats, Registry, new, update, next_id, rename, track_open, drop_guard}

pub record Tasks : Type 0 where
  pub registry : Registry
  -- The accept loop runs.
  pub accepting : Bool
  -- Connections whose task was spawned and has not run, those that are being handled, and upstream
  -- sockets that are alive.
  pub spawned : ℕ
  pub handled : ℕ
  pub sockets : ℕ

-- `Proxy::bind`, over a registry that was just made.
abbrev pub bound : Tasks
bound = record { registry = new; accepting = true; spawned = 0; handled = 0; sockets = 0 }

-- What tasks do with the registry but for its guards.
pub data Works : Registry → Registry → Type 0 where
  asks : (host : Text) (r : Registry) → Works r (Stats.endpoint host r).1
  counts : (i : ℕ) (f : EndpointStats → EndpointStats) (r : Registry) → Works r (update i f r)
  numbers : (r : Registry) → Works r (next_id r).1
  renames : (from to : Text) (r : Registry) → Works r (rename from to r)

infix 40 ◌⟶◌ ◌⟶*◌
pub data ◌⟶◌ : Tasks → Tasks → Type 0 where
  -- `listener.accept()` answers a stream, or an error.
  accepts : (s : Tasks) → s.accepting ≡ true → s ⟶ record s { spawned = suc s.spawned }
  accept_fails : (s : Tasks) → s.accepting ≡ true → s ⟶ s
  -- The spawned task runs up to `handle_connection`, and returns from it.
  starts :
      (s : Tasks) (n : ℕ)
      → s.spawned ≡ suc n
      → s ⟶ record s { registry = track_open s.registry; spawned = n; handled = suc s.handled }
  returns :
      (s : Tasks) (n : ℕ)
      → s.handled ≡ suc n
      → s ⟶ record s { registry = drop_guard s.registry; handled = n }
  -- The connector's `call` hands out a socket, and the client drops one.
  connects :
      (s : Tasks) → s ⟶ record s { registry = track_open s.registry; sockets = suc s.sockets }
  hangs_up :
      (s : Tasks) (n : ℕ)
      → s.sockets ≡ suc n
      → s ⟶ record s { registry = drop_guard s.registry; sockets = n }
  works : (s : Tasks) (r : Registry) → Works s.registry r → s ⟶ record s { registry = r }
  -- `Proxy::drop`.
  stops : (s : Tasks) → s ⟶ record s { accepting = false }

pub data ◌⟶*◌ : Tasks → Tasks → Type 0 where
  here : {s : Tasks} → s ⟶* s
  then : {s t u : Tasks} → s ⟶ t → t ⟶* u → s ⟶* u
