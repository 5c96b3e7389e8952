-- ===== src/Proxy/Serve/Sockets.antt =====
-- What hyper may do with the connector and with the sockets that it was given, and what that is to the tasks.
use wiretally.Prelude.{
  ℕ, ◌+◌, sym, subst, List, ◌∷◌, ◌++◌, length, length-append, Result, ok, err, arith,
}
use mathlib.Core.Path.{ap₂}
use wiretally.Stream.{IoError}
use wiretally.Io.{ByteStream}
use wiretally.Io.Run.{Op}
use wiretally.Proxy.Tunnel.{Connection, Connected}
use wiretally.Proxy.Splice.{Shared}
use wiretally.Proxy.Connector.{
  UriParts, CountedStream, call, default_port, poll_stream, drop_stream,
}
use wiretally.Proxy.Tasks.{Tasks, ◌⟶*◌, connects, hangs_up, here, then}
use wiretally.Proxy.Tasks.Uses.{Uses-steps, steps-trans}
use wiretally.Proxy.Serve.{Web}
use wiretally.Proxy.Serve.Calls.{
  CallUses, call_authority-CallUses, poll_stream-Uses, drop_stream-registry,
}

-- The state that a connection shares with the other tasks.
abbrev pub shared_of : Connection → Shared
shared_of c = record { registry = c.registry; lines = c.lines }

abbrev pub with_shared : Shared → Connection → Connection
with_shared sh c = record c { registry = sh.registry; lines = sh.lines }

module _ {S : Type 0} where
  -- The tasks, with the sockets of one client and `m` others.
  abbrev pub tasks_at : Tasks → ℕ → Web S → Tasks
  tasks_at s m w = record s { registry = w.connection.registry; sockets = length w.pool + m }

module _ {U S : Type 0} (parts : UriParts U) (b : ByteStream S) where
  -- A socket that `call` hands out goes into the pool.
  abbrev pub given : Result IoError (CountedStream S) × Connection → Web S → Web S
  given (ok s, c) w = record { pool = s ∷ w.pool; connection = c }
  given (err e, c) w = record w { connection = c }

  pub data WebStep : Web S → Web S → Type 0 where
    calls :
        (uri : U) (answer : Connected) (socket : S) (w : Web S)
        → WebStep w (given (call parts uri answer socket w.connection) w)
    polls :
        (op : Op) (before after : List (CountedStream S)) (s : CountedStream S) (c : Connection)
        → WebStep
            (record { pool = before ++ s ∷ after; connection = c })
            (record {
              pool = before ++ (poll_stream b op s (shared_of c)).1.0 ∷ after;
              connection = with_shared (poll_stream b op s (shared_of c)).1.1 c;
            })
    drops :
        (before after : List (CountedStream S)) (s : CountedStream S) (c : Connection)
        → WebStep
            (record { pool = before ++ s ∷ after; connection = c })
            (record {
              pool = before ++ after;
              connection = with_shared (drop_stream s (shared_of c)) c;
            })

  pub data WebSteps : Web S → Web S → Type 0 where
    idle : {w : Web S} → WebSteps w w
    goes : {w w' w'' : Web S} → WebStep w w' → WebSteps w' w'' → WebSteps w w''

  pub WebSteps-trans : {w w' w'' : Web S} → WebSteps w w' → WebSteps w' w'' → WebSteps w w''
  WebSteps-trans idle q = q
  WebSteps-trans (goes p ps) q = goes p (WebSteps-trans ps q)

  given-steps :
      (s : Tasks) (m : ℕ) (w : Web S) (x : Result IoError (CountedStream S) × Connection)
      → CallUses w.connection.registry x
      → tasks_at s m w ⟶* tasks_at s m (given x w)
  given-steps s m w (err e, c) u = Uses-steps (tasks_at s m w) u
  given-steps s m w (ok t, c) (r, u, e) =
      let opened = record (tasks_at s m w) { registry = r } in
      steps-trans (Uses-steps (tasks_at s m w) u) (
        subst (λ u. opened ⟶* u)
          (ap₂ (λ q (n : ℕ). record s { registry = q; sockets = n }) (sym e) (omega arith))
          (then (connects opened) here))

  WebStep-steps :
      (s : Tasks) (m : ℕ) {w w' : Web S} → WebStep w w' → tasks_at s m w ⟶* tasks_at s m w'
  unfolding call
  WebStep-steps s m (calls uri answer socket w) =
      given-steps s m w (call parts uri answer socket w.connection) (
        call_authority-CallUses (parts.authority uri) (default_port (parts.scheme_str uri)) answer
          socket w.connection)
  WebStep-steps s m (polls op before after t c) =
      let start = tasks_at s m (record { pool = before ++ t ∷ after; connection = c }) in
      let t' = (poll_stream b op t (shared_of c)).1.0 in
      subst
        (λ (n : ℕ).
          start
          ⟶* record s { registry = (poll_stream b op t (shared_of c)).1.1.registry; sockets = n })
        (omega (arith, length-append before (t ∷ after), length-append before (t' ∷ after)))
        (Uses-steps start (poll_stream-Uses b op t (shared_of c)))
  WebStep-steps s m (drops before after t c) =
      let start = tasks_at s m (record { pool = before ++ t ∷ after; connection = c }) in
      let n = length (before ++ after) + m in
      subst (λ r. start ⟶* record s { registry = r; sockets = n })
        (sym (drop_stream-registry t (shared_of c)))
        (then
          (hangs_up start n
            (omega (arith, length-append before (t ∷ after), length-append before after)))
          here)

  -- Whatever hyper does with its sockets is steps of the tasks.
  pub WebSteps-steps :
      (s : Tasks) (m : ℕ) {w w' : Web S} → WebSteps w w' → tasks_at s m w ⟶* tasks_at s m w'
  WebSteps-steps s m idle = here
  WebSteps-steps s m (goes p ps) = steps-trans (WebStep-steps s m p) (WebSteps-steps s m ps)
