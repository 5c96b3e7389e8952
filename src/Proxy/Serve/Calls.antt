-- ===== src/Proxy/Serve/Calls.antt =====
-- `CountingConnector` and the sockets that it gives work with the registry as a task may.
use wiretally.Prelude.{ℕ, ◌≡◌, refl, sym, subst, Option, none, some, Result, ok, err}
use wiretally.Text.{Text}
use wiretally.Stream.{IoError}
use wiretally.Stats
use wiretally.Stats.{Registry, update, add_connection, track_open, drop_guard}
use wiretally.Io.{ByteStream, ConnLog, ready, pending}
use wiretally.Io.Run.{Op, Outcome, done, got, put, read, write, write_vectored, flush, shutdown}
use wiretally.Proxy.{split_authority}
use wiretally.Proxy.Tunnel.{Connection, Connected, host_port, conn_log, observe_peer}
use wiretally.Proxy.Splice.{Shared, Counted, poll_counted, log_close}
use wiretally.Proxy.Connector.{
  CountedStream, CloseLog, established, connect_counted, call_authority, drop_close_log, shut,
  delegated, poll_stream, drop_stream,
}
use wiretally.Proxy.Tasks.Uses.{Uses, unused, Uses-trans, endpoint-Uses, update-Uses}
use wiretally.Proxy.Serve.Routes.{conn_log-Uses, observe_peer-Uses}

drop_close_log-registry :
    (l : Option CloseLog) (sh : Shared) → (drop_close_log l sh).registry ≡ sh.registry
unfolding drop_close_log log_close
drop_close_log-registry none sh = refl
drop_close_log-registry (some l) sh = refl

module _ {S : Type 0} where
  -- A call works with the registry, and opens a guard just when it hands out a socket.
  abbrev pub CallUses : Registry → Result IoError (CountedStream S) × Connection → Type 0
  CallUses r (err e, c) = Uses r c.registry
  CallUses r (ok s, c) = (r' : Registry) × Uses r r' × (c.registry ≡ track_open r')

  CallUses-trans :
      {r r' : Registry} (x : Result IoError (CountedStream S) × Connection)
      → Uses r r'
      → CallUses r' x
      → CallUses r x
  CallUses-trans (err e, c) u v = Uses-trans u v
  CallUses-trans (ok s, c) u (r, v, e) = (r, Uses-trans u v, e)

  established-CallUses :
      (answer : Connected) (socket : S) (i : ℕ) (log : Option ConnLog) (host : Text) (port : ℕ)
      (c : Connection)
      → CallUses c.registry (established answer socket i log host port c)
  unfolding established
  established-CallUses (err e) socket i log host port c = unused
  established-CallUses (ok (err e, peer)) socket i log host port c = unused
  established-CallUses (ok (ok u, peer)) socket i log host port c =
      let c' = observe_peer peer i log host port c in
      (
        _,
        Uses-trans (observe_peer-Uses peer i log host port c)
            (update-Uses i add_connection c'.registry),
        refl,
      )

  pub call_authority-CallUses :
      (authority : Option Text) (port : ℕ) (answer : Connected) (socket : S) (c : Connection)
      → CallUses c.registry (call_authority authority port answer socket c)
  unfolding call_authority connect_counted
  call_authority-CallUses none port answer socket c = unused
  call_authority-CallUses (some authority) port answer socket c =
      let (host, port') = split_authority authority port in
      let c1 = record c { registry = (Stats.endpoint host c.registry).1 } in
      let (log, c') = conn_log (host_port host port') c1 in
      let x = established answer socket (Stats.endpoint host c.registry).0 log host port' c' in
      CallUses-trans x
        (Uses-trans (endpoint-Uses host c.registry) (conn_log-Uses (host_port host port') c1))
        (established-CallUses answer socket (Stats.endpoint host c.registry).0 log host port' c')

  poll_counted-Uses :
      (b : ByteStream S) (op : Op) (t : Counted S) (sh : Shared)
      → Uses sh.registry (poll_counted b op t sh).1.1.registry
  unfolding poll_counted
  poll_counted-Uses b op t sh = update-Uses t.stats _ sh.registry

  shut-registry :
      (o : Outcome) (s : CountedStream S) (sh : Shared) → (shut o s sh).1.1.registry ≡ sh.registry
  unfolding shut
  shut-registry (got p) s sh = refl
  shut-registry (put p) s sh = refl
  shut-registry (done pending) s sh = refl
  shut-registry (done (ready r)) s sh = drop_close_log-registry s.close_log sh

  pub poll_stream-Uses :
      (b : ByteStream S) (op : Op) (s : CountedStream S) (sh : Shared)
      → Uses sh.registry (poll_stream b op s sh).1.1.registry
  unfolding poll_stream delegated
  poll_stream-Uses b (read n) s sh = poll_counted-Uses b (read n) s.io sh
  poll_stream-Uses b (write n) s sh = poll_counted-Uses b (write n) s.io sh
  poll_stream-Uses b (write_vectored n) s sh = poll_counted-Uses b (write_vectored n) s.io sh
  poll_stream-Uses b flush s sh = poll_counted-Uses b flush s.io sh
  poll_stream-Uses b shutdown s sh =
      let (o, (s', sh')) = delegated (poll_counted b shutdown s.io sh) s in
      subst (λ r. Uses sh.registry r) (sym (shut-registry o s' sh'))
        (poll_counted-Uses b shutdown s.io sh)

  pub drop_stream-registry :
      (s : CountedStream S) (sh : Shared) → (drop_stream s sh).registry ≡ drop_guard sh.registry
  unfolding drop_stream
  drop_stream-registry s sh = drop_close_log-registry s.close_log _
