-- ===== src/Proxy/Connector/Tests.antt =====
-- A socket of the connector, and copying that shares a host.
use wiretally.Prelude.{
  ◌+◌, ◌%◌, zero, suc, ℕ, ◌≡◌, refl, true, false, Option, none, some, List, [], ◌∷◌, length, take,
  drop, ok, arith,
}
use wiretally.Stats
use wiretally.Stats.{u64_mod, update, add_ingress, add_egress}
use wiretally.Proxy.Splice.Poll.{AllCounted}
use wiretally.Proxy.Splice.Tunnels.{clients, sent, received, copied_tunnels}
use wiretally.Text.{is_empty, decimal, Text, chars}
use wiretally.Net.{v4}
use wiretally.Stats.{Registry, EndpointStats, default_stats}
use wiretally.Io.{rewind, ByteStream, ready, client, upstream}
use wiretally.Io.Run.{Op, read, write, flush, shutdown}
use wiretally.Proxy.Tunnel.{Tunnel, Connection, Connected}
use wiretally.Proxy.Splice.{Shared, Counted, counted_client, run_schedule, close_line}
use wiretally.Proxy.Splice.Shares.{SharesKept, run_schedule-SharesKept}
use wiretally.Proxy.Connector.{UriParts, call}
use wiretally.Proxy.Connector.Lifetime.{Lifetime, call-Lifetime}

-- A socket that yields what is left of a text, and takes all that is written.
abbrev socket : ByteStream (List ℕ)
socket = record {
  poll_read = λ room s. (ready (ok (take room s)), drop room s);
  poll_write = λ buf s. (ready (ok (length buf)), s);
  poll_write_vectored = λ bufs s. (ready (ok 0), s);
  is_write_vectored = λ s. false;
  poll_flush = λ s. (ready (ok tt), s);
  poll_shutdown = λ s. (ready (ok tt), s);
}

-- A `Uri` by its parts.
abbrev SimpleUri : Type 0
SimpleUri = Option Text × Option Text

abbrev uri_parts : UriParts SimpleUri
uri_parts = record { authority = λ u. u.0; scheme_str = λ u. u.1 }

abbrev a_dev : SimpleUri
a_dev = (some (chars "a.dev"), some (chars "http"))

-- The first connection is open, and has its own guard.
abbrev at_work : Connection
at_work = record {
  client = record { incoming = []; arrivals = []; ending = none; outgoing = []; broken = none };
  registry = record { cells = []; endpoints = []; open_connections = 1; next_conn_id = 0 };
  verbose = true;
  lines = [];
}

abbrev answered : Connected
answered = ok (ok tt, some (v4 (10 ∷ 0 ∷ 0 ∷ 1 ∷ [])))

abbrev request_and_answer : List Op
request_and_answer = write (chars "GET /") ∷ read 64 ∷ shutdown ∷ shutdown ∷ []

call-Lifetime_example :
    Lifetime socket request_and_answer at_work
      (call uri_parts a_dev answered (chars "hello") at_work)
call-Lifetime_example =
    call-Lifetime uri_parts a_dev socket request_and_answer answered (chars "hello") at_work
      (omega arith)

-- Two tunnels to one host, one upstream socket to another.
abbrev streams : List (Counted (List ℕ))
streams =
    record { inner = chars "first"; stats = 0; side = client; log = none }
    ∷ record { inner = chars "other"; stats = 1; side = upstream; log = none }
    ∷ record { inner = chars "second"; stats = 0; side = client; log = none }
    ∷ []

abbrev two_hosts : Shared
two_hosts = record {
  registry = record {
    cells = default_stats ∷ default_stats ∷ [];
    endpoints = (chars "a.dev", 0) ∷ (chars "b.dev", 1) ∷ [];
    open_connections = 3;
    next_conn_id = 0;
  };
  lines = [];
}

abbrev interleaved : List (ℕ × Op)
interleaved =
    (0, read 2)
    ∷ (2, read 9)
    ∷ (1, read 4)
    ∷ (0, write (chars "ok"))
    ∷ (0, read 9)
    ∷ (7, flush)
    ∷ []

two_hosts-AllCounted : AllCounted two_hosts.registry
unfolding Stats.read
two_hosts-AllCounted zero = omega arith
two_hosts-AllCounted (suc zero) = omega arith
two_hosts-AllCounted (suc (suc i)) = omega arith

run_schedule-SharesKept_example : SharesKept socket interleaved streams two_hosts
run_schedule-SharesKept_example =
    run_schedule-SharesKept socket interleaved streams two_hosts
      (omega arith, (omega arith, (omega arith, tt))) two_hosts-AllCounted

-- A line that closes a connection has the totals of its host, those of other connections included.
close_line_is_of_host :
    close_line (record default_stats { ingress = 2; egress = 11 })
    ≡ chars "CLOSE -> Total Rx: 2 bytes | Total Tx: 11 bytes"
unfolding close_line decimal
close_line_is_of_host = refl

shared_cells :
    (run_schedule socket interleaved streams two_hosts).1.registry.cells
    ≡ record default_stats { ingress = 2; egress = 11 } ∷ record default_stats { ingress = 4 } ∷ []
unfolding run_schedule update Stats.read add_ingress add_egress
shared_cells = refl

-- Two tunnels to one host; the first client sent bytes behind its head.
abbrev tunnels : List (Tunnel × List ℕ)
tunnels =
    (record { stats = 0; leftover = chars "early "; log = none }, chars "bird")
    ∷ (record { stats = 0; leftover = []; log = none }, chars "second")
    ∷ []

abbrev two_clients : List (ℕ × Op)
two_clients = (0, read 9) ∷ (1, read 9) ∷ (0, read 9) ∷ (1, write (chars "ok")) ∷ []

copied_tunnels_example :
    Stats.read
      (run_schedule (rewind socket) two_clients (clients socket tunnels) two_hosts).1.registry
      0
    ≡ record (Stats.read two_hosts.registry 0) {
      ingress =
          ((Stats.read two_hosts.registry 0).ingress + received socket 0 two_clients 0 tunnels)
          % u64_mod;
      egress =
          ((Stats.read two_hosts.registry 0).egress + sent socket 0 two_clients 0 tunnels)
          % u64_mod;
    }
unfolding counted_client
copied_tunnels_example =
    copied_tunnels socket two_clients tunnels two_hosts 0 (omega arith, (omega arith, tt))
      two_hosts-AllCounted

bytes_of_two_clients :
    (run_schedule (rewind socket) two_clients (clients socket tunnels) two_hosts).1.registry.cells
    ≡ record default_stats { ingress = 2; egress = 16 } ∷ default_stats ∷ []
unfolding run_schedule counted_client rewind update Stats.read add_ingress add_egress is_empty
bytes_of_two_clients = refl
