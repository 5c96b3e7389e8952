-- ===== src/Proxy/Serve/Tests.antt =====
-- Runs of a connection's task, with a client that opens one socket for a request.
mod Clients
use wiretally.Prelude.{
  ℕ, false, ◌+◌, ◌≡◌, refl, none, some, Option, List, [], ◌∷◌, length, Result, ok, err, Exec,
}
use wiretally.Text.{
  Text, chars, strip_prefix, from_utf8, split_once, is_empty, eq_ignore_ascii_case,
}
use wiretally.Stream.{Stream, os_error, read}
use wiretally.Net.{v4}
use wiretally.Io.{ByteStream, ready, pending, Rewind}
use wiretally.Map
use wiretally.Map.{text_key}
use wiretally.Stats.{new, update, endpoint}
use wiretally.Proxy.{read_head, request_line}
use wiretally.Proxy.Tunnel.{Connection}
use wiretally.Proxy.Connector.{call}
use wiretally.Proxy.Http.{Hyper, HttpRequest, HttpResponse}
use wiretally.Proxy.Tasks.{Tasks, bound, ◌⟶*◌}
use wiretally.Proxy.Serve.{Answers, Web, connection_task}
use wiretally.Proxy.Serve.Sockets.{calls, idle, goes, given}
use wiretally.Proxy.Serve.Steps.{HyperLaws, connection_task_steps}

-- A request is its authority.
abbrev SimpleRequest : Type 0
SimpleRequest = HttpRequest (List (Text × Text)) (Option Text) Unit

abbrev simple_hyper : Hyper (List (Text × Text)) Text (Option Text)
simple_hyper = record {
  remove = Map.remove;
  get = Map.get;
  to_str = some;
  parts = record { authority = λ u. u; scheme_str = λ u. some (chars "http") };
  path_and_query = λ u. none;
  parse = λ t. ok (some t);
}

-- A socket that is always ready: the bytes that are left to read.
abbrev simple_socket : ByteStream (List ℕ)
simple_socket = record {
  poll_read = λ room s. (ready (ok s), []);
  poll_write = λ buf s. (ready (ok (length buf)), s);
  poll_write_vectored = λ bufs s. (pending, s);
  is_write_vectored = λ s. false;
  poll_flush = λ s. (ready (ok tt), s);
  poll_shutdown = λ s. (ready (ok tt), s);
}

abbrev tcp_stream : ByteStream Stream
tcp_stream = record {
  poll_read = λ room s. (ready (ok s.incoming), record s { incoming = [] });
  poll_write = λ buf s. (ready (ok (length buf)), s);
  poll_write_vectored = λ bufs s. (pending, s);
  is_write_vectored = λ s. false;
  poll_flush = λ s. (ready (ok tt), s);
  poll_shutdown = λ s. (ready (ok tt), s);
}

abbrev connects_once : SimpleRequest → Exec (Web (List ℕ)) Text (List ℕ)
connects_once req w = (
  err (chars "reset"),
  given simple_hyper.parts simple_socket
      (call simple_hyper.parts req.uri (ok (ok tt, some (v4 (127 ∷ 0 ∷ 0 ∷ 1 ∷ [])))) (1 ∷ [])
        w.connection)
      w,
)

abbrev a_request : SimpleRequest
a_request = record { headers = []; uri = some (chars "a.dev:80"); rest = tt }

-- A server that finds one request.
abbrev serves_one :
    Rewind Stream
    → (SimpleRequest → Web (List ℕ) → HttpResponse (List ℕ) × Web (List ℕ))
    → Web (List ℕ)
    → Result Text (Unit {0}) × Web (List ℕ)
serves_one s service w = (ok tt, (service a_request w).1)

simple-laws : HyperLaws simple_hyper connects_once serves_one tcp_stream simple_socket
simple-laws = record {
  client_steps = λ req w. goes (calls req.uri _ _ w) idle;
  serve_steps = λ service keeps s w. keeps a_request w;
}

abbrev gets : Connection
gets = record {
  client = record {
    incoming = chars "GET http://a.dev/ HTTP/1.1\r\n\r\n";
    arrivals = 10 ∷ [];
    ending = none;
    outgoing = [];
    broken = none;
  };
  registry = new;
  verbose = false;
  lines = [];
}

abbrev no_tunnel : Answers
no_tunnel = record {
  nodelay = ok tt;
  connecting = err (os_error 111);
  polls = [];
  copied = ok tt;
  binding = err (os_error 98);
  events = [];
}

-- The proxy with the connection accepted.
abbrev accepted_one : Tasks
accepted_one = record bound { spawned = 1 }

connection_task_steps_example :
    (w : Web (List ℕ)) × (connection_task simple_hyper connects_once serves_one tcp_stream no_tunnel
        gets
      ≡ some w)
    × (accepted_one ⟶* record accepted_one {
      registry = w.connection.registry;
      spawned = 0;
      sockets = length w.pool + 0;
    })
connection_task_steps_example =
    connection_task_steps simple_hyper connects_once serves_one tcp_stream simple_socket simple-laws
      no_tunnel gets accepted_one 0 refl refl

-- One socket is left, and its guard is the only one that is held.
abbrev left_over : Option (Web (List ℕ)) → List ℕ
left_over none = []
left_over (some w) = length w.pool ∷ w.connection.registry.open_connections ∷ []

connection_task_run :
    left_over (connection_task simple_hyper connects_once serves_one tcp_stream no_tunnel gets)
    ≡ 1 ∷ 1 ∷ []
unfolding connection_task read_head read strip_prefix request_line from_utf8 split_once is_empty
    eq_ignore_ascii_case call update endpoint Map.get new
connection_task_run = refl
