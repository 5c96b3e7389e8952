-- ===== src/Udp.antt =====
-- src/udp.rs: the relay of a UDP association.
--
-- The state is the relay with the registry that it shares, what its two sockets have sent and what
-- it has logged. An event is a datagram that one of the sockets received, together with what the
-- system then answers: to the lookup of a name and to the one `send_to`.
mod Account
mod Credit
pub mod Connections
pub mod Message
pub mod Forward
pub mod Amounts
pub mod Known
pub mod Bytes
pub mod Reply
mod Tests
use wiretally.Prelude.{
  ℕ, Bool, Option, none, some, List, [], ◌∷◌, ◌++◌, length, Result, ok, err, if◌then◌else◌,
}
use wiretally.Text.{Text}
use wiretally.Net.{IpAddr, SocketAddr, ip_text}
use wiretally.Stream.{IoError}
use wiretally.Map
use wiretally.Map.{text_key, ip_key, destination_key}
use wiretally.Stats
use wiretally.Stats.{Registry, update, add_connection, add_egress, add_ingress, observe_ip}
use wiretally.Socks.Datagram.{Datagram, DatagramError, parse_datagram, encode_datagram}

-- The lines that the relay logs in verbose mode.
pub data Note : Type 0 where
  dropped : DatagramError → Note
  unresolved : Text → ℕ → IoError → Note
  sent : ℕ → Text → ℕ → Note
  send_failed : SocketAddr → IoError → Note
  replied : ℕ → Text → Note
  reply_failed : IoError → Note

pub record Relay : Type 0 where
  pub registry : Registry
  pub verbose : Bool
  pub endpoints : List (Text × ℕ)
  pub resolved : List ((Text × ℕ) × SocketAddr)
  pub names : List (IpAddr × Text)
  pub client_addr : Option SocketAddr
  -- What was handed to `upstream` and to `client_side`, with the receiver.
  pub to_upstream : List (SocketAddr × List ℕ)
  pub to_client : List (SocketAddr × List ℕ)
  pub notes : List Note

unfoldable pub bind : Registry → Bool → Relay
bind registry verbose = record {
  registry = registry;
  verbose = verbose;
  endpoints = [];
  resolved = [];
  names = [];
  client_addr = none;
  to_upstream = [];
  to_client = [];
  notes = [];
}

unfoldable pub note : Note → Relay → Relay
note n t = record t { notes = if t.verbose then t.notes ++ n ∷ [] else t.notes }

-- An update of counters through a handle.
unfoldable pub count : ℕ → (Stats.EndpointStats → Stats.EndpointStats) → Relay → Relay
count i f t = record t { registry = update i f t.registry }

unfoldable pub cached_endpoint : Option ℕ → Text → Relay → ℕ × Relay
unfolding count
cached_endpoint (some i) host t = (i, t)
cached_endpoint none host t =
    let (i, r) = Stats.endpoint host t.registry in
    (
      i,
      record (count i add_connection (record t { registry = r })) {
        endpoints = Map.insert host i t.endpoints;
      },
    )

unfoldable pub endpoint : Text → Relay → ℕ × Relay
unfolding cached_endpoint
endpoint host t = cached_endpoint (Map.get host t.endpoints) host t

unfoldable pub looked_up :
    Result IoError (List SocketAddr) → Text → ℕ → Relay → Option SocketAddr × Relay
unfolding note
looked_up (err e) host port t = (none, note (unresolved host port e) t)
looked_up (ok []) host port t = (none, t)
looked_up (ok (addr ∷ addrs)) host port t =
    (some addr, record t { resolved = Map.insert (host, port) addr t.resolved })

-- `answer` is what `lookup_host` says, if it is asked.
unfoldable pub resolve :
    Result IoError (List SocketAddr) → Text → ℕ → Relay → Option SocketAddr × Relay
unfolding looked_up
resolve answer host port t = elim (Map.get (host, port) t.resolved) [
  | some addr ↦ (some addr, t)
  | none ↦ looked_up answer host port t
]

-- Behind `upstream.send_to`.
unfoldable pub sent_out : Result IoError ℕ → Datagram → SocketAddr → ℕ → Relay → Relay
unfolding note count
sent_out (err e) d target i t = note (send_failed target e) t
sent_out (ok n) d target i t =
    note (sent n d.host d.port)
      (record (count i (observe_ip target.ip) (count i (add_egress n) t)) {
        names = Map.insert target.ip d.host t.names;
      })

-- The datagram is handed to the socket, and `outcome` is what `send_to` returns.
unfoldable pub send_out : Result IoError ℕ → Datagram → SocketAddr → Relay → Relay
unfolding endpoint sent_out
send_out outcome d target t =
    let (i, t') = endpoint d.host t in
    sent_out outcome d target i
      (record t' { to_upstream = t'.to_upstream ++ (target, d.payload) ∷ [] })

unfoldable pub forward_to : Option SocketAddr × Relay → Result IoError ℕ → Datagram → Relay
unfolding send_out
forward_to (none, t) outcome d = t
forward_to (some target, t) outcome d = send_out outcome d target t

unfoldable pub forward_datagram :
    Result DatagramError Datagram
    → Result IoError (List SocketAddr)
    → Result IoError ℕ
    → Relay
    → Relay
unfolding resolve forward_to note
forward_datagram (err e) answer outcome t = note (dropped e) t
forward_datagram (ok d) answer outcome t = forward_to (resolve answer d.host d.port t) outcome d

unfoldable pub forward_out :
    List ℕ → Result IoError (List SocketAddr) → Result IoError ℕ → Relay → Relay
unfolding forward_datagram
forward_out raw answer outcome t = forward_datagram (parse_datagram raw) answer outcome t

-- The host that the client named for an address, or the address.
unfoldable pub reply_host : SocketAddr → Relay → Text
reply_host from t = elim (Map.get from.ip t.names) [ some host ↦ host | none ↦ ip_text from.ip ]

-- Behind `client_side.send_to`.
unfoldable pub sent_back : Result IoError ℕ → Text → List ℕ → ℕ → Relay → Relay
unfolding note count
sent_back (err e) host payload i t = note (reply_failed e) t
sent_back (ok n) host payload i t =
    note (replied (length payload) host) (count i (add_ingress (length payload)) t)

unfoldable pub send_back : SocketAddr → SocketAddr → List ℕ → Result IoError ℕ → Relay → Relay
unfolding reply_host endpoint sent_back
send_back client from payload outcome t =
    let (i, t') = endpoint (reply_host from t) t in
    sent_back outcome (reply_host from t) payload i
      (record t' { to_client = t'.to_client ++ (client, encode_datagram from payload []) ∷ [] })

-- Without a client there is nowhere to reply to.
unfoldable pub reply_to : Option SocketAddr → SocketAddr → List ℕ → Result IoError ℕ → Relay → Relay
unfolding send_back
reply_to none from payload outcome t = t
reply_to (some client) from payload outcome t = send_back client from payload outcome t

unfoldable pub forward_back : SocketAddr → List ℕ → Result IoError ℕ → Relay → Relay
unfolding reply_to
forward_back from payload outcome t = reply_to t.client_addr from payload outcome t

-- A datagram, its sender, and the answers of the system.
pub data Event : Type 0 where
  from_client : List ℕ → SocketAddr → Result IoError (List SocketAddr) → Result IoError ℕ → Event
  from_upstream : List ℕ → SocketAddr → Result IoError ℕ → Event

-- A round of the loop of `run`.
unfoldable pub handle : Event → Relay → Relay
unfolding forward_out forward_back
handle (from_client raw addr answer outcome) t =
    forward_out raw answer outcome (record t { client_addr = some addr })
handle (from_upstream payload addr outcome) t = forward_back addr payload outcome t

unfoldable pub run : List Event → Relay → Relay
unfolding handle
run [] t = t
run (e ∷ es) t = run es (handle e t)
