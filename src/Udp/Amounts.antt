-- ===== src/Udp/Amounts.antt =====
-- What the datagrams of a run bring each host, as a description of its own.
use wiretally.Prelude.{
  ℕ, ◌+◌, ◌&&◌, ◌==◌, Option, none, some, List, [], ◌∷◌, length, Result, ok, err, if◌then◌else◌,
}
use wiretally.Text.{Text, text_eq}
use wiretally.Net.{IpAddr, SocketAddr, ip_eq, ip_text}
use wiretally.Stream.{IoError}
use wiretally.Socks.Datagram.{Datagram, DatagramError, parse_datagram}
use wiretally.Udp.{Event, from_client, from_upstream}

-- What the client, the lookups and the sends of a run have told the relay, the last first: the client's
-- address, the host that a datagram named for the address that it was sent to, and the address of a
-- destination.
pub record Told : Type 0 where
  pub client : Option SocketAddr
  pub sends : List (IpAddr × Text)
  pub answers : List ((Text × ℕ) × SocketAddr)

abbrev pub untold : Told
untold = record { client = none; sends = []; answers = [] }

-- The host that the last datagram to an address named.
abbrev pub named_for : IpAddr → List (IpAddr × Text) → Option Text
named_for ip [] = none
named_for ip ((sent_ip, host) ∷ earlier) =
    if ip_eq sent_ip ip then some host else named_for ip earlier

-- The host that a reply from an address is credited to: the named one, or the address as printed.
abbrev pub credited : IpAddr → List (IpAddr × Text) → Text
credited ip sends = elim (named_for ip sends) [ some host ↦ host | none ↦ ip_text ip ]

abbrev pub answered : Text → ℕ → List ((Text × ℕ) × SocketAddr) → Option SocketAddr
answered host port [] = none
answered host port (((h, p), addr) ∷ earlier) =
    if text_eq h host && p == port then some addr else answered host port earlier

-- The first address of a lookup.
abbrev pub first_of : Result IoError (List SocketAddr) → Option SocketAddr
first_of (err e) = none
first_of (ok []) = none
first_of (ok (addr ∷ addrs)) = some addr

-- Where a datagram goes: where one to its destination went before, or to the first address that the
-- lookup of its host yields.
abbrev pub destination : Result IoError (List SocketAddr) → Datagram → Told → Option SocketAddr
destination answer d k = elim (answered d.host d.port k.answers) [
  | some addr ↦ some addr
  | none ↦ first_of answer
]

abbrev pub sent_also :
    Result IoError ℕ → IpAddr → Text → List (IpAddr × Text) → List (IpAddr × Text)
sent_also (err e) ip host sends = sends
sent_also (ok n) ip host sends = (ip, host) ∷ sends

abbrev pub told_sent : Option SocketAddr → Datagram → Result IoError ℕ → Told → Told
told_sent none d outcome k = k
told_sent (some target) d outcome k = record k {
  answers = ((d.host, d.port), target) ∷ k.answers;
  sends = sent_also outcome target.ip d.host k.sends;
}

abbrev pub told_datagram :
    Result DatagramError Datagram
    → Result IoError (List SocketAddr)
    → Result IoError ℕ
    → Told
    → Told
told_datagram (err e) answer outcome k = k
told_datagram (ok d) answer outcome k = told_sent (destination answer d k) d outcome k

-- What is known after an event, and after a run.
abbrev pub told : Event → Told → Told
told (from_client raw addr answer outcome) k =
    told_datagram (parse_datagram raw) answer outcome (record k { client = some addr })
told (from_upstream payload addr outcome) k = k

abbrev pub told_by : List Event → Told → Told
told_by [] k = k
told_by (e ∷ es) k = told_by es (told e k)

-- What the socket took of a datagram.
abbrev pub amount : Result IoError ℕ → ℕ
amount (err e) = 0
amount (ok n) = n

-- An amount for one host, as another sees it.
abbrev pub for_host : Text → Text → ℕ → ℕ
for_host host h n = if text_eq host h then n else 0

abbrev pub sent_to : Option SocketAddr → Datagram → Result IoError ℕ → Text → ℕ
sent_to none d outcome h = 0
sent_to (some target) d outcome h = for_host d.host h (amount outcome)

abbrev pub sent_for :
    Result DatagramError Datagram
    → Result IoError (List SocketAddr)
    → Result IoError ℕ
    → Told
    → Text
    → ℕ
sent_for (err e) answer outcome k h = 0
sent_for (ok d) answer outcome k h = sent_to (destination answer d k) d outcome h

abbrev pub returned_amount : Result IoError ℕ → List ℕ → ℕ
returned_amount (err e) payload = 0
returned_amount (ok n) payload = length payload

abbrev pub returned_for : Option SocketAddr → Text → List ℕ → Result IoError ℕ → Text → ℕ
returned_for none host payload outcome h = 0
returned_for (some client) host payload outcome h =
    for_host host h (returned_amount outcome payload)

-- What one datagram brings a host: the bytes that the relay's socket took of it, if it parses and its
-- destination, of that host, resolves; or the payload of a reply that went to the client.
abbrev pub sent_by : Event → Told → Text → ℕ
sent_by (from_client raw addr answer outcome) k h =
    sent_for (parse_datagram raw) answer outcome (record k { client = some addr }) h
sent_by (from_upstream payload addr outcome) k h = 0

abbrev pub returned_by : Event → Told → Text → ℕ
returned_by (from_client raw addr answer outcome) k h = 0
returned_by (from_upstream payload addr outcome) k h =
    returned_for k.client (credited addr.ip k.sends) payload outcome h

-- And all datagrams of a run, each with what is known when it comes.
abbrev pub all_sent : List Event → Told → Text → ℕ
all_sent [] k h = 0
all_sent (e ∷ es) k h = sent_by e k h + all_sent es (told e k) h

abbrev pub all_returned : List Event → Told → Text → ℕ
all_returned [] k h = 0
all_returned (e ∷ es) k h = returned_by e k h + all_returned es (told e k) h
