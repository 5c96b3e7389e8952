-- ===== src/Udp/Forward.antt =====
-- What the relay sends to the internet for a datagram of the client, and what it counts.
use wiretally.Prelude.{
  ℕ, ◌≡◌, refl, ap, ◌∙◌, Option, none, some, List, [], ◌∷◌, ◌++◌, Result, ok, err, arith,
}
use wiretally.Text.{Text}
use wiretally.Net.{SocketAddr}
use wiretally.Stream.{IoError}
use wiretally.Map.{text_key, ip_key}
use wiretally.Stats.{Registry}
use wiretally.Stats.View.{counters}
use wiretally.Socks.Datagram.{Datagram, DatagramError, parse_datagram}
use wiretally.Udp.{
  Relay, note, count, cached_endpoint, endpoint, looked_up, resolve, sent_out, send_out, forward_to,
  forward_datagram, forward_out,
}
use wiretally.Udp.Account.{IsRelay, same-IsRelay, resolve-accounts}
use wiretally.Stats.View.{with_counters}
use wiretally.Udp.Credit.{egress_of, opened_in, send_out_credited}

-- Nothing sent, and nothing counted.
abbrev pub Nothing : Relay → Relay → Type 0
Nothing t t' =
    (t'.registry ≡ t.registry) × (t'.to_upstream ≡ t.to_upstream) × (t'.to_client ≡ t.to_client)

abbrev pub SentTo : Option SocketAddr → Datagram → Result IoError ℕ → Relay → Relay → Type 0
SentTo none d outcome t t' = Nothing t t'
SentTo (some target) d outcome t t' =
    (t'.to_upstream ≡ t.to_upstream ++ (target, d.payload) ∷ [])
    × (t'.to_client ≡ t.to_client)
    × ((h : Text)
        → counters t'.registry h
          ≡ with_counters d.host (egress_of outcome target.ip (opened_in t d.host)) t.registry h)

-- A datagram of the client, parsed to `r`.
abbrev pub SentOut :
    Result DatagramError Datagram
    → Result IoError (List SocketAddr)
    → Result IoError ℕ
    → Relay
    → Relay
    → Type 0
SentOut (err e) answer outcome t t' = Nothing t t'
SentOut (ok d) answer outcome t t' = SentTo (resolve answer d.host d.port t).0 d outcome t t'

-- What a lookup leaves alone.
resolve_Looked :
    (answer : Result IoError (List SocketAddr)) (host : Text) (port : ℕ) (t : Relay)
    → ((resolve answer host port t).1.to_upstream ≡ t.to_upstream)
      × ((resolve answer host port t).1.to_client ≡ t.to_client)
unfolding resolve looked_up note
resolve_Looked (err e) host port t = ground arith
resolve_Looked (ok []) host port t = ground arith
resolve_Looked (ok (a ∷ as')) host port t = ground arith

-- What a send leaves alone.
send_out_sockets :
    (outcome : Result IoError ℕ) (d : Datagram) (target : SocketAddr) (t : Relay)
    → ((send_out outcome d target t).to_upstream ≡ t.to_upstream ++ (target, d.payload) ∷ [])
      × ((send_out outcome d target t).to_client ≡ t.to_client)
unfolding send_out sent_out endpoint cached_endpoint count note
send_out_sockets (err e) d target t = ground arith
send_out_sockets (ok n) d target t = ground arith

forward_to-SentTo :
    (base : Registry) (target : Option SocketAddr) (outcome : Result IoError ℕ) (d : Datagram)
    (t : Relay)
    → IsRelay base t
    → SentTo target d outcome t (forward_to (target, t) outcome d)
unfolding forward_to
forward_to-SentTo base none outcome d t v = (refl, refl, refl)
forward_to-SentTo base (some target) outcome d t v =
    let (up, down) = send_out_sockets outcome d target t in
    (up, down, λ h. send_out_credited base outcome d target t h v)

-- Only the registry, the handles and the sockets matter.
SentTo-from :
    (target : Option SocketAddr) (d : Datagram) (outcome : Result IoError ℕ) (t u t' : Relay)
    → u.registry ≡ t.registry
    → u.endpoints ≡ t.endpoints
    → u.to_upstream ≡ t.to_upstream
    → u.to_client ≡ t.to_client
    → SentTo target d outcome u t'
    → SentTo target d outcome t t'
SentTo-from none d outcome t u t' e k up down (a, b, c) = (a ∙ e, b ∙ up, c ∙ down)
SentTo-from (some target) d outcome t u t' e k up down (a, b, c) =
    (a ∙ ap (λ sent. sent ++ (target, d.payload) ∷ []) up, b ∙ down, λ h. c h ∙ rw (e, k) refl)

-- A datagram of the client is sent on if it parses and its destination resolves: the payload goes, once
-- and unchanged, to the address found, and the host that the datagram names, opened as a connection
-- if the relay has no handle for it, is the only host whose counters change: by the bytes sent and
-- the address, if the send succeeds, and by no more than the connection if it fails. A datagram that
-- does not parse or resolve sends and counts nothing.
pub forward_out-SentOut :
    (base : Registry) (t : Relay) (raw : List ℕ) (answer : Result IoError (List SocketAddr))
    (outcome : Result IoError ℕ)
    → IsRelay base t
    → SentOut (parse_datagram raw) answer outcome t (forward_out raw answer outcome t)
unfolding forward_out forward_datagram note
forward_out-SentOut base t raw answer outcome v = by_parse (parse_datagram raw)
  where
    by_parse :
        (r : Result DatagramError Datagram)
        → SentOut r answer outcome t (forward_datagram r answer outcome t)
    by_parse (err e) = (refl, refl, refl)
    by_parse (ok d) =
        let (e, k) = resolve-accounts answer d.host d.port t in
        let (up, down) = resolve_Looked answer d.host d.port t in
        let (target, u) = resolve answer d.host d.port t in
        SentTo-from target d outcome t u _ e k up down
          (forward_to-SentTo base target outcome d u (same-IsRelay base t u e k v))
