-- ===== src/Proxy/Tasks/Relay.antt =====
-- The UDP relay works with the registry as a task may.
use wiretally.Prelude.{
  ℕ, ◌≡◌, refl, Option, none, some, List, [], ◌∷◌, Option-cases, inl, inr, Result, ok, err, length,
}
use wiretally.Text.{Text}
use wiretally.Net.{SocketAddr}
use wiretally.Stream.{IoError}
use wiretally.Map
use wiretally.Map.{text_key, destination_key}
use wiretally.Stats
use wiretally.Stats.{add_connection, add_egress, add_ingress, observe_ip, update}
use wiretally.Socks.Datagram.{Datagram, DatagramError, parse_datagram}
use wiretally.Udp
use wiretally.Udp.{
  Relay, Event, from_client, from_upstream, cached_endpoint, looked_up, resolve, sent_out, send_out,
  forward_to, forward_datagram, forward_out, sent_back, send_back, reply_to, forward_back, handle,
  reply_host, count, note,
}
use wiretally.Proxy.Tasks.Uses.{Uses, unused, Uses-trans, endpoint-Uses, update-Uses}

-- From one state of the relay to another.
abbrev pub RelayUses : Relay → Relay → Type 0
RelayUses t t' = Uses t.registry t'.registry

endpoint-RelayUses : (host : Text) (t : Relay) → RelayUses t (Udp.endpoint host t).1
unfolding Udp.endpoint cached_endpoint count
endpoint-RelayUses host t = elim (Option-cases (Map.get host t.endpoints)) [
  | inr (i, e) ↦ rw (Udp.endpoint, e) unused
  | inl e ↦
      rw (Udp.endpoint, e)
        (Uses-trans (endpoint-Uses host t.registry) (
          update-Uses (Stats.endpoint host t.registry).0 add_connection
            (Stats.endpoint host t.registry).1))
]

sent_out-RelayUses :
    (outcome : Result IoError ℕ) (d : Datagram) (target : SocketAddr) (i : ℕ) (t : Relay)
    → RelayUses t (sent_out outcome d target i t)
unfolding sent_out count note
sent_out-RelayUses (err e) d target i t = unused
sent_out-RelayUses (ok n) d target i t =
    Uses-trans (update-Uses i (add_egress n) t.registry)
      (update-Uses i (observe_ip target.ip) (update i (add_egress n) t.registry))

forward_to-RelayUses :
    (addr : Option SocketAddr) (outcome : Result IoError ℕ) (d : Datagram) (t : Relay)
    → RelayUses t (forward_to (addr, t) outcome d)
unfolding forward_to send_out
forward_to-RelayUses none outcome d t = unused
forward_to-RelayUses (some target) outcome d t =
    Uses-trans (endpoint-RelayUses d.host t)
      (sent_out-RelayUses outcome d target (Udp.endpoint d.host t).0 _)

-- A lookup leaves the registry alone.
looked_up-registry :
    (answer : Result IoError (List SocketAddr)) (host : Text) (port : ℕ) (t : Relay)
    → (looked_up answer host port t).1.registry ≡ t.registry
unfolding looked_up note
looked_up-registry (err e) host port t = refl
looked_up-registry (ok []) host port t = refl
looked_up-registry (ok (a ∷ as')) host port t = refl

resolve-RelayUses :
    (answer : Result IoError (List SocketAddr)) (host : Text) (port : ℕ) (t : Relay)
    → RelayUses t (resolve answer host port t).1
unfolding resolve
resolve-RelayUses answer host port t = elim (Option-cases (Map.get (host, port) t.resolved)) [
  | inr (addr, e) ↦ rw (resolve, e) unused
  | inl e ↦ rw (resolve, e, looked_up-registry answer host port t) unused
]

forward_datagram-RelayUses :
    (d : Result DatagramError Datagram) (answer : Result IoError (List SocketAddr))
    (outcome : Result IoError ℕ) (t : Relay)
    → RelayUses t (forward_datagram d answer outcome t)
unfolding forward_datagram note
forward_datagram-RelayUses (err e) answer outcome t = unused
forward_datagram-RelayUses (ok d) answer outcome t =
    let (addr, t') = resolve answer d.host d.port t in
    Uses-trans (resolve-RelayUses answer d.host d.port t) (forward_to-RelayUses addr outcome d t')

sent_back-RelayUses :
    (outcome : Result IoError ℕ) (host : Text) (payload : List ℕ) (i : ℕ) (t : Relay)
    → RelayUses t (sent_back outcome host payload i t)
unfolding sent_back count note
sent_back-RelayUses (err e) host payload i t = unused
sent_back-RelayUses (ok n) host payload i t =
    update-Uses i (add_ingress (length payload)) t.registry

reply_to-RelayUses :
    (client : Option SocketAddr) (from : SocketAddr) (payload : List ℕ) (outcome : Result IoError ℕ)
    (t : Relay)
    → RelayUses t (reply_to client from payload outcome t)
unfolding reply_to send_back
reply_to-RelayUses none from payload outcome t = unused
reply_to-RelayUses (some client) from payload outcome t =
    let host = reply_host from t in
    Uses-trans (endpoint-RelayUses host t)
      (sent_back-RelayUses outcome host payload (Udp.endpoint host t).0 _)

-- A datagram in either direction, whatever it holds and whatever the system answers.
handle-RelayUses : (e : Event) (t : Relay) → RelayUses t (handle e t)
unfolding handle forward_out forward_back
handle-RelayUses (from_client raw addr answer outcome) t =
    forward_datagram-RelayUses (parse_datagram raw) answer outcome
      (record t { client_addr = some addr })
handle-RelayUses (from_upstream payload addr outcome) t =
    reply_to-RelayUses t.client_addr addr payload outcome t

pub run-RelayUses : (es : List Event) (t : Relay) → RelayUses t (Udp.run es t)
unfolding Udp.run
run-RelayUses [] t = unused
run-RelayUses (e ∷ es) t = Uses-trans (handle-RelayUses e t) (run-RelayUses es (handle e t))
