-- ===== src/Udp/Tests.antt =====
-- Runs of the relay, with the cases of the tests in src/udp.rs.
use wiretally.Udp.{sent, dropped, send_failed}
use wiretally.Socks.Datagram.{fragmented}
use wiretally.Udp.Message.{note_text}
use wiretally.Socks.Message.{byte_hex}
use wiretally.Net.{v4, ip_text}
use wiretally.Text.{chars, hex}
use wiretally.Stream.{unexpected_eof}
use wiretally.Prelude.{◌≡◌, refl, ℕ, ◌+◌, ◌%◌, true, false, some, List, [], ◌∷◌, ok, err, arith}
use wiretally.Text.{chars, text_eq}
use wiretally.Net.{v4, SocketAddr, ip_text, ip_eq, IsAddr}
use wiretally.Stream.{os_error}
use wiretally.Map
use wiretally.Map.{text_key, ip_key, destination_key}
use wiretally.Stats
use wiretally.Stats.{
  Registry, u64_mod, new, read, update, add_egress, add_ingress, add_connection, observe_ip,
}
use wiretally.Stats.View.{new-IsRegistry, counters, or_default}
use wiretally.Udp.Amounts.{untold, told_by, credited, all_sent, all_returned}
use wiretally.Udp.Bytes.{run_bytes}
use wiretally.Socks.Datagram.{Datagram, parse_datagram, encode_datagram}
use wiretally.Socks.Datagram.Grammar.{parse_datagram-encode_datagram}
use wiretally.Udp.{
  Relay, bind, resolve, forward_datagram, forward_out, reply_host, forward_back, Event, from_client,
  from_upstream, run,
}
use wiretally.Udp.Account.{IsRelay, bind-IsRelay, same-IsRelay, connections_of, once}
use wiretally.Udp.Connections.{run-connections}
use wiretally.Udp.Forward.{SentOut, forward_out-SentOut}
use wiretally.Udp.Reply.{Returned, forward_back-Returned, reply_host-forward_out}

abbrev server : SocketAddr
server = record { ip = v4 (127 ∷ 0 ∷ 0 ∷ 1 ∷ []); port = 53 }

abbrev client : SocketAddr
client = record { ip = v4 (127 ∷ 0 ∷ 0 ∷ 1 ∷ []); port = 40000 }

abbrev query : List ℕ
query = chars "query bytes"

-- The client names the server by its address.
abbrev wrapped : Datagram
wrapped = record { host = ip_text server.ip; port = 53; payload = query }

abbrev server_octets : IsAddr server.ip
server_octets = (refl, (omega arith, (omega arith, (omega arith, (omega arith, tt)))))

wrapped_parses : parse_datagram (encode_datagram server query []) ≡ ok wrapped
wrapped_parses = parse_datagram-encode_datagram server query [] server_octets

abbrev fresh : Relay
fresh = bind new false

fresh-IsRelay : IsRelay new fresh
fresh-IsRelay = bind-IsRelay new false new-IsRegistry

-- Two parsed datagrams to the server, and its two answers.
abbrev exchanged : Relay
exchanged = forward_back server query (ok 21) (
    forward_datagram (ok wrapped) (ok (server ∷ [])) (ok 11) (
      forward_back server query (ok 21)
        (record (forward_datagram (ok wrapped) (ok (server ∷ [])) (ok 11) fresh) {
          client_addr = some client;
        })))

exchange_counts :
    ((read exchanged.registry 0).egress ≡ 22)
    × ((read exchanged.registry 0).ingress ≡ 22)
    × ((read exchanged.registry 0).connections ≡ 1)
    × (exchanged.to_upstream ≡ (server, query) ∷ (server, query) ∷ [])
unfolding forward_back forward_datagram bind read update Map.get Map.insert Stats.endpoint new
    ip_text ip_eq text_eq add_egress add_ingress add_connection observe_ip
exchange_counts = (refl, refl, refl, refl)

-- A datagram that cannot be resolved is dropped.
abbrev unresolvable : Event
unresolvable = from_client (encode_datagram server query []) client (err (os_error 8)) (ok 0)

run-connections_example :
    connections_of
      (run (unresolvable ∷ from_upstream query server (ok 21) ∷ []) (bind new true)).registry
      (ip_text server.ip)
    ≡ once (connections_of new (ip_text server.ip)) (
        Map.get
          (ip_text server.ip)
          (run (unresolvable ∷ from_upstream query server (ok 21) ∷ []) (bind new true)).endpoints)
run-connections_example =
    run-connections new true (unresolvable ∷ from_upstream query server (ok 21) ∷ [])
      (ip_text server.ip) new-IsRegistry

forward_out-SentOut_example :
    SentOut
      (parse_datagram (encode_datagram server query []))
      (ok (server ∷ []))
      (ok 11)
      fresh
      (forward_out (encode_datagram server query []) (ok (server ∷ [])) (ok 11) fresh)
forward_out-SentOut_example =
    forward_out-SentOut new fresh (encode_datagram server query []) (ok (server ∷ [])) (ok 11)
      fresh-IsRelay

-- A relay that the client has sent something to.
abbrev called : Relay
called = record fresh { client_addr = some client }

called-IsRelay : IsRelay new called
called-IsRelay = same-IsRelay new fresh called refl refl fresh-IsRelay

-- A query is sent and answered.
abbrev exchange : List Event
exchange =
    from_client (encode_datagram server query []) client (ok (server ∷ [])) (ok 11)
    ∷ from_upstream query server (ok 21)
    ∷ []

forward_back-Returned_example :
    Returned
      (told_by exchange untold).client
      (credited server.ip (told_by exchange untold).sends)
      server
      query
      (ok 21)
      (run exchange (bind new false))
      (forward_back server query (ok 21) (run exchange (bind new false)))
forward_back-Returned_example =
    forward_back-Returned new false exchange server query (ok 21) new-IsRegistry server_octets

reply_host-forward_out_example :
    reply_host server
      (forward_out (encode_datagram server query []) (ok (server ∷ [])) (ok 11) fresh)
    ≡ ip_text server.ip
unfolding resolve bind Map.get
reply_host-forward_out_example =
    reply_host-forward_out fresh (encode_datagram server query []) wrapped (ok (server ∷ [])) 11
      server server wrapped_parses refl refl

note_texts :
    (note_text (λ e. []) (sent 12 (chars "a.dev") 53) ≡ chars "UDP   -> 12 bytes a.dev:53")
    × (note_text (λ e. []) (dropped (fragmented 1))
        ≡ chars "UDP   -- dropped datagram: fragmented datagram (FRAG 0x01) is not supported")
    × (note_text
          (λ e. chars "eof")
          (send_failed (record { ip = v4 (10 ∷ 0 ∷ 0 ∷ 1 ∷ []); port = 53 }) unexpected_eof)
        ≡ chars "UDP   -- send to 10.0.0.1:53 failed: eof")
unfolding note_text byte_hex hex ip_text
note_texts = (refl, refl, refl)

run_bytes_example :
    ((or_default (counters (run exchange (bind new false)).registry (ip_text server.ip))).egress
      ≡ ((or_default (counters new (ip_text server.ip))).egress
          + all_sent exchange untold (ip_text server.ip))
        % u64_mod)
    × ((or_default (counters (run exchange (bind new false)).registry (ip_text server.ip))).ingress
        ≡ ((or_default (counters new (ip_text server.ip))).ingress
            + all_returned exchange untold (ip_text server.ip))
          % u64_mod)
unfolding new counters Map.get
run_bytes_example =
    run_bytes new false exchange (ip_text server.ip) new-IsRegistry
      (record { ingress_lt = omega arith; egress_lt = omega arith })
