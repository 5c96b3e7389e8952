-- ===== src/Proxy/Association/Served.antt =====
-- A UDP association comes to one of its outcomes.
use wiretally.Prelude.{
  ◌+◌, ◌%◌, ◌≡◌, refl, subst, ap, sym, ◌∙◌, Bool-cases, inl, inr, Option, none, some, Option-cases,
  List, [], ◌∷◌, ◌++◌, append_assoc, append-nil, length, Result, ok, err, if◌then◌else◌, arith,
}
use mathlib.Core.Path.{ap₂}
use wiretally.Text.{Text, chars}
use wiretally.Net.{IpAddr, v4, v6, to_be_bytes, SocketAddr, socket_text}
use wiretally.Stream.{IoError, Stream, write_all, write_all-ok}
use wiretally.Io.{ConnLog, LogLine, event}
use wiretally.Socks.{rep_success, rep_general_failure, addr_bytes, reply, reply_bound}
use wiretally.Stats.{u64_mod, next_id}
use wiretally.Udp
use wiretally.Udp.{Relay, Event}
use wiretally.Proxy.Tunnel.{Connection, io, conn_log}
use wiretally.Proxy.Association.Discard.{discard_loop-ReadOut}
use wiretally.Proxy.Association.Outcome.{
  address_bytes, announcement, failure_told, association_lines, numbered, Relayed, Told, Served,
}
use wiretally.Proxy.Association.{
  Associated, log_if, has_log, discard, hung_up, announced, relay_bound, relay_udp,
}

abbrev udp_log : Connection → Option ConnLog
udp_log c =
    if c.verbose then some (record { id = (next_id c.registry).0; target = chars "udp" }) else none

conn_log_udp : (c : Connection) → conn_log (chars "udp") c ≡ (udp_log c, numbered c)
unfolding conn_log
conn_log_udp c = elim (Bool-cases c.verbose) [ inl on ↦ rw on refl | inr off ↦ rw off refl ]

has_log_udp : (c : Connection) → has_log (udp_log c) ≡ c.verbose
has_log_udp c = elim (Bool-cases c.verbose) [ inl on ↦ rw on refl | inr off ↦ rw off refl ]

abbrev lines_of : Option ConnLog → SocketAddr → List LogLine
lines_of none bound = []
lines_of (some log) bound =
    (log.id, chars "OPEN  -> udp relay on " ++ socket_text bound)
    ∷ (log.id, chars "CLOSE -> udp relay")
    ∷ []

log_if-lines :
    (log : Option ConnLog) (d d' : Connection) (bound : SocketAddr)
    → d'.lines ≡ (log_if log (chars "OPEN  -> udp relay on " ++ socket_text bound) d).lines
    → (log_if log (chars "CLOSE -> udp relay") d').lines ≡ d.lines ++ lines_of log bound
unfolding log_if event
log_if-lines none d d' bound e = e ∙ sym (append-nil d.lines)
log_if-lines (some log) d d' bound e =
    ap (λ l. l ++ (log.id, chars "CLOSE -> udp relay") ∷ []) e ∙ append_assoc d.lines _ _

lines_of-udp_log :
    (c : Connection) (bound : SocketAddr)
    → lines_of (udp_log c) bound
      ≡ association_lines c.verbose ((c.registry.next_conn_id + 1) % u64_mod) bound
unfolding next_id
lines_of-udp_log c bound = elim (Bool-cases c.verbose) [
  | inl on ↦ rw on refl
  | inr off ↦ rw off refl
]

log_if-registry :
    (log : Option ConnLog) (body : Text) (c : Connection)
    → ((log_if log body c).registry ≡ c.registry) × ((log_if log body c).client ≡ c.client)
unfolding log_if
log_if-registry none body c = (refl, refl)
log_if-registry (some log) body c = (refl, refl)

relay_udp_log :
    (answer : Result IoError (Result IoError SocketAddr)) (events : List Event) (c : Connection)
    → relay_udp answer events c ≡ relay_bound answer events (udp_log c) (numbered c)
unfolding relay_udp
relay_udp_log answer events c = ap (λ x. relay_bound answer events x.0 x.1) (conn_log_udp c)

numbered_kept : (c : Connection) → ((numbered c).client ≡ c.client) × ((numbered c).lines ≡ c.lines)
numbered_kept c = elim (Bool-cases c.verbose) [
  | inl on ↦ rw on (refl, refl)
  | inr off ↦ rw off (refl, refl)
]

addr_bytes_lem : (ip : IpAddr) → addr_bytes ip ≡ address_bytes ip
unfolding addr_bytes
addr_bytes_lem (v4 octets) = refl
addr_bytes_lem (v6 octets) = refl

reply_bound-ok :
    (bound : SocketAddr) (s : Stream)
    → s.broken ≡ none
    → reply_bound rep_success bound s
      ≡ (ok tt, record s { outgoing = announcement bound s.outgoing })
unfolding reply_bound write_all to_be_bytes
reply_bound-ok bound s h = rw (addr_bytes_lem bound.ip) (write_all-ok s (announcement bound []) h)

reply-failure_told : (s : Stream) → (reply rep_general_failure s).1 ≡ failure_told s
unfolding reply write_all
reply-failure_told s = ground arith

reply_bound-err :
    (bound : SocketAddr) (s : Stream) (e : IoError)
    → s.broken ≡ some e
    → reply_bound rep_success bound s ≡ (err e, s)
unfolding reply_bound write_all
reply_bound-err bound s e h = ground (arith, h)

relay_bound-Relayed :
    (bound : SocketAddr) (events : List Event) (c : Connection)
    → c.client.broken ≡ none
    → (a : Associated) × (relay_bound (ok (ok bound)) events (udp_log c) (numbered c) ≡ some a)
      × Relayed bound events c a
unfolding relay_bound announced hung_up discard
relay_bound-Relayed bound events c whole =
    let n = numbered c in
    let (same_client, same_lines) = numbered_kept c in
    let s = record n.client { outgoing = announcement bound n.client.outgoing } in
    let log = udp_log c in
    let d =
      log_if log (chars "OPEN  -> udp relay on " ++ socket_text bound) (record n { client = s }) in
    let (s', ends, r) = discard_loop-ReadOut (length s.incoming) s (omega arith) in
    let relay = Udp.run events (Udp.bind d.registry (has_log log)) in
    let d' = record d { client = s'; registry = relay.registry } in
    let told = reply_bound-ok bound n.client (ap (λ x. x.broken) same_client ∙ whole) in
    let (kept, _) =
      log_if-registry log (chars "OPEN  -> udp relay on " ++ socket_text bound)
        (record n { client = s }) in
    let relay_eq : relay ≡ Udp.run events (Udp.bind n.registry c.verbose) =
      ap₂ (λ x v. Udp.run events (Udp.bind x v)) kept (has_log_udp c) in
    let (out_registry, out_client) = log_if-registry log (chars "CLOSE -> udp relay") d' in
    (
      record {
        result = ok tt;
        connection = log_if log (chars "CLOSE -> udp relay") d';
        relay = some relay;
      },
      ap (λ x. announced x bound events log n) told ∙ ap (λ x. hung_up x log relay d) ends,
      record {
        succeeded = refl;
        relayed = ap some relay_eq;
        registry = out_registry ∙ ap (λ t. t.registry) relay_eq;
        told =
            ap (λ x. x.outgoing) out_client
            ∙ r.same_output
            ∙ ap (λ x. announcement bound x.outgoing) same_client;
        read_out = ap (λ x. x.incoming) out_client ∙ r.all_read;
        lines =
            log_if-lines log (record n { client = s }) d' bound refl
            ∙ ap₂ (λ l m. l ++ m) same_lines (lines_of-udp_log c bound);
      },
    )

relay_bound-Served :
    (answer : Result IoError (Result IoError SocketAddr)) (events : List Event) (c : Connection)
    → (a : Associated) × (relay_bound answer events (udp_log c) (numbered c) ≡ some a)
      × Served answer events c a
unfolding relay_bound announced
relay_bound-Served (err e) events c = (
  _,
  refl,
  record {
    failed = refl;
    no_relay = refl;
    connection =
        ap (λ s. record (numbered c) { client = s })
          (ap (λ s. (reply rep_general_failure s).1) (numbered_kept c).0
            ∙ reply-failure_told c.client);
  },
)
relay_bound-Served (ok (err e)) events c = (
  _,
  refl,
  record {
    failed = refl;
    no_relay = refl;
    connection = ap (λ s. record (numbered c) { client = s }) (numbered_kept c).0;
  },
)
relay_bound-Served (ok (ok bound)) events c = elim (Option-cases c.client.broken) [
  | inl whole ↦
      let (a, e, relayed) = relay_bound-Relayed bound events c whole in
      (a, e, subst (λ o. Told o bound events c a) (sym whole) relayed)
  | inr (x, broken) ↦
      let same = (numbered_kept c).0 in
      let a : Associated = record {
        result = err (io x);
        connection = record (numbered c) { client = (numbered c).client };
        relay = none;
      } in
      (
        a,
        ap (λ y. announced y bound events (udp_log c) (numbered c))
            (reply_bound-err bound (numbered c).client x (ap (λ s. s.broken) same ∙ broken)),
        subst (λ o. Told o bound events c a) (sym broken)
            (record {
              failed = refl;
              no_relay = refl;
              connection = ap (λ s. record (numbered c) { client = s }) same;
            }),
      )
]

-- A UDP association always ends with its control connection, and its outcome is one of these. If the
-- sockets cannot be bound, the client, if it can be written to, gets the reply of a general failure.
-- If the client can be sent the success reply with the type, the octets and the port of the relay's
-- address, the relay
-- handles its datagrams with the registry that all share, until the control connection has been read
-- to its end, and in verbose mode the log has just one line for its start and one for its end. If the
-- address is not known, or the client cannot be told it, no relay runs.
pub relay_udp-Served :
    (answer : Result IoError (Result IoError SocketAddr)) (events : List Event) (c : Connection)
    → (a : Associated) × (relay_udp answer events c ≡ some a) × Served answer events c a
relay_udp-Served answer events c =
    let (a, e, served) = relay_bound-Served answer events c in
    (a, relay_udp_log answer events c ∙ e, served)
