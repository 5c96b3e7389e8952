-- ===== src/Proxy/Serve/Datagrams.antt =====
-- A client of a UDP association from its first byte to the counters.
use wiretally.Prelude.{
  ℕ, ◌+◌, ◌%◌, ◌≡◌, refl, ap, sym, subst, ◌∙◌, true, none, some, List, [], ◌∷◌, ◌++◌, Bool-cases,
  inl, inr, ok, Exec,
}
use wiretally.Text.{Text}
use wiretally.Net.{SocketAddr}
use wiretally.Stream.{Stream}
use wiretally.Map.{text_key}
use wiretally.Stats.{Registry, u64_mod, read, next_id, track_open}
use wiretally.Stats.View.{IsRegistry, counters, or_default}
use wiretally.Io.{ByteStream}
use wiretally.Io.Metered.{IsCounted}
use wiretally.Socks.{contains, method_none, version, cmd_udp_associate}
use wiretally.Socks.Wire.{Target, IsTarget}
use wiretally.Socks.Handshake.{client_greeting, client_request, accept_complete}
use wiretally.Udp
use wiretally.Udp.Amounts.{untold, all_sent, all_returned}
use wiretally.Udp.Bytes.{run_bytes}
use wiretally.Proxy.Tunnel.{
  Connection, Route, Connected, handle_connection, peeked, serve_socks, serve_command,
}
use wiretally.Proxy.Association.{Associated, relay_udp}
use wiretally.Proxy.Association.Outcome.{numbered, announcement, Relayed, Told}
use wiretally.Proxy.Association.Served.{relay_udp-Served}
use wiretally.Proxy.Http.{Hyper, HttpRequest, HttpResponse}
use wiretally.Proxy.Tasks.Invariant.{Uses-IsRegistry, track_open-IsRegistry}
use wiretally.Proxy.Serve.{
  Answers, Web, ServeConnection, no_sockets, associated, task_done, follow, followed,
  connection_task,
}
use wiretally.Proxy.Serve.Ends.{numbered-Uses}
use wiretally.Proxy.Serve.Account.{counters-track_open, counters-drop_guard}

-- The bytes of a client that asks for an association.
abbrev pub associate_request : List ℕ → ℕ → ℕ → ℕ → Target → List ℕ → List ℕ
associate_request methods rsv hi lo t rest =
    client_greeting methods (client_request cmd_udp_associate rsv t (hi ∷ lo ∷ []) rest)

handle_connection_associate :
    (answer : Connected) (c : Connection) (methods rest : List ℕ) (rsv hi lo : ℕ) (t : Target)
    → contains method_none methods ≡ true
    → IsTarget t
    → c.client.broken ≡ none
    → c.client.incoming ≡ associate_request methods rsv hi lo t rest
    → handle_connection (ok tt) answer c
      ≡ some (
        Route.udp,
        record c {
          client = record c.client {
            incoming = rest;
            outgoing = c.client.outgoing ++ version ∷ method_none ∷ [];
          };
        },
      )
unfolding handle_connection peeked serve_socks serve_command
handle_connection_associate answer c methods rest rsv hi lo t offered v writable e =
    ap
      (λ bytes.
        handle_connection (ok tt) answer
          (record c { client = record c.client { incoming = bytes } }))
      e
    ∙ rw (accept_complete c.client methods rest cmd_udp_associate rsv hi lo t offered v writable)
        refl

counters-numbered :
    (c : Connection) (h : Text) → counters (numbered c).registry h ≡ counters c.registry h
unfolding next_id counters read
counters-numbered c h = elim (Bool-cases c.verbose) [ inl on ↦ rw on refl | inr off ↦ rw off refl ]

module _ {H V U B R S : Type 0} (y : Hyper H V U) (client : HttpRequest H U B → Exec (Web S) Text R)
    (serve_connection : ServeConnection (Web S) (HttpRequest H U B) (HttpResponse R))
    (tcp : ByteStream Stream) where
  association_task :
      (a : Answers) (c c' : Connection) (r : Associated)
      → handle_connection a.nodelay a.connecting (record c { registry = track_open c.registry })
        ≡ some (Route.udp, c')
      → relay_udp a.binding a.events c' ≡ some r
      → (w : Web S) × (connection_task y client serve_connection tcp a c ≡ some w)
        × (w.pool ≡ [])
        × (w.connection.client ≡ r.connection.client)
        × ((h : Text) → counters w.connection.registry h ≡ counters r.connection.registry h)
  unfolding connection_task followed follow no_sockets associated task_done
  association_task a c c' r routed ends = (
    _,
    ap (λ x. task_done (followed y client serve_connection tcp x a)) routed
        ∙ ap (λ x. task_done (associated x)) ends,
    refl,
    refl,
    counters-drop_guard r.connection.registry,
  )

  -- The whole task of a SOCKS5 client that asks for a UDP association, when the relay's sockets are
  -- bound and the client can be written to, in a registry that is well formed. The task ends when
  -- the control connection has been read to its end, the client has been told the relay's address,
  -- and no socket is left. If the counters of a host are in range, then as egress it has more the
  -- bytes that the relay's socket took of the client's datagrams for the host, and as ingress the
  -- payloads of the replies that went to the client and are credited to the host, modulo 2 ^ 64.
  pub udp_task_bytes :
      (a : Answers) (c : Connection) (methods rest : List ℕ) (rsv hi lo : ℕ) (t : Target)
      (bound : SocketAddr)
      → contains method_none methods ≡ true
      → IsTarget t
      → c.client.incoming ≡ associate_request methods rsv hi lo t rest
      → a.nodelay ≡ ok tt
      → a.binding ≡ ok (ok bound)
      → c.client.broken ≡ none
      → IsRegistry c.registry
      → (w : Web S) × (base : Registry) × (connection_task y client serve_connection tcp a c
          ≡ some w)
        × (w.pool ≡ [])
        × (w.connection.client.incoming ≡ [])
        × (w.connection.client.outgoing
            ≡ announcement bound (c.client.outgoing ++ version ∷ method_none ∷ []))
        × ((h : Text) → counters base h ≡ counters c.registry h)
        × ((h : Text)
            → IsCounted (or_default (counters c.registry h))
            → ((or_default (counters w.connection.registry h)).egress
                ≡ ((or_default (counters c.registry h)).egress + all_sent a.events untold h)
                  % u64_mod)
              × ((or_default (counters w.connection.registry h)).ingress
                  ≡ ((or_default (counters c.registry h)).ingress + all_returned a.events untold h)
                    % u64_mod))
  udp_task_bytes a c methods rest rsv hi lo t bound offered target e nodelay up whole valid =
      let c1 : Connection = record c { registry = track_open c.registry } in
      let c2 : Connection = record c1 {
        client = record c.client {
          incoming = rest;
          outgoing = c.client.outgoing ++ version ∷ method_none ∷ [];
        };
      } in
      let base = (numbered c2).registry in
      let (r, ends, served) = relay_udp-Served (ok (ok bound)) a.events c2 in
      let relayed : Relayed bound a.events c2 r =
        subst (λ o. Told o bound a.events c2 r) whole served in
      let (w, done, none_left, left, same) =
        association_task a c c2 r
          (ap (λ x. handle_connection x a.connecting c1) nodelay
            ∙ handle_connection_associate a.connecting c1 methods rest rsv hi lo t offered target
                whole e)
          (ap (λ x. relay_udp x a.events c2) up ∙ ends) in
      let before : (h : Text) → counters base h ≡ counters c.registry h =
        λ h. counters-numbered c2 h ∙ counters-track_open c.registry h in
      let after : (h : Text)
          → counters w.connection.registry h
            ≡ counters (Udp.run a.events (Udp.bind base c.verbose)).registry h =
        λ h. same h ∙ ap (λ x. counters x h) relayed.registry in
      (
        w,
        base,
        done,
        none_left,
        ap (λ (s : Stream). s.incoming) left ∙ relayed.read_out,
        ap (λ (s : Stream). s.outgoing) left ∙ relayed.told,
        before,
        λ h v.
            let (out, inward) =
              run_bytes base c.verbose a.events h
                (Uses-IsRegistry (numbered-Uses c2) (track_open-IsRegistry c.registry valid))
                (subst (λ s. IsCounted (or_default s)) (sym (before h)) v) in
            (
              ap (λ s. (or_default s).egress) (after h)
                  ∙ out
                  ∙ ap (λ s. ((or_default s).egress + all_sent a.events untold h) % u64_mod)
                      (before h),
              ap (λ s. (or_default s).ingress) (after h)
                  ∙ inward
                  ∙ ap (λ s. ((or_default s).ingress + all_returned a.events untold h) % u64_mod)
                      (before h),
            ),
      )
