-- ===== src/Proxy/Connector/Lifetime.antt =====
-- An upstream socket from its connection to its end.
use wiretally.Prelude.{
  ℕ, ◌+◌, ◌%◌, ◌<◌, ◌≡◌, refl, ap, ◌∙◌, Bool-cases, inl, inr, Option, none, some, Option-cases,
  List, [], ◌∷◌, Result, ok, err, if◌then◌else◌, arith,
}
use wiretally.Text.{Text}
use wiretally.Stream.{IoError}
use wiretally.Stats
use wiretally.Map.{text_key}
use wiretally.Stats.{Registry, next_id, u64_mod, track_open, drop_guard, update}
use wiretally.Io.{ByteStream, pending, ready, ConnLog}
use wiretally.Io.Run.{Op, read, write, write_vectored, flush, shutdown, Outcome, got, put, done}
use wiretally.Proxy.Tunnel.{host_port, Connection, Connected, conn_log}
use wiretally.Proxy.Splice.{Shared, Counted, attached, poll_counted, log_close}
use wiretally.Stats.Open.{endpoint-open_connections}
use wiretally.Proxy.{split_authority}
use wiretally.Proxy.Connector.Lines.{closes, closes-log_open, closes-log_close, closes-step}
use wiretally.Proxy.Connector.{
  default_port, CountedStream, CloseLog, close_log_of, established, connect_counted, call_authority,
  call, UriParts, shut, poll_stream, poll_all, drop_stream, drop_close_log, delegated,
}

-- The line that a socket has still to log.
abbrev owed : Option CloseLog → ℕ
owed none = 0
owed (some l) = 1

dropped-closes :
    (l : Option CloseLog) (sh : Shared)
    → (closes (drop_close_log l sh).lines ≡ closes sh.lines + owed l)
      × ((drop_close_log l sh).registry ≡ sh.registry)
unfolding drop_close_log log_close
dropped-closes none sh = (omega arith, refl)
dropped-closes (some l) sh = (closes-log_close l.log l.stats sh, refl)

abbrev pub shared : Connection → Shared
shared c = record { registry = c.registry; lines = c.lines }

conn_log_kept :
    (target : Text) (c : Connection) (i : ℕ)
    → ((conn_log target c).1.registry.open_connections ≡ c.registry.open_connections)
      × ((conn_log target c).1.lines ≡ c.lines)
      × (owed (close_log_of (conn_log target c).0 i) ≡ (if c.verbose then 1 else 0))
unfolding conn_log next_id close_log_of
conn_log_kept target c i = elim (Bool-cases c.verbose) [
  | inl on ↦ rw on (refl, refl, refl)
  | inr off ↦ rw off (refl, refl, refl)
]

module _ {S : Type 0} where
  record Kept (x y : CountedStream S × Shared) : Type 0 where
    lines : closes x.1.lines + owed x.0.close_log ≡ closes y.1.lines + owed y.0.close_log
    guards : x.1.registry.open_connections ≡ y.1.registry.open_connections

  poll_counted-Kept :
      (b : ByteStream S) (op : Op) (t : Counted S) (sh : Shared)
      → (closes (poll_counted b op t sh).1.1.lines ≡ closes sh.lines)
        × ((poll_counted b op t sh).1.1.registry.open_connections ≡ sh.registry.open_connections)
  unfolding poll_counted update
  poll_counted-Kept b op t sh = (closes-step b op (attached t sh), refl)

  shut-Kept : (o : Outcome) (s : CountedStream S) (sh : Shared) → Kept (shut o s sh).1 (s, sh)
  unfolding shut
  shut-Kept (done (ready r)) s sh =
      let (a, e) = dropped-closes s.close_log sh in
      record { lines = omega (arith, a); guards = ap (λ x. x.open_connections) e }
  shut-Kept (done pending) s sh = record { lines = refl; guards = refl }
  shut-Kept (got p) s sh = record { lines = refl; guards = refl }
  shut-Kept (put p) s sh = record { lines = refl; guards = refl }

  Kept-trans : (x y z : CountedStream S × Shared) → Kept x y → Kept y z → Kept x z
  Kept-trans x y z p q = record { lines = p.lines ∙ q.lines; guards = p.guards ∙ q.guards }

  delegated-Kept :
      (b : ByteStream S) (op : Op) (s : CountedStream S) (sh : Shared)
      → Kept (delegated (poll_counted b op s.io sh) s).1 (s, sh)
  unfolding delegated
  delegated-Kept b op s sh =
      let (a, e) = poll_counted-Kept b op s.io sh in record { lines = omega (arith, a); guards = e }

  poll_stream-Kept :
      (b : ByteStream S) (op : Op) (s : CountedStream S) (sh : Shared)
      → Kept (poll_stream b op s sh).1 (s, sh)
  unfolding poll_stream delegated
  poll_stream-Kept b (read room) s sh = delegated-Kept b (read room) s sh
  poll_stream-Kept b (write buf) s sh = delegated-Kept b (write buf) s sh
  poll_stream-Kept b (write_vectored bufs) s sh = delegated-Kept b (write_vectored bufs) s sh
  poll_stream-Kept b flush s sh = delegated-Kept b flush s sh
  poll_stream-Kept b shutdown s sh =
      let (o, (s', sh')) = delegated (poll_counted b shutdown s.io sh) s in
      Kept-trans _ _ _ (shut-Kept o s' sh') (delegated-Kept b shutdown s sh)

  poll_all-Kept :
      (b : ByteStream S) (ops : List Op) (s : CountedStream S) (sh : Shared)
      → Kept (poll_all b ops s sh) (s, sh)
  unfolding poll_all
  poll_all-Kept b [] s sh = record { lines = refl; guards = refl }
  poll_all-Kept b (op ∷ ops) s sh =
      let (o, (s', sh')) = poll_stream b op s sh in
      Kept-trans _ _ _ (poll_all-Kept b ops s' sh') (poll_stream-Kept b op s sh)

  abbrev pub Ends : ByteStream S → List Op → Connection → CountedStream S → Shared → Type 0
  Ends b ops c s sh0 =
      let (s', sh) = poll_all b ops s sh0 in
      (sh.registry.open_connections ≡ (c.registry.open_connections + 1) % u64_mod)
      × ((drop_stream s' sh).registry.open_connections ≡ c.registry.open_connections)
      × (closes (drop_stream s' sh).lines ≡ closes c.lines + (if c.verbose then 1 else 0))

  -- What has become of the guards and of the lines that close a connection, when an attempt failed, and
  -- when a socket was polled, and was dropped then.
  abbrev pub Lifetime :
      ByteStream S → List Op → Connection → Result IoError (CountedStream S) × Connection → Type 0
  Lifetime b ops c (err e, c') =
      (c'.registry.open_connections ≡ c.registry.open_connections)
      × (closes c'.lines ≡ closes c.lines)
  Lifetime b ops c (ok s, c') = Ends b ops c s (shared c')

  kept-Ends :
      (b : ByteStream S) (ops : List Op) (c : Connection) (s : CountedStream S) (sh : Shared)
      → c.registry.open_connections < u64_mod
      → sh.registry.open_connections ≡ (c.registry.open_connections + 1) % u64_mod
      → closes sh.lines ≡ closes c.lines
      → owed s.close_log ≡ (if c.verbose then 1 else 0)
      → Ends b ops c s sh
  unfolding drop_stream drop_guard
  kept-Ends b ops c s sh v opened same verbose =
      let k = poll_all-Kept b ops s sh in
      let (s', sh') = poll_all b ops s sh in
      let (a, e) =
        dropped-closes s'.close_log (record sh' { registry = drop_guard sh'.registry }) in
      (
        k.guards ∙ opened,
        omega (arith, ap (λ r. r.open_connections) e, k.guards, opened, v),
        omega (arith, a, k.lines, same, verbose),
      )

  established-Lifetime :
      (b : ByteStream S) (ops : List Op) (answer : Connected) (socket : S) (i : ℕ)
      (log : Option ConnLog) (host : Text) (port : ℕ) (c c' : Connection)
      → c.registry.open_connections < u64_mod
      → c'.registry.open_connections ≡ c.registry.open_connections
      → c'.lines ≡ c.lines
      → owed (close_log_of log i) ≡ (if c.verbose then 1 else 0)
      → Lifetime b ops c (established answer socket i log host port c')
  unfolding established drop_stream drop_guard track_open update
  established-Lifetime b ops (err e) socket i log host port c c' v same lines verbose =
      (same, ap closes lines)
  established-Lifetime b ops (ok (err e, peer)) socket i log host port c c' v same lines verbose =
      (same, ap closes lines)
  established-Lifetime b ops (ok (ok u, peer)) socket i log host port c c' v same lines verbose =
      let (seen, opened) = closes-log_open log c' i peer host port in
      let (s, c'') = established (ok (ok u, peer)) socket i log host port c' in
      kept-Ends b ops c _ _ v (omega (arith, opened)) (seen ∙ ap closes lines) verbose

  connect_counted-Lifetime :
      (b : ByteStream S) (ops : List Op) (answer : Connected) (socket : S) (host : Text) (port : ℕ)
      (c : Connection)
      → c.registry.open_connections < u64_mod
      → Lifetime b ops c (connect_counted answer socket host port c)
  unfolding connect_counted
  connect_counted-Lifetime b ops answer socket host port c v =
      let (i, r) = Stats.endpoint host c.registry in
      let c1 = record c { registry = r } in
      let (log, c') = conn_log (host_port host port) c1 in
      let (kept_open, kept_lines, kept_owed) = conn_log_kept (host_port host port) c1 i in
      established-Lifetime b ops answer socket i log host port c c' v
        (kept_open ∙ endpoint-open_connections host c.registry) kept_lines kept_owed

  -- Whatever the `Uri` and the answers of the system, if fewer than 2 ^ 64 guards are open: an attempt
  -- that fails leaves the guards and logs no line that closes a connection. A socket has one guard more
  -- open for as long as it lives, however it is polled, and when it has been dropped the guard is closed,
  -- and in verbose mode just one closing line was logged for it, otherwise none.
  pub call-Lifetime :
      {U : Type 0} (parts : UriParts U) (uri : U) (b : ByteStream S) (ops : List Op)
      (answer : Connected) (socket : S) (c : Connection)
      → c.registry.open_connections < u64_mod
      → Lifetime b ops c (call parts uri answer socket c)
  unfolding call call_authority
  call-Lifetime parts uri b ops answer socket c v = elim (Option-cases (parts.authority uri)) [
    | inl missing ↦ rw missing (refl, refl)
    | inr (a, e) ↦
        let (host, port) = split_authority a (default_port (parts.scheme_str uri)) in
        rw e (connect_counted-Lifetime b ops answer socket host port c v)
  ]
