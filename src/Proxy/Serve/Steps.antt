-- ===== src/Proxy/Serve/Steps.antt =====
-- A connection's task is a run of the tasks' steps, from the start of its guard to the end.
use wiretally.Prelude.{
  ℕ, suc, ◌+◌, ◌≡◌, refl, ap, sym, subst, Option, none, some, List, [], length, Result, ok, err,
  Exec, arith,
}
use mathlib.Core.Path.{ap₂}
use wiretally.Text.{Text}
use wiretally.Net.{SocketAddr}
use wiretally.Stream.{IoError, Stream}
use wiretally.Stats.{track_open}
use wiretally.Io.{ByteStream, Rewind, rewind_new}
use wiretally.Udp.{Event}
use wiretally.Proxy.Tunnel.{Connection, ProxyError, hyper, Route, handle_connection}
use wiretally.Proxy.Http.{
  Hyper, HttpRequest, HttpResponse, responded, send_absolute, send_request, absolutize, forward,
}
use wiretally.Proxy.Association.{relay_udp}
use wiretally.Proxy.Association.Served.{relay_udp-Served}
use wiretally.Proxy.Serve.Ends.{splice-Uses, map_err-state, Served-Uses}
use wiretally.Proxy.Tasks.{Tasks, ◌⟶*◌, starts, returns, here, then}
use wiretally.Proxy.Tasks.Uses.{Uses, unused, Uses-steps, steps-trans}
use wiretally.Proxy.Serve.{
  Answers, Web, ServeConnection, splice, no_sockets, associated, task_done, serve_http, follow,
  followed, connection_task,
}
use wiretally.Proxy.Serve.Routes.{Answered, handle_connection-Answered}
use wiretally.Proxy.Serve.Sockets.{WebSteps, idle, tasks_at, WebSteps-steps}

module _ (S : Type 0) where
  -- However many guards others hold: a run of the tasks' steps, with the sockets that hyper is left with.
  abbrev Ended : Connection → Option (Result ProxyError (Unit {0}) × Web S) → Type 0
  Ended c none = ⊥
  Ended c (some (r, w)) =
      (s : Tasks) (m : ℕ)
      → tasks_at {S = S} s m (record { pool = []; connection = c }) ⟶* tasks_at s m w

  no_sockets-Ended :
      (x : Result ProxyError (Unit {0}) × Connection) (c : Connection)
      → Uses c.registry x.1.registry
      → Ended c (some (no_sockets x))
  unfolding no_sockets
  no_sockets-Ended (r, c') c u s m =
      Uses-steps (tasks_at {S = S} s m (record { pool = []; connection = c })) u

  associated-Ended :
      (answer : Result IoError (Result IoError SocketAddr)) (events : List Event) (c : Connection)
      → Ended c (associated (relay_udp answer events c))
  unfolding associated
  associated-Ended answer events c =
      let (a, e, served) = relay_udp-Served answer events c in
      rw e (no_sockets-Ended (a.result, a.connection) c (Served-Uses answer events c a served))

  Ended-after :
      (c c' : Connection) (x : Option (Result ProxyError (Unit {0}) × Web S))
      → Uses c.registry c'.registry
      → Ended c' x
      → Ended c x
  Ended-after c c' none u h = h
  Ended-after c c' (some (r, w)) u h = λ s m.
      steps-trans (Uses-steps (tasks_at {S = S} s m (record { pool = []; connection = c })) u)
        (h s m)

  -- The guard around it.
  task_done-steps :
      (c : Connection) (s : Tasks) (n : ℕ) (x : Option (Result ProxyError (Unit {0}) × Web S))
      → s.spawned ≡ suc n
      → s.registry ≡ c.registry
      → Ended (record c { registry = track_open c.registry }) x
      → (w : Web S) × (task_done x ≡ some w)
        × (s ⟶* record s {
          registry = w.connection.registry;
          spawned = n;
          sockets = length w.pool + s.sockets;
        })
  unfolding task_done
  task_done-steps c s n none waits same h = absurd h
  task_done-steps c s n (some (r, w)) waits same h =
      let started : Tasks = record s {
        registry = track_open s.registry;
        spawned = n;
        handled = suc s.handled;
      } in
      let run : started ⟶* tasks_at started s.sockets w =
        subst (λ t. t ⟶* tasks_at started s.sockets w)
          (ap₂ (λ r (k : ℕ). record started { registry = r; sockets = k })
            (ap track_open (sym same)) (omega arith))
          (h started s.sockets) in
      (
        _,
        refl,
        then (starts s n waits)
            (steps-trans run (then (returns (tasks_at started s.sockets w) s.handled refl) here)),
      )

module _ {H V U B R S : Type 0} (y : Hyper H V U) (client : HttpRequest H U B → Exec (Web S) Text R)
    (serve_connection : ServeConnection (Web S) (HttpRequest H U B) (HttpResponse R))
    (tcp : ByteStream Stream) (upstream : ByteStream S) where
  -- What hyper documents of itself: a client connects by its connector and then works with the sockets that
  -- it got, and a server calls its service, and reads the bodies of the responses.
  pub record HyperLaws : Type 0 where
    pub client_steps :
        (req : HttpRequest H U B) (w : Web S) → WebSteps y.parts upstream w (client req w).1
    pub serve_steps :
        (service : HttpRequest H U B → Web S → HttpResponse R × Web S)
        → ((req : HttpRequest H U B) (w : Web S) → WebSteps y.parts upstream w (service req w).1)
        → (s : Rewind Stream) (w : Web S)
        → WebSteps y.parts upstream w (serve_connection s service w).1

  responded-state : (x : Result Text R × Web S) → (responded x).1 ≡ x.1
  unfolding responded
  responded-state (ok r, w) = refl
  responded-state (err e, w) = refl

  send_absolute-WebSteps :
      HyperLaws
      → (x : Result Text (HttpRequest H U B)) (w : Web S)
      → WebSteps y.parts upstream w (send_absolute client x w).1
  unfolding send_absolute
  send_absolute-WebSteps laws (ok req) w =
      subst (λ w'. WebSteps y.parts upstream w w') (sym (responded-state (client req w)))
        (laws.client_steps req w)
  send_absolute-WebSteps laws (err e) w = idle

  send_request-WebSteps :
      HyperLaws
      → (authority : Option Text) (req : HttpRequest H U B) (w : Web S)
      → WebSteps y.parts upstream w (send_request y client authority req w).1
  unfolding send_request
  send_request-WebSteps laws (some a) req w =
      subst (λ w'. WebSteps y.parts upstream w w') (sym (responded-state (client req w)))
        (laws.client_steps req w)
  send_request-WebSteps laws none req w = send_absolute-WebSteps laws (absolutize y req) w

  forward-WebSteps :
      HyperLaws
      → (req : HttpRequest H U B) (w : Web S)
      → WebSteps y.parts upstream w (forward y client req w).1
  unfolding forward
  forward-WebSteps laws req w = send_request-WebSteps laws _ _ w

  serve_http-Ended :
      HyperLaws
      → (s : Rewind Stream) (c : Connection)
      → Ended S c (some (serve_http y client serve_connection tcp s c))
  unfolding serve_http
  serve_http-Ended laws s c t m =
      let w : Web S = record { pool = []; connection = c } in
      subst (λ (w' : Web S). tasks_at t m w ⟶* tasks_at t m w')
        (sym (map_err-state hyper (serve_connection s (forward y client) w)))
        (WebSteps-steps y.parts upstream t m
          (laws.serve_steps (forward y client) (forward-WebSteps laws) s w))

  follow-Ended :
      HyperLaws
      → (route : Route) (a : Answers) (c : Connection)
      → Ended S c (follow y client serve_connection tcp route a c)
  unfolding follow
  follow-Ended laws Route.closed a c = no_sockets-Ended S (ok tt, c) c unused
  follow-Ended laws (Route.failed e) a c = no_sockets-Ended S (err e, c) c unused
  follow-Ended laws (Route.tunnel t) a c =
      no_sockets-Ended S (splice tcp a t c) c (splice-Uses tcp a t c)
  follow-Ended laws (Route.http head) a c = serve_http-Ended laws (rewind_new head c.client) c
  follow-Ended laws Route.udp a c = associated-Ended S a.binding a.events c

  followed-Ended :
      HyperLaws
      → (x : Option (Route × Connection)) (a : Answers) (c : Connection) → Answered c.registry x
      → Ended S c (followed y client serve_connection tcp x a)
  unfolding followed
  followed-Ended laws none a c h = h
  followed-Ended laws (some (route, c')) a c h =
      Ended-after S c c' (follow y client serve_connection tcp route a c') h
        (follow-Ended laws route a c')

  -- The task of a connection that was accepted always ends, whatever the client sends and whatever the
  -- system answers, if hyper keeps to what it documents. It is a run of the steps of all tasks: it
  -- starts, with its guard, works with the registry, opens and drops sockets with a guard each, and
  -- returns, with its guard dropped. The guards of the sockets that hyper is left with are still held.
  pub connection_task_steps :
      HyperLaws
      → (a : Answers) (c : Connection) (s : Tasks) (n : ℕ) → s.spawned ≡ suc n
      → s.registry ≡ c.registry
      → (w : Web S) × (connection_task y client serve_connection tcp a c ≡ some w)
        × (s ⟶* record s {
          registry = w.connection.registry;
          spawned = n;
          sockets = length w.pool + s.sockets;
        })
  unfolding connection_task
  connection_task_steps laws a c s n waits same =
      let c' : Connection = record c { registry = track_open c.registry } in
      let x = handle_connection a.nodelay a.connecting c' in
      task_done-steps S c s n (followed y client serve_connection tcp x a) waits same
        (followed-Ended laws x a c' (handle_connection-Answered a.nodelay a.connecting c'))
