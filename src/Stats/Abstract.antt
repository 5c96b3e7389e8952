-- ===== src/Stats/Abstract.antt =====
-- The registry as an abstract view: which counters each host has, whatever the map and its cells. It is
-- the quotient of the well-formed registries by that; what is reported is a function of the view.
use mathlib.Core.Quot
use mathlib.Core.Quot.{Quot, Quot-set}
use mathlib.Core.List.{Perm, foldr}
use mathlib.Core.List.Perm
use wiretally.Prelude.{
  ℕ, ◌≡◌, refl, ap, sym, ◌∙◌, Option, some, List, [], ◌∷◌, if◌then◌else◌, arith,
}
use wiretally.Text.{Text, text_eq, text_eq_iff}
use wiretally.Stats.{
  EndpointStats, Endpoint, Registry, add_ingress, add_egress, add_connection, update, endpoint,
  snapshot,
}
use wiretally.Stats.View.{
  counters, or_default, IsRegistry, endpoint-counters, updated_counters, endpoint-IsRegistry,
  update-IsRegistry,
}
use wiretally.Stats.Determined.{SameCounters, snapshot-SameCounters}

-- What a connection does through its handle of a host.
pub data Traffic : Type 0 where
  received sent : ℕ → Traffic
  connection : Traffic

abbrev pub counted : Traffic → EndpointStats → EndpointStats
counted (received n) = add_ingress n
counted (sent n) = add_egress n
counted connection = add_connection

-- The host's handle, and an update through it.
unfoldable pub touch : Text × Traffic → Registry → Registry
unfolding endpoint update add_ingress add_egress add_connection
touch (host, t) r = let (i, r') = endpoint host r in update i (counted t) r'

pub touch-IsRegistry : (e : Text × Traffic) (r : Registry) → IsRegistry r → IsRegistry (touch e r)
unfolding touch
touch-IsRegistry (host, t) r v =
    update-IsRegistry (endpoint host r).1 (endpoint host r).0 (counted t)
      (endpoint-IsRegistry r host v)

counters-touch :
    (host h : Text) (t : Traffic) (r : Registry)
    → IsRegistry r
    → counters (touch (host, t) r) h
      ≡ (if text_eq host h then some (counted t (or_default (counters r host))) else counters r h)
unfolding touch
counters-touch host h t r v =
    let (i, r') = endpoint host r in
    let (at_host, found) = endpoint-counters r host host v in
    ground (
      arith,
      updated_counters r' host h i (counted t) (endpoint-IsRegistry r host v) found,
      at_host,
      (endpoint-counters r host h v).0,
      text_eq_iff host h,
      text_eq_iff host host,
    )

counted_comm :
    (t u : Traffic) (s : EndpointStats) → counted t (counted u s) ≡ counted u (counted t s)
unfolding add_ingress add_egress add_connection
counted_comm (received m) (received n) s = ground arith
counted_comm (received m) (sent n) s = refl
counted_comm (received m) connection s = refl
counted_comm (sent m) (received n) s = refl
counted_comm (sent m) (sent n) s = ground arith
counted_comm (sent m) connection s = refl
counted_comm connection (received n) s = refl
counted_comm connection (sent n) s = refl
counted_comm connection connection s = refl

touch-SameCounters :
    (e : Text × Traffic) (r s : Registry)
    → IsRegistry r
    → IsRegistry s
    → SameCounters r s
    → SameCounters (touch e r) (touch e s)
touch-SameCounters (host, t) r s v w same h =
    ground (arith, counters-touch host h t r v, counters-touch host h t s w, same host, same h)

pub touch_swap :
    (e f : Text × Traffic) (r : Registry)
    → IsRegistry r
    → SameCounters (touch e (touch f r)) (touch f (touch e r))
touch_swap (a, t) (b, u) r v h = ground (
  arith,
  counters-touch a h t (touch (b, u) r) (touch-IsRegistry (b, u) r v),
  counters-touch b h u (touch (a, t) r) (touch-IsRegistry (a, t) r v),
  counters-touch a h t r v,
  counters-touch a b t r v,
  counters-touch b h u r v,
  counters-touch b a u r v,
  text_eq_iff a b,
  text_eq_iff b a,
  text_eq_iff a h,
  text_eq_iff b h,
  counted_comm t u (or_default (counters r a)),
)

-- The traffic of all connections, the latest first.
unfoldable pub traffic : List (Text × Traffic) → Registry → Registry
unfolding touch
traffic [] r = r
traffic (e ∷ es) r = touch e (traffic es r)

traffic-IsRegistry :
    (es : List (Text × Traffic)) (r : Registry) → IsRegistry r → IsRegistry (traffic es r)
unfolding traffic
traffic-IsRegistry [] r v = v
traffic-IsRegistry (e ∷ es) r v = touch-IsRegistry e (traffic es r) (traffic-IsRegistry es r v)

abbrev Valid : Type 0
Valid = (r : Registry) × IsRegistry r

abbrev View : Type 0
View = Quot (λ (a b : Valid). SameCounters a.0 b.0)

touch_view : Text × Traffic → View → View
touch_view e =
    Quot.lift Quot-set (λ a. Quot.mk (touch e a.0, touch-IsRegistry e a.0 a.1))
      (λ a b h. Quot.sound (touch-SameCounters e a.0 b.0 a.1 b.1 h))

rows-IsSet : IsSet (List Endpoint)
rows-IsSet = hlevel

snapshot_view : Option Text → View → List Endpoint
snapshot_view filter =
    Quot.lift rows-IsSet (λ a. snapshot filter a.0)
      (λ a b h. snapshot-SameCounters filter a.0 b.0 a.1 b.1 h)

-- In the view two connections' traffic commutes.
touch_view_comm :
    (e f : Text × Traffic) (v : View)
    → touch_view e (touch_view f v) ≡ touch_view f (touch_view e v)
unfolding touch_view
touch_view_comm e f = Quot.ind (λ v. Quot-set _ _) (λ a. Quot.sound (touch_swap e f a.0 a.1))

traffic_view :
    (es : List (Text × Traffic)) (r : Registry) (v : IsRegistry r)
    → foldr touch_view (Quot.mk (r, v)) es ≡ Quot.mk (traffic es r, traffic-IsRegistry es r v)
unfolding touch_view traffic traffic-IsRegistry
traffic_view [] r v = refl
traffic_view (e ∷ es) r v = ap (touch_view e) (traffic_view es r v)

-- The bytes and connections that tasks count, each through a handle of its host that it asks for, come to
-- the same report in whatever order the tasks do so: the rows, their counters and their order are the same
-- for every order of the same traffic.
pub snapshot-traffic :
    (filter : Option Text) (es fs : List (Text × Traffic)) (r : Registry)
    → IsRegistry r
    → Perm es fs
    → snapshot filter (traffic es r) ≡ snapshot filter (traffic fs r)
unfolding snapshot_view
snapshot-traffic filter es fs r v p = ap (snapshot_view filter) (
    sym (traffic_view es r v)
    ∙ Perm.foldr-eq Quot-set touch_view touch_view_comm p (Quot.mk (r, v))
    ∙ traffic_view fs r v)
