-- ===== src/Udp/Account.antt =====
-- The relay's handles, and the connections that it has counted when it has them.
use wiretally.Prelude.{
  ℕ, Bool, ◌+◌, ◌%◌, ◌≡◌, refl, Option, none, some, List, [], ◌∷◌, Option-cases, inl, inr, Result,
  ok, err, length, if◌then◌else◌, arith,
}
use wiretally.Text.{Text, text_eq, text_eq_iff}
use wiretally.Net.{SocketAddr}
use wiretally.Stream.{IoError}
use wiretally.Map
use wiretally.Map.{text_key, get-insert}
use wiretally.Stats
use wiretally.Stats.{
  EndpointStats, Registry, u64_mod, update, add_connection, add_egress, add_ingress, observe_ip,
  read,
}
use wiretally.Stats.View.{
  read-counters, IsRegistry, counters, or_default, update-IsRegistry, endpoint-IsRegistry,
  counters-update, endpoint-counters,
}
use wiretally.Udp.{Relay, bind, note, count, cached_endpoint, endpoint, looked_up, resolve}

-- The connections counted for a host.
abbrev pub connections_of : Registry → Text → ℕ
connections_of r h = (or_default (counters r h)).connections

-- One more than at the start if the host has a handle, and as many as at the start if not.
abbrev pub once : ℕ → Option ℕ → ℕ
once before none = before
once before (some i) = (before + 1) % u64_mod

-- A relay that started with the registry `base`.
pub record IsRelay (base : Registry) (t : Relay) : Type 0 where
  pub registered : IsRegistry t.registry
  pub handles :
      (h : Text) (i : ℕ) → Map.get h t.endpoints ≡ some i → Map.get h t.registry.endpoints ≡ some i
  pub counted :
      (h : Text)
      → connections_of t.registry h ≡ once (connections_of base h) (Map.get h t.endpoints)

pub bind-IsRelay :
    (base : Registry) (verbose : Bool) → IsRegistry base → IsRelay base (bind base verbose)
unfolding bind Map.get
bind-IsRelay base verbose v = record {
  registered = v;
  handles = λ h i e. ground arith;
  counted = λ h. refl;
}

connections-update :
    (r : Registry) (host h : Text) (i : ℕ) (f : EndpointStats → EndpointStats)
    → IsRegistry r
    → Map.get host r.endpoints ≡ some i
    → connections_of (update i f r) h ≡ (
        if text_eq host h
        then (f (or_default (counters r host))).connections
        else connections_of r h)
connections-update r host h i f v e =
    ground (arith, counters-update r host h i f v e, read-counters r host i e)

pub count-IsRelay :
    (base : Registry) (t : Relay) (host : Text) (i : ℕ) (f : EndpointStats → EndpointStats)
    → ((s : EndpointStats) → (f s).connections ≡ s.connections)
    → Map.get host t.endpoints ≡ some i
    → IsRelay base t
    → IsRelay base (count i f t)
unfolding count update
count-IsRelay base t host i f keeps e v = record {
  registered = update-IsRegistry t.registry i f v.registered;
  handles = v.handles;
  counted = λ h. ground (
    arith,
    connections-update t.registry host h i f v.registered (v.handles host i e),
    keeps (or_default (counters t.registry host)),
    text_eq_iff host h,
    v.counted h,
  );
}

-- A handle in the registry stays when another host asks for its own.
endpoint-keeps :
    (r : Registry) (host h : Text) (i : ℕ)
    → Map.get h r.endpoints ≡ some i
    → Map.get h (Stats.endpoint host r).1.endpoints ≡ some i
unfolding Stats.endpoint Stats.endpoint_entry
endpoint-keeps r host h i e = elim (Option-cases (Map.get host r.endpoints)) [
  | inl missing ↦
      ground (arith, missing, e, get-insert host h (length r.cells) r.endpoints, text_eq_iff host h)
  | inr (j, found) ↦ ground (arith, found, e)
]

endpoint-connections :
    (r : Registry) (host h : Text)
    → IsRegistry r
    → connections_of (Stats.endpoint host r).1 h ≡ connections_of r h
endpoint-connections r host h v =
    ground (arith, (endpoint-counters r host h v).0, text_eq_iff host h)

new_endpoint-IsRelay :
    (base : Registry) (t : Relay) (host : Text)
    → Map.get host t.endpoints ≡ none
    → IsRelay base t
    → IsRelay base (cached_endpoint none host t).1
unfolding cached_endpoint count update add_connection
new_endpoint-IsRelay base t host e v =
    let (i, r) = Stats.endpoint host t.registry in
    let w = endpoint-IsRegistry t.registry host v.registered in
    let at_host = (endpoint-counters t.registry host host v.registered).1 in
    record {
      registered = update-IsRegistry r i add_connection w;
      handles = λ h j k. ground (
        arith,
        get-insert host h i t.endpoints,
        k,
        text_eq_iff host h,
        at_host,
        v.handles h j,
        endpoint-keeps t.registry host h j,
      );
      counted = λ h. ground (
        arith,
        get-insert host h i t.endpoints,
        connections-update r host h i add_connection w at_host,
        endpoint-connections t.registry host h v.registered,
        text_eq_iff host h,
        v.counted h,
        e,
      );
    }

pub endpoint-IsRelay :
    (base : Registry) (t : Relay) (host : Text) → IsRelay base t → IsRelay base (endpoint host t).1
unfolding endpoint
endpoint-IsRelay base t host v = elim (Option-cases (Map.get host t.endpoints)) [
  | inl e ↦ rw e (new_endpoint-IsRelay base t host e v)
  | inr (i, e) ↦ rw (e, cached_endpoint) v
]

-- The handle that `endpoint` returns is cached.
pub endpoint_cached :
    (t : Relay) (host : Text)
    → Map.get host (endpoint host t).1.endpoints ≡ some (endpoint host t).0
unfolding endpoint cached_endpoint count
endpoint_cached t host = elim (Option-cases (Map.get host t.endpoints)) [
  | inl e ↦ ground (
    arith,
    e,
    get-insert host host (Stats.endpoint host t.registry).0 t.endpoints,
    text_eq_iff host host,
  )
  | inr (i, e) ↦ ground (arith, e)
]

-- The parts of a relay that the accounts are about.
pub same-IsRelay :
    (base : Registry) (t t' : Relay)
    → t'.registry ≡ t.registry
    → t'.endpoints ≡ t.endpoints
    → IsRelay base t
    → IsRelay base t'
same-IsRelay base t t' e k v = record {
  registered = rw e v.registered;
  handles = λ h i found. rw e (v.handles h i (rw k at found));
  counted = λ h. rw (e, k) (v.counted h);
}

-- Looking up a name changes no account.
pub resolve-accounts :
    (answer : Result IoError (List SocketAddr)) (host : Text) (port : ℕ) (t : Relay)
    → ((resolve answer host port t).1.registry ≡ t.registry)
      × ((resolve answer host port t).1.endpoints ≡ t.endpoints)
unfolding resolve looked_up note
resolve-accounts (err e) host port t = ground arith
resolve-accounts (ok []) host port t = ground arith
resolve-accounts (ok (a ∷ as')) host port t = ground arith
