-- ===== src/Main/Names.antt =====
-- Whose names the lookups of addresses come to, whatever the order of their steps.
use wiretally.Prelude.{
  ℕ, zero, suc, ◌≡◌, inl, inr, refl, ap, ◌∙◌, Bool, true, false, Option, none, List, [], ◌∷◌, map,
  All, arith,
}
use wiretally.Text.{Text}
use wiretally.Net.{IpAddr}
use wiretally.Map
use wiretally.Map.{ip_key, ip_eq_iff, get-insert}
use wiretally.Dns.{RData, ReverseResolver, from_system}
use wiretally.Main.{Lookup, resume, lookups, resume_at, resume_by, await_all, lookup_all}
use wiretally.Main.Addresses.{Listed}
use wiretally.Main.Answers.{
  Named, resolved_name-Named, learned, SoundLookup, resume_by-Sound, await_all-Of,
}

-- The hosts of the results are those of the lookups, in their order.
abbrev hosts_of : List Lookup → List Text
hosts_of = map (λ t. t.host)

hosts_of-resume_at :
    (i : ℕ) (ts : List Lookup) (s : ReverseResolver) → hosts_of (resume_at i ts s).0 ≡ hosts_of ts
unfolding resume_at resume
hosts_of-resume_at i [] s = refl
hosts_of-resume_at zero (t ∷ ts) s = refl
hosts_of-resume_at (suc i) (t ∷ ts) s = ap (λ l. t.host ∷ l) (hosts_of-resume_at i ts s)

hosts_of-resume_by :
    (schedule : List ℕ) (ts : List Lookup) (s : ReverseResolver)
    → hosts_of (resume_by schedule (ts, s)).0 ≡ hosts_of ts
unfolding resume_by
hosts_of-resume_by [] ts s = refl
hosts_of-resume_by (i ∷ schedule) ts s =
    let (ts', s') = resume_at i ts s in
    hosts_of-resume_by schedule ts' s' ∙ hosts_of-resume_at i ts s

awaited_hosts :
    (ts : List Lookup) (s : ReverseResolver) → map (λ q. q.0) (await_all (ts, s)) ≡ hosts_of ts
unfolding await_all resume
awaited_hosts [] s = refl
awaited_hosts (t ∷ ts) s = ap (λ l. t.host ∷ l) (awaited_hosts ts _)

lookups_hosts :
    (answers : Text → Option (List RData)) (hs : List (Text × IpAddr))
    → hosts_of (lookups answers hs) ≡ map (λ q. q.0) hs
unfolding lookups
lookups_hosts answers [] = refl
lookups_hosts answers ((host, ip) ∷ hs) = ap (λ l. host ∷ l) (lookups_hosts answers hs)

-- A name for an address: what the answer for a host with that very address gives, or none if there is no
-- resolver.
abbrev pub NameOf :
    Bool → (Text → Option (List RData)) → List (Text × IpAddr) → IpAddr → Option Text → Type 0
NameOf false answers hs ip n = n ≡ none
NameOf true answers hs ip n = (host : Text) × Listed (host, ip) hs × Named (answers host) n

learned-NameOf :
    (built : Bool) (answers : Text → Option (List RData)) (hs : List (Text × IpAddr)) (host : Text)
    (ip : IpAddr)
    → Listed (host, ip) hs
    → NameOf built answers hs ip (learned built (answers host))
learned-NameOf false answers hs host ip there = refl
learned-NameOf true answers hs host ip there = (host, there, resolved_name-Named (answers host))

lookups-SoundLookup :
    (built : Bool) (answers : Text → Option (List RData)) (all hs : List (Text × IpAddr))
    → ((q : Text × IpAddr) → Listed q hs → Listed q all)
    → All (SoundLookup built (NameOf built answers all) (λ q. Listed q all)) (lookups answers hs)
unfolding lookups
lookups-SoundLookup built answers all [] sub = tt
lookups-SoundLookup built answers all ((host, ip) ∷ hs) sub =
    let there = sub (host, ip) (inl refl) in
    (
      record { of = there; tells = learned-NameOf built answers all host ip there; sound = tt },
      lookups-SoundLookup built answers all hs (λ q m. sub q (inr m)),
    )

-- However the steps of the lookups interleave: all come to a result, for the hosts in their order, and
-- each host's name is one that the resolver's answer gives for a host with the same address, that of the
-- first record with a name, in lower case and without dots at its end, unless it is empty; it is none if
-- that lookup failed, or if there is no resolver.
pub lookup_all-NameOf :
    (built : Bool) (answers : Text → Option (List RData)) (schedule : List ℕ)
    (hs : List (Text × IpAddr))
    → (map (λ q. q.0) (lookup_all answers schedule hs (from_system built)) ≡ map (λ q. q.0) hs)
      × All
          (λ q. (ip : IpAddr) × Listed (q.0, ip) hs × NameOf built answers hs ip q.1)
          (lookup_all answers schedule hs (from_system built))
unfolding lookup_all from_system Map.get
lookup_all-NameOf built answers schedule hs =
    let start = from_system built in
    let ts = lookups answers hs in
    let P = NameOf built answers hs in
    let (ks, v) =
      resume_by-Sound built P (λ q. Listed q hs) schedule ts start
        (lookups-SoundLookup built answers hs hs (λ q m. m))
        (record { as_built = refl; cached = λ ip n e. absurd (ground (arith, e)) }) in
    (
      awaited_hosts (resume_by schedule (ts, start)).0 (resume_by schedule (ts, start)).1
          ∙ hosts_of-resume_by schedule ts start
          ∙ lookups_hosts answers hs,
      await_all-Of built P (λ q. Listed q hs) (resume_by schedule (ts, start)).0
          (resume_by schedule (ts, start)).1 ks v,
    )
