-- ===== src/Main/Answers.antt =====
-- What the lookups of addresses keep in the resolver and in their results, whatever the order of their
-- steps.
use wiretally.Prelude.{
  ℕ, zero, suc, ◌≡◌, ◌≢◌, ◌⊎◌, inl, inr, refl, ap, sym, subst, ◌∙◌, Bool, true, false, Bool-cases,
  Option, none, some, Option-cases, List, [], ◌∷◌, ◌++◌, All, if◌then◌else◌, arith,
}
use wiretally.Text.{Text, is_empty, trim_end_matches, to_ascii_lowercase}
use wiretally.Net.{IpAddr}
use wiretally.Map
use wiretally.Map.{ip_key, ip_eq_iff, get-insert}
use wiretally.Dns.{
  RData, ptr, other, ReverseResolver, find_ptr, not_empty, resolved_name, remember, begin, settle,
  Progress, fresh, asking, found, begun, settled, hostname,
}
use wiretally.Main.{Lookup, resume, resume_at, resume_by, name_of, await_all}

-- Records without a name.
abbrev pub Silent : List RData → Type 0
Silent [] = Unit
Silent (ptr name ∷ records) = ⊥
Silent (other ∷ records) = Silent records

-- A name, unless it is empty.
abbrev pub Kept : Text → Option Text → Type 0
Kept name n = ((name ≡ []) × (n ≡ none)) ⊎ ((name ≢ []) × (n ≡ some name))

-- The name that an answer of the resolver gives: that of the first record that has one, in lower case and
-- without the dots at its end. A failed lookup gives none.
abbrev pub Named : Option (List RData) → Option Text → Type 0
Named none n = n ≡ none
Named (some records) n =
    (Silent records × (n ≡ none))
    ⊎ ((before after : List RData) × (raw : Text) × (records ≡ before ++ ptr raw ∷ after)
        × Silent before
        × Kept (to_ascii_lowercase (trim_end_matches b'.' raw)) n)

not_empty-Kept : (name : Text) → Kept name (not_empty (some name))
unfolding not_empty is_empty
not_empty-Kept [] = inl (refl, refl)
not_empty-Kept (c ∷ name) = inr ((λ e. ground (arith, e)), refl)

records-Named : (rs : List RData) → Named (some rs) (not_empty (find_ptr rs))
unfolding find_ptr not_empty
records-Named [] = inl (tt, refl)
records-Named (ptr raw ∷ rs) = inr ([], rs, raw, refl, tt, not_empty-Kept _)
records-Named (other ∷ rs) = elim (records-Named rs) [
  | inl (silent, e) ↦ inl (silent, e)
  | inr (before, after, raw, e, silent, kept) ↦
      inr (other ∷ before, after, raw, ap (λ l. other ∷ l) e, silent, kept)
]

pub resolved_name-Named : (answer : Option (List RData)) → Named answer (resolved_name answer)
unfolding resolved_name
resolved_name-Named none = refl
resolved_name-Named (some records) = records-Named records

-- What a question to the resolver comes to, or what stands for one if there is no resolver.
abbrev pub learned : Bool → Option (List RData) → Option Text
learned built answer = if built then resolved_name answer else none

module _ (built : Bool) (P : IpAddr → Option Text → Type 0) where
  pub record Sound (s : ReverseResolver) : Type 0 where
    pub as_built : s.enabled ≡ built
    pub cached : (ip : IpAddr) (n : Option Text) → Map.get ip s.cache ≡ some n → P ip n

  abbrev pub SoundProgress : IpAddr → Progress → Type 0
  SoundProgress ip fresh = Unit
  SoundProgress ip asking = Unit
  SoundProgress ip (found n) = P ip n

  settle-Sound :
      (ip : IpAddr) (answer : Option (List RData)) (s : ReverseResolver)
      → P ip (learned built answer)
      → Sound s
      → P ip (settle ip answer s).0 × Sound (settle ip answer s).1
  unfolding settle remember
  settle-Sound ip answer s p v =
      let name = if s.enabled then resolved_name answer else none in
      let q : P ip name = subst (λ b. P ip (learned b answer)) (sym v.as_built) p in
      (
        q,
        record {
          as_built = v.as_built;
          cached = λ k n e. elim (Bool-cases (ip_key.beq ip k)) [
            | inl same ↦
                let here : name ≡ n = ground (arith, e, get-insert ip k name s.cache, same) in
                subst (λ a. P a n) ((ip_eq_iff ip k).0 same) (subst (P ip) here q)
            | inr different ↦
                v.cached k n (sym (get-insert ip k name s.cache ∙ rw different refl) ∙ e)
          ];
        },
      )

  asked-Sound :
      (b : Bool) (s : ReverseResolver) (ips : List IpAddr)
      → Sound s
      → Sound (if b then record s { asked = ips } else s)
  asked-Sound true s ips v = record { as_built = v.as_built; cached = v.cached }
  asked-Sound false s ips v = v

  begin-Sound :
      (ip : IpAddr) (s : ReverseResolver)
      → Sound s
      → SoundProgress ip (begun (begin ip s)).0 × Sound (begun (begin ip s)).1
  unfolding begin begun
  begin-Sound ip s v = elim (Option-cases (Map.get ip s.cache)) [
    | inr (hit, e) ↦
        let hits : begin ip s ≡ (some hit, s) = ground (arith, e) in
        subst (λ x. SoundProgress ip (begun x).0 × Sound (begun x).1) (sym hits)
          (v.cached ip hit e, v)
    | inl e ↦
        let s' = if s.enabled then record s { asked = s.asked ++ ip ∷ [] } else s in
        let v' : Sound s' = asked-Sound s.enabled s (s.asked ++ ip ∷ []) v in
        let misses : begin ip s ≡ (none, s') = ground (arith, e) in
        subst (λ x. SoundProgress ip (begun x).0 × Sound (begun x).1) (sym misses) (tt, v')
  ]

  hostname-Sound :
      (ip : IpAddr) (answer : Option (List RData)) (progress : Progress) (s : ReverseResolver)
      → P ip (learned built answer)
      → SoundProgress ip progress
      → Sound s
      → SoundProgress ip (hostname ip answer progress s).0 × Sound (hostname ip answer progress s).1
  unfolding hostname settled
  hostname-Sound ip answer fresh s p q v = begin-Sound ip s v
  hostname-Sound ip answer asking s p q v = settle-Sound ip answer s p v
  hostname-Sound ip answer (found n) s p q v = (q, v)

  -- A call of `hostname` has its result after two steps.
  abbrev Arrived : IpAddr → Progress → Type 0
  Arrived ip progress = (n : Option Text) × (progress ≡ found n) × P ip n

  second-Arrived :
      (ip : IpAddr) (answer : Option (List RData)) (x : Option (Option Text) × ReverseResolver)
      → P ip (learned built answer)
      → SoundProgress ip (begun x).0
      → Sound (begun x).1
      → Arrived ip (hostname ip answer (begun x).0 (begun x).1).0
  unfolding hostname begun settled
  second-Arrived ip answer (some hit, s) p q v = (hit, refl, q)
  second-Arrived ip answer (none, s) p q v = (_, refl, (settle-Sound ip answer s p v).0)

  twice-Arrived :
      (ip : IpAddr) (answer : Option (List RData)) (progress : Progress) (s : ReverseResolver)
      → P ip (learned built answer)
      → SoundProgress ip progress
      → Sound s
      → (let x = hostname ip answer progress s in Arrived ip (hostname ip answer x.0 x.1).0)
  unfolding hostname settled
  twice-Arrived ip answer fresh s p q v =
      let (q', v') = begin-Sound ip s v in second-Arrived ip answer (begin ip s) p q' v'
  twice-Arrived ip answer asking s p q v = (_, refl, (settle-Sound ip answer s p v).0)
  twice-Arrived ip answer (found n) s p q v = (n, refl, q)

  module _ (R : Text × IpAddr → Type 0) where
    pub record SoundLookup (t : Lookup) : Type 0 where
      pub of : R (t.host, t.ip)
      pub tells : P t.ip (learned built t.answer)
      pub sound : SoundProgress t.ip t.progress

    resume-Sound :
        (t : Lookup) (s : ReverseResolver)
        → SoundLookup t
        → Sound s
        → SoundLookup (resume t s).0 × Sound (resume t s).1
    unfolding resume
    resume-Sound t s k v =
        let (q, v') = hostname-Sound t.ip t.answer t.progress s k.tells k.sound v in
        (record { of = k.of; tells = k.tells; sound = q }, v')

    resume_at-Sound :
        (i : ℕ) (ts : List Lookup) (s : ReverseResolver)
        → All SoundLookup ts
        → Sound s
        → All SoundLookup (resume_at i ts s).0 × Sound (resume_at i ts s).1
    unfolding resume_at
    resume_at-Sound i [] s k v = (tt, v)
    resume_at-Sound zero (t ∷ ts) s (k, ks) v =
        let (k', v') = resume-Sound t s k v in ((k', ks), v')
    resume_at-Sound (suc i) (t ∷ ts) s (k, ks) v =
        let (ks', v') = resume_at-Sound i ts s ks v in ((k, ks'), v')

    pub resume_by-Sound :
        (schedule : List ℕ) (ts : List Lookup) (s : ReverseResolver)
        → All SoundLookup ts
        → Sound s
        → All SoundLookup (resume_by schedule (ts, s)).0 × Sound (resume_by schedule (ts, s)).1
    unfolding resume_by
    resume_by-Sound [] ts s ks v = (ks, v)
    resume_by-Sound (i ∷ schedule) ts s ks v =
        let (ks', v') = resume_at-Sound i ts s ks v in
        resume_by-Sound schedule (resume_at i ts s).0 (resume_at i ts s).1 ks' v'

    -- A result, of an address that the host has.
    abbrev pub Of : Text × Option Text → Type 0
    Of (host, n) = (ip : IpAddr) × R (host, ip) × P ip n

    pub await_all-Of :
        (ts : List Lookup) (s : ReverseResolver)
        → All SoundLookup ts
        → Sound s
        → All Of (await_all (ts, s))
    unfolding await_all resume
    await_all-Of [] s ks v = tt
    await_all-Of (t ∷ ts) s (k, ks) v =
        let (k', v') = resume-Sound t s k v in
        let (_, v'') = resume-Sound (resume t s).0 (resume t s).1 k' v' in
        let (n, e, p) = twice-Arrived t.ip t.answer t.progress s k.tells k.sound v in
        ((t.ip, k.of, subst (P t.ip) (sym (ap name_of e)) p), await_all-Of ts _ ks v'')
