-- ===== src/Main/Lookups.antt =====
-- The tasks that look up the names of addresses, and their results.
use wiretally.Prelude.{ℕ, zero, suc, Option, List, [], ◌∷◌, All}
use wiretally.Text.{Text}
use wiretally.Net.{IpAddr}
use wiretally.Dns.{RData, ReverseResolver}
use wiretally.Main.{Lookup, resume, lookups, resume_at, resume_by, await_all, lookup_all}

module _ (P : Text → Type 0) where
  -- The tasks of hosts with a property keep it, and so do their results.
  resume_at-All :
      (i : ℕ) (ts : List Lookup) (s : ReverseResolver)
      → All (λ t. P t.host) ts
      → All (λ t. P t.host) (resume_at i ts s).0
  unfolding resume_at resume
  resume_at-All i [] s h = tt
  resume_at-All zero (t ∷ ts) s h = h
  resume_at-All (suc i) (t ∷ ts) s (p, h) = (p, resume_at-All i ts s h)

  resume_by-All :
      (is' : List ℕ) (ts : List Lookup) (s : ReverseResolver)
      → All (λ t. P t.host) ts
      → All (λ t. P t.host) (resume_by is' (ts, s)).0
  unfolding resume_by
  resume_by-All [] ts s h = h
  resume_by-All (i ∷ is') ts s h =
      let (ts', s') = resume_at i ts s in resume_by-All is' ts' s' (resume_at-All i ts s h)

  await_all-All :
      (ts : List Lookup) (s : ReverseResolver)
      → All (λ t. P t.host) ts
      → All (λ q. P q.0) (await_all (ts, s))
  unfolding await_all resume
  await_all-All [] s h = tt
  await_all-All (t ∷ ts) s (p, h) = (p, await_all-All ts _ h)

  lookups-All :
      (answers : Text → Option (List RData)) (hs : List (Text × IpAddr))
      → All (λ q. P q.0) hs
      → All (λ t. P t.host) (lookups answers hs)
  unfolding lookups
  lookups-All answers [] h = tt
  lookups-All answers (q ∷ hs) (p, h) = (p, lookups-All answers hs h)

  pub lookup_all-All :
      (answers : Text → Option (List RData)) (schedule : List ℕ) (hs : List (Text × IpAddr))
      (s : ReverseResolver)
      → All (λ q. P q.0) hs
      → All (λ q. P q.0) (lookup_all answers schedule hs s)
  unfolding lookup_all
  lookup_all-All answers schedule hs s h =
      let (ts, s') = resume_by schedule (lookups answers hs, s) in
      await_all-All ts s' (resume_by-All schedule (lookups answers hs) s (lookups-All answers hs h))
