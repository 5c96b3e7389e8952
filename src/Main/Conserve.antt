-- ===== src/Main/Conserve.antt =====
-- Naming addresses loses no traffic.
use wiretally.Prelude.{
  ℕ, ◌≡◌, ◌≢◌, refl, ap, subst, sym, All, Option-cases, inl, inr, arith, ◌∙◌, Bool, Option, none,
  some, List, [], ◌∷◌,
}
use wiretally.Text.{Text, text_eq_iff}
use wiretally.Net.{IpAddr, parse_ip}
use wiretally.Stats.{Registry, hosts, rename}
use wiretally.Stats.View.{IsRegistry, counters}
use wiretally.Stats.Rename.{rename-IsRegistry, renamed_counters}
use wiretally.Dns.{RData, from_system}
use wiretally.Report.Sums.{registry_totals, registry_totals-rename, breakdown-snapshot}
use wiretally.Main.Lookups.{lookup_all-All}
use wiretally.Main.{ip_hosts, lookup_all, rename_all, resolve_ip_only_endpoints, ExitStatus, finish}

registry_totals-rename_all :
    (names : List (Text × Option Text)) (r : Registry)
    → IsRegistry r
    → (registry_totals (rename_all names r) ≡ registry_totals r) × IsRegistry (rename_all names r)
unfolding rename_all
registry_totals-rename_all [] r v = (refl, v)
registry_totals-rename_all ((host, none) ∷ names) r v = registry_totals-rename_all names r v
registry_totals-rename_all ((host, some name) ∷ names) r v =
    let (same, valid) =
      registry_totals-rename_all names (rename host name r) (rename-IsRegistry r host name v) in
    (same ∙ registry_totals-rename r host name v, valid)

-- Whatever the resolver answers for the addresses, and whatever the filter, the totals for all
-- destinations in the final report are the sums of the counters that the registry had when the names
-- were looked up.
pub finish_totals :
    (command : Text) (filter : Option Text) (time : ℕ) (status : ExitStatus) (built : Bool)
    (answers : Text → Option (List RData)) (schedule : List ℕ) (r live : Registry)
    → IsRegistry live
    → (finish command filter time status built answers schedule r live).0.totals.all_destinations
      ≡ registry_totals live
unfolding finish resolve_ip_only_endpoints
finish_totals command filter time status built answers schedule r live v =
    let names = lookup_all answers schedule (ip_hosts (hosts r)) (from_system built) in
    breakdown-snapshot filter (rename_all names live) ∙ (registry_totals-rename_all names live v).0

-- A renaming that is not about the host `h`.
abbrev Elsewhere : Text → Text × Option Text → Type 0
Elsewhere h (host, name) = (host ≢ h) × (name ≢ some h)

rename_all_keeps :
    (names : List (Text × Option Text)) (r : Registry) (h : Text)
    → IsRegistry r
    → All (Elsewhere h) names
    → counters (rename_all names r) h ≡ counters r h
unfolding rename_all
rename_all_keeps [] r h v e = refl
rename_all_keeps ((host, none) ∷ names) r h v (_, e) = rename_all_keeps names r h v e
rename_all_keeps ((host, some name) ∷ names) r h v ((other, unnamed), e) =
    rename_all_keeps names (rename host name r) h (rename-IsRegistry r host name v) e
    ∙ renamed_counters r host name h v
    ∙ ground (arith, text_eq_iff host name, text_eq_iff host h, text_eq_iff name h, other, unnamed)

-- A host with the address that it parses to.
abbrev Parsed : Text × IpAddr → Type 0
Parsed (host, ip) = parse_ip host ≡ some ip

ip_hosts-Parsed : (hs : List (Text × ℕ)) → All Parsed (ip_hosts hs)
unfolding ip_hosts
ip_hosts-Parsed [] = tt
ip_hosts-Parsed ((host, i) ∷ hs) = elim (Option-cases (parse_ip host)) [
  | inl e ↦
      let skipped : ip_hosts ((host, i) ∷ hs) ≡ ip_hosts hs = ground (arith, e) in
      subst (All Parsed) (sym skipped) (ip_hosts-Parsed hs)
  | inr (ip, e) ↦
      let kept : ip_hosts ((host, i) ∷ hs) ≡ (host, ip) ∷ ip_hosts hs = ground (arith, e) in
      subst (All Parsed) (sym kept) (e, ip_hosts-Parsed hs)
]

All-Elsewhere :
    (h : Text) (names : List (Text × Option Text))
    → All (λ q. q.0 ≢ h) names
    → All (λ q. q.1 ≢ some h) names
    → All (Elsewhere h) names
All-Elsewhere h [] others unnamed = tt
All-Elsewhere h (q ∷ names) (o, others) (u, unnamed) =
    ((o, u), All-Elsewhere h names others unnamed)

other_hosts :
    (h : Text) (hs : List (Text × IpAddr))
    → parse_ip h ≡ none
    → All Parsed hs
    → All (λ q. q.0 ≢ h) hs
other_hosts h [] plain parsed = tt
other_hosts h ((host, ip) ∷ hs) plain (e, parsed) =
    ((λ same. cc (sym e ∙ ap parse_ip same ∙ plain)), other_hosts h hs plain parsed)

-- A host that is no address keeps the counters that it has when the names are looked up, whatever the
-- order of the lookups, if no address has it for its name.
pub resolve_keeps :
    (built : Bool) (answers : Text → Option (List RData)) (schedule : List ℕ) (r live : Registry)
    (h : Text)
    → IsRegistry live
    → parse_ip h ≡ none
    → All (λ q. q.1 ≢ some h) (lookup_all answers schedule (ip_hosts (hosts r)) (from_system built))
    → counters (resolve_ip_only_endpoints built answers schedule r live) h ≡ counters live h
unfolding resolve_ip_only_endpoints
resolve_keeps built answers schedule r live h v plain unnamed =
    let hs = ip_hosts (hosts r) in
    let names = lookup_all answers schedule hs (from_system built) in
    rename_all_keeps names live h v (
      All-Elsewhere h names
        (lookup_all-All (λ host. host ≢ h) answers schedule hs (from_system built)
          (other_hosts h hs plain (ip_hosts-Parsed (hosts r))))
        unnamed)
