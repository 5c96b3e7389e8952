-- ===== src/Stats/Filter.antt =====
-- `matches_domain` against the labels of a domain name.
use wiretally.Prelude.{
  ℕ, ◌≡◌, ◌↔◌, ◌⊎◌, inl, inr, refl, sym, ap, ◌∙◌, true, ◌||◌, some, List, [], ◌∷◌, ◌++◌,
  append_assoc, Bool-cases, ==_iff, ◌==◌, if◌then◌else◌, arith,
}
use wiretally.Text.{
  Text, chars, is_empty, text_eq, text_eq_iff, ends_with, ends_with_iff, to_ascii_lowercase,
  trim_end_matches, trim_matches, trim_start_matches,
}
use wiretally.Stats.{matches_suffix, matches_domain}

cons_head : ℕ → List Text → List Text
cons_head c [] = (c ∷ []) ∷ []
cons_head c (t ∷ ts) = (c ∷ t) ∷ ts

-- The parts of a name between its dots.
pub labels : Text → List Text
unfolding cons_head
labels [] = [] ∷ []
labels (c ∷ s) = if c == b'.' then [] ∷ labels s else cons_head c (labels s)

-- Labels put together with dots, the first one given apart.
dotted : Text → List Text → Text
dotted t [] = t
dotted t (u ∷ us) = t ++ b'.' ∷ dotted u us

dotted_all : List Text → Text
dotted_all [] = []
dotted_all (t ∷ ts) = dotted t ts

labels-cons : (s : Text) → (t : Text) × (ts : List Text) × (labels s ≡ t ∷ ts)
unfolding labels
labels-cons [] = ([], [], refl)
labels-cons (c ∷ s) = elim (Bool-cases (c == b'.')) [
  | inl dot ↦ ([], labels s, rw dot)
  | inr other ↦ let (t, ts, e) = labels-cons s in (c ∷ t, ts, rw (other, e))
]

labels-append : (a b : Text) → labels (a ++ b'.' ∷ b) ≡ labels a ++ labels b
unfolding labels
labels-append [] b = refl
labels-append (c ∷ a) b = let (t, ts, e) = labels-cons a in ground (arith, e, labels-append a b)

dotted-cons_head : (c : ℕ) (t : Text) (ts : List Text) → dotted (c ∷ t) ts ≡ c ∷ dotted t ts
unfolding dotted
dotted-cons_head c t [] = refl
dotted-cons_head c t (u ∷ us) = refl

dotted-labels : (s : Text) → dotted_all (labels s) ≡ s
unfolding labels dotted_all dotted
dotted-labels [] = refl
dotted-labels (c ∷ s) =
    let (t, ts, e) = labels-cons s in
    ground (arith, e, dotted-labels s, dotted-cons_head c t ts, ==_iff c b'.')

dotted-append :
    (t u : Text) (ts us : List Text) → dotted t (ts ++ u ∷ us) ≡ dotted t ts ++ b'.' ∷ dotted u us
unfolding dotted
dotted-append t u [] us = refl
dotted-append t u (v ∷ vs) us =
    ap (λ s. t ++ b'.' ∷ s) (dotted-append v u vs us) ∙ sym (append_assoc t (b'.' ∷ dotted v vs) _)

-- A name whose last labels are those of another ends with it, at a label's boundary.
labels_suffix :
    (p : List Text) (d f : Text)
    → labels d ≡ p ++ labels f
    → (d ≡ f) ⊎ ((a : Text) × (d ≡ a ++ b'.' ∷ f))
unfolding dotted_all
labels_suffix [] d f e = inl (sym (dotted-labels d) ∙ ap dotted_all e ∙ dotted-labels f)
labels_suffix (t ∷ ts) d f e =
    let (u, us, e') = labels-cons f in
    inr (
      dotted t ts,
      sym (dotted-labels d)
          ∙ ap dotted_all e
          ∙ ap (λ l. dotted t (ts ++ l)) e'
          ∙ dotted-append t u ts us
          ∙ ap (λ s. dotted t ts ++ b'.' ∷ s) (ap dotted_all (sym e') ∙ dotted-labels f),
    )

suffix_labels :
    (d f : Text)
    → (text_eq d f || ends_with (b'.' ∷ f) d) ≡ true
    → (p : List Text) × (labels d ≡ p ++ labels f)
suffix_labels d f h = elim (Bool-cases (text_eq d f)) [
  | inl same ↦ ([], ap labels ((text_eq_iff d f).0 same))
  | inr other ↦
      let (a, e) = (ends_with_iff (b'.' ∷ f) d).0 (rw other at h) in
      (labels a, ap labels e ∙ labels-append a f)
]

abbrev Under : Text → Text → Type 0
Under d f = (is_empty f ≡ true) ⊎ ((p : List Text) × (labels d ≡ p ++ labels f))

Under-suffix : (d f : Text) → Under d f → matches_suffix d f ≡ true
unfolding matches_suffix
Under-suffix d f (inl e) = rw e
Under-suffix d f (inr (p, e)) = elim (labels_suffix p d f e) [
  | inl same ↦ ground (arith, text_eq_iff d f)
  | inr (a, tail) ↦
      let last : ends_with (b'.' ∷ f) d ≡ true = (ends_with_iff (b'.' ∷ f) d).1 (a, tail) in
      ground (arith, last)
]

suffix-Under : (d f : Text) → matches_suffix d f ≡ true → Under d f
unfolding matches_suffix
suffix-Under d f h = elim (Bool-cases (is_empty f)) [
  | inl e ↦ inl e
  | inr e ↦ inr (suffix_labels d f (rw e at h))
]

-- A domain as it is compared: no dots at its end, in lower case. A filter as it is compared: without
-- leading `*.`, without dots at either end, in lower case.
abbrev pub plain_domain : Text → Text
plain_domain domain = to_ascii_lowercase (trim_end_matches b'.' domain)

abbrev pub plain_filter : Text → Text
plain_filter filter =
    to_ascii_lowercase (trim_matches b'.' (trim_start_matches (chars "*.") filter))

-- A filter matches a domain exactly when nothing is left of the filter, or its labels are the last
-- labels of the domain; so a filter never matches inside a label.
pub matches_domain_iff :
    (domain filter : Text)
    → (matches_domain domain (some filter) ≡ true) ↔ (
        (is_empty (plain_filter filter) ≡ true)
        ⊎ ((p : List Text) × (labels (plain_domain domain) ≡ p ++ labels (plain_filter filter))))
unfolding matches_domain
matches_domain_iff domain filter = (
  suffix-Under (plain_domain domain) (plain_filter filter),
  Under-suffix (plain_domain domain) (plain_filter filter),
)
