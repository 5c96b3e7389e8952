-- ===== src/Text/Ascii.antt =====
-- `str` methods on characters: ASCII case, trimming, prefixes, suffixes and splitting.
use Prim.Native.Char.{code}
use wiretally.Prelude.{
  All, ◌≢◌, ne→==-false, ℕ, zero, suc, String, ◌+◌, ◌≡◌, refl, ◌↔◌, Bool, true, false, ◌&&◌, ◌||◌,
  Option, none, some, List, [], ◌∷◌, map, ◌++◌, leb, ◌==◌, if◌then◌else◌, arith, length, ==_refl,
  sym, ap, Bool-cases, inl, inr,
}

abbrev pub Text : Type 0
Text = List ℕ

-- The characters of a literal.
abbrev pub chars : String → Text
chars String.[] = []
chars (String.◌∷◌ c s) = code c ∷ chars s

unfoldable pub is_empty : Text → Bool
is_empty [] = true
is_empty (c ∷ s) = false

unfoldable pub text_eq : Text → Text → Bool
text_eq [] [] = true
text_eq [] (d ∷ t) = false
text_eq (c ∷ s) [] = false
text_eq (c ∷ s) (d ∷ t) = c == d && text_eq s t

unfoldable pub lower : ℕ → ℕ
lower c = if leb b'A' c && leb c b'Z' then c + 32 else c

unfoldable pub to_ascii_lowercase : Text → Text
unfolding lower
to_ascii_lowercase = map lower

unfoldable pub eq_ignore_ascii_case : Text → Text → Bool
unfolding text_eq to_ascii_lowercase
eq_ignore_ascii_case s t = text_eq (to_ascii_lowercase s) (to_ascii_lowercase t)

-- One more character in front of a text that is already trimmed at its end.
unfoldable pub trim_cons : ℕ → ℕ → Text → Text
trim_cons c x [] = if x == c then [] else x ∷ []
trim_cons c x (y ∷ t) = x ∷ y ∷ t

unfoldable pub trim_end_matches : ℕ → Text → Text
unfolding trim_cons
trim_end_matches c [] = []
trim_end_matches c (x ∷ s) = trim_cons c x (trim_end_matches c s)

unfoldable pub trim_start : ℕ → Text → Text
trim_start c [] = []
trim_start c (x ∷ s) = let rest = trim_start c s in if x == c then rest else x ∷ s

-- `trim_matches(c)`, at both ends.
unfoldable pub trim_matches : ℕ → Text → Text
unfolding trim_start trim_end_matches
trim_matches c s = trim_end_matches c (trim_start c s)

unfoldable pub strip_prefix : Text → Text → Option Text
strip_prefix [] s = some s
strip_prefix (p ∷ ps) [] = none
strip_prefix (p ∷ ps) (c ∷ s) = let rest = strip_prefix ps s in if p == c then rest else none

-- Each round removes one copy of the pattern, so as many rounds as characters are enough.
unfoldable pub trim_start_rounds : ℕ → Text → Text → Text
unfolding strip_prefix
trim_start_rounds zero p s = s
trim_start_rounds (suc n) p s = elim (strip_prefix p s) [
  | none ↦ s
  | some rest ↦ trim_start_rounds n p rest
]

unfoldable pub trim_start_matches : Text → Text → Text
unfolding trim_start_rounds
trim_start_matches p s = trim_start_rounds (length s) p s

unfoldable pub ends_with : Text → Text → Bool
unfolding text_eq
ends_with s [] = text_eq s []
ends_with s (c ∷ t) = text_eq s (c ∷ t) || ends_with s t

-- A character in front of the first part of a pair.
unfoldable pub push_front : ℕ → Option (Text × Text) → Option (Text × Text)
push_front c none = none
push_front c (some (a, b)) = some (c ∷ a, b)

unfoldable pub split_once : ℕ → Text → Option (Text × Text)
unfolding push_front
split_once c [] = none
split_once c (x ∷ s) =
    let rest = push_front x (split_once c s) in if x == c then some ([], s) else rest

unfoldable pub or_else : Option (Text × Text) → Option (Text × Text) → Option (Text × Text)
or_else none o = o
or_else (some p) o = some p

unfoldable pub rsplit_once : ℕ → Text → Option (Text × Text)
unfolding push_front or_else
rsplit_once c [] = none
rsplit_once c (x ∷ s) =
    or_else (push_front x (rsplit_once c s)) (if x == c then some ([], s) else none)

pub text_eq-eq : (s t : Text) → text_eq s t ≡ true → s ≡ t
unfolding text_eq
text_eq-eq [] [] h = refl
text_eq-eq [] (d ∷ t) h = ground arith
text_eq-eq (c ∷ s) [] h = ground arith
text_eq-eq (c ∷ s) (d ∷ t) h = ground (arith, text_eq-eq s t)

pub text_eq_refl : (s : Text) → text_eq s s ≡ true
unfolding text_eq
text_eq_refl [] = refl
text_eq_refl (c ∷ s) = rw (==_refl c, text_eq_refl s)

pub text_eq_iff : (s t : Text) → (text_eq s t ≡ true) ↔ (s ≡ t)
text_eq_iff s t = (text_eq-eq s t, λ e. rw e (text_eq_refl t))

ends_with-suffix : (s t : Text) → ends_with s t ≡ true → (a : Text) × (t ≡ a ++ s)
unfolding ends_with
ends_with-suffix s [] h = ([], sym (text_eq-eq s [] h))
ends_with-suffix s (c ∷ t) h = elim (Bool-cases (text_eq s (c ∷ t))) [
  | inl same ↦ ([], sym (text_eq-eq s (c ∷ t) same))
  | inr other ↦ let (a, e) = ends_with-suffix s t (rw other at h) in (c ∷ a, ap (λ u. c ∷ u) e)
]

suffix-ends_with : (s a : Text) → ends_with s (a ++ s) ≡ true
unfolding ends_with text_eq
suffix-ends_with [] [] = refl
suffix-ends_with (c ∷ s) [] = ground (arith, text_eq_refl s)
suffix-ends_with s (c ∷ a) = ground (arith, suffix-ends_with s a)

pub ends_with_iff : (s t : Text) → (ends_with s t ≡ true) ↔ ((a : Text) × (t ≡ a ++ s))
ends_with_iff s t = (ends_with-suffix s t, λ p. rw p.1 (suffix-ends_with s p.0))

rsplit_once-none : (c : ℕ) (s : Text) → All (λ x. x ≢ c) s → rsplit_once c s ≡ none
unfolding rsplit_once
rsplit_once-none c [] h = refl
rsplit_once-none c (x ∷ s) h = rw (rsplit_once-none c s h.1, ne→==-false x c h.0)

-- The last separator is the one behind which there is none.
pub rsplit_once_last :
    (c : ℕ) (s t : Text) → All (λ x. x ≢ c) t → rsplit_once c (s ++ c ∷ t) ≡ some (s, t)
unfolding rsplit_once
rsplit_once_last c [] t h = rw (rsplit_once-none c t h, ==_refl c)
rsplit_once_last c (x ∷ s) t h = rw (rsplit_once_last c s t h)

-- And the first the one before which there is none.
pub split_once_first :
    (c : ℕ) (s t : Text) → All (λ x. x ≢ c) s → split_once c (s ++ c ∷ t) ≡ some (s, t)
unfolding split_once
split_once_first c [] t h = rw (==_refl c)
split_once_first c (x ∷ s) t h = rw (split_once_first c s t h.1, ne→==-false x c h.0)
