-- ===== src/Prelude/Lists.antt =====
-- Lists measured and indexed by native numbers, and lists split in two.
use Prim.Native.Nat.{ℕ, zero, suc, ◌+◌, ◌-◌, ◌<◌, ◌≤◌, min}
use mathlib.Core.Path.{◌≡◌, refl, ap, ◌∙◌}
use mathlib.Core.List.{List, [], ◌∷◌, ◌++◌}
use mathlib.Core.Option.{Option, none, some}
use mathlib.Core.Logic.{◌⊎◌, inl, inr}
use native.Mathlib.Omega.{arith}
use native.Mathlib.Nat.{zero-add}
use wiretally.Prelude.Tests.{Option-cases}

-- A predicate that holds of every entry.
abbrev pub All {ℓ κ} : {A : Type ℓ} → (A → Type κ) → List A → Type κ
All P [] = Unit
All P (x ∷ xs) = P x × All P xs

module _ {ℓ} {A : Type ℓ} where
  abbrev pub length : List A → ℕ
  length [] = 0
  length (x ∷ xs) = suc (length xs)

  abbrev pub get_or : List A → ℕ → A → A
  get_or [] i d = d
  get_or (x ∷ xs) zero d = x
  get_or (x ∷ xs) (suc i) d = get_or xs i d

  abbrev pub take : ℕ → List A → List A
  take zero xs = []
  take (suc n) [] = []
  take (suc n) (x ∷ xs) = x ∷ take n xs

  abbrev pub drop : ℕ → List A → List A
  drop zero xs = xs
  drop (suc n) [] = []
  drop (suc n) (x ∷ xs) = drop n xs

  -- The first `n` entries and the rest, if there are as many.
  abbrev pub split_at? : ℕ → List A → Option (List A × List A)
  split_at? zero xs = some ([], xs)
  split_at? (suc n) [] = none
  split_at? (suc n) (x ∷ xs) = elim (split_at? n xs) [
    | none ↦ none
    | some (front, rest) ↦ some (x ∷ front, rest)
  ]

  pub length-append : (xs ys : List A) → length (xs ++ ys) ≡ length xs + length ys
  length-append [] ys = omega arith
  length-append (x ∷ xs) ys = omega (arith, length-append xs ys)

module _ {ℓ} {A : Type ℓ} where
  pub take-append-drop : (n : ℕ) (xs : List A) → take n xs ++ drop n xs ≡ xs
  take-append-drop zero xs = refl
  take-append-drop (suc n) [] = refl
  take-append-drop (suc n) (x ∷ xs) = rw (take-append-drop n xs)

  pub length-take : (n : ℕ) (xs : List A) → length (take n xs) ≡ min n (length xs)
  length-take zero xs = omega arith
  length-take (suc n) [] = omega arith
  length-take (suc n) (x ∷ xs) = omega (arith, length-take n xs)

  pub length-drop : (n : ℕ) (xs : List A) → length (drop n xs) ≡ length xs - n
  length-drop zero xs = omega arith
  length-drop (suc n) [] = omega arith
  length-drop (suc n) (x ∷ xs) = omega (arith, length-drop n xs)

  pub drop-append : (xs ys : List A) (n : ℕ) → n ≡ length xs → drop n (xs ++ ys) ≡ ys
  drop-append [] ys zero h = refl
  drop-append [] ys (suc n) h = absurd (omega arith)
  drop-append (x ∷ xs) ys zero h = absurd (omega arith)
  drop-append (x ∷ xs) ys (suc n) h = drop-append xs ys n (omega arith)

  pub split_at?-append :
      (xs ys : List A) (n : ℕ) → n ≡ length xs → split_at? n (xs ++ ys) ≡ some (xs, ys)
  split_at?-append [] ys zero h = refl
  split_at?-append [] ys (suc n) h = absurd (omega arith)
  split_at?-append (x ∷ xs) ys zero h = absurd (omega arith)
  split_at?-append (x ∷ xs) ys (suc n) h =
      let e : split_at? n (xs ++ ys) ≡ some (xs, ys) = split_at?-append xs ys n (omega arith) in
      rw e

  pub split_at?-short : (xs : List A) (n : ℕ) → length xs < n → split_at? n xs ≡ none
  split_at?-short xs zero h = absurd (omega arith)
  split_at?-short [] (suc n) h = refl
  split_at?-short (x ∷ xs) (suc n) h =
      let e : split_at? n xs ≡ none = split_at?-short xs n (omega arith) in rw e

  -- What a successful split says.
  pub split_at?-some :
      (xs : List A) (n : ℕ) (front rest : List A)
      → split_at? n xs ≡ some (front, rest)
      → (xs ≡ front ++ rest) × (length front ≡ n)
  split_at?-some xs zero front rest h = ground arith
  split_at?-some [] (suc n) front rest h = ground arith
  split_at?-some (x ∷ xs) (suc n) front rest h = elim (Option-cases (split_at? n xs)) [
    | inl e ↦ ground arith
    | inr ((f, r), e) ↦ ground (arith, split_at?-some xs n f r e)
  ]

  pub take-append : (xs ys : List A) (n : ℕ) → n ≡ length xs → take n (xs ++ ys) ≡ xs
  take-append [] ys zero h = refl
  take-append [] ys (suc n) h = absurd (omega arith)
  take-append (x ∷ xs) ys zero h = absurd (omega arith)
  take-append (x ∷ xs) ys (suc n) h =
      let e : take n (xs ++ ys) ≡ xs = take-append xs ys n (omega arith) in rw e

  drop-nil : (n : ℕ) → drop {A = A} n [] ≡ []
  drop-nil zero = refl
  drop-nil (suc n) = refl

  pub drop-drop : (xs : List A) (m n : ℕ) → drop n (drop m xs) ≡ drop (m + n) xs
  drop-drop xs zero n = rw zero-add
  drop-drop [] (suc m) n = ground (arith, drop-nil n, drop-nil (suc m + n))
  drop-drop (x ∷ xs) (suc m) n =
      let e : suc (m + n) ≡ suc m + n = omega arith in
      drop-drop xs m n ∙ ap (λ k. drop k (x ∷ xs)) e

pub All-append {ℓ κ} :
    {A : Type ℓ} (P : A → Type κ) (xs ys : List A) → All P (xs ++ ys) → All P xs × All P ys
All-append P [] ys h = (tt, h)
All-append P (x ∷ xs) ys h = let (hx, hy) = All-append P xs ys h.1 in ((h.0, hx), hy)

pub append-All {ℓ κ} :
    {A : Type ℓ} (P : A → Type κ) (xs ys : List A) → All P xs → All P ys → All P (xs ++ ys)
append-All P [] ys h k = k
append-All P (x ∷ xs) ys h k = (h.0, append-All P xs ys h.1 k)

pub All-drop {ℓ κ} :
    {A : Type ℓ} (P : A → Type κ) (n : ℕ) (xs : List A) → All P xs → All P (drop n xs)
All-drop P zero xs h = h
All-drop P (suc n) [] h = tt
All-drop P (suc n) (x ∷ xs) h = All-drop P n xs h.1

pub length-eq-two {ℓ} : {A : Type ℓ} (xs : List A) → length xs ≡ 2 → (a b : A) × (xs ≡ a ∷ b ∷ [])
length-eq-two [] h = absurd (omega arith)
length-eq-two (a ∷ []) h = absurd (omega arith)
length-eq-two (a ∷ b ∷ []) h = (a, b, refl)
length-eq-two (a ∷ b ∷ c ∷ xs) h = absurd (omega arith)

pub length-eq-four {ℓ} :
    {A : Type ℓ} (xs : List A) → length xs ≡ 4 → (a b c d : A) × (xs ≡ a ∷ b ∷ c ∷ d ∷ [])
length-eq-four [] h = absurd (omega arith)
length-eq-four (a ∷ []) h = absurd (omega arith)
length-eq-four (a ∷ b ∷ xs) h =
    let (c, d, e) = length-eq-two xs (omega arith) in (a, b, c, d, ap (λ l. a ∷ b ∷ l) e)

module _ {ℓ} {A : Type ℓ} where
  pub take-min : (n : ℕ) (xs : List A) → take (min (length xs) n) xs ≡ take n xs
  take-min zero [] = refl
  take-min zero (x ∷ xs) = let e : min (suc (length xs)) 0 ≡ 0 = omega arith in rw e
  take-min (suc n) [] = let e : min 0 (suc n) ≡ 0 = omega arith in rw e
  take-min (suc n) (x ∷ xs) =
      let e : min (suc (length xs)) (suc n) ≡ suc (min (length xs) n) = omega arith in
      rw (e, take-min n xs)

  pub drop-min : (n : ℕ) (xs : List A) → drop (min (length xs) n) xs ≡ drop n xs
  drop-min zero [] = refl
  drop-min zero (x ∷ xs) = let e : min (suc (length xs)) 0 ≡ 0 = omega arith in rw e
  drop-min (suc n) [] = let e : min 0 (suc n) ≡ 0 = omega arith in rw e
  drop-min (suc n) (x ∷ xs) =
      let e : min (suc (length xs)) (suc n) ≡ suc (min (length xs) n) = omega arith in
      rw (e, drop-min n xs)

  pub drop-length : (n : ℕ) (xs : List A) → length xs ≤ n → drop n xs ≡ []
  drop-length zero [] h = refl
  drop-length zero (x ∷ xs) h = absurd (omega arith)
  drop-length (suc n) [] h = refl
  drop-length (suc n) (x ∷ xs) h = drop-length n xs (omega arith)

pub All-snoc {ℓ κ} :
    {A : Type ℓ} (P : A → Type κ) (xs : List A) (x : A) → All P xs → P x → All P (xs ++ x ∷ [])
All-snoc P [] x h p = (p, tt)
All-snoc P (y ∷ xs) x h p = (h.0, All-snoc P xs x h.1 p)

pub All-map {ℓ κ μ} :
    {A : Type ℓ} (P : A → Type κ) (Q : A → Type μ) (xs : List A)
    → ((x : A) → P x → Q x)
    → All P xs
    → All Q xs
All-map P Q [] f h = tt
All-map P Q (x ∷ xs) f h = (f x h.0, All-map P Q xs f h.1)

-- A list with an entry at its end has one at its start.
pub snoc-cons {ℓ} :
    {A : Type ℓ} (xs : List A) (x : A) (ys : List A)
    → ys ≡ xs ++ x ∷ []
    → (y : A) × (zs : List A) × (ys ≡ y ∷ zs)
snoc-cons [] x ys e = (x, [], e)
snoc-cons (y ∷ xs) x ys e = (y, xs ++ x ∷ [], e)

pub List-cases {ℓ} :
    {A : Type ℓ} (xs : List A) → (xs ≡ []) ⊎ ((a : A) × (as' : List A) × (xs ≡ a ∷ as'))
List-cases [] = inl refl
List-cases (x ∷ xs) = inr (x, xs, refl)
