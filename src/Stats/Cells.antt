-- ===== src/Stats/Cells.antt =====
-- A list of cells that are updated in place.
use wiretally.Prelude.{
  ap, ℕ, zero, suc, ◌≡◌, refl, List, [], ◌∷◌, ◌++◌, length, get_or, ◌<◌, ◌≤◌, ◌==◌, if◌then◌else◌,
  arith,
}

module _ {ℓ} {A : Type ℓ} where
  unfoldable pub update_at : ℕ → (A → A) → List A → List A
  update_at i f [] = []
  update_at zero f (x ∷ xs) = f x ∷ xs
  update_at (suc i) f (x ∷ xs) = x ∷ update_at i f xs

  pub length-update_at : (i : ℕ) (f : A → A) (xs : List A) → length (update_at i f xs) ≡ length xs
  unfolding update_at
  length-update_at i f [] = refl
  length-update_at zero f (x ∷ xs) = refl
  length-update_at (suc i) f (x ∷ xs) = omega (arith, length-update_at i f xs)

  pub get_or-update_at :
      (i j : ℕ) (f : A → A) (xs : List A) (d : A)
      → i < length xs
      → get_or (update_at i f xs) j d ≡ (if i == j then f (get_or xs i d) else get_or xs j d)
  unfolding update_at
  get_or-update_at i j f [] d h = absurd (omega arith)
  get_or-update_at zero zero f (x ∷ xs) d h = refl
  get_or-update_at zero (suc j) f (x ∷ xs) d h = ground arith
  get_or-update_at (suc i) zero f (x ∷ xs) d h = ground arith
  get_or-update_at (suc i) (suc j) f (x ∷ xs) d h = ground (arith, get_or-update_at i j f xs d)

  -- A cell that is not there reads as the default, so adding it changes no reading.
  pub get_or-append_default :
      (i : ℕ) (xs : List A) (d : A) → get_or (xs ++ d ∷ []) i d ≡ get_or xs i d
  get_or-append_default zero [] d = refl
  get_or-append_default (suc i) [] d = refl
  get_or-append_default zero (x ∷ xs) d = refl
  get_or-append_default (suc i) (x ∷ xs) d = get_or-append_default i xs d

  pub get_or_past : (xs : List A) (d : A) (i : ℕ) → length xs ≤ i → get_or xs i d ≡ d
  get_or_past [] d i h = refl
  get_or_past (x ∷ xs) d zero h = absurd (omega arith)
  get_or_past (x ∷ xs) d (suc i) h = get_or_past xs d i (omega arith)

  -- An update by the value of the cell itself.
  pub update_at_own :
      (i : ℕ) (f : A → A) (xs : List A) (d : A)
      → update_at i (λ _. f (get_or xs i d)) xs ≡ update_at i f xs
  unfolding update_at
  update_at_own i f [] d = refl
  update_at_own zero f (x ∷ xs) d = refl
  update_at_own (suc i) f (x ∷ xs) d = rw (update_at_own i f xs d)

  -- Two updates of one cell are one.
  pub update_at_twice :
      (i : ℕ) (f g h : A → A) (xs : List A)
      → ((x : A) → g (f x) ≡ h x)
      → update_at i g (update_at i f xs) ≡ update_at i h xs
  unfolding update_at
  update_at_twice i f g h [] e = refl
  update_at_twice zero f g h (x ∷ xs) e = ap (λ y. y ∷ xs) (e x)
  update_at_twice (suc i) f g h (x ∷ xs) e = ap (λ ys. x ∷ ys) (update_at_twice i f g h xs e)

  -- An update that leaves the cell as it is.
  pub update_at_same :
      (i : ℕ) (f : A → A) (xs : List A) (d : A)
      → f (get_or xs i d) ≡ get_or xs i d
      → update_at i f xs ≡ xs
  unfolding update_at
  update_at_same i f [] d e = refl
  update_at_same zero f (x ∷ xs) d e = ap (λ y. y ∷ xs) e
  update_at_same (suc i) f (x ∷ xs) d e = ap (λ ys. x ∷ ys) (update_at_same i f xs d e)
