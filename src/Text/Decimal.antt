-- ===== src/Text/Decimal.antt =====
-- Numbers as text: `{}`, `{:x}`, and `str::parse::<u16>`.
use wiretally.Prelude.{
  ◌≤◌, append-nil, append_assoc, All, All-snoc, snoc-cons, ap, sym, subst, Bool-cases, inl, inr,
  ◌∙◌, ℕ, zero, suc, ◌+◌, ◌*◌, ◌-◌, ◌/◌, ◌%◌, ◌<◌, ◌≡◌, refl, Bool, ◌&&◌, Option, none, some, List,
  [], ◌∷◌, ◌++◌, leb, ltb, ◌==◌, if◌then◌else◌, arith,
}

unfoldable pub digit : ℕ → ℕ
digit d = if ltb d 10 then 48 + d else 87 + d

-- The digits of `n` in a base, with rounds enough for `n`: each divides by the base.
unfoldable pub radix_rounds : ℕ → ℕ → ℕ → List ℕ
radix_rounds zero base n = []
radix_rounds (suc f) base n =
    let rest = radix_rounds f base (n / base) ++ digit (n % base) ∷ [] in
    if ltb n base then digit n ∷ [] else rest

unfoldable pub decimal : ℕ → List ℕ
unfolding radix_rounds digit
decimal n = radix_rounds (suc n) 10 n

unfoldable pub hex : ℕ → List ℕ
unfolding radix_rounds digit
hex n = radix_rounds (suc n) 16 n

unfoldable pub is_digit : ℕ → Bool
is_digit c = leb b'0' c && leb c b'9'

-- The digits are read from the left, and the value is checked against `u16::MAX` at each.
unfoldable pub parse_digits : ℕ → List ℕ → Option ℕ
unfolding is_digit
parse_digits acc [] = some acc
parse_digits acc (c ∷ s) =
    let rest = parse_digits (acc * 10 + (c - 48)) s in
    if is_digit c && ltb (acc * 10 + (c - 48)) 65536 then rest else none

-- A leading `+` is allowed, but not alone; a `-` is not.
unfoldable pub parse_u16 : List ℕ → Option ℕ
unfolding parse_digits
parse_u16 [] = none
parse_u16 (c ∷ []) = if c == b'+' then none else parse_digits 0 (c ∷ [])
parse_u16 (c ∷ d ∷ s) = if c == b'+' then parse_digits 0 (d ∷ s) else parse_digits 0 (c ∷ d ∷ s)

parse_digits-lt :
    (acc : ℕ) (s : List ℕ) {n : ℕ} → acc < 65536 → parse_digits acc s ≡ some n → n < 65536
unfolding parse_digits
parse_digits-lt acc [] h e = ground arith
parse_digits-lt acc (c ∷ s) {n} h e =
    ground (arith, parse_digits-lt (acc * 10 + (c - 48)) s {n = n})

-- A parsed port is a `u16`.
pub parse_u16-lt : (s : List ℕ) {n : ℕ} → parse_u16 s ≡ some n → n < 65536
unfolding parse_u16
parse_u16-lt [] e = ground arith
parse_u16-lt (c ∷ []) {n} e = ground (arith, parse_digits-lt 0 (c ∷ []) {n = n})
parse_u16-lt (c ∷ d ∷ s) {n} e =
    ground (arith, parse_digits-lt 0 (c ∷ d ∷ s) {n = n}, parse_digits-lt 0 (d ∷ s) {n = n})

decimal_runs : decimal 65535 ≡ b'6' ∷ b'5' ∷ b'5' ∷ b'3' ∷ b'5' ∷ []
unfolding decimal
decimal_runs = refl

hex_runs : hex 0xfe80 ≡ b'f' ∷ b'e' ∷ b'8' ∷ b'0' ∷ []
unfolding hex
hex_runs = refl

-- Reading the digits of `n` leaves `n` for the rest of the text.
parse_digits-radix :
    (f n : ℕ) (rest : List ℕ)
    → n < f
    → n < 65536
    → parse_digits 0 (radix_rounds f 10 n ++ rest) ≡ parse_digits n rest
unfolding radix_rounds digit parse_digits
parse_digits-radix zero n rest h k = absurd (omega arith)
parse_digits-radix (suc f) n rest h k = elim (Bool-cases (ltb n 10)) [
  | inl small ↦ ground (arith, small)
  | inr large ↦
      rw (large, append_assoc (radix_rounds f 10 (n / 10)) (digit (n % 10) ∷ []) rest)
        (parse_digits-radix f (n / 10) (digit (n % 10) ∷ rest) (ground (arith, large)) (omega arith)
          ∙ ground (arith, large))
]

abbrev pub IsDigit : ℕ → Type 0
IsDigit c = (b'0' ≤ c) × (c ≤ b'9')

digit-IsDigit : (d : ℕ) → d < 10 → IsDigit (digit d)
unfolding digit
digit-IsDigit d h = ground arith

radix-IsDigit : (f n : ℕ) → All IsDigit (radix_rounds f 10 n)
unfolding radix_rounds
radix-IsDigit zero n = tt
radix-IsDigit (suc f) n = elim (Bool-cases (ltb n 10)) [
  | inl small ↦ rw small (digit-IsDigit n (ground (arith, small)), tt)
  | inr large ↦ rw large (
      All-snoc IsDigit (radix_rounds f 10 (n / 10)) (digit (n % 10)) (radix-IsDigit f (n / 10))
        (digit-IsDigit (n % 10) (omega arith)))
]

-- A number is printed in decimal digits.
pub decimal-IsDigit : (n : ℕ) → All IsDigit (decimal n)
unfolding decimal
decimal-IsDigit n = radix-IsDigit (suc n) n

radix-cons : (f n : ℕ) → 0 < f → (c : ℕ) × (s : List ℕ) × (radix_rounds f 10 n ≡ c ∷ s)
unfolding radix_rounds
radix-cons zero n h = absurd (omega arith)
radix-cons (suc f) n h = elim (Bool-cases (ltb n 10)) [
  | inl small ↦ (digit n, [], rw small)
  | inr large ↦ snoc-cons (radix_rounds f 10 (n / 10)) (digit (n % 10)) _ (rw large)
]

parse_u16-cons : (c : ℕ) (s : List ℕ) → IsDigit c → parse_u16 (c ∷ s) ≡ parse_digits 0 (c ∷ s)
unfolding parse_u16
parse_u16-cons c [] h = ground arith
parse_u16-cons c (d ∷ s) h = ground arith

-- A `u16` that was printed is parsed back.
pub parse_u16-decimal : (n : ℕ) → n < 65536 → parse_u16 (decimal n) ≡ some n
unfolding decimal parse_digits
parse_u16-decimal n h =
    let (c, s, e) = radix-cons (suc n) n (omega arith) in
    let digits : All IsDigit (c ∷ s) = subst (All IsDigit) e (radix-IsDigit (suc n) n) in
    ap parse_u16 e
    ∙ parse_u16-cons c s digits.0
    ∙ ap (parse_digits 0) (sym e ∙ sym (append-nil (radix_rounds (suc n) 10 n)))
    ∙ parse_digits-radix (suc n) n [] (omega arith) h
