-- ===== src/Report/Render/Width.antt =====
-- How wide the lines of the table are.
use wiretally.Prelude.{
  ℕ, zero, suc, ◌-◌, ◌*◌, ◌/◌, ◌%◌, ◌^◌, ◌≤◌, ◌<◌, ◌≡◌, refl, ap, ◌∙◌, inl, inr, Bool-cases, [],
  ◌∷◌, ◌++◌, append_assoc, length, length-append, ltb, arith,
}
use wiretally.Text.{Text, chars, decimal, radix_rounds, digit, fixed_two}
use wiretally.Stats.{Endpoint}
use wiretally.Report.{elide, format_bytes}
use wiretally.Report.Sums.{elide_lem}
use wiretally.Report.Bytes.{IsUnit, Printed, format_bytes-Printed}
use wiretally.Report.Render.{repeat, left_aligned, right_aligned, columns, endpoint_line}

abbrev pub power_of_ten : ℕ → ℕ
power_of_ten zero = 1
power_of_ten (suc k) = 10 * power_of_ten k

length-radix : (f k n : ℕ) → n < power_of_ten (suc k) → length (radix_rounds f 10 n) ≤ suc k
unfolding radix_rounds
length-radix zero k n h = omega arith
length-radix (suc f) zero n h = ground arith
length-radix (suc f) (suc k) n h = elim (Bool-cases (ltb n 10)) [
  | inl small ↦ rw small (omega arith)
  | inr large ↦ rw large (
      omega (
        arith,
        length-append (radix_rounds f 10 (n / 10)) (digit (n % 10) ∷ []),
        length-radix f k (n / 10) (omega arith),
      ))
]

-- A number below a power of ten has no more digits than that.
length-decimal : (k n : ℕ) → n < power_of_ten (suc k) → length (decimal n) ≤ suc k
unfolding decimal
length-decimal k n h = length-radix (suc n) k n h

length-repeat : (n c : ℕ) → length (repeat n c) ≡ n
unfolding repeat
length-repeat zero c = refl
length-repeat (suc n) c = omega (arith, length-repeat n c)

length-left_aligned : (n : ℕ) (t : Text) → length t ≤ n → length (left_aligned n t) ≡ n
unfolding left_aligned
length-left_aligned n t h =
    omega (arith, length-append t (repeat (n - length t) b' '), length-repeat (n - length t) b' ')

length-right_aligned : (n : ℕ) (t : Text) → length t ≤ n → length (right_aligned n t) ≡ n
unfolding right_aligned
length-right_aligned n t h =
    omega (arith, length-append (repeat (n - length t) b' ') t, length-repeat (n - length t) b' ')

length-columns :
    (name rx tx conns : Text)
    → length name ≤ 34
    → length rx ≤ 14
    → length tx ≤ 17
    → length conns ≤ 8
    → length (columns name rx tx conns) ≡ 73
unfolding columns
length-columns name rx tx conns a b c d =
    let last = right_aligned 17 tx ++ right_aligned 8 conns in
    omega (
      arith,
      length-append (left_aligned 34 name) (right_aligned 14 rx ++ last),
      length-append (right_aligned 14 rx) last,
      length-append (right_aligned 17 tx) (right_aligned 8 conns),
      length-left_aligned 34 name a,
      length-right_aligned 14 rx b,
      length-right_aligned 17 tx c,
      length-right_aligned 8 conns d,
    )

repeat_cons : (n c : ℕ) → 0 < n → (cs : Text) × (repeat n c ≡ c ∷ cs)
unfolding repeat
repeat_cons zero c h = absurd (omega arith)
repeat_cons (suc n) c h = (repeat n c, refl)

columns_space :
    (name rx tx conns : Text)
    → length name ≤ 33
    → (cells : Text) × (columns name rx tx conns ≡ name ++ (b' ' ∷ cells))
unfolding columns left_aligned
columns_space name rx tx conns h =
    let (cs, e) = repeat_cons (34 - length name) b' ' (omega arith) in
    let rest = right_aligned 14 rx ++ (right_aligned 17 tx ++ right_aligned 8 conns) in
    (
      cs ++ rest,
      append_assoc name (repeat (34 - length name) b' ') rest ∙ ap (λ s. name ++ (s ++ rest)) e,
    )

module _ (bytes : ℕ) (p : Printed bytes) (h : bytes < 2 ^ 64) where
  -- Below the last unit the value is below 1024 of its units, and a `u64` is below 2 ^ 14 of the last.
  shown_within : IsUnit p.unit p.size → p.shown < 10000000
  shown_within (inl (_, e)) = ground (arith, e, ap (λ (s : ℕ). p.shown * s) e)
  shown_within (inr (inl (_, e))) = ground (arith, e, ap (λ (s : ℕ). p.shown * s) e)
  shown_within (inr (inr (inl (_, e)))) = ground (arith, e, ap (λ (s : ℕ). p.shown * s) e)
  shown_within (inr (inr (inr (inl (_, e))))) = ground (arith, e, ap (λ (s : ℕ). p.shown * s) e)
  shown_within (inr (inr (inr (inr (_, e))))) = ground (arith, e, ap (λ (s : ℕ). p.shown * s) e)

length-unit : (unit : Text) (size : ℕ) → IsUnit unit size → length unit ≡ 2
length-unit unit size (inl (e, _)) = ap length e
length-unit unit size (inr (inl (e, _))) = ap length e
length-unit unit size (inr (inr (inl (e, _)))) = ap length e
length-unit unit size (inr (inr (inr (inl (e, _))))) = ap length e
length-unit unit size (inr (inr (inr (inr (e, _))))) = ap length e

-- A `u64` is printed in at most eleven characters.
length-format_bytes : (bytes : ℕ) → bytes < 2 ^ 64 → length (format_bytes bytes) ≤ 11
unfolding fixed_two
length-format_bytes bytes h = elim (format_bytes-Printed bytes) [
  | inl (small, text) ↦ omega (
    arith,
    ap length text,
    length-append (decimal bytes) (chars " B"),
    length-decimal 3 bytes (omega arith),
  )
  | inr (large, p) ↦ omega (
    arith,
    ap length p.printed,
    length-append (fixed_two p.shown) (b' ' ∷ p.unit),
    length-append (decimal (p.shown / 100))
        (b'.' ∷ digit (p.shown / 10 % 10) ∷ digit (p.shown % 10) ∷ []),
    length-decimal 4 (p.shown / 100) (omega (arith, shown_within bytes p h p.is_unit)),
    length-unit p.unit p.size p.is_unit,
  )
]

-- Every line of the table is 73 characters wide, if its counters are `u64`s and it has fewer than 10 ^ 8
-- connections, and its name, shortened to 33 characters at most, is followed by a space.
pub endpoint_line_width :
    (e : Endpoint)
    → e.ingress_bytes < 2 ^ 64
    → e.egress_bytes < 2 ^ 64
    → e.connections < 10 ^ 8
    → (length (endpoint_line e) ≡ 73)
      × (length (elide e.domain 33) ≤ 33)
      × ((cells : Text) × (endpoint_line e ≡ elide e.domain 33 ++ (b' ' ∷ cells)))
unfolding endpoint_line
endpoint_line_width e rx tx conns =
    let (short, _) = elide_lem e.domain 33 (omega arith) in
    (
      length-columns (elide e.domain 33) (format_bytes e.ingress_bytes)
          (format_bytes e.egress_bytes) (decimal e.connections) (omega (arith, short))
          (omega (arith, length-format_bytes e.ingress_bytes rx))
          (omega (arith, length-format_bytes e.egress_bytes tx))
          (length-decimal 7 e.connections conns),
      short,
      columns_space (elide e.domain 33) (format_bytes e.ingress_bytes) (format_bytes e.egress_bytes)
          (decimal e.connections) short,
    )
