-- ===== src/Net/RoundTrip.antt =====
-- A printed IPv4 address is parsed back.
use wiretally.Prelude.{
  ℕ, suc, ◌+◌, ◌-◌, ◌/◌, ◌%◌, ◌<◌, ◌≤◌, ◌≡◌, refl, ap, sym, subst, ◌∙◌, false, none, some, List, [],
  ◌∷◌, ◌++◌, append-nil, length-eq-four, All, arith,
}
use wiretally.Text.{Text, decimal, radix_rounds, digit}
use wiretally.Net.{v4, IsByte, IsAddr, ip_text, parse_ip}
use wiretally.Net.Display.{v4_text}
use wiretally.Net.Parse.{to_digit, read_digits, read_number, read_octet, read_octets, read_v4}
use native.Mathlib.Decide.{dec_lt}

one_digit : (f n : ℕ) → n < 10 → radix_rounds (suc f) 10 n ≡ digit n ∷ []
unfolding radix_rounds
one_digit f n h = ground (arith, h)

two_digits :
    (f n : ℕ)
    → 10 ≤ n
    → n < 100
    → radix_rounds (suc (suc f)) 10 n ≡ digit (n / 10) ∷ digit (n % 10) ∷ []
unfolding radix_rounds
two_digits f n h k = ground (arith, h, k)

three_digits :
    (f n : ℕ)
    → 100 ≤ n
    → n < 1000
    → radix_rounds (suc (suc (suc f))) 10 n
      ≡ digit (n / 10 / 10) ∷ digit (n / 10 % 10) ∷ digit (n % 10) ∷ []
unfolding radix_rounds
three_digits f n h k = ground (arith, h, k)

-- No digit follows.
abbrev DigitsEnd : Text → Type 0
DigitsEnd [] = Unit
DigitsEnd (c ∷ s) = to_digit 10 c ≡ none

read_digits_end :
    (most acc count : ℕ) (rest : Text)
    → DigitsEnd rest
    → read_digits 10 most acc count rest ≡ some (acc, count, rest)
unfolding read_digits
read_digits_end most acc count [] h = refl
read_digits_end most acc count (c ∷ s) h = ground (arith, h)

to_digit-digit : (d : ℕ) → d < 10 → to_digit 10 (digit d) ≡ some d
unfolding to_digit digit
to_digit-digit d h = ground arith

digit_code : (d : ℕ) → d < 10 → digit d ≡ 48 + d
unfolding digit
digit_code d h = ground (arith, h)

decimal_one : (n : ℕ) → n < 10 → decimal n ≡ digit n ∷ []
unfolding decimal
decimal_one n h = one_digit n n h

decimal_two : (n : ℕ) → 10 ≤ n → n < 100 → decimal n ≡ digit (n / 10) ∷ digit (n % 10) ∷ []
unfolding decimal
decimal_two n h k =
    let e : n ≡ suc (n - 1) = omega arith in
    ap (λ f. radix_rounds (suc f) 10 n) e ∙ two_digits (n - 1) n h k

decimal_three :
    (n : ℕ)
    → 100 ≤ n
    → n < 1000
    → decimal n ≡ digit (n / 10 / 10) ∷ digit (n / 10 % 10) ∷ digit (n % 10) ∷ []
unfolding decimal
decimal_three n h k =
    let e : n ≡ suc (suc (n - 2)) = omega arith in
    ap (λ f. radix_rounds (suc f) 10 n) e ∙ three_digits (n - 2) n h k

read_number-decimal :
    (n : ℕ) (rest : Text)
    → n < 256
    → DigitsEnd rest
    → read_number 10 3 false 256 (decimal n ++ rest) ≡ some (n, rest)
unfolding read_number read_digits
read_number-decimal n rest h k = elim (dec_lt n 10) [
  | yes one ↦
      rw (decimal_one n one) (ground (arith, to_digit-digit n one, read_digits_end 3 n 1 rest k))
  | no more ↦ elim (dec_lt n 100) [
    | yes two ↦ rw (decimal_two n (omega arith) two) (
        ground (
          arith,
          digit_code (n / 10) (omega arith),
          to_digit-digit (n / 10) (omega arith),
          to_digit-digit (n % 10) (omega arith),
          read_digits_end 3 n 2 rest k,
        ))
    | no three ↦ rw (decimal_three n (omega arith) (omega arith)) (
        ground (
          arith,
          digit_code (n / 10 / 10) (omega arith),
          to_digit-digit (n / 10 / 10) (omega arith),
          to_digit-digit (n / 10 % 10) (omega arith),
          to_digit-digit (n % 10) (omega arith),
          read_digits_end 3 n 3 rest k,
        ))
  ]
]

dotted :
    (a b c d : ℕ)
    → v4_text (a ∷ b ∷ c ∷ d ∷ [])
      ≡ decimal a ++ (b'.' ∷ (decimal b ++ (b'.' ∷ (decimal c ++ (b'.' ∷ decimal d)))))
unfolding v4_text
dotted a b c d = refl

read_octet-dot :
    (i n : ℕ) (rest : Text)
    → n < 256
    → DigitsEnd rest
    → read_octet (suc i) (b'.' ∷ (decimal n ++ rest)) ≡ some (n, rest)
unfolding read_octet
read_octet-dot i n rest h k = read_number-decimal n rest h k

read_octet-first :
    (n : ℕ) (rest : Text)
    → n < 256
    → DigitsEnd rest
    → read_octet 0 (decimal n ++ rest) ≡ some (n, rest)
unfolding read_octet
read_octet-first n rest h k = read_number-decimal n rest h k

read_v4-dotted :
    (a b c d : ℕ)
    → a < 256
    → b < 256
    → c < 256
    → d < 256
    → read_v4 (v4_text (a ∷ b ∷ c ∷ d ∷ [])) ≡ some (a ∷ b ∷ c ∷ d ∷ [], [])
unfolding read_v4 to_digit
read_v4-dotted a b c d ha hb hc hd =
    let rest_c : Text = decimal c ++ (b'.' ∷ decimal d) in
    let rest_b : Text = decimal b ++ (b'.' ∷ rest_c) in
    ap (read_octets 4 0) (dotted a b c d)
    ∙ ground (
      arith,
      read_octet-first a (b'.' ∷ rest_b) ha refl,
      read_octet-dot 0 b (b'.' ∷ rest_c) hb refl,
      read_octet-dot 1 c (b'.' ∷ decimal d) hc refl,
      read_octet-dot 2 d [] hd tt,
      append-nil (decimal d),
    )

four_octets :
    (a b c d : ℕ)
    → All IsByte (a ∷ b ∷ c ∷ d ∷ [])
    → parse_ip (ip_text (v4 (a ∷ b ∷ c ∷ d ∷ []))) ≡ some (v4 (a ∷ b ∷ c ∷ d ∷ []))
unfolding parse_ip ip_text
four_octets a b c d (ha, (hb, (hc, (hd, _)))) =
    rw (read_v4-dotted a b c d ha hb hc hd, parse_ip) refl

-- An IPv4 address is parsed back from the text that it is printed as.
pub parse_ip-ip_text : (os : List ℕ) → IsAddr (v4 os) → parse_ip (ip_text (v4 os)) ≡ some (v4 os)
parse_ip-ip_text os (len, bytes) =
    let (a, b, c, d, e) = length-eq-four os len in
    subst (λ xs. parse_ip (ip_text (v4 xs)) ≡ some (v4 xs)) (sym e)
      (four_octets a b c d (subst (All IsByte) e bytes))
