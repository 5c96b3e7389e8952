-- ===== src/Stats/Sorting.antt =====
-- Rows of different domains are sorted the same, in whatever order they come.
use Prim.Native.Nat.{Ordering}
use wiretally.Prelude.{◌≡◌, ◌≢◌, inl, inr, refl, ap, sym, ◌∙◌, List, [], ◌∷◌, arith}
use wiretally.Text.{Text}
use wiretally.Stats.{Endpoint, text_cmp, cmp_rows, insert_row}
use wiretally.Stats.Order.{Ordering-cases, place-first}

text_cmp_refl : (s : Text) → text_cmp s s ≡ Ordering.eq
unfolding text_cmp
text_cmp_refl [] = refl
text_cmp_refl (c ∷ s) = ground (arith, text_cmp_refl s)

text_cmp-eq : (s t : Text) → text_cmp s t ≡ Ordering.eq → s ≡ t
unfolding text_cmp
text_cmp-eq [] [] h = refl
text_cmp-eq [] (d ∷ t) h = ground arith
text_cmp-eq (c ∷ s) [] h = ground arith
text_cmp-eq (c ∷ s) (d ∷ t) h = ground (arith, text_cmp-eq s t)

text_cmp-gt : (s t : Text) → text_cmp s t ≡ Ordering.gt → text_cmp t s ≡ Ordering.lt
unfolding text_cmp
text_cmp-gt [] [] h = ground arith
text_cmp-gt [] (d ∷ t) h = ground arith
text_cmp-gt (c ∷ s) [] h = refl
text_cmp-gt (c ∷ s) (d ∷ t) h = ground (arith, text_cmp-gt s t)

text_cmp-lt : (s t : Text) → text_cmp s t ≡ Ordering.lt → text_cmp t s ≡ Ordering.gt
unfolding text_cmp
text_cmp-lt [] [] h = ground arith
text_cmp-lt [] (d ∷ t) h = refl
text_cmp-lt (c ∷ s) [] h = ground arith
text_cmp-lt (c ∷ s) (d ∷ t) h = ground (arith, text_cmp-lt s t)

text_cmp_trans :
    (s t u : Text)
    → text_cmp s t ≡ Ordering.gt
    → text_cmp t u ≡ Ordering.gt
    → text_cmp s u ≡ Ordering.gt
unfolding text_cmp
text_cmp_trans [] [] u h k = ground arith
text_cmp_trans [] (d ∷ t) u h k = ground arith
text_cmp_trans (c ∷ s) [] [] h k = ground arith
text_cmp_trans (c ∷ s) [] (e ∷ u) h k = ground arith
text_cmp_trans (c ∷ s) (d ∷ t) [] h k = refl
text_cmp_trans (c ∷ s) (d ∷ t) (e ∷ u) h k = ground (arith, text_cmp_trans s t u)

-- What follows `u` follows each text that does not.
text_cmp_between :
    (s t u : Text)
    → text_cmp s u ≡ Ordering.gt
    → text_cmp t u ≢ Ordering.gt
    → text_cmp s t ≡ Ordering.gt
text_cmp_between s t u h k = ground (arith, text_cmp-eq t u, text_cmp-lt t u, text_cmp_trans s u t)

abbrev Follows : Endpoint → Endpoint → Type 0
Follows a b = cmp_rows a b ≡ Ordering.gt

Follows-asym : (a b : Endpoint) → Follows a b → Follows b a → ⊥
unfolding cmp_rows
Follows-asym a b h k = ground (arith, text_cmp-gt a.domain b.domain)

Follows-total : (a b : Endpoint) → a.domain ≢ b.domain → cmp_rows a b ≢ Ordering.gt → Follows b a
unfolding cmp_rows
Follows-total a b h k = ground (arith, text_cmp-eq a.domain b.domain, text_cmp-lt a.domain b.domain)

Follows-between : (a b c : Endpoint) → Follows a c → cmp_rows b c ≢ Ordering.gt → Follows a b
unfolding cmp_rows
Follows-between a b c h k = ground (arith, text_cmp_between a.domain b.domain c.domain)

insert_before :
    (x y : Endpoint) (ys : List Endpoint)
    → cmp_rows x y ≢ Ordering.gt
    → insert_row x (y ∷ ys) ≡ x ∷ y ∷ ys
unfolding insert_row
insert_before x y ys h = place-first (cmp_rows x y) x y ys (insert_row x ys) h

insert_behind :
    (x y : Endpoint) (ys : List Endpoint)
    → Follows x y
    → insert_row x (y ∷ ys) ≡ y ∷ insert_row x ys
unfolding insert_row
insert_behind x y ys h = rw h

insert_row_pair :
    (x y : Endpoint) (zs : List Endpoint)
    → Follows x y
    → (cmp_rows y x ≢ Ordering.gt)
    → (z : Endpoint) → cmp_rows x z ≢ Ordering.gt
    → cmp_rows y z ≢ Ordering.gt
    → insert_row x (insert_row y (z ∷ zs)) ≡ insert_row y (insert_row x (z ∷ zs))
insert_row_pair x y zs h h' z a b =
    ap (insert_row x) (insert_before y z zs b)
    ∙ insert_behind x y (z ∷ zs) h
    ∙ ap (λ l. y ∷ l) (insert_before x z zs a)
    ∙ sym (insert_before y x (z ∷ zs) h')
    ∙ ap (insert_row y) (sym (insert_before x z zs a))

-- `x` stays in front of `z`, and `y` goes behind it.
insert_row_apart :
    (x y z : Endpoint) (zs : List Endpoint)
    → cmp_rows x z ≢ Ordering.gt
    → Follows y z
    → insert_row x (insert_row y (z ∷ zs)) ≡ insert_row y (insert_row x (z ∷ zs))
insert_row_apart x y z zs a b =
    let yx = Follows-between y x z b a in
    ap (insert_row x) (insert_behind y z zs b)
    ∙ insert_before x z (insert_row y zs) a
    ∙ ap (λ l. x ∷ l) (sym (insert_behind y z zs b))
    ∙ sym (insert_behind y x (z ∷ zs) yx)
    ∙ ap (insert_row y) (sym (insert_before x z zs a))

-- Two rows of different domains are inserted in either order.
pub insert_row_swap :
    (x y : Endpoint) (zs : List Endpoint)
    → x.domain ≢ y.domain
    → insert_row x (insert_row y zs) ≡ insert_row y (insert_row x zs)
unfolding insert_row
insert_row_swap x y [] h = elim (Ordering-cases (cmp_rows x y)) [
  | inl xy ↦ insert_behind x y [] xy ∙ sym (insert_before y x [] (λ e. Follows-asym x y xy e))
  | inr xy ↦ insert_before x y [] xy ∙ sym (insert_behind y x [] (Follows-total x y h xy))
]
insert_row_swap x y (z ∷ zs) h = elim (Ordering-cases (cmp_rows x z)) [
  | inl xz ↦ elim (Ordering-cases (cmp_rows y z)) [
    | inl yz ↦
        ap (insert_row x) (insert_behind y z zs yz)
        ∙ insert_behind x z (insert_row y zs) xz
        ∙ ap (λ l. z ∷ l) (insert_row_swap x y zs h)
        ∙ sym (insert_behind y z (insert_row x zs) yz)
        ∙ ap (insert_row y) (sym (insert_behind x z zs xz))
    | inr yz ↦ sym (insert_row_apart y x z zs yz xz)
  ]
  | inr xz ↦ elim (Ordering-cases (cmp_rows y z)) [
    | inl yz ↦ insert_row_apart x y z zs xz yz
    | inr yz ↦ elim (Ordering-cases (cmp_rows x y)) [
      | inl xy ↦ insert_row_pair x y zs xy (λ e. Follows-asym x y xy e) z xz yz
      | inr xy ↦ let yx = Follows-total x y h xy in sym (insert_row_pair y x zs yx xy z yz xz)
    ]
  ]
]
