-- ===== src/Proxy/Association/Discard.antt =====
-- The loop that reads the control connection ends, and reads all of it.
use wiretally.Prelude.{
  ℕ, zero, suc, ◌≤◌, ◌≡◌, refl, subst, ap, sym, ◌∙◌, false, inl, inr, some, Option-cases, List,
  List-cases, [], ◌∷◌, length, length-append, ok, arith,
}
use wiretally.Stream.{Stream, read, read_some, read-Takes}
use wiretally.Proxy.Association.{goes_on, discard_loop}

-- A stream that was read to its end.
pub record ReadOut (s s' : Stream) : Type 0 where
  pub all_read : s'.incoming ≡ []
  pub same_output : s'.outgoing ≡ s.outgoing

length_zero : (xs : List ℕ) → length xs ≡ 0 → xs ≡ []
length_zero [] h = refl
length_zero (x ∷ xs) h = absurd (omega arith)

read_some_end : (s : Stream) → ((read_some 64 [] s).1 ≡ s) × (goes_on (read_some 64 [] s).0 ≡ false)
unfolding read_some goes_on
read_some_end s = elim (Option-cases s.ending) [
  | inl closed ↦ (ground (arith, closed), ground (arith, closed))
  | inr (x, broken) ↦ (ground (arith, broken), ground (arith, broken))
]

read_end : (s : Stream) → s.incoming ≡ [] → ((read 64 s).1 ≡ s) × (goes_on (read 64 s).0 ≡ false)
unfolding read
read_end s e =
    subst (λ l. ((read_some 64 l s).1 ≡ s) × (goes_on (read_some 64 l s).0 ≡ false)) (sym e)
      (read_some_end s)

-- The loop ends, with the stream read to its end.
abbrev pub ReadsOut : ℕ → Stream → Type 0
ReadsOut fuel s = (s' : Stream) × (discard_loop fuel s ≡ some s') × ReadOut s s'

ends_now : (fuel : ℕ) (s : Stream) → s.incoming ≡ [] → ReadsOut (suc fuel) s
unfolding discard_loop goes_on
ends_now fuel s e =
    let (same, ends) = read_end s e in
    (s, rw (discard_loop, ends) (ap some same), record { all_read = e; same_output = refl })

goes_step :
    (fuel c : ℕ) (cs : List ℕ) (s s' : Stream)
    → read 64 s ≡ (ok (c ∷ cs), s')
    → discard_loop (suc fuel) s ≡ discard_loop fuel s'
unfolding discard_loop goes_on
goes_step fuel c cs s s' e = ground (arith, e)

pub discard_loop-ReadOut :
    (fuel : ℕ) (s : Stream) → length s.incoming ≤ fuel → ReadsOut (suc fuel) s
unfolding discard_loop goes_on
discard_loop-ReadOut zero s h = ends_now zero s (length_zero s.incoming (omega arith))
discard_loop-ReadOut (suc fuel) s h = elim (List-cases s.incoming) [
  | inl e ↦ ends_now (suc fuel) s e
  | inr (b, bs, e) ↦
      let (c, cs, s', taken, all, some_read, frame) = read-Takes 64 b bs s (omega arith) e in
      let (s'', ends, r) =
        discard_loop-ReadOut fuel s'
          (omega (arith, h, ap length all, length-append (c ∷ cs) s'.incoming)) in
      (
        s'',
        goes_step (suc fuel) c cs s s' taken ∙ ends,
        record { all_read = r.all_read; same_output = r.same_output ∙ ap (λ x. x.outgoing) frame },
      )
]
