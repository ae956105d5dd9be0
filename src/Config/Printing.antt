-- ===== src/Config/Printing.antt =====
-- v4/config/parse.go: what parsing a printed number or range gives.
use relay_x.Prelude.{
  ℕ, zero, suc, ◌+◌, ◌*◌, ◌-◌, ◌/◌, ◌%◌, ◌^◌, ◌≤◌, ◌<◌, ◌≡◌, ◌≢◌, refl, ap, ◌∙◌, Bool, true,
  Bool-cases, not, some, [], ◌∷◌, ◌++◌, inl, inr, Text, is_space, trim_left, trim_space, decimal,
  decimal_loop, arith, ltb,
}
use mathlib.Core.List.{reverse, reverse-reverse, reverse-cons}
use relay_x.Prelude.Int.{pos}
use relay_x.Errors.{ok}
use relay_x.Config.Numbers.{is_digit, digits_from, atoi, split}
use relay_x.Config.Range.{in_range, of_parts, parse_port_range}

abbrev All : (ℕ → Bool) → Text → Type 0
All p [] = Unit {0}
All p (c ∷ s) = (p c ≡ true) × All p s

decimal_loop-digits :
    (f n : ℕ) (acc : Text) → All is_digit acc → All is_digit (decimal_loop f n acc)
unfolding decimal_loop
decimal_loop-digits zero n acc h = h
decimal_loop-digits (suc f) n acc h = elim (Bool-cases (ltb n 10)) [
  | inl e ↦ rw e (ground arith, h)
  | inr e ↦ rw e (decimal_loop-digits f (n / 10) ((48 + n % 10) ∷ acc) (ground arith, h))
]

decimal_loop_not_empty : (f n c : ℕ) (s : Text) → decimal_loop f n (c ∷ s) ≢ []
unfolding decimal_loop
decimal_loop_not_empty zero n c s h = cc
decimal_loop_not_empty (suc f) n c s h =
    ground (arith, decimal_loop_not_empty f (n / 10) (48 + n % 10) (c ∷ s))

no_text : (n : ℕ) → decimal n ≢ []
unfolding decimal decimal_loop
no_text n h = ground (arith, decimal_loop_not_empty n (n / 10) (48 + n % 10) [])

digits_from_eq : (a b : ℕ) (s : Text) → a ≡ b → digits_from a s ≡ digits_from b s
digits_from_eq a b s e = ap (λ k. digits_from k s) e

digits_from-cons :
    (a d : ℕ) (s : Text) → d < 10 → digits_from a ((48 + d) ∷ s) ≡ digits_from (a * 10 + d) s
unfolding digits_from
digits_from-cons a d s h =
    ground (arith, digits_from_eq (a * 10 + (48 + d - 48)) (a * 10 + d) s (omega arith))

digits_from-decimal_loop :
    (f n : ℕ) (s : Text) → n < f → digits_from 0 (decimal_loop f n s) ≡ digits_from n s
unfolding decimal_loop
digits_from-decimal_loop zero n s h = absurd (omega arith)
digits_from-decimal_loop (suc f) n s h = elim (Bool-cases (ltb n 10)) [
  | inl e ↦
      rw e (digits_from-cons 0 n s (ground arith) ∙ digits_from_eq (0 * 10 + n) n s (omega arith))
  | inr e ↦ rw e (
      digits_from-decimal_loop f (n / 10) ((48 + n % 10) ∷ s) (ground arith)
      ∙ digits_from-cons (n / 10) (n % 10) s (omega arith)
      ∙ digits_from_eq (n / 10 * 10 + n % 10) n s (omega arith))
]

-- Printed numbers are not empty, hold digits only, and have their value.
decimal_lem :
    (n : ℕ)
    → (c : ℕ) × (s : Text) × (decimal n ≡ c ∷ s)
      × All is_digit (c ∷ s)
      × (digits_from 0 (c ∷ s) ≡ some n)
unfolding decimal digits_from
decimal_lem n = shape (decimal n) refl
  where
    shape :
        (t : Text)
        → decimal n ≡ t
        → (c : ℕ) × (s : Text) × (t ≡ c ∷ s)
          × All is_digit (c ∷ s)
          × (digits_from 0 (c ∷ s) ≡ some n)
    shape [] e = absurd (no_text n e)
    shape (c ∷ s) e = (
      c,
      s,
      refl,
      rw e at (decimal_loop-digits (suc n) n [] tt),
      rw e at (digits_from-decimal_loop (suc n) n [] (omega arith)),
    )

solid : ℕ → Bool
solid c = not (is_space c)

All-append : (p : ℕ → Bool) (s t : Text) → All p s → All p t → All p (s ++ t)
All-append p [] t h k = k
All-append p (c ∷ s) t h k = (h.0, All-append p s t h.1 k)

All-reverse : (p : ℕ → Bool) (s : Text) → All p s → All p (reverse s)
All-reverse p [] h = tt
All-reverse p (c ∷ s) h =
    rw reverse-cons (All-append p (reverse s) (c ∷ []) (All-reverse p s h.1) (h.0, tt))

trim_left-solid : (s : Text) → All solid s → trim_left s ≡ s
unfolding trim_left solid
trim_left-solid [] h = refl
trim_left-solid (c ∷ s) h = ground arith

trim_space-solid : (s : Text) → All solid s → trim_space s ≡ s
unfolding trim_space
trim_space-solid s h =
    rw (trim_left-solid s h, trim_left-solid (reverse s) (All-reverse solid s h))
      (reverse-reverse s)

digits-solid : (s : Text) → All is_digit s → All solid s
unfolding solid is_space
digits-solid [] h = tt
digits-solid (c ∷ s) h = (ground arith, digits-solid s h.1)

split-digits : (s : Text) → All is_digit s → split b'-' s ≡ s ∷ []
unfolding split
split-digits [] h = refl
split-digits (c ∷ s) h = ground (arith, split-digits s h.1)

split-digits-rest : (s t : Text) → All is_digit s → split b'-' (s ++ b'-' ∷ t) ≡ s ∷ split b'-' t
unfolding split
split-digits-rest [] t h = refl
split-digits-rest (c ∷ s) t h = ground (arith, split-digits-rest s t h.1)

atoi-digits :
    (c : ℕ) (s : Text) (n : ℕ)
    → All is_digit (c ∷ s)
    → digits_from 0 (c ∷ s) ≡ some n
    → n < 2 ^ 63
    → atoi (c ∷ s) ≡ some (pos n)
unfolding atoi
atoi-digits c s n h e l = ground arith

-- Parsing a number that was printed gives the number, up to the largest int64.
pub atoi-decimal : (n : ℕ) → n < 2 ^ 63 → atoi (decimal n) ≡ some (pos n)
atoi-decimal n h = let (c, s, e, d, v) = decimal_lem n in rw e (atoi-digits c s n d v h)

trim-decimals :
    (a b : ℕ) → trim_space (decimal a ++ b'-' ∷ decimal b) ≡ decimal a ++ b'-' ∷ decimal b
unfolding solid is_space
trim-decimals a b =
    let (c, s, e, d, v) = decimal_lem a in
    let (c', s', e', d', v') = decimal_lem b in
    rw (e, e')
      (trim_space-solid ((c ∷ s) ++ b'-' ∷ c' ∷ s') (
        All-append solid (c ∷ s) (b'-' ∷ c' ∷ s') (digits-solid (c ∷ s) d)
          (refl, digits-solid (c' ∷ s') d')))

trim-decimal : (n : ℕ) → trim_space (decimal n) ≡ decimal n
trim-decimal n =
    let (c, s, e, d, v) = decimal_lem n in rw e (trim_space-solid (c ∷ s) (digits-solid (c ∷ s) d))

split-decimals : (a b : ℕ) → split b'-' (decimal a ++ b'-' ∷ decimal b) ≡ decimal a ∷ decimal b ∷ []
split-decimals a b =
    let (c, s, e, d, v) = decimal_lem a in
    let (c', s', e', d', v') = decimal_lem b in
    rw (e, e')
      (split-digits-rest (c ∷ s) (c' ∷ s') d ∙ ap (λ t. (c ∷ s) ∷ t) (split-digits (c' ∷ s') d'))

of_parts-decimals :
    (a b : ℕ) (text : Text)
    → a < 2 ^ 63
    → b < 2 ^ 63
    → of_parts text (decimal a ∷ decimal b ∷ []) ≡ in_range (pos a) (pos b)
of_parts-decimals a b text h k =
    rw (trim-decimal a, atoi-decimal a h, trim-decimal b, atoi-decimal b k) refl

in_range-pos :
    (a b : ℕ)
    → 0 < a
    → a ≤ b
    → b ≤ 65535
    → in_range (pos a) (pos b) ≡ ok (record { start = pos a; end = pos b })
in_range-pos a b h k l = ground arith

-- Parsing the printed form `a-b` of a range of ports, 0 < a ≤ b ≤ 65535, gives the range.
pub parse_port_range-printed :
    (a b : ℕ)
    → 0 < a
    → a ≤ b
    → b ≤ 65535
    → parse_port_range (decimal a ++ b'-' ∷ decimal b) ≡ ok (record { start = pos a; end = pos b })
unfolding parse_port_range
parse_port_range-printed a b h k l =
    rw (trim-decimals a b, split-decimals a b)
      (of_parts-decimals a b (decimal a ++ b'-' ∷ decimal b) (omega arith) (omega arith)
        ∙ in_range-pos a b h k l)
