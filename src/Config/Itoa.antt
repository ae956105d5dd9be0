-- ===== src/Config/Itoa.antt =====
-- v4/relay/manager.go: `itoa` gives decimal texts.
use relay_x.Prelude.{
  ℕ, zero, suc, ◌+◌, ◌*◌, ◌/◌, ◌%◌, ◌^◌, ◌≤◌, ◌<◌, ◌≡◌, refl, Bool-cases, none, some, [], ◌∷◌, inl,
  inr, Text, decimal, decimal_loop, arith, ltb,
}
use native.Mathlib.Nat.{pow-succ'}
use relay_x.Prelude.Int.{pos}
use relay_x.Config.Numbers.{itoa_loop, itoa}

itoa_loop_done : (i : ℕ) (acc : Text) → itoa_loop i 0 acc ≡ some (i, acc)
unfolding itoa_loop
itoa_loop_done zero acc = refl
itoa_loop_done (suc i) acc = refl

ten_times : (i : ℕ) → 10 ^ suc i ≡ 10 * 10 ^ i
ten_times i = pow-succ' 10 i

pow_positive : (k : ℕ) → 0 < 10 ^ k
pow_positive zero = omega arith
pow_positive (suc k) = omega (arith, ten_times k, pow_positive k)

itoa_loop-decimal_loop :
    (i f v : ℕ) (acc : Text)
    → 0 < v
    → v < 10 ^ i
    → v < f
    → (j : ℕ) × (itoa_loop i v acc ≡ some (j, decimal_loop f v acc))
unfolding itoa_loop decimal_loop
itoa_loop-decimal_loop zero f v acc p l m = absurd (omega arith)
itoa_loop-decimal_loop (suc i) zero v acc p l m = absurd (omega arith)
itoa_loop-decimal_loop (suc i) (suc f) v acc p l m = elim (Bool-cases (ltb v 10)) [
  | inl e ↦
      let z : v / 10 ≡ 0 = ground arith in
      let d : v % 10 ≡ v = ground arith in
      (i, ground (arith, z, d, itoa_loop_done i ((48 + v) ∷ acc)))
  | inr e ↦
      let (j, h) =
        itoa_loop-decimal_loop i f (v / 10) ((48 + v % 10) ∷ acc) (ground arith)
          (omega (arith, ten_times i)) (ground arith) in
      (j, ground (arith, h))
]

itoa_loop_overflow : (i v : ℕ) (acc : Text) → 10 ^ i ≤ v → itoa_loop i v acc ≡ none
unfolding itoa_loop
itoa_loop_overflow zero v acc h = ground arith
itoa_loop_overflow (suc i) v acc h =
    let l : 10 ^ i ≤ v / 10 = omega (arith, ten_times i) in
    let n : 0 < v = omega (arith, ten_times i, pow_positive i) in
    ground (arith, itoa_loop_overflow i (v / 10) ((48 + v % 10) ∷ acc) l)

-- `itoa` gives the decimal text of every natural number below 10 ^ 16, and panics, by a write in front
-- of its buffer of 16 bytes, for every larger one.
pub itoa-decimal :
    (n : ℕ) → (n < 10 ^ 16 → itoa (pos n) ≡ some (decimal n)) × (10 ^ 16 ≤ n → itoa (pos n) ≡ none)
unfolding itoa decimal
itoa-decimal zero = (λ h. refl, λ h. absurd (omega arith))
itoa-decimal (suc n) = (
  λ h.
      let (j, e) =
        itoa_loop-decimal_loop 16 (suc (suc n)) (suc n) [] (omega arith) h (omega arith) in
      rw e refl,
  λ h. rw (itoa_loop_overflow 16 (suc n) [] h),
)
