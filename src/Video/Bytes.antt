-- ===== src/Video/Bytes.antt =====
-- Big endian numbers, as `encoding/binary` writes and reads them, and `io.ReadFull` on a stream that
-- ends after some bytes.
use relay_x.Prelude.{
  ℕ, zero, suc, ◌+◌, ◌-◌, ◌*◌, ◌/◌, ◌%◌, ◌^◌, ◌<◌, ◌≡◌, refl, List, [], ◌∷◌, ◌++◌, arith, leb, ltb,
  length, take, drop, codes, if◌then◌else◌, length-append, ap,
}
use native.Mathlib.Nat.{pow-succ'}
use relay_x.Prelude.Int.{ℤ, pos, negsuc}
use relay_x.Errors.{Err, Result, ok, err, plain}

abbrev pub Bytes : Type 0
Bytes = List ℕ

-- The last `k` bytes of a number, the highest first.
abbrev pub put_uint : ℕ → ℕ → Bytes
put_uint zero v = []
put_uint (suc k) v = put_uint k (v / 256) ++ v % 256 ∷ []

-- The value of some bytes, after the value `acc` of those before.
abbrev pub uint_from : ℕ → Bytes → ℕ
uint_from acc [] = acc
uint_from acc (b ∷ s) = uint_from (acc * 256 + b) s

abbrev pub get_uint : ℕ → Bytes → ℕ
get_uint k s = uint_from 0 (take k s)

-- `uint64(x)` and `int64(u)`.
abbrev pub to_uint64 : ℤ → ℕ
to_uint64 (pos n) = n % 2 ^ 64
to_uint64 (negsuc n) = 2 ^ 64 - 1 - n % 2 ^ 64

abbrev pub to_int64 : ℕ → ℤ
to_int64 u = if ltb u (2 ^ 63) then pos u else negsuc (2 ^ 64 - 1 - u)

abbrev pub InInt64 : ℤ → Type 0
InInt64 (pos n) = n < 2 ^ 63
InInt64 (negsuc n) = n < 2 ^ 63

-- The bytes read, and the stream after them; an early end eats what there was.
abbrev pub early_end : Bytes → Err
early_end [] = plain (codes "EOF")
early_end (b ∷ s) = plain (codes "unexpected EOF")

unfoldable pub read_full : ℕ → Bytes → Result Bytes × Bytes
read_full n s = if leb n (length s) then (ok (take n s), drop n s) else (err (early_end s), [])

uint_from-append : (acc : ℕ) (s t : Bytes) → uint_from acc (s ++ t) ≡ uint_from (uint_from acc s) t
uint_from-append acc [] t = refl
uint_from-append acc (b ∷ s) t = uint_from-append (acc * 256 + b) s t

uint_from-put_uint : (k v : ℕ) → v < 256 ^ k → uint_from 0 (put_uint k v) ≡ v
uint_from-put_uint zero v h = omega arith
uint_from-put_uint (suc k) v h =
    rw (uint_from-append 0 (put_uint k (v / 256)) (v % 256 ∷ []))
      (rw (uint_from-put_uint k (v / 256) (omega (arith, pow-succ' 256 k))) (omega arith))

-- A 32-bit number, and a 64-bit number, read what was written.
pub get_uint32 : (v : ℕ) → v < 2 ^ 32 → get_uint 4 (put_uint 4 v) ≡ v
get_uint32 v h = uint_from-put_uint 4 v (omega arith)

pub get_uint64 : (v : ℕ) → v < 2 ^ 64 → get_uint 8 (put_uint 8 v) ≡ v
get_uint64 v h = uint_from-put_uint 8 v (omega arith)

pub to_uint64_small : (x : ℤ) → to_uint64 x < 2 ^ 64
to_uint64_small (pos n) = omega arith
to_uint64_small (negsuc n) = omega arith

pub to_int64-to_uint64 : (x : ℤ) → InInt64 x → to_int64 (to_uint64 x) ≡ x
to_int64-to_uint64 (pos n) h = ground arith
to_int64-to_uint64 (negsuc n) h = ground arith

take-length : (s t : Bytes) → take (length s) (s ++ t) ≡ s
take-length [] t = refl
take-length (b ∷ s) t = ap (λ r. b ∷ r) (take-length s t)

drop-length : (s t : Bytes) → drop (length s) (s ++ t) ≡ t
drop-length [] t = refl
drop-length (b ∷ s) t = drop-length s t

pub read_full-append : (s t : Bytes) → read_full (length s) (s ++ t) ≡ (ok s, t)
unfolding read_full
read_full-append s t = ground (arith, length-append s t, take-length s t, drop-length s t)
