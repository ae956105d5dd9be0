-- ===== src/Prelude/Strings.antt =====
-- Go strings as lists of code points, and the operations of the package `strings` that are used.
use Prim.Native.Char.{code}
use Prim.Native.String.{String}
use Prim.Native.Nat.{ℕ}
use mathlib.Core.Path.{◌≡◌, refl}
use mathlib.Core.Logic.{◌↔◌}
use mathlib.Core.Bool.{Bool, true, false, ◌&&◌, ◌||◌}
use mathlib.Core.List.{List, [], ◌∷◌, reverse}
use native.Mathlib.Omega.{arith}
use relay_x.Prelude.Tests.{leb, ◌==◌, if◌then◌else◌}

abbrev pub Text : Type 0
Text = List ℕ

-- The code points of a literal. `String` has its own `[]` and `∷`.
abbrev pub codes : String → Text
codes String.[] = []
codes (String.◌∷◌ c s) = code c ∷ codes s

unfoldable pub text_eq : Text → Text → Bool
text_eq [] [] = true
text_eq [] (b ∷ s) = false
text_eq (a ∷ r) [] = false
text_eq (a ∷ r) (b ∷ s) = a == b && text_eq r s

text_eq→eq : (s t : Text) → text_eq s t ≡ true → s ≡ t
unfolding text_eq
text_eq→eq [] [] h = refl
text_eq→eq [] (b ∷ s) h = cc
text_eq→eq (a ∷ r) [] h = cc
text_eq→eq (a ∷ r) (b ∷ s) h = ground (arith, text_eq→eq r s)

pub text_eq_refl : (s : Text) → text_eq s s ≡ true
unfolding text_eq
text_eq_refl [] = refl
text_eq_refl (a ∷ s) = ground (arith, text_eq_refl s)

pub text_eq_iff : (s t : Text) → (text_eq s t ≡ true) ↔ (s ≡ t)
text_eq_iff s t = (text_eq→eq s t, λ e. rw e (text_eq_refl t))

-- `s == ""`
abbrev pub is_blank : Text → Bool
is_blank [] = true
is_blank (c ∷ s) = false

-- `unicode.IsSpace`
unfoldable pub is_space : ℕ → Bool
is_space c =
    (leb 9 c && leb c 13)
    || c == 32
    || c == 0x85
    || c == 0xa0
    || c == 0x1680
    || (leb 0x2000 c && leb c 0x200a)
    || c == 0x2028
    || c == 0x2029
    || c == 0x202f
    || c == 0x205f
    || c == 0x3000

unfoldable pub trim_left : Text → Text
unfolding is_space
trim_left [] = []
trim_left (c ∷ s) = if is_space c then trim_left s else c ∷ s

-- `strings.TrimSpace`
unfoldable pub trim_space : Text → Text
unfolding trim_left
trim_space s = reverse (trim_left (reverse (trim_left s)))
