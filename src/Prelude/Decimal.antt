-- ===== src/Prelude/Decimal.antt =====
-- Decimal printing of a natural number, as `fmt` does for `%d`.
use Prim.Native.Nat.{ℕ, zero, suc, ◌+◌, ◌/◌, ◌%◌}
use mathlib.Core.List.{[], ◌∷◌, ◌++◌}
use relay_x.Prelude.Tests.{ltb, if◌then◌else◌}
use relay_x.Prelude.Strings.{Text}

-- The digits of `n`, in front of `acc`. A number has fewer digits than the fuel `suc n`.
unfoldable pub decimal_loop : ℕ → ℕ → Text → Text
decimal_loop zero n acc = acc
decimal_loop (suc fuel) n acc =
    let rest = decimal_loop fuel (n / 10) ((48 + n % 10) ∷ acc) in
    if ltb n 10 then (48 + n) ∷ acc else rest

unfoldable pub decimal : ℕ → Text
unfolding decimal_loop
decimal n = decimal_loop (suc n) n []

-- `%q`, for a text with nothing to escape.
unfoldable pub quoted : Text → Text
quoted s = b'"' ∷ s ++ b'"' ∷ []
