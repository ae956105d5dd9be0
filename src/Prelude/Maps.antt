-- ===== src/Prelude/Maps.antt =====
-- Go maps as functions into `Option`: a missing key is `none`. `delete` writes `none`.
use Prim.Native.Nat.{ℕ}
use mathlib.Core.Path.{◌≡◌, fun_ext}
use mathlib.Core.Option.{Option, none}
use native.Mathlib.Omega.{arith}
use relay_x.Prelude.Tests.{◌==◌, if◌then◌else◌}

abbrev pub Map {ℓ} : Type ℓ → Type ℓ
Map V = ℕ → Option V

module _ {ℓ} {V : Type ℓ} where
  abbrev pub empty : Map V
  empty _ = none

  abbrev pub put : Map V → ℕ → Option V → Map V
  put m k v = λ j. if k == j then v else m j

  -- A write of what is there already changes nothing.
  pub put_same : (m : Map V) (k : ℕ) (v : Option V) → m k ≡ v → put m k v ≡ m
  put_same m k v h = fun_ext (λ j. ground arith)

  -- A later write at the same key wins.
  pub put-put : (m : Map V) (k : ℕ) (v w : Option V) → put (put m k v) k w ≡ put m k w
  put-put m k v w = fun_ext (λ j. ground arith)
