-- ===== src/Prelude/Assoc.antt =====
-- Go maps that are counted or ranged over: association lists over a key type with a Boolean test.
use Prim.Native.Nat.{ℕ, suc, ◌≤◌}
use mathlib.Core.Path.{◌≡◌, refl}
use mathlib.Core.Logic.{◌↔◌}
use mathlib.Core.Bool.{Bool, true}
use mathlib.Core.Option.{Option, none, some}
use mathlib.Core.List.{List, [], ◌∷◌}
use native.Mathlib.Omega.{arith}
use relay_x.Prelude.Tests.{if◌then◌else◌, ◌==◌, ==_iff}
use relay_x.Prelude.Lists.{length}
use relay_x.Prelude.Strings.{Text, text_eq, text_eq_iff}

pub record Key (K : Type 0) : Type 0 where
  pub same : K → K → Bool
  pub same_iff : (a b : K) → (same a b ≡ true) ↔ (a ≡ b)

instance abbrev pub number_key : Key ℕ
number_key = record { same = ◌==◌; same_iff = ==_iff }

instance abbrev pub text_key : Key Text
text_key = record { same = text_eq; same_iff = text_eq_iff }

module _ {K V : Type 0} ⦃key : Key K⦄ where
  unfoldable pub lookup : K → List (K × V) → Option V
  lookup k [] = none
  lookup k ((j, v) ∷ m) = if key.same j k then some v else lookup k m

  -- `m[k] = v`
  unfoldable pub insert : K → V → List (K × V) → List (K × V)
  insert k v [] = (k, v) ∷ []
  insert k v ((j, w) ∷ m) = if key.same j k then (k, v) ∷ m else (j, w) ∷ insert k v m

  unfoldable pub delete : K → List (K × V) → List (K × V)
  delete k [] = []
  delete k ((j, w) ∷ m) = let rest = delete k m in if key.same j k then rest else (j, w) ∷ rest

  pub lookup-insert :
      (k j : K) (v : V) (m : List (K × V))
      → lookup j (insert k v m) ≡ (if key.same k j then some v else lookup j m)
  unfolding lookup insert
  lookup-insert k j v [] = refl
  lookup-insert k j v ((i, w) ∷ m) =
      ground (arith, key.same_iff k j, key.same_iff i k, key.same_iff i j, lookup-insert k j v m)

  pub lookup-delete :
      (k j : K) (m : List (K × V))
      → lookup j (delete k m) ≡ (if key.same k j then none else lookup j m)
  unfolding lookup delete
  lookup-delete k j [] = ground arith
  lookup-delete k j ((i, w) ∷ m) =
      ground (arith, key.same_iff k j, key.same_iff i k, key.same_iff i j, lookup-delete k j m)

  pub length-insert_new :
      (k : K) (v : V) (m : List (K × V))
      → lookup k m ≡ none
      → length (insert k v m) ≡ suc (length m)
  unfolding lookup insert
  length-insert_new k v [] h = refl
  length-insert_new k v ((j, w) ∷ m) h = ground (arith, length-insert_new k v m)

  pub length-delete : (k : K) (m : List (K × V)) → length (delete k m) ≤ length m
  unfolding delete
  length-delete k [] = omega arith
  length-delete k ((j, w) ∷ m) = ground (arith, length-delete k m)

  pub delete_missing : (k : K) (m : List (K × V)) → lookup k m ≡ none → delete k m ≡ m
  unfolding lookup delete
  delete_missing k [] h = refl
  delete_missing k ((j, w) ∷ m) h = ground (arith, delete_missing k m)

  -- A key that was not there, written and deleted.
  pub delete-insert :
      (k : K) (v : V) (m : List (K × V)) → lookup k m ≡ none → delete k (insert k v m) ≡ m
  unfolding lookup insert delete
  delete-insert k v [] h = ground (arith, key.same_iff k k)
  delete-insert k v ((j, w) ∷ m) h = ground (arith, delete-insert k v m)
