-- ===== src/Prelude/Sorting.antt =====
-- `sort.Ints` as insertion sort: any sorting of numbers gives the same list.
use Prim.Native.Nat.{ℕ, suc, ◌≤◌}
use mathlib.Core.Path.{◌≡◌, refl}
use mathlib.Core.Bool.{Bool, false, ◌||◌}
use mathlib.Core.List.{List, [], ◌∷◌, ◌++◌}
use native.Mathlib.Omega.{arith}
use relay_x.Prelude.Tests.{leb, ◌==◌, if◌then◌else◌}
use relay_x.Prelude.Lists.{length}

unfoldable pub insert_sorted : ℕ → List ℕ → List ℕ
insert_sorted x [] = x ∷ []
insert_sorted x (y ∷ ys) = if leb x y then x ∷ y ∷ ys else y ∷ insert_sorted x ys

unfoldable pub sort : List ℕ → List ℕ
unfolding insert_sorted
sort [] = []
sort (x ∷ xs) = insert_sorted x (sort xs)

unfoldable pub elem : ℕ → List ℕ → Bool
elem q [] = false
elem q (x ∷ xs) = x == q || elem q xs

-- Each element is at least the bound before it.
abbrev pub SortedFrom : ℕ → List ℕ → Type 0
SortedFrom lo [] = Unit {0}
SortedFrom lo (x ∷ xs) = (lo ≤ x) × SortedFrom x xs

length-insert_sorted : (x : ℕ) (xs : List ℕ) → length (insert_sorted x xs) ≡ suc (length xs)
unfolding insert_sorted
length-insert_sorted x [] = refl
length-insert_sorted x (y ∷ ys) = ground (arith, length-insert_sorted x ys)

pub length-sort : (xs : List ℕ) → length (sort xs) ≡ length xs
unfolding sort
length-sort [] = refl
length-sort (x ∷ xs) = omega (arith, length-insert_sorted x (sort xs), length-sort xs)

elem-insert_sorted : (q x : ℕ) (xs : List ℕ) → elem q (insert_sorted x xs) ≡ (x == q || elem q xs)
unfolding insert_sorted elem
elem-insert_sorted q x [] = refl
elem-insert_sorted q x (y ∷ ys) = ground (arith, elem-insert_sorted q x ys)

pub elem-sort : (q : ℕ) (xs : List ℕ) → elem q (sort xs) ≡ elem q xs
unfolding sort elem
elem-sort q [] = refl
elem-sort q (x ∷ xs) = ground (arith, elem-insert_sorted q x (sort xs), elem-sort q xs)

insert_sorted-SortedFrom :
    (lo x : ℕ) (xs : List ℕ) → lo ≤ x → SortedFrom lo xs → SortedFrom lo (insert_sorted x xs)
unfolding insert_sorted
insert_sorted-SortedFrom lo x [] h s = (h, tt)
insert_sorted-SortedFrom lo x (y ∷ ys) h s = ground (arith, insert_sorted-SortedFrom y x ys)

pub sort-SortedFrom : (xs : List ℕ) → SortedFrom 0 (sort xs)
unfolding sort
sort-SortedFrom [] = tt
sort-SortedFrom (x ∷ xs) = insert_sorted-SortedFrom 0 x (sort xs) (omega arith) (sort-SortedFrom xs)

pub elem-append : (q : ℕ) (xs ys : List ℕ) → elem q (xs ++ ys) ≡ (elem q xs || elem q ys)
unfolding elem
elem-append q [] ys = refl
elem-append q (x ∷ xs) ys = ground (arith, elem-append q xs ys)
