-- ===== src/Prelude/Sets.antt =====
-- Python's sets of integers, as lists that are read through membership.
use torch_mojo_backend.Prelude.Tests.{◌==◌, leb, ltb, if◌then◌else◌}
use torch_mojo_backend.Prelude.Lists.{count_up, length}
use Prim.Native.Nat.{ℕ, zero, suc, ◌+◌, ◌-◌, ◌≤◌, ◌<◌}
use mathlib.Core.Path.{◌≡◌, refl}
use mathlib.Core.Bool.{Bool, true, false, not, ◌&&◌, ◌||◌}
use mathlib.Core.List.{List, [], ◌∷◌, ◌++◌}
use native.Mathlib.Omega.{arith}

unfoldable pub elem : ℕ → List ℕ → Bool
elem x [] = false
elem x (y ∷ ys) = x == y || elem x ys

-- No entry occurs again behind itself.
unfoldable pub distinct : List ℕ → Bool
unfolding elem
distinct [] = true
distinct (x ∷ xs) = not (elem x xs) && distinct xs

-- `list(dict.fromkeys(xs))`, behind entries that were seen
unfoldable pub first_of_each : List ℕ → List ℕ → List ℕ
unfolding elem
first_of_each seen [] = []
first_of_each seen (x ∷ xs) = elim (elem x seen) [
  | true ↦ first_of_each seen xs
  | false ↦ x ∷ first_of_each (x ∷ seen) xs
]

-- `a | b`
unfoldable pub union : List ℕ → List ℕ → List ℕ
union a [] = a
union a (y ∷ ys) = union (if elem y a then a else y ∷ a) ys

-- `a - b`
unfoldable pub diff : List ℕ → List ℕ → List ℕ
diff [] b = []
diff (x ∷ xs) b = let rest = diff xs b in if elem x b then rest else x ∷ rest

-- `set(range(lo, hi))`
unfoldable pub range : ℕ → ℕ → List ℕ
unfolding count_up
range lo hi = count_up (hi - lo) lo

unfoldable pub insert : ℕ → List ℕ → List ℕ
insert x [] = x ∷ []
insert x (y ∷ ys) = let rest = insert x ys in if leb x y then x ∷ y ∷ ys else y ∷ rest

-- `sorted(a)`
unfoldable pub sort : List ℕ → List ℕ
unfolding insert
sort [] = []
sort (x ∷ xs) = insert x (sort xs)

pub elem-union : (x : ℕ) (a b : List ℕ) → elem x (union a b) ≡ (elem x a || elem x b)
unfolding elem union
elem-union x a [] = ground arith
elem-union x a (y ∷ ys) = ground (arith, elem-union x (if elem y a then a else y ∷ a) ys)

pub elem-first_of_each :
    (x : ℕ) (seen xs : List ℕ) → elem x (first_of_each seen xs) ≡ (not (elem x seen) && elem x xs)
unfolding elem first_of_each
elem-first_of_each x seen [] = ground arith
elem-first_of_each x seen (y ∷ ys) =
    ground (arith, elem-first_of_each x seen ys, elem-first_of_each x (y ∷ seen) ys)

pub distinct-first_of_each : (seen xs : List ℕ) → distinct (first_of_each seen xs) ≡ true
unfolding elem first_of_each distinct
distinct-first_of_each seen [] = refl
distinct-first_of_each seen (y ∷ ys) = ground (
  arith,
  distinct-first_of_each seen ys,
  distinct-first_of_each (y ∷ seen) ys,
  elem-first_of_each y (y ∷ seen) ys,
)

pub elem-append : (x : ℕ) (a b : List ℕ) → elem x (a ++ b) ≡ (elem x a || elem x b)
unfolding elem
elem-append x [] b = refl
elem-append x (y ∷ ys) b = ground (arith, elem-append x ys b)

pub elem-diff : (x : ℕ) (a b : List ℕ) → elem x (diff a b) ≡ (elem x a && not (elem x b))
unfolding elem diff
elem-diff x [] b = refl
elem-diff x (y ∷ ys) b = ground (arith, elem-diff x ys b)

pub elem-count_up : (x n lo : ℕ) → elem x (count_up n lo) ≡ (leb lo x && ltb x (lo + n))
unfolding elem count_up
elem-count_up x zero lo = ground arith
elem-count_up x (suc n) lo = ground (arith, elem-count_up x n (suc lo))

pub elem-range : (x lo hi : ℕ) → elem x (range lo hi) ≡ (leb lo x && ltb x hi)
unfolding range
elem-range x lo hi = ground (arith, elem-count_up x (hi - lo) lo)

pub elem-insert : (x y : ℕ) (a : List ℕ) → elem x (insert y a) ≡ (x == y || elem x a)
unfolding elem insert
elem-insert x y [] = refl
elem-insert x y (z ∷ zs) = ground (arith, elem-insert x y zs)

pub elem-sort : (x : ℕ) (a : List ℕ) → elem x (sort a) ≡ elem x a
unfolding elem sort
elem-sort x [] = refl
elem-sort x (y ∷ ys) = ground (arith, elem-insert x y (sort ys), elem-sort x ys)

pub ruleset members = (elem-union, elem-diff, elem-range, elem-sort)

-- Discarding a member leaves a shorter list.
pub length-diff-le : (a b : List ℕ) → length (diff a b) ≤ length a
unfolding diff
length-diff-le [] b = omega arith
length-diff-le (x ∷ xs) b = ground (arith, length-diff-le xs b)

pub length-discard : (x : ℕ) (a : List ℕ) → elem x a ≡ true → length (diff a (x ∷ [])) < length a
unfolding diff elem
length-discard x [] h = ground arith
length-discard x (y ∷ ys) h = ground (arith, length-diff-le ys (x ∷ []), length-discard x ys)
