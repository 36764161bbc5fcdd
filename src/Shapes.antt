-- ===== src/Shapes.antt =====
-- torch_mojo_backend/aten_functions.py: the shapes and index constants that the mappings compute while
-- a graph is built. A dimension is a number or a symbol; integers that may be negative are ℤ.
pub mod Broadcast
pub mod Padding
pub mod Indices
pub mod Slices
pub mod Triangles
use torch_mojo_backend.Prelude.{
  ℕ, zero, suc, ◌-◌, Bool, true, false, not, ◌&&◌, ◌||◌, Option, none, some, List, [], ◌∷◌, ◌++◌,
  map, ◌==◌, leb, ltb, if◌then◌else◌, keep, any, length, replicate, max,
}
use mathlib.Core.List.{reverse}

pub data Dim : Type 0 where
  static symbol : ℕ → Dim

abbrev pub one : Dim
one = static 1

abbrev pub same_dim : Dim → Dim → Bool
same_dim (static a) (static b) = a == b
same_dim (static a) (symbol b) = false
same_dim (symbol a) (static b) = false
same_dim (symbol a) (symbol b) = a == b

-- A comprehension whose body may raise.
unfoldable pub traverse {ℓ κ} :
    {A : Type ℓ} {B : Type κ} → (A → Option B) → List A → Option (List B)
traverse f [] = some []
traverse f (x ∷ xs) = elim (f x) [
  | none ↦ none
  | some y ↦ elim (traverse f xs) [ none ↦ none | some ys ↦ some (y ∷ ys) ]
]

-- `itertools.zip_longest`
unfoldable pub zip_longest : List Dim → List Dim → List (Option Dim × Option Dim)
zip_longest [] [] = []
zip_longest [] (b ∷ bs) = (none, some b) ∷ zip_longest [] bs
zip_longest (a ∷ as') [] = (some a, none) ∷ zip_longest as' []
zip_longest (a ∷ as') (b ∷ bs) = (some a, some b) ∷ zip_longest as' bs

-- The loop's body in `find_broadcast_shape`; none is its ValueError.
abbrev pub merge_dims : Option Dim × Option Dim → Option Dim
merge_dims (a, none) = a
merge_dims (none, some b) = some b
merge_dims (some a, some b) =
    if same_dim a b || same_dim a one then some b else if same_dim b one then some a else none

abbrev pub reversed : Option (List Dim) → Option (List Dim)
reversed none = none
reversed (some ds) = some (reverse ds)

-- `find_broadcast_shape`
unfoldable pub find_broadcast_shape : List Dim → List Dim → Option (List Dim)
unfolding traverse zip_longest
find_broadcast_shape a b = reversed (traverse merge_dims (zip_longest (reverse a) (reverse b)))

unfoldable pub max_rank : List (List Dim) → ℕ
max_rank [] = 0
max_rank (s ∷ shapes) = max (length s) (max_rank shapes)

abbrev pub padded : ℕ → List Dim → List Dim
padded rank s = replicate (rank - length s) one ++ s

-- `zip(*padded)`: the columns of lists that all have this length
abbrev pub head_or_one : List Dim → Dim
head_or_one [] = one
head_or_one (d ∷ s) = d

abbrev pub tail : List Dim → List Dim
tail [] = []
tail (d ∷ s) = s

unfoldable pub columns : ℕ → List (List Dim) → List (List Dim)
columns zero shapes = []
columns (suc n) shapes = map head_or_one shapes ∷ columns n (map tail shapes)

-- All candidates that are not 1 must be equal.
abbrev pub agreed : List Dim → Option Dim
agreed [] = some one
agreed (first ∷ others) = if any (λ d. not (same_dim d first)) others then none else some first

abbrev pub merge_column : List Dim → Option Dim
merge_column col = agreed (keep (λ d. not (same_dim d one)) col)

-- `broadcast_shape`
unfoldable pub broadcast_shape : List (List Dim) → Option (List Dim)
unfolding max_rank columns traverse any
broadcast_shape shapes =
    traverse merge_column (columns (max_rank shapes) (map (padded (max_rank shapes)) shapes))
