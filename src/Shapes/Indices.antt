-- ===== src/Shapes/Indices.antt =====
-- torch_mojo_backend/aten_functions.py: index constants that are computed while a graph is built: the
-- diagonal.
use torch_mojo_backend.Prelude.{
  ℕ, zero, suc, ◌+◌, ◌-◌, ◌*◌, ◌<◌, min, Bool, true, some, List, [], ◌∷◌, map, ◌==◌, length,
  get_elem?, count_up, ℤ, pos, negsuc, ◌≡◌, refl, ap, ◌∙◌, subst, arith, length-map,
}

-- `max(0, -offset)`
abbrev pub first_row : ℤ → ℕ
first_row (pos o) = 0
first_row (negsuc k) = suc k

-- `max(0, min(n1 - first_row, n2 - first_row - offset))`
abbrev pub diagonal_length : ℕ → ℕ → ℤ → ℕ
diagonal_length n1 n2 (pos o) = min n1 (n2 - o)
diagonal_length n1 n2 (negsuc k) = min (n1 - suc k) n2

-- `(first_row + i) * (n2 + 1) + offset`
abbrev pub diagonal_position : ℕ → ℤ → ℕ → ℕ
diagonal_position n2 (pos o) i = i * (n2 + 1) + o
diagonal_position n2 (negsuc k) i = (suc k + i) * (n2 + 1) - suc k

-- The positions in the flattened last two axes that `aten_diagonal` gathers
unfoldable pub diagonal_positions : ℕ → ℕ → ℤ → List ℕ
unfolding count_up
diagonal_positions n1 n2 offset =
    map (diagonal_position n2 offset) (count_up (diagonal_length n1 n2 offset) 0)

-- `column = row + offset`
abbrev pub on_diagonal : ℤ → ℕ → ℕ → Bool
on_diagonal (pos o) row col = col == row + o
on_diagonal (negsuc k) row col = row == col + suc k

get_elem?-count_up : (n lo i : ℕ) → i < n → get_elem? (count_up n lo) i ≡ some (lo + i)
unfolding count_up
get_elem?-count_up zero lo i h = ground arith
get_elem?-count_up (suc n) lo zero h = ground arith
get_elem?-count_up (suc n) lo (suc i) h =
    get_elem?-count_up n (suc lo) i (omega arith) ∙ ground arith

length-count_up : (n lo : ℕ) → length (count_up n lo) ≡ n
unfolding count_up
length-count_up zero lo = refl
length-count_up (suc n) lo = ap suc (length-count_up n (suc lo))

get_elem?-map :
    (f : ℕ → ℕ) (xs : List ℕ) (i x : ℕ)
    → get_elem? xs i ≡ some x
    → get_elem? (map f xs) i ≡ some (f x)
get_elem?-map f [] i x h = cc h
get_elem?-map f (y ∷ xs) zero x h = cc h
get_elem?-map f (y ∷ xs) (suc i) x h = get_elem?-map f xs i x h

length-diagonal_positions :
    (n1 n2 : ℕ) (offset : ℤ)
    → length (diagonal_positions n1 n2 offset) ≡ diagonal_length n1 n2 offset
unfolding diagonal_positions
length-diagonal_positions n1 n2 offset =
    length-map (diagonal_position n2 offset) (count_up (diagonal_length n1 n2 offset) 0)
    ∙ length-count_up (diagonal_length n1 n2 offset) 0

get_elem?-diagonal_positions :
    (n1 n2 : ℕ) (offset : ℤ) (i : ℕ)
    → i < diagonal_length n1 n2 offset
    → get_elem? (diagonal_positions n1 n2 offset) i ≡ some (diagonal_position n2 offset i)
unfolding diagonal_positions
get_elem?-diagonal_positions n1 n2 offset i h =
    get_elem?-map (diagonal_position n2 offset) (count_up (diagonal_length n1 n2 offset) 0) i i
      (get_elem?-count_up (diagonal_length n1 n2 offset) 0 i h ∙ ground arith)

mul_add_one : (a b : ℕ) → a * (b + 1) ≡ a * b + a
mul_add_one a b = omega arith

position-diagonal :
    (n2 : ℕ) (offset : ℤ) (row col : ℕ)
    → on_diagonal offset row col ≡ true
    → diagonal_position n2 offset (row - first_row offset) ≡ row * n2 + col
position-diagonal n2 (pos o) row col h =
    let e : col ≡ row + o = ground (arith, h) in
    let f : row - first_row (pos o) ≡ row = omega arith in
    omega (arith, e, mul_add_one row n2, ap (λ r. r * (n2 + 1)) f)
position-diagonal n2 (negsuc k) row col h =
    let e : row ≡ col + suc k = ground (arith, h) in
    let f : suc k + (row - suc k) ≡ row = omega (arith, e) in
    omega (arith, e, mul_add_one row n2, ap (λ r. r * (n2 + 1)) f)

-- The diagonal of an n1 by n2 matrix: `aten_diagonal` gathers exactly the entries (row, column) with
-- column = row + offset, each from its position row * n2 + column and at the place that its row has
-- on the diagonal; every gathered position is one of them.
pub diagonal_positions-on_diagonal :
    (n1 n2 : ℕ) (offset : ℤ)
    → ((row col : ℕ)
        → row < n1
        → col < n2
        → on_diagonal offset row col ≡ true
        → get_elem? (diagonal_positions n1 n2 offset) (row - first_row offset)
          ≡ some (row * n2 + col))
      × ((i : ℕ)
          → i < length (diagonal_positions n1 n2 offset)
          → (row : ℕ) × (col : ℕ) × (row < n1)
            × (col < n2)
            × (on_diagonal offset row col ≡ true)
            × (i ≡ row - first_row offset))
diagonal_positions-on_diagonal n1 n2 offset = (
  λ row col h k d.
      get_elem?-diagonal_positions n1 n2 offset (row - first_row offset)
        (inside offset row col h k d)
      ∙ ap some (position-diagonal n2 offset row col d),
  λ i h. place offset i (subst (λ n. i < n) (length-diagonal_positions n1 n2 offset) h),
)
  where
    inside :
        (o : ℤ) (row col : ℕ)
        → row < n1
        → col < n2
        → on_diagonal o row col ≡ true
        → row - first_row o < diagonal_length n1 n2 o
    inside (pos o) row col h k d = ground arith
    inside (negsuc o) row col h k d = ground arith

    place :
        (o : ℤ) (i : ℕ)
        → i < diagonal_length n1 n2 o
        → (row : ℕ) × (col : ℕ) × (row < n1)
          × (col < n2)
          × (on_diagonal o row col ≡ true)
          × (i ≡ row - first_row o)
    place (pos o) i h = (i, i + o, omega arith, omega arith, ground arith, omega arith)
    place (negsuc k) i h = (suc k + i, i, omega arith, omega arith, ground arith, omega arith)
