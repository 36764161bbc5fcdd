-- ===== src/Shapes/Triangles.antt =====
-- torch_mojo_backend/aten_functions.py: the coordinates of a triangle, for tril_indices and
-- triu_indices.
use torch_mojo_backend.Prelude.{
  ℕ, zero, suc, ◌+◌, ◌-◌, min, Bool, true, false, ◌&&◌, ◌||◌, List, [], ◌∷◌, ◌++◌, ◌==◌, ltb, leb,
  if◌then◌else◌, count_up, ℤ, pos, negsuc, ◌≡◌, refl, ◌∙◌, arith,
}

-- The bounds `lo` and `hi` of a row's columns in `_tri_indices_constant`
abbrev pub first_column : Bool → ℤ → ℕ → ℕ
first_column true (pos o) i = i + o
first_column true (negsuc k) i = i - suc k
first_column false offset i = 0

abbrev pub end_column : Bool → ℤ → ℕ → ℕ → ℕ
end_column true offset col i = col
end_column false (pos o) col i = min col (i + o + 1)
end_column false (negsuc k) col i = min col (i - k)

-- The pairs (row, column) that the inner loop adds in row `i`
unfoldable pub row_pairs : ℕ → List ℕ → List (ℕ × ℕ)
row_pairs i [] = []
row_pairs i (j ∷ js) = (i, j) ∷ row_pairs i js

-- `rows` and `cols` of `_tri_indices_constant`, as pairs, for `n` more rows from `i` on
unfoldable pub tri_from : ℕ → Bool → ℤ → ℕ → ℕ → List (ℕ × ℕ)
unfolding row_pairs count_up
tri_from col upper offset zero i = []
tri_from col upper offset (suc n) i =
    row_pairs i (
      count_up (end_column upper offset col i - first_column upper offset i)
        (first_column upper offset i))
    ++ tri_from col upper offset n (suc i)

unfoldable pub tri_indices : ℕ → ℕ → ℤ → Bool → List (ℕ × ℕ)
unfolding tri_from
tri_indices row col offset upper = tri_from col upper offset row 0

-- `column - row` is at least, or at most, the offset.
abbrev pub in_triangle : Bool → ℤ → ℕ → ℕ → Bool
in_triangle true (pos o) i j = leb (i + o) j
in_triangle true (negsuc k) i j = leb i (j + suc k)
in_triangle false (pos o) i j = leb j (i + o)
in_triangle false (negsuc k) i j = leb (j + suc k) i

unfoldable pub occurrences : ℕ → ℕ → List (ℕ × ℕ) → ℕ
occurrences i j [] = 0
occurrences i j (p ∷ ps) = (if i == p.0 && j == p.1 then 1 else 0) + occurrences i j ps

-- Row-major order: by rows, and by columns in a row.
abbrev pub after_pair : ℕ × ℕ → List (ℕ × ℕ) → Bool
after_pair p [] = true
after_pair p (q ∷ ps) = ltb p.0 q.0 || (p.0 == q.0 && ltb p.1 q.1)

unfoldable pub is_row_major : List (ℕ × ℕ) → Bool
is_row_major [] = true
is_row_major (p ∷ ps) = after_pair p ps && is_row_major ps

occurrences-append :
    (i j : ℕ) (ps qs : List (ℕ × ℕ))
    → occurrences i j (ps ++ qs) ≡ occurrences i j ps + occurrences i j qs
unfolding occurrences
occurrences-append i j [] qs = omega arith
occurrences-append i j (p ∷ ps) qs = omega (arith, occurrences-append i j ps qs)

occurrences-row_pairs :
    (i j r n lo : ℕ)
    → occurrences i j (row_pairs r (count_up n lo))
      ≡ (if i == r && (leb lo j && ltb j (lo + n)) then 1 else 0)
unfolding occurrences row_pairs count_up
occurrences-row_pairs i j r zero lo = ground arith
occurrences-row_pairs i j r (suc n) lo = ground (arith, occurrences-row_pairs i j r n (suc lo))

occurrences-tri_from :
    (col : ℕ) (upper : Bool) (offset : ℤ) (i j n r : ℕ)
    → occurrences i j (tri_from col upper offset n r)
      ≡ (if (leb r i && ltb i (r + n)) && (ltb j col && in_triangle upper offset i j) then 1 else 0)
unfolding occurrences tri_from
occurrences-tri_from col upper offset i j zero r = ground arith
occurrences-tri_from col upper offset i j (suc n) r =
    occurrences-append i j
      (row_pairs r (
        count_up (end_column upper offset col r - first_column upper offset r)
          (first_column upper offset r)))
      (tri_from col upper offset n (suc r))
    ∙ by_half upper offset
        (occurrences-row_pairs i j r (end_column upper offset col r - first_column upper offset r)
          (first_column upper offset r))
        (occurrences-tri_from col upper offset i j n (suc r))
  where
    by_half :
        (upper : Bool) (offset : ℤ)
        → {a b : ℕ}
        → a ≡ (
            if i == r
              && (leb (first_column upper offset r) j
                  && ltb j (
                      first_column upper offset r
                      + (end_column upper offset col r - first_column upper offset r)))
            then 1
            else 0)
        → b ≡ (
            if (leb (suc r) i && ltb i (suc r + n)) && (ltb j col && in_triangle upper offset i j)
            then 1
            else 0)
        → a + b ≡ (
            if (leb r i && ltb i (r + suc n)) && (ltb j col && in_triangle upper offset i j)
            then 1
            else 0)
    by_half true (pos o) e f = ground arith
    by_half true (negsuc k) e f = ground arith
    by_half false (pos o) e f = ground arith
    by_half false (negsuc k) e f = ground arith

-- The first pair, if there is one, stands in row `r` or below it.
starts : ℕ → List (ℕ × ℕ) → Bool
starts r [] = true
starts r (p ∷ ps) = leb r p.0

starts-later : (r : ℕ) (ps : List (ℕ × ℕ)) → starts (suc r) ps ≡ true → starts r ps ≡ true
unfolding starts
starts-later r [] h = refl
starts-later r (p ∷ ps) h = ground (arith, h)

row_major-row_pairs :
    (r n lo : ℕ) (ps : List (ℕ × ℕ))
    → is_row_major ps ≡ true
    → starts (suc r) ps ≡ true
    → (is_row_major (row_pairs r (count_up n lo) ++ ps) ≡ true)
      × (starts r (row_pairs r (count_up n lo) ++ ps) ≡ true)
unfolding is_row_major row_pairs count_up starts
row_major-row_pairs r zero lo ps h s = (h, starts-later r ps s)
row_major-row_pairs r (suc zero) lo [] h s = (refl, ground arith)
row_major-row_pairs r (suc zero) lo (p ∷ ps) h s = (ground (arith, h, s), ground arith)
row_major-row_pairs r (suc (suc n)) lo ps h s =
    let (a, b) = row_major-row_pairs r (suc n) (suc lo) ps h s in (ground (arith, a), ground arith)

row_major-tri_from :
    (col : ℕ) (upper : Bool) (offset : ℤ) (n r : ℕ)
    → (is_row_major (tri_from col upper offset n r) ≡ true)
      × (starts r (tri_from col upper offset n r) ≡ true)
unfolding tri_from is_row_major starts
row_major-tri_from col upper offset zero r = (refl, refl)
row_major-tri_from col upper offset (suc n) r =
    let (a, b) = row_major-tri_from col upper offset n (suc r) in
    row_major-row_pairs r (end_column upper offset col r - first_column upper offset r)
      (first_column upper offset r) (tri_from col upper offset n (suc r)) a b

-- The constants of tril_indices and triu_indices: every position of the matrix that is in the
-- triangle is listed exactly once, no other pair is listed, and the pairs are in row-major order.
pub tri_indices-in_triangle :
    (row col : ℕ) (offset : ℤ) (upper : Bool)
    → ((i j : ℕ)
        → occurrences i j (tri_indices row col offset upper)
          ≡ (if ltb i row && (ltb j col && in_triangle upper offset i j) then 1 else 0))
      × (is_row_major (tri_indices row col offset upper) ≡ true)
unfolding tri_indices
tri_indices-in_triangle row col offset upper = (
  λ i j. ground (arith, occurrences-tri_from col upper offset i j row 0),
  (row_major-tri_from col upper offset row 0).0,
)
