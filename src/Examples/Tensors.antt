-- ===== src/Examples/Tensors.antt =====
-- The shapes and index constants at concrete inputs.
use torch_mojo_backend.Prelude.{
  ℕ, ◌+◌, ◌*◌, ◌≤◌, ◌<◌, ◌≡◌, ◌↔◌, refl, some, [], ◌∷◌, negsuc, arith, leb, ltb, ◌&&◌,
}
use torch_mojo_backend.Shapes.{static, symbol, find_broadcast_shape, broadcast_shape}
use torch_mojo_backend.Shapes.Broadcast.{find_broadcast_shape-broadcast_shape}
use torch_mojo_backend.Shapes.Slices.{
  traced_slice_bounds, at_or_after, is_before, slice_start, slice_end, slice_length,
  traced_slice_bounds-exact,
}

find_broadcast_shape-broadcast_shape_example :
    find_broadcast_shape (static 1 ∷ symbol 0 ∷ static 3 ∷ []) (symbol 0 ∷ static 1 ∷ [])
    ≡ broadcast_shape ((static 1 ∷ symbol 0 ∷ static 3 ∷ []) ∷ (symbol 0 ∷ static 1 ∷ []) ∷ [])
find_broadcast_shape-broadcast_shape_example =
    find_broadcast_shape-broadcast_shape (static 1 ∷ symbol 0 ∷ static 3 ∷ [])
      (symbol 0 ∷ static 1 ∷ [])

-- x[-7:-1:2] of 5 elements: the bounds are 0 and 4, and two are taken.
from_the_end : traced_slice_bounds (negsuc 6) (negsuc 0) 2 5 2 ≡ some (0, 4)
unfolding traced_slice_bounds slice_start slice_end slice_length
from_the_end = refl

traced_slice_bounds-exact_example :
    (0 ≤ 4)
    × (4 ≤ 5)
    × ((i : ℕ)
        → i < 5
        → (leb 0 i && ltb i 4) ≡ (at_or_after (negsuc 6) 5 i && is_before (negsuc 0) 5 i))
    × ((k : ℕ) → (k < 2) ↔ (0 + k * 2 < 4))
traced_slice_bounds-exact_example =
    traced_slice_bounds-exact (negsuc 6) (negsuc 0) 2 5 2 0 4 (omega arith) (omega arith)
      from_the_end
