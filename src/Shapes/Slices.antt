-- ===== src/Shapes/Slices.antt =====
-- torch_mojo_backend/aten_functions.py: the bounds of `aten.slice` on sizes that are known.
use torch_mojo_backend.Prelude.{
  ℕ, suc, ◌+◌, ◌-◌, ◌*◌, ◌/◌, ◌≤◌, ◌<◌, Bool, true, false, ◌&&◌, ◌||◌, Option, none, some, ◌==◌,
  ltb, leb, if◌then◌else◌, ℤ, pos, negsuc, ◌≡◌, ◌↔◌, inl, inr, Bool-cases, subst, ◌⊎◌, ==_iff,
  arith,
}
use native.Mathlib.Nat.{le-div_iff_mul-le}

-- `sys.maxsize`
abbrev max_size : ℕ
max_size = 9223372036854775807

-- `start = start + size` for a negative one
abbrev pub from_end : ℤ → ℕ → ℤ
from_end (pos n) size = pos n
from_end (negsuc k) size = if leb (suc k) size then pos (size - suc k) else negsuc (k - size)

abbrev pub clamp_start : ℤ → ℕ → ℕ
clamp_start (negsuc k) size = 0
clamp_start (pos n) size = if ltb size n then size else n

abbrev pub clamp_end : ℤ → ℕ → ℕ → ℕ
clamp_end (negsuc k) start size = start
clamp_end (pos n) start size =
    if n == max_size || ltb size n then size else if ltb n start then start else n

unfoldable pub slice_start : ℤ → ℕ → ℕ
slice_start start size = clamp_start (from_end start size) size

unfoldable pub slice_end : ℤ → ℤ → ℕ → ℕ
unfolding slice_start
slice_end start stop size = clamp_end (from_end stop size) (slice_start start size) size

-- `(end - start + step - 1) // step`
unfoldable pub slice_length : ℕ → ℕ → ℕ → ℕ
slice_length start stop step = (stop - start + step - 1) / step

-- `_traced_slice_bounds`; none is its NotImplementedError at another length than the traced one.
unfoldable pub traced_slice_bounds : ℤ → ℤ → ℕ → ℕ → ℕ → Option (ℕ × ℕ)
unfolding slice_start slice_end slice_length
traced_slice_bounds start stop step size traced_length =
    let lo = slice_start start size in
    let hi = slice_end start stop size in
    if slice_length lo hi step == traced_length then some (lo, hi) else none

-- Whether an index is not before `start`, or is before `stop`, where a negative bound counts from the
-- end.
abbrev pub at_or_after : ℤ → ℕ → ℕ → Bool
at_or_after (pos n) size i = leb n i
at_or_after (negsuc k) size i = leb size (i + suc k)

abbrev pub is_before : ℤ → ℕ → ℕ → Bool
is_before (pos n) size i = ltb i n
is_before (negsuc k) size i = ltb (i + suc k) size

module _ (size : ℕ) (fits : size ≤ max_size) where
  slice_bounds_exact :
      (start stop : ℤ) (i : ℕ)
      → i < size
      → (leb (slice_start start size) i && ltb i (slice_end start stop size))
        ≡ (at_or_after start size i && is_before stop size i)
  unfolding slice_start slice_end
  slice_bounds_exact (pos n) (pos m) i h = ground arith
  slice_bounds_exact (pos n) (negsuc m) i h = ground arith
  slice_bounds_exact (negsuc n) (pos m) i h = ground arith
  slice_bounds_exact (negsuc n) (negsuc m) i h = ground arith

  slice_bounds_order :
      (start stop : ℤ)
      → (slice_start start size ≤ slice_end start stop size) × (slice_end start stop size ≤ size)
  unfolding slice_start slice_end
  slice_bounds_order (pos n) (pos m) = (ground arith, ground arith)
  slice_bounds_order (pos n) (negsuc m) = (ground arith, ground arith)
  slice_bounds_order (negsuc n) (pos m) = (ground arith, ground arith)
  slice_bounds_order (negsuc n) (negsuc m) = (ground arith, ground arith)

slice_length_exact :
    (lo hi step k : ℕ) → 0 < step → lo ≤ hi → (k < slice_length lo hi step) ↔ (lo + k * step < hi)
unfolding slice_length
slice_length_exact lo hi step k h o =
    let (f, g) = le-div_iff_mul-le {k = step} {x = suc k} {y = hi - lo + step - 1} h in
    let e : suc k * step ≡ k * step + step = omega arith in
    (λ a. omega (arith, f a, e), λ a. g (omega (arith, a, e)))

-- For a dimension of at most `sys.maxsize`: the bounds that are found are in order and in range; an
-- index of the dimension lies between them exactly when ATen's start and end admit it, negative ones
-- counted from the end; and the steps from the first bound that stay below the second are exactly
-- those of the traced length.
pub traced_slice_bounds-exact :
    (start stop : ℤ) (step size traced_length lo hi : ℕ)
    → 0 < step
    → size ≤ max_size
    → traced_slice_bounds start stop step size traced_length ≡ some (lo, hi)
    → (lo ≤ hi)
      × (hi ≤ size)
      × ((i : ℕ)
          → i < size
          → (leb lo i && ltb i hi) ≡ (at_or_after start size i && is_before stop size i))
      × ((k : ℕ) → (k < traced_length) ↔ (lo + k * step < hi))
unfolding traced_slice_bounds
traced_slice_bounds-exact start stop step size traced_length lo hi h fits e =
    let lo' = slice_start start size in
    let hi' = slice_end start stop size in
    let (a, b) = slice_bounds_order size fits start stop in
    subst
      (λ (p : ℕ × ℕ).
        (p.0 ≤ p.1)
        × (p.1 ≤ size)
        × ((i : ℕ)
            → i < size
            → (leb p.0 i && ltb i p.1) ≡ (at_or_after start size i && is_before stop size i))
        × ((k : ℕ) → (k < traced_length) ↔ (p.0 + k * step < p.1)))
      (found (Bool-cases (slice_length lo' hi' step == traced_length)))
      (
        a,
        b,
        slice_bounds_exact size fits start stop,
        λ k.
            subst (λ n. (k < n) ↔ (lo' + k * step < hi'))
              (same (Bool-cases (slice_length lo' hi' step == traced_length)))
              (slice_length_exact lo' hi' step k h a),
      )
  where
    found :
        (slice_length (slice_start start size) (slice_end start stop size) step == traced_length
            ≡ true)
          ⊎ (slice_length (slice_start start size) (slice_end start stop size) step == traced_length
              ≡ false)
        → ◌≡◌ {A = ℕ × ℕ} (slice_start start size, slice_end start stop size) (lo, hi)
    found (inl t) = ground (arith, t, e)
    found (inr t) = ground (arith, t, e)

    same :
        (slice_length (slice_start start size) (slice_end start stop size) step == traced_length
            ≡ true)
          ⊎ (slice_length (slice_start start size) (slice_end start stop size) step == traced_length
              ≡ false)
        → slice_length (slice_start start size) (slice_end start stop size) step ≡ traced_length
    same (inl t) = (==_iff _ _).0 t
    same (inr t) = ground (arith, t, e)
