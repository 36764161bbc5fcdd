-- ===== src/ProcessGroup/Chunks.antt =====
-- How an all-to-all divides its tensors among the peers.
use torch_mojo_backend.Prelude.{
  ℕ, zero, suc, ◌+◌, ◌*◌, ◌/◌, ◌%◌, ◌≤◌, ◌≡◌, refl, ap, sym, ◌∙◌, Bool, true, false, ◌&&◌, Option,
  none, some, List, [], ◌∷◌, map, ◌==◌, arith, leb, if◌then◌else◌, is_empty, all, length, replicate,
  sum, length-replicate, length-map, sum-replicate, sum-map-mul, both, ℤ,
}
use native.Mathlib.Nat.{div-add-mod, mul_assoc, mul-div_right, add-mul, mul-le-mul_right}
use torch_mojo_backend.ProcessGroup.Types.{Tensor, Call, Event, Group}
use torch_mojo_backend.ProcessGroup.Monad.{◌>>=◌}
use torch_mojo_backend.ProcessGroup.Monad.Keeps.{
  Keeps, Keeps-pure, Keeps-raise, Keeps-bind, Keeps-if,
}
use torch_mojo_backend.ProcessGroup.Plumbing.{call}
use torch_mojo_backend.ProcessGroup.Staging.{fr_tag}
use torch_mojo_backend.ProcessGroup.AllToAll.{
  splits, given_splits, nonnegative, rows_of, row_numel, send_chunk, recv_chunk, exchange,
}

-- One count for each peer, `numel` elements in all.
abbrev pub divides : ℕ → ℕ → List ℕ → Bool
divides world numel ns = length ns == world && sum ns == numel

abbrev pub divides_all : ℕ → ℕ → Option (List ℕ) → Bool
divides_all world numel none = true
divides_all world numel (some ns) = divides world numel ns

row_of : (rows k : ℕ) → rows * row_numel (rows * k) rows ≡ rows * k
row_of zero k = omega arith
row_of (suc n) k =
    ap (λ (x : ℕ). suc n * x) (ground (arith, mul-div_right k {m = suc n} (omega arith)))

divided :
    (world numel : ℕ) (ns : List ℕ)
    → length ns ≡ world
    → sum ns ≡ numel
    → divides world numel ns ≡ true
divided world numel ns l t = ground (arith, l, t)

even_total : (world rows row : ℕ) → rows % world ≡ 0 → world * (rows / world * row) ≡ rows * row
even_total world rows row h =
    sym (mul_assoc world (rows / world) row)
    ∙ ap (λ (x : ℕ). x * row) (omega (arith, div-add-mod rows world, h))

module _ (world rows row numel : ℕ) (whole : rows * row ≡ numel) where
  divides_even :
      (b : Bool)
      → (b ≡ true → rows % world ≡ 0)
      → divides_all world numel (if b then some (replicate world (rows / world * row)) else none)
        ≡ true
  divides_even false h = refl
  divides_even true h =
      divided world numel _ (length-replicate world (rows / world * row))
        (sum-replicate world (rows / world * row) ∙ even_total world rows row (h refl) ∙ whole)

  divides_given :
      (sizes : Option (List ℕ)) → divides_all world numel (given_splits world rows row sizes) ≡ true
  unfolding given_splits
  divides_given none = refl
  divides_given (some sizes) =
      either (length sizes == world && sum sizes == rows)
        λ e. both (length sizes == world) (sum sizes == rows) e
    where
      either :
          (b : Bool)
          → (b ≡ true → ((length sizes == world) ≡ true) × ((sum sizes == rows) ≡ true))
          → divides_all world numel (if b then some (map (λ s. s * row) sizes) else none) ≡ true
      either false h = refl
      either true h =
          divided world numel _ (length-map (λ s. s * row) sizes ∙ same world (h refl).0)
            (sum-map-mul row sizes ∙ ap (λ (x : ℕ). x * row) (same rows (h refl).1) ∙ whole)
        where
          same : {x : ℕ} (y : ℕ) → (x == y) ≡ true → x ≡ y
          same y e = ground arith

-- A tensor whose first dimension has `rows` elements has `rows * k` elements in all. Whichever way the sizes
-- are given, `_splits` then either raises or gives each peer one count, and the counts add up to
-- the whole tensor.
pub splits_divide :
    (world k : ℕ) (shape : Option ℕ) (sizes : List ℤ)
    → divides_all world (rows_of shape * k) (splits world shape (rows_of shape * k) sizes) ≡ true
unfolding splits
splits_divide world k shape sizes = either (is_empty sizes)
  where
    rows : ℕ
    rows = rows_of shape

    row : ℕ
    row = row_numel (rows * k) rows

    either :
        (b : Bool)
        → divides_all world (rows * k) (
            if b
            then (if rows % world == 0 then some (replicate world (rows / world * row)) else none)
            else given_splits world rows row (nonnegative sizes))
          ≡ true
    either true =
        divides_even world rows row (rows * k) (row_of rows k) (rows % world == 0) λ e. ground arith
    either false = divides_given world rows row (rows * k) (row_of rows k) (nonnegative sizes)

-- Whether a call of an exchange reads the input and writes the output within their bounds.
abbrev pub inside : (sent received : ℕ × ℕ) → (item : ℕ) → Event → Bool
inside sent received item (Event.native t (Call.send_to index b peer tag) r) =
    leb sent.0 b.address && leb (b.address + b.count * item) sent.1
inside sent received item (Event.native t (Call.recv_from index b peer tag) r) =
    leb received.0 b.address && leb (b.address + b.count * item) received.1
inside sent received item e = true

abbrev pub extent : Tensor → ℕ → ℕ → ℕ × ℕ
extent t item total = (t.ptr, t.ptr + total * item)

chunk_inside :
    (ptr item offset count total : ℕ)
    → offset + count ≤ total
    → (leb ptr (ptr + offset * item)
        && leb (ptr + offset * item + count * item) (ptr + total * item))
      ≡ true
chunk_inside ptr item offset count total h =
    ground (arith, add-mul offset count item, mul-le-mul_right item h)

module _ (index : ℕ) (output input : Tensor) (code in_total out_total : ℕ) where
  -- Every call made so far stays inside the tensors.
  abbrev pub StaysInside : Group → Type 0
  StaysInside g =
      all
        (inside (extent input input.item_size in_total) (extent output input.item_size out_total)
          input.item_size)
        g.log
      ≡ true

  Keeps-send_chunk :
      (peer offset count : ℕ)
      → offset + count ≤ in_total
      → Keeps StaysInside (send_chunk index input code peer offset count)
  unfolding send_chunk call fr_tag all ◌>>=◌
  Keeps-send_chunk peer offset count h = Keeps-if (count == 0) _ _ (Keeps-pure tt) (record {
    at = λ g k. ground (arith, k, chunk_inside input.ptr input.item_size offset count in_total h);
  })

  Keeps-recv_chunk :
      (peer offset count : ℕ)
      → offset + count ≤ out_total
      → Keeps StaysInside (recv_chunk index output input.item_size code peer offset count)
  unfolding recv_chunk call fr_tag all ◌>>=◌
  Keeps-recv_chunk peer offset count h = Keeps-if (count == 0) _ _ (Keeps-pure tt) (record {
    at = λ g k. ground (arith, k, chunk_inside output.ptr input.item_size offset count out_total h);
  })

  Keeps-exchange :
      (peer in_off out_off : ℕ) (ins outs : List ℕ)
      → in_off + sum ins ≤ in_total
      → out_off + sum outs ≤ out_total
      → Keeps StaysInside (exchange index output input code peer in_off out_off ins outs)
  unfolding exchange sum
  Keeps-exchange peer in_off out_off [] [] h k = Keeps-pure tt
  Keeps-exchange peer in_off out_off [] (n ∷ outs) h k = Keeps-raise _
  Keeps-exchange peer in_off out_off (n ∷ ins) [] h k = Keeps-raise _
  Keeps-exchange peer in_off out_off (n_in ∷ ins) (n_out ∷ outs) h k =
      Keeps-bind _ _ (Keeps-send_chunk peer in_off n_in (omega arith)) λ _.
        Keeps-bind _ _ (Keeps-recv_chunk peer out_off n_out (omega arith)) λ _.
          Keeps-exchange (peer + 1) (in_off + n_in) (out_off + n_out) ins outs (omega arith)
            (omega arith)

-- An exchange whose counts add up to at most the elements of the tensors sends only from inside the
-- input and receives only inside the output, whatever the native core answers and also where it
-- stops halfway.
pub exchange_bounded :
    (index code : ℕ) (output input : Tensor) (ins outs : List ℕ) (g : Group)
    → sum ins ≤ input.numel
    → sum outs ≤ output.numel
    → StaysInside index output input code input.numel output.numel g
    → StaysInside index output input code input.numel output.numel
        (exchange index output input code 0 0 0 ins outs g).1
exchange_bounded index code output input ins outs g h k b =
    (Keeps-exchange index output input code input.numel output.numel 0 0 0 ins outs
        (omega (arith, h)) (omega (arith, k))).at
      g b
