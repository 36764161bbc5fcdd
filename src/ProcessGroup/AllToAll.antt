-- ===== src/ProcessGroup/AllToAll.antt =====
-- The all-to-alls: split sizes, the chunks that go to and come from each peer, and both methods.
use torch_mojo_backend.Prelude.{
  ℕ, ◌+◌, ◌*◌, ◌/◌, ◌%◌, false, ◌&&◌, Option, none, some, List, [], ◌∷◌, ◌++◌, map, ◌==◌,
  if◌then◌else◌, is_empty, length, zip, replicate, sum, ℤ, pos, negsuc,
}
use torch_mojo_backend.ProcessGroup.Types.{Dtype, Tensor, Buffer, Call, Group, Work}
use torch_mojo_backend.ProcessGroup.Types
use torch_mojo_backend.ProcessGroup.Monad.{M, pure, raise, gets, ◌>>=◌, ◌>>◌, check, for_each}
use torch_mojo_backend.ProcessGroup.Plumbing.{
  nccl_dtype, call, same_device, first_of, ensure, or_raise,
}
use torch_mojo_backend.ProcessGroup.Staging.{
  stage_in, stage_out, record_tensors, finish, result, fr_tag, with_group, fr_op,
}
use torch_mojo_backend.ProcessGroup.Collectives.{buffer_of, same_dtype, unless_cpu}

-- `all(s >= 0)`: the sizes, unless one is negative
unfoldable pub nonnegative : List ℤ → Option (List ℕ)
nonnegative [] = some []
nonnegative (negsuc n ∷ sizes) = none
nonnegative (pos n ∷ sizes) = elim (nonnegative sizes) [ none ↦ none | some ns ↦ some (n ∷ ns) ]

abbrev pub rows_of : Option ℕ → ℕ
rows_of none = 1
rows_of (some rows) = rows

abbrev pub row_numel : ℕ → ℕ → ℕ
row_numel numel rows = if rows == 0 then 0 else numel / rows

-- The split sizes that the caller gave.
unfoldable pub given_splits : ℕ → ℕ → ℕ → Option (List ℕ) → Option (List ℕ)
given_splits world rows row none = none
given_splits world rows row (some sizes) =
    if length sizes == world && sum sizes == rows then some (map (λ s. s * row) sizes) else none

-- `_splits`: element counts per peer; `none` stands for the ValueError.
unfoldable pub splits : ℕ → Option ℕ → ℕ → List ℤ → Option (List ℕ)
unfolding nonnegative given_splits
splits world shape numel sizes =
    let rows = rows_of shape in
    let row = row_numel numel rows in
    if is_empty sizes
    then (if rows % world == 0 then some (replicate world ((rows / world) * row)) else none)
    else given_splits world rows row (nonnegative sizes)

abbrev pub chunk : Tensor → ℕ → ℕ → ℕ → Buffer
chunk t code offset count = record {
  address = t.ptr + offset * t.item_size;
  count = count;
  nccl_dtype = code;
  memory = t.storage;
}

unfoldable pub send_chunk : ℕ → Tensor → ℕ → ℕ → ℕ → ℕ → M (Unit {0})
send_chunk index input code peer offset count =
    if count == 0
    then pure tt
    else (do tag ← fr_tag; call (Call.send_to index (chunk input code offset count) peer tag))

-- The source scales both offsets by the input's element size; the dtypes are equal there.
unfoldable pub recv_chunk : ℕ → Tensor → ℕ → ℕ → ℕ → ℕ → ℕ → M (Unit {0})
recv_chunk index output item_size code peer offset count = if count == 0 then pure tt else (do
  tag ← fr_tag
  call (
      Call.recv_from index (chunk (record output { item_size = item_size }) code offset count) peer
        tag))

-- The loop over the peers, from `peer` on.
unfoldable pub exchange :
    ℕ → Tensor → Tensor → ℕ → (peer in_off out_off : ℕ) → List ℕ → List ℕ → M (Unit {0})
exchange index output input code peer in_off out_off [] [] = pure tt
exchange index output input code peer in_off out_off [] (n_out ∷ outs) = raise Types.index_error
exchange index output input code peer in_off out_off (n_in ∷ ins) [] = raise Types.index_error
exchange index output input code peer in_off out_off (n_in ∷ ins) (n_out ∷ outs) = do
  send_chunk index input code peer in_off n_in
  recv_chunk index output input.item_size code peer out_off n_out
  exchange index output input code (peer + 1) (in_off + n_in) (out_off + n_out) ins outs

-- `_sendrecv_chunks`; `_splits` gives both lists the group's size.
unfoldable pub sendrecv_chunks : ℕ → Tensor → Tensor → List ℕ → List ℕ → M (Unit {0})
sendrecv_chunks index output input out_sizes in_sizes = do
  check (same_dtype output input) Types.dtype_mismatch
  code ← nccl_dtype input.dtype
  with_group (exchange index output input code 0 0 0 in_sizes out_sizes)

unfoldable pub alltoall_base : (output input : Tensor) → (out_splits in_splits : List ℤ) → M Work
alltoall_base output input out_splits in_splits = unless_cpu input (do
  fr_op false
  index ← same_device (input ∷ output ∷ [])
  ensure index
  world ← gets (λ g. g.size)
  in_sizes ← or_raise (splits world input.rows input.numel in_splits) Types.uneven_split
  out_sizes ← or_raise (splits world output.rows output.numel out_splits) Types.uneven_split
  staged_in ← stage_in index input
  staged_out ← stage_out index output
  sendrecv_chunks index staged_out staged_in out_sizes in_sizes
  record_tensors index (input ∷ staged_in ∷ [])
  finish index ((output, staged_out) ∷ [])
  result index (output ∷ []))

unfoldable pub send_whole : ℕ → ℕ → Tensor → M (Unit {0})
send_whole index peer t = if t.numel == 0 then pure tt else (do
  tag ← fr_tag
  code ← nccl_dtype t.dtype
  call (Call.send_to index (buffer_of t code) peer tag))

unfoldable pub recv_whole : ℕ → ℕ → Tensor → M (Unit {0})
recv_whole index peer t = if t.numel == 0 then pure tt else (do
  tag ← fr_tag
  code ← nccl_dtype t.dtype
  call (Call.recv_from index (buffer_of t code) peer tag))

-- `for peer, (i, o) in enumerate(zip(staged_in, staged_out))`
unfoldable pub exchange_whole : ℕ → ℕ → List (Tensor × Tensor) → M (Unit {0})
exchange_whole index peer [] = pure tt
exchange_whole index peer ((i, o) ∷ rest) = do
  send_whole index peer i
  recv_whole index peer o
  exchange_whole index (peer + 1) rest

unfoldable pub alltoall : (outputs inputs : List Tensor) → M Work
alltoall outputs inputs = do
  first ← first_of inputs
  unless_cpu first (do
    fr_op false
    size ← gets (λ g. g.size)
    check (length outputs == size && length inputs == size) Types.wrong_count
    index ← same_device (inputs ++ outputs)
    ensure index
    staged_in ← for_each (stage_in index) inputs
    staged_out ← for_each (stage_out index) outputs
    with_group (exchange_whole index 0 (zip staged_in staged_out))
    record_tensors index (inputs ++ staged_in)
    finish index (zip outputs staged_out)
    result index outputs)
