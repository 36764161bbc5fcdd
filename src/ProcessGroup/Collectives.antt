-- ===== src/ProcessGroup/Collectives.antt =====
-- all_reduce, broadcast, reduce, the all-gathers and the reduce-scatters, each without its `_loud`
-- wrapper (Coalescing.loud).
use torch_mojo_backend.Prelude.{
  ℕ, ◌+◌, ◌*◌, Bool, false, not, ◌||◌, some, List, [], ◌∷◌, ◌++◌, map, ◌==◌, if◌then◌else◌, any,
  is_empty, length, zip,
}
use torch_mojo_backend.ProcessGroup.Types.{
  Dtype, ReduceOp, Tensor, Buffer, Call, Event, Group, Work, gloo_work,
}
use torch_mojo_backend.ProcessGroup.Types
use torch_mojo_backend.ProcessGroup.Monad.{
  M, pure, gets, ◌>>=◌, ◌>>◌, check, for_each, for_all, emit,
}
use torch_mojo_backend.ProcessGroup.Plumbing.{
  nccl_dtype, nccl_red_op, call, is_cpu, same_device, one_per_rank, first_of, ensure,
}
use torch_mojo_backend.ProcessGroup.Staging.{
  new_like, stage_in, stage_out, record_tensors, finish, result, fr_tag, with_group, fr_op,
}

abbrev pub buffer_of : Tensor → ℕ → Buffer
buffer_of t code = record {
  address = t.ptr;
  count = t.numel;
  nccl_dtype = code;
  memory = t.storage;
}

abbrev pub dtype_code : Dtype → ℕ
dtype_code Dtype.int8 = 0
dtype_code Dtype.uint8 = 1
dtype_code Dtype.boolean = 2
dtype_code Dtype.int16 = 3
dtype_code Dtype.int32 = 4
dtype_code Dtype.uint32 = 5
dtype_code Dtype.int64 = 6
dtype_code Dtype.uint64 = 7
dtype_code Dtype.float16 = 8
dtype_code Dtype.float32 = 9
dtype_code Dtype.float64 = 10
dtype_code Dtype.bfloat16 = 11
dtype_code Dtype.complex64 = 12
dtype_code Dtype.complex128 = 13
dtype_code Dtype.float8_e4m3fn = 14
dtype_code Dtype.float8_e5m2 = 15

abbrev pub same_dtype : Tensor → Tensor → Bool
same_dtype a b = dtype_code a.dtype == dtype_code b.dtype

-- CPU tensors go to the private gloo group.
abbrev pub on_gloo : M Work
on_gloo = do emit Event.gloo; pure gloo_work

-- What every collective does first: `body` runs unless the tensor is on the CPU.
unfoldable pub unless_cpu : Tensor → M Work → M Work
unless_cpu t body = do on_cpu ← is_cpu t; if on_cpu then on_gloo else body

unfoldable pub allreduce : List Tensor → ReduceOp → M Work
allreduce tensors op = do
  tensor ← first_of tensors
  unless_cpu tensor (do
    fr_op false
    one_per_rank tensors
    index ← same_device tensors
    ensure index
    dtype ← nccl_dtype tensor.dtype
    code ← nccl_red_op op tensor.dtype
    staged ← stage_in index tensor
    tag ← fr_tag
    call (Call.all_reduce index (buffer_of staged dtype) code tag)
    finish index ((tensor, staged) ∷ [])
    result index tensors)

-- The codes that a tensor is reduced with.
unfoldable pub reduction_plan : ReduceOp → Tensor → M (ℕ × ℕ)
reduction_plan op t = do
  dtype ← nccl_dtype t.dtype
  code ← nccl_red_op op t.dtype
  pure (dtype, code)

unfoldable pub issue_all_reduce : ℕ → (ℕ × ℕ) × Tensor → M (Unit {0})
issue_all_reduce index ((dtype, code), staged) = do
  tag ← fr_tag
  call (Call.all_reduce index (buffer_of staged dtype) code tag)

unfoldable pub allreduce_coalesced : List Tensor → ReduceOp → M Work
allreduce_coalesced tensors op = do
  first ← first_of tensors
  unless_cpu first (do
    fr_op false
    index ← same_device tensors
    ensure index
    plan ← for_each (reduction_plan op) tensors
    staged ← for_each (stage_in index) tensors
    with_group (for_all (issue_all_reduce index) (zip plan staged))
    finish index (zip tensors staged)
    result index tensors)

unfoldable pub broadcast : List Tensor → (root_tensor root_rank : ℕ) → M Work
broadcast tensors root_tensor root_rank = do
  tensor ← first_of tensors
  unless_cpu tensor (do
    fr_op false
    one_per_rank tensors
    check (root_tensor == 0) Types.root_tensor_not_zero
    index ← same_device tensors
    ensure index
    dtype ← nccl_dtype tensor.dtype
    staged ← stage_in index tensor
    tag ← fr_tag
    call (Call.broadcast_from index (buffer_of staged dtype) root_rank tag)
    finish index ((tensor, staged) ∷ [])
    result index tensors)

unfoldable pub reduce : List Tensor → ReduceOp → ℕ → M Work
reduce tensors op root_rank = do
  tensor ← first_of tensors
  unless_cpu tensor (do
    fr_op false
    one_per_rank tensors
    index ← same_device tensors
    ensure index
    dtype ← nccl_dtype tensor.dtype
    code ← nccl_red_op op tensor.dtype
    staged ← stage_in index tensor
    tag ← fr_tag
    call (Call.reduce_to index (buffer_of staged dtype) code root_rank tag)
    finish index ((tensor, staged) ∷ [])
    result index tensors)

-- `_allgather_flat`
unfoldable pub allgather_flat : ℕ → (output input : Tensor) → M (Tensor × Tensor)
allgather_flat index output input = do
  size ← gets (λ g. g.size)
  check (output.numel == input.numel * size) Types.size_mismatch
  check (same_dtype output input) Types.dtype_mismatch
  dtype ← nccl_dtype input.dtype
  staged_in ← stage_in index input
  staged_out ← stage_out index output
  tag ← fr_tag
  call (Call.all_gather index (buffer_of staged_in dtype) (buffer_of staged_out dtype) tag)
  pure (staged_in, staged_out)

-- `_allgather_base`
unfoldable pub allgather_base : (output input : Tensor) → M Work
allgather_base output input = unless_cpu input (do
  fr_op false
  index ← same_device (input ∷ output ∷ [])
  ensure index
  (staged_in, staged_out) ← allgather_flat index output input
  record_tensors index (input ∷ staged_in ∷ [])
  finish index ((output, staged_out) ∷ [])
  result index (output ∷ []))

-- `torch.empty(count, …)` on the comm stream
unfoldable pub empty_flat : ℕ → ℕ → Tensor → M Tensor
empty_flat index count like = do
  flat ← new_like (record like { numel = count; rows = some count })
  emit (Event.allocate index flat.storage)
  pure flat

-- `flat[r * n : (r + 1) * n].view(out.shape)` behind each output, from rank `r` on
unfoldable pub slices : Tensor → ℕ → ℕ → List Tensor → M (List (Tensor × Tensor))
slices flat n r [] = pure []
slices flat n r (out ∷ outs) = do
  view ← new_like out
  rest ← slices flat n (r + 1) outs
  pure (
      (out, record view { storage = flat.storage; ptr = flat.ptr + r * n * flat.item_size }) ∷ rest)

abbrev pub describes : List Tensor → M (Unit {0})
describes tensors = if is_empty tensors then pure tt else fr_op false

abbrev pub differs_from : Tensor → Tensor → Bool
differs_from t o = not (o.numel == t.numel) || not (same_dtype o t)

unfoldable pub allgather : List (List Tensor) → List Tensor → M Work
allgather output_tensors input_tensors = do
  input ← first_of input_tensors
  unless_cpu input (do
    outputs ← first_of output_tensors
    describes outputs
    one_per_rank input_tensors
    size ← gets (λ g. g.size)
    check (length outputs == size) Types.wrong_count
    check (not (any (differs_from input) outputs)) Types.size_mismatch
    index ← same_device (input ∷ outputs)
    ensure index
    flat ← empty_flat index (size * input.numel) input
    (staged_in, staged_out) ← allgather_flat index flat input
    record_tensors index (input ∷ staged_in ∷ [])
    pairs ← slices flat input.numel 0 outputs
    finish index pairs
    result index outputs)

abbrev pub gather_pair : ℕ → Tensor × Tensor → M (Tensor × Tensor)
gather_pair index (o, i) = allgather_flat index o i

unfoldable pub allgather_into_tensor_coalesced : List Tensor → List Tensor → M Work
allgather_into_tensor_coalesced outputs inputs = do
  first ← first_of inputs
  unless_cpu first (do
    fr_op false
    check (length outputs == length inputs) Types.wrong_count
    index ← same_device (inputs ++ outputs)
    ensure index
    pairs ← with_group (for_each (gather_pair index) (zip outputs inputs))
    record_tensors index (inputs ++ map (λ p. p.0) pairs)
    finish index (zip outputs (map (λ p. p.1) pairs))
    result index outputs)

-- `_reduce_scatter_flat`
unfoldable pub reduce_scatter_flat : ReduceOp → ℕ → (output input : Tensor) → M (Tensor × Tensor)
reduce_scatter_flat op index output input = do
  size ← gets (λ g. g.size)
  check (input.numel == output.numel * size) Types.size_mismatch
  check (same_dtype output input) Types.dtype_mismatch
  dtype ← nccl_dtype input.dtype
  code ← nccl_red_op op input.dtype
  staged_in ← stage_in index input
  staged_out ← stage_out index output
  tag ← fr_tag
  call (
      Call.reduce_scatter_to index (buffer_of staged_in dtype) (buffer_of staged_out dtype) code
        tag)
  pure (staged_in, staged_out)

-- `_reduce_scatter_base`
unfoldable pub reduce_scatter_base : (output input : Tensor) → ReduceOp → M Work
reduce_scatter_base output input op = unless_cpu input (do
  fr_op false
  index ← same_device (input ∷ output ∷ [])
  ensure index
  (staged_in, staged_out) ← reduce_scatter_flat op index output input
  record_tensors index (input ∷ staged_in ∷ [])
  finish index ((output, staged_out) ∷ [])
  result index (output ∷ []))

abbrev pub total_numel : List Tensor → ℕ
total_numel [] = 0
total_numel (t ∷ ts) = t.numel + total_numel ts

-- `torch.cat([t.reshape(-1) for t in inputs])` on the comm stream
unfoldable pub concatenated : ℕ → Tensor → List Tensor → M Tensor
concatenated index like inputs = do
  let count = total_numel inputs
  flat ← new_like (record like { numel = count; rows = some count })
  emit (Event.concatenate index (map (λ t. t.storage) inputs) flat.storage)
  pure flat

unfoldable pub reduce_scatter : List Tensor → List (List Tensor) → ReduceOp → M Work
reduce_scatter output_tensors input_tensors op = do
  output ← first_of output_tensors
  unless_cpu output (do
    inputs ← first_of input_tensors
    describes inputs
    one_per_rank output_tensors
    size ← gets (λ g. g.size)
    check (length inputs == size) Types.wrong_count
    check (not (any (differs_from output) inputs)) Types.size_mismatch
    index ← same_device (output ∷ inputs)
    ensure index
    emit (Event.comm_waits index)
    flat ← concatenated index output inputs
    (staged_in, staged_out) ← reduce_scatter_flat op index output flat
    record_tensors index (flat ∷ inputs)
    finish index ((output, staged_out) ∷ [])
    result index (output ∷ []))

abbrev pub scatter_pair : ReduceOp → ℕ → Tensor × Tensor → M (Tensor × Tensor)
scatter_pair op index (o, i) = reduce_scatter_flat op index o i

unfoldable pub reduce_scatter_tensor_coalesced : List Tensor → List Tensor → ReduceOp → M Work
reduce_scatter_tensor_coalesced outputs inputs op = do
  first ← first_of outputs
  unless_cpu first (do
    fr_op false
    check (length outputs == length inputs) Types.wrong_count
    index ← same_device (inputs ++ outputs)
    ensure index
    pairs ← with_group (for_each (scatter_pair op index) (zip outputs inputs))
    record_tensors index (inputs ++ map (λ p. p.0) pairs)
    finish index (zip outputs (map (λ p. p.1) pairs))
    result index outputs)
