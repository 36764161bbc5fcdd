-- ===== src/ProcessGroup/Rooted.antt =====
-- gather and scatter, send and recv, and the barrier. With mojoccl, which has no point-to-point
-- operations, gather goes through an all-gather and scatter through a broadcast.
use torch_mojo_backend.Prelude.{
  ℕ, ◌+◌, ◌*◌, Bool, true, false, not, ◌&&◌, ◌||◌, Option, some, List, [], ◌∷◌, ◌++◌, ◌==◌,
  if◌then◌else◌, any, is_empty, length, zip, get_elem?,
}
use mathlib.Core.List.{reverse}
use torch_mojo_backend.ProcessGroup.Types.{Tensor, Call, Event, Group, Work}
use torch_mojo_backend.ProcessGroup.Types
use torch_mojo_backend.ProcessGroup.Monad.{
  M, pure, raise, gets, ◌>>=◌, ◌>>◌, check, for_each, for_all, emit,
}
use torch_mojo_backend.ProcessGroup.Plumbing.{
  nccl_dtype, call, same_device, one_per_rank, first_of, ensure,
}
use torch_mojo_backend.ProcessGroup.Staging.{
  stage_in, stage_out, record_tensors, finish, result, fr_tag, with_group, fr_op,
}
use torch_mojo_backend.ProcessGroup.Collectives.{
  buffer_of, unless_cpu, empty_flat, concatenated, differs_from, on_gloo,
}

-- Every peer but the group's own rank, from `peer` on.
unfoldable pub recv_from_peers : ℕ → ℕ → ℕ → ℕ → List Tensor → M (Unit {0})
recv_from_peers index code own peer [] = pure tt
recv_from_peers index code own peer (o ∷ outs) = do
  if peer == own
      then pure tt
      else (do tag ← fr_tag; call (Call.recv_from index (buffer_of o code) peer tag))
  recv_from_peers index code own (peer + 1) outs

unfoldable pub send_to_peers : ℕ → ℕ → ℕ → ℕ → List Tensor → M (Unit {0})
send_to_peers index code own peer [] = pure tt
send_to_peers index code own peer (i ∷ ins) = do
  if peer == own
      then pure tt
      else (do tag ← fr_tag; call (Call.send_to index (buffer_of i code) peer tag))
  send_to_peers index code own (peer + 1) ins

-- `_gather_by_all_gather`
unfoldable pub gather_by_all_gather : ℕ → Tensor → List Tensor → M (Unit {0})
gather_by_all_gather index input outputs = do
  size ← gets (λ g. g.size)
  gathered ← empty_flat index (size * input.numel) input
  code ← nccl_dtype input.dtype
  tag ← fr_tag
  call (Call.all_gather index (buffer_of input code) (buffer_of gathered code) tag)
  for_all (λ (o : Tensor). emit (Event.copy index gathered.storage o.storage)) outputs

abbrev pub root_tensors : Bool → List (List Tensor) → M (List Tensor)
root_tensors root lists = if root then first_of lists else pure []

-- The root's own chunk is copied on the comm stream.
abbrev pub copy_own : ℕ → Option Tensor → Option Tensor → M (Unit {0})
copy_own index (some src) (some dst) = emit (Event.copy index src.storage dst.storage)
copy_own index _ _ = raise Types.index_error

unfoldable pub gather_by_sends :
    ℕ
    → ℕ
    → Bool
    → ℕ
    → (outputs : List Tensor) → (input staged_in : Tensor) → (staged_out : List Tensor)
    → M (Unit {0})
gather_by_sends index code root root_rank outputs input staged_in staged_out = do
  own ← gets (λ g. g.rank)
  with_group (
      if root
      then recv_from_peers index code own 0 staged_out
      else (do tag ← fr_tag; call (Call.send_to index (buffer_of staged_in code) root_rank tag)))
  if root
      then (do
        copy_own index (some staged_in) (get_elem? staged_out own)
        finish index (zip outputs staged_out))
      else pure tt
  record_tensors index (input ∷ staged_in ∷ [])

unfoldable pub gather : List (List Tensor) → List Tensor → ℕ → M Work
gather output_tensors input_tensors root_rank = do
  input ← first_of input_tensors
  unless_cpu input (do
    fr_op false
    one_per_rank input_tensors
    rank ← gets (λ g. g.rank)
    size ← gets (λ g. g.size)
    let root = rank == root_rank
    outputs ← root_tensors root output_tensors
    check (not (root && (not (length outputs == size) || any (differs_from input) outputs)))
        Types.wrong_count
    index ← same_device (input ∷ outputs)
    ensure index
    code ← nccl_dtype input.dtype
    staged_in ← stage_in index input
    staged_out ← for_each (stage_out index) outputs
    emit (Event.comm_waits index)
    env ← gets (λ g. g.env)
    if env.uses_mojoccl
        then (do
          gather_by_all_gather index staged_in staged_out
          finish index (zip outputs staged_out)
          record_tensors index (input ∷ staged_in ∷ []))
        else gather_by_sends index code root root_rank outputs input staged_in staged_out
    result index (if root then outputs else input_tensors))

abbrev pub scatter_source : ℕ → ℕ → Tensor → List Tensor → M Tensor
scatter_source index size output inputs =
    if is_empty inputs
    then empty_flat index (size * output.numel) output
    else concatenated index output inputs

-- `_scatter_by_broadcast`
unfoldable pub scatter_by_broadcast : ℕ → Tensor → List Tensor → ℕ → M (Unit {0})
scatter_by_broadcast index output inputs root_rank = do
  size ← gets (λ g. g.size)
  full ← scatter_source index size output inputs
  code ← nccl_dtype output.dtype
  tag ← fr_tag
  call (Call.broadcast_from index (buffer_of full code) root_rank tag)
  emit (Event.copy index full.storage output.storage)

unfoldable pub scatter_by_sends :
    ℕ → ℕ → Bool → ℕ → (inputs staged_in : List Tensor) → Tensor → M (Unit {0})
scatter_by_sends index code root root_rank inputs staged_in staged_out = do
  own ← gets (λ g. g.rank)
  with_group (
      if root
      then send_to_peers index code own 0 staged_in
      else (do tag ← fr_tag; call (Call.recv_from index (buffer_of staged_out code) root_rank tag)))
  if root
      then (do
        copy_own index (get_elem? staged_in own) (some staged_out)
        record_tensors index (inputs ++ staged_in))
      else pure tt

unfoldable pub scatter : List Tensor → List (List Tensor) → ℕ → M Work
scatter output_tensors input_tensors root_rank = do
  output ← first_of output_tensors
  unless_cpu output (do
    fr_op false
    one_per_rank output_tensors
    rank ← gets (λ g. g.rank)
    size ← gets (λ g. g.size)
    let root = rank == root_rank
    inputs ← root_tensors root input_tensors
    check (not (root && (not (length inputs == size) || any (differs_from output) inputs)))
        Types.wrong_count
    index ← same_device (output ∷ inputs)
    ensure index
    code ← nccl_dtype output.dtype
    staged_out ← stage_out index output
    staged_in ← for_each (stage_in index) inputs
    emit (Event.comm_waits index)
    env ← gets (λ g. g.env)
    if env.uses_mojoccl
        then (do
          scatter_by_broadcast index staged_out staged_in root_rank
          record_tensors index (inputs ++ staged_in))
        else scatter_by_sends index code root root_rank inputs staged_in staged_out
    finish index ((output, staged_out) ∷ [])
    result index output_tensors)

unfoldable pub send_tensor : ℕ → ℕ → Tensor → M (Unit {0})
send_tensor index peer t = do
  code ← nccl_dtype t.dtype
  tag ← fr_tag
  call (Call.send_to index (buffer_of t code) peer tag)

unfoldable pub recv_tensor : ℕ → ℕ → Tensor → M (Unit {0})
recv_tensor index peer t = do
  code ← nccl_dtype t.dtype
  tag ← fr_tag
  call (Call.recv_from index (buffer_of t code) peer tag)

unfoldable pub send : List Tensor → ℕ → M Work
send tensors dst_rank = do
  first ← first_of tensors
  unless_cpu first (do
    fr_op true
    index ← same_device tensors
    ensure index
    staged ← for_each (stage_in index) tensors
    with_group (for_all (send_tensor index dst_rank) staged)
    record_tensors index (tensors ++ staged)
    result index tensors)

unfoldable pub recv : List Tensor → ℕ → M Work
recv tensors src_rank = do
  first ← first_of tensors
  unless_cpu first (do
    fr_op true
    index ← same_device tensors
    ensure index
    staged ← for_each (stage_out index) tensors
    with_group (for_all (recv_tensor index src_rank) staged)
    finish index (zip tensors staged)
    result index tensors)

unfoldable pub synchronize_device : ℕ → M (Unit {0})
synchronize_device index = do emit (Event.synchronize index); call (Call.synchronize_comm index)

-- Every device with a communicator, in the order of their creation, then gloo.
unfoldable pub barrier : M Work
barrier = do ready ← gets (λ g. g.ready); for_all synchronize_device (reverse ready); on_gloo
