-- ===== src/ProcessGroup/Blocks/Methods.antt =====
-- Every collective keeps the open groups as they are, whether it returns or raises.
use torch_mojo_backend.Prelude.{ℕ, ◌+◌, Bool, List, [], ◌∷◌}
use torch_mojo_backend.ProcessGroup.Types.{Tensor, ReduceOp}
use torch_mojo_backend.ProcessGroup.Monad.{M}
use torch_mojo_backend.ProcessGroup.Monad.Keeps.{Keeps, Keeps-pure, Keeps-bind}
use torch_mojo_backend.ProcessGroup.Collectives
use torch_mojo_backend.ProcessGroup.Blocks.Level.{
  At, plain_rules, Keeps-or_raise, Keeps-nccl_dtype, Keeps-nccl_red_op, Keeps-is_cpu,
  Keeps-same_device, Keeps-one_per_rank, Keeps-first_of,
}
use torch_mojo_backend.ProcessGroup.Blocks.Staged.{
  open_groups, Keeps-ensure, Keeps-new_like, Keeps-stage_in, Keeps-stage_out, Keeps-record_tensors,
  Keeps-result, Keeps-fr_tag, Keeps-fr_op, Keeps-finish,
}
use torch_mojo_backend.ProcessGroup.Blocks.Grouped.{Keeps-with_group}

pub ruleset method_rules = (
  plain_rules, Keeps-or_raise, Keeps-nccl_dtype, Keeps-nccl_red_op, Keeps-is_cpu, Keeps-same_device,
  Keeps-one_per_rank, Keeps-first_of, Keeps-ensure, Keeps-new_like, Keeps-stage_in, Keeps-stage_out,
  Keeps-record_tensors, Keeps-result, Keeps-fr_tag, Keeps-fr_op, Keeps-finish, Keeps-with_group,
)

module _ (strict : Bool) (n : ℕ) (o : Bool) where
  pub Keeps-unless_cpu :
      (t : Tensor) (body : M _)
      → Keeps (At strict n o) body
      → Keeps (At strict n o) (Collectives.unless_cpu t body)
  unfolding Collectives.unless_cpu
  Keeps-unless_cpu t body k = search method_rules depth 9

  pub Keeps-reduction_plan :
      (op : ReduceOp) (t : Tensor) → Keeps (At strict n o) (Collectives.reduction_plan op t)
  unfolding Collectives.reduction_plan
  Keeps-reduction_plan op t = search method_rules depth 9

  pub Keeps-issue :
      (index : ℕ) (p : (ℕ × ℕ) × Tensor)
      → Keeps (At strict n o) (Collectives.issue_all_reduce index p)
  unfolding Collectives.issue_all_reduce
  Keeps-issue index ((dtype, code), t) = search method_rules depth 9

  pub Keeps-allgather_flat :
      (index : ℕ) (output input : Tensor)
      → Keeps (At strict n o) (Collectives.allgather_flat index output input)
  unfolding Collectives.allgather_flat
  Keeps-allgather_flat index output input = search method_rules depth 20

  pub Keeps-reduce_scatter_flat :
      (op : ReduceOp) (index : ℕ) (output input : Tensor)
      → Keeps (At strict n o) (Collectives.reduce_scatter_flat op index output input)
  unfolding Collectives.reduce_scatter_flat
  Keeps-reduce_scatter_flat op index output input = search method_rules depth 20

module _ (strict o : Bool) where
  pub Keeps-allreduce :
      (ts : List Tensor) (op : ReduceOp)
      → Keeps (At strict (open_groups o) o) (Collectives.allreduce ts op)
  unfolding Collectives.allreduce
  Keeps-allreduce ts op = search (method_rules, Keeps-unless_cpu) depth 25

  pub Keeps-allreduce_coalesced :
      (ts : List Tensor) (op : ReduceOp)
      → Keeps (At strict (open_groups o) o) (Collectives.allreduce_coalesced ts op)
  unfolding Collectives.allreduce_coalesced
  Keeps-allreduce_coalesced ts op =
      search (method_rules, Keeps-unless_cpu, Keeps-reduction_plan, Keeps-issue) depth 25

  pub Keeps-broadcast :
      (ts : List Tensor) (root_tensor root_rank : ℕ)
      → Keeps (At strict (open_groups o) o) (Collectives.broadcast ts root_tensor root_rank)
  unfolding Collectives.broadcast
  Keeps-broadcast ts root_tensor root_rank = search (method_rules, Keeps-unless_cpu) depth 25

  pub Keeps-reduce :
      (ts : List Tensor) (op : ReduceOp) (root : ℕ)
      → Keeps (At strict (open_groups o) o) (Collectives.reduce ts op root)
  unfolding Collectives.reduce
  Keeps-reduce ts op root = search (method_rules, Keeps-unless_cpu) depth 25

  pub Keeps-allgather_base :
      (output input : Tensor)
      → Keeps (At strict (open_groups o) o) (Collectives.allgather_base output input)
  unfolding Collectives.allgather_base
  Keeps-allgather_base output input =
      search (method_rules, Keeps-unless_cpu, Keeps-allgather_flat) depth 25

  pub Keeps-reduce_scatter_base :
      (output input : Tensor) (op : ReduceOp)
      → Keeps (At strict (open_groups o) o) (Collectives.reduce_scatter_base output input op)
  unfolding Collectives.reduce_scatter_base
  Keeps-reduce_scatter_base output input op =
      search (method_rules, Keeps-unless_cpu, Keeps-reduce_scatter_flat) depth 25

module _ (strict : Bool) (n : ℕ) (o : Bool) where
  pub Keeps-empty_flat :
      (index count : ℕ) (t : Tensor) → Keeps (At strict n o) (Collectives.empty_flat index count t)
  unfolding Collectives.empty_flat
  Keeps-empty_flat index count t = search method_rules depth 9

  pub Keeps-concatenated :
      (index : ℕ) (t : Tensor) (ts : List Tensor)
      → Keeps (At strict n o) (Collectives.concatenated index t ts)
  unfolding Collectives.concatenated
  Keeps-concatenated index t ts = search method_rules depth 9

  pub Keeps-slices :
      (flat : Tensor) (k r : ℕ) (outs : List Tensor)
      → Keeps (At strict n o) (Collectives.slices flat k r outs)
  unfolding Collectives.slices
  Keeps-slices flat k r [] = Keeps-pure []
  Keeps-slices flat k r (out ∷ outs) =
      Keeps-bind _ _ (Keeps-new_like strict n o out)
        λ view. Keeps-bind _ _ (Keeps-slices flat k (r + 1) outs) λ rest. Keeps-pure _

pub ruleset flat_rules = (
  method_rules, Keeps-unless_cpu, Keeps-allgather_flat, Keeps-reduce_scatter_flat, Keeps-empty_flat,
  Keeps-concatenated, Keeps-slices,
)

module _ (strict o : Bool) where
  pub Keeps-allgather :
      (outputs : List (List Tensor)) (inputs : List Tensor)
      → Keeps (At strict (open_groups o) o) (Collectives.allgather outputs inputs)
  unfolding Collectives.allgather
  Keeps-allgather outputs inputs = search flat_rules depth 30

  pub Keeps-allgather_coalesced :
      (outputs inputs : List Tensor)
      → Keeps
          (At strict (open_groups o) o)
          (Collectives.allgather_into_tensor_coalesced outputs inputs)
  unfolding Collectives.allgather_into_tensor_coalesced
  Keeps-allgather_coalesced outputs inputs = search flat_rules depth 30

  pub Keeps-reduce_scatter :
      (outputs : List Tensor) (inputs : List (List Tensor)) (op : ReduceOp)
      → Keeps (At strict (open_groups o) o) (Collectives.reduce_scatter outputs inputs op)
  unfolding Collectives.reduce_scatter
  Keeps-reduce_scatter outputs inputs op = search flat_rules depth 30

  pub Keeps-reduce_scatter_coalesced :
      (outputs inputs : List Tensor) (op : ReduceOp)
      → Keeps
          (At strict (open_groups o) o)
          (Collectives.reduce_scatter_tensor_coalesced outputs inputs op)
  unfolding Collectives.reduce_scatter_tensor_coalesced
  Keeps-reduce_scatter_coalesced outputs inputs op = search flat_rules depth 30
