-- ===== src/ProcessGroup/Operations.antt =====
-- A history of calls on one `MojoProcessGroup`, from any threads, one call at a time.
use torch_mojo_backend.Prelude.{ℕ, Option, none, List, [], ◌∷◌, ℤ, Bool, false}
use torch_mojo_backend.ProcessGroup.Types.{Env, Group, ReduceOp, Tensor, Work}
use torch_mojo_backend.ProcessGroup.Monad.{M}
use torch_mojo_backend.ProcessGroup.Coalescing.{start_coalescing, end_coalescing, loud}
use torch_mojo_backend.ProcessGroup.Collectives
use torch_mojo_backend.ProcessGroup.AllToAll
use torch_mojo_backend.ProcessGroup.Rooted

-- The collectives, with their arguments.
pub data Collective : Type 0 where
  allreduce allreduce_coalesced : List Tensor → ReduceOp → Collective
  broadcast : List Tensor → (root_tensor root_rank : ℕ) → Collective
  reduce : List Tensor → ReduceOp → ℕ → Collective
  allgather_base : (output input : Tensor) → Collective
  allgather : List (List Tensor) → List Tensor → Collective
  allgather_coalesced : (outputs inputs : List Tensor) → Collective
  reduce_scatter_base : (output input : Tensor) → ReduceOp → Collective
  reduce_scatter : List Tensor → List (List Tensor) → ReduceOp → Collective
  reduce_scatter_coalesced : (outputs inputs : List Tensor) → ReduceOp → Collective
  alltoall_base : (output input : Tensor) → List ℤ → List ℤ → Collective
  alltoall : (outputs inputs : List Tensor) → Collective
  gather : List (List Tensor) → List Tensor → ℕ → Collective
  scatter : List Tensor → List (List Tensor) → ℕ → Collective
  send recv : List Tensor → ℕ → Collective
  barrier : Collective

-- The method that a collective calls, without its wrapper.
unfoldable pub method : Collective → M Work
method (allreduce ts op) = Collectives.allreduce ts op
method (allreduce_coalesced ts op) = Collectives.allreduce_coalesced ts op
method (broadcast ts root_tensor root_rank) = Collectives.broadcast ts root_tensor root_rank
method (reduce ts op root) = Collectives.reduce ts op root
method (allgather_base output input) = Collectives.allgather_base output input
method (allgather outputs inputs) = Collectives.allgather outputs inputs
method (allgather_coalesced outputs inputs) =
    Collectives.allgather_into_tensor_coalesced outputs inputs
method (reduce_scatter_base output input op) = Collectives.reduce_scatter_base output input op
method (reduce_scatter outputs inputs op) = Collectives.reduce_scatter outputs inputs op
method (reduce_scatter_coalesced outputs inputs op) =
    Collectives.reduce_scatter_tensor_coalesced outputs inputs op
method (alltoall_base output input a b) = AllToAll.alltoall_base output input a b
method (alltoall outputs inputs) = AllToAll.alltoall outputs inputs
method (gather outputs inputs root) = Rooted.gather outputs inputs root
method (scatter outputs inputs root) = Rooted.scatter outputs inputs root
method (send ts peer) = Rooted.send ts peer
method (recv ts peer) = Rooted.recv ts peer
method barrier = Rooted.barrier

-- What a caller does: a collective, or the start or the end of a coalescing block.
pub data Request : Type 0 where
  collective : Collective → Request
  starts ends : Option ℕ → Request

-- The group after a request by a thread, whether it returned or raised.
unfoldable pub serve : Group → ℕ × Request → Group
serve g (thread, collective c) = (loud (method c) (record g { caller = thread })).1
serve g (thread, starts device) = (start_coalescing device (record g { caller = thread })).1
serve g (thread, ends device) = (end_coalescing device (record g { caller = thread })).1

unfoldable pub serve_all : Group → List (ℕ × Request) → Group
serve_all g [] = g
serve_all g (r ∷ rs) = serve_all (serve g r) rs

-- `MojoProcessGroup.__init__`, before the first communicator
unfoldable pub new_group : Env → (rank size : ℕ) → Bool → Group
new_group env rank size records_flight = record {
  env = env;
  caller = 0;
  rank = rank;
  size = size;
  has_handle = false;
  seq = 0;
  ready = [];
  coalescing = none;
  coalescing_thread = none;
  coalesced_tensors = [];
  coalesced_records = [];
  coalesced_pairs = [];
  records_flight = records_flight;
  fr_block = none;
  tag = 0;
  next_tag = 1;
  fresh = 0;
  log = [];
}
