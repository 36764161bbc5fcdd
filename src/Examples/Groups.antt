-- ===== src/Examples/Groups.antt =====
-- The process group at concrete inputs: two ranks, one device, float tensors.
use torch_mojo_backend.Prelude.{
  ℕ, ◌*◌, ◌≡◌, refl, Bool, true, false, none, some, List, [], ◌∷◌, if◌then◌else◌, is_some, not,
  ◌&&◌, pos, any,
}
use torch_mojo_backend.Prelude.Sets.{elem}
use torch_mojo_backend.ProcessGroup.Types
use torch_mojo_backend.ProcessGroup.Types.{
  Tensor, Group, Env, Event, Call, depth, unsubmitted, copies_safely,
}
use torch_mojo_backend.ProcessGroup.Monad.{
  err, pure, raise, gets, modify, ◌>>=◌, try_finally, emit, for_each, for_all,
}
use torch_mojo_backend.ProcessGroup.Plumbing
use torch_mojo_backend.ProcessGroup.Staging
use torch_mojo_backend.ProcessGroup.Coalescing
use torch_mojo_backend.ProcessGroup.Coalescing.{loud}
use torch_mojo_backend.ProcessGroup.Collectives
use torch_mojo_backend.ProcessGroup.AllToAll
use torch_mojo_backend.ProcessGroup.Rooted
use torch_mojo_backend.ProcessGroup.Operations
use torch_mojo_backend.ProcessGroup.Operations.{
  method, Request, starts, ends, collective, serve, serve_all, new_group,
}
use torch_mojo_backend.ProcessGroup.Blocks.Calls.{
  groups_follow_blocks, copies_wait_for_submission, no_rooted_in_blocks, raising_closes_groups,
  is_block_thread, one_thread_per_block,
}
use torch_mojo_backend.ProcessGroup.Chunks.{splits_divide, divides_all}

abbrev machine : Env
machine = record {
  current_device = 0;
  api_of = λ d. Types.cuda;
  is_x86_64 = true;
  loads = true;
  watchdog_starts = true;
  unique_id_fits = true;
  uses_mojoccl = false;
  address_of = λ s. s * 4096;
  succeeds = λ log c. true;
}

abbrev tensor_of : ℕ → Bool → Tensor
tensor_of id dense = record {
  object = id;
  storage = id;
  ptr = id * 65536;
  device = Types.mojo (some 0);
  dtype = Types.float32;
  item_size = 4;
  numel = 6;
  rows = some 6;
  is_contiguous = dense;
}

-- A strided tensor, which is staged, is reduced in a block.
abbrev block_calls : List (ℕ × Request)
block_calls =
    (0, starts none)
    ∷ (0, collective (Operations.allreduce (tensor_of 100 false ∷ []) Types.sum))
    ∷ []

block_calls_apart : one_thread_per_block (new_group machine 0 2 true) block_calls ≡ true
unfolding serve_all serve new_group loud method try_finally pure raise gets modify ◌>>=◌ emit elem
    Coalescing.start_coalescing Coalescing.start_block Coalescing.end_coalescing
    Coalescing.abort_coalescing Coalescing.abort_at Coalescing.unwind Plumbing.index_of
    Plumbing.ensure Plumbing.create_communicator Plumbing.initialize_collectives
    Plumbing.exchange_id Plumbing.call Plumbing.coalescing_open Plumbing.first_of Plumbing.is_cpu
    Plumbing.is_cpu_device Plumbing.same_device Plumbing.one_per_rank Plumbing.nccl_dtype
    Plumbing.nccl_red_op Staging.submit Staging.fr_tag Staging.fr_op Staging.fr_block_end
    Staging.begin Staging.record_tensors Staging.finish Staging.record_each Staging.stage_in
    Staging.stage_out Staging.result Staging.work Staging.new_like Collectives.unless_cpu
    Collectives.empty_flat Collectives.allreduce for_each for_all any Rooted.gather
    one_thread_per_block
block_calls_apart = refl

groups_follow_blocks_example :
    let g = serve_all (new_group machine 0 2 true) block_calls in
    depth 0 g.log
    ≡ (if is_some g.coalescing && Plumbing.is_same g.coalescing_thread 0 then 1 else 0)
groups_follow_blocks_example = groups_follow_blocks machine 0 2 true block_calls block_calls_apart 0

abbrev plain_calls : List (ℕ × Request)
plain_calls =
    (
      0,
      collective (
          Operations.gather ((tensor_of 101 true ∷ tensor_of 102 true ∷ []) ∷ [])
            (tensor_of 100 true ∷ []) 0),
    )
    ∷ (0, starts none)
    ∷ (0, collective (Operations.allreduce (tensor_of 100 false ∷ []) Types.sum))
    ∷ (0, ends none)
    ∷ []

never_at_once : (b : Bool) → not (b && false) ≡ true
never_at_once true = refl
never_at_once false = refl

plain_calls_allowed : no_rooted_in_blocks (new_group machine 0 2 true) plain_calls ≡ true
unfolding no_rooted_in_blocks new_group
plain_calls_allowed = rw (never_at_once _) refl

plain_calls_apart : one_thread_per_block (new_group machine 0 2 true) plain_calls ≡ true
unfolding serve_all serve new_group loud method try_finally pure raise gets modify ◌>>=◌ emit elem
    Coalescing.start_coalescing Coalescing.start_block Coalescing.end_coalescing
    Coalescing.abort_coalescing Coalescing.abort_at Coalescing.unwind Plumbing.index_of
    Plumbing.ensure Plumbing.create_communicator Plumbing.initialize_collectives
    Plumbing.exchange_id Plumbing.call Plumbing.coalescing_open Plumbing.first_of Plumbing.is_cpu
    Plumbing.is_cpu_device Plumbing.same_device Plumbing.one_per_rank Plumbing.nccl_dtype
    Plumbing.nccl_red_op Staging.submit Staging.fr_tag Staging.fr_op Staging.fr_block_end
    Staging.begin Staging.record_tensors Staging.finish Staging.record_each Staging.stage_in
    Staging.stage_out Staging.result Staging.work Staging.new_like Collectives.unless_cpu
    Collectives.empty_flat Collectives.allreduce for_each for_all any Rooted.gather
    one_thread_per_block Rooted.gather_by_sends Staging.with_group Rooted.recv_from_peers
    Staging.fence
plain_calls_apart = refl

copies_wait_for_submission_example :
    copies_safely 0 (serve_all (new_group machine 0 2 true) plain_calls).log ≡ true
copies_wait_for_submission_example =
    copies_wait_for_submission machine 0 2 true plain_calls plain_calls_apart plain_calls_allowed 0

-- The thread opens a block and then reduces nothing, which raises.
raised_in_block :
    (loud
      (method (Operations.allreduce [] Types.sum))
      (record (serve_all (new_group machine 0 2 true) ((0, starts none) ∷ [])) { caller = 0 })).0
    ≡ err Types.index_error
unfolding serve_all serve new_group loud method try_finally pure raise gets modify ◌>>=◌ emit elem
    Coalescing.start_coalescing Coalescing.start_block Coalescing.abort_coalescing
    Coalescing.abort_at Coalescing.unwind Plumbing.index_of Plumbing.ensure
    Plumbing.create_communicator Plumbing.initialize_collectives Plumbing.exchange_id Plumbing.call
    Plumbing.coalescing_open Collectives.allreduce Plumbing.first_of Staging.submit Staging.fr_tag
    Staging.fr_block_end Staging.begin Staging.record_tensors Staging.finish Staging.record_each
raised_in_block = refl

started_apart : one_thread_per_block (new_group machine 0 2 true) ((0, starts none) ∷ []) ≡ true
unfolding one_thread_per_block new_group
started_apart = refl

same_thread :
    is_block_thread (serve_all (new_group machine 0 2 true) ((0, starts none) ∷ [])) 0 ≡ true
unfolding serve_all serve new_group gets modify ◌>>=◌ Coalescing.start_coalescing
    Coalescing.start_block Plumbing.index_of Plumbing.ensure Plumbing.create_communicator
    Plumbing.initialize_collectives Plumbing.exchange_id Plumbing.call pure emit elem
    Plumbing.coalescing_open
same_thread = refl

raising_closes_groups_example :
    let g = serve_all (new_group machine 0 2 true) ((0, starts none) ∷ []) in
    let r = loud (method (Operations.allreduce [] Types.sum)) (record g { caller = 0 }) in
    (depth 0 r.1.log ≡ 0) × (is_some r.1.coalescing ≡ false)
raising_closes_groups_example =
    raising_closes_groups machine 0 2 true ((0, starts none) ∷ []) 0
      (Operations.allreduce [] Types.sum) Types.index_error started_apart same_thread
      raised_in_block 0

-- Another thread's call in an open block raises and ends the block, but the NCCL group of the thread
-- that opened it stays open.
other_thread_leaves_group_open :
    let g = serve_all (new_group machine 0 2 true) (
      (0, starts none)
      ∷ (1, collective (Operations.allreduce (tensor_of 100 true ∷ []) Types.sum))
      ∷ []) in
    (depth 0 g.log ≡ 1) × (g.coalescing ≡ none)
unfolding serve_all serve new_group loud method try_finally pure raise gets modify ◌>>=◌ emit elem
    Coalescing.start_coalescing Coalescing.start_block Coalescing.end_coalescing
    Coalescing.abort_coalescing Coalescing.abort_at Coalescing.unwind Plumbing.index_of
    Plumbing.ensure Plumbing.create_communicator Plumbing.initialize_collectives
    Plumbing.exchange_id Plumbing.call Plumbing.coalescing_open Plumbing.first_of Plumbing.is_cpu
    Plumbing.is_cpu_device Plumbing.same_device Plumbing.one_per_rank Plumbing.nccl_dtype
    Plumbing.nccl_red_op Staging.submit Staging.fr_tag Staging.fr_op Staging.fr_block_end
    Staging.begin Staging.record_tensors Staging.finish Staging.record_each Staging.stage_in
    Staging.stage_out Staging.result Staging.work Staging.new_like Collectives.unless_cpu
    Collectives.empty_flat Collectives.allreduce for_each for_all any Rooted.gather depth
other_thread_leaves_group_open = (refl, refl)

splits_divide_example :
    divides_all 2 (3 * 2) (AllToAll.splits 2 (some 3) (3 * 2) (pos 1 ∷ pos 2 ∷ [])) ≡ true
splits_divide_example = splits_divide 2 2 (some 3) (pos 1 ∷ pos 2 ∷ [])

-- With mojoccl, a gather in an open block copies out of the gathered buffer before the group that
-- writes it is submitted.
gather_in_block_reads_early :
    copies_safely 0
      (serve_all (new_group (record machine { uses_mojoccl = true }) 0 2 false) (
        (0, starts none)
        ∷ (
          0,
          collective (
              Operations.gather
                ((tensor_of 101 true ∷ tensor_of 102 true ∷ []) ∷ [])
                (tensor_of 100 true ∷ [])
                0),
        )
        ∷ [])).log
    ≡ false
unfolding serve_all serve new_group loud method try_finally pure raise gets modify ◌>>=◌ emit elem
    depth unsubmitted copies_safely Coalescing.start_coalescing Coalescing.start_block
    Coalescing.abort_coalescing Coalescing.abort_at Coalescing.unwind Plumbing.index_of
    Plumbing.ensure Plumbing.create_communicator Plumbing.initialize_collectives
    Plumbing.exchange_id Plumbing.call Plumbing.coalescing_open Plumbing.first_of Plumbing.is_cpu
    Plumbing.is_cpu_device Plumbing.same_device Plumbing.one_per_rank Plumbing.nccl_dtype
    Staging.submit Staging.fr_tag Staging.fr_op Staging.fr_block_end Staging.begin
    Staging.record_tensors Staging.finish Staging.record_each Staging.stage_in Staging.stage_out
    Staging.result Staging.work Staging.new_like Collectives.unless_cpu Collectives.empty_flat
    for_each for_all any Rooted.gather Rooted.gather_by_all_gather
gather_in_block_reads_early = refl
