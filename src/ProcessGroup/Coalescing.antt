-- ===== src/ProcessGroup/Coalescing.antt =====
-- Coalescing blocks (`_coalescing_manager`, `batch_isend_irecv`), and the wrapper of every
-- collective, which unwinds the block of a call that raises.
use torch_mojo_backend.Prelude.{Bool, true, false, ℕ, Option, none, some, [], is_some, get_or}
use torch_mojo_backend.ProcessGroup.Types.{Tensor, Call, Event, Group, Work}
use torch_mojo_backend.ProcessGroup.Types
use torch_mojo_backend.ProcessGroup.Monad.{
  Result, ok, err, M, pure, raise, gets, modify, ◌>>=◌, ◌>>◌, try_finally,
}
use torch_mojo_backend.ProcessGroup.Plumbing.{call, ensure, index_of}
use torch_mojo_backend.ProcessGroup.Staging.{record_tensors, finish, work, submit, fr_block_end}

abbrev pub enter : ℕ → Group → Group
enter index g = record g {
  coalescing = some index;
  coalescing_thread = some g.caller;
  coalesced_tensors = [];
  coalesced_records = [];
  coalesced_pairs = [];
  fr_block = some [];
}

-- `_start_coalescing`, where a block is open and where none is
unfoldable pub start_block : Bool → Option ℕ → M (Unit {0})
start_block true device = raise Types.blocks_do_not_nest
start_block false device = do
  index ← index_of device
  ensure index
  call Call.group_start
  modify (enter index)

-- `_start_coalescing`, with the device's index
unfoldable pub start_coalescing : Option ℕ → M (Unit {0})
start_coalescing device g = start_block (is_some g.coalescing) device g

-- The block's state is taken out of the group before anything of it is used.
abbrev pub leave : Group → Group
leave g = record g {
  coalescing = none;
  coalescing_thread = none;
  coalesced_tensors = [];
  coalesced_records = [];
  coalesced_pairs = [];
}

abbrev pub clear_tag : M (Unit {0})
clear_tag = modify (λ g. record g { tag = 0 })

-- `_end_coalescing`, with the device's index
unfoldable pub end_coalescing : Option ℕ → M Work
end_coalescing device = do
  fallback ← index_of device
  index ← gets (λ g. get_or g.coalescing fallback)
  tensors ← gets (λ g. g.coalesced_tensors)
  records ← gets (λ g. g.coalesced_records)
  pairs ← gets (λ g. g.coalesced_pairs)
  modify leave
  fr_block_end
  try_finally submit clear_tag
  record_tensors index records
  finish index pairs
  work index tensors

-- `except Exception`: what was done stays done, and the exception is dropped.
abbrev pub swallow : M (Unit {0}) → M (Unit {0})
swallow m g = (ok tt, (m g).1)

-- What `_abort_coalescing` does with an open block on `index`.
unfoldable pub unwind : ℕ → M (Unit {0})
unwind index = do
  records ← gets (λ g. g.coalesced_records)
  pairs ← gets (λ g. g.coalesced_pairs)
  modify leave
  swallow (do fr_block_end; submit; record_tensors index records; finish index pairs)

unfoldable pub abort_at : Option ℕ → M (Unit {0})
abort_at none = pure tt
abort_at (some index) = unwind index

-- `_abort_coalescing`
unfoldable pub abort_coalescing : M (Unit {0})
abort_coalescing g = abort_at g.coalescing g

abbrev pub unwound : {A : Type 0} → Result A → M A
unwound (ok a) = pure a
unwound (err e) = do abort_coalescing; raise e

-- `_loud`: the wrapper of every collective
unfoldable pub loud : {A : Type 0} → M A → M A
loud method = try_finally (λ g. let (r, g') = method g in unwound r g') clear_tag
