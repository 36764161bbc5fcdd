-- ===== src/ProcessGroup/Plumbing.antt =====
-- What every collective is built from: dtype and operator codes, communicators, staging buffers,
-- NCCL groups and the flight recorder's tag.
use torch_mojo_backend.Prelude.{
  ℕ, ◌+◌, Bool, true, false, not, ◌&&◌, Option, none, some, List, [], ◌∷◌, ◌==◌, if◌then◌else◌, any,
  get_or, length,
}
use torch_mojo_backend.Prelude.Sets.{elem}
use torch_mojo_backend.ProcessGroup.Types.{
  Device, cpu, mojo, other, Dtype, ReduceOp, Tensor, Error, Buffer, Call, Event, Api, Env, Group,
  Work, stream_work,
}
use torch_mojo_backend.ProcessGroup.Types
use torch_mojo_backend.ProcessGroup.Monad.{
  Result, ok, err, M, pure, raise, gets, modify, ◌>>=◌, ◌>>◌, check, emit,
}

-- `_NCCL_DTYPE_OF`, with the ncclDataType_t values of nccl.py
abbrev pub nccl_dtype_of : Dtype → Option ℕ
nccl_dtype_of Dtype.int8 = some 0
nccl_dtype_of Dtype.uint8 = some 1
nccl_dtype_of Dtype.boolean = some 1
nccl_dtype_of Dtype.int32 = some 2
nccl_dtype_of Dtype.uint32 = some 3
nccl_dtype_of Dtype.int64 = some 4
nccl_dtype_of Dtype.uint64 = some 5
nccl_dtype_of Dtype.float16 = some 6
nccl_dtype_of Dtype.float32 = some 7
nccl_dtype_of Dtype.float64 = some 8
nccl_dtype_of Dtype.bfloat16 = some 9
nccl_dtype_of _ = none

abbrev pub or_raise : {A : Type 0} → Option A → Error → M A
or_raise none e = raise e
or_raise (some a) e = pure a

unfoldable pub nccl_dtype : Dtype → M ℕ
nccl_dtype d = or_raise (nccl_dtype_of d) Types.dtype_unsupported

-- `_nccl_red_op`: bool reduces as uint8, so a sum is a maximum and a product a minimum.
abbrev pub red_op_of_bool : ReduceOp → Option ℕ
red_op_of_bool Types.sum = some 2
red_op_of_bool Types.maximum = some 2
red_op_of_bool Types.product = some 3
red_op_of_bool Types.minimum = some 3
red_op_of_bool _ = none

abbrev pub red_op_of : ReduceOp → Option ℕ
red_op_of Types.sum = some 0
red_op_of Types.product = some 1
red_op_of Types.maximum = some 2
red_op_of Types.minimum = some 3
red_op_of Types.avg = some 4
red_op_of _ = none

unfoldable pub nccl_red_op : ReduceOp → Dtype → M ℕ
nccl_red_op op Dtype.boolean = or_raise (red_op_of_bool op) Types.op_unsupported_for_bool
nccl_red_op op _ = or_raise (red_op_of op) Types.op_unsupported

-- `self._core.check(self._core.…(…), …)`
unfoldable pub call : Call → M (Unit {0})
call c g =
    let r = g.env.succeeds g.log c in
    (
      if r then ok tt else err Types.native_failed,
      record g { log = Event.native g.caller c r ∷ g.log },
    )

abbrev pub is_same : Option ℕ → ℕ → Bool
is_same none me = false
is_same (some t) me = t == me

abbrev pub open_here : Option ℕ → Option ℕ → ℕ → Result Bool
open_here none t me = ok false
open_here (some index) t me = if is_same t me then ok true else err Types.block_on_other_thread

-- `_coalescing_open`
unfoldable pub coalescing_open : M Bool
coalescing_open g = (open_here g.coalescing g.coalescing_thread g.caller, g)

unfoldable pub is_cpu_device : Device → M Bool
is_cpu_device cpu = pure true
is_cpu_device (mojo index) = pure false
is_cpu_device (other kind) = raise Types.other_device_type

-- `_is_cpu`
unfoldable pub is_cpu : Tensor → M Bool
is_cpu t = is_cpu_device t.device

unfoldable pub index_of : Option ℕ → M ℕ
index_of index = gets λ g. get_or index g.env.current_device

abbrev pub index_in : Device → Option ℕ
index_in (mojo index) = index
index_in _ = none

abbrev pub same_index : Option ℕ → Option ℕ → Bool
same_index none none = true
same_index (some a) (some b) = a == b
same_index _ _ = false

abbrev pub same_torch_device : Device → Device → Bool
same_torch_device cpu cpu = true
same_torch_device (mojo a) (mojo b) = same_index a b
same_torch_device (other a) (other b) = a == b
same_torch_device _ _ = false

-- `_same_device`
unfoldable pub same_device : List Tensor → M ℕ
same_device [] = raise Types.no_tensors
same_device (first ∷ rest) = do
  on_cpu ← is_cpu first
  check (not on_cpu) Types.devices_differ
  check
      (not (
        any (λ t. not (t.object == first.object) && not (same_torch_device t.device first.device))
          rest))
      Types.devices_differ
  index_of (index_in first.device)

-- `_one_per_rank`
unfoldable pub one_per_rank : List Tensor → M (Unit {0})
one_per_rank tensors = check (length tensors == 1) Types.not_one_tensor

-- `tensors[0]`
unfoldable pub first_of : {A : Type 0} → List A → M A
first_of [] = raise Types.index_error
first_of (a ∷ rest) = pure a

-- `_initialize_collectives`, up to the start of the watchdog
unfoldable pub initialize_collectives : M (Unit {0})
initialize_collectives = do
  env ← gets (λ g. g.env)
  check env.is_x86_64 Types.machine_unsupported
  check env.loads Types.library_not_loaded
  modify (λ g. record g { has_handle = true })
  check env.watchdog_starts Types.native_failed

abbrev pub has_nccl : Api → Bool
has_nccl Types.metal = false
has_nccl _ = true

-- The unique id of a communicator: rank 0 makes it, the others read it.
unfoldable pub exchange_id : ℕ → M (Unit {0})
exchange_id key = do
  rank ← gets (λ g. g.rank)
  env ← gets (λ g. g.env)
  if rank == 0
      then (do call Call.unique_id; emit (Event.store_set key))
      else (do emit (Event.store_get key); check env.unique_id_fits Types.bad_unique_id)

unfoldable pub create_communicator : ℕ → M (Unit {0})
create_communicator index = do
  inside ← coalescing_open
  check (not inside) Types.communicator_in_block
  env ← gets (λ g. g.env)
  check (has_nccl (env.api_of index)) Types.api_unsupported
  has_handle ← gets (λ g. g.has_handle)
  if has_handle then pure tt else initialize_collectives
  seq ← gets (λ g. g.seq)
  modify (λ g. record g { seq = seq + 1 })
  exchange_id seq
  call (Call.init_device index)
  modify (λ g. record g { ready = index ∷ g.ready })

-- `_ensure`
unfoldable pub ensure : ℕ → M (Unit {0})
ensure index = do
  exists ← gets (λ g. elem index g.ready)
  if exists then pure tt else create_communicator index
