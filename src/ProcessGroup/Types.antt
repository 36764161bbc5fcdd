-- ===== src/ProcessGroup/Types.antt =====
-- The values that process_group.py handles, and the state of a `MojoProcessGroup`. What a method
-- does to streams, to the native core and to the c10d store is a log of events; the answers of the
-- native core, which issues NCCL calls, are part of the environment.
use torch_mojo_backend.Prelude.{
  ◌+◌, ℕ, ◌-◌, Bool, true, not, ◌&&◌, ◌||◌, Option, List, [], ◌∷◌, ◌++◌, ◌==◌, leb, if◌then◌else◌,
}
use torch_mojo_backend.Prelude.Sets.{elem}

pub data Device : Type 0 where
  cpu : Device
  mojo : Option ℕ → Device
  other : ℕ → Device

pub data Dtype : Type 0 where
  int8 uint8 boolean int16 int32 uint32 int64 uint64 float16 float32 float64 bfloat16 : Dtype
  complex64 complex128 float8_e4m3fn float8_e5m2 : Dtype

pub data ReduceOp : Type 0 where
  sum product maximum minimum avg unsupported : ReduceOp

-- What the collectives read of a tensor: `object` is its identity (`is`), `storage` names the memory it views, `ptr` is
-- `data_ptr()`, `rows` is `shape[0]`, or `none` for a 0-d tensor.
pub record Tensor : Type 0 where
  pub object : ℕ
  pub storage : ℕ
  pub ptr : ℕ
  pub device : Device
  pub dtype : Dtype
  pub item_size : ℕ
  pub numel : ℕ
  pub rows : Option ℕ
  pub is_contiguous : Bool

pub data Error : Type 0 where
  dtype_unsupported op_unsupported op_unsupported_for_bool : Error
  index_error other_device_type not_one_tensor no_tensors devices_differ : Error
  blocks_do_not_nest block_on_other_thread communicator_in_block : Error
  machine_unsupported api_unsupported library_not_loaded bad_unique_id native_failed : Error
  root_tensor_not_zero size_mismatch dtype_mismatch wrong_count uneven_split : Error

-- A buffer as the native core is given it: address, element count and ncclDataType_t.
pub record Buffer : Type 0 where
  pub address : ℕ
  pub count : ℕ
  pub nccl_dtype : ℕ
  pub memory : ℕ

-- The entries of the native core. The device index comes first, the flight recorder's tag last.
pub data Call : Type 0 where
  group_start : Call
  group_end : ℕ → Call
  unique_id : Call
  init_device : ℕ → Call
  synchronize_comm : ℕ → Call
  all_reduce : ℕ → Buffer → ℕ → ℕ → Call
  broadcast_from : ℕ → Buffer → ℕ → ℕ → Call
  reduce_to : ℕ → Buffer → ℕ → ℕ → ℕ → Call
  all_gather : ℕ → Buffer → Buffer → ℕ → Call
  reduce_scatter_to : ℕ → Buffer → Buffer → ℕ → ℕ → Call
  send_to : ℕ → Buffer → ℕ → ℕ → Call
  recv_from : ℕ → Buffer → ℕ → ℕ → Call

-- The memory that a call writes once it is submitted.
abbrev pub writes : Call → List ℕ
writes (all_reduce index b op tag) = b.memory ∷ []
writes (broadcast_from index b root tag) = b.memory ∷ []
writes (reduce_to index b op root tag) = b.memory ∷ []
writes (all_gather index src dst tag) = dst.memory ∷ []
writes (reduce_scatter_to index src dst op tag) = dst.memory ∷ []
writes (recv_from index b peer tag) = b.memory ∷ []
writes _ = []

-- What a method does, in order: a native call by `thread` and whether it succeeded, and what it
-- enqueues on the comm stream of a device.
pub data Event : Type 0 where
  native : (thread : ℕ) → Call → Bool → Event
  comm_waits : ℕ → Event
  dense_copy : (index src dst : ℕ) → Event
  allocate : (index dst : ℕ) → Event
  concatenate : (index : ℕ) → List ℕ → (dst : ℕ) → Event
  copy : (index src dst : ℕ) → Event
  record_stream : (index storage : ℕ) → Event
  record_event : ℕ → Event
  synchronize : ℕ → Event
  store_set store_get : ℕ → Event
  describe : ℕ → Event
  gloo : Event

-- NCCL groups that a thread has open after these events, newest first. A failed start opens none; an
-- end closes the group of the thread that calls it, whether it succeeds or not.
unfoldable pub depth : (thread : ℕ) → List Event → ℕ
depth u [] = 0
depth u (native t group_start true ∷ log) = depth u log + (if u == t then 1 else 0)
depth u (native t (group_end tag) r ∷ log) = depth u log - (if u == t then 1 else 0)
depth u (e ∷ log) = depth u log

-- The memory that the calls in a thread's open group will write when it is submitted. Groups nest, and
-- the outermost end submits.
unfoldable pub unsubmitted : (thread : ℕ) → List Event → List ℕ
unfolding depth
unsubmitted u [] = []
unsubmitted u (native t group_start true ∷ log) =
    let before = unsubmitted u log in if u == t && depth u log == 0 then [] else before
unsubmitted u (native t (group_end tag) r ∷ log) =
    let before = unsubmitted u log in if u == t && leb (depth u log) 1 then [] else before
unsubmitted u (native t c true ∷ log) =
    let before = unsubmitted u log in if u == t then writes c ++ before else before
unsubmitted u (e ∷ log) = unsubmitted u log

-- No `copy_` (not: the dense copy or the concatenation that prepares an argument) reads what a call in
-- the thread's open group has still to write.
unfoldable pub copies_safely : (thread : ℕ) → List Event → Bool
unfolding depth unsubmitted elem
copies_safely u [] = true
copies_safely u (copy index src dst ∷ log) =
    (depth u log == 0 || not (elem src (unsubmitted u log))) && copies_safely u log
copies_safely u (e ∷ log) = copies_safely u log

pub data Api : Type 0 where
  cuda hip metal : Api

-- What the methods find outside this file: the machine, the devices, the library that loads, the
-- unique id in the store, where new memory lies, and the native core's answer to a call after what
-- was done before.
pub record Env : Type 0 where
  pub current_device : ℕ
  pub api_of : ℕ → Api
  pub is_x86_64 : Bool
  pub loads : Bool
  pub watchdog_starts : Bool
  pub unique_id_fits : Bool
  pub uses_mojoccl : Bool
  pub address_of : ℕ → ℕ
  pub succeeds : List Event → Call → Bool

-- The fields of a `MojoProcessGroup`. `caller` is the thread that runs the method, `tag` its tag
-- word; `ready` has the devices with a communicator, newest first; `fresh` is the next storage.
pub record Group : Type 0 where
  pub env : Env
  pub caller : ℕ
  pub rank : ℕ
  pub size : ℕ
  pub has_handle : Bool
  pub seq : ℕ
  pub ready : List ℕ
  pub coalescing : Option ℕ
  pub coalescing_thread : Option ℕ
  pub coalesced_tensors : List Tensor
  pub coalesced_records : List Tensor
  pub coalesced_pairs : List (Tensor × Tensor)
  pub records_flight : Bool
  pub fr_block : Option (List Bool)
  pub tag : ℕ
  pub next_tag : ℕ
  pub fresh : ℕ
  pub log : List Event

pub data Work : Type 0 where
  stream_work : ℕ → List Tensor → Work
  gloo_work : Work
