-- ===== src/ProcessGroup/Staging.antt =====
-- Staging buffers, fences, NCCL groups, and what a coalescing block defers.
use Prim.Native.Nat.{bit_or}
use torch_mojo_backend.Prelude.{
  ℕ, ◌+◌, ◌^◌, Bool, true, not, Option, none, some, List, [], ◌∷◌, ◌++◌, ◌==◌, if◌then◌else◌, any,
  is_empty,
}
use torch_mojo_backend.ProcessGroup.Types.{Tensor, Call, Event, Work, stream_work}
use torch_mojo_backend.ProcessGroup.Monad.{
  ok, M, pure, gets, modify, ◌>>=◌, ◌>>◌, try_finally, for_all, emit,
}
use torch_mojo_backend.ProcessGroup.Plumbing.{call, coalescing_open, is_same}

-- A new dense buffer of the tensor's size and type.
unfoldable pub new_like : Tensor → M Tensor
new_like t g = (
  ok (record t {
    object = g.fresh;
    storage = g.fresh;
    ptr = g.env.address_of g.fresh;
    is_contiguous = true;
  }),
  record g { fresh = g.fresh + 1 },
)

-- `_stage_in`
unfoldable pub stage_in : ℕ → Tensor → M Tensor
stage_in index t = if t.is_contiguous then pure t else (do
  emit (Event.comm_waits index)
  staged ← new_like t
  emit (Event.dense_copy index t.storage staged.storage)
  pure staged)

-- `_stage_out`
unfoldable pub stage_out : ℕ → Tensor → M Tensor
stage_out index t =
    if t.is_contiguous
    then pure t
    else (do staged ← new_like t; emit (Event.allocate index staged.storage); pure staged)

-- The loop of `_record`: a contiguous input is its own staging buffer, and is recorded once.
unfoldable pub record_each : ℕ → Option ℕ → List Tensor → M (Unit {0})
record_each index previous [] = pure tt
record_each index previous (t ∷ ts) =
    (if is_same previous t.object then pure tt else emit (Event.record_stream index t.storage))
    >>= λ _. record_each index (some t.object) ts

-- `_record`
unfoldable pub record_tensors : ℕ → List Tensor → M (Unit {0})
record_tensors index tensors = do
  inside ← coalescing_open
  if inside
      then modify (λ g. record g { coalesced_records = g.coalesced_records ++ tensors })
      else record_each index none tensors

abbrev pub is_staged : Tensor × Tensor → Bool
is_staged (t, staged) = not (staged.object == t.object)

unfoldable pub copy_back : ℕ → Tensor × Tensor → M (Unit {0})
copy_back index (t, staged) =
    if is_staged (t, staged)
    then (do
      emit (Event.copy index staged.storage t.storage)
      emit (Event.record_stream index staged.storage))
    else pure tt

unfoldable pub fence : ℕ → Tensor × Tensor → M (Unit {0})
fence index (t, staged) = emit (Event.record_stream index t.storage)

-- `_finish`
unfoldable pub finish : ℕ → List (Tensor × Tensor) → M (Unit {0})
finish index pairs = do
  inside ← coalescing_open
  if inside then modify (λ g. record g { coalesced_pairs = g.coalesced_pairs ++ pairs }) else (do
    if any is_staged pairs then for_all (copy_back index) pairs else pure tt
    for_all (fence index) pairs)

-- `_work`: the Work's event is recorded on the comm stream.
unfoldable pub work : ℕ → List Tensor → M Work
work index tensors = do emit (Event.record_event index); pure (stream_work index tensors)

-- `_result`
unfoldable pub result : ℕ → List Tensor → M Work
result index tensors = do
  inside ← coalescing_open
  if inside
      then modify (λ g. record g { coalesced_tensors = g.coalesced_tensors ++ tensors })
      else pure tt
  work index tensors

unfoldable pub fr_tag : M ℕ
fr_tag = gets λ g. g.tag

-- `_core.group_end` with the caller's tag
unfoldable pub submit : M (Unit {0})
submit = do tag ← fr_tag; call (Call.group_end tag)

-- `with self._group()`
unfoldable pub with_group : {A : Type 0} → M A → M A
with_group body = do
  inside ← coalescing_open
  if inside then body else (do call Call.group_start; try_finally body submit)

-- The bits of a tag word.
abbrev pub tag_member : ℕ
tag_member = 2 ^ 40

abbrev pub tag_first : ℕ
tag_first = 2 ^ 41

abbrev pub tag_end : ℕ
tag_end = 2 ^ 42

abbrev pub tag_p2p : ℕ
tag_p2p = 2 ^ 43

-- `Recorder.begin`, with the record it keeps left to the recorder
unfoldable pub begin : ℕ → M (Unit {0})
begin flags g = (
  ok tt,
  record g {
    tag = bit_or g.next_tag flags;
    next_tag = g.next_tag + 1;
    log = Event.describe g.next_tag ∷ g.log;
  },
)

abbrev pub in_block : Option (List Bool) → Bool → ℕ → Bool → ℕ
in_block none here flags p2p = flags
in_block (some block) here flags p2p =
    if here
    then (if is_empty block
        then bit_or (bit_or flags tag_member) tag_first
        else bit_or flags tag_member)
    else flags

abbrev pub grown : Option (List Bool) → Bool → Bool → Option (List Bool)
grown none here p2p = none
grown (some block) here p2p = some (if here then block ++ p2p ∷ [] else block)

-- `_fr_op`
unfoldable pub fr_op : Bool → M (Unit {0})
fr_op p2p g =
    let here = is_same g.coalescing_thread g.caller in
    let flags = in_block g.fr_block here (if p2p then tag_p2p else 0) p2p in
    if g.records_flight
    then begin flags (record g { fr_block = grown g.fr_block here p2p })
    else (ok tt, g)

abbrev pub ends_with : Bool → Option (List Bool) → M (Unit {0})
ends_with true (some block) = begin (bit_or tag_end (if any (λ p. p) block then tag_p2p else 0))
ends_with _ _ = pure tt

-- `_fr_block_end`
unfoldable pub fr_block_end : M (Unit {0})
fr_block_end g = ends_with g.records_flight g.fr_block (record g { fr_block = none })
