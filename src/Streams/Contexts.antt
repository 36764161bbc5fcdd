-- ===== src/Streams/Contexts.antt =====
-- torch_mojo_backend/torch_compile_backend/streams.py: the streams at run time. A stream is a number;
-- of a process the model has the stack of streams that were entered, the context variable
-- ACTIVE_STREAM_CONTEXTS and the waits between streams, newest last.
use torch_mojo_backend.Prelude.{
  ℕ, zero, suc, Bool, true, false, not, Option, none, some, List, [], ◌∷◌, ◌++◌, map, ◌==◌, ltb,
  if◌then◌else◌, any, is_empty, length,
}
use torch_mojo_backend.Prelude.Sets.{first_of_each}
use torch_mojo_backend.Streams.{same_indices}

-- torch's answers: the device of a stream, the stream that is current where none was entered, the
-- stream under an index (none: no stream), whether the index table exists, and whether entering a
-- stream succeeds.
pub record Torch : Type 0 where
  pub device_of : ℕ → ℕ
  pub ambient : ℕ → ℕ
  pub has_table : Bool
  pub object_at : ℕ → Option ℕ
  pub enters : ℕ → Bool

pub record Process : Type 0 where
  pub active : List ℕ
  pub contexts : List (List ℕ)
  pub waits : List (ℕ × ℕ)

-- `current_stream`
unfoldable pub current_stream : Torch → List ℕ → ℕ → ℕ
current_stream t [] device = t.ambient device
current_stream t (s ∷ active) device =
    let outer = current_stream t active device in if t.device_of s == device then s else outer

unfoldable pub joined : List (List ℕ) → List ℕ
joined [] = []
joined (streams ∷ contexts) = streams ++ joined contexts

-- `_streams_of`
unfoldable pub streams_of : List (List ℕ) → List ℕ
unfolding joined first_of_each
streams_of contexts = first_of_each [] (joined contexts)

-- The loops of the two functions below, which differ in who waits.
unfoldable pub waits_on_current : Torch → List ℕ → List ℕ → List (ℕ × ℕ)
unfolding current_stream
waits_on_current t active [] = []
waits_on_current t active (s ∷ streams) =
    let rest = waits_on_current t active streams in
    let current = current_stream t active (t.device_of s) in
    if not (current == s) then (current, s) ∷ rest else rest

-- `wait_for_contexts`: the pairs (who waits, for whom)
unfoldable pub wait_for_contexts : Torch → List (List ℕ) → Process → Process
unfolding waits_on_current streams_of
wait_for_contexts t contexts p = record p {
  waits = p.waits ++ waits_on_current t p.active (streams_of contexts);
}

-- `publish_to_contexts`
unfoldable pub publish_to_contexts : Torch → List (List ℕ) → Process → Process
unfolding waits_on_current streams_of
publish_to_contexts t contexts p = record p {
  waits = p.waits ++ map (λ w. (w.1, w.0)) (waits_on_current t p.active (streams_of contexts));
}

pub data StreamError : Type 0 where
  needs_newer_torch not_a_stream enter_failed body_failed : StreamError

-- `get_external_object_by_index` for every index
unfoldable pub objects : Torch → List ℕ → Option (List ℕ)
objects t [] = some []
objects t (i ∷ is) = elim (t.object_at i) [
  | none ↦ none
  | some s ↦ elim (objects t is) [ none ↦ none | some ss ↦ some (s ∷ ss) ]
]

pub data Resolved : Type 0 where
  resolved : List ℕ → Resolved
  unresolved : StreamError → Resolved

abbrev pub or_not_a_stream : Option (List ℕ) → Resolved
or_not_a_stream none = unresolved not_a_stream
or_not_a_stream (some streams) = resolved streams

-- `resolve_streams`
unfoldable pub resolve_streams : Torch → List ℕ → Resolved
unfolding objects
resolve_streams t indices =
    if is_empty indices
    then resolved []
    else if not t.has_table
    then unresolved needs_newer_torch
    else or_not_a_stream (objects t indices)

-- `ExitStack.close`: the streams that this stack entered are left.
unfoldable pub close : ℕ → List ℕ → List ℕ
close zero active = active
close (suc n) [] = []
close (suc n) (s ∷ active) = close n active

-- `enter_streams`: whether it returns, how many streams the stack that it returns has entered, and
-- the streams that are active then
unfoldable pub enter_from : Torch → List ℕ → ℕ → List ℕ → Bool × (ℕ × List ℕ)
unfolding close
enter_from t [] n active = (true, (n, active))
enter_from t (s ∷ streams) n active = elim (t.enters s) [
  | true ↦ enter_from t streams (suc n) (s ∷ active)
  | false ↦ (false, (0, close n active))
]

unfoldable pub enter_streams : Torch → List ℕ → List ℕ → Bool × (ℕ × List ℕ)
unfolding enter_from
enter_streams t streams active = enter_from t streams 0 active

pub data Outcome : Type 0 where
  returned : Outcome
  raised : StreamError → Outcome

-- A graph's call: anything that it does to the process.
abbrev pub Body : Type 0
Body = Process → Outcome × Process

abbrev pub in_context : Body → Process → Bool × (ℕ × List ℕ) → Outcome × Process
in_context body p (true, (n, active)) =
    let (o, q) = body (record p { active = active }) in (o, record q { active = close n q.active })
in_context body p (false, (n, active)) = (raised enter_failed, record p { active = active })

abbrev pub forward_on : Torch → Body → Process → Resolved → Outcome × Process
forward_on t body p (unresolved e) = (raised e, p)
forward_on t body p (resolved streams) = in_context body p (enter_streams t streams p.active)

-- `_StreamRegion.forward`, with `_run` as an argument
unfoldable pub forward : Torch → List ℕ → Body → Process → Outcome × Process
unfolding enter_streams resolve_streams
forward t indices run p = forward_on t run p (resolve_streams t indices)

-- `tuple(resolve_streams(indices) for indices in self.context_indices)`
pub data AllResolved : Type 0 where
  all_resolved : List (List ℕ) → AllResolved
  some_unresolved : StreamError → AllResolved

abbrev pub with_first : Resolved → AllResolved → AllResolved
with_first (unresolved e) rest = some_unresolved e
with_first (resolved s) (some_unresolved e) = some_unresolved e
with_first (resolved s) (all_resolved ss) = all_resolved (s ∷ ss)

unfoldable pub resolve_all : Torch → List (List ℕ) → AllResolved
unfolding resolve_streams
resolve_all t [] = all_resolved []
resolve_all t (indices ∷ context_indices) =
    with_first (resolve_streams t indices) (resolve_all t context_indices)

-- `dict.fromkeys` on tuples
unfoldable pub distinct_contexts : List (List ℕ) → List (List ℕ) → List (List ℕ)
unfolding any same_indices
distinct_contexts seen [] = []
distinct_contexts seen (c ∷ cs) = elim (any (same_indices c) seen) [
  | true ↦ distinct_contexts seen cs
  | false ↦ c ∷ distinct_contexts (c ∷ seen) cs
]

abbrev pub publish_if_returned : Torch → List (List ℕ) → Outcome → Process → Outcome × Process
publish_if_returned t contexts (raised e) p = (raised e, p)
publish_if_returned t contexts returned p =
    (returned, if ltb 1 (length contexts) then publish_to_contexts t contexts p else p)

abbrev pub run_with : Torch → Body → Process → AllResolved → Outcome × Process
run_with t compiled p (some_unresolved e) = (raised e, p)
run_with t compiled p (all_resolved contexts) =
    let (o, q) = compiled (record p { contexts = distinct_contexts [] ([] ∷ contexts) }) in
    publish_if_returned t contexts o (record q { contexts = p.contexts })

-- `_CompiledRegion._run`
unfoldable pub run_compiled : Torch → List (List ℕ) → Body → Process → Outcome × Process
unfolding resolve_all distinct_contexts publish_to_contexts
run_compiled t context_indices compiled p = run_with t compiled p (resolve_all t context_indices)
