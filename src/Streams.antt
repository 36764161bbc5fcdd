-- ===== src/Streams.antt =====
-- torch_mojo_backend/torch_compile_backend/streams.py: the cut of a captured graph into regions,
-- `compile_stream_graph`. Of a node the model has what that function reads.
mod Keys
pub mod Runs
pub mod Contexts
pub mod Fences
use torch_mojo_backend.Prelude.{
  ℕ, suc, ◌-◌, Bool, true, false, not, ◌&&◌, ◌||◌, Option, none, some, List, [], ◌∷◌, ◌++◌, map,
  ◌==◌, if◌then◌else◌, any, all, is_empty, keep,
}

-- The values of `node.op` that are told apart.
pub data Op : Type 0 where
  placeholder get_attr output call : Op

-- `stream_object`: the example value is a stream or an event; `stream_input`: that of an input is;
-- `streams_target`: the target's name starts with "streams."; `tensor_grads`: `requires_grad` of the
-- tensors of the example value; `contexts` and `stream`: the custom entries "torch_mojo_streams" and
-- "stream".
pub record Node : Type 0 where
  pub op : Op
  pub stream_object : Bool
  pub stream_input : Bool
  pub streams_target : Bool
  pub tensor_grads : List Bool
  pub contexts : Option (List ℕ)
  pub stream : Option ℕ

-- `_is_orchestration`
unfoldable pub is_orchestration : Node → Bool
is_orchestration n = n.stream_object || (n.stream_input || n.streams_target)

abbrev pub one_index : Option ℕ → List ℕ
one_index none = []
one_index (some i) = i ∷ []

abbrev pub indices_of : Option (List ℕ) → Option ℕ → List ℕ
indices_of (some contexts) stream = contexts
indices_of none stream = one_index stream

-- `stream_indices`
unfoldable pub stream_indices : Node → List ℕ
stream_indices n = indices_of n.contexts n.stream

-- `uses_streams`
unfoldable pub uses_streams : List Node → Bool
unfolding any stream_indices is_orchestration
uses_streams nodes = any (λ n. not (is_empty (stream_indices n)) || is_orchestration n) nodes

-- Whether a node is one of a region.
abbrev pub computes : Op → Bool
computes call = true
computes _ = false

-- `training`
unfoldable pub is_training : List Node → Bool
unfolding any
is_training nodes = any (λ n. any (λ g. g) n.tensor_grads) nodes

-- `key = (control, stream_indices(node) if control or training else ())`
pub record Key : Type 0 where
  pub control : Bool
  pub indices : List ℕ

unfoldable pub key_of : Bool → Node → Key
unfolding is_orchestration stream_indices
key_of training n = record {
  control = is_orchestration n;
  indices = if is_orchestration n || training then stream_indices n else [];
}

unfoldable pub same_indices : List ℕ → List ℕ → Bool
same_indices [] [] = true
same_indices [] (j ∷ js) = false
same_indices (i ∷ is) [] = false
same_indices (i ∷ is) (j ∷ js) = i == j && same_indices is js

abbrev pub same_bool : Bool → Bool → Bool
same_bool true b = b
same_bool false b = not b

-- `key == previous`
unfoldable pub same_key : Key → Key → Bool
unfolding same_indices
same_key a b = same_bool a.control b.control && same_indices a.indices b.indices

abbrev pub is_previous : Key → Option Key → Bool
is_previous k none = false
is_previous k (some p) = same_key k p

-- `regions[partition] = key`
unfoldable pub put : ℕ → Key → List (ℕ × Key) → List (ℕ × Key)
put i k [] = (i, k) ∷ []
put i k ((j, k') ∷ regions) =
    let rest = put i k regions in if i == j then (i, k) ∷ regions else (j, k') ∷ rest

-- The loop's variables. `count` is `partition` + 1; `partitions` has the partition of each node
-- that was met, in the order of the graph.
pub record Numbering : Type 0 where
  pub count : ℕ
  pub previous : Option Key
  pub partitions : List ℕ
  pub regions : List (ℕ × Key)

-- The loop's body at a node whose key is known.
unfoldable pub place : Key → Numbering → Numbering
unfolding same_key put
place k s =
    let count = if k.control || not (is_previous k s.previous) then suc s.count else s.count in
    record {
      count = count;
      previous = if k.control then none else some k;
      partitions = s.partitions ++ ((count - 1) ∷ []);
      regions = put (count - 1) k s.regions;
    }

abbrev pub visit : Bool → Numbering → Node → Numbering
visit training s n = if computes n.op then place (key_of training n) s else s

unfoldable pub visit_all : Bool → List Node → Numbering → Numbering
unfolding place key_of
visit_all training [] s = s
visit_all training (n ∷ nodes) s = visit_all training nodes (visit training s n)

-- `partitions` and `regions` of `compile_stream_graph`
unfoldable pub number_regions : List Node → Numbering
unfolding visit_all is_training
number_regions nodes =
    visit_all (is_training nodes) nodes
      (record { count = 0; previous = none; partitions = []; regions = [] })
