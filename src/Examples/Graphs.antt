-- ===== src/Examples/Graphs.antt =====
-- The compiled graphs at concrete inputs.
use torch_mojo_backend.Prelude.{
  ℕ, zero, suc, ◌+◌, ◌*◌, ◌≡◌, ◌↔◌, refl, true, false, Option, none, some, List, [], ◌∷◌, map,
  arith, is_some, ◌==◌, any, ℤ, pos, negsuc, if◌then◌else◌,
}
use torch_mojo_backend.Streams.{
  Node, call, placeholder, number_regions, key_of, is_training, is_orchestration, stream_indices,
  same_key, same_indices,
}
use torch_mojo_backend.Streams.Runs.{runs, labels, table, keys_of, number_regions-runs}
use torch_mojo_backend.CompiledGraph
use torch_mojo_backend.CompiledGraph.{
  Lowering, Arg, Args, constant, no_args, and_arg, Call, collective, getitem, ordinary, lower_graph,
}
use torch_mojo_backend.CompiledGraph.Started.{Complete, lower_graph-Complete}
use torch_mojo_backend.CompiledGraph.Inputs
use torch_mojo_backend.CompiledGraph.Inputs.{
  DimExpr, known, of_symbol, of_expression, Placeholder, tensor_input, symbol_input, no_input,
  build_inputs, tensor_arg, int_arg, other_arg, symbol_dim, symbol_value,
}
use torch_mojo_backend.CompiledGraph.Inputs.Symbols.{Fits}
use torch_mojo_backend.CompiledGraph.Inputs.Evaluated.{symbol_dim-total}
use torch_mojo_backend.CompiledGraph.Waits.{
  FxNode, graph_input, wait_call, view_call, wait_source, from_input, Reads, InOrder,
  wait_source-Reads,
}
use torch_mojo_backend.CompiledGraph.Outputs
use torch_mojo_backend.CompiledGraph.Outputs.{
  view_of, absent, dim, tensor, GraphOutput, tensor_output, dim_output, none_result, tensor_result,
  int_result, view_result, handle_output, reconstruct_from_blueprint,
  reconstruct_from_blueprint-handle_output, meaning,
}

abbrev on_stream : Option ℕ → Node
on_stream stream = record {
  op = call;
  stream_object = false;
  stream_input = false;
  streams_target = false;
  tensor_grads = true ∷ [];
  contexts = none;
  stream = stream;
}

abbrev wait_event : Node
wait_event = record (on_stream (some 1)) { stream_input = true }

-- Two nodes of one context, a node of another, an event, and a node behind it.
abbrev two_contexts : List Node
two_contexts =
    record (on_stream none) { op = placeholder }
    ∷ on_stream none
    ∷ on_stream none
    ∷ on_stream (some 1)
    ∷ wait_event
    ∷ on_stream (some 1)
    ∷ []

number_regions-runs_example :
    ((number_regions two_contexts).partitions ≡ 0 ∷ 0 ∷ 1 ∷ 2 ∷ 3 ∷ [])
    × ((number_regions two_contexts).regions ≡ table 0 (runs (keys_of two_contexts)))
unfolding labels runs keys_of key_of is_training is_orchestration stream_indices same_key
    same_indices any
number_regions-runs_example = number_regions-runs two_contexts

-- A coalesced collective on two inputs of which only the first result is used.
abbrev half_used : List Call
half_used =
    CompiledGraph.placeholder
    ∷ collective (and_arg (CompiledGraph.node 0) (and_arg (CompiledGraph.node 0) no_args)) true 2
    ∷ getitem (CompiledGraph.node 1) 0
    ∷ ordinary (and_arg (CompiledGraph.node 2) no_args)
    ∷ []

abbrev half_used_outputs : Args
half_used_outputs = and_arg (CompiledGraph.node 3) no_args

abbrev half_used_lowering : Lowering
half_used_lowering = record {
  started = true ∷ true ∷ [];
  ops =
      CompiledGraph.wait_op 1
      ∷ CompiledGraph.wait_op 0
      ∷ CompiledGraph.start_op 1
      ∷ CompiledGraph.start_op 0
      ∷ [];
  book =
      CompiledGraph.plain
      ∷ CompiledGraph.several (
          CompiledGraph.more (CompiledGraph.pending 0)
            (CompiledGraph.more (CompiledGraph.pending 1) CompiledGraph.nil))
      ∷ CompiledGraph.pending 0
      ∷ CompiledGraph.plain
      ∷ [];
}

half_used_lowers : lower_graph half_used half_used_outputs ≡ some half_used_lowering
unfolding lower_graph CompiledGraph.lower_all CompiledGraph.lower CompiledGraph.convert_all
    CompiledGraph.start_each CompiledGraph.start CompiledGraph.wait_each CompiledGraph.wait_one
    CompiledGraph.lower_output CompiledGraph.finish CompiledGraph.wait_ids
half_used_lowers = refl

lower_graph-Complete_example : Complete half_used_lowering
lower_graph-Complete_example =
    lower_graph-Complete half_used half_used_outputs half_used_lowering half_used_lowers

-- A wait on a view of the graph's input.
abbrev view_of_input : List FxNode
view_of_input =
    record { target = graph_input; has_args = false; first = none }
    ∷ record { target = view_call; has_args = true; first = some 0 }
    ∷ record { target = wait_call; has_args = true; first = some 1 }
    ∷ []

view_of_input-InOrder : InOrder view_of_input
view_of_input-InOrder zero n j h f = ground (arith, h, f)
view_of_input-InOrder (suc zero) n j h f = ground (arith, h, f)
view_of_input-InOrder (suc (suc zero)) n j h f = ground (arith, h, f)
view_of_input-InOrder (suc (suc (suc i))) n j h f = ground (arith, h, f)

wait_source-Reads_example :
    (is_some (wait_source 4 view_of_input (some 2)) ≡ true)
    × ((wait_source 4 view_of_input (some 2) ≡ some (from_input 0)) ↔ Reads view_of_input 2 0)
wait_source-Reads_example =
    wait_source-Reads view_of_input 4 2 0 view_of_input-InOrder (omega arith)

abbrev doubling : Outputs.Call
doubling = record {
  compute = λ o. elim o [ tensor_output t ↦ t * 2 | dim_output d ↦ d + 100 ];
  to_int = λ t. t;
  rebuild = λ v. v + 50;
}

reconstruct_from_blueprint-handle_output_example :
    reconstruct_from_blueprint doubling
      (map doubling.compute
        (handle_output (tensor 7 ∷ absent ∷ view_of 3 ∷ dim 4 ∷ tensor 8 ∷ [])).tensors)
      (handle_output (tensor 7 ∷ absent ∷ view_of 3 ∷ dim 4 ∷ tensor 8 ∷ [])).views
      (handle_output (tensor 7 ∷ absent ∷ view_of 3 ∷ dim 4 ∷ tensor 8 ∷ [])).blueprint
    ≡ some
        (tensor_result 14 ∷ none_result ∷ view_result 53 ∷ int_result 104 ∷ tensor_result 16 ∷ [])
unfolding meaning
reconstruct_from_blueprint-handle_output_example =
    reconstruct_from_blueprint-handle_output doubling
      (tensor 7 ∷ absent ∷ view_of 3 ∷ dim 4 ∷ tensor 8 ∷ [])

-- Symbol 0 is negative and no tensor's, symbol 1 is a dimension and an integer, symbol 2 is an integer.
abbrev symbols : ℕ → ℤ
symbols s = elim s [ zero ↦ negsuc 2 | suc n ↦ if n == 0 then pos 7 else pos 5 ]

abbrev traced : List Placeholder
traced =
    symbol_input 0 false
    ∷ tensor_input (of_expression ∷ of_symbol 1 ∷ known 4 ∷ [])
    ∷ no_input
    ∷ symbol_input 1 true
    ∷ symbol_input 2 true
    ∷ []

abbrev called : List Inputs.Arg
called =
    int_arg (negsuc 2)
    ∷ tensor_arg (15 ∷ 7 ∷ 4 ∷ [])
    ∷ other_arg
    ∷ int_arg (pos 7)
    ∷ int_arg (pos 5)
    ∷ []

traced-Fits : Fits symbols traced called
traced-Fits = (refl, λ b. b, ((refl, tt), (refl, λ _. refl, (refl, λ _. refl, tt))))

symbol_dim-total_example : symbol_dim (build_inputs traced) called 0 ≡ some (negsuc 2)
symbol_dim-total_example = symbol_dim-total symbols called traced traced-Fits 0 refl
