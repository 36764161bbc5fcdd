-- ===== src/CompiledGraph.antt =====
-- torch_mojo_backend/torch_compile_backend/collectives.py and compiler.py: the collectives of a
-- compiled graph while it is lowered (`start`, `wait`, `finish` in the order of `handle_call_function`
-- and `handle_output`). A `_Pending` is its position in `started`, which tells whether its `result` is
-- set; `ops` has the graph's operations on the comm stream, newest first.
pub mod Started
pub mod Waits
pub mod Outputs
pub mod Inputs
use torch_mojo_backend.Prelude.{
  ℕ, zero, suc, Bool, true, false, Option, none, some, List, [], ◌∷◌, ◌++◌, if◌then◌else◌, length,
  get_elem?, get_or, set, count_up,
}

-- A value of the graph: a tensor or constant, a started collective, or a list.
mutual
  pub data Value : Type 0 where
    plain : Value
    pending : ℕ → Value
    several : Values → Value

  pub data Values : Type 0 where
    nil : Values
    more : Value → Values → Values

-- An argument of a node: a constant, an earlier node, or a list of arguments.
mutual
  pub data Arg : Type 0 where
    constant : Arg
    node : ℕ → Arg
    arg_list : Args → Arg

  pub data Args : Type 0 where
    no_args : Args
    and_arg : Arg → Args → Args

pub data GraphOp : Type 0 where
  start_op wait_op : ℕ → GraphOp

-- `book` has the values of the nodes so far, `tensor_book`.
pub record Lowering : Type 0 where
  pub started : List Bool
  pub ops : List GraphOp
  pub book : List Value

-- `_start`: the operation, and a new `_Pending` without a result
unfoldable pub start : Lowering → Lowering
start s = record s {
  started = s.started ++ (false ∷ []);
  ops = start_op (length s.started) ∷ s.ops;
}

-- `wait` of one `_Pending`
unfoldable pub wait_one : ℕ → Lowering → Lowering
wait_one i s =
    if get_or (get_elem? s.started i) true
    then s
    else record s { started = set s.started i true; ops = wait_op i ∷ s.ops }

-- `wait`
unfoldable mutual
  unfolding wait_one

  pub wait : Value → Lowering → Value × Lowering
  wait plain s = (plain, s)
  wait (pending i) s = (plain, wait_one i s)
  wait (several vs) s = let (vs', s') = wait_each vs s in (several vs', s')

  pub wait_each : Values → Lowering → Values × Lowering
  wait_each nil s = (nil, s)
  wait_each (more v vs) s =
      let (v', s') = wait v s in let (vs', s'') = wait_each vs s' in (more v' vs', s'')

-- `convert_to_max`; none is its KeyError.
unfoldable mutual
  pub convert_to_max : List Value → Arg → Option Value
  convert_to_max book constant = some plain
  convert_to_max book (node i) = get_elem? book i
  convert_to_max book (arg_list args) = elim (convert_all book args) [
    | none ↦ none
    | some vs ↦ some (several vs)
  ]

  pub convert_all : List Value → Args → Option Values
  convert_all book no_args = some nil
  convert_all book (and_arg a args) = elim (convert_to_max book a) [
    | none ↦ none
    | some v ↦ elim (convert_all book args) [ none ↦ none | some vs ↦ some (more v vs) ]
  ]

-- The nodes that matter here; those of custom operators (AutoFunctionalizedV2) and of symbolic
-- integers, which wait for nothing, are left out, and so are errors of a mapping. `collective` has whether it is coalesced, and its number of inputs.
pub data Call : Type 0 where
  placeholder : Call
  wait_tensor : Arg → Call
  getitem : Arg → ℕ → Call
  collective : Args → Bool → ℕ → Call
  ordinary : Args → Call

abbrev pub bind_value : Value → Lowering → Lowering
bind_value v s = record s { book = s.book ++ (v ∷ []) }

abbrev pub item : Values → ℕ → Option Value
item nil i = none
item (more v vs) zero = some v
item (more v vs) (suc i) = item vs i

abbrev pub select : Value → ℕ → Option Value
select (several vs) i = item vs i
select plain i = some plain
select (pending i) j = none

-- The list of a coalesced collective's results: one start for each input.
unfoldable pub start_each : ℕ → Lowering → Values × Lowering
unfolding start
start_each zero s = (nil, s)
start_each (suc n) s =
    let (vs, s') = start_each n (start s) in (more (pending (length s.started)) vs, s')

abbrev pub start_call : Bool → ℕ → Lowering → Lowering
start_call true n s = let (vs, s') = start_each n s in bind_value (several vs) s'
start_call false n s = bind_value (pending (length s.started)) (start s)

abbrev pub bind_option : Option Value → Lowering → Option Lowering
bind_option none s = none
bind_option (some v) s = some (bind_value v s)

-- A node whose arguments are converted: all but `getitem` wait for them.
abbrev pub lower_on : Call → Values → Lowering → Option Lowering
lower_on placeholder vs s = some (bind_value plain s)
lower_on (wait_tensor a) nil s = none
lower_on (wait_tensor a) (more v vs) s = let (v', s') = wait v s in some (bind_value v' s')
lower_on (getitem a i) nil s = none
lower_on (getitem a i) (more v vs) s = bind_option (select v i) s
lower_on (collective args coalesced n) vs s =
    let (vs', s') = wait_each vs s in some (start_call coalesced n s')
lower_on (ordinary args) vs s = let (vs', s') = wait_each vs s in some (bind_value plain s')

abbrev pub args_of : Call → Args
args_of placeholder = no_args
args_of (wait_tensor a) = and_arg a no_args
args_of (getitem a i) = and_arg a no_args
args_of (collective args coalesced n) = args
args_of (ordinary args) = args

-- `handle_call_function`
unfoldable pub lower : Call → Lowering → Option Lowering
unfolding wait convert_to_max start start_each
lower c s = elim (convert_all s.book (args_of c)) [ none ↦ none | some vs ↦ lower_on c vs s ]

unfoldable pub lower_all : List Call → Lowering → Option Lowering
unfolding lower
lower_all [] s = some s
lower_all (c ∷ calls) s = elim (lower c s) [ none ↦ none | some s' ↦ lower_all calls s' ]

-- `finish`
unfoldable pub wait_ids : List ℕ → Lowering → Lowering
unfolding wait_one
wait_ids [] s = s
wait_ids (i ∷ is) s = wait_ids is (wait_one i s)

unfoldable pub finish : Lowering → Lowering
unfolding wait_ids count_up
finish s = wait_ids (count_up (length s.started) 0) s

abbrev pub output_waits : Option Values → Lowering → Option Lowering
output_waits none s = none
output_waits (some vs) s = let (vs', s') = wait_each vs s in some (finish s')

-- `handle_output`, as far as the collectives go: `outputs` are those that are no views of inputs
unfoldable pub lower_output : Args → Lowering → Option Lowering
unfolding wait convert_to_max finish
lower_output outputs s = output_waits (convert_all s.book outputs) s

-- A graph: its nodes in order, and the arguments of its output node
unfoldable pub lower_graph : List Call → Args → Option Lowering
unfolding lower_all lower_output
lower_graph calls outputs = elim (lower_all calls (record { started = []; ops = []; book = [] })) [
  | none ↦ none
  | some s ↦ lower_output outputs s
]
