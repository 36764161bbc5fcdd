-- ===== src/CompiledGraph/Inputs.antt =====
-- torch_mojo_backend/torch_compile_backend/compiler.py: the inputs of a compiled graph. Placeholders
-- become graph inputs while it is built (`handle_placeholder`, `_add_symint_carriers`), and a call's
-- arguments are fed to them (`_graph_input`); the graph reads its symbols off their shapes. Symbols
-- are numbers. A tensor input's name stands for its position among the graph inputs, which are as many
-- as the entries of `input_plan`. A placeholder that is refused (a symbolic float or bool) has no case.
pub mod Symbols
pub mod Values
pub mod Carriers
pub mod Totality
pub mod Evaluated
use torch_mojo_backend.Prelude.{
  ℕ, zero, suc, ◌+◌, ◌-◌, ◌/◌, Bool, true, false, ◌||◌, Option, none, some, List, [], ◌∷◌, ◌++◌,
  ◌==◌, leb, if◌then◌else◌, length, get_elem?, is_some, ℤ, pos, negsuc,
}

-- `GraphInputKind`
pub data Kind : Type 0 where
  tensor_kind size_kind signed_kind : Kind

pub data DimExpr : Type 0 where
  known of_symbol : ℕ → DimExpr
  of_expression : DimExpr

-- What a placeholder is traced as: a tensor, an integer symbol with whether its lower bound is at least
-- 0, an integer expression, or anything that becomes no input.
pub data Placeholder : Type 0 where
  tensor_input : List DimExpr → Placeholder
  symbol_input : ℕ → Bool → Placeholder
  expression_input no_input : Placeholder

unfoldable pub lookup {ℓ} : {V : Type ℓ} → ℕ → List (ℕ × V) → Option V
lookup s [] = none
lookup s ((k, v) ∷ table) = let rest = lookup s table in if s == k then some v else rest

-- `dict.setdefault`
abbrev pub set_default {ℓ} : {V : Type ℓ} → ℕ → V → List (ℕ × V) → List (ℕ × V)
set_default s v table = if is_some (lookup s table) then table else table ++ ((s, v) ∷ [])

-- `symints` has `_symint_placeholders` that are symbols: the argument, the symbol and its bound.
pub record Factory : Type 0 where
  pub n_placeholders : ℕ
  pub input_plan : List (Kind × ℕ)
  pub symints : List (ℕ × (ℕ × Bool))
  pub dim_sources : List (ℕ × (ℕ × ℕ))
  pub carriers : List (ℕ × (Kind × ℕ))
  pub symbol_args : List (ℕ × (ℕ × Option ℕ))

abbrev pub new_factory : Factory
new_factory = record {
  n_placeholders = 0;
  input_plan = [];
  symints = [];
  dim_sources = [];
  carriers = [];
  symbol_args = [];
}

abbrev pub handle_dim : ℕ → ℕ → DimExpr → Factory → Factory
handle_dim arg dim (known n) f = f
handle_dim arg dim (of_symbol s) f = record f {
  dim_sources = set_default s (length f.input_plan, dim) f.dim_sources;
  symbol_args = set_default s (arg, some dim) f.symbol_args;
}
handle_dim arg dim of_expression f = f

-- The loop over a tensor's dimensions, from `dim` on
unfoldable pub handle_dims : ℕ → ℕ → List DimExpr → Factory → Factory
unfolding lookup
handle_dims arg dim [] f = f
handle_dims arg dim (d ∷ dims) f = handle_dims arg (suc dim) dims (handle_dim arg dim d f)

abbrev pub add_input : Kind → ℕ → Factory → Factory
add_input kind arg f = record f { input_plan = f.input_plan ++ ((kind, arg) ∷ []) }

abbrev pub counted : Factory → Factory
counted f = record f { n_placeholders = suc f.n_placeholders }

-- `handle_placeholder`
unfoldable pub handle_placeholder : Placeholder → Factory → Factory
unfolding handle_dims lookup
handle_placeholder (tensor_input dims) f =
    counted (add_input tensor_kind f.n_placeholders (handle_dims f.n_placeholders 0 dims f))
handle_placeholder (symbol_input s nonnegative) f = counted (record f {
  symbol_args = set_default s (f.n_placeholders, none) f.symbol_args;
  symints = f.symints ++ ((f.n_placeholders, (s, nonnegative)) ∷ []);
})
handle_placeholder expression_input f = counted f
handle_placeholder no_input f = counted f

unfoldable pub handle_all : List Placeholder → Factory → Factory
unfolding handle_placeholder
handle_all [] f = f
handle_all (p ∷ ps) f = handle_all ps (handle_placeholder p f)

-- The body of `_add_symint_carriers`
unfoldable pub add_carrier : ℕ → ℕ → Bool → Factory → Factory
unfolding lookup
add_carrier arg s nonnegative f =
    let kind = if nonnegative then size_kind else signed_kind in
    if is_some (lookup s f.dim_sources) || is_some (lookup s f.carriers)
    then f
    else record (add_input kind arg f) {
      carriers = f.carriers ++ ((s, (kind, length f.input_plan)) ∷ []);
    }

unfoldable pub add_carriers : List (ℕ × (ℕ × Bool)) → Factory → Factory
unfolding add_carrier
add_carriers [] f = f
add_carriers ((arg, (s, nonnegative)) ∷ symints) f =
    add_carriers symints (add_carrier arg s nonnegative f)

-- The placeholders of a graph, then its carriers
unfoldable pub build_inputs : List Placeholder → Factory
unfolding handle_all add_carriers
build_inputs ps = let f = handle_all ps new_factory in add_carriers f.symints f

-- An argument of a call: a tensor by its shape.
pub data Arg : Type 0 where
  tensor_arg : List ℕ → Arg
  int_arg : ℤ → Arg
  other_arg : Arg

-- `_graph_input`: the shape of the buffer; none is an assertion or a buffer of negative size.
unfoldable pub graph_input : Kind → Arg → Option (List ℕ)
graph_input tensor_kind (tensor_arg shape) = some shape
graph_input size_kind (int_arg (pos n)) = some (n ∷ 0 ∷ [])
graph_input signed_kind (int_arg (pos n)) = some (n ∷ 0 ∷ 0 ∷ 0 ∷ [])
graph_input signed_kind (int_arg (negsuc k)) = some (0 ∷ (suc k - suc k / 2) ∷ (suc k / 2) ∷ 0 ∷ [])
graph_input _ _ = none

abbrev pub feed_at : List Arg → Option (Kind × ℕ) → Option (List ℕ)
feed_at args none = none
feed_at args (some (kind, arg)) = elim (get_elem? args arg) [
  | none ↦ none
  | some a ↦ graph_input kind a
]

-- The shape of the graph input at a position, `self.input_plan` on the arguments
unfoldable pub fed_shape : List (Kind × ℕ) → List Arg → ℕ → Option (List ℕ)
unfolding graph_input
fed_shape plan args i = feed_at args (get_elem? plan i)

abbrev pub dim_of : Option (List ℕ) → ℕ → Option ℤ
dim_of none d = none
dim_of (some shape) d = elim (get_elem? shape d) [ none ↦ none | some n ↦ some (pos n) ]

-- `a - b`
abbrev pub minus : ℕ → ℕ → ℤ
minus a b = if leb b a then pos (a - b) else negsuc (b - a - 1)

-- The Dim of a carrier: its first dimension, or that less the next two
abbrev pub carried : Kind → Option (List ℕ) → Option ℤ
carried signed_kind (some (a ∷ b ∷ c ∷ shape)) = some (minus a (b + c))
carried size_kind (some (a ∷ shape)) = some (pos a)
carried _ _ = none

abbrev pub carrier_dim : Factory → List Arg → Option (Kind × ℕ) → Option ℤ
carrier_dim f args none = none
carrier_dim f args (some (kind, i)) = carried kind (fed_shape f.input_plan args i)

-- `symbol_dims` of `initialize_graph`, when the graph runs on these arguments
unfoldable pub symbol_dim : Factory → List Arg → ℕ → Option ℤ
unfolding fed_shape lookup
symbol_dim f args s = elim (lookup s f.dim_sources) [
  | some (i, d) ↦ dim_of (fed_shape f.input_plan args i) d
  | none ↦ carrier_dim f args (lookup s f.carriers)
]

abbrev pub shape_of : Option Arg → Option (List ℕ)
shape_of (some (tensor_arg shape)) = some shape
shape_of _ = none

abbrev pub int_of : Option Arg → Option ℤ
int_of (some (int_arg z)) = some z
int_of _ = none

-- `_symbol_values`
unfoldable pub symbol_value : Factory → List Arg → ℕ → Option ℤ
unfolding lookup
symbol_value f args s = elim (lookup s f.symbol_args) [
  | some (i, some d) ↦ dim_of (shape_of (get_elem? args i)) d
  | some (i, none) ↦ int_of (get_elem? args i)
  | none ↦ none
]
