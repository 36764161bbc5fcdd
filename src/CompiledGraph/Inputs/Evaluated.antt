-- ===== src/CompiledGraph/Inputs/Evaluated.antt =====
-- The symbols of a graph: `symbol_dims` as the graph runs, and `_symbol_values` of the same call.
use torch_mojo_backend.Prelude.{
  ℕ, suc, ◌+◌, Bool, true, false, ◌||◌, Option, none, some, List, [], ◌∷◌, get_elem?, is_some, ℤ,
  ◌≡◌, refl, ap, ◌∙◌, sym, inl, inr, Bool-cases, Option-cases, arith,
}
use torch_mojo_backend.CompiledGraph.Inputs.{
  Kind, DimExpr, known, of_symbol, of_expression, Placeholder, tensor_input, symbol_input,
  expression_input, no_input, lookup, Factory, new_factory, handle_dim, handle_dims, counted,
  handle_placeholder, handle_all, add_carrier, add_carriers, build_inputs, Arg, fed_shape, dim_of,
  carried, symbol_dim, symbol_value,
}
use torch_mojo_backend.CompiledGraph.Inputs.Symbols.{value_at, Fits}
use torch_mojo_backend.CompiledGraph.Inputs.Carriers.{Inputs, add_carriers-Inputs}
use torch_mojo_backend.CompiledGraph.Inputs.Values.{Tables, handle_all-Tables}
use torch_mojo_backend.CompiledGraph.Inputs.Totality.{
  occurs, has, known_symbol, handle_all-args, handle_all-found, add_carriers-known_symbol,
}

handle_dims-carriers :
    (arg dim : ℕ) (dims : List DimExpr) (f : Factory)
    → (handle_dims arg dim dims f).carriers ≡ f.carriers
unfolding handle_dims
handle_dims-carriers arg dim [] f = refl
handle_dims-carriers arg dim (known k ∷ dims) f = handle_dims-carriers arg (suc dim) dims f
handle_dims-carriers arg dim (of_symbol s ∷ dims) f =
    handle_dims-carriers arg (suc dim) dims (handle_dim arg dim (of_symbol s) f)
handle_dims-carriers arg dim (of_expression ∷ dims) f = handle_dims-carriers arg (suc dim) dims f

handle_all-carriers :
    (ps : List Placeholder) (f : Factory) → (handle_all ps f).carriers ≡ f.carriers
unfolding handle_all handle_placeholder
handle_all-carriers [] f = refl
handle_all-carriers (tensor_input dims ∷ ps) f =
    handle_all-carriers ps (handle_placeholder (tensor_input dims) f)
    ∙ handle_dims-carriers f.n_placeholders 0 dims f
handle_all-carriers (symbol_input s nonnegative ∷ ps) f =
    handle_all-carriers ps (handle_placeholder (symbol_input s nonnegative) f)
handle_all-carriers (expression_input ∷ ps) f = handle_all-carriers ps (counted f)
handle_all-carriers (no_input ∷ ps) f = handle_all-carriers ps (counted f)

add_carriers-args :
    (symints : List (ℕ × (ℕ × Bool))) (f : Factory)
    → (add_carriers symints f).symbol_args ≡ f.symbol_args
unfolding add_carriers add_carrier
add_carriers-args [] f = refl
add_carriers-args ((arg, (s, nonnegative)) ∷ symints) f =
    add_carriers-args symints (add_carrier arg s nonnegative f)
    ∙ elim (Bool-cases (has s f.dim_sources || has s f.carriers)) [
      | inl q ↦ rw q refl
      | inr q ↦ rw q refl
    ]

symbol_dim-source :
    (f : Factory) (args : List Arg) (s : ℕ) (v : ℕ × ℕ)
    → lookup s f.dim_sources ≡ some v
    → symbol_dim f args s ≡ dim_of (fed_shape f.input_plan args v.0) v.1
unfolding symbol_dim fed_shape
symbol_dim-source f args s v q = rw (q, symbol_dim) refl

symbol_dim-carrier :
    (f : Factory) (args : List Arg) (s : ℕ) (v : Kind × ℕ)
    → lookup s f.dim_sources ≡ none
    → lookup s f.carriers ≡ some v
    → symbol_dim f args s ≡ carried v.0 (fed_shape f.input_plan args v.1)
unfolding symbol_dim fed_shape
symbol_dim-carrier f args s v q r = rw (symbol_dim, q) (rw r refl)

symbol_value-arg :
    (f : Factory) (args : List Arg) (s : ℕ) (v : ℕ × Option ℕ)
    → lookup s f.symbol_args ≡ some v
    → symbol_value f args s ≡ value_at args v
unfolding symbol_value
symbol_value-arg f args s (i, some d) q = rw (symbol_value, q) refl
symbol_value-arg f args s (i, none) q = rw (symbol_value, q) refl

build-known_symbol :
    (env : ℕ → ℤ) (args : List Arg) (s : ℕ) (ps : List Placeholder)
    → occurs s ps ≡ true
    → known_symbol s (build_inputs ps) ≡ true
unfolding build_inputs lookup
build-known_symbol env args s ps o =
    let f = handle_all ps new_factory in
    ground (
      arith,
      add_carriers-known_symbol s f.symints f,
      handle_all-found env args s ps new_factory,
      o,
    )

build-args :
    (s : ℕ) (ps : List Placeholder)
    → occurs s ps ≡ true
    → has s (build_inputs ps).symbol_args ≡ true
unfolding build_inputs lookup
build-args s ps o =
    let f = handle_all ps new_factory in
    ap (has s) (add_carriers-args f.symints f) ∙ ground (arith, handle_all-args s ps new_factory, o)

module _ (env : ℕ → ℤ) (args : List Arg) (ps : List Placeholder) (fit : Fits env ps args) where
  new-Tables : Tables env args new_factory
  unfolding lookup
  new-Tables = record {
    right = record { dims_right = λ s v h. cc h; args_right = λ s v h. cc h };
    symints_fit = tt;
  }

  all-Tables : Tables env args (handle_all ps new_factory)
  all-Tables =
      handle_all-Tables env args ps args new_factory
        (λ j. let drop_zero : 0 + j ≡ j = omega arith in ap (λ x. get_elem? args x) drop_zero) fit
        new-Tables

  build-Inputs : Inputs env args (build_inputs ps)
  unfolding build_inputs lookup
  build-Inputs =
      add_carriers-Inputs env args (handle_all ps new_factory).symints (handle_all ps new_factory)
        all-Tables.symints_fit
        (record {
          sources_right = all-Tables.right;
          carriers_right =
              λ s v h. cc (sym (ap (λ t. lookup s t) (handle_all-carriers ps new_factory)) ∙ h);
        })

  -- For a valuation of the symbols, let the arguments of a call fit the graph's placeholders: tensors have
  -- the traced rank and, where a dimension is a symbol, its value; the argument of a symbol is its value,
  -- not negative where the traced bound says so. Then every symbol that a placeholder mentions, as a
  -- dimension or as an integer, is one of the symbols of the graph and has its value there: by a dimension
  -- of a graph input, or by a carrier's shape.
  pub symbol_dim-total :
      (s : ℕ) → occurs s ps ≡ true → symbol_dim (build_inputs ps) args s ≡ some (env s)
  symbol_dim-total s o =
      let f = build_inputs ps in
      elim (Option-cases (lookup s f.dim_sources)) [
        | inr (v, q) ↦ symbol_dim-source f args s v q ∙ build-Inputs.sources_right.dims_right s v q
        | inl q ↦ elim (Option-cases (lookup s f.carriers)) [
          | inr (v, r) ↦ symbol_dim-carrier f args s v q r ∙ build-Inputs.carriers_right s v r
          | inl r ↦
              let unknown : known_symbol s f ≡ false = ground (arith, q, r) in
              cc (sym (build-known_symbol env args s ps o) ∙ unknown)
        ]
      ]

  -- For a valuation of the symbols and arguments that fit the graph's placeholders, `_symbol_values` of
  -- the call has every symbol that a placeholder mentions, with its value.
  pub symbol_value-total :
      (s : ℕ) → occurs s ps ≡ true → symbol_value (build_inputs ps) args s ≡ some (env s)
  symbol_value-total s o =
      let f = build_inputs ps in
      elim (Option-cases (lookup s f.symbol_args)) [
        | inr (v, q) ↦ symbol_value-arg f args s v q ∙ build-Inputs.sources_right.args_right s v q
        | inl q ↦ cc (sym (build-args s ps o) ∙ ap is_some q)
      ]
