-- ===== src/CompiledGraph/Inputs/Totality.antt =====
-- Every symbol that a graph's placeholders mention is known to the graph, and has its value there and in
-- a call.
use torch_mojo_backend.Prelude.{
  ℕ, suc, Bool, false, ◌||◌, none, some, List, [], ◌∷◌, ◌++◌, ◌==◌, if◌then◌else◌, length, is_some,
  ℤ, ◌≡◌, ap, inl, inr, Bool-cases, arith, ==_iff,
}
use torch_mojo_backend.CompiledGraph.Inputs.{
  size_kind, signed_kind, DimExpr, known, of_symbol, of_expression, Placeholder, tensor_input,
  symbol_input, expression_input, no_input, lookup, set_default, Factory, handle_dim, handle_dims,
  handle_placeholder, handle_all, add_carrier, add_carriers, Arg,
}
use torch_mojo_backend.CompiledGraph.Inputs.Symbols.{lookup-append, lookup-set_default}
use torch_mojo_backend.CompiledGraph.Inputs.Values.{handle_dims-symints}

abbrev pub mentions : ℕ → List DimExpr → Bool
mentions s [] = false
mentions s (known k ∷ dims) = mentions s dims
mentions s (of_symbol t ∷ dims) = s == t || mentions s dims
mentions s (of_expression ∷ dims) = mentions s dims

abbrev pub mentioned_by : ℕ → Placeholder → Bool
mentioned_by s (tensor_input dims) = mentions s dims
mentioned_by s (symbol_input t nonnegative) = s == t
mentioned_by s expression_input = false
mentioned_by s no_input = false

abbrev pub occurs : ℕ → List Placeholder → Bool
occurs s [] = false
occurs s (p ∷ ps) = mentioned_by s p || occurs s ps

abbrev pub has {ℓ} : {V : Type ℓ} → ℕ → List (ℕ × V) → Bool
has s table = is_some (lookup s table)

abbrev pub recorded : ℕ → List (ℕ × (ℕ × Bool)) → Bool
recorded s [] = false
recorded s ((arg, (t, nonnegative)) ∷ symints) = s == t || recorded s symints

has-append {ℓ} :
    {V : Type ℓ} (s k : ℕ) (v : V) (table : List (ℕ × V))
    → has s (table ++ ((k, v) ∷ [])) ≡ (has s table || s == k)
has-append s k v table = ground (arith, lookup-append s k v table)

has-set_default {ℓ} :
    {V : Type ℓ} (s k : ℕ) (v : V) (table : List (ℕ × V))
    → has s (set_default k v table) ≡ (has s table || s == k)
has-set_default s k v table = ground (arith, lookup-set_default s k v table)

recorded-append :
    (s arg t : ℕ) (nonnegative : Bool) (symints : List (ℕ × (ℕ × Bool)))
    → recorded s (symints ++ ((arg, (t, nonnegative)) ∷ [])) ≡ (recorded s symints || s == t)
recorded-append s arg t nonnegative [] = ground arith
recorded-append s arg t nonnegative (x ∷ symints) =
    ground (arith, recorded-append s arg t nonnegative symints)

handle_dims-sources :
    (s arg dim : ℕ) (dims : List DimExpr) (f : Factory)
    → has s (handle_dims arg dim dims f).dim_sources ≡ (has s f.dim_sources || mentions s dims)
unfolding handle_dims
handle_dims-sources s arg dim [] f = ground arith
handle_dims-sources s arg dim (known k ∷ dims) f = handle_dims-sources s arg (suc dim) dims f
handle_dims-sources s arg dim (of_symbol t ∷ dims) f = ground (
  arith,
  handle_dims-sources s arg (suc dim) dims (handle_dim arg dim (of_symbol t) f),
  has-set_default s t (length f.input_plan, dim) f.dim_sources,
)
handle_dims-sources s arg dim (of_expression ∷ dims) f = handle_dims-sources s arg (suc dim) dims f

handle_dims-args :
    (s arg dim : ℕ) (dims : List DimExpr) (f : Factory)
    → has s (handle_dims arg dim dims f).symbol_args ≡ (has s f.symbol_args || mentions s dims)
unfolding handle_dims
handle_dims-args s arg dim [] f = ground arith
handle_dims-args s arg dim (known k ∷ dims) f = handle_dims-args s arg (suc dim) dims f
handle_dims-args s arg dim (of_symbol t ∷ dims) f = ground (
  arith,
  handle_dims-args s arg (suc dim) dims (handle_dim arg dim (of_symbol t) f),
  has-set_default s t (arg, some dim) f.symbol_args,
)
handle_dims-args s arg dim (of_expression ∷ dims) f = handle_dims-args s arg (suc dim) dims f

handle_placeholder-args :
    (s : ℕ) (p : Placeholder) (f : Factory)
    → has s (handle_placeholder p f).symbol_args ≡ (has s f.symbol_args || mentioned_by s p)
unfolding handle_placeholder
handle_placeholder-args s (tensor_input dims) f = handle_dims-args s f.n_placeholders 0 dims f
handle_placeholder-args s (symbol_input t nonnegative) f =
    has-set_default s t (f.n_placeholders, none) f.symbol_args
handle_placeholder-args s expression_input f = ground arith
handle_placeholder-args s no_input f = ground arith

pub handle_all-args :
    (s : ℕ) (ps : List Placeholder) (f : Factory)
    → has s (handle_all ps f).symbol_args ≡ (has s f.symbol_args || occurs s ps)
unfolding handle_all
handle_all-args s [] f = ground arith
handle_all-args s (p ∷ ps) f =
    ground (arith, handle_all-args s ps (handle_placeholder p f), handle_placeholder-args s p f)

-- A tensor has the symbol, or a placeholder is it.
abbrev pub found : ℕ → Factory → Bool
found s f = has s f.dim_sources || recorded s f.symints

handle_placeholder-found :
    (env : ℕ → ℤ) (args : List Arg) (s : ℕ) (p : Placeholder) (f : Factory)
    → found s (handle_placeholder p f) ≡ (found s f || mentioned_by s p)
unfolding handle_placeholder
handle_placeholder-found env args s (tensor_input dims) f = ground (
  arith,
  handle_dims-sources s f.n_placeholders 0 dims f,
  ap (recorded s) (handle_dims-symints env args f.n_placeholders 0 dims f),
)
handle_placeholder-found env args s (symbol_input t nonnegative) f =
    ground (arith, recorded-append s f.n_placeholders t nonnegative f.symints)
handle_placeholder-found env args s expression_input f = ground arith
handle_placeholder-found env args s no_input f = ground arith

pub handle_all-found :
    (env : ℕ → ℤ) (args : List Arg) (s : ℕ) (ps : List Placeholder) (f : Factory)
    → found s (handle_all ps f) ≡ (found s f || occurs s ps)
unfolding handle_all
handle_all-found env args s [] f = ground arith
handle_all-found env args s (p ∷ ps) f = ground (
  arith,
  handle_all-found env args s ps (handle_placeholder p f),
  handle_placeholder-found env args s p f,
)

-- The graph knows the symbol, by a tensor or by a carrier.
abbrev pub known_symbol : ℕ → Factory → Bool
known_symbol s f = has s f.dim_sources || has s f.carriers

add_carrier-known_symbol :
    (s arg t : ℕ) (nonnegative : Bool) (f : Factory)
    → known_symbol s (add_carrier arg t nonnegative f) ≡ (known_symbol s f || s == t)
unfolding add_carrier
add_carrier-known_symbol s arg t nonnegative f =
    let kind = if nonnegative then size_kind else signed_kind in
    elim (Bool-cases (known_symbol t f)) [
      | inr q ↦ rw q (ground (arith, has-append s t (kind, length f.input_plan) f.carriers))
      | inl q ↦ rw q (elim (Bool-cases (s == t)) [
        | inr e ↦ ground (arith, e)
        | inl e ↦ ground (arith, e, q, ap (λ x. known_symbol x f) ((==_iff s t).0 e))
      ])
    ]

pub add_carriers-known_symbol :
    (s : ℕ) (symints : List (ℕ × (ℕ × Bool))) (f : Factory)
    → known_symbol s (add_carriers symints f) ≡ (known_symbol s f || recorded s symints)
unfolding add_carriers
add_carriers-known_symbol s [] f = ground arith
add_carriers-known_symbol s ((arg, (t, nonnegative)) ∷ symints) f = ground (
  arith,
  add_carriers-known_symbol s symints (add_carrier arg t nonnegative f),
  add_carrier-known_symbol s arg t nonnegative f,
)
