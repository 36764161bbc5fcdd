-- ===== src/CompiledGraph/Inputs/Symbols.antt =====
-- Every symbol of a graph has the value that the call's arguments give it.
use torch_mojo_backend.Prelude.{
  ℕ, zero, suc, ◌+◌, Bool, true, false, Option, none, some, List, [], ◌∷◌, ◌++◌, ◌==◌,
  if◌then◌else◌, length, get_elem?, is_some, ℤ, pos, negsuc, ◌≡◌, refl, ap, ◌∙◌, sym, subst, inl,
  inr, Bool-cases, Option-cases, arith, ==_iff,
}
use torch_mojo_backend.CompiledGraph.Inputs.{
  Kind, DimExpr, known, of_symbol, of_expression, Placeholder, tensor_input, symbol_input,
  expression_input, no_input, lookup, set_default, Factory, handle_dim, handle_dims, Arg,
  tensor_arg, int_arg, other_arg, feed_at, fed_shape, dim_of, shape_of, int_of,
}

pub lookup-append {ℓ} :
    {V : Type ℓ} (s k : ℕ) (v : V) (table : List (ℕ × V))
    → lookup s (table ++ ((k, v) ∷ []))
      ≡ (if is_some (lookup s table) then lookup s table else if s == k then some v else none)
unfolding lookup
lookup-append s k v [] = ground arith
lookup-append s k v ((k', v') ∷ table) = ground (arith, lookup-append s k v table)

pub lookup-set_default {ℓ} :
    {V : Type ℓ} (s k : ℕ) (v : V) (table : List (ℕ × V))
    → lookup s (set_default k v table)
      ≡ (if is_some (lookup s table) then lookup s table else if s == k then some v else none)
lookup-set_default s k v table = elim (Bool-cases (is_some (lookup k table))) [
  | inr e ↦ rw e (lookup-append s k v table)
  | inl e ↦ rw e (elim (Bool-cases (s == k)) [
    | inl q ↦ ground (arith, q, e, ap (λ x. is_some (lookup x table)) ((==_iff s k).0 q))
    | inr q ↦ ground (arith, q)
  ])
]

-- What holds of every entry holds still when a fitting one is added.
pub each-added {ℓ} :
    {V : Type ℓ} (P : ℕ → V → Type 0) (k : ℕ) (v : V) (table table' : List (ℕ × V))
    → ((s : ℕ)
        → lookup s table'
          ≡ (if is_some (lookup s table) then lookup s table else if s == k then some v else none))
    → ((s : ℕ) (w : V) → lookup s table ≡ some w → P s w)
    → P k v
    → (s : ℕ) (w : V) → lookup s table' ≡ some w
    → P s w
each-added P k v table table' e h p s w g = elim (Option-cases (lookup s table)) [
  | inr (u, q) ↦ h s w (q ∙ ground (arith, e s, q, g))
  | inl q ↦ elim (Bool-cases (s == k)) [
    | inl t ↦
        let same : v ≡ w = ground (arith, e s, q, t, g) in
        subst (P s) same (subst (λ x. P x v) (sym ((==_iff s k).0 t)) p)
    | inr t ↦ absurd (none_some (ground (arith, e s, q, t, g)))
  ]
]
  where
    none_some : false ≡ true → ⊥
    none_some z = cc z

abbrev pub is_nonnegative : ℤ → Bool
is_nonnegative (pos n) = true
is_nonnegative (negsuc k) = false

-- The dimensions of a tensor are those that were traced, for these values of the symbols.
abbrev pub FitDims : (ℕ → ℤ) → List DimExpr → List ℕ → Type 0
FitDims env [] [] = Unit
FitDims env [] (n ∷ shape) = ⊥
FitDims env (d ∷ dims) [] = ⊥
FitDims env (known k ∷ dims) (n ∷ shape) = FitDims env dims shape
FitDims env (of_symbol s ∷ dims) (n ∷ shape) = (env s ≡ pos n) × FitDims env dims shape
FitDims env (of_expression ∷ dims) (n ∷ shape) = FitDims env dims shape

-- So are the arguments of a call.
abbrev pub Fits : (ℕ → ℤ) → List Placeholder → List Arg → Type 0
Fits env [] args = Unit
Fits env (p ∷ ps) [] = ⊥
Fits env (tensor_input dims ∷ ps) (tensor_arg shape ∷ args) =
    FitDims env dims shape × Fits env ps args
Fits env (tensor_input dims ∷ ps) (int_arg z ∷ args) = ⊥
Fits env (tensor_input dims ∷ ps) (other_arg ∷ args) = ⊥
Fits env (symbol_input s nonnegative ∷ ps) (int_arg z ∷ args) =
    (z ≡ env s) × (nonnegative ≡ true → is_nonnegative z ≡ true) × Fits env ps args
Fits env (symbol_input s nonnegative ∷ ps) (tensor_arg shape ∷ args) = ⊥
Fits env (symbol_input s nonnegative ∷ ps) (other_arg ∷ args) = ⊥
Fits env (expression_input ∷ ps) (a ∷ args) = Fits env ps args
Fits env (no_input ∷ ps) (a ∷ args) = Fits env ps args

-- What `_symbol_values` reads at an entry of `symbol_args`
abbrev pub value_at : List Arg → ℕ × Option ℕ → Option ℤ
value_at args (i, some d) = dim_of (shape_of (get_elem? args i)) d
value_at args (i, none) = int_of (get_elem? args i)

module _ (env : ℕ → ℤ) (args : List Arg) where
  -- What the tables say of a symbol is its value, for a plan of inputs.
  pub record Right (plan : List (Kind × ℕ)) (f : Factory) : Type 0 where
    pub dims_right :
        (s : ℕ) (v : ℕ × ℕ)
        → lookup s f.dim_sources ≡ some v
        → dim_of (fed_shape plan args v.0) v.1 ≡ some (env s)
    pub args_right :
        (s : ℕ) (v : ℕ × Option ℕ)
        → lookup s f.symbol_args ≡ some v
        → value_at args v ≡ some (env s)

  -- A longer plan feeds the inputs it had as before, whatever is read off them.
  pub fed-append :
      (read : Option (List ℕ) → Option ℤ)
      → read none ≡ none
      → (plan : List (Kind × ℕ)) (e : Kind × ℕ) (i : ℕ) (z : ℤ)
      → read (fed_shape plan args i) ≡ some z
      → read (fed_shape (plan ++ (e ∷ [])) args i) ≡ some z
  unfolding fed_shape
  fed-append read empty [] e i z h = cc (h, empty)
  fed-append read empty (x ∷ plan) e zero z h = h
  fed-append read empty (x ∷ plan) e (suc i) z h = fed-append read empty plan e i z h

  pub fed-last :
      (plan : List (Kind × ℕ)) (kind : Kind) (arg : ℕ)
      → fed_shape (plan ++ ((kind, arg) ∷ [])) args (length plan) ≡ feed_at args (some (kind, arg))
  unfolding fed_shape
  fed-last [] kind arg = refl
  fed-last (x ∷ plan) kind arg = fed-last plan kind arg

  dim_of-at :
      (shape : List ℕ) (d n : ℕ) → get_elem? shape d ≡ some n → dim_of (some shape) d ≡ some (pos n)
  dim_of-at shape d n h = rw (h, dim_of) refl

  handle_dim-Right :
      (arg dim : ℕ) (d : DimExpr) (dims : List DimExpr) (shape rest : List ℕ) (f : Factory)
      (plan : List (Kind × ℕ))
      → get_elem? args arg ≡ some (tensor_arg shape)
      → fed_shape plan args (length f.input_plan) ≡ some shape
      → ((j : ℕ) → get_elem? shape (dim + j) ≡ get_elem? rest j)
      → FitDims env (d ∷ dims) rest
      → Right plan f
      → Right plan (handle_dim arg dim d f)
  handle_dim-Right arg dim (known k) dims shape rest f plan g e h fit r = r
  handle_dim-Right arg dim (of_symbol s) dims shape [] f plan g e h fit r = absurd fit
  handle_dim-Right arg dim (of_symbol s) dims shape (n ∷ rest) f plan g e h fit r =
      let plus : dim + 0 ≡ dim = omega arith in
      let at_dim : get_elem? shape dim ≡ some n =
        subst (λ x. get_elem? shape x ≡ some n) plus (h 0) in
      let value : dim_of (some shape) dim ≡ some (env s) =
        dim_of-at shape dim n at_dim ∙ ap some (sym fit.0) in
      record {
        dims_right =
            each-added (λ s v. dim_of (fed_shape plan args v.0) v.1 ≡ some (env s)) s
              (length f.input_plan, dim) f.dim_sources _
              (λ t. lookup-set_default t s (length f.input_plan, dim) f.dim_sources) r.dims_right
              (rw e value);
        args_right =
            each-added (λ s v. value_at args v ≡ some (env s)) s (arg, some dim) f.symbol_args _
              (λ t. lookup-set_default t s (arg, some dim) f.symbol_args) r.args_right (rw g value);
      }
  handle_dim-Right arg dim of_expression dims shape rest f plan g e h fit r = r

  FitDims-tail :
      (d : DimExpr) (dims : List DimExpr) (n : ℕ) (rest : List ℕ)
      → FitDims env (d ∷ dims) (n ∷ rest)
      → FitDims env dims rest
  FitDims-tail (known k) dims n rest fit = fit
  FitDims-tail (of_symbol s) dims n rest fit = fit.1
  FitDims-tail of_expression dims n rest fit = fit

  handle_dim-plan :
      (arg dim : ℕ) (d : DimExpr) (f : Factory) → (handle_dim arg dim d f).input_plan ≡ f.input_plan
  handle_dim-plan arg dim (known k) f = refl
  handle_dim-plan arg dim (of_symbol s) f = refl
  handle_dim-plan arg dim of_expression f = refl

  handle_dim-counted :
      (arg dim : ℕ) (d : DimExpr) (f : Factory)
      → (handle_dim arg dim d f).n_placeholders ≡ f.n_placeholders
  handle_dim-counted arg dim (known k) f = refl
  handle_dim-counted arg dim (of_symbol s) f = refl
  handle_dim-counted arg dim of_expression f = refl

  pub handle_dims-plan :
      (arg dim : ℕ) (dims : List DimExpr) (f : Factory)
      → (handle_dims arg dim dims f).input_plan ≡ f.input_plan
  unfolding handle_dims
  handle_dims-plan arg dim [] f = refl
  handle_dims-plan arg dim (d ∷ dims) f =
      handle_dims-plan arg (suc dim) dims (handle_dim arg dim d f) ∙ handle_dim-plan arg dim d f

  pub handle_dims-counted :
      (arg dim : ℕ) (dims : List DimExpr) (f : Factory)
      → (handle_dims arg dim dims f).n_placeholders ≡ f.n_placeholders
  unfolding handle_dims
  handle_dims-counted arg dim [] f = refl
  handle_dims-counted arg dim (d ∷ dims) f =
      handle_dims-counted arg (suc dim) dims (handle_dim arg dim d f)
      ∙ handle_dim-counted arg dim d f

  pub handle_dims-Right :
      (arg dim : ℕ) (dims : List DimExpr) (shape rest : List ℕ) (f : Factory)
      (plan : List (Kind × ℕ))
      → get_elem? args arg ≡ some (tensor_arg shape)
      → fed_shape plan args (length f.input_plan) ≡ some shape
      → ((j : ℕ) → get_elem? shape (dim + j) ≡ get_elem? rest j)
      → FitDims env dims rest
      → Right plan f
      → Right plan (handle_dims arg dim dims f)
  unfolding handle_dims
  handle_dims-Right arg dim [] shape rest f plan g e h fit r = r
  handle_dims-Right arg dim (d ∷ dims) shape [] f plan g e h fit r = absurd fit
  handle_dims-Right arg dim (d ∷ dims) shape (n ∷ rest) f plan g e h fit r =
      handle_dims-Right arg (suc dim) dims shape rest (handle_dim arg dim d f) plan g
        (ap (λ x. fed_shape plan args (length x)) (handle_dim-plan arg dim d f) ∙ e)
        (λ j.
          let plus : dim + suc j ≡ suc dim + j = omega arith in
          subst (λ x. get_elem? shape x ≡ get_elem? rest j) plus (h (suc j)))
        (FitDims-tail d dims n rest fit)
        (handle_dim-Right arg dim d dims shape (n ∷ rest) f plan g e h fit r)

  pub grow-Right :
      (plan : List (Kind × ℕ)) (e : Kind × ℕ) (f : Factory)
      → Right plan f
      → Right (plan ++ (e ∷ [])) f
  grow-Right plan e f r = record {
    dims_right =
        λ s v h. fed-append (λ x. dim_of x v.1) refl plan e v.0 (env s) (r.dims_right s v h);
    args_right = r.args_right;
  }
