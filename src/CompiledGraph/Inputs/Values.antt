-- ===== src/CompiledGraph/Inputs/Values.antt =====
-- A graph's tables give every symbol the value that the call's arguments have for it.
use torch_mojo_backend.Prelude.{
  ℕ, suc, ◌+◌, Bool, true, Option, none, some, List, [], ◌∷◌, ◌++◌, length, get_elem?, ℤ, ◌≡◌, refl,
  ap, ◌∙◌, sym, subst, arith,
}
use torch_mojo_backend.CompiledGraph.Inputs.{
  Kind, tensor_kind, DimExpr, known, of_symbol, of_expression, Placeholder, tensor_input,
  symbol_input, expression_input, no_input, lookup, Factory, handle_dim, handle_dims, counted,
  handle_placeholder, handle_all, Arg, tensor_arg, int_arg, other_arg, graph_input, fed_shape,
  dim_of, int_of,
}
use torch_mojo_backend.CompiledGraph.Inputs.Symbols.{
  value_at, lookup-set_default, each-added, is_nonnegative, FitDims, Fits, Right, fed-last,
  handle_dims-plan, handle_dims-counted, handle_dims-Right, grow-Right,
}

module _ (env : ℕ → ℤ) (args : List Arg) where
  -- The recorded symbol placeholders are those arguments.
  abbrev pub SymintsFit : List (ℕ × (ℕ × Bool)) → Type 0
  SymintsFit [] = Unit
  SymintsFit ((arg, (s, nonnegative)) ∷ symints) =
      (get_elem? args arg ≡ some (int_arg (env s)))
      × (nonnegative ≡ true → is_nonnegative (env s) ≡ true)
      × SymintsFit symints

  SymintsFit-append :
      (symints : List (ℕ × (ℕ × Bool))) (arg s : ℕ) (nonnegative : Bool)
      → SymintsFit symints
      → get_elem? args arg ≡ some (int_arg (env s))
      → (nonnegative ≡ true → is_nonnegative (env s) ≡ true)
      → SymintsFit (symints ++ ((arg, (s, nonnegative)) ∷ []))
  SymintsFit-append [] arg s nonnegative h g b = (g, b, tt)
  SymintsFit-append ((arg', (s', nonnegative')) ∷ symints) arg s nonnegative h g b =
      (h.0, h.1, SymintsFit-append symints arg s nonnegative h.2 g b)

  pub record Tables (f : Factory) : Type 0 where
    pub right : Right env args f.input_plan f
    pub symints_fit : SymintsFit f.symints

  pub handle_dims-symints :
      (arg dim : ℕ) (dims : List DimExpr) (f : Factory)
      → (handle_dims arg dim dims f).symints ≡ f.symints
  unfolding handle_dims
  handle_dims-symints arg dim [] f = refl
  handle_dims-symints arg dim (known k ∷ dims) f = handle_dims-symints arg (suc dim) dims f
  handle_dims-symints arg dim (of_symbol s ∷ dims) f =
      handle_dims-symints arg (suc dim) dims (handle_dim arg dim (of_symbol s) f)
  handle_dims-symints arg dim (of_expression ∷ dims) f = handle_dims-symints arg (suc dim) dims f

  pub Right-same :
      (plan plan' : List (Kind × ℕ)) (f g : Factory)
      → plan ≡ plan'
      → f.dim_sources ≡ g.dim_sources
      → f.symbol_args ≡ g.symbol_args
      → Right env args plan f
      → Right env args plan' g
  Right-same plan plan' f g p d a r = record {
    dims_right = λ s v h.
        subst (λ x. dim_of (fed_shape x args v.0) v.1 ≡ some (env s)) p
          (r.dims_right s v (ap (λ t. lookup s t) d ∙ h));
    args_right = λ s v h. r.args_right s v (ap (λ t. lookup s t) a ∙ h);
  }

  tensor-Tables :
      (dims : List DimExpr) (shape : List ℕ) (f : Factory)
      → get_elem? args f.n_placeholders ≡ some (tensor_arg shape)
      → FitDims env dims shape
      → Tables f
      → Tables (handle_placeholder (tensor_input dims) f)
  unfolding handle_placeholder fed_shape
  tensor-Tables dims shape f g fit t =
      let n = f.n_placeholders in
      let e : Kind × ℕ = (tensor_kind, n) in
      let fed : fed_shape (f.input_plan ++ (e ∷ [])) args (length f.input_plan) ≡ some shape =
        fed-last env args f.input_plan tensor_kind n
        ∙ ap
            (λ a. elim a as (λ _. Option (List ℕ)) [
              | none ↦ none
              | some a ↦ graph_input tensor_kind a
            ])
            g in
      let r =
        handle_dims-Right env args n 0 dims shape shape f (f.input_plan ++ (e ∷ [])) g fed
          (λ j. let drop_zero : 0 + j ≡ j = omega arith in ap (λ x. get_elem? shape x) drop_zero)
          fit (grow-Right env args f.input_plan e f t.right) in
      record {
        right =
            Right-same _ _ (handle_dims n 0 dims f) _
              (ap (λ x. x ++ (e ∷ [])) (sym (handle_dims-plan env args n 0 dims f))) refl refl r;
        symints_fit = subst SymintsFit (sym (handle_dims-symints n 0 dims f)) t.symints_fit;
      }

  symbol-Tables :
      (s : ℕ) (nonnegative : Bool) (f : Factory)
      → get_elem? args f.n_placeholders ≡ some (int_arg (env s))
      → (nonnegative ≡ true → is_nonnegative (env s) ≡ true)
      → Tables f
      → Tables (handle_placeholder (symbol_input s nonnegative) f)
  unfolding handle_placeholder
  symbol-Tables s nonnegative f g b t = record {
    right = record {
      dims_right = t.right.dims_right;
      args_right =
          each-added (λ s v. value_at args v ≡ some (env s)) s (f.n_placeholders, none)
            f.symbol_args _ (λ u. lookup-set_default u s (f.n_placeholders, none) f.symbol_args)
            t.right.args_right (ap int_of g);
    };
    symints_fit = SymintsFit-append f.symints f.n_placeholders s nonnegative t.symints_fit g b;
  }

  skip-Tables : (f : Factory) → Tables f → Tables (counted f)
  skip-Tables f t = record {
    right = Right-same _ _ f _ refl refl refl t.right;
    symints_fit = t.symints_fit;
  }

  handle_placeholder-counted :
      (p : Placeholder) (f : Factory)
      → (handle_placeholder p f).n_placeholders ≡ suc f.n_placeholders
  unfolding handle_placeholder
  handle_placeholder-counted (tensor_input dims) f =
      ap (λ n. suc n) (handle_dims-counted env args f.n_placeholders 0 dims f)
  handle_placeholder-counted (symbol_input s nonnegative) f = refl
  handle_placeholder-counted expression_input f = refl
  handle_placeholder-counted no_input f = refl

  -- The arguments from here on are these.
  abbrev pub At : ℕ → List Arg → Type 0
  At n rest = (j : ℕ) → get_elem? args (n + j) ≡ get_elem? rest j

  At-here : (n : ℕ) (a : Arg) (rest : List Arg) → At n (a ∷ rest) → get_elem? args n ≡ some a
  At-here n a rest h =
      let drop_zero : n + 0 ≡ n = omega arith in
      subst (λ x. get_elem? args x ≡ some a) drop_zero (h 0)

  At-next :
      (p : Placeholder) (f : Factory) (a : Arg) (rest : List Arg)
      → At f.n_placeholders (a ∷ rest)
      → At (handle_placeholder p f).n_placeholders rest
  At-next p f a rest h =
      subst (λ n. At n rest) (sym (handle_placeholder-counted p f))
        (λ j.
          let shift : f.n_placeholders + suc j ≡ suc f.n_placeholders + j = omega arith in
          subst (λ x. get_elem? args x ≡ get_elem? rest j) shift (h (suc j)))

  handle_placeholder-Tables :
      (p : Placeholder) (ps : List Placeholder) (a : Arg) (rest : List Arg) (f : Factory)
      → get_elem? args f.n_placeholders ≡ some a
      → Fits env (p ∷ ps) (a ∷ rest)
      → Tables f
      → Tables (handle_placeholder p f) × Fits env ps rest
  unfolding handle_placeholder
  handle_placeholder-Tables (tensor_input dims) ps (tensor_arg shape) rest f g fit t =
      (tensor-Tables dims shape f g fit.0 t, fit.1)
  handle_placeholder-Tables (tensor_input dims) ps (int_arg z) rest f g fit t = absurd fit
  handle_placeholder-Tables (tensor_input dims) ps other_arg rest f g fit t = absurd fit
  handle_placeholder-Tables (symbol_input s nonnegative) ps (tensor_arg shape) rest f g fit t =
      absurd fit
  handle_placeholder-Tables (symbol_input s nonnegative) ps (int_arg z) rest f g fit t = (
    symbol-Tables s nonnegative f (g ∙ ap (λ x. some (int_arg x)) fit.0)
        (λ b. subst (λ x. is_nonnegative x ≡ true) fit.0 (fit.1 b)) t,
    fit.2,
  )
  handle_placeholder-Tables (symbol_input s nonnegative) ps other_arg rest f g fit t = absurd fit
  handle_placeholder-Tables expression_input ps a rest f g fit t = (skip-Tables f t, fit)
  handle_placeholder-Tables no_input ps a rest f g fit t = (skip-Tables f t, fit)

  pub handle_all-Tables :
      (ps : List Placeholder) (rest : List Arg) (f : Factory)
      → At f.n_placeholders rest
      → Fits env ps rest
      → Tables f
      → Tables (handle_all ps f)
  unfolding handle_all
  handle_all-Tables [] rest f h fit t = t
  handle_all-Tables (p ∷ ps) [] f h fit t = absurd fit
  handle_all-Tables (p ∷ ps) (a ∷ rest) f h fit t =
      let next =
        handle_placeholder-Tables p ps a rest f (At-here f.n_placeholders a rest h) fit t in
      handle_all-Tables ps rest (handle_placeholder p f) (At-next p f a rest h) next.1 next.0
