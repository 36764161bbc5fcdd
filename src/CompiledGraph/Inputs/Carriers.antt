-- ===== src/CompiledGraph/Inputs/Carriers.antt =====
-- The carriers of symbols that no tensor has: every symbol that occurs gets its value in the graph,
-- and its value in a call.
use torch_mojo_backend.Prelude.{
  ℕ, suc, ◌-◌, Bool, true, false, ◌||◌, Option, none, some, List, [], ◌∷◌, ◌++◌, if◌then◌else◌,
  length, get_elem?, is_some, ℤ, pos, negsuc, ◌≡◌, refl, ap, ◌∙◌, inl, inr, Bool-cases, arith,
}
use torch_mojo_backend.CompiledGraph.Inputs.{
  Kind, tensor_kind, size_kind, signed_kind, lookup, Factory, add_carrier, add_carriers, Arg,
  int_arg, graph_input, feed_at, fed_shape, minus, carried,
}
use torch_mojo_backend.CompiledGraph.Inputs.Symbols.{
  lookup-append, each-added, is_nonnegative, Right, fed-append, fed-last, grow-Right,
}
use torch_mojo_backend.CompiledGraph.Inputs.Values.{SymintsFit, Right-same}

minus-zero : (n : ℕ) → minus n 0 ≡ pos n
minus-zero n = let same : n - 0 ≡ n = omega arith in ground (arith, same)

minus-below : (n k : ℕ) → n ≡ suc k → minus 0 n ≡ negsuc k
minus-below n k h = let same : n - 0 - 1 ≡ k = omega (arith, h) in ground (arith, same, h)

carried-value :
    (nonnegative : Bool) (z : ℤ)
    → (nonnegative ≡ true → is_nonnegative z ≡ true)
    → let kind = if nonnegative then size_kind else signed_kind in
      carried kind (graph_input kind (int_arg z)) ≡ some z
unfolding graph_input
carried-value true (pos n) b = refl
carried-value true (negsuc k) b = cc (b refl)
carried-value false (pos n) b = ap some (minus-zero n)
carried-value false (negsuc k) b = ap some (minus-below _ k (omega arith))

feed_at-argument :
    (args : List Arg) (kind : Kind) (arg : ℕ) (a : Arg)
    → get_elem? args arg ≡ some a
    → feed_at args (some (kind, arg)) ≡ graph_input kind a
feed_at-argument args kind arg a g =
    ap (λ x. elim x as (λ _. Option (List ℕ)) [ none ↦ none | some b ↦ graph_input kind b ]) g

module _ (env : ℕ → ℤ) (args : List Arg) where
  abbrev pub CarriersRight : List (Kind × ℕ) → Factory → Type 0
  CarriersRight plan f =
      (s : ℕ) (v : Kind × ℕ)
      → lookup s f.carriers ≡ some v
      → carried v.0 (fed_shape plan args v.1) ≡ some (env s)

  pub record Inputs (f : Factory) : Type 0 where
    pub sources_right : Right env args f.input_plan f
    pub carriers_right : CarriersRight f.input_plan f

  carried-none : (kind : Kind) → carried kind none ≡ none
  carried-none tensor_kind = refl
  carried-none size_kind = refl
  carried-none signed_kind = refl

  add_carrier-Inputs :
      (arg s : ℕ) (nonnegative : Bool) (f : Factory)
      → get_elem? args arg ≡ some (int_arg (env s))
      → (nonnegative ≡ true → is_nonnegative (env s) ≡ true)
      → Inputs f
      → Inputs (add_carrier arg s nonnegative f)
  unfolding add_carrier
  add_carrier-Inputs arg s nonnegative f g b r =
      let kind = if nonnegative then size_kind else signed_kind in
      let e : Kind × ℕ = (kind, arg) in
      let entry : Kind × ℕ = (kind, length f.input_plan) in
      let plan = f.input_plan ++ (e ∷ []) in
      let fed : fed_shape plan args (length f.input_plan) ≡ graph_input kind (int_arg (env s)) =
        fed-last env args f.input_plan kind arg
        ∙ feed_at-argument args kind arg (int_arg (env s)) g in
      elim (Bool-cases (is_some (lookup s f.dim_sources) || is_some (lookup s f.carriers))) [
        | inl q ↦ rw q r
        | inr q ↦ rw q (record {
          sources_right =
              Right-same env args plan plan f _ refl refl refl
                (grow-Right env args f.input_plan e f r.sources_right);
          carriers_right =
              each-added (λ s v. carried v.0 (fed_shape plan args v.1) ≡ some (env s)) s entry
                f.carriers _ (λ t. lookup-append t s entry f.carriers)
                (λ t v h.
                  fed-append env args (carried v.0) (carried-none v.0) f.input_plan e v.1 (env t)
                    (r.carriers_right t v h))
                (ap (carried kind) fed ∙ carried-value nonnegative (env s) b);
        })
      ]

  pub add_carriers-Inputs :
      (symints : List (ℕ × (ℕ × Bool))) (f : Factory)
      → SymintsFit env args symints
      → Inputs f
      → Inputs (add_carriers symints f)
  unfolding add_carriers
  add_carriers-Inputs [] f h r = r
  add_carriers-Inputs ((arg, (s, nonnegative)) ∷ symints) f h r =
      add_carriers-Inputs symints (add_carrier arg s nonnegative f) h.2
        (add_carrier-Inputs arg s nonnegative f h.0 h.1 r)
