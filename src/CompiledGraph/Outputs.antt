-- ===== src/CompiledGraph/Outputs.antt =====
-- torch_mojo_backend/torch_compile_backend/compiler.py: what a compiled graph returns. `handle_output`
-- writes a blueprint while the graph is built, `reconstruct_from_blueprint` reads it at every call.
use torch_mojo_backend.Prelude.{
  ℕ, suc, Option, none, some, List, [], ◌∷◌, ◌++◌, map, length, get_elem?, append_assoc, append-nil,
  length-append, ◌≡◌, refl, ap, ◌∙◌, sym, arith,
}

-- An entry of the output node, after `_input_view` or the conversion. Views, dimensions and tensors
-- of the graph are numbers.
pub data Output : Type 0 where
  view_of : ℕ → Output
  absent : Output
  dim : ℕ → Output
  tensor : ℕ → Output

-- `OutputBlueprintKind`, with the index
pub data Slot : Type 0 where
  none_slot : Slot
  tensor_slot dim_slot view_slot : ℕ → Slot

-- What the graph returns: a tensor's value, or a dimension as a tensor.
pub data GraphOutput : Type 0 where
  tensor_output dim_output : ℕ → GraphOutput

pub record Outputs : Type 0 where
  pub blueprint : List Slot
  pub tensors : List GraphOutput
  pub views : List ℕ

-- The loop of `handle_output`
unfoldable pub add_output : Output → Outputs → Outputs
add_output (view_of v) o = record o {
  blueprint = o.blueprint ++ (view_slot (length o.views) ∷ []);
  views = o.views ++ (v ∷ []);
}
add_output absent o = record o { blueprint = o.blueprint ++ (none_slot ∷ []) }
add_output (dim d) o = record o {
  blueprint = o.blueprint ++ (dim_slot (length o.tensors) ∷ []);
  tensors = o.tensors ++ (dim_output d ∷ []);
}
add_output (tensor t) o = record o {
  blueprint = o.blueprint ++ (tensor_slot (length o.tensors) ∷ []);
  tensors = o.tensors ++ (tensor_output t ∷ []);
}

unfoldable pub add_outputs : List Output → Outputs → Outputs
unfolding add_output
add_outputs [] o = o
add_outputs (x ∷ xs) o = add_outputs xs (add_output x o)

unfoldable pub handle_output : List Output → Outputs
unfolding add_outputs
handle_output outputs = add_outputs outputs (record { blueprint = []; tensors = []; views = [] })

-- A call: `compute` is the tensor that the graph returns for an output, `to_int` is `.item()`, and
-- `rebuild` is `_input_view` on the arguments of the call.
pub record Call : Type 0 where
  pub compute : GraphOutput → ℕ
  pub to_int : ℕ → ℕ
  pub rebuild : ℕ → ℕ

pub data Result : Type 0 where
  none_result : Result
  tensor_result int_result view_result : ℕ → Result

abbrev pub map_option {ℓ} : {A B : Type ℓ} → (A → B) → Option A → Option B
map_option f none = none
map_option f (some a) = some (f a)

-- An entry of the result; none is an index out of range.
unfoldable pub fill : Call → List ℕ → List ℕ → Slot → Option Result
fill c max_outputs views none_slot = some none_result
fill c max_outputs views (tensor_slot i) = map_option tensor_result (get_elem? max_outputs i)
fill c max_outputs views (dim_slot i) =
    map_option (λ t. int_result (c.to_int t)) (get_elem? max_outputs i)
fill c max_outputs views (view_slot i) =
    map_option (λ v. view_result (c.rebuild v)) (get_elem? views i)

-- `reconstruct_from_blueprint`
unfoldable pub reconstruct_from_blueprint :
    Call → List ℕ → List ℕ → List Slot → Option (List Result)
unfolding fill
reconstruct_from_blueprint c max_outputs views [] = some []
reconstruct_from_blueprint c max_outputs views (s ∷ blueprint) = elim (fill c max_outputs views s) [
  | none ↦ none
  | some r ↦ map_option (λ rs. r ∷ rs) (reconstruct_from_blueprint c max_outputs views blueprint)
]

-- What the traced function returns in the place of an output.
unfoldable pub meaning : Call → Output → Result
meaning c (view_of v) = view_result (c.rebuild v)
meaning c absent = none_result
meaning c (dim d) = int_result (c.to_int (c.compute (dim_output d)))
meaning c (tensor t) = tensor_result (c.compute (tensor_output t))

-- What a list of outputs adds: the graph's outputs, the views, and the slots.
tensors_of : List Output → List GraphOutput
tensors_of [] = []
tensors_of (view_of v ∷ xs) = tensors_of xs
tensors_of (absent ∷ xs) = tensors_of xs
tensors_of (dim d ∷ xs) = dim_output d ∷ tensors_of xs
tensors_of (tensor t ∷ xs) = tensor_output t ∷ tensors_of xs

views_of : List Output → List ℕ
views_of [] = []
views_of (view_of v ∷ xs) = v ∷ views_of xs
views_of (absent ∷ xs) = views_of xs
views_of (dim d ∷ xs) = views_of xs
views_of (tensor t ∷ xs) = views_of xs

slots : ℕ → ℕ → List Output → List Slot
slots i j [] = []
slots i j (view_of v ∷ xs) = view_slot j ∷ slots i (suc j) xs
slots i j (absent ∷ xs) = none_slot ∷ slots i j xs
slots i j (dim d ∷ xs) = dim_slot i ∷ slots (suc i) j xs
slots i j (tensor t ∷ xs) = tensor_slot i ∷ slots (suc i) j xs

record Adds (xs : List Output) (o o' : Outputs) : Type 0 where
  blueprint_eq : o'.blueprint ≡ o.blueprint ++ slots (length o.tensors) (length o.views) xs
  tensors_eq : o'.tensors ≡ o.tensors ++ tensors_of xs
  views_eq : o'.views ≡ o.views ++ views_of xs

length-append_last {ℓ} :
    {A : Type ℓ} (xs : List A) (x : A) → length (xs ++ (x ∷ [])) ≡ suc (length xs)
length-append_last xs x = omega (arith, length-append xs (x ∷ []))

add_outputs-Adds : (xs : List Output) (o : Outputs) → Adds xs o (add_outputs xs o)
unfolding add_outputs slots tensors_of views_of add_output
add_outputs-Adds [] o = record {
  blueprint_eq = sym (append-nil o.blueprint);
  tensors_eq = sym (append-nil o.tensors);
  views_eq = sym (append-nil o.views);
}
add_outputs-Adds (view_of v ∷ xs) o =
    let a = add_outputs-Adds xs (add_output (view_of v) o) in
    record {
      blueprint_eq =
          a.blueprint_eq
          ∙ append_assoc o.blueprint _ _
          ∙ ap (λ n. o.blueprint ++ (view_slot (length o.views) ∷ slots (length o.tensors) n xs))
              (length-append_last o.views v);
      tensors_eq = a.tensors_eq;
      views_eq = a.views_eq ∙ append_assoc o.views _ _;
    }
add_outputs-Adds (absent ∷ xs) o =
    let a = add_outputs-Adds xs (add_output absent o) in
    record {
      blueprint_eq = a.blueprint_eq ∙ append_assoc o.blueprint _ _;
      tensors_eq = a.tensors_eq;
      views_eq = a.views_eq;
    }
add_outputs-Adds (dim d ∷ xs) o =
    let a = add_outputs-Adds xs (add_output (dim d) o) in
    record {
      blueprint_eq =
          a.blueprint_eq
          ∙ append_assoc o.blueprint _ _
          ∙ ap (λ n. o.blueprint ++ (dim_slot (length o.tensors) ∷ slots n (length o.views) xs))
              (length-append_last o.tensors (dim_output d));
      tensors_eq = a.tensors_eq ∙ append_assoc o.tensors _ _;
      views_eq = a.views_eq;
    }
add_outputs-Adds (tensor t ∷ xs) o =
    let a = add_outputs-Adds xs (add_output (tensor t) o) in
    record {
      blueprint_eq =
          a.blueprint_eq
          ∙ append_assoc o.blueprint _ _
          ∙ ap (λ n. o.blueprint ++ (tensor_slot (length o.tensors) ∷ slots n (length o.views) xs))
              (length-append_last o.tensors (tensor_output t));
      tensors_eq = a.tensors_eq ∙ append_assoc o.tensors _ _;
      views_eq = a.views_eq;
    }

get_elem?-middle {ℓ} :
    {A : Type ℓ} (xs : List A) (y : A) (ys : List A)
    → get_elem? (xs ++ (y ∷ ys)) (length xs) ≡ some y
get_elem?-middle [] y ys = refl
get_elem?-middle (x ∷ xs) y ys = get_elem?-middle xs y ys

-- The results of the slots, behind lists of tensors and views of any length.
module _ (c : Call) where
  reconstruct-cons :
      (ts vs : List ℕ) (s : Slot) (b : List Slot) (r : Result) (rs : List Result)
      → fill c ts vs s ≡ some r
      → reconstruct_from_blueprint c ts vs b ≡ some rs
      → reconstruct_from_blueprint c ts vs (s ∷ b) ≡ some (r ∷ rs)
  unfolding reconstruct_from_blueprint
  reconstruct-cons ts vs s b r rs f g = rw (f, g, reconstruct_from_blueprint) refl

  reconstruct-slots :
      (xs : List Output) (ts vs : List ℕ)
      → reconstruct_from_blueprint c
          (ts ++ map c.compute (tensors_of xs))
          (vs ++ views_of xs)
          (slots (length ts) (length vs) xs)
        ≡ some (map (meaning c) xs)
  unfolding reconstruct_from_blueprint slots tensors_of views_of fill meaning
  reconstruct-slots [] ts vs = refl
  reconstruct-slots (absent ∷ xs) ts vs = rw (reconstruct-slots xs ts vs) refl
  reconstruct-slots (view_of v ∷ xs) ts vs =
      reconstruct-cons (ts ++ map c.compute (tensors_of xs)) (vs ++ (v ∷ views_of xs))
        (view_slot (length vs)) (slots (length ts) (suc (length vs)) xs) (view_result (c.rebuild v))
        (map (meaning c) xs)
        (ap (map_option (λ v. view_result (c.rebuild v))) (get_elem?-middle vs v (views_of xs)))
        (rw (← append_assoc vs (v ∷ []) (views_of xs), ← length-append_last vs v)
          (reconstruct-slots xs ts (vs ++ (v ∷ []))))
  reconstruct-slots (dim d ∷ xs) ts vs =
      let t = c.compute (dim_output d) in
      reconstruct-cons (ts ++ (t ∷ map c.compute (tensors_of xs))) (vs ++ views_of xs)
        (dim_slot (length ts)) (slots (suc (length ts)) (length vs) xs) (int_result (c.to_int t))
        (map (meaning c) xs)
        (ap (map_option (λ t. int_result (c.to_int t)))
          (get_elem?-middle ts t (map c.compute (tensors_of xs))))
        (rw (← append_assoc ts (t ∷ []) (map c.compute (tensors_of xs)), ← length-append_last ts t)
          (reconstruct-slots xs (ts ++ (t ∷ [])) vs))
  reconstruct-slots (tensor d ∷ xs) ts vs =
      let t = c.compute (tensor_output d) in
      reconstruct-cons (ts ++ (t ∷ map c.compute (tensors_of xs))) (vs ++ views_of xs)
        (tensor_slot (length ts)) (slots (suc (length ts)) (length vs) xs) (tensor_result t)
        (map (meaning c) xs)
        (ap (map_option tensor_result) (get_elem?-middle ts t (map c.compute (tensors_of xs))))
        (rw (← append_assoc ts (t ∷ []) (map c.compute (tensors_of xs)), ← length-append_last ts t)
          (reconstruct-slots xs (ts ++ (t ∷ [])) vs))

-- Reading the blueprint that `handle_output` writes, on what the graph computes for its outputs,
-- gives every output of the traced function its own value in its own place, with no index out of
-- range: None where it is None, an integer for a dimension, an argument's view for a view.
pub reconstruct_from_blueprint-handle_output :
    (c : Call) (outputs : List Output)
    → reconstruct_from_blueprint c
        (map c.compute (handle_output outputs).tensors)
        (handle_output outputs).views
        (handle_output outputs).blueprint
      ≡ some (map (meaning c) outputs)
unfolding handle_output
reconstruct_from_blueprint-handle_output c outputs =
    let a = add_outputs-Adds outputs (record { blueprint = []; tensors = []; views = [] }) in
    rw (a.blueprint_eq, a.tensors_eq, a.views_eq) (reconstruct-slots c outputs [] [])
