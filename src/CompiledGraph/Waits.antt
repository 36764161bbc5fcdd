-- ===== src/CompiledGraph/Waits.antt =====
-- torch_mojo_backend/torch_compile_backend/collectives.py: what a `wait_tensor` waits for
-- (`_wait_source`, `waited_inputs`). A node is its position in the graph.
use torch_mojo_backend.Prelude.{
  ℕ, zero, suc, ◌<◌, Bool, true, false, not, ◌&&◌, ◌||◌, Option, none, some, List, [], ◌∷◌, ◌==◌,
  if◌then◌else◌, length, get_elem?, is_some, ◌≡◌, ◌↔◌, ◌⊎◌, refl, ap, subst, sym, ◌∙◌, inl, inr,
  Bool-cases, any, Option-cases, arith,
}
use torch_mojo_backend.Prelude.Sets.{elem}

-- What `_wait_source` tells apart: graph inputs; collectives; the waits; `getitem` and views, which
-- it looks through like the waits; other calls; nodes that are no calls.
pub data Target : Type 0 where
  graph_input collective_call wait_call view_call other_call no_call : Target

-- `has_args`, and the node that is `args[0]`, if that is a node
pub record FxNode : Type 0 where
  pub target : Target
  pub has_args : Bool
  pub first : Option ℕ

pub data WaitSource : Type 0 where
  from_input : ℕ → WaitSource
  of_graph nothing : WaitSource

-- The loop's body at a node, where `rest` is the next turn's answer.
abbrev pub source_of : ℕ → FxNode → Option WaitSource → Option WaitSource
source_of i n rest = elim n.target [
  | graph_input ↦ some (from_input i)
  | no_call ↦ some nothing
  | collective_call ↦ some (if n.has_args then of_graph else nothing)
  | other_call ↦ some nothing
  | _ ↦ if n.has_args then rest else some nothing
]

-- `_wait_source`, on fuel: none is a run that did not end.
unfoldable pub wait_source : ℕ → List FxNode → Option ℕ → Option WaitSource
wait_source zero g _ = none
wait_source (suc fuel) g none = some nothing
wait_source (suc fuel) g (some i) = elim (get_elem? g i) [
  | none ↦ some nothing
  | some n ↦ source_of i n (wait_source fuel g n.first)
]

abbrev pub is_wait_call : Target → Bool
is_wait_call wait_call = true
is_wait_call _ = false

abbrev pub is_graph_input : Target → Bool
is_graph_input graph_input = true
is_graph_input _ = false

-- The set after a wait whose source is known; none is the refusal of a wait on anything else.
abbrev pub add_source : Option WaitSource → List ℕ → Option (List ℕ)
add_source none waited = none
add_source (some nothing) waited = none
add_source (some of_graph) waited = some waited
add_source (some (from_input p)) waited = some (p ∷ waited)

-- The loop of `waited_inputs`
unfoldable pub collect_waited : List FxNode → List FxNode → List ℕ → Option (List ℕ)
unfolding wait_source
collect_waited g [] waited = some waited
collect_waited g (n ∷ nodes) waited = elim (is_wait_call n.target) [
  | false ↦ collect_waited g nodes waited
  | true ↦ elim (add_source (wait_source (suc (suc (length g))) g n.first) waited) [
    | none ↦ none
    | some waited' ↦ collect_waited g nodes waited'
  ]
]

-- The positions among the graph inputs of those that are in the set, at node `i` and input `k` on
unfoldable pub input_positions : List FxNode → ℕ → ℕ → List ℕ → List ℕ
unfolding elem
input_positions [] i k waited = []
input_positions (n ∷ nodes) i k waited = elim (is_graph_input n.target) [
  | false ↦ input_positions nodes (suc i) k waited
  | true ↦
      let rest = input_positions nodes (suc i) (suc k) waited in
      if elem i waited then k ∷ rest else rest
]

-- `waited_inputs`
unfoldable pub waited_inputs : List FxNode → Option (List ℕ)
unfolding collect_waited input_positions
waited_inputs g = elim (collect_waited g g []) [
  | none ↦ none
  | some waited ↦ some (input_positions g 0 0 waited)
]

-- An argument stands before its node in a graph.
abbrev pub InOrder : List FxNode → Type 0
InOrder g = (i : ℕ) (n : FxNode) (j : ℕ) → get_elem? g i ≡ some n → n.first ≡ some j → j < i

-- The node `i` is the graph input `p`, or leads to it through waits, selections and views.
pub data Reads (g : List FxNode) : ℕ → ℕ → Type 0 where
  here : (p : ℕ) (n : FxNode) → get_elem? g p ≡ some n → n.target ≡ graph_input → Reads g p p
  through :
      (i : ℕ) (n : FxNode) (j p : ℕ)
      → get_elem? g i ≡ some n
      → (n.target ≡ wait_call) ⊎ (n.target ≡ view_call)
      → n.has_args ≡ true
      → n.first ≡ some j
      → Reads g j p
      → Reads g i p

input_inj : {p q : ℕ} → some (from_input p) ≡ some (from_input q) → p ≡ q
input_inj e = cc e

module _ (g : List FxNode) where
  no_node : (fuel p : ℕ) → wait_source fuel g none ≡ some (from_input p) → ⊥
  unfolding wait_source
  no_node zero p h = cc h
  no_node (suc fuel) p h = cc h

  -- The answer at a node, as its definition has it.
  at_node :
      (fuel i : ℕ) (n : FxNode)
      → get_elem? g i ≡ some n
      → wait_source (suc fuel) g (some i) ≡ source_of i n (wait_source fuel g n.first)
  unfolding wait_source
  at_node fuel i n e = rw (e, wait_source) refl

  wait_source_complete :
      (ord : InOrder g) (fuel i p : ℕ)
      → i < fuel
      → Reads g i p
      → wait_source fuel g (some i) ≡ some (from_input p)
  wait_source_complete ord zero i p h r = ground arith
  wait_source_complete ord (suc fuel) i p h (here _ n e t) = at_node fuel i n e ∙ ground (arith, t)
  wait_source_complete ord (suc fuel) i p h (through _ n j _ e t a f r) =
      at_node fuel i n e
      ∙ ground (
        arith,
        t,
        a,
        ap (wait_source fuel g) f,
        wait_source_complete ord fuel j p (omega (arith, ord i n j e f)) r,
      )

  source_of-ends :
      (i : ℕ) (n : FxNode) (rest : Option WaitSource)
      → is_some rest ≡ true
      → is_some (source_of i n rest) ≡ true
  source_of-ends i n rest h = ground (arith, h)

  ends :
      (ord : InOrder g) (fuel i : ℕ) → suc i < fuel → is_some (wait_source fuel g (some i)) ≡ true
  unfolding wait_source
  ends ord zero i h = ground arith
  ends ord (suc zero) i h = ground arith
  ends ord (suc (suc fuel)) i h = elim (Option-cases (get_elem? g i)) [
    | inl e ↦ rw (e, wait_source) refl
    | inr (n, e) ↦
        ap is_some (at_node (suc fuel) i n e)
        ∙ source_of-ends i n _ (elim (Option-cases n.first) [
          | inl f ↦ rw f refl
          | inr (j, f) ↦ rw f (ends ord (suc fuel) j (omega (arith, ord i n j e f)))
        ])
  ]

  passes_on :
      (fuel i p : ℕ) (n : FxNode)
      → get_elem? g i ≡ some n
      → (n.target ≡ wait_call) ⊎ (n.target ≡ view_call)
      → n.has_args ≡ true
      → wait_source fuel g n.first ≡ some (from_input p)
      → ((j : ℕ) → wait_source fuel g (some j) ≡ some (from_input p) → Reads g j p)
      → Reads g i p
  passes_on fuel i p n e t a h ih = elim (Option-cases n.first) [
    | inl f ↦ absurd (no_node fuel p (sym (ap (wait_source fuel g) f) ∙ h))
    | inr (j, f) ↦ through i n j p e t a f (ih j (sym (ap (wait_source fuel g) f) ∙ h))
  ]

  first_found :
      (fuel i p : ℕ) (n : FxNode) (t : Target)
      → get_elem? g i ≡ some n
      → n.target ≡ t
      → source_of i n (wait_source fuel g n.first) ≡ some (from_input p)
      → ((j : ℕ) → wait_source fuel g (some j) ≡ some (from_input p) → Reads g j p)
      → Reads g i p
  unfolding wait_source
  first_found fuel i p n graph_input e t h ih =
      subst (λ q. Reads g i q) (input_inj (ground (arith, t, h))) (here i n e t)
  first_found fuel i p n no_call e t h ih = ground (arith, t, h)
  first_found fuel i p n collective_call e t h ih = ground (arith, t, h)
  first_found fuel i p n other_call e t h ih = ground (arith, t, h)
  first_found fuel i p n wait_call e t h ih =
      passes_on fuel i p n e (inl t) (ground (arith, t, h)) (ground (arith, t, h)) ih
  first_found fuel i p n view_call e t h ih =
      passes_on fuel i p n e (inr t) (ground (arith, t, h)) (ground (arith, t, h)) ih

  wait_source_sound :
      (fuel i p : ℕ) → wait_source fuel g (some i) ≡ some (from_input p) → Reads g i p
  unfolding wait_source
  wait_source_sound zero i p h = cc h
  wait_source_sound (suc fuel) i p h = elim (Option-cases (get_elem? g i)) [
    | inl e ↦ cc (rw (e, wait_source) at h)
    | inr (n, e) ↦
        first_found fuel i p n n.target e refl (sym (at_node fuel i n e) ∙ h)
          (λ j. wait_source_sound fuel j p)
  ]

-- In a graph whose arguments stand before their nodes the search at a node ends within as many
-- turns as nodes stand before it, and two more; it finds the graph input
-- `p` exactly when the node is `p` or leads to it through waits, selections and views.
pub wait_source-Reads :
    (g : List FxNode) (fuel i p : ℕ)
    → InOrder g
    → suc i < fuel
    → (is_some (wait_source fuel g (some i)) ≡ true)
      × ((wait_source fuel g (some i) ≡ some (from_input p)) ↔ Reads g i p)
wait_source-Reads g fuel i p ord h = (
  ends g ord fuel i h,
  (wait_source_sound g fuel i p, wait_source_complete g ord fuel i p (omega arith)),
)

-- Whether a node is a wait on something that leads to the input `p`, or to nothing.
abbrev pub waits_for : List FxNode → ℕ → FxNode → Bool
waits_for g p n = is_wait_call n.target && (elim (wait_source (suc (suc (length g))) g n.first) [
  | some (from_input q) ↦ p == q
  | _ ↦ false
])

abbrev pub is_refused : List FxNode → FxNode → Bool
is_refused g n = is_wait_call n.target && (elim (wait_source (suc (suc (length g))) g n.first) [
  | none ↦ true
  | some nothing ↦ true
  | _ ↦ false
])

-- What the loop has at the end, for the nodes that are left.
pub record Collected (g nodes : List FxNode) (waited : List ℕ) : Type 0 where
  pub ends_eq : is_some (collect_waited g nodes waited) ≡ not (any (is_refused g) nodes)
  pub members :
      (p : ℕ) (ws : List ℕ)
      → collect_waited g nodes waited ≡ some ws
      → elem p ws ≡ (elem p waited || any (waits_for g p) nodes)

after_wait :
    (g : List FxNode) (n : FxNode) (nodes : List FxNode) (waited : List ℕ)
    → is_wait_call n.target ≡ true
    → (r : Option WaitSource) → wait_source (suc (suc (length g))) g n.first ≡ r
    → ((waited' : List ℕ) → Collected g nodes waited')
    → Collected g (n ∷ nodes) waited
unfolding collect_waited any elem
after_wait g n nodes waited w none e ih = record {
  ends_eq = ground (arith, w, e);
  members = λ p ws h. ground (arith, w, e, h);
}
after_wait g n nodes waited w (some nothing) e ih = record {
  ends_eq = ground (arith, w, e);
  members = λ p ws h. ground (arith, w, e, h);
}
after_wait g n nodes waited w (some of_graph) e ih = record {
  ends_eq = ground (arith, w, e, (ih waited).ends_eq);
  members = λ p ws h. ground (arith, w, e, h, (ih waited).members p ws);
}
after_wait g n nodes waited w (some (from_input q)) e ih = record {
  ends_eq = ground (arith, w, e, (ih (q ∷ waited)).ends_eq);
  members = λ p ws h. ground (arith, w, e, h, (ih (q ∷ waited)).members p ws);
}

-- What `waited_inputs` collects: it refuses a graph exactly when one of its waits leads neither to a
-- graph input nor to a collective, and otherwise has exactly the inputs that some wait leads to.
pub collect_waited-Collected : (g nodes : List FxNode) (waited : List ℕ) → Collected g nodes waited
unfolding collect_waited any elem
collect_waited-Collected g [] waited = record {
  ends_eq = refl;
  members = λ p ws h. ground (arith, h);
}
collect_waited-Collected g (n ∷ nodes) waited = elim (Bool-cases (is_wait_call n.target)) [
  | inl w ↦
      after_wait g n nodes waited w _ refl (λ waited'. collect_waited-Collected g nodes waited')
  | inr w ↦
      let r = collect_waited-Collected g nodes waited in
      record {
        ends_eq = ground (arith, w, r.ends_eq);
        members = λ p ws h. ground (arith, w, h, r.members p ws);
      }
]
