-- ===== src/CompiledGraph/Started.antt =====
-- Every collective of a compiled graph is started once and waited for once, after its start.
use torch_mojo_backend.Prelude.{
  ℕ, zero, suc, ◌+◌, ◌<◌, Bool, true, false, ◌&&◌, ◌||◌, Option, none, some, List, [], ◌∷◌, ◌++◌,
  ◌==◌, ltb, leb, if◌then◌else◌, length, get_elem?, get_or, set, count_up, ◌≡◌, refl, subst, inl,
  inr, Bool-cases, Option-cases, arith, ==_iff, length-set, length-append,
}
use torch_mojo_backend.CompiledGraph.{
  Value, Values, plain, pending, several, nil, more, Args, GraphOp, start_op, wait_op, Lowering,
  start, wait_one, wait, wait_each, convert_all, Call, placeholder, wait_tensor, getitem,
  collective, ordinary, bind_value, select, start_each, start_call, bind_option, lower_on, args_of,
  lower, lower_all, wait_ids, finish, output_waits, lower_output, lower_graph,
}

abbrev pub is_start : ℕ → GraphOp → Bool
is_start i (start_op j) = i == j
is_start i (wait_op j) = false

abbrev pub is_wait : ℕ → GraphOp → Bool
is_wait i (start_op j) = false
is_wait i (wait_op j) = i == j

unfoldable pub count : (GraphOp → Bool) → List GraphOp → ℕ
count p [] = 0
count p (o ∷ ops) = (if p o then 1 else 0) + count p ops

-- Whether a wait comes after its start.
abbrev pub follows_start : GraphOp → List GraphOp → Bool
follows_start (start_op i) ops = true
follows_start (wait_op i) ops = ltb 0 (count (is_start i) ops)

unfoldable pub in_order : List GraphOp → Bool
unfolding count
in_order [] = true
in_order (o ∷ ops) = follows_start o ops && in_order ops

some_inj : {s s' : Lowering} → some s ≡ some s' → s ≡ s'
some_inj e = cc e

record Inv (s : Lowering) : Type 0 where
  starts : (i : ℕ) → count (is_start i) s.ops ≡ (if ltb i (length s.started) then 1 else 0)
  waits :
      (i : ℕ) → count (is_wait i) s.ops ≡ (if get_or (get_elem? s.started i) false then 1 else 0)
  order : in_order s.ops ≡ true

get_elem?-append_last :
    (xs : List Bool) (i : ℕ)
    → get_or (get_elem? (xs ++ (false ∷ [])) i) false ≡ get_or (get_elem? xs i) false
get_elem?-append_last [] zero = refl
get_elem?-append_last [] (suc i) = refl
get_elem?-append_last (x ∷ xs) zero = refl
get_elem?-append_last (x ∷ xs) (suc i) = get_elem?-append_last xs i

start-Inv : (s : Lowering) → Inv s → Inv (start s)
unfolding start count in_order
start-Inv s v = record {
  starts = λ i. ground (arith, v.starts i, length-append s.started (false ∷ []));
  waits = λ i. ground (arith, v.waits i, get_elem?-append_last s.started i);
  order = v.order;
}

in_range : (xs : List Bool) (i : ℕ) → get_or (get_elem? xs i) true ≡ false → i < length xs
in_range [] i h = cc h
in_range (x ∷ xs) zero h = omega arith
in_range (x ∷ xs) (suc i) h = omega (arith, in_range xs i h)

not_waited :
    (xs : List Bool) (i : ℕ)
    → get_or (get_elem? xs i) true ≡ false
    → get_or (get_elem? xs i) false ≡ false
not_waited xs i h = ground (arith, h)

get_or-set :
    (xs : List Bool) (i j : ℕ)
    → i < length xs
    → get_or (get_elem? (set xs i true) j) false ≡ (j == i || get_or (get_elem? xs j) false)
get_or-set [] i j h = ground arith
get_or-set (x ∷ xs) zero zero h = ground arith
get_or-set (x ∷ xs) zero (suc j) h = ground arith
get_or-set (x ∷ xs) (suc i) zero h = ground arith
get_or-set (x ∷ xs) (suc i) (suc j) h = ground (arith, get_or-set xs i j (omega arith))

waiting-Inv :
    (i : ℕ) (s : Lowering)
    → get_or (get_elem? s.started i) true ≡ false
    → Inv s
    → Inv (record s { started = set s.started i true; ops = wait_op i ∷ s.ops })
unfolding count in_order
waiting-Inv i s h v = record {
  starts = λ j. ground (arith, v.starts j, length-set s.started i true);
  waits = λ j. elim (Bool-cases (j == i)) [
    | inl e ↦ ground (
      arith,
      e,
      v.waits j,
      v.waits i,
      get_or-set s.started i j (in_range s.started i h),
      not_waited s.started i h,
      (==_iff j i).0 e,
    )
    | inr e ↦ ground (arith, e, v.waits j, get_or-set s.started i j (in_range s.started i h))
  ];
  order = ground (arith, v.order, v.starts i, in_range s.started i h);
}

wait_one-Inv : (i : ℕ) (s : Lowering) → Inv s → Inv (wait_one i s)
unfolding wait_one
wait_one-Inv i s v = elim (Bool-cases (get_or (get_elem? s.started i) true)) [
  | inl e ↦ rw e v
  | inr e ↦ rw e (waiting-Inv i s e v)
]

mutual
  unfolding wait

  wait-Inv : (v : Value) (s : Lowering) → Inv s → Inv (wait v s).1
  wait-Inv plain s k = k
  wait-Inv (pending i) s k = wait_one-Inv i s k
  wait-Inv (several vs) s k = wait_each-Inv vs s k

  wait_each-Inv : (vs : Values) (s : Lowering) → Inv s → Inv (wait_each vs s).1
  wait_each-Inv nil s k = k
  wait_each-Inv (more v vs) s k = wait_each-Inv vs (wait v s).1 (wait-Inv v s k)

start_each-Inv : (n : ℕ) (s : Lowering) → Inv s → Inv (start_each n s).1
unfolding start_each
start_each-Inv zero s k = k
start_each-Inv (suc n) s k = start_each-Inv n (start s) (start-Inv s k)

start_call-Inv : (c : Bool) (n : ℕ) (s : Lowering) → Inv s → Inv (start_call c n s)
start_call-Inv true n s k =
    let r = start_each-Inv n s k in record { starts = r.starts; waits = r.waits; order = r.order }
start_call-Inv false n s k =
    let r = start-Inv s k in record { starts = r.starts; waits = r.waits; order = r.order }

bind-Inv : (v : Value) (s : Lowering) → Inv s → Inv (bind_value v s)
bind-Inv v s k = record { starts = k.starts; waits = k.waits; order = k.order }

wait_ids-Inv : (is : List ℕ) (s : Lowering) → Inv s → Inv (wait_ids is s)
unfolding wait_ids
wait_ids-Inv [] s k = k
wait_ids-Inv (i ∷ is) s k = wait_ids-Inv is (wait_one i s) (wait_one-Inv i s k)

-- Whether a collective was waited for.
abbrev waited : Lowering → ℕ → Bool
waited s i = get_or (get_elem? s.started i) false

own_waited :
    (xs : List Bool) (i : ℕ)
    → i < length xs
    → get_or (get_elem? xs i) true ≡ true
    → get_or (get_elem? xs i) false ≡ true
own_waited [] i h e = ground arith
own_waited (x ∷ xs) zero h e = e
own_waited (x ∷ xs) (suc i) h e = own_waited xs i (omega arith) e

length-wait_one : (i : ℕ) (s : Lowering) → length (wait_one i s).started ≡ length s.started
unfolding wait_one
length-wait_one i s = ground (arith, length-set s.started i true)

wait_one_self : (i : ℕ) (s : Lowering) → i < length s.started → waited (wait_one i s) i ≡ true
unfolding wait_one
wait_one_self i s h = ground (arith, get_or-set s.started i i h, own_waited s.started i h)

wait_one-stays : (i j : ℕ) (s : Lowering) → waited s j ≡ true → waited (wait_one i s) j ≡ true
unfolding wait_one
wait_one-stays i j s h = ground (arith, h, get_or-set s.started i j, in_range s.started i)

length-wait_ids : (is : List ℕ) (s : Lowering) → length (wait_ids is s).started ≡ length s.started
unfolding wait_ids
length-wait_ids [] s = refl
length-wait_ids (i ∷ is) s = ground (arith, length-wait_ids is (wait_one i s), length-wait_one i s)

wait_ids-stays :
    (is : List ℕ) (j : ℕ) (s : Lowering) → waited s j ≡ true → waited (wait_ids is s) j ≡ true
unfolding wait_ids
wait_ids-stays [] j s h = h
wait_ids-stays (i ∷ is) j s h = wait_ids-stays is j (wait_one i s) (wait_one-stays i j s h)

wait_ids-waited :
    (n lo j : ℕ) (s : Lowering)
    → leb lo j ≡ true
    → j < lo + n
    → j < length s.started
    → waited (wait_ids (count_up n lo) s) j ≡ true
unfolding wait_ids count_up
wait_ids-waited zero lo j s h k l = ground arith
wait_ids-waited (suc n) lo j s h k l = elim (Bool-cases (lo == j)) [
  | inl e ↦ wait_ids-stays (count_up n (suc lo)) j (wait_one lo s) (
      subst (λ i. waited (wait_one lo s) i ≡ true) ((==_iff lo j).0 e)
        (wait_one_self lo s (ground (arith, e))))
  | inr e ↦
      wait_ids-waited n (suc lo) j (wait_one lo s) (ground (arith, e)) (omega arith)
        (omega (arith, length-wait_one lo s))
]

-- The operations of a graph: one start and one wait for each collective, in this order.
pub record Complete (s : Lowering) : Type 0 where
  pub one_start : (i : ℕ) → count (is_start i) s.ops ≡ (if ltb i (length s.started) then 1 else 0)
  pub one_wait : (i : ℕ) → count (is_wait i) s.ops ≡ count (is_start i) s.ops
  pub start_first : in_order s.ops ≡ true

finish-Complete : (s : Lowering) → Inv s → Complete (finish s)
unfolding finish
finish-Complete s v =
    let w = wait_ids-Inv (count_up (length s.started) 0) s v in
    record {
      one_start = w.starts;
      one_wait = λ i. ground (
        arith,
        w.starts i,
        w.waits i,
        wait_ids-waited (length s.started) 0 i s,
        length-wait_ids (count_up (length s.started) 0) s,
        beyond (wait_ids (count_up (length s.started) 0) s).started i,
      );
      start_first = w.order;
    }
  where
    beyond : (xs : List Bool) (i : ℕ) → get_or (get_elem? xs i) false ≡ true → i < length xs
    beyond [] i h = cc h
    beyond (x ∷ xs) zero h = omega arith
    beyond (x ∷ xs) (suc i) h = omega (arith, beyond xs i h)

bind_option-Inv : (v : Option Value) (s s' : Lowering) → Inv s → bind_option v s ≡ some s' → Inv s'
bind_option-Inv none s s' k h = cc h
bind_option-Inv (some v) s s' k h = subst Inv (some_inj h) (bind-Inv v s k)

lower_on-Inv :
    (c : Call) (vs : Values) (s s' : Lowering) → Inv s → lower_on c vs s ≡ some s' → Inv s'
lower_on-Inv placeholder vs s s' k h = subst Inv (some_inj h) (bind-Inv plain s k)
lower_on-Inv (wait_tensor a) nil s s' k h = cc h
lower_on-Inv (wait_tensor a) (more v vs) s s' k h =
    subst Inv (some_inj h) (bind-Inv (wait v s).0 (wait v s).1 (wait-Inv v s k))
lower_on-Inv (getitem a i) nil s s' k h = cc h
lower_on-Inv (getitem a i) (more v vs) s s' k h = bind_option-Inv (select v i) s s' k h
lower_on-Inv (collective args c n) vs s s' k h =
    subst Inv (some_inj h) (start_call-Inv c n (wait_each vs s).1 (wait_each-Inv vs s k))
lower_on-Inv (ordinary args) vs s s' k h =
    subst Inv (some_inj h) (bind-Inv plain (wait_each vs s).1 (wait_each-Inv vs s k))

lower-Inv : (c : Call) (s s' : Lowering) → Inv s → lower c s ≡ some s' → Inv s'
unfolding lower
lower-Inv c s s' k h = by_args (convert_all s.book (args_of c)) h
  where
    by_args :
        (vs : Option Values)
        → (elim vs as (λ _. Option Lowering) [ none ↦ none | some ws ↦ lower_on c ws s ]) ≡ some s'
        → Inv s'
    by_args none e = cc e
    by_args (some vs) e = lower_on-Inv c vs s s' k e

lower_all-Inv : (calls : List Call) (s s' : Lowering) → Inv s → lower_all calls s ≡ some s' → Inv s'
unfolding lower_all
lower_all-Inv [] s s' k h = subst Inv (some_inj h) k
lower_all-Inv (c ∷ calls) s s' k h = elim (Option-cases (lower c s)) [
  | inl e ↦ cc (rw (e, lower_all) at h)
  | inr (r, e) ↦ lower_all-Inv calls r s' (lower-Inv c s r k e) (rw (e, lower_all) at h)
]

output_waits-Complete :
    (vs : Option Values) (s s' : Lowering) → Inv s → output_waits vs s ≡ some s' → Complete s'
output_waits-Complete none s s' k h = cc h
output_waits-Complete (some vs) s s' k h =
    subst Complete (some_inj h) (finish-Complete (wait_each vs s).1 (wait_each-Inv vs s k))

-- In a graph that is lowered, every collective that was started, single or coalesced, has exactly
-- one start and exactly one wait among the graph's operations, and every wait comes after its start.
pub lower_graph-Complete :
    (calls : List Call) (outputs : Args) (s : Lowering)
    → lower_graph calls outputs ≡ some s
    → Complete s
unfolding lower_graph lower_output count in_order
lower_graph-Complete calls outputs s h =
    elim (Option-cases (lower_all calls (record { started = []; ops = []; book = [] }))) [
      | inl e ↦ cc (rw (e, lower_graph) at h)
      | inr (r, e) ↦
          output_waits-Complete (convert_all r.book outputs) r s
            (lower_all-Inv calls (record { started = []; ops = []; book = [] }) r empty e)
            (rw (e, lower_graph) at h)
    ]
  where
    empty : Inv (record { started = []; ops = []; book = [] })
    empty = record { starts = λ i. ground arith; waits = λ i. refl; order = refl }
