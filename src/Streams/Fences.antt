-- ===== src/Streams/Fences.antt =====
-- torch_mojo_backend/torch_compile_backend/streams.py: the streams that a region leaves behind, and
-- the waits that order its contexts.
use torch_mojo_backend.Prelude.{
  ℕ, suc, Bool, true, false, not, ◌&&◌, ◌||◌, List, [], ◌∷◌, ◌++◌, map, ◌==◌, any, ◌≡◌, refl, ap,
  ◌∙◌, inl, inr, Bool-cases, ==_iff, arith,
}
use torch_mojo_backend.Prelude.Sets.{elem, elem-first_of_each, elem-append}
use torch_mojo_backend.Streams.Contexts.{
  Torch, Process, Body, Outcome, returned, raised, Resolved, resolved, unresolved, AllResolved,
  all_resolved, some_unresolved, current_stream, joined, streams_of, waits_on_current,
  wait_for_contexts, publish_to_contexts, close, enter_from, enter_streams, in_context, forward_on,
  forward, resolve_streams, resolve_all, run_with, run_compiled, publish_if_returned,
}

-- What `enter_streams` leaves: a stack that `close` undoes, or nothing.
data Entered (t : Torch) (active : List ℕ) : Bool × (ℕ × List ℕ) → Type 0 where
  inside :
      (n : ℕ) (active' : List ℕ) → close n active' ≡ active → Entered t active (true, (n, active'))
  outside : Entered t active (false, (0, active))

module _ (t : Torch) where
  enter_from-Entered :
      (streams : List ℕ) (n : ℕ) (now base : List ℕ)
      → close n now ≡ base
      → Entered t base (enter_from t streams n now)
  unfolding enter_from close
  enter_from-Entered [] n now base c = inside n now c
  enter_from-Entered (s ∷ streams) n now base c = elim (Bool-cases (t.enters s)) [
    | inl e ↦ rw (e, enter_from) (enter_from-Entered streams (suc n) (s ∷ now) base c)
    | inr e ↦ rw (e, enter_from, c) outside
  ]

  enter_streams-Entered :
      (streams active : List ℕ) → Entered t active (enter_streams t streams active)
  unfolding enter_streams close
  enter_streams-Entered streams active = enter_from-Entered streams 0 active active refl

  module _ (body : Body) (keeps : (q : Process) → (body q).1.active ≡ q.active) where
    in_context-active :
        (p : Process) (r : Bool × (ℕ × List ℕ))
        → Entered t p.active r
        → (in_context body p r).1.active ≡ p.active
    in_context-active p _ (inside n active' c) =
        ap (close n) (keeps (record p { active = active' })) ∙ c
    in_context-active p _ outside = refl

    forward-active :
        (indices : List ℕ) (p : Process) → (forward t indices body p).1.active ≡ p.active
    unfolding forward
    forward-active indices p = by_streams (resolve_streams t indices)
      where
        by_streams : (r : Resolved) → (forward_on t body p r).1.active ≡ p.active
        by_streams (unresolved e) = refl
        by_streams (resolved streams) =
            in_context-active p (enter_streams t streams p.active)
              (enter_streams-Entered streams p.active)

    publish-active :
        (contexts : List (List ℕ)) (o : Outcome) (p : Process)
        → (publish_if_returned t contexts o p).1.active ≡ p.active
    unfolding publish_to_contexts
    publish-active contexts (raised e) p = refl
    publish-active contexts returned p = ground arith

    run_compiled-active :
        (context_indices : List (List ℕ)) (p : Process)
        → (run_compiled t context_indices body p).1.active ≡ p.active
    unfolding run_compiled
    run_compiled-active context_indices p = by_contexts (resolve_all t context_indices)
      where
        by_contexts : (r : AllResolved) → (run_with t body p r).1.active ≡ p.active
        by_contexts (some_unresolved e) = refl
        by_contexts (all_resolved contexts) = publish-active contexts _ _ ∙ keeps _

  publish-contexts :
      (contexts : List (List ℕ)) (o : Outcome) (p : Process)
      → (publish_if_returned t contexts o p).1.contexts ≡ p.contexts
  unfolding publish_to_contexts
  publish-contexts contexts (raised e) p = refl
  publish-contexts contexts returned p = ground arith

  run_compiled-contexts :
      (body : Body) (context_indices : List (List ℕ)) (p : Process)
      → (run_compiled t context_indices body p).1.contexts ≡ p.contexts
  unfolding run_compiled
  run_compiled-contexts body context_indices p = by_contexts (resolve_all t context_indices)
    where
      by_contexts : (r : AllResolved) → (run_with t body p r).1.contexts ≡ p.contexts
      by_contexts (some_unresolved e) = refl
      by_contexts (all_resolved contexts) = publish-contexts contexts _ _

  module _ (body : Body) (keeps : (q : Process) → (body q).1.contexts ≡ q.contexts) where
    in_context-contexts :
        (p : Process) (r : Bool × (ℕ × List ℕ)) → (in_context body p r).1.contexts ≡ p.contexts
    in_context-contexts p (true, (n, active)) = keeps (record p { active = active })
    in_context-contexts p (false, (n, active)) = refl

    forward-contexts :
        (indices : List ℕ) (p : Process) → (forward t indices body p).1.contexts ≡ p.contexts
    unfolding forward
    forward-contexts indices p = by_streams (resolve_streams t indices)
      where
        by_streams : (r : Resolved) → (forward_on t body p r).1.contexts ≡ p.contexts
        by_streams (unresolved e) = refl
        by_streams (resolved streams) = in_context-contexts p (enter_streams t streams p.active)

-- Whether a stream context cannot be entered, an index is stale or the compiled graph raises: a
-- compiled region leaves the entered streams as they were before its call, when its graph leaves
-- those that it finds, and it leaves the context variable as it was, whatever the graph does to it.
pub forward-run_compiled :
    (t : Torch) (compiled : Body) (indices : List ℕ) (context_indices : List (List ℕ)) (p : Process)
    → ((q : Process) → (compiled q).1.active ≡ q.active)
    → ((forward t indices (run_compiled t context_indices compiled) p).1.active ≡ p.active)
      × ((forward t indices (run_compiled t context_indices compiled) p).1.contexts ≡ p.contexts)
forward-run_compiled t compiled indices context_indices p keeps = (
  forward-active t (run_compiled t context_indices compiled)
      (run_compiled-active t compiled keeps context_indices) indices p,
  forward-contexts t (run_compiled t context_indices compiled)
      (run_compiled-contexts t compiled context_indices) indices p,
)

-- Whether the first stream was made to wait for the second.
abbrev pub has_wait : ℕ → ℕ → List (ℕ × ℕ) → Bool
has_wait waiter waited waits = any (λ w. waiter == w.0 && waited == w.1) waits

abbrev pub in_some : ℕ → List (List ℕ) → Bool
in_some s contexts = any (elem s) contexts

has_wait-append :
    (a b : ℕ) (xs ys : List (ℕ × ℕ))
    → has_wait a b (xs ++ ys) ≡ (has_wait a b xs || has_wait a b ys)
unfolding any
has_wait-append a b [] ys = refl
has_wait-append a b (x ∷ xs) ys = ground (arith, has_wait-append a b xs ys)

has_wait-swap :
    (a b : ℕ) (xs : List (ℕ × ℕ)) → has_wait a b (map (λ w. (w.1, w.0)) xs) ≡ has_wait b a xs
unfolding any
has_wait-swap a b [] = refl
has_wait-swap a b (x ∷ xs) = ground (arith, has_wait-swap a b xs)

elem-joined : (s : ℕ) (contexts : List (List ℕ)) → elem s (joined contexts) ≡ in_some s contexts
unfolding joined any elem
elem-joined s [] = refl
elem-joined s (c ∷ contexts) =
    ground (arith, elem-append s c (joined contexts), elem-joined s contexts)

elem-streams_of :
    (s : ℕ) (contexts : List (List ℕ)) → elem s (streams_of contexts) ≡ in_some s contexts
unfolding streams_of elem
elem-streams_of s contexts =
    ground (arith, elem-first_of_each s [] (joined contexts), elem-joined s contexts)

module _ (t : Torch) (active : List ℕ) where
  has_wait-waits_on_current :
      (a b : ℕ) (streams : List ℕ)
      → has_wait a b (waits_on_current t active streams)
        ≡ (elem b streams && (a == current_stream t active (t.device_of b) && not (a == b)))
  unfolding any waits_on_current elem
  has_wait-waits_on_current a b [] = refl
  has_wait-waits_on_current a b (s ∷ streams) = elim (Bool-cases (b == s)) [
    | inl e ↦ ground (
      arith,
      e,
      has_wait-waits_on_current a b streams,
      ap (λ d. current_stream t active (t.device_of d)) ((==_iff b s).0 e),
    )
    | inr e ↦ ground (arith, e, has_wait-waits_on_current a b streams)
  ]

-- After `wait_for_contexts` a stream waits for another one exactly when it did before, or when the
-- other is a stream of the contexts and it is the current stream of that one's device; no stream is
-- made to wait for itself. After `publish_to_contexts` the waits that are new are the reverse ones.
pub wait_for_contexts-publish_to_contexts :
    (t : Torch) (contexts : List (List ℕ)) (p : Process) (a b : ℕ)
    → (has_wait a b (wait_for_contexts t contexts p).waits ≡ (
        has_wait a b p.waits
        || (in_some b contexts
            && (a == current_stream t p.active (t.device_of b) && not (a == b)))))
      × (has_wait b a (publish_to_contexts t contexts p).waits ≡ (
          has_wait b a p.waits
          || (in_some b contexts
              && (a == current_stream t p.active (t.device_of b) && not (a == b)))))
unfolding wait_for_contexts publish_to_contexts
wait_for_contexts-publish_to_contexts t contexts p a b =
    let waits = waits_on_current t p.active (streams_of contexts) in
    (
      rw
          (
            has_wait-append a b p.waits waits,
            has_wait-waits_on_current t p.active a b (streams_of contexts),
            elem-streams_of b contexts,
          )
          refl,
      rw
          (
            has_wait-append b a p.waits (map (λ w. (w.1, w.0)) waits),
            has_wait-swap b a waits,
            has_wait-waits_on_current t p.active a b (streams_of contexts),
            elem-streams_of b contexts,
          )
          refl,
    )
