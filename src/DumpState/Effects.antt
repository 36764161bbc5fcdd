-- ===== src/DumpState/Effects.antt =====
-- What a claim and a finish do to one generation.
use torch_mojo_backend.Prelude.{
  ℕ, ◌+◌, ◌≤◌, ◌<◌, ◌≡◌, refl, ap, ◌∙◌, Bool, true, false, not, ◌&&◌, ◌||◌, Option, none, some,
  List, [], ◌∷◌, arith, leb, ltb, length,
}
use torch_mojo_backend.Prelude.Sets.{elem, union, diff, elem-union, elem-diff, elem-sort}
use torch_mojo_backend.DumpState.{
  StoreState, claimed, claim_above, claim, advance, advance_at, finish, finish_dumped,
  finish_failed, retries,
}
use torch_mojo_backend.DumpState.Advance.{advance-le, advance_passed, advance_left, advance_stops}
use torch_mojo_backend.DumpState.Invariant.{Inv, Within, claim_known, elem-claimed}

-- The generations that count as dumped: those up to `base`, and those in `done`.
abbrev pub is_done : StoreState → ℕ → Bool
is_done s g = elim s.base [ none ↦ false | some b ↦ leb g b || elem g s.done ]

module _ (s : StoreState) (now upto : ℕ) (v : Inv s) (g : ℕ) where
  -- A claim takes the generations above `high` up to the wanted one and, once the backoff has
  -- passed, the failed ones.
  pub elem-claim :
      elem g (claim s now upto).1
      ≡ ((ltb v.top g && leb g upto) || (retries s now && elem g s.failed))
  elem-claim = rw (claim_known s now upto v) (
      unfold claim_above in
      ground (
        arith,
        elem-sort g (claimed s now v.top upto),
        elem-claimed s now v.top upto g,
        v.each g,
        v.ordered,
      ))

  pub elem-pending-claim :
      elem g (claim s now upto).0.pending ≡ (elem g s.pending || elem g (claim s now upto).1)
  elem-pending-claim = rw (claim_known s now upto v) (
      unfold claim_above in
      ground (
        arith,
        elem-sort g (claimed s now v.top upto),
        elem-union g s.pending (claimed s now v.top upto),
      ))

  pub is_done-claim : is_done (claim s now upto).0 g ≡ is_done s g
  is_done-claim = rw (claim_known s now upto v) (unfold claim_above in refl)

  -- Nothing that is wanted is left out, but a failed generation whose backoff has not passed.
  pub claim_complete :
      v.low < g
      → g ≤ upto
      → (is_done s g
          || elem g s.pending
          || elem g (claim s now upto).1
          || (not (retries s now) && elem g s.failed))
        ≡ true
  claim_complete h k = ground (arith, elem-claim, v.each g, v.base_known, v.ordered)

  -- What a claim returns is neither done nor being served.
  pub claim_free :
      elem g (claim s now upto).1 ≡ true → (is_done s g ≡ false) × (elem g s.pending ≡ false)
  claim_free h = ground (arith, elem-claim, v.each g, v.base_known, v.ordered)

finish_dumped-pending :
    (gens : List ℕ) (acked : Bool) (s : StoreState) (b : Option ℕ)
    → s.base ≡ b
    → (finish_dumped gens acked s).pending ≡ diff s.pending gens
unfolding finish_dumped
finish_dumped-pending gens acked s none e = rw (e, advance_at)
finish_dumped-pending gens acked s (some b) e = rw (e, advance_at)

pub elem-pending-finish :
    (coord now : ℕ) (gens : List ℕ) (dumped acked : Bool) (s : StoreState) (g : ℕ)
    → elem g (finish coord now gens dumped acked s).pending
      ≡ (elem g s.pending && not (elem g gens))
unfolding finish finish_failed elem
elem-pending-finish coord now [] dumped acked s g = ground arith
elem-pending-finish coord now (x ∷ gens) true acked s g =
    ap (elem g) (finish_dumped-pending (x ∷ gens) acked s s.base refl)
    ∙ elem-diff g s.pending (x ∷ gens)
elem-pending-finish coord now (x ∷ gens) false acked s g = elem-diff g s.pending (x ∷ gens)

finish_dumped-is_done :
    (gens : List ℕ) (acked : Bool) (s : StoreState)
    → Inv s
    → Within gens s.pending
    → (g : ℕ) → is_done (finish_dumped gens acked s) g ≡ (is_done s g || elem g gens)
unfolding finish_dumped
finish_dumped-is_done gens acked s v w g =
    let done = union s.done gens in
    let f = length done in
    rw v.base_known (
      ground (
        arith,
        v.each g,
        w g,
        elem-union g s.done gens,
        advance-le f v.low done,
        advance_passed f v.low done g,
        (advance_left f v.low done g).0,
        (advance_left f v.low done g).1,
      ))

-- A written dump makes its generations done; a failed one leaves what is done as it was.
pub is_done-finish :
    (coord now : ℕ) (gens : List ℕ) (dumped acked : Bool) (s : StoreState)
    → Inv s
    → Within gens s.pending
    → (g : ℕ)
    → is_done (finish coord now gens dumped acked s) g ≡ (is_done s g || (dumped && elem g gens))
unfolding finish finish_failed
is_done-finish coord now [] dumped acked s v w g = unfold elem in ground arith
is_done-finish coord now (x ∷ gens) true acked s v w g =
    finish_dumped-is_done (x ∷ gens) acked s v w g
is_done-finish coord now (x ∷ gens) false acked s v w g = ground arith

-- After a finish `base` cannot move further: the generation behind it is not done.
pub finish_settled :
    (coord now : ℕ) (x : ℕ) (gens : List ℕ) (acked : Bool) (s : StoreState)
    → Inv s
    → (b : ℕ) × ((finish coord now (x ∷ gens) true acked s).base ≡ some b)
      × (is_done (finish coord now (x ∷ gens) true acked s) (b + 1) ≡ false)
unfolding finish finish_dumped
finish_settled coord now x gens acked s v =
    let done = union s.done (x ∷ gens) in
    let f = length done in
    (
      (advance f v.low done).0,
      rw v.base_known,
      rw v.base_known (ground (arith, advance_stops f v.low done (omega arith))),
    )
