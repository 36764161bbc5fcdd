-- ===== src/DumpState/Advance.antt =====
-- The loop of `_StoreState.finish` that moves `base` over finished generations.
use torch_mojo_backend.Prelude.{
  ℕ, zero, suc, ◌+◌, ◌≤◌, ◌<◌, ◌≡◌, refl, true, false, not, ◌&&◌, List, [], ◌∷◌, arith, ltb, ◌==◌,
  length, inl, inr, Bool-cases,
}
use torch_mojo_backend.Prelude.Sets.{elem, diff, elem-diff, length-discard}
use torch_mojo_backend.DumpState.{advance}

pub advance-le : (f b : ℕ) (done : List ℕ) → b ≤ (advance f b done).0
unfolding advance
advance-le zero b done = omega arith
advance-le (suc f) b done = ground (arith, advance-le f (b + 1) (diff done ((b + 1) ∷ [])))

elem-discard :
    (g x : ℕ) (done : List ℕ) → elem g (diff done (x ∷ [])) ≡ (elem g done && not (g == x))
unfolding elem
elem-discard g x done = ground (arith, elem-diff g done (x ∷ []))

-- It passes over members of `done` only.
pub advance_passed :
    (f b : ℕ) (done : List ℕ) (g : ℕ) → b < g → g ≤ (advance f b done).0 → elem g done ≡ true
unfolding advance
advance_passed zero b done g h k = absurd (omega arith)
advance_passed (suc f) b done g h k =
    let rest = diff done ((b + 1) ∷ []) in
    ground (arith, elem-discard g (b + 1) done, advance_passed f (b + 1) rest g)

-- What is left of `done` is what lies above the new base.
pub advance_left :
    (f b : ℕ) (done : List ℕ) (g : ℕ)
    → (b < g → elem g (advance f b done).1 ≡ (elem g done && ltb (advance f b done).0 g))
      × (g ≤ b → elem g (advance f b done).1 ≡ elem g done)
unfolding advance
advance_left zero b done g = ground arith
advance_left (suc f) b done g =
    let rest = diff done ((b + 1) ∷ []) in
    let ih = advance_left f (b + 1) rest g in
    ground (arith, elem-discard g (b + 1) done, ih.0, ih.1, advance-le f (b + 1) rest)

-- With fuel for every member the loop ends by its test.
pub advance_stops :
    (f b : ℕ) (done : List ℕ)
    → length done ≤ f
    → elem ((advance f b done).0 + 1) (advance f b done).1 ≡ false
unfolding advance
advance_stops zero b [] h = unfold elem in refl
advance_stops zero b (x ∷ xs) h = absurd (omega arith)
advance_stops (suc f) b done h = elim (Bool-cases (elem (b + 1) done)) [
  | inl e ↦ rw e (advance_stops f (b + 1) _ (omega (arith, length-discard (b + 1) done e)))
  | inr e ↦ rw e e
]
