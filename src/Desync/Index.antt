-- ===== src/Desync/Index.antt =====
-- `_set_index`: a late write never rolls a newer index back, whatever other writers do between a
-- round's read and its compare.
use torch_mojo_backend.Prelude.{
  ℕ, zero, suc, ◌≤◌, ◌≡◌, refl, Bool, true, false, Option, none, some, List, [], ◌∷◌, ◌==◌, arith,
  if◌then◌else◌, both,
}
use torch_mojo_backend.Desync.{IndexValue, same_value, is_newer, compare_set, rounds, set_index}

abbrev pub generation_of : Option IndexValue → ℕ
generation_of none = 0
generation_of (some v) = v.generation

same_generation :
    (a b : Option IndexValue) → same_value a b ≡ true → generation_of a ≡ generation_of b
same_generation none none h = refl
same_generation none (some b) h = cc h
same_generation (some a) none h = cc h
same_generation (some a) (some b) h = ground (arith, both (a.generation == b.generation) _ h)

-- One compare of a `_set_index` that went on after its read.
pub data Write (v : Option IndexValue) : Option IndexValue → Type 0 where
  compares :
      (read : Option IndexValue) (new : IndexValue)
      → is_newer read new.generation ≡ false
      → Write v (compare_set v read (some new))

pub data Writes (v : Option IndexValue) : Option IndexValue → Type 0 where
  here : Writes v v
  next : {w x : Option IndexValue} → Writes v w → Write w x → Writes v x

older : (read : Option IndexValue) (gen : ℕ) → is_newer read gen ≡ false → generation_of read ≤ gen
older none gen h = omega arith
older (some v) gen h = ground arith

Write-grows : {v w : Option IndexValue} → Write v w → generation_of v ≤ generation_of w
Write-grows {v} (compares read new h) =
    either (same_value v read)
      λ e. omega (arith, same_generation v read e, older read new.generation h)
  where
    either :
        (b : Bool)
        → (b ≡ true → generation_of v ≤ new.generation)
        → generation_of v ≤ generation_of (if b then some new else v)
    either true k = k refl
    either false k = omega arith

-- In any interleaving of the rounds of any number of writers of one index, its generation never
-- falls.
pub index_never_rolls_back :
    {v w : Option IndexValue} → Writes v w → generation_of v ≤ generation_of w
index_never_rolls_back here = omega arith
index_never_rolls_back (next r s) = omega (arith, index_never_rolls_back r, Write-grows s)

-- The value that the index had after the last round.
abbrev pub last_left : List (Option IndexValue) → Option IndexValue
last_left [] = none
last_left (v ∷ []) = v
last_left (v ∷ w ∷ vs) = last_left (w ∷ vs)

newer : (v : Option IndexValue) (gen : ℕ) → is_newer v gen ≡ true → gen ≤ generation_of v
newer none gen h = cc h
newer (some v) gen h = ground arith

-- Whether a round's outcome, with the outcome of the rounds after it, leaves the index high enough.
abbrev LeavesHigh : ℕ → Bool × List (Option IndexValue) → Type 0
LeavesHigh gen r = r.0 ≡ true → gen ≤ generation_of (last_left r.1)

later :
    (gen : ℕ) (l : Option IndexValue) (r : Bool × List (Option IndexValue))
    → LeavesHigh gen r
    → LeavesHigh gen (r.0, l ∷ r.1)
later gen l (b, []) h e = omega (arith, h e)
later gen l (b, x ∷ xs) h e = h e

rounds_settled :
    (n : ℕ) (new : IndexValue) (rs : List (Option IndexValue × Option IndexValue))
    → LeavesHigh new.generation (rounds n new rs)
unfolding rounds
rounds_settled zero new rs = λ h. cc h
rounds_settled (suc n) new [] = λ h. cc h
rounds_settled (suc n) new ((read, now) ∷ rs) =
    either (is_newer read new.generation) (same_value (compare_set now read (some new)) (some new))
      (newer read new.generation) (same_generation (compare_set now read (some new)) (some new))
      (rounds n new rs) (rounds_settled n new rs)
  where
    left : Option IndexValue
    left = compare_set now read (some new)

    either :
        (b c : Bool)
        → (b ≡ true → new.generation ≤ generation_of read)
        → (c ≡ true → generation_of left ≡ new.generation)
        → (rest : Bool × List (Option IndexValue)) → LeavesHigh new.generation rest
        → LeavesHigh new.generation (
            if b
            then (true, read ∷ [])
            else if c
            then (true, left ∷ [])
            else (rest.0, left ∷ rest.1))
    either true c k l rest m = λ e. k refl
    either false true k l rest m = λ e. omega (arith, l refl)
    either false false k l rest m = later new.generation left rest m

-- When `_set_index` reports success, the last value it read or left has at least its generation.
pub set_index_settles :
    (new : IndexValue) (rs : List (Option IndexValue × Option IndexValue))
    → (set_index new rs).0 ≡ true
    → new.generation ≤ generation_of (last_left (set_index new rs).1)
set_index_settles new rs h = rounds_settled 8 new rs h
