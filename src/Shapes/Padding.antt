-- ===== src/Shapes/Padding.antt =====
-- torch_mojo_backend/aten_functions.py: torch's pad list as MAX's list of paddings.
use torch_mojo_backend.Prelude.{
  ℕ, zero, suc, ◌+◌, ◌-◌, ◌*◌, ◌/◌, ◌≤◌, ◌<◌, Option, none, some, List, [], ◌∷◌, ◌==◌, ltb,
  if◌then◌else◌, length, get_elem?, get_or, set, replicate, ℤ, pos, ◌≡◌, refl, ap, inl, inr,
  Bool-cases, subst, ◌∙◌, arith, length-set, length-replicate,
}

-- Where Python writes `paddings[2 * (rank - 1 - i)]`, in a list of 2 * rank; none is an IndexError. A
-- negative index counts from the end.
abbrev pub pad_index : ℕ → ℕ → Option ℕ
pad_index rank i =
    if ltb i rank
    then some (2 * (rank - 1 - i))
    else if ltb i (2 * rank)
    then some (2 * (2 * rank - 1 - i))
    else none

abbrev pub entry : List ℤ → ℕ → ℤ
entry pad i = get_or (get_elem? pad i) (pos 0)

-- The loop, for `n` more values from `i` on
unfoldable pub pad_from : ℕ → List ℤ → ℕ → ℕ → List ℤ → Option (List ℤ)
pad_from rank pad zero i paddings = some paddings
pad_from rank pad (suc n) i paddings = elim (pad_index rank i) [
  | none ↦ none
  | some k ↦
      pad_from rank pad n (suc i)
        (set (set paddings k (entry pad (2 * i))) (suc k) (entry pad (2 * i + 1)))
]

-- `_torch_pad_to_max_paddings`
unfoldable pub torch_pad_to_max_paddings : ℕ → List ℤ → Option (List ℤ)
unfolding pad_from
torch_pad_to_max_paddings rank pad =
    pad_from rank pad (length pad / 2) 0 (replicate (2 * rank) (pos 0))

-- What stands at dimension `d`, before and after it, when `i` of the pairs were written.
abbrev pub expected : ℕ → List ℤ → ℕ → ℕ → ℕ → ℤ
expected rank pad i d after =
    if ltb (rank - 1 - d) i then entry pad (2 * (rank - 1 - d) + after) else pos 0

-- Every dimension has its pair of the first `i`, and the others have zeros.
pub record Padded (rank : ℕ) (pad : List ℤ) (i : ℕ) (paddings : List ℤ) : Type 0 where
  pub size : length paddings ≡ 2 * rank
  pub before : (d : ℕ) → d < rank → get_elem? paddings (2 * d) ≡ some (expected rank pad i d 0)
  pub after : (d : ℕ) → d < rank → get_elem? paddings (2 * d + 1) ≡ some (expected rank pad i d 1)

get_elem?-replicate : (n i : ℕ) (a : ℤ) → i < n → get_elem? (replicate n a) i ≡ some a
get_elem?-replicate zero i a h = ground arith
get_elem?-replicate (suc n) zero a h = refl
get_elem?-replicate (suc n) (suc i) a h = get_elem?-replicate n i a (omega arith)

start-Padded : (rank : ℕ) (pad : List ℤ) → Padded rank pad 0 (replicate (2 * rank) (pos 0))
start-Padded rank pad = record {
  size = length-replicate (2 * rank) (pos 0);
  before = λ d h. ground (arith, get_elem?-replicate (2 * rank) (2 * d) (pos 0) (omega arith));
  after = λ d h. ground (arith, get_elem?-replicate (2 * rank) (2 * d + 1) (pos 0) (omega arith));
}

-- Two writes next to each other.
set_two :
    (xs : List ℤ) (k j : ℕ) (a b : ℤ)
    → suc k < length xs
    → get_elem? (set (set xs k a) (suc k) b) j
      ≡ (if j == k then some a else if j == suc k then some b else get_elem? xs j)
set_two [] k j a b h = ground arith
set_two (x ∷ []) zero j a b h = ground arith
set_two (x ∷ y ∷ xs) zero zero a b h = ground arith
set_two (x ∷ y ∷ xs) zero (suc zero) a b h = ground arith
set_two (x ∷ y ∷ xs) zero (suc (suc j)) a b h = ground arith
set_two (x ∷ xs) (suc k) zero a b h = ground arith
set_two (x ∷ xs) (suc k) (suc j) a b h = ground (arith, set_two xs k j a b (omega arith))

step-Padded :
    (rank : ℕ) (pad : List ℤ) (i : ℕ) (xs : List ℤ)
    → i < rank
    → Padded rank pad i xs
    → Padded rank pad (suc i) (
        set
          (set xs (2 * (rank - 1 - i)) (entry pad (2 * i)))
          (suc (2 * (rank - 1 - i)))
          (entry pad (2 * i + 1)))
step-Padded rank pad i xs h p =
    let k = 2 * (rank - 1 - i) in
    let two = λ (j : ℕ).
      set_two xs k j (entry pad (2 * i)) (entry pad (2 * i + 1)) (omega (arith, p.size)) in
    record {
      size =
          length-set (set xs k (entry pad (2 * i))) (suc k) (entry pad (2 * i + 1))
          ∙ length-set xs k (entry pad (2 * i))
          ∙ p.size;
      before = λ d g. two (2 * d) ∙ at_before d g;
      after = λ d g. two (2 * d + 1) ∙ at_after d g;
    }
  where
    at_before :
        (d : ℕ)
        → d < rank
        → (if 2 * d == 2 * (rank - 1 - i)
            then some (entry pad (2 * i))
            else if 2 * d == suc (2 * (rank - 1 - i))
            then some (entry pad (2 * i + 1))
            else get_elem? xs (2 * d))
          ≡ some (expected rank pad (suc i) d 0)
    at_before d g = elim (Bool-cases (d == rank - 1 - i)) [
      | inl e ↦
          let same : 2 * i ≡ 2 * (rank - 1 - d) + 0 = ground (arith, e) in
          ground (arith, e, ap (entry pad) same)
      | inr e ↦ ground (arith, e, p.before d g)
    ]

    at_after :
        (d : ℕ)
        → d < rank
        → (if 2 * d + 1 == 2 * (rank - 1 - i)
            then some (entry pad (2 * i))
            else if 2 * d + 1 == suc (2 * (rank - 1 - i))
            then some (entry pad (2 * i + 1))
            else get_elem? xs (2 * d + 1))
          ≡ some (expected rank pad (suc i) d 1)
    at_after d g = elim (Bool-cases (d == rank - 1 - i)) [
      | inl e ↦
          let same : 2 * i + 1 ≡ 2 * (rank - 1 - d) + 1 = ground (arith, e) in
          ground (arith, e, ap (entry pad) same)
      | inr e ↦ ground (arith, e, p.after d g)
    ]

pad_from-Padded :
    (rank : ℕ) (pad : List ℤ) (n i : ℕ) (xs : List ℤ)
    → i + n ≤ rank
    → Padded rank pad i xs
    → (ys : List ℤ) × (pad_from rank pad n i xs ≡ some ys) × Padded rank pad (i + n) ys
unfolding pad_from
pad_from-Padded rank pad zero i xs h p =
    (xs, refl, subst (λ k. Padded rank pad k xs) (omega arith) p)
pad_from-Padded rank pad (suc n) i xs h p =
    let k = 2 * (rank - 1 - i) in
    let ys = set (set xs k (entry pad (2 * i))) (suc k) (entry pad (2 * i + 1)) in
    let (zs, e, q) =
      pad_from-Padded rank pad n (suc i) ys (omega arith)
        (step-Padded rank pad i xs (omega arith) p) in
    let index : pad_index rank i ≡ some k = ground arith in
    (zs, rw (index, pad_from) e, subst (λ k. Padded rank pad k zs) (omega arith) q)

-- A pad list of at most two entries for each dimension is translated, with no index out of range,
-- into a list of two for every dimension: the last dimensions have the pairs of the pad list, the
-- last one first, with the amount before it in front, and the others have zeros.
pub torch_pad_to_max_paddings-Padded :
    (rank : ℕ) (pad : List ℤ)
    → length pad ≤ 2 * rank
    → (paddings : List ℤ) × (torch_pad_to_max_paddings rank pad ≡ some paddings)
      × Padded rank pad (length pad / 2) paddings
unfolding torch_pad_to_max_paddings
torch_pad_to_max_paddings-Padded rank pad h =
    let (ys, e, q) =
      pad_from-Padded rank pad (length pad / 2) 0 (replicate (2 * rank) (pos 0)) (omega arith)
        (start-Padded rank pad) in
    (ys, e, subst (λ k. Padded rank pad k ys) (omega arith) q)
