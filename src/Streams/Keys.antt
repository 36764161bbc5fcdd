-- ===== src/Streams/Keys.antt =====
-- Lemmas on the equality of keys, and on the table of regions.
use torch_mojo_backend.Prelude.{
  ℕ, suc, Bool, true, false, Option, none, some, List, [], ◌∷◌, ◌++◌, ◌==◌, ltb, if◌then◌else◌, all,
  both, ◌≡◌, refl, arith, ==_iff,
}
use torch_mojo_backend.Streams.{Key, same_indices, same_bool, same_key, put}

same_indices-eq : (a b : List ℕ) → same_indices a b ≡ true → a ≡ b
unfolding same_indices
same_indices-eq [] [] h = refl
same_indices-eq [] (j ∷ js) h = cc h
same_indices-eq (i ∷ a) [] h = cc h
same_indices-eq (i ∷ a) (j ∷ b) h =
    let (e, r) = both (i == j) (same_indices a b) h in cc ((==_iff i j).0 e, same_indices-eq a b r)

same_bool-eq : (a b : Bool) → same_bool a b ≡ true → a ≡ b
same_bool-eq true true h = refl
same_bool-eq true false h = cc h
same_bool-eq false true h = cc h
same_bool-eq false false h = refl

pub same_key-eq : (a b : Key) → same_key a b ≡ true → a ≡ b
unfolding same_key
same_key-eq a b h =
    let (c, i) = both (same_bool a.control b.control) (same_indices a.indices b.indices) h in
    λ t. record {
      control = same_bool-eq a.control b.control c t;
      indices = same_indices-eq a.indices b.indices i t;
    }

same_indices_refl : (a : List ℕ) → same_indices a a ≡ true
unfolding same_indices
same_indices_refl [] = refl
same_indices_refl (i ∷ a) = ground (arith, same_indices_refl a)

pub same_key_refl : (a : Key) → same_key a a ≡ true
unfolding same_key
same_key_refl a = ground (arith, same_indices_refl a.indices)

-- The key that stands under a number.
unfoldable pub region_at : ℕ → List (ℕ × Key) → Option Key
region_at i [] = none
region_at i ((j, k) ∷ regions) = let rest = region_at i regions in if i == j then some k else rest

abbrev pub numbers_below : ℕ → List (ℕ × Key) → Bool
numbers_below n regions = all (λ r. ltb r.0 n) regions

pub put-fresh :
    (i : ℕ) (k : Key) (regions : List (ℕ × Key))
    → numbers_below i regions ≡ true
    → put i k regions ≡ regions ++ ((i, k) ∷ [])
unfolding put all
put-fresh i k [] h = refl
put-fresh i k ((j, k') ∷ regions) h = ground (arith, put-fresh i k regions)

pub put-same :
    (i : ℕ) (k : Key) (regions : List (ℕ × Key))
    → region_at i regions ≡ some k
    → put i k regions ≡ regions
unfolding put region_at
put-same i k [] h = cc h
put-same i k ((j, k') ∷ regions) h = ground (arith, put-same i k regions)

pub region_at-last :
    (i : ℕ) (k : Key) (regions : List (ℕ × Key))
    → numbers_below i regions ≡ true
    → region_at i (regions ++ ((i, k) ∷ [])) ≡ some k
unfolding region_at all
region_at-last i k [] h = ground arith
region_at-last i k ((j, k') ∷ regions) h = ground (arith, region_at-last i k regions)

pub numbers_below-last :
    (i : ℕ) (k : Key) (regions : List (ℕ × Key))
    → numbers_below i regions ≡ true
    → numbers_below (suc i) (regions ++ ((i, k) ∷ [])) ≡ true
unfolding all
numbers_below-last i k [] h = ground arith
numbers_below-last i k ((j, k') ∷ regions) h = ground (arith, numbers_below-last i k regions)
