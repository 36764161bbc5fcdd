-- ===== src/Shapes/Broadcast.antt =====
-- torch_mojo_backend/aten_functions.py: the two broadcasting routines agree.
use torch_mojo_backend.Prelude.{
  ℕ, zero, suc, ◌+◌, ◌-◌, ◌≤◌, max, true, Option, none, some, List, [], ◌∷◌, ◌++◌, any, length,
  replicate, ◌≡◌, ◌⊎◌, refl, ap, sym, ◌∙◌, inl, inr, Option-cases, arith, append-nil, length-append,
  length-replicate, ==_iff,
}
use mathlib.Core.List.{reverse, reverse-append, reverse-reverse, reverse-cons}
use torch_mojo_backend.Shapes.{
  Dim, static, symbol, one, same_dim, traverse, zip_longest, merge_dims, reversed,
  find_broadcast_shape, max_rank, padded, columns, merge_column, broadcast_shape,
}

same_dim-eq : (a b : Dim) → same_dim a b ≡ true → a ≡ b
same_dim-eq (static a) (static b) h = ap static ((==_iff a b).0 h)
same_dim-eq (static a) (symbol b) h = cc h
same_dim-eq (symbol a) (static b) h = cc h
same_dim-eq (symbol a) (symbol b) h = ap symbol ((==_iff a b).0 h)

same_dim_refl : (a : Dim) → same_dim a a ≡ true
same_dim_refl (static a) = ground arith
same_dim_refl (symbol a) = ground arith

-- Comprehensions over lists put together.
abbrev joined {κ} : {B : Type κ} → Option (List B) → Option (List B) → Option (List B)
joined none ys = none
joined (some xs) none = none
joined (some xs) (some ys) = some (xs ++ ys)

module _ {ℓ κ} {A : Type ℓ} {B : Type κ} (f : A → Option B) where
  traverse-append :
      (xs ys : List A) → traverse f (xs ++ ys) ≡ joined (traverse f xs) (traverse f ys)
  unfolding traverse
  traverse-append [] ys = elim (Option-cases (traverse f ys)) [
    | inl e ↦ rw e refl
    | inr (zs, e) ↦ rw e refl
  ]
  traverse-append (x ∷ xs) ys = elim (Option-cases (f x)) [
    | inl e ↦ rw (e, traverse) refl
    | inr (y, e) ↦
        rw (e, traverse, traverse-append xs ys) (by_rest y (traverse f xs) (traverse f ys))
  ]
    where
      by_rest :
          (y : B) (p q : Option (List B))
          → (elim (joined p q) as (λ _. Option (List B)) [ none ↦ none | some zs ↦ some (y ∷ zs) ])
            ≡ joined (elim p as (λ _. Option (List B)) [ none ↦ none | some zs ↦ some (y ∷ zs) ]) q
      by_rest y none q = refl
      by_rest y (some p) none = refl
      by_rest y (some p) (some q) = refl

traverse-reverse {ℓ} :
    {A : Type ℓ} (f : A → Option Dim) (xs : List A)
    → traverse f (reverse xs) ≡ reversed (traverse f xs)
unfolding traverse
traverse-reverse f [] = refl
traverse-reverse f (x ∷ xs) =
    ap (traverse f) (reverse-cons x xs)
    ∙ traverse-append f (reverse xs) (x ∷ [])
    ∙ ap (λ r. joined r (traverse f (x ∷ []))) (traverse-reverse f xs)
    ∙ by_ends (f x) (traverse f xs)
  where
    by_ends :
        (y : Option Dim) (r : Option (List Dim))
        → joined
            (reversed r)
            (elim y as (λ _. Option (List Dim)) [ none ↦ none | some d ↦ some (d ∷ []) ])
          ≡ reversed (elim y as (λ _. Option (List Dim)) [
            | none ↦ none
            | some d ↦ elim r as (λ _. Option (List Dim)) [ none ↦ none | some ds ↦ some (d ∷ ds) ]
          ])
    by_ends none none = refl
    by_ends none (some ds) = refl
    by_ends (some d) none = refl
    by_ends (some d) (some ds) = ap some (sym (reverse-cons d ds))

zip_longest-append :
    (xs ys us vs : List Dim)
    → length xs ≡ length ys
    → zip_longest (xs ++ us) (ys ++ vs) ≡ zip_longest xs ys ++ zip_longest us vs
unfolding zip_longest
zip_longest-append [] [] us vs h = refl
zip_longest-append [] (y ∷ ys) us vs h = ground arith
zip_longest-append (x ∷ xs) [] us vs h = ground arith
zip_longest-append (x ∷ xs) (y ∷ ys) us vs h =
    ap ((some x, some y) ∷◌) (zip_longest-append xs ys us vs (omega arith))

length-reverse {ℓ} : {A : Type ℓ} (xs : List A) → length (reverse xs) ≡ length xs
length-reverse [] = refl
length-reverse (x ∷ xs) =
    ap length (reverse-cons x xs)
    ∙ omega (arith, length-append (reverse xs) (x ∷ []), length-reverse xs)

zip_longest-reverse :
    (xs ys : List Dim)
    → length xs ≡ length ys
    → zip_longest (reverse xs) (reverse ys) ≡ reverse (zip_longest xs ys)
unfolding zip_longest
zip_longest-reverse [] [] h = refl
zip_longest-reverse [] (y ∷ ys) h = ground arith
zip_longest-reverse (x ∷ xs) [] h = ground arith
zip_longest-reverse (x ∷ xs) (y ∷ ys) h =
    rw
      (
        reverse-cons x xs,
        reverse-cons y ys,
        zip_longest-append (reverse xs) (reverse ys) (x ∷ []) (y ∷ [])
            (omega (arith, length-reverse xs, length-reverse ys)),
        zip_longest-reverse xs ys (omega arith),
        reverse-cons (some x, some y) (zip_longest xs ys),
      )
      refl

-- Ones in the place of missing dimensions change nothing.
missing_right : (d : Dim) → merge_dims (some d, some one) ≡ some d
missing_right (static a) = ground arith
missing_right (symbol a) = refl

missing_left : (d : Dim) → merge_dims (some one, some d) ≡ some d
missing_left (static a) = ground arith
missing_left (symbol a) = refl

traverse-alike {ℓ} :
    {A : Type ℓ} (f : A → Option Dim) (x y : A) (xs ys : List A)
    → f x ≡ f y
    → traverse f xs ≡ traverse f ys
    → traverse f (x ∷ xs) ≡ traverse f (y ∷ ys)
unfolding traverse
traverse-alike f x y xs ys e h =
    λ i. elim (e i) [ none ↦ none | some d ↦ elim (h i) [ none ↦ none | some ds ↦ some (d ∷ ds) ] ]

pad_right :
    (n : ℕ) (xs ys : List Dim)
    → length xs ≡ length ys + n
    → traverse merge_dims (zip_longest xs (ys ++ replicate n one))
      ≡ traverse merge_dims (zip_longest xs ys)
unfolding zip_longest
pad_right zero xs ys h = rw (append-nil ys) refl
pad_right (suc n) [] ys h = ground arith
pad_right (suc n) (x ∷ xs) [] h =
    traverse-alike merge_dims (some x, some one) (some x, none) _ _ (missing_right x)
      (pad_right n xs [] (omega arith))
pad_right (suc n) (x ∷ xs) (y ∷ ys) h =
    traverse-alike merge_dims (some x, some y) (some x, some y) _ _ refl
      (pad_right (suc n) xs ys (omega arith))

pad_left :
    (n : ℕ) (xs ys : List Dim)
    → length ys ≡ length xs + n
    → traverse merge_dims (zip_longest (xs ++ replicate n one) ys)
      ≡ traverse merge_dims (zip_longest xs ys)
unfolding zip_longest
pad_left zero xs ys h = rw (append-nil xs) refl
pad_left (suc n) xs [] h = ground arith
pad_left (suc n) [] (y ∷ ys) h =
    traverse-alike merge_dims (some one, some y) (none, some y) _ _ (missing_left y)
      (pad_left n [] ys (omega arith))
pad_left (suc n) (x ∷ xs) (y ∷ ys) h =
    traverse-alike merge_dims (some x, some y) (some x, some y) _ _ refl
      (pad_left (suc n) xs ys (omega arith))

merge_column-merge_dims : (a b : Dim) → merge_column (a ∷ b ∷ []) ≡ merge_dims (some a, some b)
unfolding any
merge_column-merge_dims (static a) (static b) = ground arith
merge_column-merge_dims (static a) (symbol b) = ground arith
merge_column-merge_dims (symbol a) (static b) = ground arith
merge_column-merge_dims (symbol a) (symbol b) = ground arith

columns-two :
    (n : ℕ) (xs ys : List Dim)
    → length xs ≡ n
    → length ys ≡ n
    → traverse merge_column (columns n (xs ∷ ys ∷ [])) ≡ traverse merge_dims (zip_longest xs ys)
unfolding columns zip_longest traverse
columns-two zero [] [] h k = refl
columns-two zero [] (y ∷ ys) h k = ground arith
columns-two zero (x ∷ xs) ys h k = ground arith
columns-two (suc n) [] ys h k = ground arith
columns-two (suc n) (x ∷ xs) [] h k = ground arith
columns-two (suc n) (x ∷ xs) (y ∷ ys) h k = λ i. elim (merge_column-merge_dims x y i) [
  | none ↦ none
  | some d ↦ elim (columns-two n xs ys (omega arith) (omega arith) i) [
    | none ↦ none
    | some ds ↦ some (d ∷ ds)
  ]
]

replicate-snoc : (n : ℕ) → replicate n one ++ (one ∷ []) ≡ one ∷ replicate n one
replicate-snoc zero = refl
replicate-snoc (suc n) = ap (one ∷◌) (replicate-snoc n)

reverse-replicate : (n : ℕ) → reverse (replicate n one) ≡ replicate n one
reverse-replicate zero = refl
reverse-replicate (suc n) =
    reverse-cons one (replicate n one)
    ∙ ap (λ ds. ds ++ (one ∷ [])) (reverse-replicate n)
    ∙ replicate-snoc n

reverse-padded :
    (m : ℕ) (s : List Dim) → reverse (padded m s) ≡ reverse s ++ replicate (m - length s) one
reverse-padded m s =
    reverse-append (replicate (m - length s) one) s
    ∙ ap (λ ds. reverse s ++ ds) (reverse-replicate (m - length s))

length-padded : (m : ℕ) (s : List Dim) → length s ≤ m → length (padded m s) ≡ m
length-padded m s h =
    omega
      (arith, length-append (replicate (m - length s) one) s, length-replicate (m - length s) one)

pad_both :
    (a b : List Dim)
    → traverse merge_dims (
        zip_longest
          (reverse (padded (max (length a) (length b)) a))
          (reverse (padded (max (length a) (length b)) b)))
      ≡ traverse merge_dims (zip_longest (reverse a) (reverse b))
pad_both a b =
    let m = max (length a) (length b) in
    rw (reverse-padded m a, reverse-padded m b)
      (elim (le_or (length a) (length b)) [
        | inl h ↦
            rw (zero_of m (length b) (omega arith), append-nil (reverse b))
              (pad_left (m - length a) (reverse a) (reverse b)
                (omega (arith, length-reverse a, length-reverse b)))
        | inr h ↦
            rw (zero_of m (length a) (omega arith), append-nil (reverse a))
              (pad_right (m - length b) (reverse a) (reverse b)
                (omega (arith, length-reverse a, length-reverse b)))
      ])
  where
    le_or : (n k : ℕ) → (n ≤ k) ⊎ (k ≤ n)
    le_or n k = ground arith

    zero_of : (n k : ℕ) → n ≤ k → n - k ≡ 0
    zero_of n k h = omega arith

-- For all shapes of two tensors, static or symbolic, the routine of the pointwise operators and the
-- one of the indexing operators give the same broadcast shape, and refuse the same pairs of shapes.
pub find_broadcast_shape-broadcast_shape :
    (a b : List Dim) → find_broadcast_shape a b ≡ broadcast_shape (a ∷ b ∷ [])
unfolding find_broadcast_shape broadcast_shape max_rank
find_broadcast_shape-broadcast_shape a b =
    let m = max (length a) (length b) in
    ap reversed (sym (pad_both a b))
    ∙ ap (λ ps. reversed (traverse merge_dims ps))
        (zip_longest-reverse (padded m a) (padded m b)
          (length-padded m a (omega arith) ∙ sym (length-padded m b (omega arith))))
    ∙ ap reversed (traverse-reverse merge_dims (zip_longest (padded m a) (padded m b)))
    ∙ twice (traverse merge_dims (zip_longest (padded m a) (padded m b)))
    ∙ sym (
        columns-two m (padded m a) (padded m b) (length-padded m a (omega arith))
          (length-padded m b (omega arith)))
    ∙ ap (λ k. traverse merge_column (columns k (padded k a ∷ padded k b ∷ [])))
        (inner (length a) (length b))
  where
    twice : (r : Option (List Dim)) → reversed (reversed r) ≡ r
    twice none = refl
    twice (some ds) = ap some (reverse-reverse ds)

    inner : (n k : ℕ) → max n k ≡ max n (max k 0)
    inner n k = omega arith
