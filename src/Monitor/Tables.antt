-- ===== src/Monitor/Tables.antt =====
-- Dictionaries and the heap of state objects.
use torch_mojo_backend.Prelude.{
  ℕ, zero, suc, ◌≡◌, ◌≢◌, refl, ap, sym, ◌∙◌, Bool, true, not, ◌&&◌, ◌||◌, Option, none, some, List,
  [], ◌∷◌, ◌++◌, ◌==◌, arith, if◌then◌else◌, any, is_some, length, get_elem?, both,
}
use torch_mojo_backend.Monitor.{find, put, pop, alter, has_group}

module _ {A : Type 0} where
  -- No key twice.
  unfoldable pub is_unique : List (ℕ × A) → Bool
  unfolding find
  is_unique [] = true
  is_unique ((x, a) ∷ d) = not (is_some (find d x)) && is_unique d

  pub find-put :
      (d : List (ℕ × A)) (k j : ℕ) (a : A)
      → find (put d k a) j ≡ (if k == j then some a else find d j)
  unfolding find put
  find-put [] k j a = ground arith
  find-put ((x, b) ∷ d) k j a = ground (arith, find-put d k j a)

  pub find-put_same : (d : List (ℕ × A)) (k j : ℕ) (a : A) → k ≡ j → find (put d k a) j ≡ some a
  find-put_same d k j a e = ground (arith, find-put d k j a)

  pub find-put_other : (d : List (ℕ × A)) (k j : ℕ) (a : A) → k ≢ j → find (put d k a) j ≡ find d j
  find-put_other d k j a e = ground (arith, find-put d k j a)

  pub is_unique-put :
      (d : List (ℕ × A)) (k : ℕ) (a : A) → is_unique d ≡ true → is_unique (put d k a) ≡ true
  unfolding is_unique put find
  is_unique-put [] k a h = refl
  is_unique-put ((x, b) ∷ d) k a h =
      let parts = both (not (is_some (find d x))) (is_unique d) h in
      ground (arith, parts.0, parts.1, find-put d k x a, is_unique-put d k a parts.1)

  absent_at :
      (d : List (ℕ × A)) (x j : ℕ) → not (is_some (find d x)) ≡ true → x ≡ j → find d j ≡ none
  absent_at d x j h e = nothing (find d j) (ap (λ (y : ℕ). not (is_some (find d y))) (sym e) ∙ h)
    where
      nothing : (o : Option A) → not (is_some o) ≡ true → o ≡ none
      nothing none q = refl
      nothing (some a) q = cc q

  pub find-pop :
      (d : List (ℕ × A)) (k j : ℕ)
      → is_unique d ≡ true
      → find (pop d k) j ≡ (if k == j then none else find d j)
  unfolding is_unique pop find
  find-pop [] k j h = ground arith
  find-pop ((x, b) ∷ d) k j h =
      let parts = both (not (is_some (find d x))) (is_unique d) h in
      ground (arith, find-pop d k j parts.1, absent_at d x j parts.0)

  pub is_unique-pop : (d : List (ℕ × A)) (k : ℕ) → is_unique d ≡ true → is_unique (pop d k) ≡ true
  unfolding is_unique pop find
  is_unique-pop [] k h = refl
  is_unique-pop ((x, b) ∷ d) k h =
      let parts = both (not (is_some (find d x))) (is_unique d) h in
      ground (arith, parts.0, parts.1, find-pop d k x parts.1, is_unique-pop d k parts.1)

  pub pop_absent : (d : List (ℕ × A)) (k : ℕ) → find d k ≡ none → pop d k ≡ d
  unfolding pop find
  pop_absent [] k h = refl
  pop_absent ((x, b) ∷ d) k h = ground (arith, pop_absent d k)

  pub length-alter : (xs : List A) (i : ℕ) (f : A → A) → length (alter xs i f) ≡ length xs
  unfolding alter
  length-alter [] i f = refl
  length-alter (x ∷ xs) zero f = refl
  length-alter (x ∷ xs) (suc i) f = ap suc (length-alter xs i f)

  pub get_elem?-alter_other :
      (xs : List A) (i j : ℕ) (f : A → A) → i ≢ j → get_elem? (alter xs i f) j ≡ get_elem? xs j
  unfolding alter
  get_elem?-alter_other [] i j f h = refl
  get_elem?-alter_other (x ∷ xs) zero zero f h = ground arith
  get_elem?-alter_other (x ∷ xs) zero (suc j) f h = refl
  get_elem?-alter_other (x ∷ xs) (suc i) zero f h = refl
  get_elem?-alter_other (x ∷ xs) (suc i) (suc j) f h =
      get_elem?-alter_other xs i j f λ e. h (ap suc e)

  pub get_elem?-alter :
      (xs : List A) (i : ℕ) (x : A) (f : A → A)
      → get_elem? xs i ≡ some x
      → get_elem? (alter xs i f) i ≡ some (f x)
  unfolding alter
  get_elem?-alter [] i x f h = cc h
  get_elem?-alter (y ∷ xs) zero x f h =
      ap (λ (o : Option A). elim o [ none ↦ none | some z ↦ some (f z) ]) h
  get_elem?-alter (y ∷ xs) (suc i) x f h = get_elem?-alter xs i x f h

  pub get_elem?-last : (xs : List A) (a : A) → get_elem? (xs ++ a ∷ []) (length xs) ≡ some a
  get_elem?-last [] a = refl
  get_elem?-last (x ∷ xs) a = get_elem?-last xs a

pub has_group-put :
    (groups : List (ℕ × (ℕ × ℕ))) (g key rank k : ℕ)
    → find groups g ≡ none
    → has_group k (put groups g (key, rank)) ≡ (has_group k groups || key == k)
unfolding find put any
has_group-put [] g key rank k h = ground arith
has_group-put ((x, (a, b)) ∷ groups) g key rank k h =
    ground (arith, has_group-put groups g key rank k)

key_of : (a b key rank : ℕ) → ◌≡◌ {A = Option (ℕ × ℕ)} (some (a, b)) (some (key, rank)) → a ≡ key
key_of a b key rank h = cc h

pub has_group-pop :
    (groups : List (ℕ × (ℕ × ℕ))) (g key rank k : ℕ)
    → find groups g ≡ some (key, rank)
    → has_group k groups ≡ (key == k || has_group k (pop groups g))
unfolding find pop any
has_group-pop [] g key rank k h = cc h
has_group-pop ((x, (a, b)) ∷ groups) g key rank k h =
    ground (arith, has_group-pop groups g key rank k, key_of a b key rank)
