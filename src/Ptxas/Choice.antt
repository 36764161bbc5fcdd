-- ===== src/Ptxas/Choice.antt =====
-- torch_mojo_backend/_ptxas.py, `choose`: which of the candidates it takes.
use torch_mojo_backend.Prelude.{
  ℕ, Bool, true, false, not, ◌||◌, Option, none, some, List, [], ◌∷◌, ◌++◌, all, keep, ◌≡◌, refl,
  ap, subst, inl, inr, Bool-cases, arith,
}
use torch_mojo_backend.Ptxas.{
  Machine, Assembler, Version, newer, best_of, highest, is_usable, choose, rejection,
}

newer_trans : (a b c : Option Version) → newer a b ≡ true → newer b c ≡ true → newer a c ≡ true
newer_trans none b c h g = ground arith
newer_trans (some a) none c h g = ground arith
newer_trans (some a) (some b) none h g = refl
newer_trans (some a) (some b) (some c) h g = ground arith

newer-above : (a b c : Option Version) → newer a b ≡ true → newer c b ≡ false → newer a c ≡ true
newer-above none b c h g = ground arith
newer-above (some a) b none h g = refl
newer-above (some a) none (some c) h g = ground arith
newer-above (some a) (some b) (some c) h g = ground arith

-- What is usable there is older than the release, or not newer than it.
abbrev pub below : (Assembler → Bool) → Option Version → List Assembler → Bool
below u v qs = all (λ q. not (u q) || newer v q.version) qs

abbrev pub not_above : (Assembler → Bool) → Option Version → List Assembler → Bool
not_above u v qs = all (λ q. not (u q) || not (newer q.version v)) qs

-- The position of the highest of the usable ones, next to a first one.
data Best (u : Assembler → Bool) (p : Assembler) (qs : List Assembler) : Assembler → Type 0 where
  stays : not_above u p.version qs ≡ true → Best u p qs p
  moves :
      (before : List Assembler) (b : Assembler) (after : List Assembler)
      → qs ≡ before ++ (b ∷ after)
      → u b ≡ true
      → newer b.version p.version ≡ true
      → below u b.version before ≡ true
      → not_above u b.version after ≡ true
      → Best u p qs b

module _ (u : Assembler → Bool) where
  past_unusable :
      (p q : Assembler) (qs : List Assembler) (b : Assembler)
      → u q ≡ false
      → Best u p qs b
      → Best u p (q ∷ qs) b
  unfolding all
  past_unusable p q qs _ h (stays n) = stays (ground arith)
  past_unusable p q qs _ h (moves before b after e ub nb lo hi) =
      moves (q ∷ before) b after (ap (q ∷◌) e) ub nb (ground arith) hi

  past_lower :
      (p q : Assembler) (qs : List Assembler) (b : Assembler)
      → newer q.version p.version ≡ false
      → Best u p qs b
      → Best u p (q ∷ qs) b
  unfolding all
  past_lower p q qs _ h (stays n) = stays (ground arith)
  past_lower p q qs _ h (moves before b after e ub nb lo hi) =
      moves (q ∷ before) b after (ap (q ∷◌) e) ub nb
        (ground (arith, newer-above b.version p.version q.version nb h)) hi

  past_higher :
      (p q : Assembler) (qs : List Assembler) (b : Assembler)
      → u q ≡ true
      → newer q.version p.version ≡ true
      → Best u q qs b
      → Best u p (q ∷ qs) b
  unfolding all
  past_higher p q qs _ uq h (stays n) = moves [] q qs refl uq h refl n
  past_higher p q qs _ uq h (moves before b after e ub nb lo hi) =
      moves (q ∷ before) b after (ap (q ∷◌) e) ub (newer_trans b.version q.version p.version nb h)
        (ground arith) hi

  best_of-Best : (p : Assembler) (qs : List Assembler) → Best u p qs (best_of p (keep u qs))
  unfolding all best_of
  best_of-Best p [] = stays refl
  best_of-Best p (q ∷ qs) = elim (Bool-cases (u q)) [
    | inl uq ↦ elim (Bool-cases (newer q.version p.version)) [
      | inl h ↦ rw uq (rw (h, best_of) (past_higher p q qs _ uq h (best_of-Best q qs)))
      | inr h ↦ rw uq (rw (h, best_of) (past_lower p q qs _ h (best_of-Best p qs)))
    ]
    | inr uq ↦ rw uq (past_unusable p q qs _ uq (best_of-Best p qs))
  ]

pub record FirstHighest (u : Assembler → Bool) (found : List Assembler) (p : Assembler)
    : Type 0 where
  pub before : List Assembler
  pub after : List Assembler
  pub split_eq : found ≡ before ++ (p ∷ after)
  pub usable : u p ≡ true
  pub above_before : below u p.version before ≡ true
  pub above_after : not_above u p.version after ≡ true

some_inj : {a b : Assembler} → some a ≡ some b → a ≡ b
some_inj e = cc e

module _ (u : Assembler → Bool) where
  from_first :
      (q : Assembler) (qs : List Assembler) (b : Assembler)
      → u q ≡ true
      → Best u q qs b
      → FirstHighest u (q ∷ qs) b
  unfolding all
  from_first q qs _ uq (stays n) = record {
    before = [];
    after = qs;
    split_eq = refl;
    usable = uq;
    above_before = refl;
    above_after = n;
  }
  from_first q qs _ uq (moves before b after e ub nb lo hi) = record {
    before = q ∷ before;
    after = after;
    split_eq = ap (q ∷◌) e;
    usable = ub;
    above_before = ground arith;
    above_after = hi;
  }

  below_first :
      (q : Assembler) (qs : List Assembler) (p : Assembler)
      → u q ≡ false
      → FirstHighest u qs p
      → FirstHighest u (q ∷ qs) p
  unfolding all
  below_first q qs p uq f = record {
    before = q ∷ f.before;
    after = f.after;
    split_eq = ap (q ∷◌) f.split_eq;
    usable = f.usable;
    above_before = let rest = f.above_before in ground arith;
    above_after = f.above_after;
  }

  first_highest :
      (found : List Assembler) (p : Assembler)
      → highest (keep u found) ≡ some p
      → FirstHighest u found p
  first_highest [] p h = cc h
  first_highest (q ∷ qs) p h = elim (Bool-cases (u q)) [
    | inl uq ↦
        from_first q qs p uq (subst (Best u q qs) (some_inj (rw uq at h)) (best_of-Best u q qs))
    | inr uq ↦ below_first q qs p uq (first_highest qs p (rw uq at h))
  ]

-- The assembler that is chosen is among those found and can be used there; every usable one found
-- before it has a lower release, and none found after it has a higher one.
pub choose-FirstHighest :
    (m : Machine) (driver : Option (ℕ × ℕ)) (arches : List ℕ) (found : List Assembler)
    (p : Assembler)
    → choose m driver arches found ≡ some p
    → FirstHighest (is_usable m driver arches) found p
unfolding choose
choose-FirstHighest m driver arches found p = first_highest (is_usable m driver arches) found p

keep-none :
    (u : Assembler → Bool) (qs : List Assembler)
    → highest (keep u qs) ≡ none
    → all (λ q. not (u q)) qs ≡ true
unfolding all
keep-none u [] h = refl
keep-none u (q ∷ qs) h = elim (Bool-cases (u q)) [
  | inl e ↦ cc (rw e at h)
  | inr e ↦ rw e (keep-none u qs (rw e at h))
]

pub choose-none :
    (m : Machine) (driver : Option (ℕ × ℕ)) (arches : List ℕ) (found : List Assembler)
    → choose m driver arches found ≡ none
    → all (λ p. not (is_usable m driver arches p)) found ≡ true
unfolding choose
choose-none m driver arches found h = keep-none (is_usable m driver arches) found h

pub choose-usable :
    (m : Machine) (driver : Option (ℕ × ℕ)) (arches : List ℕ) (found : List Assembler)
    (p : Assembler)
    → choose m driver arches found ≡ some p
    → rejection m driver arches p ≡ none
choose-usable m driver arches found p h =
    ground (arith, (choose-FirstHighest m driver arches found p h).usable)
