-- ===== src/NativeBuild/Closure.antt =====
-- `mojo_import_closure` ends, and has exactly the files that the entry reaches.
use torch_mojo_backend.Prelude.{
  ℕ, zero, suc, ◌+◌, ◌-◌, ◌*◌, ◌≤◌, ◌<◌, true, false, not, ◌||◌, Option, none, some, List, [], ◌∷◌,
  ◌==◌, length, is_some, ◌≡◌, ◌↔◌, refl, ap, sym, ◌∙◌, subst, inl, inr, Bool-cases, Option-cases,
  arith, ==_iff,
}
use torch_mojo_backend.Prelude.Sets.{elem, diff, sort, elem-sort}
use torch_mojo_backend.NativeBuild.{
  Tree, Line, import_line, other_line, module_file, push_option, push_imports, walk, sorted,
  mojo_import_closure,
}

-- The files that a file imports.
abbrev pub imports : Tree → ℕ → List ℕ
imports t f = push_imports t (t.directory f) (t.lines f) []

-- What `entry` reaches through imports of files that exist.
pub data Reached (t : Tree) (entry : ℕ) : ℕ → Type 0 where
  at_entry : t.exists entry ≡ true → Reached t entry entry
  by_import :
      (f g : ℕ)
      → Reached t entry f
      → elem g (imports t f) ≡ true
      → t.exists g ≡ true
      → Reached t entry g

some_inj : {a b : List ℕ} → some a ≡ some b → a ≡ b
some_inj e = cc e

module _ (t : Tree) where
  elem-push_imports :
      (g dir : ℕ) (lines : List Line) (todo : List ℕ)
      → elem g (push_imports t dir lines todo)
        ≡ (elem g (push_imports t dir lines []) || elem g todo)
  unfolding push_imports elem
  elem-push_imports g dir [] todo = refl
  elem-push_imports g dir (other_line ∷ lines) todo = elem-push_imports g dir lines todo
  elem-push_imports g dir (import_line d ∷ lines) todo =
      let o = module_file t d dir in
      ground (
        arith,
        elem-push_imports g dir lines (push_option o todo),
        elem-push_imports g dir lines (push_option o []),
        elem-push_option g o todo,
        elem-push_option g o [],
      )
    where
      elem-push_option :
          (g : ℕ) (o : Option ℕ) (todo : List ℕ)
          → elem g (push_option o todo) ≡ (elem g (push_option o []) || elem g todo)
      elem-push_option g none todo = refl
      elem-push_option g (some f) todo = ground arith

  length-push_imports :
      (dir : ℕ) (lines : List Line) (todo : List ℕ)
      → length (push_imports t dir lines todo) ≤ length lines + length todo
  unfolding push_imports
  length-push_imports dir [] todo = omega arith
  length-push_imports dir (other_line ∷ lines) todo =
      omega (arith, length-push_imports dir lines todo)
  length-push_imports dir (import_line d ∷ lines) todo = omega (
    arith,
    length-push_imports dir lines (push_option (module_file t d dir) todo),
    length-push_option (module_file t d dir) todo,
  )
    where
      length-push_option :
          (o : Option ℕ) (todo : List ℕ) → length (push_option o todo) ≤ suc (length todo)
      length-push_option none todo = omega arith
      length-push_option (some f) todo = omega arith

  -- Every file that was read is reached, and what it imports was read or is to be read.
  record Inv (entry : ℕ) (seen todo : List ℕ) : Type 0 where
    sound : (f : ℕ) → elem f seen ≡ true → Reached t entry f
    pending_sound : (f : ℕ) → elem f todo ≡ true → t.exists f ≡ true → Reached t entry f
    entry_known : t.exists entry ≡ true → (elem entry seen || elem entry todo) ≡ true
    closed :
        (f g : ℕ)
        → elem f seen ≡ true
        → elem g (imports t f) ≡ true
        → t.exists g ≡ true
        → (elem g seen || elem g todo) ≡ true

  skip-Inv :
      (entry f : ℕ) (seen todo : List ℕ)
      → (elem f seen || not (t.exists f)) ≡ true
      → Inv entry seen (f ∷ todo)
      → Inv entry seen todo
  unfolding elem
  skip-Inv entry f seen todo s v = record {
    sound = v.sound;
    pending_sound = λ g h e. v.pending_sound g (ground (arith, h)) e;
    entry_known = λ e. drop entry e (v.entry_known e);
    closed = λ a g h i e. drop g e (v.closed a g h i e);
  }
    where
      drop :
          (g : ℕ)
          → t.exists g ≡ true
          → (elem g seen || (g == f || elem g todo)) ≡ true
          → (elem g seen || elem g todo) ≡ true
      drop g e h = elim (Bool-cases (g == f)) [
        | inl q ↦
            let p = (==_iff g f).0 q in
            ground (arith, h, e, s, ap t.exists p, ap (λ x. elem x seen) p)
        | inr q ↦ ground (arith, h, q)
      ]

  read-Inv :
      (entry f : ℕ) (seen todo : List ℕ)
      → t.exists f ≡ true
      → Inv entry seen (f ∷ todo)
      → Inv entry (f ∷ seen) (push_imports t (t.directory f) (t.lines f) todo)
  unfolding elem
  read-Inv entry f seen todo x v = record {
    sound = λ g h. elim (Bool-cases (g == f)) [
      | inl q ↦ subst (Reached t entry) (sym ((==_iff g f).0 q)) reached
      | inr q ↦ v.sound g (ground (arith, h, q))
    ];
    pending_sound = λ g h e. elim (Bool-cases (elem g (imports t f))) [
      | inl i ↦ by_import f g reached i e
      | inr i ↦
          v.pending_sound g
            (ground (arith, h, i, elem-push_imports g (t.directory f) (t.lines f) todo)) e
    ];
    entry_known = λ e.
        ground (arith, v.entry_known e, elem-push_imports entry (t.directory f) (t.lines f) todo);
    closed = λ a g h i e. elim (Bool-cases (a == f)) [
      | inl q ↦ ground (
        arith,
        elem-push_imports g (t.directory f) (t.lines f) todo,
        i,
        ap (λ y. elem g (imports t y)) ((==_iff a f).0 q),
      )
      | inr q ↦ ground (
        arith,
        v.closed a g (ground (arith, h, q)) i e,
        elem-push_imports g (t.directory f) (t.lines f) todo,
      )
    ];
  }
    where
      reached : Reached t entry f
      reached = v.pending_sound f (ground arith) x

  start-Inv : (entry : ℕ) → Inv entry [] (entry ∷ [])
  unfolding elem
  start-Inv entry = record {
    sound = λ f h. absurd (false_true h);
    pending_sound = λ f h e.
        let p = (==_iff f entry).0 (ground (arith, h)) in
        subst (Reached t entry) (sym p) (at_entry (ap t.exists (sym p) ∙ e));
    entry_known = λ e. ground arith;
    closed = λ f g h i e. absurd (false_true h);
  }
    where
      false_true : false ≡ true → ⊥
      false_true h = cc h

  walk-Inv :
      (entry fuel : ℕ) (seen todo result : List ℕ)
      → Inv entry seen todo
      → walk t fuel seen todo ≡ some result
      → Inv entry result []
  unfolding walk
  walk-Inv entry zero seen [] result v h = subst (λ s. Inv entry s []) (some_inj h) v
  walk-Inv entry zero seen (f ∷ todo) result v h = cc h
  walk-Inv entry (suc fuel) seen [] result v h = subst (λ s. Inv entry s []) (some_inj h) v
  walk-Inv entry (suc fuel) seen (f ∷ todo) result v h =
      elim (Bool-cases (elem f seen || not (t.exists f))) [
        | inl e ↦
            walk-Inv entry fuel seen todo result (skip-Inv entry f seen todo e v)
              (rw (e, walk) at h)
        | inr e ↦
            walk-Inv entry fuel (f ∷ seen) (push_imports t (t.directory f) (t.lines f) todo) result
              (read-Inv entry f seen todo (ground (arith, e)) v) (rw (e, walk) at h)
      ]

  Reached-known :
      (entry f : ℕ) (seen : List ℕ) → Inv entry seen [] → Reached t entry f → elem f seen ≡ true
  unfolding elem
  Reached-known entry _ seen v (at_entry e) = ground (arith, v.entry_known e)
  Reached-known entry _ seen v (by_import f g r i e) =
      ground (arith, v.closed f g (Reached-known entry f seen v r) i e)

  diff-shorter :
      (files seen : List ℕ) (f : ℕ) → length (diff files (f ∷ seen)) ≤ length (diff files seen)
  unfolding diff elem
  diff-shorter [] seen f = omega arith
  diff-shorter (x ∷ files) seen f = ground (arith, diff-shorter files seen f)

  diff-drops :
      (files seen : List ℕ) (f : ℕ)
      → elem f files ≡ true
      → elem f seen ≡ false
      → length (diff files (f ∷ seen)) < length (diff files seen)
  unfolding diff elem
  diff-drops [] seen f h e = ground arith
  diff-drops (x ∷ files) seen f h e = elim (Bool-cases (f == x)) [
    | inl q ↦
        ground (arith, q, e, diff-shorter files seen f, ap (λ y. elem y seen) ((==_iff f x).0 q))
    | inr q ↦
        ground
          (arith, q, diff-shorter files seen f, diff-drops files seen f (ground (arith, h, q)) e)
  ]

  module _ (files : List ℕ) (k : ℕ) (known : (f : ℕ) → t.exists f ≡ true → elem f files ≡ true)
      (short : (f : ℕ) → length (t.lines f) ≤ k) where
    walk-ends :
        (fuel : ℕ) (seen todo : List ℕ)
        → length (diff files seen) * (k + 1) + length todo ≤ fuel
        → is_some (walk t fuel seen todo) ≡ true
    unfolding walk
    walk-ends zero seen [] h = refl
    walk-ends zero seen (f ∷ todo) h = ground arith
    walk-ends (suc fuel) seen [] h = refl
    walk-ends (suc fuel) seen (f ∷ todo) h = elim (Bool-cases (elem f seen || not (t.exists f))) [
      | inl e ↦ rw (e, walk) (walk-ends fuel seen todo (omega arith))
      | inr e ↦
          rw (e, walk)
            (walk-ends fuel (f ∷ seen) (push_imports t (t.directory f) (t.lines f) todo) (
              omega (
                arith,
                short f,
                length-push_imports (t.directory f) (t.lines f) todo,
                times (length (diff files (f ∷ seen))) (length (diff files seen)) (k + 1)
                    (diff-drops files seen f (known f (ground (arith, e))) (ground (arith, e))),
              )))
    ]
      where
        times : (a b c : ℕ) → a < b → a * c + c ≤ b * c
        times a b c l =
            let e : b ≡ suc a + (b - suc a) = omega arith in omega (arith, ap (λ x. x * c) e)

diff-nil : (xs : List ℕ) → length (diff xs []) ≡ length xs
unfolding diff elem
diff-nil [] = refl
diff-nil (x ∷ xs) = ap suc (diff-nil xs)

-- On a file system with finitely many sources, of at most `k` lines each, the walk ends within
-- (files * (k + 1) + 1) turns, import cycles included, and the closure has exactly the existing files
-- that the entry reaches through imports.
pub mojo_import_closure-Reached :
    (t : Tree) (entry fuel k : ℕ) (files : List ℕ)
    → ((f : ℕ) → t.exists f ≡ true → elem f files ≡ true)
    → ((f : ℕ) → length (t.lines f) ≤ k)
    → length files * (k + 1) + 1 ≤ fuel
    → (closure : List ℕ) × (mojo_import_closure t fuel entry ≡ some closure)
      × ((f : ℕ) → (elem f closure ≡ true) ↔ Reached t entry f)
unfolding mojo_import_closure
mojo_import_closure-Reached t entry fuel k files known short enough =
    elim (Option-cases (walk t fuel [] (entry ∷ []))) [
      | inl e ↦ absurd (never (walk-ends t files k known short fuel [] (entry ∷ []) start) e)
      | inr (seen, e) ↦
          let v = walk-Inv t entry fuel [] (entry ∷ []) seen (start-Inv t entry) e in
          (
            sort seen,
            ap sorted e,
            λ f. (
              λ h. v.sound f (sym (elem-sort f seen) ∙ h),
              λ r. elem-sort f seen ∙ Reached-known t entry f seen v r,
            ),
          )
    ]
  where
    never : is_some (walk t fuel [] (entry ∷ [])) ≡ true → walk t fuel [] (entry ∷ []) ≡ none → ⊥
    never h e = cc (h, ap is_some e)

    start : length (diff files []) * (k + 1) + 1 ≤ fuel
    start = omega (arith, enough, ap (λ n. n * (k + 1)) (diff-nil files))
