-- ===== src/Ptxas/Inheritance.antt =====
-- torch_mojo_backend/_ptxas.py: what `apply_default` and `check` leave in the environment, over any
-- sequence of calls in a process and the processes that inherit its variables.
use torch_mojo_backend.Prelude.{
  ℕ, Bool, true, false, Option, none, some, List, [], ◌∷◌, is_some, is_empty, not, ◌&&◌, ◌||◌, ◌≡◌,
  refl, ap, inl, inr, Bool-cases, Option-cases, arith,
}
use torch_mojo_backend.Ptxas.{
  Machine, Assembler, Variables, adopt, adopt_builtin, adopt_choice, explicit_choice, choose,
  candidates, apply_default, check, check_now, check_chosen, default_for,
}

-- One call, on the machine as it is then. A new process has checked nothing.
pub data Act : Type 0 where
  default_act : Machine → Act
  check_act : Machine → Bool → Act
  spawn_act : Act

unfoldable pub perform : Act → Bool × Variables → Bool × Variables
unfolding apply_default check
perform (default_act m) (checked, e) = (checked, apply_default m e)
perform (check_act m force) (checked, e) = (check m force checked e).1
perform spawn_act (checked, e) = (false, e)

unfoldable pub perform_all : List Act → Bool × Variables → Bool × Variables
unfolding perform
perform_all [] s = s
perform_all (a ∷ acts) s = perform_all acts (perform a s)

explicit_choice-adopt : (path : ℕ) (e : Variables) → explicit_choice (adopt path e) ≡ none
unfolding explicit_choice adopt
explicit_choice-adopt path e = ground arith

explicit_choice-adopt_choice :
    (p : Assembler) (e : Variables) → explicit_choice (adopt_choice p e) ≡ none
unfolding explicit_choice adopt_choice adopt adopt_builtin
explicit_choice-adopt_choice p e = ground arith

pub record Keeps (e e' : Variables) : Type 0 where
  pub same : explicit_choice e' ≡ explicit_choice e
  pub untouched : is_some (explicit_choice e) ≡ true → e' ≡ e

Keeps-refl : (e : Variables) → Keeps e e
Keeps-refl e = record { same = refl; untouched = λ h. refl }

Keeps-trans : (a b c : Variables) → Keeps a b → Keeps b c → Keeps a c
Keeps-trans a b c p q = record {
  same = cc (p.same, q.same);
  untouched = λ h. cc (p.untouched h, q.untouched (rw p.same h));
}

Keeps-automatic :
    (e e' : Variables) → explicit_choice e ≡ none → explicit_choice e' ≡ none → Keeps e e'
Keeps-automatic e e' h g = record { same = cc (h, g); untouched = λ k. cc (ap is_some h, k) }

explicit_choice-apply_default : (m : Machine) (e : Variables) → Keeps e (apply_default m e)
unfolding apply_default
explicit_choice-apply_default m e = elim (Option-cases (explicit_choice e)) [
  | inl h ↦ Keeps-automatic e (apply_default m e) h (ground (arith, h, chosen m.driver h))
  | inr (path, h) ↦ rw h (Keeps-refl e)
]
  where
    chosen :
        (driver : Option (ℕ × ℕ))
        → explicit_choice e ≡ none
        → explicit_choice (default_for m driver e) ≡ none
    chosen none h = elim (Option-cases m.wheel) [
      | inl w ↦ rw w h
      | inr (path, w) ↦ rw w (explicit_choice-adopt path e)
    ]
    chosen (some d) h = elim (Option-cases (choose m (some d) [] (candidates m e))) [
      | inl w ↦ rw w h
      | inr (p, w) ↦ rw w (explicit_choice-adopt_choice p e)
    ]

explicit_choice-check_now : (m : Machine) (e : Variables) → Keeps e (check_now m e).1
unfolding check_now
explicit_choice-check_now m e = elim (Bool-cases (not (is_some m.driver) || is_empty m.devices)) [
  | inl skip ↦ rw skip (Keeps-refl e)
  | inr go ↦ rw go (elim (Option-cases (explicit_choice e)) [
    | inr (path, h) ↦ rw h (Keeps-refl e)
    | inl h ↦ rw h (chosen h)
  ])
]
  where
    found : Option Assembler
    found = choose m m.driver m.devices (candidates m e)

    chosen : explicit_choice e ≡ none → Keeps e (check_chosen m found e).1
    chosen h = elim (Option-cases found) [
      | inl w ↦ rw w (Keeps-refl e)
      | inr (p, w) ↦
          rw w (Keeps-automatic e (adopt_choice p e) h (explicit_choice-adopt_choice p e))
    ]

explicit_choice-perform : (a : Act) (s : Bool × Variables) → Keeps s.1 (perform a s).1
unfolding perform check
explicit_choice-perform (default_act m) (checked, e) = explicit_choice-apply_default m e
explicit_choice-perform (check_act m force) (checked, e) =
    elim (Bool-cases (checked && not force)) [
      | inl h ↦ rw (h, perform, check) (Keeps-refl e)
      | inr h ↦ rw (h, perform, check) (explicit_choice-check_now m e)
    ]
explicit_choice-perform spawn_act (checked, e) = Keeps-refl e

-- Over any sequence of import-time choices and checks, on any machines and over any processes that
-- inherit the variables: a compiler that the user named is still named, with both variables
-- unchanged, and an automatic choice is never taken for the user's.
pub explicit_choice-perform_all :
    (acts : List Act) (s : Bool × Variables) → Keeps s.1 (perform_all acts s).1
unfolding perform_all
explicit_choice-perform_all [] s = Keeps-refl s.1
explicit_choice-perform_all (a ∷ acts) s =
    Keeps-trans s.1 (perform a s).1 (perform_all acts (perform a s)).1 (explicit_choice-perform a s)
      (explicit_choice-perform_all acts (perform a s))
