-- ===== src/Ptxas/Selection.antt =====
-- torch_mojo_backend/_ptxas.py: the list of `candidates`, and what `check` does with it.
use torch_mojo_backend.Prelude.{
  ℕ, Bool, true, false, not, ◌&&◌, ◌||◌, none, some, List, [], ◌∷◌, map, ◌==◌, if◌then◌else◌, any,
  all, is_empty, is_some, ◌≡◌, ◌⊎◌, refl, inl, inr, Option-cases, arith,
}
use torch_mojo_backend.Prelude.Sets.{elem, distinct}
use torch_mojo_backend.Ptxas.{
  Machine, Assembler, Variables, Source, env_var, is_env_var, distinct_paths, candidates,
  explicit_choice, adopt_choice, is_usable, choose, current, complain, check_now, check_chosen,
  check, passed, warned, refused,
}
use torch_mojo_backend.Ptxas.Choice.{FirstHighest, choose-FirstHighest, choose-none}

-- Whether a path is looked at, and is the file that has this resolved path.
abbrev pub leads_to : Machine → ℕ → ℕ × Source → Bool
leads_to m r (path, source) =
    (elim (m.resolve path) [ none ↦ false | some r' ↦ r == r' ])
    && (m.is_file path || is_env_var source)

abbrev pub resolved_paths : Machine → List ℕ → List (ℕ × Source) → List ℕ
resolved_paths m seen found = map (λ p. p.0) (distinct_paths m seen found)

module _ (m : Machine) where
  elem-distinct_paths :
      (r : ℕ) (seen : List ℕ) (found : List (ℕ × Source))
      → elem r (resolved_paths m seen found) ≡ (not (elem r seen) && any (leads_to m r) found)
  unfolding elem distinct_paths any
  elem-distinct_paths r seen [] = ground arith
  elem-distinct_paths r seen ((path, source) ∷ found) = elim (Option-cases (m.resolve path)) [
    | inl e ↦ ground (arith, e, elem-distinct_paths r seen found)
    | inr (q, e) ↦
        ground (arith, e, elem-distinct_paths r seen found, elem-distinct_paths r (q ∷ seen) found)
  ]

  distinct-distinct_paths :
      (seen : List ℕ) (found : List (ℕ × Source)) → distinct (resolved_paths m seen found) ≡ true
  unfolding elem distinct_paths distinct
  distinct-distinct_paths seen [] = refl
  distinct-distinct_paths seen ((path, source) ∷ found) = elim (Option-cases (m.resolve path)) [
    | inl e ↦ ground (arith, e, distinct-distinct_paths seen found)
    | inr (q, e) ↦ ground (
      arith,
      e,
      distinct-distinct_paths seen found,
      distinct-distinct_paths (q ∷ seen) found,
      elem-distinct_paths q (q ∷ seen) found,
    )
  ]

-- Every file is offered once: the resolved paths of the candidates are pairwise different, and
-- they are exactly those of the paths that exist, together with the one that the user named.
pub distinct_paths-exact :
    (m : Machine) (found : List (ℕ × Source))
    → (distinct (resolved_paths m [] found) ≡ true)
      × ((r : ℕ) → elem r (resolved_paths m [] found) ≡ any (leads_to m r) found)
unfolding elem
distinct_paths-exact m found =
    (distinct-distinct_paths m [] found, λ r. elem-distinct_paths m r [] found)

-- On a machine with an NVIDIA driver and GPUs, when the user named no compiler, the check adopts the
-- first of the highest usable candidates; without a usable one it changes no variable, and refuses,
-- or warns when TORCH_MOJO_BACKEND_PTXAS_CHECK is 0.
pub check_now-automatic :
    (m : Machine) (e : Variables)
    → explicit_choice e ≡ none
    → is_some m.driver ≡ true
    → is_empty m.devices ≡ false
    → ((p : Assembler) × FirstHighest (is_usable m m.driver m.devices) (candidates m e) p
        × (check_now m e ≡ (passed, adopt_choice p e)))
      ⊎ ((all (λ p. not (is_usable m m.driver m.devices p)) (candidates m e) ≡ true)
          × (check_now m e ≡ (if m.check_off then warned else refused, e)))
unfolding check_now
check_now-automatic m e x d g =
    rw (d, g, x) (pick (Option-cases (choose m m.driver m.devices (candidates m e))))
  where
    pick :
        (choose m m.driver m.devices (candidates m e) ≡ none)
          ⊎ ((p : Assembler) × (choose m m.driver m.devices (candidates m e) ≡ some p))
        → ((p : Assembler) × FirstHighest (is_usable m m.driver m.devices) (candidates m e) p
            × (check_chosen m (choose m m.driver m.devices (candidates m e)) e
                ≡ (passed, adopt_choice p e)))
          ⊎ ((all (λ p. not (is_usable m m.driver m.devices p)) (candidates m e) ≡ true)
              × (check_chosen m (choose m m.driver m.devices (candidates m e)) e ≡ (complain m, e)))
    pick (inl c) = inr (choose-none m m.driver m.devices (candidates m e) c, rw c refl)
    pick (inr (p, c)) =
        inl (p, choose-FirstHighest m m.driver m.devices (candidates m e) p c, rw c refl)

-- The compiler that the user named, as a candidate.
abbrev pub named_assembler : Machine → ℕ → Assembler
named_assembler m path = record { path = path; source = env_var; version = m.version_at path }

current-candidates :
    (m : Machine) (e : Variables) (path r : ℕ)
    → explicit_choice e ≡ some path
    → m.resolve path ≡ some r
    → current (candidates m e) ≡ some (named_assembler m path)
unfolding candidates distinct_paths elem
current-candidates m e path r x h = rw x (rw h (ground (arith, h)))

-- On a machine with an NVIDIA driver and GPUs, when the user named a compiler whose path resolves,
-- the check passes exactly when that compiler is usable there; the variables stay as they are.
pub check_now-explicit :
    (m : Machine) (e : Variables) (path r : ℕ)
    → explicit_choice e ≡ some path
    → m.resolve path ≡ some r
    → is_some m.driver ≡ true
    → is_empty m.devices ≡ false
    → check_now m e ≡ (
      if is_usable m m.driver m.devices (named_assembler m path)
          then passed
          else if m.check_off
          then warned
          else refused,
      e,
    )
unfolding check_now
check_now-explicit m e path r x h d g = rw (d, g, x, current-candidates m e path r x h) refl

check_now-refused :
    (m : Machine) (e : Variables) → (check_now m e).0 ≡ refused → (check_now m e).1 ≡ e
unfolding check_now
check_now-refused m e h = ground (arith, h)

-- A check that refuses changes no variable and is not remembered as passed.
pub check-refused :
    (m : Machine) (force checked : Bool) (e : Variables)
    → (check m force checked e).0 ≡ refused
    → check m force checked e ≡ (refused, (checked, e))
unfolding check
check-refused m force checked e h = ground (arith, h, check_now-refused m e)
