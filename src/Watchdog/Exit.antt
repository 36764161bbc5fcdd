-- ===== src/Watchdog/Exit.antt =====
-- The exit hook never calls into a watchdog that is destroyed, and no shutdown waits for it for long.
use torch_mojo_backend.Prelude.{
  update, ℕ, zero, suc, ◌+◌, ◌≤◌, ◌≡◌, ◌≢◌, refl, ◌∙◌, sym, ap, subst, Bool, true, false, Option,
  none, some, List, [], ◌∷◌, ◌==◌, ==_iff, if◌then◌else◌, arith, Bool-cases, Option-cases, inl, inr,
}
use torch_mojo_backend.Watchdog.{
  unborn, alive, waiting, gone, Hook, idle, visiting, holding, tested, calling, called, ended,
  Process, new_process, register, hook_step, shutdown_begin, is_released, shutdown_end, mark_dead,
  shutdown_nested, takes_del, Step, registers, exits, hooks, begins, ends, deletes, Reach, here,
  next,
}

-- Whether the hook's `users` of a group counts.
abbrev uses : Hook → ℕ → Bool
uses idle g = false
uses (visiting ks) g = false
uses (holding h ks) g = g == h
uses (tested h ks) g = g == h
uses (calling h ks) g = g == h
uses (called h ks) g = g == h
uses ended g = false

abbrev pub is_calling : Hook → ℕ → Bool
is_calling idle g = false
is_calling (visiting ks) g = false
is_calling (holding h ks) g = false
is_calling (tested h ks) g = false
is_calling (calling h ks) g = g == h
is_calling (called h ks) g = false
is_calling ended g = false

-- The hook has found the group alive, and is about to call into it or does.
abbrev nears : Hook → ℕ → Bool
nears idle g = false
nears (visiting ks) g = false
nears (holding h ks) g = false
nears (tested h ks) g = g == h
nears (calling h ks) g = g == h
nears (called h ks) g = false
nears ended g = false

record Inv (prepared : Bool) (p : Process) : Type 0 where
  entries : (k g : ℕ) → p.entry k ≡ some g → (p.stage g ≡ alive) × (p.key g ≡ k)
  unique : (g h : ℕ) → p.stage g ≡ alive → p.stage h ≡ alive → p.key g ≡ p.key h → g ≡ h
  counted : (g : ℕ) → p.users g ≡ (if uses p.hook g then 1 else 0)
  fresh : (g : ℕ) → p.stage g ≡ unborn → uses p.hook g ≡ false
  kept : (g : ℕ) → uses p.hook g ≡ true → p.stage g ≡ alive → p.entry (p.key g) ≡ some g
  awaited : (g h : ℕ) → p.stage g ≡ waiting → p.popped g ≡ some h → h ≡ g
  unheld : (g : ℕ) → p.stage g ≡ waiting → p.popped g ≡ none → uses p.hook g ≡ false
  marked : (g : ℕ) → uses p.hook g ≡ true → p.stage g ≡ gone → p.dead g ≡ true
  unharmed : prepared ≡ false → (g : ℕ) → nears p.hook g ≡ true → p.stage g ≢ gone

abbrev at : Hook → Process → Process
at k p = record p { hook = k }

module _ (prepared : Bool) where
  new_process-Inv : Inv prepared new_process
  new_process-Inv = record {
    entries = λ k g h. cc h;
    unique = λ g h a b e. cc a;
    counted = λ g. refl;
    fresh = λ g h. refl;
    kept = λ g u a. cc u;
    awaited = λ g h a e. cc a;
    unheld = λ g a e. refl;
    marked = λ g u a. cc u;
    unharmed = λ n g c. cc c;
  }

  register-Inv :
      (g k : ℕ) (p : Process)
      → p.stage g ≡ unborn
      → ((h : ℕ) → p.stage h ≡ alive → (p.key h == k) ≡ false)
      → Inv prepared p
      → Inv prepared (register g k p)
  unfolding register
  register-Inv g k p u d v = record {
    entries = λ k' h e. ground (arith, v.entries k' h, e, u);
    unique = λ h i a b e. ground (arith, v.unique h i, d h, d i, a, b, e);
    counted = λ h. ground (arith, v.counted h, v.fresh h, u);
    fresh = λ h a. ground (arith, v.fresh h, u, a);
    kept = λ h s a. ground (arith, v.kept h, d h, v.fresh h, u, s, a);
    awaited = λ h i a e. ground (arith, v.awaited h i, a, e);
    unheld = λ h a e. ground (arith, v.unheld h, a, e);
    marked = λ h s a. ground (arith, v.marked h, s, a, v.fresh h, u);
    unharmed = λ n h c a. ground (arith, v.unharmed n h c, a, c);
  }

  shutdown_begin-Inv :
      (g : ℕ) (p : Process) → p.stage g ≡ alive → Inv prepared p → Inv prepared (shutdown_begin g p)
  unfolding shutdown_begin
  shutdown_begin-Inv g p a v = record {
    entries = λ k h e. ground (arith, v.entries k h, e, a);
    unique = λ h i b c e. ground (arith, v.unique h i, b, c, e);
    counted = v.counted;
    fresh = λ h b. ground (arith, v.fresh h, b);
    kept = λ h s b. ground (arith, v.kept h, s, b, v.unique g h, a);
    awaited =
        λ h i b e. ground (arith, v.awaited h i, b, e, v.entries (p.key g) i, v.unique g i, a);
    unheld = λ h b e. ground (arith, v.unheld h, b, e, v.kept h, a, Bool-cases (uses p.hook h));
    marked = λ h s b. ground (arith, v.marked h, s, b);
    unharmed = λ n h c b. ground (arith, v.unharmed n h c, b);
  }

  shutdown_end-Inv :
      (g : ℕ) (p : Process)
      → p.stage g ≡ waiting
      → is_released (p.popped g) p.users ≡ true
      → Inv prepared p
      → Inv prepared (shutdown_end g p)
  unfolding shutdown_end
  shutdown_end-Inv g p w r v = record {
    entries = λ k h e. ground (arith, v.entries k h, e, w);
    unique = λ h i b c e. ground (arith, v.unique h i, b, c, e);
    counted = v.counted;
    fresh = λ h b. ground (arith, v.fresh h, b);
    kept = λ h s b. ground (arith, v.kept h, s, b);
    awaited = λ h i b e. ground (arith, v.awaited h i, b, e);
    unheld = λ h b e. ground (arith, v.unheld h, b, e);
    marked = λ h s b. ground (arith, v.marked h, s, b, free, ap (λ x. uses p.hook x));
    unharmed = λ n h c b. ground (arith, v.unharmed n h c, b, free);
  }
    where
      free : uses p.hook g ≡ false
      free = elim (Option-cases (p.popped g)) [
        | inl e ↦ v.unheld g w e
        | inr (h, e) ↦ ground (arith, v.awaited g h w e, v.counted g, r, e, v.counted h)
      ]

  mark_dead_kept :
      (o : Option ℕ) (dead : ℕ → Bool) (h : ℕ) → dead h ≡ true → mark_dead o dead h ≡ true
  mark_dead_kept none dead h d = d
  mark_dead_kept (some live) dead h d = ground (arith, d)

  quiet :
      (prepared : Bool) (k : Hook) (g : ℕ)
      → prepared ≡ false
      → takes_del prepared k ≡ true
      → nears k g ≡ false
  quiet prepared idle g n t = refl
  quiet prepared (visiting ks) g n t = refl
  quiet prepared (holding h ks) g n t = refl
  quiet prepared (tested h ks) g n t = cc (n, t)
  quiet prepared (calling h ks) g n t = cc t
  quiet prepared (called h ks) g n t = refl
  quiet prepared ended g n t = refl

  shutdown_nested-Inv :
      (g : ℕ) (p : Process)
      → p.stage g ≡ alive
      → takes_del prepared p.hook ≡ true
      → Inv prepared p
      → Inv prepared (shutdown_nested g p)
  unfolding shutdown_nested
  shutdown_nested-Inv g p a t v = record {
    entries = λ k h e. ground (arith, v.entries k h, e, a);
    unique = λ h i b c e. ground (arith, v.unique h i, b, c, e);
    counted = v.counted;
    fresh = λ h b. ground (arith, v.fresh h, b);
    kept = λ h s b. ground (arith, v.kept h, s, b, v.unique g h, a);
    awaited = λ h i b e. ground (arith, v.awaited h i, b, e);
    unheld = λ h b e. ground (arith, v.unheld h, b, e);
    marked = λ h s b. elim (Bool-cases (h == g)) [
      | inl e ↦ ground (arith, same h e s)
      | inr e ↦ mark_dead_kept (p.entry (p.key g)) p.dead h (v.marked h s (ground (arith, b, e)))
    ];
    unharmed = λ n h c b. cc (sym c ∙ quiet prepared p.hook h n t);
  }
    where
      same :
          (h : ℕ)
          → (h == g) ≡ true
          → uses p.hook h ≡ true
          → mark_dead (p.entry (p.key g)) p.dead h ≡ true
      same h e u =
          let held : p.entry (p.key g) ≡ some g =
            v.kept g (ap (λ x. uses p.hook x) (sym ((==_iff h g).0 e)) ∙ u) a in
          ground (arith, held, e)

  -- The hook's position moves to one that uses the same groups, and calls into none that is gone.
  move-Inv :
      (k k' : Hook) (p : Process)
      → ((g : ℕ) → uses k' g ≡ uses k g)
      → (prepared ≡ false → (g : ℕ) → nears k' g ≡ true → p.stage g ≢ gone)
      → Inv prepared (at k p)
      → Inv prepared (at k' p)
  move-Inv k k' p e f v = record {
    entries = v.entries;
    unique = v.unique;
    counted = λ g. ground (arith, v.counted g, e g);
    fresh = λ g a. ground (arith, v.fresh g, e g, a);
    kept = λ g s a. ground (arith, v.kept g, s, e g, a);
    awaited = v.awaited;
    unheld = λ g a b. ground (arith, v.unheld g, e g, a, b);
    marked = λ g s a. ground (arith, v.marked g, e g, s, a);
    unharmed = f;
  }

  clear-Inv :
      (p : Process)
      → Inv prepared (at (visiting []) p)
      → Inv prepared (hook_step (at (visiting []) p))
  unfolding hook_step
  clear-Inv p v = record {
    entries = λ k g e. cc e;
    unique = v.unique;
    counted = v.counted;
    fresh = v.fresh;
    kept = λ g s a. cc s;
    awaited = v.awaited;
    unheld = v.unheld;
    marked = v.marked;
    unharmed = v.unharmed;
  }

  take-Inv :
      (g k : ℕ) (ks : List ℕ) (p : Process)
      → p.entry k ≡ some g
      → Inv prepared (at (visiting (k ∷ ks)) p)
      → Inv prepared (record p { users = update p.users g (p.users g + 1); hook = holding g ks })
  take-Inv g k ks p e v = record {
    entries = v.entries;
    unique = v.unique;
    counted = λ h. ground (arith, v.counted h, v.counted g);
    fresh = λ h a. ground (arith, v.entries k g e, a);
    kept = λ h s a. ground (arith, v.entries k g e, a, e, s);
    awaited = v.awaited;
    unheld = λ h a b. ground (arith, v.entries k g e, a);
    marked = λ h s a. ground (arith, v.entries k g e, s, a);
    unharmed = λ n h c. cc c;
  }

  release-Inv :
      (g : ℕ) (ks : List ℕ) (p : Process)
      → Inv prepared (at (called g ks) p)
      → Inv prepared (hook_step (at (called g ks) p))
  unfolding hook_step
  release-Inv g ks p v = record {
    entries = v.entries;
    unique = v.unique;
    counted = λ h. ground (arith, v.counted h, v.counted g);
    fresh = λ h a. refl;
    kept = λ h s a. cc s;
    awaited = v.awaited;
    unheld = λ h a b. refl;
    marked = λ h s a. cc s;
    unharmed = λ n h c. cc c;
  }

  hook_step-Inv : (p : Process) → Inv prepared p → Inv prepared (hook_step p)
  unfolding hook_step
  hook_step-Inv p v = by_hook p.hook v
    where
      by_hook : (k : Hook) → Inv prepared (at k p) → Inv prepared (hook_step (at k p))
      by_hook idle v = v
      by_hook (visiting []) v = clear-Inv p v
      by_hook (visiting (k ∷ ks)) v = elim (Option-cases (p.entry k)) [
        | inl e ↦
            rw (e, hook_step)
              (move-Inv (visiting (k ∷ ks)) (visiting ks) p (λ g. refl) (λ n g c. cc c) v)
        | inr (g, e) ↦ rw (e, hook_step) (take-Inv g k ks p e v)
      ]
      by_hook (holding g ks) v = elim (Bool-cases (p.dead g)) [
        | inl e ↦
            rw (e, hook_step)
              (move-Inv (holding g ks) (called g ks) p (λ h. refl) (λ n h c. cc c) v)
        | inr e ↦
            rw (e, hook_step)
              (move-Inv (holding g ks) (tested g ks) p (λ h. refl)
                (λ n h c a. ground (arith, v.marked h c a, c, e)) v)
      ]
      by_hook (tested g ks) v =
          move-Inv (tested g ks) (calling g ks) p (λ h. refl) (λ n h c a. v.unharmed n h c a) v
      by_hook (calling g ks) v =
          move-Inv (calling g ks) (called g ks) p (λ h. refl) (λ n h c. cc c) v
      by_hook (called g ks) v = release-Inv g ks p v
      by_hook ended v = v

  Step-Inv : {p q : Process} → Step prepared p q → Inv prepared p → Inv prepared q
  Step-Inv {p = p} (registers g k u d) v = register-Inv g k p u d v
  Step-Inv {p = p} (exits ks i m) v =
      move-Inv idle (visiting ks) p (λ g. refl) (λ n g c. cc c)
        (subst (λ k. Inv prepared (at k p)) i v)
  Step-Inv {p = p} hooks v = hook_step-Inv p v
  Step-Inv {p = p} (begins g a) v = shutdown_begin-Inv g p a v
  Step-Inv {p = p} (ends g w r) v = shutdown_end-Inv g p w r v
  Step-Inv {p = p} (deletes g a t) v = shutdown_nested-Inv g p a t v

  Reach-Inv : {p q : Process} → Inv prepared p → Reach prepared p q → Inv prepared q
  Reach-Inv v here = v
  Reach-Inv v (next r s) = Step-Inv s (Reach-Inv v r)

is_calling-nears : (h : Hook) (g : ℕ) → is_calling h g ≡ true → nears h g ≡ true
is_calling-nears idle g c = cc c
is_calling-nears (visiting ks) g c = cc c
is_calling-nears (holding h ks) g c = cc c
is_calling-nears (tested h ks) g c = cc c
is_calling-nears (calling h ks) g c = c
is_calling-nears (called h ks) g c = cc c
is_calling-nears ended g c = cc c

-- In every interleaving of registrations, shutdowns by other threads, shutdowns by a `__del__` on the
-- hook's thread, and the exit hook, in which no `__del__` runs between the hook's test of `dead` and
-- the native call behind it: the hook is never in `core.watchdog_exit` with the handle of a group whose
-- handle is destroyed.
pub hook_calls_alive :
    {p : Process}
    → Reach false new_process p
    → (g : ℕ) → is_calling p.hook g ≡ true
    → p.stage g ≢ gone
hook_calls_alive {p} r g c =
    (Reach-Inv false (new_process-Inv false) r).unharmed refl g (is_calling-nears p.hook g c)

abbrev pub hook_steps : ℕ → Process → Process
unfolding hook_step
hook_steps zero p = p
hook_steps (suc n) p = hook_steps n (hook_step p)

-- In every interleaving, a `__del__` anywhere in the hook outside its native calls included, the wait loop of a shutdown has ended at most four steps of the hook later,
-- one of them the return of `core.watchdog_exit`, when the thread of the hook is alone.
pub shutdown_waits_shortly :
    {prepared : Bool} {p : Process}
    → Reach prepared new_process p
    → (g : ℕ) → p.stage g ≡ waiting
    → (n : ℕ) × (n ≤ 4) × (is_released (p.popped g) (hook_steps n p).users ≡ true)
unfolding hook_step
shutdown_waits_shortly {prepared} {p} r g w = elim (Bool-cases (is_released (p.popped g) p.users)) [
  | inl e ↦ (0, omega arith, e)
  | inr e ↦ by_hook p.hook v (held e v)
]
  where
    v : Inv prepared p
    v = Reach-Inv prepared (new_process-Inv prepared) r

    held :
        is_released (p.popped g) p.users ≡ false
        → Inv prepared p
        → (p.popped g ≡ some g) × (uses p.hook g ≡ true) × (p.users g ≡ 1)
    held e v = elim (Option-cases (p.popped g)) [
      | inl o ↦ ground (arith, e, o)
      | inr (h, o) ↦ ground (arith, e, o, v.awaited g h w o, v.counted g)
    ]

    by_hook :
        (k : Hook)
        → Inv prepared (at k p)
        → (p.popped g ≡ some g) × (uses k g ≡ true) × (p.users g ≡ 1)
        → (n : ℕ) × (n ≤ 4) × (is_released (p.popped g) (hook_steps n (at k p)).users ≡ true)
    by_hook idle v h = cc (h.1)
    by_hook (visiting ks) v h = cc (h.1)
    by_hook (holding i ks) v h = elim (Bool-cases (p.dead i)) [
      | inl d ↦ (2, omega arith, ground (arith, h, d))
      | inr d ↦ (4, omega arith, ground (arith, h, d))
    ]
    by_hook (tested i ks) v h = (3, omega arith, ground (arith, h))
    by_hook (calling i ks) v h = (2, omega arith, ground (arith, h))
    by_hook (called i ks) v h = (1, omega arith, ground (arith, h))
    by_hook ended v h = cc (h.1)
