-- ===== src/NativeBuild/Processes/Marks.antt =====
-- The files of the cache in every interleaving.
use torch_mojo_backend.Prelude.{
  update, ℕ, ◌≡◌, ◌≢◌, refl, sym, ap, subst, ◌∙◌, Bool, true, false, not, ◌&&◌, ◌||◌, Option, none,
  some, ◌==◌, ==_iff, if◌then◌else◌, is_some, arith, inl, inr, Bool-cases,
}
use torch_mojo_backend.NativeBuild.Prebuilt.{Kind, shipped, compiled, Slot, Answers, is_marked}
use torch_mojo_backend.NativeBuild.Processes.{
  Place, looking, waiting, building, compiling, ready, marking, refused, dropping, unlinking,
  reloading, loaded, raised, died, holds, load_at, run, Machine, new_machine, freed, Step, acts,
  enters, dies, Reach, here, next,
}

-- Between the two files of an installation or of a removal
abbrev halfway : Place → Bool
halfway marking = true
halfway unlinking = true
halfway x = false

-- What the place of the lock's holder says of the files
abbrev agrees : Place → Slot → Bool
agrees marking s = s.mark && not (is_some s.lib)
agrees (compiling b) s = not (is_some s.lib)
agrees unlinking s = not (is_some s.lib)
agrees x s = true

abbrev pub is_shipped : Option Kind → Bool
is_shipped none = false
is_shipped (some shipped) = true
is_shipped (some compiled) = false

-- The holder, or a process that holds nothing
abbrev holder : Option ℕ → (ℕ → Place) → Place
holder none place = died
holder (some p) place = place p

-- Places where the files are as they should be
abbrev is_plain : Place → Bool
is_plain x = not (holds x) && not (halfway x)

load_at-is_plain :
    (a : Answers) (o : Place) (l : Option Kind)
    → is_plain o ≡ true
    → is_plain (load_at a o l) ≡ true
load_at-is_plain a o none h = h
load_at-is_plain a o (some k) h = ground (arith, h)

plain_agrees :
    (x : Place) (s : Slot)
    → is_plain x ≡ true
    → (holds x ≡ false) × (halfway x ≡ false) × (agrees x s ≡ true)
plain_agrees (looking b) s h = (refl, refl, refl)
plain_agrees (waiting b) s h = (refl, refl, refl)
plain_agrees (building b) s h = cc h
plain_agrees (compiling b) s h = cc h
plain_agrees (ready b) s h = (refl, refl, refl)
plain_agrees marking s h = cc h
plain_agrees refused s h = (refl, refl, refl)
plain_agrees dropping s h = cc h
plain_agrees unlinking s h = cc h
plain_agrees reloading s h = (refl, refl, refl)
plain_agrees (loaded k) s h = (refl, refl, refl)
plain_agrees raised s h = (refl, refl, refl)
plain_agrees died s h = (refl, refl, refl)

-- What the files are where a process holds the lock, or nobody does
record Files (c : Bool) (x : Place) (s : Slot) : Type 0 where
  f_fitting : agrees x s ≡ true
  f_marked : (not (is_shipped s.lib) || s.mark) ≡ true
  f_calm : (c || halfway x || is_marked s.lib s.mark) ≡ true

-- Without the lock a process changes no file.
run_unlocked :
    (a : Answers) (x : Place) (s : Slot)
    → holds x ≡ false
    → ((run a x s).1 ≡ s) × (halfway (run a x s).0 ≡ false) × (agrees (run a x s).0 s ≡ true)
unfolding run
run_unlocked a (looking b) s h = ground arith
run_unlocked a (waiting b) s h = ground arith
run_unlocked a (building b) s h = cc h
run_unlocked a (compiling b) s h = cc h
run_unlocked a (ready b) s h =
    let p =
      plain_agrees (load_at a (if b then refused else raised) s.lib) s
        (load_at-is_plain a (if b then refused else raised) s.lib (ground arith)) in
    (refl, p.1, p.2)
run_unlocked a marking s h = cc h
run_unlocked a refused s h = ground arith
run_unlocked a dropping s h = cc h
run_unlocked a unlinking s h = cc h
run_unlocked a reloading s h =
    let p = plain_agrees (load_at a raised s.lib) s (load_at-is_plain a raised s.lib refl) in
    (refl, p.1, p.2)
run_unlocked a (loaded k) s h = (refl, refl, refl)
run_unlocked a raised s h = (refl, refl, refl)
run_unlocked a died s h = (refl, refl, refl)

run-Files :
    (a : Answers) (x : Place) (s : Slot) (c : Bool)
    → holds x ≡ true
    → Files c x s
    → Files c (run a x s).0 (run a x s).1
unfolding run
run-Files a (looking b) s c h f = cc h
run-Files a (waiting b) s c h f = cc h
run-Files a (building b) s c h f = ground (arith, f.f_fitting, f.f_marked, f.f_calm)
run-Files a (compiling b) s c h f = ground (arith, f.f_fitting, f.f_marked, f.f_calm)
run-Files a (ready b) s c h f = cc h
run-Files a marking s c h f = ground (arith, f.f_fitting, f.f_marked, f.f_calm)
run-Files a refused s c h f = cc h
run-Files a dropping s c h f = ground (arith, f.f_fitting, f.f_marked, f.f_calm)
run-Files a unlinking s c h f = ground (arith, f.f_fitting, f.f_marked, f.f_calm)
run-Files a reloading s c h f = cc h
run-Files a (loaded k) s c h f = cc h
run-Files a raised s c h f = cc h
run-Files a died s c h f = cc h

record Inv (m : Machine) : Type 0 where
  exclusive : (p : ℕ) → holds (m.place p) ≡ true → m.lock ≡ some p
  held : (p : ℕ) → m.lock ≡ some p → holds (m.place p) ≡ true
  files : Files m.crashed (holder m.lock m.place) m.slot

halfway-holds : (x : Place) → holds x ≡ false → halfway x ≡ false
halfway-holds (looking b) h = refl
halfway-holds (waiting b) h = refl
halfway-holds (building b) h = refl
halfway-holds (compiling b) h = refl
halfway-holds (ready b) h = refl
halfway-holds marking h = cc h
halfway-holds refused h = refl
halfway-holds dropping h = refl
halfway-holds unlinking h = cc h
halfway-holds reloading h = refl
halfway-holds (loaded k) h = refl
halfway-holds raised h = refl
halfway-holds died h = refl

-- A process that held the lock moves on, or leaves it.
moved-Files :
    (p : ℕ) (x : Place) (place : ℕ → Place) (s : Slot) (c : Bool)
    → Files c x s
    → Files c (holder (freed p x (some p)) (update place p x)) s
moved-Files p x place s c f = elim (Bool-cases (holds x)) [
  | inl h ↦ subst (λ y. Files c y s) (sym (stays h)) f
  | inr h ↦
      subst (λ y. Files c y s) (sym (leaves h))
        (record {
          f_fitting = refl;
          f_marked = f.f_marked;
          f_calm = ground (arith, f.f_calm, halfway-holds x h);
        })
]
  where
    stays : holds x ≡ true → holder (freed p x (some p)) (update place p x) ≡ x
    stays h = ground (arith, h)

    leaves : holds x ≡ false → holder (freed p x (some p)) (update place p x) ≡ died
    leaves h = ground (arith, h)

-- A process without the lock moves on.
other-Files :
    (p : ℕ) (x : Place) (place : ℕ → Place) (lock : Option ℕ) (s : Slot) (c : Bool)
    → lock ≢ some p
    → Files c (holder lock place) s
    → Files c (holder (freed p x lock) (update place p x)) s
other-Files p x place none s c n f = f
other-Files p x place (some q) s c n f =
    let apart : (q == p) ≡ false = elim (Bool-cases (q == p)) [
      | inl e ↦ absurd (n (ap some ((==_iff q p).0 e)))
      | inr e ↦ e
    ] in
    subst (λ y. Files c y s) (ground (arith, apart)) f

acts-Inv :
    (answers : ℕ → Answers) (m : Machine) (p : ℕ) (x : Place) (s : Slot)
    → run (answers p) (m.place p) m.slot ≡ (x, s)
    → (not (holds (m.place p)) && holds x) ≡ false
    → Inv m
    → Inv (record m { slot = s; place = update m.place p x; lock = freed p x m.lock })
acts-Inv answers m p x s e g v = record {
  exclusive = λ q h. ground (arith, v.exclusive q, v.exclusive p, g, h);
  held = λ q h. ground (arith, v.held q, v.held p, g, h);
  files = elim (Bool-cases (holds (m.place p))) [
    | inl h ↦
        let lock : m.lock ≡ some p = v.exclusive p h in
        let f : Files m.crashed (m.place p) m.slot =
          subst (λ l. Files m.crashed (holder l m.place) m.slot) lock v.files in
        let g : Files m.crashed x s =
          subst (λ r. Files m.crashed r.0 r.1) e
            (run-Files (answers p) (m.place p) m.slot m.crashed h f) in
        subst (λ l. Files m.crashed (holder (freed p x l) (update m.place p x)) s) (sym lock)
          (moved-Files p x m.place s m.crashed g)
    | inr h ↦
        let same : m.slot ≡ s =
          sym (run_unlocked (answers p) (m.place p) m.slot h).0 ∙ ap (λ r. r.1) e in
        subst (λ t. Files m.crashed (holder (freed p x m.lock) (update m.place p x)) t) same
          (other-Files p x m.place m.lock m.slot m.crashed (λ l. cc (sym h ∙ v.held p l)) v.files)
  ];
}

enters-Inv :
    (answers : ℕ → Answers) (m : Machine) (p : ℕ) (x : Place) (s : Slot)
    → run (answers p) (m.place p) m.slot ≡ (x, s)
    → holds (m.place p) ≡ false
    → holds x ≡ true
    → m.lock ≡ none
    → Inv m
    → Inv (record m { slot = s; place = update m.place p x; lock = some p })
enters-Inv answers m p x s e h k n v =
    let r = run_unlocked (answers p) (m.place p) m.slot h in
    let same : m.slot ≡ s = sym r.0 ∙ ap (λ r. r.1) e in
    let free : Files m.crashed died m.slot =
      subst (λ l. Files m.crashed (holder l m.place) m.slot) n v.files in
    record {
      exclusive = λ q u. ground (arith, v.exclusive q, n, u);
      held = λ q u. ground (arith, u, k);
      files =
          subst (λ y. Files m.crashed y s) (sym entered)
            (record {
              f_fitting =
                  subst (λ t. agrees t s ≡ true) (ap (λ r. r.0) e)
                    (subst (λ t. agrees (run (answers p) (m.place p) m.slot).0 t ≡ true) same r.2);
              f_marked = subst (λ t. (not (is_shipped t.lib) || t.mark) ≡ true) same free.f_marked;
              f_calm = ground (
                arith,
                subst (λ t. (m.crashed || halfway died || is_marked t.lib t.mark) ≡ true) same
                    free.f_calm,
                sym (ap (λ r. halfway r.0) e) ∙ r.1,
              );
            });
    }
  where
    entered : update m.place p x p ≡ x
    entered = ground arith

dies-Inv :
    (m : Machine) (p : ℕ)
    → Inv m
    → Inv (record m { place = update m.place p died; lock = freed p died m.lock; crashed = true })
dies-Inv m p v = record {
  exclusive = λ q h. ground (arith, v.exclusive q, h);
  held = λ q h. ground (arith, v.held q, h);
  files = by_lock m.lock v.files v.held;
}
  where
    by_lock :
        (l : Option ℕ)
        → Files m.crashed (holder l m.place) m.slot
        → ((q : ℕ) → l ≡ some q → holds (m.place q) ≡ true)
        → Files true (holder (freed p died l) (update m.place p died)) m.slot
    by_lock none f h = record { f_fitting = refl; f_marked = f.f_marked; f_calm = refl }
    by_lock (some q) f h = elim (Bool-cases (q == p)) [
      | inl e ↦ record { f_fitting = ground (arith, e); f_marked = f.f_marked; f_calm = refl }
      | inr e ↦ record {
        f_fitting = ground (arith, e, f.f_fitting);
        f_marked = f.f_marked;
        f_calm = refl;
      }
    ]

Step-Inv : {answers : ℕ → Answers} {m n : Machine} → Step answers m n → Inv m → Inv n
Step-Inv {answers} {m = m} (acts p x s e g) v = acts-Inv answers m p x s e g v
Step-Inv {answers} {m = m} (enters p x s e h k n) v = enters-Inv answers m p x s e h k n v
Step-Inv {m = m} (dies p) v = dies-Inv m p v

new_machine-Inv : Inv new_machine
new_machine-Inv = record {
  exclusive = λ p h. cc h;
  held = λ p h. cc h;
  files = record { f_fitting = refl; f_marked = refl; f_calm = refl };
}

Reach-Inv : {answers : ℕ → Answers} {m n : Machine} → Inv m → Reach answers m n → Inv n
Reach-Inv v here = v
Reach-Inv v (next r s) = Step-Inv s (Reach-Inv v r)

-- In every interleaving of the file operations of any number of processes on an empty cache, also when
-- some die between two operations, and whatever compilers, copies and loads answer in each: a shipped
-- library in the cache has its mark beside it, so that a process that cannot load it replaces it, and at
-- most one process is in the lock.
pub shipped_keeps_mark :
    {answers : ℕ → Answers} {m : Machine}
    → Reach answers new_machine m
    → ((not (is_shipped m.slot.lib) || m.slot.mark) ≡ true)
      × ((p q : ℕ) → (holds (m.place p) && holds (m.place q) && not (p == q)) ≡ false)
shipped_keeps_mark {m = m} r =
    let v = Reach-Inv new_machine-Inv r in
    (v.files.f_marked, λ p q. ground (arith, v.exclusive p, v.exclusive q))

-- While no process has died: once nobody is in the lock, a compiled library has no mark beside it, so that
-- no process deletes it.
pub compiled_has_no_mark :
    {answers : ℕ → Answers} {m : Machine}
    → Reach answers new_machine m
    → m.crashed ≡ false
    → m.lock ≡ none
    → is_marked m.slot.lib m.slot.mark ≡ true
compiled_has_no_mark r c l =
    let v = Reach-Inv new_machine-Inv r in ground (arith, v.files.f_calm, c, l)
