-- ===== src/NativeBuild/Processes/Ends.antt =====
-- No process goes on for ever.
use torch_mojo_backend.Prelude.{
  ℕ, zero, suc, ◌≤◌, ◌⊎◌, ◌≡◌, refl, Bool, true, false, ◌&&◌, Option, none, some, if◌then◌else◌,
  is_some, arith, inl, inr,
}
use torch_mojo_backend.NativeBuild.Prebuilt.{Kind, compiled, Slot, Answers, atomic_install}
use torch_mojo_backend.NativeBuild.Processes.{
  Place, looking, waiting, building, compiling, ready, marking, refused, dropping, unlinking,
  reloading, loaded, raised, died, load_at, run,
}

-- A bound on the steps a process has left
abbrev left : Place → ℕ
left (looking true) = 13
left (waiting true) = 12
left (building true) = 11
left (compiling true) = 10
left marking = 10
left (ready true) = 9
left refused = 8
left dropping = 7
left unlinking = 6
left (looking false) = 5
left (waiting false) = 4
left (building false) = 3
left (compiling false) = 2
left (ready false) = 1
left reloading = 1
left (loaded k) = 0
left raised = 0
left died = 0

-- What a process has loaded, it can load.
abbrev Sound : Answers → Place → Type 0
Sound a (loaded k) = a.loads k ≡ true
Sound a died = ⊥
Sound a x = Unit

load_at-left :
    (a : Answers) (o : Place) (l : Option Kind) (n : ℕ) → left o ≤ n → left (load_at a o l) ≤ n
load_at-left a o none n h = h
load_at-left a o (some k) n h = ground (arith, h)

run-left : (a : Answers) (x : Place) (s : Slot) (n : ℕ) → left x ≤ suc n → left (run a x s).0 ≤ n
unfolding run
run-left a (looking true) s n h = ground arith
run-left a (looking false) s n h = ground arith
run-left a (waiting true) s n h = ground arith
run-left a (waiting false) s n h = ground arith
run-left a (building true) s n h = ground arith
run-left a (building false) s n h = ground arith
run-left a (compiling true) s n h = ground arith
run-left a (compiling false) s n h = ground arith
run-left a (ready true) s n h = load_at-left a refused s.lib n (omega arith)
run-left a (ready false) s n h = load_at-left a raised s.lib n (omega arith)
run-left a marking s n h = ground arith
run-left a refused s n h = ground arith
run-left a dropping s n h = ground arith
run-left a unlinking s n h = ground arith
run-left a reloading s n h = load_at-left a raised s.lib n (omega arith)
run-left a (loaded k) s n h = omega arith
run-left a raised s n h = omega arith
run-left a died s n h = omega arith

either : Bool → Place × Slot → Place × Slot → Place × Slot
either t u v = if t then u else v

branch-Sound :
    (a : Answers) (t : Bool) (x y : Place) → Sound a x → Sound a y → Sound a (if t then x else y)
branch-Sound a true x y h k = h
branch-Sound a false x y h k = k

if-Sound :
    (a : Answers) (t : Bool) (u v : Place × Slot)
    → Sound a u.0
    → Sound a v.0
    → Sound a (either t u v).0
unfolding either
if-Sound a true u v h k = h
if-Sound a false u v h k = k

load_at-Sound : (a : Answers) (o : Place) (l : Option Kind) → Sound a o → Sound a (load_at a o l)
load_at-Sound a o none h = h
load_at-Sound a o (some k) h = by_answer (a.loads k) refl
  where
    by_answer : (t : Bool) → a.loads k ≡ t → Sound a (if t then loaded k else o)
    by_answer true e = e
    by_answer false e = h

run-Sound : (a : Answers) (x : Place) (s : Slot) → Sound a x → Sound a (run a x s).0
unfolding run either
run-Sound a (looking b) s h = branch-Sound a (is_some s.lib) (ready b) (waiting b) tt tt
run-Sound a (waiting b) s h = tt
run-Sound a (building b) s h =
    if-Sound a (is_some s.lib) (ready b, s)
      (either (b && (a.matches && a.copies)) (marking, record s { mark = true }) (compiling b, s))
      tt
      (if-Sound a (b && (a.matches && a.copies)) (marking, record s { mark = true })
        (compiling b, s) tt tt)
run-Sound a (compiling b) s h =
    if-Sound a a.compiles (ready b, atomic_install compiled s) (raised, s) tt tt
run-Sound a (ready true) s h = load_at-Sound a refused s.lib tt
run-Sound a (ready false) s h = load_at-Sound a raised s.lib tt
run-Sound a marking s h = tt
run-Sound a refused s h = tt
run-Sound a dropping s h =
    if-Sound a s.mark (unlinking, record s { lib = none }) (reloading, s) tt tt
run-Sound a unlinking s h = tt
run-Sound a reloading s h = load_at-Sound a raised s.lib tt
run-Sound a (loaded k) s h = h
run-Sound a raised s h = tt
run-Sound a died s h = h

-- The steps of one process, on the files as the others have left them before each
unfoldable pub own_steps : Answers → (ℕ → Slot) → ℕ → Place → Place
unfolding run
own_steps a files zero x = x
own_steps a files (suc n) x = own_steps a files n (run a x (files n)).0

own_steps-left :
    (a : Answers) (files : ℕ → Slot) (n : ℕ) (x : Place)
    → left x ≤ n
    → left (own_steps a files n x) ≤ 0
unfolding own_steps
own_steps-left a files zero x h = h
own_steps-left a files (suc n) x h =
    own_steps-left a files n (run a x (files n)).0 (run-left a x (files n) n h)

own_steps-Sound :
    (a : Answers) (files : ℕ → Slot) (n : ℕ) (x : Place)
    → Sound a x
    → Sound a (own_steps a files n x)
unfolding own_steps
own_steps-Sound a files zero x h = h
own_steps-Sound a files (suc n) x h =
    own_steps-Sound a files n (run a x (files n)).0 (run-Sound a x (files n) h)

-- A process that does not die has ended at most thirteen steps of its own after the first look, whatever
-- the others do to the files in between: it has loaded a library that loads here, or raised.
pub process_ends :
    (a : Answers) (files : ℕ → Slot)
    → ((k : Kind) × (own_steps a files 13 (looking true) ≡ loaded k) × (a.loads k ≡ true))
      ⊎ (own_steps a files 13 (looking true) ≡ raised)
process_ends a files =
    ended (own_steps a files 13 (looking true))
      (own_steps-left a files 13 (looking true) (omega arith))
      (own_steps-Sound a files 13 (looking true) tt)
  where
    ended :
        (x : Place)
        → left x ≤ 0
        → Sound a x
        → ((k : Kind) × (x ≡ loaded k) × (a.loads k ≡ true)) ⊎ (x ≡ raised)
    ended (looking true) h u = absurd (omega arith)
    ended (looking false) h u = absurd (omega arith)
    ended (waiting true) h u = absurd (omega arith)
    ended (waiting false) h u = absurd (omega arith)
    ended (building true) h u = absurd (omega arith)
    ended (building false) h u = absurd (omega arith)
    ended (compiling true) h u = absurd (omega arith)
    ended (compiling false) h u = absurd (omega arith)
    ended (ready true) h u = absurd (omega arith)
    ended (ready false) h u = absurd (omega arith)
    ended marking h u = absurd (omega arith)
    ended refused h u = absurd (omega arith)
    ended dropping h u = absurd (omega arith)
    ended unlinking h u = absurd (omega arith)
    ended reloading h u = absurd (omega arith)
    ended (loaded k) h u = inl (k, refl, u)
    ended raised h u = inr refl
    ended died h u = absurd u
