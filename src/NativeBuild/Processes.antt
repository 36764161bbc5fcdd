-- ===== src/NativeBuild/Processes.antt =====
-- torch_mojo_backend/native/__init__.py: any number of processes that build and load one library in a
-- shared cache (`build_shim` or `build_backend`, then `_load_or_compile`), each file operation a step,
-- under `_build_lock` where the file system has locks. A process may die at any point, which frees its
-- lock.
pub mod Marks
pub mod Ends
use torch_mojo_backend.Prelude.{
  update, ℕ, suc, ◌<◌, ◌≡◌, ◌≢◌, refl, sym, ap, subst, ◌∙◌, Bool, true, false, not, ◌&&◌, ◌||◌,
  Option, none, some, ◌==◌, ==_iff, if◌then◌else◌, is_some, arith, inl, inr, Bool-cases,
  Option-cases,
}
use torch_mojo_backend.NativeBuild.Prebuilt.{
  Kind, shipped, compiled, Slot, Answers, atomic_install, loads_lib, is_marked,
}

-- Where a process stands. The flag is `prebuilt`, which is false in the build that follows a shipped
-- library that did not load: at the first look, at the lock, in it, behind the mark, at the compiler, with
-- the path; behind an OSError, at the mark, behind the library's `unlink`, at the second load; at an end.
pub data Place : Type 0 where
  looking waiting building compiling ready : Bool → Place
  marking refused dropping unlinking reloading : Place
  loaded : Kind → Place
  raised died : Place

-- Whether the process is in a `with _build_lock`, and whether it waits to enter one.
abbrev pub holds : Place → Bool
holds (looking b) = false
holds (waiting b) = false
holds (building b) = true
holds (compiling b) = true
holds (ready b) = false
holds marking = true
holds refused = false
holds dropping = true
holds unlinking = true
holds reloading = false
holds (loaded k) = false
holds raised = false
holds died = false

-- A load: where it leads, and where an OSError does
abbrev pub load_at : Answers → Place → Option Kind → Place
load_at a otherwise none = otherwise
load_at a otherwise (some k) = if a.loads k then loaded k else otherwise

-- The next step of a process, on the files as they are then
unfoldable pub run : Answers → Place → Slot → Place × Slot
run a (looking b) s = (if is_some s.lib then ready b else waiting b, s)
run a (waiting b) s = (building b, s)
run a (building b) s =
    if is_some s.lib
    then (ready b, s)
    else if b && (a.matches && a.copies)
    then (marking, record s { mark = true })
    else (compiling b, s)
run a (compiling b) s = if a.compiles then (ready b, atomic_install compiled s) else (raised, s)
run a (ready b) s = (load_at a (if b then refused else raised) s.lib, s)
run a marking s = (ready true, atomic_install shipped s)
run a refused s = (dropping, s)
run a dropping s = if s.mark then (unlinking, record s { lib = none }) else (reloading, s)
run a unlinking s = (looking false, record s { mark = false })
run a reloading s = (load_at a raised s.lib, s)
run a (loaded k) s = (loaded k, s)
run a raised s = (raised, s)
run a died s = (died, s)

-- `crashed`: a process died.
pub record Machine : Type 0 where
  pub slot : Slot
  pub place : ℕ → Place
  pub lock : Option ℕ
  pub crashed : Bool

abbrev pub new_machine : Machine
new_machine = record {
  slot = record { lib = none; mark = false };
  place = λ p. looking true;
  lock = none;
  crashed = false;
}

abbrev pub freed : ℕ → Place → Option ℕ → Option ℕ
freed p x none = none
freed p x (some q) = if q == p then (if holds x then some q else none) else some q

-- A process acts, when it needs no lock that another one has; or it dies.
pub data Step (answers : ℕ → Answers) (m : Machine) : Machine → Type 0 where
  acts :
      (p : ℕ) (x : Place) (s : Slot)
      → run (answers p) (m.place p) m.slot ≡ (x, s)
      → (not (holds (m.place p)) && holds x) ≡ false
      → Step answers m (record m { slot = s; place = update m.place p x; lock = freed p x m.lock })
  enters :
      (p : ℕ) (x : Place) (s : Slot)
      → run (answers p) (m.place p) m.slot ≡ (x, s)
      → holds (m.place p) ≡ false
      → holds x ≡ true
      → m.lock ≡ none
      → Step answers m (record m { slot = s; place = update m.place p x; lock = some p })
  dies :
      (p : ℕ)
      → Step answers m
          (record m { place = update m.place p died; lock = freed p died m.lock; crashed = true })

pub data Reach (answers : ℕ → Answers) (m : Machine) : Machine → Type 0 where
  here : Reach answers m m
  next : {n k : Machine} → Reach answers m n → Step answers n k → Reach answers m k
