-- ===== src/Ptxas.antt =====
-- torch_mojo_backend/_ptxas.py: which PTX assembler a process uses. Strings and paths, which are
-- only compared, are numbers: 0 is an empty or absent variable, 1 is BUILTIN_MARK. What the machine
-- answers (the file system, `--version`, `--help`, the driver) is the record `Machine`.
pub mod Choice
pub mod Inheritance
pub mod Selection
use torch_mojo_backend.Prelude.{
  ℕ, ◌+◌, ◌*◌, Bool, true, false, not, ◌&&◌, ◌||◌, Option, none, some, List, [], ◌∷◌, ◌++◌, map,
  ◌==◌, leb, ltb, if◌then◌else◌, any, all, is_empty, is_some, keep,
}
use torch_mojo_backend.Prelude.Sets.{elem, diff}

pub record Version : Type 0 where
  pub major : ℕ
  pub minor : ℕ
  pub patch : ℕ

-- Where an assembler was found: the user's variable, MAX's own compiler, or elsewhere.
pub data Source : Type 0 where
  env_var builtin_source elsewhere : Source

-- `Ptxas`
pub record Assembler : Type 0 where
  pub path : ℕ
  pub source : Source
  pub version : Option Version

abbrev pub is_env_var : Source → Bool
is_env_var env_var = true
is_env_var _ = false

-- `Ptxas.is_builtin`
abbrev pub is_builtin : Source → Bool
is_builtin builtin_source = true
is_builtin _ = false

abbrev pub builtin_mark : ℕ
builtin_mark = 1

-- `Ptxas.mark`
abbrev pub mark : Assembler → ℕ
mark p = if is_builtin p.source then builtin_mark else p.path

-- What the machine answers. `help` has the targets that `--help` lists, `arch_table` the rows of
-- ARCH_MIN_CUDA with the last major version of each, `has_variant` is ARCH_A_VARIANT, `devices` the
-- architectures of the visible GPUs. `check_off` is TORCH_MOJO_BACKEND_PTXAS_CHECK=0.
pub record Machine : Type 0 where
  pub resolve : ℕ → Option ℕ
  pub is_file : ℕ → Bool
  pub version_at : ℕ → Option Version
  pub help : ℕ → List ℕ
  pub discovered : List ℕ
  pub builtin : Option (ℕ × Option Version)
  pub wheel : Option ℕ
  pub driver : Option (ℕ × ℕ)
  pub devices : List ℕ
  pub arch_table : List (ℕ × ((ℕ × ℕ) × ℕ))
  pub has_variant : ℕ → Bool
  pub check_off : Bool

-- The two variables: MODULAR_NVPTX_COMPILER_PATH, and the record of an automatic choice.
pub record Variables : Type 0 where
  pub compiler : ℕ
  pub auto : ℕ

-- `target_name`: the number of `sm_90` and that of `sm_90a` differ.
abbrev pub target_name : Machine → ℕ → ℕ
target_name m arch = 2 * arch + (if m.has_variant arch then 1 else 0)

abbrev pub is_in_release : Version → (ℕ × ℕ) × ℕ → Bool
is_in_release v (first, last) =
    (ltb first.0 v.major || (first.0 == v.major && leb first.1 v.minor)) && leb v.major last

-- `table_arches`
abbrev pub table_arches : Machine → Version → List ℕ
table_arches m v = map (λ r. target_name m r.0) (keep (λ r. is_in_release v r.1) m.arch_table)

-- `adopt`, and `adopt_builtin`
unfoldable pub adopt : ℕ → Variables → Variables
adopt path e = record { compiler = path; auto = path }

unfoldable pub adopt_builtin : Variables → Variables
adopt_builtin e = record { compiler = 0; auto = builtin_mark }

-- `_adopt`
unfoldable pub adopt_choice : Assembler → Variables → Variables
unfolding adopt adopt_builtin
adopt_choice p e = if is_builtin p.source then adopt_builtin e else adopt p.path e

-- `explicit_choice`
unfoldable pub explicit_choice : Variables → Option ℕ
explicit_choice e = if e.compiler == 0 || e.compiler == e.auto then none else some e.compiler

abbrev pub named : Source → List ℕ → List (ℕ × Source)
named source paths = map (λ p. (p, source)) paths

abbrev pub user_paths : Option ℕ → List ℕ
user_paths none = []
user_paths (some path) = path ∷ []

-- Every path in discovery order.
abbrev pub found_paths : Machine → Option ℕ → List (ℕ × Source)
found_paths m explicit = named env_var (user_paths explicit) ++ named elsewhere m.discovered

-- The loop's tests on a path, whose resolved form is known.
abbrev pub skips : Machine → List ℕ → ℕ → ℕ × Source → Bool
skips m seen resolved (path, source) =
    elem resolved seen || (not (m.is_file path) && not (is_env_var source))

-- `for path, source in found`, with the paths seen so far
unfoldable pub distinct_paths : Machine → List ℕ → List (ℕ × Source) → List (ℕ × Assembler)
distinct_paths m seen [] = []
distinct_paths m seen ((path, source) ∷ found) = elim (m.resolve path) [
  | none ↦ distinct_paths m seen found
  | some resolved ↦ elim (skips m seen resolved (path, source)) [
    | true ↦ distinct_paths m seen found
    | false ↦
        (resolved, record { path = path; source = source; version = m.version_at path })
        ∷ distinct_paths m (resolved ∷ seen) found
  ]
]

abbrev pub builtin_of : Option (ℕ × Option Version) → List Assembler
builtin_of none = []
builtin_of (some (path, version)) =
    record { path = path; source = builtin_source; version = version } ∷ []

-- `candidates`
unfoldable pub candidates : Machine → Variables → List Assembler
candidates m e =
    map (λ p. p.1) (distinct_paths m [] (found_paths m (explicit_choice e))) ++ builtin_of m.builtin

-- Why an assembler cannot be used.
pub data Reason : Type 0 where
  no_such_file version_failed too_new too_old : Reason

abbrev pub exceeds : ℕ → Option (ℕ × ℕ) → Bool
exceeds major none = false
exceeds major (some driver) = ltb driver.0 major

-- `supported`
abbrev pub supported : Machine → Assembler → Version → List ℕ
supported m p v = if is_builtin p.source then table_arches m v else m.help p.path

-- An empty list of targets means that `--help` could not be read.
abbrev pub lacks : Machine → List ℕ → List ℕ → Bool
lacks m arches targets =
    not (is_empty targets) && not (is_empty (diff (map (target_name m) arches) targets))

abbrev pub rejects : Machine → Option (ℕ × ℕ) → List ℕ → Assembler → Option Version → Option Reason
rejects m driver arches p none =
    if is_builtin p.source
    then none
    else if m.is_file p.path
    then some version_failed
    else some no_such_file
rejects m driver arches p (some v) =
    if exceeds v.major driver
    then some too_new
    else if lacks m arches (supported m p v)
    then some too_old
    else none

-- `rejection`
unfoldable pub rejection : Machine → Option (ℕ × ℕ) → List ℕ → Assembler → Option Reason
rejection m driver arches p = rejects m driver arches p p.version

-- Whether the first release is higher; an unknown one is the lowest.
abbrev pub newer : Option Version → Option Version → Bool
newer none b = false
newer (some a) none = true
newer (some a) (some b) =
    ltb b.major a.major
    || (a.major == b.major && (ltb b.minor a.minor || (a.minor == b.minor && ltb b.patch a.patch)))

-- `max(usable, key=…)`: the first of the highest
unfoldable pub best_of : Assembler → List Assembler → Assembler
best_of p [] = p
best_of p (q ∷ qs) = best_of (if newer q.version p.version then q else p) qs

abbrev pub highest : List Assembler → Option Assembler
highest [] = none
highest (p ∷ ps) = some (best_of p ps)

abbrev pub is_usable : Machine → Option (ℕ × ℕ) → List ℕ → Assembler → Bool
is_usable m driver arches p = not (is_some (rejection m driver arches p))

-- `choose`, without the rejected ones
unfoldable pub choose : Machine → Option (ℕ × ℕ) → List ℕ → List Assembler → Option Assembler
choose m driver arches found = highest (keep (is_usable m driver arches) found)

abbrev pub adopt_wheel : Option ℕ → Variables → Variables
adopt_wheel none e = e
adopt_wheel (some path) e = adopt path e

abbrev pub adopt_chosen : Option Assembler → Variables → Variables
adopt_chosen none e = e
adopt_chosen (some p) e = adopt_choice p e

abbrev pub default_for : Machine → Option (ℕ × ℕ) → Variables → Variables
default_for m none e = adopt_wheel m.wheel e
default_for m (some driver) e = adopt_chosen (choose m (some driver) [] (candidates m e)) e

-- `apply_default`
unfoldable pub apply_default : Machine → Variables → Variables
apply_default m e = if is_some (explicit_choice e) then e else default_for m m.driver e

pub data Outcome : Type 0 where
  passed warned refused : Outcome

-- `next((p for p in found if p.source == ENV_VAR), None)`
abbrev pub current : List Assembler → Option Assembler
current [] = none
current (p ∷ ps) = let rest = current ps in if is_env_var p.source then some p else rest

abbrev pub current_fits : Machine → Option (ℕ × ℕ) → List ℕ → Option Assembler → Bool
current_fits m driver arches none = false
current_fits m driver arches (some p) = is_usable m driver arches p

abbrev pub complain : Machine → Outcome
complain m = if m.check_off then warned else refused

abbrev pub check_chosen : Machine → Option Assembler → Variables → Outcome × Variables
check_chosen m none e = (complain m, e)
check_chosen m (some p) e = (passed, adopt_choice p e)

abbrev pub check_on : Machine → Option (ℕ × ℕ) → List ℕ → Variables → Outcome × Variables
check_on m driver arches e =
    if is_some (explicit_choice e)
    then (if current_fits m driver arches (current (candidates m e)) then passed else complain m, e)
    else check_chosen m (choose m driver arches (candidates m e)) e

-- `_check_now`
unfoldable pub check_now : Machine → Variables → Outcome × Variables
check_now m e =
    if not (is_some m.driver) || is_empty m.devices
    then (passed, e)
    else check_on m m.driver m.devices e

-- `check`: whether a check got through before, and after
unfoldable pub check : Machine → Bool → Bool → Variables → Outcome × (Bool × Variables)
check m force checked e =
    let (outcome, e') = check_now m e in
    if checked && not force
    then (passed, (checked, e))
    else (outcome, (elim outcome [ refused ↦ checked | _ ↦ true ], e'))

-- `apply_triton_default`, on TRITON_PTXAS_PATH and torch's own choice for it
unfoldable pub apply_triton_default : Variables → Option ℕ → ℕ → ℕ
apply_triton_default e torch_wheel triton =
    if e.compiler == 0
    then triton
    else if not (triton == 0)
        && not (elim torch_wheel [ none ↦ false | some path ↦ triton == path ])
    then triton
    else e.compiler
