-- ===== src/NativeBuild.antt =====
-- torch_mojo_backend/native/__init__.py: the sources that a build of the native library compiles in
-- (`mojo_import_closure`). A resolved path is a number; `Tree` is what the file system answers.
pub mod Closure
pub mod Prebuilt
pub mod Processes
use torch_mojo_backend.Prelude.{
  ℕ, zero, suc, Bool, true, false, not, ◌||◌, Option, none, some, List, [], ◌∷◌, if◌then◌else◌,
}
use torch_mojo_backend.Prelude.Sets.{elem, sort}

-- A dotted name: relative to the importer, of this repository (`tmb`), or the toolchain's.
pub data Dotted : Type 0 where
  relative ours foreign : ℕ → Dotted

-- A line of a source: `_IMPORT_RE` matches it, or not.
pub data Line : Type 0 where
  import_line : Dotted → Line
  other_line : Line

-- `relative_base` has the importer's directory; `module_of` is `<base>.mojo`, `package_of` is
-- `<base>/__init__.mojo`.
pub record Tree : Type 0 where
  pub exists : ℕ → Bool
  pub is_file : ℕ → Bool
  pub lines : ℕ → List Line
  pub directory : ℕ → ℕ
  pub relative_base : ℕ → ℕ → ℕ
  pub our_base : ℕ → ℕ
  pub module_of : ℕ → ℕ
  pub package_of : ℕ → ℕ

abbrev pub file_at : Tree → ℕ → Option ℕ
file_at t base =
    if t.is_file (t.module_of base)
    then some (t.module_of base)
    else if t.is_file (t.package_of base)
    then some (t.package_of base)
    else none

-- `_module_file`
unfoldable pub module_file : Tree → Dotted → ℕ → Option ℕ
module_file t (relative name) importer_dir = file_at t (t.relative_base importer_dir name)
module_file t (ours name) importer_dir = file_at t (t.our_base name)
module_file t (foreign name) importer_dir = none

abbrev pub push_option : Option ℕ → List ℕ → List ℕ
push_option none todo = todo
push_option (some f) todo = f ∷ todo

-- The loop over a file's lines, on the stack `todo` with its top first
unfoldable pub push_imports : Tree → ℕ → List Line → List ℕ → List ℕ
unfolding module_file
push_imports t dir [] todo = todo
push_imports t dir (other_line ∷ lines) todo = push_imports t dir lines todo
push_imports t dir (import_line d ∷ lines) todo =
    push_imports t dir lines (push_option (module_file t d dir) todo)

-- `while todo`, on fuel: none is a run that did not end.
unfoldable pub walk : Tree → ℕ → List ℕ → List ℕ → Option (List ℕ)
unfolding push_imports elem
walk t fuel seen [] = some seen
walk t zero seen (f ∷ todo) = none
walk t (suc fuel) seen (f ∷ todo) = elim (elem f seen || not (t.exists f)) [
  | true ↦ walk t fuel seen todo
  | false ↦ walk t fuel (f ∷ seen) (push_imports t (t.directory f) (t.lines f) todo)
]

abbrev pub sorted : Option (List ℕ) → Option (List ℕ)
sorted none = none
sorted (some seen) = some (sort seen)

-- `mojo_import_closure`
unfoldable pub mojo_import_closure : Tree → ℕ → ℕ → Option (List ℕ)
unfolding walk sort
mojo_import_closure t fuel entry = sorted (walk t fuel [] (entry ∷ []))
