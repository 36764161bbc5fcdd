-- ===== src/Examples/Builds.antt =====
-- The assembler's choice, the native builds and the exported tensors at concrete inputs.
use torch_mojo_backend.Prelude.{
  ℕ, ◌≤◌, ◌≡◌, ◌↔◌, ◌⊎◌, refl, true, false, not, Option, none, some, List, [], ◌∷◌, arith, length,
  get_elem?, leb, if◌then◌else◌, is_some, all, ◌==◌,
}
use torch_mojo_backend.Prelude.Sets.{elem, diff}
use torch_mojo_backend.Ptxas.{
  Machine, Assembler, Version, Variables, elsewhere, choose, rejection, best_of, is_usable,
  candidates, explicit_choice, check_now, adopt_choice, passed, warned, refused,
}
use torch_mojo_backend.Ptxas.Choice.{FirstHighest, choose-FirstHighest}
use torch_mojo_backend.Ptxas.Inheritance.{
  default_act, check_act, spawn_act, perform_all, Keeps, explicit_choice-perform_all,
}
use torch_mojo_backend.Ptxas.Selection.{check_now-automatic}
use torch_mojo_backend.NativeBuild.{Tree, ours, import_line, other_line, mojo_import_closure}
use torch_mojo_backend.NativeBuild.Closure.{Reached, mojo_import_closure-Reached}
use torch_mojo_backend.NativeBuild.Prebuilt.{
  Answers, Slot, shipped, compiled, build, load_or_compile, loads_lib, IsMarked,
  load_or_compile-build,
}
use torch_mojo_backend.Dlpack
use torch_mojo_backend.Dlpack.{make_act, destroy_act, delete_act, adopt_act}
use torch_mojo_backend.Dlpack.Lifetime.{sound_at, no_exports, perform_all-is_sound}

abbrev release_13 : ℕ → Option Version
release_13 minor = some (record { major = 13; minor = minor; patch = 0 })

-- A driver for CUDA 13 and a GPU of architecture 90.
abbrev hopper : Machine
hopper = record {
  resolve = λ p. some p;
  is_file = λ p. true;
  version_at = λ p. release_13 p;
  help = λ p. 181 ∷ [];
  discovered = 5 ∷ 7 ∷ [];
  builtin = none;
  wheel = some 5;
  driver = some (13, 0);
  devices = 90 ∷ [];
  arch_table = [];
  has_variant = λ a. a == 90;
  check_off = false;
}

abbrev at_path : ℕ → Assembler
at_path p = record { path = p; source = elsewhere; version = release_13 p }

choose-FirstHighest_example :
    FirstHighest
      (is_usable hopper (some (13, 0)) (90 ∷ []))
      (at_path 5 ∷ at_path 7 ∷ [])
      (at_path 7)
unfolding choose rejection best_of elem diff
choose-FirstHighest_example =
    choose-FirstHighest hopper (some (13, 0)) (90 ∷ []) (at_path 5 ∷ at_path 7 ∷ []) (at_path 7)
      refl

explicit_choice-perform_all_example :
    Keeps
      (record { compiler = 9; auto = 0 })
      (perform_all
        (default_act hopper ∷ check_act hopper false ∷ spawn_act ∷ [])
        (false, record { compiler = 9; auto = 0 })).1
explicit_choice-perform_all_example =
    explicit_choice-perform_all (default_act hopper ∷ check_act hopper false ∷ spawn_act ∷ [])
      (false, record { compiler = 9; auto = 0 })

abbrev unset : Variables
unset = record { compiler = 0; auto = 0 }

check_now-automatic_example :
    ((p : Assembler) × FirstHighest
        (is_usable hopper hopper.driver hopper.devices)
        (candidates hopper unset)
        p
      × (check_now hopper unset ≡ (passed, adopt_choice p unset)))
    ⊎ ((all (λ p. not (is_usable hopper hopper.driver hopper.devices p)) (candidates hopper unset)
          ≡ true)
        × (check_now hopper unset ≡ (if hopper.check_off then warned else refused, unset)))
unfolding explicit_choice
check_now-automatic_example = check_now-automatic hopper unset refl refl refl

-- Two files that import each other, and a third one.
abbrev cycle : Tree
cycle = record {
  exists = λ f. leb f 2;
  is_file = λ f. leb f 2;
  lines = λ f.
      if f == 0
      then other_line ∷ import_line (ours 1) ∷ []
      else if f == 1
      then import_line (ours 0) ∷ []
      else [];
  directory = λ f. 0;
  relative_base = λ d n. n;
  our_base = λ n. n;
  module_of = λ b. b;
  package_of = λ b. b;
}

cycle-known : (f : ℕ) → leb f 2 ≡ true → elem f (0 ∷ 1 ∷ 2 ∷ []) ≡ true
unfolding elem
cycle-known f h = ground (arith, h)

cycle-short : (f : ℕ) → length (cycle.lines f) ≤ 2
cycle-short f = ground arith

mojo_import_closure-Reached_example :
    (closure : List ℕ) × (mojo_import_closure cycle 10 0 ≡ some closure)
    × ((f : ℕ) → (elem f closure ≡ true) ↔ Reached cycle 0 f)
mojo_import_closure-Reached_example =
    mojo_import_closure-Reached cycle 0 10 2 (0 ∷ 1 ∷ 2 ∷ []) cycle-known cycle-short (omega arith)

-- The shipped library does not load here, the compiled one does.
abbrev other_abi : Answers
other_abi = record {
  matches = true;
  copies = true;
  compiles = true;
  loads = λ k. elim k [ shipped ↦ false | compiled ↦ true ];
}

-- A process died behind the mark.
abbrev empty_cache : Slot
empty_cache = record { lib = none; mark = true }

load_or_compile-build_example :
    (is_some (load_or_compile other_abi (λ x. x) (λ x. x) (build other_abi true empty_cache).1).0
      ≡ true)
    × (loads_lib other_abi
          (load_or_compile other_abi (λ x. x) (λ x. x) (build other_abi true empty_cache).1).0
        ≡ true)
    × IsMarked (load_or_compile other_abi (λ x. x) (λ x. x) (build other_abi true empty_cache).1).1
load_or_compile-build_example = load_or_compile-build other_abi empty_cache refl refl refl

-- An export that is adopted, whose capsule ends and whose deleter is called; one whose capsule cannot be
-- made; one whose capsule ends unadopted.
abbrev three_exports : List Dlpack.Act
three_exports =
    make_act true true
    ∷ adopt_act 0
    ∷ destroy_act 0
    ∷ delete_act 0
    ∷ make_act true false
    ∷ make_act true true
    ∷ destroy_act 2
    ∷ []

three_exports-follow : Dlpack.follows_protocol three_exports no_exports ≡ true
unfolding Dlpack.follows_protocol Dlpack.perform Dlpack.release_export elem diff
three_exports-follow = refl

perform_all-is_sound_example :
    sound_at
      (get_elem? (Dlpack.perform_all three_exports no_exports).exports 0)
      (elem 0 (Dlpack.perform_all three_exports no_exports).live)
    ≡ true
perform_all-is_sound_example = perform_all-is_sound three_exports three_exports-follow 0
