-- ===== src/NativeBuild/Prebuilt.antt =====
-- torch_mojo_backend/native/__init__.py: the shipped libraries and the cache. `Slot` is what the cache
-- has under one library's name: the library, and the mark beside a copy of a shipped one.
use torch_mojo_backend.Prelude.{
  ℕ, Bool, true, false, not, ◌&&◌, ◌||◌, Option, none, some, List, [], ◌∷◌, ◌++◌, ◌==◌,
  if◌then◌else◌, all, is_some, ◌≡◌, refl, ap, inl, inr, Bool-cases, arith,
}

-- A manifest entry: its fields, and its file. A key or a value is a number.
pub record Entry : Type 0 where
  pub fields : List (ℕ × ℕ)
  pub file : ℕ

unfoldable pub field_of : ℕ → List (ℕ × ℕ) → Option ℕ
field_of k [] = none
field_of k ((k', v) ∷ fields) = let rest = field_of k fields in if k == k' then some v else rest

abbrev pub is_value : ℕ → Option ℕ → Bool
is_value v none = false
is_value v (some w) = w == v

-- `all(entry.get(k) == v for k, v in spec.items())`
unfoldable pub agrees : List (ℕ × ℕ) → Entry → Bool
unfolding all field_of
agrees spec entry = all (λ s. is_value s.1 (field_of s.0 entry.fields)) spec

unfoldable pub first_agreeing : (ℕ → Bool) → List (ℕ × ℕ) → List Entry → Option ℕ
unfolding agrees
first_agreeing exists spec [] = none
first_agreeing exists spec (entry ∷ entries) =
    let rest = first_agreeing exists spec entries in
    if agrees spec entry && exists entry.file then some entry.file else rest

-- `_prebuilt_match`: `ignored` is TORCH_MOJO_BACKEND_PREBUILT=0; no manifest is one that cannot be read.
unfoldable pub prebuilt_match :
    Bool → Bool → Bool → Option (List Entry) → (ℕ → Bool) → List (ℕ × ℕ) → Option ℕ
unfolding first_agreeing
prebuilt_match ignored is_shim release_torch none exists spec = none
prebuilt_match ignored is_shim release_torch (some entries) exists spec =
    if ignored || (is_shim && not release_torch) then none else first_agreeing exists spec entries

-- Whether an entry has the value of every key of the specification, and which file it names.
pub data Ships (exists : ℕ → Bool) (spec : List (ℕ × ℕ)) (entries : List Entry) (file : ℕ)
    : Type 0 where
  ships :
      (before : List Entry) (entry : Entry) (after : List Entry)
      → entries ≡ before ++ (entry ∷ after)
      → agrees spec entry ≡ true
      → exists file ≡ true
      → entry.file ≡ file
      → all (λ e. not (agrees spec e && exists e.file)) before ≡ true
      → Ships exists spec entries file

first_agreeing-Ships :
    (exists : ℕ → Bool) (spec : List (ℕ × ℕ)) (entries : List Entry) (file : ℕ)
    → first_agreeing exists spec entries ≡ some file
    → Ships exists spec entries file
unfolding first_agreeing all
first_agreeing-Ships exists spec [] file h = cc h
first_agreeing-Ships exists spec (e ∷ entries) file h =
    elim (Bool-cases (agrees spec e && exists e.file)) [
      | inl t ↦
          let q : e.file ≡ file = ground (arith, t, h) in
          ships [] e entries refl (ground (arith, t)) (ground (arith, t, ap exists q)) q refl
      | inr t ↦ behind t (first_agreeing-Ships exists spec entries file (ground (arith, t, h)))
    ]
  where
    behind :
        (agrees spec e && exists e.file) ≡ false
        → Ships exists spec entries file
        → Ships exists spec (e ∷ entries) file
    behind t (ships before entry after s a x q b) =
        ships (e ∷ before) entry after (ap (e ∷◌) s) a x q (ground (arith, t, b))

-- A shipped library that is used is the file of the first manifest entry that has the value of every
-- key of the specification and whose file is there; it is used only where shipped libraries are not
-- ignored, and a shim's only for a release of torch.
pub prebuilt_match-Ships :
    (ignored is_shim release_torch : Bool) (entries : List Entry) (exists : ℕ → Bool)
    (spec : List (ℕ × ℕ)) (file : ℕ)
    → prebuilt_match ignored is_shim release_torch (some entries) exists spec ≡ some file
    → Ships exists spec entries file × (ignored ≡ false) × ((is_shim && not release_torch) ≡ false)
unfolding prebuilt_match
prebuilt_match-Ships true is_shim release_torch entries exists spec file h = cc h
prebuilt_match-Ships false true false entries exists spec file h = cc h
prebuilt_match-Ships false true true entries exists spec file h =
    (first_agreeing-Ships exists spec entries file h, refl, refl)
prebuilt_match-Ships false false r entries exists spec file h =
    (first_agreeing-Ships exists spec entries file h, refl, refl)

pub data Kind : Type 0 where
  shipped compiled : Kind

pub record Slot : Type 0 where
  pub lib : Option Kind
  pub mark : Bool

-- `matches`: `_prebuilt_match` finds one; `copies`: it can be copied; `compiles`: the compiler
-- succeeds; `loads`: whether a library of this kind can be loaded here.
pub record Answers : Type 0 where
  pub matches : Bool
  pub copies : Bool
  pub compiles : Bool
  pub loads : Kind → Bool

-- `_atomic_install`
abbrev pub atomic_install : Kind → Slot → Slot
atomic_install k s = elim s.lib [
  | none ↦ record { lib = some k; mark = s.mark }
  | some old ↦ record { lib = some old; mark = s.mark }
]

-- `_install_prebuilt`: whether it installed
unfoldable pub install_prebuilt : Answers → Slot → Bool × Slot
install_prebuilt a s =
    if a.copies then (true, atomic_install shipped (record s { mark = true })) else (false, s)

-- `_build_backend_locked`, `_build_shim_locked`: whether they return
unfoldable pub build_locked : Answers → Slot → Bool × Slot
build_locked a s = if a.compiles then (true, atomic_install compiled s) else (false, s)

-- `build_backend`, `build_shim`: whether they return, and the cache
unfoldable pub build : Answers → Bool → Slot → Bool × Slot
unfolding install_prebuilt build_locked
build a prebuilt s =
    if is_some s.lib
    then (true, s)
    else if prebuilt && (a.matches && (install_prebuilt a s).0)
    then install_prebuilt a s
    else build_locked a s

abbrev pub loads_lib : Answers → Option Kind → Bool
loads_lib a none = false
loads_lib a (some k) = a.loads k

-- `_load`: what was loaded, if it does not raise
unfoldable pub load : Answers → Slot → Option Kind
load a s = if loads_lib a s.lib then s.lib else none

-- The section under the lock in `_load_or_compile`: whether a shipped copy was dropped
unfoldable pub drop_shipped : Slot → Bool × Slot
drop_shipped s = if s.mark then (true, record { lib = none; mark = false }) else (false, s)

abbrev pub rebuild : Answers → (Slot → Slot) → Bool × Slot → Option Kind × Slot
rebuild a others (false, s) = (load a (others s), others s)
rebuild a others (true, s) =
    let (ok, s') = build a false (others s) in (if ok then load a s' else none, s')

-- `_load_or_compile`, where `before` and `after` are what other processes do to the cache before and
-- after that section
unfoldable pub load_or_compile : Answers → (Slot → Slot) → (Slot → Slot) → Slot → Option Kind × Slot
unfolding load drop_shipped build
load_or_compile a before after s =
    if is_some (load a s) then (load a s, s) else rebuild a after (drop_shipped (before s))

-- The mark stands beside every shipped copy, and beside no compiled library.
abbrev pub is_marked : Option Kind → Bool → Bool
is_marked none mark = not mark
is_marked (some shipped) mark = mark
is_marked (some compiled) mark = not mark

-- The mark stands beside every shipped copy; a mark may also be left over beside no library or beside a
-- compiled one, by a process that died.
abbrev pub is_safely_marked : Option Kind → Bool → Bool
is_safely_marked none mark = true
is_safely_marked (some shipped) mark = mark
is_safely_marked (some compiled) mark = true

abbrev pub IsMarked : Slot → Type 0
IsMarked s = is_safely_marked s.lib s.mark ≡ true

build-IsMarked :
    (a : Answers) (prebuilt : Bool) (s : Slot) → IsMarked s → IsMarked (build a prebuilt s).1
unfolding build install_prebuilt build_locked
build-IsMarked a prebuilt s h = by_lib s.lib s.mark h
  where
    by_lib :
        (l : Option Kind) (m : Bool)
        → is_safely_marked l m ≡ true
        → IsMarked (build a prebuilt (record { lib = l; mark = m })).1
    by_lib none m h = ground arith
    by_lib (some shipped) m h = h
    by_lib (some compiled) m h = h

-- With no other process at work, from a cache whose shipped copy, if it has one, is marked (also where a
-- mark is left over without one): where the compiler succeeds and what it builds can be loaded, building
-- a library and loading it gives a library that can be loaded here, whatever the wheel ships, and a
-- shipped copy is still marked.
pub load_or_compile-build :
    (a : Answers) (s : Slot)
    → IsMarked s
    → a.compiles ≡ true
    → a.loads compiled ≡ true
    → (is_some (load_or_compile a (λ x. x) (λ x. x) (build a true s).1).0 ≡ true)
      × (loads_lib a (load_or_compile a (λ x. x) (λ x. x) (build a true s).1).0 ≡ true)
      × IsMarked (load_or_compile a (λ x. x) (λ x. x) (build a true s).1).1
unfolding load_or_compile load drop_shipped build install_prebuilt build_locked
load_or_compile-build a s h c l =
    by_slot (build a true s).1 (build-IsMarked a true s h) (built s.lib s.mark)
  where
    built :
        (l : Option Kind) (m : Bool)
        → is_some (build a true (record { lib = l; mark = m })).1.lib ≡ true
    built none m = ground (arith, c)
    built (some k) m = refl

    by_slot :
        (s : Slot)
        → IsMarked s
        → is_some s.lib ≡ true
        → (is_some (load_or_compile a (λ x. x) (λ x. x) s).0 ≡ true)
          × (loads_lib a (load_or_compile a (λ x. x) (λ x. x) s).0 ≡ true)
          × IsMarked (load_or_compile a (λ x. x) (λ x. x) s).1
    by_slot s m b = by_kind s.lib s.mark m b
      where
        by_kind :
            (o : Option Kind) (k : Bool)
            → is_safely_marked o k ≡ true
            → is_some o ≡ true
            → (is_some (load_or_compile a (λ x. x) (λ x. x) (record { lib = o; mark = k })).0
                ≡ true)
              × (loads_lib a (load_or_compile a (λ x. x) (λ x. x) (record { lib = o; mark = k })).0
                  ≡ true)
              × IsMarked (load_or_compile a (λ x. x) (λ x. x) (record { lib = o; mark = k })).1
        by_kind none k m b = cc b
        by_kind (some compiled) k m b = (ground (arith, l), ground (arith, l), ground (arith, l, m))
        by_kind (some shipped) true m b = elim (Bool-cases (a.loads shipped)) [
          | inl q ↦ (ground (arith, q), ground (arith, q), ground (arith, q))
          | inr q ↦ (ground (arith, q, c, l), ground (arith, q, c, l), ground (arith, q, c, l))
        ]
        by_kind (some shipped) false m b = cc m

-- A library that another process compiled in place of the shipped one, between this process's failed
-- load and its lock, without a mark, is not deleted: it is loaded, where it can be, when no process
-- changes the cache behind that.
pub load_or_compile-replaced :
    (a : Answers) (before : Slot → Slot) (s : Slot)
    → load a s ≡ none
    → (before s).mark ≡ false
    → (before s).lib ≡ some compiled
    → ((load_or_compile a before (λ x. x) s).1.lib ≡ some compiled)
      × ((load_or_compile a before (λ x. x) s).0
          ≡ (if a.loads compiled then some compiled else none))
unfolding load_or_compile load drop_shipped
load_or_compile-replaced a before s n m c = (ground (arith, n, m, c), ground (arith, n, m, c))

-- Where the shipped library cannot be loaded, a process that dropped its copy finds another one when
-- a process that starts meanwhile installs it again, and raises, also where the compiler succeeds and
-- its library could be loaded.
pub load_or_compile-reinstalled :
    (a : Answers)
    → a.matches ≡ true
    → a.copies ≡ true
    → a.loads shipped ≡ false
    → load_or_compile a
        (λ x. x)
        (λ s. (build a true s).1)
        (record { lib = some shipped; mark = true })
      ≡ (none, record { lib = some shipped; mark = true })
unfolding load_or_compile load drop_shipped build install_prebuilt
load_or_compile-reinstalled a m c l = ground (arith, m, c, l)
