-- ===== src/Dlpack.antt =====
-- torch_mojo_backend/mojo_device/dlpack.py: the lifetime of an exported tensor (`make_capsule`,
-- `_release_export`, the capsule's destructor and the deleter). An export is its position in `exports`,
-- which stands for its DLManagedTensor; where the program would read one that is freed, `used_freed` says
-- so.
pub mod Lifetime
use torch_mojo_backend.Prelude.{
  ℕ, zero, suc, ◌+◌, Bool, true, false, not, ◌&&◌, ◌==◌, Option, none, some, List, [], ◌∷◌, ◌++◌,
  if◌then◌else◌, length, get_elem?, set,
}
use torch_mojo_backend.Prelude.Sets.{diff, elem}

-- The name of the capsule: "dltensor" until a consumer adopts the tensor.
pub data CapsuleName : Type 0 where
  dltensor used_dltensor : CapsuleName

-- `manager_ctx`: whether it is set. `increfs` and `decrefs` count the manual references to the
-- `_ExportState`. `held`: the capsule exists; `deleted`: a consumer has called the deleter.
pub record Export : Type 0 where
  pub manager_ctx : Bool
  pub released : Bool
  pub increfs : ℕ
  pub decrefs : ℕ
  pub name : CapsuleName
  pub held : Bool
  pub deleted : Bool
  pub used_freed : Bool

-- `_live_exports`, as the list of its keys
pub record Exports : Type 0 where
  pub exports : List Export
  pub live : List ℕ

-- The `_ExportState`, and the struct with it, lives as long as a manual reference or the registry has it.
abbrev pub is_freed : Bool → Export → Bool
is_freed listed e = e.increfs == e.decrefs && not listed

abbrev pub change_at : (Export → Export) → ℕ → Option Export → Exports → Exports
change_at f i none s = s
change_at f i (some e) s = record s { exports = set s.exports i (f e) }

unfoldable pub change : (Export → Export) → ℕ → Exports → Exports
change f i s = change_at f i (get_elem? s.exports i) s

abbrev pub release_at : ℕ → Option Export → Exports → Exports
unfolding elem
release_at i none s = s
release_at i (some e) s =
    if is_freed (elem i s.live) e
    then record s { exports = set s.exports i (record e { used_freed = true }) }
    else if not e.manager_ctx
    then s
    else if e.released
    then record s { exports = set s.exports i (record e { manager_ctx = false }) }
    else record {
      exports =
          set s.exports i
            (record e { manager_ctx = false; released = true; decrefs = e.decrefs + 1 });
      live = diff s.live (i ∷ []);
    }

-- `_release_export`
unfoldable pub release_export : ℕ → Exports → Exports
unfolding release_at diff
release_export i s = release_at i (get_elem? s.exports i) s

abbrev pub new_export : Bool → Export
new_export capsule_made = record {
  manager_ctx = true;
  released = false;
  increfs = 1;
  decrefs = 0;
  name = dltensor;
  held = capsule_made;
  deleted = false;
  used_freed = false;
}

abbrev pub with_new : Bool → Exports → Exports
with_new capsule_made s = record {
  exports = s.exports ++ (new_export capsule_made ∷ []);
  live = length s.exports ∷ s.live;
}

-- `make_capsule`: `exportable` is that the device and the dtype have codes, `capsule_made` that
-- PyCapsule_New returns. The answer is whether it returns.
unfoldable pub make_capsule : Bool → Bool → Exports → Bool × Exports
unfolding release_export
make_capsule exportable capsule_made s =
    if not exportable
    then (false, s)
    else if capsule_made
    then (true, with_new true s)
    else (false, release_export (length s.exports) (with_new false s))

abbrev pub is_dltensor : Option Export → Bool
is_dltensor none = false
is_dltensor (some e) = elim e.name [ dltensor ↦ true | used_dltensor ↦ false ]

-- `_capsule_destructor_impl`
unfoldable pub capsule_destructor : ℕ → Exports → Exports
unfolding release_export
capsule_destructor i s = if is_dltensor (get_elem? s.exports i) then release_export i s else s

-- What happens to exports: `make_capsule`, the end of a capsule, a consumer that adopts the tensor and
-- renames its capsule, and a consumer that calls the deleter (`_deleter_impl`).
pub data Act : Type 0 where
  make_act : Bool → Bool → Act
  destroy_act delete_act adopt_act : ℕ → Act

unfoldable pub perform : Act → Exports → Exports
unfolding make_capsule capsule_destructor release_export change
perform (make_act exportable capsule_made) s = (make_capsule exportable capsule_made s).1
perform (destroy_act i) s = change (λ e. record e { held = false }) i (capsule_destructor i s)
perform (delete_act i) s = change (λ e. record e { deleted = true }) i (release_export i s)
perform (adopt_act i) s = change (λ e. record e { name = used_dltensor }) i s

unfoldable pub perform_all : List Act → Exports → Exports
unfolding perform
perform_all [] s = s
perform_all (a ∷ acts) s = perform_all acts (perform a s)

abbrev pub may : (Export → Bool) → Option Export → Bool
may test none = false
may test (some e) = test e

-- What Python and the DLPack protocol promise: a capsule ends once, a consumer adopts one that exists
-- and is not adopted, and calls the deleter of what it has adopted, once.
abbrev pub is_allowed : Exports → Act → Bool
is_allowed s (make_act exportable capsule_made) = true
is_allowed s (destroy_act i) = may (λ e. e.held) (get_elem? s.exports i)
is_allowed s (delete_act i) =
    may (λ e. not (is_dltensor (some e)) && not e.deleted) (get_elem? s.exports i)
is_allowed s (adopt_act i) = may (λ e. e.held && is_dltensor (some e)) (get_elem? s.exports i)

unfoldable pub follows_protocol : List Act → Exports → Bool
unfolding perform
follows_protocol [] s = true
follows_protocol (a ∷ acts) s = is_allowed s a && follows_protocol acts (perform a s)
