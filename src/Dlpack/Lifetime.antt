-- ===== src/Dlpack/Lifetime.antt =====
-- Every export is released once, by whoever ends it, and nothing of it is used afterwards.
use torch_mojo_backend.Prelude.{
  both, ℕ, zero, suc, ◌+◌, Bool, true, false, not, ◌&&◌, Option, none, some, List, [], ◌∷◌, ◌++◌,
  ◌==◌, ltb, if◌then◌else◌, length, get_elem?, set, ◌≡◌, refl, ap, inl, inr, Bool-cases,
  Option-cases, arith, ==_iff,
}
use torch_mojo_backend.Prelude.Sets.{elem, diff, elem-diff}
use torch_mojo_backend.Dlpack.{
  used_dltensor, Export, Exports, is_freed, change, release_export, new_export, with_new,
  make_capsule, is_dltensor, capsule_destructor, Act, make_act, destroy_act, delete_act, adopt_act,
  perform, perform_all, is_allowed, follows_protocol,
}

-- The capsule ended before a consumer adopted the tensor, or the consumer has called the deleter.
abbrev pub is_ended : Export → Bool
is_ended e = if is_dltensor (some e) then not e.held else e.deleted

-- One manual reference to the state, dropped when the export ends, and not before; the export is listed
-- until then, and nothing has used it after that.
abbrev pub is_sound : Bool → Export → Bool
is_sound listed e =
    (e.increfs == 1 && e.decrefs == (if is_ended e then 1 else 0))
    && (if is_ended e
        then e.released && not e.manager_ctx && not listed
        else not e.released && e.manager_ctx && listed)
    && not e.used_freed
    && not (is_dltensor (some e) && e.deleted)

abbrev pub sound_at : Option Export → Bool → Bool
sound_at none listed = not listed
sound_at (some e) listed = is_sound listed e

pub record Inv (s : Exports) : Type 0 where
  pub sound : (i : ℕ) → sound_at (get_elem? s.exports i) (elem i s.live) ≡ true

get_elem?-written :
    (xs : List Export) (i j : ℕ) (e e' : Export)
    → get_elem? xs i ≡ some e
    → get_elem? (set xs i e') j ≡ (if j == i then some e' else get_elem? xs j)
get_elem?-written [] i j e e' h = cc h
get_elem?-written (x ∷ xs) zero zero e e' h = ground arith
get_elem?-written (x ∷ xs) zero (suc j) e e' h = ground arith
get_elem?-written (x ∷ xs) (suc i) zero e e' h = ground arith
get_elem?-written (x ∷ xs) (suc i) (suc j) e e' h = ground (arith, get_elem?-written xs i j e e' h)

set-set : (xs : List Export) (i : ℕ) (a b : Export) → set (set xs i a) i b ≡ set xs i b
set-set [] i a b = refl
set-set (x ∷ xs) zero a b = refl
set-set (x ∷ xs) (suc i) a b = ap (x ∷◌) (set-set xs i a b)

-- One export changes, and with it whether it is listed.
written-Inv :
    (i : ℕ) (s : Exports) (e e' : Export) (live : List ℕ)
    → get_elem? s.exports i ≡ some e
    → ((j : ℕ) → (j == i) ≡ false → elem j live ≡ elem j s.live)
    → is_sound (elem i live) e' ≡ true
    → Inv s
    → Inv (record { exports = set s.exports i e'; live = live })
written-Inv i s e e' live h l k v = record {
  sound = λ j. elim (Bool-cases (j == i)) [
    | inl q ↦ ground (
      arith,
      q,
      k,
      ap (λ n. elem n live) ((==_iff j i).0 q),
      get_elem?-written s.exports i j e e' h,
    )
    | inr q ↦ ground (arith, q, v.sound j, l j q, get_elem?-written s.exports i j e e' h)
  ];
}

abbrev done : Export → Export
done e = record e { manager_ctx = false; released = true; decrefs = e.decrefs + 1 }

-- What is not released yet is released.
release_export-done :
    (i : ℕ) (s : Exports) (e : Export)
    → get_elem? s.exports i ≡ some e
    → is_freed (elem i s.live) e ≡ false
    → e.manager_ctx ≡ true
    → e.released ≡ false
    → release_export i s
      ≡ record { exports = set s.exports i (done e); live = diff s.live (i ∷ []) }
unfolding release_export
release_export-done i s e h f c r = rw h (ground (arith, f, c, r))

-- A release, and then a change that makes it the end of the export.
end-Inv :
    (f : Export → Export) (i : ℕ) (s : Exports) (e : Export)
    → get_elem? s.exports i ≡ some e
    → is_ended e ≡ false
    → is_sound false (f (done e)) ≡ true
    → Inv s
    → Inv (change f i (release_export i s))
unfolding change elem
end-Inv f i s e h n k v =
    let there = get_elem?-written s.exports i i e (done e) h in
    let here : get_elem? (set s.exports i (done e)) i ≡ some (done e) = ground (arith, there) in
    let fine : is_sound (elem i s.live) e ≡ true = ground (arith, v.sound i, h) in
    let unlisted : elem i (diff s.live (i ∷ [])) ≡ false =
      ground (arith, elem-diff i s.live (i ∷ [])) in
    rw
      (
        release_export-done i s e h (ground (arith, fine, n)) (ground (arith, fine, n))
            (ground (arith, fine, n)),
        here,
        set-set s.exports i (done e) (f (done e)),
      )
      (written-Inv i s e (f (done e)) (diff s.live (i ∷ [])) h
        (λ j q. ground (arith, q, elem-diff j s.live (i ∷ []))) (rw unlisted k) v)

get_elem?-last :
    (xs : List Export) (e : Export) (i : ℕ)
    → get_elem? (xs ++ (e ∷ [])) i
      ≡ (if ltb i (length xs) then get_elem? xs i else if i == length xs then some e else none)
get_elem?-last [] e zero = ground arith
get_elem?-last [] e (suc i) = ground arith
get_elem?-last (x ∷ xs) e zero = ground arith
get_elem?-last (x ∷ xs) e (suc i) = ground (arith, get_elem?-last xs e i)

get_elem?-beyond : (xs : List Export) (i : ℕ) → ltb i (length xs) ≡ false → get_elem? xs i ≡ none
get_elem?-beyond [] i h = refl
get_elem?-beyond (x ∷ xs) zero h = ground arith
get_elem?-beyond (x ∷ xs) (suc i) h = get_elem?-beyond xs i (ground (arith, h))

with_new-Inv : (s : Exports) → Inv s → Inv (with_new true s)
unfolding elem
with_new-Inv s v = record {
  sound = λ i. ground (
    arith,
    v.sound i,
    get_elem?-last s.exports (new_export true) i,
    get_elem?-beyond s.exports i,
  );
}

adopt-Inv :
    (i : ℕ) (s : Exports)
    → is_allowed s (adopt_act i) ≡ true
    → Inv s
    → Inv (perform (adopt_act i) s)
unfolding perform change
adopt-Inv i s a v = elim (Option-cases (get_elem? s.exports i)) [
  | inl h ↦ ground (arith, a, h)
  | inr (e, h) ↦ rw h (
      written-Inv i s e (record e { name = used_dltensor }) s.live h (λ j q. refl)
        (ground (arith, v.sound i, h, a)) v)
]

destructor_releases :
    (i : ℕ) (s : Exports)
    → is_dltensor (get_elem? s.exports i) ≡ true
    → capsule_destructor i s ≡ release_export i s
unfolding capsule_destructor
destructor_releases i s d = rw d refl

destructor_leaves :
    (i : ℕ) (s : Exports) → is_dltensor (get_elem? s.exports i) ≡ false → capsule_destructor i s ≡ s
unfolding capsule_destructor
destructor_leaves i s d = rw d refl

destroy-Inv :
    (i : ℕ) (s : Exports)
    → is_allowed s (destroy_act i) ≡ true
    → Inv s
    → Inv (perform (destroy_act i) s)
unfolding perform change
destroy-Inv i s a v = elim (Option-cases (get_elem? s.exports i)) [
  | inl h ↦ ground (arith, a, h)
  | inr (e, h) ↦ elim (Bool-cases (is_dltensor (some e))) [
    | inl d ↦ rw (destructor_releases i s (ground (arith, h, d))) (
        end-Inv (λ x. record x { held = false }) i s e h (ground (arith, h, d, a))
          (ground (arith, v.sound i, h, d, a)) v)
    | inr d ↦
        rw (destructor_leaves i s (ground (arith, h, d)), change, h)
          (written-Inv i s e (record e { held = false }) s.live h (λ j q. refl)
            (ground (arith, v.sound i, h, d)) v)
  ]
]

delete-Inv :
    (i : ℕ) (s : Exports)
    → is_allowed s (delete_act i) ≡ true
    → Inv s
    → Inv (perform (delete_act i) s)
unfolding perform
delete-Inv i s a v = elim (Option-cases (get_elem? s.exports i)) [
  | inl h ↦ ground (arith, a, h)
  | inr (e, h) ↦
      end-Inv (λ x. record x { deleted = true }) i s e h (ground (arith, h, a))
        (ground (arith, v.sound i, h, a)) v
]

fail-Inv : (s : Exports) → Inv s → Inv (release_export (length s.exports) (with_new false s))
unfolding elem
fail-Inv s v =
    let n = length s.exports in
    let e = new_export false in
    let xs = s.exports ++ e ∷ [] in
    let here : get_elem? xs n ≡ some e = ground (arith, get_elem?-last s.exports e n) in
    rw (release_export-done n (with_new false s) e here refl refl refl) (record {
      sound = λ i. ground (
        arith,
        v.sound i,
        get_elem?-last s.exports e i,
        get_elem?-beyond s.exports i,
        get_elem?-written xs n i e (done e) here,
        elem-diff i (n ∷ s.live) (n ∷ []),
        (==_iff i n).0,
      );
    })

perform-Inv : (a : Act) (s : Exports) → is_allowed s a ≡ true → Inv s → Inv (perform a s)
unfolding perform make_capsule
perform-Inv (make_act false made) s a v = v
perform-Inv (make_act true true) s a v = with_new-Inv s v
perform-Inv (make_act true false) s a v = fail-Inv s v
perform-Inv (destroy_act i) s a v = destroy-Inv i s a v
perform-Inv (delete_act i) s a v = delete-Inv i s a v
perform-Inv (adopt_act i) s a v = adopt-Inv i s a v

perform_all-Inv :
    (acts : List Act) (s : Exports)
    → follows_protocol acts s ≡ true
    → Inv s
    → Inv (perform_all acts s)
unfolding perform_all follows_protocol
perform_all-Inv [] s p v = v
perform_all-Inv (a ∷ acts) s p v =
    let (first, others) = both _ _ p in
    perform_all-Inv acts (perform a s) others (perform-Inv a s first v)

abbrev pub no_exports : Exports
no_exports = record { exports = []; live = [] }

-- In a process that has exported nothing yet, whatever exports are then made, successfully or not, and
-- in whatever order capsules end, tensors are adopted and deleters called, each capsule ending once and
-- each deleter called once and by a consumer that adopted the tensor: an export is released if and only
-- if its capsule ended unadopted or its consumer has called the deleter; its one manual reference is
-- dropped exactly then, until then it is listed among the live exports and its manager context is set,
-- nothing has used it after it was freed, and nothing that is no export is listed.
pub perform_all-is_sound :
    (acts : List Act)
    → follows_protocol acts no_exports ≡ true
    → (i : ℕ)
    → sound_at
        (get_elem? (perform_all acts no_exports).exports i)
        (elem i (perform_all acts no_exports).live)
      ≡ true
unfolding elem
perform_all-is_sound acts p =
    (perform_all-Inv acts no_exports p (record { sound = λ j. refl })).sound
