-- ===== src/Recorder/Completion.antt =====
-- The pass over the newest entries first: which untracked collectives it takes to be done, and when.
use torch_mojo_backend.Prelude.{
  ℕ, suc, ◌≡◌, refl, ap, ◌∙◌, Bool, true, false, not, ◌&&◌, ◌||◌, Option, none, some, List, [], ◌∷◌,
  ◌++◌, ◌==◌, arith, if◌then◌else◌, get_elem?, length,
}
use torch_mojo_backend.Recorder.Entries.{
  Entry, is_skipped, is_untracked, infers, look_up, stamp, stamp_at, completions,
}

-- A collective of communicator `comm` of group `pg` that the watchdog tracked.
abbrev pub is_tracked : ℕ → ℕ → Entry → Bool
is_tracked pg comm e = not (is_skipped e || is_untracked e) && e.pg == pg && e.comm == comm

abbrev pub first_time : Bool → Option ℕ → Option ℕ → Option ℕ
first_time true (some time) rest = some time
first_time _ _ rest = rest

-- The stamp of the first tracked collective of the communicator that has one.
pub first_stamp : ℕ → ℕ → List Entry → Option ℕ
first_stamp pg comm [] = none
first_stamp pg comm (e ∷ es) = first_time (is_tracked pg comm e) e.done_ns (first_stamp pg comm es)

module _ (pg comm : ℕ) where
  look_up-stamp_at :
      (e : Entry) (time : Option ℕ) (later : List ((ℕ × ℕ) × ℕ))
      → look_up (stamp_at e time later) pg comm
        ≡ first_time (e.pg == pg && e.comm == comm) time (look_up later pg comm)
  look_up-stamp_at e none later = ground arith
  look_up-stamp_at e (some time) later = ground arith

  look_up-stamp :
      (e : Entry) (later : List ((ℕ × ℕ) × ℕ))
      → look_up (stamp e later) pg comm
        ≡ first_time (is_tracked pg comm e) e.done_ns (look_up later pg comm)
  look_up-stamp e later = either (is_skipped e || is_untracked e)
    where
      either :
          (b : Bool)
          → look_up (if b then later else stamp_at e e.done_ns later) pg comm
            ≡ first_time (not b && e.pg == pg && e.comm == comm) e.done_ns (look_up later pg comm)
      either true = refl
      either false = look_up-stamp_at e e.done_ns later

  look_up-completions :
      (es : List Entry) → look_up (completions es).1 pg comm ≡ first_stamp pg comm es
  unfolding completions first_stamp
  look_up-completions [] = refl
  look_up-completions (e ∷ es) =
      look_up-stamp e _ ∙ ap (first_time (is_tracked pg comm e) e.done_ns) (look_up-completions es)

pub length-completions : (es : List Entry) → length (completions es).0 ≡ length es
unfolding completions
length-completions [] = refl
length-completions (e ∷ es) = ap suc (length-completions es)

-- An untracked collective of a communicator takes the stamp of the first tracked collective after
-- it on the same communicator that has one, and is not done if there is none; every other entry
-- keeps its own stamp.
pub completions_exact :
    (before after : List Entry) (e : Entry)
    → get_elem? (completions (before ++ e ∷ after)).0 (length before)
      ≡ some (if not (is_skipped e) && infers e then first_stamp e.pg e.comm after else e.done_ns)
unfolding completions
completions_exact [] after e =
    ap (λ (o : Option ℕ). some (if not (is_skipped e) && infers e then o else e.done_ns))
      (look_up-completions e.pg e.comm after)
completions_exact (b ∷ before) after e = completions_exact before after e
