-- ===== src/DumpState/Phases.antt =====
-- What a `_StoreState` promises, without its sets and its baseline: a phase for each generation. The
-- threads of Serving refine this description.
use torch_mojo_backend.Prelude.{ℕ, ◌≡◌, Bool, true, false, ◌+◌, ◌≤◌, min, leb, if◌then◌else◌}
use torch_mojo_backend.Prelude.Sets.{elem}
use torch_mojo_backend.DumpState.{StoreState, max_backoff}
use torch_mojo_backend.DumpState.Effects.{is_done}

pub data Phase : Type 0 where
  unseen busy to_retry dumped : Phase

-- Which phase a generation has in a state.
unfoldable pub phase : StoreState → ℕ → Phase
unfolding elem
phase s g =
    if is_done s g
    then dumped
    else if elem g s.pending
    then busy
    else if elem g s.failed
    then to_retry
    else unseen

-- A claim up to a generation: what nobody has served becomes busy, and so does what failed, when it
-- is time to try again.
abbrev pub after_claim : ℕ → Bool → ℕ → Phase → Phase
after_claim upto retry g unseen = if leb g upto then busy else unseen
after_claim upto retry g busy = busy
after_claim upto retry g to_retry = if retry then busy else to_retry
after_claim upto retry g dumped = dumped

-- The end of a claim on busy generations.
abbrev pub after_end : Bool → Bool → Phase → Phase
after_end mine written before = if mine then (if written then dumped else to_retry) else before

-- A phase for each generation, and when a failed dump may be tried again.
pub record Spec : Type 0 where
  pub at : ℕ → Phase
  pub retry_at : ℕ

pub data PhaseStep (f f' : Spec) : Type 0 where
  claim_step :
      (now upto : ℕ)
      → ((g : ℕ) → f'.at g ≡ after_claim upto (leb f.retry_at now) g (f.at g))
      → f'.retry_at ≡ f.retry_at
      → PhaseStep f f'
  end_step :
      (coord now : ℕ) (mine : ℕ → Bool) (written : Bool)
      → ((g : ℕ) → mine g ≡ true → f.at g ≡ busy)
      → ((g : ℕ) → f'.at g ≡ after_end (mine g) written (f.at g))
      → (written ≡ true → f'.retry_at ≡ f.retry_at)
      → (written ≡ false
          → (g : ℕ) → mine g ≡ true
          → (now + min coord max_backoff ≤ f'.retry_at) × (f'.retry_at ≤ now + max_backoff))
      → PhaseStep f f'

pub data PhaseRun (f : Spec) : Spec → Type 0 where
  run_here : PhaseRun f f
  run_next : {f' f'' : Spec} → PhaseRun f f' → PhaseStep f' f'' → PhaseRun f f''

abbrev pub spec : StoreState → Spec
spec s = record { at = phase s; retry_at = s.dump_retry_at }

abbrev pub is_dumped : Phase → Bool
is_dumped dumped = true
is_dumped _ = false
