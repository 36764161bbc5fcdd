-- ===== src/DevicePinning.antt =====
-- torch_mojo_backend/distributed/process_group.py, `use_local_rank_gpu`: which device of a machine
-- a torchrun worker sees. A variable's value is the list of its comma-separated entries, stripped
-- and without empty ones; a device is a number.
pub mod OneDevice
use torch_mojo_backend.Prelude.{
  ℕ, Bool, true, false, Option, none, some, List, [], ◌∷◌, ltb, leb, if◌then◌else◌, length,
  get_elem?,
}

-- The three visibility variables.
pub record Visible : Type 0 where
  pub rocr : Option (List ℕ)
  pub cuda : Option (List ℕ)
  pub hip : Option (List ℕ)

-- `_visible_entries`: `entries or None`
unfoldable pub entries_of : Option (List ℕ) → Option (List ℕ)
entries_of none = none
entries_of (some []) = none
entries_of (some (x ∷ xs)) = some (x ∷ xs)

-- `LOCAL_RANK` as it is set: absent, no integer, or a rank, which is not negative here
pub data LocalRank : Type 0 where
  unset not_integer : LocalRank
  rank_of : ℕ → LocalRank

pub data Outcome : Type 0 where
  pinned : Visible → Outcome
  bad_rank too_few_devices : Outcome

abbrev pub entry_at : Option ℕ → Option (List ℕ)
entry_at none = none
entry_at (some x) = some (x ∷ [])

-- `_keep_local_rank_entry`: the variable's new entries, or `none` for the RuntimeError
unfoldable pub keep_entry : List ℕ → ℕ → Option (List ℕ)
keep_entry entries rank =
    if leb (length entries) 1 then some entries else entry_at (get_elem? entries rank)

-- A runtime-level list under a narrowed HSA one: its only index is 0.
abbrev pub zeroed : Option (List ℕ) → Option (List ℕ) → Option (List ℕ)
zeroed raw none = raw
zeroed raw (some xs) = some (0 ∷ [])

abbrev pub at_hsa : Visible → Option (List ℕ) → Outcome
at_hsa v none = too_few_devices
at_hsa v (some kept) = pinned (record {
  rocr = some kept;
  cuda = zeroed v.cuda (entries_of v.cuda);
  hip = zeroed v.hip (entries_of v.hip);
})

-- One round of the loop over the runtime level: the variable's value after it
abbrev pub at_runtime : Option (List ℕ) → Option (List ℕ) → ℕ → Option (Option (List ℕ))
at_runtime raw none rank = some raw
at_runtime raw (some entries) rank = elim (keep_entry entries rank) [
  | none ↦ none
  | some kept ↦ some (some kept)
]

abbrev pub both_kept : Visible → Option (Option (List ℕ)) → Option (Option (List ℕ)) → Outcome
both_kept v none hip = too_few_devices
both_kept v (some cuda) none = too_few_devices
both_kept v (some cuda) (some hip) = pinned (record v { cuda = cuda; hip = hip })

abbrev pub set_both : Visible → ℕ → Outcome
set_both v rank = pinned (record v { cuda = some (rank ∷ []); hip = some (rank ∷ []) })

abbrev pub without_hsa : Visible → Option (List ℕ) → Option (List ℕ) → ℕ → Outcome
without_hsa v none none rank = set_both v rank
without_hsa v cuda hip rank = both_kept v (at_runtime v.cuda cuda rank) (at_runtime v.hip hip rank)

abbrev pub at_level : Visible → Option (List ℕ) → ℕ → Outcome
at_level v none rank = without_hsa v (entries_of v.cuda) (entries_of v.hip) rank
at_level v (some hsa) rank = at_hsa v (keep_entry hsa rank)

-- `use_local_rank_gpu`: the variables after it, or its exception
unfoldable pub use_local_rank_gpu : Visible → LocalRank → Outcome
unfolding entries_of keep_entry
use_local_rank_gpu v unset = pinned v
use_local_rank_gpu v not_integer = bad_rank
use_local_rank_gpu v (rank_of rank) = at_level v (entries_of v.rocr) rank
