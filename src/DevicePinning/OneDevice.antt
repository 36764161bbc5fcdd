-- ===== src/DevicePinning/OneDevice.antt =====
-- What a pinned worker sees.
use torch_mojo_backend.Prelude.{
  ℕ, ◌≡◌, refl, ap, ◌∙◌, Option, none, some, List, [], ◌∷◌, arith, get_elem?,
}
use torch_mojo_backend.DevicePinning.{
  Visible, Outcome, pinned, rank_of, use_local_rank_gpu, entries_of, keep_entry, entry_at, at_hsa,
  at_level, zeroed,
}

-- The devices at some indices of a list; an index out of range selects none.
pub select : List ℕ → List ℕ → List ℕ
select xs [] = []
select xs (i ∷ is) = elim (get_elem? xs i) [ none ↦ [] | some x ↦ x ∷ select xs is ]

-- What a runtime sees: its own list indexes what the HSA level leaves visible. `none` is every
-- device.
abbrev pub sees_at : Option (List ℕ) → Option (List ℕ) → Option (List ℕ)
sees_at none runtime = runtime
sees_at (some hsa) none = some hsa
sees_at (some hsa) (some indices) = some (select hsa indices)

pub sees : Option (List ℕ) → Option (List ℕ) → Option (List ℕ)
unfolding entries_of
sees rocr runtime = sees_at (entries_of rocr) (entries_of runtime)

-- What both runtimes see after a pinning.
pub views : Outcome → Option (Option (List ℕ) × Option (List ℕ))
views (pinned w) = some (sees w.rocr w.cuda, sees w.rocr w.hip)
views _ = none

-- A worker's device: the only entry of the list, or the one at its rank.
unfoldable pub own_device : List ℕ → ℕ → Option ℕ
own_device [] rank = none
own_device (x ∷ []) rank = some x
own_device (x ∷ y ∷ xs) rank = get_elem? (x ∷ y ∷ xs) rank

kept_own :
    (hsa : List ℕ) (rank d : ℕ) → own_device hsa rank ≡ some d → keep_entry hsa rank ≡ some (d ∷ [])
unfolding own_device keep_entry
kept_own [] rank d h = cc h
kept_own (x ∷ []) rank d h = ap (λ (o : Option ℕ). entry_at o) h
kept_own (x ∷ y ∷ xs) rank d h = ground (arith, ap (λ (o : Option ℕ). entry_at o) h)

abbrev pair : Option (List ℕ) → Option (List ℕ) → Option (Option (List ℕ) × Option (List ℕ))
pair a b = some (a, b)

module _ (d : ℕ) where
  sees-zeroed :
      (raw : Option (List ℕ)) → sees (some (d ∷ [])) (zeroed raw (entries_of raw)) ≡ some (d ∷ [])
  unfolding sees select
  sees-zeroed none = refl
  sees-zeroed (some []) = refl
  sees-zeroed (some (x ∷ xs)) = refl

  -- Where the HSA variable lists devices, each runtime sees exactly one device after the pinning:
  -- the list's only entry, or the one at the worker's rank. This holds whatever the runtimes' own
  -- variables were.
  pub hsa_one_device :
      (v : Visible) (rank : ℕ) (hsa : List ℕ)
      → entries_of v.rocr ≡ some hsa
      → own_device hsa rank ≡ some d
      → views (use_local_rank_gpu v (rank_of rank)) ≡ some (some (d ∷ []), some (d ∷ []))
  unfolding use_local_rank_gpu views
  hsa_one_device v rank hsa e h =
      ap (λ (o : Option (List ℕ)). views (at_level v o rank)) e
      ∙ ap (λ (o : Option (List ℕ)). views (at_hsa v o)) (kept_own hsa rank d h)
      ∙ ap
          (λ (x : Option (List ℕ)). pair x (sees (some (d ∷ [])) (zeroed v.hip (entries_of v.hip))))
          (sees-zeroed v.cuda)
      ∙ ap (pair (some (d ∷ []))) (sees-zeroed v.hip)
