-- ===== src/Recorder/Status.antt =====
-- `pg_status`: the last collective of a group that was enqueued and the last that completed.
use torch_mojo_backend.Prelude.{
  ℕ, ◌≡◌, refl, sym, subst, both, Bool, true, false, ◌&&◌, Option, none, some, List, [], ◌∷◌, ◌==◌,
  arith, leb, if◌then◌else◌, is_some,
}
use torch_mojo_backend.Recorder.Entries.{Entry, Status, no_status, counts, count_entry, status_of}

-- -1, which `none` is, is below every sequence number.
abbrev pub at_most : Option ℕ → Option ℕ → Bool
at_most none b = true
at_most (some a) none = false
at_most (some a) (some b) = leb a b

abbrev of_group : ℕ → Entry → Bool
of_group pg e = e.pg == pg && counts e

abbrev next_low : Bool → ℕ → ℕ → ℕ
next_low b cseq low = if b then cseq else low

-- The collectives of group `pg` have sequence numbers that never fall, from `low` on.
unfoldable pub is_ordered : ℕ → ℕ → List (Entry × Option ℕ) → Bool
is_ordered pg low [] = true
is_ordered pg low ((e, time) ∷ es) =
    (if of_group pg e then leb low e.cseq else true)
    && is_ordered pg (next_low (of_group pg e) e.cseq low) es

abbrev counted : Bool → ℕ → Bool → Status → Status
counted b cseq done st =
    if b
    then record {
      last_enqueued = some cseq;
      last_completed = if done then some cseq else st.last_completed;
    }
    else st

abbrev is_fine : ℕ → Status → Bool
is_fine low st = at_most st.last_completed st.last_enqueued && at_most st.last_enqueued (some low)

below : (a b c : Option ℕ) → at_most a b ≡ true → at_most b c ≡ true → at_most a c ≡ true
below none b c h k = refl
below (some a) none c h k = cc h
below (some a) (some b) none h k = cc k
below (some a) (some b) (some c) h k = ground arith

counted_fine :
    (b : Bool) (cseq low : ℕ) (done : Bool) (st : Status)
    → (if b then leb low cseq else true) ≡ true
    → is_fine low st ≡ true
    → is_fine (next_low b cseq low) (counted b cseq done st) ≡ true
counted_fine false cseq low done st h k = k
counted_fine true cseq low true st h k = ground arith
counted_fine true cseq low false st h k =
    let up : at_most (some low) (some cseq) ≡ true = h in
    ground (
      arith,
      below st.last_completed st.last_enqueued (some low),
      below st.last_completed (some low) (some cseq),
    )

split_pg :
    (pg : ℕ) (e : Entry) (done : Option ℕ) (st : Status)
    → (if e.pg == pg then count_entry e done st else st)
      ≡ counted (of_group pg e) e.cseq (is_some done) st
split_pg pg e time st = ground arith

status_fine :
    (pg low : ℕ) (es : List (Entry × Option ℕ)) (st : Status)
    → is_ordered pg low es ≡ true
    → is_fine low st ≡ true
    → at_most (status_of pg es st).last_completed (status_of pg es st).last_enqueued ≡ true
unfolding is_ordered status_of
status_fine pg low [] st h k = ground arith
status_fine pg low ((e, time) ∷ es) st h k =
    let b = of_group pg e in
    let parts = both (if b then leb low e.cseq else true) _ h in
    subst
      (λ (s : Status).
        at_most (status_of pg es s).last_completed (status_of pg es s).last_enqueued ≡ true)
      (sym (split_pg pg e time st))
      (status_fine pg (next_low b e.cseq low) es (counted b e.cseq (is_some time) st) parts.1
        (counted_fine b e.cseq low (is_some time) st parts.0 k))

-- Where a group's sequence numbers never fall along the ring, the last completed collective that
-- the dump reports is not above the last enqueued one.
pub completed_at_most_enqueued :
    (pg : ℕ) (es : List (Entry × Option ℕ))
    → is_ordered pg 0 es ≡ true
    → at_most (status_of pg es no_status).last_completed (status_of pg es no_status).last_enqueued
      ≡ true
completed_at_most_enqueued pg es h = status_fine pg 0 es no_status h refl
