-- ===== src/Desync.antt =====
-- torch_mojo_backend/distributed/process_group.py, the desync report: a rank's index of incident
-- records in the store (`_set_index`) and how the ranks' records compare (`_desync_lines`).
pub mod Verdicts
pub mod Mentions
pub mod Index
use torch_mojo_backend.Prelude.{
  ℕ, zero, suc, ◌+◌, ◌-◌, Bool, true, false, not, ◌&&◌, ◌||◌, Option, none, some, List, [], ◌∷◌,
  ◌++◌, ◌==◌, leb, ltb, if◌then◌else◌, is_empty, length,
}

-- The fields of a machine line that the comparison reads. `at_device` is `where == "device"`,
-- `is_collective` that the operation is one of `_COLLECTIVE_OPS`; an absent `nops` is 1 and any
-- other absent number 0.
pub record Report : Type 0 where
  pub tid : ℕ
  pub seq : ℕ
  pub cpos : ℕ
  pub nops : ℕ
  pub fingerprint : ℕ
  pub at_device : Bool
  pub is_collective : Bool

-- `_comparable`
unfoldable pub comparable : Report → Bool
comparable r = r.at_device && r.is_collective && not (r.cpos == 0)

abbrev pub with_tid : ℕ → List Report → Option Report
with_tid tid [] = none
with_tid tid (r ∷ rs) = let rest = with_tid tid rs in if r.tid == tid then some r else rest

abbrev pub picked : Option Report → Report → Report
picked none first = first
picked (some r) first = r

-- `_pick(records, mine)`, for the first record and the others
unfoldable pub pick : Report → List Report → Report → Report
pick first rest mine = picked (with_tid mine.tid (first ∷ rest)) first

abbrev pub last_of : Report → ℕ
last_of r = (r.cpos + r.nops) - 1

abbrev pub same_span : Report → Report → Bool
same_span a b = a.cpos == b.cpos && last_of a == last_of b

abbrev pub overlaps : Report → Report → Bool
overlaps a b = leb a.cpos (last_of b) && leb b.cpos (last_of a)

-- What the loop of `_desync_lines` finds of a rank.
pub data Verdict : Type 0 where
  no_report not_compared waits_here regrouped : Verdict
  other_arguments behind ahead : Verdict

-- The loop's tests on a rank's record
unfoldable pub compare_reports : Report → Report → Verdict
unfolding comparable
compare_reports mine r =
    if not (comparable r && comparable mine)
    then not_compared
    else if same_span r mine && r.fingerprint == mine.fingerprint
    then waits_here
    else if not (same_span r mine) && overlaps r mine
    then regrouped
    else if same_span r mine
    then other_arguments
    else if ltb r.cpos mine.cpos
    then behind
    else ahead

unfoldable pub verdict : Report → List Report → Verdict
unfolding pick compare_reports
verdict mine [] = no_report
verdict mine (r ∷ rs) = compare_reports mine (pick r rs mine)

-- `_ranks`: the ranks that the text names, and how many "more" there are
pub record Ranks : Type 0 where
  pub shown : List ℕ
  pub more : ℕ

unfoldable pub first_ranks : ℕ → List ℕ → Ranks
first_ranks n [] = record { shown = []; more = 0 }
first_ranks zero (r ∷ rs) = let rest = first_ranks zero rs in record rest { more = suc rest.more }
first_ranks (suc n) (r ∷ rs) = let rest = first_ranks n rs in record rest { shown = r ∷ rest.shown }

abbrev pub ranks : List ℕ → Ranks
unfolding first_ranks
ranks = first_ranks 16

pub data Line : Type 0 where
  heading : ℕ → Line
  rank_line : ℕ → Verdict → Line
  same_ranks missing_ranks : Ranks → Line
  diverged_note inconclusive : Line

-- `out`, `same`, `missing` and `diverged`
pub record Lists : Type 0 where
  pub out : List Line
  pub same : List ℕ
  pub missing : List ℕ
  pub diverged : List ℕ

abbrev pub says : Lists → ℕ → Verdict → Lists
says ls r v = record ls { out = ls.out ++ rank_line r v ∷ [] }

abbrev pub marks : Lists → ℕ → Verdict → Lists
marks ls r v = record ls { out = ls.out ++ rank_line r v ∷ []; diverged = ls.diverged ++ r ∷ [] }

-- One round of the loop
unfoldable pub note : Lists → ℕ → Verdict → Lists
note ls r no_report = record ls { missing = ls.missing ++ r ∷ [] }
note ls r waits_here = record ls { same = ls.same ++ r ∷ [] }
note ls r not_compared = says ls r not_compared
note ls r regrouped = says ls r regrouped
note ls r other_arguments = marks ls r other_arguments
note ls r behind = marks ls r behind
note ls r ahead = marks ls r ahead

-- `for r in range(world)`, from rank `r` on for `n` ranks
unfoldable pub note_all : Report → (ℕ → List Report) → (n r : ℕ) → Lists → Lists
note_all mine reports zero r ls = ls
note_all mine reports (suc n) r ls =
    note_all mine reports n (suc r) (note ls r (verdict mine (reports r)))

abbrev pub unless_empty : List ℕ → Line → List Line
unless_empty xs line = if is_empty xs then [] else line ∷ []

abbrev pub unless_missing : List ℕ → List ℕ → List Line
unless_missing missing diverged =
    if is_empty missing && is_empty diverged then inconclusive ∷ [] else []

-- The lines that follow the loop
unfoldable pub assembled : Lists → List Line
unfolding ranks
assembled ls =
    ls.out
    ++ unless_empty ls.same (same_ranks (ranks ls.same))
    ++ unless_empty ls.missing (missing_ranks (ranks ls.missing))
    ++ unless_empty ls.diverged diverged_note
    ++ unless_missing ls.missing ls.diverged

abbrev pub headed : Report → Lists
headed mine = record { out = heading mine.seq ∷ []; same = []; missing = []; diverged = [] }

-- `_desync_lines(mine, reports, world)`; a rank without records has an empty list
unfoldable pub desync_lines : Report → (ℕ → List Report) → ℕ → List Line
desync_lines mine reports world = assembled (note_all mine reports world 0 (headed mine))

-- A rank's index: a generation, and the names of its active incident records. `none` is an absent
-- or empty value.
pub record IndexValue : Type 0 where
  pub generation : ℕ
  pub names : List ℕ

abbrev pub same_names : List ℕ → List ℕ → Bool
same_names [] [] = true
same_names (x ∷ xs) (y ∷ ys) = x == y && same_names xs ys
same_names _ _ = false

abbrev pub same_value : Option IndexValue → Option IndexValue → Bool
same_value none none = true
same_value (some a) (some b) = a.generation == b.generation && same_names a.names b.names
same_value _ _ = false

abbrev pub is_newer : Option IndexValue → ℕ → Bool
is_newer none gen = false
is_newer (some v) gen = leb gen v.generation

-- `compare_set(key, seen, new)` on a store that has `now`: what the store has after it, which it
-- returns
abbrev pub compare_set : (now seen new : Option IndexValue) → Option IndexValue
compare_set now seen new = if same_value now seen then new else now

-- The rounds of `_set_index`. Each is given what it reads and what the store has when it compares;
-- the result says whether the write succeeded and what the store had after each round.
unfoldable pub rounds :
    ℕ → IndexValue → List (Option IndexValue × Option IndexValue) → Bool × List (Option IndexValue)
rounds zero new _ = (false, [])
rounds (suc n) new [] = (false, [])
rounds (suc n) new ((read, now) ∷ rs) =
    let rest = rounds n new rs in
    let left = compare_set now read (some new) in
    if is_newer read new.generation
    then (true, read ∷ [])
    else if same_value left (some new)
    then (true, left ∷ [])
    else (rest.0, left ∷ rest.1)

-- `_set_index`: at most 8 rounds
abbrev pub set_index :
    IndexValue → List (Option IndexValue × Option IndexValue) → Bool × List (Option IndexValue)
set_index = rounds 8
