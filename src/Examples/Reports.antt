-- ===== src/Examples/Reports.antt =====
-- The recorder's dump, the desync report and the pinning at concrete inputs.
use torch_mojo_backend.Prelude.{
  ℕ, zero, suc, subst, ◌+◌, ◌*◌, ◌≤◌, ◌≡◌, refl, true, false, not, ◌&&◌, Option, none, some, List,
  [], ◌∷◌, arith, if◌then◌else◌, ltb, leb, length, get_elem?, map,
}
use torch_mojo_backend.Recorder.{Description, new_recorder, find_record}
use torch_mojo_backend.Recorder.Ring.{begin_all, found_exactly}
use torch_mojo_backend.Recorder.Entries.{
  Entry, completions, done_times, forwards, linked, is_skipped, infers, position,
}
use torch_mojo_backend.Recorder.Completion.{first_stamp}
use torch_mojo_backend.Recorder.Links.{done_times_exact}
use torch_mojo_backend.Desync.{Report, IndexValue, desync_lines, compare_set, set_index, rounds}
use torch_mojo_backend.Desync.Mentions.{mentions, accounted, each_rank_once}
use torch_mojo_backend.Desync.Index
use torch_mojo_backend.Desync.Index.{
  generation_of, Writes, index_never_rolls_back, last_left, set_index_settles,
}
use torch_mojo_backend.DevicePinning.{Visible, use_local_rank_gpu, rank_of, entries_of}
use torch_mojo_backend.DevicePinning.OneDevice.{views, own_device, hsa_one_device}

abbrev called : ℕ → Description
called name = record {
  name = name;
  in_shapes = (4 ∷ []) ∷ [];
  in_dtypes = 0 ∷ [];
  out_shapes = (4 ∷ []) ∷ [];
  out_dtypes = 0 ∷ [];
  stack = name;
}

-- Three calls on a ring for one entry, which has room for two records.
abbrev three_calls : List (Description × ℕ)
three_calls = (called 1, 0) ∷ (called 2, 0) ∷ (called 3, 0) ∷ []

found_exactly_example : find_record (begin_all (new_recorder 1) three_calls).records (1 + 1) ≡ (
    if ltb 1 (length three_calls) && leb (length three_calls) (1 + 2 * 1)
    then get_elem? (map (λ p. p.0) three_calls) 1
    else none)
found_exactly_example = found_exactly 1 three_calls 1 (omega arith)

-- Flag 8 is FL_UNTRACKED, flag 16 FL_FOLDED.
abbrev entry_of : (rid cseq flags : ℕ) → Option ℕ → ℕ → Entry
entry_of rid cseq flags time link = record {
  rid = rid;
  pg = 0;
  cseq = cseq;
  op = 1;
  count = 4;
  root = 0;
  flags = flags;
  tag = 0;
  comm = 9;
  done_ns = time;
  link = link;
}

abbrev folded : Entry
folded = entry_of 0 1 16 none 2

abbrev committed : Entry
committed = entry_of 1 2 16 (some 50) 2

linked_steady :
    (j : ℕ) (t : Entry)
    → position (folded ∷ committed ∷ []) 2 0 ≡ some j
    → get_elem? (folded ∷ committed ∷ []) j ≡ some t
    → forwards t ≡ false
unfolding position
linked_steady zero t e g = cc e
linked_steady (suc zero) t e g = subst (λ (x : Entry). forwards x ≡ false) (one g) refl
  where
    one : some committed ≡ some t → committed ≡ t
    one q = cc q
linked_steady (suc (suc j)) t e g = cc g

done_times_exact_example :
    get_elem? (done_times (folded ∷ committed ∷ [])) 0
    ≡ some (
        if forwards folded
        then linked (folded ∷ committed ∷ []) folded (completions (folded ∷ committed ∷ [])).0
        else if not (is_skipped folded) && infers folded
        then first_stamp 0 9 (committed ∷ [])
        else none)
done_times_exact_example = done_times_exact [] (committed ∷ []) folded linked_steady

abbrev timed : List (Entry × Option ℕ)
timed = (entry_of 0 1 0 (some 40) 0, some 40) ∷ (entry_of 1 2 0 none 0, none) ∷ []

abbrev report_of : ℕ → ℕ → Report
report_of cpos fingerprint = record {
  tid = 1;
  seq = cpos;
  cpos = cpos;
  nops = 1;
  fingerprint = fingerprint;
  at_device = true;
  is_collective = true;
}

each_rank_once_example :
    (mentions 1 (desync_lines (report_of 3 7) (λ r. report_of 4 8 ∷ []) 2)
      ≤ (if ltb 1 2 then 1 else 0))
    × (accounted (desync_lines (report_of 3 7) (λ r. report_of 4 8 ∷ []) 2) ≡ 2)
each_rank_once_example = each_rank_once (report_of 3 7) (λ r. report_of 4 8 ∷ []) 1 2

abbrev index_value : ℕ → IndexValue
index_value gen = record { generation = gen; names = gen ∷ [] }

one_write :
    Writes
      (some (index_value 2))
      (compare_set (some (index_value 2)) (some (index_value 1)) (some (index_value 1)))
one_write = Index.next Index.here (Index.compares none (index_value 1) refl)

index_never_rolls_back_example :
    generation_of (some (index_value 2))
    ≤ generation_of (compare_set (some (index_value 2)) none (some (index_value 1)))
index_never_rolls_back_example = index_never_rolls_back one_write

set_index_done :
    (set_index (index_value 3) ((some (index_value 2), some (index_value 2)) ∷ [])).0 ≡ true
unfolding rounds
set_index_done = refl

set_index_settles_example :
    3
    ≤ generation_of (
        last_left (set_index (index_value 3) ((some (index_value 2), some (index_value 2)) ∷ [])).1)
set_index_settles_example =
    set_index_settles (index_value 3) ((some (index_value 2), some (index_value 2)) ∷ [])
      set_index_done

-- The whole allocation in both lists, for local rank 2
abbrev allocation : Visible
allocation = record {
  rocr = some (4 ∷ 5 ∷ 6 ∷ 7 ∷ []);
  cuda = some (0 ∷ 1 ∷ 2 ∷ 3 ∷ []);
  hip = none;
}

hsa_one_device_example :
    views (use_local_rank_gpu allocation (rank_of 2)) ≡ some (some (6 ∷ []), some (6 ∷ []))
unfolding entries_of own_device
hsa_one_device_example = hsa_one_device 6 allocation 2 (4 ∷ 5 ∷ 6 ∷ 7 ∷ []) refl refl
