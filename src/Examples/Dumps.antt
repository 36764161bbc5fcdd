-- ===== src/Examples/Dumps.antt =====
-- The flight recorder's signals and records at concrete inputs.
use torch_mojo_backend.Prelude.{
  ◌||◌, all, leb, ℕ, ◌+◌, ◌≤◌, ◌≡◌, refl, true, false, not, some, [], ◌∷◌, arith, is_some, is_empty,
  length, get_elem?,
}
use torch_mojo_backend.Prelude.Sets.{elem, union, diff, range, sort, insert}
use torch_mojo_backend.DumpState
use torch_mojo_backend.DumpState.{StoreState, new_state, claim, finish, max_backoff}
use torch_mojo_backend.DumpState.Serving
use torch_mojo_backend.DumpState.Serving.{Process, start, Reach, holders, served_once, served_all}
use torch_mojo_backend.DumpState.Phases
use torch_mojo_backend.StoreWorker.{Worker, new_worker, run_begin, run_overrun}
use torch_mojo_backend.StoreWorker.Threads
use torch_mojo_backend.StoreWorker.Threads.{alive, threads_bounded}
use torch_mojo_backend.Monitor.{
  Poller, Answer, new_poller, find, put, has_group, attach, attach_state, poll_begin, nonce_of,
}
use torch_mojo_backend.Monitor.History
use torch_mojo_backend.Monitor.History.{watched_exactly}
use torch_mojo_backend.Monitor.Polls.{ExactPlan, restart_serves_all}
use torch_mojo_backend.Monitor.Signals
use torch_mojo_backend.Monitor.Signals.{
  Keys, no_keys, add_generation, set_by_torch, set_key, Signals, key_seen_with_generation,
}

-- A process that first watched at generation 0 claims 1 and 2 and dumps.
abbrev watching : Process
watching = start (some 7) 0 false

abbrev claiming : Process
claiming = record {
  state = (claim watching.state 0 2).0;
  held = (claim watching.state 0 2).1 ∷ [];
  dumps = [];
}

abbrev dumped : Process
dumped = record {
  state = finish 4000 10 (claim watching.state 0 2).1 true true claiming.state;
  held = [];
  dumps = (claim watching.state 0 2).1 ∷ [];
}

reaches_claiming : Reach watching claiming
reaches_claiming = Serving.next Serving.here (Serving.claims 0 2)

reaches_dumped : Reach watching dumped
reaches_dumped =
    Serving.next reaches_claiming
      (Serving.finishes 4000 10 true true [] [] (claim watching.state 0 2).1 refl)

served_once_example : holders 2 claiming.held + holders 2 claiming.dumps ≤ 1
served_once_example = served_once (some 7) 0 false reaches_claiming 2

nothing_failed : dumped.state.failed ≡ []
unfolding finish DumpState.finish_dumped DumpState.backoff DumpState.advance_at DumpState.advance
    claim DumpState.claim_above DumpState.claimed new_state elem union diff range sort insert
nothing_failed = refl

high_reached : dumped.state.high ≡ some 2
unfolding finish DumpState.finish_dumped DumpState.backoff DumpState.advance_at DumpState.advance
    claim DumpState.claim_above DumpState.claimed new_state elem union diff range sort insert
high_reached = refl

served_all_example : holders 2 dumped.dumps ≡ 1
served_all_example =
    served_all (some 7) 0 false reaches_dumped refl nothing_failed 2 2 high_reached (omega arith)
      (omega arith)

abbrev answer_of : ℕ → ℕ → Answer
answer_of nonce generation = record { nonce = nonce; generation = generation; has_key = false }

-- Group 1 watches the store of key 5, whose generation was 3.
abbrev one_group : Poller
one_group = attach 1 5 0 (some (answer_of 7 3)) new_poller

reaches_one : History.Reach new_poller one_group
unfolding find
reaches_one = History.next History.here (History.attaches 1 5 0 (some (answer_of 7 3)) refl)

watched_exactly_example : is_some (find one_group.states 5) ≡ has_group 5 one_group.groups
watched_exactly_example = watched_exactly reaches_one 5

found_first : find one_group.states 5 ≡ some 0
unfolding attach attach_state find put
found_first = refl

known_nonce : nonce_of (get_elem? one_group.heap 0) ≡ some 7
unfolding attach attach_state find new_state
known_nonce = refl

restart_serves_all_example :
    ExactPlan 5
      (length one_group.heap)
      0
      (answer_of 8 2)
      (poll_begin 4000 15000 0 false 5 0 (some (answer_of 8 2)) one_group)
restart_serves_all_example =
    restart_serves_all 4000 15000 0 false 5 0 7 (answer_of 8 2) one_group found_first known_nonce
      λ e. omega arith

-- torch's signaller sets the key, and one rank takes generation 1 and sets it.
abbrev one_signal : Keys
one_signal = set_key [] 1 [] (add_generation (set_by_torch no_keys))

reaches_signal : Signals no_keys one_signal
unfolding add_generation set_by_torch
reaches_signal =
    Signals.next (Signals.next (Signals.next Signals.here Signals.torch_sets) Signals.adds)
      (Signals.sets [] [] 1 refl)

key_seen_with_generation_example :
    (one_signal.dump_key ≡ (one_signal.by_torch || not (is_empty one_signal.signalled)))
    × (all (λ g. leb g one_signal.generation) one_signal.signalled ≡ true)
key_seen_with_generation_example = key_seen_with_generation reaches_signal Signals.here

-- A worker that may abandon one job, whose first job overran.
abbrev stuck_worker : Worker
stuck_worker = run_overrun (run_begin (new_worker (some 1)))

reaches_stuck : Threads.Reach (new_worker (some 1)) stuck_worker
unfolding run_begin
reaches_stuck =
    Threads.next (Threads.next Threads.here (Threads.begins refl)) (Threads.overruns refl)

threads_bounded_example :
    (alive stuck_worker ≤ 1) × (stuck_worker.stuck ≡ length stuck_worker.blocked)
threads_bounded_example = threads_bounded 1 reaches_stuck
