-- ===== src/Examples/Lives.antt =====
-- The life of watchdogs, reporters, incidents and cached libraries at concrete inputs.
use torch_mojo_backend.Prelude.{
  update, ℕ, ◌-◌, ◌*◌, ◌≤◌, ◌≡◌, ◌≢◌, ◌⊎◌, refl, Bool, true, false, not, ◌&&◌, ◌||◌, none, some,
  List, [], ◌∷◌, ◌==◌, arith, ltb, if◌then◌else◌, get_elem?,
}
use torch_mojo_backend.Prelude.Sets.{elem}
use torch_mojo_backend.Watchdog
use torch_mojo_backend.Watchdog.{
  Process, new_process, register, hook_step, shutdown_begin, Hook, visiting, calling, gone,
  is_released, registers, exits, hooks, begins, deletes, shutdown_nested,
}
use torch_mojo_backend.Watchdog.Exit.{hook_calls_alive, hook_steps, shutdown_waits_shortly}
use torch_mojo_backend.Reporter.{Text}
use torch_mojo_backend.Reporter.Loop.{
  World, new_reporter, serve_lines, split_lines, end_reporter, read_chunks,
}
use torch_mojo_backend.Reporter.Framing.{bytes, read_chunks-lines}
use torch_mojo_backend.Reporter.Acks.{acked, due_of, dues, all_due, acked_in_order}
use torch_mojo_backend.Reporter.Index.{Names, stored}
use torch_mojo_backend.DumpState
use torch_mojo_backend.DumpState.{StoreState, new_state}
use torch_mojo_backend.DumpState.Invariant.{Inv, new_state-Inv}
use torch_mojo_backend.DumpState.Effects.{is_done}
use torch_mojo_backend.Monitor
use torch_mojo_backend.Monitor.{Poller, find}
use torch_mojo_backend.Monitor.Incident.{fr_incident, is_new, fr_incident-served}
use torch_mojo_backend.NativeBuild.Prebuilt.{Kind, shipped, compiled, Slot, Answers}
use torch_mojo_backend.NativeBuild.Processes
use torch_mojo_backend.NativeBuild.Processes.{
  Place, looking, waiting, building, marking, ready, loaded, raised, holds, run, Machine,
  new_machine, freed, acts, enters, dies,
}
use torch_mojo_backend.NativeBuild.Processes.Marks.{is_shipped, shipped_keeps_mark}
use torch_mojo_backend.NativeBuild.Processes.Ends.{own_steps, process_ends}
use torch_mojo_backend.Watchdog.Pipes
use torch_mojo_backend.Watchdog.Pipes.{
  Descriptors, none_open, started, second_raises, start_watchdog, watchdog_pipe, close_each,
  close_watchdog_fd, count, starts, shuts_down, pipes_closed_once,
}

abbrev exiting : Process
exiting = record (register 0 5 new_process) { hook = visiting (5 ∷ []) }

-- A group registers, the exit hook begins, tests `dead`, and is in its native call.
abbrev found_alive : Process
found_alive = hook_step (hook_step exiting)

abbrev in_call : Process
in_call = hook_step found_alive

found_alive-Reach : (prepared : Bool) → Watchdog.Reach prepared new_process found_alive
unfolding register elem hook_step
found_alive-Reach prepared =
    Watchdog.next
      (Watchdog.next
        (Watchdog.next (Watchdog.next Watchdog.here (registers 0 5 refl (λ h a. cc a)))
          (exits (5 ∷ []) refl (λ k. ground arith)))
        hooks)
      hooks

in_call-Reach : (prepared : Bool) → Watchdog.Reach prepared new_process in_call
in_call-Reach prepared = Watchdog.next (found_alive-Reach prepared) hooks

hook_calls_alive_example : in_call.stage 0 ≢ gone
unfolding hook_step register
hook_calls_alive_example = hook_calls_alive (in_call-Reach false) 0 refl

-- Where a `__del__` can run between the test and the call, the hook calls with a destroyed handle.
abbrev harmed : Process
harmed = hook_step (shutdown_nested 0 found_alive)

harmed-Reach : Watchdog.Reach true new_process harmed
unfolding hook_step register
harmed-Reach = Watchdog.next (Watchdog.next (found_alive-Reach true) (deletes 0 refl refl)) hooks

hook_calls_destroyed : (harmed.hook ≡ calling 0 []) × (harmed.stage 0 ≡ gone)
unfolding hook_step register shutdown_nested
hook_calls_destroyed = (refl, refl)

-- Another thread shuts the group down meanwhile.
shutdown_waits_shortly_example :
    (n : ℕ) × (n ≤ 4)
    × (is_released
          ((shutdown_begin 0 in_call).popped 0)
          (hook_steps n (shutdown_begin 0 in_call)).users
        ≡ true)
unfolding shutdown_begin register hook_step
shutdown_waits_shortly_example =
    shutdown_waits_shortly (Watchdog.next (in_call-Reach true) (begins 0 refl)) 0 refl

-- One start fails at its second pipe, one succeeds, and its group shuts down.
abbrev shut : Descriptors
shut =
    let d = start_watchdog started (start_watchdog second_raises none_open) in
    record (close_each (3 ∷ 4 ∷ []) d) { groups = [] }

shut-Reach : Pipes.Reach none_open shut
unfolding start_watchdog
shut-Reach =
    Pipes.next (Pipes.next (Pipes.next Pipes.here (starts second_raises)) (starts started))
      (shuts_down [] [] (3 ∷ 4 ∷ []) refl)

pipes_closed_once_example :
    (count 3 shut.closes ≤ 1)
    × (count 3 shut.watchdog_fds ≡ (if ltb 3 shut.opened then 1 - count 3 shut.closes else 0))
pipes_closed_once_example = pipes_closed_once shut-Reach 3

-- The recorder raises at the second incident.
abbrev world : World
world = record { fr = true; fr_raises = λ n. n == 1; time_ns = λ n. n * 10 }

-- "id=7 tid=a", "id=8 tid=b", "resolved tid=a", in three reads
abbrev reads : List Text
reads =
    (105 ∷ 100 ∷ 61 ∷ [])
    ∷ (55 ∷ 32 ∷ 116 ∷ 105 ∷ 100 ∷ 61 ∷ 97 ∷ 10 ∷ 105 ∷ 100 ∷ 61 ∷ 56 ∷ 32 ∷ 116 ∷ 105 ∷ 100 ∷ 61
        ∷ 98 ∷ [])
    ∷ (10 ∷ 114 ∷ 101 ∷ 115 ∷ 111 ∷ 108 ∷ 118 ∷ 101 ∷ 100 ∷ 32 ∷ 116 ∷ 105 ∷ 100 ∷ 61 ∷ 97 ∷ 10
        ∷ [])
    ∷ []

read_chunks-lines_example :
    read_chunks world [] reads new_reporter
    ≡ end_reporter world (serve_lines world (split_lines (bytes reads)).0 new_reporter)
read_chunks-lines_example = read_chunks-lines world reads new_reporter

acked_in_order_example :
    (acked (read_chunks world [] reads new_reporter).log
      ≡ (all_due (dues (split_lines (bytes reads)).0)).0)
    × ((read_chunks world [] reads new_reporter).stopped
        ≡ (all_due (dues (split_lines (bytes reads)).0)).1)
acked_in_order_example = acked_in_order world reads

reads_bytes : all_due (dues (split_lines (bytes reads)).0) ≡ (8 ∷ 9 ∷ [], false)
unfolding due_of split_lines
reads_bytes = refl

-- "id=7 tid=a" is published, then resolved; the second write reaches the store before the first.
abbrev two_lines : List Text
two_lines =
    (105 ∷ 100 ∷ 61 ∷ 55 ∷ 32 ∷ 116 ∷ 105 ∷ 100 ∷ 61 ∷ 97 ∷ [])
    ∷ (114 ∷ 101 ∷ 115 ∷ 111 ∷ 108 ∷ 118 ∷ 101 ∷ 100 ∷ 32 ∷ 116 ∷ 105 ∷ 100 ∷ 61 ∷ 97 ∷ [])
    ∷ []

abbrev late_write : List (ℕ × Names)
late_write = (1, some (55 ∷ []) ∷ []) ∷ (10, []) ∷ []

-- A store at generation 2, where an incident gets 3; the dump is written, the acknowledgement is not.
abbrev store_state : StoreState
store_state = new_state (some 9) (some 2) false

abbrev watching : Poller
watching = record { groups = []; states = (1, 0) ∷ []; heap = store_state ∷ [] }

abbrev third : Monitor.Incident.Incident
third = record { signal = some 3; dumped = true; stored = false; claimed_at = 0; finished_at = 1 }

fr_incident-served_example :
    (t : StoreState) × (get_elem? (fr_incident 4 1 third watching).poller.heap 0 ≡ some t)
    × Inv t
    × ((h : ℕ) → elem h t.pending ≡ elem h store_state.pending)
    × ((h : ℕ)
        → is_done t h
          ≡ (is_done store_state h || (true && elem h (DumpState.claim store_state 0 3).1)))
    × ((not (true && is_new store_state 3) || is_done t 3) ≡ true)
    × ((h : ℕ)
        → elem h (fr_incident 4 1 third watching).acks
          ≡ (true && (elem h (DumpState.claim store_state 0 3).1 || h == 3)))
    × ((fr_incident 4 1 third watching).gen ≡ 3)
unfolding find
fr_incident-served_example =
    fr_incident-served 4 1 3 0 third watching store_state (new_state-Inv (some 9) 2 false) refl refl
      refl refl

-- Shipped libraries do not load here, compiled ones do.
abbrev answers : Answers
answers = record {
  matches = true;
  copies = true;
  compiles = true;
  loads = λ k. elim k [ shipped ↦ false | compiled ↦ true ];
}

abbrev goes : ℕ → Place → Slot → Machine → Machine
goes p x s m = record m { slot = s; place = update m.place p x; lock = freed p x m.lock }

abbrev empty_slot : Slot
empty_slot = record { lib = none; mark = false }

-- Process 0 looks, enters the lock, sets the mark, and installs the shipped library; 1 looks meanwhile.
abbrev before_mark : Machine
before_mark = record (goes 0 (waiting true) empty_slot new_machine) {
  place = update (update new_machine.place 0 (waiting true)) 0 (building true);
  lock = some 0;
}

abbrev installed : Machine
installed =
    goes 0 (ready true) (record { lib = some shipped; mark = true })
      (goes 1 (waiting true) (record { lib = none; mark = true })
        (goes 0 marking (record { lib = none; mark = true }) before_mark))

installed-Reach : Processes.Reach (λ p. answers) new_machine installed
unfolding run
installed-Reach =
    Processes.next
      (Processes.next
        (Processes.next
          (Processes.next
            (Processes.next Processes.here (acts 0 (waiting true) empty_slot refl refl))
            (enters 0 (building true) empty_slot refl refl refl refl))
          (acts 0 marking (record { lib = none; mark = true }) refl refl))
        (acts 1 (waiting true) (record { lib = none; mark = true }) refl refl))
      (acts 0 (ready true) (record { lib = some shipped; mark = true }) refl refl)

shipped_keeps_mark_example :
    ((not (is_shipped installed.slot.lib) || installed.slot.mark) ≡ true)
    × ((p q : ℕ) → (holds (installed.place p) && holds (installed.place q) && not (p == q)) ≡ false)
shipped_keeps_mark_example = shipped_keeps_mark installed-Reach

process_ends_example :
    ((k : Kind) × (own_steps answers
          (λ n. record { lib = some shipped; mark = true })
          13
          (looking true)
        ≡ loaded k)
      × (answers.loads k ≡ true))
    ⊎ (own_steps answers (λ n. record { lib = some shipped; mark = true }) 13 (looking true)
        ≡ raised)
process_ends_example = process_ends answers (λ n. record { lib = some shipped; mark = true })
