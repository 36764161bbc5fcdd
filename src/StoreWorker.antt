-- ===== src/StoreWorker.antt =====
-- torch_mojo_backend/distributed/store_worker.py, `StoreWorker`: store operations on a thread that
-- is abandoned when one of them overruns. One thread calls `run`, as the flight recorder's monitor
-- and the watchdog's reporter do; the worker's threads run beside it.
pub mod Threads
use torch_mojo_backend.Prelude.{
  ℕ, ◌+◌, ◌-◌, Bool, true, false, not, Option, none, some, List, [], ◌∷◌, ◌++◌, ltb, leb,
  if◌then◌else◌,
}

-- `serving` is the thread of `_jobs`, `blocked` the abandoned threads whose operation has not
-- returned, `waits` whether a call of `run` waits for its job, and `next` the next thread's name.
-- `limit` is `max_abandoned`, `stuck` is `_stuck`.
pub record Worker : Type 0 where
  pub limit : Option ℕ
  pub stuck : ℕ
  pub serving : Option ℕ
  pub blocked : List ℕ
  pub waits : Bool
  pub next : ℕ

-- `StoreWorker.__init__`
abbrev pub new_worker : Option ℕ → Worker
new_worker limit = record {
  limit = limit;
  stuck = 0;
  serving = none;
  blocked = [];
  waits = false;
  next = 0;
}

abbrev pub is_full : Option ℕ → ℕ → Bool
is_full none stuck = false
is_full (some most) stuck = leb most stuck

abbrev pub with_thread : Option ℕ → Worker → Worker
with_thread none w = record w { serving = some w.next; next = w.next + 1; waits = true }
with_thread (some t) w = record w { waits = true }

-- `run`, up to its wait: a full worker returns `None` at once.
unfoldable pub run_begin : Worker → Worker
run_begin w = if is_full w.limit w.stuck then w else with_thread w.serving w

-- The wait of `run` ends with the job done, which leaves the thread for the next one.
unfoldable pub run_done : Worker → Worker
run_done w = record w { waits = false }

abbrev pub abandoned : Option ℕ → Worker → Worker
abandoned none w = record w { waits = false }
abandoned (some t) w = record w {
  stuck = w.stuck + 1;
  serving = none;
  blocked = t ∷ w.blocked;
  waits = false;
}

-- The wait of `run` ends first: the thread is abandoned, and its queue closed.
unfoldable pub run_overrun : Worker → Worker
run_overrun w = abandoned w.serving w

-- An abandoned thread's operation returns, and the thread exits.
unfoldable pub late_return : (before after : List ℕ) → Worker → Worker
late_return before after w = record w { stuck = w.stuck - 1; blocked = before ++ after }

-- `close`: the thread of the queue exits.
unfoldable pub close : Worker → Worker
close w = record w { serving = none }

-- What a job leaves in its box: dropped as stale, its result, or an exception.
pub data Box (A : Type 0) : Type 0 where
  dropped raised : Box A
  value : A → Box A

-- `_serve`, for one job of index generation `gen`
unfoldable pub serve_job : {A : Type 0} → Option ℕ → ℕ → Box A → Box A
serve_job none latest outcome = outcome
serve_job (some gen) latest outcome = if ltb gen latest then dropped else outcome

-- What `run` returns of a job that is done.
unfoldable pub run_result : {A : Type 0} → Box A → Option A
run_result dropped = none
run_result raised = none
run_result (value a) = some a
