-- ===== src/StoreWorker/Threads.antt =====
-- How many threads and store clients a worker can have at once.
use torch_mojo_backend.Prelude.{
  ℕ, ◌+◌, ◌≤◌, ◌<◌, ◌≡◌, refl, ap, ◌∙◌, Bool, true, false, Option, none, some, List, ◌∷◌, ◌++◌,
  arith, if◌then◌else◌, length, length-append, is_some,
}
use torch_mojo_backend.StoreWorker.{
  Worker, new_worker, is_full, with_thread, run_begin, run_done, abandoned, run_overrun,
  late_return, close,
}

-- What the caller and the worker's threads do. A call waits for at most one job; the worker is
-- closed between two calls.
pub data Step (w : Worker) : Worker → Type 0 where
  begins : w.waits ≡ false → Step w (run_begin w)
  done : w.waits ≡ true → Step w (run_done w)
  overruns : w.waits ≡ true → Step w (run_overrun w)
  returns :
      (before after : List ℕ) (t : ℕ)
      → w.blocked ≡ before ++ t ∷ after
      → Step w (late_return before after w)
  closes : w.waits ≡ false → Step w (close w)

pub data Reach (w : Worker) : Worker → Type 0 where
  here : Reach w w
  next : {v u : Worker} → Reach w v → Step v u → Reach w u

-- The threads that have not exited.
pub alive : Worker → ℕ
alive w = length w.blocked + (if is_some w.serving then 1 else 0)

record Counted (limit : ℕ) (w : Worker) : Type 0 where
  fixed : w.limit ≡ some limit
  count : w.stuck ≡ length w.blocked
  bound : alive w ≤ limit

module _ (limit : ℕ) where
  with_thread-Counted :
      (o : Option ℕ) (w : Worker)
      → w.serving ≡ o
      → w.stuck < limit
      → Counted limit w
      → Counted limit (with_thread o w)
  unfolding alive
  with_thread-Counted none w e h c = record {
    fixed = c.fixed;
    count = c.count;
    bound = omega (arith, c.count);
  }
  with_thread-Counted (some t) w e h c = record {
    fixed = c.fixed;
    count = c.count;
    bound = c.bound;
  }

  begun :
      (b : Bool) (w : Worker)
      → (b ≡ false → w.stuck < limit)
      → Counted limit w
      → Counted limit (if b then w else with_thread w.serving w)
  begun true w h c = c
  begun false w h c = with_thread-Counted w.serving w refl (h refl) c

  room : (o : Option ℕ) (stuck : ℕ) → o ≡ some limit → is_full o stuck ≡ false → stuck < limit
  room none stuck e h = cc e
  room (some most) stuck e h = ground (arith, same e)
    where
      same : some most ≡ some limit → most ≡ limit
      same q = cc q

  overrun-Counted :
      (o : Option ℕ) (w : Worker) → w.serving ≡ o → Counted limit w → Counted limit (abandoned o w)
  unfolding alive
  overrun-Counted none w e c = record { fixed = c.fixed; count = c.count; bound = c.bound }
  overrun-Counted (some t) w e c = record {
    fixed = c.fixed;
    count = omega (arith, c.count);
    bound = ground (arith, c.bound, ap (λ (o : Option ℕ). is_some o) e);
  }

  Step-Counted : {w v : Worker} → Step w v → Counted limit w → Counted limit v
  unfolding run_begin run_done run_overrun late_return close alive
  Step-Counted {w} (begins p) c = begun (is_full w.limit w.stuck) w (room w.limit w.stuck c.fixed) c
  Step-Counted {w} (done p) c = record { fixed = c.fixed; count = c.count; bound = c.bound }
  Step-Counted {w} (overruns p) c = overrun-Counted w.serving w refl c
  Step-Counted {w} (returns before after t e) c =
      let shorter : length w.blocked ≡ length (before ++ after) + 1 =
        ap length e ∙ omega (arith, length-append before (t ∷ after), length-append before after) in
      record {
        fixed = c.fixed;
        count = omega (arith, c.count, shorter);
        bound = omega (arith, c.bound, shorter);
      }
  Step-Counted {w} (closes p) c = record {
    fixed = c.fixed;
    count = c.count;
    bound = ground (arith, c.bound);
  }

  Reach-Counted : {w : Worker} → Reach (new_worker (some limit)) w → Counted limit w
  unfolding alive
  Reach-Counted here = record { fixed = refl; count = refl; bound = omega arith }
  Reach-Counted (next r s) = Step-Counted s (Reach-Counted r)

-- A worker that may abandon `limit` jobs never has more than `limit` threads, and so clients,
-- however many of its jobs overrun and whenever the blocked operations return; `_stuck` is the
-- number of threads that are still blocked.
pub threads_bounded :
    (limit : ℕ) {w : Worker}
    → Reach (new_worker (some limit)) w
    → (alive w ≤ limit) × (w.stuck ≡ length w.blocked)
threads_bounded limit r = let c = Reach-Counted limit r in (c.bound, c.count)
