-- ===== src/Watchdog/Pipes.antt =====
-- torch_mojo_backend/distributed/process_group.py: the descriptors of the watchdogs' pipes
-- (`_WATCHDOG_FDS`), which `_start_watchdog` opens, `shutdown` and the reporter close, and a forked
-- child closes its copies of. A number stands for an opened end, and no two for one.
use torch_mojo_backend.Prelude.{
  ℕ, ◌+◌, ◌-◌, ◌≤◌, ◌<◌, ◌≡◌, refl, ap, List, [], ◌∷◌, ◌++◌, ◌==◌, ltb, if◌then◌else◌, arith,
}
use torch_mojo_backend.Prelude.Sets.{elem, diff}

unfoldable pub count : ℕ → List ℕ → ℕ
count x [] = 0
count x (y ∷ ys) = (if x == y then 1 else 0) + count x ys

-- In how many of the lists, with how often in each
unfoldable pub held_in : ℕ → List (List ℕ) → ℕ
unfolding count
held_in x [] = 0
held_in x (fds ∷ ls) = count x fds + held_in x ls

-- `closes` has every `os.close`. `groups` and `reporters` have what each group (`_watchdog_fds`) and each
-- reporter thread has to close, `lost` what a start that raised gave to no thread.
pub record Descriptors : Type 0 where
  pub opened : ℕ
  pub watchdog_fds : List ℕ
  pub closes : List ℕ
  pub groups : List (List ℕ)
  pub reporters : List (List ℕ)
  pub lost : List (List ℕ)

abbrev pub none_open : Descriptors
none_open = record {
  opened = 0;
  watchdog_fds = [];
  closes = [];
  groups = [];
  reporters = [];
  lost = [];
}

-- `_watchdog_pipe`, when `os.pipe` does not raise
unfoldable pub watchdog_pipe : Descriptors → Descriptors
watchdog_pipe d = record d {
  opened = d.opened + 2;
  watchdog_fds = d.opened ∷ (d.opened + 1) ∷ d.watchdog_fds;
}

-- `_close_watchdog_fd`
unfoldable pub close_watchdog_fd : ℕ → Descriptors → Descriptors
unfolding diff elem
close_watchdog_fd fd d = record d {
  watchdog_fds = diff d.watchdog_fds (fd ∷ []);
  closes = fd ∷ d.closes;
}

unfoldable pub close_each : List ℕ → Descriptors → Descriptors
unfolding close_watchdog_fd
close_each [] d = d
close_each (fd ∷ fds) d = close_each fds (close_watchdog_fd fd d)

-- What happens in `_start_watchdog`: it is off, `os.pipe` raises at the first or the second call, the
-- native watchdog does not start, the recorder or the registration raises, or the reporter is started.
pub data Start : Type 0 where
  off first_raises second_raises refused attach_raises started : Start

-- The pipes of `_start_watchdog`
unfoldable pub start_watchdog : Start → Descriptors → Descriptors
unfolding watchdog_pipe close_each
start_watchdog off d = d
start_watchdog first_raises d = d
start_watchdog second_raises d = close_each (d.opened ∷ (d.opened + 1) ∷ []) (watchdog_pipe d)
start_watchdog refused d =
    close_each (d.opened ∷ (d.opened + 1) ∷ (d.opened + 2) ∷ (d.opened + 3) ∷ [])
      (watchdog_pipe (watchdog_pipe d))
start_watchdog attach_raises d = record (watchdog_pipe (watchdog_pipe d)) {
  groups = ((d.opened + 1) ∷ (d.opened + 2) ∷ []) ∷ d.groups;
  lost = (d.opened ∷ (d.opened + 3) ∷ []) ∷ d.lost;
}
start_watchdog started d = record (watchdog_pipe (watchdog_pipe d)) {
  groups = ((d.opened + 1) ∷ (d.opened + 2) ∷ []) ∷ d.groups;
  reporters = (d.opened ∷ (d.opened + 3) ∷ []) ∷ d.reporters;
}

-- `_after_fork_in_child`: no thread is left, and the groups' `shutdown` closes nothing here.
unfoldable pub after_fork_in_child : Descriptors → Descriptors
after_fork_in_child d = record d {
  watchdog_fds = [];
  closes = d.watchdog_fds ++ d.closes;
  groups = [];
  reporters = [];
  lost = [];
}

-- Any group may start, shut down or be collected, any reporter may end, and the process may fork.
pub data Step (d : Descriptors) : Descriptors → Type 0 where
  starts : (a : Start) → Step d (start_watchdog a d)
  shuts_down :
      (before after : List (List ℕ)) (fds : List ℕ)
      → d.groups ≡ before ++ fds ∷ after
      → Step d (record (close_each fds d) { groups = before ++ after })
  reporter_ends :
      (before after : List (List ℕ)) (fds : List ℕ)
      → d.reporters ≡ before ++ fds ∷ after
      → Step d (record (close_each fds d) { reporters = before ++ after })
  forks : Step d (after_fork_in_child d)

pub data Reach (d : Descriptors) : Descriptors → Type 0 where
  here : Reach d d
  next : {e f : Descriptors} → Reach d e → Step e f → Reach d f

-- An opened end is in `_WATCHDOG_FDS` until it is closed, and somebody has to close it until then.
abbrev owners : ℕ → Descriptors → ℕ
owners x d = held_in x d.groups + held_in x d.reporters + held_in x d.lost

record Inv (d : Descriptors) : Type 0 where
  listed : (x : ℕ) → count x d.watchdog_fds + count x d.closes ≡ (if ltb x d.opened then 1 else 0)
  owned : (x : ℕ) → owners x d + count x d.closes ≡ (if ltb x d.opened then 1 else 0)

held_in-append : (x : ℕ) (a b : List (List ℕ)) → held_in x (a ++ b) ≡ held_in x a + held_in x b
unfolding held_in
held_in-append x [] b = omega arith
held_in-append x (fds ∷ a) b = omega (arith, held_in-append x a b)

count-append : (x : ℕ) (a b : List ℕ) → count x (a ++ b) ≡ count x a + count x b
unfolding count
count-append x [] b = omega arith
count-append x (y ∷ a) b = omega (arith, count-append x a b)

count-diff : (x y : ℕ) (a : List ℕ) → count x (diff a (y ∷ [])) ≡ (if x == y then 0 else count x a)
unfolding count diff elem
count-diff x y [] = ground arith
count-diff x y (z ∷ a) = ground (arith, count-diff x y a)

-- What a loop of closes does, for ends that are open and differ
close_each-counts :
    (fds : List ℕ) (d : Descriptors)
    → ((x : ℕ) → count x fds ≤ count x d.watchdog_fds)
    → ((x : ℕ) → count x d.watchdog_fds ≤ 1)
    → (x : ℕ)
    → (count x (close_each fds d).watchdog_fds + count x fds ≡ count x d.watchdog_fds)
      × (count x (close_each fds d).closes ≡ count x fds + count x d.closes)
unfolding close_each count
close_each-counts [] d i u x = omega arith
close_each-counts (fd ∷ fds) d i u x =
    let rest =
      close_each-counts fds (close_watchdog_fd fd d)
        (λ y. ground (arith, count-diff y fd d.watchdog_fds, i y, u y))
        (λ y. ground (arith, count-diff y fd d.watchdog_fds, u y)) x in
    ground (arith, rest, count-diff x fd d.watchdog_fds, i x, u x)

close_each-rest :
    (fds : List ℕ) (d : Descriptors)
    → ((close_each fds d).opened ≡ d.opened)
      × ((close_each fds d).groups ≡ d.groups)
      × ((close_each fds d).reporters ≡ d.reporters)
      × ((close_each fds d).lost ≡ d.lost)
unfolding close_each
close_each-rest [] d = (refl, refl, refl, refl)
close_each-rest (fd ∷ fds) d = close_each-rest fds (close_watchdog_fd fd d)

-- Closing ends that one owner of them lets go of
close_each-Inv :
    (fds : List ℕ) (d e : Descriptors)
    → ((x : ℕ) → owners x d ≡ owners x e + count x fds)
    → e.opened ≡ d.opened
    → e.watchdog_fds ≡ (close_each fds d).watchdog_fds
    → e.closes ≡ (close_each fds d).closes
    → Inv d
    → Inv e
close_each-Inv fds d e o n w c v = record {
  listed = λ x. ground (arith, closed x, v.listed x, n, ap (count x) w, ap (count x) c);
  owned = λ x. ground (arith, closed x, v.owned x, o x, n, ap (count x) c);
}
  where
    closed :
        (x : ℕ)
        → (count x (close_each fds d).watchdog_fds + count x fds ≡ count x d.watchdog_fds)
          × (count x (close_each fds d).closes ≡ count x fds + count x d.closes)
    closed =
        close_each-counts fds d (λ x. ground (arith, v.listed x, v.owned x, o x))
          (λ x. ground (arith, v.listed x))

-- Two ends just opened, and four, that nobody else has
abbrev taken : List ℕ → Descriptors → Descriptors
taken fds d = record d { lost = fds ∷ d.lost }

two-Inv : (d : Descriptors) → Inv d → Inv (taken (d.opened ∷ (d.opened + 1) ∷ []) (watchdog_pipe d))
unfolding watchdog_pipe count held_in
two-Inv d v = record {
  listed = λ x. ground (arith, v.listed x);
  owned = λ x. ground (arith, v.owned x, v.listed x);
}

four-Inv :
    (d : Descriptors)
    → Inv d
    → Inv (
        taken
          (d.opened ∷ (d.opened + 1) ∷ (d.opened + 2) ∷ (d.opened + 3) ∷ [])
          (watchdog_pipe (watchdog_pipe d)))
unfolding watchdog_pipe count held_in
four-Inv d v = record {
  listed = λ x. ground (arith, v.listed x);
  owned = λ x. ground (arith, v.owned x, v.listed x);
}

start_watchdog-Inv : (a : Start) (d : Descriptors) → Inv d → Inv (start_watchdog a d)
unfolding start_watchdog watchdog_pipe close_each count held_in
start_watchdog-Inv off d v = v
start_watchdog-Inv first_raises d v = v
start_watchdog-Inv second_raises d v =
    let fds = d.opened ∷ (d.opened + 1) ∷ [] in
    close_each-Inv fds (taken fds (watchdog_pipe d)) (close_each fds (watchdog_pipe d))
      (λ x. omega arith) refl refl refl (two-Inv d v)
start_watchdog-Inv refused d v =
    let fds = d.opened ∷ (d.opened + 1) ∷ (d.opened + 2) ∷ (d.opened + 3) ∷ [] in
    close_each-Inv fds (taken fds (watchdog_pipe (watchdog_pipe d)))
      (close_each fds (watchdog_pipe (watchdog_pipe d))) (λ x. omega arith) refl refl refl
      (four-Inv d v)
start_watchdog-Inv attach_raises d v = record {
  listed = λ x. ground (arith, v.listed x);
  owned = λ x. ground (arith, v.owned x, v.listed x);
}
start_watchdog-Inv started d v = record {
  listed = λ x. ground (arith, v.listed x);
  owned = λ x. ground (arith, v.owned x, v.listed x);
}

after_fork_in_child-Inv : (d : Descriptors) → Inv d → Inv (after_fork_in_child d)
unfolding after_fork_in_child held_in count
after_fork_in_child-Inv d v = record {
  listed = λ x. ground (arith, count-append x d.watchdog_fds d.closes, v.listed x);
  owned = λ x. ground (arith, count-append x d.watchdog_fds d.closes, v.listed x);
}

Step-Inv : {d e : Descriptors} → Step d e → Inv d → Inv e
unfolding held_in count
Step-Inv {d} (starts a) v = start_watchdog-Inv a d v
Step-Inv {d} (shuts_down before after fds e) v =
    let r = close_each-rest fds d in
    close_each-Inv fds d (record (close_each fds d) { groups = before ++ after })
      (λ x. ground (
        arith,
        ap (held_in x) e,
        r,
        held_in-append x before (fds ∷ after),
        held_in-append x before after,
      ))
      r.0 refl refl v
Step-Inv {d} (reporter_ends before after fds e) v =
    let r = close_each-rest fds d in
    close_each-Inv fds d (record (close_each fds d) { reporters = before ++ after })
      (λ x. ground (
        arith,
        ap (held_in x) e,
        r,
        held_in-append x before (fds ∷ after),
        held_in-append x before after,
      ))
      r.0 refl refl v
Step-Inv {d} forks v = after_fork_in_child-Inv d v

Reach-Inv : {d e : Descriptors} → Inv d → Reach d e → Inv e
Reach-Inv v here = v
Reach-Inv v (next r s) = Step-Inv s (Reach-Inv v r)

none_open-Inv : Inv none_open
unfolding count held_in
none_open-Inv = record { listed = λ x. ground arith; owned = λ x. ground arith }

-- After any sequence of starts of watchdogs, shutdowns of groups, ends of reporters and forks, in this
-- process or in a child, whatever raises: no end of a pipe has been closed twice, and an opened end is in
-- `_WATCHDOG_FDS` exactly while it is open.
pub pipes_closed_once :
    {d : Descriptors}
    → Reach none_open d
    → (x : ℕ)
    → (count x d.closes ≤ 1)
      × (count x d.watchdog_fds ≡ (if ltb x d.opened then 1 - count x d.closes else 0))
pipes_closed_once r x =
    let v = Reach-Inv none_open-Inv r in (ground (arith, v.listed x), ground (arith, v.listed x))

-- After any such sequence, where each group is shut down, each reporter has ended, and no start raised
-- behind the native watchdog's start, every opened end is closed.
pub pipes_all_closed :
    {d : Descriptors}
    → Reach none_open d
    → d.groups ≡ []
    → d.reporters ≡ []
    → d.lost ≡ []
    → (x : ℕ) → x < d.opened
    → count x d.closes ≡ 1
unfolding held_in
pipes_all_closed r g p l x b =
    let v = Reach-Inv none_open-Inv r in
    ground (arith, v.owned x, ap (held_in x) g, ap (held_in x) p, ap (held_in x) l)
