-- ===== src/Watchdog.antt =====
-- torch_mojo_backend/distributed/process_group.py: the registry of the watchdogs that run
-- (`_LIVE_WATCHDOGS`, `_Live`), the exit hook `_stop_watchdogs`, and `MojoProcessGroup.shutdown`, in
-- any interleaving. A group and its `_Live` object are one number, `id(self)` is its key. One thread at
-- a time shuts a group down.
pub mod Exit
pub mod Pipes
use torch_mojo_backend.Prelude.{
  update, ℕ, suc, ◌+◌, ◌-◌, ◌≡◌, Bool, true, false, Option, none, some, List, [], ◌∷◌, ◌==◌,
  if◌then◌else◌, is_some,
}
use torch_mojo_backend.Prelude.Sets.{elem}

-- Before `_start_watchdog`, behind it, in the wait loop of `shutdown`, and behind `core.destroy`
pub data Stage : Type 0 where
  unborn alive waiting gone : Stage

-- Where the thread of the exit hook stands: at the keys that are left, with a group whose `users` it has
-- raised, between its test of `dead` and the native call, in `core.watchdog_exit`, behind that, or
-- behind the hook.
pub data Hook : Type 0 where
  idle : Hook
  visiting : List ℕ → Hook
  holding tested calling called : ℕ → List ℕ → Hook
  ended : Hook

-- `entry` is `_LIVE_WATCHDOGS`; `popped` is what `shutdown` took out of it.
pub record Process : Type 0 where
  pub entry : ℕ → Option ℕ
  pub key : ℕ → ℕ
  pub users : ℕ → ℕ
  pub dead : ℕ → Bool
  pub stage : ℕ → Stage
  pub popped : ℕ → Option ℕ
  pub hook : Hook

abbrev pub new_process : Process
new_process = record {
  entry = λ k. none;
  key = λ g. 0;
  users = λ g. 0;
  dead = λ g. false;
  stage = λ g. unborn;
  popped = λ g. none;
  hook = idle;
}

-- The registration at the end of `_start_watchdog`
unfoldable pub register : ℕ → ℕ → Process → Process
register g k p = record p {
  entry = update p.entry k (some g);
  key = update p.key g k;
  users = update p.users g 0;
  dead = update p.dead g false;
  stage = update p.stage g alive;
}

-- The hook's next step, on the registry as it is then. With no key left it clears the registry.
unfoldable pub hook_step : Process → Process
hook_step p = elim p.hook [
  | idle ↦ p
  | visiting [] ↦ record p { entry = λ k. none; hook = ended }
  | visiting (k ∷ ks) ↦ elim (p.entry k) [
    | none ↦ record p { hook = visiting ks }
    | some g ↦ record p { users = update p.users g (p.users g + 1); hook = holding g ks }
  ]
  | holding g ks ↦
      if p.dead g then record p { hook = called g ks } else record p { hook = tested g ks }
  | tested g ks ↦ record p { hook = calling g ks }
  | calling g ks ↦ record p { hook = called g ks }
  | called g ks ↦ record p { users = update p.users g (p.users g - 1); hook = visiting ks }
  | ended ↦ p
]

-- `shutdown` on a thread that is not the hook's, up to its wait
unfoldable pub shutdown_begin : ℕ → Process → Process
shutdown_begin g p = record p {
  entry = update p.entry (p.key g) none;
  popped = update p.popped g (p.entry (p.key g));
  stage = update p.stage g waiting;
}

-- Whether the loop `while live is not None and live.users` ends
abbrev pub is_released : Option ℕ → (ℕ → ℕ) → Bool
is_released none users = true
is_released (some live) users = users live == 0

-- Behind the loop: `core.destroy`
unfoldable pub shutdown_end : ℕ → Process → Process
shutdown_end g p = record p { stage = update p.stage g gone }

abbrev pub mark_dead : Option ℕ → (ℕ → Bool) → ℕ → Bool
mark_dead none dead = dead
mark_dead (some live) dead = update dead live true

-- `shutdown` on the hook's thread, by a `__del__`: it does not wait.
unfoldable pub shutdown_nested : ℕ → Process → Process
shutdown_nested g p = record p {
  entry = update p.entry (p.key g) none;
  dead = mark_dead (p.entry (p.key g)) p.dead;
  stage = update p.stage g gone;
}

-- A `__del__` can run on the hook's thread where it is in the hook, but in no native call. Whether one
-- can run while the native call is prepared is up to the interpreter, and so a parameter.
abbrev pub takes_del : (prepared : Bool) → Hook → Bool
takes_del prepared idle = false
takes_del prepared (visiting ks) = true
takes_del prepared (holding g ks) = true
takes_del prepared (tested g ks) = prepared
takes_del prepared (calling g ks) = false
takes_del prepared (called g ks) = true
takes_del prepared ended = true

-- What any thread may do next. Groups that are alive have their own `id`.
pub data Step (prepared : Bool) (p : Process) : Process → Type 0 where
  registers :
      (g k : ℕ)
      → p.stage g ≡ unborn
      → ((h : ℕ) → p.stage h ≡ alive → (p.key h == k) ≡ false)
      → Step prepared p (register g k p)
  exits :
      (ks : List ℕ)
      → p.hook ≡ idle
      → ((k : ℕ) → elem k ks ≡ is_some (p.entry k))
      → Step prepared p (record p { hook = visiting ks })
  hooks : Step prepared p (hook_step p)
  begins : (g : ℕ) → p.stage g ≡ alive → Step prepared p (shutdown_begin g p)
  ends :
      (g : ℕ)
      → p.stage g ≡ waiting
      → is_released (p.popped g) p.users ≡ true
      → Step prepared p (shutdown_end g p)
  deletes :
      (g : ℕ)
      → p.stage g ≡ alive
      → takes_del prepared p.hook ≡ true
      → Step prepared p (shutdown_nested g p)

pub data Reach (prepared : Bool) (p : Process) : Process → Type 0 where
  here : Reach prepared p p
  next : {q r : Process} → Reach prepared p q → Step prepared q r → Reach prepared p r
