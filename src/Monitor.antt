-- ===== src/Monitor.antt =====
-- torch_mojo_backend/distributed/flight_recorder.py, `_Poller` and the module's `claim` and
-- `finish`: which stores the process watches, and the state object of each. Objects are positions
-- in `heap`; store keys, groups and nonces are numbers. What a store answers is an argument.
pub mod Tables
pub mod Watched
pub mod Polls
pub mod History
pub mod Signals
pub mod Incident
use torch_mojo_backend.Prelude.{
  ℕ, zero, suc, ◌+◌, ◌*◌, max, min, Bool, true, false, not, ◌&&◌, ◌||◌, Option, none, some, List,
  [], ◌∷◌, ◌++◌, ◌==◌, leb, if◌then◌else◌, any, is_empty, length, get_elem?,
}
use torch_mojo_backend.Prelude.Sets.{diff, sort}
use torch_mojo_backend.DumpState
use torch_mojo_backend.DumpState.{StoreState, TorchKey, seen, unseen, new_state, backoff}

-- A dictionary, in the order of insertion.
module _ {A : Type 0} where
  unfoldable pub find : List (ℕ × A) → ℕ → Option A
  find [] k = none
  find ((x, a) ∷ d) k = let rest = find d k in if x == k then some a else rest

  -- `d[k] = a`
  unfoldable pub put : List (ℕ × A) → ℕ → A → List (ℕ × A)
  put [] k a = (k, a) ∷ []
  put ((x, b) ∷ d) k a = let rest = put d k a in if x == k then (x, a) ∷ d else (x, b) ∷ rest

  -- `d.pop(k, None)`
  unfoldable pub pop : List (ℕ × A) → ℕ → List (ℕ × A)
  pop [] k = []
  pop ((x, b) ∷ d) k = let rest = pop d k in if x == k then d else (x, b) ∷ rest

  -- What an object becomes under a call; a position out of bounds changes nothing.
  unfoldable pub alter : List A → ℕ → (A → A) → List A
  alter [] i f = []
  alter (x ∷ xs) zero f = f x ∷ xs
  alter (x ∷ xs) (suc i) f = x ∷ alter xs i f

-- What a store answers: its incarnation, its generation, and whether torch's key is there.
pub record Answer : Type 0 where
  pub nonce : ℕ
  pub generation : ℕ
  pub has_key : Bool

-- `groups` has each group's store key and global rank.
pub record Poller : Type 0 where
  pub groups : List (ℕ × (ℕ × ℕ))
  pub states : List (ℕ × ℕ)
  pub heap : List StoreState

-- `_Poller.__init__`
abbrev pub new_poller : Poller
new_poller = record { groups = []; states = []; heap = [] }

-- `self.states[key] = state`, for a new object
abbrev pub install : ℕ → StoreState → Poller → Poller
install key state p = record p {
  states = put p.states key (length p.heap);
  heap = p.heap ++ state ∷ [];
}

abbrev pub first_state : Option Answer → StoreState
first_state none = new_state none none false
first_state (some a) = new_state (some a.nonce) (some a.generation) a.has_key

abbrev pub restarted : Answer → StoreState
restarted a = new_state (some a.nonce) (some 0) false

-- `attach`, where the key has a state with incarnation `nonce`
abbrev pub refresh : ℕ → Option ℕ → Answer → Poller → Poller
refresh key none a p = install key (first_state (some a)) p
refresh key (some nonce) a p = if nonce == a.nonce then p else install key (restarted a) p

abbrev pub nonce_of : Option StoreState → Option ℕ
nonce_of none = none
nonce_of (some s) = s.nonce

unfoldable pub attach_state : ℕ → Option ℕ → Option Answer → Poller → Poller
attach_state key none read p = install key (first_state read) p
attach_state key (some id) none p = p
attach_state key (some id) (some a) p = refresh key (nonce_of (get_elem? p.heap id)) a p

-- `attach(group, store, rank)`; `read` is `none` where the store was not read
unfoldable pub attach : ℕ → ℕ → ℕ → Option Answer → Poller → Poller
unfolding attach_state
attach group key rank read p =
    let q = attach_state key (find p.states key) read p in
    record q { groups = put q.groups group (key, rank) }

abbrev pub has_group : ℕ → List (ℕ × (ℕ × ℕ)) → Bool
has_group key groups = any (λ e. e.1.0 == key) groups

abbrev pub forget_at : Option (ℕ × ℕ) → List (ℕ × (ℕ × ℕ)) → List (ℕ × ℕ) → List (ℕ × ℕ)
forget_at none groups states = states
forget_at (some (key, rank)) groups states = if has_group key groups then states else pop states key

-- `detach(group)`
unfoldable pub detach : ℕ → Poller → Poller
detach group p =
    let groups = pop p.groups group in
    record p { groups = groups; states = forget_at (find p.groups group) groups p.states }

-- `_poll_backoff_cap()`: a quarter of the dump wait, which is given in milliseconds, is as many
-- quarter milliseconds.
abbrev pub poll_cap : ℕ → ℕ
poll_cap wait_ms = min DumpState.max_backoff wait_ms

-- `poll` asks the store unless an abandoned job still blocks or the state's backoff has not passed.
abbrev pub asks : Bool → ℕ → StoreState → Bool
asks stuck now s = not stuck && leb s.poll_at now

-- What a poll serves, with the object its claim was made on.
pub record Plan : Type 0 where
  pub object : ℕ
  pub gens : List ℕ
  pub torch_signal : Bool
  pub unacked : List ℕ

abbrev pub is_unseen : TorchKey → Bool
is_unseen seen = false
is_unseen unseen = true

abbrev pub differs : ℕ → Option ℕ → Bool
differs gen none = true
differs gen (some first) = not (gen == first)

-- Generations serve torch's key too once one was signalled.
abbrev pub mark_seen : ℕ → StoreState → StoreState
mark_seen gen s = if differs gen s.first then record s { torch = seen } else s

-- The locked part of `poll` on the state that serves the answer, at time `now`
unfoldable pub serve : ℕ → Answer → StoreState → StoreState × (List ℕ × Bool)
serve now a s =
    let (t, gens) = DumpState.claim (mark_seen a.generation s) now a.generation in
    (
      t,
      (
        gens,
        is_empty gens
            && a.has_key
            && is_unseen t.torch
            && (not t.torch_tried || leb t.dump_retry_at now),
      ),
    )

abbrev pub slower : (coord cap now : ℕ) → StoreState → StoreState
slower coord cap now s =
    let wait = min (max (2 * s.poll_backoff) coord) cap in
    record s { poll_backoff = wait; poll_at = now + wait }

abbrev pub serve_at : ℕ → ℕ → Answer → Option StoreState → Poller → Poller × Option Plan
serve_at id now a none p = (p, none)
serve_at id now a (some s) p =
    let (t, (gens, torch)) = serve now a s in
    (
      record p { heap = alter p.heap id λ _. t },
      some (record { object = id; gens = gens; torch_signal = torch; unacked = sort t.unacked }),
    )

abbrev pub serve_object : ℕ → ℕ → Answer → Poller → Poller × Option Plan
serve_object id now a p = serve_at id now a (get_elem? p.heap id) p

abbrev pub answered : ℕ → ℕ → ℕ → Answer → Option ℕ → Poller → Poller × Option Plan
answered key id now a none p = (install key (first_state (some a)) p, none)
answered key id now a (some nonce) p =
    if nonce == a.nonce
    then serve_object id now a p
    else serve_object (length p.heap) now a (install key (restarted a) p)

abbrev pub is_at : Option ℕ → ℕ → Bool
is_at none id = false
is_at (some x) id = x == id

-- `poll` from the store's answer to the end of its first locked block; `stuck` is `worker.stuck`.
unfoldable pub poll_begin :
    (coord cap now : ℕ)
    → (stuck : Bool) → (key id : ℕ) → Option Answer
    → Poller
    → Poller × Option Plan
unfolding serve
poll_begin coord cap now stuck key id none p = (
  if is_at (find p.states key) id && not stuck
      then record p { heap = alter p.heap id (slower coord cap now) }
      else p,
  none,
)
poll_begin coord cap now stuck key id (some a) p =
    let q = record p { heap = alter p.heap id λ s. record s { poll_backoff = 0 } } in
    if is_at (find p.states key) id
    then answered key id now a (nonce_of (get_elem? p.heap id)) q
    else (p, none)

-- `state.unacked -= set(unacked)`, once the store has the acknowledgements
unfoldable pub acknowledge : Plan → Poller → Poller
acknowledge plan p = record p {
  heap = alter p.heap plan.object λ s. record s { unacked = diff s.unacked plan.unacked };
}

abbrev pub torch_dumped : (coord now : ℕ) → Bool → StoreState → StoreState
torch_dumped coord now dumped s =
    backoff coord dumped now
      (record s { torch_tried = true; torch = if dumped then seen else s.torch })

-- The end of `poll`, once the dump was tried at time `now`
unfoldable pub poll_end : (coord now : ℕ) → Plan → (dumped acked : Bool) → Poller → Poller
poll_end coord now plan dumped acked p = record p {
  heap =
      if not (is_empty plan.gens)
      then alter p.heap plan.object (DumpState.finish coord now plan.gens dumped acked)
      else if plan.torch_signal
      then alter p.heap plan.object (torch_dumped coord now dumped)
      else p.heap;
}

-- `Claim`: without a state the caller serves the one generation.
pub record Claim : Type 0 where
  pub object : Option ℕ
  pub gens : List ℕ

abbrev pub claim_object : (now upto : ℕ) → Option ℕ → Option StoreState → Poller → Poller × Claim
claim_object now upto (some id) (some s) p = (
  record p { heap = alter p.heap id λ _. (DumpState.claim s now upto).0 },
  record { object = some id; gens = (DumpState.claim s now upto).1 },
)
claim_object now upto _ _ p = (p, record { object = none; gens = upto ∷ [] })

abbrev pub object_at : Option ℕ → Poller → Option StoreState
object_at none p = none
object_at (some id) p = get_elem? p.heap id

-- `claim(store, upto)` with a monitor
unfoldable pub claim_store : (now key upto : ℕ) → Poller → Poller × Claim
claim_store now key upto p =
    let id = find p.states key in claim_object now upto id (object_at id p) p

abbrev finish_object : (coord now : ℕ) → Option ℕ → List ℕ → (dumped acked : Bool) → Poller → Poller
finish_object coord now none gens dumped acked p = p
finish_object coord now (some id) gens dumped acked p = record p {
  heap = alter p.heap id (DumpState.finish coord now gens dumped acked);
}

-- `finish(claimed, dumped, acked)`
unfoldable pub finish_store : (coord now : ℕ) → Claim → (dumped acked : Bool) → Poller → Poller
finish_store coord now claimed dumped acked p =
    finish_object coord now claimed.object claimed.gens dumped acked p
