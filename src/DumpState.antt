-- ===== src/DumpState.antt =====
-- torch_mojo_backend/distributed/flight_recorder.py, `_StoreState`: the dump generations of one
-- store incarnation. Times are in quarter milliseconds and each call is given the clock it reads;
-- a nonce, which is only compared, is a number.
pub mod Advance
pub mod Invariant
pub mod Effects
pub mod Serving
pub mod Backoff
pub mod Phases
use torch_mojo_backend.Prelude.{
  ℕ, zero, suc, ◌+◌, ◌*◌, max, min, Bool, true, false, not, ◌&&◌, Option, none, some, List, [], ◌∷◌,
  leb, if◌then◌else◌, get_or, is_empty, length,
}
use torch_mojo_backend.Prelude.Sets.{elem, union, diff, range, sort}

-- "seen" and "unseen": whether torch's own key has been dumped for.
pub data TorchKey : Type 0 where
  seen unseen : TorchKey

pub record StoreState : Type 0 where
  pub nonce : Option ℕ
  pub base : Option ℕ
  pub first : Option ℕ
  pub high : Option ℕ
  pub done : List ℕ
  pub pending : List ℕ
  pub failed : List ℕ
  pub unacked : List ℕ
  pub torch : TorchKey
  pub torch_tried : Bool
  pub dump_backoff : ℕ
  pub dump_retry_at : ℕ
  pub poll_backoff : ℕ
  pub poll_at : ℕ

-- `_StoreState.__init__`
unfoldable pub new_state : Option ℕ → Option ℕ → Bool → StoreState
new_state nonce base torch_seen = record {
  nonce = nonce;
  base = base;
  first = base;
  high = base;
  done = [];
  pending = [];
  failed = [];
  unacked = [];
  torch = if torch_seen then seen else unseen;
  torch_tried = false;
  dump_backoff = 0;
  dump_retry_at = 0;
  poll_backoff = 0;
  poll_at = 0;
}

-- `_MAX_BACKOFF_S`, a minute.
abbrev pub max_backoff : ℕ
max_backoff = 240000

-- Failed generations are tried again once their backoff has passed.
abbrev pub retries : StoreState → ℕ → Bool
retries s now = not (is_empty s.failed) && leb s.dump_retry_at now

-- `claim` where `base` is known: `top`, and the generations that the caller now serves.
unfoldable pub claimed : StoreState → ℕ → ℕ → ℕ → List ℕ
claimed s now top upto =
    let fresh = range (top + 1) (upto + 1) in
    let wanted = if retries s now then union fresh s.failed else fresh in
    diff wanted (union s.done s.pending)

-- The rest of `claim`, with `top` the highest generation claimed before.
unfoldable pub claim_above : StoreState → ℕ → ℕ → ℕ → StoreState × List ℕ
claim_above s now upto top =
    let gens = claimed s now top upto in
    (
      record s {
        failed = if retries s now then [] else s.failed;
        high = some (max top upto);
        pending = union s.pending gens;
      },
      sort gens,
    )

claim_at : StoreState → ℕ → ℕ → Option ℕ → StoreState × List ℕ
claim_at s now upto none = (s, [])
claim_at s now upto (some base) = claim_above s now upto (max (get_or s.high base) base)

-- `_StoreState.claim(upto)` at time `now`
unfoldable pub claim : StoreState → ℕ → ℕ → StoreState × List ℕ
unfolding claim_at
claim s now upto = claim_at s now upto s.base

-- `_StoreState.backoff(ok)` at time `now`; `coord` is `coord_check_s()`.
unfoldable pub backoff : ℕ → Bool → ℕ → StoreState → StoreState
backoff coord true now s = record s { dump_backoff = 0 }
backoff coord false now s =
    let wait = min (max (2 * s.dump_backoff) coord) max_backoff in
    record s { dump_backoff = wait; dump_retry_at = now + wait }

-- `while self.base + 1 in self.done`. Each round takes a member out of `done`, so its length is
-- fuel enough.
unfoldable pub advance : ℕ → ℕ → List ℕ → ℕ × List ℕ
advance zero base done = (base, done)
advance (suc fuel) base done =
    let rest = advance fuel (base + 1) (diff done ((base + 1) ∷ [])) in
    if elem (base + 1) done then rest else (base, done)

unfoldable pub advance_at : StoreState → Option ℕ → StoreState
advance_at s none = s
advance_at s (some base) =
    let moved = advance (length s.done) base s.done in
    record s { base = some moved.0; done = moved.1 }

-- `finish` for a dump that was written
unfoldable pub finish_dumped : List ℕ → Bool → StoreState → StoreState
unfolding advance_at
finish_dumped gens acked s =
    let marked = record s {
      dump_backoff = 0;
      pending = diff s.pending gens;
      failed = diff s.failed gens;
      done = union s.done gens;
    } in
    record (advance_at marked s.base) {
      unacked = if acked then s.unacked else union s.unacked gens;
    }

-- `finish` for a dump that failed
unfoldable pub finish_failed : ℕ → ℕ → List ℕ → StoreState → StoreState
unfolding backoff
finish_failed coord now gens s =
    backoff coord false now
      (record s { pending = diff s.pending gens; failed = union s.failed gens })

-- `_StoreState.finish(gens, dumped, acked)` at time `now`
unfoldable pub finish : ℕ → ℕ → List ℕ → Bool → Bool → StoreState → StoreState
unfolding finish_dumped finish_failed
finish coord now gens dumped acked s =
    if is_empty gens
    then s
    else if dumped
    then finish_dumped gens acked s
    else finish_failed coord now gens s
