-- ===== src/DumpState/Backoff.antt =====
-- `_StoreState.backoff`: how long a dump that fails is put off.
use torch_mojo_backend.Prelude.{ℕ, zero, suc, ◌+◌, ◌*◌, ◌^◌, ◌≤◌, ◌≡◌, false, arith, min}
use torch_mojo_backend.DumpState.{StoreState, backoff, max_backoff}
use native.Mathlib.Nat.{pow-suc}

-- `n` failures in a row, at the times that `clock` gives.
pub failures : ℕ → (ℕ → ℕ) → ℕ → StoreState → StoreState
failures coord clock zero s = s
failures coord clock (suc n) s = backoff coord false (clock n) (failures coord clock n s)

twice : (coord n : ℕ) → coord * 2 ^ suc n ≡ 2 * (coord * 2 ^ n)
twice coord n = rw pow-suc (omega arith)

le-doubled : (coord n : ℕ) → coord ≤ coord * 2 ^ n
le-doubled coord zero = omega arith
le-doubled coord (suc n) = omega (arith, twice coord n, le-doubled coord n)

-- After `n + 1` failures in a row the wait is the polling interval doubled `n` times, or a minute
-- if that is less, and the next try is due that long after the last failure.
pub failures_wait :
    (coord n : ℕ) (clock : ℕ → ℕ) (s : StoreState)
    → coord ≤ max_backoff
    → s.dump_backoff ≡ 0
    → let r = failures coord clock (suc n) s in
      (r.dump_backoff ≡ min (coord * 2 ^ n) max_backoff)
      × (r.dump_retry_at ≡ clock n + min (coord * 2 ^ n) max_backoff)
unfolding failures backoff
failures_wait coord zero clock s h e = rw e (omega arith)
failures_wait coord (suc n) clock s h e =
    let before = (failures_wait coord n clock s h e).0 in
    omega (arith, before, twice coord n, le-doubled coord n)
