-- ===== src/ProcessGroup/Blocks/Grouped.antt =====
-- NCCL groups: what runs inside one, and what closes it.
use torch_mojo_backend.Prelude.{arith, ℕ, ◌-◌, Bool, true, false, ◌∷◌, if◌then◌else◌}
use torch_mojo_backend.ProcessGroup.Types.{Call, Event, Group, depth, copies_safely}
use torch_mojo_backend.ProcessGroup.Types
use torch_mojo_backend.ProcessGroup.Monad.{
  Result, ok, err, M, ◌>>=◌, then_run, try_finally, after_finally,
}
use torch_mojo_backend.ProcessGroup.Monad.Keeps.{Keeps}
use torch_mojo_backend.ProcessGroup.Plumbing.{call}
use torch_mojo_backend.ProcessGroup.Staging.{with_group, fr_tag, submit}
use torch_mojo_backend.ProcessGroup.Blocks.Level.{At, Keeps-open}
use torch_mojo_backend.ProcessGroup.Blocks.Staged.{open_groups}

-- `m` leads from `P` to `Q`, whether it returns or raises.
pub record Leads {A : Type 0} (P Q : Group → Type 0) (m : M A) : Type 0 where
  pub at : (g : Group) → P g → Q (m g).1

module _ (strict : Bool) (o : Bool) where
  pub closes : (n : ℕ) → Leads (At strict n o) (At strict (n - 1) o) submit
  unfolding submit fr_tag call ◌>>=◌ depth copies_safely
  closes n = record {
    at = λ g h. record {
      level = λ u. ground (arith, h.level u);
      block = h.block;
      safe = h.safe;
      owner = h.owner;
    };
  }

  finally_closes :
      {A : Type 0} (r : Result A) (last : Result (Unit {0}) × Group)
      → At strict 0 o last.1
      → At strict 0 o (after_finally r last).1
  finally_closes r (ok u, g) h = h
  finally_closes r (err e, g) h = h

  pub Leads-try_finally :
      {A : Type 0} (body : M A)
      → Keeps (At strict 1 o) body
      → Leads (At strict 1 o) (At strict 0 o) (try_finally body submit)
  unfolding try_finally
  Leads-try_finally body k = record {
    at = λ g h. let (r, g') = body g in finally_closes r (submit g') ((closes 1).at g' (k.at g h));
  }

  started :
      {A : Type 0} (rest : M A) (g : Group) (r : Bool)
      → Leads (At strict 1 o) (At strict 0 o) rest
      → At strict 0 o g
      → let g' = record g { log = Event.native g.caller Call.group_start r ∷ g.log } in
        At strict 0 o
          (then_run (if r then ok tt else err Types.native_failed) (λ (_ : Unit {0}). rest) g').1
  unfolding depth copies_safely
  started rest g true l h = l.at _ (record {
    level = λ u. ground (arith, h.level u);
    block = h.block;
    safe = h.safe;
    owner = h.owner;
  })
  started rest g false l h = record {
    level = h.level;
    block = h.block;
    safe = h.safe;
    owner = h.owner;
  }

  pub Keeps-grouped :
      {A : Type 0} (rest : M A)
      → Leads (At strict 1 o) (At strict 0 o) rest
      → Keeps (At strict 0 o) (call Call.group_start >>= λ _. rest)
  unfolding ◌>>=◌ call
  Keeps-grouped rest l = record {
    at = λ g h. started rest g (g.env.succeeds g.log Call.group_start) l h;
  }

module _ (strict : Bool) where
  -- In a coalescing block `with self._group()` adds nothing; elsewhere it opens a group and closes
  -- it on every path.
  pub Keeps-with_group :
      {A : Type 0} (o : Bool) (body : M A)
      → Keeps (At strict 1 o) body
      → Keeps (At strict (open_groups o) o) (with_group body)
  unfolding with_group
  Keeps-with_group true body k = Keeps-open strict 1 true _ k
  Keeps-with_group false body k =
      Keeps-open strict 0 false _
        (Keeps-grouped strict false _ (Leads-try_finally strict false body k))
