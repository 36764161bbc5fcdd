-- ===== src/ProcessGroup/Blocks/Staged.antt =====
-- Communicators, staging, groups, fences and the flight recorder's tags keep what Level states.
use torch_mojo_backend.Prelude.{
  ℕ, Bool, true, false, Option, none, some, List, [], ◌∷◌, arith, if◌then◌else◌, any,
}
use torch_mojo_backend.ProcessGroup.Types.{Tensor, Event, Group, depth, copies_safely}
use torch_mojo_backend.ProcessGroup.Monad.{ok, pure, ◌>>=◌, for_all, emit}
use torch_mojo_backend.ProcessGroup.Monad.Keeps.{Keeps, Keeps-pure, Keeps-bind, keeps_rules}
use torch_mojo_backend.ProcessGroup.Plumbing
use torch_mojo_backend.ProcessGroup.Plumbing.{call, coalescing_open}
use torch_mojo_backend.ProcessGroup.Staging
use torch_mojo_backend.ProcessGroup.Staging.{is_staged, with_group, fr_tag}
use torch_mojo_backend.ProcessGroup.Blocks.Level.{
  At, plain_rules, Keeps-modify, Keeps-initialize, Keeps-exchange_id,
}

module _ (strict : Bool) (n : ℕ) (o : Bool) where
  Keeps-create : (index : ℕ) → Keeps (At strict n o) (Plumbing.create_communicator index)
  unfolding Plumbing.create_communicator
  Keeps-create index =
      search (plain_rules, Keeps-modify, Keeps-initialize, Keeps-exchange_id) depth 20

  pub Keeps-ensure : (index : ℕ) → Keeps (At strict n o) (Plumbing.ensure index)
  unfolding Plumbing.ensure
  Keeps-ensure index = search (plain_rules, Keeps-create)

  pub Keeps-new_like : (t : Tensor) → Keeps (At strict n o) (Staging.new_like t)
  unfolding Staging.new_like
  Keeps-new_like t = record {
    at = λ g h. record { level = h.level; block = h.block; safe = h.safe; owner = h.owner };
  }

  pub Keeps-stage_in : (index : ℕ) (t : Tensor) → Keeps (At strict n o) (Staging.stage_in index t)
  unfolding Staging.stage_in
  Keeps-stage_in index t = search (plain_rules, Keeps-new_like) depth 12

  pub Keeps-stage_out : (index : ℕ) (t : Tensor) → Keeps (At strict n o) (Staging.stage_out index t)
  unfolding Staging.stage_out
  Keeps-stage_out index t = search (plain_rules, Keeps-new_like) depth 12

  Keeps-record_each :
      (index : ℕ) (previous : Option ℕ) (ts : List Tensor)
      → Keeps (At strict n o) (Staging.record_each index previous ts)
  unfolding Staging.record_each
  Keeps-record_each index previous [] = Keeps-pure tt
  Keeps-record_each index previous (t ∷ ts) =
      Keeps-bind _ _ (search plain_rules) λ _. Keeps-record_each index (some t.object) ts

  pub Keeps-record_tensors :
      (index : ℕ) (ts : List Tensor) → Keeps (At strict n o) (Staging.record_tensors index ts)
  unfolding Staging.record_tensors
  Keeps-record_tensors index ts = search (plain_rules, Keeps-modify, Keeps-record_each) depth 9

  pub Keeps-work : (index : ℕ) (ts : List Tensor) → Keeps (At strict n o) (Staging.work index ts)
  unfolding Staging.work
  Keeps-work index ts = search plain_rules

  pub Keeps-result :
      (index : ℕ) (ts : List Tensor) → Keeps (At strict n o) (Staging.result index ts)
  unfolding Staging.result
  Keeps-result index ts = search (plain_rules, Keeps-modify, Keeps-work) depth 12

  pub Keeps-fr_tag : Keeps (At strict n o) fr_tag
  unfolding fr_tag
  Keeps-fr_tag = search plain_rules

  pub Keeps-begin : (flags : ℕ) → Keeps (At strict n o) (Staging.begin flags)
  unfolding Staging.begin depth copies_safely
  Keeps-begin flags = record {
    at = λ g h. record { level = h.level; block = h.block; safe = h.safe; owner = h.owner };
  }

  described :
      (b : Bool) (flags : ℕ) (g f : Group)
      → At strict n o g
      → At strict n o f
      → At strict n o (if b then Staging.begin flags f else (ok tt, g)).1
  described true flags g f h k = (Keeps-begin flags).at f k
  described false flags g f h k = h

  pub Keeps-fr_op : (p2p : Bool) → Keeps (At strict n o) (Staging.fr_op p2p)
  unfolding Staging.fr_op
  Keeps-fr_op p2p = record {
    at = λ g h.
        described g.records_flight _ g _ h
          (record { level = h.level; block = h.block; safe = h.safe; owner = h.owner });
  }

  ended :
      (b : Bool) (block : Option (List Bool)) → Keeps (At strict n o) (Staging.ends_with b block)
  ended false none = Keeps-pure tt
  ended false (some block) = Keeps-pure tt
  ended true none = Keeps-pure tt
  ended true (some block) = Keeps-begin _

  pub Keeps-fr_block_end : Keeps (At strict n o) Staging.fr_block_end
  unfolding Staging.fr_block_end
  Keeps-fr_block_end = record {
    at = λ g h.
        (ended g.records_flight g.fr_block).at _
          (record { level = h.level; block = h.block; safe = h.safe; owner = h.owner });
  }

-- Copies back are made while no group is open.
module _ (strict : Bool) (o : Bool) where
  Keeps-copy : (i a b : ℕ) → Keeps (At strict 0 o) (emit (Event.copy i a b))
  unfolding emit depth copies_safely
  Keeps-copy i a b = record {
    at = λ g h. record {
      level = h.level;
      block = h.block;
      safe = λ s u. ground (arith, h.level u, h.safe s u);
      owner = h.owner;
    };
  }

  Keeps-copy_back :
      (index : ℕ) (p : Tensor × Tensor) → Keeps (At strict 0 o) (Staging.copy_back index p)
  unfolding Staging.copy_back
  Keeps-copy_back index (t, staged) = search (plain_rules, Keeps-copy) depth 9

  Keeps-fence : (index : ℕ) (p : Tensor × Tensor) → Keeps (At strict 0 o) (Staging.fence index p)
  unfolding Staging.fence
  Keeps-fence index (t, staged) = search plain_rules

  pub Keeps-copies :
      (index : ℕ) (pairs : List (Tensor × Tensor))
      → Keeps (At strict 0 o) (
          (if any is_staged pairs then for_all (Staging.copy_back index) pairs else pure tt)
          >>= λ _. for_all (Staging.fence index) pairs)
  Keeps-copies index pairs = search (keeps_rules, Keeps-copy_back, Keeps-fence) depth 9

-- Between two calls a group is open if and only if a coalescing block is.
abbrev pub open_groups : Bool → ℕ
open_groups true = 1
open_groups false = 0

module _ (strict : Bool) where
  pub Keeps-finish :
      (o : Bool) (index : ℕ) (pairs : List (Tensor × Tensor))
      → Keeps (At strict (open_groups o) o) (Staging.finish index pairs)
  unfolding Staging.finish
  Keeps-finish true index pairs = search (plain_rules, Keeps-modify)
  Keeps-finish false index pairs = search (plain_rules, Keeps-copies)
