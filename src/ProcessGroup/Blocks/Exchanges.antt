-- ===== src/ProcessGroup/Blocks/Exchanges.antt =====
-- The same for the all-to-alls, gather, scatter, send, recv and the barrier. Outside a coalescing
-- block gather and scatter copy while no group is open; inside one they copy before it is
-- submitted, so there only the number of open groups is kept.
use torch_mojo_backend.Prelude.{
  ℕ, ◌+◌, ◌≡◌, ◌⊎◌, inl, inr, arith, Bool, true, false, Option, none, some, List, [], ◌∷◌, ℤ,
}
use torch_mojo_backend.ProcessGroup.Types.{Tensor, Event, depth, copies_safely}
use torch_mojo_backend.ProcessGroup.Monad.{emit, for_all}
use torch_mojo_backend.ProcessGroup.Monad.Keeps.{
  Keeps, Keeps-pure, Keeps-raise, Keeps-bind, Keeps-for_all,
}
use torch_mojo_backend.ProcessGroup.AllToAll
use torch_mojo_backend.ProcessGroup.Rooted
use torch_mojo_backend.ProcessGroup.Blocks.Level.{At}
use torch_mojo_backend.ProcessGroup.Blocks.Staged.{open_groups}
use torch_mojo_backend.ProcessGroup.Blocks.Methods.{method_rules, flat_rules}

module _ (strict : Bool) (n : ℕ) (o : Bool) where
  Keeps-send_chunk :
      (index : ℕ) (t : Tensor) (code peer off count : ℕ)
      → Keeps (At strict n o) (AllToAll.send_chunk index t code peer off count)
  unfolding AllToAll.send_chunk
  Keeps-send_chunk index t code peer off count = search method_rules depth 9

  Keeps-recv_chunk :
      (index : ℕ) (t : Tensor) (size code peer off count : ℕ)
      → Keeps (At strict n o) (AllToAll.recv_chunk index t size code peer off count)
  unfolding AllToAll.recv_chunk
  Keeps-recv_chunk index t size code peer off count = search method_rules depth 9

  Keeps-exchange :
      (index : ℕ) (output input : Tensor) (code peer a b : ℕ) (ins outs : List ℕ)
      → Keeps (At strict n o) (AllToAll.exchange index output input code peer a b ins outs)
  unfolding AllToAll.exchange
  Keeps-exchange index output input code peer a b [] [] = Keeps-pure tt
  Keeps-exchange index output input code peer a b [] (y ∷ outs) = Keeps-raise _
  Keeps-exchange index output input code peer a b (x ∷ ins) [] = Keeps-raise _
  Keeps-exchange index output input code peer a b (x ∷ ins) (y ∷ outs) =
      Keeps-bind _ _ (Keeps-send_chunk index input code peer a x) λ _.
        Keeps-bind _ _ (Keeps-recv_chunk index output input.item_size code peer b y)
          λ _. Keeps-exchange index output input code (peer + 1) (a + x) (b + y) ins outs

  Keeps-send_whole :
      (index peer : ℕ) (t : Tensor) → Keeps (At strict n o) (AllToAll.send_whole index peer t)
  unfolding AllToAll.send_whole
  Keeps-send_whole index peer t = search method_rules depth 9

  Keeps-recv_whole :
      (index peer : ℕ) (t : Tensor) → Keeps (At strict n o) (AllToAll.recv_whole index peer t)
  unfolding AllToAll.recv_whole
  Keeps-recv_whole index peer t = search method_rules depth 9

  Keeps-exchange_whole :
      (index peer : ℕ) (pairs : List (Tensor × Tensor))
      → Keeps (At strict n o) (AllToAll.exchange_whole index peer pairs)
  unfolding AllToAll.exchange_whole
  Keeps-exchange_whole index peer [] = Keeps-pure tt
  Keeps-exchange_whole index peer ((i, t) ∷ rest) =
      Keeps-bind _ _ (Keeps-send_whole index peer i) λ _.
        Keeps-bind _ _ (Keeps-recv_whole index peer t)
          λ _. Keeps-exchange_whole index (peer + 1) rest

  Keeps-send_tensor :
      (index peer : ℕ) (t : Tensor) → Keeps (At strict n o) (Rooted.send_tensor index peer t)
  unfolding Rooted.send_tensor
  Keeps-send_tensor index peer t = search method_rules depth 9

  Keeps-recv_tensor :
      (index peer : ℕ) (t : Tensor) → Keeps (At strict n o) (Rooted.recv_tensor index peer t)
  unfolding Rooted.recv_tensor
  Keeps-recv_tensor index peer t = search method_rules depth 9

  Keeps-synchronize : (index : ℕ) → Keeps (At strict n o) (Rooted.synchronize_device index)
  unfolding Rooted.synchronize_device
  Keeps-synchronize index = search method_rules depth 9

  Keeps-recv_from_peers :
      (index code own peer : ℕ) (ts : List Tensor)
      → Keeps (At strict n o) (Rooted.recv_from_peers index code own peer ts)
  unfolding Rooted.recv_from_peers
  Keeps-recv_from_peers index code own peer [] = Keeps-pure tt
  Keeps-recv_from_peers index code own peer (t ∷ ts) =
      Keeps-bind _ _ (search method_rules depth 9)
        λ _. Keeps-recv_from_peers index code own (peer + 1) ts

  Keeps-send_to_peers :
      (index code own peer : ℕ) (ts : List Tensor)
      → Keeps (At strict n o) (Rooted.send_to_peers index code own peer ts)
  unfolding Rooted.send_to_peers
  Keeps-send_to_peers index code own peer [] = Keeps-pure tt
  Keeps-send_to_peers index code own peer (t ∷ ts) =
      Keeps-bind _ _ (search method_rules depth 9)
        λ _. Keeps-send_to_peers index code own (peer + 1) ts

module _ (strict o : Bool) where
  Keeps-chunks :
      (index : ℕ) (output input : Tensor) (a b : List ℕ)
      → Keeps (At strict (open_groups o) o) (AllToAll.sendrecv_chunks index output input a b)
  unfolding AllToAll.sendrecv_chunks
  Keeps-chunks index output input a b = search (method_rules, Keeps-exchange) depth 12

  pub Keeps-alltoall_base :
      (output input : Tensor) (a b : List ℤ)
      → Keeps (At strict (open_groups o) o) (AllToAll.alltoall_base output input a b)
  unfolding AllToAll.alltoall_base
  Keeps-alltoall_base output input a b = search (flat_rules, Keeps-chunks) depth 30

  pub Keeps-alltoall :
      (outputs inputs : List Tensor)
      → Keeps (At strict (open_groups o) o) (AllToAll.alltoall outputs inputs)
  unfolding AllToAll.alltoall
  Keeps-alltoall outputs inputs = search (flat_rules, Keeps-exchange_whole) depth 30

  pub Keeps-send :
      (ts : List Tensor) (peer : ℕ) → Keeps (At strict (open_groups o) o) (Rooted.send ts peer)
  unfolding Rooted.send
  Keeps-send ts peer = search (flat_rules, Keeps-send_tensor) depth 30

  pub Keeps-recv :
      (ts : List Tensor) (peer : ℕ) → Keeps (At strict (open_groups o) o) (Rooted.recv ts peer)
  unfolding Rooted.recv
  Keeps-recv ts peer = search (flat_rules, Keeps-recv_tensor) depth 30

  pub Keeps-barrier : Keeps (At strict (open_groups o) o) Rooted.barrier
  unfolding Rooted.barrier
  Keeps-barrier = search (flat_rules, Keeps-synchronize) depth 12

-- A copy is free where no group is open, or where safety is not asked for.
abbrev pub CopiesFreely : Bool → Bool → Type 0
CopiesFreely strict o = (strict ≡ false) ⊎ (o ≡ false)

any_copy :
    (strict o : Bool)
    → CopiesFreely strict o
    → (i a b : ℕ) → Keeps (At strict (open_groups o) o) (emit (Event.copy i a b))
unfolding emit depth copies_safely
any_copy strict true (inl e) i a b = record {
  at = λ g h. record { level = h.level; block = h.block; safe = λ s u. cc; owner = h.owner };
}
any_copy strict true (inr e) i a b = cc
any_copy strict false free i a b = record {
  at = λ g h. record {
    level = h.level;
    block = h.block;
    safe = λ s u. ground (arith, h.level u, h.safe s u);
    owner = h.owner;
  };
}

module _ (strict o : Bool) (free : CopiesFreely strict o) where
  Keeps-any_copy : (i a b : ℕ) → Keeps (At strict (open_groups o) o) (emit (Event.copy i a b))
  Keeps-any_copy = any_copy strict o free

  Keeps-copy_own :
      (i : ℕ) (a b : Option Tensor) → Keeps (At strict (open_groups o) o) (Rooted.copy_own i a b)
  Keeps-copy_own i none none = Keeps-raise _
  Keeps-copy_own i none (some b) = Keeps-raise _
  Keeps-copy_own i (some a) none = Keeps-raise _
  Keeps-copy_own i (some a) (some b) = Keeps-any_copy i a.storage b.storage

  Keeps-copy_out :
      (i storage : ℕ) (outs : List Tensor)
      → Keeps
          (At strict (open_groups o) o)
          (for_all (λ (t : Tensor). emit (Event.copy i storage t.storage)) outs)
  Keeps-copy_out i storage outs = Keeps-for_all _ outs λ t. Keeps-any_copy i storage t.storage

  Keeps-gather_by_all_gather :
      (index : ℕ) (t : Tensor) (outs : List Tensor)
      → Keeps (At strict (open_groups o) o) (Rooted.gather_by_all_gather index t outs)
  unfolding Rooted.gather_by_all_gather
  Keeps-gather_by_all_gather index t outs = search (flat_rules, Keeps-copy_out) depth 12

  Keeps-gather_by_sends :
      (index code : ℕ) (root : Bool) (rank : ℕ) (outs : List Tensor) (t s : Tensor)
      (staged : List Tensor)
      → Keeps
          (At strict (open_groups o) o)
          (Rooted.gather_by_sends index code root rank outs t s staged)
  unfolding Rooted.gather_by_sends
  Keeps-gather_by_sends index code root rank outs t s staged =
      search (flat_rules, Keeps-recv_from_peers, Keeps-copy_own) depth 20

  Keeps-root_tensors :
      (root : Bool) (ts : List (List Tensor))
      → Keeps (At strict (open_groups o) o) (Rooted.root_tensors root ts)
  Keeps-root_tensors root ts = search flat_rules

  pub Keeps-gather :
      (outs : List (List Tensor)) (ts : List Tensor) (rank : ℕ)
      → Keeps (At strict (open_groups o) o) (Rooted.gather outs ts rank)
  unfolding Rooted.gather
  Keeps-gather outs ts rank =
      search (flat_rules, Keeps-root_tensors, Keeps-gather_by_all_gather, Keeps-gather_by_sends)
        depth 40

  Keeps-scatter_by_broadcast :
      (index : ℕ) (t : Tensor) (ins : List Tensor) (rank : ℕ)
      → Keeps (At strict (open_groups o) o) (Rooted.scatter_by_broadcast index t ins rank)
  unfolding Rooted.scatter_by_broadcast
  Keeps-scatter_by_broadcast index t ins rank = search (flat_rules, Keeps-any_copy) depth 12

  Keeps-scatter_by_sends :
      (index code : ℕ) (root : Bool) (rank : ℕ) (ins staged : List Tensor) (t : Tensor)
      → Keeps
          (At strict (open_groups o) o)
          (Rooted.scatter_by_sends index code root rank ins staged t)
  unfolding Rooted.scatter_by_sends
  Keeps-scatter_by_sends index code root rank ins staged t =
      search (flat_rules, Keeps-send_to_peers, Keeps-copy_own) depth 20

  pub Keeps-scatter :
      (ts : List Tensor) (ins : List (List Tensor)) (rank : ℕ)
      → Keeps (At strict (open_groups o) o) (Rooted.scatter ts ins rank)
  unfolding Rooted.scatter
  Keeps-scatter ts ins rank =
      search (flat_rules, Keeps-root_tensors, Keeps-scatter_by_broadcast, Keeps-scatter_by_sends)
        depth 40
