-- ===== src/ProcessGroup/Blocks/Calls.antt =====
-- Every history of calls on one group, from any threads and with any answers of the native core.
use torch_mojo_backend.Prelude.{
  ==_iff, some, subst, ap, both, ℕ, ◌≡◌, refl, ◌∙◌, Bool, true, false, not, ◌&&◌, List, [], ◌∷◌,
  is_some, if◌then◌else◌, inl, inr, ◌||◌, ◌==◌, arith,
}
use torch_mojo_backend.ProcessGroup.Types
use torch_mojo_backend.ProcessGroup.Types.{Group, Env, Work, depth, copies_safely}
use torch_mojo_backend.ProcessGroup.Monad.{err}
use torch_mojo_backend.ProcessGroup.Monad.Keeps.{Keeps}
use torch_mojo_backend.ProcessGroup.Plumbing.{is_same}
use torch_mojo_backend.ProcessGroup.Coalescing.{loud}
use torch_mojo_backend.ProcessGroup.Operations
use torch_mojo_backend.ProcessGroup.Operations.{
  Collective, Request, collective, starts, ends, method, serve, serve_all, new_group,
}
use torch_mojo_backend.ProcessGroup.Blocks.Level.{At}
use torch_mojo_backend.ProcessGroup.Blocks.Staged.{open_groups}
use torch_mojo_backend.ProcessGroup.Blocks.Methods
use torch_mojo_backend.ProcessGroup.Blocks.Exchanges
use torch_mojo_backend.ProcessGroup.Blocks.Exchanges.{CopiesFreely}
use torch_mojo_backend.ProcessGroup.Blocks.History.{
  Settled, loud-Settled, loud_raises, start-Settled, end-At, At-Settled,
}

-- The collectives that may copy out of a buffer at once.
abbrev pub copies_at_once : Collective → Bool
copies_at_once (Operations.gather outputs inputs root) = true
copies_at_once (Operations.scatter outputs inputs root) = true
copies_at_once _ = false

module _ (strict o : Bool) where
  Keeps-method :
      (c : Collective)
      → (copies_at_once c ≡ true → CopiesFreely strict o)
      → Keeps (At strict (open_groups o) o) (method c)
  unfolding method
  Keeps-method (Operations.allreduce ts op) f = Methods.Keeps-allreduce strict o ts op
  Keeps-method (Operations.allreduce_coalesced ts op) f =
      Methods.Keeps-allreduce_coalesced strict o ts op
  Keeps-method (Operations.broadcast ts a b) f = Methods.Keeps-broadcast strict o ts a b
  Keeps-method (Operations.reduce ts op root) f = Methods.Keeps-reduce strict o ts op root
  Keeps-method (Operations.allgather_base a b) f = Methods.Keeps-allgather_base strict o a b
  Keeps-method (Operations.allgather a b) f = Methods.Keeps-allgather strict o a b
  Keeps-method (Operations.allgather_coalesced a b) f =
      Methods.Keeps-allgather_coalesced strict o a b
  Keeps-method (Operations.reduce_scatter_base a b op) f =
      Methods.Keeps-reduce_scatter_base strict o a b op
  Keeps-method (Operations.reduce_scatter a b op) f = Methods.Keeps-reduce_scatter strict o a b op
  Keeps-method (Operations.reduce_scatter_coalesced a b op) f =
      Methods.Keeps-reduce_scatter_coalesced strict o a b op
  Keeps-method (Operations.alltoall_base a b c d) f = Exchanges.Keeps-alltoall_base strict o a b c d
  Keeps-method (Operations.alltoall a b) f = Exchanges.Keeps-alltoall strict o a b
  Keeps-method (Operations.gather a b root) f = Exchanges.Keeps-gather strict o (f refl) a b root
  Keeps-method (Operations.scatter a b root) f = Exchanges.Keeps-scatter strict o (f refl) a b root
  Keeps-method (Operations.send ts peer) f = Exchanges.Keeps-send strict o ts peer
  Keeps-method (Operations.recv ts peer) f = Exchanges.Keeps-recv strict o ts peer
  Keeps-method Operations.barrier f = Exchanges.Keeps-barrier strict o

-- The request is no gather or scatter in an open coalescing block.
abbrev pub is_plain_request : Bool → Request → Bool
is_plain_request inside (collective c) = not (inside && copies_at_once c)
is_plain_request inside _ = true

-- No gather or scatter is called in an open coalescing block.
unfoldable pub no_rooted_in_blocks : Group → List (ℕ × Request) → Bool
unfolding serve
no_rooted_in_blocks g [] = true
no_rooted_in_blocks g (r ∷ rs) =
    is_plain_request (is_some g.coalescing) r.1 && no_rooted_in_blocks (serve g r) rs

-- If a block is open, the thread is the one that opened it.
abbrev pub is_block_thread : Group → ℕ → Bool
is_block_thread g t = not (is_some g.coalescing) || is_same g.coalescing_thread t

-- Each call in an open block comes from the thread that opened it.
unfoldable pub one_thread_per_block : Group → List (ℕ × Request) → Bool
unfolding serve
one_thread_per_block g [] = true
one_thread_per_block g (r ∷ rs) = is_block_thread g r.0 && one_thread_per_block (serve g r) rs

by_thread :
    (strict : Bool) (g : Group) (t : ℕ)
    → is_block_thread g t ≡ true
    → Settled strict g
    → Settled strict (record g { caller = t })
by_thread strict g t p h = moved (is_some g.coalescing) h p
  where
    moved :
        (o : Bool)
        → At strict (open_groups o) o g
        → (not o || is_same g.coalescing_thread t) ≡ true
        → At strict (open_groups o) o (record g { caller = t })
    moved true h p =
        let same : g.caller ≡ t = (==_iff g.caller t).0 (ground (arith, p, h.owner refl)) in
        record {
          level = λ u. subst (λ x. depth u g.log ≡ (if u == x then 1 else 0)) same (h.level u);
          block = h.block;
          safe = h.safe;
          owner = λ e. h.owner e ∙ ap some same;
        }
    moved false h p = record {
      level = λ u. ground (arith, h.level u);
      block = h.block;
      safe = h.safe;
      owner = λ e. cc e;
    }

freely :
    (strict inside : Bool) (c : Collective)
    → (strict ≡ true → is_plain_request inside (collective c) ≡ true)
    → copies_at_once c ≡ true
    → CopiesFreely strict inside
freely false inside c p e = inl refl
freely true false c p e = inr refl
freely true true c p e = cc (p refl, e)

module _ (strict : Bool) where
  serve-Settled :
      (g : Group) (r : ℕ × Request)
      → is_block_thread g r.0 ≡ true
      → (strict ≡ true → is_plain_request (is_some g.coalescing) r.1 ≡ true)
      → Settled strict g
      → Settled strict (serve g r)
  unfolding serve
  serve-Settled g (t, collective c) q p h =
      loud-Settled strict (method c) (record g { caller = t })
        (Keeps-method strict (is_some g.coalescing) c (freely strict _ c p))
        (by_thread strict g t q h)
  serve-Settled g (t, starts device) q p h =
      start-Settled strict device _ (by_thread strict g t q h)
  serve-Settled g (t, ends device) q p h =
      At-Settled strict false _ (end-At strict device _ (by_thread strict g t q h))

  serve_all-Settled :
      (g : Group) (rs : List (ℕ × Request))
      → one_thread_per_block g rs ≡ true
      → (strict ≡ true → no_rooted_in_blocks g rs ≡ true)
      → Settled strict g
      → Settled strict (serve_all g rs)
  unfolding serve_all no_rooted_in_blocks one_thread_per_block
  serve_all-Settled g [] q p h = h
  serve_all-Settled g (r ∷ rs) q p h =
      let (first, others) = both _ _ q in
      serve_all-Settled (serve g r) rs others (λ e. (both _ _ (p e)).1)
        (serve-Settled g r first (λ e. (both _ _ (p e)).0) h)

  new_group-Settled :
      (env : Env) (rank size : ℕ) (records : Bool)
      → Settled strict (new_group env rank size records)
  unfolding new_group depth copies_safely
  new_group-Settled env rank size records = record {
    level = λ u. ground arith;
    block = refl;
    safe = λ e u. refl;
    owner = λ e. cc e;
  }

closed_level : (mine : Bool) → ◌≡◌ {A = ℕ} (if mine then 0 else 0) 0
closed_level true = refl
closed_level false = refl

owned :
    (g : Group) (u : ℕ)
    → Settled false g
    → depth u g.log ≡ (if is_some g.coalescing && is_same g.coalescing_thread u then 1 else 0)
owned g u h = by_block (is_some g.coalescing) h
  where
    by_block :
        (o : Bool)
        → At false (open_groups o) o g
        → depth u g.log ≡ (if o && is_same g.coalescing_thread u then 1 else 0)
    by_block true h = ground (arith, h.level u, h.owner refl)
    by_block false h = ground (arith, h.level u)

reached :
    (env : Env) (rank size : ℕ) (records : Bool) (rs : List (ℕ × Request))
    → one_thread_per_block (new_group env rank size records) rs ≡ true
    → Settled false (serve_all (new_group env rank size records) rs)
reached env rank size records rs q =
    serve_all-Settled false _ rs q (λ e. cc e) (new_group-Settled false env rank size records)

-- After any sequence of collectives and of starts and ends of coalescing blocks on a new group, each
-- call run as a whole by any thread, and whatever the native core answers: where the calls in each open
-- block come from the thread that opened it, that thread has one NCCL group open while the block is,
-- and no other thread ever has one open between two calls.
pub groups_follow_blocks :
    (env : Env) (rank size : ℕ) (records : Bool) (rs : List (ℕ × Request))
    → one_thread_per_block (new_group env rank size records) rs ≡ true
    → (u : ℕ)
    → let g = serve_all (new_group env rank size records) rs in
      depth u g.log ≡ (if is_some g.coalescing && is_same g.coalescing_thread u then 1 else 0)
groups_follow_blocks env rank size records rs q u = owned _ u (reached env rank size records rs q)

-- After any sequence of collectives and of starts and ends of coalescing blocks on a new group in which
-- the calls in each open block come from the thread that opened it and none of them is a gather or a
-- scatter: no `copy_` (of a result to where the caller wants it) has read memory that a call of a group
-- still open at that moment was to write. The copies that prepare a call's own arguments are not meant.
pub copies_wait_for_submission :
    (env : Env) (rank size : ℕ) (records : Bool) (rs : List (ℕ × Request))
    → one_thread_per_block (new_group env rank size records) rs ≡ true
    → no_rooted_in_blocks (new_group env rank size records) rs ≡ true
    → (u : ℕ) → copies_safely u (serve_all (new_group env rank size records) rs).log ≡ true
copies_wait_for_submission env rank size records rs q p =
    (serve_all-Settled true _ rs q (λ e. p) (new_group-Settled true env rank size records)).safe
      refl

-- After any sequence of collectives and of starts and ends of coalescing blocks on a new group, where
-- the calls in each open block, the last one too, come from the thread that opened it: a collective that
-- raises leaves no coalescing block open, and no NCCL group open on any thread.
pub raising_closes_groups :
    (env : Env) (rank size : ℕ) (records : Bool) (rs : List (ℕ × Request)) (t : ℕ) (c : Collective)
    (e : Types.Error)
    → one_thread_per_block (new_group env rank size records) rs ≡ true
    → is_block_thread (serve_all (new_group env rank size records) rs) t ≡ true
    → let g = record (serve_all (new_group env rank size records) rs) { caller = t } in
      (loud (method c) g).0 ≡ err e
      → (u : ℕ)
      → (depth u (loud (method c) g).1.log ≡ 0) × (is_some (loud (method c) g).1.coalescing ≡ false)
raising_closes_groups env rank size records rs t c e q l r u =
    let g = serve_all (new_group env rank size records) rs in
    let h =
      loud_raises false (method c) (record g { caller = t })
        (Keeps-method false (is_some g.coalescing) c λ x. inl refl) e
        (by_thread false g t l (reached env rank size records rs q)) r in
    (h.level u ∙ closed_level _, h.block)
