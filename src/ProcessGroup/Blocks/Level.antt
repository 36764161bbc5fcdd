-- ===== src/ProcessGroup/Blocks/Level.antt =====
-- The plumbing keeps the number of NCCL groups that each thread has open, whether a coalescing block is open and, where
-- it is asked for, that no copy reads what an open group has still to write.
use torch_mojo_backend.Prelude.{
  ℕ, ◌≡◌, ◌⊎◌, refl, sym, subst, ap, ◌∙◌, Bool, true, false, Option, none, some, List, [], ◌∷◌,
  is_some, Bool-cases, inl, inr, if◌then◌else◌, ◌==◌,
}
use torch_mojo_backend.ProcessGroup.Types.{
  Device, cpu, mojo, other, Dtype, ReduceOp, Tensor, Error, Call, Event, Group, Work, depth,
  unsubmitted, copies_safely,
}
use torch_mojo_backend.ProcessGroup.Types
use torch_mojo_backend.ProcessGroup.Monad.{Result, ok, err, M, modify, ◌>>=◌, then_run, emit}
use torch_mojo_backend.ProcessGroup.Monad.Keeps.{
  Keeps, Keeps-pure, Keeps-raise, Keeps-gets, Keeps-if, Keeps-bind, Keeps-for_all, keeps_rules,
}
use torch_mojo_backend.ProcessGroup.Plumbing
use torch_mojo_backend.ProcessGroup.Plumbing.{call, coalescing_open, open_here, is_same}

-- The thread of the last call has `n` groups open, and no other thread has one. A block that is open is
-- its own. `strict` asks for
-- `copies_safely`.
pub record At (strict : Bool) (n : ℕ) (o : Bool) (g : Group) : Type 0 where
  pub level : (u : ℕ) → depth u g.log ≡ (if u == g.caller then n else 0)
  pub block : is_some g.coalescing ≡ o
  pub owner : o ≡ true → g.coalescing_thread ≡ some g.caller
  pub safe : strict ≡ true → (u : ℕ) → copies_safely u g.log ≡ true

abbrev pub is_plain : Call → Bool
is_plain Call.group_start = false
is_plain (Call.group_end tag) = false
is_plain _ = true

abbrev pub is_quiet : Event → Bool
is_quiet (Event.native t c r) = false
is_quiet (Event.copy i a b) = false
is_quiet _ = true

open_cases :
    (c t : Option ℕ) (me : ℕ)
    → (open_here c t me ≡ ok (is_some c)) ⊎ (open_here c t me ≡ err Types.block_on_other_thread)
open_cases none t me = inl refl
open_cases (some index) t me = elim (Bool-cases (is_same t me)) [
  | inl e ↦ inl (rw e)
  | inr e ↦ inr (rw e)
]

module _ (strict : Bool) (n : ℕ) (o : Bool) where
  log-At :
      (c : Call) (t : ℕ) (r : Bool) (g : Group)
      → is_plain c ≡ true
      → At strict n o g
      → At strict n o (record g { log = Event.native t c r ∷ g.log })
  unfolding depth copies_safely
  log-At Call.group_start t r g p h = cc
  log-At (Call.group_end tag) t r g p h = cc
  log-At _ t r g p h = record { level = h.level; block = h.block; safe = h.safe; owner = h.owner }

  pub Keeps-call : (c : Call) → is_plain c ≡ true → Keeps (At strict n o) (call c)
  unfolding call
  Keeps-call c p = record { at = λ g h. log-At c g.caller (g.env.succeeds g.log c) g p h }

  pub Keeps-emit : (e : Event) → is_quiet e ≡ true → Keeps (At strict n o) (emit e)
  unfolding emit depth copies_safely
  Keeps-emit (Event.native t c r) p = cc
  Keeps-emit (Event.copy i a b) p = cc
  Keeps-emit _ p = record {
    at = λ g h. record { level = h.level; block = h.block; safe = h.safe; owner = h.owner };
  }

  -- A call that asks whether a block is open is told so, or raises.
  pub Keeps-open :
      {A : Type 0} (f : Bool → M A)
      → Keeps (At strict n o) (f o)
      → Keeps (At strict n o) (coalescing_open >>= f)
  unfolding ◌>>=◌ coalescing_open
  Keeps-open {A} f k = record {
    at = λ g h. elim (open_cases g.coalescing g.coalescing_thread g.caller) [
      | inl e ↦
          subst (λ (r : Result Bool). At strict n o (then_run r f g).1) (sym (e ∙ ap ok h.block))
            (k.at g h)
      | inr e ↦ subst (λ (r : Result Bool). At strict n o (then_run r f g).1) (sym e) h
    ];
  }

  -- What changes none of the fields is kept.
  pub Keeps-modify :
      (f : Group → Group)
      → ((g : Group) → (f g).log ≡ g.log)
      → ((g : Group) → (f g).coalescing ≡ g.coalescing)
      → ((g : Group) → (f g).caller ≡ g.caller)
      → ((g : Group) → (f g).coalescing_thread ≡ g.coalescing_thread)
      → Keeps (At strict n o) (modify f)
  unfolding modify
  Keeps-modify f l c t w = record {
    at = λ g h. record {
      level = λ u. rw (l g, t g) (h.level u);
      block = ap is_some (c g) ∙ h.block;
      safe = λ s u. ap (copies_safely u) (l g) ∙ h.safe s u;
      owner = λ e. w g ∙ h.owner e ∙ sym (ap some (t g));
    };
  }

pub ruleset plain_rules = (keeps_rules, Keeps-call, Keeps-emit, Keeps-open)

module _ (strict : Bool) (n : ℕ) (o : Bool) where
  pub Keeps-or_raise :
      {A : Type 0} (a : Option A) (e : Error) → Keeps (At strict n o) (Plumbing.or_raise a e)
  Keeps-or_raise none e = Keeps-raise e
  Keeps-or_raise (some a) e = Keeps-pure a

  pub Keeps-nccl_dtype : (d : Dtype) → Keeps (At strict n o) (Plumbing.nccl_dtype d)
  unfolding Plumbing.nccl_dtype
  Keeps-nccl_dtype d = Keeps-or_raise _ _

  pub Keeps-nccl_red_op :
      (op : ReduceOp) (d : Dtype) → Keeps (At strict n o) (Plumbing.nccl_red_op op d)
  unfolding Plumbing.nccl_red_op
  Keeps-nccl_red_op op Dtype.boolean = Keeps-or_raise _ _
  Keeps-nccl_red_op op _ = Keeps-or_raise _ _

  Keeps-is_cpu_device : (d : Device) → Keeps (At strict n o) (Plumbing.is_cpu_device d)
  unfolding Plumbing.is_cpu_device
  Keeps-is_cpu_device cpu = Keeps-pure true
  Keeps-is_cpu_device (mojo index) = Keeps-pure false
  Keeps-is_cpu_device (other kind) = Keeps-raise _

  pub Keeps-is_cpu : (t : Tensor) → Keeps (At strict n o) (Plumbing.is_cpu t)
  unfolding Plumbing.is_cpu
  Keeps-is_cpu t = Keeps-is_cpu_device t.device

  pub Keeps-index_of : (i : Option ℕ) → Keeps (At strict n o) (Plumbing.index_of i)
  unfolding Plumbing.index_of
  Keeps-index_of i = Keeps-gets _

  pub Keeps-same_device : (ts : List Tensor) → Keeps (At strict n o) (Plumbing.same_device ts)
  unfolding Plumbing.same_device
  Keeps-same_device [] = Keeps-raise _
  Keeps-same_device (t ∷ ts) = search (plain_rules, Keeps-is_cpu, Keeps-index_of)

  pub Keeps-one_per_rank : (ts : List Tensor) → Keeps (At strict n o) (Plumbing.one_per_rank ts)
  unfolding Plumbing.one_per_rank
  Keeps-one_per_rank ts = search plain_rules

  pub Keeps-first_of : {A : Type 0} (xs : List A) → Keeps (At strict n o) (Plumbing.first_of xs)
  unfolding Plumbing.first_of
  Keeps-first_of [] = Keeps-raise _
  Keeps-first_of (x ∷ xs) = Keeps-pure x

  pub Keeps-initialize : Keeps (At strict n o) Plumbing.initialize_collectives
  unfolding Plumbing.initialize_collectives
  Keeps-initialize = search (plain_rules, Keeps-modify) depth 9

  pub Keeps-exchange_id : (key : ℕ) → Keeps (At strict n o) (Plumbing.exchange_id key)
  unfolding Plumbing.exchange_id
  Keeps-exchange_id key = search plain_rules depth 9
