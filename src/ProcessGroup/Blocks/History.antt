-- ===== src/ProcessGroup/Blocks/History.antt =====
-- Every history of calls keeps NCCL groups and coalescing blocks in step, whatever the native core
-- answers and whichever calls raise.
use torch_mojo_backend.Prelude.{
  arith, ℕ, ◌≡◌, refl, sym, subst, Bool, true, false, Option, none, some, List, ◌∷◌, if◌then◌else◌,
  is_some,
}
use torch_mojo_backend.ProcessGroup.Types
use torch_mojo_backend.ProcessGroup.Types.{
  Tensor, Call, Event, Group, Env, Work, depth, copies_safely,
}
use torch_mojo_backend.ProcessGroup.Monad.{
  Result, ok, err, M, pure, modify, ◌>>=◌, then_run, try_finally, after_finally,
}
use torch_mojo_backend.ProcessGroup.Monad.Keeps.{Keeps, Keeps-bind, Keeps-pure, Keeps-raise}
use torch_mojo_backend.ProcessGroup.Plumbing.{call, index_of}
use torch_mojo_backend.ProcessGroup.Staging.{
  record_tensors, finish, work, submit, fr_block_end, ends_with, begin,
}
use torch_mojo_backend.ProcessGroup.Coalescing.{
  start_block, enter, start_coalescing, end_coalescing, abort_coalescing, abort_at, unwind, unwound,
  loud, leave, clear_tag,
}
use torch_mojo_backend.ProcessGroup.Blocks.Level.{At, Keeps-index_of}
use torch_mojo_backend.ProcessGroup.Blocks.Staged.{
  open_groups, Keeps-ensure, Keeps-record_tensors, Keeps-finish, Keeps-work, Keeps-fr_block_end,
}
use torch_mojo_backend.ProcessGroup.Blocks.Grouped.{Leads, closes}

never_raises : (b : Bool) (block : Option (List Bool)) (g : Group) → (ends_with b block g).0 ≡ ok tt
unfolding begin pure
never_raises false none g = refl
never_raises false (some block) g = refl
never_raises true none g = refl
never_raises true (some block) g = refl

fr_block_end_ok : (g : Group) → (fr_block_end g).0 ≡ ok tt
unfolding fr_block_end
fr_block_end_ok g = never_raises g.records_flight g.fr_block _

Leads-then :
    {Q : Group → Type 0} {A B : Type 0} (r : Result A) (f : A → M B) (g : Group)
    → Q g
    → ((a : A) → Keeps Q (f a))
    → Q (then_run r f g).1
Leads-then (ok a) f g h k = (k a).at g h
Leads-then (err e) f g h k = h

then_leads :
    {P Q : Group → Type 0} {A B : Type 0} (r : Result A) (f : A → M B)
    → ((g : Group) → P g → Q g)
    → ((a : A) → Leads P Q (f a))
    → (g : Group) → P g
    → Q (then_run r f g).1
then_leads (ok a) f weaker l g h = (l a).at g h
then_leads (err e) f weaker l g h = weaker g h

module _ {P Q : Group → Type 0} where
  -- What follows a method that leads to `Q` keeps it.
  Leads-bind :
      {A B : Type 0} (m : M A) (f : A → M B)
      → Leads P Q m
      → ((a : A) → Keeps Q (f a))
      → Leads P Q (m >>= f)
  unfolding ◌>>=◌
  Leads-bind m f l k = record {
    at = λ g h. let (r, g') = m g in Leads-then {Q = Q} r f g' (l.at g h) k;
  }

  -- What precedes such a method keeps `P`, which is enough where it raises.
  Keeps-Leads :
      {A B : Type 0} (m : M A) (f : A → M B)
      → ((g : Group) → P g → Q g)
      → Keeps P m
      → ((a : A) → Leads P Q (f a))
      → Leads P Q (m >>= f)
  unfolding ◌>>=◌
  Keeps-Leads m f weaker k l = record {
    at = λ g h. let (r, g') = m g in then_leads {P = P} {Q = Q} r f weaker l g' (k.at g h);
  }

  -- The end entry of a block is described before it is submitted.
  Leads-block_end :
      {A : Type 0} (rest : M A)
      → Keeps P fr_block_end
      → Leads P Q rest
      → Leads P Q (fr_block_end >>= λ _. rest)
  unfolding ◌>>=◌
  Leads-block_end rest k l = record {
    at = λ g h.
        subst (λ (r : Result (Unit {0})). Q (then_run r (λ _. rest) (fr_block_end g).1).1)
          (sym (fr_block_end_ok g)) (l.at _ (k.at g h));
  }

module _ (strict : Bool) where
  submitted : (o : Bool) → Leads (At strict (open_groups o) false) (At strict 0 false) submit
  submitted true = closes strict false 1
  submitted false = closes strict false 0

  left : (o : Bool) (n : ℕ) (g : Group) → At strict n o g → At strict n false (leave g)
  left o n g h = record { level = h.level; block = refl; safe = h.safe; owner = λ e. cc e }

  settle :
      (o : Bool) (index : ℕ) (records : List Tensor) (pairs : List (Tensor × Tensor))
      → Leads (At strict (open_groups o) false) (At strict 0 false) (
          fr_block_end >>= λ _.
          submit >>= λ _. record_tensors index records >>= λ _. finish index pairs)
  settle o index records pairs =
      Leads-block_end _ (Keeps-fr_block_end strict (open_groups o) false) (
        Leads-bind submit _ (submitted o) λ _.
          Keeps-bind _ _ (Keeps-record_tensors strict 0 false index records)
            λ _. Keeps-finish strict false index pairs)

  -- A block that is left behind is submitted, and what it deferred is done outside it.
  Leads-unwind : (index : ℕ) → Leads (At strict 1 true) (At strict 0 false) (unwind index)
  unfolding unwind ◌>>=◌
  Leads-unwind index = record {
    at = λ g h.
        (settle true index g.coalesced_records g.coalesced_pairs).at (leave g) (left true 1 g h);
  }

  aborted :
      (c : Option ℕ)
      → Leads (At strict (open_groups (is_some c)) (is_some c)) (At strict 0 false) (abort_at c)
  unfolding abort_at
  aborted none = record { at = (Keeps-pure tt).at }
  aborted (some index) = Leads-unwind index

-- A group is open if and only if a coalescing block is and, if `strict`, no copy read what an open
-- group had still to write.
abbrev pub Settled : Bool → Group → Type 0
Settled strict g = At strict (open_groups (is_some g.coalescing)) (is_some g.coalescing) g

module _ (strict : Bool) where
  pub At-Settled : (o : Bool) (g : Group) → At strict (open_groups o) o g → Settled strict g
  At-Settled o g h = subst (λ (b : Bool). At strict (open_groups b) b g) (sym h.block) h

  Leads-abort : Leads (Settled strict) (At strict 0 false) abort_coalescing
  unfolding abort_coalescing
  Leads-abort = record { at = λ g h. (aborted strict g.coalescing).at g h }

  unwound_err :
      {A : Type 0} (e : Types.Error)
      → Leads (Settled strict) (At strict 0 false) (unwound {A = A} (err e))
  unwound_err e = Leads-bind abort_coalescing _ Leads-abort λ _. Keeps-raise e

  unwound-Settled :
      {A : Type 0} (r : Result A) (g : Group) → Settled strict g → Settled strict (unwound r g).1
  unwound-Settled (ok a) g h = unfold pure in h
  unwound-Settled (err e) g h = At-Settled false _ ((unwound_err e).at g h)

  finally-At :
      {A : Type 0} (n : ℕ) (o : Bool) (r : Result A) (g : Group)
      → At strict n o g
      → At strict n o (after_finally r (clear_tag g)).1
  unfolding modify
  finally-At n o r g h = record { level = h.level; block = h.block; safe = h.safe; owner = h.owner }

  module _ {A : Type 0} (m : M A) (g : Group)
      (k : Keeps (At strict (open_groups (is_some g.coalescing)) (is_some g.coalescing)) m) where
    method-Settled : Settled strict g → Settled strict (m g).1
    method-Settled h = At-Settled _ (m g).1 (k.at g h)

    pub loud-Settled : Settled strict g → Settled strict (loud m g).1
    unfolding loud try_finally
    loud-Settled h =
        let (r, g') = m g in
        let (r', g'') = unwound r g' in
        At-Settled _ _ (finally-At _ _ r' g'' (unwound-Settled r g' (method-Settled h)))

    raised :
        (r : Result A) (g' : Group) (e : Types.Error)
        → Settled strict g'
        → (try_finally (unwound r) clear_tag g').0 ≡ err e
        → At strict 0 false (try_finally (unwound r) clear_tag g').1
    unfolding try_finally
    raised (ok a) g' e h q = unfold pure modify in cc q
    raised (err x) g' e h q = finally-At 0 false _ _ ((unwound_err x).at g' h)

    pub loud_raises :
        (e : Types.Error) → Settled strict g → (loud m g).0 ≡ err e → At strict 0 false (loud m g).1
    unfolding loud try_finally
    loud_raises e h q = let (r, g') = m g in raised r g' e (method-Settled h) q

  entered :
      (index : ℕ) (g : Group) (r : Bool)
      → At strict 0 false g
      → let g' = record g { log = Event.native g.caller Call.group_start r ∷ g.log } in
        Settled strict
          (then_run
            (if r then ok tt else err Types.native_failed)
            (λ (_ : Unit {0}). modify (enter index))
            g').1
  unfolding modify depth copies_safely
  entered index g true h = record {
    level = λ u. ground (arith, h.level u);
    block = refl;
    safe = h.safe;
    owner = λ e. refl;
  }
  entered index g false h =
      At-Settled false _
        (record { level = h.level; block = h.block; safe = h.safe; owner = h.owner })

  Leads-enter :
      (index : ℕ)
      → Leads
          (At strict 0 false)
          (Settled strict)
          (call Call.group_start >>= λ _. modify (enter index))
  unfolding ◌>>=◌ call
  Leads-enter index = record {
    at = λ g h. entered index g (g.env.succeeds g.log Call.group_start) h;
  }

  Leads-start :
      (b : Bool) (device : Option ℕ)
      → Leads (At strict (open_groups b) b) (Settled strict) (start_block b device)
  unfolding start_block
  Leads-start true device = record {
    at = λ g h.
        At-Settled true _
          ((Keeps-raise {P = At strict (open_groups true) true} {A = Unit {0}} _).at g h);
  }
  Leads-start false device =
      Keeps-Leads _ _ (At-Settled false) (Keeps-index_of strict 0 false device) λ index.
        Keeps-Leads _ _ (At-Settled false) (Keeps-ensure strict 0 false index)
          λ _. Leads-enter index

  pub start-Settled :
      (device : Option ℕ) (g : Group)
      → Settled strict g
      → Settled strict (start_coalescing device g).1
  unfolding start_coalescing
  start-Settled device g h = (Leads-start (is_some g.coalescing) device).at g h

  -- Submitting clears the tag and leaves no group open.
  Leads-submit :
      (o : Bool)
      → Leads (At strict (open_groups o) false) (At strict 0 false) (try_finally submit clear_tag)
  unfolding try_finally
  Leads-submit o = record {
    at = λ g h. let (r, g') = submit g in finally-At 0 false r g' ((submitted strict o).at g h);
  }

  finished :
      (o : Bool) (index : ℕ) (records tensors : List Tensor) (pairs : List (Tensor × Tensor))
      → Leads (At strict (open_groups o) false) (At strict 0 false) (
          fr_block_end >>= λ _. try_finally submit clear_tag >>= λ _.
          record_tensors index records >>= λ _. finish index pairs >>= λ _. work index tensors)
  finished o index records tensors pairs =
      Leads-block_end _ (Keeps-fr_block_end strict (open_groups o) false) (
        Leads-bind _ _ (Leads-submit o) λ _.
          Keeps-bind _ _ (Keeps-record_tensors strict 0 false index records) λ _.
            Keeps-bind _ _ (Keeps-finish strict false index pairs)
              λ _. Keeps-work strict 0 false index tensors)

  pub end-At :
      (device : Option ℕ) (g : Group)
      → Settled strict g
      → At strict 0 false (end_coalescing device g).1
  unfolding end_coalescing ◌>>=◌ index_of
  end-At device g h =
      (finished (is_some g.coalescing) _ g.coalesced_records g.coalesced_tensors
          g.coalesced_pairs).at
        (leave g) (left strict (is_some g.coalescing) _ g h)
