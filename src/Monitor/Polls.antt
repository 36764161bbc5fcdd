-- ===== src/Monitor/Polls.antt =====
-- What one poll serves, and what its end may change.
use torch_mojo_backend.Prelude.{
  ℕ, ◌≡◌, ◌≢◌, refl, ap, sym, subst, Bool, true, false, not, ◌&&◌, Option, none, some, [], ◌==◌,
  arith, if◌then◌else◌, is_empty, length, get_elem?, leb, ltb,
}
use torch_mojo_backend.Prelude.Sets.{elem, sort}
use torch_mojo_backend.DumpState
use torch_mojo_backend.DumpState.{StoreState, new_state, claim}
use torch_mojo_backend.DumpState.Effects.{elem-claim}
use torch_mojo_backend.DumpState.Invariant.{Inv, new_state-Inv}
use torch_mojo_backend.Monitor
use torch_mojo_backend.Monitor.{
  attach, attach_state, Poller, Answer, Plan, Claim, find, put, alter, install, poll_begin,
  poll_end, serve, serve_at, answered, is_at, nonce_of, first_state, restarted, mark_seen,
}
use torch_mojo_backend.Monitor.Tables.{
  find-put_same, get_elem?-alter, get_elem?-alter_other, get_elem?-last, length-alter,
}

marked-Inv :
    (b : Bool) (nonce : Option ℕ) (base : ℕ) (seen : Bool)
    → let s = new_state nonce (some base) seen in
      Inv (if b then record s { torch = DumpState.seen } else s)
marked-Inv true _ base seen =
    let v = new_state-Inv _ base seen in
    record {
      low = v.low;
      top = v.top;
      base_known = v.base_known;
      high_known = v.high_known;
      ordered = v.ordered;
      each = v.each;
    }
marked-Inv false _ base seen = new_state-Inv _ base seen

claim_first :
    (s : StoreState) (base now upto g : ℕ)
    → Inv s
    → s.failed ≡ []
    → s.high ≡ some base
    → elem g (claim s now upto).1 ≡ (ltb base g && leb g upto)
claim_first s base now upto g v f h =
    let top : v.top ≡ base = cc (v.high_known, h) in
    let spent : elem g s.failed ≡ false = rw f (unfold elem in refl) in
    ground (arith, elem-claim s now upto v g, top, spent)

-- What a state that has claimed nothing yet claims: what lies above its baseline.
claim_marked :
    (b : Bool) (nonce : Option ℕ) (base : ℕ) (seen : Bool) (now upto g : ℕ)
    → let s = new_state nonce (some base) seen in
      elem g (claim (if b then record s { torch = DumpState.seen } else s) now upto).1
      ≡ (ltb base g && leb g upto)
unfolding new_state
claim_marked true x base seen now upto g =
    claim_first _ base now upto g (marked-Inv true x base seen) refl refl
claim_marked false x base seen now upto g =
    claim_first _ base now upto g (marked-Inv false x base seen) refl refl

serve_new :
    (nonce : Option ℕ) (base : ℕ) (seen : Bool) (now : ℕ) (a : Answer) (g : ℕ)
    → elem g (serve now a (new_state nonce (some base) seen)).1.0
      ≡ (ltb base g && leb g a.generation)
unfolding serve new_state
serve_new x base seen now a g =
    claim_marked (Monitor.differs a.generation (some base)) x base seen now a.generation g

-- What a poll does with an object that was just installed for its answer.
serve_installed :
    (key now : ℕ) (a : Answer) (s : StoreState) (p : Poller)
    → Monitor.serve_object (length p.heap) now a (install key s p)
      ≡ serve_at (length p.heap) now a (some s) (install key s p)
serve_installed key now a s p =
    ap (λ (o : Option StoreState). serve_at (length p.heap) now a o (install key s p))
      (get_elem?-last p.heap s)

-- Whether `r` serves, for the store `key`, exactly the generations after `base` that `a` has, with the new
-- object `id`.
pub record ExactPlan (key id base : ℕ) (a : Answer) (r : Poller × Option Plan) : Type 0 where
  pub plan : Plan
  pub served : r.1 ≡ some plan
  pub object : plan.object ≡ id
  pub current : find r.0.states key ≡ some id
  pub exactly : (g : ℕ) → elem g plan.gens ≡ (ltb base g && leb g a.generation)

restart_at :
    (key id now n : ℕ) (a : Answer) (p : Poller)
    → n ≢ a.nonce
    → ExactPlan key (length p.heap) 0 a (answered key id now a (some n) p)
restart_at key id now n a p h = subst (ExactPlan key (length p.heap) 0 a) (sym moved) (record {
  plan = record {
    object = length p.heap;
    gens = (serve now a (restarted a)).1.0;
    torch_signal = (serve now a (restarted a)).1.1;
    unacked = sort (serve now a (restarted a)).0.unacked;
  };
  served = refl;
  object = refl;
  current = find-put_same p.states key key (length p.heap) refl;
  exactly = serve_new (some a.nonce) 0 false now a;
})
  where
    moved :
        answered key id now a (some n) p
        ≡ serve_at (length p.heap) now a (some (restarted a)) (install key (restarted a) p)
    moved = ground (arith, serve_installed key now a (restarted a) p)

at_found : (o : Option ℕ) (id : ℕ) → o ≡ some id → is_at o id ≡ true
at_found none id h = cc h
at_found (some x) id h = ground (arith, other)
  where
    other : x ≡ id
    other = cc h

-- A store whose server restarted, so that its incarnation differs from the one that its state
-- object was made for, gets a new object, and the poll that saw it serves every generation that
-- the new server has had, from the first.
pub restart_serves_all :
    (coord cap now : ℕ) (stuck : Bool) (key id n : ℕ) (a : Answer) (p : Poller)
    → find p.states key ≡ some id
    → nonce_of (get_elem? p.heap id) ≡ some n
    → n ≢ a.nonce
    → ExactPlan key (length p.heap) 0 a (poll_begin coord cap now stuck key id (some a) p)
unfolding poll_begin
restart_serves_all coord cap now stuck key id n a p e w h =
    let q : Poller = record p { heap = alter p.heap id λ s. record s { poll_backoff = 0 } } in
    let there : is_at (find p.states key) id ≡ true = at_found (find p.states key) id e in
    rw there (
      rw w (
        subst (λ (i : ℕ). ExactPlan key i 0 a (answered key id now a (some n) q))
          (length-alter p.heap id _) (restart_at key id now n a q h)))

-- The end of a poll, whenever it comes, changes no state object but the one that its claim was made
-- on: a dump that outlives a restart or the last group of its store settles nothing of another
-- state.
pub late_end_isolated :
    (coord now : ℕ) (plan : Plan) (dumped acked : Bool) (p : Poller) (id : ℕ)
    → plan.object ≢ id
    → get_elem? (poll_end coord now plan dumped acked p).heap id ≡ get_elem? p.heap id
unfolding poll_end
late_end_isolated coord now plan dumped acked p id h =
    either (not (is_empty plan.gens)) plan.torch_signal
  where
    either :
        (b c : Bool)
        → get_elem?
            (if b
              then alter p.heap plan.object (DumpState.finish coord now plan.gens dumped acked)
              else if c
              then alter p.heap plan.object (Monitor.torch_dumped coord now dumped)
              else p.heap)
            id
          ≡ get_elem? p.heap id
    either true c = get_elem?-alter_other p.heap plan.object id _ h
    either false true = get_elem?-alter_other p.heap plan.object id _ h
    either false false = refl

serve_at_object :
    (key id now base : ℕ) (a : Answer) (nonce : Option ℕ) (known : Bool) (p : Poller)
    → get_elem? p.heap id ≡ some (new_state nonce (some base) known)
    → find p.states key ≡ some id
    → ExactPlan key id base a (Monitor.serve_object id now a p)
serve_at_object key id now base a x known p e f =
    subst (λ (o : Option StoreState). ExactPlan key id base a (serve_at id now a o p)) (sym e)
      (record {
        plan = record {
          object = id;
          gens = (serve now a (new_state x (some base) known)).1.0;
          torch_signal = (serve now a (new_state x (some base) known)).1.1;
          unacked = sort (serve now a (new_state x (some base) known)).0.unacked;
        };
        served = refl;
        object = refl;
        current = f;
        exactly = serve_new x base known now a;
      })

answered_known :
    (key id now n base : ℕ) (a : Answer) (known : Bool) (p : Poller)
    → get_elem? p.heap id ≡ some (new_state (some n) (some base) known)
    → find p.states key ≡ some id
    → n ≡ a.nonce
    → ExactPlan key id base a (answered key id now a (some n) p)
answered_known key id now n base a known p e f h =
    let same : (n == a.nonce) ≡ true = ground (arith, h) in
    rw same (serve_at_object key id now base a (some n) known p e f)

poll_known :
    (coord cap now : ℕ) (stuck : Bool) (key id n base : ℕ) (a : Answer) (known : Bool) (p : Poller)
    → get_elem? p.heap id ≡ some (new_state (some n) (some base) known)
    → find p.states key ≡ some id
    → n ≡ a.nonce
    → ExactPlan key id base a (poll_begin coord cap now stuck key id (some a) p)
unfolding poll_begin new_state
poll_known coord cap now stuck key id n base a known p e f h =
    let there : is_at (find p.states key) id ≡ true = at_found (find p.states key) id f in
    rw there (
      rw e (
        answered_known key id now n base a known
          (record p { heap = alter p.heap id λ s. record s { poll_backoff = 0 } })
          (get_elem?-alter p.heap id _ (λ s. record s { poll_backoff = 0 }) e) f h))

-- A group that attaches to a store which the process does not watch takes the store's generation
-- as the baseline: the next answer of the same server has the process serve exactly the generations
-- after it, however many an earlier job had signalled there.
pub attach_serves_later :
    (coord cap now : ℕ) (stuck : Bool) (group key rank : ℕ) (before a : Answer) (p : Poller)
    → find p.states key ≡ none
    → before.nonce ≡ a.nonce
    → ExactPlan key (length p.heap) before.generation a (
        poll_begin coord cap now stuck key
          (length p.heap)
          (some a)
          (attach group key rank (some before) p))
unfolding attach
attach_serves_later coord cap now stuck group key rank before a p e h =
    poll_known coord cap now stuck key (length p.heap) before.nonce before.generation a
      before.has_key (attach group key rank (some before) p) (rw e (get_elem?-last p.heap _))
      (rw e (find-put_same p.states key key (length p.heap) refl)) h
