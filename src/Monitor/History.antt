-- ===== src/Monitor/History.antt =====
-- Every history of the monitor's calls, its threads' locked blocks in any order.
use torch_mojo_backend.Prelude.{
  ℕ, ◌≡◌, refl, ap, sym, ◌∙◌, Bool, true, false, not, ◌||◌, Option, none, some, List, ◌==◌, arith,
  if◌then◌else◌, any, is_some, is_empty,
}
use torch_mojo_backend.DumpState
use torch_mojo_backend.DumpState.{StoreState}
use torch_mojo_backend.Monitor
use torch_mojo_backend.Monitor.{
  Poller, Answer, Plan, Claim, new_poller, find, put, pop, alter, has_group, install, refresh,
  attach, attach_state, detach, forget_at, poll_begin, poll_end, acknowledge, claim_store,
  claim_object, finish_store, finish_object, nonce_of, first_state, restarted, object_at,
}
use torch_mojo_backend.Monitor.Tables.{
  is_unique, find-pop, is_unique-pop, has_group-put, has_group-pop, pop_absent,
}
use torch_mojo_backend.Monitor.Watched.{
  Objects, Watched, install-Objects, find-install, altered, poll_begin-Watched,
}

-- The monitor's state objects, whatever group is attached next.
with_group :
    (group key rank : ℕ) (p q : Poller)
    → find p.groups group ≡ none
    → q.groups ≡ p.groups
    → Objects q
    → ((k : ℕ) → is_some (find q.states k) ≡ (has_group k p.groups || key == k))
    → Watched (record q { groups = put q.groups group (key, rank) })
with_group group key rank p q a e h keys = record {
  objects = record { unique = h.unique; bound = h.bound; apart = h.apart };
  keys = λ k.
      keys k
      ∙ sym (has_group-put p.groups group key rank k a)
      ∙ ap (λ (d : List (ℕ × (ℕ × ℕ))). has_group k (put d group (key, rank))) (sym e);
}

module _ (group key rank : ℕ) (p : Poller) (absent : find p.groups group ≡ none)
    (h : Watched p) where
  fresh_state :
      (s : StoreState)
      → Watched (record (install key s p) { groups = put p.groups group (key, rank) })
  fresh_state s =
      with_group group key rank p (install key s p) absent refl (install-Objects p h.objects key s)
        λ k. ground (arith, find-install p h.objects key s k, h.keys k)

  known :
      (id k : ℕ)
      → find p.states key ≡ some id
      → is_some (find p.states k) ≡ (has_group k p.groups || key == k)
  known id k e = ground (arith, h.keys k, same)
    where
      same : key ≡ k → is_some (find p.states k) ≡ true
      same q = ap (λ (x : ℕ). is_some (find p.states x)) (sym q) ∙ ap is_some e

  refresh-Watched :
      (id : ℕ) (nonce : Option ℕ) (a : Answer)
      → find p.states key ≡ some id
      → Watched
          (let q = refresh key nonce a p in record q { groups = put q.groups group (key, rank) })
  refresh-Watched id none a e = fresh_state _
  refresh-Watched id (some x) a e = either (x == a.nonce)
    where
      either :
          (b : Bool)
          → Watched (
              let q = if b then p else install key (restarted a) p in
              record q { groups = put q.groups group (key, rank) })
      either true = with_group group key rank p p absent refl h.objects λ k. known id k e
      either false = fresh_state _

  attached :
      (o : Option ℕ) (read : Option Answer)
      → find p.states key ≡ o
      → Watched (
          let q = attach_state key o read p in record q { groups = put q.groups group (key, rank) })
  unfolding attach_state
  attached none read e = fresh_state _
  attached (some id) none e = with_group group key rank p p absent refl h.objects λ k. known id k e
  attached (some id) (some a) e = refresh-Watched id _ a e

  attach-Watched : (read : Option Answer) → Watched (attach group key rank read p)
  unfolding attach
  attach-Watched read = attached (find p.states key) read refl

module _ (group : ℕ) (p : Poller) (h : Watched p) where
  forgotten :
      (key rank : ℕ) (b : Bool)
      → find p.groups group ≡ some (key, rank)
      → has_group key (pop p.groups group) ≡ b
      → Watched (record p {
        groups = pop p.groups group;
        states = if b then p.states else pop p.states key;
      })
  forgotten key rank true e q = record {
    objects = record {
      unique = h.objects.unique;
      bound = h.objects.bound;
      apart = h.objects.apart;
    };
    keys = λ k. ground (arith, h.keys k, has_group-pop p.groups group key rank k e, same k);
  }
    where
      same : (k : ℕ) → key ≡ k → has_group k (pop p.groups group) ≡ true
      same k r = ap (λ (x : ℕ). has_group x (pop p.groups group)) (sym r) ∙ q
  forgotten key rank false e q = record {
    objects = record {
      unique = is_unique-pop p.states key h.objects.unique;
      bound = λ k id f. h.objects.bound k id (still k id f);
      apart = λ j k id f g. h.objects.apart j k id (still j id f) (still k id g);
    };
    keys = λ k. ground (
      arith,
      h.keys k,
      has_group-pop p.groups group key rank k e,
      same k,
      find-pop p.states key k h.objects.unique,
    );
  }
    where
      same : (k : ℕ) → key ≡ k → has_group k (pop p.groups group) ≡ false
      same k r = ap (λ (x : ℕ). has_group x (pop p.groups group)) (sym r) ∙ q

      still : (k id : ℕ) → find (pop p.states key) k ≡ some id → find p.states k ≡ some id
      still k id f = ground (arith, find-pop p.states key k h.objects.unique)

  detached :
      (o : Option (ℕ × ℕ))
      → find p.groups group ≡ o
      → Watched (record p {
        groups = pop p.groups group;
        states = forget_at o (pop p.groups group) p.states;
      })
  detached none e = record {
    objects = record {
      unique = h.objects.unique;
      bound = h.objects.bound;
      apart = h.objects.apart;
    };
    keys = λ k. h.keys k ∙ ap (has_group k) (sym (pop_absent p.groups group e));
  }
  detached (some (key, rank)) e = forgotten key rank (has_group key (pop p.groups group)) e refl

  detach-Watched : Watched (detach group p)
  unfolding detach
  detach-Watched = detached (find p.groups group) refl

poll_end-Watched :
    (coord now : ℕ) (plan : Plan) (dumped acked : Bool) (p : Poller)
    → Watched p
    → Watched (poll_end coord now plan dumped acked p)
unfolding poll_end
poll_end-Watched coord now plan dumped acked p h =
    either (not (is_empty plan.gens)) plan.torch_signal
  where
    either :
        (b c : Bool)
        → Watched (record p {
          heap =
              if b
              then alter p.heap plan.object (DumpState.finish coord now plan.gens dumped acked)
              else if c
              then alter p.heap plan.object (Monitor.torch_dumped coord now dumped)
              else p.heap;
        })
    either true c = altered plan.object _ p h
    either false true = altered plan.object _ p h
    either false false = record {
      objects = record {
        unique = h.objects.unique;
        bound = h.objects.bound;
        apart = h.objects.apart;
      };
      keys = h.keys;
    }

claim_object-Watched :
    (now upto : ℕ) (id : Option ℕ) (s : Option StoreState) (p : Poller)
    → Watched p
    → Watched (claim_object now upto id s p).0
claim_object-Watched now upto none s p h = h
claim_object-Watched now upto (some id) none p h = h
claim_object-Watched now upto (some id) (some s) p h = altered id _ p h

finish_object-Watched :
    (coord now : ℕ) (id : Option ℕ) (gens : List ℕ) (dumped acked : Bool) (p : Poller)
    → Watched p
    → Watched (finish_object coord now id gens dumped acked p)
finish_object-Watched coord now none gens dumped acked p h = h
finish_object-Watched coord now (some id) gens dumped acked p h = altered id _ p h

-- One call of a group, or one locked block of the monitor or of a watchdog's reporter. A group is
-- attached once.
pub data Step (p : Poller) : Poller → Type 0 where
  attaches :
      (group key rank : ℕ) (read : Option Answer)
      → find p.groups group ≡ none
      → Step p (attach group key rank read p)
  detaches : (group : ℕ) → Step p (detach group p)
  polls :
      (coord cap now : ℕ) (stuck : Bool) (key id : ℕ) (a : Option Answer)
      → Step p (poll_begin coord cap now stuck key id a p).0
  acknowledges : (plan : Plan) → Step p (acknowledge plan p)
  ends_poll :
      (coord now : ℕ) (plan : Plan) (dumped acked : Bool)
      → Step p (poll_end coord now plan dumped acked p)
  claims : (now key upto : ℕ) → Step p (claim_store now key upto p).0
  finishes :
      (coord now : ℕ) (claimed : Claim) (dumped acked : Bool)
      → Step p (finish_store coord now claimed dumped acked p)

pub data Reach (p : Poller) : Poller → Type 0 where
  here : Reach p p
  next : {q r : Poller} → Reach p q → Step q r → Reach p r

Step-Watched : {p q : Poller} → Step p q → Watched p → Watched q
unfolding acknowledge claim_store finish_store
Step-Watched {p} (attaches group key rank read a) h = attach-Watched group key rank p a h read
Step-Watched {p} (detaches group) h = detach-Watched group p h
Step-Watched {p} (polls coord cap now stuck key id a) h =
    poll_begin-Watched coord cap now stuck key id a p h
Step-Watched {p} (acknowledges plan) h = altered plan.object _ p h
Step-Watched {p} (ends_poll coord now plan dumped acked) h =
    poll_end-Watched coord now plan dumped acked p h
Step-Watched {p} (claims now key upto) h = claim_object-Watched now upto _ _ p h
Step-Watched {p} (finishes coord now claimed dumped acked) h =
    finish_object-Watched coord now claimed.object claimed.gens dumped acked p h

pub Reach-Watched : {p : Poller} → Reach new_poller p → Watched p
unfolding find any is_unique
Reach-Watched here = record {
  objects = record { unique = refl; bound = λ k id e. cc e; apart = λ j k id e f. cc e };
  keys = λ k. refl;
}
Reach-Watched (next r s) = Step-Watched s (Reach-Watched r)

-- In every interleaving of attaching groups that are not attached, detaching, polls, claims and
-- their ends, the stores with a state object are exactly those that an attached group has.
pub watched_exactly :
    {p : Poller} → Reach new_poller p → (k : ℕ) → is_some (find p.states k) ≡ has_group k p.groups
watched_exactly r k = (Reach-Watched r).keys k
