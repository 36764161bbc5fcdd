-- ===== src/Monitor/Watched.antt =====
-- Which stores the monitor keeps a state object for, over every history of its calls.
use torch_mojo_backend.Prelude.{
  ℕ, ◌<◌, ◌≡◌, ◌≢◌, ◌⊎◌, inl, inr, refl, ap, sym, ◌∙◌, Bool, true, false, not, ◌&&◌, ◌||◌, Option,
  none, some, List, [], ◌∷◌, ◌++◌, ◌==◌, arith, if◌then◌else◌, is_some, length, get_elem?,
  length-append, ℕ_discrete,
}
use torch_mojo_backend.DumpState.{StoreState}
use torch_mojo_backend.Monitor
use torch_mojo_backend.Monitor.{
  Poller, Answer, Plan, Claim, new_poller, find, put, pop, alter, has_group, install, refresh,
  attach, attach_state, detach, forget_at, poll_begin, poll_end, acknowledge, claim_store,
  claim_object, finish_store, finish_object, answered, serve_object, serve_at, is_at, nonce_of,
  first_state, restarted, object_at,
}
use torch_mojo_backend.Monitor.Tables.{
  is_unique, find-put, is_unique-put, length-alter, find-put_same, find-put_other,
}

-- Every state object belongs to one store key.
pub record Objects (p : Poller) : Type 0 where
  pub unique : is_unique p.states ≡ true
  pub bound : (k id : ℕ) → find p.states k ≡ some id → id < length p.heap
  pub apart : (j k id : ℕ) → find p.states j ≡ some id → find p.states k ≡ some id → j ≡ k

-- The keys with a state object are those of the attached groups.
pub record Watched (p : Poller) : Type 0 where
  pub objects : Objects p
  pub keys : (k : ℕ) → is_some (find p.states k) ≡ has_group k p.groups

module _ (p : Poller) (h : Objects p) (key : ℕ) where
  abbrev table : List (ℕ × ℕ)
  table = put p.states key (length p.heap)

  -- What a key finds after an object was installed for `key`: that object, or its own as before.
  found_after :
      (k id : ℕ)
      → find table k ≡ some id
      → ((key ≡ k) × (length p.heap ≡ id)) ⊎ ((key ≢ k) × (find p.states k ≡ some id))
  found_after k id e = elim (ℕ_discrete key k) [
    | yes q ↦ inl (q, cc (find-put_same p.states key k (length p.heap) q, e))
    | no q ↦ inr (q, sym (find-put_other p.states key k (length p.heap) q) ∙ e)
  ]

  installed_bound :
      (k id : ℕ) (s : StoreState) → find table k ≡ some id → id < length (p.heap ++ s ∷ [])
  installed_bound k id s e = elim (found_after k id e) [
    | inl (q, w) ↦ omega (arith, length-append p.heap (s ∷ []), w)
    | inr (q, w) ↦ omega (arith, length-append p.heap (s ∷ []), h.bound k id w)
  ]

  installed_apart : (j k id : ℕ) → find table j ≡ some id → find table k ≡ some id → j ≡ k
  installed_apart j k id a b = elim (found_after j id a) [
    | inl (q, w) ↦ elim (found_after k id b) [
      | inl (r, v) ↦ sym q ∙ r
      | inr (r, v) ↦ omega (arith, w, h.bound k id v)
    ]
    | inr (q, w) ↦ elim (found_after k id b) [
      | inl (r, v) ↦ omega (arith, v, h.bound j id w)
      | inr (r, v) ↦ h.apart j k id w v
    ]
  ]

  pub install-Objects : (s : StoreState) → Objects (install key s p)
  install-Objects s = record {
    unique = is_unique-put p.states key (length p.heap) h.unique;
    bound = λ k id e. installed_bound k id s e;
    apart = installed_apart;
  }

  pub find-install :
      (s : StoreState) (k : ℕ)
      → is_some (find (install key s p).states k) ≡ (key == k || is_some (find p.states k))
  find-install s k = ground (arith, find-put p.states key k (length p.heap))

-- Installing an object for a key that has a group.
pub replaced :
    (key : ℕ) (s : StoreState) (p : Poller)
    → has_group key p.groups ≡ true
    → Watched p
    → Watched (install key s p)
replaced key s p g h = record {
  objects = install-Objects p h.objects key s;
  keys = λ k. ground (arith, find-install p h.objects key s k, h.keys k, same k);
}
  where
    same : (k : ℕ) → key ≡ k → has_group k p.groups ≡ true
    same k e = ap (λ (x : ℕ). has_group x p.groups) (sym e) ∙ g

-- Calls that only change what the objects hold.
pub altered :
    (id : ℕ) (f : StoreState → StoreState) (p : Poller)
    → Watched p
    → Watched (record p { heap = alter p.heap id f })
altered id f p h = record {
  objects = record {
    unique = h.objects.unique;
    bound = λ k i e. omega (arith, length-alter p.heap id f, h.objects.bound k i e);
    apart = h.objects.apart;
  };
  keys = h.keys;
}

serve_at-Watched :
    (id now : ℕ) (a : Answer) (s : Option StoreState) (p : Poller)
    → Watched p
    → Watched (serve_at id now a s p).0
serve_at-Watched id now a none p h = h
serve_at-Watched id now a (some s) p h = altered id _ p h

answered-Watched :
    (key id now : ℕ) (a : Answer) (nonce : Option ℕ) (p : Poller)
    → has_group key p.groups ≡ true
    → Watched p
    → Watched (answered key id now a nonce p).0
answered-Watched key id now a none p g h = replaced key _ p g h
answered-Watched key id now a (some x) p g h = either (x == a.nonce)
  where
    either :
        (b : Bool)
        → Watched
            (if b
              then serve_object id now a p
              else serve_object (length p.heap) now a (install key (restarted a) p)).0
    either true = serve_at-Watched id now a _ p h
    either false = serve_at-Watched _ now a _ _ (replaced key (restarted a) p g h)

at_some : (o : Option ℕ) (id : ℕ) → is_at o id ≡ true → is_some o ≡ true
at_some none id h = cc h
at_some (some x) id h = refl

pub poll_begin-Watched :
    (coord cap now : ℕ) (stuck : Bool) (key id : ℕ) (a : Option Answer) (p : Poller)
    → Watched p
    → Watched (poll_begin coord cap now stuck key id a p).0
unfolding poll_begin
poll_begin-Watched coord cap now stuck key id none p h =
    either (is_at (find p.states key) id && not stuck)
  where
    either :
        (b : Bool)
        → Watched
            (if b then record p { heap = alter p.heap id (Monitor.slower coord cap now) } else p)
    either true = altered id _ p h
    either false = h
poll_begin-Watched coord cap now stuck key id (some a) p h =
    either (is_at (find p.states key) id) λ e. sym (h.keys key) ∙ at_some (find p.states key) id e
  where
    q : Poller
    q = record p { heap = alter p.heap id λ s. record s { poll_backoff = 0 } }

    either :
        (b : Bool)
        → (b ≡ true → has_group key p.groups ≡ true)
        → Watched
            (if b then answered key id now a (nonce_of (get_elem? p.heap id)) q else (p, none)).0
    either true g = answered-Watched key id now a _ q (g refl) (altered id _ p h)
    either false g = h
