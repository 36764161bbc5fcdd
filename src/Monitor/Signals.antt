-- ===== src/Monitor/Signals.antt =====
-- flight_recorder.py, `signal_dump` and the order in which a poll reads: many ranks signal at once,
-- each of their two store operations is one step. The signaller of torch's own NCCL process groups,
-- which is not in this repository, sets the key alone.
use torch_mojo_backend.Prelude.{
  ℕ, ◌+◌, ◌≤◌, ◌≡◌, refl, Bool, true, false, ◌||◌, List, [], ◌∷◌, ◌++◌, ◌==◌, arith, is_empty, not,
  all, leb,
}
use torch_mojo_backend.Prelude.Sets.{elem}

-- The two keys of the store. `taken` has the generations whose signaller has not set torch's key
-- yet, `signalled` those whose signaller has; `by_torch` is whether torch's signaller has set it.
pub record Keys : Type 0 where
  pub generation : ℕ
  pub dump_key : Bool
  pub by_torch : Bool
  pub taken : List ℕ
  pub signalled : List ℕ

abbrev pub no_keys : Keys
no_keys = record { generation = 0; dump_key = false; by_torch = false; taken = []; signalled = [] }

-- `client.add(GEN_KEY, 1)`
unfoldable pub add_generation : Keys → Keys
add_generation k = record k { generation = k.generation + 1; taken = (k.generation + 1) ∷ k.taken }

-- `client.set(DUMP_KEY, rank)`, by the signaller of generation `gen`
unfoldable pub set_key : (before : List ℕ) → ℕ → (after : List ℕ) → Keys → Keys
set_key before gen after k = record k {
  dump_key = true;
  taken = before ++ after;
  signalled = gen ∷ k.signalled;
}

unfoldable pub set_by_torch : Keys → Keys
set_by_torch k = record k { dump_key = true; by_torch = true }

-- `signal_dump` is an `adds` and, any time later, the `sets` of its generation.
-- `torch_sets` is a `set` of the key by torch's signaller.
pub data Signal (k : Keys) : Keys → Type 0 where
  adds : Signal k (add_generation k)
  torch_sets : Signal k (set_by_torch k)
  sets :
      (before after : List ℕ) (gen : ℕ)
      → k.taken ≡ before ++ gen ∷ after
      → Signal k (set_key before gen after k)

pub data Signals (k : Keys) : Keys → Type 0 where
  here : Signals k k
  next : {l m : Keys} → Signals k l → Signal l m → Signals k m

record Counted (k : Keys) : Type 0 where
  taken_below : (g : ℕ) → elem g k.taken ≡ true → g ≤ k.generation
  signalled_below : (g : ℕ) → elem g k.signalled ≡ true → g ≤ k.generation
  key_signalled : k.dump_key ≡ (k.by_torch || not (is_empty k.signalled))

elem-append : (g : ℕ) (a b : List ℕ) → elem g (a ++ b) ≡ (elem g a || elem g b)
unfolding elem
elem-append g [] b = refl
elem-append g (x ∷ a) b = ground (arith, elem-append g a b)

taken_apart :
    (g gen : ℕ) (taken before after : List ℕ)
    → taken ≡ before ++ gen ∷ after
    → elem g taken ≡ (elem g before || (g == gen || elem g after))
unfolding elem
taken_apart g gen taken before after e = rw e (ground (arith, elem-append g before (gen ∷ after)))

Signal-Counted : {k l : Keys} → Signal k l → Counted k → Counted l
unfolding add_generation set_key set_by_torch elem
Signal-Counted {k} adds c = record {
  taken_below = λ g h. ground (arith, c.taken_below g);
  signalled_below = λ g h. ground (arith, c.signalled_below g);
  key_signalled = c.key_signalled;
}
Signal-Counted {k} torch_sets c = record {
  taken_below = c.taken_below;
  signalled_below = c.signalled_below;
  key_signalled = refl;
}
Signal-Counted {k} (sets before after gen e) c = record {
  taken_below = λ g h. ground (
    arith,
    c.taken_below g,
    taken_apart g gen k.taken before after e,
    elem-append g before after,
  );
  signalled_below = λ g h.
      ground
        (arith, c.signalled_below g, c.taken_below g, taken_apart g gen k.taken before after e);
  key_signalled = ground arith;
}

Signals-Counted : {k : Keys} → Signals no_keys k → Counted k
unfolding elem
Signals-Counted here = record {
  taken_below = λ g h. cc h;
  signalled_below = λ g h. cc h;
  key_signalled = refl;
}
Signals-Counted (next r s) = Signal-Counted s (Signals-Counted r)

grows : {k l : Keys} → Signals k l → k.generation ≤ l.generation
unfolding add_generation set_key set_by_torch
grows here = omega arith
grows (next r adds) = omega (arith, grows r)
grows (next r torch_sets) = grows r
grows (next r (sets before after gen e)) = grows r

all_below :
    (n : ℕ) (gens : List ℕ)
    → ((g : ℕ) → elem g gens ≡ true → g ≤ n)
    → all (λ g. leb g n) gens ≡ true
unfolding all elem
all_below n [] h = refl
all_below n (x ∷ gens) h = ground (arith, h x, all_below n gens λ g e. h g (ground (arith, e)))

-- A poll checks torch's key in the store `k` and reads the generation later, in the store `l`. The
-- check finds the key if and only if some signaller has set it, torch's or that of a generation, and the
-- generation read is at least each one whose signaller had set the key by the time of the check.
pub key_seen_with_generation :
    {k l : Keys}
    → Signals no_keys k
    → Signals k l
    → (k.dump_key ≡ (k.by_torch || not (is_empty k.signalled)))
      × (all (λ g. leb g l.generation) k.signalled ≡ true)
key_seen_with_generation {k} {l} r s =
    let c = Signals-Counted r in
    (
      c.key_signalled,
      all_below l.generation k.signalled λ g h. omega (arith, c.signalled_below g h, grows s),
    )
