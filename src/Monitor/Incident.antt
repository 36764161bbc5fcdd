-- ===== src/Monitor/Incident.antt =====
-- torch_mojo_backend/distributed/process_group.py, `_fr_incident`: the watchdog's reporter signals a new
-- generation, claims it from the monitor's state of the store, dumps, acknowledges, and finishes its
-- claim. What the store and the dump answer is an argument.
use torch_mojo_backend.Prelude.{
  ℕ, ◌≡◌, refl, ap, ◌∙◌, Bool, true, false, not, ◌&&◌, ◌||◌, Option, none, some, List, [], ◌∷◌,
  arith, ltb, if◌then◌else◌, get_elem?, ◌==◌,
}
use torch_mojo_backend.Prelude.Sets.{elem, union, sort, elem-union, elem-sort}
use torch_mojo_backend.DumpState
use torch_mojo_backend.DumpState.{StoreState}
use torch_mojo_backend.DumpState.Invariant.{Inv, Within, claim-Inv, finish-Inv}
use torch_mojo_backend.DumpState.Effects.{
  is_done, elem-claim, elem-pending-claim, is_done-claim, claim_free, elem-pending-finish,
  is_done-finish,
}
use torch_mojo_backend.Monitor.Tables.{get_elem?-alter}
use torch_mojo_backend.Monitor.{Poller, find, alter, claim_store, finish_store}

-- `signal`: what `worker.run` of `signal_dump` gives; `dumped`: the dump was written; `stored`: the
-- acknowledgements were; the times of the claim and of its end
pub record Incident : Type 0 where
  pub signal : Option ℕ
  pub dumped : Bool
  pub stored : Bool
  pub claimed_at : ℕ
  pub finished_at : ℕ

-- The state, the generation that is returned, and the acknowledgements that are asked for
pub record Outcome : Type 0 where
  pub poller : Poller
  pub gen : ℕ
  pub acks : List ℕ

-- Behind a signal with generation `gen`
unfoldable pub serve_signal : (coord key gen : ℕ) → Incident → Poller → Outcome
unfolding claim_store finish_store union sort
serve_signal coord key gen i p =
    let (q, claimed) = claim_store i.claimed_at key gen p in
    record {
      poller = finish_store coord i.finished_at claimed i.dumped (i.dumped && i.stored) q;
      gen = gen;
      acks = if i.dumped then sort (union claimed.gens (gen ∷ [])) else [];
    }

-- `_fr_incident`, for the store `key` of a process with a monitor
unfoldable pub fr_incident : (coord key : ℕ) → Incident → Poller → Outcome
unfolding serve_signal
fr_incident coord key i p = elim i.signal [
  | none ↦ record { poller = p; gen = 0; acks = [] }
  | some gen ↦
      if gen == 0 then record { poller = p; gen = 0; acks = [] } else serve_signal coord key gen i p
]

-- What an incident does to the state of its store
abbrev served_state : (coord gen : ℕ) → Incident → StoreState → StoreState
served_state coord gen i s =
    let (t, gens) = DumpState.claim s i.claimed_at gen in
    DumpState.finish coord i.finished_at gens i.dumped (i.dumped && i.stored) t

serve_signal-served :
    (coord key gen id : ℕ) (i : Incident) (p : Poller) (s : StoreState)
    → find p.states key ≡ some id
    → get_elem? p.heap id ≡ some s
    → (get_elem? (serve_signal coord key gen i p).poller.heap id
        ≡ some (served_state coord gen i s))
      × ((serve_signal coord key gen i p).acks ≡ (
          if i.dumped then sort (union (DumpState.claim s i.claimed_at gen).1 (gen ∷ [])) else []))
unfolding serve_signal claim_store finish_store
serve_signal-served coord key gen id i p s e h =
    rw (e, serve_signal)
      (rw (h, serve_signal)
        (
          get_elem?-alter (alter p.heap id (λ _. (DumpState.claim s i.claimed_at gen).0)) id
              (DumpState.claim s i.claimed_at gen).0 _
              (get_elem?-alter p.heap id s (λ _. (DumpState.claim s i.claimed_at gen).0) h),
          refl,
        ))

module _ (coord gen : ℕ) (i : Incident) (s : StoreState) (v : Inv s) where
  claim-Within :
      Within (DumpState.claim s i.claimed_at gen).1 (DumpState.claim s i.claimed_at gen).0.pending
  claim-Within h e = ground (arith, elem-pending-claim s i.claimed_at gen v h, e)

  served_state-Inv : Inv (served_state coord gen i s)
  served_state-Inv =
      finish-Inv coord i.finished_at (DumpState.claim s i.claimed_at gen).1 i.dumped
        (i.dumped && i.stored) (DumpState.claim s i.claimed_at gen).0 claim-Within
        (claim-Inv s i.claimed_at gen v)

  served_state-pending : (h : ℕ) → elem h (served_state coord gen i s).pending ≡ elem h s.pending
  served_state-pending h = ground (
    arith,
    elem-pending-finish coord i.finished_at (DumpState.claim s i.claimed_at gen).1 i.dumped
        (i.dumped && i.stored) (DumpState.claim s i.claimed_at gen).0 h,
    elem-pending-claim s i.claimed_at gen v h,
    claim_free s i.claimed_at gen v h,
  )

  served_state-is_done :
      (h : ℕ)
      → is_done (served_state coord gen i s) h
        ≡ (is_done s h || (i.dumped && elem h (DumpState.claim s i.claimed_at gen).1))
  served_state-is_done h =
      is_done-finish coord i.finished_at (DumpState.claim s i.claimed_at gen).1 i.dumped
        (i.dumped && i.stored) (DumpState.claim s i.claimed_at gen).0
        (claim-Inv s i.claimed_at gen v) claim-Within h
      ∙ ap (λ b. b || (i.dumped && elem h (DumpState.claim s i.claimed_at gen).1))
          (is_done-claim s i.claimed_at gen v h)

-- Whether a generation lies above all that the state knows
abbrev pub is_new : StoreState → ℕ → Bool
is_new s gen = elim s.high [ none ↦ true | some high ↦ ltb high gen ]

-- A store answers an incident's signal with a generation, and the process's monitor watches that store,
-- with a state whose baseline is known. The incident gives back every generation that it claimed, done
-- where the dump was written, whatever happens to the acknowledgements; a generation above all before is
-- then done; and it asks the store for acknowledgements only where the dump was written, of its own
-- generation and of those that it claimed.
pub fr_incident-served :
    (coord key gen id : ℕ) (i : Incident) (p : Poller) (s : StoreState)
    → (v : Inv s) → i.signal ≡ some gen
    → (gen == 0) ≡ false
    → find p.states key ≡ some id
    → get_elem? p.heap id ≡ some s
    → let o = fr_incident coord key i p in
      let gens = (DumpState.claim s i.claimed_at gen).1 in
      (t : StoreState) × (get_elem? o.poller.heap id ≡ some t)
      × Inv t
      × ((h : ℕ) → elem h t.pending ≡ elem h s.pending)
      × ((h : ℕ) → is_done t h ≡ (is_done s h || (i.dumped && elem h gens)))
      × ((not (i.dumped && is_new s gen) || is_done t gen) ≡ true)
      × ((h : ℕ) → elem h o.acks ≡ (i.dumped && (elem h gens || h == gen)))
      × (o.gen ≡ gen)
unfolding fr_incident serve_signal
fr_incident-served coord key gen id i p s v e z f g =
    let served = serve_signal-served coord key gen id i p s f g in
    let same : fr_incident coord key i p ≡ serve_signal coord key gen i p =
      rw (e, fr_incident) (rw (z, fr_incident) refl) in
    (
      served_state coord gen i s,
      ap (λ o. get_elem? o.poller.heap id) same ∙ served.0,
      served_state-Inv coord gen i s v,
      served_state-pending coord gen i s v,
      served_state-is_done coord gen i s v,
      ground (
        arith,
        served_state-is_done coord gen i s v gen,
        elem-claim s i.claimed_at gen v gen,
        v.high_known,
      ),
      λ h. ap (λ o. elem h o.acks) same ∙ ap (elem h) served.1 ∙ acked h i.dumped,
      ap (λ o. o.gen) same,
    )
  where
    acked :
        (h : ℕ) (dumped : Bool)
        → elem h
            (if dumped then sort (union (DumpState.claim s i.claimed_at gen).1 (gen ∷ [])) else [])
          ≡ (dumped && (elem h (DumpState.claim s i.claimed_at gen).1 || h == gen))
    acked h false = unfold elem in refl
    acked h true =
        elem-sort h (union (DumpState.claim s i.claimed_at gen).1 (gen ∷ []))
        ∙ elem-union h (DumpState.claim s i.claimed_at gen).1 (gen ∷ [])
        ∙ unfold elem in ground arith
