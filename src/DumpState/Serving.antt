-- ===== src/DumpState/Serving.antt =====
-- The threads of a process that claim generations of one `_StoreState` and finish them: the
-- monitor (`_Poller.poll`) and the watchdog's reporter (`_fr_incident`), in any interleaving. The
-- lock makes each claim and each finish one step.
use torch_mojo_backend.Prelude.{
  ℕ, ◌+◌, ◌≤◌, ◌<◌, ◌≡◌, refl, ◌∙◌, Bool, true, false, ◌&&◌, ◌||◌, Option, some, List, [], ◌∷◌,
  ◌++◌, arith, ltb, if◌then◌else◌,
}
use torch_mojo_backend.Prelude.Sets.{elem}
use torch_mojo_backend.DumpState.{StoreState, new_state, claim, finish}
use torch_mojo_backend.DumpState.Invariant.{Inv, Within, new_state-Inv, claim-Inv, finish-Inv}
use torch_mojo_backend.DumpState.Effects.{
  is_done, elem-pending-claim, is_done-claim, claim_free, elem-pending-finish, is_done-finish,
}

-- `held` has the claims that are not finished, `dumps` those whose dump was written.
pub record Process : Type 0 where
  pub state : StoreState
  pub held : List (List ℕ)
  pub dumps : List (List ℕ)

-- A process that first watched the store at generation `base`.
abbrev pub start : Option ℕ → ℕ → Bool → Process
start n base seen = record { state = new_state n (some base) seen; held = []; dumps = [] }

pub data Step (p : Process) : Process → Type 0 where
  claims :
      (now upto : ℕ)
      → Step p (record p {
        state = (claim p.state now upto).0;
        held = (claim p.state now upto).1 ∷ p.held;
      })
  finishes :
      (coord now : ℕ) (dumped acked : Bool) (before after : List (List ℕ)) (gens : List ℕ)
      → p.held ≡ before ++ gens ∷ after
      → Step p (record {
        state = finish coord now gens dumped acked p.state;
        held = before ++ after;
        dumps = if dumped then gens ∷ p.dumps else p.dumps;
      })

pub data Reach (p : Process) : Process → Type 0 where
  here : Reach p p
  next : {q r : Process} → Reach p q → Step q r → Reach p r

-- In how many of the claims the generation stands.
pub holders : ℕ → List (List ℕ) → ℕ
unfolding elem
holders g [] = 0
holders g (c ∷ cs) = (if elem g c then 1 else 0) + holders g cs

holders-append : (g : ℕ) (a b : List (List ℕ)) → holders g (a ++ b) ≡ holders g a + holders g b
unfolding holders
holders-append g [] b = omega arith
holders-append g (c ∷ a) b = omega (arith, holders-append g a b)

pending_fresh : (s : StoreState) → Inv s → (g : ℕ) → elem g s.pending ≡ true → is_done s g ≡ false
pending_fresh s v g h = ground (arith, v.each g, v.base_known)

-- One claim holds each pending generation, and one dump has each generation that is done and lies
-- above the baseline.
pub record Served (low : ℕ) (p : Process) : Type 0 where
  pub valid : Inv p.state
  pub watched : (g : ℕ) → g ≤ low → is_done p.state g ≡ true
  pub held_once : (g : ℕ) → holders g p.held ≡ (if elem g p.state.pending then 1 else 0)
  pub dumped_once : (g : ℕ) → holders g p.dumps ≡ (if ltb low g && is_done p.state g then 1 else 0)

pub start-Served : (n : Option ℕ) (base : ℕ) (seen : Bool) → Served base (start n base seen)
unfolding new_state holders elem
start-Served n base seen = record {
  valid = new_state-Inv n base seen;
  watched = λ g h. ground arith;
  held_once = λ g. refl;
  dumped_once = λ g. ground arith;
}

pub held_apart :
    (g : ℕ) (before after : List (List ℕ)) (gens : List ℕ) (held : List (List ℕ))
    → held ≡ before ++ gens ∷ after
    → holders g held ≡ holders g (before ++ after) + (if elem g gens then 1 else 0)
unfolding holders
held_apart g before after gens held e =
    rw e (omega (arith, holders-append g before (gens ∷ after), holders-append g before after))

Step-Served : {low : ℕ} {p q : Process} → Step p q → Served low p → Served low q
unfolding holders
Step-Served {p = p} (claims now upto) v =
    let c = claim p.state now upto in
    record {
      valid = claim-Inv p.state now upto v.valid;
      watched = λ g h. is_done-claim p.state now upto v.valid g ∙ v.watched g h;
      held_once = λ g. ground (
        arith,
        v.held_once g,
        elem-pending-claim p.state now upto v.valid g,
        claim_free p.state now upto v.valid g,
      );
      dumped_once = λ g. ground (arith, v.dumped_once g, is_done-claim p.state now upto v.valid g);
    }
Step-Served {low} {p = p} (finishes coord now dumped acked before after gens e) v = record {
  valid = finish-Inv coord now gens dumped acked p.state within v.valid;
  watched = λ g h. ground (arith, effect g, v.watched g h);
  held_once = λ g.
      ground
        (arith, v.held_once g, elem-pending-finish coord now gens dumped acked p.state g, apart g);
  dumped_once = λ g.
      ground
        (arith, v.dumped_once g, effect g, within g, v.watched g, pending_fresh p.state v.valid g);
}
  where
    apart :
        (g : ℕ) → holders g p.held ≡ holders g (before ++ after) + (if elem g gens then 1 else 0)
    apart g = held_apart g before after gens p.held e

    within : Within gens p.state.pending
    within g h = ground (arith, apart g, v.held_once g)

    effect :
        (g : ℕ)
        → is_done (finish coord now gens dumped acked p.state) g
          ≡ (is_done p.state g || (dumped && elem g gens))
    effect g = is_done-finish coord now gens dumped acked p.state v.valid within g

pub Reach-Served : {low : ℕ} {p q : Process} → Served low p → Reach p q → Served low q
Reach-Served h here = h
Reach-Served h (next r s) = Step-Served s (Reach-Served h r)

-- In every interleaving of claims and their ends, on a state with a known baseline, no
-- generation is in two unfinished claims, none is dumped twice, and none is claimed again once
-- it is dumped.
pub served_once :
    (n : Option ℕ) (base : ℕ) (seen : Bool) {p : Process}
    → Reach (start n base seen) p
    → (g : ℕ) → holders g p.held + holders g p.dumps ≤ 1
served_once n base seen r g =
    let v = Reach-Served (start-Served n base seen) r in
    ground (arith, v.held_once g, v.dumped_once g, pending_fresh _ v.valid g)

-- In every interleaving of claims and their ends, on a state with a known baseline, once no
-- claim is unfinished and no failed generation is left to try again, every generation after the
-- baseline up to the highest that was asked for has been dumped exactly once.
pub served_all :
    (n : Option ℕ) (base : ℕ) (seen : Bool) {p : Process}
    → Reach (start n base seen) p
    → p.held ≡ []
    → p.state.failed ≡ []
    → (g high : ℕ) → p.state.high ≡ some high
    → base < g
    → g ≤ high
    → holders g p.dumps ≡ 1
served_all n base seen {p} r idle tried g high top above below =
    let v = Reach-Served (start-Served n base seen) r in
    let quiet : holders g p.held ≡ 0 = rw idle (unfold holders in refl) in
    let spent : elem g p.state.failed ≡ false = rw tried (unfold elem in refl) in
    ground (
      arith,
      v.held_once g,
      v.dumped_once g,
      v.valid.each g,
      v.valid.base_known,
      v.valid.high_known,
      quiet,
      spent,
    )
