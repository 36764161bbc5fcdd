-- ===== src/DumpState/Invariant.antt =====
-- What holds of a `_StoreState` between two calls, and that every call keeps it.
use torch_mojo_backend.Prelude.{
  ℕ, ◌+◌, ◌≤◌, ◌≡◌, refl, ap, ◌∙◌, Bool, true, false, not, ◌&&◌, ◌||◌, Option, some, List, [], ◌∷◌,
  arith, leb, ltb, if◌then◌else◌, get_or, length, max, dec_lt,
}
use torch_mojo_backend.Prelude.Sets.{elem, union, range, elem-union, elem-diff, elem-range}
use torch_mojo_backend.DumpState.{
  StoreState, new_state, claimed, claim_at, claim_above, claim, advance, finish, finish_dumped,
  finish_failed, retries,
}
use torch_mojo_backend.DumpState.Advance.{advance-le, advance_passed, advance_left}

-- Of a generation `g`: `d`, `p` and `f` say whether it is in `done`, `pending` and `failed`. It is
-- in exactly one of them between `base` and `high`, and in none elsewhere.
abbrev pub tidy : ℕ → ℕ → ℕ → Bool → Bool → Bool → Bool
tidy base high g d p f =
    if leb g base || ltb high g
    then not d && not p && not f
    else if d
    then not p && not f
    else if p
    then not f
    else f

pub record Inv (s : StoreState) : Type 0 where
  pub low : ℕ
  pub top : ℕ
  pub base_known : s.base ≡ some low
  pub high_known : s.high ≡ some top
  pub ordered : low ≤ top
  pub each : (g : ℕ) → tidy low top g (elem g s.done) (elem g s.pending) (elem g s.failed) ≡ true

pub new_state-Inv : (nonce : Option ℕ) (b : ℕ) (seen : Bool) → Inv (new_state nonce (some b) seen)
unfolding new_state elem
new_state-Inv _ b seen = record {
  low = b;
  top = b;
  base_known = refl;
  high_known = refl;
  ordered = omega arith;
  each = λ g. ground arith;
}

-- Membership in what a claim takes.
pub elem-claimed :
    (s : StoreState) (now top upto g : ℕ)
    → elem g (claimed s now top upto) ≡ (
        ((leb (top + 1) g && ltb g (upto + 1)) || (retries s now && elem g s.failed))
        && not (elem g s.done || elem g s.pending))
unfolding claimed
elem-claimed s now top upto g =
    let fresh = range (top + 1) (upto + 1) in
    ground (
      arith,
      elem-diff g fresh (union s.done s.pending),
      elem-union g s.done s.pending,
      elem-diff g (union fresh s.failed) (union s.done s.pending),
      elem-union g fresh s.failed,
      elem-range g (top + 1) (upto + 1),
    )

claim-each :
    (s : StoreState) (now upto low top g : ℕ)
    → low ≤ top
    → tidy low top g (elem g s.done) (elem g s.pending) (elem g s.failed) ≡ true
    → tidy low
        (max top upto)
        g
        (elem g s.done)
        (elem g (union s.pending (claimed s now top upto)))
        (elem g (if retries s now then [] else s.failed))
      ≡ true
unfolding elem
claim-each s now upto low top g h t =
    ground (arith, elem-union g s.pending (claimed s now top upto), elem-claimed s now top upto g)

-- A claim on a state whose baseline is known.
pub claim_known :
    (s : StoreState) (now upto : ℕ) (v : Inv s) → claim s now upto ≡ claim_above s now upto v.top
unfolding claim
claim_known s now upto v =
    let h = v.ordered in
    let e : max (get_or s.high v.low) v.low ≡ v.top = rw v.high_known (omega arith) in
    ap (claim_at s now upto) v.base_known ∙ ap (claim_above s now upto) e

pub claim-Inv : (s : StoreState) (now upto : ℕ) → Inv s → Inv (claim s now upto).0
unfolding claim_above
claim-Inv s now upto v = rw (claim_known s now upto v) (record {
  low = v.low;
  top = max v.top upto;
  base_known = v.base_known;
  high_known = refl;
  ordered = (let h = v.ordered in omega arith);
  each = λ g. claim-each s now upto v.low v.top g v.ordered (v.each g);
})

-- `finish` may only be given generations that are in progress.
abbrev pub Within : List ℕ → List ℕ → Type 0
Within gens pending = (g : ℕ) → elem g gens ≡ true → elem g pending ≡ true

pub finish_failed-Inv :
    (coord now : ℕ) (gens : List ℕ) (s : StoreState)
    → Within gens s.pending
    → Inv s
    → Inv (finish_failed coord now gens s)
unfolding finish_failed
finish_failed-Inv coord now gens s w v = record {
  low = v.low;
  top = v.top;
  base_known = v.base_known;
  high_known = v.high_known;
  ordered = v.ordered;
  each = λ g. ground (arith, v.each g, w g, elem-diff g s.pending gens, elem-union g s.failed gens);
}

pub advance-top :
    (f low top : ℕ) (done : List ℕ)
    → low ≤ top
    → ((g : ℕ) → elem g done ≡ true → g ≤ top)
    → (advance f low done).0 ≤ top
advance-top f low top done h k = elim (dec_lt low (advance f low done).0) [
  | yes p ↦ k _ (advance_passed f low done _ p (omega arith))
  | no p ↦ omega arith
]

pub finish_dumped-Inv :
    (gens : List ℕ) (acked : Bool) (s : StoreState)
    → Within gens s.pending
    → Inv s
    → Inv (finish_dumped gens acked s)
unfolding finish_dumped
finish_dumped-Inv gens acked s w v =
    let done = union s.done gens in
    let f = length done in
    rw v.base_known (record {
      low = (advance f v.low done).0;
      top = v.top;
      base_known = refl;
      high_known = v.high_known;
      ordered =
          advance-top f v.low v.top done v.ordered
            (λ g h. ground (arith, v.each g, w g, elem-union g s.done gens, h));
      each = λ g. ground (
        arith,
        v.each g,
        w g,
        elem-diff g s.pending gens,
        elem-diff g s.failed gens,
        elem-union g s.done gens,
        advance-le f v.low done,
        advance_passed f v.low done g,
        (advance_left f v.low done g).0,
        (advance_left f v.low done g).1,
      );
    })

pub finish-Inv :
    (coord now : ℕ) (gens : List ℕ) (dumped acked : Bool) (s : StoreState)
    → Within gens s.pending
    → Inv s
    → Inv (finish coord now gens dumped acked s)
unfolding finish
finish-Inv coord now [] dumped acked s w v = v
finish-Inv coord now (g ∷ gens) true acked s w v = finish_dumped-Inv (g ∷ gens) acked s w v
finish-Inv coord now (g ∷ gens) false acked s w v = finish_failed-Inv coord now (g ∷ gens) s w v
