-- ===== src/Recorder/Ring.antt =====
-- What the ring of eager records still has after any number of calls.
use torch_mojo_backend.Prelude.{
  ℕ, zero, ◌+◌, ◌-◌, ◌*◌, ◌/◌, ◌%◌, ◌≤◌, ◌<◌, ◌≡◌, ◌≢◌, refl, sym, ap, ◌∙◌, Option, none, some,
  List, [], ◌∷◌, ◌==◌, arith, if◌then◌else◌, get_elem?, set, replicate, length, length-replicate,
  length-set, get_elem?-set, get_elem?-set_other, ltb, leb, dec_lt, ℕ_discrete, ◌&&◌, map, suc,
}
use native.Mathlib.Nat.{mod-lt, div-add-mod, mul-le-mul_left, mul-suc, add-mod_right}
use torch_mojo_backend.Recorder.{Description, Recorder, new_recorder, begin, find_record, tagged}

-- Two numbers in one residue class are at least the modulus apart.
quotient_apart : (a b q r n : ℕ) → n * q + r ≡ a → (p : ℕ) → n * p + r ≡ b → a < b → a + n ≤ b
quotient_apart a b q r n e p f h = elim (dec_lt q p) [
  | yes l ↦ omega (arith, mul-le-mul_left {m = suc q} {n = p} n (omega arith), mul-suc n q)
  | no l ↦ omega (arith, mul-le-mul_left {m = p} {n = q} n (omega arith))
]

mod_apart : (a b n : ℕ) → a < b → a % n ≡ b % n → a + n ≤ b
mod_apart a b n h e =
    quotient_apart a b (a / n) (b % n) n (ap (λ (x : ℕ). n * (a / n) + x) (sym e) ∙ div-add-mod a n)
      (b / n) (div-add-mod b n) h

-- The calls that eager methods describe, in order.
unfoldable pub begin_all : Recorder → List (Description × ℕ) → Recorder
unfolding begin
begin_all r [] = r
begin_all r ((d, flags) ∷ ds) = begin_all (begin r d flags).0 ds

-- What a lookup of a tag should give, where `log` has the description of each call.
abbrev expected : (ℕ → Option Description) → ℕ → ℕ → ℕ → Option Description
expected log n next t = if ltb 0 t && ltb t next && leb next (t + n) then log t else none

record Holds (log : ℕ → Option Description) (n : ℕ) (r : Recorder) : Type 0 where
  slots : length r.records ≡ n
  started : 0 < r.next_tag
  found : (t : ℕ) → find_record r.records t ≡ expected log n r.next_tag t

module _ (log : ℕ → Option Description) (n next t : ℕ) where
  slot_begun :
      (d : Description)
      → 0 < n
      → log next ≡ some d
      → 0 < t
      → t % n ≡ next % n
      → (if next == t then some d else none) ≡ expected log n (next + 1) t
  slot_begun d z e p m = elim (dec_lt t next) [
    | yes l ↦ ground (arith, mod_apart t next n l m)
    | no l ↦ elim (dec_lt next t) [ yes k ↦ ground arith | no k ↦ same (omega arith) ]
  ]
    where
      same : next ≡ t → (if next == t then some d else none) ≡ expected log n (next + 1) t
      same q = ground (arith, sym e ∙ ap log q)

  slot_kept : 0 < n → (t % n ≢ next % n) → expected log n next t ≡ expected log n (next + 1) t
  slot_kept z m = ground (arith, class, apart)
    where
      class : t ≢ next
      class q = m (ap (λ (x : ℕ). x % n) q)

      apart : t + n ≢ next
      apart q = m (sym (add-mod_right t n) ∙ ap (λ (x : ℕ). x % n) q)

module _ (log : ℕ → Option Description) (n : ℕ) where
  -- A lookup in the slot that a call was written to, and one in any other.
  found_begun :
      (records : List (Option (ℕ × Description))) (next : ℕ) (d : Description) (t : ℕ)
      → length records ≡ n
      → 0 < n
      → 0 < t
      → log next ≡ some d
      → tagged (get_elem? records (t % n)) t ≡ expected log n next t
      → tagged (get_elem? (set records (next % n) (some (next, d))) (t % n)) t
        ≡ expected log n (next + 1) t
  found_begun records next d t l z p e h = elim (ℕ_discrete (t % n) (next % n)) [
    | yes m ↦
        ap (λ (i : ℕ). tagged (get_elem? (set records (next % n) (some (next, d))) i) t) m
        ∙ ap (λ (o : Option (Option (ℕ × Description))). tagged o t)
            (get_elem?-set records (next % n) (some (next, d)) (omega (arith, l, mod-lt next z)))
        ∙ slot_begun log n next t d z e p m
    | no m ↦
        ap (λ (o : Option (Option (ℕ × Description))). tagged o t)
          (get_elem?-set_other records (next % n) (t % n) (some (next, d)) λ q. m (sym q))
        ∙ h
        ∙ slot_kept log n next t z m
  ]

  find-suc :
      (records : List (Option (ℕ × Description))) (t : ℕ)
      → find_record records (suc t) ≡ tagged (get_elem? records (suc t % length records)) (suc t)
  unfolding find_record
  find-suc records t = ground arith

  tagged-find :
      (records : List (Option (ℕ × Description))) (t : ℕ)
      → length records ≡ n
      → 0 < t
      → find_record records t ≡ tagged (get_elem? records (t % n)) t
  tagged-find records zero l p = ground arith
  tagged-find records (suc t) l p =
      find-suc records t ∙ ap (λ (m : ℕ). tagged (get_elem? records (suc t % m)) (suc t)) l

  begin-Holds :
      (r : Recorder) (d : Description) (flags : ℕ)
      → 0 < n
      → log r.next_tag ≡ some d
      → Holds log n r
      → Holds log n (begin r d flags).0
  unfolding begin
  begin-Holds r d flags z e h = record {
    slots = length-set r.records _ _ ∙ h.slots;
    started = omega arith;
    found = found;
  }
    where
      found :
          (t : ℕ) → find_record (begin r d flags).0.records t ≡ expected log n (r.next_tag + 1) t
      found zero = unfold find_record in refl
      found (suc t) =
          tagged-find _ (suc t) (length-set r.records _ _ ∙ h.slots) (omega arith)
          ∙ ap
              (λ (m : ℕ).
                tagged
                  (get_elem? (set r.records (r.next_tag % m) (some (r.next_tag, d))) (suc t % n))
                  (suc t))
              h.slots
          ∙ found_begun r.records r.next_tag d (suc t) h.slots z (omega arith) e
              (sym (tagged-find r.records (suc t) h.slots (omega arith)) ∙ h.found (suc t))

  begin_all-Holds :
      (r : Recorder) (ds : List (Description × ℕ))
      → 0 < n
      → ((i : ℕ) → log (r.next_tag + i) ≡ get_elem? (map (λ p. p.0) ds) i)
      → Holds log n r
      → Holds log n (begin_all r ds) × ((begin_all r ds).next_tag ≡ r.next_tag + length ds)
  unfolding begin_all begin
  begin_all-Holds r [] z e h = (h, omega arith)
  begin_all-Holds r ((d, flags) ∷ ds) z e h =
      let rest =
        begin_all-Holds (begin r d flags).0 ds z (λ i. ap log (omega arith) ∙ e (suc i))
          (begin-Holds r d flags z (ap log (omega arith) ∙ e 0) h) in
      (rest.0, omega (arith, rest.1))

  new-Holds : (size : ℕ) → 2 * size ≡ n → Holds log n (new_recorder size)
  unfolding new_recorder
  new-Holds size e = record {
    slots = length-replicate (2 * size) none ∙ e;
    started = omega arith;
    found = empty;
  }
    where
      none_in : (m i t : ℕ) → tagged (get_elem? (replicate m none) i) t ≡ none
      none_in zero i t = refl
      none_in (suc m) zero t = refl
      none_in (suc m) (suc i) t = none_in m i t

      empty : (t : ℕ) → find_record (replicate (2 * size) none) t ≡ expected log n 1 t
      empty zero = unfold find_record in refl
      empty (suc t) = find-suc _ t ∙ none_in (2 * size) _ (suc t) ∙ ground arith

abbrev log_of : List (Description × ℕ) → ℕ → Option Description
log_of ds t = get_elem? (map (λ p. p.0) ds) (t - 1)

same_bounds :
    (log : ℕ → Option Description) (n i count next : ℕ)
    → next ≡ count + 1
    → expected log n next (i + 1) ≡ (if ltb i count && leb count (i + n) then log (i + 1) else none)
same_bounds log n i count next e = ground arith

-- After any calls on a new recorder for `size` entries, looking up the tag of call `i` gives that
-- call's own description as long as at most `2 * size` calls came with it or after it, and nothing
-- from then on; a tag that no call has been given yet has no record either.
pub found_exactly :
    (size : ℕ) (ds : List (Description × ℕ)) (i : ℕ)
    → 0 < size
    → find_record (begin_all (new_recorder size) ds).records (i + 1) ≡ (
        if ltb i (length ds) && leb (length ds) (i + 2 * size)
        then get_elem? (map (λ p. p.0) ds) i
        else none)
found_exactly size ds i z =
    let first : (new_recorder size).next_tag ≡ 1 = unfold new_recorder in refl in
    let log = log_of ds in
    let all =
      begin_all-Holds log (2 * size) (new_recorder size) ds (omega arith)
        (λ j. ap (get_elem? (map (λ p. p.0) ds)) (omega (arith, first)))
        (new-Holds log (2 * size) size refl) in
    all.0.found (i + 1)
    ∙ same_bounds log (2 * size) i (length ds) _ (omega (arith, all.1, first))
    ∙ ap
        (λ (o : Option Description).
          if ltb i (length ds) && leb (length ds) (i + 2 * size) then o else none)
        (ap (get_elem? (map (λ p. p.0) ds)) (omega arith))
