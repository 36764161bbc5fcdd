-- ===== src/Recorder/Links.antt =====
-- The pass over the links: a folded entry completes with the entry its group's commit stamped.
use torch_mojo_backend.Prelude.{
  ℕ, zero, suc, ◌+◌, ◌<◌, ◌≡◌, ◌≢◌, refl, sym, ap, ◌∙◌, Bool, true, false, Option, none, some, List,
  [], ◌∷◌, ◌++◌, ◌==◌, not, ◌&&◌, arith, if◌then◌else◌, get_elem?, set, length, length-set,
  get_elem?-set, get_elem?-set_other,
}
use torch_mojo_backend.Recorder.Entries.{
  Entry, completions, forwards, position, done_at, linked, is_skipped, infers, follow_links,
  done_times,
}
use torch_mojo_backend.Recorder.Completion.{first_stamp, completions_exact, length-completions}

abbrev written : Bool → List (Option ℕ) → ℕ → Option ℕ → List (Option ℕ)
written b done i time = if b then set done i time else done

length-written :
    (b : Bool) (done : List (Option ℕ)) (i : ℕ) (time : Option ℕ)
    → length (written b done i time) ≡ length done
length-written true done i time = length-set done i time
length-written false done i time = refl

written_other :
    (b : Bool) (done : List (Option ℕ)) (i j : ℕ) (time : Option ℕ)
    → (b ≡ true → i ≢ j)
    → get_elem? (written b done i time) j ≡ get_elem? done j
written_other true done i j time h = get_elem?-set_other done i j time (h refl)
written_other false done i j time h = refl

written_here :
    (b : Bool) (done : List (Option ℕ)) (i : ℕ) (time own : Option ℕ)
    → i < length done
    → get_elem? done i ≡ some own
    → get_elem? (written b done i time) i ≡ some (if b then time else own)
written_here true done i time own h e = get_elem?-set done i time h
written_here false done i time own h e = e

module _ (all : List Entry) where
  -- Positions before the first that is visited keep their time.
  follow_before :
      (es : List Entry) (i j : ℕ) (done : List (Option ℕ))
      → j < i
      → get_elem? (follow_links all es i done) j ≡ get_elem? done j
  unfolding follow_links
  follow_before [] i j done h = refl
  follow_before (e ∷ es) i j done h =
      follow_before es (suc i) j _ (omega arith)
      ∙ written_other (forwards e) done i j (linked all e done) λ p. (omega arith)

  -- No entry that is visited stands at the target of `e` and forwards.
  Steady : List Entry → ℕ → Entry → Type 0
  Steady es i e =
      (j m : ℕ) (t : Entry)
      → position all e.link 0 ≡ some j
      → get_elem? es m ≡ some t
      → forwards t ≡ true
      → i + m ≢ j

  linked_steady :
      (b : Bool) (e : Entry) (done : List (Option ℕ)) (i : ℕ) (time : Option ℕ)
      → ((j : ℕ) → position all e.link 0 ≡ some j → b ≡ true → i ≢ j)
      → linked all e (written b done i time) ≡ linked all e done
  linked_steady b e done i time h =
      ap (λ (o : Option ℕ). if e.link == 0 then none else o) (at (position all e.link 0) h)
    where
      at :
          (target : Option ℕ)
          → ((j : ℕ) → target ≡ some j → b ≡ true → i ≢ j)
          → done_at (written b done i time) target ≡ done_at done target
      at none k = refl
      at (some j) k =
          ap (λ (o : Option (Option ℕ)). elim o [ none ↦ none | some x ↦ x ])
            (written_other b done i j time (k j refl))

  follow_here :
      (x e : Entry) (es : List Entry) (i : ℕ) (done : List (Option ℕ)) (own : Option ℕ)
      → x ≡ e
      → i < length done
      → get_elem? done i ≡ some own
      → get_elem? (follow_links all es (suc i) (written (forwards x) done i (linked all x done))) i
        ≡ some (if forwards e then linked all e done else own)
  follow_here x e es i done own q l o =
      follow_before es (suc i) i _ (omega arith)
      ∙ written_here (forwards x) done i (linked all x done) own l o
      ∙ ap (λ (t : Entry). some (if forwards t then linked all t done else own)) q

  follow_exact :
      (es : List Entry) (i : ℕ) (done : List (Option ℕ)) (k p : ℕ) (e : Entry) (own : Option ℕ)
      → get_elem? es k ≡ some e
      → p ≡ i + k
      → i + length es ≡ length done
      → get_elem? done p ≡ some own
      → Steady es i e
      → get_elem? (follow_links all es i done) p
        ≡ some (if forwards e then linked all e done else own)
  unfolding follow_links Steady
  follow_exact [] i done k p e own g at l o h = cc g
  follow_exact (x ∷ es) i done zero p e own g at l o h =
      let here : p ≡ i = omega arith in
      ap (get_elem? _) here
      ∙ follow_here x e es i done own (cc g) (omega arith) (ap (get_elem? done) (sym here) ∙ o)
  follow_exact (x ∷ es) i done (suc k) p e own g at l o h =
      let b = forwards x in
      let time = linked all x done in
      follow_exact es (suc i) (written b done i time) k p e own g (omega arith)
        (omega (arith, length-written b done i time))
        (written_other b done i p time (λ q. omega arith) ∙ o)
        (λ j m t a c d q. h j (suc m) t a c d (omega (arith, q)))
      ∙ ap (λ (r : Option ℕ). some (if forwards e then r else own))
          (linked_steady b e done i time λ j a q r. h j 0 x a refl q (omega (arith, r)))

get_elem?-middle :
    (before after : List Entry) (e : Entry)
    → get_elem? (before ++ e ∷ after) (length before) ≡ some e
get_elem?-middle [] after e = refl
get_elem?-middle (b ∷ before) after e = get_elem?-middle before after e

-- In a ring where the entry that `e` links to does not itself wait for another, `e` is done as
-- follows. If its group's commit stamps another entry, `e` is done when that one is, and is not
-- done if the link is 0 or the ring has lost that entry. Otherwise an untracked collective takes
-- the first stamp of a tracked collective after it on its communicator, and any other entry has its
-- own stamp.
pub done_times_exact :
    (before after : List Entry) (e : Entry)
    → let es = before ++ e ∷ after in
      ((j : ℕ) (t : Entry)
        → position es e.link 0 ≡ some j
        → get_elem? es j ≡ some t
        → forwards t ≡ false)
      → get_elem? (done_times es) (length before)
        ≡ some (
            if forwards e
            then linked es e (completions es).0
            else if not (is_skipped e) && infers e
            then first_stamp e.pg e.comm after
            else e.done_ns)
unfolding done_times Steady
done_times_exact before after e h =
    let es = before ++ e ∷ after in
    follow_exact es es 0 (completions es).0 (length before) (length before) e _
      (get_elem?-middle before after e) (omega arith) (omega (arith, length-completions es))
      (completions_exact before after e) (steady es h)
  where
    steady :
        (es : List Entry)
        → ((j : ℕ) (t : Entry)
            → position es e.link 0 ≡ some j
            → get_elem? es j ≡ some t
            → forwards t ≡ false)
        → Steady es es 0 e
    steady es k j m t a c d q =
        let at : m ≡ j = omega (arith, q) in cc (d, k j t a (ap (get_elem? es) (sym at) ∙ c))
