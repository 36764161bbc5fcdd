-- ===== src/Reporter/Index.antt =====
-- The index that the reporter asks for, and what the store then has.
use torch_mojo_backend.Prelude.{
  ℕ, suc, ◌+◌, ◌<◌, ◌≤◌, ◌≡◌, refl, sym, ap, ◌∙◌, true, false, Option, List, [], ◌∷◌, arith,
  Bool-cases, Option-cases, inl, inr, max, map, is_some, subst, ◌&&◌, some, none, Bool, false, ◌||◌,
  ◌==◌, leb, if◌then◌else◌,
}
use torch_mojo_backend.Reporter.{
  Text, get, parse_report, int_of, or_else, id_key, zero_text, resolved_word, starts_with, strip,
  put, pop, tid_key,
}
use torch_mojo_backend.Reporter.Loop.{
  Event, set_index, acks, World, Reporter, new_reporter, names, next_gen, write_index, resolve,
  incident, acknowledge, report_desync, serve_line, serve_lines, split_lines, end_reporter,
  read_chunks,
}
use torch_mojo_backend.Reporter.Framing.{bytes, read_chunks-lines}

-- What the last write of the index that was asked for has
abbrev pub latest : List Event → List (Option Text)
latest [] = []
latest (set_index g ns ∷ log) = ns
latest (acks b ∷ log) = latest log

-- Each write asked for has a smaller generation than those behind it, and than the bound.
abbrev pub Rising : ℕ → List Event → Type 0
Rising bound [] = Unit
Rising bound (set_index g ns ∷ log) = (g < bound) × Rising g log
Rising bound (acks b ∷ log) = Rising bound log

Rising-weaken : (a b : ℕ) (log : List Event) → a ≤ b → Rising a log → Rising b log
Rising-weaken a b [] le h = h
Rising-weaken a b (set_index g ns ∷ log) le h = (omega arith, h.1)
Rising-weaken a b (acks c ∷ log) le h = Rising-weaken a b log le h

record Inv (r : Reporter) : Type 0 where
  rising : Rising (suc r.gen) r.log
  current : latest r.log ≡ names r

-- A write settles the index, whatever is published before it.
write_index-Inv : (w : World) (r : Reporter) → Rising (suc r.gen) r.log → Inv (write_index w r)
unfolding write_index next_gen
write_index-Inv w r h = record {
  rising = (
    omega arith,
    Rising-weaken (suc r.gen) (max (r.gen + 1) (w.time_ns r.reads)) r.log (ground arith) h,
  );
  current = refl;
}

resolve-Inv :
    (w : World) (fields : List (Text × Text)) (r : Reporter) → Inv r → Inv (resolve w fields r)
unfolding resolve
resolve-Inv w fields r v = elim (Bool-cases (is_some (get tid r.published))) [
  | inl e ↦
      rw (e, resolve) (write_index-Inv w (record r { published = pop tid r.published }) v.rising)
  | inr e ↦ rw (e, resolve) v
]
  where
    tid : Text
    tid = or_else [] (get tid_key fields)

incident-Inv :
    (w : World) (fields : List (Text × Text)) (r : Reporter) → Inv r → Inv (incident w fields r)
unfolding incident report_desync
incident-Inv w fields r v = elim (Bool-cases (w.fr && w.fr_raises r.incidents)) [
  | inl e ↦ rw (e, incident) (record { rising = v.rising; current = v.current })
  | inr e ↦
      rw (e, incident)
        (write_index-Inv w
          (record r {
            incidents = suc r.incidents;
            published =
                put (or_else zero_text (get tid_key fields)) (get id_key fields) r.published;
          })
          v.rising)
]

acknowledge-Inv : (fields : List (Text × Text)) (r : Reporter) → Inv r → Inv (acknowledge fields r)
unfolding acknowledge
acknowledge-Inv fields r v = elim (Option-cases (int_of (or_else zero_text (get id_key fields)))) [
  | inl e ↦ rw (e, acknowledge) (record { rising = v.rising; current = v.current })
  | inr (z, e) ↦ rw (e, acknowledge) (record { rising = v.rising; current = v.current })
]

serve_line-Inv : (w : World) (line : Text) (r : Reporter) → Inv r → Inv (serve_line w line r)
unfolding serve_line
serve_line-Inv w line r v = elim (Bool-cases r.stopped) [
  | inl e ↦ subst Inv (sym (stays e)) v
  | inr e ↦ elim (Bool-cases (starts_with resolved_word (strip line))) [
    | inl s ↦ subst Inv (sym (ground (arith, e, s))) (resolve-Inv w fields r v)
    | inr s ↦
        subst Inv (sym (ground (arith, e, s)))
          (acknowledge-Inv fields (incident w fields r) (incident-Inv w fields r v))
  ]
]
  where
    fields : List (Text × Text)
    fields = parse_report (strip line)

    stays : r.stopped ≡ true → serve_line w line r ≡ r
    stays e = ground (arith, e)

serve_lines-Inv :
    (w : World) (lines : List Text) (r : Reporter) → Inv r → Inv (serve_lines w lines r)
unfolding serve_lines
serve_lines-Inv w [] r v = v
serve_lines-Inv w (line ∷ lines) r v =
    serve_lines-Inv w lines (serve_line w line r) (serve_line-Inv w line r v)

abbrev pub Names : Type 0
Names = List (Option Text)

-- The log has a request to write these names with this generation.
pub data Requested (g : ℕ) (ns : Names) : List Event → Type 0 where
  last : {log : List Event} → Requested g ns (set_index g ns ∷ log)
  earlier : {e : Event} {log : List Event} → Requested g ns log → Requested g ns (e ∷ log)

-- Requests that `_set_index` carries out on the store, the last one first: any, in any order.
pub data Arrivals (log : List Event) : List (ℕ × Names) → Type 0 where
  none_yet : Arrivals log []
  arrives :
      {g : ℕ} {ns : Names} {others : List (ℕ × Names)}
      → Requested g ns log
      → Arrivals log others
      → Arrivals log ((g, ns) ∷ others)

-- `_set_index` gives way to an index of the same or of a newer generation.
abbrev pub over : Option (ℕ × Names) → ℕ × Names → Option (ℕ × Names)
over none new = some new
over (some old) new = if leb new.0 old.0 then some old else some new

unfoldable pub stored : List (ℕ × Names) → Option (ℕ × Names)
stored [] = none
stored (new ∷ others) = over (stored others) new

unfoldable pub has_arrived : ℕ → List (ℕ × Names) → Bool
has_arrived g [] = false
has_arrived g (new ∷ others) = new.0 == g || has_arrived g others

abbrev Held : ℕ → Names → Bool → Option (ℕ × Names) → Type 0
Held g ns true o = o ≡ some (g, ns)
Held g ns false none = Unit
Held g ns false (some old) = old.0 < g

ended_empty :
    (w : World) (r : Reporter) → Inv r → r.stopped ≡ false → latest (end_reporter w r).log ≡ []
unfolding end_reporter write_index
ended_empty w r v h = by_published r.published v.current
  where
    by_published :
        (d : List (Text × Option Text))
        → latest r.log ≡ map (λ e. e.1) d
        → latest (end_reporter w (record r { published = d })).log ≡ []
    by_published [] e = rw (h, end_reporter) e
    by_published (x ∷ d) e = rw (h, end_reporter) refl

-- When the pipe ends, unless a line could not be acknowledged, the last index of a new reporter that the
-- store was asked to take is empty, or none was ever written.
pub index_emptied :
    (w : World) (chunks : List Text)
    → (serve_lines w (split_lines (bytes chunks)).0 new_reporter).stopped ≡ false
    → latest (read_chunks w [] chunks new_reporter).log ≡ []
index_emptied w chunks h =
    let lines = (split_lines (bytes chunks)).0 in
    let v = serve_lines-Inv w lines new_reporter (record { rising = tt; current = refl }) in
    ap (λ r. latest r.log) (read_chunks-lines w chunks new_reporter)
    ∙ ended_empty w (serve_lines w lines new_reporter) v h
