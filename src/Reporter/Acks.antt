-- ===== src/Reporter/Acks.antt =====
-- The acknowledgements of the reporter.
use torch_mojo_backend.Prelude.{
  ℕ, ◌≤◌, ◌≡◌, refl, sym, ap, ◌∙◌, Bool, true, false, Option, none, some, List, [], ◌∷◌, ◌++◌,
  if◌then◌else◌, arith, Bool-cases, Option-cases, inl, inr, append_assoc, append-nil, ℤ, pos,
  negsuc,
}
use torch_mojo_backend.Reporter.{
  Text, get, parse_report, int_of, ack_byte, or_else, id_key, zero_text, resolved_word, starts_with,
  strip,
}
use torch_mojo_backend.Reporter.Loop.{
  Event, set_index, acks, World, Reporter, new_reporter, write_index, resolve, incident,
  acknowledge, report_desync, serve_line, serve_lines, split_lines, end_reporter, read_chunks,
}
use torch_mojo_backend.Reporter.Framing.{bytes, read_chunks-lines}

-- The bytes that were written, in order
abbrev pub acked : List Event → List ℕ
acked [] = []
acked (set_index g ns ∷ log) = acked log
acked (acks b ∷ log) = acked log ++ (b ∷ [])

-- What a line is acknowledged with: nothing for a line that resolves, a byte, or none where the `id` is
-- no integer.
pub data Due : Type 0 where
  resolves unreadable : Due
  due : ℕ → Due

abbrev due_for : Option ℤ → Due
due_for none = unreadable
due_for (some z) = due (ack_byte z)

unfoldable pub due_of : Text → Due
unfolding starts_with strip parse_report get int_of
due_of raw =
    if starts_with resolved_word (strip raw)
    then resolves
    else due_for (int_of (or_else zero_text (get id_key (parse_report (strip raw)))))

-- The bytes due, up to the first line that cannot be acknowledged, and whether there is one
abbrev pub all_due : List Due → List ℕ × Bool
all_due [] = ([], false)
all_due (resolves ∷ ds) = all_due ds
all_due (unreadable ∷ ds) = ([], true)
all_due (due b ∷ ds) = (b ∷ (all_due ds).0, (all_due ds).1)

abbrev pub dues : List Text → List Due
dues [] = []
dues (line ∷ lines) = due_of line ∷ dues lines

incident-acked :
    (w : World) (fields : List (Text × Text)) (r : Reporter)
    → (acked (incident w fields r).log ≡ acked r.log) × ((incident w fields r).stopped ≡ r.stopped)
unfolding incident report_desync write_index
incident-acked w fields r = ground arith

resolve-acked :
    (w : World) (fields : List (Text × Text)) (r : Reporter)
    → (acked (resolve w fields r).log ≡ acked r.log) × ((resolve w fields r).stopped ≡ r.stopped)
unfolding resolve write_index
resolve-acked w fields r = ground arith

abbrev after : Due → List ℕ → List ℕ × Bool
after resolves bs = (bs, false)
after unreadable bs = (bs, true)
after (due b) bs = (bs ++ (b ∷ []), false)

serve_line-acked :
    (w : World) (line : Text) (r : Reporter)
    → r.stopped ≡ false
    → (acked (serve_line w line r).log ≡ (after (due_of line) (acked r.log)).0)
      × ((serve_line w line r).stopped ≡ (after (due_of line) (acked r.log)).1)
unfolding serve_line due_of acknowledge
serve_line-acked w line r h =
    let fields = parse_report (strip line) in
    elim (Bool-cases (starts_with resolved_word (strip line))) [
      | inl s ↦ ground (arith, h, s, resolve-acked w fields r)
      | inr s ↦ elim (Option-cases (int_of (or_else zero_text (get id_key fields)))) [
        | inl i ↦ ground (arith, h, s, i, incident-acked w fields r)
        | inr (z, i) ↦ ground (arith, h, s, i, incident-acked w fields r)
      ]
    ]

serve_lines-stopped :
    (w : World) (lines : List Text) (r : Reporter) → r.stopped ≡ true → serve_lines w lines r ≡ r
unfolding serve_lines serve_line
serve_lines-stopped w [] r h = refl
serve_lines-stopped w (line ∷ lines) r h =
    let same : serve_line w line r ≡ r = ground (arith, h) in
    ap (serve_lines w lines) same ∙ serve_lines-stopped w lines r h

serve_lines-acked :
    (w : World) (lines : List Text) (r : Reporter)
    → r.stopped ≡ false
    → (acked (serve_lines w lines r).log ≡ acked r.log ++ (all_due (dues lines)).0)
      × ((serve_lines w lines r).stopped ≡ (all_due (dues lines)).1)
unfolding serve_lines
serve_lines-acked w [] r h = (sym (append-nil (acked r.log)), h)
serve_lines-acked w (line ∷ lines) r h =
    by_due (due_of line) (serve_line-acked w line r h)
      (serve_lines-acked w lines (serve_line w line r))
  where
    q : Reporter
    q = serve_line w line r

    Served : List ℕ → Bool → Type 0
    Served bs stop =
        (acked (serve_lines w lines q).log ≡ bs) × ((serve_lines w lines q).stopped ≡ stop)

    by_due :
        (d : Due)
        → (acked q.log ≡ (after d (acked r.log)).0) × (q.stopped ≡ (after d (acked r.log)).1)
        → (q.stopped ≡ false
            → Served (acked q.log ++ (all_due (dues lines)).0) (all_due (dues lines)).1)
        → Served (acked r.log ++ (all_due (d ∷ dues lines)).0) (all_due (d ∷ dues lines)).1
    by_due resolves e ih = ((ih e.1).0 ∙ ap (λ bs. bs ++ (all_due (dues lines)).0) e.0, (ih e.1).1)
    by_due unreadable e ih =
        let rest = serve_lines-stopped w lines q e.1 in
        (
          ap (λ x. acked x.log) rest ∙ e.0 ∙ sym (append-nil (acked r.log)),
          ap (λ x. x.stopped) rest ∙ e.1,
        )
    by_due (due b) e ih = (
      (ih e.1).0
          ∙ ap (λ bs. bs ++ (all_due (dues lines)).0) e.0
          ∙ append_assoc (acked r.log) (b ∷ []) (all_due (dues lines)).0,
      (ih e.1).1,
    )

end_reporter-acked :
    (w : World) (r : Reporter)
    → (acked (end_reporter w r).log ≡ acked r.log) × ((end_reporter w r).stopped ≡ r.stopped)
unfolding end_reporter write_index
end_reporter-acked w r = ground arith

-- Whatever a store or a dump answers, whatever raises in the report of an incident, and however the bytes
-- come in: a new reporter acknowledges each incident line, in order, once, with its `id` modulo 255 and
-- 1 added, and no line that resolves; it stops early exactly at the first incident line whose `id` is
-- no integer.
pub acked_in_order :
    (w : World) (chunks : List Text)
    → let lines = (split_lines (bytes chunks)).0 in
      (acked (read_chunks w [] chunks new_reporter).log ≡ (all_due (dues lines)).0)
      × ((read_chunks w [] chunks new_reporter).stopped ≡ (all_due (dues lines)).1)
acked_in_order w chunks =
    let lines = (split_lines (bytes chunks)).0 in
    let r = serve_lines w lines new_reporter in
    let ends = end_reporter-acked w r in
    let served = serve_lines-acked w lines new_reporter refl in
    (
      ap (λ q. acked q.log) (read_chunks-lines w chunks new_reporter) ∙ ends.0 ∙ served.0,
      ap (λ q. q.stopped) (read_chunks-lines w chunks new_reporter) ∙ ends.1 ∙ served.1,
    )

-- An acknowledgement is a byte, and not 0.
pub ack_byte_bounds : (z : ℤ) → (1 ≤ ack_byte z) × (ack_byte z ≤ 255)
ack_byte_bounds (pos n) = omega arith
ack_byte_bounds (negsuc k) = omega arith
