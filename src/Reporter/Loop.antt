-- ===== src/Reporter/Loop.antt =====
-- The loop of `_desync_reporter`. `log` has what it does, newest first: each write of the index that it
-- hands to the store's worker, with its generation, and the acknowledgement bytes. Whether such a write
-- reaches the store is not its concern here. A record's name in the index stands for the incident's `id`.
use torch_mojo_backend.Prelude.{
  ℕ, suc, ◌+◌, max, Bool, true, false, ◌&&◌, Option, none, some, List, [], ◌∷◌, ◌++◌, ◌==◌,
  if◌then◌else◌, map, is_empty, is_some,
}
use torch_mojo_backend.Reporter.{
  Text, get, put, pop, parse_report, int_of, ack_byte, or_else, tid_key, id_key, zero_text,
  resolved_word, starts_with, strip,
}

pub data Event : Type 0 where
  set_index : ℕ → List (Option Text) → Event
  acks : ℕ → Event

-- `fr`: the flight recorder dumps on a timeout; whether `_fr_incident` raises at an incident; the clock
pub record World : Type 0 where
  pub fr : Bool
  pub fr_raises : ℕ → Bool
  pub time_ns : ℕ → ℕ

-- `stopped`: an exception left the loop.
pub record Reporter : Type 0 where
  pub published : List (Text × Option Text)
  pub gen : ℕ
  pub reads : ℕ
  pub incidents : ℕ
  pub log : List Event
  pub stopped : Bool

abbrev pub new_reporter : Reporter
new_reporter = record {
  published = [];
  gen = 0;
  reads = 0;
  incidents = 0;
  log = [];
  stopped = false;
}

abbrev pub names : Reporter → List (Option Text)
names r = map (λ e. e.1) r.published

-- `next_gen`
unfoldable pub next_gen : World → Reporter → Reporter
next_gen w r = record r { gen = max (r.gen + 1) (w.time_ns r.reads); reads = suc r.reads }

-- `worker.run` of `_set_index` with a new generation: the request, which may fail or come late
unfoldable pub write_index : World → Reporter → Reporter
unfolding next_gen
write_index w r = let q = next_gen w r in record q { log = set_index q.gen (names q) ∷ q.log }

unfoldable pub resolve : World → List (Text × Text) → Reporter → Reporter
unfolding write_index get pop
resolve w fields r =
    let tid = or_else [] (get tid_key fields) in
    if is_some (get tid r.published)
    then write_index w (record r { published = pop tid r.published })
    else r

-- `_report_desync`, what it publishes
unfoldable pub report_desync : World → List (Text × Text) → Reporter → Reporter
unfolding write_index get put
report_desync w fields r = write_index w (record r {
  published = put (or_else zero_text (get tid_key fields)) (get id_key fields) r.published;
})

-- The `try` block, where any exception is printed
unfoldable pub incident : World → List (Text × Text) → Reporter → Reporter
unfolding report_desync
incident w fields r =
    let q = record r { incidents = suc r.incidents } in
    if w.fr && w.fr_raises r.incidents then q else report_desync w fields q

-- The `finally` block: `int` may raise there.
unfoldable pub acknowledge : List (Text × Text) → Reporter → Reporter
unfolding get int_of
acknowledge fields r = elim (int_of (or_else zero_text (get id_key fields))) [
  | none ↦ record r { stopped = true }
  | some z ↦ record r { log = acks (ack_byte z) ∷ r.log }
]

unfoldable pub serve_line : World → Text → Reporter → Reporter
unfolding resolve incident acknowledge strip starts_with parse_report
serve_line w raw r =
    let line = strip raw in
    let fields = parse_report line in
    if r.stopped
    then r
    else if starts_with resolved_word line
    then resolve w fields r
    else acknowledge fields (incident w fields r)

unfoldable pub serve_lines : World → List Text → Reporter → Reporter
unfolding serve_line
serve_lines w [] r = r
serve_lines w (line ∷ lines) r = serve_lines w lines (serve_line w line r)

abbrev pub in_front : ℕ → List Text × Text → List Text × Text
in_front c ([], rest) = ([], c ∷ rest)
in_front c (line ∷ lines, rest) = ((c ∷ line) ∷ lines, rest)

-- `*lines, pending = text.split(b"\n")`
unfoldable pub split_lines : Text → List Text × Text
split_lines [] = ([], [])
split_lines (c ∷ cs) =
    let (lines, rest) = split_lines cs in
    if c == 10 then ([] ∷ lines, rest) else in_front c (lines, rest)

-- Behind the loop, at the end of the pipe
unfoldable pub end_reporter : World → Reporter → Reporter
unfolding write_index
end_reporter w r =
    if r.stopped
    then r
    else if is_empty r.published
    then r
    else write_index w (record r { published = [] })

-- The loop over the chunks that `os.read` gives
unfoldable pub read_chunks : World → Text → List Text → Reporter → Reporter
unfolding split_lines serve_lines end_reporter
read_chunks w pending [] r = end_reporter w r
read_chunks w pending (chunk ∷ chunks) r =
    let (lines, rest) = split_lines (pending ++ chunk) in
    read_chunks w rest chunks (serve_lines w lines r)
