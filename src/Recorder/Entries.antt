-- ===== src/Recorder/Entries.antt =====
-- flight_recorder.py, `Recorder.dump`: the ring's entries, when each was done, the status of each
-- group and how an entry is named. Oldest entries come first.
use Prim.Native.Nat.{bit_and}
use torch_mojo_backend.Prelude.{
  ℕ, suc, ◌+◌, ◌*◌, Bool, not, ◌&&◌, ◌||◌, Option, none, some, List, [], ◌∷◌, ◌==◌, if◌then◌else◌,
  get_elem?, set, is_some, keep,
}

-- `_Entry`, with the fields that the dump decides by
pub record Entry : Type 0 where
  pub rid : ℕ
  pub pg : ℕ
  pub cseq : ℕ
  pub op : ℕ
  pub count : ℕ
  pub root : ℕ
  pub flags : ℕ
  pub tag : ℕ
  pub comm : ℕ
  pub done_ns : Option ℕ
  pub link : ℕ

-- `_Group`: its ranks, and this process's rank in it
pub record GroupInfo : Type 0 where
  pub world : ℕ
  pub rank : ℕ

abbrev pub has_flag : Entry → ℕ → Bool
has_flag e flag = not (bit_and e.flags flag == 0)

-- FL_P2P, FL_MEMBER, FL_UNTRACKED and FL_FOLDED
abbrev pub is_p2p : Entry → Bool
is_p2p e = has_flag e 1

abbrev pub is_member : Entry → Bool
is_member e = has_flag e 2

abbrev pub is_untracked : Entry → Bool
is_untracked e = has_flag e 8

abbrev pub is_folded : Entry → Bool
is_folded e = has_flag e 16

-- The time kept for a communicator of a group.
abbrev pub look_up : List ((ℕ × ℕ) × ℕ) → ℕ → ℕ → Option ℕ
look_up [] pg comm = none
look_up (((p, c), time) ∷ later) pg comm =
    let rest = look_up later pg comm in if p == pg && c == comm then some time else rest

-- An entry that the pass over the newest entries first leaves alone.
abbrev pub is_skipped : Entry → Bool
is_skipped e = is_member e || e.comm == 0

-- Whether an untracked entry completes with a later one.
abbrev pub infers : Entry → Bool
infers e = is_untracked e && (not (is_folded e) || e.link == e.rid + 1)

abbrev pub own_time : Entry → List ((ℕ × ℕ) × ℕ) → Option ℕ
own_time e later = if not (is_skipped e) && infers e then look_up later e.pg e.comm else e.done_ns

abbrev pub stamp_at : Entry → Option ℕ → List ((ℕ × ℕ) × ℕ) → List ((ℕ × ℕ) × ℕ)
stamp_at e none later = later
stamp_at e (some time) later = ((e.pg, e.comm), time) ∷ later

abbrev pub stamp : Entry → List ((ℕ × ℕ) × ℕ) → List ((ℕ × ℕ) × ℕ)
stamp e later = if is_skipped e || is_untracked e then later else stamp_at e e.done_ns later

-- `for i in range(len(entries) - 1, -1, -1)`: `done`, and `later` after the last round
unfoldable pub completions : List Entry → List (Option ℕ) × List ((ℕ × ℕ) × ℕ)
completions [] = ([], [])
completions (e ∷ es) =
    let (done, later) = completions es in (own_time e later ∷ done, stamp e later)

-- The position of the entry that a link names: `index.get(e.link)`, from position `i` on. Of two
-- entries with one id the last counts.
unfoldable pub position : List Entry → ℕ → ℕ → Option ℕ
position [] link i = none
position (e ∷ es) link i =
    let rest = position es link (suc i) in
    if is_some rest then rest else (if e.rid + 1 == link then some i else none)

abbrev pub done_at : List (Option ℕ) → Option ℕ → Option ℕ
done_at done none = none
done_at done (some i) = elim (get_elem? done i) [ none ↦ none | some time ↦ time ]

-- An entry that completes with the entry its group's commit stamped.
abbrev pub forwards : Entry → Bool
forwards e = is_folded e && not (e.link == e.rid + 1)

abbrev pub linked : List Entry → Entry → List (Option ℕ) → Option ℕ
linked all e done = if e.link == 0 then none else done_at done (position all e.link 0)

-- `for i, e in enumerate(entries)`, from position `i` on, over `done`
unfoldable pub follow_links : List Entry → List Entry → ℕ → List (Option ℕ) → List (Option ℕ)
follow_links all [] i done = done
follow_links all (e ∷ es) i done =
    follow_links all es (suc i) (if forwards e then set done i (linked all e done) else done)

-- When each entry was done, as the dump tells it.
unfoldable pub done_times : List Entry → List (Option ℕ)
done_times es = follow_links es es 0 (completions es).0

-- A group's `pg_status`; `none` is -1.
pub record Status : Type 0 where
  pub last_enqueued : Option ℕ
  pub last_completed : Option ℕ

abbrev pub no_status : Status
no_status = record { last_enqueued = none; last_completed = none }

abbrev pub counts : Entry → Bool
counts e = not (is_p2p e || is_member e)

abbrev pub count_entry : Entry → Option ℕ → Status → Status
count_entry e done st =
    if counts e
    then record {
      last_enqueued = some e.cseq;
      last_completed = if is_some done then some e.cseq else st.last_completed;
    }
    else st

-- The status of group `pg` after the loop over entries and their times.
unfoldable pub status_of : ℕ → List (Entry × Option ℕ) → Status → Status
status_of pg [] st = st
status_of pg ((e, done) ∷ es) st =
    status_of pg es (if e.pg == pg then count_entry e done st else st)

-- The entries that the dump shows: with `only_active`, those not done.
abbrev pub shown : Bool → List (Entry × Option ℕ) → List (Entry × Option ℕ)
shown only_active es = keep (λ p. not (only_active && is_some p.1)) es

-- The name of an entry that no eager call described.
pub data NativeName : Type 0 where
  sends receives : (rank peer : ℕ) → NativeName
  operation : ℕ → NativeName

-- `_native`: the name, and the element counts of the input and the output
unfoldable pub native_shape : Entry → GroupInfo → NativeName × (ℕ × ℕ)
native_shape e g =
    if e.op == 6
    then (sends g.rank e.root, (e.count, e.count))
    else if e.op == 7
    then (receives g.rank e.root, (e.count, e.count))
    else if e.op == 4
    then (operation 4, (e.count, e.count * g.world))
    else if e.op == 5
    then (operation 5, (e.count * g.world, e.count))
    else (operation e.op, (e.count, e.count))
