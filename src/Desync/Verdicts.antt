-- ===== src/Desync/Verdicts.antt =====
-- What two ranks say of each other.
use torch_mojo_backend.Prelude.{◌≤◌, ◌≡◌, arith, if◌then◌else◌}
use torch_mojo_backend.Desync
use torch_mojo_backend.Desync.{
  Report, Verdict, comparable, compare_reports, same_span, overlaps, last_of,
}

-- The verdict of the other side.
abbrev pub opposite : Verdict → Verdict
opposite Desync.behind = Desync.ahead
opposite Desync.ahead = Desync.behind
opposite v = v

-- Two ranks whose records have at least one call each say the same of each other, except that the
-- one that is behind for one has the other ahead.
pub compare_reports-opposite :
    (a b : Report) → 1 ≤ a.nops → 1 ≤ b.nops → compare_reports b a ≡ opposite (compare_reports a b)
unfolding compare_reports
compare_reports-opposite a b h k = ground arith

-- A rank waits in the same collective as itself, unless its record does not compare at all.
pub compare_reports_self :
    (a : Report)
    → compare_reports a a ≡ (if comparable a then Desync.waits_here else Desync.not_compared)
unfolding compare_reports
compare_reports_self a = ground arith
