-- ===== src/Desync/Mentions.antt =====
-- Where a report speaks of a rank.
use torch_mojo_backend.Prelude.{
  ℕ, zero, suc, ◌+◌, ◌≡◌, refl, ◌∙◌, ◌&&◌, List, [], ◌∷◌, ◌++◌, ◌==◌, ◌≤◌, subst, length, arith,
  leb, ltb, if◌then◌else◌,
}
use torch_mojo_backend.Desync
use torch_mojo_backend.Desync.{
  Report, Verdict, Line, Lists, note, note_all, verdict, desync_lines, assembled, headed,
  unless_missing, rank_line, ranks, first_ranks, same_ranks, missing_ranks, unless_empty,
}

pub occurs : ℕ → List ℕ → ℕ
occurs r [] = 0
occurs r (x ∷ xs) = (if x == r then 1 else 0) + occurs r xs

abbrev in_line : ℕ → Line → ℕ
in_line r (rank_line q v) = if q == r then 1 else 0
in_line r (same_ranks qs) = occurs r qs.shown
in_line r (missing_ranks qs) = occurs r qs.shown
in_line r _ = 0

-- How often the lines of a report name a rank.
pub mentions : ℕ → List Line → ℕ
mentions r [] = 0
mentions r (l ∷ ls) = in_line r l + mentions r ls

abbrev ranks_in : Line → ℕ
ranks_in (rank_line q v) = 1
ranks_in (same_ranks qs) = length qs.shown + qs.more
ranks_in (missing_ranks qs) = length qs.shown + qs.more
ranks_in _ = 0

-- How many ranks the lines name, and count as "more", together.
pub accounted : List Line → ℕ
accounted [] = 0
accounted (l ∷ ls) = ranks_in l + accounted ls

accounted-append : (a b : List Line) → accounted (a ++ b) ≡ accounted a + accounted b
unfolding accounted
accounted-append [] b = omega arith
accounted-append (x ∷ a) b = omega (arith, accounted-append a b)

length-append : (a b : List ℕ) → length (a ++ b) ≡ length a + length b
length-append [] b = omega arith
length-append (x ∷ a) b = omega (arith, length-append a b)

occurs-first : (r n : ℕ) (xs : List ℕ) → occurs r (first_ranks n xs).shown ≤ occurs r xs
unfolding occurs first_ranks
occurs-first r n [] = omega arith
occurs-first r zero (x ∷ xs) = omega (arith, occurs-first r zero xs)
occurs-first r (suc n) (x ∷ xs) = omega (arith, occurs-first r n xs)

length-first :
    (n : ℕ) (xs : List ℕ) → length (first_ranks n xs).shown + (first_ranks n xs).more ≡ length xs
unfolding first_ranks
length-first n [] = refl
length-first zero (x ∷ xs) = omega (arith, length-first zero xs)
length-first (suc n) (x ∷ xs) = omega (arith, length-first n xs)

occurs-append : (r : ℕ) (a b : List ℕ) → occurs r (a ++ b) ≡ occurs r a + occurs r b
unfolding occurs
occurs-append r [] b = omega arith
occurs-append r (x ∷ a) b = omega (arith, occurs-append r a b)

mentions-append : (r : ℕ) (a b : List Line) → mentions r (a ++ b) ≡ mentions r a + mentions r b
unfolding mentions
mentions-append r [] b = omega arith
mentions-append r (x ∷ a) b = omega (arith, mentions-append r a b)

abbrev in_lists : ℕ → Lists → ℕ
in_lists r ls = mentions r ls.out + occurs r ls.same + occurs r ls.missing

module _ (r q : ℕ) (ls : Lists) where
  said :
      (v : Verdict)
      → mentions r (ls.out ++ rank_line q v ∷ []) ≡ mentions r ls.out + (if q == r then 1 else 0)
  unfolding mentions
  said v = omega (arith, mentions-append r ls.out (rank_line q v ∷ []))

  -- Whatever is found of a rank is said once.
  in_lists-note :
      (v : Verdict) → in_lists r (note ls q v) ≡ in_lists r ls + (if q == r then 1 else 0)
  unfolding note occurs
  in_lists-note Desync.no_report = omega (arith, occurs-append r ls.missing (q ∷ []))
  in_lists-note Desync.waits_here = omega (arith, occurs-append r ls.same (q ∷ []))
  in_lists-note Desync.not_compared = omega (arith, said Desync.not_compared)
  in_lists-note Desync.regrouped = omega (arith, said Desync.regrouped)
  in_lists-note Desync.other_arguments = omega (arith, said Desync.other_arguments)
  in_lists-note Desync.behind = omega (arith, said Desync.behind)
  in_lists-note Desync.ahead = omega (arith, said Desync.ahead)

module _ (r : ℕ) where
  mentions-unless :
      (xs : List ℕ) (l : Line)
      → in_line r l ≤ occurs r xs
      → mentions r (unless_empty xs l) ≤ occurs r xs
  unfolding mentions occurs
  mentions-unless [] l e = omega arith
  mentions-unless (x ∷ xs) l e = omega (arith, e)

  mentions-diverged : (xs : List ℕ) → mentions r (unless_empty xs Desync.diverged_note) ≡ 0
  unfolding mentions
  mentions-diverged [] = refl
  mentions-diverged (x ∷ xs) = refl

  mentions-missing : (xs ys : List ℕ) → mentions r (unless_missing xs ys) ≡ 0
  unfolding mentions
  mentions-missing [] [] = refl
  mentions-missing [] (y ∷ ys) = refl
  mentions-missing (x ∷ xs) ys = refl

  mentions-assembled : (ls : Lists) → mentions r (assembled ls) ≤ in_lists r ls
  unfolding assembled
  mentions-assembled ls =
      let last = unless_missing ls.missing ls.diverged in
      let marked = unless_empty ls.diverged Desync.diverged_note in
      let gone = unless_empty ls.missing (missing_ranks (ranks ls.missing)) in
      let same = unless_empty ls.same (same_ranks (ranks ls.same)) in
      omega (
        arith,
        mentions-append r (ls.out ++ same ++ gone ++ marked) last,
        mentions-append r (ls.out ++ same ++ gone) marked,
        mentions-append r (ls.out ++ same) gone,
        mentions-append r ls.out same,
        mentions-unless ls.same (same_ranks (ranks ls.same)) (occurs-first r 16 ls.same),
        mentions-unless ls.missing (missing_ranks (ranks ls.missing))
            (occurs-first r 16 ls.missing),
        mentions-diverged ls.diverged,
        mentions-missing ls.missing ls.diverged,
      )

accounted-unless :
    (xs : List ℕ) (l : Line) → ranks_in l ≡ length xs → accounted (unless_empty xs l) ≡ length xs
unfolding accounted
accounted-unless [] l e = refl
accounted-unless (x ∷ xs) l e = omega (arith, e)

accounted-diverged : (xs : List ℕ) → accounted (unless_empty xs Desync.diverged_note) ≡ 0
unfolding accounted
accounted-diverged [] = refl
accounted-diverged (x ∷ xs) = refl

accounted-missing : (xs ys : List ℕ) → accounted (unless_missing xs ys) ≡ 0
unfolding accounted
accounted-missing [] [] = refl
accounted-missing [] (y ∷ ys) = refl
accounted-missing (x ∷ xs) ys = refl

abbrev noted : Lists → ℕ
noted ls = accounted ls.out + length ls.same + length ls.missing

accounted-assembled : (ls : Lists) → accounted (assembled ls) ≡ noted ls
unfolding assembled
accounted-assembled ls =
    let last = unless_missing ls.missing ls.diverged in
    let marked = unless_empty ls.diverged Desync.diverged_note in
    let gone = unless_empty ls.missing (missing_ranks (ranks ls.missing)) in
    let same = unless_empty ls.same (same_ranks (ranks ls.same)) in
    omega (
      arith,
      accounted-append (ls.out ++ same ++ gone ++ marked) last,
      accounted-append (ls.out ++ same ++ gone) marked,
      accounted-append (ls.out ++ same) gone,
      accounted-append ls.out same,
      accounted-unless ls.same (same_ranks (ranks ls.same)) (length-first 16 ls.same),
      accounted-unless ls.missing (missing_ranks (ranks ls.missing)) (length-first 16 ls.missing),
      accounted-diverged ls.diverged,
      accounted-missing ls.missing ls.diverged,
    )

module _ (q : ℕ) (ls : Lists) where
  one_more : (v : Verdict) → accounted (ls.out ++ rank_line q v ∷ []) ≡ accounted ls.out + 1
  unfolding accounted
  one_more v = omega (arith, accounted-append ls.out (rank_line q v ∷ []))

  noted-note : (v : Verdict) → noted (note ls q v) ≡ noted ls + 1
  unfolding note
  noted-note Desync.no_report = omega (arith, length-append ls.missing (q ∷ []))
  noted-note Desync.waits_here = omega (arith, length-append ls.same (q ∷ []))
  noted-note Desync.not_compared = omega (arith, one_more Desync.not_compared)
  noted-note Desync.regrouped = omega (arith, one_more Desync.regrouped)
  noted-note Desync.other_arguments = omega (arith, one_more Desync.other_arguments)
  noted-note Desync.behind = omega (arith, one_more Desync.behind)
  noted-note Desync.ahead = omega (arith, one_more Desync.ahead)

module _ (mine : Report) (reports : ℕ → List Report) where
  noted-note_all :
      (n from : ℕ) (ls : Lists) → noted (note_all mine reports n from ls) ≡ noted ls + n
  unfolding note_all
  noted-note_all zero from ls = omega arith
  noted-note_all (suc n) from ls =
      noted-note_all n (suc from) (note ls from (verdict mine (reports from)))
      ∙ omega (arith, noted-note from ls (verdict mine (reports from)))

module _ (mine : Report) (reports : ℕ → List Report) (r : ℕ) where
  in_lists-note_all :
      (n from : ℕ) (ls : Lists)
      → in_lists r (note_all mine reports n from ls)
        ≡ in_lists r ls + (if leb from r && ltb r (from + n) then 1 else 0)
  unfolding note_all
  in_lists-note_all zero from ls = ground arith
  in_lists-note_all (suc n) from ls =
      in_lists-note_all n (suc from) (note ls from (verdict mine (reports from)))
      ∙ ground (arith, in_lists-note r from ls (verdict mine (reports from)))

  mentions-lists :
      (world : ℕ)
      → in_lists r (note_all mine reports world 0 (headed mine)) ≡ (if ltb r world then 1 else 0)
  mentions-lists world =
      in_lists-note_all world 0 (headed mine) ∙ unfold mentions occurs in ground arith

  noted-lists : (world : ℕ) → noted (note_all mine reports world 0 (headed mine)) ≡ world
  noted-lists world =
      noted-note_all mine reports world 0 (headed mine) ∙ unfold accounted in omega arith

  -- A report names no rank of the group twice and no other rank at all, and the ranks it names, in lines
  -- of their own or among the first 16 that wait in the same collective or sent no report, are with those
  -- it only counts behind these ("and N more") exactly as many as the group has.
  pub each_rank_once :
      (world : ℕ)
      → (mentions r (desync_lines mine reports world) ≤ (if ltb r world then 1 else 0))
        × (accounted (desync_lines mine reports world) ≡ world)
  unfolding desync_lines
  each_rank_once world = (
    subst (λ n. mentions r (desync_lines mine reports world) ≤ n) (mentions-lists world)
        (mentions-assembled r (note_all mine reports world 0 (headed mine))),
    accounted-assembled (note_all mine reports world 0 (headed mine)) ∙ noted-lists world,
  )
